-- ===== src/Patch/Download/Whole.antt =====
-- The node's download (NodeServer/SingleFileDownloader.cpp) against the patch server: the whole file.
use tars_framework.Base.{ℕ, ◌≤◌, ◌≡◌, some, String}
use tars_framework.Base.Map.{or_else}
use tars_framework.Patch.Cache.{Stat}
use tars_framework.Patch.Cache.Content.{Files}
use tars_framework.Patch.Download.{Served, Turn}
use tars_framework.Patch.Download.Chunks.{IsServed}

-- One of the two attempts of a turn is served, and there is room on the disk.
pub record Works (files : Files) (file : String) (st : Stat) (mem_max : ℕ) (t : Turn) : Type 0 where
  pub answer : Served
  pub answered : or_else t.first t.second ≡ some answer
  pub served : IsServed files file st mem_max answer
  pub has_room : 1 ≤ t.room
