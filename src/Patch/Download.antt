-- ===== src/Patch/Download.antt =====
-- A file of a release on its way: `PatchImp::download` (PatchServer/PatchImp.cpp), which answers from
-- the cache or from the file, and `SingleFileDownloader::download`
-- (NodeServer/SingleFileDownloader.cpp), which asks until the end. A position
-- is the 32-bit `int` of the source, as a number below 2^32; the server takes it as a `size_t`.
pub mod Chunks
pub mod Whole
use tars_framework.Base.{
  ℕ, zero, suc, ◌+◌, ◌-◌, ◌%◌, Bool, true, false, not, Option, none, some, List, [], ◌∷◌, ◌++◌,
  String, if◌then◌else◌, leb, ltb, ◌==◌, min, length, get_elem?, take, drop,
}
use tars_framework.Base.Int.{ℤ, pos, negsuc, eqb_ℤ, ltb_ℤ}
use tars_framework.Patch.Cache.{
  MemState, PatchCache, Reading, not_opened, not_seeked, bytes, at_end, not_read, Surroundings,
  load, release,
}

abbrev buffer_of : PatchCache → ℕ → List ℕ
buffer_of c a = elim (get_elem? c.heap a) [
  | none ↦ []
  | some m ↦ elim m.mem_buf [ none ↦ [] | some buf ↦ buf ]
]

-- `pos += r` on the 32 bits of `pos`.
unfoldable pub advance : ℕ → ℕ → ℕ
advance from written = (from + written) % 4294967296

-- A negative position stands 2^64 higher as a `size_t`.
unfoldable pub to_size : ℕ → ℕ
to_size from = if ltb from 2147483648 then from else from + 18446744069414584320

-- The code and the bytes, which count with code 0 only.
unfoldable pub download_from_mem :
    Surroundings → String → ℕ → ℕ → PatchCache → (ℤ × List ℕ) × PatchCache
download_from_mem e file size from c =
    let r = load e file c in
    elim r.0 [
      | none ↦ ((negsuc 0, []), r.1)
      | some (a, n) ↦ if leb n from then ((pos 1, []), (release file r.1).1) else (
        (
          pos 0,
          take (if leb size (n - from) then size else n - from) (drop from (buffer_of r.1 a)),
        ),
        (release file r.1).1,
      )
    ]

-- After `fseek`.
unfoldable pub read_chunk : Reading → ℕ → ℕ → ℤ × List ℕ
read_chunk not_opened size from = (negsuc 0, [])
read_chunk not_seeked size from = (negsuc 1, [])
read_chunk (bytes bs) size from = elim (take size (drop from bs)) [
  | [] ↦ (pos 1, [])
  | b ∷ rest ↦ (pos 0, b ∷ rest)
]
read_chunk at_end size from = (pos 1, [])
read_chunk not_read size from = (negsuc 2, [])

-- `fseek` refuses a `size_t` that is negative as a `long`.
unfoldable pub download_from_file : Reading → ℕ → ℕ → ℤ × List ℕ
download_from_file not_opened size from = (negsuc 0, [])
download_from_file r size from =
    if leb 9223372036854775808 from then (negsuc 1, []) else read_chunk r size from

-- What one request finds: for the cache, and for the file itself.
pub record Served : Type 0 where
  pub surroundings : Surroundings
  pub disk : Reading

unfoldable pub download : Served → String → ℕ → ℕ → PatchCache → (ℤ × List ℕ) × PatchCache
download s file size from c =
    let r = download_from_mem s.surroundings file size (to_size from) c in
    if ltb_ℤ r.0.0 (pos 0) then (download_from_file s.disk size (to_size from), r.1) else r

-- One turn of the node's loop: its two attempts, none where a call throws, and the bytes that
-- there is room for on the disk.
pub record Turn : Type 0 where
  pub first : Option Served
  pub second : Option Served
  pub room : ℕ

-- Of two attempts, the first that does not throw; else the code of the turn before stays.
unfoldable pub fetch : Turn → String → ℕ → ℕ → ℤ → PatchCache → (ℤ × List ℕ) × PatchCache
fetch t file size from code c = elim t.first [
  | some s ↦ download s file size from c
  | none ↦ elim t.second [ some s ↦ download s file size from c | none ↦ ((code, []), c) ]
]

-- Whether the file is ended, and what is written; none while turns are missing.
unfoldable pub download_loop :
    List Turn → String → ℕ → ℤ → ℕ → List ℕ → PatchCache → Option (Bool × List ℕ)
download_loop [] file size code from local c = none
download_loop (t ∷ turns) file size code from local c =
    let r = fetch t file size from code c in
    let written = min t.room (length r.0.1) in
    let rest =
      download_loop turns file size r.0.0 (advance from written) (local ++ take written r.0.1)
        r.1 in
    let again = download_loop turns file size r.0.0 from local r.1 in
    if ltb_ℤ r.0.0 (pos 0)
    then some (false, local)
    else if eqb_ℤ r.0.0 (pos 0)
    then (if written == 0 then some (false, local) else rest)
    else if eqb_ℤ r.0.0 (pos 1)
    then some (true, local)
    else again

-- The first answer of two attempts to list the file: the code and the number of files.
unfoldable pub listed : Option (ℤ × ℕ) → Option (ℤ × ℕ) → ℤ × ℕ
listed (some r) second = r
listed none (some r) = r
listed none none = (pos 0, 0)

-- The code, and the local file if it was opened.
unfoldable pub download_single :
    ℤ × ℕ → Bool → List Turn → String → ℕ → PatchCache → Option (ℤ × Option (List ℕ))
download_single listing opened turns file size c =
    if not (eqb_ℤ listing.0 (pos 1))
    then some (negsuc 0, none)
    else if ltb listing.1 1
    then some (negsuc 1, none)
    else if not opened
    then some (negsuc 2, none)
    else elim (download_loop turns file size (pos 0) 0 [] c) [
      | none ↦ none
      | some (ended, local) ↦ some (if ended then pos 0 else negsuc 5, some local)
    ]
