-- ===== src/Patch/Tests.antt =====
-- The cache of the patch server and the download at concrete inputs.
use tars_framework.Base.{
  has, ℕ, ◌≡◌, refl, true, false, none, some, List, [], ◌∷◌, string_key, arith, get_elem?, length,
  All, ltb, ◌||◌, sym,
}
use tars_framework.Base.Map.{find, insert}
use tars_framework.Patch.Cache.{
  n_load, loaded, MemState, PatchCache, Stat, not_opened, bytes, Surroundings, load, load_new,
  get_mem, fill_new, fill, read_slot, load_file, describe, claim, checked, find_free, insert_new,
  count_up,
}
use tars_framework.Patch.Cache.Valid.{IsValid}
use tars_framework.Patch.Cache.Held.{
  IsPossible, load_call, release_call, run, perform, run-IsValid, run_held,
}
use tars_framework.Patch.Cache.Content.{Files, IsFresh, IsReadable, Holds, load_content}
use tars_framework.Patch.Cache.Unread.{unread_reused}
use tars_framework.Patch.Download.{Served, Turn}

abbrev empty : PatchCache
empty = record { heap = []; vec_mems = []; map_files = []; mem_max = 4; mem_min = 1; mem_num = 2 }

empty-IsValid : IsValid empty
unfolding find
empty-IsValid = record { live = λ a h. absurd (cc); mapped = λ g a h. absurd (cc) }

abbrev stat : Stat
stat = record { size = 3; inode = 7; mtime = 100 }

-- A file of three bytes.
abbrev found : Surroundings
found = record {
  stat = some stat;
  reading = bytes (1 ∷ 2 ∷ 3 ∷ []);
  malloc = some (0 ∷ 0 ∷ 0 ∷ 0 ∷ []);
  now = 1000;
  expire_time = 60;
}

abbrev closed : Surroundings
closed = record found { reading = not_opened }

allocates : (buf : List ℕ) → found.malloc ≡ some buf → length buf ≡ 4
allocates buf e = ground arith

run-IsValid_example : IsValid (run (load_call found "a" ∷ release_call "a" ∷ []) empty)
run-IsValid_example =
    run-IsValid (load_call found "a" ∷ release_call "a" ∷ []) empty empty-IsValid
      (allocates, (tt, tt))

-- After one load of the file.
abbrev held : PatchCache
held = run (load_call found "a" ∷ []) empty

abbrev slot : MemState
slot = record {
  file_name = "a";
  file_size = 3;
  file_inode = 7;
  file_time = 100;
  mem_buf = some (1 ∷ 2 ∷ 3 ∷ 0 ∷ []);
  mem_size = 4;
  mem_count = 1;
  mem_time = 1000;
  mem_load = loaded;
}

held-IsValid : IsValid held
held-IsValid = run-IsValid (load_call found "a" ∷ []) empty empty-IsValid (allocates, tt)

here : get_elem? held.heap 0 ≡ some slot
unfolding run perform load load_new get_mem fill_new fill read_slot load_file describe claim checked
    find_free insert_new find insert count_up
here = refl

possible : All (IsPossible held.mem_max) (load_call found "b" ∷ release_call "b" ∷ [])
unfolding run perform load load_new get_mem fill_new fill read_slot load_file describe claim checked
    find_free insert_new find insert count_up
possible = (allocates, (tt, tt))

in_list : has 0 held.vec_mems ≡ true
unfolding run perform load load_new get_mem fill_new fill read_slot load_file describe claim checked
    find_free insert_new find insert count_up
in_list = refl

run_held_example :
    (get_elem? (run (load_call found "b" ∷ release_call "b" ∷ []) held).heap 0 ≡ some slot)
    × (find "a" (run (load_call found "b" ∷ release_call "b" ∷ []) held).map_files ≡ some 0)
run_held_example =
    run_held (load_call found "b" ∷ release_call "b" ∷ []) held 0 slot held-IsValid possible in_list
      here (λ e. absurd (omega (arith, e))) (refl, (refl, tt))

abbrev files : Files
files file st = 1 ∷ 2 ∷ 3 ∷ []

empty-IsFresh : IsFresh files empty
empty-IsFresh a m h g = absurd (cc)

readable : IsReadable files found "a"
readable st e = (refl, (let size : st.size ≡ 3 = ground arith in sym size), ground arith)

load_content_example :
    IsFresh files (load found "a" empty).1
    × ((a size : ℕ)
        → (load found "a" empty).0 ≡ some (a, size)
        → (m : MemState) × (get_elem? (load found "a" empty).1.heap a ≡ some m)
          × Holds files found "a" a m (some (a, size)))
load_content_example =
    load_content files found empty "a" empty-IsValid empty-IsFresh allocates readable

abbrev unread : MemState
unread = record {
  file_name = "a";
  file_size = 3;
  file_inode = 7;
  file_time = 100;
  mem_buf = some (0 ∷ 0 ∷ 0 ∷ 0 ∷ []);
  mem_size = 4;
  mem_count = 0;
  mem_time = 0;
  mem_load = n_load;
}

unread_named : find "a" (load closed "a" empty).1.map_files ≡ some 0
unfolding run perform load load_new get_mem fill_new fill read_slot load_file describe claim checked
    find_free insert_new find insert count_up
unread_named = refl

unread_here : get_elem? (load closed "a" empty).1.heap 0 ≡ some unread
unfolding run perform load load_new get_mem fill_new fill read_slot load_file describe claim checked
    find_free insert_new find insert count_up
unread_here = refl

unread_sized :
    (ltb (load closed "a" empty).1.mem_max 3 || ltb 3 (load closed "a" empty).1.mem_min) ≡ false
unfolding run perform load load_new get_mem fill_new fill read_slot load_file describe claim checked
    find_free insert_new find insert count_up
unread_sized = refl

no_slot : find "a" empty.map_files ≡ none
unfolding find
no_slot = refl

unread_reused_example :
    (unread.mem_load ≡ n_load) × ((load found "a" (load closed "a" empty).1).0 ≡ some (0, 3))
unread_reused_example =
    unread_reused closed found empty "a" stat 0 unread empty-IsValid allocates no_slot refl refl
      unread_named unread_here refl refl unread_sized

abbrev served : Served
served = record { surroundings = found; disk = bytes (1 ∷ 2 ∷ 3 ∷ []) }

abbrev turn : Turn
turn = record { first = some served; second = none; room = 10 }

-- The first attempt throws.
abbrev retried : Turn
retried = record { first = none; second = some served; room = 1 }
