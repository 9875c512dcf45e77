-- ===== src/Patch/Cache/Unread.antt =====
-- What `PatchCache::load` (PatchServer/PatchCache.cpp) gives out after a file could not be read.
use tars_framework.Base.{
  ℕ, true, false, ◌||◌, ◌≡◌, refl, sym, ap, ◌∙◌, Option, none, some, [], ◌∷◌, ◌++◌, String,
  string_key, ◌==◌, ==_iff, ltb, length, get_elem?, arith, get_elem?-append_last, eq_iff,
}
use tars_framework.Base.Map.{find, insert, find-insert}
use tars_framework.Patch.Cache.{
  n_load, MemState, PatchCache, Stat, not_opened, Surroundings, is_loading, is_same_file, load_file,
  read_slot, load_again, load,
}
use tars_framework.Patch.Cache.Valid.{IsSound, IsValid}
use tars_framework.Patch.Cache.Outcome.{
  reused, read, Outcome, unchanged, forgotten, no_buffer, placed,
}
use tars_framework.Patch.Cache.Loads.{Allocates, load-Outcome}

-- A slot that could not be read has the bytes that it had, and the size and times of the file.
record IsUnread (st : Stat) (m : MemState) : Type 0 where
  not_loaded : m.mem_load ≡ n_load
  same_file : is_same_file st m ≡ true

is_same_file_lem :
    (st : Stat) (m : MemState)
    → (m.file_size ≡ st.size) × (m.file_inode ≡ st.inode) × (m.file_time ≡ st.mtime)
    → is_same_file st m ≡ true
unfolding is_same_file
is_same_file_lem st m h = ground arith

unread :
    (e : Surroundings) (st : Stat) (mem_max : ℕ) (m : MemState)
    → e.reading ≡ not_opened
    → IsSound mem_max m
    → (m.file_size ≡ st.size) × (m.file_inode ≡ st.inode) × (m.file_time ≡ st.mtime)
    → IsUnread st (read_slot e st.size m).1
unfolding read_slot load_file
unread e st mem_max m r s h =
    let b = s.has_buf in
    let q : read_slot e st.size m
        ≡ (false, record m { mem_buf = some s.buf; mem_time = 0; mem_load = n_load }) =
      simp (read_slot, b, r) in
    rw q record {
      not_loaded = refl;
      same_file =
          is_same_file_lem st (record m { mem_buf = some s.buf; mem_time = 0; mem_load = n_load })
            h;
    }

after_failure :
    (e : Surroundings) (c : PatchCache) (file : String) (st : Stat) (a : ℕ) (m : MemState)
    (r : Option (ℕ × ℕ) × PatchCache)
    → IsValid c
    → find file c.map_files ≡ none
    → e.stat ≡ some st
    → e.reading ≡ not_opened
    → find file r.1.map_files ≡ some a
    → get_elem? r.1.heap a ≡ some m
    → is_loading m.mem_load ≡ false
    → Outcome e c file r
    → IsUnread st m
after_failure e c file st a m r v f s n g h k (unchanged q) =
    absurd (cc (rw (ap (λ x. x.1) q) at g, f))
after_failure e c file st a m r v f s n g h k (forgotten b x y z l q) = absurd (cc (f, y))
after_failure e c file st a m r v f s n g h k (no_buffer x y z q) =
    let found : find file (insert file (length c.heap) c.map_files) ≡ some (length c.heap) =
      ground (arith, find-insert file file (length c.heap) c.map_files, eq_iff file file) in
    let at : length c.heap ≡ a = cc (rw (ap (λ w. w.1) q) at g, found) in
    let own : (length c.heap == a) ≡ true = (==_iff (length c.heap) a).1 at in
    let here : get_elem? (c.heap ++ (x ∷ [])) a ≡ some x =
      get_elem?-append_last c.heap x a ∙ rw own refl in
    let one : x ≡ m = cc (rw (ap (λ w. w.1) q) at h, here) in absurd (cc (rw one at z, k))
after_failure e c file st a m r v f s n g h k (placed b x free p (reused st2 old t y z w u q o)) =
    let l = v.live b y in
    let one : l.state ≡ old = cc (l.here, z) in absurd (cc (rw (one, w) at l.named, f))
after_failure e c file st a m r v f s n g h k (placed b x free p (read st2 before t d sound q o)) =
    let at : b ≡ a = cc (p.own, g) in
    let one : x ≡ m = cc (rw at at p.here, h) in
    let same : st2 ≡ st = cc (t, s) in
    let state : m ≡ (read_slot e st.size before).1 =
      sym one ∙ q ∙ ap (λ (w : Stat). (read_slot e w.size before).1) same in
    rw state (
      unread e st c.mem_max before n sound
        (d.1 ∙ ap (λ w. w.size) same, d.2 ∙ ap (λ w. w.inode) same, d.3 ∙ ap (λ w. w.mtime) same))

-- `load` of a file that is as it was when its slot was described.
load_reused :
    (e : Surroundings) (c : PatchCache) (file : String) (st : Stat) (a : ℕ) (m : MemState)
    → e.stat ≡ some st
    → (ltb c.mem_max st.size || ltb st.size c.mem_min) ≡ false
    → find file c.map_files ≡ some a
    → get_elem? c.heap a ≡ some m
    → is_loading m.mem_load ≡ false
    → is_same_file st m ≡ true
    → (load e file c).0 ≡ some (a, m.file_size)
unfolding load load_again
load_reused e c file st a m s b f h k q = simp (load, load_again, s, b, f, h, k, q)

-- If a file that has no slot is described but cannot be opened, and gets a slot all the same, the
-- slot is marked as not loaded; and yet the next `load` of the file, unchanged, gives this slot out
-- without reading it.
pub unread_reused :
    (e again : Surroundings) (c : PatchCache) (file : String) (st : Stat) (a : ℕ) (m : MemState)
    → IsValid c
    → Allocates e c.mem_max
    → find file c.map_files ≡ none
    → e.stat ≡ some st
    → e.reading ≡ not_opened
    → find file (load e file c).1.map_files ≡ some a
    → get_elem? (load e file c).1.heap a ≡ some m
    → is_loading m.mem_load ≡ false
    → again.stat ≡ some st
    → (ltb (load e file c).1.mem_max st.size || ltb st.size (load e file c).1.mem_min) ≡ false
    → (m.mem_load ≡ n_load) × ((load again file (load e file c).1).0 ≡ some (a, m.file_size))
unread_reused e again c file st a m v k f s n g h l t b =
    let u =
      after_failure e c file st a m (load e file c) v f s n g h l (load-Outcome e file c v k) in
    (u.not_loaded, load_reused again (load e file c).1 file st a m t b g h l u.same_file)
