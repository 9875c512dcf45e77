-- ===== src/Patch/Cache/Loads.antt =====
-- `PatchCache::load` and `release` (PatchServer/PatchCache.cpp) do one of the things that a cache allows.
use tars_framework.Base.{
  ℕ, ◌≤◌, true, false, ◌||◌, ◌≡◌, refl, sym, ap, ◌∙◌, Option, none, some, List, [], ◌∷◌, ◌++◌, inl,
  inr, String, string_key, eq_iff, ◌==◌, if◌then◌else◌, ltb, length, get_elem?, modify, arith,
  Bool-cases, Option-cases, get_elem?-modify, get_elem?-append_last, get_elem?-length,
}
use tars_framework.Base.Map.{Map, find, erase, insert, find-erase, find-insert}
use tars_framework.Patch.Cache.{
  MemState, PatchCache, Stat, Surroundings, is_loading, find_free, insert_new, new_state, claim,
  checked, get_mem, read_slot, describe, fill_new, load_again, load_new, load,
}
use tars_framework.Patch.Cache.Valid.{IsSound, IsValid}
use tars_framework.Patch.Cache.Outcome.{Outcome, read, unchanged, no_buffer, placed}
use tars_framework.Patch.Cache.Places.{Placed-taken, Placed-grown, without_new, find_free_lem}
use tars_framework.Patch.Cache.Read.{read_slot-Ready, fill_lem, twice, load_again-Outcome}

insert_new_lem :
    (file : String) (a : ℕ) (m : Map String ℕ)
    → find file m ≡ none
    → insert_new file a m ≡ insert file a m
unfolding insert_new
insert_new_lem file a m e = rw (insert_new, e) refl

insert_new_same :
    (file : String) (a : ℕ) (m : Map String ℕ)
    → insert_new file a (insert file a m) ≡ insert file a m
unfolding insert_new
insert_new_same file a m =
    let e : find file (insert file a m) ≡ some a =
      ground (arith, find-insert file file a m, eq_iff file file) in
    rw (insert_new, e) refl

claimed : (mem_max : ℕ) (m : MemState) → is_loading (claim mem_max m).mem_load ≡ true
unfolding claim
claimed mem_max m = refl

erased_too :
    (file name : String) (m : Map String ℕ) → find file m ≡ none → find file (erase name m) ≡ none
erased_too file name m e = ground (arith, find-erase name file m)

-- `malloc` gives as many bytes as it is asked for.
abbrev pub Allocates : Surroundings → ℕ → Type 0
Allocates e mem_max = (buf : List ℕ) → e.malloc ≡ some buf → length buf ≡ mem_max

module _ (e : Surroundings) (file : String) (st : Stat) (c : PatchCache) (v : IsValid c)
    (fits : st.size ≤ c.mem_max) (f : find file c.map_files ≡ none) (s : e.stat ≡ some st) where
  get_mem_free :
      (a : ℕ) (m : MemState) (buf : List ℕ)
      → find_free e.now e.expire_time c.heap c.vec_mems ≡ some (a, m)
      → m.mem_buf ≡ some buf
      → get_mem e file c ≡ (
        some a,
        record c {
          heap = modify c.heap a (claim c.mem_max);
          map_files = erase m.file_name c.map_files;
        },
      )
  unfolding get_mem checked
  get_mem_free a m buf g b = rw (get_mem, g, checked, b) refl

  get_mem_full :
      find_free e.now e.expire_time c.heap c.vec_mems ≡ none
      → ltb (length c.vec_mems) c.mem_num ≡ false
      → get_mem e file c ≡ (none, c)
  unfolding get_mem
  get_mem_full g h = rw (get_mem, g, h) refl

  abbrev grown : PatchCache
  grown = record c {
    heap = c.heap ++ (claim c.mem_max (new_state e.malloc) ∷ []);
    vec_mems = c.vec_mems ++ (length c.heap ∷ []);
    map_files = insert file (length c.heap) c.map_files;
  }

  get_mem-none :
      find_free e.now e.expire_time c.heap c.vec_mems ≡ none
      → ltb (length c.vec_mems) c.mem_num ≡ true
      → e.malloc ≡ none
      → get_mem e file c ≡ (none, record grown { vec_mems = c.vec_mems })
  unfolding get_mem checked
  get_mem-none g h m =
      rw (get_mem, g, h, m, insert_new_lem file (length c.heap) c.map_files f, without_new c v) refl

  get_mem_new :
      (buf : List ℕ)
      → find_free e.now e.expire_time c.heap c.vec_mems ≡ none
      → ltb (length c.vec_mems) c.mem_num ≡ true
      → e.malloc ≡ some buf
      → get_mem e file c ≡ (some (length c.heap), grown)
  unfolding get_mem checked
  get_mem_new buf g h m =
      rw (get_mem, g, h, m, insert_new_lem file (length c.heap) c.map_files f) refl

  -- A slot that nobody holds is taken.
  load_free :
      (a : ℕ) (m : MemState)
      → find_free e.now e.expire_time c.heap c.vec_mems ≡ some (a, m)
      → Outcome e c file (load_new e file st c)
  unfolding load_new fill_new claim describe
  load_free a m g =
      let free = find_free_lem e.now e.expire_time c.heap c.vec_mems a m g in
      let l = v.live a free.0 in
      let one : l.state ≡ m = cc (free.1, l.here) in
      let sound : IsSound c.mem_max m = rw (sym one) l.sound in
      let self : (a == a) ≡ true = ground arith in
      let named : MemState → MemState = λ m. record (describe st m) { file_name = file } in
      let taken = modify c.heap a (claim c.mem_max) in
      let here : get_elem? taken a ≡ some (claim c.mem_max m) =
        get_elem?-modify (claim c.mem_max) c.heap a a m free.1 ∙ rw self refl in
      let new = (read_slot e st.size (named (claim c.mem_max m))).1 in
      let w = twice e file st c v fits named taken a (claim c.mem_max m) new here in
      let buf : m.mem_buf ≡ some sound.buf = sound.has_buf in
      let gone =
        insert_new_lem file a (erase m.file_name c.map_files)
          (erased_too file m.file_name c.map_files f) in
      let d : PatchCache = record c {
        heap = modify taken a named;
        map_files = insert_new file a (erase m.file_name c.map_files);
      } in
      let filled =
        fill_lem e a st.size d (named (claim c.mem_max m))
          (get_elem?-modify named taken a a (claim c.mem_max m) here ∙ rw self refl) in
      let o : Option (ℕ × ℕ) =
        if (read_slot e st.size (named (claim c.mem_max m))).0 then some (a, st.size) else none in
      let q : load_new e file st c ≡ (
        o,
        record d {
          heap = modify (modify taken a named) a (λ _. new);
          map_files = insert file a (erase m.file_name c.map_files);
        },
      ) =
        ap (fill_new e file st) (get_mem_free a m sound.buf g buf)
        ∙ filled
        ∙ ap
            (λ m.
              (o, record d { heap = modify (modify taken a named) a (λ _. new); map_files = m }))
            gone in
      (rw q (
        placed a new (λ n h. inr (cc (free.1, h, free.3)))
          (Placed-taken c v file a m new (modify (modify taken a named) a (λ _. new)) f free.0
            free.1 w.0
            (λ b ne. w.1 b ne ∙ get_elem?-modify (claim c.mem_max) c.heap a b m free.1 ∙ rw ne refl)
            (read_slot-Ready e c.mem_max st.size file (named (claim c.mem_max m)) fits refl
              record { buf = sound.buf; has_buf = sound.has_buf; full = sound.full; fits = fits }))
          (read st (named (claim c.mem_max m)) s (refl, refl, refl, refl)
            record { buf = sound.buf; has_buf = sound.has_buf; full = sound.full; fits = fits } refl
            refl)))

  -- A new slot is made.
  load_grown :
      (buf : List ℕ)
      → find_free e.now e.expire_time c.heap c.vec_mems ≡ none
      → ltb (length c.vec_mems) c.mem_num ≡ true
      → e.malloc ≡ some buf
      → length buf ≡ c.mem_max
      → Outcome e c file (load_new e file st c)
  unfolding load_new fill_new claim describe
  load_grown buf g h m full =
      let a = length c.heap in
      let x = claim c.mem_max (new_state e.malloc) in
      let self : (a == a) ≡ true = ground arith in
      let named : MemState → MemState = λ m. record (describe st m) { file_name = file } in
      let heap = c.heap ++ (x ∷ []) in
      let here : get_elem? heap a ≡ some x = get_elem?-append_last c.heap x a ∙ rw self refl in
      let new = (read_slot e st.size (named x)).1 in
      let w = twice e file st c v fits named heap a x new here in
      let d : PatchCache = record grown {
        heap = modify heap a named;
        map_files = insert_new file a grown.map_files;
      } in
      let kept : insert_new file a grown.map_files ≡ grown.map_files =
        insert_new_same file a c.map_files in
      let filled =
        fill_lem e a st.size d (named x) (get_elem?-modify named heap a a x here ∙ rw self refl) in
      let o : Option (ℕ × ℕ) =
        if (read_slot e st.size (named x)).0 then some (a, st.size) else none in
      let q : load_new e file st c
          ≡ (o, record grown { heap = modify (modify heap a named) a (λ _. new) }) =
        ap (fill_new e file st) (get_mem_new buf g h m)
        ∙ filled
        ∙ ap
            (λ m.
              (o, record grown { heap = modify (modify heap a named) a (λ _. new); map_files = m }))
            kept in
      rw q (
        placed a new (λ n k. absurd (cc (get_elem?-length c.heap, k)))
          (Placed-grown c v file new (modify (modify heap a named) a (λ _. new)) f w.0
            (λ b ne. w.1 b ne ∙ get_elem?-append_last c.heap x b ∙ rw ne refl)
            (read_slot-Ready e c.mem_max st.size file (named x) fits refl
              record { buf = buf; has_buf = m; full = full; fits = fits }))
          (read st (named x) s (refl, refl, refl, refl)
            record { buf = buf; has_buf = m; full = full; fits = fits } refl refl))

  load_new-Outcome : Allocates e c.mem_max → Outcome e c file (load_new e file st c)
  unfolding load_new fill_new
  load_new-Outcome k = elim (Option-cases (find_free e.now e.expire_time c.heap c.vec_mems)) [
    | inr ((a, m), g) ↦ load_free a m g
    | inl g ↦ elim (Bool-cases (ltb (length c.vec_mems) c.mem_num)) [
      | inl h ↦ elim (Option-cases e.malloc) [
        | inl m ↦
            no_buffer (claim c.mem_max (new_state e.malloc)) f
              (claimed c.mem_max (new_state e.malloc))
              (ap (fill_new e file st) (get_mem-none g h m))
        | inr (buf, m) ↦ load_grown buf g h m (k buf m)
      ]
      | inr h ↦ unchanged (ap (fill_new e file st) (get_mem_full g h))
    ]
  ]

-- `load` of a file whose size is in the bounds.
load_sized :
    (e : Surroundings) (file : String) (st : Stat) (c : PatchCache)
    → IsValid c
    → Allocates e c.mem_max
    → e.stat ≡ some st
    → (ltb c.mem_max st.size || ltb st.size c.mem_min) ≡ false
    → Outcome e c file (load e file c)
unfolding load
load_sized e file st c v k s h =
    let fits : st.size ≤ c.mem_max = ground arith in
    elim (Option-cases (find file c.map_files)) [
      | inl f ↦
          let q : load e file c ≡ load_new e file st c = simp (load, s, h, f) in
          rw q (load_new-Outcome e file st c v fits f s k)
      | inr (a, f) ↦
          let m = v.mapped file a f in
          let q : load e file c ≡ load_again e file st a m.state c = simp (load, s, h, f, m.here) in
          rw q (load_again-Outcome e file st c v fits a m.state f m.here s)
    ]

-- Whatever a call of `load` finds, it does one of the things that a cache allows.
pub load-Outcome :
    (e : Surroundings) (file : String) (c : PatchCache)
    → IsValid c
    → Allocates e c.mem_max
    → Outcome e c file (load e file c)
unfolding load
load-Outcome e file c v k = elim (Option-cases e.stat) [
  | inl s ↦ unchanged (simp (load, s))
  | inr (st, s) ↦ elim (Bool-cases (ltb c.mem_max st.size || ltb st.size c.mem_min)) [
    | inl h ↦ unchanged (simp (load, s, h))
    | inr h ↦ load_sized e file st c v k s h
  ]
]
