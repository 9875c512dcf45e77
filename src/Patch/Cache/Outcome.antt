-- ===== src/Patch/Cache/Outcome.antt =====
-- What a call of `PatchCache::load` or `release` (PatchServer/PatchCache.cpp) can do to a cache.
use tars_framework.Base.{
  has, ℕ, true, false, ◌≡◌, refl, sym, ap, ◌∙◌, Option, none, some, [], ◌∷◌, ◌++◌, ◌⊎◌, inl, inr,
  String, str_eq, string_key, eq_iff, ◌==◌, ==_iff, if◌then◌else◌, length, get_elem?, arith,
  Bool-cases, get_elem?-append_last, get_elem?-length,
}
use tars_framework.Base.Map.{find, erase, insert, find-erase, find-insert}
use tars_framework.Patch.Cache.{
  FileLoad, n_load, loading, reload, loaded, MemState, PatchCache, is_settled, is_loading, Stat,
  Surroundings, count_up, is_same_file, read_slot,
}
use tars_framework.Patch.Cache.Valid.{IsSound, IsLive, IsMapped, IsValid, Placed, Placed-IsValid}

-- What `load` gives out at the address `a`, for the state `m` that the slot has then.
pub data Given (e : Surroundings) (c : PatchCache) (file : String) (a : ℕ) (m : MemState)
    (o : Option (ℕ × ℕ)) : Type 0 where
  -- The file is the one that was read before.
  reused :
      (st : Stat) (old : MemState)
      → e.stat ≡ some st
      → has a c.vec_mems ≡ true
      → get_elem? c.heap a ≡ some old
      → old.file_name ≡ file
      → is_same_file st old ≡ true
      → m ≡ record old { mem_time = e.now; mem_count = count_up old.mem_count }
      → o ≡ some (a, old.file_size)
      → Given e c file a m o
  -- The file is read.
  read :
      (st : Stat) (before : MemState)
      → e.stat ≡ some st
      → (before.file_name ≡ file)
        × (before.file_size ≡ st.size)
        × (before.file_inode ≡ st.inode)
        × (before.file_time ≡ st.mtime)
      → IsSound c.mem_max before
      → m ≡ (read_slot e st.size before).1
      → o ≡ (if (read_slot e st.size before).0 then some (a, st.size) else none)
      → Given e c file a m o

pub data Outcome (e : Surroundings) (c : PatchCache) (file : String)
    (r : Option (ℕ × ℕ) × PatchCache) : Type 0 where
  unchanged : r ≡ (none, c) → Outcome e c file r
  -- The slot of a buffer that could not be made is forgotten.
  forgotten :
      (a : ℕ) (m : MemState)
      → find file c.map_files ≡ some a
      → get_elem? c.heap a ≡ some m
      → is_loading m.mem_load ≡ true
      → r ≡ (none, record c { map_files = erase file c.map_files })
      → Outcome e c file r
  -- A buffer cannot be made; the name keeps a slot that is in no list.
  no_buffer :
      (m : MemState)
      → find file c.map_files ≡ none
      → is_loading m.mem_load ≡ true
      → r ≡ (
        none,
        record c { heap = c.heap ++ (m ∷ []); map_files = insert file (length c.heap) c.map_files },
      )
      → Outcome e c file r
  -- The file takes a slot, its own, or one that nobody holds.
  placed :
      (a : ℕ) (m : MemState)
      → ((old : MemState)
          → get_elem? c.heap a ≡ some old
          → (find file c.map_files ≡ some a) ⊎ (old.mem_count ≡ 0))
      → Placed c file a m r.1
      → Given e c file a m r.0
      → Outcome e c file r

module _ (c : PatchCache) (file : String) (v : IsValid c) where
  -- A live slot has no name that a slot in the middle of a load has.
  live_other :
      (a : ℕ) (m : MemState)
      → find file c.map_files ≡ some a
      → get_elem? c.heap a ≡ some m
      → is_loading m.mem_load ≡ true
      → (b : ℕ) (l : IsLive c b) → str_eq file l.state.file_name ≡ false
  live_other a m f g k b l = elim (Bool-cases (str_eq file l.state.file_name)) [
    | inr e ↦ e
    | inl e ↦
        let same : file ≡ l.state.file_name = (eq_iff file l.state.file_name).0 e in
        let at : a ≡ b = cc (rw same at f, l.named) in
        let one : m ≡ l.state = cc (rw at at g, l.here) in
        absurd (both l.state.mem_load (rw (sym one) k) l.settled)
  ]
    where
      both : (x : FileLoad) → is_loading x ≡ true → is_settled x ≡ true → ⊥
      both n_load p q = cc
      both loading p q = cc
      both reload p q = cc
      both loaded p q = cc

  forgotten-IsValid :
      (a : ℕ) (m : MemState)
      → find file c.map_files ≡ some a
      → get_elem? c.heap a ≡ some m
      → is_loading m.mem_load ≡ true
      → IsValid (record c { map_files = erase file c.map_files })
  forgotten-IsValid a m f g k = record {
    live = λ b h.
        let l = v.live b h in
        record {
          state = l.state;
          here = l.here;
          settled = l.settled;
          named =
              (let other = live_other a m f g k b l in
                find-erase file l.state.file_name c.map_files ∙ rw other l.named);
          sound = l.sound;
        };
    mapped = λ g' b h.
        let was : find g' c.map_files ≡ some b = ground (arith, find-erase file g' c.map_files) in
        let w = v.mapped g' b was in record { state = w.state; here = w.here; kind = w.kind };
  }

  -- The next address is not in use.
  pub fresh : has (length c.heap) c.vec_mems ≡ false
  fresh = elim (Bool-cases (has (length c.heap) c.vec_mems)) [
    | inr e ↦ e
    | inl e ↦ let l = v.live (length c.heap) e in absurd (cc (get_elem?-length c.heap, l.here))
  ]

  fresh_ne : (b : ℕ) → has b c.vec_mems ≡ true → (length c.heap == b) ≡ false
  fresh_ne b h = elim (Bool-cases (length c.heap == b)) [
    | inr e ↦ e
    | inl e ↦
        let same : length c.heap ≡ b = (==_iff (length c.heap) b).0 e in
        absurd (cc (fresh, rw (sym same) at h))
  ]

  -- A slot of the heap has another address than the next.
  pub in_heap : (b : ℕ) (m : MemState) → get_elem? c.heap b ≡ some m → (length c.heap == b) ≡ false
  in_heap b m e = elim (Bool-cases (length c.heap == b)) [
    | inr h ↦ h
    | inl h ↦
        let same : length c.heap ≡ b = (==_iff (length c.heap) b).0 h in
        absurd (cc (get_elem?-length c.heap, rw (sym same) at e))
  ]

  -- The name gets the next address, that of a slot whose buffer could not be made.
  lost :
      (m : MemState) (g : String) (b : ℕ)
      → is_loading m.mem_load ≡ true
      → length c.heap ≡ b
      → IsMapped
          (record c {
            heap = c.heap ++ (m ∷ []);
            map_files = insert file (length c.heap) c.map_files;
          })
          g
          b
  lost m g b k e = record {
    state = m;
    here =
        (let same : (length c.heap == b) ≡ true = ground (arith, e) in
          get_elem?-append_last c.heap m b ∙ rw same refl);
    kind = inr (rw (sym e) fresh, k);
  }

  no_buffer-IsValid :
      (m : MemState)
      → find file c.map_files ≡ none
      → is_loading m.mem_load ≡ true
      → IsValid (record c {
        heap = c.heap ++ (m ∷ []);
        map_files = insert file (length c.heap) c.map_files;
      })
  no_buffer-IsValid m f k = record {
    live = λ b h.
        let l = v.live b h in
        let apart = fresh_ne b h in
        let other : str_eq file l.state.file_name ≡ false =
          ground (arith, l.named, eq_iff file l.state.file_name) in
        record {
          state = l.state;
          here = get_elem?-append_last c.heap m b ∙ rw apart l.here;
          settled = l.settled;
          named = find-insert file l.state.file_name (length c.heap) c.map_files ∙ rw other l.named;
          sound = l.sound;
        };
    mapped = λ g b h. elim (Bool-cases (str_eq file g)) [
      | inl e ↦ lost m g b k (ground (arith, find-insert file g (length c.heap) c.map_files))
      | inr e ↦
          let was : find g c.map_files ≡ some b =
            ground (arith, find-insert file g (length c.heap) c.map_files) in
          let w = v.mapped g b was in
          record {
            state = w.state;
            here = get_elem?-append_last c.heap m b ∙ rw (in_heap b w.state w.here) w.here;
            kind = w.kind;
          }
    ];
  }

  pub Outcome-IsValid :
      (e : Surroundings) (r : Option (ℕ × ℕ) × PatchCache) → Outcome e c file r → IsValid r.1
  Outcome-IsValid e r (unchanged q) = rw (ap (λ x. x.1) q) v
  Outcome-IsValid e r (forgotten a m f g k q) = rw (ap (λ x. x.1) q) (forgotten-IsValid a m f g k)
  Outcome-IsValid e r (no_buffer m f k q) = rw (ap (λ x. x.1) q) (no_buffer-IsValid m f k)
  Outcome-IsValid e r (placed a m free p g) = Placed-IsValid c file a m r.1 v p
