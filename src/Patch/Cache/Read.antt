-- ===== src/Patch/Cache/Read.antt =====
-- A file is read into a slot (PatchServer/PatchCache.cpp, the end of `load`), which it may have before.
use tars_framework.Base.{
  ℕ, suc, ◌≤◌, true, false, ◌≡◌, refl, sym, ap, ◌∙◌, none, some, List, [], ◌∷◌, inl, inr, String,
  string_key, ◌==◌, if◌then◌else◌, length, take, drop, get_elem?, modify, arith, Bool-cases,
  length-append, length-drop, length-take_le, get_elem?-modify,
}
use tars_framework.Base.Int.{pos, eqb_ℤ}
use tars_framework.Base.Map.{find}
use tars_framework.Patch.Cache.{
  reload, MemState, PatchCache, Stat, Reading, not_opened, not_seeked, bytes, at_end, not_read,
  Surroundings, load_file, count_up, is_loading, read_slot, fill, describe, is_same_file,
  load_again,
}
use tars_framework.Patch.Cache.Valid.{IsSound, IsValid}
use tars_framework.Patch.Cache.Outcome.{Outcome, reused, read, forgotten, placed}
use tars_framework.Patch.Cache.Places.{Ready, own_slot, Placed-here}

read_bytes :
    (bs t : List ℕ) (size : ℕ) (buf : List ℕ)
    → take size bs ≡ t
    → size ≤ length buf
    → length (load_file (bytes bs) size buf).1 ≡ length buf
unfolding load_file
read_bytes bs [] size buf e h = rw (load_file, e) refl
read_bytes bs (b ∷ rest) size buf e h =
    rw (load_file, e)
      (omega (
        arith,
        length-append (b ∷ rest) (drop (suc (length rest)) buf),
        length-drop (suc (length rest)) buf,
        length-take_le size bs,
        ap length e,
      ))

-- The buffer keeps its size.
length-load_file :
    (r : Reading) (size : ℕ) (buf : List ℕ)
    → size ≤ length buf
    → length (load_file r size buf).1 ≡ length buf
unfolding load_file
length-load_file not_opened size buf h = refl
length-load_file not_seeked size buf h = refl
length-load_file (bytes bs) size buf h = read_bytes bs (take size bs) size buf refl h
length-load_file at_end size buf h = refl
length-load_file not_read size buf h = refl

-- A slot that is read is ready, whether that succeeds or not.
pub read_slot-Ready :
    (e : Surroundings) (mem_max size : ℕ) (file : String) (m : MemState)
    → size ≤ mem_max
    → m.file_name ≡ file
    → IsSound mem_max m
    → Ready mem_max file (read_slot e size m).1
unfolding read_slot
read_slot-Ready e mem_max size file m h n s =
    let b = s.has_buf in
    let r = load_file e.reading size s.buf in
    let full : length r.1 ≡ mem_max =
      length-load_file e.reading size s.buf (omega (arith, s.full)) ∙ s.full in
    elim (Bool-cases (eqb_ℤ r.0 (pos 0))) [
      | inl k ↦
          rw (read_slot, b, k)
            record {
              settled = refl;
              name = n;
              sound = record { buf = r.1; has_buf = refl; full = full; fits = s.fits };
            }
      | inr k ↦
          rw (read_slot, b, k)
            record {
              settled = refl;
              name = n;
              sound = record { buf = r.1; has_buf = refl; full = full; fits = s.fits };
            }
    ]

pub fill_lem :
    (e : Surroundings) (a size : ℕ) (c : PatchCache) (m : MemState)
    → get_elem? c.heap a ≡ some m
    → fill e a size c ≡ (
      if (read_slot e size m).0 then some (a, size) else none,
      record c { heap = modify c.heap a (λ _. (read_slot e size m).1) },
    )
unfolding fill
fill_lem e a size c m h = rw (fill, h) refl

module _ (e : Surroundings) (file : String) (st : Stat) (c : PatchCache) (v : IsValid c)
    (fits : st.size ≤ c.mem_max) where
  -- A slot of the heap is written twice: it is described, and then read.
  pub twice :
      (f : MemState → MemState) (heap : List MemState) (a : ℕ) (m new : MemState)
      → get_elem? heap a ≡ some m
      → (get_elem? (modify (modify heap a f) a (λ _. new)) a ≡ some new)
        × ((b : ℕ)
            → (a == b) ≡ false
            → get_elem? (modify (modify heap a f) a (λ _. new)) b ≡ get_elem? heap b)
  twice f heap a m new h =
      let own : (a == a) ≡ true = ground arith in
      let once : get_elem? (modify heap a f) a ≡ some (f m) =
        get_elem?-modify f heap a a m h ∙ rw own refl in
      (
        get_elem?-modify (λ _. new) (modify heap a f) a a (f m) once ∙ rw own refl,
        λ b ne.
            get_elem?-modify (λ _. new) (modify heap a f) a b (f m) once
            ∙ rw ne (get_elem?-modify f heap a b m h ∙ rw ne refl),
      )

  pub load_again-Outcome :
      (a : ℕ) (m : MemState)
      → find file c.map_files ≡ some a
      → get_elem? c.heap a ≡ some m
      → e.stat ≡ some st
      → Outcome e c file (load_again e file st a m c)
  unfolding load_again describe
  load_again-Outcome a m f h s = elim (Bool-cases (is_loading m.mem_load)) [
    | inl k ↦ rw (load_again, k) (forgotten a m f h k refl)
    | inr k ↦
        let own = own_slot c v file a m f h k in
        let l = v.live a own.0 in
        let one : l.state ≡ m = cc (h, l.here) in
        let sound : IsSound c.mem_max m = rw (sym one) l.sound in
        let self : (a == a) ≡ true = ground arith in
        elim (Bool-cases (is_same_file st m)) [
          | inl same ↦
              let new = record m { mem_time = e.now; mem_count = count_up m.mem_count } in
              let touch : MemState → MemState =
                λ m. record m { mem_time = e.now; mem_count = count_up m.mem_count } in
              rw (load_again, k, same)
                (placed a new (λ n g. inl f)
                  (Placed-here c v file a m new (modify c.heap a touch) f h k
                    (get_elem?-modify touch c.heap a a m h ∙ rw self refl)
                    (λ b ne. get_elem?-modify touch c.heap a b m h ∙ rw ne refl)
                    record {
                      settled = rw (sym one) l.settled;
                      name = own.1;
                      sound = record {
                        buf = sound.buf;
                        has_buf = sound.has_buf;
                        full = sound.full;
                        fits = sound.fits;
                      };
                    })
                  (reused st m s own.0 h own.1 same refl refl))
          | inr other ↦
              let again : MemState → MemState = λ m. record (describe st m) { mem_load = reload } in
              let new = (read_slot e st.size (again m)).1 in
              let w = twice again c.heap a m new h in
              let filled =
                fill_lem e a st.size (record c { heap = modify c.heap a again }) (again m)
                  (get_elem?-modify again c.heap a a m h ∙ rw self refl) in
              rw (load_again, k, other, filled)
                (placed a new (λ n g. inl f)
                  (Placed-here c v file a m new (modify (modify c.heap a again) a (λ _. new)) f h k
                    w.0 w.1
                    (read_slot-Ready e c.mem_max st.size file (again m) fits own.1 record {
                      buf = sound.buf;
                      has_buf = sound.has_buf;
                      full = sound.full;
                      fits = fits;
                    }))
                  (read st (again m) s (own.1, refl, refl, refl)
                    record {
                      buf = sound.buf;
                      has_buf = sound.has_buf;
                      full = sound.full;
                      fits = fits;
                    }
                    refl refl))
        ]
  ]
