-- ===== src/Patch/Cache/Content.antt =====
-- What a buffer of the `PatchCache` (PatchServer/PatchCache.cpp) holds, while files can be read: the
-- bytes of its file.
use tars_framework.Base.{
  has, ℕ, suc, ◌≤◌, true, ◌≡◌, refl, sym, ap, ◌∙◌, Option, none, some, List, [], ◌∷◌, inl, inr,
  String, string_key, ◌==◌, ==_iff, length, take, drop, get_elem?, arith, Bool-cases, take_all,
  take-append, get_elem?-append_last,
}
use tars_framework.Base.Int.{pos}
use tars_framework.Patch.Cache.{
  loaded, MemState, PatchCache, Stat, bytes, Surroundings, load_file, count_up, is_same_file,
  read_slot, load,
}
use tars_framework.Patch.Cache.Valid.{IsSound, IsValid}
use tars_framework.Patch.Cache.Outcome.{
  in_heap, Given, reused, read, Outcome, unchanged, forgotten, no_buffer, placed,
}
use tars_framework.Patch.Cache.Loads.{Allocates, load-Outcome}

-- What the files have, by their names and what `lstat` tells of them.
abbrev pub Files : Type 0
Files = String → Stat → List ℕ

abbrev pub stat_of : MemState → Stat
stat_of m = record { size = m.file_size; inode = m.file_inode; mtime = m.file_time }

abbrev pub content_of : MemState → List ℕ
content_of m = elim m.mem_buf [ none ↦ [] | some buf ↦ take m.file_size buf ]

-- The slot is loaded, and has the bytes of its file.
pub record HasContent (files : Files) (m : MemState) : Type 0 where
  pub is_loaded : m.mem_load ≡ loaded
  pub content : content_of m ≡ files m.file_name (stat_of m)

abbrev pub IsFresh : Files → PatchCache → Type 0
IsFresh files c =
    (a : ℕ) (m : MemState)
    → has a c.vec_mems ≡ true
    → get_elem? c.heap a ≡ some m
    → HasContent files m

-- The file is not empty, and is read whole, with the size that `lstat` told.
abbrev pub IsReadable : Files → Surroundings → String → Type 0
IsReadable files e file =
    (st : Stat)
    → e.stat ≡ some st
    → (e.reading ≡ bytes (files file st)) × (length (files file st) ≡ st.size) × (1 ≤ st.size)

load_file_whole :
    (bs buf : List ℕ)
    → 1 ≤ length bs
    → (load_file (bytes bs) (length bs) buf).0 ≡ pos 0
      × (take (length bs) (load_file (bytes bs) (length bs) buf).1 ≡ bs)
unfolding load_file
load_file_whole [] buf h = absurd (omega arith)
load_file_whole (b ∷ bs) buf h =
    let e : take (length bs) bs ≡ bs = take_all (length bs) bs (omega arith) in
    rw (load_file, e) (refl, ap (λ xs. b ∷ xs) (take-append bs (drop (suc (length bs)) buf)))

-- A slot that is read has the bytes of its file.
read_content :
    (files : Files) (e : Surroundings) (st : Stat) (mem_max : ℕ) (m : MemState)
    → e.reading ≡ bytes (files m.file_name st)
    → length (files m.file_name st) ≡ st.size
    → 1 ≤ st.size
    → stat_of m ≡ st
    → IsSound mem_max m
    → ((read_slot e st.size m).0 ≡ true)
      × HasContent files (read_slot e st.size m).1
      × ((read_slot e st.size m).1.file_name ≡ m.file_name)
      × (stat_of (read_slot e st.size m).1 ≡ st)
unfolding read_slot
read_content files e st mem_max m r n h same s =
    let bs = files m.file_name st in
    let b = s.has_buf in
    let w = load_file_whole bs s.buf (omega (arith, n)) in
    let q : read_slot e st.size m ≡ (
      true,
      record m {
        mem_buf = some (load_file (bytes bs) (length bs) s.buf).1;
        mem_count = count_up m.mem_count;
        mem_time = e.now;
        mem_load = loaded;
      },
    ) =
      simp (read_slot, b, r, sym n, w.0) in
    rw q (
      refl,
      record {
        is_loaded = refl;
        content =
            (let size : m.file_size ≡ length bs = ap (λ t. t.size) same ∙ sym n in
              ap (λ k. take k (load_file (bytes bs) (length bs) s.buf).1) size
              ∙ w.1
              ∙ ap (files m.file_name) (sym same));
      },
      refl,
      same,
    )

-- What a slot has that `load` gives out.
pub record Holds (files : Files) (e : Surroundings) (file : String) (a : ℕ) (m : MemState)
    (o : Option (ℕ × ℕ)) : Type 0 where
  pub st : Stat
  pub told : e.stat ≡ some st
  pub has_content : HasContent files m
  pub name : m.file_name ≡ file
  pub same_stat : stat_of m ≡ st
  pub given : o ≡ some (a, st.size)

same_stat_lem : (st : Stat) (m : MemState) → is_same_file st m ≡ true → stat_of m ≡ st
unfolding is_same_file
same_stat_lem st m h = ground arith

Given-content :
    (files : Files) (e : Surroundings) (c : PatchCache) (file : String) (a : ℕ) (m : MemState)
    (o : Option (ℕ × ℕ))
    → IsFresh files c
    → IsReadable files e file
    → Given e c file a m o
    → Holds files e file a m o
Given-content files e c file a m o fresh readable (reused st old t h g n s q k) =
    let content = fresh a old h g in
    let same = same_stat_lem st old s in
    record {
      st = st;
      told = t;
      has_content = rw q record { is_loaded = content.is_loaded; content = content.content };
      name = ap (λ x. x.file_name) q ∙ n;
      same_stat = ap stat_of q ∙ same;
      given = k ∙ ap (λ x. some (a, x.size)) same;
    }
Given-content files e c file a m o fresh readable (read st before t (n, s, i, u) sound q k) =
    let r = readable st t in
    let same : stat_of before ≡ st = ground arith in
    let w = read_content files e st c.mem_max before (rw n r.0) (rw n r.1) r.2 same sound in
    record {
      st = st;
      told = t;
      has_content = rw q w.1;
      name = ap (λ x. x.file_name) q ∙ w.2 ∙ n;
      same_stat = ap stat_of q ∙ w.3;
      given = k ∙ rw (w.0) refl;
    }

Outcome-content :
    (files : Files) (e : Surroundings) (c : PatchCache) (file : String)
    (r : Option (ℕ × ℕ) × PatchCache)
    → IsFresh files c
    → IsReadable files e file
    → IsValid c
    → Outcome e c file r
    → IsFresh files r.1
      × ((a size : ℕ)
          → r.0 ≡ some (a, size)
          → (m : MemState) × (get_elem? r.1.heap a ≡ some m)
            × Holds files e file a m (some (a, size)))
Outcome-content files e c file r fresh readable v (unchanged q) =
    (rw (ap (λ x. x.1) q) fresh, λ a size z. absurd (cc (z, ap (λ x. x.0) q)))
Outcome-content files e c file r fresh readable v (forgotten a n f k l q) =
    (rw (ap (λ x. x.1) q) fresh, λ b size z. absurd (cc (z, ap (λ x. x.0) q)))
Outcome-content files e c file r fresh readable v (no_buffer n f l q) = (
  rw (ap (λ x. x.1) q) (λ b m x g.
      let live = v.live b x in
      let apart = in_heap c file v b live.state live.here in
      let was : get_elem? c.heap b ≡ some m =
        (sym (get_elem?-append_last c.heap n b ∙ rw apart refl)) ∙ g in
      fresh b m x was),
  λ b size z. absurd (cc (z, ap (λ x. x.0) q)),
)
Outcome-content files e c file r fresh readable v (placed a n free p k) =
    let h = Given-content files e c file a n r.0 fresh readable k in
    (
      (λ b m x g. elim (Bool-cases (a == b)) [
        | inl y ↦
            let same : a ≡ b = (==_iff a b).0 y in
            let one : n ≡ m = cc (rw (sym same) at g, p.here) in rw (sym one) h.has_content
        | inr y ↦ fresh b m (ground (arith, p.slots b)) (sym (p.others b y) ∙ g)
      ]),
      (λ b size q.
          let pair : ◌≡◌ {A = Option (ℕ × ℕ)} (some (a, h.st.size)) (some (b, size)) =
            sym h.given ∙ q in
          let at : a ≡ b = cc pair in
          let sizes : size ≡ h.st.size = cc pair in
          (
            n,
            ap (get_elem? r.1.heap) (sym at) ∙ p.here,
            record {
              st = h.st;
              told = h.told;
              has_content = h.has_content;
              name = h.name;
              same_stat = h.same_stat;
              given = ap (λ k. some (b, k)) sizes;
            },
          )),
    )

-- While files can be read whole, `load` keeps the buffers of the list filled with their files, and
-- what it gives out is a slot with the name, the size and the bytes of the file that was asked for.
pub load_content :
    (files : Files) (e : Surroundings) (c : PatchCache) (file : String)
    → IsValid c
    → IsFresh files c
    → Allocates e c.mem_max
    → IsReadable files e file
    → IsFresh files (load e file c).1
      × ((a size : ℕ)
          → (load e file c).0 ≡ some (a, size)
          → (m : MemState) × (get_elem? (load e file c).1.heap a ≡ some m)
            × Holds files e file a m (some (a, size)))
load_content files e c file v fresh k readable =
    Outcome-content files e c file (load e file c) fresh readable v (load-Outcome e file c v k)
