-- ===== src/Patch/Download/Chunks.antt =====
-- What `PatchImp::download` (PatchServer/PatchImp.cpp) answers, while a file can be read and does not
-- change: a chunk of it, from the cache as from the disk.
use tars_framework.Base.{
  ℕ, zero, suc, ◌+◌, ◌-◌, ◌≤◌, ◌<◌, false, ◌≡◌, refl, sym, ap, ◌∙◌, Option, none, some, List, [],
  ◌∷◌, ◌⊎◌, inl, inr, String, string_key, ◌==◌, ==_iff, if◌then◌else◌, leb, length, take, drop,
  get_elem?, arith, Bool-cases, Option-cases, take_all, take_nil, drop_all, length-drop,
  get_elem?-modify,
}
use tars_framework.Base.Int.{ℤ, pos, negsuc, ltb_ℤ}
use tars_framework.Base.Map.{find}
use tars_framework.Patch.Cache.{MemState, PatchCache, Stat, bytes, load, release}
use tars_framework.Patch.Cache.Valid.{IsValid}
use tars_framework.Patch.Cache.Outcome.{Outcome-IsValid}
use tars_framework.Patch.Cache.Loads.{Allocates, load-Outcome}
use tars_framework.Patch.Cache.Held.{
  count_less, released, release-IsValid, release_lem, release_missing, Outcome-same_max,
}
use tars_framework.Patch.Cache.Content.{
  Files, content_of, stat_of, IsFresh, IsReadable, load_content,
}
use tars_framework.Patch.Download.{
  buffer_of, download_from_mem, read_chunk, to_size, download_from_file, Served, download,
}

pub to_size_small : (from : ℕ) → from < 2147483648 → to_size from ≡ from
unfolding to_size
to_size_small from h = ground arith

-- The answer at a position: the next bytes, or the end.
abbrev pub chunk : List ℕ → ℕ → ℕ → ℤ × List ℕ
chunk content size from =
    if leb (length content) from then (pos 1, []) else (pos 0, take size (drop from content))

-- The request finds the file as it is, and `malloc` gives what it is asked for.
pub record IsServed (files : Files) (file : String) (st : Stat) (mem_max : ℕ) (s : Served)
    : Type 0 where
  pub told : s.surroundings.stat ≡ some st
  pub reading : s.surroundings.reading ≡ bytes (files file st)
  pub disk : s.disk ≡ bytes (files file st)
  pub allocates : Allocates s.surroundings mem_max

-- The cache is well formed, and its buffers are filled.
pub record IsSteady (files : Files) (mem_max : ℕ) (c : PatchCache) : Type 0 where
  pub valid : IsValid c
  pub fresh : IsFresh files c
  pub same_max : c.mem_max ≡ mem_max

take-drop-take :
    (k p n : ℕ) (xs : List ℕ) → k + p ≤ n → take k (drop p (take n xs)) ≡ take k (drop p xs)
take-drop-take zero p n xs h = refl
take-drop-take (suc k) p zero xs h = absurd (omega arith)
take-drop-take (suc k) zero (suc n) [] h = refl
take-drop-take (suc k) zero (suc n) (x ∷ xs) h =
    ap (λ ys. x ∷ ys) (take-drop-take k zero n xs (omega arith))
take-drop-take (suc k) (suc p) (suc n) [] h = refl
take-drop-take (suc k) (suc p) (suc n) (x ∷ xs) h = take-drop-take (suc k) p n xs (omega arith)

pub length-chunk :
    (size from : ℕ) (bs : List ℕ)
    → 1 ≤ size
    → from < length bs
    → 1 ≤ length (take size (drop from bs))
length-chunk size from [] h l = absurd (omega arith)
length-chunk zero from bs h l = absurd (omega arith)
length-chunk (suc size) zero (b ∷ bs) h l = omega arith
length-chunk (suc size) (suc from) (b ∷ bs) h l = length-chunk (suc size) from bs h (omega arith)

read_from :
    (bs t : List ℕ) (size from : ℕ)
    → take size (drop from bs) ≡ t
    → 1 ≤ length t
    → read_chunk (bytes bs) size from ≡ (pos 0, t)
unfolding read_chunk
read_from bs [] size from e h = absurd (omega arith)
read_from bs (b ∷ rest) size from e h = rw (read_chunk, e) refl

read_end :
    (bs : List ℕ) (size from : ℕ)
    → take size (drop from bs) ≡ []
    → read_chunk (bytes bs) size from ≡ (pos 1, [])
unfolding read_chunk
read_end bs size from e = rw (read_chunk, e) refl

file_chunk :
    (bs : List ℕ) (size from : ℕ)
    → 1 ≤ size
    → from < 2147483648
    → download_from_file (bytes bs) size from ≡ chunk bs size from
unfolding download_from_file
file_chunk bs size from h small =
    let seeks : leb 9223372036854775808 from ≡ false = ground arith in
    rw seeks elim (Bool-cases (leb (length bs) from)) [
      | inl k ↦
          rw k (
            read_end bs size from
              (ap (take size) (drop_all from bs (ground arith)) ∙ take_nil size))
      | inr k ↦ rw k (
          read_from bs (take size (drop from bs)) size from refl
            (length-chunk size from bs h (ground arith)))
    ]

mem_chunk :
    (content buf : List ℕ) (size from n : ℕ)
    → take n buf ≡ content
    → length content ≡ n
    → (leb n from ≡ false)
    → take (if leb size (n - from) then size else n - from) (drop from buf)
      ≡ take size (drop from content)
mem_chunk content buf size from n e l h = elim (Bool-cases (leb size (n - from))) [
  | inl k ↦ rw (k, sym e) (sym (take-drop-take size from n buf (ground arith)))
  | inr k ↦ rw k (
      sym (take-drop-take (n - from) from n buf (ground arith))
      ∙ ap (λ xs. take (n - from) (drop from xs)) e
      ∙ take_all (n - from) (drop from content) (omega (arith, length-drop from content))
      ∙ sym (take_all size (drop from content) (ground (arith, length-drop from content))))
]

released-IsFresh :
    (files : Files) (c : PatchCache) (a : ℕ) (m : MemState)
    → get_elem? c.heap a ≡ some m
    → IsFresh files c
    → IsFresh files (released a c)
unfolding released count_less
released-IsFresh files c a m e f b n h g =
    let at = sym (get_elem?-modify count_less c.heap a b m e) ∙ g in
    elim (Bool-cases (a == b)) [
      | inr x ↦ f b n h (sym (rw x refl) ∙ at)
      | inl x ↦
          let same : a ≡ b = (==_iff a b).0 x in
          let w = f a m (rw same h) e in
          let new : count_less m ≡ n = ground arith in
          rw (sym new) record { is_loaded = w.is_loaded; content = w.content }
    ]

released_max : (c : PatchCache) (a : ℕ) → (released a c).mem_max ≡ c.mem_max
unfolding released
released_max c a = refl

release-IsSteady :
    (files : Files) (mem_max : ℕ) (file : String) (c : PatchCache)
    → IsSteady files mem_max c
    → IsSteady files mem_max (release file c).1
release-IsSteady files mem_max file c s = elim (Option-cases (find file c.map_files)) [
  | inl e ↦ rw (release_missing file c e) s
  | inr (a, e) ↦
      let w = s.valid.mapped file a e in
      record {
        valid = release-IsValid file c s.valid;
        fresh = rw (release_lem file c a e) (released-IsFresh files c a w.state w.here s.fresh);
        same_max = ap (λ d. d.mem_max) (release_lem file c a e) ∙ released_max c a ∙ s.same_max;
      }
]

no_answer :
    (r : (ℤ × List ℕ) × PatchCache) (q : ℤ × List ℕ)
    → r.0 ≡ (negsuc 0, [])
    → (if ltb_ℤ r.0.0 (pos 0) then (q, r.1) else r) ≡ (q, r.1)
no_answer r q e = let code : r.0.0 ≡ negsuc 0 = ap (λ x. x.0) e in rw code refl

an_answer :
    (r : (ℤ × List ℕ) × PatchCache) (q : ℤ × List ℕ) (content : List ℕ) (size from : ℕ)
    → r.0 ≡ chunk content size from
    → (if ltb_ℤ r.0.0 (pos 0) then (q, r.1) else r) ≡ r
an_answer r q content size from e = elim (Bool-cases (leb (length content) from)) [
  | inl k ↦
      let code : r.0.0 ≡ pos 1 = ap (λ x. x.0) e ∙ rw k refl in
      let test : ltb_ℤ r.0.0 (pos 0) ≡ false = rw code refl in rw test refl
  | inr k ↦
      let code : r.0.0 ≡ pos 0 = ap (λ x. x.0) e ∙ rw k refl in
      let test : ltb_ℤ r.0.0 (pos 0) ≡ false = rw code refl in rw test refl
]

buffer_cases :
    (n : ℕ) (o : Option (List ℕ))
    → take n (elim o [ none ↦ [] | some buf ↦ buf ])
      ≡ (elim o [ none ↦ [] | some buf ↦ take n buf ])
buffer_cases n none = take_nil n
buffer_cases n (some buf) = refl

buffer_lem :
    (c : PatchCache) (a : ℕ) (m : MemState)
    → get_elem? c.heap a ≡ some m
    → take m.file_size (buffer_of c a) ≡ content_of m
buffer_lem c a m e = rw (buffer_of, e) (buffer_cases m.file_size m.mem_buf)

module _ (files : Files) (file : String) (st : Stat) (mem_max : ℕ) (s : Served)
    (full : length (files file st) ≡ st.size) (filled : 1 ≤ st.size)
    (served : IsServed files file st mem_max s) where
  readable : IsReadable files s.surroundings file
  readable u e =
      let same : st ≡ u = cc (served.told, e) in
      (rw (sym same) served.reading, rw (sym same) full, rw (sym same) filled)

  load-IsSteady :
      (c : PatchCache)
      → IsSteady files mem_max c
      → IsSteady files mem_max (load s.surroundings file c).1
  load-IsSteady c k =
      let allocates : Allocates s.surroundings c.mem_max = rw (k.same_max) served.allocates in
      let o = load-Outcome s.surroundings file c k.valid allocates in
      record {
        valid = Outcome-IsValid c file k.valid s.surroundings (load s.surroundings file c) o;
        fresh = (load_content files s.surroundings c file k.valid k.fresh allocates readable).0;
        same_max =
            Outcome-same_max s.surroundings file c (load s.surroundings file c) o ∙ k.same_max;
      }

  -- The buffer of a slot that is given out.
  given_buffer :
      (c : PatchCache) (a n : ℕ)
      → IsSteady files mem_max c
      → (load s.surroundings file c).0 ≡ some (a, n)
      → (n ≡ st.size) × (take n (buffer_of (load s.surroundings file c).1 a) ≡ files file st)
  given_buffer c a n k e =
      let allocates : Allocates s.surroundings c.mem_max = rw (k.same_max) served.allocates in
      let w =
        (load_content files s.surroundings c file k.valid k.fresh allocates readable).1 a n e in
      let m = w.0 in
      let h = w.2 in
      let told : h.st ≡ st = cc (h.told, served.told) in
      let size : n ≡ h.st.size = cc (h.given) in
      let length_of : m.file_size ≡ n = ap (λ u. u.size) h.same_stat ∙ sym size in
      (
        size ∙ ap (λ u. u.size) told,
        ap (λ k. take k (buffer_of (load s.surroundings file c).1 a)) (sym length_of)
            ∙ buffer_lem (load s.surroundings file c).1 a m w.1
            ∙ h.has_content.content
            ∙ ap (λ g. files g (stat_of m)) h.name
            ∙ ap (files file) (h.same_stat ∙ told),
      )

  mem_answer :
      (size from : ℕ) (c : PatchCache)
      → IsSteady files mem_max c
      → IsSteady files mem_max (download_from_mem s.surroundings file size from c).1
        × (((download_from_mem s.surroundings file size from c).0 ≡ (negsuc 0, []))
            ⊎ ((download_from_mem s.surroundings file size from c).0
                ≡ chunk (files file st) size from))
  unfolding download_from_mem
  mem_answer size from c k =
      let steady = load-IsSteady c k in
      elim (Option-cases (load s.surroundings file c).0) [
        | inl e ↦ rw (download_from_mem, e) (steady, inl refl)
        | inr ((a, n), e) ↦
            let b = given_buffer c a n k e in
            let after = release-IsSteady files mem_max file (load s.surroundings file c).1 steady in
            let size_of : length (files file st) ≡ n = full ∙ sym b.0 in
            elim (Bool-cases (leb n from)) [
              | inl l ↦ rw (download_from_mem, e, l) (after, inr (rw (size_of, l) refl))
              | inr l ↦
                  rw (download_from_mem, e, l)
                    (
                      after,
                      inr (
                          rw (size_of, l)
                            (ap (λ bs. (pos 0, bs))
                              (mem_chunk (files file st)
                                (buffer_of (load s.surroundings file c).1 a) size from n b.1 size_of
                                l))),
                    )
            ]
      ]

  -- An answer is a chunk of the file, whether the cache has it or not.
  pub download-chunk :
      (size from : ℕ) (c : PatchCache)
      → 1 ≤ size
      → from < 2147483648
      → IsSteady files mem_max c
      → IsSteady files mem_max (download s file size from c).1
        × ((download s file size from c).0 ≡ chunk (files file st) size from)
  unfolding download
  download-chunk size from c h small k =
      rw (to_size_small from small)
        let w = mem_answer size from c k in
          elim w.1 [
            | inl e ↦
                let q =
                  no_answer (download_from_mem s.surroundings file size from c)
                    (download_from_file s.disk size from) e in
                rw q (
                  w.0,
                  ap (λ r. download_from_file r size from) served.disk
                      ∙ file_chunk (files file st) size from h small,
                )
            | inr e ↦
                let q =
                  an_answer (download_from_mem s.surroundings file size from c)
                    (download_from_file s.disk size from) (files file st) size from e in
                rw q (w.0, e)
          ]
