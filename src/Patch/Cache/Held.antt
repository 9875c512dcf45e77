-- ===== src/Patch/Cache/Held.antt =====
-- Runs of calls on a `PatchCache` (PatchServer/PatchCache.cpp): it stays well formed, and a buffer that a
-- download holds is left alone.
use tars_framework.Base.{
  has, ℕ, true, false, ◌≡◌, ◌≢◌, refl, sym, ap, ◌∙◌, Option, none, some, List, [], ◌∷◌, inl, inr,
  String, str_eq, string_key, eq_iff, ◌==◌, ==_iff, get_elem?, modify, arith, All, Bool-cases,
  Option-cases, get_elem?-modify, get_elem?-append_last,
}
use tars_framework.Base.Map.{find}
use tars_framework.Patch.Cache.{MemState, PatchCache, Surroundings, count_down, load, release}
use tars_framework.Patch.Cache.Valid.{IsValid}
use tars_framework.Patch.Cache.Outcome.{
  Outcome, unchanged, forgotten, no_buffer, placed, Outcome-IsValid, in_heap,
}
use tars_framework.Patch.Cache.Loads.{Allocates, load-Outcome}

pub data Call : Type 0 where
  load_call : Surroundings → String → Call
  release_call : String → Call

abbrev pub file_of : Call → String
file_of (load_call e file) = file
file_of (release_call file) = file

unfoldable pub perform : Call → PatchCache → PatchCache
perform (load_call e file) c = (load e file c).1
perform (release_call file) c = (release file c).1

unfoldable pub run : List Call → PatchCache → PatchCache
run [] c = c
run (call ∷ calls) c = run calls (perform call c)

-- `malloc` gives the bytes that it is asked for, if any.
abbrev pub IsPossible : ℕ → Call → Type 0
IsPossible mem_max (load_call e file) = Allocates e mem_max
IsPossible mem_max (release_call file) = Unit

-- The slot has its state still, and the cache is well formed with buffers of the same size.
record Kept (c : PatchCache) (b : ℕ) (m : MemState) (d : PatchCache) : Type 0 where
  same_max : d.mem_max ≡ c.mem_max
  valid : IsValid d
  slot : has b d.vec_mems ≡ true
  here : get_elem? d.heap b ≡ some m

unfoldable pub count_less : MemState → MemState
count_less m = record m { mem_count = count_down m.mem_count }

-- One slot is released.
unfoldable pub released : ℕ → PatchCache → PatchCache
released a c = record c { heap = modify c.heap a count_less }

released-IsValid :
    (c : PatchCache) (a : ℕ) (m : MemState)
    → get_elem? c.heap a ≡ some m
    → IsValid c
    → IsValid (released a c)
unfolding released count_less
released-IsValid c a m e v = record {
  live = λ b h.
      let l = v.live b h in
      let at = get_elem?-modify count_less c.heap a b m e in
      elim (Bool-cases (a == b)) [
        | inr x ↦ record {
          state = l.state;
          here = at ∙ rw x l.here;
          settled = l.settled;
          named = l.named;
          sound = record {
            buf = l.sound.buf;
            has_buf = l.sound.has_buf;
            full = l.sound.full;
            fits = l.sound.fits;
          };
        }
        | inl x ↦
            let same : a ≡ b = (==_iff a b).0 x in
            let one : m ≡ l.state = cc (rw same at e, l.here) in
            record {
              state = count_less l.state;
              here = at ∙ rw (x, one) refl;
              settled = l.settled;
              named = l.named;
              sound = record {
                buf = l.sound.buf;
                has_buf = l.sound.has_buf;
                full = l.sound.full;
                fits = l.sound.fits;
              };
            }
      ];
  mapped = λ g b h.
      let w = v.mapped g b h in
      let at = get_elem?-modify count_less c.heap a b m e in
      elim (Bool-cases (a == b)) [
        | inr x ↦ record { state = w.state; here = at ∙ rw x w.here; kind = w.kind }
        | inl x ↦
            let same : a ≡ b = (==_iff a b).0 x in
            let one : m ≡ w.state = cc (rw same at e, w.here) in
            record { state = count_less w.state; here = at ∙ rw (x, one) refl; kind = w.kind }
      ];
}

pub release_lem :
    (file : String) (c : PatchCache) (a : ℕ)
    → find file c.map_files ≡ some a
    → (release file c).1 ≡ released a c
unfolding release released count_less
release_lem file c a e = rw (release, e) refl

pub release_missing :
    (file : String) (c : PatchCache) → find file c.map_files ≡ none → (release file c).1 ≡ c
unfolding release
release_missing file c e = rw (release, e) refl

pub release-IsValid : (file : String) (c : PatchCache) → IsValid c → IsValid (release file c).1
release-IsValid file c v = elim (Option-cases (find file c.map_files)) [
  | inl e ↦ rw (release_missing file c e) v
  | inr (a, e) ↦
      let w = v.mapped file a e in
      rw (release_lem file c a e) (released-IsValid c a w.state w.here v)
]

-- The slot of a file has no other live name.
apart_slot :
    (c : PatchCache) (file : String) (a b : ℕ) (m : MemState)
    → IsValid c
    → find file c.map_files ≡ some a
    → has b c.vec_mems ≡ true
    → get_elem? c.heap b ≡ some m
    → str_eq file m.file_name ≡ false
    → (a == b) ≡ false
apart_slot c file a b m v f h e apart = elim (Bool-cases (a == b)) [
  | inr x ↦ x
  | inl x ↦
      let same : a ≡ b = (==_iff a b).0 x in
      let w = v.mapped file a f in
      let one : m ≡ w.state = cc (rw (sym same) at e, w.here) in
      elim w.kind [
        | inl k ↦
            let its : m.file_name ≡ file = ap (λ s. s.file_name) one ∙ k.1 in
            absurd (cc ((eq_iff file m.file_name).1 (sym its), apart))
        | inr k ↦ absurd (cc (rw same at k.0, h))
      ]
]

released-Kept :
    (c : PatchCache) (file : String) (a b : ℕ) (m : MemState)
    → IsValid c
    → find file c.map_files ≡ some a
    → has b c.vec_mems ≡ true
    → get_elem? c.heap b ≡ some m
    → str_eq file m.file_name ≡ false
    → Kept c b m (released a c)
unfolding released
released-Kept c file a b m v f h g apart =
    let w = v.mapped file a f in
    let other = apart_slot c file a b m v f h g apart in
    record {
      same_max = refl;
      valid = released-IsValid c a w.state w.here v;
      slot = h;
      here = get_elem?-modify count_less c.heap a b w.state w.here ∙ rw other g;
    }

load-Kept :
    (e : Surroundings) (file : String) (c : PatchCache) (b : ℕ) (m : MemState)
    (r : Option (ℕ × ℕ) × PatchCache)
    → IsValid c
    → has b c.vec_mems ≡ true
    → get_elem? c.heap b ≡ some m
    → m.mem_count ≢ 0
    → str_eq file m.file_name ≡ false
    → Outcome e c file r
    → Kept c b m r.1
load-Kept e file c b m r v h g held apart (unchanged q) =
    rw (ap (λ x. x.1) q) record { same_max = refl; valid = v; slot = h; here = g }
load-Kept e file c b m r v h g held apart (forgotten a n f k l q) = record {
  same_max = ap (λ x. x.1.mem_max) q;
  valid = Outcome-IsValid c file v e r (forgotten a n f k l q);
  slot = ap (λ x. has b x.1.vec_mems) q ∙ h;
  here = ap (λ x. get_elem? x.1.heap b) q ∙ g;
}
load-Kept e file c b m r v h g held apart (no_buffer n f l q) = record {
  same_max = ap (λ x. x.1.mem_max) q;
  valid = Outcome-IsValid c file v e r (no_buffer n f l q);
  slot = ap (λ x. has b x.1.vec_mems) q ∙ h;
  here =
      ap (λ x. get_elem? x.1.heap b) q
      ∙ get_elem?-append_last c.heap n b
      ∙ rw (in_heap c file v b m g) g;
}
load-Kept e file c b m r v h g held apart (placed a n free p k) =
    let other : (a == b) ≡ false = elim (Bool-cases (a == b)) [
      | inr x ↦ x
      | inl x ↦
          let same : a ≡ b = (==_iff a b).0 x in
          elim (free m (rw same g)) [
            | inl f ↦ absurd (cc (apart_slot c file a b m v f h g apart, x))
            | inr z ↦ absurd (held z)
          ]
    ] in
    record {
      same_max = p.same_max;
      valid = Outcome-IsValid c file v e r (placed a n free p k);
      slot = ground (arith, p.slots b);
      here = p.others b other ∙ g;
    }

perform-Kept :
    (call : Call) (c : PatchCache) (b : ℕ) (m : MemState)
    → IsValid c
    → IsPossible c.mem_max call
    → has b c.vec_mems ≡ true
    → get_elem? c.heap b ≡ some m
    → m.mem_count ≢ 0
    → str_eq (file_of call) m.file_name ≡ false
    → Kept c b m (perform call c)
unfolding perform
perform-Kept (load_call e file) c b m v k h g held apart =
    load-Kept e file c b m (load e file c) v h g held apart (load-Outcome e file c v k)
perform-Kept (release_call file) c b m v k h g held apart =
    elim (Option-cases (find file c.map_files)) [
      | inl f ↦
          rw (release_missing file c f) record { same_max = refl; valid = v; slot = h; here = g }
      | inr (a, f) ↦ rw (release_lem file c a f) (released-Kept c file a b m v f h g apart)
    ]

pub Outcome-same_max :
    (e : Surroundings) (file : String) (c : PatchCache) (r : Option (ℕ × ℕ) × PatchCache)
    → Outcome e c file r
    → r.1.mem_max ≡ c.mem_max
Outcome-same_max e file c r (unchanged q) = ap (λ x. x.1.mem_max) q
Outcome-same_max e file c r (forgotten a n f k l q) = ap (λ x. x.1.mem_max) q
Outcome-same_max e file c r (no_buffer n f l q) = ap (λ x. x.1.mem_max) q
Outcome-same_max e file c r (placed a n free p k) = p.same_max

perform-same_max :
    (call : Call) (c : PatchCache)
    → IsValid c
    → IsPossible c.mem_max call
    → IsValid (perform call c) × ((perform call c).mem_max ≡ c.mem_max)
unfolding perform released
perform-same_max (load_call e file) c v k =
    let o = load-Outcome e file c v k in
    (Outcome-IsValid c file v e (load e file c) o, Outcome-same_max e file c (load e file c) o)
perform-same_max (release_call file) c v k = (
  release-IsValid file c v,
  elim (Option-cases (find file c.map_files)) [
    | inl f ↦ ap (λ d. d.mem_max) (release_missing file c f)
    | inr (a, f) ↦ ap (λ d. d.mem_max) (release_lem file c a f)
  ],
)

-- Calls of `load` and `release` in any order keep a cache well formed: each slot of the list is
-- settled, the map has it under its name, its buffer has the full size and the file fits into it;
-- and each name of the map leads to such a slot of this name, or to one whose buffer failed. Each
-- `malloc` gives the bytes that it is asked for, or none.
pub run-IsValid :
    (calls : List Call) (c : PatchCache)
    → IsValid c
    → All (IsPossible c.mem_max) calls
    → IsValid (run calls c)
unfolding run
run-IsValid [] c v k = v
run-IsValid (call ∷ calls) c v k =
    let p = perform-same_max call c v k.0 in run-IsValid calls (perform call c) p.0 (rw (p.1) k.1)

-- A buffer that a download holds keeps its slot with its bytes, its name and its count, whatever
-- calls are made for other files, and the name leads to it still.
pub run_held :
    (calls : List Call) (c : PatchCache) (b : ℕ) (m : MemState)
    → IsValid c
    → All (IsPossible c.mem_max) calls
    → has b c.vec_mems ≡ true
    → get_elem? c.heap b ≡ some m
    → m.mem_count ≢ 0
    → All (λ call. str_eq (file_of call) m.file_name ≡ false) calls
    → (get_elem? (run calls c).heap b ≡ some m)
      × (find m.file_name (run calls c).map_files ≡ some b)
unfolding run
run_held [] c b m v k h g held apart =
    let l = v.live b h in let one : l.state ≡ m = cc (g, l.here) in (g, rw (sym one) l.named)
run_held (call ∷ calls) c b m v k h g held apart =
    let p = perform-Kept call c b m v k.0 h g held apart.0 in
    run_held calls (perform call c) b m p.valid (rw (p.same_max) k.1) p.slot p.here held apart.1
