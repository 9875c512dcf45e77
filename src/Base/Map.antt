-- ===== src/Base/Map.antt =====
-- `std::map` as an association list in the order of its keys, with the calls that the sources make.
use Prim.Native.Nat.{◌≤◌}
use tars_framework.Base.Lists.{length}
use tars_framework.Base.Keys.{Key}
use tars_framework.Base.Tests.{if◌then◌else◌, Bool-cases}
use mathlib.Core.Path.{◌≡◌, refl}
use mathlib.Core.Logic.{inl, inr}
use mathlib.Core.List.{List, [], ◌∷◌}
use mathlib.Core.Option
use mathlib.Core.Option.{Option, none, some}
use native.Mathlib.Omega.{arith}

abbrev pub Map {ℓ κ} : Type ℓ → Type κ → Type (ℓ ⊔ κ)
Map K V = List (K × V)

-- The second where the first is missing.
abbrev pub or_else {κ} : {V : Type κ} → Option V → Option V → Option V
or_else (some v) o = some v
or_else none o = o

abbrev pub get_or {κ} : {V : Type κ} → Option V → V → V
get_or (some v) d = v
get_or none d = d

module _ {ℓ κ} {K : Type ℓ} {V : Type κ} ⦃k : Key K⦄ where
  -- `it = m.find(a)`; `none` is `m.end()`.
  unfoldable pub find : K → Map K V → Option V
  find a [] = none
  find a ((b, v) ∷ m) = if k.beq b a then some v else find a m

  -- `m[a] = v`.
  unfoldable pub insert : K → V → Map K V → Map K V
  insert a v [] = (a, v) ∷ []
  insert a v ((b, w) ∷ m) =
      if k.beq b a
      then (b, v) ∷ m
      else if k.less a b
      then (a, v) ∷ (b, w) ∷ m
      else (b, w) ∷ insert a v m

  -- `m.erase(a)`.
  unfoldable pub erase : K → Map K V → Map K V
  erase a [] = []
  erase a ((b, w) ∷ m) = if k.beq b a then erase a m else (b, w) ∷ erase a m

  -- `it->second = f(it->second)` for the iterator of `a`.
  unfoldable pub update : K → (V → V) → Map K V → Map K V
  update a f [] = []
  update a f ((b, w) ∷ m) = if k.beq b a then (b, f w) ∷ m else (b, w) ∷ update a f m

  -- `for (e : n) m[e.first] = e.second`.
  unfoldable pub insert_all : Map K V → Map K V → Map K V
  insert_all [] m = m
  insert_all ((a, v) ∷ n) m = insert_all n (insert a v m)

  pub find-insert :
      (a b : K) (v : V) (m : Map K V)
      → find b (insert a v m) ≡ (if k.beq a b then some v else find b m)
  unfolding find insert
  find-insert a b v [] = refl
  find-insert a b v ((c, w) ∷ m) =
      ground (arith, k.beq_iff a b, k.beq_iff c a, k.beq_iff c b, find-insert a b v m)

  pub find-erase :
      (a b : K) (m : Map K V) → find b (erase a m) ≡ (if k.beq a b then none else find b m)
  unfolding find erase
  find-erase a b [] = ground arith
  find-erase a b ((c, w) ∷ m) =
      ground (arith, k.beq_iff a b, k.beq_iff c a, k.beq_iff c b, find-erase a b m)

  pub find-update :
      (a b : K) (f : V → V) (m : Map K V)
      → find b (update a f m) ≡ (if k.beq a b then Option.map f (find b m) else find b m)
  unfolding find update
  find-update a b f [] = ground arith
  find-update a b f ((c, w) ∷ m) =
      ground (arith, k.beq_iff a b, k.beq_iff c a, k.beq_iff c b, find-update a b f m)

  -- No key stands twice, as in every `std::map`.
  abbrev pub HasUniqueKeys : Map K V → Type κ
  HasUniqueKeys [] = Unit
  HasUniqueKeys ((a, v) ∷ m) = (find a m ≡ none) × HasUniqueKeys m

  pub find-insert_all :
      (b : K) (n m : Map K V)
      → HasUniqueKeys n
      → find b (insert_all n m) ≡ or_else (find b n) (find b m)
  unfolding find insert_all
  find-insert_all b [] m u = refl
  find-insert_all b ((a, v) ∷ n) m u =
      ground (arith, find-insert_all b n (insert a v m), find-insert a b v m, k.beq_iff a b)

  pub insert-HasUniqueKeys :
      (a : K) (v : V) (m : Map K V)
      → find a m ≡ none
      → HasUniqueKeys m
      → HasUniqueKeys (insert a v m)
  unfolding find insert
  insert-HasUniqueKeys a v [] e u = (refl, tt)
  insert-HasUniqueKeys a v ((b, w) ∷ m) e u = elim (Bool-cases (k.beq b a)) [
    | inl t ↦ absurd (cc (rw t at e))
    | inr t ↦
        let later = insert-HasUniqueKeys a v m (ground arith) u.1 in
        let fresh : find b (insert a v m) ≡ none =
          ground (arith, find-insert a b v m, k.beq_iff a b, k.beq_iff b a) in
        ground arith
  ]

  pub update-HasUniqueKeys :
      (a : K) (f : V → V) (m : Map K V) → HasUniqueKeys m → HasUniqueKeys (update a f m)
  unfolding find update
  update-HasUniqueKeys a f [] u = tt
  update-HasUniqueKeys a f ((b, w) ∷ m) u =
      ground (arith, find-update a b f m, update-HasUniqueKeys a f m)

  pub length-insert_pos : (a : K) (v : V) (m : Map K V) → 1 ≤ length (insert a v m)
  unfolding insert
  length-insert_pos a v [] = omega arith
  length-insert_pos a v ((b, w) ∷ m) = ground arith

  pub length-update : (a : K) (f : V → V) (m : Map K V) → length (update a f m) ≡ length m
  unfolding update
  length-update a f [] = refl
  length-update a f ((b, w) ∷ m) = ground (arith, length-update a f m)

  pub length-find_pos : (a : K) (v : V) (m : Map K V) → find a m ≡ some v → 1 ≤ length m
  unfolding find
  length-find_pos a v [] e = cc
  length-find_pos a v ((b, w) ∷ m) e = omega arith
