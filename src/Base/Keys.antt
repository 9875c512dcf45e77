-- ===== src/Base/Keys.antt =====
-- Keys of the maps: a Boolean equality that decides equality, and the order of `std::less`.
use Prim.Native.Nat.{ℕ}
use Prim.Native.String.{String}
use Prim.Native.String
use text.Mathlib.Text.{◌==◌ as str_eq, is_lt}
use text.Mathlib.TextEquality.{eq_iff}
use mathlib.Core.Path.{◌≡◌, refl}
use mathlib.Core.Logic.{◌↔◌, ◌≢◌}
use mathlib.Core.Bool.{Bool, true, false, ◌&&◌, ◌||◌}
use mathlib.Core.List.{List, [], ◌∷◌}
use native.Mathlib.Omega.{arith}
use tars_framework.Base.Tests.{ltb, ◌==◌ as nat_eq, ==_iff}

pub record Key {ℓ} (K : Type ℓ) : Type ℓ where
  pub beq : K → K → Bool
  pub beq_iff : (a b : K) → (beq a b ≡ true) ↔ (a ≡ b)
  pub less : K → K → Bool

module _ {ℓ} {K : Type ℓ} (k : Key K) where
  pub beq_refl : (a : K) → k.beq a a ≡ true
  beq_refl a = (k.beq_iff a a).1 refl

  pub beq_ne : (a b : K) → a ≢ b → k.beq a b ≡ false
  beq_ne a b h = go (k.beq a b) refl
    where
      go : (t : Bool) → k.beq a b ≡ t → t ≡ false
      go true e = absurd (h ((k.beq_iff a b).0 e))
      go false e = refl

instance abbrev pub string_key : Key String
string_key = record { beq = str_eq; beq_iff = eq_iff; less = λ a b. is_lt (String.compare a b) }

instance abbrev pub nat_key : Key ℕ
nat_key = record { beq = nat_eq; beq_iff = ==_iff; less = ltb }

-- Byte strings, compared byte by byte.
abbrev pub bytes_eq : List ℕ → List ℕ → Bool
bytes_eq [] [] = true
bytes_eq [] (y ∷ ys) = false
bytes_eq (x ∷ xs) [] = false
bytes_eq (x ∷ xs) (y ∷ ys) = nat_eq x y && bytes_eq xs ys

abbrev pub bytes_less : List ℕ → List ℕ → Bool
bytes_less xs [] = false
bytes_less [] (y ∷ ys) = true
bytes_less (x ∷ xs) (y ∷ ys) = ltb x y || nat_eq x y && bytes_less xs ys

pub bytes_eq_iff : (xs ys : List ℕ) → (bytes_eq xs ys ≡ true) ↔ (xs ≡ ys)
bytes_eq_iff [] [] = (λ _. refl, λ _. refl)
bytes_eq_iff [] (y ∷ ys) = (λ h. cc, λ h. cc)
bytes_eq_iff (x ∷ xs) [] = (λ h. cc, λ h. cc)
bytes_eq_iff (x ∷ xs) (y ∷ ys) =
    (λ h. ground (arith, (bytes_eq_iff xs ys).0), λ h. ground (arith, (bytes_eq_iff xs ys).1))

instance abbrev pub bytes_key : Key (List ℕ)
bytes_key = record { beq = bytes_eq; beq_iff = bytes_eq_iff; less = bytes_less }
