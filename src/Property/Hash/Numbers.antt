-- ===== src/Property/Hash/Numbers.antt =====
-- What the table of PropertyServer/PropertyHashMap.h tells of the policies that are numbers.
use mathlib.Core.Option
use tars_framework.Base.{
  ◌≡◌, refl, sym, ap, ◌∙◌, Option, none, some, List, [], ◌∷◌, String, str_eq, string_key, eq_iff,
  if◌then◌else◌, Bool-cases, Option-cases, inl, inr, arith,
}
use tars_framework.Base.Int.{ℤ, ◌+ℤ◌, ltb_ℤ, int_laws, eq_of_parts}
use tars_framework.Base.Map.{
  Map, find, insert, update, or_else, find-insert, find-update, HasUniqueKeys,
}
use tars_framework.Property.Hash.{
  StatPropInfo, Texts, merge_value, sums_of, merge_prop_info, merge_infos, infos_of,
}

-- The policies whose values are integers.
pub data Numeric : Type 0 where
  counts : Numeric
  sums : Numeric
  mins : Numeric
  maxs : Numeric

abbrev pub name : Numeric → String
name counts = "Count"
name sums = "Sum"
name mins = "Min"
name maxs = "Max"

unfoldable pub combine : Numeric → ℤ → ℤ → ℤ
combine counts a b = a +ℤ b
combine sums a b = a +ℤ b
combine mins a b = if ltb_ℤ a b then a else b
combine maxs a b = if ltb_ℤ b a then a else b

combine_swap : (n : Numeric) (a b c : ℤ) → combine n (combine n a b) c ≡ combine n (combine n a c) b
unfolding combine
combine_swap counts a b c = omega int_laws
combine_swap sums a b c = omega int_laws
combine_swap mins a b c = ground (arith, eq_of_parts a b, eq_of_parts a c, eq_of_parts b c)
combine_swap maxs a b c = ground (arith, eq_of_parts a b, eq_of_parts a c, eq_of_parts b c)

combine_comm : (n : Numeric) (a b : ℤ) → combine n a b ≡ combine n b a
unfolding combine
combine_comm counts a b = omega int_laws
combine_comm sums a b = omega int_laws
combine_comm mins a b = ground (arith, eq_of_parts a b)
combine_comm maxs a b = ground (arith, eq_of_parts a b)

unfoldable pub combined : Numeric → Option ℤ → Option ℤ → Option ℤ
combined n none b = b
combined n (some a) none = some a
combined n (some a) (some b) = some (combine n a b)

pub combined_swap :
    (n : Numeric) (a b c : Option ℤ) → combined n (combined n a b) c ≡ combined n (combined n a c) b
unfolding combined
combined_swap n none none none = refl
combined_swap n none none (some c) = refl
combined_swap n none (some b) none = refl
combined_swap n none (some b) (some c) = ap some (combine_comm n b c)
combined_swap n (some a) none none = refl
combined_swap n (some a) none (some c) = refl
combined_swap n (some a) (some b) none = refl
combined_swap n (some a) (some b) (some c) = ap some (combine_swap n a b c)

-- The values of a body by their policies.
abbrev pub pairs_of : List StatPropInfo → Map String String
pairs_of [] = []
pairs_of (i ∷ infos) = (i.policy, i.value) ∷ pairs_of infos

pub pairs_of-infos_of : (m : Map String String) → pairs_of (infos_of m) ≡ m
unfolding infos_of
pairs_of-infos_of [] = refl
pairs_of-infos_of ((p, v) ∷ m) = ap (λ t. (p, v) ∷ t) (pairs_of-infos_of m)

or_else-none : (o : Option String) → o ≡ or_else o none
or_else-none none = refl
or_else-none (some v) = refl

pub find-sums_of :
    (p : String) (infos : List StatPropInfo) (m : Map String String)
    → find p (sums_of infos m) ≡ or_else (find p m) (find p (pairs_of infos))
unfolding sums_of find
find-sums_of p [] m = or_else-none (find p m)
find-sums_of p (i ∷ infos) m = elim (Option-cases (find i.policy m)) [
  | inl e ↦
      rw (sums_of, e)
        (find-sums_of p infos (insert i.policy i.value m) ∙ elim (Bool-cases (str_eq i.policy p)) [
          | inl h ↦
              let same : i.policy ≡ p = (eq_iff i.policy p).0 h in
              let gone : find p m ≡ none = rw (sym same) e in
              rw (find-insert i.policy p i.value m, h, gone) refl
          | inr h ↦ rw (find-insert i.policy p i.value m, h) refl
        ])
  | inr (v, e) ↦
      rw (sums_of, e)
        (find-sums_of p infos m ∙ elim (Bool-cases (str_eq i.policy p)) [
          | inl h ↦
              let same : i.policy ≡ p = (eq_iff i.policy p).0 h in
              let there : find p m ≡ some v = rw (sym same) e in rw (h, there) refl
          | inr h ↦ rw h refl
        ])
]

-- A number that is printed is read again.
pub record Prints (t : Texts) : Type 0 where
  pub strto-tostr : (n : ℤ) → t.strto (t.tostr n) ≡ n

module _ (t : Texts) where
  abbrev pub number : Numeric → Map String String → Option ℤ
  number n m = Option.map t.strto (find (name n) m)

  merge_value_lem :
      (n : Numeric) (old new : String)
      → merge_value t (name n) old new ≡ some (t.tostr (combine n (t.strto old) (t.strto new)))
  unfolding merge_value combine
  merge_value_lem counts old new = refl
  merge_value_lem sums old new = refl
  merge_value_lem mins old new = refl
  merge_value_lem maxs old new = refl

  combined-none : (n : Numeric) (o : Option ℤ) → combined n o none ≡ o
  unfolding combined
  combined-none n none = refl
  combined-none n (some a) = refl

  -- What one property has of a policy.
  abbrev of_info : Numeric → StatPropInfo → Option ℤ
  of_info n i = if str_eq i.policy (name n) then some (t.strto i.value) else none

  merged_value :
      (n : Numeric) (policy old new v : String)
      → Prints t
      → policy ≡ name n
      → merge_value t policy old new ≡ some v
      → t.strto v ≡ combine n (t.strto old) (t.strto new)
  merged_value n policy old new v p same e =
      let q : some (t.tostr (combine n (t.strto old) (t.strto new))) ≡ some v =
        sym (merge_value_lem n old new) ∙ rw same at e in
      let r : t.tostr (combine n (t.strto old) (t.strto new)) ≡ v = ground arith in
      ap t.strto (sym r) ∙ p.strto-tostr (combine n (t.strto old) (t.strto new))

  number-merge_prop_info :
      (n : Numeric) (i : StatPropInfo) (m l : Map String String)
      → Prints t
      → merge_prop_info t i m ≡ some l
      → number n l ≡ combined n (number n m) (of_info n i)
  unfolding merge_prop_info combined
  number-merge_prop_info n i m l p e = elim (Option-cases (find i.policy m)) [
    | inl f ↦
        let q : some (insert i.policy i.value m) ≡ some l = rw (merge_prop_info, f) at e in
        let new : insert i.policy i.value m ≡ l = ground arith in
        rw (sym new, find-insert i.policy (name n) i.value m)
          (elim (Bool-cases (str_eq i.policy (name n))) [
            | inl h ↦
                let same : i.policy ≡ name n = (eq_iff i.policy (name n)).0 h in
                let gone : find (name n) m ≡ none = rw (sym same) f in rw (h, gone) refl
            | inr h ↦ rw h (sym (combined-none n (number n m)))
          ])
    | inr (old, f) ↦ elim (Option-cases (merge_value t i.policy old i.value)) [
      | inl g ↦ absurd (let q : none ≡ some l = rw (merge_prop_info, f, g) at e in cc)
      | inr (v, g) ↦
          let q : some (update i.policy (λ _. v) m) ≡ some l = rw (merge_prop_info, f, g) at e in
          let new : update i.policy (λ _. v) m ≡ l = ground arith in
          rw (sym new, find-update i.policy (name n) (λ _. v) m)
            (elim (Bool-cases (str_eq i.policy (name n))) [
              | inl h ↦
                  let same : i.policy ≡ name n = (eq_iff i.policy (name n)).0 h in
                  let there : find (name n) m ≡ some old = rw (sym same) f in
                  rw (h, there) (ap some (merged_value n i.policy old i.value v p same g))
              | inr h ↦ rw h (sym (combined-none n (number n m)))
            ])
    ]
  ]

  pub number-merge_infos :
      (n : Numeric) (infos : List StatPropInfo) (m l : Map String String)
      → Prints t
      → HasUniqueKeys (pairs_of infos)
      → merge_infos t infos m ≡ some l
      → number n l ≡ combined n (number n m) (number n (pairs_of infos))
  unfolding merge_infos find
  number-merge_infos n [] m l p u e =
      let same : m ≡ l = ground arith in rw same (sym (combined-none n (number n l)))
  number-merge_infos n (i ∷ infos) m l p u e = elim (Option-cases (merge_prop_info t i m)) [
    | inl f ↦ absurd (let q : none ≡ some l = rw (merge_infos, f) at e in cc)
    | inr (k, f) ↦
        number-merge_infos n infos k l p u.1 (rw (merge_infos, f) at e)
        ∙ ap (λ o. combined n o (number n (pairs_of infos))) (number-merge_prop_info n i m k p f)
        ∙ elim (Bool-cases (str_eq i.policy (name n))) [
          | inl h ↦
              let same : i.policy ≡ name n = (eq_iff i.policy (name n)).0 h in
              let gone : find (name n) (pairs_of infos) ≡ none = rw same at u.0 in
              rw (h, gone) (combined-none n (combined n (number n m) (some (t.strto i.value))))
          | inr h ↦ rw (h, combined-none n (number n m)) refl
        ]
  ]
