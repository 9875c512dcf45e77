-- ===== src/Property/Hash/Orders.antt =====
-- Reports to the table of PropertyServer/PropertyHashMap.h, in any order.
use mathlib.Core.List.{Permᴰ}
use mathlib.Core.Option
use tars_framework.Base.{
  true, false, ◌≡◌, refl, sym, ap, ◌∙◌, ◌≢◌, Option, none, some, List, [], ◌∷◌, String, str_eq,
  string_key, eq_iff, if◌then◌else◌, Bool-cases, Option-cases, inl, inr, arith,
}
use tars_framework.Base.Int.{ℤ, pos}
use tars_framework.Base.Map.{find, HasUniqueKeys}
use tars_framework.Stat.Hash.{Got, failed, ok, no_data, HashTable}
use tars_framework.Stat.Hash.Summary.{is_full, Keeps}
use tars_framework.Property.Hash.{StatPropInfo, Texts, Format, sums_of, merge_infos, infos_of, add}
use tars_framework.Property.Hash.Numbers.{
  Numeric, name, combined, combined_swap, pairs_of, pairs_of-infos_of, find-sums_of, Prints, number,
  number-merge_infos,
}

-- What is written is read again.
pub record Reads {Head Bytes : Type 0} (F : Format Head Bytes) : Type 0 where
  pub read-write : (b : List StatPropInfo) → F.read_body (F.write_body b) ≡ b

module _ {Head Bytes : Type 0} (T : HashTable Bytes) (F : Format Head Bytes) (t : Texts) where
  unfoldable pub held : Got Bytes → List StatPropInfo
  held failed = []
  held (ok sv) = F.read_body sv
  held no_data = []

  -- The number that the table has for a key and a policy.
  unfoldable pub told : Numeric → String → T.Store → Option ℤ
  told n key s = number t n (pairs_of (held (T.get key s)))

  -- Reports that are all stored, one after the other: each finds room, a tenth of the chunks, where
  -- PropertyServer/PropertyImp.cpp asks for a twentieth, and comes to code 0.
  pub data Stored : List (Head × List StatPropInfo) → T.Store → T.Store → Type 0 where
    done : {s : T.Store} → Stored [] s s
    next :
        {head : Head} {body : List StatPropInfo} {rs : List (Head × List StatPropInfo)}
        {s u w : T.Store}
        → is_full T s ≡ false
        → HasUniqueKeys (pairs_of body)
        → add T F t head body s ≡ some (pos 0, u)
        → Stored rs u w
        → Stored ((head, body) ∷ rs) s w

  unfoldable pub merged : Numeric → String → Head → List StatPropInfo → Option ℤ → Option ℤ
  merged n key head body o =
      if str_eq (F.write_head head) key then combined n o (number t n (pairs_of body)) else o

  unfoldable pub merge_all :
      Numeric → String → List (Head × List StatPropInfo) → Option ℤ → Option ℤ
  merge_all n key [] o = o
  merge_all n key ((head, body) ∷ rs) o = merge_all n key rs (merged n key head body o)

  -- What is written by a report has the numbers of both.
  Written : Numeric → List StatPropInfo → Got Bytes → List StatPropInfo → Type 0
  Written n body g new =
      number t n (pairs_of new)
      ≡ combined n (number t n (pairs_of (held g))) (number t n (pairs_of body))

  add_cases :
      (n : Numeric) (head : Head) (body : List StatPropInfo) (s : T.Store) (r : ℤ × T.Store)
      (g : Got Bytes)
      → Prints t
      → HasUniqueKeys (pairs_of body)
      → T.get (F.write_head head) s ≡ g
      → add T F t head body s ≡ some r
      → (new : List StatPropInfo) × (T.set (F.write_head head) (F.write_body new) s ≡ r)
        × Written n body g new
  unfolding add held Written combined find
  add_cases n head body s r failed p u e z =
      let q : some (T.set (F.write_head head) (F.write_body body) s) ≡ some r = rw (add, e) at z in
      (body, ground arith, refl)
  add_cases n head body s r no_data p u e z =
      let q : some (T.set (F.write_head head) (F.write_body body) s) ≡ some r = rw (add, e) at z in
      (body, ground arith, refl)
  add_cases n head body s r (ok sv) p u e z =
      elim (Option-cases (merge_infos t body (sums_of (F.read_body sv) []))) [
        | inl f ↦ absurd (let q : none ≡ some r = rw (add, e, f) at z in cc)
        | inr (l, f) ↦
            let q : some (T.set (F.write_head head) (F.write_body (infos_of l)) s) ≡ some r =
              rw (add, e, f) at z in
            let old : find (name n) (sums_of (F.read_body sv) [])
                ≡ find (name n) (pairs_of (F.read_body sv)) =
              find-sums_of (name n) (F.read_body sv) [] in
            (
              infos_of l,
              ground arith,
              ap (number t n) (pairs_of-infos_of l)
                  ∙ number-merge_infos t n body (sums_of (F.read_body sv) []) l p u f
                  ∙ ap (λ o. combined n (Option.map t.strto o) (number t n (pairs_of body))) old,
            )
      ]

  told-add :
      (n : Numeric) (key : String) (head : Head) (body : List StatPropInfo) (s u : T.Store)
      → Keeps T
      → Reads F
      → Prints t
      → is_full T s ≡ false
      → HasUniqueKeys (pairs_of body)
      → add T F t head body s ≡ some (pos 0, u)
      → told n key u ≡ merged n key head body (told n key s)
  unfolding told merged held Written
  told-add n key head body s u k r p room unique e =
      let w = add_cases n head body s (pos 0, u) _ p unique refl e in
      let new = w.0 in
      let code : (T.set (F.write_head head) (F.write_body new) s).0 ≡ pos 0 = ap (λ x. x.0) w.1 in
      let after : (T.set (F.write_head head) (F.write_body new) s).1 ≡ u = ap (λ x. x.1) w.1 in
      elim (Bool-cases (str_eq (F.write_head head) key)) [
        | inl h ↦
            let same : F.write_head head ≡ key = (eq_iff (F.write_head head) key).0 h in
            let g : T.get (F.write_head head) u ≡ ok (F.write_body new) =
              rw (sym after) (k.stored (F.write_head head) (F.write_body new) s room code) in
            rw (h, sym same, g, r.read-write new) (w.2)
        | inr h ↦
            let other : F.write_head head ≢ key = λ x.
              absurd
                (let y : true ≡ false = rw (sym ((eq_iff (F.write_head head) key).1 x)) h in cc) in
            let g : T.get key u ≡ T.get key s =
              rw (sym after) (k.kept (F.write_head head) key (F.write_body new) s room other) in
            rw (h, g) refl
      ]

  told-Stored :
      (n : Numeric) (key : String) (rs : List (Head × List StatPropInfo)) (s u : T.Store)
      → Keeps T
      → Reads F
      → Prints t
      → Stored rs s u
      → told n key u ≡ merge_all n key rs (told n key s)
  unfolding merge_all
  told-Stored n key _ _ _ k r p done = refl
  told-Stored n key _ _ w k r p (next {head} {body} {rs} {s} {u} room unique e later) =
      told-Stored n key rs u w k r p later
      ∙ ap (merge_all n key rs) (told-add n key head body s u k r p room unique e)

  merged_swap :
      (n : Numeric) (key : String) (x y : Head × List StatPropInfo) (o : Option ℤ)
      → merged n key y.0 y.1 (merged n key x.0 x.1 o)
        ≡ merged n key x.0 x.1 (merged n key y.0 y.1 o)
  unfolding merged
  merged_swap n key x y o = elim (Bool-cases (str_eq (F.write_head x.0) key)) [
    | inl h ↦ elim (Bool-cases (str_eq (F.write_head y.0) key)) [
      | inl e ↦
          rw (h, e) (combined_swap n o (number t n (pairs_of x.1)) (number t n (pairs_of y.1)))
      | inr e ↦ rw (h, e) refl
    ]
    | inr h ↦ rw h refl
  ]

  merge_all_perm :
      (n : Numeric) (key : String) (rs us : List (Head × List StatPropInfo)) (o : Option ℤ)
      → Permᴰ rs us
      → merge_all n key rs o ≡ merge_all n key us o
  unfolding merge_all
  merge_all_perm n key _ _ o Permᴰ.nil = refl
  merge_all_perm n key _ _ o (Permᴰ.cons {b = b} e p) =
      rw e (merge_all_perm n key _ _ (merged n key b.0 b.1 o) p)
  merge_all_perm n key _ _ o (Permᴰ.swap {a' = a'} {b' = b'} {l = l} e f) =
      rw (e, f) (ap (merge_all n key l) (merged_swap n key b' a' o))
  merge_all_perm n key _ _ o (Permᴰ.trans p q) =
      merge_all_perm n key _ _ o p ∙ merge_all_perm n key _ _ o q

-- Where every report finds room, is stored and has each policy once, the table has of each head and each of
-- the policies Count, Sum, Min and Max the number of its reports merged one after the other, and the
-- same number whatever the order of the reports. The table keeps what is stored while it has room,
-- what is written is read again, and so is a number that is printed.
pub numbers_any_order :
    {Head Bytes : Type 0} (T : HashTable Bytes) (F : Format Head Bytes) (t : Texts) (n : Numeric)
    (key : String) (rs us : List (Head × List StatPropInfo)) (s u w : T.Store)
    → Keeps T
    → Reads F
    → Prints t
    → Permᴰ rs us
    → Stored T F t rs s u
    → Stored T F t us s w
    → (told T F t n key u ≡ merge_all T F t n key rs (told T F t n key s))
      × (told T F t n key u ≡ told T F t n key w)
numbers_any_order T F t n key rs us s u w k r p perm a b =
    let one = told-Stored T F t n key rs s u k r p a in
    (
      one,
      one
          ∙ merge_all_perm T F t n key rs us (told T F t n key s) perm
          ∙ sym (told-Stored T F t n key us s w k r p b),
    )
