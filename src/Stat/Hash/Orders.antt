-- ===== src/Stat/Hash/Orders.antt =====
-- Reports to a table of StatServer/StatHashMap.h, in any order.
use mathlib.Core.List.{Permᴰ}
use tars_framework.Base.{
  ℕ, false, ◌≡◌, refl, sym, ap, ◌∙◌, List, [], ◌∷◌, String, str_eq, Bool-cases, inl, inr,
}
use tars_framework.Base.Int.{pos}
use tars_framework.Stat.Hash.{StatMicMsgHead, StatMicMsgBody, HashTable, Format, add}
use tars_framework.Stat.Hash.Summary.{
  Summary, of_report, merge_summary_swap, is_full, Keeps, Reads, told, merged, told-add,
}

module _ (T : HashTable (List ℕ)) (F : Format) where
  unfoldable pub add_all : List (StatMicMsgHead × StatMicMsgBody) → T.Store → T.Store
  add_all [] s = s
  add_all ((head, body) ∷ rs) s = add_all rs (add T F head body s).1

  -- Each report finds room and is stored.
  abbrev pub AreStored : List (StatMicMsgHead × StatMicMsgBody) → T.Store → Type 0
  AreStored [] s = Unit
  AreStored ((head, body) ∷ rs) s =
      (is_full T s ≡ false)
      × ((add T F head body s).0 ≡ pos 0)
      × AreStored rs (add T F head body s).1

  -- The reports of a key, merged one after the other.
  unfoldable pub merge_all : String → List (StatMicMsgHead × StatMicMsgBody) → Summary → Summary
  merge_all key [] st = st
  merge_all key ((head, body) ∷ rs) st = merge_all key rs (merged T F key head body st)

  pub told-add_all :
      (key : String) (rs : List (StatMicMsgHead × StatMicMsgBody)) (s : T.Store)
      → Keeps T
      → Reads F
      → AreStored rs s
      → told T F key (add_all rs s) ≡ merge_all key rs (told T F key s)
  unfolding add_all merge_all
  told-add_all key [] s k r a = refl
  told-add_all key ((head, body) ∷ rs) s k r a =
      told-add_all key rs (add T F head body s).1 k r a.2
      ∙ ap (merge_all key rs) (told-add T F key head body s k r a.0 a.1)

  merged_swap :
      (key : String) (p q : StatMicMsgHead × StatMicMsgBody) (st : Summary)
      → merged T F key q.0 q.1 (merged T F key p.0 p.1 st)
        ≡ merged T F key p.0 p.1 (merged T F key q.0 q.1 st)
  unfolding merged
  merged_swap key p q st = elim (Bool-cases (str_eq (F.write_head p.0) key)) [
    | inl h ↦ elim (Bool-cases (str_eq (F.write_head q.0) key)) [
      | inl e ↦ rw (h, e) (merge_summary_swap (of_report p.1) (of_report q.1) st)
      | inr e ↦ rw (h, e) refl
    ]
    | inr h ↦ rw h refl
  ]

  merge_all_perm :
      (key : String) (rs us : List (StatMicMsgHead × StatMicMsgBody)) (st : Summary)
      → Permᴰ rs us
      → merge_all key rs st ≡ merge_all key us st
  unfolding merge_all
  merge_all_perm key _ _ st Permᴰ.nil = refl
  merge_all_perm key _ _ st (Permᴰ.cons {b = b} e p) =
      rw e (merge_all_perm key _ _ (merged T F key b.0 b.1 st) p)
  merge_all_perm key _ _ st (Permᴰ.swap {a' = a'} {b' = b'} {l = l} e f) =
      rw (e, f) (ap (merge_all key l) (merged_swap key b' a' st))
  merge_all_perm key _ _ st (Permᴰ.trans p q) =
      merge_all_perm key _ _ st p ∙ merge_all_perm key _ _ st q

-- Where every report finds room and is stored, the order of the reports changes nothing of what a
-- table tells: of each key it has the sums of the counts, of the interval counts and of the total
-- times, the largest of the largest times and the smallest of the smallest times that are not 0, of
-- what it had and of the reports, and the same for the reports in another order.
-- The table keeps what is stored while it has room, and what is written is read again.
pub told_any_order :
    (T : HashTable (List ℕ)) (F : Format) (rs us : List (StatMicMsgHead × StatMicMsgBody))
    (s : T.Store) (key : String)
    → Keeps T
    → Reads F
    → Permᴰ rs us
    → AreStored T F rs s
    → AreStored T F us s
    → (told T F key (add_all T F rs s) ≡ merge_all T F key rs (told T F key s))
      × (told T F key (add_all T F rs s) ≡ told T F key (add_all T F us s))
told_any_order T F rs us s key k r p a b =
    let one = told-add_all T F key rs s k r a in
    (
      one,
      one ∙ merge_all_perm T F key rs us (told T F key s) p ∙ sym (told-add_all T F key us s k r b),
    )
