-- ===== src/Admin/Nodes/Steps.antt =====
-- A connection that ends leaves its nodes (AdminRegistryServer/NodeManager.cpp, `eraseNodeCurrent`).
use tars_framework.Base.{
  ℕ, true, false, ◌≡◌, refl, sym, ◌∙◌, Option, none, some, List, [], ◌∷◌, String, str_eq,
  string_key, nat_key, eq_iff, ==_iff, if◌then◌else◌, is_empty, has, Bool-cases, Option-cases, inl,
  inr, arith,
}
use tars_framework.Base.Map.{Map, find, find-erase, find-update}
use tars_framework.Admin.Nodes.{UidTimeStr, remove_uid, erase_uid, leave_node, leave_nodes}
use tars_framework.Admin.Nodes.Valid.{
  uids_at, has_name, IsSound, AreSound, has-remove_uid, remove_uid-absent,
}

uids-erase_uid : (u : ℕ) (r : UidTimeStr) → IsSound r → (erase_uid u r).uids ≡ remove_uid u r.uids
unfolding erase_uid
uids-erase_uid u r s = elim (Bool-cases (has u r.uids)) [
  | inl h ↦ let it : find u r.its ≡ some u = s.its_agree u ∙ rw h refl in rw (erase_uid, it) refl
  | inr h ↦
      let it : find u r.its ≡ none = s.its_agree u ∙ rw h refl in
      rw (erase_uid, it) (sym (remove_uid-absent u r.uids h))
]

its-erase_uid :
    (u v : ℕ) (r : UidTimeStr)
    → IsSound r
    → find v (erase_uid u r).its ≡ (if has v (remove_uid u r.uids) then some v else none)
unfolding erase_uid
its-erase_uid u v r s = elim (Bool-cases (has u r.uids)) [
  | inl h ↦
      let it : find u r.its ≡ some u = s.its_agree u ∙ rw h refl in
      rw (erase_uid, it, find-erase u v r.its, has-remove_uid v u r.uids)
        (ground (arith, s.its_agree v, ==_iff u v, ==_iff v u))
  | inr h ↦
      let it : find u r.its ≡ none = s.its_agree u ∙ rw h refl in
      rw (erase_uid, it, remove_uid-absent u r.uids h) (s.its_agree v)
]

erase_uid-IsSound :
    (u : ℕ) (r : UidTimeStr)
    → IsSound r
    → is_empty (erase_uid u r).uids ≡ false
    → IsSound (erase_uid u r)
erase_uid-IsSound u r s e = record {
  its_agree = λ v. rw (uids-erase_uid u r s) (its-erase_uid u v r s);
  not_empty = e;
}

-- What `leave_node` finds: no node, one with this connection only, or one with others.
found_after :
    (u : ℕ) (node n : String) (m : Map String UidTimeStr)
    → find n (leave_node u node m) ≡ (
        if str_eq node n
        then (elim (find n m) as (λ _. Option UidTimeStr) [
          | none ↦ none
          | some r ↦ if is_empty (erase_uid u r).uids then none else some (erase_uid u r)
        ])
        else find n m)
unfolding leave_node
found_after u node n m = elim (Bool-cases (str_eq node n)) [
  | inl h ↦
      let same : node ≡ n = (eq_iff node n).0 h in
      elim (Option-cases (find n m)) [
        | inl e ↦ let e' : find node m ≡ none = rw same e in rw (leave_node, e', h, e) refl
        | inr (r, e) ↦
            let e' : find node m ≡ some r = rw same e in
            elim (Bool-cases (is_empty (erase_uid u r).uids)) [
              | inl z ↦ rw (leave_node, e', z, find-erase node n m, h, e) (rw z refl)
              | inr z ↦ rw (leave_node, e', z, find-update node n (erase_uid u) m, h, e) (rw z refl)
            ]
      ]
  | inr h ↦ elim (Option-cases (find node m)) [
    | inl e ↦ rw (leave_node, e, h) refl
    | inr (r, e) ↦ elim (Bool-cases (is_empty (erase_uid u r).uids)) [
      | inl z ↦ rw (leave_node, e, z, find-erase node n m, h) refl
      | inr z ↦ rw (leave_node, e, z, find-update node n (erase_uid u) m, h) refl
    ]
  ]
]

AreSound-leave_node :
    (u : ℕ) (node : String) (m : Map String UidTimeStr)
    → AreSound m
    → AreSound (leave_node u node m)
AreSound-leave_node u node m s n r e =
    let there = sym (found_after u node n m) ∙ e in
    elim (Bool-cases (str_eq node n)) [
      | inl h ↦ elim (Option-cases (find n m)) [
        | inl f ↦ absurd (let q : none ≡ some r = rw (h, f) at there in cc)
        | inr (q, f) ↦ elim (Bool-cases (is_empty (erase_uid u q).uids)) [
          | inl z ↦ absurd (let x : none ≡ some r = rw (h, f, z) at there in cc)
          | inr z ↦
              let x : some (erase_uid u q) ≡ some r = rw (h, f, z) at there in
              let same : erase_uid u q ≡ r = ground arith in
              rw (sym same) (erase_uid-IsSound u q (s n q f) z)
        ]
      ]
      | inr h ↦ s n r (rw h at there)
    ]

empty_list : (vs : List ℕ) → is_empty vs ≡ true → vs ≡ []
empty_list [] e = refl
empty_list (v ∷ vs) e = absurd cc

uids_at-leave_node :
    (u : ℕ) (node n : String) (m : Map String UidTimeStr)
    → AreSound m
    → uids_at n (leave_node u node m)
      ≡ (if str_eq node n then remove_uid u (uids_at n m) else uids_at n m)
unfolding uids_at remove_uid
uids_at-leave_node u node n m s = elim (Bool-cases (str_eq node n)) [
  | inl h ↦ elim (Option-cases (find n m)) [
    | inl f ↦ rw (uids_at, found_after u node n m, h, f) refl
    | inr (q, f) ↦ elim (Bool-cases (is_empty (erase_uid u q).uids)) [
      | inl z ↦
          rw (uids_at, found_after u node n m, h, f, z)
            (sym (empty_list (erase_uid u q).uids z) ∙ uids-erase_uid u q (s n q f))
      | inr z ↦ rw (uids_at, found_after u node n m, h, f, z) (uids-erase_uid u q (s n q f))
    ]
  ]
  | inr h ↦ rw (uids_at, found_after u node n m, h) refl
]

remove_twice : (u : ℕ) (vs : List ℕ) → remove_uid u (remove_uid u vs) ≡ remove_uid u vs
remove_twice u vs = remove_uid-absent u (remove_uid u vs) (ground (arith, has-remove_uid u u vs))

pub leave_nodes_lem :
    (u : ℕ) (nodes : List String) (m : Map String UidTimeStr)
    → AreSound m
    → AreSound (leave_nodes u nodes m)
      × ((n : String)
          → uids_at n (leave_nodes u nodes m)
            ≡ (if has_name n nodes then remove_uid u (uids_at n m) else uids_at n m))
unfolding leave_nodes
leave_nodes_lem u [] m s = (s, λ n. refl)
leave_nodes_lem u (node ∷ nodes) m s =
    let next = leave_node u node m in
    let later = leave_nodes_lem u nodes next (AreSound-leave_node u node m s) in
    (
      later.0,
      λ n. later.1 n ∙ elim (Bool-cases (str_eq node n)) [
        | inl h ↦
            rw (uids_at-leave_node u node n m s, h) (ground (arith, remove_twice u (uids_at n m)))
        | inr h ↦ rw (uids_at-leave_node u node n m s, h) refl
      ],
    )
