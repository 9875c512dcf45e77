-- ===== src/Admin/Nodes/Created.antt =====
-- A node gets a connection (AdminRegistryServer/NodeManager.cpp, `createNodeCurrent`).
use tars_framework.Base.{
  ℕ, true, ◌≡◌, refl, sym, ap, ◌∙◌, none, some, List, [], ◌∷◌, String, str_eq, string_key, nat_key,
  eq_iff, ==_iff, if◌then◌else◌, ◌==◌, has, Bool-cases, Option-cases, inl, inr, ◌⊎◌, arith,
}
use tars_framework.Base.Map.{Map, find, insert, get_or, find-insert}
use tars_framework.Admin.Nodes.{
  UidTimeStr, NodeManager, remove_uid, insert_name, erase_it, new_entry, create_node_current,
}
use tars_framework.Admin.Nodes.Valid.{
  uids_at, has_name, IsSound, AreSound, IsValid, has-remove_uid, remove_uid-absent,
  has_name-insert_name,
}
use tars_framework.Admin.Nodes.Calls.{create, effect}

-- `create_node_current`: the connection comes to the front.
uids-new_entry :
    (time : String) (u : ℕ) (node : String) (m : Map String UidTimeStr)
    → AreSound m
    → (new_entry time u (find node m)).uids ≡ u ∷ remove_uid u (uids_at node m)
unfolding new_entry erase_it uids_at remove_uid
uids-new_entry time u node m s = elim (Option-cases (find node m)) [
  | inl e ↦ rw (uids_at, e) refl
  | inr (r, e) ↦ elim (Bool-cases (has u r.uids)) [
    | inl h ↦
        let it : find u r.its ≡ some u = (s node r e).its_agree u ∙ rw h refl in
        rw (uids_at, e, it) refl
    | inr h ↦
        let it : find u r.its ≡ none = (s node r e).its_agree u ∙ rw h refl in
        rw (uids_at, e, it) (ap (λ t. u ∷ t) (sym (remove_uid-absent u r.uids h)))
  ]
]

its-new_entry :
    (time : String) (u v : ℕ) (node : String) (m : Map String UidTimeStr)
    → AreSound m
    → find v (new_entry time u (find node m)).its
      ≡ (if u == v then some u else if has v (uids_at node m) then some v else none)
unfolding new_entry uids_at find
its-new_entry time u v node m s = elim (Option-cases (find node m)) [
  | inl e ↦ rw (uids_at, e) refl
  | inr (r, e) ↦ rw (uids_at, e, find-insert u v u r.its) (ground (arith, (s node r e).its_agree v))
]

new_entry-IsSound :
    (time : String) (u : ℕ) (node : String) (m : Map String UidTimeStr)
    → AreSound m
    → IsSound (new_entry time u (find node m))
new_entry-IsSound time u node m s = record {
  its_agree = λ v.
      rw (its-new_entry time u v node m s, uids-new_entry time u node m s)
        (ground (arith, has-remove_uid v u (uids_at node m), ==_iff u v, ==_iff v u));
  not_empty = rw (uids-new_entry time u node m s) refl;
}

uids_at-insert :
    (node n : String) (r : UidTimeStr) (m : Map String UidTimeStr)
    → uids_at n (insert node r m) ≡ (if str_eq node n then r.uids else uids_at n m)
unfolding uids_at
uids_at-insert node n r m = elim (Bool-cases (str_eq node n)) [
  | inl h ↦ rw (uids_at, find-insert node n r m, h) refl
  | inr h ↦ rw (uids_at, find-insert node n r m, h) refl
]

pub does-create :
    (node time : String) (u c : ℕ) (st : NodeManager)
    → IsValid st
    → (n : String)
    → uids_at n (create_node_current node time u c st).map_node_id
      ≡ effect n (create node time u c) (uids_at n st.map_node_id)
unfolding effect create_node_current
does-create node time u c st v n =
    let entry = new_entry time u (find node st.map_node_id) in
    let uids = uids-new_entry time u node st.map_node_id v.sound in
    uids_at-insert node n entry st.map_node_id ∙ elim (Bool-cases (str_eq node n)) [
      | inl h ↦ let same : node ≡ n = (eq_iff node n).0 h in rw (h, uids, same) refl
      | inr h ↦ rw h refl
    ]

-- A connection that is there after `create` was there, or is the new one of the node.
created_before :
    (node time n : String) (u c w : ℕ) (uids : List ℕ)
    → has w (effect n (create node time u c) uids) ≡ true
    → (has w uids ≡ true) ⊎ ((str_eq node n ≡ true) × (u ≡ w))
unfolding effect
created_before node time n u c w uids h = elim (Bool-cases (has w uids)) [
  | inl e ↦ inl e
  | inr e ↦ elim (Bool-cases (str_eq node n)) [
    | inl f ↦ inr (f, ground (arith, has-remove_uid w u uids, ==_iff w u))
    | inr f ↦ absurd (ground arith)
  ]
]

still_connected :
    (node time n : String) (u c w : ℕ) (st : NodeManager)
    → IsValid st
    → has w (uids_at n (create_node_current node time u c st).map_node_id) ≡ true
    → (has w (uids_at n st.map_node_id) ≡ true) ⊎ ((str_eq node n ≡ true) × (u ≡ w))
still_connected node time n u c w st v h =
    created_before node time n u c w (uids_at n st.map_node_id)
      (ap (has w) (sym (does-create node time u c st v n)) ∙ h)

created_named :
    (node n : String) (u w : ℕ) (m : Map ℕ (List String))
    → (has_name n (get_or (find w m) []) ≡ true) ⊎ ((str_eq node n ≡ true) × (u ≡ w))
    → has_name n (get_or (find w (insert u (insert_name node (get_or (find u m) [])) m)) []) ≡ true
created_named node n u w m o = elim (Bool-cases (u == w)) [
  | inl e ↦
      let same : u ≡ w = (==_iff u w).0 e in
      rw
        (
          find-insert u w (insert_name node (get_or (find u m) [])) m,
          e,
          has_name-insert_name n node (get_or (find u m) []),
          same,
        )
        (elim o [ inl k ↦ ground arith | inr k ↦ ground (arith, k.0) ])
  | inr e ↦
      rw (find-insert u w (insert_name node (get_or (find u m) [])) m, e)
        (elim o [ inl k ↦ k | inr k ↦ absurd (ground (arith, k.1)) ])
]

pub create-IsValid :
    (node time : String) (u c : ℕ) (st : NodeManager)
    → IsValid st
    → IsValid (create_node_current node time u c st)
unfolding create_node_current
create-IsValid node time u c st v =
    let entry = new_entry time u (find node st.map_node_id) in
    record {
      sound = λ n r e.
          let there = sym (find-insert node n entry st.map_node_id) ∙ e in
          elim (Bool-cases (str_eq node n)) [
            | inl h ↦
                let x : some entry ≡ some r = rw h at there in
                let same : entry ≡ r = ground arith in
                rw (sym same) (new_entry-IsSound time u node st.map_node_id v.sound)
            | inr h ↦ v.sound n r (rw h at there)
          ];
      named = λ n w h.
          created_named node n u w st.map_id_node (elim (still_connected node time n u c w st v h) [
            | inl k ↦ inl (v.named n w k)
            | inr k ↦ inr k
          ]);
      alive = λ n w h. elim (Bool-cases (u == w)) [
        | inl e ↦ (c, rw (find-insert u w c st.map_id_current, e) refl)
        | inr e ↦ elim (still_connected node time n u c w st v h) [
          | inl k ↦ rw (find-insert u w c st.map_id_current, e) (v.alive n w k)
          | inr k ↦ absurd (ground (arith, k.1))
        ]
      ];
    }
