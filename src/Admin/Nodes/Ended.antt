-- ===== src/Admin/Nodes/Ended.antt =====
-- A node is deleted, or a connection ends (AdminRegistryServer/NodeManager.cpp, `deleteNodeCurrent` and
-- `eraseNodeCurrent`).
use mathlib.Core.Option
use tars_framework.Base.{
  ℕ, true, false, ◌≡◌, refl, sym, ap, ◌∙◌, Option, none, some, List, [], ◌∷◌, String, str_eq,
  string_key, nat_key, eq_iff, ==_iff, if◌then◌else◌, ◌==◌, has, Bool-cases, Option-cases, inl, inr,
  arith,
}
use tars_framework.Base.Map.{Map, find, erase, update, get_or, find-erase, find-update}
use tars_framework.Admin.Nodes.{
  UidTimeStr, NodeManager, remove_uid, erase_name, leave_all, delete_node_current, leave_nodes,
  erase_node_current,
}
use tars_framework.Admin.Nodes.Valid.{
  uids_at, has_name, IsValid, has-remove_uid, remove_uid-absent, has_name-erase_name,
}
use tars_framework.Admin.Nodes.Steps.{leave_nodes_lem}
use tars_framework.Admin.Nodes.Calls.{delete, effect}

uids_at-erase :
    (node n : String) (m : Map String UidTimeStr)
    → uids_at n (erase node m) ≡ (if str_eq node n then [] else uids_at n m)
unfolding uids_at
uids_at-erase node n m = elim (Bool-cases (str_eq node n)) [
  | inl h ↦ rw (uids_at, find-erase node n m, h) refl
  | inr h ↦ rw (uids_at, find-erase node n m, h) refl
]

has_name-leave_all :
    (node n : String) (uids : List ℕ) (u : ℕ) (m : Map ℕ (List String))
    → str_eq node n ≡ false
    → has_name n (get_or (find u (leave_all node uids m)) []) ≡ has_name n (get_or (find u m) [])
unfolding leave_all
has_name-leave_all node n [] u m h = refl
has_name-leave_all node n (v ∷ uids) u m h =
    has_name-leave_all node n uids u (update v (erase_name node) m) h ∙ elim (Bool-cases (v == u)) [
      | inl e ↦ rw (find-update v u (erase_name node) m, e) (one (find u m))
      | inr e ↦ rw (find-update v u (erase_name node) m, e) refl
    ]
  where
    one :
        (o : Option (List String))
        → has_name n (get_or (Option.map (erase_name node) o) []) ≡ has_name n (get_or o [])
    one none = refl
    one (some ns) = rw (has_name-erase_name n node ns, h) refl

-- `delete_node_current`.
pub does-delete :
    (node n : String) (st : NodeManager)
    → uids_at n (delete_node_current node st).map_node_id
      ≡ effect n (delete node) (uids_at n st.map_node_id)
unfolding effect delete_node_current uids_at
does-delete node n st = elim (Option-cases (find node st.map_node_id)) [
  | inl e ↦ elim (Bool-cases (str_eq node n)) [
    | inl h ↦
        let same : node ≡ n = (eq_iff node n).0 h in
        let e' : find n st.map_node_id ≡ none = rw (sym same) e in
        rw (delete_node_current, e, h, uids_at, e') refl
    | inr h ↦ rw (delete_node_current, e, h) refl
  ]
  | inr (r, e) ↦ rw (delete_node_current, e) (uids_at-erase node n st.map_node_id)
]

pub delete-IsValid :
    (node : String) (st : NodeManager) → IsValid st → IsValid (delete_node_current node st)
unfolding delete_node_current
delete-IsValid node st v = elim (Option-cases (find node st.map_node_id)) [
  | inl e ↦ rw (delete_node_current, e) v
  | inr (r, e) ↦
      let gone : (n : String) (w : ℕ)
          → has w (uids_at n (erase node st.map_node_id)) ≡ true
          → (str_eq node n ≡ false) × (has w (uids_at n st.map_node_id) ≡ true) =
        λ n w h. erased_before node n w st.map_node_id h in
      rw (delete_node_current, e)
        record {
          sound = λ n q f.
              let there = sym (find-erase node n st.map_node_id) ∙ f in
              elim (Bool-cases (str_eq node n)) [
                | inl h ↦ absurd (let x : none ≡ some q = rw h at there in cc)
                | inr h ↦ v.sound n q (rw h at there)
              ];
          named = λ n w h.
              has_name-leave_all node n r.uids w st.map_id_node (gone n w h).0
              ∙ v.named n w (gone n w h).1;
          alive = λ n w h. v.alive n w (gone n w h).1;
        }
]
  where
    erased_before :
        (node n : String) (w : ℕ) (m : Map String UidTimeStr)
        → has w (uids_at n (erase node m)) ≡ true
        → (str_eq node n ≡ false) × (has w (uids_at n m) ≡ true)
    erased_before node n w m h =
        let there = ap (has w) (sym (uids_at-erase node n m)) ∙ h in
        elim (Bool-cases (str_eq node n)) [
          | inl e ↦ absurd (let x : false ≡ true = rw e at there in cc)
          | inr e ↦ (e, rw e at there)
        ]

-- `erase_node_current`: the nodes that the connection is not in the set of do not have it.
pub does-erase :
    (u : ℕ) (n : String) (st : NodeManager)
    → IsValid st
    → uids_at n (erase_node_current u st).map_node_id ≡ remove_uid u (uids_at n st.map_node_id)
unfolding erase_node_current
does-erase u n st v = elim (Option-cases (find u st.map_id_node)) [
  | inl e ↦
      rw (erase_node_current, e)
        (sym (remove_uid-absent u (uids_at n st.map_node_id) (not_named e)))
  | inr (nodes, e) ↦
      rw (erase_node_current, e)
        ((leave_nodes_lem u nodes st.map_node_id v.sound).1 n
          ∙ elim (Bool-cases (has_name n nodes)) [
            | inl h ↦ rw h refl
            | inr h ↦
                rw h (sym (remove_uid-absent u (uids_at n st.map_node_id) (not_among nodes e h)))
          ])
]
  where
    not_named : find u st.map_id_node ≡ none → has u (uids_at n st.map_node_id) ≡ false
    not_named e = elim (Bool-cases (has u (uids_at n st.map_node_id))) [
      | inl h ↦ absurd (let k = v.named n u h in let x : false ≡ true = rw e at k in cc)
      | inr h ↦ h
    ]

    not_among :
        (nodes : List String)
        → find u st.map_id_node ≡ some nodes
        → has_name n nodes ≡ false
        → has u (uids_at n st.map_node_id) ≡ false
    not_among nodes e f = elim (Bool-cases (has u (uids_at n st.map_node_id))) [
      | inl h ↦
          let k = v.named n u h in
          let x : has_name n nodes ≡ true = rw e at k in
          absurd (let y : true ≡ false = sym x ∙ f in cc)
      | inr h ↦ h
    ]

pub erase-IsValid : (u : ℕ) (st : NodeManager) → IsValid st → IsValid (erase_node_current u st)
unfolding erase_node_current
erase-IsValid u st v = elim (Option-cases (find u st.map_id_node)) [
  | inl e ↦ rw (erase_node_current, e) v
  | inr (nodes, e) ↦
      rw (erase_node_current, e)
        record {
          sound = (leave_nodes_lem u nodes st.map_node_id v.sound).0;
          named = λ n w h.
              let k = left n w nodes e h in
              rw (find-erase u w st.map_id_node, k.0) (v.named n w k.1);
          alive = λ n w h.
              let k = left n w nodes e h in
              rw (find-erase u w st.map_id_current, k.0) (v.alive n w k.1);
        }
]
  where
    left :
        (n : String) (w : ℕ) (nodes : List String)
        → find u st.map_id_node ≡ some nodes
        → has w (uids_at n (leave_nodes u nodes st.map_node_id)) ≡ true
        → ((u == w) ≡ false) × (has w (uids_at n st.map_node_id) ≡ true)
    left n w nodes e h =
        let all = does-erase u n st v in
        let q : uids_at n (leave_nodes u nodes st.map_node_id)
            ≡ remove_uid u (uids_at n st.map_node_id) =
          rw (erase_node_current, e) at all in
        let there : has w (remove_uid u (uids_at n st.map_node_id)) ≡ true =
          ap (has w) (sym q) ∙ h in
        ground (arith, has-remove_uid w u (uids_at n st.map_node_id), ==_iff u w, ==_iff w u)
