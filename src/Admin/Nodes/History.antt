-- ===== src/Admin/Nodes/History.antt =====
-- The connections of a node after any calls of `NodeManager` (AdminRegistryServer/NodeManager.cpp).
use tars_framework.Base.{
  ℕ, subst, true, false, ◌≡◌, refl, ap, ◌∙◌, some, List, [], ◌∷◌, String, string_key, nat_key, has,
  Option-cases, inl, inr, arith,
}
use tars_framework.Base.Map.{Map, find}
use tars_framework.Admin.Nodes.{
  UidTimeStr, NodeManager, Found, no_node, connected, get_node_current,
}
use tars_framework.Admin.Nodes.Valid.{uids_at, IsValid}
use tars_framework.Admin.Nodes.Calls.{Call, create, delete, erased, perform, effect}
use tars_framework.Admin.Nodes.Created.{does-create, create-IsValid}
use tars_framework.Admin.Nodes.Ended.{does-delete, delete-IsValid, does-erase, erase-IsValid}

perform-IsValid : (call : Call) (st : NodeManager) → IsValid st → IsValid (perform call st)
unfolding perform
perform-IsValid (create node time u c) st v = create-IsValid node time u c st v
perform-IsValid (delete node) st v = delete-IsValid node st v
perform-IsValid (erased u) st v = erase-IsValid u st v

does-perform :
    (call : Call) (n : String) (st : NodeManager)
    → IsValid st
    → uids_at n (perform call st).map_node_id ≡ effect n call (uids_at n st.map_node_id)
unfolding perform effect
does-perform (create node time u c) n st v = does-create node time u c st v n
does-perform (delete node) n st v = does-delete node n st
does-perform (erased u) n st v = does-erase u n st v

unfoldable pub run : List Call → NodeManager → NodeManager
run [] st = st
run (call ∷ calls) st = run calls (perform call st)

-- The connections of a node by the calls alone: the one that spoke last for it comes first, and
-- what has ended or was deleted is gone.
unfoldable pub history : String → List Call → List ℕ → List ℕ
history n [] uids = uids
history n (call ∷ calls) uids = history n calls (effect n call uids)

-- What a search finds for the connections of a node.
unfoldable pub Answers : List ℕ → Map ℕ ℕ → Found → Type 0
Answers [] m f = f ≡ no_node
Answers (u ∷ us) m f = (c : ℕ) × (find u m ≡ some c) × (f ≡ connected c)

run_lem :
    (calls : List Call) (n : String) (st : NodeManager)
    → IsValid st
    → IsValid (run calls st)
      × (uids_at n (run calls st).map_node_id ≡ history n calls (uids_at n st.map_node_id))
unfolding run history
run_lem [] n st v = (v, refl)
run_lem (call ∷ calls) n st v =
    let later = run_lem calls n (perform call st) (perform-IsValid call st v) in
    (later.0, later.1 ∙ ap (history n calls) (does-perform call n st v))

found_lem :
    (n : String) (st : NodeManager)
    → IsValid st
    → Answers (uids_at n st.map_node_id) st.map_id_current (get_node_current n st)
unfolding Answers uids_at get_node_current
found_lem n st v = elim (Option-cases (find n st.map_node_id)) [
  | inl e ↦ rw (uids_at, get_node_current, e) refl
  | inr (r, e) ↦ go r e r.uids refl
]
  where
    go :
        (r : UidTimeStr)
        → find n st.map_node_id ≡ some r
        → (us : List ℕ) → r.uids ≡ us
        → Answers (uids_at n st.map_node_id) st.map_id_current (get_node_current n st)
    go r e [] q =
        absurd (let k = (v.sound n r e).not_empty in let x : true ≡ false = rw q at k in cc)
    go r e (u ∷ us) q =
        let here : has u (uids_at n st.map_node_id) ≡ true = rw (uids_at, e, q) (ground arith) in
        let c = v.alive n u here in rw (uids_at, get_node_current, e, q) (c.0, c.1, rw (c.1) refl)

-- After any calls on tables that fit each other they fit each other still, and the connections of a
-- node are those of its history: a connection that speaks for the node again comes to the front,
-- one that ends leaves all the nodes it spoke for, and a node that is deleted has none. A search
-- finds the connection that spoke last, or that there is none; it never throws.
pub node_history :
    (calls : List Call) (n : String) (st : NodeManager)
    → IsValid st
    → IsValid (run calls st)
      × (uids_at n (run calls st).map_node_id ≡ history n calls (uids_at n st.map_node_id))
      × Answers
          (history n calls (uids_at n st.map_node_id))
          (run calls st).map_id_current
          (get_node_current n (run calls st))
node_history calls n st v =
    let r = run_lem calls n st v in
    (
      r.0,
      r.1,
      subst (λ us. Answers us (run calls st).map_id_current (get_node_current n (run calls st)))
          (r.1) (found_lem n (run calls st) r.0),
    )
