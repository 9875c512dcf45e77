-- ===== src/Admin/Nodes/Valid.antt =====
-- When the tables of `NodeManager` (AdminRegistryServer/NodeManager.cpp) fit each other.
use tars_framework.Base.{
  ℕ, Bool, true, false, ◌||◌, ◌≡◌, refl, none, some, List, [], ◌∷◌, String, str_eq, string_key,
  nat_key, eq_iff, if◌then◌else◌, ◌==◌, is_empty, has, arith,
}
use tars_framework.Base.Map.{Map, find, get_or}
use tars_framework.Admin.Nodes.{UidTimeStr, NodeManager, remove_uid, insert_name, erase_name}

-- The connections of a node, the latest first.
unfoldable pub uids_at : String → Map String UidTimeStr → List ℕ
uids_at node m = elim (find node m) [ none ↦ [] | some r ↦ r.uids ]

abbrev pub has_name : String → List String → Bool
has_name name [] = false
has_name name (n ∷ ns) = str_eq n name || has_name name ns

-- The iterators are those of the list, which is not empty.
pub record IsSound (r : UidTimeStr) : Type 0 where
  pub its_agree : (u : ℕ) → find u r.its ≡ (if has u r.uids then some u else none)
  pub not_empty : is_empty r.uids ≡ false

abbrev pub AreSound : Map String UidTimeStr → Type 0
AreSound m = (node : String) (r : UidTimeStr) → find node m ≡ some r → IsSound r

pub record IsValid (st : NodeManager) : Type 0 where
  pub sound : AreSound st.map_node_id
  pub named :
      (node : String) (u : ℕ)
      → has u (uids_at node st.map_node_id) ≡ true
      → has_name node (get_or (find u st.map_id_node) []) ≡ true
  pub alive :
      (node : String) (u : ℕ)
      → has u (uids_at node st.map_node_id) ≡ true
      → (c : ℕ) × (find u st.map_id_current ≡ some c)

pub has-remove_uid :
    (u v : ℕ) (vs : List ℕ) → has u (remove_uid v vs) ≡ (if u == v then false else has u vs)
unfolding remove_uid
has-remove_uid u v [] = ground arith
has-remove_uid u v (w ∷ vs) = ground (arith, has-remove_uid u v vs)

pub remove_uid-absent : (u : ℕ) (vs : List ℕ) → has u vs ≡ false → remove_uid u vs ≡ vs
unfolding remove_uid
remove_uid-absent u [] h = refl
remove_uid-absent u (v ∷ vs) h = ground (arith, remove_uid-absent u vs)

pub has_name-insert_name :
    (a b : String) (ns : List String)
    → has_name a (insert_name b ns) ≡ (str_eq b a || has_name a ns)
unfolding insert_name
has_name-insert_name a b [] = ground arith
has_name-insert_name a b (n ∷ ns) =
    ground (arith, eq_iff n b, eq_iff n a, eq_iff b a, has_name-insert_name a b ns)

pub has_name-erase_name :
    (a b : String) (ns : List String)
    → has_name a (erase_name b ns) ≡ (if str_eq b a then false else has_name a ns)
unfolding erase_name
has_name-erase_name a b [] = ground arith
has_name-erase_name a b (n ∷ ns) =
    ground (arith, eq_iff n b, eq_iff n a, eq_iff b a, has_name-erase_name a b ns)
