-- ===== src/Admin/Nodes.antt =====
-- The connections of the nodes, `NodeManager` of AdminRegistryServer/NodeManager.cpp and .h: a node may have
-- several connections, and one connection may speak for several nodes. An iterator of the list of
-- connections stands for its element; no connection is twice in a list. Each call is one step, under the
-- lock.
pub mod Valid
pub mod Steps
pub mod Calls
pub mod Created
pub mod Ended
pub mod History
use tars_framework.Base.{
  ℕ, Bool, true, false, not, Option, none, some, List, [], ◌∷◌, String, str_eq, string_key, nat_key,
  if◌then◌else◌, ◌==◌, is_empty,
}
use tars_framework.Base.Map.{Map, find, insert, erase, update, get_or}

pub record UidTimeStr : Type 0 where
  pub time_str : String
  pub uids : List ℕ
  pub its : Map ℕ ℕ

-- A connection object is a number.
pub record NodeManager : Type 0 where
  pub map_node_id : Map String UidTimeStr
  pub map_id_node : Map ℕ (List String)
  pub map_id_current : Map ℕ ℕ

-- `erase` of a list at an iterator.
unfoldable pub remove_uid : ℕ → List ℕ → List ℕ
remove_uid u [] = []
remove_uid u (v ∷ vs) = if v == u then remove_uid u vs else v ∷ remove_uid u vs

-- `insert` and `erase` of a set of names.
unfoldable pub insert_name : String → List String → List String
insert_name name [] = name ∷ []
insert_name name (n ∷ ns) = if str_eq n name then n ∷ ns else n ∷ insert_name name ns

unfoldable pub erase_name : String → List String → List String
erase_name name [] = []
erase_name name (n ∷ ns) = if str_eq n name then erase_name name ns else n ∷ erase_name name ns

unfoldable pub erase_it : Option ℕ → List ℕ → List ℕ
erase_it none uids = uids
erase_it (some it) uids = remove_uid it uids

unfoldable pub new_entry : String → ℕ → Option UidTimeStr → UidTimeStr
new_entry time uid none = record { time_str = time; uids = uid ∷ []; its = (uid, uid) ∷ [] }
new_entry time uid (some r) = record {
  time_str = time;
  uids = uid ∷ erase_it (find uid r.its) r.uids;
  its = insert uid uid r.its;
}

unfoldable pub create_node_current : String → String → ℕ → ℕ → NodeManager → NodeManager
create_node_current node time uid current st = record st {
  map_node_id = insert node (new_entry time uid (find node st.map_node_id)) st.map_node_id;
  map_id_node = insert uid (insert_name node (get_or (find uid st.map_id_node) [])) st.map_id_node;
  map_id_current = insert uid current st.map_id_current;
}

-- The node leaves the sets of all these connections.
unfoldable pub leave_all : String → List ℕ → Map ℕ (List String) → Map ℕ (List String)
leave_all node [] m = m
leave_all node (uid ∷ uids) m = leave_all node uids (update uid (erase_name node) m)

unfoldable pub delete_node_current : String → NodeManager → NodeManager
delete_node_current node st = elim (find node st.map_node_id) [
  | none ↦ st
  | some r ↦ record st {
    map_node_id = erase node st.map_node_id;
    map_id_node = leave_all node r.uids st.map_id_node;
  }
]

-- What a search for a connection finds; `thrown` is the exception of `at`.
pub data Found : Type 0 where
  no_node : Found
  no_connection : Found
  connected : ℕ → Found
  thrown : Found

unfoldable pub get_node_current : String → NodeManager → Found
get_node_current node st = elim (find node st.map_node_id) [
  | none ↦ no_node
  | some r ↦ elim r.uids [
    | [] ↦ no_connection
    | uid ∷ uids ↦ elim (find uid st.map_id_current) [ none ↦ thrown | some c ↦ connected c ]
  ]
]

unfoldable pub erase_uid : ℕ → UidTimeStr → UidTimeStr
erase_uid uid r = elim (find uid r.its) [
  | none ↦ r
  | some it ↦ record r { uids = remove_uid it r.uids; its = erase uid r.its }
]

unfoldable pub leave_node : ℕ → String → Map String UidTimeStr → Map String UidTimeStr
leave_node uid node m = elim (find node m) [
  | none ↦ m
  | some r ↦ if is_empty (erase_uid uid r).uids then erase node m else update node (erase_uid uid) m
]

unfoldable pub leave_nodes : ℕ → List String → Map String UidTimeStr → Map String UidTimeStr
leave_nodes uid [] m = m
leave_nodes uid (node ∷ nodes) m = leave_nodes uid nodes (leave_node uid node m)

unfoldable pub erase_node_current : ℕ → NodeManager → NodeManager
erase_node_current uid st = elim (find uid st.map_id_node) [
  | none ↦ st
  | some nodes ↦ record {
    map_node_id = leave_nodes uid nodes st.map_node_id;
    map_id_node = erase uid st.map_id_node;
    map_id_current = erase uid st.map_id_current;
  }
]
