-- ===== src/Admin/Nodes/Calls.antt =====
-- The calls of `NodeManager` (AdminRegistryServer/NodeManager.cpp) that change its tables.
use tars_framework.Base.{ℕ, List, [], ◌∷◌, String, str_eq, string_key, nat_key, if◌then◌else◌}
use tars_framework.Admin.Nodes.{
  NodeManager, remove_uid, create_node_current, delete_node_current, erase_node_current,
}

-- The calls that change the tables.
pub data Call : Type 0 where
  create : String → String → ℕ → ℕ → Call
  delete : String → Call
  erased : ℕ → Call

unfoldable pub perform : Call → NodeManager → NodeManager
perform (create node time u c) st = create_node_current node time u c st
perform (delete node) st = delete_node_current node st
perform (erased u) st = erase_node_current u st

-- What a call makes of the connections of a node.
unfoldable pub effect : String → Call → List ℕ → List ℕ
effect n (create node time u c) uids = if str_eq node n then u ∷ remove_uid u uids else uids
effect n (delete node) uids = if str_eq node n then [] else uids
effect n (erased u) uids = remove_uid u uids
