-- ===== src/Admin/NodeTests.antt =====
-- `NodeManager` at concrete inputs (AdminRegistryServer/NodeManager.cpp).
use tars_framework.Base.{◌≡◌, List, [], ◌∷◌, string_key}
use tars_framework.Base.Map.{find}
use tars_framework.Admin.Nodes.{NodeManager, get_node_current}
use tars_framework.Admin.Nodes.Valid.{IsValid, uids_at}
use tars_framework.Admin.Nodes.Calls.{Call, create, erased}
use tars_framework.Admin.Nodes.History.{run, history, Answers, node_history}

abbrev empty : NodeManager
empty = record { map_node_id = []; map_id_node = []; map_id_current = [] }

empty-IsValid : IsValid empty
unfolding find uids_at
empty-IsValid = record {
  sound = λ node r e. absurd cc;
  named = λ node u h. absurd cc;
  alive = λ node u h. absurd cc;
}

-- A node comes over two connections, the second of which ends; another node shares it.
abbrev calls : List Call
calls =
    create "10.0.0.1" "12:00" 7 70
    ∷ create "10.0.0.1" "12:01" 8 80
    ∷ create "10.0.0.2" "12:01" 8 80
    ∷ erased 8
    ∷ []

node_history_example :
    IsValid (run calls empty)
    × (uids_at "10.0.0.1" (run calls empty).map_node_id
        ≡ history "10.0.0.1" calls (uids_at "10.0.0.1" empty.map_node_id))
    × Answers
        (history "10.0.0.1" calls (uids_at "10.0.0.1" empty.map_node_id))
        (run calls empty).map_id_current
        (get_node_current "10.0.0.1" (run calls empty))
node_history_example = node_history calls "10.0.0.1" empty empty-IsValid
