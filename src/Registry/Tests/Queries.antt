-- ===== src/Registry/Tests/Queries.antt =====
-- Caches and queries at concrete inputs (RegistryServer/DbHandle.cpp, QueryImp.cpp).
use tars_framework.Base.{
  ℕ, ◌≡◌, refl, String, string_key, true, false, some, List, [], ◌∷◌, ◌⊎◌, is_empty, if◌then◌else◌,
}
use tars_framework.Base.Int.{ℤ, pos, negsuc}
use tars_framework.Base.Map.{Map, find, HasUniqueKeys}
use tars_framework.Registry.Endpoint.{EndpointF, load_balance_loop}
use tars_framework.Registry.Groups.{get_group_id}
use tars_framework.Registry.Cache.{
  ObjectItem, SetServerInfo, SetDivisionCache, GroupPriorityEntry, update_division_cache,
}
use tars_framework.Registry.Cache.Updates.{divided, find-update_division_cache}
use tars_framework.Registry.Query.{
  Db, Answer, answer, in_group, use_work_groupid, find_object_by_id_in_group_priority,
  find_object_by_id_in_same_set, unweighed,
}
use tars_framework.Registry.Query.Tiers.{first_live, priority_tiers, last_tiers}
use tars_framework.Registry.Query.Groups.{group_priority_answer, group_priority_alive}
use tars_framework.Registry.Query.Sets.{no_servers, same_set_code}

abbrev endpoint : String → ℤ → EndpointF
endpoint host group = record {
  host = host;
  port = pos 10000;
  groupworkid = group;
  grouprealid = group;
  weight = pos 0;
  weight_type = load_balance_loop;
}

-- Endpoints in the groups 2 and 3, and one that is down.
abbrev servers : ObjectItem
servers = record {
  v_active_endpoints = endpoint "10.0.2.1" (pos 2) ∷ endpoint "10.0.3.1" (pos 3) ∷ [];
  v_inactive_endpoints = endpoint "10.0.1.1" (pos 1) ∷ [];
}

abbrev in_set : SetServerInfo
in_set = record {
  set_id = "a.b.1";
  set_area = "a.b";
  active = true;
  epf = endpoint "10.0.2.1" (pos 2);
}

abbrev sets : Map String (List SetServerInfo)
sets = ("a", in_set ∷ []) ∷ []

abbrev station : GroupPriorityEntry
station = record { group_id = "1"; station = "south"; set_group_id = pos 1 ∷ pos 2 ∷ [] }

abbrev client_host : List ℕ
client_host = b'1' ∷ []

abbrev db : Db
db = record {
  objects = ("App.Server.Obj", servers) ∷ [];
  set_division = ("App.Server.Obj", sets) ∷ [];
  group_priority = station ∷ [];
  group_maps = record { group_id_map = (client_host, pos 1) ∷ []; group_name_map = [] };
  dynamic_switch = pos 0;
  load_cache = [];
}

abbrev zero_digits : List ℕ → ℕ
zero_digits cs = 0

known_object : find "App.Server.Obj" db.objects ≡ some servers
unfolding find
known_object = refl

known_client : get_group_id zero_digits db.group_maps client_host ≡ some (pos 1)
unfolding get_group_id find
known_client = refl

group_priority_answer_example :
    find_object_by_id_in_group_priority zero_digits db "App.Server.Obj" client_host
    ≡ some (
        answer db "App.Server.Obj" (
          first_live
            (in_group servers use_work_groupid (pos 1)
              ∷ priority_tiers db.group_priority servers (pos 1))
            (last_tiers servers)))
group_priority_answer_example =
    group_priority_answer zero_digits db "App.Server.Obj" client_host (pos 1) servers known_client
      refl known_object

group_priority_alive_example :
    (a : Answer) × (find_object_by_id_in_group_priority zero_digits db "App.Server.Obj" client_host
      ≡ some a)
    × (a.ret ≡ pos 0)
    × (is_empty a.active_ep ≡ false)
group_priority_alive_example =
    group_priority_alive zero_digits db "App.Server.Obj" client_host (pos 1) servers known_client
      known_object refl

abbrev no_split : String → List String
no_split s = []

malformed :
    find_object_by_id_in_same_set zero_digits no_split db "App.Server.Obj" "a" client_host
      no_servers
    ≡ some (unweighed (negsuc 0) no_servers)
unfolding find_object_by_id_in_same_set
malformed = refl

same_set_code_example : (negsuc 0 ≡ pos 0) ⊎ (negsuc 0 ≡ negsuc 0)
same_set_code_example =
    same_set_code zero_digits no_split db "App.Server.Obj" "a" client_host no_servers
      (unweighed (negsuc 0) no_servers) malformed

abbrev emptied : SetDivisionCache
emptied = ("App.Server.Obj", []) ∷ []

emptied_once : HasUniqueKeys emptied
unfolding find
emptied_once = (refl, tt)

find-update_division_cache_example :
    find "App.Server.Obj" (update_division_cache db.set_division emptied false) ≡ (
      if false
      then find "App.Server.Obj" emptied
      else divided (find "App.Server.Obj" emptied) (find "App.Server.Obj" db.set_division))
find-update_division_cache_example =
    find-update_division_cache db.set_division emptied false "App.Server.Obj" emptied_once
