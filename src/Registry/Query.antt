-- ===== src/Registry/Query.antt =====
-- The queries of RegistryServer/DbHandle.cpp and RegistryServer/QueryImp.cpp. The texts that they
-- only log are left out; `sepstr` (TC_Common) is a parameter.
pub mod Tiers
pub mod Groups
pub mod Sets
use Prim.Native.String.{◌++◌ as str_append}
use tars_framework.Base.{
  ℕ, String, Bool, true, false, ◌&&◌, ◌||◌, Option, none, some, List, [], ◌∷◌, ◌++◌, str_eq,
  is_empty, if◌then◌else◌, string_key, select,
}
use tars_framework.Base.Int.{ℤ, pos, negsuc, eqb_ℤ}
use tars_framework.Base.Map.{Map, find}
use tars_framework.Registry.Endpoint.{EndpointF}
use tars_framework.Registry.Balance.{LoadCache}
use tars_framework.Registry.Balance.Apply.{get_dynamic_weight}
use tars_framework.Registry.Groups.{GroupMaps, get_group_id}
use tars_framework.Registry.Cache.{
  ObjectItem, ObjectsCache, SetServerInfo, SetDivisionCache, GroupPriorityEntry,
}

-- What the queries read: the caches, and the load cache of the balancer with its switch.
-- The entries of the priority map stand in the order of its keys, 0, 1, ….
pub record Db : Type 0 where
  pub objects : ObjectsCache
  pub set_division : SetDivisionCache
  pub group_priority : List GroupPriorityEntry
  pub group_maps : GroupMaps
  pub dynamic_switch : ℤ
  pub load_cache : LoadCache

-- The result of a call, with its two output lists.
pub record Answer : Type 0 where
  pub ret : ℤ
  pub active_ep : List EndpointF
  pub inactive_ep : List EndpointF

pub data GroupUseSelect : Type 0 where
  use_work_groupid use_real_groupid : GroupUseSelect

-- The group that the selection looks at.
abbrev pub group_of : GroupUseSelect → EndpointF → ℤ
group_of use_work_groupid e = e.groupworkid
group_of use_real_groupid e = e.grouprealid

-- `setGroupID.count(group)`, as a Boolean.
abbrev pub in_groups : ℤ → List ℤ → Bool
in_groups group [] = false
in_groups group (g ∷ gs) = eqb_ℤ g group || in_groups group gs

-- The overload of `getEpsByGroupId` for one group.
unfoldable pub get_eps_by_group_id : List EndpointF → GroupUseSelect → ℤ → List EndpointF
get_eps_by_group_id [] sel group_id = []
get_eps_by_group_id (e ∷ eps) sel group_id =
    let rest = get_eps_by_group_id eps sel group_id in
    if eqb_ℤ (group_of sel e) group_id then e ∷ rest else rest

-- The overload for a set of groups.
unfoldable pub get_eps_by_group_set : List EndpointF → GroupUseSelect → List ℤ → List EndpointF
get_eps_by_group_set [] sel set_group_id = []
get_eps_by_group_set (e ∷ eps) sel set_group_id =
    let rest = get_eps_by_group_set eps sel set_group_id in
    if in_groups (group_of sel e) set_group_id then e ∷ rest else rest

abbrev pub weigh : Db → String → List EndpointF → List EndpointF
weigh db = get_dynamic_weight db.dynamic_switch db.load_cache

unfoldable pub find_object_by_id : Db → String → List EndpointF
find_object_by_id db id = elim (find id db.objects) [
  | some item ↦ weigh db id item.v_active_endpoints
  | none ↦ []
]

unfoldable pub find_object_by_id4_all : Db → String → Answer
find_object_by_id4_all db id = elim (find id db.objects) [
  | some item ↦ record {
    ret = pos 0;
    active_ep = weigh db id item.v_active_endpoints;
    inactive_ep = item.v_inactive_endpoints;
  }
  | none ↦ record { ret = pos 0; active_ep = []; inactive_ep = [] }
]

-- The two lists while a query narrows them down.
pub record Tier : Type 0 where
  pub vec_active : List EndpointF
  pub vec_inactive : List EndpointF

abbrev pub in_group : ObjectItem → GroupUseSelect → ℤ → Tier
in_group item sel group_id = record {
  vec_active = get_eps_by_group_id item.v_active_endpoints sel group_id;
  vec_inactive = get_eps_by_group_id item.v_inactive_endpoints sel group_id;
}

abbrev pub in_group_set : ObjectItem → GroupUseSelect → List ℤ → Tier
in_group_set item sel groups = record {
  vec_active = get_eps_by_group_set item.v_active_endpoints sel groups;
  vec_inactive = get_eps_by_group_set item.v_inactive_endpoints sel groups;
}

abbrev pub everything : ObjectItem → Tier
everything item = record {
  vec_active = item.v_active_endpoints;
  vec_inactive = item.v_inactive_endpoints;
}

-- `if (vecActive.empty()) { ... }`.
abbrev pub if_none_active : Tier → Tier → Tier
if_none_active t next = if is_empty t.vec_active then next else t

abbrev pub answer : Db → String → Tier → Answer
answer db id t = record {
  ret = pos 0;
  active_ep = weigh db id t.vec_active;
  inactive_ep = t.vec_inactive;
}

-- Everything after the client's group is known, for `findObjectByIdInSameGroup`.
unfoldable pub same_group_tier : ObjectItem → ℤ → Tier
same_group_tier item client =
    if_none_active
      (if_none_active (in_group item use_work_groupid client)
        (in_group item use_work_groupid (negsuc 0)))
      (everything item)

-- `none` is the exception of `getGroupId`.
unfoldable pub find_object_by_id_in_same_group : (List ℕ → ℕ) → Db → String → List ℕ → Option Answer
find_object_by_id_in_same_group read_byte db id ip =
    elim (get_group_id read_byte db.group_maps ip) [
      | none ↦ none
      | some client ↦
          if eqb_ℤ client (negsuc 0)
          then some (find_object_by_id4_all db id)
          else some (elim (find id db.objects) [
            | some item ↦ answer db id (same_group_tier item client)
            | none ↦ answer db id (record { vec_active = []; vec_inactive = [] })
          ])
    ]

-- The loop over the priorities, which stops once an active endpoint is found.
unfoldable pub priority_loop : List GroupPriorityEntry → ObjectItem → ℤ → Tier → Tier
priority_loop [] item client t = t
priority_loop (p ∷ ps) item client t =
    let next =
      if in_groups client p.set_group_id
      then in_group_set item use_work_groupid p.set_group_id
      else t in
    let rest = priority_loop ps item client next in if is_empty t.vec_active then rest else t

unfoldable pub group_priority_tier : List GroupPriorityEntry → ObjectItem → ℤ → Tier
group_priority_tier priorities item client =
    if_none_active
      (if_none_active (priority_loop priorities item client (in_group item use_work_groupid client))
        (in_group item use_work_groupid (negsuc 0)))
      (everything item)

unfoldable pub find_object_by_id_in_group_priority :
    (List ℕ → ℕ) → Db → String → List ℕ → Option Answer
find_object_by_id_in_group_priority read_byte db id ip =
    elim (get_group_id read_byte db.group_maps ip) [
      | none ↦ none
      | some client ↦
          if eqb_ℤ client (negsuc 0)
          then some (find_object_by_id4_all db id)
          else some (elim (find id db.objects) [
            | some item ↦ answer db id (group_priority_tier db.group_priority item client)
            | none ↦ record { ret = pos 0; active_ep = []; inactive_ep = [] }
          ])
    ]

-- The first entry of a station.
unfoldable pub find_station : List GroupPriorityEntry → String → Option GroupPriorityEntry
find_station [] name = none
find_station (p ∷ ps) name = if str_eq p.station name then some p else find_station ps name

unfoldable pub find_object_by_id_in_same_station : Db → String → String → Answer
find_object_by_id_in_same_station db id name = elim (find_station db.group_priority name) [
  | none ↦ record { ret = negsuc 0; active_ep = []; inactive_ep = [] }
  | some p ↦ elim (find id db.objects) [
    | none ↦ record { ret = pos 0; active_ep = []; inactive_ep = [] }
    | some item ↦ answer db id (in_group_set item use_real_groupid p.set_group_id)
  ]
]

-- `v.push_back(info.epf)` into the list for its state.
unfoldable pub push_server : SetServerInfo → Tier → Tier
push_server info t =
    if info.active
    then record t { vec_active = t.vec_active ++ info.epf ∷ [] }
    else record t { vec_inactive = t.vec_inactive ++ info.epf ∷ [] }

-- The servers that pass a test, pushed in order.
unfoldable pub push_servers : (SetServerInfo → Bool) → List SetServerInfo → Tier → Tier
push_servers test [] t = t
push_servers test (info ∷ rest) t =
    push_servers test rest (if test info then push_server info t else t)

-- `(vecActive.empty() && vecInactive.empty()) ? -2 : 0`.
abbrev pub found_or_not : Tier → ℤ
found_or_not t = if is_empty t.vec_active && is_empty t.vec_inactive then negsuc 1 else pos 0

-- The overload for one set id, which returns its code beside the lists.
unfoldable pub find_in_set : String → List SetServerInfo → Tier → ℤ × Tier
find_in_set set_id infos t =
    let t' = push_servers (λ info. str_eq info.set_id set_id) infos t in (found_or_not t', t')

abbrev pub dotted_name : String → String → String
dotted_name a b = str_append a (str_append "." b)

abbrev pub weighed : Db → String → ℤ → Tier → Answer
weighed db id ret t = record {
  ret = ret;
  active_ep = weigh db id t.vec_active;
  inactive_ep = t.vec_inactive;
}

abbrev pub unweighed : ℤ → Tier → Answer
unweighed ret t = record { ret = ret; active_ep = t.vec_active; inactive_ep = t.vec_inactive }

-- `t` holds the output lists as the caller passes them.
unfoldable pub find_in_division : Db → String → String → String → String → Tier → Answer
find_in_division db id set_name area group t = elim (find id db.set_division) [
  | none ↦ unweighed (negsuc 0) t
  | some sets ↦ elim (find set_name sets) [
    | none ↦ unweighed (negsuc 0) t
    | some infos ↦
        if str_eq group "*"
        then (let t' = push_servers (λ info. str_eq info.set_area set_area) infos t in
            weighed db id (found_or_not t') t')
        else (let (ret, t') = find_in_set (dotted_name set_area group) infos t in
            if eqb_ℤ ret (pos 0)
            then weighed db id ret t'
            else (let (ret', t'') = find_in_set (dotted_name set_area "*") infos t' in
                weighed db id ret' t''))
  ]
]
  where
    set_area : String
    set_area = dotted_name set_name area

-- `QueryImp::findObjectByIdInSameSet`; the output lists come in as the caller passes them.
unfoldable pub find_object_by_id_in_same_set :
    (List ℕ → ℕ) → (String → List String) → Db → String → String → List ℕ → Tier → Option Answer
find_object_by_id_in_same_set read_byte sepstr db id set_id host t = elim (sepstr set_id) [
  | set_name ∷ area ∷ group ∷ [] ↦
      if str_eq set_name "*" || str_eq area "*"
      then some (unweighed (negsuc 0) t)
      else (let a = find_in_division db id set_name area group t in
          if eqb_ℤ a.ret (negsuc 0)
          then find_object_by_id_in_group_priority read_byte db id host
          else if eqb_ℤ a.ret (negsuc 1) || eqb_ℤ a.ret (negsuc 2)
          then some (record a { ret = negsuc 0 })
          else some a)
  | _ ↦ some (unweighed (negsuc 0) t)
]
