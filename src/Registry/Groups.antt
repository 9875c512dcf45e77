-- ===== src/Registry/Groups.antt =====
-- Which group an address or a group's name belongs to: `getGroupId`, `getGroupIdByName` and
-- `load2GroupMap` of RegistryServer/DbHandle.cpp. `strto` and `sepstr` (TC_Common) are parameters.
pub mod Lookup
use tars_framework.Base.{
  ℕ, String, Bool, Option, none, some, List, [], ◌∷◌, str_eq, if◌then◌else◌, string_key, bytes_key,
}
use tars_framework.Base.Int.{ℤ, negsuc}
use tars_framework.Base.Map.{Map, find, insert, get_or}
use tars_framework.Registry.Ip.{string_ip_to_int, ip2_star_str}

-- The columns that the query of `t_server_group_rule` selects.
pub record GroupRule : Type 0 where
  pub group_id : String
  pub allow_ip_rule : String
  pub group_name : String

pub record GroupMaps : Type 0 where
  pub group_id_map : Map (List ℕ) ℤ
  pub group_name_map : Map String ℤ

-- `for (j ...) groupIdMap[vIp[j]] = groupId`.
unfoldable pub allow_all : ℤ → List (List ℕ) → Map (List ℕ) ℤ → Map (List ℕ) ℤ
allow_all group_id [] m = m
allow_all group_id (ip ∷ ips) m = allow_all group_id ips (insert ip group_id m)

unfoldable pub load_rules :
    (String → ℤ) → (String → List (List ℕ)) → List GroupRule → GroupMaps → GroupMaps
load_rules strto sepstr [] m = m
load_rules strto sepstr (rule ∷ rules) m = load_rules strto sepstr rules (record {
  group_id_map = allow_all (strto rule.group_id) (sepstr rule.allow_ip_rule) m.group_id_map;
  group_name_map = insert rule.group_name (strto rule.group_id) m.group_name_map;
})

-- Both maps are filled anew and published together.
unfoldable pub load2_group_map :
    (String → ℤ) → (String → List (List ℕ)) → List GroupRule → GroupMaps
load2_group_map strto sepstr rules =
    load_rules strto sepstr rules (record { group_id_map = []; group_name_map = [] })

-- `none` is the exception of `stringIpToInt`.
unfoldable pub get_group_id : (List ℕ → ℕ) → GroupMaps → List ℕ → Option ℤ
get_group_id strto m ip = elim (find ip m.group_id_map) [
  | some group_id ↦ some group_id
  | none ↦ elim (string_ip_to_int strto ip) [
    | none ↦ none
    | some uip ↦ some (get_or (find (ip2_star_str uip) m.group_id_map) (negsuc 0))
  ]
]

unfoldable pub get_group_id_by_name : GroupMaps → String → ℤ
get_group_id_by_name m group_name =
    if str_eq group_name "" then negsuc 0 else get_or (find group_name m.group_name_map) (negsuc 0)
