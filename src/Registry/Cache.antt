-- ===== src/Registry/Cache.antt =====
-- The caches of RegistryServer/DbHandle.cpp and their updates. A cache is what its readers see: the
-- swap of a `TC_ReadersWriterData` publishes the new content at once.
pub mod Updates
use tars_framework.Base.{
  String, Bool, true, false, List, [], ◌∷◌, is_empty, if◌then◌else◌, string_key,
}
use tars_framework.Base.Int.{ℤ}
use tars_framework.Base.Map.{Map, insert, erase, insert_all}
use tars_framework.Registry.Endpoint.{EndpointF}

pub record ObjectItem : Type 0 where
  pub v_active_endpoints : List EndpointF
  pub v_inactive_endpoints : List EndpointF

abbrev pub ObjectsCache : Type 0
ObjectsCache = Map String ObjectItem

pub record SetServerInfo : Type 0 where
  pub set_id : String
  pub set_area : String
  pub active : Bool
  pub epf : EndpointF

-- Of servants, the names of sets, and the servers in them.
abbrev pub SetDivisionCache : Type 0
SetDivisionCache = Map String (Map String (List SetServerInfo))

pub record GroupPriorityEntry : Type 0 where
  pub group_id : String
  pub station : String
  pub set_group_id : List ℤ

unfoldable pub update_objects_cache : ObjectsCache → ObjectsCache → Bool → ObjectsCache
update_objects_cache cache obj_cache update_all =
    if update_all then obj_cache else insert_all obj_cache cache

-- An entry with no set is erased; `erase` of a missing key changes nothing.
unfoldable pub merge_divisions : SetDivisionCache → SetDivisionCache → SetDivisionCache
merge_divisions [] cache = cache
merge_divisions ((servant, sets) ∷ rest) cache =
    merge_divisions rest (if is_empty sets then erase servant cache else insert servant sets cache)

unfoldable pub update_division_cache : SetDivisionCache → SetDivisionCache → Bool → SetDivisionCache
update_division_cache cache set_division_cache update_all =
    if update_all then set_division_cache else merge_divisions set_division_cache cache
