-- ===== src/Registry/Cache/Updates.antt =====
-- What a servant's entry is after an update of the caches (RegistryServer/DbHandle.cpp).
use tars_framework.Base.{
  String, ◌≡◌, refl, Bool, true, false, Option, none, some, List, [], ◌∷◌, arith, is_empty,
  if◌then◌else◌, string_key, eq_iff,
}
use tars_framework.Base.Map.{
  Map, find, insert, erase, HasUniqueKeys, or_else, find-insert, find-erase, find-insert_all,
}
use tars_framework.Registry.Cache.{
  ObjectsCache, SetServerInfo, SetDivisionCache, update_objects_cache, merge_divisions,
  update_division_cache,
}

-- A full update replaces the cache. Any other replaces the entries of the servants that were
-- loaded, each whole, and keeps the rest.
pub find-update_objects_cache :
    (cache loaded : ObjectsCache) (update_all : Bool) (servant : String)
    → HasUniqueKeys loaded
    → find servant (update_objects_cache cache loaded update_all) ≡ (
        if update_all
        then find servant loaded
        else or_else (find servant loaded) (find servant cache))
unfolding update_objects_cache
find-update_objects_cache cache loaded true servant u = refl
find-update_objects_cache cache loaded false servant u = find-insert_all servant loaded cache u

-- The entry of a servant after one that was loaded: none where it has no set left.
abbrev pub divided :
    Option (Map String (List SetServerInfo))
    → Option (Map String (List SetServerInfo))
    → Option (Map String (List SetServerInfo))
divided none old = old
divided (some sets) old = if is_empty sets then none else some sets

find-merge_divisions :
    (servant : String) (loaded cache : SetDivisionCache)
    → HasUniqueKeys loaded
    → find servant (merge_divisions loaded cache)
      ≡ divided (find servant loaded) (find servant cache)
unfolding merge_divisions find
find-merge_divisions servant [] cache u = refl
find-merge_divisions servant ((name, sets) ∷ rest) cache u = ground (
  arith,
  find-merge_divisions servant rest (erase name cache) u.1,
  find-merge_divisions servant rest (insert name sets cache) u.1,
  find-erase name servant cache,
  find-insert name servant sets cache,
  eq_iff name servant,
)

-- A full update replaces the sets. Any other replaces the sets of the servants that were loaded,
-- forgets a servant that was loaded with no set, and keeps the rest.
pub find-update_division_cache :
    (cache loaded : SetDivisionCache) (update_all : Bool) (servant : String)
    → HasUniqueKeys loaded
    → find servant (update_division_cache cache loaded update_all) ≡ (
        if update_all
        then find servant loaded
        else divided (find servant loaded) (find servant cache))
unfolding update_division_cache
find-update_division_cache cache loaded true servant u = refl
find-update_division_cache cache loaded false servant u =
    find-merge_divisions servant loaded cache u
