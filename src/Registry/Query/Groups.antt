-- ===== src/Registry/Query/Groups.antt =====
-- What the group and station queries answer (RegistryServer/DbHandle.cpp).
use tars_framework.Base.{
  ℕ, String, ◌≡◌, refl, ◌∙◌, ap, sym, true, false, some, List, [], ◌∷◌, is_empty, map, Bool-cases,
  inl, inr, string_key, All,
}
use tars_framework.Base.Int.{ℤ, pos, negsuc, eqb_ℤ}
use tars_framework.Base.Map.{find}
use tars_framework.Registry.Endpoint.{EndpointF}
use tars_framework.Registry.Cache.{ObjectItem}
use tars_framework.Registry.Groups.{get_group_id}
use tars_framework.Registry.Balance.Apply.{address, address-get_dynamic_weight}
use tars_framework.Registry.Query.{
  use_work_groupid, in_groups, Db, Answer, weigh, answer, in_group, find_object_by_id4_all,
  find_object_by_id_in_same_group, find_object_by_id_in_group_priority,
}
use tars_framework.Registry.Query.Tiers.{
  first_live, priority_tiers, last_tiers, group_priority_tier_lem, same_group_tier_lem, tiers_alive,
}

is_empty-map {ℓ κ} :
    {A : Type ℓ} {B : Type κ} (f : A → B) (xs : List A) → is_empty (map f xs) ≡ is_empty xs
is_empty-map f [] = refl
is_empty-map f (x ∷ xs) = refl

is_empty-weigh :
    (db : Db) (id : String) (eps : List EndpointF) → is_empty (weigh db id eps) ≡ is_empty eps
is_empty-weigh db id eps =
    sym (is_empty-map address (weigh db id eps))
    ∙ (ap is_empty (address-get_dynamic_weight db.dynamic_switch db.load_cache id eps)
        ∙ is_empty-map address eps)

module _ (read_byte : List ℕ → ℕ) (db : Db) (id : String) (ip : List ℕ) where
  -- Of a client in a group and an object in the cache, the query by priority answers with the
  -- first live tier, weighed.
  pub group_priority_answer :
      (client : ℤ) (item : ObjectItem)
      → get_group_id read_byte db.group_maps ip ≡ some client
      → eqb_ℤ client (negsuc 0) ≡ false
      → find id db.objects ≡ some item
      → find_object_by_id_in_group_priority read_byte db id ip
        ≡ some (
            answer db id (
              first_live
                (in_group item use_work_groupid client
                  ∷ priority_tiers db.group_priority item client)
                (last_tiers item)))
  unfolding find_object_by_id_in_group_priority
  group_priority_answer client item eg ec eo = rw (
    eg,
    find_object_by_id_in_group_priority,
    ec,
    eo,
    group_priority_tier_lem db.group_priority item client,
  )

  pub same_group_answer :
      (client : ℤ) (item : ObjectItem)
      → get_group_id read_byte db.group_maps ip ≡ some client
      → eqb_ℤ client (negsuc 0) ≡ false
      → find id db.objects ≡ some item
      → find_object_by_id_in_same_group read_byte db id ip
        ≡ some (
            answer db id
              (first_live (in_group item use_work_groupid client ∷ []) (last_tiers item)))
  unfolding find_object_by_id_in_same_group
  same_group_answer client item eg ec eo =
      rw (eg, find_object_by_id_in_same_group, ec, eo, same_group_tier_lem item client)

  all_answer :
      (item : ObjectItem)
      → find id db.objects ≡ some item
      → find_object_by_id4_all db id ≡ record {
        ret = pos 0;
        active_ep = weigh db id item.v_active_endpoints;
        inactive_ep = item.v_inactive_endpoints;
      }
  unfolding find_object_by_id4_all
  all_answer item eo = rw (eo, find_object_by_id4_all)

  -- A client that is in some group or in none gets an active endpoint whenever the object has one.
  pub group_priority_alive :
      (client : ℤ) (item : ObjectItem)
      → get_group_id read_byte db.group_maps ip ≡ some client
      → find id db.objects ≡ some item
      → is_empty item.v_active_endpoints ≡ false
      → (a : Answer) × (find_object_by_id_in_group_priority read_byte db id ip ≡ some a)
        × (a.ret ≡ pos 0)
        × (is_empty a.active_ep ≡ false)
  group_priority_alive client item eg eo h = elim (Bool-cases (eqb_ℤ client (negsuc 0))) [
    | inl t ↦ (
      find_object_by_id4_all db id,
      unfold find_object_by_id_in_group_priority in rw (eg, find_object_by_id_in_group_priority, t),
      rw (all_answer item eo),
      rw (all_answer item eo) (is_empty-weigh db id item.v_active_endpoints ∙ h),
    )
    | inr f ↦
        let tiers =
          in_group item use_work_groupid client ∷ priority_tiers db.group_priority item client in
        (
          answer db id (first_live tiers (last_tiers item)),
          group_priority_answer client item eg f eo,
          refl,
          is_empty-weigh db id (first_live tiers (last_tiers item)).vec_active
              ∙ tiers_alive tiers item h,
        )
  ]

-- The lists of a successful answer about a station with these groups.
abbrev pub InGroups : List ℤ → Answer → Type 0
InGroups groups a =
    (a.ret ≡ pos 0)
    × All (λ e. in_groups e.grouprealid groups ≡ true) a.active_ep
    × All (λ e. in_groups e.grouprealid groups ≡ true) a.inactive_ep
