-- ===== src/Registry/Query/Tiers.antt =====
-- The lists that the group queries narrow down (RegistryServer/DbHandle.cpp).
use tars_framework.Base.{
  ◌≡◌, refl, false, List, [], ◌∷◌, is_empty, if◌then◌else◌, select, Bool-cases, inl, inr, ◌∙◌,
}
use tars_framework.Base.Int.{ℤ, negsuc, eqb_ℤ}
use tars_framework.Registry.Endpoint.{EndpointF}
use tars_framework.Registry.Cache.{ObjectItem, GroupPriorityEntry}
use tars_framework.Registry.Query.{
  GroupUseSelect, use_work_groupid, group_of, in_groups, get_eps_by_group_id, get_eps_by_group_set,
  Tier, in_group, in_group_set, everything, if_none_active, same_group_tier, priority_loop,
  group_priority_tier,
}

-- The first tier with an active endpoint, or the last one.
abbrev pub first_live : List Tier → Tier → Tier
first_live [] last = last
first_live (t ∷ ts) last = if is_empty t.vec_active then first_live ts last else t

-- The priorities whose set of groups holds the client's.
abbrev pub priority_tiers : List GroupPriorityEntry → ObjectItem → ℤ → List Tier
priority_tiers [] item client = []
priority_tiers (p ∷ ps) item client =
    if in_groups client p.set_group_id
    then in_group_set item use_work_groupid p.set_group_id ∷ priority_tiers ps item client
    else priority_tiers ps item client

pub get_eps_by_group_id_lem :
    (eps : List EndpointF) (sel : GroupUseSelect) (group : ℤ)
    → get_eps_by_group_id eps sel group ≡ select (λ e. eqb_ℤ (group_of sel e) group) eps
unfolding get_eps_by_group_id
get_eps_by_group_id_lem [] sel group = refl
get_eps_by_group_id_lem (e ∷ eps) sel group = rw (get_eps_by_group_id_lem eps sel group)

pub get_eps_by_group_set_lem :
    (eps : List EndpointF) (sel : GroupUseSelect) (groups : List ℤ)
    → get_eps_by_group_set eps sel groups ≡ select (λ e. in_groups (group_of sel e) groups) eps
unfolding get_eps_by_group_set
get_eps_by_group_set_lem [] sel groups = refl
get_eps_by_group_set_lem (e ∷ eps) sel groups = rw (get_eps_by_group_set_lem eps sel groups)

-- Past the priorities: endpoints of no group, then all.
abbrev pub last_tiers : ObjectItem → Tier
last_tiers item =
    let t = in_group item use_work_groupid (negsuc 0) in
    if is_empty t.vec_active then everything item else t

priority_loop_lem :
    (ps : List GroupPriorityEntry) (item : ObjectItem) (client : ℤ) (t : Tier)
    → if_none_active
        (if_none_active
          (priority_loop ps item client t)
          (in_group item use_work_groupid (negsuc 0)))
        (everything item)
      ≡ first_live (t ∷ priority_tiers ps item client) (last_tiers item)
unfolding priority_loop
priority_loop_lem [] item client t = elim (Bool-cases (is_empty t.vec_active)) [
  | inl e ↦ rw e
  | inr f ↦ rw (f, f)
]
priority_loop_lem (p ∷ ps) item client t = elim (Bool-cases (is_empty t.vec_active)) [
  | inl e ↦ rw e (elim (Bool-cases (in_groups client p.set_group_id)) [
    | inl hit ↦
        rw hit
          (priority_loop_lem ps item client (in_group_set item use_work_groupid p.set_group_id))
    | inr miss ↦ rw miss (priority_loop_lem ps item client t ∙ rw e)
  ])
  | inr f ↦ rw (f, f, f)
]

-- With priorities an answer comes from the first of these that has an active endpoint: the
-- client's group, each priority whose groups hold it, the endpoints of no group, all endpoints.
pub group_priority_tier_lem :
    (ps : List GroupPriorityEntry) (item : ObjectItem) (client : ℤ)
    → group_priority_tier ps item client
      ≡ first_live
          (in_group item use_work_groupid client ∷ priority_tiers ps item client)
          (last_tiers item)
unfolding group_priority_tier
group_priority_tier_lem ps item client =
    priority_loop_lem ps item client (in_group item use_work_groupid client)

pub same_group_tier_lem :
    (item : ObjectItem) (client : ℤ)
    → same_group_tier item client
      ≡ first_live (in_group item use_work_groupid client ∷ []) (last_tiers item)
unfolding same_group_tier
same_group_tier_lem item client =
    elim (Bool-cases (is_empty (in_group item use_work_groupid client).vec_active)) [
      | inl e ↦ rw e
      | inr f ↦ rw (f, f)
    ]

-- Where any endpoint is active, the tier that is taken has an active one.
first_live_alive :
    (ts : List Tier) (last : Tier)
    → is_empty last.vec_active ≡ false
    → is_empty (first_live ts last).vec_active ≡ false
first_live_alive [] last h = h
first_live_alive (t ∷ ts) last h = elim (Bool-cases (is_empty t.vec_active)) [
  | inl e ↦ rw e (first_live_alive ts last h)
  | inr f ↦ rw f f
]

last_tiers_alive :
    (item : ObjectItem)
    → is_empty item.v_active_endpoints ≡ false
    → is_empty (last_tiers item).vec_active ≡ false
last_tiers_alive item h =
    elim (Bool-cases (is_empty (in_group item use_work_groupid (negsuc 0)).vec_active)) [
      | inl e ↦ rw e h
      | inr f ↦ rw f f
    ]

pub tiers_alive :
    (ts : List Tier) (item : ObjectItem)
    → is_empty item.v_active_endpoints ≡ false
    → is_empty (first_live ts (last_tiers item)).vec_active ≡ false
tiers_alive ts item h = first_live_alive ts (last_tiers item) (last_tiers_alive item h)
