-- ===== src/Registry/Balance/Weighed.antt =====
-- What `getDynamicWeight` of RegistryServer/LoadBalanceThread.cpp makes of each endpoint of an answer.
use tars_framework.Base.{
  String, ◌≡◌, refl, Bool, true, false, ◌&&◌, not, Option, none, some, List, [], ◌∷◌, map, arith,
  str_eq, string_key, sym, if◌then◌else◌, Bool-cases, Option-cases, inl, inr,
}
use tars_framework.Base.Int.{ℤ, pos, eqb_ℤ, eqb_ℤ→eq}
use tars_framework.Base.Map.{find, or_else, get_or}
use tars_framework.Registry.Endpoint.{
  EndpointF, load_balance_loop, load_balance_static_weight, load_balance_dynamic_weight,
}
use tars_framework.Registry.Balance.{LoadBalanceInfo, LoadCache}
use tars_framework.Registry.Balance.Apply.{
  before_last_dot, find_loads, weigh_if_dynamic, loop_if_dynamic, get_dynamic_weight, is_dynamic,
  first_weight, resolved, address, weigh_endpoint_lem,
}

-- The entry of the servant, else that of its server.
abbrev pub loads_for : LoadCache → String → Option LoadBalanceInfo
loads_for cache servant =
    or_else (find servant cache)
      (elim (before_last_dot servant) [ some name ↦ find name cache | none ↦ none ])

-- The weight on record for an address.
abbrev pub weight_for : Option LoadBalanceInfo → String → Option ℤ
weight_for none host = none
weight_for (some info) host = first_weight info.vt_balance_item host

abbrev pub is_found {ℓ} : {A : Type ℓ} → Option A → Bool
is_found none = false
is_found (some x) = true

abbrev pub is_static : EndpointF → Bool
is_static e = eqb_ℤ e.weight_type load_balance_static_weight

-- What an answer has of an endpoint: its address and groups, and a weight and a type that are its own
-- unless its type is dynamic. Then the weight is the one on record if there is one, and the type is
-- static for a weight on record that is not 0, dynamic still for one of its own that is not 0 if it
-- may stay so, and else the loop.
pub record IsWeighed (may_stay : Bool) (on_record : Option ℤ) (e r : EndpointF) : Type 0 where
  pub same_address : address r ≡ address e
  pub weight : r.weight ≡ (if is_dynamic e then get_or on_record e.weight else e.weight)
  pub weight_type : r.weight_type ≡ (
      if not (is_dynamic e)
      then e.weight_type
      else if eqb_ℤ r.weight (pos 0)
      then load_balance_loop
      else if is_found on_record
      then load_balance_static_weight
      else if may_stay
      then load_balance_dynamic_weight
      else load_balance_loop)

-- A dynamic endpoint may stay so where the switch is on and there are records of the servant.
abbrev pub AreWeighed : Bool → Option LoadBalanceInfo → List EndpointF → List EndpointF → Type 0
AreWeighed is_on loads [] [] = Unit
AreWeighed is_on loads (e ∷ es) (r ∷ rs) =
    IsWeighed (is_on && is_found loads) (weight_for loads e.host) e r × AreWeighed is_on loads es rs
AreWeighed is_on loads _ _ = ⊥

loads_for_lem :
    (cache : LoadCache) (servant : String) → find_loads cache servant ≡ loads_for cache servant
unfolding find_loads
loads_for_lem cache servant = elim (Option-cases (find servant cache)) [
  | inl n ↦
      rw (find_loads, n)
        (elim (Option-cases (before_last_dot servant)) [
          | inl m ↦ rw m refl
          | inr (name, m) ↦ rw m refl
        ])
  | inr (info, n) ↦ rw (find_loads, n) refl
]

other_endpoint :
    (may_stay : Bool) (o : Option ℤ) (e : EndpointF)
    → is_dynamic e ≡ false
    → IsWeighed may_stay o e e
other_endpoint may_stay o e d = record {
  same_address = refl;
  weight = rw d refl;
  weight_type = rw d refl;
}

looped : (e : EndpointF) → is_dynamic e ≡ true → IsWeighed false none e (loop_if_dynamic e)
unfolding loop_if_dynamic
looped e d =
    rw d record { same_address = refl; weight = rw d refl; weight_type = rw d (ground arith) }

resolved-IsWeighed :
    (o : Option ℤ) (e : EndpointF) → is_dynamic e ≡ true → IsWeighed true o e (resolved o e)
resolved-IsWeighed none e d = elim (Bool-cases (eqb_ℤ e.weight (pos 0))) [
  | inl z ↦ rw z record { same_address = refl; weight = rw d refl; weight_type = rw (d, z) refl }
  | inr z ↦ rw z record {
    same_address = refl;
    weight = rw d refl;
    weight_type = rw (d, z) (eqb_ℤ→eq e.weight_type load_balance_dynamic_weight d);
  }
]
resolved-IsWeighed (some w) e d = elim (Bool-cases (eqb_ℤ w (pos 0))) [
  | inl z ↦ rw z record { same_address = refl; weight = rw d refl; weight_type = rw (d, z) refl }
  | inr z ↦ rw z record { same_address = refl; weight = rw d refl; weight_type = rw (d, z) refl }
]

-- With the switch off.
looped-IsWeighed :
    (o : Option ℤ) (e : EndpointF)
    → is_dynamic e ≡ true
    → IsWeighed false o e (loop_if_dynamic (resolved o e))
unfolding loop_if_dynamic
looped-IsWeighed none e d = elim (Bool-cases (eqb_ℤ e.weight (pos 0))) [
  | inl z ↦ rw z record { same_address = refl; weight = rw d refl; weight_type = rw (d, z) refl }
  | inr z ↦
      rw (z, d) record { same_address = refl; weight = rw d refl; weight_type = rw (d, z) refl }
]
looped-IsWeighed (some w) e d = elim (Bool-cases (eqb_ℤ w (pos 0))) [
  | inl z ↦ rw z record { same_address = refl; weight = rw d refl; weight_type = rw (d, z) refl }
  | inr z ↦ rw z record { same_address = refl; weight = rw d refl; weight_type = rw (d, z) refl }
]

endpoint-IsWeighed :
    (info : LoadBalanceInfo) (e : EndpointF)
    → (IsWeighed true
        (first_weight info.vt_balance_item e.host)
        e
        (weigh_if_dynamic info.vt_balance_item e))
      × (IsWeighed false
          (first_weight info.vt_balance_item e.host)
          e
          (loop_if_dynamic (weigh_if_dynamic info.vt_balance_item e)))
unfolding weigh_if_dynamic loop_if_dynamic
endpoint-IsWeighed info e =
    let o = first_weight info.vt_balance_item e.host in
    elim (Bool-cases (is_dynamic e)) [
      | inl d ↦
          rw (d, weigh_endpoint_lem info.vt_balance_item e)
            (resolved-IsWeighed o e d, looped-IsWeighed o e d)
      | inr d ↦ rw (d, d) (other_endpoint true o e d, other_endpoint false o e d)
    ]

no_record : (e : EndpointF) → IsWeighed false none e (loop_if_dynamic e)
unfolding loop_if_dynamic
no_record e = elim (Bool-cases (is_dynamic e)) [
  | inl d ↦ looped e d
  | inr d ↦ rw d (other_endpoint false none e d)
]

no_loads :
    (is_on : Bool) (eps : List EndpointF) → AreWeighed is_on none eps (map loop_if_dynamic eps)
unfolding loop_if_dynamic
no_loads is_on [] = tt
no_loads true (e ∷ eps) = (no_record e, no_loads true eps)
no_loads false (e ∷ eps) = (no_record e, no_loads false eps)

on_loads :
    (info : LoadBalanceInfo) (eps : List EndpointF)
    → AreWeighed true (some info) eps (map (weigh_if_dynamic info.vt_balance_item) eps)
on_loads info [] = tt
on_loads info (e ∷ eps) = ((endpoint-IsWeighed info e).0, on_loads info eps)

off_loads :
    (info : LoadBalanceInfo) (eps : List EndpointF)
    → AreWeighed false
        (some info)
        eps
        (map loop_if_dynamic (map (weigh_if_dynamic info.vt_balance_item) eps))
off_loads info [] = tt
off_loads info (e ∷ eps) = ((endpoint-IsWeighed info e).1, off_loads info eps)

-- What an answer has of each endpoint, in order, for a servant with a name and every switch and cache:
-- the address and the groups of the endpoint; its own weight and type, if its type is not dynamic; and
-- if it is, the weight on record for its address, if there is one, with the static type, or the loop if
-- the weight is 0. Where no weight is on record it keeps its own, and its dynamic type only if the
-- weight is not 0, the switch is on and the cache has the servant or its server; else it gets the
-- loop. With the switch off a weight on record still counts.
pub get_dynamic_weight-AreWeighed :
    (dynamic_switch : ℤ) (cache : LoadCache) (servant : String) (eps : List EndpointF)
    → str_eq servant "" ≡ false
    → AreWeighed
        (not (eqb_ℤ dynamic_switch (pos 0)))
        (loads_for cache servant)
        eps
        (get_dynamic_weight dynamic_switch cache servant eps)
unfolding get_dynamic_weight
get_dynamic_weight-AreWeighed dynamic_switch cache servant eps h =
    rw (sym (loads_for_lem cache servant)) (elim (Option-cases (find_loads cache servant)) [
      | inl n ↦ rw (get_dynamic_weight, h, n) (no_loads (not (eqb_ℤ dynamic_switch (pos 0))) eps)
      | inr (info, n) ↦ elim (Bool-cases (eqb_ℤ dynamic_switch (pos 0))) [
        | inl off ↦ rw (get_dynamic_weight, h, n, off) (off_loads info eps)
        | inr on ↦ rw (get_dynamic_weight, h, n, on) (on_loads info eps)
      ]
    ])
