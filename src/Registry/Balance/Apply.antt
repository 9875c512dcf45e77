-- ===== src/Registry/Balance/Apply.antt =====
-- Both `getDynamicWeight` of RegistryServer/LoadBalanceThread.cpp: the weights of one answer.
use Prim.Native.Char.{code}
use tars_framework.Base.{
  String, ◌≡◌, refl, ap₂, ◌∙◌, Bool, Option, none, some, List, [], ◌∷◌, map, arith, ◌==◌, str_eq,
  if◌then◌else◌, string_key, inl, inr, Bool-cases, Option-cases,
}
use tars_framework.Base.Int.{ℤ, pos, eqb_ℤ}
use tars_framework.Base.Map.{find}
use tars_framework.Registry.Endpoint.{
  EndpointF, load_balance_loop, load_balance_static_weight, load_balance_dynamic_weight,
}
use tars_framework.Registry.Balance.{LoadBalanceItem, LoadBalanceInfo, LoadCache}

-- The loop over the records, which ends at the first with the endpoint's address.
unfoldable pub take_weight : List LoadBalanceItem → EndpointF → EndpointF
take_weight [] endpoint = endpoint
take_weight (info ∷ rest) endpoint =
    if str_eq info.slave_ip endpoint.host
    then record endpoint { weight_type = load_balance_static_weight; weight = info.weight }
    else take_weight rest endpoint

unfoldable pub weigh_endpoint : List LoadBalanceItem → EndpointF → EndpointF
weigh_endpoint items endpoint =
    let e = take_weight items endpoint in
    if eqb_ℤ e.weight (pos 0) then record e { weight_type = load_balance_loop } else e

-- `servant.substr(0, servant.find_last_of("."))`, if there is a dot.
unfoldable pub before_last_dot : String → Option String
before_last_dot String.[] = none
before_last_dot (String.◌∷◌ c s) = elim (before_last_dot s) [
  | some p ↦ some (String.◌∷◌ c p)
  | none ↦ if code c == b'.' then some String.[] else none
]

-- The entry of the servant, or else that of its server.
unfoldable pub find_loads : LoadCache → String → Option LoadBalanceInfo
find_loads cache servant = elim (find servant cache) [
  | some info ↦ some info
  | none ↦ elim (before_last_dot servant) [ some name ↦ find name cache | none ↦ none ]
]

abbrev pub is_dynamic : EndpointF → Bool
is_dynamic e = eqb_ℤ e.weight_type load_balance_dynamic_weight

unfoldable pub weigh_if_dynamic : List LoadBalanceItem → EndpointF → EndpointF
weigh_if_dynamic items e = if is_dynamic e then weigh_endpoint items e else e

unfoldable pub loop_if_dynamic : EndpointF → EndpointF
loop_if_dynamic e = if is_dynamic e then record e { weight_type = load_balance_loop } else e

unfoldable pub get_dynamic_weight : ℤ → LoadCache → String → List EndpointF → List EndpointF
get_dynamic_weight dynamic_switch load_cache servant vt_endpoints =
    if str_eq servant "" then vt_endpoints else elim (find_loads load_cache servant) [
      | some info ↦
          let weighed = map (weigh_if_dynamic info.vt_balance_item) vt_endpoints in
          if eqb_ℤ dynamic_switch (pos 0) then map loop_if_dynamic weighed else weighed
      | none ↦ map loop_if_dynamic vt_endpoints
    ]

-- The weight of the first record with an address.
abbrev pub first_weight : List LoadBalanceItem → String → Option ℤ
first_weight [] host = none
first_weight (i ∷ is) host = if str_eq i.slave_ip host then some i.weight else first_weight is host

-- What becomes of an endpoint of dynamic type, given the weight found for it.
abbrev pub resolved : Option ℤ → EndpointF → EndpointF
resolved (some w) e =
    if eqb_ℤ w (pos 0)
    then record e { weight_type = load_balance_loop; weight = w }
    else record e { weight_type = load_balance_static_weight; weight = w }
resolved none e = if eqb_ℤ e.weight (pos 0) then record e { weight_type = load_balance_loop } else e

pub weigh_endpoint_lem :
    (items : List LoadBalanceItem) (e : EndpointF)
    → weigh_endpoint items e ≡ resolved (first_weight items e.host) e
unfolding take_weight weigh_endpoint
weigh_endpoint_lem [] e = refl
weigh_endpoint_lem (i ∷ is) e = elim (Bool-cases (str_eq i.slave_ip e.host)) [
  | inl t ↦ rw t
  | inr f ↦ rw f (weigh_endpoint_lem is e)
]

-- Where an endpoint listens and which groups it is in.
abbrev pub address : EndpointF → String × ℤ × ℤ × ℤ
address e = (e.host, e.port, e.groupworkid, e.grouprealid)

address-weigh_if_dynamic :
    (items : List LoadBalanceItem) (eps : List EndpointF)
    → map address (map (weigh_if_dynamic items) eps) ≡ map address eps
address-weigh_if_dynamic items [] = refl
address-weigh_if_dynamic items (e ∷ eps) = ap₂ ◌∷◌ (one e) (address-weigh_if_dynamic items eps)
  where
    one : (e : EndpointF) → address (weigh_if_dynamic items e) ≡ address e
    one e = elim (Bool-cases (is_dynamic e)) [
      | inl d ↦
          unfold weigh_if_dynamic in
          rw (d, weigh_endpoint_lem items e)
            (elim (Option-cases (first_weight items e.host)) [
              | inl n ↦ rw n (ground arith)
              | inr (w, s) ↦ rw s (ground arith)
            ])
      | inr d ↦ unfold weigh_if_dynamic in rw d
    ]

address-loop_if_dynamic :
    (eps : List EndpointF) → map address (map loop_if_dynamic eps) ≡ map address eps
unfolding loop_if_dynamic
address-loop_if_dynamic [] = refl
address-loop_if_dynamic (e ∷ eps) =
    let head : address (loop_if_dynamic e) ≡ address e = ground arith in
    ap₂ ◌∷◌ head (address-loop_if_dynamic eps)

-- Weighing an answer changes weights and their types alone: the addresses and the groups of its
-- endpoints stay, in order.
pub address-get_dynamic_weight :
    (dynamic_switch : ℤ) (load_cache : LoadCache) (servant : String) (eps : List EndpointF)
    → map address (get_dynamic_weight dynamic_switch load_cache servant eps) ≡ map address eps
unfolding get_dynamic_weight
address-get_dynamic_weight dynamic_switch load_cache servant eps =
    elim (Bool-cases (str_eq servant "")) [
      | inl t ↦ rw t
      | inr f ↦ rw f (elim (Option-cases (find_loads load_cache servant)) [
        | inl n ↦ rw (n, get_dynamic_weight) (address-loop_if_dynamic eps)
        | inr (info, s) ↦
            rw (s, get_dynamic_weight)
              (elim (Bool-cases (eqb_ℤ dynamic_switch (pos 0))) [
                | inl off ↦ rw off (
                    address-loop_if_dynamic (map (weigh_if_dynamic info.vt_balance_item) eps)
                    ∙ address-weigh_if_dynamic info.vt_balance_item eps)
                | inr on ↦ rw on (address-weigh_if_dynamic info.vt_balance_item eps)
              ])
      ])
    ]
