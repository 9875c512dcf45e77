-- ===== src/Registry/Query/Sets.antt =====
-- What the queries by set answer (RegistryServer/DbHandle.cpp, RegistryServer/QueryImp.cpp).
use mathlib.Core.List.{append-nil, append_assoc}
use tars_framework.Base.{
  ◌⊎◌, ℕ, String, ◌≡◌, refl, ◌∙◌, ap, Bool, false, not, ◌&&◌, none, some, List, [], ◌∷◌, ◌++◌,
  arith, if◌then◌else◌, select, map, Bool-cases, inl, inr, Option-cases, string_key, str_eq,
}
use tars_framework.Base.Int.{ℤ, pos, negsuc, eqb_ℤ}
use tars_framework.Base.Map.{Map, find}
use tars_framework.Registry.Cache.{SetServerInfo}
use tars_framework.Registry.Query.{
  Db, Tier, Answer, weighed, push_server, push_servers, found_or_not, find_in_set, dotted_name,
  find_in_division, find_object_by_id4_all, find_object_by_id_in_group_priority,
  find_object_by_id_in_same_set,
}

-- The servers that pass a test, active and inactive ones apart, in order.
abbrev pub servers : (SetServerInfo → Bool) → List SetServerInfo → Tier
servers test infos = record {
  vec_active = map (λ i. i.epf) (select (λ i. test i && i.active) infos);
  vec_inactive = map (λ i. i.epf) (select (λ i. test i && not i.active) infos);
}

abbrev pub join : Tier → Tier → Tier
join t u = record {
  vec_active = t.vec_active ++ u.vec_active;
  vec_inactive = t.vec_inactive ++ u.vec_inactive;
}

push_servers_lem :
    (test : SetServerInfo → Bool) (infos : List SetServerInfo) (t : Tier)
    → push_servers test infos t ≡ join t (servers test infos)
unfolding push_servers push_server
push_servers_lem test [] t = simp append-nil
push_servers_lem test (i ∷ is) t = push_servers_lem test is _ ∙ elim (Bool-cases (test i)) [
  | inl p ↦ elim (Bool-cases i.active) [
    | inl a ↦ rw (p, a) (simp append_assoc)
    | inr a ↦ rw (p, a) (simp append_assoc)
  ]
  | inr p ↦ rw p
]

abbrev pub no_servers : Tier
no_servers = record { vec_active = []; vec_inactive = [] }

push_servers_none :
    (test : SetServerInfo → Bool) (infos : List SetServerInfo)
    → push_servers test infos no_servers ≡ servers test infos
push_servers_none test infos = push_servers_lem test infos no_servers

-- An empty pair of lists is the only one that counts as not found.
found_or_not_empty : (t : Tier) → eqb_ℤ (found_or_not t) (pos 0) ≡ false → t ≡ no_servers
found_or_not_empty t h = ground arith

-- The servers that a query with this group looks for: of a whole area for "*", else of the set id,
-- and where that has none, of the set id with a wildcard.
abbrev pub wanted : String → String → List SetServerInfo → Tier
wanted set_area group infos =
    if str_eq group "*"
    then servers (λ i. str_eq i.set_area set_area) infos
    else (let exact = servers (λ i. str_eq i.set_id (dotted_name set_area group)) infos in
        if eqb_ℤ (found_or_not exact) (pos 0)
        then exact
        else servers (λ i. str_eq i.set_id (dotted_name set_area "*")) infos)

-- For a servant with sets under the name, and empty output lists, the answer holds the wanted
-- servers, and its code is -2 exactly where there are none.
pub find_in_division_lem :
    (db : Db) (id set_name area group : String) (sets : Map String (List SetServerInfo))
    (infos : List SetServerInfo)
    → find id db.set_division ≡ some sets
    → find set_name sets ≡ some infos
    → let t = wanted (dotted_name set_name area) group infos in
      find_in_division db id set_name area group no_servers ≡ weighed db id (found_or_not t) t
unfolding find_in_division find_in_set
find_in_division_lem db id set_name area group sets infos es ei =
    rw (es, find_in_division, ei)
      (elim (Bool-cases (str_eq group "*")) [
        | inl star ↦ rw (star, push_servers_none _ infos)
        | inr plain ↦
            rw (plain, push_servers_none _ infos)
              (elim (Bool-cases (eqb_ℤ (found_or_not exact) (pos 0))) [
                | inl hit ↦ rw hit
                | inr miss ↦
                    let rest : push_servers wild infos exact ≡ servers wild infos =
                      ap (push_servers wild infos) (found_or_not_empty exact miss)
                      ∙ push_servers_none wild infos in
                    rw (miss, rest)
              ])
      ])
  where
    exact : Tier
    exact = servers (λ i. str_eq i.set_id (dotted_name (dotted_name set_name area) group)) infos

    wild : SetServerInfo → Bool
    wild i = str_eq i.set_id (dotted_name (dotted_name set_name area) "*")

group_priority_code :
    (read_byte : List ℕ → ℕ) (db : Db) (id : String) (ip : List ℕ) (a : Answer)
    → find_object_by_id_in_group_priority read_byte db id ip ≡ some a
    → a.ret ≡ pos 0
unfolding find_object_by_id_in_group_priority find_object_by_id4_all
group_priority_code read_byte db id ip a h = ground arith

-- The three codes of the query in the database's caches.
abbrev pub DivisionCode : ℤ → Type 0
DivisionCode ret = (ret ≡ pos 0) ⊎ (ret ≡ negsuc 0) ⊎ (ret ≡ negsuc 1)

found_or_not_code : (t : Tier) → DivisionCode (found_or_not t)
found_or_not_code t = ground arith

find_in_division_code :
    (db : Db) (id set_name area group : String) (t : Tier)
    → DivisionCode (find_in_division db id set_name area group t).ret
unfolding find_in_division find_in_set
find_in_division_code db id set_name area group t = elim (Option-cases (find id db.set_division)) [
  | inl n ↦ rw (n, find_in_division) (inr (inl refl))
  | inr (sets, s) ↦ elim (Option-cases (find set_name sets)) [
    | inl n ↦ rw (s, find_in_division, n) (inr (inl refl))
    | inr (infos, i) ↦
        rw (s, find_in_division, i)
          (codes (push_servers _ infos t) (push_servers _ infos t)
            (push_servers _ infos (push_servers _ infos t)))
  ]
]
  where
    -- The code is that of one of three pairs of lists.
    codes :
        (u v w : Tier)
        → DivisionCode
            (if str_eq group "*"
              then weighed db id (found_or_not u) u
              else (if eqb_ℤ (found_or_not v) (pos 0)
                  then weighed db id (found_or_not v) v
                  else weighed db id (found_or_not w) w)).ret
    codes u v w = elim (Bool-cases (str_eq group "*")) [
      | inl a ↦ rw a (found_or_not_code u)
      | inr a ↦ rw a (elim (Bool-cases (eqb_ℤ (found_or_not v) (pos 0))) [
        | inl b ↦ rw b (found_or_not_code v)
        | inr b ↦ rw b (found_or_not_code w)
      ])
    ]

module _ (read_byte : List ℕ → ℕ) (sepstr : String → List String) (db : Db) (id set_id : String)
    (host : List ℕ) (t : Tier) where
  code_of_parts :
      (parts : List String) (a : Answer)
      → sepstr set_id ≡ parts
      → find_object_by_id_in_same_set read_byte sepstr db id set_id host t ≡ some a
      → (a.ret ≡ pos 0) ⊎ (a.ret ≡ negsuc 0)
  unfolding find_object_by_id_in_same_set
  code_of_parts [] a e h = let h' = rw (e, find_object_by_id_in_same_set) at h in ground arith
  code_of_parts (x ∷ []) a e h = let h' = rw (e, find_object_by_id_in_same_set) at h in ground arith
  code_of_parts (x ∷ y ∷ []) a e h =
      let h' = rw (e, find_object_by_id_in_same_set) at h in ground arith
  code_of_parts (x ∷ y ∷ z ∷ []) a e h =
      let h' = rw (e, find_object_by_id_in_same_set) at h in
      ground
        (arith, group_priority_code read_byte db id host a, find_in_division_code db id x y z t)
  code_of_parts (x ∷ y ∷ z ∷ w ∷ l) a e h =
      let h' = rw (e, find_object_by_id_in_same_set) at h in ground arith

  -- A client that asks by set sees the code 0 or -1, whatever the text of the set and the caches.
  pub same_set_code :
      (a : Answer)
      → find_object_by_id_in_same_set read_byte sepstr db id set_id host t ≡ some a
      → (a.ret ≡ pos 0) ⊎ (a.ret ≡ negsuc 0)
  same_set_code a h = code_of_parts (sepstr set_id) a refl h

  -- Where the name of the set is whole and the servant has no sets, the query is the one by group
  -- priority.
  pub same_set_fallback :
      (set_name area group : String)
      → sepstr set_id ≡ set_name ∷ area ∷ group ∷ []
      → str_eq set_name "*" ≡ false
      → str_eq area "*" ≡ false
      → find id db.set_division ≡ none
      → find_object_by_id_in_same_set read_byte sepstr db id set_id host t
        ≡ find_object_by_id_in_group_priority read_byte db id host
  unfolding find_object_by_id_in_same_set find_in_division
  same_set_fallback set_name area group e e1 e2 n =
      rw (e, find_object_by_id_in_same_set, e1, e2, n, find_in_division)
