-- ===== src/Registry/Groups/Lookup.antt =====
-- Which group the maps of RegistryServer/DbHandle.cpp answer with.
use tars_framework.Base.{
  ℕ, ◌<◌, String, ◌≡◌, refl, ◌∙◌, Bool, false, Option, none, some, List, [], ◌∷◌, arith, ◌||◌,
  str_eq, if◌then◌else◌, string_key, bytes_key, bytes_eq,
}
use tars_framework.Base.Int.{ℤ, negsuc}
use tars_framework.Base.Map.{Map, find, insert, get_or, find-insert, or_else}
use tars_framework.Registry.Ip.{string_ip_to_int, ip2_star_str}
use tars_framework.Registry.Ip.Dotted.{dotted, starred, ReadsBytes, ip_round_trip}
use tars_framework.Registry.Groups.{
  GroupRule, GroupMaps, allow_all, load_rules, load2_group_map, get_group_id, get_group_id_by_name,
}

abbrev pub contains : List ℕ → List (List ℕ) → Bool
contains ip [] = false
contains ip (j ∷ js) = bytes_eq j ip || contains ip js

find-allow_all :
    (group_id : ℤ) (ip : List ℕ) (ips : List (List ℕ)) (m : Map (List ℕ) ℤ)
    → find ip (allow_all group_id ips m) ≡ (if contains ip ips then some group_id else find ip m)
unfolding allow_all
find-allow_all group_id ip [] m = refl
find-allow_all group_id ip (j ∷ js) m =
    find-allow_all group_id ip js (insert j group_id m)
    ∙ rw (find-insert j ip group_id m) (ground arith)

-- The group of the last rule that allows the address.
abbrev pub last_rule : (String → ℤ) → (String → List (List ℕ)) → List ℕ → List GroupRule → Option ℤ
last_rule strto sepstr ip [] = none
last_rule strto sepstr ip (rule ∷ rules) =
    or_else (last_rule strto sepstr ip rules)
      (if contains ip (sepstr rule.allow_ip_rule) then some (strto rule.group_id) else none)

-- The group of the last rule with the name.
abbrev pub last_named : (String → ℤ) → String → List GroupRule → Option ℤ
last_named strto name [] = none
last_named strto name (rule ∷ rules) =
    or_else (last_named strto name rules)
      (if str_eq rule.group_name name then some (strto rule.group_id) else none)

get_group_id_lem :
    (read_byte : List ℕ → ℕ) (m : GroupMaps) (ip star : List ℕ) (uip : ℕ) (x y : Option ℤ)
    → find ip m.group_id_map ≡ x
    → string_ip_to_int read_byte ip ≡ some uip
    → ip2_star_str uip ≡ star
    → find star m.group_id_map ≡ y
    → get_group_id read_byte m ip ≡ some (get_or (or_else x y) (negsuc 0))
unfolding get_group_id
get_group_id_lem read_byte m ip star uip none y ex eu es ey = rw (ex, get_group_id, eu, es, ey)
get_group_id_lem read_byte m ip star uip (some v) y ex eu es ey = rw (ex, get_group_id)

or_else-none : (o : Option ℤ) → or_else o none ≡ o
or_else-none none = refl
or_else-none (some v) = refl

module _ (strto : String → ℤ) (sepstr : String → List (List ℕ)) where
  find-load_rules :
      (ip : List ℕ) (rules : List GroupRule) (m : GroupMaps)
      → find ip (load_rules strto sepstr rules m).group_id_map
        ≡ or_else (last_rule strto sepstr ip rules) (find ip m.group_id_map)
  unfolding load_rules
  find-load_rules ip [] m = refl
  find-load_rules ip (rule ∷ rules) m =
      find-load_rules ip rules _
      ∙ rw (find-allow_all (strto rule.group_id) ip (sepstr rule.allow_ip_rule) m.group_id_map)
          (ground arith)

  find_name-load_rules :
      (name : String) (rules : List GroupRule) (m : GroupMaps)
      → find name (load_rules strto sepstr rules m).group_name_map
        ≡ or_else (last_named strto name rules) (find name m.group_name_map)
  unfolding load_rules
  find_name-load_rules name [] m = refl
  find_name-load_rules name (rule ∷ rules) m =
      find_name-load_rules name rules _
      ∙ rw (find-insert rule.group_name name (strto rule.group_id) m.group_name_map) (ground arith)

  -- After loading, a dotted address of four bytes is in the group of the last rule that allows it,
  -- or else of the last rule that allows its network with a star, or else in group -1; a name that
  -- is not empty has the group of the last rule with that name, or else -1.
  pub get_group_id-load2_group_map :
      (read_byte : List ℕ → ℕ) (rules : List GroupRule) (a b c d : ℕ) (name : String)
      → ReadsBytes read_byte
      → a < 256
      → b < 256
      → c < 256
      → d < 256
      → str_eq name "" ≡ false
      → (get_group_id read_byte (load2_group_map strto sepstr rules) (dotted a b c d)
          ≡ some (
              get_or
                (or_else
                  (last_rule strto sepstr (dotted a b c d) rules)
                  (last_rule strto sepstr (starred a b c) rules))
                (negsuc 0)))
        × (get_group_id_by_name (load2_group_map strto sepstr rules) name
            ≡ get_or (last_named strto name rules) (negsuc 0))
  unfolding load2_group_map get_group_id_by_name find
  get_group_id-load2_group_map read_byte rules a b c d name reads ha hb hc hd h =
      let (uip, read, _, star) = ip_round_trip a b c d ha hb hc hd read_byte reads in
      (
        get_group_id_lem read_byte _ (dotted a b c d) (starred a b c) uip _ _
            (find-load_rules (dotted a b c d) rules _ ∙ or_else-none _) read star
            (find-load_rules (starred a b c) rules _ ∙ or_else-none _),
        rw (h, find_name-load_rules name rules _, or_else-none),
      )
