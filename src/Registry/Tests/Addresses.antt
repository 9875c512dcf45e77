-- ===== src/Registry/Tests/Addresses.antt =====
-- Addresses and groups at concrete inputs (RegistryServer/DbHandle.cpp).
use tars_framework.Base.{
  ℕ, ◌+◌, ◌-◌, ◌*◌, ◌≡◌, refl, String, some, List, [], ◌∷◌, arith, Bool-cases, ltb, if◌then◌else◌,
  inl, inr, str_eq,
}
use tars_framework.Base.Int.{ℤ, pos, negsuc}
use tars_framework.Base.Map.{get_or, or_else}
use tars_framework.Registry.Ip.{string_ip_to_int, ip2_str, ip2_star_str, show_u8}
use tars_framework.Registry.Ip.Dotted.{ReadsBytes, dotted, starred, ip_round_trip}
use tars_framework.Registry.Groups.{GroupRule, load2_group_map, get_group_id, get_group_id_by_name}
use tars_framework.Registry.Groups.Lookup.{last_rule, last_named, get_group_id-load2_group_map}

-- Decimal digits.
abbrev digits : ℕ → List ℕ → ℕ
digits n [] = n
digits n (c ∷ cs) = digits (n * 10 + (c - b'0')) cs

abbrev read_digits : List ℕ → ℕ
read_digits = digits 0

read_digits-ReadsBytes : ReadsBytes read_digits
unfolding show_u8
read_digits-ReadsBytes n h = elim (Bool-cases (ltb n 10)) [
  | inl e ↦ rw e (omega arith)
  | inr e ↦ rw e (elim (Bool-cases (ltb n 100)) [
    | inl e' ↦ rw e' (omega arith)
    | inr e' ↦ rw e' (omega arith)
  ])
]

ip_round_trip_example :
    (ip : ℕ) × (string_ip_to_int read_digits (dotted 10 0 17 254) ≡ some ip)
    × (ip2_str ip ≡ dotted 10 0 17 254)
    × (ip2_star_str ip ≡ starred 10 0 17)
ip_round_trip_example =
    ip_round_trip 10 0 17 254 (omega arith) (omega arith) (omega arith) (omega arith) read_digits
      read_digits-ReadsBytes

abbrev number : String → ℤ
number s = if str_eq s "7" then pos 7 else pos 3

abbrev addresses : String → List (List ℕ)
addresses s = if str_eq s "one" then dotted 10 0 0 1 ∷ [] else starred 10 0 0 ∷ []

abbrev rules : List GroupRule
rules =
    record { group_id = "3"; allow_ip_rule = "net"; group_name = "office" }
    ∷ record { group_id = "7"; allow_ip_rule = "one"; group_name = "lab" }
    ∷ []

get_group_id-load2_group_map_example :
    (get_group_id read_digits (load2_group_map number addresses rules) (dotted 10 0 0 1)
      ≡ some (
          get_or
            (or_else
              (last_rule number addresses (dotted 10 0 0 1) rules)
              (last_rule number addresses (starred 10 0 0) rules))
            (negsuc 0)))
    × (get_group_id_by_name (load2_group_map number addresses rules) "office"
        ≡ get_or (last_named number "office" rules) (negsuc 0))
get_group_id-load2_group_map_example =
    get_group_id-load2_group_map number addresses read_digits rules 10 0 0 1 "office"
      read_digits-ReadsBytes (omega arith) (omega arith) (omega arith) (omega arith) refl
