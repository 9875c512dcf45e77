-- ===== src/Property/Hash.antt =====
-- `PropertyHashMap::add` of PropertyServer/PropertyHashMap.h: the properties of a report are merged into the
-- record of its head, each by its policy. `strto`, `tostr` and `sepstr` of TC_Common, the sum of two
-- printed doubles, the table and the format are parameters. Numbers have no bound.
pub mod Numbers
pub mod Orders
use Prim.Native.String.{◌++◌ as ◌+++◌}
use tars_framework.Base.{
  ◌>>=◌, ℕ, zero, suc, ◌+◌, Bool, true, false, ◌||◌, Option, none, some, List, [], ◌∷◌, String,
  str_eq, string_key, if◌then◌else◌, ◌==◌, length, get_elem?,
}
use tars_framework.Base.Int.{ℤ, pos, ◌+ℤ◌, ltb_ℤ}
use tars_framework.Base.Map.{Map, find, insert, update}
use tars_framework.Stat.Hash.{Got, failed, ok, no_data, HashTable}

pub record StatPropInfo : Type 0 where
  pub policy : String
  pub value : String

-- The functions of TC_Common; `add_doubles` prints the sum of two numbers that are printed.
pub record Texts : Type 0 where
  pub strto : String → ℤ
  pub tostr : ℤ → String
  pub sepstr : String → String → List String
  pub add_doubles : String → String → String

pub record Format (Head Bytes : Type 0) : Type 0 where
  pub write_head : Head → String
  pub write_body : List StatPropInfo → Bytes
  pub read_body : Bytes → List StatPropInfo

-- The fields of a distribution, added; none where a field is missing, which the code reads all
-- the same.
unfoldable pub distr_fields : Texts → List String → List String → Option (List String)
distr_fields t [] ins = some []
distr_fields t (f ∷ fields) [] = none
distr_fields t (f ∷ fields) (g ∷ ins) = do
  name ← get_elem? (t.sepstr f "|") 0
  old ← get_elem? (t.sepstr f "|") 1
  new ← get_elem? (t.sepstr g "|") 1
  rest ← distr_fields t fields ins
  some ((name +++ "|" +++ t.tostr (t.strto old +ℤ t.strto new)) ∷ rest)

unfoldable pub join : List String → String
join [] = ""
join (f ∷ []) = f
join (f ∷ g ∷ fields) = f +++ "," +++ join (g ∷ fields)

-- The number of records of an average, 1 in the older form.
unfoldable pub avg_count : Texts → List String → ℤ
avg_count t (_ ∷ count ∷ []) = t.strto count
avg_count t _ = pos 1

unfoldable pub merge_avg : Texts → List String → List String → Option String
merge_avg t old new = do
  a ← get_elem? old 0
  b ← get_elem? new 0
  some (t.add_doubles a b +++ "=" +++ t.tostr (avg_count t new +ℤ avg_count t old))

unfoldable pub merge_value : Texts → String → String → String → Option String
merge_value t policy old new =
    if str_eq policy "Count" || str_eq policy "Sum"
    then some (t.tostr (t.strto old +ℤ t.strto new))
    else if str_eq policy "Min"
    then some (t.tostr (if ltb_ℤ (t.strto old) (t.strto new) then t.strto old else t.strto new))
    else if str_eq policy "Max"
    then some (t.tostr (if ltb_ℤ (t.strto new) (t.strto old) then t.strto old else t.strto new))
    else if str_eq policy "Distr"
    then (do fields ← distr_fields t (t.sepstr old ",") (t.sepstr new ","); some (join fields))
    else if str_eq policy "Avg"
    then merge_avg t (t.sepstr old "=") (t.sepstr new "=")
    else some old

-- The values by their policies; of two with one policy the first stays.
unfoldable pub sums_of : List StatPropInfo → Map String String → Map String String
sums_of [] m = m
sums_of (i ∷ infos) m = elim (find i.policy m) [
  | none ↦ sums_of infos (insert i.policy i.value m)
  | some v ↦ sums_of infos m
]

unfoldable pub merge_prop_info :
    Texts → StatPropInfo → Map String String → Option (Map String String)
merge_prop_info t i m = elim (find i.policy m) [
  | none ↦ some (insert i.policy i.value m)
  | some old ↦ do v ← merge_value t i.policy old i.value; some (update i.policy (λ _. v) m)
]

unfoldable pub merge_infos :
    Texts → List StatPropInfo → Map String String → Option (Map String String)
merge_infos t [] m = some m
merge_infos t (i ∷ infos) m = do n ← merge_prop_info t i m; merge_infos t infos n

unfoldable pub infos_of : Map String String → List StatPropInfo
infos_of [] = []
infos_of ((p, v) ∷ m) = record { policy = p; value = v } ∷ infos_of m

module _ {Head Bytes : Type 0} (T : HashTable Bytes) (F : Format Head Bytes) (t : Texts) where
  -- None where a field is read that is not there.
  unfoldable pub add : Head → List StatPropInfo → T.Store → Option (ℤ × T.Store)
  add head body s = elim (T.get (F.write_head head) s) [
    | failed ↦ some (T.set (F.write_head head) (F.write_body body) s)
    | no_data ↦ some (T.set (F.write_head head) (F.write_body body) s)
    | ok sv ↦ do
      sums ← merge_infos t body (sums_of (F.read_body sv) [])
      some (T.set (F.write_head head) (F.write_body (infos_of sums)) s)
  ]
