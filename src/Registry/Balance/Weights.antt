-- ===== src/Registry/Balance/Weights.antt =====
-- `calculateWeight` and `getProportion` of RegistryServer/LoadBalanceThread.cpp and .h.
-- `none` is the fault of a division by zero.
use tars_framework.Base.{
  ◌>>=◌, ℕ, String, ◌≡◌, refl, ap, ◌≤◌, ◌+◌, ◌*◌, ◌-◌, ◌/◌, zero, suc, false, Option, none, some,
  List, [], ◌∷◌, arith, if◌then◌else◌, string_key, length,
}
use tars_framework.Base.Int.{
  ℤ, pos, ◌+ℤ◌, ◌-ℤ◌, ◌*ℤ◌, quot, leb_ℤ, eqb_ℤ, +ℤ_pos, -ℤ_pos, *ℤ_pos, quot_pos,
}
use tars_framework.Base.Map.{Map, find, get_or}
use tars_framework.Registry.Endpoint.{
  default_weight, min_weight, weight_percent_unit, timeout_weight_factor, timeout_weight_proportion,
  time_consuming_weight_proportion,
}
use tars_framework.Registry.Balance.{LoadBalanceItem, LoadBalanceInfo, LoadCache}

unfoldable pub checked_div : ℤ → ℤ → Option ℤ
checked_div a b = if eqb_ℤ b (pos 0) then none else some (quot a b)

unfoldable pub get_proportion : Map String ℤ → String → ℤ
get_proportion map_load2_proportion factor = get_or (find factor map_load2_proportion) (pos 0)

-- The share that falls as the item's share of the time rises.
unfoldable pub ave_time_weight : ℕ → ℤ → ℤ → ℤ
ave_time_weight item_size ave_time_sum ave_time =
    let w =
      if eqb_ℤ ave_time_sum (pos 0)
      then pos 0
      else quot (default_weight *ℤ pos item_size *ℤ (ave_time_sum -ℤ ave_time)) ave_time_sum in
    if leb_ℤ w (pos 0) then min_weight else w

unfoldable pub timeout_rate_weight : ℤ → ℤ → Option ℤ
timeout_rate_weight succ_count timeout_count =
    if eqb_ℤ succ_count (pos 0)
    then some (if eqb_ℤ timeout_count (pos 0) then default_weight else min_weight)
    else (do
      lost ← checked_div (timeout_count *ℤ timeout_weight_factor) (succ_count +ℤ timeout_count)
      some (default_weight -ℤ lost))

unfoldable pub item_weight : Map String ℤ → ℕ → ℤ → LoadBalanceItem → Option ℤ
item_weight proportions item_size ave_time_sum i = do
  rate ← timeout_rate_weight i.succ_count i.timeout_count
  some (
      quot
        (ave_time_weight item_size ave_time_sum i.ave_time
          *ℤ get_proportion proportions time_consuming_weight_proportion)
        weight_percent_unit
      +ℤ quot (rate *ℤ get_proportion proportions timeout_weight_proportion) weight_percent_unit)

unfoldable pub weigh_items :
    Map String ℤ → ℕ → ℤ → List LoadBalanceItem → Option (List LoadBalanceItem)
weigh_items proportions item_size ave_time_sum [] = some []
weigh_items proportions item_size ave_time_sum (i ∷ is) = do
  w ← item_weight proportions item_size ave_time_sum i
  rest ← weigh_items proportions item_size ave_time_sum is
  some (record i { weight = w } ∷ rest)

-- The average that is only logged divides by the size of the list.
unfoldable pub weigh_info : Map String ℤ → LoadBalanceInfo → Option LoadBalanceInfo
weigh_info proportions info = do
  ave_time ← checked_div info.ave_time_sum (pos (length info.vt_balance_item))
  items ←
      weigh_items proportions (length info.vt_balance_item) info.ave_time_sum info.vt_balance_item
  some (record info { vt_balance_item = items })

unfoldable pub calculate_weight : Map String ℤ → LoadCache → Option LoadCache
calculate_weight proportions [] = some []
calculate_weight proportions ((name, info) ∷ cache) = do
  weighed ← weigh_info proportions info
  rest ← calculate_weight proportions cache
  some ((name, weighed) ∷ rest)

lost_share : (s t : ℕ) → t * 90 / (s + t) ≤ 90
lost_share s t = grind arith

pub eqb_suc : (n : ℕ) → eqb_ℤ (pos (suc n)) (pos 0) ≡ false
eqb_suc n = ground arith

eqb_sum : (s t : ℕ) → eqb_ℤ (pos (suc s + t)) (pos 0) ≡ false
eqb_sum s t = ground arith

timeout_rate_weight_pos :
    (s t : ℕ) → timeout_rate_weight (pos (suc s)) (pos t) ≡ some (pos (100 - t * 90 / (suc s + t)))
unfolding timeout_rate_weight checked_div
timeout_rate_weight_pos s t =
    rw (*ℤ_pos t 90, +ℤ_pos (suc s) t, quot_pos (t * 90) (suc s + t))
      (rw (eqb_suc s, eqb_sum s t)
        (ap some (-ℤ_pos 100 (t * 90 / (suc s + t)) (omega (arith, lost_share (suc s) t)))))

-- For counts that are not negative the rate weight is defined, and lies between 10 and 100.
pub timeout_rate_weight_bounds :
    (s t : ℕ)
    → (r : ℕ) × (timeout_rate_weight (pos s) (pos t) ≡ some (pos r)) × (10 ≤ r) × (r ≤ 100)
unfolding timeout_rate_weight
timeout_rate_weight_bounds zero zero = (100, refl, omega arith, omega arith)
timeout_rate_weight_bounds zero (suc t) = (10, rw (eqb_suc t), omega arith, omega arith)
timeout_rate_weight_bounds (suc s) t = (
  100 - t * 90 / (suc s + t),
  timeout_rate_weight_pos s t,
  omega (arith, lost_share (suc s) t),
  omega arith,
)

-- The quotient is at most the factor, since the item's time is part of the sum.
time_share : (c sum ave : ℕ) → c * (sum - ave) / sum ≤ c
time_share c sum ave = grind arith

or_min_weight :
    (n v : ℕ)
    → v ≤ 100 * suc n
    → (w : ℕ) × ((if leb_ℤ (pos v) (pos 0) then min_weight else pos v) ≡ pos w)
      × (1 ≤ w)
      × (w ≤ 100 * suc n)
or_min_weight n zero h = (10, refl, omega arith, omega arith)
or_min_weight n (suc v) h = (suc v, ground arith, omega arith, h)

-- With the item's time a part of the sum, the time weight lies between 1 and 100 times the number
-- of items; the sum may be 0.
pub ave_time_weight_bounds :
    (n sum ave : ℕ)
    → ave ≤ sum
    → (w : ℕ) × (ave_time_weight (suc n) (pos sum) (pos ave) ≡ pos w) × (1 ≤ w) × (w ≤ 100 * suc n)
unfolding ave_time_weight
ave_time_weight_bounds n zero ave h = (10, refl, omega arith, omega arith)
ave_time_weight_bounds n (suc sum) ave h =
    rw
      (
        *ℤ_pos 100 (suc n),
        -ℤ_pos (suc sum) ave h,
        *ℤ_pos (100 * suc n) (suc sum - ave),
        quot_pos (100 * suc n * (suc sum - ave)) (suc sum),
        eqb_suc sum,
      )
      (or_min_weight n _ (time_share (100 * suc n) (suc sum) ave))
