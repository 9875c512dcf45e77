-- ===== src/Registry/Balance/Weighing.antt =====
-- `calculateWeight` (RegistryServer/LoadBalanceThread.cpp) over whole lists of records.
use native.Mathlib.Nat.{mul-le-mul_right}
use tars_framework.Base.{
  ℕ, String, ◌≡◌, refl, ◌∙◌, sym, subst, ap, ap₂, ◌≤◌, ◌+◌, ◌*◌, ◌/◌, suc, some, List, [], ◌∷◌, map,
  arith, string_key, length, All,
}
use tars_framework.Base.Int.{ℤ, pos, ◌≤ℤ◌, int_laws, +ℤ_pos, *ℤ_pos, quot_pos, to_pos, ≤ℤ_of_eq}
use tars_framework.Base.Map.{Map}
use tars_framework.Registry.Endpoint.{timeout_weight_proportion, time_consuming_weight_proportion}
use tars_framework.Registry.Balance.{LoadBalanceItem, LoadBalanceInfo, LoadCache, sum_by}
use tars_framework.Registry.Balance.Weights.{
  checked_div, get_proportion, ave_time_weight, timeout_rate_weight, item_weight, weigh_items,
  weigh_info, calculate_weight, eqb_suc, ave_time_weight_bounds, timeout_rate_weight_bounds,
}

-- Neither a count nor the time of the record is negative.
pub record IsMeasured (i : LoadBalanceItem) : Type 0 where
  pub succ_nonneg : pos 0 ≤ℤ i.succ_count
  pub timeout_nonneg : pos 0 ≤ℤ i.timeout_count
  pub time_nonneg : pos 0 ≤ℤ i.ave_time

-- The weight lies between 0 and what the two proportions allow for `n` records; where the
-- proportion of the timeout rate is 10 or more, it is not 0.
pub record IsWeighted (n p1 p2 : ℕ) (i : LoadBalanceItem) : Type 0 where
  pub lower : pos 0 ≤ℤ i.weight
  pub upper : i.weight ≤ℤ pos (n * p1 + p2)
  pub alive : 10 ≤ p2 → pos 1 ≤ℤ i.weight

abbrev pub HasWeights : ℕ → ℕ → String × LoadBalanceInfo → Type 0
HasWeights p1 p2 (name, info) =
    All (IsWeighted (length info.vt_balance_item) p1 p2) info.vt_balance_item

share_upper : (w k p : ℕ) → w ≤ 100 * k → w * p / 100 ≤ k * p
share_upper w k p h = omega (arith, mul-le-mul_right p h)

pos_le : {a b : ℕ} → pos a ≤ℤ pos b → a ≤ b
pos_le h = omega arith

share_lower : (r p : ℕ) → 10 ≤ r → 10 ≤ p → 1 ≤ r * p / 100
share_lower r p h k = omega (arith, mul-le-mul_right p h)

module _ (proportions : Map String ℤ) (p1 p2 : ℕ)
    (time_share : get_proportion proportions time_consuming_weight_proportion ≡ pos p1)
    (rate_share : get_proportion proportions timeout_weight_proportion ≡ pos p2) where
  item_weight_eq :
      (n sum w r : ℕ) (i : LoadBalanceItem)
      → ave_time_weight n (pos sum) i.ave_time ≡ pos w
      → timeout_rate_weight i.succ_count i.timeout_count ≡ some (pos r)
      → item_weight proportions n (pos sum) i ≡ some (pos (w * p1 / 100 + r * p2 / 100))
  unfolding item_weight
  item_weight_eq n sum w r i ew er = rw (
    er,
    ew,
    time_share,
    rate_share,
    *ℤ_pos w p1,
    *ℤ_pos r p2,
    quot_pos (w * p1) 100,
    quot_pos (r * p2) 100,
    +ℤ_pos (w * p1 / 100) (r * p2 / 100),
  )

  item_weight_bounds :
      (n sum : ℕ) (i : LoadBalanceItem)
      → IsMeasured i
      → i.ave_time ≤ℤ pos sum
      → (w : ℕ) × (item_weight proportions (suc n) (pos sum) i ≡ some (pos w))
        × (w ≤ suc n * p1 + p2)
        × (10 ≤ p2 → 1 ≤ w)
  item_weight_bounds n sum i m h =
      let (s, es) = to_pos i.succ_count m.succ_nonneg in
      let (t, et) = to_pos i.timeout_count m.timeout_nonneg in
      let (a, ea) = to_pos i.ave_time m.time_nonneg in
      let (w, ew, w1, w2) = ave_time_weight_bounds n sum a (pos_le (rw ea at h)) in
      let (r, er, r1, r2) = timeout_rate_weight_bounds s t in
      (
        w * p1 / 100 + r * p2 / 100,
        item_weight_eq (suc n) sum w r i (ap (ave_time_weight (suc n) (pos sum)) ea ∙ ew)
            (ap₂ timeout_rate_weight es et ∙ er),
        omega (arith, share_upper w (suc n) p1 w2, share_upper r 1 p2 r2),
        λ k. omega (arith, share_lower r p2 r1 k),
      )

  weigh_items_bounds :
      (n sum : ℕ) (is : List LoadBalanceItem)
      → All IsMeasured is
      → All (λ i. i.ave_time ≤ℤ pos sum) is
      → (out : List LoadBalanceItem) × (weigh_items proportions (suc n) (pos sum) is ≡ some out)
        × (map (λ i. i.slave_ip) out ≡ map (λ i. i.slave_ip) is)
        × All (IsWeighted (suc n) p1 p2) out
  unfolding weigh_items
  weigh_items_bounds n sum [] m h = ([], refl, refl, tt)
  weigh_items_bounds n sum (i ∷ is) m h =
      let (w, ew, w1, w2) = item_weight_bounds n sum i m.0 h.0 in
      let (out, eo, ips, all) = weigh_items_bounds n sum is m.1 h.1 in
      (
        record i { weight = pos w } ∷ out,
        rw (ew, eo),
        ap (λ t. i.slave_ip ∷ t) ips,
        (
          record { lower = omega arith; upper = omega arith; alive = λ k. omega (arith, w2 k) },
          all,
        ),
      )

-- What the weights rely on: some record, no negative count or time, and the sum of the times.
pub record IsReady (info : LoadBalanceInfo) : Type 0 where
  pub inhabited : 1 ≤ length info.vt_balance_item
  pub measured : All IsMeasured info.vt_balance_item
  pub balanced : info.ave_time_sum ≡ sum_by (λ i. i.ave_time) info.vt_balance_item

sum_by_nonneg :
    (is : List LoadBalanceItem) → All IsMeasured is → pos 0 ≤ℤ sum_by (λ i. i.ave_time) is
unfolding sum_by
sum_by_nonneg [] m = omega arith
sum_by_nonneg (i ∷ is) m = let h = m.0.time_nonneg in omega (int_laws, sum_by_nonneg is m.1)

le_sum_by :
    (is : List LoadBalanceItem) (total : ℤ)
    → All IsMeasured is
    → sum_by (λ i. i.ave_time) is ≤ℤ total
    → All (λ i. i.ave_time ≤ℤ total) is
unfolding sum_by
le_sum_by [] total m h = tt
le_sum_by (i ∷ is) total m h =
    let t = m.0.time_nonneg in
    (omega (int_laws, sum_by_nonneg is m.1), le_sum_by is total m.1 (omega int_laws))

same_length :
    (is js : List LoadBalanceItem)
    → map (λ i. i.slave_ip) is ≡ map (λ i. i.slave_ip) js
    → length is ≡ length js
same_length [] [] e = refl
same_length [] (j ∷ js) e = cc
same_length (i ∷ is) [] e = cc
same_length (i ∷ is) (j ∷ js) e = ap suc (same_length is js (ground arith))

module _ (proportions : Map String ℤ) (p1 p2 : ℕ)
    (time_share : get_proportion proportions time_consuming_weight_proportion ≡ pos p1)
    (rate_share : get_proportion proportions timeout_weight_proportion ≡ pos p2) where
  -- The statement, for a list and a sum.
  abbrev Weighs : List LoadBalanceItem → ℤ → Type 0
  Weighs is total =
      (out : List LoadBalanceItem) × (weigh_info proportions
          (record { vt_balance_item = is; ave_time_sum = total })
        ≡ some (record { vt_balance_item = out; ave_time_sum = total }))
      × (map (λ i. i.slave_ip) out ≡ map (λ i. i.slave_ip) is)
      × All (IsWeighted (length is) p1 p2) out

  weigh_list_bounds :
      (is : List LoadBalanceItem) (t : ℕ)
      → 1 ≤ length is
      → All IsMeasured is
      → pos t ≡ sum_by (λ i. i.ave_time) is
      → Weighs is (pos t)
  unfolding weigh_info checked_div
  weigh_list_bounds [] t h m e = absurd (omega arith)
  weigh_list_bounds (i ∷ is) t h m e =
      let fits = le_sum_by (i ∷ is) (pos t) m (≤ℤ_of_eq _ _ e) in
      let (out, eo, ips, all) =
        weigh_items_bounds proportions p1 p2 time_share rate_share (length is) t (i ∷ is) m fits in
      (out, rw (eqb_suc (length is), eo), ips, all)

  -- Calculating the weights of a ready entry never faults; it keeps the addresses, and gives each
  -- record a weight in its bounds.
  pub weigh_info_bounds :
      (info : LoadBalanceInfo)
      → IsReady info
      → (out : List LoadBalanceItem) × (weigh_info proportions info
          ≡ some (record info { vt_balance_item = out }))
        × (map (λ i. i.slave_ip) out ≡ map (λ i. i.slave_ip) info.vt_balance_item)
        × All (IsWeighted (length info.vt_balance_item) p1 p2) out
  weigh_info_bounds info r =
      let (t, et) =
        to_pos info.ave_time_sum (rw r.balanced (sum_by_nonneg info.vt_balance_item r.measured)) in
      subst (Weighs info.vt_balance_item) (sym et)
        (weigh_list_bounds info.vt_balance_item t r.inhabited r.measured (sym et ∙ r.balanced))

  pub calculate_weight_bounds :
      (cache : LoadCache)
      → All (λ e. IsReady e.1) cache
      → (out : LoadCache) × (calculate_weight proportions cache ≡ some out)
        × (map (λ e. e.0) out ≡ map (λ e. e.0) cache)
        × All (HasWeights p1 p2) out
  unfolding calculate_weight
  calculate_weight_bounds [] r = ([], refl, refl, tt)
  calculate_weight_bounds ((name, info) ∷ cache) r =
      let (items, ei, ips, all) = weigh_info_bounds info r.0 in
      let (out, eo, names, rest) = calculate_weight_bounds cache r.1 in
      (
        (name, record info { vt_balance_item = items }) ∷ out,
        rw (ei, eo),
        ap (λ t. name ∷ t) names,
        (rw (same_length items info.vt_balance_item ips) all, rest),
      )
