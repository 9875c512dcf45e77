-- ===== src/Registry/Balance/Totals.antt =====
-- `mergeLoadInfo` neither loses nor invents a count (RegistryServer/LoadBalanceThread.cpp).
use tars_framework.Base.{
  String, ◌≡◌, refl, ap, ◌∙◌, none, some, List, [], ◌∷◌, map, inl, inr, arith, if◌then◌else◌,
  string_key, Bool-cases, Option-cases, eq_iff, str_eq,
}
use tars_framework.Base.Int.{ℤ, pos, ◌+ℤ◌, int_laws, +ℤ_left_comm, +ℤ_comm}
use tars_framework.Base.Map.{Map, find, insert, update}
use tars_framework.Registry.Balance.{
  LoadBalanceItem, LoadBalanceInfo, Merging, accumulate, merge_item, merge_items, average, sum_by,
  merging, merge_info,
}
use tars_framework.Registry.Balance.Merge.{IsKeyed, IsMerging, merge_item-IsMerging}

-- A quantity that `accumulate` adds up for one address, and that the marks of the loop leave alone.
pub record IsAdditive (g : LoadBalanceItem → ℤ) : Type 0 where
  pub marked : (i : LoadBalanceItem) → g (record i { ave_count = pos 1 }) ≡ g i
  pub averaged : (ip : String) (i : LoadBalanceItem) → g (average (ip, i)) ≡ g i
  pub added : (i j : LoadBalanceItem) → j.slave_ip ≡ i.slave_ip → g (accumulate i j) ≡ g i +ℤ g j

module _ (g : LoadBalanceItem → ℤ) (a : IsAdditive g) where
  sum_map : Map String LoadBalanceItem → ℤ
  sum_map [] = pos 0
  sum_map ((ip, i) ∷ m) = g i +ℤ sum_map m

  sum_map-insert :
      (ip : String) (i : LoadBalanceItem) (m : Map String LoadBalanceItem)
      → find ip m ≡ none
      → sum_map (insert ip i m) ≡ g i +ℤ sum_map m
  unfolding sum_map find insert
  sum_map-insert ip i [] e = refl
  sum_map-insert ip i ((j, k) ∷ m) e =
      ground (arith, sum_map-insert ip i m, +ℤ_left_comm (g i) (g k) (sum_map m))

  sum_map-update :
      (i old : LoadBalanceItem) (m : Map String LoadBalanceItem)
      → IsKeyed m
      → find i.slave_ip m ≡ some old
      → sum_map (update i.slave_ip (accumulate i) m) ≡ g i +ℤ sum_map m
  unfolding sum_map find update
  sum_map-update i old [] k e = cc
  sum_map-update i old ((j, l) ∷ m) k e = elim (Bool-cases (str_eq j i.slave_ip)) [
    | inl t ↦ rw t (rw (a.added i l (k.0.0 ∙ (eq_iff j i.slave_ip).0 t)) (omega int_laws))
    | inr f ↦ rw f (rw (sum_map-update i old m k.1 (rw f at e)) (omega int_laws))
  ]

  sum_by-average : (m : Map String LoadBalanceItem) → sum_by g (map average m) ≡ sum_map m
  unfolding sum_by sum_map
  sum_by-average [] = refl
  sum_by-average ((ip, i) ∷ m) = rw (a.averaged ip i, sum_by-average m)

  sum_map-merge_item :
      (i : LoadBalanceItem) (s : Merging)
      → IsMerging s
      → sum_map (merge_item i s).1.by_ip ≡ g i +ℤ sum_map s.by_ip
  unfolding merge_item
  sum_map-merge_item i s h = elim (Option-cases (find i.slave_ip s.by_ip)) [
    | inl e ↦
        let first : LoadBalanceItem = record i { ave_count = pos 1 } in
        rw (e, merge_item) (sum_map-insert i.slave_ip first s.by_ip e ∙ rw (a.marked i))
    | inr (old, e) ↦ rw (e, merge_item) (sum_map-update i old s.by_ip h.keyed e)
  ]

  sum_map-merge_items :
      (is : List LoadBalanceItem) (s : Merging)
      → IsMerging s
      → sum_map (merge_items is s).1.by_ip ≡ sum_by g is +ℤ sum_map s.by_ip
  unfolding merge_items sum_by
  sum_map-merge_items [] s h = omega int_laws
  sum_map-merge_items (i ∷ is) s h =
      rw
        (
          sum_map-merge_items is (merge_item i s).1 (merge_item-IsMerging i s h),
          sum_map-merge_item i s h,
        )
        (omega int_laws)

  merge_item_keeps : (i : LoadBalanceItem) (s : Merging) → g (merge_item i s).0 ≡ g i
  unfolding merge_item
  merge_item_keeps i s = elim (Option-cases (find i.slave_ip s.by_ip)) [
    | inl e ↦ rw (e, merge_item) (a.marked i)
    | inr (old, e) ↦ rw (e, merge_item)
  ]

  sum_by-merge_items :
      (is : List LoadBalanceItem) (s : Merging) → sum_by g (merge_items is s).0 ≡ sum_by g is
  unfolding merge_items sum_by
  sum_by-merge_items [] s = refl
  sum_by-merge_items (i ∷ is) s =
      rw (sum_by-merge_items is (merge_item i s).1)
        (ap (λ t. t +ℤ sum_by g is) (merge_item_keeps i s))

  -- The merged list has the total of the list that was read.
  sum_by-merge_info :
      (info : LoadBalanceInfo)
      → sum_by g (merge_info info).vt_balance_item ≡ sum_by g info.vt_balance_item
  unfolding merge_info sum_map
  sum_by-merge_info info = elim (Bool-cases out.1.is_repeat) [
    | inl e ↦ rw e (
        sum_by-average out.1.by_ip
        ∙ (sum_map-merge_items info.vt_balance_item (merging info)
              (record { unique = tt; keyed = tt })
            ∙ omega int_laws))
    | inr e ↦ rw e (sum_by-merge_items info.vt_balance_item (merging info))
  ]
    where
      out : List LoadBalanceItem × Merging
      out = merge_items info.vt_balance_item (merging info)

-- The requests that succeeded, or timed out, at one address.
pub succ_at : String → LoadBalanceItem → ℤ
succ_at ip i = if str_eq i.slave_ip ip then i.succ_count else pos 0

pub timeout_at : String → LoadBalanceItem → ℤ
timeout_at ip i = if str_eq i.slave_ip ip then i.timeout_count else pos 0

succ_at-IsAdditive : (ip : String) → IsAdditive (succ_at ip)
unfolding succ_at accumulate average
succ_at-IsAdditive ip = record {
  marked = λ i. refl;
  averaged = λ j i. refl;
  added = λ i j e. rw e (elim (Bool-cases (str_eq i.slave_ip ip)) [
    | inl t ↦ rw t (+ℤ_comm j.succ_count i.succ_count)
    | inr f ↦ rw f (omega int_laws)
  ]);
}

timeout_at-IsAdditive : (ip : String) → IsAdditive (timeout_at ip)
unfolding timeout_at accumulate average
timeout_at-IsAdditive ip = record {
  marked = λ i. refl;
  averaged = λ j i. refl;
  added = λ i j e. rw e (elim (Bool-cases (str_eq i.slave_ip ip)) [
    | inl t ↦ rw t (+ℤ_comm j.timeout_count i.timeout_count)
    | inr f ↦ rw f (omega int_laws)
  ]);
}

-- Merging keeps, for every address, the number of requests that succeeded and the number that
-- timed out.
pub merge_info_counts :
    (info : LoadBalanceInfo) (ip : String)
    → (sum_by (succ_at ip) (merge_info info).vt_balance_item
        ≡ sum_by (succ_at ip) info.vt_balance_item)
      × (sum_by (timeout_at ip) (merge_info info).vt_balance_item
          ≡ sum_by (timeout_at ip) info.vt_balance_item)
merge_info_counts info ip = (
  sum_by-merge_info (succ_at ip) (succ_at-IsAdditive ip) info,
  sum_by-merge_info (timeout_at ip) (timeout_at-IsAdditive ip) info,
)

ave_time_sum-merge_items :
    (is : List LoadBalanceItem) (s : Merging)
    → (merge_items is s).1.ave_time_sum ≡ sum_by (λ i. i.ave_time) is +ℤ s.ave_time_sum
unfolding merge_items sum_by merge_item
ave_time_sum-merge_items [] s = omega int_laws
ave_time_sum-merge_items (i ∷ is) s = rw (ave_time_sum-merge_items is (merge_item i s).1) (
    let step : (merge_item i s).1.ave_time_sum ≡ s.ave_time_sum +ℤ i.ave_time = ground arith in
    rw step (omega int_laws))

ave_time-merge_items :
    (is : List LoadBalanceItem) (s : Merging)
    → sum_by (λ i. i.ave_time) (merge_items is s).0 ≡ sum_by (λ i. i.ave_time) is
unfolding merge_items sum_by merge_item
ave_time-merge_items [] s = refl
ave_time-merge_items (i ∷ is) s =
    rw (ave_time-merge_items is (merge_item i s).1)
      (let same : (merge_item i s).0.ave_time ≡ i.ave_time = ground arith in rw same)

-- For an entry whose sum starts at 0, the sum that the weights divide by is the sum of the average
-- times in the merged list.
pub ave_time_sum-merge_info :
    (info : LoadBalanceInfo)
    → info.ave_time_sum ≡ pos 0
    → (merge_info info).ave_time_sum ≡ sum_by (λ i. i.ave_time) (merge_info info).vt_balance_item
unfolding merge_info
ave_time_sum-merge_info info h =
    elim (Bool-cases (merge_items info.vt_balance_item (merging info)).1.is_repeat) [
      | inl e ↦ rw e
      | inr e ↦
          rw
            (
              e,
              ave_time-merge_items info.vt_balance_item (merging info),
              ave_time_sum-merge_items info.vt_balance_item (merging info),
              h,
            )
            (omega int_laws)
    ]
