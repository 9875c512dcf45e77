-- ===== src/Registry/Balance/Ready.antt =====
-- What `mergeLoadInfo` hands to `calculateWeight` (RegistryServer/LoadBalanceThread.cpp).
use tars_framework.Base.{
  ℕ, String, ◌≡◌, refl, ap, ◌∙◌, length-map, ◌≤◌, suc, some, List, [], ◌∷◌, map, arith, string_key,
  length, All, inl, inr, Bool-cases, Option-cases,
}
use tars_framework.Base.Int.{ℤ, pos, negsuc, ◌≤ℤ◌, ◌<ℤ◌, quot, int_laws}
use tars_framework.Base.Map.{
  Map, find, insert, update, length-insert_pos, length-update, length-find_pos,
}
use tars_framework.Registry.Balance.{
  LoadBalanceItem, LoadBalanceInfo, Merging, LoadCache, accumulate, merge_item, merge_items,
  average, merging, merge_info, merge_load_info,
}
use tars_framework.Registry.Balance.Merge.{IsKeyed, merging-IsMerging}
use tars_framework.Registry.Balance.Totals.{ave_time_sum-merge_info}
use tars_framework.Registry.Balance.Weights.{calculate_weight, get_proportion}
use tars_framework.Registry.Balance.Weighing.{
  IsMeasured, IsReady, HasWeights, calculate_weight_bounds,
}
use tars_framework.Registry.Endpoint.{timeout_weight_proportion, time_consuming_weight_proportion}

-- An entry as the database fills it.
pub record IsLoaded (info : LoadBalanceInfo) : Type 0 where
  pub inhabited : 1 ≤ length info.vt_balance_item
  pub measured : All IsMeasured info.vt_balance_item
  pub unsummed : info.ave_time_sum ≡ pos 0

abbrev AllMeasured : Map String LoadBalanceItem → Type 0
AllMeasured = All λ e. IsMeasured e.1

insert-AllMeasured :
    (ip : String) (i : LoadBalanceItem) (m : Map String LoadBalanceItem)
    → IsMeasured i
    → AllMeasured m
    → AllMeasured (insert ip i m)
unfolding insert
insert-AllMeasured ip i [] h a = (h, tt)
insert-AllMeasured ip i ((j, k) ∷ m) h a = ground (arith, insert-AllMeasured ip i m h a.1)

accumulate-IsMeasured :
    (i j : LoadBalanceItem) → IsMeasured i → IsMeasured j → IsMeasured (accumulate i j)
unfolding accumulate
accumulate-IsMeasured i j h k =
    let a = h.succ_nonneg in
    let b = h.timeout_nonneg in
    let c = h.time_nonneg in
    let a' = k.succ_nonneg in
    let b' = k.timeout_nonneg in
    let c' = k.time_nonneg in
    record {
      succ_nonneg = omega int_laws;
      timeout_nonneg = omega int_laws;
      time_nonneg = omega int_laws;
    }

update-AllMeasured :
    (ip : String) (i : LoadBalanceItem) (m : Map String LoadBalanceItem)
    → IsMeasured i
    → AllMeasured m
    → AllMeasured (update ip (accumulate i) m)
unfolding update
update-AllMeasured ip i [] h a = tt
update-AllMeasured ip i ((j, k) ∷ m) h a =
    ground (arith, update-AllMeasured ip i m h a.1, accumulate-IsMeasured i k h a.0)

merge_item-IsMeasured :
    (i : LoadBalanceItem) (s : Merging)
    → IsMeasured i
    → AllMeasured s.by_ip
    → AllMeasured (merge_item i s).1.by_ip × IsMeasured (merge_item i s).0
unfolding merge_item
merge_item-IsMeasured i s h a = elim (Option-cases (find i.slave_ip s.by_ip)) [
  | inl e ↦
      let first : LoadBalanceItem = record i { ave_count = pos 1 } in
      let h' : IsMeasured first = record {
        succ_nonneg = h.succ_nonneg;
        timeout_nonneg = h.timeout_nonneg;
        time_nonneg = h.time_nonneg;
      } in
      rw (e, merge_item) (insert-AllMeasured i.slave_ip first s.by_ip h' a, h')
  | inr (old, e) ↦ rw (e, merge_item) (update-AllMeasured i.slave_ip i s.by_ip h a, h)
]

merge_items-IsMeasured :
    (is : List LoadBalanceItem) (s : Merging)
    → All IsMeasured is
    → AllMeasured s.by_ip
    → AllMeasured (merge_items is s).1.by_ip × All IsMeasured (merge_items is s).0
unfolding merge_items
merge_items-IsMeasured [] s h a = (a, tt)
merge_items-IsMeasured (i ∷ is) s h a =
    let (a', h') = merge_item-IsMeasured i s h.0 a in
    let (a'', hs) = merge_items-IsMeasured is (merge_item i s).1 h.1 a' in (a'', (h', hs))

quot_nonneg : (a b : ℤ) → pos 0 ≤ℤ a → pos 0 <ℤ b → pos 0 ≤ℤ quot a b
unfolding quot
quot_nonneg (pos a) (pos b) h k = omega arith
quot_nonneg (pos a) (negsuc b) h k = absurd (omega arith)
quot_nonneg (negsuc a) b h k = absurd (omega arith)

average-IsMeasured :
    (m : Map String LoadBalanceItem) → IsKeyed m → AllMeasured m → All IsMeasured (map average m)
unfolding average
average-IsMeasured [] k a = tt
average-IsMeasured ((ip, i) ∷ m) k a = (
  record {
    succ_nonneg = a.0.succ_nonneg;
    timeout_nonneg = a.0.timeout_nonneg;
    time_nonneg = quot_nonneg i.ave_time i.ave_count a.0.time_nonneg k.0.1;
  },
  average-IsMeasured m k.1 a.1,
)

length-merge_item : (i : LoadBalanceItem) (s : Merging) → 1 ≤ length (merge_item i s).1.by_ip
unfolding merge_item
length-merge_item i s = elim (Option-cases (find i.slave_ip s.by_ip)) [
  | inl e ↦ rw (e, merge_item) (length-insert_pos i.slave_ip _ s.by_ip)
  | inr (old, e) ↦
      rw (e, merge_item, length-update i.slave_ip (accumulate i) s.by_ip)
        (length-find_pos i.slave_ip old s.by_ip e)
]

length-merge_items :
    (is : List LoadBalanceItem) (s : Merging)
    → 1 ≤ length s.by_ip
    → 1 ≤ length (merge_items is s).1.by_ip
unfolding merge_items
length-merge_items [] s h = h
length-merge_items (i ∷ is) s h = length-merge_items is (merge_item i s).1 (length-merge_item i s)

length-merge_items_fst :
    (is : List LoadBalanceItem) (s : Merging) → length (merge_items is s).0 ≡ length is
unfolding merge_items
length-merge_items_fst [] s = refl
length-merge_items_fst (i ∷ is) s = ap suc (length-merge_items_fst is (merge_item i s).1)

merged_pos :
    (is : List LoadBalanceItem) (s : Merging)
    → 1 ≤ length is
    → 1 ≤ length (merge_items is s).1.by_ip
unfolding merge_items
merged_pos [] s h = absurd (omega arith)
merged_pos (i ∷ is) s h = length-merge_items is (merge_item i s).1 (length-merge_item i s)

-- Merging an entry as loaded gives one that the weights can be calculated of.
pub merge_info-IsReady : (info : LoadBalanceInfo) → IsLoaded info → IsReady (merge_info info)
unfolding merge_info
merge_info-IsReady info l = record {
  inhabited = inhabited;
  measured = measured;
  balanced = ave_time_sum-merge_info info l.unsummed;
}
  where
    out : List LoadBalanceItem × Merging
    out = merge_items info.vt_balance_item (merging info)

    all : AllMeasured out.1.by_ip × All IsMeasured out.0
    all = merge_items-IsMeasured info.vt_balance_item (merging info) l.measured tt

    inhabited : 1 ≤ length (merge_info info).vt_balance_item
    inhabited = elim (Bool-cases out.1.is_repeat) [
      | inl e ↦
          rw (e, length-map average out.1.by_ip)
            (merged_pos info.vt_balance_item (merging info) l.inhabited)
      | inr e ↦ rw (e, length-merge_items_fst info.vt_balance_item (merging info)) l.inhabited
    ]

    measured : All IsMeasured (merge_info info).vt_balance_item
    measured = elim (Bool-cases out.1.is_repeat) [
      | inl e ↦ rw e (average-IsMeasured out.1.by_ip (merging-IsMerging info).keyed all.0)
      | inr e ↦ rw e all.1
    ]

merge_load_info-IsReady :
    (cache : LoadCache)
    → All (λ e. IsLoaded e.1) cache
    → All (λ e. IsReady e.1) (merge_load_info cache)
unfolding merge_load_info
merge_load_info-IsReady [] l = tt
merge_load_info-IsReady ((name, info) ∷ cache) l =
    (merge_info-IsReady info l.0, merge_load_info-IsReady cache l.1)

names-merge_load_info :
    (cache : LoadCache) → map (λ e. e.0) (merge_load_info cache) ≡ map (λ e. e.0) cache
unfolding merge_load_info
names-merge_load_info [] = refl
names-merge_load_info ((name, info) ∷ cache) = ap (λ t. name ∷ t) (names-merge_load_info cache)

-- From entries as loaded, merging and weighing never divide by zero. They keep the servants, and
-- every weight lies between 0 and n * p1 + p2, for the n merged records of its servant and the
-- proportions p1 of time and p2 of timeouts; it is not 0 where p2 is at least 10.
pub update_weights_bounds :
    (proportions : Map String ℤ) (p1 p2 : ℕ) (cache : LoadCache)
    → get_proportion proportions time_consuming_weight_proportion ≡ pos p1
    → get_proportion proportions timeout_weight_proportion ≡ pos p2
    → All (λ e. IsLoaded e.1) cache
    → (out : LoadCache) × (calculate_weight proportions (merge_load_info cache) ≡ some out)
      × (map (λ e. e.0) out ≡ map (λ e. e.0) cache)
      × All (HasWeights p1 p2) out
update_weights_bounds proportions p1 p2 cache time_share rate_share l =
    let (out, e, names, all) =
      calculate_weight_bounds proportions p1 p2 time_share rate_share (merge_load_info cache)
        (merge_load_info-IsReady cache l) in
    (out, e, names ∙ names-merge_load_info cache, all)
