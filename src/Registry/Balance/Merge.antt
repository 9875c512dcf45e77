-- ===== src/Registry/Balance/Merge.antt =====
-- What `mergeLoadInfo` (RegistryServer/LoadBalanceThread.cpp) guarantees for each servant.
use tars_framework.Base.{
  String, ◌≡◌, refl, ◌≢◌, false, none, List, [], ◌∷◌, map, inl, inr, arith, string_key, Bool-cases,
  Option-cases, All, eq_iff,
}
use tars_framework.Base.Int.{pos, ◌+ℤ◌, ◌<ℤ◌}
use tars_framework.Base.Map.{
  Map, find, insert, update, HasUniqueKeys, find-insert, insert-HasUniqueKeys, update-HasUniqueKeys,
}
use tars_framework.Registry.Balance.{
  LoadBalanceItem, LoadBalanceInfo, Merging, accumulate, merge_item, merge_items, average,
  merge_info, merging,
}

-- No item of the list has this address.
abbrev pub Lacks : String → List LoadBalanceItem → Type 0
Lacks ip [] = Unit
Lacks ip (i ∷ is) = (ip ≢ i.slave_ip) × Lacks ip is

abbrev pub HasDistinctIps : List LoadBalanceItem → Type 0
HasDistinctIps [] = Unit
HasDistinctIps (i ∷ is) = Lacks i.slave_ip is × HasDistinctIps is

-- Each entry of the map stands under its own address and counts at least one record.
abbrev pub IsKeyed : Map String LoadBalanceItem → Type 0
IsKeyed = All λ e. (e.1.slave_ip ≡ e.0) × (pos 0 <ℤ e.1.ave_count)

insert-IsKeyed :
    (i : LoadBalanceItem) (m : Map String LoadBalanceItem)
    → pos 0 <ℤ i.ave_count
    → IsKeyed m
    → IsKeyed (insert i.slave_ip i m)
unfolding insert
insert-IsKeyed i [] c h = ((refl, c), tt)
insert-IsKeyed i ((ip, j) ∷ m) c h = ground (arith, insert-IsKeyed i m c h.1, eq_iff ip i.slave_ip)

update-IsKeyed :
    (i : LoadBalanceItem) (m : Map String LoadBalanceItem)
    → IsKeyed m
    → IsKeyed (update i.slave_ip (accumulate i) m)
unfolding update accumulate ◌+ℤ◌
update-IsKeyed i [] h = tt
update-IsKeyed i ((ip, j) ∷ m) h = ground (arith, update-IsKeyed i m h.1)

pub record IsMerging (s : Merging) : Type 0 where
  pub unique : HasUniqueKeys s.by_ip
  pub keyed : IsKeyed s.by_ip

pub merge_item-IsMerging :
    (i : LoadBalanceItem) (s : Merging) → IsMerging s → IsMerging (merge_item i s).1
unfolding merge_item
merge_item-IsMerging i s h = elim (Option-cases (find i.slave_ip s.by_ip)) [
  | inl e ↦
      rw (e, merge_item)
        (record {
          unique = insert-HasUniqueKeys i.slave_ip _ s.by_ip e h.unique;
          keyed = insert-IsKeyed (record i { ave_count = pos 1 }) s.by_ip (omega arith) h.keyed;
        })
  | inr (old, e) ↦
      rw (e, merge_item)
        (record {
          unique = update-HasUniqueKeys i.slave_ip (accumulate i) s.by_ip h.unique;
          keyed = update-IsKeyed i s.by_ip h.keyed;
        })
]

pub merge_items-IsMerging :
    (is : List LoadBalanceItem) (s : Merging) → IsMerging s → IsMerging (merge_items is s).1
unfolding merge_items
merge_items-IsMerging [] s h = h
merge_items-IsMerging (i ∷ is) s h =
    merge_items-IsMerging is (merge_item i s).1 (merge_item-IsMerging i s h)

pub merging-IsMerging :
    (info : LoadBalanceInfo) → IsMerging (merge_items info.vt_balance_item (merging info)).1
merging-IsMerging info =
    merge_items-IsMerging info.vt_balance_item (merging info) (record { unique = tt; keyed = tt })

-- Distinct keys are distinct addresses.
Lacks-average :
    (ip : String) (m : Map String LoadBalanceItem)
    → IsKeyed m
    → find ip m ≡ none
    → Lacks ip (map average m)
unfolding find average
Lacks-average ip [] k e = tt
Lacks-average ip ((j, i) ∷ m) k e = ground (arith, Lacks-average ip m k.1, eq_iff j ip)

average-HasDistinctIps :
    (m : Map String LoadBalanceItem) → IsKeyed m → HasUniqueKeys m → HasDistinctIps (map average m)
unfolding average
average-HasDistinctIps [] k u = tt
average-HasDistinctIps ((ip, i) ∷ m) k u =
    (rw k.0.0 (Lacks-average ip m k.1 u.0), average-HasDistinctIps m k.1 u.1)

abbrev IsFresh : Map String LoadBalanceItem → List LoadBalanceItem → Type 0
IsFresh m = All λ i. find i.slave_ip m ≡ none

IsFresh-insert :
    (i : LoadBalanceItem) (m : Map String LoadBalanceItem) (is : List LoadBalanceItem)
    → IsFresh (insert i.slave_ip i m) is
    → Lacks i.slave_ip is × IsFresh m is
IsFresh-insert i m [] h = (tt, tt)
IsFresh-insert i m (j ∷ js) h = ground (
  arith,
  IsFresh-insert i m js h.1,
  find-insert i.slave_ip j.slave_ip i m,
  eq_iff i.slave_ip j.slave_ip,
)

merge_item-repeat :
    (i : LoadBalanceItem) (s : Merging)
    → (merge_item i s).1.is_repeat ≡ false
    → find i.slave_ip s.by_ip ≡ none
unfolding merge_item
merge_item-repeat i s h = ground arith

pub merge_item_first :
    (i : LoadBalanceItem) (s : Merging)
    → find i.slave_ip s.by_ip ≡ none
    → let first : LoadBalanceItem = record i { ave_count = pos 1 } in
      merge_item i s ≡ (
        first,
        record s {
          by_ip = insert i.slave_ip first s.by_ip;
          ave_time_sum = s.ave_time_sum +ℤ i.ave_time;
        },
      )
unfolding merge_item
merge_item_first i s e = rw (e, merge_item)

merge_items_sticky :
    (is : List LoadBalanceItem) (s : Merging)
    → (merge_items is s).1.is_repeat ≡ false
    → s.is_repeat ≡ false
unfolding merge_items merge_item
merge_items_sticky [] s h = h
merge_items_sticky (i ∷ is) s h = ground (arith, merge_items_sticky is (merge_item i s).1 h)

-- Where no address came up twice, the list that was walked has distinct ones.
merge_items-IsFresh :
    (is : List LoadBalanceItem) (s : Merging)
    → (merge_items is s).1.is_repeat ≡ false
    → IsFresh s.by_ip (merge_items is s).0 × HasDistinctIps (merge_items is s).0
unfolding merge_items
merge_items-IsFresh [] s h = (tt, tt)
merge_items-IsFresh (i ∷ is) s h =
    let new = merge_item-repeat i s (merge_items_sticky is (merge_item i s).1 h) in
    let rest = merge_items-IsFresh is (merge_item i s).1 h in
    let first : LoadBalanceItem = record i { ave_count = pos 1 } in
    let e = merge_item_first i s new in
    rw e (
      let rest' = rw e at rest in
      let apart = IsFresh-insert first s.by_ip _ rest'.0 in ((new, apart.1), (apart.0, rest'.1)))

-- No address stands twice in the merged list.
pub merge_info-HasDistinctIps :
    (info : LoadBalanceInfo) → HasDistinctIps (merge_info info).vt_balance_item
unfolding merge_info
merge_info-HasDistinctIps info = elim (Bool-cases out.1.is_repeat) [
  | inl e ↦ rw e (average-HasDistinctIps out.1.by_ip ok.keyed ok.unique)
  | inr e ↦ rw e (merge_items-IsFresh info.vt_balance_item (merging info) e).1
]
  where
    out : List LoadBalanceItem × Merging
    out = merge_items info.vt_balance_item (merging info)

    ok : IsMerging out.1
    ok = merging-IsMerging info
