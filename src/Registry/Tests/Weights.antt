-- ===== src/Registry/Tests/Weights.antt =====
-- The weights at concrete inputs (RegistryServer/LoadBalanceThread.cpp).
use tars_framework.Base.{ℕ, true, ◌≡◌, refl, String, some, List, [], ◌∷◌, map, All, arith}
use tars_framework.Base.Int.{ℤ, pos}
use tars_framework.Base.Map.{Map, find}
use tars_framework.Registry.Endpoint.{
  EndpointF, timeout_weight_proportion, time_consuming_weight_proportion,
  load_balance_dynamic_weight,
}
use tars_framework.Registry.Balance.{
  LoadBalanceItem, LoadBalanceInfo, LoadCache, merge_info, merge_load_info, sum_by,
}
use tars_framework.Registry.Balance.Totals.{succ_at, timeout_at, merge_info_counts}
use tars_framework.Registry.Balance.Weights.{get_proportion, calculate_weight}
use tars_framework.Registry.Balance.Weighing.{IsMeasured, HasWeights}
use tars_framework.Registry.Balance.Ready.{IsLoaded, update_weights_bounds}
use tars_framework.Registry.Balance.Apply.{get_dynamic_weight}
use tars_framework.Registry.Balance.Weighed.{loads_for, AreWeighed, get_dynamic_weight-AreWeighed}

abbrev item : String → ℤ → ℤ → ℤ → LoadBalanceItem
item ip succ_count timeout_count ave_time = record {
  stat_time = "0930";
  date = "20240101";
  slave_name = "App.Server.Obj";
  slave_ip = ip;
  succ_count = succ_count;
  timeout_count = timeout_count;
  ave_time = ave_time;
  ave_count = pos 0;
  port = pos 0;
  weight = pos 0;
  weight_type = pos 0;
}

-- Two records of one address, and one of another.
abbrev loads : LoadBalanceInfo
loads = record {
  vt_balance_item =
      item "10.0.0.1" (pos 90) (pos 10) (pos 20)
      ∷ item "10.0.0.2" (pos 50) (pos 0) (pos 5)
      ∷ item "10.0.0.1" (pos 30) (pos 30) (pos 40)
      ∷ [];
  ave_time_sum = pos 0;
}

merge_info_counts_example :
    (sum_by (succ_at "10.0.0.1") (merge_info loads).vt_balance_item
      ≡ sum_by (succ_at "10.0.0.1") loads.vt_balance_item)
    × (sum_by (timeout_at "10.0.0.1") (merge_info loads).vt_balance_item
        ≡ sum_by (timeout_at "10.0.0.1") loads.vt_balance_item)
merge_info_counts_example = merge_info_counts loads "10.0.0.1"

measured : (s t a : ℕ) (ip : String) → IsMeasured (item ip (pos s) (pos t) (pos a))
measured s t a ip = record {
  succ_nonneg = omega arith;
  timeout_nonneg = omega arith;
  time_nonneg = omega arith;
}

loads-IsLoaded : IsLoaded loads
loads-IsLoaded = record {
  inhabited = omega arith;
  measured = (
    measured 90 10 20 "10.0.0.1",
    (measured 50 0 5 "10.0.0.2", (measured 30 30 40 "10.0.0.1", tt)),
  );
  unsummed = refl;
}

abbrev proportions : Map String ℤ
proportions = (timeout_weight_proportion, pos 80) ∷ (time_consuming_weight_proportion, pos 20) ∷ []

abbrev cache : LoadCache
cache = ("App.Server.Obj", loads) ∷ []

share_20 : get_proportion proportions time_consuming_weight_proportion ≡ pos 20
unfolding get_proportion find
share_20 = refl

share_80 : get_proportion proportions timeout_weight_proportion ≡ pos 80
unfolding get_proportion find
share_80 = refl

update_weights_bounds_example :
    (out : LoadCache) × (calculate_weight proportions (merge_load_info cache) ≡ some out)
    × (map (λ e. e.0) out ≡ map (λ e. e.0) cache)
    × All (HasWeights 20 80) out
update_weights_bounds_example =
    update_weights_bounds proportions 20 80 cache share_20 share_80 (loads-IsLoaded, tt)

abbrev endpoint : String → EndpointF
endpoint host = record {
  host = host;
  port = pos 10000;
  groupworkid = pos 1;
  grouprealid = pos 1;
  weight = pos 50;
  weight_type = load_balance_dynamic_weight;
}

abbrev endpoints : List EndpointF
endpoints = endpoint "10.0.0.1" ∷ endpoint "10.0.0.9" ∷ []

get_dynamic_weight-AreWeighed_example :
    AreWeighed true
      (loads_for cache "App.Server.Obj")
      endpoints
      (get_dynamic_weight (pos 1) cache "App.Server.Obj" endpoints)
get_dynamic_weight-AreWeighed_example =
    get_dynamic_weight-AreWeighed (pos 1) cache "App.Server.Obj" endpoints refl
