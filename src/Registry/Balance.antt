-- ===== src/Registry/Balance.antt =====
-- RegistryServer/LoadBalanceThread.h and .cpp: the weights of dynamic load balancing.
-- Logging is left out. `strto` (TC_Common) and the rows of the database are parameters.
pub mod Merge
pub mod Totals
pub mod Weights
pub mod Weighing
pub mod Ready
pub mod Apply
pub mod Weighed
pub mod Batches
use Prim.Native.String.{String}
use tars_framework.Base.{
  ℕ, Bool, true, false, Option, none, some, List, [], ◌∷◌, ◌++◌, map, leb, length, is_empty,
  if◌then◌else◌, string_key,
}
use tars_framework.Base.Int.{ℤ, pos, ◌+ℤ◌, quot}
use tars_framework.Base.Map.{Map, find, insert, update, get_or}

pub record LoadBalanceItem : Type 0 where
  pub stat_time : String
  pub date : String
  pub slave_name : String
  pub slave_ip : String
  pub succ_count : ℤ
  pub timeout_count : ℤ
  pub ave_time : ℤ
  pub ave_count : ℤ
  pub port : ℤ
  pub weight : ℤ
  pub weight_type : ℤ

pub record LoadBalanceInfo : Type 0 where
  pub vt_balance_item : List LoadBalanceItem
  pub ave_time_sum : ℤ

abbrev pub LoadCache : Type 0
LoadCache = Map String LoadBalanceInfo

abbrev pub empty_info : LoadBalanceInfo
empty_info = record { vt_balance_item = []; ave_time_sum = pos 0 }

-- One turn of the loop of `getMonitorDataFromDB`; a missing column reads as "".
unfoldable pub add_row : (String → ℤ) → LoadCache → Map String String → LoadCache
add_row strto cache row =
    insert (column "slave_name")
      (record info { vt_balance_item = info.vt_balance_item ++ item ∷ [] }) cache
  where
    column : String → String
    column name = get_or (find name row) ""

    item : LoadBalanceItem
    item = record {
      stat_time = column "stattime";
      date = column "f_date";
      slave_name = column "slave_name";
      slave_ip = column "slave_ip";
      succ_count = strto (column "succ_count");
      timeout_count = strto (column "timeout_count");
      ave_time = strto (column "ave_time");
      ave_count = pos 0;
      port = pos 0;
      weight = pos 0;
      weight_type = pos 0;
    }

    info : LoadBalanceInfo
    info = get_or (find (column "slave_name") cache) empty_info

unfoldable pub add_rows : (String → ℤ) → LoadCache → List (Map String String) → LoadCache
add_rows strto cache [] = cache
add_rows strto cache (row ∷ rows) = add_rows strto (add_row strto cache row) rows

-- `load` is `_db.loadStatData`; `none` where it does not return LOAD_BALANCE_DB_SUCCESS.
unfoldable pub get_monitor_data_from_db :
    (String → ℤ)
    → (List String → Option (List (Map String String)))
    → List String
    → LoadCache
    → LoadCache
get_monitor_data_from_db strto load vt_server cache = elim (load vt_server) [
  | some rows ↦ add_rows strto cache rows
  | none ↦ cache
]

abbrev pub query_max_size : ℕ
query_max_size = 300

-- The loop of `updateDynamicWeight` over the servants and the query after it.
-- `query` is `getMonitorDataFromDB`.
unfoldable pub query_batches :
    (List String → LoadCache → LoadCache) → List String → List String → LoadCache → LoadCache
query_batches query vt_server [] cache = if is_empty vt_server then cache else query vt_server cache
query_batches query vt_server (servant ∷ rest) cache =
    let next = vt_server ++ servant ∷ [] in
    let full = leb query_max_size (length next) in
    query_batches query (if full then [] else next) rest (if full then query next cache else cache)

-- `iter->second` gains the counts of a further record of the same address.
unfoldable pub accumulate : LoadBalanceItem → LoadBalanceItem → LoadBalanceItem
accumulate load_info old = record old {
  timeout_count = old.timeout_count +ℤ load_info.timeout_count;
  succ_count = old.succ_count +ℤ load_info.succ_count;
  ave_time = old.ave_time +ℤ load_info.ave_time;
  ave_count = old.ave_count +ℤ pos 1;
}

-- The variables of the inner loop of `mergeLoadInfo`.
pub record Merging : Type 0 where
  pub by_ip : Map String LoadBalanceItem
  pub is_repeat : Bool
  pub ave_time_sum : ℤ

-- One turn of that loop: the item as it stands in the list afterwards, and the variables.
unfoldable pub merge_item : LoadBalanceItem → Merging → LoadBalanceItem × Merging
merge_item load_info s = elim (find load_info.slave_ip s.by_ip) [
  | none ↦
      let first : LoadBalanceItem = record load_info { ave_count = pos 1 } in
      (
        first,
        record s {
          by_ip = insert load_info.slave_ip first s.by_ip;
          ave_time_sum = s.ave_time_sum +ℤ load_info.ave_time;
        },
      )
  | some old ↦ (
    load_info,
    record s {
      by_ip = update load_info.slave_ip (accumulate load_info) s.by_ip;
      is_repeat = true;
      ave_time_sum = s.ave_time_sum +ℤ load_info.ave_time;
    },
  )
]

unfoldable pub merge_items : List LoadBalanceItem → Merging → List LoadBalanceItem × Merging
merge_items [] s = ([], s)
merge_items (load_info ∷ rest) s =
    let (item, next) = merge_item load_info s in
    let (items, last) = merge_items rest next in (item ∷ items, last)

unfoldable pub average : String × LoadBalanceItem → LoadBalanceItem
average (ip, item) = record item { ave_time = quot item.ave_time item.ave_count }

unfoldable pub sum_by : (LoadBalanceItem → ℤ) → List LoadBalanceItem → ℤ
sum_by f [] = pos 0
sum_by f (i ∷ is) = f i +ℤ sum_by f is

-- The variables before the inner loop.
abbrev pub merging : LoadBalanceInfo → Merging
merging info = record { by_ip = []; is_repeat = false; ave_time_sum = info.ave_time_sum }

-- The body of the outer loop of `mergeLoadInfo`, for one servant.
unfoldable pub merge_info : LoadBalanceInfo → LoadBalanceInfo
merge_info info =
    let (items, s) = merge_items info.vt_balance_item (merging info) in
    if s.is_repeat
    then record {
      vt_balance_item = map average s.by_ip;
      ave_time_sum = sum_by (λ i. i.ave_time) (map average s.by_ip);
    }
    else record { vt_balance_item = items; ave_time_sum = s.ave_time_sum }

unfoldable pub merge_load_info : LoadCache → LoadCache
merge_load_info = map (λ (name, info). (name, merge_info info))
