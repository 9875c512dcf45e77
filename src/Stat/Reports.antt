-- ===== src/Stat/Reports.antt =====
-- The reports to StatServer: `StatImp::reportMicMsg`, `addHashMap` and `dump2file` of
-- StatServer/StatImp.cpp, with `getTimeInfo` of StatServer/StatServer.cpp. The printing of times and the
-- hash are parameters. Each call of `addHashMap` is one step, and the interval is not 0.
pub mod Counted
pub mod Heads
pub mod Zeros
use Prim.Native.String
use Prim.Native.String.{◌++◌ as ◌+++◌}
use tars_framework.Base.{
  ℕ, ◌+◌, ◌-◌, ◌*◌, ◌/◌, ◌%◌, Bool, true, false, ◌&&◌, ◌||◌, not, Option, none, some, List, [], ◌∷◌,
  String, str_eq, string_key, if◌then◌else◌, ltb, ◌==◌, get_elem?, modify,
}
use tars_framework.Base.Int.{ℤ, pos, negsuc, ◌-ℤ◌, eqb_ℤ}
use tars_framework.Base.Map.{Map, find}
use tars_framework.Stat.Hash.{StatMicMsgHead, StatMicMsgBody, HashTable, Format, add}
use tars_framework.Stat.Hash.Summary.{is_full}

-- `last_dump_time`, `date` and `flag` are the static variables of `dump2file`; `buffer` has the times of
-- the threads.
pub record StatServer (T : HashTable (List ℕ)) : Type 0 where
  pub virtual_master_ip : Map String String
  pub insert_interval : ℕ
  pub buffer : List (List ℕ)
  pub select_buffer : ℕ
  pub hash_maps : List (List T.Store)
  pub buff_num : ℕ
  pub last_dump_time : ℕ
  pub date : String
  pub flag : String

-- The hash of a text, and a time printed as `%Y%m%d%H%M`.
pub record Outside : Type 0 where
  pub hash : String → ℕ
  pub tm2_str : ℤ → String

-- The text whose hash chooses the table.
unfoldable pub hash_text : StatMicMsgHead → String
hash_text head =
    head.slave_name +++ head.master_name +++ head.interface_name +++ head.master_ip
    +++ head.slave_ip

-- The version that a name has behind its "@".
unfoldable pub split_version : StatMicMsgHead → StatMicMsgHead
split_version head =
    let at_sign = String.find head.master_name "@" in
    if ltb at_sign (String.len head.master_name)
    then record head {
      master_name = String.slice head.master_name 0 at_sign;
      tars_version = String.slice head.master_name (at_sign + 1) (String.len head.master_name);
    }
    else head

unfoldable pub complete_head : Bool → String → Map String String → StatMicMsgHead → StatMicMsgHead
complete_head from_client host virtual_ip head =
    let named =
      split_version (
        if from_client
        then record head { master_ip = host }
        else record head { slave_ip = host }) in
    elim (find named.slave_name virtual_ip) [
      | none ↦ named
      | some ip ↦ record named { master_ip = ip }
    ]

unfoldable pub is_zero : StatMicMsgBody → Bool
is_zero body =
    eqb_ℤ body.count (pos 0) && eqb_ℤ body.exec_count (pos 0) && eqb_ℤ body.timeout_count (pos 0)

module _ (T : HashTable (List ℕ)) (o : Outside) where
  unfoldable pub get_time_info : ℕ → StatServer T → StatServer T
  get_time_info now st =
      let start = now / (st.insert_interval * 60) * st.insert_interval * 60 in
      let time = o.tm2_str (if start % 3600 == 0 then pos start -ℤ pos 60 else pos start) in
      let minute = String.slice time 10 12 in
      record st {
        last_dump_time = start;
        date = String.slice time 0 8;
        flag = String.slice time 8 10 +++ (if str_eq minute "59" then "60" else minute);
      }

  unfoldable pub dump2file : ℕ → StatServer T → StatServer T
  dump2file now st =
      let known = if st.last_dump_time == 0 then get_time_info now st else st in
      if ltb (known.last_dump_time + st.insert_interval * 60) now
      then record (get_time_info now known) {
        select_buffer = if known.select_buffer == 0 then 1 else 0;
      }
      else known

  -- A table, none where there is none of that number.
  unfoldable pub table_at : ℕ → ℕ → StatServer T → Option T.Store
  table_at i j st = elim (get_elem? st.hash_maps i) [
    | none ↦ none
    | some tables ↦ get_elem? tables j
  ]

  unfoldable pub put_table : ℕ → ℕ → T.Store → StatServer T → StatServer T
  put_table i j s st = record st {
    hash_maps = modify st.hash_maps i (λ tables. modify tables j (λ _. s));
  }

  module _ (F : Format) where
    -- The code, -1 where the table is full.
    unfoldable pub add_to_table :
        ℕ → StatMicMsgHead → StatMicMsgBody → StatServer T → ℤ × StatServer T
    add_to_table j head body st = elim (table_at st.select_buffer j st) [
      | none ↦ (negsuc 0, st)
      | some s ↦
          if is_full T s
          then (negsuc 0, st)
          else let r = add T F head body s in (r.0, put_table st.select_buffer j r.1 st)
    ]

    unfoldable pub add_hash_map :
        ℕ → ℕ → StatMicMsgHead → StatMicMsgBody → StatServer T → ℤ × StatServer T
    add_hash_map thread now head body st =
        add_to_table (o.hash (hash_text head) % st.buff_num) head body (
          dump2file now (record st {
            buffer = modify st.buffer st.select_buffer (λ times. modify times thread (λ _. now));
          }))

    -- One report of the loop.
    unfoldable pub report_one :
        ℕ → ℕ → Bool → String → StatMicMsgHead → StatMicMsgBody → StatServer T → ℤ × StatServer T
    report_one thread now from_client host head body st =
        let whole = complete_head from_client host st.virtual_master_ip head in
        if is_zero body then (pos 0, st) else add_hash_map thread now whole body st

    unfoldable pub report_mic_msg :
        ℕ → ℕ → Bool → String → List (StatMicMsgHead × StatMicMsgBody) → StatServer T → StatServer T
    report_mic_msg thread now from_client host [] st = st
    report_mic_msg thread now from_client host ((head, body) ∷ reports) st =
        report_mic_msg thread now from_client host reports
          (report_one thread now from_client host head body st).1
