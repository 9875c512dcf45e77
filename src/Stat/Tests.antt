-- ===== src/Stat/Tests.antt =====
-- The tables of StatServer at concrete inputs: a table is a map of byte strings, whose room is ten
-- records, and numbers are written with their signs.
use Prim.Native.String
use mathlib.Core.List.{Permᴰ}
use tars_framework.Base.{ℕ, zero, suc, ◌≡◌, refl, ap, ◌∙◌, true, List, [], ◌∷◌, string_key}
use tars_framework.Base.Int.{ℤ, pos, negsuc, ◌+ℤ◌}
use tars_framework.Base.Map.{Map, find, insert}
use tars_framework.Stat.Hash.{
  StatMicMsgHead, StatMicMsgBody, empty_body, Format, add, merge_body, add_intervals, larger,
  smaller_nonzero,
}
use tars_framework.Stat.Hash.Summary.{is_full, Reads, told}
use tars_framework.Stat.Hash.Orders.{add_all, AreStored, merge_all, told_any_order}
use tars_framework.Stat.Hash.InMap.{table, table-Keeps}
use tars_framework.Stat.Reports.{StatServer, Outside, report_mic_msg}
use tars_framework.Stat.Reports.Counted.{total, gains, calls, report_mic_msg_counted}

abbrev write_int : ℤ → List ℕ → List ℕ
write_int (pos n) rest = 0 ∷ n ∷ rest
write_int (negsuc n) rest = 1 ∷ n ∷ rest

abbrev write_ints : List ℤ → List ℕ
write_ints [] = []
write_ints (a ∷ rest) = write_int a (write_ints rest)

abbrev read_ints : List ℕ → List ℤ
read_ints (zero ∷ n ∷ rest) = pos n ∷ read_ints rest
read_ints (suc _ ∷ n ∷ rest) = negsuc n ∷ read_ints rest
read_ints _ = []

read_write_ints : (ints : List ℤ) → read_ints (write_ints ints) ≡ ints
read_write_ints [] = refl
read_write_ints (pos n ∷ rest) = ap (λ t. pos n ∷ t) (read_write_ints rest)
read_write_ints (negsuc n ∷ rest) = ap (λ t. negsuc n ∷ t) (read_write_ints rest)

abbrev flat : Map ℤ ℤ → List ℤ
flat [] = []
flat ((k, n) ∷ m) = k ∷ n ∷ flat m

abbrev pairs : List ℤ → Map ℤ ℤ
pairs (k ∷ n ∷ rest) = (k, n) ∷ pairs rest
pairs _ = []

pairs-flat : (m : Map ℤ ℤ) → pairs (flat m) ≡ m
pairs-flat [] = refl
pairs-flat ((k, n) ∷ m) = ap (λ t. (k, n) ∷ t) (pairs-flat m)

abbrev ints_of : StatMicMsgBody → List ℤ
ints_of b =
    b.count
    ∷ b.timeout_count
    ∷ b.exec_count
    ∷ b.total_rsp_time
    ∷ b.max_rsp_time
    ∷ b.min_rsp_time
    ∷ flat b.interval_count

abbrev of_ints : List ℤ → StatMicMsgBody
of_ints (a ∷ b ∷ c ∷ d ∷ e ∷ f ∷ rest) = record {
  count = a;
  timeout_count = b;
  exec_count = c;
  interval_count = pairs rest;
  total_rsp_time = d;
  max_rsp_time = e;
  min_rsp_time = f;
}
of_ints _ = empty_body

abbrev format : Format
format = record {
  write_head = λ h. h.slave_name;
  write_body = λ b. write_ints (ints_of b);
  read_body = λ bs. of_ints (read_ints bs);
}

format-Reads : Reads format
format-Reads = record {
  read-write = λ b.
      ap of_ints (read_write_ints (ints_of b))
      ∙ ap (λ m. record b { interval_count = m }) (pairs-flat b.interval_count);
}

abbrev head : StatMicMsgHead
head = record {
  master_name = "App.Client@1.2";
  slave_name = "App.Server";
  interface_name = "f";
  master_ip = "";
  slave_ip = "10.0.0.2";
  tars_version = "";
  others = "";
}

abbrev body : StatMicMsgBody
body = record empty_body {
  count = pos 3;
  interval_count = (pos 50, pos 3) ∷ [];
  min_rsp_time = pos 4;
}

abbrev late : StatMicMsgBody
late = record empty_body { timeout_count = pos 1; min_rsp_time = pos 9 }

abbrev reports : List (StatMicMsgHead × StatMicMsgBody)
reports = (head, body) ∷ (head, late) ∷ []

abbrev turned : List (StatMicMsgHead × StatMicMsgBody)
turned = (head, late) ∷ (head, body) ∷ []

stored : AreStored (table (List ℕ)) format reports []
unfolding add is_full find insert merge_body add_intervals larger smaller_nonzero
stored = (refl, refl, (refl, refl, tt))

turned-Stored : AreStored (table (List ℕ)) format turned []
unfolding add is_full find insert merge_body add_intervals larger smaller_nonzero
turned-Stored = (refl, refl, (refl, refl, tt))

told_any_order_example :
    (told (table (List ℕ)) format "App.Server" (add_all (table (List ℕ)) format reports [])
      ≡ merge_all
          (table (List ℕ))
          format
          "App.Server"
          reports
          (told (table (List ℕ)) format "App.Server" []))
    × (told (table (List ℕ)) format "App.Server" (add_all (table (List ℕ)) format reports [])
        ≡ told (table (List ℕ)) format "App.Server" (add_all (table (List ℕ)) format turned []))
told_any_order_example =
    told_any_order (table (List ℕ)) format reports turned [] "App.Server" (table-Keeps (List ℕ))
      format-Reads (Permᴰ.swap refl refl) stored turned-Stored

abbrev outside : Outside
outside = record { hash = String.len; tm2_str = λ t. "202611261710" }

abbrev server : StatServer (table (List ℕ))
server = record {
  virtual_master_ip = ("App.Server", "9.9.9.9") ∷ [];
  insert_interval = 5;
  buffer = (0 ∷ []) ∷ (0 ∷ []) ∷ [];
  select_buffer = 0;
  hash_maps = ([] ∷ [] ∷ []) ∷ ([] ∷ [] ∷ []) ∷ [];
  buff_num = 2;
  last_dump_time = 600;
  date = "20261126";
  flag = "1700";
}

-- A report of nothing between the others.
abbrev with_zeros : List (StatMicMsgHead × StatMicMsgBody)
with_zeros = (head, body) ∷ (head, empty_body) ∷ (head, late) ∷ []

report_mic_msg_counted_example :
    (total
        (table (List ℕ))
        outside
        format
        calls
        "App.Server"
        (report_mic_msg (table (List ℕ)) outside format 0 1000 true "10.0.0.1" with_zeros server)
      ≡ total (table (List ℕ)) outside format calls "App.Server" server
        +ℤ gains
            (table (List ℕ))
            outside
            format
            calls
            "App.Server"
            0
            1000
            true
            "10.0.0.1"
            with_zeros
            server)
    × (report_mic_msg (table (List ℕ)) outside format 0 1000 true "10.0.0.1" with_zeros server
        ≡ report_mic_msg (table (List ℕ)) outside format 0 1000 true "10.0.0.1" reports server)
report_mic_msg_counted_example =
    report_mic_msg_counted (table (List ℕ)) outside format calls "App.Server" 0 1000 true "10.0.0.1"
      with_zeros server (table-Keeps (List ℕ)) format-Reads
