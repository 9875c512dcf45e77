-- ===== src/Stat/Hash.antt =====
-- `StatHashMap::add` of StatServer/StatHashMap.h: a report is merged into the record of its head. The table
-- in shared memory (TC_HashMap) and the writing and reading of structures are outside the
-- repository: they are parameters. Counts and times are integers without bounds.
pub mod Summary
pub mod Orders
pub mod InMap
use tars_framework.Base.{
  ℕ, ◌+◌, ◌*◌, Bool, true, false, ◌&&◌, ◌||◌, not, ◌≡◌, refl, ◌≢◌, ◌↔◌, Option, none, some, List,
  [], ◌∷◌, String, if◌then◌else◌, Key, arith, ltb,
}
use tars_framework.Base.Int.{ℤ, pos, negsuc, ◌+ℤ◌, eqb_ℤ, ltb_ℤ, eqb_ℤ→eq, eqb_ℤ_refl}
use tars_framework.Base.Map.{Map, find, insert, get_or}

pub eqb_ℤ_iff : (a b : ℤ) → (eqb_ℤ a b ≡ true) ↔ (a ≡ b)
eqb_ℤ_iff a b = (eqb_ℤ→eq a b, λ e. rw e (eqb_ℤ_refl b))

instance abbrev pub int_key : Key ℤ
int_key = record { beq = eqb_ℤ; beq_iff = eqb_ℤ_iff; less = ltb_ℤ }

-- Who called whom; `others` are the fields that the code passes on.
pub record StatMicMsgHead : Type 0 where
  pub master_name : String
  pub slave_name : String
  pub interface_name : String
  pub master_ip : String
  pub slave_ip : String
  pub tars_version : String
  pub others : String

pub record StatMicMsgBody : Type 0 where
  pub count : ℤ
  pub timeout_count : ℤ
  pub exec_count : ℤ
  pub interval_count : Map ℤ ℤ
  pub total_rsp_time : ℤ
  pub max_rsp_time : ℤ
  pub min_rsp_time : ℤ

abbrev pub empty_body : StatMicMsgBody
empty_body = record {
  count = pos 0;
  timeout_count = pos 0;
  exec_count = pos 0;
  interval_count = [];
  total_rsp_time = pos 0;
  max_rsp_time = pos 0;
  min_rsp_time = pos 0;
}

-- What `get` of the table answers: an error, the bytes of a record, or no data.
pub data Got (Bytes : Type 0) : Type 0 where
  failed : Got Bytes
  ok : Bytes → Got Bytes
  no_data : Got Bytes

-- The table: `set` answers a code, 0 where it has stored; `used` and `all` are its chunks.
pub record HashTable (Bytes : Type 0) : Type 1 where
  pub Store : Type 0
  pub get : String → Store → Got Bytes
  pub set : String → Bytes → Store → ℤ × Store
  pub used_chunk : Store → ℕ
  pub all_chunks : Store → ℕ

-- The writing of a head and the writing and reading of a body.
pub record Format : Type 0 where
  pub write_head : StatMicMsgHead → String
  pub write_body : StatMicMsgBody → List ℕ
  pub read_body : List ℕ → StatMicMsgBody

unfoldable pub add_intervals : Map ℤ ℤ → Map ℤ ℤ → Map ℤ ℤ
add_intervals [] m = m
add_intervals ((k, n) ∷ ns) m = add_intervals ns (insert k (get_or (find k m) (pos 0) +ℤ n) m)

unfoldable pub larger : ℤ → ℤ → ℤ
larger a b = if ltb_ℤ a b then b else a

-- The smaller of two times, where 0 is none.
unfoldable pub smaller_nonzero : ℤ → ℤ → ℤ
smaller_nonzero a b = if eqb_ℤ a (pos 0) || (ltb_ℤ b a && not (eqb_ℤ b (pos 0))) then b else a

unfoldable pub merge_body : StatMicMsgBody → StatMicMsgBody → StatMicMsgBody
merge_body body st = record {
  count = st.count +ℤ body.count;
  exec_count = st.exec_count +ℤ body.exec_count;
  timeout_count = st.timeout_count +ℤ body.timeout_count;
  interval_count = add_intervals body.interval_count st.interval_count;
  total_rsp_time = st.total_rsp_time +ℤ body.total_rsp_time;
  max_rsp_time = larger st.max_rsp_time body.max_rsp_time;
  min_rsp_time = smaller_nonzero st.min_rsp_time body.min_rsp_time;
}

module _ (T : HashTable (List ℕ)) (F : Format) where
  unfoldable pub add : StatMicMsgHead → StatMicMsgBody → T.Store → ℤ × T.Store
  add head body s = elim (T.get (F.write_head head) s) [
    | failed ↦ (negsuc 0, s)
    | ok sv ↦ T.set (F.write_head head) (F.write_body (merge_body body (F.read_body sv))) s
    | no_data ↦ T.set (F.write_head head) (F.write_body (merge_body body empty_body)) s
  ]
