-- ===== src/Log/Trace.antt =====
-- Traces of LogServer/LogAggregation.cpp: `updateISpan`, `updateITrace`, `insertChild`. The times are
-- integers without bounds.
pub mod Closed
use tars_framework.Base.{
  Bool, true, false, ◌&&◌, ◌||◌, List, [], ◌∷◌, String, str_eq, if◌then◌else◌,
}
use tars_framework.Base.Int.{ℤ, pos}

pub record IRawLog : Type 0 where
  pub trace : String
  pub span : String
  pub parent : String
  pub type : String
  pub master : String
  pub slave : String
  pub function : String
  pub time : ℤ
  pub ret : String
  pub log_data : String

pub record ISpan : Type 0 where
  pub span : String
  pub parent : String
  pub master : String
  pub slave : String
  pub function : String
  pub cs_time : ℤ
  pub sr_time : ℤ
  pub ss_time : ℤ
  pub cr_time : ℤ
  pub cs_data : String
  pub sr_data : String
  pub ss_data : String
  pub cr_data : String
  pub ret : String
  pub children : List String

pub record ITrace : Type 0 where
  pub trace : String
  pub t_span : String
  pub t_master : String
  pub ts_time : ℤ
  pub te_time : ℤ
  pub spans : List ISpan

-- A span that `emplace_back` makes, with its name.
abbrev pub new_span : String → ISpan
new_span name = record {
  span = name;
  parent = "";
  master = "";
  slave = "";
  function = "";
  cs_time = pos 0;
  sr_time = pos 0;
  ss_time = pos 0;
  cr_time = pos 0;
  cs_data = "";
  sr_data = "";
  ss_data = "";
  cr_data = "";
  ret = "";
  children = [];
}

unfoldable pub assign_if_empty : String → String → String
assign_if_empty a b = if str_eq a "" then b else a

unfoldable pub insert_child : String → List String → List String
insert_child child [] = child ∷ []
insert_child child (c ∷ cs) = if str_eq c child then c ∷ cs else c ∷ insert_child child cs

unfoldable pub update_i_span : IRawLog → ISpan → ISpan
update_i_span log s =
    if str_eq log.type "ts" || str_eq log.type "cs"
    then record s {
      parent = assign_if_empty s.parent log.parent;
      master = assign_if_empty s.master log.master;
      slave = assign_if_empty s.slave log.slave;
      function = assign_if_empty s.function log.function;
      cs_data = assign_if_empty s.cs_data log.log_data;
      cs_time = log.time;
    }
    else if str_eq log.type "te" || str_eq log.type "cr"
    then record s {
      parent = assign_if_empty s.parent log.parent;
      master = assign_if_empty s.master log.master;
      slave = assign_if_empty s.slave log.slave;
      function = assign_if_empty s.function log.function;
      ret = assign_if_empty s.ret log.ret;
      cr_data = assign_if_empty s.cr_data log.log_data;
      cr_time = log.time;
    }
    else if str_eq log.type "sr"
    then record s {
      slave = assign_if_empty s.slave log.slave;
      function = assign_if_empty s.function log.function;
      sr_data = assign_if_empty s.sr_data log.log_data;
      sr_time = log.time;
    }
    else if str_eq log.type "ss"
    then record s {
      slave = assign_if_empty s.slave log.slave;
      function = assign_if_empty s.function log.function;
      ret = assign_if_empty s.ret log.ret;
      ss_data = assign_if_empty s.ss_data log.log_data;
      ss_time = log.time;
    }
    else s

-- The first span of the name is changed; if there is none, a new one is.
unfoldable pub update_span : String → (ISpan → ISpan) → List ISpan → List ISpan
update_span name f [] = f (new_span name) ∷ []
update_span name f (s ∷ spans) =
    if str_eq name s.span then f s ∷ spans else s ∷ update_span name f spans

abbrev pub start_trace : IRawLog → ITrace → ITrace
start_trace log t = record t {
  ts_time = log.time;
  t_span = assign_if_empty t.t_span log.span;
  t_master = assign_if_empty t.t_master log.master;
}

abbrev pub end_trace : IRawLog → ITrace → ITrace
end_trace log t = record t {
  te_time = log.time;
  t_span = assign_if_empty t.t_span log.span;
  t_master = assign_if_empty t.t_master log.master;
}

abbrev pub add_child : IRawLog → ITrace → ITrace
add_child log t = record t {
  spans =
      update_span log.parent (λ s. record s { children = insert_child log.span s.children })
        t.spans;
}

-- What a log says of the trace, before its span is updated.
unfoldable pub update_root : IRawLog → ITrace → ITrace
update_root log t =
    if str_eq log.parent log.span && str_eq log.type "cs"
    then start_trace log t
    else if str_eq log.parent log.span && str_eq log.type "cr"
    then end_trace log t
    else if str_eq log.type "ts"
    then start_trace log t
    else if str_eq log.type "te"
    then end_trace log t
    else if str_eq log.type "cs" || str_eq log.type "cr"
    then add_child log t
    else t

unfoldable pub update_i_trace : IRawLog → ITrace → ITrace
update_i_trace log t =
    let u = update_root log (record t { trace = assign_if_empty t.trace log.trace }) in
    record u { spans = update_span log.span (update_i_span log) u.spans }
