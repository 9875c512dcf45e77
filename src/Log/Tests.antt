-- ===== src/Log/Tests.antt =====
-- The traces and graphs of LogServer/LogAggregation.cpp at concrete inputs.
use mathlib.Core.Option
use mathlib.Core.List.{Permᴰ}
use mathlib.Core.Quot.{Quot}
use tars_framework.Base.{
  ℕ, ◌≡◌, refl, some, List, [], ◌∷◌, String, str_eq, string_key, if◌then◌else◌,
}
use tars_framework.Base.Int.{ℤ, pos}
use tars_framework.Base.Map.{find, HasUniqueKeys}
use tars_framework.Log.Trace.{
  IRawLog, ISpan, assign_if_empty, insert_child, update_i_span, update_span, update_root,
  update_i_trace, new_span,
}
use tars_framework.Log.Graph.{
  IEdge, IGraph, find_span, out_of_fuel, Sorts, graph_trace_function, vertex_of,
}
use tars_framework.Log.Graph.Merges.{Told, HasTotals, merge_all, merge_all_any_order}
use tars_framework.Log.Graph.Traces.{new_trace, push_all}
use tars_framework.Log.Graph.Cycles.{cycle_endless}
use tars_framework.Log.Aggregation.{
  Snapshot, dump, restore, ITraceOperator, LogAggregation, Outside,
}
use tars_framework.Log.Aggregation.Snapshots.{waiting_from, restore-dump}

abbrev log : String → String → String → ℕ → IRawLog
log span parent type time = record {
  trace = "t";
  span = span;
  parent = parent;
  type = type;
  master = "c";
  slave = "A";
  function = "f";
  time = pos time;
  ret = "";
  log_data = "";
}

-- A call from outside, which makes a call itself.
abbrev logs : List IRawLog
logs =
    log "1" "" "ts" 1
    ∷ log "2" "1" "cs" 2
    ∷ log "2" "1" "sr" 3
    ∷ log "2" "1" "ss" 4
    ∷ log "2" "1" "cr" 5
    ∷ log "1" "" "te" 6
    ∷ []

abbrev rank : String → ℕ
rank name = if str_eq name "1" then 1 else 0

abbrev sorts : Sorts
sorts = record { sort_vertexes = λ vs. vs; sort_edges = λ es. es }

abbrev empty : IGraph
empty = record { type = ""; vertexes = []; edges = [] }

-- A call of B by A.
abbrev call : ℤ → IEdge
call time = record {
  from_vertex = "A";
  to_vertex = "B";
  call_count = 1;
  call_time = time;
  order = 1;
}

abbrev first : IGraph
first = record {
  type = "";
  vertexes = vertex_of "A" (pos 1) (pos 4) ∷ [];
  edges = call (pos 3) ∷ [];
}

abbrev second : IGraph
second = record {
  type = "";
  vertexes = vertex_of "B" (pos 2) (pos 3) ∷ vertex_of "A" (pos 2) (pos 9) ∷ [];
  edges = call (pos 5) ∷ [];
}

merge_all_any_order_example :
    (◌≡◌ {A = Told}
      (Quot.mk (merge_all (first ∷ second ∷ []) "server" empty))
      (Quot.mk (merge_all (second ∷ first ∷ []) "server" empty)))
    × HasTotals (first ∷ second ∷ []) empty (merge_all (first ∷ second ∷ []) "server" empty)
merge_all_any_order_example =
    merge_all_any_order (first ∷ second ∷ []) (second ∷ first ∷ []) "server" empty
      (Permᴰ.swap refl refl)

-- Each of two spans is the parent of the other.
abbrev cycle : List IRawLog
cycle = log "1" "" "ts" 1 ∷ log "2" "1" "cs" 2 ∷ log "1" "2" "cs" 3 ∷ []

abbrev span_1 : ISpan
span_1 = record (new_span "1") {
  parent = "2";
  master = "c";
  slave = "A";
  function = "f";
  cs_time = pos 3;
  children = "2" ∷ [];
}

abbrev span_2 : ISpan
span_2 = record (new_span "2") {
  parent = "1";
  master = "c";
  slave = "A";
  function = "f";
  cs_time = pos 2;
  children = "1" ∷ [];
}

spans_of_cycle : (push_all cycle new_trace).spans ≡ span_1 ∷ span_2 ∷ []
unfolding push_all update_i_trace update_root update_span update_i_span assign_if_empty insert_child
spans_of_cycle = refl

at_1 : find_span "1" (push_all cycle new_trace).spans ≡ some span_1
unfolding find_span
at_1 = rw spans_of_cycle refl

at_2 : find_span "2" (push_all cycle new_trace).spans ≡ some span_2
unfolding find_span
at_2 = rw spans_of_cycle refl

cycle_endless_example :
    graph_trace_function 1000 (push_all cycle new_trace) 1 "c" "1" empty ≡ out_of_fuel
cycle_endless_example =
    cycle_endless (push_all cycle new_trace) "1" "2" span_1 span_2 [] [] at_1 refl at_2 refl 1000 1
      "c" empty

abbrev outside : Outside
outside = record { hash = λ s. s; tostr = λ n. "1"; sorts = sorts }

abbrev waiting : ITraceOperator
waiting = record { update_time = 100; itrace = new_trace }

abbrev aggregation : LogAggregation
aggregation = record {
  file = "log";
  itrace_operators = ("t", waiting) ∷ [];
  igraph_operators = [];
  tasks = [];
  posted = [];
  first_check_timer = 3;
  check_cycle_timer = 3;
  closure_overtime = 3;
  max_overtime = 100;
}

abbrev snapshot : Snapshot
snapshot = record { file_name = "log"; graphs = []; traces = [] }

waiting_once : HasUniqueKeys aggregation.itrace_operators
unfolding find
waiting_once = (refl, tt)

restore-dump_example :
    (find "t" (restore (dump aggregation snapshot) 500 aggregation).itrace_operators
      ≡ Option.map (λ op. waiting_from 500 op.itrace) (find "t" aggregation.itrace_operators))
    × (find "7" (restore (dump aggregation snapshot) 500 aggregation).igraph_operators
        ≡ find "7" aggregation.igraph_operators)
restore-dump_example =
    restore-dump aggregation aggregation snapshot 500 "t" "7" waiting_once tt refl refl refl
