-- ===== src/Log/Aggregation.antt =====
-- `LogAggregation` of LogServer/LogAggregation.cpp and .h: the traces that logs build, the graphs that
-- they are merged into, and the timers that release them. `std::hash`, the printing of numbers and
-- the clock are arguments; what goes to the search engine is a list of results.
pub mod Deadline
pub mod Snapshots
use Prim.Native.String.{◌++◌ as ◌+++◌}
use tars_framework.Base.{
  ℕ, ◌+◌, ◌/◌, Bool, true, false, ◌||◌, not, Option, none, some, List, [], ◌∷◌, ◌++◌, String,
  str_eq, string_key, if◌then◌else◌, leb,
}
use tars_framework.Base.Int.{ℤ, pos, eqb_ℤ}
use tars_framework.Base.Map.{Map, find, insert, erase, update}
use tars_framework.Log.Trace.{IRawLog, ISpan, ITrace, update_i_trace}
use tars_framework.Log.Graph.{
  IVertex, IEdge, IGraph, Walk, done, span_not_exist, out_of_fuel, merger_i_graph, Sorts,
  graph_i_trace_function, graph_i_trace_server,
}
use tars_framework.Log.Graph.Traces.{new_trace}

pub record ITraceOperator : Type 0 where
  pub update_time : ℕ
  pub itrace : ITrace

-- A task for the timer queue, with the seconds to its first run and between its runs.
pub data TimerTask : Type 0 where
  check_trace : String → ℕ → ℕ → TimerTask
  check_graph : String → ℕ → ℕ → TimerTask

-- What is posted to the search engine.
pub data Posted : Type 0 where
  trace_posted : String → ITrace → String → String → Posted
  graph_posted : String → IGraph → Posted

pub record LogAggregation : Type 0 where
  pub file : String
  pub itrace_operators : Map String ITraceOperator
  pub igraph_operators : Map String IGraph
  pub tasks : List TimerTask
  pub posted : List Posted
  pub first_check_timer : ℕ
  pub check_cycle_timer : ℕ
  pub closure_overtime : ℕ
  pub max_overtime : ℕ

unfoldable pub set_timer : ℕ → ℕ → ℕ → ℕ → LogAggregation → LogAggregation
set_timer first cycle closure max a = record a {
  first_check_timer = first;
  check_cycle_timer = cycle;
  closure_overtime = closure;
  max_overtime = max;
}

-- The hash of a text (the identity of a graph, printed), the printing of an order, and the sorts.
pub record Outside : Type 0 where
  pub hash : String → String
  pub tostr : ℕ → String
  pub sorts : Sorts

unfoldable pub edges_text : (ℕ → String) → List IEdge → String
edges_text tostr [] = ""
edges_text tostr (e ∷ es) = e.from_vertex +++ e.to_vertex +++ tostr e.order +++ edges_text tostr es

unfoldable pub vertexes_text : List IVertex → String
vertexes_text [] = ""
vertexes_text (v ∷ vs) = v.vertex +++ vertexes_text vs

unfoldable pub hash_i_graph : Outside → IGraph → String
hash_i_graph o g = o.hash (edges_text o.tostr g.edges +++ vertexes_text g.vertexes)

unfoldable pub push_raw_log : IRawLog → ℕ → LogAggregation → LogAggregation
push_raw_log log now a = elim (find log.trace a.itrace_operators) [
  | none ↦ record a {
    itrace_operators =
        insert log.trace (record { update_time = now; itrace = update_i_trace log new_trace })
          a.itrace_operators;
    tasks = a.tasks ++ (check_trace log.trace a.first_check_timer a.check_cycle_timer ∷ []);
  }
  | some op ↦ record a {
    itrace_operators =
        update log.trace (λ op. record op { itrace = update_i_trace log op.itrace })
          a.itrace_operators;
  }
]

unfoldable pub is_missing : ISpan → Bool
is_missing s =
    eqb_ℤ s.cs_time (pos 0)
    || eqb_ℤ s.sr_time (pos 0)
    || eqb_ℤ s.ss_time (pos 0)
    || eqb_ℤ s.cr_time (pos 0)

unfoldable pub any_missing : List ISpan → Bool
any_missing [] = false
any_missing (s ∷ spans) = is_missing s || any_missing spans

unfoldable pub overtime : LogAggregation → ITrace → ℕ
overtime a t =
    if not (eqb_ℤ t.te_time (pos 0))
    then (if any_missing t.spans then a.max_overtime else a.closure_overtime)
    else a.closure_overtime

-- The check comes again later.
unfoldable pub is_waiting : LogAggregation → ℕ → ITraceOperator → Bool
is_waiting a now op = leb now (op.update_time + overtime a op.itrace)

abbrev pub no_graph : IGraph
no_graph = record { type = ""; vertexes = []; edges = [] }

-- The graph of a trace is merged into the one of its hash, which may be new.
unfoldable pub merge_into : String → IGraph → String → LogAggregation → LogAggregation
merge_into id g type a = elim (find id a.igraph_operators) [
  | none ↦ record a {
    igraph_operators = insert id (merger_i_graph g type no_graph) a.igraph_operators;
    tasks = a.tasks ++ (check_graph id 1 300 ∷ []);
  }
  | some h ↦ record a { igraph_operators = update id (merger_i_graph g type) a.igraph_operators }
]

-- What a check comes to: the trace is gone, it waits, it is released, or an exception leaves it.
pub data Checked : Type 0 where
  gone : Checked
  waits : Checked
  released : LogAggregation → Checked
  thrown : LogAggregation → Checked
  endless : LogAggregation → Checked

unfoldable pub release_function : Outside → ℕ → String → ITrace → String → LogAggregation → Checked
release_function o fuel trace t server_id a =
    elim (graph_i_trace_function o.sorts fuel t no_graph) [
      | span_not_exist ↦ thrown a
      | out_of_fuel ↦ endless a
      | done g ↦
          let id = hash_i_graph o g in
          let b = merge_into id g "function" a in
          released (record b {
            posted = b.posted ++ (trace_posted trace t server_id id ∷ []);
            itrace_operators = erase trace b.itrace_operators;
          })
    ]

unfoldable pub release_trace : Outside → ℕ → String → ITrace → LogAggregation → Checked
release_trace o fuel trace t a = elim (graph_i_trace_server o.sorts fuel t no_graph) [
  | span_not_exist ↦ thrown a
  | out_of_fuel ↦ endless a
  | done g ↦
      let id = hash_i_graph o g in release_function o fuel trace t id (merge_into id g "server" a)
]

unfoldable pub check_and_update_i_trace : Outside → ℕ → String → ℕ → LogAggregation → Checked
check_and_update_i_trace o fuel trace now a = elim (find trace a.itrace_operators) [
  | none ↦ gone
  | some op ↦ if is_waiting a now op then waits else release_trace o fuel trace op.itrace a
]

-- None is the exception "should not happen".
unfoldable pub check_and_update_i_graph : String → LogAggregation → Option LogAggregation
check_and_update_i_graph id a = elim (find id a.igraph_operators) [
  | none ↦ none
  | some g ↦ some (record a { posted = a.posted ++ (graph_posted id g ∷ []) })
]

pub record Snapshot : Type 0 where
  pub file_name : String
  pub graphs : Map String IGraph
  pub traces : Map String ITrace

unfoldable pub dump_graphs : Map String IGraph → Map String IGraph → Map String IGraph
dump_graphs [] gs = gs
dump_graphs ((id, g) ∷ rest) gs = dump_graphs rest (insert id g gs)

unfoldable pub dump_traces : Map String ITraceOperator → Map String ITrace → Map String ITrace
dump_traces [] ts = ts
dump_traces ((name, op) ∷ rest) ts = dump_traces rest (insert name op.itrace ts)

unfoldable pub dump : LogAggregation → Snapshot → Snapshot
dump a s = record s {
  graphs = dump_graphs a.igraph_operators s.graphs;
  traces = dump_traces a.itrace_operators s.traces;
}

unfoldable pub restore_traces : ℕ → Map String ITrace → LogAggregation → LogAggregation
restore_traces now [] a = a
restore_traces now ((name, t) ∷ rest) a = restore_traces now rest (record a {
  itrace_operators = insert name (record { update_time = now; itrace = t }) a.itrace_operators;
  tasks = a.tasks ++ (check_trace name a.check_cycle_timer a.check_cycle_timer ∷ []);
})

unfoldable pub restore_graphs : Map String IGraph → LogAggregation → LogAggregation
restore_graphs [] a = a
restore_graphs ((id, g) ∷ rest) a = restore_graphs rest (record a {
  igraph_operators = insert id g a.igraph_operators;
  tasks = a.tasks ++ (check_graph id 1 300 ∷ []);
})

unfoldable pub restore : Snapshot → ℕ → LogAggregation → LogAggregation
restore s now a =
    if not (str_eq s.file_name a.file)
    then a
    else restore_graphs s.graphs
        (record (restore_traces now s.traces (record a { itrace_operators = [] })) {
          igraph_operators = [];
        })
