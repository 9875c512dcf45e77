-- ===== src/Log/Graph.antt =====
-- Graphs of LogServer/LogAggregation.cpp: `insertIVertex`, `insertIEdge`, `mergerIGraph` and the walks
-- over a trace. The recursion on the spans takes fuel. `std::sort` is a parameter.
pub mod Counts
pub mod Cycles
pub mod Merges
pub mod Traces
pub mod Walks
use Prim.Native.String.{◌++◌ as ◌+++◌}
use tars_framework.Base.{
  ℕ, zero, suc, ◌+◌, Bool, true, false, ◌&&◌, not, Option, none, some, List, [], ◌∷◌, String,
  str_eq, if◌then◌else◌, ◌==◌,
}
use tars_framework.Base.Int.{ℤ, pos, ◌+ℤ◌, ◌-ℤ◌, eqb_ℤ, leb_ℤ}
use tars_framework.Log.Trace.{ISpan, ITrace, assign_if_empty}

pub record IVertex : Type 0 where
  pub vertex : String
  pub call_count : ℕ
  pub call_time : ℤ

pub record IEdge : Type 0 where
  pub from_vertex : String
  pub to_vertex : String
  pub call_count : ℕ
  pub call_time : ℤ
  pub order : ℕ

pub record IGraph : Type 0 where
  pub type : String
  pub vertexes : List IVertex
  pub edges : List IEdge

unfoldable pub insert_i_vertex : IVertex → List IVertex → List IVertex
insert_i_vertex v [] = v ∷ []
insert_i_vertex v (w ∷ ws) =
    if str_eq w.vertex v.vertex
    then record w {
      call_count = w.call_count + v.call_count;
      call_time = w.call_time +ℤ v.call_time;
    }
      ∷ ws
    else w ∷ insert_i_vertex v ws

abbrev pub is_same_edge : IEdge → IEdge → Bool
is_same_edge d e =
    str_eq d.from_vertex e.from_vertex && str_eq d.to_vertex e.to_vertex && (d.order == e.order)

unfoldable pub insert_i_edge : IEdge → List IEdge → List IEdge
insert_i_edge e [] = e ∷ []
insert_i_edge e (d ∷ ds) =
    if is_same_edge d e
    then record d {
      call_count = d.call_count + e.call_count;
      call_time = d.call_time +ℤ e.call_time;
    }
      ∷ ds
    else d ∷ insert_i_edge e ds

unfoldable pub insert_vertexes : List IVertex → List IVertex → List IVertex
insert_vertexes [] ws = ws
insert_vertexes (v ∷ vs) ws = insert_vertexes vs (insert_i_vertex v ws)

unfoldable pub insert_edges : List IEdge → List IEdge → List IEdge
insert_edges [] ds = ds
insert_edges (e ∷ es) ds = insert_edges es (insert_i_edge e ds)

unfoldable pub merger_i_graph : IGraph → String → IGraph → IGraph
merger_i_graph from type g = record {
  type = assign_if_empty g.type type;
  vertexes = insert_vertexes from.vertexes g.vertexes;
  edges = insert_edges from.edges g.edges;
}

-- Two times of a call, in order.
abbrev pub is_timed : ℤ → ℤ → Bool
is_timed begin finish =
    not (eqb_ℤ begin (pos 0)) && not (eqb_ℤ finish (pos 0)) && leb_ℤ begin finish

abbrev pub calls : ℤ → ℤ → ℕ
calls begin finish = if is_timed begin finish then 1 else 0

abbrev pub elapsed : ℤ → ℤ → ℤ
elapsed begin finish = if is_timed begin finish then finish -ℤ begin else pos 0

abbrev pub vertex_of : String → ℤ → ℤ → IVertex
vertex_of name begin finish = record {
  vertex = name;
  call_count = calls begin finish;
  call_time = elapsed begin finish;
}

-- The names of the vertexes: the server of a span, or its function.
unfoldable pub server_name : ISpan → String
server_name s = s.slave

unfoldable pub function_name : ISpan → String
function_name s = s.slave +++ "." +++ s.function

unfoldable pub add_span : String → String → ℕ → ISpan → IGraph → IGraph
add_span parent name order s g = record g {
  vertexes = insert_i_vertex (vertex_of name s.sr_time s.ss_time) g.vertexes;
  edges =
      insert_i_edge
        (record {
          from_vertex = parent;
          to_vertex = name;
          call_count = calls s.cs_time s.cr_time;
          call_time = elapsed s.cs_time s.cr_time;
          order = order;
        })
        g.edges;
}

-- A walk ends with a graph, by the exception "span not exist", or, beyond any fuel, not at all.
pub data Walk : Type 0 where
  done : IGraph → Walk
  span_not_exist : Walk
  out_of_fuel : Walk

unfoldable pub find_span : String → List ISpan → Option ISpan
find_span name [] = none
find_span name (s ∷ spans) = if str_eq s.span name then some s else find_span name spans

unfoldable pub walk_children : (String → IGraph → Walk) → List String → IGraph → Walk
walk_children walk [] g = done g
walk_children walk (c ∷ cs) g = elim (walk c g) [
  | done h ↦ walk_children walk cs h
  | span_not_exist ↦ span_not_exist
  | out_of_fuel ↦ out_of_fuel
]

unfoldable pub graph_trace_function : ℕ → ITrace → ℕ → String → String → IGraph → Walk
graph_trace_function zero t order parent span g = out_of_fuel
graph_trace_function (suc fuel) t order parent span g = elim (find_span span t.spans) [
  | none ↦ span_not_exist
  | some s ↦
      walk_children (graph_trace_function fuel t (order + 1) (function_name s)) s.children
        (add_span parent (function_name s) order s g)
]

-- The edges of this walk have no order.
unfoldable pub graph_trace_server : ℕ → ITrace → String → String → IGraph → Walk
graph_trace_server zero t parent span g = out_of_fuel
graph_trace_server (suc fuel) t parent span g = elim (find_span span t.spans) [
  | none ↦ span_not_exist
  | some s ↦
      walk_children (graph_trace_server fuel t (server_name s)) s.children
        (add_span parent (server_name s) 0 s g)
]

pub record Sorts : Type 0 where
  pub sort_vertexes : List IVertex → List IVertex
  pub sort_edges : List IEdge → List IEdge

unfoldable pub sorted : Sorts → Walk → Walk
sorted sorts (done g) =
    done (record g { vertexes = sorts.sort_vertexes g.vertexes; edges = sorts.sort_edges g.edges })
sorted sorts span_not_exist = span_not_exist
sorted sorts out_of_fuel = out_of_fuel

abbrev pub with_master : ITrace → IGraph → IGraph
with_master t g = record g {
  vertexes = insert_i_vertex (vertex_of t.t_master t.ts_time t.te_time) g.vertexes;
}

unfoldable pub graph_i_trace_function : Sorts → ℕ → ITrace → IGraph → Walk
graph_i_trace_function sorts fuel t g =
    if str_eq t.t_span ""
    then done g
    else sorted sorts (graph_trace_function fuel t 1 t.t_master t.t_span (with_master t g))

unfoldable pub graph_i_trace_server : Sorts → ℕ → ITrace → IGraph → Walk
graph_i_trace_server sorts fuel t g =
    if str_eq t.t_span ""
    then done g
    else sorted sorts (graph_trace_server fuel t t.t_master t.t_span (with_master t g))
