-- ===== src/Log/Graph/Traces.antt =====
-- The graphs of the traces that logs build (LogServer/LogAggregation.cpp).
use tars_framework.Base.{◌+◌, ◌≡◌, List, [], ◌∷◌, String, str_eq, if◌then◌else◌}
use tars_framework.Base.Int.{pos}
use tars_framework.Log.Trace.{IRawLog, ISpan, ITrace, update_i_trace}
use tars_framework.Log.Graph.{IVertex, IEdge, IGraph, calls, Sorts}
use tars_framework.Log.Graph.Counts.{vertex_calls, edge_calls}
use tars_framework.Log.Graph.Walks.{served_calls, client_calls}

abbrev pub new_trace : ITrace
new_trace = record {
  trace = "";
  t_span = "";
  t_master = "";
  ts_time = pos 0;
  te_time = pos 0;
  spans = [];
}

-- The logs of a trace, one after the other.
unfoldable pub push_all : List IRawLog → ITrace → ITrace
push_all [] t = t
push_all (log ∷ logs) t = push_all logs (update_i_trace log t)

-- A sort permutes, so that the counts stay.
pub record KeepsCounts (sorts : Sorts) : Type 0 where
  pub keeps_vertexes :
      (name : String) (vs : List IVertex)
      → vertex_calls name (sorts.sort_vertexes vs) ≡ vertex_calls name vs
  pub keeps_edges : (es : List IEdge) → edge_calls (sorts.sort_edges es) ≡ edge_calls es

-- What a graph counts of a trace, on top of the graph `g`.
pub record Tells (name_of : ISpan → String) (t : ITrace) (ss : List ISpan) (g h : IGraph)
    : Type 0 where
  pub vertex_counts :
      (name : String)
      → vertex_calls name h.vertexes
        ≡ vertex_calls name g.vertexes
          + (if str_eq t.t_master name then calls t.ts_time t.te_time else 0)
          + served_calls name_of name ss
  pub edge_counts : edge_calls h.edges ≡ edge_calls g.edges + client_calls ss
