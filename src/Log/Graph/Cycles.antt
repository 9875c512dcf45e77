-- ===== src/Log/Graph/Cycles.antt =====
-- A walk over calls that lead back (LogServer/LogAggregation.cpp) does not end.
use tars_framework.Base.{ℕ, zero, suc, ◌+◌, ◌≡◌, refl, ap, ◌∙◌, some, List, ◌∷◌, String}
use tars_framework.Log.Trace.{ISpan, ITrace}
use tars_framework.Log.Graph.{
  IGraph, function_name, add_span, out_of_fuel, find_span, walk_children, graph_trace_function,
}

-- If the first child of a span has that span as its first child, the walk from it needs more than
-- any fuel.
pub cycle_endless :
    (t : ITrace) (a b : String) (s u : ISpan) (cs ds : List String)
    → find_span a t.spans ≡ some s
    → s.children ≡ b ∷ cs
    → find_span b t.spans ≡ some u
    → u.children ≡ a ∷ ds
    → (fuel order : ℕ) (parent : String) (g : IGraph)
    → graph_trace_function fuel t order parent a g ≡ out_of_fuel
unfolding graph_trace_function walk_children
cycle_endless t a b s u cs ds e c f d zero order parent g = refl
cycle_endless t a b s u cs ds e c f d (suc fuel) order parent g =
    let next = add_span parent (function_name s) order s g in
    let inner = cycle_endless t b a u s ds cs f d e c fuel (order + 1) (function_name s) next in
    rw (graph_trace_function, e)
      (ap (λ xs. walk_children (graph_trace_function fuel t (order + 1) (function_name s)) xs next)
          c
        ∙ rw (walk_children, inner) refl)
