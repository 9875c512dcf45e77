-- ===== src/Log/Graph/Walks.antt =====
-- The walks over a trace (`graphTraceFunction_`, `graphTraceServer_` of LogServer/LogAggregation.cpp): when
-- they end, and what they count.
use tars_framework.Base.{
  ℕ, zero, suc, ◌+◌, ◌<◌, true, ◌≡◌, refl, sym, ap, ◌∙◌, none, some, List, [], ◌∷◌, ◌++◌, String,
  str_eq, string_key, eq_iff, if◌then◌else◌, arith, All, Bool-cases, inl, inr,
}
use tars_framework.Log.Trace.{ISpan, ITrace}
use tars_framework.Log.Trace.Closed.{has_span, HasSpans, HasChildren}
use tars_framework.Log.Graph.{
  IGraph, calls, vertex_of, server_name, function_name, add_span, Walk, done, find_span,
  walk_children, graph_trace_function, graph_trace_server,
}
use tars_framework.Log.Graph.Counts.{
  vertex_calls, edge_calls, vertex_calls-insert, edge_calls-insert,
}

-- No call leads back: the rank falls from a span to its children.
abbrev pub Falls : (String → ℕ) → List ISpan → Type 0
Falls rank = All (λ s. All (λ c. rank c < rank s.span) s.children)

-- The spans that a call leads to, each before its children.
unfoldable pub visit_all : (String → List ISpan) → List String → List ISpan
visit_all visit [] = []
visit_all visit (c ∷ cs) = visit c ++ visit_all visit cs

unfoldable pub visits : ℕ → List ISpan → String → List ISpan
visits zero spans name = []
visits (suc fuel) spans name = elim (find_span name spans) [
  | none ↦ []
  | some s ↦ s ∷ visit_all (visits fuel spans) s.children
]

-- How many of the spans have both times of the server, under a name.
abbrev pub served_calls : (ISpan → String) → String → List ISpan → ℕ
served_calls name_of name [] = 0
served_calls name_of name (s ∷ ss) =
    (if str_eq (name_of s) name then calls s.sr_time s.ss_time else 0)
    + served_calls name_of name ss

-- How many have both times of the client.
abbrev pub client_calls : List ISpan → ℕ
client_calls [] = 0
client_calls (s ∷ ss) = calls s.cs_time s.cr_time + client_calls ss

served_calls-append :
    (name_of : ISpan → String) (name : String) (ss us : List ISpan)
    → served_calls name_of name (ss ++ us)
      ≡ served_calls name_of name ss + served_calls name_of name us
served_calls-append name_of name [] us = omega arith
served_calls-append name_of name (s ∷ ss) us = omega (arith, served_calls-append name_of name ss us)

client_calls-append :
    (ss us : List ISpan) → client_calls (ss ++ us) ≡ client_calls ss + client_calls us
client_calls-append [] us = omega arith
client_calls-append (s ∷ ss) us = omega (arith, client_calls-append ss us)

-- The graph `h` has what `g` has, and the calls of the spans.
pub record Counted (name_of : ISpan → String) (g h : IGraph) (ss : List ISpan) : Type 0 where
  pub vertex_counts :
      (name : String)
      → vertex_calls name h.vertexes ≡ vertex_calls name g.vertexes + served_calls name_of name ss
  pub edge_counts : edge_calls h.edges ≡ edge_calls g.edges + client_calls ss

found :
    (name : String) (spans : List ISpan)
    → has_span name spans ≡ true
    → (s : ISpan) × (find_span name spans ≡ some s) × (s.span ≡ name)
unfolding find_span
found name [] h = absurd cc
found name (s ∷ spans) h = elim (Bool-cases (str_eq s.span name)) [
  | inl e ↦ (s, rw (find_span, e) refl, (eq_iff s.span name).0 e)
  | inr e ↦
      let later = found name spans (ground arith) in (later.0, rw (find_span, e) later.1, later.2)
]

-- What holds of all spans holds of one that is found.
All-find {κ} :
    (P : ISpan → Type κ) (name : String) (spans : List ISpan) (s : ISpan)
    → find_span name spans ≡ some s
    → All P spans
    → P s
unfolding find_span
All-find P name [] s e a = absurd cc
All-find P name (u ∷ spans) s e a = elim (Bool-cases (str_eq u.span name)) [
  | inl h ↦ (let same : u ≡ s = cc (rw (find_span, h) at e) in rw (sym same) a.0)
  | inr h ↦ All-find P name spans s (rw (find_span, h) at e) a.1
]

-- One span is added.
add_span-Counted :
    (name_of : ISpan → String) (parent : String) (order : ℕ) (s : ISpan) (g : IGraph)
    → Counted name_of g (add_span parent (name_of s) order s g) (s ∷ [])
unfolding add_span
add_span-Counted name_of parent order s g = record {
  vertex_counts = λ n.
      omega (arith, vertex_calls-insert n (vertex_of (name_of s) s.sr_time s.ss_time) g.vertexes);
  edge_counts = edge_calls-insert _ g.edges ∙ omega arith;
}

Counted-append :
    (name_of : ISpan → String) (f g h : IGraph) (ss us : List ISpan)
    → Counted name_of f g ss
    → Counted name_of g h us
    → Counted name_of f h (ss ++ us)
Counted-append name_of f g h ss us a b = record {
  vertex_counts =
      λ n. omega (arith, a.vertex_counts n, b.vertex_counts n, served_calls-append name_of n ss us);
  edge_counts = omega (arith, a.edge_counts, b.edge_counts, client_calls-append ss us);
}

Counted-none : (name_of : ISpan → String) (g : IGraph) → Counted name_of g g []
Counted-none name_of g = record { vertex_counts = λ n. omega arith; edge_counts = omega arith }

-- A walk that ends with a graph, and counts the spans.
abbrev pub Ends : (ISpan → String) → Walk → IGraph → List ISpan → Type 0
Ends name_of w g ss = (h : IGraph) × (w ≡ done h) × Counted name_of g h ss

children_end :
    (name_of : ISpan → String) (walk : String → IGraph → Walk) (visit : String → List ISpan)
    (cs : List String) (g : IGraph)
    → All (λ c. (g : IGraph) → Ends name_of (walk c g) g (visit c)) cs
    → Ends name_of (walk_children walk cs g) g (visit_all visit cs)
unfolding walk_children visit_all
children_end name_of walk visit [] g a = (g, refl, Counted-none name_of g)
children_end name_of walk visit (c ∷ cs) g a =
    let first = a.0 g in
    let rest = children_end name_of walk visit cs first.0 a.1 in
    (
      rest.0,
      rw (walk_children, first.1) rest.1,
      Counted-append name_of g first.0 rest.0 (visit c) (visit_all visit cs) first.2 rest.2,
    )

-- Each child has a property that follows from its rank.
ranked {κ} :
    (P : String → Type κ) (rank : String → ℕ) (spans : List ISpan) (n : ℕ) (cs : List String)
    → ((c : String) → has_span c spans ≡ true → rank c < n → P c)
    → HasSpans spans cs
    → All (λ c. rank c < n) cs
    → All P cs
ranked P rank spans n [] f h r = tt
ranked P rank spans n (c ∷ cs) f h r = (f c h.0 r.0, ranked P rank spans n cs f h.1 r.1)

module _ (t : ITrace) (rank : String → ℕ) (closed : HasChildren t.spans t.spans)
    (falls : Falls rank t.spans) where
  pub function_end :
      (fuel order : ℕ) (parent span : String) (g : IGraph)
      → has_span span t.spans ≡ true
      → rank span < fuel
      → Ends function_name
          (graph_trace_function fuel t order parent span g)
          g
          (visits fuel t.spans span)
  unfolding graph_trace_function visits
  function_end zero order parent span g h r = absurd (omega arith)
  function_end (suc fuel) order parent span g h r =
      let f = found span t.spans h in
      let s = f.0 in
      let kids = All-find (λ s. HasSpans t.spans s.children) span t.spans s f.1 closed in
      let lower =
        All-find (λ s. All (λ c. rank c < rank s.span) s.children) span t.spans s f.1 falls in
      let next = add_span parent (function_name s) order s g in
      let rest =
        children_end function_name (graph_trace_function fuel t (order + 1) (function_name s))
          (visits fuel t.spans) s.children next
          (ranked
            (λ c.
              (g : IGraph)
              → Ends function_name (graph_trace_function fuel t (order + 1) (function_name s) c g) g
                  (visits fuel t.spans c))
            rank t.spans (rank s.span) s.children
            (λ c k l g.
              function_end fuel (order + 1) (function_name s) c g k (omega (arith, ap rank f.2)))
            kids lower) in
      (
        rest.0,
        rw (graph_trace_function, f.1) rest.1,
        rw (visits, f.1)
            (Counted-append function_name g next rest.0 (s ∷ [])
              (visit_all (visits fuel t.spans) s.children)
              (add_span-Counted function_name parent order s g) rest.2),
      )

  pub server_end :
      (fuel : ℕ) (parent span : String) (g : IGraph)
      → has_span span t.spans ≡ true
      → rank span < fuel
      → Ends server_name (graph_trace_server fuel t parent span g) g (visits fuel t.spans span)
  unfolding graph_trace_server visits
  server_end zero parent span g h r = absurd (omega arith)
  server_end (suc fuel) parent span g h r =
      let f = found span t.spans h in
      let s = f.0 in
      let kids = All-find (λ s. HasSpans t.spans s.children) span t.spans s f.1 closed in
      let lower =
        All-find (λ s. All (λ c. rank c < rank s.span) s.children) span t.spans s f.1 falls in
      let next = add_span parent (server_name s) 0 s g in
      let rest =
        children_end server_name (graph_trace_server fuel t (server_name s)) (visits fuel t.spans)
          s.children next
          (ranked
            (λ c.
              (g : IGraph)
              → Ends server_name (graph_trace_server fuel t (server_name s) c g) g
                  (visits fuel t.spans c))
            rank t.spans (rank s.span) s.children
            (λ c k l g. server_end fuel (server_name s) c g k (omega (arith, ap rank f.2))) kids
            lower) in
      (
        rest.0,
        rw (graph_trace_server, f.1) rest.1,
        rw (visits, f.1)
            (Counted-append server_name g next rest.0 (s ∷ [])
              (visit_all (visits fuel t.spans) s.children)
              (add_span-Counted server_name parent 0 s g) rest.2),
      )
