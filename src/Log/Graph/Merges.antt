-- ===== src/Log/Graph/Merges.antt =====
-- The graphs of traces, merged by `mergerIGraph` of LogServer/LogAggregation.cpp in any order.
use mathlib.Core.List.{Permᴰ}
use mathlib.Core.Quot
use mathlib.Core.Quot.{Quot}
use tars_framework.Base.{
  ℕ, ◌+◌, ◌||◌, ◌≡◌, refl, sym, ap, ◌∙◌, List, [], ◌∷◌, String, string_key, arith,
}
use tars_framework.Base.Int.{ℤ, pos, ◌+ℤ◌, add-zero_ℤ, int_laws, +ℤ_left_comm}
use tars_framework.Log.Trace.{assign_if_empty}
use tars_framework.Log.Graph.{IEdge, IGraph, insert_vertexes, insert_edges, merger_i_graph}
use tars_framework.Log.Graph.Counts.{
  or_swap, vertex_calls, vertex_time, vertex_calls-merge, vertex_time-merge, calls_of_edge,
  calls_of_edge-merge, time_of_edge, time_of_edge-merge, has_vertex, has_edge, has_vertex-merge,
  has_edge-merge,
}

-- Two graphs tell the same: their type, which vertexes and edges there are, the calls of each of
-- them, and their time.
pub record TellsSame (g h : IGraph) : Type 0 where
  pub same_calls : (name : String) → vertex_calls name g.vertexes ≡ vertex_calls name h.vertexes
  pub same_time : (name : String) → vertex_time name g.vertexes ≡ vertex_time name h.vertexes
  pub same_type : g.type ≡ h.type
  pub same_vertexes : (name : String) → has_vertex name g.vertexes ≡ has_vertex name h.vertexes
  pub same_keys : (k : IEdge) → has_edge k g.edges ≡ has_edge k h.edges
  pub same_edge_time : (k : IEdge) → time_of_edge k g.edges ≡ time_of_edge k h.edges
  pub same_edges : (k : IEdge) → calls_of_edge k g.edges ≡ calls_of_edge k h.edges

-- A graph as one reads it, whatever the order of its lists.
abbrev pub Told : Type 0
Told = Quot TellsSame

unfoldable pub merge_all : List IGraph → String → IGraph → IGraph
merge_all [] type g = g
merge_all (f ∷ fs) type g = merge_all fs type (merger_i_graph f type g)

TellsSame-merge :
    (f : IGraph) (type : String) (g h : IGraph)
    → TellsSame g h
    → TellsSame (merger_i_graph f type g) (merger_i_graph f type h)
unfolding merger_i_graph
TellsSame-merge f type g h s = record {
  same_calls = λ n. omega (
    arith,
    vertex_calls-merge n f.vertexes g.vertexes,
    vertex_calls-merge n f.vertexes h.vertexes,
    s.same_calls n,
  );
  same_type = ap (λ t. assign_if_empty t type) s.same_type;
  same_vertexes = λ n.
      has_vertex-merge n f.vertexes g.vertexes
      ∙ ap (λ b. has_vertex n f.vertexes || b) (s.same_vertexes n)
      ∙ sym (has_vertex-merge n f.vertexes h.vertexes);
  same_keys = λ k.
      has_edge-merge k f.edges g.edges
      ∙ ap (λ b. has_edge k f.edges || b) (s.same_keys k)
      ∙ sym (has_edge-merge k f.edges h.edges);
  same_edge_time = λ k.
      time_of_edge-merge k f.edges g.edges
      ∙ ap (λ t. time_of_edge k f.edges +ℤ t) (s.same_edge_time k)
      ∙ sym (time_of_edge-merge k f.edges h.edges);
  same_time = λ n.
      vertex_time-merge n f.vertexes g.vertexes
      ∙ ap (λ t. vertex_time n f.vertexes +ℤ t) (s.same_time n)
      ∙ sym (vertex_time-merge n f.vertexes h.vertexes);
  same_edges = λ k. omega (
    arith,
    calls_of_edge-merge k f.edges g.edges,
    calls_of_edge-merge k f.edges h.edges,
    s.same_edges k,
  );
}

TellsSame-swap :
    (e f : IGraph) (type : String) (g : IGraph)
    → TellsSame
        (merger_i_graph f type (merger_i_graph e type g))
        (merger_i_graph e type (merger_i_graph f type g))
unfolding merger_i_graph
TellsSame-swap e f type g = record {
  same_calls = λ n. omega (
    arith,
    vertex_calls-merge n f.vertexes (insert_vertexes e.vertexes g.vertexes),
    vertex_calls-merge n e.vertexes (insert_vertexes f.vertexes g.vertexes),
    vertex_calls-merge n e.vertexes g.vertexes,
    vertex_calls-merge n f.vertexes g.vertexes,
  );
  same_type = refl;
  same_vertexes = λ n.
      has_vertex-merge n f.vertexes (insert_vertexes e.vertexes g.vertexes)
      ∙ ap (λ b. has_vertex n f.vertexes || b) (has_vertex-merge n e.vertexes g.vertexes)
      ∙ or_swap (has_vertex n f.vertexes) (has_vertex n e.vertexes) (has_vertex n g.vertexes)
      ∙ ap (λ b. has_vertex n e.vertexes || b) (sym (has_vertex-merge n f.vertexes g.vertexes))
      ∙ sym (has_vertex-merge n e.vertexes (insert_vertexes f.vertexes g.vertexes));
  same_keys = λ k.
      has_edge-merge k f.edges (insert_edges e.edges g.edges)
      ∙ ap (λ b. has_edge k f.edges || b) (has_edge-merge k e.edges g.edges)
      ∙ or_swap (has_edge k f.edges) (has_edge k e.edges) (has_edge k g.edges)
      ∙ ap (λ b. has_edge k e.edges || b) (sym (has_edge-merge k f.edges g.edges))
      ∙ sym (has_edge-merge k e.edges (insert_edges f.edges g.edges));
  same_edge_time = λ k.
      time_of_edge-merge k f.edges (insert_edges e.edges g.edges)
      ∙ ap (λ t. time_of_edge k f.edges +ℤ t) (time_of_edge-merge k e.edges g.edges)
      ∙ +ℤ_left_comm (time_of_edge k f.edges) (time_of_edge k e.edges) (time_of_edge k g.edges)
      ∙ ap (λ t. time_of_edge k e.edges +ℤ t) (sym (time_of_edge-merge k f.edges g.edges))
      ∙ sym (time_of_edge-merge k e.edges (insert_edges f.edges g.edges));
  same_time = λ n.
      vertex_time-merge n f.vertexes (insert_vertexes e.vertexes g.vertexes)
      ∙ ap (λ t. vertex_time n f.vertexes +ℤ t) (vertex_time-merge n e.vertexes g.vertexes)
      ∙ +ℤ_left_comm (vertex_time n f.vertexes) (vertex_time n e.vertexes)
          (vertex_time n g.vertexes)
      ∙ ap (λ t. vertex_time n e.vertexes +ℤ t) (sym (vertex_time-merge n f.vertexes g.vertexes))
      ∙ sym (vertex_time-merge n e.vertexes (insert_vertexes f.vertexes g.vertexes));
  same_edges = λ k. omega (
    arith,
    calls_of_edge-merge k f.edges (insert_edges e.edges g.edges),
    calls_of_edge-merge k e.edges (insert_edges f.edges g.edges),
    calls_of_edge-merge k e.edges g.edges,
    calls_of_edge-merge k f.edges g.edges,
  );
}

TellsSame-merge_all :
    (fs : List IGraph) (type : String) (g h : IGraph)
    → TellsSame g h
    → TellsSame (merge_all fs type g) (merge_all fs type h)
unfolding merge_all
TellsSame-merge_all [] type g h s = s
TellsSame-merge_all (f ∷ fs) type g h s =
    TellsSame-merge_all fs type (merger_i_graph f type g) (merger_i_graph f type h)
      (TellsSame-merge f type g h s)

-- The sum over some graphs.
abbrev pub sum_calls : (IGraph → ℕ) → List IGraph → ℕ
sum_calls f [] = 0
sum_calls f (g ∷ gs) = f g + sum_calls f gs

abbrev pub sum_time : (IGraph → ℤ) → List IGraph → ℤ
sum_time f [] = pos 0
sum_time f (g ∷ gs) = f g +ℤ sum_time f gs

-- A graph has the calls and the time of `g` and of all the graphs `fs`, for each vertex and edge.
pub record HasTotals (fs : List IGraph) (g r : IGraph) : Type 0 where
  pub vertexes_called :
      (name : String)
      → vertex_calls name r.vertexes
        ≡ vertex_calls name g.vertexes + sum_calls (λ f. vertex_calls name f.vertexes) fs
  pub vertexes_timed :
      (name : String)
      → vertex_time name r.vertexes
        ≡ vertex_time name g.vertexes +ℤ sum_time (λ f. vertex_time name f.vertexes) fs
  pub edges_called :
      (k : IEdge)
      → calls_of_edge k r.edges
        ≡ calls_of_edge k g.edges + sum_calls (λ f. calls_of_edge k f.edges) fs
  pub edges_timed :
      (k : IEdge)
      → time_of_edge k r.edges ≡ time_of_edge k g.edges +ℤ sum_time (λ f. time_of_edge k f.edges) fs

time_shift : (a b c : ℤ) → (a +ℤ b) +ℤ c ≡ b +ℤ (a +ℤ c)
time_shift a b c = omega int_laws

merge_all-HasTotals :
    (fs : List IGraph) (type : String) (g : IGraph) → HasTotals fs g (merge_all fs type g)
unfolding merge_all merger_i_graph
merge_all-HasTotals [] type g = record {
  vertexes_called = λ n. omega arith;
  vertexes_timed = λ n. sym (add-zero_ℤ (vertex_time n g.vertexes));
  edges_called = λ k. omega arith;
  edges_timed = λ k. sym (add-zero_ℤ (time_of_edge k g.edges));
}
merge_all-HasTotals (f ∷ fs) type g =
    let rest = merge_all-HasTotals fs type (merger_i_graph f type g) in
    record {
      vertexes_called =
          λ n. omega (arith, rest.vertexes_called n, vertex_calls-merge n f.vertexes g.vertexes);
      vertexes_timed = λ n.
          let sums = sum_time (λ f. vertex_time n f.vertexes) fs in
          rest.vertexes_timed n
          ∙ ap (λ t. t +ℤ sums) (vertex_time-merge n f.vertexes g.vertexes)
          ∙ time_shift (vertex_time n f.vertexes) (vertex_time n g.vertexes) sums;
      edges_called = λ k. omega (arith, rest.edges_called k, calls_of_edge-merge k f.edges g.edges);
      edges_timed = λ k.
          let sums = sum_time (λ f. time_of_edge k f.edges) fs in
          rest.edges_timed k
          ∙ ap (λ t. t +ℤ sums) (time_of_edge-merge k f.edges g.edges)
          ∙ time_shift (time_of_edge k f.edges) (time_of_edge k g.edges) sums;
    }

told_any_merge :
    (fs hs : List IGraph) (type : String) (g : IGraph)
    → Permᴰ fs hs
    → ◌≡◌ {A = Told} (Quot.mk (merge_all fs type g)) (Quot.mk (merge_all hs type g))
unfolding merge_all
told_any_merge _ _ type g Permᴰ.nil = refl
told_any_merge _ _ type g (Permᴰ.cons {b = b} e p) =
    rw e (told_any_merge _ _ type (merger_i_graph b type g) p)
told_any_merge _ _ type g (Permᴰ.swap {a' = a'} {b' = b'} {l = l} e f) =
    rw (e, f) (Quot.sound (TellsSame-merge_all l type _ _ (TellsSame-swap b' a' type g)))
told_any_merge _ _ type g (Permᴰ.trans p q) =
    told_any_merge _ _ type g p ∙ told_any_merge _ _ type g q

-- The graphs of traces tell the same when they are merged, in whatever order the traces come: the
-- type, which vertexes and edges there are, and the calls and the time of each of them, which are the
-- sums of those of all the graphs.
pub merge_all_any_order :
    (fs hs : List IGraph) (type : String) (g : IGraph)
    → Permᴰ fs hs
    → (◌≡◌ {A = Told} (Quot.mk (merge_all fs type g)) (Quot.mk (merge_all hs type g)))
      × HasTotals fs g (merge_all fs type g)
merge_all_any_order fs hs type g p = (told_any_merge fs hs type g p, merge_all-HasTotals fs type g)
