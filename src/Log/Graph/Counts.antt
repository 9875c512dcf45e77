-- ===== src/Log/Graph/Counts.antt =====
-- What a graph of LogServer/LogAggregation.cpp tells: which vertexes and edges there are, how often each
-- was called, and for how long.
use tars_framework.Base.{
  ℕ, ◌+◌, Bool, true, false, ◌&&◌, ◌||◌, ◌≡◌, refl, sym, ap, ◌∙◌, List, [], ◌∷◌, String, str_eq,
  string_key, eq_iff, if◌then◌else◌, ◌==◌, ==_iff, arith, Bool-cases, inl, inr,
}
use tars_framework.Base.Int.{ℤ, pos, ◌+ℤ◌, +ℤ_assoc, zero-add_ℤ, +ℤ_left_comm}
use tars_framework.Log.Graph.{
  IVertex, IEdge, insert_i_vertex, is_same_edge, insert_i_edge, insert_vertexes, insert_edges,
}

pub or_swap : (a b c : Bool) → a || (b || c) ≡ b || (a || c)
or_swap true true c = refl
or_swap true false c = refl
or_swap false true c = refl
or_swap false false c = refl

or_middle : (a b c : Bool) → a || (b || c) ≡ (b || a) || c
or_middle true true c = refl
or_middle true false c = refl
or_middle false true c = refl
or_middle false false c = refl

abbrev pub vertex_calls : String → List IVertex → ℕ
vertex_calls name [] = 0
vertex_calls name (v ∷ vs) =
    (if str_eq v.vertex name then v.call_count else 0) + vertex_calls name vs

abbrev pub vertex_time : String → List IVertex → ℤ
vertex_time name [] = pos 0
vertex_time name (v ∷ vs) =
    (if str_eq v.vertex name then v.call_time else pos 0) +ℤ vertex_time name vs

abbrev pub edge_calls : List IEdge → ℕ
edge_calls [] = 0
edge_calls (e ∷ es) = e.call_count + edge_calls es

pub vertex_calls-insert :
    (name : String) (v : IVertex) (ws : List IVertex)
    → vertex_calls name (insert_i_vertex v ws) ≡ vertex_calls name (v ∷ ws)
unfolding insert_i_vertex
vertex_calls-insert name v [] = refl
vertex_calls-insert name v (w ∷ ws) =
    ground (arith, eq_iff w.vertex v.vertex, vertex_calls-insert name v ws)

time_split :
    (b : Bool) (x y z : ℤ)
    → (if b then x +ℤ y else pos 0) +ℤ z
      ≡ (if b then y else pos 0) +ℤ ((if b then x else pos 0) +ℤ z)
time_split true x y z = +ℤ_assoc x y z ∙ +ℤ_left_comm x y z
time_split false x y z = sym (ap (λ t. pos 0 +ℤ t) (zero-add_ℤ z))

pub vertex_time-insert :
    (name : String) (v : IVertex) (ws : List IVertex)
    → vertex_time name (insert_i_vertex v ws) ≡ vertex_time name (v ∷ ws)
unfolding insert_i_vertex
vertex_time-insert name v [] = refl
vertex_time-insert name v (w ∷ ws) = elim (Bool-cases (str_eq w.vertex v.vertex)) [
  | inl e ↦
      let same : w.vertex ≡ v.vertex = (eq_iff w.vertex v.vertex).0 e in
      rw (insert_i_vertex, e, sym same)
        (time_split (str_eq w.vertex name) w.call_time v.call_time (vertex_time name ws))
  | inr e ↦
      rw (insert_i_vertex, e, vertex_time-insert name v ws)
        (+ℤ_left_comm (if str_eq w.vertex name then w.call_time else pos 0)
          (if str_eq v.vertex name then v.call_time else pos 0) (vertex_time name ws))
]

pub edge_calls-insert :
    (e : IEdge) (ds : List IEdge) → edge_calls (insert_i_edge e ds) ≡ e.call_count + edge_calls ds
unfolding insert_i_edge
edge_calls-insert e [] = refl
edge_calls-insert e (d ∷ ds) = ground (arith, edge_calls-insert e ds)

pub vertex_calls-merge :
    (name : String) (vs ws : List IVertex)
    → vertex_calls name (insert_vertexes vs ws) ≡ vertex_calls name vs + vertex_calls name ws
unfolding insert_vertexes
vertex_calls-merge name [] ws = omega arith
vertex_calls-merge name (v ∷ vs) ws =
    omega (arith, vertex_calls-merge name vs (insert_i_vertex v ws), vertex_calls-insert name v ws)

pub vertex_time-merge :
    (name : String) (vs ws : List IVertex)
    → vertex_time name (insert_vertexes vs ws) ≡ vertex_time name vs +ℤ vertex_time name ws
unfolding insert_vertexes
vertex_time-merge name [] ws = sym (zero-add_ℤ (vertex_time name ws))
vertex_time-merge name (v ∷ vs) ws =
    let x = if str_eq v.vertex name then v.call_time else pos 0 in
    vertex_time-merge name vs (insert_i_vertex v ws)
    ∙ ap (λ t. vertex_time name vs +ℤ t) (vertex_time-insert name v ws)
    ∙ +ℤ_left_comm (vertex_time name vs) x (vertex_time name ws)
    ∙ sym (+ℤ_assoc x (vertex_time name vs) (vertex_time name ws))

edge_calls-merge :
    (es ds : List IEdge) → edge_calls (insert_edges es ds) ≡ edge_calls es + edge_calls ds
unfolding insert_edges
edge_calls-merge [] ds = omega arith
edge_calls-merge (e ∷ es) ds =
    omega (arith, edge_calls-merge es (insert_i_edge e ds), edge_calls-insert e ds)

-- The calls of the edges that are the same as `k`.
abbrev pub calls_of_edge : IEdge → List IEdge → ℕ
calls_of_edge k [] = 0
calls_of_edge k (e ∷ es) = (if is_same_edge e k then e.call_count else 0) + calls_of_edge k es

same_key : (d e k : IEdge) → is_same_edge d e ≡ true → is_same_edge d k ≡ is_same_edge e k
same_key d e k h =
    let from : d.from_vertex ≡ e.from_vertex = ground (arith, eq_iff d.from_vertex e.from_vertex) in
    let to : d.to_vertex ≡ e.to_vertex = ground (arith, eq_iff d.to_vertex e.to_vertex) in
    let order : d.order ≡ e.order = ground (arith, ==_iff d.order e.order) in
    ap (λ x. str_eq x k.from_vertex && str_eq d.to_vertex k.to_vertex && (d.order == k.order)) from
    ∙ ap (λ x. str_eq e.from_vertex k.from_vertex && str_eq x k.to_vertex && (d.order == k.order))
        to
    ∙ ap
        (λ x.
          str_eq e.from_vertex k.from_vertex && str_eq e.to_vertex k.to_vertex && (x == k.order))
        order

calls_of_edge-insert :
    (k e : IEdge) (ds : List IEdge)
    → calls_of_edge k (insert_i_edge e ds) ≡ calls_of_edge k (e ∷ ds)
unfolding insert_i_edge
calls_of_edge-insert k e [] = refl
calls_of_edge-insert k e (d ∷ ds) = elim (Bool-cases (is_same_edge d e)) [
  | inl h ↦
      rw (insert_i_edge, h, sym (same_key d e k h))
        (both (is_same_edge d k) d.call_count e.call_count (calls_of_edge k ds))
  | inr h ↦
      rw (insert_i_edge, h, calls_of_edge-insert k e ds)
        (swap (if is_same_edge d k then d.call_count else 0)
          (if is_same_edge e k then e.call_count else 0) (calls_of_edge k ds))
]
  where
    both :
        (b : Bool) (x y z : ℕ)
        → (if b then x + y else 0) + z ≡ (if b then y else 0) + ((if b then x else 0) + z)
    both true x y z = omega arith
    both false x y z = omega arith

    swap : (x y z : ℕ) → x + (y + z) ≡ y + (x + z)
    swap x y z = omega arith

pub calls_of_edge-merge :
    (k : IEdge) (es ds : List IEdge)
    → calls_of_edge k (insert_edges es ds) ≡ calls_of_edge k es + calls_of_edge k ds
unfolding insert_edges
calls_of_edge-merge k [] ds = omega arith
calls_of_edge-merge k (e ∷ es) ds =
    omega (arith, calls_of_edge-merge k es (insert_i_edge e ds), calls_of_edge-insert k e ds)

-- Their time.
abbrev pub time_of_edge : IEdge → List IEdge → ℤ
time_of_edge k [] = pos 0
time_of_edge k (e ∷ es) = (if is_same_edge e k then e.call_time else pos 0) +ℤ time_of_edge k es

time_of_edge-insert :
    (k e : IEdge) (ds : List IEdge) → time_of_edge k (insert_i_edge e ds) ≡ time_of_edge k (e ∷ ds)
unfolding insert_i_edge
time_of_edge-insert k e [] = refl
time_of_edge-insert k e (d ∷ ds) = elim (Bool-cases (is_same_edge d e)) [
  | inl h ↦
      rw (insert_i_edge, h, sym (same_key d e k h))
        (time_split (is_same_edge d k) d.call_time e.call_time (time_of_edge k ds))
  | inr h ↦
      rw (insert_i_edge, h, time_of_edge-insert k e ds)
        (+ℤ_left_comm (if is_same_edge d k then d.call_time else pos 0)
          (if is_same_edge e k then e.call_time else pos 0) (time_of_edge k ds))
]

pub time_of_edge-merge :
    (k : IEdge) (es ds : List IEdge)
    → time_of_edge k (insert_edges es ds) ≡ time_of_edge k es +ℤ time_of_edge k ds
unfolding insert_edges
time_of_edge-merge k [] ds = sym (zero-add_ℤ (time_of_edge k ds))
time_of_edge-merge k (e ∷ es) ds =
    let x = if is_same_edge e k then e.call_time else pos 0 in
    time_of_edge-merge k es (insert_i_edge e ds)
    ∙ ap (λ t. time_of_edge k es +ℤ t) (time_of_edge-insert k e ds)
    ∙ +ℤ_left_comm (time_of_edge k es) x (time_of_edge k ds)
    ∙ sym (+ℤ_assoc x (time_of_edge k es) (time_of_edge k ds))

-- Whether there is a vertex of a name, and whether there is an edge that is the same as `k`.
abbrev pub has_vertex : String → List IVertex → Bool
has_vertex name [] = false
has_vertex name (v ∷ vs) = str_eq v.vertex name || has_vertex name vs

abbrev pub has_edge : IEdge → List IEdge → Bool
has_edge k [] = false
has_edge k (e ∷ es) = is_same_edge e k || has_edge k es

has_vertex-insert :
    (name : String) (v : IVertex) (ws : List IVertex)
    → has_vertex name (insert_i_vertex v ws) ≡ has_vertex name (v ∷ ws)
unfolding insert_i_vertex
has_vertex-insert name v [] = refl
has_vertex-insert name v (w ∷ ws) =
    ground (arith, eq_iff w.vertex v.vertex, has_vertex-insert name v ws)

has_edge-insert :
    (k e : IEdge) (ds : List IEdge) → has_edge k (insert_i_edge e ds) ≡ has_edge k (e ∷ ds)
unfolding insert_i_edge
has_edge-insert k e [] = refl
has_edge-insert k e (d ∷ ds) = elim (Bool-cases (is_same_edge d e)) [
  | inl h ↦
      rw (insert_i_edge, h, sym (same_key d e k h)) (or_twice (is_same_edge d k) (has_edge k ds))
  | inr h ↦
      rw (insert_i_edge, h, has_edge-insert k e ds)
        (or_swap (is_same_edge d k) (is_same_edge e k) (has_edge k ds))
]
  where
    or_twice : (a b : Bool) → a || b ≡ a || (a || b)
    or_twice true b = refl
    or_twice false b = refl

pub has_vertex-merge :
    (name : String) (vs ws : List IVertex)
    → has_vertex name (insert_vertexes vs ws) ≡ has_vertex name vs || has_vertex name ws
unfolding insert_vertexes
has_vertex-merge name [] ws = refl
has_vertex-merge name (v ∷ vs) ws =
    has_vertex-merge name vs (insert_i_vertex v ws)
    ∙ ap (λ b. has_vertex name vs || b) (has_vertex-insert name v ws)
    ∙ or_middle (has_vertex name vs) (str_eq v.vertex name) (has_vertex name ws)

pub has_edge-merge :
    (k : IEdge) (es ds : List IEdge)
    → has_edge k (insert_edges es ds) ≡ has_edge k es || has_edge k ds
unfolding insert_edges
has_edge-merge k [] ds = refl
has_edge-merge k (e ∷ es) ds =
    has_edge-merge k es (insert_i_edge e ds)
    ∙ ap (λ b. has_edge k es || b) (has_edge-insert k e ds)
    ∙ or_middle (has_edge k es) (is_same_edge e k) (has_edge k ds)
