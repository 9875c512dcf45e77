-- ===== src/Log/Aggregation/Snapshots.antt =====
-- `LogAggregation::dump` and `restore` (LogServer/LogAggregation.cpp).
use mathlib.Core.Option
use tars_framework.Base.{
  ℕ, true, false, ◌≡◌, refl, sym, ap, ◌∙◌, Option, none, some, [], ◌∷◌, String, str_eq, string_key,
  eq_iff, arith,
}
use tars_framework.Base.Map.{
  Map, find, insert, or_else, find-insert, HasUniqueKeys, insert-HasUniqueKeys, insert_all,
  find-insert_all,
}
use tars_framework.Log.Trace.{ITrace}
use tars_framework.Log.Graph.{IGraph}
use tars_framework.Log.Aggregation.{
  ITraceOperator, LogAggregation, Snapshot, dump_graphs, dump_traces, dump, restore_traces,
  restore_graphs, restore,
}

module _ {V W : Type 0} where
  -- No key of the one is a key of the other.
  abbrev AreApart : Map String V → Map String W → Type 0
  AreApart [] m = Unit
  AreApart ((a, v) ∷ n) m = (find a m ≡ none) × AreApart n m

  apart_insert :
      (a : String) (w : W) (n : Map String V) (m : Map String W)
      → find a n ≡ none
      → AreApart n m
      → AreApart n (insert a w m)
  unfolding find
  apart_insert a w [] m f p = tt
  apart_insert a w ((b, v) ∷ n) m f p =
      let other : str_eq a b ≡ false = ground (arith, eq_iff a b, eq_iff b a) in
      (rw (find-insert a b w m, other) p.0, apart_insert a w n m (ground arith) p.1)

  apart_empty : (n : Map String V) (m : Map String W) → m ≡ [] → AreApart n m
  unfolding find
  apart_empty [] m e = tt
  apart_empty ((a, v) ∷ n) m e = (rw e refl, apart_empty n m e)

  abbrev map_values : (V → W) → Map String V → Map String W
  map_values f [] = []
  map_values f ((a, v) ∷ m) = (a, f v) ∷ map_values f m

  find-map_values :
      (f : V → W) (a : String) (m : Map String V)
      → find a (map_values f m) ≡ Option.map f (find a m)
  unfolding find
  find-map_values f a [] = refl
  find-map_values f a ((b, v) ∷ m) = ground (arith, find-map_values f a m)

  map_values-HasUniqueKeys :
      (f : V → W) (m : Map String V) → HasUniqueKeys m → HasUniqueKeys (map_values f m)
  map_values-HasUniqueKeys f [] u = tt
  map_values-HasUniqueKeys f ((a, v) ∷ m) u =
      (rw (find-map_values f a m, u.0) refl, map_values-HasUniqueKeys f m u.1)

insert_all-HasUniqueKeys :
    {V : Type 0} (n m : Map String V)
    → HasUniqueKeys n
    → AreApart n m
    → HasUniqueKeys m
    → HasUniqueKeys (insert_all n m)
unfolding insert_all
insert_all-HasUniqueKeys [] m u p v = v
insert_all-HasUniqueKeys ((a, w) ∷ n) m u p v =
    insert_all-HasUniqueKeys n (insert a w m) u.1 (apart_insert a w n m u.0 p.1)
      (insert-HasUniqueKeys a w m p.0 v)

-- What is put into an empty map is what is found there.
find-insert_all_empty :
    {V : Type 0} (a : String) (n : Map String V)
    → HasUniqueKeys n
    → find a (insert_all n []) ≡ find a n
unfolding find
find-insert_all_empty a n u = find-insert_all a n [] u ∙ sym (or_else-none (find a n))
  where
    or_else-none : {A : Type 0} (o : Option A) → o ≡ or_else o none
    or_else-none none = refl
    or_else-none (some v) = refl

dump_graphs_lem : (m n : Map String IGraph) → dump_graphs m n ≡ insert_all m n
unfolding dump_graphs insert_all
dump_graphs_lem [] n = refl
dump_graphs_lem ((id, g) ∷ m) n = dump_graphs_lem m (insert id g n)

dump_traces_lem :
    (m : Map String ITraceOperator) (n : Map String ITrace)
    → dump_traces m n ≡ insert_all (map_values (λ op. op.itrace) m) n
unfolding dump_traces insert_all
dump_traces_lem [] n = refl
dump_traces_lem ((name, op) ∷ m) n = dump_traces_lem m (insert name op.itrace n)

-- A trace that waits from a time on.
abbrev pub waiting_from : ℕ → ITrace → ITraceOperator
waiting_from now t = record { update_time = now; itrace = t }

restore_traces_lem :
    (now : ℕ) (ts : Map String ITrace) (a : LogAggregation)
    → (restore_traces now ts a).itrace_operators
      ≡ insert_all (map_values (waiting_from now) ts) a.itrace_operators
unfolding restore_traces insert_all
restore_traces_lem now [] a = refl
restore_traces_lem now ((name, t) ∷ ts) a = restore_traces_lem now ts _

restore_graphs_lem :
    (gs : Map String IGraph) (a : LogAggregation)
    → ((restore_graphs gs a).igraph_operators ≡ insert_all gs a.igraph_operators)
      × ((restore_graphs gs a).itrace_operators ≡ a.itrace_operators)
unfolding restore_graphs insert_all
restore_graphs_lem [] a = (refl, refl)
restore_graphs_lem ((id, g) ∷ gs) a = restore_graphs_lem gs _

restored :
    (s : Snapshot) (now : ℕ) (b : LogAggregation)
    → s.file_name ≡ b.file
    → ((restore s now b).itrace_operators ≡ insert_all (map_values (waiting_from now) s.traces) [])
      × ((restore s now b).igraph_operators ≡ insert_all s.graphs [])
unfolding restore
restored s now b e =
    let same : str_eq s.file_name b.file ≡ true = (eq_iff s.file_name b.file).1 e in
    let cleared = record b { itrace_operators = [] } in
    let begun = record (restore_traces now s.traces cleared) { igraph_operators = [] } in
    let g = restore_graphs_lem s.graphs begun in
    rw (restore, same) (g.1 ∙ restore_traces_lem now s.traces cleared, g.0)

-- What is dumped into an empty snapshot of the file and restored, in whatever aggregation of that file, is
-- there again: every trace, which waits from the time of the restoring on, and every graph; and
-- nothing else.
pub restore-dump :
    (a b : LogAggregation) (s : Snapshot) (now : ℕ) (name id : String)
    → HasUniqueKeys a.itrace_operators
    → HasUniqueKeys a.igraph_operators
    → s.graphs ≡ []
    → s.traces ≡ []
    → s.file_name ≡ b.file
    → (find name (restore (dump a s) now b).itrace_operators
        ≡ Option.map (λ op. waiting_from now op.itrace) (find name a.itrace_operators))
      × (find id (restore (dump a s) now b).igraph_operators ≡ find id a.igraph_operators)
unfolding dump
restore-dump a b s now name id u v g t e =
    let traces = map_values (λ op. op.itrace) a.itrace_operators in
    let unique : HasUniqueKeys traces =
      map_values-HasUniqueKeys (λ op. op.itrace) a.itrace_operators u in
    let r = restored (dump a s) now b e in
    let dumped : (dump a s).traces ≡ insert_all traces [] =
      ap (λ m. dump_traces a.itrace_operators m) t ∙ dump_traces_lem a.itrace_operators [] in
    let graphs : (dump a s).graphs ≡ insert_all a.igraph_operators [] =
      ap (λ m. dump_graphs a.igraph_operators m) g ∙ dump_graphs_lem a.igraph_operators [] in
    let again = insert_all-HasUniqueKeys traces [] unique (apart_empty traces [] refl) tt in
    let again_graphs =
      insert_all-HasUniqueKeys a.igraph_operators [] v (apart_empty a.igraph_operators [] refl)
        tt in
    (
      ap (find name) r.0
          ∙ ap (λ m. find name (insert_all (map_values (waiting_from now) m) [])) dumped
          ∙ find-insert_all_empty name _
              (map_values-HasUniqueKeys (waiting_from now) (insert_all traces []) again)
          ∙ find-map_values (waiting_from now) name (insert_all traces [])
          ∙ ap (Option.map (waiting_from now)) (find-insert_all_empty name traces unique)
          ∙ ap (Option.map (waiting_from now))
              (find-map_values (λ op. op.itrace) name a.itrace_operators)
          ∙ twice (find name a.itrace_operators),
      ap (find id) r.1
          ∙ ap (λ m. find id (insert_all m [])) graphs
          ∙ find-insert_all_empty id (insert_all a.igraph_operators []) again_graphs
          ∙ find-insert_all_empty id a.igraph_operators v,
    )
  where
    twice :
        (o : Option ITraceOperator)
        → Option.map (waiting_from now) (Option.map (λ op. op.itrace) o)
          ≡ Option.map (λ op. waiting_from now op.itrace) o
    twice none = refl
    twice (some op) = refl
