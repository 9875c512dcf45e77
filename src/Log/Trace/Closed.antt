-- ===== src/Log/Trace/Closed.antt =====
-- The traces that `updateITrace` (LogServer/LogAggregation.cpp) builds have every span that they name.
use tars_framework.Base.{
  Bool, true, false, ◌&&◌, ◌||◌, ◌≡◌, refl, ◌∙◌, List, [], ◌∷◌, ◌⊎◌, inl, inr, String, str_eq,
  string_key, eq_iff, if◌then◌else◌, arith, All, Bool-cases,
}
use tars_framework.Log.Trace.{
  IRawLog, ISpan, ITrace, new_span, assign_if_empty, insert_child, update_i_span, update_span,
  start_trace, end_trace, add_child, update_root, update_i_trace,
}

abbrev pub has_span : String → List ISpan → Bool
has_span name [] = false
has_span name (s ∷ spans) = str_eq s.span name || has_span name spans

-- Each child is a span of the list.
abbrev pub HasSpans : List ISpan → List String → Type 0
HasSpans spans = All (λ c. has_span c spans ≡ true)

abbrev pub HasChildren : List ISpan → List ISpan → Type 0
HasChildren spans = All (λ s. HasSpans spans s.children)

-- Every child is a span of the trace, and so is the span that the trace starts with, if there is one.
pub record IsClosed (t : ITrace) : Type 0 where
  pub children : HasChildren t.spans t.spans
  pub root : (str_eq t.t_span "" ≡ true) ⊎ (has_span t.t_span t.spans ≡ true)

self : (a : String) → str_eq a a ≡ true
self a = (eq_iff a a).1 refl

-- A function on spans that keeps their names.
abbrev KeepsName : (ISpan → ISpan) → Type 0
KeepsName f = (s : ISpan) → (f s).span ≡ s.span

or_twice : (a b : Bool) → (a || b) ≡ (a || (a || b))
or_twice true b = refl
or_twice false b = refl

or_left_comm : (a b c : Bool) → (a || (b || c)) ≡ (b || (a || c))
or_left_comm true true c = refl
or_left_comm true false c = refl
or_left_comm false b c = refl

or_right : (a b : Bool) → b ≡ true → (a || b) ≡ true
or_right true b h = refl
or_right false b h = h

has-update_span :
    (name : String) (f : ISpan → ISpan) (x : String) (spans : List ISpan)
    → KeepsName f
    → has_span x (update_span name f spans) ≡ (str_eq name x || has_span x spans)
unfolding update_span
has-update_span name f x [] k = rw (k (new_span name)) refl
has-update_span name f x (s ∷ spans) k = elim (Bool-cases (str_eq name s.span)) [
  | inl e ↦
      let same : name ≡ s.span = (eq_iff name s.span).0 e in
      rw (update_span, e, k s, same) (or_twice (str_eq s.span x) (has_span x spans))
  | inr e ↦
      rw (update_span, e, has-update_span name f x spans k)
        (or_left_comm (str_eq s.span x) (str_eq name x) (has_span x spans))
]

HasSpans-mono :
    (spans more : List ISpan) (cs : List String)
    → ((x : String) → has_span x spans ≡ true → has_span x more ≡ true)
    → HasSpans spans cs
    → HasSpans more cs
HasSpans-mono spans more [] m h = tt
HasSpans-mono spans more (c ∷ cs) m h = (m c h.0, HasSpans-mono spans more cs m h.1)

HasChildren-mono :
    (spans more ss : List ISpan)
    → ((x : String) → has_span x spans ≡ true → has_span x more ≡ true)
    → HasChildren spans ss
    → HasChildren more ss
HasChildren-mono spans more [] m h = tt
HasChildren-mono spans more (s ∷ ss) m h =
    (HasSpans-mono spans more s.children m h.0, HasChildren-mono spans more ss m h.1)

insert_child-HasSpans :
    (spans : List ISpan) (c : String) (cs : List String)
    → has_span c spans ≡ true
    → HasSpans spans cs
    → HasSpans spans (insert_child c cs)
unfolding insert_child
insert_child-HasSpans spans c [] h k = (h, tt)
insert_child-HasSpans spans c (d ∷ cs) h k = elim (Bool-cases (str_eq d c)) [
  | inl e ↦ rw (insert_child, e) k
  | inr e ↦ rw (insert_child, e) (k.0, insert_child-HasSpans spans c cs h k.1)
]

update_span-HasChildren :
    (more : List ISpan) (name : String) (f : ISpan → ISpan) (spans : List ISpan)
    → ((s : ISpan) → HasSpans more s.children → HasSpans more (f s).children)
    → HasChildren more spans
    → HasChildren more (update_span name f spans)
unfolding update_span
update_span-HasChildren more name f [] k h = (k (new_span name) tt, tt)
update_span-HasChildren more name f (s ∷ spans) k h = elim (Bool-cases (str_eq name s.span)) [
  | inl e ↦ rw (update_span, e) (k s h.0, h.1)
  | inr e ↦ rw (update_span, e) (h.0, update_span-HasChildren more name f spans k h.1)
]

update_i_span-name : (log : IRawLog) → KeepsName (update_i_span log)
unfolding update_i_span
update_i_span-name log s = ground arith

update_i_span-children : (log : IRawLog) (s : ISpan) → (update_i_span log s).children ≡ s.children
unfolding update_i_span
update_i_span-children log s = ground arith

-- A span is named, and the others stay.
update_span-has :
    (name : String) (f : ISpan → ISpan) (spans : List ISpan)
    → KeepsName f
    → (has_span name (update_span name f spans) ≡ true)
      × ((x : String) → has_span x spans ≡ true → has_span x (update_span name f spans) ≡ true)
update_span-has name f spans k = (
  has-update_span name f name spans k ∙ rw (self name) refl,
  λ x h. has-update_span name f x spans k ∙ or_right (str_eq name x) (has_span x spans) h,
)

assign_root :
    (spans more : List ISpan) (root span : String)
    → ((x : String) → has_span x spans ≡ true → has_span x more ≡ true)
    → has_span span more ≡ true
    → (str_eq root "" ≡ true) ⊎ (has_span root spans ≡ true)
    → has_span (assign_if_empty root span) more ≡ true
unfolding assign_if_empty
assign_root spans more root span m h r = elim (Bool-cases (str_eq root "")) [
  | inl e ↦ rw (assign_if_empty, e) h
  | inr e ↦ elim r [ inl k ↦ absurd (cc (k, e)) | inr k ↦ rw (assign_if_empty, e) (m root k) ]
]

-- The span of the log is updated last: the trace is closed, if it was but for that span.
span_updated :
    (log : IRawLog) (t : ITrace)
    → HasChildren (update_span log.span (update_i_span log) t.spans) t.spans
    → (str_eq t.t_span "" ≡ true)
      ⊎ (has_span t.t_span (update_span log.span (update_i_span log) t.spans) ≡ true)
    → IsClosed (record t { spans = update_span log.span (update_i_span log) t.spans })
span_updated log t h r = record {
  children =
      update_span-HasChildren (update_span log.span (update_i_span log) t.spans) log.span
        (update_i_span log) t.spans (λ s k. rw (update_i_span-children log s) k) h;
  root = r;
}

either {ℓ} : {A : Type 0} (P : A → Type ℓ) (b : Bool) (x y : A) → P x → P y → P (if b then x else y)
either P true x y p q = p
either P false x y p q = q

update_root_cases :
    (P : ITrace → Type 0) (log : IRawLog) (t : ITrace)
    → P (start_trace log t)
    → P (end_trace log t)
    → P (add_child log t)
    → P t
    → P (update_root log t)
unfolding update_root
update_root_cases P log t a b c d =
    either P (str_eq log.parent log.span && str_eq log.type "cs") _ _ a (
      either P (str_eq log.parent log.span && str_eq log.type "cr") _ _ b (
        either P (str_eq log.type "ts") _ _ a (
          either P (str_eq log.type "te") _ _ b
            (either P (str_eq log.type "cs" || str_eq log.type "cr") _ _ c d))))

abbrev Updated : IRawLog → ITrace → Type 0
Updated log u = IsClosed (record u { spans = update_span log.span (update_i_span log) u.spans })

same_spans :
    (log : IRawLog) (t u : ITrace)
    → IsClosed t
    → u.spans ≡ t.spans
    → (u.t_span ≡ t.t_span) ⊎ (u.t_span ≡ assign_if_empty t.t_span log.span)
    → Updated log u
same_spans log t u c e k =
    let h = update_span-has log.span (update_i_span log) u.spans (update_i_span-name log) in
    let more = update_span log.span (update_i_span log) u.spans in
    let stays : (x : String) → has_span x t.spans ≡ true → has_span x more ≡ true =
      λ x y. h.1 x (rw e y) in
    span_updated log u (HasChildren-mono u.spans more u.spans h.1 (rw e c.children)) (elim k [
      | inl r ↦ elim c.root [ inl z ↦ inl (rw r z) | inr z ↦ inr (rw r (stays t.t_span z)) ]
      | inr r ↦ inr (rw r (assign_root t.spans more t.t_span log.span stays h.0 c.root))
    ])

child_added : (log : IRawLog) (t : ITrace) → IsClosed t → Updated log (add_child log t)
child_added log t c =
    let f : ISpan → ISpan = λ s. record s { children = insert_child log.span s.children } in
    let spans = update_span log.parent f t.spans in
    let a = update_span-has log.parent f t.spans (λ s. refl) in
    let b = update_span-has log.span (update_i_span log) spans (update_i_span-name log) in
    let more = update_span log.span (update_i_span log) spans in
    let stays : (x : String) → has_span x t.spans ≡ true → has_span x more ≡ true =
      λ x h. b.1 x (a.1 x h) in
    span_updated log (add_child log t)
      (update_span-HasChildren more log.parent f t.spans
        (λ s h. insert_child-HasSpans more log.span s.children b.0 h)
        (HasChildren-mono t.spans more t.spans stays c.children))
      (elim c.root [ inl z ↦ inl z | inr z ↦ inr (stays t.t_span z) ])

-- A log keeps a trace closed.
pub update_i_trace-IsClosed :
    (log : IRawLog) (t : ITrace) → IsClosed t → IsClosed (update_i_trace log t)
unfolding update_i_trace
update_i_trace-IsClosed log t c =
    let u = record t { trace = assign_if_empty t.trace log.trace } in
    let d : IsClosed u = record { children = c.children; root = c.root } in
    update_root_cases (Updated log) log u (same_spans log u (start_trace log u) d refl (inr refl))
      (same_spans log u (end_trace log u) d refl (inr refl)) (child_added log u d)
      (same_spans log u u d refl (inl refl))
