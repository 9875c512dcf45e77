-- ===== src/Stat/Hash/Summary.antt =====
-- What the table of StatServer/StatHashMap.h tells of a head after reports.
use tars_framework.Base.{
  ℕ, ◌*◌, Bool, true, false, ◌≡◌, refl, sym, ap, ◌∙◌, ◌≢◌, List, [], ◌∷◌, String, str_eq, eq_iff,
  if◌then◌else◌, arith, ltb, Bool-cases, inl, inr,
}
use tars_framework.Base.Int.{
  ℤ, pos, negsuc, ◌+ℤ◌, eqb_ℤ, leb_ℤ, int_laws, eq_of_parts, +ℤ_assoc, add-zero_ℤ,
}
use tars_framework.Base.Map.{Map, find, insert, get_or, find-insert}
use tars_framework.Stat.Hash.{
  int_key, eqb_ℤ_iff, StatMicMsgHead, StatMicMsgBody, empty_body, Got, failed, ok, no_data,
  HashTable, Format, add_intervals, larger, smaller_nonzero, merge_body, add,
}

pub record Summary : Type 0 where
  pub count : ℤ
  pub timeout_count : ℤ
  pub exec_count : ℤ
  pub intervals : ℤ → ℤ
  pub total_rsp_time : ℤ
  pub max_rsp_time : ℤ
  pub min_rsp_time : ℤ

abbrev pub total_at : ℤ → Map ℤ ℤ → ℤ
total_at k [] = pos 0
total_at k ((a, n) ∷ m) = (if eqb_ℤ a k then n else pos 0) +ℤ total_at k m

-- A summary from a body, whose intervals are counted by `intervals`.
abbrev pub summarize : (ℤ → Map ℤ ℤ → ℤ) → StatMicMsgBody → Summary
summarize intervals b = record {
  count = b.count;
  timeout_count = b.timeout_count;
  exec_count = b.exec_count;
  intervals = λ k. intervals k b.interval_count;
  total_rsp_time = b.total_rsp_time;
  max_rsp_time = b.max_rsp_time;
  min_rsp_time = b.min_rsp_time;
}

-- Of a record, and of a report.
abbrev pub of_record : StatMicMsgBody → Summary
of_record = summarize (λ k m. get_or (find k m) (pos 0))

abbrev pub of_report : StatMicMsgBody → Summary
of_report = summarize total_at

-- The largest of two times.
abbrev pub largest : ℤ → ℤ → ℤ
largest a b = if leb_ℤ b a then a else b

-- The smallest of two times, of which 0 says that there is none.
abbrev pub smallest : ℤ → ℤ → ℤ
smallest a b =
    if eqb_ℤ b (pos 0) then a else if eqb_ℤ a (pos 0) then b else if leb_ℤ a b then a else b

unfoldable pub merge_summary : Summary → Summary → Summary
merge_summary b st = record {
  count = st.count +ℤ b.count;
  timeout_count = st.timeout_count +ℤ b.timeout_count;
  exec_count = st.exec_count +ℤ b.exec_count;
  intervals = λ k. st.intervals k +ℤ b.intervals k;
  total_rsp_time = st.total_rsp_time +ℤ b.total_rsp_time;
  max_rsp_time = largest st.max_rsp_time b.max_rsp_time;
  min_rsp_time = smallest st.min_rsp_time b.min_rsp_time;
}

find-add_intervals :
    (k : ℤ) (ns m : Map ℤ ℤ)
    → get_or (find k (add_intervals ns m)) (pos 0) ≡ get_or (find k m) (pos 0) +ℤ total_at k ns
unfolding add_intervals
find-add_intervals k [] m = sym (add-zero_ℤ (get_or (find k m) (pos 0)))
find-add_intervals k ((a, n) ∷ ns) m =
    find-add_intervals k ns _
    ∙ ap (λ t. t +ℤ total_at k ns) (here k a n m)
    ∙ +ℤ_assoc (get_or (find k m) (pos 0)) (if eqb_ℤ a k then n else pos 0) (total_at k ns)
  where
    here :
        (k a n : ℤ) (m : Map ℤ ℤ)
        → get_or (find k (insert a (get_or (find a m) (pos 0) +ℤ n) m)) (pos 0)
          ≡ get_or (find k m) (pos 0) +ℤ (if eqb_ℤ a k then n else pos 0)
    here k a n m = elim (Bool-cases (eqb_ℤ a k)) [
      | inl e ↦
          let same : a ≡ k = (eqb_ℤ_iff a k).0 e in
          rw (find-insert a k (get_or (find a m) (pos 0) +ℤ n) m, e, same) refl
      | inr e ↦
          rw (find-insert a k (get_or (find a m) (pos 0) +ℤ n) m, e)
            (sym (add-zero_ℤ (get_or (find k m) (pos 0))))
    ]

larger_lem : (a b : ℤ) → larger a b ≡ largest a b
unfolding larger
larger_lem a b = ground (arith, eq_of_parts a b)

smaller_nonzero_lem : (a b : ℤ) → smaller_nonzero a b ≡ smallest a b
unfolding smaller_nonzero
smaller_nonzero_lem a b = ground (arith, eq_of_parts a b)

summarize-merge :
    (body st : StatMicMsgBody)
    → of_record (merge_body body st) ≡ merge_summary (of_report body) (of_record st)
unfolding merge_body merge_summary
summarize-merge body st = λ i. record {
  count = st.count +ℤ body.count;
  timeout_count = st.timeout_count +ℤ body.timeout_count;
  exec_count = st.exec_count +ℤ body.exec_count;
  intervals = λ k. find-add_intervals k body.interval_count st.interval_count i;
  total_rsp_time = st.total_rsp_time +ℤ body.total_rsp_time;
  max_rsp_time = larger_lem st.max_rsp_time body.max_rsp_time i;
  min_rsp_time = smaller_nonzero_lem st.min_rsp_time body.min_rsp_time i;
}

add_swap : (a b c : ℤ) → a +ℤ b +ℤ c ≡ a +ℤ c +ℤ b
add_swap a b c = omega int_laws

largest_swap : (a b c : ℤ) → largest (largest a b) c ≡ largest (largest a c) b
largest_swap a b c = ground (arith, eq_of_parts a b, eq_of_parts a c, eq_of_parts b c)

smallest_swap : (a b c : ℤ) → smallest (smallest a b) c ≡ smallest (smallest a c) b
smallest_swap a b c = ground (arith, eq_of_parts a b, eq_of_parts a c, eq_of_parts b c)

pub merge_summary_swap :
    (a b st : Summary) → merge_summary b (merge_summary a st) ≡ merge_summary a (merge_summary b st)
unfolding merge_summary
merge_summary_swap a b st = λ i. record {
  count = add_swap st.count a.count b.count i;
  timeout_count = add_swap st.timeout_count a.timeout_count b.timeout_count i;
  exec_count = add_swap st.exec_count a.exec_count b.exec_count i;
  intervals = λ k. add_swap (st.intervals k) (a.intervals k) (b.intervals k) i;
  total_rsp_time = add_swap st.total_rsp_time a.total_rsp_time b.total_rsp_time i;
  max_rsp_time = largest_swap st.max_rsp_time a.max_rsp_time b.max_rsp_time i;
  min_rsp_time = smallest_swap st.min_rsp_time a.min_rsp_time b.min_rsp_time i;
}

-- Room for a further record, by the guard of `StatImp::addHashMap`.
unfoldable pub is_full : {Bytes : Type 0} → (T : HashTable Bytes) → T.Store → Bool
is_full T s = ltb (9 * T.all_chunks s) (10 * T.used_chunk s)

-- A table with room keeps what is stored: a `set` with code 0 is read again, none changes what other
-- keys have, and one with another code changes nothing.
pub record Keeps {Bytes : Type 0} (T : HashTable Bytes) : Type 0 where
  pub stored :
      (k : String) (v : Bytes) (s : T.Store)
      → is_full T s ≡ false
      → (T.set k v s).0 ≡ pos 0
      → T.get k (T.set k v s).1 ≡ ok v
  pub kept :
      (k l : String) (v : Bytes) (s : T.Store)
      → is_full T s ≡ false
      → k ≢ l
      → T.get l (T.set k v s).1 ≡ T.get l s
  pub refused :
      (k l : String) (v : Bytes) (s : T.Store)
      → is_full T s ≡ false
      → eqb_ℤ (T.set k v s).0 (pos 0) ≡ false
      → T.get l (T.set k v s).1 ≡ T.get l s

-- What is written is read again.
pub record Reads (F : Format) : Type 0 where
  pub read-write : (b : StatMicMsgBody) → F.read_body (F.write_body b) ≡ b

module _ (T : HashTable (List ℕ)) (F : Format) where
  -- The record that a table has, empty where it has none.
  unfoldable pub held : Got (List ℕ) → StatMicMsgBody
  held failed = empty_body
  held (ok sv) = F.read_body sv
  held no_data = empty_body

  -- What a table tells of a key.
  unfoldable pub told : String → T.Store → Summary
  told key s = of_record (held (T.get key s))

  -- The report merged in, if it is of the key.
  unfoldable pub merged : String → StatMicMsgHead → StatMicMsgBody → Summary → Summary
  merged key head body st =
      if str_eq (F.write_head head) key then merge_summary (of_report body) st else st

  add_lem :
      (head : StatMicMsgHead) (body : StatMicMsgBody) (s : T.Store) (g : Got (List ℕ))
      → T.get (F.write_head head) s ≡ g
      → (add T F head body s).0 ≡ pos 0
      → add T F head body s ≡ T.set (F.write_head head) (F.write_body (merge_body body (held g))) s
  unfolding add held
  add_lem head body s failed e z = absurd (let q : negsuc 0 ≡ pos 0 = rw (add, e) at z in cc)
  add_lem head body s (ok sv) e z = rw (add, e) refl
  add_lem head body s no_data e z = rw (add, e) refl

  pub told-add :
      (key : String) (head : StatMicMsgHead) (body : StatMicMsgBody) (s : T.Store)
      → Keeps T
      → Reads F
      → is_full T s ≡ false
      → (add T F head body s).0 ≡ pos 0
      → told key (add T F head body s).1 ≡ merged key head body (told key s)
  unfolding told merged held
  told-add key head body s k r room z =
      let name = F.write_head head in
      let new = merge_body body (held (T.get name s)) in
      let q : add T F head body s ≡ T.set name (F.write_body new) s =
        add_lem head body s _ refl z in
      let z' : (T.set name (F.write_body new) s).0 ≡ pos 0 = rw (sym q) z in
      elim (Bool-cases (str_eq name key)) [
        | inl h ↦
            let same : name ≡ key = (eq_iff name key).0 h in
            rw (q, h, sym same, k.stored name (F.write_body new) s room z', r.read-write new)
              (summarize-merge body (held (T.get name s)))
        | inr h ↦
            let other : name ≢ key =
              λ e. absurd (let t : true ≡ false = rw (sym ((eq_iff name key).1 e)) h in cc) in
            rw (q, h, k.kept name key (F.write_body new) s room other) refl
      ]

  pub told-add_refused :
      (key : String) (head : StatMicMsgHead) (body : StatMicMsgBody) (s : T.Store)
      → Keeps T
      → is_full T s ≡ false
      → eqb_ℤ (add T F head body s).0 (pos 0) ≡ false
      → told key (add T F head body s).1 ≡ told key s
  unfolding told add
  told-add_refused key head body s k room z = ap (λ g. of_record (held g)) (go _ refl)
    where
      go :
          (g : Got (List ℕ))
          → T.get (F.write_head head) s ≡ g
          → T.get key (add T F head body s).1 ≡ T.get key s
      go failed e = rw (add, e) refl
      go (ok sv) e = rw (add, e) (k.refused _ key _ s room (rw (add, e) at z))
      go no_data e = rw (add, e) (k.refused _ key _ s room (rw (add, e) at z))
