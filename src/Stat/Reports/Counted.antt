-- ===== src/Stat/Reports/Counted.antt =====
-- What the tables of StatServer count of the reports (StatServer/StatImp.cpp).
use tars_framework.Base.{
  ℕ, zero, suc, ◌%◌, Bool, true, false, ◌≡◌, refl, sym, ap, ◌∙◌, none, some, List, [], ◌∷◌, String,
  str_eq, string_key, if◌then◌else◌, get_elem?, modify, Bool-cases, Option-cases, inl, inr, arith,
  ◌==◌,
}
use tars_framework.Base.Int.{ℤ, pos, ◌+ℤ◌, eqb_ℤ, int_laws, +ℤ_assoc, add-zero_ℤ, eqb_ℤ→eq}
use tars_framework.Stat.Hash.{StatMicMsgHead, StatMicMsgBody, HashTable, Format, add}
use tars_framework.Stat.Hash.Summary.{
  Summary, of_report, merge_summary, is_full, Keeps, Reads, told, merged, told-add,
  told-add_refused,
}
use tars_framework.Stat.Reports.{
  StatServer, Outside, get_time_info, dump2file, table_at, put_table, add_to_table, add_hash_map,
  is_zero, report_one, report_mic_msg, hash_text,
}
use tars_framework.Stat.Reports.Heads.{stored_head, complete_head_lem}
use tars_framework.Stat.Reports.Zeros.{counting, report_mic_msg-counting}

abbrev pub sum_all {ℓ} : {A : Type ℓ} → (A → ℤ) → List A → ℤ
sum_all f [] = pos 0
sum_all f (x ∷ xs) = f x +ℤ sum_all f xs

sum_all-modify {ℓ} :
    {A : Type ℓ} (f : A → ℤ) (g : A → A) (xs : List A) (i : ℕ) (x : A) (d : ℤ)
    → get_elem? xs i ≡ some x
    → f (g x) ≡ f x +ℤ d
    → sum_all f (modify xs i g) ≡ sum_all f xs +ℤ d
sum_all-modify f g [] i x d e h = absurd cc
sum_all-modify f g (y ∷ xs) zero x d e h =
    let same : y ≡ x = ground arith in rw (same, h) (shift (f x) d (sum_all f xs))
  where
    shift : (a b c : ℤ) → a +ℤ b +ℤ c ≡ a +ℤ c +ℤ b
    shift a b c = omega int_laws
sum_all-modify f g (y ∷ xs) (suc i) x d e h =
    ap (λ t. f y +ℤ t) (sum_all-modify f g xs i x d e h) ∙ sym (+ℤ_assoc (f y) (sum_all f xs) d)

-- A number of a summary that merging adds up.
pub data Counter : Type 0 where
  calls : Counter
  timeouts : Counter
  exceptions : Counter

abbrev pub counted : Counter → Summary → ℤ
counted calls s = s.count
counted timeouts s = s.timeout_count
counted exceptions s = s.exec_count

counted-merge :
    (c : Counter) (b st : Summary) → counted c (merge_summary b st) ≡ counted c st +ℤ counted c b
unfolding merge_summary
counted-merge calls b st = refl
counted-merge timeouts b st = refl
counted-merge exceptions b st = refl

module _ (T : HashTable (List ℕ)) (o : Outside) (F : Format) where
  -- What the tables of both buffers have of a key.
  unfoldable pub total : Counter → String → StatServer T → ℤ
  total c key st = sum_all (sum_all (λ s. counted c (told T F key s))) st.hash_maps

  -- What a report has of a key.
  unfoldable pub share : Counter → String → StatMicMsgHead → StatMicMsgBody → ℤ
  share c key head body =
      if str_eq (F.write_head head) key then counted c (of_report body) else pos 0

  same_if :
      (b : Bool) (x y : StatServer T) (m : List (List T.Store))
      → x.hash_maps ≡ m
      → y.hash_maps ≡ m
      → (if b then x else y).hash_maps ≡ m
  same_if true x y m h k = h
  same_if false x y m h k = k

  hash_maps-dump2file :
      (now : ℕ) (st : StatServer T) → (dump2file T o now st).hash_maps ≡ st.hash_maps
  unfolding dump2file get_time_info
  hash_maps-dump2file now st =
      let known =
        same_if (st.last_dump_time == 0) (get_time_info T o now st) st st.hash_maps refl refl in
      same_if _ _ _ st.hash_maps known known

  total-put_table :
      (c : Counter) (key : String) (i j : ℕ) (s u : T.Store) (st : StatServer T) (d : ℤ)
      → table_at T o i j st ≡ some s
      → counted c (told T F key u) ≡ counted c (told T F key s) +ℤ d
      → total c key (put_table T o i j u st) ≡ total c key st +ℤ d
  unfolding total table_at put_table
  total-put_table c key i j s u st d e h = elim (Option-cases (get_elem? st.hash_maps i)) [
    | inl n ↦ absurd (let q : none ≡ some s = rw (table_at, n) at e in cc)
    | inr (tables, n) ↦
        let here : get_elem? tables j ≡ some s = rw (table_at, n) at e in
        sum_all-modify (sum_all (λ s. counted c (told T F key s)))
          (λ tables. modify tables j (λ _. u)) st.hash_maps i tables d n
          (sum_all-modify (λ s. counted c (told T F key s)) (λ _. u) tables j s d here h)
  ]

  -- What a call is counted for: its share, if its code is 0.
  unfoldable pub gain : Counter → String → StatMicMsgHead → StatMicMsgBody → ℤ → ℤ
  gain c key head body code = if eqb_ℤ code (pos 0) then share c key head body else pos 0

  counted-add :
      (c : Counter) (key : String) (head : StatMicMsgHead) (body : StatMicMsgBody) (s : T.Store)
      → Keeps T
      → Reads F
      → is_full T s ≡ false
      → counted c (told T F key (add T F head body s).1)
        ≡ counted c (told T F key s) +ℤ gain c key head body (add T F head body s).0
  unfolding gain share merged
  counted-add c key head body s k r room =
      elim (Bool-cases (eqb_ℤ (add T F head body s).0 (pos 0))) [
        | inl z ↦
            let q = told-add T F key head body s k r room (eqb_ℤ→eq _ _ z) in
            rw (q, z)
              (elim (Bool-cases (str_eq (F.write_head head) key)) [
                | inl h ↦ rw h (counted-merge c (of_report body) (told T F key s))
                | inr h ↦ rw h (sym (add-zero_ℤ (counted c (told T F key s))))
              ])
        | inr z ↦
            let q = told-add_refused T F key head body s k room z in
            rw (q, z) (sym (add-zero_ℤ (counted c (told T F key s))))
      ]

  total-add_to_table :
      (c : Counter) (key : String) (j : ℕ) (head : StatMicMsgHead) (body : StatMicMsgBody)
      (st : StatServer T)
      → Keeps T
      → Reads F
      → total c key (add_to_table T o F j head body st).1
        ≡ total c key st +ℤ gain c key head body (add_to_table T o F j head body st).0
  unfolding add_to_table gain
  total-add_to_table c key j head body st k r =
      elim (Option-cases (table_at T o st.select_buffer j st)) [
        | inl n ↦ rw (add_to_table, n) (sym (add-zero_ℤ (total c key st)))
        | inr (s, n) ↦ elim (Bool-cases (is_full T s)) [
          | inl full ↦ rw (add_to_table, n, full) (sym (add-zero_ℤ (total c key st)))
          | inr room ↦
              rw (add_to_table, n, room)
                (total-put_table c key st.select_buffer j s _ st _ n
                  (counted-add c key head body s k r room))
        ]
      ]

  -- What the reports of a call have of a key: those that are stored, under their completed heads.
  unfoldable pub gains :
      Counter
      → String
      → ℕ
      → ℕ
      → Bool
      → String
      → List (StatMicMsgHead × StatMicMsgBody)
      → StatServer T
      → ℤ
  gains c key thread now from_client host [] st = pos 0
  gains c key thread now from_client host ((head, body) ∷ reports) st =
      let r = report_one T o F thread now from_client host head body st in
      gain c key (stored_head from_client host st.virtual_master_ip head) body r.0
      +ℤ gains c key thread now from_client host reports r.1

  counted_zero :
      (c : Counter) (body : StatMicMsgBody)
      → is_zero body ≡ true
      → counted c (of_report body) ≡ pos 0
  unfolding is_zero
  counted_zero calls body z = eqb_ℤ→eq _ _ (ground arith)
  counted_zero timeouts body z = eqb_ℤ→eq _ _ (ground arith)
  counted_zero exceptions body z = eqb_ℤ→eq _ _ (ground arith)

  gain_zero :
      (c : Counter) (key : String) (head : StatMicMsgHead) (body : StatMicMsgBody) (code : ℤ)
      → is_zero body ≡ true
      → gain c key head body code ≡ pos 0
  unfolding gain share
  gain_zero c key head body code z = ground (arith, counted_zero c body z)

  total-add_hash_map :
      (c : Counter) (key : String) (thread now : ℕ) (head : StatMicMsgHead) (body : StatMicMsgBody)
      (st : StatServer T)
      → Keeps T
      → Reads F
      → total c key (add_hash_map T o F thread now head body st).1
        ≡ total c key st +ℤ gain c key head body (add_hash_map T o F thread now head body st).0
  unfolding add_hash_map total
  total-add_hash_map c key thread now head body st k r =
      let touched = record st {
        buffer = modify st.buffer st.select_buffer (λ times. modify times thread (λ _. now));
      } in
      let dumped = dump2file T o now touched in
      let j = o.hash (hash_text head) % st.buff_num in
      total-add_to_table c key j head body dumped k r
      ∙ ap
          (λ m.
            sum_all (sum_all (λ s. counted c (told T F key s))) m
            +ℤ gain c key head body (add_to_table T o F j head body dumped).0)
          (hash_maps-dump2file now touched)

  total-report_one :
      (c : Counter) (key : String) (thread now : ℕ) (from_client : Bool) (host : String)
      (head : StatMicMsgHead) (body : StatMicMsgBody) (st : StatServer T)
      → Keeps T
      → Reads F
      → total c key (report_one T o F thread now from_client host head body st).1
        ≡ total c key st
          +ℤ gain c key
              (stored_head from_client host st.virtual_master_ip head)
              body
              (report_one T o F thread now from_client host head body st).0
  unfolding report_one
  total-report_one c key thread now from_client host head body st k r =
      let whole = stored_head from_client host st.virtual_master_ip head in
      rw (complete_head_lem from_client host st.virtual_master_ip head)
        elim (Bool-cases (is_zero body)) [
          | inl z ↦
              rw (report_one, z, gain_zero c key whole body (pos 0) z)
                (sym (add-zero_ℤ (total c key st)))
          | inr z ↦ rw (report_one, z) (total-add_hash_map c key thread now whole body st k r)
        ]

total-report_mic_msg :
    (T : HashTable (List ℕ)) (o : Outside) (F : Format) (c : Counter) (key : String)
    (thread now : ℕ) (from_client : Bool) (host : String)
    (reports : List (StatMicMsgHead × StatMicMsgBody)) (st : StatServer T)
    → Keeps T
    → Reads F
    → total T o F c key (report_mic_msg T o F thread now from_client host reports st)
      ≡ total T o F c key st +ℤ gains T o F c key thread now from_client host reports st
unfolding report_mic_msg gains
total-report_mic_msg T o F c key thread now from_client host [] st k r =
    sym (add-zero_ℤ (total T o F c key st))
total-report_mic_msg T o F c key thread now from_client host ((head, body) ∷ reports) st k r =
    let one = report_one T o F thread now from_client host head body st in
    let g = gain T o F c key (stored_head from_client host st.virtual_master_ip head) body one.0 in
    let rest = gains T o F c key thread now from_client host reports one.1 in
    total-report_mic_msg T o F c key thread now from_client host reports one.1 k r
    ∙ ap (λ t. t +ℤ rest)
        (total-report_one T o F c key thread now from_client host head body st k r)
    ∙ +ℤ_assoc (total T o F c key st) g rest

-- Every call counts what it stores once, and loses nothing that was counted: after `reportMicMsg`
-- both buffers together have of each key the calls, timeouts and exceptions that they had, and
-- those of the reports for which `addHashMap` answers 0, under the heads with the caller's address,
-- the version and the virtual address filled in. Reports in which all three counts are 0 change
-- nothing of the server: the call does what it does without them. The table keeps what is stored
-- while it has room, and what is written is read again.
pub report_mic_msg_counted :
    (T : HashTable (List ℕ)) (o : Outside) (F : Format) (c : Counter) (key : String)
    (thread now : ℕ) (from_client : Bool) (host : String)
    (reports : List (StatMicMsgHead × StatMicMsgBody)) (st : StatServer T)
    → Keeps T
    → Reads F
    → (total T o F c key (report_mic_msg T o F thread now from_client host reports st)
        ≡ total T o F c key st +ℤ gains T o F c key thread now from_client host reports st)
      × (report_mic_msg T o F thread now from_client host reports st
          ≡ report_mic_msg T o F thread now from_client host (counting reports) st)
report_mic_msg_counted T o F c key thread now from_client host reports st k r = (
  total-report_mic_msg T o F c key thread now from_client host reports st k r,
  report_mic_msg-counting T o F thread now from_client host reports st,
)
