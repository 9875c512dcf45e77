-- ===== src/Node/Activator/Bursts.antt =====
-- When starts one soon after another are limited (NodeServer/Activator.cpp).
use tars_framework.Base.{
  ℕ, suc, ◌+◌, ◌≡◌, refl, true, List, [], ◌∷◌, arith, leb, ltb, length, if◌then◌else◌, lt→ltb, ap,
}
use tars_framework.Base.Int.{ℤ, pos, ◌+ℤ◌, ◌-ℤ◌, ◌*ℤ◌, ◌≤ℤ◌, ◌<ℤ◌, ltb_ℤ, leb_ℤ}
use tars_framework.Node.Activator.{
  Activator, clear_runtime_data, count_start, lift_punishment, limit_starts, push_record,
  add_activating_record,
}

-- One start after another.
abbrev pub starts : List ℤ → Activator → Activator
starts [] a = a
starts (now ∷ later) a = starts later (add_activating_record now a)

-- Each start comes less than `interval` after the one before it.
abbrev pub Follow : ℤ → ℤ → List ℤ → Type 0
Follow interval last [] = Unit
Follow interval last (now ∷ later) = (now -ℤ last <ℤ interval) × Follow interval now later

-- What holds in a burst after `n + 1` starts, the last of them at `last`.
record IsBurst (interval : ℤ) (m : ℕ) (n : ℕ) (last : ℤ) (a : Activator) : Type 0 where
  counted : a.cur_count ≡ pos n
  bounded : a.max_count ≡ pos m
  spaced : a.time_interval ≡ interval
  latest : (rest : List ℤ) × (a.activing_record ≡ last ∷ rest)
  exact : a.limited ≡ ltb m n
  patient : pos 2 *ℤ a.time_interval ≤ℤ pos 3 *ℤ a.punish_interval

double : (x y : ℤ) → x ≤ℤ y → pos 2 *ℤ x ≤ℤ pos 2 *ℤ y
unfolding ◌*ℤ◌
double x y h = ground arith

≤ℤ_of_< : (x y : ℤ) → x <ℤ y → x ≤ℤ y
≤ℤ_of_< x y h = omega arith

≤ℤ_trans : (x y z : ℤ) → x ≤ℤ y → y ≤ℤ z → x ≤ℤ z
≤ℤ_trans x y z h k = omega arith

count_start_lem :
    (gap : ℤ) (a : Activator)
    → gap <ℤ a.time_interval
    → count_start gap a ≡ record a { cur_count = a.cur_count +ℤ pos 1 }
unfolding count_start
count_start_lem gap a h =
    ap (λ t. if t then record a { cur_count = a.cur_count +ℤ pos 1 } else a) (lt→ltb _ _ h)

lift_punishment_lem :
    (gap : ℤ) (a : Activator)
    → pos 2 *ℤ gap ≤ℤ pos 3 *ℤ a.punish_interval
    → lift_punishment gap a ≡ a
unfolding lift_punishment
lift_punishment_lem gap a h = ground arith

limit_starts_lem :
    (a : Activator)
    → limit_starts a
      ≡ record a { limited = if ltb_ℤ a.max_count a.cur_count then true else a.limited }
unfolding limit_starts
limit_starts_lem a = ground arith

still_limited : (m n : ℕ) → (if ltb_ℤ (pos m) (pos (suc n)) then true else ltb m n) ≡ ltb m (suc n)
still_limited m n = ground arith

add_activating_record_again :
    (last now : ℤ) (rest : List ℤ) (a : Activator)
    → a.activing_record ≡ last ∷ rest
    → add_activating_record now a
      ≡ push_record now (limit_starts (lift_punishment (now -ℤ last) (count_start (now -ℤ last) a)))
unfolding add_activating_record
add_activating_record_again last now rest a e =
    ap
      (λ r. elim r [
        | [] ↦ push_record now a
        | last ∷ rest ↦
            push_record now
              (limit_starts (lift_punishment (now -ℤ last) (count_start (now -ℤ last) a)))
      ])
      e

add_activating_record_burst :
    (last now : ℤ) (rest : List ℤ) (a : Activator)
    → a.activing_record ≡ last ∷ rest
    → now -ℤ last <ℤ a.time_interval
    → pos 2 *ℤ a.time_interval ≤ℤ pos 3 *ℤ a.punish_interval
    → add_activating_record now a
      ≡ push_record now (limit_starts (record a { cur_count = a.cur_count +ℤ pos 1 }))
add_activating_record_burst last now rest a e h p =
    let c : Activator = record a { cur_count = a.cur_count +ℤ pos 1 } in
    let gap : pos 2 *ℤ (now -ℤ last) ≤ℤ pos 3 *ℤ a.punish_interval =
      ≤ℤ_trans (pos 2 *ℤ (now -ℤ last)) (pos 2 *ℤ a.time_interval) (pos 3 *ℤ a.punish_interval)
        (double (now -ℤ last) a.time_interval (≤ℤ_of_< (now -ℤ last) a.time_interval h)) p in
    let step : limit_starts (lift_punishment (now -ℤ last) (count_start (now -ℤ last) a))
        ≡ limit_starts c =
      rw (count_start_lem _ a h, lift_punishment_lem _ c gap) refl in
    let again : add_activating_record now a
        ≡ push_record now
            (limit_starts (lift_punishment (now -ℤ last) (count_start (now -ℤ last) a))) =
      add_activating_record_again last now rest a e in
    rw (again, step) refl

still_counted : (n : ℕ) → pos n +ℤ pos 1 ≡ pos (suc n)
unfolding ◌+ℤ◌
still_counted n = ground arith

add-IsBurst :
    (interval : ℤ) (m n : ℕ) (last now : ℤ) (a : Activator)
    → now -ℤ last <ℤ interval
    → IsBurst interval m n last a
    → IsBurst interval m (suc n) now (add_activating_record now a)
unfolding push_record
add-IsBurst interval m n last now a h b =
    let c : Activator = record a { cur_count = a.cur_count +ℤ pos 1 } in
    let more : a.cur_count +ℤ pos 1 ≡ pos (suc n) = rw b.counted (still_counted n) in
    let near : now -ℤ last <ℤ a.time_interval = rw b.spaced h in
    rw
      (
        add_activating_record_burst last now b.latest.0 a b.latest.1 near b.patient,
        limit_starts_lem c,
      )
      (record {
        counted = more;
        bounded = b.bounded;
        spaced = b.spaced;
        latest = (a.activing_record, refl);
        exact = rw (more, b.bounded, b.exact) (still_limited m n);
        patient = b.patient;
      })

starts_limited :
    (interval : ℤ) (m n : ℕ) (last : ℤ) (later : List ℤ) (a : Activator)
    → IsBurst interval m n last a
    → Follow interval last later
    → (starts later a).limited ≡ ltb m (n + length later)
starts_limited interval m n last [] a b f = rw b.exact ground arith
starts_limited interval m n last (now ∷ later) a b f =
    rw
      (starts_limited interval m (suc n) now later (add_activating_record now a)
        (add-IsBurst interval m n last now a f.0 b) f.1)
      ground arith

first_start :
    (m : ℕ) (first : ℤ) (a : Activator)
    → a.max_count ≡ pos m
    → pos 2 *ℤ a.time_interval ≤ℤ pos 3 *ℤ a.punish_interval
    → IsBurst a.time_interval m 0 first (add_activating_record first (clear_runtime_data a))
unfolding add_activating_record clear_runtime_data push_record
first_start m first a b p = record {
  counted = refl;
  bounded = b;
  spaced = refl;
  latest = ([], refl);
  exact = ground arith;
  patient = p;
}

-- From cleared data with a maximum of `m`, starts that each come less than the time interval after
-- the one before are limited exactly from the (m + 2)-nd on, where twice the time interval is at
-- most three times the punishment.
pub burst_limited :
    (m : ℕ) (first : ℤ) (later : List ℤ) (a : Activator)
    → a.max_count ≡ pos m
    → pos 2 *ℤ a.time_interval ≤ℤ pos 3 *ℤ a.punish_interval
    → Follow a.time_interval first later
    → (starts (first ∷ later) (clear_runtime_data a)).limited ≡ leb (m + 2) (length (first ∷ later))
burst_limited m first later a b p f =
    rw
      (starts_limited a.time_interval m 0 first later
        (add_activating_record first (clear_runtime_data a)) (first_start m first a b p) f)
      ground arith

limit_of_lifted :
    (gap : ℤ) (a : Activator)
    → a.limited ≡ true
    → pos 0 ≤ℤ a.max_count
    → (limit_starts (lift_punishment gap (count_start gap a))).limited
      ≡ leb_ℤ (pos 2 *ℤ gap) (pos 3 *ℤ a.punish_interval)
unfolding limit_starts lift_punishment count_start
limit_of_lifted gap a l m = ground arith

-- While starts are limited, with a maximum of at least 0, the next start leaves the limit on exactly
-- if it comes no later than one and a half times the punishment after the start before it.
pub limited_retry :
    (last now : ℤ) (rest : List ℤ) (a : Activator)
    → a.activing_record ≡ last ∷ rest
    → a.limited ≡ true
    → pos 0 ≤ℤ a.max_count
    → (add_activating_record now a).limited
      ≡ leb_ℤ (pos 2 *ℤ (now -ℤ last)) (pos 3 *ℤ a.punish_interval)
unfolding push_record
limited_retry last now rest a e l m =
    rw (add_activating_record_again last now rest a e) (limit_of_lifted (now -ℤ last) a l m)
