-- ===== src/Node/CoreLimit/Stops.antt =====
-- When stops one soon after another close the core, and for how long
-- (NodeServer/ServerLimitResource.cpp).
use tars_framework.Base.{
  ℕ, suc, ◌+◌, ◌*◌, ◌↔◌, ◌≤◌, ◌≡◌, refl, true, false, List, [], ◌∷◌, arith, leb, length,
  if◌then◌else◌, not, ◌&&◌,
}
use tars_framework.Base.Int.{ℤ, pos, ◌+ℤ◌, ◌-ℤ◌, ◌≤ℤ◌, ◌<ℤ◌, leb_ℤ, *ℤ_pos}
use tars_framework.Node.CoreLimit.{
  ServerLimitResource, reset_run_time_data, or_one, set_limit_check_info, close_at_maximum,
  add_exc_stop_record, is_core_limit_need_close,
}

-- One stop after another.
abbrev pub stops : List ℤ → ServerLimitResource → ServerLimitResource
stops [] r = r
stops (now ∷ later) r = stops later (add_exc_stop_record now r)

-- Each stop comes less than `interval` after `since`.
abbrev pub Within : ℤ → ℤ → List ℤ → Type 0
Within interval since [] = Unit
Within interval since (now ∷ later) = (now -ℤ since <ℤ interval) × Within interval since later

-- What holds `n` stops after the count began, at `since`.
record IsCounting (interval since : ℤ) (m n : ℕ) (r : ServerLimitResource) : Type 0 where
  counted : r.cur_exc_stop_count ≡ pos n
  bounded : r.max_exc_stop_count ≡ pos m
  spaced : r.core_limit_time_interval ≡ interval
  began : r.exc_stop_record_time ≡ since
  exact : r.close_core ≡ leb m n

close_at_maximum_lem :
    (now : ℤ) (r : ServerLimitResource)
    → close_at_maximum now r ≡ record r {
      close_core = if leb_ℤ r.max_exc_stop_count r.cur_exc_stop_count then true else r.close_core;
      enable_core_limit_time =
          if not r.close_core && leb_ℤ r.max_exc_stop_count r.cur_exc_stop_count
          then now
          else r.enable_core_limit_time;
    }
unfolding close_at_maximum
close_at_maximum_lem now r = ground arith

add_within :
    (now : ℤ) (r : ServerLimitResource)
    → now -ℤ r.exc_stop_record_time <ℤ r.core_limit_time_interval
    → add_exc_stop_record now r
      ≡ close_at_maximum now (record r { cur_exc_stop_count = r.cur_exc_stop_count +ℤ pos 1 })
unfolding add_exc_stop_record
add_within now r h = ground arith

one_more : (n : ℕ) → pos n +ℤ pos 1 ≡ pos (suc n)
unfolding ◌+ℤ◌
one_more n = ground arith

still_closed : (m n : ℕ) → (if leb_ℤ (pos m) (pos (suc n)) then true else leb m n) ≡ leb m (suc n)
still_closed m n = ground arith

add-IsCounting :
    (interval since : ℤ) (m n : ℕ) (now : ℤ) (r : ServerLimitResource)
    → now -ℤ since <ℤ interval
    → IsCounting interval since m n r
    → IsCounting interval since m (suc n) (add_exc_stop_record now r)
add-IsCounting interval since m n now r h c =
    let more : r.cur_exc_stop_count +ℤ pos 1 ≡ pos (suc n) = rw c.counted (one_more n) in
    let near : now -ℤ r.exc_stop_record_time <ℤ r.core_limit_time_interval =
      rw (c.began, c.spaced) h in
    rw
      (
        add_within now r near,
        close_at_maximum_lem now (record r { cur_exc_stop_count = r.cur_exc_stop_count +ℤ pos 1 }),
      )
      (record {
        counted = more;
        bounded = c.bounded;
        spaced = c.spaced;
        began = c.began;
        exact = rw (more, c.bounded, c.exact) (still_closed m n);
      })

stops_close :
    (interval since : ℤ) (m n : ℕ) (later : List ℤ) (r : ServerLimitResource)
    → IsCounting interval since m n r
    → Within interval since later
    → (stops later r).close_core ≡ leb m (n + length later)
stops_close interval since m n [] r c w = rw c.exact ground arith
stops_close interval since m n (now ∷ later) r c w =
    rw
      (stops_close interval since m (suc n) later (add_exc_stop_record now r)
        (add-IsCounting interval since m n now r w.0 c) w.1)
      ground arith

or_one-pos : (m : ℕ) → 1 ≤ m → or_one (pos m) ≡ pos m
unfolding or_one
or_one-pos m h = ground arith

-- The limit is set and the data is reset at `since`.
abbrev pub fresh : ℕ → ℕ → ℤ → ℤ → ServerLimitResource → ServerLimitResource
fresh m minutes expired since r =
    reset_run_time_data since (set_limit_check_info (pos m) (pos minutes) expired r)

fresh-IsCounting :
    (m minutes : ℕ) (expired since : ℤ) (r : ServerLimitResource)
    → 1 ≤ m
    → 1 ≤ minutes
    → IsCounting (pos (minutes * 60)) since m 0 (fresh m minutes expired since r)
unfolding reset_run_time_data set_limit_check_info
fresh-IsCounting m minutes expired since r h k = record {
  counted = refl;
  bounded = or_one-pos m h;
  spaced = rw (or_one-pos minutes k) (*ℤ_pos minutes 60);
  began = refl;
  exact = ground arith;
}

-- After the limit is set and the data is reset at `since`, with a maximum and an interval of at
-- least 1, stops that all come within the interval of `since` close the core exactly if there are
-- at least as many as the maximum.
pub stops-Within :
    (m minutes : ℕ) (expired since : ℤ) (times : List ℤ) (r : ServerLimitResource)
    → 1 ≤ m
    → 1 ≤ minutes
    → Within (pos (minutes * 60)) since times
    → (stops times (fresh m minutes expired since r)).close_core ≡ leb m (length times)
stops-Within m minutes expired since times r h k w =
    rw
      (stops_close (pos (minutes * 60)) since m 0 times (fresh m minutes expired since r)
        (fresh-IsCounting m minutes expired since r h k) w)
      ground arith

add_after :
    (now : ℤ) (r : ServerLimitResource)
    → r.core_limit_time_interval ≤ℤ now -ℤ r.exc_stop_record_time
    → add_exc_stop_record now r
      ≡ record r { cur_exc_stop_count = pos 1; exc_stop_record_time = now }
unfolding add_exc_stop_record
add_after now r h = ground arith

after-IsCounting :
    (m : ℕ) (now : ℤ) (r : ServerLimitResource)
    → 2 ≤ m
    → r.max_exc_stop_count ≡ pos m
    → r.close_core ≡ false
    → r.core_limit_time_interval ≤ℤ now -ℤ r.exc_stop_record_time
    → IsCounting r.core_limit_time_interval now m 1 (add_exc_stop_record now r)
after-IsCounting m now r h b c late =
    rw (add_after now r late) (record {
      counted = refl;
      bounded = b;
      spaced = refl;
      began = refl;
      exact = rw c ground arith;
    })

abbrev open_again : ServerLimitResource → ServerLimitResource
open_again r = record r {
  close_core = false;
  cur_exc_stop_count = pos 0;
  exc_stop_record_time = pos 0;
  enable_core_limit_time = pos 0;
}

-- What a closed core whose time has expired becomes.
reopened :
    (now : ℤ) (r : ServerLimitResource)
    → r.close_core ≡ true
    → r.core_limit_expired_time ≤ℤ now -ℤ r.enable_core_limit_time
    → is_core_limit_need_close now r ≡ (pos 2, false, open_again r)
unfolding is_core_limit_need_close
reopened now r c h = ground arith

-- A core that has been closed for its time, with a maximum of at least 2, is opened with the answer
-- 2, and stops that then come within one interval, the first of them at least one interval after
-- time 0, close it again exactly if there are at least as many as the maximum.
pub reopened_stops :
    (m : ℕ) (now first : ℤ) (later : List ℤ) (r : ServerLimitResource)
    → 2 ≤ m
    → r.max_exc_stop_count ≡ pos m
    → r.close_core ≡ true
    → r.core_limit_expired_time ≤ℤ now -ℤ r.enable_core_limit_time
    → r.core_limit_time_interval ≤ℤ first -ℤ pos 0
    → Within r.core_limit_time_interval first later
    → ((is_core_limit_need_close now r).0 ≡ pos 2)
      × ((stops (first ∷ later) (is_core_limit_need_close now r).2).close_core
          ≡ leb m (length (first ∷ later)))
reopened_stops m now first later r h b c e late w = rw (reopened now r c e) (
  refl,
  rw
      (stops_close r.core_limit_time_interval first m 1 later
        (add_exc_stop_record first (open_again r))
        (after-IsCounting m first (open_again r) h b refl late) w)
      ground arith,
)

-- The answer of `is_core_limit_need_close` is the switch that it leaves, asked again at the same
-- time it changes nothing more, and it says 2 exactly when it opens a closed core.
pub need_close_settles :
    (now : ℤ) (r : ServerLimitResource)
    → ((is_core_limit_need_close now r).1 ≡ (is_core_limit_need_close now r).2.close_core)
      × (is_core_limit_need_close now (is_core_limit_need_close now r).2
          ≡ (pos 1, (is_core_limit_need_close now r).1, (is_core_limit_need_close now r).2))
      × (((is_core_limit_need_close now r).0 ≡ pos 2)
          ↔ ((r.close_core ≡ true) × ((is_core_limit_need_close now r).1 ≡ false)))
unfolding is_core_limit_need_close
need_close_settles now r = ground arith
