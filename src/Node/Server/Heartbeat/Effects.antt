-- ===== src/Node/Server/Heartbeat/Effects.antt =====
-- What a heartbeat does to the service (`keepAlive` of NodeServer/ServerObject.cpp), and to its
-- timeouts.
use tars_framework.Base.{
  ℕ, ◌*◌, ◌≤◌, true, ◌&&◌, ◌||◌, not, ◌≡◌, refl, ap, ◌∙◌, [], ◌∷◌, if◌then◌else◌, String, arith,
  &&-eq-true, Bool-cases, inl, inr, string_key,
}
use tars_framework.Base.Int.{ℤ, pos, ◌-ℤ◌, ◌≤ℤ◌, ◌<ℤ◌, ltb_ℤ, leb_ℤ}
use tars_framework.Base.Map.{Map}
use tars_framework.Node.Server.{
  InternalServerState, ServerObject, Machine, RegistryProxy, active, activating, is_ing, eq_state,
  set_state, set_pid, check_pid, inactive, deactivating, destroying, destroyed, loading, patching,
  batch_patching, add_filesing, to_string_state,
}
use tars_framework.Node.Server.Keeps.{
  renotice, reprocess, eq_state-eq, syn_state_keeps, check_pid_keeps,
}
use tars_framework.Node.Server.Heartbeat.{
  touch_all, set_last_keep_alive_time, any_late, is_time_out, start_timeout, is_start_time_out,
  take_pid, become_active, keep_alive,
}

-- The state after a heartbeat.
abbrev pub heartbeat_state : InternalServerState → InternalServerState
heartbeat_state inactive = active
heartbeat_state activating = active
heartbeat_state active = active
heartbeat_state deactivating = deactivating
heartbeat_state destroying = destroying
heartbeat_state destroyed = active
heartbeat_state loading = loading
heartbeat_state patching = patching
heartbeat_state batch_patching = batch_patching
heartbeat_state add_filesing = add_filesing

set_state_keeps :
    (registry : RegistryProxy) (s : ServerObject)
    → set_state registry active true s
      ≡ renotice
          (set_state registry active true s).noticed
          (set_state registry active true s).notice_fail_times
          (record s { state = active })
unfolding set_state
set_state_keeps registry s = elim (Bool-cases (eq_state s.state active && s.noticed)) [
  | inl e ↦
      rw e (ap (λ t. record s { state = t }) (eq_state-eq s.state active (&&-eq-true _ _ e).0))
  | inr e ↦ rw e (syn_state_keeps registry (record s { state = active }))
]

settled :
    (e : InternalServerState)
    → (if not (is_ing e) || eq_state e activating then active else e) ≡ heartbeat_state e
unfolding is_ing to_string_state
settled inactive = refl
settled activating = refl
settled active = refl
settled deactivating = refl
settled destroying = refl
settled destroyed = refl
settled loading = refl
settled patching = refl
settled batch_patching = refl
settled add_filesing = refl

become_active_keeps :
    (registry : RegistryProxy) (s : ServerObject)
    → become_active registry s
      ≡ renotice
          (become_active registry s).noticed
          (become_active registry s).notice_fail_times
          (record s { state = heartbeat_state s.state })
unfolding become_active
become_active_keeps registry s =
    rw⁻¹ (settled s.state)
      (elim (Bool-cases (not (is_ing s.state) || eq_state s.state activating)) [
        | inl e ↦ rw e (set_state_keeps registry s)
        | inr e ↦ rw e refl
      ])

take_pid_keeps :
    (m : Machine) (pid : ℤ) (r : ℤ × ServerObject)
    → take_pid m pid r ≡ reprocess (take_pid m pid r).pid (take_pid m pid r).proc_start_time r.1
unfolding take_pid set_pid
take_pid_keeps m pid r = ground arith

-- A service with its time and its process as the heartbeat leaves them.
abbrev beaten : Machine → ℤ → ℤ → String → ServerObject → ServerObject
beaten m now pid adapter s = take_pid m pid (check_pid m (set_last_keep_alive_time now adapter s))

beaten_keeps :
    (m : Machine) (now pid : ℤ) (adapter : String) (s : ServerObject)
    → beaten m now pid adapter s
      ≡ reprocess
          (beaten m now pid adapter s).pid
          (beaten m now pid adapter s).proc_start_time
          (set_last_keep_alive_time now adapter s)
beaten_keeps m now pid adapter s =
    let t : ServerObject = set_last_keep_alive_time now adapter s in
    take_pid_keeps m pid (check_pid m t)
    ∙ ap
        (λ u.
          reprocess (beaten m now pid adapter s).pid (beaten m now pid adapter s).proc_start_time u)
        (check_pid_keeps m t)

alive_keeps :
    (m : Machine) (registry : RegistryProxy) (now pid : ℤ) (adapter : String) (s : ServerObject)
    → pos 0 <ℤ pid
    → keep_alive m registry now pid adapter s
      ≡ record (become_active registry (beaten m now pid adapter s)) {
        loaded = true;
        patched = true;
      }
unfolding keep_alive
alive_keeps m registry now pid adapter s h = ground arith

-- A heartbeat with a positive pid moves the state as `heartbeat_state` says, marks the service as
-- loaded and patched, and takes its time; the state, the flags and the times do not depend on the
-- machine or the registry.
pub keep_alive_effects :
    (m : Machine) (registry : RegistryProxy) (now pid : ℤ) (adapter : String) (s : ServerObject)
    → pos 0 <ℤ pid
    → ((keep_alive m registry now pid adapter s).state ≡ heartbeat_state s.state)
      × ((keep_alive m registry now pid adapter s).loaded ≡ true)
      × ((keep_alive m registry now pid adapter s).patched ≡ true)
      × ((keep_alive m registry now pid adapter s).keep_alive_time ≡ now)
      × ((keep_alive m registry now pid adapter s).adapter_keep_alive_time
          ≡ (set_last_keep_alive_time now adapter s).adapter_keep_alive_time)
unfolding set_last_keep_alive_time
keep_alive_effects m registry now pid adapter s h =
    let t : ServerObject = beaten m now pid adapter s in
    let b : t ≡ reprocess t.pid t.proc_start_time (set_last_keep_alive_time now adapter s) =
      beaten_keeps m now pid adapter s in
    let a : become_active registry t
        ≡ renotice (become_active registry t).noticed (become_active registry t).notice_fail_times
            (record t { state = heartbeat_state t.state }) =
      become_active_keeps registry t in
    rw (alive_keeps m registry now pid adapter s h) (
      ap (λ u. u.state) a ∙ ap (λ u. heartbeat_state u.state) b,
      refl,
      refl,
      ap (λ u. u.keep_alive_time) a ∙ ap (λ u. u.keep_alive_time) b,
      ap (λ u. u.adapter_keep_alive_time) a ∙ ap (λ u. u.adapter_keep_alive_time) b,
    )

touched_on_time :
    (now t timeout : ℤ) (times : Map String ℤ)
    → (ltb_ℤ timeout (t -ℤ now) || any_late t timeout (touch_all now times))
      ≡ ltb_ℤ timeout (t -ℤ now)
touched_on_time now t timeout [] = ground arith
touched_on_time now t timeout ((adapter, since) ∷ times) =
    ground (touched_on_time now t timeout times, arith)

-- After a heartbeat for all adapters with a positive pid, the service is timed out exactly when
-- more than the timeout has passed since.
pub keep_alive-is_time_out :
    (m : Machine) (registry : RegistryProxy) (now pid t timeout : ℤ) (s : ServerObject)
    → pos 0 <ℤ pid
    → is_time_out t timeout (keep_alive m registry now pid "" s) ≡ ltb_ℤ timeout (t -ℤ now)
unfolding is_time_out set_last_keep_alive_time
keep_alive-is_time_out m registry now pid t timeout s h =
    let e = keep_alive_effects m registry now pid "" s h in
    rw (e.3, e.4) (touched_on_time now t timeout s.adapter_keep_alive_time)

heartbeat_ignored :
    (timeout : ℤ) (now since : ℕ)
    → since ≤ now
    → timeout ≤ℤ pos (999 * now)
    → timeout ≤ℤ pos (1000 * now) -ℤ pos since
unfolding ◌-ℤ◌
heartbeat_ignored timeout now since h k = ground arith

-- A service whose last heartbeat came at any second up to `now` has at the second `now` timed out
-- of its start exactly if the timeout has passed since the start, whenever the heartbeat was, once
-- 999 times the clock is at least the timeout: the milliseconds of the clock are compared with the
-- seconds of the heartbeat.
pub is_start_time_out_beaten :
    (now since : ℕ) (s : ServerObject)
    → s.keep_alive_time ≡ pos since
    → since ≤ now
    → start_timeout s ≤ℤ pos (999 * now)
    → is_start_time_out (pos (1000 * now)) s
      ≡ leb_ℤ (start_timeout s) (pos (1000 * now) -ℤ s.start_time)
unfolding is_start_time_out
is_start_time_out_beaten now since s e h k =
    let late : leb_ℤ (start_timeout s) (pos (1000 * now) -ℤ s.keep_alive_time) ≡ true =
      rw e ground (arith, heartbeat_ignored (start_timeout s) now since h k) in
    rw late ground arith
