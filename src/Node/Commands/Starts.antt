-- ===== src/Node/Commands/Starts.antt =====
-- When a service may be started (NodeServer/CommandStart.cpp), what the start then excludes, and what
-- a failure leaves.
use tars_framework.Base.{
  str_eq, Bool, true, false, ◌&&◌, ◌||◌, not, ◌≡◌, refl, sym, ap, ◌∙◌, arith, Bool-cases, inl, inr,
  Option, none, some,
}
use tars_framework.Base.Int.{ℤ, pos, negsuc, eqb_ℤ, eqb_ℤ→eq}
use tars_framework.Node.Activator.{is_activating_limited, add_activating_record}
use tars_framework.Node.Server.{
  ServerObject, Machine, RegistryProxy, inactive, activating, is_ing, eq_state, set_state, set_pid,
  check_pid, to_string_state,
}
use tars_framework.Node.Server.Keeps.{
  renotice, reprocess, set_pid_keeps, check_pid_keeps, syn_state_keeps, eq_state-eq,
}
use tars_framework.Node.Commands.{
  find_exe, executable, no_need_execute, is_auto_start, Disk, start_can_execute, start_finish,
  start_normal, start_execute, refuse_start,
}
use tars_framework.Node.Commands.Guards.{activating_ing, auto-refused}

start_lem :
    (registry : RegistryProxy) (disk : Disk) (s : ServerObject)
    → (refuse_start registry disk s).0 ≡ executable
    → ((refuse_start registry disk s).1
        ≡ set_state registry activating false (record s { patched = true }))
      × (s.enabled ≡ true)
      × (eq_state s.state inactive ≡ true)
unfolding refuse_start
start_lem registry disk s h = ground arith

set_state-quiet :
    (registry : RegistryProxy) (s : ServerObject)
    → s.state ≡ inactive
    → set_state registry activating false s ≡ record s { state = activating }
unfolding set_state to_string_state
set_state-quiet registry s h =
    let other : eq_state s.state activating ≡ false = rw h refl in rw other refl

start_activating :
    (registry : RegistryProxy) (disk : Disk) (s : ServerObject)
    → (refuse_start registry disk s).0 ≡ executable
    → (refuse_start registry disk s).1 ≡ record s { patched = true; state = activating }
start_activating registry disk s h =
    let l = start_lem registry disk s h in
    l.0 ∙ set_state-quiet registry (record s { patched = true }) (eq_state-eq s.state inactive l.2)

refuse_start-activating :
    (registry : RegistryProxy) (disk : Disk) (s : ServerObject)
    → s.state ≡ activating
    → s.enabled ≡ true
    → (refuse_start registry disk s).0 ≡ no_need_execute
unfolding refuse_start to_string_state
refuse_start-activating registry disk s h e = rw (h, e) ground arith

start_refused_again :
    (registry : RegistryProxy) (disk : Disk) (by_node : Bool) (s : ServerObject)
    → s.state ≡ activating
    → s.enabled ≡ true
    → (start_can_execute registry disk by_node s).0 ≡ no_need_execute
unfolding start_can_execute
start_refused_again registry disk true s h e =
    refuse_start-activating registry disk (record s { enabled = true }) h refl
start_refused_again registry disk false s h e = refuse_start-activating registry disk s h e

executable_start :
    (registry : RegistryProxy) (disk : Disk) (by_node : Bool) (s : ServerObject)
    → (start_can_execute registry disk by_node s).0 ≡ executable
    → (start_can_execute registry disk by_node s).1
      ≡ record s { enabled = true; patched = true; state = activating }
unfolding start_can_execute
executable_start registry disk true s h =
    start_activating registry disk (record s { enabled = true }) h
executable_start registry disk false s h =
    start_activating registry disk s h
    ∙ ap (λ b. record s { enabled = b; patched = true; state = activating })
        (start_lem registry disk s h).1

-- A start that is executed changes only the state, to activating, and two switches; a second start
-- finds nothing to do, and no automatic start follows.
pub start-start :
    (registry later : RegistryProxy) (disk again : Disk) (now : ℤ) (by_node by_user : Bool)
    (s : ServerObject)
    → (start_can_execute registry disk by_node s).0 ≡ executable
    → ((start_can_execute registry disk by_node s).1
        ≡ record s { enabled = true; patched = true; state = activating })
      × ((start_can_execute later again by_user (start_can_execute registry disk by_node s).1).0
          ≡ no_need_execute)
      × (is_auto_start now (start_can_execute registry disk by_node s).1 ≡ false)
start-start registry later disk again now by_node by_user s h =
    let e = executable_start registry disk by_node s h in
    let t : ServerObject = record s { enabled = true; patched = true; state = activating } in
    rw e (
      refl,
      start_refused_again later again by_user t refl refl,
      auto-refused now t activating refl activating_ing,
    )

inactive_quiet : is_ing inactive ≡ false
unfolding is_ing to_string_state
inactive_quiet = refl

auto_enabled : (now : ℤ) (s : ServerObject) → is_auto_start now s ≡ true → s.enabled ≡ true
unfolding is_auto_start
auto_enabled now s h = ground arith

-- An automatic start of an inactive service that finds its program or its script is executed.
pub auto_start-executable :
    (registry : RegistryProxy) (disk : Disk) (now : ℤ) (s : ServerObject)
    → s.state ≡ inactive
    → is_auto_start now s ≡ true
    → (not (str_eq disk.start_script "") || find_exe disk) ≡ true
    → (start_can_execute registry disk false s).0 ≡ executable
unfolding start_can_execute refuse_start is_auto_start to_string_state
auto_start-executable registry disk now s h a d = rw (h, auto_enabled now s a) ground arith

set_pid_none : (m : Machine) (s : ServerObject) → (set_pid m (pos 0) s).pid ≡ pos 0
unfolding set_pid
set_pid_none m s = elim (Bool-cases (eqb_ℤ (pos 0) s.pid)) [
  | inl e ↦ rw e (sym (eqb_ℤ→eq (pos 0) s.pid e))
  | inr e ↦ rw e refl
]

-- A service whose start, once executed, has failed.
abbrev failed : Machine → RegistryProxy → ServerObject → ServerObject
failed m registry s = record (set_state registry inactive true (set_pid m (pos 0) s)) {
  started = false;
}

no_process :
    (m : Machine) (s : ServerObject)
    → set_pid m (pos 0) s ≡ reprocess (pos 0) (set_pid m (pos 0) s).proc_start_time s
no_process m s =
    set_pid_keeps m (pos 0) s
    ∙ ap (λ p. reprocess p (set_pid m (pos 0) s).proc_start_time s) (set_pid_none m s)

set_inactive :
    (registry : RegistryProxy) (s : ServerObject)
    → s.state ≡ activating
    → set_state registry inactive true s
      ≡ renotice
          (set_state registry inactive true s).noticed
          (set_state registry inactive true s).notice_fail_times
          (record s { state = inactive })
unfolding set_state to_string_state
set_inactive registry s h =
    let other : eq_state s.state inactive ≡ false = rw h refl in
    rw other (syn_state_keeps registry (record s { state = inactive }))

failed_lem :
    (m : Machine) (registry : RegistryProxy) (s : ServerObject)
    → s.state ≡ activating
    → failed m registry s
      ≡ record (renotice
          (failed m registry s).noticed
          (failed m registry s).notice_fail_times
          (reprocess (pos 0) (set_pid m (pos 0) s).proc_start_time s)) {
            state = inactive;
            started = false;
          }
failed_lem m registry s h =
    let u : ServerObject = set_pid m (pos 0) s in
    let state : u.state ≡ activating = ap (λ v. v.state) (no_process m s) ∙ h in
    ap {A = ServerObject} (λ v. record v { started = false }) (set_inactive registry u state)
    ∙ ap {A = ServerObject}
        (λ v.
          record (renotice (failed m registry s).noticed (failed m registry s).notice_fail_times
            v) { state = inactive; started = false })
        (no_process m s)

auto_lem :
    (now : ℤ) (s : ServerObject)
    → s.state ≡ inactive
    → s.enabled ≡ true
    → s.patched ≡ true
    → is_auto_start now s ≡ (s.loaded && not (is_activating_limited now s.activator))
unfolding is_auto_start
auto_lem now s h e p = rw (h, e, p, inactive_quiet) ground arith

-- A service that is being started: the switches and the state, and the start on record.
abbrev recorded : ℤ → ServerObject → ServerObject
recorded now s = record s { activator = add_activating_record now s.activator }

start_normal_keeps :
    (m : Machine) (now : ℤ) (launch : Option ℤ) (s : ServerObject)
    → (start_normal m now launch s).1
      ≡ reprocess
          (start_normal m now launch s).1.pid
          (start_normal m now launch s).1.proc_start_time
          (recorded now s)
unfolding start_normal
start_normal_keeps m now none s = refl
start_normal_keeps m now (some pid) s =
    let t : ServerObject = set_pid m pid (recorded now s) in
    check_pid_keeps m t
    ∙ ap (λ u. reprocess (check_pid m t).1.pid (check_pid m t).1.proc_start_time u)
        (set_pid_keeps m pid (recorded now s))

execute_failed :
    (m : Machine) (registry : RegistryProxy) (now now_ms : ℤ) (launch : Option ℤ) (s : ServerObject)
    → (start_normal m now launch s).0 ≡ false
    → start_execute m registry now now_ms launch s
      ≡ (negsuc 0, failed m registry (start_normal m now launch s).1)
unfolding start_execute start_finish
execute_failed m registry now now_ms launch s h = rw h refl

-- A start that is executed, by `startNormal`, and then fails answers -1 and leaves the service inactive
-- with no process. It is started again automatically exactly if it has been loaded and its starts are
-- not limited, of which this one counts as the last.
pub failed_start :
    (m : Machine) (registry : RegistryProxy) (disk : Disk) (now now_ms : ℤ) (by_node : Bool)
    (launch : Option ℤ) (s r : ServerObject)
    → (start_can_execute registry disk by_node s).0 ≡ executable
    → (start_normal m now launch (start_can_execute registry disk by_node s).1).0 ≡ false
    → (start_execute m registry now now_ms launch (start_can_execute registry disk by_node s).1).1
      ≡ r
    → ((start_execute m registry now now_ms launch (start_can_execute registry disk by_node s).1).0
        ≡ negsuc 0)
      × (r.state ≡ inactive)
      × (r.pid ≡ pos 0)
      × (r.started ≡ false)
      × (is_auto_start now r
          ≡ (s.loaded && not (is_activating_limited now (add_activating_record now s.activator))))
failed_start m registry disk now now_ms by_node launch s r h f e =
    let t : ServerObject = record s { enabled = true; patched = true; state = activating } in
    let x = executable_start registry disk by_node s h in
    let u : ServerObject = (start_normal m now launch t).1 in
    let f' : (start_normal m now launch t).0 ≡ false = rw x at f in
    let both =
      ap (λ v. start_execute m registry now now_ms launch v) x
      ∙ execute_failed m registry now now_ms launch t f' in
    let kept = start_normal_keeps m now launch t in
    let k : r
        ≡ record (renotice (failed m registry u).noticed (failed m registry u).notice_fail_times
            (reprocess (pos 0) (set_pid m (pos 0) u).proc_start_time u)) {
              state = inactive;
              started = false;
            } =
      sym e ∙ ap (λ p. p.1) both ∙ failed_lem m registry u (ap (λ v. v.state) kept) in
    (
      ap (λ p. p.0) both,
      ap (λ v. v.state) k,
      ap (λ v. v.pid) k,
      ap (λ v. v.started) k,
      ap (is_auto_start now) k
          ∙ auto_lem now _ refl (ap (λ v. v.enabled) kept) (ap (λ v. v.patched) kept)
          ∙ ap (λ v. v.loaded && not (is_activating_limited now v.activator)) kept,
    )
