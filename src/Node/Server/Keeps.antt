-- ===== src/Node/Server/Keeps.antt =====
-- Which fields the calls to the registry and the operating system leave alone
-- (NodeServer/ServerObject.cpp).
use tars_framework.Base.{
  Bool, true, ◌≡◌, refl, ap, if◌then◌else◌, str_eq, arith, string_key, String,
}
use tars_framework.Base.Int.{ℤ}
use tars_framework.Node.Server.{
  InternalServerState, ServerObject, Machine, RegistryProxy, eq_state, syn_state,
  on_update_server_result, set_pid, check_pid, check_container, to_string_state, inactive,
  activating, active, deactivating, destroying, destroyed, loading, patching, batch_patching,
  add_filesing,
}

-- All but what the registry is known to know.
abbrev pub renotice : Bool → ℤ → ServerObject → ServerObject
renotice noticed times s = record s { noticed = noticed; notice_fail_times = times }

-- All but the process.
abbrev pub reprocess : ℤ → ℤ → ServerObject → ServerObject
reprocess pid since s = record s { pid = pid; proc_start_time = since }

pub syn_state_keeps :
    (registry : RegistryProxy) (s : ServerObject)
    → syn_state registry s
      ≡ renotice (syn_state registry s).noticed (syn_state registry s).notice_fail_times s
unfolding syn_state on_update_server_result
syn_state_keeps registry s = ground arith

pub set_pid_keeps :
    (m : Machine) (pid : ℤ) (s : ServerObject)
    → set_pid m pid s ≡ reprocess (set_pid m pid s).pid (set_pid m pid s).proc_start_time s
unfolding set_pid
set_pid_keeps m pid s = ground arith

pub check_pid_keeps :
    (m : Machine) (s : ServerObject)
    → (check_pid m s).1 ≡ reprocess (check_pid m s).1.pid (check_pid m s).1.proc_start_time s
unfolding check_pid check_container set_pid
check_pid_keeps m s = ground arith

-- The state of a name.
abbrev named : String → InternalServerState
named name =
    if str_eq name (to_string_state activating)
    then activating
    else if str_eq name (to_string_state active)
    then active
    else if str_eq name (to_string_state deactivating)
    then deactivating
    else if str_eq name (to_string_state destroying)
    then destroying
    else if str_eq name (to_string_state destroyed)
    then destroyed
    else if str_eq name (to_string_state loading)
    then loading
    else if str_eq name (to_string_state patching)
    then patching
    else if str_eq name (to_string_state batch_patching)
    then batch_patching
    else if str_eq name (to_string_state add_filesing)
    then add_filesing
    else inactive

named-to_string_state : (e : InternalServerState) → named (to_string_state e) ≡ e
unfolding to_string_state
named-to_string_state inactive = refl
named-to_string_state activating = refl
named-to_string_state active = refl
named-to_string_state deactivating = refl
named-to_string_state destroying = refl
named-to_string_state destroyed = refl
named-to_string_state loading = refl
named-to_string_state patching = refl
named-to_string_state batch_patching = refl
named-to_string_state add_filesing = refl

-- States with one name are equal.
pub eq_state-eq : (d e : InternalServerState) → eq_state d e ≡ true → d ≡ e
eq_state-eq d e h =
    rw⁻¹ (named-to_string_state d, named-to_string_state e)
      (ap named ((string_key.beq_iff (to_string_state d) (to_string_state e)).0 h))
