-- ===== src/Node/Server/Heartbeat.antt =====
-- `keepAlive`, `keepActiving`, `setLastKeepAliveTime`, `getLastKeepAliveTime`, `isTimeOut` and
-- `isStartTimeOut` of NodeServer/ServerObject.cpp.
pub mod Effects
use tars_framework.Base.{
  Bool, true, false, ◌&&◌, ◌||◌, not, ◌≡◌, refl, ap, Option, none, some, List, [], ◌∷◌, map,
  if◌then◌else◌, String, str_eq, arith, ◌↔◌, string_key, All, is_empty,
}
use tars_framework.Base.Int.{ℤ, pos, negsuc, ◌+ℤ◌, ◌-ℤ◌, ◌*ℤ◌, ◌≤ℤ◌, ◌<ℤ◌, ltb_ℤ, leb_ℤ, eqb_ℤ}
use tars_framework.Base.Map.{Map, find, insert, update}
use tars_framework.Node.Server.{
  InternalServerState, ServerObject, Machine, RegistryProxy, active, activating, is_ing, eq_state,
  set_state, set_pid, check_pid, is_container, inactive, deactivating, destroying, destroyed,
  loading, patching, batch_patching, add_filesing,
}

-- `it1->second = t` for every adapter.
abbrev pub touch_all : ℤ → Map String ℤ → Map String ℤ
touch_all t [] = []
touch_all t ((adapter, since) ∷ times) = (adapter, t) ∷ touch_all t times

unfoldable pub set_last_keep_alive_time : ℤ → String → ServerObject → ServerObject
set_last_keep_alive_time t adapter s = record s {
  keep_alive_time = t;
  adapter_keep_alive_time =
      if str_eq adapter ""
      then touch_all t s.adapter_keep_alive_time
      else update adapter (λ since. t) s.adapter_keep_alive_time;
}

unfoldable pub get_last_keep_alive_time : String → ServerObject → ℤ
get_last_keep_alive_time adapter s =
    if str_eq adapter ""
    then s.keep_alive_time
    else elim (find adapter s.adapter_keep_alive_time) [ some t ↦ t | none ↦ negsuc 0 ]

abbrev pub any_late : ℤ → ℤ → Map String ℤ → Bool
any_late now timeout [] = false
any_late now timeout ((adapter, since) ∷ times) =
    ltb_ℤ timeout (now -ℤ since) || any_late now timeout times

unfoldable pub is_time_out : ℤ → ℤ → ServerObject → Bool
is_time_out now timeout s =
    ltb_ℤ timeout (now -ℤ s.keep_alive_time) || any_late now timeout s.adapter_keep_alive_time

-- `_activatingTimeout > 0 ? _activatingTimeout : 30000`.
unfoldable pub start_timeout : ServerObject → ℤ
start_timeout s = if ltb_ℤ (pos 0) s.activating_timeout then s.activating_timeout else pos 30000

unfoldable pub is_start_time_out : ℤ → ServerObject → Bool
is_start_time_out now_ms s =
    leb_ℤ (start_timeout s) (now_ms -ℤ s.start_time)
    && leb_ℤ (start_timeout s) (now_ms -ℤ s.keep_alive_time)

-- The pid is taken from the heartbeat if the process is not there, or the service is not active.
unfoldable pub take_pid : Machine → ℤ → ℤ × ServerObject → ServerObject
take_pid m pid (ret, s) =
    if (not (eqb_ℤ ret (pos 0)) || not (eq_state s.state active)) && not (is_container s)
    then set_pid m pid s
    else s

-- A heartbeat leaves the states of transition, `activating` excepted, as they are.
unfoldable pub become_active : RegistryProxy → ServerObject → ServerObject
become_active registry s =
    if not (is_ing s.state) || eq_state s.state activating
    then set_state registry active true s
    else s

unfoldable pub keep_alive : Machine → RegistryProxy → ℤ → ℤ → String → ServerObject → ServerObject
keep_alive m registry now pid adapter s =
    if leb_ℤ pid (pos 0)
    then s
    else record (become_active registry
        (take_pid m pid (check_pid m (set_last_keep_alive_time now adapter s)))) {
          loaded = true;
          patched = true;
        }

unfoldable pub keep_activing : Machine → RegistryProxy → ℤ → ℤ → ServerObject → ServerObject
keep_activing m registry now pid s =
    let t = set_last_keep_alive_time now "" s in
    if leb_ℤ pid (pos 0)
    then s
    else set_state registry activating true (if is_container t then t else set_pid m pid t)
