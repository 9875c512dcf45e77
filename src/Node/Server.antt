-- ===== src/Node/Server.antt =====
-- A service of this machine: `ServerObject` of NodeServer/ServerObject.cpp and .h, its state, its
-- process, its heartbeats, and what is told to the registry. `now` is TNOW in seconds, `now_ms`
-- is TNOWMS.
pub mod Heartbeat
pub mod Keeps
pub mod Notice
use Prim.Native.Char.{code}
use tars_framework.Base.{
  Bool, true, false, ◌&&◌, ◌||◌, not, Option, none, some, List, [], ◌∷◌, ◌++◌, if◌then◌else◌,
  String, ℕ, ◌==◌, str_eq, string_key,
}
use tars_framework.Base.Int.{ℤ, pos, negsuc, ◌+ℤ◌, ◌-ℤ◌, ltb_ℤ, leb_ℤ, eqb_ℤ}
use tars_framework.Base.Map.{Map, find, insert, update}
use tars_framework.Node.Activator.{Activator, is_activating_limited}

pub data InternalServerState : Type 0 where
  inactive : InternalServerState
  activating : InternalServerState
  active : InternalServerState
  deactivating : InternalServerState
  destroying : InternalServerState
  destroyed : InternalServerState
  loading : InternalServerState
  patching : InternalServerState
  batch_patching : InternalServerState
  add_filesing : InternalServerState

-- What the registry is told.
pub data ServerState : Type 0 where
  told_inactive : ServerState
  told_activating : ServerState
  told_active : ServerState
  told_deactivating : ServerState
  told_destroying : ServerState
  told_destroyed : ServerState

unfoldable pub to_server_state : InternalServerState → ServerState
to_server_state inactive = told_inactive
to_server_state activating = told_activating
to_server_state active = told_active
to_server_state deactivating = told_deactivating
to_server_state destroying = told_destroying
to_server_state destroyed = told_destroyed
to_server_state loading = told_inactive
to_server_state patching = told_inactive
to_server_state batch_patching = told_inactive
to_server_state add_filesing = told_inactive

unfoldable pub to_string_state : InternalServerState → String
to_string_state inactive = "Inactive"
to_string_state activating = "Activating"
to_string_state active = "Active"
to_string_state deactivating = "Deactivating"
to_string_state destroying = "Destroying"
to_string_state destroyed = "Destroyed"
to_string_state loading = "Loading"
to_string_state patching = "Patching"
to_string_state batch_patching = "BatchPatching"
to_string_state add_filesing = "AddFilesing"

-- `s.find(part) != string::npos`.
abbrev pub starts_with : String → String → Bool
starts_with String.[] s = true
starts_with (String.◌∷◌ c part) String.[] = false
starts_with (String.◌∷◌ c part) (String.◌∷◌ d s) = (code c == code d) && starts_with part s

abbrev pub contains : String → String → Bool
contains part String.[] = starts_with part String.[]
contains part (String.◌∷◌ d s) = starts_with part (String.◌∷◌ d s) || contains part s

-- The test for a state of transition, on its name.
unfoldable pub is_ing : InternalServerState → Bool
is_ing e = contains "ing" (to_string_state e)

abbrev pub eq_state : InternalServerState → InternalServerState → Bool
eq_state d e = str_eq (to_string_state d) (to_string_state e)

pub data RunType : Type 0 where
  native : RunType
  container : RunType

pub record PatchInfo : Type 0 where
  pub percent : ℤ
  pub modify_time : ℤ
  pub result : String
  pub succ : Bool
  pub is_patching : Bool

pub record ServerObject : Type 0 where
  pub run_type : RunType
  pub setting_state : String
  pub adapters : List String
  pub enabled : Bool
  pub loaded : Bool
  pub patched : Bool
  pub noticed : Bool
  pub notice_fail_times : ℤ
  pub en_syn_state : Bool
  pub pid : ℤ
  pub proc_start_time : ℤ
  pub state : InternalServerState
  pub keep_alive_time : ℤ
  pub adapter_keep_alive_time : Map String ℤ
  pub activating_timeout : ℤ
  pub start_time : ℤ
  pub started : Bool
  pub starting : Bool
  pub limit_state_updated : Bool
  pub activator : Activator
  pub patch_info : PatchInfo

-- The container of a service, as the Docker daemon describes it.
pub record Container : Type 0 where
  pub status : String
  pub started_at : ℤ
  pub container_pid : ℤ

-- The machine: `kill(pid, 0) == 0`, TC_Port::getPidStartTime, the Docker daemon's answer, and
-- whether the image is being pulled.
pub record Machine : Type 0 where
  pub exists_pid : ℤ → Bool
  pub get_pid_start_time : ℤ → ℤ
  pub inspect_container : Option Container
  pub is_pulling : Bool

pub record ServerStateInfo : Type 0 where
  pub server_state : ServerState
  pub process_id : ℤ

-- The registry: what `updateServer` returns, or `none` for an exception, and whether the call
-- `async_updateServer` goes out without one. The callbacks of that call are later calls.
pub record RegistryProxy : Type 0 where
  pub update_server : ServerStateInfo → Option ℤ
  pub async_update_server : ServerStateInfo → Bool

unfoldable pub on_update_server_result : ℤ → ServerObject → ServerObject
on_update_server_result ret s =
    if ltb_ℤ ret (pos 0)
    then record s { noticed = false; notice_fail_times = s.notice_fail_times +ℤ pos 1 }
    else record s { noticed = true; notice_fail_times = pos 0 }

unfoldable pub callback_update_server_exception : ℤ → ServerObject → ServerObject
callback_update_server_exception ret s =
    on_update_server_result (if eqb_ℤ ret (pos 0) then negsuc 0 else ret) s

unfoldable pub state_info : ServerObject → ServerStateInfo
state_info s = record {
  server_state = if s.en_syn_state then to_server_state s.state else told_inactive;
  process_id = s.pid;
}

-- After the call, without an exception and with one.
abbrev pub noted : ServerObject → ServerObject
noted s = record s { noticed = true; notice_fail_times = pos 0 }

abbrev pub not_noted : ServerObject → ServerObject
not_noted s = record s { noticed = false; notice_fail_times = s.notice_fail_times +ℤ pos 1 }

unfoldable pub syn_state : RegistryProxy → ServerObject → ServerObject
syn_state registry s =
    if ltb_ℤ s.notice_fail_times (pos 3)
    then elim (registry.update_server (state_info s)) [
      | some ret ↦ noted (on_update_server_result ret s)
      | none ↦ not_noted s
    ]
    else (if registry.async_update_server (state_info s) then noted s else not_noted s)

unfoldable pub set_state : RegistryProxy → InternalServerState → Bool → ServerObject → ServerObject
set_state registry e with_syn s =
    if eq_state s.state e && s.noticed
    then s
    else (if with_syn then syn_state registry (record s { state = e }) else record s { state = e })

abbrev pub is_container : ServerObject → Bool
is_container s = elim s.run_type [ native ↦ false | container ↦ true ]

unfoldable pub set_pid : Machine → ℤ → ServerObject → ServerObject
set_pid m pid s = if eqb_ℤ pid s.pid then s else record s {
  pid = pid;
  proc_start_time =
      if eqb_ℤ pid (pos 0)
      then pos 0
      else (if is_container s then s.proc_start_time else m.get_pid_start_time pid);
}

-- The return value, which is 0 if the process is there, and the state after the call.
unfoldable pub check_container : Machine → ServerObject → ℤ × ServerObject
check_container m s = elim m.inspect_container [
  | none ↦ (if m.is_pulling then pos 0 else negsuc 0, s)
  | some c ↦
      if str_eq c.status "running"
      then (pos 0, set_pid m c.container_pid (record s { proc_start_time = c.started_at }))
      else (if m.is_pulling then pos 0 else negsuc 0, s)
]

unfoldable pub check_pid : Machine → ServerObject → ℤ × ServerObject
check_pid m s =
    if is_container s
    then check_container m s
    else (if ltb_ℤ (pos 0) s.pid && m.exists_pid s.pid then pos 0 else negsuc 0, s)
