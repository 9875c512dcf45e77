-- ===== src/Node/Commands.antt =====
-- The commands that start and stop a service: `canExecute` of NodeServer/CommandStart.cpp and
-- CommandStop.cpp, `execute` by `startNormal`, `startFinish`, `isAutoStart` and the progress of a patch in
-- ServerObject.cpp. The starts by a script of the service's own and in a container are left out.
-- What the start finds on the disk is a parameter, `Disk`.
pub mod Guards
pub mod Starts
pub mod Changes
use tars_framework.Base.{
  Bool, true, false, Option, none, some, ◌&&◌, ◌||◌, not, if◌then◌else◌, String, str_eq,
}
use tars_framework.Base.Int.{ℤ, pos, negsuc, ◌-ℤ◌, eqb_ℤ, ltb_ℤ}
use tars_framework.Node.Activator.{is_activating_limited, add_activating_record}
use tars_framework.Node.Server.{
  InternalServerState, ServerObject, Machine, RegistryProxy, PatchInfo, inactive, activating,
  active, deactivating, destroying, patching, batch_patching, is_ing, eq_state, set_state,
  syn_state, set_pid, check_pid,
}
use tars_framework.Node.Server.Heartbeat.{set_last_keep_alive_time}

pub data ExeStatus : Type 0 where
  executable : ExeStatus
  dis_executable : ExeStatus
  no_need_execute : ExeStatus

unfoldable pub is_auto_start : ℤ → ServerObject → Bool
is_auto_start now s =
    if is_ing s.state
    then false
    else not
        (not s.enabled || not s.loaded || not s.patched || is_activating_limited now s.activator)

unfoldable pub set_patch_percent : ℤ → ℤ → ServerObject → ServerObject
set_patch_percent now percent s = record s {
  patch_info = record s.patch_info {
    percent = if ltb_ℤ (pos 99) percent then pos 99 else percent;
    modify_time = now;
  };
}

unfoldable pub set_patch_result : String → Bool → ServerObject → ServerObject
set_patch_result result succ s = record s {
  patch_info = record s.patch_info { result = result; succ = succ };
}

abbrev pub is_patching_state : InternalServerState → Bool
is_patching_state e = eq_state e patching || eq_state e batch_patching

-- The return value as a test for 0, and the answer.
unfoldable pub get_patch_percent : ServerObject → Bool × PatchInfo
get_patch_percent s = (
  s.patch_info.succ || is_patching_state s.state,
  record s.patch_info { is_patching = is_patching_state s.state },
)

-- Seconds without progress after which a patch may be stopped.
unfoldable pub patch_patience : InternalServerState → ℤ
patch_patience e = if eq_state e batch_patching then pos 600 else pos 10

-- After the switch for automatic starts is set.
unfoldable pub refuse_stop : RegistryProxy → ℤ → ServerObject → ExeStatus × ServerObject
refuse_stop registry now s =
    if eq_state s.state inactive
    then (no_need_execute, syn_state registry s)
    else if eq_state s.state destroying
    then (dis_executable, s)
    else if is_patching_state s.state
        && ltb_ℤ (now -ℤ s.patch_info.modify_time) (patch_patience s.state)
    then (dis_executable, s)
    else (executable, set_state registry deactivating true s)

unfoldable pub stop_can_execute : RegistryProxy → ℤ → Bool → ServerObject → ExeStatus × ServerObject
stop_can_execute registry now by_node s =
    refuse_stop registry now (if by_node then record s { enabled = false } else s)

-- The start script and the type of the service, whether its program exists
-- (TC_File::isFileExist), and whether `searchServer` finds another one.
pub record Disk : Type 0 where
  pub start_script : String
  pub server_type : String
  pub is_exe_file : Bool
  pub search_server : Bool

-- `findExe`: only programs in C++ and Go are looked for.
unfoldable pub find_exe : Disk → Bool
find_exe disk =
    if str_eq disk.server_type "tars_cpp" || str_eq disk.server_type "tars_go"
    then disk.is_exe_file || disk.search_server
    else true

-- After the switch for automatic starts is set.
unfoldable pub refuse_start : RegistryProxy → Disk → ServerObject → ExeStatus × ServerObject
refuse_start registry disk s =
    if not s.enabled
    then (dis_executable, s)
    else if eq_state s.state active || eq_state s.state activating
    then (no_need_execute, syn_state registry s)
    else if not (eq_state s.state inactive)
    then (dis_executable, s)
    else if str_eq disk.start_script "" && not (find_exe disk)
    then (dis_executable, record s { patched = false })
    else (executable, set_state registry activating false (record s { patched = true }))

unfoldable pub start_can_execute :
    RegistryProxy → Disk → Bool → ServerObject → ExeStatus × ServerObject
start_can_execute registry disk by_node s =
    refuse_start registry disk (if by_node then record s { enabled = true } else s)

unfoldable pub start_finish : Machine → RegistryProxy → ℤ → ℤ → Bool → ServerObject → ServerObject
start_finish m registry now now_ms succ s =
    if succ
    then record (set_last_keep_alive_time now "" (syn_state registry s)) {
      limit_state_updated = true;
      started = true;
      start_time = now_ms;
    }
    else record (set_state registry inactive true (set_pid m (pos 0) s)) { started = false }

-- Whether the process is there, after `activate`, which throws where there is no pid.
unfoldable pub start_normal : Machine → ℤ → Option ℤ → ServerObject → Bool × ServerObject
start_normal m now launch s =
    let recorded = record s { activator = add_activating_record now s.activator } in
    elim launch [
      | none ↦ (false, recorded)
      | some pid ↦ let r = check_pid m (set_pid m pid recorded) in (eqb_ℤ r.0 (pos 0), r.1)
    ]

unfoldable pub start_execute :
    Machine → RegistryProxy → ℤ → ℤ → Option ℤ → ServerObject → ℤ × ServerObject
start_execute m registry now now_ms launch s =
    let r = start_normal m now launch s in
    (if r.0 then pos 0 else negsuc 0, start_finish m registry now now_ms r.0 r.1)
