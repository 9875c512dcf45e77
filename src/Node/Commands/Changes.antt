-- ===== src/Node/Commands/Changes.antt =====
-- The commands that hold a service in a state while they run: `canExecute` of NodeServer/CommandLoad.cpp,
-- CommandAddFile.cpp, CommandPatch.cpp, CommandDestroy.cpp and CommandNotify.cpp, `StatExChange` of
-- ServerCommand.h, and what `patchPro` of ServerManager.cpp does before a patch. The version of a
-- patch is only passed on.
pub mod Exclusion
use tars_framework.Base.{Bool, true, false, ◌&&◌, ◌||◌, not, if◌then◌else◌, String, str_eq}
use tars_framework.Base.Int.{ℤ, pos}
use tars_framework.Node.Server.{
  InternalServerState, ServerObject, RegistryProxy, inactive, activating, destroying, loading,
  add_filesing, batch_patching, is_ing, eq_state, set_state,
}
use tars_framework.Node.Commands.{
  ExeStatus, executable, dis_executable, set_patch_percent, set_patch_result,
}

-- A state in which neither a configuration is loaded nor a patch begins.
unfoldable pub is_blocked : InternalServerState → Bool
is_blocked e = is_ing e && not (eq_state e activating)

-- The start and the end of `StatExChange`.
unfoldable pub change_state : RegistryProxy → InternalServerState → ServerObject → ServerObject
change_state registry e s = set_state registry e true s

unfoldable pub load_can_execute :
    RegistryProxy → String → String → ServerObject → ExeStatus × ServerObject
load_can_execute registry application server_name s =
    if str_eq application "" || str_eq server_name ""
    then (dis_executable, s)
    else if is_blocked s.state
    then (dis_executable, s)
    else (executable, change_state registry loading s)

unfoldable pub add_file_can_execute :
    RegistryProxy → String → String → String → ServerObject → ExeStatus × ServerObject
add_file_can_execute registry application server_name file s =
    if str_eq application "" || str_eq server_name ""
    then (dis_executable, s)
    else if str_eq file ""
    then (dis_executable, s)
    else (executable, change_state registry add_filesing s)

unfoldable pub patch_can_execute : RegistryProxy → ℤ → ServerObject → ExeStatus × ServerObject
patch_can_execute registry now s = (
  executable,
  set_patch_result "" true (set_patch_percent now (pos 0) (change_state registry batch_patching s)),
)

unfoldable pub destroy_can_execute : ServerObject → ExeStatus
destroy_can_execute s = if not (eq_state s.state inactive) then dis_executable else executable

unfoldable pub notify_can_execute : ServerObject → ExeStatus
notify_can_execute s =
    if eq_state s.state inactive
    then dis_executable
    else if eq_state s.state destroying
    then dis_executable
    else executable

-- What `patchPro` answers: an error, or that the patch is queued, with the state that comes back
-- after it (`_lastState`).
pub data Preset : Type 0 where
  service_state_err : Preset
  parameter_err : Preset
  queued : InternalServerState → Preset

-- The checksum, and whether the system of the request is another than this one's.
unfoldable pub patch_pro : RegistryProxy → ℤ → String → Bool → ServerObject → Preset × ServerObject
patch_pro registry now md5 other_os s =
    if is_blocked s.state
    then (service_state_err, s)
    else if str_eq md5 ""
    then (parameter_err, s)
    else if other_os
    then (parameter_err, s)
    else (queued s.state, set_patch_percent now (pos 0) (change_state registry batch_patching s))
