-- ===== src/Node/Tests.antt =====
-- The services of a machine at concrete inputs (NodeServer).
use tars_framework.Base.{
  ◌*◌, ◌≡◌, refl, string_key, true, false, ◌&&◌, not, none, some, List, [], ◌∷◌, arith, leb,
}
use tars_framework.Base.Int.{ℤ, pos, negsuc, ◌-ℤ◌, ◌*ℤ◌, ◌≤ℤ◌, leb_ℤ}
use tars_framework.Node.Activator.{
  Activator, clear_runtime_data, is_activating_limited, add_activating_record,
}
use tars_framework.Node.Activator.Bursts.{starts, Follow, burst_limited}
use tars_framework.Node.CoreLimit.{ServerLimitResource}
use tars_framework.Node.CoreLimit.Stops.{stops, fresh, Within, stops-Within}
use tars_framework.Node.Server.{
  inactive, active, batch_patching, ServerObject, native, Machine, RegistryProxy, noted, set_state,
  to_string_state, is_ing, eq_state,
}
use tars_framework.Node.Server.Notice.{
  Callback, answered, failed, IsDown, IsUp, attempt, attempts, told_at_last, answered_is_told,
}
use tars_framework.Node.Server.Heartbeat.{
  set_last_keep_alive_time, start_timeout, is_start_time_out, keep_alive,
}
use tars_framework.Node.Server.Heartbeat.Effects.{keep_alive_effects, is_start_time_out_beaten}
use tars_framework.Node.Commands.{
  find_exe, executable, dis_executable, is_auto_start, Disk, stop_can_execute, start_can_execute,
  start_normal, start_execute, refuse_start, refuse_stop,
}
use tars_framework.Node.Commands.Guards.{stop-start}
use tars_framework.Node.Commands.Starts.{failed_start}
use tars_framework.Node.Commands.Changes.{
  is_blocked, change_state, add_file_can_execute, patch_can_execute, patch_pro, queued,
}
use tars_framework.Node.Commands.Changes.Exclusion.{Refuses, patch_excludes, overlap_sticks}

abbrev activator : Activator
activator = record {
  activing_record = [];
  limited = false;
  cur_count = pos 0;
  max_count = pos 2;
  time_interval = pos 60;
  punish_interval = pos 600;
}

double_60 : pos 2 *ℤ pos 60 ≤ℤ pos 3 *ℤ pos 600
unfolding ◌*ℤ◌
double_60 = omega arith

abbrev times : List ℤ
times = pos 101 ∷ pos 102 ∷ pos 103 ∷ []

follow : Follow (pos 60) (pos 100) times
unfolding ◌-ℤ◌
follow = (omega arith, (omega arith, (omega arith, tt)))

-- Four starts, a second apart.
burst_limited_example :
    (starts (pos 100 ∷ pos 101 ∷ pos 102 ∷ pos 103 ∷ []) (clear_runtime_data activator)).limited
    ≡ leb 4 4
burst_limited_example =
    burst_limited 2 (pos 100) (pos 101 ∷ pos 102 ∷ pos 103 ∷ []) activator refl double_60 follow

abbrev core : ServerLimitResource
core = record {
  close_core = true;
  cur_exc_stop_count = pos 3;
  max_exc_stop_count = pos 3;
  exc_stop_record_time = pos 1000;
  core_limit_time_interval = pos 300;
  enable_core_limit_time = pos 1000;
  core_limit_expired_time = pos 1800;
}

within : Within (pos (5 * 60)) (pos 10) (pos 10 ∷ pos 20 ∷ [])
unfolding ◌-ℤ◌
within = (omega arith, (omega arith, tt))

stops-Within_example :
    (stops (pos 10 ∷ pos 20 ∷ []) (fresh 3 5 (pos 30) (pos 10) core)).close_core ≡ leb 3 2
stops-Within_example =
    stops-Within 3 5 (pos 30) (pos 10) (pos 10 ∷ pos 20 ∷ []) core (omega arith) (omega arith)
      within

abbrev service : ServerObject
service = record {
  run_type = native;
  setting_state = "active";
  adapters = "Obj" ∷ [];
  enabled = true;
  loaded = true;
  patched = true;
  noticed = false;
  notice_fail_times = pos 0;
  en_syn_state = true;
  pid = pos 0;
  proc_start_time = pos 0;
  state = inactive;
  keep_alive_time = pos 1000;
  adapter_keep_alive_time = ("Obj", pos 1000) ∷ [];
  activating_timeout = pos 0;
  start_time = pos 900000;
  started = false;
  starting = false;
  limit_state_updated = false;
  activator = activator;
  patch_info = record {
    percent = pos 0;
    modify_time = pos 0;
    result = "";
    succ = false;
    is_patching = false;
  };
}

abbrev machine : Machine
machine = record {
  exists_pid = λ pid. true;
  get_pid_start_time = λ pid. pos 5;
  inspect_container = none;
  is_pulling = false;
}

abbrev up : RegistryProxy
up = record { update_server = λ info. some (pos 0); async_update_server = λ info. true }

abbrev down : RegistryProxy
down = record { update_server = λ info. none; async_update_server = λ info. false }

abbrev rejecting : RegistryProxy
rejecting = record { update_server = λ info. some (negsuc 0); async_update_server = λ info. true }

-- The calls that are sent come back with an answer, and with an exception.
abbrev reached : RegistryProxy × Callback
reached = (up, answered (pos 0))

-- Calls go out, and time out.
abbrev lost : RegistryProxy × Callback
lost = (record down { async_update_server = λ info. true }, failed (negsuc 6))

reached-IsUp : IsUp reached
reached-IsUp = record {
  answers = λ info. (pos 0, refl);
  takes = λ info. refl;
  succeeds = omega arith;
}

lost-IsDown : IsDown lost
lost-IsDown = record { no_answer = λ info. refl; fails = omega arith }

abbrev losses : List (RegistryProxy × Callback)
losses = lost ∷ lost ∷ lost ∷ lost ∷ []

told_at_last_example :
    ((attempts losses active service).noticed ≡ false)
    × (attempt reached active (attempts losses active service)
        ≡ noted (record service { state = active }))
    × (attempt lost active (attempt reached active (attempts losses active service))
        ≡ attempt reached active (attempts losses active service))
told_at_last_example =
    told_at_last losses reached lost active service
      (lost-IsDown, (lost-IsDown, (lost-IsDown, (lost-IsDown, tt)))) reached-IsUp refl

inactive_active : eq_state inactive active ≡ false
unfolding to_string_state
inactive_active = refl

answered_is_told_example :
    (set_state rejecting active true service ≡ noted (record service { state = active }))
    × (set_state up active true (set_state rejecting active true service)
        ≡ set_state rejecting active true service)
answered_is_told_example =
    answered_is_told rejecting up (negsuc 0) active service inactive_active (omega arith) refl

keep_alive_effects_example :
    ((keep_alive machine up (pos 1010) (pos 42) "Obj" service).state ≡ active)
    × ((keep_alive machine up (pos 1010) (pos 42) "Obj" service).loaded ≡ true)
    × ((keep_alive machine up (pos 1010) (pos 42) "Obj" service).patched ≡ true)
    × ((keep_alive machine up (pos 1010) (pos 42) "Obj" service).keep_alive_time ≡ pos 1010)
    × ((keep_alive machine up (pos 1010) (pos 42) "Obj" service).adapter_keep_alive_time
        ≡ (set_last_keep_alive_time (pos 1010) "Obj" service).adapter_keep_alive_time)
keep_alive_effects_example =
    keep_alive_effects machine up (pos 1010) (pos 42) "Obj" service (omega arith)

default_timeout : start_timeout service ≤ℤ pos (999 * 1001)
unfolding start_timeout
default_timeout = omega arith

is_start_time_out_beaten_example :
    is_start_time_out (pos (1000 * 1001)) service
    ≡ leb_ℤ (start_timeout service) (pos (1000 * 1001) -ℤ pos 900000)
is_start_time_out_beaten_example =
    is_start_time_out_beaten 1001 1000 service refl (omega arith) default_timeout

abbrev disk : Disk
disk = record {
  start_script = "";
  server_type = "tars_cpp";
  is_exe_file = true;
  search_server = false;
}

stop_active : (stop_can_execute up (pos 50) true (record service { state = active })).0 ≡ executable
unfolding stop_can_execute refuse_stop to_string_state
stop_active = refl

stop-start_example :
    ((start_can_execute up disk true
        (stop_can_execute up (pos 50) true (record service { state = active })).1).0
      ≡ dis_executable)
    × (is_auto_start
          (pos 60)
          (stop_can_execute up (pos 50) true (record service { state = active })).1
        ≡ false)
stop-start_example =
    stop-start up up disk (pos 50) (pos 60) true true (record service { state = active })
      stop_active

start_service : (start_can_execute up disk false service).0 ≡ executable
unfolding start_can_execute refuse_start find_exe to_string_state
start_service = refl

-- A service whose next start is the one too many.
abbrev tripping : ServerObject
tripping = record service {
  activator = record activator { activing_record = pos 50 ∷ []; cur_count = pos 2 };
}

start_tripping : (start_can_execute up disk false tripping).0 ≡ executable
unfolding start_can_execute refuse_start find_exe to_string_state
start_tripping = refl

not_launched :
    (start_normal machine (pos 60) none (start_can_execute up disk false tripping).1).0 ≡ false
unfolding start_normal
not_launched = refl

abbrev after_failure : ServerObject
after_failure =
    (start_execute machine up (pos 60) (pos 60000) none
      (start_can_execute up disk false tripping).1).1

failed_start_example :
    ((start_execute machine up
        (pos 60)
        (pos 60000)
        none
        (start_can_execute up disk false tripping).1).0
      ≡ negsuc 0)
    × (after_failure.state ≡ inactive)
    × (after_failure.pid ≡ pos 0)
    × (after_failure.started ≡ false)
    × (is_auto_start (pos 60) after_failure ≡ (
        true
        && not
            (is_activating_limited (pos 60) (add_activating_record (pos 60) tripping.activator))))
failed_start_example =
    failed_start machine up disk (pos 60) (pos 60000) false none tripping after_failure
      start_tripping not_launched refl

unblocked : is_blocked inactive ≡ false
unfolding is_blocked is_ing to_string_state
unblocked = refl

patch_queued :
    (patch_pro up (pos 100) "md5" false (record service { state = inactive })).0 ≡ queued inactive
unfolding patch_pro is_blocked is_ing to_string_state
patch_queued = refl

patch_excludes_example :
    Refuses up disk
      (pos 200)
      (patch_pro up (pos 100) "md5" false (record service { state = inactive })).1
    × Refuses up disk
        (pos 200)
        (patch_can_execute up
          (pos 200)
          (patch_pro up (pos 100) "md5" false (record service { state = inactive })).1).1
    × ((change_state up inactive
          (patch_can_execute up
            (pos 200)
            (patch_pro up (pos 100) "md5" false (record service { state = inactive })).1).1).state
        ≡ (record service { state = inactive }).state)
patch_excludes_example =
    patch_excludes up disk (pos 100) (pos 200) "md5" false (record service { state = inactive })
      inactive patch_queued

adds :
    (add_file_can_execute up "App" "Server" "x.conf" (record service { state = batch_patching })).0
    ≡ executable
unfolding add_file_can_execute
adds = refl

overlap_sticks_example :
    ((change_state up batch_patching (
        change_state up inactive
          (add_file_can_execute up "App" "Server" "x.conf"
            (record service { state = batch_patching })).1)).state
      ≡ batch_patching)
    × Refuses up disk (pos 200) (
        change_state up batch_patching (
          change_state up inactive
            (add_file_can_execute up "App" "Server" "x.conf"
              (record service { state = batch_patching })).1))
overlap_sticks_example =
    overlap_sticks up disk (pos 200) "App" "Server" "x.conf"
      (record service { state = batch_patching }) inactive refl unblocked adds
