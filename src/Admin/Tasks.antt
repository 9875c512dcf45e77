-- ===== src/Admin/Tasks.antt =====
-- A list of tasks, `TaskList` of AdminRegistryServer/ExecuteTask.cpp and .h, its answers, and one
-- task. The calls of the registry, of the database and of the nodes are the parameter `AdminImp`;
-- what is only written to the database is left out, and so are the times of the items. `executed` is no
-- field of the source: it notes the tasks that `executeSingleTask` was called for, in order.
pub mod Elegant
pub mod Parallel
pub mod Serial
pub mod Status
use Prim.Native.String.{◌++◌ as ◌+++◌}
use tars_framework.Base.{
  ℕ, suc, Bool, true, false, ◌&&◌, not, Option, none, some, List, [], ◌∷◌, ◌++◌, map, if◌then◌else◌,
  String, str_eq, string_key, modify,
}
use tars_framework.Base.Int.{ℤ, pos, eqb_ℤ}
use tars_framework.Base.Map.{Map, find, get_or}

pub data EmTaskItemStatus : Type 0 where
  item_not_start : EmTaskItemStatus
  item_prepare : EmTaskItemStatus
  item_running : EmTaskItemStatus
  item_pause_flow : EmTaskItemStatus
  item_success : EmTaskItemStatus
  item_failed : EmTaskItemStatus
  item_cancel : EmTaskItemStatus

pub data EmTaskStatus : Type 0 where
  task_not_start : EmTaskStatus
  task_prepare : EmTaskStatus
  task_running : EmTaskStatus
  task_success : EmTaskStatus
  task_failed : EmTaskStatus
  task_cancel : EmTaskStatus
  task_partial : EmTaskStatus

pub record TaskItemReq : Type 0 where
  pub item_no : String
  pub application : String
  pub server_name : String
  pub node_name : String
  pub command : String
  pub parameters : Map String String

pub record TaskItemRsp : Type 0 where
  pub req : TaskItemReq
  pub status : EmTaskItemStatus
  pub percent : ℤ
  pub execute_log : String

pub record TaskList : Type 0 where
  pub task_item_req : List TaskItemReq
  pub task_item_rsp : List TaskItemRsp
  pub task_status : EmTaskStatus
  pub finished : Bool
  pub executed : List TaskItemReq

unfoldable pub new_item : TaskItemReq → TaskItemRsp
new_item req = record { req = req; status = item_not_start; percent = pos 0; execute_log = "" }

unfoldable pub new_task_list : List TaskItemReq → TaskList
new_task_list reqs = record {
  task_item_req = reqs;
  task_item_rsp = map new_item reqs;
  task_status = task_not_start;
  finished = false;
  executed = [];
}

unfoldable pub is_not_start : EmTaskItemStatus → Bool
is_not_start item_not_start = true
is_not_start _ = false

unfoldable pub cancel_item : TaskItemRsp → TaskItemRsp
cancel_item r = if is_not_start r.status then record r { status = item_cancel } else r

-- Whether `cancelNum > 0`.
unfoldable pub any_not_start : List TaskItemRsp → Bool
any_not_start [] = false
any_not_start (r ∷ rs) = if is_not_start r.status then true else any_not_start rs

unfoldable pub cancel_task : TaskList → TaskList
cancel_task t = record t {
  task_item_rsp = map cancel_item t.task_item_rsp;
  task_status = if any_not_start t.task_item_rsp then task_cancel else t.task_status;
}

unfoldable pub set_rsp_info : ℕ → EmTaskItemStatus → TaskList → TaskList
set_rsp_info index status t = record t {
  task_item_rsp = modify t.task_item_rsp index (λ r. record r { status = status });
}

unfoldable pub set_rsp_percent : ℕ → ℤ → TaskList → TaskList
set_rsp_percent index percent t = record t {
  task_item_rsp = modify t.task_item_rsp index (λ r. record r { percent = percent });
}

unfoldable pub set_rsp_log : ℕ → String → TaskList → TaskList
set_rsp_log index log t = record t {
  task_item_rsp = modify t.task_item_rsp index (λ r. record r { execute_log = log });
}

-- What a call answers: its return value and its message, or the message of its exception.
pub data Reply : Type 0 where
  returned : ℤ → String → Reply
  threw : String → Reply

-- What one look at the progress of a patch answers: the return value, the percentage, the success
-- and the result, or the message of the exception.
pub data Poll : Type 0 where
  progress : ℤ → ℤ → Bool → String → Poll
  no_progress : String → Poll

-- `polls` are the answers that come before the time for a patch is over.
pub record AdminImp : Type 0 where
  pub start_server : TaskItemReq → Reply
  pub restart_server : TaskItemReq → Reply
  pub notify_server : TaskItemReq → Reply
  pub stop_server : TaskItemReq → Reply
  pub undeploy : TaskItemReq → Reply
  pub has_servers : TaskItemReq → Bool
  pub batch_patch : TaskItemReq → Reply
  pub polls : TaskItemReq → List Poll
  pub tostr : ℤ → String

-- The status and the log that a call leaves.
unfoldable pub of_reply : Reply → EmTaskItemStatus × String
of_reply (returned ret log) = (if eqb_ℤ ret (pos 0) then item_success else item_failed, log)
of_reply (threw what) = (item_failed, what)

unfoldable pub grace_restart : AdminImp → TaskItemReq → EmTaskItemStatus × String
grace_restart imp req =
    if imp.has_servers req then of_reply (imp.notify_server req) else (item_failed, "no servers")

unfoldable pub get : String → Map String String → String
get name parameters = get_or (find name parameters) ""

-- The loop over the progress: `ret` is the value of the last call that returned. The percentages
-- that it reports, the last of them first, are the last part of the result.
unfoldable pub wait_patch : ℤ → String → List ℤ → List Poll → EmTaskItemStatus × String × List ℤ
wait_patch ret log percents [] = (item_failed, log, percents)
wait_patch ret log percents (progress r percent succ result ∷ polls) =
    let rest = wait_patch r log (percent ∷ percents) polls in
    if not (eqb_ℤ r (pos 0))
    then (item_failed, result, percent ∷ percents)
    else if eqb_ℤ percent (pos 100) && succ
    then (item_success, log, percent ∷ percents)
    else rest
wait_patch ret log percents (no_progress what ∷ polls) =
    let rest = wait_patch ret what (pos 0 ∷ percents) polls in
    if not (eqb_ℤ ret (pos 0)) then (item_failed, "", pos 0 ∷ percents) else rest

-- The rest of `patch` after the reply of `batchPatch_inner`.
unfoldable pub after_batch_patch :
    AdminImp → TaskItemReq → Reply → EmTaskItemStatus × String × List ℤ
after_batch_patch imp req (threw what) = (item_failed, what, [])
after_batch_patch imp req (returned ret log) =
    if eqb_ℤ ret (pos 0) then wait_patch ret log [] (imp.polls req) else (
      item_failed,
      "tarsAdminRegistry batchPatch error, ret:" +++ imp.tostr ret +++ ", info:" +++ log,
      [],
    )

unfoldable pub patch : AdminImp → TaskItemReq → EmTaskItemStatus × String × List ℤ
patch imp req = after_batch_patch imp req (imp.batch_patch req)

-- What executing one task leaves: the status, the log, and the percentages reported on the way.
unfoldable pub patch_then :
    (TaskItemReq → EmTaskItemStatus × String)
    → TaskItemReq
    → EmTaskItemStatus × String × List ℤ
    → EmTaskItemStatus × String × List ℤ
patch_then next req (item_success, log, percents) =
    if str_eq (get "bak_flag" req.parameters) "1"
    then (item_success, log, percents)
    else ((next req).0, (next req).1, percents)
patch_then next req (status, log, percents) = (status, log, percents)

abbrev pub without_percent : EmTaskItemStatus × String → EmTaskItemStatus × String × List ℤ
without_percent (status, log) = (status, log, [])

unfoldable pub run_command : AdminImp → TaskItemReq → EmTaskItemStatus × String × List ℤ
run_command imp req =
    if str_eq req.command "stop"
    then without_percent (of_reply (imp.stop_server req))
    else if str_eq req.command "start"
    then without_percent (of_reply (imp.start_server req))
    else if str_eq req.command "restart"
    then without_percent (of_reply (imp.restart_server req))
    else if str_eq req.command "patch_tars"
    then patch_then (λ r. of_reply (imp.restart_server r)) req (patch imp req)
    else if str_eq req.command "grace_patch_tars"
    then patch_then (grace_restart imp) req (patch imp req)
    else if str_eq req.command "undeploy_tars"
    then without_percent (of_reply (imp.undeploy req))
    else (item_failed, "command not support!", [])

-- Only the last percentage stays.
unfoldable pub report_percent : ℕ → List ℤ → TaskList → TaskList
report_percent index [] t = t
report_percent index (percent ∷ percents) t = set_rsp_percent index percent t

abbrev pub note_executed : TaskItemReq → TaskList → TaskList
note_executed req t = record t { executed = t.executed ++ (req ∷ []) }

unfoldable pub execute_single_task :
    AdminImp → ℕ → TaskItemReq → TaskList → EmTaskItemStatus × TaskList
execute_single_task imp index req t =
    let r = run_command imp req in
    (r.0, set_rsp_log index r.1 (report_percent index r.2 (note_executed req t)))

-- `TaskListSerial::doTask` from an item on; `status` is that of the item before.
unfoldable pub serial_item :
    AdminImp → ℕ → TaskItemReq → EmTaskItemStatus → TaskList → EmTaskItemStatus × TaskList
serial_item imp index req item_success t =
    let r = execute_single_task imp index req (set_rsp_info index item_running t) in
    (r.0, set_rsp_info index r.0 r.1)
serial_item imp index req status t =
    (item_cancel, set_rsp_info index item_cancel (set_rsp_info index item_running t))

-- The whole loop. `cancels` says before which items another thread calls `cancelTask`.
unfoldable pub serial_loop :
    AdminImp → List Bool → List TaskItemReq → ℕ → EmTaskItemStatus → TaskList → TaskList
serial_loop imp cancels [] index status t = t
serial_loop imp [] (req ∷ reqs) index status t =
    let r = serial_item imp index req status t in serial_loop imp [] reqs (suc index) r.0 r.1
serial_loop imp (c ∷ cancels) (req ∷ reqs) index status t =
    let r = serial_item imp index req status (if c then cancel_task t else t) in
    serial_loop imp cancels reqs (suc index) r.0 r.1

unfoldable pub finish : TaskList → TaskList
finish t = record t { finished = true }

unfoldable pub do_serial : AdminImp → List Bool → TaskList → TaskList
do_serial imp cancels t = finish (serial_loop imp cancels t.task_item_req 0 item_success t)

-- `TaskListParallel::doTask` of one item, and the items in the order that the threads finish them.
unfoldable pub parallel_item : AdminImp → ℕ → TaskItemReq → TaskList → TaskList
parallel_item imp index req t =
    let r = execute_single_task imp index req (set_rsp_info index item_running t) in
    set_rsp_info index r.0 r.1
