-- ===== src/Admin/ExecuteTask.antt =====
-- `ExecuteTask` of AdminRegistryServer/ExecuteTask.cpp and .h: the lists of tasks by their numbers, and
-- for each service the list that pauses its flow. A list is executed by threads of its own, after
-- `addTaskReq` has called its `execute`.
pub mod Added
pub mod Again
pub mod Exclusive
pub mod Live
use Prim.Native.String.{◌++◌ as ◌+++◌}
use tars_framework.Base.{
  ℕ, ◌+◌, ◌≡◌, Bool, true, false, Option, none, some, List, [], ◌∷◌, if◌then◌else◌, String, str_eq,
  string_key, ltb,
}
use tars_framework.Base.Int.{ℤ, pos, negsuc}
use tars_framework.Base.Map.{Map, find, insert, erase, update}
use tars_framework.Admin.Tasks.{
  EmTaskItemStatus, EmTaskStatus, TaskItemReq, TaskItemRsp, TaskList, is_not_start, new_task_list,
  cancel_task, finish, set_rsp_info,
}
use tars_framework.Admin.Tasks.Serial.{statuses}
use tars_framework.Admin.Tasks.Status.{check_task_rsp_status}

pub data TaskKind : Type 0 where
  serial_list : TaskKind
  parallel_list : TaskKind
  elegant_list : TaskKind

pub record TaskReq : Type 0 where
  pub task_no : String
  pub task_item_req : List TaskItemReq
  pub is_serial : Bool
  pub is_elegant : Bool

-- A list with the class that it is of, and its times in seconds.
pub record Task : Type 0 where
  pub kind : TaskKind
  pub task_list : TaskList
  pub create_time : ℕ
  pub timeout : ℕ

pub record ExecuteTask : Type 0 where
  pub task : Map String Task
  pub server2_elegant_task : Map String String

unfoldable pub kind_of : TaskReq → TaskKind
kind_of req =
    if req.is_elegant then elegant_list else if req.is_serial then serial_list else parallel_list

unfoldable pub default_timeout : TaskKind → ℕ
default_timeout serial_list = 300
default_timeout parallel_list = 300
default_timeout elegant_list = 600

unfoldable pub new_task : TaskReq → ℕ → Task
new_task req now = record {
  kind = kind_of req;
  task_list = new_task_list req.task_item_req;
  create_time = now;
  timeout = default_timeout (kind_of req);
}

unfoldable pub is_timeout : ℕ → Task → Bool
is_timeout now t = ltb (t.create_time + t.timeout) now

-- One pass of `run` over the entries of the map.
unfoldable pub delete_old : ℕ → List (String × Task) → Map String Task → Map String Task
delete_old now [] m = m
delete_old now ((number, t) ∷ entries) m =
    delete_old now entries (if is_timeout now t then erase number m else m)

-- The service of the first item.
unfoldable pub server_id : List TaskItemReq → String
server_id [] = ""
server_id (req ∷ reqs) = req.application +++ "." +++ req.server_name

unfoldable pub on_list : (TaskList → TaskList) → Task → Task
on_list f t = record t { task_list = f t.task_list }

unfoldable pub cancel_task_no : String → ExecuteTask → ℤ × ExecuteTask
cancel_task_no number s = elim (find number s.task) [
  | none ↦ (negsuc 0, s)
  | some t ↦ (pos 0, record s { task = update number (on_list cancel_task) s.task })
]

-- What `_server2ElegantTask` has for a service: the number of a list that still runs, if any, and
-- whether the entry is erased.
unfoldable pub running_elegant_task : Map String Task → Option String → String × Bool
running_elegant_task tasks none = ("", false)
running_elegant_task tasks (some number) = elim (find number tasks) [
  | none ↦ ("", true)
  | some t ↦ if t.task_list.finished then ("", true) else (number, false)
]

-- What `addTaskReq` does under its lock, with the number of the list that it has to cancel.
unfoldable pub register_task : TaskReq → ℕ → ExecuteTask → String × ExecuteTask
register_task req now s =
    let id = server_id req.task_item_req in
    let tasks = insert req.task_no (new_task req now) s.task in
    let r = running_elegant_task tasks (find id s.server2_elegant_task) in
    let kept = if r.1 then erase id s.server2_elegant_task else s.server2_elegant_task in
    (
      r.0,
      record {
        task = tasks;
        server2_elegant_task = if req.is_elegant then insert id req.task_no kept else kept;
      },
    )

unfoldable pub add_task_req : TaskReq → ℕ → ExecuteTask → ℤ × ExecuteTask
add_task_req req now s = elim req.task_item_req [
  | [] ↦ (negsuc 0, s)
  | item ∷ items ↦
      let r = register_task req now s in
      (pos 0, if str_eq r.0 "" then r.1 else (cancel_task_no r.0 r.1).1)
]

-- The answers, and the status that `checkTaskRspStatus` finds in them.
unfoldable pub get_task_rsp : String → ExecuteTask → Option (List TaskItemRsp × EmTaskStatus)
get_task_rsp number s = elim (find number s.task) [
  | none ↦ none
  | some t ↦ some (t.task_list.task_item_rsp, check_task_rsp_status (statuses t.task_list))
]

-- The state under the calls, the deletions, and what the threads of a list do to it: they write
-- the status of an item, and they finish the list.
pub data Reachable : ExecuteTask → Type 0 where
  initial : Reachable (record { task = []; server2_elegant_task = [] })
  added :
      (req : TaskReq) (now : ℕ) (s : ExecuteTask)
      → find req.task_no s.task ≡ none
      → str_eq req.task_no "" ≡ false
      → Reachable s
      → Reachable (add_task_req req now s).1
  cancelled :
      (number : String) (s : ExecuteTask) → Reachable s → Reachable (cancel_task_no number s).1
  deleted :
      (now : ℕ) (s : ExecuteTask)
      → Reachable s
      → Reachable (record s { task = delete_old now s.task s.task })
  written :
      (number : String) (i : ℕ) (status : EmTaskItemStatus) (s : ExecuteTask)
      → is_not_start status ≡ false
      → Reachable s
      → Reachable (record s { task = update number (on_list (set_rsp_info i status)) s.task })
  finishing :
      (number : String) (s : ExecuteTask)
      → Reachable s
      → Reachable (record s { task = update number (on_list finish) s.task })
