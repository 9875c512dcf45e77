-- ===== src/Admin/TaskTests.antt =====
-- `ExecuteTask` at concrete inputs (AdminRegistryServer/ExecuteTask.cpp).
use tars_framework.Base.{◌≡◌, refl, String, true, false, some, [], ◌∷◌, string_key}
use tars_framework.Base.Map.{find, insert, update}
use tars_framework.Admin.Tasks.{
  TaskItemReq, new_task_list, cancel_task, new_item, any_not_start, is_not_start,
}
use tars_framework.Admin.ExecuteTask.{
  TaskReq, Task, ExecuteTask, Reachable, new_task, kind_of, on_list, add_task_req, cancel_task_no,
  register_task, running_elegant_task, server_id,
}
use tars_framework.Admin.ExecuteTask.Exclusive.{is_live, service}
use tars_framework.Admin.ExecuteTask.Live.{one_live_list}
use tars_framework.Admin.ExecuteTask.Again.{self_cancelled}

abbrev item : TaskItemReq
item = record {
  item_no = "1";
  application = "App";
  server_name = "Server";
  node_name = "10.0.0.1";
  command = "restart";
  parameters = [];
}

abbrev restart : String → TaskReq
restart number = record {
  task_no = number;
  task_item_req = item ∷ [];
  is_serial = false;
  is_elegant = true;
}

abbrev empty : ExecuteTask
empty = record { task = []; server2_elegant_task = [] }

abbrev one : ExecuteTask
one = (add_task_req (restart "t1") 100 empty).1

-- The second request stops the list of the first.
abbrev two : ExecuteTask
two = (add_task_req (restart "t2") 101 one).1

two-Reachable : Reachable two
unfolding find add_task_req register_task running_elegant_task cancel_task_no insert update
    server_id
two-Reachable =
    Reachable.added (restart "t2") 101 one refl refl
      (Reachable.added (restart "t1") 100 empty refl refl Reachable.initial)

two_live : find "t2" two.task ≡ some (new_task (restart "t2") 101)
unfolding find add_task_req register_task running_elegant_task cancel_task_no insert update
    server_id new_task new_task_list
two_live = refl

live : is_live (new_task (restart "t2") 101) ≡ true
unfolding new_task kind_of new_task_list any_not_start new_item is_not_start
live = refl

same_service :
    service (new_task (restart "t2") 101)
    ≡ service (on_list cancel_task (new_task (restart "t1") 100))
unfolding new_task new_task_list on_list cancel_task
same_service = refl

abbrev stopped : Task
stopped = on_list cancel_task (new_task (restart "t1") 100)

two_stopped : find "t1" two.task ≡ some stopped
unfolding find add_task_req register_task running_elegant_task cancel_task_no insert update
    server_id new_task new_task_list
two_stopped = refl

one_live_list_example : is_live stopped ≡ false
one_live_list_example =
    one_live_list two "t2" "t1" (new_task (restart "t2") 101) stopped two-Reachable two_live
      two_stopped refl same_service live

known : find (server_id (item ∷ [])) one.server2_elegant_task ≡ some "t1"
unfolding find add_task_req register_task running_elegant_task insert server_id new_task
known = refl

self_cancelled_example :
    find "t1" (add_task_req (restart "t1") 101 one).1.task
    ≡ some (on_list cancel_task (new_task (restart "t1") 101))
self_cancelled_example = self_cancelled (restart "t1") 101 one item [] refl refl known
