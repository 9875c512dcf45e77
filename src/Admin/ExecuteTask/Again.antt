-- ===== src/Admin/ExecuteTask/Again.antt =====
-- `addTaskReq` of AdminRegistryServer/ExecuteTask.cpp for a number that its service has already.
use tars_framework.Base.{
  ℕ, true, false, ◌≡◌, refl, ap, ◌∙◌, some, List, ◌∷◌, String, str_eq, string_key, eq_iff, arith,
}
use tars_framework.Base.Map.{Map, find, insert, update, find-insert, find-update}
use tars_framework.Admin.Tasks.{TaskItemReq, new_task_list, cancel_task}
use tars_framework.Admin.ExecuteTask.{
  TaskReq, Task, ExecuteTask, new_task, server_id, on_list, cancel_task_no, running_elegant_task,
  register_task, add_task_req,
}
use tars_framework.Admin.ExecuteTask.Added.{running}

inserted : (key : String) (t : Task) (m : Map String Task) → find key (insert key t m) ≡ some t
inserted key t m = ground (arith, find-insert key key t m, eq_iff key key)

updated :
    (key : String) (t : Task) (m : Map String Task)
    → find key m ≡ some t
    → find key (update key (on_list cancel_task) m) ≡ some (on_list cancel_task t)
updated key t m e =
    let same : str_eq key key ≡ true = (eq_iff key key).1 refl in
    find-update key key (on_list cancel_task) m ∙ rw (same, e) refl

unfinished : (req : TaskReq) (now : ℕ) → (new_task req now).task_list.finished ≡ false
unfolding new_task new_task_list
unfinished req now = refl

own_number :
    (req : TaskReq) (now : ℕ) (s : ExecuteTask)
    → find (server_id req.task_item_req) s.server2_elegant_task ≡ some req.task_no
    → (register_task req now s).0 ≡ req.task_no
unfolding register_task
own_number req now s e =
    let new = new_task req now in
    let tasks = insert req.task_no new s.task in
    ap (λ o. (running_elegant_task tasks o).0) e
    ∙ ap (λ r. r.0)
        (running tasks req.task_no new (inserted req.task_no new s.task) (unfinished req now))

registered_new :
    (req : TaskReq) (now : ℕ) (s : ExecuteTask)
    → find req.task_no (register_task req now s).1.task ≡ some (new_task req now)
unfolding register_task
registered_new req now s = inserted req.task_no (new_task req now) s.task

cancelled_found :
    (number : String) (t : Task) (s : ExecuteTask)
    → find number s.task ≡ some t
    → find number (cancel_task_no number s).1.task ≡ some (on_list cancel_task t)
unfolding cancel_task_no
cancelled_found number t s e = rw (cancel_task_no, e) (updated number t s.task e)

other_stopped :
    (req : TaskReq) (now : ℕ) (s : ExecuteTask) (item : TaskItemReq) (items : List TaskItemReq)
    → req.task_item_req ≡ item ∷ items
    → str_eq (register_task req now s).0 "" ≡ false
    → (add_task_req req now s).1
      ≡ (cancel_task_no (register_task req now s).0 (register_task req now s).1).1
unfolding add_task_req
other_stopped req now s item items e h = simp (add_task_req, e, h)

-- A request with an item, under the number that `_server2ElegantTask` has for its service, is
-- cancelled by the call that adds it, before it is executed.
pub self_cancelled :
    (req : TaskReq) (now : ℕ) (s : ExecuteTask) (item : TaskItemReq) (items : List TaskItemReq)
    → req.task_item_req ≡ item ∷ items
    → str_eq req.task_no "" ≡ false
    → find (server_id req.task_item_req) s.server2_elegant_task ≡ some req.task_no
    → find req.task_no (add_task_req req now s).1.task
      ≡ some (on_list cancel_task (new_task req now))
self_cancelled req now s item items e named known =
    let r = register_task req now s in
    let number : r.0 ≡ req.task_no = own_number req now s known in
    let cancels : str_eq r.0 "" ≡ false = rw number named in
    ap (λ u. find req.task_no u.task)
      (other_stopped req now s item items e cancels ∙ ap (λ n. (cancel_task_no n r.1).1) number)
    ∙ cancelled_found req.task_no (new_task req now) r.1 (registered_new req now s)
