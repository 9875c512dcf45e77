-- ===== src/Admin/Tasks/Elegant.antt =====
-- `TaskListElegant::doTask` of AdminRegistryServer/ExecuteTask.cpp: the items run in batches, and the
-- flow to their nodes is paused before each batch. The state of the flow is in the database.
pub mod Batches
pub mod Cancel
pub mod Waits
use tars_framework.Base.{
  ℕ, zero, suc, ◌+◌, Bool, true, false, ◌&&◌, not, Option, none, some, List, [], ◌∷◌, if◌then◌else◌,
  length, take, drop, ltb, ◌==◌, is_empty,
}
use tars_framework.Admin.Tasks.{
  EmTaskItemStatus, item_pause_flow, EmTaskStatus, task_cancel, TaskItemReq, TaskList, AdminImp,
  cancel_task, set_rsp_info, parallel_item, finish,
}

abbrev pub is_cancelled : EmTaskStatus → Bool
is_cancelled task_cancel = true
is_cancelled _ = false

-- The items of a batch from index `i` on are marked.
unfoldable pub pause_batch : ℕ → List TaskItemReq → TaskList → TaskList
pause_batch i [] t = t
pause_batch i (req ∷ reqs) t = pause_batch (suc i) reqs (set_rsp_info i item_pause_flow t)

-- The items of a batch, in the order of their indexes.
unfoldable pub run_batch : AdminImp → ℕ → List TaskItemReq → TaskList → TaskList
run_batch imp i [] t = t
run_batch imp i (req ∷ reqs) t = run_batch imp (suc i) reqs (parallel_item imp i req t)

-- One turn of the loop, if the list is not cancelled.
unfoldable pub one_batch : AdminImp → ℕ → ℕ → TaskList → TaskList
one_batch imp each_num i t =
    let batch = take each_num (drop i t.task_item_req) in
    run_batch imp i batch (pause_batch i batch t)

-- The loop from index `i` on. `cancels` says before which batches another thread calls
-- `cancelTask`; the first argument is fuel.
unfoldable pub elegant_loop : ℕ → AdminImp → List Bool → ℕ → ℕ → TaskList → TaskList
elegant_loop zero imp cancels each_num i t = t
elegant_loop (suc fuel) imp [] each_num i t =
    let rest = elegant_loop fuel imp [] each_num (i + each_num) (one_batch imp each_num i t) in
    if ltb i (length t.task_item_req) then (if is_cancelled t.task_status then t else rest) else t
elegant_loop (suc fuel) imp (c ∷ cancels) each_num i t =
    let u = if c then cancel_task t else t in
    let rest = elegant_loop fuel imp cancels each_num (i + each_num) (one_batch imp each_num i u) in
    if ltb i (length t.task_item_req) then (if is_cancelled u.task_status then u else rest) else t

-- `none` is `tl[0]` of an empty batch. A serial list is left as it is.
unfoldable pub do_elegant : AdminImp → List Bool → Bool → ℕ → TaskList → Option TaskList
do_elegant imp cancels is_serial each_num t =
    if is_serial
    then some (finish t)
    else if (each_num == 0) && not (is_empty t.task_item_req)
    then none
    else some (finish (elegant_loop (length t.task_item_req) imp cancels each_num 0 t))
