-- ===== src/Admin/Tasks/Elegant/Batches.antt =====
-- Which items of `TaskListElegant` (AdminRegistryServer/ExecuteTask.cpp) are executed when it is
-- cancelled between two batches.
use tars_framework.Base.{
  ℕ, zero, suc, ◌≤◌, Bool, false, ◌≡◌, refl, ap, sym, ◌∙◌, List, [], ◌∷◌, ◌++◌, map, length, take,
  drop, ltb, arith, length-map,
}
use tars_framework.Admin.Tasks.{
  EmTaskItemStatus, item_running, item_pause_flow, TaskItemReq, TaskList, AdminImp, set_rsp_info,
  execute_single_task, parallel_item, run_command,
}
use tars_framework.Admin.Tasks.Parallel.{parallel_item_lem}
use tars_framework.Admin.Tasks.Serial.{statuses, set_at, statuses-execute}
use tars_framework.Admin.Tasks.Serial.Cancel.{snoc-append, length-snoc}
use tars_framework.Admin.Tasks.Elegant.{pause_batch, run_batch, one_batch, elegant_loop}

-- A step that gives the item at its index the status `g req`.
abbrev Sets : (ℕ → TaskItemReq → TaskList → TaskList) → (TaskItemReq → EmTaskItemStatus) → Type 0
Sets op g =
    (req : TaskItemReq) (t : TaskList) (done : List EmTaskItemStatus) (s : EmTaskItemStatus)
    (rest : List EmTaskItemStatus)
    → statuses t ≡ done ++ (s ∷ rest)
    → statuses (op (length done) req t) ≡ done ++ (g req ∷ rest)

-- A step for each item of a batch.
sweep : (ℕ → TaskItemReq → TaskList → TaskList) → ℕ → List TaskItemReq → TaskList → TaskList
sweep op i [] t = t
sweep op i (req ∷ reqs) t = sweep op (suc i) reqs (op i req t)

statuses-sweep :
    (op : ℕ → TaskItemReq → TaskList → TaskList) (g : TaskItemReq → EmTaskItemStatus)
    (sets : Sets op g) (reqs : List TaskItemReq) (t : TaskList)
    (done mid rest : List EmTaskItemStatus)
    → length mid ≡ length reqs
    → statuses t ≡ done ++ (mid ++ rest)
    → statuses (sweep op (length done) reqs t) ≡ done ++ (map g reqs ++ rest)
unfolding sweep
statuses-sweep op g sets [] t done [] rest l h = h
statuses-sweep op g sets [] t done (s ∷ mid) rest l h = ground arith
statuses-sweep op g sets (req ∷ reqs) t done [] rest l h = ground arith
statuses-sweep op g sets (req ∷ reqs) t done (s ∷ mid) rest l h =
    let u : TaskList = op (length done) req t in
    ap (λ n. statuses (sweep op n reqs u)) (sym (length-snoc done (g req)))
    ∙ statuses-sweep op g sets reqs u (done ++ (g req ∷ [])) mid rest (omega arith)
        (sets req t done s (mid ++ rest) h ∙ sym (snoc-append done (g req) (mid ++ rest)))
    ∙ snoc-append done (g req) (map g reqs ++ rest)

parallel-Sets : (imp : AdminImp) → Sets (parallel_item imp) (λ req. (run_command imp req).0)
unfolding parallel_item execute_single_task
parallel-Sets imp req t done s rest h =
    let u : TaskList = set_rsp_info (length done) item_running t in
    set_at (run_command imp req).0 (execute_single_task imp (length done) req u).1 done item_running
      rest (statuses-execute imp (length done) req u ∙ set_at item_running t done s rest h)

pause-Sets : Sets (λ i req. set_rsp_info i item_pause_flow) (λ req. item_pause_flow)
pause-Sets req t done s rest h = set_at item_pause_flow t done s rest h

run_batch-sweep :
    (imp : AdminImp) (i : ℕ) (reqs : List TaskItemReq) (t : TaskList)
    → run_batch imp i reqs t ≡ sweep (parallel_item imp) i reqs t
unfolding run_batch sweep
run_batch-sweep imp i [] t = refl
run_batch-sweep imp i (req ∷ reqs) t = run_batch-sweep imp (suc i) reqs (parallel_item imp i req t)

pause_batch-sweep :
    (i : ℕ) (reqs : List TaskItemReq) (t : TaskList)
    → pause_batch i reqs t ≡ sweep (λ i req. set_rsp_info i item_pause_flow) i reqs t
unfolding pause_batch sweep
pause_batch-sweep i [] t = refl
pause_batch-sweep i (req ∷ reqs) t =
    pause_batch-sweep (suc i) reqs (set_rsp_info i item_pause_flow t)

-- A step that keeps the requests and the status of the list.
abbrev pub Keeps : TaskList → TaskList → Type 0
Keeps t u = (u.task_item_req ≡ t.task_item_req) × (u.task_status ≡ t.task_status)

sweep-Keeps :
    (op : ℕ → TaskItemReq → TaskList → TaskList)
    (keeps : (i : ℕ) (req : TaskItemReq) (t : TaskList) → Keeps t (op i req t)) (i : ℕ)
    (reqs : List TaskItemReq) (t : TaskList)
    → Keeps t (sweep op i reqs t)
unfolding sweep
sweep-Keeps op keeps i [] t = (refl, refl)
sweep-Keeps op keeps i (req ∷ reqs) t =
    let k = keeps i req t in
    let l = sweep-Keeps op keeps (suc i) reqs (op i req t) in (l.0 ∙ k.0, l.1 ∙ k.1)

parallel-Keeps :
    (imp : AdminImp) (i : ℕ) (req : TaskItemReq) (t : TaskList)
    → Keeps t (parallel_item imp i req t)
parallel-Keeps imp i req t = (
  ap (λ u. u.task_item_req) (parallel_item_lem imp i req t),
  ap (λ u. u.task_status) (parallel_item_lem imp i req t),
)

pause-Keeps :
    (i : ℕ) (req : TaskItemReq) (t : TaskList) → Keeps t (set_rsp_info i item_pause_flow t)
unfolding set_rsp_info
pause-Keeps i req t = (refl, refl)

one_batch-sweep :
    (imp : AdminImp) (each_num i : ℕ) (batch : List TaskItemReq) (t : TaskList)
    → take each_num (drop i t.task_item_req) ≡ batch
    → one_batch imp each_num i t
      ≡ sweep
          (parallel_item imp)
          i
          batch
          (sweep (λ j req. set_rsp_info j item_pause_flow) i batch t)
unfolding one_batch
one_batch-sweep imp each_num i batch t e = rw e (
    run_batch-sweep imp i batch (pause_batch i batch t)
    ∙ ap (sweep (parallel_item imp) i batch) (pause_batch-sweep i batch t))

pub one_batch-Keeps :
    (imp : AdminImp) (each_num i : ℕ) (t : TaskList) → Keeps t (one_batch imp each_num i t)
one_batch-Keeps imp each_num i t =
    let batch : List TaskItemReq = take each_num (drop i t.task_item_req) in
    let p : TaskList = sweep (λ j req. set_rsp_info j item_pause_flow) i batch t in
    let k = sweep-Keeps (λ j req. set_rsp_info j item_pause_flow) pause-Keeps i batch t in
    let l = sweep-Keeps (parallel_item imp) (parallel-Keeps imp) i batch p in
    let e = one_batch-sweep imp each_num i batch t refl in
    (ap (λ u. u.task_item_req) e ∙ l.0 ∙ k.0, ap (λ u. u.task_status) e ∙ l.1 ∙ k.1)

pub statuses-one_batch :
    (imp : AdminImp) (each_num : ℕ) (batch : List TaskItemReq) (t : TaskList)
    (done mid rest : List EmTaskItemStatus)
    → take each_num (drop (length done) t.task_item_req) ≡ batch
    → length mid ≡ length batch
    → statuses t ≡ done ++ (mid ++ rest)
    → statuses (one_batch imp each_num (length done) t)
      ≡ done ++ (map (λ req. (run_command imp req).0) batch ++ rest)
statuses-one_batch imp each_num batch t done mid rest e l h =
    ap statuses (one_batch-sweep imp each_num (length done) batch t e)
    ∙ statuses-sweep (parallel_item imp) (λ req. (run_command imp req).0) (parallel-Sets imp) batch
        (sweep (λ j req. set_rsp_info j item_pause_flow) (length done) batch t) done
        (map (λ req. item_pause_flow) batch) rest (length-map (λ req. item_pause_flow) batch)
        (statuses-sweep (λ j req. set_rsp_info j item_pause_flow) (λ req. item_pause_flow)
          pause-Sets batch t done mid rest l h)

pub loop_end :
    (fuel : ℕ) (imp : AdminImp) (cancels : List Bool) (each_num i : ℕ) (t : TaskList)
    → length t.task_item_req ≤ i
    → elegant_loop fuel imp cancels each_num i t ≡ t
unfolding elegant_loop
loop_end zero imp cancels each_num i t h = refl
loop_end (suc fuel) imp [] each_num i t h =
    let past : ltb i (length t.task_item_req) ≡ false = ground arith in rw past refl
loop_end (suc fuel) imp (c ∷ cancels) each_num i t h =
    let past : ltb i (length t.task_item_req) ≡ false = ground arith in rw past refl
