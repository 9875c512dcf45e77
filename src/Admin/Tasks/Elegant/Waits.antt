-- ===== src/Admin/Tasks/Elegant/Waits.antt =====
-- The items of `TaskListElegant` (AdminRegistryServer/ExecuteTask.cpp) between two batches.
use tars_framework.Base.{
  ℕ, Bool, true, false, ◌≡◌, refl, ap, sym, ◌∙◌, List, [], ◌∷◌, ◌++◌, map, length, take, drop,
  arith, if◌then◌else◌, length-map, drop-append, map-append, append_assoc, take-drop, All,
}
use tars_framework.Admin.Tasks.{
  EmTaskItemStatus, item_not_start, item_cancel, task_cancel, TaskItemReq, TaskItemRsp, TaskList,
  AdminImp, cancel_task, any_not_start, is_not_start, run_command,
}
use tars_framework.Admin.Tasks.Serial.{statuses, cancel_status, IsBegun, cancel_begun, cancel_all}
use tars_framework.Admin.Tasks.Serial.Ends.{IsBegun-end, run_command_end}
use tars_framework.Admin.Tasks.Elegant.{is_cancelled, one_batch}
use tars_framework.Admin.Tasks.Elegant.Batches.{one_batch-Keeps, statuses-one_batch}

-- What the commands of some requests end with.
abbrev pub ran : AdminImp → List TaskItemReq → List EmTaskItemStatus
ran imp reqs = map (λ req. (run_command imp req).0) reqs

ran-IsBegun : (imp : AdminImp) (reqs : List TaskItemReq) → All IsBegun (ran imp reqs)
ran-IsBegun imp [] = tt
ran-IsBegun imp (req ∷ reqs) =
    (IsBegun-end (run_command imp req).0 (run_command_end imp req), ran-IsBegun imp reqs)

-- The statuses while `done` are finished and `pending` wait.
abbrev pub Waits : AdminImp → List TaskItemReq → List TaskItemReq → TaskList → Type 0
Waits imp done pending t =
    (t.task_item_req ≡ done ++ pending)
    × (statuses t ≡ ran imp done ++ map (λ req. item_not_start) pending)
    × (is_cancelled t.task_status ≡ false)

any_status : List EmTaskItemStatus → Bool
any_status [] = false
any_status (s ∷ ss) = if is_not_start s then true else any_status ss

any_statuses : (rs : List TaskItemRsp) → any_not_start rs ≡ any_status (map (λ r. r.status) rs)
unfolding any_not_start any_status
any_statuses [] = refl
any_statuses (r ∷ rs) = ap (λ b. if is_not_start r.status then true else b) (any_statuses rs)

any_waiting : (xs ys : List EmTaskItemStatus) → any_status (xs ++ (item_not_start ∷ ys)) ≡ true
unfolding any_status is_not_start
any_waiting [] ys = refl
any_waiting (x ∷ xs) ys = ground (arith, any_waiting xs ys)

cancel_waiting :
    (reqs : List TaskItemReq)
    → map cancel_status (map (λ req. item_not_start) reqs) ≡ map (λ req. item_cancel) reqs
unfolding is_not_start
cancel_waiting [] = refl
cancel_waiting (req ∷ reqs) = ap (λ ss. item_cancel ∷ ss) (cancel_waiting reqs)

pub cancelled-Waits :
    (imp : AdminImp) (done : List TaskItemReq) (p : TaskItemReq) (pending : List TaskItemReq)
    (t : TaskList)
    → Waits imp done (p ∷ pending) t
    → (statuses (cancel_task t) ≡ ran imp done ++ map (λ req. item_cancel) (p ∷ pending))
      × (is_cancelled (cancel_task t).task_status ≡ true)
unfolding cancel_task
cancelled-Waits imp done p pending t w = (
  cancel_all t.task_item_rsp
      ∙ ap (map cancel_status) w.1
      ∙ cancel_begun (ran imp done) (map (λ req. item_not_start) (p ∷ pending))
          (ran-IsBegun imp done)
      ∙ ap (λ ss. ran imp done ++ ss) (cancel_waiting (p ∷ pending)),
  ap (λ b. is_cancelled (if b then task_cancel else t.task_status))
      (any_statuses t.task_item_rsp
        ∙ ap any_status w.1
        ∙ any_waiting (ran imp done) (map (λ req. item_not_start) pending)),
)

batch_statuses :
    (imp : AdminImp) (each_num : ℕ) (done pending : List TaskItemReq) (t : TaskList)
    → Waits imp done pending t
    → statuses (one_batch imp each_num (length done) t)
      ≡ ran imp (done ++ take each_num pending)
        ++ map (λ req. item_not_start) (drop each_num pending)
batch_statuses imp each_num done pending t w =
    let run : TaskItemReq → EmTaskItemStatus = λ req. (run_command imp req).0 in
    let wait : TaskItemReq → EmTaskItemStatus = λ req. item_not_start in
    let batch : List TaskItemReq = take each_num pending in
    let later : List TaskItemReq = drop each_num pending in
    let taken : take each_num (drop (length (ran imp done)) t.task_item_req) ≡ batch =
      rw (length-map run done, w.0, drop-append done pending) refl in
    ap (λ n. statuses (one_batch imp each_num n t)) (sym (length-map run done))
    ∙ statuses-one_batch imp each_num batch t (ran imp done) (map wait batch) (map wait later) taken
        (length-map wait batch)
        (w.1
          ∙ ap (λ ss. ran imp done ++ ss)
              (ap (map wait) (sym (take-drop each_num pending)) ∙ map-append wait batch later))
    ∙ sym (append_assoc (ran imp done) (ran imp batch) (map wait later))
    ∙ ap (λ ss. ss ++ map wait later) (sym (map-append run done batch))

-- A batch is finished, the rest waits.
pub batch-Waits :
    (imp : AdminImp) (each_num : ℕ) (done pending : List TaskItemReq) (t : TaskList)
    → Waits imp done pending t
    → Waits imp
        (done ++ take each_num pending)
        (drop each_num pending)
        (one_batch imp each_num (length done) t)
batch-Waits imp each_num done pending t w =
    let keeps = one_batch-Keeps imp each_num (length done) t in
    let batch : List TaskItemReq = take each_num pending in
    let later : List TaskItemReq = drop each_num pending in
    (
      keeps.0
          ∙ w.0
          ∙ ap (λ ss. done ++ ss) (sym (take-drop each_num pending))
          ∙ sym (append_assoc done batch later),
      batch_statuses imp each_num done pending t w,
      ap is_cancelled keeps.1 ∙ w.2,
    )
