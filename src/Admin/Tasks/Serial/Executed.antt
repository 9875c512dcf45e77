-- ===== src/Admin/Tasks/Serial/Executed.antt =====
-- Which tasks `TaskListSerial::doTask` of AdminRegistryServer/ExecuteTask.cpp executes.
use tars_framework.Base.{
  ℕ, suc, Bool, true, false, ◌≡◌, refl, sym, ap, ◌∙◌, List, [], ◌∷◌, ◌++◌, All, if◌then◌else◌,
}
use tars_framework.Base.Int.{ℤ}
use tars_framework.Admin.Tasks.{
  EmTaskItemStatus, item_not_start, item_prepare, item_running, item_pause_flow, item_success,
  item_failed, item_cancel, TaskItemReq, TaskList, AdminImp, new_task_list, cancel_task,
  set_rsp_info, set_rsp_log, set_rsp_percent, report_percent, note_executed, execute_single_task,
  run_command, serial_item, serial_loop, finish, do_serial,
}
use tars_framework.Admin.Tasks.Serial.{outcome}

-- The task itself, if it comes after a success.
abbrev executed_one : EmTaskItemStatus → TaskItemReq → List TaskItemReq
executed_one item_success req = req ∷ []
executed_one _ req = []

-- The tasks that come after nothing but successes, given the status of the task before.
abbrev pub executed_of : AdminImp → EmTaskItemStatus → List TaskItemReq → List TaskItemReq
executed_of imp status [] = []
executed_of imp status (req ∷ reqs) =
    executed_one status req ++ executed_of imp (outcome imp status req) reqs

append_nil {ℓ} : {A : Type ℓ} (xs : List A) → xs ++ [] ≡ xs
append_nil [] = refl
append_nil (x ∷ xs) = ap (λ ys. x ∷ ys) (append_nil xs)

append_assoc {ℓ} : {A : Type ℓ} (xs ys zs : List A) → (xs ++ ys) ++ zs ≡ xs ++ (ys ++ zs)
append_assoc [] ys zs = refl
append_assoc (x ∷ xs) ys zs = ap (λ us. x ∷ us) (append_assoc xs ys zs)

-- What the items from one on execute, from what it and the later ones do.
one_more :
    (imp : AdminImp) (status next : EmTaskItemStatus) (req : TaskItemReq)
    (reqs earlier now : List TaskItemReq)
    → next ≡ outcome imp status req
    → now ≡ earlier ++ executed_one status req
    → now ++ executed_of imp next reqs ≡ earlier ++ executed_of imp status (req ∷ reqs)
one_more imp status next req reqs earlier now o e =
    rw (o, e)
      (append_assoc earlier (executed_one status req)
        (executed_of imp (outcome imp status req) reqs))

executed-report_percent :
    (index : ℕ) (percents : List ℤ) (t : TaskList)
    → (report_percent index percents t).executed ≡ t.executed
unfolding report_percent set_rsp_percent
executed-report_percent index [] t = refl
executed-report_percent index (percent ∷ percents) t = refl

executed-execute :
    (imp : AdminImp) (index : ℕ) (req : TaskItemReq) (t : TaskList)
    → (execute_single_task imp index req t).1.executed ≡ t.executed ++ (req ∷ [])
unfolding execute_single_task set_rsp_log
executed-execute imp index req t =
    executed-report_percent index (run_command imp req).2 (note_executed req t)

abbrev ItemExecutes : AdminImp → ℕ → TaskItemReq → EmTaskItemStatus → TaskList → Type 0
ItemExecutes imp index req status t =
    ((serial_item imp index req status t).0 ≡ outcome imp status req)
    × ((serial_item imp index req status t).1.executed ≡ t.executed ++ executed_one status req)

item_executes :
    (imp : AdminImp) (index : ℕ) (req : TaskItemReq) (status : EmTaskItemStatus) (t : TaskList)
    → ItemExecutes imp index req status t
unfolding serial_item set_rsp_info execute_single_task
item_executes imp index req item_success t =
    (refl, executed-execute imp index req (set_rsp_info index item_running t))
item_executes imp index req item_not_start t = (refl, sym (append_nil t.executed))
item_executes imp index req item_prepare t = (refl, sym (append_nil t.executed))
item_executes imp index req item_running t = (refl, sym (append_nil t.executed))
item_executes imp index req item_pause_flow t = (refl, sym (append_nil t.executed))
item_executes imp index req item_failed t = (refl, sym (append_nil t.executed))
item_executes imp index req item_cancel t = (refl, sym (append_nil t.executed))

executed-cancel_task :
    (c : Bool) (t : TaskList) → (if c then cancel_task t else t).executed ≡ t.executed
unfolding cancel_task
executed-cancel_task true t = refl
executed-cancel_task false t = refl

executed-serial_loop :
    (imp : AdminImp) (cancels : List Bool) (reqs : List TaskItemReq) (index : ℕ)
    (status : EmTaskItemStatus) (t : TaskList)
    → (serial_loop imp cancels reqs index status t).executed
      ≡ t.executed ++ executed_of imp status reqs
unfolding serial_loop
executed-serial_loop imp cancels [] index status t = sym (append_nil t.executed)
executed-serial_loop imp [] (req ∷ reqs) index status t =
    let i = item_executes imp index req status t in
    executed-serial_loop imp [] reqs (suc index) (serial_item imp index req status t).0
      (serial_item imp index req status t).1
    ∙ one_more imp status (serial_item imp index req status t).0 req reqs t.executed
        (serial_item imp index req status t).1.executed i.0 i.1
executed-serial_loop imp (c ∷ cancels) (req ∷ reqs) index status t =
    let u : TaskList = if c then cancel_task t else t in
    let i = item_executes imp index req status u in
    executed-serial_loop imp cancels reqs (suc index) (serial_item imp index req status u).0
      (serial_item imp index req status u).1
    ∙ one_more imp status (serial_item imp index req status u).0 req reqs u.executed
        (serial_item imp index req status u).1.executed i.0 i.1
    ∙ ap (λ xs. xs ++ executed_of imp status (req ∷ reqs)) (executed-cancel_task c t)

pub executed-do_serial :
    (imp : AdminImp) (cancels : List Bool) (reqs : List TaskItemReq)
    → (do_serial imp cancels (new_task_list reqs)).executed ≡ executed_of imp item_success reqs
unfolding do_serial finish new_task_list
executed-do_serial imp cancels reqs =
    executed-serial_loop imp cancels reqs 0 item_success (new_task_list reqs)

nothing_executed :
    (imp : AdminImp) (reqs : List TaskItemReq) → executed_of imp item_cancel reqs ≡ []
nothing_executed imp [] = refl
nothing_executed imp (req ∷ reqs) = nothing_executed imp reqs

pub executed-failure :
    (imp : AdminImp) (before : List TaskItemReq) (req : TaskItemReq) (reqs : List TaskItemReq)
    → All (λ r. (run_command imp r).0 ≡ item_success) before
    → (run_command imp req).0 ≡ item_failed
    → executed_of imp item_success (before ++ (req ∷ reqs)) ≡ before ++ (req ∷ [])
executed-failure imp [] req [] a f = refl
executed-failure imp [] req (next ∷ reqs) a f =
    rw f (ap (λ rs. req ∷ rs) (nothing_executed imp reqs))
executed-failure imp (r ∷ before) req reqs a f =
    rw a.0 (ap (λ rs. r ∷ rs) (executed-failure imp before req reqs a.1 f))
