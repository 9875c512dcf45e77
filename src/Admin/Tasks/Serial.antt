-- ===== src/Admin/Tasks/Serial.antt =====
-- `TaskListSerial::doTask` of AdminRegistryServer/ExecuteTask.cpp, with calls of `cancelTask` between
-- its items.
pub mod Cancel
pub mod Ends
pub mod Executed
use tars_framework.Base.{
  ℕ, zero, suc, ◌+◌, Bool, true, false, ◌≡◌, refl, ap, ap₂, sym, ◌∙◌, List, [], ◌∷◌, ◌++◌, map,
  if◌then◌else◌, length, modify, All, arith, String,
}
use tars_framework.Base.Int.{ℤ}
use tars_framework.Admin.Tasks.{
  note_executed, EmTaskItemStatus, item_not_start, item_prepare, item_running, item_pause_flow,
  item_success, item_failed, item_cancel, TaskItemReq, TaskItemRsp, TaskList, AdminImp, new_item,
  new_task_list, is_not_start, cancel_item, cancel_task, set_rsp_info, set_rsp_log, set_rsp_percent,
  report_percent, run_command, execute_single_task, serial_item, serial_loop, finish, do_serial,
}

-- The statuses of a list of tasks.
abbrev pub statuses : TaskList → List EmTaskItemStatus
statuses t = map (λ r. r.status) t.task_item_rsp

abbrev pub cancel_status : EmTaskItemStatus → EmTaskItemStatus
cancel_status status = if is_not_start status then item_cancel else status

-- The outcome of one task, given the status of the task before.
abbrev pub outcome : AdminImp → EmTaskItemStatus → TaskItemReq → EmTaskItemStatus
outcome imp item_success req = (run_command imp req).0
outcome imp _ req = item_cancel

-- What becomes of the tasks, given the status of the task before.
abbrev pub outcomes : AdminImp → EmTaskItemStatus → List TaskItemReq → List EmTaskItemStatus
outcomes imp status [] = []
outcomes imp status (req ∷ reqs) =
    outcome imp status req ∷ outcomes imp (outcome imp status req) reqs

module _ {ℓ κ} {A : Type ℓ} {B : Type κ} (g : A → B) where
  map-modify :
      (f : A → A) (h : B → B)
      → ((x : A) → g (f x) ≡ h (g x))
      → (xs : List A) (i : ℕ) → map g (modify xs i f) ≡ modify (map g xs) i h
  map-modify f h e [] i = refl
  map-modify f h e (x ∷ xs) zero = ap (λ y. y ∷ map g xs) (e x)
  map-modify f h e (x ∷ xs) (suc i) = ap (λ ys. g x ∷ ys) (map-modify f h e xs i)

modify-append {ℓ} :
    {A : Type ℓ} (f : A → A) (xs : List A) (y : A) (ys : List A)
    → modify (xs ++ (y ∷ ys)) (length xs) f ≡ xs ++ (f y ∷ ys)
modify-append f [] y ys = refl
modify-append f (x ∷ xs) y ys = ap (λ zs. x ∷ zs) (modify-append f xs y ys)

-- A status that `cancelTask` leaves alone.
abbrev pub IsBegun : EmTaskItemStatus → Type 0
IsBegun status = is_not_start status ≡ false

modify_same {ℓ} : {A : Type ℓ} (xs : List A) (i : ℕ) → modify xs i (λ x. x) ≡ xs
modify_same [] i = refl
modify_same (x ∷ xs) zero = refl
modify_same (x ∷ xs) (suc i) = ap (λ ys. x ∷ ys) (modify_same xs i)

statuses-set_rsp_info :
    (index : ℕ) (status : EmTaskItemStatus) (t : TaskList)
    → statuses (set_rsp_info index status t) ≡ modify (statuses t) index (λ s. status)
unfolding set_rsp_info
statuses-set_rsp_info index status t =
    map-modify (λ r. r.status) (λ r. record r { status = status }) (λ s. status) (λ r. refl)
      t.task_item_rsp index

statuses-set_rsp_log :
    (index : ℕ) (log : String) (t : TaskList) → statuses (set_rsp_log index log t) ≡ statuses t
unfolding set_rsp_log
statuses-set_rsp_log index log t =
    map-modify (λ r. r.status) (λ r. record r { execute_log = log }) (λ s. s) (λ r. refl)
      t.task_item_rsp index
    ∙ modify_same (statuses t) index

statuses-report_percent :
    (index : ℕ) (percents : List ℤ) (t : TaskList)
    → statuses (report_percent index percents t) ≡ statuses t
unfolding report_percent set_rsp_percent
statuses-report_percent index [] t = refl
statuses-report_percent index (percent ∷ percents) t =
    map-modify (λ r. r.status) (λ r. record r { percent = percent }) (λ s. s) (λ r. refl)
      t.task_item_rsp index
    ∙ modify_same (statuses t) index

pub statuses-execute :
    (imp : AdminImp) (index : ℕ) (req : TaskItemReq) (t : TaskList)
    → statuses (execute_single_task imp index req t).1 ≡ statuses t
unfolding execute_single_task
statuses-execute imp index req t =
    statuses-set_rsp_log index (run_command imp req).1
      (report_percent index (run_command imp req).2 (note_executed req t))
    ∙ statuses-report_percent index (run_command imp req).2 (note_executed req t)

status-cancel_item : (r : TaskItemRsp) → (cancel_item r).status ≡ cancel_status r.status
unfolding cancel_item
status-cancel_item r = ground arith

pub cancel_all :
    (rs : List TaskItemRsp)
    → map (λ r. r.status) (map cancel_item rs) ≡ map cancel_status (map (λ r. r.status) rs)
cancel_all [] = refl
cancel_all (r ∷ rs) = ap₂ (λ x xs. x ∷ xs) (status-cancel_item r) (cancel_all rs)

pub cancel_begun :
    (done rest : List EmTaskItemStatus)
    → All IsBegun done
    → map cancel_status (done ++ rest) ≡ done ++ map cancel_status rest
cancel_begun [] rest a = refl
cancel_begun (s ∷ done) rest a = rw a.0 (ap (λ ys. s ∷ ys) (cancel_begun done rest a.1))

pub set_at :
    (status : EmTaskItemStatus) (t : TaskList) (done : List EmTaskItemStatus) (s : EmTaskItemStatus)
    (rest : List EmTaskItemStatus)
    → statuses t ≡ done ++ (s ∷ rest)
    → statuses (set_rsp_info (length done) status t) ≡ done ++ (status ∷ rest)
set_at status t done s rest h =
    statuses-set_rsp_info (length done) status t
    ∙ ap (λ ss. modify ss (length done) (λ u. status)) h
    ∙ modify-append (λ u. status) done s rest

abbrev pub ItemLeaves :
    AdminImp
    → TaskItemReq
    → EmTaskItemStatus
    → TaskList
    → List EmTaskItemStatus
    → List EmTaskItemStatus
    → Type 0
ItemLeaves imp req status t done rest =
    ((serial_item imp (length done) req status t).0 ≡ outcome imp status req)
    × (statuses (serial_item imp (length done) req status t).1
        ≡ done ++ (outcome imp status req ∷ rest))

cancelled_item :
    (t : TaskList) (done : List EmTaskItemStatus) (s : EmTaskItemStatus)
    (rest : List EmTaskItemStatus)
    → statuses t ≡ done ++ (s ∷ rest)
    → statuses (set_rsp_info (length done) item_cancel (set_rsp_info (length done) item_running t))
      ≡ done ++ (item_cancel ∷ rest)
cancelled_item t done s rest h =
    set_at item_cancel (set_rsp_info (length done) item_running t) done item_running rest
      (set_at item_running t done s rest h)

pub statuses-serial_item :
    (imp : AdminImp) (req : TaskItemReq) (status : EmTaskItemStatus) (t : TaskList)
    (done : List EmTaskItemStatus) (s : EmTaskItemStatus) (rest : List EmTaskItemStatus)
    → statuses t ≡ done ++ (s ∷ rest)
    → ItemLeaves imp req status t done rest
unfolding serial_item execute_single_task
statuses-serial_item imp req item_success t done s rest h =
    let u : TaskList = set_rsp_info (length done) item_running t in
    (
      refl,
      set_at (run_command imp req).0 (execute_single_task imp (length done) req u).1 done
          item_running rest
          (statuses-execute imp (length done) req u ∙ set_at item_running t done s rest h),
    )
statuses-serial_item imp req item_not_start t done s rest h = (refl, cancelled_item t done s rest h)
statuses-serial_item imp req item_prepare t done s rest h = (refl, cancelled_item t done s rest h)
statuses-serial_item imp req item_running t done s rest h = (refl, cancelled_item t done s rest h)
statuses-serial_item imp req item_pause_flow t done s rest h =
    (refl, cancelled_item t done s rest h)
statuses-serial_item imp req item_failed t done s rest h = (refl, cancelled_item t done s rest h)
statuses-serial_item imp req item_cancel t done s rest h = (refl, cancelled_item t done s rest h)
