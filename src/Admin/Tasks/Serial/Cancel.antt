-- ===== src/Admin/Tasks/Serial/Cancel.antt =====
-- What `TaskListSerial::doTask` (AdminRegistryServer/ExecuteTask.cpp) leaves of a list of tasks, and
-- what `cancelTask` changes of it.
use tars_framework.Base.{
  suc, Bool, true, false, ◌≡◌, refl, ap, ap₂, sym, ◌∙◌, List, [], ◌∷◌, ◌++◌, map, if◌then◌else◌,
  length, length-map, All, arith,
}
use tars_framework.Admin.Tasks.{
  EmTaskItemStatus, item_success, item_failed, item_cancel, TaskItemReq, TaskList, AdminImp,
  new_item, new_task_list, cancel_task, run_command, serial_item, serial_loop, finish, do_serial,
}
use tars_framework.Admin.Tasks.Serial.{
  statuses, cancel_status, outcome, outcomes, IsBegun, ItemLeaves, cancel_begun, cancel_all,
  statuses-serial_item,
}
use tars_framework.Admin.Tasks.Serial.Ends.{outcome-IsBegun}
use tars_framework.Admin.Tasks.Serial.Executed.{executed-do_serial, executed-failure}

map_same {ℓ} : {A : Type ℓ} (xs : List A) → map (λ x. x) xs ≡ xs
map_same [] = refl
map_same (x ∷ xs) = ap (λ ys. x ∷ ys) (map_same xs)

statuses-cancel_task :
    (c : Bool) (t : TaskList) (done : List EmTaskItemStatus) (s : EmTaskItemStatus)
    (rest : List EmTaskItemStatus)
    → statuses t ≡ done ++ (s ∷ rest)
    → All IsBegun done
    → statuses (if c then cancel_task t else t)
      ≡ done ++ map (λ u. if c then cancel_status u else u) (s ∷ rest)
unfolding cancel_task
statuses-cancel_task true t done s rest h a =
    cancel_all t.task_item_rsp ∙ ap (map cancel_status) h ∙ cancel_begun done (s ∷ rest) a
statuses-cancel_task false t done s rest h a = h ∙ ap (λ ss. done ++ ss) (sym (map_same (s ∷ rest)))

All-append :
    (xs : List EmTaskItemStatus) (y : EmTaskItemStatus)
    → All IsBegun xs
    → IsBegun y
    → All IsBegun (xs ++ (y ∷ []))
All-append [] y a p = (p, tt)
All-append (x ∷ xs) y a p = (a.0, All-append xs y a.1 p)

pub length-snoc :
    (xs : List EmTaskItemStatus) (y : EmTaskItemStatus) → length (xs ++ (y ∷ [])) ≡ suc (length xs)
length-snoc [] y = refl
length-snoc (x ∷ xs) y = ap suc (length-snoc xs y)

pub snoc-append :
    (xs : List EmTaskItemStatus) (y : EmTaskItemStatus) (ys : List EmTaskItemStatus)
    → (xs ++ (y ∷ [])) ++ ys ≡ xs ++ (y ∷ ys)
snoc-append [] y ys = refl
snoc-append (x ∷ xs) y ys = ap (λ zs. x ∷ zs) (snoc-append xs y ys)

-- The loop after one item, from what is known of the items after it.
one_more :
    (imp : AdminImp) (cancels : List Bool) (req : TaskItemReq) (reqs : List TaskItemReq)
    (status : EmTaskItemStatus) (t : TaskList) (done rest : List EmTaskItemStatus)
    → ItemLeaves imp req status t done rest
    → statuses (
        serial_loop imp cancels reqs
          (length (done ++ (outcome imp status req ∷ [])))
          (outcome imp status req)
          (serial_item imp (length done) req status t).1)
      ≡ (done ++ (outcome imp status req ∷ [])) ++ outcomes imp (outcome imp status req) reqs
    → statuses (
        serial_loop imp cancels reqs
          (suc (length done))
          (serial_item imp (length done) req status t).0
          (serial_item imp (length done) req status t).1)
      ≡ done ++ outcomes imp status (req ∷ reqs)
one_more imp cancels req reqs status t done rest i ih =
    let o : EmTaskItemStatus = outcome imp status req in
    ap₂
      (λ n st.
        statuses (serial_loop imp cancels reqs n st (serial_item imp (length done) req status t).1))
      (sym (length-snoc done o)) i.0
    ∙ ih
    ∙ snoc-append done o (outcomes imp o reqs)

length-map_status :
    (c : Bool) (rest : List EmTaskItemStatus)
    → length (map (λ u. if c then cancel_status u else u) rest) ≡ length rest
length-map_status c rest = length-map (λ u. if c then cancel_status u else u) rest

-- From an item on, whatever is cancelled on the way.
loop_statuses :
    (imp : AdminImp) (cancels : List Bool) (reqs : List TaskItemReq) (status : EmTaskItemStatus)
    (t : TaskList) (done rest : List EmTaskItemStatus)
    → length rest ≡ length reqs
    → statuses t ≡ done ++ rest
    → All IsBegun done
    → statuses (serial_loop imp cancels reqs (length done) status t)
      ≡ done ++ outcomes imp status reqs
unfolding serial_loop
loop_statuses imp cancels [] status t done [] l h a = h
loop_statuses imp cancels [] status t done (s ∷ rest) l h a = ground arith
loop_statuses imp cancels (req ∷ reqs) status t done [] l h a = ground arith
loop_statuses imp [] (req ∷ reqs) status t done (s ∷ rest) l h a =
    let i = statuses-serial_item imp req status t done s rest h in
    let o : EmTaskItemStatus = outcome imp status req in
    one_more imp [] req reqs status t done rest i (
      loop_statuses imp [] reqs o (serial_item imp (length done) req status t).1 (done ++ (o ∷ []))
        rest (omega arith) (i.1 ∙ sym (snoc-append done o rest))
        (All-append done o a (outcome-IsBegun imp status req)))
loop_statuses imp (c ∷ cancels) (req ∷ reqs) status t done (s ∷ rest) l h a =
    let t' : TaskList = if c then cancel_task t else t in
    let s' : EmTaskItemStatus = if c then cancel_status s else s in
    let rest' : List EmTaskItemStatus = map (λ u. if c then cancel_status u else u) rest in
    let i =
      statuses-serial_item imp req status t' done s' rest'
        (statuses-cancel_task c t done s rest h a) in
    let o : EmTaskItemStatus = outcome imp status req in
    one_more imp cancels req reqs status t' done rest' i (
      loop_statuses imp cancels reqs o (serial_item imp (length done) req status t').1
        (done ++ (o ∷ [])) rest' (rw (length-map_status c rest) (omega arith))
        (i.1 ∙ sym (snoc-append done o rest'))
        (All-append done o a (outcome-IsBegun imp status req)))

map-new_item :
    (reqs : List TaskItemReq) → length (map (λ r. r.status) (map new_item reqs)) ≡ length reqs
map-new_item [] = refl
map-new_item (req ∷ reqs) = ap suc (map-new_item reqs)

-- However often `cancelTask` is called between the items of a serial list of tasks, every task ends
-- as it does with no such call; in particular a task that was cancelled before it started is
-- executed.
pub do_serial-cancel :
    (imp : AdminImp) (cancels : List Bool) (reqs : List TaskItemReq)
    → statuses (do_serial imp cancels (new_task_list reqs)) ≡ outcomes imp item_success reqs
unfolding do_serial finish new_task_list new_item
do_serial-cancel imp cancels reqs =
    loop_statuses imp cancels reqs item_success (new_task_list reqs) []
      (map (λ r. r.status) (map new_item reqs)) (map-new_item reqs) refl tt

cancelled_outcomes :
    (imp : AdminImp) (reqs : List TaskItemReq)
    → outcomes imp item_cancel reqs ≡ map (λ r. item_cancel) reqs
cancelled_outcomes imp [] = refl
cancelled_outcomes imp (req ∷ reqs) = ap (λ ss. item_cancel ∷ ss) (cancelled_outcomes imp reqs)

outcomes-failure :
    (imp : AdminImp) (before : List TaskItemReq) (req : TaskItemReq) (reqs : List TaskItemReq)
    → All (λ r. (run_command imp r).0 ≡ item_success) before
    → (run_command imp req).0 ≡ item_failed
    → outcomes imp item_success (before ++ (req ∷ reqs))
      ≡ map (λ r. item_success) before ++ (item_failed ∷ map (λ r. item_cancel) reqs)
outcomes-failure imp [] req [] a f = rw f refl
outcomes-failure imp [] req (next ∷ reqs) a f =
    rw f (ap (λ ss. item_failed ∷ item_cancel ∷ ss) (cancelled_outcomes imp reqs))
outcomes-failure imp (r ∷ before) req reqs a f =
    rw a.0 (ap (λ ss. item_success ∷ ss) (outcomes-failure imp before req reqs a.1 f))

do_serial_finished :
    (imp : AdminImp) (cancels : List Bool) (t : TaskList)
    → (do_serial imp cancels t).finished ≡ true
unfolding do_serial finish
do_serial_finished imp cancels t = refl

-- In a serial list of tasks whose first failure is that of `req`, the tasks before it end with
-- success, all the tasks after it are cancelled without being executed, the tasks executed are those
-- before it and itself, in order, and the list is finished.
pub do_serial-failure :
    (imp : AdminImp) (cancels : List Bool) (before : List TaskItemReq) (req : TaskItemReq)
    (reqs : List TaskItemReq)
    → All (λ r. (run_command imp r).0 ≡ item_success) before
    → (run_command imp req).0 ≡ item_failed
    → (statuses (do_serial imp cancels (new_task_list (before ++ (req ∷ reqs))))
        ≡ map (λ r. item_success) before ++ (item_failed ∷ map (λ r. item_cancel) reqs))
      × ((do_serial imp cancels (new_task_list (before ++ (req ∷ reqs)))).executed
          ≡ before ++ (req ∷ []))
      × ((do_serial imp cancels (new_task_list (before ++ (req ∷ reqs)))).finished ≡ true)
do_serial-failure imp cancels before req reqs a f = (
  do_serial-cancel imp cancels (before ++ (req ∷ reqs)) ∙ outcomes-failure imp before req reqs a f,
  executed-do_serial imp cancels (before ++ (req ∷ reqs))
      ∙ executed-failure imp before req reqs a f,
  do_serial_finished imp cancels (new_task_list (before ++ (req ∷ reqs))),
)
