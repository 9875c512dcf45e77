-- ===== src/Admin/Tasks/Parallel.antt =====
-- `TaskListParallel` of AdminRegistryServer/ExecuteTask.cpp: its threads finish the items in any
-- order, and each item writes its own answer alone.
use mathlib.Core.List.{Permᴰ}
use tars_framework.Base.{
  ℕ, zero, suc, ◌==◌, true, false, ◌≡◌, refl, ap, sym, ◌∙◌, Option, none, some, List, [], ◌∷◌, ◌++◌,
  map, modify, get_elem?, arith, Bool-cases, inl, inr, String, Option-cases,
}
use tars_framework.Base.Int.{ℤ}
use tars_framework.Admin.Tasks.{
  note_executed, EmTaskItemStatus, item_running, TaskItemReq, TaskItemRsp, TaskList, AdminImp,
  new_item, new_task_list, run_command, set_rsp_info, set_rsp_log, set_rsp_percent, report_percent,
  execute_single_task, parallel_item,
}
use tars_framework.Admin.Tasks.Serial.{statuses}

-- The thread that has item `i`.
unfoldable pub parallel_at : AdminImp → ℕ → TaskList → TaskList
parallel_at imp i t = elim (get_elem? t.task_item_req i) [
  | none ↦ t
  | some req ↦ parallel_item imp i req t
]

-- The items in the order in which the threads take them.
unfoldable pub parallel_run : AdminImp → List ℕ → TaskList → TaskList
parallel_run imp [] t = t
parallel_run imp (i ∷ order) t = parallel_run imp order (parallel_at imp i t)

module _ {ℓ} {A : Type ℓ} where
  modify-modify :
      (f g : A → A) (xs : List A) (i : ℕ) → modify (modify xs i f) i g ≡ modify xs i (λ x. g (f x))
  modify-modify f g [] i = refl
  modify-modify f g (x ∷ xs) zero = refl
  modify-modify f g (x ∷ xs) (suc i) = ap (λ ys. x ∷ ys) (modify-modify f g xs i)

  modify_comm :
      (f g : A → A) (xs : List A) (i j : ℕ)
      → (i == j) ≡ false
      → modify (modify xs i f) j g ≡ modify (modify xs j g) i f
  modify_comm f g [] i j h = refl
  modify_comm f g (x ∷ xs) zero zero h = ground arith
  modify_comm f g (x ∷ xs) zero (suc j) h = refl
  modify_comm f g (x ∷ xs) (suc i) zero h = refl
  modify_comm f g (x ∷ xs) (suc i) (suc j) h =
      ap (λ ys. x ∷ ys) (modify_comm f g xs i j (ground arith))

abbrev pub last_percent : List ℤ → ℤ → ℤ
last_percent [] p = p
last_percent (q ∷ qs) p = q

-- What the answer of an item becomes.
abbrev pub answered : AdminImp → TaskItemReq → TaskItemRsp → TaskItemRsp
answered imp req r = record r {
  status = (run_command imp req).0;
  execute_log = (run_command imp req).1;
  percent = last_percent (run_command imp req).2 r.percent;
}

-- One write after another to one item.
writes :
    (i : ℕ) (status : EmTaskItemStatus) (log : String) (percents : List ℤ) (t : TaskList)
    → set_rsp_info i status
        (set_rsp_log i log (report_percent i percents (set_rsp_info i item_running t)))
      ≡ record t {
        task_item_rsp = modify t.task_item_rsp i (λ r. record r {
          status = status;
          execute_log = log;
          percent = last_percent percents r.percent;
        });
      }
unfolding set_rsp_info set_rsp_log set_rsp_percent report_percent
writes i status log [] t =
    ap (λ rs. record t { task_item_rsp = rs })
      (ap (λ rs. modify rs i (λ r. record r { status = status }))
          (modify-modify (λ r. record r { status = item_running })
            (λ r. record r { execute_log = log }) t.task_item_rsp i)
        ∙ modify-modify (λ r. record r { status = item_running; execute_log = log })
            (λ r. record r { status = status }) t.task_item_rsp i)
writes i status log (p ∷ ps) t =
    ap (λ rs. record t { task_item_rsp = rs })
      (ap
          (λ rs.
            modify (modify rs i (λ r. record r { execute_log = log })) i
              (λ r. record r { status = status }))
          (modify-modify (λ r. record r { status = item_running }) (λ r. record r { percent = p })
            t.task_item_rsp i)
        ∙ ap (λ rs. modify rs i (λ r. record r { status = status }))
            (modify-modify (λ r. record r { status = item_running; percent = p })
              (λ r. record r { execute_log = log }) t.task_item_rsp i)
        ∙ modify-modify (λ r. record r { status = item_running; percent = p; execute_log = log })
            (λ r. record r { status = status }) t.task_item_rsp i)

pub parallel_item_lem :
    (imp : AdminImp) (i : ℕ) (req : TaskItemReq) (t : TaskList)
    → parallel_item imp i req t ≡ record t {
      task_item_rsp = modify t.task_item_rsp i (answered imp req);
      executed = t.executed ++ (req ∷ []);
    }
unfolding parallel_item execute_single_task set_rsp_info
parallel_item_lem imp i req t =
    writes i (run_command imp req).0 (run_command imp req).1 (run_command imp req).2
      (note_executed req t)

-- What the thread that has item `i` does to the answers.
answered_at : AdminImp → ℕ → List TaskItemReq → List TaskItemRsp → List TaskItemRsp
answered_at imp i reqs rs = elim (get_elem? reqs i) [
  | none ↦ rs
  | some req ↦ modify rs i (answered imp req)
]

-- What it adds to the tasks executed.
executed_at : ℕ → List TaskItemReq → List TaskItemReq → List TaskItemReq
executed_at i reqs done = elim (get_elem? reqs i) [ none ↦ done | some req ↦ done ++ (req ∷ []) ]

parallel_at_lem :
    (imp : AdminImp) (i : ℕ) (t : TaskList)
    → parallel_at imp i t ≡ record t {
      task_item_rsp = answered_at imp i t.task_item_req t.task_item_rsp;
      executed = executed_at i t.task_item_req t.executed;
    }
unfolding parallel_at answered_at executed_at
parallel_at_lem imp i t = elim (Option-cases (get_elem? t.task_item_req i)) [
  | inl e ↦ rw (parallel_at, answered_at, executed_at, e) refl
  | inr (req, e) ↦ rw (parallel_at, answered_at, executed_at, e) (parallel_item_lem imp i req t)
]

same_index : (i j : ℕ) → (i == j) ≡ true → i ≡ j
same_index i j h = ground arith

answered_at-none :
    (imp : AdminImp) (i : ℕ) (reqs : List TaskItemReq) (rs : List TaskItemRsp)
    → get_elem? reqs i ≡ none
    → answered_at imp i reqs rs ≡ rs
unfolding answered_at
answered_at-none imp i reqs rs e = rw (answered_at, e) refl

answered_at-some :
    (imp : AdminImp) (i : ℕ) (req : TaskItemReq) (reqs : List TaskItemReq) (rs : List TaskItemRsp)
    → get_elem? reqs i ≡ some req
    → answered_at imp i reqs rs ≡ modify rs i (answered imp req)
unfolding answered_at
answered_at-some imp i req reqs rs e = rw (answered_at, e) refl

other_index :
    (imp : AdminImp) (i j : ℕ) (reqs : List TaskItemReq) (rs : List TaskItemRsp)
    (a b : Option TaskItemReq)
    → (i == j) ≡ false
    → get_elem? reqs i ≡ a
    → get_elem? reqs j ≡ b
    → answered_at imp j reqs (answered_at imp i reqs rs)
      ≡ answered_at imp i reqs (answered_at imp j reqs rs)
other_index imp i j reqs rs none b h ea eb =
    ap (answered_at imp j reqs) (answered_at-none imp i reqs rs ea)
    ∙ sym (answered_at-none imp i reqs (answered_at imp j reqs rs) ea)
other_index imp i j reqs rs (some a) none h ea eb =
    answered_at-none imp j reqs (answered_at imp i reqs rs) eb
    ∙ ap (answered_at imp i reqs) (sym (answered_at-none imp j reqs rs eb))
other_index imp i j reqs rs (some a) (some b) h ea eb =
    answered_at-some imp j b reqs (answered_at imp i reqs rs) eb
    ∙ ap (λ ss. modify ss j (answered imp b)) (answered_at-some imp i a reqs rs ea)
    ∙ modify_comm (answered imp a) (answered imp b) rs i j h
    ∙ ap (λ ss. modify ss i (answered imp a)) (sym (answered_at-some imp j b reqs rs eb))
    ∙ sym (answered_at-some imp i a reqs (answered_at imp j reqs rs) ea)

answered_at_comm :
    (imp : AdminImp) (i j : ℕ) (reqs : List TaskItemReq) (rs : List TaskItemRsp)
    → answered_at imp j reqs (answered_at imp i reqs rs)
      ≡ answered_at imp i reqs (answered_at imp j reqs rs)
answered_at_comm imp i j reqs rs = elim (Bool-cases (i == j)) [
  | inl e ↦ rw (same_index i j e) refl
  | inr e ↦ other_index imp i j reqs rs (get_elem? reqs i) (get_elem? reqs j) e refl refl
]

answered_all : AdminImp → List ℕ → List TaskItemReq → List TaskItemRsp → List TaskItemRsp
answered_all imp [] reqs rs = rs
answered_all imp (i ∷ order) reqs rs = answered_all imp order reqs (answered_at imp i reqs rs)

executed_all : List ℕ → List TaskItemReq → List TaskItemReq → List TaskItemReq
executed_all [] reqs done = done
executed_all (i ∷ order) reqs done = executed_all order reqs (executed_at i reqs done)

parallel_run_lem :
    (imp : AdminImp) (order : List ℕ) (t : TaskList)
    → parallel_run imp order t ≡ record t {
      task_item_rsp = answered_all imp order t.task_item_req t.task_item_rsp;
      executed = executed_all order t.task_item_req t.executed;
    }
unfolding parallel_run answered_all executed_all
parallel_run_lem imp [] t = refl
parallel_run_lem imp (i ∷ order) t =
    ap (parallel_run imp order) (parallel_at_lem imp i t)
    ∙ parallel_run_lem imp order (record t {
      task_item_rsp = answered_at imp i t.task_item_req t.task_item_rsp;
      executed = executed_at i t.task_item_req t.executed;
    })

answered_all_any_order :
    (imp : AdminImp) (reqs : List TaskItemReq) (order other : List ℕ)
    → Permᴰ order other
    → (rs : List TaskItemRsp) → answered_all imp order reqs rs ≡ answered_all imp other reqs rs
unfolding answered_all
answered_all_any_order imp reqs _ _ Permᴰ.nil rs = refl
answered_all_any_order imp reqs _ _ (Permᴰ.cons {b = b} e p) rs =
    rw e (answered_all_any_order imp reqs _ _ p (answered_at imp b reqs rs))
answered_all_any_order imp reqs _ _ (Permᴰ.swap {a' = a'} {b' = b'} {l = l} e f) rs =
    rw (e, f) (ap (answered_all imp l reqs) (answered_at_comm imp b' a' reqs rs))
answered_all_any_order imp reqs _ _ (Permᴰ.trans p q) rs =
    answered_all_any_order imp reqs _ _ p rs ∙ answered_all_any_order imp reqs _ _ q rs

-- The indexes of a list, in order.
abbrev pub indexes {ℓ} : {A : Type ℓ} → List A → List ℕ
indexes [] = []
indexes (x ∷ xs) = 0 ∷ map suc (indexes xs)

answered_at-suc :
    (imp : AdminImp) (i : ℕ) (req : TaskItemReq) (r : TaskItemRsp) (reqs : List TaskItemReq)
    (rs : List TaskItemRsp)
    → answered_at imp (suc i) (req ∷ reqs) (r ∷ rs) ≡ r ∷ answered_at imp i reqs rs
unfolding answered_at
answered_at-suc imp i req r reqs rs = elim (Option-cases (get_elem? reqs i)) [
  | inl e ↦ rw (answered_at, e) refl
  | inr (a, e) ↦ rw (answered_at, e) refl
]

answered_all-suc :
    (imp : AdminImp) (order : List ℕ) (req : TaskItemReq) (r : TaskItemRsp)
    (reqs : List TaskItemReq) (rs : List TaskItemRsp)
    → answered_all imp (map suc order) (req ∷ reqs) (r ∷ rs) ≡ r ∷ answered_all imp order reqs rs
unfolding answered_all
answered_all-suc imp [] req r reqs rs = refl
answered_all-suc imp (i ∷ order) req r reqs rs =
    ap (answered_all imp (map suc order) (req ∷ reqs)) (answered_at-suc imp i req r reqs rs)
    ∙ answered_all-suc imp order req r reqs (answered_at imp i reqs rs)

in_order :
    (imp : AdminImp) (reqs : List TaskItemReq)
    → map (λ r. r.status) (answered_all imp (indexes reqs) reqs (map new_item reqs))
      ≡ map (λ req. (run_command imp req).0) reqs
unfolding answered_all answered_at
in_order imp [] = refl
in_order imp (req ∷ reqs) =
    ap (map (λ r. r.status)) (
      answered_all-suc imp (indexes reqs) req (answered imp req (new_item req)) reqs
        (map new_item reqs))
    ∙ ap (λ ss. (run_command imp req).0 ∷ ss) (in_order imp reqs)

-- In whatever order the threads of a parallel list finish its items, each once, every item ends
-- with the status of its own command, and the list is not marked as finished.
pub parallel_run_any_order :
    (imp : AdminImp) (reqs : List TaskItemReq) (order : List ℕ)
    → Permᴰ order (indexes reqs)
    → (statuses (parallel_run imp order (new_task_list reqs))
        ≡ map (λ req. (run_command imp req).0) reqs)
      × ((parallel_run imp order (new_task_list reqs)).finished ≡ false)
unfolding new_task_list
parallel_run_any_order imp reqs order p = (
  ap statuses (parallel_run_lem imp order (new_task_list reqs))
      ∙ ap (map (λ r. r.status))
          (answered_all_any_order imp reqs order (indexes reqs) p (map new_item reqs))
      ∙ in_order imp reqs,
  ap (λ t. t.finished) (parallel_run_lem imp order (new_task_list reqs)),
)
