-- ===== src/Admin/ExecuteTask/Exclusive.antt =====
-- At most one list that pauses the flow runs for a service (AdminRegistryServer/ExecuteTask.cpp).
use mathlib.Core.Option
use tars_framework.Base.{
  ℕ, zero, suc, Bool, true, false, ◌&&◌, not, ◌≡◌, refl, ap, sym, ◌∙◌, Option, none, some, List, [],
  ◌∷◌, map, if◌then◌else◌, String, str_eq, string_key, arith, modify, Bool-cases, Option-cases, inl,
  inr,
}
use tars_framework.Base.Map.{Map, find, erase, update, find-erase, find-update}
use tars_framework.Admin.Tasks.{
  EmTaskItemStatus, TaskItemRsp, TaskList, is_not_start, cancel_item, any_not_start, cancel_task,
  finish, set_rsp_info,
}
use tars_framework.Admin.ExecuteTask.{
  TaskKind, elegant_list, Task, ExecuteTask, is_timeout, delete_old, server_id, on_list,
  cancel_task_no,
}

abbrev is_elegant_list : TaskKind → Bool
is_elegant_list elegant_list = true
is_elegant_list _ = false

-- A list that pauses the flow, is not finished and has an item that waits.
abbrev pub is_live : Task → Bool
is_live t =
    is_elegant_list t.kind && not t.task_list.finished && any_not_start t.task_list.task_item_rsp

abbrev pub service : Task → String
service t = server_id t.task_list.task_item_req

-- Each live list is the one that its service has.
abbrev pub IsExclusive : ExecuteTask → Type 0
IsExclusive s =
    (number : String) (t : Task)
    → find number s.task ≡ some t
    → is_live t ≡ true
    → (str_eq number "" ≡ false) × (find (service t) s.server2_elegant_task ≡ some number)

not_start-cancel : (rs : List TaskItemRsp) → any_not_start (map cancel_item rs) ≡ false
unfolding any_not_start cancel_item is_not_start
not_start-cancel [] = refl
not_start-cancel (r ∷ rs) = elim (Bool-cases (is_not_start r.status)) [
  | inl e ↦ rw (any_not_start, cancel_item, e) (not_start-cancel rs)
  | inr e ↦ rw (any_not_start, cancel_item, e, e) (not_start-cancel rs)
]

not_start-modify :
    (rs : List TaskItemRsp) (i : ℕ) (status : EmTaskItemStatus)
    → is_not_start status ≡ false
    → any_not_start (modify rs i (λ r. record r { status = status })) ≡ true
    → any_not_start rs ≡ true
unfolding any_not_start
not_start-modify [] i status h e = e
not_start-modify (r ∷ rs) zero status h e = ground arith
not_start-modify (r ∷ rs) (suc i) status h e = ground (arith, not_start-modify rs i status h)

-- Where every live list was live before, for the same service.
pub still :
    (s u : ExecuteTask)
    → u.server2_elegant_task ≡ s.server2_elegant_task
    → ((number : String) (t : Task)
        → find number u.task ≡ some t
        → is_live t ≡ true
        → (old : Task) × (find number s.task ≡ some old)
          × (is_live old ≡ true)
          × (service old ≡ service t))
    → IsExclusive s
    → IsExclusive u
still s u e h x number t f l =
    let o = h number t f l in let r = x number o.0 o.1 o.2 in (r.0, rw (e, sym o.3) r.1)

none_found :
    (f : TaskList → TaskList) (same : Bool) (o : Option Task) (t : Task)
    → o ≡ none
    → (if same then Option.map (on_list f) o else o) ≡ some t
    → ⊥
none_found f true none t e q = cc
none_found f false none t e q = cc
none_found f same (some u) t e q = cc

found :
    (f : TaskList → TaskList) (same : Bool) (o : Option Task) (old t : Task)
    → ((u : Task)
        → is_live (on_list f u) ≡ true
        → (is_live u ≡ true) × (service u ≡ service (on_list f u)))
    → o ≡ some old
    → (if same then Option.map (on_list f) o else o) ≡ some t
    → is_live t ≡ true
    → (u : Task) × (o ≡ some u) × (is_live u ≡ true) × (service u ≡ service t)
found f same none old t k e q l = absurd cc
found f true (some u) old t k e q l =
    let same_task : on_list f u ≡ t = cc in
    let r = k u (rw same_task l) in (u, refl, r.0, r.1 ∙ ap service same_task)
found f false (some u) old t k e q l =
    let same_task : u ≡ t = cc in (u, refl, rw same_task l, ap service same_task)

-- A change of one list that makes no list live and keeps its service.
pub changed :
    (f : TaskList → TaskList) (number key : String) (s : ExecuteTask) (t : Task)
    → ((u : Task)
        → is_live (on_list f u) ≡ true
        → (is_live u ≡ true) × (service u ≡ service (on_list f u)))
    → find key (update number (on_list f) s.task) ≡ some t
    → is_live t ≡ true
    → (old : Task) × (find key s.task ≡ some old) × (is_live old ≡ true) × (service old ≡ service t)
changed f number key s t k e l =
    let q : (if str_eq number key
          then Option.map (on_list f) (find key s.task)
          else find key s.task)
        ≡ some t =
      sym (find-update number key (on_list f) s.task) ∙ e in
    elim (Option-cases (find key s.task)) [
      | inl o ↦ absurd (none_found f (str_eq number key) (find key s.task) t o q)
      | inr (old, o) ↦ found f (str_eq number key) (find key s.task) old t k o q l
    ]

pub dead : (u : Task) → is_live (on_list cancel_task u) ≡ true → ⊥
unfolding on_list cancel_task
dead u l = ground (arith, not_start-cancel u.task_list.task_item_rsp)

pub live_written :
    (i : ℕ) (status : EmTaskItemStatus) (u : Task)
    → is_not_start status ≡ false
    → is_live (on_list (set_rsp_info i status) u) ≡ true
    → is_live u ≡ true
unfolding on_list set_rsp_info
live_written i status u h l = ground (arith, not_start-modify u.task_list.task_item_rsp i status h)

pub live_finished : (u : Task) → is_live (on_list finish u) ≡ true → ⊥
unfolding on_list finish
live_finished u l = ground arith

pub find-delete_old :
    (now : ℕ) (key : String) (t : Task) (entries : List (String × Task)) (m : Map String Task)
    → find key (delete_old now entries m) ≡ some t
    → find key m ≡ some t
unfolding delete_old
find-delete_old now key t [] m e = e
find-delete_old now key t ((number, u) ∷ entries) m e = ground (
  arith,
  find-delete_old now key t entries (if is_timeout now u then erase number m else m),
  find-erase number key m,
)

pub cancel_task_no-IsExclusive :
    (number : String) (s : ExecuteTask) → IsExclusive s → IsExclusive (cancel_task_no number s).1
unfolding cancel_task_no
cancel_task_no-IsExclusive number s x = elim (Option-cases (find number s.task)) [
  | inl e ↦ rw (cancel_task_no, e) x
  | inr (u, e) ↦
      rw (cancel_task_no, e)
        (still s (record s { task = update number (on_list cancel_task) s.task }) refl
          (λ key t f l. changed cancel_task number key s t (λ v h. absurd (dead v h)) f l) x)
]

pub written_service :
    (i : ℕ) (status : EmTaskItemStatus) (u : Task)
    → service u ≡ service (on_list (set_rsp_info i status) u)
unfolding on_list set_rsp_info
written_service i status u = refl
