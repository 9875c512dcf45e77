-- ===== src/Admin/ExecuteTask/Added.antt =====
-- `addTaskReq` keeps one list per service (AdminRegistryServer/ExecuteTask.cpp).
use mathlib.Core.Option
use tars_framework.Base.{
  ℕ, Bool, true, false, ◌≡◌, refl, ap, sym, ◌∙◌, none, some, List, [], ◌∷◌, if◌then◌else◌, String,
  str_eq, string_key, eq_iff, arith, Bool-cases, Option-cases, inl, inr, ◌⊎◌,
}
use tars_framework.Base.Map.{Map, find, insert, erase, update, find-insert, find-erase, find-update}
use tars_framework.Admin.Tasks.{TaskItemReq, new_task_list, cancel_task}
use tars_framework.Admin.ExecuteTask.{
  TaskReq, Task, ExecuteTask, kind_of, new_task, server_id, on_list, cancel_task_no,
  running_elegant_task, register_task, add_task_req,
}
use tars_framework.Admin.ExecuteTask.Exclusive.{changed, is_live, service, IsExclusive, dead}

-- What `_server2ElegantTask` has after a look at the service `id`.
abbrev kept : Map String Task → String → Map String String → Map String String
kept tasks id servers =
    if (running_elegant_task tasks (find id servers)).1 then erase id servers else servers

pub running :
    (tasks : Map String Task) (key : String) (t : Task)
    → find key tasks ≡ some t
    → t.task_list.finished ≡ false
    → running_elegant_task tasks (some key) ≡ (key, false)
unfolding running_elegant_task
running tasks key t f h = rw (running_elegant_task, f, h) refl

own_entry :
    (e : Bool) (id key : String) (m : Map String String)
    → e ≡ true
    → find id (if e then insert id key m else m) ≡ some key
own_entry true id key m h = ground (arith, find-insert id id key m, eq_iff id id)
own_entry false id key m h = absurd cc

other_entry :
    (e : Bool) (id v key : String) (m : Map String String)
    → str_eq id v ≡ false
    → find v (if e then insert id key m else m) ≡ find v m
other_entry true id v key m h = ground (arith, find-insert id v key m)
other_entry false id v key m h = refl

-- The entry of a live list stays, or its list is the one to be cancelled.
entry_stays :
    (tasks : Map String Task) (id key : String) (t : Task) (servers : Map String String)
    → find key tasks ≡ some t
    → is_live t ≡ true
    → find (service t) servers ≡ some key
    → ((running_elegant_task tasks (find id servers)).0 ≡ key)
      ⊎ ((str_eq id (service t) ≡ false) × (find (service t) (kept tasks id servers) ≡ some key))
entry_stays tasks id key t servers f l e = elim (Bool-cases (str_eq id (service t))) [
  | inl same ↦
      let name : id ≡ service t = (eq_iff id (service t)).0 same in
      let unfinished : t.task_list.finished ≡ false = ground arith in
      inl (
        ap (λ i. (running_elegant_task tasks (find i servers)).0) name
        ∙ ap (λ o. (running_elegant_task tasks o).0) e
        ∙ ap (λ r. r.0) (running tasks key t f unfinished))
  | inr other ↦ inr (other, ground (arith, find-erase id (service t) servers))
]

new_live : (req : TaskReq) (now : ℕ) → is_live (new_task req now) ≡ true → req.is_elegant ≡ true
unfolding new_task kind_of new_task_list
new_live req now l = elim (Bool-cases req.is_elegant) [ inl e ↦ e | inr e ↦ ground arith ]

new_service : (req : TaskReq) (now : ℕ) → service (new_task req now) ≡ server_id req.task_item_req
unfolding new_task new_task_list
new_service req now = refl

-- After the part under the lock, each live list is the one that its service has, or it is the one
-- to be cancelled.
registered :
    (req : TaskReq) (now : ℕ) (s : ExecuteTask)
    → find req.task_no s.task ≡ none
    → str_eq req.task_no "" ≡ false
    → IsExclusive s
    → (key : String) (t : Task) → find key (register_task req now s).1.task ≡ some t
    → is_live t ≡ true
    → (str_eq key "" ≡ false)
      × (((register_task req now s).0 ≡ key)
          ⊎ (find (service t) (register_task req now s).1.server2_elegant_task ≡ some key))
unfolding register_task
registered req now s fresh named x key t f l =
    let id = server_id req.task_item_req in
    let tasks = insert req.task_no (new_task req now) s.task in
    let q = sym (find-insert req.task_no key (new_task req now) s.task) ∙ f in
    elim (Bool-cases (str_eq req.task_no key)) [
      | inl same ↦
          let name : req.task_no ≡ key = (eq_iff req.task_no key).0 same in
          let its : new_task req now ≡ t = ground arith in
          let own =
            own_entry req.is_elegant id req.task_no (kept tasks id s.server2_elegant_task)
              (new_live req now (rw its l)) in
          (rw (sym name) named, inr (rw (sym its, new_service req now, sym name) own))
      | inr other ↦
          let old : find key s.task ≡ some t = ground arith in
          let r = x key t old l in
          elim (entry_stays tasks id key t s.server2_elegant_task f l r.1) [
            | inl e ↦ (r.0, inl e)
            | inr (apart, e) ↦ (
              r.0,
              inr (
                  other_entry req.is_elegant id (service t) req.task_no
                    (kept tasks id s.server2_elegant_task) apart
                  ∙ e),
            )
          ]
    ]

-- The list to be cancelled is not live any more.
not_cancelled :
    (number key : String) (m : Map String Task) (t : Task)
    → find key (update number (on_list cancel_task) m) ≡ some t
    → is_live t ≡ true
    → number ≡ key
    → ⊥
not_cancelled number key m t f l e =
    let q : (if str_eq number key
          then Option.map (on_list cancel_task) (find key m)
          else find key m)
        ≡ some t =
      sym (find-update number key (on_list cancel_task) m) ∙ f in
    let same : str_eq number key ≡ true = (eq_iff number key).1 e in
    elim (Option-cases (find key m)) [
      | inl o ↦ cc (rw (same, o) at q)
      | inr (u, o) ↦
          let its : on_list cancel_task u ≡ t = cc (rw (same, o) at q) in dead u (rw its l)
    ]

-- All live lists are the ones that their services have, but for the list `number`.
abbrev IsExclusiveBut : String → ExecuteTask → Type 0
IsExclusiveBut number s =
    (key : String) (t : Task)
    → find key s.task ≡ some t
    → is_live t ≡ true
    → (str_eq key "" ≡ false)
      × ((number ≡ key) ⊎ (find (service t) s.server2_elegant_task ≡ some key))

no_other :
    (number : String) (s : ExecuteTask)
    → IsExclusiveBut number s
    → str_eq number "" ≡ true
    → IsExclusive s
no_other number s x e key t f l =
    let p = x key t f l in elim p.1 [ inl q ↦ absurd (cc (q, e, p.0)) | inr w ↦ (p.0, w) ]

other_cancelled :
    (number : String) (s : ExecuteTask)
    → IsExclusiveBut number s
    → IsExclusive (cancel_task_no number s).1
unfolding cancel_task_no
other_cancelled number s x = elim (Option-cases (find number s.task)) [
  | inl e ↦
      rw (cancel_task_no, e)
        (λ key t f l.
          let p = x key t f l in elim p.1 [ inl q ↦ absurd (cc (rw q at e, f)) | inr w ↦ (p.0, w) ])
  | inr (u, e) ↦
      rw (cancel_task_no, e)
        (λ key t f l.
          let old = changed cancel_task number key s t (λ v h. absurd (dead v h)) f l in
          let p = x key old.0 old.1 old.2 in
          elim p.1 [
            | inl q ↦ absurd (not_cancelled number key s.task t f l q)
            | inr w ↦ (p.0, rw (sym old.3) w)
          ])
]

add_items :
    (req : TaskReq) (now : ℕ) (s : ExecuteTask) (items : List TaskItemReq)
    → req.task_item_req ≡ items
    → find req.task_no s.task ≡ none
    → str_eq req.task_no "" ≡ false
    → IsExclusive s
    → IsExclusive (add_task_req req now s).1
unfolding add_task_req
add_items req now s [] e fresh named x = rw (add_task_req, e) x
add_items req now s (item ∷ items) e fresh named x =
    let r = register_task req now s in
    let but : IsExclusiveBut r.0 r.1 = registered req now s fresh named x in
    elim (Bool-cases (str_eq r.0 "")) [
      | inl h ↦ rw (add_task_req, e, h) (no_other r.0 r.1 but h)
      | inr h ↦ rw (add_task_req, e, h) (other_cancelled r.0 r.1 but)
    ]

pub add_task_req-IsExclusive :
    (req : TaskReq) (now : ℕ) (s : ExecuteTask)
    → find req.task_no s.task ≡ none
    → str_eq req.task_no "" ≡ false
    → IsExclusive s
    → IsExclusive (add_task_req req now s).1
add_task_req-IsExclusive req now s = add_items req now s req.task_item_req refl
