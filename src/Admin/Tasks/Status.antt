-- ===== src/Admin/Tasks/Status.antt =====
-- `checkTaskRspStatus` of AdminRegistryServer/ExecuteTask.cpp.
use tars_framework.Base.{
  ℕ, suc, ◌≤◌, Bool, true, false, ◌≡◌, refl, List, [], ◌∷◌, length, All, arith, ◌↔◌, if◌then◌else◌,
  ◌==◌, Bool-cases, inl, inr, ◌⊎◌,
}
use tars_framework.Admin.Tasks.{
  EmTaskItemStatus, item_not_start, item_prepare, item_running, item_pause_flow, item_success,
  item_failed, item_cancel, EmTaskStatus, task_not_start, task_prepare, task_running, task_success,
  task_failed, task_cancel, task_partial,
}

-- The counter that the `switch` raises for a status.
unfoldable pub counter : EmTaskItemStatus → EmTaskStatus
counter item_not_start = task_not_start
counter item_prepare = task_prepare
counter item_running = task_running
counter item_pause_flow = task_running
counter item_success = task_success
counter item_failed = task_failed
counter item_cancel = task_cancel

abbrev pub eq_status : EmTaskStatus → EmTaskStatus → Bool
eq_status task_not_start task_not_start = true
eq_status task_prepare task_prepare = true
eq_status task_running task_running = true
eq_status task_success task_success = true
eq_status task_failed task_failed = true
eq_status task_cancel task_cancel = true
eq_status task_partial task_partial = true
eq_status _ _ = false

unfoldable pub count : EmTaskStatus → List EmTaskItemStatus → ℕ
count c [] = 0
count c (s ∷ ss) = if eq_status (counter s) c then suc (count c ss) else count c ss

unfoldable pub check_task_rsp_status : List EmTaskItemStatus → EmTaskStatus
check_task_rsp_status ss =
    if count task_not_start ss == length ss
    then task_not_start
    else if count task_prepare ss == length ss
    then task_prepare
    else if count task_running ss == length ss
    then task_running
    else if count task_success ss == length ss
    then task_success
    else if count task_failed ss == length ss
    then task_failed
    else if count task_cancel ss == length ss
    then task_cancel
    else task_partial

eq_status_eq : (c d : EmTaskStatus) → eq_status c d ≡ true → c ≡ d
eq_status_eq c d h = ground arith

count_le : (c : EmTaskStatus) (ss : List EmTaskItemStatus) → count c ss ≤ length ss
unfolding count
count_le c [] = ground arith
count_le c (s ∷ ss) = ground (arith, count_le c ss)

count-All :
    (c : EmTaskStatus) (ss : List EmTaskItemStatus)
    → count c ss ≡ length ss
    → All (λ s. eq_status (counter s) c ≡ true) ss
unfolding count
count-All c [] h = tt
count-All c (s ∷ ss) h = elim (Bool-cases (eq_status (counter s) c)) [
  | inl e ↦ (e, count-All c ss (ground arith))
  | inr e ↦ ground (arith, count_le c ss)
]

All-count :
    (c : EmTaskStatus) (ss : List EmTaskItemStatus)
    → All (λ s. eq_status (counter s) c ≡ true) ss
    → count c ss ≡ length ss
unfolding count
All-count c [] h = refl
All-count c (s ∷ ss) h = rw h.0 ground (arith, All-count c ss h.1)

-- Count in a non-empty list only reaches the length for the class of the first.
other_class :
    (c : EmTaskStatus) (s : EmTaskItemStatus) (ss : List EmTaskItemStatus)
    → eq_status (counter s) c ≡ false
    → (count c (s ∷ ss) == length (s ∷ ss)) ≡ false
unfolding count
other_class c s ss h = ground (arith, count_le c ss)

check_lem :
    (s : EmTaskItemStatus) (ss : List EmTaskItemStatus)
    → check_task_rsp_status (s ∷ ss)
      ≡ (if count (counter s) (s ∷ ss) == length (s ∷ ss) then counter s else task_partial)
unfolding check_task_rsp_status counter
check_lem item_not_start ss =
    rw
      (
        other_class task_prepare item_not_start ss refl,
        other_class task_running item_not_start ss refl,
        other_class task_success item_not_start ss refl,
        other_class task_failed item_not_start ss refl,
        other_class task_cancel item_not_start ss refl,
      )
      refl
check_lem item_prepare ss =
    rw
      (
        other_class task_not_start item_prepare ss refl,
        other_class task_running item_prepare ss refl,
        other_class task_success item_prepare ss refl,
        other_class task_failed item_prepare ss refl,
        other_class task_cancel item_prepare ss refl,
      )
      refl
check_lem item_running ss =
    rw
      (
        other_class task_not_start item_running ss refl,
        other_class task_prepare item_running ss refl,
        other_class task_success item_running ss refl,
        other_class task_failed item_running ss refl,
        other_class task_cancel item_running ss refl,
      )
      refl
check_lem item_pause_flow ss =
    rw
      (
        other_class task_not_start item_pause_flow ss refl,
        other_class task_prepare item_pause_flow ss refl,
        other_class task_success item_pause_flow ss refl,
        other_class task_failed item_pause_flow ss refl,
        other_class task_cancel item_pause_flow ss refl,
      )
      refl
check_lem item_success ss =
    rw
      (
        other_class task_not_start item_success ss refl,
        other_class task_prepare item_success ss refl,
        other_class task_running item_success ss refl,
        other_class task_failed item_success ss refl,
        other_class task_cancel item_success ss refl,
      )
      refl
check_lem item_failed ss =
    rw
      (
        other_class task_not_start item_failed ss refl,
        other_class task_prepare item_failed ss refl,
        other_class task_running item_failed ss refl,
        other_class task_success item_failed ss refl,
        other_class task_cancel item_failed ss refl,
      )
      refl
check_lem item_cancel ss =
    rw
      (
        other_class task_not_start item_cancel ss refl,
        other_class task_prepare item_cancel ss refl,
        other_class task_running item_cancel ss refl,
        other_class task_success item_cancel ss refl,
        other_class task_failed item_cancel ss refl,
      )
      refl

not_partial : (s : EmTaskItemStatus) → task_partial ≡ counter s → ⊥
unfolding counter
not_partial s h = ground arith

-- The status of a list of at least one task is the class of its first task exactly if all its tasks
-- are of that class, where running and paused are one class; otherwise it is partial.
pub check_task_rsp_status_lem :
    (s : EmTaskItemStatus) (ss : List EmTaskItemStatus)
    → ((check_task_rsp_status (s ∷ ss) ≡ counter s)
        ↔ All (λ r. eq_status (counter r) (counter s) ≡ true) (s ∷ ss))
      × ((check_task_rsp_status (s ∷ ss) ≡ counter s)
          ⊎ (check_task_rsp_status (s ∷ ss) ≡ task_partial))
check_task_rsp_status_lem s ss =
    rw (check_lem s ss) (elim (Bool-cases (count (counter s) (s ∷ ss) == length (s ∷ ss))) [
      | inl e ↦ rw e ((λ h. count-All (counter s) (s ∷ ss) (ground arith), λ h. refl), inl refl)
      | inr e ↦ rw e (
        (λ h. absurd (not_partial s h), λ h. ground (arith, All-count (counter s) (s ∷ ss) h)),
        inr refl,
      )
    ])
