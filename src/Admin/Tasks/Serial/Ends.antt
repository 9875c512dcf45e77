-- ===== src/Admin/Tasks/Serial/Ends.antt =====
-- How one task of AdminRegistryServer/ExecuteTask.cpp ends.
use tars_framework.Base.{
  Bool, true, false, ◌≡◌, refl, List, [], ◌∷◌, arith, String, Bool-cases, inl, inr,
}
use tars_framework.Base.Int.{ℤ, pos, eqb_ℤ}
use tars_framework.Admin.Tasks.{
  EmTaskItemStatus, item_not_start, item_prepare, item_running, item_pause_flow, item_success,
  item_failed, item_cancel, TaskItemReq, AdminImp, is_not_start, run_command, of_reply, wait_patch,
  patch, after_batch_patch, patch_then, grace_restart, Reply, returned, threw, Poll, progress,
  no_progress,
}
use tars_framework.Admin.Tasks.Serial.{outcome, IsBegun}

-- The statuses that a task ends with.
abbrev pub is_end : EmTaskItemStatus → Bool
is_end item_success = true
is_end item_failed = true
is_end _ = false

of_reply_end : (r : Reply) → is_end (of_reply r).0 ≡ true
unfolding of_reply
of_reply_end (returned ret log) = ground arith
of_reply_end (threw what) = refl

wait_patch_end :
    (ret : ℤ) (log : String) (percents : List ℤ) (polls : List Poll)
    → is_end (wait_patch ret log percents polls).0 ≡ true
unfolding wait_patch
wait_patch_end ret log percents [] = refl
wait_patch_end ret log percents (progress r percent succ result ∷ polls) =
    ground (arith, wait_patch_end r log (percent ∷ percents) polls)
wait_patch_end ret log percents (no_progress what ∷ polls) =
    ground (arith, wait_patch_end ret what (pos 0 ∷ percents) polls)

after_batch_patch_end :
    (imp : AdminImp) (req : TaskItemReq) (r : Reply) → is_end (after_batch_patch imp req r).0 ≡ true
unfolding after_batch_patch
after_batch_patch_end imp req (threw what) = refl
after_batch_patch_end imp req (returned ret log) = elim (Bool-cases (eqb_ℤ ret (pos 0))) [
  | inl e ↦ rw e (wait_patch_end ret log [] (imp.polls req))
  | inr e ↦ rw e refl
]

patch_end : (imp : AdminImp) (req : TaskItemReq) → is_end (patch imp req).0 ≡ true
unfolding patch
patch_end imp req = after_batch_patch_end imp req (imp.batch_patch req)

patch_then_end :
    (next : TaskItemReq → EmTaskItemStatus × String) (req : TaskItemReq)
    (r : EmTaskItemStatus × String × List ℤ)
    → is_end (next req).0 ≡ true
    → is_end r.0 ≡ true
    → is_end (patch_then next req r).0 ≡ true
unfolding patch_then
patch_then_end next req (item_success, log, percents) n h = ground (arith, n)
patch_then_end next req (item_failed, log, percents) n h = refl
patch_then_end next req (item_not_start, log, percents) n h = h
patch_then_end next req (item_prepare, log, percents) n h = h
patch_then_end next req (item_running, log, percents) n h = h
patch_then_end next req (item_pause_flow, log, percents) n h = h
patch_then_end next req (item_cancel, log, percents) n h = h

grace_restart_end : (imp : AdminImp) (req : TaskItemReq) → is_end (grace_restart imp req).0 ≡ true
unfolding grace_restart
grace_restart_end imp req = ground (arith, of_reply_end (imp.notify_server req))

-- Every command ends with success or with failure.
pub run_command_end : (imp : AdminImp) (req : TaskItemReq) → is_end (run_command imp req).0 ≡ true
unfolding run_command
run_command_end imp req = ground (
  arith,
  of_reply_end (imp.stop_server req),
  of_reply_end (imp.start_server req),
  of_reply_end (imp.restart_server req),
  of_reply_end (imp.undeploy req),
  patch_then_end (λ r. of_reply (imp.restart_server r)) req (patch imp req)
      (of_reply_end (imp.restart_server req)) (patch_end imp req),
  patch_then_end (grace_restart imp) req (patch imp req) (grace_restart_end imp req)
      (patch_end imp req),
)

pub IsBegun-end : (status : EmTaskItemStatus) → is_end status ≡ true → IsBegun status
unfolding is_not_start
IsBegun-end item_success h = refl
IsBegun-end item_failed h = refl
IsBegun-end item_not_start h = ground arith
IsBegun-end item_prepare h = refl
IsBegun-end item_running h = refl
IsBegun-end item_pause_flow h = refl
IsBegun-end item_cancel h = refl

pub outcome-IsBegun :
    (imp : AdminImp) (status : EmTaskItemStatus) (req : TaskItemReq)
    → IsBegun (outcome imp status req)
unfolding is_not_start
outcome-IsBegun imp item_success req = IsBegun-end (run_command imp req).0 (run_command_end imp req)
outcome-IsBegun imp item_failed req = refl
outcome-IsBegun imp item_not_start req = refl
outcome-IsBegun imp item_prepare req = refl
outcome-IsBegun imp item_running req = refl
outcome-IsBegun imp item_pause_flow req = refl
outcome-IsBegun imp item_cancel req = refl
