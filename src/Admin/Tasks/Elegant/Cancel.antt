-- ===== src/Admin/Tasks/Elegant/Cancel.antt =====
-- Which items of `TaskListElegant` (AdminRegistryServer/ExecuteTask.cpp) are executed when it is
-- cancelled between two batches.
use tars_framework.Base.{ℕ, zero, suc, ◌*◌, Bool, true, false, List, [], ◌∷◌, ◌++◌, map, take, drop}
use tars_framework.Admin.Tasks.{EmTaskItemStatus, item_cancel, TaskItemReq, AdminImp}
use tars_framework.Admin.Tasks.Elegant.Waits.{Waits, ran}

-- `cancelTask` is called before batch `k`, counted from 0.
abbrev pub cancel_before : ℕ → List Bool
cancel_before zero = true ∷ []
cancel_before (suc k) = false ∷ cancel_before k

-- What a list that is cancelled before batch `k` ends with.
abbrev pub until : AdminImp → ℕ → ℕ → List TaskItemReq → List EmTaskItemStatus
until imp k each_num reqs =
    ran imp (take (k * each_num) reqs) ++ map (λ req. item_cancel) (drop (k * each_num) reqs)
