-- ===== src/Admin/ExecuteTask/Live.antt =====
-- Reachable states of `ExecuteTask` (AdminRegistryServer/ExecuteTask.cpp): the calls, the deletions and
-- the writes of the threads, in any order.
use tars_framework.Base.{
  Bool-cases, inl, inr, eq_iff, String, ◌≡◌, refl, true, false, some, str_eq, string_key,
}
use tars_framework.Base.Map.{find, update}
use tars_framework.Admin.Tasks.{finish, set_rsp_info}
use tars_framework.Admin.ExecuteTask.{Task, ExecuteTask, on_list, delete_old, Reachable}
use tars_framework.Admin.ExecuteTask.Exclusive.{
  is_live, service, IsExclusive, still, changed, live_written, live_finished, find-delete_old,
  written_service, cancel_task_no-IsExclusive,
}
use tars_framework.Admin.ExecuteTask.Added.{add_task_req-IsExclusive}

Reachable-IsExclusive : (s : ExecuteTask) → Reachable s → IsExclusive s
unfolding find
Reachable-IsExclusive _ Reachable.initial = λ key t f l. absurd cc
Reachable-IsExclusive _ (Reachable.added req now s fresh named r) =
    add_task_req-IsExclusive req now s fresh named (Reachable-IsExclusive s r)
Reachable-IsExclusive _ (Reachable.cancelled number s r) =
    cancel_task_no-IsExclusive number s (Reachable-IsExclusive s r)
Reachable-IsExclusive _ (Reachable.deleted now s r) =
    still s (record s { task = delete_old now s.task s.task }) refl
      (λ key t f l. (t, find-delete_old now key t s.task s.task f, l, refl))
      (Reachable-IsExclusive s r)
Reachable-IsExclusive _ (Reachable.written number i status s h r) =
    still s (record s { task = update number (on_list (set_rsp_info i status)) s.task }) refl
      (λ key t f l.
        changed (set_rsp_info i status) number key s t
          (λ u k. (live_written i status u h k, written_service i status u)) f l)
      (Reachable-IsExclusive s r)
Reachable-IsExclusive _ (Reachable.finishing number s r) =
    still s (record s { task = update number (on_list finish) s.task }) refl
      (λ key t f l. changed finish number key s t (λ u k. absurd (live_finished u k)) f l)
      (Reachable-IsExclusive s r)

-- Whatever calls, deletions and writes of its threads came before, where the requests had new
-- numbers that are not empty: of two lists that pause the flow of the same service, with different
-- numbers, one is not live if the other is. A live list is unfinished and has an item that waits.
pub one_live_list :
    (s : ExecuteTask) (a b : String) (t u : Task)
    → Reachable s
    → find a s.task ≡ some t
    → find b s.task ≡ some u
    → str_eq a b ≡ false
    → service t ≡ service u
    → is_live t ≡ true
    → is_live u ≡ false
one_live_list s a b t u r ft fu apart e lt = elim (Bool-cases (is_live u)) [
  | inr lu ↦ lu
  | inl lu ↦
      let x = Reachable-IsExclusive s r in
      let own = (x a t ft lt).1 in
      let other = (x b u fu lu).1 in
      let same : a ≡ b = cc (rw e at own, other) in absurd (cc ((eq_iff a b).1 same, apart))
]
