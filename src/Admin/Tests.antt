-- ===== src/Admin/Tests.antt =====
-- Lists of tasks at concrete inputs (AdminRegistryServer/ExecuteTask.cpp).
use tars_framework.Base.{List, map, ◌≡◌, refl, String, true, false, [], ◌∷◌, ◌++◌}
use tars_framework.Base.Int.{pos, negsuc}
use tars_framework.Admin.Tasks.{
  item_success, item_failed, item_cancel, TaskItemReq, AdminImp, returned, threw, new_task_list,
  run_command, of_reply, do_serial,
}
use tars_framework.Admin.Tasks.Serial.{statuses, outcomes}
use tars_framework.Admin.Tasks.Serial.Cancel.{do_serial-cancel, do_serial-failure}
use mathlib.Core.List.{Permᴰ}
use tars_framework.Admin.Tasks.Parallel.{parallel_run, indexes, parallel_run_any_order}

abbrev request : String → TaskItemReq
request command = record {
  item_no = "1";
  application = "App";
  server_name = "Server";
  node_name = "10.0.0.1";
  command = command;
  parameters = [];
}

-- Every stop works and every start fails.
abbrev imp : AdminImp
imp = record {
  start_server = λ req. returned (negsuc 0) "no such file";
  restart_server = λ req. returned (pos 0) "";
  notify_server = λ req. returned (pos 0) "";
  stop_server = λ req. returned (pos 0) "";
  undeploy = λ req. threw "denied";
  has_servers = λ req. true;
  batch_patch = λ req. returned (pos 0) "";
  polls = λ req. [];
  tostr = λ n. "";
}

do_serial-cancel_example :
    statuses
      (do_serial imp (false ∷ true ∷ []) (new_task_list (request "stop" ∷ request "stop" ∷ [])))
    ≡ outcomes imp item_success (request "stop" ∷ request "stop" ∷ [])
do_serial-cancel_example =
    do_serial-cancel imp (false ∷ true ∷ []) (request "stop" ∷ request "stop" ∷ [])

stop_works : (run_command imp (request "stop")).0 ≡ item_success
unfolding run_command of_reply
stop_works = refl

start_fails : (run_command imp (request "start")).0 ≡ item_failed
unfolding run_command of_reply
start_fails = refl

do_serial-failure_example :
    (statuses (
        do_serial imp []
          (new_task_list ((request "stop" ∷ []) ++ (request "start" ∷ request "stop" ∷ []))))
      ≡ item_success ∷ item_failed ∷ item_cancel ∷ [])
    × ((do_serial imp [] (
          new_task_list
            ((request "stop" ∷ []) ++ (request "start" ∷ request "stop" ∷ [])))).executed
        ≡ request "stop" ∷ request "start" ∷ [])
    × ((do_serial imp [] (
          new_task_list
            ((request "stop" ∷ []) ++ (request "start" ∷ request "stop" ∷ [])))).finished
        ≡ true)
do_serial-failure_example =
    do_serial-failure imp [] (request "stop" ∷ []) (request "start") (request "stop" ∷ [])
      (stop_works, tt) start_fails

abbrev three : List TaskItemReq
three = request "stop" ∷ request "start" ∷ request "stop" ∷ []

-- The second item is taken first.
other_order : Permᴰ (1 ∷ 0 ∷ 2 ∷ []) (indexes three)
other_order = Permᴰ.swap refl refl

parallel_run_any_order_example :
    (statuses (parallel_run imp (1 ∷ 0 ∷ 2 ∷ []) (new_task_list three))
      ≡ map (λ req. (run_command imp req).0) three)
    × ((parallel_run imp (1 ∷ 0 ∷ 2 ∷ []) (new_task_list three)).finished ≡ false)
parallel_run_any_order_example = parallel_run_any_order imp three (1 ∷ 0 ∷ 2 ∷ []) other_order
