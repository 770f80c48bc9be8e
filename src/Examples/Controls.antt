-- ===== src/Examples/Controls.antt =====
-- A job under the controller at concrete answers.
use weibo.Base.{
  sym, ℕ, ◌*◌, ◌≡◌, ◌≢◌, refl, true, false, none, some, List, [], ◌∷◌, length, codes, ◌≤◌, All,
  bytes_eq, ◌==◌, if◌then◌else◌,
}
use weibo.Base.Int.{pos}
use weibo.State.{Bytes}
use weibo.Lifecycle.{default_restart_policy, running}
use weibo.Controller.{
  Controller, Outside, Status, launched, phase_running, phase_exited, Job, yaml, no_failure,
  desired_stopped, secret, JobState,
}
use weibo.Controller.Requests.{
  Request, do_restart, delete_with_options, ask_submit, ask_cancel, ask_restart, ask_reconcile,
  restarted, serve_all, no_job_yet,
}
use weibo.Controller.Submissions.{submit}
use weibo.Controller.Store.{
  count_active, list_runs, query, transact, create_job, append_transition,
  create_run_with_transition, update_run_with_transition, update_run, get_job, latest_run,
  set_desired,
}
use weibo.Controller.Backend.{launch_container, container_status, remove_launched}
use weibo.Controller.Launch.{
  start_run, begin_run, record_launch, record_run, unrecorded, mark_launch_record_failure,
}
use weibo.Controller.Secrets.{launch_env}
use weibo.Controller.Frame.Serving.{asks_to_run}
use weibo.Controller.Stopped.{serve_all-Stopped}
use weibo.Controller.Fence.Serving.{serve_all-single_live, delete-leaves_nothing}
use weibo.Controller.Fence.Deleting.{IsGone}
use weibo.Controller.Fence.Orphans.{Among}
use weibo.Controller.Outcomes.{Post}
use weibo.Controller.Attempts.{limit}
use weibo.Controller.Attempts.Submitting.{launches_bounded}

-- A container that is running, and one that has failed.
abbrev up : Status
up = record {
  phase = phase_running;
  exit_code = pos 0;
  oom_killed = false;
  reason = [];
  host_port = pos 80;
  address = codes "a:80";
}

abbrev crashed : Status
crashed = record {
  phase = phase_exited;
  exit_code = pos 1;
  oom_killed = false;
  reason = [];
  host_port = pos 0;
  address = [];
}

-- Containers are named by the number of the call that starts them.
named : (n : ℕ) (id : Bytes) → launched (n ∷ []) ≡ launched id → id ≢ []
named n id e f = cc

-- Every second call takes place a minute after the one before.
abbrev quiet : Status → Outside
quiet st = record {
  store_error = λ n. none;
  launch = λ n spec. launched (n ∷ []);
  stop_error = λ n id. none;
  remove_error = λ n id. none;
  delete_data_error = λ n. none;
  status = λ n id. some st;
  capacity = λ n. some [];
  savepoint_accepted = λ n address label. true;
  resolve_secret = λ n ref. secret [];
  now = λ n. pos (n * 60000000000);
  new_id = λ n. n ∷ [];
  format = λ t. [];
  to_lower = λ b. b;
  parse_sdk_manifest = λ doc. none;
  parse_quantity = λ q. true;
  compile = λ doc env. some doc;
  launch-ne-nil = λ n spec id. named n id;
}

-- The record of the first launch fails, and so does the removal of its container.
abbrev failing : Outside
failing = record (quiet up) {
  store_error = λ n. if n == 6 then some (codes "disk full") else none;
  remove_error = λ n id. if n == 7 then some (codes "timeout") else none;
}

abbrev controller : Outside → Controller
controller outside = record {
  image = codes "runner";
  restart = default_restart_policy;
  retention = pos 5;
  outside = outside;
}

abbrev submission : Request
submission = ask_submit (codes "wordcount") [] []

abbrev passes : List Request
passes = ask_reconcile ∷ ask_reconcile ∷ restarted ∷ ask_reconcile ∷ ask_cancel ∷ ask_reconcile ∷ []

abbrev stopped_job : Job
stopped_job = record {
  id = codes "j";
  name = codes "wordcount";
  kind = yaml;
  spec = [];
  image = [];
  secrets = [];
  desired = desired_stopped;
}

-- A job that is to be stopped, whose container has failed.
abbrev stopping : JobState
stopping = record no_job_yet {
  job = some stopped_job;
  runs =
      record {
        id = codes "r";
        container_id = codes "c";
        host_port = pos 80;
        phase = running;
        attempt = pos 1;
        error = [];
        failure_kind = no_failure;
        started = pos 5;
        stopped = none;
        restart_at = none;
      }
      ∷ [];
  live = codes "c" ∷ [];
}

passes_only : All (λ q. asks_to_run q ≡ false) passes
passes_only = (refl, (refl, (refl, (refl, (refl, (refl, tt))))))

serve_all-single_live_example :
    ((serve_all (controller failing) (submission ∷ ask_restart ∷ passes) no_job_yet).most_live ≤ 1)
    × (length (serve_all (controller failing) (submission ∷ ask_restart ∷ passes) no_job_yet).live
        ≤ 1)
    × (count_active
          (serve_all (controller failing) (submission ∷ ask_restart ∷ passes) no_job_yet).runs
        ≤ 1)
serve_all-single_live_example =
    serve_all-single_live (controller failing) (submission ∷ ask_restart ∷ passes)

serve_all-Stopped_example : (serve_all (controller (quiet crashed)) passes stopping).launches ≡ []
serve_all-Stopped_example =
    serve_all-Stopped (controller (quiet crashed)) passes stopping stopped_job refl refl passes_only

launches_bounded_example :
    length (serve_all (controller (quiet crashed)) (submission ∷ passes) no_job_yet).launches
    ≤ limit (controller (quiet crashed))
launches_bounded_example =
    launches_bounded (controller (quiet crashed)) (λ n ref. tt) (codes "wordcount") [] [] passes
      passes_only

-- The container of the first launch could be neither recorded nor removed: a restart starts another.
orphaned :
    (serve_all (controller failing) (submission ∷ ask_restart ∷ []) no_job_yet).orphans
    ≡ (4 ∷ []) ∷ []
unfolding serve_all submit start_run begin_run launch_env list_runs query transact create_job
    append_transition create_run_with_transition launch_container record_launch container_status
    record_run update_run_with_transition unrecorded remove_launched mark_launch_record_failure
    update_run do_restart get_job latest_run set_desired bytes_eq
orphaned = refl

started_again :
    (serve_all (controller failing) (submission ∷ ask_restart ∷ []) no_job_yet).live
    ≡ (14 ∷ []) ∷ []
unfolding serve_all submit start_run begin_run launch_env list_runs query transact create_job
    append_transition create_run_with_transition launch_container record_launch container_status
    record_run update_run_with_transition unrecorded remove_launched mark_launch_record_failure
    update_run do_restart get_job latest_run set_desired bytes_eq
started_again = refl

delete-leaves_nothing_example :
    Post
      (λ _ s. IsGone s × Among s.orphans ((4 ∷ []) ∷ []))
      (λ s. (length s.live ≤ 1) × Among s.orphans ((4 ∷ []) ∷ []))
      (delete_with_options
        (controller failing)
        false
        (serve_all (controller failing) (submission ∷ ask_restart ∷ []) no_job_yet))
delete-leaves_nothing_example =
    rw (sym orphaned)
      (delete-leaves_nothing (controller failing) (submission ∷ ask_restart ∷ []) false)
