-- ===== src/Controller/Launch.antt =====
-- control/controller.go: `startRun` and how a run ends; control/secrets.go: the environment of a launch.
use weibo.Base.{
  Bool, true, false, Option, none, some, List, [], ◌∷◌, ◌++◌, if◌then◌else◌, codes, ◌&&◌,
}
use weibo.Base.Int.{ℤ, pos}
use weibo.State.{Bytes, bytes_key}
use weibo.Lifecycle.{submitted, starting, running, failed, should_restart}
use weibo.Controller.{
  Controller, Job, Kind, yaml, sdk, Run, JobState, Operation, Result, ok, Error, secret_failed,
  already_active, launch_failed, also, store_failed, backend_failed, invalid, not_found,
  constraint_failed, LaunchError, LaunchSpec, ResourceLimits, SdkManifest, FailureKind, no_failure,
  launch_transient, launch_permanent, launch_record, done, fail, handle_both, ◌>>=◌, ◌>>◌, is_empty,
}
use weibo.Controller.Store.{
  list_runs, create_run_with_transition, update_run, update_run_with_transition, is_active,
}
use weibo.Controller.Backend.{
  LaunchFailure, permanent, transient, launch_failure_kind, launch_container, remove_launched,
  container_status,
}
use weibo.Controller.Secrets.{merge_env, launch_env}
use weibo.Controller.Endings.{transition_record, block_run, schedule_restart_from}

-- `err.Error()`, for the errors whose text may be stored; that of SQLite for a constraint is shortened.
abbrev pub error_text : Error → Bytes
error_text (store_failed e) = e
error_text (backend_failed e) = e
error_text (secret_failed e) = e
error_text (invalid e) = e
error_text (already_active id) = id
error_text (launch_failed e) = e.message
error_text (also e f) = error_text e
error_text not_found = codes "store: run not found"
error_text constraint_failed = codes "constraint failed"

abbrev pub first_active : List Run → Option Run
first_active [] = none
first_active (r ∷ rs) = let rest = first_active rs in if is_active r then some r else rest

abbrev pub has_limits : ResourceLimits → Bool
has_limits r =
    if is_empty r.cpu && (is_empty r.memory && is_empty r.ephemeral_storage) then false else true

abbrev pub to_limits : Option ResourceLimits → Option ResourceLimits
to_limits none = none
to_limits (some r) = if has_limits r then some r else none

module _ (c : Controller) where
  open c use {image, restart, retention}
  open c.outside use {now, new_id, resolve_secret, parse_sdk_manifest}

  abbrev pub with_manifest : Job → Bytes → List (Bytes × Bytes) → Option SdkManifest → LaunchSpec
  with_manifest job restore env none = record {
    job_id = job.id;
    name = job.name;
    image = job.image;
    workflow_doc = [];
    env = env;
    restore_savepoint = restore;
    resources = none;
  }
  with_manifest job restore env (some m) = record {
    job_id = job.id;
    name = job.name;
    image = job.image;
    workflow_doc = [];
    env = merge_env m.env env;
    restore_savepoint = restore;
    resources = to_limits m.resources;
  }

  abbrev pub launch_spec : Kind → Job → Bytes → List (Bytes × Bytes) → LaunchSpec
  launch_spec sdk job restore env = with_manifest job restore env (parse_sdk_manifest job.spec)
  launch_spec yaml job restore env = record {
    job_id = job.id;
    name = job.name;
    image = image;
    workflow_doc = job.spec;
    env = env;
    restore_savepoint = restore;
    resources = none;
  }

  abbrev pub launch_failure : LaunchFailure → FailureKind
  launch_failure permanent = launch_permanent
  launch_failure transient = launch_transient

  abbrev pub with_launch_error : Run → LaunchError → Run
  with_launch_error r e = record r {
    error = e.message;
    failure_kind = launch_failure (launch_failure_kind c e);
  }

  abbrev pub retries : Run → LaunchFailure → Bool
  retries r permanent = false
  retries r transient = should_restart restart failed r.attempt

  unfoldable pub fail_run : Run → Bytes → Operation (Unit {0})
  fail_run r reason s =
      update_run_with_transition c (record r { phase = failed; stopped = some (now s.calls) })
        (transition_record c s r starting failed reason) s

  -- Whatever is recorded, the error of the launch is returned.
  unfoldable pub launch_refused : Run → Error → Operation (Unit {0})
  launch_refused r (launch_failed e) =
      let r' = with_launch_error r e in
      if retries r (launch_failure_kind c e)
      then handle_both (schedule_restart_from c r' starting e.message) (λ _. fail (launch_failed e))
          (λ u. fail (also (launch_failed e) u))
      else handle_both (fail_run r' e.message) (λ _. fail (launch_failed e))
          (λ u. fail (also (launch_failed e) u))
  launch_refused r e = fail e

  unfoldable pub mark_launch_record_failure : Run → Error → Operation (Unit {0})
  mark_launch_record_failure r cause s =
      update_run c
        (record r {
          container_id = [];
          host_port = pos 0;
          phase = failed;
          error = codes "failed to record launched backend resource: " ++ error_text cause;
          failure_kind = launch_record;
          stopped = some (now s.calls);
          restart_at = none;
        })
        s

  unfoldable pub unrecorded : Run → Bytes → Error → Operation (Unit {0})
  unrecorded r id e =
      handle_both (remove_launched c id)
        (λ _. handle_both (mark_launch_record_failure r e) (λ _. fail e) (λ u. fail (also e u)))
        (λ f.
          handle_both (mark_launch_record_failure r e) (λ _. fail (also e f))
            (λ u. fail (also (also e f) u)))

  abbrev pub as_launched : Run → Bytes → Run
  as_launched r id = record r { container_id = id; phase = running }

  unfoldable pub record_run : Run → Bytes → Operation (Unit {0})
  record_run r id s =
      handle_both
        (update_run_with_transition c r
          (transition_record c s r starting running (codes "launched")))
        done (unrecorded r id) s

  unfoldable pub record_launch : Run → Bytes → Operation (Unit {0})
  record_launch r id =
      handle_both (container_status c id)
        (λ st. record_run (record (as_launched r id) { host_port = st.host_port }) id)
        (λ e. record_run (as_launched r id) id)

  abbrev pub launch_in : Job → Run → Bytes → Result (List (Bytes × Bytes)) → Operation (Unit {0})
  launch_in job r restore (ok env) =
      handle_both (launch_container c (launch_spec job.kind job restore env)) (record_launch r)
        (launch_refused r)
  launch_in job r restore (Result.failed e) =
      handle_both (block_run c r starting (error_text e)) (λ _. fail e) (λ u. fail (also e u))

  abbrev pub new_run : JobState → ℤ → Run
  new_run s attempt = record {
    id = new_id s.calls;
    container_id = [];
    host_port = pos 0;
    phase = starting;
    attempt = attempt;
    error = [];
    failure_kind = no_failure;
    started = now s.calls;
    stopped = none;
    restart_at = none;
  }

  unfoldable pub begin_run : Job → ℤ → Bytes → Operation (Unit {0})
  begin_run job attempt restore s =
      let r = new_run s attempt in
      (create_run_with_transition c r
            (transition_record c s r submitted starting (codes "launch requested"))
          >> λ s'. launch_in job r restore (launch_env c job s') s')
        s

  abbrev pub unless_active : Job → ℤ → Bytes → Option Run → Operation (Unit {0})
  unless_active job attempt restore (some prev) = fail (already_active prev.id)
  unless_active job attempt restore none = begin_run job attempt restore

  unfoldable pub start_run : Job → ℤ → Bytes → Operation (Unit {0})
  start_run job attempt restore =
      list_runs c >>= λ runs. unless_active job attempt restore (first_active runs)
