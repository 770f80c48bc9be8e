-- ===== src/Controller/Reconcile.antt =====
-- control/reconcile.go: a pass over the active runs of a job drives it towards its desired state.
use weibo.Base.{
  Bool, true, false, not, Option, none, some, List, [], ◌∷◌, if◌then◌else◌, codes, bytes_eq, ◌&&◌,
  ◌||◌,
}
use weibo.Base.Int.{ℤ, pos, ◌+ℤ◌, ltb_ℤ, eqb_ℤ}
use weibo.State.{Bytes}
use weibo.Lifecycle.{
  Phase, starting, running, restarting, blocked, cancelled, finished, failed, should_restart,
}
use weibo.Controller.{
  Controller, Desired, desired_running, desired_stopped, Job, Run, Status, ContainerStats,
  ContainerPhase, phase_pending, phase_running, phase_exited, phase_gone, phase_unhealthy,
  FailureKind, no_failure, container_unhealthy, oom_killed, JobState, Operation, Result, ok, done,
  handle_both, ignore, when, ◌>>=◌, ◌>>◌, is_empty,
}
use weibo.Controller.Store.{
  update_run, update_run_with_transition, active_runs, get_run, get_job, is_active,
}
use weibo.Controller.Backend.{stop_container, container_status, containers}
use weibo.Controller.Launch.{error_text, start_run}
use weibo.Controller.Endings.{transition_record, finish_run, schedule_restart_from}
use weibo.Controller.Secrets.{launch_env}

abbrev pub wants_stop : Desired → Bool
wants_stop desired_stopped = true
wants_stop desired_running = false

abbrev pub is_unhealthy : FailureKind → Bool
is_unhealthy container_unhealthy = true
is_unhealthy _ = false

abbrev pub is_starting : Phase → Bool
is_starting starting = true
is_starting _ = false

abbrev pub is_running : Phase → Bool
is_running running = true
is_running _ = false

abbrev pub is_zero : ℤ → Bool
is_zero n = eqb_ℤ n (pos 0)

abbrev pub with_port : Status → Run → Run
with_port st r = if is_zero st.host_port then r else record r { host_port = st.host_port }

abbrev pub recovered : Run → Run
recovered r =
    if is_unhealthy r.failure_kind then record r { error = []; failure_kind = no_failure } else r

-- The latest container of the job; the first of those that started at one time.
abbrev pub later_of : Option ContainerStats → ContainerStats → ContainerStats
later_of none x = x
later_of (some best) x = if ltb_ℤ best.started_at x.started_at then x else best

abbrev pub find_managed :
    Bytes → Option ContainerStats → List ContainerStats → Option ContainerStats
find_managed job_id best [] = best
find_managed job_id best (x ∷ xs) =
    find_managed job_id
      (if x.managed && (bytes_eq x.job_id job_id && not (is_empty x.id))
        then some (later_of best x)
        else best)
      xs

module _ (c : Controller) where
  open c use {restart}
  open c.outside use {now}

  -- An error of the stop is recorded, and tried again in the next pass.
  unfoldable pub stop_run : Run → Phase → Operation (Unit {0})
  stop_run r from =
      handle_both (stop_container c r.container_id)
        (λ _. finish_run c r from cancelled (codes "desired stopped"))
        (λ e. update_run c (record r { error = error_text e }))

  abbrev pub note_pending : Run → Status → Operation (Unit {0})
  note_pending r st =
      when (not (is_starting r.phase && bytes_eq r.error st.reason))
        (update_run c (record r { phase = starting; error = st.reason }))

  abbrev pub note_running : Run → Status → Operation (Unit {0})
  note_running r st =
      when
        (not (is_running r.phase)
          || ((not (is_zero st.host_port) && not (eqb_ℤ r.host_port st.host_port))
              || is_unhealthy r.failure_kind))
        (update_run c (recovered (with_port st (record r { phase = running }))))

  abbrev pub note_unhealthy : Run → Status → Operation (Unit {0})
  note_unhealthy r st =
      when (not (bytes_eq r.error st.reason && is_unhealthy r.failure_kind))
        (update_run c (record r { error = st.reason; failure_kind = container_unhealthy }))

  abbrev pub is_early : JobState → Option ℤ → Bool
  is_early s none = false
  is_early s (some at) = ltb_ℤ (now s.calls) at

  abbrev pub relaunch : Job → Run → Operation (Unit {0})
  relaunch job r =
      finish_run c r restarting failed (codes "restart backoff elapsed")
      >> start_run c job (r.attempt +ℤ pos 1) []

  unfoldable pub maybe_restart : Job → Run → Operation (Unit {0})
  maybe_restart job r s =
      (if wants_stop job.desired
          then done tt
          else if not (should_restart restart failed r.attempt)
          then done tt
          else if is_early s r.restart_at
          then done tt
          else relaunch job r)
        s

  unfoldable pub schedule_restart : Run → Bytes → Operation Run
  schedule_restart r reason = schedule_restart_from c r running reason

  -- Where a run failed: another try, or the end.
  unfoldable pub retry_or_finish : Job → Run → Bytes → Operation (Unit {0})
  retry_or_finish job r reason =
      if should_restart restart failed r.attempt
      then (schedule_restart r reason >>= maybe_restart job)
      else finish_run c r running failed reason

  abbrev pub exit_failed : Job → Run → Bool → Operation (Unit {0})
  exit_failed job r true =
      retry_or_finish job (record r { failure_kind = oom_killed; error = codes "out of memory" })
        (codes "out of memory")
  exit_failed job r false =
      retry_or_finish job (record r { failure_kind = no_failure; error = codes "nonzero exit" })
        (codes "nonzero exit")

  unfoldable pub handle_exit : Job → Run → ℤ → Bool → Operation (Unit {0})
  handle_exit job r exit_code killed =
      if wants_stop job.desired
      then finish_run c r running cancelled (codes "stopped by request")
      else if is_zero exit_code
      then finish_run c r running finished (codes "container exited")
      else exit_failed job r killed

  abbrev pub handle_gone : Job → Run → Operation (Unit {0})
  handle_gone job r =
      if wants_stop job.desired
      then finish_run c r running cancelled (codes "container gone; desired stopped")
      else retry_or_finish job r (codes "container gone")

  abbrev pub reconcile_phase : ContainerPhase → Job → Run → Status → Operation (Unit {0})
  reconcile_phase phase_pending job r st =
      if wants_stop job.desired then stop_run r starting else note_pending r st
  reconcile_phase phase_running job r st =
      if wants_stop job.desired then stop_run r running else note_running r st
  reconcile_phase phase_unhealthy job r st =
      if wants_stop job.desired then stop_run r running else note_unhealthy r st
  reconcile_phase phase_exited job r st = handle_exit job r st.exit_code st.oom_killed
  reconcile_phase phase_gone job r st = handle_gone job r

  unfoldable pub reconcile_run : Job → Run → Status → Operation (Unit {0})
  reconcile_run job r st = reconcile_phase st.phase job r st

  abbrev pub unblock : Job → Run → Result (List (Bytes × Bytes)) → Operation (Unit {0})
  unblock job r (ok env) =
      finish_run c r blocked failed (codes "secret references resolved; retrying launch")
      >> start_run c job (r.attempt +ℤ pos 1) []
  unblock job r (Result.failed e) =
      when (not (bytes_eq r.error (error_text e)))
        (update_run c (record r { error = error_text e }))

  unfoldable pub maybe_unblock : Job → Run → Operation (Unit {0})
  maybe_unblock job r s =
      (if wants_stop job.desired then done tt else unblock job r (launch_env c job s)) s

  abbrev pub reattach : ContainerPhase → Job → Run → Status → Operation (Unit {0})
  reattach phase_gone job r st = done tt
  reattach phase_running job r st = λ s.
      update_run_with_transition c (record r { phase = running })
        (transition_record c s r r.phase running (codes "reattached backend resource")) s
  reattach phase_pending job r st = update_run c (record r { phase = starting; error = st.reason })
  reattach phase_exited job r st = reconcile_run job r st
  reattach phase_unhealthy job r st = reconcile_run job r st

  abbrev pub reattach_found : Job → Run → Option ContainerStats → Operation (Unit {0})
  reattach_found job r none = done tt
  reattach_found job r (some x) = container_status c x.id >>= λ st.
      reattach st.phase job (with_port st (record r { container_id = x.id })) st

  unfoldable pub reattach_unrecorded_backend_run : Job → Run → Operation (Unit {0})
  reattach_unrecorded_backend_run job r =
      containers c >>= λ stats. reattach_found job r (find_managed job.id none stats)

  abbrev pub observe_run : Job → Run → Operation (Unit {0})
  observe_run job r =
      if is_empty r.container_id
      then reattach_unrecorded_backend_run job r
      else (container_status c r.container_id >>= reconcile_run job r)

  abbrev pub reconcile_active : Phase → Job → Run → Operation (Unit {0})
  reconcile_active blocked job r = maybe_unblock job r
  reconcile_active restarting job r = maybe_restart job r
  reconcile_active _ job r = observe_run job r

  -- Under the lock: the run as it is now, if it is still active.
  unfoldable pub reconcile_locked : Bytes → Operation (Unit {0})
  reconcile_locked id = get_run c id >>= λ r.
      if is_active r then (get_job c >>= λ job. reconcile_active r.phase job r) else done tt

  -- Errors of one run are logged.
  unfoldable pub reconcile_each : List Run → Operation (Unit {0})
  reconcile_each [] = done tt
  reconcile_each (r ∷ rs) = ignore (reconcile_locked r.id) >> reconcile_each rs

  unfoldable pub reconcile : Operation (Unit {0})
  reconcile = active_runs c >>= reconcile_each
