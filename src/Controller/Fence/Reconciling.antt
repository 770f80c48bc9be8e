-- ===== src/Controller/Fence/Reconciling.antt =====
-- control/reconcile.go: a pass over the active runs keeps the containers accounted for.
use weibo.Base.{◌≡◌, Bool, true, false, not, [], if_cases, refl, bytes_eq, ◌&&◌, ◌||◌}
use weibo.Base.Int.{ℤ, eqb_ℤ}
use weibo.State.{Bytes}
use weibo.Lifecycle.{Phase, starting, running, restarting, cancelled, finished, should_restart}
use weibo.Controller.{
  Controller, Job, Run, JobState, Status, ContainerPhase, phase_pending, phase_running,
  phase_exited, phase_gone, phase_unhealthy,
}
use weibo.Controller.Store.{update_run}
use weibo.Controller.Backend.{has_ended}
use weibo.Controller.Launch.{error_text}
use weibo.Controller.Reconcile.{
  is_starting, is_running, stop_run, note_pending, note_running, note_unhealthy, relaunch,
  maybe_restart, is_early, schedule_restart, retry_or_finish, exit_failed, handle_exit, handle_gone,
  reconcile_phase, reconcile_run, wants_stop, is_unhealthy, is_zero, with_port, recovered,
}
use weibo.Controller.Outcomes.{on_ok, on_failed, Kept, Does, Post-followed}
use weibo.Controller.Fence.{Safe, Idle, Tied, Watching, Idle-Safe, Tied-Safe}
use weibo.Controller.Fence.Calls.{stop-Tied}
use weibo.Controller.Fence.Updates.{update_run-Safe}
use weibo.Controller.Fence.Launching.{finish-Idle, schedule-Idle, start_run-Safe, Kept-Idle-Safe}

module _ (c : Controller) where
  update-Tied :
      (r q : Run) (s : JobState)
      → q.container_id ≡ r.container_id
      → (Watching r → Watching q)
      → Tied r s
      → Kept Safe (update_run c q s)
  update-Tied r q s e w t = update_run-Safe c r q s e w t

  stop_run-Safe :
      (r : Run) (from : Phase) (s : JobState) → Tied r s → Kept Safe (stop_run c r from s)
  unfolding stop_run
  stop_run-Safe r from s t =
      Post-followed (stop-Tied c r s t)
        (λ _ s' i. Kept-Idle-Safe (finish-Idle c r from cancelled _ s' i))
        (λ e s' t'. update-Tied r (record r { error = error_text e }) s' refl (λ w. w) t')

  pending-Safe :
      (r : Run) (st : Status) (s : JobState) → Tied r s → Kept Safe (note_pending c r st s)
  pending-Safe r st s t =
      if_cases (Does {A = Unit {0}} Safe s)
        (not (is_starting r.phase && bytes_eq r.error st.reason)) _ _
        (λ _. update-Tied r _ s refl (λ w. (w.0, refl, w.2)) t) (λ _. on_ok tt s (Tied-Safe r s t))

  -- Marks of a running container: the phase, the port, and a pause that is over.
  abbrev needs_note : Run → Status → Bool
  needs_note r st =
      not (is_running r.phase)
      || ((not (is_zero st.host_port) && not (eqb_ℤ r.host_port st.host_port))
          || is_unhealthy r.failure_kind)

  SameContainer : Run → Run → Type 0
  SameContainer r q = (q.container_id ≡ r.container_id) × (Watching r → Watching q)

  noted-SameContainer :
      (r : Run) (st : Status)
      → SameContainer r (recovered (with_port st (record r { phase = running })))
  unfolding SameContainer
  noted-SameContainer r st =
      if_cases (SameContainer r)
        (is_unhealthy (with_port st (record r { phase = running })).failure_kind) _ _ (λ _. ported)
        (λ _. ported)
    where
      ported : SameContainer r (with_port st (record r { phase = running }))
      ported =
          if_cases (SameContainer r) (is_zero st.host_port) _ _ (λ _. (refl, λ w. (w.0, refl, w.2)))
            (λ _. (refl, λ w. (w.0, refl, w.2)))

  running-Safe :
      (r : Run) (st : Status) (s : JobState) → Tied r s → Kept Safe (note_running c r st s)
  unfolding SameContainer
  running-Safe r st s t =
      let same = noted-SameContainer r st in
      if_cases (Does {A = Unit {0}} Safe s) (needs_note r st) _ _
        (λ _.
          update-Tied r (recovered (with_port st (record r { phase = running }))) s (same.0)
            (same.1) t)
        (λ _. on_ok tt s (Tied-Safe r s t))

  unhealthy-Safe :
      (r : Run) (st : Status) (s : JobState) → Tied r s → Kept Safe (note_unhealthy c r st s)
  unhealthy-Safe r st s t =
      if_cases (Does {A = Unit {0}} Safe s)
        (not (bytes_eq r.error st.reason && is_unhealthy r.failure_kind)) _ _
        (λ _. update-Tied r _ s refl (λ w. w) t) (λ _. on_ok tt s (Tied-Safe r s t))

  relaunch-Safe : (job : Job) (r : Run) (s : JobState) → Idle s → Kept Safe (relaunch c job r s)
  relaunch-Safe job r s i =
      Post-followed (finish-Idle c r restarting _ _ s i)
        (λ _ s' i'. start_run-Safe c job _ [] s' (Idle-Safe s' i'))
        (λ e s' i'. on_failed e s' (Idle-Safe s' i'))

  pub restart-Safe :
      (job : Job) (r : Run) (s : JobState) → Idle s → Kept Safe (maybe_restart c job r s)
  unfolding maybe_restart
  restart-Safe job r s i =
      if_cases (Does {A = Unit {0}} Safe s) (wants_stop job.desired) _ _
        (λ _. on_ok tt s (Idle-Safe s i))
        (λ _.
          if_cases (Does {A = Unit {0}} Safe s)
            (not (should_restart c.restart Phase.failed r.attempt)) _ _
            (λ _. on_ok tt s (Idle-Safe s i))
            (λ _.
              if_cases (Does {A = Unit {0}} Safe s) (is_early c s r.restart_at) _ _
                (λ _. on_ok tt s (Idle-Safe s i)) (λ _. relaunch-Safe job r s i)))

  retry-Safe :
      (job : Job) (r : Run) (reason : Bytes) (s : JobState)
      → Idle s
      → Kept Safe (retry_or_finish c job r reason s)
  unfolding retry_or_finish schedule_restart
  retry-Safe job r reason s i =
      if_cases (Does {A = Unit {0}} Safe s) (should_restart c.restart Phase.failed r.attempt) _ _
        (λ _.
          Post-followed (schedule-Idle c r running reason s i)
            (λ r' s' i'. restart-Safe job r' s' i') (λ e s' i'. on_failed e s' (Idle-Safe s' i')))
        (λ _. Kept-Idle-Safe (finish-Idle c r running _ reason s i))

  exit_failed-Safe :
      (job : Job) (r : Run) (killed : Bool) (s : JobState)
      → Idle s
      → Kept Safe (exit_failed c job r killed s)
  exit_failed-Safe job r true s i = retry-Safe job _ _ s i
  exit_failed-Safe job r false s i = retry-Safe job _ _ s i

  exit-Safe :
      (job : Job) (r : Run) (code : ℤ) (killed : Bool) (s : JobState)
      → Idle s
      → Kept Safe (handle_exit c job r code killed s)
  unfolding handle_exit
  exit-Safe job r code killed s i =
      if_cases (Does {A = Unit {0}} Safe s) (wants_stop job.desired) _ _
        (λ _. Kept-Idle-Safe (finish-Idle c r running cancelled _ s i))
        (λ _.
          if_cases (Does {A = Unit {0}} Safe s) (is_zero code) _ _
            (λ _. Kept-Idle-Safe (finish-Idle c r running finished _ s i))
            (λ _. exit_failed-Safe job r killed s i))

  gone-Safe : (job : Job) (r : Run) (s : JobState) → Idle s → Kept Safe (handle_gone c job r s)
  gone-Safe job r s i =
      if_cases (Does {A = Unit {0}} Safe s) (wants_stop job.desired) _ _
        (λ _. Kept-Idle-Safe (finish-Idle c r running cancelled _ s i))
        (λ _. retry-Safe job r _ s i)

  phase-Safe :
      (phase : ContainerPhase) (job : Job) (r : Run) (st : Status) (s : JobState)
      → Tied r s
      → (has_ended phase ≡ true → Idle s)
      → Kept Safe (reconcile_phase c phase job r st s)
  phase-Safe phase_pending job r st s t i =
      if_cases (Does {A = Unit {0}} Safe s) (wants_stop job.desired) _ _
        (λ _. stop_run-Safe r starting s t) (λ _. pending-Safe r st s t)
  phase-Safe phase_running job r st s t i =
      if_cases (Does {A = Unit {0}} Safe s) (wants_stop job.desired) _ _
        (λ _. stop_run-Safe r running s t) (λ _. running-Safe r st s t)
  phase-Safe phase_unhealthy job r st s t i =
      if_cases (Does {A = Unit {0}} Safe s) (wants_stop job.desired) _ _
        (λ _. stop_run-Safe r running s t) (λ _. unhealthy-Safe r st s t)
  phase-Safe phase_exited job r st s t i = exit-Safe job r st.exit_code st.oom_killed s (i refl)
  phase-Safe phase_gone job r st s t i = gone-Safe job r s (i refl)

  pub reconcile_run-Safe :
      (job : Job) (r : Run) (st : Status) (s : JobState)
      → Tied r s
      → (has_ended st.phase ≡ true → Idle s)
      → Kept Safe (reconcile_run c job r st s)
  unfolding reconcile_run
  reconcile_run-Safe job r st s t i = phase-Safe st.phase job r st s t i
