-- ===== src/Controller/Frame/Runs.antt =====
-- control/reconcile.go: what the handling of one run keeps.
use weibo.Base.{◌≡◌, Bool, true, false, not, some, List, [], if_cases, refl, bytes_eq, ◌&&◌, ◌||◌}
use weibo.Base.Int.{ℤ, pos, ◌+ℤ◌, eqb_ℤ}
use weibo.State.{Bytes}
use weibo.Lifecycle.{
  Phase, starting, running, restarting, blocked, cancelled, finished, should_restart,
}
use weibo.Controller.{
  Controller, Job, Run, JobState, Result, ok, Status, ContainerPhase, phase_pending, phase_running,
  phase_exited, phase_gone, phase_unhealthy, LaunchSpec, no_failure,
}
use weibo.Controller.Store.{is_active, update_run}
use weibo.Controller.Launch.{start_run}
use weibo.Controller.Endings.{schedule_restart_from, as_restarting}
use weibo.Controller.Reconcile.{
  is_starting, is_running, stop_run, note_pending, note_running, note_unhealthy, relaunch,
  maybe_restart, is_early, schedule_restart, retry_or_finish, exit_failed, handle_exit, handle_gone,
  reconcile_phase, reconcile_run, wants_stop, is_unhealthy, is_zero, with_port, recovered,
}
use weibo.Controller.Outcomes.{Post, on_ok, on_failed, Kept, Does, Post-followed, Post-then}
use weibo.Controller.Frame.{
  Follows, Frame, At, Fits, At-Fits, Kept-Fits, update-At, update_with-At, stop-At, finish-At,
}

-- A launch that the pass makes for a job that is to run: again, where the policy has attempts left, or
-- after the secrets are there.
pub record Launches (c : Controller) (frame : Frame) : Type 0 where
  pub again :
      (ls : List LaunchSpec) (job : Job) (r : Run) (s : JobState)
      → wants_stop job.desired ≡ false
      → should_restart c.restart Phase.failed r.attempt ≡ true
      → is_active r ≡ true
      → frame.Row ls r
      → frame.Job_fits ls (some job)
      → At c frame ls s
      → Kept (Fits c frame) (start_run c job (r.attempt +ℤ pos 1) [] s)
  pub unblocked :
      (ls : List LaunchSpec) (job : Job) (r : Run) (s : JobState)
      → wants_stop job.desired ≡ false
      → r.phase ≡ blocked
      → frame.Row ls r
      → frame.Job_fits ls (some job)
      → At c frame ls s
      → Kept (Fits c frame) (start_run c job (r.attempt +ℤ pos 1) [] s)

unnegated : (b : Bool) → not b ≡ false → b ≡ true
unnegated true e = refl
unnegated false e = cc

module _ (c : Controller) (frame : Frame) (launches : Launches c frame) where
  open frame use {Row, Job_fits, follows}

  module _ (ls : List LaunchSpec) where
    pub fits :
        {A : Type 0} {r : Result A × JobState} → Kept (At c frame ls) r → Kept (Fits c frame) r
    fits k = Kept-Fits c frame ls k

    pub at_once :
        {A : Type 0} (a : A) (s : JobState) → At c frame ls s → Kept (Fits c frame) (ok a, s)
    at_once a s h = on_ok a s (At-Fits c frame ls s h)

    -- The same run with other notes.
    pub noting :
        (r q : Run) (s : JobState)
        → Follows r q
        → Row ls r
        → At c frame ls s
        → Kept (Fits c frame) (update_run c q s)
    noting r q s f w h = fits (update-At c frame ls q s (follows ls r q f w) h)

    stop_run-Fits :
        (r : Run) (from : Phase) (s : JobState)
        → Row ls r
        → At c frame ls s
        → Kept (Fits c frame) (stop_run c r from s)
    unfolding stop_run
    stop_run-Fits r from s w h =
        Post-followed (stop-At c frame ls r.container_id s h)
          (λ _ s' h'. fits (finish-At c frame ls r from cancelled _ s' (λ e. cc) w h'))
          (λ e s' h'.
            noting r _ s' (record { attempt = refl; active = λ a. a; unblocked = λ b. b }) w h')

    pending-Fits :
        (r : Run) (st : Status) (s : JobState)
        → Row ls r
        → At c frame ls s
        → Kept (Fits c frame) (note_pending c r st s)
    pending-Fits r st s w h =
        if_cases (Does {A = Unit {0}} (Fits c frame) s)
          (not (is_starting r.phase && bytes_eq r.error st.reason)) _ _
          (λ _. noting r _ s (record { attempt = refl; active = λ a. a; unblocked = λ b. cc }) w h)
          (λ _. at_once tt s h)

    recovered-Follows : (r q : Run) → Follows r q → Follows r (recovered q)
    recovered-Follows r q f =
        if_cases (Follows r) (is_unhealthy q.failure_kind)
          (record q { error = []; failure_kind = no_failure }) q
          (λ _. record { attempt = f.attempt; active = f.active; unblocked = f.unblocked }) (λ _. f)

    pub with_port-Follows : (r q : Run) (st : Status) → Follows r q → Follows r (with_port st q)
    with_port-Follows r q st f =
        if_cases (Follows r) (is_zero st.host_port) q (record q { host_port = st.host_port })
          (λ _. f) (λ _. record { attempt = f.attempt; active = f.active; unblocked = f.unblocked })

    running-Fits :
        (r : Run) (st : Status) (s : JobState)
        → Row ls r
        → At c frame ls s
        → Kept (Fits c frame) (note_running c r st s)
    running-Fits r st s w h =
        if_cases (Does {A = Unit {0}} (Fits c frame) s)
          (not (is_running r.phase)
            || ((not (is_zero st.host_port) && not (eqb_ℤ r.host_port st.host_port))
                || is_unhealthy r.failure_kind))
          _ _
          (λ _.
            noting r (recovered (with_port st (record r { phase = running }))) s
              (recovered-Follows r _ (
                with_port-Follows r _ st
                  (record { attempt = refl; active = λ a. a; unblocked = λ b. cc })))
              w h)
          (λ _. at_once tt s h)

    unhealthy-Fits :
        (r : Run) (st : Status) (s : JobState)
        → Row ls r
        → At c frame ls s
        → Kept (Fits c frame) (note_unhealthy c r st s)
    unhealthy-Fits r st s w h =
        if_cases (Does {A = Unit {0}} (Fits c frame) s)
          (not (bytes_eq r.error st.reason && is_unhealthy r.failure_kind)) _ _
          (λ _. noting r _ s (record { attempt = refl; active = λ a. a; unblocked = λ b. b }) w h)
          (λ _. at_once tt s h)

    -- What is known of a run that the pass handles.
    pub record Known (job : Job) (r : Run) : Type 0 where
      pub is_live : is_active r ≡ true
      pub row : Row ls r
      pub fit : Job_fits ls (some job)

    pub knows :
        (job : Job) (r q : Run) → Follows r q → is_active q ≡ true → Known job r → Known job q
    knows job r q f a k = record { is_live = a; row = follows ls r q f k.row; fit = k.fit }

    relaunch-Fits :
        (job : Job) (r : Run) (s : JobState)
        → wants_stop job.desired ≡ false
        → should_restart c.restart Phase.failed r.attempt ≡ true
        → Known job r
        → At c frame ls s
        → Kept (Fits c frame) (relaunch c job r s)
    relaunch-Fits job r s go more k h =
        Post-followed (finish-At c frame ls r restarting Phase.failed _ s (λ e. cc) k.row h)
          (λ _ s' h'. launches.again ls job r s' go more k.is_live k.row k.fit h')
          (λ e s' h'. on_failed e s' (At-Fits c frame ls s' h'))

    pub restart-Fits :
        (job : Job) (r : Run) (s : JobState)
        → Known job r
        → At c frame ls s
        → Kept (Fits c frame) (maybe_restart c job r s)
    unfolding maybe_restart
    restart-Fits job r s k h =
        if_cases (Does {A = Unit {0}} (Fits c frame) s) (wants_stop job.desired) _ _
          (λ _. at_once tt s h)
          (λ go.
            if_cases (Does {A = Unit {0}} (Fits c frame) s)
              (not (should_restart c.restart Phase.failed r.attempt)) _ _ (λ _. at_once tt s h)
              (λ more.
                if_cases (Does {A = Unit {0}} (Fits c frame) s) (is_early c s r.restart_at) _ _
                  (λ _. at_once tt s h) (λ _. relaunch-Fits job r s go (unnegated _ more) k h)))

    schedule-At :
        (r : Run) (from : Phase) (reason : Bytes) (job : Job) (s : JobState)
        → Known job r
        → At c frame ls s
        → Post
            (λ q s'. Known job q × At c frame ls s')
            (At c frame ls)
            (schedule_restart_from c r from reason s)
    unfolding schedule_restart_from
    schedule-At r from reason job s k h =
        let w =
          follows ls r (as_restarting c s r reason)
            (record { attempt = refl; active = λ a. a; unblocked = λ b. cc }) k.row in
        Post-then (update_with-At c frame ls (as_restarting c s r reason) _ s w h) (λ _ s' h'.
          on_ok (as_restarting c s r reason) s'
            (record { is_live = k.is_live; row = w; fit = k.fit }, h'))

    retry-Fits :
        (job : Job) (r : Run) (reason : Bytes) (s : JobState)
        → Known job r
        → At c frame ls s
        → Kept (Fits c frame) (retry_or_finish c job r reason s)
    unfolding retry_or_finish schedule_restart
    retry-Fits job r reason s k h =
        if_cases (Does {A = Unit {0}} (Fits c frame) s)
          (should_restart c.restart Phase.failed r.attempt) _ _
          (λ _.
            Post-followed (schedule-At r running reason job s k h)
              (λ q s' g. restart-Fits job q s' g.0 g.1)
              (λ e s' h'. on_failed e s' (At-Fits c frame ls s' h')))
          (λ _. fits (finish-At c frame ls r running Phase.failed reason s (λ e. cc) k.row h))

    exit_failed-Fits :
        (job : Job) (r : Run) (killed : Bool) (s : JobState)
        → Known job r
        → At c frame ls s
        → Kept (Fits c frame) (exit_failed c job r killed s)
    exit_failed-Fits job r true s k h =
        retry-Fits job _ _ s
          (knows job r _ (record { attempt = refl; active = λ a. a; unblocked = λ b. b }) k.is_live
            k)
          h
    exit_failed-Fits job r false s k h =
        retry-Fits job _ _ s
          (knows job r _ (record { attempt = refl; active = λ a. a; unblocked = λ b. b }) k.is_live
            k)
          h

    exit-Fits :
        (job : Job) (r : Run) (code : ℤ) (killed : Bool) (s : JobState)
        → Known job r
        → At c frame ls s
        → Kept (Fits c frame) (handle_exit c job r code killed s)
    unfolding handle_exit
    exit-Fits job r code killed s k h =
        if_cases (Does {A = Unit {0}} (Fits c frame) s) (wants_stop job.desired) _ _
          (λ _. fits (finish-At c frame ls r running cancelled _ s (λ e. cc) k.row h))
          (λ _.
            if_cases (Does {A = Unit {0}} (Fits c frame) s) (is_zero code) _ _
              (λ _. fits (finish-At c frame ls r running finished _ s (λ e. cc) k.row h))
              (λ _. exit_failed-Fits job r killed s k h))

    gone-Fits :
        (job : Job) (r : Run) (s : JobState)
        → Known job r
        → At c frame ls s
        → Kept (Fits c frame) (handle_gone c job r s)
    gone-Fits job r s k h =
        if_cases (Does {A = Unit {0}} (Fits c frame) s) (wants_stop job.desired) _ _
          (λ _. fits (finish-At c frame ls r running cancelled _ s (λ e. cc) k.row h))
          (λ _. retry-Fits job r _ s k h)

    phase-Fits :
        (phase : ContainerPhase) (job : Job) (r : Run) (st : Status) (s : JobState)
        → Known job r
        → At c frame ls s
        → Kept (Fits c frame) (reconcile_phase c phase job r st s)
    phase-Fits phase_pending job r st s k h =
        if_cases (Does {A = Unit {0}} (Fits c frame) s) (wants_stop job.desired) _ _
          (λ _. stop_run-Fits r starting s k.row h) (λ _. pending-Fits r st s k.row h)
    phase-Fits phase_running job r st s k h =
        if_cases (Does {A = Unit {0}} (Fits c frame) s) (wants_stop job.desired) _ _
          (λ _. stop_run-Fits r running s k.row h) (λ _. running-Fits r st s k.row h)
    phase-Fits phase_unhealthy job r st s k h =
        if_cases (Does {A = Unit {0}} (Fits c frame) s) (wants_stop job.desired) _ _
          (λ _. stop_run-Fits r running s k.row h) (λ _. unhealthy-Fits r st s k.row h)
    phase-Fits phase_exited job r st s k h = exit-Fits job r st.exit_code st.oom_killed s k h
    phase-Fits phase_gone job r st s k h = gone-Fits job r s k h

    pub run-Fits :
        (job : Job) (r : Run) (st : Status) (s : JobState)
        → Known job r
        → At c frame ls s
        → Kept (Fits c frame) (reconcile_run c job r st s)
    unfolding reconcile_run
    run-Fits job r st s k h = phase-Fits st.phase job r st s k h
