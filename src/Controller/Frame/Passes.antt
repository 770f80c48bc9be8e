-- ===== src/Controller/Frame/Passes.antt =====
-- control/reconcile.go: a pass keeps what its launches keep.
use weibo.Base.{
  ◌≡◌, subst, true, false, not, Option, none, some, List, [], ◌∷◌, All, if_cases, refl, bytes_eq,
}
use weibo.State.{Bytes}
use weibo.Lifecycle.{Phase, restarting, blocked}
use weibo.Controller.{
  Controller, Job, Run, JobState, Result, ok, failed, Status, ContainerPhase, phase_pending,
  phase_running, phase_exited, phase_gone, phase_unhealthy, ContainerStats, LaunchSpec, is_empty,
}
use weibo.Controller.Store.{is_active, get_run, get_job, found, find_run, active_runs}
use weibo.Controller.Launch.{error_text}
use weibo.Controller.Secrets.{launch_env}
use weibo.Controller.Reconcile.{
  unblock, maybe_unblock, reattach, reattach_found, reattach_unrecorded_backend_run, observe_run,
  reconcile_active, reconcile_locked, reconcile_each, reconcile, wants_stop, is_zero, with_port,
  find_managed,
}
use weibo.Controller.Outcomes.{
  Post, on_ok, on_failed, Kept, Does, Post-followed, Post-then, Post-ignore, query-Post,
}
use weibo.Controller.Frame.{
  Frame, At, Fits, At-Fits, update_with-At, status-At, containers-At, finish-At,
}
use weibo.Controller.Frame.Runs.{
  Launches, Known, fits, at_once, noting, with_port-Follows, knows, run-Fits, restart-Fits,
}

module _ (c : Controller) (frame : Frame) (launches : Launches c frame) where
  open frame use {Row, Job_fits, follows}

  module _ (ls : List LaunchSpec) where
    unblock-Fits :
        (job : Job) (r : Run) (env : Result (List (Bytes × Bytes))) (s : JobState)
        → wants_stop job.desired ≡ false
        → r.phase ≡ blocked
        → Known c frame launches ls job r
        → At c frame ls s
        → Kept (Fits c frame) (unblock c job r env s)
    unblock-Fits job r (ok env) s go b k h =
        Post-followed (finish-At c frame ls r blocked Phase.failed _ s (λ e. cc) k.row h)
          (λ _ s' h'. launches.unblocked ls job r s' go b k.row k.fit h')
          (λ e s' h'. on_failed e s' (At-Fits c frame ls s' h'))
    unblock-Fits job r (failed e) s go b k h =
        if_cases (Does {A = Unit {0}} (Fits c frame) s) (not (bytes_eq r.error (error_text e))) _ _
          (λ _.
            noting c frame launches ls r _ s
              (record { attempt = refl; active = λ a. a; unblocked = λ b. b }) k.row h)
          (λ _. at_once c frame launches ls tt s h)

    maybe_unblock-Fits :
        (job : Job) (r : Run) (s : JobState)
        → r.phase ≡ blocked
        → Known c frame launches ls job r
        → At c frame ls s
        → Kept (Fits c frame) (maybe_unblock c job r s)
    unfolding maybe_unblock
    maybe_unblock-Fits job r s b k h =
        if_cases (Does {A = Unit {0}} (Fits c frame) s) (wants_stop job.desired) _ _
          (λ _. at_once c frame launches ls tt s h)
          (λ go. unblock-Fits job r (launch_env c job s) s go b k h)

    reattach-Fits :
        (phase : ContainerPhase) (job : Job) (r : Run) (st : Status) (s : JobState)
        → Known c frame launches ls job r
        → At c frame ls s
        → Kept (Fits c frame) (reattach c phase job r st s)
    reattach-Fits phase_gone job r st s k h = at_once c frame launches ls tt s h
    reattach-Fits phase_running job r st s k h = fits c frame launches ls (
        update_with-At c frame ls _ _ s
          (follows ls r _ (record { attempt = refl; active = λ a. a; unblocked = λ b. cc }) k.row)
          h)
    reattach-Fits phase_pending job r st s k h =
        noting c frame launches ls r _ s
          (record { attempt = refl; active = λ a. a; unblocked = λ b. cc }) k.row h
    reattach-Fits phase_exited job r st s k h = run-Fits c frame launches ls job r st s k h
    reattach-Fits phase_unhealthy job r st s k h = run-Fits c frame launches ls job r st s k h

    attached-active :
        (r : Run) (id : Bytes) (st : Status)
        → is_active r ≡ true
        → is_active (with_port st (record r { container_id = id })) ≡ true
    attached-active r id st a =
        if_cases (λ (q : Run). is_active q ≡ true) (is_zero st.host_port)
          (record r { container_id = id })
          (record r { container_id = id; host_port = st.host_port }) (λ _. a) (λ _. a)

    found-Fits :
        (job : Job) (r : Run) (o : Option ContainerStats) (s : JobState)
        → Known c frame launches ls job r
        → At c frame ls s
        → Kept (Fits c frame) (reattach_found c job r o s)
    found-Fits job r none s k h = at_once c frame launches ls tt s h
    found-Fits job r (some x) s k h =
        Post-followed (status-At c frame ls x.id s h)
          (λ st s' h'.
            reattach-Fits st.phase job (with_port st (record r { container_id = x.id })) st s'
              (knows c frame launches ls job r _
                (with_port-Follows c frame launches ls r _ st
                  (record { attempt = refl; active = λ a. a; unblocked = λ b. b }))
                (attached-active r x.id st k.is_live) k)
              h')
          (λ e s' h'. on_failed e s' (At-Fits c frame ls s' h'))

    unrecorded-Fits :
        (job : Job) (r : Run) (s : JobState)
        → Known c frame launches ls job r
        → At c frame ls s
        → Kept (Fits c frame) (reattach_unrecorded_backend_run c job r s)
    unfolding reattach_unrecorded_backend_run
    unrecorded-Fits job r s k h =
        Post-followed (containers-At c frame ls s h)
          (λ stats s' h'. found-Fits job r (find_managed job.id none stats) s' k h')
          (λ e s' h'. on_failed e s' (At-Fits c frame ls s' h'))

    observe_run-Fits :
        (job : Job) (r : Run) (s : JobState)
        → Known c frame launches ls job r
        → At c frame ls s
        → Kept (Fits c frame) (observe_run c job r s)
    observe_run-Fits job r s k h =
        if_cases (Does {A = Unit {0}} (Fits c frame) s) (is_empty r.container_id) _ _
          (λ _. unrecorded-Fits job r s k h)
          (λ _.
            Post-followed (status-At c frame ls r.container_id s h)
              (λ st s' h'. run-Fits c frame launches ls job r st s' k h')
              (λ e s' h'. on_failed e s' (At-Fits c frame ls s' h')))

    active-Fits :
        (phase : Phase) (job : Job) (r : Run) (s : JobState)
        → r.phase ≡ phase
        → Known c frame launches ls job r
        → At c frame ls s
        → Kept (Fits c frame) (reconcile_active c phase job r s)
    active-Fits blocked job r s e k h = maybe_unblock-Fits job r s e k h
    active-Fits restarting job r s e k h = restart-Fits c frame launches ls job r s k h
    active-Fits phase job r s e k h = observe_run-Fits job r s k h

    row_of :
        (id : Bytes) (r : Run) (rs : List Run)
        → All (Row ls) rs
        → find_run id rs ≡ some r
        → Row ls r
    row_of id r [] h = λ e. cc
    row_of id r (x ∷ xs) h =
        if_cases (λ (o : Option Run). o ≡ some r → Row ls r) (bytes_eq x.id id) (some x)
          (find_run id xs) (λ _ e. subst (Row ls) (cc) (h.0)) (λ _ e. row_of id r xs h.1 e)

    -- A row or the job, where it is there.
    found-Post :
        {A : Type 0} (P : A → Type 0) (o : Option A) (s : JobState)
        → ((a : A) → o ≡ some a → P a)
        → At c frame ls s
        → Post (λ a s'. P a × At c frame ls s') (At c frame ls) (found o s)
    found-Post P none s f h = on_failed _ s h
    found-Post P (some a) s f h = on_ok a s (f a refl, h)

    get_run-At :
        (id : Bytes) (s : JobState)
        → At c frame ls s
        → Post (λ r s'. Row ls r × At c frame ls s') (At c frame ls) (get_run c id s)
    unfolding get_run
    get_run-At id s h =
        Post-then
          (query-Post c {Q = λ o s'. ((r : Run) → o ≡ some r → Row ls r) × At c frame ls s'}
            {E = At c frame ls} _ s h ((λ r e. row_of id r s.runs h.1 e), h))
          (λ o s' g. found-Post (Row ls) o s' g.0 g.1)

    pub get_job-At :
        (s : JobState)
        → At c frame ls s
        → Post (λ job s'. Job_fits ls (some job) × At c frame ls s') (At c frame ls) (get_job c s)
    unfolding get_job
    get_job-At s h =
        Post-then
          (query-Post c
            {Q = λ o s'. ((job : Job) → o ≡ some job → Job_fits ls (some job)) × At c frame ls s'}
            {E = At c frame ls} _ s h ((λ job e. subst (Job_fits ls) e (h.2)), h))
          (λ o s' g. found-Post (λ job. Job_fits ls (some job)) o s' g.0 g.1)

    locked-At :
        (id : Bytes) (s : JobState)
        → At c frame ls s
        → Kept (Fits c frame) (reconcile_locked c id s)
    unfolding reconcile_locked
    locked-At id s h =
        Post-followed (get_run-At id s h)
          (λ r s1 g.
            if_cases (Does {A = Unit {0}} (Fits c frame) s1) (is_active r) _ _
              (λ a.
                Post-followed (get_job-At s1 g.1)
                  (λ job s2 k.
                    active-Fits r.phase job r s2 refl (record { is_live = a; row = g.0; fit = k.0 })
                      k.1)
                  (λ e s2 h2. on_failed e s2 (At-Fits c frame ls s2 h2)))
              (λ _. at_once c frame launches ls tt s1 g.1))
          (λ e s1 h1. on_failed e s1 (At-Fits c frame ls s1 h1))

  each-Fits :
      (rs : List Run) (s : JobState) → Fits c frame s → Kept (Fits c frame) (reconcile_each c rs s)
  unfolding reconcile_each
  each-Fits [] s h = on_ok tt s h
  each-Fits (r ∷ rs) s h =
      Post-then (Post-ignore (locked-At s.launches r.id s h)) (λ _ s' h'. each-Fits rs s' h')

  -- A pass keeps what its launches keep.
  pub reconcile-Fits : (s : JobState) → Fits c frame s → Kept (Fits c frame) (reconcile c s)
  unfolding reconcile active_runs
  reconcile-Fits s h =
      Post-then (query-Post c {Q = λ _. Fits c frame} {E = Fits c frame} _ s h h)
        (λ rs s' h'. each-Fits rs s' h')
