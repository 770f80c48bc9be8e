-- ===== src/Controller/Fence/Passing.antt =====
-- control/reconcile.go: a pass keeps the containers accounted for.
use weibo.Base.{◌≡◌, not, Option, none, some, List, [], ◌∷◌, if_cases, refl, bytes_eq, bytes_eq_iff}
use weibo.State.{Bytes}
use weibo.Lifecycle.{Phase, restarting, blocked}
use weibo.Controller.{
  Controller, Job, Run, JobState, Result, ok, tick, Status, ContainerPhase, phase_pending,
  phase_running, phase_exited, phase_gone, phase_unhealthy, ContainerStats, is_empty,
}
use weibo.Controller.Store.{is_active, get_run, get_job, found, active_runs}
use weibo.Controller.Launch.{error_text}
use weibo.Controller.Secrets.{launch_env}
use weibo.Controller.Reconcile.{
  unblock, maybe_unblock, reattach, reattach_found, reattach_unrecorded_backend_run, observe_run,
  reconcile_active, reconcile_locked, reconcile_each, reconcile, wants_stop, find_managed,
}
use weibo.Controller.Outcomes.{
  Post, on_ok, on_failed, Kept, Does, Post-followed, Post-then, Post-ignore, query-Post,
}
use weibo.Controller.Fence.{Safe, Idle, Tied, Stored, Idle-Safe, Idle-Tied, Tied-Safe}
use weibo.Controller.Fence.Rows.{Stored-find_run}
use weibo.Controller.Fence.Calls.{
  status-Tied, status-Idle, containers-Idle, Safe-Tied, Tied-unwatched, Tied-unnamed,
}
use weibo.Controller.Fence.Updates.{update_run-Idle, update_run_with-Idle}
use weibo.Controller.Fence.Launching.{finish-Idle, start_run-Safe, Kept-Idle-Safe}
use weibo.Controller.Fence.Reconciling.{reconcile_run-Safe, restart-Safe}

module _ (c : Controller) where
  unblock-Safe :
      (job : Job) (r : Run) (env : Result (List (Bytes × Bytes))) (s : JobState)
      → Idle s
      → Kept Safe (unblock c job r env s)
  unblock-Safe job r (ok env) s i =
      Post-followed (finish-Idle c r blocked _ _ s i)
        (λ _ s' i'. start_run-Safe c job _ [] s' (Idle-Safe s' i'))
        (λ e s' i'. on_failed e s' (Idle-Safe s' i'))
  unblock-Safe job r (Result.failed e) s i =
      if_cases (Does {A = Unit {0}} Safe s) (not (bytes_eq r.error (error_text e))) _ _
        (λ _. Kept-Idle-Safe (update_run-Idle c _ s i)) (λ _. on_ok tt s (Idle-Safe s i))

  maybe_unblock-Safe :
      (job : Job) (r : Run) (s : JobState) → Idle s → Kept Safe (maybe_unblock c job r s)
  unfolding maybe_unblock
  maybe_unblock-Safe job r s i =
      if_cases (Does {A = Unit {0}} Safe s) (wants_stop job.desired) _ _
        (λ _. on_ok tt s (Idle-Safe s i)) (λ _. unblock-Safe job r (launch_env c job s) s i)

  reattach-Safe :
      (phase : ContainerPhase) (job : Job) (r : Run) (st : Status) (s : JobState)
      → Idle s
      → Kept Safe (reattach c phase job r st s)
  reattach-Safe phase_gone job r st s i = on_ok tt s (Idle-Safe s i)
  reattach-Safe phase_running job r st s i = Kept-Idle-Safe (update_run_with-Idle c _ _ s i)
  reattach-Safe phase_pending job r st s i = Kept-Idle-Safe (update_run-Idle c _ s i)
  reattach-Safe phase_exited job r st s i =
      reconcile_run-Safe c job r st s (Idle-Tied r s i) (λ _. i)
  reattach-Safe phase_unhealthy job r st s i =
      reconcile_run-Safe c job r st s (Idle-Tied r s i) (λ _. i)

  reattach_found-Safe :
      (job : Job) (r : Run) (o : Option ContainerStats) (s : JobState)
      → Idle s
      → Kept Safe (reattach_found c job r o s)
  reattach_found-Safe job r none s i = on_ok tt s (Idle-Safe s i)
  reattach_found-Safe job r (some x) s i =
      Post-followed (status-Idle c x.id s i) (λ st s' i'. reattach-Safe st.phase job _ st s' i')
        (λ e s' i'. on_failed e s' (Idle-Safe s' i'))

  unrecorded-Safe :
      (job : Job) (r : Run) (s : JobState)
      → Idle s
      → Kept Safe (reattach_unrecorded_backend_run c job r s)
  unfolding reattach_unrecorded_backend_run
  unrecorded-Safe job r s i =
      Post-followed (containers-Idle c s i)
        (λ stats s' i'. reattach_found-Safe job r (find_managed job.id none stats) s' i')
        (λ e s' i'. on_failed e s' (Idle-Safe s' i'))

  observe_run-Safe :
      (job : Job) (r : Run) (s : JobState) → Tied r s → Kept Safe (observe_run c job r s)
  observe_run-Safe job r s t =
      if_cases (Does {A = Unit {0}} Safe s) (is_empty r.container_id) _ _
        (λ e. unrecorded-Safe job r s (Tied-unnamed r s ((bytes_eq_iff r.container_id []).0 e) t))
        (λ _.
          Post-followed (status-Tied c r s t) (λ st s' h. reconcile_run-Safe c job r st s' h.0 h.1)
            (λ e s' t'. on_failed e s' (Tied-Safe r s' t')))

  active-Safe :
      (phase : Phase) (job : Job) (r : Run) (s : JobState)
      → r.phase ≡ phase
      → Tied r s
      → Kept Safe (reconcile_active c phase job r s)
  active-Safe blocked job r s e t = maybe_unblock-Safe job r s (Tied-unwatched r s (rw e) t)
  active-Safe restarting job r s e t = restart-Safe c job r s (Tied-unwatched r s (rw e) t)
  active-Safe phase job r s e t = observe_run-Safe job r s t

  get_run-Stored :
      (id : Bytes) (s : JobState)
      → Safe s
      → Post (λ r s'. Safe s' × Stored r s'.runs) Safe (get_run c id s)
  unfolding get_run
  get_run-Stored id s h =
      Post-then
        (query-Post c {Q = λ o s'. Safe s' × ((r : Run) → o ≡ some r → Stored r s'.runs)} {E = Safe}
          _ s h (h, λ r e. Stored-find_run id r s.runs e))
        (λ o s' g. found_run o s' g)
    where
      found_run :
          (o : Option Run) (s' : JobState)
          → Safe s' × ((r : Run) → o ≡ some r → Stored r s'.runs)
          → Post (λ r s''. Safe s'' × Stored r s''.runs) Safe (found o s')
      found_run none s' g = on_failed _ s' g.0
      found_run (some r) s' g = on_ok r s' (g.0, g.1 r refl)

  found-Kept :
      {A : Type 0} {P : JobState → Type 0} (o : Option A) (s : JobState) → P s → Kept P (found o s)
  found-Kept none s p = on_failed _ s p
  found-Kept (some a) s p = on_ok a s p

  -- The job is read.
  pub get_job-Kept :
      {P : JobState → Type 0} (s : JobState) → P s → P (tick s) → Kept P (get_job c s)
  unfolding get_job
  get_job-Kept {P} s p q =
      Post-then (query-Post c {Q = λ _. P} {E = P} _ s q q) (λ o s' p'. found-Kept o s' p')

  locked-Safe : (id : Bytes) (s : JobState) → Safe s → Kept Safe (reconcile_locked c id s)
  unfolding reconcile_locked
  locked-Safe id s h = Post-then (get_run-Stored id s h) (λ r s' g.
      if_cases (Does {A = Unit {0}} Safe s') (is_active r) _ _
        (λ a.
          let t = Safe-Tied r s' a (g.1) (g.0) in
          Post-followed (get_job-Kept {P = Tied r} s' t t)
            (λ job s'' t'. active-Safe r.phase job r s'' refl t')
            (λ e s'' t'. on_failed e s'' (Tied-Safe r s'' t')))
        (λ _. on_ok tt s' (g.0)))

  each-Safe : (rs : List Run) (s : JobState) → Safe s → Kept Safe (reconcile_each c rs s)
  unfolding reconcile_each
  each-Safe [] s h = on_ok tt s h
  each-Safe (r ∷ rs) s h =
      Post-then (Post-ignore (locked-Safe r.id s h)) (λ _ s' h'. each-Safe rs s' h')

  pub reconcile-Safe : (s : JobState) → Safe s → Kept Safe (reconcile c s)
  unfolding reconcile active_runs
  reconcile-Safe s h =
      Post-then (query-Post c {Q = λ _. Safe} {E = Safe} _ s h h) (λ rs s' h'. each-Safe rs s' h')
