-- ===== src/Controller/Frame.antt =====
-- control/controller.go: what the steps of a pass leave alone. A property of the job, and one of each of its runs, that
-- depend on the launches so far, are kept by all that the pass does but a launch.
pub mod Runs
pub mod Passes
pub mod Serving
use weibo.Base.{
  ◌≡◌, ◌≢◌, inl, inr, subst, Bool, true, false, not, Option, none, some, List, [], ◌∷◌, ◌++◌, sym,
  All, select, length, if_cases, if◌then◌else◌, refl, Option-cases, bytes_eq, ◌&&◌, ◌||◌,
}
use weibo.Base.Int.{ℤ, ltb_ℤ, pos, pos_part, ◌+ℤ◌, eqb_ℤ}
use weibo.State.{Bytes}
use weibo.Lifecycle.{
  Phase, submitted, starting, running, restarting, blocked, cancelling, cancelled, finished,
  should_restart,
}
use weibo.Controller.{
  Controller, Job, Run, Transition, JobState, Operation, Result, ok, failed, Error, tick, ended,
  Status, ContainerPhase, phase_pending, phase_running, phase_exited, phase_gone, phase_unhealthy,
  ContainerStats, LaunchSpec, is_empty,
}
use weibo.Controller.Store.{
  is_active, has_run, get_run, get_job, found, find_run, active_runs, update_run,
  update_run_with_transition, list_runs, newest_first, started_text, replace, overwrite,
  delete_runs, prunable, prune_terminal_rows, is_terminal_run, drop,
}
use weibo.Controller.Backend.{
  stop_container, remove_container, container_status, containers, has_ended, status_answer,
}
use weibo.Controller.Launch.{start_run, error_text}
use weibo.Controller.Endings.{
  finish_run, schedule_restart_from, as_restarting, prune_terminal_runs, pruned, remove_victims,
  sort_started,
}
use weibo.Controller.Secrets.{launch_env}
use weibo.Controller.Outcomes.{
  Post, on_ok, on_failed, Kept, Does, Post-followed, Post-then, Post-ignore, Post-weaken,
  query-Post, transact-Post, unless_error-Post, updated-IfOk,
}

-- A run written over another: the same attempt, and neither active nor blocked but where that was.
pub record Follows (r q : Run) : Type 0 where
  pub attempt : q.attempt ≡ r.attempt
  pub active : is_active q ≡ true → is_active r ≡ true
  pub unblocked : q.phase ≡ blocked → r.phase ≡ blocked

-- A property of each run and one of the job, after the given launches.
pub record Frame : Type 1 where
  pub Row : List LaunchSpec → Run → Type 0
  pub Job_fits : List LaunchSpec → Option Job → Type 0
  pub follows : (ls : List LaunchSpec) (r q : Run) → Follows r q → Row ls r → Row ls q

module _ (c : Controller) (frame : Frame) where
  open frame use {Row, Job_fits, follows}

  abbrev pub At : List LaunchSpec → JobState → Type 0
  At ls s = (s.launches ≡ ls) × All (Row ls) s.runs × Job_fits ls s.job

  abbrev pub Fits : JobState → Type 0
  Fits s = At s.launches s

  Rows-replace :
      (ls : List LaunchSpec) (q : Run) (rs : List Run)
      → Row ls q
      → All (Row ls) rs
      → All (Row ls) (replace q rs)
  Rows-replace ls q [] w h = tt
  Rows-replace ls q (x ∷ xs) w h = (
    if_cases (Row ls) (bytes_eq x.id q.id) (overwrite q x) x
        (λ _.
          follows ls q (overwrite q x)
            (record { attempt = refl; active = λ a. a; unblocked = λ b. b }) w)
        (λ _. h.0),
    Rows-replace ls q xs w h.1,
  )

  Rows-delete :
      (ls : List LaunchSpec) (vs rs : List Run) → All (Row ls) rs → All (Row ls) (delete_runs vs rs)
  Rows-delete ls vs [] h = tt
  Rows-delete ls vs (r ∷ rs) h =
      if_cases (All (Row ls)) (has_run r.id vs) (delete_runs vs rs) (r ∷ delete_runs vs rs)
        (λ _. Rows-delete ls vs rs h.1) (λ _. (h.0, Rows-delete ls vs rs h.1))

  pub At-Fits : (ls : List LaunchSpec) (s : JobState) → At ls s → Fits s
  At-Fits ls s h = subst (λ (k : List LaunchSpec). At k s) (sym (h.0)) h

  pub Kept-Fits :
      {A : Type 0} {r : Result A × JobState} (ls : List LaunchSpec) → Kept (At ls) r → Kept Fits r
  Kept-Fits ls k = Post-weaken k (λ a s h. At-Fits ls s h) (λ s h. At-Fits ls s h)

  module _ (ls : List LaunchSpec) where
    pub update-At : (q : Run) (s : JobState) → Row ls q → At ls s → Kept (At ls) (update_run c q s)
    unfolding update_run
    update-At q s w h =
        transact-Post c _ s h
          (updated-IfOk _ q [] s (λ _ _. (h.0, Rows-replace ls q s.runs w h.1, h.2)))

    pub update_with-At :
        (q : Run) (t : Transition) (s : JobState)
        → Row ls q
        → At ls s
        → Kept (At ls) (update_run_with_transition c q t s)
    unfolding update_run_with_transition
    update_with-At q t s w h =
        transact-Post c _ s h
          (updated-IfOk _ q (t ∷ []) s (λ _ _. (h.0, Rows-replace ls q s.runs w h.1, h.2)))

    pub remove-At : (id : Bytes) (s : JobState) → At ls s → Kept (At ls) (remove_container c id s)
    unfolding remove_container
    remove-At id s h = unless_error-Post _ _ _ _ h (on_ok tt (tick (ended id s)) h)

    pub stop-At : (id : Bytes) (s : JobState) → At ls s → Kept (At ls) (stop_container c id s)
    unfolding stop_container
    stop-At id s h = unless_error-Post _ _ _ _ h (on_ok tt (tick (ended id s)) h)

    pub status-At : (id : Bytes) (s : JobState) → At ls s → Kept (At ls) (container_status c id s)
    unfolding container_status
    status-At id s h = by_answer (c.outside.status s.calls id)
      where
        by_answer : (o : Option Status) → Kept (At ls) (status_answer id s o)
        by_answer none = on_failed _ (tick s) h
        by_answer (some st) =
            on_ok st _ (if_cases (At ls) (has_ended st.phase) (ended id s) s (λ _. h) (λ _. h))

    pub containers-At : (s : JobState) → At ls s → Kept (At ls) (containers c s)
    unfolding containers
    containers-At s h = elim (Option-cases (c.outside.capacity s.calls)) [
      | inl e ↦ rw e (on_failed _ (tick s) h)
      | inr (stats, e) ↦ rw e (on_ok stats (tick s) h)
    ]

    victims-At : (vs : List Run) (s : JobState) → At ls s → Kept (At ls) (remove_victims c vs s)
    unfolding remove_victims
    victims-At [] s h = on_ok tt s h
    victims-At (v ∷ vs) s h =
        if_cases (Does {A = Unit {0}} (At ls) s) (is_empty v.container_id) _ _
          (λ _. victims-At vs s h)
          (λ _.
            Post-then (Post-ignore (remove-At v.container_id s h)) (λ _ s' h'. victims-At vs s' h'))

    prune_rows-At :
        (keep : ℤ) (s : JobState) → At ls s → Kept (At ls) (prune_terminal_rows c keep s)
    unfolding prune_terminal_rows
    prune_rows-At keep s h =
        transact-Post c _ s h (h.0, Rows-delete ls (prunable c keep s) s.runs h.1, h.2)

    pruned-At : (terminal : List Run) (s : JobState) → At ls s → Kept (At ls) (pruned c terminal s)
    pruned-At terminal s h =
        if_cases (Does {A = Unit {0}} (At ls) s) (ltb_ℤ c.retention (pos (length terminal))) _ _
          (λ _.
            Post-then (victims-At _ s h) (λ _ s' h'. Post-ignore (prune_rows-At c.retention s' h')))
          (λ _. on_ok tt s h)

    prune-At : (s : JobState) → At ls s → Kept (At ls) (prune_terminal_runs c s)
    unfolding prune_terminal_runs list_runs
    prune-At s h =
        if_cases (Does {A = Unit {0}} (At ls) s) (ltb_ℤ c.retention (pos 0)) _ _ (λ _. on_ok tt s h)
          (λ _.
            Post-followed (query-Post c {Q = λ _. At ls} {E = At ls} _ s h h)
              (λ runs s' h'. pruned-At (select is_terminal_run runs) s' h')
              (λ e s' h'. on_ok tt s' h'))

    pub finish-At :
        (r : Run) (from to : Phase) (reason : Bytes) (s : JobState)
        → to ≢ blocked
        → Row ls r
        → At ls s
        → Kept (At ls) (finish_run c r from to reason s)
    unfolding finish_run
    finish-At r from to reason s nb w h =
        Post-then
          (update_with-At _ _ s
            (follows ls r _
              (record { attempt = refl; active = λ e. cc; unblocked = λ e. absurd (nb e) }) w)
            h)
          (λ _ s' h'. prune-At s' h')
