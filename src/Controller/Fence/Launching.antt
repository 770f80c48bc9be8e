-- ===== src/Controller/Fence/Launching.antt =====
-- control/controller.go: a launch leaves at most one container, and that with an active run.
use weibo.Base.{
  ◌≡◌, ◌≢◌, ◌≤◌, true, Option, none, some, List, [], ◌∷◌, arith, if_cases, refl, length, select,
}
use weibo.Base.Int.{ℤ, ltb_ℤ, pos}
use weibo.State.{Bytes}
use weibo.Lifecycle.{Phase, starting, running}
use weibo.Controller.{
  Controller, Job, Run, JobState, Result, ok, Error, launch_failed, tick, LaunchError, is_empty,
}
use weibo.Controller.Store.{
  list_runs, is_active, count_active, newest_first, started_text, prune_terminal_rows,
  is_terminal_run, delete_runs, prunable,
}
use weibo.Controller.Backend.{launch_failure_kind}
use weibo.Controller.Launch.{
  launch_refused, fail_run, mark_launch_record_failure, unrecorded, record_run, record_launch,
  launch_in, begin_run, unless_active, start_run, retries, first_active, new_run, launch_spec,
}
use weibo.Controller.Endings.{
  remove_victims, pruned, prune_terminal_runs, finish_run, block_run, schedule_restart_from,
}
use weibo.Controller.Secrets.{launch_env}
use weibo.Controller.Outcomes.{
  Post, on_ok, on_failed, Kept, Does, Post-followed, Post-then, Post-ignore, Post-returns,
  Post-weaken, query-Post, transact-Post,
}
use weibo.Controller.Fence.{Safe, Idle, Fresh, Watching, Held, Idle-Safe}
use weibo.Controller.Fence.Rows.{delete_runs-count, Watches-newest_first, Watches-first_active}
use weibo.Controller.Fence.Calls.{remove-Idle, remove_launched-Idle, launch-Fresh, status-Fresh}
use weibo.Controller.Fence.Updates.{
  create_run-Idle, update_run-Idle, update_run_with-Idle, record-Safe,
}

pub Kept-Idle-Safe : {A : Type 0} {r : Result A × JobState} → Kept Idle r → Kept Safe r
Kept-Idle-Safe k = Post-weaken k (λ a s i. Idle-Safe s i) (λ s i. Idle-Safe s i)

module _ (c : Controller) where
  remove_victims-Idle : (vs : List Run) (s : JobState) → Idle s → Kept Idle (remove_victims c vs s)
  unfolding remove_victims
  remove_victims-Idle [] s i = on_ok tt s i
  remove_victims-Idle (v ∷ vs) s i =
      if_cases (Does {A = Unit {0}} Idle s) (is_empty v.container_id) _ _
        (λ _. remove_victims-Idle vs s i)
        (λ _.
          Post-then (Post-ignore (remove-Idle c v.container_id s i))
            (λ _ s' i'. remove_victims-Idle vs s' i'))

  prune_rows-Idle : (keep : ℤ) (s : JobState) → Idle s → Kept Idle (prune_terminal_rows c keep s)
  unfolding prune_terminal_rows
  prune_rows-Idle keep s i = transact-Post c _ s i (few i.0, i.1, i.2)
    where
      few : count_active s.runs ≤ 1 → count_active (delete_runs (prunable c keep s) s.runs) ≤ 1
      few h = omega (arith, delete_runs-count (prunable c keep s) s.runs)

  pruned-Idle : (terminal : List Run) (s : JobState) → Idle s → Kept Idle (pruned c terminal s)
  pruned-Idle terminal s i =
      if_cases (Does {A = Unit {0}} Idle s) (ltb_ℤ c.retention (pos (length terminal))) _ _
        (λ _.
          Post-then (remove_victims-Idle _ s i)
            (λ _ s' i'. Post-ignore (prune_rows-Idle c.retention s' i')))
        (λ _. on_ok tt s i)

  pub list_runs-Post :
      {E : JobState → Type 0} {Q : List Run → JobState → Type 0} (s : JobState)
      → E (tick s)
      → Q (newest_first (started_text c) s.runs) (tick s)
      → Post Q E (list_runs c s)
  unfolding list_runs
  list_runs-Post s e q = query-Post c _ s e q

  prune-Idle : (s : JobState) → Idle s → Kept Idle (prune_terminal_runs c s)
  unfolding prune_terminal_runs
  prune-Idle s i =
      if_cases (Does {A = Unit {0}} Idle s) (ltb_ℤ c.retention (pos 0)) _ _ (λ _. on_ok tt s i)
        (λ _.
          Post-followed (list_runs-Post {E = Idle} {Q = λ _. Idle} s i i)
            (λ runs s' i'. pruned-Idle (select is_terminal_run runs) s' i')
            (λ e s' i'. on_ok tt s' i'))

  pub finish-Idle :
      (r : Run) (from to : Phase) (reason : Bytes) (s : JobState)
      → Idle s
      → Kept Idle (finish_run c r from to reason s)
  unfolding finish_run
  finish-Idle r from to reason s i =
      Post-then (update_run_with-Idle c _ _ s i) (λ _ s' i'. prune-Idle s' i')

  block-Idle :
      (r : Run) (from : Phase) (reason : Bytes) (s : JobState)
      → Idle s
      → Kept Idle (block_run c r from reason s)
  unfolding block_run
  block-Idle r from reason s i = update_run_with-Idle c _ _ s i

  pub schedule-Idle :
      (r : Run) (from : Phase) (reason : Bytes) (s : JobState)
      → Idle s
      → Kept Idle (schedule_restart_from c r from reason s)
  unfolding schedule_restart_from
  schedule-Idle r from reason s i =
      Post-then (update_run_with-Idle c _ _ s i) (λ _ s' i'. on_ok _ s' i')

  fail_run-Idle :
      (r : Run) (reason : Bytes) (s : JobState) → Idle s → Kept Idle (fail_run c r reason s)
  unfolding fail_run
  fail_run-Idle r reason s i = update_run_with-Idle c _ _ s i

  mark-Idle :
      (r : Run) (e : Error) (s : JobState) → Idle s → Kept Idle (mark_launch_record_failure c r e s)
  unfolding mark_launch_record_failure
  mark-Idle r e s i = update_run-Idle c _ s i

  refused-Idle :
      (r : Run) (e : LaunchError) (s : JobState)
      → Idle s
      → Kept Idle (launch_refused c r (launch_failed e) s)
  unfolding launch_refused
  refused-Idle r e s i =
      if_cases (Does {A = Unit {0}} Idle s) (retries c r (launch_failure_kind c e)) _ _
        (λ _. Post-returns _ _ (schedule-Idle _ _ _ s i))
        (λ _. Post-returns _ _ (fail_run-Idle _ _ s i))

  unrecorded-Idle :
      (r : Run) (id : Bytes) (e : Error) (s : JobState)
      → Fresh id s
      → Kept Idle (unrecorded c r id e s)
  unfolding unrecorded
  unrecorded-Idle r id e s f =
      Post-followed (remove_launched-Idle c id s f)
        (λ _ s' i'. Post-returns _ _ (mark-Idle r e s' i'))
        (λ f s' i'. Post-returns _ _ (mark-Idle r e s' i'))

  record_run-Safe :
      (r : Run) (s : JobState)
      → Watching r
      → Fresh r.container_id s
      → Kept Safe (record_run c r r.container_id s)
  unfolding record_run
  record_run-Safe r s w f =
      Post-followed (record-Safe c r _ s w f) (λ _ s' h. on_ok tt s' h)
        (λ e s' f'. Kept-Idle-Safe (unrecorded-Idle r r.container_id e s' f'))

  record_launch-Safe :
      (r : Run) (id : Bytes) (s : JobState)
      → is_active r ≡ true
      → Fresh id s × (id ≢ [])
      → Kept Safe (record_launch c r id s)
  unfolding record_launch
  record_launch-Safe r id s a (f, named) =
      Post-followed (status-Fresh c id s f)
        (λ st s' f'.
          record_run-Safe
            (record r { container_id = id; phase = running; host_port = st.host_port }) s'
            (a, refl, named) f')
        (λ e s' f'.
          record_run-Safe (record r { container_id = id; phase = running }) s' (a, refl, named) f')

  refusal-Idle : (r : Run) (e : Error) (s : JobState) → Idle s → Kept Idle (launch_refused c r e s)
  unfolding launch_refused
  refusal-Idle r (launch_failed e) s i = refused-Idle r e s i
  refusal-Idle r e s i = on_failed e s i

  launch_in-Safe :
      (job : Job) (r : Run) (restore : Bytes) (env : Result (List (Bytes × Bytes))) (s : JobState)
      → is_active r ≡ true
      → Idle s
      → Kept Safe (launch_in c job r restore env s)
  launch_in-Safe job r restore (ok env) s a i =
      Post-followed (launch-Fresh c (launch_spec c job.kind job restore env) s i)
        (λ id s' f. record_launch-Safe r id s' a f)
        (λ e s' i'. Kept-Idle-Safe (refusal-Idle r e s' i'))
  launch_in-Safe job r restore (Result.failed e) s a i =
      Kept-Idle-Safe (Post-returns _ _ (block-Idle r starting _ s i))

  begin-Safe :
      (job : Job) (attempt : ℤ) (restore : Bytes) (s : JobState)
      → Idle s
      → Kept Safe (begin_run c job attempt restore s)
  unfolding begin_run
  begin-Safe job attempt restore s i =
      Post-followed (create_run-Idle c (new_run c s attempt) _ s i)
        (λ _ s' i'.
          launch_in-Safe job (new_run c s attempt) restore (launch_env c job s') s' refl i')
        (λ e s' i'. on_failed e s' (Idle-Safe s' i'))

  unless_active-Safe :
      (job : Job) (attempt : ℤ) (restore : Bytes) (o : Option Run) (s : JobState)
      → Safe s
      → (o ≡ none → Idle s)
      → Kept Safe (unless_active c job attempt restore o s)
  unless_active-Safe job attempt restore (some r) s h i = on_failed _ s h
  unless_active-Safe job attempt restore none s h i = begin-Safe job attempt restore s (i refl)

  -- Where no run is active, no container is live.
  Held-none :
      (ids : List Bytes) (runs : List Run)
      → Held ids runs
      → first_active (newest_first (started_text c) runs) ≡ none
      → ids ≡ []
  Held-none [] runs h e = refl
  Held-none (id ∷ []) runs h e =
      absurd (Watches-first_active id _ (Watches-newest_first (started_text c) id runs h) e)
  Held-none (id ∷ j ∷ ids) runs h e = absurd h

  -- A launch is made only if no container of the job may be live.
  pub start_run-Safe :
      (job : Job) (attempt : ℤ) (restore : Bytes) (s : JobState)
      → Safe s
      → Kept Safe (start_run c job attempt restore s)
  unfolding start_run
  start_run-Safe job attempt restore s h =
      Post-then
        (list_runs-Post {E = Safe} {Q = λ runs s'. Safe s' × (first_active runs ≡ none → Idle s')} s
          h (h, λ e. (h.0, h.1, Held-none s.live s.runs h.2 e)))
        (λ runs s' g. unless_active-Safe job attempt restore (first_active runs) s' g.0 g.1)
