-- ===== src/Controller/Attempts/Launching.antt =====
-- control/controller.go: a launch keeps the count of the attempts.
use weibo.Base.{
  ℕ, ℕ, ◌+◌, ◌≡◌, ◌≤◌, ap, true, Option, none, some, List, [], ◌∷◌, ◌++◌, All, if_cases, refl,
  length, length-append, arith,
}
use weibo.Base.Int.{ℤ, pos, ◌+ℤ◌, ◌≤ℤ◌, int_laws}
use weibo.Base.Maps.{get}
use weibo.State.{Bytes, bytes_key}
use weibo.Lifecycle.{Phase, starting, should_restart}
use weibo.Controller.{
  Controller, Job, Run, JobState, Result, ok, failed, Error, launch_failed, tick, ended, LaunchSpec,
  Launched, launched, refused, SecretRef,
}
use weibo.Controller.Store.{list_runs, started_text, create_run_with_transition}
use weibo.Controller.Backend.{launch_container, launch_answer, remove_launched, launch_failure_kind}
use weibo.Controller.Launch.{
  start_run, unless_active, begin_run, launch_in, launch_spec, first_active, new_run, record_launch,
  record_run, unrecorded, mark_launch_record_failure, launch_refused, fail_run, retries,
  with_launch_error,
}
use weibo.Controller.Endings.{schedule_restart_from}
use weibo.Controller.Secrets.{launch_env, resolve_refs, resolved}
use weibo.Controller.Outcomes.{
  on_ok, on_failed, Kept, Does, Post-followed, Post-then, Post-returns, query-Post, transact-Post,
  unless_error-Post, inserted-IfOk,
}
use weibo.Controller.Frame.{At, Fits, At-Fits, Kept-Fits, update-At, update_with-At, status-At}
use weibo.Controller.Frame.Runs.{Launches}
use weibo.Controller.Attempts.{
  limit, Counts, counting, Resolves, IsOk, resolved-IsOk, resolve_ref-IsOk, Inactive,
  first_active-none, unsorted, Inactive-Counts, Counts-next, Counts-snoc, should_restart-lt,
}

module _ (c : Controller)
    (resolves : (n : ℕ) (ref : SecretRef) → Resolves (c.outside.resolve_secret n ref)) where
  resolve_refs-IsOk :
      (n : ℕ) (refs : List (Bytes × SecretRef)) (env : List (Bytes × Bytes))
      → IsOk (resolve_refs c n refs env)
  resolve_refs-IsOk n [] env = tt
  resolve_refs-IsOk n ((key, ref) ∷ refs) env =
      resolve_ref-IsOk (resolve_refs c n refs) env (get key env)
        (resolved key (c.outside.resolve_secret n ref) env) (resolve_refs-IsOk n refs)
        (resolved-IsOk key _ env (resolves n ref))

  launch_env-IsOk : (job : Job) (s : JobState) → IsOk (launch_env c job s)
  unfolding launch_env
  launch_env-IsOk job s = resolve_refs-IsOk s.calls job.secrets _

  module _ (ls : List LaunchSpec) where
    schedule-At :
        (r : Run) (from : Phase) (reason : Bytes) (s : JobState)
        → Counts 0 ls r
        → At c (counting c 0) ls s
        → Kept (At c (counting c 0) ls) (schedule_restart_from c r from reason s)
    unfolding schedule_restart_from
    schedule-At r from reason s w h =
        Post-then (update_with-At c (counting c 0) ls _ _ s (w.0, λ e. cc) h)
          (λ _ s' h'. on_ok _ s' h')

    fail_run-At :
        (r : Run) (reason : Bytes) (s : JobState)
        → At c (counting c 0) ls s
        → Kept (At c (counting c 0) ls) (fail_run c r reason s)
    unfolding fail_run
    fail_run-At r reason s h =
        update_with-At c (counting c 0) ls _ _ s ((λ a. absurd (cc)), λ e. cc) h

    mark-At :
        (r : Run) (e : Error) (s : JobState)
        → At c (counting c 0) ls s
        → Kept (At c (counting c 0) ls) (mark_launch_record_failure c r e s)
    unfolding mark_launch_record_failure
    mark-At r e s h = update-At c (counting c 0) ls _ s ((λ a. absurd (cc)), λ b. cc) h

    remove_launched-At :
        (id : Bytes) (s : JobState)
        → At c (counting c 0) ls s
        → Kept (At c (counting c 0) ls) (remove_launched c id s)
    unfolding remove_launched
    remove_launched-At id s h = unless_error-Post _ _ _ _ h (on_ok tt (tick (ended id s)) h)

    refused-At :
        (r : Run) (e : Error) (s : JobState)
        → Counts 0 ls r
        → At c (counting c 0) ls s
        → Kept (At c (counting c 0) ls) (launch_refused c r e s)
    unfolding launch_refused
    refused-At r (launch_failed e) s w h =
        if_cases (Does {A = Unit {0}} (At c (counting c 0) ls) s)
          (retries c r (launch_failure_kind c e)) _ _
          (λ _. Post-returns _ _ (schedule-At (with_launch_error c r e) starting _ s w h))
          (λ _. Post-returns _ _ (fail_run-At _ _ s h))
    refused-At r e s w h = on_failed e s h

    unrecorded-At :
        (r : Run) (id : Bytes) (e : Error) (s : JobState)
        → At c (counting c 0) ls s
        → Kept (At c (counting c 0) ls) (unrecorded c r id e s)
    unfolding unrecorded
    unrecorded-At r id e s h =
        Post-followed (remove_launched-At id s h) (λ _ s' h'. Post-returns _ _ (mark-At r e s' h'))
          (λ f s' h'. Post-returns _ _ (mark-At r e s' h'))

    record_run-At :
        (r : Run) (id : Bytes) (s : JobState)
        → Counts 0 ls r
        → At c (counting c 0) ls s
        → Kept (At c (counting c 0) ls) (record_run c r id s)
    unfolding record_run
    record_run-At r id s w h =
        Post-followed (update_with-At c (counting c 0) ls r _ s w h) (λ _ s' h'. on_ok tt s' h')
          (λ e s' h'. unrecorded-At r id e s' h')

    record_launch-At :
        (r : Run) (id : Bytes) (s : JobState)
        → Counts 0 ls r
        → At c (counting c 0) ls s
        → Kept (At c (counting c 0) ls) (record_launch c r id s)
    unfolding record_launch
    record_launch-At r id s w h =
        Post-followed (status-At c (counting c 0) ls id s h)
          (λ st s' h'. record_run-At _ id s' (w.0, λ b. cc) h')
          (λ e s' h'. record_run-At _ id s' (w.0, λ b. cc) h')

    -- The launch is counted whether or not a container starts.
    launch-At :
        (spec : LaunchSpec) (s : JobState)
        → At c (counting c 1) ls s
        → Kept (At c (counting c 0) (ls ++ spec ∷ [])) (launch_container c spec s)
    unfolding launch_container
    launch-At spec s h = by_answer (c.outside.launch s.calls spec)
      where
        next :
            At c (counting c 0) (ls ++ spec ∷ []) (record s { launches = s.launches ++ spec ∷ [] })
        next = (
          ap (λ (k : List LaunchSpec). k ++ spec ∷ []) (h.0),
          Counts-snoc ls spec s.runs h.1,
          omega (arith, h.2, length-append ls (spec ∷ [])),
        )

        by_answer :
            (l : Launched) → Kept (At c (counting c 0) (ls ++ spec ∷ [])) (launch_answer spec s l)
        by_answer (launched id) = on_ok id _ next
        by_answer (refused e) = on_failed _ _ next

  launch_in-Fits :
      (ls : List LaunchSpec) (job : Job) (r : Run) (restore : Bytes)
      (env : Result (List (Bytes × Bytes))) (s : JobState)
      → IsOk env
      → Counts 1 ls r
      → At c (counting c 1) ls s
      → Kept (Fits c (counting c 0)) (launch_in c job r restore env s)
  launch_in-Fits ls job r restore (failed e) s o w h = absurd o
  launch_in-Fits ls job r restore (ok env) s o w h =
      let spec = launch_spec c job.kind job restore env in
      let w' = Counts-next ls spec r w in
      Kept-Fits c (counting c 0) (ls ++ spec ∷ []) (
        Post-followed (launch-At ls spec s h)
          (λ id s' h'. record_launch-At (ls ++ spec ∷ []) r id s' w' h')
          (λ e s' h'. refused-At (ls ++ spec ∷ []) r e s' w' h'))

  -- No run is active, and another launch is within the limit.
  abbrev Room : List LaunchSpec → JobState → Type 0
  Room ls s =
      (s.launches ≡ ls) × All Inactive s.runs × All (Counts 0 ls) s.runs × (1 + length ls ≤ limit c)

  Room-Fits : (ls : List LaunchSpec) (s : JobState) → Room ls s → Fits c (counting c 0) s
  Room-Fits ls s m = At-Fits c (counting c 0) ls s (m.0, m.2, omega (arith, m.3))

  begin-Fits :
      (ls : List LaunchSpec) (job : Job) (attempt : ℤ) (restore : Bytes) (s : JobState)
      → pos (1 + length ls) ≤ℤ attempt
      → Room ls s
      → Kept (Fits c (counting c 0)) (begin_run c job attempt restore s)
  unfolding begin_run create_run_with_transition
  begin-Fits ls job attempt restore s n m =
      let w : Counts 1 ls (new_run c s attempt) = ((λ _. n), λ b. cc) in
      Post-followed
        (transact-Post c {Q = λ _. At c (counting c 1) ls} {E = Room ls} _ s m (
          inserted-IfOk _ (new_run c s attempt) _ s
            (λ _. (m.0, (w, Inactive-Counts 0 1 ls ls s.runs m.1 m.2), m.3))))
        (λ _ s' h'.
          launch_in-Fits ls job (new_run c s attempt) restore (launch_env c job s') s'
            (launch_env-IsOk job s') w h')
        (λ e s' m'. on_failed e s' (Room-Fits ls s' m'))

  unless_active-Fits :
      (ls : List LaunchSpec) (job : Job) (attempt : ℤ) (restore : Bytes) (o : Option Run)
      (s : JobState)
      → pos (1 + length ls) ≤ℤ attempt
      → 1 + length ls ≤ limit c
      → (o ≡ none → All Inactive s.runs)
      → At c (counting c 0) ls s
      → Kept (Fits c (counting c 0)) (unless_active c job attempt restore o s)
  unless_active-Fits ls job attempt restore (some prev) s n m f h =
      on_failed _ s (At-Fits c (counting c 0) ls s h)
  unless_active-Fits ls job attempt restore none s n m f h =
      begin-Fits ls job attempt restore s n (h.0, f refl, h.1, m)

  pub start-Fits :
      (ls : List LaunchSpec) (job : Job) (attempt : ℤ) (restore : Bytes) (s : JobState)
      → pos (1 + length ls) ≤ℤ attempt
      → 1 + length ls ≤ limit c
      → At c (counting c 0) ls s
      → Kept (Fits c (counting c 0)) (start_run c job attempt restore s)
  unfolding start_run list_runs
  start-Fits ls job attempt restore s n m h =
      Post-followed
        (query-Post c
          {Q = λ runs s'.
            At c (counting c 0) ls s' × (first_active runs ≡ none → All Inactive s'.runs)}
          {E = At c (counting c 0) ls} _ s h
          (h, λ e. unsorted Inactive (started_text c) s.runs (first_active-none _ e)))
        (λ runs s' g. unless_active-Fits ls job attempt restore (first_active runs) s' n m g.1 g.0)
        (λ e s' h'. on_failed e s' (At-Fits c (counting c 0) ls s' h'))

  restart_below :
      (attempt : ℤ) (n : ℕ)
      → should_restart c.restart Phase.failed attempt ≡ true
      → pos (0 + n) ≤ℤ attempt
      → (1 + n ≤ limit c) × (pos (1 + n) ≤ℤ attempt +ℤ pos 1)
  restart_below attempt n e h =
      let below = should_restart-lt c.restart Phase.failed attempt e in
      (omega (arith, below, h), omega (int_laws, h))

  pub counting-Launches : Launches c (counting c 0)
  counting-Launches = record {
    again = λ ls job r s go more a w f h.
        let b = restart_below r.attempt (length ls) more (w.0 a) in
        start-Fits ls job (r.attempt +ℤ pos 1) [] s b.1 b.0 h;
    unblocked = λ ls job r s go b w f h. absurd (w.1 b);
  }
