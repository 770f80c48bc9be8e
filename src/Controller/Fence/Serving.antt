-- ===== src/Controller/Fence/Serving.antt =====
-- control/controller.go: whatever is asked of a job, at most one of its containers is live.
use weibo.Base.{
  Bool, ◌≡◌, ◌≤◌, not, Option, none, some, List, [], ◌∷◌, arith, if_cases, refl, length, ◌||◌,
}
use weibo.State.{Bytes}
use weibo.Lifecycle.{cancelled}
use weibo.Controller.{Controller, Desired, Job, Run, JobState, tick, is_empty, ignore, when}
use weibo.Controller.Store.{
  is_active, count_active, set_desired, latest_run, with_job, newest_first, started_text, first_run,
}
use weibo.Controller.Backend.{remove_container}
use weibo.Controller.Launch.{error_text}
use weibo.Controller.Requests.{
  delete_with_options, cancel_run, cancel, stop_old, do_restart, restart_from_savepoint, address_of,
  control_address, trigger_savepoint, savepoint, Request, ask_submit, ask_cancel, ask_restart,
  ask_restart_from, ask_delete, ask_savepoint, ask_reconcile, restarted, serve, serve_all,
  no_job_yet,
}
use weibo.Controller.Outcomes.{
  Post-both, Post, on_ok, on_failed, Kept, Does, Post-followed, Post-then, Post-ignore, Post-weaken,
  Post-state, query-Post, transact-Post, IfOk,
}
use weibo.Controller.Fence.{Safe, Idle, Stored, Idle-Safe, Tied-Safe, Held}
use weibo.Controller.Fence.Rows.{Stored-newest_first, Stored-first_run}
use weibo.Controller.Fence.Calls.{stop-Tied, remove-Idle, status-Safe, Safe-Tied}
use weibo.Controller.Fence.Updates.{update_run-Safe}
use weibo.Controller.Fence.Launching.{finish-Idle, start_run-Safe, Kept-Idle-Safe}
use weibo.Controller.Fence.Orphans.{Among, delete-NoneNew}
use weibo.Controller.Fence.Deleting.{delete-Safe, delete-IsGone, IsGone}
use weibo.Controller.Fence.Passing.{get_job-Kept, reconcile-Safe}
use weibo.Controller.Fence.Submitting.{append-Safe, submit-Safe}

module _ (c : Controller) where
  set_desired-Safe : (d : Desired) (s : JobState) → Safe s → Kept Safe (set_desired c d s)
  unfolding set_desired
  set_desired-Safe d s h = transact-Post c _ s h (present s.job)
    where
      present :
          (o : Option Job)
          → IfOk
              (λ s'. Safe (tick s'))
              (with_job (λ j. record s { job = some (record j { desired = d }) }) o)
      present none = tt
      present (some j) = h

  -- The run that is taken for the latest is one of the store.
  IsStored : Option Run → JobState → Type 0
  IsStored none s = Safe s
  IsStored (some r) s = Safe s × Stored r s.runs

  latest-Stored : (s : JobState) → Safe s → Post IsStored Safe (latest_run c s)
  unfolding latest_run IsStored
  latest-Stored s h = query-Post c {Q = IsStored} {E = Safe} _ s h (
      stored (first_run (newest_first (started_text c) s.runs))
        (λ r e. Stored-newest_first (started_text c) r s.runs (Stored-first_run r _ e)))
    where
      stored : (o : Option Run) → ((r : Run) → o ≡ some r → Stored r s.runs) → IsStored o (tick s)
      stored none f = h
      stored (some r) f = (h, f r refl)

  cancel_run-Safe : (o : Option Run) (s : JobState) → IsStored o s → Kept Safe (cancel_run c o s)
  unfolding IsStored
  cancel_run-Safe none s h = on_ok tt s h
  cancel_run-Safe (some r) s (h, m) =
      if_cases (Does {A = Unit {0}} Safe s) (is_active r) _ _
        (λ a.
          Post-followed (stop-Tied c r s (Safe-Tied r s a m h))
            (λ _ s' i. Kept-Idle-Safe (finish-Idle c r r.phase cancelled _ s' i))
            (λ e s' t.
              Post-then (update_run-Safe c r (record r { error = error_text e }) s' refl (λ w. w) t)
                (λ _ s'' h'. on_failed e s'' h')))
        (λ _. on_ok tt s h)

  cancel-Safe : (s : JobState) → Safe s → Kept Safe (cancel c s)
  unfolding cancel
  cancel-Safe s h = Post-then (get_job-Kept c s h h) (λ job s1 h1.
      Post-then (set_desired-Safe _ s1 h1)
        (λ _ s2 h2. Post-then (latest-Stored s2 h2) (λ o s3 h3. cancel_run-Safe o s3 h3)))

  stop_old-Safe : (o : Option Run) (s : JobState) → IsStored o s → Kept Safe (stop_old c o s)
  unfolding IsStored
  stop_old-Safe none s h = on_ok tt s h
  stop_old-Safe (some r) s (h, m) =
      if_cases (Does {A = Unit {0}} Safe s) (is_active r) _ _
        (λ a.
          Post-followed
            (Post-followed (stop-Tied c r s (Safe-Tied r s a m h)) (λ _ s' i. removed s' i)
              (λ e s' t. on_failed e s' (Tied-Safe r s' t)))
            (λ _ s' i. Kept-Idle-Safe (finish-Idle c r r.phase cancelled _ s' i))
            (λ e s' h'. on_failed e s' h'))
        (λ _. on_ok tt s h)
    where
      removed :
          (s' : JobState)
          → Idle s'
          → Post
              (λ _. Idle)
              Safe
              (when (not (is_empty r.container_id)) (ignore (remove_container c r.container_id)) s')
      removed s' i =
          Post-weaken
            (if_cases (Does {A = Unit {0}} Idle s') (not (is_empty r.container_id)) _ _
              (λ _. Post-ignore (remove-Idle c r.container_id s' i)) (λ _. on_ok tt s' i))
            (λ _ s'' i'. i') (λ s'' i'. Idle-Safe s'' i')

  restart-Safe : (restore : Bytes) (s : JobState) → Safe s → Kept Safe (do_restart c restore s)
  unfolding do_restart
  restart-Safe restore s h = Post-then (get_job-Kept c s h h) (λ job s1 h1.
      Post-then
        (Post-then (Post-then (latest-Stored s1 h1) (λ o s2 h2. stop_old-Safe o s2 h2))
          (λ _ s3 h3. set_desired-Safe _ s3 h3))
        (λ _ s4 h4. start_run-Safe c job _ restore s4 h4))

  restart_from-Safe :
      (label : Bytes) (s : JobState) → Safe s → Kept Safe (restart_from_savepoint c label s)
  unfolding restart_from_savepoint
  restart_from-Safe label s h =
      if_cases (Does {A = Unit {0}} Safe s) (is_empty label) _ _ (λ _. on_failed _ s h)
        (λ _. restart-Safe label s h)

  address-Safe : (o : Option Run) (s : JobState) → IsStored o s → Kept Safe (address_of c o s)
  unfolding IsStored
  address-Safe none s h = on_ok [] s h
  address-Safe (some r) s (h, m) =
      if_cases (Does {A = Bytes} Safe s) (is_empty r.container_id || not (is_active r)) _ _
        (λ _. on_ok [] s h)
        (λ _. Post-then (status-Safe c r.container_id s h) (λ st s' h'. on_ok st.address s' h'))

  trigger-Safe :
      (label address : Bytes) (s : JobState)
      → Safe s
      → Kept Safe (trigger_savepoint c label address s)
  trigger-Safe label address s h =
      if_cases (Kept {A = Unit {0}} Safe) (is_empty address) _ _ (λ _. on_failed _ s h)
        (λ _.
          if_cases (Kept {A = Unit {0}} Safe) (c.outside.savepoint_accepted s.calls address label) _
            _ (λ _. Post-then (set_desired-Safe _ s h) (λ _ s' h'. append-Safe c _ s' h'))
            (λ _. on_failed _ s h))

  savepoint-Safe : (label : Bytes) (s : JobState) → Safe s → Kept Safe (savepoint c label s)
  unfolding savepoint control_address
  savepoint-Safe label s h =
      if_cases (Does {A = Unit {0}} Safe s) (is_empty label) _ _ (λ _. on_failed _ s h)
        (λ _.
          Post-then (Post-then (latest-Stored s h) (λ o s' h'. address-Safe o s' h'))
            (λ address s' h'. trigger-Safe label address s' h'))

  serve-Safe : (q : Request) (s : JobState) → Safe s → Kept Safe (serve c q s)
  serve-Safe (ask_submit doc env refs) s h = submit-Safe c doc env refs s h
  serve-Safe ask_cancel s h = cancel-Safe s h
  serve-Safe ask_restart s h = restart-Safe [] s h
  serve-Safe (ask_restart_from label) s h = restart_from-Safe label s h
  serve-Safe (ask_delete delete_data) s h = delete-Safe c delete_data s h
  serve-Safe (ask_savepoint label) s h = savepoint-Safe label s h
  serve-Safe ask_reconcile s h = reconcile-Safe c s h
  serve-Safe restarted s h = on_ok tt (record s { secrets = [] }) h

  serve_all-Safe : (qs : List Request) (s : JobState) → Safe s → Safe (serve_all c qs s)
  unfolding serve_all
  serve_all-Safe [] s h = h
  serve_all-Safe (q ∷ qs) s h = serve_all-Safe qs (serve c q s).1 (Post-state (serve-Safe q s h))

  Held-one : (ids : List Bytes) (runs : List Run) → Held ids runs → length ids ≤ 1
  Held-one [] runs h = omega arith
  Held-one (id ∷ []) runs h = omega arith
  Held-one (id ∷ j ∷ ids) runs h = absurd h

  -- Whatever is asked of a job that nobody has submitted yet, in any order, and whatever the store, the
  -- backend, the clock and the other packages answer: at no moment is more than one of the containers
  -- that were launched for it live, that is, neither stopped nor removed nor seen exited or gone, nor
  -- an orphan that could be neither recorded nor removed; and at the end at most one run is active.
  pub serve_all-single_live :
      (qs : List Request)
      → ((serve_all c qs no_job_yet).most_live ≤ 1)
        × (length (serve_all c qs no_job_yet).live ≤ 1)
        × (count_active (serve_all c qs no_job_yet).runs ≤ 1)
  serve_all-single_live qs =
      let safe = serve_all-Safe qs no_job_yet (omega arith, omega arith, tt) in
      (safe.1, Held-one _ _ safe.2, safe.0)

  -- Whatever has been asked of a job before: a deletion that succeeds leaves no row of it, and no container
  -- that is live, but for orphans: containers that had been launched before and could be neither recorded nor
  -- removed may still run after it. One that fails leaves at most one live container, besides such orphans.
  -- Either way there is no orphan that was not one before.
  pub delete-leaves_nothing :
      (qs : List Request) (delete_data : Bool)
      → let before = serve_all c qs no_job_yet in
        Post
          (λ _ s. IsGone s × Among s.orphans before.orphans)
          (λ s. (length s.live ≤ 1) × Among s.orphans before.orphans)
          (delete_with_options c delete_data before)
  delete-leaves_nothing qs delete_data =
      let before = serve_all c qs no_job_yet in
      Post-both
        (Post-weaken
          (delete-IsGone c delete_data before
            (serve_all-Safe qs no_job_yet (omega arith, omega arith, tt)))
          (λ _ s g. g.0) (λ s h. Held-one s.live s.runs h.2))
        (delete-NoneNew c before.orphans delete_data before (λ id m. m))
