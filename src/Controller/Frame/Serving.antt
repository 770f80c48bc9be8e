-- ===== src/Controller/Frame/Serving.antt =====
-- control/controller.go: the requests that do not ask for a run.
use weibo.Base.{
  ◌≡◌, Bool, true, false, not, Option, none, some, List, [], ◌∷◌, ◌++◌, All, if_cases, refl, ◌||◌,
}
use weibo.State.{Bytes}
use weibo.Positions.{bytes_ltb}
use weibo.Lifecycle.{cancelled}
use weibo.Controller.{
  Controller, desired_stopped, Job, Run, Transition, JobState, Operation, ok, Error, tick,
  LaunchSpec, is_empty, when,
}
use weibo.Controller.Store.{
  is_active, newest_first, insert_newest, first_run, started_text, latest_run, list_runs,
  set_desired, with_job, append_transition, delete_job,
}
use weibo.Controller.Backend.{stop_container, remove_container, delete_job_data}
use weibo.Controller.Launch.{error_text}
use weibo.Controller.Requests.{
  Request, ask_submit, ask_cancel, ask_restart, ask_restart_from, ask_delete, ask_savepoint,
  ask_reconcile, restarted, serve, serve_all, cancel_run, cancel, or_error, delete_container,
  delete_containers, delete_rows, delete_with_options, address_of, control_address,
  trigger_savepoint, savepoint,
}
use weibo.Controller.Outcomes.{
  Post, on_ok, on_failed, Kept, Does, Post-followed, Post-then, Post-state, query-Post,
  transact-Post, unless_error-Post, IfOk,
}
use weibo.Controller.Frame.{
  Frame, At, Fits, Kept-Fits, update-At, stop-At, remove-At, status-At, finish-At,
}
use weibo.Controller.Frame.Runs.{Launches}
use weibo.Controller.Frame.Passes.{reconcile-Fits, get_job-At}

-- Requests that start runs of their own.
abbrev pub asks_to_run : Request → Bool
asks_to_run (ask_submit doc env refs) = true
asks_to_run ask_restart = true
asks_to_run (ask_restart_from label) = true
asks_to_run _ = false

module _ (P : Run → Type 0) (text : Run → Bytes) where
  All-insert_newest : (r : Run) (rs : List Run) → P r → All P rs → All P (insert_newest text r rs)
  All-insert_newest r [] p h = (p, tt)
  All-insert_newest r (x ∷ xs) p h =
      if_cases (All P) (bytes_ltb (text r) (text x)) (x ∷ insert_newest text r xs) (r ∷ x ∷ xs)
        (λ _. (h.0, All-insert_newest r xs p h.1)) (λ _. (p, h))

  pub All-newest_first : (rs : List Run) → All P rs → All P (newest_first text rs)
  All-newest_first [] h = tt
  All-newest_first (r ∷ rs) h =
      All-insert_newest r (newest_first text rs) h.0 (All-newest_first rs h.1)

-- What stopping and deleting a job keep.
pub record Rests (frame : Frame) : Type 0 where
  pub rests :
      (ls : List LaunchSpec) (j : Job)
      → frame.Job_fits ls (some j)
      → frame.Job_fits ls (some (record j { desired = desired_stopped }))
  pub forgets :
      (ls : List LaunchSpec) (o : Option Job) → frame.Job_fits ls o → frame.Job_fits ls none

module _ (c : Controller) (frame : Frame) (launches : Launches c frame) (rest : Rests frame) where
  open frame use {Row, Job_fits}

  module _ (ls : List LaunchSpec) where
    Latest : Option Run → JobState → Type 0
    Latest none s = At c frame ls s
    Latest (some r) s = Row ls r × At c frame ls s

    latest_run-At : (s : JobState) → At c frame ls s → Post Latest (At c frame ls) (latest_run c s)
    unfolding latest_run Latest
    latest_run-At s h = query-Post c {Q = Latest} {E = At c frame ls} _ s h (
        first (newest_first (started_text c) s.runs)
          (All-newest_first (Row ls) (started_text c) s.runs h.1))
      where
        first : (rs : List Run) → All (Row ls) rs → Latest (first_run rs) (tick s)
        first [] a = h
        first (r ∷ rs) a = (a.0, h)

    stop_desired-At :
        (s : JobState) → At c frame ls s → Kept (At c frame ls) (set_desired c desired_stopped s)
    unfolding set_desired
    stop_desired-At s h = transact-Post c _ s h (present s.job (h.2))
      where
        present :
            (o : Option Job)
            → Job_fits ls o
            → IfOk
                (λ s'. At c frame ls (tick s'))
                (with_job (λ j. record s { job = some (record j { desired = desired_stopped }) }) o)
        present none f = tt
        present (some j) f = (h.0, h.1, rest.rests ls j f)

    append-At :
        (t : Transition) (s : JobState)
        → At c frame ls s
        → Kept (At c frame ls) (append_transition c t s)
    unfolding append_transition
    append-At t s h = transact-Post c _ s h h

    cancel_run-At :
        (o : Option Run) (s : JobState) → Latest o s → Kept (At c frame ls) (cancel_run c o s)
    unfolding Latest
    cancel_run-At none s h = on_ok tt s h
    cancel_run-At (some r) s (w, h) =
        if_cases (Does {A = Unit {0}} (At c frame ls) s) (is_active r) _ _
          (λ a.
            Post-followed (stop-At c frame ls r.container_id s h)
              (λ _ s' h'. finish-At c frame ls r r.phase cancelled _ s' (λ e. cc) w h')
              (λ e s' h'.
                Post-then
                  (update-At c frame ls (record r { error = error_text e }) s'
                    (frame.follows ls r _
                      (record { attempt = refl; active = λ a. a; unblocked = λ b. b }) w)
                    h')
                  (λ _ s'' h''. on_failed e s'' h'')))
          (λ _. on_ok tt s h)

    cancel-At : (s : JobState) → At c frame ls s → Kept (At c frame ls) (cancel c s)
    unfolding cancel
    cancel-At s h = Post-then (get_job-At c frame launches ls s h) (λ job s1 h1.
        Post-then (stop_desired-At s1 h1.1)
          (λ _ s2 h2. Post-then (latest_run-At s2 h2) (λ o s3 h3. cancel_run-At o s3 h3)))

    or_error-At :
        (errs : List Error) (m : Operation (Unit {0})) (s : JobState)
        → Kept (At c frame ls) (m s)
        → Kept (At c frame ls) (or_error errs m s)
    or_error-At errs m s k =
        Post-followed k (λ _ s' h. on_ok errs s' h) (λ e s' h. on_ok (errs ++ e ∷ []) s' h)

    container-At :
        (errs : List Error) (r : Run) (s : JobState)
        → At c frame ls s
        → Kept (At c frame ls) (delete_container c errs r s)
    unfolding delete_container
    container-At errs r s h =
        if_cases (Does {A = List Error} (At c frame ls) s) (is_empty r.container_id) _ _
          (λ _. on_ok errs s h)
          (λ _.
            Post-then
              (or_error-At errs (when (is_active r) (stop_container c r.container_id)) s (
                if_cases (Does {A = Unit {0}} (At c frame ls) s) (is_active r) _ _
                  (λ _. stop-At c frame ls r.container_id s h) (λ _. on_ok tt s h)))
              (λ es s' h'.
                or_error-At es (remove_container c r.container_id) s'
                  (remove-At c frame ls r.container_id s' h')))

    containers-At :
        (errs : List Error) (rs : List Run) (s : JobState)
        → At c frame ls s
        → Kept (At c frame ls) (delete_containers c errs rs s)
    unfolding delete_containers
    containers-At errs [] s h = on_ok errs s h
    containers-At errs (r ∷ rs) s h =
        Post-then (container-At errs r s h) (λ errs' s' h'. containers-At errs' rs s' h')

    data-At : (s : JobState) → At c frame ls s → Kept (At c frame ls) (delete_job_data c s)
    unfolding delete_job_data
    data-At s h = unless_error-Post _ _ _ _ h (on_ok tt (tick s) h)

    delete_job-At : (s : JobState) → At c frame ls s → Kept (At c frame ls) (delete_job c s)
    unfolding delete_job
    delete_job-At s h =
        Post-then (transact-Post c {Q = λ _. At c frame ls} {E = At c frame ls} _ s h h) (λ _ s1 h1.
          Post-then
            (transact-Post c {Q = λ _. At c frame ls} {E = At c frame ls} _ s1 h1 (h1.0, tt, h1.2))
            (λ _ s2 h2. transact-Post c _ s2 h2 (dropped s2 h2 s2.job h2.2)))
      where
        dropped :
            (s' : JobState)
            → At c frame ls s'
            → (o : Option Job) → Job_fits ls o
            → IfOk (λ s''. At c frame ls (tick s'')) (with_job (λ j. record s' { job = none }) o)
        dropped s' h' none f = tt
        dropped s' h' (some j) f = (h'.0, h'.1, rest.forgets ls (some j) f)

    forget-At :
        (s : JobState)
        → At c frame ls s
        → Kept {A = Unit {0}} (At c frame ls) (ok tt, record s { secrets = [] })
    forget-At s h = on_ok tt (record s { secrets = [] }) h

    rows-At :
        (delete_data : Bool) (errs : List Error) (s : JobState)
        → At c frame ls s
        → Kept (At c frame ls) (delete_rows c delete_data errs s)
    rows-At delete_data (e ∷ es) s h = on_failed _ s h
    rows-At delete_data [] s h =
        Post-then
          (Post-then
            (if_cases (Does {A = Unit {0}} (At c frame ls) s) delete_data _ _ (λ _. data-At s h)
              (λ _. on_ok tt s h))
            (λ _ s' h'. forget-At s' h'))
          (λ _ s' h'. delete_job-At s' h')

    delete-At :
        (delete_data : Bool) (s : JobState)
        → At c frame ls s
        → Kept (At c frame ls) (delete_with_options c delete_data s)
    unfolding delete_with_options list_runs
    delete-At delete_data s h = Post-then (get_job-At c frame launches ls s h) (λ job s1 h1.
        Post-then
          (Post-then (query-Post c {Q = λ _. At c frame ls} {E = At c frame ls} _ s1 h1.1 h1.1)
            (λ runs s2 h2. containers-At [] runs s2 h2))
          (λ errs s3 h3. rows-At delete_data errs s3 h3))

    address-At :
        (o : Option Run) (s : JobState) → Latest o s → Kept (At c frame ls) (address_of c o s)
    unfolding Latest
    address-At none s h = on_ok [] s h
    address-At (some r) s (w, h) =
        if_cases (Does {A = Bytes} (At c frame ls) s) (is_empty r.container_id || not (is_active r))
          _ _ (λ _. on_ok [] s h)
          (λ _.
            Post-then (status-At c frame ls r.container_id s h)
              (λ st s' h'. on_ok st.address s' h'))

    trigger-At :
        (label address : Bytes) (s : JobState)
        → At c frame ls s
        → Kept (At c frame ls) (trigger_savepoint c label address s)
    trigger-At label address s h =
        if_cases (Kept {A = Unit {0}} (At c frame ls)) (is_empty address) _ _ (λ _. on_failed _ s h)
          (λ _.
            if_cases (Kept {A = Unit {0}} (At c frame ls))
              (c.outside.savepoint_accepted s.calls address label) _ _
              (λ _. Post-then (stop_desired-At s h) (λ _ s' h'. append-At _ s' h'))
              (λ _. on_failed _ s h))

    savepoint-At :
        (label : Bytes) (s : JobState)
        → At c frame ls s
        → Kept (At c frame ls) (savepoint c label s)
    unfolding savepoint control_address
    savepoint-At label s h =
        if_cases (Does {A = Unit {0}} (At c frame ls) s) (is_empty label) _ _ (λ _. on_failed _ s h)
          (λ _.
            Post-then (Post-then (latest_run-At s h) (λ o s' h'. address-At o s' h'))
              (λ address s' h'. trigger-At label address s' h'))

  serve-Fits :
      (q : Request) (s : JobState)
      → asks_to_run q ≡ false
      → Fits c frame s
      → Kept (Fits c frame) (serve c q s)
  serve-Fits (ask_submit doc env refs) s a h = absurd (cc)
  serve-Fits ask_restart s a h = absurd (cc)
  serve-Fits (ask_restart_from label) s a h = absurd (cc)
  serve-Fits ask_cancel s a h = Kept-Fits c frame s.launches (cancel-At s.launches s h)
  serve-Fits (ask_delete delete_data) s a h =
      Kept-Fits c frame s.launches (delete-At s.launches delete_data s h)
  serve-Fits (ask_savepoint label) s a h =
      Kept-Fits c frame s.launches (savepoint-At s.launches label s h)
  serve-Fits ask_reconcile s a h = reconcile-Fits c frame launches s h
  serve-Fits restarted s a h = on_ok tt (record s { secrets = [] }) h

  -- Requests that do not ask for a run keep what the launches of the passes keep.
  pub serve_all-Fits :
      (qs : List Request) (s : JobState)
      → All (λ q. asks_to_run q ≡ false) qs
      → Fits c frame s
      → Fits c frame (serve_all c qs s)
  unfolding serve_all
  serve_all-Fits [] s a h = h
  serve_all-Fits (q ∷ qs) s a h =
      serve_all-Fits qs (serve c q s).1 a.1 (Post-state (serve-Fits q s a.0 h))
