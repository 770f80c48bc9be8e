-- ===== src/Controller/Attempts/Submitting.antt =====
-- control/controller.go: a submitted job is launched once, and again only by the restart policy.
use weibo.Base.{
  ℕ, ◌≡◌, ◌≤◌, false, not, Option, none, some, List, [], ◌∷◌, All, arith, if_cases, refl, length,
}
use weibo.State.{Bytes}
use weibo.Controller.{
  Controller, Job, JobState, Result, ok, failed, Error, SecretRef, SdkManifest, Transition, tick,
  is_empty, constraint_failed,
}
use weibo.Controller.Store.{create_job, append_transition}
use weibo.Controller.Secrets.{resolve_refs, copy_env}
use weibo.Controller.Requests.{Request, ask_submit, serve_all, no_job_yet}
use weibo.Controller.Submissions.{
  submit, submit_kind, submit_resolved, submit_yaml, submit_sdk, submit_job, set_secrets,
  validate_resources,
}
use weibo.Controller.Outcomes.{
  on_ok, on_failed, Kept, Post-followed, Post-then, Post-state, transact-Post, IfOk,
}
use weibo.Controller.Frame.{Fits, At, At-Fits}
use weibo.Controller.Frame.Serving.{Rests, asks_to_run, serve_all-Fits}
use weibo.Controller.Attempts.{limit, counting, Resolves}
use weibo.Controller.Attempts.Launching.{start-Fits, counting-Launches}

module _ (c : Controller) where
  create_job-At :
      (j : Job) (s : JobState)
      → At c (counting c 0) [] s
      → Kept (At c (counting c 0) []) (create_job c j s)
  unfolding create_job
  create_job-At j s h = transact-Post c _ s h (created s.job)
    where
      created :
          (o : Option Job)
          → IfOk
              (λ s'. At c (counting c 0) [] (tick s'))
              (elim o [
                | none ↦ ok (record s { job = some j })
                | some old ↦ failed constraint_failed
              ])
      created none = h
      created (some old) = tt

  append-At :
      (t : Transition) (s : JobState)
      → At c (counting c 0) [] s
      → Kept (At c (counting c 0) []) (append_transition c t s)
  unfolding append_transition
  append-At t s h = transact-Post c _ s h h

  secrets-At :
      (env : List (Bytes × Bytes)) (s : JobState)
      → At c (counting c 0) [] s
      → Kept (At c (counting c 0) []) (set_secrets env s)
  secrets-At [] s h = on_ok tt s h
  secrets-At (e ∷ env) s h = on_ok tt (record s { secrets = copy_env [] (e ∷ env) }) h

module _ (c : Controller)
    (resolves : (n : ℕ) (ref : SecretRef) → Resolves (c.outside.resolve_secret n ref)) where
  submit_job-Fits :
      (job : Job) (env : List (Bytes × Bytes)) (reason : Bytes) (s : JobState)
      → At c (counting c 0) [] s
      → Kept (Fits c (counting c 0)) (submit_job c job env reason s)
  submit_job-Fits job env reason s h =
      Post-followed
        (Post-then (Post-then (create_job-At c job s h) (λ _ s1 h1. secrets-At c env s1 h1))
          (λ _ s2 h2. append-At c _ s2 h2))
        (λ _ s3 h3. start-Fits c resolves [] job _ _ s3 (omega arith) (omega arith) h3)
        (λ e s3 h3. on_failed e s3 (At-Fits c (counting c 0) [] s3 h3))

  nothing :
      {A : Type 0} (e : Error) (s : JobState)
      → At c (counting c 0) [] s
      → Kept {A = A} (Fits c (counting c 0)) (failed e, s)
  nothing e s h = on_failed e s (At-Fits c (counting c 0) [] s h)

  submit_sdk-Fits :
      (doc : Bytes) (m : SdkManifest) (env : List (Bytes × Bytes)) (refs : List (Bytes × SecretRef))
      (s : JobState)
      → At c (counting c 0) [] s
      → Kept (Fits c (counting c 0)) (submit_sdk c doc m env refs s)
  submit_sdk-Fits doc m env refs s h =
      if_cases (Kept {A = Unit {0}} (Fits c (counting c 0))) (is_empty m.name) _ _
        (λ _. nothing _ s h)
        (λ _.
          if_cases (Kept {A = Unit {0}} (Fits c (counting c 0))) (is_empty m.image) _ _
            (λ _. nothing _ s h)
            (λ _.
              if_cases (Kept {A = Unit {0}} (Fits c (counting c 0)))
                (not (validate_resources c m.resources)) _ _ (λ _. nothing _ s h)
                (λ _. submit_job-Fits _ env _ s h)))

  submit_yaml-Fits :
      (doc : Bytes) (env : List (Bytes × Bytes)) (refs : List (Bytes × SecretRef))
      (o : Option Bytes) (s : JobState)
      → At c (counting c 0) [] s
      → Kept (Fits c (counting c 0)) (submit_yaml c doc env refs o s)
  submit_yaml-Fits doc env refs none s h = nothing _ s h
  submit_yaml-Fits doc env refs (some name) s h = submit_job-Fits _ env _ s h

  submit_resolved-Fits :
      (doc : Bytes) (env : List (Bytes × Bytes)) (refs : List (Bytes × SecretRef))
      (full : Result (List (Bytes × Bytes))) (s : JobState)
      → At c (counting c 0) [] s
      → Kept (Fits c (counting c 0)) (submit_resolved c doc env refs full s)
  submit_resolved-Fits doc env refs (failed e) s h = nothing e s h
  submit_resolved-Fits doc env refs (ok full) s h =
      submit_yaml-Fits doc env refs (c.outside.compile doc full) s h

  submit_kind-Fits :
      (doc : Bytes) (env : List (Bytes × Bytes)) (refs : List (Bytes × SecretRef))
      (o : Option SdkManifest) (s : JobState)
      → At c (counting c 0) [] s
      → Kept (Fits c (counting c 0)) (submit_kind c doc env refs o s)
  submit_kind-Fits doc env refs (some m) s h = submit_sdk-Fits doc m env refs s h
  submit_kind-Fits doc env refs none s h =
      submit_resolved-Fits doc env refs (resolve_refs c s.calls refs (copy_env [] env)) s h

  submit-Fits :
      (doc : Bytes) (env : List (Bytes × Bytes)) (refs : List (Bytes × SecretRef)) (s : JobState)
      → At c (counting c 0) [] s
      → Kept (Fits c (counting c 0)) (submit c doc env refs s)
  unfolding submit
  submit-Fits doc env refs s h = submit_kind-Fits doc env _ (c.outside.parse_sdk_manifest doc) s h

  counting-Rests : Rests (counting c 0)
  counting-Rests = record { rests = λ ls j f. f; forgets = λ ls o f. f }

  -- Where every secret can be resolved at any time: after a job is submitted, and until a user submits or restarts
  -- it again, its container is launched at most as often as the restart policy has attempts, or once
  -- where it has none; whatever fails, and however many passes and new processes of the controller
  -- there are.
  pub launches_bounded :
      (doc : Bytes) (env : List (Bytes × Bytes)) (refs : List (Bytes × SecretRef))
      (qs : List Request)
      → All (λ q. asks_to_run q ≡ false) qs
      → length (serve_all c (ask_submit doc env refs ∷ qs) no_job_yet).launches ≤ limit c
  unfolding serve_all
  launches_bounded doc env refs qs a =
      let first = Post-state (submit-Fits doc env refs no_job_yet (refl, tt, omega arith)) in
      let fits =
        serve_all-Fits c (counting c 0) (counting-Launches c resolves) counting-Rests qs
          (submit c doc env refs no_job_yet).1 a first in
      omega (arith, fits.2)
