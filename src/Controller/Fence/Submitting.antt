-- ===== src/Controller/Fence/Submitting.antt =====
-- control/controller.go: a submission keeps the containers accounted for.
use weibo.Base.{not, Option, none, some, List, [], ◌∷◌, if_cases}
use weibo.State.{Bytes}
use weibo.Controller.{
  Controller, Job, SecretRef, SdkManifest, JobState, Result, ok, failed, tick, is_empty, Transition,
  constraint_failed,
}
use weibo.Controller.Store.{create_job, append_transition}
use weibo.Controller.Secrets.{resolve_refs, copy_env}
use weibo.Controller.Submissions.{
  set_secrets, submit_job, submit_sdk, submit_yaml, submit_resolved, submit_kind, submit,
  validate_resources,
}
use weibo.Controller.Outcomes.{on_ok, on_failed, Kept, Post-then, transact-Post, IfOk}
use weibo.Controller.Fence.{Safe}
use weibo.Controller.Fence.Launching.{start_run-Safe}

module _ (c : Controller) where
  create_job-Safe : (j : Job) (s : JobState) → Safe s → Kept Safe (create_job c j s)
  unfolding create_job
  create_job-Safe j s h = transact-Post c _ s h (created s.job)
    where
      created :
          (o : Option Job)
          → IfOk
              (λ s'. Safe (tick s'))
              (elim o [
                | none ↦ ok (record s { job = some j })
                | some old ↦ failed constraint_failed
              ])
      created none = h
      created (some old) = tt

  pub append-Safe : (t : Transition) (s : JobState) → Safe s → Kept Safe (append_transition c t s)
  unfolding append_transition
  append-Safe t s h = transact-Post c _ s h h

  secrets-Safe :
      (env : List (Bytes × Bytes)) (s : JobState) → Safe s → Kept Safe (set_secrets env s)
  secrets-Safe [] s h = on_ok tt s h
  secrets-Safe (e ∷ env) s h = on_ok tt (record s { secrets = copy_env [] (e ∷ env) }) h

  submit_job-Safe :
      (job : Job) (env : List (Bytes × Bytes)) (reason : Bytes) (s : JobState)
      → Safe s
      → Kept Safe (submit_job c job env reason s)
  submit_job-Safe job env reason s h =
      Post-then
        (Post-then (Post-then (create_job-Safe job s h) (λ _ s1 h1. secrets-Safe env s1 h1))
          (λ _ s2 h2. append-Safe _ s2 h2))
        (λ _ s3 h3. start_run-Safe c job _ _ s3 h3)

  submit_sdk-Safe :
      (doc : Bytes) (m : SdkManifest) (env : List (Bytes × Bytes)) (refs : List (Bytes × SecretRef))
      (s : JobState)
      → Safe s
      → Kept Safe (submit_sdk c doc m env refs s)
  submit_sdk-Safe doc m env refs s h =
      if_cases (Kept {A = Unit {0}} Safe) (is_empty m.name) _ _ (λ _. on_failed _ s h)
        (λ _.
          if_cases (Kept {A = Unit {0}} Safe) (is_empty m.image) _ _ (λ _. on_failed _ s h)
            (λ _.
              if_cases (Kept {A = Unit {0}} Safe) (not (validate_resources c m.resources)) _ _
                (λ _. on_failed _ s h) (λ _. submit_job-Safe _ env _ s h)))

  submit_yaml-Safe :
      (doc : Bytes) (env : List (Bytes × Bytes)) (refs : List (Bytes × SecretRef))
      (o : Option Bytes) (s : JobState)
      → Safe s
      → Kept Safe (submit_yaml c doc env refs o s)
  submit_yaml-Safe doc env refs none s h = on_failed _ s h
  submit_yaml-Safe doc env refs (some name) s h = submit_job-Safe _ env _ s h

  submit_resolved-Safe :
      (doc : Bytes) (env : List (Bytes × Bytes)) (refs : List (Bytes × SecretRef))
      (full : Result (List (Bytes × Bytes))) (s : JobState)
      → Safe s
      → Kept Safe (submit_resolved c doc env refs full s)
  submit_resolved-Safe doc env refs (failed e) s h = on_failed e s h
  submit_resolved-Safe doc env refs (ok full) s h =
      submit_yaml-Safe doc env refs (c.outside.compile doc full) s h

  submit_kind-Safe :
      (doc : Bytes) (env : List (Bytes × Bytes)) (refs : List (Bytes × SecretRef))
      (o : Option SdkManifest) (s : JobState)
      → Safe s
      → Kept Safe (submit_kind c doc env refs o s)
  submit_kind-Safe doc env refs (some m) s h = submit_sdk-Safe doc m env refs s h
  submit_kind-Safe doc env refs none s h =
      submit_resolved-Safe doc env refs (resolve_refs c s.calls refs (copy_env [] env)) s h

  pub submit-Safe :
      (doc : Bytes) (env : List (Bytes × Bytes)) (refs : List (Bytes × SecretRef)) (s : JobState)
      → Safe s
      → Kept Safe (submit c doc env refs s)
  unfolding submit
  submit-Safe doc env refs s h = submit_kind-Safe doc env _ (c.outside.parse_sdk_manifest doc) s h
