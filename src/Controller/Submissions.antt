-- ===== src/Controller/Submissions.antt =====
-- control/controller.go, control/secrets.go: a job is submitted.
use weibo.Base.{
  Bool, true, not, Option, none, some, List, [], ◌∷◌, if◌then◌else◌, codes, ◌&&◌, ◌||◌,
}
use weibo.Base.Int.{pos}
use weibo.Base.Maps.{put}
use weibo.State.{Bytes, bytes_key}
use weibo.Lifecycle.{submitted}
use weibo.Controller.{
  Controller, desired_running, yaml, sdk, Job, SecretRef, SdkManifest, ResourceLimits, Operation,
  Result, ok, invalid, fail, ◌>>◌, is_empty,
}
use weibo.Controller.Store.{create_job, append_transition}
use weibo.Controller.Launch.{start_run}
use weibo.Controller.Secrets.{copy_env, resolve_refs}

abbrev pub secret_refs_from_env : List (Bytes × Bytes) → List (Bytes × SecretRef)
secret_refs_from_env [] = []
secret_refs_from_env ((key, v) ∷ env) =
    (key, record { provider = codes "env"; name = key; key = [] }) ∷ secret_refs_from_env env

abbrev pub merge_secret_refs :
    List (Bytes × SecretRef) → List (Bytes × SecretRef) → List (Bytes × SecretRef)
merge_secret_refs out [] = out
merge_secret_refs out ((k, v) ∷ override) = merge_secret_refs (put k v out) override

abbrev pub set_secrets : List (Bytes × Bytes) → Operation (Unit {0})
set_secrets [] s = (ok tt, s)
set_secrets (e ∷ env) s = (ok tt, record s { secrets = copy_env [] (e ∷ env) })

module _ (c : Controller) where
  open c.outside use {now, new_id, savepoint_accepted, parse_sdk_manifest, parse_quantity, compile}

  abbrev pub valid_quantity : Bytes → Bool
  valid_quantity q = is_empty q || parse_quantity q

  abbrev pub validate_resources : Option ResourceLimits → Bool
  validate_resources none = true
  validate_resources (some r) =
      valid_quantity r.cpu && (valid_quantity r.memory && valid_quantity r.ephemeral_storage)

  -- The first record of the job names no run and no earlier phase.
  abbrev pub submit_job : Job → List (Bytes × Bytes) → Bytes → Operation (Unit {0})
  submit_job job env reason s =
      (create_job c job
          >> set_secrets env
          >> (λ s'.
              append_transition c
                (record {
                  run_id = [];
                  from = none;
                  to = submitted;
                  reason = reason;
                  at = now s'.calls;
                })
                s')
          >> start_run c job (pos 1) [])
        s

  abbrev pub submit_sdk :
      Bytes → SdkManifest → List (Bytes × Bytes) → List (Bytes × SecretRef) → Operation (Unit {0})
  submit_sdk doc m env refs s =
      if is_empty m.name
      then fail (invalid (codes "submit: sdk manifest missing 'name'")) s
      else if is_empty m.image
      then fail (invalid (codes "submit: sdk manifest missing 'image'")) s
      else if not (validate_resources m.resources)
      then fail (invalid (codes "submit: invalid resources")) s
      else submit_job
          (record {
            id = new_id s.calls;
            name = m.name;
            kind = sdk;
            spec = doc;
            image = m.image;
            secrets = refs;
            desired = desired_running;
          })
          env (codes "submitted (sdk)") s

  abbrev pub submit_yaml :
      Bytes → List (Bytes × Bytes) → List (Bytes × SecretRef) → Option Bytes → Operation (Unit {0})
  submit_yaml doc env refs none s = fail (invalid (codes "submit: invalid workflow")) s
  submit_yaml doc env refs (some name) s =
      submit_job
        (record {
          id = new_id s.calls;
          name = name;
          kind = yaml;
          spec = doc;
          image = [];
          secrets = refs;
          desired = desired_running;
        })
        env (codes "submitted") s

  abbrev pub submit_resolved :
      Bytes
      → List (Bytes × Bytes)
      → List (Bytes × SecretRef)
      → Result (List (Bytes × Bytes))
      → Operation (Unit {0})
  submit_resolved doc env refs (Result.failed e) = fail e
  submit_resolved doc env refs (ok full) = submit_yaml doc env refs (compile doc full)

  abbrev pub submit_kind :
      Bytes
      → List (Bytes × Bytes)
      → List (Bytes × SecretRef)
      → Option SdkManifest
      → Operation (Unit {0})
  submit_kind doc env refs (some m) s = submit_sdk doc m env refs s
  submit_kind doc env refs none s =
      submit_resolved doc env refs (resolve_refs c s.calls refs (copy_env [] env)) s

  unfoldable pub submit :
      Bytes → List (Bytes × Bytes) → List (Bytes × SecretRef) → Operation (Unit {0})
  submit doc env refs =
      submit_kind doc env (merge_secret_refs (merge_secret_refs [] (secret_refs_from_env env)) refs)
        (parse_sdk_manifest doc)
