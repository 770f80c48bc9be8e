-- ===== src/Controller/Secrets.antt =====
-- control/secrets.go, control/controller.go: the environment of a launch.
use weibo.Base.{ℕ, Option, none, some, List, [], ◌∷◌, codes}
use weibo.Base.Maps.{get, put}
use weibo.State.{Bytes, bytes_key}
use weibo.Controller.{
  Controller, Job, SecretRef, JobState, Result, ok, secret_failed, Secret, secret, unresolved,
}

-- `maps.Copy`.
abbrev pub copy_env : List (Bytes × Bytes) → List (Bytes × Bytes) → List (Bytes × Bytes)
copy_env out [] = out
copy_env out ((k, v) ∷ env) = copy_env (put k v out) env

abbrev pub merge_env : List (Bytes × Bytes) → List (Bytes × Bytes) → List (Bytes × Bytes)
merge_env [] override = override
merge_env (e ∷ base) override = copy_env (copy_env [] (e ∷ base)) override

abbrev pub resolved : Bytes → Secret → List (Bytes × Bytes) → Result (List (Bytes × Bytes))
resolved key (secret value) env = ok (put key value env)
resolved key (unresolved e) env = Result.failed (secret_failed e)

abbrev pub resolve_ref :
    (List (Bytes × Bytes) → Result (List (Bytes × Bytes)))
    → List (Bytes × Bytes)
    → Option Bytes
    → Result (List (Bytes × Bytes))
    → Result (List (Bytes × Bytes))
resolve_ref rest env (some v) found = rest env
resolve_ref rest env none (ok env') = rest env'
resolve_ref rest env none (Result.failed e) = Result.failed e

module _ (c : Controller) where
  open c use {image, restart, retention}
  open c.outside use {now, new_id, resolve_secret, parse_sdk_manifest}

  -- The references that the environment does not have yet.
  abbrev pub resolve_refs :
      ℕ → List (Bytes × SecretRef) → List (Bytes × Bytes) → Result (List (Bytes × Bytes))
  resolve_refs n [] env = ok env
  resolve_refs n ((key, ref) ∷ refs) env =
      resolve_ref (resolve_refs n refs) env (get key env) (resolved key (resolve_secret n ref) env)

  unfoldable pub launch_env : Job → JobState → Result (List (Bytes × Bytes))
  launch_env job s =
      resolve_refs s.calls job.secrets (copy_env ((codes "WEIBO_JOB_ID", job.id) ∷ []) s.secrets)
