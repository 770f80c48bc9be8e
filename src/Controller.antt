-- ===== src/Controller.antt =====
-- control/controller.go, control/reconcile.go, control/store/sqlite.go: one job as the controller sees
-- it. Its rows in the store, its containers, and what the calls outside answer. Each
-- operation on a job is one step. `lockJob` makes it one, but for the writes of a submission before its launch, the
-- first `GetJob` of a cancel, a restart and a deletion, and a savepoint, which take no lock.
pub mod Store
pub mod Backend
pub mod Secrets
pub mod Endings
pub mod Launch
pub mod Reconcile
pub mod Submissions
pub mod Requests
pub mod Outcomes
pub mod Fence
pub mod Frame
pub mod Stopped
pub mod Attempts
use weibo.Base.{
  ℕ, ◌+◌, ◌≡◌, ◌≢◌, max, Bool, true, false, Option, none, some, List, [], ◌∷◌, length, bytes_eq,
  if◌then◌else◌,
}
use weibo.Base.Int.{ℤ}
use weibo.State.{Bytes}
use weibo.Lifecycle.{Phase, RestartPolicy}

pub data Desired : Type 0 where
  desired_running desired_stopped : Desired

pub data Kind : Type 0 where
  yaml sdk : Kind

pub record SecretRef : Type 0 where
  pub provider : Bytes
  pub name : Bytes
  pub key : Bytes

pub record Job : Type 0 where
  pub id : Bytes
  pub name : Bytes
  pub kind : Kind
  pub spec : Bytes
  pub image : Bytes
  pub secrets : List (Bytes × SecretRef)
  pub desired : Desired

pub data FailureKind : Type 0 where
  no_failure launch_transient launch_permanent launch_record : FailureKind
  secret_blocked container_unhealthy oom_killed : FailureKind

-- Times are nanoseconds; a run is active until it has a time at which it stopped.
pub record Run : Type 0 where
  pub id : Bytes
  pub container_id : Bytes
  pub host_port : ℤ
  pub phase : Phase
  pub attempt : ℤ
  pub error : Bytes
  pub failure_kind : FailureKind
  pub started : ℤ
  pub stopped : Option ℤ
  pub restart_at : Option ℤ

pub record Transition : Type 0 where
  pub run_id : Bytes
  pub from : Option Phase
  pub to : Phase
  pub reason : Bytes
  pub at : ℤ

pub data ContainerPhase : Type 0 where
  phase_pending phase_running phase_exited phase_gone phase_unhealthy : ContainerPhase

pub record Status : Type 0 where
  pub phase : ContainerPhase
  pub exit_code : ℤ
  pub oom_killed : Bool
  pub reason : Bytes
  pub host_port : ℤ
  pub address : Bytes

pub record ContainerStats : Type 0 where
  pub id : Bytes
  pub job_id : Bytes
  pub managed : Bool
  pub started_at : ℤ

pub record ResourceLimits : Type 0 where
  pub cpu : Bytes
  pub memory : Bytes
  pub ephemeral_storage : Bytes

pub record LaunchSpec : Type 0 where
  pub job_id : Bytes
  pub name : Bytes
  pub image : Bytes
  pub workflow_doc : Bytes
  pub env : List (Bytes × Bytes)
  pub restore_savepoint : Bytes
  pub resources : Option ResourceLimits

-- `classified` is what `IsPermanentLaunchFailure` says, where the error has that method.
pub record LaunchError : Type 0 where
  pub classified : Option Bool
  pub message : Bytes

pub data Launched : Type 0 where
  launched : Bytes → Launched
  refused : LaunchError → Launched

pub data Secret : Type 0 where
  secret : Bytes → Secret
  unresolved : Bytes → Secret

pub record SdkManifest : Type 0 where
  pub name : Bytes
  pub image : Bytes
  pub env : List (Bytes × Bytes)
  pub resources : Option ResourceLimits

-- The store's database, the container backend, the secret provider, the clock and other packages.
-- An answer depends on the number of the call. `format` is `Time.Format(time.RFC3339Nano)`.
pub record Outside : Type 0 where
  pub store_error : ℕ → Option Bytes
  pub launch : ℕ → LaunchSpec → Launched
  pub stop_error : ℕ → Bytes → Option Bytes
  pub remove_error : ℕ → Bytes → Option Bytes
  pub delete_data_error : ℕ → Option Bytes
  pub status : ℕ → Bytes → Option Status
  pub capacity : ℕ → Option (List ContainerStats)
  pub savepoint_accepted : ℕ → Bytes → Bytes → Bool
  pub resolve_secret : ℕ → SecretRef → Secret
  pub now : ℕ → ℤ
  pub new_id : ℕ → Bytes
  pub format : ℤ → Bytes
  pub to_lower : Bytes → Bytes
  pub parse_sdk_manifest : Bytes → Option SdkManifest
  pub parse_quantity : Bytes → Bool
  pub compile : Bytes → List (Bytes × Bytes) → Option Bytes
  -- The backend names the containers that it starts.
  pub launch-ne-nil :
      (n : ℕ) (spec : LaunchSpec) (id : Bytes) → launch n spec ≡ launched id → id ≢ []

pub record Controller : Type 0 where
  pub image : Bytes
  pub restart : RestartPolicy
  pub retention : ℤ
  pub outside : Outside

-- The rows of the job in the store, and its secrets in memory. `live` are the containers that were
-- launched for it and have not been stopped or removed, nor been seen exited or gone; but `orphans`
-- are those that could be neither recorded nor removed; one that a pass attaches to a run again stays an
-- orphan. `most_live` is the most that `live` ever held.
pub record JobState : Type 0 where
  pub job : Option Job
  pub runs : List Run
  pub transitions : List Transition
  pub secrets : List (Bytes × Bytes)
  pub live : List Bytes
  pub orphans : List Bytes
  pub most_live : ℕ
  pub launches : List LaunchSpec
  pub calls : ℕ

pub data Error : Type 0 where
  store_failed backend_failed secret_failed invalid : Bytes → Error
  not_found constraint_failed : Error
  already_active : Bytes → Error
  launch_failed : LaunchError → Error
  also : Error → Error → Error

pub data Result (A : Type 0) : Type 0 where
  ok : A → Result A
  failed : Error → Result A

-- An operation may fail and leave a changed state.
abbrev pub Operation : Type 0 → Type 0
Operation A = JobState → Result A × JobState

abbrev pub followed :
    {A B : Type 0}
    → Result A × JobState
    → (A → Operation B)
    → (Error → Operation B)
    → Result B × JobState
followed (ok a, s) f g = f a s
followed (failed e, s) f g = g e s

abbrev pub done : {A : Type 0} → A → Operation A
done a s = (ok a, s)

abbrev pub fail : {A : Type 0} → Error → Operation A
fail e s = (failed e, s)

-- `if err != nil { return err }`.
infixl 5 ◌>>=◌ ◌>>◌
abbrev pub ◌>>=◌ : {A B : Type 0} → Operation A → (A → Operation B) → Operation B
◌>>=◌ m f s = followed (m s) f fail

abbrev pub ◌>>◌ : {B : Type 0} → Operation (Unit {0}) → Operation B → Operation B
m >> k = m >>= λ _. k

-- Both outcomes are handled.
abbrev pub handle_both :
    {A B : Type 0} → Operation A → (A → Operation B) → (Error → Operation B) → Operation B
handle_both m f g s = followed (m s) f g

-- Best effort.
abbrev pub ignore : Operation (Unit {0}) → Operation (Unit {0})
ignore m = handle_both m (λ _. done tt) (λ _. done tt)

abbrev pub when : Bool → Operation (Unit {0}) → Operation (Unit {0})
when b m = if b then m else done tt

abbrev pub tick : JobState → JobState
tick s = record s { calls = s.calls + 1 }

-- A call that may be refused, and what it does if it is not.
abbrev pub unless_error :
    {A : Type 0}
    → (Bytes → Error)
    → Option Bytes
    → Result A × JobState
    → JobState
    → Result A × JobState
unless_error kind none r s = r
unless_error kind (some e) r s = (failed (kind e), s)

abbrev pub is_empty : Bytes → Bool
is_empty b = bytes_eq b []

abbrev pub without : Bytes → List Bytes → List Bytes
without id [] = []
without id (x ∷ xs) = let rest = without id xs in if bytes_eq x id then rest else x ∷ rest

-- A container runs no more.
abbrev pub ended : Bytes → JobState → JobState
ended id s = record s { live = without id s.live; orphans = without id s.orphans }
