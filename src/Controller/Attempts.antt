-- ===== src/Controller/Attempts.antt =====
-- control/reconcile.go: how often a job that keeps failing is launched.
pub mod Launching
pub mod Submitting
use weibo.Base.{
  ℕ, ◌+◌, ◌≡◌, ◌≢◌, ◌≤◌, ◌<◌, max, inl, inr, subst, sym, ap, Bool, true, false, not, Option, none,
  some, List, [], ◌∷◌, ◌++◌, All, if_cases, if◌then◌else◌, refl, bytes_eq, ◌&&◌, ◌||◌, length,
  length-append, arith, ltb, Option-cases, Bool-cases,
}
use weibo.Base.Int.{ℤ, pos, pos_part, ◌+ℤ◌, ◌≤ℤ◌, ◌<ℤ◌, ltb_ℤ, int_laws, ltb_ℤ→lt, ltb_ℤ→le}
use weibo.Base.Maps.{get, put}
use weibo.State.{Bytes, bytes_key}
use weibo.Lifecycle.{Phase, starting, running, blocked, should_restart, RestartPolicy}
use weibo.Positions.{bytes_ltb}
use weibo.Controller.{
  Controller, Job, Run, Transition, JobState, Operation, Result, ok, failed, Error, launch_failed,
  tick, ended, LaunchSpec, Launched, launched, refused, LaunchError, Secret, secret, unresolved,
  SecretRef, followed, fail,
}
use weibo.Controller.Store.{
  is_active, list_runs, newest_first, insert_newest, started_text, create_run_with_transition,
}
use weibo.Controller.Backend.{
  launch_container, launch_answer, started_container, remove_launched, abandoned,
  launch_failure_kind,
}
use weibo.Controller.Launch.{
  start_run, unless_active, begin_run, launch_in, launch_spec, first_active, new_run, record_launch,
  record_run, unrecorded, mark_launch_record_failure, launch_refused, fail_run, retries,
  with_launch_error,
}
use weibo.Controller.Endings.{schedule_restart_from}
use weibo.Controller.Secrets.{launch_env, resolve_refs, resolve_ref, resolved, copy_env}
use weibo.Controller.Reconcile.{wants_stop}
use weibo.Controller.Requests.{Request, ask_submit, serve, serve_all, no_job_yet}
use weibo.Controller.Submissions.{submit}
use weibo.Controller.Outcomes.{
  Post, on_ok, on_failed, Kept, Does, Post-followed, Post-then, Post-returns, Post-weaken,
  Post-state, query-Post, transact-Post, unless_error-Post, inserted-IfOk,
}
use weibo.Controller.Frame.{
  Follows, Frame, At, Fits, At-Fits, Kept-Fits, update-At, update_with-At, status-At,
}
use weibo.Controller.Frame.Runs.{Launches}
use weibo.Controller.Frame.Serving.{Rests, asks_to_run, serve_all-Fits}

-- The most attempts that the policy makes, and the one that a submission makes in any case.
abbrev pub limit : Controller → ℕ
limit c = max 1 (pos_part c.restart.max_attempts)

-- An active run has an attempt that is `more` above the launches so far; none is blocked.
abbrev pub Counts : ℕ → List LaunchSpec → Run → Type 0
Counts more ls r = (is_active r ≡ true → pos (more + length ls) ≤ℤ r.attempt) × (r.phase ≢ blocked)

pub Counts-Follows :
    (more : ℕ) (ls : List LaunchSpec) (r q : Run)
    → Follows r q
    → Counts more ls r
    → Counts more ls q
Counts-Follows more ls r q f w = (
  λ a. subst (λ (n : ℤ). pos (more + length ls) ≤ℤ n) (sym f.attempt) (w.0 (f.active a)),
  λ b. w.1 (f.unblocked b),
)

abbrev pub counting : Controller → ℕ → Frame
counting c more = record {
  Row = Counts more;
  Job_fits = λ ls o. more + length ls ≤ limit c;
  follows = Counts-Follows more;
}

-- A secret that can be had.
abbrev pub Resolves : Secret → Type 0
Resolves (secret v) = Unit
Resolves (unresolved e) = ⊥

abbrev pub IsOk : {A : Type 0} → Result A → Type 0
IsOk (ok a) = Unit
IsOk (failed e) = ⊥

pub resolved-IsOk :
    (key : Bytes) (v : Secret) (env : List (Bytes × Bytes)) → Resolves v → IsOk (resolved key v env)
resolved-IsOk key (secret v) env h = tt
resolved-IsOk key (unresolved e) env h = h

pub resolve_ref-IsOk :
    (rest : List (Bytes × Bytes) → Result (List (Bytes × Bytes))) (env : List (Bytes × Bytes))
    (o : Option Bytes) (next : Result (List (Bytes × Bytes)))
    → ((e : List (Bytes × Bytes)) → IsOk (rest e))
    → IsOk next
    → IsOk (resolve_ref rest env o next)
resolve_ref-IsOk rest env (some v) next f n = f env
resolve_ref-IsOk rest env none (ok env') f n = f env'
resolve_ref-IsOk rest env none (failed e) f n = n

-- Where no run is active, in the order of the rows.
abbrev pub Inactive : Run → Type 0
Inactive r = is_active r ≡ false

pub first_active-none : (rs : List Run) → first_active rs ≡ none → All Inactive rs
first_active-none [] e = tt
first_active-none (r ∷ rs) e = elim (Bool-cases (is_active r)) [
  | inl a ↦ absurd (cc (rw a at e))
  | inr a ↦ (a, first_active-none rs (rw a at e))
]

module _ (P : Run → Type 0) (text : Run → Bytes) where
  uninserted : (r : Run) (rs : List Run) → All P (insert_newest text r rs) → P r × All P rs
  uninserted r [] = λ h. h
  uninserted r (x ∷ xs) =
      if_cases (λ ys. All P ys → P r × All P (x ∷ xs)) (bytes_ltb (text r) (text x))
        (x ∷ insert_newest text r xs) (r ∷ x ∷ xs)
        (λ _ h. let rest = uninserted r xs h.1 in (rest.0, (h.0, rest.1))) (λ _ h. h)

  pub unsorted : (rs : List Run) → All P (newest_first text rs) → All P rs
  unsorted [] h = tt
  unsorted (r ∷ rs) h =
      let here = uninserted r (newest_first text rs) h in (here.0, unsorted rs here.1)

-- Rows without an active run have room for any number of launches.
pub Inactive-Counts :
    (more k : ℕ) (ls ks : List LaunchSpec) (rs : List Run)
    → All Inactive rs
    → All (Counts more ls) rs
    → All (Counts k ks) rs
Inactive-Counts more k ls ks [] a h = tt
Inactive-Counts more k ls ks (r ∷ rs) a h =
    (((λ b. absurd (cc (a.0, b))), h.0.1), Inactive-Counts more k ls ks rs a.1 h.1)

-- After one launch more.
pub Counts-next :
    (ls : List LaunchSpec) (spec : LaunchSpec) (r : Run)
    → Counts 1 ls r
    → Counts 0 (ls ++ spec ∷ []) r
Counts-next ls spec r w =
    ((λ a. let h = w.0 a in omega (arith, h, length-append ls (spec ∷ []))), w.1)

pub Counts-snoc :
    (ls : List LaunchSpec) (spec : LaunchSpec) (rs : List Run)
    → All (Counts 1 ls) rs
    → All (Counts 0 (ls ++ spec ∷ [])) rs
Counts-snoc ls spec [] h = tt
Counts-snoc ls spec (r ∷ rs) h = (Counts-next ls spec r h.0, Counts-snoc ls spec rs h.1)

pub should_restart-lt :
    (p : RestartPolicy) (phase : Phase) (attempt : ℤ)
    → should_restart p phase attempt ≡ true
    → attempt <ℤ p.max_attempts
unfolding should_restart
should_restart-lt p phase attempt e = ltb_ℤ→lt attempt p.max_attempts (ground arith)
