-- ===== src/Controller/Stopped.antt =====
-- control/controller.go: a job that is to be stopped is not launched again by itself.
use weibo.Base.{◌≡◌, true, false, Option, none, some, List, [], ◌∷◌, All, refl}
use weibo.Controller.{Controller, desired_stopped, Job, JobState, LaunchSpec, Run}
use weibo.Controller.Reconcile.{wants_stop}
use weibo.Controller.Requests.{Request, serve_all}
use weibo.Controller.Frame.{Frame}
use weibo.Controller.Frame.Runs.{Launches}
use weibo.Controller.Frame.Serving.{Rests, asks_to_run, serve_all-Fits}

abbrev Resting : Option Job → Type 0
Resting none = Unit
Resting (some j) = wants_stop j.desired ≡ true

-- No launch after the given ones, and the job is to be stopped, or is gone.
abbrev no_more : List LaunchSpec → Frame
no_more ls = record {
  Row = λ ks r. Unit;
  Job_fits = λ ks o. (ks ≡ ls) × Resting o;
  follows = λ ks r q f w. tt;
}

no_more-Launches : (c : Controller) (ls : List LaunchSpec) → Launches c (no_more ls)
no_more-Launches c ls = record {
  again = λ ks job r s go more a w f h. absurd (cc (go, f.1));
  unblocked = λ ks job r s go b w f h. absurd (cc (go, f.1));
}

no_more-Rests : (ls : List LaunchSpec) → Rests (no_more ls)
no_more-Rests ls = record { rests = λ ks j f. (f.0, refl); forgets = λ ks o f. (f.0, tt) }

all_unit : (rs : List Run) → All (λ (r : Run). Unit {0}) rs
all_unit [] = tt
all_unit (r ∷ rs) = (tt, all_unit rs)

-- Once a job is to be stopped, no container is launched for it until a user submits or restarts it:
-- cancelling it, deleting it, taking a savepoint, any number of passes and a new process of the
-- controller never launch one, whatever the calls answer.
pub serve_all-Stopped :
    (c : Controller) (qs : List Request) (s : JobState) (job : Job)
    → s.job ≡ some job
    → job.desired ≡ desired_stopped
    → All (λ q. asks_to_run q ≡ false) qs
    → (serve_all c qs s).launches ≡ s.launches
serve_all-Stopped c qs s job e d a =
    let resting : Resting s.job = rw (e, d) refl in
    let fits =
      serve_all-Fits c (no_more s.launches) (no_more-Launches c s.launches)
        (no_more-Rests s.launches) qs s a (refl, all_unit s.runs, (refl, resting)) in
    fits.2.0
