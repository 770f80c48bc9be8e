-- ===== src/Controller/Backend.antt =====
-- control/backend/backend.go: the calls to the container backend, and control/launch_failure.go.
use weibo.Base.{
  ◌+◌, max, Bool, true, false, Option, none, some, List, [], ◌∷◌, ◌++◌, length, if◌then◌else◌,
  codes, ◌==◌, ◌||◌,
}
use weibo.State.{Bytes}
use weibo.Controller.{
  Controller, JobState, Operation, Result, ok, failed, backend_failed, launch_failed, LaunchSpec,
  LaunchError, Launched, launched, refused, Status, ContainerPhase, ContainerStats, phase_exited,
  phase_gone, tick, ended, unless_error,
}

abbrev pub has_ended : ContainerPhase → Bool
has_ended phase_exited = true
has_ended phase_gone = true
has_ended _ = false

-- A container that can neither be recorded nor removed is known to nobody.
abbrev pub abandoned : Bytes → JobState → JobState
abandoned id s = let gone = ended id s in record gone { orphans = id ∷ gone.orphans }

abbrev pub started_container : Bytes → LaunchSpec → JobState → JobState
started_container id spec s = record s {
  live = id ∷ s.live;
  most_live = max s.most_live (length (id ∷ s.live));
  launches = s.launches ++ spec ∷ [];
  calls = s.calls + 1;
}

abbrev pub seen : Bytes → Status → JobState → JobState
seen id st s = if has_ended st.phase then ended id s else s

abbrev pub launch_answer : LaunchSpec → JobState → Launched → Result Bytes × JobState
launch_answer spec s (launched id) = (ok id, started_container id spec s)
launch_answer spec s (refused e) =
    (failed (launch_failed e), tick (record s { launches = s.launches ++ spec ∷ [] }))

abbrev pub status_answer : Bytes → JobState → Option Status → Result Status × JobState
status_answer id s none = (failed (backend_failed []), tick s)
status_answer id s (some st) = (ok st, tick (seen id st s))

abbrev pub capacity_answer :
    JobState → Option (List ContainerStats) → Result (List ContainerStats) × JobState
capacity_answer s none = (failed (backend_failed []), tick s)
capacity_answer s (some stats) = (ok stats, tick s)

abbrev pub starts_with : Bytes → Bytes → Bool
starts_with [] text = true
starts_with (m ∷ ms) [] = false
starts_with (m ∷ ms) (t ∷ ts) = let rest = starts_with ms ts in if m == t then rest else false

-- `strings.Contains`.
abbrev pub contains_text : Bytes → Bytes → Bool
contains_text marker [] = starts_with marker []
contains_text marker (t ∷ ts) = starts_with marker (t ∷ ts) || contains_text marker ts

abbrev pub contains_any : List Bytes → Bytes → Bool
contains_any [] text = false
contains_any (m ∷ ms) text = contains_text m text || contains_any ms text

abbrev pub permanent_markers : List Bytes
permanent_markers =
    codes "invalid reference format"
    ∷ codes "pull access denied"
    ∷ codes "repository does not exist"
    ∷ codes "manifest unknown"
    ∷ codes "not found: manifest"
    ∷ codes "no such image"
    ∷ []

-- `err == nil` does not occur: the caller has an error.
pub data LaunchFailure : Type 0 where
  permanent transient : LaunchFailure

abbrev pub permanent_if : Bool → LaunchFailure
permanent_if true = permanent
permanent_if false = transient

abbrev pub kind_of : Option Bool → Bytes → LaunchFailure
kind_of (some b) text = permanent_if b
kind_of none text = permanent_if (contains_any permanent_markers text)

module _ (c : Controller) where
  open c.outside use {
    launch, stop_error, remove_error, delete_data_error, status, capacity, to_lower,
  }

  unfoldable pub launch_failure_kind : LaunchError → LaunchFailure
  launch_failure_kind e = kind_of e.classified (to_lower e.message)

  unfoldable pub launch_container : LaunchSpec → Operation Bytes
  launch_container spec s = launch_answer spec s (launch s.calls spec)

  unfoldable pub stop_container : Bytes → Operation (Unit {0})
  stop_container id s =
      unless_error backend_failed (stop_error s.calls id) (ok tt, tick (ended id s)) (tick s)

  unfoldable pub remove_container : Bytes → Operation (Unit {0})
  remove_container id s =
      unless_error backend_failed (remove_error s.calls id) (ok tt, tick (ended id s)) (tick s)

  -- The removal of a container that could not be recorded.
  unfoldable pub remove_launched : Bytes → Operation (Unit {0})
  remove_launched id s =
      unless_error backend_failed (remove_error s.calls id) (ok tt, tick (ended id s))
        (tick (abandoned id s))

  unfoldable pub delete_job_data : Operation (Unit {0})
  delete_job_data s =
      unless_error backend_failed (delete_data_error s.calls) (ok tt, tick s) (tick s)

  unfoldable pub container_status : Bytes → Operation Status
  container_status id s = status_answer id s (status s.calls id)

  unfoldable pub containers : Operation (List ContainerStats)
  containers s = capacity_answer s (capacity s.calls)
