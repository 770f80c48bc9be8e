-- ===== src/Controller/Fence/Calls.antt =====
-- control/backend/backend.go, control/store/sqlite.go: what a call leaves of the containers of a job.
use weibo.Base.{
  ◌≡◌, ◌≢◌, ◌≤◌, ◌⊎◌, inl, inr, true, false, Option, none, some, Option-cases, List, [], ◌∷◌, arith,
  sym, if_cases, bytes_eq, bytes_eq_iff, ap, subst, refl,
}
use weibo.State.{Bytes}
use weibo.Controller.{
  Controller, Run, JobState, tick, ended, without, Status, Launched, launched, refused, LaunchSpec,
}
use weibo.Controller.Store.{is_active, count_active}
use weibo.Controller.Backend.{
  stop_container, remove_container, remove_launched, container_status, containers, has_ended, seen,
  started_container, launch_container, status_answer, launch_answer,
}
use weibo.Controller.Outcomes.{Post, on_ok, on_failed, Kept, unless_error-Post}
use weibo.Controller.Fence.{
  Safe, Idle, Fresh, Tied, Idle-Tied, Watching, Watches, Held, Stored, watched,
}
use weibo.Controller.Fence.Rows.{Watches-active}

without_none : (id : Bytes) (ids : List Bytes) → ids ≡ [] → without id ids ≡ []
without_none id ids e = rw e

without_self : (id : Bytes) → without id (id ∷ []) ≡ []
without_self id = rw ((bytes_eq_iff id id).1 refl)

-- What has ended is no more live.
pub ended-Idle : (id : Bytes) (s : JobState) → Idle s → Idle (ended id s)
ended-Idle id s (one, most, none_live) = (one, most, without_none id s.live none_live)

pub ended-Tied : (r : Run) (s : JobState) → Tied r s → Idle (ended r.container_id s)
ended-Tied r s (one, most, inl none_live) =
    (one, most, without_none r.container_id s.live none_live)
ended-Tied r s (one, most, inr (w, one_live, held)) =
    (one, most, rw one_live (without_self r.container_id))

Held-without :
    (id : Bytes) (ids : List Bytes) (runs : List Run) → Held ids runs → Held (without id ids) runs
Held-without id [] runs h = h
Held-without id (x ∷ []) runs h =
    if_cases (λ ids. Held ids runs) (bytes_eq x id) _ _ (λ _. tt) (λ _. h)
Held-without id (x ∷ y ∷ ids) runs h = absurd h

pub ended-Safe : (id : Bytes) (s : JobState) → Safe s → Safe (ended id s)
ended-Safe id s (one, most, held) = (one, most, Held-without id s.live s.runs held)

-- An active run of the store is the one with the live container, if there is one.
Held-Tied :
    (r : Run) (ids : List Bytes) (runs : List Run)
    → count_active runs ≤ 1
    → is_active r ≡ true
    → Stored r runs
    → Held ids runs
    → (ids ≡ []) ⊎ (Watching r × (ids ≡ r.container_id ∷ []) × Watches r.container_id runs)
Held-Tied r [] runs one a m h = inl refl
Held-Tied r (id ∷ []) runs one a m h =
    let w = Watches-active id r runs one a m h in
    inr (
      w.0,
      ap (λ (x : Bytes). x ∷ []) (sym (w.1)),
      subst (λ (x : Bytes). Watches x runs) (sym (w.1)) h,
    )
Held-Tied r (id ∷ j ∷ ids) runs one a m h = absurd h

pub Safe-Tied : (r : Run) (s : JobState) → is_active r ≡ true → Stored r s.runs → Safe s → Tied r s
Safe-Tied r s a m (one, most, held) = (one, most, Held-Tied r s.live s.runs one a m held)

-- In one of the other phases a run has no live container.
pub Tied-unwatched : (r : Run) (s : JobState) → watched r.phase ≡ false → Tied r s → Idle s
Tied-unwatched r s u (one, most, inl none_live) = (one, most, none_live)
Tied-unwatched r s u (one, most, inr (w, one_live, held)) = absurd (cc (u, w.1))

pub Tied-unnamed : (r : Run) (s : JobState) → r.container_id ≡ [] → Tied r s → Idle s
Tied-unnamed r s u (one, most, inl none_live) = (one, most, none_live)
Tied-unnamed r s u (one, most, inr (w, one_live, held)) = absurd (w.2 u)

pub Idle-Fresh : (id : Bytes) (s : JobState) → Idle s → Fresh id s
Idle-Fresh id s (one, most, none_live) = (one, most, inl none_live)

pub ended-Fresh : (id : Bytes) (s : JobState) → Fresh id s → Idle (ended id s)
ended-Fresh id s (one, most, inl none_live) = (one, most, without_none id s.live none_live)
ended-Fresh id s (one, most, inr live) = (one, most, rw live (without_self id))

pub ended-Fresh_any : (x id : Bytes) (s : JobState) → Fresh id s → Fresh id (ended x s)
ended-Fresh_any x id s (one, most, inl none_live) =
    (one, most, inl (without_none x s.live none_live))
ended-Fresh_any x id s (one, most, inr live) = (
  one,
  most,
  rw live (
      if_cases (λ (ids : List Bytes). (ids ≡ []) ⊎ (ids ≡ id ∷ [])) (bytes_eq id x) _ _
        (λ _. inl refl) (λ _. inr refl)),
)

module _ (c : Controller) where
  pub stop-Tied :
      (r : Run) (s : JobState)
      → Tied r s
      → Post (λ _. Idle) (Tied r) (stop_container c r.container_id s)
  unfolding stop_container
  stop-Tied r s t =
      unless_error-Post _ _ _ _ t (on_ok tt (tick (ended r.container_id s)) (ended-Tied r s t))

  pub stop-Safe : (id : Bytes) (s : JobState) → Safe s → Kept Safe (stop_container c id s)
  unfolding stop_container
  stop-Safe id s h = unless_error-Post _ _ _ _ h (on_ok tt (tick (ended id s)) (ended-Safe id s h))

  pub remove-Safe : (id : Bytes) (s : JobState) → Safe s → Kept Safe (remove_container c id s)
  unfolding remove_container
  remove-Safe id s h =
      unless_error-Post _ _ _ _ h (on_ok tt (tick (ended id s)) (ended-Safe id s h))

  pub remove-Idle : (id : Bytes) (s : JobState) → Idle s → Kept Idle (remove_container c id s)
  unfolding remove_container
  remove-Idle id s h =
      unless_error-Post _ _ _ _ h (on_ok tt (tick (ended id s)) (ended-Idle id s h))

  pub remove_launched-Idle :
      (id : Bytes) (s : JobState) → Fresh id s → Kept Idle (remove_launched c id s)
  unfolding remove_launched
  remove_launched-Idle id s f =
      unless_error-Post _ _ _ _ (ended-Fresh id s f) (on_ok tt _ (ended-Fresh id s f))

  launched-Fresh :
      (id : Bytes) (spec : LaunchSpec) (s : JobState)
      → Idle s
      → Fresh id (started_container id spec s)
  launched-Fresh id spec s (one, most, none_live) =
      (one, rw none_live (ground arith), inr (ap (λ (ids : List Bytes). id ∷ ids) none_live))

  answered_launch :
      (spec : LaunchSpec) (s : JobState) (l : Launched)
      → Idle s
      → c.outside.launch s.calls spec ≡ l
      → Post (λ id s'. Fresh id s' × (id ≢ [])) Idle (launch_answer spec s l)
  answered_launch spec s (launched id) i e =
      on_ok id _ (launched-Fresh id spec s i, c.outside.launch-ne-nil s.calls spec id e)
  answered_launch spec s (refused err) i e = on_failed _ _ i

  -- Where no container is live, the new one is the only one.
  pub launch-Fresh :
      (spec : LaunchSpec) (s : JobState)
      → Idle s
      → Post (λ id s'. Fresh id s' × (id ≢ [])) Idle (launch_container c spec s)
  unfolding launch_container
  launch-Fresh spec s i = answered_launch spec s (c.outside.launch s.calls spec) i refl

  pub status-Fresh :
      (id : Bytes) (s : JobState) → Fresh id s → Kept (Fresh id) (container_status c id s)
  unfolding container_status
  status-Fresh id s f = by_answer (c.outside.status s.calls id)
    where
      by_answer : (o : Option Status) → Kept (Fresh id) (status_answer id s o)
      by_answer none = on_failed _ (tick s) f
      by_answer (some st) = on_ok st _ (
          if_cases (Fresh id) (has_ended st.phase) (ended id s) s
            (λ _. Idle-Fresh id (ended id s) (ended-Fresh id s f)) (λ _. f))

  seen-Tied : (r : Run) (st : Status) (s : JobState) → Tied r s → Tied r (seen r.container_id st s)
  seen-Tied r st s t =
      if_cases (Tied r) (has_ended st.phase) _ _
        (λ _. Idle-Tied r (ended r.container_id s) (ended-Tied r s t)) (λ _. t)

  seen-Idle :
      (r : Run) (st : Status) (s : JobState)
      → Tied r s
      → has_ended st.phase ≡ true
      → Idle (seen r.container_id st s)
  seen-Idle r st s t e = rw e (ended-Tied r s t)

  -- A container that is seen exited or gone is live no more.
  pub status-Tied :
      (r : Run) (s : JobState)
      → Tied r s
      → Post
          (λ st s'. Tied r s' × (has_ended st.phase ≡ true → Idle s'))
          (Tied r)
          (container_status c r.container_id s)
  unfolding container_status
  status-Tied r s t = by_answer (c.outside.status s.calls r.container_id)
    where
      by_answer :
          (o : Option Status)
          → Post
              (λ st s'. Tied r s' × (has_ended st.phase ≡ true → Idle s'))
              (Tied r)
              (status_answer r.container_id s o)
      by_answer none = on_failed _ (tick s) t
      by_answer (some st) = on_ok st _ (seen-Tied r st s t, seen-Idle r st s t)

  pub status-Idle : (id : Bytes) (s : JobState) → Idle s → Kept Idle (container_status c id s)
  unfolding container_status
  status-Idle id s i = by_answer (c.outside.status s.calls id)
    where
      by_answer : (o : Option Status) → Kept Idle (status_answer id s o)
      by_answer none = on_failed _ (tick s) i
      by_answer (some st) =
          on_ok st _ (if_cases Idle (has_ended st.phase) _ _ (λ _. ended-Idle id s i) (λ _. i))

  pub status-Safe : (id : Bytes) (s : JobState) → Safe s → Kept Safe (container_status c id s)
  unfolding container_status
  status-Safe id s i = by_answer (c.outside.status s.calls id)
    where
      by_answer : (o : Option Status) → Kept Safe (status_answer id s o)
      by_answer none = on_failed _ (tick s) i
      by_answer (some st) =
          on_ok st _ (if_cases Safe (has_ended st.phase) _ _ (λ _. ended-Safe id s i) (λ _. i))

  pub containers-Idle : (s : JobState) → Idle s → Kept Idle (containers c s)
  unfolding containers
  containers-Idle s i = elim (Option-cases (c.outside.capacity s.calls)) [
    | inl e ↦ rw e (on_failed _ (tick s) i)
    | inr (stats, e) ↦ rw e (on_ok stats (tick s) i)
  ]
