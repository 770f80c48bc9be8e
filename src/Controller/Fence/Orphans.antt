-- ===== src/Controller/Fence/Orphans.antt =====
-- control/controller.go, `DeleteWithOptions`: it makes no orphan.
use mathlib.Core.List.{Memᴰ}
use weibo.Base.{Bool, Option, none, some, List, [], ◌∷◌, if_cases, bytes_eq}
use weibo.State.{Bytes}
use weibo.Controller.{
  Controller, Job, Run, JobState, Operation, ok, Error, tick, is_empty, when, ended, without,
}
use weibo.Controller.Store.{is_active, delete_job, with_job}
use weibo.Controller.Backend.{stop_container, remove_container, delete_job_data}
use weibo.Controller.Requests.{
  delete_container, delete_containers, delete_rows, delete_with_options,
}
use weibo.Controller.Outcomes.{
  on_ok, on_failed, Kept, Does, Post-then, transact-Post, IfOk, unless_error-Post,
}
use weibo.Controller.Fence.Deleting.{or_error-Post, stop-Post, remove-Post}
use weibo.Controller.Fence.Launching.{list_runs-Post}
use weibo.Controller.Fence.Passing.{get_job-Kept}

-- Each of the containers is one of the others.
abbrev pub Among : List Bytes → List Bytes → Type 0
Among ids others = (id : Bytes) → Memᴰ id ids → Memᴰ id others

without-Among : (gone : Bytes) (ids : List Bytes) → Among (without gone ids) ids
without-Among gone [] id m = m
without-Among gone (x ∷ ids) id m =
    if_cases (λ (l : List Bytes). Memᴰ id l → Memᴰ id (x ∷ ids)) (bytes_eq x gone)
      (without gone ids) (x ∷ without gone ids) (λ _ m'. Memᴰ.tail (without-Among gone ids id m'))
      (λ _ m'. in_longer (without-Among gone ids id) m') m
  where
    in_longer :
        (Memᴰ id (without gone ids) → Memᴰ id ids)
        → Memᴰ id (x ∷ without gone ids)
        → Memᴰ id (x ∷ ids)
    in_longer rest (Memᴰ.head e) = Memᴰ.head e
    in_longer rest (Memᴰ.tail m') = Memᴰ.tail (rest m')

module _ (c : Controller) (kept : List Bytes) where
  abbrev NoneNew : JobState → Type 0
  NoneNew s = Among s.orphans kept

  ended-NoneNew : (id : Bytes) (s : JobState) → NoneNew s → NoneNew (tick (ended id s))
  ended-NoneNew id s h other m = h other (without-Among id s.orphans other m)

  container-NoneNew :
      (errs : List Error) (r : Run) (s : JobState)
      → NoneNew s
      → Kept NoneNew (delete_container c errs r s)
  unfolding delete_container
  container-NoneNew errs r s h =
      if_cases (λ (m : Operation (List Error)). Kept NoneNew (m s)) (is_empty r.container_id) _ _
        (λ _. on_ok errs s h)
        (λ _.
          Post-then
            (or_error-Post {P = NoneNew} {Q = λ _. NoneNew} errs
              (when (is_active r) (stop_container c r.container_id)) s
              (if_cases (λ (m : Operation (Unit {0})). Kept NoneNew (m s)) (is_active r) _ _
                (λ _. stop-Post c r.container_id s h (ended-NoneNew r.container_id s h))
                (λ _. on_ok tt s h))
              (λ e s' g. g))
            (λ es s' g.
              or_error-Post {P = NoneNew} es (remove_container c r.container_id) s'
                (remove-Post c r.container_id s' g (ended-NoneNew r.container_id s' g))
                (λ e s'' k. k)))

  containers-NoneNew :
      (rs : List Run) (errs : List Error) (s : JobState)
      → NoneNew s
      → Kept NoneNew (delete_containers c errs rs s)
  unfolding delete_containers
  containers-NoneNew [] errs s h = on_ok errs s h
  containers-NoneNew (r ∷ rs) errs s h =
      Post-then (container-NoneNew errs r s h) (λ es s' g. containers-NoneNew rs es s' g)

  data-NoneNew : (s : JobState) → NoneNew s → Kept NoneNew (delete_job_data c s)
  unfolding delete_job_data
  data-NoneNew s h = unless_error-Post _ _ _ _ h (on_ok tt (tick s) h)

  job-NoneNew : (s : JobState) → NoneNew s → Kept NoneNew (delete_job c s)
  unfolding delete_job
  job-NoneNew s h = Post-then (transact-Post c {Q = λ _. NoneNew} {E = NoneNew} _ s h h) (λ _ s1 h1.
      Post-then (transact-Post c {Q = λ _. NoneNew} {E = NoneNew} _ s1 h1 h1)
        (λ _ s2 h2. transact-Post c _ s2 h2 (dropped s2 h2 s2.job)))
    where
      dropped :
          (s' : JobState)
          → NoneNew s'
          → (o : Option Job)
          → IfOk (λ s''. NoneNew (tick s'')) (with_job (λ j. record s' { job = none }) o)
      dropped s' h none = tt
      dropped s' h (some j) = h

  rows-NoneNew :
      (delete_data : Bool) (errs : List Error) (s : JobState)
      → NoneNew s
      → Kept NoneNew (delete_rows c delete_data errs s)
  rows-NoneNew delete_data (e ∷ es) s h = on_failed _ s h
  rows-NoneNew delete_data [] s h =
      Post-then
        (Post-then
          (if_cases (Does {A = Unit {0}} NoneNew s) delete_data _ _ (λ _. data-NoneNew s h)
            (λ _. on_ok tt s h))
          (λ _ s' g. forget s' g))
        (λ _ s' g. job-NoneNew s' g)
    where
      forget :
          (s' : JobState)
          → NoneNew s'
          → Kept {A = Unit {0}} NoneNew (ok tt, record s' { secrets = [] })
      forget s' g = on_ok tt (record s' { secrets = [] }) g

  pub delete-NoneNew :
      (delete_data : Bool) (s : JobState)
      → NoneNew s
      → Kept NoneNew (delete_with_options c delete_data s)
  unfolding delete_with_options
  delete-NoneNew delete_data s h = Post-then (get_job-Kept c s h h) (λ job s1 h1.
      Post-then
        (Post-then (list_runs-Post c {E = NoneNew} {Q = λ _. NoneNew} s1 h1 h1)
          (λ runs s2 h2. containers-NoneNew runs [] s2 h2))
        (λ errs s3 h3. rows-NoneNew delete_data errs s3 h3))
