-- ===== src/Controller/Fence/Deleting.antt =====
-- control/controller.go, `DeleteWithOptions`: the rows are deleted only if all containers have ended.
use weibo.Base.{
  ◌≡◌, ◌≢◌, ◌⊎◌, inl, inr, Bool, Option, none, some, List, [], ◌∷◌, ◌++◌, arith, if_cases, refl,
  bytes_eq_iff, sym, subst,
}
use weibo.State.{Bytes}
use weibo.Controller.{
  Controller, Job, Run, JobState, Operation, ok, Error, tick, is_empty, when, ended,
}
use weibo.Controller.Store.{is_active, delete_job, with_job, newest_first, started_text}
use weibo.Controller.Backend.{stop_container, remove_container, delete_job_data}
use weibo.Controller.Requests.{
  or_error, delete_container, delete_containers, delete_rows, delete_with_options,
}
use weibo.Controller.Outcomes.{
  Post, on_ok, on_failed, Kept, Does, Post-followed, Post-then, Post-weaken, transact-Post, IfOk,
  unless_error-Post,
}
use weibo.Controller.Fence.{Safe, Idle, Fresh, Watches, Watching, Idle-Safe, Held}
use weibo.Controller.Fence.Rows.{Watches-newest_first}
use weibo.Controller.Fence.Calls.{ended-Safe, ended-Idle, ended-Fresh, ended-Fresh_any}
use weibo.Controller.Fence.Launching.{list_runs-Post}
use weibo.Controller.Fence.Passing.{get_job-Kept}

-- A container may be live, and the state is safe.
abbrev Both : Bytes → JobState → Type 0
Both id s = Safe s × Fresh id s

-- What is known while the containers of the rest of the runs are still to be deleted.
abbrev Left : List Run → List Error → JobState → Type 0
Left rs errs s = Safe s × ((errs ≢ []) ⊎ (Idle s ⊎ ((id : Bytes) × Fresh id s × Watches id rs)))

-- No row of the job is left, and no container but the orphans, which nobody knows of.
abbrev pub IsGone : JobState → Type 0
IsGone s = (s.job ≡ none) × (s.runs ≡ []) × (s.transitions ≡ []) × (s.live ≡ [])

-- No container is live, or there was an error.
abbrev Ended : List Error → JobState → Type 0
Ended errs s = Idle s ⊎ (Safe s × (errs ≢ []))

Ended-Safe : (errs : List Error) (s : JobState) → Ended errs s → Safe s
Ended-Safe errs s (inl i) = Idle-Safe s i
Ended-Safe errs s (inr (h, ne)) = h

Ended-ended :
    (id : Bytes) (errs : List Error) (s : JobState) → Ended errs s → Ended errs (ended id s)
Ended-ended id errs s (inl i) = inl (ended-Idle id s i)
Ended-ended id errs s (inr (h, ne)) = inr (ended-Safe id s h, ne)

Ended-Left : (rs : List Run) (errs : List Error) (s : JobState) → Ended errs s → Left rs errs s
Ended-Left rs errs s (inl i) = (Idle-Safe s i, inr (inl i))
Ended-Left rs errs s (inr (h, ne)) = (h, inl ne)

snoc-ne-nil : (errs : List Error) (e : Error) → errs ++ e ∷ [] ≢ []
snoc-ne-nil [] e = λ h. cc
snoc-ne-nil (f ∷ errs) e = λ h. cc

-- A call whose error is added to the list.
pub or_error-Post :
    {P : JobState → Type 0} {Q : List Error → JobState → Type 0} {E : JobState → Type 0}
    (errs : List Error) (m : Operation (Unit {0})) (s : JobState)
    → Post (λ _. Q errs) P (m s)
    → ((e : Error) (s' : JobState) → P s' → Q (errs ++ e ∷ []) s')
    → Post Q E (or_error errs m s)
or_error-Post errs m s p f =
    Post-followed p (λ _ s' q. on_ok errs s' q) (λ e s' h. on_ok (errs ++ e ∷ []) s' (f e s' h))

module _ (c : Controller) where
  pub stop-Post :
      {Q E : JobState → Type 0} (id : Bytes) (s : JobState)
      → E (tick s)
      → Q (tick (ended id s))
      → Post (λ _. Q) E (stop_container c id s)
  unfolding stop_container
  stop-Post id s e q = unless_error-Post _ _ _ _ e (on_ok tt _ q)

  pub remove-Post :
      {Q E : JobState → Type 0} (id : Bytes) (s : JobState)
      → E (tick s)
      → Q (tick (ended id s))
      → Post (λ _. Q) E (remove_container c id s)
  unfolding remove_container
  remove-Post id s e q = unless_error-Post _ _ _ _ e (on_ok tt _ q)

  -- What the end of any container and an error keep, the deletion of a container keeps.
  container-Inv :
      (Inv : List Error → JobState → Type 0) (errs : List Error) (r : Run) (s : JobState)
      → ((es : List Error) (s' : JobState) → Inv es s' → Inv es (tick s'))
      → ((es : List Error) (s' : JobState) → Inv es s' → Inv es (tick (ended r.container_id s')))
      → ((es : List Error) (e : Error) (s' : JobState) → Inv es s' → Inv (es ++ e ∷ []) s')
      → Inv errs s
      → Post Inv Safe (delete_container c errs r s)
  unfolding delete_container
  container-Inv Inv errs r s ht he hx h =
      if_cases (λ (m : Operation (List Error)). Post Inv Safe (m s)) (is_empty r.container_id) _ _
        (λ _. on_ok errs s h)
        (λ _.
          Post-then
            (or_error-Post {P = Inv errs} errs
              (when (is_active r) (stop_container c r.container_id)) s
              (if_cases (λ (m : Operation (Unit {0})). Post (λ _. Inv errs) (Inv errs) (m s))
                (is_active r) _ _ (λ _. stop-Post r.container_id s (ht errs s h) (he errs s h))
                (λ _. on_ok tt s h))
              (hx errs))
            (λ es s' h'.
              or_error-Post {P = Inv es} es (remove_container c r.container_id) s'
                (remove-Post r.container_id s' (ht es s' h') (he es s' h')) (hx es)))

  -- The run that has the live container: it ends, or there is an error.
  watched-Left :
      (errs : List Error) (r : Run) (rs : List Run) (s : JobState)
      → Watching r
      → Both r.container_id s
      → Post (Left rs) Safe (delete_container c errs r s)
  unfolding delete_container
  watched-Left errs r rs s w b =
      if_cases (λ (m : Operation (List Error)). Post (Left rs) Safe (m s)) (is_empty r.container_id)
        _ _ (λ e. absurd (w.2 ((bytes_eq_iff r.container_id []).0 e)))
        (λ _.
          Post-then
            (or_error-Post {P = Safe} {Q = Ended} errs
              (when (is_active r) (stop_container c r.container_id)) s
              (if_cases (λ (m : Operation (Unit {0})). Post (λ _. Ended errs) Safe (m s))
                (is_active r) _ _
                (λ _. stop-Post r.container_id s b.0 (inl (ended-Fresh r.container_id s b.1)))
                (λ e. absurd (cc (w.0, e))))
              (λ e s' h. inr (h, snoc-ne-nil errs e)))
            (λ es s' h.
              or_error-Post {P = Ended es} es (remove_container c r.container_id) s'
                (remove-Post r.container_id s' h
                  (Ended-Left rs es (ended r.container_id s') (Ended-ended r.container_id es s' h)))
                (λ e s'' g. (Ended-Safe es s'' g, inl (snoc-ne-nil es e)))))

  step-Left :
      (r : Run) (rs : List Run) (errs : List Error) (s : JobState)
      → Left (r ∷ rs) errs s
      → Post (Left rs) Safe (delete_container c errs r s)
  step-Left r rs errs s (h, inl ne) =
      Post-weaken
        (container-Inv (λ es s'. Safe s' × (es ≢ [])) errs r s (λ es s' g. g)
          (λ es s' g. (ended-Safe r.container_id s' g.0, g.1))
          (λ es e s' g. (g.0, snoc-ne-nil es e)) (h, ne))
        (λ es s' g. (g.0, inl g.1)) (λ s' g. g)
  step-Left r rs errs s (h, inr (inl i)) =
      Post-weaken
        (container-Inv (λ es s'. Idle s') errs r s (λ es s' g. g)
          (λ es s' g. ended-Idle r.container_id s' g) (λ es e s' g. g) i)
        (λ es s' g. (Idle-Safe s' g, inr (inl g))) (λ s' g. g)
  step-Left r rs errs s (h, inr (inr (id, f, inl (w, e)))) =
      watched-Left errs r rs s w (h, subst (λ (x : Bytes). Fresh x s) (sym e) f)
  step-Left r rs errs s (h, inr (inr (id, f, inr v))) =
      Post-weaken
        (container-Inv (λ es s'. Both id s') errs r s (λ es s' g. g)
          (λ es s' g. (ended-Safe r.container_id s' g.0, ended-Fresh_any r.container_id id s' g.1))
          (λ es e s' g. g) (h, f))
        (λ es s' g. (g.0, inr (inr (id, g.1, v)))) (λ s' g. g)

  all-Left :
      (rs : List Run) (errs : List Error) (s : JobState)
      → Left rs errs s
      → Post (Left []) Safe (delete_containers c errs rs s)
  unfolding delete_containers
  all-Left [] errs s l = on_ok errs s l
  all-Left (r ∷ rs) errs s l =
      Post-then (step-Left r rs errs s l) (λ errs' s' l'. all-Left rs errs' s' l')

  data-Idle : (s : JobState) → Idle s → Kept Idle (delete_job_data c s)
  unfolding delete_job_data
  data-Idle s i = unless_error-Post _ _ _ _ i (on_ok tt (tick s) i)

  delete_job-IsGone :
      (s : JobState) → Idle s → Post (λ _ s'. IsGone s' × Idle s') Idle (delete_job c s)
  unfolding delete_job
  delete_job-IsGone s i =
      Post-then
        (transact-Post c {Q = λ _ s1. Idle s1 × (s1.transitions ≡ [])} {E = Idle} _ s i (i, refl))
        (λ _ s1 h1.
          Post-then
            (transact-Post c {Q = λ _ s2. Idle s2 × (s2.transitions ≡ []) × (s2.runs ≡ [])}
              {E = Idle} _ s1 h1.0 ((omega arith, h1.0.1, h1.0.2), h1.1, refl))
            (λ _ s2 h2. transact-Post c _ s2 h2.0 (dropped s2 h2 s2.job)))
    where
      dropped :
          (s' : JobState)
          → Idle s' × (s'.transitions ≡ []) × (s'.runs ≡ [])
          → (o : Option Job)
          → IfOk
              (λ s''. IsGone (tick s'') × Idle (tick s''))
              (with_job (λ j. record s' { job = none }) o)
      dropped s' h none = tt
      dropped s' h (some j) = ((refl, h.2, h.1, h.0.2), h.0)

  forget-Idle :
      (s : JobState) → Idle s → Kept {A = Unit {0}} Idle (ok tt, record s { secrets = [] })
  forget-Idle s i = on_ok tt (record s { secrets = [] }) i

  rows-IsGone :
      (delete_data : Bool) (errs : List Error) (s : JobState)
      → Left [] errs s
      → Post (λ _ s'. IsGone s' × Idle s') Safe (delete_rows c delete_data errs s)
  rows-IsGone delete_data (e ∷ es) s l = on_failed _ s l.0
  rows-IsGone delete_data [] s (h, inl ne) = absurd (ne refl)
  rows-IsGone delete_data [] s (h, inr (inr (id, f, v))) = absurd v
  rows-IsGone delete_data [] s (h, inr (inl i)) =
      Post-weaken
        (Post-then
          (Post-then
            (if_cases (Does {A = Unit {0}} Idle s) delete_data _ _ (λ _. data-Idle s i)
              (λ _. on_ok tt s i))
            (λ _ s' i'. forget-Idle s' i'))
          (λ _ s' i'. delete_job-IsGone s' i'))
        (λ _ s' g. g) (λ s' i'. Idle-Safe s' i')

  Held-Left :
      (s : JobState) (ids : List Bytes)
      → s.live ≡ ids
      → Safe s
      → Held ids s.runs
      → Left (newest_first (started_text c) s.runs) [] s
  Held-Left s [] e h held = (h, inr (inl (h.0, h.1, e)))
  Held-Left s (id ∷ []) e h held =
      (h, inr (inr (id, (h.0, h.1, inr e), Watches-newest_first (started_text c) id s.runs held)))
  Held-Left s (id ∷ j ∷ ids) e h held = absurd held

  pub delete-IsGone :
      (delete_data : Bool) (s : JobState)
      → Safe s
      → Post (λ _ s'. IsGone s' × Idle s') Safe (delete_with_options c delete_data s)
  unfolding delete_with_options
  delete-IsGone delete_data s h = Post-then (get_job-Kept c s h h) (λ job s1 h1.
      Post-then
        (Post-then
          (list_runs-Post c {E = Safe} {Q = λ runs s'. Left runs [] s'} s1 h1
            (Held-Left s1 s1.live refl h1 h1.2))
          (λ runs s2 l. all-Left runs [] s2 l))
        (λ errs s3 l. rows-IsGone delete_data errs s3 l))

  pub delete-Safe :
      (delete_data : Bool) (s : JobState) → Safe s → Kept Safe (delete_with_options c delete_data s)
  delete-Safe delete_data s h =
      Post-weaken (delete-IsGone delete_data s h) (λ _ s' g. Idle-Safe s' g.1) (λ s' h'. h')
