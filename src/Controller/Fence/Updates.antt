-- ===== src/Controller/Fence/Updates.antt =====
-- control/store/sqlite.go: what an update of a row leaves of the containers.
use weibo.Base.{◌≡◌, ◌≤◌, ◌⊎◌, inl, inr, true, [], ◌∷◌, ◌++◌}
use weibo.Controller.{Controller, Run, Transition, JobState}
use weibo.Controller.Store.{
  create_run_with_transition, update_run, update_run_with_transition, replace, count_active,
  has_run,
}
use weibo.Controller.Outcomes.{Post, Kept, transact-Post, inserted-IfOk, updated-IfOk}
use weibo.Controller.Fence.{Safe, Idle, Fresh, Tied, Tied-Safe, Watching}
use weibo.Controller.Fence.Rows.{Watches-replace, Watches-replaced}

module _ (c : Controller) where
  pub create_run-Idle :
      (r : Run) (t : Transition) (s : JobState)
      → Idle s
      → Kept Idle (create_run_with_transition c r t s)
  unfolding create_run_with_transition
  create_run-Idle r t s i =
      transact-Post c _ s i (inserted-IfOk _ r (t ∷ []) s (λ one. (one, i.1, i.2)))

  pub update_run-Idle : (r : Run) (s : JobState) → Idle s → Kept Idle (update_run c r s)
  unfolding update_run
  update_run-Idle r s i = transact-Post c _ s i (updated-IfOk _ r [] s (λ _ one. (one, i.1, i.2)))

  pub update_run_with-Idle :
      (r : Run) (t : Transition) (s : JobState)
      → Idle s
      → Kept Idle (update_run_with_transition c r t s)
  unfolding update_run_with_transition
  update_run_with-Idle r t s i =
      transact-Post c _ s i (updated-IfOk _ r (t ∷ []) s (λ _ one. (one, i.1, i.2)))

  -- A run that keeps its container may be updated.
  pub update_run-Safe :
      (r q : Run) (s : JobState)
      → q.container_id ≡ r.container_id
      → (Watching r → Watching q)
      → Tied r s
      → Kept Safe (update_run c q s)
  unfolding update_run
  update_run-Safe r q s e keep t =
      transact-Post c _ s (Tied-Safe r s t) (updated-IfOk _ q [] s (λ _ one. stays t one))
    where
      stays :
          Tied r s
          → count_active (replace q s.runs) ≤ 1
          → Safe (record s { runs = replace q s.runs; transitions = s.transitions ++ [] })
      stays (_, most, inl none_live) one = (one, most, rw none_live tt)
      stays (_, most, inr (w, one_live, held)) one =
          (one, most, rw one_live (Watches-replace q r.container_id s.runs (keep w) e held))

  pub record-Safe :
      (r : Run) (t : Transition) (s : JobState)
      → Watching r
      → Fresh r.container_id s
      → Post (λ _. Safe) (Fresh r.container_id) (update_run_with_transition c r t s)
  unfolding update_run_with_transition
  record-Safe r t s w f =
      transact-Post c _ s f (updated-IfOk _ r (t ∷ []) s (λ has one. stays has one (f.2)))
    where
      stays :
          has_run r.id s.runs ≡ true
          → count_active (replace r s.runs) ≤ 1
          → (s.live ≡ []) ⊎ (s.live ≡ r.container_id ∷ [])
          → Safe (record s { runs = replace r s.runs; transitions = s.transitions ++ t ∷ [] })
      stays has one (inl none_live) = (one, f.1, rw none_live tt)
      stays has one (inr live) = (one, f.1, rw live (Watches-replaced r s.runs w has))
