-- ===== src/Coordinator/Order.antt =====
-- checkpoint/coordinator.go: the order in which `finalize` makes its effects visible.
use weibo.Base.{
  ◌≡◌, refl, ◌⊎◌, inl, inr, Bool, true, false, some, [], ◌∷◌, ◌++◌, Bool-cases, Option-cases,
  if_cases, ap, ◌∙◌,
}
use weibo.Base.Maps.{get, delete}
use weibo.State.{Bytes, bytes_key}
use weibo.Checkpoint.{Storage, completed}
use weibo.Coordinator.{
  Coordinator, Environment, PendingCheckpoint, Step, offsets_committed, persist_completed,
  sink_committed, persist_prepared, complete_failed, sink_commit_failed, persist_failed,
  sink_prepare_failed, HookAction, hook_continue, hook_fail, hook_halt, CommitAnswer, committed,
  rejected, lost_answer, Fatal, report_fatal, abort_fatal, step, checkpoint_of, commit_offsets,
  note_offsets, append_some, promote, commit, persist, finalize_pending, finalize,
}

-- What finalizing a checkpoint has made visible outside, in the order of the protocol.
pub data Progress {S : Type 0} (id : Bytes) (p : PendingCheckpoint) (c after : Coordinator S)
    : Type 0 where
  nothing_done :
      after.sink_commits ≡ c.sink_commits
      → after.completions ≡ c.completions
      → after.offset_commits ≡ c.offset_commits
      → Progress id p c after
  sink_done :
      after.sink_commits ≡ c.sink_commits ++ id ∷ []
      → after.completions ≡ c.completions
      → after.offset_commits ≡ c.offset_commits
      → Progress id p c after
  announced :
      after.sink_commits ≡ c.sink_commits ++ id ∷ []
      → after.completions ≡ c.completions ++ id ∷ []
      → (after.offset_commits ≡ c.offset_commits)
        ⊎ (after.offset_commits ≡ append_some p.offsets c.offset_commits)
      → Progress id p c after

module _ (st : Storage) (env : Environment) (id : Bytes) (p : PendingCheckpoint) where
  open st use {State}

  -- The effects of two states are the same.
  pub record Same (a b : Coordinator State) : Type 0 where
    pub sinks : a.sink_commits ≡ b.sink_commits
    pub done : a.completions ≡ b.completions
    pub told : a.offset_commits ≡ b.offset_commits

  report_fatal-Same : (e : Fatal) (c : Coordinator State) → Same (report_fatal st env e c) c
  unfolding report_fatal
  report_fatal-Same e c = elim (Option-cases c.fatal) [
    | inl first ↦ rw (first, report_fatal) (record { sinks = refl; done = refl; told = refl })
    | inr (old, kept) ↦ rw (kept, report_fatal) (record { sinks = refl; done = refl; told = refl })
  ]

  abort_fatal-Same : (e : Fatal) (c : Coordinator State) → Same (abort_fatal st env id e c) c
  unfolding abort_fatal
  abort_fatal-Same e c =
      let s = report_fatal-Same e (record c {
        sink_aborts = c.sink_aborts ++ id ∷ [];
        storage = st.delete_state_dirs id c.storage;
      }) in
      record { sinks = s.sinks; done = s.done; told = s.told }

  step-Same : (s : Step) (c : Coordinator State) → Same (step st env s id c).1 c
  unfolding step
  step-Same s c = by_action (env.hook s id) refl
    where
      by_action : (a : HookAction) → env.hook s id ≡ a → Same (step st env s id c).1 c
      by_action hook_continue e = rw (e, step) (record { sinks = refl; done = refl; told = refl })
      by_action hook_fail e = rw (e, step) (abort_fatal-Same _ c)
      by_action hook_halt e = rw (e, step) (record { sinks = refl; done = refl; told = refl })

  module _ (c : Coordinator State) where
    carry : (b a : Coordinator State) → Same b a → Progress id p c a → Progress id p c b
    carry b a s (nothing_done x y z) = nothing_done (s.sinks ∙ x) (s.done ∙ y) (s.told ∙ z)
    carry b a s (sink_done x y z) = sink_done (s.sinks ∙ x) (s.done ∙ y) (s.told ∙ z)
    carry b a s (announced x y (inl z)) = announced (s.sinks ∙ x) (s.done ∙ y) (inl (s.told ∙ z))
    carry b a s (announced x y (inr z)) = announced (s.sinks ∙ x) (s.done ∙ y) (inr (s.told ∙ z))

    noted :
        (has : Bool) (a : Coordinator State)
        → a.sink_commits ≡ c.sink_commits ++ id ∷ []
        → a.completions ≡ c.completions ++ id ∷ []
        → a.offset_commits ≡ c.offset_commits
        → Progress id p c (note_offsets st env has p a)
    noted true a x y z = announced x y (inr (ap (append_some p.offsets) z))
    noted false a x y z = announced x y (inl z)

    commit_offsets-Progress :
        (a : Coordinator State)
        → a.sink_commits ≡ c.sink_commits ++ id ∷ []
        → a.completions ≡ c.completions ++ id ∷ []
        → a.offset_commits ≡ c.offset_commits
        → Progress id p c (commit_offsets st env id p a)
    unfolding commit_offsets
    commit_offsets-Progress a x y z =
        carry _ (note_offsets st env env.has_commit_offsets p a) (step-Same offsets_committed _)
          (noted env.has_commit_offsets a x y z)

    promote-Progress :
        (a : Coordinator State)
        → a.sink_commits ≡ c.sink_commits ++ id ∷ []
        → a.completions ≡ c.completions
        → a.offset_commits ≡ c.offset_commits
        → Progress id p c (promote st env id p a)
    unfolding promote
    promote-Progress a x y z = elim (Bool-cases (st.update_status id completed a.storage).0) [
      | inl ok ↦
          let a' = record a {
            storage = (st.update_status id completed a.storage).1;
            completions = a.completions ++ id ∷ [];
          } in
          let s = step-Same persist_completed a' in
          rw (ok, promote)
            (if_cases (Progress id p c) (step st env persist_completed id a').0
              (commit_offsets st env id p (step st env persist_completed id a').1)
              (step st env persist_completed id a').1
              (λ go.
                commit_offsets-Progress _ (s.sinks ∙ x) (s.done ∙ ap (λ xs. xs ++ id ∷ []) y)
                  (s.told ∙ z))
              (λ stop. carry _ a' s (announced x (ap (λ xs. xs ++ id ∷ []) y) (inl z))))
      | inr bad ↦
          rw (bad, promote)
            (carry _ (record a { storage = (st.update_status id completed a.storage).1 })
              (report_fatal-Same complete_failed _) (sink_done x y z))
    ]

    commit-Progress : (a : Coordinator State) → Same a c → Progress id p c (commit st env id p a)
    unfolding commit
    commit-Progress a same = by_answer (env.commit_sink id) refl
      where
        a' : Coordinator State
        a' = record a { sink_commits = a.sink_commits ++ id ∷ [] }

        by_answer :
            (w : CommitAnswer) → env.commit_sink id ≡ w → Progress id p c (commit st env id p a)
        by_answer committed e =
            let s = step-Same sink_committed a' in
            rw (e, commit)
              (if_cases (Progress id p c) (step st env sink_committed id a').0
                (promote st env id p (step st env sink_committed id a').1)
                (step st env sink_committed id a').1
                (λ go.
                  promote-Progress _ (s.sinks ∙ ap (λ xs. xs ++ id ∷ []) same.sinks)
                    (s.done ∙ same.done) (s.told ∙ same.told))
                (λ stop.
                  carry _ a' s
                    (sink_done (ap (λ xs. xs ++ id ∷ []) same.sinks) same.done same.told)))
        by_answer rejected e =
            rw (e, commit)
              (carry _ a (report_fatal-Same sink_commit_failed a)
                (nothing_done same.sinks same.done same.told))
        by_answer lost_answer e =
            rw (e, commit)
              (carry _ a' (report_fatal-Same sink_commit_failed a')
                (sink_done (ap (λ xs. xs ++ id ∷ []) same.sinks) same.done same.told))

    persist-Progress : (a : Coordinator State) → Same a c → Progress id p c (persist st env id p a)
    unfolding persist
    persist-Progress a same =
        let d = checkpoint_of st env a.txn_id id p in
        let a' = record a { storage = (st.save d a.storage).1 } in
        elim (Bool-cases (st.save d a.storage).0) [
          | inl ok ↦
              let s = step-Same persist_prepared a' in
              rw (ok, persist)
                (if_cases (Progress id p c) (step st env persist_prepared id a').0
                  (commit st env id p (step st env persist_prepared id a').1)
                  (step st env persist_prepared id a').1
                  (λ go. commit-Progress _ (record {
                    sinks = s.sinks ∙ same.sinks;
                    done = s.done ∙ same.done;
                    told = s.told ∙ same.told;
                  }))
                  (λ stop. carry _ a' s (nothing_done same.sinks same.done same.told)))
          | inr bad ↦
              rw (bad, persist)
                (carry _ a' (abort_fatal-Same persist_failed a')
                  (nothing_done same.sinks same.done same.told))
        ]

    -- Whatever fails or halts while a pending checkpoint is finalized, the effects outside come in the
    -- order of the protocol: the checkpoint is announced as completed only if the sink has committed
    -- it, and its offsets are committed only if it has been announced; each happens once at most.
    pub finalize-Progress : get id c.pending ≡ some p → Progress id p c (finalize st env id c)
    unfolding finalize finalize_pending
    finalize-Progress waits =
        if_cases (Progress id p c) c.halted c
          (finalize_pending st env id (get id c.pending)
            (record c { pending = delete id c.pending }))
          (λ e. nothing_done refl refl refl)
          (λ e. rw waits (
            if_cases (Progress id p c) p.sink_err _ _
              (λ bad.
                carry _ (record c { pending = delete id c.pending })
                  (abort_fatal-Same sink_prepare_failed _) (nothing_done refl refl refl))
              (λ good. persist-Progress _ (record { sinks = refl; done = refl; told = refl }))))
