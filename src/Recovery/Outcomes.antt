-- ===== src/Recovery/Outcomes.antt =====
-- checkpoint/coordinator.go: what `finalize` leaves in the storage and with the sink.
use weibo.Base.{
  ◌≡◌, refl, ◌⊎◌, inl, inr, Bool, true, false, Option, some, List, [], ◌∷◌, ◌++◌, if◌then◌else◌,
  bytes_eq_iff, arith, if_cases, Option-cases,
}
use weibo.State.{Bytes, bytes_key}
use weibo.Checkpoint.{completed, CheckpointData, Storage, with_status}
use weibo.Coordinator.{
  Coordinator, Environment, PendingCheckpoint, Step, offsets_committed, persist_completed,
  sink_committed, complete_failed, sink_commit_failed, HookAction, hook_continue, hook_fail,
  hook_halt, CommitAnswer, committed, rejected, lost_answer, Fatal, report_fatal, abort_fatal, step,
  checkpoint_of, commit_offsets, promote, commit, note_offsets,
}
use weibo.Recovery.{was_committed}

was_committed-append : (xs : List Bytes) (id : Bytes) → was_committed (xs ++ id ∷ []) id ≡ true
was_committed-append [] id = ground (arith, bytes_eq_iff id id)
was_committed-append (x ∷ xs) id = ground (arith, was_committed-append xs id)

-- A fact about the sink's commits and the storage that deleting native state directories leaves.
module _ (st : Storage) (env : Environment) (id : Bytes) (P : List Bytes → st.State → Type 0)
    (deletes : (xs : List Bytes) (s : st.State) → P xs s → P xs (st.delete_state_dirs id s)) where
  open st use {State, delete_state_dirs}

  report_fatal-keeps :
      (e : Fatal) (c : Coordinator State)
      → P c.sink_commits c.storage
      → P (report_fatal st env e c).sink_commits (report_fatal st env e c).storage
  unfolding report_fatal
  report_fatal-keeps e c h = elim (Option-cases c.fatal) [
    | inl none_yet ↦ rw (none_yet, report_fatal) h
    | inr (first, kept) ↦ rw (kept, report_fatal) h
  ]

  pub abort_fatal-keeps :
      (e : Fatal) (c : Coordinator State)
      → P c.sink_commits c.storage
      → P (abort_fatal st env id e c).sink_commits (abort_fatal st env id e c).storage
  unfolding abort_fatal
  abort_fatal-keeps e c h = report_fatal-keeps e _ (deletes c.sink_commits c.storage h)

  pub step-keeps :
      (s : Step) (c : Coordinator State)
      → P c.sink_commits c.storage
      → P (step st env s id c).1.sink_commits (step st env s id c).1.storage
  unfolding step
  step-keeps s c h = by_action (env.hook s id) refl
    where
      by_action :
          (a : HookAction)
          → env.hook s id ≡ a
          → P (step st env s id c).1.sink_commits (step st env s id c).1.storage
      by_action hook_continue e = rw (e, step) h
      by_action hook_fail e = rw (e, step) (abort_fatal-keeps _ c h)
      by_action hook_halt e = rw (e, step) h

module _ (st : Storage) (env : Environment) (id : Bytes) (old : Option CheckpointData) (txn : Bytes)
    (p : PendingCheckpoint) where
  open st use {
    State, save, update_status, load, load_latest_completed, delete_state_dirs, save_done,
    save_failed, save_completed, update_done, load-delete_state_dirs,
    load_latest_completed-delete_state_dirs, IsLogged, load-IsLogged, delete_state_dirs-IsLogged,
  }

  abbrev pub d : CheckpointData
  d = checkpoint_of st env txn id p

  -- The sink has not committed, and the checkpoint is prepared at most.
  pub record Open (xs : List Bytes) (s : State) : Type 0 where
    pub absent : was_committed xs id ≡ false
    pub latest : (load s ≡ old) ⊎ (load s ≡ some d)
    pub fallback : load_latest_completed s ≡ old

  -- The sink has committed, and the checkpoint is prepared at least.
  pub record Closed (xs : List Bytes) (s : State) : Type 0 where
    pub present : was_committed xs id ≡ true
    pub logged : (load s ≡ some d) ⊎ (load s ≡ some (with_status completed d))

  pub Open-delete : (xs : List Bytes) (s : State) → Open xs s → Open xs (delete_state_dirs id s)
  Open-delete xs s h = record {
    absent = h.absent;
    latest = rw (load-delete_state_dirs id s) h.latest;
    fallback = rw (load_latest_completed-delete_state_dirs id s) h.fallback;
  }

  Closed-delete : (xs : List Bytes) (s : State) → Closed xs s → Closed xs (delete_state_dirs id s)
  Closed-delete xs s h = record {
    present = h.present;
    logged = rw (load-delete_state_dirs id s) h.logged;
  }

  -- The marker is set, and the checkpoint is the latest, still prepared.
  pub record Marked (xs : List Bytes) (s : State) : Type 0 where
    pub present : was_committed xs id ≡ true
    pub logged : IsLogged d s

  Marked-delete : (xs : List Bytes) (s : State) → Marked xs s → Marked xs (delete_state_dirs id s)
  Marked-delete xs s h = record {
    present = h.present;
    logged = delete_state_dirs-IsLogged id d s h.logged;
  }

  Marked-Closed : {xs : List Bytes} {s : State} → Marked xs s → Closed xs s
  Marked-Closed {s = s} h = record {
    present = h.present;
    logged = inl (load-IsLogged d s h.logged);
  }

  abbrev pub ClosedAt : Coordinator State → Type 0
  ClosedAt c = Closed c.sink_commits c.storage

  abbrev pub OpenAt : Coordinator State → Type 0
  OpenAt c = Open c.sink_commits c.storage

  update-Closed :
      (xs : List Bytes) (s : State) → Marked xs s → Closed xs (update_status id completed s).1
  update-Closed xs s m = record {
    present = m.present;
    logged = elim (update_done d s m.logged) [ inl e ↦ inr e | inr (failed, e) ↦ inl e ];
  }

  note_offsets-Closed :
      (b : Bool) (c : Coordinator State) → ClosedAt c → ClosedAt (note_offsets st env b p c)
  note_offsets-Closed true c h = h
  note_offsets-Closed false c h = h

  commit_offsets-Closed :
      (c : Coordinator State) → ClosedAt c → ClosedAt (commit_offsets st env id p c)
  unfolding commit_offsets
  commit_offsets-Closed c h =
      step-keeps st env id Closed Closed-delete offsets_committed _
        (note_offsets-Closed env.has_commit_offsets c h)

  promote-Closed :
      (c : Coordinator State) → Marked c.sink_commits c.storage → ClosedAt (promote st env id p c)
  unfolding promote
  promote-Closed c m =
      let (ok, s) = update_status id completed c.storage in
      let c' : Coordinator State = record c { storage = s } in
      let c'' : Coordinator State = record c' { completions = c'.completions ++ id ∷ [] } in
      let r = step st env persist_completed id c'' in
      let stored : ClosedAt c' = update-Closed c.sink_commits c.storage m in
      let told = step-keeps st env id Closed Closed-delete persist_completed c'' stored in
      if_cases ClosedAt ok (if r.0 then commit_offsets st env id p r.1 else r.1)
        (report_fatal st env complete_failed c')
        (λ _.
          if_cases ClosedAt r.0 (commit_offsets st env id p r.1) r.1
            (λ _. commit_offsets-Closed r.1 told) (λ _. told))
        (λ _. report_fatal-keeps st env id Closed Closed-delete complete_failed c' stored)

  mark-Marked : (xs : List Bytes) (s : State) → IsLogged d s → Marked (xs ++ id ∷ []) s
  mark-Marked xs s e = record { present = was_committed-append xs id; logged = e }

  -- The commit ends with the sink's answer on record.
  pub commit-Outcome :
      (c : Coordinator State)
      → OpenAt c
      → IsLogged d c.storage
      → OpenAt (commit st env id p c) ⊎ ClosedAt (commit st env id p c)
  unfolding commit
  commit-Outcome c h e = by_answer (env.commit_sink id) refl
    where
      marked : Marked (c.sink_commits ++ id ∷ []) c.storage
      marked = mark-Marked c.sink_commits c.storage e

      by_answer :
          (a : CommitAnswer)
          → env.commit_sink id ≡ a
          → OpenAt (commit st env id p c) ⊎ ClosedAt (commit st env id p c)
      by_answer committed g =
          let c' : Coordinator State = record c { sink_commits = c.sink_commits ++ id ∷ [] } in
          let r = step st env sink_committed id c' in
          let told = step-keeps st env id Marked Marked-delete sink_committed c' marked in
          inr (
            rw (g, commit)
              (if_cases ClosedAt r.0 (promote st env id p r.1) r.1 (λ _. promote-Closed r.1 told)
                (λ _. Marked-Closed told)))
      by_answer rejected g =
          inl
            (rw (g, commit) (report_fatal-keeps st env id Open Open-delete sink_commit_failed c h))
      by_answer lost_answer g =
          let c' : Coordinator State = record c { sink_commits = c.sink_commits ++ id ∷ [] } in
          inr (
            rw (g, commit)
              (report_fatal-keeps st env id Closed Closed-delete sink_commit_failed c'
                (Marked-Closed marked)))

  abbrev pub Outcome : Coordinator State → Type 0
  Outcome c = OpenAt c ⊎ ClosedAt c

  -- Once saved the checkpoint is the latest, until the sink has its answer.
  pub record Saved (xs : List Bytes) (s : State) : Type 0 where
    pub opened : Open xs s
    pub logged : IsLogged d s

  pub Saved-delete : (xs : List Bytes) (s : State) → Saved xs s → Saved xs (delete_state_dirs id s)
  Saved-delete xs s h = record {
    opened = Open-delete xs s h.opened;
    logged = delete_state_dirs-IsLogged id d s h.logged;
  }
