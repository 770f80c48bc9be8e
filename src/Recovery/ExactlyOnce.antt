-- ===== src/Recovery/ExactlyOnce.antt =====
-- checkpoint/coordinator.go, `finalize`, followed by engine.go, `resolveCoordinatedRecovery`.
use weibo.Base.{
  ◌≡◌, refl, ◌∙◌, ◌⊎◌, inl, inr, Bool, true, false, Option, none, some, if◌then◌else◌, if_cases,
  Bool-cases,
}
use weibo.Base.Maps.{get}
use weibo.State.{Bytes, bytes_key}
use weibo.Checkpoint.{completed, CheckpointData, Storage, is_completed, with_status}
use weibo.Coordinator.{
  Coordinator, Environment, PendingCheckpoint, persist_prepared, persist_failed,
  sink_prepare_failed, abort_fatal, step, checkpoint_of, commit, persist, finalize_pending,
  finalize,
}
use weibo.Recovery.{resumes, promote_failed, was_committed, resolve_recovery}
use weibo.Recovery.Outcomes.{
  Open, Open-delete, OpenAt, Outcome, Saved, Saved-delete, abort_fatal-keeps, commit-Outcome, d,
  step-keeps,
}

module _ (st : Storage) (env : Environment) (id : Bytes) (p : PendingCheckpoint) where
  open st use {
    State, save, update_status, load, load_latest_completed, save_done, save_failed, save_completed,
    IsValid, IsNext, load-IsLogged,
  }

  persist-Outcome :
      (c : Coordinator State)
      → was_committed c.sink_commits id ≡ false
      → load_latest_completed c.storage ≡ load c.storage
      → IsValid c.storage
      → IsNext (checkpoint_of st env c.txn_id id p) c.storage
      → Outcome st env id (load c.storage) c.txn_id p (persist st env id p c)
  unfolding persist
  persist-Outcome c absent clean valid next =
      if_cases (Outcome st env id old c.txn_id p) (save written c.storage).0
        (if r.0 then commit st env id p r.1 else r.1) (abort_fatal st env id persist_failed c')
        (λ ok. after_save (saved ok)) (λ _. inl aborted)
    where
      old : Option CheckpointData
      old = load c.storage

      written : CheckpointData
      written = checkpoint_of st env c.txn_id id p

      c' : Coordinator State
      c' = record c { storage = (save written c.storage).1 }

      r : Bool × Coordinator State
      r = step st env persist_prepared id c'

      fallback : load_latest_completed c'.storage ≡ old
      fallback = save_completed written c.storage valid next refl ∙ clean

      aborted : OpenAt st env id old c.txn_id p (abort_fatal st env id persist_failed c')
      aborted =
          abort_fatal-keeps st env id (Open st env id old c.txn_id p)
            (Open-delete st env id old c.txn_id p) persist_failed c'
            (record {
              absent = absent;
              latest = save_failed written c.storage valid next refl;
              fallback = fallback;
            })

      saved :
          (save written c.storage).0 ≡ true
          → Saved st env id old c.txn_id p c'.sink_commits c'.storage
      saved ok =
          let logged = save_done written c.storage valid next refl ok in
          record {
            opened = record {
              absent = absent;
              latest = inr (load-IsLogged written c'.storage logged);
              fallback = fallback;
            };
            logged = logged;
          }

      after_save :
          Saved st env id old c.txn_id p c'.sink_commits c'.storage
          → Outcome st env id old c.txn_id p (if r.0 then commit st env id p r.1 else r.1)
      after_save h =
          let told =
            step-keeps st env id (Saved st env id old c.txn_id p)
              (Saved-delete st env id old c.txn_id p) persist_prepared c' h in
          if_cases (Outcome st env id old c.txn_id p) r.0 (commit st env id p r.1) r.1
            (λ _. commit-Outcome st env id old c.txn_id p r.1 told.opened told.logged)
            (λ _. inl told.opened)

  finalize_pending-Outcome :
      (c : Coordinator State)
      → was_committed c.sink_commits id ≡ false
      → load_latest_completed c.storage ≡ load c.storage
      → IsValid c.storage
      → IsNext (checkpoint_of st env c.txn_id id p) c.storage
      → Outcome st env id (load c.storage) c.txn_id p (finalize_pending st env id (some p) c)
  unfolding finalize_pending
  finalize_pending-Outcome c absent clean valid next =
      if_cases (Outcome st env id (load c.storage) c.txn_id p) p.sink_err
        (abort_fatal st env id sink_prepare_failed c) (persist st env id p c)
        (λ _. inl (
          abort_fatal-keeps st env id (Open st env id (load c.storage) c.txn_id p)
            (Open-delete st env id (load c.storage) c.txn_id p) sink_prepare_failed c
            (record { absent = absent; latest = inl refl; fallback = clean })))
        (λ _. persist-Outcome c absent clean valid next)

-- What recovery returns after a finalization: the checkpoint where its transaction is marked as
-- committed, and otherwise the checkpoint from before; or the promotion failed and is to be retried.
abbrev pub expected : Bool → CheckpointData → Option CheckpointData → Option CheckpointData
expected true d old = some (with_status completed d)
expected false d old = old

module _ (st : Storage) (env : Environment) (id : Bytes) (txn : Bytes) (p : PendingCheckpoint) where
  open st use {State, load, load_latest_completed}

  abbrev Answers : Option CheckpointData → Coordinator State → Type 0
  Answers old c =
      ((resolve_recovery st true c).0
        ≡ resumes (expected (was_committed c.sink_commits id) (d st env id old txn p) old))
      ⊎ ((resolve_recovery st true c).0 ≡ promote_failed) × (was_committed c.sink_commits id ≡ true)

  open-latest :
      (old : Option CheckpointData) (c : Coordinator State)
      → ((e : CheckpointData) → old ≡ some e → is_completed e ≡ true)
      → was_committed c.sink_commits id ≡ false
      → load c.storage ≡ old
      → Answers old c
  unfolding resolve_recovery
  open-latest none c whole absent e = inl (rw (e, absent))
  open-latest (some o) c whole absent e = inl (rw (e, absent, whole o refl))

  resolve-Outcome :
      (old : Option CheckpointData) (c : Coordinator State)
      → ((e : CheckpointData) → old ≡ some e → is_completed e ≡ true)
      → Outcome st env id old txn p c
      → Answers old c
  unfolding resolve_recovery is_completed
  resolve-Outcome old c whole (inl h) = elim h.latest [
    | inl e ↦ open-latest old c whole h.absent e
    | inr e ↦ inl (rw (e, h.absent, h.fallback))
  ]
  resolve-Outcome old c whole (inr h) = elim h.logged [
    | inl e ↦ elim (Bool-cases (st.update_status id completed c.storage).0) [
      | inl ok ↦ inl (rw (e, h.present, ok))
      | inr failed ↦ inr (rw (e, h.present, failed), h.present)
    ]
    | inr e ↦ inl (rw (e, h.present))
  ]

-- Where the coordinator runs on a valid storage and finalizes a pending checkpoint that is newer than all
-- in it and whose transaction has not committed yet, the latest checkpoint of the storage, if any, is
-- completed, and the sink, the storage and the offset commit answer in any way while the hook fails or
-- halts any step: recovery with a working marker probe resumes from that checkpoint if the sink has
-- committed its transaction, from the one before if not; or the promotion of a committed one failed.
pub exactly_once :
    (st : Storage) (env : Environment) (id : Bytes) (p : PendingCheckpoint)
    (c : Coordinator st.State)
    → c.halted ≡ false
    → get id c.pending ≡ some p
    → st.IsValid c.storage
    → st.IsNext (checkpoint_of st env c.txn_id id p) c.storage
    → was_committed c.sink_commits id ≡ false
    → st.load_latest_completed c.storage ≡ st.load c.storage
    → ((e : CheckpointData) → st.load c.storage ≡ some e → is_completed e ≡ true)
    → let after = finalize st env id c in
      ((resolve_recovery st true after).0
        ≡ resumes (
            expected
              (was_committed after.sink_commits id)
              (checkpoint_of st env c.txn_id id p)
              (st.load c.storage)))
      ⊎ ((resolve_recovery st true after).0 ≡ promote_failed)
        × (was_committed after.sink_commits id ≡ true)
unfolding finalize
exactly_once st env id p c running waits valid next fresh clean whole =
    rw (running, waits)
      (resolve-Outcome st env id c.txn_id p (st.load c.storage) _ whole
        (finalize_pending-Outcome st env id p _ fresh clean valid next))
