-- ===== src/Recovery.antt =====
-- engine.go, `resolveCoordinatedRecovery`: which checkpoint a restarted job resumes from.
pub mod Outcomes
pub mod ExactlyOnce
use weibo.Base.{
  ◌≡◌, Bool, true, false, Option, none, some, List, [], ◌∷◌, ◌++◌, if◌then◌else◌, bytes_eq, ◌||◌,
}
use weibo.State.{Bytes}
use weibo.Checkpoint.{Status, completed, CheckpointData, Storage, is_completed, with_status}
use weibo.Coordinator.{Coordinator}

-- The result: a checkpoint or a fresh start, or the error of the marker probe or of the promotion.
pub data Recovered : Type 0 where
  resumes : Option CheckpointData → Recovered
  probe_failed promote_failed : Recovered

-- The sink's marker: whether a transaction committed before the crash.
abbrev pub was_committed : List Bytes → Bytes → Bool
was_committed [] id = false
was_committed (j ∷ js) id = bytes_eq j id || was_committed js id

module _ (st : Storage) where
  open st use {State, update_status, load, load_latest_completed}

  unfoldable pub promote_latest : CheckpointData → Coordinator State → Recovered × Coordinator State
  promote_latest d c =
      let (ok, s) = update_status d.id completed c.storage in
      let c' = record c { storage = s } in
      if ok then (resumes (some (with_status completed d)), c') else (promote_failed, c')

  unfoldable pub fall_back : CheckpointData → Coordinator State → Recovered × Coordinator State
  fall_back d c = (
    resumes (load_latest_completed c.storage),
    record c { sink_aborts = c.sink_aborts ++ d.id ∷ [] },
  )

  -- `probe_ok` is false where the probe itself fails.
  unfoldable pub resolve_latest :
      Bool → Option CheckpointData → Coordinator State → Recovered × Coordinator State
  unfolding promote_latest fall_back
  resolve_latest probe_ok none c = (resumes none, c)
  resolve_latest probe_ok (some d) c =
      if is_completed d
      then (resumes (some d), c)
      else if probe_ok
      then (if was_committed c.sink_commits d.id then promote_latest d c else fall_back d c)
      else (probe_failed, c)

  unfoldable pub resolve_recovery : Bool → Coordinator State → Recovered × Coordinator State
  unfolding resolve_latest
  resolve_recovery probe_ok c = resolve_latest probe_ok (load c.storage) c
