-- ===== src/Coordinator.antt =====
-- checkpoint/coordinator.go: the two-phase checkpoint protocol. The hook, the sink and the offset
-- commit answer through `Environment`; the state keeps what the sink has done and what was reported.
pub mod Order
use weibo.Base.{Bool, true, false, Option, none, some, List, [], ◌∷◌, ◌++◌, if◌then◌else◌, codes}
use weibo.Base.Int.{ℤ}
use weibo.Base.Maps.{get, put, delete}
use weibo.State.{Bytes, bytes_key}
use weibo.Checkpoint.{prepared, completed, CheckpointData, Storage}

pub data Step : Type 0 where
  barrier_injected state_snapshotted sink_prepared persist_prepared : Step
  sink_committed persist_completed offsets_committed : Step

pub data HookAction : Type 0 where
  hook_continue hook_fail hook_halt : HookAction

-- The answer of `CommitSink`: a commit, an error of a transaction that did not commit, or an error
-- although it did.
pub data CommitAnswer : Type 0 where
  committed rejected lost_answer : CommitAnswer

-- Why the coordinator gave up.
pub data Fatal : Type 0 where
  sink_prepare_failed persist_failed sink_commit_failed complete_failed : Fatal
  injected_failure : Step → Fatal

pub record Environment : Type 0 where
  pub hook : Step → Bytes → HookAction
  pub commit_sink : Bytes → CommitAnswer
  pub has_commit_offsets : Bool
  pub now : Bytes → ℤ

pub record PendingCheckpoint : Type 0 where
  pub offsets : Option Bytes
  pub state : List (Bytes × Bytes)
  pub state_dirs : List (Bytes × Bytes)
  pub prepared_by_sink : Bool
  pub sink_err : Bool

abbrev pub no_pending : PendingCheckpoint
no_pending = record {
  offsets = none;
  state = [];
  state_dirs = [];
  prepared_by_sink = false;
  sink_err = false;
}

-- `events` is the queue of the channel, `fatal` the first error reported, `sink_commits` and
-- `sink_aborts` what the sink was told and did, `offset_commits` and `completions` the calls of
-- `CommitOffsets` and `OnCompleted`.
pub record Coordinator (S : Type 0) : Type 0 where
  pub txn_id : Bytes
  pub storage : S
  pub pending : List (Bytes × PendingCheckpoint)
  pub halted : Bool
  pub events : List Bytes
  pub fatal : Option Fatal
  pub sink_commits : List Bytes
  pub sink_aborts : List Bytes
  pub offset_commits : List Bytes
  pub completions : List Bytes

abbrev or_new : Option PendingCheckpoint → PendingCheckpoint
or_new none = no_pending
or_new (some p) = p

abbrev append_some : Option Bytes → List Bytes → List Bytes
append_some none xs = xs
append_some (some x) xs = xs ++ x ∷ []

module _ (st : Storage) (env : Environment) where
  open st use {State, save, update_status, delete_state_dirs}

  abbrev C : Type 0
  C = Coordinator State

  -- `reportFatal`: only the first error is kept.
  unfoldable pub report_fatal : Fatal → C → C
  report_fatal e c = elim c.fatal [ none ↦ record c { fatal = some e } | some _ ↦ c ]

  unfoldable pub abort_fatal : Bytes → Fatal → C → C
  unfolding report_fatal
  abort_fatal id e c = report_fatal e (record c {
    sink_aborts = c.sink_aborts ++ id ∷ [];
    storage = delete_state_dirs id c.storage;
  })

  -- `step`: whether to go on.
  unfoldable pub step : Step → Bytes → C → Bool × C
  unfolding abort_fatal
  step s id c = elim (env.hook s id) [
    | hook_continue ↦ (true, c)
    | hook_fail ↦ (false, abort_fatal id (injected_failure s) c)
    | hook_halt ↦ (false, record c { halted = true })
  ]

  -- `ensure` with the update of its caller.
  unfoldable pub update_pending : Bytes → (PendingCheckpoint → PendingCheckpoint) → C → C
  update_pending id f c = record c { pending = put id (f (or_new (get id c.pending))) c.pending }

  unfoldable pub on_barrier_injected : Bytes → Option Bytes → C → C
  unfolding step update_pending
  on_barrier_injected id offsets c =
      (step barrier_injected id (update_pending id (λ p. record p { offsets = offsets }) c)).1

  unfoldable pub on_state_snapshot : Bytes → List (Bytes × Bytes) → List (Bytes × Bytes) → C → C
  unfolding step update_pending
  on_state_snapshot id state dirs c =
      (step state_snapshotted id
        (update_pending id (λ p. record p { state = state; state_dirs = dirs }) c)).1

  unfoldable pub on_sink_prepared : Bytes → Bool → C → C
  unfolding step update_pending
  on_sink_prepared id sink_err c =
      let c' =
        update_pending id (λ p. record p { prepared_by_sink = true; sink_err = sink_err }) c in
      let (go, c'') = step sink_prepared id c' in
      if go
      then (if c''.halted then c'' else record c'' { events = c''.events ++ id ∷ [] })
      else c''

  -- The checkpoint that is persisted.
  abbrev pub checkpoint_of : Bytes → Bytes → PendingCheckpoint → CheckpointData
  checkpoint_of txn_id id p = record {
    id = id;
    timestamp = env.now id;
    operators = p.state;
    source = elim p.offsets [ none ↦ [] | some offsets ↦ (codes "offset", offsets) ∷ [] ];
    status = prepared;
    txn_id = txn_id;
    state_dirs = p.state_dirs;
  }

  abbrev pub note_offsets : Bool → PendingCheckpoint → C → C
  note_offsets true p c = record c { offset_commits = append_some p.offsets c.offset_commits }
  note_offsets false p c = c

  -- The advisory offset commit, whose errors are only logged.
  unfoldable pub commit_offsets : Bytes → PendingCheckpoint → C → C
  unfolding step
  commit_offsets id p c = (step offsets_committed id (note_offsets env.has_commit_offsets p c)).1

  -- After the sink has committed: promote, notify, commit offsets.
  unfoldable pub promote : Bytes → PendingCheckpoint → C → C
  unfolding step commit_offsets report_fatal
  promote id p c =
      let (ok, s) = update_status id completed c.storage in
      let c' = record c { storage = s } in
      if ok
      then (let (go, c'') =
            step persist_completed id (record c' { completions = c'.completions ++ id ∷ [] }) in
          if go then commit_offsets id p c'' else c'')
      else report_fatal complete_failed c'

  unfoldable pub commit : Bytes → PendingCheckpoint → C → C
  unfolding step promote report_fatal
  commit id p c = elim (env.commit_sink id) [
    | committed ↦
        let (go, c') =
          step sink_committed id (record c { sink_commits = c.sink_commits ++ id ∷ [] }) in
        if go then promote id p c' else c'
    | rejected ↦ report_fatal sink_commit_failed c
    | lost_answer ↦
        report_fatal sink_commit_failed (record c { sink_commits = c.sink_commits ++ id ∷ [] })
  ]

  unfoldable pub persist : Bytes → PendingCheckpoint → C → C
  unfolding step commit abort_fatal
  persist id p c =
      let (ok, s) = save (checkpoint_of c.txn_id id p) c.storage in
      let c' = record c { storage = s } in
      if ok
      then (let (go, c'') = step persist_prepared id c' in if go then commit id p c'' else c'')
      else abort_fatal id persist_failed c'

  unfoldable pub finalize_pending : Bytes → Option PendingCheckpoint → C → C
  unfolding persist abort_fatal
  finalize_pending id none c = c
  finalize_pending id (some p) c =
      if p.sink_err then abort_fatal id sink_prepare_failed c else persist id p c

  unfoldable pub finalize : Bytes → C → C
  unfolding finalize_pending
  finalize id c =
      if c.halted
      then c
      else finalize_pending id (get id c.pending) (record c { pending = delete id c.pending })

  -- The worker of `Start`, on the queue of events.
  unfoldable pub drain : List Bytes → C → C
  unfolding finalize
  drain [] c = c
  drain (id ∷ ids) c = drain ids (finalize id c)
