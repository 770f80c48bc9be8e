-- ===== src/Checkpoint.antt =====
-- checkpoint/checkpoint.go: the data of a checkpoint, and the contract of `Storage` that the
-- coordinator and the recovery of the engine rely on.
use weibo.Base.{◌≡◌, ◌⊎◌, Bool, true, false, Option, some, List}
use weibo.Base.Int.{ℤ}
use weibo.State.{Bytes}

-- `Status`; `unset` is the empty status of older files.
pub data Status : Type 0 where
  prepared completed unset : Status

pub record CheckpointData : Type 0 where
  pub id : Bytes
  pub timestamp : ℤ
  pub operators : List (Bytes × Bytes)
  pub source : List (Bytes × Bytes)
  pub status : Status
  pub txn_id : Bytes
  pub state_dirs : List (Bytes × Bytes)

-- `CheckpointData.Completed`.
unfoldable pub is_completed : CheckpointData → Bool
is_completed d = elim d.status [ prepared ↦ false | completed ↦ true | unset ↦ true ]

abbrev pub with_status : Status → CheckpointData → CheckpointData
with_status status d = record d { status = status }

-- A storage operation returns whether it succeeded, and the state that it leaves. `load` and
-- `load_latest_completed` are what a load after a crash would find. `IsValid` is what a storage is in
-- when a job runs on it, `IsNext` a checkpoint newer than all in it, and `IsLogged` one that is its
-- latest, durably prepared.
pub record Storage : Type 1 where
  pub State : Type 0
  pub save : CheckpointData → State → Bool × State
  pub update_status : Bytes → Status → State → Bool × State
  pub load : State → Option CheckpointData
  pub load_latest_completed : State → Option CheckpointData
  pub delete_state_dirs : Bytes → State → State
  pub IsValid : State → Type 0
  pub IsNext : CheckpointData → State → Type 0
  pub IsLogged : CheckpointData → State → Type 0
  pub save_done :
      (d : CheckpointData) (s : State)
      → IsValid s
      → IsNext d s
      → d.status ≡ prepared
      → (save d s).0 ≡ true
      → IsLogged d (save d s).1
  pub save_failed :
      (d : CheckpointData) (s : State)
      → IsValid s
      → IsNext d s
      → d.status ≡ prepared
      → (load (save d s).1 ≡ load s) ⊎ (load (save d s).1 ≡ some d)
  pub save_completed :
      (d : CheckpointData) (s : State)
      → IsValid s
      → IsNext d s
      → d.status ≡ prepared
      → load_latest_completed (save d s).1 ≡ load_latest_completed s
  pub load-IsLogged : (d : CheckpointData) (s : State) → IsLogged d s → load s ≡ some d
  pub update_done :
      (d : CheckpointData) (s : State)
      → IsLogged d s
      → (load (update_status d.id completed s).1 ≡ some (with_status completed d))
        ⊎ ((update_status d.id completed s).0 ≡ false)
          × (load (update_status d.id completed s).1 ≡ some d)
  pub load-delete_state_dirs : (id : Bytes) (s : State) → load (delete_state_dirs id s) ≡ load s
  pub load_latest_completed-delete_state_dirs :
      (id : Bytes) (s : State)
      → load_latest_completed (delete_state_dirs id s) ≡ load_latest_completed s
  pub delete_state_dirs-IsLogged :
      (id : Bytes) (d : CheckpointData) (s : State)
      → IsLogged d s
      → IsLogged d (delete_state_dirs id s)
