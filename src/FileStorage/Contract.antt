-- ===== src/FileStorage/Contract.antt =====
-- checkpoint/checkpoint.go: `FileStorage` as an instance of the contract `Storage`.
use weibo.Base.{◌≡◌, refl, ◌⊎◌, inl, inr, false, some, Bool-cases}
use weibo.State.{bytes_key}
use weibo.Checkpoint.{prepared, CheckpointData, Storage, is_completed}
use weibo.FileStorage.{
  CheckpointCodec, FileStorage, Options, save, update_status, delete_state_dirs,
}
use weibo.FileStorage.Loads.{IsLogged, IsNext, IsValid, completed_found, latest_found}
use weibo.FileStorage.Saves.{completed_found-Stage, latest_found-Stage, save-IsLogged, save-Stage}
use weibo.FileStorage.Updates.{latest_found-IsLogged, update_status-found}
use weibo.FileStorage.DirsDeleted.{delete-IsLogged, delete-completed_found, delete-latest_found}

module _ (codec : CheckpointCodec) (o : Options) where
  pub is_completed-prepared : (d : CheckpointData) → d.status ≡ prepared → is_completed d ≡ false
  unfolding is_completed
  is_completed-prepared d e = rw (e, is_completed) refl

  -- Where the storage is valid, and a prepared checkpoint is newer than all in it: after a save of it,
  -- whichever calls fail, a load finds it, or the save failed and a load finds what it found before; and
  -- the latest completed checkpoint is still found.
  pub save_found :
      (d : CheckpointData) (s : FileStorage)
      → IsValid codec o s
      → IsNext codec o d s
      → d.status ≡ prepared
      → let after = save codec o d s in
        ((latest_found codec o after.1 ≡ some d)
          ⊎ (after.0 ≡ false) × (latest_found codec o after.1 ≡ latest_found codec o s))
        × (completed_found codec o after.1 ≡ completed_found codec o s)
  save_found d s valid next e =
      let stage = save-Stage codec o d s valid next e in
      (
        elim (Bool-cases (save codec o d s).0) [
          | inl ok ↦
              inl (latest_found-IsLogged codec o d _ (save-IsLogged codec o d s valid next e ok))
          | inr failed ↦ elim (latest_found-Stage codec o d s valid next _ stage) [
            | inl same ↦ inr (failed, same)
            | inr new ↦ inl new
          ]
        ],
        completed_found-Stage codec o d s valid next _ (is_completed-prepared d e) stage,
      )

  -- `FileStorage` keeps the contract.
  abbrev pub file_storage : Storage
  file_storage = record {
    State = FileStorage;
    save = save codec o;
    update_status = update_status codec o;
    load = latest_found codec o;
    load_latest_completed = completed_found codec o;
    delete_state_dirs = delete_state_dirs codec;
    IsValid = IsValid codec o;
    IsNext = IsNext codec o;
    IsLogged = IsLogged codec o;
    save_done = λ d s v n e ok. save-IsLogged codec o d s v n e ok;
    save_failed = λ d s v n e. latest_found-Stage codec o d s v n _ (save-Stage codec o d s v n e);
    save_completed = λ d s v n e.
        completed_found-Stage codec o d s v n _ (is_completed-prepared d e)
          (save-Stage codec o d s v n e);
    load-IsLogged = latest_found-IsLogged codec o;
    update_done = update_status-found codec o;
    load-delete_state_dirs = delete-latest_found codec o;
    load_latest_completed-delete_state_dirs = delete-completed_found codec o;
    delete_state_dirs-IsLogged = delete-IsLogged codec o;
  }
