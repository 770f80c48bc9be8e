-- ===== src/FileStorage/Updates.antt =====
-- checkpoint/checkpoint.go, `UpdateStatus`: what is found after a logged checkpoint has been promoted.
use weibo.Base.{◌≡◌, refl, ◌∙◌, ap, ◌⊎◌, inl, inr, false, some, List, Bool-cases}
use weibo.Base.Maps.{get, get-put_self}
use weibo.State.{Bytes, bytes_key}
use weibo.Checkpoint.{completed, CheckpointData, with_status}
use weibo.FileStorage.{
  CheckpointCodec, Disk, FileStorage, Options, found, load_specific, update_status,
}
use weibo.FileStorage.Calls.{Ends}
use weibo.FileStorage.Promoting.{LoggedIn, Promoted, save-Promoted}
use weibo.FileStorage.Loads.{IsLogged, Points, at_disk, latest_found, latest_found-Points}

module _ (codec : CheckpointCodec) (o : Options) where
  -- A logged checkpoint is the latest; promoted, it still is.
  Points-LoggedIn :
      (d : CheckpointData) (files : List (Bytes × Bytes)) (disk : Disk)
      → LoggedIn codec o.retain_completed d files disk
      → Points codec o disk.latest disk.files d
  Points-LoggedIn d files disk h = record {
    named = h.latest;
    trimmed = h.newest.trimmed;
    bytes = codec.marshal d;
    stored = ap (get d.id) h.stored ∙ get-put_self d.id (codec.marshal d) files;
    parsed = codec.unmarshal-marshal d h.newest.encodable;
  }

  pub latest_found-IsLogged :
      (d : CheckpointData) (s : FileStorage)
      → IsLogged codec o d s
      → latest_found codec o s ≡ some d
  latest_found-IsLogged d s h =
      latest_found-Points codec o s d h.started (Points-LoggedIn d h.older_files s.disk h.logged_in)

  latest_found-Promoted :
      (d : CheckpointData) (s : FileStorage) (disk : Disk)
      → IsLogged codec o d s
      → Promoted codec o.retain_completed d disk
      → latest_found codec o (at_disk disk) ≡ some (with_status completed d)
  latest_found-Promoted d s disk h p =
      latest_found-Points codec o (at_disk disk) (with_status completed d) h.started (record {
        named = p.latest;
        trimmed = h.logged_in.newest.trimmed;
        bytes = codec.marshal (with_status completed d);
        stored = p.stored;
        parsed =
            codec.unmarshal-marshal (with_status completed d)
              (codec.with_status-Encodable completed d h.logged_in.newest.encodable);
      })

  pub load_specific-IsLogged :
      (d : CheckpointData) (s : FileStorage)
      → IsLogged codec o d s
      → load_specific codec d.id s.disk ≡ found d
  unfolding load_specific
  load_specific-IsLogged d s h =
      let p = Points-LoggedIn d h.older_files s.disk h.logged_in in
      rw (p.stored, load_specific) (rw p.parsed refl)

  update-Ends :
      (d : CheckpointData) (s : FileStorage)
      → IsLogged codec o d s
      → Ends
          (Promoted codec o.retain_completed d)
          (λ x. (x ≡ s.disk) ⊎ Promoted codec o.retain_completed d x)
          (update_status codec o d.id completed s)
  unfolding update_status
  update-Ends d s h =
      simp (h.started, load_specific-IsLogged d s h)
        (save-Promoted codec o.retain_completed d h.older_files s h.retains h.logged_in)

  -- Where a prepared checkpoint is logged, whichever calls of its promotion fail, a load finds it as
  -- completed, or the promotion failed and a load finds it as prepared.
  pub update_status-found :
      (d : CheckpointData) (s : FileStorage)
      → IsLogged codec o d s
      → (latest_found codec o (update_status codec o d.id completed s).1
          ≡ some (with_status completed d))
        ⊎ ((update_status codec o d.id completed s).0 ≡ false)
          × (latest_found codec o (update_status codec o d.id completed s).1 ≡ some d)
  update_status-found d s h = elim (Bool-cases (update_status codec o d.id completed s).0) [
    | inl ok ↦ inl (latest_found-Promoted d s _ h ((update-Ends d s h).succeeds ok))
    | inr bad ↦ elim ((update-Ends d s h).fails bad) [
      | inl same ↦ inr (
        bad,
        ap (λ (x : Disk). latest_found codec o (at_disk x)) same ∙ latest_found-IsLogged d s h,
      )
      | inr p ↦ inl (latest_found-Promoted d s _ h p)
    ]
  ]
