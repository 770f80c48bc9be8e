-- ===== src/FileStorage/Promoting.antt =====
-- checkpoint/checkpoint.go: what `saveLocked` leaves on the disk, for the promotion of a prepared checkpoint.
use weibo.Base.{
  ℕ, ◌≡◌, refl, ◌⊎◌, inl, inr, true, false, some, List, [], ◌∷◌, ◌++◌, All, ◌≤◌, select, bytes_eq,
  Bool-cases, if_cases, ltb,
}
use weibo.Base.Maps.{get, put, delete, get-put_self, get-delete, put-put}
use weibo.State.{Bytes, bytes_key}
use weibo.Checkpoint.{completed, CheckpointData, is_completed, with_status}
use weibo.FileStorage.{
  CheckpointCodec, Disk, FileStorage, ◌>>◌, remove_checkpoint, precedes, sort_by_age, readable,
  scan, prune, sync_if, enforce_retention, save_locked,
}
use weibo.FileStorage.Calls.{Ends, ok-Ends, >>-Ends}
use weibo.FileStorage.Age.{sort_by_age-All, sort_by_age-append, readable-put, select-append}
use weibo.FileStorage.Saving.{
  IsNewest, completed_count, prune_older, save_locked-Ends, saved, sync_if-Ends,
}

module _ (codec : CheckpointCodec) (retain : ℕ) where
  open codec use {marshal}

  -- A prepared checkpoint that is logged as the latest, among older files.
  pub record LoggedIn (d : CheckpointData) (files : List (Bytes × Bytes)) (disk : Disk)
      : Type 0 where
    pub newest : IsNewest codec retain d files
    pub counted : completed_count codec files ≤ retain
    pub stored : disk.files ≡ put d.id (marshal d) files
    pub latest : disk.latest ≡ some d.id

  abbrev pub whole : CheckpointData → CheckpointData
  whole d = with_status completed d

  -- The checkpoint is on the disk as completed, and is the latest.
  pub record Promoted (d : CheckpointData) (disk : Disk) : Type 0 where
    pub stored : get d.id disk.files ≡ some (marshal (whole d))
    pub latest : disk.latest ≡ some d.id

  -- Besides, the readable files are the older ones and it.
  record Rewritten (d : CheckpointData) (files : List (Bytes × Bytes)) (disk : Disk) : Type 0 where
    promoted : Promoted d disk
    scanned : readable codec disk.files ≡ readable codec files ++ whole d ∷ []

  remove_keeps :
      (d v : CheckpointData) (disk : Disk)
      → bytes_eq v.id d.id ≡ false
      → Promoted d disk
      → Promoted d (remove_checkpoint v.id disk)
  unfolding delete
  remove_keeps d v disk other h = record {
    stored = rw (get-delete d.id v.id disk.files, other) h.stored;
    latest = h.latest;
  }

  spared :
      (d : CheckpointData) (vs : List CheckpointData)
      → All (λ e. bytes_eq e.id d.id ≡ false) vs
      → All
          (λ v. (disk : Disk) → Promoted d disk → Promoted d (remove_checkpoint v.id disk))
          (select is_completed vs)
  unfolding select
  spared d [] h = tt
  spared d (v ∷ vs) h = elim (Bool-cases (is_completed v)) [
    | inl e ↦ rw e ((λ disk p. remove_keeps d v disk h.0 p), spared d vs h.1)
    | inr e ↦ rw e (spared d vs h.1)
  ]

  completed_scan :
      (d : CheckpointData) (files : List (Bytes × Bytes)) (disk : Disk)
      → IsNewest codec retain d files
      → Rewritten d files disk
      → select is_completed (scan codec disk)
        ≡ select is_completed (sort_by_age codec (readable codec files)) ++ whole d ∷ []
  unfolding is_completed precedes select
  completed_scan d files disk h r =
      rw (r.scanned, sort_by_age-append codec (readable codec files) (whole d) h.older)
        (select-append is_completed (sort_by_age codec (readable codec files)) (whole d ∷ []))

  retention-Promoted :
      (d : CheckpointData) (files : List (Bytes × Bytes)) (R : Disk → Type 0) (s : FileStorage)
      → 1 ≤ retain
      → ((x : Disk) → Promoted d x → R x)
      → IsNewest codec retain d files
      → Rewritten d files s.disk
      → Ends (Promoted d) R (enforce_retention codec retain s)
  unfolding enforce_retention
  retention-Promoted d files R s many w h r =
      if_cases (Ends (Promoted d) R) (ltb retain 1) (true, s)
        ((prune codec retain (select is_completed (scan codec s.disk))
            >> sync_if codec (scan codec s.disk))
          s)
        (λ _. ok-Ends (Promoted d) R s r.promoted)
        (λ _.
          >>-Ends (Promoted d) (Promoted d) R
            (prune codec retain (select is_completed (scan codec s.disk)))
            (sync_if codec (scan codec s.disk)) s
            (rw (completed_scan d files s.disk h r) (
              prune_older codec retain (Promoted d) R
                (select is_completed (sort_by_age codec (readable codec files))) (whole d) s many w
                (λ id disk p. record { stored = p.stored; latest = p.latest })
                (spared d (sort_by_age codec (readable codec files))
                  (sort_by_age-All codec _ (readable codec files) h.others))
                r.promoted))
            (λ s' p'. sync_if-Ends codec retain (Promoted d) R (scan codec s.disk) s' w p'))

  rewrite :
      (d : CheckpointData) (files : List (Bytes × Bytes)) (disk : Disk)
      → LoggedIn d files disk
      → Rewritten d files (saved codec retain (whole d) disk)
  rewrite d files disk h = record {
    promoted = record {
      stored = get-put_self d.id (marshal (whole d)) disk.files;
      latest = h.latest;
    };
    scanned =
        rw (h.stored, put-put d.id (marshal d) (marshal (whole d)) files)
          (readable-put codec d.id (marshal (whole d)) (whole d) files h.newest.fresh
            (codec.unmarshal-marshal (whole d)
              (codec.with_status-Encodable completed d h.newest.encodable))
            h.newest.named);
  }

  -- Promoting a logged checkpoint leaves it as the latest, still prepared or completed.
  pub save-Promoted :
      (d : CheckpointData) (files : List (Bytes × Bytes)) (s : FileStorage)
      → 1 ≤ retain
      → LoggedIn d files s.disk
      → Ends (Promoted d) (λ x. (x ≡ s.disk) ⊎ Promoted d x) (save_locked codec retain (whole d) s)
  unfolding is_completed
  save-Promoted d files s many h =
      save_locked-Ends codec retain (whole d) (λ x. x ≡ s.disk) (Rewritten d files)
        (Rewritten d files) (Rewritten d files) (Promoted d) (λ x. (x ≡ s.disk) ⊎ Promoted d x) s
        (λ x g. inl g) (λ x r. inr r.promoted) (λ x r. inr r.promoted) (λ x r. inr r.promoted)
        (λ x g. rw g (rewrite d files s.disk h))
        (λ x r. record {
          promoted = record { stored = r.promoted.stored; latest = refl };
          scanned = r.scanned;
        })
        (λ x e r. record {
          promoted = record { stored = r.promoted.stored; latest = r.promoted.latest };
          scanned = r.scanned;
        })
        (λ x e r. cc e) (λ s' r. retention-Promoted d files _ s' many (λ x p. inr p) h.newest r)
        refl
