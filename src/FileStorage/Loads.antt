-- ===== src/FileStorage/Loads.antt =====
-- checkpoint/checkpoint.go: what a load finds, which is what it returns where no call of its own fails;
-- and the states of a storage in use.
use weibo.Base.{
  ◌≡◌, refl, ◌⊎◌, Bool, true, false, Option, none, some, List, [], ◌∷◌, All, ◌≤◌, select, arith,
  bytes_eq_iff, if_cases,
}
use weibo.Base.Maps.{get, put, get-put}
use weibo.State.{Bytes, bytes_key}
use weibo.Checkpoint.{CheckpointData, is_completed}
use weibo.FileStorage.{
  CheckpointCodec, Disk, FileStorage, Options, Loaded, missing, load_error, found, readable, scan,
  pointer, pointed, qualifies, load_specific, load_pointer, load, load_latest_completed,
}
use weibo.FileStorage.Age.{sort_by_age-All}
use weibo.FileStorage.Saving.{completed_count, IsNewest}
use weibo.FileStorage.Promoting.{LoggedIn}

abbrev pub loaded_data : Loaded → Option CheckpointData
loaded_data missing = none
loaded_data load_error = none
loaded_data (found d) = some d

abbrev pub at_disk : Disk → FileStorage
at_disk disk = record { disk = disk; answers = [] }

module _ (codec : CheckpointCodec) (o : Options) where
  open codec use {unmarshal, trim_space}

  abbrev quiet : FileStorage → FileStorage
  quiet s = record s { answers = [] }

  abbrev pub latest_found : FileStorage → Option CheckpointData
  latest_found s = loaded_data (load codec o (quiet s)).0

  abbrev pub completed_found : FileStorage → Option CheckpointData
  completed_found s = loaded_data (load_latest_completed codec o (quiet s)).0

  -- A pointer file names a checkpoint whose file can be read.
  pub record Points (to : Option Bytes) (files : List (Bytes × Bytes)) (d : CheckpointData)
      : Type 0 where
    pub named : to ≡ some d.id
    pub trimmed : trim_space d.id ≡ d.id
    pub bytes : Bytes
    pub stored : get d.id files ≡ some bytes
    pub parsed : unmarshal bytes ≡ some d

  pointed-found :
      (to : Option Bytes) (disk : Disk) (d : CheckpointData)
      → Points to disk.files d
      → pointed codec to disk ≡ found d
  unfolding load_specific
  pointed-found to disk d h =
      rw h.named (rw (h.trimmed, load_specific) (rw h.stored (rw h.parsed refl)))

  load_pointer-found :
      (completed_only : Bool) (s : FileStorage) (d : CheckpointData)
      → Points (pointer codec completed_only s.disk) s.disk.files d
      → qualifies codec completed_only d ≡ true
      → load_pointer codec completed_only s ≡ (found d, s)
  unfolding load_pointer
  load_pointer-found completed_only s d h q =
      rw (pointed-found (pointer codec completed_only s.disk) s.disk d h, load_pointer) (rw q refl)

  select-none :
      (p : CheckpointData → Bool) (ds : List CheckpointData)
      → All (λ d. p d ≡ false) ds
      → select p ds ≡ []
  unfolding select
  select-none p [] h = refl
  select-none p (d ∷ ds) h = rw h.0 (select-none p ds h.1)

  -- Without a pointer and without completed checkpoints, none is found.
  pub completed_found-none :
      (s : FileStorage)
      → s.disk.latest_completed ≡ none
      → All (λ d. is_completed d ≡ false) (readable codec s.disk.files)
      → completed_found s ≡ none
  unfolding load_latest_completed load_pointer
  completed_found-none s e h =
      if_cases (λ (r : Loaded × FileStorage). loaded_data r.0 ≡ none) o.startup_failed
        (load_error, quiet s) (load_pointer codec true (quiet s)) (λ _. refl)
        (λ _.
          rw (e, load_pointer)
            (rw
              (select-none (qualifies codec true) (scan codec s.disk)
                (sort_by_age-All codec _ (readable codec s.disk.files) h))
              refl))

  -- A storage in use: it started, keeps at least one checkpoint, and its pointers are right.
  pub record IsValid (s : FileStorage) : Type 0 where
    pub started : o.startup_failed ≡ false
    pub retains : 1 ≤ o.retain_completed
    pub counted : completed_count codec s.disk.files ≤ o.retain_completed
    pub latest_ok :
        ((d : CheckpointData) × Points s.disk.latest s.disk.files d)
        ⊎ (s.disk.latest ≡ none) × (s.disk.files ≡ [])
    pub completed_ok :
        ((d : CheckpointData) × Points s.disk.latest_completed s.disk.files d
          × (is_completed d ≡ true))
        ⊎ (s.disk.latest_completed ≡ none)
          × All (λ d. is_completed d ≡ false) (readable codec s.disk.files)

  abbrev pub IsNext : CheckpointData → FileStorage → Type 0
  IsNext d s = IsNewest codec o.retain_completed d s.disk.files

  pub record IsLogged (d : CheckpointData) (s : FileStorage) : Type 0 where
    pub started : o.startup_failed ≡ false
    pub retains : 1 ≤ o.retain_completed
    pub older_files : List (Bytes × Bytes)
    pub logged_in : LoggedIn codec o.retain_completed d older_files s.disk

  pub latest_found-Points :
      (s : FileStorage) (d : CheckpointData)
      → o.startup_failed ≡ false
      → Points s.disk.latest s.disk.files d
      → latest_found s ≡ some d
  unfolding load
  latest_found-Points s d started h = rw (started, load_pointer-found false (quiet s) d h refl)

  pub completed_found-Points :
      (s : FileStorage) (d : CheckpointData)
      → o.startup_failed ≡ false
      → Points s.disk.latest_completed s.disk.files d
      → is_completed d ≡ true
      → completed_found s ≡ some d
  unfolding load_latest_completed
  completed_found-Points s d started h c = rw (started, load_pointer-found true (quiet s) d h c)

  -- A file with a new name leaves the others as they are.
  pub Points-put :
      (to : Option Bytes) (files : List (Bytes × Bytes)) (d : CheckpointData) (k b : Bytes)
      → get k files ≡ none
      → Points to files d
      → Points to (put k b files) d
  unfolding get
  Points-put to files d k b fresh h = record {
    named = h.named;
    trimmed = h.trimmed;
    bytes = h.bytes;
    stored = ground (arith, get-put d.id k b files, bytes_eq_iff k d.id, h.stored, fresh);
    parsed = h.parsed;
  }
