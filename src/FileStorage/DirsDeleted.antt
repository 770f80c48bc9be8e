-- ===== src/FileStorage/DirsDeleted.antt =====
-- checkpoint/checkpoint.go, `DeleteStateDirs`: what is found after it.
use weibo.Base.{
  ◌≡◌, refl, ◌∙◌, ap, inl, inr, Bool, true, false, Option, none, some, List, if◌then◌else◌,
  Bool-cases,
}
use weibo.State.{Bytes, bytes_key}
use weibo.Checkpoint.{CheckpointData}
use weibo.FileStorage.{
  CheckpointCodec, Disk, FileStorage, Options, Loaded, missing, load_error, found, call, ◌>>◌,
  repair, remove_state, unchanged, pointed, qualifies, use_pointed, load_specific, load_pointer,
  load, load_latest_completed, delete_state_dirs,
}
use weibo.FileStorage.Calls.{call-Ends, >>-Ends}
use weibo.FileStorage.Loads.{IsLogged, at_disk, completed_found, latest_found, loaded_data}

module _ (codec : CheckpointCodec) (o : Options) where
  abbrev with_dirs : List Bytes → Disk → Disk
  with_dirs dirs disk = record disk { state_dirs = dirs }

  -- Deleting state directories changes nothing else, whatever fails.
  delete_state_dirs-disk :
      (id : Bytes) (s : FileStorage)
      → (dirs : List Bytes) × ((delete_state_dirs codec id s).disk ≡ with_dirs dirs s.disk)
  unfolding delete_state_dirs
  delete_state_dirs-disk id s =
      let P : Disk → Type 0 = λ x. (dirs : List Bytes) × (x ≡ with_dirs dirs s.disk) in
      let h =
        >>-Ends P P P (call (remove_state id)) (call unchanged) s
          (call-Ends P P (remove_state id) s (_, refl) (s.disk.state_dirs, refl) (_, refl))
          (λ s' p. call-Ends P P unchanged s' p p p) in
      elim (Bool-cases ((call (remove_state id) >> call unchanged) s).0) [
        | inl ok ↦ h.succeeds ok
        | inr bad ↦ h.fails bad
      ]

  repair-dirs :
      (completed_only : Bool) (l : Loaded) (dirs : List Bytes) (disk : Disk)
      → (repair codec completed_only l (at_disk (with_dirs dirs disk))).0
        ≡ (repair codec completed_only l (at_disk disk)).0
  unfolding call
  repair-dirs completed_only missing dirs disk = refl
  repair-dirs completed_only load_error dirs disk = refl
  repair-dirs completed_only (found d) dirs disk = refl

  use_pointed-dirs :
      (completed_only : Bool) (l : Loaded) (dirs : List Bytes) (disk : Disk)
      → (use_pointed codec completed_only l (at_disk (with_dirs dirs disk))).0
        ≡ (use_pointed codec completed_only l (at_disk disk)).0
  use_pointed-dirs completed_only missing dirs disk = repair-dirs completed_only _ dirs disk
  use_pointed-dirs completed_only load_error dirs disk = repair-dirs completed_only _ dirs disk
  use_pointed-dirs completed_only (found d) dirs disk =
      elim (Bool-cases (qualifies codec completed_only d)) [
        | inl e ↦ rw e refl
        | inr e ↦ rw e (repair-dirs completed_only _ dirs disk)
      ]

  pointed-dirs :
      (to : Option Bytes) (dirs : List Bytes) (disk : Disk)
      → pointed codec to (with_dirs dirs disk) ≡ pointed codec to disk
  unfolding load_specific
  pointed-dirs none dirs disk = refl
  pointed-dirs (some text) dirs disk = refl

  found_through-dirs :
      (completed_only : Bool) (to : Option Bytes) (dirs : List Bytes) (disk : Disk)
      → (use_pointed codec completed_only
          (pointed codec to (with_dirs dirs disk))
          (at_disk (with_dirs dirs disk))).0
        ≡ (use_pointed codec completed_only (pointed codec to disk) (at_disk disk)).0
  found_through-dirs completed_only to dirs disk =
      ap (λ l. (use_pointed codec completed_only l (at_disk (with_dirs dirs disk))).0)
        (pointed-dirs to dirs disk)
      ∙ use_pointed-dirs completed_only (pointed codec to disk) dirs disk

  load_pointer-dirs :
      (completed_only : Bool) (dirs : List Bytes) (disk : Disk)
      → (load_pointer codec completed_only (at_disk (with_dirs dirs disk))).0
        ≡ (load_pointer codec completed_only (at_disk disk)).0
  unfolding load_pointer
  load_pointer-dirs false dirs disk = found_through-dirs false disk.latest dirs disk
  load_pointer-dirs true dirs disk = found_through-dirs true disk.latest_completed dirs disk

  -- What a start that failed hides, it hides for both storages.
  started_or_not :
      (l l' : Loaded × FileStorage)
      → l.0 ≡ l'.0
      → (s s' : FileStorage)
      → loaded_data (if o.startup_failed then (load_error, s) else l).0
        ≡ loaded_data (if o.startup_failed then (load_error, s') else l').0
  started_or_not l l' e s s' = elim (Bool-cases o.startup_failed) [
    | inl failed ↦ rw failed refl
    | inr started ↦ rw started (ap loaded_data e)
  ]

  latest_found-dirs :
      (dirs : List Bytes) (disk : Disk)
      → latest_found codec o (at_disk (with_dirs dirs disk)) ≡ latest_found codec o (at_disk disk)
  unfolding load
  latest_found-dirs dirs disk =
      started_or_not (load_pointer codec false (at_disk (with_dirs dirs disk)))
        (load_pointer codec false (at_disk disk)) (load_pointer-dirs false dirs disk) _ _

  completed_found-dirs :
      (dirs : List Bytes) (disk : Disk)
      → completed_found codec o (at_disk (with_dirs dirs disk))
        ≡ completed_found codec o (at_disk disk)
  unfolding load_latest_completed
  completed_found-dirs dirs disk =
      started_or_not (load_pointer codec true (at_disk (with_dirs dirs disk)))
        (load_pointer codec true (at_disk disk)) (load_pointer-dirs true dirs disk) _ _

  pub delete-latest_found :
      (id : Bytes) (s : FileStorage)
      → latest_found codec o (delete_state_dirs codec id s) ≡ latest_found codec o s
  delete-latest_found id s =
      let (dirs, e) = delete_state_dirs-disk id s in
      ap (λ (x : Disk). latest_found codec o (at_disk x)) e ∙ latest_found-dirs dirs s.disk

  pub delete-completed_found :
      (id : Bytes) (s : FileStorage)
      → completed_found codec o (delete_state_dirs codec id s) ≡ completed_found codec o s
  delete-completed_found id s =
      let (dirs, e) = delete_state_dirs-disk id s in
      ap (λ (x : Disk). completed_found codec o (at_disk x)) e ∙ completed_found-dirs dirs s.disk

  pub delete-IsLogged :
      (id : Bytes) (d : CheckpointData) (s : FileStorage)
      → IsLogged codec o d s
      → IsLogged codec o d (delete_state_dirs codec id s)
  delete-IsLogged id d s h =
      let (dirs, e) = delete_state_dirs-disk id s in
      record {
        started = h.started;
        retains = h.retains;
        older_files = h.older_files;
        logged_in = record {
          newest = h.logged_in.newest;
          counted = h.logged_in.counted;
          stored = ap (λ (x : Disk). x.files) e ∙ h.logged_in.stored;
          latest = ap (λ (x : Disk). x.latest) e ∙ h.logged_in.latest;
        };
      }
