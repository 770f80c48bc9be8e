-- ===== src/FileStorage/Succeeds.antt =====
-- checkpoint/checkpoint.go: `Save` and `UpdateStatus` where the operating system refuses no call.
use weibo.Base.{
  ℕ, ◌≡◌, refl, ap, Bool, true, false, List, [], ◌∷◌, some, select, if_cases, if◌then◌else◌,
  Bool-cases, inl, inr, ltb, length,
}
use weibo.State.{Bytes}
use weibo.Checkpoint.{CheckpointData, prepared, completed, is_completed, with_status}
use weibo.FileStorage.{
  CheckpointCodec, Disk, FileStorage, Options, Action, call, ◌>>◌, write_checkpoint, point,
  unchanged, sync_state_dirs, remove_checkpoint, remove_state, prune, sync_if, enforce_retention,
  with_default, save_locked, scan, save, update_status,
}
use weibo.FileStorage.Loads.{at_disk, latest_found, IsValid, IsNext, IsLogged}
use weibo.FileStorage.Saves.{save-IsLogged}
use weibo.FileStorage.Updates.{load_specific-IsLogged, update_status-found}

-- Without a refused call the action succeeds.
Succeeds : Action → Type 0
Succeeds m = (d : Disk) → (e : Disk) × (m (at_disk d) ≡ (true, at_disk e))

call-Succeeds : (f : Disk → Disk) → Succeeds (call f)
unfolding call Succeeds
call-Succeeds f d = (f d, refl)

ok-Succeeds : Succeeds (λ s. (true, s))
unfolding Succeeds
ok-Succeeds d = (d, refl)

>>-Succeeds : (m k : Action) → Succeeds m → Succeeds k → Succeeds (m >> k)
unfolding ◌>>◌ Succeeds
>>-Succeeds m k h g d = let (e, p) = h d in let (e', p') = g e in (e', rw (p, ◌>>◌) p')

sync_state_dirs-Succeeds : (dirs : List (Bytes × Bytes)) → Succeeds (sync_state_dirs dirs)
unfolding sync_state_dirs
sync_state_dirs-Succeeds [] = ok-Succeeds
sync_state_dirs-Succeeds (dir ∷ dirs) =
    >>-Succeeds (call unchanged) (sync_state_dirs dirs) (call-Succeeds unchanged)
      (sync_state_dirs-Succeeds dirs)

module _ (codec : CheckpointCodec) (retain : ℕ) where
  prune-Succeeds : (vs : List CheckpointData) → Succeeds (prune codec retain vs)
  unfolding prune
  prune-Succeeds [] = ok-Succeeds
  prune-Succeeds (v ∷ vs) = elim (Bool-cases (ltb retain (length (v ∷ vs)))) [
    | inl e ↦ rw e (
        >>-Succeeds (call (remove_checkpoint v.id) >> call (remove_state v.id))
          (prune codec retain vs)
          (>>-Succeeds _ _ (call-Succeeds (remove_checkpoint v.id))
            (call-Succeeds (remove_state v.id)))
          (prune-Succeeds vs))
    | inr e ↦ rw e ok-Succeeds
  ]

  sync_if-Succeeds : (ds : List CheckpointData) → Succeeds (sync_if codec ds)
  sync_if-Succeeds [] = ok-Succeeds
  sync_if-Succeeds (d ∷ ds) = call-Succeeds unchanged

  enforce_retention-Succeeds : Succeeds (enforce_retention codec retain)
  unfolding enforce_retention Succeeds
  enforce_retention-Succeeds d =
      if_cases (λ (r : Bool × FileStorage). (e : Disk) × (r ≡ (true, at_disk e))) (ltb retain 1)
        (true, at_disk d)
        ((prune codec retain (select is_completed (scan codec d)) >> sync_if codec (scan codec d))
          (at_disk d))
        (λ _. (d, refl))
        (λ _.
          >>-Succeeds (prune codec retain (select is_completed (scan codec d)))
            (sync_if codec (scan codec d)) (prune-Succeeds (select is_completed (scan codec d)))
            (sync_if-Succeeds (scan codec d)) d)

  finish-Succeeds :
      (d : CheckpointData)
      → Succeeds (if is_completed d then call (point true d.id) else λ s. (true, s))
  finish-Succeeds d =
      if_cases Succeeds (is_completed d) (call (point true d.id)) (λ s. (true, s))
        (λ _. call-Succeeds (point true d.id)) (λ _. ok-Succeeds)

  save_locked-Succeeds : (d : CheckpointData) → Succeeds (save_locked codec retain d)
  unfolding save_locked
  save_locked-Succeeds d =
      >>-Succeeds _ _
        (>>-Succeeds _ _
          (>>-Succeeds _ _
            (>>-Succeeds _ _
              (>>-Succeeds _ _ (call-Succeeds unchanged) (sync_state_dirs-Succeeds d.state_dirs))
              (call-Succeeds (write_checkpoint d.id (codec.marshal (with_default codec d)))))
            (call-Succeeds (point false d.id)))
          (finish-Succeeds d))
        enforce_retention-Succeeds

module _ (codec : CheckpointCodec) (o : Options) where
  save-Succeeds : (d : CheckpointData) → o.startup_failed ≡ false → Succeeds (save codec o d)
  unfolding save Succeeds
  save-Succeeds d started disk = simp started (save_locked-Succeeds codec o.retain_completed d disk)

  promotion-Succeeds :
      (d : CheckpointData) (disk : Disk)
      → IsLogged codec o d (at_disk disk)
      → (update_status codec o d.id completed (at_disk disk)).0 ≡ true
  unfolding update_status Succeeds
  promotion-Succeeds d disk h =
      simp (h.started, load_specific-IsLogged codec o d (at_disk disk) h)
        (ap (λ r. r.0)
          (save_locked-Succeeds codec o.retain_completed (with_status completed d) disk).1)

  -- Where a valid storage started, and the operating system refuses no call, saving a prepared
  -- checkpoint newer than all in it and then promoting it both succeed, and a load then finds the
  -- checkpoint as completed.
  pub checkpoint_completes :
      (d : CheckpointData) (disk : Disk)
      → IsValid codec o (at_disk disk)
      → IsNext codec o d (at_disk disk)
      → d.status ≡ prepared
      → let saved = save codec o d (at_disk disk) in
        let promoted = update_status codec o d.id completed saved.1 in
        (saved.0 ≡ true)
        × (promoted.0 ≡ true)
        × (latest_found codec o promoted.1 ≡ some (with_status completed d))
  unfolding Succeeds
  checkpoint_completes d disk valid next e =
      let (disk', ran) = save-Succeeds d valid.started disk in
      let ok = ap (λ r. r.0) ran in
      let h = save-IsLogged codec o d (at_disk disk) valid next e ok in
      let promoted : (update_status codec o d.id completed (save codec o d (at_disk disk)).1).0
          ≡ true =
        rw ran (promotion-Succeeds d disk' (rw ran at h)) in
      (
        ok,
        promoted,
        elim (update_status-found codec o d (save codec o d (at_disk disk)).1 h) [
          | inl found_it ↦ found_it
          | inr (failed, _) ↦ cc (promoted, failed)
        ],
      )
