-- ===== src/FileStorage/Saving.antt =====
-- checkpoint/checkpoint.go: what `saveLocked` leaves on the disk, for a prepared checkpoint.
use mathlib.Core.List.{append-nil}
use weibo.Base.{
  ℕ, ◌≡◌, refl, ap, ◌⊎◌, inl, inr, true, false, none, List, [], ◌∷◌, ◌++◌, All, length, ◌≤◌, select,
  if◌then◌else◌, arith, bytes_eq, Bool-cases, if_cases, ltb,
}
use weibo.Base.Maps.{get}
use weibo.State.{Bytes, bytes_key}
use weibo.Checkpoint.{Status, prepared, completed, unset, CheckpointData, is_completed}
use weibo.FileStorage.{
  CheckpointCodec, Disk, FileStorage, Action, call, ◌>>◌, write_checkpoint, point, unchanged,
  remove_checkpoint, remove_state, precedes, readable, scan, prune, sync_if, enforce_retention,
  with_default, save_locked, sync_state_dirs,
}
use weibo.FileStorage.Calls.{Ends, call-Ends, ok-Ends, >>-Ends, sync_state_dirs-Ends}
use weibo.FileStorage.Age.{length-select-sort, readable-put, select-append}

-- How many readable checkpoints of a directory are completed.
abbrev pub completed_count : CheckpointCodec → List (Bytes × Bytes) → ℕ
completed_count codec files = length (select is_completed (readable codec files))

module _ (codec : CheckpointCodec) (retain : ℕ) where
  open codec use {marshal}

  pub sync_if-Ends :
      (P R : Disk → Type 0) (ds : List CheckpointData) (s : FileStorage)
      → ((d : Disk) → P d → R d)
      → P s.disk
      → Ends P R (sync_if codec ds s)
  sync_if-Ends P R [] s w p = ok-Ends P R s p
  sync_if-Ends P R (d ∷ ds) s w p = call-Ends P R unchanged s p (w s.disk p) (w s.disk p)

  prune_none :
      (P R : Disk → Type 0) (cs : List CheckpointData) (s : FileStorage)
      → length cs ≤ retain
      → P s.disk
      → Ends P R (prune codec retain cs s)
  unfolding prune
  prune_none P R [] s h p = ok-Ends P R s p
  prune_none P R (v ∷ vs) s h p =
      let few : ltb retain (length (v ∷ vs)) ≡ false = ground arith in rw few (ok-Ends P R s p)

  -- Pruning spares what no removal of an older checkpoint changes.
  pub prune_older :
      (P R : Disk → Type 0) (front : List CheckpointData) (last : CheckpointData) (s : FileStorage)
      → 1 ≤ retain
      → ((d : Disk) → P d → R d)
      → ((id : Bytes) (d : Disk) → P d → P (remove_state id d))
      → All (λ v. (d : Disk) → P d → P (remove_checkpoint v.id d)) front
      → P s.disk
      → Ends P R (prune codec retain (front ++ last ∷ []) s)
  unfolding prune
  prune_older P R [] last s many w dirs keep p = prune_none P R (last ∷ []) s many p
  prune_older P R (v ∷ vs) last s many w dirs keep p =
      let rest =
        λ (s' : FileStorage) (p' : P s'.disk). prune_older P R vs last s' many w dirs keep.1 p' in
      elim (Bool-cases (ltb retain (length (v ∷ vs ++ last ∷ [])))) [
        | inl over ↦ rw over (
            >>-Ends P P R (call (remove_checkpoint v.id) >> call (remove_state v.id))
              (prune codec retain (vs ++ last ∷ [])) s
              (>>-Ends P P R (call (remove_checkpoint v.id)) (call (remove_state v.id)) s
                (call-Ends P R (remove_checkpoint v.id) s (keep.0 s.disk p) (w s.disk p)
                  (w _ (keep.0 s.disk p)))
                (λ s' p'.
                  call-Ends P R (remove_state v.id) s' (dirs v.id s'.disk p') (w s'.disk p')
                    (w _ (dirs v.id s'.disk p'))))
              rest)
        | inr fits ↦ rw fits (ok-Ends P R s p)
      ]

  retention_none :
      (P R : Disk → Type 0) (s : FileStorage)
      → ((d : Disk) → P d → R d)
      → completed_count codec s.disk.files ≤ retain
      → P s.disk
      → Ends P R (enforce_retention codec retain s)
  unfolding enforce_retention
  retention_none P R s w few p =
      if_cases (Ends P R) (ltb retain 1) (true, s)
        ((prune codec retain (select is_completed (scan codec s.disk))
            >> sync_if codec (scan codec s.disk))
          s)
        (λ _. ok-Ends P R s p)
        (λ _.
          >>-Ends P P R (prune codec retain (select is_completed (scan codec s.disk)))
            (sync_if codec (scan codec s.disk)) s
            (prune_none P R _ s
              (omega
                (arith, length-select-sort codec is_completed (readable codec s.disk.files), few))
              p)
            (λ s' p'. sync_if-Ends P R (scan codec s.disk) s' w p'))

  -- A new checkpoint that all others precede.
  pub record IsNewest (d : CheckpointData) (files : List (Bytes × Bytes)) : Type 0 where
    pub encodable : codec.Encodable d
    pub named : bytes_eq d.id [] ≡ false
    pub trimmed : codec.trim_space d.id ≡ d.id
    pub fresh : get d.id files ≡ none
    pub older : All (λ e. precedes codec e d ≡ true) (readable codec files)
    pub others : All (λ e. bytes_eq e.id d.id ≡ false) (readable codec files)

  abbrev pub saved : CheckpointData → Disk → Disk
  saved d disk = write_checkpoint d.id (marshal d) disk

  abbrev pub logged : CheckpointData → Disk → Disk
  logged d disk = point false d.id (saved d disk)

  -- The stages that saving a prepared checkpoint passes.
  abbrev pub Stage : CheckpointData → Disk → Disk → Type 0
  Stage d before disk = (disk ≡ before) ⊎ (disk ≡ saved d before) ⊎ (disk ≡ logged d before)

  with_default-prepared : (d : CheckpointData) → d.status ≡ prepared → with_default codec d ≡ d
  with_default-prepared d e =
      ap (λ (status : Status). record d { status = status }) (default_status d.status e)
    where
      default_status :
          (x : Status)
          → x ≡ prepared
          → elim x [ prepared ↦ prepared | completed ↦ completed | unset ↦ completed ] ≡ x
      default_status x e = ground arith

  completed_count-saved :
      (d : CheckpointData) (disk : Disk)
      → IsNewest d disk.files
      → is_completed d ≡ false
      → completed_count codec (logged d disk).files ≡ completed_count codec disk.files
  unfolding select
  completed_count-saved d disk h part =
      rw
        (
          readable-put codec d.id (marshal d) d disk.files h.fresh
              (codec.unmarshal-marshal d h.encodable) h.named,
          select-append is_completed (readable codec disk.files) (d ∷ []),
          part,
        )
        (ap length (append-nil (select is_completed (readable codec disk.files))))

  -- The stages of `saveLocked`, whichever of its calls fails.
  pub save_locked-Ends :
      (d : CheckpointData) (P0 P1 P2 P3 Q R : Disk → Type 0) (s : FileStorage)
      → ((x : Disk) → P0 x → R x)
      → ((x : Disk) → P1 x → R x)
      → ((x : Disk) → P2 x → R x)
      → ((x : Disk) → P3 x → R x)
      → ((x : Disk) → P0 x → P1 (saved (with_default codec d) x))
      → ((x : Disk) → P1 x → P2 (point false d.id x))
      → ((x : Disk) → is_completed d ≡ true → P2 x → P3 (point true d.id x))
      → ((x : Disk) → is_completed d ≡ false → P2 x → P3 x)
      → ((s' : FileStorage) → P3 s'.disk → Ends Q R (enforce_retention codec retain s'))
      → P0 s.disk
      → Ends Q R (save_locked codec retain d s)
  unfolding save_locked
  save_locked-Ends d P0 P1 P2 P3 Q R s w0 w1 w2 w3 write latest complete skip retention p =
      >>-Ends P3 Q R step4 (enforce_retention codec retain) s
        (>>-Ends P2 P3 R step3 finish s
          (>>-Ends P1 P2 R step2 (call (point false d.id)) s
            (>>-Ends P0 P1 R step1 write_file s
              (>>-Ends P0 P0 R (call unchanged) (sync_state_dirs d.state_dirs) s
                (call-Ends P0 R unchanged s p (w0 s.disk p) (w0 s.disk p))
                (λ s' p'. sync_state_dirs-Ends P0 R d.state_dirs s' w0 p'))
              (λ s' p'.
                call-Ends P1 R (write_checkpoint d.id (marshal (with_default codec d))) s'
                  (write s'.disk p') (w0 s'.disk p') (w1 _ (write s'.disk p'))))
            (λ s' p'.
              call-Ends P2 R (point false d.id) s' (latest s'.disk p') (w1 s'.disk p')
                (w2 _ (latest s'.disk p'))))
          (λ s' p'. finishes s' p'))
        retention
    where
      write_file : Action
      write_file = call (write_checkpoint d.id (marshal (with_default codec d)))

      finish : Action
      finish = if is_completed d then call (point true d.id) else λ s'. (true, s')

      step1 : Action
      step1 = call unchanged >> sync_state_dirs d.state_dirs

      step2 : Action
      step2 = step1 >> write_file

      step3 : Action
      step3 = step2 >> call (point false d.id)

      step4 : Action
      step4 = step3 >> finish

      finishes : (s' : FileStorage) → P2 s'.disk → Ends P3 R (finish s')
      finishes s' p' = elim (Bool-cases (is_completed d)) [
        | inl e ↦ rw e (
            call-Ends P3 R (point true d.id) s' (complete s'.disk e p') (w2 s'.disk p')
              (w3 _ (complete s'.disk e p')))
        | inr e ↦ rw e (ok-Ends P3 R s' (skip s'.disk e p'))
      ]

  -- Saving a new prepared checkpoint logs it, and stops at some stage of that on an error.
  pub save_prepared :
      (d : CheckpointData) (s : FileStorage)
      → IsNewest d s.disk.files
      → d.status ≡ prepared
      → completed_count codec s.disk.files ≤ retain
      → Ends (λ x. x ≡ logged d s.disk) (Stage d s.disk) (save_locked codec retain d s)
  unfolding is_completed
  save_prepared d s h e few =
      let before = s.disk in
      let open_status : is_completed d ≡ false = rw (e, is_completed) refl in
      save_locked-Ends d (λ x. x ≡ before) (λ x. x ≡ saved d before) (λ x. x ≡ logged d before)
        (λ x. x ≡ logged d before) (λ x. x ≡ logged d before) (Stage d before) s (λ x g. inl g)
        (λ x g. inr (inl g)) (λ x g. inr (inr g)) (λ x g. inr (inr g))
        (λ x g. rw (with_default-prepared d e) (ap (saved d) g)) (λ x g. ap (point false d.id) g)
        (λ x e' g. cc (e', open_status)) (λ x part g. g)
        (λ s' g.
          retention_none _ (Stage d before) s' (λ x k. inr (inr k))
            (rw g (omega (arith, completed_count-saved d before h open_status, few))) g)
        refl
