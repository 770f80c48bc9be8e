-- ===== src/BatchWriter/Sizes.antt =====
-- sink/batch.go: how large the batches are.
use weibo.Base.{
  ℕ, suc, ◌≤◌, ◌≡◌, refl, inl, inr, Bool, true, false, not, ◌||◌, List, [], ◌∷◌, All, All-append,
  if◌then◌else◌, length, length-append, arith, Bool-cases, if_cases,
}
use weibo.Base.Int.{ℤ, pos, negsuc}
use weibo.BatchWriter.{
  Converted, convert_error, skipped, entry, BatchWriter, Batching, Event, received, closed,
  cancelled, tick, background_error, Outcome, finished, context_error, failed, size_of, add_entry,
  add, is_full, flush_items, do_flush, finish, run,
}

size_of-pos : (z : ℤ) → 1 ≤ size_of z
size_of-pos (pos n) = ground arith
size_of-pos (negsuc n) = ground arith

-- Whether the context is not cancelled before the end of the input.
abbrev pub is_undisturbed : List Event → Bool
is_undisturbed [] = true
is_undisturbed (received r ∷ es) = is_undisturbed es
is_undisturbed (closed c ∷ es) = true
is_undisturbed (cancelled ∷ es) = false
is_undisturbed (tick ∷ es) = is_undisturbed es
is_undisturbed (background_error ∷ es) = is_undisturbed es

module _ {T : Type 0} (w : BatchWriter T) where
  abbrev size : ℕ
  size = size_of w.batch_size

  -- The batches that have been flushed are not too large, and what is buffered is below a bound.
  record IsBounded (bound : ℕ) (s : Batching T) : Type 0 where
    small : All (λ (b : List T). length b ≤ size) s.flushed
    room : length s.batch ≤ bound

  flush_items-IsBounded :
      (items : List T) (s : Batching T)
      → s.batch ≡ items
      → IsBounded size s
      → IsBounded 0 (flush_items w items s).1
  flush_items-IsBounded [] s e h = record { small = h.small; room = rw e (ground arith) }
  flush_items-IsBounded (x ∷ xs) s e h =
      let fits : length (x ∷ xs) ≤ size = (rw e at h.room) in
      let small =
        All-append (λ (b : List T). length b ≤ size) s.flushed ((x ∷ xs) ∷ []) h.small (fits, tt) in
      elim (Bool-cases w.async) [
        | inl a ↦ simp a (record { small = small; room = ground arith })
        | inr a ↦ simp a (record { small = small; room = ground arith })
      ]

  do_flush-IsBounded : (s : Batching T) → IsBounded size s → IsBounded 0 (do_flush w s).1
  unfolding do_flush
  do_flush-IsBounded s h = flush_items-IsBounded s.batch s refl h

  -- A full batch is flushed at once.
  added-IsBounded :
      (c : Converted T) (s : Batching T)
      → suc (length s.batch) ≤ size
      → All (λ (b : List T). length b ≤ size) s.flushed
      → IsBounded size (add_entry w c s).1
        × (is_full w c (add_entry w c s).1 ≡ false → suc (length (add_entry w c s).1.batch) ≤ size)
  added-IsBounded convert_error s room small =
      (record { small = small; room = omega (arith, room) }, λ _. room)
  added-IsBounded skipped s room small =
      (record { small = small; room = omega (arith, room) }, λ _. room)
  added-IsBounded (entry x) s room small = (
    record { small = small; room = omega (arith, room, length-append s.batch (x ∷ [])) },
    λ part. ground (arith, part),
  )

  abbrev AllSmall : Outcome × Batching T → Type 0
  AllSmall r = All (λ (b : List T). length b ≤ size) r.1.flushed

  -- Room for one more entry at least.
  after_flush : (s : Batching T) → IsBounded 0 s → suc (length s.batch) ≤ size
  after_flush s h = omega (arith, h.room, size_of-pos w.batch_size)

  finish-AllSmall : (c : Bool) (s : Batching T) → IsBounded size s → AllSmall (finish w c s)
  finish-AllSmall c s h =
      if_cases AllSmall (not (do_flush w s).0 || (do_flush w s).1.waiting_error)
        (failed, (do_flush w s).1) ((if c then context_error else finished), (do_flush w s).1)
        (λ _. (do_flush-IsBounded s h).small) (λ _. (do_flush-IsBounded s h).small)

  run-AllSmall :
      (es : List Event) (s : Batching T)
      → is_undisturbed es ≡ true
      → suc (length s.batch) ≤ size
      → All (λ (b : List T). length b ≤ size) s.flushed
      → AllSmall (run w es s)
  unfolding run
  run-AllSmall [] s calm room small = small
  run-AllSmall (received r ∷ es) s calm room small =
      let added = (add w r s).1 in
      let h = added-IsBounded (w.convert r) s room small in
      let kept = do_flush-IsBounded added h.0 in
      if_cases AllSmall (add w r s).0 _ (failed, added)
        (λ _.
          if_cases
            (λ (x : Bool × Batching T). AllSmall (if x.0 then run w es x.1 else (failed, x.1)))
            (is_full w (w.convert r) added) (do_flush w added) (true, added)
            (λ _.
              if_cases AllSmall (do_flush w added).0 _ (failed, (do_flush w added).1)
                (λ _.
                  run-AllSmall es (do_flush w added).1 calm (after_flush (do_flush w added).1 kept)
                    kept.small)
                (λ _. kept.small))
            (λ part. run-AllSmall es added calm (h.1 part) h.0.small))
        (λ _. h.0.small)
  run-AllSmall (closed c ∷ es) s calm room small =
      finish-AllSmall c s (record { small = small; room = omega (arith, room) })
  run-AllSmall (cancelled ∷ es) s calm room small = cc calm
  run-AllSmall (tick ∷ es) s calm room small =
      let h = do_flush-IsBounded s (record { small = small; room = omega (arith, room) }) in
      if_cases AllSmall (do_flush w s).0 _ (failed, (do_flush w s).1)
        (λ _. run-AllSmall es (do_flush w s).1 calm (after_flush (do_flush w s).1 h) h.small)
        (λ _. h.small)
  run-AllSmall (background_error ∷ es) s calm room small =
      if_cases AllSmall s.waiting_error (failed, s) (run w es s) (λ _. small)
        (λ _. run-AllSmall es s calm room small)

-- Where the loop starts with an empty batch, and the context is not cancelled before the end of the input, no
-- batch that is flushed is larger than the batch size, or than 100 where that is not positive.
pub run_batches_small :
    {T : Type 0} (w : BatchWriter T) (es : List Event)
    → is_undisturbed es ≡ true
    → All
        (λ (b : List T). length b ≤ size_of w.batch_size)
        (run w es (record { batch = []; flushed = []; waiting_error = false })).1.flushed
run_batches_small w es calm =
    run-AllSmall w es (record { batch = []; flushed = []; waiting_error = false }) calm
      (size_of-pos w.batch_size) tt
