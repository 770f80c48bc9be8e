-- ===== src/Examples/Batches.antt =====
-- A writer of batches of two entries.
use weibo.Base.{ℕ, ◌≡◌, ◌≤◌, refl, inl, true, false, List, [], ◌∷◌, All, length}
use weibo.Base.Int.{pos}
use weibo.Types.{Record, zero_record}
use weibo.State.{Bytes}
use weibo.BatchWriter.{
  Converted, skipped, entry, BatchWriter, Batching, Event, received, closed, tick, finished,
  size_of, run,
}
use weibo.BatchWriter.Flushed.{concat, accepted, AllFlushesOk, run_flushes_all}
use weibo.BatchWriter.Sizes.{run_batches_small}

-- Records without a value are declined.
abbrev value_entry : Bytes → Converted Bytes
value_entry [] = skipped
value_entry (b ∷ bs) = entry (b ∷ bs)

abbrev pairs : BatchWriter Bytes
pairs = record {
  batch_size = pos 2;
  async = false;
  convert = λ r. value_entry r.value;
  flush_ok = λ n. true;
}

abbrev valued : ℕ → Record
valued b = record zero_record { value = b ∷ [] }

abbrev events : List Event
events =
    received (valued 1)
    ∷ received zero_record
    ∷ received (valued 2)
    ∷ tick
    ∷ received (valued 3)
    ∷ closed false
    ∷ []

abbrev written : Batching Bytes
written = record {
  batch = [];
  flushed = ((1 ∷ []) ∷ (2 ∷ []) ∷ []) ∷ ((3 ∷ []) ∷ []) ∷ [];
  waiting_error = false;
}

writes :
    run pairs events (record { batch = []; flushed = []; waiting_error = false })
    ≡ (finished, written)
unfolding run
writes = refl

run_flushes_all_example :
    (concat written.flushed ≡ accepted pairs events)
    × (written.batch ≡ [])
    × AllFlushesOk pairs written
run_flushes_all_example = run_flushes_all pairs events written (inl writes)

run_batches_small_example :
    All
      (λ (b : List Bytes). length b ≤ size_of pairs.batch_size)
      (run pairs events (record { batch = []; flushed = []; waiting_error = false })).1.flushed
run_batches_small_example = run_batches_small pairs events refl
