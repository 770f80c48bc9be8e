-- ===== src/BatchWriter.antt =====
-- sink/batch.go: the loop of `batchWriter`, on the cases that its `select` takes. Times, contexts and locks are
-- left out: a timer that fires and a context that is cancelled are events.
pub mod Flushed
pub mod Sizes
use weibo.Base.{
  ℕ, ◌+◌, Bool, true, false, not, ◌||◌, List, [], ◌∷◌, ◌++◌, if◌then◌else◌, ltb, length,
}
use weibo.Base.Int.{ℤ, pos, negsuc}
use weibo.Types.{Record}

-- What `convert` or `convertWithError` makes of a record.
pub data Converted (T : Type 0) : Type 0 where
  convert_error skipped : Converted T
  entry : T → Converted T

-- `flush_ok` says whether the call of `flush` of that number succeeds.
pub record BatchWriter (T : Type 0) : Type 0 where
  pub batch_size : ℤ
  pub async : Bool
  pub convert : Record → Converted T
  pub flush_ok : ℕ → Bool

-- `flushed` are the batches handed to `flush`, the first to its call of number 0, and `waiting_error` whether `errCh` holds an error.
pub record Batching (T : Type 0) : Type 0 where
  pub batch : List T
  pub flushed : List (List T)
  pub waiting_error : Bool

-- `closed` carries whether the context has been cancelled by then. While the input is drained, the deadline
-- is the end of the events.
pub data Event : Type 0 where
  received : Record → Event
  closed : Bool → Event
  cancelled tick background_error : Event

-- `blocked` is a loop that still waits.
pub data Outcome : Type 0 where
  finished context_error failed blocked : Outcome

abbrev pub size_of : ℤ → ℕ
size_of (pos n) = if ltb 0 n then n else 100
size_of (negsuc n) = 100

module _ {T : Type 0} (w : BatchWriter T) where
  abbrev pub add_entry : Converted T → Batching T → Bool × Batching T
  add_entry convert_error s = (false, s)
  add_entry skipped s = (true, s)
  add_entry (entry x) s = (true, record s { batch = s.batch ++ x ∷ [] })

  -- `add`: whether it met no error.
  abbrev pub add : Record → Batching T → Bool × Batching T
  add r s = add_entry (w.convert r) s

  -- Whether `add` reports a full batch: only an entry does.
  abbrev pub is_full : Converted T → Batching T → Bool
  is_full convert_error s = false
  is_full skipped s = false
  is_full (entry x) s = not (ltb (length s.batch) (size_of w.batch_size))

  -- With `async` a goroutine runs each call, and the loop goes on: `flushed` is then the order in which the
  -- goroutines are started, not that in which they write, and the error waits from the start of the call.
  abbrev pub flush_items : List T → Batching T → Bool × Batching T
  flush_items [] s = (true, s)
  flush_items (x ∷ xs) s =
      let ok = w.flush_ok (length s.flushed) in
      let s' = record s { batch = []; flushed = s.flushed ++ (x ∷ xs) ∷ [] } in
      if w.async then (true, record s' { waiting_error = s.waiting_error || not ok }) else (ok, s')

  -- `doFlush`.
  unfoldable pub do_flush : Batching T → Bool × Batching T
  do_flush s = flush_items s.batch s

  unfoldable pub drain : List Event → Batching T → Bool × Batching T
  drain [] s = (true, s)
  drain (received r ∷ es) s =
      let (ok, s') = add r s in
      let (rest_ok, s'') = drain es s' in if ok then (rest_ok, s'') else (false, s')
  drain (closed c ∷ es) s = (true, s)
  drain (cancelled ∷ es) s = drain es s
  drain (tick ∷ es) s = drain es s
  drain (background_error ∷ es) s = drain es s

  -- The last flush, and the background errors.
  abbrev pub finish : Bool → Batching T → Outcome × Batching T
  finish context_done s =
      let (ok, s') = do_flush s in
      if not ok || s'.waiting_error
      then (failed, s')
      else ((if context_done then context_error else finished), s')

  abbrev pub shut_down : Bool × Batching T → Outcome × Batching T
  shut_down (true, s) = finish true s
  shut_down (false, s) = (failed, s)

  -- `run`.
  unfoldable pub run : List Event → Batching T → Outcome × Batching T
  unfolding do_flush drain
  run [] s = (blocked, s)
  run (received r ∷ es) s =
      let (ok, s') = add r s in
      let (flush_done, s'') = if is_full (w.convert r) s' then do_flush s' else (true, s') in
      let rest = run es s'' in
      if ok then (if flush_done then rest else (failed, s'')) else (failed, s')
  run (closed c ∷ es) s = finish c s
  run (cancelled ∷ es) s = shut_down (drain es s)
  run (tick ∷ es) s =
      let (ok, s') = do_flush s in let rest = run es s' in if ok then rest else (failed, s')
  run (background_error ∷ es) s =
      let rest = run es s in if s.waiting_error then (failed, s) else rest
