-- ===== src/AlignedMerge.antt =====
-- pipeline/markers.go, `alignedMerge`: the goroutines of the workers and the loop that reads their fan-in
-- channel, as steps that a scheduler chooses. Cancellation and metrics are left out.
pub mod Workers
pub mod Aligned
pub mod Progress
pub mod Counts
use weibo.Base.{
  ℕ, zero, suc, ◌+◌, Bool, true, false, not, ◌&&◌, ◌||◌, Option, none, some, List, [], ◌∷◌, ◌++◌,
  map, if◌then◌else◌, ltb, length,
}
use weibo.Types.{Record}

abbrev pub is_marker : Record → Bool
is_marker r = r.is_barrier || r.is_watermark

-- A worker: what its output channel will still deliver before it is closed, whether its goroutine is
-- parked after a marker, and whether its `resume` channel, of capacity one, holds a token.
pub record Worker : Type 0 where
  pub output : List Record
  pub parked : Bool
  pub resume : Bool

-- `n` is the number of workers, which does not change.
pub record Merge : Type 0 where
  pub workers : List Worker
  pub fan_in : List Record
  pub arrived : ℕ
  pub out : List Record

-- A worker's goroutine forwards a record or is resumed, or the loop handles a record.
pub data Turn : Type 0 where
  forward : ℕ → Turn
  wake : ℕ → Turn
  receive : Turn

abbrev pub internal_buf : ℕ
internal_buf = 256

abbrev pub forwarded : List Record → Worker → Option (Record × Worker)
forwarded [] w = none
forwarded (r ∷ rest) w = some (r, record w { output = rest; parked = is_marker r })

abbrev pub forward_worker : Worker → Option (Record × Worker)
forward_worker w = if w.parked then none else forwarded w.output w

abbrev pub in_front : Worker → Option (Record × List Worker) → Option (Record × List Worker)
in_front w none = none
in_front w (some (r, ws)) = some (r, w ∷ ws)

abbrev pub then_rest : List Worker → Option (Record × Worker) → Option (Record × List Worker)
then_rest ws none = none
then_rest ws (some (r, w)) = some (r, w ∷ ws)

unfoldable pub forward_at : ℕ → List Worker → Option (Record × List Worker)
forward_at k [] = none
forward_at zero (w ∷ ws) = then_rest ws (forward_worker w)
forward_at (suc k) (w ∷ ws) = in_front w (forward_at k ws)

abbrev pub cons_some : Worker → Option (List Worker) → Option (List Worker)
cons_some w none = none
cons_some w (some ws) = some (w ∷ ws)

unfoldable pub wake_at : ℕ → List Worker → Option (List Worker)
wake_at k [] = none
wake_at zero (w ∷ ws) =
    if w.parked && w.resume then some (record w { parked = false; resume = false } ∷ ws) else none
wake_at (suc k) (w ∷ ws) = cons_some w (wake_at k ws)

-- Whether a token can be sent to every `resume` channel without blocking.
unfoldable pub all_empty : List Worker → Bool
all_empty [] = true
all_empty (w ∷ ws) = let rest = all_empty ws in if w.resume then false else rest

abbrev pub give : Worker → Worker
give w = record w { resume = true }

-- The last copy of a marker: it goes out, and all workers get their tokens. The loop reads nothing
-- between the tokens, so that they are sent at once.
abbrev pub release : Record → List Record → Merge → Option Merge
release r rest s =
    if all_empty s.workers
    then some
        (record { workers = map give s.workers; fan_in = rest; arrived = 0; out = s.out ++ r ∷ [] })
    else none

-- One round of the loop.
abbrev pub handle : List Record → Merge → Option Merge
handle [] s = none
handle (r ∷ rest) s =
    if is_marker r
    then (if ltb (s.arrived + 1) (length s.workers)
        then some (record s { fan_in = rest; arrived = s.arrived + 1 })
        else release r rest s)
    else some (record s { fan_in = rest; out = s.out ++ r ∷ [] })

abbrev pub queued : Merge → Option (Record × List Worker) → Option Merge
queued s none = none
queued s (some (r, ws)) = some (record s { workers = ws; fan_in = s.fan_in ++ r ∷ [] })

abbrev pub woken : Merge → Option (List Worker) → Option Merge
woken s none = none
woken s (some ws) = some (record s { workers = ws })

-- `none` where the turn is blocked.
unfoldable pub step : Turn → Merge → Option Merge
unfolding forward_at wake_at all_empty
step (forward k) s =
    if ltb (length s.fan_in) internal_buf then queued s (forward_at k s.workers) else none
step (wake k) s = woken s (wake_at k s.workers)
step receive s = handle s.fan_in s

unfoldable pub run : List Turn → Merge → Option Merge
unfolding step
run [] s = some s
run (t ∷ ts) s = elim (step t s) [ none ↦ none | some s' ↦ run ts s' ]

abbrev new_worker : List Record → Worker
new_worker output = record { output = output; parked = false; resume = false }

unfoldable pub start : List (List Record) → Merge
start outputs = record { workers = map new_worker outputs; fan_in = []; arrived = 0; out = [] }

-- All outputs are closed and all has been read.
abbrev pub is_drained : Worker → Bool
is_drained w = not w.parked && (elim w.output [ [] ↦ true | _ ∷ _ ↦ false ])
