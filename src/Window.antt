-- ===== src/Window.antt =====
-- window/window.go, tumbling.go, sliding.go and session.go: the assigners that group records by time.
-- A time is its count of nanoseconds since the Unix epoch, a duration is an integer; `UnixNano`
-- and the arithmetic on its results wrap around as int64. `none` is a division by zero, which
-- panics, or a loop that runs out of its fuel.
pub mod Start
pub mod Sliding
pub mod Tumbling
use weibo.Base.{
  ℕ, zero, suc, ◌+◌, ◌≡◌, Bool, true, false, not, ◌&&◌, Option, none, some, List, [], ◌∷◌,
  if◌then◌else◌,
}
use weibo.Base.Int.{ℤ, pos, pos_part, ◌+ℤ◌, ◌-ℤ◌, ◌*ℤ◌, ◌≤ℤ◌, ◌<ℤ◌, ltb_ℤ, eqb_ℤ, quot_ℤ, wrap64}

pub record Window : Type 0 where
  pub start : ℤ
  pub end : ℤ

pub data WindowAssigner : Type 0 where
  tumbling : (size offset : ℤ) → WindowAssigner
  sliding : (size slide offset : ℤ) → WindowAssigner
  session : (gap : ℤ) → WindowAssigner

-- `WindowStart`, on int64 nanoseconds.
unfoldable pub window_start : ℤ → ℤ → ℤ → Option ℤ
window_start ts size offset =
    let aligned = wrap64 (wrap64 ts -ℤ offset) in
    let floor = wrap64 (wrap64 (quot_ℤ aligned size) *ℤ size) in
    if eqb_ℤ size (pos 0) then none else some (wrap64 (floor +ℤ offset))

abbrev pub window_at : ℤ → ℤ → Window
window_at size start = record { start = start; end = start +ℤ size }

unfoldable pub add_window : Bool → Window → Option (List Window) → Option (List Window)
add_window keep w none = none
add_window true w (some ws) = some (w ∷ ws)
add_window false w (some ws) = some ws

-- The first loop of `Sliding.AssignWindows`: from `start` down by `slide`.
unfoldable pub walk_back : ℕ → ℤ → ℤ → ℤ → ℤ → Option (List Window)
unfolding add_window
walk_back zero size slide ts start = none
walk_back (suc fuel) size slide ts start =
    let rest = walk_back fuel size slide ts (start -ℤ slide) in
    let more = add_window (not (ltb_ℤ ts start)) (window_at size start) rest in
    if ltb_ℤ ts (start +ℤ size) then more else some []

-- The second loop: from `start` up by `slide`.
unfoldable pub walk_forward : ℕ → ℤ → ℤ → ℤ → ℤ → Option (List Window)
unfolding add_window
walk_forward zero size slide ts start = none
walk_forward (suc fuel) size slide ts start =
    let rest = walk_forward fuel size slide ts (start +ℤ slide) in
    let keep = not (ltb_ℤ ts start) && ltb_ℤ ts (start +ℤ size) in
    let more = add_window keep (window_at size start) rest in
    if ltb_ℤ start (ts +ℤ size) then more else some []

abbrev pub concat : Option (List Window) → Option (List Window) → Option (List Window)
concat none ys = none
concat (some []) ys = ys
concat (some (x ∷ xs)) ys = add_window true x (concat (some xs) ys)

-- No window found: the aligned slot alone.
abbrev pub or_slot : Window → Option (List Window) → Option (List Window)
or_slot slot none = none
or_slot slot (some []) = some (slot ∷ [])
or_slot slot (some (w ∷ ws)) = some (w ∷ ws)

abbrev pub loop_fuel : ℤ → ℤ → ℕ
loop_fuel size slide = pos_part size + pos_part slide + 2

abbrev pub sliding_from : ℤ → ℤ → ℤ → Option ℤ → Option (List Window)
sliding_from size slide ts none = none
sliding_from size slide ts (some last) = or_slot (window_at size last) (
    concat (walk_back (loop_fuel size slide) size slide ts last)
      (walk_forward (loop_fuel size slide) size slide ts (last +ℤ slide)))

abbrev tumbling_from : ℤ → Option ℤ → Option (List Window)
tumbling_from size none = none
tumbling_from size (some start) = some (window_at size start ∷ [])

unfoldable pub assign_windows : WindowAssigner → ℤ → Option (List Window)
assign_windows (tumbling size offset) ts = tumbling_from size (window_start ts size offset)
assign_windows (sliding size slide offset) ts =
    sliding_from size slide ts (window_start ts slide offset)
assign_windows (session gap) ts = some (window_at gap ts ∷ [])

unfoldable pub is_session : WindowAssigner → Bool
is_session (session gap) = true
is_session _ = false

-- `MergeSessions`: one window where the two overlap, both where they do not.
unfoldable pub merge_sessions : Window → Window → List Window
merge_sessions a b =
    let start = if ltb_ℤ b.start a.start then b.start else a.start in
    let end = if ltb_ℤ a.end b.end then b.end else a.end in
    if ltb_ℤ b.start a.end && ltb_ℤ a.start b.end
    then record { start = start; end = end } ∷ []
    else a ∷ b ∷ []

-- Half-open, `[start, end)`.
abbrev pub Contains : Window → ℤ → Type 0
Contains w t = (w.start ≤ℤ t) × (t <ℤ w.end)
