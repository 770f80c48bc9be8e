-- ===== src/Examples/Operators.antt =====
-- The window operator over the in-memory state at concrete records.
use weibo.Base.{
  ◌≡◌, ◌≢◌, refl, true, false, none, some, List, [], ◌∷◌, ◌++◌, map, bytes_eq, if◌then◌else◌, arith,
  codes, if_cases, bytes_eq_iff, ◌∙◌, sym,
}
use weibo.Base.Int.{ℤ, pos, negsuc, wrap64, eqb_ℤ_iff, ◌-ℤ◌, ◌+ℤ◌}
use weibo.Base.Maps.{get, put, delete}
use weibo.State.{Bytes, bytes_key}
use weibo.State.Memory.{memory_store, keys, clear, set_key, get_all}
use weibo.Types.{Record, zero_record, new_watermark, zero_time}
use weibo.Window.{Window, session, assign_windows}
use weibo.WindowKey.{
  RecordJson, WindowKey, to_window_key, to_string, parse_window_key, parse_window_key-to_string,
}
use weibo.WindowOperator.{
  WindowOperator, assign_to_window, handle_watermark, is_due, fire_window, is_too_late,
  process_record, process_all, taken, snapshot, restore,
}
use weibo.WindowOperator.Disjoint.{IsDisjoint, assign_to_window-IsDisjoint}
use weibo.WindowOperator.Fires.{FiresDue, handle_watermark-FiresDue}
use weibo.WindowOperator.Sessions.{view-assign_to_window, target, kept, removed}
use weibo.WindowOperator.Snapshots.{IsEncoded, restore-snapshot, restore_sets_watermark}
use weibo.WindowOperator.Stream.{Diverted, IsTotal, process_record_late, process_all-empty}
use weibo.WindowOperator.Views.{records}
use weibo.Examples.Fixtures.{toy_codec, show_record, read_record}
open memory_store use {State, IsValid, view}

abbrev user : Bytes
user = codes "u"

abbrev first : Window
first = record { start = pos 10; end = pos 20 }

abbrev first_key : Bytes
first_key = to_string toy_codec (to_window_key user first)

-- The state with one session of the user, with one record.
abbrev one_session : State
one_session = record {
  list = (codes "win", (first_key, (0 ∷ 10 ∷ 7 ∷ []) ∷ []) ∷ []) ∷ [];
  name = codes "win";
  key = [];
}

one_session-view :
    (k : Bytes) → view one_session k ≡ (if bytes_eq first_key k then (0 ∷ 10 ∷ 7 ∷ []) ∷ [] else [])
unfolding get bytes_eq
one_session-view k = ground arith

one_session-only : (k : Bytes) → view one_session k ≢ [] → k ≡ first_key
one_session-only k held = ground (arith, one_session-view k, bytes_eq_iff first_key k)

one_session-IsDisjoint : IsDisjoint toy_codec memory_store one_session
unfolding to_string to_window_key parse_window_key wrap64
one_session-IsDisjoint = record {
  proper = λ a held. rw (one_session-only a held) (omega arith);
  apart = λ a b held_a held_b ne same.
      absurd (ne (one_session-only a held_a ∙ sym (one_session-only b held_b)));
}

one_session-IsValid : IsValid one_session
unfolding get bytes_eq
one_session-IsValid = record { filled = ((λ e. cc), tt); distinct = (tt, tt) }

abbrev second : Window
second = record { start = pos 15; end = pos 25 }

assign_to_window-IsDisjoint_example :
    IsDisjoint toy_codec memory_store
      (assign_to_window toy_codec memory_store true user second (0 ∷ 15 ∷ 8 ∷ []) one_session)
assign_to_window-IsDisjoint_example =
    assign_to_window-IsDisjoint toy_codec memory_store user second one_session one_session-IsValid
      one_session-IsDisjoint (omega arith) (0 ∷ 15 ∷ 8 ∷ []) (omega arith) (omega arith)

view-assign_to_window_example :
    view
      (assign_to_window toy_codec memory_store true user second (0 ∷ 15 ∷ 8 ∷ []) one_session)
      first_key
    ≡ (if bytes_eq (target toy_codec memory_store user second one_session) first_key
        then kept toy_codec memory_store user second one_session first_key
          ++ (records memory_store one_session
                (removed toy_codec memory_store user second one_session)
              ++ (0 ∷ 15 ∷ 8 ∷ []) ∷ [])
        else kept toy_codec memory_store user second one_session first_key)
view-assign_to_window_example =
    view-assign_to_window toy_codec memory_store user second (0 ∷ 15 ∷ 8 ∷ []) one_session first_key

abbrev operator_at : ℤ → WindowOperator State
operator_at watermark = record {
  config = record {
    assigner = session (pos 10);
    allowed_lateness = pos 0;
    has_late_sink = false;
    has_barrier_snapshot = false;
    reducer = none;
  };
  rec_state = one_session;
  current_watermark = watermark;
  durable = [];
  late = [];
  dropped = 0;
  side_output = 0;
  snapshots = [];
}

-- The session ends at 20, and a watermark at 25 clears it.
fire_run :
    (handle_watermark toy_codec memory_store
      (new_watermark (pos 25))
      (operator_at (pos 5))).0.rec_state.list
    ≡ (codes "win", []) ∷ []
unfolding handle_watermark new_watermark keys clear set_key get bytes_eq is_due fire_window
    parse_window_key wrap64 to_string to_window_key ◌+ℤ◌ delete put
fire_run = refl

handle_watermark-FiresDue_example :
    FiresDue toy_codec memory_store
      (operator_at (pos 5))
      (new_watermark (pos 25))
      (handle_watermark toy_codec memory_store (new_watermark (pos 25)) (operator_at (pos 5))).0
      (handle_watermark toy_codec memory_store (new_watermark (pos 25)) (operator_at (pos 5))).1
handle_watermark-FiresDue_example =
    handle_watermark-FiresDue toy_codec memory_store (new_watermark (pos 25)) (operator_at (pos 5))
      one_session-IsValid

session-IsTotal : IsTotal (session (pos 10))
unfolding assign_windows
session-IsTotal ts = (_, refl)

abbrev event : ℤ → Record
event ts = record zero_record { key = user; timestamp = ts }

process_all-empty_example :
    (after : WindowOperator State) × (out : List Record) × (process_all toy_codec memory_store
        (event (pos 15) ∷ new_watermark (pos 12) ∷ event (pos 40) ∷ [])
        (operator_at (pos 5))
      ≡ some (after, out))
    × ((j : Bytes) → view after.rec_state j ≡ [])
process_all-empty_example =
    process_all-empty toy_codec memory_store
      (event (pos 15) ∷ new_watermark (pos 12) ∷ event (pos 40) ∷ []) (operator_at (pos 5))
      session-IsTotal

began : pos 50 ≢ zero_time
began = λ e. cc ((eqb_ℤ_iff (pos 50) zero_time).1 e)

process_record_late_example :
    (after : WindowOperator State) × (process_record toy_codec memory_store
        (event (pos 15))
        (operator_at (pos 50))
      ≡ some (after, []))
    × Diverted toy_codec memory_store (event (pos 15)) (operator_at (pos 50)) after
unfolding ◌-ℤ◌
process_record_late_example =
    process_record_late toy_codec memory_store (event (pos 15)) (operator_at (pos 50)) refl refl
      began (omega arith)

one_session-IsEncoded : IsEncoded toy_codec memory_store one_session
one_session-IsEncoded k = rw (one_session-view k) (
    if_cases (λ (vs : List Bytes). map show_record (map read_record vs) ≡ vs) (bytes_eq first_key k)
      ((0 ∷ 10 ∷ 7 ∷ []) ∷ []) [] (λ e. refl) (λ e. refl))

abbrev one_window : List (Bytes × List RecordJson)
one_window = (first_key, read_record (0 ∷ 10 ∷ 7 ∷ []) ∷ []) ∷ []

one_session-taken : (taken toy_codec memory_store (operator_at (pos 5))).1.windows ≡ one_window
unfolding taken keys get bytes_eq get_all set_key to_string to_window_key wrap64
one_session-taken = refl

one_session-Encodable :
    toy_codec.EncodableSnapshot (taken toy_codec memory_store (operator_at (pos 5))).1
one_session-Encodable = rw one_session-taken (refl, (tt, tt))

restore-snapshot_example :
    (after : WindowOperator State) × (restore toy_codec memory_store
        (snapshot toy_codec memory_store (operator_at (pos 5))).1
        (operator_at (pos 70))
      ≡ some after)
    × (after.current_watermark ≡ pos 5)
    × ((j : Bytes) → view after.rec_state j ≡ view one_session j)
restore-snapshot_example =
    restore-snapshot toy_codec memory_store (operator_at (pos 5)) (operator_at (pos 70))
      one_session-IsValid one_session-IsEncoded (omega arith) one_session-Encodable

restore_sets_watermark_example :
    (is_too_late (operator_at zero_time) (negsuc 7000000000000000000) ≡ false)
    × ((after : WindowOperator State) × (restore toy_codec memory_store
            (snapshot toy_codec memory_store (operator_at zero_time)).1
            (operator_at zero_time)
          ≡ some after)
        × (is_too_late after (negsuc 7000000000000000000) ≡ true))
unfolding wrap64 ◌-ℤ◌
restore_sets_watermark_example =
    restore_sets_watermark toy_codec memory_store (operator_at zero_time) (operator_at zero_time)
      (negsuc 7000000000000000000) refl (omega arith)

abbrev slashed : WindowKey
slashed = record { key = codes "a/b"; start = negsuc 3; end = pos 6 }

parse_window_key-to_string_example :
    parse_window_key toy_codec (to_string toy_codec slashed) ≡ slashed
parse_window_key-to_string_example =
    parse_window_key-to_string toy_codec slashed
      (record { start64 = omega arith; end64 = omega arith })
