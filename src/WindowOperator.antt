-- ===== src/WindowOperator.antt =====
-- operator/window.go: the window operator over a keyed list state, as a step function on what its
-- loop receives. Records go out in a list; `none` is a panic of the assigner.
pub mod Entries
pub mod Views
pub mod Sessions
pub mod Disjoint
pub mod Emitted
pub mod Fires
pub mod Snapshots
pub mod Stream
use mathlib.Core.List.{foldl}
use weibo.Base.{
  ℕ, suc, ◌+◌, Bool, true, false, not, ◌&&◌, ◌||◌, Option, none, some, List, [], ◌∷◌, ◌++◌, map,
  if◌then◌else◌, bytes_eq, codes, length, ◌==◌,
}
use weibo.Base.Int.{ℤ, pos, ◌+ℤ◌, ◌-ℤ◌, ltb_ℤ, eqb_ℤ, wrap64}
use weibo.Base.Maps.{put}
use weibo.State.{Bytes, bytes_key, ListStore}
use weibo.Types.{Record, zero_record, zero_time, with_header}
use weibo.Window.{Window, WindowAssigner, assign_windows, is_session}
use weibo.WindowKey.{
  RecordJson, Codec, Snapshot, WindowKey, to_window_key, to_string, parse_window_key,
}
use weibo.WindowOperator.Entries.{
  record_to_json, record_from_json, encode_record, decode_record, tag_with_window_and_lateness,
}

-- `reducer` gets and returns a byte slice that may be nil.
pub record Config : Type 0 where
  pub assigner : WindowAssigner
  pub allowed_lateness : ℤ
  pub has_late_sink : Bool
  pub has_barrier_snapshot : Bool
  pub reducer : Option (Option Bytes → Record → Option Bytes)

-- `WithAllowedLateness`.
unfoldable pub with_allowed_lateness : ℤ → Config → Config
with_allowed_lateness d c = record c { allowed_lateness = if ltb_ℤ d (pos 0) then pos 0 else d }

-- `durable` is the value stored under "wm", `late` what the late sink received, `dropped`
-- and `side_output` the metrics counters, `snapshots` what `barrierSnapshot` was called with.
pub record WindowOperator (S : Type 0) : Type 0 where
  pub config : Config
  pub open config use *
  pub rec_state : S
  pub current_watermark : ℤ
  pub durable : Bytes
  pub late : List Record
  pub dropped : ℕ
  pub side_output : ℕ
  pub snapshots : List (Bytes × Bytes)

unfoldable pub is_too_late : {S : Type 0} → WindowOperator S → ℤ → Bool
is_too_late op ts =
    if eqb_ℤ op.current_watermark zero_time
    then false
    else ltb_ℤ ts (op.current_watermark -ℤ op.allowed_lateness)

-- The sessions of a key that a new window coalesces with: the hull, their records, their keys.
pub record Merge : Type 0 where
  pub start : ℤ
  pub end : ℤ
  pub merged_records : List Bytes
  pub to_remove : List Bytes

module _ (codec : Codec) where
  open codec use {format, format_int, put_uint64, uint64, encode, decode, marshal, unmarshal}

  abbrev pub late_reason : Bytes
  late_reason = codes "event time before current watermark minus allowed lateness"

  unfoldable pub emit_late : {S : Type 0} → Record → WindowOperator S → WindowOperator S
  emit_late r op =
      let tagged =
        with_header (codes "_watermark") (format op.current_watermark)
          (with_header (codes "_late_reason") late_reason r) in
      if op.has_late_sink
      then record op { late = op.late ++ tagged ∷ []; side_output = op.side_output + 1 }
      else record op { dropped = op.dropped + 1 }

  -- Whether the session under a key takes part in the merge of a new window.
  unfoldable pub overlaps : Bytes → Window → Bytes → Bool
  overlaps key win existing =
      let ek = parse_window_key codec existing in
      bytes_eq ek.key key && (ltb_ℤ win.start ek.end && ltb_ℤ ek.start win.end)

  -- The window of a stored key.
  abbrev pub window_of : Bytes → Window
  window_of k = record {
    start = (parse_window_key codec k).start;
    end = (parse_window_key codec k).end;
  }

  -- What one window emits: its aggregate if there is a reducer, else each of its records.
  abbrev pub reduce_entries :
      (Option Bytes → Record → Option Bytes) → List Bytes → Option Bytes → Record → Record
  reduce_entries reducer [] accum last = record zero_record {
    key = last.key;
    value = elim accum [ none ↦ [] | some v ↦ v ];
    timestamp = last.timestamp;
    offset = last.offset;
    headers = last.headers;
  }
  reduce_entries reducer (rb ∷ rest) accum last =
      reduce_entries reducer rest (reducer accum (decode_record codec rb)) (decode_record codec rb)

  abbrev pub tag_entries : ℤ → Window → List Bytes → List Record
  tag_entries allowed win [] = []
  tag_entries allowed win (rb ∷ rest) =
      tag_with_window_and_lateness codec (decode_record codec rb) win allowed
      ∷ tag_entries allowed win rest

  unfoldable pub window_output :
      Option (Option Bytes → Record → Option Bytes) → ℤ → Window → List Bytes → List Record
  unfolding tag_with_window_and_lateness decode_record
  window_output none allowed win entries = tag_entries allowed win entries
  window_output (some reducer) allowed win [] = []
  window_output (some reducer) allowed win (rb ∷ rest) =
      tag_with_window_and_lateness codec (reduce_entries reducer (rb ∷ rest) none zero_record) win
        allowed
      ∷ []

  -- The time at which a stored window fires, and whether a watermark has reached it.
  unfoldable pub is_due : ℤ → ℤ → Bytes → Bool
  is_due allowed watermark k = not (ltb_ℤ watermark ((window_of k).end +ℤ allowed))

  module _ (st : ListStore) where
    open st use {State, set_key, append, get_all, clear, keys}

    unfoldable pub scan : Bytes → Window → List Bytes → State × Merge → State × Merge
    scan key win [] sm = sm
    scan key win (existing ∷ rest) (s, m) =
        let ek = parse_window_key codec existing in
        let s' = set_key existing s in
        scan key win rest (
          if overlaps key win existing
          then (
            s',
            record {
              start = if ltb_ℤ ek.start m.start then ek.start else m.start;
              end = if ltb_ℤ m.end ek.end then ek.end else m.end;
              merged_records = m.merged_records ++ get_all s';
              to_remove = m.to_remove ++ existing ∷ [];
            },
          )
          else (s, m))

    unfoldable pub clear_all : List Bytes → State → State
    clear_all [] s = s
    clear_all (k ∷ ks) s = clear_all ks (clear (set_key k s))

    unfoldable pub append_all : List Bytes → State → State
    append_all [] s = s
    append_all (v ∷ vs) s = append_all vs (append v s)

    abbrev pub merged_key : Bytes → Merge → Bytes
    merged_key key m = to_string codec (to_window_key key (record { start = m.start; end = m.end }))

    -- The second half of `assignToWindow`: with no session to merge the record starts its own.
    unfoldable pub merge_into : Bytes → Bytes → Bytes → State × Merge → List Bytes → State
    unfolding clear_all append_all
    merge_into key wk rec_bytes (s, m) [] = append rec_bytes (set_key wk s)
    merge_into key wk rec_bytes (s, m) (old ∷ olds) =
        append rec_bytes
          (append_all m.merged_records (set_key (merged_key key m) (clear_all (old ∷ olds) s)))

    unfoldable pub assign_to_window : Bool → Bytes → Window → Bytes → State → State
    unfolding merge_into scan
    assign_to_window session key win rec_bytes s =
        let wk = to_string codec (to_window_key key win) in
        let none_yet : Merge = record {
          start = win.start;
          end = win.end;
          merged_records = [];
          to_remove = [];
        } in
        let sm = scan key win (keys s) (s, none_yet) in
        if session
        then merge_into key wk rec_bytes sm sm.1.to_remove
        else append rec_bytes (set_key wk s)

    unfoldable pub assign_all : Bool → Bytes → Bytes → List Window → State → State
    unfolding assign_to_window
    assign_all session key rec_bytes [] s = s
    assign_all session key rec_bytes (win ∷ wins) s =
        assign_all session key rec_bytes wins (assign_to_window session key win rec_bytes s)

    -- `handleDataRecord`.
    unfoldable pub handle_data_record :
        Record → WindowOperator State → Option (WindowOperator State)
    unfolding assign_all encode_record
    handle_data_record r op = elim (assign_windows op.assigner r.timestamp) [
      | none ↦ none
      | some wins ↦ some (record op {
        rec_state =
            assign_all (is_session op.assigner) r.key (encode_record codec r) wins op.rec_state;
      })
    ]

    -- `fireWindow`: what goes out, and the state with the window cleared.
    unfoldable pub fire_window : Config → Bytes → State → State × List Record
    unfolding window_output
    fire_window c k s =
        let s' = set_key k s in
        (clear s', window_output c.reducer c.allowed_lateness (window_of k) (get_all s'))

    -- The loop over the stored keys of `handleWatermark` and, with no test, of `flushRemaining`.
    unfoldable pub fire_all : Config → (Bytes → Bool) → List Bytes → State → State × List Record
    unfolding fire_window
    fire_all c due [] s = (s, [])
    fire_all c due (k ∷ ks) s =
        let (s', out) = if due k then fire_window c k s else (s, []) in
        let (s'', rest) = fire_all c due ks s' in (s'', out ++ rest)

    abbrev pub advance : ℤ → WindowOperator State → WindowOperator State
    advance ts op =
        if ltb_ℤ op.current_watermark ts
        then record op { current_watermark = ts; durable = put_uint64 (wrap64 ts) }
        else op

    unfoldable pub handle_watermark :
        Record → WindowOperator State → WindowOperator State × List Record
    unfolding fire_all is_due
    handle_watermark w op =
        let op' = advance w.timestamp op in
        let (s, out) =
          fire_all op'.config (is_due op'.allowed_lateness op'.current_watermark)
            (keys op'.rec_state) op'.rec_state in
        (record op' { rec_state = s }, out)

    unfoldable pub flush_remaining : WindowOperator State → WindowOperator State × List Record
    unfolding fire_all
    flush_remaining op =
        let (s, out) = fire_all op.config (λ _. true) (keys op.rec_state) op.rec_state in
        (record op { rec_state = s }, out)

    unfoldable pub snapshot_windows : List Bytes → State → State × List (Bytes × List RecordJson)
    snapshot_windows [] s = (s, [])
    snapshot_windows (k ∷ ks) s =
        let s' = set_key k s in
        let (s'', rest) = snapshot_windows ks s' in (s'', (k, map decode (get_all s')) ∷ rest)

    -- `Snapshot`, before its result is marshalled.
    unfoldable pub taken : WindowOperator State → State × Snapshot
    unfolding snapshot_windows
    taken op =
        let (s, windows) = snapshot_windows (keys op.rec_state) op.rec_state in
        (s, record { current_watermark = wrap64 op.current_watermark; windows = windows })

    -- `Snapshot`.
    unfoldable pub snapshot : WindowOperator State → WindowOperator State × Bytes
    unfolding taken
    snapshot op = let (s, snap) = taken op in (record op { rec_state = s }, marshal snap)

    unfoldable pub restore_windows : List (Bytes × List RecordJson) → State → State
    unfolding append_all
    restore_windows [] s = s
    restore_windows ((k, rs) ∷ ws) s = restore_windows ws (append_all (map encode rs) (set_key k s))

    -- `Restore`: `none` is the error of `json.Unmarshal`.
    unfoldable pub restore : Bytes → WindowOperator State → Option (WindowOperator State)
    unfolding clear_all restore_windows
    restore text op = elim (unmarshal text) [
      | none ↦ none
      | some snap ↦ some (record op {
        current_watermark = snap.current_watermark;
        durable = put_uint64 (wrap64 snap.current_watermark);
        rec_state = restore_windows snap.windows (clear_all (keys op.rec_state) op.rec_state);
      })
    ]

    -- A barrier is passed on once the state before it has been handed to the callback.
    unfoldable pub handle_barrier :
        Record → WindowOperator State → WindowOperator State × List Record
    unfolding snapshot
    handle_barrier r op =
        let (op', snap) = snapshot op in
        if op.has_barrier_snapshot
        then (record op' { snapshots = op'.snapshots ++ (r.checkpoint_id, snap) ∷ [] }, r ∷ [])
        else (op, r ∷ [])

    -- `loadWatermark`: the zero time unless 8 bytes are stored.
    unfoldable pub load_watermark : WindowOperator State → ℤ
    load_watermark op = if length op.durable == 8 then uint64 op.durable else zero_time

    abbrev pub with_output {ℓ} :
        {A : Type ℓ} → List Record → Option (A × List Record) → Option (A × List Record)
    with_output out none = none
    with_output out (some (a, rest)) = some (a, out ++ rest)

    -- One round of the loop of `Process`, on a record from the channel.
    unfoldable pub process_record :
        Record → WindowOperator State → Option (WindowOperator State × List Record)
    unfolding handle_watermark handle_barrier handle_data_record emit_late is_too_late
    process_record r op =
        if r.is_watermark
        then some (handle_watermark r op)
        else if r.is_barrier
        then some (handle_barrier r op)
        else if is_too_late op r.timestamp
        then some (emit_late r op, [])
        else elim (handle_data_record r op) [ none ↦ none | some op' ↦ some (op', []) ]

    -- The loop: the channel's records, then its end, or the idle timer, which flushes too.
    unfoldable pub process_all :
        List Record → WindowOperator State → Option (WindowOperator State × List Record)
    unfolding process_record flush_remaining
    process_all [] op = some (flush_remaining op)
    process_all (r ∷ rs) op = elim (process_record r op) [
      | none ↦ none
      | some (op', out) ↦ with_output out (process_all rs op')
    ]

    -- `Process`.
    unfoldable pub process :
        List Record → WindowOperator State → Option (WindowOperator State × List Record)
    unfolding process_all load_watermark
    process rs op = process_all rs (record op { current_watermark = load_watermark op })
