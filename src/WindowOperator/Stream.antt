-- ===== src/WindowOperator/Stream.antt =====
-- operator/window.go, the loop of `Process`.
use weibo.Base.{
  ◌≡◌, ◌≢◌, refl, sym, inl, inr, true, false, List, [], ◌∷◌, ◌++◌, ◌+◌, arith, Bool-cases, some,
  subst, if◌then◌else◌, codes,
}
use weibo.Base.Int.{ℤ, ◌-ℤ◌, ◌<ℤ◌, eqb_ℤ_iff, lt→ltb_ℤ}
use weibo.Base.Maps.{put}
use weibo.State.{Bytes, bytes_key, ListStore}
use weibo.Types.{Record, with_header, zero_time}
use weibo.Window.{Window, WindowAssigner, assign_windows, is_session}
use weibo.WindowKey.{Codec}
use weibo.WindowOperator.{
  WindowOperator, is_too_late, emit_late, process_record, process_all, flush_remaining, Config,
  handle_watermark, handle_barrier, handle_data_record, assign_all,
}
use weibo.WindowOperator.Entries.{encode_record}
use weibo.WindowOperator.Fires.{swept}

-- The assigner finds windows for every time, as those with positive durations do.
abbrev pub IsTotal : WindowAssigner → Type 0
IsTotal a = (ts : ℤ) → (ws : List Window) × (assign_windows a ts ≡ some ws)

module _ (codec : Codec) (st : ListStore) where
  open st use {State, keys, view}

  -- A late record as it reaches the late sink.
  abbrev pub late_record : WindowOperator State → Record → Record
  late_record op r = record r {
    headers = put (codes "_watermark") (codec.format op.current_watermark) (
        put (codes "_late_reason")
          (codes "event time before current watermark minus allowed lateness") r.headers);
  }

  -- What a late record leaves behind: the windows and the clock as they were, and either the record at the
  -- end of the late sink, counted as a side output, or one drop more.
  pub record Diverted (r : Record) (op after : WindowOperator State) : Type 0 where
    pub windows_kept : after.rec_state ≡ op.rec_state
    pub clock_kept : after.current_watermark ≡ op.current_watermark
    pub sent_late :
        after.late ≡ (if op.has_late_sink then op.late ++ late_record op r ∷ [] else op.late)
    pub side_outputs :
        after.side_output ≡ (if op.has_late_sink then op.side_output + 1 else op.side_output)
    pub drops : after.dropped ≡ (if op.has_late_sink then op.dropped else op.dropped + 1)

  emit_late-Diverted :
      (r : Record) (op : WindowOperator State) → Diverted r op (emit_late codec r op)
  unfolding emit_late with_header
  emit_late-Diverted r op = elim (Bool-cases op.has_late_sink) [
    | inl e ↦
        rw (e, emit_late)
          (record {
            windows_kept = refl;
            clock_kept = refl;
            sent_late = refl;
            side_outputs = refl;
            drops = refl;
          })
    | inr e ↦
        rw (e, emit_late)
          (record {
            windows_kept = refl;
            clock_kept = refl;
            sent_late = refl;
            side_outputs = refl;
            drops = refl;
          })
  ]

  -- After a first watermark, a data record before the watermark by more than the allowed lateness sends
  -- nothing on and leaves every window and the watermark as they are. Where there is a late sink, the record,
  -- with the reason and the watermark in its headers, is the next one there, and only the counter of side
  -- outputs goes up; where there is none, only the drop counter goes up.
  pub process_record_late :
      (r : Record) (op : WindowOperator State)
      → r.is_watermark ≡ false
      → r.is_barrier ≡ false
      → op.current_watermark ≢ zero_time
      → r.timestamp <ℤ op.current_watermark -ℤ op.allowed_lateness
      → (after : WindowOperator State) × (process_record codec st r op ≡ some (after, []))
        × Diverted r op after
  unfolding process_record is_too_late
  process_record_late r op data_record no_barrier begun behind =
      let late : is_too_late op r.timestamp ≡ true = ground (
        arith,
        eqb_ℤ_iff op.current_watermark zero_time,
        lt→ltb_ℤ r.timestamp (op.current_watermark -ℤ op.allowed_lateness) behind,
      ) in
      (emit_late codec r op, ground arith, emit_late-Diverted r op)

  flushed :
      (op : WindowOperator State) (j : Bytes)
      → view (flush_remaining codec st op).0.rec_state j ≡ []
  unfolding flush_remaining
  flushed op j = swept codec st op.config (λ _. true) op.rec_state j

  handle_watermark-config :
      (r : Record) (op : WindowOperator State)
      → (handle_watermark codec st r op).0.config ≡ op.config
  unfolding handle_watermark
  handle_watermark-config r op = ground arith

  handle_barrier-config :
      (r : Record) (op : WindowOperator State) → (handle_barrier codec st r op).0.config ≡ op.config
  unfolding handle_barrier
  handle_barrier-config r op = ground arith

  emit_late-config :
      (r : Record) (op : WindowOperator State) → (emit_late codec r op).config ≡ op.config
  unfolding emit_late
  emit_late-config r op = ground arith

  handle_data_record-total :
      (r : Record) (op : WindowOperator State)
      → IsTotal op.assigner
      → (after : WindowOperator State) × (handle_data_record codec st r op ≡ some after)
        × (after.config ≡ op.config)
  unfolding handle_data_record
  handle_data_record-total r op total =
      let (ws, e) = total r.timestamp in
      (
        record op {
          rec_state =
              assign_all codec st (is_session op.assigner) r.key (encode_record codec r) ws
                op.rec_state;
        },
        rw (e, handle_data_record) refl,
        refl,
      )

  process_record-total :
      (r : Record) (op : WindowOperator State)
      → IsTotal op.assigner
      → (step : WindowOperator State × List Record) × (process_record codec st r op ≡ some step)
        × (step.0.config ≡ op.config)
  unfolding process_record
  process_record-total r op total = elim (Bool-cases r.is_watermark) [
    | inl w ↦ (handle_watermark codec st r op, ground arith, handle_watermark-config r op)
    | inr w ↦ elim (Bool-cases r.is_barrier) [
      | inl b ↦ (handle_barrier codec st r op, ground arith, handle_barrier-config r op)
      | inr b ↦ elim (Bool-cases (is_too_late op r.timestamp)) [
        | inl late ↦ ((emit_late codec r op, []), ground arith, emit_late-config r op)
        | inr in_time ↦
            let (after, e, same) = handle_data_record-total r op total in
            ((after, []), ground (arith, e), same)
      ]
    ]
  ]

  -- With an assigner that finds windows for every time the loop processes the whole stream, and at its
  -- end no window holds a record.
  pub process_all-empty :
      (rs : List Record) (op : WindowOperator State)
      → IsTotal op.assigner
      → (after : WindowOperator State) × (out : List Record) × (process_all codec st rs op
          ≡ some (after, out))
        × ((j : Bytes) → view after.rec_state j ≡ [])
  unfolding process_all
  process_all-empty [] op total =
      let (after, out) = flush_remaining codec st op in (after, out, refl, flushed op)
  process_all-empty (r ∷ rs) op total =
      let (step, e, same) = process_record-total r op total in
      let (after, out, g, empty) =
        process_all-empty rs step.0 (subst (λ (c : Config). IsTotal c.assigner) (sym same) total) in
      (after, step.1 ++ out, rw (e, process_all) (rw g), empty)
