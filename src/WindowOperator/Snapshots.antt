-- ===== src/WindowOperator/Snapshots.antt =====
-- operator/window.go, `Snapshot` and `Restore`.
use mathlib.Core.List.{append-nil}
use weibo.Base.{
  sym, ◌∙◌, subst, Bool-cases, ◌≡◌, refl, ap, inl, inr, true, false, List, [], ◌∷◌, ◌++◌, map,
  if◌then◌else◌, All, some, bytes_eq, bytes_eq_iff, arith, List-cases,
}
use weibo.Base.Int.{ℤ, ◌-ℤ◌, ◌<ℤ◌, eqb_ℤ, lt→ltb_ℤ, IsInt64, wrap64, wrap64_id}
use weibo.State.{Bytes, Distinct, ListStore}
use weibo.Types.{zero_time}
use weibo.WindowKey.{Codec, RecordJson, stored_at, DistinctWindows}
use weibo.WindowOperator.{
  WindowOperator, taken, snapshot, snapshot_windows, restore, restore_windows, append_all,
  clear_all, is_too_late,
}
use weibo.WindowOperator.Views.{
  contains, contains-mem, get_all-set_key, view-append_all, view-clear_all,
}

wrapped_zero : eqb_ℤ (wrap64 zero_time) zero_time ≡ false
unfolding wrap64
wrapped_zero = refl

module _ (codec : Codec) (st : ListStore) where
  open codec use {encode, decode}
  open st use {
    State, set_key, keys, IsValid, view, cursor, cursor-set_key, view-set_key, mem-keys,
    keys-Distinct,
  }

  -- The windows of a snapshot of the listed keys.
  abbrev contents : State → List Bytes → List (Bytes × List RecordJson)
  contents s [] = []
  contents s (k ∷ ks) = (k, map decode (view s k)) ∷ contents s ks

  contents-set_key :
      (k : Bytes) (s : State) (ks : List Bytes) → contents (set_key k s) ks ≡ contents s ks
  contents-set_key k s [] = refl
  contents-set_key k s (j ∷ ks) = rw (view-set_key k j s, contents-set_key k s ks)

  snapshot_windows-contents :
      (ks : List Bytes) (s : State) → (snapshot_windows codec st ks s).1 ≡ contents s ks
  unfolding snapshot_windows
  snapshot_windows-contents [] s = refl
  snapshot_windows-contents (k ∷ ks) s =
      rw (
        snapshot_windows-contents ks (set_key k s),
        get_all-set_key st k s,
        contents-set_key k s ks,
      )

  -- Every stored entry is the encoding of the record that it decodes to.
  abbrev pub IsEncoded : State → Type 0
  IsEncoded s = (k : Bytes) → map encode (map decode (view s k)) ≡ view s k

  contents-DistinctWindows :
      (s : State) (ks : List Bytes) → Distinct ks → DistinctWindows (contents s ks)
  contents-DistinctWindows s [] d = tt
  contents-DistinctWindows s (k ∷ ks) d = (apart ks d.0, contents-DistinctWindows s ks d.1)
    where
      apart :
          (js : List Bytes)
          → All (λ j. bytes_eq k j ≡ false) js
          → All (λ (w : Bytes × List RecordJson). bytes_eq k w.0 ≡ false) (contents s js)
      apart [] h = tt
      apart (j ∷ js) h = (h.0, apart js h.1)

  stored_at-contents :
      (s : State) (ks : List Bytes) (j : Bytes)
      → stored_at j (contents s ks) ≡ (if contains ks j then map decode (view s j) else [])
  stored_at-contents s [] j = refl
  stored_at-contents s (k ∷ ks) j =
      ground (arith, stored_at-contents s ks j, bytes_eq_iff k j, ap (λ x. map decode (view s x)))

  absent :
      (ws : List (Bytes × List RecordJson)) (k : Bytes)
      → All (λ (w : Bytes × List RecordJson). bytes_eq k w.0 ≡ false) ws
      → stored_at k ws ≡ []
  absent [] k h = refl
  absent (w ∷ ws) k h = ground (arith, bytes_eq_iff w.0 k, bytes_eq_iff k w.0, absent ws k h.1)

  -- Restored windows keep what the state has, and add what is stored under their keys.
  view-restore_windows :
      (ws : List (Bytes × List RecordJson)) (t : State) (j : Bytes)
      → DistinctWindows ws
      → view (restore_windows codec st ws t) j ≡ view t j ++ map encode (stored_at j ws)
  unfolding restore_windows
  view-restore_windows [] t j d = sym (append-nil (view t j))
  view-restore_windows ((k, rs) ∷ ws) t j d =
      rw
        (
          view-restore_windows ws (append_all codec st (map encode rs) (set_key k t)) j d.1,
          view-append_all codec st (map encode rs) (set_key k t) j,
          cursor-set_key k t,
          view-set_key k j t,
        )
        (elim (Bool-cases (bytes_eq k j)) [
          | inl e ↦
              let gone : stored_at j ws ≡ [] =
                subst (λ x. stored_at x ws ≡ []) ((bytes_eq_iff k j).0 e) (absent ws k d.0) in
              rw (e, gone) (append-nil (view t j ++ map encode rs))
          | inr e ↦ rw e refl
        ])

  cleared : (t : State) (j : Bytes) → view (clear_all codec st (keys t) t) j ≡ []
  cleared t j = elim (List-cases (view t j)) [
    | inl e ↦ rw (view-clear_all codec st (keys t) t j, e) (ground arith)
    | inr held ↦
        rw (view-clear_all codec st (keys t) t j, contains-mem (keys t) j (mem-keys j t held))
  ]

  restored_view :
      (s : State) (j : Bytes)
      → IsEncoded s
      → map encode (if contains (keys s) j then map decode (view s j) else []) ≡ view s j
  restored_view s j enc = elim (List-cases (view s j)) [
    | inl e ↦ rw e (ground arith)
    | inr held ↦ rw (contains-mem (keys s) j (mem-keys j s held)) (enc j)
  ]

  -- Where the state is valid, each entry is the encoding of the record that it decodes to, the
  -- watermark is an int64, and the texts of the snapshot, the keys of the windows included, are valid UTF-8:
  -- restoring the text of a snapshot into any operator brings back every window's records and the watermark.
  pub restore-snapshot :
      (op other : WindowOperator State)
      → IsValid op.rec_state
      → IsEncoded op.rec_state
      → IsInt64 op.current_watermark
      → codec.EncodableSnapshot (taken codec st op).1
      → (after : WindowOperator State) × (restore codec st (snapshot codec st op).1 other
          ≡ some after)
        × (after.current_watermark ≡ op.current_watermark)
        × ((j : Bytes) → view after.rec_state j ≡ view op.rec_state j)
  unfolding restore snapshot taken
  restore-snapshot op other v enc w64 utf8 =
      let (snap, e, same) = codec.unmarshal-marshal (taken codec st op).1 utf8 in
      (
        record other {
          current_watermark = snap.current_watermark;
          durable = codec.put_uint64 (wrap64 snap.current_watermark);
          rec_state =
              restore_windows codec st snap.windows
                (clear_all codec st (keys other.rec_state) other.rec_state);
        },
        rw (e, restore) refl,
        same.same_watermark ∙ wrap64_id op.current_watermark w64,
        λ j.
            view-restore_windows snap.windows _ j same.distinct_windows
            ∙ rw
                (
                  cleared other.rec_state j,
                  same.same_windows j,
                  snapshot_windows-contents (keys op.rec_state) op.rec_state,
                  stored_at-contents op.rec_state (keys op.rec_state) j,
                )
                (restored_view op.rec_state j enc),
      )

  -- Before any watermark no record is too late; an operator restored from a snapshot of that state
  -- has the watermark that the zero time wraps to as an int64, and a record before it by more than
  -- the allowed lateness is too late.
  pub restore_sets_watermark :
      (op other : WindowOperator State) (ts : ℤ)
      → op.current_watermark ≡ zero_time
      → ts <ℤ wrap64 zero_time -ℤ other.allowed_lateness
      → (is_too_late op ts ≡ false)
        × ((after : WindowOperator State) × (restore codec st (snapshot codec st op).1 other
              ≡ some after)
            × (is_too_late after ts ≡ true))
  unfolding restore snapshot taken is_too_late
  restore_sets_watermark op other ts e h =
      let (snap, read, same) = codec.unmarshal-marshal_watermark (taken codec st op).1 in
      let at : snap.current_watermark ≡ wrap64 zero_time = same ∙ ap wrap64 e in
      (
        rw e,
        (
          record other {
            current_watermark = snap.current_watermark;
            durable = codec.put_uint64 (wrap64 snap.current_watermark);
            rec_state =
                restore_windows codec st snap.windows
                  (clear_all codec st (keys other.rec_state) other.rec_state);
          },
          rw (read, restore) refl,
          rw at (rw (wrapped_zero, lt→ltb_ℤ ts (wrap64 zero_time -ℤ other.allowed_lateness) h)),
        ),
      )
