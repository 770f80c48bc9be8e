-- ===== src/WindowOperator/Fires.antt =====
-- operator/window.go, `handleWatermark` and `flushRemaining`: which windows fire and what they emit.
use weibo.Base.{
  ◌≡◌, refl, ◌∙◌, inl, inr, Bool, true, false, List, [], ◌∷◌, ◌++◌, if◌then◌else◌, All, bytes_eq,
  bytes_eq_iff, arith, select, Bool-cases, List-cases, not, map,
}
use weibo.Base.Int.{ℤ, ◌+ℤ◌, ltb_ℤ}
use weibo.State.{Bytes, Distinct, ListStore}
use weibo.Types.{Record}
use weibo.WindowKey.{Codec, parse_window_key}
use weibo.WindowOperator.{
  Config, WindowOperator, window_output, window_of, fire_all, handle_watermark, advance, is_due,
}
use weibo.WindowOperator.Emitted.{emission, window_output-emission}
use weibo.WindowOperator.Views.{contains, contains-select, get_all-set_key, view-clear-set_key}

-- A selected key passes the test.
pub contains-select-true :
    (p : Bytes → Bool) (ks : List Bytes) (k : Bytes) → contains (select p ks) k ≡ true → p k ≡ true
unfolding select
contains-select-true p [] k h = cc
contains-select-true p (j ∷ ks) k h = ground (arith, bytes_eq_iff j k, contains-select-true p ks k)

module _ (codec : Codec) (st : ListStore) (c : Config) (due : Bytes → Bool) where
  open st use {State, set_key, clear, keys, IsValid, view}

  -- What the listed windows emit, in order.
  abbrev outputs : State → List Bytes → List Record
  outputs s [] = []
  outputs s (k ∷ ks) =
      window_output codec c.reducer c.allowed_lateness (window_of codec k) (view s k)
      ++ outputs s ks

  pub view-fire_all :
      (ks : List Bytes) (s : State) (j : Bytes)
      → view (fire_all codec st c due ks s).0 j
        ≡ (if contains (select due ks) j then [] else view s j)
  unfolding fire_all select
  view-fire_all [] s j = refl
  view-fire_all (k ∷ ks) s j = elim (Bool-cases (due k)) [
    | inl e ↦
        rw (e, fire_all)
          (rw (view-fire_all ks (clear (set_key k s)) j, view-clear-set_key st k j s)
            (ground arith))
    | inr e ↦ rw (e, fire_all) (view-fire_all ks s j)
  ]

  outputs-clear :
      (k : Bytes) (s : State) (ks : List Bytes)
      → All (λ j. bytes_eq k j ≡ false) ks
      → outputs (clear (set_key k s)) (select due ks) ≡ outputs s (select due ks)
  unfolding select
  outputs-clear k s [] h = refl
  outputs-clear k s (j ∷ ks) h = elim (Bool-cases (due j)) [
    | inl e ↦ rw (e, outputs) (rw (view-clear-set_key st k j s, h.0, outputs-clear k s ks h.1))
    | inr e ↦ rw (e, outputs) (outputs-clear k s ks h.1)
  ]

  pub output-fire_all :
      (ks : List Bytes) (s : State)
      → Distinct ks
      → (fire_all codec st c due ks s).1 ≡ outputs s (select due ks)
  unfolding fire_all select
  output-fire_all [] s h = refl
  output-fire_all (k ∷ ks) s h = elim (Bool-cases (due k)) [
    | inl e ↦
        rw (e, fire_all, outputs)
          (rw (
            get_all-set_key st k s,
            output-fire_all ks (clear (set_key k s)) h.1,
            outputs-clear k s ks h.0,
          ))
    | inr e ↦ rw (e, fire_all, outputs) (output-fire_all ks s h.1)
  ]

module _ (codec : Codec) (st : ListStore) where
  open st use {State, keys, IsValid, view, mem-keys, keys-Distinct}

  listed_due :
      (due : Bytes → Bool) (s : State) (j : Bytes)
      → (if contains (select due (keys s)) j then [] else view s j)
        ≡ (if due j then [] else view s j)
  listed_due due s j = elim (List-cases (view s j)) [
    | inl e ↦ rw e (ground arith)
    | inr held ↦ ground (
      arith,
      contains-select due (keys s) j (mem-keys j s held),
      contains-select-true due (keys s) j,
    )
  ]

  -- Whether a watermark is no earlier than the end of a stored window plus the allowed lateness.
  abbrev pub is_reached : WindowOperator State → ℤ → Bytes → Bool
  is_reached op watermark k =
      not (ltb_ℤ watermark ((parse_window_key codec k).end +ℤ op.allowed_lateness))

  -- What the listed windows emit, in order.
  abbrev pub emissions : WindowOperator State → List Bytes → List Record
  emissions op [] = []
  emissions op (k ∷ ks) =
      emission codec op.reducer op.allowed_lateness
        (record { start = (parse_window_key codec k).start; end = (parse_window_key codec k).end })
        (map codec.decode (view op.rec_state k))
      ++ emissions op ks

  -- What `handleWatermark` owes for an operator, a watermark, the operator after it and its output.
  pub record FiresDue (op : WindowOperator State) (w : Record) (after : WindowOperator State)
      (out : List Record) : Type 0 where
    pub clock :
        after.current_watermark
        ≡ (if ltb_ℤ op.current_watermark w.timestamp then w.timestamp else op.current_watermark)
    pub lists :
        (j : Bytes)
        → view after.rec_state j
          ≡ (if is_reached op after.current_watermark j then [] else view op.rec_state j)
    pub emitted :
        out ≡ emissions op (select (is_reached op after.current_watermark) (keys op.rec_state))

  pub swept :
      (c : Config) (due : Bytes → Bool) (s : State) (j : Bytes)
      → view (fire_all codec st c due (keys s) s).0 j ≡ (if due j then [] else view s j)
  swept c due s j = view-fire_all codec st c due (keys s) s j ∙ listed_due due s j

  outputs-emissions :
      (op : WindowOperator State) (due : Bytes → Bool) (ks : List Bytes)
      → outputs codec st op.config due op.rec_state ks ≡ emissions op ks
  outputs-emissions op due [] = refl
  outputs-emissions op due (k ∷ ks) = rw (
    window_output-emission codec op.reducer op.allowed_lateness (window_of codec k)
        (view op.rec_state k),
    outputs-emissions op due ks,
  )

  emits :
      (op : WindowOperator State) (due : Bytes → Bool)
      → IsValid op.rec_state
      → (fire_all codec st op.config due (keys op.rec_state) op.rec_state).1
        ≡ emissions op (select due (keys op.rec_state))
  emits op due v =
      output-fire_all codec st op.config due (keys op.rec_state) op.rec_state
        (keys-Distinct op.rec_state v)
      ∙ outputs-emissions op due (select due (keys op.rec_state))

  -- From a valid state, a watermark that is later than the clock becomes the clock, and an earlier one does
  -- not change it. Exactly the stored windows whose end plus the allowed lateness is not after the clock are
  -- emitted, in the order of the stored keys, and cleared; the others keep their records. Without a reducer a
  -- window emits each of its records in order, with the bounds of the window in the headers; with one, a
  -- window with records emits one record, of the value that the reducer folds them to.
  pub handle_watermark-FiresDue :
      (w : Record) (op : WindowOperator State)
      → IsValid op.rec_state
      → FiresDue op w (handle_watermark codec st w op).0 (handle_watermark codec st w op).1
  unfolding handle_watermark is_due
  handle_watermark-FiresDue w op v = elim (Bool-cases (ltb_ℤ op.current_watermark w.timestamp)) [
    | inl e ↦
        rw (e, handle_watermark, advance)
          (record {
            clock = rw e refl;
            lists = swept op.config (is_reached op w.timestamp) op.rec_state;
            emitted = emits op (is_reached op w.timestamp) v;
          })
    | inr e ↦
        rw (e, handle_watermark, advance)
          (record {
            clock = rw e refl;
            lists = swept op.config (is_reached op op.current_watermark) op.rec_state;
            emitted = emits op (is_reached op op.current_watermark) v;
          })
  ]
