-- ===== src/JoinOperator/Later.antt =====
-- operator/join.go: what a round of `Process` keeps of the buffers and the watermarks.
use mathlib.Core.List.{Memᴰ}
use weibo.Base.{
  ◌≡◌, refl, sym, ◌∙◌, ◌⊎◌, inl, inr, true, Option, none, some, List, [], ◌∷◌, arith, bytes_eq,
  Bool-cases, if_cases,
}
use weibo.Base.Int.{ℤ, ◌≤ℤ◌, ◌-ℤ◌, ltb_ℤ, ltb_ℤ→lt, eqb_ℤ}
use weibo.State.{Bytes, ListStore}
use weibo.Types.{Record, zero_time}
use weibo.WindowKey.{Codec}
use weibo.WindowOperator.Entries.{encode_record, decode_record}
use weibo.JoinOperator.{
  IntervalJoinOperator, JoinSnapshot, Side, left_side, right_side, side, aligned, advance_left,
  advance_right, evict, evicted, align, handle_watermark, handle_barrier, handle_at, handle_record,
  emit_matches, snapshot, snapshot_side, process_record, process_all,
}
use weibo.JoinOperator.Buffers.{Stable, mem-evict_keys, mem-append}
use weibo.JoinOperator.Clocks.{aligned_watermark-Monotone, before-later, le_refl, le_trans}

module _ (codec : Codec) (pair_json : Bytes → Bytes → Bytes) (st : ListStore) where
  open st use {State, set_key, append, view, view-set_key, keys}

  abbrev O : Type 0
  O = IntervalJoinOperator State

  -- No side is behind the zero time.
  pub record Started (op : O) : Type 0 where
    pub left_started : zero_time ≤ℤ op.left_watermark
    pub right_started : zero_time ≤ℤ op.right_watermark

  -- What is buffered at a key stays, or was before the cutoff.
  abbrev Keeps : (before after : State) (cutoff : ℤ) → Type 0
  Keeps before after cutoff =
      (k raw : Bytes)
      → Stable codec raw
      → Memᴰ raw (view before k)
      → Memᴰ raw (view after k) ⊎ (ltb_ℤ (decode_record codec raw).timestamp cutoff ≡ true)

  abbrev clock : O → ℤ
  clock op = aligned codec pair_json st op

  pub record Later (op op' : O) : Type 0 where
    pub left_source : op'.left_source ≡ op.left_source
    pub right_source : op'.right_source ≡ op.right_source
    pub before : op'.before ≡ op.before
    pub after : op'.after ≡ op.after
    pub fn : op'.fn ≡ op.fn
    pub started : Started op'
    pub advanced : clock op ≤ℤ clock op'
    pub emitted_more : op.emitted_watermark ≤ℤ op'.emitted_watermark
    pub behind : op.emitted_watermark ≤ℤ clock op → op'.emitted_watermark ≤ℤ clock op'
    pub left_kept : Keeps op.left op'.left (clock op' -ℤ op.after)
    pub right_kept : Keeps op.right op'.right (clock op' -ℤ op.before)

  Keeps-trans :
      (s s' s'' : State) (d a a' : ℤ)
      → a ≤ℤ a'
      → Keeps s s' (a -ℤ d)
      → Keeps s' s'' (a' -ℤ d)
      → Keeps s s'' (a' -ℤ d)
  Keeps-trans s s' s'' d a a' h first second k raw stable m = elim (first k raw stable m) [
    | inl m' ↦ second k raw stable m'
    | inr old ↦ inr (before-later (decode_record codec raw).timestamp d a a' h old)
  ]

  Later-refl : (op : O) → Started op → Later op op
  Later-refl op h = record {
    left_source = refl;
    right_source = refl;
    before = refl;
    after = refl;
    fn = refl;
    started = h;
    advanced = le_refl (clock op);
    emitted_more = le_refl op.emitted_watermark;
    behind = λ b. b;
    left_kept = λ k raw stable m. inl m;
    right_kept = λ k raw stable m. inl m;
  }

  Later-trans : (a b c : O) → Later a b → Later b c → Later a c
  Later-trans a b c h k = record {
    left_source = k.left_source ∙ h.left_source;
    right_source = k.right_source ∙ h.right_source;
    before = k.before ∙ h.before;
    after = k.after ∙ h.after;
    fn = k.fn ∙ h.fn;
    started = k.started;
    advanced = le_trans (clock a) (clock b) (clock c) h.advanced k.advanced;
    emitted_more =
        le_trans a.emitted_watermark b.emitted_watermark c.emitted_watermark h.emitted_more
          k.emitted_more;
    behind = λ x. k.behind (h.behind x);
    left_kept =
        Keeps-trans a.left b.left c.left a.after (clock b) (clock c) k.advanced h.left_kept
          (rw (sym h.after) k.left_kept);
    right_kept =
        Keeps-trans a.right b.right c.right a.before (clock b) (clock c) k.advanced h.right_kept
          (rw (sym h.before) k.right_kept);
  }

  -- Watermarks that do not go back.
  moved :
      (op : O) (a b : ℤ) (x y : Bytes)
      → Started op
      → op.left_watermark ≤ℤ a
      → op.right_watermark ≤ℤ b
      → Later op
          (record op { left_watermark = a; right_watermark = b; stored_left = x; stored_right = y })
  moved op a b x y h ha hb =
      let ahead =
        aligned_watermark-Monotone op.left_watermark op.right_watermark a b h.left_started
          h.right_started ha hb in
      record {
        left_source = refl;
        right_source = refl;
        before = refl;
        after = refl;
        fn = refl;
        started = record {
          left_started = le_trans zero_time op.left_watermark a h.left_started ha;
          right_started = le_trans zero_time op.right_watermark b h.right_started hb;
        };
        advanced = ahead;
        emitted_more = le_refl op.emitted_watermark;
        behind = λ x. le_trans op.emitted_watermark (clock op) _ x ahead;
        left_kept = λ k raw stable m. inl m;
        right_kept = λ k raw stable m. inl m;
      }

  advance_left-Later :
      (ts : ℤ) (op : O) → Started op → Later op (advance_left codec pair_json st ts op)
  advance_left-Later ts op h =
      if_cases (Later op) (ltb_ℤ op.left_watermark ts) _ op
        (λ e.
          moved op ts op.right_watermark _ op.stored_right h (ground (arith, e))
            (le_refl op.right_watermark))
        (λ _. Later-refl op h)

  advance_right-Later :
      (ts : ℤ) (op : O) → Started op → Later op (advance_right codec pair_json st ts op)
  advance_right-Later ts op h =
      if_cases (Later op) (ltb_ℤ op.right_watermark ts) _ op
        (λ e.
          moved op op.left_watermark ts op.stored_left _ h (le_refl op.left_watermark)
            (ground (arith, e)))
        (λ _. Later-refl op h)

  evict-Keeps : (cutoff : ℤ) (s : State) → Keeps s (evict codec st cutoff s) cutoff
  unfolding evict
  evict-Keeps cutoff s k raw stable m =
      elim (Bool-cases (ltb_ℤ (decode_record codec raw).timestamp cutoff)) [
        | inl old ↦ inr old
        | inr young ↦ inl (mem-evict_keys codec st cutoff (keys s) k s raw stable young m)
      ]

  evicted-Later :
      (op : O) (e : ℤ)
      → Started op
      → op.emitted_watermark ≤ℤ e
      → (op.emitted_watermark ≤ℤ clock op → e ≤ℤ clock op)
      → Later op (record (evicted codec pair_json st op) { emitted_watermark = e })
  evicted-Later op e h more b = record {
    left_source = refl;
    right_source = refl;
    before = refl;
    after = refl;
    fn = refl;
    started = record { left_started = h.left_started; right_started = h.right_started };
    advanced = le_refl (clock op);
    emitted_more = more;
    behind = b;
    left_kept = evict-Keeps (clock op -ℤ op.after) op.left;
    right_kept = evict-Keeps (clock op -ℤ op.before) op.right;
  }

  align-Later : (op : O) → Started op → Later op (align codec pair_json st op).0
  unfolding align
  align-Later op h =
      if_cases (λ (r : O × List Record). Later op r.0) (eqb_ℤ (clock op) zero_time) (op, []) _
        (λ _. Later-refl op h)
        (λ _.
          if_cases (λ (r : O × List Record). Later op r.0) (ltb_ℤ op.emitted_watermark (clock op)) _
            _
            (λ e.
              evicted-Later op (clock op) h
                (ground (arith, ltb_ℤ→lt op.emitted_watermark (clock op) e))
                (λ _. le_refl (clock op)))
            (λ _. evicted-Later op op.emitted_watermark h (le_refl op.emitted_watermark) (λ x. x)))

  aligned-Later : (op op' : O) → Later op op' → Later op (align codec pair_json st op').0
  aligned-Later op op' h = Later-trans op op' _ h (align-Later op' h.started)

  handle_watermark-Later :
      (r : Record) (op : O) → Started op → Later op (handle_watermark codec pair_json st r op).0
  unfolding handle_watermark
  handle_watermark-Later r op h =
      let left_moves = advance_left-Later r.timestamp op h in
      if_cases (λ (x : O × List Record). Later op x.0) (bytes_eq r.source op.left_source) _ _
        (λ _. aligned-Later op _ left_moves)
        (λ _.
          if_cases (λ (x : O × List Record). Later op x.0) (bytes_eq r.source op.right_source) _ _
            (λ _. aligned-Later op _ (advance_right-Later r.timestamp op h))
            (λ _.
              if_cases (λ (x : O × List Record). Later op x.0) (bytes_eq r.source []) _ (op, [])
                (λ _. aligned-Later op _ (
                  Later-trans op _ _ left_moves
                    (advance_right-Later r.timestamp _ left_moves.started)))
                (λ _. Later-refl op h)))

  -- Only the lists change, and keep their entries.
  relisted :
      (op : O) (left right : State) (snapshots : List (Bytes × JoinSnapshot))
      → Started op
      → ((k raw : Bytes) → Memᴰ raw (view op.left k) → Memᴰ raw (view left k))
      → ((k raw : Bytes) → Memᴰ raw (view op.right k) → Memᴰ raw (view right k))
      → Later op (record op { left = left; right = right; snapshots = snapshots })
  relisted op left right snapshots h hl hr = record {
    left_source = refl;
    right_source = refl;
    before = refl;
    after = refl;
    fn = refl;
    started = record { left_started = h.left_started; right_started = h.right_started };
    advanced = le_refl (clock op);
    emitted_more = le_refl op.emitted_watermark;
    behind = λ b. b;
    left_kept = λ k raw stable m. inl (hl k raw m);
    right_kept = λ k raw stable m. inl (hr k raw m);
  }

  handle_at-Later :
      (o : Option Side) (r : Record) (op : O)
      → Started op
      → Later op (handle_at codec pair_json st o r op).0
  unfolding emit_matches
  handle_at-Later none r op h = Later-refl op h
  handle_at-Later (some left_side) r op h =
      relisted op _ _ op.snapshots h
        (λ k raw m. mem-append codec st (encode_record codec r) r.key k op.left raw m)
        (λ k raw m. rw (view-set_key r.key k op.right) m)
  handle_at-Later (some right_side) r op h =
      relisted op _ _ op.snapshots h (λ k raw m. rw (view-set_key r.key k op.left) m)
        (λ k raw m. mem-append codec st (encode_record codec r) r.key k op.right raw m)

  handle_record-Later :
      (r : Record) (op : O) → Started op → Later op (handle_record codec pair_json st r op).0
  unfolding handle_record
  handle_record-Later r op h = handle_at-Later (side op r) r op h

  view-snapshot_side :
      (ks : List Bytes) (s : State) (j : Bytes) → view (snapshot_side codec st ks s).0 j ≡ view s j
  unfolding snapshot_side
  view-snapshot_side [] s j = refl
  view-snapshot_side (k ∷ ks) s j = view-snapshot_side ks (set_key k s) j ∙ view-set_key k j s

  handle_barrier-Later :
      (r : Record) (op : O) → Started op → Later op (handle_barrier codec pair_json st r op).0
  unfolding handle_barrier snapshot
  handle_barrier-Later r op h =
      if_cases (λ (x : O × List Record). Later op x.0) op.has_barrier_snapshot _ _
        (λ _.
          relisted op _ _ _ h (λ k raw m. rw (view-snapshot_side (keys op.left) op.left k) m)
            (λ k raw m. rw (view-snapshot_side (keys op.right) op.right k) m))
        (λ _. Later-refl op h)

  pub process_record-Later :
      (r : Record) (op : O) → Started op → Later op (process_record codec pair_json st r op).0
  unfolding process_record
  process_record-Later r op h =
      if_cases (λ (x : O × List Record). Later op x.0) r.is_watermark _ _
        (λ _. handle_watermark-Later r op h)
        (λ _.
          if_cases (λ (x : O × List Record). Later op x.0) r.is_barrier _ _
            (λ _. handle_barrier-Later r op h) (λ _. handle_record-Later r op h))

  pub process_all-Later :
      (rs : List Record) (op : O) → Started op → Later op (process_all codec pair_json st rs op).0
  unfolding process_all
  process_all-Later [] op h = Later-refl op h
  process_all-Later (r ∷ rs) op h =
      let first = process_record-Later r op h in
      Later-trans op _ _ first (process_all-Later rs _ first.started)
