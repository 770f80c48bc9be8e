-- ===== src/JoinOperator/Pairs.antt =====
-- operator/join.go: the pairs that a data record is joined with.
use mathlib.Core.List.{Memᴰ}
use weibo.Base.{◌≡◌, refl, sym, ◌∙◌, ap, inl, inr, true, false, Option, some, List, subst}
use weibo.Base.Int.{ℤ, ◌≤ℤ◌}
use weibo.State.{Bytes, ListStore}
use weibo.Types.{Record}
use weibo.WindowKey.{Codec}
use weibo.WindowOperator.Entries.{encode_record, decode_record}
use weibo.WindowOperator.Views.{get_all-set_key}
use weibo.JoinOperator.{
  IntervalJoinOperator, Side, left_side, right_side, side, validate, in_range, join, join_with,
  emit_matches, handle_at, handle_record, aligned, process_record, process_all,
}
use weibo.JoinOperator.Buffers.{kept, decode_record-encode_record}
use weibo.JoinOperator.Clocks.{in_range-left, in_range-right}
use weibo.JoinOperator.Later.{Started, Later}
use weibo.JoinOperator.Complete.{
  IsData, after_all, after_all-Later, Held, left_stays, right_stays, validate-Later, mem-matches,
  kept-timestamp, process_record-plain, side-left, side-right,
}

module _ (codec : Codec) (pair_json : Bytes → Bytes → Bytes) (st : ListStore) where
  open st use {State, set_key, get_all, view}

  abbrev O : Type 0
  O = IntervalJoinOperator State

  in_range-Later :
      (op op' : O) (l r : ℤ) → Later codec pair_json st op op' → in_range op' l r ≡ in_range op l r
  unfolding in_range
  in_range-Later op op' l r h = rw (h.before, h.after) refl

  join-Later :
      (op op' : O) (l r : Record)
      → Later codec pair_json st op op'
      → join codec pair_json st op' l r ≡ join codec pair_json st op l r
  unfolding join
  join-Later op op' l r h =
      ap (λ f. join_with codec pair_json st f op'.left_source op'.right_source l r) h.fn
      ∙ ap (λ s. join_with codec pair_json st op.fn s op'.right_source l r) h.left_source
      ∙ ap (λ s. join_with codec pair_json st op.fn op.left_source s l r) h.right_source

  out-at :
      (r : Record) (op : O) (o : Option Side)
      → IsData codec r
      → side op r ≡ o
      → (process_record codec pair_json st r op).1 ≡ (handle_at codec pair_json st o r op).1
  unfolding handle_record
  out-at r op o h e =
      ap (λ (x : O × List Record). x.1) (process_record-plain codec pair_json st r op h)
      ∙ ap (λ x. (handle_at codec pair_json st x r op).1) e

  -- A held entry in range of the record that arrives is joined with it.
  joined_left :
      (op : O) (l r : Record) (raw : Bytes)
      → Memᴰ raw (view op.left r.key)
      → decode_record codec raw ≡ l
      → in_range op l.timestamp r.timestamp ≡ true
      → Memᴰ
          (join codec pair_json st op l r)
          (handle_at codec pair_json st (some right_side) r op).1
  unfolding emit_matches
  joined_left op l r raw m e near = rw (get_all-set_key st r.key op.left) (
      mem-matches codec pair_json st true op r l (join codec pair_json st op l r)
        (view op.left r.key) raw e (rw near (Memᴰ.head refl)) m)

  joined_right :
      (op : O) (l r : Record) (raw : Bytes)
      → Memᴰ raw (view op.right l.key)
      → decode_record codec raw ≡ r
      → in_range op l.timestamp r.timestamp ≡ true
      → Memᴰ (join codec pair_json st op l r) (handle_at codec pair_json st (some left_side) l op).1
  unfolding emit_matches
  joined_right op l r raw m e near = rw (get_all-set_key st l.key op.right) (
      mem-matches codec pair_json st false op l r (join codec pair_json st op l r)
        (view op.right l.key) raw e (rw near (Memᴰ.head refl)) m)

  -- Where the configuration is valid, and a right record arrives after a left record of its key that is
  -- in range, and is not before the aligned watermark then, it is joined with the left one, as that is
  -- read back from its buffer, whatever came between them.
  pub joins_earlier_left :
      (op : O) (rs : List Record) (l r : Record)
      → Started codec pair_json st op
      → validate op ≡ true
      → Memᴰ l rs
      → IsData codec l
      → IsData codec r
      → l.source ≡ op.left_source
      → r.source ≡ op.right_source
      → l.key ≡ r.key
      → in_range op l.timestamp r.timestamp ≡ true
      → aligned codec pair_json st (process_all codec pair_json st rs op).0 ≤ℤ r.timestamp
      → Memᴰ
          (join codec pair_json st op (kept codec l) r)
          (process_record codec pair_json st r (process_all codec pair_json st rs op).0).1
  unfolding Held
  joins_earlier_left op rs l r h v m dl dr el er same near on_time =
      let op' = after_all codec pair_json st rs op in
      let later = after_all-Later codec pair_json st rs op h in
      let out = out-at r op' (some right_side) dr (
        side-right codec pair_json st op' r (validate-Later codec pair_json st op op' later v)
          (er ∙ sym later.right_source)) in
      let read = decode_record-encode_record codec l dl.encodable in
      let time = ap (λ (x : Record). x.timestamp) read ∙ kept-timestamp codec pair_json st l dl in
      let here = encode_record codec l in
      elim (left_stays codec pair_json st rs op l m h dl el) [
        | inl there ↦ subst (Memᴰ (join codec pair_json st op (kept codec l) r)) (sym out) (
            subst (λ x. Memᴰ x (handle_at codec pair_json st (some right_side) r op').1)
              (join-Later op op' (kept codec l) r later)
              (joined_left op' (kept codec l) r here
                (subst (λ k. Memᴰ here (view op'.left k)) same there) read
                (in_range-Later op op' (kept codec l).timestamp r.timestamp later
                  ∙ ap (λ t. in_range op t r.timestamp) (kept-timestamp codec pair_json st l dl)
                  ∙ near)))
        | inr old ↦ cc (old, time, in_range-left op l.timestamp r.timestamp _ near on_time)
      ]

  -- Where the configuration is valid, and a left record arrives after a right record of its key that is
  -- in range, and is not before the aligned watermark then, it is joined with the right one, as that is
  -- read back from its buffer, whatever came between them.
  pub joins_earlier_right :
      (op : O) (rs : List Record) (l r : Record)
      → Started codec pair_json st op
      → validate op ≡ true
      → Memᴰ r rs
      → IsData codec l
      → IsData codec r
      → l.source ≡ op.left_source
      → r.source ≡ op.right_source
      → l.key ≡ r.key
      → in_range op l.timestamp r.timestamp ≡ true
      → aligned codec pair_json st (process_all codec pair_json st rs op).0 ≤ℤ l.timestamp
      → Memᴰ
          (join codec pair_json st op l (kept codec r))
          (process_record codec pair_json st l (process_all codec pair_json st rs op).0).1
  unfolding Held
  joins_earlier_right op rs l r h v m dl dr el er same near on_time =
      let op' = after_all codec pair_json st rs op in
      let later = after_all-Later codec pair_json st rs op h in
      let out =
        out-at l op' (some left_side) dl
          (side-left codec pair_json st op' l (el ∙ sym later.left_source)) in
      let read = decode_record-encode_record codec r dr.encodable in
      let time = ap (λ (x : Record). x.timestamp) read ∙ kept-timestamp codec pair_json st r dr in
      let here = encode_record codec r in
      elim (right_stays codec pair_json st rs op r m h v dr er) [
        | inl there ↦ subst (Memᴰ (join codec pair_json st op l (kept codec r))) (sym out) (
            subst (λ x. Memᴰ x (handle_at codec pair_json st (some left_side) l op').1)
              (join-Later op op' l (kept codec r) later)
              (joined_right op' l (kept codec r) here
                (subst (λ k. Memᴰ here (view op'.right k)) (sym same) there) read
                (in_range-Later op op' l.timestamp (kept codec r).timestamp later
                  ∙ ap (λ t. in_range op l.timestamp t) (kept-timestamp codec pair_json st r dr)
                  ∙ near)))
        | inr old ↦ cc (old, time, in_range-right op l.timestamp r.timestamp _ near on_time)
      ]
