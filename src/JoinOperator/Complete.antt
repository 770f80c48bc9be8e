-- ===== src/JoinOperator/Complete.antt =====
-- operator/join.go: that no pair of records in range is lost, whatever was evicted between them.
use mathlib.Core.List.{Memᴰ}
use mathlib.Core.List.Memᴰ
use weibo.Base.{
  ◌≡◌, refl, sym, ◌∙◌, ap, ◌⊎◌, Bool, true, false, Option, some, List, [], ◌∷◌, arith, bytes_eq_iff,
  subst,
}
use weibo.Base.Int.{ℤ, ◌-ℤ◌, ltb_ℤ, wrap64_id, IsInt64}
use weibo.State.{Bytes, ListStore}
use weibo.Types.{Record}
use weibo.WindowKey.{Codec}
use weibo.WindowOperator.Entries.{record_to_json, record_from_json, encode_record, decode_record}
use weibo.JoinOperator.{
  IntervalJoinOperator, Side, left_side, right_side, side, validate, match_of, matches, handle_at,
  handle_record, aligned, process_record, process_all,
}
use weibo.JoinOperator.Buffers.{kept, encode_record-Stable, mem-append_self}
use weibo.JoinOperator.Later.{Started, Later, process_record-Later, process_all-Later}

-- A data record that the codec can store.
pub record IsData (codec : Codec) (r : Record) : Type 0 where
  pub plain : (r.is_watermark ≡ false) × (r.is_barrier ≡ false)
  pub encodable : codec.Encodable (record_to_json r)
  pub timed : IsInt64 r.timestamp

module _ (codec : Codec) (pair_json : Bytes → Bytes → Bytes) (st : ListStore) where
  open st use {State, set_key, view}

  abbrev pub O : Type 0
  O = IntervalJoinOperator State

  pub process_record-plain :
      (r : Record) (op : O)
      → IsData codec r
      → process_record codec pair_json st r op ≡ handle_record codec pair_json st r op
  unfolding process_record
  process_record-plain r op h = rw (h.plain.0, h.plain.1) refl

  pub side-left : (op : O) (r : Record) → r.source ≡ op.left_source → side op r ≡ some left_side
  unfolding side
  side-left op r e = rw (e, (bytes_eq_iff op.left_source op.left_source).1 refl) refl

  pub side-right :
      (op : O) (r : Record)
      → validate op ≡ true
      → r.source ≡ op.right_source
      → side op r ≡ some right_side
  unfolding side validate
  side-right op r v e = rw e (
      ground (
        arith,
        v,
        bytes_eq_iff op.left_source op.right_source,
        bytes_eq_iff op.right_source op.left_source,
        (bytes_eq_iff op.right_source op.right_source).1 refl,
      ))

  pub mem-matches :
      (other_is_left : Bool) (op : O) (r o out : Record) (raws : List Bytes) (raw : Bytes)
      → decode_record codec raw ≡ o
      → Memᴰ out (match_of codec pair_json st other_is_left op r o)
      → Memᴰ raw raws
      → Memᴰ out (matches codec pair_json st other_is_left op r raws)
  unfolding matches
  mem-matches b op r o out [] raw e h m = elim m [ ]
  mem-matches b op r o out (x ∷ raws) raw e h (Memᴰ.head same) =
      Memᴰ.append_left {s = match_of codec pair_json st b op r (decode_record codec x)}
        (matches codec pair_json st b op r raws) (rw (sym same, e) h)
  mem-matches b op r o out (x ∷ raws) raw e h (Memᴰ.tail m) =
      Memᴰ.append_right (match_of codec pair_json st b op r (decode_record codec x))
        (mem-matches b op r o out raws raw e h m)

  pub kept-timestamp : (r : Record) → IsData codec r → (kept codec r).timestamp ≡ r.timestamp
  unfolding record_to_json record_from_json
  kept-timestamp r h = wrap64_id r.timestamp h.timed

  after_one : Record → O → O
  after_one r op = (process_record codec pair_json st r op).0

  abbrev pub after_all : List Record → O → O
  after_all rs op = (process_all codec pair_json st rs op).0

  after_all-cons :
      (r : Record) (rs : List Record) (op : O)
      → after_all (r ∷ rs) op ≡ after_all rs (after_one r op)
  unfolding after_one process_all
  after_all-cons r rs op = refl

  after_one-Later :
      (r : Record) (op : O)
      → Started codec pair_json st op
      → Later codec pair_json st op (after_one r op)
  unfolding after_one
  after_one-Later = process_record-Later codec pair_json st

  pub after_all-Later :
      (rs : List Record) (op : O)
      → Started codec pair_json st op
      → Later codec pair_json st op (after_all rs op)
  after_all-Later = process_all-Later codec pair_json st

  -- An entry is in a list, or the aligned watermark has passed it by more than a distance.
  unfoldable pub Held : Bytes → Bytes → State → O → ℤ → Type 0
  Held raw k s op d =
      Memᴰ raw (view s k)
      ⊎ (ltb_ℤ (decode_record codec raw).timestamp (aligned codec pair_json st op -ℤ d) ≡ true)

  after_one-at :
      (r : Record) (op : O) (o : Option Side)
      → IsData codec r
      → side op r ≡ o
      → after_one r op ≡ (handle_at codec pair_json st o r op).0
  unfolding after_one handle_record
  after_one-at r op o h e =
      ap (λ (x : O × List Record). x.0) (process_record-plain r op h)
      ∙ ap (λ x. (handle_at codec pair_json st x r op).0) e

  stored_left :
      (l : Record) (op : O)
      → IsData codec l
      → l.source ≡ op.left_source
      → Memᴰ (encode_record codec l) (view (after_one l op).left l.key)
  stored_left l op h e =
      subst (λ (x : O). Memᴰ (encode_record codec l) (view x.left l.key))
        (sym (after_one-at l op (some left_side) h (side-left op l e)))
        (mem-append_self codec st (encode_record codec l) l.key op.left)

  stored_right :
      (r : Record) (op : O)
      → IsData codec r
      → validate op ≡ true
      → r.source ≡ op.right_source
      → Memᴰ (encode_record codec r) (view (after_one r op).right r.key)
  stored_right r op h v e =
      subst (λ (x : O). Memᴰ (encode_record codec r) (view x.right r.key))
        (sym (after_one-at r op (some right_side) h (side-right op r v e)))
        (mem-append_self codec st (encode_record codec r) r.key op.right)

  -- The configuration is validated once.
  pub validate-Later :
      (op op' : O) → Later codec pair_json st op op' → validate op ≡ true → validate op' ≡ true
  unfolding validate
  validate-Later op op' h v = rw (h.left_source, h.right_source) v

  -- A buffered record stays until the aligned watermark has passed its range.
  pub left_stays :
      (rs : List Record) (op : O) (l : Record)
      → Memᴰ l rs
      → Started codec pair_json st op
      → IsData codec l
      → l.source ≡ op.left_source
      → Held (encode_record codec l) l.key (after_all rs op).left (after_all rs op) op.after
  unfolding Held
  left_stays [] op l m h d e = elim m [ ]
  left_stays (x ∷ rs) op l m h d e =
      let raw = encode_record codec l in
      let first = after_one-Later x op h in
      let rest = after_all-Later rs (after_one x op) first.started in
      subst (λ (s : O). Held raw l.key s.left s op.after) (sym (after_all-cons x rs op))
        (subst (Held raw l.key (after_all rs (after_one x op)).left (after_all rs (after_one x op)))
          first.after
          (elim m [
            | Memᴰ.head same ↦ rest.left_kept l.key raw (encode_record-Stable codec l d.encodable) (
                subst (λ y. Memᴰ raw (view (after_one y op).left l.key)) same
                  (stored_left l op d e))
            | Memᴰ.tail m' ↦
                left_stays rs (after_one x op) l m' first.started d (e ∙ sym first.left_source)
          ]))

  pub right_stays :
      (rs : List Record) (op : O) (r : Record)
      → Memᴰ r rs
      → Started codec pair_json st op
      → validate op ≡ true
      → IsData codec r
      → r.source ≡ op.right_source
      → Held (encode_record codec r) r.key (after_all rs op).right (after_all rs op) op.before
  unfolding Held
  right_stays [] op r m h v d e = elim m [ ]
  right_stays (x ∷ rs) op r m h v d e =
      let raw = encode_record codec r in
      let first = after_one-Later x op h in
      let rest = after_all-Later rs (after_one x op) first.started in
      subst (λ (s : O). Held raw r.key s.right s op.before) (sym (after_all-cons x rs op))
        (subst
          (Held raw r.key (after_all rs (after_one x op)).right (after_all rs (after_one x op)))
          first.before
          (elim m [
            | Memᴰ.head same ↦
                rest.right_kept r.key raw (encode_record-Stable codec r d.encodable) (
                  subst (λ y. Memᴰ raw (view (after_one y op).right r.key)) same
                    (stored_right r op d v e))
            | Memᴰ.tail m' ↦
                right_stays rs (after_one x op) r m' first.started (validate-Later op _ first v) d
                  (e ∙ sym first.right_source)
          ]))
