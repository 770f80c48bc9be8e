-- ===== src/OffsetTracker/Progress.antt =====
-- source/kafka_offset_tracker.go: the offsets after messages, and through a checkpoint.
use weibo.Base.{
  ◌≡◌, refl, true, false, Option, none, some, List, [], ◌∷◌, All, arith, if◌then◌else◌,
}
use weibo.Base.Int.{ℤ, pos}
use weibo.Base.Maps.{get, put, get-put}
use weibo.State.{Bytes}
use weibo.Positions.{
  PositionKey, key_eq, key_eq_iff, position_key, Position, key_of, PositionCodec, sort, is_valid,
}
use weibo.Positions.Sorted.{
  DistinctKeys, offset_of, offset_of-sort, sort-DistinctKeys, decode_positions-sort,
}
use weibo.OffsetTracker.{
  Message, OffsetTracker, Offsets, message_key, next_offset, track, track_all, positions_of,
  put_positions, snapshot, restore, restored_offset,
}

-- The next offset after the last of the messages of a partition.
abbrev pub last_of : PositionKey → List Message → Option ℤ → Option ℤ
last_of k [] before = before
last_of k (m ∷ ms) before =
    last_of k ms (if key_eq (message_key m) k then some (next_offset m) else before)

-- After any messages the tracker has, for each partition, the offset after its last message, or the
-- offset from before where it had none; what was restored is left alone.
pub track_all-last :
    (k : PositionKey) (ms : List Message) (t : OffsetTracker)
    → (get k (track_all ms t).consumed ≡ last_of k ms (get k t.consumed))
      × ((track_all ms t).restored ≡ t.restored)
unfolding track_all track
track_all-last k [] t = (refl, refl)
track_all-last k (m ∷ ms) t =
    let (last, same) = track_all-last k ms (track m t) in
    (rw (← get-put k (message_key m) (next_offset m) t.consumed) last, same)

or_else {ℓ} : {A : Type ℓ} → Option A → Option A → Option A
or_else none o = o
or_else (some a) o = some a

none_of :
    (k : PositionKey) (ps : List Position)
    → All (λ q. key_eq k (key_of q) ≡ false) ps
    → offset_of k ps ≡ none
none_of k [] h = refl
none_of k (p ∷ ps) h =
    ground (arith, key_eq_iff k (key_of p), key_eq_iff (key_of p) k, none_of k ps h.1)

get-put_positions :
    (k : PositionKey) (ps : List Position) (m : Offsets)
    → DistinctKeys ps
    → get k (put_positions ps m) ≡ or_else (offset_of k ps) (get k m)
unfolding put_positions or_else
get-put_positions k [] m d = refl
get-put_positions k (p ∷ ps) m d = ground (
  arith,
  get-put_positions k ps (put (key_of p) p.offset m) d.1,
  get-put k (key_of p) p.offset m,
  key_eq_iff (key_of p) k,
  none_of (key_of p) ps d.0,
)

offset_of-positions_of : (k : PositionKey) (m : Offsets) → offset_of k (positions_of m) ≡ get k m
unfolding get
offset_of-positions_of k [] = refl
offset_of-positions_of k ((j, n) ∷ m) = rw (offset_of-positions_of k m)

or_else-none {ℓ} : {A : Type ℓ} (o : Option A) → or_else o none ≡ o
unfolding or_else
or_else-none none = refl
or_else-none (some a) = refl

-- Positions put into an empty map have the offsets of the map that they came from.
get-put_sorted :
    (k : PositionKey) (m n : Offsets)
    → DistinctKeys (positions_of m)
    → n ≡ []
    → get k (put_positions (sort (positions_of m)) n) ≡ get k m
unfolding get or_else
get-put_sorted k m n d e =
    rw
      (
        e,
        get-put_positions k (sort (positions_of m)) [] (sort-DistinctKeys (positions_of m) d),
        offset_of-sort k (positions_of m) d,
        offset_of-positions_of k m,
      )
      (or_else-none (get k m))

-- What a tracker needs for a checkpoint: its positions are valid, with one for each partition.
pub record CanSnapshot (codec : PositionCodec) (t : OffsetTracker) : Type 0 where
  pub encodable :
      codec.Encodable (record { version = pos 2; positions = sort (positions_of t.consumed) })
  pub are_valid : All (λ p. is_valid p ≡ true) (positions_of t.consumed)
  pub distinct : DistinctKeys (positions_of t.consumed)

-- Restoring the checkpoint of a tracker whose positions are valid, one for each partition, into a
-- tracker with nothing consumed or restored succeeds; every partition then has the offset of the
-- checkpoint, both as the place to read from and for the next checkpoint.
pub restore-snapshot_offsets :
    (codec : PositionCodec) (t other : OffsetTracker) (legacy_source : Bytes)
    → CanSnapshot codec t
    → other.consumed ≡ []
    → other.restored ≡ []
    → (after : OffsetTracker) × (restore codec (snapshot codec t) legacy_source other ≡ some after)
      × ((k : PositionKey)
          → (get k after.consumed ≡ get k t.consumed)
            × (restored_offset k.topic k.partition after ≡ get k t.consumed))
unfolding snapshot restore restored_offset
restore-snapshot_offsets codec t other legacy_source h c r =
    let ps = positions_of t.consumed in
    let read = decode_positions-sort codec ps legacy_source h.encodable h.are_valid h.distinct in
    (
      record other {
        restored = put_positions (sort ps) other.restored;
        consumed = put_positions (sort ps) other.consumed;
      },
      rw (read, restore) refl,
      λ k. (
        get-put_sorted k t.consumed other.consumed h.distinct c,
        get-put_sorted k t.consumed other.restored h.distinct r,
      ),
    )
