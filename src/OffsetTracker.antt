-- ===== src/OffsetTracker.antt =====
-- source/kafka_offset_tracker.go: how far each Kafka partition has been consumed, and the offsets that
-- a checkpoint keeps.
pub mod Progress
use weibo.Base.{ℕ, ◌≡◌, Bool, true, false, not, Option, none, some, List, [], ◌∷◌, if◌then◌else◌}
use weibo.Base.Int.{ℤ, pos, ◌+ℤ◌, ◌-ℤ◌, ltb_ℤ, wrap64}
use weibo.Base.Maps.{get, put}
use weibo.State.{Bytes}
use weibo.Positions.{
  PositionKey, position_key, Position, key_of, PositionCodec, is_before, encode_positions,
  decode_positions,
}

-- What the tracker reads of a `kafka.Message`.
pub record Message : Type 0 where
  pub topic : Bytes
  pub partition : ℤ
  pub offset : ℤ
  pub high_water_mark : ℤ

pub record PartitionProgress : Type 0 where
  pub topic : Bytes
  pub partition : ℤ
  pub current_offset : ℤ
  pub checkpoint_offset : ℤ
  pub high_watermark : ℤ
  pub lag : ℤ

abbrev pub Offsets : Type 0
Offsets = List (PositionKey × ℤ)

pub record OffsetTracker : Type 0 where
  pub consumed : Offsets
  pub restored : Offsets
  pub progress : List (PositionKey × PartitionProgress)
  pub committed : Offsets

abbrev pub new_offset_tracker : OffsetTracker
new_offset_tracker = record { consumed = []; restored = []; progress = []; committed = [] }

abbrev pub message_key : Message → PositionKey
message_key m = record { topic = m.topic; partition = m.partition }

abbrev pub next_offset : Message → ℤ
next_offset m = wrap64 (m.offset +ℤ pos 1)

-- A missing key reads as 0.
abbrev or_zero : Option ℤ → ℤ
or_zero none = pos 0
or_zero (some n) = n

abbrev pub max_ℤ : ℤ → ℤ → ℤ
max_ℤ a b = if ltb_ℤ a b then b else a

unfoldable pub track : Message → OffsetTracker → OffsetTracker
track m t =
    let key = message_key m in
    record t {
      consumed = put key (next_offset m) t.consumed;
      progress =
          put key
            (record {
              topic = m.topic;
              partition = m.partition;
              current_offset = next_offset m;
              checkpoint_offset =
                  max_ℤ (or_zero (get key t.restored)) (or_zero (get key t.committed));
              high_watermark = m.high_water_mark;
              lag = max_ℤ (pos 0) (wrap64 (m.high_water_mark -ℤ next_offset m));
            })
            t.progress;
    }

-- The progress of a partition, where there is any, with a new checkpoint offset.
abbrev note_committed :
    PositionKey
    → ℤ
    → Option PartitionProgress
    → List (PositionKey × PartitionProgress)
    → List (PositionKey × PartitionProgress)
note_committed key next none ps = ps
note_committed key next (some p) ps = put key (record p { checkpoint_offset = next }) ps

unfoldable pub mark_committed : List Message → OffsetTracker → OffsetTracker
mark_committed [] t = t
mark_committed (m ∷ ms) t =
    let key = message_key m in
    mark_committed ms (record t {
      committed = put key (next_offset m) t.committed;
      progress = note_committed key (next_offset m) (get key t.progress) t.progress;
    })

-- `operationalState`, sorted by topic and partition.
unfoldable pub insert_progress : PartitionProgress → List PartitionProgress → List PartitionProgress
unfolding is_before
insert_progress p [] = p ∷ []
insert_progress p (q ∷ qs) =
    let rest = insert_progress p qs in
    if is_before (record { topic = q.topic; partition = q.partition })
      (record { topic = p.topic; partition = p.partition })
    then q ∷ rest
    else p ∷ q ∷ qs

unfoldable pub sort_progress : List (PositionKey × PartitionProgress) → List PartitionProgress
unfolding insert_progress
sort_progress [] = []
sort_progress ((k, p) ∷ ps) = insert_progress p (sort_progress ps)

unfoldable pub operational_state : OffsetTracker → List PartitionProgress
unfolding sort_progress
operational_state t = sort_progress t.progress

abbrev pub positions_of : Offsets → List Position
positions_of [] = []
positions_of ((k, next) ∷ m) =
    record { source = k.topic; partition = k.partition; offset = next } ∷ positions_of m

-- The loop of `restore`.
unfoldable pub put_positions : List Position → Offsets → Offsets
put_positions [] m = m
put_positions (p ∷ ps) m = put_positions ps (put (key_of p) p.offset m)

module _ (codec : PositionCodec) where
  unfoldable pub snapshot : OffsetTracker → Bytes
  unfolding encode_positions
  snapshot t = encode_positions codec (positions_of t.consumed)

  -- `none` is the error of `DecodePositions`; the tracker is then unchanged.
  unfoldable pub restore : Bytes → Bytes → OffsetTracker → Option OffsetTracker
  unfolding decode_positions put_positions
  restore text legacy_source t = elim (decode_positions codec text legacy_source) [
    | none ↦ none
    | some ps ↦ some (record t {
      restored = put_positions ps t.restored;
      consumed = put_positions ps t.consumed;
    })
  ]

unfoldable pub has_restored : OffsetTracker → Bool
has_restored t = elim t.restored [ [] ↦ false | _ ∷ _ ↦ true ]

unfoldable pub restored_offset : Bytes → ℤ → OffsetTracker → Option ℤ
restored_offset topic part t = get (record { topic = topic; partition = part }) t.restored

unfoldable pub restored_positions : OffsetTracker → List Position
restored_positions t = positions_of t.restored

-- The messages of several partitions as the source's loop consumes them.
unfoldable pub track_all : List Message → OffsetTracker → OffsetTracker
unfolding track
track_all [] t = t
track_all (m ∷ ms) t = track_all ms (track m t)
