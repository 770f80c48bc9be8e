-- ===== src/Examples/Tracking.antt =====
-- Kafka offsets at concrete messages.
use weibo.Base.{◌≡◌, refl, true, none, some, List, [], ◌∷◌, ◌++◌, All, ℕ, bytes_eq}
use weibo.Base.Int.{pos, pos_part}
use weibo.Base.Maps.{get}
use weibo.State.{Bytes}
use weibo.Positions.{
  PositionKey, position_key, Position, PositionEnvelope, PositionCodec, insert, is_before, sort,
  encode_positions, decode_positions, is_valid,
}
use weibo.Positions.Sorted.{IsSorted, DistinctKeys, offset_of, decode_positions-encode_positions}
use weibo.OffsetTracker.{
  Message, OffsetTracker, new_offset_tracker, snapshot, restore, restored_offset,
}
use weibo.OffsetTracker.Progress.{CanSnapshot, restore-snapshot_offsets}

-- Positions of topics of one byte, three numbers each.
abbrev first_byte : Bytes → Bytes
first_byte [] = 0 ∷ []
first_byte (c ∷ cs) = c ∷ []

abbrev show_positions : List Position → Bytes
show_positions [] = []
show_positions (p ∷ ps) =
    first_byte p.source ++ (pos_part p.partition ∷ pos_part p.offset ∷ show_positions ps)

abbrev read_positions : Bytes → List Position
read_positions (c ∷ part ∷ offset ∷ rest) =
    record { source = c ∷ []; partition = pos part; offset = pos offset } ∷ read_positions rest
read_positions _ = []

abbrev envelope : List Position → PositionEnvelope
envelope ps = record { version = pos 2; positions = ps }

abbrev toy_positions : PositionCodec
toy_positions = record {
  marshal = λ e. show_positions e.positions;
  unmarshal = λ b. some (envelope (read_positions b));
  unmarshal_legacy = λ b. none;
  atoi = λ b. none;
  Encodable = λ e. envelope (read_positions (show_positions e.positions)) ≡ e;
  unmarshal-marshal = λ e h. rw h refl;
}

abbrev message : ℕ → ℕ → ℕ → Message
message topic partition offset = record {
  topic = topic ∷ [];
  partition = pos partition;
  offset = pos offset;
  high_water_mark = pos 100;
}

abbrev messages : List Message
messages = message 7 1 40 ∷ message 7 0 12 ∷ message 7 1 41 ∷ []

abbrev partition_1 : PositionKey
partition_1 = record { topic = 7 ∷ []; partition = pos 1 }

abbrev position : ℕ → ℕ → Position
position partition offset = record {
  source = 7 ∷ [];
  partition = pos partition;
  offset = pos offset;
}

abbrev unsorted : List Position
unsorted = position 1 42 ∷ position 0 13 ∷ []

sorted : sort unsorted ≡ position 0 13 ∷ position 1 42 ∷ []
unfolding sort insert is_before bytes_eq
sorted = refl

is_encodable : toy_positions.Encodable (envelope (sort unsorted))
is_encodable = rw sorted refl

all_are_valid : All (λ p. is_valid p ≡ true) unsorted
unfolding bytes_eq
all_are_valid = (refl, (refl, tt))

keys_apart : DistinctKeys unsorted
unfolding bytes_eq
keys_apart = ((refl, tt), (tt, tt))

decode_positions-encode_positions_example :
    (decoded : List Position) × (decode_positions toy_positions
        (encode_positions toy_positions unsorted)
        []
      ≡ some decoded)
    × IsSorted decoded
    × ((k : PositionKey) → offset_of k decoded ≡ offset_of k unsorted)
decode_positions-encode_positions_example =
    decode_positions-encode_positions toy_positions unsorted [] is_encodable all_are_valid
      keys_apart

abbrev tracked : OffsetTracker
tracked = record new_offset_tracker {
  consumed = (partition_1, pos 42) ∷ (record { topic = 7 ∷ []; partition = pos 0 }, pos 13) ∷ [];
}

can_snapshot : CanSnapshot toy_positions tracked
can_snapshot = record { encodable = is_encodable; are_valid = all_are_valid; distinct = keys_apart }

restore-snapshot_offsets_example :
    (after : OffsetTracker) × (restore toy_positions
        (snapshot toy_positions tracked)
        []
        new_offset_tracker
      ≡ some after)
    × ((k : PositionKey)
        → (get k after.consumed ≡ get k tracked.consumed)
          × (restored_offset k.topic k.partition after ≡ get k tracked.consumed))
restore-snapshot_offsets_example =
    restore-snapshot_offsets toy_positions tracked new_offset_tracker [] can_snapshot refl refl
