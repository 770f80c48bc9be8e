-- ===== src/Positions.antt =====
-- source/source.go: positions of a source in a checkpoint, and their versioned text. `none` is an error.
pub mod Sorted
use weibo.Base.{
  ℕ, ◌≡◌, Bool, true, false, not, ◌&&◌, ◌||◌, Option, none, some, List, [], ◌∷◌, if◌then◌else◌, ltb,
  ◌==◌, bytes_eq, bytes_eq_iff, arith, ◌↔◌,
}
use weibo.Base.Int.{ℤ, pos, ltb_ℤ, eqb_ℤ, eqb_ℤ_iff}
use weibo.Base.Maps.{Eq}
use weibo.State.{Bytes}

-- `PositionKey` and `topicPartition`.
pub record PositionKey : Type 0 where
  pub topic : Bytes
  pub partition : ℤ

abbrev pub key_eq : PositionKey → PositionKey → Bool
key_eq a b = bytes_eq a.topic b.topic && eqb_ℤ a.partition b.partition

pub record Position : Type 0 where
  pub source : Bytes
  pub partition : ℤ
  pub offset : ℤ

abbrev pub key_of : Position → PositionKey
key_of p = record { topic = p.source; partition = p.partition }

pub record PositionEnvelope : Type 0 where
  pub version : ℤ
  pub positions : List Position

-- `encoding/json` on the envelope and on a legacy map, and `strconv.Atoi`. `Encodable` are the
-- envelopes whose texts are valid UTF-8.
pub record PositionCodec : Type 1 where
  pub marshal : PositionEnvelope → Bytes
  pub unmarshal : Bytes → Option PositionEnvelope
  pub unmarshal_legacy : Bytes → Option (List (Bytes × ℤ))
  pub atoi : Bytes → Option ℤ
  pub Encodable : PositionEnvelope → Type 0
  pub unmarshal-marshal : (e : PositionEnvelope) → Encodable e → unmarshal (marshal e) ≡ some e

-- Go's `<` on strings.
unfoldable pub bytes_ltb : Bytes → Bytes → Bool
bytes_ltb xs [] = false
bytes_ltb [] (y ∷ ys) = true
bytes_ltb (x ∷ xs) (y ∷ ys) = let rest = bytes_ltb xs ys in if x == y then rest else ltb x y

unfoldable pub is_before : PositionKey → PositionKey → Bool
unfolding bytes_ltb
is_before a b =
    if bytes_eq a.topic b.topic then ltb_ℤ a.partition b.partition else bytes_ltb a.topic b.topic

-- `sort.Slice` by source and partition.
unfoldable pub insert : Position → List Position → List Position
unfolding is_before
insert p [] = p ∷ []
insert p (q ∷ qs) =
    let rest = insert p qs in if is_before (key_of q) (key_of p) then q ∷ rest else p ∷ q ∷ qs

unfoldable pub sort : List Position → List Position
unfolding insert
sort [] = []
sort (p ∷ ps) = insert p (sort ps)

unfoldable pub was_seen : PositionKey → List PositionKey → Bool
was_seen k [] = false
was_seen k (j ∷ js) = key_eq j k || was_seen k js

abbrev pub is_valid : Position → Bool
is_valid p =
    not (bytes_eq p.source []) && (not (ltb_ℤ p.partition (pos 0)) && not (ltb_ℤ p.offset (pos 0)))

-- The loop of `DecodePositions`: whether all positions are valid and none stands twice.
unfoldable pub all_valid : List PositionKey → List Position → Bool
unfolding was_seen
all_valid seen [] = true
all_valid seen (p ∷ ps) =
    is_valid p && (not (was_seen (key_of p) seen) && all_valid (key_of p ∷ seen) ps)

abbrev add_position : Position → Option (List Position) → Option (List Position)
add_position p none = none
add_position p (some ps) = some (p ∷ ps)

module _ (codec : PositionCodec) where
  open codec use {marshal, unmarshal, unmarshal_legacy, atoi}

  -- `EncodePositions`.
  unfoldable pub encode_positions : List Position → Bytes
  unfolding sort
  encode_positions ps = marshal (record { version = pos 2; positions = sort ps })

  -- The loop over the legacy map.
  unfoldable pub legacy_positions : Bytes → List (Bytes × ℤ) → Option (List Position)
  legacy_positions source [] = some []
  legacy_positions source ((text, offset) ∷ rest) =
      let more = legacy_positions source rest in
      elim (atoi text) [
        | none ↦ none
        | some part ↦
            if ltb_ℤ part (pos 0) || ltb_ℤ offset (pos 0)
            then none
            else add_position (record { source = source; partition = part; offset = offset }) more
      ]

  unfoldable pub decode_legacy : Bytes → Bytes → Option (List Position)
  unfolding legacy_positions
  decode_legacy data_text legacy_source =
      if bytes_eq legacy_source [] then none else elim (unmarshal_legacy data_text) [
        | none ↦ none
        | some entries ↦ legacy_positions legacy_source entries
      ]

  unfoldable pub decode_envelope : PositionEnvelope → Option (List Position)
  unfolding all_valid
  decode_envelope e =
      if eqb_ℤ e.version (pos 2)
      then (if all_valid [] e.positions then some e.positions else none)
      else none

  -- `DecodePositions`.
  unfoldable pub decode_positions : Bytes → Bytes → Option (List Position)
  unfolding decode_legacy decode_envelope
  decode_positions data_text legacy_source = elim (unmarshal data_text) [
    | none ↦ decode_legacy data_text legacy_source
    | some e ↦
        if eqb_ℤ e.version (pos 0) then decode_legacy data_text legacy_source else decode_envelope e
  ]

pub key_eq_iff : (a b : PositionKey) → (key_eq a b ≡ true) ↔ (a ≡ b)
key_eq_iff a b = ground (arith, bytes_eq_iff a.topic b.topic, eqb_ℤ_iff a.partition b.partition)

instance abbrev pub position_key : Eq PositionKey
position_key = record { beq = key_eq; beq_iff = key_eq_iff }
