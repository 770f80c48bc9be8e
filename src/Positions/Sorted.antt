-- ===== src/Positions/Sorted.antt =====
-- source/source.go: the order of positions in a checkpoint, and reading its text.
use weibo.Base.{
  ◌≡◌, ◌≢◌, ◌⊎◌, inl, inr, ◌<◌, refl, true, false, Option, none, some, List, [], ◌∷◌, All, arith,
  if◌then◌else◌, if_cases, bytes_eq_iff, bytes_eq, sym, Bool-cases,
}
use weibo.Base.Int.{ℤ, pos, ◌<ℤ◌, ltb_ℤ→lt, ltb_ℤ→le, eqb_ℤ_iff}
use weibo.State.{Bytes}
use weibo.Positions.{
  PositionKey, bytes_ltb, is_before, key_eq, key_eq_iff, Position, key_of, PositionCodec, insert,
  sort, was_seen, is_valid, all_valid, encode_positions, decode_positions, decode_envelope,
}

-- No two positions have one key.
abbrev pub DistinctKeys : List Position → Type 0
DistinctKeys [] = Unit {0}
DistinctKeys (p ∷ ps) = All (λ q. key_eq (key_of p) (key_of q) ≡ false) ps × DistinctKeys ps

-- The offset of a key in a list of positions.
abbrev pub offset_of : PositionKey → List Position → Option ℤ
offset_of k [] = none
offset_of k (p ∷ ps) = if key_eq (key_of p) k then some p.offset else offset_of k ps

insert-All :
    (P : Position → Type 0) (p : Position) (ps : List Position)
    → P p
    → All P ps
    → All P (insert p ps)
unfolding insert
insert-All P p [] h k = (h, tt)
insert-All P p (q ∷ qs) h k = ground (arith, insert-All P p qs h k.1)

pub sort-All : (P : Position → Type 0) (ps : List Position) → All P ps → All P (sort ps)
unfolding sort
sort-All P [] h = tt
sort-All P (p ∷ ps) h = insert-All P p (sort ps) h.0 (sort-All P ps h.1)

key_eq_comm : (a b : PositionKey) → key_eq a b ≡ false → key_eq b a ≡ false
key_eq_comm a b h = ground (arith, key_eq_iff a b, key_eq_iff b a)

insert-DistinctKeys :
    (p : Position) (ps : List Position)
    → All (λ q. key_eq (key_of p) (key_of q) ≡ false) ps
    → DistinctKeys ps
    → DistinctKeys (insert p ps)
unfolding insert
insert-DistinctKeys p [] h d = (tt, tt)
insert-DistinctKeys p (q ∷ qs) h d =
    if_cases DistinctKeys (is_before (key_of q) (key_of p)) (q ∷ insert p qs) (p ∷ q ∷ qs)
      (λ e. (
        insert-All (λ r. key_eq (key_of q) (key_of r) ≡ false) p qs
            (key_eq_comm (key_of p) (key_of q) h.0) d.0,
        insert-DistinctKeys p qs h.1 d.1,
      ))
      (λ e. (h, d))

pub sort-DistinctKeys : (ps : List Position) → DistinctKeys ps → DistinctKeys (sort ps)
unfolding sort
sort-DistinctKeys [] d = tt
sort-DistinctKeys (p ∷ ps) d =
    insert-DistinctKeys p (sort ps) (sort-All _ ps d.0) (sort-DistinctKeys ps d.1)

offset_of-insert :
    (k : PositionKey) (p : Position) (ps : List Position)
    → All (λ q. key_eq (key_of p) (key_of q) ≡ false) ps
    → offset_of k (insert p ps) ≡ (if key_eq (key_of p) k then some p.offset else offset_of k ps)
unfolding insert
offset_of-insert k p [] h = refl
offset_of-insert k p (q ∷ qs) h = ground (
  arith,
  offset_of-insert k p qs h.1,
  key_eq_iff (key_of p) k,
  key_eq_iff (key_of q) k,
  key_eq_iff (key_of p) (key_of q),
)

pub offset_of-sort :
    (k : PositionKey) (ps : List Position)
    → DistinctKeys ps
    → offset_of k (sort ps) ≡ offset_of k ps
unfolding sort
offset_of-sort k [] d = refl
offset_of-sort k (p ∷ ps) d =
    rw (offset_of-insert k p (sort ps) (sort-All _ ps d.0), offset_of-sort k ps d.1)

all_valid-true :
    (seen : List PositionKey) (ps : List Position)
    → All (λ p. is_valid p ≡ true) ps
    → DistinctKeys ps
    → All (λ p. was_seen (key_of p) seen ≡ false) ps
    → all_valid seen ps ≡ true
unfolding all_valid was_seen
all_valid-true seen [] v d s = refl
all_valid-true seen (p ∷ ps) v d s =
    rw (v.0, s.0) (all_valid-true (key_of p ∷ seen) ps v.1 d.1 (unseen ps d.0 s.1))
  where
    unseen :
        (qs : List Position)
        → All (λ q. key_eq (key_of p) (key_of q) ≡ false) qs
        → All (λ q. was_seen (key_of q) seen ≡ false) qs
        → All (λ q. was_seen (key_of q) (key_of p ∷ seen) ≡ false) qs
    unseen [] a b = tt
    unseen (q ∷ qs) a b = (rw (a.0, was_seen) b.0, unseen qs a.1 b.1)

fresh : (ps : List Position) → All (λ p. was_seen (key_of p) [] ≡ false) ps
unfolding was_seen
fresh [] = tt
fresh (p ∷ ps) = (refl, fresh ps)

-- The lexicographic order of byte strings.
abbrev pub TextBefore : Bytes → Bytes → Type 0
TextBefore [] [] = ⊥
TextBefore [] (y ∷ ys) = Unit
TextBefore (x ∷ xs) [] = ⊥
TextBefore (x ∷ xs) (y ∷ ys) = (x < y) ⊎ ((x ≡ y) × TextBefore xs ys)

-- By topic, and by partition within a topic.
abbrev pub KeyBefore : PositionKey → PositionKey → Type 0
KeyBefore a b = TextBefore a.topic b.topic ⊎ ((a.topic ≡ b.topic) × (a.partition <ℤ b.partition))

-- Each position has a later key than the one before it; the first, than `p`.
abbrev pub IsSortedFrom : Position → List Position → Type 0
IsSortedFrom p [] = Unit
IsSortedFrom p (q ∷ qs) = KeyBefore (key_of p) (key_of q) × IsSortedFrom q qs

abbrev pub IsSorted : List Position → Type 0
IsSorted [] = Unit {0}
IsSorted (p ∷ ps) = IsSortedFrom p ps

bytes_ltb-TextBefore : (xs ys : Bytes) → bytes_ltb xs ys ≡ true → TextBefore xs ys
unfolding bytes_ltb
bytes_ltb-TextBefore [] [] h = cc h
bytes_ltb-TextBefore [] (y ∷ ys) h = tt
bytes_ltb-TextBefore (x ∷ xs) [] h = cc h
bytes_ltb-TextBefore (x ∷ xs) (y ∷ ys) h = ground (arith, bytes_ltb-TextBefore xs ys)

TextBefore-other : (xs ys : Bytes) → bytes_ltb xs ys ≡ false → xs ≢ ys → TextBefore ys xs
unfolding bytes_ltb
TextBefore-other [] [] h ne = absurd (ne refl)
TextBefore-other [] (y ∷ ys) h ne = cc h
TextBefore-other (x ∷ xs) [] h ne = tt
TextBefore-other (x ∷ xs) (y ∷ ys) h ne = ground (arith, TextBefore-other xs ys)

is_before-KeyBefore : (a b : PositionKey) → is_before a b ≡ true → KeyBefore a b
unfolding is_before
is_before-KeyBefore a b h = ground (
  arith,
  bytes_eq_iff a.topic b.topic,
  bytes_ltb-TextBefore a.topic b.topic,
  ltb_ℤ→lt a.partition b.partition,
)

KeyBefore-other : (a b : PositionKey) → is_before a b ≡ false → key_eq b a ≡ false → KeyBefore b a
unfolding is_before
KeyBefore-other a b h ne = elim (Bool-cases (bytes_eq a.topic b.topic)) [
  | inl same ↦
      let topics = (bytes_eq_iff a.topic b.topic).0 same in
      inr (
        sym topics,
        ground (
          arith,
          bytes_eq_iff b.topic a.topic,
          eqb_ℤ_iff b.partition a.partition,
          ltb_ℤ→le a.partition b.partition,
        ),
      )
  | inr other ↦ inl (
      TextBefore-other a.topic b.topic (ground (arith, other, h))
        (λ e. ground (arith, bytes_eq_iff a.topic b.topic)))
]

insert-IsSortedFrom :
    (q p : Position) (ps : List Position)
    → KeyBefore (key_of q) (key_of p)
    → All (λ r. key_eq (key_of p) (key_of r) ≡ false) ps
    → IsSortedFrom q ps
    → IsSortedFrom q (insert p ps)
unfolding insert
insert-IsSortedFrom q p [] h d s = (h, tt)
insert-IsSortedFrom q p (r ∷ rs) h d s =
    if_cases (IsSortedFrom q) (is_before (key_of r) (key_of p)) (r ∷ insert p rs) (p ∷ r ∷ rs)
      (λ e. (s.0, insert-IsSortedFrom r p rs (is_before-KeyBefore (key_of r) (key_of p) e) d.1 s.1))
      (λ e. (h, (KeyBefore-other (key_of r) (key_of p) e d.0, s.1)))

insert-IsSorted :
    (p : Position) (ps : List Position)
    → All (λ r. key_eq (key_of p) (key_of r) ≡ false) ps
    → IsSorted ps
    → IsSorted (insert p ps)
unfolding insert
insert-IsSorted p [] d s = tt
insert-IsSorted p (r ∷ rs) d s =
    if_cases IsSorted (is_before (key_of r) (key_of p)) (r ∷ insert p rs) (p ∷ r ∷ rs)
      (λ e. insert-IsSortedFrom r p rs (is_before-KeyBefore (key_of r) (key_of p) e) d.1 s)
      (λ e. (KeyBefore-other (key_of r) (key_of p) e d.0, s))

sort-IsSorted : (ps : List Position) → DistinctKeys ps → IsSorted (sort ps)
unfolding sort
sort-IsSorted [] d = tt
sort-IsSorted (p ∷ ps) d = insert-IsSorted p (sort ps) (sort-All _ ps d.0) (sort-IsSorted ps d.1)

pub decode_positions-sort :
    (codec : PositionCodec) (ps : List Position) (legacy_source : Bytes)
    → codec.Encodable (record { version = pos 2; positions = sort ps })
    → All (λ p. is_valid p ≡ true) ps
    → DistinctKeys ps
    → decode_positions codec (encode_positions codec ps) legacy_source ≡ some (sort ps)
unfolding decode_positions encode_positions decode_envelope
decode_positions-sort codec ps legacy_source h v d =
    rw
      (
        codec.unmarshal-marshal (record { version = pos 2; positions = sort ps }) h,
        decode_positions,
      )
      (rw
        (all_valid-true [] (sort ps) (sort-All _ ps v) (sort-DistinctKeys ps d) (fresh (sort ps))))

-- Where the text of the sorted positions is valid UTF-8, valid positions with distinct keys are read back
-- from their text: each key has the offset that it had, and each position has a later key than the one before
-- it, by topic in the order of bytes and by partition within a topic.
pub decode_positions-encode_positions :
    (codec : PositionCodec) (ps : List Position) (legacy_source : Bytes)
    → codec.Encodable (record { version = pos 2; positions = sort ps })
    → All (λ p. is_valid p ≡ true) ps
    → DistinctKeys ps
    → (decoded : List Position) × (decode_positions codec (encode_positions codec ps) legacy_source
        ≡ some decoded)
      × IsSorted decoded
      × ((k : PositionKey) → offset_of k decoded ≡ offset_of k ps)
decode_positions-encode_positions codec ps legacy_source h v d = (
  sort ps,
  decode_positions-sort codec ps legacy_source h v d,
  sort-IsSorted ps d,
  λ k. offset_of-sort k ps d,
)
