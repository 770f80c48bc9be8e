-- ===== src/WindowKey.antt =====
-- operator/window.go, `windowKey`: the key of a window's list, "<record key>/<start>/<end>", and the
-- codecs of the standard library that the operator relies on.
use weibo.Base.{
  ℕ, ◌≡◌, refl, false, Option, none, some, List, [], ◌∷◌, ◌++◌, All, arith, ◌==◌, if◌then◌else◌,
  length, Option-cases, inl, inr, bytes_eq,
}
use weibo.Base.Int.{ℤ, pos, wrap64, wrap64_id, wrap64-IsInt64, IsInt64}
use weibo.State.{Bytes}
use weibo.Window.{Window}

-- `recordJSON`: what a buffered record keeps.
pub record RecordJson : Type 0 where
  pub key : Bytes
  pub value : Bytes
  pub timestamp : ℤ
  pub offset : ℤ
  pub partition : ℤ
  pub source : Bytes
  pub headers : List (Bytes × Bytes)

-- `windowOperatorSnapshotJSON`; the window bounds that Go stores beside the records are those of the
-- key, and are not read back.
pub record Snapshot : Type 0 where
  pub current_watermark : ℤ
  pub windows : List (Bytes × List RecordJson)

-- The records under a key of the map of windows, none where it is missing.
abbrev pub stored_at : Bytes → List (Bytes × List RecordJson) → List RecordJson
stored_at k [] = []
stored_at k ((j, rs) ∷ ws) = if bytes_eq j k then rs else stored_at k ws

abbrev pub DistinctWindows : List (Bytes × List RecordJson) → Type 0
DistinctWindows [] = Unit {0}
DistinctWindows ((k, rs) ∷ ws) =
    All (λ (w : Bytes × List RecordJson). bytes_eq k w.0 ≡ false) ws × DistinctWindows ws

-- Two snapshots are one, up to the order in which Go ranges over the map of windows.
pub record SameSnapshot (a b : Snapshot) : Type 0 where
  pub same_watermark : a.current_watermark ≡ b.current_watermark
  pub same_windows : (k : Bytes) → stored_at k a.windows ≡ stored_at k b.windows
  pub distinct_windows : DistinctWindows a.windows

abbrev pub slash : ℕ
slash = b'/'

-- `Time.Format` and `time.Parse` at RFC3339Nano, `strconv.FormatInt`, `binary.BigEndian` on 8 bytes,
-- and `encoding/json` on a `recordJSON` and on a snapshot. `Encodable` are the records whose texts are
-- valid UTF-8; `EncodableSnapshot` are the snapshots with distinct keys of windows whose texts, these keys
-- included, are valid UTF-8: in others the invalid bytes are replaced, and the watermark is still read back.
pub record Codec : Type 1 where
  pub format : ℤ → Bytes
  pub parse : Bytes → ℤ
  pub format_int : ℤ → Bytes
  pub put_uint64 : ℤ → Bytes
  pub uint64 : Bytes → ℤ
  pub encode : RecordJson → Bytes
  pub decode : Bytes → RecordJson
  pub Encodable : RecordJson → Type 0
  pub marshal : Snapshot → Bytes
  pub unmarshal : Bytes → Option Snapshot
  pub EncodableSnapshot : Snapshot → Type 0
  pub format_no_slash : (t : ℤ) → IsInt64 t → All (λ c. (c == b'/') ≡ false) (format t)
  pub parse-format : (t : ℤ) → IsInt64 t → parse (format t) ≡ t
  pub length-put_uint64 : (t : ℤ) → length (put_uint64 t) ≡ 8
  pub uint64-put_uint64 : (t : ℤ) → IsInt64 t → uint64 (put_uint64 t) ≡ t
  pub decode-encode : (r : RecordJson) → Encodable r → decode (encode r) ≡ r
  pub unmarshal-marshal_watermark :
      (s : Snapshot)
      → (s' : Snapshot) × (unmarshal (marshal s) ≡ some s')
        × (s'.current_watermark ≡ s.current_watermark)
  pub unmarshal-marshal :
      (s : Snapshot)
      → EncodableSnapshot s
      → (s' : Snapshot) × (unmarshal (marshal s) ≡ some s') × SameSnapshot s' s

pub record WindowKey : Type 0 where
  pub key : Bytes
  pub start : ℤ
  pub end : ℤ

unfoldable pub to_window_key : Bytes → Window → WindowKey
to_window_key key win = record { key = key; start = wrap64 win.start; end = wrap64 win.end }

-- The parts before and after the last slash.
unfoldable pub cut_last : Bytes → Option (Bytes × Bytes)
cut_last [] = none
cut_last (c ∷ cs) = elim (cut_last cs) [
  | none ↦ if c == slash then some ([], cs) else none
  | some (a, b) ↦ some (c ∷ a, b)
]

-- The bounds of a stored window lie in the range of an int64.
pub record Stored (k : WindowKey) : Type 0 where
  pub start64 : IsInt64 k.start
  pub end64 : IsInt64 k.end

abbrev pub NoSlash : Bytes → Type 0
NoSlash = All (λ c. (c == slash) ≡ false)

cut_last-none : (b : Bytes) → NoSlash b → cut_last b ≡ none
unfolding cut_last
cut_last-none [] h = refl
cut_last-none (c ∷ b) h = rw (cut_last-none b h.1) (rw h.0)

pub cut_last-append : (a b : Bytes) → NoSlash b → cut_last (a ++ slash ∷ b) ≡ some (a, b)
unfolding cut_last
cut_last-append [] b h = rw (cut_last-none b h)
cut_last-append (c ∷ a) b h = rw (cut_last-append a b h)

module _ (codec : Codec) where
  open codec use {format, parse, format_no_slash, parse-format}

  -- `windowKey.String`.
  unfoldable pub to_string : WindowKey → Bytes
  to_string k = (k.key ++ slash ∷ format k.start) ++ slash ∷ format k.end

  key_of_parts : Bytes → Option (Bytes × Bytes) → WindowKey
  key_of_parts end none = record { key = []; start = pos 0; end = pos 0 }
  key_of_parts end (some (key, start)) = record {
    key = key;
    start = wrap64 (parse start);
    end = wrap64 (parse end);
  }

  unfoldable pub parse_window_key : Bytes → WindowKey
  unfolding key_of_parts cut_last
  parse_window_key s = elim (cut_last s) [
    | none ↦ record { key = []; start = pos 0; end = pos 0 }
    | some (front, end) ↦ key_of_parts end (cut_last front)
  ]

  -- The key of a window whose bounds are in the range of an int64 is read back from its text,
  -- slashes in the record key included.
  pub parse_window_key-to_string : (k : WindowKey) → Stored k → parse_window_key (to_string k) ≡ k
  unfolding to_string parse_window_key
  parse_window_key-to_string k h =
      rw
        (
          cut_last-append (k.key ++ slash ∷ format k.start) (format k.end)
              (format_no_slash k.end h.end64),
          parse_window_key,
        )
        (rw (cut_last-append k.key (format k.start) (format_no_slash k.start h.start64)) (
          rw (
            parse-format k.start h.start64,
            parse-format k.end h.end64,
            wrap64_id k.start h.start64,
            wrap64_id k.end h.end64,
          )))

  key_of_parts-Stored : (end : Bytes) (o : Option (Bytes × Bytes)) → Stored (key_of_parts end o)
  unfolding key_of_parts
  key_of_parts-Stored end none = record { start64 = omega arith; end64 = omega arith }
  key_of_parts-Stored end (some (key, start)) = record {
    start64 = wrap64-IsInt64 (parse start);
    end64 = wrap64-IsInt64 (parse end);
  }

  -- Whatever text is read, the bounds are values of int64 variables.
  pub parse_window_key-Stored : (s : Bytes) → Stored (parse_window_key s)
  unfolding parse_window_key
  parse_window_key-Stored s = elim (Option-cases (cut_last s)) [
    | inl e ↦ rw (e, parse_window_key) (record { start64 = omega arith; end64 = omega arith })
    | inr (c, e) ↦ rw (e, parse_window_key) (key_of_parts-Stored c.1 (cut_last c.0))
  ]
