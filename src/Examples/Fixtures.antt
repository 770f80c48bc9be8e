-- ===== src/Examples/Fixtures.antt =====
-- Concrete codecs of records and of checkpoints for the examples.
use weibo.Base.{
  ℕ, List, codes, ◌+◌, ◌-◌, ◌≡◌, refl, false, Option, none, some, [], ◌∷◌, ◌++◌, All, arith, ◌==◌,
  if◌then◌else◌, length,
}
use weibo.Base.Int.{ℤ, pos, negsuc}
use weibo.State.{Bytes, bytes_key}
use weibo.WindowKey.{Codec, RecordJson, Snapshot, DistinctWindows}
use weibo.Checkpoint.{Status, prepared, completed, unset, CheckpointData, with_status}
use weibo.FileStorage.{CheckpointCodec, Options}

-- A sign and one digit of unbounded value.
abbrev pub show_int : ℤ → Bytes
show_int (pos n) = 43 ∷ (n + 48) ∷ []
show_int (negsuc n) = 45 ∷ (n + 48) ∷ []

abbrev pub read_int : Bytes → ℤ
read_int (s ∷ d ∷ rest) = if s == 43 then pos (d - 48) else negsuc (d - 48)
read_int _ = pos 0

abbrev pub show_word : ℤ → Bytes
show_word (pos n) = 0 ∷ 0 ∷ 0 ∷ 0 ∷ 0 ∷ 0 ∷ 0 ∷ n ∷ []
show_word (negsuc n) = 1 ∷ 0 ∷ 0 ∷ 0 ∷ 0 ∷ 0 ∷ 0 ∷ n ∷ []

abbrev pub read_word : Bytes → ℤ
read_word (s ∷ _ ∷ _ ∷ _ ∷ _ ∷ _ ∷ _ ∷ n ∷ rest) = if s == 0 then pos n else negsuc n
read_word _ = pos 0

-- A buffered record of the examples is its time and its value.
abbrev pub show_record : RecordJson → Bytes
show_record r = elim r.timestamp [ pos n ↦ 0 ∷ n ∷ r.value | negsuc n ↦ 1 ∷ n ∷ r.value ]

abbrev pub json_of : ℤ → Bytes → RecordJson
json_of ts value = record {
  key = [];
  value = value;
  timestamp = ts;
  offset = pos 0;
  partition = pos 0;
  source = [];
  headers = [];
}

abbrev pub read_record : Bytes → RecordJson
read_record (s ∷ n ∷ value) = json_of (if s == 0 then pos n else negsuc n) value
read_record _ = json_of (pos 0) []

pub show_int-no_slash : (t : ℤ) → All (λ c. (c == b'/') ≡ false) (show_int t)
show_int-no_slash (pos n) = ground arith
show_int-no_slash (negsuc n) = ground arith

pub read_int-show_int : (t : ℤ) → read_int (show_int t) ≡ t
read_int-show_int (pos n) = ground arith
read_int-show_int (negsuc n) = ground arith

pub length-show_word : (t : ℤ) → length (show_word t) ≡ 8
length-show_word (pos n) = refl
length-show_word (negsuc n) = refl

pub read_word-show_word : (t : ℤ) → read_word (show_word t) ≡ t
read_word-show_word (pos n) = refl
read_word-show_word (negsuc n) = refl

-- A snapshot of the examples is its watermark, and one window with one record whose value is one byte.
abbrev show_windows : List (Bytes × List RecordJson) → Bytes
show_windows ((k, r ∷ []) ∷ []) = show_record r ++ k
show_windows _ = []

abbrev read_windows : Bytes → List (Bytes × List RecordJson)
read_windows (s ∷ n ∷ v ∷ k) = (k, read_record (s ∷ n ∷ v ∷ []) ∷ []) ∷ []
read_windows _ = []

abbrev pub show_snapshot : Snapshot → Bytes
show_snapshot s = show_int s.current_watermark ++ show_windows s.windows

abbrev pub read_snapshot : Bytes → Option Snapshot
read_snapshot (s ∷ d ∷ rest) =
    some (record { current_watermark = read_int (s ∷ d ∷ []); windows = read_windows rest })
read_snapshot _ = none

pub read_snapshot-show_snapshot :
    (s : Snapshot)
    → read_snapshot (show_snapshot s)
      ≡ some (record {
        current_watermark = s.current_watermark;
        windows = read_windows (show_windows s.windows);
      })
read_snapshot-show_snapshot s = go s.current_watermark (show_windows s.windows)
  where
    go :
        (t : ℤ) (rest : Bytes)
        → read_snapshot (show_int t ++ rest)
          ≡ some (record { current_watermark = t; windows = read_windows rest })
    go (pos n) rest = ground arith
    go (negsuc n) rest = ground arith

abbrev pub toy_codec : Codec
toy_codec = record {
  format = show_int;
  parse = read_int;
  format_int = show_int;
  put_uint64 = show_word;
  uint64 = read_word;
  encode = show_record;
  decode = read_record;
  Encodable = λ r. read_record (show_record r) ≡ r;
  marshal = show_snapshot;
  unmarshal = read_snapshot;
  EncodableSnapshot =
      λ s. (read_windows (show_windows s.windows) ≡ s.windows) × DistinctWindows s.windows;
  format_no_slash = λ t _. show_int-no_slash t;
  parse-format = λ t _. read_int-show_int t;
  length-put_uint64 = length-show_word;
  uint64-put_uint64 = λ t _. read_word-show_word t;
  decode-encode = λ r e. e;
  unmarshal-marshal_watermark = λ s. (_, read_snapshot-show_snapshot s, refl);
  unmarshal-marshal = λ s e. (
    _,
    read_snapshot-show_snapshot s,
    record {
      same_watermark = refl;
      same_windows = λ k. rw e.0 refl;
      distinct_windows = rw e.0 e.1;
    },
  );
}

abbrev pub first_byte : Bytes → ℕ
first_byte [] = 0
first_byte (b ∷ bs) = b

abbrev pub one_byte : ℕ → Bytes
one_byte b = if b == 0 then [] else b ∷ []

abbrev pub read_sourced : Bytes → RecordJson
read_sourced (s ∷ b) = record (read_record b) { source = one_byte s }
read_sourced [] = json_of (pos 0) []

-- The same codec for records that have a source of one byte.
abbrev pub sourced_codec : Codec
sourced_codec = record toy_codec {
  encode = λ r. first_byte r.source ∷ show_record r;
  decode = λ b. read_sourced b;
  Encodable = λ r. read_sourced (first_byte r.source ∷ show_record r) ≡ r;
  decode-encode = λ r e. e;
}

-- A checkpoint of the examples is its status, time, id, offsets, transaction and operator state, a byte
-- each; zero stands for nothing.
abbrev status_byte : Status → ℕ
status_byte prepared = 0
status_byte completed = 1
status_byte unset = 2

abbrev byte_status : ℕ → Status
byte_status b = if b == 0 then prepared else if b == 1 then completed else unset

abbrev first_value : List (Bytes × Bytes) → ℕ
first_value [] = 0
first_value ((k, v) ∷ rest) = first_byte v

abbrev one_value : Bytes → ℕ → List (Bytes × Bytes)
one_value k b = if b == 0 then [] else (k, b ∷ []) ∷ []

abbrev natural : ℤ → ℕ
natural (pos n) = n
natural (negsuc n) = 0

abbrev pub show_checkpoint : CheckpointData → Bytes
show_checkpoint d =
    status_byte d.status
    ∷ natural d.timestamp
    ∷ first_byte d.id
    ∷ first_value d.source
    ∷ first_byte d.txn_id
    ∷ first_value d.operators
    ∷ []

abbrev pub read_checkpoint : Bytes → Option CheckpointData
read_checkpoint (status ∷ ts ∷ id ∷ offsets ∷ txn ∷ op ∷ []) = some (record {
  id = one_byte id;
  timestamp = pos ts;
  operators = one_value [] op;
  source = one_value (codes "offset") offsets;
  status = byte_status status;
  txn_id = one_byte txn;
  state_dirs = [];
})
read_checkpoint _ = none

abbrev pub toy_checkpoint_codec : CheckpointCodec
toy_checkpoint_codec = record {
  marshal = show_checkpoint;
  unmarshal = read_checkpoint;
  trim_space = λ text. text;
  parse_int = λ text. pos (first_byte text);
  Encodable = λ d.
      (read_checkpoint (show_checkpoint d) ≡ some d)
      × ((status : Status)
          → read_checkpoint (show_checkpoint (with_status status d)) ≡ some (with_status status d));
  unmarshal-marshal = λ d e. e.0;
  with_status-Encodable = λ status d e. (e.1 status, λ st. e.1 st);
}

abbrev pub three_kept : Options
three_kept = record { retain_completed = 3; startup_failed = false }
