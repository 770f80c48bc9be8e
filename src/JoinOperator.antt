-- ===== src/JoinOperator.antt =====
-- operator/join.go: the interval join of two streams over keyed list states. A handle of each side's
-- list state and the two watermarks stored under "left" and "right" are fields of the operator; native
-- snapshots are left out.
pub mod Buffers
pub mod Clocks
pub mod Later
pub mod Sent
pub mod Complete
pub mod Pairs
use weibo.Base.{
  ℕ, Bool, true, false, not, ◌&&◌, ◌||◌, Option, none, some, List, [], ◌∷◌, ◌++◌, map, select,
  if◌then◌else◌, bytes_eq, codes, length, ◌==◌,
}
use weibo.Base.Int.{ℤ, pos, ◌+ℤ◌, ◌-ℤ◌, ltb_ℤ, eqb_ℤ, wrap64}
use weibo.State.{Bytes, ListStore}
use weibo.Types.{Record, zero_record, zero_time, new_watermark}
use weibo.WindowKey.{RecordJson, Codec}
use weibo.WindowOperator.{clear_all, append_all, restore_windows}
use weibo.WindowOperator.Entries.{encode_record, decode_record}

pub data Side : Type 0 where
  left_side right_side : Side

-- `intervalJoinSnapshot`.
pub record JoinSnapshot : Type 0 where
  pub left_watermark : ℤ
  pub right_watermark : ℤ
  pub left : List (Bytes × List RecordJson)
  pub right : List (Bytes × List RecordJson)

-- `snapshots` is what `barrierSnapshot` was called with, before its result is marshalled.
pub record IntervalJoinOperator (S : Type 0) : Type 0 where
  pub left_source : Bytes
  pub right_source : Bytes
  pub before : ℤ
  pub after : ℤ
  pub fn : Option (Record → Record → Record)
  pub left : S
  pub right : S
  pub left_watermark : ℤ
  pub right_watermark : ℤ
  pub emitted_watermark : ℤ
  pub stored_left : Bytes
  pub stored_right : Bytes
  pub has_barrier_snapshot : Bool
  pub snapshots : List (Bytes × JoinSnapshot)

abbrev not_negative : ℤ → ℤ
not_negative d = if ltb_ℤ d (pos 0) then pos 0 else d

-- `IntervalJoin`, with the two lists of a new backend.
unfoldable pub interval_join :
    {S : Type 0}
    → Bytes
    → Bytes
    → ℤ
    → ℤ
    → Option (Record → Record → Record)
    → S
    → S
    → IntervalJoinOperator S
interval_join left_source right_source before after fn left right = record {
  left_source = left_source;
  right_source = right_source;
  before = not_negative before;
  after = not_negative after;
  fn = fn;
  left = left;
  right = right;
  left_watermark = zero_time;
  right_watermark = zero_time;
  emitted_watermark = zero_time;
  stored_left = [];
  stored_right = [];
  has_barrier_snapshot = false;
  snapshots = [];
}

abbrev pub max_time : ℤ → ℤ → ℤ
max_time a b = if ltb_ℤ b a then a else b

-- `alignedWatermark`.
unfoldable pub aligned_watermark : ℤ → ℤ → ℤ
aligned_watermark a b =
    if eqb_ℤ a zero_time || eqb_ℤ b zero_time then zero_time else if ltb_ℤ a b then a else b

abbrev pub unix_nano_or_zero : ℤ → ℤ
unix_nano_or_zero t = if eqb_ℤ t zero_time then pos 0 else wrap64 t

abbrev pub time_from_unix_nano_or_zero : ℤ → ℤ
time_from_unix_nano_or_zero n = if eqb_ℤ n (pos 0) then zero_time else n

module _ {S : Type 0} where
  unfoldable pub side : IntervalJoinOperator S → Record → Option Side
  side op r =
      if bytes_eq r.source op.left_source
      then some left_side
      else if bytes_eq r.source op.right_source
      then some right_side
      else none

  unfoldable pub in_range : IntervalJoinOperator S → ℤ → ℤ → Bool
  in_range op left right =
      not (ltb_ℤ right (left -ℤ op.before)) && not (ltb_ℤ (left +ℤ op.after) right)

  -- `Validate`: whether it returns no error.
  unfoldable pub validate : IntervalJoinOperator S → Bool
  validate op =
      if bytes_eq op.left_source [] || bytes_eq op.right_source []
      then false
      else not (bytes_eq op.left_source op.right_source)

module _ (codec : Codec) where
  open codec use {put_uint64, uint64}

  abbrev pub store_watermark : ℤ → Bytes
  store_watermark ts = if eqb_ℤ ts zero_time then [] else put_uint64 (wrap64 ts)

  abbrev pub load_watermark : Bytes → ℤ
  load_watermark raw = if length raw == 8 then uint64 raw else zero_time

module _ (codec : Codec) (st : ListStore) where
  open st use {State, set_key, get_all, clear, keys}
  open codec use {decode}

  -- The records of a key that are not before the cutoff, each read and written again.
  unfoldable pub evict_key : ℤ → Bytes → State → State
  unfolding encode_record decode_record append_all
  evict_key cutoff key ls =
      let ls' = set_key key ls in
      let keep =
        select (λ (r : Record). not (ltb_ℤ r.timestamp cutoff))
          (map (decode_record codec) (get_all ls')) in
      append_all codec st (map (encode_record codec) keep) (clear ls')

  unfoldable pub evict_keys : ℤ → List Bytes → State → State
  unfolding evict_key
  evict_keys cutoff [] ls = ls
  evict_keys cutoff (key ∷ rest) ls = evict_keys cutoff rest (evict_key cutoff key ls)

  unfoldable pub evict : ℤ → State → State
  unfolding evict_keys
  evict cutoff ls = evict_keys cutoff (keys ls) ls

  abbrev pub held :
      Bytes → List Bytes → List (Bytes × List RecordJson) → List (Bytes × List RecordJson)
  held key [] rest = rest
  held key (raw ∷ raws) rest = (key, map decode (raw ∷ raws)) ∷ rest

  -- `snapshotJoinSide`.
  unfoldable pub snapshot_side : List Bytes → State → State × List (Bytes × List RecordJson)
  snapshot_side [] ls = (ls, [])
  snapshot_side (key ∷ rest) ls =
      let ls' = set_key key ls in
      let (ls'', entries) = snapshot_side rest ls' in (ls'', held key (get_all ls') entries)

  -- `restoreJoinSide`.
  unfoldable pub restore_side : List (Bytes × List RecordJson) → State → State
  unfolding clear_all restore_windows
  restore_side entries ls = restore_windows codec st entries (clear_all codec st (keys ls) ls)

-- `pair_json` is the default join of two values: `json.Valid` and `json.Marshal` on them.
module _ (codec : Codec) (pair_json : Bytes → Bytes → Bytes) (st : ListStore) where
  open st use {State, set_key, append, get_all, clear, keys}

  abbrev pub J : Type 0
  J = IntervalJoinOperator State

  abbrev pub join_with :
      Option (Record → Record → Record) → Bytes → Bytes → Record → Record → Record
  join_with (some f) left_source right_source left right = f left right
  join_with none left_source right_source left right = record zero_record {
    key = left.key;
    value = pair_json left.value right.value;
    timestamp = max_time left.timestamp right.timestamp;
    headers =
        (codes "join_left_source", left_source) ∷ (codes "join_right_source", right_source) ∷ [];
  }

  unfoldable pub join : J → Record → Record → Record
  join op left right = join_with op.fn op.left_source op.right_source left right

  abbrev pub match_of : Bool → J → Record → Record → List Record
  match_of true op r o = if in_range op o.timestamp r.timestamp then join op o r ∷ [] else []
  match_of false op r o = if in_range op r.timestamp o.timestamp then join op r o ∷ [] else []

  unfoldable pub matches : Bool → J → Record → List Bytes → List Record
  unfolding in_range join decode_record
  matches other_is_left op r [] = []
  matches other_is_left op r (raw ∷ rest) =
      match_of other_is_left op r (decode_record codec raw) ++ matches other_is_left op r rest

  -- `emitMatches`, on the list state of the other side.
  unfoldable pub emit_matches : Bool → J → Record → State → State × List Record
  unfolding matches
  emit_matches other_is_left op r other =
      let other' = set_key r.key other in (other', matches other_is_left op r (get_all other'))

  abbrev pub handle_at : Option Side → Record → J → J × List Record
  handle_at none r op = (op, [])
  handle_at (some left_side) r op =
      let (right, out) = emit_matches false op r op.right in
      (
        record op { left = append (encode_record codec r) (set_key r.key op.left); right = right },
        out,
      )
  handle_at (some right_side) r op =
      let (left, out) = emit_matches true op r op.left in
      (
        record op { left = left; right = append (encode_record codec r) (set_key r.key op.right) },
        out,
      )

  unfoldable pub handle_record : Record → J → J × List Record
  unfolding side emit_matches encode_record
  handle_record r op = handle_at (side op r) r op

  abbrev pub advance_left : ℤ → J → J
  advance_left ts op =
      if ltb_ℤ op.left_watermark ts
      then record op { left_watermark = ts; stored_left = store_watermark codec ts }
      else op

  abbrev pub advance_right : ℤ → J → J
  advance_right ts op =
      if ltb_ℤ op.right_watermark ts
      then record op { right_watermark = ts; stored_right = store_watermark codec ts }
      else op

  abbrev pub aligned : J → ℤ
  aligned op = aligned_watermark op.left_watermark op.right_watermark

  abbrev pub evicted : J → J
  evicted op = record op {
    left = evict codec st (aligned op -ℤ op.after) op.left;
    right = evict codec st (aligned op -ℤ op.before) op.right;
  }

  -- The second half of `handleWatermark`: eviction, and the watermark that goes on.
  unfoldable pub align : J → J × List Record
  unfolding aligned_watermark evict new_watermark
  align op =
      if eqb_ℤ (aligned op) zero_time
      then (op, [])
      else if ltb_ℤ op.emitted_watermark (aligned op)
      then (record (evicted op) { emitted_watermark = aligned op }, new_watermark (aligned op) ∷ [])
      else (evicted op, [])

  unfoldable pub handle_watermark : Record → J → J × List Record
  unfolding align
  handle_watermark r op =
      if bytes_eq r.source op.left_source
      then align (advance_left r.timestamp op)
      else if bytes_eq r.source op.right_source
      then align (advance_right r.timestamp op)
      else if bytes_eq r.source []
      then align (advance_right r.timestamp (advance_left r.timestamp op))
      else (op, [])

  -- `Snapshot`, before its result is marshalled.
  unfoldable pub snapshot : J → J × JoinSnapshot
  unfolding snapshot_side
  snapshot op =
      let (left, left_entries) = snapshot_side codec st (keys op.left) op.left in
      let (right, right_entries) = snapshot_side codec st (keys op.right) op.right in
      (
        record op { left = left; right = right },
        record {
          left_watermark = unix_nano_or_zero op.left_watermark;
          right_watermark = unix_nano_or_zero op.right_watermark;
          left = left_entries;
          right = right_entries;
        },
      )

  -- `Restore`, from what `json.Unmarshal` returned: `none` is its error.
  unfoldable pub restore : Option JoinSnapshot → J → Option J
  unfolding aligned_watermark restore_side
  restore none op = none
  restore (some snap) op =
      let left = time_from_unix_nano_or_zero snap.left_watermark in
      let right = time_from_unix_nano_or_zero snap.right_watermark in
      some (record op {
        left_watermark = left;
        right_watermark = right;
        emitted_watermark = aligned_watermark left right;
        stored_left = store_watermark codec left;
        stored_right = store_watermark codec right;
        left = restore_side codec st snap.left op.left;
        right = restore_side codec st snap.right op.right;
      })

  unfoldable pub handle_barrier : Record → J → J × List Record
  unfolding snapshot
  handle_barrier r op =
      let (op', snap) = snapshot op in
      if op.has_barrier_snapshot
      then (record op' { snapshots = op'.snapshots ++ (r.checkpoint_id, snap) ∷ [] }, r ∷ [])
      else (op, r ∷ [])

  -- One round of the loop of `Process`.
  unfoldable pub process_record : Record → J → J × List Record
  unfolding handle_watermark handle_barrier handle_record
  process_record r op =
      if r.is_watermark
      then handle_watermark r op
      else if r.is_barrier
      then handle_barrier r op
      else handle_record r op

  unfoldable pub process_all : List Record → J → J × List Record
  unfolding process_record
  process_all [] op = (op, [])
  process_all (r ∷ rs) op =
      let (op', out) = process_record r op in
      let (op'', rest) = process_all rs op' in (op'', out ++ rest)

  -- `loadWatermarks`.
  unfoldable pub load_watermarks : J → J
  unfolding aligned_watermark
  load_watermarks op =
      let left = load_watermark codec op.stored_left in
      let right = load_watermark codec op.stored_right in
      record op {
        left_watermark = left;
        right_watermark = right;
        emitted_watermark = aligned_watermark left right;
      }

  -- `Process`, on all the records of its channel.
  unfoldable pub process : List Record → J → J × List Record
  unfolding process_all load_watermarks
  process rs op = process_all rs (load_watermarks op)
