-- ===== src/ReduceOperator.antt =====
-- operator/reduce.go: one accumulator for each key, or for each key and window; the accumulators of
-- windows that have closed are evicted. The state is the in-memory one; native snapshots are left out.
pub mod Survives
use weibo.Base.{
  ℕ, Bool, true, false, not, Option, none, some, List, [], ◌∷◌, ◌++◌, if◌then◌else◌, codes, select,
}
use weibo.Base.Int.{ℤ, pos, ◌+ℤ◌, ◌-ℤ◌, ltb_ℤ}
use weibo.Base.Maps.{get}
use weibo.State.{Bytes, bytes_key}
use weibo.State.Memory.{or_empty}
use weibo.State.Values.{
  MemoryValueState, Entries, entries, value_keys, get_value, set_value, clear_value, snapshot_all,
  restore_all,
}
use weibo.Types.{Record, zero_record}
use weibo.WindowKey.{slash, cut_last}

-- `fn` gets no accumulator for the first record of a key. `snapshots` is what `barrierSnapshot` was
-- called with, before its result is marshalled.
pub record ReduceOperator : Type 0 where
  pub values : MemoryValueState
  pub fn : Option Bytes → Record → Bytes
  pub window_frontier : ℤ
  pub has_barrier_snapshot : Bool
  pub snapshots : List (Bytes × Entries)

-- `StateKey`.
unfoldable pub state_key : Record → Bytes
state_key r = elim (get (codes "window_start") r.headers) [
  | none ↦ r.key
  | some ws ↦ (r.key ++ slash ∷ ws) ++ slash ∷ or_empty (get (codes "window_end") r.headers)
]

-- `vs.SetKey`.
abbrev pub at_key : Bytes → MemoryValueState → MemoryValueState
at_key k s = record s { key = k }

unfoldable pub clear_keys : List Bytes → MemoryValueState → MemoryValueState
unfolding clear_value
clear_keys [] s = s
clear_keys (k ∷ ks) s = clear_keys ks (clear_value (at_key k s))

-- `time.Parse` at RFC3339Nano and `strconv.ParseInt`; `none` is an error.
module _ (parse_time parse_int : Bytes → Option ℤ) where
  unfoldable pub window_allowed_lateness : Record → ℤ
  window_allowed_lateness r = elim (get (codes "window_allowed_lateness_nanos") r.headers) [
    | none ↦ pos 0
    | some raw ↦ elim (parse_int raw) [
      | none ↦ pos 0
      | some n ↦ if ltb_ℤ (pos 0) n then n else pos 0
    ]
  ]

  abbrev pub end_of_parts : Bytes → Option (Bytes × Bytes) → Option ℤ
  end_of_parts end none = none
  end_of_parts end (some (key, start)) = elim (parse_time start) [
    | none ↦ none
    | some _ ↦ parse_time end
  ]

  unfoldable pub state_key_window_end : Bytes → Option ℤ
  unfolding cut_last
  state_key_window_end sk = elim (cut_last sk) [
    | none ↦ none
    | some (front, end) ↦ end_of_parts end (cut_last front)
  ]

  unfoldable pub is_stale : ℤ → Bytes → Bool
  unfolding state_key_window_end
  is_stale frontier k = elim (state_key_window_end k) [
    | none ↦ false
    | some end ↦ ltb_ℤ end frontier
  ]

  -- `evictClosedWindows`.
  unfoldable pub evict_closed_windows : ℤ → MemoryValueState → MemoryValueState
  unfolding clear_keys is_stale
  evict_closed_windows frontier s =
      clear_keys (select (is_stale frontier) (value_keys (entries s))) s

  -- The frontier that a record whose window ends at a time stands for.
  abbrev pub frontier_of : ℤ → ℤ → ℤ
  frontier_of end allowed =
      if ltb_ℤ (pos 0) allowed then (end -ℤ allowed) +ℤ pos 1 else end -ℤ allowed

  abbrev pub advance_to : ℤ → Record → ReduceOperator → ReduceOperator
  advance_to frontier r op =
      if ltb_ℤ op.window_frontier frontier
      then record op {
        window_frontier = frontier;
        values = at_key (state_key r) (evict_closed_windows frontier op.values);
      }
      else op

  abbrev pub advance_end : Option ℤ → Record → ReduceOperator → ReduceOperator
  advance_end none r op = op
  advance_end (some end) r op = advance_to (frontier_of end (window_allowed_lateness r)) r op

  unfoldable pub advance_window_frontier : Record → ReduceOperator → ReduceOperator
  unfolding evict_closed_windows window_allowed_lateness state_key
  advance_window_frontier r op = elim (get (codes "window_end") r.headers) [
    | none ↦ op
    | some raw ↦ advance_end (parse_time raw) r op
  ]

  -- The branch of `Process` for data records.
  abbrev pub new_accum : Record → ReduceOperator → Bytes
  new_accum r op = op.fn (get_value (at_key (state_key r) op.values)) r

  unfoldable pub reduce_record : Record → ReduceOperator → ReduceOperator × List Record
  unfolding state_key get_value set_value advance_window_frontier
  reduce_record r op =
      let value = new_accum r op in
      (
        advance_window_frontier r
            (record op { values = set_value value (at_key (state_key r) op.values) }),
        record zero_record {
          key = r.key;
          value = value;
          timestamp = r.timestamp;
          offset = r.offset;
          headers = r.headers;
        }
            ∷ [],
      )

  -- One round of the loop of `Process`.
  unfoldable pub process_reduce : Record → ReduceOperator → ReduceOperator × List Record
  unfolding reduce_record snapshot_all
  process_reduce r op =
      if r.is_watermark
      then (op, r ∷ [])
      else if r.is_barrier
      then (
        if op.has_barrier_snapshot
            then record op {
              snapshots = op.snapshots ++ (r.checkpoint_id, snapshot_all op.values) ∷ [];
            }
            else op,
        r ∷ [],
      )
      else reduce_record r op

-- `Restore`, from what `json.Unmarshal` returned: `none` is its error.
unfoldable pub restore_reduce : Option Entries → ReduceOperator → Option ReduceOperator
unfolding restore_all
restore_reduce none op = none
restore_reduce (some es) op = some (record op { values = restore_all es op.values })
