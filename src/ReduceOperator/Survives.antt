-- ===== src/ReduceOperator/Survives.antt =====
-- operator/reduce.go: what a record and the eviction leave in the state.
use mathlib.Core.List.{Memᴰ}
use weibo.Base.{
  ◌≡◌, refl, sym, ◌∙◌, inl, inr, false, Option, none, some, List, [], ◌∷◌, ◌++◌, if◌then◌else◌,
  codes, select, arith, bytes_eq, bytes_eq_iff, Bool-cases, Option-cases, if_cases, map,
}
use weibo.Base.Int.{ℤ, pos, ◌+ℤ◌, ◌-ℤ◌, ◌≤ℤ◌, ltb_ℤ, ltb_ℤ→lt, int_laws}
use weibo.Base.Maps.{get, get-put_self, get-delete}
use weibo.State.{Bytes, bytes_key}
use weibo.State.Values.{
  MemoryValueState, Entries, entries, value_keys, set_value, clear_value, entries-set_value,
  entries-clear_value,
}
use weibo.Types.{Record}
use weibo.WindowKey.{slash, NoSlash, cut_last-append}
use weibo.WindowOperator.Views.{contains, contains-select}
use weibo.WindowOperator.Fires.{contains-select-true}
use weibo.ReduceOperator.{
  ReduceOperator, state_key, at_key, clear_keys, window_allowed_lateness, state_key_window_end,
  is_stale, evict_closed_windows, frontier_of, advance_to, advance_end, advance_window_frontier,
  new_accum, reduce_record,
}

get-clear_keys :
    (ks : List Bytes) (s : MemoryValueState) (k : Bytes)
    → get k (entries (clear_keys ks s)) ≡ (if contains ks k then none else get k (entries s))
unfolding clear_keys
get-clear_keys [] s k = refl
get-clear_keys (j ∷ ks) s k =
    rw
      (
        get-clear_keys ks (clear_value (at_key j s)) k,
        entries-clear_value (at_key j s),
        get-delete k j (entries s),
      )
      (ground arith)

get-mem_keys : (k v : Bytes) (m : Entries) → get k m ≡ some v → Memᴰ k (value_keys m)
unfolding get
get-mem_keys k v [] e = cc
get-mem_keys k v ((j, w) ∷ m) e = elim (Bool-cases (bytes_eq j k)) [
  | inl same ↦ Memᴰ.head (sym ((bytes_eq_iff j k).0 same))
  | inr other ↦ Memᴰ.tail (get-mem_keys k v m (rw other at e))
]

module _ (parse_time parse_int : Bytes → Option ℤ) where
  -- Eviction drops the accumulators of the windows that ended before the frontier, and no others.
  pub get-evict_closed_windows :
      (frontier : ℤ) (s : MemoryValueState) (k : Bytes)
      → get k (entries (evict_closed_windows parse_time parse_int frontier s))
        ≡ (if is_stale parse_time parse_int frontier k then none else get k (entries s))
  unfolding evict_closed_windows
  get-evict_closed_windows frontier s k =
      let stale = is_stale parse_time parse_int frontier in
      rw (get-clear_keys (select stale (value_keys (entries s))) s k)
        (elim (Option-cases (get k (entries s))) [
          | inl e ↦ rw e (ground arith)
          | inr (v, e) ↦ ground (
            arith,
            contains-select stale (value_keys (entries s)) k (get-mem_keys k v (entries s) e),
            contains-select-true stale (value_keys (entries s)) k,
          )
        ])

  allowed-nonneg : (r : Record) → pos 0 ≤ℤ window_allowed_lateness parse_time parse_int r
  unfolding window_allowed_lateness
  allowed-nonneg r = elim (Option-cases (get (codes "window_allowed_lateness_nanos") r.headers)) [
    | inl e ↦ rw (e, window_allowed_lateness) (omega arith)
    | inr (raw, e) ↦ elim (Option-cases (parse_int raw)) [
      | inl bad ↦ rw (e, window_allowed_lateness) (rw bad (omega arith))
      | inr (n, read) ↦ rw (e, window_allowed_lateness) (rw read (ground arith))
    ]
  ]

  frontier_of-le :
      (end allowed : ℤ) → pos 0 ≤ℤ allowed → frontier_of parse_time parse_int end allowed ≤ℤ end
  frontier_of-le end allowed h =
      if_cases (λ (f : ℤ). f ≤ℤ end) (ltb_ℤ (pos 0) allowed) ((end -ℤ allowed) +ℤ pos 1)
        (end -ℤ allowed) (λ e. omega (int_laws, ltb_ℤ→lt (pos 0) allowed e)) (λ e. omega int_laws)

  -- The window of a record is not stale at a frontier up to its end.
  own_window :
      (key ws we : Bytes) (end frontier : ℤ)
      → NoSlash ws
      → NoSlash we
      → parse_time we ≡ some end
      → frontier ≤ℤ end
      → is_stale parse_time parse_int frontier ((key ++ slash ∷ ws) ++ slash ∷ we) ≡ false
  unfolding is_stale state_key_window_end
  own_window key ws we end frontier s e p h =
      rw (cut_last-append (key ++ slash ∷ ws) we e, is_stale, state_key_window_end)
        (rw (cut_last-append key ws s) (elim (Option-cases (parse_time ws)) [
          | inl bad ↦ rw bad refl
          | inr (start, read) ↦ rw (read, p) (ground arith)
        ]))

  -- Moving the frontier keeps an accumulator that is not stale at the new frontier.
  get-advance_to :
      (frontier : ℤ) (r : Record) (op : ReduceOperator) (k : Bytes)
      → is_stale parse_time parse_int frontier k ≡ false
      → get k (entries (advance_to parse_time parse_int frontier r op).values)
        ≡ get k (entries op.values)
  get-advance_to frontier r op k fresh =
      if_cases (λ (o : ReduceOperator). get k (entries o.values) ≡ get k (entries op.values))
        (ltb_ℤ op.window_frontier frontier)
        (record op {
          window_frontier = frontier;
          values =
              at_key (state_key r) (evict_closed_windows parse_time parse_int frontier op.values);
        })
        op (λ e. rw (get-evict_closed_windows frontier op.values k) (rw fresh)) (λ e. refl)

  state_key-eq :
      (r : Record) (ws we : Bytes)
      → get (codes "window_start") r.headers ≡ some ws
      → get (codes "window_end") r.headers ≡ some we
      → state_key r ≡ (r.key ++ slash ∷ ws) ++ slash ∷ we
  unfolding state_key
  state_key-eq r ws we s e = rw (s, state_key) (rw e refl)

  -- A record of a window whose bounds are texts without a slash sends the new accumulator on, and its
  -- key and window then hold it, whatever its arrival evicts.
  pub reduce_record-survives :
      (r : Record) (op : ReduceOperator) (ws we : Bytes)
      → get (codes "window_start") r.headers ≡ some ws
      → get (codes "window_end") r.headers ≡ some we
      → NoSlash ws
      → NoSlash we
      → (map (λ (out : Record). out.value) (reduce_record parse_time parse_int r op).1
          ≡ new_accum parse_time parse_int r op ∷ [])
        × (get (state_key r) (entries (reduce_record parse_time parse_int r op).0.values)
            ≡ some (new_accum parse_time parse_int r op))
  unfolding reduce_record advance_window_frontier
  reduce_record-survives r op ws we s e ns ne = (refl, rw (e, advance_window_frontier) survives)
    where
      stored : ReduceOperator
      stored = record op {
        values = set_value (new_accum parse_time parse_int r op) (at_key (state_key r) op.values);
      }

      held : get (state_key r) (entries stored.values) ≡ some (new_accum parse_time parse_int r op)
      held =
          rw
            (entries-set_value (new_accum parse_time parse_int r op)
              (at_key (state_key r) op.values))
            (get-put_self (state_key r) (new_accum parse_time parse_int r op) (entries op.values))

      survives :
          get
            (state_key r)
            (entries (advance_end parse_time parse_int (parse_time we) r stored).values)
          ≡ some (new_accum parse_time parse_int r op)
      survives = elim (Option-cases (parse_time we)) [
        | inl bad ↦ rw bad held
        | inr (end, read) ↦
            let allowed = window_allowed_lateness parse_time parse_int r in
            let frontier = frontier_of parse_time parse_int end allowed in
            let fresh =
              own_window r.key ws we end frontier ns ne read
                (frontier_of-le end allowed (allowed-nonneg r)) in
            rw read (
              get-advance_to frontier r stored (state_key r) (rw (state_key-eq r ws we s e) fresh)
              ∙ held)
      ]
