-- ===== src/Examples/Entries.antt =====
-- The in-memory value state at concrete entries.
use weibo.Base.{◌≡◌, refl, [], ◌∷◌, bytes_eq}
use weibo.Base.Maps.{get}
use weibo.State.Values.{
  MemoryValueState, get_value, snapshot_all, restore_all, restore_all-snapshot_all,
}

abbrev two_values : MemoryValueState
two_values = record {
  value = (9 ∷ [], (1 ∷ [], 5 ∷ []) ∷ (2 ∷ [], 6 ∷ []) ∷ []) ∷ [];
  name = 9 ∷ [];
  key = 1 ∷ [];
}

abbrev other_values : MemoryValueState
other_values = record { value = (8 ∷ [], (3 ∷ [], 7 ∷ []) ∷ []) ∷ []; name = 8 ∷ []; key = 3 ∷ [] }

restore_all-snapshot_all_example :
    get_value (record (restore_all (snapshot_all two_values) other_values) { key = 2 ∷ [] })
    ≡ get_value (record two_values { key = 2 ∷ [] })
unfolding get bytes_eq
restore_all-snapshot_all_example =
    restore_all-snapshot_all two_values other_values (2 ∷ []) ((refl, tt), (tt, tt))
