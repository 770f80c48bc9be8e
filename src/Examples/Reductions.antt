-- ===== src/Examples/Reductions.antt =====
-- The reduce operator at a windowed record.
use weibo.Base.{◌≡◌, refl, ◌∷◌, [], some, none, Option, true, false, bytes_eq, map}
use weibo.Base.Int.{ℤ, pos}
use weibo.Base.Maps.{get}
use weibo.State.{Bytes, bytes_key}
use weibo.State.Values.{entries}
use weibo.Types.{Record, zero_record, zero_time}
use weibo.ReduceOperator.{ReduceOperator, state_key, is_stale, new_accum, reduce_record}
use weibo.ReduceOperator.Survives.{reduce_record-survives}
use weibo.Base.{codes}

-- One byte is a time.
abbrev read_time : Bytes → Option ℤ
read_time [] = none
read_time (c ∷ cs) = some (pos c)

abbrev windowed : Record
windowed = record zero_record {
  key = 3 ∷ [];
  value = 5 ∷ [];
  headers = (codes "window_start", 60 ∷ []) ∷ (codes "window_end", 70 ∷ []) ∷ [];
}

-- The state of an earlier window of the key, from 48 to 58.
abbrev earlier : Bytes
earlier = 3 ∷ 47 ∷ 48 ∷ 47 ∷ 58 ∷ []

abbrev reducing : ReduceOperator
reducing = record {
  values = record {
    value = (codes "reduce", (earlier, 9 ∷ []) ∷ []) ∷ [];
    name = codes "reduce";
    key = [];
  };
  fn = λ accum r. r.value;
  window_frontier = zero_time;
  has_barrier_snapshot = false;
  snapshots = [];
}

earlier_is_evicted : is_stale read_time read_time (pos 70) earlier ≡ true
unfolding is_stale
earlier_is_evicted = refl

starts : get (codes "window_start") windowed.headers ≡ some (60 ∷ [])
unfolding get bytes_eq
starts = refl

ends : get (codes "window_end") windowed.headers ≡ some (70 ∷ [])
unfolding get bytes_eq
ends = refl

reduce_record-survives_example :
    (map (λ (out : Record). out.value) (reduce_record read_time read_time windowed reducing).1
      ≡ new_accum read_time read_time windowed reducing ∷ [])
    × (get
          (state_key windowed)
          (entries (reduce_record read_time read_time windowed reducing).0.values)
        ≡ some (new_accum read_time read_time windowed reducing))
reduce_record-survives_example =
    reduce_record-survives read_time read_time windowed reducing (60 ∷ []) (70 ∷ []) starts ends
      (refl, tt) (refl, tt)
