-- ===== src/Examples/Clocks.antt =====
-- Runs of the watermark source, and its theorems at concrete streams.
use mathlib.Core.List.{Memᴰ}
use weibo.Base.{◌≡◌, ◌≢◌, refl, true, ◌⊎◌, List, [], ◌∷◌, bytes_eq, arith}
use weibo.Base.Int.{ℤ, pos, ◌≤ℤ◌, ◌-ℤ◌}
use weibo.Types.{Record, zero_record, new_watermark, zero_time}
use weibo.Watermark.{
  Input, arrives, ticks, PartitionClock, WatermarkSource, start, loop, run, max_watermark,
  partition_watermark, takes_part, idle_timeout, get_watermark,
}
use weibo.Watermark.OnTime.{DisorderedBy, OnTime, one_partition-OnTime}
use weibo.Watermark.Least.{partition_watermark_least}
use weibo.Watermark.Monotone.{Ordered, loop-Ordered}

abbrev at_time : ℤ → ℤ → Record
at_time partition ts = record zero_record { partition = partition; timestamp = ts }

abbrev stream : List Input
stream =
    arrives (at_time (pos 0) (pos 50)) (pos 1)
    ∷ arrives (at_time (pos 1) (pos 20)) (pos 2)
    ∷ ticks (pos 3)
    ∷ ticks (pos 101)
    ∷ []

abbrev source : WatermarkSource
source = start (pos 5) (pos 100)

two_ticks :
    run stream source
    ≡ at_time (pos 0) (pos 50)
      ∷ at_time (pos 1) (pos 20)
      ∷ new_watermark (pos 15)
      ∷ new_watermark (pos 15)
      ∷ new_watermark max_watermark
      ∷ []
unfolding run start new_watermark bytes_eq get_watermark ◌-ℤ◌
two_ticks = refl

abbrev clock : ℤ → ℤ → ℤ → PartitionClock
clock partition top seen = record {
  source = [];
  partition = partition;
  gen = record { max_timestamp = top; allowed_lateness = pos 5 };
  last_seen = seen;
}

abbrev two_partitions : WatermarkSource
two_partitions = record {
  out_of_orderness = pos 5;
  partition_idle_timeout = pos 100;
  parts = clock (pos 0) (pos 50) (pos 1) ∷ clock (pos 1) (pos 20) (pos 2) ∷ [];
  last_wm = zero_time;
}

loop-Ordered_example : Ordered zero_time (loop stream two_partitions)
loop-Ordered_example = loop-Ordered stream two_partitions (refl, (refl, (tt, (tt, tt))))

partition_watermark_least_example :
    ((partition_watermark (pos 3) two_partitions ≡ zero_time)
      ⊎ ((p : PartitionClock) × Memᴰ p two_partitions.parts
          × (takes_part (idle_timeout two_partitions.partition_idle_timeout) (pos 3) p ≡ true)
          × (get_watermark p.gen ≡ partition_watermark (pos 3) two_partitions)))
    × ((p : PartitionClock)
        → Memᴰ p two_partitions.parts
        → takes_part (idle_timeout two_partitions.partition_idle_timeout) (pos 3) p ≡ true
        → (partition_watermark (pos 3) two_partitions ≢ zero_time)
          × (partition_watermark (pos 3) two_partitions ≤ℤ get_watermark p.gen))
partition_watermark_least_example = partition_watermark_least (pos 3) two_partitions

-- The third record is behind the second by 2, which is the bound.
abbrev disordered : List Input
disordered =
    arrives (at_time (pos 0) (pos 10)) (pos 1)
    ∷ arrives (at_time (pos 0) (pos 13)) (pos 2)
    ∷ ticks (pos 3)
    ∷ arrives (at_time (pos 0) (pos 11)) (pos 4)
    ∷ ticks (pos 5)
    ∷ []

disordered-DisorderedBy : DisorderedBy [] (pos 0) (pos 2) zero_time disordered
unfolding ◌-ℤ◌
disordered-DisorderedBy = (
  refl,
  refl,
  refl,
  omega arith,
  omega arith,
  (refl, refl, refl, omega arith, omega arith, (refl, refl, refl, omega arith, omega arith, tt)),
)

one_partition-OnTime_example : OnTime zero_time (loop disordered (start (pos 2) (pos 0)))
one_partition-OnTime_example =
    one_partition-OnTime [] (pos 0) (pos 2) (pos 0) disordered disordered-DisorderedBy
