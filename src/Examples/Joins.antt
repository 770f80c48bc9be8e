-- ===== src/Examples/Joins.antt =====
-- An interval join of two streams by a key.
use mathlib.Core.List.{Memᴰ}
use weibo.Base.{List, ◌≡◌, refl, true, none, [], ◌∷◌, ◌++◌, arith, bytes_eq, codes}
use weibo.Base.Int.{pos, ◌≤ℤ◌, ◌-ℤ◌, ◌+ℤ◌, wrap64}
use weibo.State.{Bytes}
use weibo.State.Memory.{memory_store, open_list}
use weibo.Types.{Record, zero_record}
use weibo.WindowOperator.Entries.{record_to_json}
use weibo.JoinOperator.{
  IntervalJoinOperator, interval_join, validate, in_range, join, aligned, aligned_watermark,
  process_record, process_all,
}
use weibo.JoinOperator.Buffers.{kept}
use weibo.JoinOperator.Later.{Started}
use weibo.JoinOperator.Sent.{Rising, watermarks, emitted_behind_sides}
use weibo.JoinOperator.Complete.{IsData}
use weibo.JoinOperator.Pairs.{joins_earlier_left, joins_earlier_right}
use weibo.Examples.Fixtures.{sourced_codec}

abbrev pair : Bytes → Bytes → Bytes
pair l r = l ++ r

-- Sources 1 and 2; records match up to 2 before and 3 after.
abbrev joining : IntervalJoinOperator memory_store.State
joining =
    interval_join (1 ∷ []) (2 ∷ []) (pos 2) (pos 3) none (open_list (codes "join_left") [])
      (open_list (codes "join_right") [])

abbrev from_left : Record
from_left = record zero_record { source = 1 ∷ []; value = 8 ∷ []; timestamp = pos 10 }

abbrev from_right : Record
from_right = record zero_record { source = 2 ∷ []; value = 9 ∷ []; timestamp = pos 12 }

-- A watermark of both sides.
abbrev passing : Record
passing = record zero_record { is_watermark = true; timestamp = pos 9 }

left-IsData : IsData sourced_codec from_left
unfolding record_to_json wrap64
left-IsData = record { plain = (refl, refl); encodable = refl; timed = ground arith }

right-IsData : IsData sourced_codec from_right
unfolding record_to_json wrap64
right-IsData = record { plain = (refl, refl); encodable = refl; timed = ground arith }

joining-Started : Started sourced_codec pair memory_store joining
unfolding interval_join
joining-Started = record { left_started = ground arith; right_started = ground arith }

joining_valid : validate joining ≡ true
unfolding validate interval_join bytes_eq
joining_valid = refl

near : in_range joining (pos 10) (pos 12) ≡ true
unfolding in_range interval_join ◌-ℤ◌ ◌+ℤ◌
near = refl

abbrev after_left : IntervalJoinOperator memory_store.State
after_left = (process_all sourced_codec pair memory_store (from_left ∷ passing ∷ []) joining).0

left_clock : aligned sourced_codec pair memory_store after_left ≡ pos 9
unfolding aligned_watermark process_all interval_join bytes_eq
left_clock = refl

left_on_time : aligned sourced_codec pair memory_store after_left ≤ℤ pos 12
left_on_time = rw left_clock (ground arith)

joins_earlier_left_example :
    Memᴰ
      (join sourced_codec pair memory_store joining (kept sourced_codec from_left) from_right)
      (process_record sourced_codec pair memory_store from_right after_left).1
unfolding interval_join
joins_earlier_left_example =
    joins_earlier_left sourced_codec pair memory_store joining (from_left ∷ passing ∷ []) from_left
      from_right joining-Started joining_valid (Memᴰ.head refl) left-IsData right-IsData refl refl
      refl near left_on_time

abbrev after_right : IntervalJoinOperator memory_store.State
after_right = (process_all sourced_codec pair memory_store (from_right ∷ passing ∷ []) joining).0

right_clock : aligned sourced_codec pair memory_store after_right ≡ pos 9
unfolding aligned_watermark process_all interval_join bytes_eq
right_clock = refl

right_on_time : aligned sourced_codec pair memory_store after_right ≤ℤ pos 10
right_on_time = rw right_clock (ground arith)

joins_earlier_right_example :
    Memᴰ
      (join sourced_codec pair memory_store joining from_left (kept sourced_codec from_right))
      (process_record sourced_codec pair memory_store from_left after_right).1
unfolding interval_join
joins_earlier_right_example =
    joins_earlier_right sourced_codec pair memory_store joining (from_right ∷ passing ∷ [])
      from_left from_right joining-Started joining_valid (Memᴰ.head refl) left-IsData right-IsData
      refl refl refl near right_on_time

not_yet_emitted : joining.emitted_watermark ≤ℤ aligned sourced_codec pair memory_store joining
unfolding interval_join aligned_watermark
not_yet_emitted = ground arith

abbrev after_both : IntervalJoinOperator memory_store.State × List Record
after_both =
    process_all sourced_codec pair memory_store (from_left ∷ passing ∷ from_right ∷ passing ∷ [])
      joining

emitted_behind_sides_example :
    Rising joining.emitted_watermark (watermarks after_both.1) after_both.0.emitted_watermark
    × (after_both.0.emitted_watermark ≤ℤ after_both.0.left_watermark)
    × (after_both.0.emitted_watermark ≤ℤ after_both.0.right_watermark)
unfolding interval_join
emitted_behind_sides_example =
    emitted_behind_sides sourced_codec pair memory_store
      (from_left ∷ passing ∷ from_right ∷ passing ∷ []) joining joining-Started not_yet_emitted tt
