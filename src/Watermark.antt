-- ===== src/Watermark.antt =====
-- watermark/bounded.go and source/watermark.go: watermark generation by event time, and the source
-- that interleaves records with watermarks, one clock for each partition.
pub mod Least
pub mod Monotone
pub mod OnTime
use weibo.Base.{
  ℕ, ◌+◌, Bool, true, false, not, ◌&&◌, ◌||◌, Option, none, some, List, [], ◌∷◌, ◌++◌,
  if◌then◌else◌, bytes_eq,
}
use weibo.Base.Int.{ℤ, pos, negsuc, ◌+ℤ◌, ◌-ℤ◌, ltb_ℤ, eqb_ℤ}
use weibo.State.{Bytes}
use weibo.Types.{Record, new_watermark, zero_time}

-- `BoundedOutOfOrderness`.
pub record BoundedOutOfOrderness : Type 0 where
  pub max_timestamp : ℤ
  pub allowed_lateness : ℤ

unfoldable pub new_bounded : ℤ → BoundedOutOfOrderness
new_bounded lateness = record { max_timestamp = zero_time; allowed_lateness = lateness }

unfoldable pub on_record : ℤ → BoundedOutOfOrderness → BoundedOutOfOrderness
on_record ts g = if ltb_ℤ g.max_timestamp ts then record g { max_timestamp = ts } else g

unfoldable pub get_watermark : BoundedOutOfOrderness → ℤ
get_watermark g =
    if eqb_ℤ g.max_timestamp zero_time then zero_time else g.max_timestamp -ℤ g.allowed_lateness

-- `partitionClock` under its `partitionKey`.
pub record PartitionClock : Type 0 where
  pub source : Bytes
  pub partition : ℤ
  pub gen : BoundedOutOfOrderness
  pub last_seen : ℤ

-- `WatermarkSource` with `NewGenerator` set as `watermarkTracker.wrap` does, and the state of the
-- loop of `Run`.
pub record WatermarkSource : Type 0 where
  pub out_of_orderness : ℤ
  pub partition_idle_timeout : ℤ
  pub parts : List PartitionClock
  pub last_wm : ℤ

abbrev pub default_partition_idle_timeout : ℤ
default_partition_idle_timeout = pos 30000000000

unfoldable pub idle_timeout : ℤ → ℤ
idle_timeout t = if eqb_ℤ t (pos 0) then default_partition_idle_timeout else t

-- Whether a partition takes part in the minimum: it has a watermark and is not idle.
unfoldable pub takes_part : ℤ → ℤ → PartitionClock → Bool
takes_part idle now p =
    not (eqb_ℤ (get_watermark p.gen) zero_time)
    && not (ltb_ℤ (pos 0) idle && not (ltb_ℤ (now -ℤ p.last_seen) idle))

-- The loop of `partitionWatermark`, from the minimum so far.
unfoldable pub min_watermark : ℤ → ℤ → List PartitionClock → ℤ → ℤ
unfolding takes_part
min_watermark idle now [] least = least
min_watermark idle now (p ∷ ps) least =
    let wm = get_watermark p.gen in
    min_watermark idle now ps
      (if takes_part idle now p && (eqb_ℤ least zero_time || ltb_ℤ wm least) then wm else least)

unfoldable pub partition_watermark : ℤ → WatermarkSource → ℤ
unfolding min_watermark idle_timeout
partition_watermark now ws =
    min_watermark (idle_timeout ws.partition_idle_timeout) now ws.parts zero_time

abbrev same_partition : Record → PartitionClock → Bool
same_partition r p = bytes_eq p.source r.source && eqb_ℤ p.partition r.partition

-- The clock of the record's partition observes it; a partition is created when first seen.
unfoldable pub observe : ℤ → Record → ℤ → List PartitionClock → List PartitionClock
unfolding on_record new_bounded
observe lateness r now [] =
    record {
      source = r.source;
      partition = r.partition;
      gen = on_record r.timestamp (new_bounded lateness);
      last_seen = now;
    }
    ∷ []
observe lateness r now (p ∷ ps) =
    let rest = observe lateness r now ps in
    if same_partition r p
    then record p { gen = on_record r.timestamp p.gen; last_seen = now } ∷ ps
    else p ∷ rest

-- What the loop of `Run` receives: a record or a tick, each at the time that its clock shows.
pub data Input : Type 0 where
  arrives : Record → ℤ → Input
  ticks : ℤ → Input

abbrev advance_last : ℤ → ℤ → ℤ
advance_last last pm = if ltb_ℤ last pm then pm else last

unfoldable pub step : Input → WatermarkSource → WatermarkSource × List Record
unfolding observe partition_watermark
step (arrives r now) ws = (record ws { parts = observe ws.out_of_orderness r now ws.parts }, r ∷ [])
step (ticks now) ws =
    let wm = advance_last ws.last_wm (partition_watermark now ws) in
    (record ws { last_wm = wm }, if eqb_ℤ wm zero_time then [] else new_watermark wm ∷ [])

-- The start of year 9999, emitted when the source ends or is cancelled.
abbrev pub max_watermark : ℤ
max_watermark = pos 253370764800000000000

-- The loop of `Run` over what it receives.
unfoldable pub loop : List Input → WatermarkSource → List Record
unfolding step
loop [] ws = []
loop (i ∷ is) ws = let (ws', out) = step i ws in out ++ loop is ws'

-- `Run`: the end of the source flushes every window.
unfoldable pub run : List Input → WatermarkSource → List Record
unfolding loop
run is ws = loop is ws ++ new_watermark max_watermark ∷ []

unfoldable pub start : ℤ → ℤ → WatermarkSource
start lateness idle = record {
  out_of_orderness = lateness;
  partition_idle_timeout = idle;
  parts = [];
  last_wm = zero_time;
}
