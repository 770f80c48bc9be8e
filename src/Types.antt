-- ===== src/Types.antt =====
-- types/record.go: the data unit of a stream. `Parsed` is an opaque handle; a Go map of headers is an
-- association list.
use weibo.Base.{ℕ, Bool, true, false, Option, none, List, []}
use weibo.Base.Int.{ℤ, pos, negsuc}
use weibo.Base.Maps.{put}
use weibo.State.{Bytes, bytes_key}

pub record Record : Type 0 where
  pub key : Bytes
  pub value : Bytes
  pub timestamp : ℤ
  pub offset : ℤ
  pub partition : ℤ
  pub source : Bytes
  pub headers : List (Bytes × Bytes)
  pub parsed : Option ℕ
  pub is_watermark : Bool
  pub is_barrier : Bool
  pub checkpoint_id : Bytes

-- Go's zero `time.Time`, the first instant of year 1.
abbrev pub zero_time : ℤ
zero_time = negsuc 62135596799999999999

-- The record with every field at its zero value.
abbrev pub zero_record : Record
zero_record = record {
  key = [];
  value = [];
  timestamp = zero_time;
  offset = pos 0;
  partition = pos 0;
  source = [];
  headers = [];
  parsed = none;
  is_watermark = false;
  is_barrier = false;
  checkpoint_id = [];
}

unfoldable pub new_watermark : ℤ → Record
new_watermark ts = record zero_record { timestamp = ts; is_watermark = true }

unfoldable pub new_barrier : Bytes → Record
new_barrier id = record zero_record { checkpoint_id = id; is_barrier = true }

unfoldable pub with_header : Bytes → Bytes → Record → Record
with_header k v r = record r { headers = put k v r.headers }
