-- ===== src/WindowOperator/Entries.antt =====
-- operator/window.go: records as the entries of a window, and as they go out of it.
use weibo.Base.{if◌then◌else◌, codes}
use weibo.Base.Int.{ℤ, pos, ltb_ℤ, wrap64}
use weibo.Base.Maps.{put}
use weibo.State.{Bytes, bytes_key}
use weibo.Types.{Record, zero_record}
use weibo.Window.{Window}
use weibo.WindowKey.{RecordJson, Codec}

unfoldable pub record_to_json : Record → RecordJson
record_to_json r = record {
  key = r.key;
  value = r.value;
  timestamp = wrap64 r.timestamp;
  offset = r.offset;
  partition = r.partition;
  source = r.source;
  headers = r.headers;
}

unfoldable pub record_from_json : RecordJson → Record
record_from_json r = record zero_record {
  key = r.key;
  value = r.value;
  timestamp = r.timestamp;
  offset = r.offset;
  partition = r.partition;
  source = r.source;
  headers = r.headers;
}

module _ (codec : Codec) where
  open codec use {format, format_int, put_uint64, uint64, encode, decode}

  unfoldable pub encode_record : Record → Bytes
  encode_record r = encode (record_to_json r)

  unfoldable pub decode_record : Bytes → Record
  decode_record b = record_from_json (decode b)

  unfoldable pub tag_with_window_and_lateness : Record → Window → ℤ → Record
  tag_with_window_and_lateness r win allowed =
      let bounds =
        put (codes "window_end") (format win.end)
          (put (codes "window_start") (format win.start) r.headers) in
      record zero_record {
        key = r.key;
        value = r.value;
        timestamp = r.timestamp;
        offset = r.offset;
        headers =
            if ltb_ℤ (pos 0) allowed
            then put (codes "window_allowed_lateness_nanos") (format_int allowed) bounds
            else bounds;
      }
