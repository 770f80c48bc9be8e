-- ===== src/WindowOperator/Emitted.antt =====
-- operator/window.go, `fireWindow`: what a window emits, apart from how the code computes it.
use mathlib.Core.List.{foldl}
use weibo.Base.{◌≡◌, refl, ap, Option, none, some, List, [], ◌∷◌, map, if◌then◌else◌, codes}
use weibo.Base.Int.{ℤ, pos, ltb_ℤ}
use weibo.Base.Maps.{put}
use weibo.State.{Bytes, bytes_key}
use weibo.Types.{Record, zero_record}
use weibo.Window.{Window}
use weibo.WindowKey.{RecordJson, Codec}
use weibo.WindowOperator.{window_output, reduce_entries, tag_entries}
use weibo.WindowOperator.Entries.{decode_record, record_from_json, tag_with_window_and_lateness}

abbrev pub Reducer : Type 0
Reducer = Option (Option Bytes → Record → Option Bytes)

module _ (codec : Codec) where
  open codec use {decode, format, format_int}

  -- The headers of a stored entry, with the bounds of its window, and the lateness where there is one.
  abbrev pub stamped : ℤ → Window → RecordJson → List (Bytes × Bytes)
  stamped allowed win e =
      let bounds =
        put (codes "window_end") (format win.end)
          (put (codes "window_start") (format win.start) e.headers) in
      if ltb_ℤ (pos 0) allowed
      then put (codes "window_allowed_lateness_nanos") (format_int allowed) bounds
      else bounds

  -- An entry with its key, time and offset, the headers of its window, and a value.
  abbrev pub stamp : ℤ → Window → Bytes → RecordJson → Record
  stamp allowed win value e = record zero_record {
    key = e.key;
    value = value;
    timestamp = e.timestamp;
    offset = e.offset;
    headers = stamped allowed win e;
  }

  abbrev pub last_of : RecordJson → List RecordJson → RecordJson
  last_of e es = foldl (λ _ x. x) e es

  abbrev pub or_empty : Option Bytes → Bytes
  or_empty none = []
  or_empty (some v) = v

  -- The values of the records of a window, folded by the reducer from nothing.
  abbrev pub folded :
      (Option Bytes → Record → Option Bytes) → Option Bytes → List RecordJson → Bytes
  folded f accum es = or_empty (foldl (λ acc e. f acc (record_from_json e)) accum es)

  -- Without a reducer a window emits each of its records; with one it emits one record, of the folded value,
  -- with the key, the time, the offset and the headers of the last.
  abbrev pub emission : Reducer → ℤ → Window → List RecordJson → List Record
  emission none allowed win es = map (λ (e : RecordJson). stamp allowed win e.value e) es
  emission (some f) allowed win [] = []
  emission (some f) allowed win (e ∷ es) =
      stamp allowed win (folded f none (e ∷ es)) (last_of e es) ∷ []

  tag_entries-emission :
      (allowed : ℤ) (win : Window) (raws : List Bytes)
      → tag_entries codec allowed win raws ≡ emission none allowed win (map decode raws)
  unfolding tag_with_window_and_lateness decode_record record_from_json
  tag_entries-emission allowed win [] = refl
  tag_entries-emission allowed win (raw ∷ raws) =
      ap (λ rest. stamp allowed win (decode raw).value (decode raw) ∷ rest)
        (tag_entries-emission allowed win raws)

  reduce_entries-folded :
      (f : Option Bytes → Record → Option Bytes) (raws : List Bytes) (accum : Option Bytes)
      (e : RecordJson) (allowed : ℤ) (win : Window)
      → tag_with_window_and_lateness codec
          (reduce_entries codec f raws accum (record_from_json e))
          win
          allowed
        ≡ stamp allowed win (folded f accum (map decode raws)) (last_of e (map decode raws))
  unfolding tag_with_window_and_lateness decode_record record_from_json
  reduce_entries-folded f [] none e allowed win = refl
  reduce_entries-folded f [] (some v) e allowed win = refl
  reduce_entries-folded f (raw ∷ raws) accum e allowed win =
      reduce_entries-folded f raws (f accum (record_from_json (decode raw))) (decode raw) allowed
        win

  pub window_output-emission :
      (reducer : Reducer) (allowed : ℤ) (win : Window) (raws : List Bytes)
      → window_output codec reducer allowed win raws
        ≡ emission reducer allowed win (map decode raws)
  unfolding window_output decode_record
  window_output-emission none allowed win raws = tag_entries-emission allowed win raws
  window_output-emission (some f) allowed win [] = refl
  window_output-emission (some f) allowed win (raw ∷ raws) =
      ap (λ r. r ∷ [])
        (reduce_entries-folded f raws (f none (record_from_json (decode raw))) (decode raw) allowed
          win)
