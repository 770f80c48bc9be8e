-- ===== src/WindowOperator/Sessions.antt =====
-- operator/window.go, `assignToWindow`: what it does to the lists of the sessions.
use mathlib.Core.List.{append_assoc}
use weibo.Base.{◌≡◌, refl, sym, ◌∙◌, ap, true, List, [], ◌∷◌, ◌++◌, if◌then◌else◌, bytes_eq, arith}
use weibo.State.{Bytes, ListStore}
use weibo.Window.{Window}
use weibo.WindowKey.{Codec, to_window_key, to_string}
use weibo.WindowOperator.{Merge, scan, merge_into, assign_to_window, merged_key}
use weibo.WindowOperator.Views.{
  contains, records, overlapping, view-append_all, cursor-append_all, view-clear_all, view-scan,
  to_remove-scan, merged_records-scan, scan-nil,
}

module _ (codec : Codec) (st : ListStore) (key : Bytes) (win : Window) where
  open st use {
    State, set_key, keys, IsValid, view, cursor, set_key-IsValid, append-IsValid, cursor-set_key,
    view-set_key, view-append, mem-keys, view-keys,
  }

  abbrev none_yet : Merge
  none_yet = record { start = win.start; end = win.end; merged_records = []; to_remove = [] }

  -- The sessions that the window coalesces with, and the merge that the scan of the keys returns.
  abbrev pub removed : State → List Bytes
  removed s = overlapping codec st key win (keys s)

  abbrev pub merge : State → Merge
  merge s = (scan codec st key win (keys s) (s, none_yet)).1

  -- Where the record goes.
  abbrev pub target : State → Bytes
  target s = merged_key codec st key (merge s)

  abbrev pub kept_in : List Bytes → State → Bytes → List Bytes
  kept_in gone s j = if contains gone j then [] else view s j

  abbrev pub kept : State → Bytes → List Bytes
  kept s = kept_in (removed s) s

  merge_into-view :
      (rec_bytes wk : Bytes) (s : State) (m : Merge) (gone : List Bytes) (j : Bytes)
      → (gone ≡ [] → (m.merged_records ≡ []) × (merged_key codec st key m ≡ wk))
      → view (merge_into codec st key wk rec_bytes (s, m) gone) j ≡ (
          if bytes_eq (merged_key codec st key m) j
          then kept_in gone s j ++ (m.merged_records ++ rec_bytes ∷ [])
          else kept_in gone s j)
  unfolding merge_into
  merge_into-view rec_bytes wk s m [] j h = rw (
    view-append rec_bytes j (set_key wk s),
    cursor-set_key wk s,
    view-set_key wk j s,
    (h refl).0,
    (h refl).1,
  )
  merge_into-view rec_bytes wk s m (old ∷ olds) j h =
      rw
        (
          view-append rec_bytes j _,
          cursor-append_all codec st m.merged_records _,
          cursor-set_key (merged_key codec st key m) _,
          view-append_all codec st m.merged_records _ j,
          cursor-set_key (merged_key codec st key m) _,
          view-set_key (merged_key codec st key m) j _,
          view-clear_all codec st (old ∷ olds) s j,
        )
        (ground (arith, append_assoc (kept_in (old ∷ olds) s j) m.merged_records (rec_bytes ∷ [])))

  -- The session that the record ends up in holds the records of every overlapping session and the
  -- record itself; the overlapping sessions are gone, and no other list changes.
  pub view-assign_to_window :
      (rec_bytes : Bytes) (s : State) (j : Bytes)
      → view (assign_to_window codec st true key win rec_bytes s) j ≡ (
          if bytes_eq (target s) j
          then kept s j ++ (records st s (removed s) ++ rec_bytes ∷ [])
          else kept s j)
  unfolding assign_to_window
  view-assign_to_window rec_bytes s j =
      rw (merge_into-view rec_bytes wk state (merge s) (merge s).to_remove j nothing) (
        rw (
          to_remove-scan codec st key win (keys s) s none_yet,
          merged_records-scan codec st key win (keys s) s none_yet,
          view-scan codec st key win (keys s) s none_yet j,
        ))
    where
      wk : Bytes
      wk = to_string codec (to_window_key key win)

      state : State
      state = (scan codec st key win (keys s) (s, none_yet)).0

      nothing :
          (merge s).to_remove ≡ []
          → ((merge s).merged_records ≡ []) × (merged_key codec st key (merge s) ≡ wk)
      nothing e =
          let same =
            scan-nil codec st key win (keys s) s none_yet
              (sym (to_remove-scan codec st key win (keys s) s none_yet) ∙ e) in
          (
            ap (λ (sm : State × Merge). sm.1.merged_records) same,
            ap (λ (sm : State × Merge). merged_key codec st key sm.1) same,
          )
