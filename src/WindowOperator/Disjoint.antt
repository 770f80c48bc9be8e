-- ===== src/WindowOperator/Disjoint.antt =====
-- operator/window.go, `assignToWindow`: where the open sessions of a record key lie.
use mathlib.Core.List.{Memᴰ}
use weibo.Base.{
  ◌≡◌, ◌≢◌, refl, sym, ◌∙◌, ap, ◌⊎◌, inl, inr, true, false, [], if◌then◌else◌, bytes_eq,
  bytes_eq_iff, arith, Bool-cases,
}
use weibo.Base.Int.{ℤ, ◌≤ℤ◌, ◌<ℤ◌, ltb_ℤ, IsInt64, wrap64_id, wrap64-IsInt64}
use weibo.State.{Bytes, ListStore}
use weibo.Window.{Window}
use weibo.WindowKey.{
  Codec, WindowKey, to_window_key, parse_window_key, parse_window_key-to_string,
  parse_window_key-Stored,
}
use weibo.WindowOperator.{overlaps, assign_to_window, window_of}
use weibo.WindowOperator.Views.{contains, contains-select, scan_induction}
use weibo.WindowOperator.Sessions.{removed, merge, target, view-assign_to_window}

-- No time lies in both windows.
abbrev pub Apart : Window → Window → Type 0
Apart v w = (v.end ≤ℤ w.start) ⊎ (w.end ≤ℤ v.start)

Apart-sym : (v w : Window) → Apart v w → Apart w v
Apart-sym v w a = omega (arith, a)

-- A hull covers the window that it started from, with bounds in the range of an int64.
record Covers (win : Window) (a b : ℤ) : Type 0 where
  starts : a ≤ℤ win.start
  ends : win.end ≤ℤ b
  start64 : IsInt64 a
  end64 : IsInt64 b

Covers-step :
    (win : Window) (x y a b : ℤ)
    → IsInt64 x
    → IsInt64 y
    → Covers win a b
    → Covers win (if ltb_ℤ x a then x else a) (if ltb_ℤ b y then y else b)
Covers-step win x y a b hx hy h = ground arith

min_bound : (t x a : ℤ) → t ≤ℤ x → t ≤ℤ a → t ≤ℤ (if ltb_ℤ x a then x else a)
min_bound t x a h k = ground arith

max_bound : (t y b : ℤ) → y ≤ℤ t → b ≤ℤ t → (if ltb_ℤ b y then y else b) ≤ℤ t
max_bound t y b h k = ground arith

module _ (codec : Codec) (st : ListStore) where
  open st use {State, keys, IsValid, view, mem-keys, view-keys}

  abbrev record_key : Bytes → Bytes
  record_key k = (parse_window_key codec k).key

  outside :
      (key : Bytes) (win : Window) (b : Bytes)
      → record_key b ≡ key
      → overlaps codec key win b ≡ false
      → Apart (window_of codec b) win
  unfolding overlaps
  outside key win b same out = ground (arith, bytes_eq_iff (record_key b) key)

  inside :
      (key : Bytes) (win : Window) (k : Bytes)
      → overlaps codec key win k ≡ true
      → (record_key k ≡ key)
        × (win.start <ℤ (window_of codec k).end)
        × ((window_of codec k).start <ℤ win.end)
  unfolding overlaps
  inside key win k o = ground (arith, bytes_eq_iff (record_key k) key)

  -- Each open session is a proper interval, and two open sessions of one record key lie apart.
  pub record IsDisjoint (s : State) : Type 0 where
    pub proper : (a : Bytes) → view s a ≢ [] → (window_of codec a).start <ℤ (window_of codec a).end
    pub apart :
        (a b : Bytes)
        → view s a ≢ []
        → view s b ≢ []
        → a ≢ b
        → record_key a ≡ record_key b
        → Apart (window_of codec a) (window_of codec b)

  module _ (key : Bytes) (win : Window) (s : State) where
    -- Where the merged session stands relative to a session that lies apart from the window.
    merge_right_of :
        (t : ℤ)
        → ((k : Bytes)
            → Memᴰ k (keys s)
            → overlaps codec key win k ≡ true
            → t ≤ℤ (window_of codec k).start)
        → t ≤ℤ win.start
        → t ≤ℤ (merge codec st key win s).start
    merge_right_of t each h =
        scan_induction codec st key win (λ a b. t ≤ℤ a) (keys s) s _
          (λ k a b d o p. min_bound t _ a (each k d o) p) h

    merge_left_of :
        (t : ℤ)
        → ((k : Bytes)
            → Memᴰ k (keys s)
            → overlaps codec key win k ≡ true
            → (window_of codec k).end ≤ℤ t)
        → win.end ≤ℤ t
        → (merge codec st key win s).end ≤ℤ t
    merge_left_of t each h =
        scan_induction codec st key win (λ a b. b ≤ℤ t) (keys s) s _
          (λ k a b d o p. max_bound t _ b (each k d o) p) h

    merge-Covers :
        IsInt64 win.start
        → IsInt64 win.end
        → Covers win (merge codec st key win s).start (merge codec st key win s).end
    merge-Covers s64 e64 =
        scan_induction codec st key win (Covers win) (keys s) s _
          (λ k a b _ _ h.
            Covers-step win _ _ a b (parse_window_key-Stored codec k).start64
              (parse_window_key-Stored codec k).end64 h)
          (record { starts = omega arith; ends = omega arith; start64 = s64; end64 = e64 })

    module _ (v : IsValid s) (d : IsDisjoint s) (win_proper : win.start <ℤ win.end) where
      other :
          (b : Bytes)
          → view s b ≢ []
          → record_key b ≡ key
          → overlaps codec key win b ≡ false
          → (k : Bytes) → Memᴰ k (keys s)
          → overlaps codec key win k ≡ true
          → Apart (window_of codec k) (window_of codec b)
            × (win.start <ℤ (window_of codec k).end)
            × ((window_of codec k).start <ℤ win.end)
      other b held same out k m o =
          let (same_key, after, before) = inside key win k o in
          (
            d.apart k b (view-keys k s v m) held (λ e. cc (ap (overlaps codec key win) e))
                (same_key ∙ sym same),
            after,
            before,
          )

      -- An open session of the key that does not overlap the window lies apart from the merged one.
      merge-Apart :
          (b : Bytes)
          → view s b ≢ []
          → record_key b ≡ key
          → overlaps codec key win b ≡ false
          → Apart (window_of codec b) (record {
            start = (merge codec st key win s).start;
            end = (merge codec st key win s).end;
          })
      merge-Apart b held same out = elim (outside key win b same out) [
        | inl left ↦ inl (
            merge_right_of (window_of codec b).end
              (λ k m o. omega (arith, other b held same out k m o, d.proper b held)) left)
        | inr right ↦ inr (
            merge_left_of (window_of codec b).start
              (λ k m o. omega (arith, other b held same out k m o, d.proper b held)) right)
      ]

      window_of-target :
          (s64 : IsInt64 win.start) (e64 : IsInt64 win.end)
          → parse_window_key codec (target codec st key win s) ≡ record {
            key = key;
            start = (merge codec st key win s).start;
            end = (merge codec st key win s).end;
          }
      unfolding to_window_key
      window_of-target s64 e64 =
          let c = merge-Covers s64 e64 in
          parse_window_key-to_string codec _
            (record { start64 = wrap64-IsInt64 _; end64 = wrap64-IsInt64 _ })
          ∙ rw (
            wrap64_id (merge codec st key win s).start c.start64,
            wrap64_id (merge codec st key win s).end c.end64,
          )

      -- A session that is open afterwards is the merged one, or was open and did not overlap.
      open_after :
          (rec_bytes j : Bytes)
          → view (assign_to_window codec st true key win rec_bytes s) j ≢ []
          → (target codec st key win s ≡ j) ⊎ (view s j ≢ []) × (overlaps codec key win j ≡ false)
      open_after rec_bytes j held =
          let listed = rw (view-assign_to_window codec st key win rec_bytes s j) at held in
          elim (Bool-cases (bytes_eq (target codec st key win s) j)) [
            | inl e ↦ inl ((bytes_eq_iff (target codec st key win s) j).0 e)
            | inr e ↦ elim (Bool-cases (contains (removed codec st key win s) j)) [
              | inl gone ↦ absurd ((rw (e, gone) at listed) refl)
              | inr stays ↦
                  let open_before = rw (e, stays) at listed in
                  inr (
                    open_before,
                    contains-select (overlaps codec key win) (keys s) j (mem-keys j s open_before)
                        stays,
                  )
            ]
          ]

      -- In a valid state whose open sessions lie apart for each record key, assigning a record to
      -- its session, a proper window with bounds in the range of an int64, leaves them apart.
      pub assign_to_window-IsDisjoint :
          (rec_bytes : Bytes)
          → IsInt64 win.start
          → IsInt64 win.end
          → IsDisjoint (assign_to_window codec st true key win rec_bytes s)
      assign_to_window-IsDisjoint rec_bytes s64 e64 = record {
        proper = λ a held. proper_after a (open_after rec_bytes a held);
        apart = λ a b held_a held_b ne same.
            apart_after a b (open_after rec_bytes a held_a) (open_after rec_bytes b held_b) ne same;
      }
        where
          whole : parse_window_key codec (target codec st key win s) ≡ record {
            key = key;
            start = (merge codec st key win s).start;
            end = (merge codec st key win s).end;
          }
          whole = window_of-target s64 e64

          merged : WindowKey
          merged = record {
            key = key;
            start = (merge codec st key win s).start;
            end = (merge codec st key win s).end;
          }

          bounds : (a : Bytes) → target codec st key win s ≡ a → parse_window_key codec a ≡ merged
          bounds a e = ap (parse_window_key codec) (sym e) ∙ whole

          cover : Covers win (merge codec st key win s).start (merge codec st key win s).end
          cover = merge-Covers s64 e64

          key_of_target : (a : Bytes) → target codec st key win s ≡ a → record_key a ≡ key
          key_of_target a e = ap record_key (sym e) ∙ ap (λ (k : WindowKey). k.key) whole

          proper_after :
              (a : Bytes)
              → (target codec st key win s ≡ a)
                ⊎ (view s a ≢ []) × (overlaps codec key win a ≡ false)
              → (window_of codec a).start <ℤ (window_of codec a).end
          proper_after a (inl e) = rw (bounds a e) (omega (arith, cover.starts, cover.ends))
          proper_after a (inr old) = d.proper a old.0

          apart_after :
              (a b : Bytes)
              → (target codec st key win s ≡ a)
                ⊎ (view s a ≢ []) × (overlaps codec key win a ≡ false)
              → (target codec st key win s ≡ b)
                ⊎ (view s b ≢ []) × (overlaps codec key win b ≡ false)
              → a ≢ b
              → record_key a ≡ record_key b
              → Apart (window_of codec a) (window_of codec b)
          apart_after a b (inl e) (inl g) ne same = absurd (ne (sym e ∙ g))
          apart_after a b (inr old) (inr old') ne same = d.apart a b old.0 old'.0 ne same
          apart_after a b (inl e) (inr old) ne same =
              Apart-sym (window_of codec b) (window_of codec a)
                (rw (bounds a e) (merge-Apart b old.0 (sym same ∙ key_of_target a e) old.1))
          apart_after a b (inr old) (inl g) ne same =
              rw (bounds b g) (merge-Apart a old.0 (same ∙ key_of_target b g) old.1)
