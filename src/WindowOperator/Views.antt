-- ===== src/WindowOperator/Views.antt =====
-- What the loops of the window operator do to the lists of a keyed state.
use mathlib.Core.List.{Memᴰ, append-nil, append_assoc}
use weibo.Base.{
  ◌≡◌, refl, sym, ◌∙◌, Bool, true, false, List, [], ◌∷◌, ◌++◌, if◌then◌else◌, bytes_eq,
  bytes_eq_iff, arith, select, Bool-cases, inl, inr, ◌||◌,
}
use weibo.Base.Int.{ℤ, ltb_ℤ}
use weibo.State.{Bytes, ListStore}
use weibo.Window.{Window}
use weibo.WindowKey.{Codec}
use weibo.WindowOperator.{Merge, overlaps, scan, clear_all, append_all, window_of}

-- Whether a key stands in a list of keys.
abbrev pub contains : List Bytes → Bytes → Bool
contains [] k = false
contains (j ∷ ks) k = bytes_eq j k || contains ks k

-- A listed key that is not among the selected ones fails the test.
pub contains-select :
    (p : Bytes → Bool) (ks : List Bytes) (k : Bytes)
    → Memᴰ k ks
    → contains (select p ks) k ≡ false
    → p k ≡ false
unfolding select
contains-select p [] k m h = elim m [ ]
contains-select p (j ∷ ks) k (Memᴰ.head e) h = rw e (ground (arith, bytes_eq_iff j k, sym e))
contains-select p (j ∷ ks) k (Memᴰ.tail m) h = ground (arith, contains-select p ks k m)

module _ (st : ListStore) where
  open st use {
    State, set_key, append, get_all, clear, keys, IsValid, cursor, view, set_key-IsValid,
    append-IsValid, clear-IsValid, cursor-set_key, cursor-append, view-set_key, view-append,
    view-clear, get_all-view,
  }

  -- The lists of several keys, one after another.
  abbrev pub records : State → List Bytes → List Bytes
  records s [] = []
  records s (k ∷ ks) = view s k ++ records s ks

  pub get_all-set_key : (k : Bytes) (s : State) → get_all (set_key k s) ≡ view s k
  get_all-set_key k s = rw (get_all-view (set_key k s), cursor-set_key k s, view-set_key k k s)

  pub view-clear-set_key :
      (k j : Bytes) (s : State)
      → view (clear (set_key k s)) j ≡ (if bytes_eq k j then [] else view s j)
  view-clear-set_key k j s = rw (view-clear j (set_key k s), cursor-set_key k s, view-set_key k j s)

module _ (codec : Codec) (st : ListStore) where
  open st use {
    State, set_key, append, get_all, clear, keys, IsValid, cursor, view, set_key-IsValid,
    append-IsValid, clear-IsValid, cursor-set_key, cursor-append, view-set_key, view-append,
    view-clear, get_all-view,
  }

  pub view-append_all :
      (vs : List Bytes) (s : State) (j : Bytes)
      → view (append_all codec st vs s) j
        ≡ (if bytes_eq (cursor s) j then view s j ++ vs else view s j)
  unfolding append_all
  view-append_all [] s j = ground (arith, append-nil (view s j))
  view-append_all (v ∷ vs) s j =
      rw (view-append_all vs (append v s) j, cursor-append v s, view-append v j s)
        (ground (arith, append_assoc (view s j) (v ∷ []) vs))

  pub cursor-append_all :
      (vs : List Bytes) (s : State) → cursor (append_all codec st vs s) ≡ cursor s
  unfolding append_all
  cursor-append_all [] s = refl
  cursor-append_all (v ∷ vs) s = cursor-append_all vs (append v s) ∙ cursor-append v s

  pub append_all-IsValid :
      (vs : List Bytes) (s : State) → IsValid s → IsValid (append_all codec st vs s)
  unfolding append_all
  append_all-IsValid [] s h = h
  append_all-IsValid (v ∷ vs) s h = append_all-IsValid vs (append v s) (append-IsValid v s h)

  pub view-clear_all :
      (ks : List Bytes) (s : State) (j : Bytes)
      → view (clear_all codec st ks s) j ≡ (if contains ks j then [] else view s j)
  unfolding clear_all
  view-clear_all [] s j = refl
  view-clear_all (k ∷ ks) s j =
      rw (view-clear_all ks (clear (set_key k s)) j, view-clear-set_key st k j s) (ground arith)

  pub clear_all-IsValid :
      (ks : List Bytes) (s : State) → IsValid s → IsValid (clear_all codec st ks s)
  unfolding clear_all
  clear_all-IsValid [] s h = h
  clear_all-IsValid (k ∷ ks) s h =
      clear_all-IsValid ks (clear (set_key k s))
        (clear-IsValid (set_key k s) (set_key-IsValid k s h))

  records-set_key :
      (k : Bytes) (s : State) (ks : List Bytes) → records st (set_key k s) ks ≡ records st s ks
  records-set_key k s [] = refl
  records-set_key k s (j ∷ ks) = rw (view-set_key k j s, records-set_key k s ks)

  module _ (key : Bytes) (win : Window) where
    -- The keys that a new window merges with, in the order of the scan.
    abbrev pub overlapping : List Bytes → List Bytes
    overlapping = select (overlaps codec key win)

    pub view-scan :
        (ks : List Bytes) (s : State) (m : Merge) (j : Bytes)
        → view (scan codec st key win ks (s, m)).0 j ≡ view s j
    unfolding scan
    view-scan [] s m j = refl
    view-scan (k ∷ ks) s m j = elim (Bool-cases (overlaps codec key win k)) [
      | inl e ↦ rw (e, scan) (view-scan ks (set_key k s) _ j ∙ view-set_key k j s)
      | inr e ↦ rw (e, scan) (view-scan ks s m j)
    ]

    pub scan-IsValid :
        (ks : List Bytes) (s : State) (m : Merge)
        → IsValid s
        → IsValid (scan codec st key win ks (s, m)).0
    unfolding scan
    scan-IsValid [] s m h = h
    scan-IsValid (k ∷ ks) s m h = elim (Bool-cases (overlaps codec key win k)) [
      | inl e ↦ rw (e, scan) (scan-IsValid ks (set_key k s) _ (set_key-IsValid k s h))
      | inr e ↦ rw (e, scan) (scan-IsValid ks s m h)
    ]

    pub to_remove-scan :
        (ks : List Bytes) (s : State) (m : Merge)
        → (scan codec st key win ks (s, m)).1.to_remove ≡ m.to_remove ++ overlapping ks
    unfolding scan select
    to_remove-scan [] s m = sym (append-nil m.to_remove)
    to_remove-scan (k ∷ ks) s m = elim (Bool-cases (overlaps codec key win k)) [
      | inl e ↦
          rw (e, scan) (to_remove-scan ks (set_key k s) _ ∙ append_assoc m.to_remove (k ∷ []) _)
      | inr e ↦ rw (e, scan) (to_remove-scan ks s m)
    ]

    pub merged_records-scan :
        (ks : List Bytes) (s : State) (m : Merge)
        → (scan codec st key win ks (s, m)).1.merged_records
          ≡ m.merged_records ++ records st s (overlapping ks)
    unfolding scan select
    merged_records-scan [] s m = sym (append-nil m.merged_records)
    merged_records-scan (k ∷ ks) s m = elim (Bool-cases (overlaps codec key win k)) [
      | inl e ↦
          rw (e, scan)
            (merged_records-scan ks (set_key k s) _
              ∙ (rw (get_all-set_key st k s, records-set_key k s (overlapping ks))
                  (append_assoc m.merged_records (view s k) (records st s (overlapping ks)))))
      | inr e ↦ rw (e, scan) (merged_records-scan ks s m)
    ]

    -- A property of the hull that each overlapping session keeps holds at the end of the scan.
    pub scan_induction :
        (P : ℤ → ℤ → Type 0) (ks : List Bytes) (s : State) (m : Merge)
        → ((k : Bytes) (a b : ℤ)
            → Memᴰ k ks
            → overlaps codec key win k ≡ true
            → P a b
            → P
                (if ltb_ℤ (window_of codec k).start a then (window_of codec k).start else a)
                (if ltb_ℤ b (window_of codec k).end then (window_of codec k).end else b))
        → P m.start m.end
        → P (scan codec st key win ks (s, m)).1.start (scan codec st key win ks (s, m)).1.end
    unfolding scan
    scan_induction P [] s m step h = h
    scan_induction P (k ∷ ks) s m step h = elim (Bool-cases (overlaps codec key win k)) [
      | inl e ↦
          rw (e, scan)
            (scan_induction P ks (set_key k s) _ (λ j a b d. step j a b (Memᴰ.tail d))
              (step k m.start m.end (Memᴰ.head refl) e h))
      | inr e ↦ rw (e, scan) (scan_induction P ks s m (λ j a b d. step j a b (Memᴰ.tail d)) h)
    ]

    pub scan-nil :
        (ks : List Bytes) (s : State) (m : Merge)
        → overlapping ks ≡ []
        → scan codec st key win ks (s, m) ≡ (s, m)
    unfolding scan select
    scan-nil [] s m h = refl
    scan-nil (k ∷ ks) s m h = elim (Bool-cases (overlaps codec key win k)) [
      | inl e ↦ let found : k ∷ overlapping ks ≡ [] = rw e at h in cc
      | inr e ↦ rw (e, scan) (scan-nil ks s m (rw e at h))
    ]

pub contains-mem : (ks : List Bytes) (k : Bytes) → Memᴰ k ks → contains ks k ≡ true
contains-mem [] k m = elim m [ ]
contains-mem (j ∷ ks) k (Memᴰ.head e) = rw e (ground (arith, bytes_eq_iff j j))
contains-mem (j ∷ ks) k (Memᴰ.tail m) = ground (arith, contains-mem ks k m)
