-- ===== src/Window/Sliding.antt =====
-- window/sliding.go: the windows that the two loops of `AssignWindows` find. They are those that contain the
-- record; the comment on `Sliding` lists one that starts after it.
use mathlib.Core.List.{Memᴰ}
use native.Mathlib.Decide.{dec_le}
use weibo.Base.{
  ℕ, zero, suc, ap, ◌+◌, ◌-◌, ◌*◌, ◌/◌, ◌≤◌, ◌<◌, ◌≡◌, refl, ◌∙◌, ◌⊎◌, inl, inr, ◌↔◌, some, List,
  [], ◌∷◌, arith, Bool-cases,
}
use weibo.Base.Int.{
  ℤ, pos, negsuc, ◌+ℤ◌, ◌-ℤ◌, ◌≤ℤ◌, ◌<ℤ◌, int_laws, eq_of_parts, parts_of_eq, ltb_ℤ, lt→ltb_ℤ,
  le→ltb_ℤ, ltb_ℤ→lt, ltb_ℤ→le,
}
use weibo.Window.{
  Window, sliding, assign_windows, window_at, Contains, walk_back, walk_forward, concat, add_window,
  or_slot,
}
use weibo.Window.Start.{towards_zero, window_start-eq}
use weibo.Window.Tumbling.{Fits, slot, within}

module _ (ts : ℤ) (z d : ℕ) (pd : 0 < d) where
  -- Past the record the second loop only counts up to its bound.
  walk_forward-nil :
      (f : ℕ) (start : ℤ)
      → ts <ℤ start
      → ts +ℤ pos z ≤ℤ start +ℤ pos f
      → walk_forward (suc f) (pos z) (pos d) ts start ≡ some []
  unfolding walk_forward
  walk_forward-nil zero start p m = rw (le→ltb_ℤ start (ts +ℤ pos z) (omega int_laws))
  walk_forward-nil (suc f) start p m = elim (Bool-cases (ltb_ℤ start (ts +ℤ pos z))) [
    | inl e ↦
        rw (e, lt→ltb_ℤ ts start p)
          (rw (walk_forward-nil f (start +ℤ pos d) (omega int_laws) (omega int_laws)))
    | inr e ↦ rw e
  ]

  abbrev down : ℤ → ℕ → ℤ
  down start j = start -ℤ pos (j * d)

  -- What the first loop owes for a start: each window found is one of the steps down and contains
  -- the record, and each such step is found.
  record Finds (start : ℤ) (ws : List Window) : Type 0 where
    sound :
        (w : Window) → Memᴰ w ws → (j : ℕ) × (w ≡ window_at (pos z) (down start j)) × Contains w ts
    complete :
        (j : ℕ)
        → Contains (window_at (pos z) (down start j)) ts
        → Memᴰ (window_at (pos z) (down start j)) ws

  down-zero : (start : ℤ) → down start 0 ≡ start
  down-zero start = eq_of_parts _ _ (omega int_laws)

  down-suc : (start : ℤ) (j : ℕ) → down (start -ℤ pos d) j ≡ down start (suc j)
  down-suc start j = eq_of_parts _ _ (omega int_laws)

  Finds-stop : (start : ℤ) → start +ℤ pos z ≤ℤ ts → Finds start []
  Finds-stop start e = record {
    sound = λ w m. elim m [ ];
    complete = λ j c. absurd (omega (int_laws, c));
  }

  Finds-keep :
      (start : ℤ) (ws : List Window)
      → Contains (window_at (pos z) start) ts
      → Finds (start -ℤ pos d) ws
      → Finds start (window_at (pos z) start ∷ ws)
  Finds-keep start ws c h = record { sound = sound; complete = complete }
    where
      sound :
          (w : Window)
          → Memᴰ w (window_at (pos z) start ∷ ws)
          → (j : ℕ) × (w ≡ window_at (pos z) (down start j)) × Contains w ts
      sound w (Memᴰ.head e) = (0, rw down-zero e, rw e c)
      sound w (Memᴰ.tail m) =
          let (j, e, k) = h.sound w m in (suc j, e ∙ ap (window_at (pos z)) (down-suc start j), k)

      complete :
          (j : ℕ)
          → Contains (window_at (pos z) (down start j)) ts
          → Memᴰ (window_at (pos z) (down start j)) (window_at (pos z) start ∷ ws)
      complete zero k = Memᴰ.head (ap (window_at (pos z)) (down-zero start))
      complete (suc j) k =
          rw (← down-suc start j) (Memᴰ.tail (h.complete j (rw (down-suc start j) k)))

  Finds-drop :
      (start : ℤ) (ws : List Window) → ts <ℤ start → Finds (start -ℤ pos d) ws → Finds start ws
  Finds-drop start ws c h = record { sound = sound; complete = complete }
    where
      sound :
          (w : Window)
          → Memᴰ w ws
          → (j : ℕ) × (w ≡ window_at (pos z) (down start j)) × Contains w ts
      sound w m =
          let (j, e, k) = h.sound w m in (suc j, e ∙ ap (window_at (pos z)) (down-suc start j), k)

      complete :
          (j : ℕ)
          → Contains (window_at (pos z) (down start j)) ts
          → Memᴰ (window_at (pos z) (down start j)) ws
      complete zero k = absurd (omega (int_laws, k))
      complete (suc j) k = rw (← down-suc start j) (h.complete j (rw (down-suc start j) k))

  walk_back-Finds :
      (f : ℕ) (start : ℤ)
      → start +ℤ pos z ≤ℤ ts +ℤ pos f
      → (ws : List Window) × (walk_back (suc f) (pos z) (pos d) ts start ≡ some ws) × Finds start ws
  unfolding walk_back
  walk_back-Finds zero start m =
      ([], rw (le→ltb_ℤ ts (start +ℤ pos z) (omega int_laws)), Finds-stop start (omega int_laws))
  walk_back-Finds (suc f) start m =
      let (ws, e, found) = walk_back-Finds f (start -ℤ pos d) (omega int_laws) in
      elim (Bool-cases (ltb_ℤ ts (start +ℤ pos z))) [
        | inr stop ↦ ([], rw stop, Finds-stop start (ltb_ℤ→le ts (start +ℤ pos z) stop))
        | inl more ↦ elim (Bool-cases (ltb_ℤ ts start)) [
          | inl above ↦
              (ws, rw (more, e, above), Finds-drop start ws (ltb_ℤ→lt ts start above) found)
          | inr below ↦ (
            window_at (pos z) start ∷ ws,
            rw (more, e, below),
            Finds-keep start ws (ltb_ℤ→le ts start below, ltb_ℤ→lt ts (start +ℤ pos z) more) found,
          )
        ]
      ]

concat-nil : (ws : List Window) → concat (some ws) (some []) ≡ some ws
unfolding add_window
concat-nil [] = refl
concat-nil (w ∷ ws) = rw (concat-nil ws)

or_slot-mem :
    {w : Window} (alone : Window) (ws : List Window) → Memᴰ w ws → or_slot alone (some ws) ≡ some ws
or_slot-mem _ [] m = elim m [ ]
or_slot-mem _ (x ∷ ws) m = refl

-- A whole number of slides away from the offset.
abbrev pub IsAligned : ℤ → ℕ → ℤ → Type 0
IsAligned offset d s = (k : ℕ) × ((s ≡ offset +ℤ pos (k * d)) ⊎ (s ≡ offset -ℤ pos (k * d)))

mul_le : (k q d : ℕ) → k * d < q * d + d → k ≤ q
mul_le k q d h = grind arith

mul_sub : (k q d : ℕ) → k ≤ q → (q - k) * d + k * d ≡ q * d
mul_sub k q d h = grind arith

-- Going down from an aligned start stays aligned.
down-IsAligned :
    (offset s : ℤ) (d j : ℕ) → IsAligned offset d s → IsAligned offset d (s -ℤ pos (j * d))
down-IsAligned offset s d j (k, inl e) = elim (dec_le j k) [
  | yes h ↦ (k - j, inl (eq_of_parts _ _ (omega (int_laws, mul_sub j k d h, parts_of_eq e))))
  | no h ↦
      (j - k, inr (eq_of_parts _ _ (omega (int_laws, mul_sub k j d (omega arith), parts_of_eq e))))
]
down-IsAligned offset s d j (k, inr e) =
    (k + j, inr (eq_of_parts _ _ (omega (int_laws, parts_of_eq e))))

mul_none : (k q d : ℕ) → k * d + q * d < d → (k * d ≡ 0) × (q * d ≡ 0)
mul_none zero zero d h = omega arith
mul_none zero (suc q) d h = absurd (omega arith)
mul_none (suc k) q d h = absurd (omega arith)

-- An aligned time that is less than a slide past another is some slides below it.
aligned_below :
    (offset s last : ℤ) (d : ℕ)
    → IsAligned offset d s
    → IsAligned offset d last
    → s <ℤ last +ℤ pos d
    → (j : ℕ) × (s ≡ last -ℤ pos (j * d))
aligned_below offset s last d (k, inl e) (q, inl g) h =
    let close : k * d < q * d + d = omega (int_laws, parts_of_eq e, parts_of_eq g) in
    (
      q - k,
      eq_of_parts s _
          (omega (int_laws, parts_of_eq e, parts_of_eq g, mul_sub k q d (mul_le k q d close))),
    )
aligned_below offset s last d (k, inr e) (q, inl g) h =
    (q + k, eq_of_parts s _ (omega (int_laws, parts_of_eq e, parts_of_eq g)))
aligned_below offset s last d (k, inl e) (q, inr g) h =
    let near : k * d + q * d < d = omega (int_laws, parts_of_eq e, parts_of_eq g) in
    (0, eq_of_parts s _ (omega (int_laws, parts_of_eq e, parts_of_eq g, mul_none k q d near)))
aligned_below offset s last d (k, inr e) (q, inr g) h =
    let close : q * d < k * d + d = omega (int_laws, parts_of_eq e, parts_of_eq g) in
    (
      k - q,
      eq_of_parts s _
          (omega (int_laws, parts_of_eq e, parts_of_eq g, mul_sub q k d (mul_le q k d close))),
    )

slot-IsAligned : (offset : ℤ) (d : ℕ) (x : ℤ) → IsAligned offset d (offset +ℤ towards_zero x d)
slot-IsAligned offset d (pos a) = (a / d, inl refl)
slot-IsAligned offset d (negsuc a) = (suc a / d, inr (eq_of_parts _ _ (omega int_laws)))

-- A window of the assigner that contains the record.
pub record IsSlot (ts offset : ℤ) (z d : ℕ) (w : Window) : Type 0 where
  pub aligned : IsAligned offset d w.start
  pub length : w.end ≡ w.start +ℤ pos z
  pub contains : Contains w ts

-- The start nearest to the record is less than a slide away from it, on either side.
near_slot :
    (x : ℤ) (d : ℕ) → 0 < d → (x <ℤ towards_zero x d +ℤ pos d) × (towards_zero x d <ℤ x +ℤ pos d)
near_slot (pos a) d h = omega (int_laws, within a d h)
near_slot (negsuc a) d h = omega (int_laws, within (suc a) d h)

window_at-eq :
    (w : Window) (s size : ℤ) → w.start ≡ s → w.end ≡ w.start +ℤ size → w ≡ window_at size s
window_at-eq w s size e g = ground arith

module _ (ts offset : ℤ) (z d : ℕ) (f : Fits ts offset d) (shorter : d ≤ z) where
  last_near : (ts <ℤ slot ts offset d +ℤ pos d) × (slot ts offset d <ℤ ts +ℤ pos d)
  last_near =
      let near = near_slot (ts -ℤ offset) d f.positive in
      (omega (int_laws, near), omega (int_laws, near))

  -- One of the first two steps down contains the record.
  some_slot : (j : ℕ) × Contains (window_at (pos z) (slot ts offset d -ℤ pos (j * d))) ts
  some_slot = elim (Bool-cases (ltb_ℤ ts (slot ts offset d))) [
    | inl e ↦
        let past : ts <ℤ slot ts offset d = ltb_ℤ→lt ts (slot ts offset d) e in
        (1, (omega (int_laws, last_near), omega (int_laws, last_near)))
    | inr e ↦
        let reached : slot ts offset d ≤ℤ ts = ltb_ℤ→le ts (slot ts offset d) e in
        (0, (omega (int_laws, last_near), omega (int_laws, last_near)))
  ]

  Finds-IsSlot :
      (ws : List Window)
      → Finds ts z d f.positive (slot ts offset d) ws
      → (w : Window) → Memᴰ w ws ↔ IsSlot ts offset z d w
  Finds-IsSlot ws found w = (sound, complete)
    where
      sound : Memᴰ w ws → IsSlot ts offset z d w
      sound m =
          let (j, e, c) = found.sound w m in
          record {
            aligned = rw e (down-IsAligned offset _ d j (slot-IsAligned offset d (ts -ℤ offset)));
            length = rw e refl;
            contains = c;
          }

      complete : IsSlot ts offset z d w → Memᴰ w ws
      complete s =
          let (j, e) =
            aligned_below offset w.start (slot ts offset d) d s.aligned
              (slot-IsAligned offset d (ts -ℤ offset)) (omega (int_laws, s.contains, last_near)) in
          let whole = window_at-eq w _ (pos z) e s.length in
          rw whole (found.complete j (rw whole at s.contains))

  -- Where no int64 operation wraps, the slide is positive and at most the size, the assigner
  -- returns exactly the aligned windows that contain the record.
  pub sliding_exact :
      (ws : List Window) × (assign_windows (sliding (pos z) (pos d) offset) ts ≡ some ws)
      × ((w : Window) → Memᴰ w ws ↔ IsSlot ts offset z d w)
  unfolding assign_windows
  sliding_exact =
      let (ws, e, found) =
        walk_back-Finds ts z d f.positive (z + d + 1) (slot ts offset d)
          (omega (int_laws, last_near)) in
      let fuel : z + d + 2 ≡ suc (z + d + 1) = omega arith in
      let past =
        walk_forward-nil ts z d f.positive (z + d + 1) (slot ts offset d +ℤ pos d)
          (omega (int_laws, last_near)) (omega (int_laws, last_near)) in
      let (j, c) = some_slot in
      (
        ws,
        rw
            (
              window_start-eq ts offset d f.positive f.ts64 f.offset64 f.distance64,
              fuel,
              e,
              past,
              concat-nil ws,
            )
            (or_slot-mem _ ws (found.complete j c)),
        Finds-IsSlot ws found,
      )
