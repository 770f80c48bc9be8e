-- ===== src/Watermark/Least.antt =====
-- source/watermark.go: `partitionWatermark` against the clocks of the partitions.
use mathlib.Core.List.{Memᴰ}
use weibo.Base.{
  ◌≡◌, ◌≢◌, refl, sym, ◌⊎◌, inl, inr, Bool, true, false, List, [], ◌∷◌, arith, Bool-cases, ◌&&◌,
  ◌||◌,
}
use weibo.Base.Int.{ℤ, ◌≤ℤ◌, ◌<ℤ◌, ltb_ℤ, eqb_ℤ, eqb_ℤ_iff}
use weibo.Types.{zero_time}
use weibo.Watermark.{
  PartitionClock, WatermarkSource, get_watermark, takes_part, min_watermark, partition_watermark,
  idle_timeout,
}

module _ (idle now : ℤ) where
  abbrev better : PartitionClock → ℤ → Bool
  better p least =
      takes_part idle now p && (eqb_ℤ least zero_time || ltb_ℤ (get_watermark p.gen) least)

  takes_part-ne :
      (p : PartitionClock) → takes_part idle now p ≡ true → get_watermark p.gen ≢ zero_time
  unfolding takes_part
  takes_part-ne p h = ground (arith, eqb_ℤ_iff (get_watermark p.gen) zero_time)

  better-cases :
      (p : PartitionClock) (least : ℤ)
      → better p least ≡ true
      → least ≢ zero_time
      → (takes_part idle now p ≡ true) × (get_watermark p.gen <ℤ least)
  better-cases p least e h = ground (arith, eqb_ℤ_iff least zero_time)

  worse-cases :
      (p : PartitionClock) (least : ℤ)
      → better p least ≡ false
      → takes_part idle now p ≡ true
      → (least ≢ zero_time) × (least ≤ℤ get_watermark p.gen)
  worse-cases p least e h = ground (arith, eqb_ℤ_iff least zero_time)

  better-taken :
      (p : PartitionClock) (least : ℤ) → better p least ≡ true → takes_part idle now p ≡ true
  better-taken p least e = ground arith

  -- Once it is set the minimum stays set and only falls.
  min_watermark-le :
      (ps : List PartitionClock) (least : ℤ)
      → least ≢ zero_time
      → (min_watermark idle now ps least ≢ zero_time) × (min_watermark idle now ps least ≤ℤ least)
  unfolding min_watermark
  min_watermark-le [] least h = (h, omega arith)
  min_watermark-le (p ∷ ps) least h = elim (Bool-cases (better p least)) [
    | inl e ↦
        let (taken, lower) = better-cases p least e h in
        let (set, le) = min_watermark-le ps (get_watermark p.gen) (takes_part-ne p taken) in
        rw (e, min_watermark) (set, omega (arith, lower, le))
    | inr e ↦ rw (e, min_watermark) (min_watermark-le ps least h)
  ]

  min_watermark-least :
      (ps : List PartitionClock) (least : ℤ) (p : PartitionClock)
      → Memᴰ p ps
      → takes_part idle now p ≡ true
      → (min_watermark idle now ps least ≢ zero_time)
        × (min_watermark idle now ps least ≤ℤ get_watermark p.gen)
  unfolding min_watermark
  min_watermark-least [] least p m taken = elim m [ ]
  min_watermark-least (q ∷ ps) least p (Memᴰ.tail m) taken = min_watermark-least ps _ p m taken
  min_watermark-least (q ∷ ps) least p (Memᴰ.head e) taken =
      let taken_q : takes_part idle now q ≡ true = rw (← e) taken in
      elim (Bool-cases (better q least)) [
        | inl b ↦
            rw (b, min_watermark, e)
              (min_watermark-le ps (get_watermark q.gen) (takes_part-ne q taken_q))
        | inr b ↦
            let (set, lower) = worse-cases q least b taken_q in
            let (kept, le) = min_watermark-le ps least set in
            rw (b, min_watermark, e) (kept, omega (arith, lower, le))
      ]

  min_watermark-attained :
      (ps : List PartitionClock) (least : ℤ)
      → (min_watermark idle now ps least ≡ least)
        ⊎ ((p : PartitionClock) × Memᴰ p ps
            × (takes_part idle now p ≡ true)
            × (get_watermark p.gen ≡ min_watermark idle now ps least))
  unfolding min_watermark
  min_watermark-attained [] least = inl refl
  min_watermark-attained (q ∷ ps) least = elim (Bool-cases (better q least)) [
    | inl b ↦
        rw (b, min_watermark)
          (elim (min_watermark-attained ps (get_watermark q.gen)) [
            | inl e ↦ inr (q, Memᴰ.head refl, better-taken q least b, sym e)
            | inr (p, m, taken, e) ↦ inr (p, Memᴰ.tail m, taken, e)
          ])
    | inr b ↦
        rw (b, min_watermark)
          (elim (min_watermark-attained ps least) [
            | inl e ↦ inl e
            | inr (p, m, taken, e) ↦ inr (p, Memᴰ.tail m, taken, e)
          ])
  ]

-- The watermark over the partitions is the zero time, or the watermark of one that takes part; and
-- where one takes part it is set and at most that one's watermark.
pub partition_watermark_least :
    (now : ℤ) (ws : WatermarkSource)
    → let idle = idle_timeout ws.partition_idle_timeout in
      let wm = partition_watermark now ws in
      ((wm ≡ zero_time)
        ⊎ ((p : PartitionClock) × Memᴰ p ws.parts
            × (takes_part idle now p ≡ true)
            × (get_watermark p.gen ≡ wm)))
      × ((p : PartitionClock)
          → Memᴰ p ws.parts
          → takes_part idle now p ≡ true
          → (wm ≢ zero_time) × (wm ≤ℤ get_watermark p.gen))
unfolding partition_watermark
partition_watermark_least now ws =
    let idle = idle_timeout ws.partition_idle_timeout in
    (
      min_watermark-attained idle now ws.parts zero_time,
      min_watermark-least idle now ws.parts zero_time,
    )
