-- ===== src/Watermark/OnTime.antt =====
-- source/watermark.go: what the out-of-orderness of `WatermarkSource` promises to a source of one partition.
use weibo.Base.{
  ◌≡◌, refl, sym, ◌∙◌, ap, ◌⊎◌, inl, inr, true, false, ◌&&◌, ◌||◌, List, [], ◌∷◌, arith, Bool-cases,
  if_cases, if◌then◌else◌, bytes_eq, bytes_eq_iff,
}
use weibo.Base.Int.{ℤ, ◌-ℤ◌, ◌≤ℤ◌, ltb_ℤ, eqb_ℤ, eqb_ℤ_iff, int_laws}
use weibo.State.{Bytes}
use weibo.Types.{Record, new_watermark, zero_time}
use weibo.Watermark.{
  Input, arrives, BoundedOutOfOrderness, ticks, PartitionClock, WatermarkSource, observe, on_record,
  new_bounded, get_watermark, takes_part, idle_timeout, min_watermark, partition_watermark,
  advance_last, start, step, loop,
}

abbrev pub max_seen : ℤ → ℤ → ℤ
max_seen high ts = if ltb_ℤ high ts then ts else high

-- All records are data of one partition and not before the zero time, and each is behind the latest before
-- it, which `high` is at first, by at most a bound.
abbrev pub DisorderedBy : Bytes → ℤ → ℤ → ℤ → List Input → Type 0
DisorderedBy source partition d high [] = Unit {0}
DisorderedBy source partition d high (arrives r now ∷ is) =
    (r.is_watermark ≡ false)
    × (r.source ≡ source)
    × (r.partition ≡ partition)
    × (zero_time ≤ℤ r.timestamp)
    × (high -ℤ d ≤ℤ r.timestamp)
    × DisorderedBy source partition d (max_seen high r.timestamp) is
DisorderedBy source partition d high (ticks now ∷ is) = DisorderedBy source partition d high is

-- No record is before the watermark that went out last before it, which `low` is at first.
abbrev pub OnTime : ℤ → List Record → Type 0
OnTime low [] = Unit {0}
OnTime low (r ∷ rs) = (low ≤ℤ r.timestamp) × OnTime (if r.is_watermark then r.timestamp else low) rs

OnTime-mono : (rs : List Record) (low high : ℤ) → low ≤ℤ high → OnTime high rs → OnTime low rs
OnTime-mono [] low high h o = tt
OnTime-mono (r ∷ rs) low high h o = elim (Bool-cases r.is_watermark) [
  | inl e ↦ let o' = rw e at o in rw e (omega (arith, h, o'.0), o'.1)
  | inr e ↦ let o' = rw e at o in rw e (omega (arith, h, o'.0), OnTime-mono rs low high h o'.1)
]

on_record-max :
    (ts : ℤ) (g : BoundedOutOfOrderness)
    → ((on_record ts g).max_timestamp ≡ max_seen g.max_timestamp ts)
      × ((on_record ts g).allowed_lateness ≡ g.allowed_lateness)
unfolding on_record
on_record-max ts g = elim (Bool-cases (ltb_ℤ g.max_timestamp ts)) [
  | inl e ↦ rw (e, on_record) (refl, refl)
  | inr e ↦ rw (e, on_record) (refl, refl)
]

get_watermark-bound :
    (g : BoundedOutOfOrderness)
    → (get_watermark g ≡ zero_time) ⊎ (get_watermark g ≤ℤ g.max_timestamp -ℤ g.allowed_lateness)
unfolding get_watermark
get_watermark-bound g =
    if_cases (λ (wm : ℤ). (wm ≡ zero_time) ⊎ (wm ≤ℤ g.max_timestamp -ℤ g.allowed_lateness))
      (eqb_ℤ g.max_timestamp zero_time) zero_time (g.max_timestamp -ℤ g.allowed_lateness)
      (λ _. inl refl) (λ _. inr (omega arith))

max_seen-le : (high ts : ℤ) → high ≤ℤ max_seen high ts
max_seen-le high ts = ground arith

module _ (source : Bytes) (partition d : ℤ) where
  -- The one clock has seen `high`, or there is none yet.
  abbrev HasSeen : ℤ → List PartitionClock → Type 0
  HasSeen high [] = high ≡ zero_time
  HasSeen high (p ∷ []) =
      (p.source ≡ source)
      × (p.partition ≡ partition)
      × (p.gen.max_timestamp ≡ high)
      × (p.gen.allowed_lateness ≡ d)
  HasSeen high (p ∷ q ∷ ps) = ⊥

  -- What was emitted is behind the latest record by at least the bound.
  record IsBehind (high : ℤ) (ws : WatermarkSource) : Type 0 where
    bound : ws.out_of_orderness ≡ d
    clock : HasSeen high ws.parts
    emitted : (ws.last_wm ≡ zero_time) ⊎ (ws.last_wm ≤ℤ high -ℤ d)

  observe-HasSeen :
      (r : Record) (now high : ℤ) (ps : List PartitionClock)
      → r.source ≡ source
      → r.partition ≡ partition
      → HasSeen high ps
      → HasSeen (max_seen high r.timestamp) (observe d r now ps)
  unfolding observe on_record new_bounded
  observe-HasSeen r now high [] hs hp h =
      let seen = on_record-max r.timestamp (new_bounded d) in (hs, hp, rw h seen.0, seen.1)
  observe-HasSeen r now high (p ∷ []) hs hp h =
      let same : (bytes_eq p.source r.source && eqb_ℤ p.partition r.partition) ≡ true =
        rw
          (
            (bytes_eq_iff p.source r.source).1 (h.0 ∙ sym hs),
            (eqb_ℤ_iff p.partition r.partition).1 (h.1 ∙ sym hp),
          )
          refl in
      let seen = on_record-max r.timestamp p.gen in
      rw (same, observe) (h.0, h.1, seen.0 ∙ ap (λ x. max_seen x r.timestamp) h.2, seen.1 ∙ h.3)
  observe-HasSeen r now high (p ∷ q ∷ ps) hs hp h = absurd h

  partition_watermark-behind :
      (now high : ℤ) (ws : WatermarkSource)
      → HasSeen high ws.parts
      → (partition_watermark now ws ≡ zero_time) ⊎ (partition_watermark now ws ≤ℤ high -ℤ d)
  unfolding partition_watermark min_watermark get_watermark
  partition_watermark-behind now high ws h = go ws.parts h
    where
      go :
          (ps : List PartitionClock)
          → HasSeen high ps
          → let wm = min_watermark (idle_timeout ws.partition_idle_timeout) now ps zero_time in
            (wm ≡ zero_time) ⊎ (wm ≤ℤ high -ℤ d)
      go [] seen = inl refl
      go (p ∷ []) seen =
          if_cases (λ (wm : ℤ). (wm ≡ zero_time) ⊎ (wm ≤ℤ high -ℤ d))
            (takes_part (idle_timeout ws.partition_idle_timeout) now p
              && (eqb_ℤ zero_time zero_time || ltb_ℤ (get_watermark p.gen) zero_time))
            (get_watermark p.gen) zero_time (λ _. rw⁻¹ (seen.2, seen.3) (get_watermark-bound p.gen))
            (λ _. inl refl)
      go (p ∷ q ∷ ps) seen = absurd seen

  loop-OnTime :
      (is : List Input) (high : ℤ) (ws : WatermarkSource)
      → IsBehind high ws
      → DisorderedBy source partition d high is
      → zero_time ≤ℤ ws.last_wm
      → OnTime ws.last_wm (loop is ws)
  unfolding loop step new_watermark
  loop-OnTime [] high ws b h z = tt
  loop-OnTime (arrives r now ∷ is) high ws b h z =
      let (data_record, hs, hp, valid, in_bound, rest) = h in
      rw data_record (
        on_time b.emitted valid in_bound,
        loop-OnTime is (max_seen high r.timestamp) _
            (record {
              bound = b.bound;
              clock = rw b.bound (observe-HasSeen r now high ws.parts hs hp b.clock);
              emitted = still b.emitted;
            })
            rest z,
      )
    where
      on_time :
          (ws.last_wm ≡ zero_time) ⊎ (ws.last_wm ≤ℤ high -ℤ d)
          → zero_time ≤ℤ r.timestamp
          → high -ℤ d ≤ℤ r.timestamp
          → ws.last_wm ≤ℤ r.timestamp
      on_time (inl e) valid in_bound = rw e valid
      on_time (inr behind) valid in_bound = omega (arith, behind, in_bound)

      still :
          (ws.last_wm ≡ zero_time) ⊎ (ws.last_wm ≤ℤ high -ℤ d)
          → (ws.last_wm ≡ zero_time) ⊎ (ws.last_wm ≤ℤ max_seen high r.timestamp -ℤ d)
      still (inl e) = inl e
      still (inr behind) = inr (omega (int_laws, behind, max_seen-le high r.timestamp))
  loop-OnTime (ticks now ∷ is) high ws b h z =
      let wm = advance_last ws.last_wm (partition_watermark now ws) in
      let forward : ws.last_wm ≤ℤ wm = ground arith in
      let later =
        loop-OnTime is high (record ws { last_wm = wm })
          (record { bound = b.bound; clock = b.clock; emitted = next }) h
          (omega (arith, z, forward)) in
      elim (Bool-cases (eqb_ℤ wm zero_time)) [
        | inl e ↦ rw e (OnTime-mono _ ws.last_wm wm forward later)
        | inr e ↦ rw e (forward, later)
      ]
    where
      next :
          (advance_last ws.last_wm (partition_watermark now ws) ≡ zero_time)
          ⊎ (advance_last ws.last_wm (partition_watermark now ws) ≤ℤ high -ℤ d)
      next =
          if_cases (λ (wm : ℤ). (wm ≡ zero_time) ⊎ (wm ≤ℤ high -ℤ d))
            (ltb_ℤ ws.last_wm (partition_watermark now ws)) (partition_watermark now ws) ws.last_wm
            (λ _. partition_watermark-behind now high ws b.clock) (λ _. b.emitted)

-- Where all records that arrive at a new source are data of one partition, none before the zero time, and
-- each is behind the latest before it by at most the out-of-orderness: whenever the ticker fires, and
-- whether the partition is idle then, no record that goes out is before the watermark that went out last.
pub one_partition-OnTime :
    (source : Bytes) (partition d idle : ℤ) (is : List Input)
    → DisorderedBy source partition d zero_time is
    → OnTime zero_time (loop is (start d idle))
unfolding start
one_partition-OnTime source partition d idle is h =
    loop-OnTime source partition d is zero_time (start d idle)
      (record { bound = refl; clock = refl; emitted = inl refl }) h (omega arith)
