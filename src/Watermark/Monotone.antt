-- ===== src/Watermark/Monotone.antt =====
-- source/watermark.go, the order of the watermarks that `Run` emits.
use weibo.Base.{◌≡◌, Bool, true, false, List, [], ◌∷◌, All, arith, Bool-cases, inl, inr}
use weibo.Base.Int.{ℤ, ◌≤ℤ◌, eqb_ℤ}
use weibo.Types.{Record, new_watermark, zero_time}
use weibo.Watermark.{
  Input, arrives, ticks, WatermarkSource, loop, advance_last, partition_watermark,
}

abbrev watermark_from : Bool → ℤ → ℤ → ℤ
watermark_from true ts low = ts
watermark_from false ts low = low

abbrev NotBefore : Bool → ℤ → ℤ → Type 0
NotBefore true ts low = low ≤ℤ ts
NotBefore false ts low = Unit

-- Each watermark among the records is at or after the one before it, the first at or after `low`.
abbrev pub Ordered : ℤ → List Record → Type 0
Ordered low [] = Unit
Ordered low (r ∷ rs) =
    NotBefore r.is_watermark r.timestamp low
    × Ordered (watermark_from r.is_watermark r.timestamp low) rs

-- The wrapped source sends no watermarks of its own.
abbrev pub SendsData : Input → Type 0
SendsData (arrives r now) = r.is_watermark ≡ false
SendsData (ticks now) = Unit

Ordered-mono : (rs : List Record) (low high : ℤ) → low ≤ℤ high → Ordered high rs → Ordered low rs
Ordered-mono [] low high h o = tt
Ordered-mono (r ∷ rs) low high h o = elim (Bool-cases r.is_watermark) [
  | inl e ↦ let o' = rw e at o in rw e (omega (arith, o'.0), o'.1)
  | inr e ↦ let o' = rw e at o in rw e (tt, Ordered-mono rs low high h o'.1)
]

advance_last-le : (last pm : ℤ) → last ≤ℤ advance_last last pm
advance_last-le last pm = ground arith

-- If the wrapped source sends no watermarks of its own, then whatever arrives and whenever the
-- ticker fires, the emitted watermarks never go back, nor behind the last one before.
pub loop-Ordered :
    (is : List Input) (ws : WatermarkSource) → All SendsData is → Ordered ws.last_wm (loop is ws)
unfolding loop new_watermark
loop-Ordered [] ws h = tt
loop-Ordered (arrives r now ∷ is) ws h = rw h.0 (tt, loop-Ordered is _ h.1)
loop-Ordered (ticks now ∷ is) ws h =
    let later = loop-Ordered is _ h.1 in
    let forward = advance_last-le ws.last_wm (partition_watermark now ws) in
    elim (Bool-cases (eqb_ℤ (advance_last ws.last_wm (partition_watermark now ws)) zero_time)) [
      | inl e ↦ rw e (Ordered-mono _ _ _ forward later)
      | inr e ↦ rw e (forward, later)
    ]
