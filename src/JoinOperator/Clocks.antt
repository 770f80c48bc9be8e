-- ===== src/JoinOperator/Clocks.antt =====
-- operator/join.go: the aligned watermark of the two sides.
use weibo.Base.{◌≡◌, true, false, arith, if◌then◌else◌}
use weibo.Base.Int.{ℤ, int_laws, ◌≤ℤ◌, ◌-ℤ◌, ◌+ℤ◌, ltb_ℤ, ltb_ℤ→lt, lt→ltb_ℤ, le→ltb_ℤ, ltb_ℤ→le}
use weibo.Types.{zero_time}
use weibo.JoinOperator.{IntervalJoinOperator, aligned_watermark, in_range}

pub le_refl : (a : ℤ) → a ≤ℤ a
le_refl a = omega arith

pub le_trans : (a b c : ℤ) → a ≤ℤ b → b ≤ℤ c → a ≤ℤ c
le_trans a b c h k = omega (arith, h, k)

-- The aligned watermark follows the two sides.
pub aligned_watermark-Monotone :
    (a b a' b' : ℤ)
    → zero_time ≤ℤ a
    → zero_time ≤ℤ b
    → a ≤ℤ a'
    → b ≤ℤ b'
    → aligned_watermark a b ≤ℤ aligned_watermark a' b'
unfolding aligned_watermark
aligned_watermark-Monotone a b a' b' ha hb h k = ground (arith, ha, hb, h, k)

pub aligned_watermark-least :
    (a b : ℤ)
    → zero_time ≤ℤ a
    → zero_time ≤ℤ b
    → (aligned_watermark a b ≤ℤ a) × (aligned_watermark a b ≤ℤ b)
unfolding aligned_watermark
aligned_watermark-least a b h k = ground (arith, h, k)

pub advance-le : (a ts : ℤ) → a ≤ℤ (if ltb_ℤ a ts then ts else a)
advance-le a ts = ground arith

-- What is before a cutoff is before a later one.
pub before-later : (t d a a' : ℤ) → a ≤ℤ a' → ltb_ℤ t (a -ℤ d) ≡ true → ltb_ℤ t (a' -ℤ d) ≡ true
before-later t d a a' h e = lt→ltb_ℤ t (a' -ℤ d) (omega (int_laws, h, ltb_ℤ→lt t (a -ℤ d) e))

-- A left record in the range of a record that is not late is not before the cutoff of its side.
pub in_range-left :
    {S : Type 0} (op : IntervalJoinOperator S) (l r a : ℤ)
    → in_range op l r ≡ true
    → a ≤ℤ r
    → ltb_ℤ l (a -ℤ op.after) ≡ false
unfolding in_range
in_range-left op l r a e h =
    let late : ltb_ℤ (l +ℤ op.after) r ≡ false = ground (arith, e) in
    le→ltb_ℤ l (a -ℤ op.after) (omega (int_laws, h, ltb_ℤ→le (l +ℤ op.after) r late))

pub in_range-right :
    {S : Type 0} (op : IntervalJoinOperator S) (l r a : ℤ)
    → in_range op l r ≡ true
    → a ≤ℤ l
    → ltb_ℤ r (a -ℤ op.before) ≡ false
unfolding in_range
in_range-right op l r a e h =
    let early : ltb_ℤ r (l -ℤ op.before) ≡ false = ground (arith, e) in
    le→ltb_ℤ r (a -ℤ op.before) (omega (int_laws, h, ltb_ℤ→le r (l -ℤ op.before) early))
