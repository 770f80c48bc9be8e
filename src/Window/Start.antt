-- ===== src/Window/Start.antt =====
-- `WindowStart` in closed form, where no int64 operation of it wraps.
use weibo.Base.{ℕ, zero, suc, ◌*◌, ◌/◌, ◌≤◌, ◌<◌, ◌≡◌, ◌⊎◌, inl, inr, false, some, arith}
use weibo.Base.Int.{
  ℤ, pos, negsuc, ◌+ℤ◌, ◌-ℤ◌, ◌*ℤ◌, ◌≤ℤ◌, eqb_ℤ, +ℤ_comm, quot_ℤ, wrap64_id, IsInt64, int_laws,
}
use weibo.Window.{window_start}

-- The multiple of `d` next to an integer on the side of 0.
abbrev pub towards_zero : ℤ → ℕ → ℤ
towards_zero (pos a) d = pos (a / d * d)
towards_zero (negsuc a) d = pos 0 -ℤ pos (suc a / d * d)

div-mul-le : (a d : ℕ) → a / d * d ≤ a
div-mul-le a d = grind arith

div-le : (a d : ℕ) → 0 < d → a / d ≤ a
div-le a d h = grind arith

quot-pos : (a d : ℕ) → quot_ℤ (pos a) (pos d) ≡ pos (a / d)
unfolding quot_ℤ
quot-pos a d = ground arith

quot-negsuc : (a d : ℕ) → quot_ℤ (negsuc a) (pos d) ≡ pos 0 -ℤ pos (suc a / d)
unfolding quot_ℤ ◌-ℤ◌
quot-negsuc a d = ground arith

mul-pos : (a d : ℕ) → pos a *ℤ pos d ≡ pos (a * d)
unfolding ◌*ℤ◌
mul-pos a d = ground arith

neg-suc : (a : ℕ) → pos 0 -ℤ pos (suc a) ≡ negsuc a
unfolding ◌-ℤ◌
neg-suc a = ground arith

mul-negsuc : (a d : ℕ) → negsuc a *ℤ pos d ≡ pos 0 -ℤ pos (suc a * d)
unfolding ◌*ℤ◌ ◌-ℤ◌
mul-negsuc a d = ground arith

mul-neg : (a d : ℕ) → (pos 0 -ℤ pos a) *ℤ pos d ≡ pos 0 -ℤ pos (a * d)
mul-neg zero d = unfold ◌*ℤ◌ ◌-ℤ◌ in ground arith
mul-neg (suc a) d = rw neg-suc (mul-negsuc a d)

-- Both the quotient and the multiple lie between 0 and the integer.
abbrev pub Between : ℤ → ℤ → Type 0
Between m x = (pos 0 ≤ℤ m) × (m ≤ℤ x) ⊎ (x ≤ℤ m) × (m ≤ℤ pos 0)

quot-Between : (x : ℤ) (d : ℕ) → 0 < d → Between (quot_ℤ x (pos d)) x
quot-Between (pos a) d h = rw (quot-pos a d) (inl (omega (arith, div-le a d h)))
quot-Between (negsuc a) d h = rw (quot-negsuc a d) (inr (omega (int_laws, div-le (suc a) d h)))

pub towards_zero-Between : (x : ℤ) (d : ℕ) → Between (towards_zero x d) x
towards_zero-Between (pos a) d = inl (omega (arith, div-mul-le a d))
towards_zero-Between (negsuc a) d = inr (omega (int_laws, div-mul-le (suc a) d))

Between-IsInt64 : (m x : ℤ) → Between m x → IsInt64 x → IsInt64 m
Between-IsInt64 m x b h = omega (int_laws, b)

quot-mul : (x : ℤ) (d : ℕ) → quot_ℤ x (pos d) *ℤ pos d ≡ towards_zero x d
quot-mul (pos a) d = rw (quot-pos a d) (mul-pos (a / d) d)
quot-mul (negsuc a) d = rw (quot-negsuc a d) (mul-neg (suc a / d) d)

not-zero : (d : ℕ) → 0 < d → eqb_ℤ (pos d) (pos 0) ≡ false
not-zero d h = ground arith

sum-IsInt64 :
    (ts offset m : ℤ)
    → IsInt64 ts
    → IsInt64 offset
    → Between m (ts -ℤ offset)
    → IsInt64 (offset +ℤ m)
sum-IsInt64 ts offset m t o b = omega (int_laws, b)

-- Of the distance from the offset the part towards 0 is kept, whatever its sign.
pub window_start-eq :
    (ts offset : ℤ) (d : ℕ)
    → 0 < d
    → IsInt64 ts
    → IsInt64 offset
    → IsInt64 (ts -ℤ offset)
    → window_start ts (pos d) offset ≡ some (offset +ℤ towards_zero (ts -ℤ offset) d)
unfolding window_start
window_start-eq ts offset d h t64 o64 x64 =
    let x = ts -ℤ offset in
    let near = towards_zero-Between x d in
    rw (wrap64_id ts t64, wrap64_id x x64)
      (rw
        (
          wrap64_id (quot_ℤ x (pos d)) (Between-IsInt64 _ x (quot-Between x d h) x64),
          quot-mul x d,
          wrap64_id (towards_zero x d) (Between-IsInt64 _ x near x64),
          +ℤ_comm (towards_zero x d) offset,
          wrap64_id (offset +ℤ towards_zero x d)
              (sum-IsInt64 ts offset (towards_zero x d) t64 o64 near),
        )
        (rw (not-zero d h)))
