-- ===== src/Lifecycle/Restarts.antt =====
-- control/lifecycle/lifecycle.go: the delay before a restart.
use weibo.Base.{
  ◌≡◌, ℕ, zero, suc, ◌+◌, ◌*◌, ◌^◌, ◌≤◌, ◌<◌, min, arith, Bool-cases, inl, inr, ltb, false,
}
use weibo.Base.Int.{pos, ◌*ℤ◌, ◌-ℤ◌, wrap64, wrap64_id, ltb_ℤ, pos_part}
use weibo.Lifecycle.{RestartPolicy, doubled, backoff}

mul-pos_2 : (d : ℕ) → pos d *ℤ pos 2 ≡ pos (d * 2)
unfolding ◌*ℤ◌
mul-pos_2 d = ground arith

twice-eq : (d : ℕ) → d < 2 ^ 62 → wrap64 (pos d *ℤ pos 2) ≡ pos (d * 2)
twice-eq d h = rw (mul-pos_2 d) (wrap64_id (pos (d * 2)) (omega arith))

power : (d n : ℕ) → d * 2 ^ suc n ≡ d * 2 * 2 ^ n
power d n = grind arith

power_pos : (n : ℕ) → 1 ≤ 2 ^ n
power_pos zero = omega arith
power_pos (suc n) = grind (arith, power_pos n, power 1 n)

grows : (a b : ℕ) → 1 ≤ b → a ≤ a * b
grows a b h = grind arith

above : (d n m : ℕ) → ltb (d * 2) m ≡ false → m ≤ d * 2 ^ suc n
above d n m h = ground (arith, grows (d * 2) (2 ^ n) (power_pos n), power d n)

doubled-suc :
    (p : RestartPolicy) (n d m : ℕ)
    → p.max_backoff ≡ pos m
    → 0 < m
    → d < 2 ^ 62
    → (d * 2 < m → doubled p n (pos (d * 2)) ≡ pos (min (d * 2 * 2 ^ n) m))
    → doubled p (suc n) (pos d) ≡ pos (min (d * 2 ^ suc n) m)
unfolding doubled
doubled-suc p n d m e h l rest = elim (Bool-cases (ltb (d * 2) m)) [
  | inl less ↦ rw (e, twice-eq d l) (ground (arith, rest (ground arith), power d n))
  | inr more ↦ rw (e, twice-eq d l) (ground (arith, above d n m))
]

doubled-eq :
    (p : RestartPolicy) (n d m : ℕ)
    → p.max_backoff ≡ pos m
    → d < m
    → m ≤ 2 ^ 62
    → doubled p n (pos d) ≡ pos (min (d * 2 ^ n) m)
unfolding doubled
doubled-eq p zero d m e h k = ground arith
doubled-eq p (suc n) d m e h k =
    doubled-suc p n d m e (omega arith) (omega arith) (λ l. doubled-eq p n (d * 2) m e l k)

rounds : (n : ℕ) → pos_part (pos (n + 2) -ℤ pos 1) ≡ suc n
unfolding ◌-ℤ◌
rounds n = ground arith

not_below : (n : ℕ) → ltb_ℤ (pos (n + 2)) (pos 1) ≡ false
not_below n = ground arith

-- Where the cap is positive and neither it nor the base delay exceeds 2^62 nanoseconds: the first
-- attempt waits the base delay, whatever the cap; attempt n + 2 waits the least of the cap and the
-- base delay times 2^(n + 1).
pub backoff-eq :
    (p : RestartPolicy) (n d m : ℕ)
    → p.base_backoff ≡ pos d
    → p.max_backoff ≡ pos m
    → 0 < m
    → m ≤ 2 ^ 62
    → d < 2 ^ 62
    → (backoff p (pos 1) ≡ pos d) × (backoff p (pos (n + 2)) ≡ pos (min (d * 2 ^ suc n) m))
unfolding backoff doubled ◌-ℤ◌
backoff-eq p n d m b e h k l = (
  b,
  rw (not_below n, rounds n, b) (doubled-suc p n d m e h l (λ c. doubled-eq p n (d * 2) m e c k)),
)
