-- ===== src/Window/Tumbling.antt =====
-- window/tumbling.go: the window of a time, at or after the alignment offset and before it.
use weibo.Base.{ℕ, suc, ap, ◌+◌, ◌*◌, ◌/◌, ◌%◌, ◌≤◌, ◌<◌, ◌≡◌, ◌≢◌, some, [], ◌∷◌, arith}
use weibo.Base.Int.{
  ℤ, pos, negsuc, pos_part, neg_part, ◌+ℤ◌, ◌-ℤ◌, ◌≤ℤ◌, ◌<ℤ◌, IsInt64, int_laws, eq_of_parts,
}
use weibo.Window.{Window, tumbling, assign_windows, window_at, Contains}
use weibo.Window.Start.{towards_zero, window_start-eq}

module _ (ts offset : ℤ) (d : ℕ) where
  -- The inputs on which no int64 operation of `WindowStart` wraps.
  pub record Fits : Type 0 where
    pub positive : 0 < d
    pub ts64 : IsInt64 ts
    pub offset64 : IsInt64 offset
    pub distance64 : IsInt64 (ts -ℤ offset)

  -- The start that `WindowStart` computes.
  abbrev pub slot : ℤ
  slot = offset +ℤ towards_zero (ts -ℤ offset) d

  pub tumbling-eq :
      Fits → assign_windows (tumbling (pos d) offset) ts ≡ some (window_at (pos d) slot ∷ [])
  unfolding assign_windows
  tumbling-eq f = rw (window_start-eq ts offset d f.positive f.ts64 f.offset64 f.distance64)

pub within : (a d : ℕ) → 0 < d → (a / d * d ≤ a) × (a < a / d * d + d)
within a d h = grind arith

-- For a distance that is not negative the multiple is at most a window's length below.
towards_zero_floor :
    (x : ℤ) (d : ℕ)
    → 0 < d
    → pos 0 ≤ℤ x
    → (towards_zero x d ≤ℤ x) × (x <ℤ towards_zero x d +ℤ pos d)
towards_zero_floor (pos a) d h p = omega (int_laws, within a d h)
towards_zero_floor (negsuc a) d h p = absurd (omega arith)

-- Where no int64 operation wraps, a record at or after the offset lies in the one window that it is
-- assigned to.
pub tumbling_contains :
    (ts offset : ℤ) (d : ℕ)
    → Fits ts offset d
    → offset ≤ℤ ts
    → (w : Window) × (assign_windows (tumbling (pos d) offset) ts ≡ some (w ∷ [])) × Contains w ts
tumbling_contains ts offset d f h =
    let near = towards_zero_floor (ts -ℤ offset) d f.positive (omega int_laws) in
    (
      window_at (pos d) (slot ts offset d),
      tumbling-eq ts offset d f,
      (omega (int_laws, near), omega (int_laws, near)),
    )

div_unique : (q b d : ℕ) → q * d ≤ b → b < q * d + d → b / d ≡ q
div_unique q b d h k = grind arith

towards_zero_unique :
    (x y : ℤ) (d : ℕ)
    → pos 0 ≤ℤ x
    → pos 0 ≤ℤ y
    → towards_zero x d ≤ℤ y
    → y <ℤ towards_zero x d +ℤ pos d
    → towards_zero y d ≡ towards_zero x d
towards_zero_unique (pos a) (pos b) d p q h k =
    rw (div_unique (a / d) b d (omega int_laws) (omega int_laws))
towards_zero_unique (negsuc a) y d p q h k = absurd (omega arith)
towards_zero_unique (pos a) (negsuc b) d p q h k = absurd (omega arith)

-- Where no int64 operation wraps, of two records at or after the offset, if one lies in the window
-- of the other, both are assigned to the same window.
pub tumbling_partitions :
    (ts other offset : ℤ) (d : ℕ)
    → Fits ts offset d
    → Fits other offset d
    → offset ≤ℤ ts
    → offset ≤ℤ other
    → Contains (window_at (pos d) (slot ts offset d)) other
    → assign_windows (tumbling (pos d) offset) other ≡ assign_windows (tumbling (pos d) offset) ts
tumbling_partitions ts other offset d f g h k c = rw (
  tumbling-eq ts offset d f,
  tumbling-eq other offset d g,
  towards_zero_unique (ts -ℤ offset) (other -ℤ offset) d (omega int_laws) (omega int_laws)
      (omega (int_laws, c)) (omega (int_laws, c)),
)

above : (a d m : ℕ) → 0 < d → m ≡ a → m % d ≢ 0 → a / d * d < a
above a d m h e k = grind arith

towards_zero_above :
    (x : ℤ) (d m : ℕ) → 0 < d → x +ℤ pos m ≡ pos 0 → m % d ≢ 0 → x <ℤ towards_zero x d
towards_zero_above (pos a) d m h e k =
    let nothing : m ≡ 0 = omega (int_laws, ap pos_part e, ap neg_part e) in absurd (k (grind arith))
towards_zero_above (negsuc a) d m h e k =
    omega (int_laws, above (suc a) d m h (omega (int_laws, ap pos_part e, ap neg_part e)) k)

-- Where no int64 operation wraps, a record before the offset whose distance from it is no multiple
-- of the size is assigned to one window, which starts after the record.
pub tumbling_misplaces :
    (ts offset : ℤ) (d m : ℕ)
    → Fits ts offset d
    → ts +ℤ pos m ≡ offset
    → m % d ≢ 0
    → (w : Window) × (assign_windows (tumbling (pos d) offset) ts ≡ some (w ∷ [])) × (ts <ℤ w.start)
tumbling_misplaces ts offset d m f e k =
    let near =
      towards_zero_above (ts -ℤ offset) d m f.positive
        (eq_of_parts _ (pos 0) (omega (int_laws, ap pos_part e, ap neg_part e))) k in
    (window_at (pos d) (slot ts offset d), tumbling-eq ts offset d f, omega (int_laws, near))
