-- ===== src/Examples/Windows.antt =====
-- Runs of the assigners, and their theorems at concrete times.
use mathlib.Core.List.{Memᴰ}
use weibo.Base.{◌≡◌, refl, ◌↔◌, none, some, List, [], ◌∷◌, arith}
use weibo.Base.Int.{pos, negsuc, ◌<ℤ◌, ◌+ℤ◌, ◌-ℤ◌, ◌*ℤ◌, quot_ℤ, wrap64}
use weibo.Window.{
  Window, tumbling, sliding, assign_windows, window_start, walk_back, walk_forward, window_at,
  merge_sessions, Contains,
}
use weibo.Window.Tumbling.{Fits, tumbling_contains, tumbling_misplaces}
use weibo.Window.Sliding.{IsSlot, sliding_exact}

tumbling_run :
    assign_windows (tumbling (pos 10) (pos 3)) (pos 27) ≡ some (window_at (pos 10) (pos 23) ∷ [])
unfolding assign_windows window_start wrap64 ◌+ℤ◌ ◌*ℤ◌ quot_ℤ ◌-ℤ◌
tumbling_run = refl

before_epoch_run :
    assign_windows (tumbling (pos 10) (pos 0)) (negsuc 4) ≡ some (window_at (pos 10) (pos 0) ∷ [])
unfolding assign_windows window_start wrap64 ◌+ℤ◌ ◌*ℤ◌ quot_ℤ ◌-ℤ◌
before_epoch_run = refl

sliding_run :
    assign_windows (sliding (pos 10) (pos 4) (pos 0)) (pos 13)
    ≡ some
        (window_at (pos 10) (pos 12) ∷ window_at (pos 10) (pos 8) ∷ window_at (pos 10) (pos 4) ∷ [])
unfolding assign_windows window_start walk_back walk_forward wrap64 ◌+ℤ◌ ◌*ℤ◌ quot_ℤ ◌-ℤ◌
sliding_run = refl

panic_run : assign_windows (tumbling (pos 0) (pos 0)) (pos 5) ≡ none
unfolding assign_windows window_start
panic_run = refl

merge_run :
    merge_sessions (window_at (pos 10) (pos 0)) (window_at (pos 10) (pos 7))
    ≡ window_at (pos 17) (pos 0) ∷ []
unfolding merge_sessions ◌+ℤ◌
merge_run = refl

fits_27 : Fits (pos 27) (pos 3) 10
unfolding ◌-ℤ◌
fits_27 = record {
  positive = omega arith;
  ts64 = omega arith;
  offset64 = omega arith;
  distance64 = omega arith;
}

fits_31 : Fits (pos 31) (pos 3) 10
unfolding ◌-ℤ◌
fits_31 = record {
  positive = omega arith;
  ts64 = omega arith;
  offset64 = omega arith;
  distance64 = omega arith;
}

fits_below : Fits (negsuc 4) (pos 0) 10
unfolding ◌-ℤ◌
fits_below = record {
  positive = omega arith;
  ts64 = omega arith;
  offset64 = omega arith;
  distance64 = omega arith;
}

fits_13 : Fits (pos 13) (pos 0) 4
unfolding ◌-ℤ◌
fits_13 = record {
  positive = omega arith;
  ts64 = omega arith;
  offset64 = omega arith;
  distance64 = omega arith;
}

tumbling_contains_example :
    (w : Window) × (assign_windows (tumbling (pos 10) (pos 3)) (pos 27) ≡ some (w ∷ []))
    × Contains w (pos 27)
tumbling_contains_example = tumbling_contains (pos 27) (pos 3) 10 fits_27 (omega arith)

tumbling_misplaces_example :
    (w : Window) × (assign_windows (tumbling (pos 10) (pos 0)) (negsuc 4) ≡ some (w ∷ []))
    × (negsuc 4 <ℤ w.start)
unfolding ◌+ℤ◌
tumbling_misplaces_example =
    tumbling_misplaces (negsuc 4) (pos 0) 10 5 fits_below refl (omega arith)

sliding_exact_example :
    (ws : List Window) × (assign_windows (sliding (pos 10) (pos 4) (pos 0)) (pos 13) ≡ some ws)
    × ((w : Window) → Memᴰ w ws ↔ IsSlot (pos 13) (pos 0) 10 4 w)
sliding_exact_example = sliding_exact (pos 13) (pos 0) 10 4 fits_13 (omega arith)
