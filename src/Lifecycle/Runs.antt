-- ===== src/Lifecycle/Runs.antt =====
-- control/lifecycle/lifecycle.go: runs along the legal edges.
use weibo.Base.{◌≡◌, ◌↔◌, ℕ, ◌≤◌, ◌<◌, true, false, List, [], ◌∷◌, arith, length, bytes_eq}
use weibo.Lifecycle.{
  Phase, submitted, starting, running, restarting, blocked, cancelling, cancelled, finished, failed,
  is_terminal, can_transition,
}

-- A run that moves from a phase through the phases of a list, each by a legal edge.
pub data Moves : Phase → List Phase → Type 0 where
  stays : (p : Phase) → Moves p []
  moves :
      (p q : Phase) (qs : List Phase) → can_transition p q ≡ true → Moves q qs → Moves p (q ∷ qs)

-- The most moves that a phase has ahead.
abbrev rank : Phase → ℕ
rank submitted = 4
rank starting = 3
rank running = 2
rank blocked = 2
rank restarting = 1
rank cancelling = 1
rank cancelled = 0
rank finished = 0
rank failed = 0

rank-lt : (p q : Phase) → can_transition p q ≡ true → rank q < rank p
unfolding can_transition bytes_eq
rank-lt p q e = grind arith

Moves-rank : (p : Phase) (qs : List Phase) → Moves p qs → length qs ≤ rank p
Moves-rank p [] (stays _) = omega arith
Moves-rank p (q ∷ qs) (moves _ _ _ e m) = omega (arith, rank-lt p q e, Moves-rank q qs m)

rank-le : (p : Phase) → rank p ≤ 4
rank-le p = grind arith

-- One of the phases that may follow.
abbrev next_phase : Phase → Phase
next_phase submitted = starting
next_phase starting = running
next_phase running = cancelling
next_phase restarting = failed
next_phase blocked = restarting
next_phase cancelling = finished
next_phase p = p

ends : (p : Phase) → (is_terminal p ≡ true) ↔ ((q : Phase) → can_transition p q ≡ false)
unfolding is_terminal can_transition bytes_eq
ends p = (λ t q. grind arith, λ none_left. grind (arith, none_left (next_phase p)))

-- Along legal edges a run changes its phase at most four times; and a phase is terminal exactly if no
-- legal edge leaves it.
pub Moves-bounded :
    (p : Phase) (qs : List Phase)
    → Moves p qs
    → (length qs ≤ 4) × ((is_terminal p ≡ true) ↔ ((q : Phase) → can_transition p q ≡ false))
unfolding is_terminal can_transition
Moves-bounded p qs m = (omega (arith, Moves-rank p qs m, rank-le p), ends p)
