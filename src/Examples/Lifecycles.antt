-- ===== src/Examples/Lifecycles.antt =====
-- Phases of a run and delays of restarts at concrete values.
use weibo.Base.{
  ◌≡◌, refl, true, false, ◌↔◌, ◌≤◌, [], ◌∷◌, arith, length, bytes_eq, min, ◌*◌, ◌^◌, codes,
}
use weibo.Base.Int.{pos}
use weibo.Lifecycle.{
  Phase, submitted, starting, blocked, restarting, failed, is_terminal, can_transition, from_agent,
  default_restart_policy, should_restart, phase_text, backoff,
}
use weibo.Lifecycle.Runs.{Moves, stays, moves, Moves-bounded}
use weibo.Lifecycle.Restarts.{backoff-eq}

garbled : from_agent (codes "runing") ≡ failed
unfolding from_agent bytes_eq
garbled = refl

restarts : should_restart default_restart_policy failed (pos 4) ≡ true
unfolding should_restart bytes_eq phase_text
restarts = refl

blocked_run : Moves submitted (starting ∷ blocked ∷ restarting ∷ failed ∷ [])
unfolding can_transition bytes_eq
blocked_run = moves submitted starting _ refl (
    moves starting blocked _ refl
      (moves blocked restarting _ refl (moves restarting failed _ refl (stays failed))))

Moves-bounded_example :
    (length (starting ∷ blocked ∷ restarting ∷ failed ∷ []) ≤ 4)
    × ((is_terminal submitted ≡ true) ↔ ((q : Phase) → can_transition submitted q ≡ false))
Moves-bounded_example =
    Moves-bounded submitted (starting ∷ blocked ∷ restarting ∷ failed ∷ []) blocked_run

backoff-eq_example :
    (backoff default_restart_policy (pos 1) ≡ pos 2000000000)
    × (backoff default_restart_policy (pos 5) ≡ pos (min (2000000000 * 2 ^ 4) 60000000000))
backoff-eq_example =
    backoff-eq default_restart_policy 3 2000000000 60000000000 refl refl (omega arith) (omega arith)
      (omega arith)
