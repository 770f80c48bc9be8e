-- ===== src/Lifecycle.antt =====
-- control/lifecycle/lifecycle.go: the phases of a run as the controller sees them, and the restart policy.
pub mod Runs
pub mod Restarts
use weibo.Base.{
  ℕ, zero, suc, Bool, true, false, not, ◌&&◌, ◌||◌, List, [], ◌∷◌, if◌then◌else◌, bytes_eq, codes,
}
use weibo.Base.Int.{ℤ, pos, pos_part, ◌-ℤ◌, ◌*ℤ◌, ltb_ℤ, wrap64}
use weibo.State.{Bytes}

pub data Phase : Type 0 where
  submitted starting running restarting blocked : Phase
  cancelling cancelled finished failed : Phase

unfoldable pub phase_text : Phase → Bytes
phase_text submitted = codes "submitted"
phase_text starting = codes "starting"
phase_text running = codes "running"
phase_text restarting = codes "restarting"
phase_text blocked = codes "blocked"
phase_text cancelling = codes "cancelling"
phase_text cancelled = codes "cancelled"
phase_text finished = codes "finished"
phase_text failed = codes "failed"

unfoldable pub is_terminal : Phase → Bool
is_terminal cancelled = true
is_terminal finished = true
is_terminal failed = true
is_terminal _ = false

-- `valid`; the terminal phases have no entry.
unfoldable pub valid : Phase → List Phase
valid submitted = starting ∷ failed ∷ cancelled ∷ []
valid starting = running ∷ failed ∷ restarting ∷ blocked ∷ cancelling ∷ []
valid running = cancelling ∷ cancelled ∷ finished ∷ failed ∷ restarting ∷ []
valid restarting = cancelled ∷ failed ∷ []
valid blocked = failed ∷ cancelled ∷ restarting ∷ []
valid cancelling = cancelled ∷ finished ∷ failed ∷ []
valid cancelled = []
valid finished = []
valid failed = []

-- `slices.Contains`, on the texts of the phases.
unfoldable pub contains_phase : Phase → List Phase → Bool
unfolding phase_text
contains_phase p [] = false
contains_phase p (q ∷ qs) = bytes_eq (phase_text q) (phase_text p) || contains_phase p qs

unfoldable pub can_transition : Phase → Phase → Bool
unfolding valid contains_phase
can_transition from to = contains_phase to (valid from)

unfoldable pub from_agent : Bytes → Phase
unfolding phase_text
from_agent text =
    if bytes_eq text (phase_text starting)
    then starting
    else if bytes_eq text (phase_text running)
    then running
    else if bytes_eq text (phase_text cancelling)
    then cancelling
    else if bytes_eq text (phase_text finished)
    then finished
    else failed

-- Durations are nanoseconds, of type int64.
pub record RestartPolicy : Type 0 where
  pub max_attempts : ℤ
  pub base_backoff : ℤ
  pub max_backoff : ℤ

abbrev pub default_restart_policy : RestartPolicy
default_restart_policy = record {
  max_attempts = pos 5;
  base_backoff = pos 2000000000;
  max_backoff = pos 60000000000;
}

unfoldable pub should_restart : RestartPolicy → Phase → ℤ → Bool
should_restart p phase attempt =
    if not (ltb_ℤ (pos 0) p.max_attempts)
    then false
    else bytes_eq (phase_text phase) (phase_text failed) && ltb_ℤ attempt p.max_attempts

-- The rounds of the loop of `Backoff` that are left, and the delay so far.
unfoldable pub doubled : RestartPolicy → ℕ → ℤ → ℤ
doubled p zero d = d
doubled p (suc n) d =
    let twice = wrap64 (d *ℤ pos 2) in
    let rest = doubled p n twice in
    if ltb_ℤ (pos 0) p.max_backoff && not (ltb_ℤ twice p.max_backoff) then p.max_backoff else rest

unfoldable pub backoff : RestartPolicy → ℤ → ℤ
unfolding doubled
backoff p attempt =
    let n = if ltb_ℤ attempt (pos 1) then pos 1 else attempt in
    doubled p (pos_part (n -ℤ pos 1)) p.base_backoff
