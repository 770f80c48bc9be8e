-- ===== src/Controller/Endings.antt =====
-- control/controller.go, control/reconcile.go: how a run ends, is blocked or waits for a restart.
use weibo.Base.{none, some, List, [], ◌∷◌, length, if◌then◌else◌, select}
use weibo.Base.Int.{pos, pos_part, ◌+ℤ◌, ltb_ℤ}
use weibo.State.{Bytes, bytes_key}
use weibo.Lifecycle.{Phase, restarting, blocked, backoff}
use weibo.Controller.{
  Controller, Run, Transition, JobState, Operation, secret_blocked, done, handle_both, ignore,
  ◌>>=◌, ◌>>◌, is_empty,
}
use weibo.Controller.Store.{
  list_runs, update_run_with_transition, prune_terminal_rows, is_terminal_run, drop,
}
use weibo.Controller.Backend.{remove_container}

-- The newest first, by the clock's times.
abbrev pub insert_started : Run → List Run → List Run
insert_started r [] = r ∷ []
insert_started r (x ∷ xs) =
    let rest = insert_started r xs in if ltb_ℤ r.started x.started then x ∷ rest else r ∷ x ∷ xs

abbrev pub sort_started : List Run → List Run
sort_started [] = []
sort_started (r ∷ rs) = insert_started r (sort_started rs)

module _ (c : Controller) where
  open c use {image, restart, retention}
  open c.outside use {now, new_id, resolve_secret, parse_sdk_manifest}

  abbrev pub transition_record : JobState → Run → Phase → Phase → Bytes → Transition
  transition_record s r from to reason = record {
    run_id = r.id;
    from = some from;
    to = to;
    reason = reason;
    at = now s.calls;
  }

  unfoldable pub remove_victims : List Run → Operation (Unit {0})
  remove_victims [] = done tt
  remove_victims (v ∷ vs) =
      let rest = remove_victims vs in
      if is_empty v.container_id then rest else ignore (remove_container c v.container_id) >> rest

  abbrev pub pruned : List Run → Operation (Unit {0})
  pruned terminal =
      if ltb_ℤ retention (pos (length terminal))
      then remove_victims (drop (pos_part retention) (sort_started terminal))
        >> ignore (prune_terminal_rows c retention)
      else done tt

  -- Failures are logged.
  unfoldable pub prune_terminal_runs : Operation (Unit {0})
  prune_terminal_runs =
      if ltb_ℤ retention (pos 0)
      then done tt
      else handle_both (list_runs c) (λ runs. pruned (select is_terminal_run runs)) (λ e. done tt)

  abbrev pub as_finished : JobState → Run → Phase → Run
  as_finished s r to = record r { phase = to; stopped = some (now s.calls); restart_at = none }

  unfoldable pub finish_run : Run → Phase → Phase → Bytes → Operation (Unit {0})
  finish_run r from to reason s =
      (update_run_with_transition c (as_finished s r to) (transition_record s r from to reason)
          >> prune_terminal_runs)
        s

  abbrev pub as_blocked : Run → Bytes → Run
  as_blocked r reason = record r {
    phase = blocked;
    error = reason;
    failure_kind = secret_blocked;
    restart_at = none;
  }

  unfoldable pub block_run : Run → Phase → Bytes → Operation (Unit {0})
  block_run r from reason s =
      update_run_with_transition c (as_blocked r reason) (transition_record s r from blocked reason)
        s

  abbrev pub as_restarting : JobState → Run → Bytes → Run
  as_restarting s r reason = record r {
    phase = restarting;
    error = reason;
    restart_at = some (now s.calls +ℤ backoff restart r.attempt);
  }

  -- The run as it is left is returned.
  unfoldable pub schedule_restart_from : Run → Phase → Bytes → Operation Run
  schedule_restart_from r from reason s =
      (update_run_with_transition c (as_restarting s r reason)
            (transition_record s r from restarting reason)
          >>= λ _. done (as_restarting s r reason))
        s
