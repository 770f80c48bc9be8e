-- ===== src/Controller/Store.antt =====
-- control/store/sqlite.go: the rows of one job. A call either fails without an effect, or commits; the
-- primary key of runs and the unique index of active runs are checked.
use weibo.Base.{
  ℕ, suc, zero, ◌+◌, Bool, true, false, not, Option, none, some, List, [], ◌∷◌, ◌++◌, if◌then◌else◌,
  ltb, bytes_eq, select,
}
use weibo.Base.Int.{ℤ, pos_part}
use weibo.State.{Bytes}
use weibo.Positions.{bytes_ltb}
use weibo.Controller.{
  Controller, Job, Desired, Run, Transition, JobState, Operation, Result, ok, failed, store_failed,
  not_found, constraint_failed, tick, unless_error, ◌>>◌, ◌>>=◌,
}

abbrev pub is_active : Run → Bool
is_active r = elim r.stopped [ none ↦ true | some t ↦ false ]

abbrev pub count_active : List Run → ℕ
count_active [] = 0
count_active (r ∷ rs) = (if is_active r then 1 else 0) + count_active rs

abbrev pub has_run : Bytes → List Run → Bool
has_run id [] = false
has_run id (r ∷ rs) = let rest = has_run id rs in if bytes_eq r.id id then true else rest

abbrev pub find_run : Bytes → List Run → Option Run
find_run id [] = none
find_run id (r ∷ rs) = let rest = find_run id rs in if bytes_eq r.id id then some r else rest

-- The time at which a run started is never written again.
abbrev pub overwrite : Run → Run → Run
overwrite r old = record r { started = old.started }

abbrev pub replace : Run → List Run → List Run
replace r [] = []
replace r (x ∷ xs) = (if bytes_eq x.id r.id then overwrite r x else x) ∷ replace r xs

abbrev pub checked_runs : List Run → List Transition → JobState → Result JobState
checked_runs runs ts s =
    if ltb 1 (count_active runs)
    then failed constraint_failed
    else ok (record s { runs = runs; transitions = s.transitions ++ ts })

-- `insertRun` and `appendTransition` in one transaction.
abbrev pub inserted : Run → List Transition → JobState → Result JobState
inserted r ts s =
    if has_run r.id s.runs then failed constraint_failed else checked_runs (r ∷ s.runs) ts s

-- `updateRun` and `appendTransition`.
abbrev pub updated : Run → List Transition → JobState → Result JobState
updated r ts s =
    if has_run r.id s.runs then checked_runs (replace r s.runs) ts s else failed not_found

abbrev pub committed : JobState → Result JobState → Result (Unit {0}) × JobState
committed s (ok s') = (ok tt, tick s')
committed s (failed e) = (failed e, tick s)

abbrev pub with_job : (Job → JobState) → Option Job → Result JobState
with_job f none = failed not_found
with_job f (some j) = ok (f j)

-- Newest first; the times are compared as texts.
abbrev pub insert_newest : (Run → Bytes) → Run → List Run → List Run
insert_newest text r [] = r ∷ []
insert_newest text r (x ∷ xs) =
    let rest = insert_newest text r xs in
    if bytes_ltb (text r) (text x) then x ∷ rest else r ∷ x ∷ xs

abbrev pub newest_first : (Run → Bytes) → List Run → List Run
newest_first text [] = []
newest_first text (r ∷ rs) = insert_newest text r (newest_first text rs)

abbrev pub first_run : List Run → Option Run
first_run [] = none
first_run (r ∷ rs) = some r

abbrev pub drop : {A : Type 0} → ℕ → List A → List A
drop n [] = []
drop zero (x ∷ xs) = x ∷ xs
drop (suc n) (x ∷ xs) = drop n xs

abbrev pub delete_runs : List Run → List Run → List Run
delete_runs victims [] = []
delete_runs victims (r ∷ rs) =
    let rest = delete_runs victims rs in if has_run r.id victims then rest else r ∷ rest

abbrev pub is_of : List Run → Transition → Bool
is_of victims t = has_run t.run_id victims

abbrev pub is_terminal_run : Run → Bool
is_terminal_run r = not (is_active r)

abbrev pub found : {A : Type 0} → Option A → Operation A
found none s = (failed not_found, s)
found (some a) s = (ok a, s)

module _ (c : Controller) where
  open c.outside use {store_error, format}

  unfoldable pub query : {A : Type 0} → (JobState → A) → Operation A
  query f s = unless_error store_failed (store_error s.calls) (ok (f s), tick s) (tick s)

  unfoldable pub transact : (JobState → Result JobState) → Operation (Unit {0})
  transact f s = unless_error store_failed (store_error s.calls) (committed s (f s)) (tick s)

  abbrev pub started_text : Run → Bytes
  started_text r = format r.started

  unfoldable pub list_runs : Operation (List Run)
  list_runs = query (λ s. newest_first started_text s.runs)

  unfoldable pub active_runs : Operation (List Run)
  active_runs = query (λ s. select is_active s.runs)

  unfoldable pub latest_run : Operation (Option Run)
  latest_run = query (λ s. first_run (newest_first started_text s.runs))

  unfoldable pub get_run : Bytes → Operation Run
  get_run id = do r ← query (λ s. find_run id s.runs); found r

  unfoldable pub get_job : Operation Job
  get_job = do j ← query (λ s. s.job); found j

  unfoldable pub create_run_with_transition : Run → Transition → Operation (Unit {0})
  create_run_with_transition r t = transact (inserted r (t ∷ []))

  unfoldable pub update_run : Run → Operation (Unit {0})
  update_run r = transact (updated r [])

  unfoldable pub update_run_with_transition : Run → Transition → Operation (Unit {0})
  update_run_with_transition r t = transact (updated r (t ∷ []))

  unfoldable pub append_transition : Transition → Operation (Unit {0})
  append_transition t = transact (λ s. ok (record s { transitions = s.transitions ++ t ∷ [] }))

  unfoldable pub create_job : Job → Operation (Unit {0})
  create_job j = transact (λ s. elim s.job [
    | none ↦ ok (record s { job = some j })
    | some old ↦ failed constraint_failed
  ])

  unfoldable pub set_desired : Desired → Operation (Unit {0})
  set_desired d =
      transact (λ s. with_job (λ j. record s { job = some (record j { desired = d }) }) s.job)

  -- Three statements, in no transaction.
  unfoldable pub delete_job : Operation (Unit {0})
  delete_job = do
    transact (λ s. ok (record s { transitions = [] }))
    transact (λ s. ok (record s { runs = [] }))
    transact (λ s. with_job (λ j. record s { job = none }) s.job)

  abbrev pub prunable : ℤ → JobState → List Run
  prunable keep s = drop (pos_part keep) (newest_first started_text (select is_terminal_run s.runs))

  -- A `keep` of at most zero deletes all terminal runs.
  unfoldable pub prune_terminal_rows : ℤ → Operation (Unit {0})
  prune_terminal_rows keep = transact (λ s. ok (record s {
    runs = delete_runs (prunable keep s) s.runs;
    transitions = select (λ t. not (is_of (prunable keep s) t)) s.transitions;
  }))
