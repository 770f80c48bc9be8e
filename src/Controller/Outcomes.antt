-- ===== src/Controller/Outcomes.antt =====
-- control/store/sqlite.go: what holds after a call, by its outcome.
use weibo.Base.{◌≡◌, ◌≤◌, true, Option, none, some, List, ◌∷◌, ◌++◌, ltb, arith, if_cases}
use weibo.State.{Bytes}
use weibo.Controller.{
  Controller, Run, Transition, JobState, Operation, Result, ok, failed, Error, followed, fail, done,
  tick, unless_error,
}
use weibo.Controller.Store.{
  query, transact, committed, count_active, has_run, checked_runs, inserted, updated, replace,
}

pub data Post {A : Type 0} (Q : A → JobState → Type 0) (E : JobState → Type 0)
    : Result A × JobState → Type 0 where
  on_ok : (a : A) (s : JobState) → Q a s → Post Q E (ok a, s)
  on_failed : (e : Error) (s : JobState) → E s → Post Q E (failed e, s)

-- The same on both outcomes.
abbrev pub Kept : {A : Type 0} → (JobState → Type 0) → Result A × JobState → Type 0
Kept P = Post (λ _. P) P

-- As a predicate on the action.
abbrev pub Does : {A : Type 0} → (JobState → Type 0) → JobState → Operation A → Type 0
Does P s m = Kept P (m s)

pub Post-followed :
    {A B : Type 0} {Q : A → JobState → Type 0} {E : JobState → Type 0} {R : B → JobState → Type 0}
    {F : JobState → Type 0} {r : Result A × JobState} {f : A → Operation B}
    {g : Error → Operation B}
    → Post Q E r
    → ((a : A) (s : JobState) → Q a s → Post R F (f a s))
    → ((e : Error) (s : JobState) → E s → Post R F (g e s))
    → Post R F (followed r f g)
Post-followed (on_ok a s q) hf hg = hf a s q
Post-followed (on_failed e s q) hf hg = hg e s q

-- After a call whose error is returned.
pub Post-then :
    {A B : Type 0} {Q : A → JobState → Type 0} {R : B → JobState → Type 0} {F : JobState → Type 0}
    {r : Result A × JobState} {f : A → Operation B}
    → Post Q F r
    → ((a : A) (s : JobState) → Q a s → Post R F (f a s))
    → Post R F (followed r f fail)
Post-then (on_ok a s q) hf = hf a s q
Post-then (on_failed e s q) hf = on_failed e s q

pub Post-ignore :
    {P : JobState → Type 0} {r : Result (Unit {0}) × JobState}
    → Kept P r
    → Kept P (followed r (λ _. done tt) (λ _. done tt))
Post-ignore (on_ok a s p) = on_ok tt s p
Post-ignore (on_failed e s p) = on_ok tt s p

-- An error is returned whichever of the two outcomes.
pub Post-returns :
    {A : Type 0} {P : JobState → Type 0} {r : Result A × JobState} (e : Error) (g : Error → Error)
    → Kept P r
    → Kept {A = Unit {0}} P (followed r (λ _. fail e) (λ u. fail (g u)))
Post-returns e g (on_ok a s p) = on_failed e s p
Post-returns e g (on_failed u s p) = on_failed (g u) s p

pub Post-state : {A : Type 0} {P : JobState → Type 0} {r : Result A × JobState} → Kept P r → P r.1
Post-state (on_ok a s p) = p
Post-state (on_failed e s p) = p

pub Post-weaken :
    {A : Type 0} {Q R : A → JobState → Type 0} {E F : JobState → Type 0} {r : Result A × JobState}
    → Post Q E r
    → ((a : A) (s : JobState) → Q a s → R a s)
    → ((s : JobState) → E s → F s)
    → Post R F r
Post-weaken (on_ok a s q) hq he = on_ok a s (hq a s q)
Post-weaken (on_failed e s q) hq he = on_failed e s (he s q)

-- The two outcomes, taken apart.
abbrev Told :
    {A : Type 0} → (A → JobState → Type 0) → (JobState → Type 0) → Result A × JobState → Type 0
Told Q E (ok a, s) = Q a s
Told Q E (failed e, s) = E s

Post-outcome :
    {A : Type 0} {Q : A → JobState → Type 0} {E : JobState → Type 0} {r : Result A × JobState}
    → Post Q E r
    → Told Q E r
Post-outcome (on_ok a s q) = q
Post-outcome (on_failed e s q) = q

-- Two accounts of one call.
pub Post-both :
    {A : Type 0} {Q R : A → JobState → Type 0} {E F : JobState → Type 0} {r : Result A × JobState}
    → Post Q E r
    → Post R F r
    → Post (λ a s. Q a s × R a s) (λ s. E s × F s) r
Post-both (on_ok a s q) p = on_ok a s (q, Post-outcome p)
Post-both (on_failed e s q) p = on_failed e s (q, Post-outcome p)

abbrev pub IfOk : (JobState → Type 0) → Result JobState → Type 0
IfOk P (ok s) = P s
IfOk P (failed e) = Unit

committed-Post :
    {Q : Unit {0} → JobState → Type 0} {E : JobState → Type 0} (s : JobState) (r : Result JobState)
    → E (tick s)
    → IfOk (λ s'. Q tt (tick s')) r
    → Post Q E (committed s r)
committed-Post s (ok s') e q = on_ok tt (tick s') q
committed-Post s (failed err) e q = on_failed err (tick s) e

-- A call that may be refused.
pub unless_error-Post :
    {A : Type 0} {Q : A → JobState → Type 0} {E : JobState → Type 0} (kind : Bytes → Error)
    (o : Option Bytes) (r : Result A × JobState) (s : JobState)
    → E s
    → Post Q E r
    → Post Q E (unless_error kind o r s)
unless_error-Post kind none r s e q = q
unless_error-Post kind (some err) r s e q = on_failed (kind err) s e

module _ (c : Controller) where
  pub query-Post :
      {A : Type 0} {Q : A → JobState → Type 0} {E : JobState → Type 0} (f : JobState → A)
      (s : JobState)
      → E (tick s)
      → Q (f s) (tick s)
      → Post Q E (query c f s)
  unfolding query
  query-Post f s e q = unless_error-Post _ _ _ _ e (on_ok (f s) (tick s) q)

  pub transact-Post :
      {Q : Unit {0} → JobState → Type 0} {E : JobState → Type 0} (f : JobState → Result JobState)
      (s : JobState)
      → E (tick s)
      → IfOk (λ s'. Q tt (tick s')) (f s)
      → Post Q E (transact c f s)
  unfolding transact
  transact-Post f s e q = unless_error-Post _ _ _ _ e (committed-Post s (f s) e q)

pub checked-IfOk :
    (P : JobState → Type 0) (runs : List Run) (ts : List Transition) (s : JobState)
    → (count_active runs ≤ 1 → P (record s { runs = runs; transitions = s.transitions ++ ts }))
    → IfOk P (checked_runs runs ts s)
checked-IfOk P runs ts s h =
    if_cases (IfOk P) (ltb 1 (count_active runs)) _ _ (λ _. tt) (λ few. h (ground arith))

pub inserted-IfOk :
    (P : JobState → Type 0) (r : Run) (ts : List Transition) (s : JobState)
    → (count_active (r ∷ s.runs) ≤ 1
        → P (record s { runs = r ∷ s.runs; transitions = s.transitions ++ ts }))
    → IfOk P (inserted r ts s)
inserted-IfOk P r ts s h =
    if_cases (IfOk P) (has_run r.id s.runs) _ _ (λ _. tt) (λ _. checked-IfOk P (r ∷ s.runs) ts s h)

pub updated-IfOk :
    (P : JobState → Type 0) (r : Run) (ts : List Transition) (s : JobState)
    → (has_run r.id s.runs ≡ true
        → count_active (replace r s.runs) ≤ 1
        → P (record s { runs = replace r s.runs; transitions = s.transitions ++ ts }))
    → IfOk P (updated r ts s)
updated-IfOk P r ts s h =
    if_cases (IfOk P) (has_run r.id s.runs) _ _ (λ e. checked-IfOk P (replace r s.runs) ts s (h e))
      (λ _. tt)
