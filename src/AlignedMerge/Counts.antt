-- ===== src/AlignedMerge/Counts.antt =====
-- pipeline/markers.go, `alignedMerge`: how many records are where, and how many turns are left.
use weibo.Base.{
  ℕ, zero, suc, ◌+◌, ◌*◌, ◌≤◌, ◌≡◌, refl, ◌∙◌, ap, subst, inl, inr, Bool, true, false, Option, none,
  some, List, [], ◌∷◌, ◌++◌, All, map, ltb, length, length-append, arith, Bool-cases, if_cases,
}
use weibo.Types.{Record}
use weibo.AlignedMerge.{
  Worker, Merge, Turn, forward, wake, receive, is_marker, internal_buf, forwarded, forward_at,
  then_rest, in_front, wake_at, cons_some, all_empty, give, handle, queued, woken, step, run, start,
}
use weibo.AlignedMerge.Workers.{one}
use weibo.AlignedMerge.Progress.{Drained, IsDone}

abbrev pub count : (Record → Bool) → List Record → ℕ
count p [] = 0
count p (r ∷ rs) = one (p r) + count p rs

count-append :
    (p : Record → Bool) (rs ts : List Record) → count p (rs ++ ts) ≡ count p rs + count p ts
count-append p [] ts = omega arith
count-append p (r ∷ rs) ts = omega (arith, count-append p rs ts)

abbrev pub count_all : (Record → Bool) → List (List Record) → ℕ
count_all p [] = 0
count_all p (rs ∷ rss) = count p rs + count_all p rss

abbrev pending : (Record → Bool) → List Worker → ℕ
pending p [] = 0
pending p (w ∷ ws) = count p w.output + pending p ws

-- What is still to be done by the workers: four turns for a record, one for waking.
abbrev work : List Worker → ℕ
work [] = 0
work (w ∷ ws) = 4 * length w.output + one w.parked + work ws

-- A record moves from a worker to the queue.
record Moved (p : Record → Bool) (ws : List Worker) (r : Record) (ws' : List Worker) : Type 0 where
  same_pending : pending p ws ≡ one (p r) + pending p ws'
  less_work : work ws' + 3 ≤ work ws

abbrev IfMoved : (Record → Bool) → List Worker → Option (Record × List Worker) → Type 0
IfMoved p ws none = Unit
IfMoved p ws (some (r, ws')) = Moved p ws r ws'

abbrev Roused : (Record → Bool) → List Worker → List Worker → Type 0
Roused p ws ws' = (pending p ws' ≡ pending p ws) × (work ws' + 1 ≤ work ws)

abbrev IfRoused : (Record → Bool) → List Worker → Option (List Worker) → Type 0
IfRoused p ws none = Unit
IfRoused p ws (some ws') = Roused p ws ws'

module _ (p : Record → Bool) where
  moved_first :
      (w : Worker) (ws : List Worker) (output : List Record)
      → w.parked ≡ false
      → w.output ≡ output
      → IfMoved p (w ∷ ws) (then_rest ws (forwarded output w))
  moved_first w ws [] idle o = tt
  moved_first w ws (r ∷ rest) idle o = record {
    same_pending = rw o (omega arith);
    less_work = rw (o, idle) (ground arith);
  }

  in_front-Moved :
      (w : Worker) (ws : List Worker) (o : Option (Record × List Worker))
      → IfMoved p ws o
      → IfMoved p (w ∷ ws) (in_front w o)
  in_front-Moved w ws none h = tt
  in_front-Moved w ws (some (r, ws')) h = record {
    same_pending = omega (arith, h.same_pending);
    less_work = omega (arith, h.less_work);
  }

  forward_at-Moved : (k : ℕ) (ws : List Worker) → IfMoved p ws (forward_at k ws)
  unfolding forward_at
  forward_at-Moved k [] = tt
  forward_at-Moved zero (w ∷ ws) = elim (Bool-cases w.parked) [
    | inl parked ↦ simp parked tt
    | inr idle ↦ simp idle (moved_first w ws w.output idle refl)
  ]
  forward_at-Moved (suc k) (w ∷ ws) = in_front-Moved w ws (forward_at k ws) (forward_at-Moved k ws)

  cons_some-Roused :
      (w : Worker) (ws : List Worker) (o : Option (List Worker))
      → IfRoused p ws o
      → IfRoused p (w ∷ ws) (cons_some w o)
  cons_some-Roused w ws none h = tt
  cons_some-Roused w ws (some ws') h = (omega (arith, h.0), omega (arith, h.1))

  wake_at-Roused : (k : ℕ) (ws : List Worker) → IfRoused p ws (wake_at k ws)
  unfolding wake_at
  wake_at-Roused k [] = tt
  wake_at-Roused zero (w ∷ ws) = elim (Bool-cases w.parked) [
    | inr idle ↦ simp idle tt
    | inl parked ↦ elim (Bool-cases w.resume) [
      | inr empty ↦ simp (parked, empty) tt
      | inl token ↦ simp (parked, token) ((refl, ground (arith, parked)))
    ]
  ]
  wake_at-Roused (suc k) (w ∷ ws) = cons_some-Roused w ws (wake_at k ws) (wake_at-Roused k ws)

  give-same :
      (ws : List Worker) → (pending p (map give ws) ≡ pending p ws) × (work (map give ws) ≡ work ws)
  give-same [] = (refl, refl)
  give-same (w ∷ ws) = (omega (arith, (give-same ws).0), omega (arith, (give-same ws).1))

  -- How many records satisfy the test, and a bound on the turns to come.
  abbrev held : Merge → ℕ
  held s = pending p s.workers + count p s.fan_in + count p s.out

  abbrev effort : Merge → ℕ
  effort s = work s.workers + length s.fan_in

  abbrev Counted : Merge → Merge → Type 0
  Counted s s' = (held s' ≡ held s) × (effort s' + 1 ≤ effort s)

  abbrev IfCounted : Merge → Option Merge → Type 0
  IfCounted s none = Unit
  IfCounted s (some s') = Counted s s'

  -- Only data records pass the test.
  abbrev OnlyData : Type 0
  OnlyData = (r : Record) → is_marker r ≡ true → p r ≡ false

  queued-Counted :
      (s : Merge) (o : Option (Record × List Worker))
      → IfMoved p s.workers o
      → IfCounted s (queued s o)
  queued-Counted s none h = tt
  queued-Counted s (some (r, ws)) h = (
    omega (arith, count-append p s.fan_in (r ∷ []), h.same_pending),
    omega (arith, length-append s.fan_in (r ∷ []), h.less_work),
  )

  woken-Counted :
      (s : Merge) (o : Option (List Worker)) → IfRoused p s.workers o → IfCounted s (woken s o)
  woken-Counted s none h = tt
  woken-Counted s (some ws) h = (omega (arith, h.0), omega (arith, h.1))

  handle-Counted :
      (queue : List Record) (s : Merge) → OnlyData → s.fan_in ≡ queue → IfCounted s (handle queue s)
  handle-Counted [] s only e = tt
  handle-Counted (r ∷ rest) s only e =
      let counts : count p s.fan_in ≡ one (p r) + count p rest = ap (count p) e in
      let lengths : length s.fan_in ≡ suc (length rest) = ap length e in
      let sent = count-append p s.out (r ∷ []) in
      elim (Bool-cases (is_marker r)) [
        | inr plain ↦ simp plain ((omega (arith, counts, sent), omega (arith, lengths)))
        | inl marked ↦
            let dropped = only r marked in
            elim (Bool-cases (ltb (s.arrived + 1) (length s.workers))) [
              | inl more ↦
                  simp (marked, more) ((ground (arith, counts, dropped), omega (arith, lengths)))
              | inr full ↦ elim (Bool-cases (all_empty s.workers)) [
                | inl empty ↦
                    simp (marked, full, empty)
                      ((
                        ground (arith, counts, dropped, sent, (give-same s.workers).0),
                        omega (arith, lengths, (give-same s.workers).1),
                      ))
                | inr blocked ↦ simp (marked, full, blocked) tt
              ]
            ]
      ]

  step-Counted : (t : Turn) (s : Merge) → OnlyData → IfCounted s (step t s)
  unfolding step
  step-Counted (forward k) s only =
      if_cases (IfCounted s) (ltb (length s.fan_in) internal_buf)
        (queued s (forward_at k s.workers)) none
        (λ _. queued-Counted s _ (forward_at-Moved k s.workers)) (λ _. tt)
  step-Counted (wake k) s only = woken-Counted s _ (wake_at-Roused k s.workers)
  step-Counted receive s only = handle-Counted s.fan_in s only refl

  abbrev IfRan : Merge → ℕ → Option Merge → Type 0
  IfRan s n none = Unit
  IfRan s n (some s') = (held s' ≡ held s) × (n + effort s' ≤ effort s)

  then_ran :
      (ts : List Turn) (s : Merge) (o : Option Merge)
      → IfCounted s o
      → ((s' : Merge) → IfRan s' (length ts) (run ts s'))
      → IfRan s (suc (length ts)) (elim o [ none ↦ none | some s' ↦ run ts s' ])
  then_ran ts s none h next = tt
  then_ran ts s (some s') h next = add_turn (run ts s') (next s')
    where
      add_turn : (o : Option Merge) → IfRan s' (length ts) o → IfRan s (suc (length ts)) o
      add_turn none k = tt
      add_turn (some s'') k = (k.0 ∙ h.0, omega (arith, k.1, h.1))

  run-IfRan : (ts : List Turn) (s : Merge) → OnlyData → IfRan s (length ts) (run ts s)
  unfolding run
  run-IfRan [] s only = (refl, omega arith)
  run-IfRan (t ∷ ts) s only =
      then_ran ts s (step t s) (step-Counted t s only) (λ s'. run-IfRan ts s' only)

  Drained-pending : (ws : List Worker) → All Drained ws → pending p ws ≡ 0
  Drained-pending [] h = refl
  Drained-pending (w ∷ ws) h = rw h.0.1 (omega (arith, Drained-pending ws h.1))

  start-pending :
      (outputs : List (List Record)) → pending p (start outputs).workers ≡ count_all p outputs
  unfolding start
  start-pending [] = refl
  start-pending (o ∷ os) = omega (arith, start-pending os)

-- Where a test accepts data records only, and all outputs have been read and have gone out: as many records
-- that pass it have gone out as the workers had in all.
pub merge_keeps_all :
    (p : Record → Bool) (outputs : List (List Record)) (ts : List Turn) (s : Merge)
    → ((r : Record) → is_marker r ≡ true → p r ≡ false)
    → run ts (start outputs) ≡ some s
    → IsDone s
    → count p s.out ≡ count_all p outputs
unfolding start
merge_keeps_all p outputs ts s only e finished =
    let ran = subst (IfRan p (start outputs) (length ts)) e (run-IfRan p ts (start outputs) only) in
    let queue_empty : count p s.fan_in ≡ 0 = ap (count p) finished.0 in
    omega
      (arith, ran.0, queue_empty, Drained-pending p s.workers finished.1, start-pending p outputs)

abbrev nothing : Record → Bool
nothing r = false

abbrev pub total : List (List Record) → ℕ
total [] = 0
total (rs ∷ rss) = length rs + total rss

start-work : (outputs : List (List Record)) → work (start outputs).workers ≡ 4 * total outputs
unfolding start
start-work [] = refl
start-work (o ∷ os) = omega (arith, start-work os)

-- No run takes more than four turns for each record of the workers.
pub merge_ends :
    (outputs : List (List Record)) (ts : List Turn) (s : Merge)
    → run ts (start outputs) ≡ some s
    → length ts ≤ 4 * total outputs
unfolding start
merge_ends outputs ts s e =
    let ran =
      subst (IfRan nothing (start outputs) (length ts)) e
        (run-IfRan nothing ts (start outputs) (λ r marked. refl)) in
    omega (arith, ran.1, start-work outputs)
