-- ===== src/AlignedMerge/Progress.antt =====
-- pipeline/markers.go, `alignedMerge`: that the turns neither block for ever nor go on for ever.
use weibo.Base.{
  ℕ, zero, suc, ◌+◌, ◌<◌, ◌≤◌, ◌≡◌, ◌≢◌, refl, ◌⊎◌, inl, inr, true, false, Option, none, some, List,
  [], ◌∷◌, All, ltb, length, arith, Bool-cases,
}
use weibo.Types.{Record}
use weibo.AlignedMerge.{
  Worker, Merge, Turn, forward, wake, receive, is_marker, forward_at, in_front, wake_at, cons_some,
  handle, queued, woken, step, run, start,
}
use weibo.AlignedMerge.Workers.{waits, waiting, next_stage, InStep, InTurn, all_empty-waiting}
use weibo.AlignedMerge.Aligned.{IsAligned, now, at_last, reached-IsAligned}

-- A worker that has nothing left, or waits for the others.
abbrev pub Drained : Worker → Type 0
Drained w = (w.parked ≡ false) × (w.output ≡ [])

abbrev Stuck : Worker → Type 0
Stuck w = Drained w ⊎ (waits w ≡ true)

abbrev pub IsDone : Merge → Type 0
IsDone s = (s.fan_in ≡ []) × All Drained s.workers

abbrev CanForward : List Worker → Type 0
CanForward ws = (k : ℕ) × (forward_at k ws ≢ none)

abbrev CanWake : List Worker → Type 0
CanWake ws = (k : ℕ) × (wake_at k ws ≢ none)

in_front-goes_on : (w : Worker) (o : Option (Record × List Worker)) → o ≢ none → in_front w o ≢ none
in_front-goes_on w none h e = h refl
in_front-goes_on w (some (r, ws)) h e = cc e

cons_some-goes_on : (w : Worker) (o : Option (List Worker)) → o ≢ none → cons_some w o ≢ none
cons_some-goes_on w none h e = h refl
cons_some-goes_on w (some ws) h e = cc e

later_forward : (w : Worker) (ws : List Worker) → CanForward ws → CanForward (w ∷ ws)
unfolding forward_at
later_forward w ws (k, h) = (suc k, in_front-goes_on w (forward_at k ws) h)

later_wake : (w : Worker) (ws : List Worker) → CanWake ws → CanWake (w ∷ ws)
unfolding wake_at
later_wake w ws (k, h) = (suc k, cons_some-goes_on w (wake_at k ws) h)

idle_turn :
    (w : Worker) (ws : List Worker) (output : List Record)
    → w.parked ≡ false
    → w.output ≡ output
    → CanForward (w ∷ ws) ⊎ Stuck w
unfolding forward_at
idle_turn w ws [] idle o = inr (inl (idle, o))
idle_turn w ws (r ∷ rest) idle o = inl (zero, simp (idle, o) (λ e. cc e))

parked_turn : (w : Worker) (ws : List Worker) → w.parked ≡ true → CanWake (w ∷ ws) ⊎ Stuck w
unfolding wake_at
parked_turn w ws parked = elim (Bool-cases w.resume) [
  | inl token ↦ inl (zero, simp (parked, token) (λ e. cc e))
  | inr empty ↦ inr (inr (rw (parked, empty) refl))
]

-- The turn of one worker.
first_turn : (w : Worker) (ws : List Worker) → CanForward (w ∷ ws) ⊎ CanWake (w ∷ ws) ⊎ Stuck w
first_turn w ws = elim (Bool-cases w.parked) [
  | inl parked ↦ inr (parked_turn w ws parked)
  | inr idle ↦ elim (idle_turn w ws w.output idle refl) [
    | inl c ↦ inl c
    | inr stuck ↦ inr (inr stuck)
  ]
]

turn-Stuck : (ws : List Worker) → CanForward ws ⊎ CanWake ws ⊎ All Stuck ws
turn-Stuck [] = inr (inr tt)
turn-Stuck (w ∷ ws) = elim (first_turn w ws) [
  | inl c ↦ inl c
  | inr (inl c) ↦ inr (inl c)
  | inr (inr stuck) ↦ elim (turn-Stuck ws) [
    | inl c ↦ inl (later_forward w ws c)
    | inr (inl c) ↦ inr (inl (later_wake w ws c))
    | inr (inr rest) ↦ inr (inr (stuck, rest))
  ]
]

-- Stages only grow.
stage-le :
    (stage : Record → ℕ) (m e : ℕ) (rs : List Record) → InStep stage (λ x. x ≡ m) e rs → e ≤ m
stage-le stage m e [] h = omega (arith, h)
stage-le stage m e (r ∷ rs) h = ground (arith, stage-le stage m (next_stage (is_marker r) e) rs h.1)

module _ (stage : Record → ℕ) (m : ℕ) where
  abbrev AtEnd : ℕ → Type 0
  AtEnd e = e ≡ m

  Drained-AtEnd : (e : ℕ) (w : Worker) → InTurn stage AtEnd e w → Drained w → e ≡ m
  Drained-AtEnd e w h d =
      let output : InStep stage AtEnd (next_stage (waits w) e) [] = (rw d.1 at h.output_in_step) in
      (rw d.0 at output)

  waits-before_end : (e : ℕ) (w : Worker) → InTurn stage AtEnd e w → waits w ≡ true → e < m
  waits-before_end e w h waiting_now =
      let output : InStep stage AtEnd (suc e) w.output = (rw waiting_now at h.output_in_step) in
      omega (arith, stage-le stage m (suc e) w.output output)

  one_runs :
      (e : ℕ) (ws : List Worker)
      → All (InTurn stage AtEnd e) ws
      → All Stuck ws
      → waiting ws < length ws
      → e ≡ m
  one_runs e [] h k some_run = ground (arith, some_run)
  one_runs e (w ∷ ws) h k some_run = elim k.0 [
    | inl drained ↦ Drained-AtEnd e w h.0 drained
    | inr waiting_now ↦ one_runs e ws h.1 k.1 (ground (arith, some_run, waiting_now))
  ]

  all-Drained :
      (e : ℕ) (ws : List Worker)
      → All (InTurn stage AtEnd e) ws
      → All Stuck ws
      → e ≡ m
      → All Drained ws
  all-Drained e [] h k same = tt
  all-Drained e (w ∷ ws) h k same = (
    elim k.0 [
      | inl drained ↦ drained
      | inr waiting_now ↦ ground (arith, same, waits-before_end e w h.0 waiting_now)
    ],
    all-Drained e ws h.1 k.1 same,
  )

  -- The loop never blocks on a token.
  handle-goes_on :
      (r : Record) (rest : List Record) (s : Merge)
      → IsAligned stage AtEnd s
      → s.fan_in ≡ r ∷ rest
      → handle (r ∷ rest) s ≢ none
  handle-goes_on r rest s h e = elim (Bool-cases (is_marker r)) [
    | inr plain ↦ simp plain (λ g. cc g)
    | inl marked ↦ elim (Bool-cases (ltb (s.arrived + 1) (length s.workers))) [
      | inl more ↦ simp (marked, more) (λ g. cc g)
      | inr full ↦
          simp
            (
              marked,
              full,
              all_empty-waiting s.workers (at_last stage AtEnd r rest s h e marked full).all_wait,
            )
            (λ g. cc g)
    ]
  ]

  queued-goes_on : (s : Merge) (o : Option (Record × List Worker)) → o ≢ none → queued s o ≢ none
  queued-goes_on s none h e = h refl
  queued-goes_on s (some (r, ws)) h e = cc e

  woken-goes_on : (s : Merge) (o : Option (List Worker)) → o ≢ none → woken s o ≢ none
  woken-goes_on s none h e = h refl
  woken-goes_on s (some ws) h e = cc e

  empty_queue :
      (s : Merge)
      → IsAligned stage AtEnd s
      → s.fan_in ≡ []
      → IsDone s ⊎ (t : Turn) × (step t s ≢ none)
  unfolding step
  empty_queue s h e = elim (turn-Stuck s.workers) [
    | inl (k, can) ↦ inr (forward k, simp e (queued-goes_on s (forward_at k s.workers) can))
    | inr (inl (k, can)) ↦ inr (wake k, woken-goes_on s (wake_at k s.workers) can)
    | inr (inr stuck) ↦
        let counted : s.arrived + 0 ≡ waiting s.workers = (rw e at h.counted) in
        let same =
          one_runs (now stage AtEnd s) s.workers h.turns stuck (omega (arith, counted, h.below)) in
        inl (e, all-Drained (now stage AtEnd s) s.workers h.turns stuck same)
  ]

  some_queue :
      (queue : List Record) (s : Merge)
      → IsAligned stage AtEnd s
      → s.fan_in ≡ queue
      → IsDone s ⊎ (t : Turn) × (step t s ≢ none)
  unfolding step
  some_queue [] s h e = empty_queue s h e
  some_queue (r ∷ rest) s h e = inr (receive, rw e (handle-goes_on r rest s h e))

  -- Where, in the output of each of at least one worker, the stage of a record is the number of markers
  -- before it, and each output has the same number of markers: after any turns all has been read and has
  -- gone out, or some turn is not blocked.
  pub merge_goes_on :
      (outputs : List (List Record)) (ts : List Turn) (s : Merge)
      → 1 ≤ length outputs
      → All (InStep stage AtEnd 0) outputs
      → run ts (start outputs) ≡ some s
      → IsDone s ⊎ (t : Turn) × (step t s ≢ none)
  merge_goes_on outputs ts s some_worker h e =
      some_queue s.fan_in s (reached-IsAligned stage AtEnd outputs ts s some_worker h e) refl
