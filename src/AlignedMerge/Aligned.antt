-- ===== src/AlignedMerge/Aligned.antt =====
-- pipeline/markers.go, `alignedMerge`: the order of what goes out, whichever turns the scheduler takes.
use weibo.Base.{
  ℕ, suc, ◌+◌, ◌<◌, ◌≤◌, ◌≡◌, refl, sym, ◌∙◌, ap, subst, ◌⊎◌, inl, inr, Bool, true, false, Option,
  none, some, List, [], ◌∷◌, ◌++◌, All, All-append, map, ltb, length, arith, Bool-cases, if_cases,
}
use weibo.Types.{Record}
use weibo.AlignedMerge.{
  Worker, Merge, Turn, forward, wake, receive, is_marker, internal_buf, forward_at, give, handle,
  queued, woken, step, run, start,
}
use weibo.AlignedMerge.Workers.{
  waiting, waiting-le-length, markers, markers-append, stage_past, stage_past-append, InStep,
  InStep-append, Anywhere, InTurn, IfForwarded, forward_at-Forwarded, IfWoken, wake_at-Woken,
  give-InTurn, waiting-give, length-give, all_empty-waiting,
}

abbrev ends_in_marker : List Record → Bool
ends_in_marker [] = true
ends_in_marker (r ∷ []) = is_marker r
ends_in_marker (r ∷ x ∷ rs) = ends_in_marker (x ∷ rs)

ends_in_marker-append :
    (rs : List Record) (r : Record) → ends_in_marker (rs ++ r ∷ []) ≡ is_marker r
ends_in_marker-append [] r = refl
ends_in_marker-append (x ∷ []) r = refl
ends_in_marker-append (x ∷ y ∷ rs) r = ends_in_marker-append (y ∷ rs) r

ends_in_marker-tail :
    (r : Record) (rs : List Record) → ends_in_marker (r ∷ rs) ≡ true → ends_in_marker rs ≡ true
ends_in_marker-tail r [] h = refl
ends_in_marker-tail r (x ∷ rs) h = h

-- A queue that has no marker, and ends in one, is empty.
no_markers : (rs : List Record) → markers rs ≡ 0 → ends_in_marker rs ≡ true → rs ≡ []
no_markers [] none_left h = refl
no_markers (r ∷ []) none_left h = ground (arith, none_left, h)
no_markers (r ∷ x ∷ rs) none_left h =
    let absurd = no_markers (x ∷ rs) (ground (arith, none_left)) h in cc absurd

module _ (stage : Record → ℕ) (finished : ℕ → Type 0) where
  abbrev pub now : Merge → ℕ
  now s = stage_past 0 s.out

  pub record IsAligned (s : Merge) : Type 0 where
    pub turns : All (InTurn stage finished (now s)) s.workers
    pub queue : All (λ r. stage r ≡ now s) s.fan_in
    pub out_in_step : InStep stage Anywhere 0 s.out
    pub counted : s.arrived + markers s.fan_in ≡ waiting s.workers
    pub below : s.arrived < length s.workers
    pub last : (waiting s.workers < length s.workers) ⊎ (ends_in_marker s.fan_in ≡ true)

  abbrev IfAligned : Option Merge → Type 0
  IfAligned none = Unit
  IfAligned (some s) = IsAligned s

  queued-IsAligned :
      (s : Merge) (o : Option (Record × List Worker))
      → IsAligned s
      → IfForwarded stage finished (now s) s.workers o
      → IfAligned (queued s o)
  queued-IsAligned s none h k = tt
  queued-IsAligned s (some (r, ws)) h k = record {
    turns = k.turns;
    queue = All-append _ s.fan_in (r ∷ []) h.queue (k.staged, tt);
    out_in_step = h.out_in_step;
    counted = omega (arith, markers-append s.fan_in (r ∷ []), h.counted, k.more_wait);
    below = omega (arith, h.below, k.same_length);
    last = elim (Bool-cases (is_marker r)) [
      | inl e ↦ inr (ends_in_marker-append s.fan_in r ∙ e)
      | inr e ↦ inl (k.data_last e)
    ];
  }

  woken-IsAligned :
      (s : Merge) (o : Option (List Worker))
      → IsAligned s
      → IfWoken stage finished (now s) s.workers o
      → IfAligned (woken s o)
  woken-IsAligned s none h k = tt
  woken-IsAligned s (some ws) h k = record {
    turns = k.turns;
    queue = h.queue;
    out_in_step = h.out_in_step;
    counted = h.counted ∙ sym k.same_wait;
    below = omega (arith, h.below, k.same_length);
    last = elim h.last [
      | inl some_run ↦ inl (omega (arith, some_run, k.same_wait, k.same_length))
      | inr e ↦ inr e
    ];
  }

  -- The loop passes a data record on.
  data-IsAligned :
      (r : Record) (rest : List Record) (s : Merge)
      → IsAligned s
      → s.fan_in ≡ r ∷ rest
      → is_marker r ≡ false
      → IsAligned (record s { fan_in = rest; out = s.out ++ r ∷ [] })
  data-IsAligned r rest s h e plain =
      let queue : All (λ x. stage x ≡ now s) (r ∷ rest) = (rw e at h.queue) in
      let counted : s.arrived + markers (r ∷ rest) ≡ waiting s.workers = (rw e at h.counted) in
      let same : stage_past 0 (s.out ++ r ∷ []) ≡ now s =
        rw (stage_past-append 0 s.out (r ∷ []), plain) refl in
      record {
        turns = rw same h.turns;
        queue = rw same queue.1;
        out_in_step = InStep-append stage 0 s.out (r ∷ []) h.out_in_step (queue.0, tt);
        counted = ground (arith, counted, plain);
        below = h.below;
        last = elim h.last [
          | inl some_run ↦ inl some_run
          | inr ends ↦ inr (ends_in_marker-tail r rest (rw e at ends))
        ];
      }

  -- The loop holds a copy of a marker back.
  hold-IsAligned :
      (r : Record) (rest : List Record) (s : Merge)
      → IsAligned s
      → s.fan_in ≡ r ∷ rest
      → is_marker r ≡ true
      → s.arrived + 1 < length s.workers
      → IsAligned (record s { fan_in = rest; arrived = s.arrived + 1 })
  hold-IsAligned r rest s h e marked more =
      let queue : All (λ x. stage x ≡ now s) (r ∷ rest) = (rw e at h.queue) in
      let counted : s.arrived + markers (r ∷ rest) ≡ waiting s.workers = (rw e at h.counted) in
      record {
        turns = h.turns;
        queue = queue.1;
        out_in_step = h.out_in_step;
        counted = ground (arith, counted, marked);
        below = more;
        last = elim h.last [
          | inl some_run ↦ inl some_run
          | inr ends ↦ inr (ends_in_marker-tail r rest (rw e at ends))
        ];
      }

  -- The last copy of a marker finds all workers waiting.
  pub record AtLast (rest : List Record) (s : Merge) : Type 0 where
    pub all_wait : waiting s.workers ≡ length s.workers
    pub nothing_left : rest ≡ []

  pub at_last :
      (r : Record) (rest : List Record) (s : Merge)
      → IsAligned s
      → s.fan_in ≡ r ∷ rest
      → is_marker r ≡ true
      → ltb (s.arrived + 1) (length s.workers) ≡ false
      → AtLast rest s
  at_last r rest s h e marked full =
      let counted : s.arrived + markers (r ∷ rest) ≡ waiting s.workers = (rw e at h.counted) in
      let bound = waiting-le-length s.workers in
      let all_wait : waiting s.workers ≡ length s.workers =
        ground (arith, counted, bound, full, marked) in
      record {
        all_wait = all_wait;
        nothing_left = elim h.last [
          | inl some_run ↦ ground (arith, some_run, all_wait)
          | inr ends ↦
              no_markers rest (ground (arith, counted, bound, full, marked))
                (ends_in_marker-tail r rest (rw e at ends))
        ];
      }

  release-IsAligned :
      (r : Record) (rest : List Record) (s : Merge)
      → IsAligned s
      → s.fan_in ≡ r ∷ rest
      → is_marker r ≡ true
      → ltb (s.arrived + 1) (length s.workers) ≡ false
      → IsAligned (record {
        workers = map give s.workers;
        fan_in = rest;
        arrived = 0;
        out = s.out ++ r ∷ [];
      })
  release-IsAligned r rest s h e marked full =
      let queue : All (λ x. stage x ≡ now s) (r ∷ rest) = (rw e at h.queue) in
      let last = at_last r rest s h e marked full in
      let next : stage_past 0 (s.out ++ r ∷ []) ≡ suc (now s) =
        rw (stage_past-append 0 s.out (r ∷ []), marked) refl in
      record {
        turns = rw next (give-InTurn stage finished (now s) s.workers last.all_wait h.turns);
        queue = rw last.nothing_left tt;
        out_in_step = InStep-append stage 0 s.out (r ∷ []) h.out_in_step (queue.0, tt);
        counted = rw (last.nothing_left, waiting-give s.workers) refl;
        below = omega (arith, length-give s.workers, h.below);
        last = inr (rw last.nothing_left refl);
      }

  handle-IsAligned :
      (queue : List Record) (s : Merge)
      → IsAligned s
      → s.fan_in ≡ queue
      → IfAligned (handle queue s)
  handle-IsAligned [] s h e = tt
  handle-IsAligned (r ∷ rest) s h e = elim (Bool-cases (is_marker r)) [
    | inr plain ↦ simp plain (data-IsAligned r rest s h e plain)
    | inl marked ↦ elim (Bool-cases (ltb (s.arrived + 1) (length s.workers))) [
      | inl more ↦ simp (marked, more) (hold-IsAligned r rest s h e marked (ground (arith, more)))
      | inr full ↦
          simp
            (marked, full, all_empty-waiting s.workers (at_last r rest s h e marked full).all_wait)
            (release-IsAligned r rest s h e marked full)
    ]
  ]

  step-IsAligned : (t : Turn) (s : Merge) → IsAligned s → IfAligned (step t s)
  unfolding step
  step-IsAligned (forward k) s h =
      if_cases IfAligned (ltb (length s.fan_in) internal_buf) (queued s (forward_at k s.workers))
        none
        (λ _.
          queued-IsAligned s _ h (forward_at-Forwarded stage finished (now s) k s.workers h.turns))
        (λ _. tt)
  step-IsAligned (wake k) s h =
      woken-IsAligned s _ h (wake_at-Woken stage finished (now s) k s.workers h.turns)
  step-IsAligned receive s h = handle-IsAligned s.fan_in s h refl

  then-IsAligned :
      (ts : List Turn) (o : Option Merge)
      → IfAligned o
      → ((s : Merge) → IsAligned s → IfAligned (run ts s))
      → IfAligned (elim o [ none ↦ none | some s ↦ run ts s ])
  then-IsAligned ts none h next = tt
  then-IsAligned ts (some s) h next = next s h

  run-IsAligned : (ts : List Turn) (s : Merge) → IsAligned s → IfAligned (run ts s)
  unfolding run
  run-IsAligned [] s h = h
  run-IsAligned (t ∷ ts) s h =
      then-IsAligned ts (step t s) (step-IsAligned t s h) (λ s' k. run-IsAligned ts s' k)

  new-InTurn :
      (outputs : List (List Record))
      → All (InStep stage finished 0) outputs
      → All (InTurn stage finished 0) (start outputs).workers
  unfolding start
  new-InTurn [] h = tt
  new-InTurn (o ∷ os) h = (record { output_in_step = h.0; no_token = λ _. refl }, new-InTurn os h.1)

  new-waiting : (outputs : List (List Record)) → waiting (start outputs).workers ≡ 0
  unfolding start
  new-waiting [] = refl
  new-waiting (o ∷ os) = ground (arith, new-waiting os)

  new-length : (outputs : List (List Record)) → length (start outputs).workers ≡ length outputs
  unfolding start
  new-length [] = refl
  new-length (o ∷ os) = ap suc (new-length os)

  start-IsAligned :
      (outputs : List (List Record))
      → 1 ≤ length outputs
      → All (InStep stage finished 0) outputs
      → IsAligned (start outputs)
  unfolding start
  start-IsAligned outputs some_worker h = record {
    turns = new-InTurn outputs h;
    queue = tt;
    out_in_step = tt;
    counted = omega (arith, new-waiting outputs);
    below = omega (arith, new-length outputs, some_worker);
    last = inr refl;
  }

  pub reached-IsAligned :
      (outputs : List (List Record)) (ts : List Turn) (s : Merge)
      → 1 ≤ length outputs
      → All (InStep stage finished 0) outputs
      → run ts (start outputs) ≡ some s
      → IsAligned s
  reached-IsAligned outputs ts s some_worker h e =
      subst IfAligned e (run-IsAligned ts (start outputs) (start-IsAligned outputs some_worker h))

-- Where stages label the records so that, in the output of each of at least one worker, the stage of a
-- record is the number of markers before it: after any turns the same holds of what has gone out.
pub merge-InStep :
    (stage : Record → ℕ) (outputs : List (List Record)) (ts : List Turn) (s : Merge)
    → 1 ≤ length outputs
    → All (InStep stage Anywhere 0) outputs
    → run ts (start outputs) ≡ some s
    → InStep stage Anywhere 0 s.out
merge-InStep stage outputs ts s some_worker h e =
    (reached-IsAligned stage Anywhere outputs ts s some_worker h e).out_in_step
