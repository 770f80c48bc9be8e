-- ===== src/BatchWriter/Flushed.antt =====
-- sink/batch.go: what has been flushed when the loop returns without an error.
use mathlib.Core.List.{append-nil, append_assoc}
use weibo.Base.{
  ◌≡◌, ◌⊎◌, refl, sym, ◌∙◌, ap, subst, inl, inr, Bool, true, false, not, ◌||◌, List, [], ◌∷◌, ◌++◌,
  if◌then◌else◌, Bool-cases, if_cases, ℕ, ◌<◌, length, length-append, arith, ltb,
}
use weibo.Types.{Record}
use weibo.BatchWriter.{
  Converted, convert_error, skipped, entry, BatchWriter, Batching, Event, received, closed,
  cancelled, tick, background_error, Outcome, finished, context_error, failed, blocked, add_entry,
  add, is_full, flush_items, do_flush, drain, finish, shut_down, run,
}

abbrev pub concat : {T : Type 0} → List (List T) → List T
concat [] = []
concat (xs ∷ xss) = xs ++ concat xss

concat-append :
    {T : Type 0} (xss yss : List (List T)) → concat (xss ++ yss) ≡ concat xss ++ concat yss
concat-append [] yss = refl
concat-append (xs ∷ xss) yss =
    ap (λ x. xs ++ x) (concat-append xss yss) ∙ sym (append_assoc xs (concat xss) (concat yss))

module _ {T : Type 0} (w : BatchWriter T) where
  abbrev pub entry_of : Converted T → List T
  entry_of convert_error = []
  entry_of skipped = []
  entry_of (entry x) = x ∷ []

  -- The entries of the records up to the end of the input.
  abbrev pub accepted : List Event → List T
  accepted [] = []
  accepted (received r ∷ es) = entry_of (w.convert r) ++ accepted es
  accepted (closed c ∷ es) = []
  accepted (cancelled ∷ es) = accepted es
  accepted (tick ∷ es) = accepted es
  accepted (background_error ∷ es) = accepted es

  -- All entries that the loop has had.
  abbrev pub entries : Batching T → List T
  entries s = concat s.flushed ++ s.batch

  -- Each call of `flush` so far has succeeded.
  abbrev pub AllFlushesOk : Batching T → Type 0
  AllFlushesOk s = (n : ℕ) → n < length s.flushed → w.flush_ok n ≡ true

  -- A flush that has failed is known: its error waits.
  abbrev Reports : Batching T → Type 0
  Reports s = s.waiting_error ≡ false → AllFlushesOk s

  one_more_ok :
      (s : Batching T) (items : List T)
      → AllFlushesOk s
      → w.flush_ok (length s.flushed) ≡ true
      → (n : ℕ) → n < length (s.flushed ++ items ∷ [])
      → w.flush_ok n ≡ true
  one_more_ok s items h ok n below =
      let len = length-append s.flushed (items ∷ []) in
      elim (Bool-cases (ltb n (length s.flushed))) [
        | inl earlier ↦ h n (ground (arith, earlier))
        | inr last ↦
            let this : n ≡ length s.flushed = ground (arith, len, below, last) in rw this ok
      ]

  flush_items-Reports :
      (items : List T) (s : Batching T)
      → Reports s
      → (flush_items w items s).0 ≡ true
      → Reports (flush_items w items s).1
  flush_items-Reports [] s h = λ ok. h
  flush_items-Reports (x ∷ xs) s h =
      let ok = w.flush_ok (length s.flushed) in
      let s' : Batching T = record s { batch = []; flushed = s.flushed ++ (x ∷ xs) ∷ [] } in
      if_cases (λ (r : Bool × Batching T). r.0 ≡ true → Reports r.1) w.async
        (true, record s' { waiting_error = s.waiting_error || not ok }) (ok, s')
        (λ _ _ quiet. one_more_ok s (x ∷ xs) (h (ground (arith, quiet))) (ground (arith, quiet)))
        (λ _ done quiet. one_more_ok s (x ∷ xs) (h quiet) done)

  do_flush-Reports :
      (s : Batching T) → Reports s → (do_flush w s).0 ≡ true → Reports (do_flush w s).1
  unfolding do_flush
  do_flush-Reports s h ok = flush_items-Reports s.batch s h ok

  add_entry-Reports : (c : Converted T) (s : Batching T) → Reports s → Reports (add_entry w c s).1
  add_entry-Reports convert_error s h = h
  add_entry-Reports skipped s h = h
  add_entry-Reports (entry x) s h = h

  flush_items-entries :
      (items : List T) (s : Batching T)
      → s.batch ≡ items
      → (entries (flush_items w items s).1 ≡ entries s) × ((flush_items w items s).1.batch ≡ [])
  flush_items-entries [] s e = (refl, e)
  flush_items-entries (x ∷ xs) s e =
      let all : concat (s.flushed ++ (x ∷ xs) ∷ []) ++ [] ≡ entries s =
        append-nil _
        ∙ concat-append s.flushed ((x ∷ xs) ∷ [])
        ∙ ap (λ y. concat s.flushed ++ y) (append-nil (x ∷ xs) ∙ sym e) in
      elim (Bool-cases w.async) [ inl a ↦ simp a ((all, refl)) | inr a ↦ simp a ((all, refl)) ]

  do_flush-entries :
      (s : Batching T) → (entries (do_flush w s).1 ≡ entries s) × ((do_flush w s).1.batch ≡ [])
  unfolding do_flush
  do_flush-entries s = flush_items-entries s.batch s refl

  add_entry-entries :
      (c : Converted T) (s : Batching T) → entries (add_entry w c s).1 ≡ entries s ++ entry_of c
  add_entry-entries convert_error s = sym (append-nil (entries s))
  add_entry-entries skipped s = sym (append-nil (entries s))
  add_entry-entries (entry x) s = sym (append_assoc (concat s.flushed) s.batch (x ∷ []))

  abbrev Ended : List T → Outcome × Batching T → Type 0
  Ended all (finished, s) = (concat s.flushed ≡ all) × (s.batch ≡ []) × AllFlushesOk s
  Ended all (context_error, s) = (concat s.flushed ≡ all) × (s.batch ≡ []) × AllFlushesOk s
  Ended all (failed, s) = Unit
  Ended all (blocked, s) = Unit

  finish-Ended :
      (context_done : Bool) (s : Batching T)
      → Reports s
      → Ended (entries s) (finish w context_done s)
  finish-Ended context_done s reports =
      let done_all = do_flush-entries s in
      let flat : concat (do_flush w s).1.flushed ≡ entries s =
        sym (append-nil (concat (do_flush w s).1.flushed))
        ∙ sym (ap (λ y. concat (do_flush w s).1.flushed ++ y) done_all.1)
        ∙ done_all.0 in
      if_cases (Ended (entries s)) (not (do_flush w s).0 || (do_flush w s).1.waiting_error)
        (failed, (do_flush w s).1) _ (λ _. tt)
        (λ clean.
          by_context context_done flat done_all.1
            (do_flush-Reports s reports (ground (arith, clean)) (ground (arith, clean))))
    where
      by_context :
          (c : Bool)
          → concat (do_flush w s).1.flushed ≡ entries s
          → (do_flush w s).1.batch ≡ []
          → AllFlushesOk (do_flush w s).1
          → Ended (entries s) ((if c then context_error else finished), (do_flush w s).1)
      by_context true flat empty ok = (flat, empty, ok)
      by_context false flat empty ok = (flat, empty, ok)

  abbrev Drained : List T → Bool × Batching T → Type 0
  Drained all r = r.0 ≡ true → (entries r.1 ≡ all) × Reports r.1

  -- The entry of a record, then those of the others.
  one_more :
      (r : Record) (es : List Event) (s : Batching T)
      → entries (add w r s).1 ++ accepted es ≡ entries s ++ (entry_of (w.convert r) ++ accepted es)
  one_more r es s =
      ap (λ x. x ++ accepted es) (add_entry-entries (w.convert r) s)
      ∙ append_assoc (entries s) (entry_of (w.convert r)) (accepted es)

  -- Draining takes what is left of the input.
  drain-Drained :
      (es : List Event) (s : Batching T)
      → Reports s
      → Drained (entries s ++ accepted es) (drain w es s)
  unfolding drain
  drain-Drained [] s h = λ ok. (sym (append-nil (entries s)), h)
  drain-Drained (closed c ∷ es) s h = λ ok. (sym (append-nil (entries s)), h)
  drain-Drained (cancelled ∷ es) s h = drain-Drained es s h
  drain-Drained (tick ∷ es) s h = drain-Drained es s h
  drain-Drained (background_error ∷ es) s h = drain-Drained es s h
  drain-Drained (received r ∷ es) s h =
      let rest = drain-Drained es (add w r s).1 (add_entry-Reports (w.convert r) s h) in
      if_cases (Drained (entries s ++ accepted (received r ∷ es))) (add w r s).0
        (drain w es (add w r s).1) (false, (add w r s).1)
        (λ _ ok. ((rest ok).0 ∙ one_more r es s, (rest ok).1)) (λ _ ok. cc ok)

  shut_down-Ended :
      (all : List T) (r : Bool × Batching T) → Drained all r → Ended all (shut_down w r)
  shut_down-Ended all (true, s) h =
      subst (λ x. Ended x (finish w true s)) (h refl).0 (finish-Ended true s (h refl).1)
  shut_down-Ended all (false, s) h = tt

  -- The flush of a full batch.
  abbrev flushed_if_full : Record → Batching T → Bool × Batching T
  flushed_if_full r s = if is_full w (w.convert r) s then do_flush w s else (true, s)

  flushed_if_full-kept :
      (r : Record) (s : Batching T)
      → Reports s
      → (entries (flushed_if_full r s).1 ≡ entries s)
        × ((flushed_if_full r s).0 ≡ true → Reports (flushed_if_full r s).1)
  flushed_if_full-kept r s h =
      if_cases (λ (x : Bool × Batching T). (entries x.1 ≡ entries s) × (x.0 ≡ true → Reports x.1))
        (is_full w (w.convert r) s) (do_flush w s) (true, s)
        (λ _. ((do_flush-entries s).0, do_flush-Reports s h)) (λ _. (refl, λ _. h))

  run-Ended :
      (es : List Event) (s : Batching T) → Reports s → Ended (entries s ++ accepted es) (run w es s)
  unfolding run
  run-Ended [] s h = tt
  run-Ended (received r ∷ es) s h =
      let added = (add w r s).1 in
      let flushed = flushed_if_full r added in
      let kept = flushed_if_full-kept r added (add_entry-Reports (w.convert r) s h) in
      let all = entries s ++ accepted (received r ∷ es) in
      if_cases (Ended all) (add w r s).0 _ (failed, added)
        (λ _.
          if_cases (Ended all) flushed.0 (run w es flushed.1) (failed, flushed.1)
            (λ ok.
              subst (λ x. Ended x (run w es flushed.1))
                (ap (λ x. x ++ accepted es) kept.0 ∙ one_more r es s)
                (run-Ended es flushed.1 (kept.1 ok)))
            (λ _. tt))
        (λ _. tt)
  run-Ended (closed c ∷ es) s h =
      subst (λ x. Ended x (finish w c s)) (sym (append-nil (entries s))) (finish-Ended c s h)
  run-Ended (cancelled ∷ es) s h =
      shut_down-Ended (entries s ++ accepted es) (drain w es s) (drain-Drained es s h)
  run-Ended (tick ∷ es) s h =
      if_cases (Ended (entries s ++ accepted es)) (do_flush w s).0 _ (failed, (do_flush w s).1)
        (λ ok.
          subst (λ x. Ended x (run w es (do_flush w s).1))
            (ap (λ x. x ++ accepted es) (do_flush-entries s).0)
            (run-Ended es (do_flush w s).1 (do_flush-Reports s h ok)))
        (λ _. tt)
  run-Ended (background_error ∷ es) s h =
      if_cases (Ended (entries s ++ accepted es)) s.waiting_error (failed, s) (run w es s) (λ _. tt)
        (λ _. run-Ended es s h)

abbrev pub new_batching : {T : Type 0} → Batching T
new_batching = record { batch = []; flushed = []; waiting_error = false }

new_batching-Ended :
    {T : Type 0} (w : BatchWriter T) (es : List Event)
    → Ended w (accepted w es) (run w es new_batching)
new_batching-Ended w es = run-Ended w es new_batching (λ quiet n below. ground (arith, below))

-- Where the loop starts with an empty batch and returns no error, or that of the context: each call of
-- `flush` has succeeded; the batches that were handed to these calls are, in the order in which the loop
-- starts them, exactly the entries of the records up to the end of the input, one after another; and no
-- entry is left.
pub run_flushes_all :
    {T : Type 0} (w : BatchWriter T) (es : List Event) (s : Batching T)
    → run w es new_batching ≡ (finished, s) ⊎ run w es new_batching ≡ (context_error, s)
    → (concat s.flushed ≡ accepted w es) × (s.batch ≡ []) × AllFlushesOk w s
run_flushes_all w es s (inl e) = subst (Ended w (accepted w es)) e (new_batching-Ended w es)
run_flushes_all w es s (inr e) = subst (Ended w (accepted w es)) e (new_batching-Ended w es)
