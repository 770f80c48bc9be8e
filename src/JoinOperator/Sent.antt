-- ===== src/JoinOperator/Sent.antt =====
-- operator/join.go: the watermarks that `Process` sends on.
use weibo.Base.{
  ◌≡◌, refl, sym, ◌∙◌, ap, subst, inl, inr, Bool, true, false, Option, none, some, List, [], ◌∷◌,
  ◌++◌, arith, bytes_eq, Bool-cases, if_cases, if◌then◌else◌,
}
use weibo.Base.Int.{ℤ, ◌≤ℤ◌, ◌<ℤ◌, ltb_ℤ, ltb_ℤ→lt, eqb_ℤ}
use weibo.State.{Bytes, ListStore}
use weibo.Types.{Record, zero_time, new_watermark}
use weibo.WindowKey.{Codec}
use weibo.WindowOperator.Entries.{decode_record}
use weibo.JoinOperator.{
  IntervalJoinOperator, Side, left_side, right_side, side, aligned, advance_left, advance_right,
  align, handle_watermark, handle_barrier, handle_at, handle_record, emit_matches, matches,
  match_of, join, join_with, in_range, snapshot, process_record, process_all,
}
use weibo.JoinOperator.Clocks.{aligned_watermark-least, le_trans}
use weibo.JoinOperator.Later.{Started, process_record-Later, process_all-Later}

-- The times of the watermarks among records, in their order.
abbrev pub watermarks : List Record → List ℤ
watermarks [] = []
watermarks (r ∷ rs) =
    let rest = watermarks rs in if r.is_watermark then r.timestamp ∷ rest else rest

-- Each time is later than the one before it, the first than `low`, and `high` is the last of them all.
abbrev pub Rising : ℤ → List ℤ → ℤ → Type 0
Rising low [] high = low ≡ high
Rising low (t ∷ ts) high = (low <ℤ t) × Rising t ts high

-- The join function that the user gives, if any, makes no watermark.
abbrev pub MakesData : Option (Record → Record → Record) → Type 0
MakesData none = Unit
MakesData (some f) = (l r : Record) → (f l r).is_watermark ≡ false

watermarks-append : (xs ys : List Record) → watermarks (xs ++ ys) ≡ watermarks xs ++ watermarks ys
watermarks-append [] ys = refl
watermarks-append (r ∷ xs) ys = elim (Bool-cases r.is_watermark) [
  | inl e ↦ simp e (ap (λ ts. r.timestamp ∷ ts) (watermarks-append xs ys))
  | inr e ↦ simp e (watermarks-append xs ys)
]

Rising-trans : (xs ys : List ℤ) (a b c : ℤ) → Rising a xs b → Rising b ys c → Rising a (xs ++ ys) c
Rising-trans [] ys a b c h k = subst (λ x. Rising x ys c) (sym h) k
Rising-trans (t ∷ xs) ys a b c h k = (h.0, Rising-trans xs ys t b c h.1 k)

module _ (codec : Codec) (pair_json : Bytes → Bytes → Bytes) (st : ListStore) where
  open st use {State, get_all, set_key}

  abbrev O : Type 0
  O = IntervalJoinOperator State

  -- What a step has sent for an operator, and the operator after it.
  abbrev Sends : O → O × List Record → Type 0
  Sends op x = Rising op.emitted_watermark (watermarks x.1) x.0.emitted_watermark

  align-Sends : (op : O) → Sends op (align codec pair_json st op)
  unfolding align new_watermark
  align-Sends op =
      if_cases (Sends op) (eqb_ℤ (aligned codec pair_json st op) zero_time) (op, []) _ (λ _. refl)
        (λ _.
          if_cases (Sends op) (ltb_ℤ op.emitted_watermark (aligned codec pair_json st op)) _ _
            (λ e. (ltb_ℤ→lt op.emitted_watermark (aligned codec pair_json st op) e, refl))
            (λ _. refl))

  advance_left-emitted :
      (ts : ℤ) (op : O)
      → (advance_left codec pair_json st ts op).emitted_watermark ≡ op.emitted_watermark
  advance_left-emitted ts op = ground arith

  advance_right-emitted :
      (ts : ℤ) (op : O)
      → (advance_right codec pair_json st ts op).emitted_watermark ≡ op.emitted_watermark
  advance_right-emitted ts op = ground arith

  aligned-Sends :
      (op op' : O)
      → op'.emitted_watermark ≡ op.emitted_watermark
      → Sends op (align codec pair_json st op')
  aligned-Sends op op' e =
      let x = align codec pair_json st op' in
      subst (λ low. Rising low (watermarks x.1) x.0.emitted_watermark) e (align-Sends op')

  handle_watermark-Sends :
      (r : Record) (op : O) → Sends op (handle_watermark codec pair_json st r op)
  unfolding handle_watermark
  handle_watermark-Sends r op =
      if_cases (Sends op) (bytes_eq r.source op.left_source) _ _
        (λ _.
          aligned-Sends op (advance_left codec pair_json st r.timestamp op)
            (advance_left-emitted r.timestamp op))
        (λ _.
          if_cases (Sends op) (bytes_eq r.source op.right_source) _ _
            (λ _.
              aligned-Sends op (advance_right codec pair_json st r.timestamp op)
                (advance_right-emitted r.timestamp op))
            (λ _.
              if_cases (Sends op) (bytes_eq r.source []) _ (op, [])
                (λ _.
                  aligned-Sends op
                    (advance_right codec pair_json st r.timestamp
                      (advance_left codec pair_json st r.timestamp op))
                    (advance_right-emitted r.timestamp
                        (advance_left codec pair_json st r.timestamp op)
                      ∙ advance_left-emitted r.timestamp op))
                (λ _. refl)))

  handle_barrier-Sends :
      (r : Record) (op : O)
      → r.is_watermark ≡ false
      → Sends op (handle_barrier codec pair_json st r op)
  unfolding handle_barrier snapshot
  handle_barrier-Sends r op plain =
      if_cases (Sends op) op.has_barrier_snapshot _ _ (λ _. simp plain refl) (λ _. simp plain refl)

  join-plain :
      (op : O) (l r : Record)
      → MakesData op.fn
      → (join codec pair_json st op l r).is_watermark ≡ false
  unfolding join
  join-plain op l r h = go op.fn h
    where
      go :
          (f : Option (Record → Record → Record))
          → MakesData f
          → (join_with codec pair_json st f op.left_source op.right_source l r).is_watermark ≡ false
      go none h = refl
      go (some f) h = h l r

  match_of-plain :
      (b : Bool) (op : O) (r o : Record)
      → MakesData op.fn
      → watermarks (match_of codec pair_json st b op r o) ≡ []
  match_of-plain true op r o h =
      if_cases (λ (out : List Record). watermarks out ≡ []) (in_range op o.timestamp r.timestamp)
        (join codec pair_json st op o r ∷ []) [] (λ _. simp (join-plain op o r h) refl) (λ _. refl)
  match_of-plain false op r o h =
      if_cases (λ (out : List Record). watermarks out ≡ []) (in_range op r.timestamp o.timestamp)
        (join codec pair_json st op r o ∷ []) [] (λ _. simp (join-plain op r o h) refl) (λ _. refl)

  matches-plain :
      (b : Bool) (op : O) (r : Record) (raws : List Bytes)
      → MakesData op.fn
      → watermarks (matches codec pair_json st b op r raws) ≡ []
  unfolding matches
  matches-plain b op r [] h = refl
  matches-plain b op r (raw ∷ raws) h =
      watermarks-append (match_of codec pair_json st b op r (decode_record codec raw))
        (matches codec pair_json st b op r raws)
      ∙ rw (match_of-plain b op r (decode_record codec raw) h, matches-plain b op r raws h) refl

  handle_record-Sends :
      (r : Record) (op : O) → MakesData op.fn → Sends op (handle_record codec pair_json st r op)
  unfolding handle_record emit_matches
  handle_record-Sends r op h = go (side op r)
    where
      go : (o : Option Side) → Sends op (handle_at codec pair_json st o r op)
      go none = refl
      go (some left_side) =
          subst (λ ts. Rising op.emitted_watermark ts op.emitted_watermark)
            (sym (matches-plain false op r (get_all (set_key r.key op.right)) h)) refl
      go (some right_side) =
          subst (λ ts. Rising op.emitted_watermark ts op.emitted_watermark)
            (sym (matches-plain true op r (get_all (set_key r.key op.left)) h)) refl

  process_record-Sends :
      (r : Record) (op : O) → MakesData op.fn → Sends op (process_record codec pair_json st r op)
  unfolding process_record
  process_record-Sends r op h =
      if_cases (Sends op) r.is_watermark _ _ (λ _. handle_watermark-Sends r op)
        (λ plain.
          if_cases (Sends op) r.is_barrier _ _ (λ _. handle_barrier-Sends r op plain)
            (λ _. handle_record-Sends r op h))

  process_all-Sends :
      (rs : List Record) (op : O)
      → Started codec pair_json st op
      → MakesData op.fn
      → Sends op (process_all codec pair_json st rs op)
  unfolding process_all
  process_all-Sends [] op s h = refl
  process_all-Sends (r ∷ rs) op s h =
      let first = process_record codec pair_json st r op in
      let later = process_record-Later codec pair_json st r op s in
      let rest = process_all codec pair_json st rs first.0 in
      subst (λ ts. Rising op.emitted_watermark ts rest.0.emitted_watermark)
        (sym (watermarks-append first.1 rest.1))
        (Rising-trans (watermarks first.1) (watermarks rest.1) op.emitted_watermark
          first.0.emitted_watermark rest.0.emitted_watermark (process_record-Sends r op h)
          (process_all-Sends rs first.0 later.started (subst MakesData (sym later.fn) h)))

  -- Where both sides started, the emitted watermark is not past the aligned one, and the user's join function,
  -- if there is one, makes no watermark: over any stream each watermark that the join sends is later than the
  -- one that it sent before, the first than the watermark emitted so far, and the last that it has sent is not
  -- past the watermark of either side.
  pub emitted_behind_sides :
      (rs : List Record) (op : O)
      → Started codec pair_json st op
      → op.emitted_watermark ≤ℤ aligned codec pair_json st op
      → MakesData op.fn
      → let x = process_all codec pair_json st rs op in
        Rising op.emitted_watermark (watermarks x.1) x.0.emitted_watermark
        × (x.0.emitted_watermark ≤ℤ x.0.left_watermark)
        × (x.0.emitted_watermark ≤ℤ x.0.right_watermark)
  emitted_behind_sides rs op h b plain =
      let later = process_all-Later codec pair_json st rs op h in
      let op' = (process_all codec pair_json st rs op).0 in
      let sides =
        aligned_watermark-least op'.left_watermark op'.right_watermark later.started.left_started
          later.started.right_started in
      (
        process_all-Sends rs op h plain,
        le_trans op'.emitted_watermark (aligned codec pair_json st op') op'.left_watermark
            (later.behind b) sides.0,
        le_trans op'.emitted_watermark (aligned codec pair_json st op') op'.right_watermark
            (later.behind b) sides.1,
      )
