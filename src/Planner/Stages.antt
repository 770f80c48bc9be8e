-- ===== src/Planner/Stages.antt =====
-- pipeline/planner.go: whether a stage can run the operators that a plan gives it. A stateless stage asserts
-- that its operators are SingleProcessors, and has one parallelism; a keyed stage asserts Cloneable.
use weibo.Base.{
  ℕ, zero, suc, ◌+◌, ◌≤◌, ◌≡◌, ◌≢◌, refl, sym, subst, inl, inr, true, false, not, ◌&&◌, Option,
  none, some, List, [], ◌∷◌, ◌++◌, All, All-append, ◌==◌, length, arith, Bool-cases, if_cases,
}
use weibo.Base.Int.{ℤ, pos, ltb_ℤ, eqb_ℤ, eqb_ℤ_iff}
use weibo.State.{Bytes}
use weibo.Planner.{
  Operator, StageHooks, Stage, source_stage, sink_stage, stateless_stage, keyed_stage,
  channel_stage, Planned, failed, planned, PlanConfig, Building, take_stateful, flush, flush_group,
  has_group, par_of, joins_group, add_keyed, keyed, alone, round, operators_of, skip_of, plan_loop,
  zip, empty_plan, finish_plan, build_plan, clone_workers, count_of, assign_backend, op_owner,
}
use weibo.Planner.Contents.{IfPlanned, then_planned, flush-group}

abbrev pub IsGrouped : ℤ → Operator × Bytes → Type 0
IsGrouped par o = (o.0.single ≡ true) × (o.0.router ≡ none) × (par_of o.0 ≡ par)

abbrev pub CanRun : Stage → Type 0
CanRun source_stage = Unit
CanRun sink_stage = Unit
CanRun (stateless_stage i ops par) = (ops ≢ []) × All (IsGrouped par) ops
CanRun (keyed_stage i op n chain) =
    (op.router ≢ none) × (1 ≤ n) × All (λ o. o.cloneable ≡ true) chain
CanRun (channel_stage i op label) = (op.single ≡ false) × (op.router ≡ none)

take_stateful-cloneable : (ops : List Operator) → All (λ o. o.cloneable ≡ true) (take_stateful ops)
unfolding take_stateful
take_stateful-cloneable [] = tt
take_stateful-cloneable (op ∷ ops) = elim (Bool-cases op.cloneable) [
  | inl e ↦ simp e ((refl, take_stateful-cloneable ops))
  | inr e ↦ simp e tt
]

record IsRunnable (b : Building) : Type 0 where
  built : All CanRun b.stages
  grouped : All (IsGrouped b.group_par) b.group

flush_group-CanRun :
    (group : List (Operator × Bytes)) (b : Building)
    → b.group ≡ group
    → IsRunnable b
    → All CanRun (flush_group group b).stages
flush_group-CanRun [] b e h = h.built
flush_group-CanRun (o ∷ os) b e h =
    All-append CanRun b.stages (stateless_stage b.stateless_count (o ∷ os) b.group_par ∷ []) h.built
      (((λ g. cc g), rw e at h.grouped), tt)

flush-CanRun : (b : Building) → IsRunnable b → All CanRun (flush b).stages
unfolding flush
flush-CanRun b h = flush_group-CanRun b.group b refl h

flush-IsGrouped : (b : Building) (par : ℤ) → All (IsGrouped par) (flush b).group
flush-IsGrouped b par = rw (flush-group b) tt

-- A group that does not have to be flushed has the parallelism of the operator that joins it.
same_par :
    (group : List (Operator × Bytes)) (b : Building) (op : Operator)
    → b.group ≡ group
    → (has_group b && not (eqb_ℤ (par_of op) b.group_par)) ≡ false
    → All (IsGrouped b.group_par) group
    → All (IsGrouped (par_of op)) group
same_par [] b op e keep h = tt
same_par (o ∷ os) b op e keep h =
    let same : par_of op ≡ b.group_par =
      (eqb_ℤ_iff (par_of op) b.group_par).0 (ground (arith, (rw e at keep))) in
    subst (λ p. All (IsGrouped p) (o ∷ os)) (sym same) h

joins_group-IsRunnable :
    (op : Operator) (label : Bytes) (b : Building)
    → op.single ≡ true
    → op.router ≡ none
    → IsRunnable b
    → IsRunnable (joins_group op label b)
joins_group-IsRunnable op label b single plain h =
    if_cases
      (λ (b' : Building).
        IsRunnable (record b' { group_par = par_of op; group = b'.group ++ (op, label) ∷ [] }))
      (has_group b && not (eqb_ℤ (par_of op) b.group_par)) (flush b) b
      (λ _. joined (flush b) (flush-CanRun b h) (flush-IsGrouped b (par_of op)))
      (λ keep. joined b h.built (same_par b.group b op refl keep h.grouped))
  where
    joined :
        (b' : Building)
        → All CanRun b'.stages
        → All (IsGrouped (par_of op)) b'.group
        → IsRunnable (record b' { group_par = par_of op; group = b'.group ++ (op, label) ∷ [] })
    joined b' built grouped = record {
      built = built;
      grouped =
          All-append (IsGrouped (par_of op)) b'.group ((op, label) ∷ []) grouped
            ((single, plain, refl), tt);
    }

keyed-IsRunnable :
    (hooks : StageHooks) (op : Operator) (n : ℤ) (rest : List Operator) (b : Building)
    → op.router ≡ some n
    → IsRunnable b
    → IfPlanned IsRunnable (keyed hooks op n (take_stateful rest) b)
keyed-IsRunnable hooks op n rest b routed h =
    if_cases (IfPlanned IsRunnable) (ltb_ℤ (pos 0) n) _ _
      (λ many. added many (clone_workers hooks (take_stateful rest) (count_of n) (flush b).calls))
      (λ _. tt)
  where
    some_workers : (z : ℤ) → ltb_ℤ (pos 0) z ≡ true → 1 ≤ count_of z
    some_workers z e = ground (arith, e)

    added :
        ltb_ℤ (pos 0) n ≡ true
        → (o : Option ℕ) → IfPlanned IsRunnable (add_keyed op n (take_stateful rest) (flush b) o)
    added many none = tt
    added many (some calls) = record {
      built = All-append CanRun (flush b).stages _ (flush-CanRun b h) (
        ((λ absent. cc (routed, absent)), some_workers n many, take_stateful-cloneable rest),
        tt,
      );
      grouped = flush-IsGrouped b (flush b).group_par;
    }

alone-IsRunnable :
    (hooks : StageHooks) (i : ℕ) (op : Operator) (label : Bytes) (b : Building)
    → op.single ≡ false
    → op.router ≡ none
    → IsRunnable b
    → IfPlanned IsRunnable (alone hooks i op label b)
alone-IsRunnable hooks i op label b single plain h =
    if_cases (IfPlanned IsRunnable) (assign_backend hooks op (op_owner i)) _ _
      (λ _. record {
        built =
            All-append CanRun (flush b).stages (channel_stage (flush b).channel_count op label ∷ [])
              (flush-CanRun b h) ((single, plain), tt);
        grouped = flush-IsGrouped b (flush b).group_par;
      })
      (λ _. tt)

round-IsRunnable :
    (hooks : StageHooks) (i : ℕ) (op : Operator) (label : Bytes) (rest : List Operator)
    (router : Option ℤ) (b : Building)
    → op.router ≡ router
    → IsRunnable b
    → IfPlanned IsRunnable (round hooks i op label rest router b)
round-IsRunnable hooks i op label rest (some n) b e h = keyed-IsRunnable hooks op n rest b e h
round-IsRunnable hooks i op label rest none b e h =
    if_cases (IfPlanned IsRunnable) op.single _ _
      (λ single. joins_group-IsRunnable op label b single e h)
      (λ single. alone-IsRunnable hooks i op label b single e h)

plan_loop-IsRunnable :
    (hooks : StageHooks) (i skip : ℕ) (ops : List (Operator × Bytes)) (b : Building)
    → IsRunnable b
    → IfPlanned IsRunnable (plan_loop hooks i skip ops b)
unfolding plan_loop
plan_loop-IsRunnable hooks i zero [] b h = h
plan_loop-IsRunnable hooks i (suc skip) [] b h = h
plan_loop-IsRunnable hooks i (suc skip) ((op, label) ∷ ops) b h =
    plan_loop-IsRunnable hooks (i + 1) skip ops b h
plan_loop-IsRunnable hooks i zero ((op, label) ∷ ops) b h =
    let rest = operators_of ops in
    then_planned IsRunnable IsRunnable (round hooks i op label rest op.router b)
      (plan_loop hooks (i + 1) (skip_of op.router rest) ops)
      (round-IsRunnable hooks i op label rest op.router b refl h)
      (λ b' k. plan_loop-IsRunnable hooks (i + 1) (skip_of op.router rest) ops b' k)

finish_plan-CanRun :
    (p : Planned Building) → IfPlanned IsRunnable p → IfPlanned (All CanRun) (finish_plan p)
finish_plan-CanRun (failed e) h = tt
finish_plan-CanRun (planned b) h =
    All-append CanRun (flush b).stages (sink_stage ∷ []) (flush-CanRun b h) (tt, tt)

build_plan-IfPlanned : (c : PlanConfig) → IfPlanned (All CanRun) (build_plan c)
unfolding build_plan
build_plan-IfPlanned c =
    let P : Planned (List Stage) → Type 0 = IfPlanned (All CanRun) in
    if_cases P (not c.has_source) _ _ (λ _. tt)
      (λ _.
        if_cases P (not c.has_sink) _ _ (λ _. tt)
          (λ _.
            if_cases P (length c.labels == length c.operators) _ _
              (λ e. finish_plan-CanRun _ (
                plan_loop-IsRunnable c.hooks 0 0 (zip c.operators c.labels) empty_plan
                  (record { built = (tt, tt); grouped = tt })))
              (λ _. tt)))

-- Where a plan is built, each of its stages can run its operators: a stateless stage has at least one, all of them
-- SingleProcessors of its own parallelism, a keyed stage has a worker and operators that can be cloned, and
-- an operator that is neither stands alone.
pub build_plan-CanRun :
    (c : PlanConfig) (ss : List Stage) → build_plan c ≡ planned ss → All CanRun ss
build_plan-CanRun c ss e = subst (IfPlanned (All CanRun)) e (build_plan-IfPlanned c)
