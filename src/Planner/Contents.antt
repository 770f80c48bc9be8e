-- ===== src/Planner/Contents.antt =====
-- pipeline/planner.go: which operators the stages of a plan hold.
use mathlib.Core.List.{append-nil, append_assoc}
use weibo.Base.{
  ℕ, zero, suc, ◌+◌, ◌≡◌, refl, sym, ◌∙◌, ap, subst, inl, inr, Bool, true, false, not, ◌&&◌, Option,
  none, some, List, [], ◌∷◌, ◌++◌, if◌then◌else◌, ◌==◌, length, arith, Bool-cases, if_cases,
}
use weibo.Base.Int.{ℤ, pos, ltb_ℤ, eqb_ℤ}
use weibo.State.{Bytes}
use weibo.Planner.{
  Operator, StageHooks, Stage, source_stage, sink_stage, stateless_stage, keyed_stage,
  channel_stage, Planned, failed, planned, PlanConfig, Building, take_stateful, flush, flush_group,
  has_group, par_of, joins_group, add_keyed, keyed, alone, round, operators_of, skip_of, plan_loop,
  zip, empty_plan, finish_plan, build_plan, count_of, assign_backend, op_owner,
}

abbrev pub IfPlanned {κ} : {A : Type 0} → (A → Type κ) → Planned A → Type κ
IfPlanned P (failed e) = Unit
IfPlanned P (planned a) = P a

-- The operators of a plan, in order.
abbrev pub stage_operators : Stage → List Operator
stage_operators source_stage = []
stage_operators sink_stage = []
stage_operators (stateless_stage i ops par) = operators_of ops
stage_operators (keyed_stage i op n chain) = op ∷ chain
stage_operators (channel_stage i op label) = op ∷ []

abbrev pub plan_operators : List Stage → List Operator
plan_operators [] = []
plan_operators (s ∷ ss) = stage_operators s ++ plan_operators ss

plan_operators-append :
    (ss ts : List Stage) → plan_operators (ss ++ ts) ≡ plan_operators ss ++ plan_operators ts
plan_operators-append [] ts = refl
plan_operators-append (s ∷ ss) ts =
    ap (λ x. stage_operators s ++ x) (plan_operators-append ss ts)
    ∙ sym (append_assoc (stage_operators s) (plan_operators ss) (plan_operators ts))

operators_of-append :
    (xs ys : List (Operator × Bytes)) → operators_of (xs ++ ys) ≡ operators_of xs ++ operators_of ys
operators_of-append [] ys = refl
operators_of-append ((op, label) ∷ xs) ys = ap (λ x. op ∷ x) (operators_of-append xs ys)

abbrev after_skip : ℕ → List Operator → List Operator
after_skip zero ops = ops
after_skip (suc k) [] = []
after_skip (suc k) (op ∷ ops) = after_skip k ops

take_stateful-after_skip :
    (ops : List Operator) → take_stateful ops ++ after_skip (length (take_stateful ops)) ops ≡ ops
unfolding take_stateful
take_stateful-after_skip [] = refl
take_stateful-after_skip (op ∷ ops) = elim (Bool-cases op.cloneable) [
  | inl e ↦ simp e (ap (λ x. op ∷ x) (take_stateful-after_skip ops))
  | inr e ↦ simp e refl
]

-- What the loop has taken so far.
abbrev contents : Building → List Operator
contents b = plan_operators b.stages ++ operators_of b.group

added :
    (ss : List Stage) (s : Stage)
    → plan_operators (ss ++ s ∷ []) ≡ plan_operators ss ++ stage_operators s
added ss s =
    plan_operators-append ss (s ∷ [])
    ∙ ap (λ x. plan_operators ss ++ x) (append-nil (stage_operators s))

flush_group-contents :
    (group : List (Operator × Bytes)) (b : Building)
    → b.group ≡ group
    → plan_operators (flush_group group b).stages ≡ contents b
flush_group-contents [] b e =
    sym
      (ap (λ x. plan_operators b.stages ++ operators_of x) e ∙ append-nil (plan_operators b.stages))
flush_group-contents (o ∷ os) b e =
    added b.stages (stateless_stage b.stateless_count (o ∷ os) b.group_par)
    ∙ sym (ap (λ x. plan_operators b.stages ++ operators_of x) e)

flush_group-group :
    (group : List (Operator × Bytes)) (b : Building)
    → b.group ≡ group
    → (flush_group group b).group ≡ []
flush_group-group [] b e = e
flush_group-group (o ∷ os) b e = refl

flush-stages : (b : Building) → plan_operators (flush b).stages ≡ contents b
unfolding flush
flush-stages b = flush_group-contents b.group b refl

pub flush-group : (b : Building) → (flush b).group ≡ []
unfolding flush
flush-group b = flush_group-group b.group b refl

flush-contents : (b : Building) → contents (flush b) ≡ contents b
flush-contents b =
    ap (λ x. plan_operators (flush b).stages ++ operators_of x) (flush-group b)
    ∙ append-nil (plan_operators (flush b).stages)
    ∙ flush-stages b

-- A stage added to a flushed plan.
after_flush :
    (b : Building) (s : Stage)
    → plan_operators ((flush b).stages ++ s ∷ []) ++ operators_of (flush b).group
      ≡ contents b ++ stage_operators s
after_flush b s =
    ap (λ x. plan_operators ((flush b).stages ++ s ∷ []) ++ operators_of x) (flush-group b)
    ∙ append-nil (plan_operators ((flush b).stages ++ s ∷ []))
    ∙ added (flush b).stages s
    ∙ ap (λ x. x ++ stage_operators s) (flush-stages b)

joins_group-contents :
    (op : Operator) (label : Bytes) (b : Building)
    → contents (joins_group op label b) ≡ contents b ++ op ∷ []
joins_group-contents op label b = appended (if has_to_flush then flush b else b) (same has_to_flush)
  where
    has_to_flush : Bool
    has_to_flush = has_group b && not (eqb_ℤ (par_of op) b.group_par)

    same : (c : Bool) → contents (if c then flush b else b) ≡ contents b
    same true = flush-contents b
    same false = refl

    appended :
        (b' : Building)
        → contents b' ≡ contents b
        → plan_operators b'.stages ++ operators_of (b'.group ++ (op, label) ∷ [])
          ≡ contents b ++ op ∷ []
    appended b' e =
        ap (λ x. plan_operators b'.stages ++ x) (operators_of-append b'.group ((op, label) ∷ []))
        ∙ sym (append_assoc (plan_operators b'.stages) (operators_of b'.group) (op ∷ []))
        ∙ ap (λ x. x ++ op ∷ []) e

add_keyed-contents :
    (op : Operator) (n : ℤ) (chain : List Operator) (b : Building) (o : Option ℕ)
    → IfPlanned (λ b'. contents b' ≡ contents b ++ op ∷ chain) (add_keyed op n chain (flush b) o)
add_keyed-contents op n chain b none = tt
add_keyed-contents op n chain b (some calls) =
    after_flush b (keyed_stage (flush b).keyed_count op (count_of n) chain)

-- Operators taken now, and those after them.
taken_then :
    (b : Building) (taken rest all : List Operator) (p : Planned Building)
    → taken ++ rest ≡ all
    → IfPlanned (λ b'. contents b' ≡ contents b ++ taken) p
    → IfPlanned (λ b'. contents b' ++ rest ≡ contents b ++ all) p
taken_then b taken rest all (failed x) e h = tt
taken_then b taken rest all (planned b') e h =
    ap (λ x. x ++ rest) h ∙ append_assoc (contents b) taken rest ∙ ap (λ x. contents b ++ x) e

keyed-contents :
    (hooks : StageHooks) (op : Operator) (n : ℤ) (chain : List Operator) (b : Building)
    → IfPlanned (λ b'. contents b' ≡ contents b ++ op ∷ chain) (keyed hooks op n chain b)
keyed-contents hooks op n chain b =
    if_cases (IfPlanned (λ b'. contents b' ≡ contents b ++ op ∷ chain)) (ltb_ℤ (pos 0) n) _ _
      (λ _. add_keyed-contents op n chain b _) (λ _. tt)

alone-contents :
    (hooks : StageHooks) (i : ℕ) (op : Operator) (label : Bytes) (b : Building)
    → IfPlanned (λ b'. contents b' ≡ contents b ++ op ∷ []) (alone hooks i op label b)
alone-contents hooks i op label b =
    if_cases (IfPlanned (λ b'. contents b' ≡ contents b ++ op ∷ []))
      (assign_backend hooks op (op_owner i)) _ _
      (λ _. after_flush b (channel_stage (flush b).channel_count op label)) (λ _. tt)

-- A round takes its operator and those that it makes the loop skip.
round-contents :
    (hooks : StageHooks) (i : ℕ) (op : Operator) (label : Bytes) (rest : List Operator)
    (router : Option ℤ) (b : Building)
    → IfPlanned
        (λ b'. contents b' ++ after_skip (skip_of router rest) rest ≡ contents b ++ op ∷ rest)
        (round hooks i op label rest router b)
round-contents hooks i op label rest (some n) b =
    taken_then b (op ∷ take_stateful rest) _ (op ∷ rest) (keyed hooks op n (take_stateful rest) b)
      (ap (λ x. op ∷ x) (take_stateful-after_skip rest))
      (keyed-contents hooks op n (take_stateful rest) b)
round-contents hooks i op label rest none b = taken_then b (op ∷ []) rest (op ∷ rest) _ refl (
    if_cases (IfPlanned (λ b'. contents b' ≡ contents b ++ op ∷ [])) op.single _ _
      (λ _. joins_group-contents op label b) (λ _. alone-contents hooks i op label b))

pub then_planned :
    (P Q : Building → Type 0) (p : Planned Building) (f : Building → Planned Building)
    → IfPlanned P p
    → ((b : Building) → P b → IfPlanned Q (f b))
    → IfPlanned Q (elim p [ failed e ↦ failed e | planned b ↦ f b ])
then_planned P Q (failed e) f h k = tt
then_planned P Q (planned b) f h k = k b h

weaken :
    (P Q : Building → Type 0) (p : Planned Building)
    → ((b : Building) → P b → Q b)
    → IfPlanned P p
    → IfPlanned Q p
weaken P Q (failed e) w h = tt
weaken P Q (planned b) w h = w b h

plan_loop-contents :
    (hooks : StageHooks) (i skip : ℕ) (ops : List (Operator × Bytes)) (b : Building)
    → IfPlanned
        (λ b'. contents b' ≡ contents b ++ after_skip skip (operators_of ops))
        (plan_loop hooks i skip ops b)
unfolding plan_loop
plan_loop-contents hooks i zero [] b = sym (append-nil (contents b))
plan_loop-contents hooks i (suc skip) [] b = sym (append-nil (contents b))
plan_loop-contents hooks i (suc skip) ((op, label) ∷ ops) b =
    plan_loop-contents hooks (i + 1) skip ops b
plan_loop-contents hooks i zero ((op, label) ∷ ops) b =
    let rest = operators_of ops in
    then_planned
      (λ b'. contents b' ++ after_skip (skip_of op.router rest) rest ≡ contents b ++ op ∷ rest)
      (λ b'. contents b' ≡ contents b ++ op ∷ rest) (round hooks i op label rest op.router b)
      (plan_loop hooks (i + 1) (skip_of op.router rest) ops)
      (round-contents hooks i op label rest op.router b)
      (λ b' h.
        weaken _ _ (plan_loop hooks (i + 1) (skip_of op.router rest) ops b') (λ b'' g. g ∙ h)
          (plan_loop-contents hooks (i + 1) (skip_of op.router rest) ops b'))

operators_of-zip :
    (ops : List Operator) (labels : List Bytes)
    → length labels ≡ length ops
    → operators_of (zip ops labels) ≡ ops
operators_of-zip [] labels e = refl
operators_of-zip (op ∷ ops) [] e = ground (arith, e)
operators_of-zip (op ∷ ops) (label ∷ labels) e =
    ap (λ x. op ∷ x) (operators_of-zip ops labels (ground (arith, e)))

finish_plan-operators :
    (ops : List Operator) (p : Planned Building)
    → IfPlanned (λ b. contents b ≡ ops) p
    → IfPlanned (λ ss. plan_operators ss ≡ ops) (finish_plan p)
finish_plan-operators ops (failed e) h = tt
finish_plan-operators ops (planned b) h =
    added (flush b).stages sink_stage
    ∙ append-nil (plan_operators (flush b).stages)
    ∙ flush-stages b
    ∙ h

build_plan-IfPlanned :
    (c : PlanConfig) → IfPlanned (λ ss. plan_operators ss ≡ c.operators) (build_plan c)
unfolding build_plan
build_plan-IfPlanned c =
    let P : Planned (List Stage) → Type 0 = IfPlanned (λ ss. plan_operators ss ≡ c.operators) in
    if_cases P (not c.has_source) _ _ (λ _. tt)
      (λ _.
        if_cases P (not c.has_sink) _ _ (λ _. tt)
          (λ _.
            if_cases P (length c.labels == length c.operators) _ _
              (λ e. finish_plan-operators c.operators _ (
                weaken _ _ (plan_loop c.hooks 0 0 (zip c.operators c.labels) empty_plan)
                  (λ b h. h ∙ operators_of-zip c.operators c.labels (ground (arith, e)))
                  (plan_loop-contents c.hooks 0 0 (zip c.operators c.labels) empty_plan)))
              (λ _. tt)))

-- Where a plan is built, its stages hold exactly the operators of the configuration, in their order.
pub build_plan-operators :
    (c : PlanConfig) (ss : List Stage) → build_plan c ≡ planned ss → plan_operators ss ≡ c.operators
build_plan-operators c ss e =
    subst (IfPlanned (λ x. plan_operators x ≡ c.operators)) e (build_plan-IfPlanned c)
