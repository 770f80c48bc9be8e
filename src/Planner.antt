-- ===== src/Planner.antt =====
-- pipeline/planner.go: `BuildPlan`, and the clones that `NewKeyedStage` of pipeline/keyed_stage.go makes. What
-- the planner finds out by type assertions is a field of the operator. The snapshot callbacks that are set
-- on operators are left out.
pub mod Contents
pub mod Stages
use weibo.Base.{
  ℕ, zero, suc, ◌+◌, Bool, true, false, not, ◌&&◌, ◌||◌, Option, none, some, List, [], ◌∷◌, ◌++◌,
  if◌then◌else◌, ◌==◌, ltb, length,
}
use weibo.Base.Int.{ℤ, pos, negsuc, ltb_ℤ, eqb_ℤ}
use weibo.State.{Bytes}

-- `router` are the partitions of a KeyBy; `single`, `parallelism`, `cloneable` and `configurable` say which of
-- SingleProcessor, Parallel, Cloneable and StateConfigurable an operator implements.
pub record Operator : Type 0 where
  pub name : Bytes
  pub router : Option ℤ
  pub single : Bool
  pub parallelism : Option ℤ
  pub cloneable : Bool
  pub configurable : Bool

pub data Owner : Type 0 where
  op_owner worker_owner : ℕ → Owner

-- `on_clone` gives the index that the callback returns at each of its calls; `state_backend_for` whether a
-- backend is created.
pub record StageHooks : Type 0 where
  pub on_clone : Option (ℕ → ℤ)
  pub state_backend_for : Option (Owner → Bool)

-- The numbers in the names of stages count the stages of a kind. A keyed stage has the number of its
-- workers and the chain that each has clones of.
pub data Stage : Type 0 where
  source_stage sink_stage : Stage
  stateless_stage : ℕ → List (Operator × Bytes) → ℤ → Stage
  keyed_stage : ℕ → Operator → ℕ → List Operator → Stage
  channel_stage : ℕ → Operator → Bytes → Stage

pub data PlanError : Type 0 where
  no_source no_sink wrong_labels bad_partitions no_backend : PlanError

pub data Planned (A : Type 0) : Type 0 where
  failed : PlanError → Planned A
  planned : A → Planned A

pub record PlanConfig : Type 0 where
  pub has_source : Bool
  pub has_sink : Bool
  pub operators : List Operator
  pub labels : List Bytes
  pub hooks : StageHooks

-- `assignBackend`: whether it returns no error.
unfoldable pub assign_backend : StageHooks → Operator → Owner → Bool
assign_backend hooks op owner = elim hooks.state_backend_for [
  | none ↦ true
  | some create ↦ if op.configurable then create owner else true
]

abbrev assign_clone : StageHooks → Operator → ℤ → Bool
assign_clone hooks op (pos idx) = assign_backend hooks op (worker_owner idx)
assign_clone hooks op (negsuc idx) = true

abbrev clone_one : StageHooks → Operator → ℕ → Bool
clone_one hooks op calls = elim hooks.on_clone [
  | none ↦ true
  | some answer ↦ assign_clone hooks op (answer calls)
]

-- One worker's chain; the number counts the calls of `on_clone`.
unfoldable pub clone_chain : StageHooks → List Operator → ℕ → Option ℕ
unfolding assign_backend
clone_chain hooks [] calls = some calls
clone_chain hooks (op ∷ ops) calls =
    let rest = clone_chain hooks ops (calls + 1) in if clone_one hooks op calls then rest else none

unfoldable pub clone_workers : StageHooks → List Operator → ℕ → ℕ → Option ℕ
unfolding clone_chain
clone_workers hooks ops zero calls = some calls
clone_workers hooks ops (suc n) calls = elim (clone_chain hooks ops calls) [
  | none ↦ none
  | some calls' ↦ clone_workers hooks ops n calls'
]

-- `takeStateful`.
unfoldable pub take_stateful : List Operator → List Operator
take_stateful [] = []
take_stateful (op ∷ ops) = let rest = take_stateful ops in if op.cloneable then op ∷ rest else []

-- The variables of the loop.
pub record Building : Type 0 where
  pub stages : List Stage
  pub group : List (Operator × Bytes)
  pub group_par : ℤ
  pub stateless_count : ℕ
  pub keyed_count : ℕ
  pub channel_count : ℕ
  pub calls : ℕ

abbrev pub flush_group : List (Operator × Bytes) → Building → Building
flush_group [] b = b
flush_group (o ∷ os) b = record b {
  stages = b.stages ++ stateless_stage b.stateless_count (o ∷ os) b.group_par ∷ [];
  stateless_count = b.stateless_count + 1;
  group = [];
}

unfoldable pub flush : Building → Building
flush b = flush_group b.group b

abbrev pub par_of : Operator → ℤ
par_of op = elim op.parallelism [ none ↦ pos 1 | some p ↦ p ]

abbrev pub has_group : Building → Bool
has_group b = elim b.group [ [] ↦ false | _ ∷ _ ↦ true ]

abbrev pub joins_group : Operator → Bytes → Building → Building
joins_group op label b =
    let b' = if has_group b && not (eqb_ℤ (par_of op) b.group_par) then flush b else b in
    record b' { group_par = par_of op; group = b'.group ++ (op, label) ∷ [] }

abbrev pub count_of : ℤ → ℕ
count_of (pos n) = n
count_of (negsuc n) = 0

abbrev pub add_keyed : Operator → ℤ → List Operator → Building → Option ℕ → Planned Building
add_keyed op n chain b none = failed no_backend
add_keyed op n chain b (some calls) = planned (record b {
  stages = b.stages ++ keyed_stage b.keyed_count op (count_of n) chain ∷ [];
  keyed_count = b.keyed_count + 1;
  calls = calls;
})

abbrev pub keyed : StageHooks → Operator → ℤ → List Operator → Building → Planned Building
keyed hooks op n chain b =
    if ltb_ℤ (pos 0) n
    then add_keyed op n chain (flush b) (clone_workers hooks chain (count_of n) (flush b).calls)
    else failed bad_partitions

abbrev pub alone : StageHooks → ℕ → Operator → Bytes → Building → Planned Building
alone hooks i op label b =
    let b' = flush b in
    if assign_backend hooks op (op_owner i)
    then planned (record b' {
      stages = b'.stages ++ channel_stage b'.channel_count op label ∷ [];
      channel_count = b'.channel_count + 1;
    })
    else failed no_backend

-- A round of the loop, on an operator and those after it.
abbrev pub round :
    StageHooks → ℕ → Operator → Bytes → List Operator → Option ℤ → Building → Planned Building
round hooks i op label rest (some n) b = keyed hooks op n (take_stateful rest) b
round hooks i op label rest none b =
    if op.single then planned (joins_group op label b) else alone hooks i op label b

abbrev pub operators_of : List (Operator × Bytes) → List Operator
operators_of [] = []
operators_of ((op, label) ∷ ops) = op ∷ operators_of ops

abbrev pub skip_of : Option ℤ → List Operator → ℕ
skip_of none rest = 0
skip_of (some n) rest = length (take_stateful rest)

-- The loop; `skip` operators have been taken by a keyed stage.
unfoldable pub plan_loop :
    StageHooks → ℕ → ℕ → List (Operator × Bytes) → Building → Planned Building
unfolding flush take_stateful clone_workers assign_backend
plan_loop hooks i skip [] b = planned b
plan_loop hooks i (suc skip) ((op, label) ∷ ops) b = plan_loop hooks (i + 1) skip ops b
plan_loop hooks i zero ((op, label) ∷ ops) b =
    elim (round hooks i op label (operators_of ops) op.router b) [
      | failed e ↦ failed e
      | planned b' ↦ plan_loop hooks (i + 1) (skip_of op.router (operators_of ops)) ops b'
    ]

abbrev pub zip : List Operator → List Bytes → List (Operator × Bytes)
zip [] labels = []
zip (op ∷ ops) [] = []
zip (op ∷ ops) (label ∷ labels) = (op, label) ∷ zip ops labels

abbrev pub empty_plan : Building
empty_plan = record {
  stages = source_stage ∷ [];
  group = [];
  group_par = pos 1;
  stateless_count = 0;
  keyed_count = 0;
  channel_count = 0;
  calls = 0;
}

abbrev pub finish_plan : Planned Building → Planned (List Stage)
finish_plan (failed e) = failed e
finish_plan (planned b) = planned ((flush b).stages ++ sink_stage ∷ [])

-- `BuildPlan`.
unfoldable pub build_plan : PlanConfig → Planned (List Stage)
unfolding plan_loop flush
build_plan c =
    if not c.has_source
    then failed no_source
    else if not c.has_sink
    then failed no_sink
    else if length c.labels == length c.operators
    then finish_plan (plan_loop c.hooks 0 0 (zip c.operators c.labels) empty_plan)
    else failed wrong_labels
