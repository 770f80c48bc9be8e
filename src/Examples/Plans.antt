-- ===== src/Examples/Plans.antt =====
-- A plan of two maps, a keyed reduce and a window without a key.
use weibo.Base.{◌≡◌, refl, true, false, none, some, List, [], ◌∷◌, All}
use weibo.Base.Int.{pos}
use weibo.Planner.{
  Operator, Stage, source_stage, sink_stage, stateless_stage, keyed_stage, channel_stage, planned,
  PlanConfig, build_plan,
}
use weibo.Planner.Contents.{plan_operators, build_plan-operators}
use weibo.Planner.Stages.{CanRun, build_plan-CanRun}

abbrev mapping : Operator
mapping = record {
  name = 1 ∷ [];
  router = none;
  single = true;
  parallelism = some (pos 2);
  cloneable = false;
  configurable = false;
}

abbrev keying : Operator
keying = record {
  name = 2 ∷ [];
  router = some (pos 4);
  single = false;
  parallelism = none;
  cloneable = false;
  configurable = false;
}

abbrev reducing : Operator
reducing = record {
  name = 3 ∷ [];
  router = none;
  single = false;
  parallelism = none;
  cloneable = true;
  configurable = true;
}

abbrev config : PlanConfig
config = record {
  has_source = true;
  has_sink = true;
  operators = mapping ∷ mapping ∷ keying ∷ reducing ∷ mapping ∷ reducing ∷ [];
  labels = (1 ∷ []) ∷ (2 ∷ []) ∷ (3 ∷ []) ∷ (4 ∷ []) ∷ (5 ∷ []) ∷ (6 ∷ []) ∷ [];
  hooks = record { on_clone = some (λ calls. pos calls); state_backend_for = some (λ owner. true) };
}

abbrev stages : List Stage
stages =
    source_stage
    ∷ stateless_stage 0 ((mapping, 1 ∷ []) ∷ (mapping, 2 ∷ []) ∷ []) (pos 2)
    ∷ keyed_stage 0 keying 4 (reducing ∷ [])
    ∷ stateless_stage 1 ((mapping, 5 ∷ []) ∷ []) (pos 2)
    ∷ channel_stage 0 reducing (6 ∷ [])
    ∷ sink_stage
    ∷ []

plans : build_plan config ≡ planned stages
unfolding build_plan
plans = refl

build_plan-operators_example : plan_operators stages ≡ config.operators
build_plan-operators_example = build_plan-operators config stages plans

build_plan-CanRun_example : All CanRun stages
build_plan-CanRun_example = build_plan-CanRun config stages plans
