-- ===== src/Tests/Deployed.antt =====
-- workflow.go and validate_workflow.go: the theorems that take the components together, at a worker
-- set and a lambda.
use temporal_auto_scaled_wor.Prelude.{ℕ, none, some, [], ◌∷◌, Map, delete as delete_key}
use temporal_auto_scaled_wor.Iface.Types.{UpdateRequest, ScalingGroupSpecUpdate}
use temporal_auto_scaled_wor.Scaling.RateBased.Config as RateConfig
use temporal_auto_scaled_wor.Activities.ValidateSpec.{validate_spec}
use temporal_auto_scaled_wor.Workflow.{Runner, Env}
use temporal_auto_scaled_wor.Tests.Decimal.{Decimals}
use temporal_auto_scaled_wor.Tests.Activities.{process, groups, pool}
use temporal_auto_scaled_wor.Tests.Workflows.{env, runner}

abbrev pool_runner : Runner Decimals ℕ
pool_runner = record runner { spec = some groups }

abbrev checked_env : Env Decimals ℕ
checked_env = record env { validate_spec = λ g skip. validate_spec process (some g) skip }

abbrev touch_pool : UpdateRequest ℕ
touch_pool = record {
  identity = "me";
  conflict_token = none;
  upsert_scaling_groups = ("pool", record { spec = pool; update_mask = [] }) ∷ [];
  remove_scaling_groups = [];
}

abbrev one_update : Map (ScalingGroupSpecUpdate ℕ)
one_update = ("pool", record { spec = pool; update_mask = [] }) ∷ []

abbrev one_version : ℕ
one_version = 1
