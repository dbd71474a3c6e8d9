-- ===== src/Activities/Registration.antt =====
-- wci/workflow/activities.go and register_task_queues.go: InvokeWorkersToRegisterTaskQueues, which
-- starts workers for the groups whose task queues no worker has polled yet.
pub mod Disturbance
use Prim.Native.String.{◌++◌ as ◌+text◌}
use temporal_auto_scaled_wor.Prelude.{
  ℤ, Bool, true, false, not, ◌&&◌, String, Option, none, some, List, [], ◌∷◌, ◌++◌, all, is_empty,
  if◌then◌else◌, Map, Float64, Result, ok, err, ◌>>=◌,
}
use temporal_auto_scaled_wor.Iface.Types.{
  Value, TaskQueueType, ScalingAlgorithmConfig, ScalingAlgorithmStatus, ScalingGroupSpec, Groups,
}
use temporal_auto_scaled_wor.Iface.Spec.{contains_type, effective_task_types_for_group}
use temporal_auto_scaled_wor.ComputeProvider.{ProviderFailure, ComputeProvider}
use temporal_auto_scaled_wor.Scaling.Registry.{
  AlgorithmError, ScalingAlgorithm, ActionType, invoke_worker, update_worker_set_size,
  deferred_scaling_decision, unknown_action, ScalingAction, TaskQueueRegistrationResponse,
}
use temporal_auto_scaled_wor.Activities.{
  Activities, ActivityError, app_error, VersionTaskQueue, DescribeError, StatusMap, status_at,
  get_scaling_algorithm_and_config,
}
use temporal_auto_scaled_wor.Activities.PullStats.{insert_present}
use temporal_auto_scaled_wor.Activities.ValidateSpec.{invalid, or_fail, find_provider, entries_of}

-- The calls of the providers, with the key of their group.
pub data ProviderCall : Type 0 where
  invoked : String → ProviderCall
  resized : String → ℤ → ProviderCall

abbrev pub called_key : ProviderCall → String
called_key (invoked key) = key
called_key (resized key size) = key

-- A failure, with the calls made before it.
pub record Stopped : Type 0 where
  pub calls : List ProviderCall
  pub error : ActivityError

abbrev pub in_group : String → String → String → ActivityError
in_group type key text = app_error type ((key +text ": ") +text text)

-- No want is not registered.
abbrev pub task_types_all_registered : List TaskQueueType → List TaskQueueType → Bool
task_types_all_registered want registered =
    not (is_empty want) && all (contains_type registered) want

abbrev quoted : String → String → String
quoted text name = ((text +text "\"") +text name) +text "\""

abbrev action_name : ActionType → String
action_name invoke_worker = "invoke-worker"
action_name update_worker_set_size = "update-worker-set-size"
action_name deferred_scaling_decision = "deferred-scaling-decision"
action_name (unknown_action s) = s

-- A call is recorded before its failure ends the activity.
abbrev pub after_call :
    String
    → String
    → List ProviderCall
    → Option ProviderFailure
    → Result Stopped (List ProviderCall)
after_call type key calls none = ok calls
after_call type key calls (some e) =
    err (record { calls = calls; error = in_group type key e.message })

abbrev pub stopped_with {ℓ} :
    {A : Type ℓ} → List ProviderCall → Result ActivityError A → Result Stopped A
stopped_with calls (err e) = err (record { calls = calls; error = e })
stopped_with calls (ok x) = ok x

module _ (F : Float64) where
  -- What the loop over the groups carries.
  pub record Progress : Type 0 where
    pub calls : List ProviderCall
    pub statuses : Map (ScalingAlgorithmStatus F)

  -- A provider with its configuration, and what the algorithm wants of it.
  pub record Plan : Type 0 where
    pub provider : ComputeProvider F
    pub config : Map (Value F)
    pub response : TaskQueueRegistrationResponse F

module _ {F : Float64} where
  abbrev pub types_of : List (Option (VersionTaskQueue F)) → List TaskQueueType
  types_of [] = []
  types_of (none ∷ qs) = types_of qs
  types_of (some q ∷ qs) = q.type ∷ types_of qs

  unfoldable pub registered_task_queue_types :
      Result DescribeError (Option (List (Option (VersionTaskQueue F))))
      → Result DescribeError (List TaskQueueType)
  registered_task_queue_types (err e) = err e
  registered_task_queue_types (ok none) = err (record {
    is_resource_exhausted = false;
    text = "did not receive details in the describe response";
  })
  registered_task_queue_types (ok (some qs)) = ok (types_of qs)

  -- The call for one action.
  unfoldable pub register_action :
      ComputeProvider F
      → Map (Value F)
      → String
      → List ProviderCall
      → ActionType
      → Option ℤ
      → Result Stopped (List ProviderCall)
  register_action p config key calls invoke_worker count =
      after_call "InvokeWorkerFailed" key (calls ++ (invoked key ∷ [])) (p.invoke_worker config)
  register_action p config key calls update_worker_set_size none = err (record {
    calls = calls;
    error =
        in_group "InternalError" key (
          quoted "registration action " (action_name update_worker_set_size)
          +text " missing count");
  })
  register_action p config key calls update_worker_set_size (some size) =
      after_call "UpdateWorkerSetSizeFailed" key (calls ++ (resized key size ∷ []))
        (p.update_worker_set_size config size)
  register_action p config key calls other count = err (record {
    calls = calls;
    error =
        in_group "InternalError" key (quoted "unexpected registration action " (action_name other));
  })

  unfoldable pub register_actions :
      ComputeProvider F
      → Map (Value F)
      → String
      → List ScalingAction
      → List ProviderCall
      → Result Stopped (List ProviderCall)
  register_actions p config key [] calls = ok calls
  register_actions p config key (x ∷ xs) calls =
      register_action p config key calls x.action x.count >>= register_actions p config key xs

  abbrev pub registration_of :
      ScalingAlgorithmStatus F
      → ScalingAlgorithm F × ScalingAlgorithmConfig F
      → Result AlgorithmError (TaskQueueRegistrationResponse F)
  registration_of status (g, c) = g.task_queue_registration_actions c status

module _ {F : Float64} where
  abbrev pub carried : StatusMap F → String → Progress F → Progress F
  carried statuses key p = record p {
    statuses = insert_present key (status_at statuses key) p.statuses;
  }

  abbrev planned :
      ComputeProvider F → ScalingAlgorithmConfig F → TaskQueueRegistrationResponse F → Plan F
  planned provider config x = record {
    provider = provider;
    config = entries_of config;
    response = x;
  }

  abbrev registered_with : String → Progress F → Plan F → List ProviderCall → Progress F
  registered_with key p q calls = record {
    calls = calls;
    statuses = insert_present key q.response.status p.statuses;
  }

  abbrev pub carry_out : String → Progress F → Plan F → Result Stopped (Progress F)
  carry_out key p q =
      register_actions q.provider q.config key q.response.actions p.calls >>= λ calls.
      ok (registered_with key p q calls)

module _ (F : Float64) where
  abbrev pub no_progress : Progress F
  no_progress = record { calls = []; statuses = [] }

module _ {P : Type 0} where
  abbrev pub unknown_provider : String → ScalingGroupSpec P → ActivityError
  unknown_provider key entry =
      invalid key (
        (("'" +text entry.compute.provider_type) +text "'") +text " is an unknown compute provider")

  -- A group with its effective types has to register them, unless all are registered.
  abbrev pub has_to_register : Groups P → String → List TaskQueueType → String → Bool
  has_to_register groups region_id registered key =
      let ts = effective_task_types_for_group groups key region_id in
      not (is_empty ts) && not (task_types_all_registered ts registered)

module _ {F : Float64} {P : Type 0} where
  -- What a group that has types to register needs for its calls.
  abbrev pub plan_of :
      Activities F P
      → StatusMap F
      → String
      → ScalingGroupSpec P
      → ComputeProvider F
      → Result ActivityError (Plan F)
  plan_of a statuses key entry provider =
      or_fail (invalid key) (a.decode entry.compute.config) >>= λ config.
      or_fail (invalid key) (get_scaling_algorithm_and_config a entry) >>= λ algorithm.
      or_fail (in_group "AlgorithmFailed" key) (registration_of (status_at statuses key) algorithm)
      >>= λ x. ok (planned provider config x)

  abbrev pub plan :
      Activities F P → StatusMap F → String → ScalingGroupSpec P → Result ActivityError (Plan F)
  plan a statuses key entry =
      find_provider a (invalid key) (unknown_provider key entry) entry.compute
      >>= plan_of a statuses key entry

  abbrev pub register_live :
      Activities F P
      → StatusMap F
      → String
      → ScalingGroupSpec P
      → Progress F
      → Result Stopped (Progress F)
  register_live a statuses key entry p =
      stopped_with p.calls (plan a statuses key entry) >>= carry_out key p

  -- One round of the loop.
  unfoldable pub register_group :
      Activities F P
      → Groups P
      → StatusMap F
      → List TaskQueueType
      → String × ScalingGroupSpec P
      → Progress F
      → Result Stopped (Progress F)
  register_group a groups statuses registered (key, entry) p =
      let live = register_live a statuses key entry (carried statuses key p) in
      if has_to_register groups a.region_id registered key
      then live
      else ok (carried statuses key p)

  unfoldable pub register_groups :
      Activities F P
      → Groups P
      → StatusMap F
      → List TaskQueueType
      → Groups P
      → Progress F
      → Result Stopped (Progress F)
  register_groups a groups statuses registered [] p = ok p
  register_groups a groups statuses registered (entry ∷ rest) p =
      register_group a groups statuses registered entry p
      >>= register_groups a groups statuses registered rest

  -- Without an answer all types count as not registered, unless the server is out of capacity.
  abbrev pub register_known :
      Activities F P
      → Groups P
      → StatusMap F
      → Result DescribeError (List TaskQueueType)
      → Result Stopped (Progress F)
  register_known a groups statuses (ok registered) =
      register_groups a groups statuses registered groups (no_progress F)
  register_known a groups statuses (err e) =
      let open_answer = register_groups a groups statuses [] groups (no_progress F) in
      if e.is_resource_exhausted
      then err (record { calls = []; error = app_error "ResourceExhausted" e.text })
      else open_answer

  unfoldable pub invoke_workers_to_register_task_queues :
      Activities F P → Option (Groups P) → StatusMap F → Result Stopped (Progress F)
  invoke_workers_to_register_task_queues a none statuses =
      err (record { calls = []; error = app_error "InternalError" "Invalid activity request" })
  invoke_workers_to_register_task_queues a (some groups) statuses =
      register_known a groups statuses (registered_task_queue_types a.describe)
