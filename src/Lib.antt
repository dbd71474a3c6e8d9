-- ===== src/Lib.antt =====
-- Verification of the auto-scaled workers' controller.
--
-- The program runs one Temporal workflow per deployment version of serverless workers. The
-- workflow (wci/workflow/workflow.go) keeps a specification of scaling groups, takes updates of it,
-- and turns task-add signals and periodic metrics polls into actions: it gives each signal or poll
-- to the scaling algorithm of the group that serves the task queue's type, stores the status that
-- the algorithm answers, and runs the actions through a compute provider.
--
-- Which file models which part:
--   * Iface: wci/workflow/iface. Types has the data types; MapAccess is map_access.go
--     (getInt64FromMap and its siblings); Spec is spec.go (ScalingGroupKeyForTaskQueueType,
--     EffectiveTaskTypesForGroup, Validate, Clone), with its theorems in Spec/Claims (the best
--     claim), Spec/Uniqueness, Spec/Serving and Spec/Regions; SpecUpdate is spec_update.go
--     (applyFieldMask, BuildUpdatedSpec), with Outcome (each name's group), Mask (each field
--     of a group) and Skipping (whose validation is skipped).
--   * ComputeProvider: registry.go and errors.go of wci/workflow/compute_provider, with a provider as
--     a record of its operations.
--   * Scaling: wci/workflow/scaling_algorithm. Registry is registry.go, with an algorithm as a record
--     of its operations, First is what a sequence of registrations leaves, and Program registers the two algorithms as their init functions do; NoSync
--     is no_sync_match.go, with Config (ValidateConfig), State (the stored entries), Spacing (runs)
--     and Suppression (the dispatch-rate detector); RateBased is rate_based.go: the estimates in RateBased itself, the
--     operations in Decisions, ValidateConfig in Config, the cleaned state in State, one decision in
--     Bounds and the planned count from one operation to the next in Counts.
--   * Activities: wci/workflow/activities.go, with scaling_metrics_snapshot.go in Snapshot. PullStats
--     (and in it NextPoll, Statuses, Actions), TaskAdd, Deferred, ValidateSpec (with Ready),
--     Registration (also register_task_queues.go, with Disturbance) and Workers have one activity
--     each, and Program puts ValidateSpec together with the program's algorithms.
--   * Workflow: wci/workflow/workflow.go. Updates has the handlers of updates, deletions and
--     validations, Invariant the outcomes of an update, DryRun what a validation of changes leaves,
--     Queue the queue of task-add signals, and Run the invariants over any run of these. Actions has
--     handleActions and the handlers of a signal and of a poll, with Nesting (its recursion), Safety
--     (its calls), Panic (the map of statuses), Batch (processTaskAddBatch and its progress) and
--     Keeping (what they leave alone). Validation is validate_workflow.go, and Deployed puts an update
--     together with the activities and the algorithms.
--   * Client: wci/client. Id is id.go, with RoundTrip; Hook is hook.go (ProcessTaskAdd and
--     batchMatchSignals), with Counts.
--   * Prelude: Boolean tests, lists, maps, integers with Go's wrap-around, strconv.ParseInt, float64
--     and results. Tests: the theorems at concrete inputs, with decimals for float64.
--
-- How the code corresponds to the model. A Go map is a list of entries; a loop over a map visits the
-- list in its order, so a theorem on every list is one on every iteration order. An int64 or int32
-- operation is the operation on integers followed by its wrap-around. A float64 is a parameter, with
-- the laws of IEEE 754 that a theorem asks for named in FloatLaws. The clock is an argument. An
-- error is a value; its text is left out. An operation that returns a new state takes the old one as
-- an argument. In the workflow, what activities, the lock and the SDK answer is in a record Env per
-- handler, and a handler runs to its end before the next one starts. The queue's limit is the
-- code's 4000. Loops are structural recursions; only handleActions, which calls itself, has a bound
-- on the depth, of 2, and a theorem shows that a larger one changes nothing. What a dispatch's
-- activities answer is in a record Workers, each answer to a request and the calls before it, and
-- the calls made are kept in their order. A store into a nil map sets a flag, after which nothing
-- of that dispatch or batch runs. The process in which an activity runs is a record Activities: the registries, the answer of
-- the server's describe call, the data converter and the clock.
--
-- Not modelled: when the workflow's timers are due and what a continue-as-new hands on, the compute
-- providers' calls of cloud APIs, the client's remote calls, metrics and logs. Handlers of the workflow may
-- interleave where they wait for an activity; the model takes each as one step.
pub mod Prelude
pub mod Iface
pub mod ComputeProvider
pub mod Scaling
pub mod Activities
pub mod Client
pub mod Workflow
pub mod Tests
