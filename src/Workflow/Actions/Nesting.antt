-- ===== src/Workflow/Actions/Nesting.antt =====
-- handleActions calls itself for the actions of a deferred decision: the depth is two at most.
use temporal_auto_scaled_wor.Prelude.{
  ℕ, suc, ℤ, if◌then◌else◌, str_eq, Option, none, some, List, [], ◌∷◌, lookup, Float64, ◌≡◌, refl,
  ap, ◌∙◌,
}
use temporal_auto_scaled_wor.Iface.Types.{ScalingGroupSpec, SignalTaskAddRequest}
use temporal_auto_scaled_wor.Iface.SpecUpdate.{current_groups}
use temporal_auto_scaled_wor.Scaling.Registry.{
  ScalingAction, ActionType, invoke_worker, update_worker_set_size, deferred_scaling_decision,
  unknown_action,
}
use temporal_auto_scaled_wor.Workflow.{Env}
use temporal_auto_scaled_wor.Workflow.Actions.{
  Workers, Dispatch, if_running, dispatch_decision, dispatch_to, dispatch_found, handle_action,
  each_action, handle_actions,
}

module _ (F : Float64) (P : Type 0) where
  abbrev Nested : Type 0
  Nested = List ScalingAction → Dispatch F P → Dispatch F P

module _ {F : Float64} {P : Type 0} where
  decision_ignores :
      (n n' : Nested F P) (w : Workers F P) (x : ScalingAction) (c : Option ℤ)
      (g : ScalingGroupSpec P) (st : Dispatch F P)
      → dispatch_decision n w none x c g st ≡ dispatch_decision n' w none x c g st
  decision_ignores n n' w x none g st = refl
  decision_ignores n n' w x (some c) g st = refl

  to_ignores :
      (n n' : Nested F P) (e : Env F P) (w : Workers F P) (x : ScalingAction) (t : ActionType)
      (g : ScalingGroupSpec P) (st : Dispatch F P)
      → dispatch_to n e w none x t g st ≡ dispatch_to n' e w none x t g st
  to_ignores n n' e w x deferred_scaling_decision g st = decision_ignores n n' w x x.count g st
  to_ignores n n' e w x invoke_worker g st = refl
  to_ignores n n' e w x update_worker_set_size g st = refl
  to_ignores n n' e w x (unknown_action s) g st = refl

  found_ignores :
      (n n' : Nested F P) (e : Env F P) (w : Workers F P) (x : ScalingAction)
      (o : Option (ScalingGroupSpec P)) (st : Dispatch F P)
      → dispatch_found n e w none x o st ≡ dispatch_found n' e w none x o st
  found_ignores n n' e w x none st = refl
  found_ignores n n' e w x (some g) st = to_ignores n n' e w x x.action g st

  action_ignores :
      (n n' : Nested F P) (e : Env F P) (w : Workers F P) (x : ScalingAction) (st : Dispatch F P)
      → handle_action n e w none x st ≡ handle_action n' e w none x st
  unfolding handle_action
  action_ignores n n' e w x st =
      ap (λ y. if_running st.panicked st (if str_eq x.scaling_group_key "" then st else y))
        (found_ignores n n' e w x (lookup x.scaling_group_key (current_groups st.runner.spec)) st)

  each_ignores :
      (n n' : Nested F P) (e : Env F P) (w : Workers F P) (xs : List ScalingAction)
      (st : Dispatch F P)
      → each_action n e w none xs st ≡ each_action n' e w none xs st
  unfolding each_action
  each_ignores n n' e w [] st = refl
  each_ignores n n' e w (x ∷ xs) st =
      ap (each_action n e w none xs) (action_ignores n n' e w x st)
      ∙ each_ignores n n' e w xs (handle_action n' e w none x st)

  one_level :
      (depth : ℕ) (e : Env F P) (w : Workers F P)
      → handle_actions (suc depth) e w none ≡ handle_actions 1 e w none
  unfolding handle_actions
  one_level depth e w = λ i xs st.
      each_ignores (handle_actions depth e w none) (handle_actions 0 e w none) e w xs st i

  -- Two levels are enough for every dispatch of actions: any larger bound on the nesting gives the
  -- same calls and the same state, whatever the activities answer. So a chain of deferred decisions
  -- ends by itself.
  pub handle_actions-depth :
      (depth : ℕ) (e : Env F P) (w : Workers F P) (r : Option SignalTaskAddRequest)
      (xs : List ScalingAction) (st : Dispatch F P)
      → handle_actions (suc (suc depth)) e w r xs st ≡ handle_actions 2 e w r xs st
  unfolding handle_actions
  handle_actions-depth depth e w r xs st = ap (λ n. each_action n e w r xs st) (one_level depth e w)
