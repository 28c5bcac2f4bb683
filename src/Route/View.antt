-- ===== src/Route/View.antt =====
-- route-engine.service.ts: what the callers see of a state, `buildView` and its parts.
use laundry_api.Base.{ℕ, Bool, true, false, Option, none, some}
use laundry_api.Route.Types.{
  StepRow, StepSource, StepStatus, OverrideStepRow, LoadedState, StepView, CurrentStepView,
  CurrentStateView, NextStepDecision,
}
use laundry_api.Route.Db.{OverrideTableRow}

abbrev pub to_step_view : StepRow → StepView
to_step_view s = record {
  step_id = s.id;
  step_type = s.step_type;
  display_name = s.display_name;
  sort_order = s.sort_order;
}

abbrev pub with_status : StepStatus → StepView → CurrentStepView
with_status status v = record {
  step_id = v.step_id;
  step_type = v.step_type;
  display_name = v.display_name;
  sort_order = v.sort_order;
  status = status;
}

-- An `OverrideStepRow` read as the `StepRow` that it extends.
abbrev pub override_as_step : OverrideStepRow → StepRow
override_as_step o = record {
  id = o.id;
  step_type = o.step_type;
  display_name = o.display_name;
  sort_order = o.sort_order;
}

-- An override row, projected into a candidate as in `findNextStep`.
abbrev pub override_candidate : OverrideTableRow → StepRow
override_candidate o = record {
  id = o.id;
  step_type = o.step_type;
  display_name = o.display_name;
  sort_order = o.sort_order;
}

abbrev pub is_completed : StepStatus → Bool
is_completed StepStatus.completed = true
is_completed StepStatus.in_progress = false

abbrev pub step_of_source : StepSource → Option StepRow → Option OverrideStepRow → Option StepRow
step_of_source StepSource.override route_step override_step = elim override_step [
  | none ↦ none
  | some o ↦ some (override_as_step o)
]
step_of_source StepSource.route route_step override_step = route_step

-- The step that the state stands on: `currentStep` of `buildView`.
abbrev pub current_step_of : LoadedState → Option StepRow
current_step_of s =
    step_of_source s.current_step_source s.current_route_step s.current_override_step

abbrev pub sort_order_or_zero : Option StepRow → ℕ
sort_order_or_zero none = 0
sort_order_or_zero (some s) = s.sort_order

-- `currentSortOrder`.
unfoldable pub current_sort_order : LoadedState → ℕ
current_sort_order s = sort_order_or_zero (current_step_of s)

abbrev pub view_of : Option StepRow → Option StepView
view_of none = none
view_of (some s) = some (to_step_view s)

abbrev pub current_view_of : StepStatus → Option StepRow → Option CurrentStepView
current_view_of status none = none
current_view_of status (some s) = some (with_status status (to_step_view s))

-- `buildView`.
unfoldable pub build_view : LoadedState → Option StepRow → CurrentStateView
build_view s next = record {
  order_item_id = s.order_item_id;
  plan_id = s.plan_id;
  route_code = s.plan.route_code;
  current_step_source = s.current_step_source;
  current_step = current_view_of s.current_step_status (current_step_of s);
  next_step = view_of next;
  is_plan_completed = is_completed s.current_step_status;
}

-- `nextResult?.step ?? null`.
abbrev pub step_of : Option NextStepDecision → Option StepRow
step_of none = none
step_of (some d) = some d.step
