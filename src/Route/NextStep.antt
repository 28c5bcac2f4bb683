-- ===== src/Route/NextStep.antt =====
-- next-step.ts: the pure decisions behind `findNextStep`.
pub mod Choice
use laundry_api.Base.{ℕ, ◌+◌, String, Option, none, some, List, find?, ltb, if◌then◌else◌}
use laundry_api.Route.Types.{StepCandidate, NextStepDecision, route, override}

-- A step of an exception flow template.
pub record TemplateStep : Type 0 where
  pub offset : ℕ
  pub step_type : String
  pub display_name : String

-- `pickNextStep`.
unfoldable pub pick_next_step :
    Option StepCandidate → Option StepCandidate → Option NextStepDecision
pick_next_step none none = none
pick_next_step (some o) none = some (record { step = o; source = override })
pick_next_step none (some r) = some (record { step = r; source = route })
pick_next_step (some o) (some r) =
    if ltb o.sort_order r.sort_order
    then some (record { step = o; source = override })
    else some (record { step = r; source = route })

-- The projection of a template step onto the plan.
abbrev pub candidate_of : ℕ → ℕ → TemplateStep → StepCandidate
candidate_of base override_id s = record {
  id = override_id;
  step_type = s.step_type;
  display_name = s.display_name;
  sort_order = base + s.offset;
}

-- `templateSteps.find((s) => s.offset > currentOffset) ?? null`, as in `completeOverrideStep` too.
abbrev pub next_template_step : List TemplateStep → ℕ → Option TemplateStep
next_template_step steps current_offset = find? (λ s. ltb current_offset s.offset) steps

-- `findNextTemplateStep`.
unfoldable pub find_next_template_step : List TemplateStep → ℕ → ℕ → ℕ → Option StepCandidate
find_next_template_step steps current_offset base override_id =
    elim (next_template_step steps current_offset) [
      | none ↦ none
      | some next ↦ some (candidate_of base override_id next)
    ]
