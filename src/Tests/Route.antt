-- ===== src/Tests/Route.antt =====
-- The theorems on the route engine at work.
use mathlib.Core.Option
use laundry_api.Base.{◌≡◌, refl, Option, none, some, arith}
use laundry_api.Store.InOrder.{in_order}
use laundry_api.Tx.{Returns}
use laundry_api.Route.Types.{StepCandidate}
use laundry_api.Route.NextStep.{
  TemplateStep, candidate_of, find_next_template_step, next_template_step, pick_next_step,
}
use laundry_api.Route.NextStep.Choice.{
  IsNextOf, Wins, find_next_template_step_least, pick_next_step-Wins,
}
use laundry_api.Route.Load.{find_next_step, flow_steps}
use laundry_api.Route.Load.Search.{Follows, find_next_step-Follows}
use laundry_api.Route.Engine.Complete.{complete_current_step}
use laundry_api.Route.Engine.Moves.{Leaves, complete_current_step-Leaves}
use laundry_api.Route.Engine.Stack.{Passes, complete_current_step-Passes}
use laundry_api.Route.Engine.Walk.{Finished, scan_until_done, scan_until_done-Finished}
use laundry_api.Tests.RouteData.{
  washer, standard, rewash_flow, plan, newer, quiet_db, flow_db, quiet-Standing, flow-Standing,
  quiet-OnRoute,
}

-- Three scans, one for each step, complete the plan.
scan_until_done-Finished_example :
    Returns
      (Finished ⦃prisma = in_order⦄ 7 plan standard)
      (scan_until_done ⦃prisma = in_order⦄ 3 7 washer quiet_db)
scan_until_done-Finished_example =
    scan_until_done-Finished ⦃prisma = in_order⦄ 3 quiet_db 7 washer quiet-OnRoute (omega arith)

-- The newer flow ends, and the item returns to the older one.
complete_current_step-Passes_example :
    Returns
      (Passes ⦃prisma = in_order⦄ 7 1 flow_db newer
        (next_template_step (flow_steps ⦃prisma = in_order⦄ flow_db "REWASH") 2))
      (complete_current_step ⦃prisma = in_order⦄ 7 washer flow_db)
complete_current_step-Passes_example =
    complete_current_step-Passes ⦃prisma = in_order⦄ flow_db 7 washer flow-Standing refl refl refl

complete_current_step-Leaves_example :
    Returns
      (Leaves 7 quiet_db (find_next_step ⦃prisma = in_order⦄ quiet_db 7 10 1))
      (complete_current_step ⦃prisma = in_order⦄ 7 washer quiet_db)
complete_current_step-Leaves_example =
    complete_current_step-Leaves ⦃prisma = in_order⦄ quiet_db 7 washer quiet-Standing refl refl refl

find_next_step-Follows_example :
    Follows ⦃prisma = in_order⦄ flow_db 7 12 1 (find_next_step ⦃prisma = in_order⦄ flow_db 7 12 1)
find_next_step-Follows_example = find_next_step-Follows ⦃prisma = in_order⦄ flow_db 7 12 1

abbrev early : StepCandidate
early = record { id = 20; step_type = "INSPECT"; sort_order = 11; display_name = "Inspect" }

abbrev late : StepCandidate
late = record { id = 11; step_type = "DRY"; sort_order = 20; display_name = "Dry" }

pick_next_step-Wins_example :
    Wins (some early) (some late) (pick_next_step (some early) (some late))
    × (Wins (some early) (some late) none → pick_next_step (some early) (some late) ≡ none)
pick_next_step-Wins_example = pick_next_step-Wins (some early) (some late)

find_next_template_step_least_example :
    (t : Option TemplateStep) × IsNextOf 1 rewash_flow.steps t
    × (find_next_template_step rewash_flow.steps 1 10 20 ≡ Option.map (candidate_of 10 20) t)
find_next_template_step_least_example =
    find_next_template_step_least rewash_flow.steps 1 10 20 ((omega arith, tt), (tt, tt))
