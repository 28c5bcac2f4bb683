-- ===== src/Tests/Plans.antt =====
-- The theorems on the creation of plans at work: an item without a plan.
use laundry_api.Base.{refl, none, [], arith, Memᴰ}
use laundry_api.Store.InOrder.{in_order}
use laundry_api.Tx.{Returns}
use laundry_api.Route.Db.{Db, Env, to_step_row}
use laundry_api.Route.Engine.Create.{Starts, create_plan-Starts, plan_row}
use laundry_api.Route.Engine.Lifecycle.{create_plan-Finished}
use laundry_api.Route.Engine.Plans.{create_plan}
use laundry_api.Route.Engine.Walk.{Finished, scan_until_done}
use laundry_api.Tests.RouteData.{quiet_db, standard, step-ids, washer, washing}

abbrev empty_db : Db
empty_db = record quiet_db { plans = []; states = [] }

abbrev morning : Env
morning = record { new_id = 9; now = 800 }

create_plan-Starts_example :
    Returns
      (Starts morning 8 standard none (to_step_row washing) empty_db)
      (create_plan ⦃prisma = in_order⦄ morning 8 "STANDARD" washer none empty_db)
create_plan-Starts_example =
    create_plan-Starts ⦃prisma = in_order⦄ empty_db morning 8 "STANDARD" washer none refl refl refl
      refl

create_plan-Finished_example :
    Returns
      (λ v db'.
        Returns
          (Finished ⦃prisma = in_order⦄ 8 (plan_row morning 8 standard none) standard)
          (scan_until_done ⦃prisma = in_order⦄ 3 8 washer db'))
      (create_plan ⦃prisma = in_order⦄ morning 8 "STANDARD" washer none empty_db)
create_plan-Finished_example =
    create_plan-Finished ⦃prisma = in_order⦄ empty_db morning 8 "STANDARD" washer washer none 3 refl
      refl refl (Memᴰ.head refl) step-ids refl refl refl refl (omega arith)
