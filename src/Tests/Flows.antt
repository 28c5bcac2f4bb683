-- ===== src/Tests/Flows.antt =====
-- The theorems on raised flows and on the preview at work.
use laundry_api.Base.{List, [], ◌∷◌, ◌⊎◌, ◌<◌, ◌≡◌, refl, true, arith, Memᴰ, inl, inr}
use laundry_api.Store.InOrder.{in_order}
use laundry_api.Tx.{Returns}
use laundry_api.Route.Db.{active_override_of, OverrideTableRow, Env}
use laundry_api.Route.Engine.Complete.{complete_current_step}
use laundry_api.Route.Engine.Overrides.{OverrideInput, activate_overrides, new_override}
use laundry_api.Route.Engine.Nested.{BackOn, activate_overrides-BackOn}
use laundry_api.Route.Load.Top.{IsTop}
use laundry_api.Route.Engine.Preview.{Reaches, get_current_state-Reaches}
use laundry_api.Route.Engine.Plans.{get_current_state}
use laundry_api.Tests.RouteData.{washer, newer, quiet_db, flow_db, quiet-Standing, flow-Standing}

get_current_state-Reaches_example :
    Returns
      (λ v db'.
        Returns
          (Reaches ⦃prisma = in_order⦄ 7 v.next_step)
          (complete_current_step ⦃prisma = in_order⦄ 7 washer db'))
      (get_current_state ⦃prisma = in_order⦄ 7 quiet_db)
get_current_state-Reaches_example =
    get_current_state-Reaches ⦃prisma = in_order⦄ quiet_db 7 washer quiet-Standing refl refl refl

abbrev at_night : Env
at_night = record { new_id = 22; now = 300 }

-- The only step of a flow.
abbrev stain : OverrideInput
stain = record { step_type = "STAIN"; sort_order = 13; display_name = "Stain"; offset = 1 }

-- A flow that no template has, so that it ends after its step.
abbrev stain_flow : List OverrideInput
stain_flow = stain ∷ []

newer-IsTop : IsTop 7 newer flow_db.overrides
newer-IsTop = (Memᴰ.tail (Memᴰ.head refl), refl, above)
  where
    above :
        (r : OverrideTableRow)
        → Memᴰ r flow_db.overrides
        → active_override_of 7 r ≡ true
        → (r ≡ newer) ⊎ (r.created_at < 200)
    above r (Memᴰ.head e) t = inr (rw e (omega arith))
    above r (Memᴰ.tail (Memᴰ.head e)) t = inl e
    above r (Memᴰ.tail (Memᴰ.tail m)) t = elim m [ ]

activate_overrides-BackOn_example :
    Returns
      (λ v db'.
        Returns
          (BackOn ⦃prisma = in_order⦄ 7 newer (new_override at_night 7 "STAIN" 12 stain) flow_db)
          (complete_current_step ⦃prisma = in_order⦄ 7 washer db'))
      (activate_overrides ⦃prisma = in_order⦄ at_night 7 "STAIN" stain_flow 12 washer flow_db)
activate_overrides-BackOn_example =
    activate_overrides-BackOn ⦃prisma = in_order⦄ flow_db at_night 7 "STAIN" stain_flow 12 washer
      washer newer flow-Standing refl refl refl newer-IsTop
