-- ===== src/Route/Engine/Complete.antt =====
-- `completeCurrentStep`: what a scan of an item does to its plan.
use laundry_api.Base.{ℕ}
use laundry_api.Errors.{of_route, step_not_in_progress, domain}
use laundry_api.Store.{Prisma}
use laundry_api.Tx.{Tx, ◌>>=◌, ◌>>◌, throw_if}
use laundry_api.Route.Types.{ActorContext, CurrentStateView, LoadedState, StepSource}
use laundry_api.Route.Db.{Db}
use laundry_api.Route.Load.{load_state}
use laundry_api.Route.View.{is_completed}
use laundry_api.Route.Engine.RouteStep.{complete_route_step}
use laundry_api.Route.Engine.OverrideStep.{complete_override_step}

module _ ⦃prisma : Prisma⦄ where
  abbrev pub complete_by_source : StepSource → LoadedState → ActorContext → Tx Db CurrentStateView
  complete_by_source StepSource.override state actor = complete_override_step state actor
  complete_by_source StepSource.route state actor = complete_route_step state actor

  -- `completeCurrentStep`.
  unfoldable pub complete_current_step : ℕ → ActorContext → Tx Db CurrentStateView
  complete_current_step item actor = do
    state ← load_state item
    throw_if (is_completed state.current_step_status) (domain (of_route step_not_in_progress))
    complete_by_source state.current_step_source state actor
