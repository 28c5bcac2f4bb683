-- ===== src/Route/Load/Offers.antt =====
-- What the exception flows of an item offer as its next step, by the tables.
use laundry_api.Base.{ℕ, ◌+◌, ◌≤◌, ◌<◌, ◌≡◌, ◌≢◌, Option, none, some, Memᴰ}
use laundry_api.Store.{Prisma}
use laundry_api.Route.Db.{Db, OverrideStatus, OverrideTableRow}
use laundry_api.Route.Load.{flow_steps}
use laundry_api.Route.NextStep.{TemplateStep}
use laundry_api.Route.NextStep.Choice.{IsNextOf}
use laundry_api.Route.Types.{StepRow}

-- The override is one of the item's that are ACTIVE.
abbrev pub IsActive : Db → ℕ → OverrideTableRow → Type 0
IsActive db item o =
    Memᴰ o db.overrides × (o.order_item_id ≡ item) × (o.status ≡ OverrideStatus.active)

-- No ACTIVE override of the item is newer.
abbrev pub IsNewest : Db → ℕ → OverrideTableRow → Type 0
IsNewest db item o =
    IsActive db item o × ((r : OverrideTableRow) → IsActive db item r → r.created_at ≤ o.created_at)

-- No ACTIVE override of the item but `o` is newer.
abbrev pub IsNewestBut : Db → ℕ → OverrideTableRow → OverrideTableRow → Type 0
IsNewestBut db item o p =
    IsActive db item p
    × (p.id ≢ o.id)
    × ((r : OverrideTableRow) → IsActive db item r → r.id ≢ o.id → r.created_at ≤ p.created_at)

module _ ⦃prisma : Prisma⦄ where
  -- The step that the exception flows offer past the sort order `k`, on each branch.
  pub data Offers (db : Db) (item k : ℕ) : Option StepRow → Type 0 where
    -- No flow is active.
    no_flow : ((r : OverrideTableRow) → ¬ IsActive db item r) → Offers db item k none
    -- The newest flow lies ahead: its own step.
    ahead :
        (o : OverrideTableRow)
        → IsNewest db item o
        → k < o.sort_order
        → Offers db item k (
            some (record {
              id = o.id;
              step_type = o.step_type;
              display_name = o.display_name;
              sort_order = o.sort_order;
            }))
    -- The item is on the newest flow: the least later step of its template.
    within :
        (o : OverrideTableRow) (t : TemplateStep)
        → IsNewest db item o
        → o.sort_order ≡ k
        → IsNextOf o.current_offset (flow_steps db o.flow_code) (some t)
        → Offers db item k (
            some (record {
              id = o.id;
              step_type = t.step_type;
              display_name = t.display_name;
              sort_order = o.base_step_sort_order + t.offset;
            }))
    -- The item is on the last step of the newest flow: the step of the flow below it.
    below :
        (o p : OverrideTableRow)
        → IsNewest db item o
        → o.sort_order ≡ k
        → IsNextOf o.current_offset (flow_steps db o.flow_code) none
        → IsNewestBut db item o p
        → Offers db item k (
            some (record {
              id = p.id;
              step_type = p.step_type;
              display_name = p.display_name;
              sort_order = p.sort_order;
            }))
    -- The same, with no flow below.
    last :
        (o : OverrideTableRow)
        → IsNewest db item o
        → o.sort_order ≡ k
        → IsNextOf o.current_offset (flow_steps db o.flow_code) none
        → ((r : OverrideTableRow) → IsActive db item r → r.id ≡ o.id)
        → Offers db item k none
    -- The newest flow lies behind.
    behind : (o : OverrideTableRow) → IsNewest db item o → o.sort_order < k → Offers db item k none
