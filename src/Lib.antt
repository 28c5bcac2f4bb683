-- ===== src/Lib.antt =====
-- A laundry's order processing (src/, a NestJS service over PostgreSQL): staff on a pickup run collect
-- an order's items in bags; at the factory each item is tagged and billed, follows a processing route
-- step by step, with exception flows that interrupt it, and is packed; a delivery run brings the
-- packages back, once the order is paid.
--
-- The parts and the files that model them:
-- - Base, Store, Tx, Errors, Idempotency: what the parts share. A transaction is a function from the
--   database to a result or an error (Tx); an error rolls the database back. Store states what the
--   queries of the Prisma client promise, as the record `Prisma`, which every definition that queries
--   takes as an instance; Store.InOrder is a client that keeps the promises. Idempotency is
--   src/common/errors/idempotency.ts; Errors has the subclasses of DomainError of every module, and
--   Errors.Classify is src/common/errors/classify-exception.ts.
-- - Route: src/modules/processing-route/domain. NextStep is next-step.ts; Db has the tables of
--   prisma/schema.prisma that the engine uses; View has buildView of route-engine.service.ts and
--   Load its other private helpers (findNextStep, loadRoute, loadState, initPlan); Engine has its
--   operations: Plans (createPlan, getCurrentState, startCurrentStep, switchRoute), Complete
--   (completeCurrentStep), RouteStep (completeRouteStep), OverrideStep (completeOverrideStep) and
--   Overrides (activateOverrides, skipRemainingOverrides). The stack of an item's exception flows is
--   the set of its ACTIVE override rows, newest first, as in the code.
-- - Billing: src/modules/billing. Repository is infrastructure/prisma-billing.repository.ts, Service is
--   domain/billing.service.ts and the use cases.
-- - Orders: the rows of orders and items that the modules share (prisma/schema.prisma). Lifecycle is
--   the life of an item, as the steps between its statuses; Selected has the lemmas on id columns.
-- - Wash: src/modules/wash. Views has queryProcessingState and buildItemView of
--   infrastructure/prisma-wash.repository.ts; Items has its writes to one item, and
--   TagItemUseCase (tag_item), AssignRouteUseCase (assign_route) and ScanStepUseCase (scan_step),
--   which call the route engine and the billing service within their transactions; Packages is
--   createPackages.
-- - Delivery: src/modules/delivery. Repository has the reads of
--   infrastructure/prisma-delivery.repository.ts; Packages has ScanOutboundUseCase (scan_outbound)
--   and HandoffItemUseCase (handoff_item) with the transactions behind them; Runs has createRun,
--   closeRun and recordHandoffPhoto.
-- - Pickup: src/modules/pickup, infrastructure/prisma-pickup.repository.ts. Runs has createRun and
--   loadActiveRunForStaff; Bags has registerBag, recordPickupPhoto, putItemsIntoBag and handoffBag.
-- - Exception: src/modules/exception. Approval is RespondApprovalUseCase, whose calls are no
--   transaction together: each is a commit of its own (commit), and an error keeps what came before.
-- - Wash.Machine, Delivery.Machine and Pickup.Machine have the calls of their module that return as
--   the steps of a relation on its tables, whatever their arguments and order.
-- - Catalog: src/modules/catalog. Pricing is domain/pricing.ts, on the numbers of
--   Doubles; RouteResolution is domain/route-resolution.ts; Selection is calculateSelectedOptions of
--   infrastructure/prisma-catalog.repository.ts.
-- - Tests: small databases on which the theorems are applied.
-- A module named for what it proves (Choice, Search, Top, Moves, Walk, Stack, Skip, Activate, Nested,
-- Preview, Create, Lifecycle, Flag, Offers, Offered, Resolve, Idempotent, Supplement, Claim, Access,
-- Accepts, Contract, Masking, Find, Gate, Outbound, Loading, Handoff, LastPackage, AtMostOne, OneRun, Again,
-- Effects, Ids, Collect, HandIn, Bags, Items, Invariant, Steps, Scanned, Scans, Outcome, Bills, Agrees,
-- Grouping, Packed, Rows, Whole, Once, Lost, Spares) has the theorems on the module that it stands
-- in or beside.
--
-- How state corresponds to the code: a table is the list of its rows, and a row is a record with the
-- columns that the code reads or writes. Ids are numbers, since the code only compares them. The new
-- row's id and the time come in a record `Env`. The lock that loadState takes, and the transactions,
-- make the operations on one item run one after the other, so each is one step from a database to
-- the next; loads and checks outside a transaction run on the state of their own step. The insert and
-- the fetch of withIdempotency are transactions of their own where no transaction is handed to them;
-- within the caller's transaction PostgreSQL aborts it with the failed insert and refuses the fetch,
-- which is so for the billing of a tagged item.
--
-- Amounts are whole numbers of KRW. A JavaScript number is taken to be exact on them. Quantities are
-- doubles: Catalog.Doubles has their rounded difference, clamped at 0, and their rounded quotient. They
-- are finite and not negative; a negative quantity would be priced as 0.
--
-- Bounds: the number of scans that `scan_until_done` may make, whose theorem says how many are enough;
-- and the 2046 binary digits that the rounding of Doubles may drop, as no finite double has more than
-- 2098 of them in units of the least one, and 53 are kept.
--
-- Not modelled: HTTP controllers and data transfer objects, WebSocket gateways, authentication, the
-- rest of the exception module (the activation of flows, issues and route changes), the rest of the
-- catalog repository (estimates of several items and the creation of orders), the seed, and reads that
-- only map rows to views (findProcessingQueue, findBagWithItems, findRequestPage, findRequestDetail,
-- findActiveVehicles; the options and inputs of an item's view).
pub mod Base
pub mod Store
pub mod Errors
pub mod Tx
pub mod Orders
pub mod Delivery
pub mod Exception
pub mod Pickup
pub mod Wash
pub mod Route
pub mod Catalog
pub mod Idempotency
pub mod Billing
pub mod Tests
