-- ===== src/Lib.antt =====
-- PrintQ: students order prints online, check in at the shop, wait in a live line and collect at the
-- counter. This library models the server's core in apps/api/src/modules and the rules shared by
-- server and clients in packages/shared/src.
--
-- The parts and their files:
--   Base          names, Boolean tests, list functions, the stable sort, the result type, and
--                 Base/Updates on updates of the row with an id.
--   Status        packages/shared/src/stateMachine.ts: states, events, `transitions` (TRANSITIONS),
--                 `transition`; Status/Lifecycle is about runs of the table.
--   Job           the job row of apps/api/prisma/schema.prisma, and the specs of types.ts.
--   Bands         packages/shared/src/queueBands.ts: `queue_band`, `assign_bands`.
--   Queue         apps/api/src/modules/queue/bands.ts: `build_shop_queue`, `sort_queue_jobs`;
--                 Queue/Pass is the SQL of lockedRevealPass with runRevealPass, Queue/Snapshot is
--                 needsReconcile, loadShopQueue, applyPassToQueue and reconcileShopQueue.
--   Store         apps/api/src/modules/jobs/transitions.ts: the tables and `apply_transition`.
--   Engine        apps/api/src/modules/queue/engine.ts: Engine/CheckIn is checkInJob up to its commit,
--                 Engine/Absent is markAbsent and its callers, Engine/Visibility is visibility.ts.
--   Release       apps/api/src/modules/queue/release.ts: Release/Commit composes `release_by_otp`, with
--                 the update of dispatchJob of engine.ts.
--   Printing      apps/api/src/modules/jobs/printLease.ts (Printing/Session has its two sweeps) and
--                 printCompletion.ts, and of apps/api/src/modules/agents/routes.ts the claim
--                 (Printing/Claims is about its two statements, interleaved with others) and the
--                 reports of an agent (Printing/Report).
--   Assignment    packages/shared/src/assignment.ts and capability.ts, and rankFromSnapshot.
--   PageRange     packages/shared/src/pageRange.ts: parsePageRange, countSelectedPages; PageRange/Normal
--                 is normalizePageRange.
--   Pricing       packages/shared/src/pricing.ts.
--   Queueing      packages/shared/src/queueing.ts.
--   Shops         apps/api/src/modules/shops: visibility.ts, availability.ts, autoLive.ts, and
--                 isPublishedShop of public/discovery.ts; Shops/Live relates them.
--   Fees          apps/api/src/modules/fees: the fee books of a shop. Fees/Account is account.ts,
--                 Fees/Enforcement enforcement.ts, Fees/Payments, Fees/Reconcile and Fees/Stuck
--                 payments.ts, Fees/Prepaid what a leftover pays; Fees/Run is about all of them.
--   Commission    apps/api/src/modules/commission: statements.ts and statementService.ts, the weekly
--                 statement over the same books.
--   Earnings      apps/api/src/modules/earnings/service.ts: the ledger of a shop; Earnings/Payouts
--                 is its payouts, Earnings/Run is about sequences of its calls.
--   Orders        apps/api/src/modules/jobs/routes.ts (POST /): Orders is what createPreparedJob checks
--                 and computes before it writes, with coupons.ts and lib/fileRetention.ts;
--                 Orders/Prepare is what it writes, with allocatePayAtShopCode of engine.ts. Orders/Cancel is
--                 POST /:id/cancel.
--   Refunds       apps/api/src/modules/payments/refund.ts: the calls of refundIfPaid for one job, whose
--                 answers may get lost.
--   Samples       concrete rows; each Tests module applies the theorems at them.
--
-- How the parts interact: every status change of the engine and of printing is a `Change` that goes
-- through `Store.apply_transition`, which asks `Status.transition` and then updates at most one row
-- together with its audit row and its outbox row. A check-in reads a snapshot, ranks the printers
-- (Assignment) and commits against a store that others may have changed meanwhile, so both stores are
-- arguments; the absent timer likewise. The reveal pass works on the job rows of the store and reads the shop's settings; a
-- single pass is one step, since it runs under an advisory lock of the database. The fee books and
-- the ledger are changed by calls that the database makes atomic, so `FeeStep` and `LedgerStep` have
-- one step for each; a payout is two steps (claim, and write of the provider's answer), since the
-- provider is called between them and other calls may come first. A refund is two steps for the same
-- reason, and the claim of a print is two, since its two statements commit apart. An order is created from Shops (is it operational), Assignment (can
-- its printers make it) and Pricing, and gets its code by `apply_transition`. Statements (Commission)
-- are paid by Fees and charged to its books.
--
-- How the code is represented: an asynchronous function is a function from the tables that it reads
-- to the tables that it leaves and its result; an exception is `throw`. Ids and hashes are numbers, as
-- the code only compares them. Instants are milliseconds. `new Date()` and `randomUUID()` are
-- arguments. A difference of instants that can be negative is compared by a sum instead. Amounts are
-- integer paise. SQL is modelled by what the statement selects and writes. Texts are lists of UTF-16
-- codes. Parameters stand for code that is not here or not exact: `distance_meters` (floating-point
-- geometry), the digest of a code and the check of an old hash (cryptography), and `mark_up`
-- (rounding of a floating-point product; a theorem on it names the law that it needs), and the decimal
-- text of a number and the trimmed upper case of a coupon code (functions of the language). There is no
-- fuel: every loop is structural recursion on its list, or on a number of rounds that the source
-- computes before the loop.
--
-- Not modelled: notifications, socket events, timers and background work that follow a commit; the
-- single-flight coalescing of passes; the idempotency keys and locks of an order (Redis); online
-- payments, the HTTP layer of fees and earnings, the posting of commission entries, files,
-- authentication, administration, the web application and the desktop agent. Payment and payout
-- providers are external: their answers are arguments.
pub mod Base
pub mod Status
pub mod Samples
pub mod Bands
pub mod Job
pub mod PageRange
pub mod Fees
pub mod Shops
pub mod Orders
pub mod Refunds
pub mod Earnings
pub mod Commission
pub mod Pricing
pub mod Queueing
pub mod Printing
pub mod Assignment
pub mod Queue
pub mod Store
pub mod Engine
pub mod Release
