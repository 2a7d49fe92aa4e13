-- ===== src/Lib.antt =====
-- Recurring payments on Stellar: the off-chain program, in TypeScript. A merchant's API keeps a catalog and
-- checkout sessions, issues and completes the authorizations that queue charges against a payer's mandate,
-- and takes refund requests; a relayer simulates, checks and submits the charges on the chain, records the
-- payments and announces them by signed webhooks; a web application shows the payer what a mandate allows.
-- The parts share one database and one frozen table of contract errors.
--
-- Files, with the code they model (paths from the repository's root):
--   Stellar/Errors: packages/stellar/src/errors.ts, the table and its decoders.
--   Stellar/Authorization: packages/stellar/src/merchant-authorization.ts, what the merchant's wallet signs
--     for one charge and the validation of what it has signed.
--   Client/Mandate, Client/Ids: packages/contract-client/src/domain.ts, the types of mandates and receipts, and
--     ids in hexadecimal, with how they are written in Written.
--   Client/Bindings, Client/Calls: the conversions of domain.ts from and to the shapes of the generated client,
--     and packages/contract-client/src/client.ts, its calls.
--   Client/Events: packages/contract-client/src/events.ts, the decoding of an event of the chain, with what a
--     value that passes its tests is in Natives, and what the contract publishes in Published.
--   Store: the tables of prisma/schema.prisma that the modelled code reads and writes, the log of calls
--     to the chain and of webhook requests, the clock, and the faults that the code throws.
--   Api/ChargeStatus: apps/api/src/state-machine.ts, the states of a charge request and
--     `transitionChargeRequest` (`transition`), which the relayer imports.
--   Api/DeliveryStatus: apps/api/src/webhook-state-machine.ts, the same for webhook deliveries.
--   Api/Precheck: apps/api/src/chain/precheck.ts, `precheckCharge`.
--   Api/Idempotency: apps/api/src/idempotency/middleware.ts, `runIdempotent`.
--   Api/HttpErrors: apps/api/src/errors.ts, the HTTP statuses of contract errors.
--   Api/Auth: apps/api/src/auth, with scopes.ts in Scopes, api-key.ts in ApiKeys and Rotation,
--     merchant-session.ts in Sessions, the hook of plugin.ts in Hook, the routes of
--     apps/api/src/routes/merchants.ts in Accounts, and their tables, apart from those of Store, in Tables.
--   Api/Reader: the production reader of apps/api/src/chain/mandate-reader.ts.
--   Api/Routes: apps/api/src/routes with apps/api/src/schemas. Charges, Refunds and Payments (payments.ts), Products,
--     Mandates, Checkout (checkout-sessions.ts) and Endpoints (webhook-endpoints.ts) hold the handlers (those of
--     charges.ts are in Charges/Issue, Charges/Complete and Charges/Reading), and their child modules the proofs;
--     Routes itself holds what they share, with the interface of
--     apps/api/src/chain/mandate-reader.ts, Listing the order and limit of the lists, Inversion what a
--     handler that returned has passed, and Isolation, with its child modules, what a merchant sees of a store
--     that others share, and the references between rows on which that rests.
--   Relayer/Retry, Relayer/Classify: apps/relayer/src/retry-schedule.ts, webhook-retry-schedule.ts and
--     classify.ts.
--   Relayer/Gateway, Relayer/Context, Relayer/Webhook: the interface of chain-gateway.ts, context.ts, and
--     `enqueueChargeWebhook` of webhook.ts, all in apps/relayer/src.
--   Relayer/Soroban: the production gateway of chain-gateway.ts, with packages/stellar/src/submit.ts;
--     Comparing joins it to the comparison of receipts in the pipeline.
--   Relayer/Pipeline: apps/relayer/src/pipeline.ts. Process, Authorize, Prepare and Settle hold the steps
--     of `processChargeRequest` in the order of the source, Fail its closure `fail`, Writes its database
--     writes; State and Ends say what is known between steps and at the end, and Failing, Settling,
--     Preparing, Authorizing and Running prove it from the last step to the first.
--   Relayer/Delivery: apps/relayer/src/webhook-delivery.ts and webhook-classify.ts; Eventually runs the jobs
--     of one delivery one after the other.
--   Relayer/Http: apps/relayer/src/webhook-http.ts, `sendWebhook`.
--   Relayer/Scheduler: apps/relayer/src/scheduler.ts and webhook-scheduler.ts; Queued joins the completion of
--     an authorization in the API to the relayer's queue.
--   Relayer/Indexer: apps/relayer/src/indexer, with mandate-index-sync.ts in Sync, cursor.ts and indexer.ts
--     in Tick, what every step keeps in Keeps, and in Fetch, with its
--     child modules, the page of events that the production gateway of chain-events-gateway.ts takes through
--     packages/stellar/src/events.ts.
--   System: the API and the relayer together, over the tables of charges and payments: the abstract life of a
--     charge, with Queueing for the completion of authorizations, Working for the jobs and the recovery, and
--     Running for sequences of their steps.
--   Web/MandateStatus, Web/Terms, Web/Checkout, Web/Revoke, Web/Display: mandate-status.ts,
--     mandate-terms.ts, checkout-state.ts, revoke-flow.ts and a type of errors.ts in apps/web/src/lib;
--     Web/Terms/Derived joins the products of the API to the terms of the checkout, through the type of the
--     public answer in api.ts. The date of a first charge is modelled as the code, the precheck and the
--     contract have it: no interval is waited for, which the comment of `computeNextEligibleChargeDate` and
--     docs/architecture.md would add.
--   Shared/Money: packages/shared/src/money.ts, decimals and base units, with their round trip.
--   Shared/HexId: the ids of 32 bytes of packages/shared/src/types.ts.
--   Shared/UrlGuard: packages/shared/src/webhook-url-guard.ts, which URLs and addresses are let through.
--   Shared/Signature: packages/shared/src/webhook-signature.ts, and packages/sdk/src/verify-webhook.ts, which
--     verifies for the merchant what the relayer signs.
--   Base: tests, tables, integers and the effect of asynchronous code, shared by all.
--
-- The database. A table is a list of rows; `findUnique` and `findFirst` take the first row that passes,
-- `updateMany` updates every row that passes and counts them, `create` adds a row after a test of the
-- unique columns that matter. A transaction that throws restores the store of its beginning. Keys are
-- unique by a hypothesis (`HasUniqueIds`), which the schema's primary keys state and which every modelled
-- write is shown to keep where a theorem needs it. The clock of the store is both `now()` and the time that
-- the database client writes on an update; it stands still during one run. Amount columns hold decimal
-- digits and are modelled by the number. A payload is a list of named texts.
--
-- The outside. A chain gateway is the answers of its methods, each of which a run calls once at most, so a
-- theorem for every gateway covers every behaviour of the chain during that run; the reader of the API is
-- given in the same way. Encryption, hashes, random ids, the URL parser, the lookup of a host, `fetch` and
-- the queue are parameters, and so are, of the Stellar SDK, the XDR codec, the test of signatures, the
-- conversion of values, the generated client, its transactions and the server's events. The worker takes
-- the sending of a webhook as a parameter, and the sender is modelled on its own. One run is atomic here:
-- another worker acts before it or after it, and the races on a row are those of the guarded transitions.
-- The handler of a route runs over the database and the table of idempotency keys, with the merchant that
-- the hook found; its body is parsed as far as its schema restricts it, and the order in which its checks
-- refuse is the source's.
--
-- Bounds. Amounts, times and counts are natural numbers; every difference that the source takes is either
-- guarded or written as a sum. The one bounded loop, the four rounds of `computeNextEligibleChargeDate`, is
-- recursion on the number of rounds left, and its theorem shows that two are enough. Printing a number is
-- recursion on a bound above it, one more than the number, which the round trip shows to be enough.
--
-- Not modelled: the Soroban contracts in Rust, which are another language; the routes of consumer.ts, which
-- read only; the client of the SDK, configuration, logging and metrics, and the React components.
pub mod Base
pub mod Stellar
pub mod Client
pub mod Store
pub mod Api
pub mod Relayer
pub mod Web
pub mod Shared
pub mod System
