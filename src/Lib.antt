-- ===== src/Lib.antt =====
-- A verification library for the battery passport platform: a service that collects the data points
-- of a battery passport, assesses how ready a passport is, publishes immutable versions of it and
-- gives readers the part that they may see.
--
-- The parts, and the code that they model (paths from the root of the repository):
-- - Rules: packages/rules/src. `Rules.Catalogue` is data-points.json, `Rules.Engine` engine.ts with
--   its cross-field checks in `Rules.Engine.Cross`, `Rules.StateMachine` state-machine.ts,
--   `Rules.Registry` registry.ts, `Rules.RegistryIdentity` registry-identity.ts, `Rules.Access`
--   access.ts, `Rules.Types` types.ts.
-- - Json and Canonical: JSON values and apps/api/src/common/crypto/canonical.ts.
-- - Store: the rows of apps/api/prisma/schema.prisma and the queries on them.
-- - Tenant: apps/api/src/common/tenant. `Tenant.Scope` is authorisation-scope.decorator.ts,
--   `Tenant.Access` tenant.guard.ts (`can_activate`) and tenant-db.service.ts (`run`),
--   `Tenant.PassportLock` passport-lock.ts.
-- - Batteries: apps/api/src/modules/batteries (`Batteries.Review` is applicability-review.ts,
--   `Batteries.Handlers` batteries.controller.ts).
-- - Passports: apps/api/src/modules/passports and modules/lifecycle. `Passports.Data` is
--   passport-data.service.ts, `Passports.Projection` passport-projection.ts, `Passports.Document`
--   passports.controller.ts (`validate`, `publish`), `Passports.Lifecycle` lifecycle.controller.ts
--   (`event`, `telemetry`).
-- - Values, Authorisations, Access: the controllers of apps/api/src/modules/values, authorisations
--   and access, with access-token.service.ts.
-- - Limiter: apps/api/src/common/http/security.middleware.ts.
-- - Storage: apps/api/src/common/storage. `Storage.Clamd` is `clamdRequest` and `Storage.Scanner` the
--   rest of malware-scanner.service.ts, `Storage.Objects` storage.service.ts.
-- - Evidence: evidence-storage.service.ts of the same folder (`load` to `reject_loop` in `Evidence`,
--   `create_upload`, `finalize`, `verify`, `for_extraction` in `Evidence.Handlers`, `review_download`
--   in `Evidence.Download`) and `link` of apps/api/src/modules/evidence/evidence.controller.ts.
-- - Registry: apps/api/src/modules/registry. `Registry.Xml` and `Registry.Draft` are
--   registry-contract.ts, `Registry.Preparation` registry-preparation.service.ts (`prepare`),
--   `Registry.Identity` registry-identity.service.ts (`gate`).
-- - Auth: apps/api/src/common/auth. `Auth` is auth-config.ts and the constructor of auth.service.ts
--   (`configure`), `Auth.Tokens` its methods with auth.guard.ts and roles.guard.ts (`admit`).
-- - Patterns: the regular expressions and text tests that several of them use.
-- - Suppliers: apps/api/src/modules/suppliers (`submit`, `accept`, `resolve`; `create_request`
--   and `portal_session` in `Suppliers.Opening`).
-- - Web: apps/web/lib/public-passport.ts (`project_public_passport`), and
--   backend-policy.ts (`same_origin_request`, `read_bounded_body`).
-- - Tests: concrete data, and the theorems at work on them.
--
-- How they interact: a request passes the tenant guard, a handler runs inside `run`, locks the item
-- or the model, reads and writes rows, and invalidates publications that its writes make stale.
-- Publication assesses the locked data with the rules, hashes the canonical document and stores a
-- version and a public snapshot. Sessions read versions through the projection.
--
-- Conventions. A handler is a function from the database (`Store.Rows.Db`) into `Outcome`: a code of
-- an exception, which undoes the transaction, or a result beside the new database; `prepare`, which
-- throws after its transaction has committed, has the exception in its `Answer`. Transactions run
-- one after another, which the row locks of the code provide for the rows that they share. A request
-- that waits for the object store between its transactions takes what each of them sees as an
-- argument (`Evidence.Views`), so that other requests may run in between. Rows
-- stand in the order of their creation. Identifiers and hashes are natural numbers, times are
-- milliseconds since 1970, a text is its list of UTF-16 code units where the code looks inside it.
-- The clock readings and random identifiers of a request are numbered streams (`time`, `uuid`); the
-- readings inside one `validateTx` are taken to be equal. A
-- request body is what its schema has accepted. Numbers in JSON are the bit patterns of doubles.
-- Parameters stand for what is not in the repository: SHA-256, the printing of numbers and texts,
-- the arithmetic of doubles, the reading of addresses (`new URL`), the base address of the resolver,
-- and the object store with its clock and the sockets of the scanner (`Storage.Objects.Services`), and
-- the library that signs and verifies tokens (`Auth.Tokens.Jose`).
-- The fuel of `chunks_from` is one round for each record and one more, which is enough because each
-- round consumes at least one record; that of `reject_loop` is the three attempts of the code.
--
-- Not modelled: messages and audit metadata, unique constraints of the database (a write that breaks
-- one fails in the program), row-level security, the read-only routes, the signed
-- addresses of uploads, the extraction job, the creation of suppliers, the
-- printing of Registry drafts, the export of documents, and the rest of the web sites, their sign-in
-- among it.
mod Prelude
pub mod Rules
pub mod Json
pub mod Canonical
pub mod Patterns
pub mod Storage
pub mod Batteries
pub mod Tenant
pub mod Store
pub mod Passports
pub mod Values
pub mod Authorisations
pub mod Access
pub mod Limiter
pub mod Registry
pub mod Evidence
pub mod Auth
pub mod Suppliers
pub mod Web
pub mod Tests
