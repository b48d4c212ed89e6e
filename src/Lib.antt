-- ===== src/Lib.antt =====
-- Verification library of the credential issuer (apps/backend/src): a service that blindly signs
-- bundles of credentials, for a paid claim or for a subscription's drip.
--
-- How the program's parts interact, and the files that model them (paths below apps/backend/src):
--   Bundles/Service.antt        bundles/bundles.service.ts: the paid rail. `admit` parses and verifies
--                               the claim and counts rejections, `purchase` goes on to `issue`.
--   Entitlements/*.antt         entitlements/*.ts: the subscription rail. `register`, the schedule,
--                               `advance` (the conditional update that claims a drip) and `pickup`.
--   Issuance/*.antt             issuance/*.ts: `issue`, the path that both rails share: rate limit,
--                               validation, epoch, signatures, and one transaction that claims the
--                               idempotency key, writes ledger and counters and consumes the grant.
--   Payment/*.antt              payment/*.ts: the claim, its signed payload, its verification, decimal
--                               amounts, rejection counters, and the sliding window of the limiter.
--   Accounting/*.antt           accounting/*.ts: epoch counters, and their reconciliation.
--   Keys/*.antt                 keys/keyring.ts, keys/keys.service.ts, keys/root-key.ts, keys/pem.ts: the
--                               keyring file, its checks, the usable epochs, the reloads, PEM; and
--                               health/health.controller.ts.
--   Rotation/*.antt             scripts/rotate-epoch.ts, scripts/vault-kv.ts (from the root): the tool
--                               that makes the next keyring, which the issuer then reloads.
--   Harness/*.antt              packages/buyer-harness/src (from the root): the client that buys from
--                               the issuer, perhaps through a proxy, and judges what it gets.
--   Signing/*.antt              signing/*.ts: the pool of worker threads as a state machine, the worker
--                               and the inline mode, the choice of the suite, the raw RSA step.
--   Errors, Config, Stringify   errors/*.ts, config/issuer.config.ts, and `JSON.stringify` of an
--                               object of texts, as far as the signed payloads use it.
--   Server.antt                 the calls of the controllers and of the repeated job as steps on the
--                               stores, and the issuance of a pickup that was admitted earlier.
--   Prelude, Database, Effect   what all parts share: texts as UTF-16 code units, JSON values, results,
--                               the tables and Redis sets, and actions that may throw.
--   Examples.antt, */Examples   concrete inputs and tests.
--
-- Correspondence. A method becomes a function from its inputs and the stores to a result and the
-- stores after it; a throw is a failure value and keeps what was written, but a transaction rolls
-- back. Field, class and function names are those of the source in snake case. Every loop of the code
-- runs over a list or a count and is structural recursion: there is no fuel, and every function is total.
-- Counters are natural numbers; a `bigint` column and a JavaScript number below 2^53 hold them.
-- Clocks are arguments. A call's statements run without another call's between them, but a pickup
-- reads the schedule and claims the drip at two times, and claims may meet other stores than those
-- that were read.
--
-- Parameters, for code outside the repository: WebCrypto's keys and signatures, SHA-256, `JSON.parse`
-- and `JSON.stringify`, `Date.parse` and `toISOString`, `Number`, the RSA operations of node:crypto,
-- the blind signature suite of the third-party package, `fetch`, and files.
--
-- Not modelled: the patch of crypto.subtle, the keys that are posted to running workers, the command
-- line of the rotation, the scenarios of testing/, and the wiring of NestJS, TypeORM, BullMQ and Redis.
-- Failures of the database or of Redis themselves, and the texts of messages, are left out.
pub mod Prelude
pub mod Bundles
pub mod Config
pub mod Database
pub mod Effect
pub mod Accounting
pub mod Entitlements
pub mod Errors
pub mod Issuance
pub mod Payment
pub mod Stringify
pub mod Server
pub mod Signing
pub mod Keys
pub mod Rotation
pub mod Harness
pub mod Examples
