-- ===== src/Lib.antt =====
-- ProofChain: batches of weighed-in recyclables, sealed under a Merkle root that is anchored on the
-- Stellar ledger.
--
-- The parts, and the files that model them:
--
--   * Merkle (packages/shared/src/merkle.ts). hashLeaf, hashInternal, buildMerkleTree,
--     merkleRootHex, merkleProof and verifyMerkleProof, under these names in snake case. A hash is
--     its hex string. SHA-256 is a parameter (Hashing); only the form of its digest is assumed,
--     64 lowercase hex digits. Hashing/Hex reads a hex string as `Buffer.from(s, "hex")` does on
--     such strings, Hashing/Utf8 encodes a string of UTF-16 units.
--   * Database (apps/backend/src/database/entities.ts). A table is the list of its rows. Weights are
--     integers in grams, since the columns have three decimals; the source adds them as doubles and
--     rounds the sum to three decimals. Instants are in milliseconds.
--   * Batches (apps/backend/src/batches/batches.service.ts). The lifecycle: create, addEvents,
--     removeEvent, seal, advanceStatus. Batches/Anchoring has the queue of the anchor worker, the
--     write-back of its results and verifyEvent, Batches/Health the views for an operator. Fresh ids
--     and the clock are arguments. Each method takes the database and returns it changed, or the
--     exception.
--   * Attempts (apps/backend/src/batches/anchor-attempts.service.ts) and Backoff
--     (apps/backend/src/batches/anchor-backoff.ts): the history of anchoring, from which the queue
--     computes when a batch is due again.
--   * Canonical (packages/shared/src/canonical-core.ts, canonical.ts) is the string that a device
--     signs, Signing (packages/shared/src/signing.ts) the check of the signature; Node's base64
--     decoder and ed25519 verifier are parameters. Canonical/Captured has a payload with a weight of
--     any precision and `quantise`, which rounds it to grams. Elsewhere a payload's weight is in whole
--     grams: the DTO of ingest refuses more than three decimals (apps/backend/src/common/dto.ts).
--   * Integrity (apps/backend/src/events/integrity.ts) has the checks of a weigh-in, Events
--     (apps/backend/src/events/events.service.ts) its ingest. Devices, collectors and hubs, which
--     ingest only reads, are the rows of a Registry.
--   * Materials (apps/backend/src/materials/materials.service.ts): the gates that batch creation and
--     ingest pass; Materials/Catalogue has the changes of the catalogue, Materials/Vocabulary the form
--     of a code and of the listed products (packages/shared/src/materials.ts).
--   * Custody (apps/backend/src/custody/custody.service.ts): the hand-over of a batch.
--   * ImageType (apps/backend/src/photos/image-type.ts): the type of an image from its bytes.
--   * RateLimit (apps/backend/src/common/rate-limit.guard.ts): the guard of the public routes, over
--     Table, which is a `Map` with string keys.
--   * AnchorWorker (services/anchor-worker/src/anchor.ts, index.ts): one cycle of the worker, which
--     asks the backend for the queue, submits each root to the ledger, reads it back and writes the
--     result to the backend. The Stellar SDK, the HTTP calls and the timers are parameters, which
--     answer out of a state of their own; the model also keeps the list of the requests made.
--   * MobileQueue (apps/mobile/src/lib/queue.ts, api.ts): the offline queue of the mobile app and the
--     pass that syncs it; post, upload and connectivity are parameters, as they are in the source.
--     IntegrityCopy (packages/shared/src/integrity-copy.ts) has the texts for a collector.
--   * Photos (apps/backend/src/photos/photos.service.ts, photo-store.ts): the upload of a photo and the
--     store that keeps it under its digest; the files are a table by path.
--   * Enrolment (apps/backend/src/collectors/registry.service.ts): the enrolment and the revocation of
--     a device.
--   * Ledger (apps/backend/src/ledger/ledger-verification.service.ts, horizon.client.ts): the anchor
--     read back off the ledger. Ledger/Service has the cache and the reads in flight, whose state
--     changes when a caller asks and when a read ends. For verifyEvent in Batches the service is a
--     parameter.
--
-- Batches/Reach puts the requests together: a step is one request of the batch services or of ingest
-- that succeeds, or a change of the catalogue. Requests that lock a row run one after the other, so
-- that an interleaving is a sequence of steps. The upload of a photo is no step: it sets the photoUri
-- of an event, which no batch operation reads, and Photos has it over a state of its own.
--
-- The loop of buildMerkleTree runs on fuel, the number of leaves; each round but the last shortens
-- the level, and Merkle/Rounds has the proof that the loop ends by its own test within the fuel.
-- The digits of a weight run on fuel too, one round more than the number of kilograms. All other
-- functions are structural.
--
-- The operations of the mobile queue are modelled one after the other. In the source enqueue and update
-- await between reading the queue and writing it, so that two of them at once can lose a change.
--
-- A pass over the mobile queue and a cycle of the worker are folds over a list that is read first.
-- Instants that the apps keep as ISO strings are modelled by their milliseconds, whose order is that
-- of the strings.
--
-- Not modelled: the web framework and its controllers, the SQL behind the repositories, the screens
-- of the apps, the web capture app and the dashboard, the Soroban contract, and the services of the
-- backend that are not named above.
pub mod Prelude
pub mod Hashing
pub mod Merkle
pub mod Database
pub mod Errors
pub mod Materials
pub mod Attempts
pub mod Backoff
pub mod Canonical
pub mod Signing
pub mod Integrity
pub mod Events
pub mod Table
pub mod RateLimit
pub mod IntegrityCopy
pub mod MobileQueue
pub mod AnchorWorker
pub mod Photos
pub mod Enrolment
pub mod Custody
pub mod ImageType
pub mod Ledger
pub mod Batches
