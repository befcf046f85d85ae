-- ===== src/Lib.antt =====
-- A verification library for the agentic freight venue. Agents of brokers and carriers negotiate a
-- load through a venue. Each agent's principal signs a mandate, a set of limits that its agent is held
-- to, and the venue holds the agent to the part that the mandate's envelope discloses. The venue binds
-- the bargain, stands behind it with a guarantee that its underwriting engine prices and bounds, keeps
-- a hash-chained ledger of what happened and an audit log of what was refused, and follows the load
-- until it is delivered, disputed or voided.
--
-- The program's parts, with paths from the repository's root, and the files here:
-- - src/mandate/engine.ts and exposure.ts, types.ts, sign.ts: Mandate. evaluateMandate is
--   evaluate_mandate (Mandate/Engine), its envelope envelope_to_limits and issue_envelope
--   (Mandate/Limits), ExposureBook with add, release, outstanding and daily Mandate/Exposure.
-- - src/underwriting: Underwriting. assessRisk and pricePremium are Underwriting/Model, adjudicate and
--   the claims Underwriting/Claims, the engine's state with attach, complete and release
--   Underwriting/Engine, exposure and quote Underwriting/Quoting, the methods on claims and capital
--   Underwriting/Settlement, and any sequence of calls Underwriting/Run. The engine holds two exposure
--   books of the mandate part.
-- - src/protocol/canonical.ts, ledger-hash.ts, reasons.ts, freight.ts and clock.ts: Protocol.
-- - src/ledger/chain.ts: Ledger/Chain (Ledger.append, verifyChain under one key, slice, forkView,
--   truncate).
-- - src/protocol/audit.ts: Ledger/Audit (write, writeOnce, verifyAuditChain, and the constructor as
--   reopen).
-- - src/protocol/freight.ts and registry.ts: Protocol/Terms (loads, terms, termsHash, loadFingerprint)
--   and Protocol/Insurance (coverageAssuredThrough, renewalWindow, satisfiesRenewal).
-- - src/venue/service.ts and state.ts: Venue. A venue's state (Venue/State, Venue/Task) holds the
--   agents, the negotiations, the commitments, the outbox, the write-ahead journals, each agent's
--   exposure book, the underwriting engine's state and the ledger. advance is Venue/Negotiation with the
--   guards of Venue/Moves and the acceptance of Venue/Acceptance (checkAcceptTerms and the
--   countersignature); commit is prepare up to its journal (Venue/Prepare) and commit_finished
--   (Venue/Commit), with applyCommit and the part of recover on commit journals; terminate, fail,
--   expireStaleTasks, cancelSiblings and the answer to tasks/get are Venue/Ending; ingest with its nonces and their sweep is
--   Venue/Inbox, startNegotiation Venue/Intake, the choice of its reason Venue/Specificity;
--   recordLifecycle is Venue/Lifecycle; voidCommitment, applyVoid and the part of recover on void
--   journals are Venue/Voiding; redactForCounterparty is Venue/Redaction. A chain of checks ends in a
--   value, in a refusal that ends the negotiation, or in a missing record on which the source throws
--   (Venue/Step). What the venue learns of a party from the identity and the registry services is the
--   record Venue/Standing, a parameter, as are the reading of a date, the normalization of an address
--   and the printing of a time.
-- - src/identity/verifier.ts: Identity/Verifier (verifyCredential, signatureTrustedAt,
--   verifyPresentation).
-- - src/protocol/witness.ts: Witness/Receipts (signReceipt, the proofs of equivocation,
--   witnessedAsOf).
-- - src/protocol/inclusion.ts: Witness/Inclusion (notices, promises, findInclusion).
-- - src/agents/broker/strategy.ts and src/agents/carrier/strategy.ts: Agents.
-- Common has what they share: Boolean tests and equality, lists measured by native numbers,
-- JavaScript's records keyed by strings, and integers.
--
-- Conventions. Money is a number of cents, a probability, a factor or a share a number of
-- ten-thousandths, a time a number of milliseconds; the source computes with floats, the model
-- exactly, and rounds where the source rounds. A number that may fall below nothing is an integer. A
-- random identifier and the clock are arguments. A method that changes an object returns the new
-- state; an object that the source changes in place inside a map is written back under its key. Every
-- function is structurally recursive, so no fuel is used. SHA-256, JSON's printing of texts and
-- numbers, and signatures are a parameter (Protocol.Canonical.Primitives) with two laws: a hash is not
-- empty, and a signature by a key verifies under its public key. That a hash tells entries apart is a
-- hypothesis where it is used.
--
-- Not modelled: HTTP, files, SQLite, timers, pages and process supervision; the language-model
-- strategy; the simulator; command lines; the registry's service; of the identity part, the live
-- check, issuing, control proofs and vetting; keys, certificates and the verification of a ledger from
-- a root; artifacts; the witnesses' rounds; the delivery of queued notices and of forwarded messages,
-- the sweeps before pickup and over renewals; EDI. Texts for the record (bases, notes, evidence) are
-- left out or kept as values; of the evidence of a refusal, the entries that the venue reads again. Of a
-- restart, the journals are modelled, with a crash after each of the writes that applyCommit and
-- applyVoid make, where the engine's files count as one write; the sum of the portfolio is
-- Underwriting/Run, while the retry of accepted negotiations and the shift of their clocks are left
-- out. Capital is only added.
pub mod Common
pub mod Protocol
pub mod Mandate
pub mod Underwriting
pub mod Identity
pub mod Ledger
pub mod Venue
pub mod Agents
pub mod Witness
