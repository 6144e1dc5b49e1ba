-- ===== src/Lib.antt =====
-- The core of the Causal Simulation Foundation, under internal/csf of the repository.
--
-- A run of a simulation is a sequence of cycles at eligibility coordinates: an instant, and an
-- ordinal within it. Everything that a cycle reads is a canonical record: bytes in one canonical
-- form, under the hash of what identifies them. Sources append inputs and closures, rounds open
-- slots that actors answer, and an admission fence publishes which prefix of the records a cycle
-- has read. After a fence, nothing at or before its coordinate may be added. A decision over the
-- units of a fence then says, provisionally, which of the actions get what they claim.
--
-- Files, and the code that they model:
--   Base            shared helpers: Boolean tests, lists, results, byte strings, what is used of Go's
--                   strings, integers, sorting
--   Domain          internal/csf/domain/types.go: Compare, NewID, NewDigest, EqualPreimage;
--                   Domain/Patterns has ValidateMachineID, ValidateDomainTag, ValidateTimezone
--   Value           the Go values of type any that the canonical codec knows
--   Codec           internal/csf/codec/codec.go: CanonicalBytes, CanonicalPayload,
--                   StrictDecodePayload, StrictDecodeEnvelope, normalize; Codec/ReadBack says what
--                   an encoded value is read back as
--   Clock           internal/csf/clock/clock.go and cascade.go: Next, Confirm, SuccessorFloor,
--                   ApplyAdvance, CascadeExceeded; Clock/Wire has Encode, Decode and EncodePlan of
--                   internal/csf/clock/codec.go
--   Schedule        internal/csf/schedule/schedule.go: PendingRecords, which feeds Next
--   IngressGuard    internal/csf/ingressguard/guard.go: Parse, FenceCoordinate, Check
--   Store           internal/csf/persistence/memory/store.go: every method of the store, which
--                   calls the ingress guard; Store/Run has sequences of calls
--   Identity        internal/csf/policy/bundle.go (Operation) and internal/csf/identity/deriver.go
--                   (Sum, OpaqueContentHash); Identity/Bundles has the rest of bundle.go: in its
--                   children Manifests verifyManifest, Receipts verifyReceiptFile, Load Load, and
--                   Policies RequiredPolicyRoles and GenesisPolicyRefs
--   Ledger          internal/csf/inputledger/ledger.go over the in-memory store, with the tests of
--                   the fields of a record in Ledger/Bodies: Ledger/Slots has RegisterDispatch,
--                   RevokeDispatch and Respond, Ledger/Run sequences of these, Ledger/Sources
--                   AppendInput, Ledger/Closures DeclareSource and CloseSource, and Ledger/Rounds
--                   DeclareRound. Ledger/Histories has Open, restore and AdmissionView, over
--                   Ledger/Records (restoreInput and the other four of these, two in
--                   Ledger/Records/Replies) and Ledger/Restore (the records one by one; the loop
--                   and the answers of slots in Ledger/Restore/Answers); Ledger/Snapshots has
--                   Sources, Prefix, Snapshot and projectSettledNoProposalRounds
--   Admission       internal/csf/admission/fence.go: the checks of the records, Admission/Units
--                   the proofs of closure and the admitted units, Admission/Derive Derive and
--                   VerifyFence, Admission/Coordinator the fence log and AdmitThenEvaluate
--   Decision        internal/csf/decision: the types of kernel.go, with validateResponse in
--                   Decision/Responses, Decision/Aliases resolveAliases, Decision/Candidates
--                   MakeCandidate, CheckPartition and assess, Decision/Claims and its child
--                   Conflicts DetectClaims, Decision/Draws namedDraw (with NamedSubstreamV1 of
--                   internal/csf/identity/deriver.go), Decision/Run Run of run.go with the loops
--                   in Decision/Gather, Decision/Allocation and Decision/Disposal,
--                   Decision/Results seal, Decision/Bridge FromPersistedFence of fence_bridge.go,
--                   Decision/Policies policyRefs over the loaded bundle. The other modules there
--                   have the proofs
--   Trigger         internal/csf/trigger/trigger.go: Validate, Causes, Evaluate; Trigger/Wire has
--                   RuntimeBytes and DecodeRuntime of runtime_codec.go there, Trigger/Rearm
--                   RearmPure, Trigger/Registry DefinitionBytes, DecodeDefinition and
--                   CanonicalDefinitions of authority.go, Trigger/Lifecycle CycleActivation and
--                   LifecycleEvent
--   Reducer         internal/csf/reducer/testresource.go: the stock of a resource and Consume
--   Tests           the theorems at concrete data
--
-- Go values are modelled as follows. An int64 is an integer, with the bounds of the source written
-- out where it tests or adds; an unsigned integer is a natural number, and wraps where the source
-- adds without a test. A string, a []byte and a [32]byte are lists of numbers. A map is an
-- association list that is read from the front. An error is a constructor of the component's error
-- type, and a pair (value, error) is a result. A method that changes state takes the state and
-- returns the new one; a call that returns an error leaves the state. The locks of the store and of
-- the ledger make each method one step, and interleavings of callers are sequences of calls. An
-- admission is several steps of the store: the calls that other writers make between its view and its
-- append are an argument of publish_fence.
--
-- Loops are recursive on their list. The binary search of the code point table takes the length of
-- the table as fuel, which the width of its range never exceeds: that this is enough is part of
-- the theorem on it. Regular expressions are matched by derivatives, one for each byte.
--
-- Parameters: the CBOR library, the Unicode normaliser, the generated table of unassigned code
-- points (the record Codec.Library), and SHA-256. No theorem assumes that a hash has no collisions.
-- Some theorems assume something of a library, which is then named in their statement: that a
-- normal form of Unicode is its own normal form and ASCII text is one, that CBOR reads a value
-- without maps and floats back, with every integer that is not negative an uint64
-- (Codec.ReadBack.ReadsPlain), and that a digest has 32 bytes.
--
-- Further parameters are what is read through an interface that the in-memory store does not have:
-- the settled units of a run and the units of the schedule and the triggers, both none for that
-- store; and the reader of published fences. A bundle is loaded over what os.ReadFile reads below its
-- directory, which stays the same meanwhile, and over the decoder of encoding/json. Run takes the
-- references that policyRefs returns as an argument, and Operation the registries as they are
-- decoded. A stage of Run that fails returns the result as far as it is built, with the error.
--
-- Not modelled: the branch of normalize that reads named Go types by reflection;
-- SharesFenceAuthority, which compares pointers (ledger and fence log are given one store);
-- the order in which Go visits a map, where it only selects one of several errors; the SQL
-- persistence, which is statements for a database outside the repository; the settlement, commit,
-- genesis, communication and perception packages, which assemble further canonical records from
-- what the modelled parts decide; and the harnesses and tools that only drive the packages.
mod Base
pub mod Domain
pub mod Value
pub mod Codec
pub mod Clock
pub mod Schedule
pub mod IngressGuard
pub mod Store
pub mod Identity
pub mod Ledger
pub mod Trigger
pub mod Reducer
pub mod Admission
pub mod Decision
mod Tests
