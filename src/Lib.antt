-- ===== src/Lib.antt =====
-- Agent Context Broker: models of its core components, with the theorems that make them correct.
--
-- Json models the canonical form of JSON values, `stableValue` and `stableJson` of src/event-store.mjs,
-- over which every hash of the program is taken. Json.Order and Json.Stable hold its laws.
--
-- EventStore models the log of events of src/event-store.mjs, a directory of record files, each with
-- the id of the one before, a head, and an index of idempotency keys.
--   EventStore.Event     the events and `buildEvent`; .Validate `validateEventInput`; .Build what a
--                        built event satisfies
--   EventStore.Files     the files, `recordFiles`, `expectedHead`; .Verify `verifyEventStore` and
--                        `verifyEventTail`; .Index the index of keys; .Append `appendBrokerEvents`;
--                        .HeadRepair `repairEventHead`
--   EventStore.Chain     the chains that a reader accepts; .Listing, .Lookup and .Synced hold how
--                        files, index and readers behave on one
--   EventStore.Log       the contract, a list that grows at its end; .Refine and .Batches show that
--                        the files follow it, .Readers what the readers accept, .Repair and
--                        .Quarantine what the repair does
-- A record file has its number and id for a name and an event for its content, or is garbled; a reader
-- sees the head before and after the records, three times at most. Whether a call gets the lock is an
-- argument. A number that is no natural number is its text, and whether it is between 0 and 1.
--
-- Corrections models src/corrections.mts on top of the event store: proposals, and decisions on them
-- that name the proposal and the revision they have observed. Corrections.Valid and .Decisions hold that
-- its events pass the store, .Once, .Observed and .Accept what a decision needs and does. `decide_correction`
-- takes the files at its two reads and at its append apart, as it reads them without the lock.
--
-- ReadModel models src/read-model.mts, which projects the events to a graph and writes it beside the
-- store: ReadModel.Graph models `projection`, with .Closed and .Latest on what the graph holds, and
-- ReadModel itself `projectReadModel`, with .Again on a second call. Json.Pretty is the indented form
-- of `JSON.stringify`; the order of `localeCompare` is a parameter.
--
-- Emergency models the ledger of emergency grants, src/emergency.mts: an append-only file of records,
-- each with the hash of the one before, and a checkpoint of its head.
--   Emergency.Record   the records and `recordSchema`
--   Emergency.Open     `validateOpen`
--   Emergency.Ledger   `verifyEmergency` and `appendUnlocked`; .Scan and .Append hold what a reader
--                      accepts and that an append keeps it
--   Emergency.Grants   `openGrants`; .Track relates it to the history of one provider
--   Emergency.Commands `evaluateEmergency`, `openEmergency`, `closeEmergency`; Emergency.Use
--                      `emergencyUse`. Evaluate, Lifecycle, Closing and Using hold what they promise
--   Emergency.Lock     `lockOwnerGone` and `withEmergencyLock`, as steps of several processes
-- A command is a function of a store, which holds the two files, to its result and the store that it
-- leaves. A command that throws leaves the store as it was when it threw. Whether a command gets the
-- lock of `withEmergencyLock` before its deadline is an argument, and what runs under the lock runs
-- alone. A line of the file is a value: what is no JSON or not of the record's shape is `garbled`.
--
-- Slicing models distillation/src/slicing.mts, which cuts a dialogue into slices for distillation:
--   Slicing.Redact     `redactBlock`; .Masking and .Masked say what it overwrites
--   Slicing            `canonical`, `digest`, `buildSlices`; .Build, .Cover and .Promise say what
--                      a plan holds, .Fuel that the loops end
-- A text is the list of its code points. The inner loop of `buildSlices` runs on fuel, the length of
-- the text, which is enough as each round takes at least one code point.
--
-- Output models distillation/src/output.mts: what a run of a model may report on a slice,
-- `validateOutput` and `withRunnerCoverage`. Whether a pattern of a secret matches is a parameter.
--
-- Router models src/context-router.mts: the validation of the context profiles of a document, and the
-- route of a task to one of them. Router.Validate models `validateProfile`; Router.Owners and
-- Router.Isolation hold the laws. A profile of the document is a record of fields that may be missing
-- or of another kind.
--
-- Policy models src/provider-policy.mjs: which scopes a provider may read and publish to. Policy.Parse
-- and Policy.Document model the parse of a policy, over the value that `JSON.parse` gives, which is a
-- parameter; Policy.Entries, .Bounds and .Declared hold what a parsed policy satisfies, and
-- Policy.Summary models `describeProviderPolicy`. Policy.Glob holds the relation that patterns stand
-- for, Policy.Permission and .Publishable what the rules permit; the grant that lifts them is the one that Emergency's `evaluate_store` reports.
--
-- Platform holds what Node.js gives: SHA-256 and the text of an instant. The places where a regular
-- expression matches are a parameter too (Slicing.Redact.Patterns). Platform.Sample is a concrete one
-- for the tests. Prelude holds lists and tests over the native numbers.
--
-- Instants are natural numbers, milliseconds since 1970. Not modelled: the waiting for a lock, the reports
-- on the ledger, the digest of a plan and `verifySlice`; the lookup of a policy file and the job store of
-- the distillation; adapters, command lines, input and output.
mod Prelude
pub mod Platform
pub mod Json
pub mod Emergency
pub mod EventStore
pub mod Corrections
pub mod ReadModel
pub mod Slicing
pub mod Router
pub mod Policy
pub mod Output
