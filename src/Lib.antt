-- ===== src/Lib.antt =====
-- Agent Remote Node: the parts that must not lose, repeat or outlive an authorisation.
--
-- The node runs tasks for a control plane ("the Server"). Eight of its parts are here.
--
-- The task ledger (internal/ledger) records each task in a file. The worker saves an entry when a task
-- changes, and swaps it where two writers may meet. Ledger.antt has `Ledger` with the file that it
-- owns, and `open_file` (`Open`), `get_entry` (`Get`), `save` (`Save`, through `save_locked`,
-- `saveLocked`), `compare_and_swap` (`CompareAndSwap`), `list_entries` (`List`) and `publish`. The
-- outcome of each system call of a publication is an argument (`Calls`). Ledger/Value.antt has what
-- an entry holds and what its JSON reads back as. The methods hold one lock, so that a run is a list
-- of calls (`write_all`). Ledger/Durable and Ledger/Swap have the theorems.
--
-- The finalization of captured skills (internal/skillmanager) follows the Server's receipts for a
-- capture until the local copy may go. Finalization/Identity.antt has the patterns and pins
-- (preparation.go, system_releases.go), Finalization/Journal.antt the record, its phases and
-- `AdvanceFinalization` (journal.go, journal_linux.go), Finalization/Receipt.antt the receipts
-- (finalization_receipt.go), Finalization/Acknowledgement.antt the acknowledgement that a receipt and
-- a capture make together (finalization_acknowledgement.go), Finalization/Reclamation.antt the
-- permission to reclaim a capture (reclamation.go). A phase is data; a text that is no phase is
-- `unknown`. Finalization/Lifecycle and Finalization/Progress have the other theorems.
--
-- The browser broker (internal/egobrowser/broker.go, with the metadata of internal/api/client.go)
-- gives wrappers one-time permits for browser bindings. Broker/Texts.antt has the tests on texts,
-- Broker/Binding.antt the metadata and `validateBinding`, Broker/State.antt the configuration, the
-- state and what removes permits, Broker/Sessions.antt the capabilities of tool sessions,
-- Broker/Bindings.antt the snapshot (`SetBindings`), revocation and expiry, Broker/Leases.antt
-- renewal, Broker/Permits.antt `IssuePermit`, Broker/Requests.antt consuming, cancelling and sending.
-- Broker/Run.antt puts every method that changes the state into one step relation; a restart is a step
-- that opens the sequence file again. A method that gives up the lock is the steps on its two sides:
-- it takes the state that it finds after the lock as an argument (`meanwhile`), and in a run the
-- second part is a step of its own, with any admission. Broker/Keeps, Broker/Sequence,
-- Broker/SingleUse, Broker/Limit, Broker/Admit, Broker/Confined, Broker/Revival, Broker/Unrevived,
-- Broker/Revocation, Broker/Capabilities, Broker/Untouched, Broker/Pairs, Broker/Replays, Broker/Order
-- and Broker/Grace have the theorems. Broker/Relay has the exchanges over a relay connection:
-- Broker/Relay/Envelope.antt the envelopes and their checks, Broker/Relay/Session.antt the session
-- (`relaySession` with `register`, `abandon`, `deliver`, `closeWithError`, and `readRelay`), with a
-- run as a list of calls (`relay_calls`). `closeWithError` is two calls there, since it sets `closed`
-- before it takes the lock. `decode` is the parameter that stands for the strict decoder of JSON.
-- Broker/Relay/Forward.antt has `forward` from `register` on as a list of events, each after the calls
-- that others make on the session meanwhile; an event is one step, and a `select` that finds several
-- cases ready may take any of them. Broker/Relay/Steps.antt has the ways in which a call changes a
-- session, Broker/Relay/Events.antt what an event does, Broker/Relay/Answers which frames are
-- delivered, Broker/Relay/Ended, Closed, Replies, Released and Cancels the theorems.
--
-- An export of frozen skills (internal/skillexport/authorization.go) runs under a permission of the
-- Server that is asked for again and again. Export.antt has the permission (node_export.go of
-- internal/skillmanager), `exportAuthorization` and its methods as steps; Export/Facts has the
-- theorems. The network calls are the answers that they give, and the instants at which they come.
--
-- The activation of device control (internal/devicecontrol/activation.go) keeps one manifest for each
-- device session: the generation that this node serves. Device/Capabilities.antt has the capability
-- sets and modes, Device/Payload.antt the payloads and `DecodeActivatePayload`,
-- `DecodeDeactivatePayload` and `DecodeContextPayload`, Device/Store.antt `Activate` and `Deactivate`
-- over the files below the root (`Manifests`), with a run as a list of calls (`device_calls`).
-- Device/Generations, Device/Outcomes, Device/Trust and Device/Capabilities have the theorems.
--
-- The worker (internal/worker) runs the node's tasks. Worker/Lease.antt has the lease of a task while
-- its work runs (task_lease.go: `renew_budget` is `renewTaskBudget`, `maintain_lease` is
-- `maintainTaskLease`, `with_task_lease` is `withTaskLease`), Worker/Loop.antt `runOperationLoop` and
-- `retryDelay` (worker.go). The journal of managed startups keeps each startup as an entry of the task
-- ledger: Worker/Json.antt has the JSON values, Worker/StartRecord.antt the records and their checks
-- (skill_start_result.go and skill_start_inspection.go of internal/api, start_journal.go),
-- Worker/StartEncode.antt and Worker/StartDecode.antt their JSON, Worker/StartJournal.antt `load`,
-- `pending` and `propose`, Worker/StartSettle.antt `confirm`, `retire` and what start_confirmation.go
-- makes of the Server's answers, with a run as a list of calls (`start_calls`),
-- Worker/StartRecovery.antt `inspectPendingManagedStarts`. `hash` is the parameter that stands for the
-- hexadecimal text of the first six bytes of SHA-256. Worker/Granted, Worker/Held, Worker/Loop,
-- Worker/StartKept, Worker/StartEnds and Worker/StartRecovered have the theorems; Worker/StartCodec,
-- Worker/RetireCodec, Worker/StartReads, Worker/StartListed, Worker/StartRounds, Worker/Startups,
-- Worker/StartProposals, Worker/StartLife and Worker/StartRuns lead to them, with Worker/StartForms,
-- Worker/StartSwaps and Worker/RetireFields.
--
-- The manifest of a skill's tree (internal/skillmanager) is checked before anything is built from it.
-- Skill/Paths.antt has the paths (`ValidatePath`), Skill/Entries.antt `Entry`, `Manifest`
-- (manifest.go) and `validateEntry`, Skill/Links.antt the resolution of a link (`validateLinkLookup`),
-- Skill/Tree.antt `Validate` (validate.go). `is_nfc` is the parameter that stands for the test on the
-- normal form NFC of golang.org/x/text. A path is split at its slashes, and the components that are
-- resolved are held with the last one first. The loop of `validateLinkLookup` is the recursion of
-- `scan` over what is pending, up to the next link, and of `resolve` over the links that may still be
-- followed; both always end. Skill/Resolution, Skill/Resolved, Skill/Placed, Skill/Index and
-- Skill/Accepted have the theorems.
--
-- The deployment of skills to an account (internal/skillmanager/deployment_plan.go) is described by
-- its sources. Deployment/Sources.antt has `SkillDeploymentPlan` with `validate_plan` (`validate`) and
-- `plan_digest` (`Digest`), Deployment/Sorting.antt the sorting that stands for `slices.SortFunc`,
-- Deployment/Accepted.antt which sources a plan may have, Deployment/Digest.antt the theorem. The
-- encodings and the hash are a parameter (`Encoding`).
--
-- Choices. A Go map is an association list without repeated keys (Prelude/Map.antt). Go's signed
-- integers are `ℤ`; unsigned counters are natural numbers, and the sequence, the only one that is
-- counted up, stops at 2^64 - 1 as the source does. A timestamp is what `time.Parse` makes of it, and
-- instants are nanoseconds. Clocks, random tokens, answers of the control plane and outcomes of
-- system calls are arguments. An object whose identity the source compares by its address carries a
-- number (`BindingState.object`). The loop of `pruneConsumedLocked` gets as many rounds as there are
-- entries, each of which removes one. The loop of `RegisterToolSession` runs over the tokens that it
-- draws, and has no answer where they end.
--
-- Not modelled: the bytes of JSON documents, the file trees of captured skills, the transport of the
-- relay, the opening of its connections, the sockets and the cryptography of the broker, log lines and
-- metrics, and the other packages of the repository. A session key is not part of a permit here, so
-- that its erasure is not either.
pub mod Prelude
pub mod Ledger
pub mod Finalization
pub mod Broker
pub mod Export
pub mod Device
pub mod Skill
pub mod Deployment
pub mod Worker
