-- ===== src/Lib.antt =====
-- A model of the web application (apps/web) of the DeRec reference app: the vault record of an
-- owner and what the protocol's events do to it, the stores that the protocol keeps its own state
-- in, the replica records beside them, and the loops that take in messages and watch over rounds.
--
-- A vault holds one secret bag, whose versions are shared out to helpers in rounds. Messages come
-- from a node's mailbox and go to the SDK (Mailbox); it keeps shares, channels, secrets and state in
-- the stores (Stores) and reports what happens as events; each is folded into the vault record by a
-- handler (Fold), which may read the round tracker and write to it (Rounds). A timer rolls back what
-- is overdue, and a reload picks up open rounds (Watchdog). A request for the owner stops the drain
-- (Inbound, Mailbox). Replicas of an owner have records of their own (Replicas), and a vault that
-- is not up to date asks them for its copy (CatchUp).
--
-- Files:
--   Prelude    Boolean tests, lists, association lists for `Map`, sets as lists, sorting, strings.
--   Types      apps/web/src/types.ts, the vault record and all that it holds, and the contracts of
--              apps/web/src/vault/types.ts that the other files use.
--   Bag        apps/web/src/owner/bag.ts, owner/heldShares.ts, and `commitRoundVersion` of
--              apps/web/src/vault/rounds.ts. Bag/Order says when the versions are in order, Bag/Lookup
--              and Bag/Commit what updates and commits do to them.
--   Rounds     apps/web/src/vault/rounds.ts, the class `RoundTracker`, one function per method. The
--              operations as data are in Rounds/Ops; Rounds/Invariant has what all of them keep.
--   Roles      apps/web/src/pairingRoles.ts, `pairingRoleLabel`, and `peerRoleFromKind`.
--   KeepList   apps/web/src/vault/keepList.ts, `keepListFor`.
--   Roster     apps/web/src/ownerPairing.ts and peerIdentity.ts: who shares go to, whom a channel
--              belongs to; `roundRecipients` and `settleUnansweredShares` of vault/rounds.ts.
--              Roster/Entries is `resolveRosterEntries` of peerIdentity.ts.
--   Fold       apps/web/src/vault/fold/: Fold/Sharing and Fold/Verifying, Fold/Recovery and
--              Fold/Corruption, Fold/Outcomes, Fold/Pairing, and Fold/PeerRows and
--              Fold/PairingCompleted (`applyPairingCompleted` of ownerPairing.ts), and
--              Fold/ReplicaEvents (fold/replica.ts) have the handlers,
--              Fold/Failures is owner/recoveryFailures.ts, and Fold the table of the handlers; the
--              other files have what is proved of them.
--   Conflict   apps/web/src/vault/replicaConflict.ts, and `withReplicaConflict`, `supersededConflict`
--              and `withEarlierVersions` of apps/web/src/vault/fold/replica.ts.
--   Progress   `verifyProgress` of apps/web/src/owner/verification.ts, and
--              owner/recommendedParticipants.ts.
--   Inbound    apps/web/src/vault/inbound.ts and inboundPairing.ts; Inbound/Routing says when a request
--              is put to the owner.
--   Stores     apps/web/src/stores.ts: Stores has `localStorage` itself, Stores/Writes the chains of
--              writes, and Stores/Shares, Stores/Channels, Stores/Links, Stores/Secrets, Stores/States,
--              Stores/Members and Stores/Delivery a store or the transport each.
--   Replicas   apps/web/src/replicaFlows.ts: Replicas and Replicas/Channels the records,
--              Replicas/Views the rows of the page, Replicas/FirstSync the trigger of the first sync,
--              Replicas/Adoption the adoption of a mirrored copy.
--   CatchUp    apps/web/src/vault/replicaSync.ts, the class `ReplicaCatchUp`.
--   Mailbox    of apps/web/src/vault/runtime.ts, the drain of the mailbox, its batches, and the queue
--              of the owner's requests.
--   Watchdog   of apps/web/src/vault/runtime.ts, the timer of a flow, the rounds that it fails or
--              settles, `commit`, and the rounds that a reload resumes.
--   Identity   apps/web/src/vault/identity.ts, the answers of peers to a change of identity.
--   Samples    a vault, a bag and a round for the tests and examples, which are in the Tests files.
--
-- How the source is read:
--   A `Map` or a `Set` is a list in insertion order, with an entry at most once. A `bigint`
--   channel id is its decimal numeral. `Date.now()` and what is read from the browser's storage
--   are fields of `FoldContext`; the replica records are read after the calls made so far. An
--   optional field is an `Option`; where the source tests one by its truth, so does the model,
--   with the empty string false. The wording of a message is reduced to the facts in it
--   (`Notice`), and a log entry to its flow and its step.
--   `SenderKind` and the events are the SDK's (@derec-alliance/web): the members and the fields that
--   the source names are modelled, and a kind that it does not name is `other_kind`.
--   `localStorage` is one dictionary for each template of keys, and what stands under a key is the
--   value that the source encodes there. Whether the browser has room for a write is a parameter; a
--   write that it refuses ends the call with `quota_exceeded`, and what was written before stays.
--   What the network, the node and the SDK answer is a parameter of what calls them, and so are
--   `toLowerCase` and the regular expressions on an error's text.
--   An asynchronous function is split where it waits, into a call that starts it and one that follows
--   the answer, so that other steps can come between them. `drainOnce` is one step: its flag `draining`
--   keeps a second drain out, and the requests that block a drain are raised by its own batch.
--   The loop of `abandonRound` that drops the oldest rounds is `trim`, on as much fuel as there are
--   entries; a pass drops one at least, so that is enough.
--   The loop of `linkedChannels` runs on fuel that its table of links bounds; that this is enough is
--   part of what is proved of it. `deliverWithRetry` recurs on the delays that are left.
--   `decimal` prints a number on one more step of fuel than the number, which is no fewer than its
--   digits.
--   `transports[0]` of a record with an empty list, which the source would read as `undefined`, leaves
--   the row's endpoint as it is.
--
-- Not modelled: `applyMirroredUpdate` of apps/web/src/vault/fold/replica.ts, which commits
-- outside the fold, and the decoding of a rival copy's secrets; of vault/runtime.ts, publishing
-- and protecting, recovery and discovery, the owner's verdicts on a request, and starting and
-- stopping the loops; vault/manager.ts; of the smaller modules, those of group membership, the
-- estimate of storage headroom and the state taken over by an adopted vault; the conversion of a
-- recovered snapshot, which decodes the SDK's bytes; the pages, which are rendering; and the Rust
-- service in apps/backend, which is another program.
pub mod Prelude
pub mod Types
pub mod Watchdog
pub mod Bag
pub mod Rounds
pub mod Roles
pub mod KeepList
pub mod Replicas
pub mod Roster
pub mod Stores
pub mod Fold
pub mod CatchUp
pub mod Conflict
pub mod Mailbox
pub mod Progress
pub mod Identity
pub mod Inbound
pub mod Samples
