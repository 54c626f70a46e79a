-- ===== src/Lib.antt =====
-- Verification of the core of rsLXMF, an implementation of the LXMF messaging protocol: the parts
-- of crates/lxmf-core that route messages, and that decide which propagated messages a node takes,
-- keeps, offers and reports.
--
-- The program. A router queues outbound messages, plans and retries their delivery until it
-- succeeds, fails or expires, and hands inbound messages to the application. A propagation node
-- takes batches of messages from peers (an offer on a link, then a Resource, then the validation
-- of its stamps), keeps them in an index until a client downloads them or they are culled, and
-- offers them to other peers. A client downloads messages and resolves each with a single-use
-- token; what fails is suppressed until a retry is due. Tickets let a sender skip the stamp of a
-- message.
--
-- The files, each named for the code that it models, with the proofs in the modules below it:
--   * Prelude and its modules: Booleans, results, lists, machine words, byte strings, and `f64` as an
--     interface. Map: the association list that stands for a HashMap, BTreeMap or HashSet of pairs.
--   * PnAdmission: crates/lxmf-core/src/propagation_admission.rs. Offers has the gates, the preflight
--     and the commit of an offer, and the throttles; Transfers the transitions of a record; Events
--     every call of the type as a step of one relation, with the theorems below it.
--   * Admission: crates/lxmf-core/src/admission.rs. Ledger has the suppressed downloads, Token the
--     resolution of a download and its channel, Budget the memory and worker permits.
--   * Ticket: crates/lxmf-core/src/ticket.rs.
--   * Store: crates/lxmf-core/src/propagation.rs.
--   * Sync: crates/lxmf-core/src/sync.rs. It answers an offer from the entries of Store.
--   * Peer: crates/lxmf-core/src/peer.rs. Metadata has the bounds on announced metadata, Announce the
--     refresh of a peer by an announce, Syncs the calls during a sync, Choice the next
--     peer to sync.
--   * Message: the delivery state of a message in crates/lxmf-core/src/message.rs and constants.rs.
--   * Router: crates/lxmf-core/src/router.rs. Router has the state and the access lists, Direct the plan
--     of a Direct delivery, Outbound one round over the queue and its loop, Runs the two runs, Queue
--     what enters and leaves the queue, Submit the signed messages and their deferred stamps, Tick the
--     router's own driver, Inbound the messages that arrive, Peering the table of peers,
--     and Peering/Rotation the dropping of peers and the periodic jobs.
--   * Stamps: crates/lxmf-core/src/stamper.rs.
--   * Offers: crates/lxmf-core/src/propagation_offer.rs, and in Offers/RoundTrip the request that
--     crates/lxmf-core/src/propagation_sync.rs sends. It checks keys by Stamps and answers for
--     PnAdmission and Sync.
--   * Node: crates/lxmf-core/src/propagation_node.rs. Node has the choice of the messages for an offer to
--     a peer, with its loop in Node/Chosen and its order in Node/Order, and Node/Session the node's part:
--     the snapshot of its Store, the Sync session of the peer, and the retired entries that deletion
--     workers have too.
--   * Tests: runs on concrete inputs, and each theorem at inputs that meet its hypotheses.
--
-- How the code is read. A function of `&mut self` takes the state last and returns the new state,
-- with its result; an early return is a branch. A hash or an id is the number that its bytes spell,
-- the highest byte first; a wire id is a byte string. Words have their wrap-around or saturation
-- written out, with a 64-bit `usize`; a Duration is a number of nanoseconds. The clock's reading,
-- the random token of a ticket and the answer of a stamp's worker are arguments, as are the tokens
-- of candidates that callers still hold, for the weak references to them, and the two reads of a
-- download's generation. A candidate's token is the address that the allocator gives it, which is
-- not given out again while it is pending. An iteration over a HashMap takes the order of the
-- association list; no theorem depends on it but through the list's own order. A call of a callback
-- is an entry in a list, of a message's notices or of the router's deliveries, whether a callback is
-- registered or not. Code of other crates is an interface with its documented behaviour: tokio's
-- Semaphore, the MessagePack values of rmpv and the readers of rmp, the hashes, the random draws of
-- a search, `f64` (no laws), and the derivation of a destination from an identity. The order and
-- conversion of `f64` that an offer uses are arguments. Loops are structural, but for two. The one
-- over the outbound queue has one more fuel than the queue has messages, as a round takes a message
-- or passes it. The one that prepares an
-- offer to a peer starts again while deletion workers retire entries under it; what each of its
-- looks at the retired entries finds is an argument, and its fuel suffices once they are left alone.
--
-- Not modelled: the message format, the asynchronous client, sync and delivery loops, the node's
-- writes, downloads and maintenance, the stores on disk, and the daemon in crates/lxmf-tools. Of
-- the modelled files, left out are the byte forms that MessagePack or file names give to tickets,
-- peers and entries, the generation of a peering key, a peer's staleness, the restoring of a peer
-- from an offer policy, the accessors that only read a field; of the router, the preparation of
-- signed messages with their tickets, the setters of its configuration, the registry of inbound
-- resources, saved state and summaries; of the stamper, the worker thread.
pub mod Prelude
pub mod Map
pub mod PnAdmission
pub mod Admission
pub mod Ticket
pub mod Store
pub mod Sync
pub mod Peer
pub mod Message
pub mod Router
pub mod Stamps
pub mod Offers
pub mod Node
pub mod Tests
