-- ===== src/Lib.antt =====
-- Nowhere (https://github.com/hi2shark/Nowhere): a Rust tunnel of two processes. A Vector takes
-- SOCKS5 clients and carries their TCP and UDP flows over TLS/TCP and QUIC to a Portal, which
-- connects to the targets. The two speak the wire protocol of src/protocol: a connection starts
-- with an authentication frame, each logical flow with a flow header, a target and a one-byte
-- outcome, UDP packets travel behind a length on streams and as frames in QUIC DATAGRAMs, where
-- a packet above the DATAGRAM limit is split and put together again.
--
-- Files:
--   Common and Common/: bytes and big-endian integers, lists over the native numbers, Boolean
--     tests, `Result`, hash maps as association lists (Map, MapKeep) and binary digits (Bits).
--   Protocol/Error: the errors of src/protocol, one constructor for each message.
--   Protocol/Stream: tokio's `AsyncRead` as an interface: `pending` are the bytes that a stream
--     will deliver, with laws for `read` into one byte and for `read_exact`. Readers take it as a
--     parameter; `in_memory` is an instance.
--   Protocol/Uot: src/protocol/uot.rs, `encode_udp_packet`, `write_udp_packet`, `read_udp_packet`
--     (with `read_udp_packet_into`).
--   Protocol/Setup: src/protocol/result.rs, `SetupResult`, `FlowErrorCode`, `FlowResult`, their
--     conversions (`setup_of_byte`, `code_of_setup`, ... for the `TryFrom` and `From` instances)
--     and codecs.
--   Protocol/Flow: src/protocol/flow.rs, `FlowHeader` with `validate`, `validate_on` and codecs.
--   Protocol/Auth: src/protocol/auth.rs and `decode_url_username` of src/protocol/util.rs.
--     SHA-256, HMAC, the comparison in constant time and percent decoding belong to other
--     packages: the record `Crypto` has them as fields, with the length of an HMAC and the
--     meaning of the comparison as laws.
--   Protocol/Domain: `validate_port` and `validate_domain_bytes` of src/protocol/util.rs.
--   Protocol/Target: src/protocol/request.rs, the binary form of `Target`, over slices
--     (`decode_target`, `encode_target_into`) and over streams (`read_request`).
--   Protocol/Datagram: the first half of src/protocol/datagram.rs, frames and `UdpFragments`.
--   Protocol/Reassembly: the second half, `DatagramReassembler`. `push_with` is cut at its branches
--     into `push_existing`, `add_fragment`, `finish`, `push_new`, `make_room` and `open_slot`. Child
--     modules: State (what a sound state is), Sums and Slots (the map), Partial (a slot's counters),
--     Expiry, Invariant, Delivery and Completion.
--   Socks: src/common/socks/protocol.rs, addresses (`encode_address`, `decode_address`,
--     `read_address`), packets of the UDP relay, requests and replies. `command_request` is what
--     `send_command` writes, `read_reply` what it reads.
--     Socks/Negotiate has `negotiate` and `authenticate`, each as the talk it has with the other
--     side (`Talk`); Socks/Dialogue runs two talks over a pair of byte streams in any order.
--   Vector/FlowId: src/vector/flow_id.rs, `FlowIdAllocator`. Candidates has the ids that the loop
--     tries, Allocation what an allocator promises.
--   Portal/Pairing: src/portal/pairing.rs with pairing/state.rs and pairing/link.rs, the registry
--     where the halves of a split flow meet. Claims, Reject, Arms, Install, Submit, Cancel and Links
--     have the operations; the block `'install` of `submit_tcp` and `submit_udp` is cut into
--     `drop_stale`, `place`, `meet`, `fill` and `settle`, and serves both kinds of flow. An
--     `unreachable!()` and a failed `expect` are the outcome `panicked`. `Step` of Steps has each
--     part of an operation that takes a lock of its own, or none, as a step of any task, so that the
--     tasks interleave between these parts; Runs, SubmitRuns, Submissions and Operations have the
--     operations as sequences of steps, and LinkSteps the carriers with their guards. State says what
--     a sound registry is; ClaimLimit, Calm, Halves, Fill, Pairs, Offers, Shapes, Roles, Meet, Ends
--     and Relink are about soundness, Generations, Beside, Lease and LeaseCancel about leases and
--     QUIC generations, LinkSums and LinkCount about the counters of `Stats`, TombstoneRoom,
--     Tombstones, Buried and TombstoneLookup about flows that were rejected.
--   Portal/Admission: src/portal/admission.rs, `UnauthenticatedAdmission`. `release_guard` is the
--     drop of a guard; Guards relates the counters to the guards that are held.
--
-- Conventions: a byte is a number below 256 and a slice a list of them; where a theorem needs the
-- widths that Rust's types give, it has them as hypotheses (`AreBytes`, `IsTyped`, `< 2 ^ 32`). A
-- fallible function returns `Result Error`; an error keeps which message it is, not the numbers
-- that the message quotes. A state is passed explicitly, and a function returns the new one. The
-- hash map of the reassembler is an association list whose order stands for an order of iteration;
-- an `Instant` is a number of nanoseconds up to `instant_max`. `saturating_add` stops at the
-- largest `usize` of 64 bits. The loop of `allocate` has the source's bound of `limit + 1` rounds:
-- it tries as many different ids, and fewer are active. Only `collect`, which drains the iterator
-- of fragments, has fuel: as many rounds as `size_hint` says, one for each frame.
--
-- In the registry of flows a permit is the number of its semaphore, a cancellation token a number,
-- and `rejected` has what was written on downlinks; the readers and writers are types of the model.
-- A permit that the source drops at the end of a scope goes back at the same point. Both reads of
-- the clock in `reject_flow_setup` are one, `now` plus the time-out does not overflow an `Instant`,
-- and counters of epochs and generations do not wrap; a number that such a counter gives is drawn in
-- the step that uses it. `place` is one step: the map of the flow's kind is locked throughout, and
-- the claims once in between.
--
-- Not modelled: textual targets and messages; the sockets, TLS, QUIC and tasks of src/portal,
-- src/vector and src/common, and the rate limits of src/transport.
pub mod Common
pub mod Portal
pub mod Protocol
pub mod Socks
pub mod Vector
