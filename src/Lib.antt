-- ===== src/Lib.antt =====
-- The core of Porta, a VPN in Rust whose server and clients carry IPv4 packets over HTTP streams.
--
-- The program's parts. rust/porta-wire is what both ends share: packets framed on a byte stream
-- (frame.rs), IPv4 headers (ip.rs), MASQUE capsules and MTU messages (masque.rs), and the handling
-- of packets above the MTU (mtu.rs). rust/porta-server leases addresses to clients
-- (state/pool.rs), knows their live sessions (state/sessions.rs), routes packets between its
-- device and the sessions (data/router.rs), queues the packets of each session (data/queue.rs),
-- limits its connections (ops/admission.rs) and drains its requests when it stops
-- (ops/shutdown.rs). A packet from the network is classified, given a lane of the group of its
-- destination, queued for the session there, and written as a frame or as a capsule.
-- rust/porta-client queues what it sends (tunnel/h2_queue.rs).
--
-- The modules.
--   Prelude: Boolean tests, lists, bits, maps as association lists, and results. Assoc has the lists
--     whose keys differ, Erase what a removal at an index does, Evict is removals one at a time.
--   Wire.Bytes, Wire.Stream: bytes are numbers, and a reader is the sequence of what `read` returns: a
--     chunk, an interruption, a failure or the end. A writer is what it has taken and a plan of how
--     much it takes next. Wire.Stream.Fill and Wire.Stream.WriteAll are the loops of frame.rs over
--     them; each round uses up an element of the sequence, so both are structural recursions.
--   Wire.Frame: `read_packet` and `write_packet` of rust/porta-wire/src/frame.rs.
--   Wire.Ip, Wire.Ip.Classify: rust/porta-wire/src/ip.rs, whose functions keep their names.
--   Wire.Masque: rust/porta-wire/src/masque.rs: integers in Varint, capsules in Capsule, probes and
--     selections in MtuMessages, addresses in Addresses, whose prefixes are a parameter since they are
--     the `ipnet` crate's, and route advertisements in Routes. The decoders run on as much fuel as there
--     are bytes, since each round takes one at least.
--   Wire.Mtu, Wire.Mtu.Feedback: `ip_datagram_capacity`, `DatagramMtu` and `FeedbackPolicy` of
--     rust/porta-wire/src/mtu.rs.
--   Data.Classify: the classifier that rust/porta-server/src/data/queue.rs has for itself.
--   Data.Queue: `PacketQueue` of that file: its state under the mutex, with the time as an argument,
--     and a log of the calls of its metrics and its notifier. The loops that expire packets and make
--     room run on as much fuel as there are items, since each round passes or removes one. Evict
--     says in terms of the items and the limits alone which packets make way for another.
--   Data.Router: rust/porta-server/src/data/router.rs: the sessions in a store by identity, their groups
--     by address, and the parser of the router. Flows is `FlowTable`, an array with a list linked by
--     indices in it; Flows.Linked and Flows.Moves say what its writes do to the list, and Flows.Recency
--     what the table stands for. Lanes is the choice of a lane. Registry is the registration of
--     sessions and the round of `run` for a packet, Registry.Calls the calls of the router in any order.
--   Client.UploadQueue: `UploadQueue` of rust/porta-client/src/tunnel/h2_queue.rs, in the manner of
--     Data.Queue. `take_round` is the locked round of `take_batch`.
--   State.Pool: `Pool` of rust/porta-server/src/state/pool.rs. Each method holds the mutex, so it is
--     one step. How `write_state_atomically` ends is an argument: with the new file in place, with the
--     old one, or with the new one and a failed sync of the directory. `disk` is what a restart reads.
--     Restore is the loading of the file, Kept what a call keeps, Commit what a failed sync leaves.
--     The search for a free address runs on the distance to the broadcast address as fuel.
--   State.Sessions: `LiveSessions` of rust/porta-server/src/state/sessions.rs. Counts says what its maps
--     hold, Live compares them with the guards that are held.
--   Ops.Drain: `Drain` of rust/porta-server/src/ops/shutdown.rs, as a relation of atomic steps that
--     any of its threads may take next. Its loads are `Acquire` and its store is `Release`: a load may
--     give an older value than the last, so that nothing is said of requests that begin after `stop`.
--   Ops.Admission: `ConnectionAdmission` and `AdmissionPermit` of rust/porta-server/src/ops/admission.rs,
--     as a relation in the same way: `advance` is the next atomic operation of a thread. Weights
--     is what a thread has added to the counters, Operations what each operation does to that, Bounds
--     what the threads hold together.
--
-- Machine integers keep their wrap-around where the source has it (the hash of a flow, the sums of
-- the checksum, the generations of the leases); lengths of what is in memory do not overflow.
-- Instants and durations are nanoseconds. Hash maps are association lists; no theorem rests on the
-- order of their entries.
--
-- Not modelled: `parse_mtu_token`, a call of the `hex` crate; fragmentation and ICMP replies of
-- mtu.rs, the decoding of the pool's file, the device of the router, the retry buckets of
-- admission.rs, whose tokens are floating-point numbers, the registry, and everything that is a
-- call of the operating system, of HTTP, of TLS or of storage, and the desktop and Android
-- clients.
pub mod Prelude
pub mod Wire
pub mod Data
pub mod State
pub mod Ops
pub mod Client
