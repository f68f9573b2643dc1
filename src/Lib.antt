-- ===== src/Lib.antt =====
-- network_monitor: a model of the capture agent, and what holds of it.
--
-- The agent (capture-agent/src) turns captured frames into flow and application-layer events. Its
-- core is bookkeeping on hostile input: rejoining IP fragments and TCP segments under memory
-- ceilings, ordering and framing TLS byte streams, remembering DNS names, holding decrypted bytes
-- in a bounded ring, and pacing the events that reach the browser.
--
-- Files and the code that they model:
--   Base                 shared helpers: tests, lists, machine words, keyed tables
--   RateLimit            rate_limit.rs: `PacketEventLimiter`
--   Reassembly           reassembly.rs
--     Status             statuses, counters and limits
--     Coverage           `write_first_seen_wins`, `contiguous_len_from`
--     Buffer             the data and coverage vectors of a group or stream, with capacities
--     Eviction           `evict_oldest_until` of both reassemblers
--     Fragments          `IpFragmentReassembler`, over Fragments/Group for `FragmentGroup`
--     Segments           `TcpReassembler`, over Segments/Stream for `TcpStream`
--     Clock              `ReplayClock`
--     DnsFraming         `DnsTcpFraming`, over DnsFraming/Walk for `dns_tcp_walk`
--     Sniffing           `StreamReassembler`, over Sniffing/Frames for `sniff_inner`
--   TlsStream            tls_stream.rs: TCP ordering and TLS record framing of one direction
--   Handshake            tls_handshake.rs: `TlsHandshakeParser`
--   DnsNames             dns_names.rs: `ObservedDnsNames`, over Names (the table) and Learn
--   RingBuffer           ring_buffer.rs: `DecryptedRingBuffer`
--   Http2                http2.rs: `Http2Reassembler`, over Http2/Redact for redact.rs
--   Pcapng               pcapng.rs: the writer's blocks and the section-aware reader
--   CaptureFiles         ring.rs, over the writer of Pcapng
--     Paths, Files       names of files, and the calls that touch the file system
--     Run                `RingState`: start, stop, packets, ticks
--     Thread             main.rs: the commands of the thread that owns the run
--
-- Conventions. Bytes, `u16`, `u32`, `u64` and `usize` (64 bits, as on the agent's targets) are
-- natural numbers; wrapping and saturating arithmetic is written out, and a theorem that needs a
-- range takes it as a hypothesis. A `&mut self` method returns the new state beside its result. A
-- `HashMap` is the list of its entries in the order in which an iteration meets them: its lookups
-- do not depend on that order, and where an eviction breaks a tie of age the list's order stands
-- for the map's. Vectors carry their capacity where the code's memory budget counts it; how a
-- capacity grows is the allocator's choice, a parameter (`Allocator`) with two laws: it is enough,
-- and stays under 2 ^ 32 for the small vectors here. The header that `rebuild_ipv4_datagram` puts
-- before a payload is rewritten by the etherparse crate, a parameter; what does not depend on how a
-- datagram is rebuilt is stated for any rebuilding. The detectors of l7.rs and the parser are
-- parameters too, behind the interface `Detectors`; the HPACK decoder and Unicode's texts stand
-- behind `Decoder`. Clocks are arguments, and so is what an operating system answers: whether a file opens, how much of a
-- block is written, whether a rename succeeds. A pcapng reader is not used after an error; its
-- decoding of text that is not UTF-8 is a parameter; a time is its nanoseconds since 1970. The
-- content of an open file is its writer's. Texts of names are valid, and a path that was asked for
-- has a file name. Loops are structural recursions or take as much fuel as their input has bytes or
-- items, of which every round takes one at least. Sniffing a frame is given two rounds,
-- one for a fragment and one for what it completes, as a rebuilt datagram is no fragment.
--
-- Not modelled: the capture loop and the other threads (main.rs), the flow table, layer-7 detectors
-- and field registry (flow.rs, l7.rs, fields.rs), transactions, key logs, decryption, JA3, control
-- authentication, traceroute and the wire format.
pub mod Base
pub mod RateLimit
pub mod Reassembly
pub mod TlsStream
pub mod Handshake
pub mod RingBuffer
pub mod DnsNames
pub mod Pcapng
pub mod CaptureFiles
pub mod Http2
