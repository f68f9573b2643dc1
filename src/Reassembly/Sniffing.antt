-- ===== src/Reassembly/Sniffing.antt =====
-- `StreamReassembler` of capture-agent/src/reassembly.rs: both reassemblers in front of the
-- detectors of l7.rs.
pub mod Frames
pub mod Bounded
pub mod Calls
pub mod Overlap
pub mod Rounds
mod Tests
use network_monitor.Base.{
  same_bytes, same_bytes_iff, ℕ, zero, suc, ◌+◌, ◌-◌, ◌*◌, ◌/◌, ◌%◌, ◌^◌, ◌≤◌, ◌<◌, min, max, ◌≡◌,
  refl, sym, ap, ◌∙◌, subst, ◌≢◌, ◌↔◌, ◌⊎◌, inl, inr, Bool, true, false, not, ◌&&◌, ◌||◌, Option,
  none, some, List, [], ◌∷◌, ◌++◌, map, arith, ltb, leb, ◌==◌, if◌then◌else◌, is_some, ltb→lt,
  lt→ltb, le→ltb, leb→le, le→leb, gt→leb, ==_iff, tests, Bool-cases, Option-cases, length,
  get_or-drop, get_elem?, get_or, set, take, drop, replicate, resize, length-append, length-set,
  length-take, length-drop, length-replicate, length-resize, take-append-drop, get_or-resize,
  get_or-set_self, get_or-set_ne, get_or_beyond, get_or-take, get_or_ext, get_or-append,
  get_or-append_right, drop-append, take-append, append_assoc, append_nil, u32_mod, u64_max,
  wrapping_add32, wrapping_sub32, saturating_add, add64, Eq, string_eq, beq_refl, Table, measure_of,
  lookup, contains_key, insert, remove, total, AllValues, total-remove, total-insert, length-remove,
  length-insert, lookup-AllValues, remove-AllValues, insert-AllValues, lookup-insert,
  lookup-remove_ne, remove-insert_fresh, remove-insert_ne, remove-remove_ne,
}
use network_monitor.Reassembly.Status.{
  ReassemblyStatus, reassembled, incomplete_truncated_at_capture, incomplete_missing_frames,
  max_tcp_stream_bytes,
}
use network_monitor.Reassembly.Buffer.{Allocator}
use network_monitor.Reassembly.Fragments
use network_monitor.Reassembly.Fragments.{IpFragmentReassembler, ReassembledDatagram}
use network_monitor.Reassembly.Segments
use network_monitor.Reassembly.Segments.{TcpReassembler}
use network_monitor.Reassembly.Segments.Key.{
  TransportProtocol, tcp, same_protocol, FlowKey, TcpStreamKey,
}
use network_monitor.Reassembly.DnsFraming
use network_monitor.Reassembly.DnsFraming.{DnsTcpFraming}

pub record TcpFlags : Type 0 where
  pub syn : Bool

-- What is read of a `ParsedPacket`; `ip` is what the fragment reassembler reads.
pub record Packet : Type 0 where
  pub ip : Fragments.ParsedPacket
  pub protocol : TransportProtocol
  pub src_port : Option ℕ
  pub dst_port : Option ℕ
  pub seq : Option ℕ
  pub tcp_flags : Option TcpFlags
  pub transport_header_len : ℕ
  pub payload : List ℕ

-- `L7Sniff`, over what the detectors tell.
pub data L7Sniff {ℓ} (Info : Type ℓ) : Type ℓ where
  decided : (info : Info) → L7Sniff Info
  need_more_bytes : (at_least : ℕ) → L7Sniff Info
  undecided : L7Sniff Info

-- What is used of the detectors and of the parser: `L7Info::None`, `sniff_for_transport`,
-- `is_dns_info`, and `parse_packet` on a raw IP datagram.
pub record Detectors {ℓ} (Info : Type ℓ) : Type ℓ where
  pub nothing : Info
  pub sniff_for_transport : List ℕ → TransportProtocol → Option ℕ → Option ℕ → L7Sniff Info
  pub is_dns_info : Info → Bool
  pub parse_packet : List ℕ → Option Packet

pub record SniffOutcome {ℓ} (Info : Type ℓ) : Type ℓ where
  pub info : Info
  pub status : Option ReassemblyStatus
  pub need_more_bytes : Option ℕ
  pub reassembled_packet : Option Packet

pub record StreamReassembler : Type 0 where
  pub fragments : IpFragmentReassembler
  pub segments : TcpReassembler
  pub last_frame_cut_at_ms : Option ℕ
  pub frames_cut_at_snaplen : ℕ
  pub last_evict_ms : ℕ
  pub dns_framing : DnsTcpFraming

unfoldable pub new : StreamReassembler
new = record {
  fragments = Fragments.new;
  segments = Segments.new;
  last_frame_cut_at_ms = none;
  frames_cut_at_snaplen = 0;
  last_evict_ms = 0;
  dns_framing = DnsFraming.new;
}

unfoldable pub reset : StreamReassembler → StreamReassembler
reset s = record s {
  fragments = Fragments.clear s.fragments;
  segments = Segments.clear s.segments;
  dns_framing = record { entries = [] };
  last_frame_cut_at_ms = none;
}

unfoldable pub note_frame_cut_at_snaplen : StreamReassembler → ℕ → StreamReassembler
note_frame_cut_at_snaplen s now_ms = record s {
  frames_cut_at_snaplen = add64 s.frames_cut_at_snaplen 1;
  last_frame_cut_at_ms = some now_ms;
}

abbrev pub cut_attribution_window_ms : ℕ
cut_attribution_window_ms = 5_000

-- Frames are missing, or were cut a short time ago.
abbrev pub missing_or_cut : Option ℕ → ℕ → ReassemblyStatus
missing_or_cut none now_ms = incomplete_missing_frames
missing_or_cut (some cut_ms) now_ms =
    if leb (now_ms - cut_ms) cut_attribution_window_ms
    then incomplete_truncated_at_capture
    else incomplete_missing_frames

unfoldable pub attribute : StreamReassembler → ReassemblyStatus → ℕ → ReassemblyStatus
attribute s reassembled now_ms = reassembled
attribute s incomplete_truncated_at_capture now_ms = incomplete_truncated_at_capture
attribute s incomplete_missing_frames now_ms = missing_or_cut s.last_frame_cut_at_ms now_ms

unfoldable pub drop_flow : StreamReassembler → FlowKey → StreamReassembler
drop_flow s flow = record s {
  segments = Segments.drop_flow s.segments flow;
  dns_framing = DnsFraming.drop_flow s.dns_framing flow;
}

abbrev pub is_port_53 : Option ℕ → Bool
is_port_53 none = false
is_port_53 (some port) = port == 53

unfoldable pub is_dns_over_tcp : Packet → Bool
is_dns_over_tcp p = same_protocol p.protocol tcp && (is_port_53 p.src_port || is_port_53 p.dst_port)

unfoldable pub response_only : Packet → Bool
response_only p = is_dns_over_tcp p && not (is_port_53 p.dst_port)

abbrev pub is_syn : Option TcpFlags → Bool
is_syn none = false
is_syn (some flags) = flags.syn

-- Only TCP with a flow and a sequence number has a stream.
unfoldable pub stream_target :
    Option (FlowKey × Bool) → Option ℕ → TransportProtocol → Option (TcpStreamKey × ℕ)
stream_target none seq protocol = none
stream_target (some (flow, from_local)) none protocol = none
stream_target (some (flow, from_local)) (some seq) protocol =
    if same_protocol protocol tcp
    then some (record { flow = flow; from_local = from_local }, seq)
    else none

-- `IP` claims come first, then those of TCP.
abbrev pub combined_status : ReassemblyStatus → Option ReassemblyStatus → Option ReassemblyStatus
combined_status reassembled none = some reassembled
combined_status reassembled (some status) = some status
combined_status incomplete_truncated_at_capture status = some incomplete_truncated_at_capture
combined_status incomplete_missing_frames status = some incomplete_missing_frames

module _ (alloc : Allocator) (rebuild_ipv4_datagram : List ℕ → List ℕ → Option (List ℕ)) where
  unfoldable pub maybe_evict : StreamReassembler → ℕ → StreamReassembler
  maybe_evict s now_ms = if ltb (now_ms - s.last_evict_ms) 1_000 then s else record s {
    last_evict_ms = now_ms;
    fragments = (Fragments.evict_stale alloc rebuild_ipv4_datagram s.fragments now_ms).0;
    segments = Segments.evict_stale s.segments now_ms;
    dns_framing = DnsFraming.evict_stale s.dns_framing now_ms;
  }
