-- ===== src/Reassembly/Sniffing/Bounded.antt =====
-- The ceilings of `StreamReassembler` in capture-agent/src/reassembly.rs, over any of its calls.
use network_monitor.Base.{
  ℕ, zero, suc, ◌-◌, ◌<◌, ◌≡◌, refl, Bool, true, false, Option, none, some, List, leb,
  if◌then◌else◌, is_some, length, u32_mod, string_eq,
}
use network_monitor.Reassembly.Status.{ReassemblyStatus, max_tcp_stream_bytes}
use network_monitor.Reassembly.Buffer.{Allocator}
use network_monitor.Reassembly.Fragments.{ReassembledDatagram}
use network_monitor.Reassembly.Fragments.Group.{Ipv4Fragment}
use network_monitor.Reassembly.Fragments.Group.Sound.{IsFragment}
use network_monitor.Reassembly.Fragments.Invariant.{feed-IsBounded}
use network_monitor.Reassembly.Fragments.Invariant.{IsBounded as FragmentsBounded}
use network_monitor.Reassembly.Segments.{TcpReassembler, has_buffer, prefix, base_seq, finish}
use network_monitor.Reassembly.Segments.Invariant.{feed_tcp-IsBounded, finish-IsBounded}
use network_monitor.Reassembly.Segments.Invariant.{IsBounded as SegmentsBounded}
use network_monitor.Reassembly.Segments.Key.{
  TransportProtocol, tcp, same_protocol, FlowKey, TcpStreamKey,
}
use network_monitor.Reassembly.DnsFraming.{DnsTcpFraming}
use network_monitor.Reassembly.DnsFraming.Bound.{
  forget-IsBounded, skip_inside_message-IsBounded, record_message-IsBounded,
  note_consumed-IsBounded,
}
use network_monitor.Reassembly.DnsFraming.Bound.{IsBounded as FramingBounded}
use network_monitor.Reassembly.Sniffing.{
  Packet, L7Sniff, decided, need_more_bytes, undecided, Detectors, SniffOutcome, StreamReassembler,
  attribute, is_dns_over_tcp, response_only, is_syn, stream_target,
}
use network_monitor.Reassembly.Sniffing.Frames.{
  skip_dns, framing_after, finished_dns, after_dns, concluded, after_feed, feed_segment, by_own,
  sniff_stream, sniff_target, by_packet, by_datagram, sniff_inner, is_other_protocol,
}

-- Both reassemblers are sound and under their ceilings, and so is the number of boundaries.
pub record IsBounded (s : StreamReassembler) : Type 0 where
  pub fragments_bounded : FragmentsBounded s.fragments
  pub segments_bounded : SegmentsBounded s.segments
  pub framing_bounded : FramingBounded s.dns_framing

-- A frame's numbers are in the range of their types.
pub record IsPacket (p : Packet) : Type 0 where
  pub seq_fits : (seq : ℕ) → p.seq ≡ some seq → seq < u32_mod
  pub payload_fits : length p.payload < u32_mod
  pub fragment_fits : (f : Ipv4Fragment) → p.ip.ip_fragment ≡ some f → IsFragment f

of_if {ℓ κ} :
    {A : Type ℓ} (P : A → Type κ) (c : Bool) (x y : A) → P x → P y → P (if c then x else y)
of_if P true x y p q = p
of_if P false x y p q = q

with_framing-IsBounded :
    (s : StreamReassembler) (framing : DnsTcpFraming)
    → IsBounded s
    → FramingBounded framing
    → IsBounded (record s { dns_framing = framing })
with_framing-IsBounded s framing v f = record {
  fragments_bounded = v.fragments_bounded;
  segments_bounded = v.segments_bounded;
  framing_bounded = f;
}

with_segments-IsBounded :
    (s : StreamReassembler) (segments : TcpReassembler)
    → IsBounded s
    → SegmentsBounded segments
    → IsBounded (record s { segments = segments })
with_segments-IsBounded s segments v g = record {
  fragments_bounded = v.fragments_bounded;
  segments_bounded = g;
  framing_bounded = v.framing_bounded;
}

-- A stream's sequence number is in range.
abbrev SeqFits : Option (TcpStreamKey × ℕ) → Type 0
SeqFits none = Unit
SeqFits (some (key, seq)) = seq < u32_mod

stream_target-SeqFits :
    (flow : Option (FlowKey × Bool)) (seq : Option ℕ) (protocol : TransportProtocol)
    → ((n : ℕ) → seq ≡ some n → n < u32_mod)
    → SeqFits (stream_target flow seq protocol)
unfolding stream_target
stream_target-SeqFits none seq protocol h = tt
stream_target-SeqFits (some (flow, from_local)) none protocol h = tt
stream_target-SeqFits (some (flow, from_local)) (some seq) protocol h =
    of_if SeqFits (same_protocol protocol tcp) _ _ (h seq refl) tt

module _ {ℓ} {Info : Type ℓ} (detectors : Detectors Info) (alloc : Allocator)
    (rebuild : List ℕ → List ℕ → Option (List ℕ)) where
  skip_dns-IsBounded :
      (s : StreamReassembler) (p : Packet) (key : TcpStreamKey) (seq now_ms : ℕ)
      → IsBounded s
      → FramingBounded (skip_dns detectors alloc rebuild s p key seq now_ms).0
  unfolding skip_dns
  skip_dns-IsBounded s p key seq now_ms v =
      let P : DnsTcpFraming × Bool → Type 0 = λ r. FramingBounded r.0 in
      of_if P (is_dns_over_tcp p) _ _
        (of_if P (is_syn p.tcp_flags) _ _ (forget-IsBounded s.dns_framing key v.framing_bounded) (
          of_if P (has_buffer s.segments key) _ _ v.framing_bounded (
            skip_inside_message-IsBounded s.dns_framing key seq p.payload (response_only p) now_ms
              v.framing_bounded)))
        v.framing_bounded

  framing_after-IsBounded :
      (s : StreamReassembler) (p : Packet) (key : TcpStreamKey) (seq : ℕ) (sniffed : L7Sniff Info)
      (now_ms base : ℕ)
      → IsBounded s
      → FramingBounded (framing_after detectors alloc rebuild s p key seq sniffed now_ms base)
  unfolding framing_after
  framing_after-IsBounded s p key seq sniffed now_ms base v =
      let held = prefix s.segments key in
      let other_protocol = is_other_protocol detectors alloc rebuild sniffed in
      let recorded =
        record_message-IsBounded s.dns_framing key base held other_protocol (response_only p) now_ms
          v.framing_bounded in
      of_if FramingBounded (leb max_tcp_stream_bytes (length held)) _ _
        (skip_inside_message-IsBounded _ key seq p.payload (response_only p) now_ms recorded)
        recorded

  finished_dns-IsBounded :
      (s : StreamReassembler) (p : Packet) (key : TcpStreamKey) (seq : ℕ)
      (status : ReassemblyStatus) (sniffed : L7Sniff Info) (now_ms : ℕ) (base : Option ℕ)
      → IsBounded s
      → IsBounded (finished_dns detectors alloc rebuild s p key seq status sniffed now_ms base)
  finished_dns-IsBounded s p key seq status sniffed now_ms none v = v
  finished_dns-IsBounded s p key seq status sniffed now_ms (some base) v = record {
    fragments_bounded = v.fragments_bounded;
    segments_bounded =
        of_if SegmentsBounded _ _ _ (finish-IsBounded s.segments key status v.segments_bounded)
          v.segments_bounded;
    framing_bounded = framing_after-IsBounded s p key seq sniffed now_ms base v;
  }

  after_dns-IsBounded :
      (s : StreamReassembler) (p : Packet) (key : TcpStreamKey) (seq : ℕ)
      (status : ReassemblyStatus) (sniffed : L7Sniff Info) (now_ms : ℕ)
      → IsBounded s
      → IsBounded (after_dns detectors alloc rebuild s p key seq status sniffed now_ms)
  unfolding after_dns
  after_dns-IsBounded s p key seq status sniffed now_ms v =
      of_if IsBounded (is_dns_over_tcp p) _ _
        (finished_dns-IsBounded s p key seq status sniffed now_ms (base_seq s.segments key) v) v

  concluded-IsBounded :
      (s : StreamReassembler) (key : TcpStreamKey) (status : ReassemblyStatus)
      (sniffed : L7Sniff Info)
      → IsBounded s
      → IsBounded (concluded detectors alloc rebuild s key status sniffed)
  concluded-IsBounded s key status (decided info) v =
      with_segments-IsBounded s (finish s.segments key status) v
        (finish-IsBounded s.segments key status v.segments_bounded)
  concluded-IsBounded s key status (need_more_bytes at_least) v = v
  concluded-IsBounded s key status undecided v = v

  after_feed-IsBounded :
      (s : StreamReassembler) (p : Packet) (key : TcpStreamKey) (seq now_ms : ℕ)
      (fed : Option ReassemblyStatus)
      → IsBounded s
      → IsBounded (after_feed detectors alloc rebuild s p key seq now_ms fed).0
  after_feed-IsBounded s p key seq now_ms none v = with_framing-IsBounded s _ v (
      of_if FramingBounded (is_dns_over_tcp p) _ _
        (note_consumed-IsBounded s.dns_framing key seq p.payload (response_only p) now_ms
          v.framing_bounded)
        v.framing_bounded)
  after_feed-IsBounded s p key seq now_ms (some raw_status) v =
      concluded-IsBounded _ key (attribute s raw_status now_ms) _
        (after_dns-IsBounded s p key seq (attribute s raw_status now_ms) _ now_ms v)

  feed_segment-IsBounded :
      (s : StreamReassembler) (p : Packet) (key : TcpStreamKey) (seq now_ms : ℕ)
      → IsBounded s
      → seq < u32_mod
      → length p.payload < u32_mod
      → IsBounded (feed_segment detectors alloc rebuild s p key seq now_ms).0
  unfolding feed_segment
  feed_segment-IsBounded s p key seq now_ms v hs hp = after_feed-IsBounded _ p key seq now_ms _ (
      with_segments-IsBounded s _ v (
        feed_tcp-IsBounded alloc s.segments key seq p.payload
          (p.ip.ip_declared_payload_len - p.transport_header_len) now_ms v.segments_bounded hs hp))

  by_own-IsBounded :
      (s : StreamReassembler) (p : Packet) (key : TcpStreamKey) (seq now_ms : ℕ)
      (own : L7Sniff Info)
      → IsBounded s
      → seq < u32_mod
      → length p.payload < u32_mod
      → IsBounded (by_own detectors alloc rebuild s p key seq now_ms own).0
  by_own-IsBounded s p key seq now_ms (decided info) v hs hp =
      let P : StreamReassembler × SniffOutcome Info → Type 0 = λ r. IsBounded r.0 in
      of_if P (has_buffer s.segments key) _ _ (feed_segment-IsBounded s p key seq now_ms v hs hp) (
        with_framing-IsBounded s _ v (
          of_if FramingBounded (is_dns_over_tcp p) _ _
            (record_message-IsBounded s.dns_framing key seq p.payload _ (response_only p) now_ms
              v.framing_bounded)
            v.framing_bounded))
  by_own-IsBounded s p key seq now_ms (need_more_bytes at_least) v hs hp =
      feed_segment-IsBounded s p key seq now_ms v hs hp
  by_own-IsBounded s p key seq now_ms undecided v hs hp =
      feed_segment-IsBounded s p key seq now_ms v hs hp

  sniff_stream-IsBounded :
      (s : StreamReassembler) (p : Packet) (key : TcpStreamKey) (seq now_ms : ℕ)
      → IsBounded s
      → seq < u32_mod
      → length p.payload < u32_mod
      → IsBounded (sniff_stream detectors alloc rebuild s p key seq now_ms).0
  unfolding sniff_stream
  sniff_stream-IsBounded s p key seq now_ms v hs hp =
      let P : StreamReassembler × SniffOutcome Info → Type 0 = λ r. IsBounded r.0 in
      let skipped = with_framing-IsBounded s _ v (skip_dns-IsBounded s p key seq now_ms v) in
      of_if P _ _ _ skipped (by_own-IsBounded _ p key seq now_ms _ skipped hs hp)

  sniff_target-IsBounded :
      (s : StreamReassembler) (p : Packet) (now_ms : ℕ) (target : Option (TcpStreamKey × ℕ))
      → IsBounded s
      → SeqFits target
      → length p.payload < u32_mod
      → IsBounded (sniff_target detectors alloc rebuild s p now_ms target).0
  sniff_target-IsBounded s p now_ms none v hs hp = v
  sniff_target-IsBounded s p now_ms (some (key, seq)) v hs hp =
      sniff_stream-IsBounded s p key seq now_ms v hs hp

  -- The parser's numbers are in the range of their types.
  abbrev pub ParsesInRange : Type 0
  ParsesInRange = (bytes : List ℕ) (p : Packet) → detectors.parse_packet bytes ≡ some p → IsPacket p

  module _ (resolve_flow : Packet → Option (FlowKey × Bool)) (in_range : ParsesInRange) where
    -- A way to sniff a frame keeps the ceilings.
    abbrev Keeps :
        (StreamReassembler
          → Packet
          → Option (FlowKey × Bool)
          → StreamReassembler × SniffOutcome Info)
        → Type 0
    Keeps inner =
        (s : StreamReassembler) (p : Packet) (flow : Option (FlowKey × Bool))
        → IsBounded s
        → IsPacket p
        → IsBounded (inner s p flow).0

    by_packet-IsBounded :
        (inner : StreamReassembler
          → Packet
          → Option (FlowKey × Bool)
          → StreamReassembler × SniffOutcome Info)
        (s : StreamReassembler) (status : ReassemblyStatus) (o : Option Packet)
        → Keeps inner
        → IsBounded s
        → ((p : Packet) → o ≡ some p → IsPacket p)
        → IsBounded (by_packet detectors alloc rebuild resolve_flow inner s status o).0
    by_packet-IsBounded inner s status none k v h = v
    by_packet-IsBounded inner s status (some p) k v h = k s p (resolve_flow p) v (h p refl)

    by_datagram-IsBounded :
        (inner : StreamReassembler
          → Packet
          → Option (FlowKey × Bool)
          → StreamReassembler × SniffOutcome Info)
        (s : StreamReassembler) (now_ms : ℕ) (o : Option ReassembledDatagram)
        → Keeps inner
        → IsBounded s
        → IsBounded (by_datagram detectors alloc rebuild resolve_flow inner s now_ms o).0
    by_datagram-IsBounded inner s now_ms none k v = v
    by_datagram-IsBounded inner s now_ms (some d) k v =
        by_packet-IsBounded inner s _ (detectors.parse_packet d.bytes) k v (in_range d.bytes)

    pub sniff_inner-IsBounded :
        (fuel now_ms : ℕ) → Keeps (sniff_inner detectors alloc rebuild resolve_flow fuel now_ms)
    unfolding sniff_inner
    sniff_inner-IsBounded zero now_ms s p flow v w = v
    sniff_inner-IsBounded (suc fuel) now_ms s p flow v w =
        let P : StreamReassembler × SniffOutcome Info → Type 0 = λ r. IsBounded r.0 in
        of_if P (is_some p.ip.ip_fragment) _ _
          (by_datagram-IsBounded (sniff_inner detectors alloc rebuild resolve_flow fuel now_ms) _
            now_ms _ (sniff_inner-IsBounded fuel now_ms)
            (record {
              fragments_bounded =
                  feed-IsBounded alloc rebuild s.fragments p.ip now_ms v.fragments_bounded
                    w.fragment_fits;
              segments_bounded = v.segments_bounded;
              framing_bounded = v.framing_bounded;
            }))
          (sniff_target-IsBounded s p now_ms _ v
            (stream_target-SeqFits flow p.seq p.protocol w.seq_fits) w.payload_fits)
