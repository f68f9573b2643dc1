-- ===== src/Reassembly/Sniffing/Frames.antt =====
-- `sniff_with_flow_resolver` of capture-agent/src/reassembly.rs: what a captured frame tells, with
-- reassembly where it helps.
use network_monitor.Base.{
  ℕ, zero, suc, ◌-◌, Bool, true, false, not, ◌&&◌, Option, none, some, List, leb, if◌then◌else◌,
  is_some, length, string_eq,
}
use network_monitor.Reassembly.Status.{ReassemblyStatus, max_tcp_stream_bytes}
use network_monitor.Reassembly.Buffer.{Allocator}
use network_monitor.Reassembly.Fragments
use network_monitor.Reassembly.Fragments.{ReassembledDatagram}
use network_monitor.Reassembly.Segments
use network_monitor.Reassembly.Segments.{has_buffer, prefix, base_seq, finish}
use network_monitor.Reassembly.Segments.Key.{FlowKey, TcpStreamKey}
use network_monitor.Reassembly.DnsFraming.{
  DnsTcpFraming, forget, skip_inside_message, record_message, note_consumed, covers_first_message,
}
use network_monitor.Reassembly.Sniffing.{
  Packet, L7Sniff, decided, need_more_bytes, undecided, Detectors, SniffOutcome, StreamReassembler,
  attribute, is_dns_over_tcp, response_only, is_syn, stream_target, combined_status,
}

module _ {ℓ} {Info : Type ℓ} (detectors : Detectors Info) (alloc : Allocator)
    (rebuild_ipv4_datagram : List ℕ → List ℕ → Option (List ℕ)) where
  unfoldable pub no_outcome : SniffOutcome Info
  no_outcome = record {
    info = detectors.nothing;
    status = none;
    need_more_bytes = none;
    reassembled_packet = none;
  }

  unfoldable pub sniff_bytes : Packet → List ℕ → L7Sniff Info
  sniff_bytes p bytes = detectors.sniff_for_transport bytes p.protocol p.src_port p.dst_port

  -- What a sniff tells, with the status of the bytes.
  unfoldable pub outcome_of : Option ReassemblyStatus → L7Sniff Info → SniffOutcome Info
  outcome_of status (decided info) = record {
    info = info;
    status = status;
    need_more_bytes = none;
    reassembled_packet = none;
  }
  outcome_of status (need_more_bytes at_least) = record {
    info = detectors.nothing;
    status = status;
    need_more_bytes = some at_least;
    reassembled_packet = none;
  }
  outcome_of status undecided = record {
    info = detectors.nothing;
    status = status;
    need_more_bytes = none;
    reassembled_packet = none;
  }

  -- A segment from inside a DNS message, whose start was seen and of which nothing is buffered.
  unfoldable pub skip_dns : StreamReassembler → Packet → TcpStreamKey → ℕ → ℕ → DnsTcpFraming × Bool
  skip_dns s p key seq now_ms =
      if is_dns_over_tcp p
      then if is_syn p.tcp_flags
        then (forget s.dns_framing key, false)
        else if has_buffer s.segments key
        then (s.dns_framing, false)
        else skip_inside_message s.dns_framing key seq p.payload (response_only p) now_ms
      else (s.dns_framing, false)

  abbrev pub is_other_protocol : L7Sniff Info → Bool
  is_other_protocol (decided info) = not (detectors.is_dns_info info)
  is_other_protocol (need_more_bytes at_least) = false
  is_other_protocol undecided = false

  abbrev pub is_undecided : L7Sniff Info → Bool
  is_undecided (decided info) = false
  is_undecided (need_more_bytes at_least) = false
  is_undecided undecided = true

  -- Where the next DNS message starts, by the buffer and, at its cap, by the segment too.
  unfoldable pub framing_after :
      StreamReassembler → Packet → TcpStreamKey → ℕ → L7Sniff Info → ℕ → ℕ → DnsTcpFraming
  framing_after s p key seq sniffed now_ms base =
      let held = prefix s.segments key in
      let recorded =
        record_message s.dns_framing key base held (is_other_protocol sniffed) (response_only p)
          now_ms in
      if leb max_tcp_stream_bytes (length held)
      then (skip_inside_message recorded key seq p.payload (response_only p) now_ms).0
      else recorded

  -- A message that will never decide is finished.
  abbrev pub finished_dns :
      StreamReassembler
      → Packet
      → TcpStreamKey
      → ℕ
      → ReassemblyStatus
      → L7Sniff Info
      → ℕ
      → Option ℕ
      → StreamReassembler
  finished_dns s p key seq status sniffed now_ms none = s
  finished_dns s p key seq status sniffed now_ms (some base) =
      let framing = framing_after s p key seq sniffed now_ms base in
      record s {
        dns_framing = framing;
        segments =
            if is_undecided sniffed && covers_first_message framing key base (prefix s.segments key)
            then finish s.segments key status
            else s.segments;
      }

  unfoldable pub after_dns :
      StreamReassembler
      → Packet
      → TcpStreamKey
      → ℕ
      → ReassemblyStatus
      → L7Sniff Info
      → ℕ
      → StreamReassembler
  after_dns s p key seq status sniffed now_ms =
      if is_dns_over_tcp p
      then finished_dns s p key seq status sniffed now_ms (base_seq s.segments key)
      else s

  -- A decision releases the stream.
  abbrev pub concluded :
      StreamReassembler → TcpStreamKey → ReassemblyStatus → L7Sniff Info → StreamReassembler
  concluded s key status (decided info) = record s { segments = finish s.segments key status }
  concluded s key status (need_more_bytes at_least) = s
  concluded s key status undecided = s

  -- What follows when the segment reassembler took the segment, and when it changed nothing.
  abbrev pub after_feed :
      StreamReassembler
      → Packet
      → TcpStreamKey
      → ℕ
      → ℕ
      → Option ReassemblyStatus
      → StreamReassembler × SniffOutcome Info
  after_feed s p key seq now_ms none = (
    record s {
      dns_framing =
          if is_dns_over_tcp p
          then note_consumed s.dns_framing key seq p.payload (response_only p) now_ms
          else s.dns_framing;
    },
    no_outcome,
  )
  after_feed s p key seq now_ms (some raw_status) =
      let status = attribute s raw_status now_ms in
      let sniffed = sniff_bytes p (prefix s.segments key) in
      (
        concluded (after_dns s p key seq status sniffed now_ms) key status sniffed,
        outcome_of (some status) sniffed,
      )

  unfoldable pub feed_segment :
      StreamReassembler → Packet → TcpStreamKey → ℕ → ℕ → StreamReassembler × SniffOutcome Info
  feed_segment s p key seq now_ms =
      let (segments', fed) =
        Segments.feed alloc s.segments key seq p.payload
          (p.ip.ip_declared_payload_len - p.transport_header_len) now_ms in
      after_feed (record s { segments = segments' }) p key seq now_ms fed

  -- The segment's own bytes decide only when nothing is held.
  abbrev pub by_own :
      StreamReassembler
      → Packet
      → TcpStreamKey
      → ℕ
      → ℕ
      → L7Sniff Info
      → StreamReassembler × SniffOutcome Info
  by_own s p key seq now_ms (decided info) =
      if has_buffer s.segments key then feed_segment s p key seq now_ms else (
        record s {
          dns_framing =
              if is_dns_over_tcp p
              then record_message s.dns_framing key seq p.payload (not (detectors.is_dns_info info))
                  (response_only p) now_ms
              else s.dns_framing;
        },
        outcome_of none (decided info),
      )
  by_own s p key seq now_ms (need_more_bytes at_least) = feed_segment s p key seq now_ms
  by_own s p key seq now_ms undecided = feed_segment s p key seq now_ms

  unfoldable pub sniff_stream :
      StreamReassembler → Packet → TcpStreamKey → ℕ → ℕ → StreamReassembler × SniffOutcome Info
  sniff_stream s p key seq now_ms =
      let (framing, inside) = skip_dns s p key seq now_ms in
      let s' = record s { dns_framing = framing } in
      if inside then (s', no_outcome) else by_own s' p key seq now_ms (sniff_bytes p p.payload)

  abbrev pub sniff_target :
      StreamReassembler
      → Packet
      → ℕ
      → Option (TcpStreamKey × ℕ)
      → StreamReassembler × SniffOutcome Info
  sniff_target s p now_ms none = (s, outcome_of none (sniff_bytes p p.payload))
  sniff_target s p now_ms (some (key, seq)) = sniff_stream s p key seq now_ms

  module _ (resolve_flow : Packet → Option (FlowKey × Bool)) where
    -- The frame that a datagram is parsed to goes through `inner`.
    abbrev pub by_packet :
        (StreamReassembler
          → Packet
          → Option (FlowKey × Bool)
          → StreamReassembler × SniffOutcome Info)
        → StreamReassembler
        → ReassemblyStatus
        → Option Packet
        → StreamReassembler × SniffOutcome Info
    by_packet inner s status none = (s, record no_outcome { status = combined_status status none })
    by_packet inner s status (some p) =
        let (s', outcome) = inner s p (resolve_flow p) in
        (
          s',
          record outcome {
            status = combined_status status outcome.status;
            reassembled_packet = some p;
          },
        )

    abbrev pub by_datagram :
        (StreamReassembler
          → Packet
          → Option (FlowKey × Bool)
          → StreamReassembler × SniffOutcome Info)
        → StreamReassembler
        → ℕ
        → Option ReassembledDatagram
        → StreamReassembler × SniffOutcome Info
    by_datagram inner s now_ms none = (s, no_outcome)
    by_datagram inner s now_ms (some datagram) =
        by_packet inner s (attribute s datagram.status now_ms)
          (detectors.parse_packet datagram.bytes)

    -- Fuel for the frame and what it is rejoined to.
    unfoldable pub sniff_inner :
        ℕ
        → ℕ
        → StreamReassembler
        → Packet
        → Option (FlowKey × Bool)
        → StreamReassembler × SniffOutcome Info
    sniff_inner zero now_ms s p flow = (s, no_outcome)
    sniff_inner (suc fuel) now_ms s p flow =
        if is_some p.ip.ip_fragment
        then (let (fragments', datagram) =
              Fragments.feed alloc rebuild_ipv4_datagram s.fragments p.ip now_ms in
            by_datagram (sniff_inner fuel now_ms) (record s { fragments = fragments' }) now_ms
              datagram)
        else sniff_target s p now_ms (stream_target flow p.seq p.protocol)

    -- Two rounds: what a datagram is rebuilt to is no fragment.
    unfoldable pub sniff_with_flow_resolver :
        StreamReassembler
        → Packet
        → Option (FlowKey × Bool)
        → ℕ
        → StreamReassembler × SniffOutcome Info
    sniff_with_flow_resolver s p flow now_ms = sniff_inner 2 now_ms s p flow

  unfoldable pub sniff :
      StreamReassembler
      → Packet
      → Option (FlowKey × Bool)
      → ℕ
      → StreamReassembler × SniffOutcome Info
  sniff s p flow now_ms = sniff_with_flow_resolver (λ q. none) s p flow now_ms
