-- ===== src/Reassembly/Sniffing/Overlap.antt =====
-- What decides a segment of a stream of which `StreamReassembler` in capture-agent/src/reassembly.rs
-- holds bytes.
use network_monitor.Base.{
  ℕ, suc, ◌-◌, ◌≡◌, refl, sym, ap, ◌∙◌, subst, ◌⊎◌, inl, inr, Bool, true, false, Option, none, some,
  List, is_some, Bool-cases, string_eq,
}
use network_monitor.Base.{if_of_false}
use network_monitor.Reassembly.Status.{ReassemblyStatus}
use network_monitor.Reassembly.Buffer.{Allocator}
use network_monitor.Reassembly.Segments
use network_monitor.Reassembly.Segments.{TcpReassembler, has_buffer, prefix}
use network_monitor.Reassembly.Segments.Stream.{TcpStream, is_idle}
use network_monitor.Reassembly.Eviction.Entries.{IsOnce}
use network_monitor.Reassembly.Segments.Invariant.{feed_tcp-IsBounded, IsBounded as IsTable}
use network_monitor.Reassembly.Segments.Front.{
  AreHeld, ShowsFirst, prefix_lem, prefix_gone, prefix-ShowsFirst,
}
use network_monitor.Reassembly.Segments.Keeping.{GoneOrKeeps, Tells, feed-Tells}
use network_monitor.Base.{◌<◌, [], lookup, contains_key, length, u32_mod}
use network_monitor.Reassembly.Segments.Key.{FlowKey, TcpStreamKey, stream_key_eq}
use network_monitor.Reassembly.Sniffing.{
  Packet, L7Sniff, decided, need_more_bytes, undecided, Detectors, SniffOutcome, StreamReassembler,
  is_dns_over_tcp, is_syn, stream_target,
}
use network_monitor.Reassembly.Sniffing.Frames.{
  no_outcome, outcome_of, skip_dns, after_feed, feed_segment, by_own, sniff_bytes, sniff_stream,
  sniff_target, sniff_inner, sniff_with_flow_resolver,
}

module _ {ℓ} {Info : Type ℓ} (detectors : Detectors Info) (alloc : Allocator)
    (rebuild : List ℕ → List ℕ → Option (List ℕ)) where
  -- The table once the segment is fed, and the status of the stream, if it tells one.
  abbrev pub fed_with :
      StreamReassembler → Packet → TcpStreamKey → ℕ → ℕ → TcpReassembler × Option ReassemblyStatus
  fed_with s p key seq now_ms =
      Segments.feed alloc s.segments key seq p.payload
        (p.ip.ip_declared_payload_len - p.transport_header_len) now_ms

  -- Nothing is told, or what the detectors decide from the direction's prefix, which is empty if the
  -- direction was evicted: else the prefix is a run of bytes that the direction holds, by sequence
  -- number, and where `t` holds a byte, it is that of `t`.
  abbrev pub IsDecidedBy : Packet → TcpStreamKey → TcpStream → TcpReassembler → Info → Type ℓ
  IsDecidedBy p key t segments info =
      (info ≡ detectors.nothing)
      ⊎ ((sniff_bytes detectors alloc rebuild p (prefix segments key) ≡ decided info)
          × ((prefix segments key ≡ [])
              ⊎ ((t' : TcpStream) × (lookup key segments.streams ≡ some t')
                  × AreHeld t' (prefix segments key)
                  × ShowsFirst t t' (prefix segments key))))

  -- Where a status is told, the prefix is as it should be.
  abbrev IsToldBy :
      Packet → TcpStreamKey → TcpStream → TcpReassembler × Option ReassemblyStatus → Info → Type ℓ
  IsToldBy p key t fed info =
      (info ≡ detectors.nothing)
      ⊎ ((sniff_bytes detectors alloc rebuild p (prefix fed.0 key) ≡ decided info)
          × GoneOrKeeps key t fed.0)

  outcome_of-IsToldBy :
      (p : Packet) (key : TcpStreamKey) (t : TcpStream) (segments : TcpReassembler)
      (st : Option ReassemblyStatus) (status : Option ReassemblyStatus) (sniffed : L7Sniff Info)
      → GoneOrKeeps key t segments
      → sniff_bytes detectors alloc rebuild p (prefix segments key) ≡ sniffed
      → IsToldBy p key t (segments, st) (outcome_of detectors alloc rebuild status sniffed).info
  unfolding outcome_of
  outcome_of-IsToldBy p key t segments st status (decided info) g e = inr (e, g)
  outcome_of-IsToldBy p key t segments st status (need_more_bytes at_least) g e = inl refl
  outcome_of-IsToldBy p key t segments st status undecided g e = inl refl

  after_feed-IsToldBy :
      (s : StreamReassembler) (p : Packet) (key : TcpStreamKey) (t : TcpStream) (seq now_ms : ℕ)
      (fed : Option ReassemblyStatus)
      → Tells key t (s.segments, fed)
      → IsToldBy p key t
          (s.segments, fed)
          (after_feed detectors alloc rebuild s p key seq now_ms fed).1.info
  unfolding no_outcome
  after_feed-IsToldBy s p key t seq now_ms none g = inl refl
  after_feed-IsToldBy s p key t seq now_ms (some raw_status) g =
      outcome_of-IsToldBy p key t s.segments (some raw_status) _ _ g refl

  skip_dns-held :
      (s : StreamReassembler) (p : Packet) (key : TcpStreamKey) (seq now_ms : ℕ)
      → has_buffer s.segments key ≡ true
      → (skip_dns detectors alloc rebuild s p key seq now_ms).1 ≡ false
  unfolding skip_dns
  skip_dns-held s p key seq now_ms h = elim (Bool-cases (is_dns_over_tcp p)) [
    | inl dns ↦ elim (Bool-cases (is_syn p.tcp_flags)) [
      | inl syn ↦ rw (dns, syn) refl
      | inr data_only ↦ rw (dns, data_only, h) refl
    ]
    | inr no_dns ↦ rw no_dns refl
  ]

  by_own-IsToldBy :
      (s : StreamReassembler) (p : Packet) (key : TcpStreamKey) (t : TcpStream) (seq now_ms : ℕ)
      (own : L7Sniff Info)
      → has_buffer s.segments key ≡ true
      → Tells key t (fed_with s p key seq now_ms)
      → IsToldBy p key t
          (fed_with s p key seq now_ms)
          (by_own detectors alloc rebuild s p key seq now_ms own).1.info
  unfolding feed_segment
  by_own-IsToldBy s p key t seq now_ms (decided info) h g =
      rw h (after_feed-IsToldBy _ p key t seq now_ms _ g)
  by_own-IsToldBy s p key t seq now_ms (need_more_bytes at_least) h g =
      after_feed-IsToldBy _ p key t seq now_ms _ g
  by_own-IsToldBy s p key t seq now_ms undecided h g = after_feed-IsToldBy _ p key t seq now_ms _ g

  sniff_stream-IsToldBy :
      (s : StreamReassembler) (p : Packet) (key : TcpStreamKey) (t : TcpStream) (seq now_ms : ℕ)
      → has_buffer s.segments key ≡ true
      → Tells key t (fed_with s p key seq now_ms)
      → IsToldBy p key t
          (fed_with s p key seq now_ms)
          (sniff_stream detectors alloc rebuild s p key seq now_ms).1.info
  unfolding sniff_stream
  sniff_stream-IsToldBy s p key t seq now_ms h g =
      rw (skip_dns-held s p key seq now_ms h)
        (by_own-IsToldBy _ p key t seq now_ms (sniff_bytes detectors alloc rebuild p p.payload) h g)

  told-IsDecidedBy :
      (p : Packet) (key : TcpStreamKey) (t : TcpStream)
      (fed : TcpReassembler × Option ReassemblyStatus) (info : Info)
      → IsTable fed.0
      → IsToldBy p key t fed info
      → IsDecidedBy p key t fed.0 info
  told-IsDecidedBy p key t fed info v (inl none_told) = inl none_told
  told-IsDecidedBy p key t fed info v (inr (decides, inl gone)) =
      inr (decides, inl (prefix_gone fed.0 key gone))
  told-IsDecidedBy p key t fed info v (inr (decides, inr (t', found, keeps))) = inr (
    decides,
    inr (
      t',
      found,
      (prefix_lem fed.0 key t' v found).0,
      prefix-ShowsFirst fed.0 key t t' v found keeps,
    ),
  )

  module _ (resolve_flow : Packet → Option (FlowKey × Bool)) where
    -- A frame that is no fragment goes to its stream.
    pub sniff_inner-sniff_target :
        (fuel now_ms : ℕ) (s : StreamReassembler) (p : Packet) (flow : Option (FlowKey × Bool))
        → is_some p.ip.ip_fragment ≡ false
        → sniff_inner detectors alloc rebuild resolve_flow (suc fuel) now_ms s p flow
          ≡ sniff_target detectors alloc rebuild s p now_ms (stream_target flow p.seq p.protocol)
    unfolding sniff_inner
    sniff_inner-sniff_target fuel now_ms s p flow h = if_of_false (is_some p.ip.ip_fragment) _ _ h

  -- A forged segment cannot speak for bytes that were seen before it. When a direction is held that
  -- was seen within the idle time, what sniffing a segment of it, no fragment, tells is nothing, or
  -- what the detectors decide from the direction's prefix. If the direction was evicted meanwhile,
  -- that prefix is empty. Else it is a run of bytes that the direction holds, and at each sequence
  -- number of which a byte was held before, it has that byte, whatever the segment carries. The
  -- table is within its bounds and has the direction once, and the segment's number and length are
  -- 32-bit numbers.
  pub sniff_with_flow_resolver-IsDecidedBy :
      (resolve_flow : Packet → Option (FlowKey × Bool)) (s : StreamReassembler) (p : Packet)
      (flow : Option (FlowKey × Bool)) (key : TcpStreamKey) (t : TcpStream) (seq now_ms : ℕ)
      → is_some p.ip.ip_fragment ≡ false
      → stream_target flow p.seq p.protocol ≡ some (key, seq)
      → IsTable s.segments
      → IsOnce key s.segments.streams
      → lookup key s.segments.streams ≡ some t
      → is_idle t now_ms ≡ false
      → seq < u32_mod
      → length p.payload < u32_mod
      → IsDecidedBy p key t
          (fed_with s p key seq now_ms).0
          (sniff_with_flow_resolver detectors alloc rebuild resolve_flow s p flow now_ms).1.info
  unfolding sniff_with_flow_resolver has_buffer contains_key
  sniff_with_flow_resolver-IsDecidedBy resolve_flow s p flow key t seq now_ms f target v once found
        fresh hs hp =
      let declared = p.ip.ip_declared_payload_len - p.transport_header_len in
      let goes =
        sniff_inner-sniff_target resolve_flow 1 now_ms s p flow f
        ∙ ap (sniff_target detectors alloc rebuild s p now_ms) target in
      subst
        (λ (r : StreamReassembler × SniffOutcome Info).
          IsDecidedBy p key t (fed_with s p key seq now_ms).0 r.1.info)
        (sym goes)
        (told-IsDecidedBy p key t (fed_with s p key seq now_ms) _
          (feed_tcp-IsBounded alloc s.segments key seq p.payload declared now_ms v hs hp)
          (sniff_stream-IsToldBy s p key t seq now_ms (ap (λ o. is_some o) found) (
            feed-Tells alloc s.segments key t seq p.payload declared now_ms v once found fresh hs
              hp)))
