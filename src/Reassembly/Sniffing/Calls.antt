-- ===== src/Reassembly/Sniffing/Calls.antt =====
-- Any calls of `StreamReassembler` in capture-agent/src/reassembly.rs, as the capture loop makes
-- them.
use network_monitor.Base.{
  ℕ, ◌-◌, inl, inr, Bool, Option, List, [], ◌∷◌, arith, ltb, Bool-cases, string_eq,
}
use network_monitor.Reassembly.Buffer.{Allocator}
use network_monitor.Reassembly.Fragments.Invariant.{
  new-IsBounded, clear-IsBounded, evict_stale-IsBounded,
}
use network_monitor.Reassembly.Segments.Invariant.{
  new-IsBounded as new_tcp-IsBounded, clear_tcp-IsBounded, evict_stale_tcp-IsBounded,
  drop_flow-IsBounded,
}
use network_monitor.Reassembly.Segments.Key.{FlowKey}
use network_monitor.Reassembly.DnsFraming.Bound.{
  new_framing-IsBounded, drop_flow_framing-IsBounded, evict_stale_framing-IsBounded,
}
use network_monitor.Reassembly.Sniffing.{
  Packet, Detectors, StreamReassembler, new, reset, note_frame_cut_at_snaplen, drop_flow,
  maybe_evict,
}
use network_monitor.Reassembly.Sniffing.Frames.{sniff_with_flow_resolver}
use network_monitor.Reassembly.Sniffing.Bounded.{
  IsBounded, IsPacket, ParsesInRange, sniff_inner-IsBounded,
}

-- A call, and the clock where it reads one.
pub data Call : Type 0 where
  sniff_frame : (p : Packet) (flow : Option (FlowKey × Bool)) (now_ms : ℕ) → Call
  frame_cut : (now_ms : ℕ) → Call
  sweep : (now_ms : ℕ) → Call
  flow_gone : (flow : FlowKey) → Call
  start_over : Call

-- The frames among the calls have numbers in range.
abbrev pub AreInRange : List Call → Type 0
AreInRange [] = Unit
AreInRange (sniff_frame p flow now_ms ∷ calls) = IsPacket p × AreInRange calls
AreInRange (frame_cut now_ms ∷ calls) = AreInRange calls
AreInRange (sweep now_ms ∷ calls) = AreInRange calls
AreInRange (flow_gone flow ∷ calls) = AreInRange calls
AreInRange (start_over ∷ calls) = AreInRange calls

reset-IsBounded : (s : StreamReassembler) → IsBounded s → IsBounded (reset s)
unfolding reset
reset-IsBounded s v = record {
  fragments_bounded = clear-IsBounded s.fragments;
  segments_bounded = clear_tcp-IsBounded s.segments;
  framing_bounded = omega arith;
}

note_frame_cut_at_snaplen-IsBounded :
    (s : StreamReassembler) (now_ms : ℕ)
    → IsBounded s
    → IsBounded (note_frame_cut_at_snaplen s now_ms)
unfolding note_frame_cut_at_snaplen
note_frame_cut_at_snaplen-IsBounded s now_ms v = record {
  fragments_bounded = v.fragments_bounded;
  segments_bounded = v.segments_bounded;
  framing_bounded = v.framing_bounded;
}

drop_flow_everywhere-IsBounded :
    (s : StreamReassembler) (flow : FlowKey) → IsBounded s → IsBounded (drop_flow s flow)
unfolding drop_flow
drop_flow_everywhere-IsBounded s flow v = record {
  fragments_bounded = v.fragments_bounded;
  segments_bounded = drop_flow-IsBounded s.segments flow v.segments_bounded;
  framing_bounded = drop_flow_framing-IsBounded s.dns_framing flow v.framing_bounded;
}

module _ {ℓ} {Info : Type ℓ} (detectors : Detectors Info) (alloc : Allocator)
    (rebuild : List ℕ → List ℕ → Option (List ℕ))
    (resolve_flow : Packet → Option (FlowKey × Bool)) where
  abbrev pub after_call : Call → StreamReassembler → StreamReassembler
  after_call (sniff_frame p flow now_ms) s =
      (sniff_with_flow_resolver detectors alloc rebuild resolve_flow s p flow now_ms).0
  after_call (frame_cut now_ms) s = note_frame_cut_at_snaplen s now_ms
  after_call (sweep now_ms) s = maybe_evict alloc rebuild s now_ms
  after_call (flow_gone flow) s = drop_flow s flow
  after_call start_over s = reset s

  abbrev pub after_calls : List Call → StreamReassembler → StreamReassembler
  after_calls [] s = s
  after_calls (call ∷ calls) s = after_calls calls (after_call call s)

  maybe_evict-IsBounded :
      (s : StreamReassembler) (now_ms : ℕ)
      → IsBounded s
      → IsBounded (maybe_evict alloc rebuild s now_ms)
  unfolding maybe_evict
  maybe_evict-IsBounded s now_ms v = elim (Bool-cases (ltb (now_ms - s.last_evict_ms) 1000)) [
    | inl early ↦ rw early v
    | inr due ↦ rw due (record {
      fragments_bounded =
          evict_stale-IsBounded alloc rebuild s.fragments now_ms v.fragments_bounded;
      segments_bounded = evict_stale_tcp-IsBounded s.segments now_ms v.segments_bounded;
      framing_bounded = evict_stale_framing-IsBounded s.dns_framing now_ms v.framing_bounded;
    })
  ]

  module _ (in_range : ParsesInRange detectors alloc rebuild) where
    sniff_with_flow_resolver-IsBounded :
        (s : StreamReassembler) (p : Packet) (flow : Option (FlowKey × Bool)) (now_ms : ℕ)
        → IsBounded s
        → IsPacket p
        → IsBounded
            (sniff_with_flow_resolver detectors alloc rebuild resolve_flow s p flow now_ms).0
    unfolding sniff_with_flow_resolver
    sniff_with_flow_resolver-IsBounded s p flow now_ms v w =
        sniff_inner-IsBounded detectors alloc rebuild resolve_flow in_range 2 now_ms s p flow v w

    keep_IsBounded :
        (calls : List Call) (s : StreamReassembler)
        → AreInRange calls
        → IsBounded s
        → IsBounded (after_calls calls s)
    keep_IsBounded [] s w v = v
    keep_IsBounded (sniff_frame p flow now_ms ∷ calls) s w v =
        keep_IsBounded calls _ w.1 (sniff_with_flow_resolver-IsBounded s p flow now_ms v w.0)
    keep_IsBounded (frame_cut now_ms ∷ calls) s w v =
        keep_IsBounded calls _ w (note_frame_cut_at_snaplen-IsBounded s now_ms v)
    keep_IsBounded (sweep now_ms ∷ calls) s w v =
        keep_IsBounded calls _ w (maybe_evict-IsBounded s now_ms v)
    keep_IsBounded (flow_gone flow ∷ calls) s w v =
        keep_IsBounded calls _ w (drop_flow_everywhere-IsBounded s flow v)
    keep_IsBounded (start_over ∷ calls) s w v = keep_IsBounded calls _ w (reset-IsBounded s v)

    -- Whatever frames are sniffed, whatever the detectors decide, and whenever frames are reported
    -- cut, flows dropped, sweeps due and everything reset: a `StreamReassembler` that began empty
    -- has sound groups and streams, right accounts of their bytes, at most 4 MiB in each of its two
    -- reassemblers, and at most `max_tcp_streams` streams and DNS boundaries each. The numbers of
    -- the frames, and of those that the parser makes of rebuilt datagrams, are in the range of
    -- their types.
    pub after_calls-IsBounded :
        (calls : List Call) → AreInRange calls → IsBounded (after_calls calls new)
    unfolding new
    after_calls-IsBounded calls w = keep_IsBounded calls new w (record {
      fragments_bounded = new-IsBounded;
      segments_bounded = new_tcp-IsBounded;
      framing_bounded = new_framing-IsBounded;
    })
