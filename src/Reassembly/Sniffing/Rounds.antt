-- ===== src/Reassembly/Sniffing/Rounds.antt =====
-- The recursion of `sniff_inner` in capture-agent/src/reassembly.rs ends.
use network_monitor.Base.{
  ℕ, zero, suc, ◌≤◌, ◌≡◌, refl, sym, ap, ◌∙◌, Bool, false, Option, none, some, List, arith,
  if◌then◌else◌, is_some, string_eq,
}
use network_monitor.Reassembly.Buffer.{Allocator}
use network_monitor.Reassembly.Fragments
use network_monitor.Reassembly.Fragments.{ReassembledDatagram}
use network_monitor.Reassembly.Fragments.Output.{IsRebuilt, feed-IsRebuilt}
use network_monitor.Reassembly.Status.{ReassemblyStatus}
use network_monitor.Reassembly.Segments.Key.{FlowKey}
use network_monitor.Reassembly.Sniffing.{
  Packet, Detectors, SniffOutcome, StreamReassembler, attribute, stream_target,
}
use network_monitor.Reassembly.Sniffing.Frames.{
  sniff_target, by_packet, by_datagram, sniff_inner, sniff_with_flow_resolver,
}
use network_monitor.Reassembly.Sniffing.Overlap.{sniff_inner-sniff_target}

module _ {ℓ} {Info : Type ℓ} (detectors : Detectors Info) (alloc : Allocator)
    (rebuild : List ℕ → List ℕ → Option (List ℕ)) where
  -- A rebuilt datagram is parsed to no fragment, as its header says that it is whole.
  abbrev RebuildsWhole : Type 0
  RebuildsWhole =
      (header payload bytes : List ℕ) (p : Packet)
      → rebuild header payload ≡ some bytes
      → detectors.parse_packet bytes ≡ some p
      → is_some p.ip.ip_fragment ≡ false

  module _ (resolve_flow : Packet → Option (FlowKey × Bool)) where
    -- Two ways to sniff agree on frames that are no fragments.
    abbrev Agree :
        (StreamReassembler
          → Packet
          → Option (FlowKey × Bool)
          → StreamReassembler × SniffOutcome Info)
        → (StreamReassembler
            → Packet
            → Option (FlowKey × Bool)
            → StreamReassembler × SniffOutcome Info)
        → Type ℓ
    Agree f g =
        (s : StreamReassembler) (p : Packet) (flow : Option (FlowKey × Bool))
        → is_some p.ip.ip_fragment ≡ false
        → f s p flow ≡ g s p flow

    module _
        (f g : StreamReassembler
          → Packet
          → Option (FlowKey × Bool)
          → StreamReassembler × SniffOutcome Info)
        (agree : Agree f g) where
      by_packet_agree :
          (s : StreamReassembler) (status : ReassemblyStatus) (o : Option Packet)
          → ((p : Packet) → o ≡ some p → is_some p.ip.ip_fragment ≡ false)
          → by_packet detectors alloc rebuild resolve_flow f s status o
            ≡ by_packet detectors alloc rebuild resolve_flow g s status o
      by_packet_agree s status none h = refl
      by_packet_agree s status (some p) h = rw (agree s p (resolve_flow p) (h p refl)) refl

      by_datagram_agree :
          (s : StreamReassembler) (now_ms : ℕ) (o : Option ReassembledDatagram)
          → RebuildsWhole
          → IsRebuilt alloc rebuild o
          → by_datagram detectors alloc rebuild resolve_flow f s now_ms o
            ≡ by_datagram detectors alloc rebuild resolve_flow g s now_ms o
      by_datagram_agree s now_ms none w r = refl
      by_datagram_agree s now_ms (some d) w r =
          by_packet_agree s (attribute s d.status now_ms) (detectors.parse_packet d.bytes)
            (λ p e. w r.0 r.1 d.bytes p r.2 e)

    sniff_inner-Agree :
        (fuel now_ms : ℕ)
        → Agree
            (sniff_inner detectors alloc rebuild resolve_flow (suc fuel) now_ms)
            (sniff_inner detectors alloc rebuild resolve_flow 1 now_ms)
    sniff_inner-Agree fuel now_ms s p flow h =
        sniff_inner-sniff_target detectors alloc rebuild resolve_flow fuel now_ms s p flow h
        ∙ sym (sniff_inner-sniff_target detectors alloc rebuild resolve_flow 0 now_ms s p flow h)

    -- Sniffing ends after two rounds: when what a datagram is rebuilt to is parsed to no fragment,
    -- any fuel from two on gives the same state and the same outcome.
    sniff_inner_rounds :
        (fuel now_ms : ℕ) (s : StreamReassembler) (p : Packet) (flow : Option (FlowKey × Bool))
        → RebuildsWhole
        → 2 ≤ fuel
        → sniff_inner detectors alloc rebuild resolve_flow fuel now_ms s p flow
          ≡ sniff_with_flow_resolver detectors alloc rebuild resolve_flow s p flow now_ms
    unfolding sniff_inner sniff_with_flow_resolver
    sniff_inner_rounds zero now_ms s p flow w h = absurd (omega arith)
    sniff_inner_rounds (suc zero) now_ms s p flow w h = absurd (omega arith)
    sniff_inner_rounds (suc (suc fuel)) now_ms s p flow w h =
        let fed = Fragments.feed alloc rebuild s.fragments p.ip now_ms in
        let target =
          sniff_target detectors alloc rebuild s p now_ms (stream_target flow p.seq p.protocol) in
        ap (λ r. if is_some p.ip.ip_fragment then r else target)
          (by_datagram_agree (sniff_inner detectors alloc rebuild resolve_flow (suc fuel) now_ms)
            (sniff_inner detectors alloc rebuild resolve_flow 1 now_ms)
            (sniff_inner-Agree fuel now_ms) (record s { fragments = fed.0 }) now_ms fed.1 w
            (feed-IsRebuilt alloc rebuild s.fragments p.ip now_ms))
