-- ===== src/Reassembly/Sniffing/Tests.antt =====
-- Runs of `StreamReassembler` in capture-agent/src/reassembly.rs, with a detector that knows the
-- byte 71.
use network_monitor.Base.{
  ℕ, ◌+◌, ◌^◌, ◌≤◌, ◌<◌, ◌≡◌, refl, subst, Bool, true, false, Option, none, some, List, [], ◌∷◌,
  ◌++◌, arith, ltb, ◌==◌, if◌then◌else◌, ltb→lt, length, string_eq, beq_refl, lookup, remove,
}
use mathlib.Core.Option.{some-injective}
use network_monitor.Reassembly.Fragments.Group.Sound.{IsFragment}
use network_monitor.Reassembly.Buffer.{Allocator}
use network_monitor.Reassembly.Fragments.Group.{Ipv4Fragment}
use network_monitor.Reassembly.Segments.Invariant.{IsDirection, IsBounded as IsTable}
use network_monitor.Reassembly.Eviction.Entries.{IsOnce}
use network_monitor.Reassembly.Buffer
use network_monitor.Reassembly.Segments.Stream.{TcpStream, accounted_bytes, is_idle}
use network_monitor.Reassembly.Segments.Key.{
  FlowKey, TcpStreamKey, TransportProtocol, tcp, same_protocol, stream_key_eq,
}
use network_monitor.Reassembly.Sniffing.{
  Packet, L7Sniff, decided, need_more_bytes, undecided, Detectors, SniffOutcome, StreamReassembler,
  new, stream_target,
}
use network_monitor.Reassembly.Sniffing.Frames.{sniff_with_flow_resolver}
use network_monitor.Reassembly.Sniffing.Bounded.{IsBounded, IsPacket, ParsesInRange}
use network_monitor.Reassembly.Sniffing.Calls.{
  Call, sniff_frame, frame_cut, sweep, flow_gone, start_over, after_calls, after_calls-IsBounded,
}
use network_monitor.Reassembly.Sniffing.Overlap.{
  IsDecidedBy, fed_with, sniff_with_flow_resolver-IsDecidedBy,
}

le_refl : (n : ℕ) → n ≤ n
le_refl n = omega arith

exact_reserve_small : (capacity needed : ℕ) → capacity < needed → needed ≤ 2 ^ 20 → needed ≤ 2 ^ 32
exact_reserve_small capacity needed h k = omega arith

abbrev exact : Allocator
exact = record {
  reserve = λ capacity needed. needed;
  enough = λ capacity needed. le_refl needed;
  bounded = exact_reserve_small;
}

abbrev join : List ℕ → List ℕ → Option (List ℕ)
join header payload = some (header ++ payload)

abbrev detect : List ℕ → TransportProtocol → Option ℕ → Option ℕ → L7Sniff ℕ
detect [] protocol src_port dst_port = undecided
detect (b ∷ bs) protocol src_port dst_port = if b == 71 then decided 1 else need_more_bytes 1

abbrev segment : List ℕ → Packet
segment payload = record {
  ip = record {
    src_ip = "10.0.0.1";
    dst_ip = "10.0.0.2";
    ip_declared_payload_len = 20 + length payload;
    ip_fragment = none;
  };
  protocol = tcp;
  src_port = some 4000;
  dst_port = some 80;
  seq = some 1;
  tcp_flags = some (record { syn = false });
  transport_header_len = 20;
  payload = payload;
}

abbrev fragment : Ipv4Fragment
fragment = record {
  identification = 7;
  offset_bytes = 0;
  more_fragments = false;
  protocol = 6;
  header = 69 ∷ [];
  payload = 71 ∷ 72 ∷ [];
}

abbrev fragment_frame : Packet
fragment_frame = record (segment []) {
  ip = record {
    src_ip = "10.0.0.1";
    dst_ip = "10.0.0.2";
    ip_declared_payload_len = 2;
    ip_fragment = some fragment;
  };
}

abbrev detectors : Detectors ℕ
detectors = record {
  nothing = 0;
  sniff_for_transport = detect;
  is_dns_info = λ info. false;
  parse_packet = λ bytes. if ltb (length bytes) 1000 then some (segment bytes) else none;
}

abbrev flow : FlowKey
flow = record {
  protocol = tcp;
  local_addr = "10.0.0.1";
  local_port = 4000;
  remote_addr = "10.0.0.2";
  remote_port = 80;
}

abbrev key : TcpStreamKey
key = record { flow = flow; from_local = true }

abbrev resolve : Packet → Option (FlowKey × Bool)
resolve p = some (flow, true)

segment-IsPacket : (payload : List ℕ) → length payload < 1000 → IsPacket (segment payload)
segment-IsPacket payload h = record {
  seq_fits = λ seq e. ground arith;
  payload_fits = omega (arith, h);
  fragment_fits = λ f e. absurd (cc);
}

fragment-IsFragment : IsFragment fragment
fragment-IsFragment = record { offset_u32 = omega arith; payload_u32 = omega arith }

fragment_frame-IsPacket : IsPacket fragment_frame
fragment_frame-IsPacket = record {
  seq_fits = λ seq e. ground arith;
  payload_fits = omega arith;
  fragment_fits = λ f e. subst IsFragment (some-injective fragment f e) fragment-IsFragment;
}

-- What is parsed has what every segment has.
parsed_as {ℓ} :
    (P : Packet → Type ℓ) (c : Bool) (bytes : List ℕ) (p : Packet)
    → (c ≡ true → P (segment bytes))
    → (if c then some (segment bytes) else none) ≡ some p
    → P p
parsed_as P true bytes p h e = subst P (some-injective (segment bytes) p e) (h refl)
parsed_as P false bytes p h e = absurd (cc)

parses_in_range : ParsesInRange detectors exact join
parses_in_range bytes p e =
    parsed_as IsPacket (ltb (length bytes) 1000) bytes p
      (λ short. segment-IsPacket bytes (ltb→lt (length bytes) 1000 short)) e

abbrev calls : List Call
calls =
    sniff_frame (segment (72 ∷ [])) (some (flow, true)) 10
    ∷ frame_cut 20
    ∷ sniff_frame fragment_frame none 30
    ∷ sweep 5000
    ∷ flow_gone flow
    ∷ start_over
    ∷ []

after_calls-IsBounded_example : IsBounded (after_calls detectors exact join resolve calls new)
after_calls-IsBounded_example =
    after_calls-IsBounded detectors exact join resolve parses_in_range calls
      (segment-IsPacket (72 ∷ []) (omega arith), (fragment_frame-IsPacket, tt))

-- One byte is held that no detector knows.
abbrev held : TcpStream
held = record {
  base_seq = 1;
  buffer = record { bytes = 72 ∷ []; filled = true ∷ []; bytes_capacity = 1; filled_capacity = 1 };
  prefix_len = 1;
  short_captured_at = none;
  finished = false;
  first_seen_ms = 0;
  last_seen_ms = 0;
}

abbrev holding : StreamReassembler
holding = record new {
  segments = record {
    streams = (key, held) ∷ [];
    bytes_held = 2;
    counters = new.segments.counters;
  };
}

is_target : stream_target (some (flow, true)) (some 1) tcp ≡ some (key, 1)
unfolding stream_target same_protocol
is_target = refl

held-IsDirection : IsDirection held
held-IsDirection = record {
  stream = record { sound = omega arith; contiguous = refl };
  base = omega arith;
}

holding-IsTable : IsTable holding.segments
unfolding accounted_bytes Buffer.accounted_bytes
holding-IsTable = record {
  kept = record { streams_sound = (held-IsDirection, tt); accounted = omega arith };
  streams_le = omega arith;
  bytes_le = omega arith;
}

is_held : lookup key holding.segments.streams ≡ some held
unfolding lookup
is_held = rw (beq_refl ⦃e = stream_key_eq⦄ key) refl

is_once : IsOnce key holding.segments.streams
unfolding lookup remove
is_once = rw (beq_refl ⦃e = stream_key_eq⦄ key) refl

is_fresh : is_idle held 10 ≡ false
unfolding is_idle
is_fresh = refl

abbrev forged : StreamReassembler × SniffOutcome ℕ
forged =
    sniff_with_flow_resolver detectors exact join resolve holding (segment (71 ∷ 71 ∷ []))
      (some (flow, true)) 10

-- The forged segment alone would be taken for the known protocol.
sniff_with_flow_resolver-IsDecidedBy_example :
    IsDecidedBy detectors exact join
      (segment (71 ∷ 71 ∷ []))
      key
      held
      (fed_with detectors exact join holding (segment (71 ∷ 71 ∷ [])) key 1 10).0
      forged.1.info
sniff_with_flow_resolver-IsDecidedBy_example =
    sniff_with_flow_resolver-IsDecidedBy detectors exact join resolve holding
      (segment (71 ∷ 71 ∷ [])) (some (flow, true)) key held 1 10 refl is_target holding-IsTable
      is_once is_held is_fresh (omega arith) (omega arith)
