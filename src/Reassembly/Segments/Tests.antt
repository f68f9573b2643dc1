-- ===== src/Reassembly/Segments/Tests.antt =====
-- A stream whose second segment comes first, across a wrap of the sequence numbers.
use network_monitor.Base.{
  ℕ, ◌-◌, ◌^◌, ◌≤◌, ◌<◌, ◌≡◌, refl, true, false, none, some, [], ◌∷◌, arith, length, string_eq,
  get_or, lookup, beq_refl,
}
use native.Mathlib.Nat.{le_refl}
use network_monitor.Reassembly.Status.{max_tcp_stream_bytes}
use network_monitor.Reassembly.Buffer
use network_monitor.Reassembly.Buffer.{Allocator}
use network_monitor.Reassembly.Segments.Key.{TcpStreamKey, FlowKey, tcp, stream_key_eq}
use network_monitor.Reassembly.Segments.Stream.{TcpStream, rebase, accounted_bytes}
use network_monitor.Reassembly.Segments.Stream.Sound.{IsStream}
use network_monitor.Reassembly.Segments.Placing.{HoldsAt, place_record_keeps}
use network_monitor.Reassembly.Segments.Invariant.{
  IsBounded, IsDirection, new-IsBounded, feed_tcp-IsBounded,
}
use network_monitor.Reassembly.Segments.Front.{AreHeld, prefix_lem}
use network_monitor.Reassembly.Segments.{
  TcpReassembler, new, feed, prefix, place_segment, record_segment,
}

exact_reserve_small : (capacity needed : ℕ) → capacity < needed → needed ≤ 2 ^ 20 → needed ≤ 2 ^ 32
exact_reserve_small capacity needed h k = omega arith

abbrev exact : Allocator
exact = record {
  reserve = λ capacity needed. needed;
  enough = λ capacity needed. le_refl needed;
  bounded = exact_reserve_small;
}

abbrev flow : FlowKey
flow = record {
  protocol = tcp;
  local_addr = "10.0.0.1";
  local_port = 4000;
  remote_addr = "10.0.0.2";
  remote_port = 80;
}

abbrev key : TcpStreamKey
key = record { flow = flow; from_local = true }

-- Sequence number 1 is held, from a segment that came before the one at 2 ^ 32 - 1.
abbrev early : TcpStream
early = record {
  base_seq = 1;
  buffer = record { bytes = 7 ∷ []; filled = true ∷ []; bytes_capacity = 1; filled_capacity = 1 };
  prefix_len = 1;
  short_captured_at = none;
  finished = false;
  first_seen_ms = 0;
  last_seen_ms = 0;
}

early-IsStream : IsStream early
early-IsStream = record { sound = omega arith; contiguous = refl }

early-HoldsAt : HoldsAt early 1 7
early-HoldsAt = record { index = 0; numbered = refl; is_held = refl; is_byte = refl }

abbrev one : TcpReassembler
one = (feed exact new key 1 (7 ∷ []) 1 0).0

feed_tcp-IsBounded_example : IsBounded one
feed_tcp-IsBounded_example =
    feed_tcp-IsBounded exact new key 1 (7 ∷ []) 1 0 new-IsBounded (omega arith) (omega arith)

-- Sequence numbers 1, 2 and 4 are held, and 3 is not.
abbrev gapped_stream : TcpStream
gapped_stream = record {
  base_seq = 1;
  buffer = record {
    bytes = 7 ∷ 8 ∷ 0 ∷ 9 ∷ [];
    filled = true ∷ true ∷ false ∷ true ∷ [];
    bytes_capacity = 4;
    filled_capacity = 4;
  };
  prefix_len = 2;
  short_captured_at = none;
  finished = false;
  first_seen_ms = 0;
  last_seen_ms = 0;
}

gapped_stream-IsDirection : IsDirection gapped_stream
gapped_stream-IsDirection = record {
  stream = record { sound = omega arith; contiguous = refl };
  base = omega arith;
}

abbrev gapped : TcpReassembler
gapped = record new {
  streams = (key, gapped_stream) ∷ [];
  bytes_held = accounted_bytes gapped_stream;
}

gapped-IsBounded : IsBounded gapped
unfolding accounted_bytes Buffer.accounted_bytes
gapped-IsBounded = record {
  kept = record { streams_sound = (gapped_stream-IsDirection, tt); accounted = omega arith };
  streams_le = omega arith;
  bytes_le = omega arith;
}

gapped_found : lookup key gapped.streams ≡ some gapped_stream
unfolding lookup
gapped_found = rw (beq_refl ⦃e = stream_key_eq⦄ key) refl

prefix_lem_example :
    AreHeld gapped_stream (prefix gapped key)
    × (get_or gapped_stream.buffer.filled (length (prefix gapped key)) false ≡ false)
    × (length (prefix gapped key) ≤ max_tcp_stream_bytes)
prefix_lem_example = prefix_lem gapped key gapped_stream gapped-IsBounded gapped_found

-- The segment at 2 ^ 32 - 1 shifts the stream by two; its third byte would overwrite the held one.
abbrev shifted : TcpStream
shifted = rebase exact early 2 (2 ^ 32 - 1)

placed : place_segment exact early (2 ^ 32 - 1) ≡ some (shifted, 0)
unfolding place_segment
placed = refl

place_record_keeps_example : HoldsAt (record_segment exact shifted 0 (5 ∷ 6 ∷ 9 ∷ []) 3).0 1 7
place_record_keeps_example =
    place_record_keeps exact early (2 ^ 32 - 1) (5 ∷ 6 ∷ 9 ∷ []) 3 shifted 0 1 7 early-IsStream
      (omega arith) (omega arith) (omega arith) placed early-HoldsAt
