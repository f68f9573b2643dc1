-- ===== src/TlsStream/Tests.antt =====
-- Runs of capture-agent/src/tls_stream.rs on small streams.
use network_monitor.Base.{
  ℕ, zero, ◌≢◌, ◌<◌, ◌+◌, suc, length, get_or, ◌≡◌, refl, inl, List, [], ◌∷◌, arith, string_eq,
}
use network_monitor.Base.Results.{ok}
use network_monitor.TlsStream.Tcp
use network_monitor.TlsStream.Tcp.{
  TlsTcpStream, TlsStreamError, conflicting_overlap, record_too_large,
}
use network_monitor.TlsStream.Records.Fuel.{Ends, feed?-Ends}
use network_monitor.TlsStream.Tcp.Delivery.{feed-Delivers, stretch-IsSlice}
use network_monitor.TlsStream.Tcp.Follows.{Follows}
use network_monitor.TlsStream.Tcp.Placed.{Delivers}
use network_monitor.TlsStream.Records
use network_monitor.TlsStream.Records.{TlsRecordFramer}
use network_monitor.TlsStream.{TlsDirectionStream, feed_segment}
use network_monitor.TlsStream

abbrev stream_bytes : List ℕ
stream_bytes = 22 ∷ 3 ∷ 3 ∷ 0 ∷ 2 ∷ 7 ∷ 8 ∷ []

-- Three bytes were delivered, across the wrap of sequence numbers, and the last but one is held.
abbrev three_delivered : TlsTcpStream
three_delivered = record { next_seq = 1; bytes = 0 ∷ 0 ∷ 7 ∷ []; present = 0 ∷ 0 ∷ 1 ∷ [] }

held_inside : (i : ℕ) → get_or three_delivered.present i 0 ≢ 0 → 3 + i < length stream_bytes
held_inside zero p = absurd (p refl)
held_inside (suc zero) p = absurd (p refl)
held_inside (suc (suc zero)) p = omega arith
held_inside (suc (suc (suc i))) p = absurd (p refl)

held_same :
    (i : ℕ)
    → get_or three_delivered.present i 0 ≢ 0
    → get_or three_delivered.bytes i 0 ≡ get_or stream_bytes (3 + i) 0
held_same zero p = absurd (p refl)
held_same (suc zero) p = absurd (p refl)
held_same (suc (suc zero)) p = refl
held_same (suc (suc (suc i))) p = absurd (p refl)

three_delivered-Follows : Follows stream_bytes 4294967294 3 three_delivered
three_delivered-Follows = record {
  numbered = refl;
  consumed = omega arith;
  paired = refl;
  inside = λ i p. held_inside i p;
  same = λ i p. held_same i p;
}

-- A segment that starts two bytes before the edge and ends with one byte missing before the one that is held.
feed-Delivers_example :
    Delivers stream_bytes 4294967294 3 1 3 three_delivered
      (Tcp.feed three_delivered 4294967295 (3 ∷ 3 ∷ 0 ∷ []))
feed-Delivers_example =
    feed-Delivers stream_bytes 4294967294 3 1 three_delivered 4294967295 (3 ∷ 3 ∷ 0 ∷ [])
      three_delivered-Follows refl (stretch-IsSlice stream_bytes 1 3 (omega arith)) refl
      (omega arith) (omega arith) (inl (omega arith))

two_segments_framed :
    let (d, first) = feed_segment (TlsStream.new 4294967294) 1 (0 ∷ 2 ∷ 7 ∷ 8 ∷ []) in
    (first ≡ ok []) × ((feed_segment d 4294967294 (22 ∷ 3 ∷ 3 ∷ [])).1 ≡ ok (stream_bytes ∷ []))
unfolding feed_segment TlsStream.new Tcp.feed Tcp.feed_at Tcp.take_contiguous Tcp.grow_to
    Tcp.write_slots Tcp.new Records.feed Records.feed? Records.frame Records.target_len
    Records.body_len Records.new
two_segments_framed = (refl, refl)

feed?-Ends_example : Ends (Records.feed? Records.new (22 ∷ 3 ∷ 3 ∷ 0 ∷ 2 ∷ 7 ∷ []))
unfolding Records.new
feed?-Ends_example = feed?-Ends Records.new (22 ∷ 3 ∷ 3 ∷ 0 ∷ 2 ∷ 7 ∷ []) (inl (omega arith))
