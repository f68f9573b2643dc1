-- ===== src/Reassembly/DnsFraming/Bound.antt =====
-- The bound on the boundaries that the DNS-over-TCP framing holds.
use network_monitor.Base.{
  ℕ, ◌-◌, ◌≤◌, min, ◌≡◌, refl, inl, inr, Bool, true, false, not, ◌&&◌, ◌||◌, Option, none, some,
  List, [], ◌∷◌, arith, ltb, ◌==◌, if◌then◌else◌, is_some, Bool-cases, length, drop, wrapping_sub32,
  string_eq, beq_refl, Table, lookup, contains_key, length-remove, length-insert,
}
use network_monitor.Reassembly.Status.{max_tcp_streams, tcp_stream_idle_ms}
use network_monitor.Reassembly.Segments.Key.{FlowKey, TcpStreamKey, stream_key_eq}
use network_monitor.Reassembly.DnsFraming.Walk.{looks_like_dns_tcp_start}
use network_monitor.Reassembly.DnsFraming.{
  DnsBoundary, DnsTcpFraming, new, drop_flow, retain_fresh, evict_stale, forget, oldest_from,
  remove_oldest, record_boundary, keep_walk, walk_and_record, skip_from, skip_found,
  skip_inside_message, starts_message, note_consumed, record_message, is_past_boundary, is_after,
  distance_before,
}

abbrev pub IsBounded : DnsTcpFraming → Type 0
IsBounded s = length s.entries ≤ max_tcp_streams

-- Every key of the table has a value in the other one.
abbrev AllFound : Table TcpStreamKey DnsBoundary → Table TcpStreamKey DnsBoundary → Type 0
AllFound t [] = Unit
AllFound t ((k, b) ∷ bs) = (is_some (lookup k t) ≡ true) × AllFound t bs

more-AllFound :
    (t bs : Table TcpStreamKey DnsBoundary) (k : TcpStreamKey) (b : DnsBoundary)
    → AllFound t bs
    → AllFound ((k, b) ∷ t) bs
unfolding lookup
more-AllFound t [] k b a = tt
more-AllFound t ((j, c) ∷ bs) k b a = (ground (arith, a.0), more-AllFound t bs k b a.1)

self-AllFound : (t : Table TcpStreamKey DnsBoundary) → AllFound t t
unfolding lookup
self-AllFound [] = tt
self-AllFound ((k, b) ∷ bs) = (rw (beq_refl k) refl, more-AllFound bs bs k b (self-AllFound bs))

oldest_from-found :
    (t bs : Table TcpStreamKey DnsBoundary) (key : TcpStreamKey) (age : ℕ)
    → is_some (lookup key t) ≡ true
    → AllFound t bs
    → is_some (lookup (oldest_from key age bs) t) ≡ true
unfolding oldest_from
oldest_from-found t [] key age h a = h
oldest_from-found t ((k, b) ∷ bs) key age h a =
    oldest_from-found t bs (if ltb b.last_seen_ms age then k else key) (min b.last_seen_ms age)
      (elim (Bool-cases (ltb b.last_seen_ms age)) [ inl y ↦ rw y a.0 | inr n ↦ rw n h ]) a.1

length-remove_oldest :
    (t : Table TcpStreamKey DnsBoundary) → length (remove_oldest t) ≡ length t - 1
unfolding remove_oldest
length-remove_oldest [] = refl
length-remove_oldest ((k, b) ∷ bs) =
    let t : Table TcpStreamKey DnsBoundary = (k, b) ∷ bs in
    let all = self-AllFound t in
    let found = oldest_from-found t bs k b.last_seen_ms all.0 all.1 in
    ground (arith, length-remove (oldest_from k b.last_seen_ms bs) t, found)

record_boundary-IsBounded :
    (s : DnsTcpFraming) (key : TcpStreamKey) (boundary : DnsBoundary)
    → IsBounded s
    → IsBounded (record_boundary s key boundary)
unfolding record_boundary contains_key
record_boundary-IsBounded s key boundary h = ground (
  arith,
  length-insert key boundary (remove_oldest s.entries),
  length-insert key boundary s.entries,
  length-remove_oldest s.entries,
  h,
)

pub forget-IsBounded :
    (s : DnsTcpFraming) (key : TcpStreamKey) → IsBounded s → IsBounded (forget s key)
unfolding forget
forget-IsBounded s key h = ground (arith, length-remove key s.entries, h)

keep_walk-IsBounded :
    (s : DnsTcpFraming) (key : TcpStreamKey) (now_ms : ℕ) (o : Option (ℕ × Option ℕ))
    → IsBounded s
    → IsBounded (keep_walk s key now_ms o)
unfolding keep_walk
keep_walk-IsBounded s key now_ms none h = forget-IsBounded s key h
keep_walk-IsBounded s key now_ms (some r) h = record_boundary-IsBounded s key _ h

walk_and_record-IsBounded :
    (s : DnsTcpFraming) (key : TcpStreamKey) (base_seq : ℕ) (carry : Option ℕ) (bytes : List ℕ)
    (response_only : Bool) (now_ms : ℕ)
    → IsBounded s
    → IsBounded (walk_and_record s key base_seq carry bytes response_only now_ms)
unfolding walk_and_record
walk_and_record-IsBounded s key base_seq carry bytes response_only now_ms h =
    keep_walk-IsBounded s key now_ms _ h

skip_from-IsBounded :
    (s : DnsTcpFraming) (key : TcpStreamKey) (entry : DnsBoundary) (seq : ℕ) (payload : List ℕ)
    (response_only : Bool) (now_ms : ℕ)
    → IsBounded s
    → IsBounded (skip_from s key entry seq payload response_only now_ms).0
unfolding skip_from
skip_from-IsBounded s key entry seq payload response_only now_ms h =
    let offset = distance_before seq entry.next_message_seq in
    let base =
      wrapping_sub32 entry.next_message_seq (if is_some entry.pending_high then 1 else 0) in
    let walked =
      walk_and_record-IsBounded s key base entry.pending_high (drop offset payload) response_only
        now_ms h in
    elim (Bool-cases (
      is_after seq entry.next_message_seq
      || (wrapping_sub32 seq entry.next_message_seq == 0 && not (is_some entry.pending_high)))) [
        | inl outside ↦ rw outside h
        | inr inside ↦ rw inside (elim (Bool-cases (ltb offset (length payload))) [
          | inl reaches ↦ rw reaches walked
          | inr short ↦ rw short h
        ])
      ]

skip_found-IsBounded :
    (s : DnsTcpFraming) (key : TcpStreamKey) (o : Option DnsBoundary) (seq : ℕ) (payload : List ℕ)
    (response_only : Bool) (now_ms : ℕ)
    → IsBounded s
    → IsBounded (skip_found s key o seq payload response_only now_ms).0
unfolding skip_found
skip_found-IsBounded s key none seq payload response_only now_ms h = h
skip_found-IsBounded s key (some entry) seq payload response_only now_ms h =
    elim (Bool-cases (ltb tcp_stream_idle_ms (now_ms - entry.last_seen_ms))) [
      | inl idle ↦ rw idle (ground (arith, length-remove key s.entries, h))
      | inr fresh ↦ rw fresh (skip_from-IsBounded s key entry seq payload response_only now_ms h)
    ]

-- A segment that was consumed without being read keeps the number of boundaries within the limit.
pub note_consumed-IsBounded :
    (s : DnsTcpFraming) (key : TcpStreamKey) (seq : ℕ) (payload : List ℕ) (response_only : Bool)
    (now_ms : ℕ)
    → IsBounded s
    → IsBounded (note_consumed s key seq payload response_only now_ms)
unfolding note_consumed skip_inside_message
note_consumed-IsBounded s key seq payload response_only now_ms h =
    let skip = skip_found s key (lookup key s.entries) seq payload response_only now_ms in
    let b = skip_found-IsBounded s key (lookup key s.entries) seq payload response_only now_ms h in
    elim (Bool-cases (length payload == 0)) [
      | inl empty ↦ rw empty h
      | inr some_bytes ↦ rw some_bytes (elim (Bool-cases skip.1) [
        | inl skipped ↦ rw skipped b
        | inr read ↦ rw read (elim (Bool-cases (starts_message skip.0 key seq payload)) [
          | inl starts ↦
              rw starts
                (walk_and_record-IsBounded skip.0 key seq none payload response_only now_ms b)
          | inr inside ↦ rw inside b
        ])
      ])
    ]

-- A message that was read, or that the sniff took for another protocol's, keeps the number of
-- boundaries within the limit.
pub record_message-IsBounded :
    (s : DnsTcpFraming) (key : TcpStreamKey) (base_seq : ℕ) (bytes : List ℕ)
    (other_protocol response_only : Bool) (now_ms : ℕ)
    → IsBounded s
    → IsBounded (record_message s key base_seq bytes other_protocol response_only now_ms)
unfolding record_message
record_message-IsBounded s key base_seq bytes other_protocol response_only now_ms h =
    elim (Bool-cases (response_only && other_protocol)) [
      | inl other ↦ rw other (forget-IsBounded s key h)
      | inr dns ↦
          rw dns
            (elim (Bool-cases
              (is_past_boundary s key base_seq && not (looks_like_dns_tcp_start bytes))) [
                | inl past ↦ rw past h
                | inr starts ↦
                    rw starts
                      (walk_and_record-IsBounded s key base_seq none bytes response_only now_ms h)
              ])
    ]

pub new_framing-IsBounded : IsBounded new
unfolding new
new_framing-IsBounded = omega arith

pub skip_inside_message-IsBounded :
    (s : DnsTcpFraming) (key : TcpStreamKey) (seq : ℕ) (payload : List ℕ) (response_only : Bool)
    (now_ms : ℕ)
    → IsBounded s
    → IsBounded (skip_inside_message s key seq payload response_only now_ms).0
unfolding skip_inside_message
skip_inside_message-IsBounded s key seq payload response_only now_ms h =
    skip_found-IsBounded s key (lookup key s.entries) seq payload response_only now_ms h

pub drop_flow_framing-IsBounded :
    (s : DnsTcpFraming) (flow : FlowKey) → IsBounded s → IsBounded (drop_flow s flow)
unfolding drop_flow
drop_flow_framing-IsBounded s flow h =
    forget-IsBounded (forget s (record { flow = flow; from_local = true }))
      (record { flow = flow; from_local = false })
      (forget-IsBounded s (record { flow = flow; from_local = true }) h)

length-retain_fresh :
    (now_ms : ℕ) (t : Table TcpStreamKey DnsBoundary) → length (retain_fresh now_ms t) ≤ length t
length-retain_fresh now_ms [] = omega arith
length-retain_fresh now_ms ((k, b) ∷ bs) = ground (arith, length-retain_fresh now_ms bs)

pub evict_stale_framing-IsBounded :
    (s : DnsTcpFraming) (now_ms : ℕ) → IsBounded s → IsBounded (evict_stale s now_ms)
unfolding evict_stale
evict_stale_framing-IsBounded s now_ms h = omega (arith, length-retain_fresh now_ms s.entries, h)
