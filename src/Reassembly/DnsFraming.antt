-- ===== src/Reassembly/DnsFraming.antt =====
-- `DnsTcpFraming` of capture-agent/src/reassembly.rs: where the next DNS-over-TCP message starts, by
-- stream direction.
pub mod Walk
pub mod Bound
pub mod Framed
mod Tests
use network_monitor.Base.{
  same_bytes, same_bytes_iff, ℕ, zero, suc, ◌+◌, ◌-◌, ◌*◌, ◌/◌, ◌%◌, ◌^◌, ◌≤◌, ◌<◌, min, max, ◌≡◌,
  refl, sym, ap, ◌∙◌, subst, ◌≢◌, ◌↔◌, ◌⊎◌, inl, inr, Bool, true, false, not, ◌&&◌, ◌||◌, Option,
  none, some, List, [], ◌∷◌, ◌++◌, map, arith, ltb, leb, ◌==◌, if◌then◌else◌, is_some, ltb→lt,
  lt→ltb, le→ltb, leb→le, le→leb, ==_iff, tests, Bool-cases, Option-cases, length, get_or-drop,
  get_elem?, get_or, set, take, drop, replicate, resize, length-append, length-set, length-take,
  length-drop, length-replicate, length-resize, take-append-drop, get_or-resize, get_or-set_self,
  get_or-set_ne, get_or_beyond, get_or-take, get_or_ext, get_or-append, drop-append, take-append,
  append_assoc, append_nil, u32_mod, u64_max, wrapping_add32, wrapping_sub32, saturating_add, add64,
  Eq, string_eq, beq_refl, Table, measure_of, lookup, contains_key, insert, remove, total,
  AllValues, total-remove, total-insert, length-remove, length-insert, lookup-AllValues,
  remove-AllValues, insert-AllValues, lookup-insert, lookup-remove_ne, remove-insert_fresh,
  remove-insert_ne, remove-remove_ne,
}
use network_monitor.Reassembly.Status.{max_tcp_streams, tcp_stream_idle_ms}
use network_monitor.Reassembly.Segments.Key.{FlowKey, TcpStreamKey, stream_key_eq}
use Walk.{looks_like_dns_tcp_start, dns_tcp_walk}

pub record DnsBoundary : Type 0 where
  pub next_message_seq : ℕ
  pub pending_high : Option ℕ
  pub last_seen_ms : ℕ

pub record DnsTcpFraming : Type 0 where
  pub entries : Table TcpStreamKey DnsBoundary

unfoldable pub new : DnsTcpFraming
new = record { entries = [] }

unfoldable pub forget : DnsTcpFraming → TcpStreamKey → DnsTcpFraming
forget s key = record { entries = remove key s.entries }

-- `min_by_key` on the time last seen: the first of the smallest.
unfoldable pub oldest_from : TcpStreamKey → ℕ → Table TcpStreamKey DnsBoundary → TcpStreamKey
oldest_from key age [] = key
oldest_from key age ((k, b) ∷ bs) =
    oldest_from (if ltb b.last_seen_ms age then k else key) (min b.last_seen_ms age) bs

unfoldable pub remove_oldest : Table TcpStreamKey DnsBoundary → Table TcpStreamKey DnsBoundary
remove_oldest [] = []
remove_oldest ((k, b) ∷ bs) = remove (oldest_from k b.last_seen_ms bs) ((k, b) ∷ bs)

-- `record`.
unfoldable pub record_boundary : DnsTcpFraming → TcpStreamKey → DnsBoundary → DnsTcpFraming
record_boundary s key boundary =
    let kept =
      if not (contains_key key s.entries) && leb max_tcp_streams (length s.entries)
      then remove_oldest s.entries
      else s.entries in
    record { entries = insert key boundary kept }

-- The two arms of the walk's answer.
unfoldable pub keep_walk : DnsTcpFraming → TcpStreamKey → ℕ → Option (ℕ × Option ℕ) → DnsTcpFraming
keep_walk s key now_ms none = forget s key
keep_walk s key now_ms (some (next_message_seq, pending_high)) = record_boundary s key (record {
  next_message_seq = next_message_seq;
  pending_high = pending_high;
  last_seen_ms = now_ms;
})

unfoldable pub walk_and_record :
    DnsTcpFraming → TcpStreamKey → ℕ → Option ℕ → List ℕ → Bool → ℕ → DnsTcpFraming
walk_and_record s key base_seq carry bytes response_only now_ms =
    keep_walk s key now_ms
      (dns_tcp_walk bytes base_seq carry response_only (contains_key key s.entries))

-- A signed difference of sequence numbers is above 0.
abbrev pub is_after : ℕ → ℕ → Bool
is_after a b = let delta = wrapping_sub32 a b in not (delta == 0) && ltb delta (2 ^ 31)

-- How far a sequence number is before another, by the absolute value.
abbrev pub distance_before : ℕ → ℕ → ℕ
distance_before a b = (u32_mod - wrapping_sub32 a b) % u32_mod

-- `skip_inside_message` with the entry found, which has not lapsed.
unfoldable pub skip_from :
    DnsTcpFraming → TcpStreamKey → DnsBoundary → ℕ → List ℕ → Bool → ℕ → DnsTcpFraming × Bool
skip_from s key entry seq payload response_only now_ms =
    let offset = distance_before seq entry.next_message_seq in
    let base =
      wrapping_sub32 entry.next_message_seq (if is_some entry.pending_high then 1 else 0) in
    if is_after seq entry.next_message_seq
      || (wrapping_sub32 seq entry.next_message_seq == 0 && not (is_some entry.pending_high))
    then (s, false)
    else if ltb offset (length payload)
    then (
      walk_and_record s key base entry.pending_high (drop offset payload) response_only now_ms,
      true,
    )
    else (s, true)

-- `skip_inside_message` by the entry that was looked up.
unfoldable pub skip_found :
    DnsTcpFraming → TcpStreamKey → Option DnsBoundary → ℕ → List ℕ → Bool → ℕ → DnsTcpFraming × Bool
skip_found s key none seq payload response_only now_ms = (s, false)
skip_found s key (some entry) seq payload response_only now_ms =
    if ltb tcp_stream_idle_ms (now_ms - entry.last_seen_ms)
    then (record { entries = remove key s.entries }, false)
    else skip_from s key entry seq payload response_only now_ms

unfoldable pub skip_inside_message :
    DnsTcpFraming → TcpStreamKey → ℕ → List ℕ → Bool → ℕ → DnsTcpFraming × Bool
skip_inside_message s key seq payload response_only now_ms =
    skip_found s key (lookup key s.entries) seq payload response_only now_ms

unfoldable pub starts_message : DnsTcpFraming → TcpStreamKey → ℕ → List ℕ → Bool
starts_message s key seq payload = elim (lookup key s.entries) [
  | some entry ↦ entry.next_message_seq == seq
  | none ↦ looks_like_dns_tcp_start payload
]

unfoldable pub note_consumed : DnsTcpFraming → TcpStreamKey → ℕ → List ℕ → Bool → ℕ → DnsTcpFraming
note_consumed s key seq payload response_only now_ms =
    if length payload == 0
    then s
    else let (s', skipped) = skip_inside_message s key seq payload response_only now_ms in
      if skipped
      then s'
      else if starts_message s' key seq payload
      then walk_and_record s' key seq none payload response_only now_ms
      else s'

pub drop_flow : DnsTcpFraming → FlowKey → DnsTcpFraming
unfolding forget
drop_flow s flow =
    forget (forget s (record { flow = flow; from_local = true }))
      (record { flow = flow; from_local = false })

-- `retain` of what is not idle.
abbrev pub retain_fresh : ℕ → Table TcpStreamKey DnsBoundary → Table TcpStreamKey DnsBoundary
retain_fresh now_ms [] = []
retain_fresh now_ms ((k, b) ∷ bs) =
    let rest = retain_fresh now_ms bs in
    if leb (now_ms - b.last_seen_ms) tcp_stream_idle_ms then (k, b) ∷ rest else rest

unfoldable pub evict_stale : DnsTcpFraming → ℕ → DnsTcpFraming
evict_stale s now_ms = record { entries = retain_fresh now_ms s.entries }

unfoldable pub is_past_boundary : DnsTcpFraming → TcpStreamKey → ℕ → Bool
is_past_boundary s key seq = elim (lookup key s.entries) [
  | none ↦ true
  | some entry ↦ is_after seq entry.next_message_seq
]

unfoldable pub record_message :
    DnsTcpFraming → TcpStreamKey → ℕ → List ℕ → Bool → Bool → ℕ → DnsTcpFraming
record_message s key base_seq bytes other_protocol response_only now_ms =
    if response_only && other_protocol
    then forget s key
    else if is_past_boundary s key base_seq && not (looks_like_dns_tcp_start bytes)
    then s
    else walk_and_record s key base_seq none bytes response_only now_ms

pub covers_first_message : DnsTcpFraming → TcpStreamKey → ℕ → List ℕ → Bool
covers_first_message s key base_seq [] = false
covers_first_message s key base_seq (hi ∷ []) = false
covers_first_message s key base_seq (hi ∷ lo ∷ rest) =
    let declared = 256 * hi + lo in
    let end = wrapping_add32 base_seq (2 + declared) in
    if ltb (length rest) declared then false else elim (lookup key s.entries) [
      | none ↦ false
      | some entry ↦ ltb (wrapping_sub32 entry.next_message_seq end) (2 ^ 31)
    ]
