-- ===== src/Reassembly/Segments.antt =====
-- `TcpReassembler` of capture-agent/src/reassembly.rs: rejoining TCP segments per direction.
pub mod Stream
pub mod Key
pub mod Placing
pub mod Invariant
pub mod Front
pub mod Keeping
mod Tests
use network_monitor.Base.{
  ℕ, zero, suc, ◌+◌, ◌-◌, ◌*◌, ◌/◌, ◌%◌, ◌^◌, ◌≤◌, ◌<◌, min, max, ◌≡◌, refl, sym, ap, ◌∙◌, subst,
  ◌≢◌, ◌↔◌, ◌⊎◌, inl, inr, Bool, true, false, not, ◌&&◌, ◌||◌, Option, none, some, List, [], ◌∷◌,
  ◌++◌, map, arith, ltb, leb, ◌==◌, if◌then◌else◌, is_some, ltb→lt, lt→ltb, le→ltb, leb→le, le→leb,
  ==_iff, tests, Bool-cases, Option-cases, length, get_elem?, get_or, set, take, drop, replicate,
  resize, length-append, length-set, length-take, length-drop, length-replicate, length-resize,
  take-append-drop, get_or-resize, get_or-set_self, get_or-set_ne, get_or_beyond, get_or-take,
  get_or_ext, u32_mod, u64_max, wrapping_add32, wrapping_sub32, saturating_add, add64, Eq,
  string_eq, beq_refl, Table, measure_of, lookup, contains_key, insert, remove, total, AllValues,
  total-remove, total-insert, length-remove, length-insert, lookup-AllValues, remove-AllValues,
  insert-AllValues, lookup-insert, lookup-remove_ne,
}
use network_monitor.Reassembly.Status.{
  ReassemblyStatus, reassembled, incomplete_truncated_at_capture, incomplete_missing_frames,
  ReassemblyCounters, no_counts, count_outcome, max_tcp_stream_bytes, max_tcp_streams,
  max_tcp_bytes_total, tcp_decision_window_ms,
}
use network_monitor.Reassembly.Buffer.{Allocator, Buffer, write_into}
use network_monitor.Reassembly.Coverage.{WriteOutcome, contiguous_len_from}
use network_monitor.Reassembly.Eviction
use network_monitor.Reassembly.Eviction.{Held}
use network_monitor.Reassembly.Fragments.Group.{earliest}
use Stream.{TcpStream, is_idle, accounted_bytes, release, status, rebase}
use Stream
use Key.{FlowKey, TcpStreamKey, stream_key_eq}

pub record TcpReassembler : Type 0 where
  pub streams : Table TcpStreamKey TcpStream
  pub bytes_held : ℕ
  pub counters : ReassemblyCounters

pub new : TcpReassembler
new = record { streams = []; bytes_held = 0; counters = no_counts }

pub clear : TcpReassembler → TcpReassembler
clear s = record s { streams = []; bytes_held = 0 }

-- `max().unwrap_or(0)` over the streams.
pub longest_buffer : Table TcpStreamKey TcpStream → ℕ
longest_buffer [] = 0
longest_buffer ((k, t) ∷ ts) =
    max (max (length t.buffer.bytes) (length t.buffer.filled)) (longest_buffer ts)

pub max_buffered_len : TcpReassembler → ℕ
unfolding longest_buffer
max_buffered_len s = longest_buffer s.streams

-- `get(..prefix_len)` fails out of range, and then the prefix is empty.
pub prefix : TcpReassembler → TcpStreamKey → List ℕ
prefix s key = elim (lookup key s.streams) [
  | none ↦ []
  | some t ↦
      if leb t.prefix_len (length t.buffer.bytes) then take t.prefix_len t.buffer.bytes else []
]

unfoldable pub has_buffer : TcpReassembler → TcpStreamKey → Bool
has_buffer s key = contains_key key s.streams

pub base_seq : TcpReassembler → TcpStreamKey → Option ℕ
base_seq s key = elim (lookup key s.streams) [ none ↦ none | some t ↦ some t.base_seq ]

abbrev pub held_of : TcpReassembler → Held TcpStreamKey TcpStream
held_of s = record {
  entries = s.streams;
  bytes_held = s.bytes_held;
  evicted = s.counters.evicted_capacity;
}

pub evict_oldest_until : TcpReassembler → ℕ → ℕ → TcpReassembler
evict_oldest_until s max_streams max_bytes =
    let h =
      Eviction.evict_oldest_until accounted_bytes (λ (t : TcpStream). t.last_seen_ms) max_streams
        max_bytes (held_of s) in
    record {
      streams = h.entries;
      bytes_held = h.bytes_held;
      counters = record (s.counters) { evicted_capacity = h.evicted };
    }

-- The removal of a direction with its account, and what it does to the counters.
pub remove_stream :
    TcpReassembler → TcpStreamKey → (ReassemblyCounters → ReassemblyCounters) → TcpReassembler
remove_stream s key count = elim (lookup key s.streams) [
  | none ↦ s
  | some t ↦ record {
    streams = remove key s.streams;
    bytes_held = s.bytes_held - accounted_bytes t;
    counters = count s.counters;
  }
]

pub finish : TcpReassembler → TcpStreamKey → ReassemblyStatus → TcpReassembler
finish s key st = remove_stream s key (count_outcome st)

pub drop_flow : TcpReassembler → FlowKey → TcpReassembler
drop_flow s flow =
    let s' = remove_stream s (record { flow = flow; from_local = true }) (λ c. c) in
    remove_stream s' (record { flow = flow; from_local = false }) (λ c. c)

pub remove_idle : TcpReassembler → TcpStreamKey → TcpReassembler
remove_idle s key = remove_stream s key (λ c. record c { evicted_idle = add64 c.evicted_idle 1 })

-- The idle keys, in the order of the table.
pub idle_keys : ℕ → Table TcpStreamKey TcpStream → List TcpStreamKey
idle_keys now_ms [] = []
idle_keys now_ms ((key, t) ∷ ts) =
    let rest = idle_keys now_ms ts in if is_idle t now_ms then key ∷ rest else rest

pub remove_all_idle : TcpReassembler → List TcpStreamKey → TcpReassembler
remove_all_idle s [] = s
remove_all_idle s (key ∷ keys) = remove_all_idle (remove_idle s key) keys

pub evict_stale : TcpReassembler → ℕ → TcpReassembler
evict_stale s now_ms =
    evict_oldest_until (remove_all_idle s (idle_keys now_ms s.streams)) max_tcp_streams
      max_tcp_bytes_total

-- `feed` up to the entry of the stream: room under the ceiling, and no idle stream.
pub make_room : TcpReassembler → TcpStreamKey → TcpReassembler
make_room s key =
    if not (contains_key key s.streams) && leb max_tcp_streams (length s.streams)
    then evict_oldest_until s (max_tcp_streams - 1) max_tcp_bytes_total
    else s

pub expire_on_arrival : TcpReassembler → TcpStreamKey → ℕ → TcpReassembler
expire_on_arrival s key now_ms = elim (lookup key s.streams) [
  | none ↦ s
  | some t ↦ if is_idle t now_ms then remove_idle s key else s
]

-- `entry(key).or_insert_with(...)`, seen now.
pub enter : TcpReassembler → TcpStreamKey → ℕ → ℕ → TcpStream
enter s key seq now_ms = elim (lookup key s.streams) [
  | none ↦ Stream.new seq now_ms
  | some t ↦ record t { last_seen_ms = now_ms }
]

-- `seq.wrapping_sub(base_seq) as i32` is negative from 2 ^ 31 on.
abbrev pub is_before : ℕ → Bool
is_before rel = leb (2 ^ 31) rel

module _ (alloc : Allocator) where
  -- The stream, shifted if the segment starts before it, and the segment's offset; `none` for a
  -- segment that is out of range.
  pub place_segment : TcpStream → ℕ → Option (TcpStream × ℕ)
  place_segment t seq =
      let rel = wrapping_sub32 seq t.base_seq in
      let shift = u32_mod - rel in
      if is_before rel
      then (if ltb max_tcp_stream_bytes (saturating_add shift (length t.buffer.bytes))
          then none
          else some (rebase alloc t shift seq, 0))
      else if ltb max_tcp_stream_bytes rel
      then none
      else some (t, rel)

  -- The bytes, then what the header says was lost, then the contiguous prefix; `finished` comes
  -- after the status.
  pub record_segment : TcpStream → ℕ → List ℕ → ℕ → TcpStream × WriteOutcome
  record_segment t offset payload declared =
      let (buffer', written) = write_into alloc t.buffer offset payload max_tcp_stream_bytes in
      (
        record t {
          buffer = buffer';
          short_captured_at =
              if ltb (length payload % u32_mod) declared
              then some (earliest t.short_captured_at (saturating_add offset (length payload)))
              else t.short_captured_at;
          prefix_len = contiguous_len_from buffer'.filled t.prefix_len;
        },
        written,
      )

  abbrev pub mark_finished : TcpStream → Bool → TcpStream
  mark_finished t hit_cap = record t { finished = hit_cap || t.finished }

  -- `feed` from the placed segment on; `before` is the account of the entered stream.
  pub feed_placed :
      TcpReassembler
      → TcpStreamKey
      → ℕ
      → TcpStream
      → ℕ
      → List ℕ
      → ℕ
      → TcpReassembler × Option ReassemblyStatus
  feed_placed s key before t offset payload declared =
      let (t', written) = record_segment t offset payload declared in
      let counters' = record (s.counters) {
        conflicting_overlap_bytes = add64 s.counters.conflicting_overlap_bytes written.conflicting;
        abandoned_without_completing =
            if written.hit_cap
            then add64 s.counters.abandoned_without_completing 1
            else s.counters.abandoned_without_completing;
      } in
      let s' : TcpReassembler = record {
        streams = insert key (mark_finished t' written.hit_cap) s.streams;
        bytes_held = saturating_add s.bytes_held (accounted_bytes t') - before;
        counters = counters';
      } in
      (
        evict_oldest_until s' max_tcp_streams max_tcp_bytes_total,
        if ltb 0 written.newly_written || written.hit_cap then some (status t') else none,
      )

  -- `feed` from the entry of the stream on.
  pub feed_stream :
      TcpReassembler
      → TcpStreamKey
      → TcpStream
      → ℕ
      → List ℕ
      → ℕ
      → ℕ
      → TcpReassembler × Option ReassemblyStatus
  feed_stream s key t seq payload declared now_ms =
      if t.finished
      then (
        record s { streams = remove key s.streams; bytes_held = s.bytes_held - accounted_bytes t },
        none,
      )
      else if ltb tcp_decision_window_ms (now_ms - t.first_seen_ms)
      then (
        record {
          streams = insert key (record (release t) { finished = true }) s.streams;
          bytes_held = s.bytes_held - accounted_bytes t;
          counters = record (s.counters) {
            abandoned_without_completing = add64 s.counters.abandoned_without_completing 1;
          };
        },
        none,
      )
      else elim (place_segment t seq) [
        | none ↦ (record s { streams = insert key t s.streams }, none)
        | some (t', offset) ↦ feed_placed s key (accounted_bytes t) t' offset payload declared
      ]

  pub feed :
      TcpReassembler → TcpStreamKey → ℕ → List ℕ → ℕ → ℕ → TcpReassembler × Option ReassemblyStatus
  feed s key seq [] declared now_ms = (s, none)
  feed s key seq (b ∷ bs) declared now_ms =
      let ready = expire_on_arrival (make_room s key) key now_ms in
      feed_stream ready key (enter ready key seq now_ms) seq (b ∷ bs) declared now_ms
