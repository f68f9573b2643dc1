-- ===== src/Reassembly/Segments/Invariant.antt =====
-- The invariant of the TCP reassembler, kept by every operation.
use network_monitor.Base.{
  ℕ, ◌+◌, ◌-◌, ◌≤◌, ◌<◌, ◌≡◌, refl, sym, ap, ◌⊎◌, inl, inr, true, false, not, ◌&&◌, ◌||◌, some,
  List, [], ◌∷◌, arith, ltb, leb, is_some, Bool-cases, Option-cases, length, u32_mod,
  saturating_add, add64, string_eq, measure_of, lookup, contains_key, insert, remove, total,
  AllValues, total-remove, total-insert, length-remove, length-insert, lookup-AllValues,
  remove-AllValues, insert-AllValues,
}
use network_monitor.Reassembly.Status.{
  ReassemblyStatus, ReassemblyCounters, max_tcp_streams, max_tcp_bytes_total,
  tcp_decision_window_ms,
}
use network_monitor.Reassembly.Buffer.{Allocator}
use network_monitor.Reassembly.Eviction.Ceilings.{
  evict_oldest_until-Within, evict_oldest_until-AllValues,
}
use network_monitor.Reassembly.Segments.Key.{FlowKey, TcpStreamKey, stream_key_eq}
use network_monitor.Reassembly.Segments.Stream.{TcpStream, accounted_bytes, is_idle, release}
use network_monitor.Reassembly.Segments.Stream.Sound.{
  IsStream, new-IsStream, release-IsStream, accounted_bytes-release, accounted_bytes-new,
  accounted_bytes-seen, accounted_bytes-finished, accounted_bytes-le,
}
use network_monitor.Reassembly.Segments.Placing.{
  place_segment_lem, record_segment-IsStream, record_segment-HasBase,
}
use network_monitor.Reassembly.Segments.Stream.Sound.{HasBase, new-HasBase, release-HasBase}
use network_monitor.Reassembly.Segments.{
  TcpReassembler, clear, new, held_of, evict_oldest_until, remove_stream, finish, drop_flow,
  remove_idle, idle_keys, remove_all_idle, evict_stale, make_room, expire_on_arrival, enter,
  place_segment, record_segment, mark_finished, feed_placed, feed_stream, feed,
}

-- A stream is sound and its first sequence number is a 32-bit number.
pub record IsDirection (t : TcpStream) : Type 0 where
  pub stream : IsStream t
  pub base : HasBase t

-- Every stream is sound and the account of bytes is right.
pub record IsKept (s : TcpReassembler) : Type 0 where
  pub streams_sound : AllValues IsDirection s.streams
  pub accounted : s.bytes_held ≡ total accounted_bytes s.streams

-- Besides, both ceilings hold.
pub record IsBounded (s : TcpReassembler) : Type 0 where
  pub kept : IsKept s
  pub streams_le : length s.streams ≤ max_tcp_streams
  pub bytes_le : s.bytes_held ≤ max_tcp_bytes_total

pub new-IsBounded : IsBounded new
unfolding new
new-IsBounded = record {
  kept = record { streams_sound = tt; accounted = refl };
  streams_le = omega arith;
  bytes_le = omega arith;
}

pub clear_tcp-IsBounded : (s : TcpReassembler) → IsBounded (clear s)
unfolding clear
clear_tcp-IsBounded s = record {
  kept = record { streams_sound = tt; accounted = refl };
  streams_le = omega arith;
  bytes_le = omega arith;
}

evict_oldest_until-IsKept :
    (s : TcpReassembler) (m b : ℕ)
    → IsKept s
    → let s' = evict_oldest_until s m b in IsKept s' × (length s'.streams ≤ m) × (s'.bytes_held ≤ b)
unfolding evict_oldest_until
evict_oldest_until-IsKept s m b v =
    let seen : TcpStream → ℕ = λ t. t.last_seen_ms in
    let w = evict_oldest_until-Within accounted_bytes seen m b (held_of s) v.accounted in
    (
      record {
        streams_sound =
            evict_oldest_until-AllValues accounted_bytes IsDirection seen m b (held_of s)
              v.streams_sound;
        accounted = w.accounted;
      },
      w.entries_le,
      w.bytes_le,
    )

-- An operation that only removes leaves the invariant, and the sizes no larger.
pub record Shrinks (s s' : TcpReassembler) : Type 0 where
  pub kept : IsKept s'
  pub streams_le : length s'.streams ≤ length s.streams
  pub bytes_le : s'.bytes_held ≤ s.bytes_held

pub Shrinks-IsBounded : {s s' : TcpReassembler} → IsBounded s → Shrinks s s' → IsBounded s'
Shrinks-IsBounded v w = record { kept = w.kept; streams_le = omega arith; bytes_le = omega arith }

unchanged : {s : TcpReassembler} → IsKept s → Shrinks s s
unchanged v = record { kept = v; streams_le = omega arith; bytes_le = omega arith }

remove-Shrinks :
    (s s' : TcpReassembler) (key : TcpStreamKey) (t : TcpStream)
    → IsKept s
    → lookup key s.streams ≡ some t
    → s'.streams ≡ remove key s.streams
    → s'.bytes_held ≡ s.bytes_held - accounted_bytes t
    → Shrinks s s'
remove-Shrinks s s' key t v found gs bs =
    let sum : total accounted_bytes (remove key s.streams) + accounted_bytes t
        ≡ total accounted_bytes s.streams =
      ground (arith, total-remove accounted_bytes key s.streams) in
    record {
      kept = record {
        streams_sound = rw gs (remove-AllValues IsDirection key s.streams v.streams_sound);
        accounted = rw gs (omega (arith, v.accounted));
      };
      streams_le = rw gs (ground (arith, length-remove key s.streams));
      bytes_le = omega arith;
    }

remove_stream-Shrinks :
    (s : TcpReassembler) (key : TcpStreamKey) (count : ReassemblyCounters → ReassemblyCounters)
    → IsKept s
    → Shrinks s (remove_stream s key count)
unfolding remove_stream
remove_stream-Shrinks s key count v = elim (Option-cases (lookup key s.streams)) [
  | inl missing ↦ rw (missing, remove_stream) (unchanged v)
  | inr (t, found) ↦ rw (found, remove_stream) (remove-Shrinks s _ key t v found refl refl)
]

remove_idle-Shrinks :
    (s : TcpReassembler) (key : TcpStreamKey) → IsKept s → Shrinks s (remove_idle s key)
unfolding remove_idle
remove_idle-Shrinks s key v = remove_stream-Shrinks s key _ v

-- `finish` keeps the invariant.
pub finish-IsBounded :
    (s : TcpReassembler) (key : TcpStreamKey) (st : ReassemblyStatus)
    → IsBounded s
    → IsBounded (finish s key st)
unfolding finish
finish-IsBounded s key st v = Shrinks-IsBounded v (remove_stream-Shrinks s key _ v.kept)

-- `drop_flow` keeps the invariant.
pub drop_flow-IsBounded :
    (s : TcpReassembler) (flow : FlowKey) → IsBounded s → IsBounded (drop_flow s flow)
unfolding drop_flow
drop_flow-IsBounded s flow v =
    let one =
      Shrinks-IsBounded v
        (remove_stream-Shrinks s (record { flow = flow; from_local = true }) (λ c. c) v.kept) in
    Shrinks-IsBounded one
      (remove_stream-Shrinks _ (record { flow = flow; from_local = false }) (λ c. c) one.kept)

remove_all_idle-IsBounded :
    (s : TcpReassembler) (keys : List TcpStreamKey)
    → IsBounded s
    → IsBounded (remove_all_idle s keys)
unfolding remove_all_idle
remove_all_idle-IsBounded s [] v = v
remove_all_idle-IsBounded s (key ∷ keys) v =
    remove_all_idle-IsBounded (remove_idle s key) keys
      (Shrinks-IsBounded v (remove_idle-Shrinks s key v.kept))

-- The periodic sweep keeps every stream sound, the account of bytes right and both ceilings.
pub evict_stale_tcp-IsBounded :
    (s : TcpReassembler) (now_ms : ℕ) → IsBounded s → IsBounded (evict_stale s now_ms)
unfolding evict_stale
evict_stale_tcp-IsBounded s now_ms v =
    let r =
      evict_oldest_until-IsKept _ max_tcp_streams max_tcp_bytes_total
        (remove_all_idle-IsBounded s (idle_keys now_ms s.streams) v).kept in
    record { kept = r.0; streams_le = r.1; bytes_le = r.2 }

make_room-IsBounded :
    (s : TcpReassembler) (key : TcpStreamKey) → IsBounded s → IsBounded (make_room s key)
unfolding make_room
make_room-IsBounded s key v =
    elim (Bool-cases (not (contains_key key s.streams) && leb max_tcp_streams (length s.streams))) [
      | inl e ↦
          let w = evict_oldest_until-IsKept s (max_tcp_streams - 1) max_tcp_bytes_total v.kept in
          rw e (record { kept = w.0; streams_le = omega arith; bytes_le = w.2 })
      | inr e ↦ rw e v
    ]

make_room_lem :
    (s : TcpReassembler) (key : TcpStreamKey)
    → IsBounded s
    → (is_some (lookup key (make_room s key).streams) ≡ true)
      ⊎ (length (make_room s key).streams < max_tcp_streams)
unfolding make_room contains_key
make_room_lem s key v =
    elim (Bool-cases (not (contains_key key s.streams) && leb max_tcp_streams (length s.streams))) [
      | inl e ↦
          let w = evict_oldest_until-IsKept s (max_tcp_streams - 1) max_tcp_bytes_total v.kept in
          rw e (inr (omega (arith, w.1)))
      | inr e ↦ rw e (ground arith)
    ]

length-remove_stream :
    (s : TcpReassembler) (key : TcpStreamKey) (count : ReassemblyCounters → ReassemblyCounters)
    (t : TcpStream)
    → lookup key s.streams ≡ some t
    → length (remove_stream s key count).streams + 1 ≡ length s.streams
unfolding remove_stream
length-remove_stream s key count t found = ground (arith, length-remove key s.streams)

-- A reassembler with room for the key.
record Ready (s : TcpReassembler) (key : TcpStreamKey) : Type 0 where
  bounded : IsBounded s
  room : (is_some (lookup key s.streams) ≡ true) ⊎ (length s.streams < max_tcp_streams)

expire_on_arrival-Ready :
    (s : TcpReassembler) (key : TcpStreamKey) (now_ms : ℕ)
    → Ready s key
    → Ready (expire_on_arrival s key now_ms) key
unfolding expire_on_arrival remove_idle
expire_on_arrival-Ready s key now_ms v = elim (Option-cases (lookup key s.streams)) [
  | inl missing ↦ rw (missing, expire_on_arrival) v
  | inr (t, found) ↦
      rw (found, expire_on_arrival)
        (elim (Bool-cases (is_idle t now_ms)) [
          | inl e ↦ rw e (record {
            bounded = Shrinks-IsBounded v.bounded (remove_idle-Shrinks s key v.bounded.kept);
            room = inr (
                omega (
                  arith,
                  length-remove_stream s key
                      (λ c. record c { evicted_idle = add64 c.evicted_idle 1 }) t found,
                  v.bounded.streams_le,
                ));
          })
          | inr e ↦ rw e v
        ])
]

-- What `enter` hands out: a sound stream that the account counts already.
record Entered (s : TcpReassembler) (key : TcpStreamKey) (t : TcpStream) : Type 0 where
  sound : IsDirection t
  counted : measure_of accounted_bytes (lookup key s.streams) ≡ accounted_bytes t

enter-Entered :
    (s : TcpReassembler) (key : TcpStreamKey) (seq now_ms : ℕ)
    → seq < u32_mod
    → IsKept s
    → Entered s key (enter s key seq now_ms)
unfolding enter
enter-Entered s key seq now_ms hs v = elim (Option-cases (lookup key s.streams)) [
  | inl missing ↦
      rw (missing, enter)
        (record {
          sound = record { stream = new-IsStream seq now_ms; base = new-HasBase seq now_ms hs };
          counted = rw missing (sym (accounted_bytes-new seq now_ms));
        })
  | inr (t, found) ↦
      let w = lookup-AllValues IsDirection key s.streams t v.streams_sound found in
      rw (found, enter)
        (record {
          sound = record {
            stream = record { sound = w.stream.sound; contiguous = w.stream.contiguous };
            base = w.base;
          };
          counted = rw found (sym (accounted_bytes-seen t now_ms));
        })
]

-- The entry of a stream with its account.
insert-IsKept :
    (s s' : TcpReassembler) (key : TcpStreamKey) (t t' : TcpStream)
    → IsBounded s
    → Entered s key t
    → IsDirection t'
    → s'.streams ≡ insert key t' s.streams
    → s'.bytes_held ≡ saturating_add s.bytes_held (accounted_bytes t') - accounted_bytes t
    → IsKept s'
insert-IsKept s s' key t t' v w u gs bs = record {
  streams_sound = rw gs (insert-AllValues IsDirection key t' s.streams u v.kept.streams_sound);
  accounted = rw gs (
      omega (
        arith,
        total-insert accounted_bytes key t' s.streams,
        accounted_bytes-le t' u.stream,
        accounted_bytes-le t w.sound.stream,
        w.counted,
        v.kept.accounted,
      ));
}

insert-IsBounded :
    (s s' : TcpReassembler) (key : TcpStreamKey) (t t' : TcpStream)
    → Ready s key
    → Entered s key t
    → IsDirection t'
    → accounted_bytes t' ≤ accounted_bytes t
    → s'.streams ≡ insert key t' s.streams
    → s'.bytes_held ≡ saturating_add s.bytes_held (accounted_bytes t') - accounted_bytes t
    → IsBounded s'
insert-IsBounded s s' key t t' r w u le gs bs = record {
  kept = insert-IsKept s s' key t t' r.bounded w u gs bs;
  streams_le = rw gs (ground (arith, length-insert key t' s.streams, r.room, r.bounded.streams_le));
  bytes_le = omega (arith, r.bounded.bytes_le, accounted_bytes-le t w.sound.stream);
}

-- The three ways to stop before anything is written.
removed :
    (s s' : TcpReassembler) (key : TcpStreamKey) (t : TcpStream)
    → IsBounded s
    → Entered s key t
    → s'.streams ≡ remove key s.streams
    → s'.bytes_held ≡ s.bytes_held - accounted_bytes t
    → IsBounded s'
removed s s' key t v w gs bs = record {
  kept = record {
    streams_sound = rw gs (remove-AllValues IsDirection key s.streams v.kept.streams_sound);
    accounted =
        rw gs
          (omega (arith, total-remove accounted_bytes key s.streams, v.kept.accounted, w.counted));
  };
  streams_le = rw gs (ground (arith, length-remove key s.streams, v.streams_le));
  bytes_le = omega (arith, v.bytes_le);
}

released :
    (s s' : TcpReassembler) (key : TcpStreamKey) (t : TcpStream)
    → Ready s key
    → Entered s key t
    → s'.streams ≡ insert key (record (release t) { finished = true }) s.streams
    → s'.bytes_held ≡ s.bytes_held - accounted_bytes t
    → IsBounded s'
released s s' key t v w gs bs =
    let none_held = accounted_bytes-release t true in
    insert-IsBounded s s' key t (record (release t) { finished = true }) v w
      (record { stream = release-IsStream t true; base = release-HasBase t true w.sound.base })
      (omega arith) gs (omega (arith, v.bounded.bytes_le))

entered :
    (s s' : TcpReassembler) (key : TcpStreamKey) (t : TcpStream)
    → Ready s key
    → Entered s key t
    → s'.streams ≡ insert key t s.streams
    → s'.bytes_held ≡ s.bytes_held
    → IsBounded s'
entered s s' key t v w gs bs =
    insert-IsBounded s s' key t t v w w.sound (omega arith) gs
      (omega (arith, v.bounded.bytes_le, accounted_bytes-le t w.sound.stream))

module _ (alloc : Allocator) where
  feed_placed-IsBounded :
      (s : TcpReassembler) (key : TcpStreamKey) (t t' : TcpStream) (offset : ℕ) (payload : List ℕ)
      (declared : ℕ)
      → IsBounded s
      → Entered s key t
      → IsDirection (record_segment alloc t' offset payload declared).0
      → IsBounded (feed_placed alloc s key (accounted_bytes t) t' offset payload declared).0
  unfolding feed_placed
  feed_placed-IsBounded s key t t' offset payload declared v w u =
      let (t'', written) = record_segment alloc t' offset payload declared in
      let sound : IsDirection (mark_finished alloc t'' written.hit_cap) = record {
        stream = record { sound = u.stream.sound; contiguous = u.stream.contiguous };
        base = u.base;
      } in
      let r = evict_oldest_until-IsKept _ max_tcp_streams max_tcp_bytes_total (
        insert-IsKept s _ key t _ v w sound refl (
          ap (λ k. saturating_add s.bytes_held k - accounted_bytes t)
            (sym (accounted_bytes-finished t'' (written.hit_cap || t''.finished))))) in
      record { kept = r.0; streams_le = r.1; bytes_le = r.2 }

  feed_stream-IsBounded :
      (s : TcpReassembler) (key : TcpStreamKey) (t : TcpStream) (seq : ℕ) (payload : List ℕ)
      (declared now_ms : ℕ)
      → Ready s key
      → Entered s key t
      → seq < u32_mod
      → length payload < u32_mod
      → IsBounded (feed_stream alloc s key t seq payload declared now_ms).0
  unfolding feed_stream
  feed_stream-IsBounded s key t seq payload declared now_ms v w hs hp =
      elim (Bool-cases t.finished) [
        | inl e ↦ simp e (removed s _ key t v.bounded w refl refl)
        | inr e ↦
            simp e (elim (Bool-cases (ltb tcp_decision_window_ms (now_ms - t.first_seen_ms))) [
              | inl late ↦ simp late (released s _ key t v w refl refl)
              | inr soon ↦ simp soon (elim (Option-cases (place_segment alloc t seq)) [
                | inl lost ↦ rw (lost, feed_stream) (entered s _ key t v w refl refl)
                | inr ((t', offset), placed) ↦
                    rw (placed, feed_stream)
                      (let p =
                          place_segment_lem alloc t seq t' offset w.sound.stream w.sound.base hs
                            placed in
                        feed_placed-IsBounded s key t t' offset payload declared v.bounded w
                          (record {
                            stream =
                                record_segment-IsStream alloc t' offset payload declared p.0 p.3 hp;
                            base = record_segment-HasBase alloc t' offset payload declared p.1;
                          }))
              ])
            ])
      ]

  -- Feeding any segment keeps every stream sound, the account of bytes right, at most
  -- `max_tcp_streams` streams and at most `max_tcp_bytes_total` bytes held, whatever the segment,
  -- provided that its sequence number and its length are 32-bit numbers.
  pub feed_tcp-IsBounded :
      (s : TcpReassembler) (key : TcpStreamKey) (seq : ℕ) (payload : List ℕ) (declared now_ms : ℕ)
      → IsBounded s
      → seq < u32_mod
      → length payload < u32_mod
      → IsBounded (feed alloc s key seq payload declared now_ms).0
  unfolding feed
  feed_tcp-IsBounded s key seq [] declared now_ms v hs hp = v
  feed_tcp-IsBounded s key seq (b ∷ bs) declared now_ms v hs hp =
      let r =
        expire_on_arrival-Ready (make_room s key) key now_ms
          (record { bounded = make_room-IsBounded s key v; room = make_room_lem s key v }) in
      feed_stream-IsBounded _ key _ seq (b ∷ bs) declared now_ms r
        (enter-Entered _ key seq now_ms hs r.bounded.kept) hs hp
