-- ===== src/Reassembly/Segments/Keeping.antt =====
-- What `TcpReassembler::feed` of capture-agent/src/reassembly.rs keeps of a direction that it holds.
use network_monitor.Base.{
  ℕ, ◌-◌, ◌<◌, ◌≡◌, refl, sym, ap, ◌∙◌, subst, ◌⊎◌, inl, inr, Bool, true, false, Option, none, some,
  List, [], ◌∷◌, ltb, if◌then◌else◌, length, u32_mod, saturating_add, add64, string_eq, beq_refl,
  lookup, contains_key, insert, lookup-AllValues, lookup-insert,
}
use network_monitor.Reassembly.Status.{
  ReassemblyStatus, max_tcp_streams, max_tcp_bytes_total, tcp_decision_window_ms,
}
use network_monitor.Reassembly.Buffer.{Allocator}
use network_monitor.Reassembly.Eviction.Entries.{IsOnce, insert-IsOnce, evict_oldest_until-GoneOrIs}
use network_monitor.Reassembly.Segments.Key.{TcpStreamKey, stream_key_eq}
use network_monitor.Reassembly.Segments.Stream.{TcpStream, accounted_bytes, is_idle}
use network_monitor.Reassembly.Segments.Placing.{HoldsAt, place_record_keeps}
use network_monitor.Reassembly.Segments.Invariant.{IsBounded, IsDirection}
use network_monitor.Reassembly.Segments.{
  TcpReassembler, held_of, evict_oldest_until, make_room, expire_on_arrival, enter, place_segment,
  record_segment, mark_finished, feed_placed, feed_stream, feed,
}

-- Every byte that `t` holds is held by `t'`, under the same sequence number.
abbrev pub KeepsBytes : TcpStream → TcpStream → Type 0
KeepsBytes t t' = (n b : ℕ) → HoldsAt t n b → HoldsAt t' n b

-- The direction is gone, or it has all the bytes that it had.
abbrev pub GoneOrKeeps : TcpStreamKey → TcpStream → TcpReassembler → Type 0
GoneOrKeeps key t s =
    (lookup key s.streams ≡ none)
    ⊎ ((t' : TcpStream) × (lookup key s.streams ≡ some t') × KeepsBytes t t')

-- A segment that tells nothing, or one that leaves the direction so.
abbrev pub Tells : TcpStreamKey → TcpStream → TcpReassembler × Option ReassemblyStatus → Type 0
Tells key t (s, none) = Unit
Tells key t (s, some st) = GoneOrKeeps key t s

evict_oldest_until-GoneOrKeeps :
    (s : TcpReassembler) (m b : ℕ) (key : TcpStreamKey) (t t' : TcpStream)
    → lookup key s.streams ≡ some t'
    → IsOnce key s.streams
    → KeepsBytes t t'
    → GoneOrKeeps key t (evict_oldest_until s m b)
unfolding evict_oldest_until
evict_oldest_until-GoneOrKeeps s m b key t t' e once keeps =
    elim (evict_oldest_until-GoneOrIs accounted_bytes (λ (u : TcpStream). u.last_seen_ms) m b key t'
      (held_of s) (inr (e, once))) [ inl gone ↦ inl gone | inr (is, still) ↦ inr (t', is, keeps) ]

make_room_held :
    (s : TcpReassembler) (key : TcpStreamKey) (t : TcpStream)
    → lookup key s.streams ≡ some t
    → make_room s key ≡ s
unfolding make_room contains_key
make_room_held s key t e = rw e refl

expire_on_arrival_fresh :
    (s : TcpReassembler) (key : TcpStreamKey) (now_ms : ℕ) (t : TcpStream)
    → lookup key s.streams ≡ some t
    → is_idle t now_ms ≡ false
    → expire_on_arrival s key now_ms ≡ s
unfolding expire_on_arrival
expire_on_arrival_fresh s key now_ms t e f = rw (e, expire_on_arrival) (rw f refl)

seen : TcpStream → ℕ → TcpStream
seen t now_ms = record t { last_seen_ms = now_ms }

seen-IsDirection : (t : TcpStream) (now_ms : ℕ) → IsDirection t → IsDirection (seen t now_ms)
unfolding seen
seen-IsDirection t now_ms v = record {
  stream = record { sound = v.stream.sound; contiguous = v.stream.contiguous };
  base = v.base;
}

seen-KeepsBytes : (t : TcpStream) (now_ms : ℕ) → KeepsBytes t (seen t now_ms)
unfolding seen
seen-KeepsBytes t now_ms n b w = record {
  index = w.index;
  numbered = w.numbered;
  is_held = w.is_held;
  is_byte = w.is_byte;
}

enter_held :
    (s : TcpReassembler) (key : TcpStreamKey) (seq now_ms : ℕ) (t : TcpStream)
    → lookup key s.streams ≡ some t
    → enter s key seq now_ms ≡ seen t now_ms
unfolding enter seen
enter_held s key seq now_ms t e = rw (e, enter) refl

-- Whether something is told does not matter when the direction is left so.
told :
    (key : TcpStreamKey) (t : TcpStream) (s : TcpReassembler) (c : Bool) (st : ReassemblyStatus)
    → GoneOrKeeps key t s
    → Tells key t (s, if c then some st else none)
told key t s true st g = g
told key t s false st g = tt

if-Tells :
    (key : TcpStreamKey) (t : TcpStream) (c : Bool) (x y : TcpReassembler × Option ReassemblyStatus)
    → Tells key t x
    → Tells key t y
    → Tells key t (if c then x else y)
if-Tells key t true x y p q = p
if-Tells key t false x y p q = q

module _ (alloc : Allocator) where
  -- `feed_stream` once its segment is placed, or out of range.
  abbrev placed :
      TcpReassembler
      → TcpStreamKey
      → TcpStream
      → List ℕ
      → ℕ
      → Option (TcpStream × ℕ)
      → TcpReassembler × Option ReassemblyStatus
  placed s key entered payload declared o = elim o [
    | none ↦ (record s { streams = insert key entered s.streams }, none)
    | some (t', offset) ↦
        feed_placed alloc s key (accounted_bytes entered) t' offset payload declared
  ]

  mark_finished-KeepsBytes :
      (t t' : TcpStream) (hit_cap : Bool)
      → KeepsBytes t t'
      → KeepsBytes t (mark_finished alloc t' hit_cap)
  mark_finished-KeepsBytes t t' hit_cap keeps n b w =
      let w' = keeps n b w in
      record {
        index = w'.index;
        numbered = w'.numbered;
        is_held = w'.is_held;
        is_byte = w'.is_byte;
      }

  feed_placed-Tells :
      (s : TcpReassembler) (key : TcpStreamKey) (before : ℕ) (t t' : TcpStream) (offset : ℕ)
      (payload : List ℕ) (declared : ℕ)
      → IsOnce key s.streams
      → KeepsBytes t (record_segment alloc t' offset payload declared).0
      → Tells key t (feed_placed alloc s key before t' offset payload declared)
  unfolding feed_placed
  feed_placed-Tells s key before t t' offset payload declared once keeps =
      let r = record_segment alloc t' offset payload declared in
      let last = mark_finished alloc r.0 r.1.hit_cap in
      let next : TcpReassembler = record {
        streams = insert key last s.streams;
        bytes_held = saturating_add s.bytes_held (accounted_bytes r.0) - before;
        counters = record s.counters {
          conflicting_overlap_bytes = add64 s.counters.conflicting_overlap_bytes r.1.conflicting;
          abandoned_without_completing =
              if r.1.hit_cap
              then add64 s.counters.abandoned_without_completing 1
              else s.counters.abandoned_without_completing;
        };
      } in
      told key t (evict_oldest_until next max_tcp_streams max_tcp_bytes_total) _ _ (
        evict_oldest_until-GoneOrKeeps next max_tcp_streams max_tcp_bytes_total key t last
          (lookup-insert key key last s.streams
            ∙ ap (λ c. if c then some last else lookup key s.streams) (beq_refl key))
          (insert-IsOnce key last s.streams once)
          (mark_finished-KeepsBytes t r.0 r.1.hit_cap keeps))

  placed-Tells :
      (s : TcpReassembler) (key : TcpStreamKey) (t entered : TcpStream) (seq : ℕ) (payload : List ℕ)
      (declared : ℕ) (o : Option (TcpStream × ℕ))
      → IsOnce key s.streams
      → IsDirection entered
      → KeepsBytes t entered
      → seq < u32_mod
      → length payload < u32_mod
      → o ≡ place_segment alloc entered seq
      → Tells key t (placed s key entered payload declared o)
  placed-Tells s key t entered seq payload declared none once v keeps hs hp e = tt
  placed-Tells s key t entered seq payload declared (some (t', offset)) once v keeps hs hp e =
      feed_placed-Tells s key (accounted_bytes entered) t t' offset payload declared once (λ n b w.
        place_record_keeps alloc entered seq payload declared t' offset n b v.stream v.base hs hp
          (sym e) (keeps n b w))

  feed_stream-Tells :
      (s : TcpReassembler) (key : TcpStreamKey) (t entered : TcpStream) (seq : ℕ) (payload : List ℕ)
      (declared now_ms : ℕ)
      → IsOnce key s.streams
      → IsDirection entered
      → KeepsBytes t entered
      → seq < u32_mod
      → length payload < u32_mod
      → Tells key t (feed_stream alloc s key entered seq payload declared now_ms)
  unfolding feed_stream
  feed_stream-Tells s key t entered seq payload declared now_ms once v keeps hs hp =
      if-Tells key t entered.finished _ _ tt (
        if-Tells key t (ltb tcp_decision_window_ms (now_ms - entered.first_seen_ms)) _ _ tt (
          placed-Tells s key t entered seq payload declared (place_segment alloc entered seq) once v
            keeps hs hp refl))

  -- Once bytes of a direction are held, and it was seen within the idle time, a segment that is
  -- told of leaves every one of these bytes as it is, unless the direction is evicted.
  pub feed-Tells :
      (s : TcpReassembler) (key : TcpStreamKey) (t : TcpStream) (seq : ℕ) (payload : List ℕ)
      (declared now_ms : ℕ)
      → IsBounded s
      → IsOnce key s.streams
      → lookup key s.streams ≡ some t
      → is_idle t now_ms ≡ false
      → seq < u32_mod
      → length payload < u32_mod
      → Tells key t (feed alloc s key seq payload declared now_ms)
  unfolding feed
  feed-Tells s key t seq [] declared now_ms v once e fresh hs hp = tt
  feed-Tells s key t seq (b ∷ bs) declared now_ms v once e fresh hs hp =
      let w = lookup-AllValues IsDirection key s.streams t v.kept.streams_sound e in
      let ready : expire_on_arrival (make_room s key) key now_ms ≡ s =
        ap (λ r. expire_on_arrival r key now_ms) (make_room_held s key t e)
        ∙ expire_on_arrival_fresh s key now_ms t e fresh in
      subst
        (λ (r : TcpReassembler).
          Tells key t
            (feed_stream alloc r key (enter r key seq now_ms) seq (b ∷ bs) declared now_ms))
        (sym ready)
        (subst
          (λ (u : TcpStream). Tells key t (feed_stream alloc s key u seq (b ∷ bs) declared now_ms))
          (sym (enter_held s key seq now_ms t e))
          (feed_stream-Tells s key t (seen t now_ms) seq (b ∷ bs) declared now_ms once
            (seen-IsDirection t now_ms w) (seen-KeepsBytes t now_ms) hs hp))
