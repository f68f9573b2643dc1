-- ===== src/Reassembly/Segments/Front.antt =====
-- What the prefix of a TCP direction in capture-agent/src/reassembly.rs shows of its bytes.
use network_monitor.Base.{
  ℕ, ◌≤◌, ◌<◌, ◌≡◌, refl, sym, ap, ◌∙◌, inl, inr, Bool, true, false, none, some, List, [], arith,
  ltb, leb, ltb→lt, le→leb, Bool-cases, length, get_or, take, length-take, get_or_beyond,
  get_or-take, wrapping_add32, string_eq, lookup, lookup-AllValues,
}
use network_monitor.Reassembly.Status.{max_tcp_stream_bytes}
use network_monitor.Reassembly.Coverage.Prefix.{
  get_or_of_lt_run_length, get_or-run_length, run_length-le,
}
use network_monitor.Reassembly.Segments.Key.{TcpStreamKey, stream_key_eq}
use network_monitor.Reassembly.Segments.Stream.{TcpStream}
use network_monitor.Reassembly.Segments.Placing.{HoldsAt}
use network_monitor.Reassembly.Segments.Invariant.{IsBounded, IsDirection}
use network_monitor.Reassembly.Segments.{TcpReassembler, prefix}

-- `bytes` are those that the stream holds from its first sequence number on.
abbrev pub AreHeld : TcpStream → List ℕ → Type 0
AreHeld t bytes =
    (i : ℕ) → i < length bytes → HoldsAt t (wrapping_add32 t.base_seq i) (get_or bytes i 0)

shown :
    (t : TcpStream)
    → IsDirection t
    → (length (take t.prefix_len t.buffer.bytes) ≡ t.prefix_len)
      × (t.prefix_len ≤ max_tcp_stream_bytes)
      × AreHeld t (take t.prefix_len t.buffer.bytes)
      × (get_or t.buffer.filled t.prefix_len false ≡ false)
shown t v =
    let c = v.stream.contiguous in
    let within : t.prefix_len ≤ length t.buffer.bytes =
      omega (arith, c, run_length-le t.buffer.filled, v.stream.sound.paired) in
    let size : length (take t.prefix_len t.buffer.bytes) ≡ t.prefix_len =
      omega (arith, length-take t.prefix_len t.buffer.bytes) in
    (
      size,
      omega (arith, v.stream.sound.capped),
      (λ i hi.
          let small : i < t.prefix_len = omega arith in
          record {
            index = i;
            numbered = refl;
            is_held = get_or_of_lt_run_length t.buffer.filled i (omega (arith, c));
            is_byte = sym (get_or-take t.prefix_len t.buffer.bytes i 0 small);
          }),
      ap (λ n. get_or t.buffer.filled n false) c ∙ get_or-run_length t.buffer.filled,
    )

-- Under the invariant, the prefix that is handed out of a direction is its longest gap-free front:
-- every byte of it is held, under the sequence number that counts from the direction's first one,
-- and the byte behind it is not held. It is no longer than the cap on a direction.
pub prefix_lem :
    (s : TcpReassembler) (key : TcpStreamKey) (t : TcpStream)
    → IsBounded s
    → lookup key s.streams ≡ some t
    → AreHeld t (prefix s key)
      × (get_or t.buffer.filled (length (prefix s key)) false ≡ false)
      × (length (prefix s key) ≤ max_tcp_stream_bytes)
unfolding prefix
prefix_lem s key t v e =
    let w = lookup-AllValues IsDirection key s.streams t v.kept.streams_sound e in
    let (size, capped, held, behind) = shown t w in
    let within : leb t.prefix_len (length t.buffer.bytes) ≡ true =
      le→leb _ _ (omega (arith, size, length-take t.prefix_len t.buffer.bytes)) in
    rw (e, prefix)
      (rw within
        (held, ap (λ n. get_or t.buffer.filled n false) size ∙ behind, omega (arith, size, capped)))

pub prefix_gone :
    (s : TcpReassembler) (key : TcpStreamKey) → lookup key s.streams ≡ none → prefix s key ≡ []
unfolding prefix
prefix_gone s key e = rw (e, prefix) refl

held_inside : (bs : List Bool) (i : ℕ) → get_or bs i false ≡ true → i < length bs
held_inside bs i h = elim (Bool-cases (ltb i (length bs))) [
  | inl inside ↦ ltb→lt i (length bs) inside
  | inr outside ↦ absurd (
      let beyond = get_or_beyond bs i false (ground (arith, outside)) in
      let bad = sym h ∙ beyond in cc)
]

-- A sequence number has one byte.
pub one_byte_at :
    (t : TcpStream) (i n b c : ℕ)
    → IsDirection t
    → wrapping_add32 t.base_seq i ≡ n
    → i ≤ max_tcp_stream_bytes
    → HoldsAt t n b
    → get_or t.buffer.bytes i 0 ≡ c
    → c ≡ b
one_byte_at t i n b c v at small w is_c =
    let near : w.index < length t.buffer.filled = held_inside t.buffer.filled w.index w.is_held in
    let same : w.index ≡ i =
      omega (arith, near, at, w.numbered, v.base, v.stream.sound.capped, v.stream.sound.paired) in
    sym is_c ∙ (ap (λ m. get_or t.buffer.bytes m 0) (sym same) ∙ w.is_byte)

-- Where bytes of `t` have sequence numbers that the prefix of `t'` reaches, the prefix has these bytes.
abbrev pub ShowsFirst : TcpStream → TcpStream → List ℕ → Type 0
ShowsFirst t t' bytes =
    (i b : ℕ) → i < length bytes → HoldsAt t (wrapping_add32 t'.base_seq i) b → get_or bytes i 0 ≡ b

shown-ShowsFirst :
    (t t' : TcpStream)
    → IsDirection t'
    → ((n b : ℕ) → HoldsAt t n b → HoldsAt t' n b)
    → ShowsFirst t t' (take t'.prefix_len t'.buffer.bytes)
shown-ShowsFirst t t' v keeps i b hi w =
    let small : i < t'.prefix_len = omega (arith, (shown t' v).0) in
    get_or-take t'.prefix_len t'.buffer.bytes i 0 small
    ∙ one_byte_at t' i (wrapping_add32 t'.base_seq i) b (get_or t'.buffer.bytes i 0) v refl
        (omega (arith, (shown t' v).1)) (keeps (wrapping_add32 t'.base_seq i) b w) refl

-- The prefix of a direction that has all the bytes of `t`.
pub prefix-ShowsFirst :
    (s : TcpReassembler) (key : TcpStreamKey) (t t' : TcpStream)
    → IsBounded s
    → lookup key s.streams ≡ some t'
    → ((n b : ℕ) → HoldsAt t n b → HoldsAt t' n b)
    → ShowsFirst t t' (prefix s key)
unfolding prefix
prefix-ShowsFirst s key t t' v e keeps =
    let w = lookup-AllValues IsDirection key s.streams t' v.kept.streams_sound e in
    let within : leb t'.prefix_len (length t'.buffer.bytes) ≡ true =
      le→leb _ _ (omega (arith, (shown t' w).0, length-take t'.prefix_len t'.buffer.bytes)) in
    rw (e, prefix) (rw within (shown-ShowsFirst t t' w keeps))
