-- ===== src/Handshake.antt =====
-- capture-agent/src/tls_handshake.rs: TLS handshake messages out of a byte stream.
pub mod Hello
pub mod Messages
pub mod Chunks
mod Tests
use network_monitor.Base.{
  ℕ, zero, suc, ◌+◌, ◌-◌, ◌*◌, ◌/◌, ◌%◌, ◌^◌, ◌≤◌, ◌<◌, min, max, ◌≡◌, refl, sym, ap, ◌∙◌, subst,
  ◌≢◌, ◌↔◌, ◌⊎◌, inl, inr, Bool, true, false, not, ◌&&◌, ◌||◌, Option, none, some, List, [], ◌∷◌,
  ◌++◌, map, arith, ltb, leb, ◌==◌, if◌then◌else◌, is_some, ltb→lt, lt→ltb, le→ltb, leb→le, le→leb,
  ==_iff, tests, Bool-cases, Option-cases, length, get_or-drop, get_elem?, get_or, set, take, drop,
  replicate, resize, length-append, length-set, length-take, length-drop, length-replicate,
  length-resize, take-append-drop, get_or-resize, get_or-set_self, get_or-set_ne, get_or_beyond,
  get_or-take, get_or_ext, u32_mod, u64_max, wrapping_add32, wrapping_sub32, saturating_add, add64,
  Eq, string_eq, beq_refl, Table, measure_of, lookup, contains_key, insert, remove, total,
  AllValues, total-remove, total-insert, length-remove, length-insert, lookup-AllValues,
  remove-AllValues, insert-AllValues, lookup-insert, lookup-remove_ne,
}
use network_monitor.Base.Results.{Result, ok, err, ◌>>=◌}
use Hello.{
  HandshakeEvent, finished, key_update, other, HandshakeParseError, buffer_too_large,
  malformed_message, parse_client_hello, parse_server_hello,
}

abbrev pub max_handshake_buffer : ℕ
max_handshake_buffer = 64 * 1024

-- `TlsHandshakeParser`.
pub record TlsHandshakeParser : Type 0 where
  pub buffer : List ℕ

unfoldable pub new : TlsHandshakeParser
new = record { buffer = [] }

unfoldable pub parse_key_update : List ℕ → Result HandshakeParseError HandshakeEvent
parse_key_update body =
    if length body == 1 && leb (get_or body 0 0) 1
    then ok (key_update (get_or body 0 0 == 1))
    else err malformed_message

unfoldable pub parse_message : ℕ → List ℕ → Result HandshakeParseError HandshakeEvent
parse_message kind body =
    if kind == 1
    then parse_client_hello body
    else if kind == 2
    then parse_server_hello body
    else if kind == 20
    then ok finished
    else if kind == 24
    then parse_key_update body
    else ok other

-- The header's length and the body's.
abbrev pub message_len : List ℕ → ℕ
message_len buffer = 65536 * get_or buffer 1 0 + 256 * get_or buffer 2 0 + get_or buffer 3 0 + 4

-- One round of the loop: the message at the front and its length, or nothing when more bytes are
-- needed.
unfoldable pub first_message : List ℕ → Result HandshakeParseError (Option (HandshakeEvent × ℕ))
first_message buffer =
    if ltb (length buffer) 4
    then ok none
    else if ltb max_handshake_buffer (message_len buffer)
    then err buffer_too_large
    else if ltb (length buffer) (message_len buffer)
    then ok none
    else (parse_message (get_or buffer 0 0) (take (message_len buffer - 4) (drop 4 buffer))
        >>= λ event. ok (some (event, message_len buffer)))

-- One event before those of the rounds after it.
abbrev pub prepend :
    HandshakeEvent
    → Result HandshakeParseError (List HandshakeEvent × List ℕ)
    → Result HandshakeParseError (List HandshakeEvent × List ℕ)
prepend event (ok (events, rest)) = ok (event ∷ events, rest)
prepend event (err e) = err e

-- The loop: the events, and the bytes that no message takes yet. A round takes four bytes or
-- more, so fuel for each byte is enough.
unfoldable pub messages : ℕ → List ℕ → Result HandshakeParseError (List HandshakeEvent × List ℕ)
messages zero buffer = ok ([], buffer)
messages (suc fuel) buffer = elim (first_message buffer) [
  | err e ↦ err e
  | ok none ↦ ok ([], buffer)
  | ok (some (event, len)) ↦ prepend event (messages fuel (drop len buffer))
]

unfoldable pub settle :
    Result HandshakeParseError (List HandshakeEvent × List ℕ)
    → TlsHandshakeParser × Result HandshakeParseError (List HandshakeEvent)
settle (ok (events, rest)) = (record { buffer = rest }, ok events)
settle (err e) = (record { buffer = [] }, err e)

unfoldable pub feed :
    TlsHandshakeParser
    → List ℕ
    → TlsHandshakeParser × Result HandshakeParseError (List HandshakeEvent)
feed p bytes =
    if ltb max_handshake_buffer (saturating_add (length p.buffer) (length bytes))
    then (record { buffer = [] }, err buffer_too_large)
    else settle (messages (length (p.buffer ++ bytes)) (p.buffer ++ bytes))
