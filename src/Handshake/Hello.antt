-- ===== src/Handshake/Hello.antt =====
-- The messages of capture-agent/src/tls_handshake.rs: `HandshakeEvent` and the two hello parsers.
use network_monitor.Base.{
  same_bytes, ℕ, zero, suc, ◌+◌, ◌*◌, Bool, true, false, none, some, List, [], ◌∷◌, ltb, leb, ◌==◌,
  if◌then◌else◌, length, get_elem?, get_or, take, drop, string_eq,
}
use network_monitor.Base.Results.{Result, ok, err, ◌>>=◌}

pub data HandshakeEvent : Type 0 where
  client_hello : (early_data : Bool) → HandshakeEvent
  server_hello : (cipher_suite : ℕ) (hello_retry_request tls13 : Bool) → HandshakeEvent
  finished : HandshakeEvent
  key_update : (request_update : Bool) → HandshakeEvent
  other : HandshakeEvent

pub data HandshakeParseError : Type 0 where
  buffer_too_large malformed_message : HandshakeParseError

-- `HRR_RANDOM`.
abbrev pub hrr_random : List ℕ
hrr_random =
    207 ∷ 33 ∷ 173 ∷ 116 ∷ 229 ∷ 154 ∷ 97 ∷ 17 ∷ 190 ∷ 29 ∷ 140 ∷ 2 ∷ 30 ∷ 101 ∷ 184 ∷ 145 ∷ 194
    ∷ 162 ∷ 17 ∷ 22 ∷ 122 ∷ 187 ∷ 140 ∷ 94 ∷ 7 ∷ 158 ∷ 9 ∷ 226 ∷ 200 ∷ 168 ∷ 51 ∷ 156 ∷ []

-- `*bytes.get(pos).ok_or(MalformedMessage)?`.
unfoldable pub byte_at : List ℕ → ℕ → Result HandshakeParseError ℕ
byte_at bytes pos = elim (get_elem? bytes pos) [ some b ↦ ok b | none ↦ err malformed_message ]

-- `bytes.get(pos..pos + len).ok_or(MalformedMessage)?`.
unfoldable pub bytes_at : List ℕ → ℕ → ℕ → Result HandshakeParseError (List ℕ)
bytes_at bytes pos len =
    if leb (pos + len) (length bytes) then ok (take len (drop pos bytes)) else err malformed_message

-- `u16::from_be_bytes`.
abbrev pub be16 : List ℕ → ℕ → ℕ
be16 bytes pos = 256 * get_or bytes pos 0 + get_or bytes (pos + 1) 0

unfoldable pub read_u16 : List ℕ → ℕ → Result HandshakeParseError ℕ
read_u16 bytes pos = bytes_at bytes pos 2 >>= λ pair. ok (be16 pair 0)

-- The extension at the front: its kind, its value, and what is behind it.
unfoldable pub extension : List ℕ → Result HandshakeParseError ((ℕ × List ℕ) × List ℕ)
extension bytes = do
  header ← bytes_at bytes 0 4
  value ← bytes_at bytes 4 (be16 header 2)
  ok ((be16 header 0, value), drop (4 + be16 header 2) bytes)

-- The loop over a client's extensions, on fuel for each of their bytes.
unfoldable pub client_extensions : ℕ → Bool → List ℕ → Result HandshakeParseError Bool
client_extensions fuel early_data [] = ok early_data
client_extensions zero early_data (b ∷ bs) = err malformed_message
client_extensions (suc fuel) early_data (b ∷ bs) = extension (b ∷ bs) >>= λ ((kind, value), rest).
    if kind == 42
    then (if length value == 0 then client_extensions fuel true rest else err malformed_message)
    else client_extensions fuel early_data rest

unfoldable pub parse_client_hello : List ℕ → Result HandshakeParseError HandshakeEvent
parse_client_hello body = if ltb (length body) 34 then err malformed_message else do
  session_len ← byte_at body 34
  let after_session = 34 + (1 + session_len)
  cipher_len ← read_u16 body after_session
  let after_ciphers = after_session + (2 + cipher_len)
  compression_len ← byte_at body after_ciphers
  let after_compression = after_ciphers + (1 + compression_len)
  ext_len ← read_u16 body after_compression
  let pos = after_compression + 2
  extensions ← bytes_at body pos ext_len
  (if pos + ext_len == length body
      then (client_extensions (length extensions) false extensions >>= λ early_data.
          ok (client_hello early_data))
      else err malformed_message)

-- The loop over a server's extensions; the last of kind 43 decides.
unfoldable pub server_extensions : ℕ → Bool → List ℕ → Result HandshakeParseError Bool
server_extensions fuel tls13 [] = ok tls13
server_extensions zero tls13 (b ∷ bs) = err malformed_message
server_extensions (suc fuel) tls13 (b ∷ bs) = extension (b ∷ bs) >>= λ ((kind, value), rest).
    server_extensions fuel (if kind == 43 then same_bytes value (3 ∷ 4 ∷ []) else tls13) rest

-- Whether the extensions, which may be missing, say TLS 1.3.
unfoldable pub server_tls13 : List ℕ → ℕ → Result HandshakeParseError Bool
server_tls13 body pos =
    if ltb pos (length body)
    then (do
      ext_len ← read_u16 body pos
      extensions ← bytes_at body (pos + 2) ext_len
      (if pos + 2 + ext_len == length body
          then server_extensions (length extensions) false extensions
          else err malformed_message))
    else ok false

unfoldable pub parse_server_hello : List ℕ → Result HandshakeParseError HandshakeEvent
parse_server_hello body = if ltb (length body) 38 then err malformed_message else do
  session_len ← byte_at body 34
  let pos = 34 + (1 + session_len)
  cipher_suite ← read_u16 body pos
  compression ← byte_at body (pos + 2)
  tls13 ← server_tls13 body (pos + 2 + 1)
  ok (server_hello cipher_suite (same_bytes (take 32 (drop 2 body)) hrr_random) tls13)
