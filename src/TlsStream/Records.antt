-- ===== src/TlsStream/Records.antt =====
-- `TlsRecordFramer` of capture-agent/src/tls_stream.rs: a byte stream in, whole TLS records out.
pub mod Fuel
use network_monitor.Base.{
  ℕ, zero, suc, ◌+◌, ◌-◌, ◌*◌, min, ◌&&◌, Option, none, some, List, [], ◌∷◌, ◌++◌, ltb, leb, ◌==◌,
  if◌then◌else◌, length, get_or, take, drop, string_eq,
}
use network_monitor.Base.Results.{Result, ok, err}
use network_monitor.TlsStream.Tcp.{max_tls_record_body_bytes}

pub data TlsRecordError : Type 0 where
  too_large : TlsRecordError

pub record TlsRecordFramer : Type 0 where
  pub buffer : List ℕ

unfoldable pub new : TlsRecordFramer
new = record { buffer = [] }

-- `u16::from_be_bytes([buffer[3], buffer[4]])`.
unfoldable pub body_len : List ℕ → ℕ
body_len buffer = 256 * get_or buffer 3 0 + get_or buffer 4 0

-- The length that the buffer is filled to before it is looked at again.
unfoldable pub target_len : List ℕ → ℕ
target_len buffer = if ltb (length buffer) 5 then 5 else 5 + body_len buffer

-- The loop, on fuel; `none` means that the fuel ran out.
unfoldable pub frame :
    ℕ
    → List ℕ
    → List ℕ
    → List (List ℕ)
    → Option (TlsRecordFramer × Result TlsRecordError (List (List ℕ)))
frame fuel buffer [] records = some (record { buffer = buffer }, ok records)
frame zero buffer (b ∷ bs) records = none
frame (suc fuel) buffer (b ∷ bs) records =
    let input : List ℕ = b ∷ bs in
    let amount = min (target_len buffer - length buffer) (length input) in
    let buffer' = buffer ++ take amount input in
    let rest = drop amount input in
    let go_on = frame fuel buffer' rest records in
    let flushed = frame fuel [] rest (records ++ (buffer' ∷ [])) in
    let refused : Option (TlsRecordFramer × Result TlsRecordError (List (List ℕ))) =
      some (record { buffer = [] }, err too_large) in
    if leb 5 (length buffer) && ltb max_tls_record_body_bytes (body_len buffer)
    then refused
    else if length buffer' == 5
    then (if ltb max_tls_record_body_bytes (body_len buffer')
        then refused
        else if body_len buffer' == 0
        then flushed
        else go_on)
    else if length buffer' == target_len buffer
    then flushed
    else go_on

-- `feed`, with as much fuel as there are bytes; running out of it would give `none`.
unfoldable pub feed? :
    TlsRecordFramer → List ℕ → Option (TlsRecordFramer × Result TlsRecordError (List (List ℕ)))
feed? f input = frame (length input) f.buffer input []

unfoldable pub feed :
    TlsRecordFramer → List ℕ → TlsRecordFramer × Result TlsRecordError (List (List ℕ))
feed f input = elim (feed? f input) [ some r ↦ r | none ↦ (f, ok []) ]
