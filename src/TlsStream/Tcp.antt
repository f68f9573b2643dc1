-- ===== src/TlsStream/Tcp.antt =====
-- `TlsTcpStream` of capture-agent/src/tls_stream.rs: segments in, the contiguous bytes out.
pub mod Follows
pub mod Lossless
pub mod Placed
pub mod Delivery
use network_monitor.Base.{
  ℕ, zero, suc, ◌+◌, ◌-◌, ◌*◌, ◌/◌, ◌%◌, ◌^◌, ◌≤◌, ◌<◌, min, max, ◌≡◌, refl, sym, ap, ◌∙◌, subst,
  ◌≢◌, ◌↔◌, ◌⊎◌, inl, inr, Bool, true, false, not, ◌&&◌, ◌||◌, Option, none, some, List, [], ◌∷◌,
  ◌++◌, map, arith, ltb, leb, ◌==◌, if◌then◌else◌, is_some, ltb→lt, lt→ltb, le→ltb, leb→le, le→leb,
  ==_iff, tests, Bool-cases, Option-cases, length, get_or-drop, get_elem?, get_or, set, take, drop,
  replicate, resize, length-append, length-set, length-take, length-drop, length-replicate,
  length-resize, take-append-drop, get_or-resize, get_or-set_self, get_or-set_ne, get_or_beyond,
  get_or-take, get_or_ext, u32_mod, u64_max, wrapping_add32, wrapping_sub32, saturating_add, add64,
  Eq, string_eq, beq_refl, Table, measure_of, lookup, contains_key, insert, remove, total,
  AllValues, total-remove, total-insert, length-remove, length-insert, lookup-AllValues,
  remove-AllValues, insert-AllValues, lookup-insert, lookup-remove_ne,
}
use network_monitor.Base.Results.{Result, ok, err}

abbrev pub max_tls_record_body_bytes : ℕ
max_tls_record_body_bytes = 2 ^ 14 + 256

abbrev pub tls_reorder_window_bytes : ℕ
tls_reorder_window_bytes = 5 + max_tls_record_body_bytes

-- The first data byte's sequence number is one past a SYN's.
pub first_data_sequence : ℕ → Bool → ℕ
first_data_sequence tcp_sequence syn = wrapping_add32 tcp_sequence (if syn then 1 else 0)

pub data TlsStreamError : Type 0 where
  reorder_window_exceeded conflicting_overlap record_too_large : TlsStreamError

-- `present` has a byte for each of `bytes`, 0 where nothing came yet.
pub record TlsTcpStream : Type 0 where
  pub next_seq : ℕ
  pub bytes : List ℕ
  pub present : List ℕ

unfoldable pub new : ℕ → TlsTcpStream
new initial_seq = record { next_seq = initial_seq; bytes = []; present = [] }

-- The loop over the payload from slot `slot` on; it stops at the first conflict, with what it has
-- written so far.
unfoldable pub write_slots : ℕ → List ℕ → TlsTcpStream → TlsTcpStream × Bool
write_slots slot [] s = (s, false)
write_slots slot (byte ∷ rest) s = elim (get_or s.present slot 0 == 0) [
  | true ↦
      write_slots (slot + 1) rest
        (record s { bytes = set s.bytes slot byte; present = set s.present slot 1 })
  | false ↦ elim (get_or s.bytes slot 0 == byte) [
    | true ↦ write_slots (slot + 1) rest s
    | false ↦ (s, true)
  ]
]

-- `take_while(|&&present| present != 0).count()`.
abbrev pub count_present : List ℕ → ℕ
count_present [] = 0
count_present (p ∷ ps) = if p == 0 then 0 else suc (count_present ps)

-- The two `resize` calls.
unfoldable pub grow_to : ℕ → TlsTcpStream → TlsTcpStream
grow_to end s =
    if ltb (length s.bytes) end
    then record s { bytes = resize s.bytes end 0; present = resize s.present end 0 }
    else s

-- The contiguous prefix, and the stream without it.
unfoldable pub take_contiguous : TlsTcpStream → TlsTcpStream × List ℕ
take_contiguous s =
    let contiguous = count_present s.present in
    if contiguous == 0 then (s, []) else (
      record {
        next_seq = wrapping_add32 s.next_seq (contiguous % u32_mod);
        bytes = drop contiguous s.bytes;
        present = drop contiguous s.present;
      },
      take contiguous s.bytes,
    )

-- `feed` once the payload's part before the consumed edge is cut off.
unfoldable pub feed_at : TlsTcpStream → ℕ → List ℕ → TlsTcpStream × Result TlsStreamError (List ℕ)
unfolding grow_to take_contiguous
feed_at s offset payload =
    let end = offset + length payload in
    if ltb u64_max end
    then (s, err reorder_window_exceeded)
    else if ltb tls_reorder_window_bytes end
    then (if offset == 0 && length s.bytes == 0
        then (
          record s { next_seq = wrapping_add32 s.next_seq (length payload % u32_mod) },
          ok payload,
        )
        else (s, err reorder_window_exceeded))
    else let (s', conflict) = write_slots offset payload (grow_to end s) in
      if conflict
      then (s', err conflicting_overlap)
      else let (s'', out) = take_contiguous s' in (s'', ok out)

-- `relative` is negative from 2 ^ 31 on.
unfoldable pub feed : TlsTcpStream → ℕ → List ℕ → TlsTcpStream × Result TlsStreamError (List ℕ)
feed s seq [] = (s, ok [])
feed s seq (b ∷ bs) =
    let payload : List ℕ = b ∷ bs in
    let relative = wrapping_sub32 seq s.next_seq in
    let overlap = u32_mod - relative in
    if leb (2 ^ 31) relative
    then (if leb (length payload) overlap then (s, ok []) else feed_at s 0 (drop overlap payload))
    else feed_at s relative payload

abbrev pub any_zero : List ℕ → Bool
any_zero [] = false
any_zero (p ∷ ps) = p == 0 || any_zero ps

abbrev pub any_set : List ℕ → Bool
any_set [] = false
any_set (p ∷ ps) = not (p == 0) || any_set ps

-- `present.contains(&0) && present.iter().any(|&present| present != 0)`.
pub has_pending_gap : TlsTcpStream → Bool
has_pending_gap s = any_zero s.present && any_set s.present
