-- ===== src/Reassembly/DnsFraming/Walk.antt =====
-- `looks_like_dns_tcp_start` and `dns_tcp_walk` of capture-agent/src/reassembly.rs.
use network_monitor.Base.{
  ℕ, zero, suc, ◌+◌, ◌*◌, ◌/◌, ◌%◌, Bool, false, not, ◌&&◌, ◌||◌, Option, none, some, List, ◌∷◌,
  ltb, leb, ◌==◌, if◌then◌else◌, length, get_elem?, get_or, take, drop, u32_mod, wrapping_add32,
  string_eq,
}

abbrev pub be16 : List ℕ → ℕ → ℕ
be16 bytes at = 256 * get_or bytes at 0 + get_or bytes (at + 1) 0

-- `matches!(opcode, 0 | 1 | 2 | 4 | 5 | 6)`.
abbrev pub is_assigned : ℕ → Bool
is_assigned opcode = leb opcode 6 && not (opcode == 3)

-- The tests on a header and the declared length.
abbrev pub is_plausible : List ℕ → ℕ → Bool
is_plausible header declared =
    let high = get_or header 2 0 in
    let low = get_or header 3 0 in
    let rcode = low % 16 in
    let least_bytes =
      12 + 5 * be16 header 4 + 11 * (be16 header 6 + be16 header 8 + be16 header 10) in
    is_assigned (high / 8 % 16)
    && low / 64 % 2 == 0
    && leb rcode 11
    && (high / 128 % 2 == 1 || (rcode == 0 && leb (be16 header 4) 1))
    && leb least_bytes declared

unfoldable pub looks_like_dns_tcp_start : List ℕ → Bool
looks_like_dns_tcp_start bytes =
    if ltb (length bytes) 14 then false else is_plausible (take 12 (drop 2 bytes)) (be16 bytes 0)

-- The byte carried over, then the bytes.
abbrev pub with_carry : Option ℕ → List ℕ → List ℕ
with_carry none bytes = bytes
with_carry (some high) bytes = high ∷ bytes

-- The loop from `pos` on; a round takes two bytes or more, so fuel for each byte is enough.
unfoldable pub walk_from : ℕ → List ℕ → ℕ → ℕ → Option (ℕ × Option ℕ)
walk_from zero bytes base_seq pos = some (wrapping_add32 base_seq (pos % u32_mod), none)
walk_from (suc fuel) bytes base_seq pos =
    let declared = be16 bytes pos in
    let later = walk_from fuel bytes base_seq (pos + (2 + declared)) in
    if leb (length bytes) pos
    then some (wrapping_add32 base_seq (pos % u32_mod), none)
    else if leb (length bytes) (pos + 1)
    then some (wrapping_add32 base_seq ((pos + 1) % u32_mod), get_elem? bytes pos)
    else if ltb declared 12
    then (if pos == 0 then none else some (wrapping_add32 base_seq (pos % u32_mod), none))
    else later

-- Whether the first message shows a response, or too little for that of a stream that continues.
abbrev pub shows_response : List ℕ → Bool → Bool
shows_response bytes continuing = elim (get_elem? bytes 4) [
  | none ↦ continuing
  | some flags ↦ flags / 128 % 2 == 1
]

unfoldable pub dns_tcp_walk : List ℕ → ℕ → Option ℕ → Bool → Bool → Option (ℕ × Option ℕ)
dns_tcp_walk bytes base_seq carry response_only continuing =
    let all = with_carry carry bytes in
    if response_only && not (shows_response all continuing)
    then none
    else walk_from (length all) all base_seq 0
