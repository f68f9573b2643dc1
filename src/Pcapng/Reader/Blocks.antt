-- ===== src/Pcapng/Reader/Blocks.antt =====
-- Block framing and options of capture-agent/src/pcapng.rs, as they are read.
use network_monitor.Base.{
  same_bytes, ℕ, zero, suc, ◌+◌, ◌-◌, ◌%◌, Bool, not, ◌&&◌, Option, none, some, List, [], ◌∷◌, ◌++◌,
  ltb, leb, ◌==◌, if◌then◌else◌, length, take, drop, string_eq,
}
use network_monitor.Base.Results.{Result, ok, err, ◌>>=◌}
use network_monitor.Pcapng.Codec.{
  ByteOrder, little, big, number, field, ReadError, unexpected_eof, invalid_data, bt_section_header,
  max_block_len, pad4, to_le,
}

-- `read_exact_or_eof` of so many bytes: `none` at a clean end.
unfoldable pub read_exact_or_eof : ℕ → List ℕ → Result ReadError (Option (List ℕ × List ℕ))
read_exact_or_eof n input =
    if length input == 0
    then ok none
    else if ltb (length input) n
    then err unexpected_eof
    else ok (some (take n input, drop n input))

-- `read_exact`.
unfoldable pub read_exact : ℕ → List ℕ → Result ReadError (List ℕ × List ℕ)
read_exact n input =
    if ltb (length input) n then err unexpected_eof else ok (take n input, drop n input)

unfoldable pub order_of_magic : List ℕ → Result ReadError ByteOrder
order_of_magic magic =
    if same_bytes magic (0x4d ∷ 0x3c ∷ 0x2b ∷ 0x1a ∷ [])
    then ok little
    else if same_bytes magic (0x1a ∷ 0x2b ∷ 0x3c ∷ 0x4d ∷ [])
    then ok big
    else err invalid_data

unfoldable pub order_of_section : Option ByteOrder → Result ReadError ByteOrder
order_of_section none = err invalid_data
order_of_section (some order) = ok order

-- Within the limits, and a multiple of four.
abbrev pub is_block_len : ℕ → ℕ → Bool
is_block_len minimum total_len =
    leb minimum total_len && leb total_len max_block_len && total_len % 4 == 0

abbrev pub Block : Type 0
Block = (ℕ × List ℕ) × (ByteOrder × List ℕ)

-- The rest of a block once its header and its section's byte order are known; `front` is what of the
-- body was read already.
unfoldable pub read_body :
    ByteOrder → List ℕ → ℕ → List ℕ → List ℕ → Result ReadError (Option Block)
read_body order header minimum front input =
    let total_len = field order 4 4 header in
    if not (is_block_len minimum total_len)
    then err invalid_data
    else (read_exact (total_len - 12 - length front) input >>= λ (back, input').
        (read_exact 4 input' >>= λ (trailer, rest).
        (if number order trailer == total_len
          then ok (some ((field order 0 4 header, front ++ back), (order, rest)))
          else err invalid_data)))

-- What follows a header.
unfoldable pub read_after_header :
    Option ByteOrder → List ℕ → List ℕ → Result ReadError (Option Block)
read_after_header order header input =
    if same_bytes (take 4 header) (to_le 4 bt_section_header)
    then (read_exact 4 input >>= λ (magic, input').
        (order_of_magic magic >>= λ own. read_body own header 28 magic input'))
    else (order_of_section order >>= λ own. read_body own header 12 [] input)

unfoldable pub read_section_block : Option ByteOrder → List ℕ → Result ReadError (Option Block)
read_section_block order input = read_exact_or_eof 8 input >>= λ found. elim found [
  | none ↦ ok none
  | some (header, rest) ↦ read_after_header order header rest
]

-- One option put before the others.
abbrev pub with_option :
    ℕ × List ℕ → Result ReadError (List (ℕ × List ℕ)) → Result ReadError (List (ℕ × List ℕ))
with_option o (ok os) = ok (o ∷ os)
with_option o (err e) = err e

-- `for_each_ordered_option`: the options in order, on fuel; an option takes four bytes or more.
unfoldable pub options : ℕ → ByteOrder → List ℕ → Result ReadError (List (ℕ × List ℕ))
options zero order body = if length body == 0 then ok [] else err invalid_data
options (suc fuel) order body =
    let code = field order 0 2 body in
    let len = field order 2 2 body in
    let more = options fuel order (drop (4 + pad4 len) body) in
    if length body == 0
    then ok []
    else if ltb (length body) 4
    then err invalid_data
    else if code == 0
    then (if len == 0 then ok [] else err invalid_data)
    else if ltb (length body) (4 + pad4 len)
    then err invalid_data
    else with_option (code, take len (drop 4 body)) more
