-- ===== src/Pcapng/RoundTrip/Truncated.antt =====
-- A file of capture-agent/src/pcapng.rs that ends inside a block.
use network_monitor.Base.{
  ℕ, ◌+◌, ◌-◌, ◌%◌, ◌≤◌, ◌<◌, ◌≡◌, refl, sym, ap, ◌∙◌, ◌≢◌, inl, inr, true, false, Option, some,
  List, [], ◌∷◌, ◌++◌, arith, ltb, ◌==◌, ltb→lt, lt→ltb, le→ltb, Bool-cases, length, take, drop,
  length-append, length-drop, take-append, append_nil, u32_mod, string_eq,
}
use network_monitor.Base.Results.{err}
use network_monitor.Pcapng.Codec.{
  bt_section_header, max_block_len, to_le, ByteOrder, little, field, unexpected_eof,
}
use network_monitor.Pcapng.Writer.{block_bytes}
use network_monitor.Pcapng.Reader.Blocks.{
  read_exact_or_eof, read_exact, order_of_section, is_block_len, read_body, read_after_header,
  read_section_block,
}
use network_monitor.Pcapng.RoundTrip.Framing.{
  header_bytes, IsBody, framed, other_type, from_le-to_le4,
}

read_exact_short :
    (n : ℕ) (input : List ℕ) → length input < n → read_exact n input ≡ err unexpected_eof
unfolding read_exact
read_exact_short n input h = rw (lt→ltb (length input) n h) refl

read_body_short :
    (order : ByteOrder) (header input : List ℕ) (minimum total_len : ℕ)
    → field order 4 4 header ≡ total_len
    → is_block_len minimum total_len ≡ true
    → 12 ≤ total_len
    → length input < total_len - 8
    → read_body order header minimum [] input ≡ err unexpected_eof
unfolding read_body read_exact
read_body_short order header input minimum total_len l v m h =
    let none_read : total_len - 12 - 0 ≡ total_len - 12 = omega arith in
    elim (Bool-cases (ltb (length input) (total_len - 12))) [
      | inl short ↦ rw (l, v) (rw none_read (rw short refl))
      | inr long ↦
          let left : length (drop (total_len - 12) input) < 4 =
            ground (arith, long, length-drop (total_len - 12) input, h) in
          rw (l, v)
            (rw none_read
              (rw long (rw (lt→ltb (length (drop (total_len - 12) input)) 4 left) refl)))
    ]

-- The header is there in full: what follows ends early.
cut_behind_header :
    (block_type total_len : ℕ) (input : List ℕ)
    → block_type < u32_mod
    → block_type ≢ bt_section_header
    → 12 ≤ total_len
    → total_len ≤ max_block_len
    → total_len % 4 ≡ 0
    → length input < total_len - 8
    → read_after_header (some little) (header_bytes block_type total_len) input ≡ err unexpected_eof
unfolding read_after_header order_of_section
cut_behind_header block_type total_len input h ne lo hi four short =
    rw (other_type block_type h ne) (
      read_body_short little (header_bytes block_type total_len) input 12 total_len
        (from_le-to_le4 total_len (omega arith)) (ground (arith, lo, hi, four)) lo short)

cut_in_header :
    (order : Option ByteOrder) (front : List ℕ)
    → length front < 8
    → length front ≢ 0
    → read_section_block order front ≡ err unexpected_eof
unfolding read_section_block read_exact_or_eof
cut_in_header order front h nz =
    let more : (length front == 0) ≡ false = ground (arith, nz) in
    rw (more, lt→ltb (length front) 8 h) refl

whole_header :
    (order : Option ByteOrder) (front : List ℕ)
    → 8 ≤ length front
    → read_section_block order front ≡ read_after_header order (take 8 front) (drop 8 front)
unfolding read_section_block read_exact_or_eof
whole_header order front h =
    let more : (length front == 0) ≡ false = ground (arith, h) in
    rw (more, le→ltb (length front) 8 h) refl

-- Inside a little-endian section, as the writer makes them, a block of any type but a Section Header
-- Block that is cut anywhere but before its first byte is refused as an unexpected end, never taken
-- for the end of the file or for a shorter block. Its body is one that the writer can write: a
-- multiple of four bytes, and within the largest block. A cut Section Header Block is not covered.
pub read_section_block_cut :
    (block_type : ℕ) (body front back : List ℕ) (x : ℕ)
    → block_type < u32_mod
    → block_type ≢ bt_section_header
    → IsBody body
    → block_bytes block_type body ≡ front ++ (x ∷ back)
    → length front ≢ 0
    → read_section_block (some little) front ≡ err unexpected_eof
read_section_block_cut block_type body front back x h ne v e nz =
    let total_len = 12 + length body in
    let written = sym (append_nil (block_bytes block_type body)) ∙ framed block_type body [] v in
    let size : length front < total_len = omega (
      arith,
      ap length e,
      ap length written,
      length-append front (x ∷ back),
      length-append body (to_le 4 total_len),
    ) in
    elim (Bool-cases (ltb (length front) 8)) [
      | inl short ↦ cut_in_header (some little) front (ltb→lt (length front) 8 short) nz
      | inr long ↦
          let eight : 8 ≤ length front = ground (arith, long) in
          let header : take 8 front ≡ header_bytes block_type total_len =
            sym (take-append 8 front (x ∷ back) eight) ∙ (ap (take 8) (sym e ∙ written)) in
          whole_header (some little) front eight
          ∙ (ap (λ b. read_after_header (some little) b (drop 8 front)) header
              ∙ cut_behind_header block_type total_len (drop 8 front) h ne (omega arith) v.fits
                  (omega (arith, v.aligned)) (omega (arith, size, length-drop 8 front, eight)))
    ]
