-- ===== src/Pcapng/RoundTrip/Framing.antt =====
-- Options and blocks of capture-agent/src/pcapng.rs, read back.
use network_monitor.Base.{
  same_bytes, same_bytes_iff, ℕ, zero, suc, ◌+◌, ◌-◌, ◌%◌, ◌≤◌, ◌<◌, ◌≡◌, refl, sym, ap, ◌∙◌, ◌≢◌,
  inl, inr, true, false, Option, some, List, [], ◌∷◌, ◌++◌, arith, ◌==◌, le→ltb, ==_iff, Bool-cases,
  length, take, drop, replicate, length-append, length-replicate, append_assoc, u32_mod, string_eq,
}
use network_monitor.Base.Results.{ok}
use network_monitor.Pcapng.Codec.{
  byte_order_magic, bt_section_header, max_block_len, pad4, to_le, from_le, ByteOrder, little,
  number, field,
}
use network_monitor.Pcapng.Writer.{option_bytes, end_of_opt, block_bytes}
use network_monitor.Pcapng.Reader.Blocks.{
  read_exact_or_eof, read_exact, order_of_magic, order_of_section, is_block_len, read_body,
  read_after_header, read_section_block, with_option, options,
}

pub take_here : (xs ys : List ℕ) (n : ℕ) → n ≡ length xs → take n (xs ++ ys) ≡ xs
take_here [] ys zero e = refl
take_here [] ys (suc n) e = absurd (omega arith)
take_here (x ∷ xs) ys zero e = absurd (omega arith)
take_here (x ∷ xs) ys (suc n) e = ap (λ t. x ∷ t) (take_here xs ys n (omega arith))

pub drop_here : (xs ys : List ℕ) (n : ℕ) → n ≡ length xs → drop n (xs ++ ys) ≡ ys
drop_here [] ys zero e = refl
drop_here [] ys (suc n) e = absurd (omega arith)
drop_here (x ∷ xs) ys zero e = absurd (omega arith)
drop_here (x ∷ xs) ys (suc n) e = drop_here xs ys n (omega arith)

pub from_le-to_le2 : (v : ℕ) → v < 65536 → from_le (to_le 2 v) ≡ v
from_le-to_le2 v h = omega arith

pub from_le-to_le4 : (v : ℕ) → v < u32_mod → from_le (to_le 4 v) ≡ v
from_le-to_le4 v h = omega arith

-- A round of the option loop over an option that is there in full.
options_step :
    (fuel : ℕ) (body : List ℕ) (code len : ℕ)
    → field little 0 2 body ≡ code
    → field little 2 2 body ≡ len
    → code ≢ 0
    → 4 + pad4 len ≤ length body
    → options (suc fuel) little body
      ≡ with_option (code, take len (drop 4 body)) (options fuel little (drop (4 + pad4 len) body))
unfolding options
options_step fuel body code len c l nz h =
    let some_bytes : (length body == 0) ≡ false = ground (arith, h) in
    let kind : (code == 0) ≡ false = ground (arith, nz) in
    rw (some_bytes, le→ltb (length body) 4 (omega arith), c, l)
      (rw (kind, le→ltb (length body) (4 + pad4 len) h) refl)

drop_nothing : (n : ℕ) → drop {A = ℕ} n [] ≡ []
drop_nothing zero = refl
drop_nothing (suc n) = refl

drop_add : (m n : ℕ) (xs : List ℕ) → drop (m + n) xs ≡ drop n (drop m xs)
drop_add zero n xs = ap (λ k. drop k xs) (omega arith)
drop_add (suc m) n [] = drop_nothing (suc m + n) ∙ sym (drop_nothing n)
drop_add (suc m) n (x ∷ xs) =
    let e : suc m + n ≡ suc (m + n) = omega arith in ap (λ k. drop k (x ∷ xs)) e ∙ drop_add m n xs

-- A number of bytes and the padding behind it.
abbrev pub padded : List ℕ → List ℕ
padded value = value ++ replicate (pad4 (length value) - length value) 0

pub length-padded : (value : List ℕ) → length (padded value) ≡ pad4 (length value)
length-padded value =
    let zeros : List ℕ = replicate (pad4 (length value) - length value) 0 in
    let size : length zeros ≡ pad4 (length value) - length value = length-replicate _ _ in
    omega (arith, length-append value zeros, size)

pub take-padded : (value rest : List ℕ) → take (length value) (padded value ++ rest) ≡ value
take-padded value rest =
    ap (take (length value))
      (append_assoc value (replicate (pad4 (length value) - length value) 0) rest)
    ∙ take_here value _ (length value) refl

pub drop-padded :
    (n : ℕ) (front value rest : List ℕ)
    → n ≡ length front
    → drop (n + pad4 (length value)) (front ++ (padded value ++ rest)) ≡ rest
drop-padded n front value rest e =
    drop_add n (pad4 (length value)) (front ++ (padded value ++ rest))
    ∙ (ap (drop (pad4 (length value))) (drop_here front (padded value ++ rest) n e)
        ∙ drop_here (padded value) rest (pad4 (length value)) (sym (length-padded value)))

pub options-option_bytes :
    (fuel code : ℕ) (value rest : List ℕ)
    → code ≢ 0
    → code < 65536
    → length value < 65536
    → options (suc fuel) little (option_bytes code value ++ rest)
      ≡ with_option (code, value) (options fuel little rest)
unfolding option_bytes
options-option_bytes fuel code value rest nz hc hv =
    let body = option_bytes code value ++ rest in
    let len = length value in
    let tail = padded value ++ rest in
    let own_len : field little 2 2 body ≡ len =
      from_le-to_le2 (len % 65536) (omega arith) ∙ omega arith in
    let size = length-append (padded value) rest in
    let step =
      options_step fuel body code len (from_le-to_le2 code hc) own_len nz
        (omega (arith, size, length-padded value)) in
    let taken : take len tail ≡ value = take-padded value rest in
    let left : drop (4 + pad4 len) body ≡ rest =
      drop-padded 4 (to_le 2 code ++ to_le 2 (len % 65536)) value rest refl in
    step
    ∙ (ap (λ v. with_option (code, v) (options fuel little (drop (4 + pad4 len) body))) taken
        ∙ ap (λ b. with_option (code, value) (options fuel little b)) left)

-- The options of a block, closed by the end marker.
abbrev pub option_list : List (ℕ × List ℕ) → List ℕ
option_list [] = end_of_opt
option_list ((code, value) ∷ os) = option_bytes code value ++ option_list os

abbrev pub AreOptions : List (ℕ × List ℕ) → Type 0
AreOptions [] = Unit
AreOptions ((code, value) ∷ os) =
    (code ≢ 0) × (code < 65536) × (length value < 65536) × AreOptions os

pub options-option_list :
    (fuel : ℕ) (os : List (ℕ × List ℕ))
    → length os < fuel
    → AreOptions os
    → options fuel little (option_list os) ≡ ok os
unfolding options
options-option_list zero os h v = absurd (omega arith)
options-option_list (suc fuel) [] h v = refl
options-option_list (suc fuel) ((code, value) ∷ os) h v =
    options-option_bytes fuel code value (option_list os) v.0 v.1 v.2
    ∙ ap (with_option (code, value)) (options-option_list fuel os (omega arith) v.3)

pub length-option_bytes :
    (code : ℕ) (value : List ℕ) → length (option_bytes code value) ≡ 4 + pad4 (length value)
unfolding option_bytes
length-option_bytes code value = omega (arith, length-padded value)

read_exact-append :
    (n : ℕ) (front rest : List ℕ)
    → n ≡ length front
    → read_exact n (front ++ rest) ≡ ok (front, rest)
unfolding read_exact
read_exact-append n front rest e =
    rw
      (
        le→ltb (length (front ++ rest)) n (omega (arith, length-append front rest)),
        take_here front rest n e,
        drop_here front rest n e,
      )
      refl

read_exact_or_eof-append :
    (n : ℕ) (front rest : List ℕ)
    → n ≡ length front
    → n ≢ 0
    → read_exact_or_eof n (front ++ rest) ≡ ok (some (front, rest))
unfolding read_exact_or_eof
read_exact_or_eof-append n front rest e nz =
    let more : (length (front ++ rest) == 0) ≡ false =
      ground (arith, length-append front rest, e, nz) in
    rw
      (
        more,
        le→ltb (length (front ++ rest)) n (omega (arith, length-append front rest)),
        take_here front rest n e,
        drop_here front rest n e,
      )
      refl

-- The type and length of a block.
abbrev pub header_bytes : ℕ → ℕ → List ℕ
header_bytes block_type total_len = to_le 4 block_type ++ to_le 4 total_len

-- The reads of a block's body, one after the other.
read_body_step :
    (order : ByteOrder) (header front input back input' trailer rest : List ℕ)
    (minimum total_len kind : ℕ)
    → field order 4 4 header ≡ total_len
    → field order 0 4 header ≡ kind
    → is_block_len minimum total_len ≡ true
    → read_exact (total_len - 12 - length front) input ≡ ok (back, input')
    → read_exact 4 input' ≡ ok (trailer, rest)
    → number order trailer ≡ total_len
    → read_body order header minimum front input ≡ ok (some ((kind, front ++ back), (order, rest)))
unfolding read_body
read_body_step order header front input back input' trailer rest minimum total_len kind l k v a b
      t =
    let same : (number order trailer == total_len) ≡ true = (==_iff _ _).1 t in
    rw (l, v, a) (rw b (rw (same, k) refl))

-- A block's body, when its first bytes were read already.
read_body-back :
    (block_type total_len minimum : ℕ) (front back rest : List ℕ)
    → block_type < u32_mod
    → total_len ≡ 12 + length (front ++ back)
    → minimum ≤ total_len
    → total_len ≤ max_block_len
    → total_len % 4 ≡ 0
    → read_body little
        (header_bytes block_type total_len)
        minimum
        front
        (back ++ (to_le 4 total_len ++ rest))
      ≡ ok (some ((block_type, front ++ back), (little, rest)))
read_body-back block_type total_len minimum front back rest ht hl hm hx h4 =
    read_body_step little (header_bytes block_type total_len) front _ back
      (to_le 4 total_len ++ rest) (to_le 4 total_len) rest minimum total_len block_type
      (from_le-to_le4 total_len (omega arith)) (from_le-to_le4 block_type ht)
      (ground (arith, hm, hx, h4))
      (read_exact-append (total_len - 12 - length front) back (to_le 4 total_len ++ rest)
        (omega (arith, hl, length-append front back)))
      (read_exact-append 4 (to_le 4 total_len) rest refl) (from_le-to_le4 total_len (omega arith))

-- A body that a block can hold.
pub record IsBody (body : List ℕ) : Type 0 where
  pub aligned : length body % 4 ≡ 0
  pub fits : 12 + length body ≤ max_block_len

-- What is written as a block.
pub framed :
    (block_type : ℕ) (body rest : List ℕ)
    → IsBody body
    → block_bytes block_type body ++ rest
      ≡ header_bytes block_type (12 + length body) ++ (body ++ (to_le 4 (12 + length body) ++ rest))
unfolding block_bytes
framed block_type body rest v =
    let len : (12 + length body) % u32_mod ≡ 12 + length body = omega (arith, v.fits) in
    rw len (
      ap (λ t. header_bytes block_type (12 + length body) ++ t)
        (append_assoc body (to_le 4 (12 + length body)) rest))

pub other_type :
    (block_type : ℕ)
    → block_type < u32_mod
    → block_type ≢ bt_section_header
    → same_bytes (to_le 4 block_type) (to_le 4 bt_section_header) ≡ false
other_type block_type h ne =
    elim (Bool-cases (same_bytes (to_le 4 block_type) (to_le 4 bt_section_header))) [
      | inl e ↦ absurd (
          ne (
            sym (from_le-to_le4 block_type h)
            ∙ ap from_le ((same_bytes_iff (to_le 4 block_type) (to_le 4 bt_section_header)).0 e)))
      | inr e ↦ e
    ]

-- A block inside a section is read back, and what is behind it stays.
pub read_section_block-block_bytes :
    (block_type : ℕ) (body rest : List ℕ)
    → block_type < u32_mod
    → block_type ≢ bt_section_header
    → IsBody body
    → read_section_block (some little) (block_bytes block_type body ++ rest)
      ≡ ok (some ((block_type, body), (little, rest)))
unfolding read_section_block read_after_header order_of_section
read_section_block-block_bytes block_type body rest h ne v =
    let total_len = 12 + length body in
    let input = body ++ (to_le 4 total_len ++ rest) in
    let header =
      read_exact_or_eof-append 8 (header_bytes block_type total_len) input refl
        (λ z. omega arith) in
    rw (framed block_type body rest v, header, other_type block_type h ne)
      (read_body-back block_type total_len 12 [] body rest h refl (omega arith) v.fits
        (omega (arith, v.aligned)))

-- So is a Section Header Block, whatever the byte order was before it.
pub read_section_block-section :
    (order : Option ByteOrder) (more rest : List ℕ)
    → IsBody (to_le 4 byte_order_magic ++ more)
    → 12 ≤ length more
    → read_section_block order
        (block_bytes bt_section_header (to_le 4 byte_order_magic ++ more) ++ rest)
      ≡ ok (some ((bt_section_header, to_le 4 byte_order_magic ++ more), (little, rest)))
unfolding read_section_block read_after_header order_of_magic
read_section_block-section order more rest v h =
    let magic = to_le 4 byte_order_magic in
    let total_len = 12 + length (magic ++ more) in
    let input = more ++ (to_le 4 total_len ++ rest) in
    let header =
      read_exact_or_eof-append 8 (header_bytes bt_section_header total_len) (magic ++ input) refl
        (λ z. omega arith) in
    let first = read_exact-append 4 magic input refl in
    rw (framed bt_section_header (magic ++ more) rest v, header)
      (rw first (
        read_body-back bt_section_header total_len 28 magic more rest (omega arith) refl
          (omega (arith, h)) v.fits (omega (arith, v.aligned))))
