-- ===== src/Pcapng/Reader.antt =====
-- The section-aware reader of capture-agent/src/pcapng.rs. A stream is the bytes that are still to
-- be read; after an error the reader is not used again.
pub mod Blocks
pub mod Entries
pub mod Bounds
use network_monitor.Base.{
  same_bytes, same_bytes_iff, ℕ, zero, suc, ◌+◌, ◌-◌, ◌*◌, ◌/◌, ◌%◌, ◌^◌, ◌≤◌, ◌<◌, min, max, ◌≡◌,
  refl, sym, ap, ◌∙◌, subst, ◌≢◌, ◌↔◌, ◌⊎◌, inl, inr, Bool, true, false, not, ◌&&◌, ◌||◌, Option,
  none, some, List, [], ◌∷◌, ◌++◌, map, arith, ltb, leb, ◌==◌, if◌then◌else◌, is_some, ltb→lt,
  lt→ltb, le→ltb, leb→le, le→leb, gt→leb, ==_iff, tests, Bool-cases, Option-cases, length,
  get_or-drop, get_elem?, get_or, set, take, drop, replicate, resize, length-append, length-set,
  length-take, length-drop, length-replicate, length-resize, take-append-drop, get_or-resize,
  get_or-set_self, get_or-set_ne, get_or_beyond, get_or-take, get_or_ext, get_or-append,
  get_or-append_right, drop-append, take-append, append_assoc, append_nil, u32_mod, u64_max,
  wrapping_add32, wrapping_sub32, saturating_add, add64, Eq, string_eq, beq_refl, Table, measure_of,
  lookup, contains_key, insert, remove, total, AllValues, total-remove, total-insert, length-remove,
  length-insert, lookup-AllValues, remove-AllValues, insert-AllValues, lookup-insert,
  lookup-remove_ne, remove-insert_fresh, remove-insert_ne, remove-remove_ne,
}
use network_monitor.Base.Results.{Result, ok, err, ◌>>=◌}
use network_monitor.Pcapng.Codec.{
  ByteOrder, little, number, field, ReadError, unexpected_eof, invalid_data, unsupported,
  bt_section_header, bt_interface_description, bt_enhanced_packet, LinkType, linktype_from_pcapng,
}
use Blocks.{read_section_block, options}
use Entries.{
  StoredInterface, ParsedInterface, ParsedPacket, supported, parse_interface, parse_packet,
}

abbrev pub max_interfaces : ℕ
max_interfaces = 4096

abbrev pub max_interface_name_bytes : ℕ
max_interface_name_bytes = 16 * 1024 * 1024

pub record Reader : Type 0 where
  pub input : List ℕ
  pub order : Option ByteOrder
  pub supported_section : Bool
  pub interfaces : List StoredInterface
  pub interface_name_bytes : ℕ

-- A section length is -1, or not negative and a multiple of four.
abbrev pub is_section_length : ℕ → Bool
is_section_length n = n == 2 ^ 64 - 1 || (ltb n (2 ^ 63) && n % 4 == 0)

-- The order is set by the time that this is called: `self.order.unwrap()`.
unfoldable pub start_section : Reader → ByteOrder → List ℕ → Result ReadError Reader
start_section r order body =
    let major = field order 4 2 body in
    let minor = field order 6 2 body in
    let known = major == 1 && (minor == 0 || minor == 2) in
    let r' : Reader = record r {
      supported_section = known;
      interfaces = [];
      interface_name_bytes = 0;
    } in
    if not known
    then ok r'
    else if not (is_section_length (field order 8 8 body))
    then err invalid_data
    else (options (length body) order (drop 16 body) >>= λ opts. ok r')

abbrev pub name_bytes : Option (List ℕ) → ℕ
name_bytes none = 0
name_bytes (some name) = length name

-- The reader's text decoding, `String::from_utf8_lossy`, is a parameter.
module _ (from_utf8_lossy : List ℕ → List ℕ) where
  unfoldable pub add_interface : Reader → ByteOrder → List ℕ → Result ReadError Reader
  add_interface r order body =
      if leb max_interfaces (length r.interfaces)
      then err invalid_data
      else (parse_interface from_utf8_lossy order body >>= λ entry.
          (let bytes = name_bytes entry.interface_name in
            if ltb (max_interface_name_bytes - r.interface_name_bytes) bytes
            then err invalid_data
            else ok (record r {
              interface_name_bytes = r.interface_name_bytes + bytes;
              interfaces = r.interfaces ++ (entry ∷ []);
            })))

  -- `decode_packet` with the link type, and with the interface, that was looked up.
  unfoldable pub decode_linked :
      Option LinkType → StoredInterface → ByteOrder → List ℕ → Result ReadError ParsedPacket
  decode_linked none entry order body = err unsupported
  decode_linked (some link_type) entry order body =
      parse_packet order entry.timestamp_resolution link_type body

  unfoldable pub decode_with :
      Option StoredInterface → ByteOrder → List ℕ → Result ReadError ParsedPacket
  decode_with none order body = err invalid_data
  decode_with (some entry) order body =
      decode_linked (linktype_from_pcapng entry.linktype_raw) entry order body

  unfoldable pub decode_packet : Reader → ByteOrder → List ℕ → Result ReadError ParsedPacket
  decode_packet r order body =
      if ltb (length body) 20
      then err invalid_data
      else decode_with (get_elem? r.interfaces (field order 0 4 body)) order body

  -- What one block does to the reader; a packet block gives a packet.
  unfoldable pub take_block :
      Reader → ByteOrder → ℕ → List ℕ → Result ReadError (Reader × Option ParsedPacket)
  take_block r order kind body =
      if kind == bt_section_header
      then (start_section r order body >>= λ r'. ok (r', none))
      else if not r.supported_section
      then ok (r, none)
      else if kind == bt_interface_description
      then (add_interface r order body >>= λ r'. ok (r', none))
      else if kind == bt_enhanced_packet
      then (decode_packet r order body >>= λ packet. ok (r, some packet))
      else if kind == 2 || kind == 3
      then err unsupported
      else ok (r, none)

  -- The loop of `next_packet`, on fuel; a block takes twelve bytes or more.
  unfoldable pub next_from : ℕ → Reader → Result ReadError (Reader × Option ParsedPacket)
  next_from zero r = ok (r, none)
  next_from (suc fuel) r = read_section_block r.order r.input >>= λ block. elim block [
    | none ↦ ok (r, none)
    | some ((kind, body), (order, rest)) ↦
        take_block (record r { input = rest; order = some order }) order kind body
        >>= λ (r', packet). elim packet [ some p ↦ ok (r', some p) | none ↦ next_from fuel r' ]
  ]

  unfoldable pub next_packet : Reader → Result ReadError (Reader × Option ParsedPacket)
  next_packet r = next_from (suc (length r.input)) r

  abbrev pub accepted : Result ReadError ParsedInterface → Option ParsedInterface
  accepted (ok interface) = some interface
  accepted (err e) = none

  -- The last interface, if its link type is known.
  abbrev pub last_supported : List StoredInterface → Option ParsedInterface
  last_supported [] = none
  last_supported (entry ∷ []) = accepted (supported entry)
  last_supported (entry ∷ next ∷ more) = last_supported (next ∷ more)

  -- The loop of `new` stops at a supported interface and goes on otherwise.
  abbrev pub stop_or_go :
      Option ParsedInterface
      → Reader
      → Result ReadError (Reader × ParsedInterface)
      → Result ReadError (Reader × ParsedInterface)
  stop_or_go none r more = more
  stop_or_go (some interface) r more = ok (r, interface)

  -- The loop of `new`, on fuel: it stops behind the first Interface Description Block of a known link
  -- type; a packet before that is decoded, for its errors alone.
  unfoldable pub open_from : ℕ → Reader → Result ReadError (Reader × ParsedInterface)
  open_from zero r = err unexpected_eof
  open_from (suc fuel) r = read_section_block r.order r.input >>= λ block. elim block [
    | none ↦ err unexpected_eof
    | some ((kind, body), (order, rest)) ↦
        take_block (record r { input = rest; order = some order }) order kind body
        >>= λ (r', packet).
            stop_or_go
              (if r.supported_section && kind == bt_interface_description
                then last_supported r'.interfaces
                else none)
              r' (open_from fuel r')
  ]

  -- `Reader::new`.
  unfoldable pub open_reader : List ℕ → Result ReadError (Reader × ParsedInterface)
  open_reader input = open_from (suc (length input)) (record {
    input = input;
    order = none;
    supported_section = false;
    interfaces = [];
    interface_name_bytes = 0;
  })
