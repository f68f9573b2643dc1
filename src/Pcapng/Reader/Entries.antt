-- ===== src/Pcapng/Reader/Entries.antt =====
-- Interfaces and packets as capture-agent/src/pcapng.rs reads them from a block's body.
use network_monitor.Base.{
  ℕ, ◌+◌, ◌-◌, ◌*◌, ◌/◌, ◌%◌, ◌^◌, Bool, true, false, Option, none, some, List, [], ◌∷◌, ltb, ◌==◌,
  if◌then◌else◌, length, get_or, take, drop, u32_mod, u64_max, string_eq,
}
use network_monitor.Base.Results.{Result, ok, err, ◌>>=◌}
use network_monitor.Pcapng.Codec.{
  ByteOrder, number, field, ReadError, invalid_data, unsupported, pad4, LinkType,
  linktype_from_pcapng, Direction, unknown, direction_of,
}
use network_monitor.Pcapng.Reader.Blocks.{options}

abbrev pub default_tsresol : ℕ
default_tsresol = 6

pub record StoredInterface : Type 0 where
  pub linktype_raw : ℕ
  pub interface_name : Option (List ℕ)
  pub snaplen : ℕ
  pub timestamp_resolution : ℕ

pub record ParsedInterface : Type 0 where
  pub interface_name : Option (List ℕ)
  pub link_type : LinkType
  pub snaplen : ℕ
  pub timestamp_resolution : ℕ

-- `supported`, by the link type that was looked up.
unfoldable pub supported_as : Option LinkType → StoredInterface → Result ReadError ParsedInterface
supported_as none entry = err unsupported
supported_as (some link_type) entry = ok (record {
  interface_name = entry.interface_name;
  link_type = link_type;
  snaplen = entry.snaplen;
  timestamp_resolution = entry.timestamp_resolution;
})

unfoldable pub supported : StoredInterface → Result ReadError ParsedInterface
supported entry = supported_as (linktype_from_pcapng entry.linktype_raw) entry

-- What the options of an interface say: its name, its resolution, and whether that was malformed.
abbrev pub InterfaceOptions : Type 0
InterfaceOptions = Option (List ℕ) × ℕ × Bool

unfoldable pub interface_option :
    (List ℕ → List ℕ) → ℕ × List ℕ → InterfaceOptions → InterfaceOptions
interface_option lossy (code, value) (name, resolution, malformed) =
    if code == 2
    then (some (lossy value), resolution, malformed)
    else if code == 9
    then (if length value == 1
        then (name, get_or value 0 0, malformed)
        else (name, resolution, true))
    else (name, resolution, malformed)

unfoldable pub interface_options :
    (List ℕ → List ℕ) → List (ℕ × List ℕ) → InterfaceOptions → InterfaceOptions
interface_options lossy [] found = found
interface_options lossy (o ∷ os) found = interface_options lossy os (interface_option lossy o found)

-- The interface, by its options.
unfoldable pub stored : ℕ → ℕ → InterfaceOptions → Result ReadError StoredInterface
stored linktype_raw snaplen (name, resolution, malformed) =
    if malformed
    then err invalid_data
    else ok (record {
      linktype_raw = linktype_raw;
      interface_name = name;
      snaplen = snaplen;
      timestamp_resolution = resolution;
    })

-- `parse_ordered_interface`.
unfoldable pub parse_interface :
    (List ℕ → List ℕ) → ByteOrder → List ℕ → Result ReadError StoredInterface
parse_interface lossy order body =
    if ltb (length body) 8
    then err invalid_data
    else (options (length body) order (drop 8 body) >>= λ os.
        stored (field order 0 2 body) (field order 4 4 body)
          (interface_options lossy os (none, default_tsresol, false)))

pub record ParsedPacket : Type 0 where
  pub link_type : LinkType
  pub timestamp : ℕ
  pub direction : Direction
  pub original_len : ℕ
  pub frame : List ℕ

-- `checked_pow` of `u128`: the base and exponent of a resolution, `none` above `u128::MAX`.
abbrev pub units_per_second : ℕ → Option ℕ
units_per_second tsresol =
    let exponent = tsresol % 128 in
    if ltb tsresol 128
    then (if ltb exponent 39 then some (10 ^ exponent) else none)
    else some (2 ^ exponent)

-- The nanoseconds since 1970, which are `u64`.
unfoldable pub nanos_of : ℕ → Option ℕ → Result ReadError ℕ
nanos_of counter none = err invalid_data
nanos_of counter (some units) =
    let nanos = counter * 1000000000 / units in
    if ltb u64_max nanos then err invalid_data else ok nanos

unfoldable pub epb_timestamp : ℕ → ℕ → Result ReadError ℕ
epb_timestamp counter tsresol = nanos_of counter (units_per_second tsresol)

-- The last `epb_flags` option of four bytes, and whether one was of another length.
unfoldable pub flags_options : ByteOrder → List (ℕ × List ℕ) → Direction × Bool → Direction × Bool
flags_options order [] found = found
flags_options order ((code, value) ∷ os) (direction, malformed) = flags_options order os (
    if code == 2
    then (if length value == 4
        then (direction_of (number order value), malformed)
        else (direction, true))
    else (direction, malformed))

-- The packet, by its options.
unfoldable pub finished :
    LinkType → ℕ → ℕ → List ℕ → Direction × Bool → Result ReadError ParsedPacket
finished link_type timestamp original_len frame (direction, malformed) =
    if malformed
    then err invalid_data
    else ok (record {
      link_type = link_type;
      timestamp = timestamp;
      direction = direction;
      original_len = original_len;
      frame = frame;
    })

-- `parse_ordered_packet`.
unfoldable pub parse_packet : ByteOrder → ℕ → LinkType → List ℕ → Result ReadError ParsedPacket
parse_packet order tsresol link_type body =
    let cap_len = field order 12 4 body in
    if ltb (length body) 20
    then err invalid_data
    else if ltb (length body - 20) cap_len
    then err invalid_data
    else if ltb (length body) (20 + pad4 cap_len)
    then err invalid_data
    else (epb_timestamp (field order 4 4 body * u32_mod + field order 8 4 body) tsresol
        >>= λ timestamp.
            (options (length body) order (drop (20 + pad4 cap_len) body) >>= λ os.
            finished link_type timestamp (field order 16 4 body) (take cap_len (drop 20 body))
              (flags_options order os (unknown, false))))
