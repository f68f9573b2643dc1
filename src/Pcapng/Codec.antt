-- ===== src/Pcapng/Codec.antt =====
-- The numbers of capture-agent/src/pcapng.rs: byte orders, padding, constants and link types.
use network_monitor.Base.{
  ℕ, zero, suc, ◌+◌, ◌*◌, ◌/◌, ◌%◌, Option, none, some, List, [], ◌∷◌, ◌==◌, if◌then◌else◌, take,
  drop, string_eq,
}

abbrev pub bt_section_header : ℕ
bt_section_header = 0x0A0D0D0A

abbrev pub bt_interface_description : ℕ
bt_interface_description = 1

abbrev pub bt_enhanced_packet : ℕ
bt_enhanced_packet = 6

abbrev pub bt_interface_statistics : ℕ
bt_interface_statistics = 5

abbrev pub byte_order_magic : ℕ
byte_order_magic = 0x1A2B3C4D

abbrev pub max_block_len : ℕ
max_block_len = 16 * 1024 * 1024

-- `(n + 3) & !3`.
abbrev pub pad4 : ℕ → ℕ
pad4 n = (n + 3) / 4 * 4

-- `to_le_bytes` of an integer of so many bytes.
abbrev pub to_le : ℕ → ℕ → List ℕ
to_le zero v = []
to_le (suc n) v = v % 256 ∷ to_le n (v / 256)

-- `from_le_bytes` and `from_be_bytes`.
abbrev pub from_le : List ℕ → ℕ
from_le [] = 0
from_le (b ∷ bs) = b + 256 * from_le bs

abbrev pub from_be_on : ℕ → List ℕ → ℕ
from_be_on high [] = high
from_be_on high (b ∷ bs) = from_be_on (256 * high + b) bs

pub data ByteOrder : Type 0 where
  little big : ByteOrder

-- `ByteOrder::u16`, `u32` and `i64`, by the bytes they are given; `i64` is taken without its sign.
abbrev pub number : ByteOrder → List ℕ → ℕ
number little bytes = from_le bytes
number big bytes = from_be_on 0 bytes

-- A field of a body: `len` bytes from `at` on.
abbrev pub field : ByteOrder → ℕ → ℕ → List ℕ → ℕ
field order at len body = number order (take len (drop at body))

-- `io::ErrorKind` of what the reader returns.
pub data ReadError : Type 0 where
  unexpected_eof invalid_data unsupported : ReadError

-- `parse::LinkType`.
pub data LinkType : Type 0 where
  ethernet null_loopback raw : LinkType

unfoldable pub pcapng_linktype : LinkType → ℕ
pcapng_linktype ethernet = 1
pcapng_linktype null_loopback = 0
pcapng_linktype raw = 101

unfoldable pub linktype_from_pcapng : ℕ → Option LinkType
linktype_from_pcapng value =
    if value == 1
    then some ethernet
    else if value == 0
    then some null_loopback
    else if value == 101
    then some raw
    else none

pub data Direction : Type 0 where
  inbound outbound unknown : Direction

unfoldable pub epb_flags_bits : Direction → ℕ
epb_flags_bits unknown = 0
epb_flags_bits inbound = 1
epb_flags_bits outbound = 2

-- The two low bits of `epb_flags`.
unfoldable pub direction_of : ℕ → Direction
direction_of flags =
    if flags % 4 == 1 then inbound else if flags % 4 == 2 then outbound else unknown
