-- ===== src/Pcapng/Writer.antt =====
-- The blocks that capture-agent/src/pcapng.rs writes. A sink takes every byte; what an operating
-- system does to a file beyond that is left out.
use network_monitor.Base.{
  ℕ, ◌+◌, ◌-◌, ◌/◌, ◌%◌, ◌^◌, List, [], ◌∷◌, ◌++◌, length, replicate, u32_mod, add64, string_eq,
}
use network_monitor.Pcapng.Codec.{
  bt_section_header, bt_interface_description, bt_enhanced_packet, bt_interface_statistics,
  byte_order_magic, pad4, to_le, LinkType, pcapng_linktype, Direction, epb_flags_bits,
}

-- `write_option`.
unfoldable pub option_bytes : ℕ → List ℕ → List ℕ
option_bytes code value =
    to_le 2 code
    ++ (to_le 2 (length value % 65536)
        ++ (value ++ replicate (pad4 (length value) - length value) 0))

-- `write_end_of_opt`.
abbrev pub end_of_opt : List ℕ
end_of_opt = 0 ∷ 0 ∷ 0 ∷ 0 ∷ []

-- `write_block`.
unfoldable pub block_bytes : ℕ → List ℕ → List ℕ
block_bytes block_type body =
    let total_len = (12 + length body) % u32_mod in
    to_le 4 block_type ++ (to_le 4 total_len ++ (body ++ to_le 4 total_len))

pub record SectionHeaderBlock : Type 0 where
  pub hostname : List ℕ
  pub agent_version : List ℕ

-- `capture-agent/{} on {}`.
abbrev pub userappl : SectionHeaderBlock → List ℕ
userappl shb =
    (99 ∷ 97 ∷ 112 ∷ 116 ∷ 117 ∷ 114 ∷ 101 ∷ 45 ∷ 97 ∷ 103 ∷ 101 ∷ 110 ∷ 116 ∷ 47 ∷ [])
    ++ (shb.agent_version ++ ((32 ∷ 111 ∷ 110 ∷ 32 ∷ []) ++ shb.hostname))

-- Magic, version 1.0, and a section length of -1; then the options.
unfoldable pub section_body : SectionHeaderBlock → List ℕ
section_body shb =
    to_le 4 byte_order_magic
    ++ (to_le 2 1
        ++ (to_le 2 0 ++ (to_le 8 (2 ^ 64 - 1) ++ (option_bytes 4 (userappl shb) ++ end_of_opt))))

unfoldable pub section_bytes : SectionHeaderBlock → List ℕ
section_bytes shb = block_bytes bt_section_header (section_body shb)

pub record InterfaceDescriptionBlock : Type 0 where
  pub interface_name : List ℕ
  pub link_type : LinkType
  pub snaplen : ℕ

abbrev pub writer_tsresol : ℕ
writer_tsresol = 9

unfoldable pub interface_body : InterfaceDescriptionBlock → List ℕ
interface_body idb =
    to_le 2 (pcapng_linktype idb.link_type)
    ++ (to_le 2 0
        ++ (to_le 4 idb.snaplen
            ++ (option_bytes 2 idb.interface_name
                ++ (option_bytes 9 (writer_tsresol ∷ []) ++ end_of_opt))))

unfoldable pub interface_bytes : InterfaceDescriptionBlock → List ℕ
interface_bytes idb = block_bytes bt_interface_description (interface_body idb)

-- `epb_timestamp_halves`: a time is its nanoseconds since 1970, 0 before that.
abbrev pub ts_high : ℕ → ℕ
ts_high timestamp = timestamp % 2 ^ 64 / u32_mod

abbrev pub ts_low : ℕ → ℕ
ts_low timestamp = timestamp % 2 ^ 64 % u32_mod

-- The fixed fields of an Enhanced Packet Block, then the frame and its padding.
unfoldable pub packet_body : ℕ → Direction → List ℕ → List ℕ
packet_body timestamp direction frame =
    to_le 4 0
    ++ (to_le 4 (ts_high timestamp)
        ++ (to_le 4 (ts_low timestamp)
            ++ (to_le 4 (length frame % u32_mod)
                ++ (to_le 4 (length frame % u32_mod)
                    ++ ((frame ++ replicate (pad4 (length frame) - length frame) 0)
                        ++ (option_bytes 2 (to_le 4 (epb_flags_bits direction)) ++ end_of_opt))))))

-- `write_enhanced_packet_block`.
unfoldable pub packet_bytes : ℕ → Direction → List ℕ → List ℕ
packet_bytes timestamp direction frame =
    block_bytes bt_enhanced_packet (packet_body timestamp direction frame)

unfoldable pub stats_body : ℕ → ℕ → ℕ → List ℕ
stats_body timestamp received dropped =
    to_le 4 0
    ++ (to_le 4 (ts_high timestamp)
        ++ (to_le 4 (ts_low timestamp)
            ++ (option_bytes 4 (to_le 8 received)
                ++ (option_bytes 5 (to_le 8 dropped) ++ end_of_opt))))

-- `write_interface_statistics_block`.
unfoldable pub stats_bytes : ℕ → ℕ → ℕ → List ℕ
stats_bytes timestamp received dropped =
    block_bytes bt_interface_statistics (stats_body timestamp received dropped)

-- `file` is the file's content.
pub record Writer : Type 0 where
  pub file : List ℕ
  pub bytes_written : ℕ

-- `Writer::create` on a file that was opened.
unfoldable pub create : InterfaceDescriptionBlock → List ℕ → List ℕ → Writer
create idb hostname agent_version = record {
  file =
      section_bytes (record { hostname = hostname; agent_version = agent_version })
      ++ interface_bytes idb;
  bytes_written = 0;
}

unfoldable pub write_packet : Writer → ℕ → Direction → List ℕ → Writer
write_packet w timestamp direction frame = record {
  file = w.file ++ packet_bytes timestamp direction frame;
  bytes_written = add64 w.bytes_written (20 + pad4 (length frame) + 4 + 4 + 4 + 12);
}

unfoldable pub write_interface_stats : Writer → ℕ → ℕ → ℕ → Writer
write_interface_stats w timestamp received dropped = record w {
  file = w.file ++ stats_bytes timestamp received dropped;
}
