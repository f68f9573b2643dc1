-- ===== src/Pcapng/Tests.antt =====
-- Runs of capture-agent/src/pcapng.rs.
use network_monitor.Base.{ℕ, ◌≡◌, refl, some, List, [], ◌∷◌, arith, take, drop, string_eq}
use network_monitor.Base.Results.{ok, err, IfOk}
use network_monitor.Pcapng.Codec.{
  little, big, ethernet, inbound, unknown, bt_interface_statistics, unexpected_eof, invalid_data,
}
use network_monitor.Pcapng.Writer.{
  SectionHeaderBlock, InterfaceDescriptionBlock, create, stats_body, block_bytes, option_bytes,
}
use network_monitor.Pcapng.Reader.Blocks.{read_section_block, options}
use network_monitor.Pcapng.Reader.Entries.{epb_timestamp, nanos_of}
use network_monitor.Pcapng.Reader.Bounds.{IsBounded, session, session-IsBounded}
use network_monitor.Pcapng.RoundTrip.Parts.{stats_body-IsBody}
use network_monitor.Pcapng.RoundTrip.File.{
  Entry, packet, stats, write_entries, packets_of, interface_written, read_file,
  read_file-write_entries,
}
use network_monitor.Pcapng.RoundTrip.Truncated.{read_section_block_cut}

abbrev plain_text : List ℕ → List ℕ
plain_text bytes = bytes

abbrev section_of_host : SectionHeaderBlock
section_of_host = record { hostname = 104 ∷ []; agent_version = 49 ∷ [] }

abbrev en0 : InterfaceDescriptionBlock
en0 = record { interface_name = 101 ∷ 110 ∷ 48 ∷ []; link_type = ethernet; snaplen = 65535 }

abbrev two_packets : List Entry
two_packets =
    packet 1700000000123456789 inbound (1 ∷ 2 ∷ 3 ∷ []) ∷ stats 7 10 2 ∷ packet 5 unknown [] ∷ []

read_file-write_entries_example :
    read_file plain_text 4 (write_entries (create en0 (104 ∷ []) (49 ∷ [])) two_packets).file
    ≡ ok (interface_written en0, packets_of ethernet two_packets)
read_file-write_entries_example =
    read_file-write_entries plain_text section_of_host en0 two_packets refl (omega arith)
      (omega arith) (omega arith) (omega arith, omega arith, (omega arith, omega arith, tt))

-- A microsecond file, and a resolution that no timestamp has.
resolutions_read :
    (epb_timestamp 1500000 6 ≡ ok 1500000000) × (epb_timestamp 1 100 ≡ err invalid_data)
unfolding epb_timestamp nanos_of
resolutions_read = (refl, refl)

-- Both byte orders.
orders_read :
    (options 9 little (4 ∷ 0 ∷ 1 ∷ 0 ∷ 7 ∷ 0 ∷ 0 ∷ 0 ∷ []) ≡ ok ((4, 7 ∷ []) ∷ []))
    × (options 9 big (0 ∷ 4 ∷ 0 ∷ 1 ∷ 7 ∷ 0 ∷ 0 ∷ 0 ∷ []) ≡ ok ((4, 7 ∷ []) ∷ []))
unfolding options
orders_read = (refl, refl)

abbrev host_file : List ℕ
host_file = (write_entries (create en0 (104 ∷ []) (49 ∷ [])) two_packets).file

session-IsBounded_example : IfOk IsBounded (session plain_text 1 host_file)
session-IsBounded_example = session-IsBounded plain_text 1 host_file

read_section_block_cut_example :
    read_section_block
      (some little)
      (take 50 (block_bytes bt_interface_statistics (stats_body 1 2 3)))
    ≡ err unexpected_eof
unfolding block_bytes stats_body option_bytes
read_section_block_cut_example =
    read_section_block_cut bt_interface_statistics (stats_body 1 2 3)
      (take 50 (block_bytes bt_interface_statistics (stats_body 1 2 3)))
      (drop 51 (block_bytes bt_interface_statistics (stats_body 1 2 3))) 0 (omega arith)
      (λ z. omega arith) (stats_body-IsBody 1 2 3) refl (λ z. omega arith)
