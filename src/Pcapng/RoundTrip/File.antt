-- ===== src/Pcapng/RoundTrip/File.antt =====
-- A capture file of capture-agent/src/pcapng.rs, from its first block to its last.
use network_monitor.Base.{
  ℕ, zero, suc, ◌+◌, ◌-◌, ◌%◌, ◌≤◌, ◌<◌, ◌≡◌, refl, sym, ap, ◌∙◌, true, false, Option, none, some,
  List, [], ◌∷◌, ◌++◌, arith, ltb, le→ltb, length, length-append, append_assoc, append_nil, u32_mod,
  u64_max, string_eq,
}
use network_monitor.Base.Results.{Result, ok, err, ◌>>=◌}
use network_monitor.Pcapng.Codec.{
  bt_interface_description, bt_enhanced_packet, bt_interface_statistics, max_block_len, to_le,
  little, ReadError, LinkType, pcapng_linktype, Direction,
}
use network_monitor.Pcapng.Writer.{
  SectionHeaderBlock, userappl, section_body, section_bytes, InterfaceDescriptionBlock,
  writer_tsresol, interface_body, interface_bytes, packet_body, packet_bytes, stats_body,
  stats_bytes, block_bytes, Writer, create, write_packet, write_interface_stats,
}
use network_monitor.Pcapng.Reader.Blocks.{read_section_block, read_exact_or_eof}
use network_monitor.Pcapng.Reader.Entries.{
  StoredInterface, ParsedInterface, ParsedPacket, supported, supported_as,
}
use network_monitor.Pcapng.Reader.{
  Reader, add_interface, decode_linked, decode_with, decode_packet, take_block, next_from,
  next_packet, open_from, open_reader, accepted, last_supported, stop_or_go,
}
use network_monitor.Pcapng.RoundTrip.Framing.{read_section_block-block_bytes}
use network_monitor.Pcapng.RoundTrip.Parts.{
  linktype_from_pcapng-pcapng_linktype, interface_body-IsBody, packet_body-IsBody,
  stats_body-IsBody, start_section-section_body, parse_interface-interface_body,
  parse_packet-packet_body, packet_body_front, read_section_block-section_body,
}

-- What is written after a file was opened.
pub data Entry : Type 0 where
  packet : (timestamp : ℕ) (direction : Direction) (frame : List ℕ) → Entry
  stats : (timestamp received dropped : ℕ) → Entry

abbrev pub write_entry : Writer → Entry → Writer
write_entry w (packet timestamp direction frame) = write_packet w timestamp direction frame
write_entry w (stats timestamp received dropped) =
    write_interface_stats w timestamp received dropped

abbrev pub write_entries : Writer → List Entry → Writer
write_entries w [] = w
write_entries w (e ∷ es) = write_entries (write_entry w e) es

-- Times up to 2554, and frames that a block holds.
abbrev pub AreEntries : List Entry → Type 0
AreEntries [] = Unit
AreEntries (packet timestamp direction frame ∷ es) =
    (timestamp ≤ u64_max) × (length frame + 48 ≤ max_block_len) × AreEntries es
AreEntries (stats timestamp received dropped ∷ es) = AreEntries es

-- The packets among the entries, as they should be read.
abbrev pub packets_of : LinkType → List Entry → List ParsedPacket
packets_of link_type [] = []
packets_of link_type (packet timestamp direction frame ∷ es) =
    record {
      link_type = link_type;
      timestamp = timestamp;
      direction = direction;
      original_len = length frame;
      frame = frame;
    }
    ∷ packets_of link_type es
packets_of link_type (stats timestamp received dropped ∷ es) = packets_of link_type es

abbrev entry_bytes : Entry → List ℕ
entry_bytes (packet timestamp direction frame) = packet_bytes timestamp direction frame
entry_bytes (stats timestamp received dropped) = stats_bytes timestamp received dropped

abbrev entries_bytes : List Entry → List ℕ
entries_bytes [] = []
entries_bytes (e ∷ es) = entry_bytes e ++ entries_bytes es

write_entries-file :
    (w : Writer) (es : List Entry) → (write_entries w es).file ≡ w.file ++ entries_bytes es
unfolding write_packet write_interface_stats
write_entries-file w [] = sym (append_nil w.file)
write_entries-file w (packet timestamp direction frame ∷ es) =
    write_entries-file (write_packet w timestamp direction frame) es
    ∙ append_assoc w.file _ (entries_bytes es)
write_entries-file w (stats timestamp received dropped ∷ es) =
    write_entries-file (write_interface_stats w timestamp received dropped) es
    ∙ append_assoc w.file _ (entries_bytes es)

length-entry_bytes : (e : Entry) → 12 ≤ length (entry_bytes e)
unfolding packet_bytes stats_bytes block_bytes
length-entry_bytes (packet timestamp direction frame) = omega (
  arith,
  length-append (packet_body timestamp direction frame)
      (to_le 4 ((12 + length (packet_body timestamp direction frame)) % u32_mod)),
)
length-entry_bytes (stats timestamp received dropped) = omega (
  arith,
  length-append (stats_body timestamp received dropped)
      (to_le 4 ((12 + length (stats_body timestamp received dropped)) % u32_mod)),
)

length-entries_bytes : (es : List Entry) → length es ≤ length (entries_bytes es)
length-entries_bytes [] = omega arith
length-entries_bytes (e ∷ es) = omega (
  arith,
  length-entry_bytes e,
  length-append (entry_bytes e) (entries_bytes es),
  length-entries_bytes es,
)

-- The interface as a reader stores it.
abbrev entry_of : (List ℕ → List ℕ) → InterfaceDescriptionBlock → StoredInterface
entry_of lossy idb = record {
  linktype_raw = pcapng_linktype idb.link_type;
  interface_name = some (lossy idb.interface_name);
  snaplen = idb.snaplen;
  timestamp_resolution = writer_tsresol;
}

-- A reader behind the interface of a file.
abbrev pub reading : (List ℕ → List ℕ) → InterfaceDescriptionBlock → List ℕ → Reader
reading lossy idb input = record {
  input = input;
  order = some little;
  supported_section = true;
  interfaces = entry_of lossy idb ∷ [];
  interface_name_bytes = length (lossy idb.interface_name);
}

module _ (lossy : List ℕ → List ℕ) (idb : InterfaceDescriptionBlock) where
  next_at_end :
      (fuel : ℕ) → next_from lossy fuel (reading lossy idb []) ≡ ok (reading lossy idb [], none)
  unfolding next_from read_section_block read_exact_or_eof
  next_at_end zero = refl
  next_at_end (suc fuel) = refl

  next_at_stats :
      (fuel timestamp received dropped : ℕ) (rest : List ℕ)
      → next_from lossy
          (suc fuel)
          (reading lossy idb (stats_bytes timestamp received dropped ++ rest))
        ≡ next_from lossy fuel (reading lossy idb rest)
  unfolding next_from stats_bytes take_block
  next_at_stats fuel timestamp received dropped rest =
      rw
        (read_section_block-block_bytes bt_interface_statistics
          (stats_body timestamp received dropped) rest (omega arith) (λ z. omega arith)
          (stats_body-IsBody timestamp received dropped))
        refl

  decode_written :
      (timestamp : ℕ) (direction : Direction) (frame rest : List ℕ)
      → timestamp ≤ u64_max
      → length frame + 48 ≤ max_block_len
      → decode_packet lossy (reading lossy idb rest) little (packet_body timestamp direction frame)
        ≡ ok (record {
          link_type = idb.link_type;
          timestamp = timestamp;
          direction = direction;
          original_len = length frame;
          frame = frame;
        })
  unfolding decode_packet decode_with decode_linked
  decode_written timestamp direction frame rest ht hf =
      let front = packet_body_front timestamp direction frame in
      let parsed = parse_packet-packet_body idb.link_type timestamp direction frame ht hf in
      rw (le→ltb (length (packet_body timestamp direction frame)) 20 front.0, front.1)
        (ap
            (λ l.
              decode_linked lossy l (entry_of lossy idb) little
                (packet_body timestamp direction frame))
            (linktype_from_pcapng-pcapng_linktype idb.link_type)
          ∙ parsed)

  next_at_packet :
      (fuel timestamp : ℕ) (direction : Direction) (frame rest : List ℕ)
      → timestamp ≤ u64_max
      → length frame + 48 ≤ max_block_len
      → next_from lossy
          (suc fuel)
          (reading lossy idb (packet_bytes timestamp direction frame ++ rest))
        ≡ ok (
          reading lossy idb rest,
          some (record {
            link_type = idb.link_type;
            timestamp = timestamp;
            direction = direction;
            original_len = length frame;
            frame = frame;
          }),
        )
  unfolding next_from packet_bytes take_block
  next_at_packet fuel timestamp direction frame rest ht hf =
      rw
        (read_section_block-block_bytes bt_enhanced_packet (packet_body timestamp direction frame)
          rest (omega arith) (λ z. omega arith) (packet_body-IsBody timestamp direction frame hf))
        (rw (decode_written timestamp direction frame rest ht hf) refl)

  -- What the next packet of written entries is, and what is left then.
  abbrev pub next_of : List Entry → Result ReadError (Reader × Option ParsedPacket)
  next_of [] = ok (reading lossy idb [], none)
  next_of (packet timestamp direction frame ∷ es) = ok (
    reading lossy idb (entries_bytes es),
    some (record {
      link_type = idb.link_type;
      timestamp = timestamp;
      direction = direction;
      original_len = length frame;
      frame = frame;
    }),
  )
  next_of (stats timestamp received dropped ∷ es) = next_of es

  next_from-entries :
      (fuel : ℕ) (es : List Entry)
      → AreEntries es
      → length es < fuel
      → next_from lossy fuel (reading lossy idb (entries_bytes es)) ≡ next_of es
  next_from-entries zero es v h = absurd (omega arith)
  next_from-entries (suc fuel) [] v h = next_at_end (suc fuel)
  next_from-entries (suc fuel) (packet timestamp direction frame ∷ es) v h =
      next_at_packet fuel timestamp direction frame (entries_bytes es) v.0 v.1
  next_from-entries (suc fuel) (stats timestamp received dropped ∷ es) v h =
      next_at_stats fuel timestamp received dropped (entries_bytes es)
      ∙ next_from-entries fuel es v (omega arith)

  next_packet-entries :
      (es : List Entry)
      → AreEntries es
      → next_packet lossy (reading lossy idb (entries_bytes es)) ≡ next_of es
  unfolding next_packet
  next_packet-entries es v =
      next_from-entries (suc (length (entries_bytes es))) es v
        (omega (arith, length-entries_bytes es))

-- A packet put before what a reader gives later.
abbrev with_packet :
    ParsedPacket → Result ReadError (List ParsedPacket) → Result ReadError (List ParsedPacket)
with_packet p (ok ps) = ok (p ∷ ps)
with_packet p (err e) = err e

-- All packets that a reader gives, call by call; fuel for one call more than there are packets.
unfoldable pub read_all : (List ℕ → List ℕ) → ℕ → Reader → Result ReadError (List ParsedPacket)
read_all lossy zero r = ok []
read_all lossy (suc fuel) r = next_packet lossy r >>= λ (r', found). elim found [
  | none ↦ ok []
  | some p ↦ with_packet p (read_all lossy fuel r')
]

module _ (lossy : List ℕ → List ℕ) (idb : InterfaceDescriptionBlock) where
  read_all-entries :
      (fuel : ℕ) (es : List Entry)
      → AreEntries es
      → length es < fuel
      → read_all lossy fuel (reading lossy idb (entries_bytes es))
        ≡ ok (packets_of idb.link_type es)
  unfolding read_all
  read_all-entries zero es v h = absurd (omega arith)
  read_all-entries (suc fuel) [] v h = rw (next_packet-entries lossy idb [] v) refl
  read_all-entries (suc fuel) (packet timestamp direction frame ∷ es) v h =
      rw (next_packet-entries lossy idb (packet timestamp direction frame ∷ es) v)
        (rw (read_all-entries fuel es v.2 (omega arith)) refl)
  read_all-entries (suc fuel) (stats timestamp received dropped ∷ es) v h =
      rw (next_packet-entries lossy idb (stats timestamp received dropped ∷ es) v)
        (rw⁻¹ (next_packet-entries lossy idb es v) (read_all-entries (suc fuel) es v (omega arith)))

-- The interface as it should be read.
abbrev pub interface_read : (List ℕ → List ℕ) → InterfaceDescriptionBlock → ParsedInterface
interface_read lossy idb = record {
  interface_name = some (lossy idb.interface_name);
  link_type = idb.link_type;
  snaplen = idb.snaplen;
  timestamp_resolution = writer_tsresol;
}

-- The interface that was written.
abbrev pub interface_written : InterfaceDescriptionBlock → ParsedInterface
interface_written idb = record {
  interface_name = some idb.interface_name;
  link_type = idb.link_type;
  snaplen = idb.snaplen;
  timestamp_resolution = writer_tsresol;
}

length-section_bytes : (shb : SectionHeaderBlock) → 12 ≤ length (section_bytes shb)
unfolding section_bytes block_bytes
length-section_bytes shb =
    omega (
      arith,
      length-append (section_body shb) (to_le 4 ((12 + length (section_body shb)) % u32_mod)),
    )

last_supported_entry :
    (lossy : List ℕ → List ℕ) (idb : InterfaceDescriptionBlock)
    → last_supported lossy (entry_of lossy idb ∷ []) ≡ some (interface_read lossy idb)
unfolding supported supported_as
last_supported_entry lossy idb =
    ap (λ l. accepted lossy (supported_as l (entry_of lossy idb)))
      (linktype_from_pcapng-pcapng_linktype idb.link_type)

-- A reader in a section without interfaces.
abbrev sectioned : List ℕ → Reader
sectioned input = record {
  input = input;
  order = some little;
  supported_section = true;
  interfaces = [];
  interface_name_bytes = 0;
}

open_at_section :
    (lossy : List ℕ → List ℕ) (fuel : ℕ) (shb : SectionHeaderBlock) (rest : List ℕ)
    → length (userappl shb) < 65536
    → open_from lossy (suc fuel) (record {
      input = section_bytes shb ++ rest;
      order = none;
      supported_section = false;
      interfaces = [];
      interface_name_bytes = 0;
    })
      ≡ open_from lossy fuel (sectioned rest)
unfolding open_from section_bytes take_block
open_at_section lossy fuel shb rest h =
    let block = read_section_block-section_body none shb rest h in
    rw block (
      rw
        (start_section-section_body
          (record {
            input = rest;
            order = some little;
            supported_section = false;
            interfaces = [];
            interface_name_bytes = 0;
          })
          shb h)
        refl)

open_at_interface :
    (lossy : List ℕ → List ℕ) (fuel : ℕ) (idb : InterfaceDescriptionBlock) (rest : List ℕ)
    → length idb.interface_name < 65536
    → length (lossy idb.interface_name) < 65536
    → idb.snaplen < u32_mod
    → open_from lossy (suc fuel) (sectioned (interface_bytes idb ++ rest))
      ≡ ok (reading lossy idb rest, interface_read lossy idb)
unfolding open_from interface_bytes take_block add_interface
open_at_interface lossy fuel idb rest h hl hs =
    let block =
      read_section_block-block_bytes bt_interface_description (interface_body idb) rest
        (omega arith) (λ z. omega arith) (interface_body-IsBody idb h) in
    let parsed = parse_interface-interface_body lossy idb h hs in
    let fits : ltb (16777216 - 0) (length (lossy idb.interface_name)) ≡ false =
      le→ltb _ _ (omega (arith, hl)) in
    let sum : 0 + length (lossy idb.interface_name) ≡ length (lossy idb.interface_name) =
      omega arith in
    rw block (
      rw (parsed) (
        rw fits (
          rw (sum) (
            ap
              (λ i.
                stop_or_go lossy i (reading lossy idb rest)
                  (open_from lossy fuel (reading lossy idb rest)))
              (last_supported_entry lossy idb)))))

-- A whole file, by what it is opened with and then read to its end.
unfoldable pub read_file :
    (List ℕ → List ℕ) → ℕ → List ℕ → Result ReadError (ParsedInterface × List ParsedPacket)
read_file lossy calls file = open_reader lossy file >>= λ (r, interface).
    (read_all lossy calls r >>= λ packets. ok (interface, packets))

open_file :
    (lossy : List ℕ → List ℕ) (shb : SectionHeaderBlock) (idb : InterfaceDescriptionBlock)
    (rest : List ℕ)
    → length (userappl shb) < 65536
    → length idb.interface_name < 65536
    → length (lossy idb.interface_name) < 65536
    → idb.snaplen < u32_mod
    → open_reader lossy (section_bytes shb ++ (interface_bytes idb ++ rest))
      ≡ ok (reading lossy idb rest, interface_read lossy idb)
unfolding open_reader
open_file lossy shb idb rest hu h hl hs =
    let file = section_bytes shb ++ (interface_bytes idb ++ rest) in
    let start : Reader = record {
      input = file;
      order = none;
      supported_section = false;
      interfaces = [];
      interface_name_bytes = 0;
    } in
    let long : length file ≡ suc (length file - 1) = omega (
      arith,
      length-append (section_bytes shb) (interface_bytes idb ++ rest),
      length-section_bytes shb,
    ) in
    open_at_section lossy (length file) shb (interface_bytes idb ++ rest) hu
    ∙ (ap (λ n. open_from lossy n (sectioned (interface_bytes idb ++ rest))) long
        ∙ open_at_interface lossy (length file - 1) idb rest h hl hs)

-- A file that the writer made, with any packets and statistics in any order, is read back in full:
-- opening it gives the interface that was written, and the calls after that give every packet, in
-- order, with its time to the nanosecond, its direction, its length and its bytes, and then the end.
-- The texts fit in an option, the name is one that decoding leaves as it is, times are before the
-- year 2554, and a frame fits in a block of 16 MiB.
pub read_file-write_entries :
    (lossy : List ℕ → List ℕ) (shb : SectionHeaderBlock) (idb : InterfaceDescriptionBlock)
    (es : List Entry)
    → lossy idb.interface_name ≡ idb.interface_name
    → length (userappl shb) < 65536
    → length idb.interface_name < 65536
    → idb.snaplen < u32_mod
    → AreEntries es
    → read_file lossy
        (suc (length es))
        (write_entries (create idb shb.hostname shb.agent_version) es).file
      ≡ ok (interface_written idb, packets_of idb.link_type es)
unfolding read_file create
read_file-write_entries lossy shb idb es t hu h hs v =
    let file_is =
      write_entries-file (create idb shb.hostname shb.agent_version) es
      ∙ append_assoc (section_bytes shb) (interface_bytes idb) (entries_bytes es) in
    let opened =
      open_file lossy shb idb (entries_bytes es) hu h (omega (arith, ap length t, h)) hs in
    let all = read_all-entries lossy idb (suc (length es)) es v (omega arith) in
    let named : interface_read lossy idb ≡ interface_written idb =
      ap
        (λ n. record {
          interface_name = some n;
          link_type = idb.link_type;
          snaplen = idb.snaplen;
          timestamp_resolution = writer_tsresol;
        })
        t in
    rw (file_is, opened) (rw all (ap (λ i. ok (i, packets_of idb.link_type es)) named))
