-- ===== src/Pcapng/RoundTrip/Parts.antt =====
-- The bodies of the blocks that capture-agent/src/pcapng.rs writes, decoded.
use network_monitor.Base.{
  ℕ, ◌+◌, ◌-◌, ◌*◌, ◌/◌, ◌%◌, ◌^◌, ◌≤◌, ◌<◌, ◌≡◌, refl, ap, ◌∙◌, true, false, Option, none, some,
  List, [], ◌∷◌, ◌++◌, arith, le→ltb, length, take, drop, length-append, u32_mod, u64_max,
  string_eq,
}
use network_monitor.Base.Results.{ok}
use network_monitor.Pcapng.Codec.{
  bt_section_header, max_block_len, pad4, to_le, ByteOrder, little, field, LinkType, ethernet,
  null_loopback, raw, pcapng_linktype, linktype_from_pcapng, Direction, inbound, outbound, unknown,
  epb_flags_bits, direction_of,
}
use network_monitor.Pcapng.Writer.{
  option_bytes, end_of_opt, SectionHeaderBlock, userappl, section_body, block_bytes,
  InterfaceDescriptionBlock, writer_tsresol, interface_body, ts_high, ts_low, packet_body,
  stats_body,
}
use network_monitor.Pcapng.Reader.Blocks.{options, read_section_block}
use network_monitor.Pcapng.Reader.Entries.{
  interface_option, interface_options, stored, parse_interface, epb_timestamp, nanos_of,
  flags_options, finished, parse_packet,
}
use network_monitor.Pcapng.Reader.{Reader, start_section}
use network_monitor.Pcapng.RoundTrip.Framing.{
  from_le-to_le2, from_le-to_le4, padded, length-padded, take-padded, drop-padded, option_list,
  options-option_list, length-option_bytes, IsBody, read_section_block-section,
}

pub linktype_from_pcapng-pcapng_linktype :
    (link_type : LinkType) → linktype_from_pcapng (pcapng_linktype link_type) ≡ some link_type
unfolding linktype_from_pcapng pcapng_linktype
linktype_from_pcapng-pcapng_linktype ethernet = refl
linktype_from_pcapng-pcapng_linktype null_loopback = refl
linktype_from_pcapng-pcapng_linktype raw = refl

small_linktype : (link_type : LinkType) → pcapng_linktype link_type < 65536
unfolding pcapng_linktype
small_linktype ethernet = omega arith
small_linktype null_loopback = omega arith
small_linktype raw = omega arith

pub section_body-IsBody :
    (shb : SectionHeaderBlock) → length (userappl shb) < 65536 → IsBody (section_body shb)
unfolding section_body
section_body-IsBody shb h =
    let size = length-append (option_bytes 4 (userappl shb)) end_of_opt in
    let own = length-option_bytes 4 (userappl shb) in
    record { aligned = omega (arith, size, own); fits = omega (arith, size, own, h) }

pub interface_body-IsBody :
    (idb : InterfaceDescriptionBlock)
    → length idb.interface_name < 65536
    → IsBody (interface_body idb)
unfolding interface_body
interface_body-IsBody idb h =
    let rest = option_bytes 9 (writer_tsresol ∷ []) ++ end_of_opt in
    let size = length-append (option_bytes 2 idb.interface_name) rest in
    let size' = length-append (option_bytes 9 (writer_tsresol ∷ [])) end_of_opt in
    let own = length-option_bytes 2 idb.interface_name in
    let own' = length-option_bytes 9 (writer_tsresol ∷ []) in
    record {
      aligned = omega (arith, size, size', own, own');
      fits = omega (arith, size, size', own, own', h);
    }

pub packet_body-IsBody :
    (timestamp : ℕ) (direction : Direction) (frame : List ℕ)
    → length frame + 48 ≤ max_block_len
    → IsBody (packet_body timestamp direction frame)
unfolding packet_body
packet_body-IsBody timestamp direction frame h =
    let flags = option_bytes 2 (to_le 4 (epb_flags_bits direction)) in
    let size = length-append (padded frame) (flags ++ end_of_opt) in
    let size' = length-append flags end_of_opt in
    let own = length-option_bytes 2 (to_le 4 (epb_flags_bits direction)) in
    let own' = length-padded frame in
    record {
      aligned = omega (arith, size, size', own, own');
      fits = omega (arith, size, size', own, own', h);
    }

pub stats_body-IsBody :
    (timestamp received dropped : ℕ) → IsBody (stats_body timestamp received dropped)
unfolding stats_body
stats_body-IsBody timestamp received dropped =
    let one = option_bytes 4 (to_le 8 received) in
    let two = option_bytes 5 (to_le 8 dropped) in
    let size = length-append one (two ++ end_of_opt) in
    let size' = length-append two end_of_opt in
    let own = length-option_bytes 4 (to_le 8 received) in
    let own' = length-option_bytes 5 (to_le 8 dropped) in
    record {
      aligned = omega (arith, size, size', own, own');
      fits = omega (arith, size, size', own, own');
    }

-- A section's own header block starts a section that is understood and has no interfaces yet.
pub start_section-section_body :
    (r : Reader) (shb : SectionHeaderBlock)
    → length (userappl shb) < 65536
    → start_section r little (section_body shb)
      ≡ ok (record r { supported_section = true; interfaces = []; interface_name_bytes = 0 })
unfolding start_section section_body
start_section-section_body r shb h =
    let own =
      options-option_list (length (section_body shb)) ((4, userappl shb) ∷ []) (omega arith)
        ((λ z. omega arith), omega arith, h, tt) in
    rw own refl

parse_interface_step :
    (lossy : List ℕ → List ℕ) (body : List ℕ) (linktype_raw snaplen : ℕ) (os : List (ℕ × List ℕ))
    → 8 ≤ length body
    → field little 0 2 body ≡ linktype_raw
    → field little 4 4 body ≡ snaplen
    → options (length body) little (drop 8 body) ≡ ok os
    → parse_interface lossy little body
      ≡ stored linktype_raw snaplen (interface_options lossy os (none, 6, false))
unfolding parse_interface
parse_interface_step lossy body linktype_raw snaplen os h l s o =
    rw (le→ltb (length body) 8 h, o) (rw (l, s) refl)

-- An interface is read back with its name decoded.
pub parse_interface-interface_body :
    (lossy : List ℕ → List ℕ) (idb : InterfaceDescriptionBlock)
    → length idb.interface_name < 65536
    → idb.snaplen < u32_mod
    → parse_interface lossy little (interface_body idb)
      ≡ ok (record {
        linktype_raw = pcapng_linktype idb.link_type;
        interface_name = some (lossy idb.interface_name);
        snaplen = idb.snaplen;
        timestamp_resolution = writer_tsresol;
      })
unfolding interface_body interface_options interface_option stored
parse_interface-interface_body lossy idb h hs =
    let os : List (ℕ × List ℕ) = (2, idb.interface_name) ∷ (9, writer_tsresol ∷ []) ∷ [] in
    let size =
      length-append (option_bytes 2 idb.interface_name)
        (option_bytes 9 (writer_tsresol ∷ []) ++ end_of_opt) in
    let own = length-option_bytes 2 idb.interface_name in
    parse_interface_step lossy (interface_body idb) (pcapng_linktype idb.link_type) idb.snaplen os
      (omega arith) (from_le-to_le2 (pcapng_linktype idb.link_type) (small_linktype idb.link_type))
      (from_le-to_le4 idb.snaplen hs)
      (options-option_list (length (interface_body idb)) os (omega (arith, size, own))
        ((λ z. omega arith), omega arith, h, ((λ z. omega arith), omega arith, omega arith, tt)))

parse_packet_step :
    (link_type : LinkType) (body frame : List ℕ) (os : List (ℕ × List ℕ))
    (cap_len original_len high low tsresol timestamp : ℕ)
    → 20 + pad4 cap_len ≤ length body
    → field little 4 4 body ≡ high
    → field little 8 4 body ≡ low
    → field little 12 4 body ≡ cap_len
    → field little 16 4 body ≡ original_len
    → epb_timestamp (high * u32_mod + low) tsresol ≡ ok timestamp
    → options (length body) little (drop (20 + pad4 cap_len) body) ≡ ok os
    → take cap_len (drop 20 body) ≡ frame
    → parse_packet little tsresol link_type body
      ≡ finished link_type timestamp original_len frame (flags_options little os (unknown, false))
unfolding parse_packet
parse_packet_step link_type body frame os cap_len original_len high low tsresol timestamp h a b c d
      t o f =
    rw
      (
        c,
        a,
        b,
        le→ltb (length body) 20 (omega (arith, h)),
        le→ltb (length body - 20) cap_len (omega (arith, h)),
        le→ltb (length body) (20 + pad4 cap_len) h,
      )
      (rw (t) (rw (o) (rw (d, f) refl)))

epb_timestamp_nanos :
    (timestamp : ℕ) → timestamp ≤ u64_max → epb_timestamp timestamp writer_tsresol ≡ ok timestamp
unfolding epb_timestamp nanos_of
epb_timestamp_nanos timestamp h =
    let same : timestamp * 1000000000 / 1000000000 ≡ timestamp = omega arith in
    rw same (rw (le→ltb u64_max timestamp h) refl)

finished-flags :
    (direction : Direction) (link_type : LinkType) (timestamp original_len : ℕ) (frame : List ℕ)
    → finished link_type timestamp original_len frame
        (flags_options little ((2, to_le 4 (epb_flags_bits direction)) ∷ []) (unknown, false))
      ≡ ok (record {
        link_type = link_type;
        timestamp = timestamp;
        direction = direction;
        original_len = original_len;
        frame = frame;
      })
unfolding finished flags_options epb_flags_bits direction_of
finished-flags inbound link_type timestamp original_len frame = refl
finished-flags outbound link_type timestamp original_len frame = refl
finished-flags unknown link_type timestamp original_len frame = refl

-- A packet is read back to the nanosecond.
pub parse_packet-packet_body :
    (link_type : LinkType) (timestamp : ℕ) (direction : Direction) (frame : List ℕ)
    → timestamp ≤ u64_max
    → length frame + 48 ≤ max_block_len
    → parse_packet little writer_tsresol link_type (packet_body timestamp direction frame)
      ≡ ok (record {
        link_type = link_type;
        timestamp = timestamp;
        direction = direction;
        original_len = length frame;
        frame = frame;
      })
unfolding packet_body
parse_packet-packet_body link_type timestamp direction frame ht hf =
    let body = packet_body timestamp direction frame in
    let os : List (ℕ × List ℕ) = (2, to_le 4 (epb_flags_bits direction)) ∷ [] in
    let cap = length frame in
    let cap_small : cap % u32_mod ≡ cap = omega (arith, hf) in
    let cap_field = from_le-to_le4 (cap % u32_mod) (omega arith) ∙ cap_small in
    let front = take 20 body in
    let size = length-append (padded frame) (option_list os) in
    let own = length-padded frame in
    let whole : ts_high timestamp * u32_mod + ts_low timestamp ≡ timestamp = omega (arith, ht) in
    parse_packet_step link_type body frame os cap cap (ts_high timestamp) (ts_low timestamp)
      writer_tsresol timestamp (omega (arith, size, own))
      (from_le-to_le4 (ts_high timestamp) (omega arith))
      (from_le-to_le4 (ts_low timestamp) (omega arith)) cap_field cap_field
      (ap (λ n. epb_timestamp n writer_tsresol) whole ∙ epb_timestamp_nanos timestamp ht)
      (ap (options (length body) little) (drop-padded 20 front frame (option_list os) refl)
        ∙ options-option_list (length body) os (omega (arith, size, own))
            ((λ z. omega arith), omega arith, omega arith, tt))
      (take-padded frame (option_list os))
    ∙ finished-flags direction link_type timestamp cap frame

pub packet_body_front :
    (timestamp : ℕ) (direction : Direction) (frame : List ℕ)
    → (20 ≤ length (packet_body timestamp direction frame))
      × (field little 0 4 (packet_body timestamp direction frame) ≡ 0)
unfolding packet_body
packet_body_front timestamp direction frame = (omega arith, refl)

-- A section header is read back whatever the byte order was before it.
pub read_section_block-section_body :
    (order : Option ByteOrder) (shb : SectionHeaderBlock) (rest : List ℕ)
    → length (userappl shb) < 65536
    → read_section_block order (block_bytes bt_section_header (section_body shb) ++ rest)
      ≡ ok (some ((bt_section_header, section_body shb), (little, rest)))
unfolding section_body
read_section_block-section_body order shb rest h =
    let more =
      to_le 2 1 ++ (to_le 2 0 ++ (to_le 8 (2 ^ 64 - 1) ++ option_list ((4, userappl shb) ∷ []))) in
    read_section_block-section order more rest (section_body-IsBody shb h) (omega arith)
