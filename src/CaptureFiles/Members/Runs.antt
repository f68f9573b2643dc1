-- ===== src/CaptureFiles/Members/Runs.antt =====
-- What may happen to a run of capture-agent/src/ring.rs, and the packets that it was given.
use network_monitor.Base.{
  ℕ, suc, ◌<◌, ◌≡◌, refl, sym, ap, ◌∙◌, Option, some, List, [], ◌∷◌, ◌++◌, length, append_assoc,
  append_nil, u32_mod, string_eq,
}
use network_monitor.Base.Results.{ok}
use network_monitor.Pcapng.Codec.{LinkType, Direction}
use network_monitor.Pcapng.Reader.Entries.{ParsedPacket}
use network_monitor.Pcapng.RoundTrip.File.{Entry, packet, stats, AreEntries, packets_of}
use network_monitor.CaptureFiles.Files.{path_eq, Files, Opening, written, renamed}
use network_monitor.CaptureFiles.Run.{
  RingState, StartRequest, Status, start, write_packet, Answers, on_tick,
}

-- A packet as it should be read.
abbrev pub packet_read : LinkType → ℕ → Direction → List ℕ → ParsedPacket
packet_read link_type timestamp direction frame = record {
  link_type = link_type;
  timestamp = timestamp;
  direction = direction;
  original_len = length frame;
  frame = frame;
}

-- What happens to a run while no call fails but those that open a file, from its start on: its
-- packets so far, its state, and the files. There are fewer than 2 ^ 32 of them.
pub data RunOf (request : StartRequest) : List ParsedPacket → RingState → Files → Type 0 where
  begun :
      {s : RingState} {files' : Files} (free : Option ℕ) (opening : Opening) (now : ℕ)
      (state : Option RingState) (files : Files)
      → start free opening now state files request ≡ (ok tt, some s, files')
      → RunOf request [] s files'
  packet_kept :
      {packets : List ParsedPacket} {s : RingState} {files : Files} (s' : RingState) (timestamp : ℕ)
      (direction : Direction) (frame : List ℕ)
      → RunOf request packets s files
      → AreEntries (packet timestamp direction frame ∷ [])
      → s' ≡ (write_packet written s timestamp direction frame).0
      → RunOf request
          (packets ++ (packet_read request.idb.link_type timestamp direction frame ∷ []))
          s'
          files
  ticked :
      {packets : List ParsedPacket} {s : RingState} {files : Files} (answers : Answers)
      (received dropped : ℕ) (status : Option Status) (s' : RingState) (files' : Files)
      → RunOf request packets s files
      → answers.writing ≡ written
      → answers.closing ≡ renamed
      → suc s.current_index < u32_mod
      → on_tick answers received dropped (some s) files ≡ (status, some s', files')
      → RunOf request packets s' files'

abbrev pub all_packets : List (List ParsedPacket) → List ParsedPacket
all_packets [] = []
all_packets (packets ∷ rest) = packets ++ all_packets rest

pub snoc-all_packets :
    (past : List (List ParsedPacket)) (packets : List ParsedPacket)
    → all_packets (past ++ (packets ∷ [])) ≡ all_packets past ++ packets
snoc-all_packets [] packets = append_nil packets
snoc-all_packets (p ∷ past) packets =
    ap (λ l. p ++ l) (snoc-all_packets past packets)
    ∙ sym (append_assoc p (all_packets past) packets)

pub packets_of-append :
    (link_type : LinkType) (es : List Entry) (e : Entry)
    → packets_of link_type (es ++ (e ∷ []))
      ≡ packets_of link_type es ++ packets_of link_type (e ∷ [])
packets_of-append link_type [] e = refl
packets_of-append link_type (packet timestamp direction frame ∷ es) e =
    ap (λ l. packet_read link_type timestamp direction frame ∷ l) (packets_of-append link_type es e)
packets_of-append link_type (stats timestamp received dropped ∷ es) e =
    packets_of-append link_type es e
