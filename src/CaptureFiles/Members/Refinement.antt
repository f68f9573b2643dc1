-- ===== src/CaptureFiles/Members/Refinement.antt =====
-- A ring of capture-agent/src/ring.rs keeps every packet.
use network_monitor.Base.{
  ℕ, suc, ◌<◌, ◌≡◌, refl, sym, ap, ◌∙◌, subst, inl, inr, Bool, true, false, Option, none, some,
  List, [], ◌∷◌, ◌++◌, arith, ltb, Bool-cases, length, length-append, append_nil, u32_mod,
  wrapping_add32, string_eq,
}
use Prim.Native.String.{String}
use network_monitor.Base.Results.{Result, ok, err}
use network_monitor.Pcapng.Codec.{Direction}
use network_monitor.Pcapng.Writer.{Writer}
use network_monitor.Pcapng.Reader.Entries.{ParsedPacket}
use network_monitor.Pcapng.RoundTrip.File.{packet, stats, write_entry, AreEntries, packets_of}
use network_monitor.CaptureFiles.Paths.{RingConfig}
use network_monitor.CaptureFiles.Files.{
  path_eq, Files, Opening, Writing, written, renamed, open_next, try_write_packet, try_write_stats,
}
use network_monitor.CaptureFiles.Run.{
  RingState, StartRequest, StartError, Status, running, started, rotated, ended, with_stats, start,
  stop, write_packet, Answers, on_tick, rotate, end_reason, should_rotate, low_disk_floor_bytes,
}
use network_monitor.CaptureFiles.Complete.{IsHeading}
use network_monitor.CaptureFiles.Members.{HasMembers}
use network_monitor.CaptureFiles.Members.Runs.{
  packet_read, RunOf, begun, packet_kept, ticked, all_packets, snoc-all_packets,
}
use network_monitor.CaptureFiles.Members.Kept.{
  IsAsked, Keeps, OpenedOver, first_blocks, add_entry, closed-HasMembers, replaced-Keeps,
  open_next-OpenedOver,
}

module _ (lossy : List ℕ → List ℕ) (request : StartRequest) (ring : RingConfig)
    (heading : IsHeading lossy request.idb request.hostname request.agent_version) where
  rotated-Keeps :
      (due : Bool) (answers : Answers) (packets : List ParsedPacket) (s : RingState) (files : Files)
      → Keeps lossy request ring heading packets s files
      → answers.closing ≡ renamed
      → suc s.current_index < u32_mod
      → Keeps lossy request ring heading packets
          (rotated due answers s files).0
          (rotated due answers s files).1
  unfolding rotate
  rotated-Keeps true answers packets s files k c u =
      replaced-Keeps lossy request ring heading answers packets s files k _ c u (
        open_next-OpenedOver lossy request ring heading k.past answers.opening
          (wrapping_add32 s.current_index 1) files s k.asked k.members)
  rotated-Keeps false answers packets s files k c u = k

  -- A run that goes on keeps the packets.
  abbrev Goes : List ParsedPacket → Option RingState → Files → Type 0
  Goes packets none files = Unit
  Goes packets (some s) files = Keeps lossy request ring heading packets s files

  ended-Goes :
      (answers : Answers) (packets : List ParsedPacket) (s : RingState) (files : Files)
      (reason : Option String)
      → Keeps lossy request ring heading packets s files
      → answers.closing ≡ renamed
      → suc s.current_index < u32_mod
      → Goes packets (ended answers s files reason).1 (ended answers s files reason).2
  ended-Goes answers packets s files (some reason) k c u = tt
  ended-Goes answers packets s files none k c u =
      rotated-Keeps (should_rotate answers.now s) answers packets s files k c u

  try_write_stats-file :
      (writing : Writing) (w : Writer) (timestamp received dropped : ℕ)
      → writing ≡ written
      → (try_write_stats writing w timestamp received dropped).file
        ≡ (write_entry w (stats timestamp received dropped)).file
  unfolding try_write_stats
  try_write_stats-file writing w timestamp received dropped h = rw h refl

  on_tick-Goes :
      (answers : Answers) (received dropped : ℕ) (packets : List ParsedPacket) (s : RingState)
      (files : Files)
      → Keeps lossy request ring heading packets s files
      → answers.writing ≡ written
      → answers.closing ≡ renamed
      → suc s.current_index < u32_mod
      → Goes packets
          (on_tick answers received dropped (some s) files).1
          (on_tick answers received dropped (some s) files).2
  unfolding on_tick
  on_tick-Goes answers received dropped packets s files k w c u =
      let s' = with_stats answers received dropped s in
      let same_asked : IsAsked request ring s' = record {
        base_is = k.asked.base_is;
        ring_is = k.asked.ring_is;
        idb_is = k.asked.idb_is;
        hostname_is = k.asked.hostname_is;
        version_is = k.asked.version_is;
      } in
      let with_entry =
        add_entry lossy request ring heading packets s s' files
          (stats answers.wall_clock received dropped) same_asked refl
          (try_write_stats-file answers.writing s.writer answers.wall_clock received dropped w) tt
          k in
      ended-Goes answers packets s' files (end_reason answers s')
        (subst (λ l. Keeps lossy request ring heading l s' files) (append_nil packets) with_entry) c
        u

  -- A start that succeeds has no packets yet.
  abbrev Begins : Result StartError (Unit {0}) × Option RingState × Files → Type 0
  Begins (ok done, state, files) = Goes [] state files
  Begins (err e, state, files) = Unit

  started-Begins :
      (state : Option RingState) (now : ℕ) (r : Option Writer × Files)
      → request.ring ≡ some ring
      → OpenedOver lossy request ring heading [] r
      → Begins (started state now request r)
  started-Begins state now (none, files) e o = tt
  started-Begins state now (some w, files) e o = record {
    asked = record {
      base_is = refl;
      ring_is = e;
      idb_is = refl;
      hostname_is = refl;
      version_is = refl;
    };
    past = [];
    entries = [];
    are_entries = tt;
    file_is = ap (λ v. v.file) o.0;
    index_is = refl;
    index_fits = omega arith;
    members = tt;
    packets_are = refl;
  }

  start-Begins :
      (free : Option ℕ) (opening : Opening) (now : ℕ) (state : Option RingState) (files : Files)
      → request.ring ≡ some ring
      → Begins (start free opening now state files request)
  unfolding start open_next
  start-Begins none opening now state files e = tt
  start-Begins (some free) opening now state files e =
      elim (Bool-cases (ltb free low_disk_floor_bytes)) [
        | inl low ↦ rw low tt
        | inr high ↦ rw high (
            started-Begins state now _ e (
              open_next-OpenedOver lossy request ring heading [] opening 1 files
                (running now request (first_blocks lossy request ring heading))
                (record {
                  base_is = refl;
                  ring_is = e;
                  idb_is = refl;
                  hostname_is = refl;
                  version_is = refl;
                })
                tt))
      ]

  write_packet-Keeps :
      (packets : List ParsedPacket) (s : RingState) (files : Files) (timestamp : ℕ)
      (direction : Direction) (frame : List ℕ)
      → AreEntries (packet timestamp direction frame ∷ [])
      → Keeps lossy request ring heading packets s files
      → Keeps lossy request ring heading
          (packets ++ (packet_read request.idb.link_type timestamp direction frame ∷ []))
          (write_packet written s timestamp direction frame).0
          files
  unfolding write_packet try_write_packet
  write_packet-Keeps packets s files timestamp direction frame v k =
      add_entry lossy request ring heading packets s
        (write_packet written s timestamp direction frame).0 files
        (packet timestamp direction frame)
        (record {
          base_is = k.asked.base_is;
          ring_is = k.asked.ring_is;
          idb_is = k.asked.idb_is;
          hostname_is = k.asked.hostname_is;
          version_is = k.asked.version_is;
        })
        refl refl v k

  RunOf-Keeps :
      {packets : List ParsedPacket} {s : RingState} {files : Files}
      → request.ring ≡ some ring
      → RunOf request packets s files
      → Keeps lossy request ring heading packets s files
  RunOf-Keeps e (begun free opening now state files h) =
      subst Begins h (start-Begins free opening now state files e)
  RunOf-Keeps e (packet_kept {packets} {s} {files} s' timestamp direction frame run v h) =
      subst
        (λ u.
          Keeps lossy request ring heading
            (packets ++ (packet_read request.idb.link_type timestamp direction frame ∷ [])) u files)
        (sym h) (write_packet-Keeps packets s files timestamp direction frame v (RunOf-Keeps e run))
  RunOf-Keeps e
        (ticked {packets} {s} {files} answers received dropped status s' files' run w c u h) =
      subst (λ (r : Option Status × Option RingState × Files). Goes packets r.1 r.2) h
        (on_tick-Goes answers received dropped packets s files (RunOf-Keeps e run) w c u)

-- A ring loses and reorders nothing. When a run that was asked for with a ring is stopped, however
-- often it rotated or failed to open the next file, its files are all there under their final
-- names, numbered from 1 to the current index, and read one after the other to their ends they give
-- the packets of the run, in order. Other calls than those that open a file do not fail, a number
-- is under 2 ^ 32, and headings, times and frames fit.
pub stop-RunOf :
    (lossy : List ℕ → List ℕ) (request : StartRequest) (ring : RingConfig)
    (packets : List ParsedPacket) (s : RingState) (files : Files)
    → IsHeading lossy request.idb request.hostname request.agent_version
    → request.ring ≡ some ring
    → RunOf request packets s files
    → (members : List (List ParsedPacket)) × (length members ≡ s.current_index)
      × HasMembers lossy request.idb request.base_path ring 1 members
          (stop renamed (some s) files).1
      × (all_packets members ≡ packets)
unfolding stop
stop-RunOf lossy request ring packets s files heading e run =
    let k = RunOf-Keeps lossy request ring heading e run in
    let current = packets_of request.idb.link_type k.entries in
    (
      k.past ++ (current ∷ []),
      omega (arith, k.index_is, length-append k.past (current ∷ [])),
      closed-HasMembers lossy request ring heading packets s files k files k.members,
      snoc-all_packets k.past current ∙ k.packets_are,
    )
