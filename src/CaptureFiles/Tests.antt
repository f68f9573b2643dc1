-- ===== src/CaptureFiles/Tests.antt =====
-- Runs of capture-agent/src/ring.rs and of the writer thread in main.rs.
use network_monitor.Base.{
  ℕ, ◌≡◌, refl, true, none, some, List, [], ◌∷◌, ◌++◌, map, arith, length, take, string_eq, lookup,
  contains_key, insert, remove,
}
use network_monitor.Base.Results.{ok}
use network_monitor.Pcapng.Codec.{ethernet, inbound, unknown, pcapng_linktype, epb_flags_bits}
use network_monitor.Pcapng.Writer.{
  InterfaceDescriptionBlock, create, packet_bytes, section_bytes, section_body, interface_bytes,
  interface_body, packet_body, block_bytes, option_bytes,
}
use network_monitor.Pcapng.Writer.{write_packet as write_block}
use network_monitor.Pcapng.Reader.Entries.{ParsedPacket}
use network_monitor.CaptureFiles.Paths.{
  RingConfig, BasePath, file_stem, extension, four_digits, at_last_dot, decimal, member_path,
  partial_path,
}
use network_monitor.CaptureFiles.Paths.Distinct.{member_path-injective}
use network_monitor.CaptureFiles.Files.{
  path_eq, Files, opened, refused, opened_cut, written, written_cut, renamed, open_next,
  finish_and_rename, rename, try_write_packet, try_write_stats,
}
use network_monitor.CaptureFiles.Run.{
  RingState, StartRequest, start, stop, write_packet, Answers, on_tick, with_stats, status_of,
  rotate, running, end_reason, autostop_reason, should_rotate, bytes_written,
}
use network_monitor.CaptureFiles.Thread.{
  WriterCommand, start_file, stop_file, packet, stats, handle_all, handle, idle, Thread,
}
use network_monitor.CaptureFiles.Complete.{EachFile, IsFinished, IsHeading}
use network_monitor.CaptureFiles.Complete.Commands.{handle_all-IsFinished}
use network_monitor.CaptureFiles.Rotation.{HasTotal, on_tick-bytes_written}
use network_monitor.CaptureFiles.Stuck.{IsStuck, next_partial, handle_all-IsStuck}
use network_monitor.CaptureFiles.Shown.{IsShown, handle_all-IsShown}
use network_monitor.CaptureFiles.Members.{HasMembers}
use network_monitor.CaptureFiles.Members.Runs.{
  RunOf, begun, packet_kept, ticked, packet_read, all_packets,
}
use network_monitor.CaptureFiles.Members.Refinement.{stop-RunOf}

abbrev plain_text : List ℕ → List ℕ
plain_text bytes = bytes

-- `/a.p`.
abbrev base : BasePath
base = record { directory = 47 ∷ []; file_name = 97 ∷ 46 ∷ 112 ∷ [] }

abbrev every_packet : RingConfig
every_packet = record { mode = "count"; threshold = 1 }

-- `/a-0007.p`.
seventh_member :
    member_path base (some every_packet) 7 ≡ 47 ∷ 97 ∷ 45 ∷ 48 ∷ 48 ∷ 48 ∷ 55 ∷ 46 ∷ 112 ∷ []
unfolding member_path file_stem extension four_digits at_last_dot decimal
seventh_member = refl

-- An extension is behind the last dot, and a hidden file has none.
hidden_file :
    (file_stem (46 ∷ 97 ∷ []) ≡ 46 ∷ 97 ∷ []) × (extension (97 ∷ 46 ∷ 98 ∷ 46 ∷ 99 ∷ []) ≡ 99 ∷ [])
unfolding file_stem extension at_last_dot
hidden_file = (refl, refl)

abbrev en0 : InterfaceDescriptionBlock
en0 = record { interface_name = 101 ∷ 110 ∷ 48 ∷ []; link_type = ethernet; snaplen = 65535 }

abbrev request : StartRequest
request = record {
  base_path = base;
  ring = some every_packet;
  autostop = none;
  idb = en0;
  hostname = 104 ∷ [];
  agent_version = 49 ∷ [];
}

request-IsHeading : IsHeading plain_text request.idb request.hostname request.agent_version
request-IsHeading = record {
  name_kept = refl;
  application_fits = omega arith;
  name_fits = omega arith;
  snaplen_fits = omega arith;
}

abbrev all_well : Answers
all_well = record {
  now = 1000000000;
  wall_clock = 5;
  free_space = some 1000000000;
  writing = written;
  opening = opened;
  closing = renamed;
}

abbrev none_opened : Answers
none_opened = record all_well { opening = refused }

abbrev two_files : List (Answers × WriterCommand)
two_files =
    (all_well, start_file request)
    ∷ (all_well, packet 7 inbound (1 ∷ 2 ∷ []))
    ∷ (none_opened, stats 1 0)
    ∷ (all_well, stats 1 0)
    ∷ (all_well, packet 8 unknown [])
    ∷ (all_well, stop_file)
    ∷ []

handle_all-IsFinished_example :
    EachFile (IsFinished plain_text) (handle_all two_files (idle [])).files
handle_all-IsFinished_example =
    handle_all-IsFinished plain_text two_files []
      (
        request-IsHeading,
        (
          (refl, (omega arith, omega arith, tt)),
          (refl, (refl, ((refl, (omega arith, omega arith, tt)), (tt, tt)))),
        ),
      )
      tt

-- Two files are there at the end, and no other.
two_paths :
    map (λ f. f.0) (handle_all two_files (idle [])).files
    ≡ member_path base (some every_packet) 1 ∷ member_path base (some every_packet) 2 ∷ []
unfolding handle_all handle idle start stop open_next finish_and_rename rename write_packet
    try_write_packet on_tick try_write_stats end_reason autostop_reason should_rotate rotate
    member_path partial_path file_stem extension four_digits at_last_dot decimal lookup insert
    remove contains_key create write_block
two_paths = refl

handle_all-IsShown_example : IsShown (handle_all two_files (idle []))
handle_all-IsShown_example = handle_all-IsShown two_files []

abbrev twelfth : ℕ
twelfth = 12

member_path-injective_example : twelfth ≡ twelfth
member_path-injective_example =
    member_path-injective base every_packet twelfth twelfth (omega arith) (omega arith) refl

abbrev begun_state : RingState
begun_state = running 0 request (create request.idb request.hostname request.agent_version)

on_tick-bytes_written_example :
    HasTotal (bytes_written begun_state) (on_tick all_well 3 1 (some begun_state) [])
on_tick-bytes_written_example = on_tick-bytes_written all_well 3 1 begun_state []

abbrev begun_files : Files
begun_files =
    insert (partial_path (member_path base (some every_packet) 1)) begun_state.writer.file []

begins : start (some 1000000000) opened 0 none [] request ≡ (ok tt, some begun_state, begun_files)
unfolding start open_next contains_key lookup
begins = refl

abbrev one_packet : RingState
one_packet = (write_packet written begun_state 7 inbound (1 ∷ 2 ∷ [])).0

abbrev second_file : RingState × Files
second_file = rotate all_well (with_stats all_well 1 0 one_packet) begun_files

rotates_here :
    on_tick all_well 1 0 (some one_packet) begun_files
    ≡ (some (status_of second_file.0), some second_file.0, second_file.1)
unfolding on_tick end_reason autostop_reason should_rotate write_packet try_write_packet
rotates_here = refl

one_rotation :
    RunOf request (packet_read ethernet 7 inbound (1 ∷ 2 ∷ []) ∷ []) second_file.0 second_file.1
unfolding write_packet try_write_packet
one_rotation =
    ticked all_well 1 0 (some (status_of second_file.0)) second_file.0 second_file.1
      (packet_kept one_packet 7 inbound (1 ∷ 2 ∷ [])
        (begun (some 1000000000) opened 0 none [] begins) (omega arith, omega arith, tt) refl)
      refl refl (omega arith) rotates_here

stop-RunOf_example :
    (members : List (List ParsedPacket)) × (length members ≡ second_file.0.current_index)
    × HasMembers plain_text en0 base every_packet 1 members
        (stop renamed (some second_file.0) second_file.1).1
    × (all_packets members ≡ packet_read ethernet 7 inbound (1 ∷ 2 ∷ []) ∷ [])
stop-RunOf_example =
    stop-RunOf plain_text request every_packet (packet_read ethernet 7 inbound (1 ∷ 2 ∷ []) ∷ [])
      second_file.0 second_file.1 request-IsHeading refl one_rotation

abbrev after_five_bytes : Answers
after_five_bytes = record all_well { writing = written_cut 5 }

-- A block that was written in part stays in the file, and the file gets its final name.
cut_block_renamed :
    map
      (λ f. f.1)
      (handle_all
        ((all_well, start_file request)
          ∷ (after_five_bytes, packet 7 inbound (1 ∷ 2 ∷ []))
          ∷ (all_well, stop_file)
          ∷ [])
        (idle [])).files
    ≡ ((create en0 (104 ∷ []) (49 ∷ [])).file ++ take 5 (packet_bytes 7 inbound (1 ∷ 2 ∷ []))) ∷ []
unfolding handle_all handle idle start stop open_next finish_and_rename rename write_packet
    try_write_packet member_path partial_path file_stem extension four_digits at_last_dot decimal
    lookup insert remove contains_key create write_block packet_bytes section_bytes section_body
    interface_bytes interface_body packet_body block_bytes option_bytes pcapng_linktype
    epb_flags_bits
cut_block_renamed = refl

abbrev cut_at_opening : Answers
cut_at_opening = record all_well { opening = opened_cut 5 }

abbrev not_begun : RingState × Files
not_begun = rotate cut_at_opening one_packet begun_files

-- A rotation is due with one packet in the file.
is_due : should_rotate 1000000000 one_packet ≡ true
unfolding should_rotate write_packet try_write_packet
is_due = refl

-- A tick at which the next file is opened, but not begun.
abbrev not_begun_thread : Thread
not_begun_thread = record (idle []) { current = some not_begun.0; files = not_begun.1 }

next_taken : contains_key (next_partial not_begun.0) not_begun.1 ≡ true
unfolding rotate open_next contains_key lookup insert member_path partial_path file_stem extension
    four_digits at_last_dot decimal write_packet try_write_packet
next_taken = refl

-- All is well with the system from then on.
abbrev ticks_later : List (Answers × WriterCommand)
ticks_later = (all_well, stats 1 0) ∷ (all_well, packet 8 unknown []) ∷ (all_well, stats 1 0) ∷ []

handle_all-IsStuck_example :
    IsStuck not_begun.0 not_begun.1
      (handle_all ticks_later not_begun_thread).current
      (handle_all ticks_later not_begun_thread).files
handle_all-IsStuck_example =
    handle_all-IsStuck ticks_later not_begun.0 not_begun_thread tt refl next_taken

-- A file that was opened but not begun stands in the way of every later rotation.
no_rotation_again : rotate all_well not_begun.0 not_begun.1 ≡ (one_packet, not_begun.1)
unfolding rotate open_next contains_key lookup insert member_path partial_path file_stem extension
    four_digits at_last_dot decimal write_packet try_write_packet
no_rotation_again = refl
