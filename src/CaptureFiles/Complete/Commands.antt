-- ===== src/CaptureFiles/Complete/Commands.antt =====
-- Command after command of the writer thread in capture-agent/src/main.rs, when every block is
-- written in full.
use network_monitor.Base.{ℕ, ◌≡◌, Option, none, some, List, [], ◌∷◌, string_eq}
use network_monitor.Base.Results.{Result, ok, err}
use network_monitor.Pcapng.Codec.{Direction}
use network_monitor.Pcapng.RoundTrip.File.{packet, AreEntries}
use network_monitor.CaptureFiles.Files.{path_eq, Files, written, try_write_packet}
use network_monitor.CaptureFiles.Run.{
  RingState, StartRequest, StartError, Status, write_packet, Answers,
}
use network_monitor.CaptureFiles.Thread.{
  WriterCommand, start_file, stop_file, packet as packet_file, stats as stats_file, Thread, handle,
  handle_all, idle, after_start, packet_to, after_tick,
}
use network_monitor.CaptureFiles.Complete.{EachFile, IsFinished, IsHeading, write_entry-Holds}
use network_monitor.CaptureFiles.Complete.Calls.{
  IsCurrent, Leaves, start-Leaves, stop-Leaves, on_tick-Leaves,
}

-- What is written fits in a block, and is written in full.
abbrev pub IsSound : (List ℕ → List ℕ) → Answers → WriterCommand → Type 0
IsSound lossy answers (start_file request) =
    IsHeading lossy request.idb request.hostname request.agent_version
IsSound lossy answers stop_file = Unit
IsSound lossy answers (packet_file timestamp direction frame) =
    (answers.writing ≡ written) × AreEntries (packet timestamp direction frame ∷ [])
IsSound lossy answers (stats_file received dropped) = answers.writing ≡ written

abbrev pub AreSound : (List ℕ → List ℕ) → List (Answers × WriterCommand) → Type 0
AreSound lossy [] = Unit
AreSound lossy ((answers, command) ∷ rest) = IsSound lossy answers command × AreSound lossy rest

-- The run is sound, and so is every file.
record IsThread (lossy : List ℕ → List ℕ) (t : Thread) : Type 0 where
  current : IsCurrent lossy t.current
  finished : EachFile (IsFinished lossy) t.files

module _ (lossy : List ℕ → List ℕ) where
  packet_to-IsThread :
      (answers : Answers) (t : Thread) (timestamp : ℕ) (direction : Direction) (frame : List ℕ)
      (state : Option RingState)
      → answers.writing ≡ written
      → AreEntries (packet timestamp direction frame ∷ [])
      → IsCurrent lossy state
      → IsThread lossy t
      → IsThread lossy (packet_to answers t timestamp direction frame state)
  unfolding write_packet try_write_packet
  packet_to-IsThread answers t timestamp direction frame none w f c h = h
  packet_to-IsThread answers t timestamp direction frame (some s) w f c h = rw w (record {
    current = record {
      heading = c.heading;
      holds =
          write_entry-Holds s.idb s.hostname s.agent_version s.writer
            (packet timestamp direction frame) f c.holds;
    };
    finished = h.finished;
  })

  after_start-IsThread :
      (t : Thread) (request : StartRequest)
      (r : Result StartError (Unit {0}) × Option RingState × Files)
      → Leaves lossy r.1 r.2
      → IsThread lossy (after_start t request r)
  after_start-IsThread t request (ok done, current, files) l = record {
    current = l.0;
    finished = l.1;
  }
  after_start-IsThread t request (err e, current, files) l = record {
    current = l.0;
    finished = l.1;
  }

  after_tick-IsThread :
      (t : Thread) (r : Option Status × Option RingState × Files)
      → Leaves lossy r.1 r.2
      → IsThread lossy (after_tick t r)
  after_tick-IsThread t (none, current, files) l = record { current = l.0; finished = l.1 }
  after_tick-IsThread t (some status, current, files) l = record { current = l.0; finished = l.1 }

  handle-IsThread :
      (answers : Answers) (command : WriterCommand) (t : Thread)
      → IsSound lossy answers command
      → IsThread lossy t
      → IsThread lossy (handle answers command t)
  unfolding handle
  handle-IsThread answers (start_file request) t v h = after_start-IsThread t request _ (
      start-Leaves lossy answers.free_space answers.opening answers.now t.current t.files request
        h.current h.finished v)
  handle-IsThread answers stop_file t v h =
      let l = stop-Leaves lossy answers.closing t.current t.files h.current h.finished in
      record { current = l.0; finished = l.1 }
  handle-IsThread answers (packet_file timestamp direction frame) t v h =
      packet_to-IsThread answers t timestamp direction frame t.current v.0 v.1 h.current h
  handle-IsThread answers (stats_file received dropped) t v h =
      after_tick-IsThread t _
        (on_tick-Leaves lossy answers received dropped t.current t.files v h.current h.finished)

  handle_all-IsThread :
      (commands : List (Answers × WriterCommand)) (t : Thread)
      → AreSound lossy commands
      → IsThread lossy t
      → IsThread lossy (handle_all commands t)
  unfolding handle_all
  handle_all-IsThread [] t v h = h
  handle_all-IsThread ((answers, command) ∷ rest) t v h =
      handle_all-IsThread rest (handle answers command t) v.1
        (handle-IsThread answers command t v.0 h)

-- After any commands in which every block that is written is written in full, whatever the system
-- answers to opening, closing and renaming, and whenever the process ends: each file is under a
-- name that ends in `.partial`, or the reader reads it without an error from its first block to its
-- end. This is so from any files of which it is so, when headings, times and frames fit.
pub handle_all-IsFinished :
    (lossy : List ℕ → List ℕ) (commands : List (Answers × WriterCommand)) (files : Files)
    → AreSound lossy commands
    → EachFile (IsFinished lossy) files
    → EachFile (IsFinished lossy) (handle_all commands (idle files)).files
unfolding idle
handle_all-IsFinished lossy commands files v a =
    let sound =
      handle_all-IsThread lossy commands (idle files) v (record { current = tt; finished = a }) in
    sound.finished
