-- ===== src/CaptureFiles/Thread.antt =====
-- The thread of capture-agent/src/main.rs that owns the run, and what it shares with the others.
use network_monitor.Base.{ℕ, Bool, true, false, Option, none, some, List, [], ◌∷◌, ◌++◌, string_eq}
use Prim.Native.String.{String}
use network_monitor.Base.Results.{Result, ok, err}
use network_monitor.Pcapng.Codec.{Direction}
use network_monitor.CaptureFiles.Files.{Files}
use network_monitor.CaptureFiles.Run.{
  RingState, StartError, StartRequest, start, stop, write_packet, bytes_written, Status, Answers,
  on_tick,
}

pub data WriterCommand : Type 0 where
  start_file : (request : StartRequest) → WriterCommand
  stop_file : WriterCommand
  packet : (timestamp : ℕ) (direction : Direction) (frame : List ℕ) → WriterCommand
  stats : (received dropped : ℕ) → WriterCommand

-- What the other threads see.
pub record Shared : Type 0 where
  pub is_active : Bool
  pub bytes : ℕ
  pub path : Option (List ℕ)
  pub ring_file : Option ℕ
  pub stop_reason : Option String

-- The run, the files, what is shared, and the errors that were sent.
pub record Thread : Type 0 where
  pub current : Option RingState
  pub files : Files
  pub shared : Shared
  pub errors : List StartError

unfoldable pub apply_status : Status → Shared
apply_status status = record {
  is_active = status.is_writing;
  bytes = status.bytes;
  path = some status.path;
  ring_file = status.ring_file;
  stop_reason = status.stop_reason;
}

abbrev pub after_start :
    Thread → StartRequest → Result StartError (Unit {0}) × Option RingState × Files → Thread
after_start t request (ok done, current, files) = record t {
  current = current;
  files = files;
  shared = record {
    is_active = true;
    bytes = 0;
    path = some (request.base_path.directory ++ request.base_path.file_name);
    ring_file = none;
    stop_reason = none;
  };
}
after_start t request (err e, current, files) = record t {
  current = current;
  files = files;
  errors = t.errors ++ (e ∷ []);
}

abbrev pub after_stop : Thread → Option RingState × Files → Thread
after_stop t (current, files) = record t {
  current = current;
  files = files;
  shared = record t.shared { is_active = false; stop_reason = none };
}

abbrev pub after_packet : Thread → RingState × Bool → Thread
after_packet t (s, true) = record t {
  current = some s;
  shared = record t.shared { bytes = bytes_written s };
}
after_packet t (s, false) = record t { current = some s }

abbrev pub packet_to : Answers → Thread → ℕ → Direction → List ℕ → Option RingState → Thread
packet_to answers t timestamp direction frame none = t
packet_to answers t timestamp direction frame (some s) =
    after_packet t (write_packet answers.writing s timestamp direction frame)

abbrev pub after_tick : Thread → Option Status × Option RingState × Files → Thread
after_tick t (none, current, files) = record t { current = current; files = files }
after_tick t (some status, current, files) = record t {
  current = current;
  files = files;
  shared = apply_status status;
}

unfoldable pub handle : Answers → WriterCommand → Thread → Thread
handle answers (start_file request) t =
    after_start t request
      (start answers.free_space answers.opening answers.now t.current t.files request)
handle answers stop_file t = after_stop t (stop answers.closing t.current t.files)
handle answers (packet timestamp direction frame) t =
    packet_to answers t timestamp direction frame t.current
handle answers (stats received dropped) t =
    after_tick t (on_tick answers received dropped t.current t.files)

-- Nothing was asked for yet.
unfoldable pub idle : Files → Thread
idle files = record {
  current = none;
  files = files;
  shared = record {
    is_active = false;
    bytes = 0;
    path = none;
    ring_file = none;
    stop_reason = none;
  };
  errors = [];
}

unfoldable pub handle_all : List (Answers × WriterCommand) → Thread → Thread
handle_all [] t = t
handle_all ((answers, command) ∷ rest) t = handle_all rest (handle answers command t)
