-- ===== src/CaptureFiles/Run.antt =====
-- A run of capture-agent/src/ring.rs: `RingState` and what is done with it. An `Instant` is a number
-- of nanoseconds.
use Prim.Native.String.{String}
use network_monitor.Base.{
  ℕ, ◌-◌, ◌*◌, ◌/◌, Bool, true, false, ◌&&◌, Option, none, some, List, ltb, leb, if◌then◌else◌,
  wrapping_add32, add64, string_eq,
}
use network_monitor.Base.Results.{Result, ok, err}
use network_monitor.Pcapng.Codec.{Direction}
use network_monitor.Pcapng.Writer.{InterfaceDescriptionBlock, Writer}
use network_monitor.CaptureFiles.Paths.{RingConfig, AutostopConfig, BasePath, member_path}
use network_monitor.CaptureFiles.Files.{
  Files, Opening, Writing, Closing, open_next, finish_and_rename, try_write_packet, try_write_stats,
}

-- `DEFAULT_LOW_DISK_FLOOR_BYTES`.
abbrev pub low_disk_floor_bytes : ℕ
low_disk_floor_bytes = 500 * 1024 * 1024

pub record RingState : Type 0 where
  pub writer : Writer
  pub base_path : BasePath
  pub idb : InterfaceDescriptionBlock
  pub hostname : List ℕ
  pub agent_version : List ℕ
  pub ring : Option RingConfig
  pub autostop : Option AutostopConfig
  pub current_index : ℕ
  pub started_at : ℕ
  pub file_started_at : ℕ
  pub packets_this_file : ℕ
  pub bytes_before_current_file : ℕ

-- Why a run does not start.
pub data StartError : Type 0 where
  no_free_space_known no_file_opened : StartError
  below_floor : (free : ℕ) → StartError

-- What a run is asked for with.
pub record StartRequest : Type 0 where
  pub base_path : BasePath
  pub ring : Option RingConfig
  pub autostop : Option AutostopConfig
  pub idb : InterfaceDescriptionBlock
  pub hostname : List ℕ
  pub agent_version : List ℕ

abbrev pub running : ℕ → StartRequest → Writer → RingState
running now request w = record {
  writer = w;
  base_path = request.base_path;
  idb = request.idb;
  hostname = request.hostname;
  agent_version = request.agent_version;
  ring = request.ring;
  autostop = request.autostop;
  current_index = 1;
  started_at = now;
  file_started_at = now;
  packets_this_file = 0;
  bytes_before_current_file = 0;
}

abbrev pub started :
    Option RingState
    → ℕ
    → StartRequest
    → Option Writer × Files
    → Result StartError (Unit {0}) × Option RingState × Files
started state now request (none, files) = (err no_file_opened, state, files)
started state now request (some w, files) = (ok tt, some (running now request w), files)

-- `free_space` is the system's answer, `none` for an error.
unfoldable pub start :
    Option ℕ
    → Opening
    → ℕ
    → Option RingState
    → Files
    → StartRequest
    → Result StartError (Unit {0}) × Option RingState × Files
start none opening now state files request = (err no_free_space_known, state, files)
start (some free) opening now state files request =
    if ltb free low_disk_floor_bytes
    then (err (below_floor free), state, files)
    else started state now request (
        open_next opening files request.base_path request.ring 1 request.idb request.hostname
          request.agent_version)

abbrev pub final_path : RingState → List ℕ
final_path s = member_path s.base_path s.ring s.current_index

unfoldable pub stop : Closing → Option RingState → Files → Option RingState × Files
stop closing none files = (none, files)
stop closing (some s) files = (none, finish_and_rename closing files s.writer (final_path s))

-- A packet that was not written is not counted.
abbrev pub counted : RingState → Writer × Bool → RingState × Bool
counted s (w, true) =
    (record s { writer = w; packets_this_file = add64 s.packets_this_file 1 }, true)
counted s (w, false) = (record s { writer = w }, false)

unfoldable pub write_packet : Writing → RingState → ℕ → Direction → List ℕ → RingState × Bool
write_packet writing s timestamp direction frame =
    counted s (try_write_packet writing s.writer timestamp direction frame)

unfoldable pub bytes_written : RingState → ℕ
bytes_written s = add64 s.bytes_before_current_file s.writer.bytes_written

-- `elapsed().as_secs()`.
abbrev pub elapsed_secs : ℕ → ℕ → ℕ
elapsed_secs now since = (now - since) / 1000000000

abbrev pub rotates : ℕ → RingState → Option RingConfig → Bool
rotates now s none = false
rotates now s (some ring) =
    if string_eq.beq ring.mode "size"
    then leb ring.threshold s.writer.bytes_written
    else if string_eq.beq ring.mode "duration"
    then leb ring.threshold (elapsed_secs now s.file_started_at)
    else if string_eq.beq ring.mode "count"
    then leb ring.threshold s.packets_this_file
    else false

unfoldable pub should_rotate : ℕ → RingState → Bool
should_rotate now s = rotates now s s.ring

abbrev pub stops : ℕ → RingState → Option AutostopConfig → Option String
stops now s none = none
stops now s (some autostop) =
    if string_eq.beq autostop.mode "duration"
      && leb autostop.threshold (elapsed_secs now s.started_at)
    then some "duration"
    else if string_eq.beq autostop.mode "totalSize"
    then if leb autostop.threshold (bytes_written s) then some "totalSize" else none
    else none

unfoldable pub autostop_reason : ℕ → RingState → Option String
autostop_reason now s = stops now s s.autostop

-- `CaptureFileStatusJson`, without the fields that are always absent or 0 here.
pub record Status : Type 0 where
  pub is_writing : Bool
  pub path : List ℕ
  pub bytes : ℕ
  pub ring_file : Option ℕ
  pub stop_reason : Option String

-- What the system answers to a command: its two clocks, and the outcome of each call.
pub record Answers : Type 0 where
  pub now : ℕ
  pub wall_clock : ℕ
  pub free_space : Option ℕ
  pub writing : Writing
  pub opening : Opening
  pub closing : Closing

abbrev pub is_low : Option ℕ → Bool
is_low none = false
is_low (some free) = ltb free low_disk_floor_bytes

-- The reason to end a run.
unfoldable pub end_reason : Answers → RingState → Option String
end_reason answers s = elim (autostop_reason answers.now s) [
  | some reason ↦ some reason
  | none ↦ if is_low answers.free_space then some "lowDisk" else none
]

abbrev pub replaced : Answers → RingState → Option Writer × Files → RingState × Files
replaced answers s (none, files) = (s, files)
replaced answers s (some w, files) = (
  record s {
    writer = w;
    bytes_before_current_file = bytes_written s;
    packets_this_file = 0;
    file_started_at = answers.now;
    current_index = wrapping_add32 s.current_index 1;
  },
  finish_and_rename answers.closing files s.writer (final_path s),
)

-- The next file; with none opened the run goes on in its file.
unfoldable pub rotate : Answers → RingState → Files → RingState × Files
rotate answers s files = replaced answers s (
    open_next answers.opening files s.base_path s.ring (wrapping_add32 s.current_index 1) s.idb
      s.hostname s.agent_version)

abbrev pub rotated : Bool → Answers → RingState → Files → RingState × Files
rotated true answers s files = rotate answers s files
rotated false answers s files = (s, files)

abbrev pub ring_file_of : RingState → Option RingConfig → Option ℕ
ring_file_of s none = none
ring_file_of s (some ring) = some s.current_index

abbrev pub status_of : RingState → Status
status_of s = record {
  is_writing = true;
  path = final_path s;
  bytes = bytes_written s;
  ring_file = ring_file_of s s.ring;
  stop_reason = none;
}

abbrev pub ended :
    Answers → RingState → Files → Option String → Option Status × Option RingState × Files
ended answers s files (some reason) = (
  some (record {
    is_writing = false;
    path = final_path s;
    bytes = bytes_written s;
    ring_file = none;
    stop_reason = some reason;
  }),
  none,
  finish_and_rename answers.closing files s.writer (final_path s),
)
ended answers s files none =
    let (s', files') = rotated (should_rotate answers.now s) answers s files in
    (some (status_of s'), some s', files')

-- A run whose file has statistics.
abbrev pub with_stats : Answers → ℕ → ℕ → RingState → RingState
with_stats answers received dropped s = record s {
  writer = try_write_stats answers.writing s.writer answers.wall_clock received dropped;
}

-- Statistics, then the end of the run, then a rotation.
unfoldable pub on_tick :
    Answers → ℕ → ℕ → Option RingState → Files → Option Status × Option RingState × Files
on_tick answers received dropped none files = (none, none, files)
on_tick answers received dropped (some s) files =
    let s' = with_stats answers received dropped s in ended answers s' files (end_reason answers s')
