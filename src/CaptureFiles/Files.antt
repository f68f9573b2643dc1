-- ===== src/CaptureFiles/Files.antt =====
-- How capture-agent/src/ring.rs and `Writer` of pcapng.rs touch the file system. What the system
-- answers to a call is an argument.
use network_monitor.Base.{
  same_bytes, same_bytes_iff, ℕ, ◌+◌, Bool, true, false, Option, none, some, List, if◌then◌else◌,
  length, take, Eq, string_eq, Table, lookup, contains_key, insert, remove,
}
use network_monitor.Pcapng.Codec.{Direction}
use network_monitor.Pcapng.Writer.{
  InterfaceDescriptionBlock, Writer, create, write_packet, write_interface_stats,
}
use network_monitor.CaptureFiles.Paths.{RingConfig, BasePath, member_path, partial_path}

instance abbrev pub path_eq : Eq (List ℕ)
path_eq = record { beq = same_bytes; beq_iff = same_bytes_iff }

-- The files by path. An open file's content is its writer's until it is closed.
abbrev pub Files : Type 0
Files = Table (List ℕ) (List ℕ)

-- A file is opened, or is not, or its first blocks are written in part only.
pub data Opening : Type 0 where
  opened refused : Opening
  opened_cut : (bytes : ℕ) → Opening

-- A block is written, or only its first bytes are.
pub data Writing : Type 0 where
  written : Writing
  written_cut : (bytes : ℕ) → Writing

-- A file is closed and renamed, or one of the two fails.
pub data Closing : Type 0 where
  renamed unsynced unrenamed : Closing

abbrev pub created : Opening → Files → List ℕ → Writer → Option Writer × Files
created opened files partial w = (some w, insert partial w.file files)
created refused files partial w = (none, files)
created (opened_cut bytes) files partial w = (none, insert partial (take bytes w.file) files)

-- `Writer::create` refuses a path that is there.
unfoldable pub open_next :
    Opening
    → Files
    → BasePath
    → Option RingConfig
    → ℕ
    → InterfaceDescriptionBlock
    → List ℕ
    → List ℕ
    → Option Writer × Files
open_next opening files base ring index idb hostname agent_version =
    let partial = partial_path (member_path base ring index) in
    if contains_key partial files
    then (none, files)
    else created opening files partial (create idb hostname agent_version)

abbrev pub moved : Option (List ℕ) → List ℕ → List ℕ → Files → Files
moved none from to files = files
moved (some content) from to files = insert to content (remove from files)

-- `std::fs::rename`, over a file that is there already too.
unfoldable pub rename : List ℕ → List ℕ → Files → Files
rename from to files = moved (lookup from files) from to files

-- A failure is only logged by the callers.
unfoldable pub finish_and_rename : Closing → Files → Writer → List ℕ → Files
finish_and_rename renamed files w final_path =
    rename (partial_path final_path) final_path (insert (partial_path final_path) w.file files)
finish_and_rename unsynced files w final_path = insert (partial_path final_path) w.file files
finish_and_rename unrenamed files w final_path = insert (partial_path final_path) w.file files

-- A block that is written in part is not counted. The blocks' writes append to the file.
abbrev pub cut_to : ℕ → Writer → Writer → Writer
cut_to bytes w whole = record w { file = take (length w.file + bytes) whole.file }

-- `Writer::write_packet`, and whether it is `Ok`.
unfoldable pub try_write_packet : Writing → Writer → ℕ → Direction → List ℕ → Writer × Bool
try_write_packet written w timestamp direction frame =
    (write_packet w timestamp direction frame, true)
try_write_packet (written_cut bytes) w timestamp direction frame =
    (cut_to bytes w (write_packet w timestamp direction frame), false)

-- `Writer::write_interface_stats`.
unfoldable pub try_write_stats : Writing → Writer → ℕ → ℕ → ℕ → Writer
try_write_stats written w timestamp received dropped =
    write_interface_stats w timestamp received dropped
try_write_stats (written_cut bytes) w timestamp received dropped =
    cut_to bytes w (write_interface_stats w timestamp received dropped)
