-- ===== src/Reassembly/Status.antt =====
-- The outcomes, counters and limits of capture-agent/src/reassembly.rs.
use Prim.Native.String.{String}
use network_monitor.Base.{ℕ, ◌*◌, Bool, true, false, add64, string_eq}

pub data ReassemblyStatus : Type 0 where
  reassembled incomplete_truncated_at_capture incomplete_missing_frames : ReassemblyStatus

pub label : ReassemblyStatus → String
label reassembled = "reassembled"
label incomplete_truncated_at_capture = "incomplete — frames truncated at capture"
label incomplete_missing_frames = "incomplete — frames missing"

pub is_complete : ReassemblyStatus → Bool
is_complete reassembled = true
is_complete incomplete_truncated_at_capture = false
is_complete incomplete_missing_frames = false

pub record ReassemblyCounters : Type 0 where
  pub completed : ℕ
  pub incomplete_truncated_at_capture : ℕ
  pub incomplete_missing_frames : ℕ
  pub abandoned_without_completing : ℕ
  pub evicted_idle : ℕ
  pub evicted_capacity : ℕ
  pub conflicting_overlap_bytes : ℕ
  pub conflicting_terminal_fragments : ℕ

abbrev pub no_counts : ReassemblyCounters
no_counts = record {
  completed = 0;
  incomplete_truncated_at_capture = 0;
  incomplete_missing_frames = 0;
  abandoned_without_completing = 0;
  evicted_idle = 0;
  evicted_capacity = 0;
  conflicting_overlap_bytes = 0;
  conflicting_terminal_fragments = 0;
}

-- The counter of an outcome, one higher.
pub count_outcome : ReassemblyStatus → ReassemblyCounters → ReassemblyCounters
count_outcome reassembled c = record c { completed = add64 c.completed 1 }
count_outcome incomplete_truncated_at_capture c = record c {
  incomplete_truncated_at_capture = add64 c.incomplete_truncated_at_capture 1;
}
count_outcome incomplete_missing_frames c = record c {
  incomplete_missing_frames = add64 c.incomplete_missing_frames 1;
}

abbrev pub max_fragment_group_bytes : ℕ
max_fragment_group_bytes = 65_535

abbrev pub max_fragment_groups : ℕ
max_fragment_groups = 512

abbrev pub max_fragment_bytes_total : ℕ
max_fragment_bytes_total = 4 * 1024 * 1024

abbrev pub fragment_timeout_ms : ℕ
fragment_timeout_ms = 15_000

abbrev pub max_tcp_stream_bytes : ℕ
max_tcp_stream_bytes = 16 * 1024

abbrev pub max_tcp_streams : ℕ
max_tcp_streams = 2_048

abbrev pub max_tcp_bytes_total : ℕ
max_tcp_bytes_total = 4 * 1024 * 1024

abbrev pub tcp_stream_idle_ms : ℕ
tcp_stream_idle_ms = 30_000

abbrev pub tcp_decision_window_ms : ℕ
tcp_decision_window_ms = 2_000
