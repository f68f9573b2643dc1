-- ===== src/Reassembly/Segments/Stream.antt =====
-- `TcpStream` of capture-agent/src/reassembly.rs: one direction of a connection.
pub mod Sound
use network_monitor.Base.{
  ℕ, zero, suc, ◌+◌, ◌-◌, ◌*◌, ◌/◌, ◌%◌, ◌^◌, ◌≤◌, ◌<◌, min, max, ◌≡◌, refl, sym, ap, ◌∙◌, subst,
  ◌≢◌, ◌↔◌, ◌⊎◌, inl, inr, Bool, true, false, not, ◌&&◌, ◌||◌, Option, none, some, List, [], ◌∷◌,
  ◌++◌, map, arith, ltb, leb, ◌==◌, if◌then◌else◌, is_some, ltb→lt, lt→ltb, le→ltb, leb→le, le→leb,
  ==_iff, tests, Bool-cases, Option-cases, length, get_elem?, get_or, set, take, drop, replicate,
  resize, length-append, length-set, length-take, length-drop, length-replicate, length-resize,
  take-append-drop, get_or-resize, get_or-set_self, get_or-set_ne, get_or_beyond, get_or-take,
  get_or_ext, u32_mod, u64_max, wrapping_add32, wrapping_sub32, saturating_add, add64, Eq,
  string_eq, beq_refl, Table, measure_of, lookup, contains_key, insert, remove, total, AllValues,
  total-remove, total-insert, length-remove, length-insert, lookup-AllValues, remove-AllValues,
  insert-AllValues, lookup-insert, lookup-remove_ne,
}
use network_monitor.Reassembly.Status.{
  ReassemblyStatus, reassembled, incomplete_truncated_at_capture, incomplete_missing_frames,
  max_tcp_stream_bytes, tcp_stream_idle_ms,
}
use network_monitor.Reassembly.Buffer.{Allocator, Buffer, empty_buffer}
use network_monitor.Reassembly.Buffer
use network_monitor.Reassembly.Fragments.Group.{some_at_most}

-- `data` and `filled` are the `buffer`.
pub record TcpStream : Type 0 where
  pub base_seq : ℕ
  pub buffer : Buffer
  pub prefix_len : ℕ
  pub short_captured_at : Option ℕ
  pub finished : Bool
  pub first_seen_ms : ℕ
  pub last_seen_ms : ℕ

unfoldable pub is_idle : TcpStream → ℕ → Bool
is_idle t now_ms = ltb tcp_stream_idle_ms (now_ms - t.last_seen_ms)

unfoldable pub accounted_bytes : TcpStream → ℕ
accounted_bytes t = Buffer.accounted_bytes t.buffer

pub new : ℕ → ℕ → TcpStream
new seq now_ms = record {
  base_seq = seq;
  buffer = empty_buffer;
  prefix_len = 0;
  short_captured_at = none;
  finished = false;
  first_seen_ms = now_ms;
  last_seen_ms = now_ms;
}

pub release : TcpStream → TcpStream
release t = record t { buffer = empty_buffer; prefix_len = 0 }

pub status : TcpStream → ReassemblyStatus
status t =
    if some_at_most t.short_captured_at t.prefix_len
    then incomplete_truncated_at_capture
    else if ltb t.prefix_len (length t.buffer.filled)
    then incomplete_missing_frames
    else reassembled

-- `map(|at| at.saturating_add(shift))`.
abbrev pub shift_mark : Option ℕ → ℕ → Option ℕ
shift_mark none shift = none
shift_mark (some at) shift = some (saturating_add at shift)

module _ (alloc : Allocator) where
  -- Each vector is made anew with `shift` items and extended; `truncate` keeps its capacity.
  pub rebase : TcpStream → ℕ → ℕ → TcpStream
  rebase t shift new_base = record t {
    buffer = record {
      bytes = take max_tcp_stream_bytes (replicate shift 0 ++ t.buffer.bytes);
      filled = take max_tcp_stream_bytes (replicate shift false ++ t.buffer.filled);
      bytes_capacity =
          Buffer.capacity_for alloc (Buffer.capacity_for alloc 0 shift)
            (shift + length t.buffer.bytes);
      filled_capacity =
          Buffer.capacity_for alloc (Buffer.capacity_for alloc 0 shift)
            (shift + length t.buffer.filled);
    };
    base_seq = new_base;
    prefix_len = 0;
    short_captured_at = shift_mark t.short_captured_at shift;
  }
