-- ===== src/Reassembly/Buffer/Sound.antt =====
-- Writing into a sound buffer.
use network_monitor.Base.{ℕ, ◌+◌, ◌^◌, ◌≤◌, ◌≡◌, List, arith, length, u64_max, string_eq}
use network_monitor.Reassembly.Coverage.{run_length, write_first_seen_wins}
use network_monitor.Reassembly.Coverage.Writes.{
  length-write_first_seen_wins, write_first_seen_wins_at,
}
use network_monitor.Reassembly.Coverage.Prefix.{le-run_length, get_or_of_lt_run_length}
use network_monitor.Reassembly.Buffer.{
  Allocator, Buffer, empty_buffer, accounted_bytes, IsSound, capacity_for, write_into,
}

pub empty_buffer-IsSound : (cap : ℕ) → IsSound cap empty_buffer
empty_buffer-IsSound cap = omega arith

pub accounted_bytes_lem :
    {cap : ℕ} {b : Buffer}
    → IsSound cap b
    → (accounted_bytes b ≡ b.bytes_capacity + b.filled_capacity) × (accounted_bytes b ≤ 2 ^ 33)
unfolding accounted_bytes
accounted_bytes_lem s = omega arith

module _ (alloc : Allocator) where
  pub capacity_for_lem :
      (capacity needed : ℕ)
      → capacity ≤ 2 ^ 32
      → needed ≤ 2 ^ 20
      → (needed ≤ capacity_for alloc capacity needed)
        × (capacity_for alloc capacity needed ≤ 2 ^ 32)
  unfolding capacity_for
  capacity_for_lem capacity needed h k =
      ground (arith, alloc.enough capacity needed, alloc.bounded capacity needed)

  -- A write keeps the two vectors of one length, under the cap and within their capacities.
  pub write_into-IsSound :
      (b : Buffer) (offset : ℕ) (piece : List ℕ) (cap : ℕ)
      → cap ≤ 2 ^ 20
      → offset + length piece ≤ u64_max
      → IsSound cap b
      → IsSound cap (write_into alloc b offset piece cap).0
  unfolding write_into
  write_into-IsSound b offset piece cap hc h s =
      let w = write_first_seen_wins b.bytes b.filled offset piece cap in
      let l = length-write_first_seen_wins b.bytes b.filled offset piece cap s.paired h in
      let capped : length w.bytes ≤ cap = ground (arith, l) in
      let cb = capacity_for_lem b.bytes_capacity (length w.bytes) s.small_bytes (omega arith) in
      let cf = capacity_for_lem b.filled_capacity (length w.filled) s.small_filled (omega arith) in
      record {
        paired = l.0;
        capped = capped;
        fits_bytes = cb.0;
        fits_filled = cf.0;
        small_bytes = cb.1;
        small_filled = cf.1;
      }

  -- A write never shortens the run of held bytes from the start.
  pub run_length-write_into :
      (b : Buffer) (offset : ℕ) (piece : List ℕ) (cap : ℕ)
      → offset + length piece ≤ u64_max
      → length b.bytes ≡ length b.filled
      → run_length b.filled ≤ run_length (write_into alloc b offset piece cap).0.filled
  unfolding write_into
  run_length-write_into b offset piece cap h e = le-run_length _ (run_length b.filled) λ i hi.
      ground (
        arith,
        write_first_seen_wins_at b.bytes b.filled offset piece cap i e h,
        get_or_of_lt_run_length b.filled i hi,
      )
