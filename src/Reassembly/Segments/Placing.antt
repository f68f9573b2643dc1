-- ===== src/Reassembly/Segments/Placing.antt =====
-- Where a segment lands: by sequence number, which a shift of the buffer does not change.
use network_monitor.Base.{
  ℕ, ◌+◌, ◌-◌, ◌^◌, ◌≤◌, ◌<◌, ◌≡◌, ◌∙◌, ◌⊎◌, inl, inr, true, false, some, List, arith, length,
  get_or, u32_mod, u64_max, wrapping_add32, wrapping_sub32, saturating_add, string_eq,
}
use native.Mathlib.Nat.{le_trans}
use network_monitor.Reassembly.Status.{max_tcp_stream_bytes}
use network_monitor.Reassembly.Coverage.Writes.{write_first_seen_wins_at}
use network_monitor.Reassembly.Coverage.Prefix.{contiguous_len_from-run_length}
use network_monitor.Reassembly.Buffer.{Allocator, write_into}
use network_monitor.Reassembly.Buffer.Sound.{write_into-IsSound, run_length-write_into}
use network_monitor.Reassembly.Segments.Stream.{TcpStream, rebase}
use network_monitor.Reassembly.Segments.Stream.Sound.{
  HasBase, IsStream, IsPlaced, rebase_at, rebase-IsPlaced, base_seq-rebase,
}
use network_monitor.Reassembly.Segments.{place_segment, record_segment}

-- The byte with sequence number `n` is held, and is `b`.
pub record HoldsAt (t : TcpStream) (n b : ℕ) : Type 0 where
  pub index : ℕ
  pub numbered : wrapping_add32 t.base_seq index ≡ n
  pub is_held : get_or t.buffer.filled index false ≡ true
  pub is_byte : get_or t.buffer.bytes index 0 ≡ b

module _ (alloc : Allocator) where
  -- The two ways in which a segment is placed.
  pub place_segment_cases :
      (t : TcpStream) (seq : ℕ) (t' : TcpStream) (offset : ℕ)
      → place_segment alloc t seq ≡ some (t', offset)
      → let rel = wrapping_sub32 seq t.base_seq in
        ((2 ^ 31 ≤ rel)
          × (saturating_add (u32_mod - rel) (length t.buffer.bytes) ≤ max_tcp_stream_bytes)
          × (t' ≡ rebase alloc t (u32_mod - rel) seq)
          × (offset ≡ 0))
        ⊎ ((rel ≤ max_tcp_stream_bytes) × (t' ≡ t) × (offset ≡ rel))
  unfolding place_segment
  place_segment_cases t seq t' offset e = ground arith

  rebase-HoldsAt :
      (t : TcpStream) (shift seq n b : ℕ)
      → IsStream t
      → shift + length t.buffer.bytes ≤ max_tcp_stream_bytes
      → t.base_seq ≡ wrapping_add32 seq shift
      → HoldsAt t n b
      → HoldsAt (rebase alloc t shift seq) n b
  rebase-HoldsAt t shift seq n b v h e w =
      let r = rebase_at alloc t shift seq w.index v.sound.paired h in
      record {
        index = shift + w.index;
        numbered = rw (base_seq-rebase alloc t shift seq) (omega (arith, w.numbered));
        is_held = r.0 ∙ w.is_held;
        is_byte = r.1 ∙ w.is_byte;
      }

  -- What `place_segment` finds: the offset is that of the segment's sequence number, every byte
  -- held stays held under its sequence number, and the buffer is fit to be written.
  pub place_segment_lem :
      (t : TcpStream) (seq : ℕ) (t' : TcpStream) (offset : ℕ)
      → IsStream t
      → HasBase t
      → seq < u32_mod
      → place_segment alloc t seq ≡ some (t', offset)
      → IsPlaced t'
        × HasBase t'
        × (wrapping_add32 t'.base_seq offset ≡ seq)
        × (offset ≤ max_tcp_stream_bytes)
        × ((n b : ℕ) → HoldsAt t n b → HoldsAt t' n b)
  place_segment_lem t seq t' offset v hb hs e = elim (place_segment_cases t seq t' offset e) [
    | inl (far, fits, to, at) ↦
        let shift : ℕ = u32_mod - wrapping_sub32 seq t.base_seq in
        let room : shift + length t.buffer.bytes ≤ max_tcp_stream_bytes = omega arith in
        let base : t.base_seq ≡ wrapping_add32 seq shift = omega arith in
        rw (to, at)
          (
            rebase-IsPlaced alloc t shift seq v room,
            rw (base_seq-rebase alloc t shift seq) hs,
            rw (base_seq-rebase alloc t shift seq) (omega arith),
            omega arith,
            λ n b w. rebase-HoldsAt t shift seq n b v room base w,
          )
    | inr (near, to, at) ↦
        rw (to, at)
          (
            record { sound = v.sound; behind = omega (arith, v.contiguous) },
            hb,
            omega arith,
            near,
            λ n b w. w,
          )
  ]

  -- Writing the placed segment.
  pub record_segment-IsStream :
      (t : TcpStream) (offset : ℕ) (payload : List ℕ) (declared : ℕ)
      → IsPlaced t
      → offset ≤ max_tcp_stream_bytes
      → length payload < u32_mod
      → IsStream (record_segment alloc t offset payload declared).0
  unfolding record_segment
  record_segment-IsStream t offset payload declared v h k =
      let fits : offset + length payload ≤ u64_max = omega arith in
      record {
        sound =
            write_into-IsSound alloc t.buffer offset payload max_tcp_stream_bytes (omega arith) fits
              v.sound;
        contiguous = contiguous_len_from-run_length _ t.prefix_len (
            le_trans v.behind (
              run_length-write_into alloc t.buffer offset payload max_tcp_stream_bytes fits
                v.sound.paired));
      }

  record_segment-HoldsAt :
      (t : TcpStream) (offset : ℕ) (payload : List ℕ) (declared n b : ℕ)
      → IsPlaced t
      → offset ≤ max_tcp_stream_bytes
      → length payload < u32_mod
      → HoldsAt t n b
      → HoldsAt (record_segment alloc t offset payload declared).0 n b
  unfolding record_segment write_into
  record_segment-HoldsAt t offset payload declared n b v h k w =
      let r =
        write_first_seen_wins_at t.buffer.bytes t.buffer.filled offset payload max_tcp_stream_bytes
          w.index v.sound.paired (omega arith) in
      record {
        index = w.index;
        numbered = w.numbered;
        is_held = r.0 ∙ ground (arith, w.is_held);
        is_byte = r.1 ∙ ground (arith, w.is_held, w.is_byte);
      }

  -- First-seen bytes win on a stream too: once a segment is placed and recorded, every byte that
  -- was held is held under the same sequence number with the same value, also where the buffer was
  -- shifted for a segment that starts before it, across a wrap of the sequence numbers, and
  -- whatever bytes the segment carries.
  pub place_record_keeps :
      (t : TcpStream) (seq : ℕ) (payload : List ℕ) (declared : ℕ) (t' : TcpStream) (offset n b : ℕ)
      → IsStream t
      → HasBase t
      → seq < u32_mod
      → length payload < u32_mod
      → place_segment alloc t seq ≡ some (t', offset)
      → HoldsAt t n b
      → HoldsAt (record_segment alloc t' offset payload declared).0 n b
  place_record_keeps t seq payload declared t' offset n b v hb hs hp e w =
      let p = place_segment_lem t seq t' offset v hb hs e in
      record_segment-HoldsAt t' offset payload declared n b p.0 p.3 hp (p.4 n b w)

  pub record_segment-HasBase :
      (t : TcpStream) (offset : ℕ) (payload : List ℕ) (declared : ℕ)
      → HasBase t
      → HasBase (record_segment alloc t offset payload declared).0
  unfolding record_segment
  record_segment-HasBase t offset payload declared h = h
