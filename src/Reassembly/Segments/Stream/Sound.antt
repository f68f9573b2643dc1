-- ===== src/Reassembly/Segments/Stream/Sound.antt =====
-- What shifting and releasing keep of a stream.
use network_monitor.Base.{
  ℕ, zero, suc, ◌+◌, ◌^◌, ◌≤◌, ◌<◌, ◌≡◌, refl, ap, ◌∙◌, Bool, false, List, [], ◌∷◌, ◌++◌, arith,
  length, get_or, take, replicate, length-append, length-take, length-replicate, u32_mod, string_eq,
}
use network_monitor.Reassembly.Status.{max_tcp_stream_bytes}
use network_monitor.Reassembly.Coverage.{run_length}
use network_monitor.Reassembly.Buffer.{Allocator, IsSound, capacity_for}
use network_monitor.Reassembly.Buffer
use network_monitor.Reassembly.Buffer.Sound.{
  empty_buffer-IsSound, accounted_bytes_lem, capacity_for_lem,
}
use network_monitor.Reassembly.Segments.Stream.{TcpStream, new, accounted_bytes, release, rebase}

-- The buffer is sound, and the recorded prefix is the longest run of bytes held from index 0.
pub record IsStream (t : TcpStream) : Type 0 where
  pub sound : IsSound max_tcp_stream_bytes t.buffer
  pub contiguous : t.prefix_len ≡ run_length t.buffer.filled

-- Between a shift and the next write the recorded prefix may lag behind.
pub record IsPlaced (t : TcpStream) : Type 0 where
  pub sound : IsSound max_tcp_stream_bytes t.buffer
  pub behind : t.prefix_len ≤ run_length t.buffer.filled

pub new-IsStream : (seq now_ms : ℕ) → IsStream (new seq now_ms)
unfolding new
new-IsStream seq now_ms = record {
  sound = empty_buffer-IsSound max_tcp_stream_bytes;
  contiguous = refl;
}

-- The sequence number of the buffer's start is a 32-bit number.
abbrev pub HasBase : TcpStream → Type 0
HasBase t = t.base_seq < u32_mod

pub new-HasBase : (seq now_ms : ℕ) → seq < u32_mod → HasBase (new seq now_ms)
unfolding new
new-HasBase seq now_ms h = h

pub release-HasBase :
    (t : TcpStream) (capped : Bool) → HasBase t → HasBase (record (release t) { finished = capped })
unfolding release
release-HasBase t capped h = h

pub release-IsStream :
    (t : TcpStream) (capped : Bool) → IsStream (record (release t) { finished = capped })
unfolding release
release-IsStream t capped = record {
  sound = empty_buffer-IsSound max_tcp_stream_bytes;
  contiguous = refl;
}

pub accounted_bytes-release :
    (t : TcpStream) (capped : Bool) → accounted_bytes (record (release t) { finished = capped }) ≡ 0
unfolding release accounted_bytes
accounted_bytes-release t capped = unfold Buffer.accounted_bytes in refl

pub accounted_bytes-new : (seq now_ms : ℕ) → accounted_bytes (new seq now_ms) ≡ 0
unfolding new accounted_bytes
accounted_bytes-new seq now_ms = unfold Buffer.accounted_bytes in refl

pub accounted_bytes-seen :
    (t : TcpStream) (now_ms : ℕ)
    → accounted_bytes (record t { last_seen_ms = now_ms }) ≡ accounted_bytes t
unfolding accounted_bytes
accounted_bytes-seen t now_ms = refl

pub accounted_bytes-finished :
    (t : TcpStream) (capped : Bool)
    → accounted_bytes (record t { finished = capped }) ≡ accounted_bytes t
unfolding accounted_bytes
accounted_bytes-finished t capped = refl

pub accounted_bytes-le : (t : TcpStream) → IsStream t → accounted_bytes t ≤ 2 ^ 33
unfolding accounted_bytes
accounted_bytes-le t v = (accounted_bytes_lem v.sound).1

take_all {ℓ} : {A : Type ℓ} (n : ℕ) (xs : List A) → length xs ≤ n → take n xs ≡ xs
take_all zero [] h = refl
take_all zero (x ∷ xs) h = absurd (omega arith)
take_all (suc n) [] h = refl
take_all (suc n) (x ∷ xs) h = ap (◌∷◌ x) (take_all n xs (omega arith))

suc_add : (a b : ℕ) → suc a + b ≡ suc (a + b)
suc_add a b = omega arith

get_or-shift {ℓ} :
    {A : Type ℓ} (shift : ℕ) (xs : List A) (d : A) (i : ℕ)
    → (get_or (replicate shift d ++ xs) (shift + i) d ≡ get_or xs i d)
      × (i < shift → get_or (replicate shift d ++ xs) i d ≡ d)
get_or-shift zero xs d i = (ap (λ k. get_or xs k d) (omega arith), λ h. absurd (omega arith))
get_or-shift (suc shift) xs d zero =
    (rw (suc_add shift zero) (get_or-shift shift xs d zero).0, λ h. refl)
get_or-shift (suc shift) xs d (suc i) = (
  rw (suc_add shift (suc i)) (get_or-shift shift xs d (suc i)).0,
  λ h. (get_or-shift shift xs d i).1 (omega arith),
)

length-shift {ℓ} :
    {A : Type ℓ} (shift : ℕ) (xs : List A) (d : A)
    → length (replicate shift d ++ xs) ≡ shift + length xs
length-shift shift xs d =
    length-append (replicate shift d) xs ∙ ap (λ k. k + length xs) (length-replicate shift d)

module _ (alloc : Allocator) where
  -- A shift within the cap cuts nothing off: every index is moved by it, and the indices that it
  -- opens are not held.
  pub rebase_at :
      (t : TcpStream) (shift new_base i : ℕ)
      → length t.buffer.bytes ≡ length t.buffer.filled
      → shift + length t.buffer.bytes ≤ max_tcp_stream_bytes
      → let b = (rebase alloc t shift new_base).buffer in
        (get_or b.filled (shift + i) false ≡ get_or t.buffer.filled i false)
        × (get_or b.bytes (shift + i) 0 ≡ get_or t.buffer.bytes i 0)
        × (i < shift → get_or b.filled i false ≡ false)
  unfolding rebase
  rebase_at t shift new_base i e h =
      let long = length-shift shift t.buffer.bytes 0 in
      let long' = length-shift shift t.buffer.filled false in
      let whole =
        take_all max_tcp_stream_bytes (replicate shift 0 ++ t.buffer.bytes) (omega arith) in
      let whole' =
        take_all max_tcp_stream_bytes (replicate shift false ++ t.buffer.filled) (omega arith) in
      rw (whole, whole')
        (
          (get_or-shift shift t.buffer.filled false i).0,
          (get_or-shift shift t.buffer.bytes 0 i).0,
          (get_or-shift shift t.buffer.filled false i).1,
        )

  pub rebase-IsPlaced :
      (t : TcpStream) (shift new_base : ℕ)
      → IsStream t
      → shift + length t.buffer.bytes ≤ max_tcp_stream_bytes
      → IsPlaced (rebase alloc t shift new_base)
  unfolding rebase
  rebase-IsPlaced t shift new_base v h =
      let l = length-take max_tcp_stream_bytes (replicate shift 0 ++ t.buffer.bytes) in
      let l' = length-take max_tcp_stream_bytes (replicate shift false ++ t.buffer.filled) in
      let long = length-shift shift t.buffer.bytes 0 in
      let long' = length-shift shift t.buffer.filled false in
      let c = capacity_for_lem alloc 0 shift (omega arith) (omega arith) in
      let cb =
        capacity_for_lem alloc (capacity_for alloc 0 shift) (shift + length t.buffer.bytes) c.1
          (omega arith) in
      let cf =
        capacity_for_lem alloc (capacity_for alloc 0 shift) (shift + length t.buffer.filled) c.1
          (omega (arith, v.sound.paired)) in
      record {
        sound = record {
          paired = omega (arith, v.sound.paired);
          capped = omega arith;
          fits_bytes = omega (arith, cb.0);
          fits_filled = omega (arith, cf.0);
          small_bytes = cb.1;
          small_filled = cf.1;
        };
        behind = omega arith;
      }

  pub base_seq-rebase :
      (t : TcpStream) (shift new_base : ℕ) → (rebase alloc t shift new_base).base_seq ≡ new_base
  unfolding rebase
  base_seq-rebase t shift new_base = refl
