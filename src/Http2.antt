-- ===== src/Http2.antt =====
-- capture-agent/src/http2.rs: the frames of a decrypted HTTP/2 stream. The HPACK decoder is
-- another crate's work: a parameter, as are the texts' lossy decoding and the trimming of Unicode
-- white space. A panic of the decoder counts as its error.
pub mod Redact
pub mod Chunks
pub mod Feeding
pub mod Safe
mod Tests
use network_monitor.Base.{
  same_bytes, same_bytes_iff, ℕ, zero, suc, ◌+◌, ◌-◌, ◌*◌, ◌/◌, ◌%◌, ◌^◌, ◌≤◌, ◌<◌, min, max, ◌≡◌,
  refl, sym, ap, ◌∙◌, subst, ◌≢◌, ◌↔◌, ◌⊎◌, inl, inr, Bool, true, false, not, ◌&&◌, ◌||◌, Option,
  none, some, List, [], ◌∷◌, ◌++◌, map, arith, ltb, leb, ◌==◌, if◌then◌else◌, is_some, ltb→lt,
  lt→ltb, le→ltb, leb→le, le→leb, gt→leb, ==_iff, tests, Bool-cases, Option-cases, length,
  get_or-drop, get_elem?, get_or, set, take, drop, replicate, resize, length-append, length-set,
  length-take, length-drop, length-replicate, length-resize, take-append-drop, get_or-resize,
  get_or-set_self, get_or-set_ne, get_or_beyond, get_or-take, get_or_ext, get_or-append,
  get_or-append_right, drop-append, take-append, append_assoc, append_nil, u32_mod, u64_max,
  wrapping_add32, wrapping_sub32, saturating_add, add64, Eq, string_eq, beq_refl, Table, measure_of,
  lookup, contains_key, insert, remove, total, AllValues, total-remove, total-insert, length-remove,
  length-insert, lookup-AllValues, remove-AllValues, insert-AllValues, lookup-insert,
  lookup-remove_ne, remove-insert_fresh, remove-insert_ne, remove-remove_ne,
}
use Redact.{Header, redact_headers}

abbrev pub max_frame_len : ℕ
max_frame_len = 1024 * 1024

pub data Reason : Type 0 where
  already_desynced sequence_gap oversize hpack_failed : Reason

pub data FrameOutcome : Type 0 where
  frame : (stream_id : ℕ) (headers : List Header) (body : List ℕ) → FrameOutcome
  desync_fallback : (reason : Reason) → FrameOutcome
  need_more_data : FrameOutcome

-- What stands at the front of the buffer.
pub data Next : Type 0 where
  waiting too_long : Next
  complete : (frame_type stream_id : ℕ) (payload rest : List ℕ) → Next

abbrev pub sized : ℕ → ℕ → ℕ → List ℕ → Next
sized frame_type stream_id len rest =
    if ltb max_frame_len len
    then too_long
    else if ltb (length rest) len
    then waiting
    else complete frame_type stream_id (take len rest) (drop len rest)

-- The nine bytes of a header: a length, a type, flags, and a stream without its first bit.
unfoldable pub first_frame : List ℕ → Next
first_frame (l2 ∷ l1 ∷ l0 ∷ ty ∷ flags ∷ s3 ∷ s2 ∷ s1 ∷ s0 ∷ rest) =
    sized ty ((s3 * 16777216 + s2 * 65536 + s1 * 256 + s0) % 2 ^ 31) (l2 * 65536 + l1 * 256 + l0)
      rest
first_frame _ = waiting

-- What is used of the decoder and of texts.
pub record Decoder {ℓ} (State : Type ℓ) : Type ℓ where
  pub fresh : State
  pub decode : State → List ℕ → State × Option (List Header)
  pub from_utf8_lossy : List ℕ → List ℕ
  pub trim_start : List ℕ → List ℕ

-- How parsing ends: with a buffer that waits for more, or for good.
pub data End {ℓ} (State : Type ℓ) : Type ℓ where
  waits : (buffer : List ℕ) (hpack : State) → End State
  fails : (reason : Reason) → End State

pub record Http2Reassembler {ℓ} (State : Type ℓ) : Type ℓ where
  pub buffer : List ℕ
  pub next_expected_seq : Option ℕ
  pub hpack : State
  pub desynced : Bool

abbrev pub before {ℓ} :
    {State : Type ℓ} → FrameOutcome → List FrameOutcome × End State → List FrameOutcome × End State
before f (frames, end) = (f ∷ frames, end)

module _ {ℓ} {State : Type ℓ} (d : Decoder State) where
  unfoldable pub new : Http2Reassembler State
  new = record { buffer = []; next_expected_seq = none; hpack = d.fresh; desynced = false }

  unfoldable pub desync : Http2Reassembler State → Http2Reassembler State
  desync r = record r { desynced = true; buffer = []; hpack = d.fresh }

  abbrev pub texts : List Header → List Header
  texts [] = []
  texts ((name, value) ∷ rest) = (d.from_utf8_lossy name, d.from_utf8_lossy value) ∷ texts rest

  -- `go` is the rest of the loop.
  abbrev pub decoded :
      (List ℕ → State → List FrameOutcome × End State)
      → ℕ
      → List ℕ
      → State × Option (List Header)
      → List FrameOutcome × End State
  decoded go stream_id rest (h, none) = ([], fails hpack_failed)
  decoded go stream_id rest (h, some headers) =
      before (frame stream_id (redact_headers d.trim_start (texts headers)) []) (go rest h)

  abbrev pub take_frame :
      (List ℕ → State → List FrameOutcome × End State)
      → ℕ
      → ℕ
      → List ℕ
      → List ℕ
      → State
      → List FrameOutcome × End State
  take_frame go frame_type stream_id payload rest h =
      if frame_type == 1
      then decoded go stream_id rest (d.decode h payload)
      else if frame_type == 0
      then before (frame stream_id [] payload) (go rest h)
      else go rest h

  abbrev pub after_next :
      (List ℕ → State → List FrameOutcome × End State)
      → List ℕ
      → State
      → Next
      → List FrameOutcome × End State
  after_next go b h waiting = ([], waits b h)
  after_next go b h too_long = ([], fails oversize)
  after_next go b h (complete frame_type stream_id payload rest) =
      take_frame go frame_type stream_id payload rest h

  -- A frame takes nine bytes at least.
  unfoldable pub parse_frames : ℕ → List ℕ → State → List FrameOutcome × End State
  parse_frames zero b h = ([], waits b h)
  parse_frames (suc fuel) b h = after_next (parse_frames fuel) b h (first_frame b)

  abbrev pub settled :
      Http2Reassembler State
      → List FrameOutcome × End State
      → Http2Reassembler State × List FrameOutcome
  settled r (frames, waits b h) =
      (record r { buffer = b; hpack = h }, frames ++ (need_more_data ∷ []))
  settled r (frames, fails reason) = (desync r, frames ++ (desync_fallback reason ∷ []))

  abbrev pub is_gap : Option ℕ → ℕ → Bool
  is_gap none seq = false
  is_gap (some expected) seq = not (seq == expected)

  unfoldable pub feed :
      Http2Reassembler State → ℕ → List ℕ → Http2Reassembler State × List FrameOutcome
  feed r seq chunk =
      if r.desynced
      then (r, desync_fallback already_desynced ∷ [])
      else if is_gap r.next_expected_seq seq
      then (desync r, desync_fallback sequence_gap ∷ [])
      else settled (record r { next_expected_seq = some (add64 seq (length chunk)) })
          (parse_frames (length (r.buffer ++ chunk)) (r.buffer ++ chunk) r.hpack)
