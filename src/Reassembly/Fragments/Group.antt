-- ===== src/Reassembly/Fragments/Group.antt =====
-- `FragmentGroup` of capture-agent/src/reassembly.rs, and what one fragment does to it.
pub mod Sound
pub mod Rejoin
use network_monitor.Base.{
  ℕ, zero, suc, ◌+◌, ◌-◌, ◌*◌, ◌/◌, ◌%◌, ◌^◌, ◌≤◌, ◌<◌, min, max, ◌≡◌, refl, sym, ap, ◌∙◌, subst,
  ◌≢◌, ◌↔◌, ◌⊎◌, inl, inr, Bool, true, false, not, ◌&&◌, ◌||◌, Option, none, some, List, [], ◌∷◌,
  ◌++◌, map, arith, ltb, leb, ◌==◌, if◌then◌else◌, is_some, ltb→lt, lt→ltb, le→ltb, leb→le, le→leb,
  ==_iff, tests, Bool-cases, Option-cases, length, get_elem?, get_or, set, take, drop, replicate,
  resize, length-append, length-set, length-take, length-drop, length-replicate, length-resize,
  take-append-drop, get_or-resize, get_or-set_self, get_or-set_ne, get_or_beyond, get_or-take,
  get_or_ext, u32_mod, u64_max, wrapping_add32, wrapping_sub32, saturating_add, add64, Eq,
  string_eq, beq_refl, Table, measure_of, lookup, contains_key, insert, remove, total, AllValues,
  total-remove, total-insert, length-remove, length-insert, lookup-AllValues, remove-AllValues,
  insert-AllValues, lookup-insert, lookup-remove_ne,
}
use network_monitor.Reassembly.Status.{
  ReassemblyStatus, reassembled, incomplete_truncated_at_capture, incomplete_missing_frames,
  max_fragment_group_bytes, fragment_timeout_ms,
}
use network_monitor.Reassembly.Buffer.{Allocator, Buffer, empty_buffer, write_into}
use network_monitor.Reassembly.Buffer
use network_monitor.Reassembly.Coverage.{WriteOutcome, contiguous_len_from}

-- `Ipv4Fragment` of capture-agent/src/parse.rs.
pub record Ipv4Fragment : Type 0 where
  pub identification : ℕ
  pub offset_bytes : ℕ
  pub more_fragments : Bool
  pub protocol : ℕ
  pub header : List ℕ
  pub payload : List ℕ

-- `data` and `filled` are the `buffer`.
pub record FragmentGroup : Type 0 where
  pub buffer : Buffer
  pub prefix_len : ℕ
  pub total_len : Option ℕ
  pub header : Option (List ℕ)
  pub short_captured_at : Option ℕ
  pub first_seen_ms : ℕ
  pub last_seen_ms : ℕ

pub new : ℕ → FragmentGroup
new now_ms = record {
  buffer = empty_buffer;
  prefix_len = 0;
  total_len = none;
  header = none;
  short_captured_at = none;
  first_seen_ms = now_ms;
  last_seen_ms = now_ms;
}

pub is_expired : FragmentGroup → ℕ → Bool
is_expired g now_ms =
    ltb fragment_timeout_ms (now_ms - g.last_seen_ms)
    || ltb fragment_timeout_ms (now_ms - g.first_seen_ms)

pub accounted_bytes : FragmentGroup → ℕ
accounted_bytes g = Buffer.accounted_bytes g.buffer

-- `is_some_and(|x| x <= bound)`.
abbrev pub some_at_most : Option ℕ → ℕ → Bool
some_at_most none bound = false
some_at_most (some x) bound = leb x bound

pub status : FragmentGroup → ReassemblyStatus
status g =
    if some_at_most g.total_len g.prefix_len
    then reassembled
    else if some_at_most g.short_captured_at g.prefix_len
    then incomplete_truncated_at_capture
    else incomplete_missing_frames

-- `iter().any(|&filled| filled)`.
abbrev pub any_filled : List Bool → Bool
any_filled [] = false
any_filled (b ∷ bs) = b || any_filled bs

-- Whether a last fragment would move an end already known, or end before bytes already held.
pub conflicts : FragmentGroup → Ipv4Fragment → ℕ → Bool
conflicts g fragment declared =
    if fragment.more_fragments
    then false
    else let end = saturating_add fragment.offset_bytes declared in
      elim g.total_len [
        | some existing ↦ not (existing == end)
        | none ↦ any_filled (drop end g.buffer.filled)
      ]

-- `map_or(hole_at, |at| at.min(hole_at))`.
abbrev pub earliest : Option ℕ → ℕ → ℕ
earliest none hole_at = hole_at
earliest (some at) hole_at = min at hole_at

-- What the fragment's header tells: the header to rebuild from, the place of a short capture, and
-- the datagram's end. `payload.len() as u32` is exact below 2 ^ 32.
pub note_header : FragmentGroup → Ipv4Fragment → ℕ → FragmentGroup
note_header g fragment declared = record g {
  header =
      if fragment.offset_bytes == 0 && not (is_some g.header)
      then some fragment.header
      else g.header;
  short_captured_at =
      if ltb (length fragment.payload % u32_mod) declared
      then some (
          earliest g.short_captured_at
            (saturating_add fragment.offset_bytes (length fragment.payload)))
      else g.short_captured_at;
  total_len =
      if fragment.more_fragments
      then g.total_len
      else some (saturating_add fragment.offset_bytes declared);
}

module _ (alloc : Allocator) where
  -- The header's facts, then the bytes, then the contiguous prefix.
  pub record_fragment : FragmentGroup → Ipv4Fragment → ℕ → FragmentGroup × WriteOutcome
  unfolding note_header
  record_fragment g fragment declared =
      let noted = note_header g fragment declared in
      let (buffer', written) =
        write_into alloc noted.buffer fragment.offset_bytes fragment.payload
          max_fragment_group_bytes in
      (
        record noted {
          buffer = buffer';
          prefix_len = contiguous_len_from buffer'.filled noted.prefix_len;
        },
        written,
      )
