-- ===== src/Reassembly/Coverage.antt =====
-- The coverage primitives of capture-agent/src/reassembly.rs: a buffer of bytes beside a list of
-- markers that say which of them are held.
pub mod Writes
pub mod Prefix
mod Tests
use network_monitor.Base.{
  ℕ, zero, suc, ◌+◌, ◌-◌, ◌*◌, ◌/◌, ◌%◌, ◌^◌, ◌≤◌, ◌<◌, min, max, ◌≡◌, refl, sym, ap, ◌∙◌, subst,
  ◌≢◌, ◌↔◌, ◌⊎◌, inl, inr, Bool, true, false, not, ◌&&◌, ◌||◌, Option, none, some, List, [], ◌∷◌,
  ◌++◌, map, arith, ltb, leb, ◌==◌, if◌then◌else◌, is_some, ltb→lt, lt→ltb, le→ltb, leb→le, le→leb,
  ==_iff, tests, Bool-cases, Option-cases, length, get_elem?, get_or, set, take, drop, replicate,
  resize, length-append, length-set, length-take, length-drop, length-replicate, length-resize,
  take-append-drop, get_or-resize, get_or-set_self, get_or-set_ne, get_or_beyond, get_or-take,
  get_or_ext, u32_mod, u64_max, wrapping_add32, wrapping_sub32, saturating_add, add64,
}

-- `newly_written`, `conflicting` and `hit_cap` of `WriteOutcome`.
pub record WriteOutcome : Type 0 where
  pub newly_written : ℕ
  pub conflicting : ℕ
  pub hit_cap : Bool

-- The two buffers that a write updates, with its outcome so far.
pub record Written : Type 0 where
  pub bytes : List ℕ
  pub filled : List Bool
  pub outcome : WriteOutcome

-- The buffers as they were found, with nothing written.
abbrev pub unwritten : List ℕ → List Bool → Bool → Written
unwritten bytes filled capped = record {
  bytes = bytes;
  filled = filled;
  outcome = record { newly_written = 0; conflicting = 0; hit_cap = capped };
}

-- One round of the loop: the byte for index `idx`.
pub write_byte : ℕ → ℕ → Written → Written
write_byte idx byte w =
    if get_or w.filled idx false
    then (if get_or w.bytes idx 0 == byte
        then w
        else record w { outcome = record (w.outcome) { conflicting = w.outcome.conflicting + 1 } })
    else record {
      bytes = set w.bytes idx byte;
      filled = set w.filled idx true;
      outcome = record (w.outcome) { newly_written = w.outcome.newly_written + 1 };
    }

-- The loop, from index `idx` on.
pub write_bytes : ℕ → List ℕ → Written → Written
write_bytes idx [] w = w
write_bytes idx (byte ∷ rest) w = write_bytes (idx + 1) rest (write_byte idx byte w)

-- The two `resize` calls.
pub grow_to : ℕ → List ℕ → List Bool → Bool → Written
grow_to usable_end bytes filled capped =
    if ltb (length bytes) usable_end
    then unwritten (resize bytes usable_end 0) (resize filled usable_end false) capped
    else unwritten bytes filled capped

-- `write_first_seen_wins`. `checked_add` fails past `usize::MAX`.
pub write_first_seen_wins : List ℕ → List Bool → ℕ → List ℕ → ℕ → Written
unfolding grow_to
write_first_seen_wins bytes filled offset piece cap =
    let end = offset + length piece in
    let usable_end = min end cap in
    let capped = ltb cap end in
    if ltb u64_max end
    then unwritten bytes filled true
    else if leb usable_end offset
    then unwritten bytes filled capped
    else write_bytes offset (take (usable_end - offset) piece)
        (grow_to usable_end bytes filled capped)

-- The longest run of markers from the start of a list.
abbrev pub run_length : List Bool → ℕ
run_length [] = 0
run_length (true ∷ bs) = suc (run_length bs)
run_length (false ∷ bs) = 0

-- `while filled.get(len) == Some(&true) { len += 1; }`, the list being `filled` from `len` on.
pub count_on : List Bool → ℕ → ℕ
count_on [] len = len
count_on (true ∷ bs) len = count_on bs (len + 1)
count_on (false ∷ bs) len = len

pub contiguous_len_from : List Bool → ℕ → ℕ
contiguous_len_from filled known =
    let start = min known (length filled) in count_on (drop start filled) start
