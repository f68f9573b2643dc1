-- ===== src/Reassembly/Buffer.antt =====
-- The pair of vectors, data and coverage markers, that a fragment group and a TCP stream hold, with
-- the capacities that the memory budget counts. How a vector's capacity grows is the allocator's
-- choice: it is a parameter.
pub mod Sound
use network_monitor.Base.{
  ℕ, zero, suc, ◌+◌, ◌-◌, ◌*◌, ◌/◌, ◌%◌, ◌^◌, ◌≤◌, ◌<◌, min, max, ◌≡◌, refl, sym, ap, ◌∙◌, subst,
  ◌≢◌, ◌↔◌, ◌⊎◌, inl, inr, Bool, true, false, not, ◌&&◌, ◌||◌, Option, none, some, List, [], ◌∷◌,
  ◌++◌, map, arith, ltb, leb, ◌==◌, if◌then◌else◌, is_some, ltb→lt, lt→ltb, le→ltb, leb→le, le→leb,
  ==_iff, tests, Bool-cases, Option-cases, length, get_elem?, get_or, set, take, drop, replicate,
  resize, length-append, length-set, length-take, length-drop, length-replicate, length-resize,
  take-append-drop, get_or-resize, get_or-set_self, get_or-set_ne, get_or_beyond, get_or-take,
  get_or_ext, u32_mod, u64_max, wrapping_add32, wrapping_sub32, saturating_add, add64, Eq,
  string_eq, beq_refl, Table, measure_of, lookup, contains_key, insert, remove, total, AllValues,
  total-remove, total-insert, length-remove, length-insert, lookup-AllValues, remove-AllValues,
  insert-AllValues, lookup-insert, lookup-remove_ne,
}
use network_monitor.Reassembly.Coverage.{WriteOutcome, Written, write_first_seen_wins}

-- `reserve capacity needed` is the capacity after a vector of that capacity has grown to hold
-- `needed` items.
pub record Allocator : Type 0 where
  pub reserve : ℕ → ℕ → ℕ
  pub enough : (capacity needed : ℕ) → needed ≤ reserve capacity needed
  pub bounded :
      (capacity needed : ℕ) → capacity < needed → needed ≤ 2 ^ 20 → reserve capacity needed ≤ 2 ^ 32

pub record Buffer : Type 0 where
  pub bytes : List ℕ
  pub filled : List Bool
  pub bytes_capacity : ℕ
  pub filled_capacity : ℕ

-- Two times `Vec::new()`.
abbrev pub empty_buffer : Buffer
empty_buffer = record { bytes = []; filled = []; bytes_capacity = 0; filled_capacity = 0 }

unfoldable pub accounted_bytes : Buffer → ℕ
accounted_bytes b = saturating_add b.bytes_capacity b.filled_capacity

-- What the operations keep: one length, below a cap, within both capacities.
pub record IsSound (cap : ℕ) (b : Buffer) : Type 0 where
  pub paired : length b.bytes ≡ length b.filled
  pub capped : length b.bytes ≤ cap
  pub fits_bytes : length b.bytes ≤ b.bytes_capacity
  pub fits_filled : length b.filled ≤ b.filled_capacity
  pub small_bytes : b.bytes_capacity ≤ 2 ^ 32
  pub small_filled : b.filled_capacity ≤ 2 ^ 32

module _ (alloc : Allocator) where
  unfoldable pub capacity_for : ℕ → ℕ → ℕ
  capacity_for capacity needed =
      if leb needed capacity then capacity else alloc.reserve capacity needed

  -- `write_first_seen_wins` on the two vectors.
  unfoldable pub write_into : Buffer → ℕ → List ℕ → ℕ → Buffer × WriteOutcome
  write_into b offset piece cap =
      let w = write_first_seen_wins b.bytes b.filled offset piece cap in
      (
        record {
          bytes = w.bytes;
          filled = w.filled;
          bytes_capacity = capacity_for b.bytes_capacity (length w.bytes);
          filled_capacity = capacity_for b.filled_capacity (length w.filled);
        },
        w.outcome,
      )
