-- ===== src/RingBuffer.antt =====
-- capture-agent/src/ring_buffer.rs: the bounded ring of decrypted bytes of one connection. Locking
-- pages in memory has no effect on the values and is left out, but for the answer of the probe.
pub mod Window
mod Tests
use network_monitor.Base.{
  ℕ, zero, suc, ◌+◌, ◌-◌, ◌*◌, ◌/◌, ◌%◌, ◌^◌, ◌≤◌, ◌<◌, min, max, ◌≡◌, refl, sym, ap, ◌∙◌, subst,
  ◌≢◌, ◌↔◌, ◌⊎◌, inl, inr, Bool, true, false, not, ◌&&◌, ◌||◌, Option, none, some, List, [], ◌∷◌,
  ◌++◌, map, arith, ltb, leb, ◌==◌, if◌then◌else◌, is_some, ltb→lt, lt→ltb, le→ltb, leb→le, le→leb,
  ==_iff, tests, Bool-cases, Option-cases, length, get_or-drop, get_elem?, get_or, set, take, drop,
  replicate, resize, length-append, length-set, length-take, length-drop, length-replicate,
  length-resize, take-append-drop, get_or-resize, get_or-set_self, get_or-set_ne, get_or_beyond,
  get_or-take, get_or_ext, get_or-append, drop-append, take-append, append_assoc, append_nil,
  u32_mod, u64_max, wrapping_add32, wrapping_sub32, saturating_add, add64, Eq, string_eq, beq_refl,
  Table, measure_of, lookup, contains_key, insert, remove, total, AllValues, total-remove,
  total-insert, length-remove, length-insert, lookup-AllValues, remove-AllValues, insert-AllValues,
  lookup-insert, lookup-remove_ne,
}

-- `DecryptionDirection` of wire.rs.
pub data DecryptionDirection : Type 0 where
  client_to_server server_to_client : DecryptionDirection

-- `DecryptedRingEntry`; a vector's capacity is what the ring counts.
pub record DecryptedRingEntry : Type 0 where
  pub direction : Option DecryptionDirection
  pub bytes : List ℕ
  pub capacity : ℕ

-- `DecryptedRingBuffer`, the oldest entry first.
pub record DecryptedRingBuffer : Type 0 where
  pub capacity_bytes : ℕ
  pub used_bytes : ℕ
  pub entries : List DecryptedRingEntry
  pub mlock_engaged : Bool

-- `probed` is what locking a page answered.
unfoldable pub new : ℕ → Bool → DecryptedRingBuffer
new capacity_bytes probed = record {
  capacity_bytes = capacity_bytes;
  used_bytes = 0;
  entries = [];
  mlock_engaged = probed;
}

unfoldable pub drain_since : DecryptedRingBuffer → ℕ → List DecryptedRingEntry × ℕ
drain_since r cursor = (drop (min cursor (length r.entries)) r.entries, length r.entries)

pub bytes_held : DecryptedRingBuffer → ℕ
bytes_held r = r.used_bytes

-- The `Zeroize` of a vector is the zeroize crate's.
module _ (zeroize : List ℕ → List ℕ) where
  unfoldable pub evict_oldest : DecryptedRingBuffer → Option (DecryptedRingBuffer × List ℕ)
  evict_oldest r = elim r.entries [
    | [] ↦ none
    | oldest ∷ others ↦ some (
      record r { used_bytes = r.used_bytes - oldest.capacity; entries = others },
      zeroize oldest.bytes,
    )
  ]

  -- The `while` of a push, on fuel for each entry.
  unfoldable pub evict_over : ℕ → DecryptedRingBuffer → DecryptedRingBuffer
  evict_over zero r = r
  evict_over (suc fuel) r =
      if ltb r.capacity_bytes r.used_bytes
      then (elim (evict_oldest r) [ none ↦ r | some (r', wiped) ↦ evict_over fuel r' ])
      else r

  unfoldable pub push_entry :
      DecryptedRingBuffer → Option DecryptionDirection → List ℕ → ℕ → DecryptedRingBuffer
  push_entry r direction bytes capacity =
      let entry : DecryptedRingEntry = record {
        direction = direction;
        bytes = bytes;
        capacity = capacity;
      } in
      evict_over (suc (length r.entries)) (record r {
        used_bytes = saturating_add r.used_bytes capacity;
        entries = r.entries ++ (entry ∷ []);
      })

  pub push : DecryptedRingBuffer → List ℕ → ℕ → DecryptedRingBuffer
  push r bytes capacity = push_entry r none bytes capacity

  pub push_for_direction :
      DecryptedRingBuffer → DecryptionDirection → List ℕ → ℕ → DecryptedRingBuffer
  push_for_direction r direction bytes capacity = push_entry r (some direction) bytes capacity

  -- The loop of `clear`, on fuel for each entry.
  unfoldable pub evict_all : ℕ → DecryptedRingBuffer → DecryptedRingBuffer
  evict_all zero r = r
  evict_all (suc fuel) r = elim (evict_oldest r) [ none ↦ r | some (r', wiped) ↦ evict_all fuel r' ]

  unfoldable pub clear : DecryptedRingBuffer → DecryptedRingBuffer
  clear r = evict_all (length r.entries) r

  -- What `drop` leaves in the memory of the entries.
  abbrev wiped_entries : List DecryptedRingEntry → List DecryptedRingEntry
  wiped_entries [] = []
  wiped_entries (e ∷ es) = record e { bytes = zeroize e.bytes } ∷ wiped_entries es

  pub drop_ring : DecryptedRingBuffer → DecryptedRingBuffer
  drop_ring r = record r { entries = wiped_entries r.entries }
