-- ===== src/Reassembly/Eviction.antt =====
-- `evict_oldest_until` of capture-agent/src/reassembly.rs, which the fragment and the TCP
-- reassembler have alike: dropping the least recently seen entries until two ceilings hold.
pub mod Ceilings
pub mod Entries
mod Tests
use network_monitor.Base.{
  ℕ, zero, suc, ◌+◌, ◌-◌, ◌*◌, ◌/◌, ◌%◌, ◌^◌, ◌≤◌, ◌<◌, min, max, ◌≡◌, refl, sym, ap, ◌∙◌, subst,
  ◌≢◌, ◌↔◌, ◌⊎◌, inl, inr, Bool, true, false, not, ◌&&◌, ◌||◌, Option, none, some, List, [], ◌∷◌,
  ◌++◌, map, arith, ltb, leb, ◌==◌, if◌then◌else◌, is_some, ltb→lt, lt→ltb, le→ltb, leb→le, le→leb,
  ==_iff, tests, Bool-cases, Option-cases, length, get_elem?, get_or, set, take, drop, replicate,
  resize, length-append, length-set, length-take, length-drop, length-replicate, length-resize,
  take-append-drop, get_or-resize, get_or-set_self, get_or-set_ne, get_or_beyond, get_or-take,
  get_or_ext, u32_mod, u64_max, wrapping_add32, wrapping_sub32, saturating_add, add64, Eq,
  string_eq, beq_refl, Table, measure_of, lookup, contains_key, insert, remove, total, AllValues,
  total-remove, total-insert, length-remove, length-insert, lookup-AllValues, remove-AllValues,
  insert-AllValues, lookup-insert, lookup-remove_ne,
}

-- `sort_by_key`, which is stable.
pub place {ℓ} : {K : Type ℓ} → K × ℕ → List (K × ℕ) → List (K × ℕ)
place (k, age) [] = (k, age) ∷ []
place (k, age) ((j, b) ∷ xs) =
    if leb age b then (k, age) ∷ (j, b) ∷ xs else (j, b) ∷ place (k, age) xs

pub sort_by_age {ℓ} : {K : Type ℓ} → List (K × ℕ) → List (K × ℕ)
sort_by_age [] = []
sort_by_age (x ∷ xs) = place x (sort_by_age xs)

-- What the eviction works on: the entries, the bytes that they account for, and the counter of
-- evicted entries.
pub record Held {ℓ κ} (K : Type ℓ) (V : Type κ) : Type (ℓ ⊔ κ) where
  pub entries : Table K V
  pub bytes_held : ℕ
  pub evicted : ℕ

module _ {ℓ κ} {K : Type ℓ} {V : Type κ} ⦃e : Eq K⦄ (accounted_bytes : V → ℕ) where
  -- The removal of one key, if it is there.
  pub drop_entry : K → Held K V → Held K V
  drop_entry k h = elim (lookup k h.entries) [
    | none ↦ h
    | some v ↦ record {
      entries = remove k h.entries;
      bytes_held = h.bytes_held - accounted_bytes v;
      evicted = add64 h.evicted 1;
    }
  ]

  -- The loop over the entries by age.
  pub evict_each : ℕ → ℕ → List (K × ℕ) → Held K V → Held K V
  evict_each max_entries max_bytes [] h = h
  evict_each max_entries max_bytes ((k, age) ∷ ks) h =
      if leb (length h.entries) max_entries && leb h.bytes_held max_bytes
      then h
      else evict_each max_entries max_bytes ks (drop_entry k h)

  -- The key of each entry with the time at which it was last seen.
  pub ages : (V → ℕ) → Table K V → List (K × ℕ)
  ages last_seen_ms [] = []
  ages last_seen_ms ((k, v) ∷ t) = (k, last_seen_ms v) ∷ ages last_seen_ms t

  pub evict_oldest_until : (V → ℕ) → ℕ → ℕ → Held K V → Held K V
  evict_oldest_until last_seen_ms max_entries max_bytes h =
      if leb (length h.entries) max_entries && leb h.bytes_held max_bytes
      then h
      else evict_each max_entries max_bytes (sort_by_age (ages last_seen_ms h.entries)) h
