-- ===== src/RingBuffer/Window.antt =====
-- What capture-agent/src/ring_buffer.rs holds: the newest entries that fit.
use network_monitor.Base.{
  ℕ, zero, suc, ◌+◌, ◌-◌, ◌≤◌, ◌<◌, min, ◌≡◌, refl, ap, ◌∙◌, inl, inr, Bool, Option, List, [], ◌∷◌,
  ◌++◌, arith, ltb, le→ltb, Bool-cases, length, drop, length-append, drop-append, u64_max,
  saturating_add, string_eq,
}
use network_monitor.RingBuffer.{
  DecryptedRingEntry, DecryptedRingBuffer, DecryptionDirection, evict_oldest, evict_over,
  push_entry, evict_all, clear, drain_since,
}

abbrev pub capacities : List DecryptedRingEntry → ℕ
capacities [] = 0
capacities (e ∷ es) = e.capacity + capacities es

capacities-append :
    (xs ys : List DecryptedRingEntry) → capacities (xs ++ ys) ≡ capacities xs + capacities ys
capacities-append [] ys = omega arith
capacities-append (x ∷ xs) ys = omega (arith, capacities-append xs ys)

-- The account is the sum of the entries' capacities.
abbrev pub IsAccounted : DecryptedRingBuffer → Type 0
IsAccounted r = r.used_bytes ≡ capacities r.entries

-- `kept` is the longest tail of `all` whose capacities come to `cap` at most.
pub record LongestTail (cap : ℕ) (all kept : List DecryptedRingEntry) : Type 0 where
  pub dropped : ℕ
  pub tail : kept ≡ drop dropped all
  pub fits : capacities kept ≤ cap
  pub longest : (n : ℕ) → n < dropped → cap < capacities (drop n all)

-- A ring that is accounted for, with the same limit and the longest tail that fits.
abbrev pub Trimmed : DecryptedRingBuffer → List DecryptedRingEntry → DecryptedRingBuffer → Type 0
Trimmed r all q =
    IsAccounted q
    × (q.capacity_bytes ≡ r.capacity_bytes)
    × LongestTail r.capacity_bytes all q.entries

keep_all :
    (cap : ℕ) (all : List DecryptedRingEntry) → capacities all ≤ cap → LongestTail cap all all
keep_all cap all h = record {
  dropped = 0;
  tail = refl;
  fits = h;
  longest = λ n small. absurd (omega arith);
}

drop_one :
    (cap : ℕ) (x : DecryptedRingEntry) (xs kept : List DecryptedRingEntry)
    → cap < capacities (x ∷ xs)
    → LongestTail cap xs kept
    → LongestTail cap (x ∷ xs) kept
drop_one cap x xs kept over t = record {
  dropped = suc t.dropped;
  tail = t.tail;
  fits = t.fits;
  longest = λ n small.
      elim n as (λ n. n < suc t.dropped → cap < capacities (drop n (x ∷ xs))) [
        | zero ↦ λ small. over
        | suc n ↦ λ small. t.longest n (omega arith)
      ]
        small;
}

abbrev ring : ℕ → ℕ → List DecryptedRingEntry → Bool → DecryptedRingBuffer
ring cap used entries m = record {
  capacity_bytes = cap;
  used_bytes = used;
  entries = entries;
  mlock_engaged = m;
}

drop_all : (entries : List DecryptedRingEntry) → drop (length entries) entries ≡ []
drop_all [] = refl
drop_all (x ∷ xs) = drop_all xs

module _ (zeroize : List ℕ → List ℕ) where
  -- Every loop of a push stops with what fits.
  evict_over-Trimmed :
      (fuel cap used : ℕ) (entries : List DecryptedRingEntry) (m : Bool)
      → used ≡ capacities entries
      → length entries ≤ fuel
      → Trimmed
          (ring cap used entries m)
          entries
          (evict_over zeroize fuel (ring cap used entries m))
  unfolding evict_over evict_oldest
  evict_over-Trimmed zero cap used [] m a h = (a, refl, keep_all cap [] (omega arith))
  evict_over-Trimmed zero cap used (x ∷ xs) m a h = absurd (omega arith)
  evict_over-Trimmed (suc fuel) cap used [] m a h =
      rw (le→ltb cap used (omega arith)) (a, refl, keep_all cap [] (omega arith))
  evict_over-Trimmed (suc fuel) cap used (x ∷ xs) m a h = elim (Bool-cases (ltb cap used)) [
    | inl over ↦
        let t =
          evict_over-Trimmed fuel cap (used - x.capacity) xs m (omega (arith, a)) (omega arith) in
        rw over (t.0, t.1, drop_one cap x xs _ (ground (arith, a)) t.2)
    | inr fits ↦ rw fits (a, refl, keep_all cap (x ∷ xs) (ground (arith, a)))
  ]

  -- After a push the account is right again, the limit is unchanged, and the ring holds the longest
  -- tail of the old entries and the new one that fits in the limit: the new entry itself goes only
  -- when it alone is too large.
  pub push_entry-Trimmed :
      (r : DecryptedRingBuffer) (direction : Option DecryptionDirection) (bytes : List ℕ)
      (capacity : ℕ)
      → IsAccounted r
      → capacities r.entries + capacity ≤ u64_max
      → Trimmed r
          (r.entries ++ (record { direction = direction; bytes = bytes; capacity = capacity } ∷ []))
          (push_entry zeroize r direction bytes capacity)
  unfolding push_entry
  push_entry-Trimmed r direction bytes capacity a h =
      let entry : DecryptedRingEntry = record {
        direction = direction;
        bytes = bytes;
        capacity = capacity;
      } in
      evict_over-Trimmed (suc (length r.entries)) r.capacity_bytes
        (saturating_add r.used_bytes capacity) (r.entries ++ (entry ∷ [])) r.mlock_engaged
        (omega (arith, a, capacities-append r.entries (entry ∷ [])))
        (omega (arith, length-append r.entries (entry ∷ [])))

  evict_all_lem :
      (cap used : ℕ) (entries : List DecryptedRingEntry) (m : Bool)
      → used ≡ capacities entries
      → evict_all zeroize (length entries) (ring cap used entries m) ≡ ring cap 0 [] m
  unfolding evict_all evict_oldest
  evict_all_lem cap used [] m a = rw a refl
  evict_all_lem cap used (x ∷ xs) m a =
      evict_all_lem cap (used - x.capacity) xs m (omega (arith, a))

  -- A ring that is accounted for is empty after `clear`, with its limit and its account at 0.
  pub clear_lem :
      (r : DecryptedRingBuffer)
      → IsAccounted r
      → clear zeroize r ≡ record r { used_bytes = 0; entries = [] }
  unfolding clear
  clear_lem r a = evict_all_lem r.capacity_bytes r.used_bytes r.entries r.mlock_engaged a

  -- A reader that comes back with its last cursor after a push that fits gets exactly the new entry.
  pub drain_since-push_entry :
      (r : DecryptedRingBuffer) (cursor : ℕ) (direction : Option DecryptionDirection)
      (bytes : List ℕ) (capacity : ℕ)
      → IsAccounted r
      → capacities r.entries + capacity ≤ u64_max
      → capacities r.entries + capacity ≤ r.capacity_bytes
      → (drain_since (push_entry zeroize r direction bytes capacity) (drain_since r cursor).1).0
        ≡ record { direction = direction; bytes = bytes; capacity = capacity } ∷ []
  unfolding push_entry evict_over drain_since
  drain_since-push_entry r cursor direction bytes capacity a h fits =
      let entry : DecryptedRingEntry = record {
        direction = direction;
        bytes = bytes;
        capacity = capacity;
      } in
      let seen : min (length r.entries) (length (r.entries ++ (entry ∷ []))) ≡ length r.entries =
        omega (arith, length-append r.entries (entry ∷ [])) in
      rw (le→ltb r.capacity_bytes (saturating_add r.used_bytes capacity) (omega (arith, a)), seen)
        (drop-append (length r.entries) r.entries (entry ∷ []) (omega arith)
          ∙ ap (λ t. t ++ (entry ∷ [])) (drop_all r.entries))
