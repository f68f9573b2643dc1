-- ===== src/Reassembly/Eviction/Ceilings.antt =====
-- After an eviction both ceilings hold, and the account of bytes stays right.
use network_monitor.Base.{
  ℕ, ◌+◌, ◌-◌, ◌≤◌, ◌≡◌, refl, ap, inl, inr, ◌&&◌, none, List, [], ◌∷◌, arith, leb, if◌then◌else◌,
  Bool-cases, length, Eq, string_eq, beq_refl, Table, lookup, remove, total, AllValues,
  total-remove, remove-AllValues,
}
use network_monitor.Reassembly.Eviction.{
  place, sort_by_age, Held, drop_entry, evict_each, ages, evict_oldest_until,
}

-- How often a key stands in a list of aged keys, and in a table.
count_aged {ℓ} : {K : Type ℓ} ⦃e : Eq K⦄ → K → List (K × ℕ) → ℕ
count_aged a [] = 0
count_aged ⦃e⦄ a ((k, _) ∷ ks) = (if e.beq k a then 1 else 0) + count_aged a ks

count_keys {ℓ κ} : {K : Type ℓ} {V : Type κ} ⦃e : Eq K⦄ → K → Table K V → ℕ
count_keys a [] = 0
count_keys ⦃e⦄ a ((k, _) ∷ t) = (if e.beq k a then 1 else 0) + count_keys a t

module _ {ℓ κ} {K : Type ℓ} {V : Type κ} ⦃e : Eq K⦄ where
  count_keys-remove :
      (a k : K) (t : Table K V)
      → count_keys a (remove k t) ≡ count_keys a t - (if e.beq k a then 1 else 0)
  unfolding count_keys remove
  count_keys-remove a k [] = ground arith
  count_keys-remove a k ((j, v) ∷ t) =
      ground (arith, count_keys-remove a k t, e.beq_iff j k, e.beq_iff j a, e.beq_iff k a)

  remove_missing : (k : K) (t : Table K V) → lookup k t ≡ none → remove k t ≡ t
  unfolding lookup remove
  remove_missing k [] h = refl
  remove_missing k ((j, v) ∷ t) h = ground (arith, remove_missing k t)

  empty_of_count_keys : (t : Table K V) → ((a : K) → count_keys a t ≡ 0) → t ≡ []
  unfolding count_keys
  empty_of_count_keys [] h = refl
  empty_of_count_keys ((j, v) ∷ t) h = absurd (ground (arith, h j, beq_refl j))

count_aged-place {ℓ} :
    {K : Type ℓ} ⦃e : Eq K⦄ (a k : K) (age : ℕ) (xs : List (K × ℕ))
    → count_aged a (place (k, age) xs) ≡ (if e.beq k a then 1 else 0) + count_aged a xs
unfolding count_aged place
count_aged-place a k age [] = refl
count_aged-place a k age ((j, b) ∷ xs) = ground (arith, count_aged-place a k age xs)

count_aged-sort {ℓ} :
    {K : Type ℓ} ⦃e : Eq K⦄ (a : K) (xs : List (K × ℕ))
    → count_aged a (sort_by_age xs) ≡ count_aged a xs
unfolding count_aged sort_by_age
count_aged-sort a [] = refl
count_aged-sort a ((k, age) ∷ xs) =
    ground (arith, count_aged-sort a xs, count_aged-place a k age (sort_by_age xs))

module _ {ℓ κ} {K : Type ℓ} {V : Type κ} ⦃e : Eq K⦄ (size : V → ℕ) where
  count_aged-ages :
      (seen : V → ℕ) (a : K) (t : Table K V) → count_aged a (ages size seen t) ≡ count_keys a t
  unfolding count_aged count_keys ages
  count_aged-ages seen a [] = refl
  count_aged-ages seen a ((k, v) ∷ t) = ground (arith, count_aged-ages seen a t)

  -- The account is right: the bytes held are those of the entries.
  abbrev pub Accounted : Held K V → Type 0
  Accounted h = h.bytes_held ≡ total size h.entries

  drop_entry-entries : (k : K) (h : Held K V) → (drop_entry size k h).entries ≡ remove k h.entries
  unfolding drop_entry
  drop_entry-entries k h = ground (arith, remove_missing k h.entries)

  drop_entry-Accounted : (k : K) (h : Held K V) → Accounted h → Accounted (drop_entry size k h)
  unfolding drop_entry
  drop_entry-Accounted k h a = ground (arith, total-remove size k h.entries)

  -- What an eviction leaves: both ceilings hold and the account is right.
  pub record Within (max_entries max_bytes : ℕ) (h : Held K V) : Type 0 where
    pub entries_le : length h.entries ≤ max_entries
    pub bytes_le : h.bytes_held ≤ max_bytes
    pub accounted : Accounted h

  evict_each-Within :
      (m b : ℕ) (ks : List (K × ℕ)) (h : Held K V)
      → Accounted h
      → ((a : K) → count_keys a h.entries ≤ count_aged a ks)
      → Within m b (evict_each size m b ks h)
  unfolding evict_each
  evict_each-Within m b [] h acc c =
      let gone : h.entries ≡ [] =
        empty_of_count_keys h.entries (λ a. unfold count_aged in omega (arith, c a)) in
      let none_held : h.bytes_held ≡ 0 = rw gone at acc in
      let no_entries : length h.entries ≡ 0 = ap length gone in
      record { entries_le = omega arith; bytes_le = omega arith; accounted = acc }
  evict_each-Within m b ((k, age) ∷ ks) h acc c =
      elim (Bool-cases (leb (length h.entries) m && leb h.bytes_held b)) [
        | inl done ↦
            rw done (record { entries_le = ground arith; bytes_le = ground arith; accounted = acc })
        | inr more ↦ rw more (
            evict_each-Within m b ks (drop_entry size k h) (drop_entry-Accounted k h acc)
              (λ a. rw (drop_entry-entries k h) (left a)))
      ]
    where
      left : (a : K) → count_keys a (remove k h.entries) ≤ count_aged a ks
      left a = rw (count_keys-remove a k h.entries) (unfold count_aged in omega (arith, c a))

  -- Whatever the table holds, if its account is right then after `evict_oldest_until` there are at
  -- most `max_entries` entries and `max_bytes` bytes, and the account is right.
  pub evict_oldest_until-Within :
      (seen : V → ℕ) (m b : ℕ) (h : Held K V)
      → Accounted h
      → Within m b (evict_oldest_until size seen m b h)
  unfolding evict_oldest_until
  evict_oldest_until-Within seen m b h acc =
      elim (Bool-cases (leb (length h.entries) m && leb h.bytes_held b)) [
        | inl done ↦
            rw done (record { entries_le = ground arith; bytes_le = ground arith; accounted = acc })
        | inr more ↦ rw more (
            evict_each-Within m b _ h acc (λ a. omega (
              arith,
              count_aged-sort a (ages size seen h.entries),
              count_aged-ages seen a h.entries,
            )))
      ]

module _ {ℓ κ μ} {K : Type ℓ} {V : Type κ} ⦃e : Eq K⦄ (size : V → ℕ) (P : V → Type μ) where
  drop_entry-AllValues :
      (k : K) (h : Held K V) → AllValues P h.entries → AllValues P (drop_entry size k h).entries
  drop_entry-AllValues k h a = rw (drop_entry-entries size k h) (remove-AllValues P k h.entries a)

  evict_each-AllValues :
      (m b : ℕ) (ks : List (K × ℕ)) (h : Held K V)
      → AllValues P h.entries
      → AllValues P (evict_each size m b ks h).entries
  unfolding evict_each
  evict_each-AllValues m b [] h a = a
  evict_each-AllValues m b ((k, age) ∷ ks) h a =
      elim (Bool-cases (leb (length h.entries) m && leb h.bytes_held b)) [
        | inl done ↦ rw done a
        | inr more ↦
            rw more (evict_each-AllValues m b ks (drop_entry size k h) (drop_entry-AllValues k h a))
      ]

  -- What holds of every value still does.
  pub evict_oldest_until-AllValues :
      (seen : V → ℕ) (m b : ℕ) (h : Held K V)
      → AllValues P h.entries
      → AllValues P (evict_oldest_until size seen m b h).entries
  unfolding evict_oldest_until
  evict_oldest_until-AllValues seen m b h a =
      elim (Bool-cases (leb (length h.entries) m && leb h.bytes_held b)) [
        | inl done ↦ rw done a
        | inr more ↦ rw more (evict_each-AllValues m b _ h a)
      ]
