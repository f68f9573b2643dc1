-- ===== src/Reassembly/Eviction/Entries.antt =====
-- What an eviction in capture-agent/src/reassembly.rs does to one entry: it drops it, or it leaves it
-- as it is.
use network_monitor.Base.{
  ℕ, ◌≡◌, refl, ap, ◌∙◌, ◌⊎◌, inl, inr, ◌&&◌, none, some, List, [], ◌∷◌, arith, leb, Bool-cases,
  Option-cases, length, Eq, string_eq, beq_refl, Table, lookup, insert, remove, lookup-remove_ne,
  remove-remove_ne,
}
use network_monitor.Reassembly.Eviction.{
  Held, drop_entry, evict_each, ages, evict_oldest_until, sort_by_age,
}

module _ {ℓ κ} {K : Type ℓ} {V : Type κ} ⦃e : Eq K⦄ where
  -- A key stands once, as in a map.
  abbrev pub IsOnce : K → Table K V → Type κ
  IsOnce j t = lookup j (remove j t) ≡ none

  still_none : (k j : K) (t : Table K V) → lookup j t ≡ none → lookup j (remove k t) ≡ none
  unfolding lookup remove
  still_none k j [] h = refl
  still_none k j ((i, w) ∷ t) h =
      ground (arith, e.beq_iff k j, e.beq_iff i k, e.beq_iff i j, still_none k j t)

  pub insert-IsOnce : (k : K) (v : V) (t : Table K V) → IsOnce k t → IsOnce k (insert k v t)
  unfolding lookup insert remove
  insert-IsOnce k v [] h = rw (beq_refl k) refl
  insert-IsOnce k v ((i, w) ∷ t) h = ground (arith, beq_refl k, insert-IsOnce k v t)

  -- The entry under `j` is gone, or it is `v`, and it stands once.
  abbrev pub GoneOrIs : K → V → Table K V → Type κ
  GoneOrIs j v t = (lookup j t ≡ none) ⊎ ((lookup j t ≡ some v) × IsOnce j t)

  remove-GoneOrIs : (k j : K) (v : V) (t : Table K V) → GoneOrIs j v t → GoneOrIs j v (remove k t)
  remove-GoneOrIs k j v t (inl gone) = inl (still_none k j t gone)
  remove-GoneOrIs k j v t (inr (is, once)) = elim (Bool-cases (e.beq k j)) [
    | inl b ↦ let same : k ≡ j = (e.beq_iff k j).0 b in inl (rw same once)
    | inr b ↦ inr (
      lookup-remove_ne k j t b ∙ is,
      ap (lookup j) (remove-remove_ne k j t b) ∙ still_none k j (remove j t) once,
    )
  ]

  module _ (accounted_bytes : V → ℕ) where
    drop_entry-GoneOrIs :
        (k j : K) (v : V) (h : Held K V)
        → GoneOrIs j v h.entries
        → GoneOrIs j v (drop_entry accounted_bytes k h).entries
    unfolding drop_entry
    drop_entry-GoneOrIs k j v h g = elim (Option-cases (lookup k h.entries)) [
      | inl f ↦ rw (f, drop_entry) g
      | inr (w, f) ↦ rw (f, drop_entry) (remove-GoneOrIs k j v h.entries g)
    ]

    evict_each-GoneOrIs :
        (m b : ℕ) (ks : List (K × ℕ)) (j : K) (v : V) (h : Held K V)
        → GoneOrIs j v h.entries
        → GoneOrIs j v (evict_each accounted_bytes m b ks h).entries
    unfolding evict_each
    evict_each-GoneOrIs m b [] j v h g = g
    evict_each-GoneOrIs m b ((k, age) ∷ ks) j v h g =
        elim (Bool-cases (leb (length h.entries) m && leb h.bytes_held b)) [
          | inl f ↦ rw f g
          | inr f ↦ rw f (
              evict_each-GoneOrIs m b ks j v (drop_entry accounted_bytes k h)
                (drop_entry-GoneOrIs k j v h g))
        ]

    pub evict_oldest_until-GoneOrIs :
        (last_seen_ms : V → ℕ) (m b : ℕ) (j : K) (v : V) (h : Held K V)
        → GoneOrIs j v h.entries
        → GoneOrIs j v (evict_oldest_until accounted_bytes last_seen_ms m b h).entries
    unfolding evict_oldest_until
    evict_oldest_until-GoneOrIs last_seen_ms m b j v h g =
        elim (Bool-cases (leb (length h.entries) m && leb h.bytes_held b)) [
          | inl f ↦ rw f g
          | inr f ↦ rw f (
              evict_each-GoneOrIs m b (sort_by_age (ages accounted_bytes last_seen_ms h.entries)) j
                v h g)
        ]
