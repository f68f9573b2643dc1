-- ===== src/Reassembly/Eviction/Tests.antt =====
-- Evictions on a small table of lengths with the times at which they were last seen.
use network_monitor.Base.{ℕ, ◌≡◌, refl, [], ◌∷◌, ◌==◌, ==_iff, Eq, string_eq, lookup, remove}
use network_monitor.Reassembly.Eviction.{
  Held, evict_oldest_until, evict_each, sort_by_age, place, ages, drop_entry,
}
use network_monitor.Reassembly.Eviction.Ceilings.{Within, evict_oldest_until-Within}

instance abbrev nat_eq : Eq ℕ
nat_eq = record { beq = ◌==◌; beq_iff = ==_iff }

-- A value is its size and its time.
abbrev three : Held ℕ (ℕ × ℕ)
three = record {
  entries = (1, (10, 7)) ∷ (2, (20, 5)) ∷ (3, (30, 6)) ∷ [];
  bytes_held = 60;
  evicted = 0;
}

abbrev size : ℕ × ℕ → ℕ
size v = v.0

abbrev seen : ℕ × ℕ → ℕ
seen v = v.1

-- The oldest goes first.
oldest_first :
    evict_oldest_until size seen 2 45 three
    ≡ record { entries = (1, (10, 7)) ∷ (3, (30, 6)) ∷ []; bytes_held = 40; evicted = 1 }
unfolding evict_oldest_until evict_each sort_by_age place ages drop_entry lookup remove
oldest_first = refl

evict_oldest_until-Within_example : Within size 1 25 (evict_oldest_until size seen 1 25 three)
evict_oldest_until-Within_example = evict_oldest_until-Within size seen 1 25 three refl
