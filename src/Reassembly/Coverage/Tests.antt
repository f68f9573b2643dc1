-- ===== src/Reassembly/Coverage/Tests.antt =====
-- Overlapping writes, and the theorems on them at small inputs.
use network_monitor.Base.{ℕ, ◌≡◌, refl, Bool, true, false, List, [], ◌∷◌, arith, get_or, string_eq}
use network_monitor.Reassembly.Coverage.{
  write_byte, write_bytes, write_first_seen_wins, contiguous_len_from,
}
use network_monitor.Reassembly.Coverage.Writes.{write_first_seen_wins_at}
use network_monitor.Reassembly.Coverage.Prefix.{contiguous_len_from-run_length}

abbrev some_bytes : List ℕ
some_bytes = 1 ∷ 2 ∷ 0 ∷ []

abbrev some_filled : List Bool
some_filled = true ∷ true ∷ false ∷ []

-- The second byte conflicts, the third and fourth are new, the fifth is past the cap.
overlap : write_first_seen_wins some_bytes some_filled 1 (9 ∷ 3 ∷ 4 ∷ 5 ∷ []) 4 ≡ record {
  bytes = 1 ∷ 2 ∷ 3 ∷ 4 ∷ [];
  filled = true ∷ true ∷ true ∷ true ∷ [];
  outcome = record { newly_written = 2; conflicting = 1; hit_cap = true };
}
unfolding write_first_seen_wins write_bytes write_byte
overlap = refl

write_first_seen_wins_at_example :
    let w = write_first_seen_wins some_bytes some_filled 1 (9 ∷ 3 ∷ 4 ∷ 5 ∷ []) 4 in
    (get_or w.filled 1 false ≡ true) × (get_or w.bytes 1 0 ≡ 2)
write_first_seen_wins_at_example =
    write_first_seen_wins_at some_bytes some_filled 1 (9 ∷ 3 ∷ 4 ∷ 5 ∷ []) 4 1 refl (omega arith)

contiguous_len_from-run_length_example : contiguous_len_from some_filled 1 ≡ 2
contiguous_len_from-run_length_example = contiguous_len_from-run_length some_filled 1 (omega arith)
