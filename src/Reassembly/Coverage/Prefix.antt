-- ===== src/Reassembly/Coverage/Prefix.antt =====
-- What `contiguous_len_from` measures.
use network_monitor.Base.{
  ℕ, zero, suc, ◌+◌, ◌≤◌, ◌<◌, min, ◌≡◌, refl, ◌∙◌, Bool, true, false, List, [], ◌∷◌, arith, length,
  get_or, drop,
}
use network_monitor.Reassembly.Coverage.{run_length, count_on, contiguous_len_from}

count_on_lem : (bs : List Bool) (len : ℕ) → count_on bs len ≡ len + run_length bs
unfolding count_on
count_on_lem [] len = omega arith
count_on_lem (true ∷ bs) len = omega (arith, count_on_lem bs (len + 1))
count_on_lem (false ∷ bs) len = omega arith

run_length-drop :
    (bs : List Bool) (n : ℕ) → n ≤ run_length bs → n + run_length (drop n bs) ≡ run_length bs
run_length-drop bs zero h = omega arith
run_length-drop [] (suc n) h = absurd (omega arith)
run_length-drop (true ∷ bs) (suc n) h = omega (arith, run_length-drop bs n (omega arith))
run_length-drop (false ∷ bs) (suc n) h = absurd (omega arith)

pub run_length-le : (bs : List Bool) → run_length bs ≤ length bs
run_length-le [] = omega arith
run_length-le (true ∷ bs) = omega (arith, run_length-le bs)
run_length-le (false ∷ bs) = omega arith

pub get_or_of_lt_run_length :
    (bs : List Bool) (i : ℕ) → i < run_length bs → get_or bs i false ≡ true
get_or_of_lt_run_length [] i h = absurd (omega arith)
get_or_of_lt_run_length (true ∷ bs) zero h = refl
get_or_of_lt_run_length (true ∷ bs) (suc i) h = get_or_of_lt_run_length bs i (omega arith)
get_or_of_lt_run_length (false ∷ bs) i h = absurd (omega arith)

pub get_or-run_length : (bs : List Bool) → get_or bs (run_length bs) false ≡ false
get_or-run_length [] = refl
get_or-run_length (true ∷ bs) = get_or-run_length bs
get_or-run_length (false ∷ bs) = refl

-- A run of `n` markers from the start is no longer than the longest.
pub le-run_length :
    (bs : List Bool) (n : ℕ) → ((i : ℕ) → i < n → get_or bs i false ≡ true) → n ≤ run_length bs
le-run_length bs zero h = omega arith
le-run_length [] (suc n) h = let e = h 0 (omega arith) in cc
le-run_length (true ∷ bs) (suc n) h =
    omega (arith, le-run_length bs n (λ i hi. h (suc i) (omega arith)))
le-run_length (false ∷ bs) (suc n) h = let e = h 0 (omega arith) in cc

-- Resuming the scan from a length that is known to be contiguous finds the longest run of held
-- bytes from the start, as a scan from the start would.
pub contiguous_len_from-run_length :
    (filled : List Bool) (known : ℕ)
    → known ≤ run_length filled
    → contiguous_len_from filled known ≡ run_length filled
unfolding contiguous_len_from
contiguous_len_from-run_length filled known h =
    let e : min known (length filled) ≡ known = omega (arith, run_length-le filled) in
    rw e (count_on_lem (drop known filled) known ∙ run_length-drop filled known h)
