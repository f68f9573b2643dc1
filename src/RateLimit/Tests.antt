-- ===== src/RateLimit/Tests.antt =====
-- The limiter at small budgets.
use network_monitor.Base.{ℕ, ◌*◌, ◌≤◌, ◌≡◌, refl, none, List, [], ◌∷◌, arith, length, string_eq}
use network_monitor.RateLimit.{new, allow, admitted}
use network_monitor.RateLimit.Spacing.{Spaced, admitted-Spaced, length-admitted}

abbrev candidates : List ℕ
candidates = 0 ∷ 400 ∷ 500 ∷ 999 ∷ 1000 ∷ []

even_spacing : admitted (new 2 1000) candidates ≡ 0 ∷ 500 ∷ 1000 ∷ []
unfolding new admitted allow
even_spacing = refl

admitted-Spaced_example : Spaced 500 none (admitted (new 2 1000) candidates)
admitted-Spaced_example = admitted-Spaced 2 1000 candidates (omega arith)

length-admitted_example : 500 * length (admitted (new 2 1000) candidates) ≤ 1500
length-admitted_example =
    length-admitted 2 1000 0 1000 candidates (omega arith) (omega arith) (omega arith)
