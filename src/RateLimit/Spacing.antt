-- ===== src/RateLimit/Spacing.antt =====
-- How `allow` spaces the events that it lets through.
use network_monitor.Base.{
  ℕ, ◌+◌, ◌-◌, ◌*◌, ◌/◌, ◌≤◌, ◌<◌, ◌≡◌, refl, ap, inl, inr, Option, none, some, List, [], ◌∷◌,
  arith, ◌==◌, Bool-cases, length,
}
use network_monitor.RateLimit.{PacketEventLimiter, new, allow, admitted}

-- Each entry is at least `gap` after the one before it, the first at least `gap` after `last`.
abbrev pub Spaced : ℕ → Option ℕ → List ℕ → Type 0
Spaced gap last [] = Unit {0}
Spaced gap none (t ∷ ts) = Spaced gap (some t) ts
Spaced gap (some last) (t ∷ ts) = (gap ≤ t - last) × Spaced gap (some t) ts

-- Every time lies between `lo` and `hi`.
abbrev pub Within : ℕ → ℕ → List ℕ → Type 0
Within lo hi [] = Unit {0}
Within lo hi (t ∷ ts) = (lo ≤ t) × (t ≤ hi) × Within lo hi ts

with_gap : ℕ → Option ℕ → PacketEventLimiter
with_gap gap last = record { min_interval_ms = some gap; last_allowed_ms = last }

admitted-Spaced_from :
    (gap : ℕ) (last : Option ℕ) (ts : List ℕ) → Spaced gap last (admitted (with_gap gap last) ts)
unfolding admitted allow with_gap
admitted-Spaced_from gap last [] = tt
admitted-Spaced_from gap none (t ∷ ts) = admitted-Spaced_from gap (some t) ts
admitted-Spaced_from gap (some last) (t ∷ ts) =
    ground (arith, admitted-Spaced_from gap (some t) ts, admitted-Spaced_from gap (some last) ts)

admitted-Within :
    (lo hi : ℕ) (l : PacketEventLimiter) (ts : List ℕ)
    → Within lo hi ts
    → Within lo hi (admitted l ts)
unfolding admitted
admitted-Within lo hi l [] w = tt
admitted-Within lo hi l (t ∷ ts) w = ground (arith, admitted-Within lo hi (allow l t).0 ts w.2)

length-Spaced :
    (gap lo hi last : ℕ) (ts : List ℕ)
    → 0 < gap
    → lo ≤ last
    → last ≤ hi
    → Spaced gap (some last) ts
    → Within lo hi ts
    → gap * length ts + last ≤ hi
length-Spaced gap lo hi last [] p h k s w = omega arith
length-Spaced gap lo hi last (t ∷ ts) p h k s w =
    omega (arith, length-Spaced gap lo hi t ts p w.0 w.1 s.1 w.2)

length-Spaced-none :
    (gap lo hi : ℕ) (ts : List ℕ)
    → 0 < gap
    → Spaced gap none ts
    → Within lo hi ts
    → gap * length ts ≤ hi - lo + gap
length-Spaced-none gap lo hi [] p s w = omega arith
length-Spaced-none gap lo hi (t ∷ ts) p s w =
    omega (arith, length-Spaced gap lo hi t ts p w.0 w.1 s w.2)

-- With a budget of `budget` events per `window`, `budget` not zero, any two events let through in a row,
-- whatever the candidate times, are at least `window / budget` milliseconds apart.
pub admitted-Spaced :
    (budget window : ℕ) (ts : List ℕ)
    → 0 < budget
    → Spaced (window / budget) none (admitted (new budget window) ts)
unfolding new
admitted-Spaced budget window ts h = elim (Bool-cases (budget == 0)) [
  | inl e ↦ absurd (ground arith)
  | inr e ↦ rw e (unfold with_gap in admitted-Spaced_from (window / budget) none ts)
]

-- With a budget of `budget` events per `window` that leaves a gap of at least one millisecond, the
-- number of events let through among candidates that all lie between `lo` and `hi` is at most one
-- more than `hi - lo` over the gap.
pub length-admitted :
    (budget window lo hi : ℕ) (ts : List ℕ)
    → 0 < budget
    → 0 < window / budget
    → Within lo hi ts
    → (window / budget) * length (admitted (new budget window) ts) ≤ hi - lo + window / budget
length-admitted budget window lo hi ts h p w =
    length-Spaced-none (window / budget) lo hi _ p (admitted-Spaced budget window ts h)
      (admitted-Within lo hi (new budget window) ts w)

admitted-with_gap_zero : (last : Option ℕ) (ts : List ℕ) → admitted (with_gap 0 last) ts ≡ ts
unfolding admitted allow with_gap
admitted-with_gap_zero last [] = refl
admitted-with_gap_zero none (t ∷ ts) = ap (◌∷◌ t) (admitted-with_gap_zero (some t) ts)
admitted-with_gap_zero (some last) (t ∷ ts) = ground (arith, admitted-with_gap_zero (some t) ts)

admitted-new_zero : (window : ℕ) (ts : List ℕ) → admitted (new 0 window) ts ≡ []
unfolding admitted allow new
admitted-new_zero window [] = refl
admitted-new_zero window (t ∷ ts) = admitted-new_zero window ts

div_small : (budget window : ℕ) → window < budget → window / budget ≡ 0
div_small budget window h = grind arith

-- A budget of more events than the window has milliseconds is no limit: every candidate is let
-- through. A budget of zero lets none through.
pub admitted_extremes :
    (budget window : ℕ) (ts : List ℕ)
    → (window < budget → admitted (new budget window) ts ≡ ts) × (admitted (new 0 window) ts ≡ [])
unfolding new
admitted_extremes budget window ts = (high, admitted-new_zero window ts)
  where
    high : window < budget → admitted (new budget window) ts ≡ ts
    high h = elim (Bool-cases (budget == 0)) [
      | inl e ↦ absurd (ground arith)
      | inr e ↦
          rw (e, div_small budget window h) (unfold with_gap in admitted-with_gap_zero none ts)
    ]
