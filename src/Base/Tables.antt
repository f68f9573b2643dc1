-- ===== src/Base/Tables.antt =====
-- Keyed tables: what the sources use of a `HashMap`. A table is the list of its entries in the
-- order in which an iteration over the map meets them.
use Prim.Native.Nat.{ℕ, ◌+◌}
use Prim.Native.String.{String}
use mathlib.Core.Path.{◌≡◌, refl, ap}
use mathlib.Core.Logic.{◌↔◌, inl, inr}
use mathlib.Core.Bool.{Bool, true, false}
use mathlib.Core.Option.{Option, none, some}
use mathlib.Core.List.{List, [], ◌∷◌}
use native.Mathlib.Omega.{arith}
use text.Mathlib.Text.{◌==◌ as str_eq}
use text.Mathlib.TextEquality.{eq_iff}
use mathlib.Core.Path.{subst}
use mathlib.Core.Option.{some-injective}
use network_monitor.Base.Tests.{Bool-cases, if◌then◌else◌, is_some}
use network_monitor.Base.Lists.{length}

pub record Eq {ℓ} (K : Type ℓ) : Type ℓ where
  pub beq : K → K → Bool
  pub beq_iff : (a b : K) → (beq a b ≡ true) ↔ (a ≡ b)

pub beq_refl {ℓ} : {K : Type ℓ} ⦃e : Eq K⦄ (k : K) → e.beq k k ≡ true
beq_refl ⦃e⦄ k = (e.beq_iff k k).1 refl

instance abbrev pub string_eq : Eq String
string_eq = record { beq = str_eq; beq_iff = eq_iff }

abbrev pub Table {ℓ κ} : Type ℓ → Type κ → Type (ℓ ⊔ κ)
Table K V = List (K × V)

-- The measure of the value under a key, 0 with no value.
abbrev pub measure_of {ℓ} : {V : Type ℓ} → (V → ℕ) → Option V → ℕ
measure_of f none = 0
measure_of f (some v) = f v

module _ {ℓ κ} {K : Type ℓ} {V : Type κ} ⦃e : Eq K⦄ where
  unfoldable pub lookup : K → Table K V → Option V
  lookup k [] = none
  lookup k ((j, v) ∷ t) = if e.beq j k then some v else lookup k t

  unfoldable pub contains_key : K → Table K V → Bool
  contains_key k t = is_some (lookup k t)

  unfoldable pub insert : K → V → Table K V → Table K V
  insert k v [] = (k, v) ∷ []
  insert k v ((j, w) ∷ t) = if e.beq j k then (j, v) ∷ t else (j, w) ∷ insert k v t

  unfoldable pub remove : K → Table K V → Table K V
  remove k [] = []
  remove k ((j, v) ∷ t) = if e.beq j k then t else (j, v) ∷ remove k t

  -- The sum of a measure over the values.
  abbrev pub total : (V → ℕ) → Table K V → ℕ
  total f [] = 0
  total f ((j, v) ∷ t) = f v + total f t

  -- A predicate holds of every value.
  abbrev pub AllValues {μ} : (V → Type μ) → Table K V → Type μ
  AllValues P [] = Unit
  AllValues P ((j, v) ∷ t) = P v × AllValues P t

  pub total-remove :
      (f : V → ℕ) (k : K) (t : Table K V)
      → total f (remove k t) + measure_of f (lookup k t) ≡ total f t
  unfolding lookup remove
  total-remove f k [] = omega arith
  total-remove f k ((j, v) ∷ t) = ground (arith, total-remove f k t)

  pub total-insert :
      (f : V → ℕ) (k : K) (v : V) (t : Table K V)
      → total f (insert k v t) + measure_of f (lookup k t) ≡ total f t + f v
  unfolding lookup insert
  total-insert f k v [] = omega arith
  total-insert f k v ((j, w) ∷ t) = ground (arith, total-insert f k v t)

  pub length-remove :
      (k : K) (t : Table K V)
      → length (remove k t) + (if is_some (lookup k t) then 1 else 0) ≡ length t
  unfolding lookup remove
  length-remove k [] = refl
  length-remove k ((j, v) ∷ t) = ground (arith, length-remove k t)

  pub length-insert :
      (k : K) (v : V) (t : Table K V)
      → length (insert k v t) ≡ length t + (if is_some (lookup k t) then 0 else 1)
  unfolding lookup insert
  length-insert k v [] = refl
  length-insert k v ((j, w) ∷ t) = ground (arith, length-insert k v t)

  pub lookup-AllValues {μ} :
      (P : V → Type μ) (k : K) (t : Table K V) (v : V) → AllValues P t → lookup k t ≡ some v → P v
  unfolding lookup
  lookup-AllValues P k [] v a h = absurd (cc)
  lookup-AllValues P k ((j, w) ∷ t) v a h = elim (Bool-cases (e.beq j k)) [
    | inl b ↦ subst P (let h' : some w ≡ some v = ground (arith, b) in some-injective w v h') a.0
    | inr b ↦ lookup-AllValues P k t v a.1 (rw b at h)
  ]

  pub remove-AllValues {μ} :
      (P : V → Type μ) (k : K) (t : Table K V) → AllValues P t → AllValues P (remove k t)
  unfolding remove
  remove-AllValues P k [] a = tt
  remove-AllValues P k ((j, w) ∷ t) a = elim (Bool-cases (e.beq j k)) [
    | inl b ↦ rw b a.1
    | inr b ↦ rw b (a.0, remove-AllValues P k t a.1)
  ]

  pub insert-AllValues {μ} :
      (P : V → Type μ) (k : K) (v : V) (t : Table K V)
      → P v
      → AllValues P t
      → AllValues P (insert k v t)
  unfolding insert
  insert-AllValues P k v [] p a = (p, tt)
  insert-AllValues P k v ((j, w) ∷ t) p a = elim (Bool-cases (e.beq j k)) [
    | inl b ↦ rw b (p, a.1)
    | inr b ↦ rw b (a.0, insert-AllValues P k v t p a.1)
  ]

  pub lookup-insert :
      (k j : K) (v : V) (t : Table K V)
      → lookup j (insert k v t) ≡ (if e.beq k j then some v else lookup j t)
  unfolding lookup insert
  lookup-insert k j v [] = refl
  lookup-insert k j v ((i, w) ∷ t) =
      ground (arith, e.beq_iff k j, e.beq_iff i k, e.beq_iff i j, lookup-insert k j v t)

  pub lookup-remove_ne :
      (k j : K) (t : Table K V) → e.beq k j ≡ false → lookup j (remove k t) ≡ lookup j t
  unfolding lookup remove
  lookup-remove_ne k j [] h = refl
  lookup-remove_ne k j ((i, w) ∷ t) h =
      ground (arith, e.beq_iff k j, e.beq_iff i k, e.beq_iff i j, lookup-remove_ne k j t h)

  pub remove-insert_fresh :
      (k : K) (v : V) (t : Table K V) → lookup k t ≡ none → remove k (insert k v t) ≡ t
  unfolding lookup insert remove
  remove-insert_fresh k v [] h = rw (beq_refl k) refl
  remove-insert_fresh k v ((i, w) ∷ t) h = elim (Bool-cases (e.beq i k)) [
    | inl b ↦ absurd (let bad : some w ≡ none = ground (arith, b) in cc)
    | inr b ↦
        let rest = remove-insert_fresh k v t (rw b at h) in rw b (rw b (ap (λ u. (i, w) ∷ u) rest))
  ]

  pub remove-insert_ne :
      (k j : K) (v : V) (t : Table K V)
      → e.beq k j ≡ false
      → remove j (insert k v t) ≡ insert k v (remove j t)
  unfolding insert remove
  remove-insert_ne k j v [] h = rw h refl
  remove-insert_ne k j v ((i, w) ∷ t) h =
      ground (arith, e.beq_iff k j, e.beq_iff i k, e.beq_iff i j, remove-insert_ne k j v t h)

  pub remove-remove_ne :
      (k j : K) (t : Table K V) → e.beq k j ≡ false → remove j (remove k t) ≡ remove k (remove j t)
  unfolding remove
  remove-remove_ne k j [] h = refl
  remove-remove_ne k j ((i, w) ∷ t) h =
      ground (arith, e.beq_iff k j, e.beq_iff i k, e.beq_iff i j, remove-remove_ne k j t h)
