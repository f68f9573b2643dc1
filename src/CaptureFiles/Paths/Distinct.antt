-- ===== src/CaptureFiles/Paths/Distinct.antt =====
-- No two members of a ring of capture-agent/src/ring.rs have one name.
use network_monitor.Base.{
  ℕ, zero, suc, ◌+◌, ◌-◌, ◌*◌, ◌/◌, ◌%◌, ◌^◌, ◌≤◌, ◌<◌, ◌≡◌, refl, sym, ap, ◌∙◌, ◌≢◌, inl, inr,
  some, List, [], ◌∷◌, ◌++◌, arith, ltb, Bool-cases, length, get_or, drop, replicate, length-append,
  length-replicate, append_assoc, u32_mod, string_eq,
}
use network_monitor.CaptureFiles.Paths.{
  RingConfig, BasePath, file_stem, extension, decimal, four_digits, dot_extension, member_path,
  partial_suffix, partial_path,
}

-- The number that digits stand for, behind others.
abbrev value : ℕ → List ℕ → ℕ
value n [] = n
value n (d ∷ ds) = value (n * 10 + (d - 48)) ds

value-append : (n : ℕ) (a b : List ℕ) → value n (a ++ b) ≡ value (value n a) b
value-append n [] b = refl
value-append n (d ∷ ds) b = value-append (n * 10 + (d - 48)) ds b

value-zeros : (k : ℕ) (ds : List ℕ) → value 0 (replicate k 48 ++ ds) ≡ value 0 ds
value-zeros zero ds = refl
value-zeros (suc k) ds = value-zeros k ds

value-decimal : (fuel n : ℕ) → n < 10 ^ suc fuel → value 0 (decimal fuel n) ≡ n
unfolding decimal
value-decimal zero n h = omega (arith, h)
value-decimal (suc fuel) n h = elim (Bool-cases (ltb n 10)) [
  | inl low ↦ rw low (omega arith)
  | inr high ↦ rw high (
      value-append 0 (decimal fuel (n / 10)) ((48 + n % 10) ∷ [])
      ∙ (ap (λ v. v * 10 + (48 + n % 10 - 48)) (value-decimal fuel (n / 10) (omega (arith, h)))
          ∙ omega arith))
]

length-decimal : (fuel n : ℕ) → length (decimal fuel n) ≤ suc fuel
unfolding decimal
length-decimal zero n = omega arith
length-decimal (suc fuel) n = elim (Bool-cases (ltb n 10)) [
  | inl low ↦ rw low (omega arith)
  | inr high ↦ rw high (
      omega (
        arith,
        length-append (decimal fuel (n / 10)) ((48 + n % 10) ∷ []),
        length-decimal fuel (n / 10),
      ))
]

length-four_digits : (n : ℕ) → (4 ≤ length (four_digits n)) × (length (four_digits n) ≤ 10)
unfolding four_digits
length-four_digits n =
    let padding = 4 - length (decimal 9 n) in
    let sum = length-append (replicate padding 48) (decimal 9 n) in
    let zeros = length-replicate {A = ℕ} padding 48 in
    (omega (arith, sum, zeros, length-decimal 9 n), omega (arith, sum, zeros, length-decimal 9 n))

value-four_digits : (n : ℕ) → n < u32_mod → value 0 (four_digits n) ≡ n
unfolding four_digits
value-four_digits n h =
    value-zeros (4 - length (decimal 9 n)) (decimal 9 n) ∙ value-decimal 9 n (omega (arith, h))

append_cancel : (a b c : List ℕ) → a ++ b ≡ a ++ c → b ≡ c
append_cancel [] b c h = h
append_cancel (x ∷ a) b c h = append_cancel a b c (ap (drop 1) h)

append_cancel_right : (a b c : List ℕ) → a ++ c ≡ b ++ c → a ≡ b
append_cancel_right [] [] c h = refl
append_cancel_right [] (y ∷ b) c h = absurd (omega (arith, ap length h, length-append b c))
append_cancel_right (x ∷ a) [] c h = absurd (omega (arith, ap length h, length-append a c))
append_cancel_right (x ∷ a) (y ∷ b) c h =
    let tails = append_cancel_right a b c (ap (drop 1) h) in
    let heads : x ≡ y = ap (λ l. get_or l 0 0) h in rw (heads, tails) refl

module _ (base : BasePath) (ring : RingConfig) where
  -- What stands in front of the index.
  before_index : List ℕ
  before_index = base.directory ++ (file_stem base.file_name ++ (45 ∷ []))

  member_path_around :
      (index : ℕ)
      → member_path base (some ring) index
        ≡ before_index ++ (four_digits index ++ dot_extension (extension base.file_name))
  unfolding member_path before_index
  member_path_around index =
      let behind = four_digits index ++ dot_extension (extension base.file_name) in
      sym (
        append_assoc base.directory (file_stem base.file_name ++ (45 ∷ [])) behind
        ∙ ap (λ l. base.directory ++ l) (append_assoc (file_stem base.file_name) (45 ∷ []) behind))

  -- Members with different numbers have different paths, whatever path was asked for.
  pub member_path-injective :
      (i j : ℕ)
      → i < u32_mod
      → j < u32_mod
      → member_path base (some ring) i ≡ member_path base (some ring) j
      → i ≡ j
  member_path-injective i j hi hj h =
      let behind = dot_extension (extension base.file_name) in
      let same =
        append_cancel before_index _ _ (sym (member_path_around i) ∙ (h ∙ member_path_around j)) in
      let digits = append_cancel_right (four_digits i) (four_digits j) behind same in
      sym (value-four_digits i hi) ∙ (ap (value 0) digits ∙ value-four_digits j hj)

  -- A member that is being written has no finished member's path.
  pub partial_path-member_path :
      (i j : ℕ) → partial_path (member_path base (some ring) i) ≢ member_path base (some ring) j
  unfolding partial_path
  partial_path-member_path i j h =
      let behind = dot_extension (extension base.file_name) in
      let left = length-append before_index (four_digits i ++ behind) in
      let right = length-append before_index (four_digits j ++ behind) in
      omega (
        arith,
        ap length h,
        length-append (member_path base (some ring) i) partial_suffix,
        ap length (member_path_around i),
        ap length (member_path_around j),
        left,
        right,
        length-append (four_digits i) behind,
        length-append (four_digits j) behind,
        (length-four_digits i).0,
        (length-four_digits j).1,
      )
