-- ===== src/Reassembly/DnsFraming/Framed.antt =====
-- The walk of capture-agent/src/reassembly.rs over whole framed messages.
use network_monitor.Base.{
  gt→leb, ℕ, zero, suc, ◌+◌, ◌/◌, ◌%◌, ◌≤◌, ◌<◌, ◌≡◌, sym, ap, ◌∙◌, Bool, true, false, not, ◌&&◌,
  ◌⊎◌, inl, inr, refl, Option, none, some, List, [], ◌∷◌, ◌++◌, arith, le→ltb, le→leb, length,
  get_or, length-append, get_or-append_right, append_assoc, u32_mod, wrapping_add32, string_eq,
}
use network_monitor.Reassembly.DnsFraming.Walk.{
  be16, walk_from, dns_tcp_walk, with_carry, shows_response,
}

-- Messages as they are sent over TCP: each behind its length in two bytes.
abbrev pub framed : List (List ℕ) → List ℕ
framed [] = []
framed (m ∷ ms) = length m / 256 ∷ length m % 256 ∷ (m ++ framed ms)

-- Each message is as long as a DNS header at least, and its length fits in two bytes.
abbrev pub AreMessages : List (List ℕ) → Type 0
AreMessages [] = Unit
AreMessages (m ∷ ms) = (12 ≤ length m) × (length m < 65536) × AreMessages ms

declared_at :
    (before m rest : List ℕ)
    → be16 (before ++ (length m / 256 ∷ length m % 256 ∷ rest)) (length before) ≡ length m
declared_at before m rest =
    let bytes : List ℕ = length m / 256 ∷ length m % 256 ∷ rest in
    let same : length before + 0 ≡ length before = omega arith in
    let hi : get_or (before ++ bytes) (length before) 0 ≡ length m / 256 =
      rw same at (get_or-append_right before bytes 0 0) in
    let lo = get_or-append_right before bytes 1 0 in omega (arith, hi, lo)

walk_from-framed :
    (fuel : ℕ) (before : List ℕ) (ms : List (List ℕ)) (base_seq : ℕ)
    → AreMessages ms
    → length (framed ms) ≤ fuel
    → walk_from fuel (before ++ framed ms) base_seq (length before)
      ≡ some (wrapping_add32 base_seq ((length before + length (framed ms)) % u32_mod), none)
unfolding walk_from
walk_from-framed zero before [] base_seq v h =
    ap (λ n. some (wrapping_add32 base_seq (n % u32_mod), none)) (omega arith)
walk_from-framed zero before (m ∷ ms) base_seq v h = absurd (omega arith)
walk_from-framed (suc fuel) before [] base_seq v h =
    rw (le→leb (length (before ++ [])) (length before) (omega (arith, length-append before [])))
      (ap (λ n. some (wrapping_add32 base_seq (n % u32_mod), none)) (omega arith))
walk_from-framed (suc fuel) before (m ∷ ms) base_seq v h =
    let head : List ℕ = length m / 256 ∷ length m % 256 ∷ m in
    let all = before ++ framed (m ∷ ms) in
    let size = length-append before (framed (m ∷ ms)) in
    let size' = length-append m (framed ms) in
    let later = walk_from-framed fuel (before ++ head) ms base_seq v.2 (omega (arith, size')) in
    let place : length (before ++ head) ≡ length before + (2 + length m) =
      omega (arith, length-append before head) in
    rw
      (
        gt→leb (length all) (length before) (omega (arith, size)),
        gt→leb (length all) (length before + 1) (omega (arith, size)),
        declared_at before m (m ++ framed ms),
        le→ltb (length m) 12 v.0,
      )
      (ap (λ bs. walk_from fuel bs base_seq (length before + (2 + length m)))
          (sym (append_assoc before head (framed ms)))
        ∙ (ap (walk_from fuel ((before ++ head) ++ framed ms) base_seq) (sym place)
            ∙ (later
                ∙ ap (λ n. some (wrapping_add32 base_seq (n % u32_mod), none))
                    (omega (arith, place, size')))))

walked :
    (response_only shows : Bool)
    → (response_only ≡ false) ⊎ (shows ≡ true)
    → (response_only && not shows) ≡ false
walked false shows r = refl
walked true shows (inl r) = absurd (cc)
walked true shows (inr r) = rw r refl

-- Over any number of whole messages, each as long as a DNS header at least, the walk ends at the
-- sequence number behind the last one, with no byte of a prefix pending. The first byte may have
-- been carried over from the segment before; where only responses are looked for, the first message
-- must show that it is one.
pub dns_tcp_walk-framed :
    (ms : List (List ℕ)) (carry : Option ℕ) (bytes : List ℕ) (base_seq : ℕ)
    (response_only continuing : Bool)
    → AreMessages ms
    → with_carry carry bytes ≡ framed ms
    → (response_only ≡ false) ⊎ (shows_response (framed ms) continuing ≡ true)
    → dns_tcp_walk bytes base_seq carry response_only continuing
      ≡ some (wrapping_add32 base_seq (length (framed ms) % u32_mod), none)
unfolding dns_tcp_walk
dns_tcp_walk-framed ms carry bytes base_seq response_only continuing v e r =
    rw (e, walked response_only (shows_response (framed ms) continuing) r)
      (walk_from-framed (length (framed ms)) [] ms base_seq v (omega arith)
        ∙ ap (λ n. some (wrapping_add32 base_seq (n % u32_mod), none)) (omega arith))
