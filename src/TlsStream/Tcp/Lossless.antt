-- ===== src/TlsStream/Tcp/Lossless.antt =====
-- What a step of `TlsTcpStream` in capture-agent/src/tls_stream.rs does with the bytes that are
-- there: it delivers them, or it holds them.
use network_monitor.Base.{
  ℕ, suc, ◌+◌, ◌-◌, ◌≤◌, ◌<◌, ◌≡◌, refl, sym, ap, ◌∙◌, ◌≢◌, ◌⊎◌, inl, inr, false, List, [], ◌∷◌,
  arith, ltb, ◌==◌, ==_iff, Bool-cases, length, get_or-drop, get_or, set, take, drop, length-set,
  get_or-resize, get_or-set_self, get_or-set_ne, string_eq,
}
use network_monitor.TlsStream.Tcp.{
  TlsTcpStream, write_slots, count_present, grow_to, take_contiguous,
}
use native.Mathlib.Decide.{dec_lt}

-- Of a stream that has delivered everything before index `e`: the byte at index `j` was delivered, or
-- it is held.
abbrev pub Reached : ℕ → TlsTcpStream → ℕ → Type 0
Reached e s j = (j < e) ⊎ (get_or s.present (j - e) 0 ≢ 0)

-- A stream `s` that had delivered everything before index `k` becomes `s'`, which has delivered
-- everything before `e`: the `n` bytes from index `p` on were delivered or are held, and so is
-- everything that `s` held.
pub record LosesNothing (k p n e : ℕ) (s s' : TlsTcpStream) : Type 0 where
  pub taken_in : (j : ℕ) → p ≤ j → j < p + n → Reached e s' j
  pub kept : (j : ℕ) → k ≤ j → get_or s.present (j - k) 0 ≢ 0 → Reached e s' j

set_keeps :
    (present : List ℕ) (slot i : ℕ)
    → get_or present slot 0 ≡ 0
    → get_or present i 0 ≢ 0
    → get_or (set present slot 1) i 0 ≢ 0
set_keeps present slot i none_here h z = elim (Bool-cases (i == slot)) [
  | inl b ↦ let at : i ≡ slot = ground arith in h (ap (λ n. get_or present n 0) at ∙ none_here)
  | inr b ↦ let ne : slot ≢ i = ground arith in h (sym (get_or-set_ne present slot i 1 0 ne) ∙ z)
]

-- What was present stays present.
write_slots_keeps :
    (slot : ℕ) (payload : List ℕ) (s : TlsTcpStream) (i : ℕ)
    → get_or s.present i 0 ≢ 0
    → get_or (write_slots slot payload s).0.present i 0 ≢ 0
unfolding write_slots
write_slots_keeps slot [] s i h = h
write_slots_keeps slot (byte ∷ rest) s i h = elim (Bool-cases (get_or s.present slot 0 == 0)) [
  | inl e ↦
      rw (e, write_slots)
        (write_slots_keeps (slot + 1) rest
          (record s { bytes = set s.bytes slot byte; present = set s.present slot 1 }) i
          (set_keeps s.present slot i ((==_iff _ _).0 e) h))
  | inr e ↦ elim (Bool-cases (get_or s.bytes slot 0 == byte)) [
    | inl same ↦
        rw (e, write_slots) (rw (same, write_slots) (write_slots_keeps (slot + 1) rest s i h))
    | inr other ↦ rw (e, write_slots) (rw (other, write_slots) h)
  ]
]

-- The first slot, then the ones behind it.
one_more :
    (next : ℕ) (rest : List ℕ) (s : TlsTcpStream) (i slot : ℕ)
    → get_or s.present slot 0 ≢ 0
    → (next ≤ i → i < next + length rest → get_or (write_slots next rest s).0.present i 0 ≢ 0)
    → slot ≤ i
    → i < slot + suc (length rest)
    → next ≡ slot + 1
    → get_or (write_slots next rest s).0.present i 0 ≢ 0
one_more next rest s i slot now later lo hi at = elim (Bool-cases (i == slot)) [
  | inl b ↦
      let same : i ≡ slot = ground arith in
      write_slots_keeps next rest s i (λ z. now (ap (λ n. get_or s.present n 0) (sym same) ∙ z))
  | inr b ↦ later (ground arith) (omega arith)
]

-- Without a conflict every byte of the payload is present afterwards.
write_slots_fills :
    (slot : ℕ) (payload : List ℕ) (s : TlsTcpStream) (i : ℕ)
    → (write_slots slot payload s).1 ≡ false
    → slot + length payload ≤ length s.present
    → slot ≤ i
    → i < slot + length payload
    → get_or (write_slots slot payload s).0.present i 0 ≢ 0
unfolding write_slots
write_slots_fills slot [] s i c room lo hi = absurd (omega arith)
write_slots_fills slot (byte ∷ rest) s i c room lo hi =
    elim (Bool-cases (get_or s.present slot 0 == 0)) [
      | inl e ↦
          let s' : TlsTcpStream = record s {
            bytes = set s.bytes slot byte;
            present = set s.present slot 1;
          } in
          let now : get_or s'.present slot 0 ≢ 0 =
            λ z. omega (arith, z, get_or-set_self s.present slot 1 0 (omega arith)) in
          rw (e, write_slots)
            (one_more (slot + 1) rest s' i slot now
              (write_slots_fills (slot + 1) rest s' i (rw (e, write_slots) at c)
                (omega (arith, length-set s.present slot 1)))
              lo hi refl)
      | inr e ↦ elim (Bool-cases (get_or s.bytes slot 0 == byte)) [
        | inl same ↦
            let already : get_or s.present slot 0 ≢ 0 = ground arith in
            rw (e, write_slots)
              (rw (same, write_slots)
                (one_more (slot + 1) rest s i slot already
                  (write_slots_fills (slot + 1) rest s i
                    (rw (same, write_slots) at (rw (e, write_slots) at c)) (omega arith))
                  lo hi refl))
        | inr other ↦ absurd (let bad = rw (other, write_slots) at (rw (e, write_slots) at c) in cc)
      ]
    ]

pub grow_to_keeps :
    (end : ℕ) (s : TlsTcpStream) (i : ℕ)
    → length s.bytes ≡ length s.present
    → get_or (grow_to end s).present i 0 ≡ get_or s.present i 0
unfolding grow_to
grow_to_keeps end s i paired = elim (Bool-cases (ltb (length s.bytes) end)) [
  | inl e ↦ rw e (get_or-resize s.present end i 0 (ground (arith, paired)))
  | inr e ↦ rw e refl
]

-- Growing and writing at `offset`: nothing is lost.
pub written_LosesNothing :
    (k offset end : ℕ) (s : TlsTcpStream) (payload : List ℕ)
    → length s.bytes ≡ length s.present
    → (write_slots offset payload (grow_to end s)).1 ≡ false
    → offset + length payload ≤ length (grow_to end s).present
    → LosesNothing k
        (k + offset)
        (length payload)
        k
        s
        (write_slots offset payload (grow_to end s)).0
written_LosesNothing k offset end s payload paired c room = record {
  taken_in = λ j lo hi.
      inr (
        write_slots_fills offset payload (grow_to end s) (j - k) c room (omega arith)
          (omega arith));
  kept = λ j lo h. inr (
      write_slots_keeps offset payload (grow_to end s) (j - k)
        (λ z. h (sym (grow_to_keeps end s (j - k) paired) ∙ z)));
}

-- Delivering the contiguous prefix moves the edge, and what lay behind it is still held.
take_contiguous-Reached :
    (k : ℕ) (s : TlsTcpStream) (j : ℕ)
    → k ≤ j
    → length (take_contiguous s).1 ≡ count_present s.present
    → get_or s.present (j - k) 0 ≢ 0
    → Reached (k + length (take_contiguous s).1) (take_contiguous s).0 j
unfolding take_contiguous
take_contiguous-Reached k s j lo len h = elim (Bool-cases (count_present s.present == 0)) [
  | inl e ↦
      let none_out : k + 0 ≡ k = omega arith in
      rw e (inr (λ z. h (ap (λ n. get_or s.present (j - n) 0) (sym none_out) ∙ z)))
  | inr e ↦
      let c = count_present s.present in
      let size : length (take c s.bytes) ≡ c = rw e at len in
      rw e (elim (dec_lt j (k + c)) [
        | yes before ↦ inl (omega arith)
        | no behind ↦ inr (λ z. h (
            ap (λ n. get_or s.present n 0) (omega arith)
            ∙ (sym (get_or-drop c s.present (j - (k + c)) 0)
                ∙ (ap (λ n. get_or (drop c s.present) (j - (k + n)) 0) (sym size) ∙ z))))
      ])
]

later :
    (k : ℕ) (s : TlsTcpStream) (j : ℕ)
    → k ≤ j
    → length (take_contiguous s).1 ≡ count_present s.present
    → Reached k s j
    → Reached (k + length (take_contiguous s).1) (take_contiguous s).0 j
later k s j lo len (inl before) = absurd (omega arith)
later k s j lo len (inr held) = take_contiguous-Reached k s j lo len held

pub delivered_LosesNothing :
    (k p n : ℕ) (s s' : TlsTcpStream)
    → k ≤ p
    → length (take_contiguous s').1 ≡ count_present s'.present
    → LosesNothing k p n k s s'
    → LosesNothing k p n (k + length (take_contiguous s').1) s (take_contiguous s').0
delivered_LosesNothing k p n s s' lo len v = record {
  taken_in = λ j above below. later k s' j (omega arith) len (v.taken_in j above below);
  kept = λ j above h. later k s' j above len (v.kept j above h);
}
