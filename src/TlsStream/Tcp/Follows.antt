-- ===== src/TlsStream/Tcp/Follows.antt =====
-- What a stream of capture-agent/src/tls_stream.rs holds of the bytes that were sent.
use network_monitor.Base.{
  ℕ, zero, suc, ◌+◌, ◌%◌, ◌≤◌, ◌<◌, ◌≡◌, refl, sym, ap, ◌∙◌, subst, ◌≢◌, inl, inr, true, false,
  List, [], ◌∷◌, arith, ltb, ◌==◌, ==_iff, Bool-cases, length, get_or-drop, get_or, set, take, drop,
  length-set, length-take, length-drop, length-resize, get_or-resize, get_or-set_self,
  get_or-set_ne, get_or-take, get_or_ext, u32_mod, wrapping_add32, string_eq,
}
use network_monitor.TlsStream.Tcp.{TlsTcpStream, write_slots, count_present, grow_to}

-- The stream has consumed `k` bytes of `orig`, whose first sequence number is `isn`, and what it
-- holds out of order is of `orig` too.
pub record Follows (orig : List ℕ) (isn k : ℕ) (s : TlsTcpStream) : Type 0 where
  pub numbered : s.next_seq ≡ (isn + k) % u32_mod
  pub consumed : k ≤ length orig
  pub paired : length s.bytes ≡ length s.present
  pub inside : (i : ℕ) → get_or s.present i 0 ≢ 0 → k + i < length orig
  pub same : (i : ℕ) → get_or s.present i 0 ≢ 0 → get_or s.bytes i 0 ≡ get_or orig (k + i) 0

-- `payload` is what `orig` has from index `p` on.
pub record IsSlice (orig : List ℕ) (p : ℕ) (payload : List ℕ) : Type 0 where
  pub inside : p + length payload ≤ length orig
  pub bytes : (i : ℕ) → i < length payload → get_or payload i 0 ≡ get_or orig (p + i) 0

-- One slot filled with its byte of `orig`.
pub fill-Follows :
    (orig : List ℕ) (isn k slot byte : ℕ) (s : TlsTcpStream)
    → Follows orig isn k s
    → slot < length s.bytes
    → k + slot < length orig
    → byte ≡ get_or orig (k + slot) 0
    → Follows orig isn k
        (record s { bytes = set s.bytes slot byte; present = set s.present slot 1 })
fill-Follows orig isn k slot byte s v h l e = record {
  numbered = v.numbered;
  consumed = v.consumed;
  paired = omega (arith, length-set s.bytes slot byte, length-set s.present slot 1, v.paired);
  inside = λ i p. elim (Bool-cases (i == slot)) [
    | inl b ↦ ground arith
    | inr b ↦
        let ne : slot ≢ i = ground arith in
        v.inside i (λ z. p (get_or-set_ne s.present slot i 1 0 ne ∙ z))
  ];
  same = λ i p. elim (Bool-cases (i == slot)) [
    | inl b ↦ let at : i ≡ slot = ground arith in rw at (get_or-set_self s.bytes slot byte 0 h ∙ e)
    | inr b ↦
        let ne : slot ≢ i = ground arith in
        get_or-set_ne s.bytes slot i byte 0 ne
        ∙ v.same i (λ z. p (get_or-set_ne s.present slot i 1 0 ne ∙ z))
  ];
}

pub tail-IsSlice :
    (orig : List ℕ) (p byte : ℕ) (rest : List ℕ)
    → IsSlice orig p (byte ∷ rest)
    → IsSlice orig (p + 1) rest
tail-IsSlice orig p byte rest v = record {
  inside = omega (arith, v.inside);
  bytes = λ i h. v.bytes (suc i) (omega arith) ∙ ap (λ n. get_or orig n 0) (omega arith);
}

pub head_at :
    (orig : List ℕ) (p byte : ℕ) (rest : List ℕ)
    → IsSlice orig p (byte ∷ rest)
    → byte ≡ get_or orig p 0
head_at orig p byte rest v = v.bytes 0 (omega arith) ∙ ap (λ n. get_or orig n 0) (omega arith)

pub shift-IsSlice :
    (orig : List ℕ) (p q : ℕ) (payload : List ℕ)
    → p ≡ q
    → IsSlice orig p payload
    → IsSlice orig q payload
shift-IsSlice orig p q payload e v = subst (λ n. IsSlice orig n payload) e v

-- Writing a slice of `orig` meets no conflict.
pub write_slots-Follows :
    (orig : List ℕ) (isn k slot : ℕ) (payload : List ℕ) (s : TlsTcpStream)
    → Follows orig isn k s
    → slot + length payload ≤ length s.bytes
    → IsSlice orig (k + slot) payload
    → ((write_slots slot payload s).1 ≡ false)
      × Follows orig isn k (write_slots slot payload s).0
      × ((write_slots slot payload s).0.next_seq ≡ s.next_seq)
unfolding write_slots
write_slots-Follows orig isn k slot [] s v h w = (refl, v, refl)
write_slots-Follows orig isn k slot (byte ∷ rest) s v h w =
    let next =
      shift-IsSlice orig (k + slot + 1) (k + (slot + 1)) rest (omega arith)
        (tail-IsSlice orig (k + slot) byte rest w) in
    elim (Bool-cases (get_or s.present slot 0 == 0)) [
      | inl e ↦
          rw (e, write_slots)
            (write_slots-Follows orig isn k (slot + 1) rest
              (record s { bytes = set s.bytes slot byte; present = set s.present slot 1 })
              (fill-Follows orig isn k slot byte s v (omega arith) (omega (arith, w.inside))
                (head_at orig (k + slot) byte rest w))
              (omega (arith, length-set s.bytes slot byte)) next)
      | inr e ↦
          let set_already : get_or s.present slot 0 ≢ 0 = ground arith in
          let equal : (get_or s.bytes slot 0 == byte) ≡ true =
            (==_iff _ _).1 (v.same slot set_already ∙ sym (head_at orig (k + slot) byte rest w)) in
          rw (e, write_slots)
            (rw (equal, write_slots)
              (write_slots-Follows orig isn k (slot + 1) rest s v (omega arith) next))
    ]

pub grow_to-Follows :
    (orig : List ℕ) (isn k end : ℕ) (s : TlsTcpStream)
    → Follows orig isn k s
    → Follows orig isn k (grow_to end s) × (end ≤ length (grow_to end s).bytes)
unfolding grow_to
grow_to-Follows orig isn k end s v = elim (Bool-cases (ltb (length s.bytes) end)) [
  | inl e ↦
      let room : length s.bytes ≤ end = ground arith in
      let room' : length s.present ≤ end = omega (arith, v.paired) in
      rw e (
        record {
          numbered = v.numbered;
          consumed = v.consumed;
          paired = length-resize s.bytes end 0 ∙ sym (length-resize s.present end 0);
          inside = λ i p. v.inside i (λ z. p (get_or-resize s.present end i 0 room' ∙ z));
          same = λ i p.
              get_or-resize s.bytes end i 0 room
              ∙ v.same i (λ z. p (get_or-resize s.present end i 0 room' ∙ z));
        },
        omega (arith, length-resize s.bytes end 0),
      )
  | inr e ↦ rw e (v, ground arith)
]

pub count_present-le : (ps : List ℕ) → count_present ps ≤ length ps
count_present-le [] = omega arith
count_present-le (p ∷ ps) = ground (arith, count_present-le ps)

pub count_present_at : (ps : List ℕ) (i : ℕ) → i < count_present ps → get_or ps i 0 ≢ 0
count_present_at [] i h = absurd (omega arith)
count_present_at (p ∷ ps) zero h = ground arith
count_present_at (p ∷ ps) (suc i) h = count_present_at ps i (ground arith)

pub get_or-count_present : (ps : List ℕ) → get_or ps (count_present ps) 0 ≡ 0
get_or-count_present [] = refl
get_or-count_present (p ∷ ps) = ground (arith, get_or-count_present ps)

-- The index that a run of `c` present bytes reaches.
pub reach :
    (orig : List ℕ) (isn k c : ℕ) (s : TlsTcpStream)
    → Follows orig isn k s
    → c ≤ count_present s.present
    → k + c ≤ length orig
reach orig isn k zero s v h = omega (arith, v.consumed)
reach orig isn k (suc c) s v h =
    omega (arith, v.inside c (count_present_at s.present c (omega arith)))

abbrev pub drained : TlsTcpStream → ℕ → TlsTcpStream
drained s c = record {
  next_seq = wrapping_add32 s.next_seq (c % u32_mod);
  bytes = drop c s.bytes;
  present = drop c s.present;
}

pub drained-Follows :
    (orig : List ℕ) (isn k c : ℕ) (s : TlsTcpStream)
    → Follows orig isn k s
    → c ≤ count_present s.present
    → Follows orig isn (k + c) (drained s c)
drained-Follows orig isn k c s v h = record {
  numbered = omega (arith, v.numbered);
  consumed = reach orig isn k c s v h;
  paired = omega (arith, length-drop c s.bytes, length-drop c s.present, v.paired);
  inside = λ i p. omega (arith, v.inside (c + i) (λ z. p (get_or-drop c s.present i 0 ∙ z)));
  same = λ i p.
      get_or-drop c s.bytes i 0
      ∙ (v.same (c + i) (λ z. p (get_or-drop c s.present i 0 ∙ z))
          ∙ ap (λ n. get_or orig n 0) (omega arith));
}

-- The first `c` bytes are the next `c` of `orig`.
pub taken :
    (orig : List ℕ) (isn k c : ℕ) (s : TlsTcpStream)
    → Follows orig isn k s
    → c ≤ count_present s.present
    → (length (take c s.bytes) ≡ c) × (take c s.bytes ≡ take c (drop k orig))
taken orig isn k c s v h =
    let inb : c ≤ length s.bytes = omega (arith, count_present-le s.present, v.paired) in
    let far = reach orig isn k c s v h in
    let one : length (take c s.bytes) ≡ c = omega (arith, length-take c s.bytes) in
    (
      one,
      get_or_ext _ _ 0 (omega (arith, length-take c (drop k orig), length-drop k orig)) (λ i hi.
          let small : i < c = omega arith in
          get_or-take c s.bytes i 0 small
          ∙ (v.same i (count_present_at s.present i (omega arith))
              ∙ sym (get_or-take c (drop k orig) i 0 small ∙ get_or-drop k orig i 0))),
    )
