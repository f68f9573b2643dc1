-- ===== src/TlsStream/Records/Fuel.antt =====
-- The loop of `TlsRecordFramer` in capture-agent/src/tls_stream.rs ends, and keeps a partial record.
use network_monitor.Base.{
  ℕ, zero, suc, ◌+◌, ◌-◌, ◌≤◌, ◌<◌, min, ◌≡◌, refl, ◌⊎◌, inl, inr, Bool, true, false, ◌&&◌, Option,
  some, List, [], ◌∷◌, ◌++◌, arith, ltb, leb, ◌==◌, if◌then◌else◌, ltb→lt, lt→ltb, Bool-cases,
  length, take, drop, length-append, length-take, length-drop, get_or-append, string_eq,
}
use network_monitor.Base.Results.{Result, err}
use network_monitor.TlsStream.Tcp.{max_tls_record_body_bytes}
use network_monitor.TlsStream.Records.{
  TlsRecordFramer, TlsRecordError, too_large, body_len, target_len, frame, feed?,
}

-- A record that is not complete, of a length that the protocol allows.
abbrev pub IsPartial : List ℕ → Type 0
IsPartial buffer =
    (length buffer < 5)
    ⊎ ((length buffer < 5 + body_len buffer) × (body_len buffer ≤ max_tls_record_body_bytes))

-- The loop gave an answer, and what it holds is a partial record.
abbrev pub Ends : Option (TlsRecordFramer × Result TlsRecordError (List (List ℕ))) → Type 0
Ends o =
    (f : TlsRecordFramer) × (r : Result TlsRecordError (List (List ℕ))) × (o ≡ some (f, r))
    × IsPartial f.buffer

body_len-append : (xs ys : List ℕ) → 5 ≤ length xs → body_len (xs ++ ys) ≡ body_len xs
unfolding body_len
body_len-append xs ys h =
    omega (arith, get_or-append xs ys 3 0 (omega arith), get_or-append xs ys 4 0 (omega arith))

-- How much a round takes: something, and no more than the record still lacks.
taken_amount :
    (buffer : List ℕ) (b : ℕ) (bs : List ℕ)
    → IsPartial buffer
    → (1 ≤ min (target_len buffer - length buffer) (suc (length bs)))
      × (length buffer + min (target_len buffer - length buffer) (suc (length bs))
          ≤ target_len buffer)
unfolding target_len
taken_amount buffer b bs (inl h) = rw (lt→ltb (length buffer) 5 h) (omega arith, omega arith)
taken_amount buffer b bs (inr h) = ground (arith, h.0)

if-Ends :
    (c : Bool) (x y : Option (TlsRecordFramer × Result TlsRecordError (List (List ℕ))))
    → (c ≡ true → Ends x)
    → (c ≡ false → Ends y)
    → Ends (if c then x else y)
if-Ends true x y f g = f refl
if-Ends false x y f g = g refl

still_short :
    (buffer more : List ℕ)
    → length buffer < 5
    → length buffer + length more ≤ target_len buffer
    → (length (buffer ++ more) == target_len buffer) ≡ false
    → IsPartial (buffer ++ more)
unfolding target_len
still_short buffer more short h e =
    let t : (if ltb (length buffer) 5 then 5 else 5 + body_len buffer) ≡ 5 =
      rw (lt→ltb (length buffer) 5 short) refl in
    inl (ground (arith, length-append buffer more, t, h, e))

-- After a round that neither completes a record nor refuses one, the buffer is a partial record.
still-IsPartial :
    (buffer more : List ℕ)
    → IsPartial buffer
    → length buffer + length more ≤ target_len buffer
    → (length (buffer ++ more) == target_len buffer) ≡ false
    → IsPartial (buffer ++ more)
unfolding target_len
still-IsPartial buffer more (inl short) h e = still_short buffer more short h e
still-IsPartial buffer more (inr long) h e = elim (Bool-cases (ltb (length buffer) 5)) [
  | inl short ↦ still_short buffer more (ltb→lt (length buffer) 5 short) h e
  | inr full ↦
      let same = body_len-append buffer more (ground (arith, full)) in
      inr (ground (arith, length-append buffer more, same, full), omega (arith, same, long.1))
]

frame-Ends :
    (fuel : ℕ) (buffer input : List ℕ) (records : List (List ℕ))
    → IsPartial buffer
    → length input ≤ fuel
    → Ends (frame fuel buffer input records)
unfolding frame
frame-Ends fuel buffer [] records v h = (_, _, refl, v)
frame-Ends zero buffer (b ∷ bs) records v h = absurd (omega arith)
frame-Ends (suc fuel) buffer (b ∷ bs) records v h =
    let input : List ℕ = b ∷ bs in
    let amount = min (target_len buffer - length buffer) (length input) in
    let a = taken_amount buffer b bs v in
    let rest : length (drop amount input) ≤ fuel = omega (arith, a.0, length-drop amount input) in
    let size = length-take amount input in
    let next = buffer ++ take amount input in
    let flushed =
      frame-Ends fuel [] (drop amount input) (records ++ (next ∷ [])) (inl (omega arith)) rest in
    let refused : Ends (some (record { buffer = [] }, err too_large)) =
      (_, _, refl, inl (omega arith)) in
    if-Ends (leb 5 (length buffer) && ltb max_tls_record_body_bytes (body_len buffer)) _ _
      (λ e. refused)
      (λ e.
        if-Ends (length next == 5) _ _
          (λ five.
            if-Ends (ltb max_tls_record_body_bytes (body_len next)) _ _ (λ large. refused)
              (λ fits.
                if-Ends (body_len next == 0) _ _ (λ empty. flushed)
                  (λ body.
                    frame-Ends fuel next (drop amount input) records
                      (inr (ground (arith, five, fits, body))) rest)))
          (λ other.
            if-Ends (length next == target_len buffer) _ _ (λ full. flushed)
              (λ more.
                frame-Ends fuel next (drop amount input) records
                  (still-IsPartial buffer (take amount input) v (omega (arith, size, a.1)) more)
                  rest)))

-- Fuel for each byte of the input is enough for the loop, from any partial record: a call gives an
-- answer, and what is held afterwards is a partial record again, whose declared length is within
-- the protocol's limit.
pub feed?-Ends : (f : TlsRecordFramer) (input : List ℕ) → IsPartial f.buffer → Ends (feed? f input)
unfolding feed?
feed?-Ends f input v = frame-Ends (length input) f.buffer input [] v (omega arith)
