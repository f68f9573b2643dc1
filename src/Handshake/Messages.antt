-- ===== src/Handshake/Messages.antt =====
-- The loop of capture-agent/src/tls_handshake.rs over the messages in the buffer.
use network_monitor.Base.{
  ℕ, zero, suc, ◌+◌, ◌-◌, ◌≤◌, ◌<◌, ◌≡◌, refl, sym, ap, ◌∙◌, ◌⊎◌, inl, inr, Option, none, some,
  List, [], ◌∷◌, ◌++◌, arith, ltb, lt→ltb, le→ltb, Bool-cases, length, get_or, take, drop,
  length-append, length-drop, get_or-append, drop-append, take-append, string_eq,
}
use network_monitor.Base.Results.{Result, ok, err, ◌>>=◌}
use network_monitor.Handshake.Hello.{HandshakeEvent, HandshakeParseError}
use network_monitor.Handshake.{
  max_handshake_buffer, message_len, parse_message, first_message, prepend, messages,
}

-- A complete message at the front.
pub record Complete (buffer : List ℕ) (event : HandshakeEvent) (len : ℕ) : Type 0 where
  pub long : 4 ≤ len
  pub inside : len ≤ length buffer
  pub sized : message_len buffer ≡ len
  pub small : len ≤ max_handshake_buffer
  pub parsed :
      parse_message (get_or buffer 0 0) (take (message_len buffer - 4) (drop 4 buffer)) ≡ ok event

pub bind_inv :
    (r : Result HandshakeParseError HandshakeEvent) (n len : ℕ) (event : HandshakeEvent)
    → (let tagged : HandshakeEvent → Result HandshakeParseError (Option (HandshakeEvent × ℕ)) =
          λ e. ok (some (e, n)) in
        r >>= tagged)
      ≡ ok (some (event, len))
    → (r ≡ ok event) × (n ≡ len)
bind_inv (ok e) n len event h = (cc, cc)
bind_inv (err e) n len event h = absurd (cc)

pub first_message-Complete :
    (buffer : List ℕ) (event : HandshakeEvent) (len : ℕ)
    → first_message buffer ≡ ok (some (event, len))
    → Complete buffer event len
unfolding first_message
first_message-Complete buffer event len h = elim (Bool-cases (ltb (length buffer) 4)) [
  | inl a ↦ absurd (let bad = rw a at h in cc)
  | inr a ↦ elim (Bool-cases (ltb max_handshake_buffer (message_len buffer))) [
    | inl b ↦ absurd (let bad = rw (a, b) at h in cc)
    | inr b ↦ elim (Bool-cases (ltb (length buffer) (message_len buffer))) [
      | inl c ↦ absurd (let bad = rw (a, b, c) at h in cc)
      | inr c ↦
          let inv = bind_inv _ (message_len buffer) len event (rw (a, b, c) at h) in
          record {
            long = omega (arith, inv.1);
            inside = ground (arith, inv.1);
            sized = inv.1;
            small = ground (arith, inv.1);
            parsed = inv.0;
          }
    ]
  ]
]

-- Bytes behind a complete message change nothing of it.
pub first_message-append :
    (x y : List ℕ) (event : HandshakeEvent) (len : ℕ)
    → Complete x event len
    → first_message (x ++ y) ≡ ok (some (event, len))
unfolding first_message
first_message-append x y event len c =
    let at : (i : ℕ) → i < 4 → get_or (x ++ y) i 0 ≡ get_or x i 0 =
      λ i h. get_or-append x y i 0 (omega (arith, c.long, c.inside)) in
    let size : message_len (x ++ y) ≡ message_len x =
      omega (arith, at 1 (omega arith), at 2 (omega arith), at 3 (omega arith)) in
    let body : take (message_len x - 4) (drop 4 (x ++ y)) ≡ take (message_len x - 4) (drop 4 x) =
      ap (take (message_len x - 4)) (drop-append 4 x y (omega (arith, c.long, c.inside)))
      ∙ take-append (message_len x - 4) (drop 4 x) y
          (omega (arith, c.sized, c.inside, length-drop 4 x)) in
    rw
      (
        le→ltb (length (x ++ y)) 4 (omega (arith, length-append x y, c.long, c.inside)),
        size,
        le→ltb max_handshake_buffer (message_len x) (omega (arith, c.sized, c.small)),
        le→ltb (length (x ++ y)) (message_len x)
            (omega (arith, length-append x y, c.sized, c.inside)),
        at 0 (omega arith),
        body,
        c.parsed,
        c.sized,
      )
      refl

pub first_message_short : (buffer : List ℕ) → length buffer < 4 → first_message buffer ≡ ok none
unfolding first_message
first_message_short buffer h = rw (lt→ltb (length buffer) 4 h) refl

pub first_message-cases :
    (r : Result HandshakeParseError (Option (HandshakeEvent × ℕ)))
    → ((e : HandshakeParseError) × (r ≡ err e))
      ⊎ (r ≡ ok none)
      ⊎ ((event : HandshakeEvent) × (len : ℕ) × (r ≡ ok (some (event, len))))
first_message-cases (err e) = inl (e, refl)
first_message-cases (ok none) = inr (inl refl)
first_message-cases (ok (some (event, len))) = inr (inr (event, len, refl))

pub messages_wait :
    (n : ℕ) (buffer : List ℕ) → first_message buffer ≡ ok none → messages n buffer ≡ ok ([], buffer)
unfolding messages
messages_wait zero buffer r = refl
messages_wait (suc n) buffer r = rw (r, messages) refl

pub messages_next :
    (n : ℕ) (buffer : List ℕ) (event : HandshakeEvent) (len : ℕ)
    → first_message buffer ≡ ok (some (event, len))
    → messages (suc n) buffer ≡ prepend event (messages n (drop len buffer))
unfolding messages
messages_next n buffer event len r = rw (r, messages) refl

pub messages_fail :
    (n : ℕ) (buffer : List ℕ) (e : HandshakeParseError)
    → first_message buffer ≡ err e
    → messages (suc n) buffer ≡ err e
unfolding messages
messages_fail n buffer e r = rw (r, messages) refl

-- Fuel for each byte is enough: more makes no difference.
pub messages_fuel :
    (n m : ℕ) (buffer : List ℕ)
    → length buffer ≤ n
    → length buffer ≤ m
    → messages n buffer ≡ messages m buffer
unfolding messages
messages_fuel zero m buffer h k =
    sym (messages_wait m buffer (first_message_short buffer (omega arith)))
messages_fuel (suc n) zero buffer h k =
    messages_wait (suc n) buffer (first_message_short buffer (omega arith))
messages_fuel (suc n) (suc m) buffer h k = elim (first_message-cases (first_message buffer)) [
  | inl (e, r) ↦ messages_fail n buffer e r ∙ sym (messages_fail m buffer e r)
  | inr (inl r) ↦ messages_wait (suc n) buffer r ∙ sym (messages_wait (suc m) buffer r)
  | inr (inr (event, len, r)) ↦
      let c = first_message-Complete buffer event len r in
      let shorter =
        messages_fuel n m (drop len buffer)
          (omega (arith, c.long, c.inside, length-drop len buffer))
          (omega (arith, c.long, c.inside, length-drop len buffer)) in
      messages_next n buffer event len r
      ∙ (ap (prepend event) shorter ∙ sym (messages_next m buffer event len r))
]

-- Events before those of what follows.
abbrev pub prepend_all :
    List HandshakeEvent
    → Result HandshakeParseError (List HandshakeEvent × List ℕ)
    → Result HandshakeParseError (List HandshakeEvent × List ℕ)
prepend_all events (ok (more, rest)) = ok (events ++ more, rest)
prepend_all events (err e) = err e

pub prepend_inv :
    (event : HandshakeEvent) (r : Result HandshakeParseError (List HandshakeEvent × List ℕ))
    (events : List HandshakeEvent) (rest : List ℕ)
    → prepend event r ≡ ok (events, rest)
    → (more : List HandshakeEvent) × (r ≡ ok (more, rest)) × (events ≡ event ∷ more)
prepend_inv event (ok (more, left)) events rest h = (more, cc, cc)
prepend_inv event (err e) events rest h = absurd (cc)

pub prepend-prepend_all :
    (event : HandshakeEvent) (events : List HandshakeEvent)
    (r : Result HandshakeParseError (List HandshakeEvent × List ℕ))
    → prepend event (prepend_all events r) ≡ prepend_all (event ∷ events) r
prepend-prepend_all event events (ok (more, rest)) = refl
prepend-prepend_all event events (err e) = refl

pub prepend_all_nil :
    (r : Result HandshakeParseError (List HandshakeEvent × List ℕ)) → prepend_all [] r ≡ r
prepend_all_nil (ok (more, rest)) = refl
prepend_all_nil (err e) = refl

pub nothing_taken :
    (n : ℕ) (x y : List ℕ) (events : List HandshakeEvent) (rest : List ℕ)
    → messages n x ≡ ok ([], x)
    → messages n x ≡ ok (events, rest)
    → (length rest ≤ length x) × (messages n (x ++ y) ≡ prepend_all events (messages n (rest ++ y)))
nothing_taken n x y events rest w e =
    let both = sym w ∙ e in
    let same : (rest ≡ x) × (events ≡ []) = (cc, cc) in
    rw (same.0, same.1) (omega arith, sym (prepend_all_nil _))

-- The messages of a stream are those of its first part, then those of what is left of it and the
-- second part.
pub messages-append :
    (n : ℕ) (x y : List ℕ) (events : List HandshakeEvent) (rest : List ℕ)
    → length x + length y ≤ n
    → messages n x ≡ ok (events, rest)
    → (length rest ≤ length x) × (messages n (x ++ y) ≡ prepend_all events (messages n (rest ++ y)))
messages-append zero x y events rest h e =
    nothing_taken zero x y events rest (messages_wait zero x (first_message_short x (omega arith)))
      e
messages-append (suc n) x y events rest h e = elim (first_message-cases (first_message x)) [
  | inl (failure, r) ↦ absurd (let bad = sym (messages_fail n x failure r) ∙ e in cc)
  | inr (inl r) ↦ nothing_taken (suc n) x y events rest (messages_wait (suc n) x r) e
  | inr (inr (event, len, r)) ↦
      let c = first_message-Complete x event len r in
      let (more, left, split) =
        prepend_inv event (messages n (drop len x)) events rest
          (sym (messages_next n x event len r) ∙ e) in
      let later =
        messages-append n (drop len x) y more rest
          (omega (arith, c.long, c.inside, length-drop len x)) left in
      let fits : length (rest ++ y) ≤ n =
        omega (arith, c.long, c.inside, length-append rest y, length-drop len x, later.0) in
      (
        omega (arith, later.0, length-drop len x),
        messages_next n (x ++ y) event len (first_message-append x y event len c)
            ∙ (ap (λ b. prepend event (messages n b)) (drop-append len x y c.inside)
                ∙ (ap (prepend event) later.1
                    ∙ (prepend-prepend_all event more (messages n (rest ++ y))
                        ∙ (ap (λ es. prepend_all es (messages n (rest ++ y))) (sym split)
                            ∙ ap (prepend_all events)
                                (messages_fuel n (suc n) (rest ++ y) fits (omega arith)))))),
      )
]
