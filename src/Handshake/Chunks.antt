-- ===== src/Handshake/Chunks.antt =====
-- Feeding a stream in pieces: how capture-agent/src/tls_handshake.rs is given it makes no difference.
use network_monitor.Base.{
  ℕ, zero, suc, ◌+◌, ◌≤◌, ◌≡◌, refl, sym, ap, ◌∙◌, inl, inr, none, List, [], ◌++◌, arith, ltb,
  le→ltb, Bool-cases, length, drop, length-append, length-drop, append_assoc, saturating_add,
  string_eq,
}
use network_monitor.Base.Results.{Result, ok, err}
use network_monitor.Handshake.Hello.{HandshakeEvent, HandshakeParseError}
use network_monitor.Handshake.{
  TlsHandshakeParser, max_handshake_buffer, first_message, prepend, messages, settle, feed,
}
use network_monitor.Handshake.Messages.{
  first_message-Complete, first_message_short, first_message-cases, messages_wait, messages_next,
  messages_fail, messages_fuel, prepend_all, prepend_inv, messages-append,
}

-- A result with events before its own.
abbrev pub after :
    List HandshakeEvent
    → TlsHandshakeParser × Result HandshakeParseError (List HandshakeEvent)
    → TlsHandshakeParser × Result HandshakeParseError (List HandshakeEvent)
after events (p, ok more) = (p, ok (events ++ more))
after events (p, err e) = (p, err e)

settle-prepend_all :
    (events : List HandshakeEvent) (r : Result HandshakeParseError (List HandshakeEvent × List ℕ))
    → settle (prepend_all events r) ≡ after events (settle r)
unfolding settle
settle-prepend_all events (ok (more, rest)) = refl
settle-prepend_all events (err e) = refl

settle_inv :
    (r : Result HandshakeParseError (List HandshakeEvent × List ℕ)) (q : TlsHandshakeParser)
    (events : List HandshakeEvent)
    → settle r ≡ (q, ok events)
    → r ≡ ok (events, q.buffer)
unfolding settle
settle_inv (ok (more, rest)) q events h = cc
settle_inv (err e) q events h = absurd (cc)

feed_within :
    (p : TlsHandshakeParser) (bytes : List ℕ)
    → length p.buffer + length bytes ≤ max_handshake_buffer
    → feed p bytes ≡ settle (messages (length (p.buffer ++ bytes)) (p.buffer ++ bytes))
unfolding feed
feed_within p bytes h =
    rw
      (le→ltb max_handshake_buffer (saturating_add (length p.buffer) (length bytes))
        (omega (arith, h)))
      refl

-- While the parser's buffer and the bytes still to come fit in 64 KiB, a parser that took the first
-- part without an error goes on with the second as if both had come together. If the second part
-- fails, so does feeding both at once, with the same error, the same parser after it and no events
-- at all, although the two calls had already given the events of the first part. If it does not
-- fail, the events of the two calls, one after the other, are those of the one call, and the
-- parsers after them are the same.
pub feed-append :
    (p q : TlsHandshakeParser) (first second : List ℕ) (events : List HandshakeEvent)
    → length p.buffer + length first + length second ≤ max_handshake_buffer
    → feed p first ≡ (q, ok events)
    → feed p (first ++ second) ≡ after events (feed q second)
feed-append p q first second events h e =
    let x = p.buffer ++ first in
    let len_x = length-append p.buffer first in
    let len_xy = length-append x second in
    let m =
      settle_inv (messages (length x) x) q events (sym (feed_within p first (omega arith)) ∙ e) in
    let m' = messages_fuel (length (x ++ second)) (length x) x (omega arith) (omega arith) ∙ m in
    let both = messages-append (length (x ++ second)) x second events q.buffer (omega arith) m' in
    let len_q = length-append q.buffer second in
    feed_within p (first ++ second) (omega (arith, length-append first second))
    ∙ (ap (λ b. settle (messages (length b) b)) (sym (append_assoc p.buffer first second))
        ∙ (ap settle (
              both.1
              ∙ ap (prepend_all events) (
                  messages_fuel _ (length (q.buffer ++ second)) (q.buffer ++ second)
                    (omega (arith, both.0)) (omega arith)))
            ∙ (settle-prepend_all events
                  (messages (length (q.buffer ++ second)) (q.buffer ++ second))
                ∙ ap (after events) (sym (feed_within q second (omega (arith, both.0)))))))

prepend-rest :
    (event : HandshakeEvent) (r : Result HandshakeParseError (List HandshakeEvent × List ℕ))
    (events : List HandshakeEvent) (rest : List ℕ)
    → prepend event r ≡ ok (events, rest)
    → (more : List HandshakeEvent) × (r ≡ ok (more, rest))
prepend-rest event r events rest h =
    let (more, left, split) = prepend_inv event r events rest h in (more, left)

-- What is left holds no complete message.
messages_exhaust :
    (n : ℕ) (x : List ℕ) (events : List HandshakeEvent) (rest : List ℕ)
    → length x ≤ n
    → messages n x ≡ ok (events, rest)
    → (length rest ≤ length x) × (first_message rest ≡ ok none)
messages_exhaust zero x events rest h e =
    let r = first_message_short x (omega arith) in
    let both = sym (messages_wait zero x r) ∙ e in
    let same : rest ≡ x = cc in rw same (omega arith, r)
messages_exhaust (suc n) x events rest h e = elim (first_message-cases (first_message x)) [
  | inl (failure, r) ↦ absurd (let bad = sym (messages_fail n x failure r) ∙ e in cc)
  | inr (inl r) ↦
      let both = sym (messages_wait (suc n) x r) ∙ e in
      let same : rest ≡ x = cc in rw same (omega arith, r)
  | inr (inr (event, len, r)) ↦
      let c = first_message-Complete x event len r in
      let (more, left) =
        prepend-rest event (messages n (drop len x)) events rest
          (sym (messages_next n x event len r) ∙ e) in
      let later =
        messages_exhaust n (drop len x) more rest
          (omega (arith, c.long, c.inside, length-drop len x)) left in
      (omega (arith, later.0, length-drop len x), later.1)
]

-- At most 64 KiB are held, with no complete message among them, and nothing after an error.
abbrev pub Waits : TlsHandshakeParser × Result HandshakeParseError (List HandshakeEvent) → Type 0
Waits (q, r) =
    (length q.buffer ≤ max_handshake_buffer)
    × (first_message q.buffer ≡ ok none)
    × ((e : HandshakeParseError) → r ≡ err e → q.buffer ≡ [])

settle-Waits :
    (r : Result HandshakeParseError (List HandshakeEvent × List ℕ))
    → ((events : List HandshakeEvent) (rest : List ℕ)
        → r ≡ ok (events, rest)
        → (length rest ≤ max_handshake_buffer) × (first_message rest ≡ ok none))
    → Waits (settle r)
unfolding settle
settle-Waits (ok (events, rest)) h = let t = h events rest refl in (t.0, t.1, λ e bad. absurd (cc))
settle-Waits (err e) h = (omega arith, first_message_short [] (omega arith), λ e' same. refl)

-- However large the input and whatever the parser held, a call ends with at most 64 KiB held, and
-- with no complete message among them; after an error nothing is held.
pub feed-Waits : (p : TlsHandshakeParser) (bytes : List ℕ) → Waits (feed p bytes)
unfolding feed
feed-Waits p bytes =
    let x = p.buffer ++ bytes in
    elim (Bool-cases (ltb max_handshake_buffer (saturating_add (length p.buffer) (length bytes)))) [
      | inl over ↦ rw over (omega arith, first_message_short [] (omega arith), λ e same. refl)
      | inr room ↦ rw room (
          settle-Waits (messages (length x) x) (λ events rest e.
            let t = messages_exhaust (length x) x events rest (omega arith) e in
            (ground (arith, t.0, length-append p.buffer bytes), t.1)))
    ]
