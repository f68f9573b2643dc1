-- ===== src/Handshake/Tests.antt =====
-- Runs of capture-agent/src/tls_handshake.rs.
use network_monitor.Base.{ℕ, ◌≡◌, refl, true, List, [], ◌∷◌, ◌++◌, arith, string_eq}
use network_monitor.Base.Results.{ok, err}
use network_monitor.Handshake.Hello.{finished, key_update, malformed_message}
use network_monitor.Handshake.{
  TlsHandshakeParser, new, feed, settle, messages, first_message, parse_message, parse_key_update,
}
use network_monitor.Handshake.Chunks.{after, feed-append, Waits, feed-Waits}

-- A `Finished`, and the header of a `KeyUpdate`.
abbrev first_part : List ℕ
first_part = 20 ∷ 0 ∷ 0 ∷ 2 ∷ 7 ∷ 8 ∷ 24 ∷ 0 ∷ []

abbrev second_part : List ℕ
second_part = 0 ∷ 1 ∷ 1 ∷ []

abbrev part_held : TlsHandshakeParser
part_held = record { buffer = 24 ∷ 0 ∷ [] }

feed-first_part : feed new first_part ≡ (part_held, ok (finished ∷ []))
unfolding feed new settle messages first_message parse_message
feed-first_part = refl

feed-second_part : feed part_held second_part ≡ (new, ok (key_update true ∷ []))
unfolding feed new settle messages first_message parse_message parse_key_update
feed-second_part = refl

feed_bad_update : (feed new (24 ∷ 0 ∷ 0 ∷ 1 ∷ 2 ∷ [])) ≡ (new, err malformed_message)
unfolding feed new settle messages first_message parse_message parse_key_update
feed_bad_update = refl

feed-append_example :
    feed new (first_part ++ second_part) ≡ after (finished ∷ []) (feed part_held second_part)
unfolding new
feed-append_example =
    feed-append new part_held first_part second_part (finished ∷ []) (omega arith) feed-first_part

feed-Waits_example : Waits (feed part_held second_part)
feed-Waits_example = feed-Waits part_held second_part
