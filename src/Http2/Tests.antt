-- ===== src/Http2/Tests.antt =====
-- Runs of capture-agent/src/http2.rs, with a decoder that takes a block for a cookie's value.
use network_monitor.Base.{
  ℕ, ◌+◌, ◌≡◌, refl, false, none, some, List, [], ◌∷◌, ◌++◌, arith, ◌==◌, if◌then◌else◌, length,
  string_eq,
}
use network_monitor.Http2.Redact.{redact_headers, is_sensitive_header_name, looks_like_bearer_token}
use network_monitor.Http2.{
  frame, desync_fallback, need_more_data, sequence_gap, Decoder, new, first_frame, parse_frames,
  feed,
}
use network_monitor.Http2.Feeding.{Joins, feed_chunk-append}
use network_monitor.Http2.Safe.{TellsNoSecret, feed-TellsNoSecret}

-- `Cookie`.
abbrev cookie : List ℕ
cookie = 67 ∷ 111 ∷ 111 ∷ 107 ∷ 105 ∷ 101 ∷ []

abbrev decoder : Decoder ℕ
decoder = record {
  fresh = 0;
  decode = λ h block. if length block == 0 then (h, none) else (h + 1, some ((cookie, block) ∷ []));
  from_utf8_lossy = λ bytes. bytes;
  trim_start = λ bytes. bytes;
}

-- A header block of one byte for stream 1, and the start of a body for stream 3.
abbrev start : List ℕ
start = 0 ∷ 0 ∷ 1 ∷ 1 ∷ 4 ∷ 0 ∷ 0 ∷ 0 ∷ 1 ∷ 130 ∷ 0 ∷ 0 ∷ 2 ∷ []

abbrev rest : List ℕ
rest = 0 ∷ 0 ∷ 0 ∷ 0 ∷ 0 ∷ 3 ∷ 72 ∷ 73 ∷ []

cookie_hidden :
    (feed decoder (new decoder) 7 start).1
    ≡ frame 1 ((cookie, 91 ∷ 82 ∷ 69 ∷ 68 ∷ 65 ∷ 67 ∷ 84 ∷ 69 ∷ 68 ∷ 93 ∷ []) ∷ []) []
      ∷ need_more_data
      ∷ []
unfolding feed new parse_frames first_frame redact_headers is_sensitive_header_name
    looks_like_bearer_token
cookie_hidden = refl

gap_noticed :
    (feed decoder (feed decoder (new decoder) 7 start).0 7 rest).1
    ≡ desync_fallback sequence_gap ∷ []
unfolding feed new parse_frames first_frame redact_headers is_sensitive_header_name
    looks_like_bearer_token
gap_noticed = refl

in_order : (feed decoder (new decoder) 7 start).0.desynced ≡ false
unfolding feed new parse_frames first_frame
in_order = refl

feed_chunk-append_example :
    Joins decoder
      (feed decoder (new decoder) 7 (start ++ rest))
      (feed decoder (new decoder) 7 start).1
      (feed decoder (feed decoder (new decoder) 7 start).0 20 rest)
feed_chunk-append_example =
    feed_chunk-append decoder (new decoder) 7 start rest (omega arith) in_order

nothing_held : length (new decoder).buffer ≡ 0
unfolding new
nothing_held = refl

empty_buffer : (new decoder).buffer ≡ []
unfolding new
empty_buffer = refl

feed-TellsNoSecret_example : TellsNoSecret decoder (feed decoder (new decoder) 7 start)
feed-TellsNoSecret_example =
    feed-TellsNoSecret decoder (new decoder) 7 start (omega (arith, nothing_held))
      (λ lost. empty_buffer)
