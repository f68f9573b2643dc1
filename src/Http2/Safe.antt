-- ===== src/Http2/Safe.antt =====
-- What capture-agent/src/http2.rs tells and holds, whatever it is fed.
use network_monitor.Base.{
  ℕ, zero, suc, ◌+◌, ◌≤◌, ◌<◌, ◌≡◌, refl, sym, ◌∙◌, subst, inl, inr, Bool, true, false, ◌||◌,
  Option, none, some, List, [], ◌∷◌, ◌++◌, arith, ltb, ◌==◌, if◌then◌else◌, Bool-cases, if_of_true,
  if_of_false, length, add64, string_eq,
}
use network_monitor.Http2.Redact.{
  Header, redact_headers, redacted, is_sensitive_header_name, looks_like_bearer_token,
}
use network_monitor.Http2.{
  max_frame_len, FrameOutcome, frame, desync_fallback, need_more_data, Next, waiting, too_long,
  complete, sized, first_frame, Decoder, End, waits, fails, Http2Reassembler, before, desync, texts,
  decoded, after_next, parse_frames, settled, is_gap, feed,
}
use network_monitor.Http2.Chunks.{IsShorter, first_frame-IsShorter}

-- A value whose name is sensitive, or that looks like a bearer token, is not shown.
abbrev pub IsRedacted : (List ℕ → List ℕ) → List Header → Type 0
IsRedacted trim_start [] = Unit
IsRedacted trim_start ((name, value) ∷ rest) =
    ((is_sensitive_header_name name || looks_like_bearer_token trim_start value) ≡ true
      → value ≡ redacted)
    × IsRedacted trim_start rest

redact_value_lem :
    (trim_start : List ℕ → List ℕ) (name value : List ℕ) (hide : Bool)
    → (is_sensitive_header_name name || looks_like_bearer_token trim_start value) ≡ hide
    → (is_sensitive_header_name name
        || looks_like_bearer_token trim_start (if hide then redacted else value))
      ≡ true
    → (if hide then redacted else value) ≡ redacted
redact_value_lem trim_start name value true e h = refl
redact_value_lem trim_start name value false e h = absurd (let bad : true ≡ false = sym h ∙ e in cc)

redact_headers-IsRedacted :
    (trim_start : List ℕ → List ℕ) (headers : List Header)
    → IsRedacted trim_start (redact_headers trim_start headers)
unfolding redact_headers
redact_headers-IsRedacted trim_start [] = tt
redact_headers-IsRedacted trim_start ((name, value) ∷ rest) =
    (redact_value_lem trim_start name value _ refl, redact_headers-IsRedacted trim_start rest)

abbrev pub AreRedacted : (List ℕ → List ℕ) → List FrameOutcome → Type 0
AreRedacted trim_start [] = Unit
AreRedacted trim_start (frame stream_id headers body ∷ rest) =
    IsRedacted trim_start headers × AreRedacted trim_start rest
AreRedacted trim_start (desync_fallback reason ∷ rest) = AreRedacted trim_start rest
AreRedacted trim_start (need_more_data ∷ rest) = AreRedacted trim_start rest

append-AreRedacted :
    (trim_start : List ℕ → List ℕ) (a b : List FrameOutcome)
    → AreRedacted trim_start a
    → AreRedacted trim_start b
    → AreRedacted trim_start (a ++ b)
append-AreRedacted trim_start [] b h k = k
append-AreRedacted trim_start (frame stream_id headers body ∷ a) b h k =
    (h.0, append-AreRedacted trim_start a b h.1 k)
append-AreRedacted trim_start (desync_fallback reason ∷ a) b h k =
    append-AreRedacted trim_start a b h k
append-AreRedacted trim_start (need_more_data ∷ a) b h k = append-AreRedacted trim_start a b h k

-- A buffer that waits is shorter than a frame's header and the longest payload.
abbrev Waiting : List ℕ → Next → Type 0
Waiting b waiting = length b < 9 + max_frame_len
Waiting b too_long = Unit
Waiting b (complete frame_type stream_id payload rest) = Unit

sized-Waiting :
    (frame_type stream_id len : ℕ) (b rest : List ℕ)
    → length b ≡ 9 + length rest
    → Waiting b (sized frame_type stream_id len rest)
sized-Waiting frame_type stream_id len b rest h = elim (Bool-cases (ltb max_frame_len len)) [
  | inl over ↦ rw over tt
  | inr fits ↦ rw fits (elim (Bool-cases (ltb (length rest) len)) [
    | inl short ↦ rw short (ground (arith, h, fits, short))
    | inr long ↦ rw long tt
  ])
]

first_frame-Waiting : (b : List ℕ) → Waiting b (first_frame b)
unfolding first_frame
first_frame-Waiting [] = omega arith
first_frame-Waiting (a ∷ []) = omega arith
first_frame-Waiting (a ∷ b ∷ []) = omega arith
first_frame-Waiting (a ∷ b ∷ c ∷ []) = omega arith
first_frame-Waiting (a ∷ b ∷ c ∷ t ∷ []) = omega arith
first_frame-Waiting (a ∷ b ∷ c ∷ t ∷ f ∷ []) = omega arith
first_frame-Waiting (a ∷ b ∷ c ∷ t ∷ f ∷ w ∷ []) = omega arith
first_frame-Waiting (a ∷ b ∷ c ∷ t ∷ f ∷ w ∷ x ∷ []) = omega arith
first_frame-Waiting (a ∷ b ∷ c ∷ t ∷ f ∷ w ∷ x ∷ y ∷ []) = omega arith
first_frame-Waiting (a ∷ b ∷ c ∷ t ∷ f ∷ w ∷ x ∷ y ∷ z ∷ rest) =
    sized-Waiting t _ _ (a ∷ b ∷ c ∷ t ∷ f ∷ w ∷ x ∷ y ∷ z ∷ rest) rest (omega arith)

module _ {ℓ} {State : Type ℓ} (d : Decoder State) where
  abbrev Ends : End State → Type 0
  Ends (waits b h) = length b < 9 + max_frame_len
  Ends (fails reason) = Unit

  abbrev IsSafe : List FrameOutcome × End State → Type 0
  IsSafe (frames, end) = AreRedacted d.trim_start frames × Ends end

  before-IsSafe :
      (stream_id : ℕ) (headers : List Header) (body : List ℕ) (r : List FrameOutcome × End State)
      → IsRedacted d.trim_start headers
      → IsSafe r
      → IsSafe (before (frame stream_id headers body) r)
  before-IsSafe stream_id headers body (frames, end) h s = ((h, s.0), s.1)

  decoded-IsSafe :
      (go : List ℕ → State → List FrameOutcome × End State) (stream_id : ℕ) (rest : List ℕ)
      (r : State × Option (List Header))
      → ((h : State) → IsSafe (go rest h))
      → IsSafe (decoded d go stream_id rest r)
  decoded-IsSafe go stream_id rest (h, none) s = (tt, tt)
  decoded-IsSafe go stream_id rest (h, some headers) s =
      before-IsSafe stream_id _ [] (go rest h)
        (redact_headers-IsRedacted d.trim_start (texts d headers)) (s h)

  after_next-IsSafe :
      (go : List ℕ → State → List FrameOutcome × End State) (b : List ℕ) (h : State) (next : Next)
      → Waiting b next
      → IsShorter b next
      → ((rest : List ℕ) (h : State) → length rest + 9 ≤ length b → IsSafe (go rest h))
      → IsSafe (after_next d go b h next)
  after_next-IsSafe go b h waiting w l s = (tt, w)
  after_next-IsSafe go b h too_long w l s = (tt, tt)
  after_next-IsSafe go b h (complete frame_type stream_id payload rest) w l s =
      elim (Bool-cases (frame_type == 1)) [
        | inl headers ↦
            rw headers (decoded-IsSafe go stream_id rest (d.decode h payload) (λ h'. s rest h' l))
        | inr no_headers ↦ rw no_headers (elim (Bool-cases (frame_type == 0)) [
          | inl body ↦ rw body (before-IsSafe stream_id [] payload (go rest h) tt (s rest h l))
          | inr another ↦ rw another (s rest h l)
        ])
      ]

  parse_frames-IsSafe :
      (n : ℕ) (b : List ℕ) (h : State) → length b ≤ n → IsSafe (parse_frames d n b h)
  unfolding parse_frames
  parse_frames-IsSafe zero b h l = (tt, omega (arith, l))
  parse_frames-IsSafe (suc n) b h l =
      after_next-IsSafe (parse_frames d n) b h (first_frame b) (first_frame-Waiting b)
        (first_frame-IsShorter b) (λ rest h' s. parse_frames-IsSafe n rest h' (omega (arith, l, s)))

  -- What is told is redacted; what is held is bounded, and nothing when the connection is lost.
  abbrev pub TellsNoSecret : Http2Reassembler State × List FrameOutcome → Type 0
  TellsNoSecret (r, outcomes) =
      AreRedacted d.trim_start outcomes
      × (length r.buffer < 9 + max_frame_len)
      × (r.desynced ≡ true → r.buffer ≡ [])

  settled-TellsNoSecret :
      (r : Http2Reassembler State) (p : List FrameOutcome × End State)
      → r.desynced ≡ false
      → IsSafe p
      → TellsNoSecret (settled d r p)
  unfolding desync
  settled-TellsNoSecret r (frames, waits b h) s p = (
    append-AreRedacted d.trim_start frames (need_more_data ∷ []) p.0 tt,
    p.1,
    λ lost. absurd (let bad : true ≡ false = sym lost ∙ s in cc),
  )
  settled-TellsNoSecret r (frames, fails reason) s p = (
    append-AreRedacted d.trim_start frames (desync_fallback reason ∷ []) p.0 tt,
    omega arith,
    λ lost. refl,
  )

  -- Whatever chunks come: every frame that is told has its sensitive headers redacted, those under
  -- a sensitive name and those whose value looks like a bearer token; less than a frame of the
  -- longest length is held afterwards, and nothing once the connection is lost, if this was so.
  pub feed-TellsNoSecret :
      (r : Http2Reassembler State) (seq : ℕ) (chunk : List ℕ)
      → length r.buffer < 9 + max_frame_len
      → (r.desynced ≡ true → r.buffer ≡ [])
      → TellsNoSecret (feed d r seq chunk)
  unfolding feed desync
  feed-TellsNoSecret r seq chunk l e = elim (Bool-cases r.desynced) [
    | inl lost ↦ subst TellsNoSecret (sym (if_of_true r.desynced _ _ lost)) (tt, l, e)
    | inr going ↦
        subst TellsNoSecret (sym (if_of_false r.desynced _ _ going))
          (elim (Bool-cases (is_gap d r.next_expected_seq seq)) [
            | inl gap ↦ rw gap (tt, omega arith, λ lost. refl)
            | inr in_order ↦ rw in_order (
                settled-TellsNoSecret
                  (record r { next_expected_seq = some (add64 seq (length chunk)) }) _ going
                  (parse_frames-IsSafe (length (r.buffer ++ chunk)) (r.buffer ++ chunk) r.hpack
                    (omega arith)))
          ])
  ]
