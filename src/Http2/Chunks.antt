-- ===== src/Http2/Chunks.antt =====
-- Feeding a stream in pieces: how capture-agent/src/http2.rs is given it makes no difference.
use network_monitor.Base.{
  ℕ, zero, suc, ◌+◌, ◌≤◌, ◌≡◌, refl, sym, ap, ◌∙◌, inl, inr, Option, none, some, List, [], ◌∷◌,
  ◌++◌, arith, ltb, ◌==◌, le→ltb, Bool-cases, length, length-append, length-drop, drop-append,
  take-append, string_eq,
}
use network_monitor.Http2.Redact.{Header, redact_headers}
use network_monitor.Http2.{
  max_frame_len, FrameOutcome, frame, Next, waiting, too_long, complete, sized, first_frame,
  Decoder, End, waits, fails, before, texts, decoded, take_frame, after_next, parse_frames,
}

-- A frame leaves at least nine bytes less.
abbrev pub IsShorter : List ℕ → Next → Type 0
IsShorter b waiting = Unit
IsShorter b too_long = Unit
IsShorter b (complete frame_type stream_id payload rest) = length rest + 9 ≤ length b

sized-IsShorter :
    (frame_type stream_id len : ℕ) (b rest : List ℕ)
    → length rest + 9 ≤ length b
    → IsShorter b (sized frame_type stream_id len rest)
sized-IsShorter frame_type stream_id len b rest h = elim (Bool-cases (ltb max_frame_len len)) [
  | inl over ↦ rw over tt
  | inr fits ↦ rw fits (elim (Bool-cases (ltb (length rest) len)) [
    | inl short ↦ rw short tt
    | inr long ↦ rw long (omega (arith, h, length-drop len rest))
  ])
]

pub first_frame-IsShorter : (b : List ℕ) → IsShorter b (first_frame b)
unfolding first_frame
first_frame-IsShorter [] = tt
first_frame-IsShorter (a ∷ []) = tt
first_frame-IsShorter (a ∷ b ∷ []) = tt
first_frame-IsShorter (a ∷ b ∷ c ∷ []) = tt
first_frame-IsShorter (a ∷ b ∷ c ∷ t ∷ []) = tt
first_frame-IsShorter (a ∷ b ∷ c ∷ t ∷ f ∷ []) = tt
first_frame-IsShorter (a ∷ b ∷ c ∷ t ∷ f ∷ w ∷ []) = tt
first_frame-IsShorter (a ∷ b ∷ c ∷ t ∷ f ∷ w ∷ x ∷ []) = tt
first_frame-IsShorter (a ∷ b ∷ c ∷ t ∷ f ∷ w ∷ x ∷ y ∷ []) = tt
first_frame-IsShorter (a ∷ b ∷ c ∷ t ∷ f ∷ w ∷ x ∷ y ∷ z ∷ rest) =
    sized-IsShorter t _ _ (a ∷ b ∷ c ∷ t ∷ f ∷ w ∷ x ∷ y ∷ z ∷ rest) rest (omega arith)

-- What is decided at the front stays when more bytes come.
abbrev pub Stays : List ℕ → Next → Next → Type 0
Stays more waiting later = Unit
Stays more too_long later = later ≡ too_long
Stays more (complete frame_type stream_id payload rest) later =
    later ≡ complete frame_type stream_id payload (rest ++ more)

sized-Stays :
    (frame_type stream_id len : ℕ) (rest more : List ℕ)
    → Stays more
        (sized frame_type stream_id len rest)
        (sized frame_type stream_id len (rest ++ more))
sized-Stays frame_type stream_id len rest more = elim (Bool-cases (ltb max_frame_len len)) [
  | inl over ↦ rw over refl
  | inr fits ↦ rw fits (elim (Bool-cases (ltb (length rest) len)) [
    | inl short ↦ rw short tt
    | inr long ↦
        let inside : len ≤ length rest = ground arith in
        let later =
          le→ltb (length (rest ++ more)) len (omega (arith, inside, length-append rest more)) in
        rw (long, later, take-append len rest more inside, drop-append len rest more inside) refl
  ])
]

pub first_frame-Stays : (b more : List ℕ) → Stays more (first_frame b) (first_frame (b ++ more))
unfolding first_frame
first_frame-Stays [] more = tt
first_frame-Stays (a ∷ []) more = tt
first_frame-Stays (a ∷ b ∷ []) more = tt
first_frame-Stays (a ∷ b ∷ c ∷ []) more = tt
first_frame-Stays (a ∷ b ∷ c ∷ t ∷ []) more = tt
first_frame-Stays (a ∷ b ∷ c ∷ t ∷ f ∷ []) more = tt
first_frame-Stays (a ∷ b ∷ c ∷ t ∷ f ∷ w ∷ []) more = tt
first_frame-Stays (a ∷ b ∷ c ∷ t ∷ f ∷ w ∷ x ∷ []) more = tt
first_frame-Stays (a ∷ b ∷ c ∷ t ∷ f ∷ w ∷ x ∷ y ∷ []) more = tt
first_frame-Stays (a ∷ b ∷ c ∷ t ∷ f ∷ w ∷ x ∷ y ∷ z ∷ rest) more = sized-Stays t _ _ rest more

-- Frames put in front.
abbrev pub add_frames {ℓ} :
    {State : Type ℓ}
    → List FrameOutcome
    → List FrameOutcome × End State
    → List FrameOutcome × End State
add_frames frames (more, end) = (frames ++ more, end)

module _ {ℓ} {State : Type ℓ} (d : Decoder State) where
  abbrev Going : Type ℓ
  Going = List ℕ → State → List FrameOutcome × End State

  decoded_agree :
      (go go' : Going) (stream_id : ℕ) (rest : List ℕ) (r : State × Option (List Header))
      → ((h : State) → go rest h ≡ go' rest h)
      → decoded d go stream_id rest r ≡ decoded d go' stream_id rest r
  decoded_agree go go' stream_id rest (h, none) same = refl
  decoded_agree go go' stream_id rest (h, some headers) same =
      ap (before (frame stream_id (redact_headers d.trim_start (texts d headers)) [])) (same h)

  -- Two ways to go on that agree on shorter buffers agree behind a frame.
  after_next_agree :
      (go go' : Going) (b : List ℕ) (h : State) (next : Next)
      → IsShorter b next
      → ((rest : List ℕ) (h : State) → length rest + 9 ≤ length b → go rest h ≡ go' rest h)
      → after_next d go b h next ≡ after_next d go' b h next
  after_next_agree go go' b h waiting l same = refl
  after_next_agree go go' b h too_long l same = refl
  after_next_agree go go' b h (complete frame_type stream_id payload rest) l same =
      elim (Bool-cases (frame_type == 1)) [
        | inl headers ↦
            rw headers
              (decoded_agree go go' stream_id rest (d.decode h payload) (λ h'. same rest h' l))
        | inr no_headers ↦ rw no_headers (elim (Bool-cases (frame_type == 0)) [
          | inl body ↦ rw body (ap (before (frame stream_id [] payload)) (same rest h l))
          | inr another ↦ rw another (same rest h l)
        ])
      ]

  parse_frames_fuel :
      (n m : ℕ) (b : List ℕ) (h : State)
      → length b ≤ n
      → length b ≤ m
      → parse_frames d n b h ≡ parse_frames d m b h
  unfolding parse_frames first_frame
  parse_frames_fuel zero zero b h l k = refl
  parse_frames_fuel zero (suc m) [] h l k = refl
  parse_frames_fuel zero (suc m) (c ∷ b) h l k = absurd (omega arith)
  parse_frames_fuel (suc n) zero [] h l k = refl
  parse_frames_fuel (suc n) zero (c ∷ b) h l k = absurd (omega arith)
  parse_frames_fuel (suc n) (suc m) b h l k =
      after_next_agree (parse_frames d n) (parse_frames d m) b h (first_frame b)
        (first_frame-IsShorter b)
        (λ rest h' s. parse_frames_fuel n m rest h' (omega (arith, l, s)) (omega (arith, k, s)))

  -- All frames of a buffer.
  abbrev pub parsed : List ℕ → State → List FrameOutcome × End State
  parsed b h = parse_frames d (length b) b h

  parsed_next : (b : List ℕ) (h : State) → parsed b h ≡ after_next d parsed b h (first_frame b)
  unfolding parse_frames
  parsed_next b h =
      parse_frames_fuel (length b) (suc (length b)) b h (omega arith) (omega arith)
      ∙ after_next_agree (parse_frames d (length b)) parsed b h (first_frame b)
          (first_frame-IsShorter b)
          (λ rest h' s.
            parse_frames_fuel (length b) (length rest) rest h' (omega (arith, s)) (omega arith))

  -- Parsing goes on where it waited.
  abbrev pub then_more : List ℕ → List FrameOutcome × End State → List FrameOutcome × End State
  then_more more (frames, waits b h) = add_frames frames (parsed (b ++ more) h)
  then_more more (frames, fails reason) = (frames, fails reason)

  then_more-before :
      (more : List ℕ) (f : FrameOutcome) (r : List FrameOutcome × End State)
      → before f (then_more more r) ≡ then_more more (before f r)
  then_more-before more f (frames, waits b h) = refl
  then_more-before more f (frames, fails reason) = refl

  -- The rest of the loop takes more bytes as they come.
  abbrev pub GoesOn : List ℕ → List ℕ → Type ℓ
  GoesOn rest more = (h : State) → parsed (rest ++ more) h ≡ then_more more (parsed rest h)

  decoded-GoesOn :
      (stream_id : ℕ) (rest more : List ℕ) (r : State × Option (List Header))
      → GoesOn rest more
      → decoded d parsed stream_id (rest ++ more) r
        ≡ then_more more (decoded d parsed stream_id rest r)
  decoded-GoesOn stream_id rest more (h, none) g = refl
  decoded-GoesOn stream_id rest more (h, some headers) g =
      let f = frame stream_id (redact_headers d.trim_start (texts d headers)) [] in
      ap (before f) (g h) ∙ then_more-before more f (parsed rest h)

  take_frame-GoesOn :
      (frame_type stream_id : ℕ) (payload rest more : List ℕ) (h : State)
      → GoesOn rest more
      → take_frame d parsed frame_type stream_id payload (rest ++ more) h
        ≡ then_more more (take_frame d parsed frame_type stream_id payload rest h)
  take_frame-GoesOn frame_type stream_id payload rest more h g =
      elim (Bool-cases (frame_type == 1)) [
        | inl headers ↦ rw headers (decoded-GoesOn stream_id rest more (d.decode h payload) g)
        | inr no_headers ↦ rw no_headers (elim (Bool-cases (frame_type == 0)) [
          | inl body ↦ rw body (
              ap (before (frame stream_id [] payload)) (g h)
              ∙ then_more-before more (frame stream_id [] payload) (parsed rest h))
          | inr another ↦ rw another (g h)
        ])
      ]

  next-GoesOn :
      (b more : List ℕ) (h : State) (next later : Next)
      → IsShorter b next
      → Stays more next later
      → first_frame (b ++ more) ≡ later
      → ((rest : List ℕ) → length rest + 9 ≤ length b → GoesOn rest more)
      → parsed (b ++ more) h ≡ then_more more (after_next d parsed b h next)
  next-GoesOn b more h waiting later l s e g = refl
  next-GoesOn b more h too_long later l s e g =
      parsed_next (b ++ more) h ∙ ap (after_next d parsed (b ++ more) h) (e ∙ s)
  next-GoesOn b more h (complete frame_type stream_id payload rest) later l s e g =
      parsed_next (b ++ more) h
      ∙ (ap (after_next d parsed (b ++ more) h) (e ∙ s)
          ∙ take_frame-GoesOn frame_type stream_id payload rest more h (g rest l))

  pub parsed-GoesOn : (k : ℕ) (b more : List ℕ) → length b ≤ k → GoesOn b more
  parsed-GoesOn zero b more l h =
      next-GoesOn b more h (first_frame b) (first_frame (b ++ more)) (first_frame-IsShorter b)
        (first_frame-Stays b more) refl (λ rest s. absurd (omega (arith, l, s)))
      ∙ ap (then_more more) (sym (parsed_next b h))
  parsed-GoesOn (suc k) b more l h =
      next-GoesOn b more h (first_frame b) (first_frame (b ++ more)) (first_frame-IsShorter b)
        (first_frame-Stays b more) refl (λ rest s. parsed-GoesOn k rest more (omega (arith, l, s)))
      ∙ ap (then_more more) (sym (parsed_next b h))
