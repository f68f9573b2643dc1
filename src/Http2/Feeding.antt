-- ===== src/Http2/Feeding.antt =====
-- Chunk after chunk of capture-agent/src/http2.rs.
use network_monitor.Base.{
  ℕ, ◌+◌, ◌^◌, ◌<◌, ◌≡◌, refl, sym, ap, ◌∙◌, subst, inl, inr, true, false, some, List, [], ◌∷◌,
  ◌++◌, arith, Bool-cases, length, length-append, append_assoc, append_nil, add64, string_eq,
}
use network_monitor.Base.{if_of_true, if_of_false}
use network_monitor.Http2.{
  FrameOutcome, frame, desync_fallback, need_more_data, Decoder, End, waits, fails,
  Http2Reassembler, desync, settled, is_gap, feed,
}
use network_monitor.Http2.Chunks.{add_frames, parsed, then_more, parsed-GoesOn}

-- What is told, apart from that more bytes are needed.
abbrev pub told : List FrameOutcome → List FrameOutcome
told [] = []
told (frame stream_id headers body ∷ rest) = frame stream_id headers body ∷ told rest
told (desync_fallback reason ∷ rest) = desync_fallback reason ∷ told rest
told (need_more_data ∷ rest) = told rest

told-append : (a b : List FrameOutcome) → told (a ++ b) ≡ told a ++ told b
told-append [] b = refl
told-append (frame stream_id headers body ∷ a) b =
    ap (λ l. frame stream_id headers body ∷ l) (told-append a b)
told-append (desync_fallback reason ∷ a) b = ap (λ l. desync_fallback reason ∷ l) (told-append a b)
told-append (need_more_data ∷ a) b = told-append a b

-- Frames, the marker, more frames and an end.
told_joined :
    (frames more end : List FrameOutcome)
    → told ((frames ++ more) ++ end) ≡ told (frames ++ (need_more_data ∷ [])) ++ told (more ++ end)
told_joined frames more end =
    ap told (append_assoc frames more end)
    ∙ (told-append frames (more ++ end)
        ∙ ap (λ l. l ++ told (more ++ end))
            (sym (told-append frames (need_more_data ∷ []) ∙ append_nil (told frames))))

module _ {ℓ} {State : Type ℓ} (d : Decoder State) where
  -- Two results make up one.
  abbrev pub Joins :
      Http2Reassembler State × List FrameOutcome
      → List FrameOutcome
      → Http2Reassembler State × List FrameOutcome
      → Type ℓ
  Joins one outcomes second = (one.0 ≡ second.0) × (told one.1 ≡ told outcomes ++ told second.1)

  abbrev expecting : Http2Reassembler State → ℕ → Http2Reassembler State
  expecting r seq = record r { next_expected_seq = some seq }

  feed_open :
      (r : Http2Reassembler State) (seq : ℕ) (chunk : List ℕ)
      → r.desynced ≡ false
      → is_gap d r.next_expected_seq seq ≡ false
      → feed d r seq chunk
        ≡ settled d (expecting r (add64 seq (length chunk))) (parsed d (r.buffer ++ chunk) r.hpack)
  unfolding feed
  feed_open r seq chunk s g =
      if_of_false r.desynced _ _ s ∙ if_of_false (is_gap d r.next_expected_seq seq) _ _ g

  settled-Joins :
      (r : Http2Reassembler State) (next : ℕ) (frames : List FrameOutcome) (b : List ℕ) (h : State)
      (r' : Http2Reassembler State) (more : List FrameOutcome × End State)
      → r' ≡ record r { buffer = b; hpack = h; next_expected_seq = some next }
      → Joins
          (settled d (expecting r next) (add_frames frames more))
          (frames ++ (need_more_data ∷ []))
          (settled d r' more)
  unfolding desync
  settled-Joins r next frames b h r' (more, waits b' h') e =
      rw e (refl, told_joined frames more (need_more_data ∷ []))
  settled-Joins r next frames b h r' (more, fails reason) e =
      rw e (refl, told_joined frames more (desync_fallback reason ∷ []))

  no_gap : (seq k : ℕ) → seq + k < 2 ^ 64 → is_gap d (some (add64 seq k)) (seq + k) ≡ false
  no_gap seq k h = ground arith

  -- The second chunk, when the first left the connection in order.
  then-Joins :
      (r : Http2Reassembler State) (seq : ℕ) (first second : List ℕ)
      (p : List FrameOutcome × End State)
      → r.desynced ≡ false
      → seq + length first + length second < 2 ^ 64
      → (settled d (expecting r (add64 seq (length first))) p).0.desynced ≡ false
      → Joins
          (settled d (expecting r (add64 seq (length (first ++ second)))) (then_more d second p))
          (settled d (expecting r (add64 seq (length first))) p).1
          (feed d
            (settled d (expecting r (add64 seq (length first))) p).0
            (seq + length first)
            second)
  unfolding desync
  then-Joins r seq first second (frames, waits b h) s l open_still =
      let kept : Http2Reassembler State = record r {
        buffer = b;
        hpack = h;
        next_expected_seq = some (add64 seq (length first));
      } in
      let next : add64 (seq + length first) (length second) ≡ add64 seq (length (first ++ second)) =
        omega (arith, length-append first second, l) in
      let fed =
        feed_open kept (seq + length first) second s
          (no_gap seq (length first) (omega (arith, l))) in
      subst
        (λ z.
          Joins
            (settled d (expecting r (add64 seq (length (first ++ second))))
              (add_frames frames (parsed d (b ++ second) h)))
            (frames ++ (need_more_data ∷ [])) z)
        (sym fed)
        (settled-Joins r (add64 seq (length (first ++ second))) frames b h _
          (parsed d (b ++ second) h)
          (ap (λ n. record r { buffer = b; hpack = h; next_expected_seq = some n }) next))
  then-Joins r seq first second (frames, fails reason) s l open_still = absurd (cc)

  open_before :
      (r : Http2Reassembler State) (seq : ℕ) (chunk : List ℕ)
      → (feed d r seq chunk).0.desynced ≡ false
      → (r.desynced ≡ false) × (is_gap d r.next_expected_seq seq ≡ false)
  unfolding feed desync
  open_before r seq chunk o = elim (Bool-cases r.desynced) [
    | inl c ↦
        let same =
          ap (λ (z : Http2Reassembler State × List FrameOutcome). z.0.desynced)
            (if_of_true r.desynced _ _ c) in
        absurd (let bad : true ≡ false = sym c ∙ (sym same ∙ o) in cc)
    | inr c ↦ elim (Bool-cases (is_gap d r.next_expected_seq seq)) [
      | inl g ↦
          let same =
            ap (λ (z : Http2Reassembler State × List FrameOutcome). z.0.desynced)
              (if_of_false r.desynced _ _ c
                ∙ if_of_true (is_gap d r.next_expected_seq seq) _ _ g) in
          absurd (let bad : true ≡ false = sym same ∙ o in cc)
      | inr g ↦ (c, g)
    ]
  ]

  -- How a connection's bytes are cut into chunks makes no difference. When the first chunk leaves
  -- the connection in order, feeding the next one behind it gives the same state as feeding both at
  -- once, and the same frames and the same failure or none, in order; only the marks that more
  -- bytes are needed differ. Sequence numbers stay under 2 ^ 64.
  pub feed_chunk-append :
      (r : Http2Reassembler State) (seq : ℕ) (first second : List ℕ)
      → seq + length first + length second < 2 ^ 64
      → (feed d r seq first).0.desynced ≡ false
      → Joins
          (feed d r seq (first ++ second))
          (feed d r seq first).1
          (feed d (feed d r seq first).0 (seq + length first) second)
  feed_chunk-append r seq first second l open_still =
      let (s, g) = open_before r seq first open_still in
      let x = r.buffer ++ first in
      let fed = feed_open r seq first s g in
      let both =
        feed_open r seq (first ++ second) s g
        ∙ ap (settled d (expecting r (add64 seq (length (first ++ second))))) (
            ap (λ b. parsed d b r.hpack) (sym (append_assoc r.buffer first second))
            ∙ parsed-GoesOn d (length x) x second (omega arith) r.hpack) in
      let joined = then-Joins r seq first second (parsed d x r.hpack) s l (
        sym (ap (λ (z : Http2Reassembler State × List FrameOutcome). z.0.desynced) fed)
        ∙ open_still) in
      subst
        (λ z. Joins (feed d r seq (first ++ second)) z.1 (feed d z.0 (seq + length first) second))
        (sym fed)
        (subst
          (λ one.
            Joins one (settled d (expecting r (add64 seq (length first))) (parsed d x r.hpack)).1 (
              feed d (settled d (expecting r (add64 seq (length first))) (parsed d x r.hpack)).0
                (seq + length first) second))
          (sym both) joined)
