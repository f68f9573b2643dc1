-- ===== src/TlsStream/Tcp/Placed.antt =====
-- A segment of capture-agent/src/tls_stream.rs once it is placed at or behind the consumed edge.
use network_monitor.Base.{
  ℕ, ◌+◌, ◌-◌, ◌%◌, ◌≤◌, ◌<◌, ◌≡◌, refl, sym, ap, ◌∙◌, subst, ◌⊎◌, inl, inr, true, List, [], arith,
  ◌==◌, lt→ltb, le→ltb, ==_iff, Bool-cases, length, get_or-drop, get_or, take, drop, length-take,
  length-drop, get_or_beyond, get_or-take, get_or_ext, u32_mod, u64_max, wrapping_add32, string_eq,
}
use native.Mathlib.Decide.{dec_lt}
use network_monitor.Base.Results.{Result, ok}
use network_monitor.TlsStream.Tcp.{
  TlsTcpStream, TlsStreamError, tls_reorder_window_bytes, write_slots, count_present, grow_to,
  take_contiguous, feed_at,
}
use network_monitor.TlsStream.Tcp.Lossless.{
  LosesNothing, written_LosesNothing, delivered_LosesNothing,
}
use network_monitor.TlsStream.Tcp.Follows.{
  Follows, IsSlice, shift-IsSlice, write_slots-Follows, grow_to-Follows, get_or-count_present,
  drained, drained-Follows, taken,
}

-- What leaves is the next stretch of `orig`, and nothing that could leave stays.
pub take_contiguous-Follows :
    (orig : List ℕ) (isn k : ℕ) (s : TlsTcpStream)
    → Follows orig isn k s
    → let (s', out) = take_contiguous s in
      (out ≡ take (length out) (drop k orig))
      × Follows orig isn (k + length out) s'
      × (get_or s'.present 0 0 ≡ 0)
      × (length out ≡ count_present s.present)
unfolding take_contiguous
take_contiguous-Follows orig isn k s v =
    let c = count_present s.present in
    let t = taken orig isn k c s v (omega arith) in
    elim (Bool-cases (c == 0)) [
      | inl e ↦
          let zero_run : c ≡ 0 = ground arith in
          let same : k ≡ k + 0 = omega arith in
          rw e (
            refl,
            subst (λ n. Follows orig isn n s) same v,
            rw zero_run at (get_or-count_present s.present),
            sym zero_run,
          )
      | inr e ↦ rw e (
        t.1 ∙ ap (λ n. take n (drop k orig)) (sym t.0),
        subst (λ n. Follows orig isn (k + n) (drained s c)) (sym t.0)
            (drained-Follows orig isn k c s v (omega arith)),
        get_or-drop c s.present 0 0
            ∙ (ap (λ n. get_or s.present n 0) (omega arith) ∙ get_or-count_present s.present),
        t.0,
      )
    ]

-- What is given when all is well: the next bytes of `orig`, and a stream that goes on behind them
-- and holds back nothing that could leave; and of the `n` bytes from index `p` on, as of what was
-- held, nothing is lost.
abbrev pub Delivers :
    List ℕ → ℕ → ℕ → ℕ → ℕ → TlsTcpStream → TlsTcpStream × Result TlsStreamError (List ℕ) → Type 0
Delivers orig isn k p n s (s', r) =
    (out : List ℕ) × (r ≡ ok out)
    × (out ≡ take (length out) (drop k orig))
    × Follows orig isn (k + length out) s'
    × (get_or s'.present 0 0 ≡ 0)
    × LosesNothing k p n (k + length out) s s'

-- `feed` at an offset into what `orig` still has.
pub feed_at-Delivers :
    (orig : List ℕ) (isn k offset : ℕ) (s : TlsTcpStream) (payload : List ℕ)
    → Follows orig isn k s
    → IsSlice orig (k + offset) payload
    → offset + length payload ≤ tls_reorder_window_bytes
    → Delivers orig isn k (k + offset) (length payload) s (feed_at s offset payload)
unfolding feed_at
feed_at-Delivers orig isn k offset s payload v w h =
    let g = grow_to-Follows orig isn k (offset + length payload) s v in
    let u =
      write_slots-Follows orig isn k offset payload (grow_to (offset + length payload) s) g.0 g.1
        w in
    let t = take_contiguous-Follows orig isn k _ u.1 in
    let end = offset + length payload in
    let kept =
      delivered_LosesNothing k (k + offset) (length payload) s
        (write_slots offset payload (grow_to end s)).0 (omega arith) t.3
        (written_LosesNothing k offset end s payload v.paired u.0
          (omega (arith, g.0.paired, g.1))) in
    rw
      (
        le→ltb u64_max (offset + length payload) (omega arith),
        le→ltb tls_reorder_window_bytes (offset + length payload) h,
        u.0,
      )
      (
        (take_contiguous (write_slots offset payload (grow_to (offset + length payload) s)).0).1,
        refl,
        t.0,
        t.1,
        t.2,
        kept,
      )

-- What a slice has behind its first `n` bytes.
pub drop-IsSlice :
    (orig : List ℕ) (p n : ℕ) (payload : List ℕ)
    → IsSlice orig p payload
    → n ≤ length payload
    → IsSlice orig (p + n) (drop n payload)
drop-IsSlice orig p n payload w h = record {
  inside = omega (arith, w.inside, length-drop n payload);
  bytes = λ i hi.
      get_or-drop n payload i 0
      ∙ (w.bytes (n + i) (omega (arith, length-drop n payload))
          ∙ ap (λ m. get_or orig m 0) (omega arith));
}

stretch_is :
    (orig : List ℕ) (k : ℕ) (payload : List ℕ)
    → IsSlice orig k payload
    → payload ≡ take (length payload) (drop k orig)
stretch_is orig k payload w =
    get_or_ext _ _ 0
      (omega (arith, w.inside, length-take (length payload) (drop k orig), length-drop k orig))
      (λ i hi.
        w.bytes i hi
        ∙ sym (get_or-take (length payload) (drop k orig) i 0 hi ∙ get_or-drop k orig i 0))

-- A stream that holds nothing back.
idle-Follows :
    (orig : List ℕ) (isn k m : ℕ) (s : TlsTcpStream)
    → Follows orig isn k s
    → s.bytes ≡ []
    → k + m ≤ length orig
    → Follows orig isn (k + m) (record s { next_seq = wrapping_add32 s.next_seq (m % u32_mod) })
      × (get_or s.present 0 0 ≡ 0)
idle-Follows orig isn k m s v e h =
    let none_present : length s.present ≡ 0 = sym v.paired ∙ ap length e in
    let off : (i : ℕ) → get_or s.present i 0 ≡ 0 = λ i. get_or_beyond s.present i 0 (omega arith) in
    (
      record {
        numbered = omega (arith, v.numbered);
        consumed = h;
        paired = v.paired;
        inside = λ i p. absurd (p (off i));
        same = λ i p. absurd (p (off i));
      },
      off 0,
    )

-- A large segment that starts at the consumed edge passes through an empty stream.
feed_at-passes :
    (orig : List ℕ) (isn k : ℕ) (s : TlsTcpStream) (payload : List ℕ)
    → Follows orig isn k s
    → s.bytes ≡ []
    → IsSlice orig k payload
    → length orig ≤ u64_max
    → tls_reorder_window_bytes < length payload
    → Delivers orig isn k k (length payload) s (feed_at s 0 payload)
unfolding feed_at
feed_at-passes orig isn k s payload v e w fits h =
    let t = idle-Follows orig isn k (length payload) s v e w.inside in
    let idle : (length s.bytes == 0) ≡ true = (==_iff _ _).1 (ap length e) in
    rw
      (
        le→ltb u64_max (0 + length payload) (omega (arith, w.inside)),
        lt→ltb tls_reorder_window_bytes (0 + length payload) (omega arith),
        idle,
      )
      (
        payload,
        refl,
        stretch_is orig k payload w,
        t.0,
        t.1,
        record {
          taken_in = λ j lo hi. inl hi;
          kept = λ j lo held.
              absurd
                (held (get_or_beyond s.present (j - k) 0 (omega (arith, v.paired, ap length e))));
        },
      )

must_be_empty :
    (s : TlsTcpStream) (payload : List ℕ)
    → (length payload ≤ tls_reorder_window_bytes) ⊎ (s.bytes ≡ [])
    → tls_reorder_window_bytes < length payload
    → s.bytes ≡ []
must_be_empty s payload (inl h) large = absurd (omega arith)
must_be_empty s payload (inr e) large = e

-- From the consumed edge on.
pub feed_at-edge :
    (orig : List ℕ) (isn k : ℕ) (s : TlsTcpStream) (payload : List ℕ)
    → Follows orig isn k s
    → IsSlice orig k payload
    → length orig ≤ u64_max
    → (length payload ≤ tls_reorder_window_bytes) ⊎ (s.bytes ≡ [])
    → Delivers orig isn k k (length payload) s (feed_at s 0 payload)
feed_at-edge orig isn k s payload v w fits r =
    elim (dec_lt tls_reorder_window_bytes (length payload)) [
      | yes h ↦ feed_at-passes orig isn k s payload v (must_be_empty s payload r h) w fits h
      | no h ↦
          subst (λ m. Delivers orig isn k m (length payload) s (feed_at s 0 payload)) (omega arith)
            (feed_at-Delivers orig isn k 0 s payload v
              (shift-IsSlice orig k (k + 0) payload (omega arith) w) (omega arith))
    ]
