-- ===== src/TlsStream/Tcp/Delivery.antt =====
-- The bytes that capture-agent/src/tls_stream.rs delivers are the stream's own, in order.
use network_monitor.Base.{
  ℕ, ◌+◌, ◌-◌, ◌%◌, ◌^◌, ◌≤◌, ◌<◌, ◌≡◌, refl, sym, ◌∙◌, subst, ◌⊎◌, inl, inr, true, false, List, [],
  ◌∷◌, arith, leb, le→leb, Bool-cases, length, get_or-drop, get_or, take, drop, length-take,
  length-drop, get_or-take, u32_mod, u64_max, wrapping_sub32, string_eq,
}
use native.Mathlib.Decide.{dec_lt}
use network_monitor.Base.Results.{Result, ok}
use network_monitor.TlsStream.Tcp.{
  TlsTcpStream, TlsStreamError, tls_reorder_window_bytes, feed_at, feed, new,
}
use network_monitor.TlsStream.Tcp.Lossless.{LosesNothing}
use network_monitor.TlsStream.Tcp.Follows.{Follows, IsSlice, shift-IsSlice}
use network_monitor.TlsStream.Tcp.Placed.{Delivers, feed_at-Delivers, feed_at-edge, drop-IsSlice}

-- A segment that starts before the edge, from what its part behind the edge gives.
widen :
    (orig : List ℕ) (isn k p m n : ℕ) (s : TlsTcpStream)
    (r : TlsTcpStream × Result TlsStreamError (List ℕ))
    → p ≤ k
    → p + m ≡ k + n
    → Delivers orig isn k k n s r
    → Delivers orig isn k p m s r
widen orig isn k p m n s (s', r) h e (out, is, next, follows, edge, v) = (
  out,
  is,
  next,
  follows,
  edge,
  record {
    taken_in = λ j lo hi. elim (dec_lt j k) [
      | yes before ↦ inl (omega arith)
      | no behind ↦ v.taken_in j (omega arith) (omega arith)
    ];
    kept = v.kept;
  },
)

before : {k p n : ℕ} → (p + n ≤ k) ⊎ (n ≡ 0) → (j : ℕ) → p ≤ j → j < p + n → j < k
before (inl h) j lo hi = omega arith
before (inr h) j lo hi = absurd (omega arith)

-- Nothing new: what was held is still held.
unchanged-Delivers :
    (orig : List ℕ) (isn k p n : ℕ) (s : TlsTcpStream)
    → Follows orig isn k s
    → get_or s.present 0 0 ≡ 0
    → (p + n ≤ k) ⊎ (n ≡ 0)
    → Delivers orig isn k p n s (s, ok [])
unchanged-Delivers orig isn k p n s v z old =
    let same : k ≡ k + 0 = omega arith in
    (
      [],
      refl,
      refl,
      subst (λ m. Follows orig isn m s) same v,
      z,
      subst (λ e. LosesNothing k p n e s s) same
          (record { taken_in = λ j lo hi. inl (before old j lo hi); kept = λ j lo h. inr h }),
    )

narrow :
    (s : TlsTcpStream) (m n k p : ℕ)
    → (p + m ≤ k + tls_reorder_window_bytes) ⊎ ((p ≤ k) × (s.bytes ≡ []))
    → p + m ≡ k + n
    → (n ≤ tls_reorder_window_bytes) ⊎ (s.bytes ≡ [])
narrow s m n k p (inl h) e = inl (omega arith)
narrow s m n k p (inr h) e = inr h.1

large_only :
    (s : TlsTcpStream) (m k p : ℕ)
    → (p + m ≤ k + tls_reorder_window_bytes) ⊎ ((p ≤ k) × (s.bytes ≡ []))
    → k + tls_reorder_window_bytes < p + m
    → (p ≤ k) × (s.bytes ≡ [])
large_only s m k p (inl h) l = absurd (omega arith)
large_only s m k p (inr h) l = h

-- However segments are cut, repeated, overlapped or reordered: if the stream has consumed `k` bytes
-- of `orig`, whose length is a `usize`, and its next byte is not yet there, a segment that is a
-- slice of `orig`, numbered as such, starts at most 2 ^ 31 bytes back and either ends within the
-- reorder window or meets an empty stream no later than its edge, is accepted, and delivers exactly
-- the next bytes of `orig`; what is left follows `orig` still, and its next byte is not yet there.
-- Nothing is lost: every byte of the segment was delivered, now or before, or is held, and so is
-- every byte that was held.
pub feed-Delivers :
    (orig : List ℕ) (isn k p : ℕ) (s : TlsTcpStream) (seq : ℕ) (payload : List ℕ)
    → Follows orig isn k s
    → get_or s.present 0 0 ≡ 0
    → IsSlice orig p payload
    → seq ≡ (isn + p) % u32_mod
    → k ≤ p + 2 ^ 31
    → length orig ≤ u64_max
    → (p + length payload ≤ k + tls_reorder_window_bytes) ⊎ ((p ≤ k) × (s.bytes ≡ []))
    → Delivers orig isn k p (length payload) s (feed s seq payload)
unfolding feed
feed-Delivers orig isn k p s seq [] v z w n b fits r =
    unchanged-Delivers orig isn k p 0 s v z (inr refl)
feed-Delivers orig isn k p s seq (c ∷ cs) v z w n b fits r =
    let payload : List ℕ = c ∷ cs in
    elim (dec_lt p k) [
      | yes before ↦
          let back : wrapping_sub32 seq s.next_seq ≡ u32_mod - (k - p) =
            omega (arith, v.numbered) in
          let negative : leb (2 ^ 31) (wrapping_sub32 seq s.next_seq) ≡ true =
            le→leb _ _ (omega arith) in
          let overlap : u32_mod - wrapping_sub32 seq s.next_seq ≡ k - p = omega arith in
          elim (Bool-cases (leb (length payload) (k - p))) [
            | inl old ↦
                rw (negative, overlap, old)
                  (unchanged-Delivers orig isn k p (length payload) s v z (inl (ground arith)))
            | inr new ↦
                let longer : k - p < length payload = ground arith in
                let rest = drop (k - p) payload in
                let ends : p + length payload ≡ k + length rest =
                  omega (arith, length-drop (k - p) payload) in
                rw (negative, overlap, new)
                  (widen orig isn k p (length payload) (length rest) s (feed_at s 0 rest)
                    (omega arith) ends
                    (feed_at-edge orig isn k s rest v
                      (shift-IsSlice orig (p + (k - p)) k rest (omega arith)
                        (drop-IsSlice orig p (k - p) payload w (omega arith)))
                      fits (narrow s (length payload) (length rest) k p r ends)))
          ]
      | no after ↦ elim (dec_lt (k + tls_reorder_window_bytes) (p + length payload)) [
        | yes large ↦
            let only = large_only s (length payload) k p r large in
            let at : p ≡ k = omega (arith, only.0) in
            let aligned : wrapping_sub32 seq s.next_seq ≡ 0 = omega (arith, v.numbered) in
            let positive : leb (2 ^ 31) (wrapping_sub32 seq s.next_seq) ≡ false =
              ground (arith, aligned) in
            rw (positive, aligned)
              (subst (λ m. Delivers orig isn k m (length payload) s (feed_at s 0 payload)) (sym at)
                (feed_at-edge orig isn k s payload v (shift-IsSlice orig p k payload at w) fits
                  (inr only.1)))
        | no small ↦
            let ahead : wrapping_sub32 seq s.next_seq ≡ p - k =
              omega (arith, v.numbered, w.inside) in
            let positive : leb (2 ^ 31) (wrapping_sub32 seq s.next_seq) ≡ false =
              ground (arith, ahead) in
            rw (positive, ahead)
              (subst (λ m. Delivers orig isn k m (length payload) s (feed_at s (p - k) payload))
                (omega arith)
                (feed_at-Delivers orig isn k (p - k) s payload v
                  (shift-IsSlice orig p (k + (p - k)) payload (omega arith) w) (omega arith)))
      ]
    ]

-- Before anything was delivered.
new-Follows : (orig : List ℕ) (isn : ℕ) → isn < u32_mod → Follows orig isn 0 (new isn)
unfolding new
new-Follows orig isn h = record {
  numbered = omega arith;
  consumed = omega arith;
  paired = refl;
  inside = λ i p. absurd (p refl);
  same = λ i p. absurd (p refl);
}

pub stretch-IsSlice :
    (orig : List ℕ) (p n : ℕ) → p + n ≤ length orig → IsSlice orig p (take n (drop p orig))
stretch-IsSlice orig p n h = record {
  inside = omega (arith, length-take n (drop p orig), length-drop p orig);
  bytes = λ i hi.
      get_or-take n (drop p orig) i 0 (omega (arith, length-take n (drop p orig)))
      ∙ get_or-drop p orig i 0;
}
