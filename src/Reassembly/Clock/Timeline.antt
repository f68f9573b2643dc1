-- ===== src/Reassembly/Clock/Timeline.antt =====
-- The replay clock never runs back, and measures a recording in order to the nanosecond.
use network_monitor.Base.{
  gt→leb, ℕ, ◌+◌, ◌-◌, ◌≤◌, ◌<◌, ◌≡◌, refl, sym, ap, ◌∙◌, subst, ◌≢◌, inl, inr, Option, none, some,
  List, [], ◌∷◌, arith, leb, le→leb, Bool-cases, Option-cases, string_eq,
}
use network_monitor.Reassembly.Clock.{
  ReplayClock, new, elapsed_ms, far_behind, measure, now_after, now_ms, lengthen, duration_max,
  replay_reorder_tolerance,
}

far_behind_elapsed :
    (c : ReplayClock) (o : Option ℕ) (t : ℕ)
    → c.elapsed ≤ duration_max
    → (c.elapsed ≤ (far_behind c o t).elapsed) × ((far_behind c o t).elapsed ≤ duration_max)
unfolding far_behind
far_behind_elapsed c none t h = (omega arith, h)
far_behind_elapsed c (some p) t h = ground arith

measure_elapsed :
    (c : ReplayClock) (latest t : ℕ)
    → c.elapsed ≤ duration_max
    → (c.elapsed ≤ (measure c latest t).elapsed) × ((measure c latest t).elapsed ≤ duration_max)
unfolding measure
measure_elapsed c latest t h = elim (Bool-cases (leb latest t)) [
  | inl a ↦ rw a (omega arith, omega arith)
  | inr a ↦ elim (Bool-cases (leb (latest - t) replay_reorder_tolerance)) [
    | inl b ↦ rw (a, b) (omega arith, h)
    | inr b ↦ rw (a, b) (far_behind_elapsed c c.pending_reset t h)
  ]
]

-- A clock that no frame has reached stands at 0.
abbrev pub IsReady : ReplayClock → Type 0
IsReady c = (c.elapsed ≤ duration_max) × (c.latest ≡ none → c.elapsed ≡ 0)

-- The answers to a sequence of frames.
unfoldable pub readings : ReplayClock → List ℕ → List ℕ
readings c [] = []
readings c (t ∷ ts) = let (c', now) = now_ms c t in now ∷ readings c' ts

-- Each number is the one before or more.
abbrev pub Ascends : ℕ → List ℕ → Type 0
Ascends n [] = Unit
Ascends n (m ∷ ms) = (n ≤ m) × Ascends m ms

now_ms_first :
    (c : ReplayClock) (t : ℕ) → c.latest ≡ none → now_ms c t ≡ (record c { latest = some t }, 0)
unfolding now_ms now_after
now_ms_first c t e = ap (λ o. now_after c o t) e

now_ms_next :
    (c : ReplayClock) (l t : ℕ)
    → c.latest ≡ some l
    → now_ms c t ≡ (measure c l t, elapsed_ms (measure c l t))
unfolding now_ms now_after
now_ms_next c l t e = ap (λ o. now_after c o t) e

far_behind_latest :
    (c : ReplayClock) (l t : ℕ) (o : Option ℕ)
    → c.latest ≡ some l
    → (far_behind c o t).latest ≢ none
unfolding far_behind
far_behind_latest c l t none e = λ z. cc
far_behind_latest c l t (some p) e = λ z. cc

measure_latest : (c : ReplayClock) (l t : ℕ) → c.latest ≡ some l → (measure c l t).latest ≢ none
unfolding measure
measure_latest c l t e = elim (Bool-cases (leb l t)) [
  | inl a ↦ rw a (λ z. cc)
  | inr a ↦ elim (Bool-cases (leb (l - t) replay_reorder_tolerance)) [
    | inl b ↦ rw (a, b) (λ z. cc)
    | inr b ↦ rw (a, b) (far_behind_latest c l t c.pending_reset e)
  ]
]

now_ms_step :
    (c : ReplayClock) (t : ℕ)
    → IsReady c
    → IsReady (now_ms c t).0
      × (elapsed_ms c ≤ (now_ms c t).1)
      × ((now_ms c t).1 ≡ elapsed_ms (now_ms c t).0)
unfolding elapsed_ms
now_ms_step c t h = elim (Option-cases c.latest) [
  | inl e ↦
      let z = h.1 e in
      simp (now_ms_first c t e) ((h.0, λ bad. z), omega (arith, z), omega (arith, z))
  | inr (l, e) ↦
      let m = measure_elapsed c l t h.0 in
      simp (now_ms_next c l t e)
        ((m.1, λ bad. absurd (measure_latest c l t e bad)), omega (arith, m.0), refl)
]

-- The clock of a replay never runs back: whatever the timestamps of the frames, in order, out of
-- order or corrupt, the answers to a sequence of frames never decrease.
pub readings-Ascends :
    (c : ReplayClock) (ts : List ℕ) → IsReady c → Ascends (elapsed_ms c) (readings c ts)
unfolding readings
readings-Ascends c [] h = tt
readings-Ascends c (t ∷ ts) h =
    let s = now_ms_step c t h in
    (
      s.1,
      subst (λ n. Ascends n (readings (now_ms c t).0 ts)) (sym s.2)
          (readings-Ascends (now_ms c t).0 ts s.0),
    )

-- The clock after a sequence of frames.
unfoldable pub play : ReplayClock → List ℕ → ReplayClock
play c [] = c
play c (t ∷ ts) = play (now_ms c t).0 ts

abbrev pub last_of : ℕ → List ℕ → ℕ
last_of t [] = t
last_of t (u ∷ us) = last_of u us

last_of_le : (t : ℕ) (ts : List ℕ) → Ascends t ts → t ≤ last_of t ts
last_of_le t [] h = omega arith
last_of_le t (u ∷ us) h = omega (arith, h.0, last_of_le u us h.1)

-- Frames in order.
measure_forward :
    (c : ReplayClock) (l t : ℕ)
    → l ≤ t
    → measure c l t
      ≡ record { latest = some t; pending_reset = none; elapsed = lengthen c.elapsed (t - l) }
unfolding measure
measure_forward c l t h = rw (le→leb l t h) refl

play_from :
    (l : ℕ) (c : ReplayClock) (ts : List ℕ)
    → c.latest ≡ some l
    → Ascends l ts
    → c.elapsed + (last_of l ts - l) ≤ duration_max
    → (play c ts).elapsed ≡ c.elapsed + (last_of l ts - l)
unfolding play
play_from l c [] e a h = omega arith
play_from l c (t ∷ ts) e a h =
    let behind = last_of_le t ts a.1 in
    let step = ap (λ r. r.0) (now_ms_next c l t e) ∙ measure_forward c l t a.0 in
    ap (λ d. (play d ts).elapsed) step
    ∙ (play_from t
          (record { latest = some t; pending_reset = none; elapsed = lengthen c.elapsed (t - l) })
          ts refl a.1 (omega (arith, a.0, behind))
        ∙ omega (arith, a.0, behind))

-- A recording whose frames are in order is measured without a rounding loss, however close the
-- frames are: the clock stands at the time between the first frame and the last.
pub play_lem :
    (first : ℕ) (rest : List ℕ)
    → Ascends first rest
    → last_of first rest - first ≤ duration_max
    → (play new (first ∷ rest)).elapsed ≡ last_of first rest - first
unfolding play now_ms now_after new
play_lem first rest a h =
    play_from first (record { latest = some first; pending_reset = none; elapsed = 0 }) rest refl a
      (omega arith)
    ∙ omega arith

-- A first frame that is far behind is held.
held :
    (c : ReplayClock) (latest t : ℕ)
    → c.latest ≡ some latest
    → c.pending_reset ≡ none
    → t + replay_reorder_tolerance < latest
    → (now_ms c t).0 ≡ record c { pending_reset = some t }
unfolding measure far_behind
held c latest t e p far =
    ap (λ r. r.0) (now_ms_next c latest t e)
    ∙ rw
        (
          gt→leb latest t (omega (arith, far)),
          gt→leb (latest - t) replay_reorder_tolerance (omega (arith, far)),
        )
        (ap (λ o. far_behind c o t) p)

-- Near the old timeline, what is pending does not matter.
measure_near :
    (c : ReplayClock) (latest t : ℕ) (o : Option ℕ)
    → latest ≤ t + replay_reorder_tolerance
    → measure (record c { pending_reset = o }) latest t ≡ measure c latest t
unfolding measure
measure_near c latest t o near = elim (Bool-cases (leb latest t)) [
  | inl a ↦ rw a refl
  | inr a ↦ rw (a, le→leb (latest - t) replay_reorder_tolerance (omega (arith, near))) refl
]

-- One corrupt timestamp far behind changes nothing: when the frame after it is back on the old
-- timeline, the clock is what it would be without it.
pub outlier_ignored :
    (c : ReplayClock) (latest outlier next : ℕ)
    → c.latest ≡ some latest
    → c.pending_reset ≡ none
    → outlier + replay_reorder_tolerance < latest
    → latest ≤ next + replay_reorder_tolerance
    → now_ms (now_ms c outlier).0 next ≡ now_ms c next
outlier_ignored c latest outlier next e p far near =
    let same = measure_near c latest next (some outlier) near in
    ap (λ d. now_ms d next) (held c latest outlier e p far)
    ∙ (now_ms_next (record c { pending_reset = some outlier }) latest next e
        ∙ (ap (λ d. (d, elapsed_ms d)) same ∙ sym (now_ms_next c latest next e)))

-- A step back that a second frame confirms moves the clock to the new timeline and counts only the
-- time between these two frames.
pub reset_confirmed :
    (c : ReplayClock) (latest before after : ℕ)
    → c.latest ≡ some latest
    → c.pending_reset ≡ none
    → before ≤ after
    → after + replay_reorder_tolerance < latest
    → (now_ms (now_ms c before).0 after).0 ≡ record {
      latest = some after;
      pending_reset = none;
      elapsed = lengthen c.elapsed (after - before);
    }
unfolding measure far_behind
reset_confirmed c latest before after e p h far =
    ap (λ d. (now_ms d after).0) (held c latest before e p (omega arith))
    ∙ (ap (λ r. r.0) (now_ms_next (record c { pending_reset = some before }) latest after e)
        ∙ rw
            (
              gt→leb latest after (omega arith),
              gt→leb (latest - after) replay_reorder_tolerance (omega arith),
              le→leb before after h,
            )
            refl)
