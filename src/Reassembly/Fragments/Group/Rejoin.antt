-- ===== src/Reassembly/Fragments/Group/Rejoin.antt =====
-- The fragments of one datagram, in whatever order and however often they come, rejoin to it.
use network_monitor.Base.{
  ℕ, zero, suc, ◌+◌, ◌-◌, ◌≤◌, ◌<◌, min, ◌≡◌, refl, ◌∙◌, ◌⊎◌, inl, Bool, true, false, not, ◌&&◌,
  ◌||◌, none, some, List, [], ◌∷◌, arith, ltb, leb, if◌then◌else◌, is_some, length, get_or, take,
  drop, length-take, get_or-take, get_or_ext, saturating_add, string_eq,
}
use network_monitor.Reassembly.Status.{reassembled, max_fragment_group_bytes}
use network_monitor.Reassembly.Coverage.{run_length}
use network_monitor.Reassembly.Coverage.Writes.{write_first_seen_wins_at}
use network_monitor.Reassembly.Coverage.Prefix.{
  le-run_length, get_or_of_lt_run_length, run_length-le,
}
use network_monitor.Reassembly.Buffer.{Allocator, write_into}
use network_monitor.Reassembly.Fragments.Group.{
  Ipv4Fragment, FragmentGroup, new, status, any_filled, conflicts, record_fragment,
}
use network_monitor.Reassembly.Fragments.Group.Sound.{
  IsGroup, IsFragment, new-IsGroup, record_fragment-IsGroup,
}

-- The fragment is a slice of the payload `orig`, captured whole, and is the last one exactly if it
-- ends where `orig` ends.
pub record IsSlice (orig : List ℕ) (f : Ipv4Fragment) : Type 0 where
  pub inside : f.offset_bytes + length f.payload ≤ length orig
  pub bytes :
      (i : ℕ) → i < length f.payload → get_or f.payload i 0 ≡ get_or orig (f.offset_bytes + i) 0
  pub last : f.more_fragments ≡ false → f.offset_bytes + length f.payload ≡ length orig

-- The index lies in one of the fragments; one of them is the last.
abbrev pub covers : ℕ → List Ipv4Fragment → Bool
covers i [] = false
covers i (f ∷ fs) =
    (leb f.offset_bytes i && ltb i (f.offset_bytes + length f.payload)) || covers i fs

abbrev pub has_last : List Ipv4Fragment → Bool
has_last [] = false
has_last (f ∷ fs) = not f.more_fragments || has_last fs

abbrev pub AllSlices : List ℕ → List Ipv4Fragment → Type 0
AllSlices orig [] = Unit {0}
AllSlices orig (f ∷ fs) = IsSlice orig f × AllSlices orig fs

abbrev held : FragmentGroup → ℕ → Bool
held g i = get_or g.buffer.filled i false

-- What a group holds is of `orig`.
pub record Agrees (orig : List ℕ) (g : FragmentGroup) : Type 0 where
  pub group : IsGroup g
  pub inside : (i : ℕ) → held g i ≡ true → i < length orig
  pub bytes : (i : ℕ) → held g i ≡ true → get_or g.buffer.bytes i 0 ≡ get_or orig i 0
  pub end : (g.total_len ≡ none) ⊎ (g.total_len ≡ some (length orig))

slice-IsFragment :
    (orig : List ℕ) (f : Ipv4Fragment)
    → length orig ≤ max_fragment_group_bytes
    → IsSlice orig f
    → IsFragment f
slice-IsFragment orig f h s = omega arith

any_filled-drop :
    (bs : List Bool) (n : ℕ)
    → ((i : ℕ) → get_or bs i false ≡ true → i < n)
    → any_filled (drop n bs) ≡ false
any_filled-drop [] zero h = refl
any_filled-drop (true ∷ bs) zero h = absurd (omega (arith, h 0 refl))
any_filled-drop (false ∷ bs) zero h =
    any_filled-drop bs zero (λ i e. absurd (omega (arith, h (suc i) e)))
any_filled-drop [] (suc n) h = refl
any_filled-drop (b ∷ bs) (suc n) h = any_filled-drop bs n (λ i e. omega (arith, h (suc i) e))

-- No fragment of `orig` is taken for a forgery.
pub Agrees-conflicts :
    (orig : List ℕ) (g : FragmentGroup) (f : Ipv4Fragment)
    → length orig ≤ max_fragment_group_bytes
    → Agrees orig g
    → IsSlice orig f
    → conflicts g f (length f.payload) ≡ false
unfolding conflicts
Agrees-conflicts orig g f h a s =
    ground (arith, a.end, any_filled-drop g.buffer.filled (length orig) a.inside, s.last)

module _ (alloc : Allocator) where
  -- The fragments of one group in the order of arrival.
  pub record_all : FragmentGroup → List Ipv4Fragment → FragmentGroup
  record_all g [] = g
  record_all g (f ∷ fs) = record_all (record_fragment alloc g f (length f.payload)).0 fs

  -- What one fragment makes held.
  held-record_fragment :
      (orig : List ℕ) (g : FragmentGroup) (f : Ipv4Fragment) (i : ℕ)
      → length orig ≤ max_fragment_group_bytes
      → Agrees orig g
      → IsSlice orig f
      → let g' = (record_fragment alloc g f (length f.payload)).0 in
        (held g' i ≡ (
          if leb f.offset_bytes i && ltb i (f.offset_bytes + length f.payload)
          then true
          else held g i))
        × (get_or g'.buffer.bytes i 0 ≡ (
            if held g i
            then get_or g.buffer.bytes i 0
            else if leb f.offset_bytes i && ltb i (f.offset_bytes + length f.payload)
            then get_or f.payload (i - f.offset_bytes) 0
            else get_or g.buffer.bytes i 0))
  unfolding record_fragment
  held-record_fragment orig g f i h a s =
      let no_cap : min (f.offset_bytes + length f.payload) max_fragment_group_bytes
          ≡ f.offset_bytes + length f.payload =
        omega arith in
      let w =
        write_first_seen_wins_at g.buffer.bytes g.buffer.filled f.offset_bytes f.payload
          max_fragment_group_bytes i a.group.sound.paired (omega arith) in
      unfold write_into in (rw no_cap at w)

  back : (i offset : ℕ) → offset ≤ i → offset + (i - offset) ≡ i
  back i offset h = omega arith

  total_len-record_fragment :
      (g : FragmentGroup) (f : Ipv4Fragment) (declared : ℕ)
      → (record_fragment alloc g f declared).0.total_len
        ≡ (if f.more_fragments then g.total_len else some (saturating_add f.offset_bytes declared))
  unfolding record_fragment
  total_len-record_fragment g f declared = refl

  record_fragment-end :
      (orig : List ℕ) (g : FragmentGroup) (f : Ipv4Fragment)
      → length orig ≤ max_fragment_group_bytes
      → Agrees orig g
      → IsSlice orig f
      → let t = (record_fragment alloc g f (length f.payload)).0.total_len in
        (t ≡ none) ⊎ (t ≡ some (length orig))
  record_fragment-end orig g f h a s =
      ground (arith, total_len-record_fragment g f (length f.payload), a.end, s.last)

  record_fragment-Agrees :
      (orig : List ℕ) (g : FragmentGroup) (f : Ipv4Fragment)
      → length orig ≤ max_fragment_group_bytes
      → Agrees orig g
      → IsSlice orig f
      → Agrees orig (record_fragment alloc g f (length f.payload)).0
  record_fragment-Agrees orig g f h a s = record {
    group =
        record_fragment-IsGroup alloc g f (length f.payload) a.group (slice-IsFragment orig f h s);
    inside = λ i e. ground (arith, held-record_fragment orig g f i h a s, a.inside i, s.inside);
    bytes = λ i e. ground (
      arith,
      held-record_fragment orig g f i h a s,
      a.bytes i,
      s.bytes (i - f.offset_bytes),
      back i f.offset_bytes,
    );
    end = record_fragment-end orig g f h a s;
  }

  new-Agrees : (orig : List ℕ) (now_ms : ℕ) → Agrees orig (new now_ms)
  new-Agrees orig now_ms = record {
    group = new-IsGroup now_ms;
    inside = λ i e. absurd (unfold new in cc);
    bytes = λ i e. absurd (unfold new in cc);
    end = unfold new in inl refl;
  }

  -- What all the fragments make held, and the end that they tell.
  record_all-Agrees :
      (orig : List ℕ) (g : FragmentGroup) (fs : List Ipv4Fragment)
      → length orig ≤ max_fragment_group_bytes
      → Agrees orig g
      → AllSlices orig fs
      → Agrees orig (record_all g fs)
        × ((i : ℕ) → held g i || covers i fs ≡ true → held (record_all g fs) i ≡ true)
        × (is_some g.total_len || has_last fs ≡ true → is_some (record_all g fs).total_len ≡ true)
  unfolding record_all
  record_all-Agrees orig g [] h a s = (a, λ i e. ground arith, λ e. ground arith)
  record_all-Agrees orig g (f ∷ fs) h a s =
      let g' = (record_fragment alloc g f (length f.payload)).0 in
      let rest = record_all-Agrees orig g' fs h (record_fragment-Agrees orig g f h a s.0) s.1 in
      (
        rest.0,
        (λ i e. ground (arith, held-record_fragment orig g f i h a s.0, rest.1 i)),
        (λ e. ground (arith, total_len-record_fragment g f (length f.payload), rest.2)),
      )

complete-status :
    (orig : List ℕ) (g : FragmentGroup)
    → Agrees orig g
    → ((i : ℕ) → i < length orig → held g i ≡ true)
    → is_some g.total_len ≡ true
    → (status g ≡ reassembled)
      × (g.total_len ≡ some (length orig))
      × (length orig ≤ g.prefix_len)
      × (take (length orig) g.buffer.bytes ≡ orig)
unfolding status
complete-status orig g a c t =
    let run : length orig ≤ run_length g.buffer.filled = le-run_length _ (length orig) c in
    let end : g.total_len ≡ some (length orig) = ground (arith, a.end) in
    let pre : length orig ≤ g.prefix_len = omega (arith, a.group.contiguous) in
    let long : length orig ≤ length g.buffer.bytes =
      omega (arith, run_length-le g.buffer.filled, a.group.sound.paired) in
    (
      ground (arith, pre, end),
      end,
      pre,
      get_or_ext _ orig 0 (omega (arith, length-take (length orig) g.buffer.bytes)) (λ i hi.
          let small : i < length orig = omega (arith, length-take (length orig) g.buffer.bytes) in
          get_or-take (length orig) g.buffer.bytes i 0 small ∙ a.bytes i (c i small)),
    )

reassembled-end :
    (orig : List ℕ) (g : FragmentGroup)
    → Agrees orig g
    → status g ≡ reassembled
    → (g.total_len ≡ some (length orig)) × (length orig ≤ g.prefix_len)
unfolding status
reassembled-end orig g a st = ground (arith, a.end)

-- If the fragments are all slices of one payload of at most 65535 bytes, cover every index of it
-- and include the last, then in whatever order they come, with whatever overlaps and repetitions,
-- the group that has recorded them is reassembled, knows the payload's length, and its contiguous
-- prefix cut at that length is the payload.
pub record_all_rejoins :
    (alloc : Allocator) (orig : List ℕ) (fs : List Ipv4Fragment) (now_ms : ℕ)
    → length orig ≤ max_fragment_group_bytes
    → AllSlices orig fs
    → ((i : ℕ) → i < length orig → covers i fs ≡ true)
    → has_last fs ≡ true
    → let g = record_all alloc (new now_ms) fs in
      (status g ≡ reassembled)
      × (g.total_len ≡ some (length orig))
      × (length orig ≤ g.prefix_len)
      × (take (length orig) g.buffer.bytes ≡ orig)
record_all_rejoins alloc orig fs now_ms h s c l =
    let r = record_all-Agrees alloc orig (new now_ms) fs h (new-Agrees alloc orig now_ms) s in
    complete-status orig _ r.0 (λ i hi. r.1 i (ground (arith, c i hi))) (r.2 (ground arith))

-- Whatever is recorded of one payload, in whatever order, a group with the status reassembled holds
-- that payload and nothing else: its total length is the payload's, and its prefix the payload.
pub record_all_sound :
    (alloc : Allocator) (orig : List ℕ) (fs : List Ipv4Fragment) (now_ms : ℕ)
    → length orig ≤ max_fragment_group_bytes
    → AllSlices orig fs
    → let g = record_all alloc (new now_ms) fs in
      status g ≡ reassembled
      → (g.total_len ≡ some (length orig)) × (take (length orig) g.buffer.bytes ≡ orig)
record_all_sound alloc orig fs now_ms h s st =
    let a = (record_all-Agrees alloc orig (new now_ms) fs h (new-Agrees alloc orig now_ms) s).0 in
    let e = reassembled-end orig _ a st in
    let c =
      complete-status orig _ a
        (λ i hi. get_or_of_lt_run_length _ i (omega (arith, e.1, a.group.contiguous))) (rw (e.0)) in
    (c.1, c.3)
