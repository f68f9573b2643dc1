-- ===== src/Reassembly/Coverage/Writes.antt =====
-- What `write_first_seen_wins` keeps and adds.
use network_monitor.Base.{
  ℕ, zero, suc, ◌+◌, ◌-◌, ◌≤◌, ◌<◌, min, max, ◌≡◌, refl, ap, ◌≢◌, inl, inr, Bool, true, false, ◌&&◌,
  List, [], ◌∷◌, arith, ltb, leb, ◌==◌, if◌then◌else◌, le→ltb, Bool-cases, length, get_or, set,
  take, resize, length-set, length-take, length-resize, get_or-resize, get_or-set_self,
  get_or-set_ne, get_or-take, u64_max,
}
use network_monitor.Reassembly.Coverage.{
  Written, grow_to, write_byte, write_bytes, write_first_seen_wins,
}

-- The buffers have one length.
abbrev pub Paired : Written → Type 0
Paired w = length w.bytes ≡ length w.filled

abbrev pub held : Written → ℕ → Bool
held w i = get_or w.filled i false

abbrev pub byte_at : Written → ℕ → ℕ
byte_at w i = get_or w.bytes i 0

write_byte-length :
    (idx byte : ℕ) (w : Written)
    → (length (write_byte idx byte w).bytes ≡ length w.bytes)
      × (length (write_byte idx byte w).filled ≡ length w.filled)
unfolding write_byte
write_byte-length idx byte w =
    ground (arith, length-set w.bytes idx byte, length-set w.filled idx true)

write_bytes-length :
    (idx : ℕ) (piece : List ℕ) (w : Written)
    → (length (write_bytes idx piece w).bytes ≡ length w.bytes)
      × (length (write_bytes idx piece w).filled ≡ length w.filled)
unfolding write_bytes
write_bytes-length idx [] w = (refl, refl)
write_bytes-length idx (b ∷ bs) w =
    ground (arith, write_byte-length idx b w, write_bytes-length (idx + 1) bs (write_byte idx b w))

-- One byte: what is held at `i` before stays, and `idx` is held after.
write_byte_at :
    (idx byte : ℕ) (w : Written) (i : ℕ)
    → idx < length w.bytes
    → idx < length w.filled
    → (held (write_byte idx byte w) i ≡ (if i == idx then true else held w i))
      × (byte_at (write_byte idx byte w) i
          ≡ (if i == idx then (if held w i then byte_at w i else byte) else byte_at w i))
unfolding write_byte
write_byte_at idx byte w i hb hf = elim (Bool-cases (i == idx)) [
  | inl e ↦
      let same : i ≡ idx = ground arith in
      rw (same) (
        ground (
          arith,
          get_or-set_self w.bytes idx byte 0 hb,
          get_or-set_self w.filled idx true false hf,
        ))
  | inr e ↦
      let ne : idx ≢ i = ground arith in
      ground
        (arith, get_or-set_ne w.bytes idx i byte 0 ne, get_or-set_ne w.filled idx i true false ne)
]

sub_step : (i idx : ℕ) → i - idx - 1 ≡ i - (idx + 1)
sub_step i idx = omega arith

get_or-cons {ℓ} :
    {A : Type ℓ} (x : A) (xs : List A) (i : ℕ) (d : A)
    → i ≢ 0
    → get_or (x ∷ xs) i d ≡ get_or xs (i - 1) d
get_or-cons x xs zero d h = absurd (h refl)
get_or-cons x xs (suc i) d h = ap (λ k. get_or xs k d) (omega arith)

get_or_head {ℓ} :
    {A : Type ℓ} (x : A) (xs : List A) (i : ℕ) (d : A) → i ≡ 0 → get_or (x ∷ xs) i d ≡ x
get_or_head x xs zero d h = refl
get_or_head x xs (suc i) d h = absurd (omega arith)

write_bytes_at :
    (idx : ℕ) (piece : List ℕ) (w : Written) (i : ℕ)
    → idx + length piece ≤ length w.bytes
    → idx + length piece ≤ length w.filled
    → (held (write_bytes idx piece w) i
        ≡ (if leb idx i && ltb i (idx + length piece) then true else held w i))
      × (byte_at (write_bytes idx piece w) i ≡ (
          if held w i
          then byte_at w i
          else if leb idx i && ltb i (idx + length piece)
          then get_or piece (i - idx) 0
          else byte_at w i))
unfolding write_bytes
write_bytes_at idx [] w i hb hf = ground arith
write_bytes_at idx (b ∷ bs) w i hb hf = ground (
  arith,
  write_bytes_at (idx + 1) bs (write_byte idx b w) i,
  write_byte_at idx b w i,
  write_byte-length idx b w,
  get_or-cons b bs (i - idx) 0,
  get_or_head b bs (i - idx) 0,
  sub_step i idx,
)

grow_to_lem :
    (n : ℕ) (bytes : List ℕ) (filled : List Bool) (c : Bool) (i : ℕ)
    → length bytes ≡ length filled
    → (length (grow_to n bytes filled c).bytes ≡ max (length bytes) n)
      × (length (grow_to n bytes filled c).filled ≡ max (length bytes) n)
      × (held (grow_to n bytes filled c) i ≡ get_or filled i false)
      × (byte_at (grow_to n bytes filled c) i ≡ get_or bytes i 0)
unfolding grow_to
grow_to_lem n bytes filled c i e = ground (
  arith,
  length-resize bytes n 0,
  length-resize filled n false,
  get_or-resize bytes n i 0,
  get_or-resize filled n i false,
)

-- The two buffers keep one length, which grows to the end of the piece cut at `cap`, and only if
-- the piece starts before that.
pub length-write_first_seen_wins :
    (bytes : List ℕ) (filled : List Bool) (offset : ℕ) (piece : List ℕ) (cap : ℕ)
    → length bytes ≡ length filled
    → offset + length piece ≤ u64_max
    → let w = write_first_seen_wins bytes filled offset piece cap in
      let usable_end = min (offset + length piece) cap in
      (length w.bytes ≡ length w.filled)
      × (length w.bytes
          ≡ (if ltb offset usable_end then max (length bytes) usable_end else length bytes))
unfolding write_first_seen_wins
length-write_first_seen_wins bytes filled offset piece cap e h = ground (
  arith,
  le→ltb u64_max (offset + length piece) h,
  grow_to_lem usable_end bytes filled (ltb cap (offset + length piece)) 0 e,
  write_bytes-length offset (take (usable_end - offset) piece)
      (grow_to usable_end bytes filled (ltb cap (offset + length piece))),
)
  where
    usable_end : ℕ
    usable_end = min (offset + length piece) cap

-- First-seen bytes win: after writing a piece at `offset`, an index is held if it was before or if
-- the piece, cut at `cap`, covers it; an index that was held keeps its byte, whatever the piece
-- says, and an index that was not and is covered has the piece's byte.
pub write_first_seen_wins_at :
    (bytes : List ℕ) (filled : List Bool) (offset : ℕ) (piece : List ℕ) (cap i : ℕ)
    → length bytes ≡ length filled
    → offset + length piece ≤ u64_max
    → let w = write_first_seen_wins bytes filled offset piece cap in
      let covered = leb offset i && ltb i (min (offset + length piece) cap) in
      (get_or w.filled i false ≡ (if covered then true else get_or filled i false))
      × (get_or w.bytes i 0 ≡ (
          if get_or filled i false
          then get_or bytes i 0
          else if covered
          then get_or piece (i - offset) 0
          else get_or bytes i 0))
unfolding write_first_seen_wins
write_first_seen_wins_at bytes filled offset piece cap i e h = ground (
  arith,
  le→ltb u64_max (offset + length piece) h,
  grow_to_lem usable_end bytes filled (ltb cap (offset + length piece)) i e,
  write_bytes_at offset (take (usable_end - offset) piece)
      (grow_to usable_end bytes filled (ltb cap (offset + length piece))) i,
  length-take (usable_end - offset) piece,
  get_or-take (usable_end - offset) piece (i - offset) 0,
)
  where
    usable_end : ℕ
    usable_end = min (offset + length piece) cap

-- How many markers are set.
abbrev pub count_held : List Bool → ℕ
count_held [] = 0
count_held (true ∷ bs) = suc (count_held bs)
count_held (false ∷ bs) = count_held bs

count_held-set :
    (bs : List Bool) (i : ℕ)
    → i < length bs
    → get_or bs i false ≡ false
    → count_held (set bs i true) ≡ count_held bs + 1
count_held-set [] i h e = absurd (omega arith)
count_held-set (true ∷ bs) zero h e = cc
count_held-set (false ∷ bs) zero h e = omega arith
count_held-set (true ∷ bs) (suc i) h e = omega (arith, count_held-set bs i (omega arith) e)
count_held-set (false ∷ bs) (suc i) h e = count_held-set bs i (omega arith) e

count_held-resize :
    (bs : List Bool) (n : ℕ) → length bs ≤ n → count_held (resize bs n false) ≡ count_held bs
count_held-resize [] zero h = refl
count_held-resize (b ∷ bs) zero h = absurd (omega arith)
count_held-resize [] (suc n) h = count_held-resize [] n (omega arith)
count_held-resize (true ∷ bs) (suc n) h = ap suc (count_held-resize bs n (omega arith))
count_held-resize (false ∷ bs) (suc n) h = count_held-resize bs n (omega arith)

write_bytes_counts :
    (idx : ℕ) (piece : List ℕ) (w : Written)
    → idx + length piece ≤ length w.filled
    → let w' = write_bytes idx piece w in
      (count_held w'.filled + w.outcome.newly_written
        ≡ count_held w.filled + w'.outcome.newly_written)
      × (w'.outcome.newly_written + w'.outcome.conflicting
          ≤ w.outcome.newly_written + w.outcome.conflicting + length piece)
      × (w'.outcome.hit_cap ≡ w.outcome.hit_cap)
unfolding write_bytes write_byte
write_bytes_counts idx [] w h = (refl, omega arith, refl)
write_bytes_counts idx (b ∷ bs) w h = ground (
  arith,
  write_bytes_counts (idx + 1) bs (write_byte idx b w),
  write_byte-length idx b w,
  count_held-set w.filled idx,
)

-- The outcome of a write is what it did: `newly_written` is the number of indices held after it
-- that were not held before, it and `conflicting` together count no more bytes than the piece has,
-- and `hit_cap` says exactly that the piece reaches past `cap`.
pub write_first_seen_wins_counts :
    (bytes : List ℕ) (filled : List Bool) (offset : ℕ) (piece : List ℕ) (cap : ℕ)
    → length bytes ≡ length filled
    → offset + length piece ≤ u64_max
    → let w = write_first_seen_wins bytes filled offset piece cap in
      (count_held w.filled ≡ count_held filled + w.outcome.newly_written)
      × (w.outcome.newly_written + w.outcome.conflicting ≤ length piece)
      × (w.outcome.hit_cap ≡ ltb cap (offset + length piece))
unfolding write_first_seen_wins grow_to
write_first_seen_wins_counts bytes filled offset piece cap e h = ground (
  arith,
  le→ltb u64_max (offset + length piece) h,
  length-take (usable_end - offset) piece,
  length-resize filled usable_end false,
  count_held-resize filled usable_end,
  write_bytes_counts offset (take (usable_end - offset) piece)
      (grow_to usable_end bytes filled (ltb cap (offset + length piece))),
)
  where
    usable_end : ℕ
    usable_end = min (offset + length piece) cap
