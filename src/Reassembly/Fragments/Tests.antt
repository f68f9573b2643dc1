-- ===== src/Reassembly/Fragments/Tests.antt =====
-- A datagram in three overlapping fragments, out of order, and the theorems at it.
use network_monitor.Base.{
  ℕ, ◌+◌, ◌^◌, ◌≤◌, ◌<◌, ◌≡◌, refl, ap, ◌∙◌, subst, Bool, true, false, Option, none, some, List, [],
  ◌∷◌, ◌++◌, arith, length, get_or-drop, get_or, take, drop, get_or-take, string_eq,
}
use native.Mathlib.Nat.{le_refl}
use mathlib.Core.Option.{some-injective}
use network_monitor.Reassembly.Status.{reassembled, incomplete_missing_frames}
use network_monitor.Reassembly.Buffer.{Allocator}
use network_monitor.Reassembly.Fragments.Group.{Ipv4Fragment, FragmentGroup, status}
use network_monitor.Reassembly.Fragments.Group
use network_monitor.Reassembly.Fragments.Group.Sound.{IsFragment, IsGroup}
use network_monitor.Reassembly.Fragments.Group.Rejoin.{
  AllSlices, covers, record_all, record_all_rejoins, record_all_sound,
}
use network_monitor.Reassembly.Fragments.Invariant.{IsBounded, new-IsBounded, feed-IsBounded}
use network_monitor.Reassembly.Fragments.Output.{rebuild_group_lem}
use network_monitor.Reassembly.Fragments.{
  ParsedPacket, ReassembledDatagram, new, feed, rebuild_group, rebuild_ipv4_datagram,
  payload_len_of,
}

-- An allocator that reserves just what is needed.
exact_reserve_small : (capacity needed : ℕ) → capacity < needed → needed ≤ 2 ^ 20 → needed ≤ 2 ^ 32
exact_reserve_small capacity needed h k = omega arith

abbrev exact : Allocator
exact = record {
  reserve = λ capacity needed. needed;
  enough = λ capacity needed. le_refl needed;
  bounded = exact_reserve_small;
}

-- A stand-in for the header's round trip.
abbrev join : List ℕ → List ℕ → Option (List ℕ)
join header payload = some (header ++ payload)

abbrev orig : List ℕ
orig = 10 ∷ 11 ∷ 12 ∷ 13 ∷ []

abbrev part : ℕ → List ℕ → Bool → Ipv4Fragment
part offset payload more = record {
  identification = 7;
  offset_bytes = offset;
  more_fragments = more;
  protocol = 17;
  header = 69 ∷ [];
  payload = payload;
}

abbrev parts : List Ipv4Fragment
parts = part 2 (12 ∷ 13 ∷ []) false ∷ part 1 (11 ∷ 12 ∷ []) true ∷ part 0 (10 ∷ 11 ∷ []) true ∷ []

abbrev packet : Ipv4Fragment → ParsedPacket
packet f = record {
  src_ip = "10.0.0.1";
  dst_ip = "10.0.0.2";
  ip_declared_payload_len = length f.payload;
  ip_fragment = some f;
}

-- The bytes of a slice, when the payload is cut out of `orig`.
cut_bytes :
    (offset : ℕ) (payload : List ℕ)
    → payload ≡ take (length payload) (drop offset orig)
    → (i : ℕ) → i < length payload
    → get_or payload i 0 ≡ get_or orig (offset + i) 0
cut_bytes offset payload e i h =
    ap (λ xs. get_or xs i 0) e
    ∙ (get_or-take (length payload) (drop offset orig) i 0 h ∙ get_or-drop offset orig i 0)

slices : AllSlices orig parts
slices = (
  record { inside = omega arith; bytes = cut_bytes 2 (12 ∷ 13 ∷ []) refl; last = λ e. refl },
  (
    record {
      inside = omega arith;
      bytes = cut_bytes 1 (11 ∷ 12 ∷ []) refl;
      last = λ e. absurd (cc);
    },
    (
      record {
        inside = omega arith;
        bytes = cut_bytes 0 (10 ∷ 11 ∷ []) refl;
        last = λ e. absurd (cc);
      },
      tt,
    ),
  ),
)

covered : (i : ℕ) → i < 4 → covers i parts ≡ true
covered i h = ground arith

record_all_rejoins_example :
    let g = record_all exact (Group.new 0) parts in
    (status g ≡ reassembled)
    × (g.total_len ≡ some 4)
    × (4 ≤ g.prefix_len)
    × (take 4 g.buffer.bytes ≡ orig)
record_all_rejoins_example = record_all_rejoins exact orig parts 0 (omega arith) slices covered refl

record_all_sound_example :
    let g = record_all exact (Group.new 0) parts in
    (g.total_len ≡ some 4) × (take 4 g.buffer.bytes ≡ orig)
record_all_sound_example =
    record_all_sound exact orig parts 0 (omega arith) slices
      (record_all_rejoins exact orig parts 0 (omega arith) slices covered refl).0

feed-IsBounded_example : IsBounded (feed exact join new (packet (part 0 (10 ∷ 11 ∷ []) true)) 3).0
feed-IsBounded_example =
    feed-IsBounded exact join new (packet (part 0 (10 ∷ 11 ∷ []) true)) 3 new-IsBounded
      (λ f e. subst IsFragment (some-injective _ f e) (omega arith))

-- A group that holds two bytes, then a hole, then a byte.
abbrev holed : FragmentGroup
holed = record {
  buffer = record {
    bytes = 10 ∷ 11 ∷ 0 ∷ 13 ∷ [];
    filled = true ∷ true ∷ false ∷ true ∷ [];
    bytes_capacity = 4;
    filled_capacity = 4;
  };
  prefix_len = 2;
  total_len = some 4;
  header = some (69 ∷ []);
  short_captured_at = none;
  first_seen_ms = 0;
  last_seen_ms = 0;
}

holed-IsGroup : IsGroup holed
holed-IsGroup = record { sound = omega arith; contiguous = refl }

-- A rewriting that puts the payload's length in front.
abbrev with_length : List ℕ → ℕ → Option (List ℕ)
with_length header n = some (n ∷ header)

abbrev holed_datagram : ReassembledDatagram
holed_datagram = record {
  bytes = 2 ∷ 69 ∷ 10 ∷ 11 ∷ [];
  status = incomplete_missing_frames;
  payload_len = 2;
}

holed_output :
    rebuild_group exact (rebuild_ipv4_datagram with_length) holed incomplete_missing_frames
    ≡ some holed_datagram
unfolding rebuild_group payload_len_of rebuild_ipv4_datagram
holed_output = refl

rebuild_group_lem_example :
    (header : List ℕ) × (out : List ℕ) × (holed.header ≡ some header)
    × (with_length header 2 ≡ some out)
    × (holed_datagram.bytes ≡ out ++ take 2 holed.buffer.bytes)
    × (length (take 2 holed.buffer.bytes) ≡ 2)
    × (incomplete_missing_frames ≡ incomplete_missing_frames)
    × ((i : ℕ) → i < 2 → get_or holed.buffer.filled i false ≡ true)
    × ((end : ℕ) → holed.total_len ≡ some end → 2 ≤ end)
rebuild_group_lem_example =
    rebuild_group_lem exact with_length holed incomplete_missing_frames holed_datagram holed-IsGroup
      holed_output
