-- ===== src/Reassembly/Fragments/Invariant.antt =====
-- The invariant of the fragment reassembler, kept by every operation.
use network_monitor.Base.{
  ℕ, ◌+◌, ◌-◌, ◌≤◌, ◌≡◌, refl, sym, inl, inr, Bool, true, not, ◌&&◌, Option, some, List, [], ◌∷◌,
  arith, leb, is_some, Bool-cases, Option-cases, length, saturating_add, add64, string_eq,
  measure_of, lookup, contains_key, insert, remove, total, AllValues, total-remove, total-insert,
  length-remove, length-insert, lookup-AllValues, remove-AllValues, insert-AllValues,
}
use network_monitor.Reassembly.Status.{
  ReassemblyStatus, reassembled, incomplete_truncated_at_capture, incomplete_missing_frames,
  max_fragment_groups, max_fragment_bytes_total,
}
use network_monitor.Reassembly.Buffer.{Allocator}
use network_monitor.Reassembly.Eviction.Ceilings.{
  evict_oldest_until-Within, evict_oldest_until-AllValues,
}
use network_monitor.Reassembly.Fragments.Group.{
  Ipv4Fragment, FragmentGroup, accounted_bytes, conflicts, status, is_expired,
}
use network_monitor.Reassembly.Fragments.Group.Sound.{
  IsGroup, IsFragment, new-IsGroup, accounted_bytes-le, record_fragment-IsGroup,
  accounted_bytes-new, accounted_bytes-seen, conflicts-new,
}
use network_monitor.Reassembly.Fragments.{
  FragmentKey, key_eq, ParsedPacket, IpFragmentReassembler, new, clear, held_of, evict_oldest_until,
  take_group, expire, make_room, expire_on_arrival, enter, settle, feed_group, feed, expired_keys,
  expire_all, evict_stale,
}

-- Every group is sound and the account of bytes is right.
pub record IsKept (s : IpFragmentReassembler) : Type 0 where
  pub groups_sound : AllValues IsGroup s.groups
  pub accounted : s.bytes_held ≡ total accounted_bytes s.groups

-- Besides, both ceilings hold.
pub record IsBounded (s : IpFragmentReassembler) : Type 0 where
  pub kept : IsKept s
  pub groups_le : length s.groups ≤ max_fragment_groups
  pub bytes_le : s.bytes_held ≤ max_fragment_bytes_total

pub new-IsBounded : IsBounded new
unfolding new
new-IsBounded = record {
  kept = record { groups_sound = tt; accounted = refl };
  groups_le = omega arith;
  bytes_le = omega arith;
}

pub clear-IsBounded : (s : IpFragmentReassembler) → IsBounded (clear s)
unfolding clear
clear-IsBounded s = record {
  kept = record { groups_sound = tt; accounted = refl };
  groups_le = omega arith;
  bytes_le = omega arith;
}

evict_oldest_until-IsKept :
    (s : IpFragmentReassembler) (m b : ℕ)
    → IsKept s
    → let s' = evict_oldest_until s m b in IsKept s' × (length s'.groups ≤ m) × (s'.bytes_held ≤ b)
unfolding evict_oldest_until
evict_oldest_until-IsKept s m b v =
    let w =
      evict_oldest_until-Within accounted_bytes (λ (g : FragmentGroup). g.last_seen_ms) m b
        (held_of s) v.accounted in
    (
      record {
        groups_sound =
            evict_oldest_until-AllValues accounted_bytes IsGroup
              (λ (g : FragmentGroup). g.last_seen_ms) m b (held_of s) v.groups_sound;
        accounted = w.accounted;
      },
      w.entries_le,
      w.bytes_le,
    )

-- An operation that only removes leaves the invariant, and the sizes no larger.
pub record Shrinks (s s' : IpFragmentReassembler) : Type 0 where
  pub kept : IsKept s'
  pub groups_le : length s'.groups ≤ length s.groups
  pub bytes_le : s'.bytes_held ≤ s.bytes_held

Shrinks-IsBounded : {s s' : IpFragmentReassembler} → IsBounded s → Shrinks s s' → IsBounded s'
Shrinks-IsBounded v w = record { kept = w.kept; groups_le = omega arith; bytes_le = omega arith }

unchanged : {s : IpFragmentReassembler} → IsKept s → Shrinks s s
unchanged v = record { kept = v; groups_le = omega arith; bytes_le = omega arith }

-- The removal of a group with its account.
remove-Shrinks :
    (s s' : IpFragmentReassembler) (key : FragmentKey) (g : FragmentGroup)
    → IsKept s
    → lookup key s.groups ≡ some g
    → s'.groups ≡ remove key s.groups
    → s'.bytes_held ≡ s.bytes_held - accounted_bytes g
    → Shrinks s s'
remove-Shrinks s s' key g v found gs bs =
    let t : total accounted_bytes (remove key s.groups) + accounted_bytes g
        ≡ total accounted_bytes s.groups =
      ground (arith, total-remove accounted_bytes key s.groups) in
    let l = length-remove key s.groups in
    record {
      kept = record {
        groups_sound = rw gs (remove-AllValues IsGroup key s.groups v.groups_sound);
        accounted = rw gs (omega (arith, v.accounted));
      };
      groups_le = rw gs (ground (arith, l));
      bytes_le = omega arith;
    }

module _ (alloc : Allocator) (rebuild : List ℕ → List ℕ → Option (List ℕ)) where
  take_group-Shrinks :
      (s : IpFragmentReassembler) (key : FragmentKey) (st : ReassemblyStatus)
      → IsKept s
      → Shrinks s (take_group alloc rebuild s key st).0
  unfolding take_group
  take_group-Shrinks s key st v = elim (Option-cases (lookup key s.groups)) [
    | inl missing ↦ rw (missing, take_group) (unchanged v)
    | inr (g, found) ↦ rw (found, take_group) (remove-Shrinks s _ key g v found refl refl)
  ]

  expire-Shrinks :
      (s : IpFragmentReassembler) (key : FragmentKey)
      → IsKept s
      → Shrinks s (expire alloc rebuild s key).0
  unfolding expire
  expire-Shrinks s key v = elim (Option-cases (lookup key s.groups)) [
    | inl missing ↦ rw (missing, expire) (unchanged v)
    | inr (g, found) ↦
        rw (found, expire)
          (let w =
              take_group-Shrinks
                (record s {
                  counters = record (s.counters) { evicted_idle = add64 s.counters.evicted_idle 1 };
                })
                key (status g)
                (record { groups_sound = v.groups_sound; accounted = v.accounted }) in
            record { kept = w.kept; groups_le = w.groups_le; bytes_le = w.bytes_le })
  ]

  expire_on_arrival-Shrinks :
      (s : IpFragmentReassembler) (key : FragmentKey) (now_ms : ℕ)
      → IsKept s
      → Shrinks s (expire_on_arrival alloc rebuild s key now_ms)
  unfolding expire_on_arrival
  expire_on_arrival-Shrinks s key now_ms v = elim (Option-cases (lookup key s.groups)) [
    | inl missing ↦ rw (missing, expire_on_arrival) (unchanged v)
    | inr (g, found) ↦
        rw (found, expire_on_arrival)
          (elim (Bool-cases (is_expired g now_ms)) [
            | inl e ↦ rw e (expire-Shrinks s key v)
            | inr e ↦ rw e (unchanged v)
          ])
  ]

  settle-IsKept :
      (s : IpFragmentReassembler) (key : FragmentKey) (st : ReassemblyStatus) (capped : Bool)
      → IsKept s
      → IsKept (settle alloc rebuild s key st capped).0
  unfolding settle
  settle-IsKept s key reassembled capped v = (take_group-Shrinks s key reassembled v).kept
  settle-IsKept s key incomplete_truncated_at_capture capped v =
      (take_group-Shrinks s key incomplete_truncated_at_capture v).kept
  settle-IsKept s key incomplete_missing_frames capped v =
      elim (Option-cases (lookup key s.groups)) [
        | inl missing ↦ rw (missing, settle) v
        | inr (g, found) ↦
            rw (found, settle)
              (elim (Bool-cases capped) [
                | inl e ↦ rw e (remove-Shrinks s _ key g v found refl refl).kept
                | inr e ↦ rw e v
              ])
      ]

  make_room-IsBounded :
      (s : IpFragmentReassembler) (key : FragmentKey)
      → IsBounded s
      → IsBounded (make_room alloc rebuild s key)
  unfolding make_room
  make_room-IsBounded s key v =
      elim (Bool-cases
        (not (contains_key key s.groups) && leb max_fragment_groups (length s.groups))) [
          | inl e ↦
              let w =
                evict_oldest_until-IsKept s (max_fragment_groups - 1) max_fragment_bytes_total
                  v.kept in
              rw e (record { kept = w.0; groups_le = omega arith; bytes_le = w.2 })
          | inr e ↦ rw e v
        ]

-- What `enter` hands out: a sound group that the account counts already, new only if the key is
-- not there.
record Entered (s : IpFragmentReassembler) (key : FragmentKey) (g : FragmentGroup) : Type 0 where
  sound : IsGroup g
  counted : measure_of accounted_bytes (lookup key s.groups) ≡ accounted_bytes g
  known :
      (f : Ipv4Fragment) (declared : ℕ)
      → conflicts g f declared ≡ true
      → is_some (lookup key s.groups) ≡ true

module _ (alloc : Allocator) (rebuild : List ℕ → List ℕ → Option (List ℕ)) where
  enter-Entered :
      (s : IpFragmentReassembler) (key : FragmentKey) (now_ms : ℕ)
      → IsKept s
      → Entered s key (enter alloc rebuild s key now_ms)
  unfolding enter
  enter-Entered s key now_ms v = elim (Option-cases (lookup key s.groups)) [
    | inl missing ↦
        rw (missing, enter)
          (record {
            sound = new-IsGroup now_ms;
            counted = rw missing (sym (accounted_bytes-new now_ms));
            known = λ f d c. absurd (let n = conflicts-new now_ms f d in cc);
          })
    | inr (g, found) ↦
        let w = lookup-AllValues IsGroup key s.groups g v.groups_sound found in
        rw (found, enter)
          (record {
            sound = record { sound = w.sound; contiguous = w.contiguous };
            counted = rw found (sym (accounted_bytes-seen g now_ms));
            known = λ f d c. rw found;
          })
  ]

  insert-IsKept :
      (s s' : IpFragmentReassembler) (key : FragmentKey) (g g' : FragmentGroup)
      → IsBounded s
      → Entered s key g
      → IsGroup g'
      → s'.groups ≡ insert key g' s.groups
      → s'.bytes_held ≡ saturating_add s.bytes_held (accounted_bytes g') - accounted_bytes g
      → IsKept s'
  insert-IsKept s s' key g g' v w u gs bs = record {
    groups_sound = rw gs (insert-AllValues IsGroup key g' s.groups u v.kept.groups_sound);
    accounted = rw gs (
        omega (
          arith,
          total-insert accounted_bytes key g' s.groups,
          accounted_bytes-le g' u,
          accounted_bytes-le g w.sound,
          w.counted,
          v.kept.accounted,
        ));
  }

  feed_group-IsBounded :
      (s : IpFragmentReassembler) (key : FragmentKey) (g : FragmentGroup) (f : Ipv4Fragment)
      (declared : ℕ)
      → IsBounded s
      → Entered s key g
      → IsFragment f
      → IsBounded (feed_group alloc rebuild s key g f declared).0
  unfolding feed_group
  feed_group-IsBounded s key g f declared v w fr = elim (Bool-cases (conflicts g f declared)) [
    | inl e ↦ rw e (record {
      kept =
          insert-IsKept s _ key g g v w w.sound refl (omega (arith, accounted_bytes-le g w.sound));
      groups_le = ground (arith, length-insert key g s.groups, w.known f declared e);
      bytes_le = v.bytes_le;
    })
    | inr e ↦ rw e (
        let r = evict_oldest_until-IsKept _ max_fragment_groups max_fragment_bytes_total (
          settle-IsKept alloc rebuild _ key _ _ (
            insert-IsKept s _ key g _ v w (record_fragment-IsGroup alloc g f declared w.sound fr)
              refl refl)) in
        record { kept = r.0; groups_le = r.1; bytes_le = r.2 })
  ]

  -- Feeding any frame keeps every group sound, the account of bytes right, at most
  -- `max_fragment_groups` groups and at most `max_fragment_bytes_total` bytes held, whatever the
  -- frame, provided that its fragment's offset and payload length are 32-bit numbers.
  pub feed-IsBounded :
      (s : IpFragmentReassembler) (packet : ParsedPacket) (now_ms : ℕ)
      → IsBounded s
      → ((f : Ipv4Fragment) → packet.ip_fragment ≡ some f → IsFragment f)
      → IsBounded (feed alloc rebuild s packet now_ms).0
  unfolding feed
  feed-IsBounded s packet now_ms v h = elim (Option-cases packet.ip_fragment) [
    | inl e ↦ rw (e, feed) v
    | inr (f, e) ↦
        rw (e, feed)
          (let ready = Shrinks-IsBounded (make_room-IsBounded alloc rebuild s _ v) (
              expire_on_arrival-Shrinks alloc rebuild _ _ now_ms
                (make_room-IsBounded alloc rebuild s _ v).kept) in
            feed_group-IsBounded _ _ _ f packet.ip_declared_payload_len ready
              (enter-Entered _ _ now_ms ready.kept) (h f e))
  ]

  expire_all-IsBounded :
      (s : IpFragmentReassembler) (keys : List FragmentKey)
      → IsBounded s
      → IsBounded (expire_all alloc rebuild s keys).0
  unfolding expire_all
  expire_all-IsBounded s [] v = v
  expire_all-IsBounded s (key ∷ keys) v =
      expire_all-IsBounded (expire alloc rebuild s key).0 keys
        (Shrinks-IsBounded v (expire-Shrinks alloc rebuild s key v.kept))

  -- The periodic sweep keeps every group sound, the account of bytes right and both ceilings.
  pub evict_stale-IsBounded :
      (s : IpFragmentReassembler) (now_ms : ℕ)
      → IsBounded s
      → IsBounded (evict_stale alloc rebuild s now_ms).0
  unfolding evict_stale
  evict_stale-IsBounded s now_ms v =
      let r =
        evict_oldest_until-IsKept _ max_fragment_groups max_fragment_bytes_total
          (expire_all-IsBounded s (expired_keys alloc rebuild now_ms s.groups) v).kept in
      record { kept = r.0; groups_le = r.1; bytes_le = r.2 }
