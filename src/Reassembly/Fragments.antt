-- ===== src/Reassembly/Fragments.antt =====
-- `IpFragmentReassembler` of capture-agent/src/reassembly.rs: rejoining IPv4 fragments.
pub mod Group
pub mod Invariant
pub mod Output
mod Tests
use Prim.Native.String.{String}
use network_monitor.Base.OptionBind.{◌>>=◌}
use network_monitor.Base.{
  ℕ, zero, suc, ◌+◌, ◌-◌, ◌*◌, ◌/◌, ◌%◌, ◌^◌, ◌≤◌, ◌<◌, min, max, ◌≡◌, refl, sym, ap, ◌∙◌, subst,
  ◌≢◌, ◌↔◌, ◌⊎◌, inl, inr, Bool, true, false, not, ◌&&◌, ◌||◌, Option, none, some, List, [], ◌∷◌,
  ◌++◌, map, arith, ltb, leb, ◌==◌, if◌then◌else◌, is_some, ltb→lt, lt→ltb, le→ltb, leb→le, le→leb,
  ==_iff, tests, Bool-cases, Option-cases, length, get_elem?, get_or, set, take, drop, replicate,
  resize, length-append, length-set, length-take, length-drop, length-replicate, length-resize,
  take-append-drop, get_or-resize, get_or-set_self, get_or-set_ne, get_or_beyond, get_or-take,
  get_or_ext, u32_mod, u64_max, wrapping_add32, wrapping_sub32, saturating_add, add64, Eq,
  string_eq, beq_refl, Table, measure_of, lookup, contains_key, insert, remove, total, AllValues,
  total-remove, total-insert, length-remove, length-insert, lookup-AllValues, remove-AllValues,
  insert-AllValues, lookup-insert, lookup-remove_ne,
}
use network_monitor.Reassembly.Status.{
  ReassemblyStatus, reassembled, incomplete_truncated_at_capture, incomplete_missing_frames,
  ReassemblyCounters, no_counts, count_outcome, max_fragment_group_bytes, max_fragment_groups,
  max_fragment_bytes_total,
}
use network_monitor.Reassembly.Buffer.{Allocator, Buffer}
use network_monitor.Reassembly.Coverage.{WriteOutcome}
use network_monitor.Reassembly.Eviction
use network_monitor.Reassembly.Eviction.{Held}
use Group.{
  Ipv4Fragment, FragmentGroup, is_expired, accounted_bytes, status, conflicts, record_fragment,
}
use Group

pub record FragmentKey : Type 0 where
  pub src : String
  pub dst : String
  pub identification : ℕ
  pub protocol : ℕ

pub same_key : FragmentKey → FragmentKey → Bool
same_key a b =
    string_eq.beq a.src b.src
    && string_eq.beq a.dst b.dst
    && a.identification == b.identification
    && a.protocol == b.protocol

pub same_key_iff : (a b : FragmentKey) → (same_key a b ≡ true) ↔ (a ≡ b)
unfolding same_key
same_key_iff a b = ground (arith, string_eq.beq_iff a.src b.src, string_eq.beq_iff a.dst b.dst)

instance abbrev pub key_eq : Eq FragmentKey
key_eq = record { beq = same_key; beq_iff = same_key_iff }

-- What the reassembler reads of a `ParsedPacket`.
pub record ParsedPacket : Type 0 where
  pub src_ip : String
  pub dst_ip : String
  pub ip_declared_payload_len : ℕ
  pub ip_fragment : Option Ipv4Fragment

pub record ReassembledDatagram : Type 0 where
  pub bytes : List ℕ
  pub status : ReassemblyStatus
  pub payload_len : ℕ

pub record IpFragmentReassembler : Type 0 where
  pub groups : Table FragmentKey FragmentGroup
  pub bytes_held : ℕ
  pub counters : ReassemblyCounters

pub new : IpFragmentReassembler
new = record { groups = []; bytes_held = 0; counters = no_counts }

pub clear : IpFragmentReassembler → IpFragmentReassembler
clear s = record s { groups = []; bytes_held = 0 }

abbrev pub held_of : IpFragmentReassembler → Held FragmentKey FragmentGroup
held_of s = record {
  entries = s.groups;
  bytes_held = s.bytes_held;
  evicted = s.counters.evicted_capacity;
}

pub evict_oldest_until : IpFragmentReassembler → ℕ → ℕ → IpFragmentReassembler
evict_oldest_until s max_groups max_bytes =
    let h =
      Eviction.evict_oldest_until accounted_bytes (λ (g : FragmentGroup). g.last_seen_ms) max_groups
        max_bytes (held_of s) in
    record {
      groups = h.entries;
      bytes_held = h.bytes_held;
      counters = record (s.counters) { evicted_capacity = h.evicted };
    }

-- `payload_len` of `take_group`.
pub payload_len_of : FragmentGroup → ℕ
payload_len_of group = elim group.total_len [
  | none ↦ group.prefix_len
  | some end ↦ min group.prefix_len end
]

-- `get(..n)`.
abbrev pub get_prefix : List ℕ → ℕ → Option (List ℕ)
get_prefix xs n = if leb n (length xs) then some (take n xs) else none

-- A whole datagram of a payload. The header for a payload's length, checked, with its fragment
-- fields cleared and its checksum computed, is etherparse's work, the parameter.
unfoldable pub rebuild_ipv4_datagram :
    (List ℕ → ℕ → Option (List ℕ)) → List ℕ → List ℕ → Option (List ℕ)
rebuild_ipv4_datagram rewritten header payload = do
  out ← rewritten header (length payload)
  some (out ++ payload)

-- The parameters: how vectors grow, and how a datagram is rebuilt from a header and a payload:
-- `rebuild_ipv4_datagram`, with etherparse's rewriting of the header.
module _ (alloc : Allocator) (rebuild : List ℕ → List ℕ → Option (List ℕ)) where
  -- The datagram that a removed group is rebuilt to. `get(..payload_len)` fails out of range.
  pub rebuild_group : FragmentGroup → ReassemblyStatus → Option ReassembledDatagram
  rebuild_group group st = do
    header ← group.header
    payload ← get_prefix group.buffer.bytes (payload_len_of group)
    bytes ← rebuild header payload
    some (record { bytes = bytes; status = st; payload_len = payload_len_of group })

  pub take_group :
      IpFragmentReassembler
      → FragmentKey
      → ReassemblyStatus
      → IpFragmentReassembler × Option ReassembledDatagram
  take_group s key st = elim (lookup key s.groups) [
    | none ↦ (s, none)
    | some group ↦ (
      record {
        groups = remove key s.groups;
        bytes_held = s.bytes_held - accounted_bytes group;
        counters = count_outcome st s.counters;
      },
      rebuild_group group st,
    )
  ]

  pub expire :
      IpFragmentReassembler → FragmentKey → IpFragmentReassembler × Option ReassembledDatagram
  expire s key = elim (lookup key s.groups) [
    | none ↦ (s, none)
    | some group ↦
        take_group
          (record s {
            counters = record (s.counters) { evicted_idle = add64 s.counters.evicted_idle 1 };
          })
          key (status group)
  ]

  -- `feed` up to the entry of the group: room under the ceiling, and no expired group.
  pub make_room : IpFragmentReassembler → FragmentKey → IpFragmentReassembler
  make_room s key =
      if not (contains_key key s.groups) && leb max_fragment_groups (length s.groups)
      then evict_oldest_until s (max_fragment_groups - 1) max_fragment_bytes_total
      else s

  pub expire_on_arrival : IpFragmentReassembler → FragmentKey → ℕ → IpFragmentReassembler
  expire_on_arrival s key now_ms = elim (lookup key s.groups) [
    | none ↦ s
    | some group ↦ if is_expired group now_ms then (expire s key).0 else s
  ]

  -- `entry(key).or_insert_with(...)`, seen now.
  pub enter : IpFragmentReassembler → FragmentKey → ℕ → FragmentGroup
  enter s key now_ms = elim (lookup key s.groups) [
    | none ↦ Group.new now_ms
    | some group ↦ record group { last_seen_ms = now_ms }
  ]

  -- What becomes of the group once the fragment is recorded.
  pub settle :
      IpFragmentReassembler
      → FragmentKey
      → ReassemblyStatus
      → Bool
      → IpFragmentReassembler × Option ReassembledDatagram
  settle s key reassembled hit_cap = take_group s key reassembled
  settle s key incomplete_truncated_at_capture hit_cap =
      take_group s key incomplete_truncated_at_capture
  settle s key incomplete_missing_frames hit_cap = elim (lookup key s.groups) [
    | none ↦ (s, none)
    | some dropped ↦
        if hit_cap
        then (
          record {
            groups = remove key s.groups;
            bytes_held = s.bytes_held - accounted_bytes dropped;
            counters = record (s.counters) {
              abandoned_without_completing = add64 s.counters.abandoned_without_completing 1;
            };
          },
          none,
        )
        else (s, none)
  ]

  -- `feed` from the entry of the group on.
  pub feed_group :
      IpFragmentReassembler
      → FragmentKey
      → FragmentGroup
      → Ipv4Fragment
      → ℕ
      → IpFragmentReassembler × Option ReassembledDatagram
  feed_group s key group fragment declared =
      if conflicts group fragment declared
      then (
        record s {
          groups = insert key group s.groups;
          counters = record (s.counters) {
            conflicting_terminal_fragments = add64 s.counters.conflicting_terminal_fragments 1;
          };
        },
        none,
      )
      else let (group', written) = record_fragment alloc group fragment declared in
        let (s', emitted) =
          settle
            (record {
              groups = insert key group' s.groups;
              bytes_held =
                  saturating_add s.bytes_held (accounted_bytes group') - accounted_bytes group;
              counters = record (s.counters) {
                conflicting_overlap_bytes =
                    add64 s.counters.conflicting_overlap_bytes written.conflicting;
              };
            })
            key (status group') written.hit_cap in
        (evict_oldest_until s' max_fragment_groups max_fragment_bytes_total, emitted)

  pub feed :
      IpFragmentReassembler → ParsedPacket → ℕ → IpFragmentReassembler × Option ReassembledDatagram
  feed s packet now_ms = elim packet.ip_fragment [
    | none ↦ (s, none)
    | some fragment ↦
        let key : FragmentKey = record {
          src = packet.src_ip;
          dst = packet.dst_ip;
          identification = fragment.identification;
          protocol = fragment.protocol;
        } in
        let ready = expire_on_arrival (make_room s key) key now_ms in
        feed_group ready key (enter ready key now_ms) fragment packet.ip_declared_payload_len
  ]

  -- The expired keys, in the order of the table.
  pub expired_keys : ℕ → Table FragmentKey FragmentGroup → List FragmentKey
  expired_keys now_ms [] = []
  expired_keys now_ms ((key, group) ∷ t) =
      let rest = expired_keys now_ms t in if is_expired group now_ms then key ∷ rest else rest

  pub expire_all :
      IpFragmentReassembler → List FragmentKey → IpFragmentReassembler × List ReassembledDatagram
  expire_all s [] = (s, [])
  expire_all s (key ∷ keys) =
      let (s', out) = expire s key in
      let (s'', outs) = expire_all s' keys in (s'', elim out [ none ↦ outs | some d ↦ d ∷ outs ])

  pub evict_stale : IpFragmentReassembler → ℕ → IpFragmentReassembler × List ReassembledDatagram
  evict_stale s now_ms =
      let (s', out) = expire_all s (expired_keys now_ms s.groups) in
      (evict_oldest_until s' max_fragment_groups max_fragment_bytes_total, out)
