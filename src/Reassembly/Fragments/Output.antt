-- ===== src/Reassembly/Fragments/Output.antt =====
-- What a group is rebuilt to.
use network_monitor.Base.{
  ℕ, ◌≤◌, ◌<◌, ◌≡◌, inl, inr, true, false, Option, some, List, arith, Option-cases, get_or, take,
  string_eq,
}
use network_monitor.Reassembly.Status.{ReassemblyStatus}
use network_monitor.Reassembly.Coverage.Prefix.{get_or_of_lt_run_length, run_length-le}
use network_monitor.Reassembly.Buffer.{Allocator}
use network_monitor.Reassembly.Fragments.Group.{FragmentGroup}
use network_monitor.Reassembly.Fragments.Group.Sound.{IsGroup}
use network_monitor.Reassembly.Fragments.{
  ReassembledDatagram, IpFragmentReassembler, FragmentKey, ParsedPacket, take_group, settle,
  feed_group, feed, rebuild_group, payload_len_of, rebuild_ipv4_datagram,
}
use network_monitor.Reassembly.Fragments.Group.{Ipv4Fragment, conflicts}
use network_monitor.Reassembly.Status.{
  reassembled, incomplete_truncated_at_capture, incomplete_missing_frames,
}
use network_monitor.Reassembly.Fragments.{key_eq}
use network_monitor.Base.{
  lookup, Bool, none, subst, sym, Bool-cases, ap, ◌∙◌, ◌++◌, length, length-take,
}
use mathlib.Core.Option.{some-injective}

rebuild_group_parts :
    (alloc : Allocator) (rebuild : List ℕ → List ℕ → Option (List ℕ)) (g : FragmentGroup)
    (st : ReassemblyStatus) (d : ReassembledDatagram) (header : List ℕ)
    → g.header ≡ some header
    → rebuild_group alloc rebuild g st ≡ some d
    → (rebuild header (take (payload_len_of g) g.buffer.bytes) ≡ some d.bytes)
      × (d.status ≡ st)
      × (d.payload_len ≡ payload_len_of g)
unfolding rebuild_group
rebuild_group_parts alloc rebuild g st d header h e = ground arith

payload_len_of-le :
    (g : FragmentGroup)
    → (payload_len_of g ≤ g.prefix_len)
      × ((end : ℕ) → g.total_len ≡ some end → payload_len_of g ≤ end)
unfolding payload_len_of
payload_len_of-le g = (ground arith, λ end e. ground arith)

rebuild_ipv4_datagram_joins :
    (rewritten : List ℕ → ℕ → Option (List ℕ)) (header payload bytes out : List ℕ)
    → rebuild_ipv4_datagram rewritten header payload ≡ some bytes
    → rewritten header (length payload) ≡ some out
    → some (out ++ payload) ≡ some bytes
unfolding rebuild_ipv4_datagram
rebuild_ipv4_datagram_joins rewritten header payload bytes out e h = ground arith

rebuild_ipv4_datagram_parts :
    (rewritten : List ℕ → ℕ → Option (List ℕ)) (header payload bytes : List ℕ)
    → rebuild_ipv4_datagram rewritten header payload ≡ some bytes
    → (out : List ℕ) × (rewritten header (length payload) ≡ some out) × (bytes ≡ out ++ payload)
unfolding rebuild_ipv4_datagram
rebuild_ipv4_datagram_parts rewritten header payload bytes e =
    elim (Option-cases (rewritten header (length payload))) [
      | inl h ↦ absurd (ground arith)
      | inr (out, h) ↦ (
        out,
        h,
        sym (
            some-injective (out ++ payload) bytes
              (rebuild_ipv4_datagram_joins rewritten header payload bytes out e h)),
      )
    ]

-- A rebuilt datagram is the group's header, rewritten for the length of the payload, then the first
-- bytes of the group, all of them held without a hole, and nothing else: the payload is not cut,
-- swapped or filled up. It has the status it was asked for, and its payload is no longer than what
-- the last fragment says, if that is known.
pub rebuild_group_lem :
    (alloc : Allocator) (rewritten : List ℕ → ℕ → Option (List ℕ)) (g : FragmentGroup)
    (st : ReassemblyStatus) (d : ReassembledDatagram)
    → IsGroup g
    → rebuild_group alloc (rebuild_ipv4_datagram rewritten) g st ≡ some d
    → (header : List ℕ) × (out : List ℕ) × (g.header ≡ some header)
      × (rewritten header d.payload_len ≡ some out)
      × (d.bytes ≡ out ++ take d.payload_len g.buffer.bytes)
      × (length (take d.payload_len g.buffer.bytes) ≡ d.payload_len)
      × (d.status ≡ st)
      × ((i : ℕ) → i < d.payload_len → get_or g.buffer.filled i false ≡ true)
      × ((end : ℕ) → g.total_len ≡ some end → d.payload_len ≤ end)
unfolding rebuild_group
rebuild_group_lem alloc rewritten g st d v e = elim (Option-cases g.header) [
  | inl h ↦ absurd (ground arith)
  | inr (header, h) ↦
      let p = rebuild_group_parts alloc (rebuild_ipv4_datagram rewritten) g st d header h e in
      let payload = take (payload_len_of g) g.buffer.bytes in
      let (out, r, joined) = rebuild_ipv4_datagram_parts rewritten header payload d.bytes p.0 in
      let l = payload_len_of-le g in
      let full : length payload ≡ payload_len_of g = omega (
        arith,
        length-take (payload_len_of g) g.buffer.bytes,
        run_length-le g.buffer.filled,
        l.0,
        v.contiguous,
        v.sound.paired,
      ) in
      let same : payload_len_of g ≡ d.payload_len = sym p.2 in
      (
        header,
        out,
        h,
        ap (rewritten header) (p.2 ∙ sym full) ∙ r,
        joined ∙ ap (λ n. out ++ take n g.buffer.bytes) same,
        subst (λ n. length (take n g.buffer.bytes) ≡ n) same full,
        p.1,
        (λ i hi. get_or_of_lt_run_length _ i (omega (arith, p.2, l.0, v.contiguous))),
        (λ end t. rw (p.2) (l.1 end t)),
      )
]

module _ (alloc : Allocator) (rebuild : List ℕ → List ℕ → Option (List ℕ)) where
  -- What is handed out was rebuilt from some header and payload.
  abbrev pub IsRebuilt : Option ReassembledDatagram → Type 0
  IsRebuilt none = Unit
  IsRebuilt (some d) =
      (header : List ℕ) × (payload : List ℕ) × (rebuild header payload ≡ some d.bytes)

  rebuild_group-some :
      (g : FragmentGroup) (st : ReassemblyStatus) (d : ReassembledDatagram)
      → rebuild_group alloc rebuild g st ≡ some d
      → IsRebuilt (some d)
  unfolding rebuild_group
  rebuild_group-some g st d e = elim (Option-cases g.header) [
    | inl h ↦ absurd (ground arith)
    | inr (header, h) ↦ (
      header,
      take (payload_len_of g) g.buffer.bytes,
      (rebuild_group_parts alloc rebuild g st d header h e).0,
    )
  ]

  rebuild_group-IsRebuilt :
      (g : FragmentGroup) (st : ReassemblyStatus) → IsRebuilt (rebuild_group alloc rebuild g st)
  rebuild_group-IsRebuilt g st = elim (Option-cases (rebuild_group alloc rebuild g st)) [
    | inl e ↦ subst IsRebuilt (sym e) tt
    | inr (d, e) ↦ subst IsRebuilt (sym e) (rebuild_group-some g st d e)
  ]

  take_group-IsRebuilt :
      (s : IpFragmentReassembler) (key : FragmentKey) (st : ReassemblyStatus)
      → IsRebuilt (take_group alloc rebuild s key st).1
  unfolding take_group
  take_group-IsRebuilt s key st = elim (Option-cases (lookup key s.groups)) [
    | inl e ↦ rw (e, take_group) tt
    | inr (g, e) ↦ rw (e, take_group) (rebuild_group-IsRebuilt g st)
  ]

  settle-IsRebuilt :
      (s : IpFragmentReassembler) (key : FragmentKey) (st : ReassemblyStatus) (hit_cap : Bool)
      → IsRebuilt (settle alloc rebuild s key st hit_cap).1
  unfolding settle
  settle-IsRebuilt s key reassembled hit_cap = take_group-IsRebuilt s key reassembled
  settle-IsRebuilt s key incomplete_truncated_at_capture hit_cap =
      take_group-IsRebuilt s key incomplete_truncated_at_capture
  settle-IsRebuilt s key incomplete_missing_frames hit_cap =
      elim (Option-cases (lookup key s.groups)) [
        | inl e ↦ rw (e, settle) tt
        | inr (g, e) ↦
            rw (e, settle)
              (elim (Bool-cases hit_cap) [ inl full ↦ rw full tt | inr room ↦ rw room tt ])
      ]

  feed_group-IsRebuilt :
      (s : IpFragmentReassembler) (key : FragmentKey) (g : FragmentGroup) (f : Ipv4Fragment)
      (declared : ℕ)
      → IsRebuilt (feed_group alloc rebuild s key g f declared).1
  unfolding feed_group
  feed_group-IsRebuilt s key g f declared = elim (Bool-cases (conflicts g f declared)) [
    | inl c ↦ rw c tt
    | inr c ↦ rw c (settle-IsRebuilt _ key _ _)
  ]

  pub feed-IsRebuilt :
      (s : IpFragmentReassembler) (packet : ParsedPacket) (now_ms : ℕ)
      → IsRebuilt (feed alloc rebuild s packet now_ms).1
  unfolding feed
  feed-IsRebuilt s packet now_ms = elim (Option-cases packet.ip_fragment) [
    | inl e ↦ rw e tt
    | inr (f, e) ↦ rw e (feed_group-IsRebuilt _ _ _ f _)
  ]
