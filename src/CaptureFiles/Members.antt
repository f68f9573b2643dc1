-- ===== src/CaptureFiles/Members.antt =====
-- The members of a ring of capture-agent/src/ring.rs, as files and as the packets that they hold.
pub mod Runs
pub mod Kept
pub mod Refinement
use network_monitor.Base.{
  same_bytes, same_bytes_iff, ℕ, zero, suc, ◌+◌, ◌-◌, ◌*◌, ◌/◌, ◌%◌, ◌^◌, ◌≤◌, ◌<◌, min, max, ◌≡◌,
  refl, sym, ap, ◌∙◌, subst, ◌≢◌, ◌↔◌, ◌⊎◌, inl, inr, Bool, true, false, not, ◌&&◌, ◌||◌, Option,
  none, some, List, [], ◌∷◌, ◌++◌, map, arith, ltb, leb, ◌==◌, if◌then◌else◌, is_some, ltb→lt,
  lt→ltb, le→ltb, leb→le, le→leb, gt→leb, ==_iff, tests, Bool-cases, Option-cases, length,
  get_or-drop, get_elem?, get_or, set, take, drop, replicate, resize, length-append, length-set,
  length-take, length-drop, length-replicate, length-resize, take-append-drop, get_or-resize,
  get_or-set_self, get_or-set_ne, get_or_beyond, get_or-take, get_or_ext, get_or-append,
  get_or-append_right, drop-append, take-append, append_assoc, append_nil, u32_mod, u64_max,
  wrapping_add32, wrapping_sub32, saturating_add, add64, Eq, string_eq, beq_refl, Table, measure_of,
  lookup, contains_key, insert, remove, total, AllValues, total-remove, total-insert, length-remove,
  length-insert, lookup-AllValues, remove-AllValues, insert-AllValues, lookup-insert,
  lookup-remove_ne, remove-insert_fresh, remove-insert_ne, remove-remove_ne,
}
use network_monitor.Base.Results.{Result, ok, err}
use network_monitor.Pcapng.Writer.{InterfaceDescriptionBlock, Writer, create}
use network_monitor.Pcapng.Reader.Entries.{ParsedPacket}
use network_monitor.Pcapng.RoundTrip.File.{read_file, interface_written}
use network_monitor.CaptureFiles.Paths.{RingConfig, BasePath, member_path, partial_path}
use network_monitor.CaptureFiles.Paths.Distinct.{member_path-injective, partial_path-member_path}
use network_monitor.CaptureFiles.Files.{
  path_eq, Files, Opening, opened, refused, opened_cut, open_next, created, renamed,
  finish_and_rename,
}
use network_monitor.CaptureFiles.Complete.{rename_of_inserted}

-- A file that is read as these packets, to its end.
abbrev pub IsReadAs :
    (List ℕ → List ℕ) → InterfaceDescriptionBlock → List ParsedPacket → List ℕ → Type 0
IsReadAs lossy idb packets content =
    (calls : ℕ) × (length packets < calls)
    × (read_file lossy calls content ≡ ok (interface_written idb, packets))

ne-beq : (a b : List ℕ) → a ≢ b → same_bytes a b ≡ false
ne-beq a b h = elim (Bool-cases (same_bytes a b)) [
  | inl same ↦ absurd (h ((same_bytes_iff a b).0 same))
  | inr other ↦ other
]

module _ (lossy : List ℕ → List ℕ) (idb : InterfaceDescriptionBlock) (base : BasePath)
    (ring : RingConfig) where
  -- The members from a number on are there under their final names, and hold these packets.
  abbrev pub HasMembers : ℕ → List (List ParsedPacket) → Files → Type 0
  HasMembers first [] files = Unit
  HasMembers first (packets ∷ rest) files =
      ((content : List ℕ) × (lookup (member_path base (some ring) first) files ≡ some content)
        × IsReadAs lossy idb packets content)
      × HasMembers (suc first) rest files

  -- A path is no member's.
  abbrev IsOther : ℕ → ℕ → List ℕ → Type 0
  IsOther first last path = (j : ℕ) → first ≤ j → j < last → path ≢ member_path base (some ring) j

  pub insert-HasMembers :
      (path content : List ℕ) (first : ℕ) (past : List (List ParsedPacket)) (files : Files)
      → IsOther first (first + length past) path
      → HasMembers first past files
      → HasMembers first past (insert path content files)
  insert-HasMembers path content first [] files o h = tt
  insert-HasMembers path content first (packets ∷ rest) files o h =
      let member = member_path base (some ring) first in
      let other = ne-beq path member (o first (omega arith) (omega arith)) in
      (
        (h.0.0, lookup-insert path member content files ∙ (rw other h.0.1), h.0.2),
        insert-HasMembers path content (suc first) rest files
            (λ j l u. o j (omega (arith, l)) (omega (arith, u))) h.1,
      )

  pub remove-HasMembers :
      (path : List ℕ) (first : ℕ) (past : List (List ParsedPacket)) (files : Files)
      → IsOther first (first + length past) path
      → HasMembers first past files
      → HasMembers first past (remove path files)
  remove-HasMembers path first [] files o h = tt
  remove-HasMembers path first (packets ∷ rest) files o h =
      let member = member_path base (some ring) first in
      let other = ne-beq path member (o first (omega arith) (omega arith)) in
      (
        (h.0.0, lookup-remove_ne path member files other ∙ h.0.1, h.0.2),
        remove-HasMembers path (suc first) rest files
            (λ j l u. o j (omega (arith, l)) (omega (arith, u))) h.1,
      )

  pub snoc-HasMembers :
      (first : ℕ) (past : List (List ParsedPacket)) (packets : List ParsedPacket) (files : Files)
      (content : List ℕ)
      → lookup (member_path base (some ring) (first + length past)) files ≡ some content
      → IsReadAs lossy idb packets content
      → HasMembers first past files
      → HasMembers first (past ++ (packets ∷ [])) files
  snoc-HasMembers first [] packets files content e r h =
      let here : first + 0 ≡ first = omega arith in
      ((content, ap (λ n. lookup (member_path base (some ring) n) files) (sym here) ∙ e, r), tt)
  snoc-HasMembers first (p ∷ past) packets files content e r h =
      let next : suc first + length past ≡ first + suc (length past) = omega arith in
      (
        h.0,
        snoc-HasMembers (suc first) past packets files content
            (ap (λ n. lookup (member_path base (some ring) n) files) next ∙ e) r h.1,
      )

  abbrev pub KeepsMembers : List (List ParsedPacket) → Option Writer × Files → Type 0
  KeepsMembers past r = HasMembers 1 past r.1

  -- The first blocks of another file touch no member.
  pub created-HasMembers :
      (opening : Opening) (known : Bool) (index : ℕ) (past : List (List ParsedPacket))
      (files : Files) (w : Writer)
      → HasMembers 1 past files
      → KeepsMembers past (
          if known
          then (none, files)
          else created opening files (partial_path (member_path base (some ring) index)) w)
  created-HasMembers opening true index past files w h = h
  created-HasMembers opened false index past files w h =
      insert-HasMembers (partial_path (member_path base (some ring) index)) w.file 1 past files
        (λ j l u. partial_path-member_path base ring index j) h
  created-HasMembers refused false index past files w h = h
  created-HasMembers (opened_cut bytes) false index past files w h =
      insert-HasMembers (partial_path (member_path base (some ring) index)) (take bytes w.file) 1
        past files (λ j l u. partial_path-member_path base ring index j) h

  -- Closing the file behind the members makes it one of them.
  pub finish_and_rename-HasMembers :
      (past : List (List ParsedPacket)) (packets : List ParsedPacket) (files : Files) (w : Writer)
      → suc (length past) < u32_mod
      → IsReadAs lossy idb packets w.file
      → HasMembers 1 past files
      → HasMembers 1
          (past ++ (packets ∷ []))
          (finish_and_rename renamed files w (member_path base (some ring) (suc (length past))))
  unfolding finish_and_rename
  finish_and_rename-HasMembers past packets files w u r h =
      let final = member_path base (some ring) (suc (length past)) in
      let partial = partial_path final in
      let partial_other : IsOther 1 (1 + length past) partial =
        λ j l v. partial_path-member_path base ring (suc (length past)) j in
      let final_other : IsOther 1 (1 + length past) final = λ j l v e.
        let same = member_path-injective base ring (suc (length past)) j u (omega (arith, u)) e in
        omega (arith, same) in
      let closed = remove partial (insert partial w.file files) in
      let here : suc (length past) ≡ 1 + length past = omega arith in
      rw (rename_of_inserted partial final w.file files) (
        snoc-HasMembers 1 past packets (insert final w.file closed) w.file
          (ap (λ n. lookup (member_path base (some ring) n) (insert final w.file closed)) (sym here)
            ∙ (lookup-insert final final w.file closed ∙ rw (beq_refl ⦃e = path_eq⦄ final) refl))
          r
          (insert-HasMembers final w.file 1 past closed final_other (
            remove-HasMembers partial 1 past (insert partial w.file files) partial_other
              (insert-HasMembers partial w.file 1 past files partial_other h))))
