-- ===== src/CaptureFiles/Complete.antt =====
-- The files that capture-agent/src/ring.rs leaves under final names.
use network_monitor.Base.{
  same_bytes, same_bytes_iff, ℕ, zero, suc, ◌+◌, ◌-◌, ◌*◌, ◌/◌, ◌%◌, ◌^◌, ◌≤◌, ◌<◌, min, max, ◌≡◌,
  refl, sym, ap, ◌∙◌, subst, ◌≢◌, ◌↔◌, ◌⊎◌, inl, inr, Bool, true, false, not, ◌&&◌, ◌||◌, Option,
  none, some, List, [], ◌∷◌, ◌++◌, map, arith, ltb, leb, ◌==◌, if◌then◌else◌, is_some, ltb→lt,
  lt→ltb, le→ltb, leb→le, le→leb, gt→leb, ==_iff, tests, Bool-cases, Option-cases, length,
  get_or-drop, get_elem?, get_or, set, take, drop, replicate, resize, length-append, length-set,
  length-take, length-drop, length-replicate, length-resize, take-append-drop, get_or-resize,
  get_or-set_self, get_or-set_ne, get_or_beyond, get_or-take, get_or_ext, get_or-append,
  get_or-append_right, drop-append, take-append, append_assoc, append_nil, u32_mod, u64_max,
  wrapping_add32, wrapping_sub32, saturating_add, add64, Eq, string_eq, beq_refl, Table, measure_of,
  lookup, contains_key, insert, remove, total, AllValues, total-remove, total-insert, length-remove,
  length-insert, lookup-AllValues, remove-AllValues, insert-AllValues, lookup-insert,
  lookup-remove_ne, remove-insert_fresh, remove-insert_ne, remove-remove_ne,
}
pub mod Calls
pub mod Commands
use network_monitor.Base.Results.{Result, ok, err}
use network_monitor.Pcapng.Codec.{LinkType, Direction}
use network_monitor.Pcapng.Writer.{
  InterfaceDescriptionBlock, userappl, Writer, create, write_interface_stats,
}
use network_monitor.Pcapng.Writer.{write_packet as write_block}
use network_monitor.Pcapng.Reader.Entries.{ParsedInterface, ParsedPacket}
use network_monitor.Pcapng.RoundTrip.File.{
  Entry, packet, stats, write_entry, write_entries, AreEntries, read_file, read_file-write_entries,
  interface_written, packets_of,
}
use network_monitor.CaptureFiles.Paths.{
  RingConfig, AutostopConfig, BasePath, member_path, partial_path,
}
use network_monitor.CaptureFiles.Files.{
  path_eq, Files, Opening, opened, refused, opened_cut, Closing, renamed, unsynced, unrenamed,
  Writing, written, open_next, finish_and_rename, rename, try_write_packet, try_write_stats,
}

-- Every file satisfies a predicate of its path and content.
abbrev pub EachFile {ℓ} : (List ℕ → List ℕ → Type ℓ) → Files → Type ℓ
EachFile P [] = Unit
EachFile P ((path, content) ∷ files) = P path content × EachFile P files

module _ {ℓ} (P : List ℕ → List ℕ → Type ℓ) where
  pub insert-EachFile :
      (path content : List ℕ) (files : Files)
      → P path content
      → EachFile P files
      → EachFile P (insert path content files)
  unfolding insert
  insert-EachFile path content [] p a = (p, tt)
  insert-EachFile path content ((q, c) ∷ files) p a = elim (Bool-cases (same_bytes q path)) [
    | inl b ↦ rw b (subst (λ x. P x content) (sym ((same_bytes_iff q path).0 b)) p, a.1)
    | inr b ↦ rw b (a.0, insert-EachFile path content files p a.1)
  ]

  pub remove-EachFile :
      (path : List ℕ) (files : Files) → EachFile P files → EachFile P (remove path files)
  unfolding remove
  remove-EachFile path [] a = tt
  remove-EachFile path ((q, c) ∷ files) a = elim (Bool-cases (same_bytes q path)) [
    | inl b ↦ rw b a.1
    | inr b ↦ rw b (a.0, remove-EachFile path files a.1)
  ]

abbrev pub IsPartialName : List ℕ → Type 0
IsPartialName path = (final_path : List ℕ) × (path ≡ partial_path final_path)

-- A file that is read from its first block to its end: with fewer packets than calls, a call has
-- found the end.
abbrev pub IsWhole : (List ℕ → List ℕ) → List ℕ → Type 0
IsWhole lossy content =
    (calls : ℕ) × (interface : ParsedInterface) × (packets : List ParsedPacket) × (length packets
      < calls)
    × (read_file lossy calls content ≡ ok (interface, packets))

abbrev pub IsFinished : (List ℕ → List ℕ) → List ℕ → List ℕ → Type 0
IsFinished lossy path content = IsPartialName path ⊎ IsWhole lossy content

-- What a file is opened with fits in its first blocks.
pub record IsHeading (lossy : List ℕ → List ℕ) (idb : InterfaceDescriptionBlock)
    (hostname agent_version : List ℕ) : Type 0 where
  pub name_kept : lossy idb.interface_name ≡ idb.interface_name
  pub application_fits :
      length (userappl (record { hostname = hostname; agent_version = agent_version })) < 65536
  pub name_fits : length idb.interface_name < 65536
  pub snaplen_fits : idb.snaplen < u32_mod

-- A writer's file is what it was opened with and whole blocks.
pub record Holds (idb : InterfaceDescriptionBlock) (hostname agent_version : List ℕ) (w : Writer)
    : Type 0 where
  pub entries : List Entry
  pub are_entries : AreEntries entries
  pub file_is : w.file ≡ (write_entries (create idb hostname agent_version) entries).file

pub length-packets_of :
    (link_type : LinkType) (es : List Entry) → length (packets_of link_type es) ≤ length es
length-packets_of link_type [] = omega arith
length-packets_of link_type (packet timestamp direction frame ∷ es) =
    omega (arith, length-packets_of link_type es)
length-packets_of link_type (stats timestamp received dropped ∷ es) =
    omega (arith, length-packets_of link_type es)

pub Holds-IsWhole :
    (lossy : List ℕ → List ℕ) (idb : InterfaceDescriptionBlock) (hostname agent_version : List ℕ)
    (w : Writer)
    → IsHeading lossy idb hostname agent_version
    → Holds idb hostname agent_version w
    → IsWhole lossy w.file
Holds-IsWhole lossy idb hostname agent_version w heading h = (
  suc (length h.entries),
  interface_written idb,
  packets_of idb.link_type h.entries,
  omega (arith, length-packets_of idb.link_type h.entries),
  rw h.file_is (
      read_file-write_entries lossy (record { hostname = hostname; agent_version = agent_version })
        idb h.entries heading.name_kept heading.application_fits heading.name_fits
        heading.snaplen_fits h.are_entries),
)

pub created-Holds :
    (idb : InterfaceDescriptionBlock) (hostname agent_version : List ℕ)
    → Holds idb hostname agent_version (create idb hostname agent_version)
created-Holds idb hostname agent_version = record { entries = []; are_entries = tt; file_is = refl }

write_entries-snoc :
    (w : Writer) (es : List Entry) (e : Entry)
    → write_entries w (es ++ (e ∷ [])) ≡ write_entry (write_entries w es) e
write_entries-snoc w [] e = refl
write_entries-snoc w (d ∷ es) e = write_entries-snoc (write_entry w d) es e

pub snoc-AreEntries :
    (es : List Entry) (e : Entry)
    → AreEntries es
    → AreEntries (e ∷ [])
    → AreEntries (es ++ (e ∷ []))
snoc-AreEntries [] e a b = b
snoc-AreEntries (packet timestamp direction frame ∷ es) e a b =
    (a.0, a.1, snoc-AreEntries es e a.2 b)
snoc-AreEntries (stats timestamp received dropped ∷ es) e a b = snoc-AreEntries es e a b

-- A block is appended to the file alone.
write_entry-file :
    (v w : Writer) (e : Entry) → v.file ≡ w.file → (write_entry v e).file ≡ (write_entry w e).file
unfolding write_block write_interface_stats
write_entry-file v w (packet timestamp direction frame) h = rw h refl
write_entry-file v w (stats timestamp received dropped) h = rw h refl

pub write_entry-write_entries :
    (v w : Writer) (es : List Entry) (e : Entry)
    → w.file ≡ (write_entries v es).file
    → (write_entry w e).file ≡ (write_entries v (es ++ (e ∷ []))).file
write_entry-write_entries v w es e h =
    write_entry-file w (write_entries v es) e h ∙ ap (λ u. u.file) (sym (write_entries-snoc v es e))

pub write_entry-Holds :
    (idb : InterfaceDescriptionBlock) (hostname agent_version : List ℕ) (w : Writer) (e : Entry)
    → AreEntries (e ∷ [])
    → Holds idb hostname agent_version w
    → Holds idb hostname agent_version (write_entry w e)
write_entry-Holds idb hostname agent_version w e a h = record {
  entries = h.entries ++ (e ∷ []);
  are_entries = snoc-AreEntries h.entries e h.are_entries a;
  file_is = write_entry-write_entries (create idb hostname agent_version) w h.entries e h.file_is;
}

pub rename_of_inserted :
    (from to content : List ℕ) (files : Files)
    → rename from to (insert from content files)
      ≡ insert to content (remove from (insert from content files))
unfolding rename
rename_of_inserted from to content files =
    rw (lookup-insert from from content files, beq_refl ⦃e = path_eq⦄ from) refl

module _ (lossy : List ℕ → List ℕ) where
  insert_partial :
      (final_path content : List ℕ) (files : Files)
      → EachFile (IsFinished lossy) files
      → EachFile (IsFinished lossy) (insert (partial_path final_path) content files)
  insert_partial final_path content files a =
      insert-EachFile (IsFinished lossy) (partial_path final_path) content files
        (inl (final_path, refl)) a

  pub finish_and_rename-IsFinished :
      (closing : Closing) (files : Files) (w : Writer) (final_path : List ℕ)
      → IsWhole lossy w.file
      → EachFile (IsFinished lossy) files
      → EachFile (IsFinished lossy) (finish_and_rename closing files w final_path)
  unfolding finish_and_rename
  finish_and_rename-IsFinished renamed files w final_path h a =
      rw (rename_of_inserted (partial_path final_path) final_path w.file files) (
        insert-EachFile (IsFinished lossy) final_path w.file _ (inr h) (
          remove-EachFile (IsFinished lossy) (partial_path final_path) _
            (insert_partial final_path w.file files a)))
  finish_and_rename-IsFinished unsynced files w final_path h a =
      insert_partial final_path w.file files a
  finish_and_rename-IsFinished unrenamed files w final_path h a =
      insert_partial final_path w.file files a
