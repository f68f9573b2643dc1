-- ===== src/CaptureFiles/Members/Kept.antt =====
-- What a run of capture-agent/src/ring.rs keeps when it gets a block or the next file.
use network_monitor.Base.{
  ℕ, suc, ◌<◌, ◌≡◌, refl, sym, ap, ◌∙◌, subst, Bool, true, false, Option, none, some, List, [], ◌∷◌,
  ◌++◌, arith, if◌then◌else◌, length, length-append, append_assoc, append_nil, u32_mod, string_eq,
  contains_key,
}
use network_monitor.Pcapng.Writer.{Writer, create}
use network_monitor.Pcapng.Reader.Entries.{ParsedPacket}
use network_monitor.Pcapng.RoundTrip.File.{
  Entry, write_entry, write_entries, AreEntries, packets_of, read_file-write_entries,
}
use network_monitor.CaptureFiles.Paths.{RingConfig, member_path, partial_path}
use network_monitor.CaptureFiles.Files.{
  path_eq, Files, Opening, opened, refused, opened_cut, renamed, open_next, created,
  finish_and_rename,
}
use network_monitor.CaptureFiles.Run.{RingState, StartRequest, replaced, Answers, final_path}
use network_monitor.CaptureFiles.Complete.{
  IsHeading, write_entry-write_entries, snoc-AreEntries, length-packets_of,
}
use network_monitor.CaptureFiles.Members.{
  IsReadAs, HasMembers, created-HasMembers, finish_and_rename-HasMembers,
}
use network_monitor.CaptureFiles.Members.Runs.{all_packets, snoc-all_packets, packets_of-append}

-- The run has what was asked for.
pub record IsAsked (request : StartRequest) (ring : RingConfig) (s : RingState) : Type 0 where
  pub base_is : s.base_path ≡ request.base_path
  pub ring_is : s.ring ≡ some ring
  pub idb_is : s.idb ≡ request.idb
  pub hostname_is : s.hostname ≡ request.hostname
  pub version_is : s.agent_version ≡ request.agent_version

module _ (lossy : List ℕ → List ℕ) (request : StartRequest) (ring : RingConfig)
    (heading : IsHeading lossy request.idb request.hostname request.agent_version) where
  abbrev pub first_blocks : Writer
  first_blocks = create request.idb request.hostname request.agent_version

  -- The members so far and what was written to the current file make up the packets.
  pub record Keeps (packets : List ParsedPacket) (s : RingState) (files : Files) : Type 0 where
    pub asked : IsAsked request ring s
    pub past : List (List ParsedPacket)
    pub entries : List Entry
    pub are_entries : AreEntries entries
    pub file_is : s.writer.file ≡ (write_entries first_blocks entries).file
    pub index_is : s.current_index ≡ suc (length past)
    pub index_fits : s.current_index < u32_mod
    pub members : HasMembers lossy request.idb request.base_path ring 1 past files
    pub packets_are : all_packets past ++ packets_of request.idb.link_type entries ≡ packets

  pub add_entry :
      (packets : List ParsedPacket) (s s' : RingState) (files : Files) (e : Entry)
      → IsAsked request ring s'
      → s'.current_index ≡ s.current_index
      → s'.writer.file ≡ (write_entry s.writer e).file
      → AreEntries (e ∷ [])
      → Keeps packets s files
      → Keeps (packets ++ packets_of request.idb.link_type (e ∷ [])) s' files
  add_entry packets s s' files e asked index file v k = record {
    asked = asked;
    past = k.past;
    entries = k.entries ++ (e ∷ []);
    are_entries = snoc-AreEntries k.entries e k.are_entries v;
    file_is = file ∙ write_entry-write_entries first_blocks s.writer k.entries e k.file_is;
    index_is = index ∙ k.index_is;
    index_fits = omega (arith, index, k.index_fits);
    members = k.members;
    packets_are =
        ap (λ l. all_packets k.past ++ l) (packets_of-append request.idb.link_type k.entries e)
        ∙ (sym (
              append_assoc (all_packets k.past) (packets_of request.idb.link_type k.entries)
                (packets_of request.idb.link_type (e ∷ [])))
            ∙ ap (λ l. l ++ packets_of request.idb.link_type (e ∷ [])) k.packets_are);
  }

  -- The current file, as it would be read.
  read_current :
      (s : RingState) (entries : List Entry)
      → AreEntries entries
      → s.writer.file ≡ (write_entries first_blocks entries).file
      → IsReadAs lossy request.idb (packets_of request.idb.link_type entries) s.writer.file
  read_current s entries v h = (
    suc (length entries),
    omega (arith, length-packets_of request.idb.link_type entries),
    rw h (
        read_file-write_entries lossy
          (record { hostname = request.hostname; agent_version = request.agent_version })
          request.idb entries heading.name_kept heading.application_fits heading.name_fits
          heading.snaplen_fits v),
  )

  final_path_is :
      (packets : List ParsedPacket) (s : RingState) (files : Files) (k : Keeps packets s files)
      → final_path s ≡ member_path request.base_path (some ring) (suc (length k.past))
  final_path_is packets s files k = rw (k.asked.base_is, k.asked.ring_is, k.index_is) refl

  -- Closing the current file leaves it behind the members.
  pub closed-HasMembers :
      (packets : List ParsedPacket) (s : RingState) (files : Files) (k : Keeps packets s files)
      (files' : Files)
      → HasMembers lossy request.idb request.base_path ring 1 k.past files'
      → HasMembers lossy request.idb request.base_path ring 1
          (k.past ++ (packets_of request.idb.link_type k.entries ∷ []))
          (finish_and_rename renamed files' s.writer (final_path s))
  closed-HasMembers packets s files k files' h =
      let fits : suc (length k.past) < u32_mod = omega (arith, k.index_is, k.index_fits) in
      let closed =
        finish_and_rename-HasMembers lossy request.idb request.base_path ring k.past
          (packets_of request.idb.link_type k.entries) files' s.writer fits
          (read_current s k.entries k.are_entries k.file_is) h in
      subst
        (λ path.
          HasMembers lossy request.idb request.base_path ring 1
            (k.past ++ (packets_of request.idb.link_type k.entries ∷ []))
            (finish_and_rename renamed files' s.writer path))
        (sym (final_path_is packets s files k)) closed

  abbrev pub OpenedOver : List (List ParsedPacket) → Option Writer × Files → Type 0
  OpenedOver past (none, files) = HasMembers lossy request.idb request.base_path ring 1 past files
  OpenedOver past (some w, files) =
      (w ≡ first_blocks) × HasMembers lossy request.idb request.base_path ring 1 past files

  pub replaced-Keeps :
      (answers : Answers) (packets : List ParsedPacket) (s : RingState) (files : Files)
      (k : Keeps packets s files) (r : Option Writer × Files)
      → answers.closing ≡ renamed
      → suc s.current_index < u32_mod
      → OpenedOver k.past r
      → Keeps packets (replaced answers s r).0 (replaced answers s r).1
  replaced-Keeps answers packets s files k (none, files') c u o = record {
    asked = k.asked;
    past = k.past;
    entries = k.entries;
    are_entries = k.are_entries;
    file_is = k.file_is;
    index_is = k.index_is;
    index_fits = k.index_fits;
    members = o;
    packets_are = k.packets_are;
  }
  replaced-Keeps answers packets s files k (some w, files') c u o = record {
    asked = record {
      base_is = k.asked.base_is;
      ring_is = k.asked.ring_is;
      idb_is = k.asked.idb_is;
      hostname_is = k.asked.hostname_is;
      version_is = k.asked.version_is;
    };
    past = k.past ++ (packets_of request.idb.link_type k.entries ∷ []);
    entries = [];
    are_entries = tt;
    file_is = ap (λ v. v.file) o.0;
    index_is = omega (
      arith,
      k.index_is,
      length-append k.past (packets_of request.idb.link_type k.entries ∷ []),
      u,
    );
    index_fits = omega (arith, u);
    members = rw c (closed-HasMembers packets s files k files' o.1);
    packets_are =
        append_nil (all_packets (k.past ++ (packets_of request.idb.link_type k.entries ∷ [])))
        ∙ (snoc-all_packets k.past (packets_of request.idb.link_type k.entries) ∙ k.packets_are);
  }

  created-OpenedOver :
      (past : List (List ParsedPacket)) (opening : Opening) (known : Bool) (index : ℕ)
      (files : Files)
      → HasMembers lossy request.idb request.base_path ring 1 past files
      → OpenedOver past (
          if known
          then (none, files)
          else created opening files
              (partial_path (member_path request.base_path (some ring) index))
              first_blocks)
  created-OpenedOver past opening true index files h = h
  created-OpenedOver past opened false index files h = (
    refl,
    created-HasMembers lossy request.idb request.base_path ring opened false index past files
        first_blocks h,
  )
  created-OpenedOver past refused false index files h = h
  created-OpenedOver past (opened_cut bytes) false index files h =
      created-HasMembers lossy request.idb request.base_path ring (opened_cut bytes) false index
        past files first_blocks h

  pub open_next-OpenedOver :
      (past : List (List ParsedPacket)) (opening : Opening) (index : ℕ) (files : Files)
      (s : RingState)
      → IsAsked request ring s
      → HasMembers lossy request.idb request.base_path ring 1 past files
      → OpenedOver past
          (open_next opening files s.base_path s.ring index s.idb s.hostname s.agent_version)
  unfolding open_next
  open_next-OpenedOver past opening index files s a h =
      rw (a.base_is, a.ring_is, a.idb_is, a.hostname_is, a.version_is)
        (created-OpenedOver past opening
          (contains_key (partial_path (member_path request.base_path (some ring) index)) files)
          index files h)
