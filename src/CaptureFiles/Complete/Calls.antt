-- ===== src/CaptureFiles/Complete/Calls.antt =====
-- What a call of capture-agent/src/ring.rs leaves, when every block is written in full.
use network_monitor.Base.{
  ℕ, ◌≡◌, Bool, true, false, Option, none, some, List, ltb, if◌then◌else◌, take, string_eq,
  contains_key,
}
use network_monitor.Base.Results.{Result}
use Prim.Native.String.{String}
use network_monitor.Pcapng.Writer.{create, Writer, InterfaceDescriptionBlock}
use network_monitor.Pcapng.RoundTrip.File.{stats}
use network_monitor.CaptureFiles.Paths.{RingConfig, BasePath, member_path, partial_path}
use network_monitor.CaptureFiles.Files.{
  path_eq, Files, Opening, opened, refused, opened_cut, Writing, written, open_next, created,
  Closing, try_write_stats,
}
use network_monitor.CaptureFiles.Run.{
  RingState, StartRequest, StartError, started, replaced, rotated, ended, start, stop, Answers,
  on_tick, rotate, should_rotate, low_disk_floor_bytes, final_path,
}
use network_monitor.CaptureFiles.Complete.{
  EachFile, IsFinished, IsHeading, Holds, Holds-IsWhole, created-Holds, write_entry-Holds,
  finish_and_rename-IsFinished, insert_partial,
}

pub record IsRun (lossy : List ℕ → List ℕ) (s : RingState) : Type 0 where
  pub heading : IsHeading lossy s.idb s.hostname s.agent_version
  pub holds : Holds s.idb s.hostname s.agent_version s.writer

-- There is no run, or a sound one.
abbrev pub IsCurrent : (List ℕ → List ℕ) → Option RingState → Type 0
IsCurrent lossy none = Unit
IsCurrent lossy (some s) = IsRun lossy s

-- The pair that a call leaves.
abbrev pub Leaves : (List ℕ → List ℕ) → Option RingState → Files → Type 0
Leaves lossy current files = IsCurrent lossy current × EachFile (IsFinished lossy) files

-- What was opened is sound, if it was, and so are the files.
abbrev OpenedWell :
    (List ℕ → List ℕ) → InterfaceDescriptionBlock → List ℕ → List ℕ → Option Writer × Files → Type 0
OpenedWell lossy idb hostname agent_version (none, files) = EachFile (IsFinished lossy) files
OpenedWell lossy idb hostname agent_version (some w, files) =
    Holds idb hostname agent_version w × EachFile (IsFinished lossy) files

of_if {ℓ κ} :
    {A : Type ℓ} (P : A → Type κ) (c : Bool) (x y : A) → P x → P y → P (if c then x else y)
of_if P true x y p q = p
of_if P false x y p q = q

module _ (lossy : List ℕ → List ℕ) where
  created-OpenedWell :
      (opening : Opening) (files : Files) (final_path : List ℕ) (idb : InterfaceDescriptionBlock)
      (hostname agent_version : List ℕ)
      → EachFile (IsFinished lossy) files
      → OpenedWell lossy idb hostname agent_version
          (created opening files (partial_path final_path) (create idb hostname agent_version))
  created-OpenedWell opened files final_path idb hostname agent_version a = (
    created-Holds idb hostname agent_version,
    insert_partial lossy final_path (create idb hostname agent_version).file files a,
  )
  created-OpenedWell refused files final_path idb hostname agent_version a = a
  created-OpenedWell (opened_cut bytes) files final_path idb hostname agent_version a =
      insert_partial lossy final_path (take bytes (create idb hostname agent_version).file) files a

  open_next-OpenedWell :
      (opening : Opening) (files : Files) (base : BasePath) (ring : Option RingConfig) (index : ℕ)
      (idb : InterfaceDescriptionBlock) (hostname agent_version : List ℕ)
      → EachFile (IsFinished lossy) files
      → OpenedWell lossy idb hostname agent_version
          (open_next opening files base ring index idb hostname agent_version)
  unfolding open_next
  open_next-OpenedWell opening files base ring index idb hostname agent_version a =
      of_if (OpenedWell lossy idb hostname agent_version)
        (contains_key (partial_path (member_path base ring index)) files) _ _ a
        (created-OpenedWell opening files (member_path base ring index) idb hostname agent_version
          a)

  started-Leaves :
      (state : Option RingState) (now : ℕ) (request : StartRequest) (r : Option Writer × Files)
      → IsCurrent lossy state
      → IsHeading lossy request.idb request.hostname request.agent_version
      → OpenedWell lossy request.idb request.hostname request.agent_version r
      → Leaves lossy (started state now request r).1 (started state now request r).2
  started-Leaves state now request (none, files) c h a = (c, a)
  started-Leaves state now request (some w, files) c h a =
      (record { heading = h; holds = a.0 }, a.1)

  pub start-Leaves :
      (free : Option ℕ) (opening : Opening) (now : ℕ) (state : Option RingState) (files : Files)
      (request : StartRequest)
      → IsCurrent lossy state
      → EachFile (IsFinished lossy) files
      → IsHeading lossy request.idb request.hostname request.agent_version
      → Leaves lossy
          (start free opening now state files request).1
          (start free opening now state files request).2
  unfolding start
  start-Leaves none opening now state files request c a h = (c, a)
  start-Leaves (some free) opening now state files request c a h =
      of_if (λ (r : Result StartError (Unit {0}) × Option RingState × Files). Leaves lossy r.1 r.2)
        (ltb free low_disk_floor_bytes) _ _ (c, a)
        (started-Leaves state now request _ c h (
          open_next-OpenedWell opening files request.base_path request.ring 1 request.idb
            request.hostname request.agent_version a))

  pub stop-Leaves :
      (closing : Closing) (state : Option RingState) (files : Files)
      → IsCurrent lossy state
      → EachFile (IsFinished lossy) files
      → Leaves lossy (stop closing state files).0 (stop closing state files).1
  unfolding stop
  stop-Leaves closing none files c a = (tt, a)
  stop-Leaves closing (some s) files c a = (
    tt,
    finish_and_rename-IsFinished lossy closing files s.writer (final_path s)
        (Holds-IsWhole lossy s.idb s.hostname s.agent_version s.writer c.heading c.holds) a,
  )

  replaced-Leaves :
      (answers : Answers) (s : RingState) (r : Option Writer × Files)
      → IsRun lossy s
      → OpenedWell lossy s.idb s.hostname s.agent_version r
      → Leaves lossy (some (replaced answers s r).0) (replaced answers s r).1
  replaced-Leaves answers s (none, files) c a = (c, a)
  replaced-Leaves answers s (some w, files) c a = (
    record { heading = c.heading; holds = a.0 },
    finish_and_rename-IsFinished lossy answers.closing files s.writer (final_path s)
        (Holds-IsWhole lossy s.idb s.hostname s.agent_version s.writer c.heading c.holds) a.1,
  )

  rotated-Leaves :
      (due : Bool) (answers : Answers) (s : RingState) (files : Files)
      → IsRun lossy s
      → EachFile (IsFinished lossy) files
      → Leaves lossy (some (rotated due answers s files).0) (rotated due answers s files).1
  unfolding rotate
  rotated-Leaves true answers s files c a = replaced-Leaves answers s _ c (
      open_next-OpenedWell answers.opening files s.base_path s.ring _ s.idb s.hostname
        s.agent_version a)
  rotated-Leaves false answers s files c a = (c, a)

  ended-Leaves :
      (answers : Answers) (s : RingState) (files : Files) (reason : Option String)
      → IsRun lossy s
      → EachFile (IsFinished lossy) files
      → Leaves lossy (ended answers s files reason).1 (ended answers s files reason).2
  ended-Leaves answers s files (some reason) c a = (
    tt,
    finish_and_rename-IsFinished lossy answers.closing files s.writer (final_path s)
        (Holds-IsWhole lossy s.idb s.hostname s.agent_version s.writer c.heading c.holds) a,
  )
  ended-Leaves answers s files none c a =
      rotated-Leaves (should_rotate answers.now s) answers s files c a

  try_write_stats-Holds :
      (idb : InterfaceDescriptionBlock) (hostname agent_version : List ℕ) (writing : Writing)
      (w : Writer) (timestamp received dropped : ℕ)
      → writing ≡ written
      → Holds idb hostname agent_version w
      → Holds idb hostname agent_version (try_write_stats writing w timestamp received dropped)
  unfolding try_write_stats
  try_write_stats-Holds idb hostname agent_version writing w timestamp received dropped e h =
      rw e (write_entry-Holds idb hostname agent_version w (stats timestamp received dropped) tt h)

  pub on_tick-Leaves :
      (answers : Answers) (received dropped : ℕ) (state : Option RingState) (files : Files)
      → answers.writing ≡ written
      → IsCurrent lossy state
      → EachFile (IsFinished lossy) files
      → Leaves lossy
          (on_tick answers received dropped state files).1
          (on_tick answers received dropped state files).2
  unfolding on_tick
  on_tick-Leaves answers received dropped none files w c a = (tt, a)
  on_tick-Leaves answers received dropped (some s) files w c a =
      ended-Leaves answers _ files _
        (record {
          heading = c.heading;
          holds =
              try_write_stats-Holds s.idb s.hostname s.agent_version answers.writing s.writer
                answers.wall_clock received dropped w c.holds;
        })
        a
