-- ===== src/CaptureFiles/Rotation.antt =====
-- What a tick of capture-agent/src/ring.rs keeps: the totals of a run, and the run itself when no
-- file can be opened.
use network_monitor.Base.{
  ℕ, ◌≡◌, refl, ap, subst, ◌⊎◌, inl, inr, Bool, true, false, Option, none, some, List, arith,
  if◌then◌else◌, is_some, wrapping_add32, add64, string_eq, contains_key, total,
}
use Prim.Native.String.{String}
use network_monitor.Pcapng.Writer.{InterfaceDescriptionBlock, Writer, create, write_interface_stats}
use network_monitor.CaptureFiles.Paths.{RingConfig, BasePath, member_path, partial_path}
use network_monitor.CaptureFiles.Files.{
  path_eq, Files, Opening, opened, refused, opened_cut, Writing, written, written_cut, open_next,
  created, try_write_stats,
}
use network_monitor.CaptureFiles.Run.{
  RingState, Answers, Status, on_tick, rotate, rotated, replaced, ended, end_reason, with_stats,
  should_rotate, bytes_written,
}

-- Nothing is lost to a total: a sum of `u64` that is in range stays when 0 is added to it.
add64_zero : (a b : ℕ) → add64 (add64 a b) 0 ≡ add64 a b
add64_zero a b = omega arith

-- The bytes of what was opened.
abbrev OpensEmpty : Option Writer × Files → Type 0
OpensEmpty (none, files) = Unit
OpensEmpty (some w, files) = w.bytes_written ≡ 0

created-OpensEmpty :
    (opening : Opening) (known : Bool) (files : Files) (partial : List ℕ) (w : Writer)
    → w.bytes_written ≡ 0
    → OpensEmpty (if known then (none, files) else created opening files partial w)
created-OpensEmpty opening true files partial w h = tt
created-OpensEmpty opened false files partial w h = h
created-OpensEmpty refused false files partial w h = tt
created-OpensEmpty (opened_cut bytes) false files partial w h = tt

open_next-OpensEmpty :
    (opening : Opening) (files : Files) (base : BasePath) (ring : Option RingConfig) (index : ℕ)
    (idb : InterfaceDescriptionBlock) (hostname agent_version : List ℕ)
    → OpensEmpty (open_next opening files base ring index idb hostname agent_version)
unfolding open_next create
open_next-OpensEmpty opening files base ring index idb hostname agent_version =
    let partial = partial_path (member_path base ring index) in
    created-OpensEmpty opening (contains_key partial files) files partial
      (create idb hostname agent_version) refl

replaced-bytes_written :
    (answers : Answers) (s : RingState) (r : Option Writer × Files)
    → OpensEmpty r
    → bytes_written (replaced answers s r).0 ≡ bytes_written s
unfolding bytes_written
replaced-bytes_written answers s (none, files) h = refl
replaced-bytes_written answers s (some w, files) h =
    rw h (add64_zero s.bytes_before_current_file s.writer.bytes_written)

rotated-bytes_written :
    (due : Bool) (answers : Answers) (s : RingState) (files : Files)
    → bytes_written (rotated due answers s files).0 ≡ bytes_written s
unfolding rotate
rotated-bytes_written true answers s files = replaced-bytes_written answers s _ (
    open_next-OpensEmpty answers.opening files s.base_path s.ring _ s.idb s.hostname
      s.agent_version)
rotated-bytes_written false answers s files = refl

-- A status has the bytes of the run, and so has the run, if it goes on.
abbrev pub HasTotal : ℕ → Option Status × Option RingState × Files → Type 0
HasTotal total (none, state, files) = ⊥
HasTotal total (some status, none, files) =
    (status.is_writing ≡ false) × (status.bytes ≡ total) × (is_some status.stop_reason ≡ true)
HasTotal total (some status, some s, files) =
    (status.is_writing ≡ true)
    × (status.bytes ≡ total)
    × (bytes_written s ≡ total)
    × (status.stop_reason ≡ none)

ended-HasTotal :
    (answers : Answers) (s : RingState) (files : Files) (reason : Option String)
    → HasTotal (bytes_written s) (ended answers s files reason)
ended-HasTotal answers s files (some reason) = (refl, refl, refl)
ended-HasTotal answers s files none =
    let same = rotated-bytes_written (should_rotate answers.now s) answers s files in
    (refl, same, same, refl)

try_write_stats-bytes_written :
    (writing : Writing) (w : Writer) (timestamp received dropped : ℕ)
    → (try_write_stats writing w timestamp received dropped).bytes_written ≡ w.bytes_written
unfolding try_write_stats write_interface_stats
try_write_stats-bytes_written written w timestamp received dropped = refl
try_write_stats-bytes_written (written_cut bytes) w timestamp received dropped = refl

-- A tick of a run keeps its total, whatever the system answers, across a rotation and at the end
-- too: the status reports the bytes that the run had written before the tick. The run is over after
-- it just when the status says that nothing is being written, and then it gives a reason; else the
-- run has the same total as before.
pub on_tick-bytes_written :
    (answers : Answers) (received dropped : ℕ) (s : RingState) (files : Files)
    → HasTotal (bytes_written s) (on_tick answers received dropped (some s) files)
unfolding on_tick bytes_written
on_tick-bytes_written answers received dropped s files =
    let s' = with_stats answers received dropped s in
    let same : bytes_written s' ≡ bytes_written s = ap (add64 s.bytes_before_current_file) (
      try_write_stats-bytes_written answers.writing s.writer answers.wall_clock received dropped) in
    subst (λ n. HasTotal n (ended answers s' files (end_reason answers s'))) same
      (ended-HasTotal answers s' files (end_reason answers s'))

-- The next file cannot be opened.
abbrev pub IsRefused : Answers → RingState → Files → Type 0
IsRefused answers s files =
    (answers.opening ≡ refused)
    ⊎ (contains_key
          (partial_path (member_path s.base_path s.ring (wrapping_add32 s.current_index 1))) files
        ≡ true)

created_or_not :
    (opening : Opening) (known : Bool) (files : Files) (partial : List ℕ) (w : Writer)
    → (opening ≡ refused) ⊎ (known ≡ true)
    → (if known then (none, files) else created opening files partial w) ≡ (none, files)
created_or_not opening true files partial w h = refl
created_or_not opening false files partial w (inl h) = rw h refl
created_or_not opening false files partial w (inr h) = absurd (cc)

pub rotated_refused :
    (due : Bool) (answers : Answers) (s : RingState) (files : Files)
    → IsRefused answers s files
    → rotated due answers s files ≡ (s, files)
unfolding rotate open_next
rotated_refused true answers s files h =
    let next = member_path s.base_path s.ring (wrapping_add32 s.current_index 1) in
    ap (replaced answers s) (
      created_or_not answers.opening (contains_key (partial_path next) files) files
        (partial_path next) (create s.idb s.hostname s.agent_version) h)
rotated_refused false answers s files h = refl
