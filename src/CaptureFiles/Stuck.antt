-- ===== src/CaptureFiles/Stuck.antt =====
-- What becomes of a run of capture-agent/src/ring.rs whose next file's name is taken.
use network_monitor.Base.{
  ℕ, ◌≡◌, refl, sym, ap, ◌∙◌, subst, inr, Bool, true, false, Option, none, some, List, [], ◌∷◌,
  wrapping_add32, string_eq, contains_key,
}
use Prim.Native.String.{String}
use network_monitor.Pcapng.Codec.{Direction}
use network_monitor.Pcapng.Writer.{Writer}
use network_monitor.CaptureFiles.Paths.{member_path, partial_path}
use network_monitor.CaptureFiles.Files.{
  path_eq, Files, Closing, finish_and_rename, try_write_packet,
}
use network_monitor.CaptureFiles.Run.{
  RingState, Answers, Status, write_packet, counted, on_tick, with_stats, ended, rotated,
  end_reason, should_rotate, final_path,
}
use network_monitor.CaptureFiles.Thread.{
  WriterCommand, start_file, stop_file, packet, stats, Thread, handle, handle_all, packet_to,
  after_packet, after_tick,
}
use network_monitor.CaptureFiles.Rotation.{rotated_refused}

-- The `.partial` name of the next member of the ring.
abbrev pub next_partial : RingState → List ℕ
next_partial s = partial_path (member_path s.base_path s.ring (wrapping_add32 s.current_index 1))

-- The same run in the same file: no rotation between the two.
pub record SameFile (s s' : RingState) : Type 0 where
  pub base_kept : s'.base_path ≡ s.base_path
  pub ring_kept : s'.ring ≡ s.ring
  pub index_kept : s'.current_index ≡ s.current_index
  pub clock_kept : s'.file_started_at ≡ s.file_started_at
  pub before_kept : s'.bytes_before_current_file ≡ s.bytes_before_current_file

-- The run goes on in its file and no other file was touched, or it is over, and its one file is
-- what the files got by it.
abbrev pub IsStuck : RingState → Files → Option RingState → Files → Type 0
IsStuck s files none files' =
    (closing : Closing) × (w : Writer) × (files' ≡ finish_and_rename closing files w (final_path s))
IsStuck s files (some s') files' = SameFile s s' × (files' ≡ files)

-- Packets and statistics, while no run is started or stopped.
abbrev pub AreGoingOn : List (Answers × WriterCommand) → Type 0
AreGoingOn [] = Unit
AreGoingOn ((answers, start_file request) ∷ rest) = ⊥
AreGoingOn ((answers, stop_file) ∷ rest) = ⊥
AreGoingOn ((answers, packet timestamp direction frame) ∷ rest) = AreGoingOn rest
AreGoingOn ((answers, stats received dropped) ∷ rest) = AreGoingOn rest

same_file : (s : RingState) → SameFile s s
same_file s = record {
  base_kept = refl;
  ring_kept = refl;
  index_kept = refl;
  clock_kept = refl;
  before_kept = refl;
}

counted-SameFile :
    (s s' : RingState) (r : Writer × Bool) → SameFile s s' → SameFile s (counted s' r).0
counted-SameFile s s' (w, true) v = record {
  base_kept = v.base_kept;
  ring_kept = v.ring_kept;
  index_kept = v.index_kept;
  clock_kept = v.clock_kept;
  before_kept = v.before_kept;
}
counted-SameFile s s' (w, false) v = record {
  base_kept = v.base_kept;
  ring_kept = v.ring_kept;
  index_kept = v.index_kept;
  clock_kept = v.clock_kept;
  before_kept = v.before_kept;
}

with_stats-SameFile :
    (answers : Answers) (received dropped : ℕ) (s s' : RingState)
    → SameFile s s'
    → SameFile s (with_stats answers received dropped s')
with_stats-SameFile answers received dropped s s' v = record {
  base_kept = v.base_kept;
  ring_kept = v.ring_kept;
  index_kept = v.index_kept;
  clock_kept = v.clock_kept;
  before_kept = v.before_kept;
}

final_path-SameFile : (s s' : RingState) → SameFile s s' → final_path s' ≡ final_path s
final_path-SameFile s s' v = rw (v.base_kept, v.ring_kept, v.index_kept) refl

next_partial-SameFile : (s s' : RingState) → SameFile s s' → next_partial s' ≡ next_partial s
next_partial-SameFile s s' v = rw (v.base_kept, v.ring_kept, v.index_kept) refl

after_packet-IsStuck :
    (s : RingState) (files : Files) (t : Thread) (r : RingState × Bool)
    → SameFile s r.0
    → t.files ≡ files
    → IsStuck s files (after_packet t r).current (after_packet t r).files
after_packet-IsStuck s files t (s', true) v e = (v, e)
after_packet-IsStuck s files t (s', false) v e = (v, e)

packet_to-IsStuck :
    (answers : Answers) (s : RingState) (files : Files) (t : Thread) (timestamp : ℕ)
    (direction : Direction) (frame : List ℕ) (state : Option RingState)
    → state ≡ t.current
    → IsStuck s files state t.files
    → let t' = packet_to answers t timestamp direction frame state in
      IsStuck s files t'.current t'.files
unfolding write_packet
packet_to-IsStuck answers s files t timestamp direction frame none e v =
    subst (λ (c : Option RingState). IsStuck s files c t.files) e v
packet_to-IsStuck answers s files t timestamp direction frame (some s') e v =
    let r = try_write_packet answers.writing s'.writer timestamp direction frame in
    after_packet-IsStuck s files t (counted s' r) (counted-SameFile s s' r v.0) v.1

ended-IsStuck :
    (answers : Answers) (s : RingState) (files : Files) (s' : RingState) (reason : Option String)
    → contains_key (next_partial s) files ≡ true
    → SameFile s s'
    → let r = ended answers s' files reason in IsStuck s files r.1 r.2
ended-IsStuck answers s files s' (some reason) taken v = (
  answers.closing,
  s'.writer,
  ap (finish_and_rename answers.closing files s'.writer) (final_path-SameFile s s' v),
)
ended-IsStuck answers s files s' none taken v =
    let stays : rotated (should_rotate answers.now s') answers s' files ≡ (s', files) =
      rotated_refused (should_rotate answers.now s') answers s' files
        (inr (ap (λ p. contains_key p files) (next_partial-SameFile s s' v) ∙ taken)) in
    subst (λ (r : RingState × Files). IsStuck s files (some r.0) r.1) (sym stays) (v, refl)

on_tick-IsStuck :
    (answers : Answers) (received dropped : ℕ) (s : RingState) (files : Files)
    (state : Option RingState) (files' : Files)
    → contains_key (next_partial s) files ≡ true
    → IsStuck s files state files'
    → let r = on_tick answers received dropped state files' in IsStuck s files r.1 r.2
unfolding on_tick
on_tick-IsStuck answers received dropped s files none files' taken v = v
on_tick-IsStuck answers received dropped s files (some s') files' taken v =
    let s'' = with_stats answers received dropped s' in
    subst
      (λ (fs : Files).
        let r = ended answers s'' fs (end_reason answers s'') in IsStuck s files r.1 r.2)
      (sym v.1)
      (ended-IsStuck answers s files s'' (end_reason answers s'') taken
        (with_stats-SameFile answers received dropped s s' v.0))

after_tick-IsStuck :
    (s : RingState) (files : Files) (t : Thread) (r : Option Status × Option RingState × Files)
    → IsStuck s files r.1 r.2
    → IsStuck s files (after_tick t r).current (after_tick t r).files
after_tick-IsStuck s files t (none, current, files') v = v
after_tick-IsStuck s files t (some status, current, files') v = v

handle_all_from-IsStuck :
    (commands : List (Answers × WriterCommand)) (s : RingState) (files : Files) (t : Thread)
    → AreGoingOn commands
    → contains_key (next_partial s) files ≡ true
    → IsStuck s files t.current t.files
    → IsStuck s files (handle_all commands t).current (handle_all commands t).files
unfolding handle_all handle
handle_all_from-IsStuck [] s files t g taken v = v
handle_all_from-IsStuck ((answers, start_file request) ∷ rest) s files t g taken v = absurd g
handle_all_from-IsStuck ((answers, stop_file) ∷ rest) s files t g taken v = absurd g
handle_all_from-IsStuck ((answers, packet timestamp direction frame) ∷ rest) s files t g taken v =
    handle_all_from-IsStuck rest s files _ g taken
      (packet_to-IsStuck answers s files t timestamp direction frame t.current refl v)
handle_all_from-IsStuck ((answers, stats received dropped) ∷ rest) s files t g taken v =
    handle_all_from-IsStuck rest s files _ g taken (
      after_tick-IsStuck s files t (on_tick answers received dropped t.current t.files)
        (on_tick-IsStuck answers received dropped s files t.current t.files taken v))

-- Once the `.partial` name of the next member is taken, a run never rotates again: whatever packets
-- and ticks follow, until a run is started or stopped, and whatever the system answers to them, the
-- run is still in the same file, with the same number, clock and bytes before it, and no other file
-- has changed; or it has ended by itself, and then its one file, under the path that it had, is all
-- that the files got.
pub handle_all-IsStuck :
    (commands : List (Answers × WriterCommand)) (s : RingState) (t : Thread)
    → AreGoingOn commands
    → t.current ≡ some s
    → contains_key (next_partial s) t.files ≡ true
    → IsStuck s t.files (handle_all commands t).current (handle_all commands t).files
handle_all-IsStuck commands s t g e taken =
    handle_all_from-IsStuck commands s t.files t g taken
      (subst (λ (c : Option RingState). IsStuck s t.files c t.files) (sym e) (same_file s, refl))
