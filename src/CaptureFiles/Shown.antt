-- ===== src/CaptureFiles/Shown.antt =====
-- What the threads of capture-agent/src/main.rs share about the run.
use network_monitor.Base.{
  ℕ, ◌≡◌, refl, sym, ap, ◌∙◌, inl, inr, Bool, true, false, Option, none, some, List, [], ◌∷◌, ltb,
  is_some, Bool-cases, string_eq, total,
}
use network_monitor.Base.Results.{Result, ok, err}
use network_monitor.Pcapng.Codec.{Direction}
use network_monitor.Pcapng.Writer.{Writer}
use network_monitor.CaptureFiles.Files.{path_eq, Files, Opening}
use network_monitor.CaptureFiles.Run.{
  RingState, StartError, Answers, Status, on_tick, StartRequest, start, started, stop, write_packet,
  low_disk_floor_bytes, bytes_written,
}
use network_monitor.CaptureFiles.Thread.{
  WriterCommand, start_file, stop_file, packet, stats, Thread, handle, handle_all, idle,
  after_start, after_stop, packet_to, after_packet, after_tick, apply_status,
}
use network_monitor.CaptureFiles.Rotation.{HasTotal, on_tick-bytes_written}

-- The other threads see a run as active just when there is one.
abbrev pub IsShown : Thread → Type 0
IsShown t = t.shared.is_active ≡ is_some t.current

-- A run that was started is there; otherwise there is what was there before.
abbrev Starts : Option RingState → Result StartError (Unit {0}) × Option RingState × Files → Type 0
Starts state (ok done, current, files) = is_some current ≡ true
Starts state (err e, current, files) = is_some current ≡ is_some state

started-Starts :
    (state : Option RingState) (now : ℕ) (request : StartRequest) (r : Option Writer × Files)
    → Starts state (started state now request r)
started-Starts state now request (none, files) = refl
started-Starts state now request (some w, files) = refl

start-Starts :
    (free : Option ℕ) (opening : Opening) (now : ℕ) (state : Option RingState) (files : Files)
    (request : StartRequest)
    → Starts state (start free opening now state files request)
unfolding start
start-Starts none opening now state files request = refl
start-Starts (some free) opening now state files request =
    elim (Bool-cases (ltb free low_disk_floor_bytes)) [
      | inl low ↦ rw low refl
      | inr high ↦ rw high (started-Starts state now request _)
    ]

after_start-IsShown :
    (t : Thread) (request : StartRequest)
    (r : Result StartError (Unit {0}) × Option RingState × Files)
    → IsShown t
    → Starts t.current r
    → IsShown (after_start t request r)
after_start-IsShown t request (ok done, current, files) h s = sym s
after_start-IsShown t request (err e, current, files) h s = h ∙ sym s

stop_clears :
    (t : Thread) (answers : Answers) (current : Option RingState)
    → IsShown (after_stop t (stop answers.closing current t.files))
unfolding stop
stop_clears t answers none = refl
stop_clears t answers (some s) = refl

after_packet-IsShown :
    (t : Thread) (r : RingState × Bool) → t.shared.is_active ≡ true → IsShown (after_packet t r)
after_packet-IsShown t (s, true) h = h
after_packet-IsShown t (s, false) h = h

packet_to-IsShown :
    (answers : Answers) (t : Thread) (timestamp : ℕ) (direction : Direction) (frame : List ℕ)
    (current : Option RingState)
    → IsShown t
    → current ≡ t.current
    → IsShown (packet_to answers t timestamp direction frame current)
packet_to-IsShown answers t timestamp direction frame none h e = h
packet_to-IsShown answers t timestamp direction frame (some s) h e =
    after_packet-IsShown t (write_packet answers.writing s timestamp direction frame)
      (h ∙ ap is_some (sym e))

after_tick-IsShown :
    (t : Thread) (total : ℕ) (r : Option Status × Option RingState × Files)
    → HasTotal total r
    → IsShown (after_tick t r)
unfolding apply_status
after_tick-IsShown t total (none, current, files) h = absurd h
after_tick-IsShown t total (some status, none, files) h = h.0
after_tick-IsShown t total (some status, some s, files) h = h.0

tick-IsShown :
    (answers : Answers) (received dropped : ℕ) (t : Thread) (current : Option RingState)
    → IsShown t
    → current ≡ t.current
    → IsShown (after_tick t (on_tick answers received dropped current t.files))
unfolding on_tick
tick-IsShown answers received dropped t none h e = h ∙ ap is_some (sym e)
tick-IsShown answers received dropped t (some s) h e =
    after_tick-IsShown t (bytes_written s) (on_tick answers received dropped (some s) t.files)
      (on_tick-bytes_written answers received dropped s t.files)

handle-IsShown :
    (answers : Answers) (command : WriterCommand) (t : Thread)
    → IsShown t
    → IsShown (handle answers command t)
unfolding handle
handle-IsShown answers (start_file request) t h =
    after_start-IsShown t request _ h
      (start-Starts answers.free_space answers.opening answers.now t.current t.files request)
handle-IsShown answers stop_file t h = stop_clears t answers t.current
handle-IsShown answers (packet timestamp direction frame) t h =
    packet_to-IsShown answers t timestamp direction frame t.current h refl
handle-IsShown answers (stats received dropped) t h =
    tick-IsShown answers received dropped t t.current h refl

handle_all_from-IsShown :
    (commands : List (Answers × WriterCommand)) (t : Thread)
    → IsShown t
    → IsShown (handle_all commands t)
unfolding handle_all
handle_all_from-IsShown [] t h = h
handle_all_from-IsShown ((answers, command) ∷ rest) t h =
    handle_all_from-IsShown rest (handle answers command t) (handle-IsShown answers command t h)

-- Whatever the commands and the system's answers, failed writes included: what the other threads
-- see says that a run is active just when the writer thread holds one.
pub handle_all-IsShown :
    (commands : List (Answers × WriterCommand)) (files : Files)
    → IsShown (handle_all commands (idle files))
unfolding idle
handle_all-IsShown commands files = handle_all_from-IsShown commands (idle files) refl
