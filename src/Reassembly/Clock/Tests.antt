-- ===== src/Reassembly/Clock/Tests.antt =====
-- Runs of the replay clock of capture-agent/src/reassembly.rs.
use network_monitor.Base.{ℕ, ◌≡◌, refl, none, some, List, [], ◌∷◌, arith, string_eq}
use network_monitor.Reassembly.Clock.{
  ReplayClock, new, elapsed_ms, far_behind, measure, now_after, now_ms,
}
use network_monitor.Reassembly.Clock.Timeline.{
  Ascends, readings, readings-Ascends, play, play_lem, outlier_ignored, reset_confirmed,
}

-- Nanoseconds: a start, 3 ms later, 1 ms back, far back, and 5 ms after the start.
abbrev frame_times : List ℕ
frame_times = 100000000000 ∷ 100003000000 ∷ 100002000000 ∷ 1000000000 ∷ 100005000000 ∷ []

frame_times_read : readings new frame_times ≡ 0 ∷ 3 ∷ 3 ∷ 3 ∷ 5 ∷ []
unfolding readings new now_ms now_after measure far_behind elapsed_ms
frame_times_read = refl

abbrev at_start : ReplayClock
at_start = record { latest = some 100000000000; pending_reset = none; elapsed = 7 }

readings-Ascends_example : Ascends 0 (readings new frame_times)
unfolding new elapsed_ms
readings-Ascends_example = readings-Ascends new frame_times (omega arith, λ e. refl)

play_lem_example : (play new (100 ∷ 150 ∷ 400 ∷ [])).elapsed ≡ 300
play_lem_example = play_lem 100 (150 ∷ 400 ∷ []) (omega arith, (omega arith, tt)) (omega arith)

outlier_ignored_example :
    now_ms (now_ms at_start 1000).0 100000000500 ≡ now_ms at_start 100000000500
outlier_ignored_example =
    outlier_ignored at_start 100000000000 1000 100000000500 refl refl (omega arith) (omega arith)

reset_confirmed_example :
    (now_ms (now_ms at_start 1000).0 3000).0
    ≡ record { latest = some 3000; pending_reset = none; elapsed = 2007 }
reset_confirmed_example =
    reset_confirmed at_start 100000000000 1000 3000 refl refl (omega arith) (omega arith)
