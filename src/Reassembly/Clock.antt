-- ===== src/Reassembly/Clock.antt =====
-- `ReplayClock` of capture-agent/src/reassembly.rs: the recorded time of a replayed capture.
pub mod Timeline
mod Tests
use network_monitor.Base.{
  ℕ, zero, suc, ◌+◌, ◌-◌, ◌*◌, ◌/◌, ◌%◌, ◌^◌, ◌≤◌, ◌<◌, min, max, ◌≡◌, refl, sym, ap, ◌∙◌, subst,
  ◌≢◌, ◌↔◌, ◌⊎◌, inl, inr, Bool, true, false, not, ◌&&◌, ◌||◌, Option, none, some, List, [], ◌∷◌,
  ◌++◌, map, arith, ltb, leb, ◌==◌, if◌then◌else◌, is_some, ltb→lt, lt→ltb, le→ltb, leb→le, le→leb,
  ==_iff, tests, Bool-cases, Option-cases, length, get_or-drop, get_elem?, get_or, set, take, drop,
  replicate, resize, length-append, length-set, length-take, length-drop, length-replicate,
  length-resize, take-append-drop, get_or-resize, get_or-set_self, get_or-set_ne, get_or_beyond,
  get_or-take, get_or_ext, get_or-append, drop-append, take-append, append_assoc, append_nil,
  u32_mod, u64_max, wrapping_add32, wrapping_sub32, saturating_add, add64, Eq, string_eq, beq_refl,
  Table, measure_of, lookup, contains_key, insert, remove, total, AllValues, total-remove,
  total-insert, length-remove, length-insert, lookup-AllValues, remove-AllValues, insert-AllValues,
  lookup-insert, lookup-remove_ne,
}

-- A `SystemTime` is its nanoseconds from the earliest time there is, a `Duration` is nanoseconds.
abbrev pub duration_max : ℕ
duration_max = 2 ^ 64 * 10 ^ 9 - 1

-- `saturating_add` of `Duration`.
abbrev pub lengthen : ℕ → ℕ → ℕ
lengthen a b = min (a + b) duration_max

-- `REPLAY_REORDER_TOLERANCE`.
abbrev pub replay_reorder_tolerance : ℕ
replay_reorder_tolerance = 60 * 10 ^ 9

pub record ReplayClock : Type 0 where
  pub latest : Option ℕ
  pub pending_reset : Option ℕ
  pub elapsed : ℕ

unfoldable pub new : ReplayClock
new = record { latest = none; pending_reset = none; elapsed = 0 }

-- The last line of `now_ms`.
unfoldable pub elapsed_ms : ReplayClock → ℕ
elapsed_ms c = min (c.elapsed / 10 ^ 6) u64_max

-- A frame that is far behind the latest one, by the `pending_reset` taken.
unfoldable pub far_behind : ReplayClock → Option ℕ → ℕ → ReplayClock
far_behind c none frame_timestamp = record c { pending_reset = some frame_timestamp }
far_behind c (some pending) frame_timestamp = record {
  latest = some frame_timestamp;
  pending_reset = none;
  elapsed =
      if leb pending frame_timestamp
      then lengthen c.elapsed (frame_timestamp - pending)
      else c.elapsed;
}

-- The clock after a frame, when one came before.
unfoldable pub measure : ReplayClock → ℕ → ℕ → ReplayClock
measure c latest frame_timestamp =
    if leb latest frame_timestamp
    then record {
      latest = some frame_timestamp;
      pending_reset = none;
      elapsed = lengthen c.elapsed (frame_timestamp - latest);
    }
    else if leb (latest - frame_timestamp) replay_reorder_tolerance
    then record c { pending_reset = none }
    else far_behind c c.pending_reset frame_timestamp

unfoldable pub now_after : ReplayClock → Option ℕ → ℕ → ReplayClock × ℕ
now_after c none frame_timestamp = (record c { latest = some frame_timestamp }, 0)
now_after c (some latest) frame_timestamp =
    let c' = measure c latest frame_timestamp in (c', elapsed_ms c')

unfoldable pub now_ms : ReplayClock → ℕ → ReplayClock × ℕ
now_ms c frame_timestamp = now_after c c.latest frame_timestamp
