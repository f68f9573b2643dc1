-- ===== src/RateLimit.antt =====
-- capture-agent/src/rate_limit.rs: the limiter of packet events sent to the browser.
pub mod Spacing
mod Tests
use network_monitor.Base.{
  ℕ, ◌-◌, ◌/◌, ◌==◌, Bool, true, false, Option, none, some, leb, if◌then◌else◌,
}
use network_monitor.Base.{List, [], ◌∷◌}

-- Times and the interval are `u64` values; nothing here overflows.
pub record PacketEventLimiter : Type 0 where
  pub min_interval_ms : Option ℕ
  pub last_allowed_ms : Option ℕ

pub new : ℕ → ℕ → PacketEventLimiter
new max_per_window window_ms = record {
  min_interval_ms = if max_per_window == 0 then none else some (window_ms / max_per_window);
  last_allowed_ms = none;
}

-- Whether an event at `now_ms` is due, `min_interval_ms` being the interval.
pub is_due : Option ℕ → ℕ → ℕ → Bool
is_due none min_interval_ms now_ms = true
is_due (some last) min_interval_ms now_ms = leb min_interval_ms (now_ms - last)

pub allow_at : Option ℕ → PacketEventLimiter → ℕ → PacketEventLimiter × Bool
unfolding is_due
allow_at none l now_ms = (l, false)
allow_at (some min_interval_ms) l now_ms =
    if is_due l.last_allowed_ms min_interval_ms now_ms
    then (record l { last_allowed_ms = some now_ms }, true)
    else (l, false)

pub allow : PacketEventLimiter → ℕ → PacketEventLimiter × Bool
unfolding allow_at
allow l now_ms = allow_at l.min_interval_ms l now_ms

-- The times at which a run of candidate emissions is let through, in order.
pub admitted : PacketEventLimiter → List ℕ → List ℕ
admitted l [] = []
admitted l (t ∷ ts) =
    let (l', sent) = allow l t in let rest = admitted l' ts in if sent then t ∷ rest else rest
