-- ===== src/RingBuffer/Tests.antt =====
-- Runs of capture-agent/src/ring_buffer.rs, with a wipe that empties a vector.
use network_monitor.Base.{ℕ, ◌≡◌, refl, true, some, List, [], ◌∷◌, ◌++◌, arith, string_eq}
use network_monitor.RingBuffer.{
  DecryptedRingEntry, DecryptedRingBuffer, client_to_server, push_entry, evict_over, evict_oldest,
}
use network_monitor.RingBuffer.Window.{Trimmed, push_entry-Trimmed}

abbrev wipe : List ℕ → List ℕ
wipe bytes = []

abbrev entry_of : List ℕ → ℕ → DecryptedRingEntry
entry_of bytes capacity = record {
  direction = some client_to_server;
  bytes = bytes;
  capacity = capacity;
}

abbrev two_held : DecryptedRingBuffer
two_held = record {
  capacity_bytes = 10;
  used_bytes = 9;
  entries = entry_of (1 ∷ 2 ∷ []) 4 ∷ entry_of (3 ∷ []) 5 ∷ [];
  mlock_engaged = true;
}

-- The push of six bytes' capacity evicts both old entries.
push_entry_evicts :
    push_entry wipe two_held (some client_to_server) (7 ∷ []) 6
    ≡ record two_held { used_bytes = 6; entries = entry_of (7 ∷ []) 6 ∷ [] }
unfolding push_entry evict_over evict_oldest
push_entry_evicts = refl

push_entry-Trimmed_example :
    Trimmed two_held
      (two_held.entries ++ (entry_of (7 ∷ []) 6 ∷ []))
      (push_entry wipe two_held (some client_to_server) (7 ∷ []) 6)
push_entry-Trimmed_example =
    push_entry-Trimmed wipe two_held (some client_to_server) (7 ∷ []) 6 refl (omega arith)
