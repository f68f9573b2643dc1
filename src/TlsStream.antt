-- ===== src/TlsStream.antt =====
-- capture-agent/src/tls_stream.rs: the byte stream of one TCP direction, cut into TLS records.
pub mod Tcp
pub mod Records
mod Tests
use network_monitor.Base.{
  ℕ, zero, suc, ◌+◌, ◌-◌, ◌*◌, ◌/◌, ◌%◌, ◌^◌, ◌≤◌, ◌<◌, min, max, ◌≡◌, refl, sym, ap, ◌∙◌, subst,
  ◌≢◌, ◌↔◌, ◌⊎◌, inl, inr, Bool, true, false, not, ◌&&◌, ◌||◌, Option, none, some, List, [], ◌∷◌,
  ◌++◌, map, arith, ltb, leb, ◌==◌, if◌then◌else◌, is_some, ltb→lt, lt→ltb, le→ltb, leb→le, le→leb,
  ==_iff, tests, Bool-cases, Option-cases, length, get_or-drop, get_elem?, get_or, set, take, drop,
  replicate, resize, length-append, length-set, length-take, length-drop, length-replicate,
  length-resize, take-append-drop, get_or-resize, get_or-set_self, get_or-set_ne, get_or_beyond,
  get_or-take, get_or_ext, u32_mod, u64_max, wrapping_add32, wrapping_sub32, saturating_add, add64,
  Eq, string_eq, beq_refl, Table, measure_of, lookup, contains_key, insert, remove, total,
  AllValues, total-remove, total-insert, length-remove, length-insert, lookup-AllValues,
  remove-AllValues, insert-AllValues, lookup-insert, lookup-remove_ne,
}
use network_monitor.Base.Results.{Result, ok, err}
use Tcp.{TlsTcpStream, TlsStreamError, record_too_large}
use Tcp
use Records.{TlsRecordFramer}
use Records

-- `TlsDirectionStream`.
pub record TlsDirectionStream : Type 0 where
  pub tcp : TlsTcpStream
  pub records : TlsRecordFramer

pub new : ℕ → TlsDirectionStream
new initial_seq = record { tcp = Tcp.new initial_seq; records = Records.new }

pub feed_segment :
    TlsDirectionStream → ℕ → List ℕ → TlsDirectionStream × Result TlsStreamError (List (List ℕ))
feed_segment d seq payload =
    let (tcp', out) = Tcp.feed d.tcp seq payload in
    elim out [
      | err e ↦ (record d { tcp = tcp' }, err e)
      | ok contiguous ↦
          let (records', framed) = Records.feed d.records contiguous in
          (
            record { tcp = tcp'; records = records' },
            elim framed [ ok rs ↦ ok rs | err e ↦ err record_too_large ],
          )
    ]

pub has_pending_gap : TlsDirectionStream → Bool
has_pending_gap d = Tcp.has_pending_gap d.tcp
