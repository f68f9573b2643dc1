-- ===== src/DnsNames.antt =====
-- capture-agent/src/dns_names.rs: names observed in DNS responses, by address. A string is the list
-- of its bytes.
pub mod Learn
pub mod Names
pub mod Bounds
mod Tests
use network_monitor.Base.{
  ℕ, zero, suc, ◌+◌, ◌-◌, ◌*◌, ◌/◌, ◌%◌, ◌^◌, ◌≤◌, ◌<◌, min, max, ◌≡◌, refl, sym, ap, ◌∙◌, subst,
  ◌≢◌, ◌↔◌, ◌⊎◌, inl, inr, Bool, true, false, not, ◌&&◌, ◌||◌, Option, none, some, List, [], ◌∷◌,
  ◌++◌, map, arith, ltb, leb, ◌==◌, if◌then◌else◌, is_some, ltb→lt, lt→ltb, le→ltb, leb→le, le→leb,
  ==_iff, tests, Bool-cases, Option-cases, length, get_or-drop, get_elem?, get_or, set, take, drop,
  replicate, resize, length-append, length-set, length-take, length-drop, length-replicate,
  length-resize, take-append-drop, get_or-resize, get_or-set_self, get_or-set_ne, get_or_beyond,
  get_or-take, get_or_ext, get_or-append, drop-append, take-append, append_assoc, append_nil,
  u32_mod, u64_max, wrapping_add32, wrapping_sub32, saturating_add, add64, Eq, string_eq, beq_refl,
  Table, measure_of, lookup, contains_key, insert, remove, total, AllValues, total-remove,
  total-insert, length-remove, length-insert, lookup-AllValues, remove-AllValues, insert-AllValues,
  lookup-insert, lookup-remove_ne,
}
use Names.{ObservedDnsNames, Entry, insert_name, purge_expired}
use Learn.{DnsAnswer, lowercase, same_name_any, is_learnable_name, reachable_names}

abbrev pub min_name_retention_ms : ℕ
min_name_retention_ms = 3600000

abbrev pub max_name_retention_ms : ℕ
max_name_retention_ms = 86400000

-- `(ttl * 1000).clamp(..)`.
abbrev pub retention : ℕ → ℕ
retention ttl = min (max (ttl * 1000) min_name_retention_ms) max_name_retention_ms

-- Whether an answer names an address of the question.
abbrev pub is_named : List (List ℕ) → DnsAnswer → Bool
is_named reachable answer =
    (answer.rtype == 1 || answer.rtype == 28)
    && not (length answer.rdata == 0)
    && same_name_any answer.name reachable

-- The last loop of `learn_response`.
unfoldable pub learn_answers :
    List (List ℕ) → List ℕ → ℕ → List DnsAnswer → ObservedDnsNames → ObservedDnsNames
learn_answers reachable name now_ms [] s = s
learn_answers reachable name now_ms (answer ∷ answers) s =
    learn_answers reachable name now_ms answers (
      if is_named reachable answer
      then insert_name s answer.rdata name (saturating_add now_ms (retention answer.ttl))
      else s)

unfoldable pub learn_response : ObservedDnsNames → List ℕ → List DnsAnswer → ℕ → ObservedDnsNames
learn_response s query_name answers now_ms =
    if is_learnable_name query_name
    then learn_answers (reachable_names (lowercase query_name) answers) (lowercase query_name)
        now_ms answers (purge_expired s now_ms)
    else s
