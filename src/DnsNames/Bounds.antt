-- ===== src/DnsNames/Bounds.antt =====
-- What a response does to the table of capture-agent/src/dns_names.rs.
use network_monitor.Base.{ℕ, inl, inr, List, [], ◌∷◌, Bool-cases, string_eq}
use network_monitor.DnsNames.{learn_answers, learn_response, is_named}
use network_monitor.DnsNames.Learn.{DnsAnswer, is_learnable_name, lowercase, reachable_names}
use network_monitor.DnsNames.Names.{ObservedDnsNames, purge_expired}
use network_monitor.DnsNames.Names.Order.{IsOrdered, insert_name-IsOrdered, purge_expired-IsOrdered}
use network_monitor.DnsNames.Names.Agreement.{
  IsBounded, insert_name-IsBounded, purge_expired-IsBounded,
}

-- The two views of the table agree, within the capacity, and the order of expiry is one.
abbrev pub IsSound : ObservedDnsNames → Type 0
IsSound s = IsBounded s × IsOrdered s.by_expiry

learn_answers-IsSound :
    (reachable : List (List ℕ)) (name : List ℕ) (now_ms : ℕ) (answers : List DnsAnswer)
    (s : ObservedDnsNames)
    → IsSound s
    → IsSound (learn_answers reachable name now_ms answers s)
unfolding learn_answers
learn_answers-IsSound reachable name now_ms [] s v = v
learn_answers-IsSound reachable name now_ms (answer ∷ answers) s v =
    learn_answers-IsSound reachable name now_ms answers _
      (elim (Bool-cases (is_named reachable answer)) [
        | inl good ↦ rw good (
          insert_name-IsBounded s answer.rdata name _ v.0,
          insert_name-IsOrdered s answer.rdata name _ v.1,
        )
        | inr bad ↦ rw bad v
      ])

-- A response, whatever it holds, keeps the entries and their order of expiry in agreement, with one
-- key for each address and the soonest expiry first, and the number of entries within the capacity.
pub learn_response-IsSound :
    (s : ObservedDnsNames) (query_name : List ℕ) (answers : List DnsAnswer) (now_ms : ℕ)
    → IsSound s
    → IsSound (learn_response s query_name answers now_ms)
unfolding learn_response
learn_response-IsSound s query_name answers now_ms v =
    elim (Bool-cases (is_learnable_name query_name)) [
      | inl good ↦ rw good (
          learn_answers-IsSound (reachable_names (lowercase query_name) answers)
            (lowercase query_name) now_ms answers (purge_expired s now_ms)
            (purge_expired-IsBounded s now_ms v.0, purge_expired-IsOrdered s now_ms v.1))
      | inr bad ↦ rw bad v
    ]
