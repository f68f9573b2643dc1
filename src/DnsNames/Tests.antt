-- ===== src/DnsNames/Tests.antt =====
-- Runs of capture-agent/src/dns_names.rs.
use network_monitor.Base.{
  same_bytes, ℕ, ◌≡◌, refl, inr, false, none, some, List, [], ◌∷◌, arith, if◌then◌else◌, string_eq,
  lookup, insert, remove,
}
use network_monitor.DnsNames.{learn_response, learn_answers}
use network_monitor.DnsNames.Learn.{
  DnsAnswer, is_learnable_name, reachable_names, reach_passes, reach_pass,
}
use network_monitor.DnsNames.Names.{
  ObservedDnsNames, new, insert_name, make_room, evict_first, add_entry, insert_key, remove_key,
  purge_front, purge_expired, lookup_name, address_eq,
}
use network_monitor.DnsNames.Names.Agreement.{new-IsBounded}
use network_monitor.DnsNames.Names.Order.{live_only, lookup-purge_expired, lookup-insert_name}
use network_monitor.DnsNames.Bounds.{IsSound, learn_response-IsSound}

-- `Www.a`, `cdn.b` and the address `1`.
abbrev question : List ℕ
question = 87 ∷ 119 ∷ 119 ∷ 46 ∷ 97 ∷ []

abbrev question_lower : List ℕ
question_lower = 119 ∷ 119 ∷ 119 ∷ 46 ∷ 97 ∷ []

abbrev alias : List ℕ
alias = 99 ∷ 100 ∷ 110 ∷ 46 ∷ 98 ∷ []

abbrev address : List ℕ
address = 49 ∷ []

abbrev answer_of : List ℕ → ℕ → List ℕ → DnsAnswer
answer_of name rtype rdata = record {
  name = name;
  rtype = rtype;
  ttl = 300;
  rdata = rdata;
  data_truncated = false;
}

-- An alias and its address, in the wrong order, and an unrelated record.
abbrev response : List DnsAnswer
response =
    answer_of alias 1 address
    ∷ answer_of question_lower 5 alias
    ∷ answer_of (120 ∷ []) 1 (50 ∷ [])
    ∷ []

abbrev learned : ObservedDnsNames
learned = learn_response (new 2) question response 10

learned_lookup :
    (lookup_name learned address 3600009 ≡ some question_lower)
    × (lookup_name learned address 3600010 ≡ none)
    × (lookup_name learned (50 ∷ []) 10 ≡ none)
unfolding learn_response learn_answers is_learnable_name reachable_names reach_passes reach_pass new
    insert_name make_room evict_first add_entry insert_key remove_key purge_front purge_expired
    lookup_name lookup insert remove
learned_lookup = (refl, refl, refl)

learned-IsSound : IsSound learned
unfolding new
learned-IsSound = learn_response-IsSound (new 2) question response 10 (new-IsBounded 2, tt)

learn_response-IsSound_example : IsSound (learn_response (new 2) question response 10)
unfolding new
learn_response-IsSound_example =
    learn_response-IsSound (new 2) question response 10 (new-IsBounded 2, tt)

lookup-purge_expired_example :
    lookup address (purge_expired learned 3600010).entries
    ≡ live_only 3600010 (lookup address learned.entries)
lookup-purge_expired_example =
    lookup-purge_expired learned 3600010 address learned-IsSound.0 learned-IsSound.1

lookup-insert_name_example : lookup (50 ∷ []) (insert_name (new 2) address question 7).entries ≡ (
    if same_bytes address (50 ∷ [])
    then some (record {
      name = question;
      expires_ms = 7;
      seq = (make_room (new 2) address (lookup address (new 2).entries)).next_seq;
    })
    else lookup (50 ∷ []) (new 2).entries)
unfolding new
lookup-insert_name_example =
    lookup-insert_name (new 2) address question 7 (50 ∷ []) (omega arith) (inr (omega arith))
