-- ===== src/DnsNames/Learn.antt =====
-- What `learn_response` of capture-agent/src/dns_names.rs takes from a response.
use network_monitor.Base.{
  same_bytes, ℕ, zero, suc, ◌+◌, Bool, true, false, not, ◌&&◌, ◌||◌, List, [], ◌∷◌, ◌++◌, leb, ◌==◌,
  if◌then◌else◌, length, string_eq,
}

-- `DnsAnswer` of l7.rs; `rdata` is its field `data`.
pub record DnsAnswer : Type 0 where
  pub name : List ℕ
  pub rtype : ℕ
  pub ttl : ℕ
  pub rdata : List ℕ
  pub data_truncated : Bool

-- `to_ascii_lowercase`.
abbrev pub lowercase : List ℕ → List ℕ
lowercase [] = []
lowercase (b ∷ bs) = (if leb 65 b && leb b 90 then b + 32 else b) ∷ lowercase bs

-- `eq_ignore_ascii_case`.
abbrev pub same_name : List ℕ → List ℕ → Bool
same_name a b = same_bytes (lowercase a) (lowercase b)

-- `reachable.iter().any(|n| name.eq_ignore_ascii_case(n))`.
abbrev pub same_name_any : List ℕ → List (List ℕ) → Bool
same_name_any name [] = false
same_name_any name (n ∷ ns) = same_name name n || same_name_any name ns

-- `reachable.contains(&target)`.
abbrev pub has_name : List ℕ → List (List ℕ) → Bool
has_name target [] = false
has_name target (n ∷ ns) = same_bytes n target || has_name target ns

-- What one answer adds to the names reached so far.
abbrev pub reach_through : List (List ℕ) → DnsAnswer → List (List ℕ)
reach_through reachable answer =
    if answer.rtype == 5
      && same_name_any answer.name reachable
      && not (has_name (lowercase answer.rdata) reachable)
    then reachable ++ (lowercase answer.rdata ∷ [])
    else reachable

-- One pass over the answers.
unfoldable pub reach_pass : List DnsAnswer → List (List ℕ) → List (List ℕ)
reach_pass [] reachable = reachable
reach_pass (answer ∷ answers) reachable = reach_pass answers (reach_through reachable answer)

-- The passes, until one adds nothing.
unfoldable pub reach_passes : ℕ → List DnsAnswer → List (List ℕ) → List (List ℕ)
reach_passes zero answers reachable = reachable
reach_passes (suc n) answers reachable =
    let next = reach_pass answers reachable in
    let more = reach_passes n answers next in if length next == length reachable then next else more

unfoldable pub reachable_names : List ℕ → List DnsAnswer → List (List ℕ)
reachable_names name answers = reach_passes (length answers) answers (name ∷ [])

abbrev pub is_digit : ℕ → Bool
is_digit b = leb 48 b && leb b 57

-- A letter, a digit, `-`, `_` or `.`.
abbrev pub is_hostname_byte : ℕ → Bool
is_hostname_byte b =
    is_digit b || (leb 65 b && leb b 90) || (leb 97 b && leb b 122) || b == 45 || b == 95 || b == 46

abbrev pub all_of : (ℕ → Bool) → List ℕ → Bool
all_of p [] = true
all_of p (b ∷ bs) = p b && all_of p bs

abbrev pub reversed : List ℕ → List ℕ → List ℕ
reversed [] acc = acc
reversed (b ∷ bs) acc = reversed bs (b ∷ acc)

-- `trim_end_matches('.')` and `rsplit('.').next()`, on the bytes from the end.
abbrev pub without_dots : List ℕ → List ℕ
without_dots [] = []
without_dots (b ∷ bs) = if b == 46 then without_dots bs else b ∷ bs

abbrev pub up_to_dot : List ℕ → List ℕ
up_to_dot [] = []
up_to_dot (b ∷ bs) = if b == 46 then [] else b ∷ up_to_dot bs

-- The last label, its bytes from the end.
abbrev pub last_label : List ℕ → List ℕ
last_label name = up_to_dot (without_dots (reversed name []))

unfoldable pub is_learnable_name : List ℕ → Bool
is_learnable_name name =
    not (length name == 0)
    && leb (length name) 253
    && all_of is_hostname_byte name
    && (length (last_label name) == 0 || not (all_of is_digit (last_label name)))
