-- ===== src/Http2/Redact.antt =====
-- capture-agent/src/redact.rs: what is taken out of headers. A text is its bytes.
use network_monitor.Base.{
  same_bytes, ℕ, ◌+◌, Bool, false, ◌&&◌, ◌||◌, List, [], ◌∷◌, leb, if◌then◌else◌, take, string_eq,
}

-- A name and a value.
abbrev pub Header : Type 0
Header = List ℕ × List ℕ

-- `to_ascii_lowercase`.
abbrev pub to_ascii_lowercase : List ℕ → List ℕ
to_ascii_lowercase [] = []
to_ascii_lowercase (c ∷ cs) =
    let rest = to_ascii_lowercase cs in if leb 65 c && leb c 90 then (c + 32) ∷ rest else c ∷ rest

-- `authorization`, `cookie`, `set-cookie`, `proxy-authorization`, `x-api-key`.
abbrev pub sensitive_header_names : List (List ℕ)
sensitive_header_names =
    (97 ∷ 117 ∷ 116 ∷ 104 ∷ 111 ∷ 114 ∷ 105 ∷ 122 ∷ 97 ∷ 116 ∷ 105 ∷ 111 ∷ 110 ∷ [])
    ∷ (99 ∷ 111 ∷ 111 ∷ 107 ∷ 105 ∷ 101 ∷ [])
    ∷ (115 ∷ 101 ∷ 116 ∷ 45 ∷ 99 ∷ 111 ∷ 111 ∷ 107 ∷ 105 ∷ 101 ∷ [])
    ∷ (112 ∷ 114 ∷ 111 ∷ 120 ∷ 121 ∷ 45 ∷ 97 ∷ 117 ∷ 116 ∷ 104 ∷ 111 ∷ 114 ∷ 105 ∷ 122 ∷ 97 ∷ 116
        ∷ 105 ∷ 111 ∷ 110 ∷ [])
    ∷ (120 ∷ 45 ∷ 97 ∷ 112 ∷ 105 ∷ 45 ∷ 107 ∷ 101 ∷ 121 ∷ [])
    ∷ []

abbrev pub is_among : List ℕ → List (List ℕ) → Bool
is_among name [] = false
is_among name (n ∷ ns) = same_bytes n name || is_among name ns

unfoldable pub is_sensitive_header_name : List ℕ → Bool
is_sensitive_header_name name = is_among (to_ascii_lowercase name) sensitive_header_names

-- `bearer `.
abbrev pub bearer : List ℕ
bearer = 98 ∷ 101 ∷ 97 ∷ 114 ∷ 101 ∷ 114 ∷ 32 ∷ []

-- A text's first seven bytes that are ASCII end at a boundary.
unfoldable pub looks_like_bearer_token : (List ℕ → List ℕ) → List ℕ → Bool
looks_like_bearer_token trim_start value =
    same_bytes (to_ascii_lowercase (take 7 (trim_start value))) bearer

-- `[REDACTED]`.
abbrev pub redacted : List ℕ
redacted = 91 ∷ 82 ∷ 69 ∷ 68 ∷ 65 ∷ 67 ∷ 84 ∷ 69 ∷ 68 ∷ 93 ∷ []

abbrev pub redact_value : (List ℕ → List ℕ) → List ℕ → List ℕ → List ℕ
redact_value trim_start name value =
    if is_sensitive_header_name name || looks_like_bearer_token trim_start value
    then redacted
    else value

unfoldable pub redact_headers : (List ℕ → List ℕ) → List Header → List Header
redact_headers trim_start [] = []
redact_headers trim_start ((name, value) ∷ rest) =
    (name, redact_value trim_start name value) ∷ redact_headers trim_start rest
