-- ===== src/DnsNames/Names/Order.antt =====
-- The order of expiry of capture-agent/src/dns_names.rs: what leaves first, and that a purge is not
-- seen by a reader.
use network_monitor.Base.{
  same_bytes, ℕ, suc, ◌≤◌, ◌<◌, ◌≡◌, refl, sym, ap, ◌∙◌, subst, ◌≢◌, ◌⊎◌, inl, inr, true, false,
  Option, none, some, List, [], ◌∷◌, arith, ltb, leb, ◌==◌, if◌then◌else◌, is_some, ltb→lt, lt→ltb,
  le→ltb, Bool-cases, length, string_eq, Table, lookup, remove, lookup-insert, lookup-remove_ne,
}
use network_monitor.DnsNames.Names.{
  address_eq, Entry, ExpiryKey, ObservedDnsNames, same_key, key_before, insert_key, remove_key,
  key_of, evict_first, make_room, add_entry, insert_name, purge_front, purge_expired,
}
use network_monitor.DnsNames.Names.Agreement.{Agrees, IsBounded, same_bytes-cases}

-- No key expires before `n`.
abbrev pub AllFrom : ℕ → List ExpiryKey → Type 0
AllFrom n [] = Unit
AllFrom n (k ∷ ks) = (n ≤ k.expires_ms) × AllFrom n ks

-- Each key expires no later than those behind it.
abbrev pub IsOrdered : List ExpiryKey → Type 0
IsOrdered [] = Unit
IsOrdered (k ∷ ks) = AllFrom k.expires_ms ks × IsOrdered ks

weaken : (n m : ℕ) (ks : List ExpiryKey) → m ≤ n → AllFrom n ks → AllFrom m ks
weaken n m [] h a = tt
weaken n m (k ∷ ks) h a = (omega (arith, a.0), weaken n m ks h a.1)

insert_key-AllFrom :
    (n : ℕ) (k : ExpiryKey) (ks : List ExpiryKey)
    → n ≤ k.expires_ms
    → AllFrom n ks
    → AllFrom n (insert_key k ks)
unfolding insert_key
insert_key-AllFrom n k [] h a = (h, tt)
insert_key-AllFrom n k (j ∷ js) h a = elim (Bool-cases (same_key j k)) [
  | inl s ↦ rw s a
  | inr s ↦ elim (Bool-cases (key_before k j)) [
    | inl b ↦ rw (s, b) (h, a)
    | inr b ↦ rw (s, b) (a.0, insert_key-AllFrom n k js h a.1)
  ]
]

before-le : (j k : ExpiryKey) → key_before j k ≡ true → j.expires_ms ≤ k.expires_ms
before-le j k h = ground (arith, h)

not_before-le : (j k : ExpiryKey) → key_before j k ≡ false → k.expires_ms ≤ j.expires_ms
not_before-le j k h = ground (arith, h)

insert_key-IsOrdered :
    (k : ExpiryKey) (ks : List ExpiryKey) → IsOrdered ks → IsOrdered (insert_key k ks)
unfolding insert_key
insert_key-IsOrdered k [] a = (tt, tt)
insert_key-IsOrdered k (j ∷ js) a = elim (Bool-cases (same_key j k)) [
  | inl s ↦ rw s a
  | inr s ↦ elim (Bool-cases (key_before k j)) [
    | inl b ↦
        let le = before-le k j b in rw (s, b) ((le, weaken j.expires_ms k.expires_ms js le a.0), a)
    | inr b ↦
        rw (s, b)
          (
            insert_key-AllFrom j.expires_ms k js (not_before-le k j b) a.0,
            insert_key-IsOrdered k js a.1,
          )
  ]
]

remove_key-AllFrom :
    (n : ℕ) (k : ExpiryKey) (ks : List ExpiryKey) → AllFrom n ks → AllFrom n (remove_key k ks)
unfolding remove_key
remove_key-AllFrom n k [] a = tt
remove_key-AllFrom n k (j ∷ js) a = elim (Bool-cases (same_key j k)) [
  | inl s ↦ rw s a.1
  | inr s ↦ rw s (a.0, remove_key-AllFrom n k js a.1)
]

remove_key-IsOrdered :
    (k : ExpiryKey) (ks : List ExpiryKey) → IsOrdered ks → IsOrdered (remove_key k ks)
unfolding remove_key
remove_key-IsOrdered k [] a = tt
remove_key-IsOrdered k (j ∷ js) a = elim (Bool-cases (same_key j k)) [
  | inl s ↦ rw s a.1
  | inr s ↦ rw s (remove_key-AllFrom j.expires_ms k js a.0, remove_key-IsOrdered k js a.1)
]

evict_first-IsOrdered :
    (s : ObservedDnsNames) (keys : List ExpiryKey)
    → s.by_expiry ≡ keys
    → IsOrdered s.by_expiry
    → IsOrdered (evict_first s keys).by_expiry
unfolding evict_first
evict_first-IsOrdered s [] e a = a
evict_first-IsOrdered s (k ∷ ks) e a = let b = subst IsOrdered e a in b.1

make_room-IsOrdered :
    (s : ObservedDnsNames) (addr : List ℕ) (o : Option Entry)
    → IsOrdered s.by_expiry
    → IsOrdered (make_room s addr o).by_expiry
unfolding make_room
make_room-IsOrdered s addr none a = elim (Bool-cases (leb s.capacity (length s.entries))) [
  | inl full ↦ rw full (evict_first-IsOrdered s s.by_expiry refl a)
  | inr room ↦ rw room a
]
make_room-IsOrdered s addr (some old) a = remove_key-IsOrdered (key_of addr old) s.by_expiry a

pub insert_name-IsOrdered :
    (s : ObservedDnsNames) (addr name : List ℕ) (expires_ms : ℕ)
    → IsOrdered s.by_expiry
    → IsOrdered (insert_name s addr name expires_ms).by_expiry
unfolding insert_name add_entry
insert_name-IsOrdered s addr name expires_ms a =
    let r = make_room-IsOrdered s addr (lookup addr s.entries) a in
    elim (Bool-cases (s.capacity == 0)) [
      | inl z ↦ rw z r
      | inr p ↦ rw p (insert_key-IsOrdered _ _ r)
    ]

-- An entry that is not at or past its expiry.
abbrev pub live_only : ℕ → Option Entry → Option Entry
live_only now_ms none = none
live_only now_ms (some e) = if ltb now_ms e.expires_ms then some e else none

lookup_nothing :
    (a : List ℕ) (entries : Table (List ℕ) Entry) → entries ≡ [] → lookup a entries ≡ none
unfolding lookup
lookup_nothing a entries h = rw h refl

-- The entry that a key stands for.
keyed :
    (a : List ℕ) (k : ExpiryKey) (entries : Table (List ℕ) Entry) (e : Entry)
    → k.addr ≡ a
    → lookup k.addr entries ≡ some e
    → key_of k.addr e ≡ k
    → (lookup a entries ≡ some e) × (e.expires_ms ≡ k.expires_ms)
keyed a k entries e same found key =
    (sym (ap (λ x. lookup x entries) same) ∙ found, ap (λ j. j.expires_ms) key)

all_live :
    (now_ms : ℕ) (a : List ℕ) (keys : List ExpiryKey) (entries : Table (List ℕ) Entry)
    → Agrees entries keys
    → AllFrom (suc now_ms) keys
    → live_only now_ms (lookup a entries) ≡ lookup a entries
all_live now_ms a [] entries h l = let z = lookup_nothing a entries h in rw z refl
all_live now_ms a (k ∷ ks) entries (found, once, rest) l = elim (same_bytes-cases k.addr a) [
  | inl same ↦
      let at = keyed a k entries found.0 same found.1 found.2 in
      rw at.0 (rw (lt→ltb now_ms found.0.expires_ms (omega (arith, at.1, l.0))) refl)
  | inr ne ↦
      subst (λ o. live_only now_ms o ≡ o) (lookup-remove_ne k.addr a entries ne)
        (all_live now_ms a ks (remove k.addr entries) rest l.1)
]

-- A key that is due stands for an entry that no reader sees.
due_unseen :
    (now_ms : ℕ) (a : List ℕ) (k : ExpiryKey) (ks : List ExpiryKey) (entries : Table (List ℕ) Entry)
    → Agrees entries (k ∷ ks)
    → k.expires_ms ≤ now_ms
    → live_only now_ms (lookup a (remove k.addr entries)) ≡ live_only now_ms (lookup a entries)
due_unseen now_ms a k ks entries (found, once, rest) h = elim (same_bytes-cases k.addr a) [
  | inl same ↦
      let at = keyed a k entries found.0 same found.1 found.2 in
      let gone : lookup a (remove k.addr entries) ≡ none =
        subst (λ x. lookup x (remove k.addr entries) ≡ none) same once in
      rw (gone, at.0) (rw (le→ltb now_ms found.0.expires_ms (omega (arith, at.1, h))) refl)
  | inr ne ↦ ap (live_only now_ms) (lookup-remove_ne k.addr a entries ne)
]

lookup-purge_front :
    (now_ms : ℕ) (a : List ℕ) (keys : List ExpiryKey) (entries : Table (List ℕ) Entry)
    → Agrees entries keys
    → IsOrdered keys
    → lookup a (purge_front now_ms keys entries).1 ≡ live_only now_ms (lookup a entries)
unfolding purge_front
lookup-purge_front now_ms a [] entries h o = sym (all_live now_ms a [] entries h tt)
lookup-purge_front now_ms a (k ∷ ks) entries h o = elim (Bool-cases (ltb now_ms k.expires_ms)) [
  | inl live ↦
      let later = ltb→lt now_ms k.expires_ms live in
      rw live (
        sym (
          all_live now_ms a (k ∷ ks) entries h
            (omega arith, weaken k.expires_ms (suc now_ms) ks (omega arith) o.0)))
  | inr due ↦ rw due (
      lookup-purge_front now_ms a ks (remove k.addr entries) h.2 o.1
      ∙ due_unseen now_ms a k ks entries h (ground (arith, due)))
]

-- A purge removes exactly what is at or past its expiry: every address that still has an entry
-- alive keeps it, and every other has none.
pub lookup-purge_expired :
    (s : ObservedDnsNames) (now_ms : ℕ) (addr : List ℕ)
    → IsBounded s
    → IsOrdered s.by_expiry
    → lookup addr (purge_expired s now_ms).entries ≡ live_only now_ms (lookup addr s.entries)
unfolding purge_expired
lookup-purge_expired s now_ms addr v o =
    lookup-purge_front now_ms addr s.by_expiry s.entries v.agrees o

purge_front-IsOrdered :
    (now_ms : ℕ) (keys : List ExpiryKey) (entries : Table (List ℕ) Entry)
    → IsOrdered keys
    → IsOrdered (purge_front now_ms keys entries).0
unfolding purge_front
purge_front-IsOrdered now_ms [] entries o = tt
purge_front-IsOrdered now_ms (k ∷ ks) entries o = elim (Bool-cases (ltb now_ms k.expires_ms)) [
  | inl live ↦ rw live o
  | inr due ↦ rw due (purge_front-IsOrdered now_ms ks (remove k.addr entries) o.1)
]

pub purge_expired-IsOrdered :
    (s : ObservedDnsNames) (now_ms : ℕ)
    → IsOrdered s.by_expiry
    → IsOrdered (purge_expired s now_ms).by_expiry
unfolding purge_expired
purge_expired-IsOrdered s now_ms o = purge_front-IsOrdered now_ms s.by_expiry s.entries o

lookup-make_room :
    (s : ObservedDnsNames) (addr b : List ℕ) (o : Option Entry)
    → (is_some o ≡ true) ⊎ (length s.entries < s.capacity)
    → same_bytes addr b ≡ false
    → lookup b (make_room s addr o).entries ≡ lookup b s.entries
unfolding make_room
lookup-make_room s addr b (some old) r ne = lookup-remove_ne addr b s.entries ne
lookup-make_room s addr b none (inl bad) ne = absurd (cc)
lookup-make_room s addr b none (inr room) ne =
    let not_full : leb s.capacity (length s.entries) ≡ false = ground (arith, room) in
    rw not_full refl

-- Learning a name for an address, when the address has an entry or the table is not full, replaces
-- or adds that entry, and changes no other.
pub lookup-insert_name :
    (s : ObservedDnsNames) (addr name : List ℕ) (expires_ms : ℕ) (b : List ℕ)
    → s.capacity ≢ 0
    → (is_some (lookup addr s.entries) ≡ true) ⊎ (length s.entries < s.capacity)
    → lookup b (insert_name s addr name expires_ms).entries ≡ (
        if same_bytes addr b
        then some (record {
          name = name;
          expires_ms = expires_ms;
          seq = (make_room s addr (lookup addr s.entries)).next_seq;
        })
        else lookup b s.entries)
unfolding insert_name add_entry
lookup-insert_name s addr name expires_ms b ne r =
    let roomy = make_room s addr (lookup addr s.entries) in
    let learns : (s.capacity == 0) ≡ false = ground (arith, ne) in
    let e : Entry = record { name = name; expires_ms = expires_ms; seq = roomy.next_seq } in
    rw learns (
      lookup-insert addr b e roomy.entries ∙ elim (Bool-cases (same_bytes addr b)) [
        | inl same ↦ rw same refl
        | inr other ↦ rw other (lookup-make_room s addr b (lookup addr s.entries) r other)
      ])
