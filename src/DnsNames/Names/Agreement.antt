-- ===== src/DnsNames/Names/Agreement.antt =====
-- The entries of capture-agent/src/dns_names.rs and their order of expiry agree, and stay within the
-- capacity.
use network_monitor.Base.{
  same_bytes, same_bytes_iff, ℕ, ◌+◌, ◌≤◌, ◌<◌, max, ◌≡◌, refl, sym, ap, ◌∙◌, subst, ◌≢◌, ◌⊎◌, inl,
  inr, true, false, Option, none, some, List, [], ◌∷◌, arith, ltb, leb, ◌==◌, is_some, Bool-cases,
  length, string_eq, Table, lookup, insert, remove, length-remove, length-insert, lookup-insert,
  lookup-remove_ne, remove-insert_fresh, remove-insert_ne, remove-remove_ne,
}
use network_monitor.DnsNames.Names.{
  address_eq, Entry, ExpiryKey, ObservedDnsNames, new, same_key, key_before, insert_key, remove_key,
  key_of, evict_first, make_room, add_entry, insert_name, purge_front, purge_expired,
}

-- `keys` are those of the entries, one for each address.
abbrev pub Agrees : Table (List ℕ) Entry → List ExpiryKey → Type 0
Agrees entries [] = entries ≡ []
Agrees entries (k ∷ ks) =
    ((e : Entry) × (lookup k.addr entries ≡ some e) × (key_of k.addr e ≡ k))
    × (lookup k.addr (remove k.addr entries) ≡ none)
    × Agrees (remove k.addr entries) ks

same_bytes_ne : (a b : List ℕ) → a ≢ b → same_bytes a b ≡ false
same_bytes_ne a b h = elim (Bool-cases (same_bytes a b)) [
  | inl e ↦ absurd (h ((same_bytes_iff a b).0 e))
  | inr e ↦ e
]

pub same_bytes-cases : (a b : List ℕ) → (a ≡ b) ⊎ (same_bytes a b ≡ false)
same_bytes-cases a b = elim (Bool-cases (same_bytes a b)) [
  | inl e ↦ inl ((same_bytes_iff a b).0 e)
  | inr e ↦ inr e
]

length-Agrees :
    (entries : Table (List ℕ) Entry) (keys : List ExpiryKey)
    → Agrees entries keys
    → length entries ≡ length keys
length-Agrees entries [] h = ap length h
length-Agrees entries (k ∷ ks) (found, once, rest) =
    let shrinks = length-remove k.addr entries in
    let one : is_some (lookup k.addr entries) ≡ true = ap is_some found.1 in
    ground (arith, shrinks, one, length-Agrees (remove k.addr entries) ks rest)

-- An address that was removed has no entry.
gone_Agrees :
    (entries : Table (List ℕ) Entry) (keys : List ExpiryKey) (a : List ℕ)
    → Agrees entries keys
    → lookup a (remove a entries) ≡ none
unfolding lookup remove
gone_Agrees entries [] a h = rw h refl
gone_Agrees entries (k ∷ ks) a (found, once, rest) = elim (same_bytes-cases k.addr a) [
  | inl same ↦ subst (λ b. lookup b (remove b entries) ≡ none) same once
  | inr ne ↦
      sym (lookup-remove_ne k.addr a (remove a entries) ne)
      ∙ (ap (lookup a) (sym (remove-remove_ne k.addr a entries ne))
          ∙ gone_Agrees (remove k.addr entries) ks a rest)
]

lookup_added :
    (entries : Table (List ℕ) Entry) (a : List ℕ) (e : Entry)
    → lookup a (insert a e entries) ≡ some e
lookup_added entries a e = lookup-insert a a e entries ∙ rw ((same_bytes_iff a a).1 refl) refl

lookup_beside :
    (entries : Table (List ℕ) Entry) (a b : List ℕ) (e : Entry)
    → same_bytes a b ≡ false
    → lookup b (insert a e entries) ≡ lookup b entries
lookup_beside entries a b e ne = lookup-insert a b e entries ∙ rw ne refl

add-Agrees :
    (entries : Table (List ℕ) Entry) (keys : List ExpiryKey) (a : List ℕ) (e : Entry)
    → Agrees entries keys
    → lookup a entries ≡ none
    → Agrees (insert a e entries) (key_of a e ∷ keys)
add-Agrees entries keys a e h free =
    let back = remove-insert_fresh a e entries free in
    (
      (e, lookup_added entries a e, refl),
      ap (lookup a) back ∙ free,
      subst (λ t. Agrees t keys) (sym back) h,
    )

-- Two addresses that differ, since one has an entry and the other has none.
apart :
    (entries : Table (List ℕ) Entry) (a b : List ℕ) (e : Entry)
    → lookup a entries ≡ none
    → lookup b entries ≡ some e
    → same_bytes a b ≡ false
apart entries a b e free found =
    same_bytes_ne a b (λ same. let bad = sym (ap (λ x. lookup x entries) same ∙ found) ∙ free in cc)

symmetric : (a b : List ℕ) → same_bytes a b ≡ false → same_bytes b a ≡ false
symmetric a b h =
    same_bytes_ne b a (λ same. let bad = sym h ∙ (same_bytes_iff a b).1 (sym same) in cc)

different_keys : (j k : ExpiryKey) → same_bytes j.addr k.addr ≡ false → same_key j k ≡ false
different_keys j k h = ground (arith, h)

insert_key-Agrees :
    (entries : Table (List ℕ) Entry) (keys : List ExpiryKey) (a : List ℕ) (e : Entry)
    → Agrees entries keys
    → lookup a entries ≡ none
    → Agrees (insert a e entries) (insert_key (key_of a e) keys)
unfolding insert_key
insert_key-Agrees entries [] a e h free = add-Agrees entries [] a e h free
insert_key-Agrees entries (k ∷ ks) a e (found, once, rest) free =
    let ne = apart entries a k.addr found.0 free found.1 in
    let swap = remove-insert_ne a k.addr e entries ne in
    let free' = lookup-remove_ne k.addr a entries (symmetric a k.addr ne) ∙ free in
    rw (different_keys k (key_of a e) (symmetric a k.addr ne))
      (elim (Bool-cases (key_before (key_of a e) k)) [
        | inl first ↦ rw first (add-Agrees entries (k ∷ ks) a e (found, once, rest) free)
        | inr later ↦ rw later (
          (found.0, lookup_beside entries a k.addr e ne ∙ found.1, found.2),
          ap (lookup k.addr) swap ∙ (lookup_beside (remove k.addr entries) a k.addr e ne ∙ once),
          subst (λ t. Agrees t (insert_key (key_of a e) ks)) (sym swap)
              (insert_key-Agrees (remove k.addr entries) ks a e rest free'),
        )
      ])

same_key_eq : (j k : ExpiryKey) → j ≡ k → same_key j k ≡ true
same_key_eq j k h =
    let itself : same_key j j ≡ true = ground (arith, (same_bytes_iff j.addr j.addr).1 refl) in
    subst (λ i. same_key j i ≡ true) h itself

remove_key-Agrees :
    (entries : Table (List ℕ) Entry) (keys : List ExpiryKey) (a : List ℕ) (old : Entry)
    → Agrees entries keys
    → lookup a entries ≡ some old
    → Agrees (remove a entries) (remove_key (key_of a old) keys)
unfolding remove_key remove
remove_key-Agrees entries [] a old h found = rw h refl
remove_key-Agrees entries (k ∷ ks) a old (held, once, rest) found =
    elim (same_bytes-cases k.addr a) [
      | inl same ↦
          let at : lookup a entries ≡ some held.0 =
            sym (ap (λ x. lookup x entries) same) ∙ held.1 in
          let both = sym at ∙ found in
          let entry : held.0 ≡ old = cc in
          let key : k ≡ key_of a old =
            sym held.2 ∙ (ap (λ x. key_of x held.0) same ∙ ap (key_of a) entry) in
          rw (same_key_eq k (key_of a old) key)
            (subst (λ b. Agrees (remove b entries) ks) same rest)
      | inr ne ↦
          let swap = remove-remove_ne a k.addr entries (symmetric k.addr a ne) in
          rw (different_keys k (key_of a old) ne) (
            (held.0, lookup-remove_ne a k.addr entries (symmetric k.addr a ne) ∙ held.1, held.2),
            ap (lookup k.addr) swap
                ∙ (lookup-remove_ne a k.addr (remove k.addr entries) (symmetric k.addr a ne)
                    ∙ once),
            subst (λ t. Agrees t (remove_key (key_of a old) ks)) (sym swap)
                (remove_key-Agrees (remove k.addr entries) ks a old rest
                  (lookup-remove_ne k.addr a entries ne ∙ found)),
          )
    ]

-- The two views of the table agree, and it is within its capacity.
pub record IsBounded (s : ObservedDnsNames) : Type 0 where
  pub agrees : Agrees s.entries s.by_expiry
  pub within : length s.entries ≤ s.capacity

-- Besides, there is room for an address.
record HasRoom (s : ObservedDnsNames) (addr : List ℕ) : Type 0 where
  bounded : IsBounded s
  free : lookup addr s.entries ≡ none
  room : length s.entries < max s.capacity 1

length_without :
    (entries : Table (List ℕ) Entry) (a : List ℕ) (e : Entry)
    → lookup a entries ≡ some e
    → length (remove a entries) + 1 ≡ length entries
length_without entries a e h =
    let there : is_some (lookup a entries) ≡ true = ap is_some h in
    ground (arith, length-remove a entries, there)

evict_first-HasRoom :
    (s : ObservedDnsNames) (addr : List ℕ) (keys : List ExpiryKey)
    → s.by_expiry ≡ keys
    → IsBounded s
    → lookup addr s.entries ≡ none
    → HasRoom (evict_first s keys) addr
unfolding evict_first
evict_first-HasRoom s addr [] e v free =
    let none_left : length s.entries ≡ 0 =
      length-Agrees s.entries [] (subst (Agrees s.entries) e v.agrees) in
    record { bounded = v; free = free; room = omega (arith, none_left) }
evict_first-HasRoom s addr (k ∷ ks) e v free =
    let (found, once, rest) = subst (Agrees s.entries) e v.agrees in
    let ne = symmetric addr k.addr (apart s.entries addr k.addr found.0 free found.1) in
    let less = length_without s.entries k.addr found.0 found.1 in
    record {
      bounded = record { agrees = rest; within = omega (arith, less, v.within) };
      free = lookup-remove_ne k.addr addr s.entries ne ∙ free;
      room = omega (arith, less, v.within);
    }

evict_first-capacity :
    (s : ObservedDnsNames) (keys : List ExpiryKey) → (evict_first s keys).capacity ≡ s.capacity
unfolding evict_first
evict_first-capacity s [] = refl
evict_first-capacity s (k ∷ ks) = refl

make_room-HasRoom :
    (s : ObservedDnsNames) (addr : List ℕ) (o : Option Entry)
    → lookup addr s.entries ≡ o
    → IsBounded s
    → HasRoom (make_room s addr o) addr × ((make_room s addr o).capacity ≡ s.capacity)
unfolding make_room
make_room-HasRoom s addr none e v = elim (Bool-cases (leb s.capacity (length s.entries))) [
  | inl full ↦
      rw full (evict_first-HasRoom s addr s.by_expiry refl v e, evict_first-capacity s s.by_expiry)
  | inr room ↦ rw room (record { bounded = v; free = e; room = ground arith }, refl)
]
make_room-HasRoom s addr (some old) e v =
    let less = length_without s.entries addr old e in
    (
      record {
        bounded = record {
          agrees = remove_key-Agrees s.entries s.by_expiry addr old v.agrees e;
          within = omega (arith, less, v.within);
        };
        free = gone_Agrees s.entries s.by_expiry addr v.agrees;
        room = omega (arith, less, v.within);
      },
      refl,
    )

add_entry-IsBounded :
    (s : ObservedDnsNames) (addr name : List ℕ) (expires_ms : ℕ)
    → HasRoom s addr
    → s.capacity ≢ 0
    → IsBounded (add_entry s addr name expires_ms)
unfolding add_entry
add_entry-IsBounded s addr name expires_ms v ne =
    let e : Entry = record { name = name; expires_ms = expires_ms; seq = s.next_seq } in
    let absent : is_some (lookup addr s.entries) ≡ false = ap is_some v.free in
    record {
      agrees = insert_key-Agrees s.entries s.by_expiry addr e v.bounded.agrees v.free;
      within = ground (arith, length-insert addr e s.entries, absent, v.room, ne);
    }

-- Learning a name keeps the two views of the table in agreement and the table within its capacity.
pub insert_name-IsBounded :
    (s : ObservedDnsNames) (addr name : List ℕ) (expires_ms : ℕ)
    → IsBounded s
    → IsBounded (insert_name s addr name expires_ms)
unfolding insert_name
insert_name-IsBounded s addr name expires_ms v =
    let r = make_room-HasRoom s addr (lookup addr s.entries) refl v in
    elim (Bool-cases (s.capacity == 0)) [
      | inl z ↦ rw z r.0.bounded
      | inr p ↦ rw p (add_entry-IsBounded _ addr name expires_ms r.0 (ground (arith, r.1)))
    ]

purge_front-Agrees :
    (now_ms cap : ℕ) (keys : List ExpiryKey) (entries : Table (List ℕ) Entry)
    → Agrees entries keys
    → length entries ≤ cap
    → let (keys', entries') = purge_front now_ms keys entries in
      Agrees entries' keys' × (length entries' ≤ cap)
unfolding purge_front
purge_front-Agrees now_ms cap [] entries a h = (a, h)
purge_front-Agrees now_ms cap (k ∷ ks) entries a h = elim (Bool-cases (ltb now_ms k.expires_ms)) [
  | inl live ↦ rw live (a, h)
  | inr due ↦ rw due (
      purge_front-Agrees now_ms cap ks (remove k.addr entries) a.2
        (omega (arith, h, length_without entries k.addr a.0.0 a.0.1)))
]

pub purge_expired-IsBounded :
    (s : ObservedDnsNames) (now_ms : ℕ) → IsBounded s → IsBounded (purge_expired s now_ms)
unfolding purge_expired
purge_expired-IsBounded s now_ms v =
    let p = purge_front-Agrees now_ms s.capacity s.by_expiry s.entries v.agrees v.within in
    record { agrees = p.0; within = p.1 }

pub new-IsBounded : (capacity : ℕ) → IsBounded (new capacity)
unfolding new
new-IsBounded capacity = record { agrees = refl; within = omega arith }
