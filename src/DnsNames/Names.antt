-- ===== src/DnsNames/Names.antt =====
-- The table of capture-agent/src/dns_names.rs: entries by address, and in order of expiry.
pub mod Agreement
pub mod Order
use network_monitor.Base.{
  same_bytes, same_bytes_iff, ℕ, zero, suc, ◌+◌, ◌-◌, ◌*◌, ◌/◌, ◌%◌, ◌^◌, ◌≤◌, ◌<◌, min, max, ◌≡◌,
  refl, sym, ap, ◌∙◌, subst, ◌≢◌, ◌↔◌, ◌⊎◌, inl, inr, Bool, true, false, not, ◌&&◌, ◌||◌, Option,
  none, some, List, [], ◌∷◌, ◌++◌, map, arith, ltb, leb, ◌==◌, if◌then◌else◌, is_some, ltb→lt,
  lt→ltb, le→ltb, leb→le, le→leb, ==_iff, tests, Bool-cases, Option-cases, length, get_or-drop,
  get_elem?, get_or, set, take, drop, replicate, resize, length-append, length-set, length-take,
  length-drop, length-replicate, length-resize, take-append-drop, get_or-resize, get_or-set_self,
  get_or-set_ne, get_or_beyond, get_or-take, get_or_ext, get_or-append, drop-append, take-append,
  append_assoc, append_nil, u32_mod, u64_max, wrapping_add32, wrapping_sub32, saturating_add, add64,
  Eq, string_eq, beq_refl, Table, measure_of, lookup, contains_key, insert, remove, total,
  AllValues, total-remove, total-insert, length-remove, length-insert, lookup-AllValues,
  remove-AllValues, insert-AllValues, lookup-insert, lookup-remove_ne,
}

instance abbrev pub address_eq : Eq (List ℕ)
address_eq = record { beq = same_bytes; beq_iff = same_bytes_iff }

pub record Entry : Type 0 where
  pub name : List ℕ
  pub expires_ms : ℕ
  pub seq : ℕ

-- `(u64, u64, String)`.
pub record ExpiryKey : Type 0 where
  pub expires_ms : ℕ
  pub seq : ℕ
  pub addr : List ℕ

-- `by_expiry` is the set's keys in their order.
pub record ObservedDnsNames : Type 0 where
  pub capacity : ℕ
  pub entries : Table (List ℕ) Entry
  pub by_expiry : List ExpiryKey
  pub next_seq : ℕ
  pub evictions : ℕ

unfoldable pub new : ℕ → ObservedDnsNames
new capacity = record {
  capacity = capacity;
  entries = [];
  by_expiry = [];
  next_seq = 0;
  evictions = 0;
}

abbrev pub bytes_before : List ℕ → List ℕ → Bool
bytes_before [] [] = false
bytes_before [] (y ∷ ys) = true
bytes_before (x ∷ xs) [] = false
bytes_before (x ∷ xs) (y ∷ ys) = ltb x y || (x == y && bytes_before xs ys)

abbrev pub same_key : ExpiryKey → ExpiryKey → Bool
same_key j k = j.expires_ms == k.expires_ms && j.seq == k.seq && same_bytes j.addr k.addr

-- The order of the tuples.
abbrev pub key_before : ExpiryKey → ExpiryKey → Bool
key_before j k =
    ltb j.expires_ms k.expires_ms
    || (j.expires_ms == k.expires_ms
        && (ltb j.seq k.seq || (j.seq == k.seq && bytes_before j.addr k.addr)))

-- `insert` and `remove` of the set.
unfoldable pub insert_key : ExpiryKey → List ExpiryKey → List ExpiryKey
insert_key k [] = k ∷ []
insert_key k (j ∷ js) =
    let rest = insert_key k js in
    if same_key j k then j ∷ js else if key_before k j then k ∷ j ∷ js else j ∷ rest

unfoldable pub remove_key : ExpiryKey → List ExpiryKey → List ExpiryKey
remove_key k [] = []
remove_key k (j ∷ js) = let rest = remove_key k js in if same_key j k then js else j ∷ rest

abbrev pub key_of : List ℕ → Entry → ExpiryKey
key_of addr e = record { expires_ms = e.expires_ms; seq = e.seq; addr = addr }

-- The entry that expires soonest goes; the second argument is the order of expiry.
unfoldable pub evict_first : ObservedDnsNames → List ExpiryKey → ObservedDnsNames
evict_first s [] = s
evict_first s (victim ∷ others) = record s {
  by_expiry = others;
  entries = remove victim.addr s.entries;
  evictions = add64 s.evictions 1;
}

-- Room for the address: its old entry goes, or else, in a full table, another one.
unfoldable pub make_room : ObservedDnsNames → List ℕ → Option Entry → ObservedDnsNames
make_room s addr (some old) = record s {
  entries = remove addr s.entries;
  by_expiry = remove_key (key_of addr old) s.by_expiry;
}
make_room s addr none = if leb s.capacity (length s.entries) then evict_first s s.by_expiry else s

unfoldable pub add_entry : ObservedDnsNames → List ℕ → List ℕ → ℕ → ObservedDnsNames
add_entry s addr name expires_ms =
    let e : Entry = record { name = name; expires_ms = expires_ms; seq = s.next_seq } in
    record s {
      next_seq = add64 s.next_seq 1;
      by_expiry = insert_key (key_of addr e) s.by_expiry;
      entries = insert addr e s.entries;
    }

-- `insert`.
unfoldable pub insert_name : ObservedDnsNames → List ℕ → List ℕ → ℕ → ObservedDnsNames
insert_name s addr name expires_ms =
    let roomy = make_room s addr (lookup addr s.entries) in
    if s.capacity == 0 then roomy else add_entry roomy addr name expires_ms

-- The loop of `purge_expired`.
unfoldable pub purge_front :
    ℕ → List ExpiryKey → Table (List ℕ) Entry → List ExpiryKey × Table (List ℕ) Entry
purge_front now_ms [] entries = ([], entries)
purge_front now_ms (k ∷ ks) entries =
    let rest = purge_front now_ms ks (remove k.addr entries) in
    if ltb now_ms k.expires_ms then (k ∷ ks, entries) else rest

unfoldable pub purge_expired : ObservedDnsNames → ℕ → ObservedDnsNames
purge_expired s now_ms =
    let (by_expiry', entries') = purge_front now_ms s.by_expiry s.entries in
    record s { by_expiry = by_expiry'; entries = entries' }

-- `lookup`.
unfoldable pub lookup_name : ObservedDnsNames → List ℕ → ℕ → Option (List ℕ)
lookup_name s addr now_ms = elim (lookup addr s.entries) [
  | none ↦ none
  | some e ↦ if ltb now_ms e.expires_ms then some e.name else none
]

pub clear : ObservedDnsNames → ObservedDnsNames
clear s = record s { entries = []; by_expiry = [] }

pub len : ObservedDnsNames → ℕ
len s = length s.entries

pub is_empty : ObservedDnsNames → Bool
is_empty s = length s.entries == 0
