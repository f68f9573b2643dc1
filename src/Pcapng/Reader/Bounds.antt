-- ===== src/Pcapng/Reader/Bounds.antt =====
-- What the reader of capture-agent/src/pcapng.rs retains, whatever it is given.
use network_monitor.Base.{
  ℕ, zero, suc, ◌+◌, ◌-◌, ◌≤◌, ◌≡◌, refl, Bool, false, not, ◌&&◌, ◌||◌, Option, none, some, List,
  [], ◌∷◌, ◌++◌, arith, ltb, leb, ◌==◌, if◌then◌else◌, length, drop, length-append, string_eq,
}
use network_monitor.Base.Results.{
  Result, ok, ◌>>=◌, IfOk, bind-IfOk, if-IfOk, option-IfOk, any-IfOk,
}
use network_monitor.Pcapng.Codec.{
  ByteOrder, field, ReadError, bt_section_header, bt_interface_description, bt_enhanced_packet,
}
use network_monitor.Pcapng.Reader.Blocks.{read_section_block, options}
use network_monitor.Pcapng.Reader.Entries.{
  StoredInterface, ParsedInterface, ParsedPacket, parse_interface,
}
use network_monitor.Pcapng.Reader.{
  Reader, max_interfaces, max_interface_name_bytes, start_section, is_section_length, name_bytes,
  add_interface, decode_packet, take_block, next_from, next_packet, last_supported, stop_or_go,
  open_from, open_reader,
}

-- The bytes of the names that are stored.
abbrev pub stored_names : List StoredInterface → ℕ
stored_names [] = 0
stored_names (i ∷ is) = name_bytes i.interface_name + stored_names is

stored_names-append :
    (is js : List StoredInterface) → stored_names (is ++ js) ≡ stored_names is + stored_names js
stored_names-append [] js = omega arith
stored_names-append (i ∷ is) js = omega (arith, stored_names-append is js)

-- Interfaces and their names are within the limits, and the names are accounted for.
pub record IsBounded (r : Reader) : Type 0 where
  pub interfaces_le : length r.interfaces ≤ max_interfaces
  pub names_le : r.interface_name_bytes ≤ max_interface_name_bytes
  pub accounted : r.interface_name_bytes ≡ stored_names r.interfaces

empty-IsBounded :
    (r : Reader) (known : Bool)
    → IsBounded (record r { supported_section = known; interfaces = []; interface_name_bytes = 0 })
empty-IsBounded r known = record {
  interfaces_le = omega arith;
  names_le = omega arith;
  accounted = refl;
}

start_section-IsBounded :
    (r : Reader) (order : ByteOrder) (body : List ℕ) → IfOk IsBounded (start_section r order body)
unfolding start_section
start_section-IsBounded r order body =
    let major = field order 4 2 body in
    let minor = field order 6 2 body in
    let known = major == 1 && (minor == 0 || minor == 2) in
    if-IfOk IsBounded (not known) _ _ (λ e. empty-IsBounded r known)
      (λ e.
        if-IfOk IsBounded (not (is_section_length (field order 8 8 body))) _ _ (λ f. tt)
          (λ f.
            bind-IfOk (λ os. Unit {0}) IsBounded (options (length body) order (drop 16 body)) _
              (any-IfOk _) (λ os u. empty-IsBounded r known)))

module _ (lossy : List ℕ → List ℕ) where
  add_interface-IsBounded :
      (r : Reader) (order : ByteOrder) (body : List ℕ)
      → IsBounded r
      → IfOk IsBounded (add_interface lossy r order body)
  unfolding add_interface
  add_interface-IsBounded r order body v =
      if-IfOk IsBounded (leb max_interfaces (length r.interfaces)) _ _ (λ e. tt)
        (λ room.
          bind-IfOk (λ i. Unit {0}) IsBounded (parse_interface lossy order body) _ (any-IfOk _)
            (λ entry u.
              if-IfOk IsBounded
                (ltb (max_interface_name_bytes - r.interface_name_bytes)
                  (name_bytes entry.interface_name))
                _ _ (λ e. tt)
                (λ fits. record {
                  interfaces_le = ground (arith, room, length-append r.interfaces (entry ∷ []));
                  names_le = ground (arith, fits, v.names_le);
                  accounted =
                      omega (arith, v.accounted, stored_names-append r.interfaces (entry ∷ []));
                })))

  -- One block, whatever it is.
  take_block-IsBounded :
      (r : Reader) (order : ByteOrder) (kind : ℕ) (body : List ℕ)
      → IsBounded r
      → IfOk (λ found. IsBounded found.0) (take_block lossy r order kind body)
  unfolding take_block
  take_block-IsBounded r order kind body v =
      let P : Reader × Option ParsedPacket → Type 0 = λ found. IsBounded found.0 in
      if-IfOk P (kind == bt_section_header) _ _
        (λ e.
          bind-IfOk IsBounded P (start_section r order body) _
            (start_section-IsBounded r order body) (λ r' h. h))
        (λ e.
          if-IfOk P (not r.supported_section) _ _ (λ f. v)
            (λ f.
              if-IfOk P (kind == bt_interface_description) _ _
                (λ g.
                  bind-IfOk IsBounded P (add_interface lossy r order body) _
                    (add_interface-IsBounded r order body v) (λ r' h. h))
                (λ g.
                  if-IfOk P (kind == bt_enhanced_packet) _ _
                    (λ k.
                      bind-IfOk (λ p. Unit {0}) P (decode_packet lossy r order body) _ (any-IfOk _)
                        (λ p u. v))
                    (λ k. if-IfOk P (kind == 2 || kind == 3) _ _ (λ l. tt) (λ l. v)))))

  moved-IsBounded :
      (r : Reader) (input : List ℕ) (order : ByteOrder)
      → IsBounded r
      → IsBounded (record r { input = input; order = some order })
  moved-IsBounded r input order v = record {
    interfaces_le = v.interfaces_le;
    names_le = v.names_le;
    accounted = v.accounted;
  }

  next_from-IsBounded :
      (fuel : ℕ) (r : Reader)
      → IsBounded r
      → IfOk (λ found. IsBounded found.0) (next_from lossy fuel r)
  unfolding next_from
  next_from-IsBounded zero r v = v
  next_from-IsBounded (suc fuel) r v =
      let P : Reader × Option ParsedPacket → Type 0 = λ found. IsBounded found.0 in
      bind-IfOk (λ b. Unit {0}) P (read_section_block r.order r.input) _ (any-IfOk _)
        (λ block u. option-IfOk P block _ _ v (λ ((kind, body), (order, rest)).
          bind-IfOk P P
            (take_block lossy (record r { input = rest; order = some order }) order kind body) _
            (take_block-IsBounded (record r { input = rest; order = some order }) order kind body
              (moved-IsBounded r rest order v))
            (λ (r', found) h. option-IfOk P found _ _ (next_from-IsBounded fuel r' h) (λ p. h))))

  stop_or_go-IsBounded :
      (o : Option ParsedInterface) (r : Reader) (more : Result ReadError (Reader × ParsedInterface))
      → IsBounded r
      → IfOk (λ opened. IsBounded opened.0) more
      → IfOk (λ opened. IsBounded opened.0) (stop_or_go lossy o r more)
  stop_or_go-IsBounded none r more v h = h
  stop_or_go-IsBounded (some i) r more v h = v

  open_from-IsBounded :
      (fuel : ℕ) (r : Reader)
      → IsBounded r
      → IfOk (λ opened. IsBounded opened.0) (open_from lossy fuel r)
  unfolding open_from
  open_from-IsBounded zero r v = tt
  open_from-IsBounded (suc fuel) r v =
      let P : Reader × ParsedInterface → Type 0 = λ opened. IsBounded opened.0 in
      let Q : Reader × Option ParsedPacket → Type 0 = λ found. IsBounded found.0 in
      bind-IfOk (λ b. Unit {0}) P (read_section_block r.order r.input) _ (any-IfOk _)
        (λ block u. option-IfOk P block _ _ tt (λ ((kind, body), (order, rest)).
          bind-IfOk Q P
            (take_block lossy (record r { input = rest; order = some order }) order kind body) _
            (take_block-IsBounded (record r { input = rest; order = some order }) order kind body
              (moved-IsBounded r rest order v))
            (λ (r', found) h.
              stop_or_go-IsBounded
                (if r.supported_section && kind == bt_interface_description
                  then last_supported lossy r'.interfaces
                  else none)
                r' (open_from lossy fuel r') h (open_from-IsBounded fuel r' h))))

  open_reader-IsBounded :
      (input : List ℕ) → IfOk (λ opened. IsBounded opened.0) (open_reader lossy input)
  unfolding open_reader
  open_reader-IsBounded input =
      open_from-IsBounded (suc (length input))
        (record {
          input = input;
          order = none;
          supported_section = false;
          interfaces = [];
          interface_name_bytes = 0;
        })
        (record { interfaces_le = omega arith; names_le = omega arith; accounted = refl })

  next_packet-IsBounded :
      (r : Reader) → IsBounded r → IfOk (λ found. IsBounded found.0) (next_packet lossy r)
  unfolding next_packet
  next_packet-IsBounded r v = next_from-IsBounded (suc (length r.input)) r v

  -- The reader after `n` calls for a packet, if all of them succeed.
  abbrev pub after_packets : ℕ → Reader → Result ReadError Reader
  after_packets zero r = ok r
  after_packets (suc n) r = do (r', found) ← next_packet lossy r; after_packets n r'

  -- A session: a file is opened, then packets are called for.
  abbrev pub session : ℕ → List ℕ → Result ReadError Reader
  session n input = do (r, interface) ← open_reader lossy input; after_packets n r

  after_packets-IsBounded : (n : ℕ) (r : Reader) → IsBounded r → IfOk IsBounded (after_packets n r)
  after_packets-IsBounded zero r v = v
  after_packets-IsBounded (suc n) r v =
      bind-IfOk (λ found. IsBounded found.0) IsBounded (next_packet lossy r) _
        (next_packet-IsBounded r v) (λ (r', found) h. after_packets-IsBounded n r' h)

  -- Whatever bytes a file holds: once it is opened and any number of packets is called for, and as
  -- long as each of these calls succeeds, the reader stores at most 4096 interfaces and at most
  -- 16 MiB of their names, and it accounts for them. After an error there is no reader to go on
  -- with.
  pub session-IsBounded : (n : ℕ) (input : List ℕ) → IfOk IsBounded (session n input)
  session-IsBounded n input =
      bind-IfOk (λ opened. IsBounded opened.0) IsBounded (open_reader lossy input) _
        (open_reader-IsBounded input) (λ (r, interface) h. after_packets-IsBounded n r h)
