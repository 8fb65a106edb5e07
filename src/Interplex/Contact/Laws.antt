-- ===== src/Interplex/Contact/Laws.antt =====
-- A contact that is sent and received.
use unisphere.Prelude.{
  ℕ, ◌%◌, ◌^◌, ◌<◌, ◌≡◌, refl, sym, ap, subst, ◌∙◌, false, Option, none, some, List, [], ◌∷◌, ◌++◌,
  All, append-nil, append_assoc, arith, if◌then◌else◌, ◌==◌, length,
}
use unisphere.Prelude.Int.{ℤ, pos, negsuc, ltb_ℤ}
use unisphere.Interplex.Contact.{
  Address, ip, local, no_address, Ranked, Contact, ContactLibrary, insert_ranked, add_address,
  wire_ranked, contact_to_message, default_priority, add_wire, contact_of_message,
}

-- Behind entries of the same priority, an entry is inserted at the end.
insert_ranked-last :
    (r : Ranked) (rs : List Ranked)
    → All (λ s. s.priority ≡ r.priority) rs
    → insert_ranked r rs ≡ rs ++ (r ∷ [])
unfolding insert_ranked
insert_ranked-last r [] h = refl
insert_ranked-last r (s ∷ ss) h =
    ap (λ b. if b then r ∷ s ∷ ss else s ∷ insert_ranked r ss) (not_below s.priority r.priority h.0)
    ∙ ap (λ t. s ∷ t) (insert_ranked-last r ss h.1)
  where
    not_below : (x y : ℤ) → x ≡ y → ltb_ℤ y x ≡ false
    not_below (pos a) y e = subst (λ z. ltb_ℤ z (pos a) ≡ false) e (ground arith)
    not_below (negsuc a) y e = subst (λ z. ltb_ℤ z (negsuc a) ≡ false) e (ground arith)

All-default :
    (rs : List Ranked) (r : Ranked)
    → r.priority ≡ default_priority
    → All (λ s. s.priority ≡ default_priority) rs
    → All (λ s. s.priority ≡ default_priority) (rs ++ (r ∷ []))
All-default [] r e h = (e, tt)
All-default (s ∷ rs) r e h = (h.0, All-default rs r e h.1)

-- The addresses that a protocol message can carry.
abbrev pub internet : List Ranked → List Ranked
internet [] = []
internet (r ∷ rs) =
    let rest = internet rs in
    elim r.address [
      | no_address ↦ rest
      | ip h p ↦ record { priority = default_priority; address = ip h p } ∷ rest
      | local p ↦ rest
    ]

-- A port of an endpoint has 16 bits.
abbrev pub HasPort : Address → Type 0
HasPort no_address = Unit
HasPort (ip h p) = p < 2 ^ 16
HasPort (local p) = Unit

module _ (lib : ContactLibrary)
    (parses : (h : List ℕ) → lib.from_string (lib.to_string h) ≡ some h) where
  add_wire-ip :
      (h : List ℕ) (p : ℕ) (more : List (List ℕ × ℕ)) (c : Contact)
      → p < 2 ^ 16
      → All (λ s. s.priority ≡ default_priority) c.addresses
      → add_wire lib ((lib.to_string h, p) ∷ more) c
        ≡ add_wire lib more (record c {
          addresses =
              c.addresses ++ (record { priority = default_priority; address = ip h p } ∷ []);
        })
  unfolding add_wire add_address
  add_wire-ip h p more c fits tame =
      let uncut : p % 2 ^ 16 ≡ p = omega (arith, fits) in
      ap
        (λ (o : Option (List ℕ)). elim o as (λ q. Option Contact) [
          | none ↦ none
          | some g ↦ add_wire lib more (add_address (ip g (p % 2 ^ 16)) default_priority c)
        ])
        (parses h)
      ∙ ap (λ q. add_wire lib more (add_address (ip h q) default_priority c)) uncut
      ∙ ap (λ rs. add_wire lib more (record c { addresses = rs }))
          (insert_ranked-last (record { priority = default_priority; address = ip h p }) c.addresses
            tame)

  add_wire-internet :
      (rs : List Ranked) (c : Contact)
      → All (λ r. HasPort r.address) rs
      → All (λ s. s.priority ≡ default_priority) c.addresses
      → add_wire lib (wire_ranked lib rs) c
        ≡ some (record c { addresses = c.addresses ++ internet rs })
  unfolding wire_ranked add_wire
  add_wire-internet [] c fits tame =
      ap (λ rs. some (record c { addresses = rs })) (sym (append-nil c.addresses))
  add_wire-internet (r ∷ rs) c fits tame =
      by_address r.address fits.0 (λ d. add_wire-internet rs d fits.1)
    where
      by_address :
          (a : Address)
          → HasPort a
          → ((d : Contact)
              → All (λ s. s.priority ≡ default_priority) d.addresses
              → add_wire lib (wire_ranked lib rs) d
                ≡ some (record d { addresses = d.addresses ++ internet rs }))
          → add_wire lib
              (elim a as (λ q. List (List ℕ × ℕ)) [
                | no_address ↦ wire_ranked lib rs
                | ip h p ↦ (lib.to_string h, p) ∷ wire_ranked lib rs
                | local p ↦ wire_ranked lib rs
              ])
              c
            ≡ some (record c {
              addresses = c.addresses ++ (elim a as (λ q. List Ranked) [
                | no_address ↦ internet rs
                | ip h p ↦ record { priority = default_priority; address = ip h p } ∷ internet rs
                | local p ↦ internet rs
              ]);
            })
      by_address no_address fit rest = rest c tame
      by_address (local p) fit rest = rest c tame
      by_address (ip h p) fit rest =
          let r : Ranked = record { priority = default_priority; address = ip h p } in
          add_wire-ip h p (wire_ranked lib rs) c fit tame
          ∙ rest (record c { addresses = c.addresses ++ (r ∷ []) })
              (All-default c.addresses r refl tame)
          ∙ ap (λ rs. some (record c { addresses = rs }))
              (append_assoc c.addresses (r ∷ []) (internet rs))

  -- A contact that is sent and received has its key and its addresses of type IP, in their order, each
  -- with the default priority: local addresses and priorities do not travel. A contact whose key has
  -- another size than keys have, a null one among them, is refused. Ports have 16 bits, a host is read back from
  -- its text, and the key carries its hash.
  pub contact_of_message-contact_to_message :
      (c : Contact)
      → All (λ r. HasPort r.address) c.addresses
      → lib.hash c.peer_key.bytes ≡ c.peer_key.hashed
      → contact_of_message lib (contact_to_message lib c) ≡ (
          if length c.peer_key.bytes == lib.key_size
          then some (record { peer_key = c.peer_key; addresses = internet c.addresses })
          else none)
  unfolding contact_of_message contact_to_message
  contact_of_message-contact_to_message c fits hashed =
      ap (λ o. if length c.peer_key.bytes == lib.key_size then o else none)
        (add_wire-internet c.addresses
            (record {
              peer_key = record { bytes = c.peer_key.bytes; hashed = lib.hash c.peer_key.bytes };
              addresses = [];
            })
            fits tt
          ∙ ap
              (λ n. some (record {
                peer_key = record { bytes = c.peer_key.bytes; hashed = n };
                addresses = internet c.addresses;
              }))
              hashed)
