-- ===== src/Interplex/Contact.antt =====
-- src/interplex/contact.h and contact.cpp: addresses and contacts. The endpoints of the socket library
-- are pairs of bytes and a port, and paths; a public key carries the node identifier that its hash
-- gives (src/identity/peer_key.cpp, where the hash is a library's).
pub mod Laws
pub mod Examples
use unisphere.Prelude.{
  ℕ, zero, suc, ◌%◌, ◌^◌, length, get_elem?, Bool, true, false, ◌&&◌, ◌||◌, Option, some, none,
  List, [], ◌∷◌, ltb, leb, ◌==◌, if◌then◌else◌, head?,
}
use unisphere.Prelude.Int.{ℤ, pos, ltb_ℤ}
use unisphere.Identity.NodeIdentifier.{NodeIdentifier, invalid, bytes_eq, bytes_lt, bytes_empty}

pub record PeerKey : Type 0 where
  pub bytes : List ℕ
  pub hashed : NodeIdentifier

abbrev pub null_key : PeerKey
null_key = record { bytes = []; hashed = invalid }

unfoldable pub key_null : PeerKey → Bool
unfolding bytes_empty
key_null k = bytes_empty k.bytes

-- `PublicPeerKey::nodeId()`
unfoldable pub key_node_id : PeerKey → NodeIdentifier
unfolding key_null
key_node_id k = if key_null k then invalid else k.hashed

unfoldable pub key_eq : PeerKey → PeerKey → Bool
key_eq a b = bytes_eq a.bytes b.bytes

-- `Address`, by its type: what the Boost libraries hold of an endpoint is its host and port, or its path.
pub data Address : Type 0 where
  no_address : Address
  ip : List ℕ → ℕ → Address
  local : List ℕ → Address

-- `operator==`: two null addresses are not equal.
unfoldable pub same_address : Address → Address → Bool
same_address (ip h p) (ip i q) = bytes_eq h i && p == q
same_address (local p) (local q) = bytes_eq p q
same_address no_address b = false
same_address (ip h p) no_address = false
same_address (ip h p) (local q) = false
same_address (local p) no_address = false
same_address (local p) (ip i q) = false

-- `operator<`: by type, then by endpoint
abbrev pub address_type : Address → ℕ
address_type no_address = 0
address_type (ip h p) = 2
address_type (local p) = 1

unfoldable pub address_lt : Address → Address → Bool
address_lt (ip h p) (ip i q) = bytes_lt h i || (bytes_eq h i && ltb p q)
address_lt (local p) (local q) = bytes_lt p q
address_lt no_address b = ltb 0 (address_type b)
address_lt (ip h p) no_address = false
address_lt (ip h p) (local q) = false
address_lt (local p) no_address = false
address_lt (local p) (ip i q) = true

-- One entry of the `std::multimap<int, Address>`
pub record Ranked : Type 0 where
  pub priority : ℤ
  pub address : Address

pub record Contact : Type 0 where
  pub peer_key : PeerKey
  pub addresses : List Ranked

abbrev pub null_contact : Contact
null_contact = record { peer_key = null_key; addresses = [] }

unfoldable pub contact_null : Contact → Bool
unfolding key_null
contact_null c = key_null c.peer_key

unfoldable pub contact_id : Contact → NodeIdentifier
unfolding key_node_id
contact_id c = key_node_id c.peer_key

unfoldable pub has_addresses : Contact → Bool
has_addresses c = elim c.addresses [ [] ↦ false | a ∷ more ↦ true ]

-- `address()`, the first one; the source leaves it undefined for no addresses
unfoldable pub first_ranked : Contact → Option Ranked
first_ranked c = head? c.addresses

-- `std::multimap::insert`, behind the entries of the same priority
unfoldable pub insert_ranked : Ranked → List Ranked → List Ranked
insert_ranked r [] = r ∷ []
insert_ranked r (s ∷ ss) =
    let later = insert_ranked r ss in if ltb_ℤ r.priority s.priority then r ∷ s ∷ ss else s ∷ later

unfoldable pub add_address : Address → ℤ → Contact → Contact
unfolding insert_ranked
add_address a priority c = record c {
  addresses = insert_ranked (record { priority = priority; address = a }) c.addresses;
}

-- `setPriority`, with the iterator as a position: nothing is done past the end, where the source's
-- behaviour is undefined.
unfoldable pub erase_at : ℕ → List Ranked → List Ranked
erase_at i [] = []
erase_at zero (r ∷ rs) = rs
erase_at (suc i) (r ∷ rs) = r ∷ erase_at i rs

unfoldable pub set_priority : ℕ → ℤ → Contact → Contact
unfolding erase_at add_address
set_priority i priority c = elim (get_elem? c.addresses i) [
  | none ↦ c
  | some r ↦ add_address r.address priority (record c { addresses = erase_at i c.addresses })
]

-- `Protocol::Contact`: the key and the addresses of type IP
pub record WireContact : Type 0 where
  pub wire_key : List ℕ
  pub wire_addresses : List (List ℕ × ℕ)

-- What is used of the libraries: the size of a public key, its hash, and a host as text and back;
-- `from_string` throws where the text is no host.
pub record ContactLibrary : Type 0 where
  pub key_size : ℕ
  pub hash : List ℕ → NodeIdentifier
  pub to_string : List ℕ → List ℕ
  pub from_string : List ℕ → Option (List ℕ)

unfoldable pub wire_ranked : ContactLibrary → List Ranked → List (List ℕ × ℕ)
wire_ranked lib [] = []
wire_ranked lib (r ∷ rs) =
    let rest = wire_ranked lib rs in
    elim r.address [ no_address ↦ rest | ip h p ↦ (lib.to_string h, p) ∷ rest | local p ↦ rest ]

unfoldable pub contact_to_message : ContactLibrary → Contact → WireContact
unfolding wire_ranked
contact_to_message lib c = record {
  wire_key = c.peer_key.bytes;
  wire_addresses = wire_ranked lib c.addresses;
}

abbrev pub default_priority : ℤ
default_priority = pos 10

-- The port is cut to 16 bits; `none` is an exception.
unfoldable pub add_wire : ContactLibrary → List (List ℕ × ℕ) → Contact → Option Contact
unfolding add_address
add_wire lib [] c = some c
add_wire lib (a ∷ more) c = elim (lib.from_string a.0) [
  | none ↦ none
  | some h ↦ add_wire lib more (add_address (ip h (a.1 % 2 ^ 16)) default_priority c)
]

-- `fromMessage`; a key of another size throws.
unfoldable pub contact_of_message : ContactLibrary → WireContact → Option Contact
unfolding add_wire
contact_of_message lib w =
    if length w.wire_key == lib.key_size
    then add_wire lib w.wire_addresses (record {
      peer_key = record { bytes = w.wire_key; hashed = lib.hash w.wire_key };
      addresses = [];
    })
    else none

unfoldable pub contact_eq : Contact → Contact → Bool
unfolding key_eq
contact_eq a b = key_eq a.peer_key b.peer_key
