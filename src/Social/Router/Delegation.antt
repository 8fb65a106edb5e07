-- ===== src/Social/Router/Delegation.antt =====
-- The validation of an announcement, from `messageReceived` of src/social/compact_router.cpp.
pub mod Chains
pub mod Passed
use unisphere.Prelude.{
  ℕ, ◌^◌, ◌%◌, Bool, true, false, not, ◌&&◌, Option, some, none, List, [], ◌∷◌, ◌++◌, ◌==◌,
  if◌then◌else◌, length, take, map,
}
use unisphere.Identity.NodeIdentifier.{NodeIdentifier}
use unisphere.Social.SocialIdentity.{SocialIdentity, has_identity_association}
use unisphere.Social.RoutingTable.Entry.{RoutingEntry}
use unisphere.Social.Router.State.{Cryptography, PathAnnounce}

-- How the loop over the delegations ends: with the last key and the delegations it has put into the
-- entry, at a delegation that is refused, or with a key of the wrong size, whose exception is not caught.
pub data Chain : Type 0 where
  validated : List ℕ → List (List ℕ) → Chain
  refused : Chain
  undecodable : Chain

-- A delegation that has been opened: a signature that fails and bytes that do not parse are refused, and
-- so is a key that this node has been given, as the announcement has been here before.
unfoldable pub open_delegation : Cryptography → List ℕ → List ℕ → Option (List ℕ)
open_delegation c known signed = elim (c.sign_open known signed) [
  | none ↦ none
  | some message ↦ c.decode message
]

abbrev pub accept_key : Cryptography → SocialIdentity → List ℕ → Chain → Chain
accept_key c s key rest =
    if has_identity_association key s
    then refused
    else if length key == c.sign_key_size
    then rest
    else undecodable

unfoldable pub check_chain :
    Cryptography → SocialIdentity → List (List ℕ) → List ℕ → List (List ℕ) → Chain
unfolding open_delegation
check_chain c s seen known [] = validated known seen
check_chain c s seen known (signed ∷ more) = elim (open_delegation c known signed) [
  | none ↦ refused
  | some key ↦ accept_key c s key (check_chain c s (seen ++ (signed ∷ [])) key more)
]

-- `publicKey.signSubkey()`
abbrev pub sign_subkey : Cryptography → List ℕ → List ℕ
sign_subkey c key = take c.sign_key_size key

-- What becomes of one announcement: it is imported or skipped, the rest of the message is dropped with it,
-- or an exception leaves the handler.
pub data Verdict : Type 0 where
  imported : RoutingEntry → Verdict
  skipped : Verdict
  malformed : Verdict
  uncaught : Verdict

-- The entry before its delegations, which came through a vport; the sequence number is cut to 16 bits.
unfoldable pub announced_entry : Cryptography → ℕ → PathAnnounce → RoutingEntry
announced_entry c vport a = record {
  destination = c.hash a.public_key;
  public_key = a.public_key;
  delegations = [];
  sa_key = [];
  forward_path = vport ∷ a.forward_path;
  reverse_path = if a.landmark then a.reverse_path else [];
  landmark = a.landmark;
  vicinity = false;
  extended_vicinity = false;
  seqno = a.seqno % 2 ^ 16;
  cost = 0;
  active = false;
  last_update = 0;
}

abbrev pub chain_verdict : RoutingEntry → Chain → Verdict
chain_verdict e (validated key delegations) =
    imported (record e { delegations = delegations; sa_key = key })
chain_verdict e refused = skipped
chain_verdict e undecodable = uncaught

abbrev pub no_delegations : List (List ℕ) → Bool
no_delegations [] = true
no_delegations (d ∷ ds) = false

unfoldable pub validate : Cryptography → SocialIdentity → ℕ → PathAnnounce → Verdict
unfolding check_chain announced_entry
validate c s vport a =
    if not (length a.public_key == c.peer_key_size)
    then uncaught
    else if no_delegations a.delegation_chain
    then malformed
    else chain_verdict (announced_entry c vport a)
        (check_chain c s [] (sign_subkey c a.public_key) a.delegation_chain)
