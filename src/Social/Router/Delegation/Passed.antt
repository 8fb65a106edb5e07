-- ===== src/Social/Router/Delegation/Passed.antt =====
-- An announcement that is passed on, as its receiver sees it.
use unisphere.Prelude.{
  ℕ, ◌≡◌, refl, ap, ◌∙◌, true, false, Option, some, none, List, [], ◌∷◌, ◌++◌, ◌==◌, length, ◌%◌,
  ◌^◌, if◌then◌else◌, arith,
}
use unisphere.Social.SocialIdentity.{SocialIdentity, has_identity_association}
use unisphere.Social.RoutingTable.Entry.{RoutingEntry}
use unisphere.Social.Router.State.{Cryptography, PathAnnounce}
use unisphere.Social.Router.Delegation.{
  validated, imported, open_delegation, check_chain, sign_subkey, announced_entry, no_delegations,
  validate,
}
use unisphere.Social.Router.Delegation.Chains.{IsDelegated, ends, delegates, check_chain_iff}
use unisphere.Social.Router.Export.{export_announce}

module _ (c : Cryptography) (s : SocialIdentity) where
  IsDelegated-on :
      {known last : List ℕ} {chain : List (List ℕ)} (signed key : List ℕ)
      → IsDelegated c s known chain last
      → open_delegation c last signed ≡ some key
      → has_identity_association key s ≡ false
      → length key ≡ c.sign_key_size
      → IsDelegated c s known (chain ++ (signed ∷ [])) key
  IsDelegated-on signed key ends o h l = delegates o h l ends
  IsDelegated-on signed key (delegates p q r d) o h l =
      delegates p q r (IsDelegated-on signed key d o h l)

  no_delegations-append :
      (ds : List (List ℕ)) (d : List ℕ) → no_delegations (ds ++ (d ∷ [])) ≡ false
  no_delegations-append [] d = refl
  no_delegations-append (e ∷ ds) d = refl

  validate-imported :
      (from : ℕ) (a : PathAnnounce) (key : List ℕ) (ds : List (List ℕ))
      → length a.public_key ≡ c.peer_key_size
      → no_delegations a.delegation_chain ≡ false
      → check_chain c s [] (sign_subkey c a.public_key) a.delegation_chain ≡ validated key ds
      → validate c s from a
        ≡ imported (record (announced_entry c from a) { delegations = ds; sa_key = key })
  unfolding validate
  validate-imported from a key ds sized some_delegation checked =
      let fits : (length a.public_key == c.peer_key_size) ≡ true = ground (arith, sized) in
      rw (validate, fits, some_delegation, checked) refl

  -- An entry whose delegations lead from its originator's key to the key it was delegated to is announced
  -- to a neighbour with one delegation more, to an association of that neighbour; where the neighbour has
  -- been given none of the keys, it validates the announcement, and imports the entry with the whole chain,
  -- its association as the key to delegate from, the vport that it came in by in front of the forward path,
  -- the vport that it was sent with behind the reverse path of a landmark, the sequence number in 16 bits,
  -- and no mark of the sender's table. The signature of the last key is assumed to open, and the protocol
  -- message to parse.
  pub validate-export_announce :
      (e : RoutingEntry) (sa : List ℕ) (vport from : ℕ)
      → ((m : List ℕ) → c.sign_open e.sa_key (c.sign e.sa_key m) ≡ some m)
      → ((key : List ℕ) → c.decode (c.encode key) ≡ some key)
      → length e.public_key ≡ c.peer_key_size
      → IsDelegated c s (sign_subkey c e.public_key) e.delegations e.sa_key
      → has_identity_association sa s ≡ false
      → length sa ≡ c.sign_key_size
      → validate c s from (export_announce c e sa vport)
        ≡ imported (record e {
          destination = c.hash e.public_key;
          delegations = e.delegations ++ (c.sign e.sa_key (c.encode sa) ∷ []);
          sa_key = sa;
          forward_path = from ∷ e.forward_path;
          reverse_path = if e.landmark then e.reverse_path ++ (vport ∷ []) else [];
          vicinity = false;
          extended_vicinity = false;
          seqno = e.seqno % 2 ^ 16;
          cost = 0;
          active = false;
          last_update = 0;
        })
  unfolding validate export_announce open_delegation announced_entry
  validate-export_announce e sa vport from opens parses sized chain fresh fits =
      let signed = c.sign e.sa_key (c.encode sa) in
      let opened : open_delegation c e.sa_key signed ≡ some sa =
        ap
          (λ (o : Option (List ℕ)). elim o as (λ q. Option (List ℕ)) [
            | none ↦ none
            | some m ↦ c.decode m
          ])
          (opens (c.encode sa))
        ∙ parses sa in
      let checked =
        (check_chain_iff c s (sign_subkey c e.public_key) sa (e.delegations ++ (signed ∷ []))
            (e.delegations ++ (signed ∷ []))).1
          (IsDelegated-on signed sa chain opened fresh fits, refl) in
      validate-imported from (export_announce c e sa vport) sa (e.delegations ++ (signed ∷ []))
        sized (no_delegations-append e.delegations signed) checked
