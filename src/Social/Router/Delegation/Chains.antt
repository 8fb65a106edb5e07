-- ===== src/Social/Router/Delegation/Chains.antt =====
-- Chains of delegations, apart from the loop that checks them.
use unisphere.Prelude.{
  ℕ, ◌≡◌, refl, sym, ap, subst, ◌∙◌, ◌↔◌, Bool, true, false, Option, some, none, List, [], ◌∷◌,
  ◌++◌, ◌==◌, if◌then◌else◌, length, append-nil, append_assoc, arith,
}
use unisphere.Social.SocialIdentity.{SocialIdentity, has_identity_association}
use unisphere.Social.Router.State.{Cryptography}
use unisphere.Social.Router.Delegation.{
  Chain, validated, refused, undecodable, open_delegation, accept_key, check_chain,
}

-- From a known key, each delegation is signed with the key before it and names the next, which has the
-- right size and is none that this node has been given.
pub data IsDelegated (c : Cryptography) (s : SocialIdentity)
    : List ℕ → List (List ℕ) → List ℕ → Type 0 where
  ends : {known : List ℕ} → IsDelegated c s known [] known
  delegates :
      {known signed key last : List ℕ} {more : List (List ℕ)}
      → open_delegation c known signed ≡ some key
      → has_identity_association key s ≡ false
      → length key ≡ c.sign_key_size
      → IsDelegated c s key more last
      → IsDelegated c s known (signed ∷ more) last

abbrev IsValidated : Chain → Type 0
IsValidated (validated key ds) = Unit
IsValidated refused = ⊥
IsValidated undecodable = ⊥

abbrev key_of : Chain → List ℕ
key_of (validated key ds) = key
key_of refused = []
key_of undecodable = []

abbrev delegations_of : Chain → List (List ℕ)
delegations_of (validated key ds) = ds
delegations_of refused = []
delegations_of undecodable = []

module _ (c : Cryptography) (s : SocialIdentity) where
  accepted_only :
      (key : List ℕ) (rest : Chain) (last : List ℕ) (ds : List (List ℕ))
      → accept_key c s key rest ≡ validated last ds
      → (has_identity_association key s ≡ false)
        × ((length key ≡ c.sign_key_size) × (rest ≡ validated last ds))
  accepted_only key rest last ds h =
      let tests = by_tests (has_identity_association key s) (length key == c.sign_key_size) h in
      (tests.0, (ground (arith, tests.1.0), tests.1.1))
    where
      by_tests :
          (old sized : Bool)
          → (if old then refused else if sized then rest else undecodable) ≡ validated last ds
          → (old ≡ false) × ((sized ≡ true) × (rest ≡ validated last ds))
      by_tests true sized k = absurd (subst IsValidated (sym k) tt)
      by_tests false true k = (refl, (refl, k))
      by_tests false false k = absurd (subst IsValidated (sym k) tt)

  accepted :
      (key : List ℕ) (rest : Chain)
      → has_identity_association key s ≡ false
      → length key ≡ c.sign_key_size
      → accept_key c s key rest ≡ rest
  accepted key rest h l = ground (arith, h, l)

  IsDelegated-check_chain :
      {known last : List ℕ} {chain : List (List ℕ)} (seen : List (List ℕ))
      → IsDelegated c s known chain last
      → check_chain c s seen known chain ≡ validated last (seen ++ chain)
  unfolding check_chain
  IsDelegated-check_chain {known} seen ends = ap (validated known) (sym (append-nil seen))
  IsDelegated-check_chain {known} {last} seen
        (delegates {signed = signed} {key = key} {more = more} o h l d) =
      let rest = check_chain c s (seen ++ (signed ∷ [])) key more in
      ap
        (λ (x : Option (List ℕ)). elim x as (λ q. Chain) [
          | none ↦ refused
          | some k ↦ accept_key c s k (check_chain c s (seen ++ (signed ∷ [])) k more)
        ])
        o
      ∙ accepted key rest h l
      ∙ IsDelegated-check_chain (seen ++ (signed ∷ [])) d
      ∙ ap (validated last) (append_assoc seen (signed ∷ []) more)

  check_chain-IsDelegated :
      (known last : List ℕ) (chain seen delegations : List (List ℕ))
      → check_chain c s seen known chain ≡ validated last delegations
      → IsDelegated c s known chain last
  unfolding check_chain
  check_chain-IsDelegated known last [] seen delegations h =
      subst (λ k. IsDelegated c s known [] k) (ap key_of h) ends
  check_chain-IsDelegated known last (signed ∷ more) seen delegations h =
      by_opened (open_delegation c known signed) refl
        (λ key k. check_chain-IsDelegated key last more (seen ++ (signed ∷ [])) delegations k) h
    where
      by_opened :
          (o : Option (List ℕ))
          → open_delegation c known signed ≡ o
          → ((key : List ℕ)
              → check_chain c s (seen ++ (signed ∷ [])) key more ≡ validated last delegations
              → IsDelegated c s key more last)
          → (elim o as (λ q. Chain) [
            | none ↦ refused
            | some k ↦ accept_key c s k (check_chain c s (seen ++ (signed ∷ [])) k more)
          ])
            ≡ validated last delegations
          → IsDelegated c s known (signed ∷ more) last
      by_opened none e ih h = absurd (subst IsValidated (sym h) tt)
      by_opened (some key) e ih h =
          let rest = check_chain c s (seen ++ (signed ∷ [])) key more in
          let split = accepted_only key rest last delegations h in
          delegates e split.0 split.1.0 (ih key split.1.1)

  seen_all :
      (known last : List ℕ) (chain seen delegations : List (List ℕ))
      → check_chain c s seen known chain ≡ validated last delegations
      → delegations ≡ seen ++ chain
  seen_all known last chain seen delegations h = ap delegations_of (
      sym h
      ∙ IsDelegated-check_chain seen (check_chain-IsDelegated known last chain seen delegations h))

  -- The loop over a chain of delegations ends with a last key, and with these delegations in the entry,
  -- exactly where each is signed with the key before it, from the key it starts with, and names the next,
  -- which has the right size and is none that this node has been given, and they are the whole chain.
  pub check_chain_iff :
      (known last : List ℕ) (chain delegations : List (List ℕ))
      → (check_chain c s [] known chain ≡ validated last delegations)
        ↔ (IsDelegated c s known chain last × (delegations ≡ chain))
  check_chain_iff known last chain delegations = (
    λ h. (
      check_chain-IsDelegated known last chain [] delegations h,
      seen_all known last chain [] delegations h,
    ),
    λ h. IsDelegated-check_chain [] h.0 ∙ ap (validated last) (sym h.1),
  )
