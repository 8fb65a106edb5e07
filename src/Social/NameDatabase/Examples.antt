-- ===== src/Social/NameDatabase/Examples.antt =====
-- Runs of the name database, and the theorems at concrete databases.
use unisphere.Prelude.{
  ℕ, ◌≡◌, refl, ◌⊎◌, inl, inr, true, false, none, some, List, [], ◌∷◌, In, replicate, take, keep,
  not, ◌↔◌, arith,
}
use unisphere.Prelude.Index.{sorted_index}
use unisphere.Identity.NodeIdentifier.{NodeIdentifier, id_eq, id_lt, is_null}
use unisphere.Identity.NodeIdentifier.Order.{
  id_lt_asym, id_lt_trans_not, id_eq_iff, id_eq_refl, id_lt-IsStrictOrder,
}
use unisphere.Social.Address.{LandmarkAddress, address_null}
use unisphere.Social.NameDatabase.Store.{
  store_record, store_addresses, open_record, limit_cache, erase_oldest, created,
}
use unisphere.Social.NameDatabase.Read.{lookup, diff, diff_update}
use unisphere.Social.NameDatabase.Keys.{UniqueKeys}
use unisphere.Social.NameDatabase.Invariant.{IsWellFormed}
use unisphere.Social.NameDatabase.Histories.{
  Call, record_stored, addresses_stored, step, run, history-IsWellFormed,
}
use unisphere.Social.NameDatabase.Gossip.{store_all, store_record_again}
use unisphere.Social.NameDatabase.Freshness.{
  admitted, freshest, find-store_record, store_record_comm,
}
use unisphere.Social.NameDatabase.Lookup.{preferred, lookup-eq-preferred, diff_update_cached}
use unisphere.Social.NameDatabase.Diff.{IsNews, diff-In}
use unisphere.Social.NameDatabase.Stored.{find-store_addresses}
use unisphere.Social.NameDatabase.Record.{
  modify_record, erase_record, RecordType, cache, sloppy_group, NameRecord, NameDatabase, init,
  Indices, destination_lt, type_destination_lt, type_age_lt, find_record, is_more_fresh, has_key,
  no_addresses, no_statistics, count_type, export_record,
}

module _ (x y : NameRecord) where
  abbrev apart :
      (id_lt x.node_id y.node_id ≡ true)
      ⊎ (id_lt y.node_id x.node_id ≡ true)
      ⊎ (x.node_id ≡ y.node_id)
  apart = elim (id_lt-IsStrictOrder.total x.node_id y.node_id) [
    | inl h ↦ inl h
    | inr (inl h) ↦ inr (inl h)
    | inr (inr h) ↦ inr (inr ((id_eq_iff x.node_id y.node_id).0 h))
  ]

  pub destination_asym : destination_lt x y ≡ true → destination_lt y x ≡ false
  destination_asym h = ground (
    arith,
    id_lt_asym x.node_id y.node_id,
    id_eq_iff x.node_id y.node_id,
    id_eq_iff y.node_id x.node_id,
    id_lt-IsStrictOrder.irrefl x.node_id,
  )

  pub type_destination_asym : type_destination_lt x y ≡ true → type_destination_lt y x ≡ false
  type_destination_asym h = ground (arith, id_lt_asym x.node_id y.node_id)

  pub type_age_asym : type_age_lt x y ≡ true → type_age_lt y x ≡ false
  type_age_asym h = ground arith

module _ (x y z : NameRecord) where
  pub destination_trans :
      destination_lt y x ≡ false → destination_lt z y ≡ false → destination_lt z x ≡ false
  destination_trans h k = elim (apart x y) [
    | inl p ↦ ground (
      arith,
      id_lt-IsStrictOrder.trans z.node_id x.node_id y.node_id,
      id_eq_iff z.node_id x.node_id,
    )
    | inr (inl p) ↦ ground arith
    | inr (inr p) ↦ ground (arith, id_eq_refl y.node_id)
  ]

  pub type_destination_trans :
      type_destination_lt y x ≡ false
      → type_destination_lt z y ≡ false
      → type_destination_lt z x ≡ false
  type_destination_trans h k = ground (arith, id_lt_trans_not x.node_id y.node_id z.node_id)

  pub type_age_trans : type_age_lt y x ≡ false → type_age_lt z y ≡ false → type_age_lt z x ≡ false
  type_age_trans h k = ground arith

unfoldable pub indices : Indices
unfolding sorted_index
indices = record {
  by_destination = sorted_index destination_lt destination_asym destination_trans;
  by_type_destination =
      sorted_index type_destination_lt type_destination_asym type_destination_trans;
  by_type_age = sorted_index type_age_lt type_age_asym type_age_trans;
}

abbrev node : ℕ → NodeIdentifier
node n = record { identifier = replicate 20 n }

abbrev somewhere : LandmarkAddress
somewhere = record { landmark_id = node 9; path = 4 ∷ 2 ∷ [] }

abbrev named : ℕ → RecordType → ℕ → ℕ → NameRecord
named n type timestamp seen = record {
  node_id = node n;
  type = type;
  addresses = somewhere ∷ [];
  last_update = seen;
  received_peer_id = node 8;
  timestamp = timestamp;
  seqno = 0;
}

abbrev calls : List Call
calls =
    addresses_stored 1 10 (node 1) (somewhere ∷ []) cache
    ∷ addresses_stored 2 10 (node 2) (somewhere ∷ []) cache
    ∷ addresses_stored 3 10 (node 3) (somewhere ∷ []) cache
    ∷ addresses_stored 4 10 (node 4) (somewhere ∷ []) cache
    ∷ addresses_stored 5 10 (node 5) (somewhere ∷ []) cache
    ∷ record_stored (λ r. true) 6 (named 1 sloppy_group 10 0)
    ∷ []

-- The fifth cached record drives the first one out.
evicted : find_record (node 1) cache (run indices (init (node 0)) calls).records ≡ none
unfolding run step store_addresses store_record open_record limit_cache erase_oldest count_type
    find_record indices init is_null no_addresses id_eq modify_record created erase_record
evicted = refl

history-IsWellFormed_example : IsWellFormed (run indices (init (node 0)) calls).records
history-IsWellFormed_example =
    history-IsWellFormed indices (node 0) calls (tt, (tt, (tt, (tt, (tt, (refl, tt))))))

abbrev full : NameDatabase
full = record {
  local_id = node 0;
  records = named 1 cache 10 3 ∷ named 1 sloppy_group 10 3 ∷ [];
  statistics = no_statistics;
}

full-UniqueKeys : UniqueKeys full.records
unfolding has_key id_eq
full-UniqueKeys = ((refl, tt), (tt, tt))

find-store_record_example :
    find_record
      (node 1)
      sloppy_group
      (store_record (λ r. true) 7 (named 1 sloppy_group 11 0) full).0.records
    ≡ some (named 1 sloppy_group 11 7)
unfolding admitted freshest find_record has_key is_null no_addresses is_more_fresh id_eq
find-store_record_example =
    find-store_record (λ r. true) 7 (named 1 sloppy_group 11 0) full (node 1) sloppy_group refl

store_record_comm_example :
    find_record
      (node 1)
      sloppy_group
      (store_record
        (λ r. true)
        8
        (named 1 sloppy_group 12 0)
        (store_record (λ r. true) 7 (named 1 sloppy_group 11 0) full).0).0.records
    ≡ find_record
        (node 1)
        sloppy_group
        (store_record
          (λ r. true)
          7
          (named 1 sloppy_group 11 0)
          (store_record (λ r. true) 8 (named 1 sloppy_group 12 0) full).0).0.records
unfolding is_more_fresh
store_record_comm_example =
    store_record_comm (λ r. true) 7 8 (named 1 sloppy_group 11 0) (named 1 sloppy_group 12 0) full
      (node 1) sloppy_group refl refl (inr (inr refl))

abbrev arrivals : List (ℕ × NameRecord)
arrivals = (8, named 2 sloppy_group 5 0) ∷ (9, named 1 sloppy_group 12 0) ∷ []

abbrev stored : NameDatabase
stored =
    store_all (λ r. true) arrivals (store_record (λ r. true) 7 (named 1 sloppy_group 11 0) full).0

taken : admitted (λ r. true) 7 (named 1 sloppy_group 11 0) full ≡ true
unfolding admitted no_addresses is_null id_eq
taken = refl

store_record_again_example :
    ((store_record (λ r. true) 99 (named 1 sloppy_group 11 0) stored).0.records ≡ stored.records)
    × ((store_record (λ r. true) 99 (named 1 sloppy_group 11 0) stored).1 ≡ [])
store_record_again_example =
    store_record_again (λ r. true) 7 99 (named 1 sloppy_group 11 0) arrivals full refl
      (refl, (refl, tt)) taken

lookup-eq-preferred_example : lookup indices (node 1) full ≡ preferred (node 1) full.records
lookup-eq-preferred_example = lookup-eq-preferred indices full full-UniqueKeys (node 1)

diff_update_cached_example :
    diff_update indices (node 1 ∷ []) (node 7) full
    ≡ export_record (named 1 cache 10 3) (node 7) ∷ diff_update indices [] (node 7) full
unfolding find_record id_eq
diff_update_cached_example =
    diff_update_cached indices full full-UniqueKeys (node 1) [] (node 7) (named 1 cache 10 3) refl

diff-In_example :
    In (node 1) (diff indices (λ id. none) full)
    ↔ ((r : NameRecord) × IsNews (λ id. none) full r × (r.node_id ≡ node 1))
diff-In_example = diff-In indices (λ id. none) full (node 1)

find-store_addresses_example :
    (r : NameRecord) × (find_record
        (node 2)
        cache
        (store_addresses indices 4 12 (node 2) (somewhere ∷ []) cache full).0.records
      ≡ some r)
    × (r.addresses ≡ take 3 (keep (λ a. not (address_null a)) (somewhere ∷ [])))
    × (r.last_update ≡ 4)
unfolding is_null no_addresses
find-store_addresses_example =
    find-store_addresses indices 4 12 (node 2) (somewhere ∷ []) cache full refl refl (omega arith)
