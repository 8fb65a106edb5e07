-- ===== src/Social/NameDatabase/Gossip.antt =====
-- `store(NameRecordPtr)` for a record that comes again.
use unisphere.Prelude.{
  ℕ, ◌≡◌, refl, sym, ap, ◌∙◌, inl, inr, Bool, true, false, ◌&&◌, Option, none, some, List, [], ◌∷◌,
  All, Bool-cases, if◌then◌else◌, arith,
}
use unisphere.Social.NameDatabase.Record.{
  sloppy_group, NameRecord, NameDatabase, is_more_fresh, has_key, find_record,
}
use unisphere.Social.NameDatabase.Store.{store_record, put_record, drop_record}
use unisphere.Social.NameDatabase.Keys.{has_key_iff}
use unisphere.Social.NameDatabase.Freshness.{freshest, admitted, find-store_record}

stale-silent :
    (accepts : NameRecord → Bool) (now : ℕ) (r s : NameRecord) (db : NameDatabase)
    → find_record r.node_id sloppy_group db.records ≡ some s
    → is_more_fresh r s ≡ false
    → ((store_record accepts now r db).0.records ≡ db.records)
      × ((store_record accepts now r db).1 ≡ [])
unfolding store_record drop_record put_record is_more_fresh
stale-silent accepts now r s db e f = rw (e, store_record, put_record) (ground arith, ground arith)

-- Records arrive one after another, each with the time.
unfoldable pub store_all : (NameRecord → Bool) → List (ℕ × NameRecord) → NameDatabase → NameDatabase
store_all accepts [] db = db
store_all accepts (a ∷ more) db = store_all accepts more (store_record accepts a.0 a.1 db).0

-- A record is stored for the node that is at least as fresh.
record IsKnown (r : NameRecord) (db : NameDatabase) : Type 0 where
  pub stored : NameRecord
  pub found : find_record r.node_id sloppy_group db.records ≡ some stored
  pub fresh : is_more_fresh r stored ≡ false

is_more_fresh_trans :
    (r s a : NameRecord)
    → is_more_fresh r s ≡ false
    → is_more_fresh a s ≡ true
    → is_more_fresh r a ≡ false
unfolding is_more_fresh
is_more_fresh_trans r s a h k = ground arith

kept-fresh :
    (r a s : NameRecord) (n : ℕ)
    → is_more_fresh r s ≡ false
    → is_more_fresh r (freshest (record a { last_update = n }) (some s)) ≡ false
unfolding freshest
kept-fresh r a s n h = elim (Bool-cases (is_more_fresh (record a { last_update = n }) s)) [
  | inl newer ↦ rw newer (is_more_fresh_trans r s (record a { last_update = n }) h newer)
  | inr older ↦ rw older h
]

store_record-IsKnown :
    (accepts : NameRecord → Bool) (n : ℕ) (a r : NameRecord) (db : NameDatabase)
    → a.type ≡ sloppy_group
    → IsKnown r db
    → IsKnown r (store_record accepts n a db).0
store_record-IsKnown accepts n a r db e k =
    let after = find-store_record accepts n a db r.node_id sloppy_group e in
    elim (Bool-cases (admitted accepts n a db && has_key r.node_id sloppy_group a)) [
      | inl taken ↦ record {
        stored = freshest (record a { last_update = n }) (some k.stored);
        found =
            after
            ∙ ap
                (λ b.
                  if b
                  then some (
                      freshest (record a { last_update = n })
                        (find_record r.node_id sloppy_group db.records))
                  else find_record r.node_id sloppy_group db.records)
                taken
            ∙ ap (λ o. some (freshest (record a { last_update = n }) o)) k.found;
        fresh = kept-fresh r a k.stored n k.fresh;
      }
      | inr left ↦ record {
        stored = k.stored;
        found =
            after
            ∙ ap
                (λ b.
                  if b
                  then some (
                      freshest (record a { last_update = n })
                        (find_record r.node_id sloppy_group db.records))
                  else find_record r.node_id sloppy_group db.records)
                left
            ∙ k.found;
        fresh = k.fresh;
      }
    ]

store_all-IsKnown :
    (accepts : NameRecord → Bool) (arrivals : List (ℕ × NameRecord)) (r : NameRecord)
    (db : NameDatabase)
    → All (λ (a : ℕ × NameRecord). (a.1).type ≡ sloppy_group) arrivals
    → IsKnown r db
    → IsKnown r (store_all accepts arrivals db)
unfolding store_all
store_all-IsKnown accepts [] r db h k = k
store_all-IsKnown accepts (a ∷ more) r db h k =
    store_all-IsKnown accepts more r (store_record accepts a.0 a.1 db).0 h.1
      (store_record-IsKnown accepts a.0 a.1 r db h.0 k)

freshest-IsKnown :
    (r : NameRecord) (m : ℕ) (o : Option NameRecord)
    → is_more_fresh r (freshest (record r { last_update = m }) o) ≡ false
unfolding freshest is_more_fresh
freshest-IsKnown r m none = ground arith
freshest-IsKnown r m (some s) = ground arith

admitted-IsKnown :
    (accepts : NameRecord → Bool) (m : ℕ) (r : NameRecord) (db : NameDatabase)
    → r.type ≡ sloppy_group
    → admitted accepts m r db ≡ true
    → IsKnown r (store_record accepts m r db).0
admitted-IsKnown accepts m r db e h =
    let own : has_key r.node_id sloppy_group r ≡ true =
      (has_key_iff r.node_id sloppy_group r).1 (refl, sym e) in
    let both : (admitted accepts m r db && has_key r.node_id sloppy_group r) ≡ true =
      ground (arith, h, own) in
    let before = find_record r.node_id sloppy_group db.records in
    record {
      stored = freshest (record r { last_update = m }) before;
      found =
          find-store_record accepts m r db r.node_id sloppy_group e
          ∙ ap (λ b. if b then some (freshest (record r { last_update = m }) before) else before)
              both;
      fresh = freshest-IsKnown r m before;
    }

-- A record that was admitted once and comes again, at any later time and whatever records of sloppy groups
-- came in between, changes no record and is not announced again: gossip about it ends here.
pub store_record_again :
    (accepts : NameRecord → Bool) (m n : ℕ) (r : NameRecord) (arrivals : List (ℕ × NameRecord))
    (db : NameDatabase)
    → r.type ≡ sloppy_group
    → All (λ (a : ℕ × NameRecord). (a.1).type ≡ sloppy_group) arrivals
    → admitted accepts m r db ≡ true
    → ((store_record accepts n r
          (store_all accepts arrivals (store_record accepts m r db).0)).0.records
        ≡ (store_all accepts arrivals (store_record accepts m r db).0).records)
      × ((store_record accepts n r (store_all accepts arrivals (store_record accepts m r db).0)).1
          ≡ [])
store_record_again accepts m n r arrivals db e h k =
    let known =
      store_all-IsKnown accepts arrivals r (store_record accepts m r db).0 h
        (admitted-IsKnown accepts m r db e k) in
    stale-silent accepts n r known.stored
      (store_all accepts arrivals (store_record accepts m r db).0) known.found known.fresh
