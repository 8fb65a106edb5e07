-- ===== src/Social/NameDatabase/Freshness.antt =====
-- `store(NameRecordPtr)` as a register of the freshest record: what it stores under every key, and that
-- the order of arrival does not matter.
use unisphere.Prelude.{
  ℕ, ◌≡◌, sym, ◌∙◌, ◌⊎◌, inl, inr, Bool, true, false, not, ◌&&◌, ◌||◌, Option, none, some,
  if◌then◌else◌, Option-cases, arith,
}
use unisphere.Identity.NodeIdentifier.{NodeIdentifier, is_null, id_eq}
use unisphere.Identity.NodeIdentifier.Order.{id_eq_iff}
use unisphere.Social.NameDatabase.Record.{
  RecordType, sloppy_group, NameRecord, NameDatabase, is_more_fresh, has_key, find_record,
  no_addresses,
}
use unisphere.Social.NameDatabase.Store.{store_record, put_record, drop_record}
use unisphere.Social.NameDatabase.Keys.{has_key_iff, find-cons, find-replace}

-- The later of the arriving record and the stored one.
unfoldable pub freshest : NameRecord → Option NameRecord → NameRecord
freshest r none = r
freshest r (some s) = if is_more_fresh r s then r else s

-- Whether `store` gets as far as the table: the record has a node and addresses, is not about the
-- local node, and the hooks take it.
unfoldable pub admitted : (NameRecord → Bool) → ℕ → NameRecord → NameDatabase → Bool
admitted accepts now r db =
    not (is_null r.node_id || no_addresses r.addresses)
    && not (id_eq r.node_id db.local_id)
    && accepts (record r { last_update = now })

put_record_find :
    (r : NameRecord) (db : NameDatabase) (id : NodeIdentifier) (t : RecordType)
    → r.type ≡ sloppy_group
    → find_record id t (put_record r db (find_record r.node_id sloppy_group db.records)).0.records
      ≡ (if has_key id t r
          then some (freshest r (find_record r.node_id sloppy_group db.records))
          else find_record id t db.records)
unfolding put_record freshest
put_record_find r db id t e = elim (Option-cases (find_record r.node_id sloppy_group db.records)) [
  | inl absent ↦ rw absent (find-cons id t r db.records)
  | inr (s, found) ↦
      let keyed : find_record r.node_id r.type db.records ≡ some s = rw e found in
      let replaced = find-replace id t r s db.records keyed in
      let same = has_key_iff id t r in
      let stored : has_key id t r ≡ true → find_record id t db.records ≡ some s =
        λ h. let (same_node, same_type) = same.0 h in rw (same_node, same_type) keyed in
      rw (found, ← e) (ground (arith, replaced, stored))
]

-- After `store`, every key holds what it held, but that the key of an admitted record holds the more
-- fresh one of it and of what was stored, in favour of what was stored where neither is more fresh.
pub find-store_record :
    (accepts : NameRecord → Bool) (now : ℕ) (r : NameRecord) (db : NameDatabase)
    (id : NodeIdentifier) (t : RecordType)
    → r.type ≡ sloppy_group
    → find_record id t (store_record accepts now r db).0.records ≡ (
        if admitted accepts now r db && has_key id t r
        then some (freshest (record r { last_update = now }) (find_record id t db.records))
        else find_record id t db.records)
unfolding store_record drop_record admitted has_key
find-store_record accepts now r db id t e =
    let put = put_record_find (record r { last_update = now }) db id t e in
    let here : has_key id t r ≡ true
        → find_record r.node_id sloppy_group db.records ≡ find_record id t db.records =
      λ h. let (same_node, same_type) = (has_key_iff id t r).0 h in rw (same_node, same_type, e) in
    ground (arith, put, here)

local_id-store_record :
    (accepts : NameRecord → Bool) (now : ℕ) (r : NameRecord) (db : NameDatabase)
    → (store_record accepts now r db).0.local_id ≡ db.local_id
unfolding store_record drop_record put_record
local_id-store_record accepts now r db =
    elim (Option-cases (find_record r.node_id sloppy_group db.records)) [
      | inl e ↦ rw (e) (ground arith)
      | inr (s, e) ↦ rw (e) (ground arith)
    ]

-- Which of two records, each with the time that it came in, a key keeps does not depend on the order.
freshest_comm :
    (m n : ℕ) (r s : NameRecord) (o : Option NameRecord)
    → (is_more_fresh r s ≡ true) ⊎ (is_more_fresh s r ≡ true)
    → freshest (record r { last_update = m }) (some (freshest (record s { last_update = n }) o))
      ≡ freshest (record s { last_update = n }) (some (freshest (record r { last_update = m }) o))
unfolding freshest is_more_fresh
freshest_comm m n r s none h = ground arith
freshest_comm m n r s (some x) h = ground arith

admitted-store_record :
    (accepts : NameRecord → Bool) (m n : ℕ) (r s : NameRecord) (db : NameDatabase)
    → admitted accepts n s (store_record accepts m r db).0 ≡ admitted accepts n s db
unfolding admitted
admitted-store_record accepts m n r s db = rw (local_id-store_record accepts m r db)

same_node :
    (id : NodeIdentifier) (t : RecordType) (r s : NameRecord)
    → has_key id t r ≡ true
    → has_key id t s ≡ true
    → id_eq r.node_id s.node_id ≡ true
same_node id t r s h k =
    (id_eq_iff r.node_id s.node_id).1
      (sym ((has_key_iff id t r).0 h).0 ∙ ((has_key_iff id t s).0 k).0)

-- Records that two peers pass on may arrive in either order: if the two are about different nodes, or
-- one is more fresh, every key ends up with the same record.
pub store_record_comm :
    (accepts : NameRecord → Bool) (m n : ℕ) (r s : NameRecord) (db : NameDatabase)
    (id : NodeIdentifier) (t : RecordType)
    → r.type ≡ sloppy_group
    → s.type ≡ sloppy_group
    → (id_eq r.node_id s.node_id ≡ false) ⊎ (is_more_fresh r s ≡ true) ⊎ (is_more_fresh s r ≡ true)
    → find_record id t (store_record accepts n s (store_record accepts m r db).0).0.records
      ≡ find_record id t (store_record accepts m r (store_record accepts n s db).0).0.records
store_record_comm accepts m n r s db id t p q h =
    rw
      (
        find-store_record accepts n s (store_record accepts m r db).0 id t q,
        find-store_record accepts m r (store_record accepts n s db).0 id t p,
        find-store_record accepts m r db id t p,
        find-store_record accepts n s db id t q,
        admitted-store_record accepts m n r s db,
        admitted-store_record accepts n m s r db,
      )
      (ground (arith, h, same_node id t r s, freshest_comm m n r s (find_record id t db.records)))
