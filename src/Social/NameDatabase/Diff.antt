-- ===== src/Social/NameDatabase/Diff.antt =====
-- What `diff` lists.
use unisphere.Prelude.{
  ◌≡◌, refl, sym, ap, subst, ◌↔◌, inl, inr, true, Option, some, List, [], ◌∷◌, map, keep,
  Option-cases, In, In-keep, arith,
}
use unisphere.Identity.NodeIdentifier.{NodeIdentifier}
use unisphere.Social.NameDatabase.Record.{
  RecordType, cache, sloppy_group, type_eq, NameRecord, NameDatabase, Indices, is_more_fresh,
  has_type,
}
use unisphere.Social.NameDatabase.Read.{get_names, diff, news_for}

pub type_eq_iff : (t u : RecordType) → (type_eq t u ≡ true) ↔ (t ≡ u)
type_eq_iff cache cache = (λ h. refl, λ h. refl)
type_eq_iff sloppy_group sloppy_group = (λ h. refl, λ h. refl)
type_eq_iff cache sloppy_group = (λ h. ground arith, λ h. ground arith)
type_eq_iff sloppy_group cache = (λ h. ground arith, λ h. ground arith)

In-nodes :
    (id : NodeIdentifier) (rs : List NameRecord)
    → In id (map (λ r. r.node_id) rs)
    → (r : NameRecord) × In r rs × (r.node_id ≡ id)
In-nodes id [] m = absurd m
In-nodes id (r ∷ rs) (inl e) = (r, inl refl, sym e)
In-nodes id (r ∷ rs) (inr m) = let (s, n, e) = In-nodes id rs m in (s, inr n, e)

nodes-In :
    (r : NameRecord) (rs : List NameRecord) → In r rs → In r.node_id (map (λ s. s.node_id) rs)
nodes-In r [] m = absurd m
nodes-In r (s ∷ rs) (inl e) = inl (ap (λ (x : NameRecord). x.node_id) e)
nodes-In r (s ∷ rs) (inr m) = inr (nodes-In r rs m)

-- A sloppy group record of the database that the source lacks, or has in an older version.
pub record IsNews (source : NodeIdentifier → Option NameRecord) (db : NameDatabase) (r : NameRecord)
    : Type 0 where
  pub present : In r db.records
  pub grouped : r.type ≡ sloppy_group
  pub newer : (s : NameRecord) → source r.node_id ≡ some s → is_more_fresh r s ≡ true

module _ (indices : Indices) (source : NodeIdentifier → Option NameRecord) (db : NameDatabase) where
  news_for_iff :
      (r : NameRecord)
      → (news_for source r ≡ true)
        ↔ ((s : NameRecord) → source r.node_id ≡ some s → is_more_fresh r s ≡ true)
  unfolding news_for
  news_for_iff r = elim (Option-cases (source r.node_id)) [
    | inl e ↦ rw (e, news_for) (λ h s k. ground arith, λ h. refl)
    | inr (o, e) ↦ rw (e, news_for) (λ h s k. ground arith, λ h. h o refl)
  ]

  named_iff :
      (r : NameRecord)
      → In r (get_names indices sloppy_group db) ↔ (In r db.records × (r.type ≡ sloppy_group))
  unfolding get_names
  named_iff r =
      let kept = In-keep (has_type sloppy_group) (indices.by_type_destination.view db.records) r in
      let seen = indices.by_type_destination.view-In db.records r in
      let typed = type_eq_iff sloppy_group r.type in
      (
        λ m. let (n, t) = kept.0 m in (seen.0 n, sym (typed.0 t)),
        λ h. kept.1 (seen.1 h.0, typed.1 (sym h.1)),
      )

  IsNews-of :
      (r : NameRecord)
      → In r (keep (news_for source) (get_names indices sloppy_group db))
      → IsNews source db r
  IsNews-of r m =
      let (n, t) = (In-keep (news_for source) (get_names indices sloppy_group db) r).0 m in
      let (present, grouped) = (named_iff r).0 n in
      record { present = present; grouped = grouped; newer = (news_for_iff r).0 t }

  listed :
      (r : NameRecord)
      → IsNews source db r
      → In r (keep (news_for source) (get_names indices sloppy_group db))
  listed r n =
      (In-keep (news_for source) (get_names indices sloppy_group db) r).1
        ((named_iff r).1 (n.present, n.grouped), (news_for_iff r).1 n.newer)

  -- `diff` lists exactly the nodes of which the database has news for the source.
  pub diff-In :
      (id : NodeIdentifier)
      → In id (diff indices source db) ↔ ((r : NameRecord) × IsNews source db r × (r.node_id ≡ id))
  unfolding diff
  diff-In id = (
    λ m.
        let (r, n, e) =
          In-nodes id (keep (news_for source) (get_names indices sloppy_group db)) m in
        (r, IsNews-of r n, e),
    λ h. subst (λ i. In i (diff indices source db)) h.2 (nodes-In h.0 _ (listed h.0 h.1)),
  )
