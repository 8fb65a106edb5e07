-- ===== src/Social/SloppyGroup/Views.antt =====
-- The peer views of a sloppy group, and whom its records are sent to.
use unisphere.Prelude.{
  ℕ, ◌+◌, ◌≤◌, ◌<◌, ◌≡◌, refl, sym, ap, subst, ◌∙◌, ◌⊎◌, inl, inr, Bool, true, false, not, ◌||◌,
  Option, some, none, List, [], ◌∷◌, find, ltb, leb, ◌==◌, if◌then◌else◌, if_elim, length,
  length-keep-le, In, arith,
}
use unisphere.Prelude.Index.{OrderedIndex}
use unisphere.Identity.NodeIdentifier.{NodeIdentifier, id_eq, is_null}
use unisphere.Identity.NodeIdentifier.Order.{id_eq_iff, id_eq_refl}
use unisphere.Social.Address.{LandmarkAddress}
use unisphere.Social.RoutingTable.Table.{RoutingTable}
use unisphere.Social.NameDatabase.Record as Names
use unisphere.Social.NameDatabase.Record.{NameRecord, NameDatabase}
use unisphere.Social.NameDatabase.Store.{store_record}
use unisphere.Social.SloppyGroup.{
  SloppyPeer, sloppy_peer, NameAnnounce, NameAggregationBuffer, SloppyGroup, GroupEffect, hops_lt,
  is_peer_node, insert_peer, erase_peer, in_own_group, get_local_peer_view,
}
use unisphere.Social.SloppyGroup.Exchange.{
  for_peer, put_named, queue_record, name_announce, is_excluded, export_to_view, export_to_views,
  known_peer, export_name, hear, announced_record, GroupSurroundings, Delivered, store_announced,
  last_peer, replaced, backlink, names_delivered, message_delivered,
}

-- The reverse view is no larger than the limit.
abbrev pub IsLimited : SloppyGroup → Type 0
IsLimited g = length g.reverse ≤ g.max_peer_view_size

-- The reverse view and its limit are as they were.
abbrev SameView : SloppyGroup → SloppyGroup → Type 0
SameView g h = (h.reverse ≡ g.reverse) × (h.max_peer_view_size ≡ g.max_peer_view_size)

SameView-trans : (g h k : SloppyGroup) → SameView g h → SameView h k → SameView g k
SameView-trans g h k a b = (b.0 ∙ a.0, b.1 ∙ a.1)

export_to_view-SameView :
    (r : NameRecord) (ps : List SloppyPeer) (g : SloppyGroup) → SameView g (export_to_view r ps g).0
unfolding export_to_view queue_record
export_to_view-SameView r [] g = (refl, refl)
export_to_view-SameView r (p ∷ ps) g =
    let first = if is_excluded r p then (g, []) else queue_record p (name_announce r) g in
    SameView-trans g first.0 (export_to_view r ps first.0).0
      (if_elim (λ (o : SloppyGroup × List GroupEffect). SameView g o.0) (is_excluded r p)
        (refl, refl) (refl, refl))
      (export_to_view-SameView r ps first.0)

export_name-SameView :
    (near : List SloppyPeer) (r : NameRecord) (id : NodeIdentifier) (g : SloppyGroup)
    → SameView g (export_name near r id g).0
unfolding export_name export_to_views queue_record
export_name-SameView near r id g =
    let first = export_to_view r near g in
    let second = export_to_view r g.foreign first.0 in
    if_elim (λ (o : SloppyGroup × List GroupEffect). SameView g o.0) (is_null id)
      (SameView-trans g first.0 (export_to_view r g.reverse second.0).0
        (export_to_view-SameView r near g)
        (SameView-trans first.0 second.0 (export_to_view r g.reverse second.0).0
          (export_to_view-SameView r g.foreign first.0)
          (export_to_view-SameView r g.reverse second.0)))
      (if_elim (λ (o : SloppyGroup × List GroupEffect). SameView g o.0) (id_eq r.node_id id)
        (refl, refl) (refl, refl))

hear-SameView :
    (near : List SloppyPeer) (es : List Names.Effect) (g : SloppyGroup)
    → SameView g (hear near es g).0
unfolding hear
hear-SameView near [] g = (refl, refl)
hear-SameView near (e ∷ es) g = by_effect e (λ h. hear-SameView near es h)
  where
    by_effect :
        (e : Names.Effect)
        → ((h : SloppyGroup) → SameView h (hear near es h).0)
        → SameView g (hear near (e ∷ es) g).0
    by_effect (Names.export_record r id) rest =
        let first = (export_name near r id g).0 in
        SameView-trans g first (hear near es first).0 (export_name-SameView near r id g)
          (rest first)
    by_effect _ rest = rest g

store_announced-SameView :
    (env : GroupSurroundings) (near : List SloppyPeer) (source : NodeIdentifier)
    (announces : List NameAnnounce) (g : SloppyGroup) (db : NameDatabase)
    → SameView g (store_announced env near source announces g db).group
unfolding store_announced
store_announced-SameView env near source [] g db = (refl, refl)
store_announced-SameView env near source (a ∷ more) g db =
    let stored = store_record env.accepts env.now (announced_record source a) db in
    let heard = (hear near stored.1 g).0 in
    if_elim (λ (d : Delivered). SameView g d.group)
      (in_own_group (announced_record source a).node_id g)
      (SameView-trans g heard (store_announced env near source more heard stored.0).group
        (hear-SameView near stored.1 g)
        (store_announced-SameView env near source more heard stored.0))
      (store_announced-SameView env near source more g db)

last_peer-In : (ps : List SloppyPeer) (p : SloppyPeer) → last_peer ps ≡ some p → In p ps
last_peer-In [] p h = ground (arith, h)
last_peer-In (q ∷ []) p h = inl (ground (arith, h))
last_peer-In (q ∷ r ∷ ps) p h = inr (last_peer-In (r ∷ ps) p h)

length-erase_peer :
    (ps : List SloppyPeer) (p : SloppyPeer)
    → In p ps
    → length (erase_peer p.node_id ps) + 1 ≤ length ps
length-erase_peer [] p m = absurd m
length-erase_peer (q ∷ ps) p (inl e) =
    subst (λ (x : SloppyPeer). length (erase_peer p.node_id (x ∷ ps)) + 1 ≤ length (x ∷ ps)) e
      (ground
        (arith, id_eq_refl p.node_id, length-keep-le (λ x. not (is_peer_node p.node_id x)) ps))
length-erase_peer (q ∷ ps) p (inr m) = ground (arith, length-erase_peer ps p m)

length-insert_peer :
    (p : SloppyPeer) (ps : List SloppyPeer) → length (insert_peer p ps) ≤ length ps + 1
unfolding insert_peer
length-insert_peer p ps = ground arith

backlink-IsLimited :
    (index : OrderedIndex hops_lt) (near : List SloppyPeer) (p : SloppyPeer) (g : SloppyGroup)
    → IsLimited g
    → IsLimited (backlink index near p g).0
unfolding backlink replaced
backlink-IsLimited index near p g h =
    if_elim (λ (o : SloppyGroup × Bool). IsLimited o.0) _ h
      (by_room (leb g.max_peer_view_size (length g.reverse)) refl)
  where
    by_far :
        (o : Option SloppyPeer)
        → last_peer (index.view g.reverse) ≡ o
        → IsLimited (replaced p o g).0
    by_far none e = h
    by_far (some far) e =
        let gone =
          length-erase_peer g.reverse far
            ((index.view-In g.reverse far).0 (last_peer-In (index.view g.reverse) far e)) in
        if_elim (λ (o : SloppyGroup × Bool). IsLimited o.0) (ltb p.hops far.hops)
          (omega (arith, h, gone, length-insert_peer p (erase_peer far.node_id g.reverse))) h

    by_room :
        (full : Bool)
        → leb g.max_peer_view_size (length g.reverse) ≡ full
        → IsLimited
            (if full
              then replaced p (last_peer (index.view g.reverse)) g
              else (record g { reverse = insert_peer p g.reverse }, true)).0
    by_room true e = by_far (last_peer (index.view g.reverse)) refl
    by_room false e =
        let room : length g.reverse < g.max_peer_view_size = ground (arith, e) in
        omega (arith, room, length-insert_peer p g.reverse)

module _ (env : GroupSurroundings) (source : NodeIdentifier) (address : LandmarkAddress)
    (distance : ℕ) (announces : List NameAnnounce) (t : RoutingTable) (g : SloppyGroup)
    (db : NameDatabase) where
  names_delivered-IsLimited :
      IsLimited g → IsLimited (names_delivered env source address distance announces t g db).group
  unfolding names_delivered
  names_delivered-IsLimited h =
      backlink-IsLimited env.by_hops near (sloppy_peer source address distance) stored
        (omega (arith, h, ap length same.0, same.1))
    where
      near : List SloppyPeer
      near = get_local_peer_view env.table_indices t g

      counted : SloppyGroup
      counted = record g { record_rcvd = g.record_rcvd + length announces }

      stored : SloppyGroup
      stored = (store_announced env near source announces counted db).group

      same : SameView counted stored
      same = store_announced-SameView env near source announces counted db

  -- Whatever message is delivered, the reverse view of a node's peers stays within its limit.
  pub message_delivered-IsLimited :
      (component type : ℕ)
      → IsLimited g
      → IsLimited
          (message_delivered env component type source address distance announces t g db).group
  unfolding message_delivered
  message_delivered-IsLimited component type h =
      if_elim {x = nothing}
        {y = if not (in_own_group source g) || distance == 0
          then nothing
          else names_delivered env source address distance announces t g db}
        (λ (d : Delivered). IsLimited d.group) (not (component == 2) || not (type == 1)) h
        (if_elim {x = nothing} {y = names_delivered env source address distance announces t g db}
          (λ (d : Delivered). IsLimited d.group) (not (in_own_group source g) || distance == 0) h
          (names_delivered-IsLimited h))
    where
      nothing : Delivered
      nothing = record { group = g; names = db; effects = [] }

put_named-other :
    (id : NodeIdentifier) (p : SloppyPeer) (a : NameAnnounce) (bs : List NameAggregationBuffer)
    → id_eq id p.node_id ≡ false
    → find (for_peer id) (put_named p a bs).0 ≡ find (for_peer id) bs
unfolding put_named
put_named-other id p a [] h = ground (arith, h)
put_named-other id p a (b ∷ bs) h = ground (
  arith,
  h,
  put_named-other id p a bs,
  id_eq_iff p.node_id b.peer.node_id,
  id_eq_iff id b.peer.node_id,
  id_eq_iff id p.node_id,
)

-- The node that a record is about, and the one it was received from
abbrev pub IsExcluded : NameRecord → NodeIdentifier → Type 0
IsExcluded r id = (r.node_id ≡ id) ⊎ (r.received_peer_id ≡ id)

excluded_peer :
    (r : NameRecord) (p : SloppyPeer) (id : NodeIdentifier)
    → IsExcluded r id
    → is_excluded r p ≡ false
    → id_eq id p.node_id ≡ false
excluded_peer r p id (inl e) h = subst (λ x. id_eq x p.node_id ≡ false) e (ground (arith, h))
excluded_peer r p id (inr e) h = subst (λ x. id_eq x p.node_id ≡ false) e (ground (arith, h))

export_to_view-silent :
    (r : NameRecord) (ps : List SloppyPeer) (g : SloppyGroup) (id : NodeIdentifier)
    → IsExcluded r id
    → find (for_peer id) (export_to_view r ps g).0.exports ≡ find (for_peer id) g.exports
unfolding export_to_view queue_record
export_to_view-silent r [] g id x = refl
export_to_view-silent r (p ∷ ps) g id x =
    by_peer (is_excluded r p) refl (λ h. export_to_view-silent r ps h id x)
  where
    by_peer :
        (b : Bool)
        → is_excluded r p ≡ b
        → ((h : SloppyGroup)
            → find (for_peer id) (export_to_view r ps h).0.exports ≡ find (for_peer id) h.exports)
        → find
            (for_peer id)
            (export_to_view r ps
              (if b then (g, []) else queue_record p (name_announce r) g).0).0.exports
          ≡ find (for_peer id) g.exports
    by_peer true e rest = rest g
    by_peer false e rest =
        rest (queue_record p (name_announce r) g).0
        ∙ put_named-other id p (name_announce r) g.exports (excluded_peer r p id x e)

-- A record that is exported to all peers is queued neither for the node that it is about nor for the one
-- that it was received from: what waits for these two is as it was.
pub export_name-silent :
    (near : List SloppyPeer) (r : NameRecord) (all : NodeIdentifier) (g : SloppyGroup)
    (id : NodeIdentifier)
    → is_null all ≡ true
    → IsExcluded r id
    → find (for_peer id) (export_name near r all g).0.exports ≡ find (for_peer id) g.exports
unfolding export_name export_to_views
export_name-silent near r all g id null x =
    let first = (export_to_view r near g).0 in
    let second = (export_to_view r g.foreign first).0 in
    subst
      (λ b.
        find (for_peer id)
          (if b
            then export_to_views r near g
            else if id_eq r.node_id all
            then (g, [])
            else queue_record (known_peer all g) (name_announce r) g).0.exports
        ≡ find (for_peer id) g.exports)
      (sym null)
      (export_to_view-silent r g.reverse second id x
        ∙ export_to_view-silent r g.foreign first id x
        ∙ export_to_view-silent r near g id x)
