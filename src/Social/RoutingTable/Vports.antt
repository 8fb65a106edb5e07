-- ===== src/Social/RoutingTable/Vports.antt =====
-- The assignment of vports to neighbours, and the number of local addresses.
use unisphere.Prelude.{
  ℕ, suc, ◌+◌, ◌%◌, ◌^◌, ◌≡◌, refl, sym, ap, subst, ◌∙◌, inl, inr, ◌<◌, ◌≤◌, some, none, List, [],
  ◌∷◌, find, find-eq-some, find-eq-none, keep, length, All, All-In, In, Option-cases, false, arith,
}
use unisphere.Identity.NodeIdentifier.{NodeIdentifier, invalid, id_eq}
use unisphere.Identity.NodeIdentifier.Order.{id_eq_iff, id_eq_refl, id_eq_comm}
use unisphere.Social.Address.{LandmarkAddress}
use unisphere.Social.RoutingTable.Entry.{RoutingEntry, Indices}
use unisphere.Social.RoutingTable.Table.{
  RoutingTable, VportMapping, of_neighbor, of_vport, insert_mapping, get_vport_for_neighbor,
  get_neighbor_for_vport, init,
}
use unisphere.Social.RoutingTable.Select.{renew_addresses, select_local_address}

-- Every vport in the map was counted.
abbrev pub IsCounted : RoutingTable → Type 0
IsCounted t = All (λ m. m.vport < t.next_vport) t.vport_map

fresh_vport :
    (n : ℕ) (ms : List VportMapping) → All (λ m. m.vport < n) ms → find (of_vport n) ms ≡ none
fresh_vport n [] h = refl
fresh_vport n (m ∷ ms) h = ground (arith, fresh_vport n ms)

-- No two mappings have one vport.
abbrev IsUnique : List VportMapping → Type 0
IsUnique [] = Unit
IsUnique (m ∷ ms) = (find (of_vport m.vport) ms ≡ none) × IsUnique ms

abbrev IsAssigned : RoutingTable → Type 0
IsAssigned t = IsCounted t × IsUnique t.vport_map

abbrev mapping : NodeIdentifier → ℕ → VportMapping
mapping n v = record { neighbor = n; vport = v }

-- The map leads from the neighbour to the vport and back.
abbrev IsMapped : NodeIdentifier → ℕ → RoutingTable → Type 0
IsMapped n v t =
    (find (of_neighbor n) t.vport_map ≡ some (mapping n v))
    × (find (of_vport v) t.vport_map ≡ some (mapping n v))

-- The vports of a sequence of neighbours are asked for.
unfoldable pub assign : List NodeIdentifier → RoutingTable → RoutingTable
assign [] t = t
assign (n ∷ ns) t = assign ns (get_vport_for_neighbor n t).1

unique_find :
    (m : VportMapping) (ms : List VportMapping)
    → IsUnique ms
    → In m ms
    → find (of_vport m.vport) ms ≡ some m
unique_find m [] u i = absurd i
unique_find m (x ∷ xs) u (inl e) =
    subst (λ (y : VportMapping). find (of_vport m.vport) (y ∷ xs) ≡ some m) e (ground arith)
unique_find m (x ∷ xs) u (inr i) =
    ground (arith, find-eq-none (of_vport x.vport) xs u.0 m i, unique_find m xs u.1 i)

-- What the request of a neighbour without a vport leaves
abbrev added : NodeIdentifier → RoutingTable → RoutingTable
added n t = record t {
  vport_map = mapping n t.next_vport ∷ t.vport_map;
  next_vport = (t.next_vport + 1) % 2 ^ 32;
}

get_vport-added :
    (n : NodeIdentifier) (t : RoutingTable)
    → IsCounted t
    → find (of_neighbor n) t.vport_map ≡ none
    → get_vport_for_neighbor n t ≡ (t.next_vport, added n t)
unfolding get_vport_for_neighbor insert_mapping
get_vport-added n t counted missing =
    rw
      (
        get_vport_for_neighbor,
        missing,
        insert_mapping,
        missing,
        fresh_vport t.next_vport t.vport_map counted,
      )
      refl

get_vport-known :
    (n : NodeIdentifier) (t : RoutingTable) (m : VportMapping)
    → find (of_neighbor n) t.vport_map ≡ some m
    → get_vport_for_neighbor n t ≡ (m.vport, t)
unfolding get_vport_for_neighbor
get_vport-known n t m known = rw (get_vport_for_neighbor, known) refl

grown : (n : ℕ) (ms : List VportMapping) → All (λ m. m.vport < n) ms → All (λ m. m.vport < n + 1) ms
grown n [] h = tt
grown n (m ∷ ms) h = (omega (arith, h.0), grown n ms h.1)

-- The counter has room for one request more.
abbrev HasRoom : ℕ → RoutingTable → Type 0
HasRoom k t = t.next_vport + k < 2 ^ 32

wraps_not : (n k : ℕ) → n + suc k < 2 ^ 32 → (n + 1) % 2 ^ 32 ≡ n + 1
wraps_not n k h = omega (arith, h)

added-IsAssigned :
    (n : NodeIdentifier) (t : RoutingTable) (k : ℕ)
    → HasRoom (suc k) t
    → IsAssigned t
    → IsAssigned (added n t) × HasRoom k (added n t)
added-IsAssigned n t k room a =
    let same = wraps_not t.next_vport k room in
    let below : All (λ m. m.vport < (t.next_vport + 1) % 2 ^ 32) t.vport_map =
      subst (λ x. All (λ m. m.vport < x) t.vport_map) (sym same)
        (grown t.next_vport t.vport_map a.0) in
    (
      ((omega (arith, same), below), (fresh_vport t.next_vport t.vport_map a.0, a.1)),
      omega (arith, same, room),
    )

get_vport-IsAssigned :
    (n : NodeIdentifier) (t : RoutingTable) (k : ℕ)
    → HasRoom (suc k) t
    → IsAssigned t
    → IsAssigned (get_vport_for_neighbor n t).1 × HasRoom k (get_vport_for_neighbor n t).1
get_vport-IsAssigned n t k room a = elim (Option-cases (find (of_neighbor n) t.vport_map)) [
  | inl missing ↦ rw (get_vport-added n t a.0 missing) (added-IsAssigned n t k room a)
  | inr (m, known) ↦ rw (get_vport-known n t m known) (a, omega (arith, room))
]

-- A request maps its neighbour.
get_vport-IsMapped :
    (n : NodeIdentifier) (t : RoutingTable)
    → IsAssigned t
    → IsMapped n (get_vport_for_neighbor n t).0 (get_vport_for_neighbor n t).1
get_vport-IsMapped n t a = elim (Option-cases (find (of_neighbor n) t.vport_map)) [
  | inl missing ↦ rw (get_vport-added n t a.0 missing) (ground (arith, id_eq_refl n), ground arith)
  | inr (m, known) ↦
      let found = find-eq-some (of_neighbor n) t.vport_map m known in
      let named : m ≡ mapping n m.vport =
        ap (λ x. mapping x m.vport) (sym ((id_eq_iff n m.neighbor).0 found.0)) in
      rw (get_vport-known n t m known)
        (known ∙ ap some named, unique_find m t.vport_map a.1 found.1 ∙ ap some named)
]

-- Other requests leave a neighbour's mapping alone.
get_vport-kept :
    (o n : NodeIdentifier) (v : ℕ) (t : RoutingTable)
    → IsAssigned t
    → IsMapped n v t
    → IsMapped n v (get_vport_for_neighbor o t).1
get_vport-kept o n v t a h = elim (Option-cases (find (of_neighbor o) t.vport_map)) [
  | inr (m, known) ↦ rw (get_vport-known o t m known) h
  | inl missing ↦
      let found = find-eq-some (of_vport v) t.vport_map (mapping n v) h.1 in
      let old : v < t.next_vport = All-In (λ m. m.vport < t.next_vport) t.vport_map a.0 found.1 in
      let other : id_eq o n ≡ false =
        find-eq-none (of_neighbor o) t.vport_map missing (mapping n v) found.1 in
      rw (get_vport-added o t a.0 missing)
        (ground (arith, id_eq_comm o n, other, h.0), ground (arith, old, h.1))
]

assign-kept :
    (ns : List NodeIdentifier) (n : NodeIdentifier) (v : ℕ) (t : RoutingTable)
    → HasRoom (length ns) t
    → IsAssigned t
    → IsMapped n v t
    → IsMapped n v (assign ns t)
unfolding assign
assign-kept [] n v t room a h = h
assign-kept (o ∷ ns) n v t room a h =
    let next = get_vport-IsAssigned o t (length ns) room a in
    assign-kept ns n v (get_vport_for_neighbor o t).1 next.1 next.0 (get_vport-kept o n v t a h)

assign-IsAssigned :
    (ns : List NodeIdentifier) (k : ℕ) (t : RoutingTable)
    → HasRoom (length ns + k) t
    → IsAssigned t
    → IsAssigned (assign ns t) × HasRoom k (assign ns t)
unfolding assign
assign-IsAssigned [] k t room a = (a, omega (arith, room))
assign-IsAssigned (n ∷ ns) k t room a =
    let next = get_vport-IsAssigned n t (length ns + k) (omega (arith, room)) a in
    assign-IsAssigned ns k (get_vport_for_neighbor n t).1 next.1 next.0

-- In a table that starts empty, whatever neighbours were asked for before and are asked for later, fewer
-- than 2^32 in all, a neighbour that is asked for gets a vport that leads to it from then on, and the same
-- vport whenever it is asked for again.
pub get_neighbor-get_vport :
    (local_id neighbor : NodeIdentifier) (before later : List NodeIdentifier)
    → length before + suc (length later) < 2 ^ 32
    → let out = get_vport_for_neighbor neighbor (assign before (init local_id)) in
      (get_neighbor_for_vport out.0 (assign later out.1) ≡ neighbor)
      × (get_vport_for_neighbor neighbor (assign later out.1) ≡ (out.0, assign later out.1))
unfolding get_neighbor_for_vport init
get_neighbor-get_vport local_id neighbor before later few =
    let start =
      assign-IsAssigned before (suc (length later)) (init local_id) (omega (arith, few)) (tt, tt) in
    let t = assign before (init local_id) in
    let out = get_vport_for_neighbor neighbor t in
    let next = get_vport-IsAssigned neighbor t (length later) start.1 start.0 in
    let kept =
      assign-kept later neighbor out.0 out.1 next.1 next.0
        (get_vport-IsMapped neighbor t start.0) in
    (
      rw (get_neighbor_for_vport, kept.1) refl,
      get_vport-known neighbor (assign later out.1) (mapping neighbor out.0) kept.0,
    )

-- The loop over the landmarks makes the addresses no more than there were, or three.
length-renew_addresses :
    (es : List RoutingEntry) (last : NodeIdentifier) (before : ℕ) (rest : List LandmarkAddress)
    → before + length rest ≤ 3
    → before + length ((renew_addresses es last before rest).0) ≤ 3
unfolding renew_addresses
length-renew_addresses [] last before rest h = h
length-renew_addresses (e ∷ es) last before [] h = ground (
  arith,
  length-renew_addresses es last before [] h,
  length-renew_addresses es e.destination (before + 1) [],
)
length-renew_addresses (e ∷ es) last before (a ∷ rest) h = ground (
  arith,
  length-renew_addresses es last before (a ∷ rest) h,
  length-renew_addresses es e.destination (before + 1) rest,
)

-- A node that has at most three local addresses has at most three after the next selection.
pub length-select_local_address :
    (indices : Indices) (t : RoutingTable)
    → length t.local_address ≤ 3
    → length (select_local_address indices t).table.local_address ≤ 3
unfolding select_local_address
length-select_local_address indices t h =
    let landmarks = keep (λ e. e.landmark) (indices.by_landmark.view t.rib) in
    ground (arith, length-renew_addresses landmarks invalid 0 t.local_address (omega (arith, h)))
