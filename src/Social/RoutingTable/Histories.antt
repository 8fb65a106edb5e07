-- ===== src/Social/RoutingTable/Histories.antt =====
-- Histories of calls of the public interface of src/social/routing_table.h, and the invariant over them.
use unisphere.Prelude.{
  ℕ, ◌≡◌, refl, sym, ap, subst, ◌∙◌, ◌<◌, Bool, true, false, Option, some, none, List, [], ◌∷◌, All,
  arith,
}
use unisphere.Identity.NodeIdentifier.{NodeIdentifier}
use unisphere.Social.RoutingTable.Entry.{RoutingEntry, Indices, origin_vport}
use unisphere.Social.RoutingTable.Table.{RoutingTable, init, get_vport_for_neighbor}
use unisphere.Social.RoutingTable.Select.{set_landmark, retract_destination, retract}
use unisphere.Social.RoutingTable.Import.{Environment, import}
use unisphere.Social.RoutingTable.Read.{entry_timer_expired, clear}
use unisphere.Social.RoutingTable.Routed.{IsRouted}
use unisphere.Social.RoutingTable.Kept.{retract_destination-IsRouted}
use unisphere.Social.RoutingTable.Operations.{import-some, retract-IsRouted, set_landmark-rib}

-- The calls of the public interface that may change the table.
pub data Call : Type 0 where
  import_call : Environment → ℕ → RoutingEntry → Call
  retract_destination_call : NodeIdentifier → Call
  retract_call : ℕ → NodeIdentifier → Call
  expired_call : Bool → Option RoutingEntry → Call
  neighbor_call : NodeIdentifier → Call
  landmark_call : Bool → Call
  clear_call : Call

-- An imported entry is not active, as its constructor leaves it, and the vicinity may have a member.
abbrev pub IsAllowed : Call → Type 0
IsAllowed (import_call env now e) = (0 < env.maximum_vicinity_size) × (e.active ≡ false)
IsAllowed _ = Unit

-- `none` where a call follows a null pointer
unfoldable pub step : Indices → RoutingTable → Call → Option RoutingTable
unfolding import
step indices t (import_call env now e) = elim (import env now e t) [
  | none ↦ none
  | some o ↦ some o.table
]
step indices t (retract_destination_call d) = some ((retract_destination indices d t).table)
step indices t (retract_call vport d) = some ((retract indices vport d t).table)
step indices t (expired_call error e) = some ((entry_timer_expired indices error e t).0)
step indices t (neighbor_call n) = some ((get_vport_for_neighbor n t).1)
step indices t (landmark_call b) = some ((set_landmark indices b t).0)
step indices t clear_call = some (clear t)

unfoldable pub run : Indices → Option RoutingTable → List Call → Option RoutingTable
unfolding step
run indices t [] = t
run indices none (c ∷ cs) = none
run indices (some t) (c ∷ cs) = run indices (step indices t c) cs

pub nothing-IsRouted : IsRouted []
nothing-IsRouted = record {
  unique = λ a b ma mb s. absurd ma;
  single = λ a b ma mb oa ob g. absurd ma;
  served = λ e m p. absurd m;
}

pub neighbor-rib :
    (n : NodeIdentifier) (t : RoutingTable) → (get_vport_for_neighbor n t).1.rib ≡ t.rib
unfolding get_vport_for_neighbor
neighbor-rib n t = ground arith

step-IsRouted :
    (indices : Indices) (t : RoutingTable) (c : Call)
    → IsAllowed c
    → IsRouted t.rib
    → (u : RoutingTable) × (step indices t c ≡ some u) × IsRouted u.rib
unfolding step entry_timer_expired clear
step-IsRouted indices t (import_call env now e) allowed routed =
    let o = import-some env now e t (allowed.0) (allowed.1) routed in
    (
      (o.0).table,
      ap (λ r. elim r as (λ q. Option RoutingTable) [ none ↦ none | some p ↦ some p.table ]) (o.1),
      o.2,
    )
step-IsRouted indices t (retract_destination_call d) allowed routed =
    (_, refl, retract_destination-IsRouted indices d t routed)
step-IsRouted indices t (retract_call vport d) allowed routed =
    (_, refl, retract-IsRouted indices vport d t routed)
step-IsRouted indices t (expired_call true e) allowed routed = (_, refl, routed)
step-IsRouted indices t (expired_call false none) allowed routed = (_, refl, routed)
step-IsRouted indices t (expired_call false (some e)) allowed routed =
    (_, refl, retract-IsRouted indices (origin_vport e) e.destination _ routed)
step-IsRouted indices t (neighbor_call n) allowed routed =
    (_, refl, subst IsRouted (sym (neighbor-rib n t)) routed)
step-IsRouted indices t (landmark_call b) allowed routed =
    (_, refl, subst IsRouted (sym (set_landmark-rib indices b t)) routed)
step-IsRouted indices t clear_call allowed routed = (_, refl, nothing-IsRouted)

run-IsRouted :
    (indices : Indices) (t : RoutingTable) (cs : List Call)
    → All IsAllowed cs
    → IsRouted t.rib
    → (u : RoutingTable) × (run indices (some t) cs ≡ some u) × IsRouted u.rib
unfolding run
run-IsRouted indices t [] allowed routed = (t, refl, routed)
run-IsRouted indices t (c ∷ cs) allowed routed =
    let first = step-IsRouted indices t c (allowed.0) routed in
    let rest = run-IsRouted indices (first.0) cs (allowed.1) (first.2) in
    (rest.0, ap (λ o. run indices o cs) (first.1) ∙ rest.1, rest.2)

-- Any history of calls from the empty table, with imported entries not active and a vicinity that may
-- have a member, ends in a table: one entry for each vport and destination, and exactly one active
-- entry for each destination that has entries, of least cost among them.
pub history-IsRouted :
    (indices : Indices) (id : NodeIdentifier) (cs : List Call)
    → All IsAllowed cs
    → (u : RoutingTable) × (run indices (some (init id)) cs ≡ some u) × IsRouted u.rib
unfolding init
history-IsRouted indices id cs allowed = run-IsRouted indices (init id) cs allowed nothing-IsRouted
