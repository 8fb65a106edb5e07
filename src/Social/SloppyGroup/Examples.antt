-- ===== src/Social/SloppyGroup/Examples.antt =====
-- A sloppy group at concrete values.
use unisphere.Prelude.{ℕ, ◌≡◌, refl, inr, true, false, List, [], ◌∷◌, find, replicate, arith}
use unisphere.Prelude.Index.{sorted_index}
use unisphere.Identity.NodeIdentifier.{NodeIdentifier, invalid, is_null, is_valid}
use unisphere.Social.Address.{null_address, landmark_itself}
use unisphere.Social.RoutingTable.Table as Table
use unisphere.Social.RoutingTable.Examples as Routes
use unisphere.Social.NameDatabase.Record as Names
use unisphere.Social.NameDatabase.Record.{NameRecord, sloppy_group}
use unisphere.Social.NameDatabase.Examples as Records
use unisphere.Social.SloppyGroup.{SloppyPeer, sloppy_peer, NameAnnounce, SloppyGroup, hops_lt}
use unisphere.Social.SloppyGroup.Exchange.{
  GroupSurroundings, for_peer, export_name, message_delivered, name_announce, announced_record,
}
use unisphere.Social.SloppyGroup.Announced.{announced_record-name_announce}
use unisphere.Social.SloppyGroup.Views.{IsLimited, message_delivered-IsLimited, export_name-silent}

abbrev node : ℕ → NodeIdentifier
node b = record { identifier = replicate 20 b }

hops_asym : (x y : SloppyPeer) → hops_lt x y ≡ true → hops_lt y x ≡ false
hops_asym x y h = ground (arith, h)

hops_trans : (x y z : SloppyPeer) → hops_lt y x ≡ false → hops_lt z y ≡ false → hops_lt z x ≡ false
hops_trans x y z h k = ground (arith, h, k)

abbrev surroundings : GroupSurroundings
surroundings = record {
  table_indices = Routes.indices;
  database_indices = Records.indices;
  by_hops = sorted_index hops_lt hops_asym hops_trans;
  accepts = λ r. true;
  now = 5;
}

abbrev crowded : SloppyGroup
crowded = record {
  local_id = node 1;
  foreign = [];
  reverse =
      sloppy_peer (node 2) null_address 3
      ∷ sloppy_peer (node 3) null_address 5
      ∷ sloppy_peer (node 4) null_address 2
      ∷ sloppy_peer (node 5) null_address 4
      ∷ [];
  exports = [];
  group_prefix_length = 4;
  group_prefix = node 0;
  max_peer_view_size = 4;
  record_xmits = 0;
  record_rcvd = 0;
}

abbrev announces : List NameAnnounce
announces =
    record {
      origin_id = replicate 20 6;
      timestamp = 9;
      seqno = 0;
      addresses = (replicate 20 7, 1 ∷ []) ∷ [];
    }
    ∷ []

message_delivered-IsLimited_example :
    IsLimited
      (message_delivered surroundings 2 1
        (node 6)
        (landmark_itself (node 7))
        2
        announces
        (Table.init (node 1))
        crowded
        (Names.init (node 1))).group
message_delivered-IsLimited_example =
    message_delivered-IsLimited surroundings (node 6) (landmark_itself (node 7)) 2 announces
      (Table.init (node 1)) crowded (Names.init (node 1)) 2 1 (omega arith)

abbrev heard : NameRecord
heard = record {
  node_id = node 6;
  type = sloppy_group;
  addresses = landmark_itself (node 7) ∷ [];
  last_update = 4;
  received_peer_id = node 3;
  timestamp = 9;
  seqno = 255;
}

everybody : is_null invalid ≡ true
unfolding is_null
everybody = refl

export_name-silent_example :
    find (for_peer (node 3)) (export_name [] heard invalid crowded).0.exports
    ≡ find (for_peer (node 3)) crowded.exports
export_name-silent_example =
    export_name-silent [] heard invalid crowded (node 3) everybody (inr refl)

announced_record-name_announce_example :
    announced_record (node 2) (name_announce heard)
    ≡ record heard { received_peer_id = node 2; last_update = 0 }
unfolding is_valid
announced_record-name_announce_example =
    announced_record-name_announce (node 2) heard refl (omega arith) refl (refl, tt)
