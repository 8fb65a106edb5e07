-- ===== src/Interplex/LinkManager/Examples.antt =====
-- A link manager at concrete values.
use unisphere.Prelude.{refl, List, [], ◌∷◌, replicate}
use unisphere.Interplex.Link.Histories.{connection_succeeded}
use unisphere.Interplex.Link.Examples.{reachable, note}
use unisphere.Interplex.LinkManager.{LinkManager}
use unisphere.Interplex.LinkManager.Managed.{IsManaged, IsOrderly}
use unisphere.Interplex.LinkManager.Calls.{
  ManagerCall, contact_sent, link_event, message_arrived, manager_closed, manager_run,
  manager_run-IsOrderly,
}

abbrev idle : LinkManager
idle = record {
  own_key = record { bytes = 2 ∷ []; hashed = record { identifier = replicate 20 9 } };
  links = [];
  listeners = [];
  total = record { xmits = 0; rcvd = 0 };
  by_link = [];
}

idle-IsManaged : IsManaged idle
idle-IsManaged = record { sound = tt; single = tt; tallied_xmits = refl; tallied_rcvd = refl }

abbrev calls : List ManagerCall
calls =
    contact_sent reachable (note 1)
    ∷ link_event (record { identifier = replicate 20 7 }) (connection_succeeded 0)
    ∷ contact_sent reachable (note 2)
    ∷ message_arrived (note 3)
    ∷ manager_closed
    ∷ []

manager_run-IsOrderly_example : IsOrderly (manager_run calls idle)
manager_run-IsOrderly_example = manager_run-IsOrderly calls idle idle-IsManaged
