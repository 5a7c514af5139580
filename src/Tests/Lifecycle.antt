-- ===== src/Tests/Lifecycle.antt =====
-- Peer/Lifecycle at concrete states.
use bfxfixgw.Base.{◌≡◌, ◌↔◌, refl, ◌⊎◌, true, false}
use bfxfixgw.Peer.Lifecycle.{
  State, started_go, delivering, crashed, awaiting_exit, closed_at_once, receiving, handling, added,
  logs_on, starts, takes, delivers, removes, closes_ws, IsReachable, adds, moves, Leads,
}
use bfxfixgw.Peer.Lifecycle.Endings.{
  IsStuck, IsCrossed, CanEnd, removal_ends_or_IsStuck, early_removal_crashes,
}
use bfxfixgw.Peer.Lifecycle.Safety.{IsSafe, reachable-IsSafe}

-- The peer has been logged on, and its listener has not done anything.
abbrev logging_on : State
logging_on = record added { listener = started_go }

logging_on-IsReachable : IsReachable logging_on
logging_on-IsReachable = moves adds (logs_on refl refl refl)

-- The service's loop handles a message, the listener has the next one, and RemovePeer waits.
abbrev crossed : State
crossed = record {
  listener = delivering;
  remover = awaiting_exit;
  watcher = receiving;
  server = handling;
  locked = true;
  started = true;
  ws_closed = true;
  disconnect_closed = false;
}

crossed-IsReachable : IsReachable crossed
crossed-IsReachable =
    moves
      (moves
        (moves
          (moves (moves (moves logging_on-IsReachable (starts refl refl)) (takes refl refl))
            (delivers refl refl refl))
          (takes refl refl))
        (removes refl refl refl))
      (closes_ws refl refl refl)

reachable-IsSafe_example : IsSafe crossed
reachable-IsSafe_example = reachable-IsSafe crossed-IsReachable

removal_ends_or_IsStuck_example :
    (CanEnd crossed ⊎ IsStuck crossed) × (IsStuck crossed ↔ IsCrossed crossed)
removal_ends_or_IsStuck_example = removal_ends_or_IsStuck crossed crossed-IsReachable refl

early_removal_crashes_example :
    (t : State) × (u : State) × Leads logging_on t
    × (t.remover ≡ closed_at_once)
    × (t.locked ≡ false)
    × Leads t u
    × (u.listener ≡ crashed)
early_removal_crashes_example =
    early_removal_crashes logging_on logging_on-IsReachable refl refl refl
