-- ===== src/Peer/Lifecycle/Safety.antt =====
-- What holds whatever the order of the goroutines is.
use bfxfixgw.Base.{◌≡◌, ◌≢◌, ◌⊎◌, Bool, true, false, arith}
use bfxfixgw.Peer.Lifecycle.{
  State, Listener, Remover, Watcher, not_started, started_go, ended, crashed, closing,
  awaiting_exit, closed_after_exit, closed_at_once, receiving, added, Step, logs_on, starts, takes,
  delivers, leaves, signals, crashes, removes, closes_ws, closes_at_once, closes_after_exit,
  sees_close, finds, handles, IsReachable, adds, moves,
}

-- The remover has the lock.
abbrev pub is_inside : Remover → Bool
is_inside closing = true
is_inside awaiting_exit = true
is_inside _ = false

abbrev pub has_closed : Remover → Bool
has_closed closed_after_exit = true
has_closed closed_at_once = true
has_closed _ = false

-- The listener has not come past `p.started = true`.
abbrev pub is_early : Listener → Bool
is_early not_started = true
is_early started_go = true
is_early _ = false

abbrev pub has_left : Listener → Bool
has_left ended = true
has_left crashed = true
has_left _ = false

abbrev pub is_waiting : Watcher → Bool
is_waiting receiving = true
is_waiting _ = false

-- What holds of every reachable state.
pub record IsSafe (s : State) : Type 0 where
  pub lock_is_removers : s.locked ≡ is_inside s.remover
  pub channel : s.disconnect_closed ≡ has_closed s.remover
  pub flag : (s.started ≡ true) ⊎ (is_early s.listener ≡ true)
  pub early : (s.started ≡ false) ⊎ (is_early s.listener ≡ false)
  -- Close has waited for the end of the listener
  pub waited :
      (s.remover ≢ closed_after_exit) × (s.remover ≢ awaiting_exit) ⊎ (is_early s.listener ≡ false)
  pub gone : (s.remover ≢ closed_after_exit) ⊎ (s.listener ≡ ended)
  -- a send on the closed channel comes only of a Close that did not wait
  pub crash : (s.listener ≢ crashed) ⊎ (s.remover ≡ closed_at_once)
  -- until the channel is closed, the goroutine of FromAdmin receives as long as none has ended
  pub watching :
      (s.disconnect_closed ≡ true) ⊎ ((has_left s.listener ≡ true) ⊎ (s.watcher ≡ receiving))

added-IsSafe : IsSafe added
added-IsSafe = ground arith

Step-IsSafe : (s t : State) → Step s t → IsSafe s → IsSafe t
Step-IsSafe s t (logs_on a b e) v = ground arith
Step-IsSafe s t (starts a e) v = ground arith
Step-IsSafe s t (takes a e) v = ground arith
Step-IsSafe s t (delivers a b e) v = ground arith
Step-IsSafe s t (leaves a e) v = ground arith
Step-IsSafe s t (signals a b c e) v = ground arith
Step-IsSafe s t (crashes a b e) v = ground arith
Step-IsSafe s t (removes a b e) v = ground arith
Step-IsSafe s t (closes_ws a b e) v = ground arith
Step-IsSafe s t (closes_at_once a b e) v = ground arith
Step-IsSafe s t (closes_after_exit a b e) v = ground arith
Step-IsSafe s t (sees_close a b e) v = ground arith
Step-IsSafe s t (finds a b e) v = ground arith
Step-IsSafe s t (handles a b e) v = ground arith

-- Whatever the order of the steps is: the lock is taken just while RemovePeer has it; the channel
-- of disconnects is closed just after a Close; a Close that has waited is never followed by a
-- listener that goes on or crashes; and until a Close or the end of the listener, the goroutine of
-- FromAdmin still waits for the peer.
pub reachable-IsSafe : {s : State} → IsReachable s → IsSafe s
reachable-IsSafe adds = added-IsSafe
reachable-IsSafe (moves {s} {t} r st) = Step-IsSafe s t st (reachable-IsSafe r)
