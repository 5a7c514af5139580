-- ===== src/Peer/Lifecycle.antt =====
-- service/peer/peer.go with the goroutines around it: Logon and listen, the goroutine of FromAdmin
-- (service/fix/fix.go) that waits for the end of the peer, RemovePeer with Close, and the loop of
-- service/service.go that takes the messages. A state says where each of them stands; a step is one
-- of them doing the next thing that the others can see, so the steps can come in any order.
pub mod Safety
pub mod Endings
use bfxfixgw.Base.{◌≡◌, Bool, true, false}

-- listen: not yet started with `go`; started, before `p.started = true`; in its `select`; sending a
-- message to the service; in its deferred function, sending `true`; ended; or crashed, after a send
-- on a channel that is closed.
pub data Listener : Type 0 where
  not_started started_go selecting delivering signalling ended crashed : Listener

-- RemovePeer: outside; with the lock, in Close before it reads p.started; waiting for p.exit;
-- finished after that wait; or finished without a wait.
pub data Remover : Type 0 where
  outside closing awaiting_exit closed_after_exit closed_at_once : Remover

-- The goroutine of FromAdmin: receiving from p.disconnect; about to call FindPeer; ended.
pub data Watcher : Type 0 where
  receiving notified watched : Watcher

-- The loop of the service: receiving from s.inbound, or in a handler, about to call FindPeer.
pub data Server : Type 0 where
  idle handling : Server

pub record State : Type 0 where
  pub listener : Listener
  pub remover : Remover
  pub watcher : Watcher
  pub server : Server
  -- s.lock is taken, p.started, p.Ws has been closed, p.disconnect is closed
  pub locked : Bool
  pub started : Bool
  pub ws_closed : Bool
  pub disconnect_closed : Bool

-- After AddPeer.
abbrev pub added : State
added = record {
  listener = not_started;
  remover = outside;
  watcher = receiving;
  server = idle;
  locked = false;
  started = false;
  ws_closed = false;
  disconnect_closed = false;
}

pub data Step (s t : State) : Type 0 where
  -- go p.listen()
  logs_on :
      s.listener ≡ not_started
      → s.remover ≡ outside
      → t ≡ record s { listener = started_go }
      → Step s t
  -- p.started = true
  starts :
      s.listener ≡ started_go → t ≡ record s { listener = selecting; started = true } → Step s t
  -- case msg := <-p.Ws.Listen()
  takes : s.listener ≡ selecting → t ≡ record s { listener = delivering } → Step s t
  -- p.toParent <- …, which the loop of the service receives
  delivers :
      s.listener ≡ delivering
      → s.server ≡ idle
      → t ≡ record s { listener = selecting; server = handling }
      → Step s t
  -- the return of listen: the websocket has been closed, or has lost its connection
  leaves : s.listener ≡ selecting → t ≡ record s { listener = signalling } → Step s t
  -- p.disconnect <- true, which the goroutine of FromAdmin receives, and close(p.exit)
  signals :
      s.listener ≡ signalling
      → s.disconnect_closed ≡ false
      → s.watcher ≡ receiving
      → t ≡ record s { listener = ended; watcher = notified }
      → Step s t
  -- p.disconnect <- true on the closed channel
  crashes :
      s.listener ≡ signalling
      → s.disconnect_closed ≡ true
      → t ≡ record s { listener = crashed }
      → Step s t
  -- RemovePeer: s.lock.Lock()
  removes :
      s.remover ≡ outside
      → s.locked ≡ false
      → t ≡ record s { remover = closing; locked = true }
      → Step s t
  -- Close of a peer that has been started: p.Ws.Close()
  closes_ws :
      s.remover ≡ closing
      → s.started ≡ true
      → t ≡ record s { remover = awaiting_exit; ws_closed = true }
      → Step s t
  -- Close of one that has not: close(p.disconnect), and the end of RemovePeer
  closes_at_once :
      s.remover ≡ closing
      → s.started ≡ false
      → t ≡ record s { remover = closed_at_once; disconnect_closed = true; locked = false }
      → Step s t
  -- <-p.exit, close(p.disconnect), and the end of RemovePeer
  closes_after_exit :
      s.remover ≡ awaiting_exit
      → s.listener ≡ ended
      → t ≡ record s { remover = closed_after_exit; disconnect_closed = true; locked = false }
      → Step s t
  -- the goroutine of FromAdmin receives `false` from the closed channel, and ends
  sees_close :
      s.watcher ≡ receiving
      → s.disconnect_closed ≡ true
      → t ≡ record s { watcher = watched }
      → Step s t
  -- FindPeer, by the goroutine of FromAdmin and by a handler: the lock is taken and given back
  finds : s.watcher ≡ notified → s.locked ≡ false → t ≡ record s { watcher = watched } → Step s t
  handles : s.server ≡ handling → s.locked ≡ false → t ≡ record s { server = idle } → Step s t

-- What can come of a peer after AddPeer.
pub data IsReachable : State → Type 0 where
  adds : IsReachable added
  moves : {s t : State} → IsReachable s → Step s t → IsReachable t

-- What can come of a state.
pub data Leads (s : State) : State → Type 0 where
  here : Leads s s
  onward : {t u : State} → Leads s t → Step t u → Leads s u
