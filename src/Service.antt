-- ===== src/Service.antt =====
-- service/service.go: the sessions of one of the two services, and their peers. The lock around the
-- map is not modelled here, nor is what Close does; both are in Peer/Lifecycle.
pub mod Overflow
pub mod Messages
pub mod Dispatch
pub mod Listening
pub mod Errors
pub mod Stopping
use bfxfixgw.Base.{
  String, Bool, true, false, Option, none, some, List, [], ◌∷◌, ◌==◌, map, ◌++◌, if◌then◌else◌,
}
use bfxfixgw.Base.Maps.{Order as Visits, lookup, assign, delete}
use bfxfixgw.Fix.{SessionId}
use bfxfixgw.Fix.BusinessRejectReason
use bfxfixgw.Peer.Cache.{new_cache}
use bfxfixgw.World.{Peer, Event}

-- ServiceType of service/fix/fix.go
pub data ServiceType : Type 0 where
  market_data_service order_routing_service : ServiceType

-- Service, with the last message type of its FIX application. `closed` has the names of the
-- sessions whose peers Close has been called on, and `log` what has been sent without a peer, the
-- latest in front.
pub record Service (F D : Type 0) : Type 0 where
  pub service_type : ServiceType
  pub peers : List (String × Peer F D)
  pub last_msg_type : String
  pub inbound_closed : Bool
  pub closed : List String
  pub log : List (Event F D)

-- isMarketDataService and isOrderRoutingService
unfoldable pub is_market_data_service : ServiceType → Bool
is_market_data_service market_data_service = true
is_market_data_service order_routing_service = false

unfoldable pub is_order_routing_service : ServiceType → Bool
is_order_routing_service market_data_service = false
is_order_routing_service order_routing_service = true

-- businessRejectReason
unfoldable pub business_reject_reason : String → String
business_reject_reason error =
    if error == "symbol: invalid"
    then BusinessRejectReason.unknown_security
    else BusinessRejectReason.other

module _ {F D : Type 0} where
  -- peer.New
  abbrev pub new_peer : Peer F D
  new_peer = record { cache = new_cache; bfx_user_id = ""; log = [] }

  -- New of service/service.go
  unfoldable pub new_service : ServiceType → Service F D
  new_service t = record {
    service_type = t;
    peers = [];
    last_msg_type = "";
    inbound_closed = false;
    closed = [];
    log = [];
  }

  -- AddPeer
  unfoldable pub add_peer : SessionId → Service F D → Service F D
  add_peer session s = record s { peers = assign session.name new_peer s.peers }

  -- FindPeer
  unfoldable pub find_peer : String → Service F D → Option (Peer F D)
  find_peer name s = lookup name s.peers

  -- The peer that FindPeer has found is an object of the map: what a handler does to it is seen there.
  unfoldable pub put_peer : String → Peer F D → Service F D → Service F D
  put_peer name p s = record s { peers = assign name p s.peers }

  -- RemovePeer, with a Close that returns
  unfoldable pub remove_peer : String → Service F D → Bool × Service F D
  remove_peer name s = elim (lookup name s.peers) [
    | none ↦ (false, s)
    | some p ↦ (true, record s { peers = delete name s.peers; closed = name ∷ s.closed })
  ]

  -- The loop of Stop over the peers: whether it ends, and the peers that are closed by then.
  -- `returns` is whether Close of a peer returns while Stop holds the lock: it waits until the
  -- listener of a started peer ends, and Peer/Lifecycle is about when that is so.
  unfoldable pub close_each :
      (returns : String → Bool) → List (String × Peer F D) → List String → Bool × List String
  close_each returns [] closed = (true, closed)
  close_each returns (e ∷ rest) closed =
      let later = close_each returns rest (e.0 ∷ closed) in
      if returns e.0 then later else (false, closed)

  -- Stop, and whether it returns: one that does not holds the lock for ever. `down` is what the
  -- acceptor of quickfix does when it is stopped.
  unfoldable pub stop :
      (down : Service F D → Service F D)
      → (returns : String → Bool) → Visits (Peer F D)
      → Service F D
      → Bool × Service F D
  unfolding close_each
  stop down returns r s =
      let s1 = down s in
      let (ends, closed) = close_each returns (r s1.peers) s1.closed in
      let s2 : Service F D = record s1 { closed = closed } in
      if ends then (true, record s2 { inbound_closed = true }) else (false, s2)
