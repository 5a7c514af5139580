-- ===== src/Sessions/Others.antt =====
-- The steps that the handlers share, for the sessions that they are not about.
use bfxfixgw.Base.{String, ◌≡◌, ◌≢◌, refl, eq_iff, arith, Option-cases, Bool-cases, inl, inr}
use bfxfixgw.Base.Maps.{Order as Visits, lookup-assign}
use bfxfixgw.Application.{}
use bfxfixgw.Application.Requests.{with_peer}
use bfxfixgw.Fix.{SessionId}
use bfxfixgw.Outbound.{Handled}
use bfxfixgw.Peer.Cache.{Ids}
use bfxfixgw.Service.{
  Service, is_market_data_service, is_order_routing_service, find_peer, put_peer,
}
use bfxfixgw.Service.Dispatch.{
  on_peer, for_orders, for_market_data, handle_error_event, failed_request, report,
}
use bfxfixgw.Service.Messages.{ErrorEvent}
use bfxfixgw.World.{Env, Peer, Outcome}

module _ {F D : Type 0} where
  -- The session with the name has the peer that it had.
  abbrev pub HasPeerOf : (name : String) → (s s' : Service F D) → Type 0
  HasPeerOf name s s' = find_peer name s' ≡ find_peer name s

  module _ (name : String) (session : SessionId) (other : name ≢ session.name) where
    pub put_peer-HasPeerOf :
        (p : Peer F D) (s : Service F D) → HasPeerOf name s (put_peer session.name p s)
    unfolding put_peer find_peer
    put_peer-HasPeerOf p s =
        ground (arith, lookup-assign session.name name p s.peers, eq_iff session.name name, other)

    pub on_peer-HasPeerOf :
        (handler : Peer F D → Handled × Peer F D) (s : Service F D)
        → HasPeerOf name s (on_peer session handler s).1
    unfolding on_peer
    on_peer-HasPeerOf handler s = elim (Option-cases (find_peer session.name s)) [
      | inl missing ↦ rw (missing, on_peer) refl
      | inr (p, hit) ↦ rw (hit, on_peer) (put_peer-HasPeerOf (handler p).1 s)
    ]

    pub for_orders-HasPeerOf :
        (handler : Peer F D → Handled × Peer F D) (s : Service F D)
        → HasPeerOf name s (for_orders session handler s).1
    unfolding for_orders
    for_orders-HasPeerOf handler s = elim (Bool-cases (is_order_routing_service s.service_type)) [
      | inl orders ↦ rw (orders, for_orders) (on_peer-HasPeerOf handler s)
      | inr not_orders ↦ rw (not_orders, for_orders) refl
    ]

    pub for_market_data-HasPeerOf :
        (handler : Peer F D → Handled × Peer F D) (s : Service F D)
        → HasPeerOf name s (for_market_data session handler s).1
    unfolding for_market_data
    for_market_data-HasPeerOf handler s =
        elim (Bool-cases (is_market_data_service s.service_type)) [
          | inl market ↦ rw (market, for_market_data) (on_peer-HasPeerOf handler s)
          | inr not_market ↦ rw (not_market, for_market_data) refl
        ]

    pub with_peer-HasPeerOf :
        (missing : Outcome) (handler : Peer F D → Outcome × Peer F D) (s : Service F D)
        → HasPeerOf name s (with_peer session missing handler s).1
    unfolding with_peer
    with_peer-HasPeerOf missing handler s = elim (Option-cases (find_peer session.name s)) [
      | inl none_found ↦ rw (none_found, with_peer) refl
      | inr (p, hit) ↦ rw (hit, with_peer) (put_peer-HasPeerOf (handler p).1 s)
    ]

    pub handle_error_event-HasPeerOf :
        (env : Env F D) (r : Visits Ids) (e : ErrorEvent) (s : Service F D)
        → HasPeerOf name s (handle_error_event env r session e s).1
    unfolding handle_error_event report find_peer
    handle_error_event-HasPeerOf env r e s =
        elim (Option-cases (failed_request env r session e s)) [
          | inl unknown ↦ rw (unknown, handle_error_event) refl
          | inr (id, known) ↦ rw (known, handle_error_event) refl
        ]
