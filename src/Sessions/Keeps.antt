-- ===== src/Sessions/Keeps.antt =====
-- What the operations of a service do to the caches of its sessions: a predicate that the handlers
-- of its type keep holds of them all.
use mathlib.Core.Path.{subst}
use bfxfixgw.Base.{ℕ, String, true, ◌≡◌, refl, sym, some, Option-cases, Bool-cases, inl, inr}
use bfxfixgw.Base.Floats.{Floats, Decimals}
use bfxfixgw.Base.Maps.{Order as Visits, Every}
use bfxfixgw.Base.Maps.Entries.{Every-lookup, Every-assign}
use bfxfixgw.Application.{}
use bfxfixgw.Application.Requests.{with_peer}
use bfxfixgw.Fix.{FieldMap, SessionId}
use bfxfixgw.Inbound.MarketData.Properties.{AreOrders}
use bfxfixgw.Inbound.MarketData.Rounds.{market_data_request_for}
use bfxfixgw.Inbound.Evolves.{}
use bfxfixgw.Outbound.{Handled}
use bfxfixgw.Outbound.Evolves.{}
use bfxfixgw.Outbound.Positions.{}
use bfxfixgw.Peer.Cache.{Cache, new_cache}
use bfxfixgw.Peer.Cache.Evolves.{Evolves}
use bfxfixgw.Service.{
  Service, ServiceType, market_data_service, order_routing_service, is_market_data_service,
  is_order_routing_service, find_peer, put_peer,
}
use bfxfixgw.Service.Dispatch.{on_peer, for_orders, for_market_data}
use bfxfixgw.Service.Messages.{}
use bfxfixgw.Symbol.{Symbology}
use bfxfixgw.World.{Env, Peer, Outcome}

module _ {F : Type 0} ⦃fl : Floats F⦄ (D : Type 0) ⦃dc : Decimals F D⦄ where
  -- The predicate holds of a new cache, and the handlers that a service of the type has keep it.
  pub record IsKept (t : ServiceType) (P : Cache F → Type 0) : Type 0 where
    pub start : P new_cache
    pub evolves : t ≡ order_routing_service → (c c' : Cache F) → P c → Evolves c c' → P c'
    pub requests :
        t ≡ market_data_service
        → (env : Env F D) (symbology : Symbology) (session : SessionId) (msg : FieldMap D)
          (ranges : ℕ → Visits String) (p : Peer F D)
        → AreOrders ranges
        → P p.cache
        → P (market_data_request_for ranges env symbology session msg p).1.cache

-- Of the caches of all sessions.
abbrev pub OfCaches : {F D : Type 0} → (Cache F → Type 0) → Service F D → Type 0
OfCaches P s = Every (λ e. P e.1.cache) s.peers

-- The type of the service stays, and so does what holds of its caches.
abbrev pub Keeps : {F D : Type 0} → (Cache F → Type 0) → (s s' : Service F D) → Type 0
Keeps P s s' = (s'.service_type ≡ s.service_type) × (OfCaches P s → OfCaches P s')

order_type : (t : ServiceType) → is_order_routing_service t ≡ true → t ≡ order_routing_service
unfolding is_order_routing_service
order_type market_data_service e = cc e
order_type order_routing_service e = refl

module _ {F D : Type 0} (P : Cache F → Type 0) where
  pub put_peer-Keeps :
      (name : String) (p : Peer F D) (s : Service F D)
      → (OfCaches P s → P p.cache)
      → Keeps P s (put_peer name p s)
  unfolding put_peer
  put_peer-Keeps name p s h = (refl, λ e. Every-assign (λ x. P x.1.cache) name p s.peers e (h e))

  pub found :
      (name : String) (p : Peer F D) (s : Service F D)
      → find_peer name s ≡ some p
      → OfCaches P s
      → P p.cache
  unfolding find_peer
  found name p s h e = Every-lookup (λ x. P x.1.cache) s.peers name p e h

  on_peer-Keeps :
      (session : SessionId) (handler : Peer F D → Handled × Peer F D) (s : Service F D)
      → ((p : Peer F D) → P p.cache → P (handler p).1.cache)
      → Keeps P s (on_peer session handler s).1
  unfolding on_peer
  on_peer-Keeps session handler s h = elim (Option-cases (find_peer session.name s)) [
    | inl missing ↦ rw (missing, on_peer) (refl, λ e. e)
    | inr (p, hit) ↦
        rw (hit, on_peer)
          (put_peer-Keeps session.name (handler p).1 s (λ e. h p (found session.name p s hit e)))
  ]

  pub for_orders-Keeps :
      (session : SessionId) (handler : Peer F D → Handled × Peer F D) (s : Service F D)
      → (s.service_type ≡ order_routing_service
          → (p : Peer F D) → P p.cache
          → P (handler p).1.cache)
      → Keeps P s (for_orders session handler s).1
  unfolding for_orders
  for_orders-Keeps session handler s h =
      elim (Bool-cases (is_order_routing_service s.service_type)) [
        | inl yes_orders ↦
            rw (yes_orders, for_orders)
              (on_peer-Keeps session handler s (h (order_type s.service_type yes_orders)))
        | inr other ↦ rw (other, for_orders) (refl, λ e. e)
      ]

  pub for_market_data-Keeps :
      (session : SessionId) (handler : Peer F D → Handled × Peer F D) (s : Service F D)
      → ((p : Peer F D) → (handler p).1.cache ≡ p.cache)
      → Keeps P s (for_market_data session handler s).1
  unfolding for_market_data
  for_market_data-Keeps session handler s h =
      elim (Bool-cases (is_market_data_service s.service_type)) [
        | inl data_service ↦
            rw (data_service, for_market_data)
              (on_peer-Keeps session handler s (λ p. subst P (sym (h p))))
        | inr other ↦ rw (other, for_market_data) (refl, λ e. e)
      ]

  pub with_peer-Keeps :
      (session : SessionId) (missing : Outcome) (handler : Peer F D → Outcome × Peer F D)
      (s : Service F D)
      → ((p : Peer F D) → P p.cache → P (handler p).1.cache)
      → Keeps P s (with_peer session missing handler s).1
  unfolding with_peer
  with_peer-Keeps session missing handler s h = elim (Option-cases (find_peer session.name s)) [
    | inl none_found ↦ rw (none_found, with_peer) (refl, λ e. e)
    | inr (p, hit) ↦
        rw (hit, with_peer)
          (put_peer-Keeps session.name (handler p).1 s (λ e. h p (found session.name p s hit e)))
  ]
