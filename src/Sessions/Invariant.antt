-- ===== src/Sessions/Invariant.antt =====
-- What holds of the caches of all sessions, whatever happens to a service.
use mathlib.Core.Path.{subst}
use bfxfixgw.Base.{ℕ, String, ◌≡◌, refl, sym, ◌∙◌, some, []}
use bfxfixgw.Base.Floats.{Floats, Decimals}
use bfxfixgw.Base.Maps.{Order as Visits}
use bfxfixgw.Base.Maps.Entries.{Every-map}
use bfxfixgw.Fix.{FieldMap, SessionId, ok}
use bfxfixgw.Fix.SubscriptionRequestType
use bfxfixgw.Inbound.MarketData.{MdRequest, read_md_request}
use bfxfixgw.Inbound.MarketData.Properties.{
  AreOrders, market_data_request-IsMdValid, market_data_request-Runs, orders-market_data_request,
}
use bfxfixgw.Inbound.MarketData.Refusals.{IsQuiet, disable_never_unsubscribes}
use bfxfixgw.Inbound.MarketData.Rounds.{market_data_request_for}
use bfxfixgw.Inbound.MarketData.Valid.{IsMdValid}
use bfxfixgw.Peer.Cache.{Cache}
use bfxfixgw.Peer.Cache.Evolves.{Evolves-IsReachable, Evolves-SameRequests}
use bfxfixgw.Peer.Cache.Invariant.{IsValid}
use bfxfixgw.Peer.Cache.Runs as Runs
use bfxfixgw.Service.{
  Service, ServiceType, market_data_service, order_routing_service, find_peer, new_service,
}
use bfxfixgw.Sessions.{
  Happens, admin_message, app_message, logout_of, disconnect_of, data_message, IsReachable, starts,
  goes_on,
}
use bfxfixgw.Sessions.Handlers.{dispatch-Keeps}
use bfxfixgw.Sessions.Requests.{
  from_app-Keeps, from_admin-Keeps, on_disconnect-Keeps, on_logout-Keeps,
}
use bfxfixgw.Sessions.Keeps.{IsKept, OfCaches, Keeps, found}
use bfxfixgw.Symbol.{Symbology}
use bfxfixgw.World.{Env, Peer}

module _ {F D : Type 0} ⦃fl : Floats F⦄ ⦃dc : Decimals F D⦄ (P : Cache F → Type 0) where
  Happens-Keeps : {s s' : Service F D} → Happens s s' → IsKept D s.service_type P → Keeps P s s'
  Happens-Keeps {s} (admin_message env is_logon session msg) k =
      from_admin-Keeps P env session is_logon msg s k.start
  Happens-Keeps {s} (app_message env symbology w session find_route msg_type msg v router) k =
      from_app-Keeps P env symbology w session msg find_route msg_type s v router k
  Happens-Keeps {s} (logout_of session) k = on_logout-Keeps P session s
  Happens-Keeps {s} (disconnect_of env dc session) k = on_disconnect-Keeps P env session dc s
  Happens-Keeps {s} (data_message env symbology session r d o) k =
      dispatch-Keeps P env symbology session r d s o k

  reachable-Keeps :
      {t : ServiceType} {s : Service F D}
      → IsReachable t s
      → IsKept D t P
      → (s.service_type ≡ t) × OfCaches P s
  unfolding new_service
  reachable-Keeps starts k = (refl, tt)
  reachable-Keeps (goes_on {s} r h) k =
      let (e, v) = reachable-Keeps r k in
      let w = Happens-Keeps h (subst (λ x. IsKept D x P) (sym e) k) in (w.0 ∙ e, w.1 v)

module _ {F : Type 0} ⦃fl : Floats F⦄ where
  -- What the cache of a session of a service of the type is like.
  abbrev pub IsSeparate : ServiceType → Cache F → Type 0
  IsSeparate market_data_service c = IsMdValid c × (c.orders ≡ [])
  IsSeparate order_routing_service c = (c.md_req_ids ≡ []) × (c.symbol_to_req_id ≡ [])

  module _ (D : Type 0) ⦃dc : Decimals F D⦄ where
    runs-IsKept : (t : ServiceType) → IsKept D t (Runs.IsReachable {F = F})
    runs-IsKept t = record {
      start = Runs.starts;
      evolves = λ e c c' h v. Evolves-IsReachable h v;
      requests = λ e env symbology session msg ranges p o h.
          market_data_request-Runs env symbology session msg ranges p o h;
    }

    IsSeparate-IsKept : (t : ServiceType) → IsKept D t (IsSeparate t)
    IsSeparate-IsKept market_data_service = record {
      start = (record { symbols = tt; one_symbol = tt; tracked = tt }, refl);
      evolves = λ e. cc e;
      requests = λ e env symbology session msg ranges p o h. (
        market_data_request-IsMdValid ranges env symbology session msg p o h.0,
        orders-market_data_request env symbology session msg ranges p o h.1,
      );
    }
    IsSeparate-IsKept order_routing_service = record {
      start = (refl, refl);
      evolves = λ e c c' h v. let w = Evolves-SameRequests v in (w.0 ∙ h.0, w.1 ∙ h.1);
      requests = λ e. cc e;
    }

module _ {F D : Type 0} ⦃fl : Floats F⦄ ⦃dc : Decimals F D⦄ where
  -- Whatever happens to a service, in any order, the cache of each of its sessions is valid: each
  -- order is filed under its own ClOrdID, no quantity of an order or an execution is negative, and
  -- no key is there twice.
  pub reachable_caches-IsValid :
      (t : ServiceType) (s : Service F D) → IsReachable t s → OfCaches IsValid s
  reachable_caches-IsValid t s r =
      Every-map (λ e. Runs.IsReachable e.1.cache) (λ e. IsValid e.1.cache) s.peers
        (λ e. Runs.reachable-IsValid) (reachable-Keeps Runs.IsReachable r (runs-IsKept D t)).1

  -- Whatever happens to a service, in any order, it keeps its type, and the two are apart: no
  -- session of a market data service has a cached order, and its subscriptions are valid, and no
  -- session of an order routing service has a market data request.
  pub reachable-IsSeparate :
      (t : ServiceType) (s : Service F D)
      → IsReachable t s
      → (s.service_type ≡ t) × OfCaches (IsSeparate t) s
  reachable-IsSeparate t s r = reachable-Keeps (IsSeparate t) r (IsSeparate-IsKept D t)

  -- In every market data service that can be reached, no session can end a subscription: a readable
  -- request for that unsubscribes from nothing and leaves the cache as it is.
  pub reachable_disable-IsQuiet :
      (s : Service F D) (p : Peer F D) (ranges : ℕ → Visits String) (env : Env F D)
      (symbology : Symbology) (session : SessionId) (msg : FieldMap D) (q : MdRequest)
      → IsReachable market_data_service s
      → AreOrders ranges
      → find_peer session.name s ≡ some p
      → read_md_request msg ≡ ok q
      → q.sub_type ≡ SubscriptionRequestType.disable_previous_snapshot_plus_update_request
      → IsQuiet p (market_data_request_for ranges env symbology session msg p).1
  reachable_disable-IsQuiet s p ranges env symbology session msg q r o hit e disable =
      let v = (reachable-IsSeparate market_data_service s r).1 in
      let here = found (IsSeparate market_data_service) session.name p s hit v in
      disable_never_unsubscribes ranges env symbology session msg q p o here.0 e disable
