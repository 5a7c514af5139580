-- ===== src/Sessions/Requests.antt =====
-- The FIX application of a service keeps what the handlers of its type keep of a cache.
use mathlib.Core.Path.{subst}
use mathlib.Core.List.{Memᴰ}
use bfxfixgw.Base.{
  String, Bool, true, false, ◌≡◌, refl, sym, Option-cases, Bool-cases, List, [], ◌∷◌, inl, inr,
}
use bfxfixgw.Base.Floats.{Floats, Decimals}
use bfxfixgw.Base.Maps.{lookup}
use bfxfixgw.Base.Maps.Entries.{Every-assign, Every-delete}
use bfxfixgw.Application.{
  from_admin, read_logon, returned, credentials, connect_peer, on_disconnect, on_logout, logon,
  logout_session, Credentials, Logon, bool_or_false,
}
use bfxfixgw.Application.Requests.{
  Request, new_order_single, order_cancel_replace_request, order_cancel_request,
  order_status_request, market_data_request, Route, routes, Surroundings, handle_request, from_app,
}
use bfxfixgw.Fix.{FieldMap, SessionId, Result, Result-cases}
use bfxfixgw.Fix.Tag
use bfxfixgw.Inbound.Evolves.{
  cache-order_cancel_for, Evolves-order_status_for, Evolves-new_order_for,
  Evolves-order_cancel_replace_for,
}
use bfxfixgw.Outbound.{Handled-cases}
use bfxfixgw.Outbound.Positions.{}
use bfxfixgw.Peer.Cache.{Cache, new_cache}
use bfxfixgw.Service.{
  Service, ServiceType, market_data_service, order_routing_service, add_peer, find_peer, put_peer,
  remove_peer, new_peer,
}
use bfxfixgw.Service.Dispatch.{}
use bfxfixgw.Service.Messages.{}
use bfxfixgw.Symbol.{Symbology}
use bfxfixgw.World.{Env}
use bfxfixgw.Sessions.{AreVisited, IsRouter}
use bfxfixgw.Sessions.Keeps.{IsKept, Keeps, put_peer-Keeps, found, with_peer-Keeps}

-- The type of service whose messages the request is among.
abbrev pub Suits : ServiceType → Request → Type 0
Suits t market_data_request = t ≡ market_data_service
Suits t _ = t ≡ order_routing_service

abbrev AllSuit : ServiceType → List Route → Type 0
AllSuit t [] = Unit
AllSuit t (r ∷ rs) = Suits t r.request × AllSuit t rs

member-Suits :
    (t : ServiceType) (route : Route) (rs : List Route)
    → AllSuit t rs
    → Memᴰ route rs
    → Suits t route.request
member-Suits t route [] a m = elim m [ ]
member-Suits t route (r ∷ rs) a (Memᴰ.head e) = subst (λ x. Suits t x.request) (sym e) a.0
member-Suits t route (r ∷ rs) a (Memᴰ.tail m) = member-Suits t route rs a.1 m

routes-AllSuit : (t : ServiceType) → AllSuit t (routes t)
unfolding routes
routes-AllSuit market_data_service = (refl, (refl, (refl, tt)))
routes-AllSuit order_routing_service = (
  refl,
  (refl, (refl, (refl, (refl, (refl, (refl, (refl, (refl, (refl, (refl, (refl, tt))))))))))),
)

pub routes-Suits : (t : ServiceType) (route : Route) → Memᴰ route (routes t) → Suits t route.request
routes-Suits t route = member-Suits t route (routes t) (routes-AllSuit t)

module _ {F D : Type 0} ⦃fl : Floats F⦄ ⦃dc : Decimals F D⦄ (P : Cache F → Type 0) where
  -- The routes of a service: a request that one of them takes is of the type of the service.
  module _ (env : Env F D) (symbology : Symbology) (w : Surroundings F) (session : SessionId)
      (msg : FieldMap D) where
    handle_request-Keeps :
        (q : Request) (s : Service F D)
        → AreVisited w
        → IsKept D s.service_type P
        → Suits s.service_type q
        → Keeps P s (handle_request env symbology w session q msg s).1
    unfolding handle_request
    handle_request-Keeps new_order_single s v k t = with_peer-Keeps P session _ _ s (λ p h.
        k.evolves t p.cache _ h (Evolves-new_order_for env symbology session msg w.layout p))
    handle_request-Keeps order_cancel_replace_request s v k t =
        with_peer-Keeps P session _ _ s (λ p h.
          k.evolves t p.cache _ h
            (Evolves-order_cancel_replace_for env symbology session msg w.layout p))
    handle_request-Keeps order_cancel_request s v k t =
        with_peer-Keeps P session _ _ s
          (λ p. subst P (sym (cache-order_cancel_for w.format_date env session msg p)))
    handle_request-Keeps order_status_request s v k t = with_peer-Keeps P session _ _ s (λ p h.
        k.evolves t p.cache _ h
          (Evolves-order_status_for env symbology session msg w.orders w.parse_error p))
    handle_request-Keeps market_data_request s v k t =
        with_peer-Keeps P session _ _ s
          (λ p h. k.requests t env symbology session msg w.md_ranges p v.md_ranges h)

    pub from_app-Keeps :
        (find_route : List Route → SessionId → FieldMap D → Result Route) (msg_type : Result String)
        (s : Service F D)
        → AreVisited w
        → IsRouter find_route
        → IsKept D s.service_type P
        → Keeps P s (from_app env symbology w session find_route msg_type msg s).1
    unfolding from_app
    from_app-Keeps find_route msg_type s v router k =
        elim (Result-cases (find_route (routes s.service_type) session msg)) [
          | inl (r, e) ↦ rw (e, from_app) (refl, λ x. x)
          | inr (route, e) ↦
              rw (e, from_app)
                (handle_request-Keeps route.request _ v k
                  (routes-Suits s.service_type route (router _ session msg route e)))
        ]

  module _ (env : Env F D) (session : SessionId) where
    connect_peer-Keeps :
        (msg : FieldMap D) (c : Credentials) (s : Service F D)
        → Keeps P s (connect_peer env session msg c s).1
    unfolding connect_peer logout_session logon
    connect_peer-Keeps msg c s = elim (Option-cases (find_peer session.name s)) [
      | inl missing ↦ rw (missing, connect_peer) (refl, λ x. x)
      | inr (p, hit) ↦
          let p' = (logon env c (bool_or_false (msg.get_bool Tag.cancel_on_disconnect)) p).1 in
          let s1 = put_peer session.name p' s in
          let w : Keeps P s s1 =
            put_peer-Keeps P session.name p' s (found P session.name p s hit) in
          elim (Option-cases
            (logon env c (bool_or_false (msg.get_bool Tag.cancel_on_disconnect)) p).0) [
              | inl fine ↦ rw (hit, fine, connect_peer) w
              | inr (e, error) ↦ elim (Handled-cases (logout_session env session e s1).0) [
                | inl sends ↦ rw (hit, error, sends, connect_peer) w
                | inr (inl (e2, fails)) ↦ rw (hit, error, fails, connect_peer) w
                | inr (inr crashes) ↦ rw (hit, error, crashes, connect_peer) w
              ]
            ]
    ]

    pub from_admin-Keeps :
        (is_logon : Bool) (msg : FieldMap D) (s : Service F D)
        → P new_cache
        → Keeps P s (from_admin env is_logon session msg s).1
    unfolding from_admin add_peer
    from_admin-Keeps false msg s k = (refl, λ x. x)
    from_admin-Keeps true msg s k = go (read_logon msg) refl
      where
        added : Keeps P s (add_peer session s)
        added = (refl, λ e. Every-assign (λ x. P x.1.cache) session.name new_peer s.peers e k)

        go : (x : Logon) → read_logon msg ≡ x → Keeps P s (from_admin env true session msg s).1
        go (returned out) e = rw (e, from_admin) added
        go (credentials c) e =
            let w = connect_peer-Keeps msg c (add_peer session s) in
            rw (e, from_admin) (w.0, λ x. w.1 (added.1 x))

    pub on_disconnect-Keeps :
        (dc : Bool) (s : Service F D) → Keeps P s (on_disconnect env dc session s).1
    unfolding on_disconnect logout_session
    on_disconnect-Keeps dc s = elim (Option-cases (find_peer session.name s)) [
      | inl missing ↦ rw (missing, on_disconnect) (refl, λ x. x)
      | inr (p, hit) ↦ elim (Bool-cases dc) [
        | inr closed ↦ rw (hit, closed, on_disconnect) (refl, λ x. x)
        | inl lost ↦ elim (Handled-cases (logout_session env session "downstream disconnect" s).0) [
          | inl sends ↦ rw (hit, lost, sends, on_disconnect) (refl, λ x. x)
          | inr (inl (e2, fails)) ↦ rw (hit, lost, fails, on_disconnect) (refl, λ x. x)
          | inr (inr crashes) ↦ rw (hit, lost, crashes, on_disconnect) (refl, λ x. x)
        ]
      ]
    ]

  pub on_logout-Keeps : (session : SessionId) (s : Service F D) → Keeps P s (on_logout session s)
  unfolding on_logout remove_peer
  on_logout-Keeps session s = elim (Option-cases (lookup session.name s.peers)) [
    | inl missing ↦ rw (missing, on_logout, remove_peer) (refl, λ x. x)
    | inr (p, hit) ↦
        rw (hit, on_logout, remove_peer)
          (refl, Every-delete (λ x. P x.1.cache) session.name s.peers)
  ]
