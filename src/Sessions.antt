-- ===== src/Sessions.antt =====
-- The two services in any order of events: what the FIX clients and quickfix do to them, and what
-- Bitfinex sends. Each step runs to its end before the next one.
pub mod Keeps
pub mod Handlers
pub mod Requests
pub mod Others
pub mod Invariant
pub mod Isolation
use mathlib.Core.List.{Memᴰ}
use bfxfixgw.Base.{ℕ, String, Bool, ◌≡◌, List}
use bfxfixgw.Base.Floats.{Floats, Decimals}
use bfxfixgw.Base.Maps.{IsOrder}
use bfxfixgw.Application.{from_admin, on_disconnect, on_logout}
use bfxfixgw.Application.Requests.{Route, Surroundings, from_app}
use bfxfixgw.Fix.{FieldMap, SessionId, Result, ok}
use bfxfixgw.Inbound.MarketData.Properties.{AreOrders}
use bfxfixgw.Service.{Service, ServiceType, new_service}
use bfxfixgw.Service.Dispatch.{dispatch}
use bfxfixgw.Service.Messages.{Data, Ranges}
use bfxfixgw.Symbol.{Symbology}
use bfxfixgw.World.{Env}

-- The range loops of a handler visit every entry once.
pub record AreVisits {F : Type 0} (r : Ranges F) : Type 0 where
  pub orders : IsOrder r.orders
  pub executions : (i : ℕ) → IsOrder (r.executions i)
  pub cancels : IsOrder r.cancels
  pub ids : IsOrder r.ids

pub record AreVisited {F : Type 0} (w : Surroundings F) : Type 0 where
  pub md_ranges : AreOrders w.md_ranges
  pub orders : IsOrder w.orders

-- What quickfix's Route selects is one of the routes that it is given.
abbrev pub IsRouter : {D : Type 0} → (List Route → SessionId → FieldMap D → Result Route) → Type 0
IsRouter {D} find_route =
    (rs : List Route) (session : SessionId) (msg : FieldMap D) (route : Route)
    → find_route rs session msg ≡ ok route
    → Memᴰ route rs

-- What can happen to a service. What the outside answers may differ from step to step.
pub data Happens {F D : Type 0} ⦃fl : Floats F⦄ ⦃dc : Decimals F D⦄ (s : Service F D)
    : Service F D → Type 0 where
  admin_message :
      (env : Env F D) (is_logon : Bool) (session : SessionId) (msg : FieldMap D)
      → Happens s (from_admin env is_logon session msg s).1
  app_message :
      (env : Env F D) (symbology : Symbology) (w : Surroundings F) (session : SessionId)
      (find_route : List Route → SessionId → FieldMap D → Result Route) (msg_type : Result String)
      (msg : FieldMap D)
      → AreVisited w
      → IsRouter find_route
      → Happens s (from_app env symbology w session find_route msg_type msg s).1
  logout_of : (session : SessionId) → Happens s (on_logout session s)
  disconnect_of :
      (env : Env F D) (dc : Bool) (session : SessionId)
      → Happens s (on_disconnect env dc session s).1
  data_message :
      (env : Env F D) (symbology : Symbology) (session : SessionId) (r : Ranges F) (d : Data F)
      → AreVisits r
      → Happens s (dispatch env symbology session r d s).1

-- What a new service of the type can become.
pub data IsReachable {F D : Type 0} ⦃fl : Floats F⦄ ⦃dc : Decimals F D⦄ (t : ServiceType)
    : Service F D → Type 0 where
  starts : IsReachable t (new_service t)
  goes_on : {s s' : Service F D} → IsReachable t s → Happens s s' → IsReachable t s'
