-- ===== src/Gateway.antt =====
-- gateway.go: the two services of the gateway. quickfix's acceptor is a parameter, and so is
-- service.New, which fails only where quickfix does.
use bfxfixgw.Base.{Bool, true, false, String, Option, none, some, ◌==◌, if◌then◌else◌}
use bfxfixgw.Base.Maps.{Order as Visits}
use bfxfixgw.Service.{Service, ServiceType, market_data_service, order_routing_service, stop}
use bfxfixgw.World.{Peer, Answer, got, failed}

-- configDirectory; `dir` is the answer of os.Getenv
unfoldable pub config_directory : (dir : String) → String
config_directory dir = if dir == "" then "./config" else dir

pub record Gateway (F D : Type 0) : Type 0 where
  pub market_data : Option (Service F D)
  pub order_routing : Option (Service F D)

-- The end of New: the gateway, or the end of the process by Logger.Fatal.
pub data Created (F D : Type 0) : Type 0 where
  created : Gateway F D → Created F D
  fatal : String → Created F D

module _ {F D : Type 0} where
  -- service.New for settings that may be nil
  unfoldable pub new_if :
      {S : Type 0}
      → (new : S → ServiceType → Answer (Service F D)) → Option S
      → ServiceType
      → Answer (Option (Service F D))
  new_if new none t = got none
  new_if new (some settings) t = elim (new settings t) [
    | got s ↦ got (some s)
    | failed e ↦ failed e
  ]

  -- New
  unfoldable pub new_gateway :
      {S : Type 0}
      → (new : S → ServiceType → Answer (Service F D)) → (md_settings order_settings : Option S)
      → Created F D
  unfolding new_if
  new_gateway new md_settings order_settings = elim (new_if new md_settings market_data_service) [
    | failed e ↦ fatal e
    | got md ↦ elim (new_if new order_settings order_routing_service) [
      | failed e ↦ fatal e
      | got orders ↦ created (record { market_data = md; order_routing = orders })
    ]
  ]

  -- Service.Start of one that may be nil: `up` is what the acceptor does, with its error.
  unfoldable pub start_if :
      (up : Service F D → Option String × Service F D)
      → Option (Service F D)
      → Option String × Option (Service F D)
  start_if up none = (none, none)
  start_if up (some s) = let (error, s') = up s in (error, some s')

  -- Start
  unfoldable pub start :
      (up : Service F D → Option String × Service F D) → Gateway F D → Option String × Gateway F D
  unfolding start_if
  start up g =
      let (error, md) = start_if up g.market_data in
      let g1 : Gateway F D = record g { market_data = md } in
      elim error [
        | some e ↦ (some e, g1)
        | none ↦
            let (error', orders) = start_if up g.order_routing in
            (error', record g1 { order_routing = orders })
      ]

  -- Service.Stop of one that may be nil, and whether it returns
  unfoldable pub stop_if :
      (down : Service F D → Service F D)
      → (returns : String → Bool) → Visits (Peer F D)
      → Option (Service F D)
      → Bool × Option (Service F D)
  stop_if down returns r none = (true, none)
  stop_if down returns r (some s) = let (ends, s') = stop down returns r s in (ends, some s')

  -- Stop, and whether it returns: the order routing first
  unfoldable pub stop_gateway :
      (down : Service F D → Service F D)
      → (order_returns md_returns : String → Bool) → Visits (Peer F D)
      → Gateway F D
      → Bool × Gateway F D
  unfolding stop_if
  stop_gateway down order_returns md_returns r g =
      let (ends, orders) = stop_if down order_returns r g.order_routing in
      let g1 : Gateway F D = record g { order_routing = orders } in
      let (md_ends, md) = stop_if down md_returns r g.market_data in
      if ends then (md_ends, record g1 { market_data = md }) else (false, g1)
