-- ===== src/Service/Messages.antt =====
-- What the websocket of a peer hands to the loop of service/service.go.
use bfxfixgw.Base.{ℕ, String, List}
use bfxfixgw.Base.Maps.{Order as Visits}
use bfxfixgw.Convert.MarketData.{Trade, BookUpdate}
use bfxfixgw.Convert.Positions.{Wallet, Position}
use bfxfixgw.Convert.Reports.{Order, TradeExecutionUpdate}
use bfxfixgw.Fix.{SessionId}
use bfxfixgw.Outbound.Auth.{AuthEvent}
use bfxfixgw.Outbound.Notifications.{Notification}
use bfxfixgw.Outbound.Positions.{BalanceInfo}
use bfxfixgw.Peer.Cache.{CachedCancel, Ids}
use bfxfixgw.Peer.Order.{CachedOrder}

-- websocket.ErrorEvent
pub record ErrorEvent : Type 0 where
  pub sub_id : String
  pub channel : String
  pub message : String

-- The types of the `switch` in listen, in its order; the data of a message that it ignores is left
-- out. `unhandled` is any other type.
pub data Data (F : Type 0) : Type 0 where
  a_notification : Notification F → Data F
  an_order_new : Order F → Data F
  an_order_cancel : Order F → Data F
  an_order_update : Order F → Data F
  an_info_event : Data F
  an_auth_event : AuthEvent → Data F
  a_funding_info : Data F
  a_margin_info_update : Data F
  a_margin_info_base : Data F
  a_wallet_snapshot : List (Wallet F) → Data F
  a_wallet_update : Wallet F → Data F
  a_balance_info : BalanceInfo F → Data F
  a_balance_update : BalanceInfo F → Data F
  a_position_snapshot : List (Position F) → Data F
  a_position_update : Position F → Data F
  an_order_snapshot : List (Order F) → Data F
  a_subscribe_event : Data F
  a_book_snapshot : List (BookUpdate F) → Data F
  a_book_update : BookUpdate F → Data F
  a_trade_execution : Data F
  a_trade_execution_update : TradeExecutionUpdate F → Data F
  a_trade : Trade F → Data F
  a_trade_snapshot : List (Trade F) → Data F
  an_error_event : ErrorEvent → Data F
  an_error : String → Data F
  unhandled : Data F

-- The orders in which one handler ranges over the maps of a cache.
pub record Ranges (F : Type 0) : Type 0 where
  pub orders : Visits (CachedOrder F)
  pub executions : ℕ → Visits (CachedOrder F)
  pub cancels : Visits CachedCancel
  pub ids : Visits Ids

-- peer.Message: the data, and the session of its peer
pub record Message (F : Type 0) : Type 0 where
  pub data_of : Data F
  pub session : SessionId
  pub ranges : Ranges F
