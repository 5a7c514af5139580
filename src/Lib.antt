-- ===== src/Lib.antt =====
-- A model of bfxfixgw, the gateway between FIX clients and the Bitfinex exchange.
--
-- A FIX client logs on to one of two endpoints, for orders or for market data. For each session the
-- gateway keeps a peer with a cache and a connection to Bitfinex; what the client sends becomes
-- requests to Bitfinex, and what Bitfinex answers becomes FIX messages.
--
-- Base, Fix: what the parts share. Go maps are association lists (Base/Maps), and code that ranges
--   over a map takes the order in which it visits the entries; floats and decimals are an interface
--   (Base/Floats); strings and strconv are written out for the calls that the program makes
--   (Base/Text); times are integers of nanoseconds with the wrap-around of int64 where the program
--   computes with them (Base/Time). Incoming FIX messages are a record of what quickfix answers, and
--   outgoing ones a list of the fields that have been set (Fix).
-- Peer: service/peer. Order, Cache and Nonce are execution and CachedOrder, cache.go, and nonce.go.
--   Cache/Invariant and Cache/Runs have what holds of every cache, Cache/Lookups what the lookups find,
--   and Cache/Evolves and Cache/Unidentified what the handlers of order messages do to one. Lifecycle is peer.go with the
--   goroutines around a peer, as a step relation, with the lock of the service: Lifecycle/Safety has
--   its invariant, and Lifecycle/Endings how a removal ends.
-- Symbol: service/symbol, with File for NewFileSymbology, ToBitfinex and FromBitfinex.
-- Store: service/fix/nostore.go.
-- Convert: package convert. ToFix is fix.go, FromFix websocket_order.go; Reports, OrderReports,
--   MarketData, Positions and Ticker are fix_msg.go, Fields and Rejects say what the reports
--   and the cancel rejects hold, and Finite which of their numbers have to be finite. Version1
--   is websocket.go.
-- World: one session as a handler sees it, with the answers of quickfix, of the websocket and of the
--   REST client as parameters that may depend on everything the session has done before, and a log of
--   what the handler asks for.
-- Inbound: service/fix/fix_msg.go, the handlers of FIX messages. Orders has the helpers, NewOrder is
--   OnFIXNewOrderSingle and MarketData OnFIXMarketDataRequest, with its loop in MarketData/Rounds;
--   RoundTrips, Expiry and Flags follow an order type, the expiry and the flags to Bitfinex and back.
--   Cancel is OnFIXOrderCancelRequest and CancelReplace OnFIXOrderCancelReplaceRequest;
--   Status is OnFIXOrderStatusRequest. Evolves says what the handlers do to the cache.
-- Outbound: service/websocket/fix_msg.go, the handlers of messages of Bitfinex. MarketData has those of
--   trades and books, Orders those of trade executions, order updates and order cancels, and
--   Notifications, Snapshots, Positions and Auth the others; Auth has logout of
--   service/fix/fix_msg.go as well. Evolves says what they do to the cache, and Survives when the
--   messages that they send can be built.
-- Service: service/service.go, with the map of peers. Messages has what the websockets hand on, and
--   Dispatch the loop over it; Listening, Overflow and Errors are about that loop and its error
--   events, and Stopping about Stop.
-- Application: service/fix/fix.go. Logons and Requests have the handling of a Logon and the routes to
--   the handlers of Inbound, with what those answer to a session without a peer.
-- Sessions: a service as a whole: what can happen to it, in any order, through Application and Service.
--   Keeps, Handlers and Requests say what each operation keeps, Invariant what holds in every reachable
--   service, and Others and Isolation that the sessions are apart.
-- Gateway: New, Start and Stop of gateway.go.
-- Tests: concrete values and runs.
--
-- No definition runs on fuel but the writing of decimal digits (Base/Text/Decimal), where 20 digits
-- are enough for every int64. In Sessions each handler runs from start to end before the next; that
-- the goroutines of a peer, of the loop and of the removal of a peer interleave is in Peer/Lifecycle,
-- for one peer and one service.
--
-- decimal.NewFromFloat panics on NaN and on the infinities. The functions that convert numbers which
-- the program has computed, those of execution reports, test for that (Convert/Reports), and so does
-- the one for tickers; the entries of market data, wallets, positions and the price and fee of an
-- execution are numbers that have just been decoded from JSON, which are finite, and are converted
-- without a test. Whether Close of a peer returns, which Stop waits for, is a parameter of Stop; when it
-- does is in Peer/Lifecycle. In RemovePeer it is taken to return.
--
-- Not modelled: quickfix and its sessions, the FIX message types and the clients of Bitfinex, which are
-- parameters; the lock of a cache (each of its methods holds it from start to end); logging; the flags,
-- the reading of configurations, the client factory and main of gateway.go; and the tools in
-- integration_test.
pub mod Base
pub mod Peer
pub mod Symbol
pub mod Store
pub mod Fix
pub mod Convert
pub mod World
pub mod Inbound
pub mod Outbound
pub mod Service
pub mod Application
pub mod Sessions
pub mod Gateway
mod Tests
