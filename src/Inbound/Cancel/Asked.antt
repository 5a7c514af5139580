-- ===== src/Inbound/Cancel/Asked.antt =====
-- What OnFIXOrderCancelRequest asks of Bitfinex.
use bfxfixgw.Base.{
  String, ◌≡◌, refl, true, false, Bool-cases, Option, none, some, List, [], ◌∷◌, ◌++◌, inl, inr,
  ◌⊎◌, Option-cases,
}
use bfxfixgw.Base.Int.{ℤ, pos}
use bfxfixgw.Base.Text.Decimal.{parse_int}
use bfxfixgw.Base.Time.{Time}
use bfxfixgw.Fix.{FieldMap, SessionId, Reject, ok, err, Result-cases, GenericFix}
use bfxfixgw.Fix.Tag
use bfxfixgw.Peer.Cache.{Cache}
use bfxfixgw.Inbound.Cancel.{
  CancelFields, Target, unreadable_id, no_order, target, read_cancel, target_of, target_by_order_id,
  target_by_cl_ord_id, send_cancel_reject, cancel_target, order_cancel_for,
}
use bfxfixgw.World.{Env, Peer, Event, canceled, rejected, OrderCancelRequest, note, send_to_target}

abbrev requested : Target → List OrderCancelRequest
requested (target id oc) = oc ∷ []
requested _ = []

-- The requests for Bitfinex that a cancel message calls for: by the order id of the server if the
-- message has one, else by the client's id of the order and the date of the message. An id that is
-- no number names no order.
pub data CallsFor {D : Type 0} (format_date : Time → String) (msg : FieldMap D) (q : CancelFields)
    : List OrderCancelRequest → Type 0 where
  by_order_id :
      (id : String) (n : ℤ)
      → msg.has Tag.order_id ≡ true
      → msg.get_string Tag.order_id ≡ ok id
      → parse_int id ≡ some n
      → CallsFor format_date msg q (record { id = n; cid = pos 0; cid_date = "" } ∷ [])
  no_order_id :
      (id : String)
      → msg.has Tag.order_id ≡ true
      → msg.get_string Tag.order_id ≡ ok id
      → parse_int id ≡ none
      → CallsFor format_date msg q []
  unreadable :
      (r : Reject)
      → msg.has Tag.order_id ≡ true
      → msg.get_string Tag.order_id ≡ err r
      → CallsFor format_date msg q []
  by_cl_ord_id :
      (n : ℤ)
      → msg.has Tag.order_id ≡ false
      → parse_int q.ocid ≡ some n
      → CallsFor format_date msg q
          (record { id = pos 0; cid = n; cid_date = format_date q.txn_time } ∷ [])
  no_cl_ord_id :
      msg.has Tag.order_id ≡ false → parse_int q.ocid ≡ none → CallsFor format_date msg q []

module _ {F D : Type 0} (format_date : Time → String) (msg : FieldMap D) (q : CancelFields)
    (c : Cache F) where
  target_of-CallsFor : CallsFor format_date msg q (requested (target_of format_date msg q c))
  unfolding target_of target_by_order_id target_by_cl_ord_id
  target_of-CallsFor = elim (Bool-cases (msg.has Tag.order_id)) [
    | inl given ↦ elim (Result-cases (msg.get_string Tag.order_id)) [
      | inl (r, e) ↦ rw (given, target_of) (rw (e, target_by_order_id) (unreadable r given e))
      | inr (id, e) ↦ elim (Option-cases (parse_int id)) [
        | inl bad ↦
            rw (given, target_of) (rw (e, target_by_order_id, bad) (no_order_id id given e bad))
        | inr (n, good) ↦
            rw (given, target_of) (rw (e, target_by_order_id, good) (by_order_id id n given e good))
      ]
    ]
    | inr absent ↦ elim (Option-cases (parse_int q.ocid)) [
      | inl bad ↦ rw (absent, target_of) (rw (bad, target_by_cl_ord_id) (no_cl_ord_id absent bad))
      | inr (n, good) ↦
          rw (absent, target_of) (rw (good, target_by_cl_ord_id) (by_cl_ord_id n absent good))
    ]
  ]

module _ {F D : Type 0} where
  -- The orders that a log asks to cancel, the latest in front.
  abbrev pub asked_to_cancel : List (Event F D) → List OrderCancelRequest
  asked_to_cancel [] = []
  asked_to_cancel (canceled oc ∷ l) = oc ∷ asked_to_cancel l
  asked_to_cancel (e ∷ l) = asked_to_cancel l

  -- The cache is as before, and these requests are new.
  abbrev pub HasAsked : List OrderCancelRequest → (p p' : Peer F D) → Type 0
  HasAsked l p p' = (p'.cache ≡ p.cache) × (asked_to_cancel p'.log ≡ l ++ asked_to_cancel p.log)

  send-HasAsked :
      (env : Env F D) (m : Option (GenericFix D)) (p : Peer F D)
      → HasAsked [] p (send_to_target env m p).1
  unfolding send_to_target
  send-HasAsked env none p = (refl, refl)
  send-HasAsked env (some m) p = (refl, refl)

  cancel_target-HasAsked :
      (env : Env F D) (session : SessionId) (q : CancelFields) (t : Target) (p : Peer F D)
      → HasAsked (requested t) p (cancel_target env session q t p).1
  unfolding cancel_target send_cancel_reject
  cancel_target-HasAsked env session q (unreadable_id r) p = (refl, refl)
  cancel_target-HasAsked env session q (no_order id) p = send-HasAsked env _ p
  cancel_target-HasAsked env session q (target id oc) p =
      elim (Option-cases (env.send_cancel p.log oc)) [
        | inl accepted ↦ rw (accepted, cancel_target) (refl, refl)
        | inr (e, failed) ↦ rw (failed, cancel_target) (send-HasAsked env _ (note (canceled oc) p))
      ]

  -- A cancel request without its required fields is refused and nothing happens. Any other asks
  -- Bitfinex to cancel just the order that `CallsFor` lists, once, or nothing if its ids name none:
  -- by the order id that it has, or else by the client's id and the date of the request. It leaves
  -- the cache of the session as it is.
  pub order_cancel-HasAsked :
      (format_date : Time → String) (env : Env F D) (session : SessionId) (msg : FieldMap D)
      (p : Peer F D)
      → let (out, p') = order_cancel_for format_date env session msg p in
        ((r : Reject) × (read_cancel msg ≡ err r) × (out ≡ rejected r) × (p' ≡ p))
        ⊎ ((q : CancelFields) × (l : List OrderCancelRequest) × (read_cancel msg ≡ ok q)
            × CallsFor format_date msg q l
            × HasAsked l p p')
  unfolding order_cancel_for
  order_cancel-HasAsked format_date env session msg p = elim (Result-cases (read_cancel msg)) [
    | inl (r, e) ↦ inl (r, e, rw (e, order_cancel_for) refl, rw (e, order_cancel_for) refl)
    | inr (q, e) ↦ inr (
      q,
      requested (target_of format_date msg q p.cache),
      e,
      target_of-CallsFor format_date msg q p.cache,
      rw (e, order_cancel_for)
          (cancel_target-HasAsked env session q (target_of format_date msg q p.cache) p),
    )
  ]
