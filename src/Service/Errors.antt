-- ===== src/Service/Errors.antt =====
-- Where the error events of Bitfinex go.
use mathlib.Core.Path.{subst}
use bfxfixgw.Base.{
  String, Bool, true, ◌≡◌, ◌≢◌, refl, none, some, Option-cases, Bool-cases, ◌∷◌, inl, inr, ◌==◌,
  ◌||◌, eq_iff, arith, ◌⊎◌, if◌then◌else◌,
}
use bfxfixgw.Base.Maps.{Order as Visits, IsOrder, lookup, find_first, Every, Distinct}
use bfxfixgw.Base.Maps.Entries.{Every-lookup}
use bfxfixgw.Base.Maps.Orders.{found, finds}
use bfxfixgw.Fix.{
  SessionId, GenericFix, text, get, get_in, market_data_request_reject, business_message_reject,
}
use bfxfixgw.Fix.BusinessRejectReason
use bfxfixgw.Fix.MdReqRejReason
use bfxfixgw.Fix.Tag
use bfxfixgw.Outbound.{of_error}
use bfxfixgw.Peer.Cache.{Ids, reverse_lookup_api_req_ids}
use bfxfixgw.Service.{Service, find_peer, business_reject_reason}
use bfxfixgw.Service.Dispatch.{
  handle_error_event, failed_request, subscription_reject, generic_reject, report,
}
use bfxfixgw.Service.Messages.{ErrorEvent}
use bfxfixgw.World.{Env, Peer, sent}

-- A market data request of the session that the websocket's subscription belongs to.
abbrev pub IsRequestOf : {F D : Type 0} → (id sub_id : String) → Peer F D → Type 0
IsRequestOf id sub_id p =
    (ids : Ids) × (lookup id p.cache.md_req_ids ≡ some ids)
    × ((ids.market_data_id ≡ sub_id) ⊎ (ids.trade_id ≡ sub_id))

module _ {F D : Type 0} where
  -- The error is about a subscription that the websocket of the session still has, of the market
  -- data request `id` of the session.
  abbrev pub IsAbout : Env F D → SessionId → ErrorEvent → Service F D → (id : String) → Type 0
  IsAbout env session e s id =
      (p : Peer F D) × (find_peer session.name s ≡ some p)
      × (e.sub_id ≢ "")
      × (env.has_subscription p.log e.sub_id ≡ true)
      × IsRequestOf id e.sub_id p

  -- What is sent for an error event: the reject of a market data request that it is about, or, if
  -- there is none, one that names the type of the last message.
  abbrev pub Answers : Env F D → SessionId → ErrorEvent → Service F D → GenericFix D → Type 0
  Answers env session e s m =
      (get Tag.text m ≡ some (text e.message))
      × (((id : String) × IsAbout env session e s id
            × (m.kind ≡ market_data_request_reject)
            × (get Tag.md_req_id m ≡ some (text id))
            × (get Tag.md_req_rej_reason m ≡ some (text MdReqRejReason.unknown_symbol)))
          ⊎ (¬ ((id : String) × IsAbout env session e s id)
              × (m.kind ≡ business_message_reject)
              × (get Tag.ref_msg_type m ≡ some (text s.last_msg_type))
              × (get Tag.business_reject_reason m
                  ≡ some (
                      text (
                        if e.message == "symbol: invalid"
                        then BusinessRejectReason.unknown_security
                        else BusinessRejectReason.other)))))

  reverse_lookup-IsRequestOf :
      (r : Visits Ids) (sub_id id : String) (p : Peer F D)
      → IsOrder r
      → Distinct p.cache.md_req_ids
      → reverse_lookup_api_req_ids r sub_id p.cache ≡ some id
      → IsRequestOf id sub_id p
  unfolding reverse_lookup_api_req_ids
  reverse_lookup-IsRequestOf r sub_id id p o d h =
      let test : String × Ids → Bool =
        λ e. e.1.market_data_id == sub_id || e.1.trade_id == sub_id in
      elim (Option-cases (find_first test (r p.cache.md_req_ids))) [
        | inl missing ↦ cc (rw missing at h)
        | inr ((k, ids), hit) ↦
            let (at, ok) = found test p.cache.md_req_ids d r o k ids hit in
            let key : some k ≡ some id = rw hit at h in
            let same : k ≡ id = cc key in
            (
              ids,
              subst (λ x. lookup x p.cache.md_req_ids ≡ some ids) same at,
              ground (arith, eq_iff ids.market_data_id sub_id, eq_iff ids.trade_id sub_id),
            )
      ]

  failed_request-IsAbout :
      (env : Env F D) (r : Visits Ids) (session : SessionId) (e : ErrorEvent) (s : Service F D)
      (id : String)
      → IsOrder r
      → Every (λ x. Distinct x.1.cache.md_req_ids) s.peers
      → failed_request env r session e s ≡ some id
      → IsAbout env session e s id
  unfolding failed_request find_peer
  failed_request-IsAbout env r session e s id o d h = elim (Bool-cases (e.sub_id == "")) [
    | inl empty ↦ cc (rw empty at h)
    | inr given ↦ elim (Option-cases (lookup session.name s.peers)) [
      | inl missing ↦ cc (rw (given, missing) at h)
      | inr (p, hit) ↦ elim (Bool-cases (env.has_subscription p.log e.sub_id)) [
        | inr unknown ↦ cc (rw (given, hit, unknown) at h)
        | inl known ↦ (
          p,
          hit,
          (λ same. cc (given, (eq_iff e.sub_id "").1 same)),
          known,
          reverse_lookup-IsRequestOf r e.sub_id id p o
              (Every-lookup (λ x. Distinct x.1.cache.md_req_ids) s.peers session.name p d hit)
              (rw (given, hit, known) at h),
        )
      ]
    ]
  ]

  failed_request-none :
      (env : Env F D) (r : Visits Ids) (session : SessionId) (e : ErrorEvent) (s : Service F D)
      → IsOrder r
      → Every (λ x. Distinct x.1.cache.md_req_ids) s.peers
      → failed_request env r session e s ≡ none
      → ¬ ((id : String) × IsAbout env session e s id)
  unfolding failed_request find_peer reverse_lookup_api_req_ids
  failed_request-none env r session e s o d h (id, (p, hit, given, known, (ids, at, its))) =
      let dp = Every-lookup (λ x. Distinct x.1.cache.md_req_ids) s.peers session.name p d hit in
      let test : String × Ids → Bool =
        λ x. x.1.market_data_id == e.sub_id || x.1.trade_id == e.sub_id in
      let passes : test (id, ids) ≡ true =
        ground (arith, its, eq_iff ids.market_data_id e.sub_id, eq_iff ids.trade_id e.sub_id) in
      let (x, finds_it) = finds test p.cache.md_req_ids dp r o id ids at passes in
      elim (Bool-cases (e.sub_id == "")) [
        | inl empty ↦ given ((eq_iff e.sub_id "").0 empty)
        | inr there ↦
            let none_found : some x.0 ≡ none = rw (there, hit, known, finds_it) at h in
            cc none_found
      ]

  -- An error event makes the loop send just one message, with the text of the error, and changes
  -- nothing else. If the error is about a subscription that the websocket still has, and that is one
  -- of a market data request of the session, the message is the reject of such a request, with the
  -- reason that the symbol is unknown. If not, it is a business reject that names the type of the
  -- last message of any session, with the reason that the security is unknown exactly for the text
  -- "symbol: invalid". It is so in every service whose caches have no request id twice.
  pub error_event-Answers :
      (env : Env F D) (r : Visits Ids) (session : SessionId) (e : ErrorEvent) (s : Service F D)
      → IsOrder r
      → Every (λ x. Distinct x.1.cache.md_req_ids) s.peers
      → (m : GenericFix D) × Answers env session e s m
        × (handle_error_event env r session e s
            ≡ (of_error (env.send s.log m), record s { log = sent m ∷ s.log }))
  unfolding handle_error_event report subscription_reject generic_reject get_in
      business_reject_reason
  error_event-Answers env r session e s o d =
      elim (Option-cases (failed_request env r session e s)) [
        | inl unknown ↦ (
          generic_reject s.last_msg_type e,
          (refl, inr (failed_request-none env r session e s o d unknown, refl, refl, refl)),
          rw (unknown, handle_error_event) refl,
        )
        | inr (id, known) ↦ (
          subscription_reject id e,
          (refl, inl (id, failed_request-IsAbout env r session e s id o d known, refl, refl, refl)),
          rw (known, handle_error_event) refl,
        )
      ]
