-- ===== src/Inbound/NewOrder/Submits.antt =====
-- OnFIXNewOrderSingle changes nothing on a message it refuses, and submits every other one once.
use mathlib.Core.Path.{subst}
use bfxfixgw.Base.{
  String, ◌≡◌, refl, sym, Option, none, some, ◌∷◌, ◌==◌, inl, inr, ◌⊎◌, Option-cases, if◌then◌else◌,
}
use bfxfixgw.Base.Floats.{Floats, Decimals, magnitude}
use bfxfixgw.Base.Int.{ℤ}
use bfxfixgw.Base.Maps.{lookup, lookup-assign}
use bfxfixgw.Base.Text.{contains}
use bfxfixgw.Base.Time.{TimeLayout}
use bfxfixgw.Convert.OrderReports.{fix_execution_report_from_order}
use bfxfixgw.Fix.{Reject, FieldMap, SessionId, ok, err, Result-cases, GenericFix}
use bfxfixgw.Fix.ExecType
use bfxfixgw.Fix.OrdStatus
use bfxfixgw.Inbound.NewOrder.{
  NewOrder, cache_new_order, read_new_order, submit_new_order, new_order_for,
}
use bfxfixgw.Inbound.Orders.{gen_flags, gen_mts_tif, request_to_order}
use bfxfixgw.Peer.Cache.{add_order}
use bfxfixgw.Peer.Order.{new_order}
use bfxfixgw.Symbol.{Symbology}
use bfxfixgw.World.{
  Env, Peer, Outcome, done, rejected, panicked, note, submitted, sent, reject_of, send_to_target,
}

module _ {F D : Type 0} ⦃fl : Floats F⦄ ⦃dc : Decimals F D⦄ (env : Env F D) (layout : TimeLayout)
    (symbology : Symbology) (session : SessionId) (msg : FieldMap D) (p : Peer F D) where
  -- The report that tells of the error `e`.
  abbrev rejection : NewOrder F → ℤ → String → Option (GenericFix D)
  rejection n mts e =
      fix_execution_report_from_order session.begin_string (env.new_uuid (submitted n.bo ∷ p.log))
        (request_to_order n.bo mts) p.bfx_user_id ExecType.rejected fl.zero OrdStatus.rejected e
        symbology session.target_comp_id (gen_flags n.bo.hidden n.bo.post_only) n.bo.price_aux_limit
        n.bo.price_trailing

  -- The order is submitted. No report is sent unless that fails, and then the one that tells of it
  -- if it can be built.
  abbrev pub Tells : NewOrder F → ℤ → Outcome → Peer F D → Type 0
  Tells n mts out p' =
      ((env.submit_order p.log n.bo ≡ none) × (out ≡ done) × (p'.log ≡ submitted n.bo ∷ p.log))
      ⊎ ((e : String) × (env.submit_order p.log n.bo ≡ some e)
          × (((rejection n mts e ≡ none) × (out ≡ panicked) × (p'.log ≡ submitted n.bo ∷ p.log))
              ⊎ ((m : GenericFix D) × (rejection n mts e ≡ some m)
                  × (out ≡ reject_of (env.send (submitted n.bo ∷ p.log) m))
                  × (p'.log ≡ sent m ∷ submitted n.bo ∷ p.log))))

  -- How the handler leaves the session, `out` and `p'`, after it has read an order `n` whose expiry
  -- is `mts`.
  pub record Submits (n : NewOrder F) (mts : ℤ) (out : Outcome) (p' : Peer F D) : Type 0 where
    -- the order is cached under its ClOrdID, unsigned, with no order id and no execution, and every
    -- other order is left alone
    pub cached :
        (k : String)
        → lookup k p'.cache.orders ≡ (
            if n.clordid == k
            then some (
                new_order n.clordid n.bo.price n.bo.price_aux_limit n.bo.price_trailing
                  (magnitude n.bo.amount)
                  n.bo.symbol
                  p.bfx_user_id
                  n.side
                  n.ordtype
                  (contains n.bo.type "MARGIN")
                  n.tif
                  mts
                  (gen_flags n.bo.hidden n.bo.post_only))
            else lookup k p.cache.orders)
    pub tells : Tells n mts out p'

  abbrev submission : NewOrder F → ℤ → Outcome × Peer F D
  submission n mts = submit_new_order env symbology session n (request_to_order n.bo mts) p

  cache-submission :
      (n : NewOrder F) (mts : ℤ)
      → (submission n mts).1.cache
        ≡ cache_new_order n (request_to_order n.bo mts) p.bfx_user_id p.cache
  unfolding submit_new_order send_to_target request_to_order
  cache-submission n mts = elim (Option-cases (env.submit_order p.log n.bo)) [
    | inl accepted ↦ rw (accepted, submit_new_order) refl
    | inr (e, refused) ↦ elim (Option-cases (rejection n mts e)) [
      | inl unbuilt ↦ rw (refused, submit_new_order) (rw (unbuilt, send_to_target) refl)
      | inr (m, built) ↦ rw (refused, submit_new_order) (rw (built, send_to_target) refl)
    ]
  ]

  abbrev after : NewOrder F → ℤ → Peer F D
  after n mts =
      note (submitted n.bo)
        (record p { cache = cache_new_order n (request_to_order n.bo mts) p.bfx_user_id p.cache })

  report_sent :
      (n : NewOrder F) (mts : ℤ) (e : String)
      → let (out, p') = send_to_target env (rejection n mts e) (after n mts) in
        ((rejection n mts e ≡ none) × (out ≡ panicked) × (p'.log ≡ submitted n.bo ∷ p.log))
        ⊎ ((m : GenericFix D) × (rejection n mts e ≡ some m)
            × (out ≡ reject_of (env.send (submitted n.bo ∷ p.log) m))
            × (p'.log ≡ sent m ∷ submitted n.bo ∷ p.log))
  unfolding send_to_target
  report_sent n mts e = elim (Option-cases (rejection n mts e)) [
    | inl unbuilt ↦ inl (unbuilt, rw unbuilt refl, rw unbuilt refl)
    | inr (m, built) ↦ inr (m, built, rw built refl, rw built refl)
  ]

  submission-Tells :
      (n : NewOrder F) (mts : ℤ) → Tells n mts (submission n mts).0 (submission n mts).1
  unfolding submit_new_order gen_flags request_to_order
  submission-Tells n mts = elim (Option-cases (env.submit_order p.log n.bo)) [
    | inl accepted ↦
        let same : submission n mts ≡ (done, after n mts) = rw (accepted, submit_new_order) refl in
        subst (λ x. Tells n mts x.0 x.1) (sym same) (inl (accepted, refl, refl))
    | inr (e, refused) ↦
        let same : submission n mts ≡ send_to_target env (rejection n mts e) (after n mts) =
          rw (refused, submit_new_order) refl in
        subst (λ x. Tells n mts x.0 x.1) (sym same) (inr (e, refused, report_sent n mts e))
  ]

  submission-Submits :
      (n : NewOrder F) (mts : ℤ) → Submits n mts (submission n mts).0 (submission n mts).1
  unfolding cache_new_order add_order request_to_order
  submission-Submits n mts = record {
    cached = λ k. rw cache-submission (rw lookup-assign refl);
    tells = submission-Tells n mts;
  }

  -- If the message cannot be read, it is refused with the first error, nothing is submitted and
  -- nothing changes; if its expiry cannot be read again, the handler panics and nothing changes.
  -- Otherwise the order is cached and submitted once, and no other order in the cache is touched.
  pub new_order-Submits :
      let (out, p') = new_order_for env layout symbology session msg p in
      ((r : Reject) × (read_new_order {F = F} layout symbology session msg ≡ err r)
        × (out ≡ rejected r)
        × (p' ≡ p))
      ⊎ ((n : NewOrder F) × (read_new_order {F = F} layout symbology session msg ≡ ok n)
          × (((gen_mts_tif layout n.bo.time_in_force ≡ none) × (out ≡ panicked) × (p' ≡ p))
              ⊎ ((mts : ℤ) × (gen_mts_tif layout n.bo.time_in_force ≡ some mts)
                  × Submits n mts out p')))
  unfolding new_order_for
  new_order-Submits = elim (Result-cases (read_new_order {F = F} layout symbology session msg)) [
    | inl (r, e) ↦ inl (r, e, rw (e, new_order_for) refl, rw (e, new_order_for) refl)
    | inr (n, e) ↦ elim (Option-cases (gen_mts_tif layout n.bo.time_in_force)) [
      | inl bad ↦ inr (
        n,
        e,
        inl (bad, rw (e, new_order_for) (rw bad refl), rw (e, new_order_for) (rw bad refl)),
      )
      | inr (mts, good) ↦
          let same : new_order_for env layout symbology session msg p ≡ submission n mts =
            rw (e, new_order_for) (rw good refl) in
          inr (
            n,
            e,
            inr (
              mts,
              good,
              subst (λ x. Submits n mts x.0 x.1) (sym same) (submission-Submits n mts),
            ),
          )
    ]
  ]
