-- ===== src/Service/Stopping.antt =====
-- What Stop of service/service.go closes, and when it returns.
use mathlib.Core.List.{Memᴰ}
use mathlib.Core.Path.{subst}
use mathlib.Core.List.Permᴰ as Perm
use bfxfixgw.Base.{
  String, Bool, true, false, not, ◌≡◌, refl, sym, some, List, [], ◌∷◌, Bool-cases, inl, inr, ◌⊎◌,
}
use bfxfixgw.Base.Maps.{Order as Visits, IsOrder, Every, Distinct, find_first}
use bfxfixgw.Base.Maps.Entries.{Every-lookup}
use bfxfixgw.Base.Maps.Orders.{Every-perm, found}
use bfxfixgw.Service.{Service, close_each, stop, find_peer}
use bfxfixgw.World.{Peer}

module _ {F D : Type 0} (returns : String → Bool) where
  -- What is closed stays closed.
  close_each-keeps :
      (l : List (String × Peer F D)) (closed : List String) (name : String)
      → Memᴰ name closed
      → Memᴰ name (close_each returns l closed).1
  unfolding close_each
  close_each-keeps [] closed name at = at
  close_each-keeps (e ∷ rest) closed name at = elim (Bool-cases (returns e.0)) [
    | inl ends ↦ rw (ends, close_each) (close_each-keeps rest (e.0 ∷ closed) name (Memᴰ.tail at))
    | inr waits ↦ rw (waits, close_each) at
  ]

  -- The loop ends, having closed all, or it waits for ever for a peer.
  abbrev Closes : List (String × Peer F D) → (ends : Bool) → (closed : List String) → Type 0
  Closes l ends closed =
      ((ends ≡ true) × Every (λ e. (returns e.0 ≡ true) × Memᴰ e.0 closed) l)
      ⊎ ((ends ≡ false)
          × (e : String × Peer F D) × (find_first (λ x. not (returns x.0)) l ≡ some e))

  close_each-Closes :
      (l : List (String × Peer F D)) (closed : List String)
      → Closes l (close_each returns l closed).0 (close_each returns l closed).1
  unfolding close_each find_first
  close_each-Closes [] closed = inl (refl, tt)
  close_each-Closes (e ∷ rest) closed = elim (Bool-cases (returns e.0)) [
    | inr waits ↦ rw (waits, close_each, find_first) (inr (refl, e, refl))
    | inl ends ↦
        let here = close_each-keeps rest (e.0 ∷ closed) e.0 (Memᴰ.head refl) in
        let same : close_each returns (e ∷ rest) closed ≡ close_each returns rest (e.0 ∷ closed) =
          rw (ends, close_each) refl in
        subst (λ x. Closes (e ∷ rest) x.0 x.1) (sym same)
          (elim (close_each-Closes rest (e.0 ∷ closed)) [
            | inl (all, each) ↦ inl (all, ((ends, here), each))
            | inr (not_all, x, hit) ↦ inr (not_all, x, rw (ends, find_first) hit)
          ])
  ]

  -- How Stop leaves a service that was `s` when the acceptor had stopped.
  abbrev pub IsStopped : (s : Service F D) → (ends : Bool) → (s' : Service F D) → Type 0
  IsStopped s ends s' =
      (s'.peers ≡ s.peers)
      × (((ends ≡ true)
            × (s'.inbound_closed ≡ true)
            × ((name : String) (p : Peer F D)
                → find_peer name s ≡ some p
                → (returns name ≡ true) × Memᴰ name s'.closed))
          ⊎ ((ends ≡ false)
              × (s'.inbound_closed ≡ s.inbound_closed)
              × (name : String) × (p : Peer F D) × (find_peer name s ≡ some p)
              × (returns name ≡ false)))

  -- Stop returns exactly if Close returns for the peer of every session that is left once the
  -- acceptor has stopped, in whatever order Go ranges over them. It has then closed all of these and
  -- the channel that the peers send to. Otherwise it waits for ever for one of them, and the channel
  -- stays open. It forgets no session.
  pub stop_closes_all :
      (down : Service F D → Service F D) (r : Visits (Peer F D)) (s : Service F D)
      → IsOrder r
      → Distinct (down s).peers
      → let (ends, s') = stop down returns r s in IsStopped (down s) ends s'
  unfolding stop find_peer
  stop_closes_all down r s o d =
      let s1 = down s in
      elim (close_each-Closes (r s1.peers) s1.closed) [
        | inl (all, each) ↦
            rw (all, stop)
              (
                refl,
                inl (
                  refl,
                  refl,
                  (λ name p hit.
                      Every-lookup
                        (λ e.
                          (returns e.0 ≡ true)
                          × Memᴰ e.0 (close_each returns (r s1.peers) s1.closed).1)
                        s1.peers name p
                        (Every-perm
                          (λ e.
                            (returns e.0 ≡ true)
                            × Memᴰ e.0 (close_each returns (r s1.peers) s1.closed).1)
                          s1.peers (r s1.peers) (Perm.symm (o s1.peers)) each)
                        hit),
                ),
              )
        | inr (not_all, (name, p), hit) ↦
            let (at, waits) = found (λ x. not (returns x.0)) s1.peers d r o name p hit in
            rw (not_all, stop) (refl, inr (refl, refl, name, p, at, not_true (returns name) waits))
      ]
    where
      not_true : (b : Bool) → not b ≡ true → b ≡ false
      not_true true h = absurd (cc h)
      not_true false h = refl
