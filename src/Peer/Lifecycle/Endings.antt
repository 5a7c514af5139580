-- ===== src/Peer/Lifecycle/Endings.antt =====
-- How the removal of a peer ends: with the end of its listener, not at all, or with a crash.
use mathlib.Core.Path.{subst}
use bfxfixgw.Base.{◌≡◌, ◌↔◌, refl, sym, ap, ◌∙◌, ◌⊎◌, inl, inr, true, false, arith}
use bfxfixgw.Peer.Lifecycle.{
  State, Listener, Server, not_started, started_go, selecting, delivering, signalling, ended,
  crashed, outside, closing, awaiting_exit, closed_after_exit, closed_at_once, notified, idle,
  handling, Step, logs_on, starts, takes, delivers, leaves, signals, crashes, removes, closes_ws,
  closes_at_once, closes_after_exit, sees_close, finds, handles, IsReachable, Leads, here, onward,
}
use bfxfixgw.Peer.Lifecycle.Safety.{IsSafe, reachable-IsSafe}

-- No goroutine can do anything.
abbrev pub IsStuck : State → Type 0
IsStuck s = (t : State) → Step s t → ⊥

-- The peer's listener has a message for the loop of the service, which is in a handler that wants
-- the lock.
abbrev pub IsCrossed : State → Type 0
IsCrossed s = (s.listener ≡ delivering) × (s.server ≡ handling)

crossed-IsStuck : (s : State) → IsSafe s → s.remover ≡ awaiting_exit → IsCrossed s → IsStuck s
crossed-IsStuck s v w c t (logs_on a b e) = ground arith
crossed-IsStuck s v w c t (starts a e) = ground arith
crossed-IsStuck s v w c t (takes a e) = ground arith
crossed-IsStuck s v w c t (delivers a b e) = ground arith
crossed-IsStuck s v w c t (leaves a e) = ground arith
crossed-IsStuck s v w c t (signals a b d e) = ground arith
crossed-IsStuck s v w c t (crashes a b e) = ground arith
crossed-IsStuck s v w c t (removes a b e) = ground arith
crossed-IsStuck s v w c t (closes_ws a b e) = ground arith
crossed-IsStuck s v w c t (closes_at_once a b e) = ground arith
crossed-IsStuck s v w c t (closes_after_exit a b e) = ground arith
crossed-IsStuck s v w c t (sees_close a b e) = ground arith
crossed-IsStuck s v w c t (finds a b e) = ground arith
crossed-IsStuck s v w c t (handles a b e) = ground arith

-- The removal has ended, and so has the listener.
abbrev pub HasEnded : State → Type 0
HasEnded t = (t.remover ≡ closed_after_exit) × (t.listener ≡ ended) × (t.locked ≡ false)

abbrev pub CanEnd : State → Type 0
CanEnd s = (t : State) × Leads s t × HasEnded t

CanEnd-Step : (s t : State) → Step s t → CanEnd t → CanEnd s
CanEnd-Step s t st (u, l, h) = (u, before l, h)
  where
    before : {x : State} → Leads t x → Leads s x
    before here = onward here st
    before (onward l' st') = onward (before l') st'

ended-CanEnd : (s : State) → s.remover ≡ awaiting_exit → s.listener ≡ ended → CanEnd s
ended-CanEnd s w l =
    let t = record s { remover = closed_after_exit; disconnect_closed = true; locked = false } in
    (t, onward here (closes_after_exit w l refl), (refl, l, refl))

signalling-CanEnd :
    (s : State) → IsSafe s → s.remover ≡ awaiting_exit → s.listener ≡ signalling → CanEnd s
signalling-CanEnd s v w l =
    let t = record s { listener = ended; watcher = notified } in
    CanEnd-Step s t (signals l (ground arith) (ground arith) refl) (ended-CanEnd t w refl)

selecting-CanEnd :
    (s : State) → IsSafe s → s.remover ≡ awaiting_exit → s.listener ≡ selecting → CanEnd s
selecting-CanEnd s v w l =
    let t = record s { listener = signalling } in
    CanEnd-Step s t (leaves l refl) (signalling-CanEnd t (ground arith) w refl)

delivering-CanEnd :
    (s : State)
    → IsSafe s
    → s.remover ≡ awaiting_exit
    → s.listener ≡ delivering
    → s.server ≡ idle
    → CanEnd s
delivering-CanEnd s v w l i =
    let t = record s { listener = selecting; server = handling } in
    CanEnd-Step s t (delivers l i refl) (selecting-CanEnd t (ground arith) w refl)

Server-cases : (x : Server) → (x ≡ idle) ⊎ (x ≡ handling)
Server-cases idle = inl refl
Server-cases handling = inr refl

waiting_cases :
    (s : State) (l : Listener)
    → s.listener ≡ l
    → IsSafe s
    → s.remover ≡ awaiting_exit
    → CanEnd s ⊎ IsCrossed s
waiting_cases s not_started e v w = ground arith
waiting_cases s started_go e v w = ground arith
waiting_cases s selecting e v w = inl (selecting-CanEnd s v w e)
waiting_cases s delivering e v w = elim (Server-cases s.server) [
  | inl free ↦ inl (delivering-CanEnd s v w e free)
  | inr busy ↦ inr (e, busy)
]
waiting_cases s signalling e v w = inl (signalling-CanEnd s v w e)
waiting_cases s ended e v w = inl (ended-CanEnd s w e)
waiting_cases s crashed e v w = ground arith

stuck-Leads : {s t : State} → IsStuck s → Leads s t → s ≡ t
stuck-Leads stuck here = refl
stuck-Leads {s} stuck (onward {t} {u} l st) =
    absurd (stuck u (subst (λ x. Step x u) (sym (stuck-Leads stuck l)) st))

not_both : (s : State) → s.remover ≡ awaiting_exit → CanEnd s → IsStuck s → IsCrossed s
not_both s w (t, l, h) stuck =
    let e = stuck-Leads stuck l in
    let at_end : s.remover ≡ closed_after_exit = ap (λ x. x.remover) e ∙ h.0 in
    absurd (cc (w, at_end))

-- While RemovePeer waits for the listener of a peer that has been started, either it can still end,
-- with the listener ended, or nothing can ever happen again; and the latter is so exactly if the
-- listener has a message for the service's loop, and the loop is in a handler before FindPeer.
pub removal_ends_or_IsStuck :
    (s : State)
    → IsReachable s
    → s.remover ≡ awaiting_exit
    → (CanEnd s ⊎ IsStuck s) × (IsStuck s ↔ IsCrossed s)
removal_ends_or_IsStuck s r w =
    let v = reachable-IsSafe r in
    elim (waiting_cases s s.listener refl v w) [
      | inl can ↦ (inl can, (not_both s w can, crossed-IsStuck s v w))
      | inr crossed ↦
          (inr (crossed-IsStuck s v w crossed), ((λ stuck. crossed), crossed-IsStuck s v w))
    ]

-- If RemovePeer comes between `go p.listen()` and the first statement of listen, it can end at
-- once and give the lock back, and after that a listener that leaves its loop crashes.
pub early_removal_crashes :
    (s : State)
    → IsReachable s
    → s.listener ≡ started_go
    → s.remover ≡ outside
    → s.locked ≡ false
    → (t : State) × (u : State) × Leads s t
      × (t.remover ≡ closed_at_once)
      × (t.locked ≡ false)
      × Leads t u
      × (u.listener ≡ crashed)
early_removal_crashes s r early out free =
    let v = reachable-IsSafe r in
    let s1 = record s { remover = closing; locked = true } in
    let t = record s1 { remover = closed_at_once; disconnect_closed = true; locked = false } in
    let u1 = record t { listener = selecting; started = true } in
    let u2 = record u1 { listener = signalling } in
    (
      t,
      record u2 { listener = crashed },
      onward (onward here (removes out free refl)) (closes_at_once refl (ground arith) refl),
      refl,
      refl,
      onward (onward (onward here (starts early refl)) (leaves refl refl)) (crashes refl refl refl),
      refl,
    )
