-- ===== src/Application/Logons.antt =====
-- What a Logon does to the peer of its session.
use mathlib.Core.Path.{subst}
use bfxfixgw.Base.{
  String, Bool, true, false, Bool-cases, ◌≡◌, ◌≢◌, ◌⊎◌, ◌==◌, eq_iff, refl, ◌∙◌, ap, some,
  Option-cases, List, [], ◌∷◌, inl, inr, eq_refl,
}
use bfxfixgw.Base.Maps.{lookup, lookup-assign}
use bfxfixgw.Application.{
  from_admin, returned, credentials, connect_peer, logon, logout_session, Credentials, Logon,
  bool_or_false, read_logon, field_of, filled, empty, refused,
}
use bfxfixgw.Fix.{FieldMap, SessionId, Result, Reject, ok, err}
use bfxfixgw.Fix.Tag
use bfxfixgw.Outbound.{Handled-cases}
use bfxfixgw.Peer.Cache.{new_cache}
use bfxfixgw.Service.{Service, new_peer, add_peer, find_peer, put_peer}
use bfxfixgw.World.{Env, Event, Peer, connected}

-- What field_of says of a field.
field-cases :
    (x : Result String)
    → ((v : String) × (x ≡ ok v) × (v ≢ "") × (field_of x ≡ filled v))
      ⊎ (((v : String) → ¬ ((x ≡ ok v) × (v ≢ "")))
          × ((field_of x ≡ empty) ⊎ ((e : Reject) × (field_of x ≡ refused e))))
unfolding field_of
field-cases (err e) = inr ((λ v h. cc (h.0)), inr (e, refl))
field-cases (ok v) = elim (Bool-cases (v == "")) [
  | inl same ↦ inr ((λ w h. h.1 (cc (h.0, (eq_iff v "").0 same))), inl (rw (same, field_of) refl))
  | inr other ↦ inl (v, refl, (λ same. cc (other, (eq_iff v "").1 same)), rw (other, field_of) refl)
]

same_cod : (x : Result Bool) → bool_or_false x ≡ elim x [ ok b ↦ b | err e ↦ false ]
same_cod (ok b) = refl
same_cod (err e) = refl

module _ {D : Type 0} where
  -- The Logon has all three of the key, the secret and the user id, and none of them is empty.
  abbrev pub HasCredentials : FieldMap D → (key secret user : String) → Type 0
  HasCredentials msg key secret user =
      ((msg.get_string Tag.bfx_api_key ≡ ok key) × (key ≢ ""))
      × ((msg.get_string Tag.bfx_api_secret ≡ ok secret) × (secret ≢ ""))
      × ((msg.get_string Tag.bfx_user_id ≡ ok user) × (user ≢ ""))

module _ {F D : Type 0} where
  -- What the code's reading of a Logon asks of the websocket.
  abbrev connections : FieldMap D → Logon → List (Event F D)
  connections msg (returned out) = []
  connections msg (credentials c) =
      connected c.api_key c.api_secret (bool_or_false (msg.get_bool Tag.cancel_on_disconnect)) ∷ []

  -- One connection with the credentials of the Logon, or none if it has not got them; an error
  -- reading CancelOnDisconnect counts as false.
  abbrev pub AsksFor : FieldMap D → List (Event F D) → Type 0
  AsksFor msg log =
      ((key : String) × (secret : String) × (user : String) × HasCredentials msg key secret user
        × (log
            ≡ connected key secret
                (elim (msg.get_bool Tag.cancel_on_disconnect) [ ok b ↦ b | err e ↦ false ])
              ∷ []))
      ⊎ (((key secret user : String) → ¬ (HasCredentials msg key secret user)) × (log ≡ []))

  -- The session has a new peer, which has asked for just that connection, and no peer has been
  -- closed.
  pub record IsLoggedOn (msg : FieldMap D) (session : SessionId) (s s' : Service F D) : Type 0 where
    pub peer : Peer F D
    pub found : find_peer session.name s' ≡ some peer
    pub fresh : peer.cache ≡ new_cache
    pub asked : AsksFor msg peer.log
    pub none_closed : s'.closed ≡ s.closed

  read_logon-AsksFor : (msg : FieldMap D) → AsksFor msg (connections msg (read_logon msg))
  unfolding read_logon
  read_logon-AsksFor msg = elim (field-cases (msg.get_string Tag.bfx_api_key)) [
    | inr (no_key, inl e) ↦ rw (e, read_logon) (inr ((λ k s u h. no_key k h.0), refl))
    | inr (no_key, inr (r, e)) ↦ rw (e, read_logon) (inr ((λ k s u h. no_key k h.0), refl))
    | inl (key, k, k_given, ke) ↦ elim (field-cases (msg.get_string Tag.bfx_api_secret)) [
      | inr (no_secret, inl e) ↦ rw (ke, e, read_logon) (inr ((λ k s u h. no_secret s h.1), refl))
      | inr (no_secret, inr (r, e)) ↦
          rw (ke, e, read_logon) (inr ((λ k s u h. no_secret s h.1), refl))
      | inl (secret, s, s_given, se) ↦ elim (field-cases (msg.get_string Tag.bfx_user_id)) [
        | inr (no_user, inl e) ↦ rw (ke, se, e, read_logon) (inr ((λ k s u h. no_user u h.2), refl))
        | inr (no_user, inr (r, e)) ↦
            rw (ke, se, e, read_logon) (inr ((λ k s u h. no_user u h.2), refl))
        | inl (user, u, u_given, ue) ↦
            rw (ke, se, ue, read_logon)
              (inl (
                key,
                secret,
                user,
                ((k, k_given), (s, s_given), (u, u_given)),
                ap (λ b. connected key secret b ∷ [])
                    (same_cod (msg.get_bool Tag.cancel_on_disconnect)),
              ))
      ]
    ]
  ]

  module _ (env : Env F D) (session : SessionId) (msg : FieldMap D) (s : Service F D) where
    found_put :
        (p : Peer F D) (s : Service F D)
        → find_peer session.name (put_peer session.name p s) ≡ some p
    unfolding find_peer put_peer
    found_put p s = rw (lookup-assign, eq_refl) refl

    found_added : find_peer session.name (add_peer session s) ≡ some new_peer
    unfolding find_peer add_peer
    found_added = rw (lookup-assign, eq_refl) refl

    -- The peer after Peer.Logon.
    abbrev connected_peer : Credentials → Peer F D
    unfolding logon
    connected_peer c =
        (logon env c (bool_or_false (msg.get_bool Tag.cancel_on_disconnect)) new_peer).1

    built :
        (c : Credentials) (s' : Service F D)
        → s'.peers ≡ (put_peer session.name (connected_peer c) (add_peer session s)).peers
        → s'.closed ≡ s.closed
        → AsksFor msg (connections msg (credentials c))
        → IsLoggedOn msg session s s'
    unfolding logon find_peer
    built c s' e e' asks = record {
      peer = connected_peer c;
      found = ap (lookup session.name) e ∙ found_put (connected_peer c) (add_peer session s);
      fresh = refl;
      asked = asks;
      none_closed = e';
    }

    connected-IsLoggedOn :
        (c : Credentials)
        → AsksFor msg (connections msg (credentials c))
        → IsLoggedOn msg session s (connect_peer env session msg c (add_peer session s)).1
    unfolding connect_peer logout_session logon put_peer add_peer
    connected-IsLoggedOn c asks =
        let s1 = put_peer session.name (connected_peer c) (add_peer session s) in
        let cod = bool_or_false (msg.get_bool Tag.cancel_on_disconnect) in
        elim (Option-cases (logon env c cod new_peer).0) [
          | inl fine ↦ rw (found_added, fine, connect_peer) (built c _ refl refl asks)
          | inr (e, error) ↦ elim (Handled-cases (logout_session env session e s1).0) [
            | inl sends ↦ rw (found_added, error, sends, connect_peer) (built c _ refl refl asks)
            | inr (inl (e2, fails)) ↦
                rw (found_added, error, fails, connect_peer) (built c _ refl refl asks)
            | inr (inr crashes) ↦
                rw (found_added, error, crashes, connect_peer) (built c _ refl refl asks)
          ]
        ]

    -- Every Logon puts a new peer in the place of the one that its session may have had, without
    -- closing that one. It asks the websocket for one connection if the message has all three of
    -- the key, the secret and the user id, none of them empty, and for none otherwise.
    pub logon-IsLoggedOn : IsLoggedOn msg session s (from_admin env true session msg s).1
    unfolding from_admin add_peer find_peer
    logon-IsLoggedOn = go (read_logon msg) refl (read_logon-AsksFor msg)
      where
        go :
            (x : Logon)
            → read_logon msg ≡ x
            → AsksFor msg (connections msg (read_logon msg))
            → IsLoggedOn msg session s (from_admin env true session msg s).1
        go (returned out) e asks =
            rw (e, from_admin)
              (record {
                peer = new_peer;
                found = found_added;
                fresh = refl;
                asked = subst (λ x. AsksFor msg (connections msg x)) e asks;
                none_closed = refl;
              })
        go (credentials c) e asks =
            rw (e, from_admin)
              (connected-IsLoggedOn c (subst (λ x. AsksFor msg (connections msg x)) e asks))
