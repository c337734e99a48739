-- ===== src/Sso/Session/Kept.antt =====
-- Every message keeps the tracker of the hub in order: the handlers, and runs of the loop.
use alfred_identity_backend.Common.{
  ℕ, ◌≡◌, refl, sym, ◌∙◌, subst, List, [], ◌∷◌, Option, none, some, inl, inr, Text, arith,
  Bool-cases, Option-cases,
}
use alfred_identity_backend.Presence.SingleBox.{IsOrderly}
use alfred_identity_backend.Store.Db.{Result, ok, err, Result-cases}
use alfred_identity_backend.Sso.Relay.{UdpRelay}
use alfred_identity_backend.Sso.Splice.{Setup, Message, allow_login}
use alfred_identity_backend.Sso.Clients.{
  Server, Conn, Outcome, done, failed, audit, notify_state_listeners, refresh_clients,
  broadcast_full_state, refresh_user,
}
use alfred_identity_backend.Sso.Manage.{
  AdminMessage, run_admin, announce, handle_admin, admin_allowed,
}
use alfred_identity_backend.Store.Names.{account_id_by_character}
use alfred_identity_backend.Sso.Session.Online.{seen-IsOrderly}
use alfred_identity_backend.Store.Candidates.{LoginCandidate, resolve_login_candidates}
use alfred_identity_backend.Sso.Sharing.{ShareMessage, run_share, handle_share}
use alfred_identity_backend.Sso.Session.{
  Frame, invalid_json, get_state, pong, ping, unknown_type, auth, login_auth, login_relay_up,
  login_splice, heartbeat, share, admin, receive, serve, send_state, AuthMessage, Heartbeat,
  sign_in, signed_in, close, authorize_login, grant_login, relay_up, catch_up, relay_of,
  splice_login, beat, beat_on,
}
use alfred_identity_backend.Sso.Clients.{register, unregister}
use alfred_identity_backend.Sso.Session.Orderly.{
  picked-IsOrderly, relay_up-IsOrderly, splice_up-IsOrderly,
}
use alfred_identity_backend.Sso.Session.Branches.{share-presence, run_admin-IsOrderly}

module _ (s : Setup) where
  announce-presence :
      (c : Conn) (r : Outcome ℕ × Server s) → (announce s c r).0.hub.presence ≡ r.1.hub.presence
  unfolding announce broadcast_full_state refresh_clients notify_state_listeners
  announce-presence c (done id, w) = refl
  announce-presence c (failed code, w) = refl

  refresh-presence :
      (v : Server s) (c : Conn) → (refresh_user s v c).0.hub.presence ≡ v.hub.presence
  unfolding refresh_user
  refresh-presence v c = elim (Option-cases c.client) [
    | inl e ↦ rw (e, refresh_user) refl
    | inr (id, e) ↦ rw (e, refresh_user) refl
  ]

  admin_allowed-IsOrderly :
      (v : Server s) (c : Conn) (msg : AdminMessage)
      → IsOrderly v.hub.presence
      → IsOrderly (admin_allowed s v c msg).0.hub.presence
  unfolding admin_allowed allow_login
  admin_allowed-IsOrderly v c msg o =
      let w = record v { hub = (allow_login s v.hub c.user.id).1 } in
      let ran = run_admin s c.user.id msg w in
      let kept =
        subst IsOrderly (sym (announce-presence c ran)) (run_admin-IsOrderly s c.user.id w msg o) in
      ground (arith, o, kept)

  handle_admin-IsOrderly :
      (v : Server s) (c : Conn) (msg : AdminMessage)
      → IsOrderly v.hub.presence
      → IsOrderly (handle_admin s v c msg).0.hub.presence
  unfolding handle_admin
  handle_admin-IsOrderly v c msg o =
      let v2 = (refresh_user s v c).0 in
      let o2 = subst IsOrderly (sym (refresh-presence v c)) o in
      ground (arith, o, o2, admin_allowed-IsOrderly v2 (refresh_user s v c).1 msg o2)

  handle_share-IsOrderly :
      (v : Server s) (c : Conn) (msg : ShareMessage)
      → IsOrderly v.hub.presence
      → IsOrderly (handle_share s v c msg).0.hub.presence
  unfolding handle_share
  handle_share-IsOrderly v c msg o =
      let v2 = (refresh_user s v c).0 in
      let c2 = (refresh_user s v c).1 in
      let o2 = subst IsOrderly (sym (refresh-presence v c)) o in
      let ran = run_share s c2.user.id msg v2 in
      let kept =
        subst IsOrderly (sym (announce-presence c2 ran ∙ share-presence s c2.user.id v2 msg)) o2 in
      ground (arith, o, o2, kept)

  sign_in-presence :
      (v : Server s) (c : Conn) (msg : Option AuthMessage)
      → (sign_in s v c msg).0.hub.presence ≡ v.hub.presence
  unfolding sign_in signed_in close unregister register notify_state_listeners audit
  sign_in-presence v c none = refl
  sign_in-presence v c (some msg) = ground arith

  grant_login-IsOrderly :
      (v : Server s) (c : Conn) (r : Result (List LoginCandidate))
      → IsOrderly v.hub.presence
      → IsOrderly (grant_login s v c r).0.hub.presence
  unfolding grant_login
  grant_login-IsOrderly v c (err e) o = o
  grant_login-IsOrderly v c (ok []) o = o
  grant_login-IsOrderly v c (ok (cand ∷ cands)) o =
      ground (arith, picked-IsOrderly s.clock (cand ∷ cands) v.hub.presence v.hub.time o)

  authorize_login-IsOrderly :
      (v : Server s) (c : Conn) (typed : Option Text)
      → IsOrderly v.hub.presence
      → IsOrderly (authorize_login s v c typed).0.hub.presence
  unfolding authorize_login allow_login
  authorize_login-IsOrderly v c none o = o
  authorize_login-IsOrderly v c (some typed) o =
      let w = record v { hub = (allow_login s v.hub c.user.id).1 } in
      ground (
        arith,
        o,
        grant_login-IsOrderly w c
            (resolve_login_candidates s.vault s.low c.user.id typed w.hub.db).0 o,
      )

  relayed-IsOrderly :
      (v : Server s) (c : Conn) (dialled : Option UdpRelay) (msg : Message s)
      → IsOrderly v.hub.presence
      → IsOrderly (relay_up s v c dialled msg).0.hub.presence
  unfolding relay_up catch_up refresh_clients notify_state_listeners
  relayed-IsOrderly v c dialled msg o =
      let kept = relay_up-IsOrderly s v.hub c.user.id (relay_of s v c.client dialled) msg o in
      elim (Option-cases c.client) [
        | inl e ↦ ground (arith, e, kept)
        | inr (id, e) ↦ ground (arith, e, kept)
      ]

  spliced-IsOrderly :
      (v : Server s) (c : Conn) (msg : Message s)
      → IsOrderly v.hub.presence
      → IsOrderly (splice_login s v c msg).0.hub.presence
  unfolding splice_login catch_up refresh_clients notify_state_listeners
  spliced-IsOrderly v c msg o = ground (arith, o, splice_up-IsOrderly s v.hub c.user.id msg o)

  beat-IsOrderly :
      (v : Server s) (c : Conn) (msg : Option Heartbeat)
      → IsOrderly v.hub.presence
      → IsOrderly (beat s v c msg).hub.presence
  unfolding beat beat_on
  beat-IsOrderly v c none o = o
  beat-IsOrderly v c (some msg) o =
      elim (Result-cases (account_id_by_character s.low msg.character_name v.hub.db).0) [
        | inl (account, e) ↦ ground (arith, e, o, seen-IsOrderly s v account c.user.id msg o)
        | inr (reason, e) ↦ ground (arith, e, o)
      ]

  receive-IsOrderly :
      (v : Server s) (c : Conn) (f : Frame s)
      → IsOrderly v.hub.presence
      → IsOrderly (receive s v c f).0.hub.presence
  unfolding receive send_state
  receive-IsOrderly v c invalid_json o = o
  receive-IsOrderly v c pong o = o
  receive-IsOrderly v c ping o = o
  receive-IsOrderly v c unknown_type o = o
  receive-IsOrderly v c (auth m) o = subst IsOrderly (sym (sign_in-presence v c m)) o
  receive-IsOrderly v c get_state o =
      ground (arith, o, subst IsOrderly (sym (refresh-presence v c)) o)
  receive-IsOrderly v c (login_auth m) o = ground (arith, o, authorize_login-IsOrderly v c m o)
  receive-IsOrderly v c (login_relay_up d m) o = ground (arith, o, relayed-IsOrderly v c d m o)
  receive-IsOrderly v c (login_splice m) o = ground (arith, o, spliced-IsOrderly v c m o)
  receive-IsOrderly v c (heartbeat m) o = ground (arith, o, beat-IsOrderly v c m o)
  receive-IsOrderly v c (share m) o = handle_share-IsOrderly v c m o
  receive-IsOrderly v c (admin m) o = handle_admin-IsOrderly v c m o

  -- Any messages of a connection keep the hub's tracker valid, with one entry for each account and
  -- each user online on at most one account.
  pub serve-IsOrderly :
      (v : Server s) (c : Conn) (fs : List (Frame s))
      → IsOrderly v.hub.presence
      → IsOrderly (serve s v c fs).0.hub.presence
  unfolding serve
  serve-IsOrderly v c [] o = o
  serve-IsOrderly v c (f ∷ fs) o = elim (Bool-cases c.closed) [
    | inl shut ↦ rw (shut, serve) o
    | inr up ↦
        rw (up, serve)
          (serve-IsOrderly (receive s v c f).0 (receive s v c f).1 fs (receive-IsOrderly v c f o))
  ]
