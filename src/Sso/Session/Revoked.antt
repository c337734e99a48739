-- ===== src/Sso/Session/Revoked.antt =====
-- What a user whose access an admin revokes is left with.
use alfred_identity_backend.Common.{
  ℕ, ◌≡◌, ◌≢◌, refl, sym, ◌∙◌, ap, subst, true, not, map, ◌++◌, some, inl, inr, ◌==◌, Text, codes,
  any, keep, In, In-map_inv, In-keep_inv, not_any, arith, Bool-cases,
}
use alfred_identity_backend.Common.Decimal.{decimal}
use alfred_identity_backend.Store.Db.{User, ok}
use alfred_identity_backend.Store.Tokens.{
  is_active_of, revoke_row, set_user_access_revoked, user_by_token,
}
use alfred_identity_backend.Store.Tokens.NoneActive.{NoneActive, revoked-NoneActive}
use alfred_identity_backend.Store.Tokens.Auth.{user_by_token_inv}
use alfred_identity_backend.Sso.Splice.{Setup, allow_login}
use alfred_identity_backend.Sso.Clients.{
  WsClient, Server, Conn, Outcome, done, failed, run_store, audit, with_db, disconnect_user,
  notify_state_listeners, refresh_user, refresh_clients, broadcast_full_state, current_user,
}
use alfred_identity_backend.Sso.Manage.{
  AdminMessage, UserAccess, admin_set_user_access, set_user_access, bool_text, run_admin, announce,
  admin_allowed, handle_admin,
}
use alfred_identity_backend.Sso.Manage.Private.{current_user_id}

module _ (s : Setup) (user_id : ℕ) where
  -- No client of the user is connected, and none of the user's tokens is active.
  abbrev pub IsOut : Server s → Type 0
  IsOut v =
      ((w : WsClient) → In w v.clients → w.user.id ≢ user_id)
      × NoneActive user_id v.hub.db.api_tokens

  disconnected :
      (v : Server s) (w : WsClient)
      → In w (disconnect_user s v user_id).clients
      → w.user.id ≢ user_id
  unfolding disconnect_user notify_state_listeners
  disconnected v w i = elim (Bool-cases (any (λ (c : WsClient). c.user.id == user_id) v.clients)) [
    | inl some_here ↦
        let same : (disconnect_user s v user_id).clients
            ≡ keep (λ (c : WsClient). not (c.user.id == user_id)) v.clients =
          rw (some_here, disconnect_user) refl in
        λ q. ground (
          arith,
          In-keep_inv (λ (c : WsClient). not (c.user.id == user_id)) w v.clients
              (subst (In w) same i),
          q,
        )
    | inr nobody ↦
        let same : (disconnect_user s v user_id).clients ≡ v.clients =
          rw (nobody, disconnect_user) refl in
        λ q. ground (
          arith,
          not_any (λ (c : WsClient). c.user.id == user_id) w v.clients nobody (subst (In w) same i),
          q,
        )
  ]

  abbrev revocation : UserAccess
  revocation = record { user_id = user_id; revoked = true }

  -- The server after the store and the audit log have been written.
  abbrev recorded : ℕ → Server s → Server s
  unfolding audit
  recorded actor v =
      (audit s actor 0 (codes "admin_set_user_access")
        (codes "user=" ++ (decimal user_id ++ (codes " revoked=" ++ bool_text s true)))
        (with_db s (set_user_access_revoked user_id true v.hub.db).1 v)).1

  reached :
      (actor id : ℕ) (v : Server s)
      → any (λ (u : User). u.id == user_id) v.hub.db.users ≡ true
      → (set_user_access s actor (some revocation) v).0 ≡ done id
      → (set_user_access s actor (some revocation) v).1
        ≡ disconnect_user s (recorded actor v) user_id
  unfolding set_user_access run_store audit set_user_access_revoked
  reached actor id v known h = ground (arith, known, h)

  recorded_tokens :
      (actor : ℕ) (v : Server s)
      → any (λ (u : User). u.id == user_id) v.hub.db.users ≡ true
      → (disconnect_user s (recorded actor v) user_id).hub.db.api_tokens
        ≡ map (revoke_row (is_active_of user_id)) v.hub.db.api_tokens
  unfolding disconnect_user notify_state_listeners audit set_user_access_revoked
  recorded_tokens actor v known = ground (arith, known)

  set_user_access-IsOut :
      (actor id : ℕ) (v : Server s)
      → (set_user_access s actor (some revocation) v).0 ≡ done id
      → IsOut (set_user_access s actor (some revocation) v).1
  unfolding set_user_access run_store audit set_user_access_revoked
  set_user_access-IsOut actor id v h =
      elim (Bool-cases (any (λ (u : User). u.id == user_id) v.hub.db.users)) [
        | inl known ↦ (
          λ w i.
              disconnected (recorded actor v) w
                (subst (λ (x : Server s). In w x.clients) (reached actor id v known h) i),
          subst (NoneActive user_id)
              (sym (
                ap (λ (x : Server s). x.hub.db.api_tokens) (reached actor id v known h)
                ∙ recorded_tokens actor v known))
              (revoked-NoneActive user_id v.hub.db.api_tokens),
        )
        | inr unknown ↦ absurd (ground (arith, unknown, h))
      ]

  broadcast-IsOut : (v : Server s) → IsOut v → IsOut (broadcast_full_state s v)
  unfolding broadcast_full_state refresh_clients notify_state_listeners
  broadcast-IsOut v (gone, idle) = (
    λ w i.
        let (w0, j, e) =
          In-map_inv (λ (c : WsClient). record c { user = current_user s v.hub.db c.user }) w
            v.clients i in
        λ q.
          gone w0 j
            (sym (current_user_id s v.hub.db w0.user) ∙ ap (λ (c : WsClient). c.user.id) e ∙ q),
    idle,
  )

  out_lem :
      (c : Conn) (r : Outcome ℕ × Server s) (id : ℕ)
      → (r.0 ≡ done id → IsOut r.1)
      → (announce s c r).2 ≡ done id
      → IsOut (announce s c r).0
  unfolding announce
  out_lem c (done k, v) id h e = broadcast-IsOut v (h e)
  out_lem c (failed code, v) id h e = absurd (ground (arith, e))

  user_by_token-IsOut :
      (v : Server s) (raw : Text) (u : User) (t : ℕ)
      → IsOut v
      → (user_by_token s.vault raw v.hub.db).0 ≡ ok (u, t)
      → u.id ≢ user_id
  user_by_token-IsOut v raw u t (gone, idle) e q =
      let (row, i, hash, active, owner, has_access) =
        user_by_token_inv s.vault raw v.hub.db u t e in
      ground (arith, idle row i)

  -- A success comes from the branch of the message.
  handle_admin-ran :
      (v : Server s) (c : Conn) (msg : AdminMessage) (id : ℕ)
      → (handle_admin s v c msg).2 ≡ done id
      → handle_admin s v c msg
        ≡ announce s (refresh_user s v c).1 (
            run_admin s (refresh_user s v c).1.user.id msg (record (refresh_user s v c).0 {
              hub = (allow_login s (refresh_user s v c).0.hub (refresh_user s v c).1.user.id).1;
            }))
  unfolding handle_admin admin_allowed
  handle_admin-ran v c msg id h = ground (arith, h)

  -- When an admin's message to revoke a user's access succeeds, no client of that user is connected
  -- afterwards, and no token authenticates that user.
  pub handle_admin-IsOut :
      (v : Server s) (c : Conn) (id : ℕ)
      → (handle_admin s v c (admin_set_user_access (some revocation))).2 ≡ done id
      → ((w : WsClient)
          → In w (handle_admin s v c (admin_set_user_access (some revocation))).0.clients
          → w.user.id ≢ user_id)
        × ((raw : Text) (u : User) (t : ℕ)
            → (user_by_token s.vault raw
                (handle_admin s v c (admin_set_user_access (some revocation))).0.hub.db).0
              ≡ ok (u, t)
            → u.id ≢ user_id)
  unfolding run_admin
  handle_admin-IsOut v c id h =
      let c2 = (refresh_user s v c).1 in
      let w = record (refresh_user s v c).0 {
        hub = (allow_login s (refresh_user s v c).0.hub c2.user.id).1;
      } in
      let ran = handle_admin-ran v c (admin_set_user_access (some revocation)) id h in
      let out =
        subst (λ (x : Server s × Conn × Outcome ℕ). IsOut x.0) (sym ran)
          (out_lem c2 (set_user_access s c2.user.id (some revocation) w) id
            (set_user_access-IsOut c2.user.id id w) (sym (ap (λ x. x.2) ran) ∙ h)) in
      (
        out.0,
        λ raw u t e.
            user_by_token-IsOut ((handle_admin s v c (admin_set_user_access (some revocation))).0)
              raw u t out e,
      )
