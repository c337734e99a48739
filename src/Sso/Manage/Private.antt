-- ===== src/Sso/Manage/Private.antt =====
-- Who may send the messages of an admin, and what they leave of the private shares of others.
use alfred_identity_backend.Common.{
  ℕ, ◌≡◌, ◌≢◌, ◌⊎◌, refl, sym, ◌∙◌, ap, subst, false, List, [], ◌∷◌, none, some, inl, inr, ◌==◌,
  ==_iff, if◌then◌else◌, Text, find, find-some, arith, Bool-cases, Option-cases,
}
use alfred_identity_backend.Store.Names.{
  add_alias, remove_alias, add_tag, remove_tag, add_character,
}
use alfred_identity_backend.Store.Db.{Db, User}
use alfred_identity_backend.Store.Untouched.{
  SameRows, SameRows-refl, add_alias-Keeps, add_tag-Keeps, add_character-Keeps, remove_alias-Keeps,
  remove_tag-Keeps,
}
use alfred_identity_backend.Sso.Splice.{Setup, Hub}
use alfred_identity_backend.Sso.Clients.{Server, Conn, Outcome, done, failed}
use alfred_identity_backend.Sso.Manage.{
  AdminMessage, admin_add_account, admin_update_account, admin_add_alias, admin_add_tag,
  admin_add_character, admin_remove_alias, admin_remove_tag, admin_remove_character,
  admin_remove_account, admin_set_user_access, admin_set_user_roles, add_account, remove_account,
  delete_character, set_user_access, change_name, update_account, run_admin, handle_admin,
}
use alfred_identity_backend.Sso.Manage.Foreign.{
  IsForeign, change_name-SameRows, update_account-SameRows, remove_account-SameRows,
  delete_character-SameRows, set_user_access-SameRows, add_account-SameRows,
}
use alfred_identity_backend.Sso.Manage.{
  internal, add_alias_code, remove_code, is_ready, announce, admin_allowed,
}
use alfred_identity_backend.Sso.Validate.{validate_alias, validate_tag, validate_character}
use alfred_identity_backend.Sso.Clients.{
  WsClient, is_admin, current_user, refresh_user, refresh_clients, broadcast_full_state,
}
use alfred_identity_backend.Sso.Splice.{allow_login}
use alfred_identity_backend.Store.Tokens.{user_by_id}
use alfred_identity_backend.Common.{codes, map}

-- Reading a user again gives a user with the same number.
pub current_user_id : (s : Setup) (db : Db) (u : User) → (current_user s db u).id ≡ u.id
unfolding current_user user_by_id
current_user_id s db u = elim (Option-cases (find (λ (w : User). w.id == u.id) db.users)) [
  | inl e ↦ rw (e, current_user) refl
  | inr (w, e) ↦ rw (e, current_user) ((==_iff w.id u.id).0 (find-some _ db.users w e).1)
]

module _ (s : Setup) (actor k : ℕ) where
  -- `run_admin`, for a message that is decoded or not.
  run_admin-SameRows :
      (v : Server s) (msg : AdminMessage)
      → v.hub.db.next_account ≢ k
      → IsForeign v.hub.db actor k
      → SameRows k v.hub.db (run_admin s actor msg v).1.hub.db
  unfolding run_admin add_account update_account change_name delete_character remove_account
      set_user_access
  run_admin-SameRows v (admin_add_account none) ne f = SameRows-refl k v.hub.db
  run_admin-SameRows v (admin_add_account (some m)) ne f = add_account-SameRows s actor k v m ne
  run_admin-SameRows v (admin_update_account none) ne f = SameRows-refl k v.hub.db
  run_admin-SameRows v (admin_update_account (some m)) ne f =
      update_account-SameRows s actor k v m f
  run_admin-SameRows v (admin_add_alias none) ne f = SameRows-refl k v.hub.db
  run_admin-SameRows v (admin_add_alias (some m)) ne f =
      change_name-SameRows s actor k v validate_alias (add_alias s.low) add_alias_code
        (codes "admin_add_alias") (codes "alias=") m f
        (λ name account h. add_alias-Keeps k account h s.low name)
  run_admin-SameRows v (admin_add_tag none) ne f = SameRows-refl k v.hub.db
  run_admin-SameRows v (admin_add_tag (some m)) ne f =
      change_name-SameRows s actor k v validate_tag (add_tag s.low) internal (codes "admin_add_tag")
        (codes "tag=") m f (λ name account h. add_tag-Keeps k account h s.low name)
  run_admin-SameRows v (admin_add_character none) ne f = SameRows-refl k v.hub.db
  run_admin-SameRows v (admin_add_character (some m)) ne f =
      change_name-SameRows s actor k v validate_character (add_character s.low) internal
        (codes "admin_add_character") (codes "name=") m f
        (λ name account h. add_character-Keeps k account h s.low name)
  run_admin-SameRows v (admin_remove_alias none) ne f = SameRows-refl k v.hub.db
  run_admin-SameRows v (admin_remove_alias (some m)) ne f =
      change_name-SameRows s actor k v validate_alias (remove_alias s.low) remove_code
        (codes "admin_remove_alias") (codes "alias=") m f
        (λ name account h. remove_alias-Keeps k account h s.low name)
  run_admin-SameRows v (admin_remove_tag none) ne f = SameRows-refl k v.hub.db
  run_admin-SameRows v (admin_remove_tag (some m)) ne f =
      change_name-SameRows s actor k v validate_tag (remove_tag s.low) remove_code
        (codes "admin_remove_tag") (codes "tag=") m f
        (λ name account h. remove_tag-Keeps k account h s.low name)
  run_admin-SameRows v (admin_remove_character none) ne f = SameRows-refl k v.hub.db
  run_admin-SameRows v (admin_remove_character (some m)) ne f =
      delete_character-SameRows s actor k v m f
  run_admin-SameRows v (admin_remove_account none) ne f = SameRows-refl k v.hub.db
  run_admin-SameRows v (admin_remove_account (some a)) ne f =
      remove_account-SameRows s actor k v a f
  run_admin-SameRows v (admin_set_user_access none) ne f = SameRows-refl k v.hub.db
  run_admin-SameRows v (admin_set_user_access (some m)) ne f =
      set_user_access-SameRows s actor k v m
  run_admin-SameRows v admin_set_user_roles ne f = SameRows-refl k v.hub.db

-- A change of a client's user leaves the numbers of the clients.
update_ids :
    (id : ℕ) (u : User) (cs : List WsClient)
    → map
        (λ (w : WsClient). w.id)
        (map (λ (w : WsClient). if w.id == id then record w { user = u } else w) cs)
      ≡ map (λ (w : WsClient). w.id) cs
update_ids id u [] = refl
update_ids id u (w ∷ cs) = ground (arith, update_ids id u cs)

-- The database after the answer is that of the branch.
announce-db :
    (s : Setup) (c : Conn) (r : Outcome ℕ × Server s) → (announce s c r).0.hub.db ≡ r.1.hub.db
unfolding announce broadcast_full_state refresh_clients
announce-db s c (done id, w) = refl
announce-db s c (failed code, w) = refl

admin_allowed-SameRows :
    (s : Setup) (v : Server s) (c : Conn) (msg : AdminMessage) (k : ℕ)
    → v.hub.db.next_account ≢ k
    → IsForeign v.hub.db c.user.id k
    → SameRows k v.hub.db (admin_allowed s v c msg).0.hub.db
unfolding admin_allowed allow_login
admin_allowed-SameRows s v c msg k ne f =
    let v2 = record v { hub = (allow_login s v.hub c.user.id).1 } in
    let r = run_admin s c.user.id msg v2 in
    let one =
      subst (SameRows k v.hub.db) (sym (announce-db s c r))
        (run_admin-SameRows s c.user.id k v2 msg ne f) in
    ground (arith, one, SameRows-refl k v.hub.db)

module _ (s : Setup) (v : Server s) (c : Conn) (msg : AdminMessage) where
  refreshed_hub : (refresh_user s v c).0.hub ≡ v.hub
  unfolding refresh_user
  refreshed_hub = elim (Option-cases c.client) [
    | inl e ↦ ground (arith, e)
    | inr (id, e) ↦ ground (arith, e)
  ]

  refreshed_user : (refresh_user s v c).1.user.id ≡ c.user.id
  unfolding refresh_user
  refreshed_user = current_user_id s v.hub.db c.user

  refreshed_ids :
      map (λ (w : WsClient). w.id) (refresh_user s v c).0.clients
      ≡ map (λ (w : WsClient). w.id) v.clients
  unfolding refresh_user
  refreshed_ids = elim (Option-cases c.client) [
    | inl e ↦ rw (e, refresh_user) refl
    | inr (id, e) ↦ rw (e, refresh_user) (update_ids id (current_user s v.hub.db c.user) v.clients)
  ]

  refreshed_admin :
      is_admin s (refresh_user s v c).0 (refresh_user s v c).1.user
      ≡ is_admin s v (current_user s v.hub.db c.user)
  unfolding refresh_user is_admin
  refreshed_admin = elim (Option-cases c.client) [
    | inl e ↦ rw (e, refresh_user) refl
    | inr (id, e) ↦ rw (e, refresh_user) refl
  ]

  -- If an account is a private share that the user of the connection does not own, and is not the
  -- one that the next new account would be, then no admin message, whether it succeeds or fails,
  -- changes a row of that account: neither itself nor its names, shares, grants and groups.
  pub handle_admin-SameRows :
      (k : ℕ)
      → v.hub.db.next_account ≢ k
      → IsForeign v.hub.db c.user.id k
      → SameRows k v.hub.db (handle_admin s v c msg).0.hub.db
  unfolding handle_admin
  handle_admin-SameRows k ne f =
      let v2 = (refresh_user s v c).0 in
      let c2 = (refresh_user s v c).1 in
      let same_db = ap (λ (h : Hub s). h.db) refreshed_hub in
      let one =
        subst (λ (db : Db). SameRows k db (admin_allowed s v2 c2 msg).0.hub.db) same_db
          (admin_allowed-SameRows s v2 c2 msg k
            (λ q. ne (ap (λ (db : Db). db.next_account) (sym same_db) ∙ q))
            (subst (λ (db : Db). IsForeign db c2.user.id k) (sym same_db)
              (subst (λ (u : ℕ). IsForeign v.hub.db u k) (sym refreshed_user) f))) in
      let two = subst (SameRows k v.hub.db) (sym same_db) (SameRows-refl k v.hub.db) in
      ground (arith, one, two, SameRows-refl k v.hub.db)

  -- If the connection is not signed in, or its user, as read again from the database, is no admin,
  -- handleAdmin answers with a failure, leaves the hub as it was (database, tracker, limiters and
  -- audit log), and the same clients are connected.
  pub handle_admin-refused :
      (is_ready s c ≡ false) ⊎ (is_admin s v (current_user s v.hub.db c.user) ≡ false)
      → ((handle_admin s v c msg).0.hub ≡ v.hub)
        × (map (λ (w : WsClient). w.id) (handle_admin s v c msg).0.clients
            ≡ map (λ (w : WsClient). w.id) v.clients)
        × ((code : Text) × ((handle_admin s v c msg).2 ≡ failed code))
  unfolding handle_admin
  handle_admin-refused h = elim (Bool-cases (is_ready s c)) [
    | inr unready ↦ (
      ground (arith, unready),
      ground (arith, unready),
      (codes "unauthorized", ground (arith, unready)),
    )
    | inl ready ↦
        let denied : is_admin s (refresh_user s v c).0 (refresh_user s v c).1.user ≡ false =
          refreshed_admin ∙ elim h [ inl unready ↦ cc | inr no_admin ↦ no_admin ] in
        (
          ground (arith, ready, denied, refreshed_hub),
          ground (arith, ready, denied, refreshed_ids),
          (codes "forbidden", ground (arith, ready, denied)),
        )
  ]
