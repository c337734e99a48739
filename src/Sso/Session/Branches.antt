-- ===== src/Sso/Session/Branches.antt =====
-- Each branch of the messages of an admin, and of the shares, keeps the tracker of the hub in order.
use alfred_identity_backend.Common.{
  ℕ, suc, ◌≡◌, refl, sym, subst, Bool, Option, none, some, inl, inr, Text, arith, Option-cases,
  codes,
}
use alfred_identity_backend.Common.Strings.{trim_space}
use alfred_identity_backend.Store.Accounts.{add_eq_account}
use alfred_identity_backend.Presence.SingleBox.{IsOrderly}
use alfred_identity_backend.Store.Db.{M, Error, Result-cases}
use alfred_identity_backend.Sso.Splice.{Setup}
use alfred_identity_backend.Sso.Clients.{
  Server, run_store, audit, disconnect_user, notify_state_listeners, with_db,
}
use alfred_identity_backend.Sso.Manage.{
  AdminMessage, admin_add_account, admin_update_account, admin_add_alias, admin_add_tag,
  admin_add_character, admin_remove_alias, admin_remove_tag, admin_remove_character,
  admin_remove_account, admin_set_user_access, admin_set_user_roles, internal, add_alias_code,
  remove_code, NameOf, UpdateAccount, AddAccount, UserAccess, add_account, update_account,
  change_name, delete_character, remove_account, set_user_access, run_admin, set_required_role,
  update_password, update_disabled, reject_restricted,
}
use alfred_identity_backend.Sso.Validate.{validate_alias, validate_tag, validate_character}
use alfred_identity_backend.Store.Names.{
  add_alias, remove_alias, add_tag, remove_tag, add_character,
}
use alfred_identity_backend.Sso.Sharing.{
  ShareMessage, share_account, unshare_account, run_share_account, run_unshare_account, run_share,
}
use alfred_identity_backend.Sso.Session.Orderly.{clear-IsOrderly}

module _ (s : Setup) (actor : ℕ) where
  pub set_required_role-presence :
      (role : Option Text) (account : ℕ) (v : Server s)
      → (set_required_role s role account v).1.hub.presence ≡ v.hub.presence
  unfolding set_required_role run_store
  set_required_role-presence none account v = refl
  set_required_role-presence (some role) account v = refl

  pub update_password-presence :
      (pw : Option Text) (account : ℕ) (v : Server s)
      → (update_password s pw account v).1.hub.presence ≡ v.hub.presence
  unfolding update_password run_store
  update_password-presence none account v = refl
  update_password-presence (some pw) account v = ground arith

  pub update_disabled-presence :
      (flag : Option Bool) (account : ℕ) (v : Server s)
      → (update_disabled s flag account v).1.hub.presence ≡ v.hub.presence
  unfolding update_disabled run_store
  update_disabled-presence none account v = refl
  update_disabled-presence (some flag) account v = refl

  pub update_account-presence :
      (v : Server s) (msg : UpdateAccount)
      → (update_account s actor (some msg) v).1.hub.presence ≡ v.hub.presence
  unfolding update_account reject_restricted run_store audit
  update_account-presence v msg =
      let v1 = (update_password s msg.password msg.account_id v).1 in
      let v2 = (update_disabled s msg.disabled msg.account_id v1).1 in
      ground (
        arith,
        update_password-presence msg.password msg.account_id v,
        update_disabled-presence msg.disabled msg.account_id v1,
        set_required_role-presence msg.required_role_id msg.account_id v2,
      )

  pub change_name-presence :
      (v : Server s) (validate : Text → Option Text) (change : Text → ℕ → M (Unit {0}))
      (code : Error → Text) (action label : Text) (msg : Option NameOf)
      → (change_name s validate change code action label actor msg v).1.hub.presence
        ≡ v.hub.presence
  unfolding change_name reject_restricted run_store audit
  change_name-presence v validate change code action label none = refl
  change_name-presence v validate change code action label (some msg) = ground arith

  pub delete_character-presence :
      (v : Server s) (msg : Option NameOf)
      → (delete_character s actor msg v).1.hub.presence ≡ v.hub.presence
  unfolding delete_character reject_restricted run_store audit
  delete_character-presence v none = refl
  delete_character-presence v (some msg) = ground arith

  pub set_user_access-presence :
      (v : Server s) (msg : Option UserAccess)
      → (set_user_access s actor msg v).1.hub.presence ≡ v.hub.presence
  unfolding set_user_access run_store audit disconnect_user notify_state_listeners
  set_user_access-presence v none = refl
  set_user_access-presence v (some msg) = ground arith

  pub add_account-presence :
      (v : Server s) (msg : Option AddAccount)
      → (add_account s actor msg v).1.hub.presence ≡ v.hub.presence
  unfolding add_account run_store audit
  add_account-presence v none = refl
  add_account-presence v (some msg) =
      let stored =
        add_eq_account s.vault s.low (trim_space msg.username) msg.password (s.nonce v.hub.time)
          (s.nonce (suc v.hub.time)) v.hub.db in
      let v2 =
        with_db s stored.1 (record v { hub = record v.hub { time = suc (suc v.hub.time) } }) in
      elim (Result-cases stored.0) [
        | inl (id, e) ↦ ground (arith, e, set_required_role-presence msg.required_role_id id v2)
        | inr (reason, e) ↦ ground (arith, e)
      ]

  pub remove_account-IsOrderly :
      (v : Server s) (account : Option ℕ)
      → IsOrderly v.hub.presence
      → IsOrderly (remove_account s actor account v).1.hub.presence
  unfolding remove_account reject_restricted run_store audit
  remove_account-IsOrderly v none o = o
  remove_account-IsOrderly v (some account) o = elim (Option-cases v.hub.presence) [
    | inl e ↦ ground (arith, e, o)
    | inr (t, e) ↦ ground (arith, e, o, clear-IsOrderly t account (subst IsOrderly e o))
  ]

  pub share-presence :
      (v : Server s) (msg : ShareMessage)
      → (run_share s actor msg v).1.hub.presence ≡ v.hub.presence
  unfolding run_share run_share_account run_unshare_account run_store audit
  share-presence v (share_account none) = refl
  share-presence v (share_account (some msg)) = ground arith
  share-presence v (unshare_account none) = refl
  share-presence v (unshare_account (some raw)) = ground arith

  pub run_admin-IsOrderly :
      (v : Server s) (msg : AdminMessage)
      → IsOrderly v.hub.presence
      → IsOrderly (run_admin s actor msg v).1.hub.presence
  unfolding run_admin
  run_admin-IsOrderly v (admin_add_account m) o = subst IsOrderly (sym (add_account-presence v m)) o
  run_admin-IsOrderly v (admin_update_account none) o = o
  run_admin-IsOrderly v (admin_update_account (some m)) o =
      subst IsOrderly (sym (update_account-presence v m)) o
  run_admin-IsOrderly v (admin_add_alias m) o =
      subst IsOrderly
        (sym (
          change_name-presence v validate_alias (add_alias s.low) add_alias_code
            (codes "admin_add_alias") (codes "alias=") m))
        o
  run_admin-IsOrderly v (admin_add_tag m) o =
      subst IsOrderly
        (sym (
          change_name-presence v validate_tag (add_tag s.low) internal (codes "admin_add_tag")
            (codes "tag=") m))
        o
  run_admin-IsOrderly v (admin_add_character m) o =
      subst IsOrderly
        (sym (
          change_name-presence v validate_character (add_character s.low) internal
            (codes "admin_add_character") (codes "name=") m))
        o
  run_admin-IsOrderly v (admin_remove_alias m) o =
      subst IsOrderly
        (sym (
          change_name-presence v validate_alias (remove_alias s.low) remove_code
            (codes "admin_remove_alias") (codes "alias=") m))
        o
  run_admin-IsOrderly v (admin_remove_tag m) o =
      subst IsOrderly
        (sym (
          change_name-presence v validate_tag (remove_tag s.low) remove_code
            (codes "admin_remove_tag") (codes "tag=") m))
        o
  run_admin-IsOrderly v (admin_remove_character m) o =
      subst IsOrderly (sym (delete_character-presence v m)) o
  run_admin-IsOrderly v (admin_remove_account m) o = remove_account-IsOrderly v m o
  run_admin-IsOrderly v (admin_set_user_access m) o =
      subst IsOrderly (sym (set_user_access-presence v m)) o
  run_admin-IsOrderly v admin_set_user_roles o = o
