-- ===== src/Sso/Manage/Foreign.antt =====
-- What an admin's messages leave of the private shares of others.
use alfred_identity_backend.Common.{
  ℕ, suc, ◌≡◌, ◌≢◌, ◌⊎◌, refl, subst, Bool, true, false, Option, none, some, inl, inr, ◌==◌, Text,
  text_eq, any, find, arith, Bool-cases, Option-cases,
}
use alfred_identity_backend.Common.Strings.{trim_space, Lowering}
use alfred_identity_backend.Common.Bytes.{Bytes}
use alfred_identity_backend.Crypto.Aead.{Vault}
use alfred_identity_backend.Store.Accounts.{blind_of, add_eq_account}
use alfred_identity_backend.Store.Db.{
  Db, M, EqAccount, Error, ok, err, no_rows, constraint, share_access_managed,
  share_password_managed, share_not_owner,
}
use alfred_identity_backend.Store.Restricted.{owner_or_zero, check_restricted_account_manage}
use alfred_identity_backend.Store.Untouched.{
  SameRows, SameRows-refl, SameRows-trans, Keeps, add_eq_account-Keeps, delete_eq_account-Keeps,
  remove_character-Keeps, set_eq_required_role-Keeps, set_eq_password-Keeps, set_eq_disabled-Keeps,
}
use alfred_identity_backend.Sso.Splice.{Setup}
use alfred_identity_backend.Sso.Clients.{
  Server, done, failed, run_store, audit, disconnect_user, with_db, notify_state_listeners,
}
use alfred_identity_backend.Store.Tokens.{set_user_access_revoked}
use alfred_identity_backend.Sso.Manage.{
  NameOf, UpdateAccount, AddAccount, UserAccess, add_account, remove_account, delete_character,
  set_user_access, is_set, sets_password, reject_restricted, restricted_code, change_name,
  set_required_role, update_password, update_disabled, update_account,
}

-- The account `k` is a private share of somebody else.
abbrev pub IsForeign : Db → ℕ → ℕ → Type 0
IsForeign db actor k =
    (a : EqAccount) × (find (λ (b : EqAccount). b.id == k) db.eq_accounts ≡ some a)
    × (a.restricted ≡ true)
    × (owner_or_zero a.owner_user_id ≢ actor)

-- A new account has the next number.
add_eq_account_id :
    (v : Vault) (low : Lowering) (username password : Text) (n1 n2 : Bytes) (db : Db)
    → ((add_eq_account v low username password n1 n2 db).0 ≡ ok db.next_account)
      ⊎ ((e : Error) × ((add_eq_account v low username password n1 n2 db).0 ≡ err e))
unfolding add_eq_account
add_eq_account_id v low username password n1 n2 db =
    elim (Bool-cases (
      any (λ (a : EqAccount). text_eq a.username_blind (blind_of v low username)) db.eq_accounts)) [
        | inl e ↦ inr (constraint, ground arith)
        | inr e ↦ inl (ground arith)
      ]

module _ (s : Setup) (actor k : ℕ) where
  -- A change that `rejectRestricted` lets pass is about another account.
  passed_ne :
      (v : Server s) (account : ℕ) (access password : Bool)
      → IsForeign v.hub.db actor k
      → ((code : Text) × (reject_restricted s actor account access password v ≡ (failed code, v)))
        ⊎ ((reject_restricted s actor account access password v ≡ (done tt, v)) × (account ≢ k))
  unfolding reject_restricted check_restricted_account_manage
  passed_ne v account access password (a, row, private, other) =
      let is_row = λ (b : EqAccount). b.id == account in
      elim (Option-cases (find is_row v.hub.db.eq_accounts)) [
        | inl e ↦ inl (restricted_code no_rows, rw e refl)
        | inr (b, e) ↦
            let differs : (b.restricted ≡ false) ⊎ (owner_or_zero b.owner_user_id ≡ actor)
                → account ≢ k =
              λ h q. absurd (
                ground (
                  arith,
                  subst
                      (λ (n : ℕ). find (λ (x : EqAccount). x.id == n) v.hub.db.eq_accounts ≡ some b)
                      q e,
                )) in
            elim (Bool-cases b.restricted) [
              | inr free ↦ inr (rw (e, reject_restricted) (ground arith), differs (inl free))
              | inl shut ↦ elim (Bool-cases access) [
                | inl on ↦ inl (restricted_code share_access_managed, ground arith)
                | inr off ↦ elim (Bool-cases password) [
                  | inl on ↦ inl (restricted_code share_password_managed, ground arith)
                  | inr out ↦ elim (Bool-cases (owner_or_zero b.owner_user_id == actor)) [
                    | inr no_owner ↦ inl (restricted_code share_not_owner, ground arith)
                    | inl owner ↦ inr (ground arith, differs (inr (ground arith)))
                  ]
                ]
              ]
            ]
      ]

  pub change_name-SameRows :
      (v : Server s) (validate : Text → Option Text) (change : Text → ℕ → M (Unit {0}))
      (code : Error → Text) (action label : Text) (msg : NameOf)
      → IsForeign v.hub.db actor k
      → ((name : Text) (account : ℕ) → account ≢ k → Keeps k (change name account))
      → SameRows k v.hub.db
          (change_name s validate change code action label actor (some msg) v).1.hub.db
  unfolding change_name run_store audit
  change_name-SameRows v validate change code action label msg foreign keeps =
      elim (passed_ne v msg.account_id false false foreign) [
        | inl (reason, e) ↦ ground (arith, e, SameRows-refl k v.hub.db)
        | inr (e, ne) ↦ ground (
          arith,
          e,
          SameRows-refl k v.hub.db,
          keeps (trim_space msg.name) msg.account_id ne v.hub.db,
        )
      ]

  set_required_role-SameRows :
      (role : Option Text) (account : ℕ) (v : Server s)
      → account ≢ k
      → SameRows k v.hub.db (set_required_role s role account v).1.hub.db
  unfolding set_required_role run_store
  set_required_role-SameRows none account v ne = SameRows-refl k v.hub.db
  set_required_role-SameRows (some role) account v ne =
      set_eq_required_role-Keeps k account ne (trim_space role) v.hub.db

  update_password-SameRows :
      (password : Option Text) (account : ℕ) (v : Server s)
      → account ≢ k
      → SameRows k v.hub.db (update_password s password account v).1.hub.db
  unfolding update_password run_store
  update_password-SameRows none account v ne = SameRows-refl k v.hub.db
  update_password-SameRows (some pw) account v ne = ground (
    arith,
    SameRows-refl k v.hub.db,
    set_eq_password-Keeps k account ne s.vault s.low pw (s.nonce v.hub.time) v.hub.db,
  )

  update_disabled-SameRows :
      (flag : Option Bool) (account : ℕ) (v : Server s)
      → account ≢ k
      → SameRows k v.hub.db (update_disabled s flag account v).1.hub.db
  unfolding update_disabled run_store
  update_disabled-SameRows none account v ne = SameRows-refl k v.hub.db
  update_disabled-SameRows (some flag) account v ne =
      set_eq_disabled-Keeps k account ne flag v.hub.db

  pub update_account-SameRows :
      (v : Server s) (msg : UpdateAccount)
      → IsForeign v.hub.db actor k
      → SameRows k v.hub.db (update_account s actor (some msg) v).1.hub.db
  unfolding update_account audit
  update_account-SameRows v msg foreign =
      elim (passed_ne v msg.account_id (is_set msg.required_role_id) (sets_password msg.password)
        foreign) [
          | inl (reason, e) ↦ ground (arith, e, SameRows-refl k v.hub.db)
          | inr (e, ne) ↦
              let v1 = (update_password s msg.password msg.account_id v).1 in
              let v2 = (update_disabled s msg.disabled msg.account_id v1).1 in
              let v3 = (set_required_role s msg.required_role_id msg.account_id v2).1 in
              let one = update_password-SameRows msg.password msg.account_id v ne in
              let two =
                SameRows-trans k v.hub.db v1.hub.db v2.hub.db one
                  (update_disabled-SameRows msg.disabled msg.account_id v1 ne) in
              let three =
                SameRows-trans k v.hub.db v2.hub.db v3.hub.db two
                  (set_required_role-SameRows msg.required_role_id msg.account_id v2 ne) in
              ground (arith, e, SameRows-refl k v.hub.db, one, two, three)
        ]

  pub remove_account-SameRows :
      (v : Server s) (account : ℕ)
      → IsForeign v.hub.db actor k
      → SameRows k v.hub.db (remove_account s actor (some account) v).1.hub.db
  unfolding remove_account run_store audit
  remove_account-SameRows v account foreign = elim (passed_ne v account false false foreign) [
    | inl (reason, e) ↦ ground (arith, e, SameRows-refl k v.hub.db)
    | inr (e, ne) ↦
        ground (arith, e, SameRows-refl k v.hub.db, delete_eq_account-Keeps k account ne v.hub.db)
  ]

  pub delete_character-SameRows :
      (v : Server s) (msg : NameOf)
      → IsForeign v.hub.db actor k
      → SameRows k v.hub.db (delete_character s actor (some msg) v).1.hub.db
  unfolding delete_character run_store audit
  delete_character-SameRows v msg foreign = elim (passed_ne v msg.account_id false false foreign) [
    | inl (reason, e) ↦ ground (arith, e, SameRows-refl k v.hub.db)
    | inr (e, ne) ↦ ground (
      arith,
      e,
      SameRows-refl k v.hub.db,
      remove_character-Keeps k msg.account_id ne s.low (trim_space msg.name) v.hub.db,
    )
  ]

  pub set_user_access-SameRows :
      (v : Server s) (msg : UserAccess)
      → SameRows k v.hub.db (set_user_access s actor (some msg) v).1.hub.db
  unfolding set_user_access run_store audit set_user_access_revoked disconnect_user
      notify_state_listeners
  set_user_access-SameRows v msg = ground arith

  pub add_account-SameRows :
      (v : Server s) (msg : AddAccount)
      → v.hub.db.next_account ≢ k
      → SameRows k v.hub.db (add_account s actor (some msg) v).1.hub.db
  unfolding add_account run_store audit
  add_account-SameRows v msg ne =
      let stored =
        add_eq_account s.vault s.low (trim_space msg.username) msg.password (s.nonce v.hub.time)
          (s.nonce (suc v.hub.time)) v.hub.db in
      let one =
        add_eq_account-Keeps k s.vault s.low (trim_space msg.username) msg.password
          (s.nonce v.hub.time) (s.nonce (suc v.hub.time)) v.hub.db ne in
      let v2 =
        with_db s stored.1 (record v { hub = record v.hub { time = suc (suc v.hub.time) } }) in
      let two =
        SameRows-trans k v.hub.db stored.1
          (set_required_role s msg.required_role_id v.hub.db.next_account v2).1.hub.db one
          (set_required_role-SameRows msg.required_role_id v.hub.db.next_account v2 ne) in
      elim (add_eq_account_id s.vault s.low (trim_space msg.username) msg.password
        (s.nonce v.hub.time) (s.nonce (suc v.hub.time)) v.hub.db) [
          | inl e ↦ ground (arith, e, SameRows-refl k v.hub.db, one, two)
          | inr (reason, e) ↦ ground (arith, e, SameRows-refl k v.hub.db, one)
        ]
