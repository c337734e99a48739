-- ===== src/Store/Accounts/Laws.antt =====
-- What a new account is found by and opens to, and what changing and deleting it do.
use alfred_identity_backend.Common.{
  ℕ, suc, ◌≡◌, ◌≢◌, ◌⊎◌, inl, inr, refl, sym, subst, Bool, true, false, not, ◌&&◌, ◌||◌, List, [],
  ◌∷◌, map, none, some, ◌==◌, ==_refl, ==_iff, if◌then◌else◌, length, Text, codes, text_eq,
  text_eq_iff, text_eq_refl, any, find, keep, In, In-keep, In-keep_inv, arith, Option-cases,
}
use alfred_identity_backend.Common.Bytes.{Bytes}
use alfred_identity_backend.Common.Strings.{trim_space, Lowering}
use alfred_identity_backend.Crypto.Aead.{Vault, seal, open_blob, open_blob-seal}
use alfred_identity_backend.Store.Db.{
  Db, Result, EqAccount, AccountName, AccountUser, AccountRole, GroupLink, ok,
}
use alfred_identity_backend.Store.Grants.{account_exists_in}
use alfred_identity_backend.Store.Credentials.{decrypt_credentials}
use alfred_identity_backend.Store.Accounts.{
  blind_of, new_row, add_eq_account, find_eq_account_id_by_username, set_eq_password,
  delete_account, delete_eq_account,
}

module _ (v : Vault) (low : Lowering) (username password : Text) (n1 n2 : Bytes)
    (s1 : length n1 ≡ v.gcm.nonce_size) (s2 : length n2 ≡ v.gcm.nonce_size) (db : Db) where
  abbrev pub with_account : Db
  with_account = record db {
    eq_accounts = new_row v low db.next_account username password n1 n2 ∷ db.eq_accounts;
    next_account = suc db.next_account;
  }

  row_opens :
      decrypt_credentials v db.next_account false with_account
      ≡ (ok (username, password), with_account)
  unfolding decrypt_credentials seal
  row_opens = ground (
    arith,
    ==_refl db.next_account,
    open_blob-seal v.gcm n1 username (codes "eq_accounts.username") s1,
    open_blob-seal v.gcm n2 password (codes "eq_accounts.password") s2,
  )

  -- With nonces of the right size, if no account has the user name's blind index and the trimmed
  -- and lowered user name is not blank, AddEQAccount succeeds, the new account opens to the given
  -- credentials, and is found by the user name.
  pub add_eq_account_lem :
      any (λ (a : EqAccount). text_eq a.username_blind (blind_of v low username)) db.eq_accounts
        ≡ false
      → low.to_lower (trim_space username) ≢ []
      → (add_eq_account v low username password n1 n2 db ≡ (ok db.next_account, with_account))
        × (decrypt_credentials v db.next_account false with_account
            ≡ (ok (username, password), with_account))
        × (find_eq_account_id_by_username v low username with_account
            ≡ (ok (some db.next_account), with_account))
  unfolding add_eq_account seal find_eq_account_id_by_username
  add_eq_account_lem free filled = (
    ground arith,
    row_opens,
    ground (
      arith,
      text_eq_refl (blind_of v low username),
      text_eq_iff (low.to_lower (trim_space username)) [],
    ),
  )

find-update :
    (account : ℕ) (f : EqAccount → EqAccount) (p : EqAccount → Bool) (rows : List EqAccount)
    → ((a : EqAccount) → (f a).id ≡ a.id)
    → find
        (λ (a : EqAccount). a.id == account && p a)
        (map (λ (a : EqAccount). if a.id == account then f a else a) rows)
      ≡ elim (find (λ (a : EqAccount). a.id == account && p (f a)) rows) [
        | none ↦ none
        | some a ↦ some (f a)
      ]
find-update account f p [] same = refl
find-update account f p (a ∷ rows) same =
    ground (arith, find-update account f p rows same, same a, ==_iff a.id account)

module _ (v : Vault) (account : ℕ) (db : Db) where
  -- If an account opens to a user name and a password, then after SetEQPassword with a nonce of the
  -- right size it opens to the same user name and the new password.
  pub set_eq_password_lem :
      (low : Lowering) (u p password : Text) (nonce : Bytes)
      → length nonce ≡ v.gcm.nonce_size
      → (decrypt_credentials v account false db).0 ≡ ok (u, p)
      → (decrypt_credentials v account false (set_eq_password v low account password nonce db).1).0
        ≡ ok (u, password)
  unfolding decrypt_credentials set_eq_password seal
  set_eq_password_lem low u p password nonce size before =
      let f : EqAccount → EqAccount = λ (a : EqAccount). record a {
        password_cipher = seal v.gcm nonce password (codes "eq_accounts.password");
      } in
      let opens = open_blob-seal v.gcm nonce password (codes "eq_accounts.password") size in
      rw
        (find-update account f (λ (a : EqAccount). false || not a.disabled) db.eq_accounts
          (λ a. refl))
        (elim (Option-cases
          (find (λ (a : EqAccount). a.id == account && (false || not a.disabled)) db.eq_accounts)) [
            | inl e ↦ ground arith
            | inr (a, e) ↦
                rw e
                  (elim (Option-cases
                    (open_blob v.gcm a.username_cipher (codes "eq_accounts.username"))) [
                      | inl f ↦ ground arith
                      | inr (w, f) ↦
                          elim (Option-cases
                            (open_blob v.gcm a.password_cipher (codes "eq_accounts.password"))) [
                              | inl g ↦ ground arith
                              | inr (q, g) ↦ ground (arith, opens)
                            ]
                    ])
          ])

module _ (account : ℕ) where
  -- The account is in no table.
  abbrev pub Gone : Db → Type 0
  Gone d =
      ((a : EqAccount) → In a d.eq_accounts → a.id ≢ account)
      × ((n : AccountName)
          → In n d.aliases ⊎ (In n d.account_tags ⊎ In n d.characters)
          → n.eq_account_id ≢ account)
      × ((l : GroupLink) → In l d.account_group_links → l.eq_account_id ≢ account)
      × ((s : AccountUser)
          → In s d.account_shares ⊎ In s d.account_access_users
          → s.eq_account_id ≢ account)
      × ((r : AccountRole) → In r d.account_access_roles → r.eq_account_id ≢ account)

  kept_other :
      {A : Type 0} (id : A → ℕ) (rows : List A) (x : A)
      → In x (keep (λ y. not (id y == account)) rows)
      → id x ≢ account
  kept_other id rows x i =
      let (_, t) = In-keep_inv (λ y. not (id y == account)) x rows i in
      ground (arith, ==_iff (id x) account)

  module _ (db : Db) where
    abbrev Done : Result (Unit {0}) × Db → Type 0
    Done r =
        (r.0 ≡ ok tt)
        × Gone r.1
        × ((a : EqAccount) → In a db.eq_accounts → a.id ≢ account → In a r.1.eq_accounts)
        × ((n : AccountName) → In n db.aliases → n.eq_account_id ≢ account → In n r.1.aliases)
        × ((s : AccountUser)
            → In s db.account_shares
            → s.eq_account_id ≢ account
            → In s r.1.account_shares)

    deleted :
        account_exists_in db account ≡ true
        → delete_eq_account account db ≡ (ok tt, delete_account account db)
    unfolding delete_eq_account
    deleted known = ground arith

    -- For an account that exists, DeleteEQAccount succeeds, no table mentions the account any more,
    -- and the accounts, aliases and shares of others stay.
    pub delete_eq_account_lem :
        account_exists_in db account ≡ true
        → ((delete_eq_account account db).0 ≡ ok tt)
          × Gone (delete_eq_account account db).1
          × ((a : EqAccount)
              → In a db.eq_accounts
              → a.id ≢ account
              → In a (delete_eq_account account db).1.eq_accounts)
          × ((n : AccountName)
              → In n db.aliases
              → n.eq_account_id ≢ account
              → In n (delete_eq_account account db).1.aliases)
          × ((s : AccountUser)
              → In s db.account_shares
              → s.eq_account_id ≢ account
              → In s (delete_eq_account account db).1.account_shares)
    delete_eq_account_lem known = subst Done (sym (deleted known)) (
      refl,
      (
        λ a i. kept_other (λ (x : EqAccount). x.id) db.eq_accounts a i,
        λ n i. elim i [
          | inl j ↦ kept_other (λ (x : AccountName). x.eq_account_id) db.aliases n j
          | inr k ↦ elim k [
            | inl j ↦ kept_other (λ (x : AccountName). x.eq_account_id) db.account_tags n j
            | inr j ↦ kept_other (λ (x : AccountName). x.eq_account_id) db.characters n j
          ]
        ],
        λ l i. kept_other (λ (x : GroupLink). x.eq_account_id) db.account_group_links l i,
        λ s i. elim i [
          | inl j ↦ kept_other (λ (x : AccountUser). x.eq_account_id) db.account_shares s j
          | inr j ↦ kept_other (λ (x : AccountUser). x.eq_account_id) db.account_access_users s j
        ],
        λ r i. kept_other (λ (x : AccountRole). x.eq_account_id) db.account_access_roles r i,
      ),
      λ a i ne. In-keep _ a db.eq_accounts i (ground (arith, ==_iff a.id account)),
      λ n i ne. In-keep _ n db.aliases i (ground (arith, ==_iff n.eq_account_id account)),
      λ s i ne. In-keep _ s db.account_shares i (ground (arith, ==_iff s.eq_account_id account)),
    )
