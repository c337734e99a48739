-- ===== src/Store/Shares/Laws.antt =====
-- Who gets a private share, who may change one, and that the owner is never a recipient.
use alfred_identity_backend.Common.{
  ℕ, ◌<◌, ◌≡◌, ◌≢◌, ◌⊎◌, ◌↔◌, inl, inr, refl, sym, ◌∙◌, ap, subst, Bool, true, false, not, ◌||◌,
  List, [], ◌∷◌, ◌++◌, map, some, ◌==◌, ==_iff, if◌then◌else◌, Text, text_eq, text_eq_iff, any,
  none_any, find, In, In-keep, In-keep_inv, In-append, In-map, In-map_inv, All, arith,
}
use mathlib.Core.List.{append-nil, append_assoc}
use alfred_identity_backend.Common.Bytes.{Bytes}
use alfred_identity_backend.Common.Strings.{trim_space, clean_ids, clean_ids-In, Lowering}
use alfred_identity_backend.Crypto.Aead.{Vault}
use alfred_identity_backend.Store.Db.{
  Db, User, EqAccount, AccountUser, ok, err, account_exists, not_yours,
}
use alfred_identity_backend.Store.Access.Spec.{SharedWith}
use alfred_identity_backend.Store.Grants.{account_exists_in, for_each}
use alfred_identity_backend.Store.Grants.Loop.{user_row, same_user}
use alfred_identity_backend.Store.Accounts.{find_eq_account_id_by_username, delete_eq_account}
use alfred_identity_backend.Store.Shares.{
  delete_shares, insert_share, replace_account_shares, find_account, is_owned, update_shared,
  share_local_account, unshare_account, unshare_local_account,
}

any-append :
    {A : Type 0} (p : A → Bool) (xs : List A) (y : A) → any p (xs ++ y ∷ []) ≡ (any p xs || p y)
any-append p [] y = ground arith
any-append p (x ∷ xs) y = ground (arith, any-append p xs y)

-- Each number stands in the list once.
abbrev Unique : List ℕ → Type 0
Unique [] = Unit {0}
Unique (x ∷ xs) = (any (λ k. k == x) xs ≡ false) × Unique xs

clean_ids-Unique : (seen xs : List ℕ) → Unique (clean_ids seen xs)
unfolding clean_ids
clean_ids-Unique seen [] = tt
clean_ids-Unique seen (x ∷ xs) =
    let once : any (λ k. k == x) (clean_ids (x ∷ seen) xs) ≡ false =
      none_any (λ k. k == x) (clean_ids (x ∷ seen) xs)
        (λ k i. let (_, _, unseen) = (clean_ids-In (x ∷ seen) xs k).0 i in ground arith) in
    ground (arith, once, clean_ids-Unique seen xs, clean_ids-Unique (x ∷ seen) xs)

module _ (account : ℕ) where
  -- The user exists and has access.
  abbrev pub Eligible : Db → ℕ → Type 0
  Eligible db user_id =
      (u : User) × (find (λ (w : User). w.id == user_id) db.users ≡ some u)
      × (u.access_revoked ≡ false)

  abbrev pub shared : Db → List ℕ → Db
  shared db us = record db { account_shares = db.account_shares ++ map (user_row account) us }

  abbrev Absent : Db → ℕ → Type 0
  Absent db u = any (same_user account u) db.account_shares ≡ false

  Absent-after :
      (u : ℕ) (db : Db) (us : List ℕ)
      → any (λ k. k == u) us ≡ false
      → All (Absent db) us
      → All (Absent (shared db (u ∷ []))) us
  Absent-after u db [] once absent = tt
  Absent-after u db (w ∷ us) once absent = (
    ground (arith, any-append (same_user account w) db.account_shares (user_row account u)),
    Absent-after u db us (ground arith) absent.1,
  )

  insert_share-shared :
      (u : ℕ) (db : Db)
      → account_exists_in db account ≡ true
      → Eligible db u
      → Absent db u
      → insert_share account u db ≡ (ok tt, shared db (u ∷ []))
  unfolding insert_share
  insert_share-shared u db exists (w, known, access) absent =
      rw (known, insert_share) (ground arith)

  shares_loop :
      (us : List ℕ) (db : Db)
      → account_exists_in db account ≡ true
      → All (Eligible db) us
      → All (Absent db) us
      → Unique us
      → for_each (insert_share account) us db ≡ (ok tt, shared db us)
  shares_loop [] db exists eligible absent once =
      ap (λ s. (ok tt, record db { account_shares = s })) (sym (append-nil db.account_shares))
  shares_loop (u ∷ us) db exists eligible absent once =
      rw (insert_share-shared u db exists eligible.0 absent.0) (
        shares_loop us (shared db (u ∷ [])) exists eligible.1 (Absent-after u db us once.0 absent.1)
          once.1
        ∙ ap (λ s. (ok tt, record db { account_shares = s }))
            (append_assoc db.account_shares (user_row account u ∷ []) (map (user_row account) us)))

  deleted-Absent : (db : Db) (us : List ℕ) → All (Absent (delete_shares account db)) us
  deleted-Absent db [] = tt
  deleted-Absent db (u ∷ us) = (
    none_any (same_user account u) (delete_shares account db).account_shares (λ s i.
        let (_, t) =
          In-keep_inv (λ (s : AccountUser). not (s.eq_account_id == account)) s db.account_shares
            i in
        ground arith),
    deleted-Absent db us,
  )

  module _ (db : Db) (us : List ℕ) (exists : account_exists_in db account ≡ true)
      (eligible : All (Eligible db) (clean_ids [] us)) where
    abbrev pub with_shares : Db
    with_shares = shared (delete_shares account db) (clean_ids [] us)

    kept_or_new :
        (g : AccountUser)
        → In g with_shares.account_shares
        → (In g db.account_shares × (g.eq_account_id ≢ account))
          ⊎ (In g.user_id (clean_ids [] us) × (g.eq_account_id ≡ account))
    kept_or_new g i = elim ((In-append g _ _).0 i) [
      | inl old ↦
          let (j, t) =
            In-keep_inv (λ (s : AccountUser). not (s.eq_account_id == account)) g db.account_shares
              old in
          inl (j, ground arith)
      | inr new ↦
          let (u, j, q) = In-map_inv (user_row account) g (clean_ids [] us) new in
          inr (
            subst (λ k. In k (clean_ids [] us)) (ap (λ (x : AccountUser). x.user_id) q) j,
            sym (ap (λ (x : AccountUser). x.eq_account_id) q),
          )
    ]

    who : (uid : ℕ) → SharedWith with_shares uid account ↔ (In uid us × (0 < uid))
    who uid = (
      λ (g, i, e, is). elim (kept_or_new g i) [
        | inl (_, ne) ↦ absurd (ne e)
        | inr (new, _) ↦
            let (j, positive, _) =
              (clean_ids-In [] us uid).0 (subst (λ k. In k (clean_ids [] us)) is new) in
            (j, positive)
      ],
      λ (i, positive). (
        user_row account uid,
        (In-append (user_row account uid) _ _).1 (
            inr (
              In-map (user_row account) uid (clean_ids [] us)
                ((clean_ids-In [] us uid).1 (i, positive, refl)))),
        refl,
        refl,
      ),
    )

    frame : (uid b : ℕ) → b ≢ account → SharedWith with_shares uid b ↔ SharedWith db uid b
    frame uid b ne = (
      λ (g, i, e, is). elim (kept_or_new g i) [
        | inl (old, _) ↦ (g, old, e, is)
        | inr (_, own) ↦ absurd (ne (sym e ∙ own))
      ],
      λ (g, i, e, is). (
        g,
        (In-append g _ _).1 (
            inl (In-keep _ g db.account_shares i (ground (arith, ==_iff g.eq_account_id account)))),
        e,
        is,
      ),
    )

    -- For an account that exists and users who exist and have access, replaceAccountShares
    -- succeeds; then the account is shared with exactly these users (numbers that are not positive
    -- set aside), and other accounts with those of before.
    pub replace_account_shares_lem :
        (replace_account_shares account us db ≡ (ok tt, with_shares))
        × ((uid : ℕ) → SharedWith with_shares uid account ↔ (In uid us × (0 < uid)))
        × ((uid b : ℕ) → b ≢ account → SharedWith with_shares uid b ↔ SharedWith db uid b)
    unfolding replace_account_shares
    replace_account_shares_lem = (
      shares_loop (clean_ids [] us) (delete_shares account db) exists eligible
          (deleted-Absent db (clean_ids [] us)) (clean_ids-Unique [] us),
      who,
      frame,
    )

module _ (v : Vault) (low : Lowering) (owner : ℕ) (raw : Text) (db : Db) (account : ℕ)
    (a : EqAccount) (row : find_account db account ≡ some a) where
  -- For a user name whose account exists, UnshareLocalAccount does what DeleteEQAccount does if the
  -- account is a private share of the caller, and fails without writing if it is not.
  pub unshare_local_account_lem :
      find_eq_account_id_by_username v low raw db ≡ (ok (some account), db)
      → unshare_local_account v low owner raw db
        ≡ (if is_owned owner a then delete_eq_account account db else (err not_yours, db))
  unfolding unshare_local_account
  unshare_local_account_lem named = rw named (rw (row, unshare_account) refl)

  -- For a user name, not blank, whose account exists and is no private share of the caller,
  -- ShareLocalAccount fails and writes nothing.
  pub share_local_account_foreign :
      (password : Text) (n1 n2 : Bytes) (aliases : List Text) (users : List ℕ) (roles : List Text)
      (groups : List ℕ)
      → trim_space raw ≢ []
      → find_eq_account_id_by_username v low (trim_space raw) db ≡ (ok (some account), db)
      → is_owned owner a ≡ false
      → share_local_account v low owner raw password n1 n2 aliases users roles groups db
        ≡ (err account_exists, db)
  unfolding share_local_account update_shared
  share_local_account_foreign password n1 n2 aliases users roles groups filled named foreign =
      let not_blank : text_eq (trim_space raw) [] ≡ false =
        ground (arith, text_eq_iff (trim_space raw) []) in
      rw not_blank (rw named (rw (row, update_shared) (rw foreign refl)))
