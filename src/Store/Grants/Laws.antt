-- ===== src/Store/Grants/Laws.antt =====
-- What `SetAccountAccess` leaves in the three grant tables, in terms of who may use the account.
use alfred_identity_backend.Common.{ℕ, ◌≡◌, ◌≢◌, ◌↔◌, refl, ◌∙◌, true, List, [], Text, In, All}
use alfred_identity_backend.Common.Strings.{clean_ids, clean_texts}
use alfred_identity_backend.Store.Db.{Db, GroupMember, ok}
use alfred_identity_backend.Store.Access.Spec.{HasRole, Member, ByRole, ByUser, ByGroup}
use alfred_identity_backend.Store.Grants.{
  account_exists_in, user_exists_in, group_exists_in, set_account_access,
}
use alfred_identity_backend.Store.Grants.Rows.{
  account_exists-update, roles_replaced, users_replaced, groups_replaced, replace_account_roles_lem,
  replace_account_users_lem, replace_account_groups_lem, ByRole-after, ByRole-frame, ByUser-after,
  ByUser-frame, ByGroup-after, ByGroup-frame,
}

module _ (account : ℕ) (db : Db) (exists : account_exists_in db account ≡ true) (rs : List Text)
    (us gs : List ℕ) (users_known : All (λ u. user_exists_in db u ≡ true) (clean_ids [] us))
    (groups_known : All (λ g. group_exists_in db g ≡ true) (clean_ids [] gs)) where
  abbrev db₁ : Db
  db₁ = roles_replaced account db (clean_texts [] rs)

  exists₁ : account_exists_in db₁ account ≡ true
  exists₁ = account_exists-update account account _ db.eq_accounts (λ a. refl) ∙ exists

  abbrev db₂ : Db
  db₂ = users_replaced account db₁ (clean_ids [] us)

  exists₂ : account_exists_in db₂ account ≡ true
  exists₂ = account_exists-update account account _ db₁.eq_accounts (λ a. refl) ∙ exists₁

  abbrev pub granted : Db
  granted = groups_replaced account db₂ (clean_ids [] gs)

  -- For an account, users and groups that exist, SetAccountAccess succeeds, and then exactly the
  -- given roles, users and groups have a grant for the account (blanks, repetitions and numbers
  -- that are not positive set aside), and the grants of other accounts are those of before.
  pub set_account_access_lem :
      (set_account_access account rs us gs db ≡ (ok tt, granted))
      × ((uid : ℕ)
          → (ByRole granted uid account
              ↔ ((r : Text) × In r (clean_texts [] rs) × HasRole db uid r))
            × (ByUser granted uid account ↔ In uid (clean_ids [] us))
            × (ByGroup granted uid account ↔ (
                (m : GroupMember) × In m db.group_members
                × In m.group_id (clean_ids [] gs)
                × Member db uid m)))
      × ((uid b : ℕ)
          → b ≢ account
          → (ByRole granted uid b ↔ ByRole db uid b)
            × (ByUser granted uid b ↔ ByUser db uid b)
            × (ByGroup granted uid b ↔ ByGroup db uid b))
  unfolding set_account_access
  set_account_access_lem = (
    rw (replace_account_roles_lem account db exists rs) (
        rw (replace_account_users_lem account db₁ exists₁ us users_known)
          (replace_account_groups_lem account db₂ exists₂ gs groups_known)),
    λ uid. (
      ByRole-after account db exists (clean_texts [] rs) uid,
      ByUser-after account db₁ exists₁ (clean_ids [] us) uid,
      ByGroup-after account db₂ exists₂ (clean_ids [] gs) uid,
    ),
    λ uid b ne. (
      ByRole-frame account db exists (clean_texts [] rs) uid b ne,
      ByUser-frame account db₁ exists₁ (clean_ids [] us) uid b ne,
      ByGroup-frame account db₂ exists₂ (clean_ids [] gs) uid b ne,
    ),
  )
