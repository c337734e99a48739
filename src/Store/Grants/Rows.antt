-- ===== src/Store/Grants/Rows.antt =====
-- The three grant tables of `Store.Grants` after each replacement, row by row and by grant.
use alfred_identity_backend.Common.{
  ℕ, ◌≡◌, ◌≢◌, ◌↔◌, ◌⊎◌, inl, inr, refl, sym, ap, subst, ◌∙◌, true, not, List, [], ◌∷◌, map,
  if◌then◌else◌, ◌==◌, Text, any, In, In-keep, In-keep_inv, In-map, In-map_inv, All, arith,
}
use alfred_identity_backend.Common.Strings.{clean_ids, clean_texts}
use alfred_identity_backend.Store.Db.{
  Db, EqAccount, AccountUser, AccountRole, GroupLink, GroupMember, ok,
}
use alfred_identity_backend.Store.Access.Spec.{HasRole, Member, ByRole, ByUser, ByGroup}
use alfred_identity_backend.Store.Grants.{
  account_exists_in, user_exists_in, group_exists_in, head_text, head_id, update_account,
  delete_access_roles, delete_access_users, delete_group_links, replace_account_roles,
  replace_account_users, replace_account_groups,
}
use alfred_identity_backend.Store.Grants.Loop.{
  add_all, add_all-In, role_row, same_role, same_role_iff, user_row, same_user, same_user_iff,
  link_row, same_link, same_link_iff, roles_loop, users_loop, links_loop,
}

-- Changing other columns of a row leaves the accounts that there are.
pub account_exists-update :
    (account b : ℕ) (f : EqAccount → EqAccount) (rows : List EqAccount)
    → ((a : EqAccount) → (f a).id ≡ a.id)
    → any
        (λ (a : EqAccount). a.id == b)
        (map (λ (a : EqAccount). if a.id == account then f a else a) rows)
      ≡ any (λ (a : EqAccount). a.id == b) rows
account_exists-update account b f [] h = refl
account_exists-update account b f (a ∷ rows) h =
    ground (arith, h a, account_exists-update account b f rows h)

-- The database after each of the three replacements.
module _ (account : ℕ) (db : Db) where
  abbrev pub roles_replaced : List Text → Db
  roles_replaced rs =
      update_account account
        (λ (a : EqAccount). record a { required_discord_role_id = head_text rs })
        (record db {
          account_access_roles =
              add_all (role_row account) (same_role account) rs
                (delete_access_roles account db).account_access_roles;
        })

  abbrev pub users_replaced : List ℕ → Db
  users_replaced us =
      update_account account (λ (a : EqAccount). record a { required_user_id = head_id us })
        (record db {
          account_access_users =
              add_all (user_row account) (same_user account) us
                (delete_access_users account db).account_access_users;
        })

  abbrev pub groups_replaced : List ℕ → Db
  groups_replaced gs = record db {
    account_group_links =
        add_all (link_row account) (same_link account) gs
          (delete_group_links account db).account_group_links;
  }

module _ (account : ℕ) (db : Db) (exists : account_exists_in db account ≡ true) where
  pub replace_account_roles_lem :
      (rs : List Text)
      → replace_account_roles account rs db ≡ (ok tt, roles_replaced account db (clean_texts [] rs))
  unfolding replace_account_roles
  replace_account_roles_lem rs =
      rw (roles_loop account (clean_texts [] rs) (delete_access_roles account db) exists)

  pub replace_account_users_lem :
      (us : List ℕ)
      → All (λ u. user_exists_in db u ≡ true) (clean_ids [] us)
      → replace_account_users account us db ≡ (ok tt, users_replaced account db (clean_ids [] us))
  unfolding replace_account_users
  replace_account_users_lem us k =
      rw (users_loop account (clean_ids [] us) (delete_access_users account db) exists k)

  pub replace_account_groups_lem :
      (gs : List ℕ)
      → All (λ g. group_exists_in db g ≡ true) (clean_ids [] gs)
      → replace_account_groups account gs db ≡ (ok tt, groups_replaced account db (clean_ids [] gs))
  unfolding replace_account_groups
  replace_account_groups_lem gs k =
      rw (links_loop account (clean_ids [] gs) (delete_group_links account db) exists k)

  -- The rows of a replaced table: the other accounts' as before, and the account's new ones.
  pub role_rows :
      (rs : List Text) (r : AccountRole)
      → In r (roles_replaced account db rs).account_access_roles ↔ (
          (In r db.account_access_roles × (r.eq_account_id ≢ account))
          ⊎ In r (map (role_row account) rs))
  role_rows rs r = ground (
    arith,
    add_all-In (role_row account) (same_role account) (same_role_iff account) rs
        (delete_access_roles account db).account_access_roles r,
    In-keep (λ (x : AccountRole). not (x.eq_account_id == account)) r db.account_access_roles,
    In-keep_inv (λ (x : AccountRole). not (x.eq_account_id == account)) r db.account_access_roles,
  )

  pub user_rows :
      (us : List ℕ) (g : AccountUser)
      → In g (users_replaced account db us).account_access_users ↔ (
          (In g db.account_access_users × (g.eq_account_id ≢ account))
          ⊎ In g (map (user_row account) us))
  user_rows us g = ground (
    arith,
    add_all-In (user_row account) (same_user account) (same_user_iff account) us
        (delete_access_users account db).account_access_users g,
    In-keep (λ (x : AccountUser). not (x.eq_account_id == account)) g db.account_access_users,
    In-keep_inv (λ (x : AccountUser). not (x.eq_account_id == account)) g db.account_access_users,
  )

  pub link_rows :
      (gs : List ℕ) (l : GroupLink)
      → In l (groups_replaced account db gs).account_group_links ↔ (
          (In l db.account_group_links × (l.eq_account_id ≢ account))
          ⊎ In l (map (link_row account) gs))
  link_rows gs l = ground (
    arith,
    add_all-In (link_row account) (same_link account) (same_link_iff account) gs
        (delete_group_links account db).account_group_links l,
    In-keep (λ (x : GroupLink). not (x.eq_account_id == account)) l db.account_group_links,
    In-keep_inv (λ (x : GroupLink). not (x.eq_account_id == account)) l db.account_group_links,
  )

  pub ByRole-after :
      (rs : List Text) (uid : ℕ)
      → ByRole (roles_replaced account db rs) uid account
        ↔ ((r : Text) × In r rs × HasRole db uid r)
  ByRole-after rs uid = (
    λ (r, i, e, held). elim ((role_rows rs r).0 i) [
      | inl (_, ne) ↦ absurd (ne e)
      | inr new ↦
          let (role, j, q) = In-map_inv (role_row account) r rs new in
          (
            role,
            j,
            subst (HasRole db uid) (sym (ap (λ (x : AccountRole). x.discord_role_id) q)) held,
          )
    ],
    λ (role, j, held). (
      role_row account role,
      (role_rows rs (role_row account role)).1 (inr (In-map (role_row account) role rs j)),
      refl,
      held,
    ),
  )

  pub ByRole-frame :
      (rs : List Text) (uid b : ℕ)
      → b ≢ account
      → ByRole (roles_replaced account db rs) uid b ↔ ByRole db uid b
  ByRole-frame rs uid b ne = (
    λ (r, i, e, held). elim ((role_rows rs r).0 i) [
      | inl (old, _) ↦ (r, old, e, held)
      | inr new ↦
          let (role, j, q) = In-map_inv (role_row account) r rs new in absurd (ne (ground arith))
    ],
    λ (r, i, e, held). (r, (role_rows rs r).1 (inl (i, ground arith)), e, held),
  )

  pub ByUser-after :
      (us : List ℕ) (uid : ℕ) → ByUser (users_replaced account db us) uid account ↔ In uid us
  ByUser-after us uid = (
    λ (g, i, e, is). elim ((user_rows us g).0 i) [
      | inl (_, ne) ↦ absurd (ne e)
      | inr new ↦
          let (u, j, q) = In-map_inv (user_row account) g us new in
          subst (λ k. In k us) (ap (λ (x : AccountUser). x.user_id) q ∙ is) j
    ],
    λ j. (
      user_row account uid,
      (user_rows us (user_row account uid)).1 (inr (In-map (user_row account) uid us j)),
      refl,
      refl,
    ),
  )

  pub ByUser-frame :
      (us : List ℕ) (uid b : ℕ)
      → b ≢ account
      → ByUser (users_replaced account db us) uid b ↔ ByUser db uid b
  ByUser-frame us uid b ne = (
    λ (g, i, e, is). elim ((user_rows us g).0 i) [
      | inl (old, _) ↦ (g, old, e, is)
      | inr new ↦
          let (u, j, q) = In-map_inv (user_row account) g us new in absurd (ne (ground arith))
    ],
    λ (g, i, e, is). (g, (user_rows us g).1 (inl (i, ground arith)), e, is),
  )

  pub ByGroup-after :
      (gs : List ℕ) (uid : ℕ)
      → ByGroup (groups_replaced account db gs) uid account
        ↔ ((m : GroupMember) × In m db.group_members × In m.group_id gs × Member db uid m)
  ByGroup-after gs uid = (
    λ (l, m, i, k, e, same, is). elim ((link_rows gs l).0 i) [
      | inl (_, ne) ↦ absurd (ne e)
      | inr new ↦
          let (g, j, q) = In-map_inv (link_row account) l gs new in
          (m, k, subst (λ x. In x gs) (ap (λ (x : GroupLink). x.group_id) q ∙ sym same) j, is)
    ],
    λ (m, k, j, is). (
      link_row account m.group_id,
      m,
      (link_rows gs (link_row account m.group_id)).1
          (inr (In-map (link_row account) m.group_id gs j)),
      k,
      refl,
      refl,
      is,
    ),
  )

  pub ByGroup-frame :
      (gs : List ℕ) (uid b : ℕ)
      → b ≢ account
      → ByGroup (groups_replaced account db gs) uid b ↔ ByGroup db uid b
  ByGroup-frame gs uid b ne = (
    λ (l, m, i, k, e, same, is). elim ((link_rows gs l).0 i) [
      | inl (old, _) ↦ (l, m, old, k, e, same, is)
      | inr new ↦
          let (g, j, q) = In-map_inv (link_row account) l gs new in absurd (ne (ground arith))
    ],
    λ (l, m, i, k, e, same, is). (l, m, (link_rows gs l).1 (inl (i, ground arith)), k, e, same, is),
  )
