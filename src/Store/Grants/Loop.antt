-- ===== src/Store/Grants/Loop.antt =====
-- The insertion loops of the grants: rows are added that are not there yet.
use alfred_identity_backend.Common.{
  ℕ, ◌≡◌, ◌↔◌, ◌⊎◌, inl, inr, refl, sym, subst, ◌∙◌, Bool, true, ◌&&◌, List, [], ◌∷◌, ◌++◌, map,
  if◌then◌else◌, ◌==◌, Text, text_eq, text_eq_iff, any, any_iff, In, In-append, All, arith,
  Bool-cases,
}
use alfred_identity_backend.Store.Db.{Db, AccountUser, AccountRole, GroupLink, ok}
use alfred_identity_backend.Store.Grants.{
  account_exists_in, user_exists_in, group_exists_in, for_each, insert_access_role,
  insert_access_user, insert_group_link,
}

module _ {A B : Type 0} (row : B → A) (same : B → A → Bool) where
  -- Each item's row is appended, unless a row of the table stands for the item already.
  unfoldable pub add_all : List B → List A → List A
  add_all [] t = t
  add_all (b ∷ bs) t = add_all bs (if any (same b) t then t else t ++ row b ∷ [])

  pub add_all-In :
      ((b : B) (a : A) → (same b a ≡ true) ↔ (row b ≡ a))
      → (bs : List B) (t : List A) (a : A) → In a (add_all bs t) ↔ (In a t ⊎ In a (map row bs))
  unfolding add_all
  add_all-In exact [] t a = (λ h. inl h, λ h. elim h [ inl x ↦ x | inr y ↦ absurd y ])
  add_all-In exact (b ∷ bs) t a = elim (Bool-cases (any (same b) t)) [
    | inl there ↦
        let (x, i, e) = (any_iff (same b) t).0 there in
        let known : row b ≡ a → In a t = λ q. subst (λ y. In y t) (sym ((exact b x).0 e) ∙ q) i in
        rw there (ground (arith, known, add_all-In exact bs t a))
    | inr fresh ↦
        rw fresh
          (ground (arith, In-append a t (row b ∷ []), add_all-In exact bs (t ++ row b ∷ []) a))
  ]

abbrev pub role_row : ℕ → Text → AccountRole
role_row account role = record { eq_account_id = account; discord_role_id = role }

abbrev pub same_role : ℕ → Text → AccountRole → Bool
same_role account role r = r.eq_account_id == account && text_eq r.discord_role_id role

abbrev pub user_row : ℕ → ℕ → AccountUser
user_row account user_id = record { eq_account_id = account; user_id = user_id }

abbrev pub same_user : ℕ → ℕ → AccountUser → Bool
same_user account user_id g = g.eq_account_id == account && g.user_id == user_id

abbrev pub link_row : ℕ → ℕ → GroupLink
link_row account group = record { group_id = group; eq_account_id = account }

abbrev pub same_link : ℕ → ℕ → GroupLink → Bool
same_link account group l = l.eq_account_id == account && l.group_id == group

pub same_role_iff :
    (account : ℕ) (role : Text) (r : AccountRole)
    → (same_role account role r ≡ true) ↔ (role_row account role ≡ r)
same_role_iff account role r = ground (arith, text_eq_iff r.discord_role_id role)

pub same_user_iff :
    (account user_id : ℕ) (g : AccountUser)
    → (same_user account user_id g ≡ true) ↔ (user_row account user_id ≡ g)
same_user_iff account user_id g = ground arith

pub same_link_iff :
    (account group : ℕ) (l : GroupLink)
    → (same_link account group l ≡ true) ↔ (link_row account group ≡ l)
same_link_iff account group l = ground arith

pub roles_loop :
    (account : ℕ) (rs : List Text) (db : Db)
    → account_exists_in db account ≡ true
    → for_each (insert_access_role account) rs db ≡ (
      ok tt,
      record db {
        account_access_roles =
            add_all (role_row account) (same_role account) rs db.account_access_roles;
      },
    )
unfolding insert_access_role add_all
roles_loop account [] db h = refl
roles_loop account (r ∷ rs) db h =
    elim (Bool-cases (any (same_role account r) db.account_access_roles)) [
      | inl e ↦ rw (e, insert_access_role) (roles_loop account rs db h)
      | inr e ↦ rw (e, insert_access_role) (rw h (roles_loop account rs _ h))
    ]

pub users_loop :
    (account : ℕ) (us : List ℕ) (db : Db)
    → account_exists_in db account ≡ true
    → All (λ u. user_exists_in db u ≡ true) us
    → for_each (insert_access_user account) us db ≡ (
      ok tt,
      record db {
        account_access_users =
            add_all (user_row account) (same_user account) us db.account_access_users;
      },
    )
unfolding insert_access_user add_all
users_loop account [] db h k = refl
users_loop account (u ∷ us) db h k =
    elim (Bool-cases (any (same_user account u) db.account_access_users)) [
      | inl e ↦ rw (e, insert_access_user) (users_loop account us db h k.1)
      | inr e ↦ rw (e, insert_access_user) (rw (h, k.0) (users_loop account us _ h k.1))
    ]

pub links_loop :
    (account : ℕ) (gs : List ℕ) (db : Db)
    → account_exists_in db account ≡ true
    → All (λ g. group_exists_in db g ≡ true) gs
    → for_each (insert_group_link account) gs db ≡ (
      ok tt,
      record db {
        account_group_links =
            add_all (link_row account) (same_link account) gs db.account_group_links;
      },
    )
unfolding insert_group_link add_all
links_loop account [] db h k = refl
links_loop account (g ∷ gs) db h k =
    elim (Bool-cases (any (same_link account g) db.account_group_links)) [
      | inl e ↦ rw (e, insert_group_link) (links_loop account gs db h k.1)
      | inr e ↦ rw (e, insert_group_link) (rw (h, k.0) (links_loop account gs _ h k.1))
    ]
