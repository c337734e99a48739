-- ===== src/Store/Access/Spec.antt =====
-- Who may use an account, as the comment on `AllowedAccountIDs` states it.
use alfred_identity_backend.Common.{
  ℕ, ◌≡◌, ◌≢◌, ◌⊎◌, ◌↔◌, inl, inr, refl, subst, true, false, ◌||◌, List, [], ◌∷◌, map, Option, none,
  some, ◌==◌, Text, text_eq, text_eq_iff, any_iff, any-text_eq, keep, In, In-keep, In-keep_inv,
  In-map, In-map_inv, found_any, not_any, none_any, arith, Bool-cases, or_states, and_states,
  not_states, itself_states,
}
use alfred_identity_backend.Common.Sort.{sort_by_id, sort_by_id-In, Ascending, sort_by_id-Ascending}
use alfred_identity_backend.Store.Db.{
  ok, Db, User, EqAccount, GroupMember, GroupLink, AccountUser, AccountRole,
}
use alfred_identity_backend.Store.Access.{
  is_some_of, user_has_role, member_by_role, shared_with, granted_by_role, granted_by_user,
  granted_by_group, is_member, opens_to, has_no_grants, is_allowed, account_id, allowed_account_ids,
}

module _ (db : Db) (user_id : ℕ) where
  -- The user's row lists the role.
  abbrev pub HasRole : Text → Type 0
  HasRole role = (u : User) × In u db.users × (u.id ≡ user_id) × In role u.role_ids

  -- The row makes the user a member, directly or by a Discord role.
  abbrev pub Member : GroupMember → Type 0
  Member m =
      (m.user_id ≡ some user_id)
      ⊎ ((role : Text) × (m.discord_role_id ≡ some role) × (role ≢ []) × HasRole role)

  abbrev pub SharedWith : ℕ → Type 0
  SharedWith account =
      (s : AccountUser) × In s db.account_shares
      × (s.eq_account_id ≡ account)
      × (s.user_id ≡ user_id)

  abbrev pub ByRole : ℕ → Type 0
  ByRole account =
      (r : AccountRole) × In r db.account_access_roles
      × (r.eq_account_id ≡ account)
      × HasRole r.discord_role_id

  abbrev pub ByUser : ℕ → Type 0
  ByUser account =
      (g : AccountUser) × In g db.account_access_users
      × (g.eq_account_id ≡ account)
      × (g.user_id ≡ user_id)

  abbrev pub ByGroup : ℕ → Type 0
  ByGroup account =
      (l : GroupLink) × (m : GroupMember) × In l db.account_group_links
      × In m db.group_members
      × (l.eq_account_id ≡ account)
      × (m.group_id ≡ l.group_id)
      × Member m

  -- No role, user or group is named for the account.
  abbrev pub NoGrants : ℕ → Type 0
  NoGrants account =
      ((r : AccountRole) → In r db.account_access_roles → r.eq_account_id ≢ account)
      × ((g : AccountUser) → In g db.account_access_users → g.eq_account_id ≢ account)
      × ((l : GroupLink) → In l db.account_group_links → l.eq_account_id ≢ account)

  -- A private share is for its owner, its recipients, and the roles and groups linked to it; any
  -- other account for everybody, or for those whom a role, user or group grant names.
  abbrev pub MayUse : EqAccount → Type 0
  MayUse a =
      (a.disabled ≡ false)
      × (((a.restricted ≡ true)
            × ((a.owner_user_id ≡ some user_id) ⊎ (SharedWith a.id ⊎ (ByRole a.id ⊎ ByGroup a.id))))
          ⊎ ((a.restricted ≡ false)
              × (NoGrants a.id ⊎ (ByRole a.id ⊎ (ByUser a.id ⊎ ByGroup a.id)))))

  pub user_has_role_iff : (role : Text) → (user_has_role db user_id role ≡ true) ↔ HasRole role
  unfolding user_has_role
  user_has_role_iff role = (
    λ h.
        let (u, i, e) = (any_iff _ db.users).0 h in
        (u, i, ground arith, (any-text_eq role u.role_ids).0 (ground arith)),
    λ (u, i, e, j).
        found_any _ u db.users i (rw ((any-text_eq role u.role_ids).1 j) (ground arith)),
  )

  shared_with_iff : (account : ℕ) → (shared_with db user_id account ≡ true) ↔ SharedWith account
  unfolding shared_with
  shared_with_iff account = (
    λ h. let (s, i, e) = (any_iff _ db.account_shares).0 h in (s, i, ground arith, ground arith),
    λ (s, i, e, f). found_any _ s db.account_shares i (ground arith),
  )

  granted_by_user_iff : (account : ℕ) → (granted_by_user db user_id account ≡ true) ↔ ByUser account
  unfolding granted_by_user
  granted_by_user_iff account = (
    λ h.
        let (g, i, e) = (any_iff _ db.account_access_users).0 h in
        (g, i, ground arith, ground arith),
    λ (g, i, e, f). found_any _ g db.account_access_users i (ground arith),
  )

  granted_by_role_iff : (account : ℕ) → (granted_by_role db user_id account ≡ true) ↔ ByRole account
  unfolding granted_by_role
  granted_by_role_iff account = (
    λ h.
        let (r, i, e) = (any_iff _ db.account_access_roles).0 h in
        (r, i, ground arith, (user_has_role_iff r.discord_role_id).0 (ground arith)),
    λ (r, i, e, f).
        let held = (user_has_role_iff r.discord_role_id).1 f in
        found_any _ r db.account_access_roles i (ground arith),
  )

  pub some_of_iff : (k : Option ℕ) → (is_some_of user_id k ≡ true) ↔ (k ≡ some user_id)
  some_of_iff none = (λ h. cc, λ h. cc)
  some_of_iff (some k) = (λ h. ground arith, λ h. ground arith)

  by_role_iff :
      (role : Option Text)
      → (member_by_role db user_id role ≡ true)
        ↔ ((r : Text) × (role ≡ some r) × (r ≢ []) × HasRole r)
  by_role_iff none = (λ h. cc, λ (r, e, _, _). cc)
  by_role_iff (some r) = (
    λ h. (
      r,
      refl,
      λ e. ground (arith, (text_eq_iff r []).1 e),
      (user_has_role_iff r).0 (ground arith),
    ),
    λ (s, e, filled, held).
        let has : user_has_role db user_id r ≡ true =
          (user_has_role_iff r).1 (subst HasRole (ground arith) held) in
        elim (Bool-cases (text_eq r [])) [
          | inl empty ↦ absurd (filled (ground (arith, (text_eq_iff r []).0 empty)))
          | inr full ↦ rw (full, has)
        ],
  )

  Member-iff :
      (m : GroupMember)
      → ((is_some_of user_id m.user_id || member_by_role db user_id m.discord_role_id) ≡ true)
        ↔ Member m
  Member-iff m = or_states _ _ (some_of_iff m.user_id) (by_role_iff m.discord_role_id)

  granted_by_group_iff :
      (account : ℕ) → (granted_by_group db user_id account ≡ true) ↔ ByGroup account
  unfolding granted_by_group
  granted_by_group_iff account = (
    λ h.
        let (l, i, e) = (any_iff (opens_to db user_id account) db.account_group_links).0 h in
        let (m, j, f) =
          (any_iff (is_member db user_id l.group_id) db.group_members).0 (ground arith) in
        (l, m, i, j, ground arith, ground arith, (Member-iff m).0 (ground arith)),
    λ (l, m, i, j, e, f, g).
        let held = (Member-iff m).1 g in
        let inside =
          found_any (is_member db user_id l.group_id) m db.group_members j (ground arith) in
        found_any (opens_to db user_id account) l db.account_group_links i (ground arith),
  )

  has_no_grants_iff : (account : ℕ) → (has_no_grants db account ≡ true) ↔ NoGrants account
  unfolding has_no_grants
  has_no_grants_iff account = (
    λ h. (
      λ r i e. ground (
        arith,
        not_any (λ (r : AccountRole). r.eq_account_id == account) r db.account_access_roles,
      ),
      λ r i e. ground (
        arith,
        not_any (λ (r : AccountUser). r.eq_account_id == account) r db.account_access_users,
      ),
      λ r i e.
          ground (
            arith,
            not_any (λ (r : GroupLink). r.eq_account_id == account) r db.account_group_links,
          ),
    ),
    λ (n1, n2, n3). rw (
      none_any (λ (r : AccountRole). r.eq_account_id == account) db.account_access_roles
          (λ r i. ground (arith, n1 r i)),
      none_any (λ (r : AccountUser). r.eq_account_id == account) db.account_access_users
          (λ r i. ground (arith, n2 r i)),
      none_any (λ (r : GroupLink). r.eq_account_id == account) db.account_group_links
          (λ r i. ground (arith, n3 r i)),
    ),
  )

  pub is_allowed_iff : (a : EqAccount) → (is_allowed db user_id a ≡ true) ↔ MayUse a
  unfolding is_allowed
  is_allowed_iff a = and_states _ _ (not_states a.disabled) (
      or_states _ _
        (and_states _ _ (itself_states a.restricted) (
          or_states _ _ (some_of_iff a.owner_user_id) (
            or_states _ _ (shared_with_iff a.id)
              (or_states _ _ (granted_by_role_iff a.id) (granted_by_group_iff a.id)))))
        (and_states _ _ (not_states a.restricted) (
          or_states _ _ (has_no_grants_iff a.id) (
            or_states _ _ (granted_by_role_iff a.id)
              (or_states _ _ (granted_by_user_iff a.id) (granted_by_group_iff a.id))))))

  abbrev listed : List EqAccount
  listed = sort_by_id account_id (keep (is_allowed db user_id) db.eq_accounts)

  Ascending-ids :
      (rows : List EqAccount)
      → Ascending account_id rows
      → Ascending (λ (k : ℕ). k) (map account_id rows)
  Ascending-ids [] h = tt
  Ascending-ids (a ∷ []) h = tt
  Ascending-ids (a ∷ b ∷ r) h = (h.0, Ascending-ids (b ∷ r) h.1)

  -- AllowedAccountIDs succeeds, writes nothing and lists, in ascending order, the accounts that the
  -- user may use by the access rules, and no other.
  pub allowed_account_ids-MayUse :
      (ids : List ℕ) × (allowed_account_ids user_id db ≡ (ok ids, db))
      × ((id : ℕ) → In id ids ↔ ((a : EqAccount) × In a db.eq_accounts × (a.id ≡ id) × MayUse a))
      × Ascending (λ (k : ℕ). k) ids
  unfolding allowed_account_ids
  allowed_account_ids-MayUse = (
    map account_id listed,
    refl,
    λ id. (
      λ h.
          let (a, i, e) = In-map_inv account_id id listed h in
          let (j, t) =
            In-keep_inv (is_allowed db user_id) a db.eq_accounts
              ((sort_by_id-In account_id a _).0 i) in
          (a, j, e, (is_allowed_iff a).0 t),
      λ (a, i, e, may).
          subst (λ k. In k (map account_id listed)) e
            (In-map account_id a listed (
              (sort_by_id-In account_id a _).1
                (In-keep (is_allowed db user_id) a db.eq_accounts i ((is_allowed_iff a).1 may)))),
    ),
    Ascending-ids listed (sort_by_id-Ascending account_id _),
  )
