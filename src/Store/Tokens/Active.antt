-- ===== src/Store/Tokens/Active.antt =====
-- Which tokens are active after each token operation.
use alfred_identity_backend.Common.{
  ℕ, ◌≡◌, ◌≢◌, ◌⊎◌, ◌↔◌, inl, inr, refl, sym, subst, ap, Bool, true, false, List, map, some, ◌==◌,
  Text, any, any_iff, find, find-some, In, In-map, found_any, arith, Bool-cases,
}
use alfred_identity_backend.Common.Bytes.{Bytes}
use alfred_identity_backend.Crypto.Aead.{Vault}
use alfred_identity_backend.Store.Db.{Db, User, ApiToken, ok, err, no_active_token}
use alfred_identity_backend.Store.Tokens.{
  is_active_of, revoke_row, revoke_where, create_token, revoke_token, is_revoked_by,
  set_user_access_revoked,
}
use alfred_identity_backend.Store.Tokens.NoneActive.{active_after}
use alfred_identity_backend.Store.Tokens.Auth.{issued, FreshHash, after_create, create_token_auth}

-- The token is in the table and not revoked.
abbrev pub IsActive : ApiToken → Db → Type 0
IsActive t db = In t db.api_tokens × (t.revoked ≡ false)

-- The token belongs to the user, and is the one named, if one is.
abbrev pub IsMeant : ℕ → ℕ → ApiToken → Type 0
IsMeant user_id token_id t = (t.user_id ≡ user_id) × ((token_id ≡ 0) ⊎ (t.id ≡ token_id))

-- A row that a revocation leaves is in the table afterwards.
left_active :
    (p : ApiToken → Bool) (ts : List ApiToken) (t : ApiToken)
    → In t ts
    → p t ≡ false
    → In t (map (revoke_row p) ts)
left_active p ts t i e =
    subst (λ (r : ApiToken). In r (map (revoke_row p) ts)) (rw e refl)
      (In-map (revoke_row p) t ts i)

-- A revocation leaves the active tokens that it does not mean.
revoke_where-IsActive :
    (p : ApiToken → Bool) (P : ApiToken → Type 0) (db : Db) (t : ApiToken)
    → (p t ≡ true) ↔ ((t.revoked ≡ false) × P t)
    → IsActive t (revoke_where p db) ↔ (IsActive t db × (P t → ⊥))
revoke_where-IsActive p P db t means = (
  λ (i, alive).
      let (j, e) = active_after p db.api_tokens t i alive in
      ((j, alive), λ h. ground (arith, e, means.1 (alive, h))),
  λ ((i, alive), spared). elim (Bool-cases (p t)) [
    | inl hit ↦ absurd (spared (means.0 hit).1)
    | inr miss ↦ (left_active p db.api_tokens t i miss, alive)
  ],
)

is_active_of_iff :
    (user_id : ℕ) (t : ApiToken)
    → (is_active_of user_id t ≡ true) ↔ ((t.revoked ≡ false) × (t.user_id ≡ user_id))
is_active_of_iff user_id t = (λ h. (ground arith, ground arith), λ (alive, owner). ground arith)

is_revoked_by_iff :
    (user_id token_id : ℕ) (t : ApiToken)
    → (is_revoked_by user_id token_id t ≡ true) ↔ ((t.revoked ≡ false) × IsMeant user_id token_id t)
is_revoked_by_iff user_id token_id t = (
  λ h. (ground arith, ground arith),
  λ (alive, (owner, either)). elim either [ inl e ↦ ground arith | inr e ↦ ground arith ],
)

module _ (user_id token_id : ℕ) (db : Db) where
  -- An active token of the user that RevokeToken means.
  abbrev pub SomeMeant : Type 0
  SomeMeant = (t : ApiToken) × IsActive t db × IsMeant user_id token_id t

  -- RevokeToken revokes what it means, with success if that is a token.
  abbrev pub Revokes : Type 0
  Revokes =
      ((SomeMeant × ((revoke_token user_id token_id db).0 ≡ ok tt))
        ⊎ ((SomeMeant → ⊥) × ((revoke_token user_id token_id db).0 ≡ err no_active_token)))
      × ((t : ApiToken)
          → IsActive t (revoke_token user_id token_id db).1
            ↔ (IsActive t db × (IsMeant user_id token_id t → ⊥)))

  some_meant_iff : (any (is_revoked_by user_id token_id) db.api_tokens ≡ true) ↔ SomeMeant
  some_meant_iff = (
    λ h.
        let (t, i, e) = (any_iff (is_revoked_by user_id token_id) db.api_tokens).0 h in
        let (alive, meant) = (is_revoked_by_iff user_id token_id t).0 e in (t, (i, alive), meant),
    λ (t, (i, alive), meant).
        found_any (is_revoked_by user_id token_id) t db.api_tokens i
          ((is_revoked_by_iff user_id token_id t).1 (alive, meant)),
  )

  revoke_token-Revokes : Revokes
  unfolding revoke_token
  revoke_token-Revokes = (
    elim (Bool-cases (any (is_revoked_by user_id token_id) db.api_tokens)) [
      | inl e ↦ inl (some_meant_iff.0 e, ground arith)
      | inr e ↦ inr (λ h. ground (arith, some_meant_iff.1 h), ground arith)
    ],
    λ t.
        let same : (revoke_token user_id token_id db).1
            ≡ revoke_where (is_revoked_by user_id token_id) db =
          ground arith in
        rw same (
          revoke_where-IsActive (is_revoked_by user_id token_id) (IsMeant user_id token_id) db t
            (is_revoked_by_iff user_id token_id t)),
  )

module _ (user_id : ℕ) (db : Db) where
  -- Revoking the access of a user revokes the user's tokens; restoring it changes no token.
  abbrev pub Closes : Type 0
  Closes =
      ((set_user_access_revoked user_id true db).0 ≡ ok tt)
      × ((t : ApiToken)
          → IsActive t (set_user_access_revoked user_id true db).1
            ↔ (IsActive t db × (t.user_id ≢ user_id)))
      × ((set_user_access_revoked user_id false db).0 ≡ ok tt)
      × ((t : ApiToken) → IsActive t (set_user_access_revoked user_id false db).1 ↔ IsActive t db)

  set_access-Closes : any (λ (u : User). u.id == user_id) db.users ≡ true → Closes
  unfolding set_user_access_revoked
  set_access-Closes known = (
    rw (known, set_user_access_revoked) refl,
    λ t.
        rw (known, set_user_access_revoked)
          (revoke_where-IsActive (is_active_of user_id) (λ t. t.user_id ≡ user_id) db t
            (is_active_of_iff user_id t)),
    rw (known, set_user_access_revoked) refl,
    λ t. rw (known, set_user_access_revoked) (λ h. h, λ h. h),
  )

module _ (v : Vault) (raw : Text) (nonce : Bytes) (user_id : ℕ) (db : Db) (u : User) where
  -- CreateToken inserts a row for the user, under the raw token's hash, and revokes the others.
  abbrev pub Renews : Type 0
  Renews =
      (db2 : Db) × (create_token v raw nonce user_id db ≡ (ok (raw, db.next_token), db2))
      × ((t : ApiToken)
          → IsActive t db2
            ↔ ((t ≡ issued v raw nonce user_id db u) ⊎ (IsActive t db × (t.user_id ≢ user_id))))

  create_token-Renews :
      find (λ (w : User). w.id == user_id) db.users ≡ some u
      → u.access_revoked ≡ false
      → FreshHash v raw nonce user_id db u
      → Renews
  create_token-Renews known access fresh =
      let (e, _, _) = create_token_auth v raw nonce user_id db u known access fresh in
      (
        after_create v raw nonce user_id db u,
        e,
        λ t.
            let others =
              revoke_where-IsActive (is_active_of user_id) (λ t. t.user_id ≡ user_id) db t
                (is_active_of_iff user_id t) in
            (
              λ (i, alive). elim i [
                | inl new ↦ inl (sym new)
                | inr old ↦ inr (others.0 (old, alive))
              ],
              λ h. elim h [
                | inl new ↦ (inl (sym new), ap (λ (x : ApiToken). x.revoked) new)
                | inr old ↦ let (i, alive) = others.1 old in (inr i, alive)
              ],
            ),
      )

  -- For a user who exists and has access, and a token whose hash is new: CreateToken succeeds, and
  -- the active tokens are then the new row of the user and the tokens of other users that were
  -- active before. RevokeToken leaves exactly the active tokens that are not the user's or, with a
  -- number other than 0, have another number, and succeeds exactly if it revokes one.
  -- SetUserAccessRevoked succeeds; with true it leaves exactly the active tokens of other users,
  -- and with false the same tokens stay active.
  pub operations-IsActive :
      (token_id : ℕ)
      → find (λ (w : User). w.id == user_id) db.users ≡ some u
      → u.access_revoked ≡ false
      → FreshHash v raw nonce user_id db u
      → Renews × Revokes user_id token_id db × Closes user_id db
  operations-IsActive token_id known access fresh =
      let (i, e) = find-some (λ (w : User). w.id == user_id) db.users u known in
      (
        create_token-Renews known access fresh,
        revoke_token-Revokes user_id token_id db,
        set_access-Closes user_id db (found_any (λ (w : User). w.id == user_id) u db.users i e),
      )
