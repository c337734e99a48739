-- ===== src/Store/Tokens/Auth.antt =====
-- Which tokens authenticate a client, after a new token and after an access revocation.
use alfred_identity_backend.Common.{
  ℕ, suc, ◌≡◌, ◌≢◌, inl, inr, refl, sym, subst, Bool, true, false, not, ◌&&◌, List, [], ◌∷◌, map,
  some, ◌==◌, Text, codes, text_eq, text_eq_sound, text_eq_refl, any, find, find-some, In,
  found_any, none_any, arith, Option-cases,
}
use alfred_identity_backend.Common.Bytes.{Bytes}
use alfred_identity_backend.Crypto.Aead.{Vault, seal}
use alfred_identity_backend.Store.Db.{Db, User, ApiToken, Result, ok}
use alfred_identity_backend.Store.Tokens.{
  is_active_of, revoke_row, revoke_where, violates_tokens, insert_token, user_by_id, create_token,
  set_user_access_revoked, user_by_token,
}
use alfred_identity_backend.Store.Tokens.NoneActive.{NoneActive, revoked-NoneActive}

module _ (v : Vault) where
  abbrev matches : Text → ApiToken → Bool
  matches raw t = text_eq t.token_hash (v.hash_token raw) && not t.revoked

  -- What stands behind an authenticated client.
  pub user_by_token_inv :
      (raw : Text) (db : Db) (u : User) (id : ℕ)
      → (user_by_token v raw db).0 ≡ ok (u, id)
      → (t : ApiToken) × In t db.api_tokens
        × (t.token_hash ≡ v.hash_token raw)
        × (t.revoked ≡ false)
        × (t.user_id ≡ u.id)
        × (u.access_revoked ≡ false)
  unfolding user_by_token user_by_id
  user_by_token_inv raw db u id h = elim (Option-cases (find (matches raw) db.api_tokens)) [
    | inl e ↦ ground arith
    | inr (t, e) ↦ elim (Option-cases (find (λ (w : User). w.id == t.user_id) db.users)) [
      | inl f ↦ ground arith
      | inr (w, f) ↦
          let (i, hit) = find-some (matches raw) db.api_tokens t e in
          let (_, same) = find-some (λ (w : User). w.id == t.user_id) db.users w f in
          (
            t,
            i,
            text_eq_sound t.token_hash (v.hash_token raw) (ground arith),
            ground arith,
            ground arith,
            ground arith,
          )
    ]
  ]

  -- A user with no active token is not authenticated.
  NoneActive-out :
      (raw : Text) (db : Db) (u : User) (id user_id : ℕ)
      → NoneActive user_id db.api_tokens
      → (user_by_token v raw db).0 ≡ ok (u, id)
      → u.id ≢ user_id
  NoneActive-out raw db u id user_id dead h same =
      let (t, i, _, alive, owner, _) = user_by_token_inv raw db u id h in ground (arith, dead t i)

  set_access_revoked :
      (user_id : ℕ) (db db1 : Db)
      → set_user_access_revoked user_id true db ≡ (ok tt, db1)
      → NoneActive user_id db1.api_tokens
  unfolding set_user_access_revoked
  set_access_revoked user_id db db1 h =
      subst (NoneActive user_id) (ground arith) (revoked-NoneActive user_id db.api_tokens)

  set_access_restored :
      (user_id : ℕ) (db db2 : Db) (r : Result (Unit {0}))
      → set_user_access_revoked user_id false db ≡ (r, db2)
      → db2.api_tokens ≡ db.api_tokens
  unfolding set_user_access_revoked
  set_access_restored user_id db db2 r h = ground arith

  -- Right after a user's access is revoked, with success, and then restored, no token authenticates
  -- that user.
  pub revoked_stays_out :
      (user_id : ℕ) (db db1 db2 : Db) (r : Result (Unit {0})) (raw : Text) (u : User) (id : ℕ)
      → set_user_access_revoked user_id true db ≡ (ok tt, db1)
      → set_user_access_revoked user_id false db1 ≡ (r, db2)
      → (user_by_token v raw db2).0 ≡ ok (u, id)
      → u.id ≢ user_id
  revoked_stays_out user_id db db1 db2 r raw u id h1 h2 = NoneActive-out raw db2 u id user_id (
      subst (NoneActive user_id) (sym (set_access_restored user_id db1 db2 r h2))
        (set_access_revoked user_id db db1 h1))

  module _ (raw : Text) (nonce : Bytes) (user_id : ℕ) (db : Db) (u : User) where
    -- The row that `CreateToken` inserts.
    abbrev pub issued : ApiToken
    issued = record {
      id = db.next_token;
      user_id = user_id;
      token_hash = v.hash_token raw;
      token_cipher = seal v.gcm nonce raw (codes "api_tokens.token");
      revoked = false;
    }

    abbrev pub after_create : Db
    after_create = record db {
      api_tokens = issued ∷ map (revoke_row (is_active_of user_id)) db.api_tokens;
      next_token = suc db.next_token;
    }

    -- No token of the table, revoked or not, has the new token's hash.
    abbrev pub FreshHash : Type 0
    FreshHash =
        any (λ (t : ApiToken). text_eq t.token_hash (v.hash_token raw)) db.api_tokens ≡ false

    hash_kept :
        (ts : List ApiToken)
        → any
            (λ (t : ApiToken). text_eq t.token_hash (v.hash_token raw))
            (map (revoke_row (is_active_of user_id)) ts)
          ≡ any (λ (t : ApiToken). text_eq t.token_hash (v.hash_token raw)) ts
    hash_kept [] = refl
    hash_kept (t ∷ ts) = ground (arith, hash_kept ts)

    no_violation :
        find (λ (w : User). w.id == user_id) db.users ≡ some u
        → FreshHash
        → violates_tokens user_id (v.hash_token raw) (revoke_where (is_active_of user_id) db)
          ≡ false
    no_violation known fresh =
        let (i, hit) = find-some (λ (w : User). w.id == user_id) db.users u known in
        rw (
          hash_kept db.api_tokens,
          fresh,
          none_any (is_active_of user_id) (map (revoke_row (is_active_of user_id)) db.api_tokens)
              (revoked-NoneActive user_id db.api_tokens),
          found_any (λ (w : User). w.id == user_id) u db.users i hit,
        )

    created :
        find (λ (w : User). w.id == user_id) db.users ≡ some u
        → u.access_revoked ≡ false
        → FreshHash
        → create_token v raw nonce user_id db ≡ (ok (raw, db.next_token), after_create)
    unfolding create_token user_by_id insert_token
    created known access fresh = rw (known) (rw access (rw (no_violation known fresh)))

    authenticated :
        find (λ (w : User). w.id == user_id) db.users ≡ some u
        → u.access_revoked ≡ false
        → (user_by_token v raw after_create).0 ≡ ok (u, db.next_token)
    unfolding user_by_token user_by_id
    authenticated known access = rw (text_eq_refl (v.hash_token raw)) (rw known (rw access))

    others_out :
        (other : Text) (w : User) (id : ℕ)
        → v.hash_token other ≢ v.hash_token raw
        → (user_by_token v other after_create).0 ≡ ok (w, id)
        → w.id ≢ user_id
    others_out other w id ne h same =
        let (t, i, hash, alive, owner, _) = user_by_token_inv other after_create w id h in
        elim i [
          | inl new ↦ ne (ground arith)
          | inr old ↦ ground (arith, revoked-NoneActive user_id db.api_tokens t old)
        ]

    -- For a user who exists and has access, and a token whose hash is new, CreateToken succeeds;
    -- the token then authenticates the user, and no token with another hash authenticates that
    -- user.
    pub create_token_auth :
        find (λ (w : User). w.id == user_id) db.users ≡ some u
        → u.access_revoked ≡ false
        → FreshHash
        → (create_token v raw nonce user_id db ≡ (ok (raw, db.next_token), after_create))
          × ((user_by_token v raw after_create).0 ≡ ok (u, db.next_token))
          × ((other : Text) (w : User) (id : ℕ)
              → v.hash_token other ≢ v.hash_token raw
              → (user_by_token v other after_create).0 ≡ ok (w, id)
              → w.id ≢ user_id)
    create_token_auth known access fresh =
        (created known access fresh, authenticated known access, others_out)
