-- ===== src/Store/Tokens.antt =====
-- internal/store/store.go: SSO tokens and the revocation of a user's access.
pub mod NoneActive
pub mod Auth
pub mod Active
use alfred_identity_backend.Common.{
  ℕ, suc, Bool, true, false, not, ◌&&◌, ◌||◌, List, [], ◌∷◌, map, Option, none, some, ltb, ◌==◌,
  if◌then◌else◌, Text, text_eq, codes, any, keep, find, length,
}
use alfred_identity_backend.Common.Bytes.{Bytes}
use alfred_identity_backend.Common.Sort.{sort_by_id}
use alfred_identity_backend.Crypto.Aead.{Vault, seal, open_blob}
use alfred_identity_backend.Store.Db.{
  Db, M, User, ApiToken, Result, ok, err, Error, no_rows, constraint, access_revoked,
  user_not_found, no_active_token, ◌>>=◌, ◌>>◌, return, throw, query, query_row, exec,
}
use mathlib.Core.List.{reverse}

unfoldable pub user_by_id : ℕ → M User
user_by_id id = query_row (λ db. find (λ (u : User). u.id == id) db.users)

abbrev pub is_active_of : ℕ → ApiToken → Bool
is_active_of user_id t = t.user_id == user_id && not t.revoked

-- `SET revoked_at=now()` on the rows that pass the test.
abbrev pub revoke_row : (ApiToken → Bool) → ApiToken → ApiToken
revoke_row p t = if p t then record t { revoked = true } else t

abbrev pub revoke_where : (ApiToken → Bool) → Db → Db
revoke_where p db = record db { api_tokens = map (revoke_row p) db.api_tokens }

-- The constraints of `api_tokens`: unique hashes, one active token for each user, an existing user.
abbrev pub violates_tokens : ℕ → Text → Db → Bool
violates_tokens user_id hash db =
    any (λ (t : ApiToken). text_eq t.token_hash hash) db.api_tokens
    || any (is_active_of user_id) db.api_tokens
    || not (any (λ (u : User). u.id == user_id) db.users)

unfoldable pub insert_token : ℕ → Text → Bytes → M ℕ
insert_token user_id hash cipher db =
    if violates_tokens user_id hash db then (err constraint, db) else (
      ok db.next_token,
      record db { api_tokens = row ∷ db.api_tokens; next_token = suc db.next_token },
    )
  where
    row : ApiToken
    row = record {
      id = db.next_token;
      user_id = user_id;
      token_hash = hash;
      token_cipher = cipher;
      revoked = false;
    }

pub record TokenRow : Type 0 where
  pub id : ℕ
  pub raw : Option Text
  pub revoked : Bool

abbrev pub set_access_row : ℕ → Bool → User → User
set_access_row user_id revoked u =
    if u.id == user_id then record u { access_revoked = revoked } else u

abbrev pub set_access : ℕ → Bool → Db → Db
set_access user_id revoked db = record db { users = map (set_access_row user_id revoked) db.users }

unfoldable pub set_user_access_revoked : ℕ → Bool → M (Unit {0})
set_user_access_revoked user_id revoked db =
    let updated = set_access user_id revoked db in
    if any (λ (u : User). u.id == user_id) db.users
    then (ok tt, if revoked then revoke_where (is_active_of user_id) updated else updated)
    else (err user_not_found, updated)

-- A positive `token_id` names one token; otherwise all of the user's are meant.
abbrev pub is_revoked_by : ℕ → ℕ → ApiToken → Bool
is_revoked_by user_id token_id t =
    is_active_of user_id t && (if ltb 0 token_id then t.id == token_id else true)

unfoldable pub revoke_token : ℕ → ℕ → M (Unit {0})
revoke_token user_id token_id db =
    let updated = revoke_where (is_revoked_by user_id token_id) db in
    if any (is_revoked_by user_id token_id) db.api_tokens
    then (ok tt, updated)
    else (err no_active_token, updated)

module _ (v : Vault) where
  -- The raw token comes from `MustRandToken`, the nonce from `rand.Reader`.
  unfoldable pub create_token : Text → Bytes → ℕ → M (Text × ℕ)
  create_token raw nonce user_id = do
    u ← user_by_id user_id
    if u.access_revoked then throw access_revoked else do
      exec (revoke_where (is_active_of user_id))
      id ← insert_token user_id (v.hash_token raw) (seal v.gcm nonce raw (codes "api_tokens.token"))
      return (raw, id)

  token_row : ApiToken → TokenRow
  token_row t = record {
    id = t.id;
    raw =
        if ltb 0 (length t.token_cipher)
        then open_blob v.gcm t.token_cipher (codes "api_tokens.token")
        else none;
    revoked = t.revoked;
  }

  -- `ORDER BY id DESC`
  unfoldable pub list_tokens : ℕ → Bool → M (List TokenRow)
  unfolding token_row
  list_tokens user_id include_revoked = query (λ db. map token_row (
      reverse (
        sort_by_id (λ (t : ApiToken). t.id)
          (keep (λ (t : ApiToken). t.user_id == user_id && (include_revoked || not t.revoked))
            db.api_tokens))))

  unfoldable pub active_token : ℕ → M (Option TokenRow)
  unfolding list_tokens
  active_token user_id = do rows ← list_tokens user_id false; return (find (λ _. true) rows)

  unfoldable pub user_by_token : Text → M (User × ℕ)
  user_by_token raw = do
    t ← query_row (λ db.
        find (λ (t : ApiToken). text_eq t.token_hash (v.hash_token raw) && not t.revoked)
          db.api_tokens)
    u ← user_by_id t.user_id
    if u.access_revoked then throw access_revoked else return (u, t.id)
