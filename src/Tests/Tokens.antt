-- ===== src/Tests/Tokens.antt =====
-- Tests of the tokens, on the small database.
use alfred_identity_backend.Store.Users.{upsert_user, user_by_discord_id}
use alfred_identity_backend.Store.Users.Laws.{IsOf, upsert_user_lem}
use alfred_identity_backend.Common.{ℕ, ◌≡◌, ◌≢◌, refl, true, false, [], ◌∷◌, some, Text, codes}
use alfred_identity_backend.Store.Db.{Db, User, ok, err, no_rows}
use alfred_identity_backend.Store.Tokens.{
  create_token, set_user_access_revoked, user_by_token, user_by_id,
}
use alfred_identity_backend.Store.Tokens.Active.{Renews, Revokes, Closes, operations-IsActive}
use alfred_identity_backend.Store.Tokens.Auth.{after_create, create_token_auth, revoked_stays_out}
use alfred_identity_backend.Tests.Data.{plain_vault, small, raider, old_token}

abbrev renewed : Db
renewed = after_create plain_vault (codes "new") (9 ∷ []) 7 small raider

create_token_auth_example :
    (create_token plain_vault (codes "new") (9 ∷ []) 7 small ≡ (ok (codes "new", 2), renewed))
    × ((user_by_token plain_vault (codes "new") renewed).0 ≡ ok (raider, 2))
    × ((other : Text) (w : User) (id : ℕ)
        → other ≢ codes "new"
        → (user_by_token plain_vault other renewed).0 ≡ ok (w, id)
        → w.id ≢ 7)
create_token_auth_example =
    create_token_auth plain_vault (codes "new") (9 ∷ []) 7 small raider refl refl refl

-- User 8 has a token too, and keeps it while the access of user 7 is revoked and restored.
abbrev two : Db
two = record small {
  api_tokens = old_token ∷ record old_token { id = 2; user_id = 8; token_hash = codes "eve" } ∷ [];
}

operations-IsActive_example :
    Renews plain_vault (codes "new") (9 ∷ []) 7 two raider × Revokes 7 1 two × Closes 7 two
operations-IsActive_example =
    operations-IsActive plain_vault (codes "new") (9 ∷ []) 7 two raider 1 refl refl refl

abbrev other : User
other = record raider { id = 8; role_ids = [] }

abbrev closed : Db
closed = record two {
  users = record raider { access_revoked = true } ∷ other ∷ [];
  api_tokens =
      record old_token { revoked = true }
      ∷ record old_token { id = 2; user_id = 8; token_hash = codes "eve" }
      ∷ [];
}

abbrev reopened : Db
reopened = record closed { users = raider ∷ other ∷ [] }

closes : set_user_access_revoked 7 true two ≡ (ok tt, closed)
unfolding set_user_access_revoked
closes = refl

reopens : set_user_access_revoked 7 false closed ≡ (ok tt, reopened)
unfolding set_user_access_revoked
reopens = refl

eve_stays : (user_by_token plain_vault (codes "eve") reopened).0 ≡ ok (other, 2)
unfolding user_by_token user_by_id
eve_stays = refl

revoked_out : (user_by_token plain_vault (codes "old") reopened).0 ≡ err no_rows
unfolding user_by_token user_by_id
revoked_out = refl

revoked_stays_out_example : other.id ≢ 7
revoked_stays_out_example =
    revoked_stays_out plain_vault 7 two closed reopened (ok tt) (codes "eve") other 2 closes reopens
      eve_stays

-- The raider comes back under another name, and without roles.
upsert_user_lem_example :
    (u : User) × ((upsert_user (codes "100") (codes "Anna") [] small).0 ≡ ok u)
    × ((user_by_discord_id (codes "100") (upsert_user (codes "100") (codes "Anna") [] small).1).0
        ≡ ok u)
    × (u.display_name ≡ codes "Anna")
    × IsOf (codes "100") (codes "Anna") [] (some raider) u
    × ((other : Text)
        → other ≢ codes "100"
        → (user_by_discord_id other (upsert_user (codes "100") (codes "Anna") [] small).1).0
          ≡ (user_by_discord_id other small).0)
upsert_user_lem_example = upsert_user_lem (codes "100") (codes "Anna") [] small
