-- ===== src/Tests/Hub.antt =====
-- Tests of the messages of a client.
use alfred_identity_backend.Common.{
  ℕ, ◌≡◌, ◌≢◌, ◌⊎◌, refl, inr, true, false, List, [], ◌∷◌, map, none, some, Text, codes, In, All,
  arith,
}
use alfred_identity_backend.Presence.SingleBox.{IsOrderly}
use alfred_identity_backend.Store.Db.{Db, User, EqAccount, ok, err, no_rows}
use alfred_identity_backend.Store.Access.Spec.{MayUse}
use alfred_identity_backend.Store.Tokens.{user_by_token, user_by_id, set_user_access_revoked}
use alfred_identity_backend.Store.Untouched.{SameRows}
use alfred_identity_backend.Sso.Admin.{user_is_admin}
use alfred_identity_backend.Sso.Splice.{allow_login}
use alfred_identity_backend.Sso.Clients.{
  WsClient, Server, Conn, failed, done, is_admin, current_user, refresh_user, run_store, audit,
}
use alfred_identity_backend.Sso.Manage.{
  AdminMessage, admin_remove_account, admin_set_user_access, handle_admin, admin_allowed, run_admin,
  set_user_access, announce,
}
use alfred_identity_backend.Sso.Manage.Foreign.{IsForeign}
use alfred_identity_backend.Sso.Manage.Private.{handle_admin-SameRows, handle_admin-refused}
use alfred_identity_backend.Sso.Session.{
  Frame, invalid_json, auth, heartbeat, admin, Heartbeat, seen, beat, serve,
}
use alfred_identity_backend.Sso.Session.Stranger.{IsStranger, IsRefusal, serve-IsStranger}
use alfred_identity_backend.Sso.Session.Online.{beat-MayUse}
use alfred_identity_backend.Sso.Session.Kept.{serve-IsOrderly}
use alfred_identity_backend.Sso.Session.Revoked.{handle_admin-IsOut}
use alfred_identity_backend.Tests.Data.{small, spare, box, raider}
use alfred_identity_backend.Tests.Logins.{setup, hub}
use alfred_identity_backend.Tests.Presences.{pair-IsValid, pair-SingleBox}

abbrev user8 : User
user8 = record raider { id = 8; role_ids = [] }

-- The account of the other user is a private share.
abbrev private : Db
private = record small {
  eq_accounts = box ∷ record spare { restricted = true; owner_user_id = some 8 } ∷ [];
  characters = record { name = codes "Annika"; eq_account_id = 3 } ∷ [];
}

abbrev server : Server setup
server = record {
  hub = record hub { db = private };
  clients =
      record { id = 0; user = raider; client_version = []; relay = none }
      ∷ record { id = 1; user = user8; client_version = []; relay = none }
      ∷ [];
  next_client = 2;
  notices = 0;
  protocol_version = 1;
  admin_role_id = codes "raid";
  bootstrap_admin_ids = [];
}

abbrev connected : ℕ → User → Conn
connected id u = record { authed = true; user = u; client = some id; closed = false }

abbrev removal : AdminMessage
removal = admin_remove_account (some 4)

foreign : IsForeign private 7 4
foreign =
    (record spare { restricted = true; owner_user_id = some 8 }, refl, refl, λ e. omega (arith, e))

handle_admin-SameRows_example :
    SameRows 4 private (handle_admin setup server (connected 0 raider) removal).0.hub.db
handle_admin-SameRows_example =
    handle_admin-SameRows setup server (connected 0 raider) removal 4 (λ e. omega (arith, e))
      foreign

no_admin : is_admin setup server (current_user setup private user8) ≡ false
unfolding is_admin user_is_admin current_user user_by_id
no_admin = refl

handle_admin-refused_example :
    ((handle_admin setup server (connected 1 user8) removal).0.hub ≡ server.hub)
    × (map
          (λ (w : WsClient). w.id)
          (handle_admin setup server (connected 1 user8) removal).0.clients
        ≡ 0 ∷ 1 ∷ [])
    × ((code : Text) × ((handle_admin setup server (connected 1 user8) removal).2 ≡ failed code))
handle_admin-refused_example =
    handle_admin-refused setup server (connected 1 user8) removal (inr no_admin)

abbrev stranger : Conn
stranger = record { authed = false; user = raider; client = none; closed = false }

abbrev guesses : List (Frame setup)
guesses =
    auth (some (record { token = codes "guess"; protocol_version = 1; client_version = [] }))
    ∷ admin removal
    ∷ invalid_json
    ∷ []

no_token : (user_by_token setup.vault (codes "guess") private).0 ≡ err no_rows
unfolding user_by_token
no_token = refl

serve-IsStranger_example :
    ((serve setup server stranger guesses).0 ≡ server)
    × IsStranger (serve setup server stranger guesses).1
    × All (IsRefusal setup) (serve setup server stranger guesses).2
serve-IsStranger_example =
    serve-IsStranger setup server stranger guesses (refl, refl)
      ((no_rows, no_token), (tt, (tt, tt)))

abbrev annika_online : Heartbeat
annika_online = record { character_name = codes "annika"; offline = false }

beat-MayUse_example :
    ((a : EqAccount) × In a private.eq_accounts
      × (a.id ≡ 3)
      × MayUse private 7 a
      × (beat setup server (connected 0 raider) (some annika_online)
          ≡ seen setup server a.id 7 annika_online))
    ⊎ (((a : EqAccount) → In a private.eq_accounts → a.id ≡ 3 → ¬ MayUse private 7 a)
        × (beat setup server (connected 0 raider) (some annika_online) ≡ server))
beat-MayUse_example =
    beat-MayUse setup server (connected 0 raider) annika_online
      (record { name = codes "Annika"; eq_account_id = 3 }) refl

abbrev beats : List (Frame setup)
beats = heartbeat (some annika_online) ∷ admin removal ∷ []

serve-IsOrderly_example : IsOrderly (serve setup server (connected 0 raider) beats).0.hub.presence
serve-IsOrderly_example =
    serve-IsOrderly setup server (connected 0 raider) beats (pair-IsValid, pair-SingleBox)

abbrev revoke : AdminMessage
revoke = admin_set_user_access (some (record { user_id = 8; revoked = true }))

revoked_run : (handle_admin setup server (connected 0 raider) revoke).2 ≡ done 8
unfolding handle_admin admin_allowed allow_login refresh_user is_admin user_is_admin current_user
    user_by_id run_admin set_user_access run_store audit set_user_access_revoked announce
revoked_run = refl

handle_admin-IsOut_example :
    ((w : WsClient)
      → In w (handle_admin setup server (connected 0 raider) revoke).0.clients
      → w.user.id ≢ 8)
    × ((raw : Text) (u : User) (t : ℕ)
        → (user_by_token setup.vault raw
            (handle_admin setup server (connected 0 raider) revoke).0.hub.db).0
          ≡ ok (u, t)
        → u.id ≢ 8)
handle_admin-IsOut_example = handle_admin-IsOut setup 8 server (connected 0 raider) 8 revoked_run
