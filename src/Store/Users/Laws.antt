-- ===== src/Store/Users/Laws.antt =====
-- What UpsertUser does to the user and to the others.
use alfred_identity_backend.Common.{
  suc, ◌≡◌, ◌≢◌, inl, inr, refl, false, List, [], ◌∷◌, map, Option, none, some, if◌then◌else◌, Text,
  text_eq_iff, text_eq_refl, find, arith, Option-cases,
}
use alfred_identity_backend.Store.Db.{Db, User, ok}
use alfred_identity_backend.Store.Users.{
  is_discord, roles_or, with_profile, upsert_user, user_by_discord_id,
}

module _ (discord_id display_name : Text) (role_ids : List Text) where
  abbrev change : User → User
  change x = if is_discord discord_id x then with_profile display_name role_ids x else x

  -- The first row with the Discord id is the one that is found and changed.
  found_changed :
      (us : List User) (u : User)
      → find (is_discord discord_id) us ≡ some u
      → find (is_discord discord_id) (map change us) ≡ some (with_profile display_name role_ids u)
  found_changed [] u e = absurd (ground (arith, e))
  found_changed (x ∷ us) u e = ground (arith, e, found_changed us u)

  others_stay :
      (other : Text) (us : List User)
      → other ≢ discord_id
      → find (is_discord other) (map change us) ≡ find (is_discord other) us
  others_stay other [] ne = refl
  others_stay other (x ∷ us) ne = ground (
    arith,
    others_stay other us ne,
    text_eq_iff x.discord_id discord_id,
    text_eq_iff x.discord_id other,
    ne,
  )

  abbrev added : Db → User
  added db = record {
    id = db.next_user;
    discord_id = discord_id;
    display_name = display_name;
    role_ids = role_ids;
    access_revoked = false;
  }

  -- The user that the call gives back: the old one with the new name and roles, or a new one.
  abbrev pub IsOf : Option User → User → Type 0
  IsOf none u = (u.role_ids ≡ role_ids) × (u.access_revoked ≡ false)
  IsOf (some old) u =
      (u.id ≡ old.id)
      × (u.role_ids ≡ roles_or role_ids old.role_ids)
      × (u.access_revoked ≡ old.access_revoked)

  -- UpsertUser succeeds and gives back the user with the Discord id, with the new name, whom
  -- UserByDiscordID finds from then on. One who was there keeps the number and whether the access
  -- is revoked, and takes the given roles unless there are none; one who was not has the given
  -- roles and access. What is found for every other Discord id stays.
  pub upsert_user_lem :
      (db : Db)
      → (u : User) × ((upsert_user discord_id display_name role_ids db).0 ≡ ok u)
        × ((user_by_discord_id discord_id (upsert_user discord_id display_name role_ids db).1).0
            ≡ ok u)
        × (u.display_name ≡ display_name)
        × IsOf (find (is_discord discord_id) db.users) u
        × ((other : Text)
            → other ≢ discord_id
            → (user_by_discord_id other (upsert_user discord_id display_name role_ids db).1).0
              ≡ (user_by_discord_id other db).0)
  unfolding upsert_user user_by_discord_id
  upsert_user_lem db = elim (Option-cases (find (is_discord discord_id) db.users)) [
    | inl e ↦
        let u = added db in
        let ran : upsert_user discord_id display_name role_ids db
            ≡ (ok u, record db { users = u ∷ db.users; next_user = suc db.next_user }) =
          rw (e, upsert_user) refl in
        rw ran (
          u,
          refl,
          ground (arith, text_eq_refl discord_id),
          refl,
          rw e (refl, refl),
          λ other ne. ground (arith, text_eq_iff discord_id other, ne),
        )
    | inr (old, e) ↦
        let ran : upsert_user discord_id display_name role_ids db ≡ (
          ok (with_profile display_name role_ids old),
          record db { users = map change db.users },
        ) =
          rw (e, upsert_user) refl in
        rw ran (
          with_profile display_name role_ids old,
          refl,
          ground (arith, found_changed db.users old e),
          refl,
          rw e (refl, refl, refl),
          λ other ne. ground (arith, others_stay other db.users ne),
        )
  ]
