-- ===== src/Tests/Accounts.antt =====
-- Tests of who may use an account, on the small database.
use alfred_identity_backend.Common.{
  ℕ, ◌≡◌, ◌≢◌, ◌↔◌, refl, true, false, List, [], ◌∷◌, Text, codes, In, All,
}
use alfred_identity_backend.Common.Sort.{Ascending, sort_by_id}
use alfred_identity_backend.Common.Strings.{trim_space, clean_ids, clean_texts}
use alfred_identity_backend.Store.Db.{Db, EqAccount, GroupMember, ok}
use alfred_identity_backend.Store.Access.{
  allowed_account_ids, has_no_grants, granted_by_role, user_has_role, granted_by_user,
  granted_by_group,
}
use alfred_identity_backend.Store.Access.Spec.{
  HasRole, Member, ByRole, ByUser, ByGroup, MayUse, allowed_account_ids-MayUse,
}
use alfred_identity_backend.Store.Candidates.{
  LoginCandidate, candidate_of, resolve_login_candidates,
}
use alfred_identity_backend.Store.Candidates.Laws.{IsCandidate, resolve_login_candidates_lem}
use alfred_identity_backend.Store.Grants.{set_account_access, user_exists_in, group_exists_in}
use alfred_identity_backend.Store.Grants.Laws.{granted, set_account_access_lem}
use alfred_identity_backend.Tests.Data.{plain_vault, ascii, small, small_keyed}

raider_accounts : (allowed_account_ids 7 small).0 ≡ ok (3 ∷ [])
unfolding allowed_account_ids sort_by_id has_no_grants granted_by_role user_has_role granted_by_user
    granted_by_group
raider_accounts = refl

allowed_account_ids-MayUse_example :
    (ids : List ℕ) × (allowed_account_ids 7 small ≡ (ok ids, small))
    × ((id : ℕ)
        → In id ids ↔ ((a : EqAccount) × In a small.eq_accounts × (a.id ≡ id) × MayUse small 7 a))
    × Ascending (λ (k : ℕ). k) ids
allowed_account_ids-MayUse_example = allowed_account_ids-MayUse small 7

abbrev typed : Text
typed = codes " TANK "

typed_resolves :
    (resolve_login_candidates plain_vault ascii 7 typed small).0
    ≡ ok (
        record { id = 3; by_user = false; by_tag = false; by_alias = true; by_character = false }
        ∷ [])
unfolding resolve_login_candidates candidate_of trim_space allowed_account_ids sort_by_id
    has_no_grants granted_by_role user_has_role granted_by_user granted_by_group
typed_resolves = refl

resolve_login_candidates_lem_example :
    (cands : List LoginCandidate) × (resolve_login_candidates plain_vault ascii 7 typed small
      ≡ (ok cands, small))
    × ((c : LoginCandidate)
        → In c cands
        → IsCandidate plain_vault ascii small 7 typed small_keyed c)
    × ((c : LoginCandidate)
        → IsCandidate plain_vault ascii small 7 typed small_keyed c
        → trim_space typed ≢ []
        → In c cands)
resolve_login_candidates_lem_example =
    resolve_login_candidates_lem plain_vault ascii small 7 typed small_keyed

abbrev roles : List Text
roles = codes " gm " ∷ codes "" ∷ []

users_known : All (λ u. user_exists_in small u ≡ true) (clean_ids [] (8 ∷ 8 ∷ []))
unfolding clean_ids
users_known = (refl, tt)

groups_known : All (λ g. group_exists_in small g ≡ true) (clean_ids [] (1 ∷ []))
unfolding clean_ids
groups_known = (refl, tt)

abbrev after : Db
after = granted 3 small refl roles (8 ∷ 8 ∷ []) (1 ∷ []) users_known groups_known

set_account_access_lem_example :
    (set_account_access 3 roles (8 ∷ 8 ∷ []) (1 ∷ []) small ≡ (ok tt, after))
    × ((uid : ℕ)
        → (ByRole after uid 3 ↔ ((r : Text) × In r (clean_texts [] roles) × HasRole small uid r))
          × (ByUser after uid 3 ↔ In uid (clean_ids [] (8 ∷ 8 ∷ [])))
          × (ByGroup after uid 3 ↔ (
              (m : GroupMember) × In m small.group_members
              × In m.group_id (clean_ids [] (1 ∷ []))
              × Member small uid m)))
    × ((uid b : ℕ)
        → b ≢ 3
        → (ByRole after uid b ↔ ByRole small uid b)
          × (ByUser after uid b ↔ ByUser small uid b)
          × (ByGroup after uid b ↔ ByGroup small uid b))
set_account_access_lem_example =
    set_account_access_lem 3 small refl roles (8 ∷ 8 ∷ []) (1 ∷ []) users_known groups_known
