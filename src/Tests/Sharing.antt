-- ===== src/Tests/Sharing.antt =====
-- Tests of accounts, their names and private shares, on the small database.
use alfred_identity_backend.Common.{
  ℕ, ◌<◌, ◌≡◌, ◌≢◌, ◌↔◌, refl, sym, ap, ◌∙◌, length, inl, inr, true, false, [], ◌∷◌, some, Text,
  codes, text_eq, any, In, All, arith,
}
use alfred_identity_backend.Common.Strings.{trim_space, clean_ids}
use alfred_identity_backend.Store.Db.{Db, EqAccount, AccountName, Error, ok, err}
use alfred_identity_backend.Store.Access.Spec.{SharedWith}
use alfred_identity_backend.Store.Credentials.{decrypt_credentials}
use alfred_identity_backend.Store.Names.{
  add_alias, remove_alias, add_character, remove_character, add_owned,
}
use alfred_identity_backend.Store.Names.Laws.{OneOwner, names-OneOwner}
use alfred_identity_backend.Store.Accounts.{
  blind_of, add_eq_account, find_eq_account_id_by_username,
}
use alfred_identity_backend.Store.Accounts.Laws.{with_account, add_eq_account_lem}
use alfred_identity_backend.Store.Shares.{replace_account_shares}
use alfred_identity_backend.Store.Shares.Laws.{Eligible, with_shares, replace_account_shares_lem}
use alfred_identity_backend.Crypto.Aead.{open_blob}
use alfred_identity_backend.Tests.Data.{plain_vault, ascii, small, box, raider}

two_aliases : OneOwner ascii small.aliases
two_aliases m n (inl p) (inl q) e = sym p ∙ q
two_aliases m n (inr (inl p)) (inr (inl q)) e = sym p ∙ q
two_aliases m n (inl p) (inr (inl q)) e = absurd (
    omega (
      arith,
      ap (λ (x : AccountName). length (ascii.sql_lower x.name)) p,
      ap (λ (x : AccountName). length (ascii.sql_lower x.name)) q,
      ap (length {A = ℕ}) e,
    ))
two_aliases m n (inr (inl p)) (inl q) e = absurd (
    omega (
      arith,
      ap (λ (x : AccountName). length (ascii.sql_lower x.name)) p,
      ap (λ (x : AccountName). length (ascii.sql_lower x.name)) q,
      ap (length {A = ℕ}) e,
    ))
two_aliases m n (inr (inr i)) j e = absurd i
two_aliases m n i (inr (inr j)) e = absurd j

names-OneOwner_example :
    OneOwner ascii (add_alias ascii (codes "Healer") 3 small).1.aliases
    × OneOwner ascii (remove_alias ascii (codes "Healer") 3 small).1.aliases
    × OneOwner ascii (add_character ascii (codes "Healer") 3 small).1.characters
    × OneOwner ascii (remove_character ascii (codes "Healer") 3 small).1.characters
names-OneOwner_example =
    names-OneOwner ascii (codes "Healer") 3 small two_aliases (λ m n i j e. absurd i)

taken : (add_alias ascii (codes " TANK") 4 small).0 ≡ err Error.alias_taken
unfolding add_alias add_owned trim_space
taken = refl

abbrev cy : Text
cy = codes "Cy"

abbrev grown : Db
grown = with_account plain_vault ascii cy (codes "pw") (1 ∷ []) (2 ∷ []) refl refl small

cy_filled : ascii.to_lower (trim_space cy) ≢ []
unfolding trim_space
cy_filled e = ground arith

cy_free :
    any
      (λ (a : EqAccount). text_eq a.username_blind (blind_of plain_vault ascii cy))
      small.eq_accounts
    ≡ false
unfolding trim_space
cy_free = refl

add_eq_account_lem_example :
    (add_eq_account plain_vault ascii cy (codes "pw") (1 ∷ []) (2 ∷ []) small ≡ (ok 5, grown))
    × (decrypt_credentials plain_vault 5 false grown ≡ (ok (cy, codes "pw"), grown))
    × (find_eq_account_id_by_username plain_vault ascii cy grown ≡ (ok (some 5), grown))
add_eq_account_lem_example =
    add_eq_account_lem plain_vault ascii cy (codes "pw") (1 ∷ []) (2 ∷ []) refl refl small cy_free
      cy_filled

box_opens : (decrypt_credentials plain_vault 3 false small).0 ≡ ok (codes "bob", codes "pw")
unfolding decrypt_credentials open_blob
box_opens = refl

eligible : All (Eligible 3 small) (clean_ids [] (8 ∷ 0 ∷ 8 ∷ []))
unfolding clean_ids
eligible = ((record raider { id = 8; role_ids = [] }, refl, refl), tt)

abbrev shared_small : Db
shared_small = with_shares 3 small (8 ∷ 0 ∷ 8 ∷ []) refl eligible

replace_account_shares_lem_example :
    (replace_account_shares 3 (8 ∷ 0 ∷ 8 ∷ []) small ≡ (ok tt, shared_small))
    × ((uid : ℕ) → SharedWith shared_small uid 3 ↔ (In uid (8 ∷ 0 ∷ 8 ∷ []) × (0 < uid)))
    × ((uid b : ℕ) → b ≢ 3 → SharedWith shared_small uid b ↔ SharedWith small uid b)
replace_account_shares_lem_example =
    replace_account_shares_lem 3 small (8 ∷ 0 ∷ 8 ∷ []) refl eligible

-- User 8 owns the private share 3.
abbrev owned_box : EqAccount
owned_box = record box { restricted = true; owner_user_id = some 8 }

abbrev private_small : Db
private_small = record small { eq_accounts = owned_box ∷ [] }

bob_named :
    find_eq_account_id_by_username plain_vault ascii (codes "Bob") private_small
    ≡ (ok (some 3), private_small)
unfolding find_eq_account_id_by_username trim_space
bob_named = refl

bob_trimmed :
    find_eq_account_id_by_username plain_vault ascii (trim_space (codes "Bob")) private_small
    ≡ (ok (some 3), private_small)
unfolding find_eq_account_id_by_username trim_space
bob_trimmed = refl

bob_filled : trim_space (codes "Bob") ≢ []
unfolding trim_space
bob_filled e = ground arith
