-- ===== src/Tests/Data.antt =====
-- A small database, and plain functions in the place of the ciphers, hashes and tables of Go.
use alfred_identity_backend.Common.{
  ◌+◌, refl, inl, inr, sym, ap, ◌∙◌, false, ◌&&◌, [], ◌∷◌, map, none, some, leb, if◌then◌else◌,
  Text, codes, text_eq, arith,
}
use alfred_identity_backend.Common.Strings.{Lowering}
use alfred_identity_backend.Crypto.Aead.{Gcm, Vault}
use alfred_identity_backend.Crypto.Des.{DesCbc}
use alfred_identity_backend.Store.Db.{Db, User, ApiToken, EqAccount, AccountsKeyed}

abbrev pub plain_gcm : Gcm
plain_gcm = record {
  nonce_size = 1;
  seal_with = λ nonce plain aad. plain;
  open_with = λ nonce cipher aad. some cipher;
  open-seal_with = λ nonce plain aad h. refl;
}

abbrev pub plain_vault : Vault
plain_vault = record { gcm = plain_gcm; hash_token = λ t. t; blind_index = λ t. t }

abbrev pub plain_des : DesCbc
plain_des = record {
  encrypt_blocks = λ p. p;
  decrypt_blocks = λ p. p;
  length-encrypt = λ p h. refl;
  decrypt-encrypt = λ p h. refl;
}

abbrev ascii_lower : Text → Text
ascii_lower t = map (λ c. if leb 65 c && leb c 90 then c + 32 else c) t

abbrev pub ascii : Lowering
ascii = record {
  to_lower = ascii_lower;
  equal_fold = λ s t. text_eq (ascii_lower s) (ascii_lower t);
  sql_lower = ascii_lower;
}

abbrev pub raider : User
raider = record {
  id = 7;
  discord_id = codes "100";
  display_name = codes "Ann";
  role_ids = codes "raid" ∷ [];
  access_revoked = false;
}

abbrev pub old_token : ApiToken
old_token = record {
  id = 1;
  user_id = 7;
  token_hash = codes "old";
  token_cipher = [];
  revoked = false;
}

abbrev pub box : EqAccount
box = record {
  id = 3;
  username_cipher = 0 ∷ codes "bob";
  username_blind = codes "bob";
  password_cipher = 0 ∷ codes "pw";
  disabled = false;
  restricted = false;
  owner_user_id = none;
  required_discord_role_id = codes "raid";
  required_user_id = none;
}

abbrev pub spare : EqAccount
spare = record box { id = 4; username_blind = codes "eve"; username_cipher = 0 ∷ codes "eve" }

-- `box` is for the role of the raiders, `spare` for user 8.
abbrev pub small : Db
small = record {
  users = raider ∷ record raider { id = 8; role_ids = [] } ∷ [];
  api_tokens = old_token ∷ [];
  account_groups =
      record {
        id = 1;
        name = codes "Core";
        description = [];
        web_role = codes "none";
        discord_commands = [];
      }
      ∷ [];
  group_members = record { group_id = 1; user_id = some 8; discord_role_id = none } ∷ [];
  eq_accounts = box ∷ spare ∷ [];
  account_group_links = record { group_id = 1; eq_account_id = 3 } ∷ [];
  aliases =
      record { name = codes "tank"; eq_account_id = 3 }
      ∷ record { name = codes "al"; eq_account_id = 3 }
      ∷ [];
  account_tags = [];
  characters = [];
  account_shares = [];
  account_access_roles = record { eq_account_id = 3; discord_role_id = codes "raid" } ∷ [];
  account_access_users = record { eq_account_id = 4; user_id = 8 } ∷ [];
  next_user = 9;
  next_token = 2;
  next_group = 2;
  next_account = 5;
}

pub small_keyed : AccountsKeyed small
small_keyed a b (inl p) (inl q) e = sym p ∙ q
small_keyed a b (inl p) (inr (inl q)) e =
    absurd (omega (arith, ap (λ x. x.id) p, ap (λ x. x.id) q, e))
small_keyed a b (inr (inl p)) (inl q) e =
    absurd (omega (arith, ap (λ x. x.id) p, ap (λ x. x.id) q, e))
small_keyed a b (inr (inl p)) (inr (inl q)) e = sym p ∙ q
small_keyed a b (inr (inr i)) j e = absurd i
small_keyed a b i (inr (inr j)) e = absurd j
