-- ===== src/Store/Untouched.antt =====
-- Operations on one account leave every row of another account as it was.
use alfred_identity_backend.Common.{
  ℕ, ◌≡◌, ◌≢◌, refl, Bool, true, not, ◌&&◌, List, [], ◌∷◌, ◌++◌, map, inl, inr, ◌==◌, if◌then◌else◌,
  Text, text_eq, keep, arith, Bool-cases,
}
use alfred_identity_backend.Common.Bytes.{Bytes}
use alfred_identity_backend.Common.Strings.{trim_space, clean_texts, Lowering}
use alfred_identity_backend.Crypto.Aead.{Vault}
use alfred_identity_backend.Store.Db.{
  Db, M, EqAccount, AccountName, AccountUser, AccountRole, GroupLink, ◌>>=◌, ◌>>◌, exec,
  Result-cases,
}
use alfred_identity_backend.Store.Grants.{
  for_each, head_text, update_account, delete_access_roles, insert_access_role,
  replace_account_roles, set_eq_required_role,
}
use alfred_identity_backend.Store.Accounts.{
  add_eq_account, set_eq_password, set_eq_disabled, delete_account, delete_eq_account,
}
use alfred_identity_backend.Store.Names.{
  same_name, add_owned, remove_name, add_alias, remove_alias, add_tag, remove_tag, add_character,
  remove_character,
}

-- The rows of an account, by what numbers it in each row.
abbrev pub of_account {ℓ} : {A : Type ℓ} → (A → ℕ) → ℕ → List A → List A
of_account num k rows = keep (λ x. num x == k) rows

abbrev pub account_rows : ℕ → Db → List EqAccount
account_rows k db = of_account (λ (a : EqAccount). a.id) k db.eq_accounts

abbrev pub name_rows : ℕ → List AccountName → List AccountName
name_rows k rows = of_account (λ (n : AccountName). n.eq_account_id) k rows

abbrev pub user_rows : ℕ → List AccountUser → List AccountUser
user_rows k rows = of_account (λ (u : AccountUser). u.eq_account_id) k rows

-- All the rows of an account are the same in two databases.
pub record SameRows (k : ℕ) (db after : Db) : Type 0 where
  pub row : account_rows k after ≡ account_rows k db
  pub aliases : name_rows k after.aliases ≡ name_rows k db.aliases
  pub tags : name_rows k after.account_tags ≡ name_rows k db.account_tags
  pub characters : name_rows k after.characters ≡ name_rows k db.characters
  pub shares : user_rows k after.account_shares ≡ user_rows k db.account_shares
  pub access_users : user_rows k after.account_access_users ≡ user_rows k db.account_access_users
  pub access_roles :
      of_account (λ (r : AccountRole). r.eq_account_id) k after.account_access_roles
      ≡ of_account (λ (r : AccountRole). r.eq_account_id) k db.account_access_roles
  pub links :
      of_account (λ (l : GroupLink). l.eq_account_id) k after.account_group_links
      ≡ of_account (λ (l : GroupLink). l.eq_account_id) k db.account_group_links

module _ {A : Type 0} (num : A → ℕ) (k : ℕ) where
  -- A row of another account may come, change or go.
  of_account-change :
      (other : ℕ) (f : A → A) (rows : List A)
      → other ≢ k
      → ((a : A) → num (f a) ≡ num a)
      → of_account num k (map (λ a. if num a == other then f a else a) rows) ≡ of_account num k rows
  of_account-change other f [] ne same = refl
  of_account-change other f (a ∷ rows) ne same =
      ground (arith, same a, of_account-change other f rows ne same)

  of_account-without :
      (q : A → Bool) (rows : List A)
      → ((a : A) → num a ≡ k → q a ≡ true)
      → of_account num k (keep q rows) ≡ of_account num k rows
  of_account-without q [] h = refl
  of_account-without q (a ∷ rows) h = ground (arith, h a, of_account-without q rows h)

  of_account-add :
      (rows : List A) (a : A)
      → num a ≢ k
      → of_account num k (rows ++ a ∷ []) ≡ of_account num k rows
  of_account-add [] a ne = ground arith
  of_account-add (x ∷ rows) a ne = ground (arith, of_account-add rows a ne)

-- An operation keeps the rows of the account, whatever its result.
abbrev pub Keeps : {A : Type 0} → ℕ → M A → Type 0
Keeps k m = (db : Db) → SameRows k db (m db).1

pub SameRows-refl : (k : ℕ) (db : Db) → SameRows k db db
SameRows-refl k db = ground arith

pub SameRows-trans : (k : ℕ) (a b c : Db) → SameRows k a b → SameRows k b c → SameRows k a c
SameRows-trans k a b c p q = ground arith

pub Keeps-bind :
    {A B : Type 0} (k : ℕ) (m : M A) (f : A → M B)
    → Keeps k m
    → ((a : A) → Keeps k (f a))
    → Keeps k (m >>= f)
Keeps-bind k m f p q db = elim (Result-cases (m db).0) [
  | inl (a, e) ↦ rw e (SameRows-trans k db (m db).1 (f a (m db).1).1 (p db) (q a (m db).1))
  | inr (x, e) ↦ rw e (p db)
]

pub Keeps-then :
    (k : ℕ) (m : M (Unit {0})) (g : Db → Db)
    → Keeps k m
    → ((db : Db) → SameRows k db (g db))
    → Keeps k (m >> exec g)
Keeps-then k m g p q db = elim (Result-cases (m db).0) [
  | inl (a, e) ↦ rw e (SameRows-trans k db (m db).1 (g (m db).1) (p db) (q (m db).1))
  | inr (x, e) ↦ rw e (p db)
]

pub Keeps-for_each :
    {A : Type 0} (k : ℕ) (f : A → M (Unit {0})) (xs : List A)
    → ((a : A) → Keeps k (f a))
    → Keeps k (for_each f xs)
Keeps-for_each k f [] h = λ db. SameRows-refl k db
Keeps-for_each k f (x ∷ xs) h =
    Keeps-bind k (f x) (λ _. for_each f xs) (h x) (λ _. Keeps-for_each k f xs h)

module _ (k account : ℕ) (ne : account ≢ k) where
  update_account-SameRows :
      (f : EqAccount → EqAccount) (db : Db)
      → ((a : EqAccount) → (f a).id ≡ a.id)
      → SameRows k db (update_account account f db)
  update_account-SameRows f db same = record {
    row = of_account-change (λ (a : EqAccount). a.id) k account f db.eq_accounts ne same;
    aliases = refl;
    tags = refl;
    characters = refl;
    shares = refl;
    access_users = refl;
    access_roles = refl;
    links = refl;
  }

  pub set_eq_password-Keeps :
      (v : Vault) (low : Lowering) (password : Text) (nonce : Bytes)
      → Keeps k (set_eq_password v low account password nonce)
  unfolding set_eq_password
  set_eq_password-Keeps v low password nonce db = update_account-SameRows _ db (λ a. refl)

  pub set_eq_disabled-Keeps : (flag : Bool) → Keeps k (set_eq_disabled account flag)
  unfolding set_eq_disabled
  set_eq_disabled-Keeps flag db = update_account-SameRows _ db (λ a. refl)

  insert_access_role-Keeps : (role : Text) → Keeps k (insert_access_role account role)
  unfolding insert_access_role
  insert_access_role-Keeps role db = ground (
    arith,
    of_account-add (λ (r : AccountRole). r.eq_account_id) k db.account_access_roles
        (record { eq_account_id = account; discord_role_id = role }) ne,
  )

  delete_access_roles-SameRows : (db : Db) → SameRows k db (delete_access_roles account db)
  delete_access_roles-SameRows db = ground (
    arith,
    of_account-without (λ (r : AccountRole). r.eq_account_id) k
        (λ (r : AccountRole). not (r.eq_account_id == account)) db.account_access_roles
        (λ r e. ground arith),
  )

  abbrev set_head_role : List Text → Db → Db
  set_head_role roles =
      update_account account
        (λ (a : EqAccount). record a { required_discord_role_id = head_text roles })

  pub replace_account_roles-Keeps :
      (roles : List Text) → Keeps k (replace_account_roles account roles)
  unfolding replace_account_roles
  replace_account_roles-Keeps roles db =
      let cleaned = clean_texts [] roles in
      let loop = for_each (insert_access_role account) cleaned in
      let start = delete_access_roles account db in
      SameRows-trans k db start ((loop >> exec (set_head_role cleaned)) start).1
        (delete_access_roles-SameRows db)
        (Keeps-then k loop (set_head_role cleaned)
          (Keeps-for_each k (insert_access_role account) cleaned insert_access_role-Keeps)
          (λ d.
            update_account-SameRows
              (λ (a : EqAccount). record a { required_discord_role_id = head_text cleaned }) d
              (λ a. refl))
          start)

  pub set_eq_required_role-Keeps : (role : Text) → Keeps k (set_eq_required_role account role)
  unfolding set_eq_required_role
  set_eq_required_role-Keeps role db = elim (Bool-cases (text_eq (trim_space role) [])) [
    | inl e ↦ rw e (replace_account_roles-Keeps [] db)
    | inr e ↦ rw e (replace_account_roles-Keeps (trim_space role ∷ []) db)
  ]

  -- A row of the account is not one of the other's.
  stays : {A : Type 0} (num : A → ℕ) (a : A) → num a ≡ k → not (num a == account) ≡ true
  stays num a e = ground arith

  kept_rows :
      {A : Type 0} (num : A → ℕ) (rows : List A)
      → of_account num k (keep (λ a. not (num a == account)) rows) ≡ of_account num k rows
  kept_rows num rows =
      of_account-without num k (λ a. not (num a == account)) rows (λ a e. stays num a e)

  delete_account-SameRows : (db : Db) → SameRows k db (delete_account account db)
  delete_account-SameRows db = record {
    row = kept_rows (λ (a : EqAccount). a.id) db.eq_accounts;
    aliases = kept_rows (λ (n : AccountName). n.eq_account_id) db.aliases;
    tags = kept_rows (λ (n : AccountName). n.eq_account_id) db.account_tags;
    characters = kept_rows (λ (n : AccountName). n.eq_account_id) db.characters;
    shares = kept_rows (λ (s : AccountUser). s.eq_account_id) db.account_shares;
    access_users = kept_rows (λ (s : AccountUser). s.eq_account_id) db.account_access_users;
    access_roles = kept_rows (λ (r : AccountRole). r.eq_account_id) db.account_access_roles;
    links = kept_rows (λ (l : GroupLink). l.eq_account_id) db.account_group_links;
  }

  pub delete_eq_account-Keeps : Keeps k (delete_eq_account account)
  unfolding delete_eq_account
  delete_eq_account-Keeps db = ground (arith, delete_account-SameRows db, SameRows-refl k db)

  module _ (low : Lowering) (raw : Text) where
    pub add_alias-Keeps : Keeps k (add_alias low raw account)
    unfolding add_alias add_owned
    add_alias-Keeps db = ground arith

    pub add_character-Keeps : Keeps k (add_character low raw account)
    unfolding add_character add_owned
    add_character-Keeps db = ground arith

    pub add_tag-Keeps : Keeps k (add_tag low raw account)
    unfolding add_tag
    add_tag-Keeps db = ground arith

    without_name :
        (rows : List AccountName)
        → name_rows k (
            keep
              (λ (n : AccountName).
                not ((n.eq_account_id == account) && same_name low (trim_space raw) n))
              rows)
          ≡ name_rows k rows
    without_name rows =
        of_account-without (λ (n : AccountName). n.eq_account_id) k _ rows (λ n e. ground arith)

    pub remove_alias-Keeps : Keeps k (remove_alias low raw account)
    unfolding remove_alias remove_name
    remove_alias-Keeps db = ground (arith, without_name db.aliases)

    pub remove_character-Keeps : Keeps k (remove_character low raw account)
    unfolding remove_character remove_name
    remove_character-Keeps db = ground (arith, without_name db.characters)

    pub remove_tag-Keeps : Keeps k (remove_tag low raw account)
    unfolding remove_tag remove_name
    remove_tag-Keeps db = ground (arith, without_name db.account_tags)

-- A new account is another one.
pub add_eq_account-Keeps :
    (k : ℕ) (v : Vault) (low : Lowering) (username password : Text) (n1 n2 : Bytes) (db : Db)
    → db.next_account ≢ k
    → SameRows k db (add_eq_account v low username password n1 n2 db).1
unfolding add_eq_account
add_eq_account-Keeps k v low username password n1 n2 db ne = ground arith
