-- ===== src/Store/Db.antt =====
-- The tables that internal/store/store.go reads and writes (internal/db/migrations), and the form
-- of its operations. Times are left out: of `revoked_at` only whether it is null matters. A failed
-- connection is left out too: an operation fails by its own tests or by a constraint of a table.
use alfred_identity_backend.Common.{
  ℕ, Bool, List, Option, none, some, Text, In, ◌≡◌, refl, ◌⊎◌, inl, inr,
}
use alfred_identity_backend.Common.Bytes.{Bytes}

pub record User : Type 0 where
  pub id : ℕ
  pub discord_id : Text
  pub display_name : Text
  pub role_ids : List Text
  pub access_revoked : Bool

pub record ApiToken : Type 0 where
  pub id : ℕ
  pub user_id : ℕ
  pub token_hash : Text
  pub token_cipher : Bytes
  pub revoked : Bool

pub record EqAccount : Type 0 where
  pub id : ℕ
  pub username_cipher : Bytes
  pub username_blind : Text
  pub password_cipher : Bytes
  pub disabled : Bool
  pub restricted : Bool
  pub owner_user_id : Option ℕ
  pub required_discord_role_id : Text
  pub required_user_id : Option ℕ

pub record AccountGroup : Type 0 where
  pub id : ℕ
  pub name : Text
  pub description : Text
  pub web_role : Text
  pub discord_commands : List Text

pub record GroupMember : Type 0 where
  pub group_id : ℕ
  pub user_id : Option ℕ
  pub discord_role_id : Option Text

pub record GroupLink : Type 0 where
  pub group_id : ℕ
  pub eq_account_id : ℕ

-- A row of `aliases`, `account_tags` or `characters`.
pub record AccountName : Type 0 where
  pub name : Text
  pub eq_account_id : ℕ

-- A row of `account_shares` or `account_access_users`.
pub record AccountUser : Type 0 where
  pub eq_account_id : ℕ
  pub user_id : ℕ

pub record AccountRole : Type 0 where
  pub eq_account_id : ℕ
  pub discord_role_id : Text

pub record Db : Type 0 where
  pub users : List User
  pub api_tokens : List ApiToken
  pub account_groups : List AccountGroup
  pub group_members : List GroupMember
  pub eq_accounts : List EqAccount
  pub account_group_links : List GroupLink
  pub aliases : List AccountName
  pub account_tags : List AccountName
  pub characters : List AccountName
  pub account_shares : List AccountUser
  pub account_access_roles : List AccountRole
  pub account_access_users : List AccountUser
  -- The next number of each sequence that the code reads back.
  pub next_user : ℕ
  pub next_token : ℕ
  pub next_group : ℕ
  pub next_account : ℕ

-- `sql.ErrNoRows`, a constraint of a table, an unreadable cipher, and the messages of the code.
pub data Error : Type 0 where
  no_rows constraint unreadable : Error
  user_not_found access_revoked no_active_token : Error
  name_required default_name_reserved default_undeletable group_not_found bad_web_role : Error
  unknown_command role_required : Error
  alias_required alias_taken alias_not_found : Error
  tag_required tag_not_found : Error
  character_required character_taken character_not_found : Error
  account_not_found not_private_share username_required password_required account_exists : Error
  not_shared not_yours : Error
  share_access_managed share_password_managed share_not_owner : Error

pub data Result {ℓ} (A : Type ℓ) : Type ℓ where
  ok : A → Result A
  err : Error → Result A

-- An operation keeps what it has written when it fails.
abbrev pub M : Type 0 → Type 0
M A = Db → Result A × Db

-- The rest of an operation, on the result and the database of its first step.
abbrev pub bind_at : {A B : Type 0} → Result A → Db → (A → M B) → Result B × Db
bind_at (ok a) db f = f a db
bind_at (err e) db f = (err e, db)

infixl 5 ◌>>=◌ ◌>>◌
abbrev pub ◌>>=◌ : {A B : Type 0} → M A → (A → M B) → M B
◌>>=◌ m f db = bind_at (m db).0 (m db).1 f

abbrev pub ◌>>◌ : {A B : Type 0} → M A → M B → M B
m >> k = m >>= λ _. k

abbrev pub return : {A : Type 0} → A → M A
return a db = (ok a, db)

abbrev pub throw : {A : Type 0} → Error → M A
throw e db = (err e, db)

-- The rows that a query selects.
abbrev pub query : {A : Type 0} → (Db → A) → M A
query f db = (ok (f db), db)

abbrev pub exec : (Db → Db) → M (Unit {0})
exec f db = (ok tt, f db)

abbrev pub row_at : {A : Type 0} → Option A → Db → Result A × Db
row_at none db = (err no_rows, db)
row_at (some a) db = (ok a, db)

-- `QueryRow`: the first row, or `sql.ErrNoRows`.
abbrev pub query_row : {A : Type 0} → (Db → Option A) → M A
query_row f db = row_at (f db) db

pub Result-cases {ℓ} :
    {A : Type ℓ} (r : Result A) → ((a : A) × (r ≡ ok a)) ⊎ ((e : Error) × (r ≡ err e))
Result-cases (ok a) = inl (a, refl)
Result-cases (err e) = inr (e, refl)

-- A last step that only computes its result writes nothing.
pub state-return :
    {A B : Type 0} (m : M A) (g : A → B) (db : Db) → ((m >>= λ a. return (g a)) db).1 ≡ (m db).1
state-return m g db = elim (Result-cases (m db).0) [ inl (a, e) ↦ rw e | inr (x, e) ↦ rw e ]

-- The primary key of `eq_accounts`.
abbrev pub AccountsKeyed : Db → Type 0
AccountsKeyed db =
    (a b : EqAccount) → In a db.eq_accounts → In b db.eq_accounts → a.id ≡ b.id → a ≡ b
