-- ===== src/Web/Csv.antt =====
-- internal/web/csv.go: the rows of accounts as CSV, and their export. The metas of the accounts
-- (ListEQAccountMetas) and the known roles (ListDiscordRoles) are arguments.
pub mod Import
pub mod Growth
pub mod Steps
pub mod Kept
pub mod Parts
pub mod RoundTrip
pub mod Private
use alfred_identity_backend.Common.{
  ℕ, zero, suc, Bool, true, false, not, ◌&&◌, ◌||◌, List, [], ◌∷◌, map, Option, none, some, ltb,
  ◌==◌, if◌then◌else◌, length, keep, any, find, Text, codes, text_eq,
}
use alfred_identity_backend.Common.Bytes.{Bytes}
use alfred_identity_backend.Common.Strings.{trim_space, Lowering}
use alfred_identity_backend.Common.Decimal.{join}
use alfred_identity_backend.Common.CsvFormat.{read_all, write_all}
use alfred_identity_backend.Crypto.Aead.{Vault}
use alfred_identity_backend.Store.Db.{Db, Result, ok, err}
use alfred_identity_backend.Store.Credentials.{decrypt_credentials}

pub record SsoCsvRow : Type 0 where
  pub username : Text
  pub password : Text
  pub role : Text
  pub aliases : List Text
  pub tags : List Text
  pub characters : List Text
  pub line : ℕ

pub record DiscordRole : Type 0 where
  pub id : Text
  pub name : Text

-- What the export reads of an `EQAccountMeta`.
pub record EqAccountMeta : Type 0 where
  pub id : ℕ
  pub username : Text
  pub restricted : Bool
  pub required_role_id : Text
  pub required_role_ids : List Text
  pub aliases : List Text
  pub tags : List Text
  pub characters : List Text

pub data Parsed : Type 0 where
  not_csv no_rows_found : Parsed
  parsed : List SsoCsvRow → Parsed

-- `strings.FieldsFunc`: the parts between separators that are not empty.
unfoldable pub split_func : (ℕ → Bool) → Text → List Text
split_func is_sep [] = [] ∷ []
split_func is_sep (c ∷ cs) = elim (split_func is_sep cs) [
  | [] ↦ [] ∷ []
  | part ∷ parts ↦ if is_sep c then [] ∷ part ∷ parts else (c ∷ part) ∷ parts
]

unfoldable pub fields_func : (ℕ → Bool) → Text → List Text
unfolding split_func
fields_func is_sep s = keep (λ part. not (text_eq part [])) (split_func is_sep s)

abbrev pub contains_char : ℕ → Text → Bool
contains_char c s = any (λ d. d == c) s

-- A bar separates only if it is there and a comma is not; a semicolon always does.
abbrev pub separator : Text → ℕ
separator s = if contains_char b'|' s && not (contains_char b',' s) then b'|' else b','

-- Fields that are missing are empty.
abbrev pub field_at : ℕ → List Text → Text
field_at n [] = []
field_at zero (f ∷ fs) = f
field_at (suc n) (f ∷ fs) = field_at n fs

module _ (low : Lowering) where
  -- The trimmed parts that are not empty, each once up to letter case.
  unfoldable pub distinct_parts : List Text → List Text → List Text
  unfolding trim_space
  distinct_parts seen [] = []
  distinct_parts seen (x ∷ xs) =
      let p = trim_space x in
      let key = low.to_lower p in
      let rest = distinct_parts (key ∷ seen) xs in
      let skipped = distinct_parts seen xs in
      if text_eq p [] || any (λ k. text_eq k key) seen then skipped else p ∷ rest

  -- The part of `splitMulti` after the first trimming.
  unfoldable pub split_trimmed : Text → List Text
  unfolding fields_func distinct_parts
  split_trimmed s =
      if text_eq s []
      then []
      else distinct_parts [] (fields_func (λ c. (c == separator s) || (c == b';')) s)

  unfoldable pub split_multi : Text → List Text
  unfolding split_trimmed
  split_multi s = split_trimmed (trim_space s)

  -- `i == 0` and the first field names a column.
  abbrev pub is_header : ℕ → List Text → Bool
  is_header i row =
      let h0 = low.to_lower (trim_space (field_at 0 row)) in
      (i == 0)
      && (text_eq h0 (codes "username")
          || (text_eq h0 (codes "account") || text_eq h0 (codes "name")))

  abbrev pub row_of : ℕ → List Text → SsoCsvRow
  row_of i row = record {
    username = trim_space (field_at 0 row);
    password = trim_space (field_at 1 row);
    role = trim_space (field_at 2 row);
    aliases = split_multi (field_at 3 row);
    tags = split_multi (field_at 4 row);
    characters = split_multi (field_at 5 row);
    line = suc i;
  }

  -- The loop over the records, the first of which has the number `i`.
  unfoldable pub parse_rows : ℕ → List (List Text) → List SsoCsvRow
  unfolding trim_space split_multi
  parse_rows i [] = []
  parse_rows i (row ∷ rows) =
      let rest = parse_rows (suc i) rows in
      let r = row_of i row in if is_header i row || text_eq r.username [] then rest else r ∷ rest

  abbrev pub some_rows : List SsoCsvRow → Parsed
  some_rows [] = no_rows_found
  some_rows (r ∷ rs) = parsed (r ∷ rs)

  unfoldable pub parse_sso_accounts_csv : Text → Parsed
  unfolding read_all parse_rows
  parse_sso_accounts_csv text = elim (read_all text) [
    | none ↦ not_csv
    | some rows ↦ some_rows (parse_rows 0 rows)
  ]

  -- `none` is an unknown role. What `unicode.IsDigit` takes for a digit and the bytes of a text are
  -- arguments.
  abbrev pub is_discord_snowflake : (ℕ → Bool) → (Text → Bytes) → Text → Bool
  is_discord_snowflake is_digit utf8 s =
      not (ltb (length (utf8 s)) 17 || ltb 20 (length (utf8 s)))
      && not (any (λ c. not (is_digit c)) s)

  unfoldable pub resolve_role_id :
      (ℕ → Bool) → (Text → Bytes) → Text → List DiscordRole → Option Text
  unfolding trim_space
  resolve_role_id is_digit utf8 raw roles =
      let role = trim_space raw in
      if text_eq role []
      then some []
      else elim (find (λ (r : DiscordRole). text_eq r.id role) roles) [
        | some r ↦ some r.id
        | none ↦ elim (find (λ (r : DiscordRole). low.equal_fold r.name role) roles) [
          | some r ↦ some r.id
          | none ↦ if is_discord_snowflake is_digit utf8 role then some role else none
        ]
      ]

abbrev pub join_multi : List Text → Text
join_multi parts = join (codes ",") parts

-- The name of a known role, unless it is blank.
abbrev pub name_or : Text → Text → Text
name_or id name = if text_eq name [] then id else name

unfoldable pub role_label : Text → List DiscordRole → Text
unfolding trim_space
role_label raw roles =
    let id = trim_space raw in
    if text_eq id [] then [] else elim (find (λ (r : DiscordRole). text_eq r.id id) roles) [
      | none ↦ id
      | some r ↦ name_or id (trim_space r.name)
    ]

abbrev pub columns : List Text
columns =
    codes "username"
    ∷ codes "password"
    ∷ codes "role"
    ∷ codes "aliases"
    ∷ codes "tags"
    ∷ codes "characters"
    ∷ []

module _ (v : Vault) (low : Lowering) where
  -- The aliases that are not blank and not the user name.
  unfoldable pub other_aliases : Text → List Text → List Text
  unfolding trim_space
  other_aliases username [] = []
  other_aliases username (a ∷ aliases) =
      let alias = trim_space a in
      let rest = other_aliases username aliases in
      if text_eq alias [] || low.equal_fold alias username then rest else alias ∷ rest

  abbrev pub role_of : EqAccountMeta → List DiscordRole → Text
  unfolding role_label
  role_of m roles = elim m.required_role_ids [
    | r ∷ rs ↦ role_label r roles
    | [] ↦ if text_eq m.required_role_id [] then [] else role_label m.required_role_id roles
  ]

  abbrev pub exported_row : EqAccountMeta → List DiscordRole → Text → Text → List Text
  unfolding other_aliases join
  exported_row m roles username password =
      username
      ∷ password
      ∷ role_of m roles
      ∷ join_multi (other_aliases username m.aliases)
      ∷ join_multi m.tags
      ∷ join_multi m.characters
      ∷ []

  -- The record of an account; none for a private share, or one that does not open.
  unfoldable pub export_row : Db → Bool → List DiscordRole → EqAccountMeta → Option (List Text)
  unfolding decrypt_credentials
  export_row db include_passwords roles m =
      if m.restricted
      then none
      else if not include_passwords
      then some (exported_row m roles m.username [])
      else elim (decrypt_credentials v m.id true db).0 [
        | err e ↦ none
        | ok (username, password) ↦ some (exported_row m roles username password)
      ]

  unfoldable pub export_rows : Db → Bool → List DiscordRole → List EqAccountMeta → List (List Text)
  unfolding export_row
  export_rows db include_passwords roles [] = []
  export_rows db include_passwords roles (m ∷ metas) =
      let rest = export_rows db include_passwords roles metas in
      elim (export_row db include_passwords roles m) [ none ↦ rest | some row ↦ row ∷ rest ]

  -- The text, and how many accounts are in it.
  unfoldable pub export_sso_accounts_csv :
      Db → Bool → List DiscordRole → List EqAccountMeta → Text × ℕ
  unfolding export_rows write_all
  export_sso_accounts_csv db include_passwords roles metas =
      let rows = export_rows db include_passwords roles metas in
      (write_all (columns ∷ rows), length rows)
