-- ===== src/Web/Csv/Import.antt =====
-- internal/web/csv.go: importSSOAccountsCSV. The nonces of the ciphers are drawn in their order, and
-- an error message is a value.
use alfred_identity_backend.Common.{
  ℕ, suc, Bool, List, [], ◌∷◌, ◌++◌, Option, none, some, if◌then◌else◌, length, Text, codes,
  text_eq,
}
use alfred_identity_backend.Common.Bytes.{Bytes}
use alfred_identity_backend.Common.Strings.{Lowering}
use alfred_identity_backend.Common.Decimal.{decimal}
use alfred_identity_backend.Crypto.Aead.{Vault}
use alfred_identity_backend.Store.Db.{Db, M, Error, Result, ok, err}
use alfred_identity_backend.Store.Accounts.{
  find_eq_account_id_by_username, add_eq_account, set_eq_password,
}
use alfred_identity_backend.Store.Grants.{set_eq_required_role}
use alfred_identity_backend.Store.Names.{add_alias, add_tag, add_character}
use alfred_identity_backend.Web.Csv.{
  SsoCsvRow, DiscordRole, not_csv, no_rows_found, parsed, resolve_role_id, parse_sso_accounts_csv,
}

pub data Reason : Type 0 where
  unknown_role password_missing : Reason
  lookup_failed create_failed password_failed role_failed : Error → Reason
  alias_failed tag_failed character_failed : Text → Error → Reason

pub record ImportError : Type 0 where
  pub line : ℕ
  pub username : Text
  pub reason : Reason

-- The database, how many nonces were drawn, and `SSOCSVImportResult`.
pub record Import : Type 0 where
  pub db : Db
  pub draw : ℕ
  pub added : ℕ
  pub updated : ℕ
  pub errors : List ImportError

-- `res.Errors = append(res.Errors, ...)`
abbrev pub note : SsoCsvRow → Reason → Import → Import
note row reason st = record st {
  errors = st.errors ++ record { line = row.line; username = row.username; reason = reason } ∷ [];
}

-- A call of the store whose error is noted, and nothing else.
abbrev pub noted : SsoCsvRow → (Error → Reason) → Result (Unit {0}) → Import → Import
noted row reason (ok u) st = st
noted row reason (err e) st = note row (reason e) st

unfoldable pub attempt : SsoCsvRow → (Error → Reason) → M (Unit {0}) → Import → Import
attempt row reason m st = noted row reason (m st.db).0 (record st { db = (m st.db).1 })

-- The loops over the aliases, tags and characters of a row.
unfoldable pub attempt_each :
    SsoCsvRow → (Text → Error → Reason) → (Text → M (Unit {0})) → List Text → Import → Import
unfolding attempt
attempt_each row reason add [] st = st
attempt_each row reason add (x ∷ xs) st =
    attempt_each row reason add xs (attempt row (reason x) (add x) st)

module _ (v : Vault) (low : Lowering) (nonce : ℕ → Bytes) where
  -- The account of a row is new, and its number if it could be added.
  unfoldable pub create_account : SsoCsvRow → Import → Option ℕ × Import
  create_account row st =
      if text_eq row.password []
      then (none, note row password_missing st)
      else (let (r, db) =
            add_eq_account v low row.username row.password (nonce st.draw) (nonce (suc st.draw))
              st.db in
          let st2 = record st { db = db; draw = suc (suc st.draw) } in
          elim r [
            | err e ↦ (none, note row (create_failed e) st2)
            | ok id ↦ (some id, record st2 { added = suc st2.added })
          ])

  -- The account of a row is there; it gets the password of the row, if there is one.
  unfoldable pub renew_account : SsoCsvRow → ℕ → Import → Option ℕ × Import
  renew_account row id st =
      if text_eq row.password []
      then (some id, record st { updated = suc st.updated })
      else (let (r, db) = set_eq_password v low id row.password (nonce st.draw) st.db in
          let st2 = record st { db = db; draw = suc st.draw } in
          elim r [
            | err e ↦ (none, note row (password_failed e) st2)
            | ok u ↦ (some id, record st2 { updated = suc st2.updated })
          ])

  unfoldable pub find_or_create : SsoCsvRow → Import → Option ℕ × Import
  unfolding create_account renew_account
  find_or_create row st = elim (find_eq_account_id_by_username v low row.username st.db).0 [
    | err e ↦ (none, note row (lookup_failed e) st)
    | ok none ↦ create_account row st
    | ok (some id) ↦ renew_account row id st
  ]

  -- An alias that is the user name is passed over.
  unfoldable pub attempt_aliases : SsoCsvRow → ℕ → List Text → Import → Import
  unfolding attempt
  attempt_aliases row id [] st = st
  attempt_aliases row id (a ∷ aliases) st =
      let passed = attempt_aliases row id aliases st in
      let added =
        attempt_aliases row id aliases (attempt row (alias_failed a) (add_alias low a id) st) in
      if low.equal_fold a row.username then passed else added

  -- The role and the names of a row.
  unfoldable pub apply_row : SsoCsvRow → Text → ℕ → Import → Import
  unfolding attempt attempt_each attempt_aliases
  apply_row row role id st =
      let st2 = attempt row role_failed (set_eq_required_role id role) st in
      let st3 = attempt_aliases row id row.aliases st2 in
      let st4 = attempt_each row tag_failed (λ tag. add_tag low tag id) row.tags st3 in
      attempt_each row character_failed (λ ch. add_character low ch id) row.characters st4

  unfoldable pub and_apply : SsoCsvRow → Text → Option ℕ × Import → Import
  unfolding apply_row
  and_apply row role (none, st) = st
  and_apply row role (some id, st) = apply_row row role id st

  module _ (is_digit : ℕ → Bool) (utf8 : Text → Bytes) (roles : List DiscordRole) where
    unfoldable pub import_row : SsoCsvRow → Import → Import
    unfolding resolve_role_id find_or_create and_apply
    import_row row st = elim (resolve_role_id low is_digit utf8 row.role roles) [
      | none ↦ note row unknown_role st
      | some role ↦ and_apply row role (find_or_create row st)
    ]

    unfoldable pub import_rows : List SsoCsvRow → Import → Import
    unfolding import_row
    import_rows [] st = st
    import_rows (row ∷ rows) st = import_rows rows (import_row row st)

    abbrev pub start : Db → Import
    start db = record { db = db; draw = 0; added = 0; updated = 0; errors = [] }

    abbrev pub report : Import → Text
    unfolding decimal
    report st =
        codes "added="
        ++ (decimal st.added
            ++ (codes " updated="
                ++ (decimal st.updated ++ (codes " errors=" ++ decimal (length st.errors)))))

    -- What the import has done, and the detail of its audit row; `none` is a text without rows.
    unfoldable pub import_sso_accounts_csv : Text → Db → Option (Import × Text)
    unfolding parse_sso_accounts_csv import_rows decimal
    import_sso_accounts_csv text db = elim (parse_sso_accounts_csv low text) [
      | not_csv ↦ none
      | no_rows_found ↦ none
      | parsed rows ↦ (let st = import_rows rows (start db) in some (st, report st))
    ]
