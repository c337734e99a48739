-- ===== src/Store/Names.antt =====
-- internal/store/store.go: the aliases, tags and characters of an account (AddAlias, RemoveAlias,
-- AddTag, RemoveTag, AddCharacter, RemoveCharacter).
pub mod Laws
use alfred_identity_backend.Common.{
  ℕ, Bool, true, false, not, ◌&&◌, List, [], ◌∷◌, Option, none, some, ◌==◌, if◌then◌else◌, Text,
  text_eq, any, find, keep,
}
use alfred_identity_backend.Common.Strings.{trim_space, Lowering}
use alfred_identity_backend.Store.Db.{
  Db, M, AccountName, Error, ok, err, no_rows, constraint, alias_required, alias_taken,
  alias_not_found, tag_required, tag_not_found, character_required, character_taken,
  character_not_found,
}
use alfred_identity_backend.Store.Grants.{account_exists_in}

-- One of the three tables.
pub record NameTable : Type 0 where
  pub rows : Db → List AccountName
  pub put : List AccountName → Db → Db

abbrev pub alias_table : NameTable
alias_table = record { rows = λ db. db.aliases; put = λ rows db. record db { aliases = rows } }

abbrev pub tag_table : NameTable
tag_table = record {
  rows = λ db. db.account_tags;
  put = λ rows db. record db { account_tags = rows };
}

abbrev pub character_table : NameTable
character_table = record {
  rows = λ db. db.characters;
  put = λ rows db. record db { characters = rows };
}

module _ (low : Lowering) where
  -- `lower(name)=lower($1)`
  abbrev pub same_name : Text → AccountName → Bool
  same_name name n = text_eq (low.sql_lower n.name) (low.sql_lower name)

  -- An alias or a character belongs to one account: the steps of `AddAlias` and `AddCharacter`.
  unfoldable pub add_owned : NameTable → Error → Error → Text → ℕ → M (Unit {0})
  add_owned t required taken raw account db =
      let name = trim_space raw in
      if text_eq name [] then (err required, db) else elim (find (same_name name) (t.rows db)) [
        | some n ↦ if n.eq_account_id == account then (ok tt, db) else (err taken, db)
        | none ↦
            if account_exists_in db account
            then (ok tt, t.put (record { name = name; eq_account_id = account } ∷ t.rows db) db)
            else (err constraint, db)
      ]

  -- The steps of `RemoveAlias`, `RemoveTag` and `RemoveCharacter`.
  unfoldable pub remove_name : NameTable → Error → Error → Text → ℕ → M (Unit {0})
  remove_name t required not_found raw account db =
      let name = trim_space raw in
      let is_row = λ (n : AccountName). (n.eq_account_id == account) && same_name name n in
      if text_eq name []
      then (err required, db)
      else if any is_row (t.rows db)
      then (ok tt, t.put (keep (λ n. not (is_row n)) (t.rows db)) db)
      else (err not_found, db)

  unfoldable pub add_alias : Text → ℕ → M (Unit {0})
  unfolding add_owned
  add_alias = add_owned alias_table alias_required alias_taken

  unfoldable pub remove_alias : Text → ℕ → M (Unit {0})
  unfolding remove_name
  remove_alias = remove_name alias_table alias_required alias_not_found

  unfoldable pub add_tag : Text → ℕ → M (Unit {0})
  add_tag raw account db =
      let name = trim_space raw in
      if text_eq name []
      then (err tag_required, db)
      else if any (λ (n : AccountName). same_name name n && (n.eq_account_id == account))
          db.account_tags
      then (ok tt, db)
      else if account_exists_in db account
      then (
        ok tt,
        record db {
          account_tags = record { name = name; eq_account_id = account } ∷ db.account_tags;
        },
      )
      else (err constraint, db)

  unfoldable pub remove_tag : Text → ℕ → M (Unit {0})
  unfolding remove_name
  remove_tag = remove_name tag_table tag_required tag_not_found

  unfoldable pub add_character : Text → ℕ → M (Unit {0})
  unfolding add_owned
  add_character = add_owned character_table character_required character_taken

  unfoldable pub remove_character : Text → ℕ → M (Unit {0})
  unfolding remove_name
  remove_character = remove_name character_table character_required character_not_found

  -- `lower(name)=lower($1)`, the first row that the query gives.
  unfoldable pub account_id_by_character : Text → M ℕ
  account_id_by_character name db = elim (find (same_name name) db.characters) [
    | none ↦ (err no_rows, db)
    | some n ↦ (ok n.eq_account_id, db)
  ]
