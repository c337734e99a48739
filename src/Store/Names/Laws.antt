-- ===== src/Store/Names/Laws.antt =====
-- Names of accounts: an alias or a character belongs to one account, and what adding and removing do.
use alfred_identity_backend.Common.{
  ℕ, ◌≡◌, ◌≢◌, ◌⊎◌, ◌↔◌, inl, inr, sym, ◌∙◌, ap, Bool, true, not, ◌&&◌, List, [], ◌∷◌, Option, none,
  some, ◌==◌, ==_iff, Text, text_eq, text_eq_iff, text_eq_refl, any, found_any, find, find-some,
  keep, In, In-keep_inv, arith, Bool-cases, Option-cases,
}
use alfred_identity_backend.Common.Strings.{trim_space, Lowering}
use alfred_identity_backend.Crypto.Aead.{Vault}
use alfred_identity_backend.Store.Db.{
  constraint, Db, AccountName, Error, ok, err, alias_required, alias_taken, alias_not_found,
  character_required, character_taken, character_not_found,
}
use alfred_identity_backend.Store.Grants.{account_exists_in}
use alfred_identity_backend.Store.Candidates.{has_name}
use alfred_identity_backend.Store.Names.{
  NameTable, alias_table, character_table, same_name, add_owned, remove_name, add_alias,
  remove_alias, add_character, remove_character,
}

module _ (low : Lowering) where
  -- Two rows whose names differ in case only are the same row.
  abbrev pub OneOwner : List AccountName → Type 0
  OneOwner rows =
      (m n : AccountName)
      → In m rows
      → In n rows
      → low.sql_lower m.name ≡ low.sql_lower n.name
      → m ≡ n

  no_row :
      (name : Text) (rows : List AccountName)
      → find (same_name low name) rows ≡ none
      → (n : AccountName) → In n rows
      → low.sql_lower n.name ≢ low.sql_lower name
  no_row name [] e n i = absurd i
  no_row name (m ∷ rows) e n i = elim (Bool-cases (same_name low name m)) [
    | inl hit ↦ ground arith
    | inr miss ↦ elim i [
      | inl p ↦ ground (arith, text_eq_iff (low.sql_lower m.name) (low.sql_lower name))
      | inr j ↦ no_row name rows (ground arith) n j
    ]
  ]

  cons-OneOwner :
      (name : Text) (account : ℕ) (rows : List AccountName)
      → find (same_name low name) rows ≡ none
      → OneOwner rows
      → OneOwner (record { name = name; eq_account_id = account } ∷ rows)
  cons-OneOwner name account rows e one m n (inl p) (inl q) same = sym p ∙ q
  cons-OneOwner name account rows e one m n (inl p) (inr j) same =
      absurd
        (no_row name rows e n j (sym same ∙ ap (λ (x : AccountName). low.sql_lower x.name) (sym p)))
  cons-OneOwner name account rows e one m n (inr i) (inl q) same =
      absurd
        (no_row name rows e m i (same ∙ ap (λ (x : AccountName). low.sql_lower x.name) (sym q)))
  cons-OneOwner name account rows e one m n (inr i) (inr j) same = one m n i j same

  keep-OneOwner :
      (p : AccountName → Bool) (rows : List AccountName) → OneOwner rows → OneOwner (keep p rows)
  keep-OneOwner p rows one m n i j = one m n (In-keep_inv p m rows i).0 (In-keep_inv p n rows j).0

  -- The row that `add_owned` inserts, and those that `remove_name` deletes.
  abbrev added : NameTable → Text → ℕ → Db → Db
  added t raw account db =
      t.put (record { name = trim_space raw; eq_account_id = account } ∷ t.rows db) db

  abbrev is_row : Text → ℕ → AccountName → Bool
  is_row raw account n = (n.eq_account_id == account) && same_name low (trim_space raw) n

  add_owned_cases :
      (P : Db → Type 0) (t : NameTable) (required taken : Error) (raw : Text) (account : ℕ)
      (db : Db)
      → P db
      → (find (same_name low (trim_space raw)) (t.rows db) ≡ none → P (added t raw account db))
      → P (add_owned low t required taken raw account db).1
  unfolding add_owned
  add_owned_cases P t required taken raw account db old new =
      elim (Bool-cases (text_eq (trim_space raw) [])) [
        | inl blank ↦ rw (blank, add_owned) old
        | inr filled ↦ elim (Option-cases (find (same_name low (trim_space raw)) (t.rows db))) [
          | inr (n, e) ↦ elim (Bool-cases (n.eq_account_id == account)) [
            | inl own ↦ rw (filled, e, own, add_owned) old
            | inr other ↦ rw (filled, e, other, add_owned) old
          ]
          | inl e ↦ elim (Bool-cases (account_exists_in db account)) [
            | inl known ↦ rw (filled, e, known, add_owned) (new e)
            | inr unknown ↦ rw (filled, e, unknown, add_owned) old
          ]
        ]
      ]

  remove_name_cases :
      (P : Db → Type 0) (t : NameTable) (required not_found : Error) (raw : Text) (account : ℕ)
      (db : Db)
      → P db
      → P (t.put (keep (λ n. not (is_row raw account n)) (t.rows db)) db)
      → P (remove_name low t required not_found raw account db).1
  unfolding remove_name
  remove_name_cases P t required not_found raw account db old new =
      elim (Bool-cases (text_eq (trim_space raw) [])) [
        | inl blank ↦ rw (blank, remove_name) old
        | inr filled ↦ elim (Bool-cases (any (is_row raw account) (t.rows db))) [
          | inl some_row ↦ rw (filled, some_row, remove_name) new
          | inr no_rows ↦ rw (filled, no_rows, remove_name) old
        ]
      ]

  -- If no two aliases and no two characters differ in letter case only, this still holds after
  -- AddAlias, RemoveAlias, AddCharacter and RemoveCharacter, whether they succeed or fail.
  pub names-OneOwner :
      (raw : Text) (account : ℕ) (db : Db)
      → OneOwner db.aliases
      → OneOwner db.characters
      → OneOwner (add_alias low raw account db).1.aliases
        × OneOwner (remove_alias low raw account db).1.aliases
        × OneOwner (add_character low raw account db).1.characters
        × OneOwner (remove_character low raw account db).1.characters
  unfolding add_alias remove_alias add_character remove_character
  names-OneOwner raw account db aliases characters = (
    add_owned_cases (λ d. OneOwner d.aliases) alias_table alias_required alias_taken raw account db
        aliases (λ e. cons-OneOwner (trim_space raw) account db.aliases e aliases),
    remove_name_cases (λ d. OneOwner d.aliases) alias_table alias_required alias_not_found raw
        account db aliases (keep-OneOwner _ db.aliases aliases),
    add_owned_cases (λ d. OneOwner d.characters) character_table character_required character_taken
        raw account db characters
        (λ e. cons-OneOwner (trim_space raw) account db.characters e characters),
    remove_name_cases (λ d. OneOwner d.characters) character_table character_required
        character_not_found raw account db characters (keep-OneOwner _ db.characters characters),
  )

  -- The owner of a name, if there is one, is the account; if there is none, the account exists.
  abbrev pub Free : ℕ → Bool → Option AccountName → Type 0
  Free account exists none = exists ≡ true
  Free account exists (some n) = n.eq_account_id ≡ account

  found_name :
      (v : Vault) (name : Text) (account : ℕ) (rows : List AccountName) (n : AccountName)
      → find (same_name low name) rows ≡ some n
      → n.eq_account_id ≡ account
      → has_name v low rows account name ≡ true
  found_name v name account rows n e own =
      let (i, t) = find-some (same_name low name) rows n e in
      found_any
        (λ (m : AccountName).
          (m.eq_account_id == account) && text_eq (low.sql_lower m.name) (low.sql_lower name))
        n rows i (ground (arith, ==_iff n.eq_account_id account))

  -- AddAlias succeeds exactly if the trimmed name is not blank and either belongs to the account
  -- already, or belongs to none and the account exists; after a success the account has the trimmed
  -- name as an alias, and a failure writes nothing.
  pub add_alias_lem :
      (v : Vault) (raw : Text) (account : ℕ) (db : Db)
      → (((add_alias low raw account db).0 ≡ ok tt) ↔ (
          (trim_space raw ≢ [])
          × Free account
              (account_exists_in db account)
              (find (same_name low (trim_space raw)) db.aliases)))
        × ((((add_alias low raw account db).0 ≡ ok tt)
              × (has_name v low (add_alias low raw account db).1.aliases account (trim_space raw)
                  ≡ true))
            ⊎ ((e : Error) × (add_alias low raw account db ≡ (err e, db))))
  unfolding add_alias add_owned
  add_alias_lem v raw account db = elim (Bool-cases (text_eq (trim_space raw) [])) [
    | inl blank ↦
        (ground (arith, text_eq_iff (trim_space raw) []), inr (alias_required, ground arith))
    | inr filled ↦ elim (Option-cases (find (same_name low (trim_space raw)) db.aliases)) [
      | inr (n, e) ↦ elim (Bool-cases (n.eq_account_id == account)) [
        | inl own ↦ (
          ground (arith, text_eq_iff (trim_space raw) []),
          inl (ground arith, ground (arith, found_name v (trim_space raw) account db.aliases n e)),
        )
        | inr other ↦
            (ground (arith, text_eq_iff (trim_space raw) []), inr (alias_taken, ground arith))
      ]
      | inl e ↦ elim (Bool-cases (account_exists_in db account)) [
        | inl known ↦ (
          ground (arith, text_eq_iff (trim_space raw) []),
          inl (ground arith, ground (arith, text_eq_refl (low.sql_lower (trim_space raw)))),
        )
        | inr unknown ↦
            (ground (arith, text_eq_iff (trim_space raw) []), inr (constraint, ground arith))
      ]
    ]
  ]
