-- ===== src/Web/Csv/Kept.antt =====
-- What an import leaves of the accounts that are there.
use alfred_identity_backend.Common.{
  ℕ, suc, ◌≡◌, ◌⊎◌, refl, sym, ◌∙◌, ap, subst, inl, inr, Bool, true, List, [], ◌∷◌, Option, none,
  some, if◌then◌else◌, length, Text, text_eq, text_eq_iff, any, find, find-some, In, arith,
  Bool-cases, Option-cases,
}
use alfred_identity_backend.Common.Bytes.{Bytes}
use alfred_identity_backend.Common.Strings.{Lowering}
use alfred_identity_backend.Crypto.Aead.{Vault, seal}
use alfred_identity_backend.Store.Db.{Db, EqAccount, constraint, ok, Result-cases}
use alfred_identity_backend.Store.Accounts.{
  blind_of, new_row, add_eq_account, set_eq_password, find_eq_account_id_by_username,
}
use alfred_identity_backend.Store.Grants.{set_eq_required_role}
use alfred_identity_backend.Store.Names.{add_alias, add_tag, add_character}
use alfred_identity_backend.Web.Csv.{SsoCsvRow, DiscordRole, resolve_role_id}
use alfred_identity_backend.Web.Csv.Import.{
  Import, ImportError, Reason, unknown_role, role_failed, note, attempt, attempt_each,
  attempt_aliases, create_account, renew_account, find_or_create, apply_row, import_row,
  import_rows, tag_failed, character_failed, alias_failed, lookup_failed, create_failed, and_apply,
  start, password_missing,
}
use alfred_identity_backend.Web.Csv.Growth.{
  Grows, Grows-refl, Grows-trans, update_account-Grows, set_eq_required_role-Growing,
  add_alias-Growing, add_character-Growing, add_tag-Growing,
}
use alfred_identity_backend.Web.Csv.Steps.{
  is_stop, counted, Step, Step-refl, Step-trans, In-last, note-Step, attempt-Step,
  attempt_each-Step,
}

module _ (v : Vault) (low : Lowering) (nonce : ℕ → Bytes) (row : SsoCsvRow) where
  attempt_aliases-Step :
      (id : ℕ) (xs : List Text) (st : Import) → Step 0 st (attempt_aliases v low nonce row id xs st)
  unfolding attempt_aliases
  attempt_aliases-Step id [] st = Step-refl st
  attempt_aliases-Step id (a ∷ xs) st = elim (Bool-cases (low.equal_fold a row.username)) [
    | inl same ↦ rw same (attempt_aliases-Step id xs st)
    | inr other ↦
        let st2 = attempt row (alias_failed a) (add_alias low a id) st in
        rw other (
          Step-trans 0 0 st st2 (attempt_aliases v low nonce row id xs st2)
            (attempt-Step row (alias_failed a) (add_alias low a id) st (add_alias-Growing low id a)
              (λ e. refl))
            (attempt_aliases-Step id xs st2))
  ]

  apply_row-Step :
      (role : Text) (id : ℕ) (st : Import) → Step 0 st (apply_row v low nonce row role id st)
  unfolding apply_row
  apply_row-Step role id st =
      let st2 = attempt row role_failed (set_eq_required_role id role) st in
      let st3 = attempt_aliases v low nonce row id row.aliases st2 in
      let st4 = attempt_each row tag_failed (λ tag. add_tag low tag id) row.tags st3 in
      let st5 =
        attempt_each row character_failed (λ ch. add_character low ch id) row.characters st4 in
      Step-trans 0 0 st st4 st5
        (Step-trans 0 0 st st3 st4
          (Step-trans 0 0 st st2 st3
            (attempt-Step row role_failed (set_eq_required_role id role) st
              (set_eq_required_role-Growing id role) (λ e. refl))
            (attempt_aliases-Step id row.aliases st2))
          (attempt_each-Step row tag_failed (λ tag. add_tag low tag id) row.tags st3
            (add_tag-Growing low id) (λ x e. refl)))
        (attempt_each-Step row character_failed (λ ch. add_character low ch id) row.characters st4
          (add_character-Growing low id) (λ x e. refl))

  -- An error that the row was given up for, or an account with the user name of the row.
  abbrev pub Stopped : Import → Type 0
  Stopped st =
      (e : ImportError) × In e st.errors
      × (e.line ≡ row.line)
      × (e.username ≡ row.username)
      × (is_stop e.reason ≡ true)

  abbrev pub HasAccount : Db → Type 0
  HasAccount db =
      (a : EqAccount) × In a db.eq_accounts × (a.username_blind ≡ blind_of v low row.username)

  abbrev pub IsSettled : Import → Type 0
  IsSettled st = Stopped st ⊎ HasAccount st.db

  Step-IsSettled : (n : ℕ) (st out : Import) → Step n st out → IsSettled st → IsSettled out
  Step-IsSettled n st out p (inl (e, i, l, u, s)) = inl (e, p.errors e i, l, u, s)
  Step-IsSettled n st out p (inr (a, i, b)) =
      let (c, j, same) = p.grows a i in inr (c, j, same.2 ∙ b)

  given_up :
      (reason : Reason) (st : Import)
      → is_stop reason ≡ true
      → Step 1 st (note row reason st) × IsSettled (note row reason st)
  given_up reason st h = (
    subst (λ b. Step (if b then 1 else 0) st (note row reason st)) h (note-Step row reason st),
    inl (
      record { line = row.line; username = row.username; reason = reason },
      In-last _ st.errors,
      refl,
      refl,
      h,
    ),
  )

  abbrev is_taken : Db → Bool
  is_taken db =
      any (λ (a : EqAccount). text_eq a.username_blind (blind_of v low row.username)) db.eq_accounts

  -- The state after the two nonces of a new account.
  abbrev drawn : Import → Import
  drawn st = record st { draw = suc (suc st.draw) }

  abbrev with_account : Import → Import
  with_account st = record (drawn st) {
    db = record st.db {
      eq_accounts =
          new_row v low st.db.next_account row.username row.password (nonce st.draw)
            (nonce (suc st.draw))
          ∷ st.db.eq_accounts;
      next_account = suc st.db.next_account;
    };
    added = suc st.added;
  }

  create_account-cases :
      (st : Import)
      → (create_account v low nonce row st ≡ (none, note row password_missing st))
        ⊎ ((create_account v low nonce row st
              ≡ (none, note row (create_failed constraint) (drawn st)))
            ⊎ (create_account v low nonce row st ≡ (some st.db.next_account, with_account st)))
  unfolding create_account add_eq_account
  create_account-cases st = elim (Bool-cases (text_eq row.password [])) [
    | inl missing ↦ inl (ground (arith, missing))
    | inr given ↦ elim (Bool-cases (is_taken st.db)) [
      | inl taken ↦ inr (inl (ground (arith, given, taken)))
      | inr free ↦ inr (inr (ground (arith, given, free)))
    ]
  ]

  abbrev Goes : Import → Option ℕ × Import → Type 0
  Goes st r = Step 1 st r.1 × IsSettled r.1

  create_account-Step : (st : Import) → Goes st (create_account v low nonce row st)
  unfolding seal
  create_account-Step st = elim (create_account-cases st) [
    | inl e ↦ subst (Goes st) (sym e) (given_up password_missing st refl)
    | inr (inl e) ↦
        let start : Step 0 st (drawn st) = record {
          grows = Grows-refl st.db;
          errors = λ e i. i;
          counts = omega arith;
        } in
        let (stop, settled) = given_up (create_failed constraint) (drawn st) refl in
        subst (Goes st) (sym e) (
          Step-trans 0 1 st (drawn st) (note row (create_failed constraint) (drawn st)) start stop,
          settled,
        )
    | inr (inr e) ↦ subst (Goes st) (sym e) (
      record {
        grows = λ a i. (a, inr i, (refl, refl, refl, refl, refl, refl));
        errors = λ x i. i;
        counts = omega arith;
      },
      inr (
        new_row v low st.db.next_account row.username row.password (nonce st.draw)
            (nonce (suc st.draw)),
        inl refl,
        refl,
      ),
    )
  ]

  renew_account-Step :
      (id : ℕ) (st : Import)
      → HasAccount st.db
      → Step 1 st (renew_account v low nonce row id st).1
        × IsSettled (renew_account v low nonce row id st).1
  unfolding renew_account set_eq_password
  renew_account-Step id st h = elim (Bool-cases (text_eq row.password [])) [
    | inl missing ↦
        rw missing
          (record { grows = Grows-refl st.db; errors = λ e i. i; counts = omega arith }, inr h)
    | inr given ↦
        let grows = update_account-Grows id _ st.db (λ a. (refl, refl, refl, refl, refl, refl)) in
        let (a, i, b) = h in
        let (c, j, same) = grows a i in
        rw given (
          record { grows = grows; errors = λ e i. i; counts = omega arith },
          inr (c, j, same.2 ∙ b),
        )
  ]

  found_account :
      (st : Import) (id : ℕ)
      → (find_eq_account_id_by_username v low row.username st.db).0 ≡ ok (some id)
      → HasAccount st.db
  unfolding find_eq_account_id_by_username
  found_account st id e =
      let is_row = λ (a : EqAccount). text_eq a.username_blind (blind_of v low row.username) in
      elim (Option-cases (find is_row st.db.eq_accounts)) [
        | inl q ↦ absurd (ground (arith, e, q))
        | inr (a, q) ↦
            let (i, t) = find-some is_row st.db.eq_accounts a q in
            (a, i, (text_eq_iff a.username_blind (blind_of v low row.username)).0 t)
      ]

  find_or_create-Step :
      (st : Import)
      → Step 1 st (find_or_create v low nonce row st).1
        × IsSettled (find_or_create v low nonce row st).1
  unfolding find_or_create
  find_or_create-Step st =
      elim (Result-cases (find_eq_account_id_by_username v low row.username st.db).0) [
        | inr (x, e) ↦ rw (e, find_or_create) (given_up (lookup_failed x) st refl)
        | inl (known, e) ↦ elim (Option-cases known) [
          | inl q ↦ rw (e ∙ ap (λ k. ok k) q, find_or_create) (create_account-Step st)
          | inr (id, q) ↦
              rw (e ∙ ap (λ k. ok k) q, find_or_create)
                (renew_account-Step id st (found_account st id (e ∙ ap (λ k. ok k) q)))
        ]
      ]

  applied :
      (role : Text) (st : Import) (r : Option ℕ × Import)
      → Goes st r
      → Goes st (none, and_apply v low nonce row role r)
  unfolding and_apply
  applied role st (none, out) (p, settled) = (p, settled)
  applied role st (some id, out) (p, settled) =
      let after = apply_row v low nonce row role id out in
      let quiet = apply_row-Step role id out in
      (Step-trans 1 0 st out after p quiet, Step-IsSettled 0 out after quiet settled)

module _ (v : Vault) (low : Lowering) (nonce : ℕ → Bytes) (is_digit : ℕ → Bool)
    (utf8 : Text → Bytes) (roles : List DiscordRole) where
  import_row-Step :
      (row : SsoCsvRow) (st : Import)
      → Goes v low nonce row st (none, import_row v low nonce is_digit utf8 roles row st)
  unfolding import_row
  import_row-Step row st = elim (Option-cases (resolve_role_id low is_digit utf8 row.role roles)) [
    | inl e ↦ rw (e, import_row) (given_up v low nonce row unknown_role st refl)
    | inr (role, e) ↦
        rw (e, import_row)
          (applied v low nonce row role st (find_or_create v low nonce row st)
            (find_or_create-Step v low nonce row st))
  ]

  import_rows-Step :
      (rows : List SsoCsvRow) (st : Import)
      → Step (length rows) st (import_rows v low nonce is_digit utf8 roles rows st)
  unfolding import_rows
  import_rows-Step [] st = Step-refl st
  import_rows-Step (row ∷ rows) st =
      let next = import_row v low nonce is_digit utf8 roles row st in
      let out = import_rows v low nonce is_digit utf8 roles rows next in
      let (one, settled) = import_row-Step row st in
      let more = import_rows-Step rows next in
      record {
        grows = Grows-trans st.db next.db out.db one.grows more.grows;
        errors = λ e i. more.errors e (one.errors e i);
        counts = omega (arith, more.counts, one.counts);
      }

  each-IsSettled :
      (rows : List SsoCsvRow) (st : Import) (row : SsoCsvRow)
      → In row rows
      → IsSettled v low nonce row (import_rows v low nonce is_digit utf8 roles rows st)
  unfolding import_rows
  each-IsSettled [] st row i = absurd i
  each-IsSettled (r ∷ rows) st row (inr i) =
      each-IsSettled rows (import_row v low nonce is_digit utf8 roles r st) row i
  each-IsSettled (r ∷ rows) st row (inl e) =
      let next = import_row v low nonce is_digit utf8 roles r st in
      subst
        (λ (x : SsoCsvRow).
          IsSettled v low nonce x (import_rows v low nonce is_digit utf8 roles rows next))
        e
        (Step-IsSettled v low nonce r (length rows) next
          (import_rows v low nonce is_digit utf8 roles rows next) (import_rows-Step rows next)
          (import_row-Step r st).1)

  -- After the rows of an import, each row has either an account with its user name or an error with
  -- its line and user name that says why it was given up; the accounts added, the accounts updated
  -- and the rows given up together are as many as the rows; and every account of before is still
  -- there, with its user name, owner, and marks of a disabled account and of a private share.
  pub import_rows-IsSettled :
      (rows : List SsoCsvRow) (db : Db)
      → ((row : SsoCsvRow)
          → In row rows
          → IsSettled v low nonce row (
              import_rows v low nonce is_digit utf8 roles rows
                (start v low nonce is_digit utf8 roles db)))
        × (counted (
              import_rows v low nonce is_digit utf8 roles rows
                (start v low nonce is_digit utf8 roles db))
            ≡ length rows)
        × Grows db
            (import_rows v low nonce is_digit utf8 roles rows
              (start v low nonce is_digit utf8 roles db)).db
  import_rows-IsSettled rows db =
      let first = start v low nonce is_digit utf8 roles db in
      let step = import_rows-Step rows first in
      (λ row i. each-IsSettled rows first row i, omega (arith, step.counts), step.grows)
