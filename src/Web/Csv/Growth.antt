-- ===== src/Web/Csv/Growth.antt =====
-- Operations of the store that leave the accounts that are there.
use alfred_identity_backend.Common.{
  ℕ, ◌≡◌, refl, sym, ◌∙◌, subst, inl, inr, List, [], ◌∷◌, ◌==◌, if◌then◌else◌, Text, text_eq, In,
  In-map, arith, Bool-cases,
}
use alfred_identity_backend.Common.Strings.{trim_space, clean_texts, Lowering}
use alfred_identity_backend.Store.Db.{Db, M, EqAccount, ◌>>◌, exec, Result-cases}
use alfred_identity_backend.Store.Grants.{
  for_each, head_text, insert_access_role, delete_access_roles, update_account,
  replace_account_roles, set_eq_required_role,
}
use alfred_identity_backend.Store.Names.{add_owned, add_alias, add_tag, add_character}

-- The columns of an account that an import may not change: all but the password and the role.
abbrev pub SameAccount : EqAccount → EqAccount → Type 0
SameAccount a b =
    (b.id ≡ a.id)
    × (b.username_cipher ≡ a.username_cipher)
    × (b.username_blind ≡ a.username_blind)
    × (b.disabled ≡ a.disabled)
    × (b.restricted ≡ a.restricted)
    × (b.owner_user_id ≡ a.owner_user_id)

abbrev pub Grows : Db → Db → Type 0
Grows db after =
    (a : EqAccount)
    → In a db.eq_accounts
    → (b : EqAccount) × In b after.eq_accounts × SameAccount a b

pub SameAccount-trans : (a b c : EqAccount) → SameAccount a b → SameAccount b c → SameAccount a c
SameAccount-trans a b c (p0, p1, p2, p3, p4, p5) (q0, q1, q2, q3, q4, q5) =
    (q0 ∙ p0, q1 ∙ p1, q2 ∙ p2, q3 ∙ p3, q4 ∙ p4, q5 ∙ p5)

pub Grows-refl : (db : Db) → Grows db db
Grows-refl db a i = (a, i, (refl, refl, refl, refl, refl, refl))

pub Grows-trans : (x y z : Db) → Grows x y → Grows y z → Grows x z
Grows-trans x y z f g a i =
    let (b, j, s) = f a i in let (c, k, t) = g b j in (c, k, SameAccount-trans a b c s t)

-- An operation that does not touch the table of accounts.
pub Grows-same : (db after : Db) → after.eq_accounts ≡ db.eq_accounts → Grows db after
Grows-same db after e a i = (a, subst (In a) (sym e) i, (refl, refl, refl, refl, refl, refl))

pub update_account-Grows :
    (account : ℕ) (f : EqAccount → EqAccount) (db : Db)
    → ((a : EqAccount) → SameAccount a (f a))
    → Grows db (update_account account f db)
update_account-Grows account f db same a i =
    let change = λ (x : EqAccount). if x.id == account then f x else x in
    let here : SameAccount a (change a) = elim (Bool-cases (a.id == account)) [
      | inl e ↦ rw e (same a)
      | inr e ↦ rw e (refl, refl, refl, refl, refl, refl)
    ] in
    (change a, In-map change a db.eq_accounts i, here)

abbrev pub Growing : {A : Type 0} → M A → Type 0
Growing m = (db : Db) → Grows db (m db).1

pub Growing-then :
    {A : Type 0} (m : M (Unit {0})) (k : M A) → Growing m → Growing k → Growing (m >> k)
Growing-then m k f g db = elim (Result-cases (m db).0) [
  | inl (tt, e) ↦ rw e (Grows-trans db (m db).1 (k (m db).1).1 (f db) (g (m db).1))
  | inr (x, e) ↦ rw e (f db)
]

pub insert_access_role-Growing :
    (account : ℕ) (role : Text) → Growing (insert_access_role account role)
unfolding insert_access_role
insert_access_role-Growing account role db =
    Grows-same db (insert_access_role account role db).1 (ground arith)

pub for_each-Growing :
    (account : ℕ) (roles : List Text) → Growing (for_each (insert_access_role account) roles)
for_each-Growing account [] db = Grows-refl db
for_each-Growing account (r ∷ rs) db =
    Growing-then (insert_access_role account r) (for_each (insert_access_role account) rs)
      (insert_access_role-Growing account r) (for_each-Growing account rs) db

pub replace_account_roles-Growing :
    (account : ℕ) (roles : List Text) → Growing (replace_account_roles account roles)
unfolding replace_account_roles
replace_account_roles-Growing account roles db =
    let cleaned = clean_texts [] roles in
    let set_role =
      update_account account
        (λ (a : EqAccount). record a { required_discord_role_id = head_text cleaned }) in
    Growing-then (for_each (insert_access_role account) cleaned) (exec set_role)
      (for_each-Growing account cleaned)
      (λ d.
        update_account-Grows account
          (λ (a : EqAccount). record a { required_discord_role_id = head_text cleaned }) d
          (λ a. (refl, refl, refl, refl, refl, refl)))
      (delete_access_roles account db)

pub set_eq_required_role-Growing :
    (account : ℕ) (role : Text) → Growing (set_eq_required_role account role)
unfolding set_eq_required_role
set_eq_required_role-Growing account role db = elim (Bool-cases (text_eq (trim_space role) [])) [
  | inl e ↦ rw e (replace_account_roles-Growing account [] db)
  | inr e ↦ rw e (replace_account_roles-Growing account (trim_space role ∷ []) db)
]

module _ (low : Lowering) (account : ℕ) where
  pub add_alias-Growing : (name : Text) → Growing (add_alias low name account)
  unfolding add_alias add_owned
  add_alias-Growing name db = Grows-same db (add_alias low name account db).1 (ground arith)

  pub add_character-Growing : (name : Text) → Growing (add_character low name account)
  unfolding add_character add_owned
  add_character-Growing name db = Grows-same db (add_character low name account db).1 (ground arith)

  pub add_tag-Growing : (name : Text) → Growing (add_tag low name account)
  unfolding add_tag
  add_tag-Growing name db = Grows-same db (add_tag low name account db).1 (ground arith)
