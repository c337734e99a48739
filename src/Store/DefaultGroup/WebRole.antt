-- ===== src/Store/DefaultGroup/WebRole.antt =====
-- The web role that a user's groups give.
use alfred_identity_backend.Common.{
  ℕ, ◌≡◌, ◌↔◌, refl, Bool, true, false, List, [], ◌∷◌, if◌then◌else◌, Text, codes, text_eq,
  text_eq_iff, any, any_iff, In, arith,
}
use alfred_identity_backend.Common.Strings.{Lowering}
use alfred_identity_backend.Store.Db.{Db, AccountGroup, ok}
use alfred_identity_backend.Store.Groups.{list_groups_for_user}
use alfred_identity_backend.Store.DefaultGroup.{
  web_role_of, highest_loop, highest_web_role_for_user,
}

module _ (low : Lowering) where
  -- The web role of some group of the list, as it is read.
  abbrev pub HasWebRole : Text → List AccountGroup → Type 0
  HasWebRole role gs = (g : AccountGroup) × In g gs × (web_role_of low g ≡ role)

  abbrev pub readonly : Text
  readonly = codes "readonly"

  abbrev pub admin : Text
  admin = codes "admin"

  abbrev gives : Text → AccountGroup → Bool
  gives role g = text_eq (web_role_of low g) role

  highest_loop_lem :
      (gs : List AccountGroup) (acc : Text)
      → highest_loop low acc gs ≡ (
          if any (gives admin) gs then admin else if any (gives readonly) gs then readonly else acc)
  unfolding highest_loop
  highest_loop_lem [] acc = refl
  highest_loop_lem (g ∷ gs) acc =
      ground (arith, highest_loop_lem gs acc, highest_loop_lem gs readonly)

  gives_iff :
      (role : Text) (gs : List AccountGroup) → (any (gives role) gs ≡ true) ↔ HasWebRole role gs
  gives_iff role gs = (
    λ h.
        let (g, i, t) = (any_iff (gives role) gs).0 h in
        (g, i, (text_eq_iff (web_role_of low g) role).0 t),
    λ (g, i, e). (any_iff (gives role) gs).1 (g, i, (text_eq_iff (web_role_of low g) role).1 e),
  )

  abbrev chosen : Bool → Bool → Text
  chosen a b = if a then admin else if b then readonly else []

  chosen-admin :
      (a b : Bool) (P Q : Type 0) → (a ≡ true) ↔ P → (b ≡ true) ↔ Q → (chosen a b ≡ admin) ↔ P
  chosen-admin true b P Q p q = (λ e. p.0 refl, λ h. refl)
  chosen-admin false true P Q p q = (λ e. absurd (ground arith), λ h. absurd (ground arith))
  chosen-admin false false P Q p q = (λ e. absurd (ground arith), λ h. absurd (ground arith))

  chosen-readonly :
      (a b : Bool) (P Q : Type 0)
      → (a ≡ true) ↔ P
      → (b ≡ true) ↔ Q
      → (chosen a b ≡ readonly) ↔ ((P → ⊥) × Q)
  chosen-readonly true b P Q p q = (λ e. absurd (ground arith), λ h. absurd (h.0 (p.0 refl)))
  chosen-readonly false true P Q p q = (λ e. (λ h. ground (arith, p.1 h), q.0 refl), λ h. refl)
  chosen-readonly false false P Q p q =
      (λ e. absurd (ground arith), λ h. absurd (ground (arith, q.1 h.1)))

  chosen_none :
      (a b : Bool) (P Q : Type 0)
      → (a ≡ true) ↔ P
      → (b ≡ true) ↔ Q
      → (chosen a b ≡ []) ↔ ((P → ⊥) × (Q → ⊥))
  chosen_none true b P Q p q = (λ e. absurd (ground arith), λ h. absurd (h.0 (p.0 refl)))
  chosen_none false true P Q p q = (λ e. absurd (ground arith), λ h. absurd (h.1 (q.0 refl)))
  chosen_none false false P Q p q =
      (λ e. (λ h. ground (arith, p.1 h), λ h. ground (arith, q.1 h)), λ h. refl)

  -- HighestWebRoleForUser answers and writes nothing: admin exactly if a listed group of the user
  -- gives it, readonly exactly if one gives this and none gives admin, and nothing exactly if none
  -- gives either.
  pub highest_web_role_for_user_lem :
      (user_id : ℕ) (db : Db) (gs : List AccountGroup)
      → list_groups_for_user user_id db ≡ (ok gs, db)
      → (r : Text) × (highest_web_role_for_user low user_id db ≡ (ok r, db))
        × ((r ≡ admin) ↔ HasWebRole admin gs)
        × ((r ≡ readonly) ↔ ((HasWebRole admin gs → ⊥) × HasWebRole readonly gs))
        × ((r ≡ []) ↔ ((HasWebRole admin gs → ⊥) × (HasWebRole readonly gs → ⊥)))
  unfolding highest_web_role_for_user
  highest_web_role_for_user_lem user_id db gs listed = (
    highest_loop low [] gs,
    ground (arith, listed),
    rw (highest_loop_lem gs []) (chosen-admin _ _ _ _ (gives_iff admin gs) (gives_iff readonly gs)),
    rw (highest_loop_lem gs [])
        (chosen-readonly _ _ _ _ (gives_iff admin gs) (gives_iff readonly gs)),
    rw (highest_loop_lem gs []) (chosen_none _ _ _ _ (gives_iff admin gs) (gives_iff readonly gs)),
  )
