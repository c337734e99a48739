-- ===== src/Web/Access/Groups.antt =====
-- Which groups give a user a level of access to the web pages.
use alfred_identity_backend.Common.{
  ◌≡◌, Bool, if◌then◌else◌, ◌↔◌, ◌∙◌, inl, inr, refl, sym, true, false, List, [], ◌∷◌, Text, codes,
  any, any_iff, any-text_eq, text_eq, text_eq_iff, found_any, keep, In, In-keep, In-keep_inv, arith,
  Bool-cases,
}
use alfred_identity_backend.Common.Strings.{trim_space, Lowering}
use alfred_identity_backend.Store.Db.{Db, User, AccountGroup, GroupMember}
use alfred_identity_backend.Store.Commands.{joins}
use alfred_identity_backend.Store.Commands.Laws.{IsIn, joins-IsIn}
use alfred_identity_backend.Store.Groups.{list_groups_for_user}
use alfred_identity_backend.Store.DefaultGroup.{one_of, normalize_web_role, web_role_of}
use alfred_identity_backend.Store.DefaultGroup.WebRole.{HasWebRole, highest_web_role_for_user_lem}
use alfred_identity_backend.Web.Access.{Server, group_level}

-- The role that three tests of a word give: is it blank, for admins, for reading only?
abbrev read_as : Bool → Bool → Bool → Text
read_as blank all some_rights =
    if blank
    then []
    else if all
    then codes "admin"
    else if some_rights
    then codes "readonly"
    else []

read_as-admin : (a b c : Bool) → read_as a b c ≡ codes "admin" → b ≡ true
read_as-admin a true c h = refl
read_as-admin true false c h = absurd (ground arith)
read_as-admin false false true h = absurd (ground arith)
read_as-admin false false false h = absurd (ground arith)

read_as-readonly : (a b c : Bool) → read_as a b c ≡ codes "readonly" → c ≡ true
read_as-readonly a b true h = refl
read_as-readonly true b false h = absurd (ground arith)
read_as-readonly false true false h = absurd (ground arith)
read_as-readonly false false false h = absurd (ground arith)

module _ (low : Lowering) where
  abbrev word : AccountGroup → Text
  word g = low.to_lower (trim_space g.web_role)

  -- The group's web role, trimmed and lowered, is admin.
  abbrev pub GivesAdmin : AccountGroup → Type 0
  GivesAdmin g = word g ≡ codes "admin"

  abbrev reading : List Text
  reading = codes "readonly" ∷ codes "read_only" ∷ codes "read-only" ∷ codes "viewer" ∷ []

  -- It is a word for reading only.
  abbrev pub GivesReading : AccountGroup → Type 0
  GivesReading g = In (word g) reading

  abbrev is_blank_word : AccountGroup → Bool
  is_blank_word g = one_of low (word g) ([] ∷ codes "none" ∷ codes "off" ∷ codes "disabled" ∷ [])

  abbrev is_reading : AccountGroup → Bool
  is_reading g = any (λ s. text_eq s (word g)) reading

  web_role_of-read_as :
      (g : AccountGroup)
      → web_role_of low g
        ≡ read_as (is_blank_word g) (text_eq (word g) (codes "admin")) (is_reading g)
  unfolding normalize_web_role
  web_role_of-read_as g = elim (Bool-cases (is_blank_word g)) [
    | inl e ↦ rw (e, web_role_of) refl
    | inr e ↦ elim (Bool-cases (text_eq (word g) (codes "admin"))) [
      | inl f ↦ rw (e, web_role_of) (rw f refl)
      | inr f ↦ elim (Bool-cases (is_reading g)) [
        | inl h ↦ rw (e, web_role_of) (rw f (rw h refl))
        | inr h ↦ rw (e, web_role_of) (rw f (rw h refl))
      ]
    ]
  ]

  GivesAdmin-iff : (g : AccountGroup) → (web_role_of low g ≡ codes "admin") ↔ GivesAdmin g
  unfolding normalize_web_role
  GivesAdmin-iff g = (
    λ h.
        (text_eq_iff (word g) (codes "admin")).0
          (read_as-admin _ _ _ (sym (web_role_of-read_as g) ∙ h)),
    λ h. rw (h, web_role_of) refl,
  )

  GivesReading-iff : (g : AccountGroup) → (web_role_of low g ≡ codes "readonly") ↔ GivesReading g
  unfolding normalize_web_role
  GivesReading-iff g = (
    λ h.
        (any-text_eq (word g) reading).0 (read_as-readonly _ _ _ (sym (web_role_of-read_as g) ∙ h)),
    λ h. elim h [
      | inl e ↦ rw (sym e, web_role_of) refl
      | inr (inl e) ↦ rw (sym e, web_role_of) refl
      | inr (inr (inl e)) ↦ rw (sym e, web_role_of) refl
      | inr (inr (inr (inl e))) ↦ rw (sym e, web_role_of) refl
      | inr (inr (inr (inr i))) ↦ absurd i
    ],
  )

module _ (low : Lowering) (s : Server) (u : User) (db : Db) where
  -- The user is a member of such a group.
  abbrev pub InGroup : (AccountGroup → Type 0) → Type 0
  InGroup P =
      (g : AccountGroup) × (m : GroupMember) × In g db.account_groups
      × In m db.group_members
      × IsIn db u.id g.id m
      × P g

  abbrev listed : List AccountGroup
  listed = keep (λ (g : AccountGroup). any (joins db u.id g.id) db.group_members) db.account_groups

  HasWebRole-InGroup :
      (role : Text) (P : AccountGroup → Type 0)
      → ((g : AccountGroup) → (web_role_of low g ≡ role) ↔ P g)
      → HasWebRole low role listed ↔ InGroup P
  HasWebRole-InGroup role P same = (
    λ (g, i, e).
        let (j, t) = In-keep_inv _ g db.account_groups i in
        let (m, k, h) = (any_iff (joins db u.id g.id) db.group_members).0 t in
        (g, m, j, k, (joins-IsIn db u.id g.id m).0 h, (same g).0 e),
    λ (g, m, j, k, h, e). (
      g,
      In-keep _ g db.account_groups j
          (found_any (joins db u.id g.id) m db.group_members k ((joins-IsIn db u.id g.id m).1 h)),
      (same g).1 e,
    ),
  )

  pub group_level_lem :
      ((group_level low s u db ≡ codes "admin") ↔ InGroup (GivesAdmin low))
      × ((group_level low s u db ≡ codes "readonly")
          ↔ ((InGroup (GivesAdmin low) → ⊥) × InGroup (GivesReading low)))
  unfolding group_level list_groups_for_user
  group_level_lem =
      let (r, e, admins, readers, _) = highest_web_role_for_user_lem low u.id db listed refl in
      let level : group_level low s u db ≡ r = rw (e, group_level) refl in
      let many = HasWebRole-InGroup (codes "admin") (GivesAdmin low) (GivesAdmin-iff low) in
      let some_read =
        HasWebRole-InGroup (codes "readonly") (GivesReading low) (GivesReading-iff low) in
      (
        (λ h. many.0 (admins.0 (sym level ∙ h)), λ h. level ∙ admins.1 (many.1 h)),
        (
          λ h.
              let (nobody, somebody) = readers.0 (sym level ∙ h) in
              (λ x. nobody (many.1 x), some_read.0 somebody),
          λ (nobody, somebody). level ∙ readers.1 (λ x. nobody (many.0 x), some_read.1 somebody),
        ),
      )
