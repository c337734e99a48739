-- ===== src/Web/Csv/Private.antt =====
-- Whose accounts the export writes.
use alfred_identity_backend.Common.{
  ◌≡◌, ◌⊎◌, inl, inr, refl, ◌∙◌, ap, subst, Bool, true, false, List, [], ◌∷◌, some, Text, In, arith,
  Bool-cases, Option-cases,
}
use alfred_identity_backend.Common.Strings.{Lowering}
use alfred_identity_backend.Crypto.Aead.{Vault}
use alfred_identity_backend.Store.Db.{Db, ok, Result-cases}
use alfred_identity_backend.Store.Credentials.{decrypt_credentials}
use alfred_identity_backend.Web.Csv.{
  DiscordRole, EqAccountMeta, exported_row, export_row, export_rows,
}

module _ (v : Vault) (low : Lowering) (db : Db) (include : Bool) (roles : List DiscordRole) where
  -- A record of an account that is no private share, with its password only on request.
  abbrev pub IsOpen : EqAccountMeta → List Text → Type 0
  IsOpen m row =
      (m.restricted ≡ false)
      × (((include ≡ false) × (row ≡ exported_row v low m roles m.username []))
          ⊎ ((include ≡ true)
              × ((name : Text) × (word : Text) × ((decrypt_credentials v m.id true db).0
                    ≡ ok (name, word))
                  × (row ≡ exported_row v low m roles name word))))

  export_row-IsOpen :
      (m : EqAccountMeta) (row : List Text)
      → export_row v low db include roles m ≡ some row
      → IsOpen m row
  unfolding export_row
  export_row-IsOpen m row e = elim (Bool-cases m.restricted) [
    | inl private ↦ absurd (ground (arith, private, e))
    | inr public ↦ elim (Bool-cases include) [
      | inr closed ↦ (public, inl (closed, ground (arith, public, closed, e)))
      | inl asked ↦ elim (Result-cases (decrypt_credentials v m.id true db).0) [
        | inr (x, q) ↦ absurd (ground (arith, public, asked, q, e))
        | inl ((name, word), q) ↦
            (public, inr (asked, (name, word, q, ground (arith, public, asked, q, e))))
      ]
    ]
  ]

  -- Each record of an export is that of an account that is no private share; its password is empty
  -- unless passwords were asked for, and is then the stored one, with the stored user name.
  pub export_rows-IsOpen :
      (metas : List EqAccountMeta) (row : List Text)
      → In row (export_rows v low db include roles metas)
      → (m : EqAccountMeta) × In m metas × IsOpen m row
  unfolding export_rows
  export_rows-IsOpen [] row i = absurd i
  export_rows-IsOpen (m ∷ metas) row i =
      let rest = export_rows v low db include roles metas in
      elim (Option-cases (export_row v low db include roles m)) [
        | inl e ↦
            let same : export_rows v low db include roles (m ∷ metas) ≡ rest =
              rw (e, export_rows) refl in
            let (found, j, public) = export_rows-IsOpen metas row (subst (In row) same i) in
            (found, inr j, public)
        | inr (written, e) ↦
            let same : export_rows v low db include roles (m ∷ metas) ≡ written ∷ rest =
              rw (e, export_rows) refl in
            elim (subst (In row) same i) [
              | inl q ↦ (m, inl refl, export_row-IsOpen m row (e ∙ ap (λ x. some x) q))
              | inr j ↦
                  let (found, k, public) = export_rows-IsOpen metas row j in (found, inr k, public)
            ]
      ]
