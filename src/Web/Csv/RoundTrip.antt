-- ===== src/Web/Csv/RoundTrip.antt =====
-- The rows that the export writes, the import reads.
use alfred_identity_backend.Common.{
  ℕ, suc, ◌≡◌, ◌⊎◌, inl, inr, refl, ◌∙◌, ap, false, List, [], ◌∷◌, map, All, Text, codes, text_eq,
  arith,
}
use alfred_identity_backend.Common.Strings.{trim_space, Lowering}
use alfred_identity_backend.Common.CsvFormat.{write_all}
use alfred_identity_backend.Common.CsvFormat.Fields.{Plain}
use alfred_identity_backend.Common.CsvFormat.RoundTrip.{IsWide, read_all-write_all}
use alfred_identity_backend.Web.Csv.{
  SsoCsvRow, parsed, split_multi, row_of, is_header, parse_rows, some_rows, parse_sso_accounts_csv,
  join_multi, columns, field_at,
}
use alfred_identity_backend.Web.Csv.Parts.{
  IsTrimmed, IsPart, trim_space-IsTrimmed, solid_text, Differ, split_multi-join_multi,
}

module _ (low : Lowering) where
  -- The fields that the export writes for a row.
  abbrev pub fields_of : SsoCsvRow → List Text
  fields_of r =
      r.username
      ∷ r.password
      ∷ r.role
      ∷ join_multi r.aliases
      ∷ join_multi r.tags
      ∷ join_multi r.characters
      ∷ []

  abbrev pub IsTrimmedOrEmpty : Text → Type 0
  IsTrimmedOrEmpty t = (t ≡ []) ⊎ IsTrimmed t

  abbrev pub AreParts : List Text → Type 0
  AreParts ps = All IsPart ps × Differ low [] ps

  abbrev pub IsWritable : SsoCsvRow → Type 0
  IsWritable r =
      IsTrimmed r.username
      × IsTrimmedOrEmpty r.password
      × IsTrimmedOrEmpty r.role
      × AreParts r.aliases
      × AreParts r.tags
      × AreParts r.characters

  trim_space-IsTrimmedOrEmpty : (t : Text) → IsTrimmedOrEmpty t → trim_space t ≡ t
  unfolding trim_space
  trim_space-IsTrimmedOrEmpty t (inl e) = rw e refl
  trim_space-IsTrimmedOrEmpty t (inr h) = trim_space-IsTrimmed t h

  -- The rows with the numbers of their lines, from `i` on.
  abbrev pub numbered : ℕ → List SsoCsvRow → List SsoCsvRow
  numbered i [] = []
  numbered i (r ∷ rs) = record r { line = suc i } ∷ numbered (suc i) rs

  row_of-fields_of :
      (r : SsoCsvRow) (i : ℕ)
      → IsWritable r
      → row_of low i (fields_of r) ≡ record r { line = suc i }
  unfolding trim_space split_multi
  row_of-fields_of r i (name, word, role, aliases, tags, characters) =
      rw
        (
          trim_space-IsTrimmed r.username name,
          trim_space-IsTrimmedOrEmpty r.password word,
          trim_space-IsTrimmedOrEmpty r.role role,
          split_multi-join_multi low r.aliases aliases.0 aliases.1,
          split_multi-join_multi low r.tags tags.0 tags.1,
          split_multi-join_multi low r.characters characters.0 characters.1,
        )
        refl

  no_header : (i : ℕ) (row : List Text) → is_header low (suc i) row ≡ false
  no_header i row = ground arith

  has_name :
      (r : SsoCsvRow)
      → IsTrimmed r.username
      → text_eq (trim_space (field_at 0 (fields_of r))) [] ≡ false
  unfolding trim_space
  has_name r h = rw (trim_space-IsTrimmed r.username h) (solid_text r.username h.0)

  parse_rows-fields_of :
      (rs : List SsoCsvRow) (i : ℕ)
      → All IsWritable rs
      → parse_rows low (suc i) (map fields_of rs) ≡ numbered (suc i) rs
  unfolding parse_rows
  parse_rows-fields_of [] i h = refl
  parse_rows-fields_of (r ∷ rs) i h =
      rw (no_header i (fields_of r), has_name r h.0.0, row_of-fields_of r (suc i) h.0)
        (ap (λ x. record r { line = suc (suc i) } ∷ x) (parse_rows-fields_of rs (suc i) h.1))

  wide : (rs : List SsoCsvRow) → All IsWide (columns ∷ map fields_of rs)
  wide [] = (tt, tt)
  wide (r ∷ rs) = (tt, wide rs)

  header_skipped :
      (rows : List (List Text))
      → low.to_lower (codes "username") ≡ codes "username"
      → parse_rows low 0 (columns ∷ rows) ≡ parse_rows low 1 rows
  unfolding parse_rows trim_space
  header_skipped rows same = rw same refl

  -- Rows of accounts that are written as the export writes them, after the line of columns, are
  -- read back by parseSSOAccountsCSV as they are, with the numbers of their lines. The user name
  -- has no space at its ends, the password and the role have none or are empty; aliases, tags and
  -- characters have none, have no comma, semicolon or bar, and differ by more than letter case; no
  -- field has a carriage return; there is one row at least, and lower case leaves the word
  -- username.
  pub parse-write_all :
      (r : SsoCsvRow) (rs : List SsoCsvRow)
      → low.to_lower (codes "username") ≡ codes "username"
      → All IsWritable (r ∷ rs)
      → All (All Plain) (map fields_of (r ∷ rs))
      → parse_sso_accounts_csv low (write_all (columns ∷ map fields_of (r ∷ rs)))
        ≡ parsed (numbered 1 (r ∷ rs))
  unfolding parse_sso_accounts_csv
  parse-write_all r rs same h p =
      let rows = columns ∷ map fields_of (r ∷ rs) in
      let read =
        read_all-write_all rows (wide (r ∷ rs))
          ((refl, (refl, (refl, (refl, (refl, (refl, tt)))))), p) in
      rw (read, parse_sso_accounts_csv)
        (ap (some_rows low)
          (header_skipped (map fields_of (r ∷ rs)) same ∙ parse_rows-fields_of (r ∷ rs) 0 h))
