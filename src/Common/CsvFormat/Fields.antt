-- ===== src/Common/CsvFormat/Fields.antt =====
-- A field that is written is read back, up to a comma or the end of its line.
use Prim.Native.Nat.{ℕ}
use mathlib.Core.Path.{◌≡◌, refl, ap, ◌∙◌}
use mathlib.Core.Logic.{inl, inr}
use mathlib.Core.List.{List, [], ◌∷◌, ◌++◌, reverse, reverse_aux, append_assoc, reverse-reverse}
use mathlib.Core.Bool.{true, false}
use native.Mathlib.Omega.{arith}
use alfred_identity_backend.Common.Tests.{◌==◌, ==_iff, Bool-cases}
use alfred_identity_backend.Common.Lists.{any}
use alfred_identity_backend.Common.Codes.{Text}
use alfred_identity_backend.Common.CsvFormat.{
  comma, quote, newline, return, Mode, record_start, field_start, bare, quoted, quote_seen, read,
  is_special, starts_with_space, field_needs_quotes, escape, write_field,
}

-- No carriage return, which the reader may drop.
abbrev pub Plain : Text → Type 0
Plain s = any (λ c. c == return) s ≡ false

module _ (fields : List Text) (rows : List (List Text)) where
  pub read-escape :
      (f acc rest : Text)
      → read quoted acc fields rows (escape f ++ quote ∷ rest)
        ≡ read quote_seen (reverse_aux f acc) fields rows rest
  unfolding read escape
  read-escape [] acc rest = refl
  read-escape (c ∷ cs) acc rest = elim (Bool-cases (c == quote)) [
    | inl q ↦ ground (arith, q, read-escape cs (c ∷ acc) rest, (==_iff c quote).0 q)
    | inr o ↦ ground (arith, o, read-escape cs (c ∷ acc) rest)
  ]

  pub read-bare :
      (f acc rest : Text)
      → any is_special f ≡ false
      → read bare acc fields rows (f ++ rest) ≡ read bare (reverse_aux f acc) fields rows rest
  unfolding read
  read-bare [] acc rest h = refl
  read-bare (c ∷ cs) acc rest h = ground (arith, h, read-bare cs (c ∷ acc) rest)

  -- A field is read, whether it is quoted or not, up to a comma or the end of the line.
  pub after_quote :
      (f rest : Text)
      → (read quote_seen (reverse f) fields rows (comma ∷ rest)
          ≡ read field_start [] (f ∷ fields) rows rest)
        × (read quote_seen (reverse f) fields rows (newline ∷ rest)
            ≡ read record_start [] [] (reverse (f ∷ fields) ∷ rows) rest)
  unfolding read
  after_quote f rest = rw (reverse-reverse f) (refl, refl)

  pub after_bare :
      (f rest : Text)
      → (read bare (reverse f) fields rows (comma ∷ rest)
          ≡ read field_start [] (f ∷ fields) rows rest)
        × (read bare (reverse f) fields rows (newline ∷ rest)
            ≡ read record_start [] [] (reverse (f ∷ fields) ∷ rows) rest)
  unfolding read
  after_bare f rest = rw (reverse-reverse f) (refl, refl)

  -- A field that is not written with quotes.
  abbrev pub IsBare : Text → Type 0
  IsBare f = (any is_special f ≡ false) × (starts_with_space f ≡ false)

  -- Where a field may start: in a record that has begun, or at the start of the first record.
  abbrev pub Starts : Mode → Type 0
  Starts field_start = Unit {0}
  Starts record_start = fields ≡ []
  Starts m = ⊥

  pub start_quoted :
      (m : Mode) (rest : Text)
      → Starts m
      → read m [] fields rows (quote ∷ rest) ≡ read quoted [] fields rows rest
  unfolding read
  start_quoted record_start rest h = rw (← h) refl
  start_quoted field_start rest h = refl
  start_quoted bare rest h = absurd h
  start_quoted quoted rest h = absurd h
  start_quoted quote_seen rest h = absurd h

  pub start_bare :
      (m : Mode) (c : ℕ) (cs rest : Text)
      → Starts m
      → IsBare (c ∷ cs)
      → read m [] fields rows (c ∷ (cs ++ rest)) ≡ read bare (c ∷ []) fields rows (cs ++ rest)
  unfolding read
  start_bare record_start c cs rest h b = ground (arith, h, b)
  start_bare field_start c cs rest h b = ground (arith, b)
  start_bare bare c cs rest h b = absurd h
  start_bare quoted c cs rest h b = absurd h
  start_bare quote_seen c cs rest h b = absurd h

  pub start_comma :
      (m : Mode) (rest : Text)
      → Starts m
      → read m [] fields rows (comma ∷ rest) ≡ read field_start [] ([] ∷ fields) rows rest
  unfolding read
  start_comma record_start rest h = rw h refl
  start_comma field_start rest h = refl
  start_comma bare rest h = absurd h
  start_comma quoted rest h = absurd h
  start_comma quote_seen rest h = absurd h

  pub needs_none : (f : Text) → field_needs_quotes f ≡ false → IsBare f
  unfolding field_needs_quotes
  needs_none f h = (ground (arith, h), ground (arith, h))

  pub quoted_field :
      (m : Mode) (f rest : Text)
      → Starts m
      → read m [] fields rows (quote ∷ (escape f ++ quote ∷ rest))
        ≡ read quote_seen (reverse f) fields rows rest
  quoted_field m f rest h = start_quoted m (escape f ++ quote ∷ rest) h ∙ read-escape f [] rest

  pub bare_field :
      (m : Mode) (c : ℕ) (cs rest : Text)
      → Starts m
      → IsBare (c ∷ cs)
      → read m [] fields rows (c ∷ (cs ++ rest)) ≡ read bare (reverse (c ∷ cs)) fields rows rest
  bare_field m c cs rest h b =
      start_bare m c cs rest h b ∙ read-bare cs (c ∷ []) rest (ground (arith, b))

  pub write_quoted :
      (f rest : Text)
      → field_needs_quotes f ≡ true
      → write_field f ++ rest ≡ quote ∷ (escape f ++ quote ∷ rest)
  unfolding write_field
  write_quoted f rest h =
      rw (h, write_field) (ap (λ t. quote ∷ t) (append_assoc (escape f) (quote ∷ []) rest))

  pub write_bare : (f : Text) → field_needs_quotes f ≡ false → write_field f ≡ f
  unfolding write_field
  write_bare f h = rw (h, write_field) refl

  pub bare_comma :
      (m : Mode) (f rest : Text)
      → Starts m
      → IsBare f
      → read m [] fields rows (f ++ comma ∷ rest) ≡ read field_start [] (f ∷ fields) rows rest
  bare_comma m [] rest h b = start_comma m rest h
  bare_comma m (c ∷ cs) rest h b =
      bare_field m c cs (comma ∷ rest) h b ∙ (after_bare (c ∷ cs) rest).0

  pub read-comma :
      (m : Mode) (f rest : Text)
      → Starts m
      → read m [] fields rows (write_field f ++ comma ∷ rest)
        ≡ read field_start [] (f ∷ fields) rows rest
  read-comma m f rest h = elim (Bool-cases (field_needs_quotes f)) [
    | inl marked ↦
        ap (read m [] fields rows) (write_quoted f (comma ∷ rest) marked)
        ∙ quoted_field m f (comma ∷ rest) h
        ∙ (after_quote f rest).0
    | inr plain ↦
        ap (λ t. read m [] fields rows (t ++ comma ∷ rest)) (write_bare f plain)
        ∙ bare_comma m f rest h (needs_none f plain)
  ]

  pub bare_newline :
      (f rest : Text)
      → IsBare f
      → read field_start [] fields rows (f ++ newline ∷ rest)
        ≡ read record_start [] [] (reverse (f ∷ fields) ∷ rows) rest
  unfolding read
  bare_newline [] rest b = refl
  bare_newline (c ∷ cs) rest b =
      bare_field field_start c cs (newline ∷ rest) tt b ∙ (after_bare (c ∷ cs) rest).1

  pub read-newline :
      (f rest : Text)
      → read field_start [] fields rows (write_field f ++ newline ∷ rest)
        ≡ read record_start [] [] (reverse (f ∷ fields) ∷ rows) rest
  unfolding read
  read-newline f rest = elim (Bool-cases (field_needs_quotes f)) [
    | inl marked ↦
        ap (read field_start [] fields rows) (write_quoted f (newline ∷ rest) marked)
        ∙ quoted_field field_start f (newline ∷ rest) tt
        ∙ (after_quote f rest).1
    | inr plain ↦
        ap (λ t. read field_start [] fields rows (t ++ newline ∷ rest)) (write_bare f plain)
        ∙ bare_newline f rest (needs_none f plain)
  ]
