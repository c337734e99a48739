-- ===== src/Common/CsvFormat.antt =====
-- What the code uses of Go's package encoding/csv: a reader with `TrimLeadingSpace` that allows any
-- number of fields, and the writer. A text is the list of its code points.
pub mod Fields
pub mod RoundTrip
use Prim.Native.Nat.{ℕ}
use mathlib.Core.List.{List, [], ◌∷◌, ◌++◌, reverse}
use mathlib.Core.Option.{Option, none, some}
use mathlib.Core.Bool.{Bool, true, false, ◌&&◌, ◌||◌}
use alfred_identity_backend.Common.Tests.{◌==◌, if◌then◌else◌}
use alfred_identity_backend.Common.Lists.{any}
use alfred_identity_backend.Common.Codes.{Text, codes, text_eq}
use alfred_identity_backend.Common.Strings.{is_space}

abbrev pub comma : ℕ
comma = 0x2C

abbrev pub quote : ℕ
quote = 0x22

abbrev pub newline : ℕ
newline = 0x0A

abbrev pub return : ℕ
return = 0x0D

-- Where the reader stands: before a record, before a field, in a bare field, in a quoted field, or
-- after a quote in such a field.
pub data Mode : Type 0 where
  record_start field_start bare quoted quote_seen : Mode

-- The record so far with its last field; all are kept in reverse.
abbrev pub ended : Text → List Text → List (List Text) → List (List Text)
ended field fields rows = reverse (reverse field ∷ fields) ∷ rows

-- What stands at the end of the text.
unfoldable pub at_end : Mode → Text → List Text → List (List Text) → Option (List (List Text))
at_end record_start field fields rows = some (reverse rows)
at_end field_start field fields rows = some (reverse (ended [] fields rows))
at_end bare field fields rows = some (reverse (ended field fields rows))
at_end quoted field fields rows = none
at_end quote_seen field fields rows = some (reverse (ended field fields rows))

-- One character after another; `none` is a bare quote, or a quoted field that does not end.
unfoldable pub read : Mode → Text → List Text → List (List Text) → Text → Option (List (List Text))
unfolding at_end
read mode field fields rows [] = at_end mode field fields rows
read record_start field fields rows (c ∷ cs) = elim (c == newline) [
  | true ↦ read record_start [] [] rows cs
  | false ↦ elim (c == quote) [
    | true ↦ read quoted [] [] rows cs
    | false ↦ elim (c == comma) [
      | true ↦ read field_start [] ([] ∷ []) rows cs
      | false ↦ elim (is_space c) [
        | true ↦ read field_start [] [] rows cs
        | false ↦ read bare (c ∷ []) [] rows cs
      ]
    ]
  ]
]
read field_start field fields rows (c ∷ cs) = elim (c == newline) [
  | true ↦ read record_start [] [] (ended [] fields rows) cs
  | false ↦ elim (c == quote) [
    | true ↦ read quoted [] fields rows cs
    | false ↦ elim (c == comma) [
      | true ↦ read field_start [] ([] ∷ fields) rows cs
      | false ↦ elim (is_space c) [
        | true ↦ read field_start [] fields rows cs
        | false ↦ read bare (c ∷ []) fields rows cs
      ]
    ]
  ]
]
read bare field fields rows (c ∷ cs) = elim (c == newline) [
  | true ↦ read record_start [] [] (ended field fields rows) cs
  | false ↦ elim (c == comma) [
    | true ↦ read field_start [] (reverse field ∷ fields) rows cs
    | false ↦ elim (c == quote) [ true ↦ none | false ↦ read bare (c ∷ field) fields rows cs ]
  ]
]
read quoted field fields rows (c ∷ cs) = elim (c == quote) [
  | true ↦ read quote_seen field fields rows cs
  | false ↦ read quoted (c ∷ field) fields rows cs
]
read quote_seen field fields rows (c ∷ cs) = elim (c == quote) [
  | true ↦ read quoted (quote ∷ field) fields rows cs
  | false ↦ elim (c == comma) [
    | true ↦ read field_start [] (reverse field ∷ fields) rows cs
    | false ↦ elim (c == newline) [
      | true ↦ read record_start [] [] (ended field fields rows) cs
      | false ↦ none
    ]
  ]
]

-- A line feed ends a line, also with a carriage return before it; a last carriage return is dropped.
unfoldable pub normalize_lines : Text → Text
normalize_lines [] = []
normalize_lines (c ∷ []) = if c == return then [] else c ∷ []
normalize_lines (c ∷ d ∷ cs) =
    let rest = normalize_lines (d ∷ cs) in
    if (c == return) && (d == newline) then rest else c ∷ rest

-- `ReadAll`
unfoldable pub read_all : Text → Option (List (List Text))
unfolding read normalize_lines
read_all s = read record_start [] [] [] (normalize_lines s)

-- A separator, quote or line end in the field, or a space in front of it.
abbrev pub starts_with_space : Text → Bool
starts_with_space [] = false
starts_with_space (c ∷ cs) = is_space c

abbrev pub is_special : ℕ → Bool
is_special c = (c == comma) || ((c == quote) || ((c == return) || (c == newline)))

unfoldable pub field_needs_quotes : Text → Bool
field_needs_quotes f = text_eq f (codes "\\.") || (any is_special f || starts_with_space f)

-- Quotes are doubled.
unfoldable pub escape : Text → Text
escape [] = []
escape (c ∷ cs) = if c == quote then quote ∷ quote ∷ escape cs else c ∷ escape cs

unfoldable pub write_field : Text → Text
unfolding field_needs_quotes escape
write_field f = if field_needs_quotes f then quote ∷ (escape f ++ quote ∷ []) else f

unfoldable pub write_record : List Text → Text
unfolding write_field
write_record [] = newline ∷ []
write_record (f ∷ []) = write_field f ++ newline ∷ []
write_record (f ∷ g ∷ fs) = write_field f ++ comma ∷ write_record (g ∷ fs)

unfoldable pub write_all : List (List Text) → Text
unfolding write_record
write_all [] = []
write_all (r ∷ rs) = write_record r ++ write_all rs
