-- ===== src/Common/CsvFormat/RoundTrip.antt =====
-- What the writer writes, the reader reads.
use mathlib.Core.Path.{◌≡◌, refl, ap, ◌∙◌}
use mathlib.Core.List.{List, [], ◌∷◌, ◌++◌, reverse, reverse_aux, append_assoc, reverse-reverse}
use mathlib.Core.Option.{some}
use native.Mathlib.Omega.{arith}
use alfred_identity_backend.Common.Lists.{All}
use alfred_identity_backend.Common.Codes.{Text}
use alfred_identity_backend.Common.CsvFormat.{
  comma, quote, newline, record_start, field_start, at_end, read, normalize_lines, read_all, escape,
  write_field, write_record, write_all,
}
use alfred_identity_backend.Common.CsvFormat.Fields.{Plain, read-comma, read-newline}

-- The rest of a record, and a record of two fields at least.
read-fields :
    (g : Text) (gs fields : List Text) (rows : List (List Text)) (rest : Text)
    → read field_start [] fields rows (write_record (g ∷ gs) ++ rest)
      ≡ read record_start [] [] (reverse (reverse_aux (g ∷ gs) fields) ∷ rows) rest
unfolding write_record
read-fields g [] fields rows rest =
    ap (read field_start [] fields rows) (append_assoc (write_field g) (newline ∷ []) rest)
    ∙ read-newline fields rows g rest
read-fields g (h ∷ hs) fields rows rest =
    ap (read field_start [] fields rows)
      (append_assoc (write_field g) (comma ∷ write_record (h ∷ hs)) rest)
    ∙ read-comma fields rows field_start g (write_record (h ∷ hs) ++ rest) tt
    ∙ read-fields h hs (g ∷ fields) rows rest

abbrev pub IsWide : List Text → Type 0
IsWide [] = ⊥
IsWide (f ∷ []) = ⊥
IsWide (f ∷ g ∷ fs) = Unit {0}

read-record :
    (r : List Text) (rows : List (List Text)) (rest : Text)
    → IsWide r
    → read record_start [] [] rows (write_record r ++ rest)
      ≡ read record_start [] [] (r ∷ rows) rest
unfolding write_record
read-record [] rows rest w = absurd w
read-record (f ∷ []) rows rest w = absurd w
read-record (f ∷ g ∷ fs) rows rest w =
    ap (read record_start [] [] rows)
      (append_assoc (write_field f) (comma ∷ write_record (g ∷ fs)) rest)
    ∙ read-comma [] rows record_start f (write_record (g ∷ fs) ++ rest) refl
    ∙ read-fields g fs (f ∷ []) rows rest
    ∙ ap (λ x. read record_start [] [] (x ∷ rows) rest) (reverse-reverse (f ∷ g ∷ fs))

read-rows :
    (rs rows : List (List Text))
    → All IsWide rs
    → read record_start [] [] rows (write_all rs) ≡ some (reverse (reverse_aux rs rows))
unfolding read at_end write_all
read-rows [] rows w = refl
read-rows (r ∷ rs) rows w = read-record r rows (write_all rs) w.0 ∙ read-rows rs (r ∷ rows) w.1

normalize_lines-Plain : (s : Text) → Plain s → normalize_lines s ≡ s
unfolding normalize_lines
normalize_lines-Plain [] h = refl
normalize_lines-Plain (c ∷ []) h = ground (arith, h)
normalize_lines-Plain (c ∷ d ∷ cs) h = ground (arith, h, normalize_lines-Plain (d ∷ cs))

append-Plain : (s t : Text) → Plain s → Plain t → Plain (s ++ t)
append-Plain [] t h k = k
append-Plain (c ∷ cs) t h k = ground (arith, h, k, append-Plain cs t)

escape-Plain : (f : Text) → Plain f → Plain (escape f)
unfolding escape
escape-Plain [] h = refl
escape-Plain (c ∷ cs) h = ground (arith, h, escape-Plain cs)

write_field-Plain : (f : Text) → Plain f → Plain (write_field f)
unfolding write_field
write_field-Plain f h =
    ground (arith, h, append-Plain (escape f) (quote ∷ []) (escape-Plain f h) refl)

write_record-Plain : (r : List Text) → All Plain r → Plain (write_record r)
unfolding write_record
write_record-Plain [] h = refl
write_record-Plain (f ∷ []) h =
    append-Plain (write_field f) (newline ∷ []) (write_field-Plain f h.0) refl
write_record-Plain (f ∷ g ∷ fs) h =
    append-Plain (write_field f) (comma ∷ write_record (g ∷ fs)) (write_field-Plain f h.0)
      (write_record-Plain (g ∷ fs) h.1)

write_all-Plain : (rs : List (List Text)) → All (All Plain) rs → Plain (write_all rs)
unfolding write_all
write_all-Plain [] h = refl
write_all-Plain (r ∷ rs) h =
    append-Plain (write_record r) (write_all rs) (write_record-Plain r h.0) (write_all-Plain rs h.1)

-- Records of two fields at least, without carriage returns, are read back as they were written.
pub read_all-write_all :
    (rs : List (List Text)) → All IsWide rs → All (All Plain) rs → read_all (write_all rs) ≡ some rs
unfolding read_all
read_all-write_all rs w p =
    ap (read record_start [] [] []) (normalize_lines-Plain (write_all rs) (write_all-Plain rs p))
    ∙ read-rows rs [] w
    ∙ ap (λ x. some x) (reverse-reverse rs)
