-- ===== src/Web/Csv/Parts.antt =====
-- Names that are joined are split again.
use mathlib.Core.List.{reverse, reverse-append, reverse-reverse}
use alfred_identity_backend.Common.{
  ℕ, ◌≡◌, inl, inr, refl, sym, ◌∙◌, ap, subst, Bool, false, not, ◌||◌, List, [], ◌∷◌, ◌++◌, ◌==◌,
  any, keep, All, Text, text_eq, arith, Bool-cases,
}
use alfred_identity_backend.Common.Strings.{is_space, trim_left, trim_space, Lowering}
use alfred_identity_backend.Common.Decimal.{join}
use alfred_identity_backend.Web.Csv.{
  split_func, fields_func, contains_char, distinct_parts, split_trimmed, split_multi, join_multi,
}

-- No space in front, and none behind.
abbrev pub IsSolid : Text → Type 0
IsSolid [] = ⊥
IsSolid (c ∷ cs) = is_space c ≡ false

abbrev pub IsTrimmed : Text → Type 0
IsTrimmed t = IsSolid t × IsSolid (reverse t)

abbrev pub is_mark : ℕ → Bool
is_mark c = (c == b',') || ((c == b';') || (c == b'|'))

-- A name that `splitMulti` takes as one part.
abbrev pub IsPart : Text → Type 0
IsPart p = IsTrimmed p × (any is_mark p ≡ false)

pub trim_left-IsSolid : (t : Text) → IsSolid t → trim_left t ≡ t
unfolding trim_left
trim_left-IsSolid [] h = absurd h
trim_left-IsSolid (c ∷ cs) h = ground (arith, h)

pub trim_space-IsTrimmed : (t : Text) → IsTrimmed t → trim_space t ≡ t
unfolding trim_space
trim_space-IsTrimmed t (front, back) =
    ap (λ x. reverse (trim_left (reverse x))) (trim_left-IsSolid t front)
    ∙ ap reverse (trim_left-IsSolid (reverse t) back)
    ∙ reverse-reverse t

pub append-IsSolid : (s t : Text) → IsSolid s → IsSolid (s ++ t)
append-IsSolid [] t h = absurd h
append-IsSolid (c ∷ cs) t h = h

pub append-IsTrimmed : (s t : Text) → IsSolid s → IsSolid (reverse t) → IsTrimmed (s ++ t)
append-IsTrimmed s t front back = (
  append-IsSolid s t front,
  subst IsSolid (sym (reverse-append s t)) (append-IsSolid (reverse t) (reverse s) back),
)

pub behind-comma : (t : Text) → IsSolid (reverse t) → IsSolid (reverse (b',' ∷ t))
behind-comma t h =
    subst IsSolid (sym (reverse-append (b',' ∷ []) t)) (append-IsSolid (reverse t) (b',' ∷ []) h)

pub join-IsTrimmed :
    (p : Text) (ps : List Text) → All IsPart (p ∷ ps) → IsTrimmed (join_multi (p ∷ ps))
unfolding join
join-IsTrimmed p [] h = h.0.0
join-IsTrimmed p (q ∷ qs) h =
    append-IsTrimmed p (b',' ∷ join_multi (q ∷ qs)) h.0.0.0
      (behind-comma (join_multi (q ∷ qs)) (join-IsTrimmed q qs h.1).1)

pub any-append :
    (f : ℕ → Bool) (s t : Text) → any f s ≡ false → any f t ≡ false → any f (s ++ t) ≡ false
any-append f [] t h k = k
any-append f (c ∷ cs) t h k = ground (arith, h, k, any-append f cs t)

pub no_bar : (s : Text) → any is_mark s ≡ false → contains_char b'|' s ≡ false
no_bar [] h = refl
no_bar (c ∷ cs) h = ground (arith, h, no_bar cs)

pub join-no_bar : (ps : List Text) → All IsPart ps → contains_char b'|' (join_multi ps) ≡ false
unfolding join
join-no_bar [] h = refl
join-no_bar (p ∷ []) h = no_bar p h.0.1
join-no_bar (p ∷ q ∷ qs) h =
    any-append (λ d. d == b'|') p (b',' ∷ join_multi (q ∷ qs)) (no_bar p h.0.1)
      (join-no_bar (q ∷ qs) h.1)

abbrev pub is_sep : ℕ → Bool
is_sep c = (c == b',') || (c == b';')

-- Parts without a separator are split where they were joined.
pub split_func-part : (p : Text) → any is_mark p ≡ false → split_func is_sep p ≡ p ∷ []
unfolding split_func
split_func-part [] h = refl
split_func-part (c ∷ cs) h = ground (arith, h, split_func-part cs)

pub split_func-some : (t : Text) → (p : Text) × (ps : List Text) × (split_func is_sep t ≡ p ∷ ps)
unfolding split_func
split_func-some [] = ([], [], refl)
split_func-some (c ∷ cs) =
    let (p, ps, e) = split_func-some cs in
    elim (Bool-cases (is_sep c)) [
      | inl h ↦ ([], p ∷ ps, rw (e, split_func) (rw h refl))
      | inr h ↦ (c ∷ p, ps, rw (e, split_func) (rw h refl))
    ]

pub split_func-comma :
    (p t : Text)
    → any is_mark p ≡ false
    → split_func is_sep (p ++ b',' ∷ t) ≡ p ∷ split_func is_sep t
unfolding split_func
split_func-comma [] t h = let (q, qs, e) = split_func-some t in ground (arith, e)
split_func-comma (c ∷ cs) t h = ground (arith, h, split_func-comma cs t)

pub split_func-join :
    (p : Text) (ps : List Text)
    → All IsPart (p ∷ ps)
    → split_func is_sep (join_multi (p ∷ ps)) ≡ p ∷ ps
unfolding join
split_func-join p [] h = split_func-part p h.0.1
split_func-join p (q ∷ qs) h =
    split_func-comma p (join_multi (q ∷ qs)) h.0.1 ∙ ap (λ x. p ∷ x) (split_func-join q qs h.1)

pub keep-parts : (ps : List Text) → All IsPart ps → keep (λ part. not (text_eq part [])) ps ≡ ps
keep-parts [] h = refl
keep-parts ([] ∷ ps) h = absurd h.0.0.0
keep-parts ((c ∷ cs) ∷ ps) h = ap (λ x. (c ∷ cs) ∷ x) (keep-parts ps h.1)

pub solid_text : (t : Text) → IsSolid t → text_eq t [] ≡ false
solid_text [] h = absurd h
solid_text (c ∷ cs) h = refl

module _ (low : Lowering) where
  -- No two of the names are the same up to letter case, and none is as one of `seen`.
  abbrev pub Differ : List Text → List Text → Type 0
  Differ seen [] = Unit {0}
  Differ seen (p ∷ ps) =
      (any (λ k. text_eq k (low.to_lower p)) seen ≡ false) × Differ (low.to_lower p ∷ seen) ps

  pub distinct_parts-Differ :
      (seen ps : List Text) → All IsPart ps → Differ seen ps → distinct_parts low seen ps ≡ ps
  unfolding distinct_parts
  distinct_parts-Differ seen [] h d = refl
  distinct_parts-Differ seen (p ∷ ps) h d =
      let same = trim_space-IsTrimmed p h.0.0 in
      rw (same, distinct_parts)
        (rw (solid_text p h.0.0.0, d.0)
          (ap (λ x. p ∷ x) (distinct_parts-Differ (low.to_lower p ∷ seen) ps h.1 d.1)))

  pub split_multi-join_multi :
      (ps : List Text) → All IsPart ps → Differ [] ps → split_multi low (join_multi ps) ≡ ps
  unfolding split_multi split_trimmed fields_func join trim_space
  split_multi-join_multi [] h d = refl
  split_multi-join_multi (p ∷ ps) h d =
      let joined = join_multi (p ∷ ps) in
      let whole = join-IsTrimmed p ps h in
      ap (split_trimmed low) (trim_space-IsTrimmed joined whole)
      ∙ split_solid joined (p ∷ ps) (solid_text joined whole.0) (join-no_bar (p ∷ ps) h)
          (split_func-join p ps h) (keep-parts (p ∷ ps) h)
      ∙ distinct_parts-Differ [] (p ∷ ps) h d
    where
      split_solid :
          (t : Text) (parts : List Text)
          → text_eq t [] ≡ false
          → contains_char b'|' t ≡ false
          → split_func is_sep t ≡ parts
          → keep (λ part. not (text_eq part [])) parts ≡ parts
          → split_trimmed low t ≡ distinct_parts low [] parts
      split_solid t parts full bare cut kept = rw (full, bare) (rw cut (rw kept refl))
