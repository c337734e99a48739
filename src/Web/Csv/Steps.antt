-- ===== src/Web/Csv/Steps.antt =====
-- What a part of an import does to the accounts, the errors and the counts.
use alfred_identity_backend.Common.{
  ℕ, suc, ◌+◌, ◌≡◌, refl, subst, inl, inr, Bool, true, false, List, [], ◌∷◌, ◌++◌, if◌then◌else◌,
  Text, In, arith, Bool-cases,
}
use alfred_identity_backend.Store.Db.{M, Error, Result-cases}
use alfred_identity_backend.Web.Csv.{SsoCsvRow}
use alfred_identity_backend.Web.Csv.Import.{
  Import, ImportError, Reason, unknown_role, note, attempt, attempt_each, lookup_failed,
  create_failed, password_failed, password_missing,
}
use alfred_identity_backend.Web.Csv.Growth.{Grows, Grows-refl, Grows-trans, Growing}

-- The reasons for which a row is given up.
abbrev pub is_stop : Reason → Bool
is_stop unknown_role = true
is_stop password_missing = true
is_stop (lookup_failed e) = true
is_stop (create_failed e) = true
is_stop (password_failed e) = true
is_stop reason = false

abbrev pub stops : List ImportError → ℕ
stops [] = 0
stops (e ∷ es) = if is_stop e.reason then suc (stops es) else stops es

-- The rows that were added, updated or given up.
abbrev pub counted : Import → ℕ
counted st = st.added + st.updated + stops st.errors

-- A part of the import leaves the accounts and the errors, and adds a number of rows to the count.
pub record Step (n : ℕ) (st out : Import) : Type 0 where
  pub grows : Grows st.db out.db
  pub errors : (e : ImportError) → In e st.errors → In e out.errors
  pub counts : counted out ≡ n + counted st

pub Step-refl : (st : Import) → Step 0 st st
Step-refl st = record { grows = Grows-refl st.db; errors = λ e i. i; counts = omega arith }

pub Step-trans : (n m : ℕ) (x y z : Import) → Step n x y → Step m y z → Step (m + n) x z
Step-trans n m x y z p q = record {
  grows = Grows-trans x.db y.db z.db p.grows q.grows;
  errors = λ e i. q.errors e (p.errors e i);
  counts = omega (arith, p.counts, q.counts);
}

pub In-first : (e : ImportError) (es fs : List ImportError) → In e es → In e (es ++ fs)
In-first e [] fs i = absurd i
In-first e (x ∷ es) fs (inl h) = inl h
In-first e (x ∷ es) fs (inr h) = inr (In-first e es fs h)

pub In-last : (e : ImportError) (es : List ImportError) → In e (es ++ e ∷ [])
In-last e [] = inl refl
In-last e (x ∷ es) = inr (In-last e es)

pub stops-last :
    (es : List ImportError) (e : ImportError) → stops (es ++ e ∷ []) ≡ stops es + stops (e ∷ [])
stops-last [] e = omega arith
stops-last (x ∷ es) e = elim (Bool-cases (is_stop x.reason)) [
  | inl h ↦ rw h (omega (arith, stops-last es e))
  | inr h ↦ rw h (stops-last es e)
]

module _ (row : SsoCsvRow) where
  pub note-Step :
      (reason : Reason) (st : Import)
      → Step (if is_stop reason then 1 else 0) st (note row reason st)
  note-Step reason st = record {
    grows = Grows-refl st.db;
    errors = λ e i. In-first e st.errors _ i;
    counts = omega (
      arith,
      stops-last st.errors (record { line = row.line; username = row.username; reason = reason }),
    );
  }

  pub attempt-Step :
      (reason : Error → Reason) (m : M (Unit {0})) (st : Import)
      → Growing m
      → ((e : Error) → is_stop (reason e) ≡ false)
      → Step 0 st (attempt row reason m st)
  unfolding attempt
  attempt-Step reason m st g quiet =
      let ran : Step 0 st (record st { db = (m st.db).1 }) = record {
        grows = g st.db;
        errors = λ e i. i;
        counts = omega arith;
      } in
      elim (Result-cases (m st.db).0) [
        | inl (u, e) ↦ rw e ran
        | inr (x, e) ↦ rw e (
            Step-trans 0 0 st (record st { db = (m st.db).1 }) _ ran
              (subst
                (λ b.
                  Step (if b then 1 else 0) (record st { db = (m st.db).1 })
                    (note row (reason x) (record st { db = (m st.db).1 })))
                (quiet x) (note-Step (reason x) (record st { db = (m st.db).1 }))))
      ]

  pub attempt_each-Step :
      (reason : Text → Error → Reason) (add : Text → M (Unit {0})) (xs : List Text) (st : Import)
      → ((x : Text) → Growing (add x))
      → ((x : Text) (e : Error) → is_stop (reason x e) ≡ false)
      → Step 0 st (attempt_each row reason add xs st)
  unfolding attempt_each
  attempt_each-Step reason add [] st g quiet = Step-refl st
  attempt_each-Step reason add (x ∷ xs) st g quiet =
      Step-trans 0 0 st (attempt row (reason x) (add x) st) _
        (attempt-Step (reason x) (add x) st (g x) (quiet x))
        (attempt_each-Step reason add xs (attempt row (reason x) (add x) st) g quiet)
