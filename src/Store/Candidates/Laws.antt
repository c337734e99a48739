-- ===== src/Store/Candidates/Laws.antt =====
-- A typed name resolves to accounts that the user may use and that carry the name, and to all.
use alfred_identity_backend.Common.{
  ℕ, ◌≡◌, ◌≢◌, inl, inr, refl, sym, subst, true, false, ◌||◌, List, [], ◌∷◌, ◌==◌, ==_refl,
  if◌then◌else◌, Text, text_eq, text_eq_iff, any_iff, found_any, keep, In, In-keep, In-keep_inv,
  In-map, In-map_inv, length, arith, Bool-cases,
}
use alfred_identity_backend.Common.Sort.{sort_by_id, sort_by_id-In}
use alfred_identity_backend.Common.Strings.{trim_space, Lowering}
use alfred_identity_backend.Crypto.Aead.{Vault}
use alfred_identity_backend.Store.Db.{Db, AccountsKeyed, EqAccount, ok}
use alfred_identity_backend.Store.Access.{allowed_account_ids, account_id}
use alfred_identity_backend.Store.Access.Spec.{MayUse, allowed_account_ids-MayUse}
use alfred_identity_backend.Store.Candidates.{
  LoginCandidate, candidate_of, is_match, is_selected, select_candidates, resolve_login_candidates,
}
use alfred_identity_backend.Store.Candidates.Rows.{
  Tells, StandsFor, candidate_of-Tells, Tells-candidate_of, is_match_iff,
}

not_empty : (ids : List ℕ) (id : ℕ) → In id ids → (length ids == 0) ≡ false
not_empty [] id h = absurd h
not_empty (k ∷ ids) id h = ground arith

module _ (v : Vault) (low : Lowering) (db : Db) (user_id : ℕ) (typed : Text)
    (keyed : AccountsKeyed db) where
  -- What the candidates of the typed name are.
  abbrev pub IsCandidate : LoginCandidate → Type 0
  IsCandidate c =
      (a : EqAccount) × In a db.eq_accounts
      × MayUse db user_id a
      × Tells v low db c a (trim_space typed)
      × StandsFor v low db a (trim_space typed)

  -- The same with the query's own tests.
  abbrev Selected : LoginCandidate → Type 0
  Selected c =
      (a : EqAccount) × In a db.eq_accounts
      × MayUse db user_id a
      × (c ≡ candidate_of v low db (trim_space typed) a)
      × (is_match v low c ≡ true)

  IsCandidate-Selected : (c : LoginCandidate) → IsCandidate c → Selected c
  IsCandidate-Selected c (a, i, may, tells, stands) = (
    a,
    i,
    may,
    Tells-candidate_of v low db c a (trim_space typed) tells,
    (is_match_iff v low db c a (trim_space typed) tells).1 stands,
  )

  Selected-IsCandidate : (c : LoginCandidate) → Selected c → IsCandidate c
  Selected-IsCandidate c (a, i, may, same, hit) =
      let tells : Tells v low db c a (trim_space typed) =
        subst (λ (x : LoginCandidate). Tells v low db x a (trim_space typed)) (sym same)
          (candidate_of-Tells v low db a (trim_space typed)) in
      (a, i, may, tells, (is_match_iff v low db c a (trim_space typed) tells).0 hit)

  abbrev name : Text
  name = trim_space typed

  abbrev found : List ℕ → List LoginCandidate
  found ids = if length ids == 0 || text_eq name [] then [] else select_candidates v low ids name db

  abbrev Allowed : ℕ → Type 0
  Allowed id = (a : EqAccount) × In a db.eq_accounts × (a.id ≡ id) × MayUse db user_id a

  resolved :
      (ids : List ℕ)
      → allowed_account_ids user_id db ≡ (ok ids, db)
      → resolve_login_candidates v low user_id typed db ≡ (ok (found ids), db)
  unfolding resolve_login_candidates
  resolved ids e = rw e (elim (Bool-cases (length ids == 0 || text_eq name [])) [
    | inl none_left ↦ rw none_left
    | inr some_left ↦ rw some_left
  ])

  found_sound :
      (ids : List ℕ)
      → ((id : ℕ) → In id ids → Allowed id)
      → (c : LoginCandidate) → In c (found ids)
      → Selected c
  found_sound ids allowed c h = elim (Bool-cases (length ids == 0 || text_eq name [])) [
    | inl none_left ↦ absurd (rw none_left at h)
    | inr some_left ↦
        let (a, i, q) =
          In-map_inv (candidate_of v low db name) c
            (sort_by_id account_id (keep (is_selected v low db ids name) db.eq_accounts))
            (rw some_left at h) in
        let (j, t) =
          In-keep_inv (is_selected v low db ids name) a db.eq_accounts
            ((sort_by_id-In account_id a _).0 i) in
        let (k, l, e) = (any_iff (λ id. id == a.id) ids).0 (ground arith) in
        let (b, m, f, may) = allowed k l in
        (
          a,
          j,
          subst (MayUse db user_id) (keyed b a m j (ground arith)) may,
          sym q,
          subst (λ x. is_match v low x ≡ true) q (ground arith),
        )
  ]

  found_complete :
      (ids : List ℕ)
      → ((id : ℕ) → Allowed id → In id ids)
      → (c : LoginCandidate) → Selected c
      → name ≢ []
      → In c (found ids)
  found_complete ids allowed c (a, i, may, q, hit) filled =
      let listed : In a.id ids = allowed a.id (a, i, refl, may) in
      let some_left : (length ids == 0 || text_eq name []) ≡ false =
        ground (arith, not_empty ids a.id listed, text_eq_iff name []) in
      let chosen : is_selected v low db ids name a ≡ true = ground (
        arith,
        found_any (λ id. id == a.id) a.id ids listed (==_refl a.id),
        subst (λ x. is_match v low x ≡ true) q hit,
      ) in
      rw (some_left, q)
        (In-map (candidate_of v low db name) a _ (
          (sort_by_id-In account_id a _).1
            (In-keep (is_selected v low db ids name) a db.eq_accounts i chosen)))

  -- The candidates by the query's tests.
  resolve_login_candidates-Selected :
      (cands : List LoginCandidate) × (resolve_login_candidates v low user_id typed db
        ≡ (ok cands, db))
      × ((c : LoginCandidate) → In c cands → Selected c)
      × ((c : LoginCandidate) → Selected c → trim_space typed ≢ [] → In c cands)
  resolve_login_candidates-Selected =
      let (ids, e, allowed, _) = allowed_account_ids-MayUse db user_id in
      (
        found ids,
        resolved ids e,
        found_sound ids (λ id. (allowed id).0),
        found_complete ids (λ id. (allowed id).1),
      )

  -- With the accounts keyed by their numbers, ResolveLoginCandidates succeeds and writes nothing.
  -- Its candidates stand for accounts that the user may use and that the trimmed name stands for:
  -- by the blind index of the lowered user name, or by a tag, alias or character of the account
  -- that is the name up to letter case. Each candidate tells exactly in which of these ways. Unless
  -- the trimmed name is blank, every such account has its candidate.
  pub resolve_login_candidates_lem :
      (cands : List LoginCandidate) × (resolve_login_candidates v low user_id typed db
        ≡ (ok cands, db))
      × ((c : LoginCandidate) → In c cands → IsCandidate c)
      × ((c : LoginCandidate) → IsCandidate c → trim_space typed ≢ [] → In c cands)
  resolve_login_candidates_lem =
      let (cands, e, sound, complete) = resolve_login_candidates-Selected in
      (
        cands,
        e,
        λ c i. Selected-IsCandidate c (sound c i),
        λ c h filled. complete c (IsCandidate-Selected c h) filled,
      )
