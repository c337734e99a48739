-- ===== src/Sso/Pick/Choice.antt =====
-- Which candidate `pickLoginCandidate` chooses, and when it chooses none.
use alfred_identity_backend.Common.{
  ℕ, suc, ◌≤◌, ◌≡◌, ◌≢◌, ◌⊎◌, inl, inr, refl, sym, ◌∙◌, subst, Bool, true, false, List, [], ◌∷◌,
  Option, none, some, ltb, ◌==◌, keep, length, All, In, In-keep, In-keep_inv, arith, Bool-cases,
}
use alfred_identity_backend.Presence.{Tracker, is_busy}
use alfred_identity_backend.Store.Candidates.{LoginCandidate, direct}
use alfred_identity_backend.Sso.Pick.{Picked, first_id, is_pooled, first_free, pick_login_candidate}
use alfred_identity_backend.Sso.Pick.FirstFree.{
  live_at, IsTracker, IsReading, Busy, first_free-Free, first_free-Busy,
}

first_in :
    (cs : List LoginCandidate)
    → ltb 0 (length cs) ≡ true
    → (c : LoginCandidate) × In c cs × (c.id ≡ first_id cs)
first_in [] h = absurd (ground arith)
first_in (c ∷ cs) h = (c, inl refl, refl)

only_one :
    (cs : List LoginCandidate) → (length cs == 1) ≡ true → (c : LoginCandidate) × (cs ≡ c ∷ [])
only_one [] h = absurd (ground arith)
only_one (c ∷ []) h = (c, refl)
only_one (c ∷ d ∷ cs) h = absurd (ground arith)

none_in : {A : Type 0} (xs : List A) (x : A) → ltb 0 (length xs) ≡ false → In x xs → ⊥
none_in [] x h i = i
none_in (y ∷ xs) x h i = ground arith

All-keep : {A : Type 0} (P : A → Type 0) (q : A → Bool) (xs : List A) → All P xs → All P (keep q xs)
All-keep P q [] h = h
All-keep P q (x ∷ xs) h = elim (Bool-cases (q x)) [
  | inl e ↦ rw e (h.0, All-keep P q xs h.1)
  | inr e ↦ rw e (All-keep P q xs h.1)
]

length-keep_le : {A : Type 0} (p : A → Bool) (xs : List A) → length (keep p xs) ≤ length xs
length-keep_le p [] = ground arith
length-keep_le p (x ∷ xs) = ground (arith, length-keep_le p xs)

In-All : {A : Type 0} (P : A → Type 0) (x : A) (xs : List A) → In x xs → All P xs → P x
In-All P x [] i h = absurd i
In-All P x (y ∷ xs) (inl q) h = subst P q h.0
In-All P x (y ∷ xs) (inr i) h = In-All P x xs i h.1

-- No candidate is found by a name of its account.
abbrev pub NoDirect : List LoginCandidate → Type 0
NoDirect cands = (d : LoginCandidate) → In d cands → direct d ≡ false

module _ (clock : ℕ → ℕ) (rises : (n : ℕ) → clock n ≤ clock (suc n)) where
  -- The candidate was not online when it was looked up, if a tracker was asked at all.
  abbrev pub NotOnline : Option Tracker → ℕ → Picked → LoginCandidate → Type 0
  NotOnline pres n r c =
      (pres ≡ none)
      ⊎ ((k : ℕ) × IsReading clock rises pres n r k × (live_at pres (clock k) c.id ≡ none))

  pool_free :
      (pres : Option Tracker) (cs : List LoginCandidate) (n : ℕ)
      → IsTracker pres
      → (first_free clock cs pres n).id ≢ 0
      → (c : LoginCandidate) × In c cs
        × (c.id ≡ (first_free clock cs pres n).id)
        × NotOnline pres n (first_free clock cs pres n) c
  unfolding first_free
  pool_free none [] n v h = absurd (h refl)
  pool_free none (c ∷ cs) n v h = (c, inl refl, refl, inl refl)
  pool_free (some t) cs n v h =
      let (c, i, q, k, r, free) =
        first_free-Free clock rises (some t) cs t n (v, λ m b at. refl) h in
      (c, i, q, inr (k, r, free))

  pool-Busy :
      (pres : Option Tracker) (cs : List LoginCandidate) (n : ℕ)
      → IsTracker pres
      → All (λ c. c.id ≢ 0) cs
      → (first_free clock cs pres n).id ≡ 0
      → (c : LoginCandidate) → In c cs
      → Busy clock rises pres n (first_free clock cs pres n) c
  unfolding first_free
  pool-Busy none [] n v ids h c i = absurd i
  pool-Busy none (d ∷ cs) n v ids h c i = absurd (ids.0 h)
  pool-Busy (some t) cs n v ids h c i =
      first_free-Busy clock rises (some t) cs t n (v, λ m b at. refl) ids h c i

  module _ (pres : Option Tracker) (cands : List LoginCandidate) (n : ℕ) (v : IsTracker pres) where
    abbrev pub picked : Picked
    picked = pick_login_candidate clock cands pres n

    no_direct : ltb 0 (length (keep direct cands)) ≡ false → NoDirect cands
    no_direct e d i = elim (Bool-cases (direct d)) [
      | inl t ↦ absurd (none_in (keep direct cands) d e (In-keep direct d cands i t))
      | inr f ↦ f
    ]

    -- With a valid tracker (or none) and a clock that does not run back, an account that
    -- pickLoginCandidate chooses is that of a direct candidate; or no candidate is direct, and it
    -- is the only one of the tag's pool or was not online at a reading of the clock made in the
    -- call.
    pub pick_login_candidate-chosen :
        picked.id ≢ 0
        → (c : LoginCandidate) × In c cands
          × (c.id ≡ picked.id)
          × ((direct c ≡ true)
              ⊎ (NoDirect cands
                  × (c.by_tag ≡ true)
                  × ((keep is_pooled cands ≡ c ∷ []) ⊎ NotOnline pres n picked c)))
    unfolding pick_login_candidate direct
    pick_login_candidate-chosen some_id = elim (Bool-cases (length cands == 0)) [
      | inl e ↦ absurd (some_id (rw e refl))
      | inr e0 ↦ elim (Bool-cases (ltb 0 (length (keep direct cands)))) [
        | inl e1 ↦
            let (c, i, q) = first_in (keep direct cands) e1 in
            let (j, t) = In-keep_inv direct c cands i in rw (e0, e1) (c, j, q, inl t)
        | inr e1 ↦ elim (Bool-cases (length (keep is_pooled cands) == 1)) [
          | inl e2 ↦
              let (c, q) = only_one (keep is_pooled cands) e2 in
              let (j, t) = In-keep_inv is_pooled c cands (subst (In c) (sym q) (inl refl)) in
              rw (e0, e1, e2) (c, j, rw q refl, inr (no_direct e1, ground arith, inl q))
          | inr e2 ↦
              let (c, i, q, free) =
                pool_free pres (keep is_pooled cands) n v (rw (e0, e1, e2) at some_id) in
              let (j, t) = In-keep_inv is_pooled c cands i in
              rw (e0, e1, e2) (c, j, q, inr (no_direct e1, ground arith, inr free))
        ]
      ]
    ]

    -- With a valid tracker (or none), a clock that does not run back and accounts whose numbers are
    -- not 0, pickLoginCandidate chooses none only if no candidate is direct, the pool of the tag
    -- has not exactly one account, and every account with the tag was online at a reading of the
    -- clock made in the call.
    pub pick_login_candidate-none :
        All (λ c. c.id ≢ 0) cands
        → picked.id ≡ 0
        → NoDirect cands
          × (length (keep is_pooled cands) ≢ 1)
          × ((c : LoginCandidate) → In c cands → c.by_tag ≡ true → Busy clock rises pres n picked c)
    unfolding pick_login_candidate direct
    pick_login_candidate-none ids no_id = elim (Bool-cases (length cands == 0)) [
      | inl e ↦ (
        λ d i. absurd (none_in cands d (ground arith) i),
        ground (arith, length-keep_le is_pooled cands),
        λ c i t. absurd (none_in cands c (ground arith) i),
      )
      | inr e0 ↦ elim (Bool-cases (ltb 0 (length (keep direct cands)))) [
        | inl e1 ↦
            let (c, i, q) = first_in (keep direct cands) e1 in
            absurd (
              In-All (λ c. c.id ≢ 0) c cands (In-keep_inv direct c cands i).0 ids
                (q ∙ (rw (e0, e1) at no_id)))
        | inr e1 ↦ elim (Bool-cases (length (keep is_pooled cands) == 1)) [
          | inl e2 ↦
              let (c, q) = only_one (keep is_pooled cands) e2 in
              let (j, t) = In-keep_inv is_pooled c cands (subst (In c) (sym q) (inl refl)) in
              absurd (In-All (λ c. c.id ≢ 0) c cands j ids (rw (e0, e1, e2, q) at no_id))
          | inr e2 ↦
              rw (e0, e1, e2)
                (
                  no_direct e1,
                  ground arith,
                  λ c i t.
                      pool-Busy pres (keep is_pooled cands) n v (All-keep _ is_pooled cands ids)
                        (rw (e0, e1, e2) at no_id) c
                        (In-keep is_pooled c cands i (ground (arith, no_direct e1 c i))),
                )
        ]
      ]
    ]

first_free-In :
    (clock : ℕ → ℕ) (cs : List LoginCandidate) (pres : Option Tracker) (n : ℕ)
    → (first_free clock cs pres n).id ≢ 0
    → (c : LoginCandidate) × In c cs × (c.id ≡ (first_free clock cs pres n).id)
unfolding first_free
first_free-In clock [] pres n h = absurd (h refl)
first_free-In clock (c ∷ cs) none n h = (c, inl refl, refl)
first_free-In clock (c ∷ cs) (some t) n h =
    elim (Bool-cases (is_busy t c.id (clock n) (clock (suc n))).1) [
      | inl e ↦
          rw e (let (d, i, q) = first_free-In clock cs _ (suc (suc n)) (rw e at h) in (d, inr i, q))
      | inr e ↦ rw e (c, inl refl, refl)
    ]

-- Whoever is chosen is a candidate.
pub pick_login_candidate-In :
    (clock : ℕ → ℕ) (cands : List LoginCandidate) (pres : Option Tracker) (n : ℕ)
    → (pick_login_candidate clock cands pres n).id ≢ 0
    → (c : LoginCandidate) × In c cands × (c.id ≡ (pick_login_candidate clock cands pres n).id)
unfolding pick_login_candidate
pick_login_candidate-In clock cands pres n some_id = elim (Bool-cases (length cands == 0)) [
  | inl e ↦ absurd (some_id (rw e refl))
  | inr e0 ↦ elim (Bool-cases (ltb 0 (length (keep direct cands)))) [
    | inl e1 ↦
        let (c, i, q) = first_in (keep direct cands) e1 in
        rw (e0, e1) (c, (In-keep_inv direct c cands i).0, q)
    | inr e1 ↦ elim (Bool-cases (length (keep is_pooled cands) == 1)) [
      | inl e2 ↦
          let (c, i, q) = first_in (keep is_pooled cands) (ground arith) in
          rw (e0, e1, e2) (c, (In-keep_inv is_pooled c cands i).0, q)
      | inr e2 ↦
          let (c, i, q) =
            first_free-In clock (keep is_pooled cands) pres n (rw (e0, e1, e2) at some_id) in
          rw (e0, e1, e2) (c, (In-keep_inv is_pooled c cands i).0, q)
    ]
  ]
]
