-- ===== src/Sso/Pick/FirstFree.antt =====
-- The loop over the pool of a tag, seen through the tracker that the hub had before.
use alfred_identity_backend.Common.{
  ℕ, suc, ◌≤◌, ◌<◌, ◌≡◌, ◌≢◌, inl, inr, refl, sym, ◌∙◌, ap, subst, true, false, List, [], ◌∷◌,
  Option, none, some, All, In, arith, Bool-cases,
}
use alfred_identity_backend.Presence.{Tracker, Entry, is_busy}
use alfred_identity_backend.Presence.View.{
  IsValid, live, is_some, is_busy-live, live-is_busy, is_busy-IsValid,
}
use alfred_identity_backend.Store.Candidates.{LoginCandidate}
use alfred_identity_backend.Sso.Pick.{Picked, first_free}

-- A hub may have no tracker, and then nobody is online.
abbrev pub live_at : Option Tracker → ℕ → ℕ → Option Entry
live_at none now a = none
live_at (some t) now a = live t now a

abbrev pub IsTracker : Option Tracker → Type 0
IsTracker none = Unit {0}
IsTracker (some t) = IsValid t

busy_entry : {A : Type 0} (o : Option A) → is_some o ≡ true → (e : A) × (o ≡ some e)
busy_entry none h = cc
busy_entry (some e) h = (e, refl)

no_entry : {A : Type 0} (o : Option A) → is_some o ≡ false → o ≡ none
no_entry none h = refl
no_entry (some e) h = cc

module _ (clock : ℕ → ℕ) (rises : (n : ℕ) → clock n ≤ clock (suc n)) (pres : Option Tracker) where
  -- The tracker `t` shows from reading `n` on what the hub's tracker shows.
  abbrev pub Agrees : Tracker → ℕ → Type 0
  Agrees t n = IsValid t × ((m b : ℕ) → clock n ≤ m → live t m b ≡ live_at pres m b)

  Agrees-later :
      (t : Tracker) (a n : ℕ)
      → Agrees t n
      → Agrees (is_busy t a (clock n) (clock (suc n))).0 (suc (suc n))
  Agrees-later t a n (v, same) = (
    is_busy-IsValid t a (clock n) (clock (suc n)) v,
    λ m b h.
        let at : clock n ≤ m = omega (arith, rises n, rises (suc n), h) in
        live-is_busy t a b (clock n) (clock (suc n)) m v at ∙ same m b at,
  )

  busy_at :
      (t : Tracker) (a n : ℕ)
      → Agrees t n
      → (is_busy t a (clock n) (clock (suc n))).1 ≡ is_some (live_at pres (clock (suc n)) a)
  busy_at t a n (v, same) =
      is_busy-live t a (clock n) (clock (suc n)) v (rises n)
      ∙ ap is_some (same (clock (suc n)) a (rises n))

  time_rises :
      (cs : List LoginCandidate) (t : Tracker) (n : ℕ) → n ≤ (first_free clock cs (some t) n).time
  unfolding first_free
  time_rises [] t n = ground arith
  time_rises (c ∷ cs) t n =
      ground (arith, time_rises cs (is_busy t c.id (clock n) (clock (suc n))).0 (suc (suc n)))

  -- A reading of the clock that a call from reading `n` on makes.
  abbrev pub IsReading : ℕ → Picked → ℕ → Type 0
  IsReading n r k = (n ≤ k) × (k < r.time)

  abbrev pub Free : List LoginCandidate → ℕ → Picked → Type 0
  Free cs n r =
      (c : LoginCandidate) × In c cs
      × (c.id ≡ r.id)
      × (k : ℕ) × IsReading n r k
      × (live_at pres (clock k) c.id ≡ none)

  abbrev pub Busy : ℕ → Picked → LoginCandidate → Type 0
  Busy n r c = (k : ℕ) × (e : Entry) × IsReading n r k × (live_at pres (clock k) c.id ≡ some e)

  pub first_free-Free :
      (cs : List LoginCandidate) (t : Tracker) (n : ℕ)
      → Agrees t n
      → (first_free clock cs (some t) n).id ≢ 0
      → Free cs n (first_free clock cs (some t) n)
  unfolding first_free
  first_free-Free [] t n ok some_id = absurd (some_id refl)
  first_free-Free (c ∷ cs) t n ok some_id =
      let busy = is_busy t c.id (clock n) (clock (suc n)) in
      let same = busy_at t c.id n ok in
      elim (Bool-cases busy.1) [
        | inl e ↦ rw e (
            let (d, i, q, k, r, h) =
              first_free-Free cs busy.0 (suc (suc n)) (Agrees-later t c.id n ok)
                (rw e at some_id) in
            (d, inr i, q, k, ground arith, h))
        | inr e ↦ rw e (c, inl refl, refl, suc n, ground arith, no_entry _ (sym same ∙ e))
      ]

  pub first_free-Busy :
      (cs : List LoginCandidate) (t : Tracker) (n : ℕ)
      → Agrees t n
      → All (λ c. c.id ≢ 0) cs
      → (first_free clock cs (some t) n).id ≡ 0
      → (c : LoginCandidate) → In c cs
      → Busy n (first_free clock cs (some t) n) c
  unfolding first_free
  first_free-Busy [] t n ok ids no_id c i = absurd i
  first_free-Busy (d ∷ cs) t n ok ids no_id c i =
      let busy = is_busy t d.id (clock n) (clock (suc n)) in
      let same = busy_at t d.id n ok in
      elim (Bool-cases busy.1) [
        | inl e ↦ elim i [
          | inl q ↦
              let found : (x : Entry) × (live_at pres (clock (suc n)) d.id ≡ some x) =
                busy_entry _ (sym same ∙ e) in
              rw e (
                suc n,
                found.0,
                ground (arith, time_rises cs busy.0 (suc (suc n))),
                subst (λ x. live_at pres (clock (suc n)) x.id ≡ some found.0) q found.1,
              )
          | inr j ↦
              let (k, x, r, h) =
                first_free-Busy cs busy.0 (suc (suc n)) (Agrees-later t d.id n ok) ids.1
                  (rw e at no_id) c j in
              rw e (k, x, ground arith, h)
        ]
        | inr e ↦ absurd (ids.0 (rw e at no_id))
      ]
