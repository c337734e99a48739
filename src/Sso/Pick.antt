-- ===== src/Sso/Pick.antt =====
-- internal/sso/hub.go: pickLoginCandidate. The clock is a function from the number of a reading to
-- the time read, and the number of the next reading is passed on, as the tracker is.
pub mod FirstFree
pub mod Choice
use alfred_identity_backend.Common.{
  ℕ, suc, Bool, true, false, not, ◌&&◌, List, [], ◌∷◌, Option, none, some, ltb, ◌==◌, if◌then◌else◌,
  keep, length,
}
use alfred_identity_backend.Presence.{Tracker, is_busy}
use alfred_identity_backend.Store.Candidates.{LoginCandidate, direct}

pub record Picked : Type 0 where
  pub id : ℕ
  pub pres : Option Tracker
  pub time : ℕ

abbrev pub first_id : List LoginCandidate → ℕ
first_id [] = 0
first_id (c ∷ cs) = c.id

abbrev pub is_pooled : LoginCandidate → Bool
unfolding direct
is_pooled c = not (direct c) && c.by_tag

module _ (clock : ℕ → ℕ) where
  -- The loop over the pool of a tag. A hub without a tracker finds no account busy.
  unfoldable pub first_free : List LoginCandidate → Option Tracker → ℕ → Picked
  first_free [] pres n = record { id = 0; pres = pres; time = n }
  first_free (c ∷ cs) none n = record { id = c.id; pres = none; time = n }
  first_free (c ∷ cs) (some t) n =
      let (live, busy) = is_busy t c.id (clock n) (clock (suc n)) in
      let rest = first_free cs (some live) (suc (suc n)) in
      if busy then rest else record { id = c.id; pres = some live; time = suc (suc n) }

  unfoldable pub pick_login_candidate : List LoginCandidate → Option Tracker → ℕ → Picked
  unfolding direct first_free
  pick_login_candidate cands pres n =
      let directs = keep direct cands in
      let tag_pool = keep is_pooled cands in
      if length cands == 0
      then record { id = 0; pres = pres; time = n }
      else if ltb 0 (length directs)
      then record { id = first_id directs; pres = pres; time = n }
      else if length tag_pool == 1
      then record { id = first_id tag_pool; pres = pres; time = n }
      else first_free tag_pool pres n
