-- ===== src/Presence/Refinement.antt =====
-- The tracker against a map of entries that never go away: deleting what has expired is not seen.
use alfred_identity_backend.Common.{
  ℕ, suc, inl, inr, ◌++◌, ◌≤◌, ◌≡◌, refl, Text, Bool, List, [], ◌∷◌, Option, none, some, ◌==◌,
  if◌then◌else◌, Option-cases,
}
use alfred_identity_backend.Common.Assoc.{lookup}
use alfred_identity_backend.Presence.{
  Tracker, Entry, touch, clear, is_fresh, clear_user_except, is_busy, online,
}
use alfred_identity_backend.Presence.View.{IsValid, is_some, live, offline_elsewhere}

-- A call of the tracker. `listed` is Online, Snapshot or Count, which delete what has expired.
pub data Call : Type 0 where
  touched : ℕ → Text → ℕ → Call
  cleared : ℕ → Call
  switched : ℕ → ℕ → Call
  asked : ℕ → Call
  listed : Call

-- A call, with two readings of the clock, and what IsBusy answers.
abbrev pub step : ℕ → ℕ → Call → Tracker → Tracker × List Bool
step now later (touched a name user) t = (touch t a name user now, [])
step now later (cleared a) t = (clear t a, [])
step now later (switched user a) t = ((clear_user_except t user a now).0, [])
step now later (asked a) t = ((is_busy t a now later).0, (is_busy t a now later).1 ∷ [])
step now later listed t = ((online t now).0, [])

-- What the calls mean: the last entry of each account, however old.
abbrev pub Last : Type 0
Last = ℕ → Option Entry

-- The entry as seen at a time.
abbrev pub seen_at : ℕ → ℕ → Option Entry → Option Entry
seen_at ttl now none = none
seen_at ttl now (some e) = if is_fresh ttl now e then some e else none

abbrev pub spec_step : ℕ → ℕ → Call → ℕ → Last → Last × List Bool
spec_step now later (touched a name user) ttl last = (
  (λ b.
      if a == b
      then some (record { account_id = a; character_name = name; user_id = user; last_seen = now })
      else last b),
  [],
)
spec_step now later (cleared a) ttl last = ((λ b. if a == b then none else last b), [])
spec_step now later (switched user a) ttl last = ((λ b. offline_elsewhere user a b (last b)), [])
spec_step now later (asked a) ttl last = (last, is_some (seen_at ttl later (last a)) ∷ [])
spec_step now later listed ttl last = (last, [])

-- The tracker shows the entries of the map, at any time that is still to come.
abbrev pub Shows : ℕ → Tracker → Last → Type 0
Shows now t last = IsValid t × ((b m : ℕ) → now ≤ m → live t m b ≡ seen_at t.ttl m (last b))

-- Every valid tracker shows the map of its own entries.
pub Shows-lookup : (now : ℕ) (t : Tracker) → IsValid t → Shows now t (λ b. lookup b t.m)
Shows-lookup now t v =
    (v, λ b m k. elim (Option-cases (lookup b t.m)) [ inl e ↦ rw e refl | inr (x, e) ↦ rw e refl ])

module _ (clock : ℕ → ℕ) where
  -- The calls one after another, from a reading of the clock on, and the answers.
  abbrev pub run_calls : ℕ → List Call → Tracker → Tracker × List Bool
  run_calls n [] t = (t, [])
  run_calls n (c ∷ cs) t =
      let (t2, out) = step (clock n) (clock (suc n)) c t in
      let (t3, rest) = run_calls (suc n) cs t2 in (t3, out ++ rest)

  abbrev pub spec_calls : ℕ → List Call → ℕ → Last → Last × List Bool
  spec_calls n [] ttl last = (last, [])
  spec_calls n (c ∷ cs) ttl last =
      let (last2, out) = spec_step (clock n) (clock (suc n)) c ttl last in
      let (last3, rest) = spec_calls (suc n) cs ttl last2 in (last3, out ++ rest)
