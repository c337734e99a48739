-- ===== src/Presence/View.antt =====
-- The tracker seen as a function from accounts to the entry that is live at a time.
use alfred_identity_backend.Common.{
  ℕ, ◌+◌, ◌≤◌, ◌≡◌, refl, sym, subst, inl, inr, Text, Bool, true, false, not, List, [], ◌∷◌, map,
  Option, none, some, ltb, ◌==◌, if◌then◌else◌, keep, arith, Option-cases,
}
use alfred_identity_backend.Common.Assoc.{
  lookup, Distinct, insert-Distinct, keep-Distinct, lookup-insert, lookup-keep, restrict,
}
use alfred_identity_backend.Presence.{
  Tracker, Entry, touch, clear, is_fresh, expire_locked, is_cleared, clear_loop, clear_user_except,
  is_busy, online, snapshot, count,
}
use alfred_identity_backend.Common.Sort.{sort_by_id-perm, sort_by_id-Ascending, Ascending}
use mathlib.Core.List.{Perm}

-- Each account has one entry.
abbrev pub IsValid : Tracker → Type 0
IsValid t = Distinct t.m

abbrev pub is_some : {A : Type 0} → Option A → Bool
is_some none = false
is_some (some a) = true

-- The entry that counts for an account at time `now`.
abbrev pub live : Tracker → ℕ → ℕ → Option Entry
live t now a = restrict (λ p. is_fresh t.ttl now p.1) a (lookup a t.m)

clear_loop-keep :
    (user keep_id : ℕ) (m : List (ℕ × Entry))
    → (clear_loop user keep_id m).0 ≡ keep (λ p. not (is_cleared user keep_id p)) m
unfolding clear_loop
clear_loop-keep user keep_id [] = refl
clear_loop-keep user keep_id (p ∷ m) = ground (arith, clear_loop-keep user keep_id m)

pub clear_user_except-map :
    (t : Tracker) (user keep_id now : ℕ)
    → (clear_user_except t user keep_id now).0.m
      ≡ keep (λ p. not (is_cleared user keep_id p)) (keep (λ p. is_fresh t.ttl now p.1) t.m)
unfolding clear_user_except
clear_user_except-map t user keep_id now = clear_loop-keep user keep_id _

clear_user_except-ttl :
    (t : Tracker) (user keep_id now : ℕ) → (clear_user_except t user keep_id now).0.ttl ≡ t.ttl
unfolding clear_user_except
clear_user_except-ttl t user keep_id now = refl

-- In a tracker with one entry for each account, every operation keeps it so.
pub operations-IsValid :
    (t : Tracker) (a user now later : ℕ) (name : Text)
    → IsValid t
    → IsValid (touch t a name user now)
      × IsValid (clear t a)
      × IsValid (clear_user_except t user a now).0
      × IsValid (is_busy t a now later).0
      × IsValid (online t now).0
      × IsValid (snapshot t now).0
      × IsValid (count t now).0
unfolding touch clear clear_user_except is_busy online snapshot count
operations-IsValid t a user now later name v =
    let fresh = keep-Distinct (λ p. is_fresh t.ttl now p.1) t.m v in
    (
      insert-Distinct a _ t.m v,
      keep-Distinct _ t.m v,
      subst Distinct (sym (clear_user_except-map t user a now)) (keep-Distinct _ _ fresh),
      fresh,
      fresh,
      fresh,
      fresh,
    )

-- Touch makes the account live, with the given character and user, until the time to live has
-- passed, and leaves every other account as it was.
pub live-touch :
    (t : Tracker) (a user now later b : ℕ) (name : Text)
    → live (touch t a name user now) later b ≡ (
        if a == b
        then if ltb later (now + t.ttl)
          then some
              (record { account_id = a; character_name = name; user_id = user; last_seen = now })
          else none
        else live t later b)
unfolding touch
live-touch t a user now later b name = ground (
  arith,
  lookup-insert a b
      (record { account_id = a; character_name = name; user_id = user; last_seen = now }) t.m,
)

-- What a switch of `user` to `keep_id` means for another account.
abbrev pub offline_elsewhere : ℕ → ℕ → ℕ → Option Entry → Option Entry
offline_elsewhere user keep_id b none = none
offline_elsewhere user keep_id b (some e) =
    if e.user_id == user then if b == keep_id then some e else none else some e

-- In a valid tracker, ClearUserExcept takes exactly the user's other accounts offline, as seen at
-- any later time.
pub live-clear_user_except :
    (t : Tracker) (user keep_id now later b : ℕ)
    → IsValid t
    → now ≤ later
    → live (clear_user_except t user keep_id now).0 later b
      ≡ offline_elsewhere user keep_id b (live t later b)
live-clear_user_except t user keep_id now later b v h =
    let fresh = keep-Distinct (λ p. is_fresh t.ttl now p.1) t.m v in
    rw
      (
        clear_user_except-ttl t user keep_id now,
        clear_user_except-map t user keep_id now,
        lookup-keep (λ p. not (is_cleared user keep_id p)) b _ fresh,
        lookup-keep (λ p. is_fresh t.ttl now p.1) b t.m v,
      )
      (elim (Option-cases (lookup b t.m)) [
        | inl e ↦ rw e (ground arith)
        | inr (x, e) ↦ rw e (ground arith)
      ])

-- In a valid tracker, and with a clock that does not run back between its two readings, IsBusy says
-- whether the account has a live entry at the second reading.
pub is_busy-live :
    (t : Tracker) (a now later : ℕ)
    → IsValid t
    → now ≤ later
    → (is_busy t a now later).1 ≡ is_some (live t later a)
unfolding is_busy
is_busy-live t a now later v h = ground (arith, lookup-keep (λ p. is_fresh t.ttl now p.1) a t.m v)

-- Snapshot lists the entries left after expiry, each once, in ascending order of their accounts.
pub snapshot_lem :
    (t : Tracker) (now : ℕ)
    → Perm (snapshot t now).1 (map (λ (p : ℕ × Entry). p.1) (expire_locked t now).m)
      × Ascending (λ e. e.account_id) (snapshot t now).1
unfolding snapshot
snapshot_lem t now = (sort_by_id-perm _ _, sort_by_id-Ascending _ _)

-- What `IsBusy` deletes was not live any more.
pub live-is_busy :
    (t : Tracker) (a b now later m : ℕ)
    → IsValid t
    → now ≤ m
    → live (is_busy t a now later).0 m b ≡ live t m b
unfolding is_busy
live-is_busy t a b now later m v h =
    rw (lookup-keep (λ p. is_fresh t.ttl now p.1) b t.m v)
      (elim (Option-cases (lookup b t.m)) [ inl e ↦ rw e refl | inr (x, e) ↦ rw e (ground arith) ])

pub is_busy-IsValid :
    (t : Tracker) (a now later : ℕ) → IsValid t → IsValid (is_busy t a now later).0
is_busy-IsValid t a now later v = (operations-IsValid t a 0 now later [] v).3
