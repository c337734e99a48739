-- ===== src/Presence.antt =====
-- internal/presence/presence.go: who is online on which account. The clock is an argument of each
-- call, in nanoseconds; the mutex makes each call one step.
pub mod View
pub mod SingleBox
pub mod Refinement
use alfred_identity_backend.Common.{
  ℕ, suc, ◌+◌, Text, Bool, true, false, not, ◌&&◌, List, [], ◌∷◌, map, none, some, ltb, leb, ◌==◌,
  if◌then◌else◌, keep, length,
}
use alfred_identity_backend.Common.Sort.{sort_by_id}
use alfred_identity_backend.Common.Assoc.{lookup, insert, delete}

pub record Entry : Type 0 where
  pub account_id : ℕ
  pub character_name : Text
  pub user_id : ℕ
  pub last_seen : ℕ

pub record Tracker : Type 0 where
  pub ttl : ℕ
  pub m : List (ℕ × Entry)

pub record OnlineEntry : Type 0 where
  pub account_id : ℕ
  pub character_name : Text

pub new : ℕ → Tracker
new ttl = record { ttl = ttl; m = [] }

pub touch : Tracker → ℕ → Text → ℕ → ℕ → Tracker
touch t account character user now = record t { m = insert account entry t.m }
  where
    entry : Entry
    entry = record {
      account_id = account;
      character_name = character;
      user_id = user;
      last_seen = now;
    }

pub clear : Tracker → ℕ → Tracker
clear t account = record t { m = delete account t.m }

-- `now.Sub(e.LastSeen) < t.ttl`, written without a difference.
abbrev pub is_fresh : ℕ → ℕ → Entry → Bool
is_fresh ttl now e = ltb now (e.last_seen + ttl)

unfoldable pub expire_locked : Tracker → ℕ → Tracker
expire_locked t now = record t { m = keep (λ p. is_fresh t.ttl now p.1) t.m }

-- The entries that `ClearUserExcept` deletes.
abbrev pub is_cleared : ℕ → ℕ → ℕ × Entry → Bool
is_cleared user keep_id p = (p.1.user_id == user) && not (p.0 == keep_id)

-- The loop of `ClearUserExcept`: the entries that stay, and how many were deleted.
clear_loop : ℕ → ℕ → List (ℕ × Entry) → List (ℕ × Entry) × ℕ
clear_loop user keep_id [] = ([], 0)
clear_loop user keep_id (p ∷ m) =
    let (rest, cleared) = clear_loop user keep_id m in
    if is_cleared user keep_id p then (rest, suc cleared) else (p ∷ rest, cleared)

pub clear_user_except : Tracker → ℕ → ℕ → ℕ → Tracker × ℕ
unfolding expire_locked clear_loop
clear_user_except t user keep_id now =
    let live = expire_locked t now in
    let (m, cleared) = clear_loop user keep_id live.m in (record live { m = m }, cleared)

-- `later` is the second reading of the clock, by `time.Since`.
unfoldable pub is_busy : Tracker → ℕ → ℕ → ℕ → Tracker × Bool
unfolding expire_locked
is_busy t account now later =
    let live = expire_locked t now in
    (live, elim (lookup account live.m) [ none ↦ false | some e ↦ is_fresh t.ttl later e ])

online_entry : ℕ × Entry → OnlineEntry
online_entry p = record { account_id = p.1.account_id; character_name = p.1.character_name }

pub online : Tracker → ℕ → Tracker × List OnlineEntry
unfolding expire_locked online_entry
online t now = let live = expire_locked t now in (live, map online_entry live.m)

-- The rows are the entries themselves: `SnapshotEntry` has the fields of `entry`.
pub snapshot : Tracker → ℕ → Tracker × List Entry
unfolding expire_locked
snapshot t now =
    let live = expire_locked t now in
    (live, sort_by_id (λ e. e.account_id) (map (λ (p : ℕ × Entry). p.1) live.m))

pub count : Tracker → ℕ → Tracker × ℕ
unfolding expire_locked
count t now = let live = expire_locked t now in (live, length live.m)
