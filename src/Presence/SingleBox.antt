-- ===== src/Presence/SingleBox.antt =====
-- One account online for each user, as the comment on `ClearUserExcept` promises.
use alfred_identity_backend.Common.{
  Option, none, some, ℕ, ◌≡◌, ◌≢◌, ◌⊎◌, subst, sym, inl, inr, Text, not, In, In-keep_inv, arith,
}
use alfred_identity_backend.Common.Assoc.{In-insert, keep-Distinct, Distinct}
use alfred_identity_backend.Presence.{
  Tracker, Entry, touch, clear, is_fresh, is_cleared, clear_user_except, is_busy, expire_locked,
}
use alfred_identity_backend.Presence.View.{IsValid, clear_user_except-map}

-- Two entries of one user are entries of one account.
abbrev pub SingleBox : Tracker → Type 0
SingleBox t = (p q : ℕ × Entry) → In p t.m → In q t.m → p.1.user_id ≡ q.1.user_id → p.0 ≡ q.0

-- A tracker that is there has one entry for each account and one account for each user.
abbrev pub IsOrderly : Option Tracker → Type 0
IsOrderly none = Unit {0}
IsOrderly (some t) = IsValid t × SingleBox t

-- What `ClearUserExcept` leaves was there before, and is not another account of the user.
kept :
    (t : Tracker) (user keep_id now : ℕ) (p : ℕ × Entry)
    → In p (clear_user_except t user keep_id now).0.m
    → In p t.m × ((p.1.user_id ≢ user) ⊎ (p.0 ≡ keep_id))
kept t user keep_id now p h =
    let (h₁, a) =
      In-keep_inv (λ p. not (is_cleared user keep_id p)) p _
        (subst (In p) (clear_user_except-map t user keep_id now) h) in
    let (h₂, b) = In-keep_inv (λ p. is_fresh t.ttl now p.1) p t.m h₁ in (h₂, ground arith)

-- Clearing keeps the property, for every user.
pub clear_user_except-SingleBox :
    (t : Tracker) (user keep_id now : ℕ)
    → SingleBox t
    → SingleBox (clear_user_except t user keep_id now).0
clear_user_except-SingleBox t user keep_id now s p q hp hq =
    s p q (kept t user keep_id now p hp).0 (kept t user keep_id now q hq).0

pub clear-SingleBox : (t : Tracker) (a : ℕ) → SingleBox t → SingleBox (clear t a)
unfolding clear
clear-SingleBox t a s p q hp hq = s p q (In-keep_inv _ p t.m hp).0 (In-keep_inv _ q t.m hq).0

pub is_busy-SingleBox :
    (t : Tracker) (a now later : ℕ) → SingleBox t → SingleBox (is_busy t a now later).0
unfolding is_busy expire_locked
is_busy-SingleBox t a now later s p q hp hq =
    s p q (In-keep_inv _ p t.m hp).0 (In-keep_inv _ q t.m hq).0

-- In a valid tracker where each user is online on at most one account, this still holds after
-- ClearUserExcept for an account followed by Touch of that account.
pub switch-SingleBox :
    (t : Tracker) (a user now later : ℕ) (name : Text)
    → IsValid t
    → SingleBox t
    → SingleBox (touch (clear_user_except t user a now).0 a name user later)
unfolding touch
switch-SingleBox t a user now later name v s p q hp hq =
    let left = (clear_user_except t user a now).0 in
    let distinct : Distinct left.m =
      subst Distinct (sym (clear_user_except-map t user a now))
        (keep-Distinct _ _ (keep-Distinct _ t.m v)) in
    let entry : Entry = record {
      account_id = a;
      character_name = name;
      user_id = user;
      last_seen = later;
    } in
    elim (In-insert a entry p left.m distinct hp) [
      | inl new_p ↦ elim (In-insert a entry q left.m distinct hq) [
        | inl new_q ↦ ground arith
        | inr (ne, old_q) ↦ ground (arith, kept t user a now q old_q)
      ]
      | inr (ne, old_p) ↦ elim (In-insert a entry q left.m distinct hq) [
        | inl new_q ↦ ground (arith, kept t user a now p old_p)
        | inr (ne', old_q) ↦ s p q (kept t user a now p old_p).0 (kept t user a now q old_q).0
      ]
    ]
