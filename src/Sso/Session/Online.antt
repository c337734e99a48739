-- ===== src/Sso/Session/Online.antt =====
-- Who the messages of a connection make online, and on how many accounts.
use alfred_identity_backend.Common.{
  ℕ, suc, ◌≡◌, ◌⊎◌, refl, sym, ◌∙◌, ap, subst, [], some, inl, inr, ◌==◌, ==_iff, ==_refl, any,
  any_iff, found_any, find, In, Bool-cases, Option-cases,
}
use alfred_identity_backend.Presence.{Tracker, clear_user_except}
use alfred_identity_backend.Presence.View.{operations-IsValid}
use alfred_identity_backend.Presence.SingleBox.{IsOrderly, clear-SingleBox, switch-SingleBox}
use alfred_identity_backend.Store.Db.{EqAccount, AccountName}
use alfred_identity_backend.Store.Access.Spec.{MayUse, allowed_account_ids-MayUse}
use alfred_identity_backend.Store.Names.{same_name, account_id_by_character}
use alfred_identity_backend.Sso.Splice.{Setup}
use alfred_identity_backend.Sso.Clients.{Server, Conn, notify_state_listeners}
use alfred_identity_backend.Sso.Session.{Heartbeat, seen_on, seen, beat_on, beat}

module _ (s : Setup) where
  -- For a heartbeat with the name of a known character: either the character's account is one that
  -- the user may use by the access rules, and the hub records the message for this account; or the
  -- user may use no account with that number, and the heartbeat changes nothing.
  pub beat-MayUse :
      (v : Server s) (c : Conn) (msg : Heartbeat) (n : AccountName)
      → find (same_name s.low msg.character_name) v.hub.db.characters ≡ some n
      → ((a : EqAccount) × In a v.hub.db.eq_accounts
          × (a.id ≡ n.eq_account_id)
          × MayUse v.hub.db c.user.id a
          × (beat s v c (some msg) ≡ seen s v a.id c.user.id msg))
        ⊎ (((a : EqAccount)
              → In a v.hub.db.eq_accounts
              → a.id ≡ n.eq_account_id
              → ¬ MayUse v.hub.db c.user.id a)
            × (beat s v c (some msg) ≡ v))
  unfolding beat beat_on account_id_by_character
  beat-MayUse v c msg n named =
      let (ids, listed, may, order) = allowed_account_ids-MayUse v.hub.db c.user.id in
      let found = ap (λ x. x.0) listed in
      let is_it = λ (id : ℕ). id == n.eq_account_id in
      elim (Bool-cases (any is_it ids)) [
        | inl yes_listed ↦
            let (id, i, e) = (any_iff is_it ids).0 yes_listed in
            let (a, j, same, use_it) = (may id).0 i in
            let number = same ∙ (==_iff id n.eq_account_id).0 e in
            inl (
              a,
              j,
              number,
              use_it,
              rw (named, beat)
                  (rw (found, beat_on)
                    (rw yes_listed (ap (λ (k : ℕ). seen s v k c.user.id msg) (sym number)))),
            )
        | inr not_listed ↦ inr (
          (λ a i e h. cc (
              found_any is_it n.eq_account_id ids ((may n.eq_account_id).1 (a, i, e, h))
                (==_refl n.eq_account_id))),
          rw (named, beat) (rw (found, beat_on) (rw not_listed refl)),
        )
      ]

  seen_on-IsOrderly :
      (t : Tracker) (account user_id : ℕ) (msg : Heartbeat) (time : ℕ)
      → IsOrderly (some t)
      → IsOrderly (some (seen_on s t account user_id msg time))
  seen_on-IsOrderly t account user_id msg time (v, one) = elim (Bool-cases msg.offline) [
    | inl off ↦
        rw off ((operations-IsValid t account user_id 0 0 [] v).1, clear-SingleBox t account one)
    | inr on ↦ rw on (
      (operations-IsValid (clear_user_except t user_id account (s.clock time)).0 account user_id
          (s.clock (suc time)) 0 msg.character_name
          (operations-IsValid t account user_id (s.clock time) 0 [] v).2).0,
      switch-SingleBox t account user_id (s.clock time) (s.clock (suc time)) msg.character_name v
          one,
    )
  ]

  pub seen-IsOrderly :
      (v : Server s) (account user_id : ℕ) (msg : Heartbeat)
      → IsOrderly v.hub.presence
      → IsOrderly (seen s v account user_id msg).hub.presence
  unfolding seen notify_state_listeners
  seen-IsOrderly v account user_id msg h = elim (Option-cases v.hub.presence) [
    | inl e ↦ rw (e, seen) tt
    | inr (t, e) ↦
        rw (e, seen) (seen_on-IsOrderly t account user_id msg v.hub.time (subst IsOrderly e h))
  ]
