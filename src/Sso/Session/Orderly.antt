-- ===== src/Sso/Session/Orderly.antt =====
-- Every message keeps the tracker of the hub in order.
use alfred_identity_backend.Common.{
  ℕ, suc, subst, List, [], ◌∷◌, Option, none, some, inl, inr, arith, Bool-cases, Option-cases, keep,
}
use alfred_identity_backend.Common.Bytes.{Bytes}
use alfred_identity_backend.Presence.{Tracker, clear, clear_user_except, is_busy}
use alfred_identity_backend.Presence.View.{operations-IsValid, is_busy-IsValid}
use alfred_identity_backend.Presence.SingleBox.{
  IsOrderly, clear-SingleBox, clear_user_except-SingleBox, is_busy-SingleBox,
}
use alfred_identity_backend.Eqlogin.LoginPacket.{LoginPacket, parse_login_packet}
use alfred_identity_backend.Store.Db.{Result-cases}
use alfred_identity_backend.Store.Candidates.{LoginCandidate, resolve_login_candidates}
use alfred_identity_backend.Sso.Pick.{is_pooled, first_free, pick_login_candidate}
use alfred_identity_backend.Sso.Relay.{UdpRelay, strip_body}
use alfred_identity_backend.Sso.Splice.{
  Setup, Hub, Message, bad_json, bad_base64, decoded, allow_login, logged_in, splice_account,
  splice_candidates, splice_login_packet, handle_login_relay_up, handle_login_splice,
}

pub clear-IsOrderly : (t : Tracker) (a : ℕ) → IsOrderly (some t) → IsOrderly (some (clear t a))
clear-IsOrderly t a (v, one) = ((operations-IsValid t a 0 0 0 [] v).1, clear-SingleBox t a one)

cleared-IsOrderly :
    (t : Tracker) (user a now : ℕ)
    → IsOrderly (some t)
    → IsOrderly (some (clear_user_except t user a now).0)
cleared-IsOrderly t user a now (v, one) =
    ((operations-IsValid t a user now 0 [] v).2, clear_user_except-SingleBox t user a now one)

module _ (clock : ℕ → ℕ) where
  first_free-IsOrderly :
      (cs : List LoginCandidate) (p : Option Tracker) (n : ℕ)
      → IsOrderly p
      → IsOrderly (first_free clock cs p n).pres
  unfolding first_free
  first_free-IsOrderly [] p n h = h
  first_free-IsOrderly (c ∷ cs) none n h = tt
  first_free-IsOrderly (c ∷ cs) (some t) n (v, one) =
      let left = (is_busy t c.id (clock n) (clock (suc n))).0 in
      let here : IsOrderly (some left) = (
        is_busy-IsValid t c.id (clock n) (clock (suc n)) v,
        is_busy-SingleBox t c.id (clock n) (clock (suc n)) one,
      ) in
      elim (Bool-cases (is_busy t c.id (clock n) (clock (suc n))).1) [
        | inl busy ↦ rw busy (first_free-IsOrderly cs (some left) (suc (suc n)) here)
        | inr free ↦ rw free here
      ]

  pub picked-IsOrderly :
      (cs : List LoginCandidate) (p : Option Tracker) (n : ℕ)
      → IsOrderly p
      → IsOrderly (pick_login_candidate clock cs p n).pres
  unfolding pick_login_candidate
  picked-IsOrderly cs p n h = ground (arith, first_free-IsOrderly (keep is_pooled cs) p n h)

module _ (s : Setup) where
  logged_in-IsOrderly :
      (h : Hub s) (user chosen : ℕ) (typed : Bytes)
      → IsOrderly h.presence
      → IsOrderly (logged_in s h user chosen typed).presence
  unfolding logged_in
  logged_in-IsOrderly h user chosen typed o = elim (Option-cases h.presence) [
    | inl e ↦ rw (e, logged_in) tt
    | inr (t, e) ↦
        rw (e, logged_in) (cleared-IsOrderly t user chosen (s.clock h.time) (subst IsOrderly e o))
  ]

  -- The path of a login packet clears and expires entries, and adds none.
  splice_account-IsOrderly :
      (h : Hub s) (user : ℕ) (lp : LoginPacket) (chosen : ℕ)
      → IsOrderly h.presence
      → IsOrderly (splice_account s h user lp chosen).1.presence
  unfolding splice_account
  splice_account-IsOrderly h user lp chosen o =
      ground (arith, o, logged_in-IsOrderly h user chosen lp.username o)

  splice_candidates-IsOrderly :
      (h : Hub s) (user : ℕ) (lp : LoginPacket) (cands : List LoginCandidate)
      → IsOrderly h.presence
      → IsOrderly (splice_candidates s h user lp cands).1.presence
  unfolding splice_candidates
  splice_candidates-IsOrderly h user lp cands o =
      let picked = pick_login_candidate s.clock cands h.presence h.time in
      let here = picked-IsOrderly s.clock cands h.presence h.time o in
      ground (
        arith,
        o,
        here,
        splice_account-IsOrderly (record h { presence = picked.pres; time = picked.time }) user lp
            picked.id here,
      )

  splice-IsOrderly :
      (h : Hub s) (user : ℕ) (body : Bytes)
      → IsOrderly h.presence
      → IsOrderly (splice_login_packet s h user body).1.presence
  unfolding splice_login_packet allow_login
  splice-IsOrderly h user body o = elim (Option-cases (parse_login_packet s.des body)) [
    | inl none_read ↦ rw (none_read, splice_login_packet) o
    | inr (lp, read) ↦
        let h2 = (allow_login s h user).1 in
        elim (Result-cases
          (resolve_login_candidates s.vault s.low user (s.runes lp.username) h.db).0) [
            | inl (cands, found) ↦
                ground (arith, read, found, o, splice_candidates-IsOrderly h2 user lp cands o)
            | inr (x, e) ↦ ground (arith, read, e, o)
          ]
  ]

  pub relay_up-IsOrderly :
      (h : Hub s) (user : ℕ) (rel : Option UdpRelay) (msg : Message s)
      → IsOrderly h.presence
      → IsOrderly (handle_login_relay_up s h user rel msg).0.presence
  unfolding handle_login_relay_up
  relay_up-IsOrderly h user rel bad_json o = o
  relay_up-IsOrderly h user rel bad_base64 o = o
  relay_up-IsOrderly h user none (decoded pkt splice) o = ground (arith, o)
  relay_up-IsOrderly h user (some rel) (decoded pkt splice) o =
      ground (arith, o, splice-IsOrderly h user (strip_body rel pkt) o)

  pub splice_up-IsOrderly :
      (h : Hub s) (user : ℕ) (msg : Message s)
      → IsOrderly h.presence
      → IsOrderly (handle_login_splice s h user msg).0.presence
  unfolding handle_login_splice
  splice_up-IsOrderly h user bad_json o = o
  splice_up-IsOrderly h user bad_base64 o = o
  splice_up-IsOrderly h user (decoded pkt splice) o =
      ground (arith, o, splice-IsOrderly h user pkt o)
