-- ===== src/Sso/Splice/Writes.antt =====
-- What the path of a login packet through the hub writes.
use alfred_identity_backend.Common.{
  ℕ, ◌≡◌, ◌⊎◌, inl, inr, Bool, true, false, List, Option, none, some, arith, Option-cases,
}
use alfred_identity_backend.Common.Bytes.{Bytes}
use alfred_identity_backend.Eqlogin.LoginPacket.{LoginPacket, parse_login_packet}
use alfred_identity_backend.Presence.View.{is_some}
use alfred_identity_backend.Store.Db.{Result-cases}
use alfred_identity_backend.Store.Candidates.{LoginCandidate, resolve_login_candidates}
use alfred_identity_backend.Sso.Pick.{pick_login_candidate}
use alfred_identity_backend.Sso.Splice.{
  Setup, Hub, Splice, allow_login, logged_in, splice_account, splice_candidates,
  splice_login_packet,
}

module _ (s : Setup) where
  -- The call returns a packet with other credentials.
  abbrev pub is_spliced : Option (Splice s) → Bool
  is_spliced none = false
  is_spliced (some r) = is_some r.spliced

  -- What a call leaves as it is, whatever its result.
  abbrev pub Quiet : Hub s → Option (Splice s) × Hub s → Type 0
  Quiet h after =
      (after.1.db ≡ h.db)
      × ((is_spliced after.0 ≡ true)
          ⊎ ((after.1.audit_log ≡ h.audit_log) × (after.1.broadcasts ≡ h.broadcasts)))

  splice_account-Quiet :
      (h : Hub s) (user : ℕ) (lp : LoginPacket) (chosen : ℕ)
      → Quiet h (splice_account s h user lp chosen)
  unfolding splice_account logged_in
  splice_account-Quiet h user lp chosen = ground arith

  splice_candidates-Quiet :
      (h : Hub s) (user : ℕ) (lp : LoginPacket) (cands : List LoginCandidate)
      → Quiet h (splice_candidates s h user lp cands)
  unfolding splice_candidates
  splice_candidates-Quiet h user lp cands =
      let picked = pick_login_candidate s.clock cands h.presence h.time in
      ground (
        arith,
        splice_account-Quiet (record h { presence = picked.pres; time = picked.time }) user lp
            picked.id,
      )

  -- spliceLoginPacket changes no table but the audit log, and unless it returns a packet with other
  -- credentials it writes no audit row and broadcasts nothing.
  pub splice_login_packet-Quiet :
      (h : Hub s) (user : ℕ) (body : Bytes) → Quiet h (splice_login_packet s h user body)
  unfolding splice_login_packet allow_login
  splice_login_packet-Quiet h user body = elim (Option-cases (parse_login_packet s.des body)) [
    | inl none_read ↦ ground arith
    | inr (lp, read) ↦
        let h2 = (allow_login s h user).1 in
        elim (Result-cases
          (resolve_login_candidates s.vault s.low user (s.runes lp.username) h.db).0) [
            | inl (cands, found) ↦ ground (arith, splice_candidates-Quiet h2 user lp cands)
            | inr (x, failed) ↦ ground arith
          ]
  ]
