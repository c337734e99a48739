-- ===== src/Sso/Splice/Authority.antt =====
-- Whose credentials the hub puts into a login packet, and what a login leaves behind.
use alfred_identity_backend.Common.{
  ℕ, suc, ◌≡◌, inl, inr, refl, sym, ◌∙◌, ap, subst, true, false, not, List, [], none, some, ◌==◌,
  length, Text, codes, text_eq, In, arith, Bool-cases, Option-cases,
}
use alfred_identity_backend.Common.Bytes.{Bytes}
use alfred_identity_backend.Common.Strings.{trim_space}
use alfred_identity_backend.Crypto.Aead.{open_blob}
use alfred_identity_backend.Eqlogin.LoginPacket.{
  LoginPacket, parse_login_packet, rewrite_credentials,
}
use alfred_identity_backend.Store.Db.{Db, EqAccount, AccountsKeyed, ok, Result-cases}
use alfred_identity_backend.Store.Access.Spec.{MayUse}
use alfred_identity_backend.Store.Audit.{AuditRow, audit_account}
use alfred_identity_backend.Store.Candidates.{LoginCandidate, resolve_login_candidates}
use alfred_identity_backend.Store.Candidates.Laws.{IsCandidate, resolve_login_candidates_lem}
use alfred_identity_backend.Store.Candidates.Rows.{StandsFor}
use alfred_identity_backend.Store.Credentials.{decrypt_credentials, decrypt_credentials_inv}
use alfred_identity_backend.Sso.Pick.{pick_login_candidate}
use alfred_identity_backend.Sso.Pick.Choice.{pick_login_candidate-In}
use alfred_identity_backend.Sso.Splice.{
  Setup, Hub, Splice, allow_login, logged_in, splice_account, splice_candidates,
  splice_login_packet,
}

module _ (s : Setup) where
  -- What stands behind a spliced packet, and the row that the audit log gets.
  pub record Login (db : Db) (user : ℕ) (lp : LoginPacket) (out : Bytes) (r : Splice s)
      (a : EqAccount) : Type 0 where
    pub username : Bytes
    pub password : Bytes
    pub stored : In a db.eq_accounts
    pub opened_username :
        open_blob s.vault.gcm a.username_cipher (codes "eq_accounts.username") ≡ some username
    pub opened_password :
        open_blob s.vault.gcm a.password_cipher (codes "eq_accounts.password") ≡ some password
    pub rewritten : rewrite_credentials s.des lp username password ≡ some out
    pub forwarded : r.drop_reason ≡ []
    pub retried : r.retry_typed ≡ not (text_eq lp.password password)

  abbrev pub Logged : Hub s → ℕ → LoginPacket → EqAccount → Hub s → Type 0
  Logged h user lp a h2 =
      (n : ℕ) × (h2.audit_log
        ≡ audit_account s.vault (s.nonce n) user a.id (codes "login_relay") lp.username h.audit_log)
      × (h2.broadcasts ≡ suc h.broadcasts)

  splice_account-Login :
      (h : Hub s) (user : ℕ) (lp : LoginPacket) (chosen : ℕ) (r : Splice s) (out : Bytes)
      → (splice_account s h user lp chosen).0 ≡ some r
      → r.spliced ≡ some out
      → (a : EqAccount) × (a.id ≡ chosen)
        × Login h.db user lp out r a
        × Logged h user lp a (splice_account s h user lp chosen).1
  unfolding splice_account logged_in
  splice_account-Login h user lp chosen r out e o =
      elim (Result-cases (decrypt_credentials s.vault chosen false h.db).0) [
        | inr (x, q) ↦ ground arith
        | inl ((u, p), q) ↦ elim (Option-cases (rewrite_credentials s.des lp u p)) [
          | inl w ↦ ground arith
          | inr (o2, w) ↦
              let (a, i, k, _, name, word) = decrypt_credentials_inv s.vault chosen h.db u p q in
              let login : Login h.db user lp out r a = record {
                username = u;
                password = p;
                stored = i;
                opened_username = name;
                opened_password = word;
                rewritten = ground arith;
                forwarded = ground arith;
                retried = ground arith;
              } in
              let moved : (splice_account s h user lp chosen).1
                  ≡ logged_in s h user chosen lp.username =
                ground arith in
              let row : ℕ → List AuditRow = λ n.
                audit_account s.vault (s.nonce h.time) user n (codes "login_relay") lp.username
                  h.audit_log in
              (a, k, login, subst (Logged h user lp a) (sym moved) (h.time, ap row (sym k), refl))
        ]
      ]

  splice_candidates-Login :
      (h : Hub s) (user : ℕ) (lp : LoginPacket) (cands : List LoginCandidate) (r : Splice s)
      (out : Bytes)
      → (splice_candidates s h user lp cands).0 ≡ some r
      → r.spliced ≡ some out
      → (c : LoginCandidate) × (a : EqAccount) × In c cands
        × (c.id ≡ a.id)
        × Login h.db user lp out r a
        × Logged h user lp a (splice_candidates s h user lp cands).1
  unfolding splice_candidates
  splice_candidates-Login h user lp cands r out e o =
      let picked = pick_login_candidate s.clock cands h.presence h.time in
      elim (Bool-cases (length cands == 0)) [
        | inl e0 ↦ ground arith
        | inr e0 ↦ elim (Bool-cases (picked.id == 0)) [
          | inl e1 ↦ ground arith
          | inr e1 ↦
              let (c, i, q) =
                pick_login_candidate-In s.clock cands h.presence h.time (ground arith) in
              let (a, k, login, logged) =
                splice_account-Login (record h { presence = picked.pres; time = picked.time }) user
                  lp picked.id r out (rw (e0, e1) at e) o in
              rw (e0, e1) (c, a, i, q ∙ sym k, login, logged)
        ]
      ]

  module _ (h : Hub s) (user : ℕ) (body : Bytes) (keyed : AccountsKeyed h.db) where
    candidate_account :
        (typed : Text) (c : LoginCandidate) (a : EqAccount)
        → IsCandidate s.vault s.low h.db user typed keyed c
        → In a h.db.eq_accounts
        → c.id ≡ a.id
        → MayUse h.db user a × StandsFor s.vault s.low h.db a (trim_space typed)
    candidate_account typed c a (b, j, may, tells, stands) i q =
        let it : b ≡ a = keyed b a j i (sym tells.0 ∙ q) in
        (
          subst (MayUse h.db user) it may,
          subst (λ (x : EqAccount). StandsFor s.vault s.low h.db x (trim_space typed)) it stands,
        )

    reached :
        (lp : LoginPacket) (cands : List LoginCandidate)
        → parse_login_packet s.des body ≡ some lp
        → (allow_login s h user).0 ≡ true
        → (resolve_login_candidates s.vault s.low user (s.runes lp.username) h.db).0 ≡ ok cands
        → splice_login_packet s h user body
          ≡ splice_candidates s (allow_login s h user).1 user lp cands
    unfolding splice_login_packet allow_login
    reached lp cands read allowed found = ground arith

    unread :
        (r : Splice s) (out : Bytes)
        → parse_login_packet s.des body ≡ none
        → (splice_login_packet s h user body).0 ≡ some r
        → r.spliced ≡ some out
        → ⊥
    unfolding splice_login_packet
    unread r out none_read e o = ground arith

    limited :
        (lp : LoginPacket) (r : Splice s) (out : Bytes)
        → parse_login_packet s.des body ≡ some lp
        → (allow_login s h user).0 ≡ false
        → (splice_login_packet s h user body).0 ≡ some r
        → r.spliced ≡ some out
        → ⊥
    unfolding splice_login_packet
    limited lp r out read denied e o = ground arith

    -- With the accounts keyed by their numbers: when spliceLoginPacket returns a packet with other
    -- credentials, they are the stored ones of an account that the user may use and that the typed
    -- name stands for, put into the packet received; the packet is to be retried as typed just if
    -- the stored password is another than the typed one; the audit log gets one row for user and
    -- account, and the state is broadcast once.
    pub splice_login_packet-MayUse :
        (r : Splice s) (out : Bytes)
        → (splice_login_packet s h user body).0 ≡ some r
        → r.spliced ≡ some out
        → (lp : LoginPacket) × (a : EqAccount) × (parse_login_packet s.des body ≡ some lp)
          × MayUse h.db user a
          × StandsFor s.vault s.low h.db a (trim_space (s.runes lp.username))
          × Login h.db user lp out r a
          × Logged h user lp a (splice_login_packet s h user body).1
    unfolding allow_login
    splice_login_packet-MayUse r out e o = elim (Option-cases (parse_login_packet s.des body)) [
      | inl none_read ↦ absurd (unread r out none_read e o)
      | inr (lp, read) ↦ elim (Bool-cases (allow_login s h user).0) [
        | inr denied ↦ absurd (limited lp r out read denied e o)
        | inl allowed ↦
            let (cands, found, sound, _) =
              resolve_login_candidates_lem s.vault s.low h.db user (s.runes lp.username) keyed in
            let at = reached lp cands read allowed (ap (λ x. x.0) found) in
            let h2 = (allow_login s h user).1 in
            let (c, a, i, q, login, logged) =
              splice_candidates-Login h2 user lp cands r out (sym (ap (λ x. x.0) at) ∙ e) o in
            let (may, hit) =
              candidate_account (s.runes lp.username) c a (sound c i) login.stored q in
            (
              lp,
              a,
              read,
              may,
              hit,
              login,
              subst (Logged h user lp a) (ap (λ x. x.1) (sym at)) logged,
            )
      ]
    ]
