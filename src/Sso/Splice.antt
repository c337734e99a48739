-- ===== src/Sso/Splice.antt =====
-- internal/sso/hub.go and hub_relay.go: limiterFor, spliceLoginPacket, handleLoginRelayUp and
-- handleLoginSplice. The messages arrive decoded: JSON and base64 are left out, and so is logging.
pub mod Authority
pub mod Writes
use alfred_identity_backend.Common.{
  ℕ, suc, Bool, true, false, not, ◌||◌, List, [], ◌∷◌, Option, none, some, ltb, ◌==◌, if◌then◌else◌,
  length, Text, codes, text_eq,
}
use alfred_identity_backend.Common.Assoc.{lookup, insert}
use alfred_identity_backend.Common.Bytes.{Bytes}
use alfred_identity_backend.Common.Strings.{Lowering}
use alfred_identity_backend.Crypto.Aead.{Vault}
use alfred_identity_backend.Crypto.Des.{DesCbc}
use alfred_identity_backend.Presence.{Tracker, clear_user_except}
use alfred_identity_backend.Eqlogin.LoginPacket.{
  LoginPacket, parse_login_packet, rewrite_credentials,
}
use alfred_identity_backend.Store.Db.{Db, Result, ok, err}
use alfred_identity_backend.Store.Audit.{AuditRow, audit_account}
use alfred_identity_backend.Store.Candidates.{LoginCandidate, resolve_login_candidates}
use alfred_identity_backend.Store.Credentials.{decrypt_credentials}
use alfred_identity_backend.Sso.Pick.{Picked, pick_login_candidate}
use alfred_identity_backend.Sso.Relay.{UdpRelay, set_typed_fallback, strip_body, wrap_spliced}

-- `golang.org/x/time/rate`: a limiter, and `Allow` at a time.
pub record Limiting : Type 1 where
  pub Limiter : Type 0
  pub new_limiter : ℕ → Limiter
  pub allow : Limiter → ℕ → Bool × Limiter

-- What the hub is made with: the clock by the number of its reading, and the nonce by that number
-- too; `runes` reads a Go string as code points, and `utf8` writes these as bytes.
pub record Setup : Type 1 where
  pub limiting : Limiting
  pub vault : Vault
  pub low : Lowering
  pub des : DesCbc
  pub runes : Bytes → Text
  pub utf8 : Text → Bytes
  pub clock : ℕ → ℕ
  pub nonce : ℕ → Bytes

module _ (s : Setup) where
  -- The part of `Hub` that a login uses. `broadcasts` counts the calls of `broadcastFullState`.
  pub record Hub : Type 0 where
    pub db : Db
    pub presence : Option Tracker
    pub per_token : List (ℕ × s.limiting.Limiter)
    pub rate_per_min : ℕ
    pub audit_log : List AuditRow
    pub broadcasts : ℕ
    pub time : ℕ

  -- What `spliceLoginPacket` returns when its error is nil.
  pub record Splice : Type 0 where
    pub spliced : Option Bytes
    pub drop_reason : Text
    pub retry_typed : Bool

  unfoldable pub limiter_for : Hub → ℕ → s.limiting.Limiter
  limiter_for h user = elim (lookup user h.per_token) [
    | some lim ↦ lim
    | none ↦ s.limiting.new_limiter (if h.rate_per_min == 0 then 30 else h.rate_per_min)
  ]

  -- `h.limiterFor(user.ID).Allow()`
  unfoldable pub allow_login : Hub → ℕ → Bool × Hub
  unfolding limiter_for
  allow_login h user =
      let (allowed, lim) = s.limiting.allow (limiter_for h user) (s.clock h.time) in
      (allowed, record h { per_token = insert user lim h.per_token; time = suc h.time })

  abbrev pub as_typed : Option Splice
  as_typed = some (record { spliced = none; drop_reason = []; retry_typed = false })

  abbrev pub dropped : Text → Option Splice
  dropped reason = some (record { spliced = none; drop_reason = reason; retry_typed = false })

  -- The steps after the packet is rewritten.
  unfoldable pub logged_in : Hub → ℕ → ℕ → Bytes → Hub
  logged_in h user chosen typed = record h {
    presence = elim h.presence [
      | none ↦ none
      | some t ↦ some (clear_user_except t user chosen (s.clock h.time)).0
    ];
    audit_log =
        audit_account s.vault (s.nonce h.time) user chosen (codes "login_relay") typed h.audit_log;
    broadcasts = suc h.broadcasts;
    time = suc h.time;
  }

  -- From the packet's account on: its credentials are read and put into the packet.
  unfoldable pub splice_account : Hub → ℕ → LoginPacket → ℕ → Option Splice × Hub
  unfolding logged_in
  splice_account h user lp chosen = elim (decrypt_credentials s.vault chosen false h.db).0 [
    | err e ↦ (none, h)
    | ok credentials ↦ elim (rewrite_credentials s.des lp credentials.0 credentials.1) [
      | none ↦ (none, h)
      | some out ↦ (
        some (record {
          spliced = some out;
          drop_reason = [];
          retry_typed = not (text_eq lp.password credentials.1);
        }),
        logged_in h user chosen lp.username,
      )
    ]
  ]

  -- From the candidates on.
  unfoldable pub splice_candidates :
      Hub → ℕ → LoginPacket → List LoginCandidate → Option Splice × Hub
  unfolding splice_account
  splice_candidates h user lp cands =
      let picked = pick_login_candidate s.clock cands h.presence h.time in
      let h2 = record h { presence = picked.pres; time = picked.time } in
      if length cands == 0
      then (as_typed, h)
      else if picked.id == 0
      then (dropped (codes "all_busy"), h2)
      else splice_account h2 user lp picked.id

  -- `none` stands for an error that is not nil.
  unfoldable pub splice_login_packet : Hub → ℕ → Bytes → Option Splice × Hub
  unfolding allow_login splice_candidates
  splice_login_packet h user body = elim (parse_login_packet s.des body) [
    | none ↦ (as_typed, h)
    | some lp ↦
        let (allowed, h2) = allow_login h user in
        if not allowed
        then (dropped (codes "rate_limited"), h2)
        else elim (resolve_login_candidates s.vault s.low user (s.runes lp.username) h2.db).0 [
          | err e ↦ (as_typed, h2)
          | ok cands ↦ splice_candidates h2 user lp cands
        ]
  ]

  -- A message of a client: not JSON, or with a payload that is not base64, or decoded.
  pub data Message : Type 0 where
    bad_json bad_base64 : Message
    decoded : Bytes → Bool → Message

  abbrev max_relay_payload : ℕ
  max_relay_payload = 8192

  abbrev pub is_bad_payload : Bytes → Bool
  is_bad_payload pkt = (length pkt == 0) || ltb max_relay_payload (length pkt)

  -- What `handleLoginRelayUp` sends: an error to the client, a datagram upstream, or nothing.
  pub data RelayUp : Type 0 where
    relay_error : Text → RelayUp
    upstream : Bytes → RelayUp
    nothing : RelayUp

  -- The last steps of `handleLoginRelayUp`, for a packet to splice.
  unfoldable pub relay_spliced : UdpRelay → Bytes → Option Splice → UdpRelay × RelayUp
  unfolding set_typed_fallback wrap_spliced
  relay_spliced rel pkt none = (rel, relay_error (codes "internal"))
  relay_spliced rel pkt (some r) =
      if not (text_eq r.drop_reason []) then (rel, nothing) else elim r.spliced [
        | none ↦ (rel, upstream pkt)
        | some out ↦ (
          if r.retry_typed then set_typed_fallback rel pkt else rel,
          upstream (wrap_spliced rel out),
        )
      ]

  -- `rel` is what `relayFor` returns, `none` if the socket cannot be had.
  unfoldable pub handle_login_relay_up :
      Hub → ℕ → Option UdpRelay → Message → Hub × Option UdpRelay × RelayUp
  unfolding splice_login_packet relay_spliced strip_body
  handle_login_relay_up h user rel bad_json = (h, rel, relay_error (codes "bad_request"))
  handle_login_relay_up h user rel bad_base64 = (h, rel, relay_error (codes "bad_payload"))
  handle_login_relay_up h user none (decoded pkt splice) =
      if is_bad_payload pkt
      then (h, none, relay_error (codes "bad_payload"))
      else (h, none, relay_error (codes "upstream_unavailable"))
  handle_login_relay_up h user (some rel) (decoded pkt splice) =
      let (result, h2) = splice_login_packet h user (strip_body rel pkt) in
      let (rel2, sent) = relay_spliced rel pkt result in
      if is_bad_payload pkt
      then (h, some rel, relay_error (codes "bad_payload"))
      else if splice
      then (h2, some rel2, sent)
      else (h, some rel, upstream pkt)

  -- The reply of `handleLoginSplice`; an empty text or payload is left out of the message.
  pub record SpliceReply : Type 0 where
    pub payload : Bytes
    pub error : Text

  unfoldable pub splice_reply : Bytes → Option Splice → SpliceReply
  splice_reply pkt none = record { payload = []; error = codes "internal" }
  splice_reply pkt (some r) =
      if not (text_eq r.drop_reason [])
      then record { payload = []; error = r.drop_reason }
      else elim r.spliced [
        | none ↦ record { payload = pkt; error = [] }
        | some out ↦ record { payload = out; error = [] }
      ]

  unfoldable pub handle_login_splice : Hub → ℕ → Message → Hub × SpliceReply
  unfolding splice_login_packet splice_reply
  handle_login_splice h user bad_json = (h, record { payload = []; error = codes "bad_request" })
  handle_login_splice h user bad_base64 = (h, record { payload = []; error = codes "bad_payload" })
  handle_login_splice h user (decoded pkt splice) =
      let (result, h2) = splice_login_packet h user pkt in
      if is_bad_payload pkt
      then (h, record { payload = []; error = codes "bad_payload" })
      else (h2, splice_reply pkt result)
