-- ===== src/Sso/Session.antt =====
-- internal/sso/hub.go: the loop of ServeHTTP, as a function from one message to the next state of the
-- hub and of the connection, and what is answered. The keep-alive and the logging are left out.
pub mod Stranger
pub mod Online
pub mod Orderly
pub mod Branches
pub mod Kept
pub mod Revoked
use alfred_identity_backend.Common.{
  ℕ, suc, Bool, true, false, not, ◌&&◌, ◌||◌, List, [], ◌∷◌, ◌++◌, Option, none, some, ◌==◌,
  if◌then◌else◌, Text, codes, any, find,
}
use alfred_identity_backend.Common.Strings.{trim_space}
use alfred_identity_backend.Presence.{Tracker, clear, clear_user_except, touch}
use alfred_identity_backend.Store.Db.{User, Result, ok, err}
use alfred_identity_backend.Store.Access.{allowed_account_ids}
use alfred_identity_backend.Store.Candidates.{LoginCandidate, resolve_login_candidates}
use alfred_identity_backend.Store.Names.{account_id_by_character}
use alfred_identity_backend.Store.Tokens.{user_by_token}
use alfred_identity_backend.Sso.Pick.{Picked, pick_login_candidate}
use alfred_identity_backend.Sso.Relay.{UdpRelay}
use alfred_identity_backend.Sso.Splice.{
  Setup, Hub, allow_login, Message, bad_json, bad_base64, decoded, is_bad_payload, RelayUp,
  SpliceReply, handle_login_relay_up, handle_login_splice,
}
use alfred_identity_backend.Sso.Clients.{
  WsClient, Outcome, Server, Conn, is_admin, register, unregister, notify_state_listeners,
  refresh_clients, refresh_user, update_client, audit,
}
use alfred_identity_backend.Sso.Manage.{AdminMessage, is_ready, handle_admin}
use alfred_identity_backend.Sso.Sharing.{ShareMessage, handle_share}

pub record AuthMessage : Type 0 where
  pub token : Text
  pub protocol_version : ℕ
  pub client_version : Text

pub record Heartbeat : Type 0 where
  pub character_name : Text
  pub offline : Bool

module _ (s : Setup) where
  -- A message of a client; `none` is one that does not fit its struct. With `login_relay_up` comes the
  -- relay that dialling would give a client without one.
  pub data Frame : Type 0 where
    invalid_json get_state pong ping unknown_type : Frame
    auth : Option AuthMessage → Frame
    login_auth : Option Text → Frame
    login_relay_up : Option UdpRelay → Message s → Frame
    login_splice : Message s → Frame
    heartbeat : Option Heartbeat → Frame
    share : ShareMessage → Frame
    admin : AdminMessage → Frame

  pub data Reply : Type 0 where
    error : Text → Reply
    -- The flag is `is_admin`.
    full_state : Bool → Reply
    login_denied : Text → Reply
    login_granted : ℕ → Reply
    share_result admin_result : Outcome ℕ → Reply
    relayed : RelayUp s → Reply
    spliced : SpliceReply s → Reply
    pong_sent : Reply

  abbrev pub Next : Type 0
  Next = Server s × Conn × List Reply

  abbrev pub unauthorized : Server s → Conn → Next
  unauthorized v c = (v, c, error (codes "unauthorized") ∷ [])

  -- The connection is closed after the answer; its client is unregistered.
  abbrev pub drop_client : Server s → Option ℕ → Server s
  unfolding unregister
  drop_client v none = v
  drop_client v (some id) = unregister s v id

  unfoldable pub close : Server s → Conn → List Reply → Next
  unfolding unregister
  close v c out = (drop_client v c.client, record c { closed = true }, out)

  -- The token has named a user.
  unfoldable pub signed_in : Server s → Conn → User → AuthMessage → Next
  unfolding unregister register is_admin audit
  signed_in v c u msg =
      let (v2, id) = register s (drop_client v c.client) u (trim_space msg.client_version) in
      (
        (audit s u.id 0 (codes "ws_auth") msg.client_version v2).1,
        record { authed = true; user = u; client = some id; closed = false },
        full_state (is_admin s v2 u) ∷ [],
      )

  unfoldable pub sign_in : Server s → Conn → Option AuthMessage → Next
  unfolding signed_in close
  sign_in v c none = (v, c, error (codes "bad auth") ∷ [])
  sign_in v c (some msg) =
      if not (msg.protocol_version == v.protocol_version)
      then close v c (error (codes "unsupported protocol_version") ∷ [])
      else elim (user_by_token s.vault msg.token v.hub.db).0 [
        | err e ↦ close v c (error (codes "unauthorized") ∷ [])
        | ok (u, t) ↦ signed_in v c u msg
      ]

  unfoldable pub send_state : Server s → Conn → Next
  unfolding refresh_user is_admin
  send_state v c =
      let (v2, c2) = refresh_user s v c in (v2, c2, full_state (is_admin s v2 c2.user) ∷ [])

  -- The candidates of the typed name are known.
  unfoldable pub grant_login : Server s → Conn → Result (List LoginCandidate) → Next
  grant_login v c (err e) = (v, c, login_denied (codes "not_found") ∷ [])
  grant_login v c (ok []) = (v, c, login_denied (codes "not_found") ∷ [])
  grant_login v c (ok (cand ∷ cands)) =
      let picked = pick_login_candidate s.clock (cand ∷ cands) v.hub.presence v.hub.time in
      let v2 = record v { hub = record v.hub { presence = picked.pres; time = picked.time } } in
      if picked.id == 0
      then (v2, c, login_denied (codes "all_busy") ∷ [])
      else (v2, c, login_granted picked.id ∷ [])

  unfoldable pub authorize_login : Server s → Conn → Option Text → Next
  unfolding allow_login grant_login
  authorize_login v c none = (v, c, [])
  authorize_login v c (some typed) =
      let (allowed, h) = allow_login s v.hub c.user.id in
      let v2 = record v { hub = h } in
      if not allowed
      then (v2, c, login_denied (codes "rate_limited") ∷ [])
      else grant_login v2 c (resolve_login_candidates s.vault s.low c.user.id typed h.db).0

  -- The online or offline message of an account that the user may use.
  abbrev pub seen_on : Tracker → ℕ → ℕ → Heartbeat → ℕ → Tracker
  seen_on t account user_id msg time =
      if msg.offline
      then clear t account
      else touch (clear_user_except t user_id account (s.clock time)).0 account msg.character_name
          user_id (s.clock (suc time))

  unfoldable pub seen : Server s → ℕ → ℕ → Heartbeat → Server s
  unfolding notify_state_listeners
  seen v account user_id msg = notify_state_listeners s (record v {
    hub = record v.hub {
      presence = elim v.hub.presence [
        | none ↦ none
        | some t ↦ some (seen_on t account user_id msg v.hub.time)
      ];
      time = if msg.offline then v.hub.time else suc (suc v.hub.time);
    };
  })

  -- The account of the character is known.
  unfoldable pub beat_on : Server s → Conn → Heartbeat → ℕ → Server s
  unfolding seen
  beat_on v c msg account = elim (allowed_account_ids c.user.id v.hub.db).0 [
    | err e ↦ v
    | ok allowed ↦ if any (λ id. id == account) allowed then seen v account c.user.id msg else v
  ]

  unfoldable pub beat : Server s → Conn → Option Heartbeat → Server s
  unfolding beat_on
  beat v c none = v
  beat v c (some msg) = elim (account_id_by_character s.low msg.character_name v.hub.db).0 [
    | err e ↦ v
    | ok account ↦ beat_on v c msg account
  ]

  -- A login that was broadcast has refreshed the clients.
  unfoldable pub catch_up : Server s → Hub s → Server s
  unfolding refresh_clients
  catch_up v h =
      if v.hub.broadcasts == h.broadcasts
      then record v { hub = h }
      else refresh_clients s (record v { hub = h })

  -- `relayFor`
  abbrev pub relay_of : Server s → Option ℕ → Option UdpRelay → Option UdpRelay
  relay_of v none dialled = dialled
  relay_of v (some id) dialled = elim (find (λ (k : WsClient). k.id == id) v.clients) [
    | none ↦ dialled
    | some k ↦ elim k.relay [ none ↦ dialled | some rel ↦ some rel ]
  ]

  abbrev pub keep_relay : Option ℕ → Option UdpRelay → Server s → Server s
  keep_relay none rel v = v
  keep_relay (some id) rel v = update_client s id (λ (k : WsClient). record k { relay = rel }) v

  -- The relay that the client has afterwards: bad messages are answered before `relayFor`.
  abbrev pub relay_after : Option ℕ → Option UdpRelay → Message s → Server s → Server s
  relay_after id rel bad_json v2 = v2
  relay_after id rel bad_base64 v2 = v2
  relay_after id rel (decoded pkt splice) v2 =
      if is_bad_payload s pkt then v2 else keep_relay id rel v2

  unfoldable pub relay_up : Server s → Conn → Option UdpRelay → Message s → Next
  unfolding handle_login_relay_up catch_up
  relay_up v c dialled msg =
      let (h, rel, sent) =
        handle_login_relay_up s v.hub c.user.id (relay_of v c.client dialled) msg in
      (relay_after c.client rel msg (catch_up v h), c, relayed sent ∷ [])

  unfoldable pub splice_login : Server s → Conn → Message s → Next
  unfolding handle_login_splice catch_up
  splice_login v c msg =
      let (h, reply) = handle_login_splice s v.hub c.user.id msg in
      (catch_up v h, c, spliced reply ∷ [])

  -- One round of the loop, on a connection that is not closed.
  unfoldable pub receive : Server s → Conn → Frame → Next
  unfolding sign_in send_state authorize_login relay_up splice_login beat handle_share handle_admin
  receive v c invalid_json = (v, c, error (codes "invalid json") ∷ [])
  receive v c (auth msg) = sign_in v c msg
  receive v c get_state = if is_ready s c then send_state v c else unauthorized v c
  receive v c (login_auth msg) = if c.authed then authorize_login v c msg else unauthorized v c
  receive v c (login_relay_up dialled msg) =
      if is_ready s c then relay_up v c dialled msg else unauthorized v c
  receive v c (login_splice msg) = if is_ready s c then splice_login v c msg else unauthorized v c
  receive v c (heartbeat msg) = (if c.authed then beat v c msg else v, c, [])
  receive v c (share msg) =
      let (v2, c2, result) = handle_share s v c msg in (v2, c2, share_result result ∷ [])
  receive v c (admin msg) =
      let (v2, c2, result) = handle_admin s v c msg in (v2, c2, admin_result result ∷ [])
  receive v c pong = (v, c, [])
  receive v c ping = (v, c, if c.authed then pong_sent ∷ [] else [])
  receive v c unknown_type = (v, c, error (codes "unknown type") ∷ [])

  -- The rounds of the loop, until the connection is closed, and all that is answered.
  unfoldable pub serve : Server s → Conn → List Frame → Next
  unfolding receive
  serve v c [] = (v, c, [])
  serve v c (f ∷ fs) = elim c.closed [
    | true ↦ (v, c, [])
    | false ↦
        let (v2, c2, out) = receive v c f in
        let (v3, c3, rest) = serve v2 c2 fs in (v3, c3, out ++ rest)
  ]
