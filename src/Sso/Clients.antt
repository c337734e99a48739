-- ===== src/Sso/Clients.antt =====
-- internal/sso/hub.go: the clients of the hub (register, unregister, disconnectUser, Connections,
-- broadcastFullState, notifyStateListeners), and the form of the operations of handleAdmin and
-- handleShare. A handler is one step; the content of the state that is sent is left out.
use alfred_identity_backend.Common.{
  ℕ, suc, Bool, not, List, ◌∷◌, map, Option, none, some, ◌==◌, if◌then◌else◌, Text, codes, any,
  keep,
}
use alfred_identity_backend.Common.Bytes.{Bytes}
use alfred_identity_backend.Store.Db.{Db, M, User, Error, Result, ok, err}
use alfred_identity_backend.Store.Tokens.{user_by_id}
use alfred_identity_backend.Store.Audit.{audit_account}
use alfred_identity_backend.Sso.Admin.{user_is_admin}
use alfred_identity_backend.Sso.Relay.{UdpRelay}
use alfred_identity_backend.Sso.Splice.{Setup, Hub}

-- `wsClient`; a closed relay is `none`. Its number stands for the UUID.
pub record WsClient : Type 0 where
  pub id : ℕ
  pub user : User
  pub client_version : Text
  pub relay : Option UdpRelay

pub record ConnectionInfo : Type 0 where
  pub session_id : ℕ
  pub user_id : ℕ
  pub discord_id : Text
  pub display_name : Text
  pub client_version : Text
  pub is_admin : Bool

-- What a connection keeps between its messages: the variables of `ServeHTTP`. Its client is in the
-- list of the server, unless it has been disconnected.
pub record Conn : Type 0 where
  pub authed : Bool
  pub user : User
  pub client : Option ℕ
  pub closed : Bool

-- What an operation of a handler comes to: a value, or the code that `fail` sends.
pub data Outcome (A : Type 0) : Type 0 where
  done : A → Outcome A
  failed : Text → Outcome A

module _ (s : Setup) where
  -- The hub with its clients. `notices` counts the calls of `notifyStateListeners`.
  pub record Server : Type 0 where
    pub hub : Hub s
    pub clients : List WsClient
    pub next_client : ℕ
    pub notices : ℕ
    pub protocol_version : ℕ
    pub admin_role_id : Text
    pub bootstrap_admin_ids : List Text

  abbrev pub with_db : Db → Server → Server
  with_db db v = record v { hub = record v.hub { db = db } }

  unfoldable pub is_admin : Server → User → Bool
  unfolding user_is_admin
  is_admin v u = user_is_admin v.bootstrap_admin_ids v.admin_role_id u

  unfoldable pub notify_state_listeners : Server → Server
  notify_state_listeners v = record v { notices = suc v.notices }

  -- The new client's number is one that no client has had.
  unfoldable pub register : Server → User → Text → Server × ℕ
  unfolding notify_state_listeners
  register v user version = (
    notify_state_listeners (record v {
      clients =
          record { id = v.next_client; user = user; client_version = version; relay = none }
          ∷ v.clients;
      next_client = suc v.next_client;
    }),
    v.next_client,
  )

  unfoldable pub unregister : Server → ℕ → Server
  unfolding notify_state_listeners
  unregister v id =
      if any (λ (c : WsClient). c.id == id) v.clients
      then notify_state_listeners
          (record v { clients = keep (λ (c : WsClient). not (c.id == id)) v.clients })
      else v

  unfoldable pub disconnect_user : Server → ℕ → Server
  unfolding notify_state_listeners
  disconnect_user v user_id =
      if any (λ (c : WsClient). c.user.id == user_id) v.clients
      then notify_state_listeners
          (record v { clients = keep (λ (c : WsClient). not (c.user.id == user_id)) v.clients })
      else v

  unfoldable pub connections : Server → List ConnectionInfo
  unfolding is_admin
  connections v =
      map
        (λ (c : WsClient). record {
          session_id = c.id;
          user_id = c.user.id;
          discord_id = c.user.discord_id;
          display_name = c.user.display_name;
          client_version = c.client_version;
          is_admin = is_admin v c.user;
        })
        v.clients

  -- A user as the database has it, or the one at hand if it is not found.
  unfoldable pub current_user : Db → User → User
  current_user db u = elim (user_by_id u.id db).0 [ ok fresh ↦ fresh | err e ↦ u ]

  -- What `broadcastFullState` does: every client's user is read again, then the state goes out, and
  -- the listeners are called.
  unfoldable pub refresh_clients : Server → Server
  unfolding current_user notify_state_listeners
  refresh_clients v = notify_state_listeners (record v {
    clients = map (λ (c : WsClient). record c { user = current_user v.hub.db c.user }) v.clients;
  })

  unfoldable pub broadcast_full_state : Server → Server
  unfolding refresh_clients
  broadcast_full_state v =
      refresh_clients (record v { hub = record v.hub { broadcasts = suc v.hub.broadcasts } })

  -- Another value for the client with a number.
  abbrev pub update_client : ℕ → (WsClient → WsClient) → Server → Server
  update_client id f v = record v {
    clients = map (λ (c : WsClient). if c.id == id then f c else c) v.clients;
  }

  abbrev pub set_client_user : Option ℕ → User → Server → Server
  set_client_user none u v = v
  set_client_user (some id) u v = update_client id (λ (c : WsClient). record c { user = u }) v

  -- `if u, err := h.Store.UserByID(ctx, user.ID); err == nil { *user = u; client.user = u }`
  unfoldable pub refresh_user : Server → Conn → Server × Conn
  unfolding current_user
  refresh_user v c =
      let u = current_user v.hub.db c.user in (set_client_user c.client u v, record c { user = u })

  -- An operation of a handler: what it has written stays when it fails.
  abbrev pub Op : Type 0 → Type 0
  Op A = Server → Outcome A × Server

  abbrev pub finish : {A : Type 0} → A → Op A
  finish a v = (done a, v)

  abbrev pub fail : {A : Type 0} → Text → Op A
  fail code v = (failed code, v)

  -- `fail(code)` and return, unless the test holds.
  abbrev pub require : Bool → Text → Op (Unit {0})
  require test code v = (if test then done tt else failed code, v)

  -- A validator's error is the code.
  abbrev pub accept : Option Text → Op (Unit {0})
  accept none v = (done tt, v)
  accept (some code) v = (failed code, v)

  abbrev pub decoded : {A : Type 0} → Option A → Op A
  decoded none v = (failed (codes "bad_request"), v)
  decoded (some a) v = (done a, v)

  -- A call of the store, with the code for each of its errors.
  abbrev pub named : {A : Type 0} → (Error → Text) → Result A → Outcome A
  named code (ok a) = done a
  named code (err e) = failed (code e)

  unfoldable pub run_store : {A : Type 0} → (Error → Text) → M A → Op A
  run_store code m v = (named code (m v.hub.db).0, with_db (m v.hub.db).1 v)

  -- The next random nonce.
  abbrev pub fresh_nonce : Op Bytes
  fresh_nonce v =
      (done (s.nonce v.hub.time), record v { hub = record v.hub { time = suc v.hub.time } })

  unfoldable pub audit : ℕ → ℕ → Text → Text → Op (Unit {0})
  audit user account action detail v = (
    done tt,
    record v {
      hub = record v.hub {
        audit_log =
            audit_account s.vault (s.nonce v.hub.time) user account action (s.utf8 detail)
              v.hub.audit_log;
        time = suc v.hub.time;
      };
    },
  )

  abbrev pub modify : (Server → Server) → Op (Unit {0})
  modify f v = (done tt, f v)

-- Steps in a row: a failed one is the last.
module _ {s : Setup} where
  abbrev pub next_op : {A B : Type 0} → Outcome A → Server s → (A → Op s B) → Outcome B × Server s
  next_op (done a) v f = f a v
  next_op (failed code) v f = (failed code, v)

  infixl 5 ◌>>=◌ ◌>>◌
  abbrev pub ◌>>=◌ : {A B : Type 0} → Op s A → (A → Op s B) → Op s B
  ◌>>=◌ m f v = next_op (m v).0 (m v).1 f

  abbrev pub ◌>>◌ : {A B : Type 0} → Op s A → Op s B → Op s B
  m >> k = m >>= λ _. k
