-- ===== src/Lib.antt =====
-- Alfred Identity backend: a verification library of the core of the Go program.
--
-- The program keeps the game accounts of a guild. Users are known by Discord and by API tokens;
-- grants say who may use which account. A client sends its login datagram through the hub, which
-- finds the account that the typed name stands for, puts the stored credentials into the datagram
-- and relays it to the login server. A tracker remembers who is online on which account.
--
-- The parts, and the files that model them:
--   * Presence: internal/presence/presence.go. `Tracker` and its operations (`touch`, `clear`,
--     `clear_user_except`, `is_busy`, `online`, `snapshot`, `count`). The clock is an argument of
--     each call, and a call that reads it twice has two; the mutex makes each call one step.
--     Presence/View sees the tracker as a function from accounts to live entries,
--     Presence/Refinement compares it with a map that forgets nothing, and Presence/SingleBox is
--     about one account for each user.
--   * Crypto: internal/crypto/aead.go and deswire.go. Crypto/Aead has `seal` and `open_blob`,
--     Crypto/Des the padding and packing of credentials.
--   * Eqlogin: internal/eqlogin. Eqlogin/Soe has the opcodes and the walk through combined packets,
--     Eqlogin/Crc the checksum, Eqlogin/LoginPacket the login datagram (`parse_login_packet`,
--     `rewrite_credentials`). Bytes are numbers, with shifts and wrap-around written out.
--   * Store: internal/store/store.go on the tables of internal/db/migrations. Store/Db has the
--     tables as lists of rows and the operations' form: a function from the database to a result
--     and a database, where a failed operation keeps what it wrote. Store/Tokens has the API
--     tokens, Store/Access the query of AllowedAccountIDs with the access rules in
--     Store/Access/Spec, Store/Candidates the names that an account is found by, Store/Grants the
--     replacement of grants, Store/Credentials and Store/Audit the rest that a login needs,
--     Store/Accounts the accounts themselves, Store/Names their aliases, tags and characters,
--     Store/Shares the private shares, Store/Groups the members and links of groups,
--     Store/DefaultGroup the rows of groups with the default group and the web roles, Store/Users
--     the users as Discord gives them, and Store/Commands (discord_commands.go) the slash commands that groups grant.
--   * Sso: internal/sso/hub.go and hub_relay.go. Sso/Pick chooses among the candidates, Sso/Relay
--     is the state of the UDP relay, Sso/Splice the path of a login packet through the hub
--     (`splice_login_packet` calls the store, the tracker and the packet code as the source does),
--     Sso/Validate the tests of names and passwords, and Sso/Admin who is an admin for the hub.
--     Sso/Clients has the hub with its clients, and the form of the operations: a function from the
--     server to an outcome and a server, where what was written stays. Sso/Manage is handleAdmin,
--     Sso/Sharing handleShare, and Sso/Session the loop of ServeHTTP: `receive` takes one decoded
--     message, `serve` a list of them.
--   * Web: internal/web. Web/Access is the level of access to the web pages (access.go), on top of
--     the web roles of groups in the store. Store/Restricted (restricted_manage.go) has the rule
--     that the web server and the hub share for changes of private shares.
--     Web/Session has the signed session cookie and the signed OAuth state (session.go).
--     Web/Csv is csv.go: the rows of accounts and the export, with the import in Web/Csv/Import
--     (`import_sso_accounts_csv` runs the store's operations row by row and keeps its errors).
--   * Config: internal/config/config.go, the settings from the environment. Process:
--     internal/appprocess/role.go, the parts that a process runs.
--   * Common: shared tests, lists, association lists, texts and bytes, and what the code uses of
--     Go's strings, strconv, fmt and encoding/csv (Common/CsvFormat). Tests: runs and witnesses.
--
-- Parameters, for code outside the repository: `Gcm` (AES-GCM; what was sealed opens under the same
-- nonce and column), `DesCbc` (DES-CBC on whole blocks; it keeps the length, and decryption undoes
-- encryption), `Vault` (hash and blind index), `Lowering` (letter case), `Limiting` (the rate
-- limiter), `Signing` (base64, JSON and HMAC of the cookies; decoding undoes encoding), the clock,
-- the random nonce, the environment, and the conversion between bytes and code points.
--
-- Bounds and fuel: `walk_app_opcodes` runs on fuel that is the packet's length and one; each call
-- takes a byte at least, and `walk` answers `none` when its fuel ends (Eqlogin/Soe/Ends). `decimal`
-- runs on fuel that is the number and one, and what it writes reads back as the number
-- (Common/Split). All other loops are structural.
--
-- Not modelled: a failing database connection, times in the tables, JSON, base64, sockets, logging,
-- the content of the state that the hub sends, with the expiry of the tracker that reading it
-- brings, the conversion of texts to bytes before sealing, the keep-alive, the handlers of the web
-- server, the Discord bot, metrics, and the start of the program.
pub mod Common
pub mod Config
pub mod Crypto
pub mod Eqlogin
pub mod Presence
pub mod Process
pub mod Sso
pub mod Store
pub mod Tests
pub mod Web
