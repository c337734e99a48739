-- ===== src/Tests/Logins.antt =====
-- Tests of logins through the hub.
use alfred_identity_backend.Common.{
  ℕ, ◌+◌, ◌≤◌, ◌≡◌, ◌≢◌, ◌⊎◌, refl, true, false, List, [], ◌∷◌, ◌++◌, some, length, keep, In, codes,
  arith,
}
use alfred_identity_backend.Common.Bytes.{Bytes}
use alfred_identity_backend.Common.Strings.{trim_space}
use alfred_identity_backend.Presence.{is_busy, expire_locked}
use alfred_identity_backend.Crypto.Aead.{open_blob}
use alfred_identity_backend.Crypto.Des.{decrypt_des, pack_credentials, encrypt_des, zero_pad}
use alfred_identity_backend.Common.Sort.{sort_by_id}
use alfred_identity_backend.Eqlogin.LoginPacket.{
  LoginPacket, parse_login_packet, parse_encrypted, rewrite_credentials,
  splice_encrypted_credentials,
}
use alfred_identity_backend.Store.Access.{
  allowed_account_ids, has_no_grants, granted_by_role, user_has_role, granted_by_user,
  granted_by_group,
}
use alfred_identity_backend.Store.Credentials.{decrypt_credentials}
use alfred_identity_backend.Eqlogin.LoginPacket.Layout.{wire}
use alfred_identity_backend.Store.Db.{EqAccount}
use alfred_identity_backend.Store.Access.Spec.{MayUse}
use alfred_identity_backend.Store.Candidates.Rows.{StandsFor}
use alfred_identity_backend.Store.Candidates.{
  LoginCandidate, direct, candidate_of, resolve_login_candidates,
}
use alfred_identity_backend.Sso.Pick.{is_pooled, pick_login_candidate, first_free}
use alfred_identity_backend.Sso.Pick.Choice.{
  NoDirect, NotOnline, pick_login_candidate-chosen, pick_login_candidate-none,
}
use alfred_identity_backend.Sso.Pick.FirstFree.{Busy}
use alfred_identity_backend.Sso.Relay.{new_relay, Sent, retry, down, Event, keeps, receives, run}
use alfred_identity_backend.Sso.Relay.Retry.{armed, retries, kept, run-retries}
use alfred_identity_backend.Sso.Relay.History.{received, Answers, run-sent}
use alfred_identity_backend.Eqlogin.Soe.{
  looks_like_login_success, looks_like_login_failure, parse_session_response, transport_opcode,
}
use alfred_identity_backend.Sso.Splice.{Setup, Hub, Splice, splice_login_packet}
use alfred_identity_backend.Sso.Splice.Authority.{Login, Logged, splice_login_packet-MayUse}
use alfred_identity_backend.Sso.Splice.Writes.{Quiet, splice_login_packet-Quiet}
use alfred_identity_backend.Tests.Data.{plain_vault, plain_des, ascii, small, small_keyed}
use alfred_identity_backend.Tests.Packets.{datagram, login_ack, login_header}
use alfred_identity_backend.Tests.Presences.{pair, pair-IsValid}

abbrev tagged : ℕ → LoginCandidate
tagged n = record { id = n; by_user = false; by_tag = true; by_alias = false; by_character = false }

abbrev ticks : ℕ → ℕ
ticks n = 100 + n

-- Accounts 3 and 4 are online, 5 is not.
abbrev pool : List LoginCandidate
pool = tagged 3 ∷ tagged 4 ∷ tagged 5 ∷ []

fifth : (pick_login_candidate ticks pool (some pair) 0).id ≡ 5
unfolding pick_login_candidate direct first_free is_busy expire_locked
fifth = refl

pick_login_candidate-chosen_example :
    (c : LoginCandidate) × In c pool
    × (c.id ≡ (pick_login_candidate ticks pool (some pair) 0).id)
    × ((direct c ≡ true)
        ⊎ (NoDirect pool
            × (c.by_tag ≡ true)
            × ((keep is_pooled pool ≡ c ∷ [])
                ⊎ NotOnline ticks
                    (λ n. omega arith)
                    (some pair)
                    0
                    (pick_login_candidate ticks pool (some pair) 0)
                    c)))
pick_login_candidate-chosen_example =
    pick_login_candidate-chosen ticks (λ n. omega arith) (some pair) pool 0 pair-IsValid
      (λ e. omega (arith, fifth, e))

abbrev busy_pool : List LoginCandidate
busy_pool = tagged 3 ∷ tagged 4 ∷ []

nobody : (pick_login_candidate ticks busy_pool (some pair) 0).id ≡ 0
unfolding pick_login_candidate direct first_free is_busy expire_locked
nobody = refl

pick_login_candidate-none_example :
    NoDirect busy_pool
    × (length (keep is_pooled busy_pool) ≢ 1)
    × ((c : LoginCandidate)
        → In c busy_pool
        → c.by_tag ≡ true
        → Busy ticks
            (λ n. omega arith)
            (some pair)
            0
            (pick_login_candidate ticks busy_pool (some pair) 0)
            c)
pick_login_candidate-none_example =
    pick_login_candidate-none ticks (λ n. omega arith) (some pair) busy_pool 0 pair-IsValid
      ((λ e. omega (arith, e)), ((λ e. omega (arith, e)), tt)) nobody

abbrev pub setup : Setup
setup = record {
  limiting = record { Limiter = ℕ; new_limiter = λ n. n; allow = λ l now. (true, l) };
  vault = plain_vault;
  low = ascii;
  des = plain_des;
  runes = λ b. b;
  utf8 = λ t. t;
  clock = ticks;
  nonce = λ n. 9 ∷ [];
}

abbrev pub hub : Hub setup
hub = record {
  db = small;
  presence = some pair;
  per_token = [];
  rate_per_min = 0;
  audit_log = [];
  broadcasts = 0;
  time = 0;
}

-- The datagram with the credentials of `box` in the place of those typed.
abbrev forwarded : Bytes
forwarded = wire (record {
  ack = login_ack;
  header = login_header;
  encrypted = codes "bob" ++ 0 ∷ (codes "pw" ++ 0 ∷ 0 ∷ []);
  rest = [];
})

abbrev result : Splice setup
result = record { spliced = some forwarded; drop_reason = []; retry_typed = false }

spliced_run : (splice_login_packet setup hub 7 datagram).0 ≡ some result
unfolding splice_login_packet parse_login_packet parse_encrypted decrypt_des
    resolve_login_candidates allowed_account_ids sort_by_id has_no_grants granted_by_role
    user_has_role granted_by_user granted_by_group trim_space candidate_of pick_login_candidate
    decrypt_credentials open_blob rewrite_credentials splice_encrypted_credentials pack_credentials
    encrypt_des zero_pad direct
spliced_run = refl

splice_login_packet-MayUse_example :
    (lp : LoginPacket) × (a : EqAccount) × (parse_login_packet plain_des datagram ≡ some lp)
    × MayUse small 7 a
    × StandsFor plain_vault ascii small a (trim_space lp.username)
    × Login setup small 7 lp forwarded result a
    × Logged setup hub 7 lp a (splice_login_packet setup hub 7 datagram).1
splice_login_packet-MayUse_example =
    splice_login_packet-MayUse setup hub 7 datagram small_keyed result forwarded spliced_run refl

splice_login_packet-Quiet_example : Quiet setup hub (splice_login_packet setup hub 7 (0 ∷ 1 ∷ []))
splice_login_packet-Quiet_example = splice_login_packet-Quiet setup hub 7 (0 ∷ 1 ∷ [])

-- A failed login, twice, after a packet was kept.
abbrev failed : Bytes
failed = 0 ∷ 5 ∷ []

abbrev events : List Event
events = keeps datagram ∷ receives failed ∷ receives failed ∷ []

one_retry : (run (λ b. b) new_relay events).1 ≡ retry datagram ∷ down failed ∷ []
unfolding run looks_like_login_failure looks_like_login_success parse_session_response
    transport_opcode new_relay
one_retry = refl

run-retries_example :
    (retries (run (λ b. b) new_relay events).1 ≤ armed new_relay + kept events)
    × ((pkt : Bytes)
        → looks_like_login_success pkt ≡ true
        → retries (run (λ b. b) new_relay (receives pkt ∷ events)).1 ≤ kept events)
run-retries_example = run-retries (λ b. b) new_relay events

run-sent_example :
    (a : Sent) × (rest : List Sent) × ((run (λ b. b) new_relay events).1
      ≡ (run (λ b. b) new_relay (keeps datagram ∷ [])).1 ++ a ∷ rest)
    × (length (run (λ b. b) new_relay (keeps datagram ∷ [])).1 ≡ received (keeps datagram ∷ []))
    × Answers (λ b. b) new_relay (keeps datagram ∷ []) failed a
run-sent_example = run-sent (λ b. b) new_relay (keeps datagram ∷ []) (receives failed ∷ []) failed
