-- ===== src/Tests/Packets.antt =====
-- Tests of the packets and their checksums.
use alfred_identity_backend.Common.{
  ℕ, ◌≤◌, ◌≡◌, ◌↔◌, ◌⊎◌, refl, true, [], ◌∷◌, ◌++◌, none, some, ◌==◌, codes, arith,
}
use alfred_identity_backend.Common.Bytes.{Bytes}
use alfred_identity_backend.Crypto.Des.{pack_credentials, encrypt_des, zero_pad, decrypt_des}
use alfred_identity_backend.Eqlogin.Crc.{
  soe_crc32, crc_loop, crc_update, crc_table, table_round, table_rounds, restore_crc,
  strip_for_parse,
}
use alfred_identity_backend.Eqlogin.Crc.RoundTrip.{strip_for_parse-restore_crc}
use alfred_identity_backend.Eqlogin.Soe.{transport_opcode, packet_uses_crc}
use alfred_identity_backend.Eqlogin.Soe.{walk_app_opcodes, walk, combined_loop, app_chat_message}
use alfred_identity_backend.Eqlogin.Soe.Walk.{
  walk-walk_app_opcodes, Carries, walk_app_opcodes-Carries,
}
use alfred_identity_backend.Eqlogin.LoginPacket.{
  LoginPacket, parse_login_packet, parse_encrypted, decrypt_credentials, rewrite_credentials,
  splice_encrypted_credentials,
}
use alfred_identity_backend.Eqlogin.LoginPacket.Layout.{wire}
use alfred_identity_backend.Eqlogin.LoginPacket.Rewrite.{
  layout, parse-rewrite, rewrite_credentials-none,
}
use alfred_identity_backend.Sso.Validate.{validate_username, validate_password}
use alfred_identity_backend.Sso.Validate.Fit.{validated-rewrite}
use alfred_identity_backend.Tests.Data.{plain_des}

crc_check : soe_crc32 (codes "123456789") 0 ≡ 0x22896B0A
unfolding soe_crc32 crc_loop crc_update crc_table table_round table_rounds
crc_check = refl

-- A login datagram of user "al" with password "pw".
abbrev pub login_header : Bytes
login_header = 0 ∷ 9 ∷ 0 ∷ 0 ∷ 2 ∷ 0 ∷ 0 ∷ 0 ∷ 0 ∷ 0 ∷ 0 ∷ 0 ∷ 0 ∷ 0 ∷ 0 ∷ 0 ∷ []

abbrev pub login_ack : Bytes
login_ack = 0 ∷ 3 ∷ 4 ∷ 0 ∷ 0x15 ∷ 0 ∷ 0 ∷ []

abbrev al_pw : Bytes
al_pw = codes "al" ++ 0 ∷ (codes "pw" ++ 0 ∷ 0 ∷ 0 ∷ [])

abbrev pub datagram : Bytes
datagram = wire (record { ack = login_ack; header = login_header; encrypted = al_pw; rest = [] })

abbrev pub parsed : LoginPacket
parsed = record {
  buf = datagram;
  username = codes "al";
  password = codes "pw";
  sub2_offset = 8;
  sub2_len = 24;
  enc_offset = 16;
}

pub datagram_parses : parse_login_packet plain_des datagram ≡ some parsed
unfolding parse_login_packet parse_encrypted decrypt_credentials decrypt_des
datagram_parses = refl

rewrite_credentials-none_example :
    (rewrite_credentials plain_des parsed (codes "bob") (codes "secret") ≡ none) ↔ (231 ≤ 9)
rewrite_credentials-none_example =
    rewrite_credentials-none plain_des datagram parsed datagram_parses (codes "bob")
      (codes "secret")

abbrev bob_secret : Bytes
bob_secret = codes "bob" ++ 0 ∷ (codes "secret" ++ 0 ∷ 0 ∷ 0 ∷ 0 ∷ 0 ∷ 0 ∷ [])

abbrev spliced : Bytes
spliced =
    wire (record { ack = login_ack; header = login_header; encrypted = bob_secret; rest = [] })

splices : rewrite_credentials plain_des parsed (codes "bob") (codes "secret") ≡ some spliced
unfolding rewrite_credentials splice_encrypted_credentials pack_credentials encrypt_des zero_pad
splices = refl

parse-rewrite_example :
    (lp2 : LoginPacket) × (parse_login_packet plain_des spliced ≡ some lp2)
    × (lp2.username ≡ codes "bob")
    × (lp2.password ≡ codes "secret")
    × (spliced
        ≡ wire (record (layout plain_des datagram parsed datagram_parses) {
          encrypted = pack_credentials plain_des (codes "bob") (codes "secret");
        }))
    × (datagram ≡ wire (layout plain_des datagram parsed datagram_parses))
parse-rewrite_example =
    parse-rewrite plain_des datagram parsed datagram_parses (codes "bob") (codes "secret") spliced
      (ground arith) (ground arith) splices

-- A combined packet with a chat message in its second part.
abbrev chat : Bytes
chat = 0 ∷ 3 ∷ 2 ∷ 0 ∷ 0x15 ∷ 6 ∷ 0 ∷ 9 ∷ 0 ∷ 0 ∷ 0x16 ∷ 0 ∷ []

chat_found : walk_app_opcodes chat (λ app. app == app_chat_message) ≡ true
unfolding walk_app_opcodes walk combined_loop transport_opcode
chat_found = refl

walk_app_opcodes-Carries_example :
    (walk_app_opcodes chat (λ app. app == app_chat_message) ≡ true)
    ↔ ((app : ℕ) × Carries app chat × ((app == app_chat_message) ≡ true))
walk_app_opcodes-Carries_example = walk_app_opcodes-Carries chat (λ app. app == app_chat_message)

walk-walk_app_opcodes_example :
    walk (λ app. app == app_chat_message) 100 chat
    ≡ some (walk_app_opcodes chat (λ app. app == app_chat_message))
walk-walk_app_opcodes_example =
    walk-walk_app_opcodes chat (λ app. app == app_chat_message) 100 (omega arith)

chat_uses : packet_uses_crc chat ≡ true
unfolding packet_uses_crc transport_opcode
chat_uses = refl

abbrev crc_bytes : ℕ
crc_bytes = 2

strip_for_parse-restore_crc_example :
    (strip_for_parse (restore_crc chat 0x12345678 crc_bytes) crc_bytes ≡ chat)
    ↔ ((crc_bytes ≡ 0) ⊎ ((crc_bytes ≡ 2) ⊎ (crc_bytes ≡ 4)))
strip_for_parse-restore_crc_example =
    strip_for_parse-restore_crc chat 0x12345678 crc_bytes (omega arith) chat_uses

bob_valid : validate_username (codes "bob") ≡ none
unfolding validate_username
bob_valid = refl

secret_valid : validate_password (codes "secret") ≡ none
unfolding validate_password
secret_valid = refl

validated-rewrite_example :
    (out : Bytes) × (lp2 : LoginPacket) × (rewrite_credentials plain_des parsed
        (codes "bob")
        (codes "secret")
      ≡ some out)
    × (parse_login_packet plain_des out ≡ some lp2)
    × (lp2.username ≡ codes "bob")
    × (lp2.password ≡ codes "secret")
validated-rewrite_example =
    validated-rewrite plain_des datagram parsed datagram_parses (λ t. t) (codes "bob")
      (codes "secret") (λ t h. refl) (ground arith) (ground arith) bob_valid secret_valid
