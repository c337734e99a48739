-- ===== src/Eqlogin/LoginPacket.antt =====
-- internal/eqlogin/login_packet.go: the Combined login datagram and its encrypted credentials.
pub mod Layout
pub mod Rewrite
use alfred_identity_backend.Common.{
  ℕ, zero, suc, ◌+◌, ◌-◌, ◌%◌, Bool, true, false, not, ◌||◌, List, [], ◌∷◌, ◌++◌, Option, none,
  some, ltb, leb, ◌==◌, if◌then◌else◌, length, take, drop,
}
use alfred_identity_backend.Common.Bytes.{Bytes, byte_at, be16, le16, has_prefix}
use alfred_identity_backend.Crypto.Des.{DesCbc, decrypt_des, pack_credentials}
use alfred_identity_backend.Eqlogin.Soe.{op_packet}

abbrev pub ack_end : ℕ
ack_end = 7

abbrev pub login_sub_header : ℕ
login_sub_header = 6

-- loginSubHeader + loginBaseSize
abbrev pub login_enc_offset : ℕ
login_enc_offset = 16

pub record LoginPacket : Type 0 where
  pub buf : Bytes
  pub username : Bytes
  pub password : Bytes
  pub sub2_offset : ℕ
  pub sub2_len : ℕ
  pub enc_offset : ℕ

-- The bytes before the first zero byte, and those behind it.
abbrev pub until_nul : Bytes → Bytes
until_nul [] = []
until_nul (b ∷ bs) = if b == 0 then [] else b ∷ until_nul bs

abbrev pub after_nul : Bytes → Bytes
after_nul [] = []
after_nul (b ∷ bs) = if b == 0 then bs else after_nul bs

-- The two texts at the front of the decrypted bytes.
abbrev pub split_credentials : Bytes → Bytes × Bytes
split_credentials pt = (until_nul pt, until_nul (after_nul pt))

abbrev pub login_prefix : Bytes
login_prefix = 0x00 ∷ 0x03 ∷ 0x04 ∷ 0x00 ∷ 0x15 ∷ []

abbrev pub set_byte : Bytes → ℕ → ℕ → Bytes
set_byte [] i v = []
set_byte (b ∷ bs) zero v = v ∷ bs
set_byte (b ∷ bs) (suc i) v = b ∷ set_byte bs i v

-- `none` is the error "login subpacket too large".
unfoldable pub splice_encrypted_credentials : LoginPacket → Bytes → Option Bytes
splice_encrypted_credentials lp encrypted =
    let new_sub_len = lp.enc_offset + length encrypted in
    let abs_start = lp.sub2_offset + lp.enc_offset in
    let abs_end = lp.sub2_offset + lp.sub2_len in
    let out = take abs_start lp.buf ++ (encrypted ++ drop abs_end lp.buf) in
    if ltb 0xFF new_sub_len
    then none
    else some (set_byte out (lp.sub2_offset - 1) (new_sub_len % 256))

module _ (des : DesCbc) where
  unfoldable pub decrypt_credentials : Bytes → Option (Bytes × Bytes)
  decrypt_credentials encrypted = elim (decrypt_des des encrypted) [
    | none ↦ none
    | some pt ↦ some (split_credentials pt)
  ]

  -- The last step of `ParseLoginPacket`, for the sub-packet that has passed the tests.
  unfoldable pub parse_encrypted : Bytes → ℕ → Bytes → Option LoginPacket
  unfolding decrypt_credentials
  parse_encrypted buf sub2_len encrypted = elim (decrypt_credentials encrypted) [
    | none ↦ none
    | some c ↦ some (record {
      buf = buf;
      username = c.0;
      password = c.1;
      sub2_offset = ack_end + 1;
      sub2_len = sub2_len;
      enc_offset = login_enc_offset;
    })
  ]

  unfoldable pub parse_login_packet : Bytes → Option LoginPacket
  parse_login_packet buf =
      if ltb (length buf) 30 || not (has_prefix buf login_prefix)
      then none
      else let sub2_len = byte_at buf ack_end in
        let sub2_start = ack_end + 1 in
        if ltb (length buf) (sub2_start + sub2_len) || ltb sub2_len login_sub_header
        then none
        else let sub2 = take sub2_len (drop sub2_start buf) in
          if not (be16 sub2 0 == op_packet)
          then none
          else if ltb (length sub2) 6 || not (le16 sub2 4 == 2)
          then none
          else if leb (length sub2) login_enc_offset
          then none
          else parse_encrypted buf sub2_len (drop login_enc_offset sub2)

  unfoldable pub rewrite_credentials : LoginPacket → Bytes → Bytes → Option Bytes
  unfolding splice_encrypted_credentials
  rewrite_credentials lp username password =
      splice_encrypted_credentials lp (pack_credentials des username password)
