-- ===== src/Eqlogin/Soe.antt =====
-- internal/eqlogin/soe.go: transport opcodes and what they carry. A packet is a list of bytes.
pub mod Ends
pub mod Walk
use alfred_identity_backend.Common.{
  ℕ, zero, suc, Bool, true, false, not, ◌&&◌, ◌||◌, List, [], ◌∷◌, Option, none, some, ltb, leb,
  ◌==◌, if◌then◌else◌, length, take, drop, codes,
}
use alfred_identity_backend.Common.Bytes.{Bytes, byte_at, be16, le16, be32, le32, contains}

abbrev pub op_session_request : ℕ
op_session_request = 0x0001

abbrev pub op_session_response : ℕ
op_session_response = 0x0002

abbrev pub op_combined : ℕ
op_combined = 0x0003

abbrev pub op_disconnect : ℕ
op_disconnect = 0x0005

abbrev pub op_packet : ℕ
op_packet = 0x0009

abbrev pub op_fragment : ℕ
op_fragment = 0x000D

abbrev pub app_chat_message : ℕ
app_chat_message = 0x0016

abbrev pub app_server_list_response : ℕ
app_server_list_response = 0x0018

pub record SessionResponse : Type 0 where
  pub connect_code : ℕ
  pub encode_key : ℕ
  pub crc_bytes : ℕ
  pub encode_pass1 : ℕ
  pub encode_pass2 : ℕ
  pub max_packet_size : ℕ

unfoldable pub transport_opcode : Bytes → ℕ
transport_opcode d = if ltb (length d) 2 then 0 else be16 d 0

unfoldable pub parse_session_response : Bytes → Option SessionResponse
unfolding transport_opcode
parse_session_response d =
    if ltb (length d) 17
    then none
    else if not (transport_opcode d == op_session_response)
    then none
    else some (record {
      connect_code = be32 d 2;
      encode_key = be32 d 6;
      crc_bytes = byte_at d 10;
      encode_pass1 = byte_at d 11;
      encode_pass2 = byte_at d 12;
      max_packet_size = le32 d 13;
    })

unfoldable pub packet_uses_crc : Bytes → Bool
unfolding transport_opcode
packet_uses_crc d =
    let op = transport_opcode d in not (op == op_session_request) && not (op == op_session_response)

-- `if walkAppOpcodes(sub, fn) { return true }`, and the loop goes on otherwise.
abbrev pub found_or : Option Bool → Option Bool → Option Bool
found_or none later = none
found_or (some true) later = some true
found_or (some false) later = later

-- `walkAppOpcodes` on fuel, with the loop over the parts of a combined packet as a function of its
-- own. `combined_loop` takes what the loop has not read yet. `none` is the end of the fuel.
unfoldable mutual
  unfolding transport_opcode

  pub walk : (ℕ → Bool) → ℕ → Bytes → Option Bool
  walk fn zero pkt = none
  walk fn (suc fuel) pkt =
      let parts = combined_loop fn fuel (drop 2 pkt) in
      if transport_opcode pkt == op_packet
      then some (leb 6 (length pkt) && fn (le16 pkt 4))
      else if transport_opcode pkt == op_combined
      then parts
      else some false

  pub combined_loop : (ℕ → Bool) → ℕ → Bytes → Option Bool
  combined_loop fn zero rest = none
  combined_loop fn (suc fuel) [] = some false
  combined_loop fn (suc fuel) (n ∷ rest) =
      let found = walk fn fuel (take n rest) in
      let later = combined_loop fn fuel (drop n rest) in
      if n == 0 || ltb (length rest) n then some false else found_or found later

-- Each call takes a byte at least.
unfoldable pub walk_app_opcodes : Bytes → (ℕ → Bool) → Bool
unfolding walk combined_loop
walk_app_opcodes pkt fn = elim (walk fn (suc (length pkt)) pkt) [
  | none ↦ false
  | some found ↦ found
]

-- `to_lower` is `bytes.ToLower`, which goes by Go's Unicode tables.
module _ (to_lower : Bytes → Bytes) where
  unfoldable pub looks_like_login_failure : Bytes → Bool
  unfolding transport_opcode walk_app_opcodes
  looks_like_login_failure pkt =
      let lower = to_lower pkt in
      if ltb (length pkt) 2
      then false
      else if transport_opcode pkt == op_disconnect
      then true
      else if contains lower (codes "invalid username") || contains lower (codes "invalid password")
      then true
      else walk_app_opcodes pkt (λ app. app == app_chat_message)

unfoldable pub looks_like_login_success : Bytes → Bool
unfolding transport_opcode walk_app_opcodes
looks_like_login_success pkt =
    if transport_opcode pkt == op_fragment
    then true
    else walk_app_opcodes pkt (λ app. app == app_server_list_response)
