-- ===== src/Eqlogin/Crc.antt =====
-- internal/eqlogin/crc.go, and the use of the checksum in login_packet.go (StripForParse,
-- RestoreCRC). A uint32 is a number below 2 ^ 32, a byte one below 256.
pub mod RoundTrip
use Prim.Native.Nat.{bit_xor}
use alfred_identity_backend.Common.{
  ℕ, zero, suc, ◌+◌, ◌-◌, ◌/◌, ◌%◌, Bool, not, ◌||◌, List, [], ◌∷◌, ◌++◌, ltb, ◌==◌, if◌then◌else◌,
  length, take,
}
use alfred_identity_backend.Common.Bytes.{Bytes, put_le32}
use alfred_identity_backend.Eqlogin.Soe.{packet_uses_crc}

-- One round of the inner loop of `crcTable`: `crc&1` is `crc % 2`, `crc >> 1` is `crc / 2`.
unfoldable pub table_round : ℕ → ℕ
table_round crc = if not (crc % 2 == 0) then bit_xor (crc / 2) 0xEDB88320 else crc / 2

unfoldable pub table_rounds : ℕ → ℕ → ℕ
unfolding table_round
table_rounds zero crc = crc
table_rounds (suc j) crc = table_rounds j (table_round crc)

-- The entry `table[i]`, computed where it is read.
unfoldable pub crc_table : ℕ → ℕ
unfolding table_rounds
crc_table i = table_rounds 8 i

-- One round of the loop of `SOECRC32`: `x & 0xFF` is `x % 256`, `crc >> 8` is `crc / 256`.
unfoldable pub crc_update : ℕ → ℕ → ℕ
unfolding crc_table
crc_update crc b = bit_xor (crc_table (bit_xor crc b % 256)) (crc / 256)

unfoldable pub crc_loop : ℕ → Bytes → ℕ
unfolding crc_update
crc_loop crc [] = crc
crc_loop crc (b ∷ bs) = crc_loop (crc_update crc b) bs

unfoldable pub soe_crc32 : Bytes → ℕ → ℕ
unfolding crc_loop
soe_crc32 d key = bit_xor (crc_loop 0xFFFFFFFF (put_le32 key ++ d)) 0xFFFFFFFF

unfoldable pub append_crc : Bytes → ℕ → ℕ → Bytes
append_crc packet key crc_bytes =
    let crc = soe_crc32 packet key in
    if crc_bytes == 0
    then packet
    else if crc_bytes == 2
    then packet ++ crc / 0x100 % 256 ∷ crc % 256 ∷ []
    else packet ++ crc / 0x1000000 % 256 ∷ crc / 0x10000 % 256 ∷ crc / 0x100 % 256 ∷ crc % 256 ∷ []

unfoldable pub strip_crc : Bytes → ℕ → Bytes
strip_crc packet crc_bytes =
    if crc_bytes == 0 || ltb (length packet) crc_bytes
    then packet
    else take (length packet - crc_bytes) packet

unfoldable pub strip_for_parse : Bytes → ℕ → Bytes
unfolding strip_crc
strip_for_parse pkt crc_bytes =
    if crc_bytes == 0 || not (packet_uses_crc pkt) then pkt else strip_crc pkt crc_bytes

unfoldable pub restore_crc : Bytes → ℕ → ℕ → Bytes
unfolding append_crc
restore_crc pkt crc_key crc_bytes =
    if crc_bytes == 0 || not (packet_uses_crc pkt) then pkt else append_crc pkt crc_key crc_bytes
