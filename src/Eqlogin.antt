-- ===== src/Eqlogin.antt =====
-- internal/eqlogin: the EverQuest login wire format, in the files soe.go, crc.go, login_packet.go.
pub mod Soe
pub mod Crc
pub mod LoginPacket
