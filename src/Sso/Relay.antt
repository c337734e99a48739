-- ===== src/Sso/Relay.antt =====
-- internal/sso/hub_relay.go: the UDP relay of one client. The socket is left out; what a round of
-- the loop sends is its result.
pub mod History
pub mod Retry
use alfred_identity_backend.Common.{
  ℕ, Bool, true, false, ◌||◌, List, [], ◌∷◌, Option, none, some, ◌==◌, if◌then◌else◌, length,
}
use alfred_identity_backend.Common.Bytes.{Bytes}
use alfred_identity_backend.Eqlogin.Soe.{
  parse_session_response, looks_like_login_failure, looks_like_login_success,
}
use alfred_identity_backend.Eqlogin.Crc.{strip_for_parse, restore_crc}

-- The empty list stands for a nil slice: the code only tests its length.
pub record UdpRelay : Type 0 where
  pub crc_bytes : ℕ
  pub crc_key : ℕ
  pub typed_fallback : Bytes
  pub typed_retry_used : Bool

-- `&udpRelay{…}` of `relayFor`
unfoldable pub new_relay : UdpRelay
new_relay = record { crc_bytes = 0; crc_key = 0; typed_fallback = []; typed_retry_used = false }

unfoldable pub set_typed_fallback : UdpRelay → Bytes → UdpRelay
set_typed_fallback r pkt =
    if length pkt == 0 then r else record r { typed_fallback = pkt; typed_retry_used = false }

unfoldable pub take_typed_retry : UdpRelay → UdpRelay × Option Bytes
take_typed_retry r =
    if r.typed_retry_used || (length r.typed_fallback == 0)
    then (r, none)
    else (record r { typed_retry_used = true; typed_fallback = [] }, some r.typed_fallback)

unfoldable pub clear_typed_fallback : UdpRelay → UdpRelay
clear_typed_fallback r = record r { typed_fallback = []; typed_retry_used = true }

unfoldable pub note_downlink : UdpRelay → Bytes → UdpRelay
unfolding clear_typed_fallback
note_downlink r pkt =
    let noted : UdpRelay = elim (parse_session_response pkt) [
      | none ↦ r
      | some resp ↦ record r { crc_bytes = resp.crc_bytes; crc_key = resp.encode_key }
    ] in
    if looks_like_login_success pkt then clear_typed_fallback noted else noted

unfoldable pub strip_body : UdpRelay → Bytes → Bytes
strip_body r pkt = strip_for_parse pkt r.crc_bytes

unfoldable pub wrap_spliced : UdpRelay → Bytes → Bytes
wrap_spliced r body = restore_crc body r.crc_key r.crc_bytes

-- What a round of the loop sends: to the login server, or to the client.
pub data Sent : Type 0 where
  retry : Bytes → Sent
  down : Bytes → Sent

module _ (to_lower : Bytes → Bytes) where
  -- A round of `relayReadLoop` that receives a datagram.
  unfoldable pub relay_read : UdpRelay → Bytes → UdpRelay × Sent
  unfolding note_downlink take_typed_retry
  relay_read r pkt =
      let noted = note_downlink r pkt in
      let (taken, typed) = take_typed_retry noted in
      if looks_like_login_failure to_lower pkt
      then (taken, elim typed [ none ↦ down pkt | some packet ↦ retry packet ])
      else (noted, down pkt)

-- What happens to the relay: a packet is kept for a retry, or a datagram is received.
pub data Event : Type 0 where
  keeps : Bytes → Event
  receives : Bytes → Event

module _ (to_lower : Bytes → Bytes) where
  unfoldable pub run : UdpRelay → List Event → UdpRelay × List Sent
  unfolding set_typed_fallback relay_read
  run r [] = (r, [])
  run r (keeps pkt ∷ es) = run (set_typed_fallback r pkt) es
  run r (receives pkt ∷ es) =
      let (r2, sent) = relay_read to_lower r pkt in
      let (last, more) = run r2 es in (last, sent ∷ more)
