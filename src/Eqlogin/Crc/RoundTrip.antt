-- ===== src/Eqlogin/Crc/RoundTrip.antt =====
-- What `RestoreCRC` appends and what `StripForParse` takes off again.
use alfred_identity_backend.Common.{
  ℕ, ◌+◌, ◌-◌, ◌/◌, ◌%◌, ◌≤◌, ◌≡◌, ◌↔◌, ◌⊎◌, ap, true, [], ◌∷◌, ◌++◌, ltb, ◌==◌, if◌then◌else◌,
  length, take, arith, length-append, length-take, take_of_append,
}
use mathlib.Core.List.{append-nil}
use alfred_identity_backend.Common.Bytes.{Bytes}
use alfred_identity_backend.Eqlogin.Soe.{packet_uses_crc}
use alfred_identity_backend.Eqlogin.Crc.{append_crc, strip_for_parse, restore_crc, soe_crc32}

-- The number of checksum bytes that `AppendCRC` writes.
abbrev pub written : ℕ → ℕ
written crc_bytes = if crc_bytes == 0 then 0 else if crc_bytes == 2 then 2 else 4

-- The checksum bytes themselves.
crc_tail : Bytes → ℕ → ℕ → Bytes
crc_tail packet key crc_bytes =
    let crc = soe_crc32 packet key in
    if crc_bytes == 0
    then []
    else if crc_bytes == 2
    then crc / 0x100 % 256 ∷ crc % 256 ∷ []
    else crc / 0x1000000 % 256 ∷ crc / 0x10000 % 256 ∷ crc / 0x100 % 256 ∷ crc % 256 ∷ []

append_crc-tail :
    (pkt : Bytes) (key crc_bytes : ℕ)
    → append_crc pkt key crc_bytes ≡ pkt ++ crc_tail pkt key crc_bytes
unfolding append_crc crc_tail
append_crc-tail pkt key crc_bytes = ground (arith, append-nil pkt)

length-crc_tail : (pkt : Bytes) (key c : ℕ) → length (crc_tail pkt key c) ≡ written c
unfolding crc_tail
length-crc_tail pkt key c = ground arith

-- The transport opcode stands in the first two bytes.
packet_uses_crc-append :
    (pkt tail : Bytes) → 2 ≤ length pkt → packet_uses_crc (pkt ++ tail) ≡ packet_uses_crc pkt
unfolding packet_uses_crc
packet_uses_crc-append [] tail h = absurd (omega arith)
packet_uses_crc-append (a ∷ []) tail h = absurd (omega arith)
packet_uses_crc-append (a ∷ b ∷ r) tail h = ground (arith, length-append r tail)

module _ (pkt : Bytes) (key c : ℕ) (long : 2 ≤ length pkt) (uses : packet_uses_crc pkt ≡ true) where
  abbrev restored : Bytes
  restored = pkt ++ crc_tail pkt key c

  restore_crc-restored : restore_crc pkt key c ≡ restored
  unfolding restore_crc crc_tail
  restore_crc-restored = ground (arith, append_crc-tail pkt key c, append-nil pkt)

  strip_for_parse-restored : strip_for_parse restored c ≡ (
      if ltb (length pkt + written c) c
      then restored
      else take (length pkt + written c - c) restored)
  unfolding strip_for_parse crc_tail
  strip_for_parse-restored = ground (
    arith,
    packet_uses_crc-append pkt (crc_tail pkt key c) long,
    length-append pkt (crc_tail pkt key c),
    length-crc_tail pkt key c,
    append-nil pkt,
    take_of_append pkt [],
  )

  length_stripped : length (strip_for_parse restored c) ≡ (
      if ltb (length pkt + written c) c then length pkt + written c else length pkt + written c - c)
  length_stripped = rw strip_for_parse-restored (
      ground (
        arith,
        length-append pkt (crc_tail pkt key c),
        length-crc_tail pkt key c,
        length-take (length pkt + written c - c) restored,
      ))

  -- For a packet of two bytes at least that carries a checksum, StripForParse after RestoreCRC
  -- gives the packet back exactly if the session's checksum length is 0, 2 or 4.
  pub strip_for_parse-restore_crc :
      (strip_for_parse (restore_crc pkt key c) c ≡ pkt) ↔ ((c ≡ 0) ⊎ ((c ≡ 2) ⊎ (c ≡ 4)))
  strip_for_parse-restore_crc = rw restore_crc-restored (
    λ e. ground (arith, ap length e, length_stripped),
    λ ok. rw strip_for_parse-restored (ground (arith, ok, take_of_append pkt (crc_tail pkt key c))),
  )
