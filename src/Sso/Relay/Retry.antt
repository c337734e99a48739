-- ===== src/Sso/Relay/Retry.antt =====
-- How often `relayReadLoop` retries the typed packet.
use alfred_identity_backend.Common.{
  ℕ, suc, ◌+◌, ◌≤◌, ◌≡◌, true, ◌||◌, List, [], ◌∷◌, ◌==◌, if◌then◌else◌, length, arith,
}
use alfred_identity_backend.Common.Bytes.{Bytes}
use alfred_identity_backend.Eqlogin.Soe.{looks_like_login_success}
use alfred_identity_backend.Sso.Relay.{
  UdpRelay, set_typed_fallback, take_typed_retry, clear_typed_fallback, note_downlink, Sent, retry,
  down, relay_read, Event, keeps, receives, run,
}

-- 1 if the relay would retry, 0 if not.
abbrev pub armed : UdpRelay → ℕ
armed r = if r.typed_retry_used || (length r.typed_fallback == 0) then 0 else 1

abbrev pub retries : List Sent → ℕ
retries [] = 0
retries (retry p ∷ ss) = suc (retries ss)
retries (down p ∷ ss) = retries ss

abbrev pub kept : List Event → ℕ
kept [] = 0
kept (keeps p ∷ es) = suc (kept es)
kept (receives p ∷ es) = kept es

module _ (to_lower : Bytes → Bytes) where
  relay_read-armed :
      (r : UdpRelay) (pkt : Bytes)
      → retries ((relay_read to_lower r pkt).1 ∷ []) + armed (relay_read to_lower r pkt).0
        ≤ (if looks_like_login_success pkt then 0 else armed r)
  unfolding relay_read note_downlink take_typed_retry clear_typed_fallback
  relay_read-armed r pkt = ground arith

  retries-∷ : (s : Sent) (ss : List Sent) → retries (s ∷ ss) ≡ retries (s ∷ []) + retries ss
  retries-∷ (retry p) ss = omega arith
  retries-∷ (down p) ss = omega arith

  run-armed : (r : UdpRelay) (es : List Event) → retries (run to_lower r es).1 ≤ armed r + kept es
  unfolding run set_typed_fallback
  run-armed r [] = ground arith
  run-armed r (keeps pkt ∷ es) = ground (arith, run-armed (set_typed_fallback r pkt) es)
  run-armed r (receives pkt ∷ es) =
      let (r2, sent) = relay_read to_lower r pkt in
      ground (arith, run-armed r2 es, relay_read-armed r pkt, retries-∷ sent (run to_lower r2 es).1)

  -- In any run of the relay, the typed packet is retried at most once for each packet kept
  -- (counting one that is kept at the start), and after a datagram that shows success not before a
  -- packet is kept again.
  pub run-retries :
      (r : UdpRelay) (es : List Event)
      → (retries (run to_lower r es).1 ≤ armed r + kept es)
        × ((pkt : Bytes)
            → looks_like_login_success pkt ≡ true
            → retries (run to_lower r (receives pkt ∷ es)).1 ≤ kept es)
  unfolding run
  run-retries r es = (
    run-armed r es,
    λ pkt h.
        let (r2, sent) = relay_read to_lower r pkt in
        ground
          (arith, run-armed r2 es, relay_read-armed r pkt, retries-∷ sent (run to_lower r2 es).1),
  )
