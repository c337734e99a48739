-- ===== src/Sso/Relay/History.antt =====
-- What `relayReadLoop` sends for a datagram, by what happened to the relay before.
use alfred_identity_backend.Common.{
  ℕ, suc, ◌≡◌, ◌≢◌, ◌⊎◌, ◌↔◌, inl, inr, refl, ap, sym, subst, true, false, List, [], ◌∷◌, ◌++◌,
  length, arith,
}
use alfred_identity_backend.Common.Bytes.{Bytes}
use alfred_identity_backend.Eqlogin.Soe.{looks_like_login_failure, looks_like_login_success}
use alfred_identity_backend.Sso.Relay.{
  UdpRelay, set_typed_fallback, take_typed_retry, clear_typed_fallback, note_downlink, Sent, retry,
  down, relay_read, Event, keeps, receives, run,
}

abbrev pub received : List Event → ℕ
received [] = 0
received (keeps p ∷ es) = received es
received (receives p ∷ es) = suc (received es)

-- The relay has the packet for a retry.
abbrev pub Holds : UdpRelay → Bytes → Type 0
Holds r p = (r.typed_retry_used ≡ false) × ((r.typed_fallback ≡ p) × (p ≢ []))

module _ (to_lower : Bytes → Bytes) where
  -- Nothing is kept, and no login ends.
  abbrev pub IsIdle : Event → Type 0
  IsIdle (keeps q) = q ≡ []
  IsIdle (receives q) =
      (looks_like_login_success q ≡ false) × (looks_like_login_failure to_lower q ≡ false)

  abbrev pub AllIdle : List Event → Type 0
  AllIdle [] = Unit
  AllIdle (e ∷ es) = IsIdle e × AllIdle es

  -- The packet is the last that was kept, and no login ended since.
  abbrev pub Waits : Bytes → List Event → Type 0
  Waits p [] = ⊥
  Waits p (e ∷ es) = (((e ≡ keeps p) × (p ≢ [])) × AllIdle es) ⊎ Waits p es

  -- The same, or the relay had the packet at the start.
  abbrev pub IsWaiting : UdpRelay → List Event → Bytes → Type 0
  IsWaiting r es p = Waits p es ⊎ (Holds r p × AllIdle es)

  abbrev step : UdpRelay → Event → UdpRelay
  step r (keeps q) = set_typed_fallback r q
  step r (receives q) = (relay_read to_lower r q).0

  keeps_packet : (q p : Bytes) → keeps q ≡ keeps p → q ≡ p
  keeps_packet q p e = cc

  step-keeps :
      (r : UdpRelay) (q p : Bytes)
      → Holds (set_typed_fallback r q) p
        ↔ (((keeps q ≡ keeps p) × (p ≢ [])) ⊎ (Holds r p × (q ≡ [])))
  unfolding set_typed_fallback
  step-keeps r [] p = (
    λ h. inr (h, refl),
    λ h. elim h [ inl (e, full) ↦ absurd (full (sym (keeps_packet [] p e))) | inr (h, _) ↦ h ],
  )
  step-keeps r (x ∷ q) p =
      let kept : set_typed_fallback r (x ∷ q)
          ≡ record r { typed_fallback = x ∷ q; typed_retry_used = false } =
        ground arith in
      rw kept (
        λ (_, (e, full)). inl (ap keeps e, full),
        λ h. elim h [
          | inl (e, full) ↦ (refl, (keeps_packet (x ∷ q) p e, full))
          | inr (_, e) ↦ absurd (ground arith)
        ],
      )

  step-receives :
      (r : UdpRelay) (q p : Bytes)
      → Holds (relay_read to_lower r q).0 p ↔ (Holds r p × IsIdle (receives q))
  unfolding relay_read note_downlink take_typed_retry clear_typed_fallback
  step-receives r q p = (
    λ (a, (b, c)). ((ground arith, (ground arith, c)), (ground arith, ground arith)),
    λ ((a, (b, c)), (d, e)). (ground arith, (ground arith, c)),
  )

  step-Holds :
      (r : UdpRelay) (e : Event) (p : Bytes)
      → Holds (step r e) p ↔ (((e ≡ keeps p) × (p ≢ [])) ⊎ (Holds r p × IsIdle e))
  step-Holds r (keeps q) p = step-keeps r q p
  step-Holds r (receives q) p = (
    λ h. inr ((step-receives r q p).0 h),
    λ h. elim h [ inl (e, _) ↦ absurd (ground arith) | inr x ↦ (step-receives r q p).1 x ],
  )

  run_cons :
      (r : UdpRelay) (e : Event) (es : List Event)
      → (run to_lower r (e ∷ es)).0 ≡ (run to_lower (step r e) es).0
  unfolding run
  run_cons r (keeps q) es = refl
  run_cons r (receives q) es = refl

  run-IsWaiting :
      (r : UdpRelay) (es : List Event) (p : Bytes)
      → Holds (run to_lower r es).0 p ↔ IsWaiting r es p
  unfolding run
  run-IsWaiting r [] p = (λ h. inr (h, tt), λ h. elim h [ inl x ↦ absurd x | inr (x, _) ↦ x ])
  run-IsWaiting r (e ∷ es) p =
      let at = run-IsWaiting (step r e) es p in
      let here = step-Holds r e p in
      rw (run_cons r e es) (
        λ h. elim (at.0 h) [
          | inl w ↦ inl (inr w)
          | inr (x, idle) ↦ elim (here.0 x) [
            | inl kept ↦ inl (inl (kept, idle))
            | inr (held, i) ↦ inr (held, (i, idle))
          ]
        ],
        λ h. elim h [
          | inl (inl (kept, idle)) ↦ at.1 (inr (here.1 (inl kept), idle))
          | inl (inr w) ↦ at.1 (inl w)
          | inr (held, (i, idle)) ↦ at.1 (inr (here.1 (inr (held, i)), idle))
        ],
      )

  run-++ :
      (r : UdpRelay) (es more : List Event)
      → (run to_lower r (es ++ more)).1
        ≡ (run to_lower r es).1 ++ (run to_lower (run to_lower r es).0 more).1
  unfolding run
  run-++ r [] more = refl
  run-++ r (keeps q ∷ es) more = run-++ (set_typed_fallback r q) es more
  run-++ r (receives q ∷ es) more =
      let (r2, sent) = relay_read to_lower r q in ap (λ ss. sent ∷ ss) (run-++ r2 es more)

  run-length : (r : UdpRelay) (es : List Event) → length (run to_lower r es).1 ≡ received es
  unfolding run
  run-length r [] = refl
  run-length r (keeps pkt ∷ es) = run-length (set_typed_fallback r pkt) es
  run-length r (receives pkt ∷ es) = ap suc (run-length (relay_read to_lower r pkt).0 es)

  -- The answer to a datagram: a packet for the login server, or the datagram for the client.
  abbrev pub Answers : UdpRelay → List Event → Bytes → Sent → Type 0
  Answers r before pkt (retry p) =
      (looks_like_login_failure to_lower pkt ≡ true)
      × (looks_like_login_success pkt ≡ false)
      × IsWaiting r before p
  Answers r before pkt (down p) =
      (p ≡ pkt)
      × ((q : Bytes)
          → (looks_like_login_failure to_lower pkt ≡ true)
            × (looks_like_login_success pkt ≡ false)
            × IsWaiting r before q
          → ⊥)

  relay_read-retry :
      (r : UdpRelay) (pkt p : Bytes)
      → (relay_read to_lower r pkt).1 ≡ retry p
      → (looks_like_login_failure to_lower pkt ≡ true)
        × ((looks_like_login_success pkt ≡ false) × Holds r p)
  unfolding relay_read note_downlink take_typed_retry clear_typed_fallback
  relay_read-retry r pkt p e =
      (ground arith, (ground arith, (ground arith, (ground arith, ground arith))))

  relay_read-down :
      (r : UdpRelay) (pkt p : Bytes)
      → (relay_read to_lower r pkt).1 ≡ down p
      → (p ≡ pkt)
        × ((looks_like_login_failure to_lower pkt ≡ true)
            → (looks_like_login_success pkt ≡ false)
            → (q : Bytes) → Holds r q
            → ⊥)
  unfolding relay_read note_downlink take_typed_retry clear_typed_fallback
  relay_read-down r pkt p e = (ground arith, λ f g q (a, (b, c)). ground arith)

  Sent-cases : (a : Sent) → ((p : Bytes) × (a ≡ retry p)) ⊎ ((p : Bytes) × (a ≡ down p))
  Sent-cases (retry p) = inl (p, refl)
  Sent-cases (down p) = inr (p, refl)

  relay_read-Answers :
      (r : UdpRelay) (before : List Event) (pkt : Bytes)
      → Answers r before pkt (relay_read to_lower (run to_lower r before).0 pkt).1
  relay_read-Answers r before pkt =
      let now = (run to_lower r before).0 in
      elim (Sent-cases (relay_read to_lower now pkt).1) [
        | inl (p, e) ↦
            let (failure, (success, held)) = relay_read-retry now pkt p e in
            subst (Answers r before pkt) (sym e)
              (failure, success, (run-IsWaiting r before p).0 held)
        | inr (p, e) ↦
            let (same, nothing) = relay_read-down now pkt p e in
            subst (Answers r before pkt) (sym e)
              (same, λ q (f, g, w). nothing f g q ((run-IsWaiting r before q).1 w))
      ]

  -- In any run of the relay, a datagram gets one answer, in its turn: if it shows a failed login
  -- and no success, and a packet waits, this packet goes to the login server; otherwise the
  -- datagram goes to the client. A packet waits if it was the last that was kept, or was held
  -- unused at the start, and no datagram since then showed a success or a failure.
  pub run-sent :
      (r : UdpRelay) (before after : List Event) (pkt : Bytes)
      → (a : Sent) × (rest : List Sent) × ((run to_lower r (before ++ receives pkt ∷ after)).1
          ≡ (run to_lower r before).1 ++ a ∷ rest)
        × (length (run to_lower r before).1 ≡ received before)
        × Answers r before pkt a
  unfolding run
  run-sent r before after pkt =
      let (next, a) = relay_read to_lower (run to_lower r before).0 pkt in
      (
        a,
        (run to_lower next after).1,
        run-++ r before (receives pkt ∷ after),
        run-length r before,
        relay_read-Answers r before pkt,
      )
