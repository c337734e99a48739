-- ===== src/Web/Session/Signed.antt =====
-- What a signed session or state is worth.
use alfred_identity_backend.Common.{
  ℕ, zero, suc, ◌+◌, ◌/◌, ◌%◌, ◌≤◌, ◌<◌, ◌≡◌, ◌↔◌, inl, inr, refl, sym, ◌∙◌, ap, List, [], ◌∷◌,
  ◌++◌, ltb, Text, text_eq, text_eq_iff, text_eq_refl, arith, Bool-cases,
}
use mathlib.Core.List.{append_assoc}
use alfred_identity_backend.Common.Bytes.{Bytes}
use alfred_identity_backend.Common.Env.{split, is_digit}
use alfred_identity_backend.Common.Decimal.{digits, decimal, join}
use alfred_identity_backend.Common.Split.{
  Without, split-Without, split-append, join-split, Without-decimal,
}
use alfred_identity_backend.Web.Session.{
  Session, Signing, accepted, oauth_state_ttl, dot, scan_digits, scan_number, skip_spaces,
  signature, with_expiry, sign_session, open_payload, parse_parts, parse_session, state_payload,
  make_oauth_state, verify_parts, verify_oauth_state,
}

scan-digits :
    (fuel n : ℕ) (acc : Text) → n < fuel → scan_digits 0 (digits fuel n acc) ≡ scan_digits n acc
unfolding digits scan_digits is_digit
scan-digits zero n acc h = absurd (omega (arith, h))
scan-digits (suc fuel) n acc h = elim (Bool-cases (ltb n 10)) [
  | inl small ↦ rw small (ground arith)
  | inr large ↦
      rw large (scan-digits fuel (n / 10) ((48 + n % 10) ∷ acc) (ground arith) ∙ ground arith)
]

-- The digits of a number begin with one.
first_digit :
    (fuel n : ℕ) (acc : Text)
    → n < fuel
    → (c : ℕ) × (cs : Text) × (digits fuel n acc ≡ c ∷ cs) × (48 ≤ c) × (c ≤ 57)
unfolding digits
first_digit zero n acc h = absurd (omega (arith, h))
first_digit (suc fuel) n acc h = elim (Bool-cases (ltb n 10)) [
  | inl small ↦ (48 + n, acc, rw small refl, omega arith, ground arith)
  | inr large ↦
      let (c, cs, e, low, high) = first_digit fuel (n / 10) ((48 + n % 10) ∷ acc) (ground arith) in
      (c, cs, rw large e, low, high)
]

decimal_read :
    (n : ℕ)
    → (scan_digits 0 (decimal n) ≡ n)
      × ((c : ℕ) × (cs : Text) × (decimal n ≡ c ∷ cs) × (48 ≤ c) × (c ≤ 57))
unfolding decimal scan_digits
decimal_read n = (scan-digits (suc n) n [] (omega arith), first_digit (suc n) n [] (omega arith))

-- A text that begins with a digit is read from there.
scan_at : (c : ℕ) (cs : Text) → 48 ≤ c → c ≤ 57 → scan_number (c ∷ cs) ≡ scan_digits 0 (c ∷ cs)
unfolding scan_number skip_spaces
scan_at c cs low high = ground (arith, low, high)

scan-decimal : (n : ℕ) → scan_number (decimal n) ≡ n
scan-decimal n =
    let (value, (c, cs, e, low, high)) = decimal_read n in
    ap scan_number e ∙ scan_at c cs low high ∙ sym (ap (scan_digits 0) e) ∙ value

module _ (g : Signing) where
  opens :
      (later : ℕ) (full : Session)
      → later ≤ full.expires_at
      → open_payload g later (g.encode (g.marshal full)) ≡ accepted full
  unfolding open_payload
  opens later full h = ground (arith, h, g.decode-encode (g.marshal full), g.unmarshal-marshal full)

  signed_parts :
      (later : ℕ) (payload : Text)
      → parse_parts g later (payload ∷ signature g payload ∷ []) ≡ open_payload g later payload
  unfolding parse_parts
  signed_parts later payload = rw (text_eq_refl (signature g payload)) refl

  cut_at_dot :
      (payload sig : Text)
      → Without dot payload
      → Without dot sig
      → split dot (payload ++ dot ∷ sig) ≡ payload ∷ sig ∷ []
  cut_at_dot payload sig p q =
      split-append dot payload sig p
      ∙ ap (λ (ps : List Text). payload ∷ ps) (split-Without dot sig q)

  -- A session that was signed is read back as it is, with its expiry, by parseSession until the
  -- time of expiry.
  pub parse-sign_session :
      (sess : Session) (now later : ℕ)
      → later ≤ (with_expiry g now sess).expires_at
      → parse_session g later (sign_session g now sess) ≡ accepted (with_expiry g now sess)
  unfolding parse_session sign_session
  parse-sign_session sess now later h =
      let payload = g.encode (g.marshal (with_expiry g now sess)) in
      ap (parse_parts g later)
        (cut_at_dot payload (signature g payload) (g.Without-encode _) (g.Without-encode _))
      ∙ signed_parts later payload
      ∙ opens later (with_expiry g now sess) h

  open_payload_inv :
      (now : ℕ) (payload : Text) (sess : Session)
      → open_payload g now payload ≡ accepted sess
      → now ≤ sess.expires_at
  unfolding open_payload
  open_payload_inv now payload sess h = ground (arith, h)

  parse_parts_inv :
      (now : ℕ) (parts : List Text) (sess : Session)
      → parse_parts g now parts ≡ accepted sess
      → (payload : Text) × (parts ≡ payload ∷ signature g payload ∷ []) × (now ≤ sess.expires_at)
  unfolding parse_parts
  parse_parts_inv now [] sess h = cc
  parse_parts_inv now (p ∷ []) sess h = cc
  parse_parts_inv now (p ∷ q ∷ []) sess h = elim (Bool-cases (text_eq (signature g p) q)) [
    | inl same ↦ (
      p,
      ap (λ (t : Text). p ∷ t ∷ []) (sym ((text_eq_iff (signature g p) q).0 same)),
      open_payload_inv now p sess (ground (arith, same, h)),
    )
    | inr differs ↦ absurd (ground (arith, differs, h))
  ]
  parse_parts_inv now (p ∷ q ∷ r ∷ more) sess h = cc

  -- A token that parseSession accepts is a payload, a full stop and the signature of the payload,
  -- and the session has not expired.
  pub parse_session-signed :
      (token : Text) (now : ℕ) (sess : Session)
      → parse_session g now token ≡ accepted sess
      → (payload : Text) × (token ≡ payload ++ dot ∷ signature g payload) × (now ≤ sess.expires_at)
  unfolding parse_session join
  parse_session-signed token now sess h =
      let (payload, parts, in_time) = parse_parts_inv now (split dot token) sess h in
      (payload, sym (join-split dot token) ∙ ap (join (dot ∷ [])) parts, in_time)

  state_cut :
      (nonce : Bytes) (now : ℕ)
      → split dot (make_oauth_state g nonce now)
        ≡ g.encode nonce ∷ decimal now ∷ signature g (state_payload g nonce now) ∷ []
  unfolding make_oauth_state
  state_cut nonce now =
      let sig = signature g (state_payload g nonce now) in
      ap (split dot) (append_assoc (g.encode nonce) (dot ∷ decimal now) (dot ∷ sig))
      ∙ split-append dot (g.encode nonce) (decimal now ++ dot ∷ sig) (g.Without-encode nonce)
      ∙ ap (λ (ps : List Text). g.encode nonce ∷ ps)
          (cut_at_dot (decimal now) sig (Without-decimal dot now (omega arith))
            (g.Without-encode _))

  verify_signed :
      (now later : ℕ) (nonce stamp : Text)
      → scan_number stamp ≡ now
      → 0 < now
      → (verify_parts g later (nonce ∷ stamp ∷ signature g (nonce ++ dot ∷ stamp) ∷ [])
          ≡ accepted tt)
        ↔ ((now ≤ later + 60) × (later ≤ now + oauth_state_ttl))
  unfolding verify_parts
  verify_signed now later nonce stamp e h =
      ground (arith, e, text_eq_refl (signature g (nonce ++ dot ∷ stamp)))

  -- verifyOAuthState accepts a state that makeOAuthState has made, at a time after 1970, exactly at
  -- the times from 60 seconds before until 600 seconds after it.
  pub verify-make_oauth_state :
      (nonce : Bytes) (now later : ℕ)
      → 0 < now
      → (verify_oauth_state g later (make_oauth_state g nonce now) ≡ accepted tt)
        ↔ ((now ≤ later + 60) × (later ≤ now + oauth_state_ttl))
  unfolding verify_oauth_state state_payload
  verify-make_oauth_state nonce now later h =
      rw (state_cut nonce now)
        (verify_signed now later (g.encode nonce) (decimal now) (scan-decimal now) h)
