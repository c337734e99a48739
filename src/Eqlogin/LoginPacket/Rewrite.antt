-- ===== src/Eqlogin/LoginPacket/Rewrite.antt =====
-- `RewriteCredentials`: what it changes, when it fails, and that the result reads back.
use alfred_identity_backend.Common.{
  ℕ, zero, suc, ◌+◌, ◌-◌, ◌%◌, ◌≤◌, ◌<◌, ◌≡◌, ◌≢◌, ◌↔◌, refl, sym, ap, ◌∙◌, [], ◌∷◌, ◌++◌, none,
  some, ltb, ◌==◌, if◌then◌else◌, length, take, drop, replicate, All, arith, length-append, take_at,
  drop_at,
}
use alfred_identity_backend.Common.Bytes.{Bytes}
use alfred_identity_backend.Crypto.Des.{
  DesCbc, zero_pad, pack_credentials, length-encrypt_des, decrypt_des-encrypt_des,
}
use alfred_identity_backend.Eqlogin.LoginPacket.{
  LoginPacket, parse_login_packet, parse_encrypted, decrypt_credentials, set_byte, until_nul,
  after_nul, split_credentials, splice_encrypted_credentials, rewrite_credentials,
}
use alfred_identity_backend.Eqlogin.LoginPacket.Layout.{
  Layout, wire, IsLogin, IsAt, parse-wire, layout_of, wire-parse,
}
use mathlib.Core.List.{append_assoc, append-nil}

-- A text that Go can pass as a zero-terminated one.
abbrev pub NoNul : Bytes → Type 0
NoNul = All (λ b. b ≢ 0)

until_nul-append : (u r : Bytes) → NoNul u → until_nul (u ++ 0 ∷ r) ≡ u
until_nul-append [] r h = refl
until_nul-append (b ∷ u) r h = ground (arith, until_nul-append u r h.1)

after_nul-append : (u r : Bytes) → NoNul u → after_nul (u ++ 0 ∷ r) ≡ r
after_nul-append [] r h = refl
after_nul-append (b ∷ u) r h = ground (arith, after_nul-append u r h.1)

zero_pad-append : (b : Bytes) → (pad : Bytes) × (zero_pad b 8 ≡ b ++ pad)
unfolding zero_pad
zero_pad-append b =
    (if length b % 8 == 0 then [] else replicate (8 - length b % 8) 0, ground (arith, append-nil b))

-- The two texts are found again in front of any padding.
pub split_credentials-packed :
    (u p pad : Bytes)
    → NoNul u
    → NoNul p
    → split_credentials ((u ++ 0 ∷ (p ++ 0 ∷ [])) ++ pad) ≡ (u, p)
split_credentials-packed u p pad hu hp =
    let text : (u ++ 0 ∷ (p ++ 0 ∷ [])) ++ pad ≡ u ++ 0 ∷ (p ++ 0 ∷ pad) =
      append_assoc u (0 ∷ (p ++ 0 ∷ [])) pad
      ∙ ap (λ (r : Bytes). u ++ 0 ∷ r) (append_assoc p (0 ∷ []) pad) in
    rw text (
      ground (
        arith,
        until_nul-append u (p ++ 0 ∷ pad) hu,
        after_nul-append u (p ++ 0 ∷ pad) hu,
        until_nul-append p pad hp,
      ))

-- Packing two texts without NUL and decrypting the result gives them back.
pub decrypt_credentials-pack_credentials :
    (des : DesCbc) (u p : Bytes)
    → NoNul u
    → NoNul p
    → decrypt_credentials des (pack_credentials des u p) ≡ some (u, p)
unfolding decrypt_credentials pack_credentials
decrypt_credentials-pack_credentials des u p hu hp =
    let plain : Bytes = u ++ 0 ∷ (p ++ 0 ∷ []) in
    let (pad, e) = zero_pad-append plain in
    ground (
      arith,
      e,
      length-append u (0 ∷ (p ++ 0 ∷ [])),
      decrypt_des-encrypt_des des plain,
      split_credentials-packed u p pad hu hp,
    )

set_byte_at :
    (xs ys : Bytes) (y v n : ℕ) → length xs ≡ n → set_byte (xs ++ y ∷ ys) n v ≡ xs ++ v ∷ ys
set_byte_at [] ys y v zero e = refl
set_byte_at [] ys y v (suc n) e = absurd (omega arith)
set_byte_at (x ∷ xs) ys y v zero e = absurd (omega arith)
set_byte_at (x ∷ xs) ys y v (suc n) e = ap (◌∷◌ x) (set_byte_at xs ys y v n (omega arith))

module _ (lp : LoginPacket) (l : Layout) (ok : IsLogin l) (at : IsAt lp l) where
  front : Bytes
  front = l.ack ++ (16 + length l.encrypted) ∷ l.header

  wire-front : wire l ≡ front ++ (l.encrypted ++ l.rest)
  unfolding front
  wire-front =
      sym (append_assoc l.ack ((16 + length l.encrypted) ∷ l.header) (l.encrypted ++ l.rest))

  length-front : length front ≡ 24
  unfolding front
  length-front = omega (
    arith,
    length-append {0} l.ack ((16 + length l.encrypted) ∷ l.header),
    ok.ack_len,
    ok.header_len,
  )

  take-wire : take 24 (wire l) ≡ front
  take-wire = rw wire-front (take_at front (l.encrypted ++ l.rest) 24 length-front)

  drop-wire_end : drop (24 + length l.encrypted) (wire l) ≡ l.rest
  drop-wire_end =
      rw (wire-front, ← append_assoc front l.encrypted l.rest)
        (drop_at (front ++ l.encrypted) l.rest _
          (omega (arith, length-append {0} front l.encrypted, length-front)))

  set_byte-front :
      (e : Bytes) (v : ℕ)
      → set_byte (front ++ (e ++ l.rest)) 7 v ≡ l.ack ++ v ∷ (l.header ++ (e ++ l.rest))
  unfolding front
  set_byte-front e v =
      rw (append_assoc l.ack ((16 + length l.encrypted) ∷ l.header) (e ++ l.rest))
        (set_byte_at l.ack _ _ v 7 ok.ack_len)

  -- Only the length byte and the encrypted part change; a sub-packet of over 255 bytes is refused.
  pub splice-wire :
      (e : Bytes)
      → splice_encrypted_credentials lp e
        ≡ (if ltb 255 (16 + length e) then none else some (wire (record l { encrypted = e })))
  unfolding splice_encrypted_credentials
  splice-wire e = ground (
    arith,
    take-wire,
    drop-wire_end,
    set_byte-front e (16 + length e),
    set_byte-front e ((16 + length e) % 256),
  )

module _ (des : DesCbc) (buf : Bytes) (lp : LoginPacket)
    (h : parse_login_packet des buf ≡ some lp) where
  abbrev pub layout : Layout
  layout = layout_of des buf lp h

  -- The bytes that the rewritten credentials take.
  abbrev pub packed : Bytes → Bytes → Bytes
  packed u p = pack_credentials des u p

  packed_size :
      (u p : Bytes)
      → (length (packed u p) % 8 ≡ 0)
        × (length u + length p + 2 ≤ length (packed u p))
        × (length (packed u p) < length u + length p + 10)
  unfolding pack_credentials
  packed_size u p = omega (
    arith,
    length-encrypt_des des (u ++ 0 ∷ (p ++ 0 ∷ [])),
    length-append {0} u (0 ∷ (p ++ 0 ∷ [])),
    length-append {0} p (0 ∷ []),
  )

  rewrite-wire :
      (u p : Bytes)
      → rewrite_credentials des lp u p ≡ (
          if ltb 255 (16 + length (packed u p))
          then none
          else some (wire (record layout { encrypted = packed u p })))
  unfolding rewrite_credentials
  rewrite-wire u p =
      let (ok, _, at) = wire-parse des buf lp h in splice-wire lp layout ok at (packed u p)

  parsed_again : Bytes → Bytes → LoginPacket
  parsed_again u p = record {
    buf = wire (record layout { encrypted = packed u p });
    username = u;
    password = p;
    sub2_offset = 8;
    sub2_len = 16 + length (packed u p);
    enc_offset = 16;
  }

  reparsed :
      (u p : Bytes)
      → NoNul u
      → NoNul p
      → parse_login_packet des (wire (record layout { encrypted = packed u p }))
        ≡ some (parsed_again u p)
  unfolding parse_encrypted parsed_again
  reparsed u p hu hp =
      let size = packed_size u p in
      let (ok, _, _) = wire-parse des buf lp h in
      let l2 : Layout = record layout { encrypted = packed u p } in
      let ok2 : IsLogin l2 = record {
        ack_len = ok.ack_len;
        ack_prefix = ok.ack_prefix;
        header_len = ok.header_len;
        is_packet = ok.is_packet;
        is_login = ok.is_login;
        some_blocks = omega arith;
        whole_blocks = size.0;
      } in
      ground (arith, parse-wire l2 ok2 des, decrypt_credentials-pack_credentials des u p hu hp)

  -- Rewriting the credentials of a parsed packet fails exactly if the two texts have more than 230
  -- bytes together.
  pub rewrite_credentials-none :
      (u p : Bytes) → (rewrite_credentials des lp u p ≡ none) ↔ (231 ≤ length u + length p)
  rewrite_credentials-none u p = rw (rewrite-wire u p) (ground (arith, packed_size u p))

  -- If rewriting the credentials of a parsed packet with two texts without NUL succeeds, the result
  -- parses and reads back as the two texts, and it differs from the packet received only in the
  -- length byte and the encrypted part.
  pub parse-rewrite :
      (u p out : Bytes)
      → NoNul u
      → NoNul p
      → rewrite_credentials des lp u p ≡ some out
      → (lp2 : LoginPacket) × (parse_login_packet des out ≡ some lp2)
        × (lp2.username ≡ u)
        × (lp2.password ≡ p)
        × (out ≡ wire (record layout { encrypted = packed u p }))
        × (buf ≡ wire layout)
  unfolding parsed_again
  parse-rewrite u p out hu hp e =
      let (ok, is, _) = wire-parse des buf lp h in
      let same : out ≡ wire (record layout { encrypted = packed u p }) =
        ground (arith, rewrite-wire u p) in
      (parsed_again u p, rw same (reparsed u p hu hp), refl, refl, same, is)
