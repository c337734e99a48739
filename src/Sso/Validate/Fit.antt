-- ===== src/Sso/Validate/Fit.antt =====
-- Credentials that pass the validators fit into a login packet, if they are ASCII.
use alfred_identity_backend.Common.{
  ℕ, ◌≤◌, ◌<◌, ◌≡◌, ◌≢◌, ◌⊎◌, ◌↔◌, inl, inr, refl, false, [], ◌∷◌, none, some, ◌==◌, length, any,
  All, Text, text_eq_iff, arith, Option-cases,
}
use alfred_identity_backend.Common.Bytes.{Bytes}
use alfred_identity_backend.Crypto.Des.{DesCbc}
use alfred_identity_backend.Eqlogin.LoginPacket.{
  LoginPacket, parse_login_packet, rewrite_credentials,
}
use alfred_identity_backend.Eqlogin.LoginPacket.Rewrite.{
  NoNul, rewrite_credentials-none, parse-rewrite,
}
use alfred_identity_backend.Sso.Validate.{
  has_control, validate_username, validate_password, validate_alias, validate_tag,
  validate_character,
}

-- The text is not empty, not too long, and has none of the characters.
abbrev pub Accepted : ℕ → (ℕ → Type 0) → Text → Type 0
Accepted max Barred s = (s ≢ []) × (length s ≤ max) × All (λ c. Barred c → ⊥) s

abbrev pub Control : ℕ → Type 0
Control c = (c ≡ 0x00) ⊎ (c ≡ 0x0A) ⊎ (c ≡ 0x0D)

no-Control : (s : Text) → (has_control s ≡ false) ↔ All (λ c. Control c → ⊥) s
no-Control [] = (λ e. tt, λ h. refl)
no-Control (c ∷ s) = ground (arith, no-Control s)

no_nul : (s : Text) → (any (λ c. c == 0) s ≡ false) ↔ All (λ c. c ≡ 0 → ⊥) s
no_nul [] = (λ e. tt, λ h. refl)
no_nul (c ∷ s) = ground (arith, no_nul s)

-- Each validator accepts exactly the texts that are not empty, have at most 64 code points (a
-- password 128), and contain no NUL, line feed or carriage return (a password: no NUL).
pub validators_lem :
    (s : Text)
    → ((validate_username s ≡ none) ↔ Accepted 64 Control s)
      × ((validate_password s ≡ none) ↔ Accepted 128 (λ c. c ≡ 0) s)
      × ((validate_alias s ≡ none) ↔ Accepted 64 Control s)
      × ((validate_tag s ≡ none) ↔ Accepted 64 Control s)
      × ((validate_character s ≡ none) ↔ Accepted 64 Control s)
unfolding validate_username validate_password validate_alias validate_tag validate_character
validators_lem s = ground (arith, no-Control s, no_nul s, text_eq_iff s [])

without_nul : (s : Text) → All (λ c. Control c → ⊥) s → NoNul s
without_nul [] h = h
without_nul (c ∷ s) (h, hs) = (λ e. h (inl e), without_nul s hs)

module _ (des : DesCbc) (buf : Bytes) (lp : LoginPacket)
    (read : parse_login_packet des buf ≡ some lp) where
  -- If the conversion to bytes leaves ASCII as it is, and a user name and a password are ASCII and
  -- pass validateUsername and validatePassword, rewriting any parsed login packet with them
  -- succeeds, and the result parses and reads back as them.
  pub validated-rewrite :
      (encode : Text → Bytes) (u p : Text)
      → ((t : Text) → All (λ c. c < 128) t → encode t ≡ t)
      → All (λ c. c < 128) u
      → All (λ c. c < 128) p
      → validate_username u ≡ none
      → validate_password p ≡ none
      → (out : Bytes) × (lp2 : LoginPacket) × (rewrite_credentials des lp (encode u) (encode p)
          ≡ some out)
        × (parse_login_packet des out ≡ some lp2)
        × (lp2.username ≡ u)
        × (lp2.password ≡ p)
  validated-rewrite encode u p ascii plain_u plain_p ok_u ok_p =
      let (_, size_u, clean_u) = (validators_lem u).0.0 ok_u in
      let (_, size_p, clean_p) = (validators_lem p).1.0 ok_p in
      rw (ascii u plain_u, ascii p plain_p)
        (elim (Option-cases (rewrite_credentials des lp u p)) [
          | inl e ↦ absurd (omega (arith, (rewrite_credentials-none des buf lp read u p).0 e))
          | inr (out, e) ↦
              let (lp2, again, name, word, _, _) =
                parse-rewrite des buf lp read u p out (without_nul u clean_u) clean_p e in
              (out, lp2, e, again, name, word)
        ])
