-- ===== src/Web/Session.antt =====
-- internal/web/session.go: the signed session cookie and the signed OAuth state. Texts are bytes,
-- times are seconds since 1970, and the clock and the random nonce are arguments.
pub mod Signed
use alfred_identity_backend.Common.{
  ℕ, suc, ◌+◌, ◌*◌, ◌-◌, ◌≡◌, ◌≤◌, Bool, true, false, ◌||◌, List, [], ◌∷◌, ◌++◌, Option, none, some,
  ltb, leb, ◌==◌, if◌then◌else◌, any, Text, text_eq,
}
use alfred_identity_backend.Common.Bytes.{Bytes}
use alfred_identity_backend.Common.Strings.{is_space}
use alfred_identity_backend.Common.Env.{split, is_digit}
use alfred_identity_backend.Common.Decimal.{decimal}
use alfred_identity_backend.Common.Split.{Without}

pub record Session : Type 0 where
  pub user_id : ℕ
  pub discord_id : Text
  pub display_name : Text
  pub role_ids : List Text
  pub expires_at : ℕ

-- The packages base64 (RawURLEncoding), json and hmac, with the server's key. An encoded text has no
-- full stop, and decoding and unmarshalling undo encoding and marshalling.
pub record Signing : Type 0 where
  pub encode : Bytes → Text
  pub decode : Text → Option Bytes
  pub marshal : Session → Bytes
  pub unmarshal : Bytes → Option Session
  pub mac : Text → Bytes
  pub decode-encode : (b : Bytes) → decode (encode b) ≡ some b
  pub Without-encode : (b : Bytes) → Without 0x2E (encode b)
  pub unmarshal-marshal : (s : Session) → unmarshal (marshal s) ≡ some s

pub data SessionError : Type 0 where
  invalid_session bad_signature undecodable expired malformed bad_timestamp : SessionError

pub data Verdict (A : Type 0) : Type 0 where
  accepted : A → Verdict A
  rejected : SessionError → Verdict A

abbrev pub session_ttl : ℕ
session_ttl = 43200

abbrev pub oauth_state_ttl : ℕ
oauth_state_ttl = 600

abbrev pub dot : ℕ
dot = 0x2E

-- `fmt.Sscanf(s, "%d", &ts)`: spaces, a sign, and digits until another character. What is below 1
-- is refused by the caller, so a negative number is 0 here.
unfoldable pub scan_digits : ℕ → Text → ℕ
unfolding is_digit
scan_digits acc [] = acc
scan_digits acc (c ∷ cs) =
    let rest = scan_digits (acc * 10 + (c - 48)) cs in if is_digit c then rest else acc

unfoldable pub skip_spaces : Text → Text
skip_spaces [] = []
skip_spaces (c ∷ cs) = let rest = skip_spaces cs in if is_space c then rest else c ∷ cs

abbrev scan_signed : Text → ℕ
unfolding scan_digits
scan_signed [] = 0
scan_signed (c ∷ cs) =
    if c == b'-' then 0 else if c == b'+' then scan_digits 0 cs else scan_digits 0 (c ∷ cs)

unfoldable pub scan_number : Text → ℕ
unfolding scan_digits skip_spaces
scan_number s = scan_signed (skip_spaces s)

module _ (g : Signing) where
  -- `base64.RawURLEncoding.EncodeToString(mac.Sum(nil))`
  abbrev pub signature : Text → Text
  signature payload = g.encode (g.mac payload)

  abbrev pub with_expiry : ℕ → Session → Session
  with_expiry now sess =
      if sess.expires_at == 0 then record sess { expires_at = now + session_ttl } else sess

  unfoldable pub sign_session : ℕ → Session → Text
  sign_session now sess =
      let payload = g.encode (g.marshal (with_expiry now sess)) in
      payload ++ dot ∷ signature payload

  -- The payload is signed.
  unfoldable pub open_payload : ℕ → Text → Verdict Session
  open_payload now payload = elim (g.decode payload) [
    | none ↦ rejected undecodable
    | some raw ↦ elim (g.unmarshal raw) [
      | none ↦ rejected undecodable
      | some sess ↦ if ltb sess.expires_at now then rejected expired else accepted sess
    ]
  ]

  unfoldable pub parse_parts : ℕ → List Text → Verdict Session
  unfolding open_payload
  parse_parts now (payload ∷ sig ∷ []) =
      if text_eq (signature payload) sig then open_payload now payload else rejected bad_signature
  parse_parts now parts = rejected invalid_session

  unfoldable pub parse_session : ℕ → Text → Verdict Session
  unfolding split parse_parts
  parse_session now token = parse_parts now (split dot token)

  -- `sessionFromRequest`: the cookie may be absent.
  unfoldable pub session_from_request : ℕ → Option Text → Verdict Session
  unfolding parse_session
  session_from_request now none = rejected invalid_session
  session_from_request now (some []) = rejected invalid_session
  session_from_request now (some (c ∷ cs)) = parse_session now (c ∷ cs)

  abbrev pub state_payload : Bytes → ℕ → Text
  unfolding decimal
  state_payload nonce now = g.encode nonce ++ dot ∷ decimal now

  unfoldable pub make_oauth_state : Bytes → ℕ → Text
  unfolding decimal
  make_oauth_state nonce now = state_payload nonce now ++ dot ∷ signature (state_payload nonce now)

  -- `age < -60 || age > 600`, written without a difference.
  abbrev pub is_out_of_time : ℕ → ℕ → Bool
  is_out_of_time now ts = ltb (now + 60) ts || ltb (ts + oauth_state_ttl) now

  unfoldable pub verify_parts : ℕ → List Text → Verdict (Unit {0})
  unfolding scan_number
  verify_parts now (nonce ∷ stamp ∷ sig ∷ []) =
      let ts = scan_number stamp in
      if text_eq (signature (nonce ++ dot ∷ stamp)) sig
      then (if leb ts 0
          then rejected bad_timestamp
          else if is_out_of_time now ts
          then rejected expired
          else accepted tt)
      else rejected bad_signature
  verify_parts now parts = rejected malformed

  unfoldable pub verify_oauth_state : ℕ → Text → Verdict (Unit {0})
  unfolding split verify_parts
  verify_oauth_state now state = verify_parts now (split dot state)
