-- ===== src/Tests/Settings.antt =====
-- Tests of the settings and of the signed cookies.
use Prim.Native.Nat.{zero, suc}
use alfred_identity_backend.Common.{
  ℕ, ◌≡◌, ◌≤◌, ◌↔◌, refl, ap, List, [], ◌∷◌, ◌++◌, Option, none, length, some, Text, codes, text_eq,
  if◌then◌else◌, arith, ◌+◌, ◌-◌,
}
use alfred_identity_backend.Common.Bytes.{Bytes}
use alfred_identity_backend.Common.Strings.{trim_space}
use alfred_identity_backend.Common.Env.{split, trim_right}
use alfred_identity_backend.Common.Int.{atoi}
use alfred_identity_backend.Common.Split.{Without}
use alfred_identity_backend.Config.{
  Config, loaded, load, read_key, read_session_key, read_settings, env_or, env_int, env_bool,
  validate_discord_command_prefix, normalize_discord_command_prefix, split_csv, first_non_empty,
  check_web,
}
use alfred_identity_backend.Config.Usable.{IsUsable, load-IsUsable}
use alfred_identity_backend.Web.Session.{
  Session, Signing, sign_session, parse_session, accepted, signature, dot, make_oauth_state,
  verify_oauth_state, oauth_state_ttl,
}
use alfred_identity_backend.Web.Session.Signed.{
  parse-sign_session, parse_session-signed, verify-make_oauth_state,
}
use alfred_identity_backend.Tests.Data.{ascii}

-- Only the key is set.
abbrev environment : Text → Text
environment k =
    if text_eq k (codes "DATA_ENCRYPTION_KEY") then codes "0123456789abcdef0123456789abcdef" else []

abbrev settings : Config
settings =
    read_settings ascii (λ t. some t) environment (codes "0123456789abcdef0123456789abcdef") []

loaded_run : load ascii (λ t. some t) environment ≡ loaded settings
unfolding load read_key read_session_key read_settings env_or env_int env_bool atoi trim_space
    validate_discord_command_prefix normalize_discord_command_prefix split_csv first_non_empty
    check_web split trim_right
loaded_run = refl

load-IsUsable_example : IsUsable settings
load-IsUsable_example = load-IsUsable ascii (λ t. some t) environment settings loaded_run

-- Texts in base 47 and up, so that no character is a full stop.
unfoldable raised : Bytes → Text
raised [] = []
raised (b ∷ bs) = (b + 47) ∷ raised bs

unfoldable lowered : Text → Bytes
lowered [] = []
lowered (c ∷ cs) = (c - 47) ∷ lowered cs

lowered-raised : (b : Bytes) → lowered (raised b) ≡ b
unfolding lowered raised
lowered-raised [] = refl
lowered-raised (b ∷ bs) = ground (arith, lowered-raised bs)

Without-raised : (b : Bytes) → Without dot (raised b)
unfolding raised
Without-raised [] = refl
Without-raised (b ∷ bs) = ground (arith, Without-raised bs)

-- A text with its length in front, and the texts of a list with their number in front.
unfoldable put_text : Text → Bytes → Bytes
put_text [] rest = 0 ∷ rest
put_text (c ∷ cs) rest = 1 ∷ c ∷ put_text cs rest

unfoldable take_text : Bytes → Option (Text × Bytes)
take_text (zero ∷ rest) = some ([], rest)
take_text (suc n ∷ c ∷ rest) = elim (take_text rest) [ none ↦ none | some p ↦ some (c ∷ p.0, p.1) ]
take_text b = none

take-put_text : (t rest : Text) → take_text (put_text t rest) ≡ some (t, rest)
unfolding take_text put_text
take-put_text [] rest = refl
take-put_text (c ∷ cs) rest = rw (take-put_text cs rest, take_text) refl

unfoldable put_texts : List Text → Bytes → Bytes
unfolding put_text
put_texts [] rest = rest
put_texts (t ∷ ts) rest = put_text t (put_texts ts rest)

unfoldable take_texts : ℕ → Bytes → Option (List Text)
unfolding take_text
take_texts zero b = some []
take_texts (suc n) b = elim (take_text b) [
  | none ↦ none
  | some p ↦ elim (take_texts n p.1) [ none ↦ none | some ts ↦ some (p.0 ∷ ts) ]
]

take-put_texts : (ts : List Text) → take_texts (length ts) (put_texts ts []) ≡ some ts
unfolding take_texts put_texts
take-put_texts [] = refl
take-put_texts (t ∷ ts) =
    rw (take-put_text t (put_texts ts []), take_texts) (rw (take-put_texts ts) refl)

unfoldable written : Session → Bytes
unfolding put_text put_texts
written sess =
    sess.user_id
    ∷ sess.expires_at
    ∷ length sess.role_ids
    ∷ put_text sess.discord_id (put_text sess.display_name (put_texts sess.role_ids []))

-- The two texts, then the roles.
unfoldable take_rest : ℕ → ℕ → ℕ → Bytes → Option Session
unfolding take_text take_texts
take_rest user expires n b = elim (take_text b) [
  | none ↦ none
  | some p ↦ elim (take_text p.1) [
    | none ↦ none
    | some q ↦ elim (take_texts n q.1) [
      | none ↦ none
      | some roles ↦ some (record {
        user_id = user;
        discord_id = p.0;
        display_name = q.0;
        role_ids = roles;
        expires_at = expires;
      })
    ]
  ]
]

unfoldable reread : Bytes → Option Session
unfolding take_rest
reread (user ∷ expires ∷ n ∷ b) = take_rest user expires n b
reread b = none

reread-written : (sess : Session) → reread (written sess) ≡ some sess
unfolding reread written take_rest
reread-written sess =
    rw
      (
        take-put_text sess.discord_id (put_text sess.display_name (put_texts sess.role_ids [])),
        take_rest,
      )
      (rw (take-put_text sess.display_name (put_texts sess.role_ids []))
        (rw (take-put_texts sess.role_ids) refl))

abbrev plain_signing : Signing
plain_signing = record {
  encode = raised;
  decode = λ t. some (lowered t);
  marshal = written;
  unmarshal = reread;
  mac = λ t. 7 ∷ t;
  decode-encode = λ b. ap (λ (t : Bytes). some t) (lowered-raised b);
  Without-encode = Without-raised;
  unmarshal-marshal = reread-written;
}

abbrev visitor : Session
visitor = record {
  user_id = 7;
  discord_id = codes "100";
  display_name = codes "Ann";
  role_ids = codes "raid" ∷ [];
  expires_at = 0;
}

parse-sign_session_example :
    parse_session plain_signing 2000 (sign_session plain_signing 1000 visitor)
    ≡ accepted (record visitor { expires_at = 44200 })
parse-sign_session_example = parse-sign_session plain_signing visitor 1000 2000 (omega arith)

parse_session-signed_example :
    (payload : Text) × (sign_session plain_signing 1000 visitor
      ≡ payload ++ dot ∷ signature plain_signing payload)
    × (2000 ≤ 44200)
parse_session-signed_example =
    parse_session-signed plain_signing (sign_session plain_signing 1000 visitor) 2000
      (record visitor { expires_at = 44200 }) parse-sign_session_example

verify-make_oauth_state_example :
    (verify_oauth_state plain_signing 1030 (make_oauth_state plain_signing (codes "abc") 1000)
      ≡ accepted tt)
    ↔ ((1000 ≤ 1030 + 60) × (1030 ≤ 1000 + oauth_state_ttl))
verify-make_oauth_state_example =
    verify-make_oauth_state plain_signing (codes "abc") 1000 1030 (omega arith)
