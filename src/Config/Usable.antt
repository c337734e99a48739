-- ===== src/Config/Usable.antt =====
-- What holds of settings that were loaded.
use alfred_identity_backend.Common.{
  ℕ, ◌+◌, ◌≤◌, ◌≡◌, ◌≢◌, ◌⊎◌, inl, inr, refl, sym, ◌∙◌, subst, true, false, not, ◌&&◌, List, [],
  Option, In, not_any, Text, text_eq, length, any, arith, Bool-cases,
}
use alfred_identity_backend.Common.Bytes.{Bytes}
use alfred_identity_backend.Common.Strings.{Lowering}
use alfred_identity_backend.Config.{
  Config, ConfigError, Loaded, loaded, refused, is_prefix_char, validate_discord_command_prefix,
  read_key, read_session_key, read_settings, is_empty, with_access_role, check_web, load,
}

pub record IsUsable (cfg : Config) : Type 0 where
  pub key : length cfg.data_encryption_key ≡ 32
  pub session_key : (cfg.web_session_key ≡ []) ⊎ (16 ≤ length cfg.web_session_key)
  pub token : cfg.discord_enabled ≡ true → cfg.discord_token ≢ []
  pub prefix : cfg.discord_command_prefix ≢ []
  pub prefix_chars : (c : ℕ) → In c cfg.discord_command_prefix → is_prefix_char c ≡ true
  pub prefix_size : length cfg.discord_command_prefix + 6 ≤ 32
  pub web :
      cfg.web_enabled ≡ true
      → (cfg.discord_enabled ≡ true)
        × (cfg.discord_client_id ≢ [])
        × (cfg.discord_client_secret ≢ [])
        × (cfg.discord_guild_id ≢ [])
        × (cfg.web_public_url ≢ [])
        × ((cfg.web_access_role_id ≢ []) ⊎ (cfg.discord_bootstrap_admins ≢ []))

Loaded-cases :
    {A : Type 0} (r : Loaded A) → ((a : A) × (r ≡ loaded a)) ⊎ ((e : ConfigError) × (r ≡ refused e))
Loaded-cases (loaded a) = inl (a, refl)
Loaded-cases (refused e) = inr (e, refl)

not_empty : {A : Type 0} (xs : List A) → is_empty xs ≡ false → xs ≢ []
not_empty xs h e = cc

module _ (low : Lowering) (base64 : Text → Option Bytes) (getenv : Text → Text) where
  read_key_size : (key : Bytes) → read_key low base64 getenv ≡ loaded key → length key ≡ 32
  unfolding read_key
  read_key_size key h = ground arith

  read_session_key_size :
      (key : Bytes)
      → read_session_key low base64 getenv ≡ loaded key
      → (key ≡ []) ⊎ (16 ≤ length key)
  unfolding read_session_key
  read_session_key_size key h = ground arith

-- What `check_web` asks of the settings, and what it changes.
web_checked :
    (cfg out : Config)
    → check_web cfg ≡ loaded out
    → ((out ≡ cfg) × (cfg.web_enabled ≡ false))
      ⊎ ((out ≡ with_access_role cfg)
          × (cfg.discord_enabled ≡ true)
          × (is_empty cfg.discord_client_id ≡ false)
          × (is_empty cfg.discord_client_secret ≡ false)
          × (is_empty cfg.discord_guild_id ≡ false)
          × (is_empty cfg.web_public_url ≡ false)
          × ((is_empty out.web_access_role_id ≡ false)
              ⊎ (is_empty out.discord_bootstrap_admins ≡ false)))
unfolding check_web
web_checked cfg out h = ground (arith, h)

prefix_checked :
    (p : Text)
    → validate_discord_command_prefix p ≡ loaded tt
    → (text_eq p [] ≡ false) × (any (λ c. not (is_prefix_char c)) p ≡ false) × (length p + 6 ≤ 32)
unfolding validate_discord_command_prefix
prefix_checked p h = ground arith

-- Settings that the checks let pass, with any access role.
module _ (cfg : Config) (role : Text) (key : length cfg.data_encryption_key ≡ 32)
    (session : (cfg.web_session_key ≡ []) ⊎ (16 ≤ length cfg.web_session_key))
    (token : (cfg.discord_enabled && is_empty cfg.discord_token) ≡ false)
    (prefix : validate_discord_command_prefix cfg.discord_command_prefix ≡ loaded tt) where
  abbrev WebIsUsable : Type 0
  WebIsUsable =
      cfg.web_enabled ≡ true
      → (cfg.discord_enabled ≡ true)
        × (cfg.discord_client_id ≢ [])
        × (cfg.discord_client_secret ≢ [])
        × (cfg.discord_guild_id ≢ [])
        × (cfg.web_public_url ≢ [])
        × ((role ≢ []) ⊎ (cfg.discord_bootstrap_admins ≢ []))

  settled : WebIsUsable → IsUsable (record cfg { web_access_role_id = role })
  settled web =
      let (filled, chars, size) = prefix_checked cfg.discord_command_prefix prefix in
      record {
        key = key;
        session_key = session;
        token = λ on. not_empty cfg.discord_token (ground (arith, on));
        prefix = λ e. ground (arith, e);
        prefix_chars = λ c i.
            ground
              (arith, not_any (λ x. not (is_prefix_char x)) c cfg.discord_command_prefix chars i);
        prefix_size = size;
        web = web;
      }

module _ (cfg out : Config) (key : length cfg.data_encryption_key ≡ 32)
    (session : (cfg.web_session_key ≡ []) ⊎ (16 ≤ length cfg.web_session_key))
    (token : (cfg.discord_enabled && is_empty cfg.discord_token) ≡ false)
    (prefix : validate_discord_command_prefix cfg.discord_command_prefix ≡ loaded tt) where
  one_or_other :
      (is_empty out.web_access_role_id ≡ false) ⊎ (is_empty out.discord_bootstrap_admins ≡ false)
      → (out.web_access_role_id ≢ []) ⊎ (out.discord_bootstrap_admins ≢ [])
  one_or_other (inl e) = inl (not_empty out.web_access_role_id e)
  one_or_other (inr e) = inr (not_empty out.discord_bootstrap_admins e)

  checked-IsUsable : check_web cfg ≡ loaded out → IsUsable out
  checked-IsUsable web = elim (web_checked cfg out web) [
    | inl (same, off) ↦
        subst IsUsable (sym same)
          (settled cfg cfg.web_access_role_id key session token prefix (λ on. cc))
    | inr (same, discord, client, secret, guild, url, admins) ↦
        let role = (with_access_role cfg).web_access_role_id in
        let as_record : out ≡ record cfg { web_access_role_id = role } = same ∙ ground arith in
        subst IsUsable (sym as_record) (
          settled cfg role key session token prefix (λ on. (
            discord,
            not_empty cfg.discord_client_id client,
            not_empty cfg.discord_client_secret secret,
            not_empty cfg.discord_guild_id guild,
            not_empty cfg.web_public_url url,
            subst (λ (c : Config). (c.web_access_role_id ≢ []) ⊎ (c.discord_bootstrap_admins ≢ []))
                as_record (one_or_other admins),
          )))
  ]

module _ (low : Lowering) (base64 : Text → Option Bytes) (getenv : Text → Text) where
  -- Settings that Load accepts have a key of 32 bytes and a session key that is empty or has 16
  -- bytes at least; a token if Discord is on; a command prefix of allowed characters that leaves
  -- room for the longest command within 32; and, if the web pages are on, Discord on, a client, a
  -- guild, a public URL, and an access role or a bootstrap admin.
  pub load-IsUsable : (cfg : Config) → load low base64 getenv ≡ loaded cfg → IsUsable cfg
  unfolding load
  load-IsUsable cfg h = elim (Loaded-cases (read_key low base64 getenv)) [
    | inr (e, no_key) ↦ absurd (ground (arith, h, no_key))
    | inl (key, k) ↦ elim (Loaded-cases (read_session_key low base64 getenv)) [
      | inr (e, no_key) ↦ absurd (ground (arith, h, k, no_key))
      | inl (session, n) ↦
          let read = read_settings low base64 getenv key session in
          elim (Bool-cases (read.discord_enabled && is_empty read.discord_token)) [
            | inl missing ↦ absurd (ground (arith, h, k, n, missing))
            | inr token ↦
                elim (Loaded-cases (validate_discord_command_prefix read.discord_command_prefix)) [
                  | inr (e, bad) ↦ absurd (ground (arith, h, k, n, token, bad))
                  | inl (u, good) ↦
                      checked-IsUsable read cfg (read_key_size low base64 getenv key k)
                        (read_session_key_size low base64 getenv session n) token good
                        (ground (arith, h, k, n, token, good))
                ]
          ]
    ]
  ]
