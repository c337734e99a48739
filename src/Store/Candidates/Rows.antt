-- ===== src/Store/Candidates/Rows.antt =====
-- In which ways a name stands for an account, on the rows of the tables.
use alfred_identity_backend.Common.{
  ℕ, ◌≡◌, ◌⊎◌, ◌↔◌, ◌∙◌, or_states, Bool, refl, sym, true, false, List, Text, text_eq_iff, any_iff,
  found_any, In, arith,
}
use alfred_identity_backend.Common.Strings.{Lowering}
use alfred_identity_backend.Crypto.Aead.{Vault}
use alfred_identity_backend.Store.Db.{Db, AccountName, EqAccount}
use alfred_identity_backend.Store.Candidates.{LoginCandidate, has_name, candidate_of, is_match}

module _ (v : Vault) (low : Lowering) (db : Db) where
  -- A row gives the account the name, up to the letter case of the database.
  abbrev pub HasName : List AccountName → ℕ → Text → Type 0
  HasName rows account name =
      (n : AccountName) × In n rows
      × (n.eq_account_id ≡ account)
      × (low.sql_lower n.name ≡ low.sql_lower name)

  -- The user name of the account has the blind index of the name.
  abbrev pub IsUsername : EqAccount → Text → Type 0
  IsUsername a name = a.username_blind ≡ v.blind_index (low.to_lower name)

  -- A candidate tells in which ways the name stands for the account, and it stands in one of them.
  abbrev pub Tells : LoginCandidate → EqAccount → Text → Type 0
  Tells c a name =
      (c.id ≡ a.id)
      × ((c.by_user ≡ true) ↔ IsUsername a name)
      × ((c.by_tag ≡ true) ↔ HasName db.account_tags a.id name)
      × ((c.by_alias ≡ true) ↔ HasName db.aliases a.id name)
      × ((c.by_character ≡ true) ↔ HasName db.characters a.id name)

  abbrev pub StandsFor : EqAccount → Text → Type 0
  StandsFor a name =
      IsUsername a name
      ⊎ (HasName db.account_tags a.id name
          ⊎ (HasName db.aliases a.id name ⊎ HasName db.characters a.id name))

  has_name_iff :
      (rows : List AccountName) (account : ℕ) (name : Text)
      → (has_name v low rows account name ≡ true) ↔ HasName rows account name
  has_name_iff rows account name = (
    λ h.
        let (n, i, e) = (any_iff _ rows).0 h in
        (
          n,
          i,
          ground (arith, e),
          (text_eq_iff (low.sql_lower n.name) (low.sql_lower name)).0 (ground (arith, e)),
        ),
    λ (n, i, e, f).
        found_any _ n rows i
          (ground (arith, e, (text_eq_iff (low.sql_lower n.name) (low.sql_lower name)).1 f)),
  )

  pub candidate_of-Tells :
      (a : EqAccount) (name : Text) → Tells (candidate_of v low db name a) a name
  unfolding candidate_of
  candidate_of-Tells a name = (
    refl,
    text_eq_iff a.username_blind (v.blind_index (low.to_lower name)),
    has_name_iff db.account_tags a.id name,
    has_name_iff db.aliases a.id name,
    has_name_iff db.characters a.id name,
  )

  same_test : (b c : Bool) (P : Type 0) → (b ≡ true) ↔ P → (c ≡ true) ↔ P → b ≡ c
  same_test true true P p q = refl
  same_test false false P p q = refl
  same_test true false P p q = sym (q.1 (p.0 refl))
  same_test false true P p q = p.1 (q.0 refl)

  -- Only one candidate tells what there is to tell of an account.
  pub Tells-candidate_of :
      (c : LoginCandidate) (a : EqAccount) (name : Text)
      → Tells c a name
      → c ≡ candidate_of v low db name a
  Tells-candidate_of c a name (num, user, tag, nick, character) =
      let (num2, user2, tag2, nick2, character2) = candidate_of-Tells a name in
      let d = candidate_of v low db name a in
      let same_id : c.id ≡ d.id = num ∙ sym num2 in
      let same_user = same_test c.by_user d.by_user (IsUsername a name) user user2 in
      let same_tag = same_test c.by_tag d.by_tag (HasName db.account_tags a.id name) tag tag2 in
      let same_alias = same_test c.by_alias d.by_alias (HasName db.aliases a.id name) nick nick2 in
      let same_character =
        same_test c.by_character d.by_character (HasName db.characters a.id name) character
          character2 in
      cc

  pub is_match_iff :
      (c : LoginCandidate) (a : EqAccount) (name : Text)
      → Tells c a name
      → (is_match v low c ≡ true) ↔ StandsFor a name
  is_match_iff c a name (num, user, tag, nick, character) =
      or_states _ _ user (or_states _ _ tag (or_states _ _ nick character))
