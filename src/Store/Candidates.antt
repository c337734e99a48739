-- ===== src/Store/Candidates.antt =====
-- internal/store/store.go: ResolveLoginCandidates, the accounts that a typed name may stand for.
pub mod Rows
pub mod Laws
use alfred_identity_backend.Common.{
  ℕ, Bool, true, false, not, ◌&&◌, ◌||◌, List, [], ◌∷◌, map, ◌==◌, if◌then◌else◌, Text, text_eq,
  any, keep, length,
}
use alfred_identity_backend.Common.Sort.{sort_by_id}
use alfred_identity_backend.Common.Strings.{trim_space, Lowering}
use alfred_identity_backend.Crypto.Aead.{Vault}
use alfred_identity_backend.Store.Db.{Db, M, User, EqAccount, AccountName, ◌>>=◌, return, query}
use alfred_identity_backend.Store.Access.{allowed_account_ids, account_id}

pub record LoginCandidate : Type 0 where
  pub id : ℕ
  pub by_user : Bool
  pub by_tag : Bool
  pub by_alias : Bool
  pub by_character : Bool

unfoldable pub direct : LoginCandidate → Bool
direct c = c.by_user || (c.by_alias || c.by_character)

module _ (v : Vault) (low : Lowering) where
  -- `EXISTS (SELECT 1 FROM … WHERE eq_account_id=a.id AND lower(name)=lower($1))`
  abbrev pub has_name : List AccountName → ℕ → Text → Bool
  has_name rows account name =
      any
        (λ (n : AccountName).
          n.eq_account_id == account && text_eq (low.sql_lower n.name) (low.sql_lower name))
        rows

  -- The selected columns, for a name that is trimmed.
  unfoldable pub candidate_of : Db → Text → EqAccount → LoginCandidate
  candidate_of db name a = record {
    id = a.id;
    by_user = text_eq a.username_blind (v.blind_index (low.to_lower name));
    by_tag = has_name db.account_tags a.id name;
    by_alias = has_name db.aliases a.id name;
    by_character = has_name db.characters a.id name;
  }

  abbrev pub is_match : LoginCandidate → Bool
  is_match c = c.by_user || (c.by_tag || (c.by_alias || c.by_character))

  -- The WHERE clause.
  abbrev pub is_selected : Db → List ℕ → Text → EqAccount → Bool
  is_selected db allowed name a =
      not a.disabled && (any (λ id. id == a.id) allowed && is_match (candidate_of db name a))

  abbrev pub select_candidates : List ℕ → Text → Db → List LoginCandidate
  select_candidates allowed name db =
      map (candidate_of db name)
        (sort_by_id account_id (keep (is_selected db allowed name) db.eq_accounts))

  unfoldable pub resolve_login_candidates : ℕ → Text → M (List LoginCandidate)
  resolve_login_candidates user_id typed = do
    allowed ← allowed_account_ids user_id
    let name = trim_space typed
    if length allowed == 0 || text_eq name []
        then return []
        else query (select_candidates allowed name)
