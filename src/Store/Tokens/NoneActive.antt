-- ===== src/Store/Tokens/NoneActive.antt =====
-- What a revocation leaves of the active tokens.
use alfred_identity_backend.Common.{
  ℕ, ◌≡◌, inl, inr, subst, Bool, false, List, map, In, In-map_inv, arith, Bool-cases,
}
use alfred_identity_backend.Store.Db.{ApiToken}
use alfred_identity_backend.Store.Tokens.{is_active_of, revoke_row}

-- No token of the user is active.
abbrev pub NoneActive : ℕ → List ApiToken → Type 0
NoneActive user_id ts = (t : ApiToken) → In t ts → is_active_of user_id t ≡ false

-- A row that is active after a revocation is an old row that the revocation left.
pub active_after :
    (p : ApiToken → Bool) (ts : List ApiToken) (t : ApiToken)
    → In t (map (revoke_row p) ts)
    → t.revoked ≡ false
    → In t ts × (p t ≡ false)
active_after p ts t h a =
    let (s, i, e) = In-map_inv (revoke_row p) t ts h in
    elim (Bool-cases (p s)) [
      | inl hit ↦ ground (arith, hit)
      | inr miss ↦
          let same : s ≡ t = ground arith in
          (subst (λ r. In r ts) same i, subst (λ r. p r ≡ false) same miss)
    ]

pub revoked-NoneActive :
    (user_id : ℕ) (ts : List ApiToken)
    → NoneActive user_id (map (revoke_row (is_active_of user_id)) ts)
revoked-NoneActive user_id ts t h = elim (Bool-cases t.revoked) [
  | inl dead ↦ ground arith
  | inr alive ↦ (active_after (is_active_of user_id) ts t h alive).1
]
