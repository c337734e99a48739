-- ===== src/Sso/Session/Stranger.antt =====
-- A connection without a valid token.
use alfred_identity_backend.Common.{
  ◌≡◌, refl, sym, ◌∙◌, subst, false, List, [], ◌∷◌, ◌++◌, none, some, inl, inr, Text, codes, All,
  arith, Bool-cases,
}
use alfred_identity_backend.Store.Db.{Error, err}
use alfred_identity_backend.Store.Tokens.{user_by_token}
use alfred_identity_backend.Sso.Splice.{Setup}
use alfred_identity_backend.Sso.Clients.{Server, Conn, failed}
use alfred_identity_backend.Sso.Manage.{handle_admin}
use alfred_identity_backend.Sso.Sharing.{handle_share}
use alfred_identity_backend.Sso.Session.{
  Frame, invalid_json, get_state, pong, ping, unknown_type, auth, login_auth, login_relay_up,
  login_splice, heartbeat, share, admin, Reply, error, share_result, admin_result, close, sign_in,
  receive, serve,
}

-- Nobody has signed in on the connection.
abbrev pub IsStranger : Conn → Type 0
IsStranger c = (c.authed ≡ false) × (c.client ≡ none)

module _ (s : Setup) where
  -- The message brings no token that names a user.
  abbrev pub BringsNoToken : Server s → Frame s → Type 0
  BringsNoToken v (auth (some msg)) =
      (e : Error) × ((user_by_token s.vault msg.token v.hub.db).0 ≡ err e)
  BringsNoToken v f = Unit {0}

  -- An answer that tells nothing: an error, or a request that was refused.
  abbrev pub IsRefusal : Reply s → Type 0
  IsRefusal (error text) = Unit {0}
  IsRefusal (share_result r) = (code : Text) × (r ≡ failed code)
  IsRefusal (admin_result r) = (code : Text) × (r ≡ failed code)
  IsRefusal r = ⊥

  round_lem :
      (v : Server s) (c : Conn) (f : Frame s)
      → IsStranger c
      → BringsNoToken v f
      → ((receive s v c f).0 ≡ v)
        × IsStranger (receive s v c f).1
        × All IsRefusal (receive s v c f).2
  unfolding receive sign_in close handle_share handle_admin
  round_lem v c invalid_json h b = ground arith
  round_lem v c get_state h b = ground arith
  round_lem v c pong h b = ground arith
  round_lem v c ping h b = ground arith
  round_lem v c unknown_type h b = ground arith
  round_lem v c (auth none) h b = ground arith
  round_lem v c (auth (some msg)) h (e, refused) = ground (arith, refused)
  round_lem v c (login_auth m) h b = ground arith
  round_lem v c (login_relay_up d m) h b = ground arith
  round_lem v c (login_splice m) h b = ground arith
  round_lem v c (heartbeat m) h b = ground arith
  round_lem v c (share m) h b =
      (ground arith, ground arith, ((codes "unauthorized", ground arith), tt))
  round_lem v c (admin m) h b =
      (ground arith, ground arith, ((codes "unauthorized", ground arith), tt))

  All-append :
      (xs ys : List (Reply s)) → All IsRefusal xs → All IsRefusal ys → All IsRefusal (xs ++ ys)
  All-append [] ys p q = q
  All-append (x ∷ xs) ys p q = (p.0, All-append xs ys p.1 q)

  -- A connection that is not signed in, and none of whose messages brings a token that names a
  -- user, leaves the whole server as it was, stays not signed in, and is answered only with errors
  -- and refusals.
  pub serve-IsStranger :
      (v : Server s) (c : Conn) (fs : List (Frame s))
      → IsStranger c
      → All (BringsNoToken v) fs
      → ((serve s v c fs).0 ≡ v) × IsStranger (serve s v c fs).1 × All IsRefusal (serve s v c fs).2
  unfolding serve
  serve-IsStranger v c [] h b = (refl, h, tt)
  serve-IsStranger v c (f ∷ fs) h b = elim (Bool-cases c.closed) [
    | inl shut ↦ rw (shut, serve) (refl, h, tt)
    | inr up ↦
        let (same, stranger, refused) = round_lem v c f h b.0 in
        let (same_after, stranger_after, refused_after) =
          serve-IsStranger (receive s v c f).0 (receive s v c f).1 fs stranger
            (subst (λ (w : Server s). All (BringsNoToken w) fs) (sym same) b.1) in
        rw (up, serve)
          (
            same_after ∙ same,
            stranger_after,
            All-append (receive s v c f).2 _ refused refused_after,
          )
  ]
