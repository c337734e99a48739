-- ===== src/Tests/Presences.antt =====
-- Tests of the tracker of who is online.
use alfred_identity_backend.Common.{List, sym, ap, ◌∙◌, inl, inr, [], ◌∷◌, codes, arith}
use alfred_identity_backend.Presence.{Tracker, Entry}
use alfred_identity_backend.Presence.View.{IsValid}
use alfred_identity_backend.Presence.SingleBox.{SingleBox}
use alfred_identity_backend.Presence.Refinement.{Call, touched, cleared, switched, asked, listed}

abbrev ann : Entry
ann = record { account_id = 3; character_name = codes "Annika"; user_id = 7; last_seen = 100 }

abbrev bob : Entry
bob = record { account_id = 4; character_name = codes "Bobbin"; user_id = 8; last_seen = 90 }

-- Two users online, with a time to live of 60.
abbrev pub pair : Tracker
pair = record { ttl = 60; m = (3, ann) ∷ (4, bob) ∷ [] }

pub pair-IsValid : IsValid pair
pair-IsValid = (((λ e. omega arith), tt), (tt, tt))

pub pair-SingleBox : SingleBox pair
pair-SingleBox p q (inl i) (inl j) e = ap (λ x. x.0) (sym i ∙ j)
pair-SingleBox p q (inr (inl i)) (inr (inl j)) e = ap (λ x. x.0) (sym i ∙ j)
pair-SingleBox p q (inl i) (inr (inl j)) e =
    absurd (omega (arith, ap (λ x. x.1.user_id) i, ap (λ x. x.1.user_id) j, e))
pair-SingleBox p q (inr (inl i)) (inl j) e =
    absurd (omega (arith, ap (λ x. x.1.user_id) i, ap (λ x. x.1.user_id) j, e))
pair-SingleBox p q (inr (inr i)) j e = absurd i
pair-SingleBox p q i (inr (inr j)) e = absurd j

-- The user of account 3 moves to account 5, and account 3 is free then.
abbrev calls : List Call
calls = asked 3 ∷ switched 7 5 ∷ touched 5 (codes "Cy") 7 ∷ listed ∷ asked 3 ∷ cleared 4 ∷ []
