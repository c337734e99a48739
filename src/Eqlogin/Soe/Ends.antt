-- ===== src/Eqlogin/Soe/Ends.antt =====
-- The fuel of the walk through combined packets.
use alfred_identity_backend.Common.{
  ℕ, zero, suc, ◌+◌, ◌≤◌, ◌<◌, ◌≡◌, inl, inr, refl, Bool, true, [], ◌∷◌, length, take, drop, arith,
  length-take, length-drop, Bool-cases, some, false, leb, ltb, ◌&&◌, ◌||◌, ◌==◌, if◌then◌else◌,
}
use alfred_identity_backend.Common.Bytes.{Bytes, le16}
use alfred_identity_backend.Eqlogin.Soe.{
  transport_opcode, found_or, walk, combined_loop, op_packet, op_combined,
}

pub combined_length :
    (pkt : Bytes) → transport_opcode pkt ≡ op_combined → length (drop 2 pkt) + 2 ≡ length pkt
unfolding transport_opcode
combined_length pkt h = ground (arith, length-drop 2 pkt)

-- More fuel than bytes changes nothing.
mutual
  unfolding walk combined_loop

  pub walk_fuel :
      (fn : ℕ → Bool) (f g : ℕ) (pkt : Bytes)
      → length pkt < f
      → length pkt < g
      → walk fn f pkt ≡ walk fn g pkt
  walk_fuel fn zero g pkt h k = elim h [ ]
  walk_fuel fn (suc f) zero pkt h k = elim k [ ]
  walk_fuel fn (suc f) (suc g) pkt h k =
      ground (arith, combined_length pkt, combined_fuel fn f g (drop 2 pkt))

  combined_fuel :
      (fn : ℕ → Bool) (f g : ℕ) (rest : Bytes)
      → length rest < f
      → length rest < g
      → combined_loop fn f rest ≡ combined_loop fn g rest
  combined_fuel fn zero g rest h k = elim h [ ]
  combined_fuel fn (suc f) zero rest h k = elim k [ ]
  combined_fuel fn (suc f) (suc g) [] h k = refl
  combined_fuel fn (suc f) (suc g) (n ∷ rest) h k = ground (
    arith,
    length-take n rest,
    length-drop n rest,
    walk_fuel fn f g (take n rest),
    combined_fuel fn f g (drop n rest),
  )

abbrev either : Bool → Bool → Bool
either b c = if b then true else c

found_or-some : (b c : Bool) → found_or (some b) (some c) ≡ some (either b c)
found_or-some true c = refl
found_or-some false c = refl

-- With more fuel than bytes the walk ends with an answer.
mutual
  unfolding walk combined_loop

  pub walk_ends :
      (fn : ℕ → Bool) (f : ℕ) (pkt : Bytes) → length pkt < f → (b : Bool) × (walk fn f pkt ≡ some b)
  walk_ends fn zero pkt h = elim h [ ]
  walk_ends fn (suc f) pkt h = elim (Bool-cases (transport_opcode pkt == op_packet)) [
    | inl direct_one ↦ (leb 6 (length pkt) && fn (le16 pkt 4), rw direct_one refl)
    | inr other ↦ elim (Bool-cases (transport_opcode pkt == op_combined)) [
      | inl parts ↦
          let (b, e) =
            combined_ends fn f (drop 2 pkt) (omega (arith, combined_length pkt (ground arith))) in
          (b, rw other (rw (parts, e) refl))
      | inr neither ↦ (false, rw other (rw neither refl))
    ]
  ]

  combined_ends :
      (fn : ℕ → Bool) (f : ℕ) (rest : Bytes)
      → length rest < f
      → (b : Bool) × (combined_loop fn f rest ≡ some b)
  combined_ends fn zero rest h = elim h [ ]
  combined_ends fn (suc f) [] h = (false, refl)
  combined_ends fn (suc f) (n ∷ rest) h = elim (Bool-cases (n == 0 || ltb (length rest) n)) [
    | inl stop ↦ (false, rw stop refl)
    | inr fits ↦
        let short : n ≤ length rest = ground arith in
        let (b, e) = walk_ends fn f (take n rest) (omega (arith, length-take n rest short)) in
        let (c, q) = combined_ends fn f (drop n rest) (omega (arith, length-drop n rest)) in
        (either b c, rw fits (rw (e, q) (found_or-some b c)))
  ]
