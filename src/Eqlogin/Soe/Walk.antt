-- ===== src/Eqlogin/Soe/Walk.antt =====
-- `walkAppOpcodes` ends, and finds exactly the opcodes that a packet carries, nested or not.
use alfred_identity_backend.Common.{
  ℕ, zero, suc, ◌≤◌, ◌<◌, ◌≡◌, ◌↔◌, ◌⊎◌, inl, inr, refl, Bool, true, [], ◌∷◌, length, take, drop,
  arith, length-take, length-drop, ◌∙◌, Option, none, some, false,
}
use alfred_identity_backend.Common.Bytes.{Bytes, le16}
use alfred_identity_backend.Eqlogin.Soe.{
  transport_opcode, found_or, walk, combined_loop, walk_app_opcodes, op_packet, op_combined,
}
use alfred_identity_backend.Eqlogin.Soe.Ends.{combined_length, walk_fuel, walk_ends}

-- `s` is one of the length-prefixed parts that can be read from the front of `rest`.
pub data Part (s : Bytes) : Bytes → Type 0 where
  here : {n : ℕ} {rest : Bytes} → 0 < n → n ≤ length rest → s ≡ take n rest → Part s (n ∷ rest)
  there :
      {n : ℕ} {rest : Bytes} → 0 < n → n ≤ length rest → Part s (drop n rest) → Part s (n ∷ rest)

-- A packet carries an application opcode itself, or in a part of a combined packet.
pub data Carries (app : ℕ) : Bytes → Type 0 where
  direct :
      {pkt : Bytes}
      → transport_opcode pkt ≡ op_packet
      → 6 ≤ length pkt
      → app ≡ le16 pkt 4
      → Carries app pkt
  nested :
      {pkt : Bytes} (s : Bytes)
      → transport_opcode pkt ≡ op_combined
      → Part s (drop 2 pkt)
      → Carries app s
      → Carries app pkt

abbrev Found : (ℕ → Bool) → Bytes → Type 0
Found fn pkt = (app : ℕ) × Carries app pkt × (fn app ≡ true)

abbrev FoundIn : (ℕ → Bool) → Bytes → Type 0
FoundIn fn rest = (s : Bytes) × Part s rest × Found fn s

found_or-true :
    (found later : Option Bool)
    → found_or found later ≡ some true
    → (found ≡ some true) ⊎ (later ≡ some true)
found_or-true none later h = cc
found_or-true (some true) later h = inl refl
found_or-true (some false) later h = inr h

found_or_later :
    (b : Bool) (found later : Option Bool)
    → found ≡ some b
    → later ≡ some true
    → found_or found later ≡ some true
found_or_later true found later e h = rw e refl
found_or_later false found later e h = rw e h

walk_step_true :
    (fn : ℕ → Bool) (f : ℕ) (pkt : Bytes)
    → walk fn (suc f) pkt ≡ some true
    → ((transport_opcode pkt ≡ op_packet) × (6 ≤ length pkt) × (fn (le16 pkt 4) ≡ true))
      ⊎ ((transport_opcode pkt ≡ op_combined) × (combined_loop fn f (drop 2 pkt) ≡ some true))
unfolding walk
walk_step_true fn f pkt h = ground arith

combined_step_true :
    (fn : ℕ → Bool) (f n : ℕ) (rest : Bytes)
    → combined_loop fn (suc f) (n ∷ rest) ≡ some true
    → (0 < n)
      × (n ≤ length rest)
      × ((walk fn f (take n rest) ≡ some true) ⊎ (combined_loop fn f (drop n rest) ≡ some true))
unfolding combined_loop
combined_step_true fn f n rest h = (ground arith, ground arith, found_or-true _ _ (ground arith))

mutual
  unfolding walk combined_loop

  walk_sound : (fn : ℕ → Bool) (f : ℕ) (pkt : Bytes) → walk fn f pkt ≡ some true → Found fn pkt
  walk_sound fn zero pkt h = cc
  walk_sound fn (suc f) pkt h = elim (walk_step_true fn f pkt h) [
    | inl (op, len, hit) ↦ (le16 pkt 4, direct op len refl, hit)
    | inr (op, hit) ↦
        let (s, part, found) = combined_sound fn f (drop 2 pkt) hit in
        (found.0, nested s op part found.1, found.2)
  ]

  combined_sound :
      (fn : ℕ → Bool) (f : ℕ) (rest : Bytes) → combined_loop fn f rest ≡ some true → FoundIn fn rest
  combined_sound fn zero rest h = cc
  combined_sound fn (suc f) [] h = cc
  combined_sound fn (suc f) (n ∷ rest) h =
      let (pos, fits, hit) = combined_step_true fn f n rest h in
      elim hit [
        | inl now ↦ (take n rest, here pos fits refl, walk_sound fn f (take n rest) now)
        | inr later ↦
            let (s, part, found) = combined_sound fn f (drop n rest) later in
            (s, there pos fits part, found)
      ]

Part-found :
    (fn : ℕ → Bool) (f : ℕ) {s rest : Bytes}
    → Part s rest
    → ((g : ℕ) → length s < g → walk fn g s ≡ some true)
    → length rest < f
    → combined_loop fn f rest ≡ some true
unfolding combined_loop
Part-found fn zero p w h = elim h [ ]
Part-found fn (suc f) (here {n = n} {rest = rest} pos fits e) w h =
    let hit : walk fn f (take n rest) ≡ some true =
      rw (← e) (w f (rw e (omega (arith, length-take n rest fits)))) in
    ground arith
Part-found fn (suc f) (there {n = n} {rest = rest} pos fits p) w h =
    let hit : combined_loop fn f (drop n rest) ≡ some true =
      Part-found fn f p w (omega (arith, length-drop n rest)) in
    let (b, e) = walk_ends fn f (take n rest) (omega (arith, length-take n rest fits)) in
    ground
      (arith, found_or_later b (walk fn f (take n rest)) (combined_loop fn f (drop n rest)) e hit)

carried_found :
    (fn : ℕ → Bool) {app : ℕ} {pkt : Bytes}
    → Carries app pkt
    → fn app ≡ true
    → (f : ℕ) → length pkt < f
    → walk fn f pkt ≡ some true
unfolding walk
carried_found fn c e zero h = elim h [ ]
carried_found fn (direct op len eq) e (suc f) h = ground arith
carried_found fn (nested {pkt = pkt} s op part c) e (suc f) h =
    let hit : combined_loop fn f (drop 2 pkt) ≡ some true =
      Part-found fn f part (carried_found fn c e) (omega (arith, combined_length pkt op)) in
    ground arith

-- walkAppOpcodes, with fuel for the length of the packet, answers true exactly when the packet
-- carries, itself or nested in combined packets, an application opcode that passes the test.
pub walk_app_opcodes-Carries :
    (pkt : Bytes) (fn : ℕ → Bool)
    → (walk_app_opcodes pkt fn ≡ true) ↔ ((app : ℕ) × Carries app pkt × (fn app ≡ true))
unfolding walk_app_opcodes
walk_app_opcodes-Carries pkt fn =
    let (b, e) = walk_ends fn (suc (length pkt)) pkt (omega arith) in
    (
      λ h. walk_sound fn (suc (length pkt)) pkt (ground arith),
      λ (app, c, hit).
          let there_is : walk fn (suc (length pkt)) pkt ≡ some true =
            carried_found fn c hit (suc (length pkt)) (omega arith) in
          rw (there_is, walk_app_opcodes) refl,
    )

-- walkAppOpcodes ends: with any fuel greater than the length of the packet the walk does not run
-- out of it, and its answer is that of walkAppOpcodes.
pub walk-walk_app_opcodes :
    (pkt : Bytes) (fn : ℕ → Bool) (fuel : ℕ)
    → length pkt < fuel
    → walk fn fuel pkt ≡ some (walk_app_opcodes pkt fn)
unfolding walk_app_opcodes
walk-walk_app_opcodes pkt fn fuel h =
    let (b, e) = walk_ends fn fuel pkt h in
    let same : walk fn (suc (length pkt)) pkt ≡ some b =
      walk_fuel fn (suc (length pkt)) fuel pkt (omega arith) h ∙ e in
    rw (e, same, walk_app_opcodes) refl
