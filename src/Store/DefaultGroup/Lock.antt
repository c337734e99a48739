-- ===== src/Store/DefaultGroup/Lock.antt =====
-- The default group keeps to its base permissions.
use alfred_identity_backend.Common.{
  ℕ, ◌≡◌, ◌⊎◌, inl, inr, refl, sym, ◌∙◌, ap, subst, true, not, ◌&&◌, List, [], some, ◌==◌,
  if◌then◌else◌, Text, text_eq, any, In, none, In-map_inv, In-keep_inv, arith, Bool-cases,
  Option-cases,
}
use alfred_identity_backend.Common.Strings.{trim_space, Lowering}
use alfred_identity_backend.Store.Db.{
  Db, AccountGroup, Error, ok, err, unknown_command, Result-cases,
}
use alfred_identity_backend.Store.Commands.{normal_commands, sort_texts, normalize_discord_commands}
use alfred_identity_backend.Store.DefaultGroup.{
  default_group_name, default_commands, normalize_web_role, is_default_group_name, is_default_group,
  find_group_id_by_name, insert_group, create_group, update_group, sync_default_group_base_perms,
  write_group, written, update_group_meta, delete_group,
}

module _ (low : Lowering) where
  -- No group with the name of the default group gives a web role.
  abbrev pub Locked : Db → Type 0
  Locked db =
      (g : AccountGroup)
      → In g db.account_groups
      → is_default_group_name low g.name ≡ true
      → g.web_role ≡ []

  update_group-Locked :
      (group : ℕ) (f : AccountGroup → AccountGroup) (db : Db)
      → ((g : AccountGroup) → is_default_group_name low (f g).name ≡ true → (f g).web_role ≡ [])
      → Locked db
      → Locked (update_group low group f db)
  update_group-Locked group f db fine locked g i named =
      let (h, j, e) =
        In-map_inv (λ (g : AccountGroup). if g.id == group then f g else g) g db.account_groups i in
      elim (Bool-cases (h.id == group)) [
        | inl hit ↦
            let q : f h ≡ g = ground arith in
            subst (λ (x : AccountGroup). x.web_role ≡ []) q
              (fine h (
                subst (λ (x : AccountGroup). is_default_group_name low x.name ≡ true) (sym q)
                  named))
        | inr miss ↦
            let q : h ≡ g = ground arith in
            subst (λ (x : AccountGroup). x.web_role ≡ []) q
              (locked h j (
                subst (λ (x : AccountGroup). is_default_group_name low x.name ≡ true) (sym q)
                  named))
      ]

  write_group-Locked :
      (group : ℕ) (name description role : Text) (keys : List Text) (db : Db)
      → (is_default_group_name low name ≡ true → role ≡ [])
      → Locked db
      → Locked (write_group low group name description role keys db).1
  unfolding write_group
  write_group-Locked group name description role keys db fine locked =
      elim (Bool-cases (any (λ (g : AccountGroup). g.id == group) db.account_groups)) [
        | inr unknown ↦ rw (unknown, write_group) locked
        | inl known ↦
            elim (Bool-cases (
              any (λ (g : AccountGroup). text_eq g.name name && not (g.id == group))
                db.account_groups)) [
                  | inl taken ↦ rw (known, taken, write_group) locked
                  | inr free ↦
                      rw (known, free, write_group)
                        (update_group-Locked group _ db (λ g named. fine named) locked)
                ]
      ]

  -- The commands are checked without writing.
  keys_checked :
      (commands : List Text) (db : Db)
      → ((keys : List Text) × (normalize_discord_commands low commands db ≡ (ok keys, db)))
        ⊎ ((e : Error) × (normalize_discord_commands low commands db ≡ (err e, db)))
  unfolding normalize_discord_commands
  keys_checked commands db = elim (Option-cases (normal_commands low [] commands)) [
    | inl e ↦ inr (unknown_command, ground arith)
    | inr (keys, e) ↦ inl (sort_texts keys, ground arith)
  ]

  written-Locked :
      (group : ℕ) (name description web_role : Text) (commands : List Text) (db : Db)
      → ((r : Text)
          → normalize_web_role low web_role ≡ ok r
          → is_default_group_name low name ≡ true
          → r ≡ [])
      → Locked db
      → Locked (written low group name description web_role commands db).1
  unfolding written
  written-Locked group name description web_role commands db fine locked =
      elim (Result-cases (normalize_web_role low web_role)) [
        | inr (e, bad) ↦ rw (bad, written) locked
        | inl (r, role) ↦ elim (keys_checked commands db) [
          | inr (e, bad) ↦ rw (role, bad, written) locked
          | inl (keys, good) ↦
              rw (role, good, written)
                (write_group-Locked group name description r keys db (fine r role) locked)
        ]
      ]

  normalize_nothing : low.to_lower [] ≡ [] → normalize_web_role low [] ≡ ok []
  unfolding normalize_web_role trim_space
  normalize_nothing nothing = rw nothing refl

  insert_group-Locked :
      (name description : Text) (keys : List Text) (role : Text) (db : Db)
      → (is_default_group_name low name ≡ true → role ≡ [])
      → Locked db
      → Locked (insert_group low name description role keys db).1
  unfolding insert_group
  insert_group-Locked name description keys role db fine locked =
      elim (Bool-cases (any (λ (g : AccountGroup). text_eq g.name name) db.account_groups)) [
        | inl taken ↦ rw (taken, insert_group) locked
        | inr free ↦
            rw (free, insert_group)
              (λ g i named. elim i [
                | inl new ↦
                    ap (λ (x : AccountGroup). x.web_role) (sym new)
                    ∙ fine (
                        subst (λ (x : AccountGroup). is_default_group_name low x.name ≡ true)
                          (sym new) named)
                | inr old ↦ locked g old named
              ])
      ]

  -- With a default group present, its name is refused, so a new group does not have it.
  create_group-Locked :
      (raw description web_role : Text) (commands : List Text) (db : Db) (id : ℕ)
      → find_group_id_by_name low default_group_name db ≡ some id
      → Locked db
      → Locked (create_group low raw description web_role commands db).1
  unfolding create_group
  create_group-Locked raw description web_role commands db id present locked =
      elim (Bool-cases (text_eq (trim_space raw) [])) [
        | inl blank ↦ rw blank locked
        | inr filled ↦ elim (Bool-cases (is_default_group_name low (trim_space raw))) [
          | inl reserved ↦ rw filled (rw present (rw reserved locked))
          | inr other ↦ elim (Result-cases (normalize_web_role low web_role)) [
            | inr (e, bad) ↦ rw filled (rw present (rw other (rw bad locked)))
            | inl (r, role) ↦ elim (keys_checked commands db) [
              | inr (e, bad) ↦ rw filled (rw present (rw other (rw role (rw bad locked))))
              | inl (keys, good) ↦ rw filled (
                  rw present (
                    rw other (
                      rw role (
                        rw good (
                          insert_group-Locked (trim_space raw) description keys r db
                            (λ named. absurd (ground arith)) locked)))))
            ]
          ]
        ]
      ]

  update_group_meta-Locked :
      (group : ℕ) (raw description web_role : Text) (commands : List Text) (db : Db)
      → low.to_lower [] ≡ []
      → Locked db
      → Locked (update_group_meta low group raw description web_role commands db).1
  unfolding update_group_meta
  update_group_meta-Locked group raw description web_role commands db nothing locked =
      elim (Bool-cases (is_default_group low group db)) [
        | inl default ↦ rw default (
            written-Locked group default_group_name description [] default_commands db
              (λ r e named. ground (arith, normalize_nothing nothing)) locked)
        | inr ordinary ↦ elim (Bool-cases (text_eq (trim_space raw) [])) [
          | inl blank ↦ rw ordinary (rw blank locked)
          | inr filled ↦ elim (Bool-cases (is_default_group_name low (trim_space raw))) [
            | inl reserved ↦ rw ordinary (rw filled (rw reserved locked))
            | inr other ↦ rw ordinary (
                rw filled (
                  rw other (
                    written-Locked group (trim_space raw) description web_role commands db
                      (λ r e named. absurd (ground arith)) locked)))
          ]
        ]
      ]

  delete_group-Locked : (group : ℕ) (db : Db) → Locked db → Locked (delete_group low group db).1
  unfolding delete_group
  delete_group-Locked group db locked = elim (Bool-cases (is_default_group low group db)) [
    | inl default ↦ rw (default, delete_group) locked
    | inr ordinary ↦
        elim (Bool-cases (any (λ (g : AccountGroup). g.id == group) db.account_groups)) [
          | inr unknown ↦ rw (ordinary, unknown, delete_group) locked
          | inl known ↦
              rw (ordinary, known, delete_group)
                (λ g i.
                  locked g
                    (In-keep_inv (λ (x : AccountGroup). not (x.id == group)) g db.account_groups
                      i).0)
        ]
  ]

  sync-Locked :
      (group : ℕ) (db : Db) → Locked db → Locked (sync_default_group_base_perms low group db).1
  unfolding sync_default_group_base_perms
  sync-Locked group db locked = elim (keys_checked default_commands db) [
    | inr (e, bad) ↦ rw bad locked
    | inl (keys, good) ↦ rw good (update_group-Locked group _ db (λ g named. refl) locked)
  ]

  -- If no group with the default group's name gives a web role, this still holds after
  -- UpdateGroupMeta, DeleteGroup and syncDefaultGroupBasePerms, and after CreateGroup while
  -- FindGroupIDByName finds a default group, whether they succeed or fail; lower case of the empty
  -- text must be empty.
  pub default_group-Locked :
      (group : ℕ) (name description web_role : Text) (commands : List Text) (db : Db)
      → low.to_lower [] ≡ []
      → Locked db
      → Locked (update_group_meta low group name description web_role commands db).1
        × Locked (delete_group low group db).1
        × Locked (sync_default_group_base_perms low group db).1
        × ((find_group_id_by_name low default_group_name db ≡ none)
            ⊎ Locked (create_group low name description web_role commands db).1)
  default_group-Locked group name description web_role commands db nothing locked = (
    update_group_meta-Locked group name description web_role commands db nothing locked,
    delete_group-Locked group db locked,
    sync-Locked group db locked,
    elim (Option-cases (find_group_id_by_name low default_group_name db)) [
      | inl absent ↦ inl absent
      | inr (id, present) ↦
          inr (create_group-Locked name description web_role commands db id present locked)
    ],
  )
