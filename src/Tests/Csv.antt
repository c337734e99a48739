-- ===== src/Tests/Csv.antt =====
-- Tests of the import and the export of accounts.
use alfred_identity_backend.Common.{
  ◌≡◌, refl, inl, inr, true, false, List, [], ◌∷◌, map, All, Text, codes, In,
}
use alfred_identity_backend.Common.CsvFormat.{write_all}
use alfred_identity_backend.Common.CsvFormat.Fields.{Plain}
use alfred_identity_backend.Common.Strings.{trim_space}
use alfred_identity_backend.Common.Decimal.{join}
use alfred_identity_backend.Crypto.Aead.{open_blob}
use alfred_identity_backend.Store.Credentials.{decrypt_credentials}
use alfred_identity_backend.Web.Csv.{
  SsoCsvRow, EqAccountMeta, parsed, parse_sso_accounts_csv, columns, export_rows, export_row,
  other_aliases, role_label,
}
use alfred_identity_backend.Web.Csv.Import.{Import, import_rows, start}
use alfred_identity_backend.Web.Csv.Kept.{IsSettled, import_rows-IsSettled}
use alfred_identity_backend.Web.Csv.Growth.{Grows}
use alfred_identity_backend.Web.Csv.Steps.{counted}
use alfred_identity_backend.Web.Csv.Private.{IsOpen, export_rows-IsOpen}
use alfred_identity_backend.Web.Csv.RoundTrip.{fields_of, IsWritable, parse-write_all}
use alfred_identity_backend.Tests.Data.{ascii, plain_vault, small}

abbrev bob_row : SsoCsvRow
bob_row = record {
  username = codes "bob";
  password = codes "p,\"w";
  role = [];
  aliases = codes "tank" ∷ codes "al" ∷ [];
  tags = [];
  characters = codes "Bobbin" ∷ [];
  line = 2;
}

abbrev new_user : SsoCsvRow
new_user = record bob_row { username = codes "cleric"; aliases = []; characters = []; line = 3 }

bob_row-IsWritable : IsWritable ascii bob_row
bob_row-IsWritable = (
  (refl, refl),
  inr (refl, refl),
  inl refl,
  ((((refl, refl), refl), (((refl, refl), refl), tt)), (refl, (refl, tt))),
  (tt, tt),
  ((((refl, refl), refl), tt), (refl, tt)),
)

new_user-IsWritable : IsWritable ascii new_user
new_user-IsWritable = ((refl, refl), inr (refl, refl), inl refl, (tt, tt), (tt, tt), (tt, tt))

both-IsWritable : All (IsWritable ascii) (bob_row ∷ new_user ∷ [])
both-IsWritable = (bob_row-IsWritable, (new_user-IsWritable, tt))

both-Plain : All (All Plain) (map (fields_of ascii) (bob_row ∷ new_user ∷ []))
unfolding join
both-Plain = (
  (refl, (refl, (refl, (refl, (refl, (refl, tt)))))),
  ((refl, (refl, (refl, (refl, (refl, (refl, tt)))))), tt),
)

parse-write_all_example :
    parse_sso_accounts_csv ascii
      (write_all (columns ∷ map (fields_of ascii) (bob_row ∷ new_user ∷ [])))
    ≡ parsed (bob_row ∷ new_user ∷ [])
parse-write_all_example =
    parse-write_all ascii bob_row (new_user ∷ []) refl both-IsWritable both-Plain

-- Raiders are not a known role, so the last row is given up.
abbrev rows : List SsoCsvRow
rows = bob_row ∷ new_user ∷ record bob_row { role = codes "raiders"; line = 4 } ∷ []

abbrev imported : Import
imported =
    import_rows plain_vault ascii (λ n. 9 ∷ []) (λ c. false) (λ t. t) [] rows
      (start plain_vault ascii (λ n. 9 ∷ []) (λ c. false) (λ t. t) [] small)

import_rows-IsSettled_example :
    ((row : SsoCsvRow) → In row rows → IsSettled plain_vault ascii (λ n. 9 ∷ []) row imported)
    × (counted imported ≡ 3)
    × Grows small imported.db
import_rows-IsSettled_example =
    import_rows-IsSettled plain_vault ascii (λ n. 9 ∷ []) (λ c. false) (λ t. t) [] rows small

abbrev box_meta : EqAccountMeta
box_meta = record {
  id = 3;
  username = codes "bob";
  restricted = false;
  required_role_id = codes "raid";
  required_role_ids = codes "raid" ∷ [];
  aliases = codes "tank" ∷ [];
  tags = [];
  characters = [];
}

abbrev metas : List EqAccountMeta
metas = box_meta ∷ record box_meta { id = 4; restricted = true } ∷ []

abbrev box_record : List Text
box_record = codes "bob" ∷ codes "pw" ∷ codes "raid" ∷ codes "tank" ∷ [] ∷ [] ∷ []

is_exported : In box_record (export_rows plain_vault ascii small true [] metas)
unfolding export_rows export_row decrypt_credentials open_blob other_aliases role_label trim_space
    join
is_exported = inl refl

export_rows-IsOpen_example :
    (m : EqAccountMeta) × In m metas × IsOpen plain_vault ascii small true [] m box_record
export_rows-IsOpen_example =
    export_rows-IsOpen plain_vault ascii small true [] metas box_record is_exported
