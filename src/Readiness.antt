-- ===== src/Readiness.antt =====
-- `check_schema_readiness` of src/butterbot/infrastructure/persistence/readiness.py on what the
-- database answers. Hashing and the release's table of hashes are arguments.
pub mod Complete
use butterbot.Checked.{Checked, refused, passed, ◌then◌}
use butterbot.Base.{
  ℕ, String, Bool, true, false, not, ◌&&◌, ◌||◌, Option, none, some, List, [], ◌∷◌, any, all, find?,
  str_eq, if◌then◌else◌, ◌==◌,
}

pub record RevisionContract : Type 0 where
  pub expected : String
  pub known_behind : List String
  pub known_ahead : List String
  pub known_incompatible : List String

abbrev pub default_revision_contract : RevisionContract
default_revision_contract = record {
  expected = "20261005_0009";
  known_behind = [];
  known_ahead = [];
  known_incompatible = [];
}

-- A row of sqlite_master: type, name, table and definition, or a line of the release manifest.
pub record SchemaObject : Type 0 where
  pub kind : String
  pub name : String
  pub table : String
  pub digest : String

pub record SchemaRow : Type 0 where
  pub row_kind : String
  pub row_name : String
  pub row_table : String
  pub sql : Option String

-- What the queries answer; `journal_mode` in lower case, `violation_kind` of the first violation.
pub record DatabaseAnswers : Type 0 where
  pub foreign_keys : ℕ
  pub journal_mode : String
  pub synchronous : ℕ
  pub busy_timeout_ms : ℕ
  pub alembic_table : Bool
  pub revision_rows : List String
  pub schema_rows : List SchemaRow
  pub incomplete_request : Bool
  pub violation_kind : Option String

abbrev pub one_of : String → List String → Bool
one_of s xs = any (str_eq s) xs

unfoldable pub verify_revision : String → RevisionContract → Checked (Unit {0})
verify_revision observed contract =
    if str_eq observed contract.expected
    then passed tt
    else if one_of observed contract.known_behind
    then refused "schema_behind"
    else if one_of observed contract.known_ahead
    then refused "schema_ahead"
    else if one_of observed contract.known_incompatible
    then refused "schema_incompatible"
    else refused "schema_unknown"

-- The objects with a definition, hashed.
unfoldable pub observed_schema : (String → String) → List SchemaRow → List SchemaObject
observed_schema hash [] = []
observed_schema hash (row ∷ rows) =
    let rest = observed_schema hash rows in
    elim row.sql [
      | none ↦ rest
      | some sql ↦
          record {
            kind = row.row_kind;
            name = row.row_name;
            table = row.row_table;
            digest = hash sql;
          }
          ∷ rest
    ]

abbrev pub same_object : SchemaObject → SchemaObject → Bool
same_object a b =
    str_eq a.kind b.kind
    && (str_eq a.name b.name && (str_eq a.table b.table && str_eq a.digest b.digest))

-- Equality of the two dictionaries.
unfoldable pub same_schema : List SchemaObject → List SchemaObject → Bool
same_schema observed released =
    all (λ o. any (same_object o) released) observed
    && all (λ o. any (same_object o) observed) released

unfoldable pub check_pragmas : DatabaseAnswers → Checked (Unit {0})
check_pragmas answers =
    if not (answers.foreign_keys == 1)
      || (not (str_eq answers.journal_mode "wal") || not (answers.synchronous == 2))
    then refused "unsafe_pragmas"
    else if not (answers.busy_timeout_ms == 1000)
    then refused "unsafe_pragmas"
    else passed tt

unfoldable pub the_revision : DatabaseAnswers → Checked String
the_revision answers =
    if not answers.alembic_table then refused "missing_schema" else elim answers.revision_rows [
      | [] ↦ refused "multiple_or_missing_heads"
      | observed ∷ [] ↦ passed observed
      | _ ∷ _ ∷ _ ↦ refused "multiple_or_missing_heads"
    ]

unfoldable pub check_aggregates : DatabaseAnswers → Checked (Unit {0})
check_aggregates answers =
    if answers.incomplete_request
    then refused "incomplete_transport_request"
    else elim answers.violation_kind [
      | none ↦ passed tt
      | some kind ↦
          if str_eq kind "account_without_balance"
          then refused "missing_balance_projection"
          else refused "missing_player_wallet"
    ]

-- The revision that a ready database is at.
unfoldable pub check_schema_readiness :
    (String → String) → List SchemaObject → RevisionContract → DatabaseAnswers → Checked String
check_schema_readiness hash released contract answers = check_pragmas answers then λ _.
    the_revision answers then λ observed. verify_revision observed contract then λ _.
    (if same_schema (observed_schema hash answers.schema_rows) released
      then passed tt
      else refused "integrity_schema_contract")
    then λ (_ : Unit {0}). check_aggregates answers then λ _. passed observed
