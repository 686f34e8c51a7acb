-- ===== src/Migration/Schema.antt =====
-- A schema of PostgreSQL, and the statements of the migrations on it. A statement that the server refuses
-- gives nothing: a name that is taken or missing, a reference to a table that is missing, or a table that
-- another one refers to.
use mathlib.Core.Option
use eq_site_cms_vk_service.Text.{Text, text_eq, codes}
use eq_site_cms_vk_service.Shared.{
  Bool, true, false, not, ◌||◌, ◌&&◌, Option, none, some, List, [], ◌∷◌, any, select, ℕ,
  if◌then◌else◌,
}

pub data ColumnType : Type 0 where
  uuid big_integer integer date_time jsonb : ColumnType
  string : ℕ → ColumnType

pub record Column : Type 0 where
  pub name : Text
  pub column_type : ColumnType
  pub primary_key : Bool
  pub nullable : Bool
  pub server_default : Option Text

pub data Constraint : Type 0 where
  foreign_key : Text → Text → Text → Constraint
  unique : Text → List Text → Constraint
  check : Text → Text → Constraint

pub record Table : Type 0 where
  pub name : Text
  pub columns : List Column
  pub constraints : List Constraint

pub record Index : Type 0 where
  pub name : Text
  pub table : Text
  pub column : Text
  pub is_unique : Bool
  pub condition : Option Text

pub record Schema : Type 0 where
  pub tables : List Table
  pub indexes : List Index

abbrev pub has_table : Text → Schema → Bool
has_table name s = any (λ t. text_eq t.name name) s.tables

abbrev pub has_index : Text → Schema → Bool
has_index name s = any (λ i. text_eq i.name name) s.indexes

abbrev pub refers_to : Text → Constraint → Bool
refers_to name (foreign_key _ table _) = text_eq table name
refers_to name _ = false

abbrev pub is_referenced : Text → Schema → Bool
is_referenced name s = any (λ t. any (refers_to name) t.constraints) s.tables

abbrev pub is_dangling : Schema → Constraint → Bool
is_dangling s (foreign_key _ table _) = not (has_table table s)
is_dangling s _ = false

unfoldable pub remove_table : Text → List Table → List Table
remove_table name [] = []
remove_table name (t ∷ rest) =
    let later = remove_table name rest in if text_eq t.name name then rest else t ∷ later

unfoldable pub remove_index : Text → List Index → List Index
remove_index name [] = []
remove_index name (i ∷ rest) =
    let later = remove_index name rest in if text_eq i.name name then rest else i ∷ later

unfoldable pub create_table : Table → Schema → Option Schema
create_table t s =
    if has_table t.name s || any (is_dangling s) t.constraints
    then none
    else some (record s { tables = t ∷ s.tables })

unfoldable pub create_index : Index → Schema → Option Schema
create_index i s =
    if has_index i.name s || not (has_table i.table s)
    then none
    else some (record s { indexes = i ∷ s.indexes })

unfoldable pub drop_index : Text → Schema → Option Schema
drop_index name s =
    if has_index name s then some (record s { indexes = remove_index name s.indexes }) else none

-- The indexes of a table go with it.
unfoldable pub drop_table : Text → Schema → Option Schema
drop_table name s =
    if has_table name s && not (is_referenced name s)
    then some (record s {
      tables = remove_table name s.tables;
      indexes = select (λ i. not (text_eq i.table name)) s.indexes;
    })
    else none

abbrev pub Statement : Type 0
Statement = Schema → Option Schema

-- The statements of a migration, in one transaction.
unfoldable pub execute : List Statement → Statement
execute [] s = some s
execute (statement ∷ rest) s = Option.bind (statement s) (execute rest)

-- A column, a primary key, and a column with a default.
abbrev pub column : Text → ColumnType → Bool → Option Text → Column
column name column_type nullable server_default = record {
  name = name;
  column_type = column_type;
  primary_key = false;
  nullable = nullable;
  server_default = server_default;
}

abbrev pub id_column : Column
id_column = record {
  name = codes "id";
  column_type = uuid;
  primary_key = true;
  nullable = false;
  server_default = some (codes "gen_random_uuid()");
}
