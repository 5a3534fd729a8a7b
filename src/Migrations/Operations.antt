-- ===== src/Migrations/Operations.antt =====
-- The operations of Alembic that the migrations call, as data, and what a database does with them.
use seemsim_esim_gateway.Prelude.{
  ℕ, String, Bool, true, false, Option, none, some, List, [], ◌∷◌, ◌≡◌, ◌≢◌, if◌then◌else◌, ◌==◌,
}
use seemsim_esim_gateway.Exec.{Result, ok, err}

-- The types of SQLAlchemy; every `DateTime` has `timezone=True`.
pub data ColumnType : Type 0 where
  string : ℕ → ColumnType
  text boolean timestamp integer big_integer jsonb : ColumnType
  numeric : ℕ → ℕ → ColumnType

-- `server_default`: a value, or an SQL expression.
pub data Default : Type 0 where
  literal sql : String → Default

-- `sa.Column`
pub record Column : Type 0 where
  pub name : String
  pub type : ColumnType
  pub primary_key : Bool
  pub nullable : Bool
  pub is_unique : Bool
  pub server_default : Option Default

-- `primary_key=True`
abbrev pub primary : String → ColumnType → Column
primary name type = record {
  name = name;
  type = type;
  primary_key = true;
  nullable = false;
  is_unique = false;
  server_default = none;
}

-- `nullable=False`
abbrev pub required : String → ColumnType → Column
required name type = record (primary name type) { primary_key = false }

-- `nullable=True`
abbrev pub optional : String → ColumnType → Column
optional name type = record (required name type) { nullable = true }

-- `nullable=False, unique=True`
abbrev pub unique : String → ColumnType → Column
unique name type = record (required name type) { is_unique = true }

-- `nullable=False, server_default=…`
abbrev pub defaulted : String → ColumnType → Default → Column
defaulted name type value = record (required name type) { server_default = some value }

-- A call of `op`, with its table. `alter_column` has the new type and the existing one.
pub data Operation : Type 0 where
  create_table : String → List Column → Operation
  drop_table : String → Operation
  create_index : String → String → List String → Operation
  drop_index : String → String → Operation
  add_column : String → Column → Operation
  drop_column : String → String → Operation
  alter_column : String → String → ColumnType → ColumnType → Operation

abbrev pub table_of : Operation → String
table_of (create_table t columns) = t
table_of (drop_table t) = t
table_of (create_index i t columns) = t
table_of (drop_index i t) = t
table_of (add_column t column) = t
table_of (drop_column t c) = t
table_of (alter_column t c new existing) = t

-- The type of the column with that name.
abbrev pub type_in : String → List Column → Option ColumnType
type_in c [] = none
type_in c (column ∷ columns) = if column.name == c then some column.type else type_in c columns

-- A database, by its schema: an operation gives the next one or raises.
pub record Database : Type 1 where
  pub Schema : Type 0
  pub apply : Operation → Schema → Result Schema
  -- the type of a column, if the table has it
  pub column_type : String → String → Schema → Option ColumnType
  -- what was created can be dropped
  pub drop-create_table :
      (t : String) (columns : List Column) (s s' : Schema)
      → apply (create_table t columns) s ≡ ok s'
      → apply (drop_table t) s' ≡ ok s
  pub drop-create_index :
      (i t : String) (columns : List String) (s s' : Schema)
      → apply (create_index i t columns) s ≡ ok s'
      → apply (drop_index i t) s' ≡ ok s
  pub drop-add_column :
      (t : String) (column : Column) (s s' : Schema)
      → apply (add_column t column) s ≡ ok s'
      → apply (drop_column t column.name) s' ≡ ok s
  -- a table goes with its indexes
  pub drop_table-create_index :
      (i t : String) (columns : List String) (s s' : Schema)
      → apply (create_index i t columns) s ≡ ok s'
      → apply (drop_table t) s' ≡ apply (drop_table t) s
  -- a column whose type was the existing one can be altered back
  pub alter-alter_column :
      (t c : String) (new existing : ColumnType) (s s' : Schema)
      → column_type t c s ≡ some existing
      → apply (alter_column t c new existing) s ≡ ok s'
      → apply (alter_column t c existing new) s' ≡ ok s
  -- a new table has the columns that it was created with, and an index changes none
  pub column_type-create_table :
      (t c : String) (columns : List Column) (s s' : Schema)
      → apply (create_table t columns) s ≡ ok s'
      → column_type t c s' ≡ type_in c columns
  pub column_type-create_index :
      (i t c : String) (columns : List String) (s s' : Schema)
      → apply (create_index i t columns) s ≡ ok s'
      → column_type t c s' ≡ column_type t c s
  -- an operation on another table leaves the column alone
  pub column_type-apply :
      (o : Operation) (t c : String) (s s' : Schema)
      → table_of o ≢ t
      → apply o s ≡ ok s'
      → column_type t c s' ≡ column_type t c s

module _ (db : Database) where
  -- The calls of a migration, in order.
  unfoldable pub run : List Operation → db.Schema → Result db.Schema
  run [] s = ok s
  run (o ∷ os) s = elim (db.apply o s) [ ok s' ↦ run os s' | err e ↦ err e ]
