-- ===== src/Migrations/Tables.antt =====
-- A database's schema as a list of tables, for runs of the migrations.
use seemsim_esim_gateway.Prelude.{String, Option, none, some, List, [], ◌∷◌, if◌then◌else◌, ◌==◌}
use seemsim_esim_gateway.Errors.{builtin}
use seemsim_esim_gateway.Exec.{Result, ok, err}
use seemsim_esim_gateway.Db.Table.{find_row}
use seemsim_esim_gateway.Migrations.Operations.{
  Operation, create_table, drop_table, create_index, drop_index, add_column, drop_column,
  alter_column, Column, ColumnType, type_in,
}

pub record Table : Type 0 where
  pub name : String
  pub columns : List Column
  pub indexes : List String

abbrev pub table_name : Table → String
table_name x = x.name

abbrev pub prepend : {A : Type 0} → A → Result (List A) → Result (List A)
prepend x (ok xs) = ok (x ∷ xs)
prepend x (err e) = err e

unfoldable pub remove : String → List Table → Result (List Table)
remove t [] = err (builtin "UndefinedTable" t)
remove t (x ∷ xs) = let rest = remove t xs in if x.name == t then ok xs else prepend x rest

unfoldable pub on_table : String → (Table → Table) → List Table → Result (List Table)
on_table t f [] = err (builtin "UndefinedTable" t)
on_table t f (x ∷ xs) =
    let rest = on_table t f xs in if x.name == t then ok (f x ∷ xs) else prepend x rest

unfoldable pub without_index : String → List String → List String
without_index i [] = []
without_index i (j ∷ js) = let rest = without_index i js in if j == i then js else j ∷ rest

unfoldable pub without_column : String → List Column → List Column
without_column c [] = []
without_column c (x ∷ xs) = let rest = without_column c xs in if x.name == c then xs else x ∷ rest

unfoldable pub retyped : String → ColumnType → List Column → List Column
retyped c type [] = []
retyped c type (x ∷ xs) =
    let rest = retyped c type xs in if x.name == c then record x { type = type } ∷ xs else x ∷ rest

abbrev pub create : String → List Column → List Table → Option Table → Result (List Table)
create t columns s none = ok (record { name = t; columns = columns; indexes = [] } ∷ s)
create t columns s (some x) = err (builtin "DuplicateTable" t)

abbrev pub apply : Operation → List Table → Result (List Table)
apply (create_table t columns) s = create t columns s (find_row table_name t s)
apply (drop_table t) s = remove t s
apply (create_index i t columns) s = on_table t (λ x. record x { indexes = i ∷ x.indexes }) s
apply (drop_index i t) s = on_table t (λ x. record x { indexes = without_index i x.indexes }) s
apply (add_column t c) s = on_table t (λ x. record x { columns = c ∷ x.columns }) s
apply (drop_column t c) s = on_table t (λ x. record x { columns = without_column c x.columns }) s
apply (alter_column t c new existing) s =
    on_table t (λ x. record x { columns = retyped c new x.columns }) s

abbrev pub type_of : String → Option Table → Option ColumnType
type_of c none = none
type_of c (some x) = type_in c x.columns

abbrev pub column_type : String → String → List Table → Option ColumnType
column_type t c s = type_of c (find_row table_name t s)
