-- ===== src/Migrations/Instance.antt =====
-- The list of tables as a database.
use seemsim_esim_gateway.Prelude.{
  String, some, List, [], ◌∷◌, ◌==◌, ◌≡◌, ◌≢◌, refl, ap, arith, eq_iff, eq_refl, Option-cases,
  Bool-cases, inl, inr,
}
use seemsim_esim_gateway.Exec.{ok, Result-cases}
use seemsim_esim_gateway.Db.Table.{find_row}
use seemsim_esim_gateway.Migrations.Operations.{
  Operation, create_table, drop_table, create_index, drop_index, add_column, drop_column,
  alter_column, Column, ColumnType, Database, table_of, type_in,
}
use seemsim_esim_gateway.Migrations.Tables.{
  Table, table_name, remove, on_table, without_index, without_column, retyped, create, apply,
  type_of, column_type,
}

pub drop-create_table :
    (t : String) (columns : List Column) (s s' : List Table)
    → create t columns s (find_row table_name t s) ≡ ok s'
    → remove t s' ≡ ok s
unfolding remove find_row
drop-create_table t columns s s' h = elim (Option-cases (find_row table_name t s)) [
  | inl e ↦
      let s'-is : s' ≡ record { name = t; columns = columns; indexes = [] } ∷ s = ground arith in
      rw s'-is (ground (arith, eq_refl t))
  | inr (x, e) ↦ absurd (ground arith)
]

-- Where the operation on a table took place: here, or further on.
data Placed (t : String) (f : Table → Table) (x : Table) (xs s' : List Table) : Type 0 where
  here : x.name ≡ t → s' ≡ f x ∷ xs → Placed t f x xs s'
  further :
      (xs' : List Table) → x.name ≢ t → on_table t f xs ≡ ok xs' → s' ≡ x ∷ xs' → Placed t f x xs s'

placed :
    (t : String) (f : Table → Table) (x : Table) (xs s' : List Table)
    → on_table t f (x ∷ xs) ≡ ok s'
    → Placed t f x xs s'
unfolding on_table
placed t f x xs s' h = elim (Bool-cases (x.name == t)) [
  | inl b ↦ here (ground (arith, eq_iff x.name t)) (ground arith)
  | inr b ↦ elim (Result-cases (on_table t f xs)) [
    | inl (xs', e) ↦ further xs' (λ q. absurd (ground (arith, eq_iff x.name t))) e (ground arith)
    | inr (exc, e) ↦ absurd (ground arith)
  ]
]

module _ (t : String) (f : Table → Table) (same : (x : Table) → (f x).name ≡ x.name) where
  inverse :
      (g : Table → Table) (s s' : List Table)
      → ((x : Table) → find_row table_name t s ≡ some x → g (f x) ≡ x)
      → on_table t f s ≡ ok s'
      → on_table t g s' ≡ ok s
  unfolding on_table find_row
  inverse g [] s' k h = absurd (ground arith)
  inverse g (x ∷ xs) s' k h = elim (placed t f x xs s' h) [
    | here e q ↦ ground (arith, same x, eq_iff x.name t, eq_iff (f x).name t, k x)
    | further xs' ne e q ↦
        ground (
          arith,
          eq_iff x.name t,
          inverse g xs xs' (λ y p. k y (ground (arith, eq_iff x.name t))) e,
        )
  ]

  removed : (s s' : List Table) → on_table t f s ≡ ok s' → remove t s' ≡ remove t s
  unfolding on_table remove
  removed [] s' h = absurd (ground arith)
  removed (x ∷ xs) s' h = elim (placed t f x xs s' h) [
    | here e q ↦ ground (arith, same x, eq_iff x.name t, eq_iff (f x).name t)
    | further xs' ne e q ↦ ground (arith, eq_iff x.name t, removed xs xs' e)
  ]

  found_other :
      (u : String) (s s' : List Table)
      → t ≢ u
      → on_table t f s ≡ ok s'
      → find_row table_name u s' ≡ find_row table_name u s
  unfolding on_table find_row
  found_other u [] s' ne h = absurd (ground arith)
  found_other u (x ∷ xs) s' ne h = elim (placed t f x xs s' h) [
    | here e q ↦ ground (arith, same x, eq_iff x.name u, eq_iff (f x).name u)
    | further xs' m e q ↦ ground (arith, eq_iff x.name u, found_other u xs xs' ne e)
  ]

  column_type-on_table :
      (c : String) (s s' : List Table)
      → ((x : Table) → (f x).columns ≡ x.columns)
      → on_table t f s ≡ ok s'
      → column_type t c s' ≡ column_type t c s
  unfolding on_table find_row
  column_type-on_table c [] s' k h = absurd (ground arith)
  column_type-on_table c (x ∷ xs) s' k h = elim (placed t f x xs s' h) [
    | here e q ↦ ground (arith, same x, k x, eq_iff x.name t, eq_iff (f x).name t)
    | further xs' m e q ↦ ground (arith, eq_iff x.name t, column_type-on_table c xs xs' k e)
  ]

removed_other :
    (t u : String) (s s' : List Table)
    → t ≢ u
    → remove t s ≡ ok s'
    → find_row table_name u s' ≡ find_row table_name u s
unfolding remove find_row
removed_other t u [] s' ne h = absurd (ground arith)
removed_other t u (x ∷ xs) s' ne h = elim (Bool-cases (x.name == t)) [
  | inl b ↦ ground (arith, eq_iff x.name t, eq_iff x.name u)
  | inr b ↦ elim (Result-cases (remove t xs)) [
    | inl (xs', e) ↦ ground (arith, removed_other t u xs xs' ne e)
    | inr (exc, e) ↦ absurd (ground arith)
  ]
]

created_other :
    (t u : String) (columns : List Column) (s s' : List Table)
    → t ≢ u
    → create t columns s (find_row table_name t s) ≡ ok s'
    → find_row table_name u s' ≡ find_row table_name u s
unfolding find_row
created_other t u columns s s' ne h = elim (Option-cases (find_row table_name t s)) [
  | inl e ↦
      let s'-is : s' ≡ record { name = t; columns = columns; indexes = [] } ∷ s = ground arith in
      rw s'-is (ground (arith, eq_iff t u))
  | inr (x, e) ↦ absurd (ground arith)
]

pub column_type-create_table :
    (t c : String) (columns : List Column) (s s' : List Table)
    → create t columns s (find_row table_name t s) ≡ ok s'
    → column_type t c s' ≡ type_in c columns
unfolding find_row
column_type-create_table t c columns s s' h = elim (Option-cases (find_row table_name t s)) [
  | inl e ↦
      let s'-is : s' ≡ record { name = t; columns = columns; indexes = [] } ∷ s = ground arith in
      rw s'-is (ground (arith, eq_refl t))
  | inr (x, e) ↦ absurd (ground arith)
]

pub other_type :
    (o : Operation) (u c : String) (s s' : List Table)
    → table_of o ≢ u
    → apply o s ≡ ok s'
    → column_type u c s' ≡ column_type u c s
other_type (create_table t columns) u c s s' ne h =
    ap (type_of c) (created_other t u columns s s' ne h)
other_type (drop_table t) u c s s' ne h = ap (type_of c) (removed_other t u s s' ne h)
other_type (create_index i t columns) u c s s' ne h =
    ap (type_of c) (found_other t _ (λ x. refl) u s s' ne h)
other_type (drop_index i t) u c s s' ne h = ap (type_of c) (found_other t _ (λ x. refl) u s s' ne h)
other_type (add_column t d) u c s s' ne h = ap (type_of c) (found_other t _ (λ x. refl) u s s' ne h)
other_type (drop_column t d) u c s s' ne h =
    ap (type_of c) (found_other t _ (λ x. refl) u s s' ne h)
other_type (alter_column t d new existing) u c s s' ne h =
    ap (type_of c) (found_other t _ (λ x. refl) u s s' ne h)

retyped-retyped :
    (c : String) (new existing : ColumnType) (columns : List Column)
    → type_in c columns ≡ some existing
    → retyped c existing (retyped c new columns) ≡ columns
unfolding retyped
retyped-retyped c new existing [] h = refl
retyped-retyped c new existing (x ∷ xs) h = elim (Bool-cases (x.name == c)) [
  | inl b ↦ ground arith
  | inr b ↦ ground (arith, retyped-retyped c new existing xs)
]

pub drop-create_index :
    (i t : String) (columns : List String) (s s' : List Table)
    → apply (create_index i t columns) s ≡ ok s'
    → apply (drop_index i t) s' ≡ ok s
unfolding without_index
drop-create_index i t columns s s' h =
    inverse t _ (λ x. refl) _ s s' (λ x e. ground (arith, eq_refl i)) h

pub drop-add_column :
    (t : String) (c : Column) (s s' : List Table)
    → apply (add_column t c) s ≡ ok s'
    → apply (drop_column t c.name) s' ≡ ok s
unfolding without_column
drop-add_column t c s s' h =
    inverse t _ (λ x. refl) _ s s' (λ x e. ground (arith, eq_refl c.name)) h

pub drop_table-create_index :
    (i t : String) (columns : List String) (s s' : List Table)
    → apply (create_index i t columns) s ≡ ok s'
    → remove t s' ≡ remove t s
drop_table-create_index i t columns s s' h = removed t _ (λ x. refl) s s' h

pub alter-alter_column :
    (t c : String) (new existing : ColumnType) (s s' : List Table)
    → column_type t c s ≡ some existing
    → apply (alter_column t c new existing) s ≡ ok s'
    → apply (alter_column t c existing new) s' ≡ ok s
alter-alter_column t c new existing s s' w h =
    inverse t _ (λ x. refl) _ s s' (λ x e. ground (arith, retyped-retyped c new existing x.columns))
      h

pub column_type-create_index :
    (i t c : String) (columns : List String) (s s' : List Table)
    → apply (create_index i t columns) s ≡ ok s'
    → column_type t c s' ≡ column_type t c s
column_type-create_index i t c columns s s' h =
    column_type-on_table t _ (λ x. refl) c s s' (λ x. refl) h

abbrev pub tables : Database
tables = record {
  Schema = List Table;
  apply = apply;
  column_type = column_type;
  drop-create_table = drop-create_table;
  drop-create_index = drop-create_index;
  drop-add_column = drop-add_column;
  drop_table-create_index = drop_table-create_index;
  alter-alter_column = alter-alter_column;
  column_type-create_table = column_type-create_table;
  column_type-create_index = column_type-create_index;
  column_type-apply = other_type;
}
