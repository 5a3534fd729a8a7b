-- ===== src/Migrations/Reversal.antt =====
-- The downgrades of alembic/versions against the upgrades.
use seemsim_esim_gateway.Prelude.{
  String, Bool, true, false, some, List, [], ◌∷◌, ◌++◌, map, take, contains, ◌≡◌, refl, sym, ◌∙◌,
  ap, arith, eq_iff, inl, inr,
}
use seemsim_esim_gateway.Exec.{ok, Result-cases}
use seemsim_esim_gateway.Migrations.Operations.{
  Operation, create_table, drop_table, create_index, drop_index, add_column, drop_column, type_in,
  alter_column, string, Column, Database, table_of, run,
}
use seemsim_esim_gateway.Migrations.Initial as Initial
use seemsim_esim_gateway.Migrations.StateSync as StateSync

-- A change that can be undone: a table with its indexes, an index of its own, or a column.
data Change : Type 0 where
  table : String → List Column → List (String × List String) → Change
  index : String → String → List String → Change
  column : String → Column → Change

abbrev indexes_on : String → List (String × List String) → List Operation
indexes_on t [] = []
indexes_on t ((i, columns) ∷ is) = create_index i t columns ∷ indexes_on t is

abbrev forward : Change → List Operation
forward (table t columns is) = create_table t columns ∷ indexes_on t is
forward (index i t columns) = create_index i t columns ∷ []
forward (column t c) = add_column t c ∷ []

abbrev backward : Change → Operation
backward (table t columns is) = drop_table t
backward (index i t columns) = drop_index i t
backward (column t c) = drop_column t c.name

abbrev forwards : List Change → List Operation
forwards [] = []
forwards (x ∷ xs) = forward x ++ forwards xs

abbrev backwards : List Change → List Operation
backwards [] = []
backwards (x ∷ xs) = backwards xs ++ backward x ∷ []

-- The tables of a migration with the indexes that follow each of them.
abbrev gathered : List Operation → List (String × List String) × List Change
gathered [] = ([], [])
gathered (create_table t columns ∷ os) = let (is, xs) = gathered os in ([], table t columns is ∷ xs)
gathered (create_index i t columns ∷ os) = let (is, xs) = gathered os in ((i, columns) ∷ is, xs)
gathered (_ ∷ os) = gathered os

-- The changes of a migration one by one.
abbrev changes : List Operation → List Change
changes [] = []
changes (create_table t columns ∷ os) = table t columns [] ∷ changes os
changes (create_index i t columns ∷ os) = index i t columns ∷ changes os
changes (add_column t c ∷ os) = column t c ∷ changes os
changes (_ ∷ os) = changes os

-- The first table of a migration: its name, its columns, and the tables of what follows.
abbrev first_table : List Change → String
first_table (table t columns is ∷ xs) = t
first_table _ = ""

abbrev first_columns : List Change → List Column
first_columns (table t columns is ∷ xs) = columns
first_columns _ = []

abbrev starts_with_table : List Change → Bool
starts_with_table (table t columns is ∷ xs) = true
starts_with_table _ = false

abbrev later_tables : List Change → List String
later_tables [] = []
later_tables (x ∷ xs) = map table_of (forwards xs)

-- The alteration at the end of 002, and the one at the beginning of its downgrade.
abbrev widened : Operation
widened = alter_column "provider_products" "location_code" (string 255) (string 10)

abbrev narrowed : Operation
narrowed = alter_column "provider_products" "location_code" (string 10) (string 255)

module _ (db : Database) where
  -- What the first operations do, the second ones undo.
  abbrev pub Undoes : List Operation → List Operation → Type 0
  Undoes forward backward =
      (s s' : db.Schema) → run db forward s ≡ ok s' → run db backward s' ≡ ok s

  run-append :
      (xs ys : List Operation) (s s' : db.Schema)
      → run db xs s ≡ ok s'
      → run db (xs ++ ys) s ≡ run db ys s'
  unfolding run
  run-append [] ys s s' h = ap (run db ys) (ground arith)
  run-append (o ∷ xs) ys s s' h = elim (Result-cases (db.apply o s)) [
    | inl (m, e) ↦ ground (arith, run-append xs ys m s')
    | inr (exc, e) ↦ absurd (ground arith)
  ]

  -- A run of two parts that returns has a state between them.
  between :
      (xs ys : List Operation) (s s' : db.Schema)
      → run db (xs ++ ys) s ≡ ok s'
      → (m : db.Schema) × (run db xs s ≡ ok m) × (run db ys m ≡ ok s')
  unfolding run
  between [] ys s s' h = (s, refl, h)
  between (o ∷ xs) ys s s' h = elim (Result-cases (db.apply o s)) [
    | inl (m, e) ↦
        let (k, first, second) = between xs ys m s' (ground arith) in (k, ground arith, second)
    | inr (exc, e) ↦ absurd (ground arith)
  ]

  Undoes-around :
      (fs bs gs cs : List Operation) → Undoes fs bs → Undoes gs cs → Undoes (fs ++ gs) (cs ++ bs)
  Undoes-around fs bs gs cs u v s s' h =
      let (m, first, second) = between fs gs s s' h in
      run-append cs bs s' m (v m s' second) ∙ u s m first

  Undoes-one :
      (o b : Operation)
      → ((s s' : db.Schema) → db.apply o s ≡ ok s' → db.apply b s' ≡ ok s)
      → Undoes (o ∷ []) (b ∷ [])
  unfolding run
  Undoes-one o b k s s' h = elim (Result-cases (db.apply o s)) [
    | inl (m, e) ↦ ground (arith, k s m e)
    | inr (exc, e) ↦ absurd (ground arith)
  ]

  apply-one : (o : Operation) (s s' : db.Schema) → run db (o ∷ []) s ≡ ok s' → db.apply o s ≡ ok s'
  unfolding run
  apply-one o s s' h = elim (Result-cases (db.apply o s)) [
    | inl (m, e) ↦ ground arith
    | inr (exc, e) ↦ absurd (ground arith)
  ]

  run-one : (o : Operation) (s s' : db.Schema) → db.apply o s ≡ ok s' → run db (o ∷ []) s ≡ ok s'
  unfolding run
  run-one o s s' h = ground arith

  drop_table-indexes :
      (t : String) (is : List (String × List String)) (s s' : db.Schema)
      → run db (indexes_on t is) s ≡ ok s'
      → db.apply (drop_table t) s' ≡ db.apply (drop_table t) s
  unfolding run
  drop_table-indexes t [] s s' h = ap (db.apply (drop_table t)) (ground arith)
  drop_table-indexes t ((i, columns) ∷ is) s s' h =
      elim (Result-cases (db.apply (create_index i t columns) s)) [
        | inl (m, e) ↦
            drop_table-indexes t is m s' (ground arith)
            ∙ db.drop_table-create_index i t columns s m e
        | inr (exc, e) ↦ absurd (ground arith)
      ]

  Undoes-change : (x : Change) → Undoes (forward x) (backward x ∷ [])
  unfolding run
  Undoes-change (table t columns is) = λ s s' h.
      elim (Result-cases (db.apply (create_table t columns) s)) [
        | inl (m, e) ↦
            let dropped =
              drop_table-indexes t is m s' (ground arith) ∙ db.drop-create_table t columns s m e in
            ground arith
        | inr (exc, e) ↦ absurd (ground arith)
      ]
  Undoes-change (index i t columns) =
      Undoes-one (create_index i t columns) (drop_index i t) (db.drop-create_index i t columns)
  Undoes-change (column t c) =
      Undoes-one (add_column t c) (drop_column t c.name) (db.drop-add_column t c)

  Undoes-changes : (xs : List Change) → Undoes (forwards xs) (backwards xs)
  unfolding run
  Undoes-changes [] = λ s s' h. sym h
  Undoes-changes (x ∷ xs) =
      Undoes-around (forward x) (backward x ∷ []) (forwards xs) (backwards xs) (Undoes-change x)
        (Undoes-changes xs)

  initial-Undoes : Undoes Initial.upgrade Initial.downgrade
  initial-Undoes = Undoes-changes (gathered Initial.upgrade).1

  -- What 002 adds, without the alteration at its end.
  additions-Undoes : Undoes (take 30 StateSync.upgrade) (backwards (changes StateSync.upgrade))
  additions-Undoes = Undoes-changes (changes StateSync.upgrade)

  column_type-run :
      (t c : String) (os : List Operation) (s s' : db.Schema)
      → contains t (map table_of os) ≡ false
      → run db os s ≡ ok s'
      → db.column_type t c s' ≡ db.column_type t c s
  unfolding run
  column_type-run t c [] s s' n h = ap (db.column_type t c) (ground arith)
  column_type-run t c (o ∷ os) s s' n h = elim (Result-cases (db.apply o s)) [
    | inl (m, e) ↦
        column_type-run t c os m s' (ground arith) (ground arith)
        ∙ db.column_type-apply o t c s m (λ q. absurd (ground (arith, eq_iff t (table_of o)))) e
    | inr (exc, e) ↦ absurd (ground arith)
  ]

  column_type-indexes :
      (t c : String) (is : List (String × List String)) (s s' : db.Schema)
      → run db (indexes_on t is) s ≡ ok s'
      → db.column_type t c s' ≡ db.column_type t c s
  unfolding run
  column_type-indexes t c [] s s' h = ap (db.column_type t c) (ground arith)
  column_type-indexes t c ((i, columns) ∷ is) s s' h =
      elim (Result-cases (db.apply (create_index i t columns) s)) [
        | inl (m, e) ↦
            column_type-indexes t c is m s' (ground arith)
            ∙ db.column_type-create_index i t c columns s m e
        | inr (exc, e) ↦ absurd (ground arith)
      ]

  column_type-first :
      (c : String) (xs : List Change) (s s' : db.Schema)
      → starts_with_table xs ≡ true
      → contains (first_table xs) (later_tables xs) ≡ false
      → run db (forwards xs) s ≡ ok s'
      → db.column_type (first_table xs) c s' ≡ type_in c (first_columns xs)
  column_type-first c [] s s' b n h = absurd (ground arith)
  column_type-first c (table t columns is ∷ xs) s s' b n h =
      let (m, first, second) = between (forward (table t columns is)) (forwards xs) s s' h in
      let (k, created, indexed) =
        between (create_table t columns ∷ []) (indexes_on t is) s m first in
      column_type-run t c (forwards xs) m s' n second
      ∙ column_type-indexes t c is k m indexed
      ∙ db.column_type-create_table t c columns s k (apply-one _ s k created)
  column_type-first c (index i t columns ∷ xs) s s' b n h = absurd (ground arith)
  column_type-first c (column t d ∷ xs) s s' b n h = absurd (ground arith)

  -- After 001 the location codes have ten characters.
  location_code-initial :
      (s s' : db.Schema)
      → run db Initial.upgrade s ≡ ok s'
      → db.column_type "provider_products" "location_code" s' ≡ some (string 10)
  location_code-initial s s' h =
      column_type-first "location_code" (gathered Initial.upgrade).1 s s' refl refl h

  state_sync-undone :
      (s s' : db.Schema)
      → db.column_type "provider_products" "location_code" s ≡ some (string 10)
      → run db StateSync.upgrade s ≡ ok s'
      → run db StateSync.downgrade s' ≡ ok s
  state_sync-undone s s' w h =
      let (m, first, second) = between (take 30 StateSync.upgrade) (widened ∷ []) s s' h in
      let kept =
        column_type-run "provider_products" "location_code" (take 30 StateSync.upgrade) s m refl
          first
        ∙ w in
      let altered =
        db.alter-alter_column "provider_products" "location_code" (string 255) (string 10) m s' kept
          (apply-one widened m s' second) in
      run-append (narrowed ∷ []) (backwards (changes StateSync.upgrade)) s' m
        (run-one narrowed s' m altered)
      ∙ additions-Undoes s m first

  -- Where both upgrades run through, both downgrades do, and lead back to the schema before them.
  pub downgrades-upgrades :
      (s s' : db.Schema)
      → run db (Initial.upgrade ++ StateSync.upgrade) s ≡ ok s'
      → run db (StateSync.downgrade ++ Initial.downgrade) s' ≡ ok s
  downgrades-upgrades s s' h =
      let (m, first, second) = between Initial.upgrade StateSync.upgrade s s' h in
      run-append StateSync.downgrade Initial.downgrade s' m
        (state_sync-undone m s' (location_code-initial s m first) second)
      ∙ initial-Undoes s m first
