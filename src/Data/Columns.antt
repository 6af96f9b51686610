-- ===== src/Data/Columns.antt =====
-- src/model/table.ts, src/model/indexes.ts and src/data/insertExport.ts: the columns that an `INSERT`
-- names, and the clauses made of them. A record has the fields that the export reads.
use dbgate_mysql_dumper.Base.{
  ◌>>=◌, same, ℕ, [], ◌∷◌, ◌++◌, List, Bytes, length, Option, none, some, Bool, true, false, ◌&&◌,
  ◌||◌, not, any, leb, ◌==◌, if◌then◌else◌, codes,
}
use dbgate_mysql_dumper.Security.Identifiers.{quote_identifier}

pub data MysqlColumnGeneration : Type 0 where
  not_generated virtual stored : MysqlColumnGeneration

pub record MysqlColumn : Type 0 where
  pub column_name : Bytes
  pub ordinal_position : ℕ
  pub data_type : Bytes
  pub generation : MysqlColumnGeneration
  pub is_invisible : Bool

pub record MysqlTable : Type 0 where
  pub pure_name : Bytes
  pub columns : List MysqlColumn

pub record MysqlIndexColumn : Type 0 where
  pub column_name : Option Bytes
  pub ordinal_position : ℕ

pub record MysqlIndex : Type 0 where
  pub table_name : Bytes
  pub is_primary : Bool
  pub columns : List MysqlIndexColumn

-- A warning, its message left out.
pub record MysqlDiagnostic : Type 0 where
  pub code : Bytes
  pub name : Bytes

unfoldable pub is_generated_column : MysqlColumn → Bool
is_generated_column column = elim column.generation [ not_generated ↦ false | _ ↦ true ]

-- `sort((a, b) => a.ordinalPosition - b.ordinalPosition)`, which is stable
module _ {ℓ} {A : Type ℓ} (position : A → ℕ) where
  unfoldable pub insert : A → List A → List A
  insert x [] = x ∷ []
  insert x (y ∷ ys) = if leb (position x) (position y) then x ∷ y ∷ ys else y ∷ insert x ys

  unfoldable pub sort : List A → List A
  sort [] = []
  sort (x ∷ xs) = insert x (sort xs)

unfoldable pub insertable : List MysqlColumn → List MysqlColumn
insertable [] = []
insertable (column ∷ columns) =
    if is_generated_column column then insertable columns else column ∷ insertable columns

unfoldable pub insertable_columns : MysqlTable → List MysqlColumn
insertable_columns table =
    insertable (sort (λ (column : MysqlColumn). column.ordinal_position) table.columns)

-- The warnings on the columns that are left out.
unfoldable pub generated_warnings : List MysqlColumn → List MysqlDiagnostic
generated_warnings [] = []
generated_warnings (column ∷ columns) =
    if is_generated_column column
    then record { code = codes "generated-column-not-exported"; name = column.column_name }
      ∷ generated_warnings columns
    else generated_warnings columns

unfoldable pub needs_column_list : MysqlTable → Bool → Bool
needs_column_list table complete_insert =
    complete_insert
    || not (length (insertable_columns table) == length table.columns)
    || any (λ (column : MysqlColumn). column.is_invisible) (insertable_columns table)

-- `names.map(quoteIdentifier).join(', ')`; `none` is the error of a name that cannot be quoted
unfoldable pub quoted_list : List Bytes → Option Bytes
quoted_list [] = some []
quoted_list (name ∷ []) = quote_identifier name
quoted_list (name ∷ next ∷ names) = do
  first ← quote_identifier name
  rest ← quoted_list (next ∷ names)
  some (first ++ codes ", " ++ rest)

unfoldable pub find_primary_key : Bytes → List MysqlIndex → Option MysqlIndex
find_primary_key table_name [] = none
find_primary_key table_name (index ∷ indexes) =
    if index.is_primary && same index.table_name table_name
    then some index
    else find_primary_key table_name indexes

-- The names that are not null.
unfoldable pub key_names : List MysqlIndexColumn → List Bytes
key_names [] = []
key_names (column ∷ columns) = elim column.column_name [
  | none ↦ key_names columns
  | some name ↦ name ∷ key_names columns
]

unfoldable pub primary_key_names : Bytes → List MysqlIndex → List Bytes
primary_key_names table_name indexes = elim (find_primary_key table_name indexes) [
  | none ↦ []
  | some index ↦
      key_names (sort (λ (column : MysqlIndexColumn). column.ordinal_position) index.columns)
]

-- `buildOrderByClause`: the clause and the warning, if any.
unfoldable pub build_order_by_clause :
    Bytes → List MysqlIndex → Bool → Option (Bytes × List MysqlDiagnostic)
build_order_by_clause table_name indexes order_by_primary_key =
    let names = primary_key_names table_name indexes in
    if not order_by_primary_key
    then some ([], [])
    else if length names == 0
    then some ([], record { code = codes "unordered-table-read"; name = table_name } ∷ [])
    else do list ← quoted_list names; some (codes " ORDER BY " ++ list, [])
