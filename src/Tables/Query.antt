-- ===== src/Tables/Query.antt =====
-- tables/tables.go: the equality index over the decoded cells, and the records that a query's
-- constraints select.
pub mod Sorted
pub mod Selection
pub mod Order
pub mod Indexing
pub mod Located
pub mod Superset
use Prim.Native.Nat.{compare, Ordering}
use amcache.Base.{
  ℕ, zero, suc, ◌+◌, ◌*◌, ◌^◌, Bool, true, false, ◌&&◌, ◌||◌, not, Option, none, some, List, [],
  ◌∷◌, ◌++◌, if◌then◌else◌, ltb, ◌==◌, length,
}
use amcache.Base.Text.{Text, text_eq, byte_len, to_lower}
use amcache.Inventory.{Record, Snapshot, Table, lookup}
use amcache.Tables.Columns.{Col, Spec}
use amcache.Tables.Cell.{Setting, cell}
use amcache.Tables.Specs.{specs}

abbrev pub max_expr_len : ℕ
max_expr_len = 4096

-- The operator of a constraint: equality is the only one that the code asks for.
pub data Operator : Type 0 where
  equals another : Operator

pub record Constraint : Type 0 where
  pub operator : Operator
  pub expression : Text

-- A query's constraints by column name, in the order in which the map is walked.
abbrev pub Query : Type 0
Query = List (Text × List Constraint)

-- Lowercased cell to the indices of the records that carry it; and such a map for each column.
abbrev pub ByValue : Type 0
ByValue = Table (List ℕ)

abbrev pub Index : Type 0
Index = Table ByValue

-- `table + "\x00" + column`.
abbrev pub index_key : Text → Text → Text
index_key tbl col = tbl ++ (0 ∷ col)

-- `byVal[v] = append(byVal[v], i)`.
unfoldable pub add_index : Text → ℕ → ByValue → ByValue
add_index v i [] = (v, i ∷ []) ∷ []
add_index v i ((u, is) ∷ t) =
    let rest = add_index v i t in if text_eq v u then (u, is ++ (i ∷ [])) ∷ t else (u, is) ∷ rest

-- The loop over the records of one column, from record `i` on.
unfoldable pub index_records : Setting → Col → ℕ → List Record → ByValue → ByValue
index_records w c i [] t = t
index_records w c i (rec ∷ recs) t = index_records w c (suc i) recs (elim (cell w c rec) [
  | none ↦ t
  | some [] ↦ t
  | some (d ∷ v) ↦ add_index (to_lower w.fold (d ∷ v)) i t
])

-- The loop over the columns of one table.
unfoldable pub index_cols : Setting → Text → List Col → List Record → Index → Index
index_cols w tbl [] recs idx = idx
index_cols w tbl (c ∷ cols) recs idx =
    index_cols w tbl cols recs
      (if c.push then (index_key tbl c.name, index_records w c 0 recs []) ∷ idx else idx)

abbrev pub records_of : Snapshot → Spec → List Record
records_of inv s = elim (lookup s.key inv.keys) [ none ↦ [] | some recs ↦ recs ]

-- The loop over the tables.
unfoldable pub index_specs : Setting → Snapshot → List Spec → Index → Index
index_specs w inv [] idx = idx
index_specs w inv (s ∷ rest) idx = index_specs w inv rest (elim (records_of inv s) [
  | [] ↦ idx
  | rec ∷ recs ↦ index_cols w s.table s.cols (rec ∷ recs) idx
])

-- `index`.
unfoldable pub index : Setting → Snapshot → Index
index w inv = index_specs w inv specs []

-- An equality that the index can answer.
unfoldable pub is_usable : Constraint → Bool
is_usable cst = elim cst.operator [
  | another ↦ false
  | equals ↦ elim cst.expression [ [] ↦ false | c ∷ s ↦ not (ltb max_expr_len (byte_len (c ∷ s))) ]
]

abbrev pub hits_of : (ℕ → ℕ) → ByValue → Constraint → List ℕ
hits_of fold by_val cst = elim (lookup (to_lower fold cst.expression) by_val) [
  | none ↦ []
  | some hits ↦ hits
]

-- The loop over one column's constraints: none where no constraint was usable.
unfoldable pub column_hits : (ℕ → ℕ) → ByValue → List Constraint → Option (List ℕ) → Option (List ℕ)
column_hits fold by_val [] hits = hits
column_hits fold by_val (cst ∷ rest) hits = column_hits fold by_val rest (
    if is_usable cst
    then some (elim hits [ none ↦ [] | some l ↦ l ] ++ hits_of fold by_val cst)
    else hits)

unfoldable pub insert_index : ℕ → List ℕ → List ℕ
insert_index a [] = a ∷ []
insert_index a (b ∷ l) = let rest = insert_index a l in if ltb b a then b ∷ rest else a ∷ b ∷ l

-- `slices.Sort`.
unfoldable pub sort : List ℕ → List ℕ
sort [] = []
sort (a ∷ l) = insert_index a (sort l)

unfoldable pub join_equal : ℕ → List ℕ → List ℕ
join_equal a [] = a ∷ []
join_equal a (b ∷ l) = if a == b then b ∷ l else a ∷ b ∷ l

-- `slices.Compact`: of equal neighbours one stays.
unfoldable pub compact : List ℕ → List ℕ
compact [] = []
compact (a ∷ l) = join_equal a (compact l)

-- `sortUnique`.
unfoldable pub sort_unique : List ℕ → List ℕ
sort_unique v = compact (sort v)

-- `intersect`.
unfoldable pub intersect : List ℕ → List ℕ → List ℕ
intersect [] b = []
intersect (x ∷ a) [] = []
intersect (x ∷ a) (y ∷ b) = elim (compare x y) [
  | Ordering.lt ↦ intersect a (y ∷ b)
  | Ordering.gt ↦ intersect (x ∷ a) b
  | Ordering.eq ↦ x ∷ intersect a b
]

-- `out` and `narrowed` after one more column: none until a column has narrowed the result.
unfoldable pub narrow : Option (List ℕ) → List ℕ → Option (List ℕ)
narrow none hits = some (sort_unique hits)
narrow (some out) hits = some (intersect out (sort_unique hits))

-- The loop of `selected` over the constrained columns.
unfoldable pub select_columns : (ℕ → ℕ) → Query → Index → Text → Option (List ℕ) → Option (List ℕ)
select_columns fold [] idx tbl out = out
select_columns fold ((name, cl) ∷ query) idx tbl out =
    select_columns fold query idx tbl (elim (lookup (index_key tbl name) idx) [
      | none ↦ out
      | some by_val ↦ elim (column_hits fold by_val cl none) [
        | none ↦ out
        | some hits ↦ narrow out hits
      ]
    ])

-- `selected`: none is every record.
unfoldable pub selected : (ℕ → ℕ) → Query → Index → Text → Option (List ℕ)
selected fold query idx tbl = select_columns fold query idx tbl none
