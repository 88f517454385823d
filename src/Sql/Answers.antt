-- ===== src/Sql/Answers.antt =====
-- What sqlite documents of a query: its rows, and the steps in which it delivers them.
use vcd.Base.Int.{ℤ, pos, ltb_ℤ}
use vcd.Base.{
  ℕ, ◌+◌, none, some, if◌then◌else◌, ◌&&◌, String, List, [], ◌∷◌, ◌++◌, map, Option, ◌≡◌, keep,
}
use vcd.Sql.{
  int, count_max, Value, Row, Contents, Query, select, join, limit_one, Order, field, holds,
  option_eq,
}

-- A row of a result: the values of the selected columns, NULL as `none`.
abbrev pub Record : Type 0
Record = List (Option Value)

unfoldable pub project : List String → Row → Record
unfolding field
project cs r = map (λ c. field c r) cs

-- The left rows of an inner join, one for each right row that meets the condition.
unfoldable pub pairs : String → Row → List Row → List Row → List Row
unfolding holds keep field
pairs k w [] bs = []
pairs k w (l ∷ ls) bs =
    map (λ _. l) (keep (λ r. holds w r && option_eq (field k l) (field k r)) bs) ++ pairs k w ls bs

abbrev pub first_only : List Record → List Record
first_only [] = []
first_only (r ∷ rs) = r ∷ []

abbrev pub max_ℤ : ℤ → Option ℤ → ℤ
max_ℤ a none = a
max_ℤ a (some b) = if ltb_ℤ a b then b else a

abbrev pub then_max : Option Value → Option ℤ → Option ℤ
then_max (some (int z)) top = some (max_ℤ z top)
then_max _ top = top

-- The greatest integer of a column.
unfoldable pub greatest : String → List Row → Option ℤ
unfolding field
greatest c [] = none
greatest c (r ∷ rs) = then_max (field c r) (greatest c rs)

-- The rows in which a column is not NULL.
unfoldable pub count_rows : String → List Row → ℕ
unfolding field
count_rows c [] = 0
count_rows c (r ∷ rs) =
    let rest = count_rows c rs in elim (field c r) [ none ↦ rest | some v ↦ 1 + rest ]

abbrev pub int_of : Option ℤ → Option Value
int_of none = none
int_of (some z) = some (int z)

-- The rows in the order that sqlite chooses among those that ORDER BY leaves open.
unfoldable pub answer : (Order → List Row → List Row) → Query → Contents → List Record
unfolding project pairs holds keep greatest count_rows
answer arrange (select cs t w o) c = map (project cs) (arrange o (keep (holds w) (c t)))
answer arrange (join cs a b k w o) c = map (project cs) (arrange o (pairs k w (c a) (c b)))
answer arrange (limit_one q) c = first_only (answer arrange q c)
answer arrange (count_max k t) c =
    (some (int (pos (count_rows k (c t)))) ∷ int_of (greatest k (c t)) ∷ []) ∷ []

-- The results of repeated calls of sqlite3_step.
pub data Steps : Type 0 where
  row : Record → Steps → Steps
  busy : Steps → Steps
  done : Steps
  failed : Steps

-- The steps deliver these rows, in this order, unless an error ends them early.
abbrev pub Runs : List Record → Steps → Type 0
Runs rs (busy s) = Runs rs s
Runs [] (row r s) = ⊥
Runs (q ∷ rs) (row r s) = (r ≡ q) × Runs rs s
Runs [] done = Unit
Runs (q ∷ rs) done = ⊥
Runs rs failed = Unit

-- No step fails.
abbrev pub Completes : Steps → Type 0
Completes (busy s) = Completes s
Completes (row r s) = Completes s
Completes done = Unit
Completes failed = ⊥
