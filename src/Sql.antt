-- ===== src/Sql.antt =====
-- The SQL statements that the daemon hands to sqlite, as trees, and what SQL documents of them:
-- rows, WHERE, unique indexes, INSERT OR REPLACE. sqlite itself is a parameter (Platform.antt),
-- and what is here is only the vocabulary in which its documented behaviour is assumed.
pub mod Writes
pub mod Answers
use vcd.Base.{
  Bool, true, false, not, ◌&&◌, ◌||◌, String, List, [], ◌∷◌, Option, none, some, if◌then◌else◌,
  str_equal, any, ◌==◌, all_chars,
}
use vcd.Base.Int.{ℤ, eqb_ℤ}

-- `%d` prints an integer, `'%s'` a text.
pub data Value : Type 0 where
  int : ℤ → Value
  text : String → Value

abbrev pub value_eq : Value → Value → Bool
value_eq (int a) (int b) = eqb_ℤ a b
value_eq (text s) (text t) = str_equal s t
value_eq _ _ = false

abbrev pub Row : Type 0
Row = List (String × Value)

-- The value of a column; a column that the row does not give is NULL.
unfoldable pub field : String → Row → Option Value
field c [] = none
field c ((d, v) ∷ r) = if str_equal c d then some v else field c r

-- NULL is equal to nothing.
abbrev pub option_eq : Option Value → Option Value → Bool
option_eq (some v) (some w) = value_eq v w
option_eq _ _ = false

-- `WHERE a = v AND b = w`
unfoldable pub holds : Row → Row → Bool
unfolding field
holds [] r = true
holds ((c, v) ∷ cs) r = option_eq (some v) (field c r) && holds cs r

-- The rows of each table.
abbrev pub Contents : Type 0
Contents = String → List Row

-- The columns of each unique index of each table.
abbrev pub Schema : Type 0
Schema = String → List (List String)

unfoldable pub agrees : List String → Row → Row → Bool
unfolding field
agrees [] r s = true
agrees (c ∷ cs) r s = option_eq (field c r) (field c s) && agrees cs r s

-- Two rows that one unique index does not admit together.
unfoldable pub conflicts : List (List String) → Row → Row → Bool
unfolding agrees
conflicts [] r s = false
conflicts (k ∷ ks) r s = agrees k r s || conflicts ks r s

unfoldable pub assign : String → Value → Row → Row
assign c v [] = (c, v) ∷ []
assign c v ((d, w) ∷ r) = if str_equal c d then (c, v) ∷ r else (d, w) ∷ assign c v r

unfoldable pub has_conflict : List (List String) → List Row → Bool
unfolding conflicts
has_conflict ks [] = false
has_conflict ks (r ∷ rs) = any (conflicts ks r) rs || has_conflict ks rs

abbrev pub put_rows : String → List Row → Contents → Contents
put_rows t rs c u = if str_equal t u then rs else c u

pub data Stmt : Type 0 where
  -- INSERT INTO t
  insert : String → Row → Stmt
  -- INSERT OR REPLACE INTO t
  replace : String → Row → Stmt
  -- DELETE FROM t WHERE
  delete : String → Row → Stmt
  -- UPDATE t SET column = value WHERE
  update : String → String → Value → Row → Stmt
  -- UPDATE vcd SET c = c + 1, … WHERE uptime = (SELECT MAX(uptime) FROM vcd)
  count : List String → Stmt

pub data Order : Type 0 where
  unordered : Order
  asc desc : String → Order

pub data Query : Type 0 where
  -- SELECT columns FROM t WHERE … ORDER BY … [LIMIT 1]
  select : List String → String → Row → Order → Query
  -- SELECT a.columns FROM a INNER JOIN b ON a.c = b.c WHERE b.… ORDER BY …
  join : List String → String → String → String → Row → Order → Query
  -- LIMIT 1
  limit_one : Query → Query
  -- SELECT COUNT(column), MAX(column) FROM t
  count_max : String → String → Query

-- An argument is printed between quotes as it stands; sqlite reads the statement as the tree only
-- if no quote ends the literal early.
unfoldable pub quote_free : String → Bool
unfolding all_chars
quote_free s = all_chars (λ c. not (c == 39)) s

unfoldable pub value_clean : Value → Bool
unfolding quote_free
value_clean (int z) = true
value_clean (text s) = quote_free s

unfoldable pub row_clean : Row → Bool
unfolding value_clean
row_clean [] = true
row_clean ((c, v) ∷ r) = value_clean v && row_clean r

unfoldable pub stmt_clean : Stmt → Bool
unfolding row_clean
stmt_clean (insert t r) = row_clean r
stmt_clean (replace t r) = row_clean r
stmt_clean (delete t w) = row_clean w
stmt_clean (update t c v w) = value_clean v && row_clean w
stmt_clean (count cs) = true

unfoldable pub query_clean : Query → Bool
unfolding row_clean
query_clean (select cs t w o) = row_clean w
query_clean (join cs a b k w o) = row_clean w
query_clean (limit_one q) = query_clean q
query_clean (count_max c t) = true
