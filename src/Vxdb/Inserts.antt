-- ===== src/Vxdb/Inserts.antt =====
-- Rows that one statement after the other adds to a table, for the statements of vx.create.
use mathlib.Core.List.{append-nil, append_assoc}
use vcd.Base.{
  ℕ, Bool, true, false, String, List, [], ◌∷◌, ◌++◌, map, ◌≡◌, refl, sym, ap, ◌∙◌, arith, str_equal,
  str_equal→eq, all, keep, keep-append, Bool-cases, inl, inr, if◌then◌else◌,
}
use vcd.Sql.{Row, Contents, Stmt, insert, holds}
use vcd.Sql.Writes.{Does, DoesAll}
use vcd.Vxdb.Tables.{vxdb_unique}
use vcd.Vxdb.Rows.{rows_of, of_xid, heads, heads-field}

-- An INSERT of a row that starts with the context id.
unfoldable pub is_insert : ℕ → Stmt → Bool
unfolding heads
is_insert n (insert t r) = heads n r
is_insert n _ = false

abbrev pub row_into : String → Stmt → List Row
row_into u (insert t r) = if str_equal t u then r ∷ [] else []
row_into u _ = []

-- The rows that the statements add to one table.
unfoldable pub inserted : String → List Stmt → List Row
inserted u [] = []
inserted u (s ∷ ss) = row_into u s ++ inserted u ss

pub inserted-append :
    (u : String) (xs ys : List Stmt) → inserted u (xs ++ ys) ≡ inserted u xs ++ inserted u ys
unfolding inserted
inserted-append u [] ys = refl
inserted-append u (s ∷ xs) ys =
    ap (λ l. row_into u s ++ l) (inserted-append u xs ys)
    ∙ sym (append_assoc (row_into u s) (inserted u xs) (inserted u ys))

pub inserted-map :
    {A : Type 0} (u t : String) (f : A → Row) (l : List A)
    → inserted u (map (λ a. insert t (f a)) l) ≡ (if str_equal t u then map f l else [])
unfolding inserted
inserted-map u t f [] = ground arith
inserted-map u t f (a ∷ l) = ground (arith, inserted-map u t f l)

pub DoesAll-append :
    (xs ys : List Stmt) (c d : Contents)
    → DoesAll vxdb_unique (xs ++ ys) c d
    → (m : Contents) × DoesAll vxdb_unique xs c m × DoesAll vxdb_unique ys m d
DoesAll-append [] ys c d does = (c, refl, does)
DoesAll-append (s ∷ xs) ys c d (m, first, rest) =
    let (k, does, more) = DoesAll-append xs ys m d rest in (k, (m, first, does), more)

rows_of-own : (n : ℕ) (r : Row) → heads n r ≡ true → rows_of n (r ∷ []) ≡ r ∷ []
unfolding keep holds
rows_of-own n r h = rw (heads-field n r h) (ground arith)

Does-inserted :
    (s : Stmt) (n : ℕ) (u : String) (c d : Contents)
    → is_insert n s ≡ true
    → Does vxdb_unique s c d
    → rows_of n (d u) ≡ rows_of n (c u) ++ row_into u s
unfolding is_insert
Does-inserted (insert t r) n u c d h (free, does) = elim (Bool-cases (str_equal t u)) [
  | inl here ↦
      ap (λ k. rows_of n (k u)) does
      ∙ rw here (
          keep-append (holds (of_xid n)) (c t) (r ∷ [])
          ∙ ap (λ l. rows_of n (c t) ++ l) (rows_of-own n r h)
          ∙ ap (λ k. rows_of n (c k) ++ r ∷ []) (str_equal→eq t u here))
  | inr there ↦ ap (λ k. rows_of n (k u)) does ∙ rw there (sym (append-nil (rows_of n (c u))))
]
Does-inserted s n u c d h does = absurd (ground arith)

-- After INSERT statements for one virtual server each table has its old rows and the new ones.
pub DoesAll-inserted :
    (ss : List Stmt) (n : ℕ) (u : String) (c d : Contents)
    → all (is_insert n) ss ≡ true
    → DoesAll vxdb_unique ss c d
    → rows_of n (d u) ≡ rows_of n (c u) ++ inserted u ss
unfolding all inserted
DoesAll-inserted [] n u c d h same = ap (λ k. rows_of n (k u)) same ∙ sym (append-nil _)
DoesAll-inserted (s ∷ ss) n u c d h (m, first, rest) =
    DoesAll-inserted ss n u m d (ground arith) rest
    ∙ ap (λ l. l ++ inserted u ss) (Does-inserted s n u c m (ground arith) first)
    ∙ append_assoc (rows_of n (c u)) (row_into u s) (inserted u ss)

abbrev pub only_inserts : List Stmt → Bool
only_inserts [] = true
only_inserts (insert t r ∷ ss) = only_inserts ss
only_inserts (_ ∷ ss) = false

-- INSERT statements add their rows to each table, and do nothing else.
pub DoesAll-grows :
    (ss : List Stmt) (u : String) (c d : Contents)
    → only_inserts ss ≡ true
    → DoesAll vxdb_unique ss c d
    → d u ≡ c u ++ inserted u ss
unfolding inserted
DoesAll-grows [] u c d h same = ap (λ k. k u) same ∙ sym (append-nil (c u))
DoesAll-grows (insert t r ∷ ss) u c d h (m, (free, does), rest) =
    DoesAll-grows ss u m d h rest
    ∙ ap (λ l. l ++ inserted u ss)
        (elim (Bool-cases (str_equal t u)) [
          | inl here ↦
              ap (λ k. k u) does ∙ rw here (ap (λ k. c k ++ r ∷ []) (str_equal→eq t u here))
          | inr there ↦ ap (λ k. k u) does ∙ rw there (sym (append-nil (c u)))
        ])
    ∙ append_assoc (c u) (row_into u (insert t r)) (inserted u ss)
DoesAll-grows (s ∷ ss) u c d h does = absurd (ground arith)
