-- ===== src/Vxdb/Lookup.antt =====
-- What a first row, or none, says of the rows of a table.
use mathlib.Core.List.{Mem, Perm, mem-cons_self, not-mem-nil}
use mathlib.Core.List.Perm
use vcd.Base.{
  Bool, true, String, List, [], ◌∷◌, map, Option, none, some, ◌≡◌, refl, ap, subst, arith, any,
  keep, mem-keep, inl, inr, Bool-cases,
}
use vcd.Sql.{Row, Contents, select, limit_one, Order, holds, row_clean, query_clean}
use vcd.Sql.Answers.{
  Record, Steps, row, busy, done, failed, Runs, Completes, answer, project, first_only,
}
use vcd.Platform.{Platform, IsHealthy}
use vcd.Vxdb.{vxdb_step, first_row, head_row}

-- A delivered row is the first of the answer.
Runs-head :
    (rs : List Record) (s : Steps) (r : Record)
    → Runs rs s
    → head_row (vxdb_step s) ≡ some r
    → (rest : List Record) × (rs ≡ r ∷ rest)
unfolding vxdb_step
Runs-head rs (busy s) r h e = Runs-head rs s r h e
Runs-head [] (row q s) r h e = elim h [ ]
Runs-head (x ∷ rs) (row q s) r h e = (rs, ground arith)
Runs-head rs done r h e = cc
Runs-head rs failed r h e = cc

-- Steps that complete deliver the first row of an answer that has one.
pub Completes-head :
    (x : Record) (rs : List Record) (s : Steps)
    → Runs (x ∷ rs) s
    → Completes s
    → head_row (vxdb_step s) ≡ some x
unfolding vxdb_step
Completes-head x rs (busy s) h c = Completes-head x rs s h c
Completes-head x rs (row q s) h c = ap some h.0
Completes-head x rs done h c = elim h [ ]
Completes-head x rs failed h c = elim c [ ]

head_of_map :
    (f : Row → Record) (rows : List Row) (r : Record) (rest : List Record)
    → map f rows ≡ r ∷ rest
    → (x : Row) × Mem x rows × (r ≡ f x)
head_of_map f [] r rest e = cc
head_of_map f (x ∷ rows) r rest e = (x, mem-cons_self, ground arith)

first_row-some :
    (m : Option Steps) (r : Record)
    → first_row m ≡ some r
    → (s : Steps) × (m ≡ some s) × (head_row (vxdb_step s) ≡ some r)
unfolding first_row
first_row-some none r e = cc
first_row-some (some s) r e = (s, refl, e)

first_only-head :
    (rs : List Record) (r : Record) (rest : List Record)
    → first_only rs ≡ r ∷ rest
    → (more : List Record) × (rs ≡ r ∷ more)
first_only-head [] r rest e = cc
first_only-head (x ∷ rs) r rest e = (rs, ground arith)

nonempty_of_any :
    (f : Row → Bool) (rows : List Row)
    → any f rows ≡ true
    → (x : Row) × (xs : List Row) × (keep f rows ≡ x ∷ xs)
unfolding any keep
nonempty_of_any f [] e = cc
nonempty_of_any f (x ∷ rows) e = elim (Bool-cases (f x)) [
  | inl here ↦ (x, keep f rows, rw here)
  | inr there ↦
      let (y, ys, q) = nonempty_of_any f rows (rw there at e) in (y, ys, ground (arith, there, q))
]

nonempty_of_perm :
    (rs : List Row) (x : Row) (xs : List Row)
    → Perm rs (x ∷ xs)
    → (y : Row) × (ys : List Row) × (rs ≡ y ∷ ys)
nonempty_of_perm [] x xs h = absurd (not-mem-nil ((Perm.mem_iff h).1 mem-cons_self))
nonempty_of_perm (y ∷ ys) x xs h = (y, ys, refl)

module _ ⦃p : Platform⦄ where
  -- A row that sqlite delivers first is a row of the table that meets the condition.
  pub first_row_sound :
      (cols : List String) (t : String) (w : Row) (o : Order) (db : Contents) (r : Record)
      → row_clean w ≡ true
      → first_row (p.prepare (select cols t w o) db) ≡ some r
      → (x : Row) × Mem x (db t) × (holds w x ≡ true) × (r ≡ project cols x)
  unfolding answer query_clean
  first_row_sound cols t w o db r clean e =
      let (s, prepared, head) = first_row-some _ r e in
      let (rest, shape) =
        Runs-head _ s r (p.prepare_sound (select cols t w o) db s clean prepared) head in
      let (x, delivered, is_x) = head_of_map _ _ r rest shape in
      let (met, there) =
        mem-keep (holds w) (db t)
          ((Perm.mem_iff (p.arrange_perm o (keep (holds w) (db t)))).0 delivered) in
      (x, there, met, is_x)

  -- The same for a query with LIMIT 1.
  pub first_row_limit_one :
      (cols : List String) (t : String) (w : Row) (o : Order) (db : Contents) (r : Record)
      → row_clean w ≡ true
      → first_row (p.prepare (limit_one (select cols t w o)) db) ≡ some r
      → (x : Row) × Mem x (db t) × (holds w x ≡ true)
  unfolding answer query_clean
  first_row_limit_one cols t w o db r clean e =
      let (s, prepared, head) = first_row-some _ r e in
      let (rest, shape) =
        Runs-head _ s r (p.prepare_sound (limit_one (select cols t w o)) db s clean prepared)
          head in
      let (more, whole) = first_only-head _ r rest shape in
      let (x, delivered, _) = head_of_map _ _ r more whole in
      let (met, there) =
        mem-keep (holds w) (db t)
          ((Perm.mem_iff (p.arrange_perm o (keep (holds w) (db t)))).0 delivered) in
      (x, there, met)

  -- While no call of sqlite fails, a row that meets the condition makes sqlite deliver one.
  pub first_row_complete :
      (cols : List String) (t : String) (w : Row) (o : Order) (db : Contents)
      → IsHealthy p
      → row_clean w ≡ true
      → any (holds w) (db t) ≡ true
      → (r : Record) × (first_row (p.prepare (select cols t w o) db) ≡ some r)
  unfolding answer query_clean first_row
  first_row_complete cols t w o db healthy clean e =
      let (s, prepared, completes) = healthy.prepare_total (select cols t w o) db clean in
      let (x, xs, kept) = nonempty_of_any (holds w) (db t) e in
      let (y, ys, arranged) =
        nonempty_of_perm _ x xs (subst (Perm _) kept (p.arrange_perm o (keep (holds w) (db t)))) in
      let runs = p.prepare_sound (select cols t w o) db s clean prepared in
      (
        project cols y,
        rw prepared (
            Completes-head _ _ s (subst (λ l. Runs (map (project cols) l) s) arranged runs)
              completes),
      )
