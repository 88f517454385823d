-- ===== src/Call/Fetch.antt =====
-- Reading and writing the database: what a method knows when no fault is set.
use vcd.Base.{
  Bool, true, false, List, [], ◌∷◌, Option, none, some, ◌≡◌, refl, arith, Option-cases, inl, inr,
}
use vcd.Platform.{Platform, IsHealthy}
use vcd.Sql.{Contents, Stmt, Query, query_clean}
use vcd.Sql.Answers.{Record, Steps, row, busy, done, failed, Runs, Completes, answer}
use vcd.Vxdb.{vxdb_foreach_step}
use vcd.Call.{◌>>=◌, State, Fault, ok, M, fault_if, exec_or_fault, vxdb_exec, fetch, step_rows}

-- The loop has seen all rows of the result, however often sqlite was busy, if it ends with
-- VXDB_DONE.
foreach-all :
    (rs xs : List Record) (s : Steps) → Runs rs s → vxdb_foreach_step s ≡ (xs, true) → xs ≡ rs
unfolding vxdb_foreach_step
foreach-all rs xs (busy s) h e = foreach-all rs xs s h e
foreach-all [] xs (row r s) h e = elim h [ ]
foreach-all (q ∷ rs) xs (row r s) h e =
    let rest = foreach-all rs (vxdb_foreach_step s).0 s h.1 (ground (arith, e)) in
    ground (arith, rest, h.0)
foreach-all [] xs done h e = ground arith
foreach-all (q ∷ rs) xs done h e = elim h [ ]
foreach-all rs xs failed h e = absurd (ground arith)

foreach-Completes : (s : Steps) → Completes s → (vxdb_foreach_step s).1 ≡ true
unfolding vxdb_foreach_step
foreach-Completes (busy s) c = foreach-Completes s c
foreach-Completes (row r s) c = foreach-Completes s c
foreach-Completes done c = refl
foreach-Completes failed c = elim c [ ]

module _ ⦃p : Platform⦄ where
  fetched :
      (q : Query) (s t : State) (o : Option Steps) (rs : List Record)
      → query_clean q ≡ true
      → p.prepare q s.db ≡ o
      → step_rows o s ≡ (ok rs, t)
      → (rs ≡ answer p.arrange q s.db) × (t ≡ s)
  fetched q s t none rs clean prepared e = absurd (ground arith)
  fetched q s t (some steps) rs clean prepared e =
      let runs = p.prepare_sound q s.db steps clean prepared in
      let seen = foreach-all (answer p.arrange q s.db) rs steps runs in
      (ground (arith, e, seen), ground (arith, e))

  -- A method that reads the rows of a well-formed query without a fault has read the answer to the
  -- query, each row once and in its order, and has changed nothing.
  pub fetch_sound :
      (q : Query) (s t : State) (rs : List Record)
      → query_clean q ≡ true
      → fetch q s ≡ (ok rs, t)
      → (rs ≡ answer p.arrange q s.db) × (t ≡ s)
  unfolding fetch
  fetch_sound q s t rs clean e = fetched q s t (p.prepare q s.db) rs clean refl e

  -- While no call of sqlite fails, a loop sees the answer to every well-formed query, and its end.
  pub foreach_complete :
      (q : Query) (c : Contents)
      → IsHealthy p
      → query_clean q ≡ true
      → (steps : Steps) × (p.prepare q c ≡ some steps)
        × (vxdb_foreach_step steps ≡ (answer p.arrange q c, true))
  foreach_complete q c healthy clean =
      let (steps, prepared, completes) = healthy.prepare_total q c clean in
      let through = foreach-Completes steps completes in
      let runs = p.prepare_sound q c steps clean prepared in
      let seen = foreach-all (answer p.arrange q c) (vxdb_foreach_step steps).0 steps runs in
      (steps, prepared, ground (arith, through, seen))

  -- While no call of sqlite fails, a method reads the answer to every well-formed query.
  pub fetch_complete :
      (q : Query) (s : State)
      → IsHealthy p
      → query_clean q ≡ true
      → fetch q s ≡ (ok (answer p.arrange q s.db), s)
  unfolding fetch
  fetch_complete q s healthy clean =
      let (steps, prepared, completes) = healthy.prepare_total q s.db clean in
      let through = foreach-Completes steps completes in
      let runs = p.prepare_sound q s.db steps clean prepared in
      let seen = foreach-all (answer p.arrange q s.db) (vxdb_foreach_step steps).0 steps runs in
      rw prepared (ground (arith, through, seen))

  -- After statements that set no fault the sequence goes on in the database that they left.
  pub exec_or_fault-then :
      {B : Type 0} (ss : List Stmt) (f : Unit {0} → M B) (s t : State) (b : B)
      → (exec_or_fault ss >>= f) s ≡ (ok b, t)
      → (d : Contents) × (p.exec ss s.db ≡ some d) × (f tt (record s { db = d }) ≡ (ok b, t))
  unfolding exec_or_fault vxdb_exec
  exec_or_fault-then ss f s t b e = elim (Option-cases (p.exec ss s.db)) [
    | inl refused ↦
        absurd (let e' = rw (refused, exec_or_fault, vxdb_exec) at e in ground (arith, e'))
    | inr (d, went) ↦ (d, went, rw (went, exec_or_fault, vxdb_exec) at e)
  ]

-- After a test that set no fault the sequence goes on in the same state.
pub fault_if-then :
    {B : Type 0} (c : Bool) (x : Fault) (f : Unit {0} → M B) (s t : State) (b : B)
    → (fault_if c x >>= f) s ≡ (ok b, t)
    → (c ≡ false) × (f tt s ≡ (ok b, t))
unfolding fault_if
fault_if-then true x f s t b e = absurd (ground arith)
fault_if-then false x f s t b e = (refl, e)
