-- ===== src/Call/Sys/Loops.antt =====
-- Loops over the rows of a query, and single rows, against a plan for the rows that the query has.
use mathlib.Core.List.{append_assoc}
use vcd.Base.{
  Bool, true, false, List, [], ◌∷◌, ◌++◌, Option, none, some, ◌≡◌, refl, sym, ap, subst, ◌∙◌, ◌⊎◌,
  inl, inr, arith, Option-cases,
}
use vcd.Sql.{Query, query_clean}
use vcd.Sql.Answers.{Record, Steps, row, busy, done, failed, Runs, answer}
use vcd.Platform.{Platform}
use vcd.Kernel.{Syscall}
use vcd.Vxdb.{vxdb_foreach_step, vxdb_step}
use vcd.Call.{State, ok, fault, code, M, pure, ◌>>=◌, fetch_one, step_one}
use vcd.Call.Loops.{each, for_rows, loop_ended, loop_over}
use vcd.Call.Sys.Follows.{Follows, FollowsAt-fault, Follows-pure, Follows-bind, called}

-- The calls for one row after the other.
unfoldable pub calls_for : (Record → List Syscall) → List Record → List Syscall
calls_for f [] = []
calls_for f (r ∷ rs) = f r ++ calls_for f rs

calls_for-append :
    (f : Record → List Syscall) (rs qs : List Record)
    → calls_for f (rs ++ qs) ≡ calls_for f rs ++ calls_for f qs
unfolding calls_for
calls_for-append f [] qs = refl
calls_for-append f (r ∷ rs) qs =
    ap (λ l. f r ++ l) (calls_for-append f rs qs)
    ∙ sym (append_assoc (f r) (calls_for f rs) (calls_for f qs))

-- The first row, if there is one.
abbrev pub head_of : List Record → Option Record
head_of [] = none
head_of (r ∷ rs) = some r

-- The rows that a loop has not seen: none after VXDB_DONE.
foreach-rest :
    (all : List Record) (s : Steps)
    → Runs all s
    → (rest : List Record) × (all ≡ (vxdb_foreach_step s).0 ++ rest)
      × ((vxdb_foreach_step s).1 ≡ true → rest ≡ [])
unfolding vxdb_foreach_step
foreach-rest all (busy s) h = foreach-rest all s h
foreach-rest [] (row r s) h = elim h [ ]
foreach-rest (q ∷ all) (row r s) h =
    let (rest, split, ended) = foreach-rest all s h.1 in
    (rest, ap (λ l. q ∷ l) split ∙ ap (λ z. z ∷ (vxdb_foreach_step s).0 ++ rest) (sym h.0), ended)
foreach-rest [] done h = ([], refl, λ e. refl)
foreach-rest (q ∷ all) done h = elim h [ ]
foreach-rest all failed h = (all, refl, λ e. absurd (ground arith))

each-Follows :
    (body : Record → M (Unit {0})) (f : Record → List Syscall)
    → ((r : Record) (s : State) → Follows (body r) s (f r))
    → (rs : List Record) (s : State) → Follows (each body rs) s (calls_for f rs)
unfolding each calls_for
each-Follows body f h [] s = Follows-pure tt s
each-Follows body f h (r ∷ rs) s =
    Follows-bind (body r) (λ _. each body rs) s (f r) (calls_for f rs) (h r s)
      (λ a e. each-Follows body f h rs (called s (f r)))

module _ ⦃p : Platform⦄ where
  ended-Follows :
      (ok : Bool) (f : Record → List Syscall) (rest : List Record) (s : State)
      → (ok ≡ true → rest ≡ [])
      → Follows (loop_ended ok) s (calls_for f rest)
  unfolding calls_for
  ended-Follows true f rest s h =
      subst (λ l. Follows (pure tt) s (calls_for f l)) (sym (h refl)) (Follows-pure tt s)
  ended-Follows false f rest s h = FollowsAt-fault (code 400) s (calls_for f rest)

  over-Follows :
      (body : Record → M (Unit {0})) (f : Record → List Syscall) (all : List Record) (st : Steps)
      (s : State)
      → ((r : Record) (s : State) → Follows (body r) s (f r))
      → Runs all st
      → Follows (loop_over body (some st)) s (calls_for f all)
  over-Follows body f all st s h runs =
      let (rest, split, ended) = foreach-rest all st runs in
      let (rs, over) = vxdb_foreach_step st in
      let plan : calls_for f all ≡ calls_for f rs ++ calls_for f rest =
        ap (calls_for f) split ∙ calls_for-append f rs rest in
      subst (Follows (loop_over body (some st)) s) (sym plan) (
        Follows-bind (each body rs) (λ _. loop_ended over) s (calls_for f rs) (calls_for f rest)
          (each-Follows body f h rs s)
          (λ a e. ended-Follows over f rest (called s (calls_for f rs)) ended))

  -- A loop whose body follows a plan for each row follows the plan for all rows of the query.
  pub Follows-for_rows :
      (q : Query) (body : Record → M (Unit {0})) (f : Record → List Syscall) (s : State)
      → query_clean q ≡ true
      → ((r : Record) (s : State) → Follows (body r) s (f r))
      → Follows (for_rows q body) s (calls_for f (answer p.arrange q s.db))
  unfolding for_rows
  Follows-for_rows q body f s clean h = elim (Option-cases (p.prepare q s.db)) [
    | inl none_there ↦ rw none_there (FollowsAt-fault (code 400) s _)
    | inr (st, prepared) ↦ rw prepared (
        over-Follows body f (answer p.arrange q s.db) st s h
          (p.prepare_sound q s.db st clean prepared))
  ]

  one-cases :
      (rs : List Record) (st : Steps) (s : State)
      → Runs rs st
      → (step_one (vxdb_step st) s ≡ (fault (code 400), s))
        ⊎ (step_one (vxdb_step st) s ≡ (ok (head_of rs), s))
  unfolding vxdb_step
  one-cases rs (busy st) s h = one-cases rs st s h
  one-cases [] (row r st) s h = elim h [ ]
  one-cases (q ∷ rs) (row r st) s h = inr (ap (λ z. (ok (some z), s)) h.0)
  one-cases [] done s h = inr refl
  one-cases (q ∷ rs) done s h = elim h [ ]
  one-cases rs failed s h = inl refl

  -- The first row of a query, or a fault.
  pub fetch_one-cases :
      (q : Query) (s : State)
      → query_clean q ≡ true
      → (fetch_one q s ≡ (fault (code 400), s))
        ⊎ (fetch_one q s ≡ (ok (head_of (answer p.arrange q s.db)), s))
  unfolding fetch_one
  fetch_one-cases q s clean = elim (Option-cases (p.prepare q s.db)) [
    | inl none_there ↦ inl (rw none_there refl)
    | inr (st, prepared) ↦
        rw prepared
          (one-cases (answer p.arrange q s.db) st s (p.prepare_sound q s.db st clean prepared))
  ]

  pub Follows-fetch_one :
      {A : Type 0} (q : Query) (f : Option Record → M A) (s : State) (plan : List Syscall)
      → query_clean q ≡ true
      → Follows (f (head_of (answer p.arrange q s.db))) s plan
      → Follows (fetch_one q >>= f) s plan
  Follows-fetch_one {A} q f s plan clean h = elim (fetch_one-cases q s clean) [
    | inl failed_there ↦ rw failed_there (FollowsAt-fault {A = A} (code 400) s plan)
    | inr found ↦ rw found h
  ]
