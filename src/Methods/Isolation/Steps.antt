-- ===== src/Methods/Isolation/Steps.antt =====
-- The steps of the methods that configure one virtual server: up to their statement they only read
-- the database, and the statement touches no row of another one.
use vcd.Base.{
  ℕ, Bool, true, false, String, List, [], ◌∷◌, ◌++◌, Option, none, some, ◌≡◌, ◌≢◌, refl, sym, ap,
  subst, ◌∙◌, all, inl, inr, ◌==◌, Bool-cases, Option-cases,
}
use vcd.Base.Int.{ℤ}
use vcd.Platform.{Platform}
use vcd.Sql.{Contents, Stmt, stmt_clean, quote_free}
use vcd.Vxdb.{vxdb_getxid}
use vcd.Vxdb.Rows.{rows_of, is_for, DoesAll-others}
use vcd.Call.{
  looks, reads, State, Fault, M, ◌>>=◌, pure, fault_if, Params, str, member, get_str, get_int,
  get_bool, vxdb_exec, exec_or_fault, committed,
}
use vcd.Kernel.{Syscall}
use vcd.Call.Sys.{must, must_if}
use vcd.Call.Laws.{get_str-cases, get_int-cases, get_bool-cases}
use vcd.Methods.Common.{require_xid}
use vcd.Methods.Isolation.Statements.{params_clean, member-clean}

-- In a state with the database `d` the steps end with the rows of `x` as they are in `d`.
pub record Ends (x : ℕ) (d : Contents) {A : Type 0} (m : M A) : Type 0 where
  pub at : (s : State) → s.db ≡ d → (t : String) → rows_of x ((m s).1.db t) ≡ rows_of x (d t)

module _ ⦃p : Platform⦄ (x : ℕ) (d : Contents) where
  same_rows : (s : State) → s.db ≡ d → (t : String) → rows_of x (s.db t) ≡ rows_of x (d t)
  same_rows s e t = ap (λ c. rows_of x (c t)) e

  module _ {A : Type 0} where
    pub Ends-fault_if :
        (b : Bool) (e : Fault) (f : Unit {0} → M A)
        → Ends x d (f tt)
        → Ends x d (fault_if b e >>= f)
    unfolding fault_if
    Ends-fault_if true e f h = record { at = λ s q t. same_rows s q t }
    Ends-fault_if false e f h = h

    pub Ends-get_str :
        (ps : Params) (k : String) (f : String → M A)
        → params_clean ps ≡ true
        → ((v : String) → member k ps ≡ some (str v) → quote_free v ≡ true → Ends x d (f v))
        → Ends x d (get_str k ps >>= f)
    Ends-get_str ps k f clean h = elim (get_str-cases k ps) [
      | inl (v, named, gives) ↦
          subst (λ m. Ends x d (m >>= f)) (sym gives) (h v named (member-clean k ps v clean named))
      | inr gives ↦
          subst (λ m. Ends x d (m >>= f)) (sym gives) (record { at = λ s q t. same_rows s q t })
    ]

    pub Ends-get_int :
        (k : String) (ps : Params) (f : ℤ → M A)
        → ((v : ℤ) → Ends x d (f v))
        → Ends x d (get_int k ps >>= f)
    Ends-get_int k ps f h = elim (get_int-cases k ps) [
      | inl (v, gives) ↦ subst (λ m. Ends x d (m >>= f)) (sym gives) (h v)
      | inr gives ↦
          subst (λ m. Ends x d (m >>= f)) (sym gives) (record { at = λ s q t. same_rows s q t })
    ]

    pub Ends-get_bool :
        (k : String) (ps : Params) (f : Bool → M A)
        → ((v : Bool) → Ends x d (f v))
        → Ends x d (get_bool k ps >>= f)
    Ends-get_bool k ps f h = elim (get_bool-cases k ps) [
      | inl (v, gives) ↦ subst (λ m. Ends x d (m >>= f)) (sym gives) (h v)
      | inr gives ↦
          subst (λ m. Ends x d (m >>= f)) (sym gives) (record { at = λ s q t. same_rows s q t })
    ]

    require_rows :
        (name : String) (f : ℕ → M A) (s : State) (n : ℕ)
        → vxdb_getxid s.db name ≡ n
        → s.db ≡ d
        → Ends x d (f n)
        → (t : String) → rows_of x (((require_xid name >>= f) s).1.db t) ≡ rows_of x (d t)
    unfolding require_xid
    require_rows name f s n found q h t = elim (Bool-cases (n == 0)) [
      | inl missing ↦ rw (found, missing) (same_rows s q t)
      | inr there ↦ rw (found, there) (h.at s q t)
    ]

    -- The context id is that of the name in the request.
    pub Ends-require_xid :
        (ps : Params) (name : String) (f : ℕ → M A)
        → member "name" ps ≡ some (str name)
        → ((named : String) → member "name" ps ≡ some (str named) → x ≢ vxdb_getxid d named)
        → ((n : ℕ) → x ≢ n → Ends x d (f n))
        → Ends x d (require_xid name >>= f)
    Ends-require_xid ps name f named others h = record {
      at = λ s q t.
          let found = ap (λ c. vxdb_getxid c name) q in
          require_rows name f s (vxdb_getxid d name) found q
            (h (vxdb_getxid d name) (others name named)) t;
    }

  exec_rows :
      (ss : List Stmt) (n : ℕ) (o : Option Contents) (s : State)
      → x ≢ n
      → all (is_for n) ss ≡ true
      → all stmt_clean ss ≡ true
      → p.exec ss s.db ≡ o
      → (t : String) → rows_of x ((committed s o).1.db t) ≡ rows_of x (s.db t)
  exec_rows ss n none s other for clean e t = refl
  exec_rows ss n (some c) s other for clean e t =
      DoesAll-others ss x n s.db c for other (p.exec_sound ss s.db c clean e) t

  pub Ends-exec :
      {A : Type 0} (ss : List Stmt) (a : A) (n : ℕ)
      → x ≢ n
      → all (is_for n) ss ≡ true
      → all stmt_clean ss ≡ true
      → Ends x d (exec_or_fault ss >>= λ _. pure a)
  unfolding exec_or_fault vxdb_exec
  Ends-exec ss a n other for clean = record {
    at = λ s q t.
        let kept = exec_rows ss n (p.exec ss s.db) s other for clean refl t in
        elim (Option-cases (p.exec ss s.db)) [
          | inl refused ↦ rw refused (same_rows s q t)
          | inr (c, went) ↦ rw went (
              subst (λ o. rows_of x ((committed s o).1.db t) ≡ rows_of x (s.db t)) went kept
              ∙ same_rows s q t)
        ];
  }

-- The steps leave the database as it is.
pub record Quiet {A : Type 0} (m : M A) : Type 0 where
  pub at : (s : State) → (m s).1.db ≡ s.db

module _ {A : Type 0} where
  pub Quiet-pure : (a : A) → Quiet (pure a)
  Quiet-pure a = record { at = λ s. refl }

  pub Quiet-fault_if :
      (b : Bool) (e : Fault) (f : Unit {0} → M A) → Quiet (f tt) → Quiet (fault_if b e >>= f)
  unfolding fault_if
  Quiet-fault_if true e f h = record { at = λ s. refl }
  Quiet-fault_if false e f h = h

  pub Quiet-reads :
      {B : Type 0} (g : Contents → B) (f : B → M A)
      → ((b : B) → Quiet (f b))
      → Quiet (reads g >>= f)
  unfolding reads
  Quiet-reads g f h = record { at = λ s. (h (g s.db)).at s }

  pub Quiet-looks :
      {B : Type 0} (g : List Syscall → B) (f : B → M A)
      → ((b : B) → Quiet (f b))
      → Quiet (looks g >>= f)
  unfolding looks
  Quiet-looks g f h = record { at = λ s. (h (g s.calls)).at s }

module _ ⦃p : Platform⦄ {A : Type 0} where
  -- A call of the kernel leaves the database alone, whether it succeeds or not.
  pub Quiet-must : (c : Syscall) (f : Unit {0} → M A) → Quiet (f tt) → Quiet (must c >>= f)
  unfolding must fault_if
  Quiet-must c f h = record {
    at = λ s.
        let s' = record s { calls = s.calls ++ c ∷ [] } in
        elim (Bool-cases (p.accepts s.calls c)) [
          | inl done ↦ rw (done, must, fault_if) (h.at s')
          | inr refused ↦ rw (refused, must, fault_if) refl
        ];
  }

  pub Quiet-must_if :
      (b : Bool) (c : Syscall) (f : Unit {0} → M A) → Quiet (f tt) → Quiet (must_if b c >>= f)
  unfolding must_if
  Quiet-must_if true c f h = Quiet-must c f h
  Quiet-must_if false c f h = h

module _ ⦃p : Platform⦄ (x : ℕ) (d : Contents) where
  pub Ends-looks :
      {A B : Type 0} (g : List Syscall → B) (f : B → M A)
      → ((b : B) → Ends x d (f b))
      → Ends x d (looks g >>= f)
  unfolding looks
  Ends-looks g f h = record { at = λ s q t. (h (g s.calls)).at s q t }

  pub Ends-reads :
      {A B : Type 0} (g : Contents → B) (f : B → M A)
      → ((b : B) → Ends x d (f b))
      → Ends x d (reads g >>= f)
  unfolding reads
  Ends-reads g f h = record { at = λ s q t. (h (g s.db)).at s q t }

  -- A statement for one virtual server, and steps that leave the database as it is.
  pub Ends-exec-Quiet :
      {A : Type 0} (ss : List Stmt) (f : Unit {0} → M A) (n : ℕ)
      → x ≢ n
      → all (is_for n) ss ≡ true
      → all stmt_clean ss ≡ true
      → Quiet (f tt)
      → Ends x d (exec_or_fault ss >>= f)
  unfolding exec_or_fault vxdb_exec
  Ends-exec-Quiet ss f n other for clean quiet = record {
    at = λ s q t.
        let kept = exec_rows x d ss n (p.exec ss s.db) s other for clean refl t in
        elim (Option-cases (p.exec ss s.db)) [
          | inl refused ↦ rw refused (same_rows x d s q t)
          | inr (c, went) ↦ rw went (
              ap (λ z. rows_of x (z t)) (quiet.at (record s { db = c }))
              ∙ subst (λ o. rows_of x ((committed s o).1.db t) ≡ rows_of x (s.db t)) went kept
              ∙ same_rows x d s q t)
        ];
  }
