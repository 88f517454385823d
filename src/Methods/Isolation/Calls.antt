-- ===== src/Methods/Isolation/Calls.antt =====
-- A call of a method that configures one virtual server, from the gate to its statement.
use vcd.Base.{ℕ, false, String, [], ◌∷◌, some, ◌≡◌, ◌≢◌, refl, sym, ap, subst, ◌∙◌, str_equal}
use vcd.Platform.{Platform}
use vcd.Sql.{Contents}
use vcd.Vxdb.{vxdb_getxid}
use vcd.Vxdb.Rows.{rows_of}
use vcd.Call.{State, Result, ok, fault, M, ◌>>=◌, continue, Params, str, member, external, Reply}
use vcd.Methods.{method_init}
use vcd.Methods.Frame.{SameButVcd, Keeps-init, Keeps-count}
use vcd.Methods.Gate.{counted, init-Admits}
use vcd.Methods.Passing.{init-Unwritten}
use vcd.Methods.Isolation.Steps.{Ends}

module _ ⦃p : Platform⦄ where
  -- `x` is not the context id of the virtual server that the parameters name.
  abbrev pub NotNamed : ℕ → Contents → Params → Type 0
  NotNamed x d ps = (name : String) → member "name" ps ≡ some (str name) → x ≢ vxdb_getxid d name

  counted-same : (s : State) (t : String) → str_equal "vcd" t ≡ false → (counted s).db t ≡ s.db t
  counted-same s t other = (Keeps-count s.db ("requests" ∷ [])).at s (λ u _. refl) t other

  rows_after :
      (caps flags : ℕ) (f : Params → M Reply) (credentials params : Params) (s s' : State) (x : ℕ)
      (o : Result Params)
      → method_init (external credentials params) caps flags s ≡ (o, s')
      → Ends x (counted s).db (f params)
      → (t : String) → str_equal "vcd" t ≡ false
      → rows_of x ((continue o f s').1.db t) ≡ rows_of x (s.db t)
  rows_after caps flags f credentials params s s' x (fault e) ends h t other = ap (rows_of x) (
      subst (SameButVcd s.db) (ap (λ z. z.1) ends)
        ((Keeps-init s.db (external credentials params) caps flags).at s (λ u _. refl)) t other)
  rows_after caps flags f credentials params s s' x (ok r) ends h t other =
      let (_, same) = init-Admits credentials params caps flags s s' r ends in
      let unwritten = init-Unwritten credentials params caps flags s s' r ends in
      subst (λ q. rows_of x ((f q s').1.db t) ≡ rows_of x (s.db t)) (sym same)
        (h.at s' unwritten t ∙ ap (rows_of x) (counted-same s t other))

  -- The call of a method leaves the rows of `x` as they are, if the part behind the gate does.
  pub rows-call :
      (caps flags : ℕ) (f : Params → M Reply) (credentials params : Params) (s : State) (x : ℕ)
      → Ends x (counted s).db (f params)
      → (t : String) → str_equal "vcd" t ≡ false
      → rows_of x (((method_init (external credentials params) caps flags >>= f) s).1.db t)
        ≡ rows_of x (s.db t)
  rows-call caps flags f credentials params s x h t other =
      let (o, s') = method_init (external credentials params) caps flags s in
      rows_after caps flags f credentials params s s' x o refl h t other
