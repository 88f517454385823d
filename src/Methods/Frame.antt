-- ===== src/Methods/Frame.antt =====
-- What a request leaves alone: the gate writes nothing but the counters of the table "vcd".
use vcd.Base.{
  ℕ, Bool, false, String, List, [], ◌∷◌, Option, none, some, ◌≡◌, refl, sym, ap, subst, arith,
  str_equal, all,
}
use vcd.Platform.{Platform}
use vcd.Sql.{Contents, count, stmt_clean}
use vcd.Call.{
  State, fault, Fault, M, ◌>>=◌, Params, Request, external, internal, Reply, vxdb_exec, committed,
}
use vcd.Call.Laws.{>>=-fault}
use vcd.Call.Keeps.{Keeps, Keeps-pure, Keeps-raise, Keeps-asks, Keeps-if, Keeps-get_str, Keeps-bind}
use vcd.Methods.{method_init, method_authorize, method_check_flags, method_lock}
use vcd.Methods.Registry.{Method, call}
use vcd.Methods.Registry.Demands.{required_caps, required_flags}

-- The rows of every table but "vcd" are those of `c`.
abbrev pub SameButVcd : Contents → State → Type 0
SameButVcd c s = (t : String) → str_equal "vcd" t ≡ false → s.db t ≡ c t

module _ ⦃p : Platform⦄ (c : Contents) where
  counted-same :
      (cols : List String) (s : State) (o : Option Contents)
      → p.exec (count cols ∷ []) s.db ≡ o
      → SameButVcd c s
      → SameButVcd c (committed s o).1
  unfolding all stmt_clean
  counted-same cols s none e h = h
  counted-same cols s (some d) e h =
      let (m, counts, same) = p.exec_sound (count cols ∷ []) s.db d refl e in
      λ t other. ground (arith, same, counts t other, h t other)

  pub Keeps-count : (cols : List String) → Keeps (SameButVcd c) (vxdb_exec (count cols ∷ []))
  unfolding vxdb_exec
  Keeps-count cols = record {
    at = λ s h. counted-same cols s (p.exec (count cols ∷ []) s.db) refl h;
  }

  Keeps-lock : (name : String) → Keeps (SameButVcd c) (method_lock name)
  unfolding method_lock
  Keeps-lock name = record { at = λ s h t other. ground (arith, h t other) }

  Keeps-check_flags :
      (params : Params) (b : Bool) (user : Option String) (flags : ℕ)
      → Keeps (SameButVcd c) (method_check_flags params b user flags)
  unfolding method_check_flags
  Keeps-check_flags params b user flags =
      search (Keeps-bind, Keeps-if, Keeps-pure, Keeps-raise, Keeps-asks, Keeps-get_str, Keeps-lock)
        depth 9

  Keeps-authorize :
      (user pass : String) (params : Params) (caps flags : ℕ)
      → Keeps (SameButVcd c) (method_authorize user pass params caps flags)
  unfolding method_authorize
  Keeps-authorize user pass params caps flags =
      search
        (Keeps-bind, Keeps-if, Keeps-pure, Keeps-raise, Keeps-asks, Keeps-check_flags, Keeps-count)
        depth 9

  -- method_init leaves every table but "vcd" as it is, on each of its ways out.
  pub Keeps-init :
      (request : Request) (caps flags : ℕ) → Keeps (SameButVcd c) (method_init request caps flags)
  unfolding method_init
  Keeps-init (external credentials params) caps flags =
      search (Keeps-bind, Keeps-count, Keeps-get_str, Keeps-authorize) depth 9
  Keeps-init (internal params) caps flags =
      search (Keeps-bind, Keeps-if, Keeps-pure, Keeps-check_flags) depth 9

module _ ⦃p : Platform⦄ where
  refused_of :
      (caps flags : ℕ) (f : Params → M Reply) (request : Request) (s : State) (x : Fault)
      → (method_init request caps flags s).0 ≡ fault x
      → ((method_init request caps flags >>= f) s).0 ≡ fault x
        × SameButVcd s.db ((method_init request caps flags >>= f) s).1
  refused_of caps flags f request s x e =
      let ends = >>=-fault (method_init request caps flags) f s x e in
      let kept = (Keeps-init s.db request caps flags).at s (λ t other. refl) in
      (ap (λ z. z.0) ends, subst (λ z. SameButVcd s.db z.1) (sym ends) kept)

  -- A client's request that method_init refuses gets the fault of method_init, whatever the method,
  -- and no table but "vcd", with its counters, has changed.
  pub call-refused :
      (m : Method) (credentials params : Params) (s : State) (x : Fault)
      → (method_init (external credentials params) (required_caps m) (required_flags m) s).0
        ≡ fault x
      → ((call m (external credentials params) s).0 ≡ fault x)
        × SameButVcd s.db (call m (external credentials params) s).1
  unfolding call required_caps required_flags
  call-refused Method.vcd_login credentials params s x e =
      refused_of _ _ _ (external credentials params) s x e
  call-refused m credentials params s x e = refused_of _ _ _ (external credentials params) s x e
