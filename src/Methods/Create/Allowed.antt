-- ===== src/Methods/Create/Allowed.antt =====
-- Who may create a virtual server, or build one again.
use vcd.Base.{
  Bool, true, false, String, List, Option, none, some, ◌≡◌, ◌≢◌, refl, sym, ap, subst, ◌∙◌, arith,
  ◌⊎◌, inl, inr, ◌==◌, Bool-cases,
}
use vcd.Platform.{Platform}
use vcd.Sql.{Contents}
use vcd.Kernel.{Syscall}
use vcd.Lists.VcdCap
use vcd.Vxdb.{vxdb_getxid}
use vcd.Auth.{auth_isowner, auth_isadmin}
use vcd.Call.{
  State, ok, M, ◌>>=◌, looks, reads, Params, str, flag, member, external, Reply, get_bool,
}
use vcd.Call.Keeps.{Keeps, Keeps-pure, Keeps-raise, Keeps-fault_if, Keeps-bind}
use vcd.Call.Sys.Keeps.{Keeps-looks}
use vcd.Call.Laws.{>>=-ok, get_bool-cases, get_bool-flag}
use vcd.Call.Sys.{is_alive}
use vcd.Methods.{m_lock, method_init, meinval}
use vcd.Methods.Gate.{counted}
use vcd.Methods.Grant.{str-injective}
use vcd.Methods.Passing.{init-Unwritten, get_str-then, reads-then}
use vcd.Methods.Helper.Plan.Still.{init-Still}
use vcd.Methods.Create.{m_vx_create, create_rest, may_build, template_dir, path_or_fault}

module _ ⦃p : Platform⦄ where
  -- The database and the calls when a user may build the virtual server.
  abbrev pub MayBuild : Contents → List Syscall → String → String → Bool → Type 0
  MayBuild db calls user name force =
      ((vxdb_getxid db name ≡ 0) × (auth_isadmin db user ≡ true))
      ⊎ ((vxdb_getxid db name ≢ 0)
          × (auth_isowner db user name ≡ true)
          × (force ≡ true)
          × (is_alive (p.vx_info calls (vxdb_getxid db name)) ≡ false))

  may_build-ok :
      (user name : String) (force : Bool) (s t : State)
      → may_build user name force (vxdb_getxid s.db name) s ≡ (ok tt, t)
      → MayBuild s.db s.calls user name force × (t ≡ s)
  unfolding may_build reads looks
  may_build-ok user name force s t e = elim (Bool-cases (vxdb_getxid s.db name == 0)) [
    | inl new ↦
        let is_zero : vxdb_getxid s.db name ≡ 0 = ground arith in
        elim (Bool-cases (auth_isadmin s.db user)) [
          | inl admin ↦
              (inl (is_zero, admin), ap (λ z. z.1) (sym (rw (new, admin, may_build) at e)))
          | inr not_admin ↦
              absurd (let e' = rw (new, not_admin, may_build) at e in ground (arith, e'))
        ]
    | inr old ↦ elim (Bool-cases (auth_isowner s.db user name)) [
      | inr foreign ↦ absurd (let e' = rw (old, foreign, may_build) at e in ground (arith, e'))
      | inl own ↦ elim (Bool-cases force) [
        | inr unforced ↦
            absurd (let e' = rw (old, own, unforced, may_build) at e in ground (arith, e'))
        | inl forced ↦ elim (Bool-cases (is_alive (p.vx_info s.calls (vxdb_getxid s.db name)))) [
          | inl runs ↦
              absurd (let e' = rw (old, own, forced, runs, may_build) at e in ground (arith, e'))
          | inr stopped ↦ (
            inr (λ z. absurd (ground (arith, old, z)), own, forced, stopped),
            ap (λ z. z.1) (sym (rw (old, own, forced, stopped, may_build) at e)),
          )
        ]
      ]
    ]
  ]

  Keeps-path_or_fault : {P : State → Type 0} (o : Option String) → Keeps P (path_or_fault o)
  Keeps-path_or_fault none = Keeps-raise meinval
  Keeps-path_or_fault (some path) = Keeps-pure path

  template-Keeps : (template : String) (s : State) → Keeps (λ u. u ≡ s) (template_dir template)
  unfolding template_dir
  template-Keeps template s =
      search (Keeps-bind, Keeps-fault_if, Keeps-looks, Keeps-path_or_fault, Keeps-pure) depth 12

  -- Looking for the template changes nothing.
  template-then :
      {B : Type 0} (template : String) (f : String → M B) (s t : State) (b : B)
      → (template_dir template >>= f) s ≡ (ok b, t)
      → (tdir : String) × (f tdir s ≡ (ok b, t))
  template-then template f s t b e =
      let (tdir, found, rest) = >>=-ok (template_dir template) f s t b e in
      (tdir, subst (λ u. f tdir u ≡ (ok b, t)) ((template-Keeps template s).at s refl) rest)

  get_bool-then :
      {B : Type 0} (k : String) (ps : Params) (f : Bool → M B) (s t : State) (b : B)
      → (get_bool k ps >>= f) s ≡ (ok b, t)
      → (v : Bool) × (f v s ≡ (ok b, t))
  get_bool-then k ps f s t b e = elim (get_bool-cases k ps) [
    | inl (v, gives) ↦ (v, subst (λ m. (m >>= f) s ≡ (ok b, t)) gives e)
    | inr gives ↦
        absurd (let e' = subst (λ m. (m >>= f) s ≡ (ok b, t)) gives e in ground (arith, e'))
  ]

  given_bool :
      {B : Type 0} (k : String) (ps : Params) (v : Bool) (f : Bool → M B) (s t : State) (b : B)
      → member k ps ≡ some (flag v)
      → (get_bool k ps >>= f) s ≡ (ok b, t)
      → f v s ≡ (ok b, t)
  given_bool k ps v f s t b named e =
      subst (λ m. (m >>= f) s ≡ (ok b, t)) (get_bool-flag k ps v named) e

  after_gate :
      (credentials params : Params) (name user : String) (force : Bool) (s t : State) (r : Reply)
      → member "name" params ≡ some (str name)
      → member "username" credentials ≡ some (str user)
      → member "force" params ≡ some (flag force)
      → create_rest (external credentials params) s ≡ (ok r, t)
      → MayBuild s.db s.calls user name force
  unfolding create_rest
  after_gate credentials params name user force s t r named is_user forced e =
      let (u, has_user, e1) = get_str-then "username" credentials _ s t r e in
      let (n, has_name, e2) = get_str-then "name" params _ s t r e1 in
      let (template, _, e3) = get_str-then "template" params _ s t r e2 in
      let e4 = given_bool "force" params force _ s t r forced e3 in
      let (copy, e5) = get_bool-then "copy" params _ s t r e4 in
      let (vdir, _, e6) = get_str-then "vdir" params _ s t r e5 in
      let (tdir, e7) = template-then template _ s t r e6 in
      let e8 = reads-then _ _ s t r e7 in
      let (z, built, e9) = >>=-ok (may_build u n force (vxdb_getxid s.db n)) _ s t r e8 in
      let same_user : u ≡ user = str-injective u user (sym has_user ∙ is_user) in
      let same_name : n ≡ name = str-injective n name (sym has_name ∙ named) in
      let t' = (may_build u n force (vxdb_getxid s.db n) s).1 in
      let whole : may_build u n force (vxdb_getxid s.db n) s ≡ (ok tt, t') =
        ground (arith, built) in
      subst (λ x. MayBuild s.db s.calls x name force) same_user
        (subst (λ x. MayBuild s.db s.calls u x force) same_name
          (may_build-ok u n force s t' whole).0)

  -- When vx.create succeeds for a client, either the name had no context id and the user is an admin,
  -- or the user owns the virtual server of that name, asked for force, and it did not run.
  pub m_vx_create-MayBuild :
      (credentials params : Params) (name user : String) (force : Bool) (s t : State) (r : Reply)
      → member "name" params ≡ some (str name)
      → member "username" credentials ≡ some (str user)
      → member "force" params ≡ some (flag force)
      → m_vx_create (external credentials params) s ≡ (ok r, t)
      → MayBuild (counted s).db s.calls user name force
  unfolding m_vx_create
  m_vx_create-MayBuild credentials params name user force s t r named is_user forced e =
      let request = external credentials params in
      let (ps, passed, rest) =
        >>=-ok (method_init request VcdCap.create m_lock) (λ _. create_rest request) s t r e in
      let s' = (method_init request VcdCap.create m_lock s).1 in
      let whole : method_init request VcdCap.create m_lock s ≡ (ok ps, s') =
        ground (arith, passed) in
      let still = (init-Still s.calls credentials params VcdCap.create m_lock).at s refl in
      let unwritten = init-Unwritten credentials params VcdCap.create m_lock s s' ps whole in
      subst (λ h. MayBuild (counted s).db h user name force) still
        (subst (λ d. MayBuild d s'.calls user name force) unwritten
          (after_gate credentials params name user force s' t r named is_user forced rest))
