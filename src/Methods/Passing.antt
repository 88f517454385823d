-- ===== src/Methods/Passing.antt =====
-- What follows behind the gate of a method that succeeds: the state and the parameters that it has.
use vcd.Base.{
  ℕ, Bool, false, String, Option, some, ◌≡◌, ◌≢◌, refl, sym, ap, subst, ◌∙◌, arith, inl, inr, ◌==◌,
  Bool-cases,
}
use vcd.Base.Int.{ℤ, pos, eqb_ℤ, eqb_ℤ_iff}
use vcd.Platform.{Platform}
use vcd.Sql.{Contents}
use vcd.Auth.{auth_getuid}
use vcd.Call.{
  reads, State, ok, M, ◌>>=◌, pure, Params, str, member, external, Reply, vxdb_exec, get_str,
}
use vcd.Call.Laws.{>>=-ok, get_str-cases}
use vcd.Call.Sys.Keeps.{Unwritten}
use vcd.Call.Keeps.{Keeps, Keeps-pure, Keeps-raise, Keeps-asks, Keeps-if, Keeps-get_str, Keeps-bind}
use vcd.Methods.{method_init, method_authorize, method_check_flags, method_lock}
use vcd.Vxdb.{vxdb_getxid}
use vcd.Methods.Common.{require_uid, require_xid}
use vcd.Methods.Gate.{counted, init-Admits, authorize-ok}

module _ ⦃p : Platform⦄ where
  lock-Unwritten : (d : Contents) (name : String) → Keeps (Unwritten d) (method_lock name)
  unfolding method_lock
  lock-Unwritten d name = record { at = λ s h. ground (arith, h) }

  pub check_flags-Unwritten :
      (d : Contents) (params : Params) (b : Bool) (user : Option String) (flags : ℕ)
      → Keeps (Unwritten d) (method_check_flags params b user flags)
  unfolding method_check_flags
  check_flags-Unwritten d params b user flags =
      search
        (Keeps-bind, Keeps-if, Keeps-pure, Keeps-raise, Keeps-asks, Keeps-get_str, lock-Unwritten)
        depth 9

  authorize-Unwritten :
      (user pass : String) (params : Params) (caps flags : ℕ) (s t : State) (r : Params)
      → method_authorize user pass params caps flags s ≡ (ok r, t)
      → t.db ≡ s.db
  unfolding method_authorize
  authorize-Unwritten user pass params caps flags s t r e =
      let (isvalid, capable, _, _) = authorize-ok user pass params caps flags s t r e in
      elim (Bool-cases (flags == 0)) [
        | inl unasked ↦ ground (arith, rw (isvalid, capable, unasked, method_authorize) at e)
        | inr asked ↦
            let rest = rw (isvalid, capable, asked, method_authorize) at e in
            let (u, passed, last) =
              >>=-ok (method_check_flags params false (some user) flags) (λ _. pure params) s t r
                rest in
            ap (λ z. z.1.db) (sym last)
            ∙ (check_flags-Unwritten s.db params false (some user) flags).at s refl
      ]

  -- A request that the gate lets pass has written the counter of requests alone.
  pub init-Unwritten :
      (credentials params : Params) (caps flags : ℕ) (s t : State) (r : Params)
      → method_init (external credentials params) caps flags s ≡ (ok r, t)
      → t.db ≡ (counted s).db
  unfolding method_init vxdb_exec
  init-Unwritten credentials params caps flags s t r e =
      elim (get_str-cases "username" credentials) [
        | inr gives ↦ absurd (let e' = rw (gives, method_init) at e in ground (arith, e'))
        | inl (user, _, gives_user) ↦ elim (get_str-cases "password" credentials) [
          | inr gives ↦
              absurd (let e' = rw (gives_user, gives, method_init) at e in ground (arith, e'))
          | inl (pass, _, gives_pass) ↦
              authorize-Unwritten user pass params caps flags (counted s) t r
                (rw (gives_user, gives_pass, method_init) at e)
        ]
      ]

  -- The part of a method behind the gate has the parameters of the request, and the database in which
  -- the request is counted.
  pub init-then :
      (caps flags : ℕ) (f : Params → M Reply) (credentials params : Params) (s t : State)
      (r : Reply)
      → (method_init (external credentials params) caps flags >>= f) s ≡ (ok r, t)
      → (s' : State) × (s'.db ≡ (counted s).db) × (f params s' ≡ (ok r, t))
  init-then caps flags f credentials params s t r e =
      let (ps, passed, rest) =
        >>=-ok (method_init (external credentials params) caps flags) f s t r e in
      let s' = (method_init (external credentials params) caps flags s).1 in
      let whole : method_init (external credentials params) caps flags s ≡ (ok ps, s') =
        ground (arith, passed) in
      let same = (init-Admits credentials params caps flags s s' ps whole).1 in
      (
        s',
        init-Unwritten credentials params caps flags s s' ps whole,
        subst (λ q. f q s' ≡ (ok r, t)) same rest,
      )

  pub get_str-then :
      {B : Type 0} (k : String) (ps : Params) (f : String → M B) (s t : State) (b : B)
      → (get_str k ps >>= f) s ≡ (ok b, t)
      → (v : String) × (member k ps ≡ some (str v)) × (f v s ≡ (ok b, t))
  get_str-then k ps f s t b e = elim (get_str-cases k ps) [
    | inl (v, named, gives) ↦ (v, named, subst (λ m. (m >>= f) s ≡ (ok b, t)) gives e)
    | inr gives ↦
        absurd (let e' = subst (λ m. (m >>= f) s ≡ (ok b, t)) gives e in ground (arith, e'))
  ]

  pub require_uid-then :
      {B : Type 0} (user : String) (f : ℤ → M B) (s t : State) (b : B)
      → (require_uid user >>= f) s ≡ (ok b, t)
      → (auth_getuid s.db user ≢ pos 0) × (f (auth_getuid s.db user) s ≡ (ok b, t))
  unfolding require_uid
  require_uid-then user f s t b e = elim (Bool-cases (eqb_ℤ (auth_getuid s.db user) (pos 0))) [
    | inl missing ↦ absurd (let e' = rw (missing, require_uid) at e in ground (arith, e'))
    | inr there ↦ (
      λ none_there.
          absurd (ground (arith, there, (eqb_ℤ_iff (auth_getuid s.db user) (pos 0)).1 none_there)),
      rw (there, require_uid) at e,
    )
  ]

  pub require_xid-then :
      {B : Type 0} (name : String) (f : ℕ → M B) (s t : State) (b : B)
      → (require_xid name >>= f) s ≡ (ok b, t)
      → (vxdb_getxid s.db name ≢ 0) × (f (vxdb_getxid s.db name) s ≡ (ok b, t))
  unfolding require_xid
  require_xid-then name f s t b e = elim (Bool-cases (vxdb_getxid s.db name == 0)) [
    | inl missing ↦ absurd (let e' = rw (missing, require_xid) at e in ground (arith, e'))
    | inr there ↦ (λ none_there. absurd (ground (arith, there)), rw (there, require_xid) at e)
  ]

  pub reads-then :
      {A B : Type 0} (g : Contents → A) (f : A → M B) (s t : State) (b : B)
      → (reads g >>= f) s ≡ (ok b, t)
      → f (g s.db) s ≡ (ok b, t)
  unfolding reads
  reads-then g f s t b e = e
