-- ===== src/Methods/Gate.antt =====
-- What method_init demands: a method that succeeds for a client was called by a valid user who has
-- the method's capabilities, owns the virtual server and holds its lock, as the method asks.
use vcd.Base.{
  ℕ, true, false, String, none, some, ◌≡◌, ap, ◌⊎◌, inl, inr, arith, bit_and, ◌==◌, Bool-cases,
}
use vcd.Platform.{Platform}
use vcd.Sql.{Contents}
use vcd.Auth.{auth_isvalid, auth_capable, auth_isowner}
use vcd.Call.{State, ok, M, ◌>>=◌, pure, Params, str, member, external, Reply, vxdb_exec}
use vcd.Call.Laws.{get_str-cases, >>=-ok}
use vcd.Methods.{
  m_owner, m_lock, method_init, method_authorize, method_check_flags, method_lock, requests,
}
use vcd.Methods.Registry.{Method, call}
use vcd.Methods.Registry.Demands.{required_caps, required_flags}

module _ ⦃p : Platform⦄ where
  -- The state in which a client's request is judged: its arrival is counted.
  abbrev pub counted : State → State
  counted s = (vxdb_exec requests s).1

  -- The virtual server that a request names, where a flag asks about it.
  abbrev pub Names : Params → String → Type 0
  Names params name = member "name" params ≡ some (str name)

  -- The user owns the virtual server that the request names.
  abbrev pub OwnsNamed : Contents → String → Params → Type 0
  OwnsNamed db user params =
      (name : String) × Names params name × (auth_isowner db user name ≡ true)

  -- The process had no lock, and none else holds the one of the virtual server.
  abbrev pub LocksNamed : State → Params → Type 0
  LocksNamed s params =
      (name : String) × Names params name × (s.lockfd ≡ none) × (p.lock_held name ≡ false)

  pub record Admits (caps flags : ℕ) (credentials params : Params) (s : State) : Type 0 where
    pub user : String
    pub pass : String
    pub has_user : member "username" credentials ≡ some (str user)
    pub has_pass : member "password" credentials ≡ some (str pass)
    pub isvalid : auth_isvalid (counted s).db user pass ≡ true
    pub capable : auth_capable (counted s).db user caps ≡ true
    pub owner : (bit_and flags m_owner ≡ 0) ⊎ OwnsNamed (counted s).db user params
    pub locks : (bit_and flags m_lock ≡ 0) ⊎ LocksNamed (counted s) params

  check_flags-owner :
      (params : Params) (user : String) (flags : ℕ) (s t : State)
      → method_check_flags params false (some user) flags s ≡ (ok tt, t)
      → (bit_and flags m_owner ≡ 0) ⊎ OwnsNamed s.db user params
  unfolding method_check_flags
  check_flags-owner params user flags s t e = elim (get_str-cases "name" params) [
    | inl (name, named, gives) ↦
        let e' = rw (gives, method_check_flags) at e in
        elim (Bool-cases (bit_and flags m_owner == 0)) [
          | inl unasked ↦ inl (ground arith)
          | inr asked ↦ inr (name, named, ground (arith, e', asked))
        ]
    | inr gives ↦ absurd (let e' = rw (gives, method_check_flags) at e in ground (arith, e'))
  ]

  check_flags-locks :
      (params : Params) (user : String) (flags : ℕ) (s t : State)
      → method_check_flags params false (some user) flags s ≡ (ok tt, t)
      → (bit_and flags m_lock ≡ 0) ⊎ LocksNamed s params
  unfolding method_check_flags method_lock
  check_flags-locks params user flags s t e = elim (get_str-cases "name" params) [
    | inl (name, named, gives) ↦
        let e' = rw (gives, method_check_flags) at e in
        elim (Bool-cases (bit_and flags m_lock == 0)) [
          | inl unasked ↦ inl (ground arith)
          | inr asked ↦ inr (name, named, ground (arith, e', asked), ground (arith, e', asked))
        ]
    | inr gives ↦ absurd (let e' = rw (gives, method_check_flags) at e in ground (arith, e'))
  ]

  owner_of_flags :
      (params : Params) (user : String) (flags : ℕ) (s t : State)
      → (flags ≡ 0) ⊎ (method_check_flags params false (some user) flags s ≡ (ok tt, t))
      → (bit_and flags m_owner ≡ 0) ⊎ OwnsNamed s.db user params
  owner_of_flags params user flags s t (inl e) = inl (ap (λ n. bit_and n m_owner) e)
  owner_of_flags params user flags s t (inr e) = check_flags-owner params user flags s t e

  locks_of_flags :
      (params : Params) (user : String) (flags : ℕ) (s t : State)
      → (flags ≡ 0) ⊎ (method_check_flags params false (some user) flags s ≡ (ok tt, t))
      → (bit_and flags m_lock ≡ 0) ⊎ LocksNamed s params
  locks_of_flags params user flags s t (inl e) = inl (ap (λ n. bit_and n m_lock) e)
  locks_of_flags params user flags s t (inr e) = check_flags-locks params user flags s t e

  pub authorize-ok :
      (user pass : String) (params : Params) (caps flags : ℕ) (s t : State) (r : Params)
      → method_authorize user pass params caps flags s ≡ (ok r, t)
      → (auth_isvalid s.db user pass ≡ true)
        × (auth_capable s.db user caps ≡ true)
        × ((flags ≡ 0) ⊎ (method_check_flags params false (some user) flags s ≡ (ok tt, t)))
        × (r ≡ params)
  unfolding method_authorize
  authorize-ok user pass params caps flags s t r e =
      let isvalid : auth_isvalid s.db user pass ≡ true = ground arith in
      let capable : auth_capable s.db user caps ≡ true = ground (arith, isvalid) in
      elim (Bool-cases (flags == 0)) [
        | inl unasked ↦ (isvalid, capable, inl (ground arith), ground (arith, isvalid, capable))
        | inr asked ↦
            let rest = rw (isvalid, capable, asked, method_authorize) at e in
            let (u, passed, last) =
              >>=-ok (method_check_flags params false (some user) flags) (λ _. pure params) s t r
                rest in
            (isvalid, capable, inr (ground (arith, passed, last)), ground (arith, last))
      ]

  -- `method_init` lets a client's request pass only as `Admits` says, and hands its parameters on.
  pub init-Admits :
      (credentials params : Params) (caps flags : ℕ) (s t : State) (r : Params)
      → method_init (external credentials params) caps flags s ≡ (ok r, t)
      → Admits caps flags credentials params s × (r ≡ params)
  unfolding method_init vxdb_exec
  init-Admits credentials params caps flags s t r e = elim (get_str-cases "username" credentials) [
    | inr gives ↦ absurd (let e' = rw (gives, method_init) at e in ground (arith, e'))
    | inl (user, has_user, gives_user) ↦ elim (get_str-cases "password" credentials) [
      | inr gives ↦ absurd (let e' = rw (gives_user, gives, method_init) at e in ground (arith, e'))
      | inl (pass, has_pass, gives_pass) ↦
          let e' : method_authorize user pass params caps flags (counted s) ≡ (ok r, t) =
            rw (gives_user, gives_pass, method_init) at e in
          let (isvalid, capable, checked, same) =
            authorize-ok user pass params caps flags (counted s) t r e' in
          (
            record {
              user = user;
              pass = pass;
              has_user = has_user;
              has_pass = has_pass;
              isvalid = isvalid;
              capable = capable;
              owner = owner_of_flags params user flags (counted s) t checked;
              locks = locks_of_flags params user flags (counted s) t checked;
            },
            same,
          )
    ]
  ]

  gated :
      (caps flags : ℕ) (f : Params → M Reply) (credentials params : Params) (s t : State)
      (r : Reply)
      → (method_init (external credentials params) caps flags >>= f) s ≡ (ok r, t)
      → Admits caps flags credentials params s
  gated caps flags f credentials params s t r e =
      let (ps, passed, _) =
        >>=-ok (method_init (external credentials params) caps flags) f s t r e in
      (init-Admits credentials params caps flags s
        (method_init (external credentials params) caps flags s).1 ps (ground (arith, passed))).0

  -- A method that succeeds for a client was called with the credentials of a valid user whose
  -- capabilities cover those that the method asks for; where the method asks for it, the user passes
  -- auth_isowner for the virtual server that the request names, and its lock was free. All of this in
  -- the database as it was when the request had been counted.
  pub call-Admits :
      (m : Method) (credentials params : Params) (s t : State) (r : Reply)
      → call m (external credentials params) s ≡ (ok r, t)
      → Admits (required_caps m) (required_flags m) credentials params s
  unfolding call required_caps required_flags
  call-Admits Method.vcd_login credentials params s t r e = gated _ _ _ credentials params s t r e
  call-Admits m credentials params s t r e = gated _ _ _ credentials params s t r e
