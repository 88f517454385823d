-- ===== src/Methods/Grant.antt =====
-- The other direction of the gate: whom it has to let pass, it lets pass.
use mathlib.Core.Option.{some-injective}
use vcd.Base.{
  ℕ, true, false, String, none, some, ◌≡◌, refl, sym, subst, ◌∙◌, arith, ◌⊎◌, inl, inr, bit_and,
  ◌==◌, Bool-cases,
}
use vcd.Platform.{Platform}
use vcd.Validate.{validate_name}
use vcd.Auth.{auth_isowner, auth_isvalid, auth_capable}
use vcd.Call.{State, ok, Params, str, external, vxdb_exec}
use vcd.Call.Laws.{get_str-pure}
use vcd.Methods.{m_owner, m_lock, method_init, method_authorize, method_check_flags, method_lock}
use vcd.Methods.Gate.{Admits, counted, Names, OwnsNamed, LocksNamed}

pub str-injective : (a b : String) → some (str a) ≡ some (str b) → a ≡ b
str-injective a b e = ground (arith, some-injective (str a) (str b) e)

module _ ⦃p : Platform⦄ where
  owns_same :
      (flags : ℕ) (params : Params) (user name : String) (s : State)
      → Names params name
      → (bit_and flags m_owner ≡ 0) ⊎ OwnsNamed s.db user params
      → (bit_and flags m_owner ≡ 0) ⊎ (auth_isowner s.db user name ≡ true)
  owns_same flags params user name s named (inl unasked) = inl unasked
  owns_same flags params user name s named (inr (other, also, owns)) = inr (
      subst (λ n. auth_isowner s.db user n ≡ true) (str-injective other name (sym also ∙ named))
        owns)

  lock_same :
      (flags : ℕ) (params : Params) (name : String) (s : State)
      → Names params name
      → (bit_and flags m_lock ≡ 0) ⊎ LocksNamed s params
      → (bit_and flags m_lock ≡ 0) ⊎ ((s.lockfd ≡ none) × (p.lock_held name ≡ false))
  lock_same flags params name s named (inl unasked) = inl unasked
  lock_same flags params name s named (inr (other, also, free, unheld)) = inr (
    free,
    subst (λ n. p.lock_held n ≡ false) (str-injective other name (sym also ∙ named)) unheld,
  )

  lock_granted :
      (name : String) (s : State)
      → s.lockfd ≡ none
      → p.lock_held name ≡ false
      → (method_lock name s).0 ≡ ok tt
  unfolding method_lock
  lock_granted name s free unheld = rw (free, unheld) refl

  check_flags-grants :
      (params : Params) (user name : String) (flags : ℕ) (s : State)
      → Names params name
      → validate_name name ≡ true
      → (bit_and flags m_owner ≡ 0) ⊎ (auth_isowner s.db user name ≡ true)
      → (bit_and flags m_lock ≡ 0) ⊎ ((s.lockfd ≡ none) × (p.lock_held name ≡ false))
      → (method_check_flags params false (some user) flags s).0 ≡ ok tt
  unfolding method_check_flags
  check_flags-grants params user name flags s named valid owns (inl unlocked) =
      rw (get_str-pure "name" params name named, valid) (ground (arith, owns, unlocked))
  check_flags-grants params user name flags s named valid owns (inr (free, unheld)) =
      rw (get_str-pure "name" params name named, valid)
        (ground (arith, owns, lock_granted name s free unheld))

  -- The request names a virtual server as validate_name wants it, if a flag asks about one.
  abbrev pub NamesValid : ℕ → Params → Type 0
  NamesValid flags params =
      (flags ≡ 0) ⊎ ((name : String) × Names params name × (validate_name name ≡ true))

  authorize-grants :
      (user pass : String) (params : Params) (caps flags : ℕ) (s : State)
      → auth_isvalid s.db user pass ≡ true
      → auth_capable s.db user caps ≡ true
      → (flags ≡ 0) ⊎ ((method_check_flags params false (some user) flags s).0 ≡ ok tt)
      → (method_authorize user pass params caps flags s).0 ≡ ok params
  unfolding method_authorize
  authorize-grants user pass params caps flags s isvalid capable (inl unasked) =
      rw (isvalid, capable, unasked) refl
  authorize-grants user pass params caps flags s isvalid capable (inr checked) =
      elim (Bool-cases (flags == 0)) [
        | inl unasked ↦ rw (isvalid, capable, unasked) refl
        | inr asked ↦ rw (isvalid, capable, asked, checked) refl
      ]

  checked_of :
      (params : Params) (user : String) (flags : ℕ) (s : State)
      → (bit_and flags m_owner ≡ 0) ⊎ OwnsNamed s.db user params
      → (bit_and flags m_lock ≡ 0) ⊎ LocksNamed s params
      → NamesValid flags params
      → (flags ≡ 0) ⊎ ((method_check_flags params false (some user) flags s).0 ≡ ok tt)
  checked_of params user flags s owns locks (inl unasked) = inl unasked
  checked_of params user flags s owns locks (inr (name, named, valid)) = inr (
      check_flags-grants params user name flags s named valid
        (owns_same flags params user name s named owns) (lock_same flags params name s named locks))

  -- method_init lets every client's request pass whose user is valid, has the capabilities, passes
  -- auth_isowner for the virtual server where the flags ask for it and finds its lock free where they
  -- ask for that, if the name of the virtual server passes validate_name where there are flags.
  pub init_complete :
      (credentials params : Params) (caps flags : ℕ) (s : State)
      → Admits caps flags credentials params s
      → NamesValid flags params
      → (method_init (external credentials params) caps flags s).0 ≡ ok params
  unfolding method_init vxdb_exec
  init_complete credentials params caps flags s a named =
      rw
        (
          get_str-pure "username" credentials a.user a.has_user,
          get_str-pure "password" credentials a.pass a.has_pass,
        )
        (authorize-grants a.user a.pass params caps flags (counted s) a.isvalid a.capable
          (checked_of params a.user flags (counted s) a.owner a.locks named))
