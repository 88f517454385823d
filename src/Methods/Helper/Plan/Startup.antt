-- ===== src/Methods/Helper/Plan/Startup.antt =====
-- helper.startup, from the gate to the last mount.
use vcd.Base.{
  ℕ, Bool, true, false, not, String, List, [], ◌++◌, Option, some, ◌≡◌, refl, sym, ap, subst, ◌∙◌,
  arith, All, ◌⊎◌,
}
use mathlib.Core.List.{append-nil}
use vcd.Base.Int.{ℤ}
use vcd.Sql.{Contents, query_clean, row_clean}
use vcd.Platform.{Platform}
use vcd.Kernel.{Syscall}
use vcd.Lists.VcdCap
use vcd.Vxdb.{vxdb_getname, vxdb_getvdir}
use vcd.Call.{
  State, Result, ok, fault, Fault, M, pure, looks, reads, ◌>>=◌, continue, fault_if, num, Params,
  member, external, get_int, Reply, fetch,
}
use vcd.Call.Sys.{is_alive}
use vcd.Call.Sys.Follows.{
  Follows, FollowsAt, FollowsAt-fault, Follows-pure, Follows-bind, Follows-fetch,
}
use vcd.Call.Laws.{get_int-num}
use vcd.Methods.{menovps, mestopped, meconf, method_init}
use vcd.Methods.Common.{is_none, text_of}
use vcd.Methods.Gate.{counted, init-Admits}
use vcd.Methods.Passing.{init-Unwritten}
use vcd.Methods.Vxdb.Names.{to_xid}
use vcd.Methods.Helper.{m_helper_startup, start_up, started, set_up, init_query}
use vcd.Methods.Helper.Plan.{set_up_plan}
use vcd.Methods.Helper.Plan.Whole.{set_up-Follows}
use vcd.Methods.Helper.Plan.Sane.{Sane, set_up_plan-Sane, Sane-prefix}
use vcd.Methods.Helper.Plan.Still.{init-Still}
use vcd.Methods.Helper.Plan.Ready.{Barred, IsReady, gate-Barred}

-- The calls that are made after `h` are the first ones of the plan, and all if there is no fault.
pub record Carries {A : Type 0} (end : Result A × State) (h plan : List Syscall) : Type 0 where
  pub made : List Syscall
  pub left : List Syscall
  pub split : plan ≡ made ++ left
  pub after : end.1.calls ≡ h ++ made
  pub whole : (a : A) → end.0 ≡ ok a → left ≡ []

module _ ⦃p : Platform⦄ where
  fault_if-Follows :
      {A : Type 0} (b : Bool) (x : Fault) (f : Unit {0} → M A) (s : State) (plan : List Syscall)
      → Follows (f tt) s plan
      → Follows (fault_if b x >>= f) s plan
  unfolding fault_if
  fault_if-Follows {A} true x f s plan h = FollowsAt-fault {A = A} x s plan
  fault_if-Follows false x f s plan h = h

  -- The directory of the virtual server with the context id.
  abbrev pub startup_dir : Contents → ℕ → String
  startup_dir db xid = text_of (vxdb_getvdir db (text_of (vxdb_getname db xid)))

  -- The plan of the set-up of the context `xid`, as the database `db` has it.
  abbrev pub startup_plan : Contents → List Syscall → ℕ → List Syscall
  startup_plan db h xid = set_up_plan db xid h (text_of (vxdb_getname db xid)) (startup_dir db xid)

  finish : Option String → ℕ → Option String → M Reply
  finish name xid vdir = fetch (init_query xid) >>= λ init.
      set_up xid (text_of name) (text_of vdir) >>= λ _. pure (started vdir init)

  finish-Follows :
      (name vdir : Option String) (xid : ℕ) (s : State)
      → Follows
          (finish name xid vdir)
          s
          (set_up_plan s.db xid s.calls (text_of name) (text_of vdir))
  unfolding query_clean row_clean finish
  finish-Follows name vdir xid s =
      let plan = set_up_plan s.db xid s.calls (text_of name) (text_of vdir) in
      let whole = set_up xid (text_of name) (text_of vdir) in
      Follows-fetch (init_query xid) (λ init. whole >>= λ _. pure (started vdir init)) s plan refl
        (subst (Follows (whole >>= λ _. pure (started vdir _)) s) (append-nil plan) (
          Follows-bind whole (λ _. pure (started vdir _)) s plan [] (set_up-Follows xid _ _ s)
            (λ a e. Follows-pure (started vdir _) _)))

  -- The part of helper.startup behind the gate.
  body-Follows : (xid : ℕ) (s : State) → Follows (start_up xid) s (startup_plan s.db s.calls xid)
  unfolding start_up reads looks finish
  body-Follows xid s =
      let name = vxdb_getname s.db xid in
      let vdir = vxdb_getvdir s.db (text_of name) in
      let plan = startup_plan s.db s.calls xid in
      let third = λ (u : Unit {0}). finish name xid vdir in
      let second = λ (u : Unit {0}). reads (λ db. vxdb_getvdir db (text_of name)) >>= λ vdir.
      fault_if (is_none vdir) meconf >>= λ _. finish name xid vdir in
      fault_if-Follows (is_none name) menovps
        (λ _. looks (λ h. p.vx_info h xid) >>= λ info.
          fault_if (not (is_alive info)) mestopped >>= second)
        s plan
        (fault_if-Follows (not (is_alive (p.vx_info s.calls xid))) mestopped second s plan
          (fault_if-Follows (is_none vdir) meconf third s plan (finish-Follows name vdir xid s)))

  Carries-of :
      {A : Type 0} (end : Result A × State) (h : List Syscall) (d : Contents) (s : State) (xid : ℕ)
      → s.calls ≡ h
      → s.db ≡ d
      → FollowsAt end s (startup_plan s.db s.calls xid)
      → Carries end h (startup_plan d h xid)
  Carries-of end h d s xid same_calls same_db f = record {
    made = f.made;
    left = f.left;
    split =
        ap (λ c. startup_plan d c xid) (sym same_calls)
        ∙ ap (λ c. startup_plan c s.calls xid) (sym same_db)
        ∙ f.split;
    after = ap (λ z. z.calls) f.after ∙ ap (λ c. c ++ f.made) same_calls;
    whole = f.whole;
  }

  after_gate :
      (credentials params : Params) (id : ℤ) (s s' : State) (r : Result Params)
      → member "xid" params ≡ some (num id)
      → method_init (external credentials params) VcdCap.helper 0 s ≡ (r, s')
      → Carries
          (continue r (λ ps. get_int "xid" ps >>= λ z. start_up (to_xid z)) s')
          s.calls
          (startup_plan (counted s).db s.calls (to_xid id))
  after_gate credentials params id s s' (fault x) named e = record {
    made = [];
    left = _;
    split = refl;
    after =
        ap (λ z. z.1.calls) (sym e)
        ∙ (init-Still s.calls credentials params VcdCap.helper 0).at s refl
        ∙ sym (append-nil s.calls);
    whole = λ a q. absurd (ground arith);
  }
  after_gate credentials params id s s' (ok ps) named e =
      let same = (init-Admits credentials params VcdCap.helper 0 s s' ps e).1 in
      let still =
        ap (λ z. z.1.calls) (sym e)
        ∙ (init-Still s.calls credentials params VcdCap.helper 0).at s refl in
      let unwritten = init-Unwritten credentials params VcdCap.helper 0 s s' ps e in
      let given = get_int-num "xid" ps id (ap (member "xid") same ∙ named) in
      rw given (
        Carries-of (start_up (to_xid id) s') s.calls (counted s).db s' (to_xid id) still unwritten
          (body-Follows (to_xid id) s'))

  startup-Carries :
      (credentials params : Params) (id : ℤ) (s : State)
      → member "xid" params ≡ some (num id)
      → Carries
          (m_helper_startup (external credentials params) s)
          s.calls
          (startup_plan (counted s).db s.calls (to_xid id))
  unfolding m_helper_startup
  startup-Carries credentials params id s named =
      let (r, s') = method_init (external credentials params) VcdCap.helper 0 s in
      after_gate credentials params id s s' r named refl

  -- helper.startup makes a beginning of the calls that the rows of the context ask for, in the order of
  -- the plan, and all of them if it sets no fault. It sets a fault and has made no call unless
  -- method_init lets the request in, the context id has a name and a directory, and the context runs.
  pub m_helper_startup-Carries :
      (credentials params : Params) (id : ℤ) (s : State)
      → member "xid" params ≡ some (num id)
      → Carries
          (m_helper_startup (external credentials params) s)
          s.calls
          (startup_plan (counted s).db s.calls (to_xid id))
        × (Barred (m_helper_startup (external credentials params) s) s.calls
            ⊎ (((method_init (external credentials params) VcdCap.helper 0 s).0 ≡ ok params)
                × IsReady (counted s).db s.calls (to_xid id)))
  unfolding m_helper_startup
  m_helper_startup-Carries credentials params id s named =
      let (r, s') = method_init (external credentials params) VcdCap.helper 0 s in
      (
        startup-Carries credentials params id s named,
        gate-Barred credentials params id s s' r named refl,
      )

  -- Whatever helper.startup does, and wherever it stops, each call that it makes concerns the context
  -- id of the request, its cpuset or the directory of its virtual server, and has limits that are no
  -- contradiction: no soft limit above its maximum, no total below what is in use.
  pub m_helper_startup-Sane :
      (credentials params : Params) (id : ℤ) (s : State)
      → member "xid" params ≡ some (num id)
      → (made : List Syscall) × ((m_helper_startup (external credentials params) s).1.calls
          ≡ s.calls ++ made)
        × All (Sane (to_xid id) (startup_dir (counted s).db (to_xid id))) made
  m_helper_startup-Sane credentials params id s named =
      let carries = startup-Carries credentials params id s named in
      let xid = to_xid id in
      let db = (counted s).db in
      let name = text_of (vxdb_getname db xid) in
      let dir = startup_dir db xid in
      (
        carries.made,
        carries.after,
        Sane-prefix xid dir carries.made carries.left
            (subst (All (Sane xid dir)) carries.split (set_up_plan-Sane xid dir db s.calls name)),
      )
