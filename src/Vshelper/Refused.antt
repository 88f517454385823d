-- ===== src/Vshelper/Refused.antt =====
-- A program vshelper whose account the daemon does not let in.
use mathlib.Core.Option.{some-injective}
use vcd.Base.{
  ℕ, String, [], ◌∷◌, Option, none, some, ◌≡◌, refl, sym, subst, arith, Bool-cases, inl, inr,
}
use vcd.Base.Int.{pos}
use vcd.Platform.{Platform}
use vcd.Call.{State, ok, fault, Fault, str, num, Request, external}
use vcd.Methods.{method_init}
use vcd.Methods.Registry.{
  Method, call, dispatch, helper_restart, helper_startup, helper_shutdown, helper_netup,
  lookup_method,
}
use vcd.Methods.Registry.Demands.{required_caps, required_flags}
use vcd.Methods.Frame.{SameButVcd, call-refused}
use vcd.Vshelper.{
  Account, Action, restart, startup, shutdown, netup, halt, swsusp, netdown, exit_failure,
  client_call, do_vshelper, vshelper_restart, vshelper_startup, vshelper_shutdown, vshelper_netup,
}

-- The method of the daemon that an action calls.
unfoldable pub method_of : Action → Option Method
method_of restart = some helper_restart
method_of startup = some helper_startup
method_of shutdown = some helper_shutdown
method_of netup = some helper_netup
method_of _ = none

module _ ⦃p : Platform⦄ where
  abbrev pub request_of : Account → ℕ → Request
  request_of a xid =
      external (("username", str a.user) ∷ ("password", str a.pass) ∷ [])
        (("xid", num (pos xid)) ∷ [])

  -- The state in which the daemon answers a new connection.
  abbrev pub unlocked : State → State
  unlocked s = record s { lockfd = none }

  -- The daemon refuses a call of this method.
  abbrev pub Refuses : Method → Account → ℕ → State → Fault → Type 0
  Refuses m a xid s x =
      (method_init (request_of a xid) (required_caps m) (required_flags m) (unlocked s)).0 ≡ fault x

  client_call-refused :
      (name : String) (m : Method) (a : Account) (xid : ℕ) (s : State) (x : Fault)
      → dispatch name ≡ call m
      → Refuses m a xid s x
      → (t : State) × (client_call a name xid s ≡ (ok none, t)) × SameButVcd s.db t
  unfolding client_call
  client_call-refused name m a xid s x is refused = elim (Bool-cases (p.connects s.calls)) [
    | inr alone ↦ (s, rw alone refl, λ t other. refl)
    | inl connected ↦
        let (faults, same) = call-refused m _ _ (unlocked s) x refused in
        let end = call m (request_of a xid) (unlocked s) in
        let whole : end ≡ (fault x, end.1) = ground (arith, faults) in
        (record end.1 { lockfd = none }, rw (connected, is, whole) refl, same)
  ]

  for_method :
      (m k : Method) (a : Account) (xid : ℕ) (s : State) (x : Fault)
      → some m ≡ some k
      → Refuses k a xid s x
      → Refuses m a xid s x
  for_method m k a xid s x is refused =
      subst (λ j. Refuses j a xid s x) (sym (some-injective _ _ is)) refused

  -- When method_init refuses the account of vshelper for the method that an action calls, the action
  -- ends with EXIT_FAILURE, and no table but "vcd" has changed, whether the daemon is reached or not.
  pub do_vshelper-refused :
      (action : Action) (m : Method) (a : Account) (xid : ℕ) (s : State) (x : Fault)
      → method_of action ≡ some m
      → (method_init (request_of a xid) (required_caps m) (required_flags m) (unlocked s)).0
        ≡ fault x
      → ((do_vshelper action a xid s).0 ≡ ok exit_failure)
        × SameButVcd s.db (do_vshelper action a xid s).1
  unfolding do_vshelper method_of vshelper_restart vshelper_startup vshelper_shutdown vshelper_netup
      dispatch lookup_method
  do_vshelper-refused restart m a xid s x is refused =
      let (t, gives, same) =
        client_call-refused "helper.restart" helper_restart a xid s x refl
          (for_method helper_restart m a xid s x is refused) in
      rw gives (refl, same)
  do_vshelper-refused startup m a xid s x is refused =
      let (t, gives, same) =
        client_call-refused "helper.startup" helper_startup a xid s x refl
          (for_method helper_startup m a xid s x is refused) in
      rw gives (refl, same)
  do_vshelper-refused shutdown m a xid s x is refused =
      let (t, gives, same) =
        client_call-refused "helper.shutdown" helper_shutdown a xid s x refl
          (for_method helper_shutdown m a xid s x is refused) in
      rw gives (refl, same)
  do_vshelper-refused netup m a xid s x is refused =
      let (t, gives, same) =
        client_call-refused "helper.netup" helper_netup a xid s x refl
          (for_method helper_netup m a xid s x is refused) in
      rw gives (refl, same)
  do_vshelper-refused halt m a xid s x is refused = absurd (ground arith)
  do_vshelper-refused swsusp m a xid s x is refused = absurd (ground arith)
  do_vshelper-refused netdown m a xid s x is refused = absurd (ground arith)
