-- ===== src/Vshelper.antt =====
-- src/vshelper/main.c: the program that the kernel runs for a change in the life of a context. It calls
-- the methods helper.* of the daemon, and works on the same kernel.
pub mod Refused
use vcd.Base.{
  ℕ, zero, suc, Bool, true, false, not, ◌&&◌, ◌||◌, String, List, [], ◌∷◌, Option, none, some,
  if◌then◌else◌, ltb, ◌==◌, str_equal, str_cat, bit_or,
}
use vcd.Base.Int.{ℤ, pos, ltb_ℤ}
use vcd.Platform.{Platform}
use vcd.Kernel.{
  Flags, nx_flags_set, vx_flags_set, file, append, fork, sleep, in_context, vx_migrate,
  exec_replace, VxStat,
}
use vcd.Call.{
  State, Result, ok, fault, M, pure, looks, ◌>>=◌, ◌>>◌, Member, str, num, Params, member, external,
  Reply, struct,
}
use vcd.Call.Sys.{sys}
use vcd.Methods.Registry.{dispatch}
use vcd.Methods.Vxdb.Names.{to_xid}

-- The status with which the program ends.
pub data Status : Type 0 where
  exit_success : Status
  exit_failure : Status

-- ACTIONS
pub data Action : Type 0 where
  restart halt swsusp startup shutdown netup netdown : Action

abbrev pub actions : List (String × Action)
actions =
    ("restart", restart)
    ∷ ("halt", halt)
    ∷ ("poweroff", halt)
    ∷ ("swsusp", swsusp)
    ∷ ("startup", startup)
    ∷ ("shutdown", shutdown)
    ∷ ("netup", netup)
    ∷ ("netdown", netdown)
    ∷ []

abbrev status_if : Bool → Status
status_if b = if b then exit_success else exit_failure

-- The user and the password of the configuration.
pub record Account : Type 0 where
  pub user : String
  pub pass : String

abbrev text_member : Option Member → Option String
text_member (some (str s)) = some s
text_member _ = none

abbrev both : Option String → Option String → Option (String × String)
both (some a) (some b) = some (a, b)
both _ _ = none

-- `xmlrpc_decompose_value(env, response, "{s:s,s:s,*}", …)`
unfoldable pub vdir_and_init : Reply → Option (String × String)
unfolding member
vdir_and_init (struct ms) = both (text_member (member "vdir" ms)) (text_member (member "init" ms))
vdir_and_init _ = none

module _ ⦃p : Platform⦄ where
  -- The daemon answers each connection in a process of its own, which holds no lock at its start.
  abbrev answered : Result Reply × State → Result (Option Reply) × State
  answered (ok r, t) = (ok (some r), record t { lockfd = none })
  answered (fault f, t) = (ok none, record t { lockfd = none })

  -- xmlrpc_client_call with the id of the context. `none` is a fault.
  unfoldable pub client_call : Account → String → ℕ → M (Option Reply)
  client_call a method xid s =
      if p.connects s.calls
      then answered (
          dispatch method
            (external (("username", str a.user) ∷ ("password", str a.pass) ∷ [])
              (("xid", num (pos xid)) ∷ []))
            (record s { lockfd = none }))
      else (ok none, s)

  abbrev pub call_status : Option Reply → M Status → M Status
  call_status none rest = pure exit_failure
  call_status (some r) rest = rest

  abbrev pub unpersistent : Flags
  unpersistent = record { flags = 0; mask = p.constant "NXF_PERSISTENT" }

  abbrev pub reboot_kill : Flags
  reboot_kill = record {
    flags = p.constant "VXF_REBOOT_KILL";
    mask = bit_or (p.constant "VXF_REBOOT_KILL") (p.constant "VXF_PERSISTENT");
  }

  unfoldable pub vshelper_halt : Account → ℕ → M Status
  vshelper_halt a xid = do
    network ← sys (nx_flags_set xid unpersistent)
    let kill : M Status = do done ← sys (vx_flags_set xid reboot_kill); pure (status_if done)
    if network then kill else pure exit_failure

  -- After the call it does the same as vshelper_halt.
  unfoldable pub vshelper_restart : Account → ℕ → M Status
  unfolding client_call vshelper_halt
  vshelper_restart a xid = do
    response ← client_call a "helper.restart" xid
    call_status response (vshelper_halt a xid)

  abbrev vshelper_swsusp : Account → ℕ → M Status
  vshelper_swsusp a xid = pure exit_failure

  abbrev cpuset_tasks : ℕ → String
  cpuset_tasks xid = str_cat "/dev/cpuset/xid" (str_cat (p.decimal (pos xid)) "/tasks")

  -- The flags after the start: each mask has the constant of the other call.
  unfoldable pub let_go : ℕ → M (Unit {0})
  let_go xid = do
    sys (nx_flags_set xid (record { flags = 0; mask = p.constant "VXF_PERSISTENT" }))
    sys (vx_flags_set xid (record { flags = 0; mask = p.constant "NXF_PERSISTENT" }))
    pure tt

  abbrev has_tasks : Option VxStat → Bool
  has_tasks none = false
  has_tasks (some s) = ltb 1 s.tasks

  -- `while (n++ < 15)`, from the number that is left to go.
  unfoldable pub wait_tasks : ℕ → ℕ → M Status
  unfolding let_go
  wait_tasks xid zero = do let_go xid; pure exit_failure
  wait_tasks xid (suc left) = do
    sys sleep
    stat ← looks (λ h. p.vx_stat h xid)
    let rest = wait_tasks xid left
    if has_tasks stat then (do let_go xid; pure exit_success) else rest

  abbrev fastboot : Option String → M (Unit {0})
  fastboot none = pure tt
  fastboot (some path) = do sys (file "open_trunc" path); pure tt

  abbrev join_cpuset : ℕ → Bool → M (Unit {0})
  join_cpuset xid false = pure tt
  join_cpuset xid true = do sys (append (cpuset_tasks xid) (p.decimal (pos p.getpid))); pure tt

  abbrev run_init : ℕ → Option (String × String) → M Status
  run_init xid none = pure exit_failure
  run_init xid (some (vdir, init)) = do
    fastboot (p.str_path_concat vdir "/fastboot")
    there ← looks (λ h. p.ispath h (cpuset_tasks xid))
    join_cpuset xid there
    sys fork
    wait_tasks xid 15

  abbrev with_reply : ℕ → Option Reply → M Status
  with_reply xid none = pure exit_failure
  with_reply xid (some r) = run_init xid (vdir_and_init r)

  -- The parent. The child runs startup_child.
  unfoldable pub vshelper_startup : Account → ℕ → M Status
  unfolding client_call wait_tasks vdir_and_init
  vshelper_startup a xid = do response ← client_call a "helper.startup" xid; with_reply xid response

  -- Each step is tried after the success of the one before.
  unfoldable pub enter_root : ℕ → String → M (Unit {0})
  enter_root xid vdir = do
    namespace ← sys (in_context "ns_enter" xid)
    let migrate : M (Unit {0}) = do sys (in_context "nx_migrate" xid); pure tt
    let change : M (Unit {0}) = do root ← sys (file "chroot" "."); if root then migrate else pure tt
    let go_in : M (Unit {0}) = do
      inside ← sys (file "chroot_secure_chdir" vdir)
      if inside then change else pure tt
    if namespace then go_in else pure tt

  abbrev pub migrate_flags : Flags
  migrate_flags =
      let bits = bit_or (p.constant "VXM_SET_INIT") (p.constant "VXM_SET_REAPER") in
      record { flags = bits; mask = 0 }

  unfoldable pub startup_child : ℕ → String → String → M (Unit {0})
  unfolding enter_root
  startup_child xid vdir init = do
    enter_root xid vdir
    migrated ← sys (vx_migrate xid migrate_flags)
    let go : M (Unit {0}) = do sys (exec_replace init); pure tt
    if migrated then go else pure tt

  unfoldable pub vshelper_shutdown : Account → ℕ → M Status
  unfolding client_call
  vshelper_shutdown a xid = do
    response ← client_call a "helper.shutdown" xid
    call_status response (pure exit_success)

  unfoldable pub vshelper_netup : Account → ℕ → M Status
  unfolding client_call
  vshelper_netup a xid = do
    response ← client_call a "helper.netup" xid
    call_status response (pure exit_success)

  abbrev vshelper_netdown : Account → ℕ → M Status
  vshelper_netdown a xid = pure exit_success

  unfoldable pub do_vshelper : Action → Account → ℕ → M Status
  unfolding vshelper_restart vshelper_halt vshelper_startup vshelper_shutdown vshelper_netup
  do_vshelper restart = vshelper_restart
  do_vshelper halt = vshelper_halt
  do_vshelper swsusp = vshelper_swsusp
  do_vshelper startup = vshelper_startup
  do_vshelper shutdown = vshelper_shutdown
  do_vshelper netup = vshelper_netup
  do_vshelper netdown = vshelper_netdown

  unfoldable pub find_action : String → List (String × Action) → Option Action
  find_action name [] = none
  find_action name ((n, a) ∷ l) = if str_equal n name then some a else find_action name l

  -- The id of the context as sscanf has read it.
  unfoldable pub vshelper : Account → String → ℤ → M Status
  unfolding do_vshelper find_action
  vshelper a name xid =
      if ltb_ℤ xid (pos 2) || ltb_ℤ (pos 65535) xid
      then pure exit_failure
      else (elim (find_action name actions) [
        | none ↦ pure exit_failure
        | some action ↦ do_vshelper action a (to_xid xid)
      ])
