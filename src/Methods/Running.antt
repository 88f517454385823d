-- ===== src/Methods/Running.antt =====
-- src/vcd/methods/vx/vx_{start,stop,kill,reboot,restart,exec}.c: the methods that ask a running
-- virtual server, or start one.
pub mod Quiet
pub mod Waiting
pub mod Stop
use vcd.Base.{
  ℕ, zero, suc, ◌+◌, Bool, true, false, not, String, List, [], ◌∷◌, Option, none, some,
  if◌then◌else◌, bit_or, ◌==◌,
}
use vcd.Base.Int.{ℤ, pos, pos_part, ltb_ℤ}
use vcd.Sql.{Query, select, unordered}
use vcd.Sql.Answers.{Record}
use vcd.Platform.{Platform}
use vcd.Kernel.{
  Flags, Syscall, vx_flags_set, nx_flags_set, vx_create, nx_create, vx_kill, enter, command_in,
  fork, reap, sleep, Exit, not_run, exited, signaled, Info, alive, gone, failing,
}
use vcd.Lists.VcdCap
use vcd.Vxdb.{vxdb_column_text, vxdb_column_int, vxdb_getvdir}
use vcd.Call.{
  M, pure, raise, reads, looks, ◌>>=◌, ◌>>◌, fault_if, str, Params, Request, internal, get_str,
  get_int, Reply, nil, one, fetch, Fault, code,
}
use vcd.Call.Sys.{sys, must, child, is_alive, require_running}
use vcd.Methods.{merunning, mebusy, meconf, mesys, m_owner, m_lock, method_init}
use vcd.Methods.Common.{xid_is, require_xid, is_none, text_of}

module _ ⦃p : Platform⦄ where
  abbrev or_all : List String → ℕ
  or_all [] = 0
  or_all (k ∷ ks) = bit_or (p.constant k) (or_all ks)

  abbrev pub nx_persistent : Flags
  nx_persistent = record { flags = 0; mask = p.constant "NXF_PERSISTENT" }

  abbrev pub vx_persistent : Flags
  vx_persistent = record { flags = 0; mask = p.constant "VXF_PERSISTENT" }

  abbrev pub nx_started : Flags
  nx_started =
      let bits = or_all ("NXF_PERSISTENT" ∷ "NXF_STATE_ADMIN" ∷ "NXF_SC_HELPER" ∷ []) in
      record { flags = bits; mask = bits }

  abbrev pub vx_started : Flags
  vx_started =
      let bits = or_all (
        "VXF_PERSISTENT" ∷ "VXF_STATE_ADMIN" ∷ "VXF_SC_HELPER" ∷ "VXF_INFO_INIT" ∷ "VXF_REBOOT_KILL"
        ∷ []) in
      record { flags = bits; mask = bits }

  -- Between the fork and the end of the child it is the child that calls nx_create and vx_create. It
  -- prints a failure, and exits with EXIT_SUCCESS.
  unfoldable pub m_vx_start : Request → M Reply
  m_vx_start request = do
    params ← method_init request VcdCap.init (m_owner + m_lock)
    name ← get_str "name" params
    xid ← require_xid name
    sys (nx_flags_set xid nx_persistent)
    sys (vx_flags_set xid vx_persistent)
    info ← looks (λ h. p.vx_info h xid)
    fault_if (is_alive info) merunning
    must fork
    sys (nx_create xid nx_started)
    sys (vx_create xid vx_started)
    must reap
    pure nil

  -- A child that is killed by a signal sets no fault.
  abbrev pub exec_reply : Exit → String → M Reply
  exec_reply not_run output = raise mesys
  exec_reply (exited n) output = if n == 0 then pure (one (str output)) else raise (code (1000 + n))
  exec_reply signaled output = pure (one (str output))

  unfoldable pub m_vx_exec : Request → M Reply
  m_vx_exec request = do
    params ← method_init request VcdCap.exec m_owner
    name ← get_str "name" params
    command ← get_str "command" params
    xid ← require_xid name
    require_running xid
    vdir ← reads (λ db. vxdb_getvdir db name)
    fault_if (is_none vdir) meconf
    must (enter xid (text_of vdir))
    output ← looks (λ h. p.output h (command_in xid command))
    exit ← child (command_in xid command)
    exec_reply exit output

  unfoldable pub m_vx_kill : Request → M Reply
  m_vx_kill request = do
    params ← method_init request VcdCap.init (m_owner + m_lock)
    name ← get_str "name" params
    pid ← get_int "pid" params
    sig ← get_int "sig" params
    xid ← require_xid name
    require_running xid
    must (vx_kill xid pid sig)
    pure nil

  -- The last row's text, or the default.
  unfoldable pub last_text : String → List Record → String
  last_text d [] = d
  last_text d (r ∷ rs) = last_text (vxdb_column_text r 0) rs

  -- `timeout < 1 ? 15 : timeout`
  abbrev pub seconds : ℤ → ℕ
  seconds timeout = if ltb_ℤ timeout (pos 1) then 15 else pos_part timeout

  unfoldable pub last_timeout : ℕ → List Record → ℕ
  last_timeout d [] = d
  last_timeout d (r ∷ rs) = last_timeout (seconds (vxdb_column_int r 1)) rs

  abbrev pub command_for : String → String → Request
  command_for name command = internal (("name", str name) ∷ ("command", str command) ∷ [])

  unfoldable pub m_vx_reboot : Request → M Reply
  unfolding last_text
  m_vx_reboot request = do
    params ← method_init request VcdCap.init (m_owner + m_lock)
    name ← get_str "name" params
    xid ← require_xid name
    require_running xid
    rows ← fetch (select ("reboot" ∷ []) "init" (xid_is xid) unordered)
    m_vx_exec (command_for name (last_text "/sbin/reboot" rows))

  abbrev pub unless_gone : Info → M Reply → M Reply
  unless_gone gone rest = pure nil
  unless_gone failing rest = raise mesys
  unless_gone alive rest = rest

  -- `while (timeout-- > 0) { … sleep(1); }`
  unfoldable pub wait_stopped : ℕ → ℕ → M Reply
  wait_stopped xid zero = raise mebusy
  wait_stopped xid (suc timeout) = do
    info ← looks (λ h. p.vx_info h xid)
    unless_gone info (do sys sleep; wait_stopped xid timeout)

  unfoldable pub m_vx_stop : Request → M Reply
  unfolding last_text last_timeout wait_stopped
  m_vx_stop request = do
    params ← method_init request VcdCap.init (m_owner + m_lock)
    name ← get_str "name" params
    xid ← require_xid name
    require_running xid
    rows ← fetch (select ("halt" ∷ "timeout" ∷ []) "init" (xid_is xid) unordered)
    m_vx_exec (command_for name (last_text "/sbin/halt" rows))
    wait_stopped xid (last_timeout 15 rows)

  unfoldable pub m_vx_restart : Request → M Reply
  m_vx_restart request = do
    params ← method_init request VcdCap.init (m_owner + m_lock)
    m_vx_stop (internal params)
    m_vx_start (internal params)
