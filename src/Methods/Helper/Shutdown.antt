-- ===== src/Methods/Helper/Shutdown.antt =====
-- src/vcd/methods/helper/helper_shutdown.c: what happens when the init of a context has ended.
use vcd.Base.{
  ℕ, zero, suc, not, ◌&&◌, List, [], ◌∷◌, Option, none, some, String, if◌then◌else◌, any,
}
use vcd.Sql.{Query, select, unordered, delete, holds}
use vcd.Sql.Answers.{Record}
use vcd.Platform.{Platform}
use vcd.Kernel.{Syscall, rmdir, fork, glance, sleep, Info, alive, gone, failing}
use vcd.Lists.VcdCap
use vcd.Vxdb.{first_row, vxdb_column_int, vxdb_getname}
use vcd.Call.{
  M, pure, raise, reads, looks, ◌>>=◌, ◌>>◌, fault_if, str, Request, internal, get_int, Reply, nil,
  exec_or_fault,
}
use vcd.Call.Sys.{sys, must}
use vcd.Methods.{menovps, mebusy, mesys, method_init}
use vcd.Methods.Common.{xid_is, is_none}
use vcd.Methods.Vxdb.Names.{to_xid}
use vcd.Methods.Running.{m_vx_start, seconds}
use vcd.Methods.Helper.Mounts.{sys_if, cpuset_path}

module _ ⦃p : Platform⦄ where
  abbrev pub seen_gone : Info → ℕ → M ℕ → M ℕ
  seen_gone gone left rest = pure left
  seen_gone failing left rest = raise mesys
  seen_gone alive left rest = rest

  -- `while (n++ < timeout) { sleep(1); … }` until a context is gone. The argument counts the rounds
  -- that are left, and so does the result.
  unfoldable pub wait_gone : (List Syscall → Info) → ℕ → M ℕ
  unfolding looks
  wait_gone ask zero = raise mebusy
  wait_gone ask (suc left) = do
    sys sleep
    info ← looks ask
    seen_gone info left (wait_gone ask left)

  -- The child that waits for the end of both contexts and starts the virtual server again.
  unfoldable pub shutdown_child : ℕ → ℕ → String → M Reply
  unfolding wait_gone
  shutdown_child xid timeout name = do
    left ← wait_gone (λ h. p.nx_info h xid) timeout
    _ ← wait_gone (λ h. p.vx_info h xid) left
    m_vx_start (internal (("name", str name) ∷ []))

  abbrev timeout_of : Option Record → ℕ
  timeout_of none = 15
  timeout_of (some r) = seconds (vxdb_column_int r 0)

  abbrev pub restart_timeout : ℕ → Query
  restart_timeout xid = select ("timeout" ∷ []) "init" (xid_is xid) unordered

  -- `vxdb_changes(vxdb) < 1` says that the DELETE has met no row. The child, which runs
  -- shutdown_child with the timeout, is on its own after the fork.
  unfoldable pub m_helper_shutdown : Request → M Reply
  unfolding sys_if any
  m_helper_shutdown request = do
    params ← method_init request VcdCap.helper 0
    id ← get_int "xid" params
    let xid = to_xid id
    name ← reads (λ db. vxdb_getname db xid)
    fault_if (is_none name) menovps
    mounted ← looks (λ h. p.ismount h "/dev/cpuset" && p.isdir h (cpuset_path xid))
    sys_if mounted (rmdir (cpuset_path xid))
    restarts ← reads (λ db. any (holds (xid_is xid)) (db "restart"))
    exec_or_fault (delete "restart" (xid_is xid) ∷ [])
    if not restarts then pure nil else do must fork; must glance; pure nil

  -- The timeout that the child gets.
  unfoldable pub shutdown_timeout : ℕ → M ℕ
  shutdown_timeout xid = reads (λ db. timeout_of (first_row (p.prepare (restart_timeout xid) db)))
