-- ===== src/Methods/Running/Quiet.antt =====
-- The methods that start, stop or ask a virtual server leave the database alone behind their gate.
use vcd.Base.{ℕ, zero, suc, String}
use vcd.Sql.{Contents}
use vcd.Platform.{Platform}
use vcd.Kernel.{Exit, not_run, exited, signaled, Info, alive, gone, failing}
use vcd.Call.{M, Params, internal, Reply, nil}
use vcd.Call.Keeps.{
  Keeps, Keeps-pure, Keeps-raise, Keeps-asks, Keeps-if, Keeps-fault_if, Keeps-get_str, Keeps-bind,
}
use vcd.Call.Sys.Keeps.{
  Unwritten, Keeps-reads, Keeps-looks, Keeps-sys, Keeps-child, Keeps-must, Keeps-require_running,
  Keeps-fetch,
}
use vcd.Methods.{method_init, mebusy, mesys}
use vcd.Methods.Common.{require_xid}
use vcd.Methods.Passing.{check_flags-Unwritten}
use vcd.Methods.Running.{m_vx_start, m_vx_stop, m_vx_exec, exec_reply, unless_gone, wait_stopped}

module _ ⦃p : Platform⦄ {d : Contents} where
  pub Keeps-require_xid : (name : String) → Keeps (Unwritten d) (require_xid name)
  unfolding require_xid
  Keeps-require_xid name =
      search (Keeps-bind, Keeps-asks, Keeps-if, Keeps-pure, Keeps-raise) depth 5

  pub Keeps-init_internal :
      (params : Params) (caps flags : ℕ)
      → Keeps (Unwritten d) (method_init (internal params) caps flags)
  unfolding method_init
  Keeps-init_internal params caps flags =
      search (Keeps-bind, Keeps-if, Keeps-pure, check_flags-Unwritten) depth 6

  pub Keeps-exec_reply :
      (exit : Exit) (output : String) → Keeps (Unwritten d) (exec_reply exit output)
  Keeps-exec_reply not_run output = Keeps-raise mesys
  Keeps-exec_reply (exited n) output = search (Keeps-if, Keeps-pure, Keeps-raise) depth 3
  Keeps-exec_reply signaled output = Keeps-pure _

  pub Keeps-m_vx_exec : (params : Params) → Keeps (Unwritten d) (m_vx_exec (internal params))
  unfolding m_vx_exec
  Keeps-m_vx_exec params =
      search
        (
          Keeps-bind, Keeps-init_internal, Keeps-get_str, Keeps-require_xid, Keeps-fault_if,
          Keeps-require_running, Keeps-reads, Keeps-looks, Keeps-must, Keeps-child,
          Keeps-exec_reply,
        )
        depth 24

  Keeps-unless_gone :
      (i : Info) (m : M Reply) → Keeps (Unwritten d) m → Keeps (Unwritten d) (unless_gone i m)
  Keeps-unless_gone gone m k = Keeps-pure nil
  Keeps-unless_gone failing m k = Keeps-raise mesys
  Keeps-unless_gone alive m k = k

  pub Keeps-wait_stopped : (xid timeout : ℕ) → Keeps (Unwritten d) (wait_stopped xid timeout)
  unfolding wait_stopped
  Keeps-wait_stopped xid zero = Keeps-raise mebusy
  Keeps-wait_stopped xid (suc timeout) = Keeps-bind _ _ (Keeps-looks _) (λ info.
      Keeps-unless_gone info _ (Keeps-bind _ _ (Keeps-sys _) (λ _. Keeps-wait_stopped xid timeout)))

  pub Keeps-m_vx_stop : (params : Params) → Keeps (Unwritten d) (m_vx_stop (internal params))
  unfolding m_vx_stop
  Keeps-m_vx_stop params =
      search
        (
          Keeps-bind, Keeps-init_internal, Keeps-get_str, Keeps-require_xid, Keeps-require_running,
          Keeps-fetch, Keeps-m_vx_exec, Keeps-wait_stopped,
        )
        depth 20

  pub Keeps-m_vx_start : (params : Params) → Keeps (Unwritten d) (m_vx_start (internal params))
  unfolding m_vx_start
  Keeps-m_vx_start params =
      search
        (
          Keeps-bind, Keeps-init_internal, Keeps-get_str, Keeps-require_xid, Keeps-fault_if,
          Keeps-looks, Keeps-sys, Keeps-must, Keeps-pure,
        )
        depth 26
