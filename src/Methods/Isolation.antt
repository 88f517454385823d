-- ===== src/Methods/Isolation.antt =====
-- The methods that configure one virtual server, those with both M_OWNER and M_LOCK, change nothing
-- of another one.
pub mod Statements
mod Steps
mod Calls
mod Network
mod Flags
mod Limits
mod Startup
mod Scheduler
mod Running
pub mod Server
use vcd.Base.{ℕ, ◌+◌, true, false, String, some, ◌≡◌, ◌≢◌, arith, str_equal}
use vcd.Platform.{Platform}
use vcd.Vxdb.{vxdb_getxid}
use vcd.Vxdb.Rows.{rows_of}
use vcd.Call.{State, Params, str, member, external}
use vcd.Methods.{m_owner, m_lock}
use vcd.Methods.Registry.{Method, call}
use vcd.Methods.Registry.Demands.{required_flags}
use vcd.Methods.Gate.{counted}
use Statements.{params_clean}
use Running.{m_vx_kill-rows, m_vx_reboot-rows, m_vx_restart-rows, m_vx_start-rows, m_vx_stop-rows}
use Network.{
  m_vxdb_nx_addr_set-rows, m_vxdb_nx_addr_remove-rows, m_vxdb_nx_broadcast_set-rows,
  m_vxdb_nx_broadcast_remove-rows,
}
use Flags.{
  m_vxdb_vx_bcaps_add-rows, m_vxdb_vx_bcaps_remove-rows, m_vxdb_vx_ccaps_add-rows,
  m_vxdb_vx_ccaps_remove-rows, m_vxdb_vx_flags_add-rows, m_vxdb_vx_flags_remove-rows,
}
use Limits.{
  m_vxdb_dx_limit_set-rows, m_vxdb_dx_limit_remove-rows, m_vxdb_vx_limit_set-rows,
  m_vxdb_vx_limit_remove-rows,
}
use Startup.{m_vxdb_init_set-rows, m_vxdb_mount_set-rows, m_vxdb_mount_remove-rows}
use Scheduler.{
  m_vxdb_vx_cpuset_set-rows, m_vxdb_vx_cpuset_remove-rows, m_vxdb_vx_sched_set-rows,
  m_vxdb_vx_sched_remove-rows, m_vxdb_vx_uname_set-rows, m_vxdb_vx_uname_remove-rows,
}
use Server.{m_vx_remove-rows, m_vx_rename-rows}

module _ ⦃p : Platform⦄ where
  -- A client calls a method that asks for M_OWNER and M_LOCK, with parameters none of whose texts has
  -- a quote. Whatever comes of it, the rows of a context id other than the one of the virtual server
  -- that the parameters name stay as they are in every table but "vcd".
  pub call-isolated :
      (m : Method) (credentials params : Params) (s : State) (x : ℕ)
      → required_flags m ≡ m_owner + m_lock
      → params_clean params ≡ true
      → ((name : String)
          → member "name" params ≡ some (str name)
          → x ≢ vxdb_getxid (counted s).db name)
      → (t : String) → str_equal "vcd" t ≡ false
      → rows_of x ((call m (external credentials params) s).1.db t) ≡ rows_of x (s.db t)
  unfolding call required_flags
  call-isolated Method.vx_remove credentials params s x asked clean others t other =
      m_vx_remove-rows params x clean credentials s others t other
  call-isolated Method.vx_rename credentials params s x asked clean others t other =
      m_vx_rename-rows params x clean credentials s others t other
  call-isolated Method.vx_kill credentials params s x asked clean others t other =
      m_vx_kill-rows credentials params s x t other
  call-isolated Method.vx_reboot credentials params s x asked clean others t other =
      m_vx_reboot-rows credentials params s x t other
  call-isolated Method.vx_restart credentials params s x asked clean others t other =
      m_vx_restart-rows credentials params s x t other
  call-isolated Method.vx_start credentials params s x asked clean others t other =
      m_vx_start-rows credentials params s x t other
  call-isolated Method.vx_stop credentials params s x asked clean others t other =
      m_vx_stop-rows credentials params s x t other
  call-isolated Method.vxdb_nx_addr_set credentials params s x asked clean others t other =
      m_vxdb_nx_addr_set-rows params x clean credentials s others t other
  call-isolated Method.vxdb_nx_addr_remove credentials params s x asked clean others t other =
      m_vxdb_nx_addr_remove-rows params x clean credentials s others t other
  call-isolated Method.vxdb_nx_broadcast_set credentials params s x asked clean others t other =
      m_vxdb_nx_broadcast_set-rows params x clean credentials s others t other
  call-isolated Method.vxdb_nx_broadcast_remove credentials params s x asked clean others t other =
      m_vxdb_nx_broadcast_remove-rows params x clean credentials s others t other
  call-isolated Method.vxdb_vx_bcaps_add credentials params s x asked clean others t other =
      m_vxdb_vx_bcaps_add-rows params x clean credentials s others t other
  call-isolated Method.vxdb_vx_bcaps_remove credentials params s x asked clean others t other =
      m_vxdb_vx_bcaps_remove-rows params x clean credentials s others t other
  call-isolated Method.vxdb_vx_ccaps_add credentials params s x asked clean others t other =
      m_vxdb_vx_ccaps_add-rows params x clean credentials s others t other
  call-isolated Method.vxdb_vx_ccaps_remove credentials params s x asked clean others t other =
      m_vxdb_vx_ccaps_remove-rows params x clean credentials s others t other
  call-isolated Method.vxdb_vx_flags_add credentials params s x asked clean others t other =
      m_vxdb_vx_flags_add-rows params x clean credentials s others t other
  call-isolated Method.vxdb_vx_flags_remove credentials params s x asked clean others t other =
      m_vxdb_vx_flags_remove-rows params x clean credentials s others t other
  call-isolated Method.vxdb_dx_limit_set credentials params s x asked clean others t other =
      m_vxdb_dx_limit_set-rows params x clean credentials s others t other
  call-isolated Method.vxdb_dx_limit_remove credentials params s x asked clean others t other =
      m_vxdb_dx_limit_remove-rows params x clean credentials s others t other
  call-isolated Method.vxdb_vx_limit_set credentials params s x asked clean others t other =
      m_vxdb_vx_limit_set-rows params x clean credentials s others t other
  call-isolated Method.vxdb_vx_limit_remove credentials params s x asked clean others t other =
      m_vxdb_vx_limit_remove-rows params x clean credentials s others t other
  call-isolated Method.vxdb_init_set credentials params s x asked clean others t other =
      m_vxdb_init_set-rows params x clean credentials s others t other
  call-isolated Method.vxdb_mount_set credentials params s x asked clean others t other =
      m_vxdb_mount_set-rows params x clean credentials s others t other
  call-isolated Method.vxdb_mount_remove credentials params s x asked clean others t other =
      m_vxdb_mount_remove-rows params x clean credentials s others t other
  call-isolated Method.vxdb_vx_cpuset_set credentials params s x asked clean others t other =
      m_vxdb_vx_cpuset_set-rows params x clean credentials s others t other
  call-isolated Method.vxdb_vx_cpuset_remove credentials params s x asked clean others t other =
      m_vxdb_vx_cpuset_remove-rows params x clean credentials s others t other
  call-isolated Method.vxdb_vx_sched_set credentials params s x asked clean others t other =
      m_vxdb_vx_sched_set-rows params x clean credentials s others t other
  call-isolated Method.vxdb_vx_sched_remove credentials params s x asked clean others t other =
      m_vxdb_vx_sched_remove-rows params x clean credentials s others t other
  call-isolated Method.vxdb_vx_uname_set credentials params s x asked clean others t other =
      m_vxdb_vx_uname_set-rows params x clean credentials s others t other
  call-isolated Method.vxdb_vx_uname_remove credentials params s x asked clean others t other =
      m_vxdb_vx_uname_remove-rows params x clean credentials s others t other
  call-isolated m credentials params s x asked clean others t other = absurd (ground arith)
