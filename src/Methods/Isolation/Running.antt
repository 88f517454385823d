-- ===== src/Methods/Isolation/Running.antt =====
-- vx.start, vx.stop, vx.kill, vx.reboot and vx.restart: they leave every virtual server's rows alone.
use vcd.Base.{ℕ, false, String, ◌≡◌, str_equal, ap}
use vcd.Platform.{Platform}
use vcd.Sql.{Contents}
use vcd.Vxdb.Rows.{rows_of}
use vcd.Call.{State, M, Params, external}
use vcd.Call.Keeps.{
  Keeps, Keeps-pure, Keeps-raise, Keeps-if, Keeps-fault_if, Keeps-get_str, Keeps-get_int,
  Keeps-bind,
}
use vcd.Call.Sys.Keeps.{
  Unwritten, Keeps-reads, Keeps-looks, Keeps-sys, Keeps-must, Keeps-require_running, Keeps-fetch,
}
use vcd.Methods.Isolation.Steps.{Ends}
use vcd.Methods.Isolation.Calls.{rows-call}
use vcd.Methods.Running.{m_vx_start, m_vx_stop, m_vx_kill, m_vx_reboot, m_vx_restart}
use vcd.Methods.Running.Quiet.{
  Keeps-require_xid, Keeps-m_vx_exec, Keeps-wait_stopped, Keeps-m_vx_stop, Keeps-m_vx_start,
}

Ends-of_Keeps : {A : Type 0} {m : M A} {d : Contents} (x : ℕ) → Keeps (Unwritten d) m → Ends x d m
Ends-of_Keeps x k = record { at = λ s q t. ap (λ c. rows_of x (c t)) (k.at s q) }

ruleset quiet_rules = (
  Keeps-bind, Keeps-pure, Keeps-raise, Keeps-if, Keeps-fault_if, Keeps-get_str, Keeps-get_int,
  Keeps-reads, Keeps-looks, Keeps-sys, Keeps-must, Keeps-require_running, Keeps-fetch,
  Keeps-require_xid, Keeps-m_vx_exec, Keeps-wait_stopped, Keeps-m_vx_stop, Keeps-m_vx_start,
)

module _ ⦃p : Platform⦄ (credentials params : Params) (s : State) (x : ℕ) (t : String)
    (other : str_equal "vcd" t ≡ false) where
  pub m_vx_start-rows :
      rows_of x ((m_vx_start (external credentials params) s).1.db t) ≡ rows_of x (s.db t)
  unfolding m_vx_start
  m_vx_start-rows =
      rows-call _ _ _ credentials params s x (Ends-of_Keeps x (search quiet_rules depth 26)) t other

  pub m_vx_stop-rows :
      rows_of x ((m_vx_stop (external credentials params) s).1.db t) ≡ rows_of x (s.db t)
  unfolding m_vx_stop
  m_vx_stop-rows =
      rows-call _ _ _ credentials params s x (Ends-of_Keeps x (search quiet_rules depth 26)) t other

  pub m_vx_kill-rows :
      rows_of x ((m_vx_kill (external credentials params) s).1.db t) ≡ rows_of x (s.db t)
  unfolding m_vx_kill
  m_vx_kill-rows =
      rows-call _ _ _ credentials params s x (Ends-of_Keeps x (search quiet_rules depth 26)) t other

  pub m_vx_reboot-rows :
      rows_of x ((m_vx_reboot (external credentials params) s).1.db t) ≡ rows_of x (s.db t)
  unfolding m_vx_reboot
  m_vx_reboot-rows =
      rows-call _ _ _ credentials params s x (Ends-of_Keeps x (search quiet_rules depth 26)) t other

  pub m_vx_restart-rows :
      rows_of x ((m_vx_restart (external credentials params) s).1.db t) ≡ rows_of x (s.db t)
  unfolding m_vx_restart
  m_vx_restart-rows =
      rows-call _ _ _ credentials params s x (Ends-of_Keeps x (search quiet_rules depth 26)) t other
