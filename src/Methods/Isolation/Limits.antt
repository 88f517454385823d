-- ===== src/Methods/Isolation/Limits.antt =====
-- vxdb.{dx,vx}.limit.*: a change of the limits of one virtual server leaves every other one alone.
use vcd.Base.{ℕ, true, false, any, all, String, ◌≡◌, str_equal}
use vcd.Platform.{Platform}
use vcd.Sql.{quote_free}
use vcd.Vxdb.Tables.{vxdb_unique}
use vcd.Vxdb.Rows.{rows_of}
use vcd.Call.{State, Params, external}
use vcd.Methods.Gate.{counted}
use vcd.Methods.Isolation.Statements.{params_clean, statement_rules}
use vcd.Methods.Isolation.Steps.{
  Ends-fault_if, Ends-get_str, Ends-get_int, Ends-require_xid, Ends-exec,
}
use vcd.Methods.Isolation.Calls.{NotNamed, rows-call}
use vcd.Methods.Vxdb.Limits.{
  m_vxdb_dx_limit_set, m_vxdb_dx_limit_remove, m_vxdb_vx_limit_set, m_vxdb_vx_limit_remove,
}

module _ ⦃p : Platform⦄ (params : Params) (x : ℕ) (clean : params_clean params ≡ true) where
  pub m_vxdb_dx_limit_set-rows :
      (credentials : Params) (s : State)
      → NotNamed x (counted s).db params
      → (t : String) → str_equal "vcd" t ≡ false
      → rows_of x ((m_vxdb_dx_limit_set (external credentials params) s).1.db t)
        ≡ rows_of x (s.db t)
  unfolding m_vxdb_dx_limit_set vxdb_unique quote_free any all
  m_vxdb_dx_limit_set-rows credentials s others t other =
      rows-call _ _ _ credentials params s x
        (Ends-get_str _ _ _ _ _ clean (λ name named _.
          Ends-get_str _ _ _ _ _ clean (λ spacep _ spacep_clean.
            Ends-get_str _ _ _ _ _ clean (λ inodesp _ inodesp_clean.
              Ends-get_int _ _ _ _ _ (λ reserved. Ends-fault_if _ _ _ _ _ (
                Ends-fault_if _ _ _ _ _ (
                  Ends-fault_if _ _ _ _ _ (
                    Ends-require_xid _ _ _ _ _ named others (λ xid differs.
                      Ends-exec _ _ _ _ xid differs (search statement_rules depth 12)
                        (search statement_rules depth 16))))))))))
        t other

  pub m_vxdb_dx_limit_remove-rows :
      (credentials : Params) (s : State)
      → NotNamed x (counted s).db params
      → (t : String) → str_equal "vcd" t ≡ false
      → rows_of x ((m_vxdb_dx_limit_remove (external credentials params) s).1.db t)
        ≡ rows_of x (s.db t)
  unfolding m_vxdb_dx_limit_remove vxdb_unique quote_free any all
  m_vxdb_dx_limit_remove-rows credentials s others t other =
      rows-call _ _ _ credentials params s x
        (Ends-get_str _ _ _ _ _ clean (λ name named _.
          Ends-require_xid _ _ _ _ _ named others (λ xid differs.
            Ends-exec _ _ _ _ xid differs (search statement_rules depth 12)
              (search statement_rules depth 16))))
        t other

  pub m_vxdb_vx_limit_set-rows :
      (credentials : Params) (s : State)
      → NotNamed x (counted s).db params
      → (t : String) → str_equal "vcd" t ≡ false
      → rows_of x ((m_vxdb_vx_limit_set (external credentials params) s).1.db t)
        ≡ rows_of x (s.db t)
  unfolding m_vxdb_vx_limit_set vxdb_unique quote_free any all
  m_vxdb_vx_limit_set-rows credentials s others t other =
      rows-call _ _ _ credentials params s x
        (Ends-get_str _ _ _ _ _ clean (λ name named _.
          Ends-get_str _ _ _ _ _ clean (λ type _ type_clean.
            Ends-get_str _ _ _ _ _ clean (λ softp _ softp_clean.
              Ends-get_str _ _ _ _ _ clean (λ maxp _ maxp_clean. Ends-fault_if _ _ _ _ _ (
                Ends-fault_if _ _ _ _ _ (
                  Ends-fault_if _ _ _ _ _ (
                    Ends-fault_if _ _ _ _ _ (
                      Ends-require_xid _ _ _ _ _ named others (λ xid differs.
                        Ends-exec _ _ _ _ xid differs (search statement_rules depth 12)
                          (search statement_rules depth 16)))))))))))
        t other

  pub m_vxdb_vx_limit_remove-rows :
      (credentials : Params) (s : State)
      → NotNamed x (counted s).db params
      → (t : String) → str_equal "vcd" t ≡ false
      → rows_of x ((m_vxdb_vx_limit_remove (external credentials params) s).1.db t)
        ≡ rows_of x (s.db t)
  unfolding m_vxdb_vx_limit_remove vxdb_unique quote_free any all
  m_vxdb_vx_limit_remove-rows credentials s others t other =
      rows-call _ _ _ credentials params s x
        (Ends-get_str _ _ _ _ _ clean (λ name named _.
          Ends-get_str _ _ _ _ _ clean (λ text_of_type _ text_of_type_clean.
            Ends-fault_if _ _ _ _ _ (
              Ends-require_xid _ _ _ _ _ named others (λ xid differs.
                Ends-exec _ _ _ _ xid differs (search statement_rules depth 12)
                  (search statement_rules depth 16))))))
        t other
