-- ===== src/Methods/Isolation/Network.antt =====
-- vxdb.nx.*: a change of the addresses of one virtual server leaves every other one alone.
use vcd.Base.{ℕ, true, false, any, all, String, ◌≡◌, str_equal}
use vcd.Platform.{Platform}
use vcd.Sql.{quote_free}
use vcd.Vxdb.Tables.{vxdb_unique}
use vcd.Vxdb.Rows.{rows_of}
use vcd.Call.{State, Params, external}
use vcd.Methods.Gate.{counted}
use vcd.Methods.Isolation.Statements.{params_clean, statement_rules}
use vcd.Methods.Isolation.Steps.{Ends-fault_if, Ends-get_str, Ends-require_xid, Ends-exec}
use vcd.Methods.Isolation.Calls.{NotNamed, rows-call}
use vcd.Methods.Vxdb.Network.{
  m_vxdb_nx_addr_set, m_vxdb_nx_addr_remove, m_vxdb_nx_broadcast_set, m_vxdb_nx_broadcast_remove,
}

module _ ⦃p : Platform⦄ (params : Params) (x : ℕ) (clean : params_clean params ≡ true) where
  pub m_vxdb_nx_addr_set-rows :
      (credentials : Params) (s : State)
      → NotNamed x (counted s).db params
      → (t : String) → str_equal "vcd" t ≡ false
      → rows_of x ((m_vxdb_nx_addr_set (external credentials params) s).1.db t) ≡ rows_of x (s.db t)
  unfolding m_vxdb_nx_addr_set vxdb_unique quote_free any all
  m_vxdb_nx_addr_set-rows credentials s others t other =
      rows-call _ _ _ credentials params s x
        (Ends-get_str _ _ _ _ _ clean (λ name named _.
          Ends-get_str _ _ _ _ _ clean (λ addr _ addr_clean.
            Ends-get_str _ _ _ _ _ clean (λ text_of_netmask _ text_of_netmask_clean.
              Ends-fault_if _ _ _ _ _ (
                Ends-fault_if _ _ _ _ _ (
                  Ends-require_xid _ _ _ _ _ named others (λ xid differs.
                    Ends-exec _ _ _ _ xid differs (search statement_rules depth 12)
                      (search statement_rules depth 16))))))))
        t other

  pub m_vxdb_nx_addr_remove-rows :
      (credentials : Params) (s : State)
      → NotNamed x (counted s).db params
      → (t : String) → str_equal "vcd" t ≡ false
      → rows_of x ((m_vxdb_nx_addr_remove (external credentials params) s).1.db t)
        ≡ rows_of x (s.db t)
  unfolding m_vxdb_nx_addr_remove vxdb_unique quote_free any all
  m_vxdb_nx_addr_remove-rows credentials s others t other =
      rows-call _ _ _ credentials params s x
        (Ends-get_str _ _ _ _ _ clean (λ name named _.
          Ends-get_str _ _ _ _ _ clean (λ text_of_addr _ text_of_addr_clean.
            Ends-fault_if _ _ _ _ _ (
              Ends-require_xid _ _ _ _ _ named others (λ xid differs.
                Ends-exec _ _ _ _ xid differs (search statement_rules depth 12)
                  (search statement_rules depth 16))))))
        t other

  pub m_vxdb_nx_broadcast_set-rows :
      (credentials : Params) (s : State)
      → NotNamed x (counted s).db params
      → (t : String) → str_equal "vcd" t ≡ false
      → rows_of x ((m_vxdb_nx_broadcast_set (external credentials params) s).1.db t)
        ≡ rows_of x (s.db t)
  unfolding m_vxdb_nx_broadcast_set vxdb_unique quote_free any all
  m_vxdb_nx_broadcast_set-rows credentials s others t other =
      rows-call _ _ _ credentials params s x
        (Ends-get_str _ _ _ _ _ clean (λ name named _.
          Ends-get_str _ _ _ _ _ clean (λ broadcast _ broadcast_clean. Ends-fault_if _ _ _ _ _ (
            Ends-require_xid _ _ _ _ _ named others (λ xid differs.
              Ends-exec _ _ _ _ xid differs (search statement_rules depth 12)
                (search statement_rules depth 16))))))
        t other

  pub m_vxdb_nx_broadcast_remove-rows :
      (credentials : Params) (s : State)
      → NotNamed x (counted s).db params
      → (t : String) → str_equal "vcd" t ≡ false
      → rows_of x ((m_vxdb_nx_broadcast_remove (external credentials params) s).1.db t)
        ≡ rows_of x (s.db t)
  unfolding m_vxdb_nx_broadcast_remove vxdb_unique quote_free any all
  m_vxdb_nx_broadcast_remove-rows credentials s others t other =
      rows-call _ _ _ credentials params s x
        (Ends-get_str _ _ _ _ _ clean (λ name named _.
          Ends-require_xid _ _ _ _ _ named others (λ xid differs.
            Ends-exec _ _ _ _ xid differs (search statement_rules depth 12)
              (search statement_rules depth 16))))
        t other
