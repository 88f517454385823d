-- ===== src/Methods/Isolation/Flags.antt =====
-- vxdb.vx.{bcaps,ccaps,flags}.*: a change of the capabilities and flags of one virtual server leaves every other one alone.
use vcd.Base.{ℕ, true, false, any, all, String, ◌≡◌, str_equal}
use vcd.Platform.{Platform}
use vcd.Sql.{quote_free}
use vcd.Vxdb.Tables.{vxdb_unique}
use vcd.Vxdb.Rows.{rows_of}
use vcd.Call.{State, Params, external}
use vcd.Methods.Gate.{counted}
use vcd.Methods.Isolation.Statements.{params_clean, statement_rules}
use vcd.Methods.Isolation.Steps.{Ends-fault_if, Ends-get_str, Ends-require_xid, Ends-exec}
use vcd.Methods.Isolation.Calls.{NotNamed, rows-call}
use vcd.Methods.Vxdb.Flags.{
  m_vxdb_vx_bcaps_add, m_vxdb_vx_bcaps_remove, m_vxdb_vx_ccaps_add, m_vxdb_vx_ccaps_remove,
  m_vxdb_vx_flags_add, m_vxdb_vx_flags_remove,
}

module _ ⦃p : Platform⦄ (params : Params) (x : ℕ) (clean : params_clean params ≡ true) where
  pub m_vxdb_vx_bcaps_add-rows :
      (credentials : Params) (s : State)
      → NotNamed x (counted s).db params
      → (t : String) → str_equal "vcd" t ≡ false
      → rows_of x ((m_vxdb_vx_bcaps_add (external credentials params) s).1.db t)
        ≡ rows_of x (s.db t)
  unfolding m_vxdb_vx_bcaps_add vxdb_unique quote_free any all
  m_vxdb_vx_bcaps_add-rows credentials s others t other =
      rows-call _ _ _ credentials params s x
        (Ends-get_str _ _ _ _ _ clean (λ name named _.
          Ends-get_str _ _ _ _ _ clean (λ bcap _ bcap_clean. Ends-fault_if _ _ _ _ _ (
            Ends-require_xid _ _ _ _ _ named others (λ xid differs.
              Ends-exec _ _ _ _ xid differs (search statement_rules depth 12)
                (search statement_rules depth 16))))))
        t other

  pub m_vxdb_vx_bcaps_remove-rows :
      (credentials : Params) (s : State)
      → NotNamed x (counted s).db params
      → (t : String) → str_equal "vcd" t ≡ false
      → rows_of x ((m_vxdb_vx_bcaps_remove (external credentials params) s).1.db t)
        ≡ rows_of x (s.db t)
  unfolding m_vxdb_vx_bcaps_remove vxdb_unique quote_free any all
  m_vxdb_vx_bcaps_remove-rows credentials s others t other =
      rows-call _ _ _ credentials params s x
        (Ends-get_str _ _ _ _ _ clean (λ name named _.
          Ends-get_str _ _ _ _ _ clean (λ text_of_bcap _ text_of_bcap_clean.
            Ends-fault_if _ _ _ _ _ (
              Ends-require_xid _ _ _ _ _ named others (λ xid differs.
                Ends-exec _ _ _ _ xid differs (search statement_rules depth 12)
                  (search statement_rules depth 16))))))
        t other

  pub m_vxdb_vx_ccaps_add-rows :
      (credentials : Params) (s : State)
      → NotNamed x (counted s).db params
      → (t : String) → str_equal "vcd" t ≡ false
      → rows_of x ((m_vxdb_vx_ccaps_add (external credentials params) s).1.db t)
        ≡ rows_of x (s.db t)
  unfolding m_vxdb_vx_ccaps_add vxdb_unique quote_free any all
  m_vxdb_vx_ccaps_add-rows credentials s others t other =
      rows-call _ _ _ credentials params s x
        (Ends-get_str _ _ _ _ _ clean (λ name named _.
          Ends-get_str _ _ _ _ _ clean (λ ccap _ ccap_clean. Ends-fault_if _ _ _ _ _ (
            Ends-require_xid _ _ _ _ _ named others (λ xid differs.
              Ends-exec _ _ _ _ xid differs (search statement_rules depth 12)
                (search statement_rules depth 16))))))
        t other

  pub m_vxdb_vx_ccaps_remove-rows :
      (credentials : Params) (s : State)
      → NotNamed x (counted s).db params
      → (t : String) → str_equal "vcd" t ≡ false
      → rows_of x ((m_vxdb_vx_ccaps_remove (external credentials params) s).1.db t)
        ≡ rows_of x (s.db t)
  unfolding m_vxdb_vx_ccaps_remove vxdb_unique quote_free any all
  m_vxdb_vx_ccaps_remove-rows credentials s others t other =
      rows-call _ _ _ credentials params s x
        (Ends-get_str _ _ _ _ _ clean (λ name named _.
          Ends-get_str _ _ _ _ _ clean (λ text_of_ccap _ text_of_ccap_clean.
            Ends-fault_if _ _ _ _ _ (
              Ends-require_xid _ _ _ _ _ named others (λ xid differs.
                Ends-exec _ _ _ _ xid differs (search statement_rules depth 12)
                  (search statement_rules depth 16))))))
        t other

  pub m_vxdb_vx_flags_add-rows :
      (credentials : Params) (s : State)
      → NotNamed x (counted s).db params
      → (t : String) → str_equal "vcd" t ≡ false
      → rows_of x ((m_vxdb_vx_flags_add (external credentials params) s).1.db t)
        ≡ rows_of x (s.db t)
  unfolding m_vxdb_vx_flags_add vxdb_unique quote_free any all
  m_vxdb_vx_flags_add-rows credentials s others t other =
      rows-call _ _ _ credentials params s x
        (Ends-get_str _ _ _ _ _ clean (λ name named _.
          Ends-get_str _ _ _ _ _ clean (λ flag _ flag_clean. Ends-fault_if _ _ _ _ _ (
            Ends-require_xid _ _ _ _ _ named others (λ xid differs.
              Ends-exec _ _ _ _ xid differs (search statement_rules depth 12)
                (search statement_rules depth 16))))))
        t other

  pub m_vxdb_vx_flags_remove-rows :
      (credentials : Params) (s : State)
      → NotNamed x (counted s).db params
      → (t : String) → str_equal "vcd" t ≡ false
      → rows_of x ((m_vxdb_vx_flags_remove (external credentials params) s).1.db t)
        ≡ rows_of x (s.db t)
  unfolding m_vxdb_vx_flags_remove vxdb_unique quote_free any all
  m_vxdb_vx_flags_remove-rows credentials s others t other =
      rows-call _ _ _ credentials params s x
        (Ends-get_str _ _ _ _ _ clean (λ name named _.
          Ends-get_str _ _ _ _ _ clean (λ text_of_flag _ text_of_flag_clean.
            Ends-fault_if _ _ _ _ _ (
              Ends-require_xid _ _ _ _ _ named others (λ xid differs.
                Ends-exec _ _ _ _ xid differs (search statement_rules depth 12)
                  (search statement_rules depth 16))))))
        t other
