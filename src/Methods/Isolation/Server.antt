-- ===== src/Methods/Isolation/Server.antt =====
-- vx.remove and vx.rename: they leave every other virtual server alone.
use vcd.Base.{ℕ, true, false, all, String, ◌≡◌, str_equal, arith, refl}
use vcd.Platform.{Platform}
use vcd.Sql.{stmt_clean, row_clean}
use vcd.Vxdb.Rows.{rows_of, is_for, heads}
use vcd.Call.{State, Params, external}
use vcd.Methods.Gate.{counted}
use vcd.Methods.Isolation.Statements.{params_clean}
use vcd.Methods.Isolation.Steps.{
  Ends-fault_if, Ends-get_str, Ends-require_xid, Ends-reads, Ends-exec-Quiet, Quiet-pure,
  Quiet-fault_if, Quiet-reads, Quiet-looks, Quiet-must, Quiet-must_if, Ends-looks,
}
use vcd.Methods.Isolation.Calls.{NotNamed, rows-call}
use vcd.Methods.Server.{m_vx_remove, m_vx_rename, removal}

removal-for : (xid : ℕ) → all (is_for xid) (removal xid) ≡ true
unfolding all is_for heads
removal-for xid = ground arith

pub removal-clean : (xid : ℕ) → all stmt_clean (removal xid) ≡ true
unfolding all stmt_clean row_clean
removal-clean xid = refl

module _ ⦃p : Platform⦄ (params : Params) (x : ℕ) (clean : params_clean params ≡ true) where
  pub m_vx_remove-rows :
      (credentials : Params) (s : State)
      → NotNamed x (counted s).db params
      → (t : String) → str_equal "vcd" t ≡ false
      → rows_of x ((m_vx_remove (external credentials params) s).1.db t) ≡ rows_of x (s.db t)
  unfolding m_vx_remove
  m_vx_remove-rows credentials s others t other =
      rows-call _ _ _ credentials params s x
        (Ends-get_str _ _ _ _ _ clean (λ name named _.
          Ends-require_xid _ _ _ _ _ named others (λ xid differs. Ends-looks _ _ _ _ (λ info.
            Ends-fault_if _ _ _ _ _ (
              Ends-reads _ _ _ _ (λ vdir. Ends-fault_if _ _ _ _ _ (
                Ends-exec-Quiet _ _ _ _ xid differs (removal-for xid) (removal-clean xid) (
                  Quiet-must _ _
                    (Quiet-looks _ _ (λ remains. Quiet-fault_if _ _ _ (Quiet-pure _)))))))))))
        t other

  pub m_vx_rename-rows :
      (credentials : Params) (s : State)
      → NotNamed x (counted s).db params
      → (t : String) → str_equal "vcd" t ≡ false
      → rows_of x ((m_vx_rename (external credentials params) s).1.db t) ≡ rows_of x (s.db t)
  unfolding m_vx_rename all is_for heads stmt_clean row_clean
  m_vx_rename-rows credentials s others t other =
      rows-call _ _ _ credentials params s x
        (Ends-get_str _ _ _ _ _ clean (λ name named _.
          Ends-get_str _ _ _ _ _ clean (λ newname _ newname_clean. Ends-fault_if _ _ _ _ _ (
            Ends-reads _ _ _ _ (λ taken. Ends-fault_if _ _ _ _ _ (
              Ends-require_xid _ _ _ _ _ named others (λ xid differs.
                Ends-exec-Quiet _ _ _ _ xid differs (ground arith) (ground arith) (
                  Quiet-reads _ _
                    (λ vdir. Quiet-looks _ _ (λ info. Quiet-must_if _ _ _ (Quiet-pure _)))))))))))
        t other
