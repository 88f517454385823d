-- ===== src/Methods/Isolation/Scheduler.antt =====
-- vxdb.vx.{cpuset,sched,uname}.*: a change of the scheduler and the uname of one virtual server leaves every other one alone.
use vcd.Base.{ℕ, true, false, any, all, String, ◌≡◌, str_equal}
use vcd.Platform.{Platform}
use vcd.Sql.{quote_free}
use vcd.Vxdb.Tables.{vxdb_unique}
use vcd.Vxdb.Rows.{rows_of}
use vcd.Call.{State, Params, external}
use vcd.Methods.Gate.{counted}
use vcd.Methods.Isolation.Statements.{params_clean, statement_rules}
use vcd.Methods.Isolation.Steps.{
  Ends-fault_if, Ends-get_str, Ends-get_int, Ends-get_bool, Ends-require_xid, Ends-exec,
}
use vcd.Methods.Isolation.Calls.{NotNamed, rows-call}
use vcd.Methods.Vxdb.Scheduler.{
  m_vxdb_vx_cpuset_set, m_vxdb_vx_cpuset_remove, m_vxdb_vx_sched_set, m_vxdb_vx_sched_remove,
  m_vxdb_vx_uname_set, m_vxdb_vx_uname_remove,
}

module _ ⦃p : Platform⦄ (params : Params) (x : ℕ) (clean : params_clean params ≡ true) where
  pub m_vxdb_vx_cpuset_set-rows :
      (credentials : Params) (s : State)
      → NotNamed x (counted s).db params
      → (t : String) → str_equal "vcd" t ≡ false
      → rows_of x ((m_vxdb_vx_cpuset_set (external credentials params) s).1.db t)
        ≡ rows_of x (s.db t)
  unfolding m_vxdb_vx_cpuset_set vxdb_unique quote_free any all
  m_vxdb_vx_cpuset_set-rows credentials s others t other =
      rows-call _ _ _ credentials params s x
        (Ends-get_str _ _ _ _ _ clean (λ name named _.
          Ends-get_str _ _ _ _ _ clean (λ cpus _ cpus_clean.
            Ends-get_str _ _ _ _ _ clean (λ mems _ mems_clean.
              Ends-get_bool _ _ _ _ _ (λ virtualize. Ends-fault_if _ _ _ _ _ (
                Ends-fault_if _ _ _ _ _ (
                  Ends-require_xid _ _ _ _ _ named others (λ xid differs.
                    Ends-exec _ _ _ _ xid differs (search statement_rules depth 12)
                      (search statement_rules depth 16)))))))))
        t other

  pub m_vxdb_vx_cpuset_remove-rows :
      (credentials : Params) (s : State)
      → NotNamed x (counted s).db params
      → (t : String) → str_equal "vcd" t ≡ false
      → rows_of x ((m_vxdb_vx_cpuset_remove (external credentials params) s).1.db t)
        ≡ rows_of x (s.db t)
  unfolding m_vxdb_vx_cpuset_remove vxdb_unique quote_free any all
  m_vxdb_vx_cpuset_remove-rows credentials s others t other =
      rows-call _ _ _ credentials params s x
        (Ends-get_str _ _ _ _ _ clean (λ name named _.
          Ends-require_xid _ _ _ _ _ named others (λ xid differs.
            Ends-exec _ _ _ _ xid differs (search statement_rules depth 12)
              (search statement_rules depth 16))))
        t other

  pub m_vxdb_vx_sched_set-rows :
      (credentials : Params) (s : State)
      → NotNamed x (counted s).db params
      → (t : String) → str_equal "vcd" t ≡ false
      → rows_of x ((m_vxdb_vx_sched_set (external credentials params) s).1.db t)
        ≡ rows_of x (s.db t)
  unfolding m_vxdb_vx_sched_set vxdb_unique quote_free any all
  m_vxdb_vx_sched_set-rows credentials s others t other =
      rows-call _ _ _ credentials params s x
        (Ends-get_str _ _ _ _ _ clean (λ name named _. Ends-get_int _ _ _ _ _ (λ cpuid.
          Ends-get_int _ _ _ _ _ (λ fillrate. Ends-get_int _ _ _ _ _ (λ interval.
            Ends-get_int _ _ _ _ _ (λ fillrate2. Ends-get_int _ _ _ _ _ (λ interval2.
              Ends-get_int _ _ _ _ _ (λ tokensmin. Ends-get_int _ _ _ _ _ (λ tokensmax.
                Ends-fault_if _ _ _ _ _ (
                  Ends-fault_if _ _ _ _ _ (
                    Ends-require_xid _ _ _ _ _ named others (λ xid differs.
                      Ends-exec _ _ _ _ xid differs (search statement_rules depth 12)
                        (search statement_rules depth 16)))))))))))))
        t other

  pub m_vxdb_vx_sched_remove-rows :
      (credentials : Params) (s : State)
      → NotNamed x (counted s).db params
      → (t : String) → str_equal "vcd" t ≡ false
      → rows_of x ((m_vxdb_vx_sched_remove (external credentials params) s).1.db t)
        ≡ rows_of x (s.db t)
  unfolding m_vxdb_vx_sched_remove vxdb_unique quote_free any all
  m_vxdb_vx_sched_remove-rows credentials s others t other =
      rows-call _ _ _ credentials params s x
        (Ends-get_str _ _ _ _ _ clean (λ name named _. Ends-get_int _ _ _ _ _ (λ cpuid.
          Ends-fault_if _ _ _ _ _ (
            Ends-require_xid _ _ _ _ _ named others (λ xid differs.
              Ends-exec _ _ _ _ xid differs (search statement_rules depth 12)
                (search statement_rules depth 16))))))
        t other

  pub m_vxdb_vx_uname_set-rows :
      (credentials : Params) (s : State)
      → NotNamed x (counted s).db params
      → (t : String) → str_equal "vcd" t ≡ false
      → rows_of x ((m_vxdb_vx_uname_set (external credentials params) s).1.db t)
        ≡ rows_of x (s.db t)
  unfolding m_vxdb_vx_uname_set vxdb_unique quote_free any all
  m_vxdb_vx_uname_set-rows credentials s others t other =
      rows-call _ _ _ credentials params s x
        (Ends-get_str _ _ _ _ _ clean (λ name named _.
          Ends-get_str _ _ _ _ _ clean (λ type _ type_clean.
            Ends-get_str _ _ _ _ _ clean (λ value _ value_clean. Ends-fault_if _ _ _ _ _ (
              Ends-fault_if _ _ _ _ _ (
                Ends-require_xid _ _ _ _ _ named others (λ xid differs.
                  Ends-exec _ _ _ _ xid differs (search statement_rules depth 12)
                    (search statement_rules depth 16))))))))
        t other

  pub m_vxdb_vx_uname_remove-rows :
      (credentials : Params) (s : State)
      → NotNamed x (counted s).db params
      → (t : String) → str_equal "vcd" t ≡ false
      → rows_of x ((m_vxdb_vx_uname_remove (external credentials params) s).1.db t)
        ≡ rows_of x (s.db t)
  unfolding m_vxdb_vx_uname_remove vxdb_unique quote_free any all
  m_vxdb_vx_uname_remove-rows credentials s others t other =
      rows-call _ _ _ credentials params s x
        (Ends-get_str _ _ _ _ _ clean (λ name named _.
          Ends-get_str _ _ _ _ _ clean (λ text_of_type _ text_of_type_clean.
            Ends-fault_if _ _ _ _ _ (
              Ends-require_xid _ _ _ _ _ named others (λ xid differs.
                Ends-exec _ _ _ _ xid differs (search statement_rules depth 12)
                  (search statement_rules depth 16))))))
        t other
