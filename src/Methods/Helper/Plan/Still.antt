-- ===== src/Methods/Helper/Plan/Still.antt =====
-- The gate, method_init, makes no call of the kernel.
use vcd.Base.{ℕ, Bool, String, List, Option, ◌≡◌, arith, Option-cases, inl, inr}
use vcd.Sql.{Stmt}
use vcd.Platform.{Platform}
use vcd.Kernel.{Syscall}
use vcd.Call.{State, Params, external, vxdb_exec}
use vcd.Call.Keeps.{Keeps, Keeps-pure, Keeps-raise, Keeps-asks, Keeps-if, Keeps-get_str, Keeps-bind}
use vcd.Methods.{method_init, method_authorize, method_check_flags, method_lock}

module _ ⦃p : Platform⦄ where
  -- No call has been made since `h`.
  abbrev pub Still : List Syscall → State → Type 0
  Still h s = s.calls ≡ h

  exec-Still : (h : List Syscall) (ss : List Stmt) → Keeps (Still h) (vxdb_exec ss)
  unfolding vxdb_exec
  exec-Still h ss = record {
    at = λ s k. elim (Option-cases (p.exec ss s.db)) [ inl e ↦ rw e k | inr (d, e) ↦ rw e k ];
  }

  lock-Still : (h : List Syscall) (name : String) → Keeps (Still h) (method_lock name)
  unfolding method_lock
  lock-Still h name = record { at = λ s k. ground (arith, k) }

  check_flags-Still :
      (h : List Syscall) (params : Params) (b : Bool) (user : Option String) (flags : ℕ)
      → Keeps (Still h) (method_check_flags params b user flags)
  unfolding method_check_flags
  check_flags-Still h params b user flags =
      search (Keeps-bind, Keeps-if, Keeps-pure, Keeps-raise, Keeps-asks, Keeps-get_str, lock-Still)
        depth 9

  authorize-Still :
      (h : List Syscall) (user pass : String) (params : Params) (caps flags : ℕ)
      → Keeps (Still h) (method_authorize user pass params caps flags)
  unfolding method_authorize
  authorize-Still h user pass params caps flags =
      search
        (Keeps-bind, Keeps-if, Keeps-pure, Keeps-raise, Keeps-asks, check_flags-Still, exec-Still)
        depth 9

  -- The gate makes no call of the kernel.
  pub init-Still :
      (h : List Syscall) (credentials params : Params) (caps flags : ℕ)
      → Keeps (Still h) (method_init (external credentials params) caps flags)
  unfolding method_init
  init-Still h credentials params caps flags =
      search (Keeps-bind, exec-Still, Keeps-get_str, authorize-Still) depth 9
