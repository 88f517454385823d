-- ===== src/Call/Sys.antt =====
-- Calls of the kernel as steps of a method: each one is recorded in the state.
pub mod Steps
pub mod Follows
pub mod RunsTo
pub mod Loops
pub mod Keeps
use vcd.Base.{Bool, true, false, not, List, [], ◌∷◌, ◌++◌, ℕ, ◌+◌, ◌==◌, if◌then◌else◌}
use vcd.Platform.{Platform}
use vcd.Kernel.{Syscall, Exit, exited, not_run, signaled, Info, alive, gone, failing}
use vcd.Call.{State, Result, ok, fault, Fault, code, M, pure, raise, ◌>>=◌, ◌>>◌, fault_if, looks}

module _ ⦃p : Platform⦄ where
  -- A call, and whether it succeeds.
  unfoldable pub sys : Syscall → M Bool
  sys c s = (ok (p.accepts s.calls c), record s { calls = s.calls ++ c ∷ [] })

  -- `if (… == -1) method_return_sys_fault(env, …);`
  unfoldable pub must : Syscall → M (Unit {0})
  unfolding sys
  must c = do done ← sys c; fault_if (not done) (code 500)

  unfoldable pub must_if : Bool → Syscall → M (Unit {0})
  unfolding must
  must_if true c = must c
  must_if false c = pure tt

  -- `if (vx_info(xid, NULL) == 0) method_return_fault(env, …);`
  abbrev pub is_alive : Info → Bool
  is_alive alive = true
  is_alive _ = false

  -- `if (vx_info(xid, NULL) == -1)`, with MESTOPPED for ESRCH.
  abbrev pub stopped_if : Info → M (Unit {0})
  stopped_if alive = pure tt
  stopped_if gone = raise (code 300)
  stopped_if failing = raise (code 500)

  unfoldable pub require_running : ℕ → M (Unit {0})
  unfolding looks
  require_running xid = do info ← looks (λ h. p.vx_info h xid); stopped_if info

  -- The end of the child of a call, and a fault for every end but the exit status 0: MEEXEC with the status.
  abbrev pub exit_fault : Exit → M (Unit {0})
  exit_fault not_run = raise (code 500)
  exit_fault (exited n) = if n == 0 then pure tt else raise (code (1000 + n))
  exit_fault signaled = raise (code 1000)

  unfoldable pub child : Syscall → M Exit
  child c s = (ok (p.runs s.calls c), record s { calls = s.calls ++ c ∷ [] })
