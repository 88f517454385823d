-- ===== src/Call/Sys/Steps.antt =====
-- What a method knows after a call of the kernel that set no fault.
use vcd.Base.{List, [], ◌∷◌, ◌++◌, ◌≡◌, arith, Bool-cases, inl, inr}
use vcd.Platform.{Platform}
use vcd.Kernel.{Syscall}
use vcd.Call.{State, ok, M, ◌>>=◌, fault_if, looks}
use vcd.Call.Sys.{must, sys}

pub looks-then :
    {A B : Type 0} (g : List Syscall → A) (f : A → M B) (s t : State) (b : B)
    → (looks g >>= f) s ≡ (ok b, t)
    → f (g s.calls) s ≡ (ok b, t)
unfolding looks
looks-then g f s t b e = e

module _ ⦃p : Platform⦄ where
  -- The call is recorded, and the sequence goes on.
  pub must-then :
      {B : Type 0} (c : Syscall) (f : Unit {0} → M B) (s t : State) (b : B)
      → (must c >>= f) s ≡ (ok b, t)
      → f tt (record s { calls = s.calls ++ c ∷ [] }) ≡ (ok b, t)
  unfolding must fault_if sys
  must-then c f s t b e = elim (Bool-cases (p.accepts s.calls c)) [
    | inl done ↦ rw (done, must, fault_if) at e
    | inr refused ↦ absurd (let e' = rw (refused, must, fault_if) at e in ground (arith, e'))
  ]
