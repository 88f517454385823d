-- ===== src/Call/Sys/Keeps.antt =====
-- Steps that ask the kernel or read the database leave the contents of the database alone.
use vcd.Base.{ℕ, List, ◌≡◌, ap, ◌∙◌}
use vcd.Sql.{Contents, Query}
use vcd.Platform.{Platform}
use vcd.Kernel.{Syscall, Info, alive, gone, failing}
use vcd.Call.{State, code, reads, looks, fetch}
use vcd.Call.Keeps.{Keeps, Keeps-pure, Keeps-raise, Keeps-fault_if, Keeps-bind}
use vcd.Call.Sys.Follows.{fetch-state}
use vcd.Call.Sys.{sys, must, child, stopped_if, require_running}

-- The database has the contents `d`.
abbrev pub Unwritten : Contents → State → Type 0
Unwritten d s = s.db ≡ d

module _ {P : State → Type 0} where
  pub Keeps-reads : {A : Type 0} (f : Contents → A) → Keeps P (reads f)
  unfolding reads
  Keeps-reads f = record { at = λ s h. h }

  pub Keeps-looks : {A : Type 0} (f : List Syscall → A) → Keeps P (looks f)
  unfolding looks
  Keeps-looks f = record { at = λ s h. h }

module _ ⦃p : Platform⦄ {d : Contents} where
  pub Keeps-sys : (c : Syscall) → Keeps (Unwritten d) (sys c)
  unfolding sys
  Keeps-sys c = record { at = λ s h. h }

  pub Keeps-child : (c : Syscall) → Keeps (Unwritten d) (child c)
  unfolding child
  Keeps-child c = record { at = λ s h. h }

  pub Keeps-must : (c : Syscall) → Keeps (Unwritten d) (must c)
  unfolding must
  Keeps-must c = search (Keeps-bind, Keeps-sys, Keeps-fault_if) depth 4

  Keeps-stopped_if : (i : Info) → Keeps (Unwritten d) (stopped_if i)
  Keeps-stopped_if alive = Keeps-pure tt
  Keeps-stopped_if gone = Keeps-raise (code 300)
  Keeps-stopped_if failing = Keeps-raise (code 500)

  pub Keeps-require_running : (xid : ℕ) → Keeps (Unwritten d) (require_running xid)
  unfolding require_running
  Keeps-require_running xid = search (Keeps-bind, Keeps-looks, Keeps-stopped_if) depth 4

  pub Keeps-fetch : (q : Query) → Keeps (Unwritten d) (fetch q)
  Keeps-fetch q = record { at = λ s h. ap (λ z. z.db) (fetch-state q s) ∙ h }
