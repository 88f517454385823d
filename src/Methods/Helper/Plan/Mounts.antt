-- ===== src/Methods/Helper/Plan/Mounts.antt =====
-- The set-up of the cpuset, the namespace and the mounts follows its plan.
use mathlib.Core.List.{append-nil}
use vcd.Base.{
  ℕ, Bool, true, false, not, ◌&&◌, String, List, [], ◌∷◌, Option, none, some, refl, subst, ◌==◌,
  Bool-cases, inl, inr, ◌+◌,
}
use vcd.Sql.{query_clean, row_clean}
use vcd.Sql.Answers.{Record}
use vcd.Platform.{Platform}
use vcd.Kernel.{
  Syscall, ns_setup, mount_in, mkdir, rmdir, append, new_mtab, mtab_line, Exit, not_run, exited,
  signaled,
}
use vcd.Vxdb.{first_row, vxdb_column_text, vxdb_column_int}
use vcd.Call.{State, M, Fault, code, pure, reads, looks, ◌>>=◌, ◌>>◌, fault_if, fetch_one}
use vcd.Call.Loops.{for_rows}
use vcd.Call.Sys.{sys, must, child, exit_fault}
use vcd.Call.Sys.Follows.{Follows, FollowsAt-fault, Follows-pure, Follows-bind, Follows-sys, called}
use vcd.Call.Sys.Loops.{Follows-for_rows, Follows-fetch_one}
use vcd.Methods.{mesys}
use vcd.Methods.Helper.Mounts.{
  sys_if, cpuset_path, file_in, cpuset_query, fill_files, fill_cpuset, renew_cpuset, context_cpuset,
  namespace_fault, namespace_setup, mount_of, do_mount, root_query, mounts_query, mount_root,
  namespace_mount,
}
use vcd.Methods.Helper.Plan.{
  call_if, cpuset_files, fill_plan, renew_plan, cpuset_plan, mount_plan, root_plan, mounts_plan,
}
use vcd.Methods.Helper.Plan.Context.{Follows-must-then}

module _ ⦃p : Platform⦄ where
  Follows-sys_if : (b : Bool) (c : Syscall) (s : State) → Follows (sys_if b c) s (call_if b c)
  unfolding sys_if sys
  Follows-sys_if true c s = record {
    made = c ∷ [];
    left = [];
    split = refl;
    after = refl;
    whole = λ a e. refl;
  }
  Follows-sys_if false c s = Follows-pure true s

  Follows-fault_if : (b : Bool) (f : Fault) (s : State) → Follows (fault_if b f) s []
  unfolding fault_if
  Follows-fault_if true f s = FollowsAt-fault f s []
  Follows-fault_if false f s = Follows-pure tt s

  Follows-child :
      {A : Type 0} (c : Syscall) (f : Exit → M A) (s : State) (plan : List Syscall)
      → ((e : Exit) → Follows (f e) (called s (c ∷ [])) plan)
      → Follows (child c >>= f) s (c ∷ plan)
  unfolding child
  Follows-child c f s plan h =
      Follows-bind (child c) f s (c ∷ []) plan
        (record { made = c ∷ []; left = []; split = refl; after = refl; whole = λ a e. refl })
        (λ a e. h a)

  namespace_fault-Follows : (e : Exit) (s : State) → Follows (namespace_fault e) s []
  namespace_fault-Follows not_run s = FollowsAt-fault mesys s []
  namespace_fault-Follows (exited n) s = elim (Bool-cases (n == 0)) [
    | inl fine ↦ rw fine (Follows-pure tt s)
    | inr bad ↦ rw bad (FollowsAt-fault mesys s [])
  ]
  namespace_fault-Follows signaled s = Follows-pure tt s

  exit_fault-Follows : (e : Exit) (s : State) → Follows (exit_fault e) s []
  exit_fault-Follows not_run s = FollowsAt-fault mesys s []
  exit_fault-Follows (exited n) s = elim (Bool-cases (n == 0)) [
    | inl fine ↦ rw fine (Follows-pure tt s)
    | inr bad ↦ rw bad (FollowsAt-fault (code (1000 + n)) s [])
  ]
  exit_fault-Follows signaled s = FollowsAt-fault (code 1000) s []

  pub namespace-Follows :
      (xid : ℕ) (s : State) → Follows (namespace_setup xid) s (ns_setup xid ∷ [])
  unfolding namespace_setup
  namespace-Follows xid s =
      Follows-child (ns_setup xid) namespace_fault s [] (λ e. namespace_fault-Follows e _)

  mount-Follows :
      (xid : ℕ) (vdir : String) (mtab : Bool) (r : Record) (s : State)
      → Follows (do_mount xid vdir mtab r) s (mount_plan s.db xid vdir mtab r)
  unfolding do_mount
  mount-Follows xid vdir mtab r s =
      let line = mtab_line vdir (mount_of r) in
      Follows-child (mount_in xid vdir (mount_of r))
        (λ e. exit_fault e >>= λ _. sys_if mtab line >>= λ _. pure tt) s (call_if mtab line)
        (λ e.
          Follows-bind (exit_fault e) (λ _. sys_if mtab line >> pure tt) _ [] (call_if mtab line)
            (exit_fault-Follows e _)
            (λ a q.
              subst (Follows (sys_if mtab line >> pure tt) _) (append-nil (call_if mtab line)) (
                Follows-bind (sys_if mtab line) (λ _. pure tt) _ (call_if mtab line) []
                  (Follows-sys_if mtab line _) (λ b z. Follows-pure tt _))))

  root-Follows :
      (xid : ℕ) (vdir : String) (o : Option Record) (s : State)
      → Follows (mount_root xid vdir o) s (root_plan s.db xid vdir o)
  root-Follows xid vdir none s = Follows-pure tt s
  root-Follows xid vdir (some r) s = mount-Follows xid vdir false r s

  pub mounts-Follows :
      (xid : ℕ) (vdir : String) (s : State)
      → Follows (namespace_mount xid vdir) s (mounts_plan s.db xid vdir)
  unfolding namespace_mount reads query_clean row_clean
  mounts-Follows xid vdir s =
      let root = first_row (p.prepare (root_query xid) s.db) in
      let others = for_rows (mounts_query xid) (do_mount xid vdir true) in
      Follows-bind (mount_root xid vdir root) (λ _. must (new_mtab vdir) >>= λ _. others) s
        (root_plan s.db xid vdir root) _ (root-Follows xid vdir root s)
        (λ a e.
          Follows-must-then (new_mtab vdir) (λ _. others) _ _
            (Follows-for_rows (mounts_query xid) (do_mount xid vdir true)
              (mount_plan s.db xid vdir true) _ refl (λ r u. mount-Follows xid vdir true r u)))

  files-Follows :
      (path : String) (r : Record) (xid : ℕ) (s : State)
      → Follows (fill_files path r) s (cpuset_files s.db xid s.calls path r)
  unfolding looks
  files-Follows path r xid s =
      let cpus = append (file_in path "/cpus") (vxdb_column_text r 0) in
      let mems = append (file_in path "/mems") (vxdb_column_text r 1) in
      let value = append (file_in path "/virtualize") (p.decimal (vxdb_column_int r 2)) in
      let s2 = called (called s (cpus ∷ [])) (mems ∷ []) in
      let there = p.ispath s2.calls (file_in path "/virtualize") in
      let third = λ (c : Bool). λ (m : Bool).
        looks (λ h. p.ispath h (file_in path "/virtualize")) >>= λ (b : Bool).
        sys_if b value >>= λ (v : Bool). fault_if (not (c && m && v)) mesys in
      Follows-sys cpus (λ c. sys mems >>= third c) s _
        (λ c. Follows-sys mems (third c) _ _ (λ m.
          subst (Follows (third c m) s2) (append-nil (call_if there value)) (
            Follows-bind (sys_if there value) (λ v. fault_if (not (c && m && v)) mesys) s2
              (call_if there value) [] (Follows-sys_if there value s2)
              (λ v e. Follows-fault_if (not (c && m && v)) mesys _))))

  fill-Follows :
      (path : String) (o : Option Record) (xid : ℕ) (s : State)
      → Follows (fill_cpuset path o) s (fill_plan s.db xid s.calls path o)
  unfolding looks
  fill-Follows path none xid s = Follows-pure tt s
  fill-Follows path (some r) xid s =
      Follows-bind (sys_if (not (p.isdir s.calls path)) (mkdir path)) (λ _. fill_files path r) s _ _
        (Follows-sys_if (not (p.isdir s.calls path)) (mkdir path) s)
        (λ a e. files-Follows path r xid _)

  renew-Follows :
      (xid : ℕ) (b : Bool) (s : State)
      → Follows (renew_cpuset xid b) s (renew_plan s.db xid s.calls b)
  unfolding looks query_clean row_clean
  renew-Follows xid false s = Follows-pure tt s
  renew-Follows xid true s =
      let path = cpuset_path xid in
      Follows-bind (sys_if (p.isdir s.calls path) (rmdir path))
        (λ _. fetch_one (cpuset_query xid) >>= fill_cpuset path) s _ _
        (Follows-sys_if (p.isdir s.calls path) (rmdir path) s)
        (λ a e.
          Follows-fetch_one (cpuset_query xid) (fill_cpuset path) _ _ refl
            (fill-Follows path _ xid _))

  pub cpuset-Follows :
      (xid : ℕ) (s : State) → Follows (context_cpuset xid) s (cpuset_plan s.db xid s.calls)
  unfolding context_cpuset looks
  cpuset-Follows xid s = renew-Follows xid (p.ismount s.calls "/dev/cpuset") s
