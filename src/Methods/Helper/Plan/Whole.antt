-- ===== src/Methods/Helper/Plan/Whole.antt =====
-- The whole set-up follows its plan.
use vcd.Base.{ℕ, String, [], ◌∷◌}
use vcd.Platform.{Platform}
use vcd.Kernel.{ns_setup}
use vcd.Call.{State, ◌>>=◌}
use vcd.Call.Sys.Follows.{Follows, Follows-bind}
use vcd.Methods.Helper.{set_up}
use vcd.Methods.Helper.Context.{
  context_caps_and_flags, context_disk_limits, context_resource_limits, context_scheduler,
  context_uname,
}
use vcd.Methods.Helper.Mounts.{context_cpuset, namespace_setup, namespace_mount}
use vcd.Methods.Helper.Plan.{set_up_plan}
use vcd.Methods.Helper.Plan.Context.{
  caps-Follows, disk-Follows, limits-Follows, sched-Follows, uname-Follows,
}
use vcd.Methods.Helper.Plan.Mounts.{cpuset-Follows, namespace-Follows, mounts-Follows}

module _ ⦃p : Platform⦄ where
  -- The set-up makes the calls of its plan in their order, up to the first that is refused, and all of
  -- them if it sets no fault.
  pub set_up-Follows :
      (xid : ℕ) (name vdir : String) (s : State)
      → Follows (set_up xid name vdir) s (set_up_plan s.db xid s.calls name vdir)
  unfolding set_up
  set_up-Follows xid name vdir s =
      let mounts = namespace_mount xid vdir in
      let unames = context_uname xid name vdir >>= λ _. mounts in
      let names = namespace_setup xid >>= λ _. unames in
      let scheds = context_scheduler xid >>= λ _. names in
      let cpusets = context_cpuset xid >>= λ _. scheds in
      let limits = context_resource_limits xid >>= λ _. cpusets in
      let disks = context_disk_limits xid name >>= λ _. limits in
      Follows-bind (context_caps_and_flags xid) (λ _. disks) s _ _ (caps-Follows xid s)
        (λ _ _.
          Follows-bind (context_disk_limits xid name) (λ _. limits) _ _ _ (disk-Follows xid name _)
            (λ _ _.
              Follows-bind (context_resource_limits xid) (λ _. cpusets) _ _ _ (limits-Follows xid _)
                (λ _ _.
                  Follows-bind (context_cpuset xid) (λ _. scheds) _ _ _ (cpuset-Follows xid _)
                    (λ _ _.
                      Follows-bind (context_scheduler xid) (λ _. names) _ _ _ (sched-Follows xid _)
                        (λ _ _.
                          Follows-bind (namespace_setup xid) (λ _. unames) _ (ns_setup xid ∷ []) _
                            (namespace-Follows xid _)
                            (λ _ _.
                              Follows-bind (context_uname xid name vdir) (λ _. mounts) _ _ _
                                (uname-Follows xid name vdir _)
                                (λ _ _. mounts-Follows xid vdir _)))))))
