-- ===== src/Methods/Helper/Plan/Context.antt =====
-- The set-up of the limits, the scheduler and the names follows its plan.
use vcd.Base.{ℕ, not, String, List, [], ◌∷◌, Option, none, some, refl}
use vcd.Sql.{query_clean, row_clean}
use vcd.Sql.Answers.{Record, answer}
use vcd.Platform.{Platform}
use vcd.Kernel.{Syscall, dx_limit_remove, dx_limit_add, dx_limit_set, vx_uname_set}
use vcd.Validate.{str_isempty}
use vcd.Vxdb.{vxdb_getvdir}
use vcd.Call.{State, M, reads, looks, ◌>>=◌, fetch, fetch_one}
use vcd.Call.Loops.{for_rows}
use vcd.Call.Sys.{must, must_if}
use vcd.Call.Sys.Follows.{
  Follows, FollowsAt-fault, Follows-pure, Follows-bind, Follows-sys, Follows-must, Follows-must_if,
  Follows-fetch, called,
}
use vcd.Call.Sys.Loops.{Follows-for_rows, Follows-fetch_one, head_of}
use vcd.Methods.{mesys}
use vcd.Methods.Common.{text_of, context_name}
use vcd.Methods.Helper.Disk.{Usage, nothing_used, walk}
use vcd.Methods.Helper.Context.{
  context_caps_and_flags, context_disk_limits, context_resource_limits, context_scheduler,
  context_uname, set_limits, set_disk_limit, bcaps_query, ccaps_query, flags_query, set_bcaps,
  set_ccaps, set_flags, disk_query, disk_limit, limits_query, sched_query, uname_query,
  counted_or_fault, set_limit, set_sched, set_uname,
}
use vcd.Methods.Helper.Plan.{
  caps_plan, disk_plan, disk_set, disk_add, limits_plan, masked_plan, limit_plan, sched_plan,
  uname_plan, call_if,
}

module _ ⦃p : Platform⦄ where
  -- A call that has to succeed, and the steps that come after it.
  pub Follows-must-then :
      {A : Type 0} (c : Syscall) (f : Unit {0} → M A) (s : State) (plan : List Syscall)
      → Follows (f tt) (called s (c ∷ [])) plan
      → Follows (must c >>= f) s (c ∷ plan)
  Follows-must-then c f s plan h =
      Follows-bind (must c) f s (c ∷ []) plan (Follows-must c s) (λ a e. h)

  pub caps-Follows :
      (xid : ℕ) (s : State) → Follows (context_caps_and_flags xid) s (caps_plan s.db xid)
  unfolding context_caps_and_flags query_clean row_clean
  caps-Follows xid s =
      let bcaps = answer p.arrange (bcaps_query xid) s.db in
      let ccaps = answer p.arrange (ccaps_query xid) s.db in
      let flags = answer p.arrange (flags_query xid) s.db in
      let third = λ (rs : List Record). must (set_flags xid rs) in
      let third_all = fetch (flags_query xid) >>= third in
      let second = λ (rs : List Record). must (set_ccaps xid rs) >>= λ _. third_all in
      let second_all = fetch (ccaps_query xid) >>= second in
      let s1 = called s (set_bcaps xid bcaps ∷ []) in
      let s2 = called s1 (set_ccaps xid ccaps ∷ []) in
      Follows-fetch (bcaps_query xid)
        (λ (rs : List Record). must (set_bcaps xid rs) >>= λ _. second_all) s _ refl
        (Follows-must-then (set_bcaps xid bcaps) (λ _. second_all) s _
          (Follows-fetch (ccaps_query xid) second s1 _ refl (
            Follows-must-then (set_ccaps xid ccaps) (λ _. third_all) s1 _
              (Follows-fetch (flags_query xid) third s2 _ refl
                (Follows-must (set_flags xid flags) s2)))))

  used-Follows :
      (xid : ℕ) (vdir : String) (r : Record) (o : Option Usage) (s : State)
      → Follows
          (counted_or_fault o >>= λ used. must (dx_limit_set xid vdir (disk_limit r used)))
          s
          (disk_set s.db xid vdir r o)
  used-Follows xid vdir r none s = FollowsAt-fault mesys s []
  used-Follows xid vdir r (some used) s = Follows-must (dx_limit_set xid vdir (disk_limit r used)) s

  set_disk-Follows :
      (xid : ℕ) (vdir : String) (o : Option Record) (s : State)
      → Follows (set_disk_limit xid vdir o) s (disk_add s.db xid s.calls vdir o)
  unfolding looks
  set_disk-Follows xid vdir none s = Follows-pure tt s
  set_disk-Follows xid vdir (some r) s =
      let s' = called s (dx_limit_add xid vdir ∷ []) in
      Follows-must-then (dx_limit_add xid vdir)
        (λ _. looks (λ h. p.nftw h vdir) >>= λ files.
          counted_or_fault (walk xid files nothing_used) >>= λ used.
          must (dx_limit_set xid vdir (disk_limit r used)))
        s _ (used-Follows xid vdir r (walk xid (p.nftw s'.calls vdir) nothing_used) s')

  pub disk-Follows :
      (xid : ℕ) (name : String) (s : State)
      → Follows (context_disk_limits xid name) s (disk_plan s.db xid s.calls name)
  unfolding context_disk_limits query_clean row_clean reads
  disk-Follows xid name s =
      let vdir = text_of (vxdb_getvdir s.db name) in
      let s' = called s (dx_limit_remove xid vdir ∷ []) in
      Follows-sys (dx_limit_remove xid vdir)
        (λ _. fetch_one (disk_query xid) >>= set_disk_limit xid vdir) s _
        (λ b.
          Follows-fetch_one (disk_query xid) (set_disk_limit xid vdir) s' _ refl
            (set_disk-Follows xid vdir (head_of (answer p.arrange (disk_query xid) s.db)) s'))

  limits_of-Follows :
      (xid : ℕ) (o : Option (ℕ × ℕ)) (s : State)
      → Follows (set_limits xid o) s (masked_plan s.db xid o)
  unfolding query_clean row_clean
  limits_of-Follows xid none s = FollowsAt-fault mesys s []
  limits_of-Follows xid (some limit_mask) s =
      Follows-for_rows (limits_query xid) (set_limit xid limit_mask)
        (limit_plan s.db xid limit_mask) s refl (λ r u. Follows-must_if _ _ u)

  pub limits-Follows :
      (xid : ℕ) (s : State) → Follows (context_resource_limits xid) s (limits_plan s.db xid)
  unfolding context_resource_limits
  limits-Follows xid s = limits_of-Follows xid p.vx_limit_mask s

  pub sched-Follows :
      (xid : ℕ) (s : State) → Follows (context_scheduler xid) s (sched_plan s.db xid)
  unfolding context_scheduler query_clean row_clean
  sched-Follows xid s =
      Follows-for_rows (sched_query xid) (set_sched xid) _ s refl (λ r u. Follows-must_if _ _ u)

  pub uname-Follows :
      (xid : ℕ) (name vdir : String) (s : State)
      → Follows (context_uname xid name vdir) s (uname_plan s.db xid name vdir)
  unfolding context_uname query_clean row_clean
  uname-Follows xid name vdir s =
      let named = not (str_isempty name) in
      let call = vx_uname_set xid (context_name name vdir) in
      Follows-bind (for_rows (uname_query xid) (set_uname xid)) (λ _. must_if named call) s _
        (call_if named call)
        (Follows-for_rows (uname_query xid) (set_uname xid) _ s refl (λ r u. Follows-must_if _ _ u))
        (λ a e. Follows-must_if named call _)
