-- ===== src/Methods/Helper/Plan/Sane.antt =====
-- What every call of the set-up has in common.
use vcd.Base.{
  ℕ, ◌≤◌, Bool, true, false, not, String, List, [], ◌∷◌, ◌++◌, Option, none, some, ◌≡◌, refl, arith,
  All,
}
use vcd.Sql.{Contents}
use vcd.Sql.Answers.{Record, answer}
use vcd.Platform.{Platform}
use vcd.Kernel.{
  Syscall, vx_bcaps_set, vx_ccaps_set, vx_flags_set, dx_limit_remove, dx_limit_add, dx_limit_set,
  vx_limit_set, vx_sched_set, vx_uname_set, ns_setup, mount_in, mkdir, rmdir, append, new_mtab,
  mtab_line,
}
use vcd.Methods.Common.{text_of}
use vcd.Vxdb.{first_row, vxdb_getvdir}
use vcd.Call.Sys.Loops.{calls_for, head_of}
use vcd.Methods.Helper.Disk.{Usage}
use vcd.Methods.Helper.Context.{disk_query, at_least, sched_query, limits_query, uname_query}
use vcd.Methods.Helper.Mounts.{cpuset_path, mounts_query, root_query, file_in}
use vcd.Methods.Helper.Plan.{
  call_if, caps_plan, disk_set, disk_add, disk_plan, limit_plan, masked_plan, limits_plan,
  sched_plan, uname_plan, cpuset_files, fill_plan, renew_plan, cpuset_plan, mount_plan, root_plan,
  mounts_plan, set_up_plan,
}

module _ ⦃p : Platform⦄ (xid : ℕ) (dir : String) where
  -- A call that concerns the context `xid`, its cpuset and the directory `dir` alone, with limits that are no contradiction.
  abbrev pub Sane : Syscall → Type 0
  Sane (vx_bcaps_set x f) = x ≡ xid
  Sane (vx_ccaps_set x f) = x ≡ xid
  Sane (vx_flags_set x f) = (x ≡ xid) × (f.mask ≡ f.flags)
  Sane (dx_limit_remove x vdir) = x ≡ xid
  Sane (dx_limit_add x vdir) = x ≡ xid
  Sane (dx_limit_set x vdir l) =
      (x ≡ xid) × (l.space_used ≤ l.space_total) × (l.inodes_used ≤ l.inodes_total)
  Sane (vx_limit_set x l) = (x ≡ xid) × (l.softlimit ≤ l.maximum)
  Sane (vx_sched_set x l) = x ≡ xid
  Sane (vx_uname_set x u) = x ≡ xid
  Sane (ns_setup x) = x ≡ xid
  Sane (mount_in x vdir m) = (x ≡ xid) × (vdir ≡ dir)
  Sane (mkdir path) = path ≡ cpuset_path xid
  Sane (rmdir path) = path ≡ cpuset_path xid
  Sane (append path s) = (file : String) × (path ≡ file_in (cpuset_path xid) file)
  Sane (new_mtab vdir) = vdir ≡ dir
  Sane (mtab_line vdir m) = vdir ≡ dir
  Sane _ = ⊥

  at_least-≤ : (used total : ℕ) → used ≤ at_least used total
  at_least-≤ used total = ground arith

  Sane-append : (cs ds : List Syscall) → All Sane cs → All Sane ds → All Sane (cs ++ ds)
  Sane-append [] ds h k = k
  Sane-append (c ∷ cs) ds h k = (h.0, Sane-append cs ds h.1 k)

  Sane-if : (b : Bool) (c : Syscall) → Sane c → All Sane (call_if b c)
  Sane-if true c h = (h, tt)
  Sane-if false c h = tt

  Sane-for :
      (f : Record → List Syscall)
      → ((r : Record) → All Sane (f r))
      → (rs : List Record) → All Sane (calls_for f rs)
  unfolding calls_for
  Sane-for f h [] = tt
  Sane-for f h (r ∷ rs) = Sane-append (f r) (calls_for f rs) (h r) (Sane-for f h rs)

  module _ (db : Contents) where
    disk_set-Sane :
        (vdir : String) (r : Record) (o : Option Usage) → All Sane (disk_set db xid vdir r o)
    disk_set-Sane vdir r none = tt
    disk_set-Sane vdir r (some u) = ((refl, at_least-≤ _ _, at_least-≤ _ _), tt)

    disk_add-Sane :
        (h : List Syscall) (vdir : String) (o : Option Record) → All Sane (disk_add db xid h vdir o)
    disk_add-Sane h vdir none = tt
    disk_add-Sane h vdir (some r) = (refl, disk_set-Sane vdir r _)

    limits-Sane : (o : Option (ℕ × ℕ)) → All Sane (masked_plan db xid o)
    limits-Sane none = tt
    limits-Sane (some limit_mask) =
        Sane-for (limit_plan db xid limit_mask) (λ r. Sane-if _ _ (refl, at_least-≤ _ _))
          (answer p.arrange (limits_query xid) db)

    files-Sane :
        (h : List Syscall) (r : Record) → All Sane (cpuset_files db xid h (cpuset_path xid) r)
    files-Sane h r = (("/cpus", refl), (("/mems", refl), Sane-if _ _ ("/virtualize", refl)))

    fill-Sane :
        (h : List Syscall) (o : Option Record) → All Sane (fill_plan db xid h (cpuset_path xid) o)
    fill-Sane h none = tt
    fill-Sane h (some r) =
        let made = call_if (not (p.isdir h (cpuset_path xid))) (mkdir (cpuset_path xid)) in
        Sane-append made (cpuset_files db xid (h ++ made) (cpuset_path xid) r) (Sane-if _ _ refl)
          (files-Sane _ r)

    renew-Sane : (h : List Syscall) (b : Bool) → All Sane (renew_plan db xid h b)
    renew-Sane h false = tt
    renew-Sane h true =
        Sane-append (call_if (p.isdir h (cpuset_path xid)) (rmdir (cpuset_path xid))) _
          (Sane-if _ _ refl) (fill-Sane _ _)

    mount-Sane : (b : Bool) (r : Record) → All Sane (mount_plan db xid dir b r)
    mount-Sane b r = ((refl, refl), Sane-if _ _ refl)

    root-Sane : (o : Option Record) → All Sane (root_plan db xid dir o)
    root-Sane none = tt
    root-Sane (some r) = mount-Sane false r

    mounts-Sane : All Sane (mounts_plan db xid dir)
    mounts-Sane =
        Sane-append (root_plan db xid dir (first_row (p.prepare (root_query xid) db))) _
          (root-Sane _)
          (
            refl,
            Sane-for (mount_plan db xid dir true) (mount-Sane true)
                (answer p.arrange (mounts_query xid) db),
          )

    uname-Sane : (name : String) → All Sane (uname_plan db xid name dir)
    uname-Sane name =
        Sane-append _ _ (Sane-for _ (λ r. Sane-if _ _ refl) (answer p.arrange (uname_query xid) db))
          (Sane-if _ _ refl)

    sched-Sane : All Sane (sched_plan db xid)
    sched-Sane = Sane-for _ (λ r. Sane-if _ _ refl) (answer p.arrange (sched_query xid) db)

    pub set_up_plan-Sane :
        (h : List Syscall) (name : String) → All Sane (set_up_plan db xid h name dir)
    set_up_plan-Sane h name =
        let h1 = h ++ caps_plan db xid in
        let vdir = text_of (vxdb_getvdir db name) in
        let disk = disk_plan db xid h1 name in
        let h3 = (h1 ++ disk) ++ limits_plan db xid in
        let names = ns_setup xid ∷ (uname_plan db xid name dir ++ mounts_plan db xid dir) in
        let scheds = sched_plan db xid ++ names in
        let cpusets = cpuset_plan db xid h3 ++ scheds in
        let limits = limits_plan db xid ++ cpusets in
        Sane-append (caps_plan db xid) (disk ++ limits) (refl, (refl, ((refl, refl), tt)))
          (Sane-append disk limits
            (
              refl,
              disk_add-Sane (h1 ++ dx_limit_remove xid vdir ∷ []) vdir
                  (head_of (answer p.arrange (disk_query xid) db)),
            )
            (Sane-append (limits_plan db xid) cpusets (limits-Sane p.vx_limit_mask) (
              Sane-append (cpuset_plan db xid h3) scheds
                (renew-Sane h3 (p.ismount h3 "/dev/cpuset"))
                (Sane-append (sched_plan db xid) names sched-Sane (
                  refl,
                  Sane-append (uname_plan db xid name dir) (mounts_plan db xid dir)
                      (uname-Sane name) mounts-Sane,
                )))))

  -- The first part of a list that is sane is sane.
  pub Sane-prefix : (cs ds : List Syscall) → All Sane (cs ++ ds) → All Sane cs
  Sane-prefix [] ds h = tt
  Sane-prefix (c ∷ cs) ds h = (h.0, Sane-prefix cs ds h.1)
