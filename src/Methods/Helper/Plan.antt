-- ===== src/Methods/Helper/Plan.antt =====
-- The set-up of a virtual server as a plan: the calls that its configuration in the database asks
-- for, in their order, as a specification of src/vcd/methods/helper/helper_startup.c.
pub mod Context
pub mod Mounts
pub mod Whole
pub mod Sane
pub mod Still
pub mod Ready
pub mod Startup
use vcd.Base.{
  ℕ, Bool, not, ◌&&◌, String, List, [], ◌∷◌, ◌++◌, Option, none, some, if◌then◌else◌, ◌==◌,
}
use vcd.Base.Int.{pos, ltb_ℤ}
use vcd.Sql.{Contents}
use vcd.Sql.Answers.{Record, answer}
use vcd.Platform.{Platform}
use vcd.Kernel.{
  Syscall, dx_limit_remove, dx_limit_add, dx_limit_set, vx_limit_set, vx_sched_set, vx_uname_set,
  ns_setup, mount_in, mkdir, rmdir, append, new_mtab, mtab_line,
}
use vcd.Lists.{rlimit_list, uname_list}
use vcd.Validate.{str_isempty}
use vcd.Vxdb.{first_row, vxdb_column_text, vxdb_column_int, vxdb_getvdir}
use vcd.Call.Sys.Loops.{calls_for, head_of}
use vcd.Methods.Common.{text_of, context_name}
use vcd.Methods.Helper.Disk.{Usage, nothing_used, walk}
use vcd.Methods.Helper.Context.{
  bcaps_query, ccaps_query, flags_query, set_bcaps, set_ccaps, set_flags, disk_query, disk_limit,
  limits_query, resource_limit, has_limit, sched_query, sched_of, uname_query, uname_of,
}
use vcd.Methods.Helper.Mounts.{
  cpuset_path, file_in, cpuset_query, mount_of, root_query, mounts_query,
}

abbrev pub call_if : Bool → Syscall → List Syscall
call_if b c = if b then c ∷ [] else []

module _ ⦃p : Platform⦄ (db : Contents) (xid : ℕ) where
  abbrev pub caps_plan : List Syscall
  caps_plan =
      set_bcaps xid (answer p.arrange (bcaps_query xid) db)
      ∷ set_ccaps xid (answer p.arrange (ccaps_query xid) db)
      ∷ set_flags xid (answer p.arrange (flags_query xid) db)
      ∷ []

  -- Where the files cannot be counted there is nothing to set.
  abbrev pub disk_set : String → Record → Option Usage → List Syscall
  disk_set vdir r none = []
  disk_set vdir r (some used) = dx_limit_set xid vdir (disk_limit r used) ∷ []

  abbrev pub disk_add : List Syscall → String → Option Record → List Syscall
  disk_add h vdir none = []
  disk_add h vdir (some r) =
      dx_limit_add xid vdir
      ∷ disk_set vdir r (walk xid (p.nftw (h ++ dx_limit_add xid vdir ∷ []) vdir) nothing_used)

  abbrev pub disk_plan : List Syscall → String → List Syscall
  disk_plan h name =
      let vdir = text_of (vxdb_getvdir db name) in
      dx_limit_remove xid vdir
      ∷ disk_add (h ++ dx_limit_remove xid vdir ∷ []) vdir
          (head_of (answer p.arrange (disk_query xid) db))

  abbrev pub limit_plan : ℕ × ℕ → Record → List Syscall
  limit_plan limit_mask r =
      let buf32 = p.flist_getval rlimit_list (vxdb_column_text r 0) in
      call_if (has_limit limit_mask buf32) (vx_limit_set xid (resource_limit buf32 r))

  abbrev pub masked_plan : Option (ℕ × ℕ) → List Syscall
  masked_plan none = []
  masked_plan (some limit_mask) =
      calls_for (limit_plan limit_mask) (answer p.arrange (limits_query xid) db)

  abbrev pub limits_plan : List Syscall
  limits_plan = masked_plan p.vx_limit_mask

  abbrev pub sched_plan : List Syscall
  sched_plan =
      calls_for
        (λ r.
          call_if (ltb_ℤ (vxdb_column_int r 0) (pos p.processors)) (vx_sched_set xid (sched_of r)))
        (answer p.arrange (sched_query xid) db)

  abbrev pub uname_plan : String → String → List Syscall
  uname_plan name vdir =
      calls_for
        (λ r.
          call_if (not (p.flist_getval uname_list (vxdb_column_text r 0) == 0))
            (vx_uname_set xid (uname_of r)))
        (answer p.arrange (uname_query xid) db)
      ++ call_if (not (str_isempty name)) (vx_uname_set xid (context_name name vdir))

  abbrev pub cpuset_files : List Syscall → String → Record → List Syscall
  cpuset_files h path r =
      let cpus = append (file_in path "/cpus") (vxdb_column_text r 0) in
      let mems = append (file_in path "/mems") (vxdb_column_text r 1) in
      let value = append (file_in path "/virtualize") (p.decimal (vxdb_column_int r 2)) in
      cpus
      ∷ mems
      ∷ call_if (p.ispath ((h ++ cpus ∷ []) ++ mems ∷ []) (file_in path "/virtualize")) value

  abbrev pub fill_plan : List Syscall → String → Option Record → List Syscall
  fill_plan h path none = []
  fill_plan h path (some r) =
      let made = call_if (not (p.isdir h path)) (mkdir path) in
      made ++ cpuset_files (h ++ made) path r

  abbrev pub renew_plan : List Syscall → Bool → List Syscall
  renew_plan h Bool.false = []
  renew_plan h Bool.true =
      let path = cpuset_path xid in
      let removed = call_if (p.isdir h path) (rmdir path) in
      removed ++ fill_plan (h ++ removed) path (head_of (answer p.arrange (cpuset_query xid) db))

  abbrev pub cpuset_plan : List Syscall → List Syscall
  cpuset_plan h = renew_plan h (p.ismount h "/dev/cpuset")

  abbrev pub mount_plan : String → Bool → Record → List Syscall
  mount_plan vdir mtab r =
      mount_in xid vdir (mount_of r) ∷ call_if mtab (mtab_line vdir (mount_of r))

  abbrev pub root_plan : String → Option Record → List Syscall
  root_plan vdir none = []
  root_plan vdir (some r) = mount_plan vdir Bool.false r

  abbrev pub mounts_plan : String → List Syscall
  mounts_plan vdir =
      root_plan vdir (first_row (p.prepare (root_query xid) db))
      ++ new_mtab vdir
        ∷ calls_for (mount_plan vdir Bool.true) (answer p.arrange (mounts_query xid) db)

  -- After the calls `h`.
  abbrev pub set_up_plan : List Syscall → String → String → List Syscall
  set_up_plan h name vdir =
      let h1 = h ++ caps_plan in
      let h2 = h1 ++ disk_plan h1 name in
      let h3 = h2 ++ limits_plan in
      caps_plan
      ++ (disk_plan h1 name
          ++ (limits_plan
              ++ (cpuset_plan h3
                  ++ (sched_plan ++ ns_setup xid ∷ (uname_plan name vdir ++ mounts_plan vdir)))))
