-- ===== src/Methods/Helper/Mounts.antt =====
-- src/vcd/methods/helper/helper_startup.c: the cpuset of a context, its namespace and its mounts.
use vcd.Base.{
  ℕ, Bool, true, false, not, ◌&&◌, String, [], ◌∷◌, Option, none, some, if◌then◌else◌, ◌==◌,
  str_cat,
}
use vcd.Base.Int.{as_int, pos}
use vcd.Sql.{Query, select, unordered, int, text}
use vcd.Sql.Answers.{Record}
use vcd.Platform.{Platform}
use vcd.Kernel.{
  Mount, Syscall, ns_setup, mount_in, mkdir, rmdir, append, new_mtab, mtab_line, Exit, not_run,
  exited, signaled,
}
use vcd.Validate.{str_isempty}
use vcd.Vxdb.{first_row, vxdb_column_text, vxdb_column_int}
use vcd.Call.{M, pure, raise, reads, looks, ◌>>=◌, ◌>>◌, fault_if, fetch_one}
use vcd.Call.Sys.{sys, must, child, exit_fault}
use vcd.Call.Loops.{for_rows}
use vcd.Methods.{mesys}
use vcd.Methods.Common.{xid_is, text_of}

module _ ⦃p : Platform⦄ where
  abbrev pub cpuset_path : ℕ → String
  cpuset_path xid = str_cat "/dev/cpuset/xid" (p.decimal (pos xid))

  abbrev pub file_in : String → String → String
  file_in path file = text_of (p.str_path_concat path file)

  -- A call that is made where the test holds, and whether no call has failed.
  unfoldable pub sys_if : Bool → Syscall → M Bool
  unfolding sys
  sys_if true c = sys c
  sys_if false c = pure true

  abbrev pub cpuset_query : ℕ → Query
  cpuset_query xid = select ("cpus" ∷ "mems" ∷ "virtualize" ∷ []) "vx_cpuset" (xid_is xid) unordered

  -- A file that cannot be opened sets a fault, and the next one is written all the same.
  abbrev pub fill_files : String → Record → M (Unit {0})
  fill_files path r = do
    cpus ← sys (append (file_in path "/cpus") (vxdb_column_text r 0))
    mems ← sys (append (file_in path "/mems") (vxdb_column_text r 1))
    has_virtualize ← looks (λ h. p.ispath h (file_in path "/virtualize"))
    virtualize ←
        sys_if has_virtualize
          (append (file_in path "/virtualize") (p.decimal (vxdb_column_int r 2)))
    fault_if (not (cpus && mems && virtualize)) mesys

  abbrev pub fill_cpuset : String → Option Record → M (Unit {0})
  fill_cpuset path none = pure tt
  fill_cpuset path (some r) = do
    there ← looks (λ h. p.isdir h path)
    sys_if (not there) (mkdir path)
    fill_files path r

  abbrev pub renew_cpuset : ℕ → Bool → M (Unit {0})
  renew_cpuset xid false = pure tt
  renew_cpuset xid true = do
    there ← looks (λ h. p.isdir h (cpuset_path xid))
    sys_if there (rmdir (cpuset_path xid))
    cpuset ← fetch_one (cpuset_query xid)
    fill_cpuset (cpuset_path xid) cpuset

  unfoldable pub context_cpuset : ℕ → M (Unit {0})
  unfolding sys_if
  context_cpuset xid = do mounted ← looks (λ h. p.ismount h "/dev/cpuset"); renew_cpuset xid mounted

  -- A child that is killed by a signal sets no fault here.
  abbrev pub namespace_fault : Exit → M (Unit {0})
  namespace_fault not_run = raise mesys
  namespace_fault (exited n) = if n == 0 then pure tt else raise mesys
  namespace_fault signaled = pure tt

  unfoldable pub namespace_setup : ℕ → M (Unit {0})
  namespace_setup xid = do exit ← child (ns_setup xid); namespace_fault exit

  abbrev pub or_word : String → String → String
  or_word s word = if str_isempty s then word else s

  abbrev pub mount_of : Record → Mount
  mount_of r = record {
    src = vxdb_column_text r 0;
    dst = vxdb_column_text r 1;
    type = or_word (vxdb_column_text r 2) "auto";
    opts = or_word (vxdb_column_text r 3) "defaults";
  }

  -- `mtab` says whether there is a file descriptor for the mtab.
  unfoldable pub do_mount : ℕ → String → Bool → Record → M (Unit {0})
  unfolding sys_if
  do_mount xid vdir mtab r = do
    exit ← child (mount_in xid vdir (mount_of r))
    exit_fault exit
    sys_if mtab (mtab_line vdir (mount_of r))
    pure tt

  abbrev pub root_query : ℕ → Query
  root_query xid =
      select ("src" ∷ "dst" ∷ "type" ∷ "opts" ∷ []) "mount"
        (("xid", int (as_int xid)) ∷ ("dst", text "/") ∷ []) unordered

  abbrev pub mounts_query : ℕ → Query
  mounts_query xid = select ("src" ∷ "dst" ∷ "type" ∷ "opts" ∷ []) "mount" (xid_is xid) unordered

  abbrev pub mount_root : ℕ → String → Option Record → M (Unit {0})
  mount_root xid vdir none = pure tt
  mount_root xid vdir (some r) = do_mount xid vdir false r

  unfoldable pub namespace_mount : ℕ → String → M (Unit {0})
  unfolding do_mount
  namespace_mount xid vdir = do
    root ← reads (λ db. first_row (p.prepare (root_query xid) db))
    mount_root xid vdir root
    must (new_mtab vdir)
    for_rows (mounts_query xid) (do_mount xid vdir true)
