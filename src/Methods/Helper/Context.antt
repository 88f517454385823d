-- ===== src/Methods/Helper/Context.antt =====
-- src/vcd/methods/helper/helper_startup.c: the set-up of a context before its init runs, with the
-- static variables `xid` and `name` as arguments.
use vcd.Base.{
  ℕ, ◌-◌, ◌/◌, ◌^◌, Bool, not, ◌&&◌, String, List, [], ◌∷◌, Option, none, some, if◌then◌else◌, ltb,
  ◌==◌, bit_and, bit_or,
}
use vcd.Base.Int.{pos, ltb_ℤ}
use vcd.Sql.{Query, select, unordered, asc}
use vcd.Sql.Answers.{Record}
use vcd.Platform.{Platform, Flist}
use vcd.Kernel.{
  DxLimit, VxLimit, VxSched, VxUname, Syscall, vx_bcaps_set, vx_ccaps_set, vx_flags_set,
  dx_limit_remove, dx_limit_add, dx_limit_set, vx_limit_set, vx_sched_set, vx_uname_set,
}
use vcd.Lists.{bcaps_list, ccaps_list, cflags_list, rlimit_list, uname_list}
use vcd.Validate.{str_isempty}
use vcd.Vxdb.{
  vxdb_column_text, vxdb_column_int, vxdb_column_uint32, vxdb_column_uint64, vxdb_getvdir,
}
use vcd.Call.{M, pure, raise, reads, looks, ◌>>=◌, ◌>>◌, fetch, fetch_one}
use vcd.Call.Sys.{sys, must, must_if}
use vcd.Call.Loops.{for_rows}
use vcd.Methods.{mesys}
use vcd.Methods.Common.{xid_is, text_of, context_name}
use vcd.Methods.Helper.Disk.{Usage, nothing_used, walk}

abbrev pub all_bits : ℕ
all_bits = 2 ^ 64 - 1

module _ ⦃p : Platform⦄ where
  -- `flags |= flist64_getval(list, vxdb_column_text(dbr, 0))` for each row.
  unfoldable pub or_flags : Flist → ℕ → List Record → ℕ
  or_flags l flags [] = flags
  or_flags l flags (r ∷ rs) = or_flags l (bit_or flags (p.flist_getval l (vxdb_column_text r 0))) rs

  abbrev pub bcaps_query : ℕ → Query
  bcaps_query xid = select ("bcap" ∷ []) "vx_bcaps" (xid_is xid) unordered

  abbrev pub ccaps_query : ℕ → Query
  ccaps_query xid = select ("ccap" ∷ []) "vx_ccaps" (xid_is xid) unordered

  abbrev pub flags_query : ℕ → Query
  flags_query xid = select ("flag" ∷ []) "vx_flags" (xid_is xid) unordered

  abbrev pub set_bcaps : ℕ → List Record → Syscall
  set_bcaps xid rs = vx_bcaps_set xid (record { flags = or_flags bcaps_list 0 rs; mask = all_bits })

  abbrev pub set_ccaps : ℕ → List Record → Syscall
  set_ccaps xid rs = vx_ccaps_set xid (record { flags = or_flags ccaps_list 0 rs; mask = all_bits })

  abbrev pub set_flags : ℕ → List Record → Syscall
  set_flags xid rs =
      let flags = or_flags cflags_list 0 rs in
      vx_flags_set xid (record { flags = flags; mask = flags })

  unfoldable pub context_caps_and_flags : ℕ → M (Unit {0})
  unfolding or_flags
  context_caps_and_flags xid = do
    bcaps ← fetch (bcaps_query xid)
    must (set_bcaps xid bcaps)
    ccaps ← fetch (ccaps_query xid)
    must (set_ccaps xid ccaps)
    flags ← fetch (flags_query xid)
    must (set_flags xid flags)

  abbrev pub disk_query : ℕ → Query
  disk_query xid = select ("space" ∷ "inodes" ∷ "reserved" ∷ []) "dx_limit" (xid_is xid) unordered

  -- `if (total < used) total = used;`
  abbrev pub at_least : ℕ → ℕ → ℕ
  at_least used total = if ltb total used then used else total

  abbrev pub disk_limit : Record → Usage → DxLimit
  disk_limit r u = record {
    space_used = u.used_blocks / 2;
    space_total = at_least (u.used_blocks / 2) (vxdb_column_uint32 r 0);
    inodes_used = u.used_inodes;
    inodes_total = at_least u.used_inodes (vxdb_column_uint32 r 1);
    reserved = vxdb_column_int r 2;
  }

  abbrev pub counted_or_fault : Option Usage → M Usage
  counted_or_fault none = raise mesys
  counted_or_fault (some u) = pure u

  abbrev pub set_disk_limit : ℕ → String → Option Record → M (Unit {0})
  set_disk_limit xid vdir none = pure tt
  set_disk_limit xid vdir (some r) = do
    must (dx_limit_add xid vdir)
    files ← looks (λ h. p.nftw h vdir)
    used ← counted_or_fault (walk xid files nothing_used)
    must (dx_limit_set xid vdir (disk_limit r used))

  -- Removing the limit may fail.
  unfoldable pub context_disk_limits : ℕ → String → M (Unit {0})
  unfolding walk
  context_disk_limits xid name = do
    vdir ← reads (λ db. text_of (vxdb_getvdir db name))
    sys (dx_limit_remove xid vdir)
    limit ← fetch_one (disk_query xid)
    set_disk_limit xid vdir limit

  abbrev pub limits_query : ℕ → Query
  limits_query xid = select ("type" ∷ "soft" ∷ "max" ∷ []) "vx_limit" (xid_is xid) unordered

  abbrev pub resource_limit : ℕ → Record → VxLimit
  resource_limit buf32 r = record {
    id = p.v2i32 buf32;
    softlimit = vxdb_column_uint64 r 1;
    maximum = at_least (vxdb_column_uint64 r 1) (vxdb_column_uint64 r 2);
  }

  -- A limit that is unknown, or that the kernel does not have, is skipped.
  abbrev pub has_limit : ℕ × ℕ → ℕ → Bool
  has_limit (soft, max) buf32 =
      not (buf32 == 0) && not (bit_and soft buf32 == 0 && bit_and max buf32 == 0)

  abbrev pub set_limit : ℕ → ℕ × ℕ → Record → M (Unit {0})
  set_limit xid limit_mask r =
      let buf32 = p.flist_getval rlimit_list (vxdb_column_text r 0) in
      must_if (has_limit limit_mask buf32) (vx_limit_set xid (resource_limit buf32 r))

  abbrev pub set_limits : ℕ → Option (ℕ × ℕ) → M (Unit {0})
  set_limits xid none = raise mesys
  set_limits xid (some limit_mask) = for_rows (limits_query xid) (set_limit xid limit_mask)

  unfoldable pub context_resource_limits : ℕ → M (Unit {0})
  context_resource_limits xid = set_limits xid p.vx_limit_mask

  abbrev pub sched_query : ℕ → Query
  sched_query xid =
      select
        ("cpuid" ∷ "fillrate" ∷ "fillrate2" ∷ "interval" ∷ "interval2" ∷ "tokensmin" ∷ "tokensmax"
          ∷ [])
        "vx_sched" (xid_is xid) (asc "cpuid")

  abbrev mask_if : Bool → ℕ → ℕ → ℕ
  mask_if b bits mask = if b then bit_or mask bits else mask

  abbrev pub sched_mask : Record → ℕ
  sched_mask r =
      mask_if (ltb_ℤ (pos 0) (vxdb_column_int r 2) && ltb_ℤ (pos 0) (vxdb_column_int r 4))
        (bit_or (p.constant "VXSM_IDLE_TIME")
          (bit_or (p.constant "VXSM_FILL_RATE2") (p.constant "VXSM_INTERVAL2")))
        (mask_if (not (ltb_ℤ (vxdb_column_int r 0) (pos 0))) (p.constant "VXSM_CPU_ID") (
          bit_or (p.constant "VXSM_FORCE") (
            bit_or (bit_or (p.constant "VXSM_FILL_RATE") (p.constant "VXSM_INTERVAL"))
              (bit_or (p.constant "VXSM_TOKENS_MIN") (p.constant "VXSM_TOKENS_MAX")))))

  abbrev pub sched_of : Record → VxSched
  sched_of r = record {
    mask = sched_mask r;
    cpu_id = if ltb_ℤ (vxdb_column_int r 0) (pos 0) then none else some (vxdb_column_int r 0);
    fill_rate = (vxdb_column_int r 1, vxdb_column_int r 2);
    interval = (vxdb_column_int r 3, vxdb_column_int r 4);
    tokens_min = vxdb_column_int r 5;
    tokens_max = vxdb_column_int r 6;
    prio_bias = pos 0;
  }

  -- A processor that the host does not have is skipped.
  abbrev pub set_sched : ℕ → Record → M (Unit {0})
  set_sched xid r =
      must_if (ltb_ℤ (vxdb_column_int r 0) (pos p.processors)) (vx_sched_set xid (sched_of r))

  unfoldable pub context_scheduler : ℕ → M (Unit {0})
  context_scheduler xid = for_rows (sched_query xid) (set_sched xid)

  abbrev pub uname_query : ℕ → Query
  uname_query xid = select ("type" ∷ "value" ∷ []) "vx_uname" (xid_is xid) unordered

  abbrev pub uname_of : Record → VxUname
  uname_of r = record {
    id = p.v2i32 (p.flist_getval uname_list (vxdb_column_text r 0));
    value = p.first_bytes 64 (vxdb_column_text r 1);
  }

  -- A name that is unknown is skipped.
  abbrev pub set_uname : ℕ → Record → M (Unit {0})
  set_uname xid r =
      must_if (not (p.flist_getval uname_list (vxdb_column_text r 0) == 0))
        (vx_uname_set xid (uname_of r))

  unfoldable pub context_uname : ℕ → String → String → M (Unit {0})
  context_uname xid name vdir = do
    for_rows (uname_query xid) (set_uname xid)
    must_if (not (str_isempty name)) (vx_uname_set xid (context_name name vdir))
