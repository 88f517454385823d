-- ===== src/Methods/Create/Entries.antt =====
-- src/vcd/methods/vx/vx_create.c: the rows of a new virtual server in the database, from the
-- configuration of its template.
pub mod Rows
use vcd.Base.{
  ℕ, Bool, true, false, not, ◌&&◌, ◌||◌, String, List, [], ◌∷◌, ◌++◌, map, Option, none, some,
  if◌then◌else◌, ◌==◌, str_equal, str_cat, all,
}
use vcd.Base.Int.{as_int, ℤ, pos, ltb_ℤ}
use vcd.Sql.{Stmt, int, text, insert, delete}
use vcd.Platform.{Platform, Flist}
use vcd.Kernel.{MountSection, Conf, Parsed, unreadable, malformed, parsed, runlink}
use vcd.Lists.{bcaps_list, ccaps_list, cflags_list}
use vcd.Validate.{str_isempty, validate_path}
use vcd.Call.{M, pure, raise, looks, ◌>>=◌, ◌>>◌, fault_if, exec_or_fault}
use vcd.Methods.{meconf}
use vcd.Methods.Common.{xid_is, or_default, text_of}
use vcd.Methods.Create.Files.{or_clean}

-- DEFAULT_BCAPS, DEFAULT_CCAPS and DEFAULT_FLAGS
abbrev pub default_bcaps : List String
default_bcaps =
    "CHOWN" ∷ "DAC_OVERRIDE" ∷ "DAC_READ_SEARCH" ∷ "FOWNER" ∷ "FSETID" ∷ "KILL" ∷ "SETGID"
    ∷ "SETUID" ∷ "NET_BIND_SERVICE" ∷ "SYS_CHROOT" ∷ "SYS_PTRACE" ∷ "SYS_BOOT" ∷ "SYS_TTY_CONFIG"
    ∷ "LEASE" ∷ []

abbrev pub default_ccaps : List String
default_ccaps = "SET_UTSNAME" ∷ "RAW_ICMP" ∷ []

abbrev pub default_flags : List String
default_flags = "VIRT_MEM" ∷ "VIRT_UPTIME" ∷ "VIRT_CPU" ∷ "VIRT_LOAD" ∷ "HIDE_NETIF" ∷ []

abbrev pub or_defaults : Option (List String) → List String → List String
or_defaults none d = d
or_defaults (some l) d = l

-- The default of 15, and no negative timeout.
abbrev pub timeout_or_default : Option ℤ → ℤ
timeout_or_default none = pos 15
timeout_or_default (some t) = if ltb_ℤ t (pos 0) then pos 0 else t

-- The tables that are emptied of the context id.
abbrev pub renewed_tables : List String
renewed_tables =
    "dx_limit" ∷ "init" ∷ "mount" ∷ "nx_addr" ∷ "nx_broadcast" ∷ "restart" ∷ "vdir" ∷ "vx_bcaps"
    ∷ "vx_ccaps" ∷ "vx_flags" ∷ "vx_limit" ∷ "vx_sched" ∷ "vx_uname" ∷ "xid_name_map" ∷ []

abbrev pub renewal : ℕ → List Stmt
renewal xid = map (λ t. delete t (xid_is xid)) renewed_tables

module _ ⦃p : Platform⦄ where
  abbrev pub insert_init : ℕ → Conf → Stmt
  insert_init xid c = insert "init" (
      ("xid", int (as_int xid))
      ∷ ("init", text (or_default c.init "/sbin/init"))
      ∷ ("halt", text (or_default c.halt "/sbin/halt"))
      ∷ ("reboot", text (or_default c.reboot "/sbin/reboot"))
      ∷ ("timeout", int (timeout_or_default c.timeout))
      ∷ [])

  abbrev pub insert_mount : ℕ → String → String → String → String → Stmt
  insert_mount xid src dst type opts = insert "mount" (
      ("xid", int (as_int xid))
      ∷ ("src", text src)
      ∷ ("dst", text dst)
      ∷ ("type", text type)
      ∷ ("opts", text opts)
      ∷ [])

  abbrev pub insert_section : ℕ → MountSection → Stmt
  insert_section xid s = insert_mount xid (text_of s.src) s.dst (text_of s.type) (text_of s.opts)

  -- Without a section there are two mounts.
  abbrev pub insert_mounts : ℕ → List MountSection → List Stmt
  insert_mounts xid [] =
      insert_mount xid "none" "/proc" "proc" "defaults"
      ∷ insert_mount xid "none" "/dev/pts" "devpts" "defaults"
      ∷ []
  insert_mounts xid (s ∷ ss) = map (insert_section xid) (s ∷ ss)

  abbrev pub insert_words : ℕ → String → String → List String → List Stmt
  insert_words xid t column ws =
      map (λ w. insert t (("xid", int (as_int xid)) ∷ (column, text w) ∷ [])) ws

  -- The statements after those that empty the tables.
  abbrev pub additions : ℕ → String → String → Conf → List Stmt
  additions xid name vdir c =
      insert_init xid c
      ∷ (insert_mounts xid c.mounts
          ++ (insert_words xid "vx_bcaps" "bcap" (or_defaults c.bcaps default_bcaps)
              ++ (insert_words xid "vx_ccaps" "ccap" (or_defaults c.ccaps default_ccaps)
                  ++ (insert_words xid "vx_flags" "flag" (or_defaults c.flags default_flags)
                      ++ insert "vdir" (("xid", int (as_int xid)) ∷ ("vdir", text vdir) ∷ [])
                        ∷ insert "xid_name_map"
                            (("xid", int (as_int xid)) ∷ ("name", text name) ∷ [])
                        ∷ []))))

  abbrev pub entries : ℕ → String → String → Conf → List Stmt
  entries xid name vdir c = renewal xid ++ additions xid name vdir c

  -- The configuration of the template, if there is one.
  abbrev pub config_path : Bool → String → String
  config_path there tdir = if there then str_cat tdir ".conf" else "/dev/null"

  abbrev pub is_mount : MountSection → Bool
  is_mount s =
      validate_path s.dst
      && (validate_path (text_of s.src) || str_equal (text_of s.src) "none")
      && not (str_isempty (text_of s.type) || not (p.str_isalnum (text_of s.type)))
      && not (str_isempty (text_of s.opts) || not (p.str_isascii (text_of s.opts)))

  abbrev pub is_word : Flist → String → Bool
  is_word l w = not (p.flist_getval l w == 0)

  -- All checks of the configuration; each one that fails gives MECONF.
  unfoldable pub is_valid : Conf → Bool
  unfolding all
  is_valid c =
      validate_path (or_default c.init "/sbin/init")
      && validate_path (or_default c.halt "/sbin/halt")
      && validate_path (or_default c.reboot "/sbin/reboot")
      && all is_mount c.mounts
      && all (is_word bcaps_list) (or_defaults c.bcaps default_bcaps)
      && all (is_word ccaps_list) (or_defaults c.ccaps default_ccaps)
      && all (is_word cflags_list) (or_defaults c.flags default_flags)

  abbrev pub options : Parsed → M Conf
  options unreadable = raise meconf
  options malformed = raise meconf
  options (parsed c) = pure c

  -- A template without a configuration has an empty one.
  unfoldable pub create_vxdb_entries : ℕ → String → String → String → M (Unit {0})
  unfolding is_valid or_clean
  create_vxdb_entries xid name vdir tdir = do
    there ← looks (λ h. p.isfile h (str_cat tdir ".conf"))
    c ← options (p.cfg_parse (config_path there tdir))
    fault_if (not (is_valid c)) meconf
    or_clean (exec_or_fault (entries xid name vdir c)) (runlink vdir)
