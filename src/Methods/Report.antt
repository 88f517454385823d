-- ===== src/Methods/Report.antt =====
-- src/vcd/methods/vx/vx_{status,limstatus,netstatus}.c: reports on a virtual server that runs.
pub mod Templates
use vcd.Base.{
  ℕ, ◌+◌, ◌-◌, ◌*◌, ◌/◌, ◌%◌, ◌^◌, Bool, true, false, not, ◌&&◌, ◌||◌, String, List, [], ◌∷◌, map,
  keep, Option, none, some, if◌then◌else◌, ltb, str_equal, str_cat,
}
use vcd.Base.Int.{to_int, ℤ, pos, negsuc}
use vcd.Platform.{Platform}
use vcd.Kernel.{
  Info, alive, gone, failing, VxStat, VxLimitStat, NxSockStat, Parsed, unreadable, malformed,
  parsed, file,
}
use vcd.Lists.VcdCap
use vcd.Validate.{str_isempty}
use vcd.Call.{
  M, pure, raise, looks, ◌>>=◌, ◌>>◌, str, num, Params, Request, get_str, Reply, structs, struct,
}
use vcd.Call.Sys.{sys, must, require_running}
use vcd.Methods.{m_owner, mesys, method_init}
use vcd.Methods.Common.{require_xid, or_default}
use vcd.Methods.Vxdb.Limits.{pagestobytes}

-- `load >> 11`
unfoldable pub load_whole : ℤ → ℤ
load_whole (pos n) = pos (n / 2048)
load_whole (negsuc n) = negsuc (n / 2048)

-- `((load & ((1 << 11) - 1)) * 100) >> 11`
unfoldable pub load_hundredths : ℤ → ℕ
load_hundredths (pos n) = n % 2048 * 100 / 2048
load_hundredths (negsuc n) = (2047 - n % 2048) * 100 / 2048

module _ ⦃p : Platform⦄ where
  -- `%02d`
  abbrev pub two_digits : ℕ → String
  two_digits n = if ltb n 10 then str_cat "0" (p.decimal (pos n)) else p.decimal (pos n)

  unfoldable pub pretty_load : ℤ → String
  pretty_load load =
      str_cat (p.decimal (load_whole load)) (str_cat "." (two_digits (load_hundredths load)))

  abbrev pub status_of : ℕ → VxStat → String → String → String → Params
  status_of running s load1m load5m load15m =
      ("running", num (pos running))
      ∷ ("thr_total", num (to_int (pos s.nr_threads)))
      ∷ ("thr_running", num (to_int (pos s.nr_running)))
      ∷ ("thr_unintr", num (to_int (pos s.nr_unintr)))
      ∷ ("thr_onhold", num (to_int (pos s.nr_onhold)))
      ∷ ("forks_total", num (to_int (pos s.nr_forks)))
      ∷ ("uptime", num (to_int (pos (s.uptime / 1000000000))))
      ∷ ("load1m", str load1m)
      ∷ ("load5m", str load5m)
      ∷ ("load15m", str load15m)
      ∷ []

  abbrev no_stat : VxStat
  no_stat = record {
    tasks = 0;
    nr_threads = 0;
    nr_running = 0;
    nr_unintr = 0;
    nr_onhold = 0;
    nr_forks = 0;
    uptime = 0;
    load = (0, 0, 0);
  }

  -- Where vx_stat fails the three loads are null pointers.
  abbrev pub stat_status : Option VxStat → Params
  stat_status none = status_of 0 no_stat p.null_text p.null_text p.null_text
  stat_status (some s) =
      status_of 1 s (pretty_load (to_int (pos s.load.0))) (pretty_load (to_int (pos s.load.1)))
        (pretty_load (to_int (pos s.load.2)))

  abbrev pub status_for : ℕ → Info → M Reply
  status_for xid gone = pure (struct (status_of 0 no_stat "0" "0" "0"))
  status_for xid failing = raise mesys
  status_for xid alive = do statb ← looks (λ h. p.vx_stat h xid); pure (struct (stat_status statb))

  unfoldable pub m_vx_status : Request → M Reply
  unfolding pretty_load
  m_vx_status request = do
    params ← method_init request VcdCap.info m_owner
    name ← get_str "name" params
    xid ← require_xid name
    info ← looks (λ h. p.vx_info h xid)
    status_for xid info

  -- LIMIT: the constant of a limit, its name, and whether it counts pages.
  abbrev pub limit_data : List (String × String × Bool)
  limit_data =
      ("RLIMIT_AS", "mem_AS", true)
      ∷ ("RLIMIT_CORE", "sys_CORE", false)
      ∷ ("RLIMIT_CPU", "sys_CPU", false)
      ∷ ("RLIMIT_DATA", "sys_DATA", false)
      ∷ ("RLIMIT_FSIZE", "file_FSIZE", false)
      ∷ ("RLIMIT_LOCKS", "file_LOCKS", false)
      ∷ ("RLIMIT_MEMLOCK", "mem_MEMLOCK", true)
      ∷ ("RLIMIT_MSGQUEUE", "ipc_MSGQUEUE", false)
      ∷ ("RLIMIT_NOFILE", "file_NOFILE", false)
      ∷ ("RLIMIT_NPROC", "sys_NPROC", false)
      ∷ ("RLIMIT_RSS", "mem_RSS", true)
      ∷ ("RLIMIT_SIGPENDING", "ipc_SIGPENDING", false)
      ∷ ("RLIMIT_STACK", "mem_STACK", false)
      ∷ ("VLIMIT_ANON", "mem_ANON", true)
      ∷ ("VLIMIT_DENTRY", "file_DENTRY", false)
      ∷ ("VLIMIT_MAPPED", "sys_MAPPED", true)
      ∷ ("VLIMIT_NSEMS", "ipc_NSEMS", false)
      ∷ ("VLIMIT_NSOCK", "file_NSOCK", false)
      ∷ ("VLIMIT_OPENFD", "file_OPENFD", false)
      ∷ ("VLIMIT_SEMARY", "ipc_SEMARY", false)
      ∷ ("VLIMIT_SHMEM", "ipc_SHMEM", true)
      ∷ []

  abbrev shown_limit : Bool → ℕ → String
  shown_limit pages n = p.decimal (pos (if pages then pagestobytes n else n))

  abbrev pub limit_status : String → Bool → VxLimitStat → Params
  limit_status db pages limstat =
      ("type", str db)
      ∷ ("min", str (shown_limit pages limstat.minimum))
      ∷ ("cur", str (shown_limit pages limstat.value))
      ∷ ("max", str (shown_limit pages limstat.maximum))
      ∷ []

  unfoldable pub m_vx_limstatus : Request → M Reply
  m_vx_limstatus request = do
    params ← method_init request VcdCap.info m_owner
    name ← get_str "name" params
    xid ← require_xid name
    require_running xid
    looks (λ h. structs (
        map (λ (id, db, pages). limit_status db pages (p.vx_limit_stat h xid (p.constant id)))
          limit_data))

  -- NET
  abbrev pub net_data : List (String × String)
  net_data =
      ("NXA_SOCK_UNSPEC", "net_UNSPEC")
      ∷ ("NXA_SOCK_UNIX", "net_UNIX")
      ∷ ("NXA_SOCK_INET", "net_INET")
      ∷ ("NXA_SOCK_INET6", "net_INET6")
      ∷ ("NXA_SOCK_PACKET", "net_PACKET")
      ∷ ("NXA_SOCK_OTHER", "net_OTHER")
      ∷ []

  abbrev pub net_status : String → NxSockStat → Params
  net_status db netstat =
      ("type", str db)
      ∷ ("recvp", str (p.decimal (pos netstat.count.0)))
      ∷ ("recvb", str (p.decimal (pos netstat.total.0)))
      ∷ ("sendp", str (p.decimal (pos netstat.count.1)))
      ∷ ("sendb", str (p.decimal (pos netstat.total.1)))
      ∷ ("failp", str (p.decimal (pos netstat.count.2)))
      ∷ ("failb", str (p.decimal (pos netstat.total.2)))
      ∷ []

  unfoldable pub m_vx_netstatus : Request → M Reply
  m_vx_netstatus request = do
    params ← method_init request VcdCap.info m_owner
    name ← get_str "name" params
    xid ← require_xid name
    require_running xid
    looks (λ h.
        structs (map (λ (id, db). net_status db (p.nx_sock_stat h xid (p.constant id))) net_data))
