-- ===== src/Lists.antt =====
-- src/vcd/lists.c and the VCD_CAP_* of src/vcd/auth.h: the flag lists. The value of a node is a
-- constant of the kernel's or libvserver's headers, and so a parameter of the platform.
pub mod VcdCap
use vcd.Base.{[], ◌∷◌}
use vcd.Platform.{Platform, Flist}
use VcdCap

-- the capabilities of a user
abbrev pub vcd_caps_list : Flist
vcd_caps_list =
    ("AUTH", VcdCap.auth)
    ∷ ("DLIM", VcdCap.dlim)
    ∷ ("INIT", VcdCap.init)
    ∷ ("MOUNT", VcdCap.mount)
    ∷ ("NET", VcdCap.net)
    ∷ ("BCAP", VcdCap.bcap)
    ∷ ("CCAP", VcdCap.ccap)
    ∷ ("CFLAG", VcdCap.cflag)
    ∷ ("RLIM", VcdCap.rlim)
    ∷ ("SCHED", VcdCap.sched)
    ∷ ("UNAME", VcdCap.uname)
    ∷ ("CREATE", VcdCap.create)
    ∷ ("EXEC", VcdCap.exec)
    ∷ ("INFO", VcdCap.info)
    ∷ []

module _ ⦃p : Platform⦄ where
  -- system capabilities
  abbrev pub bcaps_list : Flist
  bcaps_list =
      ("CHOWN", p.node "CAP" "CHOWN")
      ∷ ("DAC_OVERRIDE", p.node "CAP" "DAC_OVERRIDE")
      ∷ ("DAC_READ_SEARCH", p.node "CAP" "DAC_READ_SEARCH")
      ∷ ("FOWNER", p.node "CAP" "FOWNER")
      ∷ ("FSETID", p.node "CAP" "FSETID")
      ∷ ("KILL", p.node "CAP" "KILL")
      ∷ ("SETGID", p.node "CAP" "SETGID")
      ∷ ("SETUID", p.node "CAP" "SETUID")
      ∷ ("SETPCAP", p.node "CAP" "SETPCAP")
      ∷ ("LINUX_IMMUTABLE", p.node "CAP" "LINUX_IMMUTABLE")
      ∷ ("NET_BIND_SERVICE", p.node "CAP" "NET_BIND_SERVICE")
      ∷ ("NET_BROADCAST", p.node "CAP" "NET_BROADCAST")
      ∷ ("NET_ADMIN", p.node "CAP" "NET_ADMIN")
      ∷ ("NET_RAW", p.node "CAP" "NET_RAW")
      ∷ ("IPC_LOCK", p.node "CAP" "IPC_LOCK")
      ∷ ("IPC_OWNER", p.node "CAP" "IPC_OWNER")
      ∷ ("SYS_MODULE", p.node "CAP" "SYS_MODULE")
      ∷ ("SYS_RAWIO", p.node "CAP" "SYS_RAWIO")
      ∷ ("SYS_CHROOT", p.node "CAP" "SYS_CHROOT")
      ∷ ("SYS_PTRACE", p.node "CAP" "SYS_PTRACE")
      ∷ ("SYS_PACCT", p.node "CAP" "SYS_PACCT")
      ∷ ("SYS_ADMIN", p.node "CAP" "SYS_ADMIN")
      ∷ ("SYS_BOOT", p.node "CAP" "SYS_BOOT")
      ∷ ("SYS_NICE", p.node "CAP" "SYS_NICE")
      ∷ ("SYS_RESOURCE", p.node "CAP" "SYS_RESOURCE")
      ∷ ("SYS_TIME", p.node "CAP" "SYS_TIME")
      ∷ ("SYS_TTY_CONFIG", p.node "CAP" "SYS_TTY_CONFIG")
      ∷ ("MKNOD", p.node "CAP" "MKNOD")
      ∷ ("LEASE", p.node "CAP" "LEASE")
      ∷ ("AUDIT_WRITE", p.node "CAP" "AUDIT_WRITE")
      ∷ ("AUDIT_CONTROL", p.node "CAP" "AUDIT_CONTROL")
      ∷ []

  -- context capabilities
  abbrev pub ccaps_list : Flist
  ccaps_list =
      ("SET_UTSNAME", p.node "VXC" "SET_UTSNAME")
      ∷ ("SET_RLIMIT", p.node "VXC" "SET_RLIMIT")
      ∷ ("RAW_ICMP", p.node "VXC" "RAW_ICMP")
      ∷ ("SYSLOG", p.node "VXC" "SYSLOG")
      ∷ ("SECURE_MOUNT", p.node "VXC" "SECURE_MOUNT")
      ∷ ("SECURE_REMOUNT", p.node "VXC" "SECURE_REMOUNT")
      ∷ ("BINARY_MOUNT", p.node "VXC" "BINARY_MOUNT")
      ∷ ("QUOTA_CTL", p.node "VXC" "QUOTA_CTL")
      ∷ ("ADMIN_MAPPER", p.node "VXC" "ADMIN_MAPPER")
      ∷ ("ADMIN_CLOOP", p.node "VXC" "ADMIN_CLOOP")
      ∷ []

  -- context flags
  abbrev pub cflags_list : Flist
  cflags_list =
      ("INFO_PRIVATE", p.node "VXF" "INFO_PRIVATE")
      ∷ ("INFO_INIT", p.node "VXF" "INFO_INIT")
      ∷ ("INFO_HIDE", p.node "VXF" "INFO_HIDE")
      ∷ ("SCHED_HARD", p.node "VXF" "SCHED_HARD")
      ∷ ("SCHED_PRIO", p.node "VXF" "SCHED_PRIO")
      ∷ ("SCHED_PAUSE", p.node "VXF" "SCHED_PAUSE")
      ∷ ("VIRT_MEM", p.node "VXF" "VIRT_MEM")
      ∷ ("VIRT_UPTIME", p.node "VXF" "VIRT_UPTIME")
      ∷ ("VIRT_CPU", p.node "VXF" "VIRT_CPU")
      ∷ ("VIRT_LOAD", p.node "VXF" "VIRT_LOAD")
      ∷ ("VIRT_TIME", p.node "VXF" "VIRT_TIME")
      ∷ ("HIDE_MOUNT", p.node "VXF" "HIDE_MOUNT")
      ∷ ("HIDE_NETIF", p.node "VXF" "HIDE_NETIF")
      ∷ ("HIDE_VINFO", p.node "VXF" "HIDE_VINFO")
      ∷ ("FORK_RSS", p.node "VXF" "FORK_RSS")
      ∷ []

  -- virtual system information types
  abbrev pub uname_list : Flist
  uname_list =
      ("SYSNAME", p.node "VHIN" "SYSNAME")
      ∷ ("NODENAME", p.node "VHIN" "NODENAME")
      ∷ ("RELEASE", p.node "VHIN" "RELEASE")
      ∷ ("VERSION", p.node "VHIN" "VERSION")
      ∷ ("MACHINE", p.node "VHIN" "MACHINE")
      ∷ ("DOMAINNAME", p.node "VHIN" "DOMAINNAME")
      ∷ []

  -- resource limits
  abbrev pub rlimit_list : Flist
  rlimit_list =
      ("CPU", p.node "RLIMIT" "CPU")
      ∷ ("FSIZE", p.node "RLIMIT" "FSIZE")
      ∷ ("DATA", p.node "RLIMIT" "DATA")
      ∷ ("STACK", p.node "RLIMIT" "STACK")
      ∷ ("CORE", p.node "RLIMIT" "CORE")
      ∷ ("RSS", p.node "RLIMIT" "RSS")
      ∷ ("NPROC", p.node "RLIMIT" "NPROC")
      ∷ ("NOFILE", p.node "RLIMIT" "NOFILE")
      ∷ ("MEMLOCK", p.node "RLIMIT" "MEMLOCK")
      ∷ ("AS", p.node "RLIMIT" "AS")
      ∷ ("LOCKS", p.node "RLIMIT" "LOCKS")
      ∷ ("SIGPENDING", p.node "RLIMIT" "SIGPENDING")
      ∷ ("MSGQUEUE", p.node "RLIMIT" "MSGQUEUE")
      ∷ ("NSOCK", p.node "VLIMIT" "NSOCK")
      ∷ ("OPENFD", p.node "VLIMIT" "OPENFD")
      ∷ ("ANON", p.node "VLIMIT" "ANON")
      ∷ ("SHMEM", p.node "VLIMIT" "SHMEM")
      ∷ ("SEMARY", p.node "VLIMIT" "SEMARY")
      ∷ ("NSEMS", p.node "VLIMIT" "NSEMS")
      ∷ ("DENTRY", p.node "VLIMIT" "DENTRY")
      ∷ ("MAPPED", p.node "VLIMIT" "MAPPED")
      ∷ []
