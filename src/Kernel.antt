-- ===== src/Kernel.antt =====
-- What the daemon asks of the kernel, of the file system and of its child processes, as data: the
-- calls of libvserver with the structs that they take, and the files that vx.* and helper.* write.
use vcd.Base.{ℕ, Bool, String, List, Option}
use vcd.Base.Int.{ℤ}

-- vx_flags_t and nx_flags_t
pub record Flags : Type 0 where
  pub flags : ℕ
  pub mask : ℕ

-- dx_limit_t, without its filename
pub record DxLimit : Type 0 where
  pub space_used : ℕ
  pub space_total : ℕ
  pub inodes_used : ℕ
  pub inodes_total : ℕ
  pub reserved : ℤ

-- vx_limit_t
pub record VxLimit : Type 0 where
  pub id : ℕ
  pub softlimit : ℕ
  pub maximum : ℕ

-- vx_sched_t. There is no cpu_id where the mask has no VXSM_CPU_ID.
pub record VxSched : Type 0 where
  pub mask : ℕ
  pub cpu_id : Option ℤ
  pub fill_rate : ℤ × ℤ
  pub interval : ℤ × ℤ
  pub tokens_min : ℤ
  pub tokens_max : ℤ
  pub prio_bias : ℤ

-- vx_uname_t
pub record VxUname : Type 0 where
  pub id : ℕ
  pub value : String

-- nx_addr_t, with the text that addr_from_str turns into an address and a mask
pub record NxAddr : Type 0 where
  pub type : ℕ
  pub text : String

-- The arguments of /bin/mount.
pub record Mount : Type 0 where
  pub src : String
  pub dst : String
  pub type : String
  pub opts : String

pub data Syscall : Type 0 where
  vx_bcaps_set : ℕ → Flags → Syscall
  vx_ccaps_set : ℕ → Flags → Syscall
  vx_flags_set : ℕ → Flags → Syscall
  nx_flags_set : ℕ → Flags → Syscall
  vx_create : ℕ → Flags → Syscall
  nx_create : ℕ → Flags → Syscall
  dx_limit_remove : ℕ → String → Syscall
  dx_limit_add : ℕ → String → Syscall
  dx_limit_set : ℕ → String → DxLimit → Syscall
  vx_limit_set : ℕ → VxLimit → Syscall
  vx_sched_set : ℕ → VxSched → Syscall
  vx_uname_set : ℕ → VxUname → Syscall
  nx_addr_add : ℕ → NxAddr → Syscall
  vx_kill : ℕ → ℤ → ℤ → Syscall
  -- A child in a new namespace, which calls ns_set.
  ns_setup : ℕ → Syscall
  -- A child in the namespace of the context and in the directory, which mounts.
  mount_in : ℕ → String → Mount → Syscall
  -- ns_enter, a change of the root to the directory, and nx_migrate.
  enter : ℕ → String → Syscall
  -- A child that migrates to the context and runs the command.
  command_in : ℕ → String → Syscall
  mkdir : String → Syscall
  rmdir : String → Syscall
  runlink : String → Syscall
  -- Opening a file in order to append to it, and the text.
  append : String → String → Syscall
  -- chroot_secure_chdir to /etc of the directory, and a new mtab with one line in it.
  new_mtab : String → Syscall
  -- A line in that mtab.
  mtab_line : String → Mount → Syscall
  -- A function of libc or lucid on a file: its name, and the path.
  file : String → String → Syscall
  -- ix_attr_set with a path, a context id, flags and a mask.
  ix_attr_set : String → ℕ → Flags → Syscall
  -- A function on a context: its name, and the id.
  in_context : String → ℕ → Syscall
  vx_migrate : ℕ → Flags → Syscall
  -- The process runs another program from now on.
  exec_replace : String → Syscall
  -- pipe and fork, and at the end reading what the child printed, with waitpid.
  fork : Syscall
  reap : Syscall
  -- waitpid with WNOHANG.
  glance : Syscall
  -- One second passes.
  sleep : Syscall

-- How a child process ends: fork or waitpid fails, an exit status, or a signal.
pub data Exit : Type 0 where
  not_run : Exit
  exited : ℕ → Exit
  signaled : Exit

-- vx_info and nx_info: 0, -1 with ESRCH, or -1 with another error.
pub data Info : Type 0 where
  alive : Info
  gone : Info
  failing : Info

-- A file that nftw visits: the address of the struct stat that it hands over, the fields of it, and
-- what ix_attr_get says of the file (flags and xid), `none` where that fails.
pub record Visit : Type 0 where
  pub sb : ℕ
  pub st_ino : ℕ
  pub st_nlink : ℕ
  pub st_blocks : ℕ
  pub attr : Option (ℕ × ℕ)

-- A file of a template: what nftw hands over of it.
pub data FileType : Type 0 where
  ftw_d : FileType
  ftw_f : FileType
  ftw_sl : FileType
  ftw_other : FileType

pub record Entry : Type 0 where
  pub fpath : String
  pub level : ℕ
  -- A character or block device, a fifo or a socket.
  pub special : Bool
  pub typeflag : FileType

-- A section "mount" of the configuration of a template. The title is there, the options may be NULL.
pub record MountSection : Type 0 where
  pub dst : String
  pub src : Option String
  pub type : Option String
  pub opts : Option String

-- What the configuration of a template says, `none` for an option that it leaves out.
pub record Conf : Type 0 where
  pub description : Option String
  pub init : Option String
  pub halt : Option String
  pub reboot : Option String
  pub timeout : Option ℤ
  pub mounts : List MountSection
  pub bcaps : Option (List String)
  pub ccaps : Option (List String)
  pub flags : Option (List String)

-- cfg_parse: CFG_FILE_ERROR, CFG_PARSE_ERROR, or the options.
pub data Parsed : Type 0 where
  unreadable : Parsed
  malformed : Parsed
  parsed : Conf → Parsed

-- What vx_stat tells of a context: the counts as the unsigned numbers of the kernel, and the loads.
pub record VxStat : Type 0 where
  pub tasks : ℕ
  pub nr_threads : ℕ
  pub nr_running : ℕ
  pub nr_unintr : ℕ
  pub nr_onhold : ℕ
  pub nr_forks : ℕ
  pub uptime : ℕ
  pub load : ℕ × ℕ × ℕ

-- The struct after vx_limit_stat, whatever the call returns.
pub record VxLimitStat : Type 0 where
  pub minimum : ℕ
  pub value : ℕ
  pub maximum : ℕ

-- The struct after nx_sock_stat: the counts and the totals of what was received, sent and failed.
pub record NxSockStat : Type 0 where
  pub count : ℕ × ℕ × ℕ
  pub total : ℕ × ℕ × ℕ

-- lstat: -1 with ENOENT, -1 with another error, or a directory or not.
pub data Lstat : Type 0 where
  missing : Lstat
  unreached : Lstat
  directory : Lstat
  no_directory : Lstat
