-- ===== src/Platform.antt =====
-- What the daemon takes from elsewhere, as parameters with what their documentation promises:
-- sqlite, the lucid library, libc and the configuration. Nothing here is code of this repository.
use mathlib.Core.List.{Perm, Mem}
use vcd.Base.{
  ℕ, ◌<◌, Bool, true, false, ◌&&◌, ◌||◌, String, List, [], ◌∷◌, Option, none, some, ◌≡◌, leb, ◌==◌,
  if◌then◌else◌, str_equal, all_chars, all,
}
use vcd.Base.Int.{ℤ, pos, ◌≤ℤ◌}
use vcd.Sql.{
  int, desc, field, Row, Contents, Stmt, insert, replace, delete, update, count, Query, Order,
  stmt_clean, query_clean,
}
use vcd.Sql.Writes.{DoesAll}
use vcd.Sql.Answers.{Steps, Runs, Completes, answer}
use vcd.Vxdb.Tables.{vxdb_unique, Ddl}
use vcd.Kernel.{Lstat, VxStat, VxLimitStat, NxSockStat, Syscall, Exit, Info, Visit, Entry, Parsed}

abbrev pub is_digit : ℕ → Bool
is_digit c = leb b'0' c && leb c b'9'

abbrev pub is_alnum : ℕ → Bool
is_alnum c = is_digit c || leb b'a' c && leb c b'z' || leb b'A' c && leb c b'Z'

-- A flag list of lucid: keys with their values.
abbrev pub Flist : Type 0
Flist = List (String × ℕ)

unfoldable pub value_of : Flist → String → ℕ
value_of [] k = 0
value_of ((j, v) ∷ l) k = if str_equal j k then v else value_of l k

unfoldable pub key_of : Flist → ℕ → Option String
key_of [] v = none
key_of ((k, w) ∷ l) v = if w == v then some k else key_of l v

-- sqlite3_exec and sqlite3_prepare on one database. `exec` gives `none` for any code but SQLITE_OK,
-- and then nothing is committed: several statements stand between BEGIN and COMMIT TRANSACTION in the
-- source. It has no ROLLBACK, so that those that went well before the failure stay visible on this
-- connection, but in no other, until it is closed. The contents of the model are what is committed, and
-- a call starts on a connection without a transaction; no method reads or writes after such a failure.
-- `prepare` gives the steps that the statement will take.
pub record Sqlite : Type 0 where
  pub exec : List Stmt → Contents → Option Contents
  pub prepare : Query → Contents → Option Steps
  pub arrange : Order → List Row → List Row
  pub exec_sound :
      (ss : List Stmt) (c d : Contents)
      → all stmt_clean ss ≡ true
      → exec ss c ≡ some d
      → DoesAll vxdb_unique ss c d
  pub prepare_sound :
      (q : Query) (c : Contents) (s : Steps)
      → query_clean q ≡ true
      → prepare q c ≡ some s
      → Runs (answer arrange q c) s
  pub arrange_perm : (o : Order) (rs : List Row) → Perm (arrange o rs) rs
  -- ORDER BY … DESC: among integers the first row has the greatest.
  pub arrange_desc :
      (c : String) (rs rest : List Row) (r q : Row) (a b : ℤ)
      → arrange (desc c) rs ≡ r ∷ rest
      → Mem q rs
      → field c q ≡ some (int a)
      → field c r ≡ some (int b)
      → a ≤ℤ b

pub record Lucid : Type 0 where
  pub str_isalnum : String → Bool
  pub str_isalnum_chars : (s : String) → str_isalnum s ≡ true → all_chars is_alnum s ≡ true
  pub str_isgraph : String → Bool
  pub str_isascii : String → Bool
  pub str_isdigit : String → Bool
  pub str_isdigit_chars : (s : String) → str_isdigit s ≡ true → all_chars is_digit s ≡ true
  pub str_path_isabs : String → Bool
  pub str_path_concat : String → String → Option String
  -- The number of parts that an address text gives, at most 0 if it is none.
  pub addr_from_str : String → ℤ
  pub flist_getval : Flist → String → ℕ
  pub flist_getval_lem : (l : Flist) (k : String) → flist_getval l k ≡ value_of l k
  pub flist_getkey : Flist → ℕ → Option String
  pub flist_getkey_lem : (l : Flist) (v : ℕ) → flist_getkey l v ≡ key_of l v
  pub whirlpool_digest : String → String
  -- A digest is printed in hexadecimal.
  pub whirlpool_digest_chars : (s : String) → all_chars is_alnum (whirlpool_digest s) ≡ true
  -- sscanf with %d, SCNu32 and SCNu64: `none` where nothing is assigned.
  pub scan_int : String → Option ℤ
  pub scan_u32 : String → Option ℕ
  pub scan_u64 : String → Option ℕ
  -- The tokens of strtok_init_str at one delimiter, `none` if it fails.
  pub tokens : String → String → Option (List String)
  -- The first bytes of a text, as many as the number says.
  pub first_bytes : ℕ → String → String
  -- The position of the bit of a flag, v2i32.
  pub v2i32 : ℕ → ℕ
  -- The text of an integer, with digits only where it is not negative.
  pub decimal : ℤ → String
  pub decimal_chars : (n : ℕ) → all_chars is_digit (decimal (pos n)) ≡ true

pub record Host : Type 0 where
  -- Another process holds the lock on the lock file of this name.
  pub lock_held : String → Bool
  -- sysconf(_SC_NPROCESSORS_ONLN)
  pub processors : ℕ
  -- The entries of /sys/devices/system/node, `none` if it cannot be opened.
  pub memory_nodes : Option (List String)
  pub getpagesize : ℕ
  pub vbasedir : String
  -- The kernel and the file system answer by what was asked of them before, the oldest first.
  pub accepts : List Syscall → Syscall → Bool
  -- The end of a child process.
  pub runs : List Syscall → Syscall → Exit
  -- What a command of a child printed.
  pub output : List Syscall → Syscall → String
  pub vx_info : List Syscall → ℕ → Info
  pub nx_info : List Syscall → ℕ → Info
  pub isdir : List Syscall → String → Bool
  pub ismount : List Syscall → String → Bool
  pub lstat : List Syscall → String → Lstat
  pub ispath : List Syscall → String → Bool
  pub isfile : List Syscall → String → Bool
  -- The configuration of templatedir, and what libconfuse reads in the file of a template.
  pub templatedir : String
  pub cfg_parse : String → Parsed
  -- ix_attr_get on the new directory has IATTR_TAG in its mask.
  pub has_tagxid : List Syscall → Bool
  -- The new directory and the template are on the same device.
  pub same_device : List Syscall → Bool
  -- The files that nftw visits under a template.
  pub template_files : List Syscall → List Entry
  -- PRAGMA user_version, `none` where it fails, and a statement on the schema.
  pub user_version : Contents → Option ℤ
  pub define : Ddl → Contents → Option Contents
  -- The next step of a statement that has been finalized gives SQLITE_DONE.
  pub finalized_done : Bool
  -- The entries of a directory, `none` if it cannot be opened.
  pub readdir : List Syscall → String → Option (List String)
  -- vx_stat, vx_limit_stat and nx_sock_stat with the id of a limit or of a kind of sockets.
  pub vx_stat : List Syscall → ℕ → Option VxStat
  pub vx_limit_stat : List Syscall → ℕ → ℕ → VxLimitStat
  pub nx_sock_stat : List Syscall → ℕ → ℕ → NxSockStat
  -- The server of the daemon is reached.
  pub connects : List Syscall → Bool
  pub getpid : ℕ
  -- The text that xmlrpc_build_value makes of a null pointer.
  pub null_text : String
  -- time(NULL)
  pub time : List Syscall → ℤ
  -- The files that nftw visits under a directory.
  pub nftw : List Syscall → String → List Visit
  -- vx_limit_mask_get: the limits that have a soft limit, and those that have a maximum.
  pub vx_limit_mask : Option (ℕ × ℕ)
  -- Constants of the headers of the kernel and of libvserver: `node` is the value of FLIST64_NODE, or
  -- of FLIST64_NODE1 and FLIST32_NODE1, which shift 1 by the constant.
  pub node : String → String → ℕ
  pub node_pos : (p k : String) → 0 < node p k
  -- A constant that the source names as it is.
  pub constant : String → ℕ
  pub dlim_keep : ℕ
  pub dlim_infinity : ℕ
  pub rlim_keep : ℕ
  pub rlim_infinity : ℕ

pub record Platform : Type 0 where
  pub sqlite : Sqlite
  pub open sqlite use *
  pub lucid : Lucid
  pub open lucid use *
  pub host : Host
  pub open host use *

-- A statement that no unique index can refuse.
unfoldable pub is_unrefused : Stmt → Bool
is_unrefused (insert t r) = false
is_unrefused (replace t r) = true
is_unrefused (delete t w) = true
is_unrefused (update t c v w) = false
is_unrefused (count cs) = true

-- No call of sqlite fails: statements that no unique index can refuse go through, and a query is
-- prepared and stepped to its end.
pub record IsHealthy (p : Platform) : Type 0 where
  pub exec_total :
      (ss : List Stmt) (c : Contents)
      → all stmt_clean ss ≡ true
      → all is_unrefused ss ≡ true
      → (d : Contents) × (p.exec ss c ≡ some d)
  pub prepare_total :
      (q : Query) (c : Contents)
      → query_clean q ≡ true
      → (s : Steps) × (p.prepare q c ≡ some s) × Completes s
