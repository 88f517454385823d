-- ===== src/Vxdb/Tables.antt =====
-- src/vcd/vxdb-tables.h: the tables of the database, their columns and their unique indexes.
use vcd.Base.{ℕ, String, List, [], ◌∷◌, if◌then◌else◌, str_equal}
use vcd.Sql.{Schema}

pub record Table : Type 0 where
  pub name : String
  pub columns : List String
  -- The columns of each unique index.
  pub unique : List (List String)

abbrev table : String → List String → List (List String) → Table
table name columns unique = record { name = name; columns = columns; unique = unique }

abbrev pub vxdb_tables : List Table
vxdb_tables =
    table "dx_limit" ("xid" ∷ "space" ∷ "inodes" ∷ "reserved" ∷ []) (("xid" ∷ []) ∷ [])
    ∷ table "groups" ("gid" ∷ "name" ∷ []) (("gid" ∷ []) ∷ ("name" ∷ []) ∷ [])
    ∷ table "init" ("xid" ∷ "init" ∷ "halt" ∷ "reboot" ∷ "timeout" ∷ []) (("xid" ∷ []) ∷ [])
    ∷ table "mount" ("xid" ∷ "src" ∷ "dst" ∷ "type" ∷ "opts" ∷ []) (("xid" ∷ "dst" ∷ []) ∷ [])
    ∷ table "nx_addr" ("xid" ∷ "addr" ∷ "netmask" ∷ []) (("xid" ∷ "addr" ∷ []) ∷ [])
    ∷ table "nx_broadcast" ("xid" ∷ "broadcast" ∷ []) (("xid" ∷ []) ∷ [])
    ∷ table "restart" ("xid" ∷ []) (("xid" ∷ []) ∷ [])
    ∷ table "user" ("uid" ∷ "name" ∷ "password" ∷ "admin" ∷ []) (("uid" ∷ []) ∷ ("name" ∷ []) ∷ [])
    ∷ table "user_caps" ("uid" ∷ "cap" ∷ []) (("uid" ∷ "cap" ∷ []) ∷ [])
    ∷ table "vcd" ("uptime" ∷ "requests" ∷ "flogins" ∷ "nomethod" ∷ "vxdbqueries" ∷ [])
        (("uptime" ∷ []) ∷ [])
    ∷ table "vdir" ("xid" ∷ "vdir" ∷ []) (("xid" ∷ []) ∷ ("vdir" ∷ []) ∷ [])
    ∷ table "vx_bcaps" ("xid" ∷ "bcap" ∷ []) (("xid" ∷ "bcap" ∷ []) ∷ [])
    ∷ table "vx_ccaps" ("xid" ∷ "ccap" ∷ []) (("xid" ∷ "ccap" ∷ []) ∷ [])
    ∷ table "vx_cpuset" ("xid" ∷ "cpus" ∷ "mems" ∷ "virtualize" ∷ []) (("xid" ∷ []) ∷ [])
    ∷ table "vx_flags" ("xid" ∷ "flag" ∷ []) (("xid" ∷ "flag" ∷ []) ∷ [])
    ∷ table "vx_limit" ("xid" ∷ "type" ∷ "soft" ∷ "max" ∷ []) (("xid" ∷ "type" ∷ []) ∷ [])
    ∷ table "vx_sched"
        ("xid" ∷ "cpuid" ∷ "fillrate" ∷ "fillrate2" ∷ "interval" ∷ "interval2" ∷ "tokensmin"
          ∷ "tokensmax" ∷ [])
        (("xid" ∷ "cpuid" ∷ []) ∷ [])
    ∷ table "vx_uname" ("xid" ∷ "type" ∷ "value" ∷ []) (("xid" ∷ "type" ∷ []) ∷ [])
    ∷ table "xid_gid_map" ("xid" ∷ "gid" ∷ []) (("xid" ∷ "gid" ∷ []) ∷ [])
    ∷ table "xid_name_map" ("xid" ∷ "name" ∷ []) (("xid" ∷ []) ∷ ("name" ∷ []) ∷ [])
    ∷ table "xid_uid_map" ("xid" ∷ "uid" ∷ []) (("xid" ∷ "uid" ∷ []) ∷ [])
    ∷ []

unfoldable pub unique_in : List Table → Schema
unique_in [] t = []
unique_in (x ∷ xs) t = if str_equal x.name t then x.unique else unique_in xs t

-- The unique indexes of a table of the database.
unfoldable pub vxdb_unique : Schema
unfolding unique_in
vxdb_unique t = unique_in vxdb_tables t

-- Statements on the schema: CREATE TABLE with all its unique indexes in one transaction, CREATE UNIQUE
-- INDEX, and PRAGMA user_version.
pub data Ddl : Type 0 where
  create_table : Table → Ddl
  create_index : String → List String → Ddl
  set_version : ℕ → Ddl
