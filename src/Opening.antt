-- ===== src/Opening.antt =====
-- src/vcd/vxdb.c: what the daemon makes of its database at the start (vxdb_sanity_check). `none` is
-- log_error_and_die. sqlite_master is read as a table; the laws of sqlite on unique indexes are about the
-- database that has them.
pub mod Users
use vcd.Base.{
  ℕ, ◌/◌, ◌%◌, Bool, true, false, not, ◌&&◌, ◌||◌, String, List, [], ◌∷◌, map, Option, none, some,
  if◌then◌else◌, ltb, ◌==◌, str_equal, str_cat,
}
use vcd.Base.Int.{ℤ, pos, negsuc}
use vcd.Sql.{Contents, Stmt, int, text, insert, Query, select, limit_one, unordered}
use vcd.Platform.{Platform}
use vcd.Vxdb.Tables.{Table, vxdb_tables, create_table, create_index, set_version}
use vcd.Auth.{finds, auth_getnextuid}

abbrev pub also : Option Contents → (Contents → Option Contents) → Option Contents
also none f = none
also (some db) f = f db

-- The names of the columns with commas between them.
unfoldable pub columns_text : List String → String
columns_text [] = ""
columns_text (c ∷ []) = c
columns_text (c ∷ d ∷ cs) = str_cat c (str_cat "," (columns_text (d ∷ cs)))

abbrev pub index_query : String → List String → Query
index_query t cs =
    select ("name" ∷ []) "sqlite_master"
      (("name", text (str_cat "u_" (str_cat t (str_cat "_" (columns_text cs)))))
        ∷ ("tbl_name", text t)
        ∷ ("type", text "index")
        ∷ [])
      unordered

abbrev pub table_query : String → Query
table_query t =
    select ("name" ∷ []) "sqlite_master" (("name", text t) ∷ ("type", text "table") ∷ []) unordered

abbrev pub caps_of : ℤ → List String → List Stmt
caps_of uid cs = map (λ c. insert "user_caps" (("uid", int uid) ∷ ("cap", text c) ∷ [])) cs

abbrev pub user_row : ℤ → String → ℕ → Stmt
user_row uid name admin = insert "user" (
    ("uid", int uid)
    ∷ ("name", text name)
    ∷ ("password", text "*")
    ∷ ("admin", int (pos admin))
    ∷ [])

abbrev pub admin_caps : List String
admin_caps =
    "AUTH" ∷ "DLIM" ∷ "INIT" ∷ "MOUNT" ∷ "NET" ∷ "BCAP" ∷ "CCAP" ∷ "CFLAG" ∷ "RLIM" ∷ "SCHED"
    ∷ "UNAME" ∷ "CREATE" ∷ "EXEC" ∷ "INFO" ∷ []

-- The database has the version of a daemon that this one can follow, or none at all.
unfoldable pub version_fits : ℤ → Bool
version_fits (pos n) =
    n == 0 || not (ltb (n / 256) 1) && not (ltb 1 (n / 256)) && not (ltb 1 (n % 256))
version_fits (negsuc n) = false

abbrev pub is_unversioned : ℤ → Bool
is_unversioned (pos n) = n == 0
is_unversioned (negsuc n) = false

abbrev pub any_table : Query
any_table = limit_one (select ("name" ∷ []) "sqlite_master" [] unordered)

abbrev pub user_query : Query
user_query = limit_one (select ("uid" ∷ []) "user" [] unordered)

abbrev pub admin_query : Query
admin_query = limit_one (select ("uid" ∷ []) "user" (("admin", int (pos 1)) ∷ []) unordered)

abbrev pub vshelper_query : Query
vshelper_query = select ("uid" ∷ []) "user" (("name", text "vshelper") ∷ []) unordered

module _ ⦃p : Platform⦄ where
  -- The group of the virtual servers that start with the host is made with its table.
  unfoldable pub vxdb_create_table : Table → Contents → Option Contents
  vxdb_create_table t db = also (p.define (create_table t) db) (λ d.
      if str_equal t.name "groups"
      then p.exec (insert "groups" (("gid", int (pos 1)) ∷ ("name", text "onboot") ∷ []) ∷ []) d
      else some d)

  unfoldable pub vxdb_create_index : String → List String → Contents → Option Contents
  vxdb_create_index t cs db = p.define (create_index t cs) db

  unfoldable pub vxdb_sanity_check_unique : String → List (List String) → Contents → Option Contents
  unfolding columns_text
  vxdb_sanity_check_unique t [] db = some db
  vxdb_sanity_check_unique t (cs ∷ css) db =
      also (if finds (index_query t cs) db then some db else vxdb_create_index t cs db)
        (λ d. vxdb_sanity_check_unique t css d)

  unfoldable pub vxdb_sanity_check_table : Table → Contents → Option Contents
  vxdb_sanity_check_table t db =
      if finds (table_query t.name) db
      then vxdb_sanity_check_unique t.name t.unique db
      else vxdb_create_table t db

  unfoldable pub check_tables : List Table → Contents → Option Contents
  check_tables [] db = some db
  check_tables (t ∷ ts) db = also (vxdb_sanity_check_table t db) (λ d. check_tables ts d)

  -- A user with a password that no digest equals.
  unfoldable pub vxdb_create_user : String → Contents → Option Contents
  vxdb_create_user name db =
      let uid = auth_getnextuid db in
      if str_equal name "admin"
      then p.exec (user_row uid "admin" 1 ∷ caps_of uid admin_caps) db
      else if str_equal name "vshelper"
      then p.exec (user_row uid "vshelper" 0 ∷ caps_of uid ("HELPER" ∷ [])) db
      else some db

  unfoldable pub user_or_new : Query → String → Contents → Option Contents
  unfolding vxdb_create_user
  user_or_new q name db = if finds q db then some db else vxdb_create_user name db

  unfoldable pub check_users : Contents → Option Contents
  unfolding user_or_new
  check_users db =
      also (user_or_new user_query "admin" db) (λ d.
        also (user_or_new admin_query "admin" d) (λ e. user_or_new vshelper_query "vshelper" e))

  abbrev pub with_version : Option ℤ → Contents → Option Contents
  with_version none db = none
  with_version (some v) db =
      if not (version_fits v) || is_unversioned v && finds any_table db
      then none
      else also (check_tables vxdb_tables db) (λ d. also (p.define (set_version 257) d) check_users)

  unfoldable pub vxdb_sanity_check : Contents → Option Contents
  unfolding check_tables version_fits
  vxdb_sanity_check db = with_version (p.user_version db) db
