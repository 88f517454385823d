-- ===== src/Methods/Server.antt =====
-- src/vcd/methods/vx/vx_{remove,rename}.c and helper/helper_restart.c: a virtual server as a whole.
-- The kernel and the file system answer once for each question that a call reads.
pub mod Removal
pub mod Renaming
use vcd.Base.{
  ℕ, ◌+◌, Bool, not, ◌&&◌, String, List, [], ◌∷◌, map, Option, none, some, ◌==◌, str_cat,
}
use vcd.Base.Int.{pos}
use vcd.Sql.{Stmt, int, text, replace, delete, update}
use vcd.Platform.{Platform}
use vcd.Lists.VcdCap
use vcd.Validate.{validate_name}
use vcd.Vxdb.{vxdb_getxid, vxdb_getname, vxdb_getvdir}
use vcd.Kernel.{VxUname, vx_uname_set, runlink}
use vcd.Call.Sys.{must, must_if, is_alive}
use vcd.Call.{
  looks, M, pure, raise, reads, ◌>>=◌, ◌>>◌, fault_if, Request, get_str, get_int, Reply, nil,
  exec_or_fault,
}
use vcd.Methods.{meinval, meexist, menovps, merunning, meconf, mesys, m_owner, m_lock, method_init}
use vcd.Methods.Common.{xid_is, require_xid, is_none, text_of, context_name}
use vcd.Methods.Vxdb.Names.{to_xid}

-- The tables that vx.remove empties of a context id.
abbrev pub removed_tables : List String
removed_tables =
    "dx_limit" ∷ "init" ∷ "mount" ∷ "nx_addr" ∷ "nx_broadcast" ∷ "restart" ∷ "vdir" ∷ "vx_bcaps"
    ∷ "vx_ccaps" ∷ "vx_flags" ∷ "vx_limit" ∷ "vx_sched" ∷ "vx_uname" ∷ "xid_gid_map"
    ∷ "xid_name_map" ∷ "xid_uid_map" ∷ []

abbrev pub removal : ℕ → List Stmt
removal xid = map (λ t. delete t (xid_is xid)) removed_tables

module _ ⦃p : Platform⦄ where
  unfoldable pub m_vx_remove : Request → M Reply
  m_vx_remove request = do
    params ← method_init request VcdCap.create (m_owner + m_lock)
    name ← get_str "name" params
    xid ← require_xid name
    info ← looks (λ h. p.vx_info h xid)
    fault_if (is_alive info) merunning
    vdir ← reads (λ db. vxdb_getvdir db name)
    fault_if (is_none vdir) meconf
    exec_or_fault (removal xid)
    must (runlink (text_of vdir))
    remains ← looks (λ h. p.isdir h (text_of vdir) && not (p.ismount h (text_of vdir)))
    fault_if remains meexist
    pure nil

  -- A name that has a context id is taken.
  unfoldable pub m_vx_rename : Request → M Reply
  m_vx_rename request = do
    params ← method_init request VcdCap.create (m_owner + m_lock)
    name ← get_str "name" params
    newname ← get_str "newname" params
    fault_if (not (validate_name newname)) meinval
    taken ← reads (λ db. vxdb_getxid db newname)
    fault_if (not (taken == 0)) meexist
    xid ← require_xid name
    exec_or_fault (update "xid_name_map" "name" (text newname) (xid_is xid) ∷ [])
    vdir ← reads (λ db. vxdb_getvdir db newname)
    info ← looks (λ h. p.vx_info h xid)
    must_if (is_alive info) (vx_uname_set xid (context_name newname (text_of vdir)))
    pure nil

  unfoldable pub m_helper_restart : Request → M Reply
  m_helper_restart request = do
    params ← method_init request VcdCap.helper 0
    xid ← get_int "xid" params
    name ← reads (λ db. vxdb_getname db (to_xid xid))
    fault_if (is_none name) menovps
    exec_or_fault (replace "restart" (("xid", int xid) ∷ []) ∷ [])
    pure nil
