-- ===== src/Methods/Vxdb/Startup.antt =====
-- src/vcd/methods/vxdb/vxdb_init_{set,get}.c and vxdb_mount_{set,get,remove}.c: how a virtual server
-- starts, and what it mounts.
use vcd.Base.{◌+◌, not, ◌&&◌, [], ◌∷◌, map, none, some}
use vcd.Base.Int.{as_int, pos}
use vcd.Sql.{int, text, replace, delete, select, unordered, asc}
use vcd.Platform.{Platform}
use vcd.Lists.VcdCap
use vcd.Validate.{str_isempty, validate_path}
use vcd.Vxdb.{vxdb_column_text, vxdb_column_int}
use vcd.Call.{
  M, pure, ◌>>=◌, ◌>>◌, fault_if, str, num, Request, get_str, get_int, Reply, nil, struct, structs,
  exec_or_fault, fetch, fetch_one,
}
use vcd.Methods.{meinval, m_owner, m_lock, method_init, method_empty_params}
use vcd.Methods.Common.{xid_is, given_and_not, or_default, require_xid}

module _ ⦃p : Platform⦄ where
  unfoldable pub m_vxdb_init_set : Request → M Reply
  m_vxdb_init_set request = do
    params ← method_init request VcdCap.init (m_owner + m_lock)
    name ← get_str "name" params
    text_of_init ← get_str "init" params
    text_of_halt ← get_str "halt" params
    text_of_reboot ← get_str "reboot" params
    timeout ← get_int "timeout" params
    let init = or_default (method_empty_params text_of_init) "/sbin/init"
    let halt = or_default (method_empty_params text_of_halt) "/sbin/halt"
    let reboot = or_default (method_empty_params text_of_reboot) "/sbin/reboot"
    fault_if (not (p.str_path_isabs init)) meinval
    fault_if (not (p.str_path_isabs halt)) meinval
    fault_if (not (p.str_path_isabs reboot)) meinval
    xid ← require_xid name
    exec_or_fault (
        replace "init" (
          ("xid", int (as_int xid))
          ∷ ("init", text init)
          ∷ ("halt", text halt)
          ∷ ("reboot", text reboot)
          ∷ ("timeout", int timeout)
          ∷ [])
        ∷ [])
    pure nil

  unfoldable pub m_vxdb_init_get : Request → M Reply
  m_vxdb_init_get request = do
    params ← method_init request VcdCap.init m_owner
    name ← get_str "name" params
    xid ← require_xid name
    found ←
        fetch_one
          (select ("init" ∷ "halt" ∷ "reboot" ∷ "timeout" ∷ []) "init" (xid_is xid) unordered)
    pure (
        struct (elim found [
          | some r ↦
              ("init", str (vxdb_column_text r 0))
              ∷ ("halt", str (vxdb_column_text r 1))
              ∷ ("reboot", str (vxdb_column_text r 2))
              ∷ ("timeout", num (vxdb_column_int r 3))
              ∷ []
          | none ↦
              ("init", str "/sbin/init")
              ∷ ("halt", str "/sbin/halt")
              ∷ ("reboot", str "/sbin/reboot")
              ∷ ("timeout", num (pos 15))
              ∷ []
        ]))

  unfoldable pub m_vxdb_mount_set : Request → M Reply
  m_vxdb_mount_set request = do
    params ← method_init request VcdCap.mount (m_owner + m_lock)
    name ← get_str "name" params
    text_of_src ← get_str "src" params
    dst ← get_str "dst" params
    text_of_type ← get_str "type" params
    text_of_opts ← get_str "opts" params
    let src = method_empty_params text_of_src
    let type = method_empty_params text_of_type
    let opts = method_empty_params text_of_opts
    fault_if (not (validate_path dst)) meinval
    fault_if (str_isempty text_of_src && str_isempty text_of_type) meinval
    xid ← require_xid name
    exec_or_fault (
        replace "mount" (
          ("xid", int (as_int xid))
          ∷ ("src", text (or_default src "none"))
          ∷ ("dst", text dst)
          ∷ ("type", text (or_default type "auto"))
          ∷ ("opts", text (or_default opts "defaults"))
          ∷ [])
        ∷ [])
    pure nil

  unfoldable pub m_vxdb_mount_get : Request → M Reply
  m_vxdb_mount_get request = do
    params ← method_init request VcdCap.mount m_owner
    name ← get_str "name" params
    text_of_dst ← get_str "dst" params
    let dst = method_empty_params text_of_dst
    fault_if (given_and_not dst validate_path) meinval
    xid ← require_xid name
    rows ← fetch (elim dst [
      | none ↦ select ("src" ∷ "dst" ∷ "type" ∷ "opts" ∷ []) "mount" (xid_is xid) (asc "dst")
      | some d ↦
          select ("src" ∷ "dst" ∷ "type" ∷ "opts" ∷ []) "mount"
            (("xid", int (as_int xid)) ∷ ("dst", text d) ∷ []) unordered
    ])
    pure (
        structs (
          map
            (λ r.
              ("src", str (vxdb_column_text r 0))
              ∷ ("dst", str (vxdb_column_text r 1))
              ∷ ("type", str (vxdb_column_text r 2))
              ∷ ("opts", str (vxdb_column_text r 3))
              ∷ [])
            rows))

  unfoldable pub m_vxdb_mount_remove : Request → M Reply
  m_vxdb_mount_remove request = do
    params ← method_init request VcdCap.mount (m_owner + m_lock)
    name ← get_str "name" params
    text_of_dst ← get_str "dst" params
    let dst = method_empty_params text_of_dst
    fault_if (given_and_not dst validate_path) meinval
    xid ← require_xid name
    exec_or_fault (elim dst [
      | none ↦ delete "mount" (xid_is xid) ∷ []
      | some d ↦ delete "mount" (("xid", int (as_int xid)) ∷ ("dst", text d) ∷ []) ∷ []
    ])
    pure nil
