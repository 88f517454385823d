-- ===== src/Methods/Vxdb/Network.antt =====
-- src/vcd/methods/vxdb/vxdb_nx_{addr,broadcast}_{set,get,remove}.c: the addresses of a virtual
-- server.
use vcd.Base.{◌+◌, not, [], ◌∷◌, map, none, some}
use vcd.Base.Int.{as_int}
use vcd.Sql.{int, text, replace, delete, select, unordered}
use vcd.Platform.{Platform}
use vcd.Lists.VcdCap
use vcd.Validate.{validate_addr}
use vcd.Vxdb.{vxdb_column_text}
use vcd.Call.{
  M, pure, ◌>>=◌, ◌>>◌, fault_if, str, Request, get_str, Reply, nil, one, structs, exec_or_fault,
  fetch, fetch_one,
}
use vcd.Methods.{meinval, m_owner, m_lock, method_init, method_empty_params}
use vcd.Methods.Common.{xid_is, given_and_not, or_default, require_xid}

module _ ⦃p : Platform⦄ where
  unfoldable pub m_vxdb_nx_addr_set : Request → M Reply
  m_vxdb_nx_addr_set request = do
    params ← method_init request VcdCap.net (m_owner + m_lock)
    name ← get_str "name" params
    addr ← get_str "addr" params
    text_of_netmask ← get_str "netmask" params
    let netmask = method_empty_params text_of_netmask
    fault_if (not (validate_addr addr)) meinval
    fault_if (given_and_not netmask validate_addr) meinval
    xid ← require_xid name
    exec_or_fault (
        replace "nx_addr" (
          ("xid", int (as_int xid))
          ∷ ("addr", text addr)
          ∷ ("netmask", text (or_default netmask "255.255.255.255"))
          ∷ [])
        ∷ [])
    pure nil

  unfoldable pub m_vxdb_nx_addr_get : Request → M Reply
  m_vxdb_nx_addr_get request = do
    params ← method_init request VcdCap.net m_owner
    name ← get_str "name" params
    text_of_addr ← get_str "addr" params
    let addr = method_empty_params text_of_addr
    fault_if (given_and_not addr validate_addr) meinval
    xid ← require_xid name
    rows ← fetch (elim addr [
      | none ↦ select ("addr" ∷ "netmask" ∷ []) "nx_addr" (xid_is xid) unordered
      | some a ↦
          select ("addr" ∷ "netmask" ∷ []) "nx_addr"
            (("xid", int (as_int xid)) ∷ ("addr", text a) ∷ []) unordered
    ])
    pure (
        structs (
          map
            (λ r.
              ("addr", str (vxdb_column_text r 0)) ∷ ("netmask", str (vxdb_column_text r 1)) ∷ [])
            rows))

  unfoldable pub m_vxdb_nx_addr_remove : Request → M Reply
  m_vxdb_nx_addr_remove request = do
    params ← method_init request VcdCap.net (m_owner + m_lock)
    name ← get_str "name" params
    text_of_addr ← get_str "addr" params
    let addr = method_empty_params text_of_addr
    fault_if (given_and_not addr validate_addr) meinval
    xid ← require_xid name
    exec_or_fault (elim addr [
      | none ↦ delete "nx_addr" (xid_is xid) ∷ []
      | some a ↦ delete "nx_addr" (("xid", int (as_int xid)) ∷ ("addr", text a) ∷ []) ∷ []
    ])
    pure nil

  unfoldable pub m_vxdb_nx_broadcast_set : Request → M Reply
  m_vxdb_nx_broadcast_set request = do
    params ← method_init request VcdCap.net (m_owner + m_lock)
    name ← get_str "name" params
    broadcast ← get_str "broadcast" params
    fault_if (not (validate_addr broadcast)) meinval
    xid ← require_xid name
    exec_or_fault (
        replace "nx_broadcast" (("xid", int (as_int xid)) ∷ ("broadcast", text broadcast) ∷ [])
        ∷ [])
    pure nil

  unfoldable pub m_vxdb_nx_broadcast_get : Request → M Reply
  m_vxdb_nx_broadcast_get request = do
    params ← method_init request VcdCap.net m_owner
    name ← get_str "name" params
    xid ← require_xid name
    found ← fetch_one (select ("broadcast" ∷ []) "nx_broadcast" (xid_is xid) unordered)
    pure (elim found [ none ↦ one (str "") | some r ↦ one (str (vxdb_column_text r 0)) ])

  unfoldable pub m_vxdb_nx_broadcast_remove : Request → M Reply
  m_vxdb_nx_broadcast_remove request = do
    params ← method_init request VcdCap.net (m_owner + m_lock)
    name ← get_str "name" params
    xid ← require_xid name
    exec_or_fault (delete "nx_broadcast" (xid_is xid) ∷ [])
    pure nil
