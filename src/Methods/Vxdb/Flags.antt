-- ===== src/Methods/Vxdb/Flags.antt =====
-- src/vcd/methods/vxdb/vxdb_vx_{bcaps,ccaps,flags}_{add,get,remove}.c: the capabilities and flags of
-- a virtual server.
use vcd.Base.{◌+◌, not, [], ◌∷◌, map, none, some}
use vcd.Base.Int.{as_int}
use vcd.Sql.{int, text, replace, delete, select, unordered}
use vcd.Platform.{Platform}
use vcd.Lists.VcdCap
use vcd.Validate.{validate_bcap, validate_ccap, validate_cflag}
use vcd.Vxdb.{vxdb_column_text}
use vcd.Call.{
  M, pure, ◌>>=◌, ◌>>◌, fault_if, Request, get_str, Reply, nil, strings, exec_or_fault, fetch,
}
use vcd.Methods.{meinval, m_owner, m_lock, method_init, method_empty_params}
use vcd.Methods.Common.{xid_is, given_and_not, require_xid}

module _ ⦃p : Platform⦄ where
  unfoldable pub m_vxdb_vx_bcaps_add : Request → M Reply
  m_vxdb_vx_bcaps_add request = do
    params ← method_init request VcdCap.bcap (m_owner + m_lock)
    name ← get_str "name" params
    bcap ← get_str "bcap" params
    fault_if (not (validate_bcap bcap)) meinval
    xid ← require_xid name
    exec_or_fault (replace "vx_bcaps" (("xid", int (as_int xid)) ∷ ("bcap", text bcap) ∷ []) ∷ [])
    pure nil

  unfoldable pub m_vxdb_vx_bcaps_get : Request → M Reply
  m_vxdb_vx_bcaps_get request = do
    params ← method_init request VcdCap.bcap m_owner
    name ← get_str "name" params
    xid ← require_xid name
    rows ← fetch (select ("bcap" ∷ []) "vx_bcaps" (xid_is xid) unordered)
    pure (strings (map (λ r. vxdb_column_text r 0) rows))

  unfoldable pub m_vxdb_vx_bcaps_remove : Request → M Reply
  m_vxdb_vx_bcaps_remove request = do
    params ← method_init request VcdCap.bcap (m_owner + m_lock)
    name ← get_str "name" params
    text_of_bcap ← get_str "bcap" params
    let bcap = method_empty_params text_of_bcap
    fault_if (given_and_not bcap validate_bcap) meinval
    xid ← require_xid name
    exec_or_fault (elim bcap [
      | none ↦ delete "vx_bcaps" (xid_is xid) ∷ []
      | some v ↦ delete "vx_bcaps" (("xid", int (as_int xid)) ∷ ("bcap", text v) ∷ []) ∷ []
    ])
    pure nil

  unfoldable pub m_vxdb_vx_ccaps_add : Request → M Reply
  m_vxdb_vx_ccaps_add request = do
    params ← method_init request VcdCap.ccap (m_owner + m_lock)
    name ← get_str "name" params
    ccap ← get_str "ccap" params
    fault_if (not (validate_ccap ccap)) meinval
    xid ← require_xid name
    exec_or_fault (replace "vx_ccaps" (("xid", int (as_int xid)) ∷ ("ccap", text ccap) ∷ []) ∷ [])
    pure nil

  unfoldable pub m_vxdb_vx_ccaps_get : Request → M Reply
  m_vxdb_vx_ccaps_get request = do
    params ← method_init request VcdCap.ccap m_owner
    name ← get_str "name" params
    xid ← require_xid name
    rows ← fetch (select ("ccap" ∷ []) "vx_ccaps" (xid_is xid) unordered)
    pure (strings (map (λ r. vxdb_column_text r 0) rows))

  unfoldable pub m_vxdb_vx_ccaps_remove : Request → M Reply
  m_vxdb_vx_ccaps_remove request = do
    params ← method_init request VcdCap.ccap (m_owner + m_lock)
    name ← get_str "name" params
    text_of_ccap ← get_str "ccap" params
    let ccap = method_empty_params text_of_ccap
    fault_if (given_and_not ccap validate_ccap) meinval
    xid ← require_xid name
    exec_or_fault (elim ccap [
      | none ↦ delete "vx_ccaps" (xid_is xid) ∷ []
      | some v ↦ delete "vx_ccaps" (("xid", int (as_int xid)) ∷ ("ccap", text v) ∷ []) ∷ []
    ])
    pure nil

  unfoldable pub m_vxdb_vx_flags_add : Request → M Reply
  m_vxdb_vx_flags_add request = do
    params ← method_init request VcdCap.cflag (m_owner + m_lock)
    name ← get_str "name" params
    flag ← get_str "flag" params
    fault_if (not (validate_cflag flag)) meinval
    xid ← require_xid name
    exec_or_fault (replace "vx_flags" (("xid", int (as_int xid)) ∷ ("flag", text flag) ∷ []) ∷ [])
    pure nil

  unfoldable pub m_vxdb_vx_flags_get : Request → M Reply
  m_vxdb_vx_flags_get request = do
    params ← method_init request VcdCap.cflag m_owner
    name ← get_str "name" params
    xid ← require_xid name
    rows ← fetch (select ("flag" ∷ []) "vx_flags" (xid_is xid) unordered)
    pure (strings (map (λ r. vxdb_column_text r 0) rows))

  unfoldable pub m_vxdb_vx_flags_remove : Request → M Reply
  m_vxdb_vx_flags_remove request = do
    params ← method_init request VcdCap.cflag (m_owner + m_lock)
    name ← get_str "name" params
    text_of_flag ← get_str "flag" params
    let flag = method_empty_params text_of_flag
    fault_if (given_and_not flag validate_cflag) meinval
    xid ← require_xid name
    exec_or_fault (elim flag [
      | none ↦ delete "vx_flags" (xid_is xid) ∷ []
      | some v ↦ delete "vx_flags" (("xid", int (as_int xid)) ∷ ("flag", text v) ∷ []) ∷ []
    ])
    pure nil
