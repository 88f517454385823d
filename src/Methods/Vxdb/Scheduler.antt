-- ===== src/Methods/Vxdb/Scheduler.antt =====
-- src/vcd/methods/vxdb/vxdb_vx_{cpuset,sched,uname}_{set,get,remove}.c: processors, the token bucket
-- and the names that a virtual server sees.
use vcd.Base.{◌+◌, not, ◌&&◌, String, List, [], ◌∷◌, map, none, some, if◌then◌else◌}
use vcd.Base.Int.{as_int, pos, negsuc, eqb_ℤ}
use vcd.Sql.{int, text, replace, delete, select, unordered}
use vcd.Platform.{Platform}
use vcd.Lists.VcdCap
use vcd.Validate.{
  validate_cpuid, validate_token_bucket, validate_cpuset, validate_uname, validate_uname_value,
}
use vcd.Vxdb.{vxdb_column_text, vxdb_column_int}
use vcd.Call.{
  M, pure, ◌>>=◌, ◌>>◌, fault_if, str, num, Request, get_str, get_int, get_bool, Reply, nil, struct,
  structs, exec_or_fault, fetch, fetch_one,
}
use vcd.Methods.{meinval, m_owner, m_lock, method_init, method_empty_params}
use vcd.Methods.Common.{xid_is, given_and_not, require_xid}

module _ ⦃p : Platform⦄ where
  unfoldable pub m_vxdb_vx_cpuset_set : Request → M Reply
  m_vxdb_vx_cpuset_set request = do
    params ← method_init request VcdCap.sched (m_owner + m_lock)
    name ← get_str "name" params
    cpus ← get_str "cpus" params
    mems ← get_str "mems" params
    virtualize ← get_bool "virtualize" params
    fault_if (not (validate_cpuset cpus 0)) meinval
    fault_if (not (validate_cpuset mems 1)) meinval
    xid ← require_xid name
    exec_or_fault (
        replace "vx_cpuset" (
          ("xid", int (as_int xid))
          ∷ ("cpus", text cpus)
          ∷ ("mems", text mems)
          ∷ ("virtualize", int (pos (if virtualize then 1 else 0)))
          ∷ [])
        ∷ [])
    pure nil

  unfoldable pub m_vxdb_vx_cpuset_get : Request → M Reply
  m_vxdb_vx_cpuset_get request = do
    params ← method_init request VcdCap.sched m_owner
    name ← get_str "name" params
    xid ← require_xid name
    found ←
        fetch_one (select ("cpus" ∷ "mems" ∷ "virtualize" ∷ []) "vx_cpuset" (xid_is xid) unordered)
    pure (
        struct (elim found [
          | some r ↦
              ("cpus", str (vxdb_column_text r 0))
              ∷ ("mems", str (vxdb_column_text r 1))
              ∷ ("virtualize", num (vxdb_column_int r 2))
              ∷ []
          | none ↦ ("cpus", str "") ∷ ("mems", str "") ∷ ("virtualize", num (pos 0)) ∷ []
        ]))

  unfoldable pub m_vxdb_vx_cpuset_remove : Request → M Reply
  m_vxdb_vx_cpuset_remove request = do
    params ← method_init request VcdCap.sched (m_owner + m_lock)
    name ← get_str "name" params
    xid ← require_xid name
    exec_or_fault (delete "vx_cpuset" (xid_is xid) ∷ [])
    pure nil

  unfoldable pub m_vxdb_vx_sched_set : Request → M Reply
  m_vxdb_vx_sched_set request = do
    params ← method_init request VcdCap.sched (m_owner + m_lock)
    name ← get_str "name" params
    cpuid ← get_int "cpuid" params
    fillrate ← get_int "fillrate" params
    interval ← get_int "interval" params
    fillrate2 ← get_int "fillrate2" params
    interval2 ← get_int "interval2" params
    tokensmin ← get_int "tokensmin" params
    tokensmax ← get_int "tokensmax" params
    fault_if (not (validate_cpuid cpuid)) meinval
    fault_if (not (validate_token_bucket fillrate interval fillrate2 interval2 tokensmin tokensmax))
        meinval
    xid ← require_xid name
    exec_or_fault (
        replace "vx_sched" (
          ("xid", int (as_int xid))
          ∷ ("fillrate", int fillrate)
          ∷ ("interval", int interval)
          ∷ ("fillrate2", int fillrate2)
          ∷ ("interval2", int interval2)
          ∷ ("tokensmin", int tokensmin)
          ∷ ("tokensmax", int tokensmax)
          ∷ ("cpuid", int cpuid)
          ∷ [])
        ∷ [])
    pure nil

  abbrev pub sched_columns : List String
  sched_columns =
      "cpuid" ∷ "fillrate" ∷ "interval" ∷ "fillrate2" ∷ "interval2" ∷ "tokensmin" ∷ "tokensmax" ∷ []

  -- -2 stands for all processors.
  unfoldable pub m_vxdb_vx_sched_get : Request → M Reply
  m_vxdb_vx_sched_get request = do
    params ← method_init request VcdCap.sched m_owner
    name ← get_str "name" params
    cpuid ← get_int "cpuid" params
    fault_if (not (validate_cpuid cpuid) && not (eqb_ℤ cpuid (negsuc 1))) meinval
    xid ← require_xid name
    rows ← fetch (
        if eqb_ℤ cpuid (negsuc 1)
        then select sched_columns "vx_sched" (xid_is xid) unordered
        else select sched_columns "vx_sched" (("xid", int (as_int xid)) ∷ ("cpuid", int cpuid) ∷ [])
            unordered)
    pure (
        structs (
          map
            (λ r.
              ("cpuid", num (vxdb_column_int r 0))
              ∷ ("fillrate", num (vxdb_column_int r 1))
              ∷ ("interval", num (vxdb_column_int r 2))
              ∷ ("fillrate2", num (vxdb_column_int r 3))
              ∷ ("interval2", num (vxdb_column_int r 4))
              ∷ ("tokensmin", num (vxdb_column_int r 5))
              ∷ ("tokensmax", num (vxdb_column_int r 6))
              ∷ [])
            rows))

  unfoldable pub m_vxdb_vx_sched_remove : Request → M Reply
  m_vxdb_vx_sched_remove request = do
    params ← method_init request VcdCap.sched (m_owner + m_lock)
    name ← get_str "name" params
    cpuid ← get_int "cpuid" params
    fault_if (not (validate_cpuid cpuid) && not (eqb_ℤ cpuid (negsuc 1))) meinval
    xid ← require_xid name
    exec_or_fault (
        if eqb_ℤ cpuid (negsuc 1)
        then delete "vx_sched" (xid_is xid) ∷ []
        else delete "vx_sched" (("xid", int (as_int xid)) ∷ ("cpuid", int cpuid) ∷ []) ∷ [])
    pure nil

  unfoldable pub m_vxdb_vx_uname_set : Request → M Reply
  m_vxdb_vx_uname_set request = do
    params ← method_init request VcdCap.uname (m_owner + m_lock)
    name ← get_str "name" params
    type ← get_str "type" params
    value ← get_str "value" params
    fault_if (not (validate_uname type)) meinval
    fault_if (not (validate_uname_value value)) meinval
    xid ← require_xid name
    exec_or_fault (
        replace "vx_uname"
          (("xid", int (as_int xid)) ∷ ("type", text type) ∷ ("value", text value) ∷ [])
        ∷ [])
    pure nil

  unfoldable pub m_vxdb_vx_uname_get : Request → M Reply
  m_vxdb_vx_uname_get request = do
    params ← method_init request VcdCap.uname m_owner
    name ← get_str "name" params
    text_of_type ← get_str "type" params
    let type = method_empty_params text_of_type
    fault_if (given_and_not type validate_uname) meinval
    xid ← require_xid name
    rows ← fetch (elim type [
      | none ↦ select ("type" ∷ "value" ∷ []) "vx_uname" (xid_is xid) unordered
      | some t ↦
          select ("type" ∷ "value" ∷ []) "vx_uname"
            (("xid", int (as_int xid)) ∷ ("type", text t) ∷ []) unordered
    ])
    pure (
        structs (
          map
            (λ r. ("type", str (vxdb_column_text r 0)) ∷ ("value", str (vxdb_column_text r 1)) ∷ [])
            rows))

  unfoldable pub m_vxdb_vx_uname_remove : Request → M Reply
  m_vxdb_vx_uname_remove request = do
    params ← method_init request VcdCap.uname (m_owner + m_lock)
    name ← get_str "name" params
    text_of_type ← get_str "type" params
    let type = method_empty_params text_of_type
    fault_if (given_and_not type validate_uname) meinval
    xid ← require_xid name
    exec_or_fault (elim type [
      | none ↦ delete "vx_uname" (xid_is xid) ∷ []
      | some t ↦ delete "vx_uname" (("xid", int (as_int xid)) ∷ ("type", text t) ∷ []) ∷ []
    ])
    pure nil
