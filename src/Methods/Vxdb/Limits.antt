-- ===== src/Methods/Vxdb/Limits.antt =====
-- src/vcd/methods/vxdb/vxdb_{dx,vx}_limit_{set,get,remove}.c: disk limits and resource limits.
pub mod Pages
use vcd.Base.{
  ◌+◌, not, String, List, [], ◌∷◌, map, Option, none, some, if◌then◌else◌, ◌*◌, ◌/◌, ◌%◌, ◌^◌, ℕ,
  str_equal,
}
use vcd.Base.Int.{as_int, pos}
use vcd.Sql.{Value, int, text, replace, delete, select, unordered}
use vcd.Sql.Answers.{Record}
use vcd.Platform.{Platform}
use vcd.Lists.VcdCap
use vcd.Validate.{validate_dlimits, validate_rlimit, validate_rlimits}
use vcd.Vxdb.{vxdb_column_text, vxdb_column_int, vxdb_column_uint64}
use vcd.Call.{
  M, pure, ◌>>=◌, ◌>>◌, fault_if, str, num, Params, Request, get_str, get_int, Reply, nil, struct,
  structs, exec_or_fault, fetch, fetch_one,
}
use vcd.Methods.{meinval, m_owner, m_lock, method_init, method_empty_params}
use vcd.Methods.Common.{xid_is, given_and_not, require_xid}

module _ ⦃p : Platform⦄ where
  -- The number that sscanf leaves in a variable that held `initial`.
  abbrev scanned : Option ℕ → ℕ → ℕ
  scanned none initial = initial
  scanned (some n) initial = n

  -- A limit is printed as a text of digits.
  abbrev number : ℕ → Value
  number n = text (p.decimal (pos n))

  unfoldable pub m_vxdb_dx_limit_set : Request → M Reply
  m_vxdb_dx_limit_set request = do
    params ← method_init request VcdCap.dlim (m_owner + m_lock)
    name ← get_str "name" params
    spacep ← get_str "space" params
    inodesp ← get_str "inodes" params
    reserved ← get_int "reserved" params
    fault_if (not (p.str_isdigit spacep)) meinval
    fault_if (not (p.str_isdigit inodesp)) meinval
    let space = scanned (p.scan_u32 spacep) p.dlim_keep
    let inodes = scanned (p.scan_u32 inodesp) p.dlim_keep
    fault_if (not (validate_dlimits space inodes reserved)) meinval
    xid ← require_xid name
    exec_or_fault (
        replace "dx_limit" (
          ("xid", int (as_int xid))
          ∷ ("space", number space)
          ∷ ("inodes", number inodes)
          ∷ ("reserved", int reserved)
          ∷ [])
        ∷ [])
    pure nil

  unfoldable pub m_vxdb_dx_limit_get : Request → M Reply
  m_vxdb_dx_limit_get request = do
    params ← method_init request VcdCap.dlim m_owner
    name ← get_str "name" params
    xid ← require_xid name
    found ←
        fetch_one (select ("space" ∷ "inodes" ∷ "reserved" ∷ []) "dx_limit" (xid_is xid) unordered)
    pure (
        struct (elim found [
          | some r ↦
              ("space", str (vxdb_column_text r 0))
              ∷ ("inodes", str (vxdb_column_text r 1))
              ∷ ("reserved", num (vxdb_column_int r 2))
              ∷ []
          | none ↦ ("space", str "") ∷ ("inodes", str "") ∷ ("reserved", num (pos 0)) ∷ []
        ]))

  unfoldable pub m_vxdb_dx_limit_remove : Request → M Reply
  m_vxdb_dx_limit_remove request = do
    params ← method_init request VcdCap.dlim (m_owner + m_lock)
    name ← get_str "name" params
    xid ← require_xid name
    exec_or_fault (delete "dx_limit" (xid_is xid) ∷ [])
    pure nil

  -- The types of limit that are kept in pages.
  abbrev pub limtype : List String
  limtype = "ANON" ∷ "AS" ∷ "MAPPED" ∷ "MEMLOCK" ∷ "RSS" ∷ "SHMEM" ∷ []

  unfoldable pub bytestopages : ℕ → ℕ
  bytestopages bytes = bytes * 1024 % 2 ^ 64 / p.getpagesize

  unfoldable pub pagestobytes : ℕ → ℕ
  pagestobytes pages = pages * p.getpagesize % 2 ^ 64 / 1024

  -- The loop over LIMTYPE: the conversion is made for each entry that the type equals.
  unfoldable pub convert_limit : (ℕ → ℕ) → String → List String → ℕ → ℕ
  convert_limit f type [] n = n
  convert_limit f type (t ∷ ts) n = convert_limit f type ts (if str_equal type t then f n else n)

  unfoldable pub m_vxdb_vx_limit_set : Request → M Reply
  m_vxdb_vx_limit_set request = do
    params ← method_init request VcdCap.rlim (m_owner + m_lock)
    name ← get_str "name" params
    type ← get_str "type" params
    softp ← get_str "soft" params
    maxp ← get_str "max" params
    fault_if (not (p.str_isdigit softp)) meinval
    fault_if (not (p.str_isdigit maxp)) meinval
    let soft = scanned (p.scan_u64 softp) p.rlim_keep
    let max = scanned (p.scan_u64 maxp) p.rlim_keep
    fault_if (not (validate_rlimit type)) meinval
    fault_if (not (validate_rlimits soft max)) meinval
    xid ← require_xid name
    exec_or_fault (
        replace "vx_limit" (
          ("xid", int (as_int xid))
          ∷ ("type", text type)
          ∷ ("soft", number (convert_limit bytestopages type limtype soft))
          ∷ ("max", number (convert_limit bytestopages type limtype max))
          ∷ [])
        ∷ [])
    pure nil

  abbrev limit_struct : Record → Params
  limit_struct r =
      let type = vxdb_column_text r 0 in
      ("type", str type)
      ∷ (
        "soft",
        str (p.decimal (pos (convert_limit pagestobytes type limtype (vxdb_column_uint64 r 1)))),
      )
      ∷ (
        "max",
        str (p.decimal (pos (convert_limit pagestobytes type limtype (vxdb_column_uint64 r 2)))),
      )
      ∷ []

  unfoldable pub m_vxdb_vx_limit_get : Request → M Reply
  m_vxdb_vx_limit_get request = do
    params ← method_init request VcdCap.rlim m_owner
    name ← get_str "name" params
    text_of_type ← get_str "type" params
    let type = method_empty_params text_of_type
    fault_if (given_and_not type validate_rlimit) meinval
    xid ← require_xid name
    rows ← fetch (elim type [
      | none ↦ select ("type" ∷ "soft" ∷ "max" ∷ []) "vx_limit" (xid_is xid) unordered
      | some t ↦
          select ("type" ∷ "soft" ∷ "max" ∷ []) "vx_limit"
            (("xid", int (as_int xid)) ∷ ("type", text t) ∷ []) unordered
    ])
    pure (structs (map limit_struct rows))

  unfoldable pub m_vxdb_vx_limit_remove : Request → M Reply
  m_vxdb_vx_limit_remove request = do
    params ← method_init request VcdCap.rlim (m_owner + m_lock)
    name ← get_str "name" params
    text_of_type ← get_str "type" params
    let type = method_empty_params text_of_type
    fault_if (given_and_not type validate_rlimit) meinval
    xid ← require_xid name
    exec_or_fault (elim type [
      | none ↦ delete "vx_limit" (xid_is xid) ∷ []
      | some t ↦ delete "vx_limit" (("xid", int (as_int xid)) ∷ ("type", text t) ∷ []) ∷ []
    ])
    pure nil
