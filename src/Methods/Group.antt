-- ===== src/Methods/Group.antt =====
-- src/vcd/methods/vg/vg_{add,list,remove}.c and vg_internal.c: groups of virtual servers.
pub mod Running
pub mod Removal
use vcd.Base.{not, String, List, [], ◌∷◌, map, none, some, if◌then◌else◌, str_equal}
use vcd.Base.Int.{as_int, suc_int, ℤ, pos, eqb_ℤ}
use vcd.Sql.{Contents, int, text, insert, delete, select, join, limit_one, unordered, asc, desc}
use vcd.Sql.Answers.{Record}
use vcd.Platform.{Platform}
use vcd.Lists.VcdCap
use vcd.Validate.{str_isempty, validate_name, validate_group}
use vcd.Vxdb.{first_row, vxdb_column_text, vxdb_column_int, vxdb_getgid}
use vcd.Call.{
  M, pure, raise, asks, ◌>>=◌, ◌>>◌, fault_if, Request, get_str, Reply, nil, strings, exec_or_fault,
  fetch,
}
use vcd.Methods.{meinval, menovg, method_init}
use vcd.Methods.Common.{require_xid}

module _ ⦃p : Platform⦄ where
  -- The id of a group that vg.add has to make: one above the highest.
  unfoldable pub next_gid : Contents → ℤ
  next_gid db =
      elim (first_row (p.prepare (limit_one (select ("gid" ∷ []) "groups" [] (desc "gid"))) db)) [
        | none ↦ pos 1
        | some r ↦ suc_int (vxdb_column_int r 0)
      ]

  unfoldable pub group_or_new : String → M ℤ
  group_or_new group = do
    gid ← asks (λ db. vxdb_getgid db group)
    new ← asks next_gid
    if not (eqb_ℤ gid (pos 0)) then pure gid else (do
      exec_or_fault (insert "groups" (("gid", int new) ∷ ("name", text group) ∷ []) ∷ [])
      pure new)

  unfoldable pub m_vg_add : Request → M Reply
  m_vg_add request = do
    params ← method_init request VcdCap.auth 0
    group ← get_str "group" params
    name ← get_str "name" params
    fault_if (not (validate_group group)) meinval
    if str_equal group "all" then pure nil else do
      gid ← group_or_new group
      if str_isempty name then pure nil else do
        fault_if (not (validate_name name)) meinval
        xid ← require_xid name
        exec_or_fault
            (insert "xid_gid_map" (("xid", int (as_int xid)) ∷ ("gid", int gid) ∷ []) ∷ [])
        pure nil

  -- `if (!(gid = vxdb_getgid(group))) method_return_fault(env, MENOVG);`
  unfoldable pub require_gid : String → M ℤ
  require_gid group = do
    gid ← asks (λ db. vxdb_getgid db group)
    if eqb_ℤ gid (pos 0) then raise menovg else pure gid

  unfoldable pub m_vg_remove : Request → M Reply
  m_vg_remove request = do
    params ← method_init request VcdCap.auth 0
    group ← get_str "group" params
    name ← get_str "name" params
    fault_if (not (validate_group group)) meinval
    fault_if (str_equal group "all") meinval
    gid ← require_gid group
    if not (str_isempty name)
        then (do
          fault_if (not (validate_name name)) meinval
          xid ← require_xid name
          exec_or_fault
              (delete "xid_gid_map" (("xid", int (as_int xid)) ∷ ("gid", int gid) ∷ []) ∷ [])
          pure nil)
        else (do
          exec_or_fault (
              delete "xid_gid_map" (("gid", int gid) ∷ [])
              ∷ delete "groups" (("gid", int gid) ∷ [])
              ∷ [])
          pure nil)

  unfoldable pub m_vg_list : Request → M Reply
  m_vg_list request = do
    params ← method_init request VcdCap.auth 0
    group ← get_str "group" params
    rows ←
        (if str_isempty group then fetch (select ("name" ∷ []) "groups" [] (asc "name")) else (do
          fault_if (not (validate_group group)) meinval
          fault_if (str_equal group "all") meinval
          gid ← require_gid group
          fetch (
              join ("name" ∷ []) "xid_name_map" "xid_gid_map" "xid" (("gid", int gid) ∷ [])
                (asc "name"))))
    pure (strings (map (λ r. vxdb_column_text r 0) rows))

  -- vg_list_init: the members of a group. list_add puts each new one in front.
  abbrev prepend : List (ℤ × String) → List Record → List (ℤ × String)
  prepend vxs [] = vxs
  prepend vxs (r ∷ rs) = prepend ((vxdb_column_int r 0, vxdb_column_text r 1) ∷ vxs) rs

  unfoldable pub vg_list_init : String → M (List (ℤ × String))
  vg_list_init group = do
    fault_if (not (validate_group group)) meinval
    rows ←
        (if str_equal group "all"
          then fetch (select ("xid" ∷ "name" ∷ []) "xid_name_map" [] unordered)
          else (do
            gid ← require_gid group
            fetch (
                join ("xid" ∷ "name" ∷ []) "xid_name_map" "xid_gid_map" "xid"
                  (("gid", int gid) ∷ []) unordered)))
    pure (prepend [] rows)
