-- ===== src/Methods/Vxdb/Names.antt =====
-- src/vcd/methods/vxdb/vxdb_owner_{add,get,remove}.c, vxdb_list.c and vxdb_{name,xid,vdir}_get.c: the
-- owners, names and directories of virtual servers.
pub mod Owners
use vcd.Base.{
  ◌+◌, not, String, List, [], ◌∷◌, map, Option, none, some, if◌then◌else◌, ◌%◌, ◌^◌, ◌-◌, ℕ,
  str_equal,
}
use vcd.Base.Int.{as_int, ℤ, pos, negsuc, eqb_ℤ}
use vcd.Sql.{int, replace, delete, select, join, unordered, asc}
use vcd.Platform.{Platform}
use vcd.Lists.VcdCap
use vcd.Validate.{validate_username}
use vcd.Vxdb.{vxdb_column_text, vxdb_getname, vxdb_getvdir}
use vcd.Auth.{auth_getuid, auth_isadmin}
use vcd.Call.{
  M, pure, raise, asks, xmlrpc, ◌>>=◌, ◌>>◌, fault_if, str, num, Request, external, internal,
  get_str, get_int, Reply, nil, one, strings, exec_or_fault, fetch,
}
use vcd.Methods.{meinval, menouser, menovps, meperm, method_init, method_empty_params}
use vcd.Methods.Common.{xid_is, given_and_not, require_xid, require_uid}

module _ ⦃p : Platform⦄ where
  unfoldable pub m_vxdb_owner_add : Request → M Reply
  m_vxdb_owner_add request = do
    params ← method_init request VcdCap.auth 0
    name ← get_str "name" params
    user ← get_str "username" params
    uid ← require_uid user
    xid ← require_xid name
    exec_or_fault (replace "xid_uid_map" (("xid", int (as_int xid)) ∷ ("uid", int uid) ∷ []) ∷ [])
    pure nil

  unfoldable pub m_vxdb_owner_get : Request → M Reply
  m_vxdb_owner_get request = do
    params ← method_init request VcdCap.auth 0
    name ← get_str "name" params
    xid ← require_xid name
    rows ← fetch (join ("name" ∷ []) "user" "xid_uid_map" "uid" (xid_is xid) unordered)
    pure (strings (map (λ r. vxdb_column_text r 0) rows))

  -- `uid` stays 0 when no user is given, and a user that is given has another one.
  unfoldable pub m_vxdb_owner_remove : Request → M Reply
  m_vxdb_owner_remove request = do
    params ← method_init request VcdCap.auth 0
    name ← get_str "name" params
    text_of_user ← get_str "username" params
    let user = method_empty_params text_of_user
    xid ← require_xid name
    uid ← asks (λ db. elim user [ none ↦ pos 0 | some u ↦ auth_getuid db u ])
    fault_if (given_and_not user (λ _. not (eqb_ℤ uid (pos 0)))) menouser
    exec_or_fault (
        if eqb_ℤ uid (pos 0)
        then delete "xid_uid_map" (xid_is xid) ∷ []
        else delete "xid_uid_map" (("xid", int (as_int xid)) ∷ ("uid", int uid) ∷ []) ∷ [])
    pure nil

  abbrev or_novps : List String → M Reply
  or_novps [] = raise menovps
  or_novps (n ∷ ns) = pure (strings (n ∷ ns))

  -- The user whose virtual servers are listed, 0 for all of them.
  unfoldable pub listed_uid : String → Option String → M ℤ
  listed_uid curuser user = do
    isadmin ← asks (λ db. auth_isadmin db curuser)
    if isadmin then asks (λ db. elim user [ none ↦ pos 0 | some u ↦ auth_getuid db u ]) else (do
      fault_if (given_and_not user (λ u. str_equal curuser u)) meperm
      asks (λ db. auth_getuid db curuser))

  -- The parameters of this method are decomposed from the whole request.
  unfoldable pub m_vxdb_list : Request → M Reply
  m_vxdb_list (internal params) = do method_init (internal params) VcdCap.info 0; raise xmlrpc
  m_vxdb_list (external credentials params) = do
    method_init (external credentials params) VcdCap.info 0
    curuser ← get_str "username" credentials
    text_of_user ← get_str "username" params
    let user = method_empty_params text_of_user
    fault_if (given_and_not user validate_username) meinval
    uid ← listed_uid curuser user
    rows ← fetch (
        if eqb_ℤ uid (pos 0)
        then select ("name" ∷ []) "xid_name_map" [] (asc "name")
        else join ("name" ∷ []) "xid_name_map" "xid_uid_map" "xid" (("uid", int uid) ∷ [])
            (asc "name"))
    or_novps (map (λ r. vxdb_column_text r 0) rows)

  -- A context id is read as an int into an unsigned variable.
  abbrev pub to_xid : ℤ → ℕ
  to_xid (pos n) = n % 2 ^ 32
  to_xid (negsuc n) = (2 ^ 32 - (n + 1) % 2 ^ 32) % 2 ^ 32

  unfoldable pub m_vxdb_name_get : Request → M Reply
  m_vxdb_name_get request = do
    params ← method_init request VcdCap.info 0
    xid ← get_int "xid" params
    name ← asks (λ db. vxdb_getname db (to_xid xid))
    elim name [ none ↦ raise menovps | some n ↦ pure (one (str n)) ]

  unfoldable pub m_vxdb_xid_get : Request → M Reply
  m_vxdb_xid_get request = do
    params ← method_init request VcdCap.info 0
    name ← get_str "name" params
    xid ← require_xid name
    pure (one (num (pos xid)))

  -- A name has a directory whenever str_path_concat gives one.
  unfoldable pub m_vxdb_vdir_get : Request → M Reply
  m_vxdb_vdir_get request = do
    params ← method_init request VcdCap.info 0
    name ← get_str "name" params
    require_xid name
    vdir ← asks (λ db. vxdb_getvdir db name)
    elim vdir [ none ↦ raise xmlrpc | some v ↦ pure (one (str v)) ]
