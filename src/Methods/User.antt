-- ===== src/Methods/User.antt =====
-- src/vcd/methods/vcd/vcd_login.c and vcd_user_*.c: the users of the daemon and their capabilities.
pub mod Accounts
pub mod Removal
use vcd.Base.{Bool, not, String, [], ◌∷◌, map, Option, none, some, if◌then◌else◌}
use vcd.Base.Int.{ℤ, pos, eqb_ℤ}
use vcd.Sql.{Value, int, text, insert, replace, delete, update, select, unordered, asc}
use vcd.Platform.{Platform}
use vcd.Lists.VcdCap
use vcd.Validate.{validate_username, validate_password, validate_vcd_cap}
use vcd.Vxdb.{vxdb_column_text, vxdb_column_int}
use vcd.Auth.{whirlpool_pass, auth_getuid, auth_getnextuid}
use vcd.Call.{
  M, pure, raise, asks, ◌>>=◌, ◌>>◌, fault_if, str, num, Request, get_str, get_bool, Reply, nil,
  strings, structs, exec_or_fault, fetch,
}
use vcd.Methods.{meinval, method_init, method_empty_params}
use vcd.Methods.Common.{given_and_not, require_uid}

module _ ⦃p : Platform⦄ where
  unfoldable pub m_vcd_login : Request → M Reply
  m_vcd_login request = do method_init request 0 0; pure nil

  unfoldable pub m_vcd_user_caps_add : Request → M Reply
  m_vcd_user_caps_add request = do
    params ← method_init request VcdCap.auth 0
    user ← get_str "username" params
    cap ← get_str "cap" params
    fault_if (not (validate_vcd_cap cap)) meinval
    uid ← require_uid user
    exec_or_fault (replace "user_caps" (("uid", int uid) ∷ ("cap", text cap) ∷ []) ∷ [])
    pure nil

  unfoldable pub m_vcd_user_caps_get : Request → M Reply
  m_vcd_user_caps_get request = do
    params ← method_init request VcdCap.auth 0
    user ← get_str "username" params
    uid ← require_uid user
    rows ← fetch (select ("cap" ∷ []) "user_caps" (("uid", int uid) ∷ []) unordered)
    pure (strings (map (λ r. vxdb_column_text r 0) rows))

  unfoldable pub m_vcd_user_caps_remove : Request → M Reply
  m_vcd_user_caps_remove request = do
    params ← method_init request VcdCap.auth 0
    user ← get_str "username" params
    text_of_cap ← get_str "cap" params
    let cap = method_empty_params text_of_cap
    fault_if (given_and_not cap validate_vcd_cap) meinval
    uid ← require_uid user
    exec_or_fault (elim cap [
      | none ↦ delete "user_caps" (("uid", int uid) ∷ []) ∷ []
      | some v ↦ delete "user_caps" (("uid", int uid) ∷ ("cap", text v) ∷ []) ∷ []
    ])
    pure nil

  unfoldable pub m_vcd_user_get : Request → M Reply
  m_vcd_user_get request = do
    params ← method_init request VcdCap.auth 0
    text_of_user ← get_str "username" params
    let user = method_empty_params text_of_user
    fault_if (given_and_not user validate_username) meinval
    rows ← fetch (elim user [
      | none ↦ select ("name" ∷ "uid" ∷ "admin" ∷ []) "user" [] (asc "uid")
      | some u ↦ select ("name" ∷ "uid" ∷ "admin" ∷ []) "user" (("name", text u) ∷ []) unordered
    ])
    pure (
        structs (
          map
            (λ r.
              ("username", str (vxdb_column_text r 0))
              ∷ ("uid", num (vxdb_column_int r 1))
              ∷ ("admin", num (vxdb_column_int r 2))
              ∷ [])
            rows))

  unfoldable pub m_vcd_user_remove : Request → M Reply
  m_vcd_user_remove request = do
    params ← method_init request VcdCap.auth 0
    user ← get_str "username" params
    uid ← require_uid user
    exec_or_fault (
        delete "xid_uid_map" (("uid", int uid) ∷ [])
        ∷ delete "user_caps" (("uid", int uid) ∷ [])
        ∷ delete "user" (("uid", int uid) ∷ [])
        ∷ [])
    pure nil

  abbrev flag_value : Bool → Value
  flag_value b = int (pos (if b then 1 else 0))

  -- A user that does not exist yet.
  unfoldable pub create_user : String → Option String → Bool → M Reply
  create_user user none admin = raise meinval
  create_user user (some pass) admin = do
    fault_if (not (validate_password (some pass))) meinval
    uid ← asks auth_getnextuid
    exec_or_fault (
        insert "user" (
          ("uid", int uid)
          ∷ ("name", text user)
          ∷ ("password", text (whirlpool_pass pass))
          ∷ ("admin", flag_value admin)
          ∷ [])
        ∷ [])
    pure nil

  -- The part of m_vcd_user_set that follows the update of `admin`.
  unfoldable pub set_password : ℤ → Option String → M Reply
  set_password uid none = pure nil
  set_password uid (some pass) = do
    fault_if (not (validate_password (some pass))) meinval
    exec_or_fault
        (update "user" "password" (text (whirlpool_pass pass)) (("uid", int uid) ∷ []) ∷ [])
    pure nil

  unfoldable pub m_vcd_user_set : Request → M Reply
  m_vcd_user_set request = do
    params ← method_init request VcdCap.auth 0
    user ← get_str "username" params
    text_of_pass ← get_str "password" params
    admin ← get_bool "admin" params
    let pass = method_empty_params text_of_pass
    fault_if (not (validate_username user)) meinval
    uid ← asks (λ db. auth_getuid db user)
    if eqb_ℤ uid (pos 0) then create_user user pass admin else (do
      exec_or_fault (update "user" "admin" (flag_value admin) (("uid", int uid) ∷ []) ∷ [])
      set_password uid pass)
