-- ===== src/Methods.antt =====
-- src/vcd/methods.c and methods.h: the codes of the faults, the gate that every method passes, and
-- the lock on a virtual server.
pub mod Common
pub mod User
pub mod Group
pub mod Registry
pub mod Gate
pub mod Frame
pub mod Grant
pub mod Open
pub mod Passing
pub mod Isolation
pub mod Vxdb
pub mod Server
pub mod Status
pub mod Running
pub mod Create
pub mod Report
pub mod Helper
use vcd.Base.{
  ℕ, Bool, true, false, not, ◌&&◌, String, List, [], ◌∷◌, Option, none, some, if◌then◌else◌, ◌==◌,
  ltb, bit_and,
}
use vcd.Sql.{Stmt, count}
use vcd.Platform.{Platform}
use vcd.Validate.{validate_name, str_isempty}
use vcd.Auth.{auth_isvalid, auth_capable, auth_isowner}
use vcd.Call.{
  Fault, code, M, pure, raise, asks, ◌>>=◌, ◌>>◌, Params, Request, external, internal, get_str,
  vxdb_exec,
}

abbrev pub meauth : Fault
meauth = code 100

abbrev pub meperm : Fault
meperm = code 101

abbrev pub menouser : Fault
menouser = code 102

abbrev pub meinval : Fault
meinval = code 200

abbrev pub meexist : Fault
meexist = code 201

abbrev pub menovps : Fault
menovps = code 202

abbrev pub menovg : Fault
menovg = code 203

abbrev pub mestopped : Fault
mestopped = code 300

abbrev pub merunning : Fault
merunning = code 301

abbrev pub mebusy : Fault
mebusy = code 302

abbrev pub mevxdb : Fault
mevxdb = code 400

abbrev pub meconf : Fault
meconf = code 401

abbrev pub mesys : Fault
mesys = code 500

abbrev pub m_owner : ℕ
m_owner = 1

abbrev pub m_lock : ℕ
m_lock = 2

abbrev pub method_error_codes : List (ℕ × String)
method_error_codes =
    (100, "Unauthorized")
    ∷ (101, "Operation not permitted")
    ∷ (200, "Invalid request")
    ∷ (400, "Error in vxdb")
    ∷ (401, "Invalid configuration")
    ∷ (102, "User does not exist")
    ∷ (300, "Virtual server not running")
    ∷ (301, "Virtual server still/already running")
    ∷ (201, "Object already exists")
    ∷ (202, "Virtual server does not exist")
    ∷ (203, "Virtual server group does not exist")
    ∷ (302, "Operation still in progress")
    ∷ (500, "System call failed")
    ∷ (1000, "Command execution failed")
    ∷ []

unfoldable pub message_of : ℕ → List (ℕ × String) → String
message_of id [] = "Unknown error"
message_of id ((i, msg) ∷ l) = if i == id then msg else message_of id l

-- A command's exit status is added to MEEXEC, the last code.
unfoldable pub method_strerror : ℕ → String
method_strerror id = message_of (if ltb 1000 id then 1000 else id) method_error_codes

-- method_empty_params for one parameter: an empty text is NULL.
unfoldable pub method_empty_params : String → Option String
method_empty_params s = if str_isempty s then none else some s

module _ ⦃p : Platform⦄ where
  -- The lock file is named after the virtual server. It stays open when the lock is not granted.
  unfoldable pub method_lock : String → M (Unit {0})
  method_lock name s = elim s.lockfd [
    | some held ↦ raise mebusy s
    | none ↦
        let s' = record s { lockfd = some name } in
        if p.lock_held name then raise mebusy s' else pure tt s'
  ]

  -- `user` is NULL and `c` is set for a call from another method.
  unfoldable pub method_check_flags : Params → Bool → Option String → ℕ → M (Unit {0})
  method_check_flags params c user flags = do
    name ← get_str "name" params
    isowner ← asks (λ db. elim user [ none ↦ true | some u ↦ auth_isowner db u name ])
    if not (validate_name name)
        then raise meinval
        else if not (bit_and flags m_owner == 0) && not isowner
        then raise menovps
        else if not c && not (bit_and flags m_lock == 0)
        then method_lock name
        else pure tt

  abbrev pub requests : List Stmt
  requests = count ("requests" ∷ []) ∷ []

  abbrev pub flogins : List Stmt
  flogins = count ("flogins" ∷ []) ∷ []

  -- The tests of method_init on a client's credentials, and on the parameters if there are flags.
  unfoldable pub method_authorize : String → String → Params → ℕ → ℕ → M Params
  method_authorize user pass params caps flags = do
    isvalid ← asks (λ db. auth_isvalid db user pass)
    capable ← asks (λ db. auth_capable db user caps)
    if not isvalid
        then (do vxdb_exec flogins; raise meauth)
        else if not capable
        then raise meperm
        else if not (flags == 0)
        then (do method_check_flags params false (some user) flags; pure params)
        else pure params

  -- The gate of a method that needs the capabilities `caps`, with the flags M_OWNER and M_LOCK. It
  -- gives the parameters of the request.
  unfoldable pub method_init : Request → ℕ → ℕ → M Params
  method_init (external credentials params) caps flags = do
    vxdb_exec requests
    user ← get_str "username" credentials
    pass ← get_str "password" credentials
    method_authorize user pass params caps flags
  method_init (internal params) caps flags =
      if not (flags == 0)
      then (do method_check_flags params true none flags; pure params)
      else pure params
