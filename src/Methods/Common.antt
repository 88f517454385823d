-- ===== src/Methods/Common.antt =====
-- The steps that the methods share.
use vcd.Base.{ℕ, Bool, String, [], ◌∷◌, Option, none, some, if◌then◌else◌, ◌==◌, str_cat}
use vcd.Base.Int.{as_int, ℤ, pos, eqb_ℤ}
use vcd.Sql.{int, Row}
use vcd.Platform.{Platform}
use vcd.Vxdb.{vxdb_getxid}
use vcd.Auth.{auth_getuid}
use vcd.Kernel.{VxUname}
use vcd.Call.{M, pure, raise, asks, ◌>>=◌}
use vcd.Methods.{menovps, menouser}

abbrev pub xid_is : ℕ → Row
xid_is xid = ("xid", int (as_int xid)) ∷ []

-- An optional argument that is given and does not pass its check.
abbrev pub given_and_not : Option String → (String → Bool) → Bool
given_and_not none check = Bool.false
given_and_not (some s) check = if check s then Bool.false else Bool.true

abbrev pub or_default : Option String → String → String
or_default none d = d
or_default (some s) d = s

module _ ⦃p : Platform⦄ where
  abbrev pub is_none : Option String → Bool
  is_none none = Bool.true
  is_none (some s) = Bool.false

  abbrev pub text_of : Option String → String
  text_of none = ""
  text_of (some s) = s

  -- `snprintf(unameb.value, 65, "%s:%s", name, vdir)`
  abbrev pub context_name : String → String → VxUname
  context_name name vdir = record {
    id = p.constant "VHIN_CONTEXT";
    value = p.first_bytes 64 (str_cat name (str_cat ":" vdir));
  }

  -- `if (!(xid = vxdb_getxid(name))) method_return_fault(env, MENOVPS);`
  unfoldable pub require_xid : String → M ℕ
  require_xid name = do
    xid ← asks (λ db. vxdb_getxid db name)
    if xid == 0 then raise menovps else pure xid

  -- `if (!(uid = auth_getuid(user))) method_return_fault(env, MENOUSER);`
  unfoldable pub require_uid : String → M ℤ
  require_uid user = do
    uid ← asks (λ db. auth_getuid db user)
    if eqb_ℤ uid (pos 0) then raise menouser else pure uid
