-- ===== src/Call.antt =====
-- One call of a method: the state that it finds, the fault that it may set, and the parameters of
-- an XML-RPC request. `xmlrpc_env` with its macros (src/vcd/methods.h) is a result.
pub mod Laws
pub mod Keeps
pub mod Fetch
pub mod Sys
pub mod Loops
use vcd.Base.{
  ℕ, Bool, true, false, String, List, [], ◌∷◌, Option, none, some, if◌then◌else◌, str_equal,
}
use vcd.Base.Int.{ℤ}
use vcd.Sql.{Contents, Stmt, Query}
use vcd.Sql.Answers.{Record, Steps, row, done}
use vcd.Platform.{Platform}
use vcd.Kernel.{Syscall, Info}
use vcd.Vxdb.{vxdb_step, vxdb_foreach_step}

-- The database, the lock file that the process holds open, and the calls that it has made of the
-- kernel and of the file system, the oldest first.
pub record State : Type 0 where
  pub db : Contents
  pub lockfd : Option String
  pub calls : List Syscall

-- A fault of a method has one of the codes of methods.h; a request that does not decompose gets a
-- fault of the XML-RPC library.
pub data Fault : Type 0 where
  code : ℕ → Fault
  xmlrpc : Fault

pub data Result {ℓ} (A : Type ℓ) : Type ℓ where
  ok : A → Result A
  fault : Fault → Result A

abbrev pub M {ℓ} : Type ℓ → Type ℓ
M A = State → Result A × State

module _ {ℓ} {A : Type ℓ} where
  abbrev pub pure : A → M A
  pure a s = (ok a, s)

  -- method_return_fault
  abbrev pub raise : Fault → M A
  raise f s = (fault f, s)

  -- A read of the database.
  abbrev pub asks : (Contents → A) → M A
  asks f s = (ok (f s.db), s)

  -- The same as a step that proofs keep shut.
  unfoldable pub reads : (Contents → A) → M A
  reads f s = (ok (f s.db), s)

module _ {A : Type 0} where
  -- A question to the kernel or to the file system.
  unfoldable pub looks : (List Syscall → A) → M A
  looks f s = (ok (f s.calls), s)

module _ {ℓ κ} {A : Type ℓ} {B : Type κ} where
  abbrev pub continue : Result A → (A → M B) → M B
  continue (ok a) f s = f a s
  continue (fault e) f s = (fault e, s)

module _ {A B : Type 0} where
  infixl 10 ◌>>=◌ ◌>>◌
  abbrev pub ◌>>=◌ : M A → (A → M B) → M B
  ◌>>=◌ m f s = let (r, s') = m s in continue r f s'

  abbrev pub ◌>>◌ : M A → M B → M B
  m >> n = m >>= λ _. n

-- Set a fault and return, if the test holds.
unfoldable pub fault_if : Bool → Fault → M (Unit {0})
fault_if true f = raise f
fault_if false f = pure tt

-- A member of a request's struct.
pub data Member : Type 0 where
  str : String → Member
  num : ℤ → Member
  flag : Bool → Member

abbrev pub Params : Type 0
Params = List (String × Member)

-- A request from a client has the credentials and the parameters; a method that calls another one
-- passes METHOD_INTERNAL and the parameters alone.
pub data Request : Type 0 where
  external : Params → Params → Request
  internal : Params → Request

-- xmlrpc_decompose_value for one member of a struct.
unfoldable pub member : String → Params → Option Member
member k [] = none
member k ((j, v) ∷ ps) = if str_equal j k then some v else member k ps

abbrev as_str : Option Member → M String
as_str (some (str s)) = pure s
as_str _ = raise xmlrpc

abbrev as_int : Option Member → M ℤ
as_int (some (num z)) = pure z
as_int _ = raise xmlrpc

abbrev as_bool : Option Member → M Bool
as_bool (some (flag b)) = pure b
as_bool _ = raise xmlrpc

unfoldable pub get_str : String → Params → M String
unfolding member
get_str k ps = as_str (member k ps)

unfoldable pub get_int : String → Params → M ℤ
unfolding member
get_int k ps = as_int (member k ps)

unfoldable pub get_bool : String → Params → M Bool
unfolding member
get_bool k ps = as_bool (member k ps)

-- What a method returns.
pub data Reply : Type 0 where
  nil : Reply
  one : Member → Reply
  struct : Params → Reply
  strings : List String → Reply
  structs : List Params → Reply

module _ ⦃p : Platform⦄ where
  abbrev pub committed : State → Option Contents → Bool × State
  committed s none = (false, s)
  committed s (some d) = (true, record s { db = d })

  -- vxdb_exec: whether the code is VXDB_OK. Where it is not, what is committed stays as it is.
  unfoldable pub vxdb_exec : List Stmt → M Bool
  vxdb_exec ss s = let (rc, s') = committed s (p.exec ss s.db) in (ok rc, s')

  -- `rc = vxdb_exec(…); if (rc != VXDB_OK) method_return_vxdb_fault(env);`
  unfoldable pub exec_or_fault : List Stmt → M (Unit {0})
  exec_or_fault ss = do rc ← vxdb_exec ss; if rc then pure tt else raise (code 400)

  abbrev pub all_rows : List Record × Bool → M (List Record)
  all_rows (rs, true) = pure rs
  all_rows (rs, false) = raise (code 400)

  abbrev pub step_rows : Option Steps → M (List Record)
  step_rows none = raise (code 400)
  step_rows (some steps) = all_rows (vxdb_foreach_step steps)

  -- Prepare, step to the end, and a vxdb fault unless that went well.
  unfoldable pub fetch : Query → M (List Record)
  unfolding vxdb_foreach_step
  fetch q s = step_rows (p.prepare q s.db) s

  abbrev pub step_one : Steps → M (Option Record)
  step_one (row r steps) = pure (some r)
  step_one done = pure none
  step_one _ = raise (code 400)

  abbrev pub prepare_one : Option Steps → M (Option Record)
  prepare_one none = raise (code 400)
  prepare_one (some steps) = step_one (vxdb_step steps)

  -- Prepare and step once: a row, none, or a vxdb fault.
  unfoldable pub fetch_one : Query → M (Option Record)
  unfolding vxdb_step
  fetch_one q s = prepare_one (p.prepare q s.db) s
