-- ===== src/Methods/Create.antt =====
-- src/vcd/methods/vx/vx_create.c: a new virtual server, or an old one that is built again.
pub mod Files
pub mod Ids
pub mod Entries
pub mod Allowed
use vcd.Base.{
  ℕ, Bool, true, false, not, ◌&&◌, ◌||◌, String, List, [], ◌∷◌, Option, none, some, if◌then◌else◌,
  ltb, ◌==◌, len,
}
use vcd.Platform.{Platform}
use vcd.Kernel.{Info, runlink}
use vcd.Lists.VcdCap
use vcd.Validate.{str_isempty, validate_path}
use vcd.Vxdb.{vxdb_getxid, vxdb_getvdir}
use vcd.Auth.{auth_isowner, auth_isadmin}
use vcd.Call.{
  Fault, M, pure, raise, reads, looks, xmlrpc, ◌>>=◌, ◌>>◌, fault_if, Params, Request, external,
  internal, get_str, get_bool, Reply, nil,
}
use vcd.Call.Sys.{sys, is_alive}
use vcd.Methods.{meinval, meconf, meexist, merunning, menovps, meperm, m_lock, method_init}
use vcd.Methods.Common.{is_none, text_of}
use Files.{fill_root}
use Ids.{find_free_xid}
use Entries.{create_vxdb_entries}

module _ ⦃p : Platform⦄ where
  -- The user may rebuild the virtual server, with force and while it does not run, or make a new one.
  -- A user who is not the owner gets the fault of one that does not exist.
  unfoldable pub may_build : String → String → Bool → ℕ → M (Unit {0})
  may_build user name force xid = do
    isowner ← reads (λ db. auth_isowner db user name)
    isadmin ← reads (λ db. auth_isadmin db user)
    info ← looks (λ h. p.vx_info h xid)
    if not (xid == 0)
        then (if isowner
            then (if not force
                then raise meexist
                else if is_alive info
                then raise merunning
                else pure tt)
            else raise menovps)
        else if not isadmin
        then raise meperm
        else pure tt

  -- The directory that the request names counts for an admin.
  abbrev pub chosen_vdir : Bool → String → String → String
  chosen_vdir isadmin vdir stored = if str_isempty vdir || not isadmin then stored else vdir

  abbrev pub drop_old : ℕ → String → M (Unit {0})
  drop_old xid oldvdir =
      if xid == 0
      then pure tt
      else (do fault_if (not (validate_path oldvdir)) meconf; sys (runlink oldvdir); pure tt)

  -- The id of the virtual server that has been built.
  unfoldable pub build_root_filesystem : ℕ → String → String → String → Bool → M ℕ
  unfolding find_free_xid fill_root
  build_root_filesystem xid name vdir tdir copy = do
    oldvdir ← reads (λ db. text_of (vxdb_getvdir db name))
    drop_old xid oldvdir
    sys (runlink vdir)
    new ← find_free_xid xid
    fill_root new vdir tdir copy
    pure new

  -- The user name and the struct of a request; a call from another method has no user name.
  abbrev pub user_of : Request → M String
  user_of (external credentials params) = get_str "username" credentials
  user_of (internal params) = raise xmlrpc

  abbrev pub params_of : Request → Params
  params_of (external credentials params) = params
  params_of (internal params) = params

  -- `str_path_concat`, or MEINVAL.
  abbrev pub path_or_fault : Option String → M String
  path_or_fault none = raise meinval
  path_or_fault (some path) = pure path

  unfoldable pub template_dir : String → M String
  template_dir template = do
    fault_if (str_isempty template || not (p.str_isgraph template)) meinval
    has_base ← looks (λ h. p.isdir h p.templatedir)
    fault_if (not (validate_path p.templatedir) || not has_base) meconf
    tdir ← path_or_fault (p.str_path_concat p.templatedir template)
    has_template ← looks (λ h. p.isdir h tdir)
    fault_if (not has_template) meinval
    pure tdir

  unfoldable pub new_vdir : String → String → String → Bool → M String
  new_vdir user name vdir force = do
    isadmin ← reads (λ db. auth_isadmin db user)
    stored ← reads (λ db. text_of (vxdb_getvdir db name))
    let dir = chosen_vdir isadmin vdir stored
    fault_if (not (validate_path dir)) meinval
    fault_if (ltb 31 (len dir)) meinval
    there ← looks (λ h. p.ispath h dir)
    fault_if (not force && there) meexist
    pure dir

  -- The part behind the gate.
  unfoldable pub create_rest : Request → M Reply
  unfolding may_build build_root_filesystem template_dir new_vdir create_vxdb_entries
  create_rest request = do
    user ← user_of request
    let params = params_of request
    name ← get_str "name" params
    template ← get_str "template" params
    force ← get_bool "force" params
    copy ← get_bool "copy" params
    vdir ← get_str "vdir" params
    tdir ← template_dir template
    xid ← reads (λ db. vxdb_getxid db name)
    may_build user name force xid
    dir ← new_vdir user name vdir force
    new ← build_root_filesystem xid name dir tdir copy
    create_vxdb_entries new name dir tdir
    pure nil

  unfoldable pub m_vx_create : Request → M Reply
  unfolding create_rest
  m_vx_create request = do method_init request VcdCap.create m_lock; create_rest request
