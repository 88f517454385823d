-- ===== src/Methods/Helper.antt =====
-- src/vcd/methods/helper/helper_startup.c: the set-up of a virtual server at its start, step by step.
pub mod Disk
pub mod Context
pub mod Mounts
pub mod Network
pub mod Shutdown
pub mod Plan
use vcd.Base.{ℕ, not, String, List, [], ◌∷◌, Option}
use vcd.Sql.{Query, select, unordered}
use vcd.Sql.Answers.{Record}
use vcd.Platform.{Platform}
use vcd.Lists.VcdCap
use vcd.Vxdb.{vxdb_getname, vxdb_getvdir}
use vcd.Call.{
  M, pure, reads, looks, ◌>>=◌, ◌>>◌, fault_if, str, Request, get_int, Reply, struct, fetch,
}
use vcd.Call.Sys.{is_alive}
use vcd.Methods.{menovps, mestopped, meconf, method_init}
use vcd.Methods.Common.{xid_is, is_none, text_of}
use vcd.Methods.Vxdb.Names.{to_xid}
use vcd.Methods.Running.{last_text}
use Context.{
  context_caps_and_flags, context_disk_limits, context_resource_limits, context_scheduler,
  context_uname,
}
use Mounts.{context_cpuset, namespace_setup, namespace_mount}

module _ ⦃p : Platform⦄ where
  -- The steps of the set-up, each one up to the first fault.
  unfoldable pub set_up : ℕ → String → String → M (Unit {0})
  unfolding context_caps_and_flags context_disk_limits context_resource_limits context_scheduler
      context_uname context_cpuset namespace_setup namespace_mount
  set_up xid name vdir = do
    context_caps_and_flags xid
    context_disk_limits xid name
    context_resource_limits xid
    context_cpuset xid
    context_scheduler xid
    namespace_setup xid
    context_uname xid name vdir
    namespace_mount xid vdir

  abbrev pub init_query : ℕ → Query
  init_query xid = select ("init" ∷ []) "init" (xid_is xid) unordered

  unfoldable pub started : Option String → List Record → Reply
  unfolding last_text
  started vdir init =
      struct (("vdir", str (text_of vdir)) ∷ ("init", str (last_text "/sbin/init" init)) ∷ [])

  -- The part behind the gate, for the context id of the request.
  unfoldable pub start_up : ℕ → M Reply
  unfolding started set_up
  start_up xid = do
    name ← reads (λ db. vxdb_getname db xid)
    fault_if (is_none name) menovps
    info ← looks (λ h. p.vx_info h xid)
    fault_if (not (is_alive info)) mestopped
    vdir ← reads (λ db. vxdb_getvdir db (text_of name))
    fault_if (is_none vdir) meconf
    init ← fetch (init_query xid)
    set_up xid (text_of name) (text_of vdir)
    pure (started vdir init)

  unfoldable pub m_helper_startup : Request → M Reply
  unfolding start_up
  m_helper_startup request = do
    params ← method_init request VcdCap.helper 0
    xid ← get_int "xid" params
    start_up (to_xid xid)
