-- ===== src/Methods/Registry.antt =====
-- method_registry_init of src/vcd/methods.c: the methods by their names.
pub mod Demands
use vcd.Base.{ℕ, ◌+◌, String, List, [], ◌∷◌, Option, none, some, if◌then◌else◌, str_equal}
use vcd.Platform.{Platform}
use vcd.Lists.VcdCap
use vcd.Sql.{count}
use vcd.Call.{M, xmlrpc, raise, Request, Reply, vxdb_exec, ◌>>◌}
use vcd.Methods.{m_owner, m_lock}
use vcd.Methods.Status.{m_vcd_hostinfo, m_vcd_status}
use vcd.Methods.Create.{m_vx_create}
use vcd.Methods.Report.{m_vx_limstatus, m_vx_netstatus, m_vx_status}
use vcd.Methods.Report.Templates.{m_vx_templates}
use vcd.Methods.Running.{m_vx_exec, m_vx_kill, m_vx_reboot, m_vx_restart, m_vx_start, m_vx_stop}
use vcd.Methods.Group.Running.{m_vg_vx_reboot, m_vg_vx_restart, m_vg_vx_start, m_vg_vx_stop}
use vcd.Methods.Helper.{m_helper_startup}
use vcd.Methods.Helper.Network.{m_helper_netup}
use vcd.Methods.Helper.Shutdown.{m_helper_shutdown}
use vcd.Methods.Server.{m_helper_restart, m_vx_remove, m_vx_rename}
use vcd.Methods.User.{
  m_vcd_login, m_vcd_user_caps_add, m_vcd_user_caps_get, m_vcd_user_caps_remove, m_vcd_user_get,
  m_vcd_user_remove, m_vcd_user_set,
}
use vcd.Methods.Group.{m_vg_add, m_vg_list, m_vg_remove}
use vcd.Methods.Vxdb.Limits.{
  m_vxdb_dx_limit_get, m_vxdb_dx_limit_remove, m_vxdb_dx_limit_set, m_vxdb_vx_limit_get,
  m_vxdb_vx_limit_remove, m_vxdb_vx_limit_set,
}
use vcd.Methods.Vxdb.Startup.{
  m_vxdb_init_get, m_vxdb_init_set, m_vxdb_mount_get, m_vxdb_mount_remove, m_vxdb_mount_set,
}
use vcd.Methods.Vxdb.Names.{
  m_vxdb_list, m_vxdb_name_get, m_vxdb_owner_add, m_vxdb_owner_get, m_vxdb_owner_remove,
  m_vxdb_vdir_get, m_vxdb_xid_get,
}
use vcd.Methods.Vxdb.Network.{
  m_vxdb_nx_addr_get, m_vxdb_nx_addr_remove, m_vxdb_nx_addr_set, m_vxdb_nx_broadcast_get,
  m_vxdb_nx_broadcast_remove, m_vxdb_nx_broadcast_set,
}
use vcd.Methods.Vxdb.Flags.{
  m_vxdb_vx_bcaps_add, m_vxdb_vx_bcaps_get, m_vxdb_vx_bcaps_remove, m_vxdb_vx_ccaps_add,
  m_vxdb_vx_ccaps_get, m_vxdb_vx_ccaps_remove, m_vxdb_vx_flags_add, m_vxdb_vx_flags_get,
  m_vxdb_vx_flags_remove,
}
use vcd.Methods.Vxdb.Scheduler.{
  m_vxdb_vx_cpuset_get, m_vxdb_vx_cpuset_remove, m_vxdb_vx_cpuset_set, m_vxdb_vx_sched_get,
  m_vxdb_vx_sched_remove, m_vxdb_vx_sched_set, m_vxdb_vx_uname_get, m_vxdb_vx_uname_remove,
  m_vxdb_vx_uname_set,
}

pub data Method : Type 0 where
  helper_netup helper_restart helper_shutdown helper_startup : Method
  vcd_hostinfo vcd_status vg_vx_reboot vg_vx_restart vg_vx_start vg_vx_stop : Method
  vx_create vx_exec vx_kill vx_limstatus vx_netstatus vx_reboot : Method
  vx_remove vx_rename vx_restart vx_start vx_status vx_stop vx_templates : Method
  vcd_login vcd_user_caps_add vcd_user_caps_get vcd_user_caps_remove : Method
  vcd_user_get vcd_user_remove vcd_user_set vg_add : Method
  vg_list vg_remove vxdb_dx_limit_get vxdb_dx_limit_remove : Method
  vxdb_dx_limit_set vxdb_init_get vxdb_init_set vxdb_list : Method
  vxdb_mount_get vxdb_mount_remove vxdb_mount_set vxdb_name_get : Method
  vxdb_nx_addr_get vxdb_nx_addr_remove vxdb_nx_addr_set vxdb_nx_broadcast_get : Method
  vxdb_nx_broadcast_remove vxdb_nx_broadcast_set vxdb_owner_add vxdb_owner_get : Method
  vxdb_owner_remove vxdb_vdir_get vxdb_vx_bcaps_add vxdb_vx_bcaps_get : Method
  vxdb_vx_bcaps_remove vxdb_vx_ccaps_add vxdb_vx_ccaps_get vxdb_vx_ccaps_remove : Method
  vxdb_vx_cpuset_get vxdb_vx_cpuset_remove vxdb_vx_cpuset_set vxdb_vx_flags_add : Method
  vxdb_vx_flags_get vxdb_vx_flags_remove vxdb_vx_limit_get vxdb_vx_limit_remove : Method
  vxdb_vx_limit_set vxdb_vx_sched_get vxdb_vx_sched_remove vxdb_vx_sched_set : Method
  vxdb_vx_uname_get vxdb_vx_uname_remove vxdb_vx_uname_set vxdb_xid_get : Method

-- MREGISTER
abbrev pub registry : List (String × Method)
registry =
    ("helper.netup", helper_netup)
    ∷ ("helper.restart", helper_restart)
    ∷ ("helper.shutdown", helper_shutdown)
    ∷ ("helper.startup", helper_startup)
    ∷ ("vcd.hostinfo", vcd_hostinfo)
    ∷ ("vcd.login", vcd_login)
    ∷ ("vcd.status", vcd_status)
    ∷ ("vcd.user.caps.add", vcd_user_caps_add)
    ∷ ("vcd.user.caps.get", vcd_user_caps_get)
    ∷ ("vcd.user.caps.remove", vcd_user_caps_remove)
    ∷ ("vcd.user.get", vcd_user_get)
    ∷ ("vcd.user.remove", vcd_user_remove)
    ∷ ("vcd.user.set", vcd_user_set)
    ∷ ("vg.add", vg_add)
    ∷ ("vg.list", vg_list)
    ∷ ("vg.remove", vg_remove)
    ∷ ("vg.vx.reboot", vg_vx_reboot)
    ∷ ("vg.vx.restart", vg_vx_restart)
    ∷ ("vg.vx.start", vg_vx_start)
    ∷ ("vg.vx.stop", vg_vx_stop)
    ∷ ("vx.create", vx_create)
    ∷ ("vx.exec", vx_exec)
    ∷ ("vx.kill", vx_kill)
    ∷ ("vx.limstatus", vx_limstatus)
    ∷ ("vx.netstatus", vx_netstatus)
    ∷ ("vx.reboot", vx_reboot)
    ∷ ("vx.remove", vx_remove)
    ∷ ("vx.rename", vx_rename)
    ∷ ("vx.restart", vx_restart)
    ∷ ("vx.start", vx_start)
    ∷ ("vx.status", vx_status)
    ∷ ("vx.stop", vx_stop)
    ∷ ("vx.templates", vx_templates)
    ∷ ("vxdb.dx.limit.get", vxdb_dx_limit_get)
    ∷ ("vxdb.dx.limit.remove", vxdb_dx_limit_remove)
    ∷ ("vxdb.dx.limit.set", vxdb_dx_limit_set)
    ∷ ("vxdb.init.get", vxdb_init_get)
    ∷ ("vxdb.init.set", vxdb_init_set)
    ∷ ("vxdb.list", vxdb_list)
    ∷ ("vxdb.mount.get", vxdb_mount_get)
    ∷ ("vxdb.mount.remove", vxdb_mount_remove)
    ∷ ("vxdb.mount.set", vxdb_mount_set)
    ∷ ("vxdb.name.get", vxdb_name_get)
    ∷ ("vxdb.nx.addr.get", vxdb_nx_addr_get)
    ∷ ("vxdb.nx.addr.remove", vxdb_nx_addr_remove)
    ∷ ("vxdb.nx.addr.set", vxdb_nx_addr_set)
    ∷ ("vxdb.nx.broadcast.get", vxdb_nx_broadcast_get)
    ∷ ("vxdb.nx.broadcast.remove", vxdb_nx_broadcast_remove)
    ∷ ("vxdb.nx.broadcast.set", vxdb_nx_broadcast_set)
    ∷ ("vxdb.owner.add", vxdb_owner_add)
    ∷ ("vxdb.owner.get", vxdb_owner_get)
    ∷ ("vxdb.owner.remove", vxdb_owner_remove)
    ∷ ("vxdb.vdir.get", vxdb_vdir_get)
    ∷ ("vxdb.vx.bcaps.add", vxdb_vx_bcaps_add)
    ∷ ("vxdb.vx.bcaps.get", vxdb_vx_bcaps_get)
    ∷ ("vxdb.vx.bcaps.remove", vxdb_vx_bcaps_remove)
    ∷ ("vxdb.vx.ccaps.add", vxdb_vx_ccaps_add)
    ∷ ("vxdb.vx.ccaps.get", vxdb_vx_ccaps_get)
    ∷ ("vxdb.vx.ccaps.remove", vxdb_vx_ccaps_remove)
    ∷ ("vxdb.vx.cpuset.get", vxdb_vx_cpuset_get)
    ∷ ("vxdb.vx.cpuset.remove", vxdb_vx_cpuset_remove)
    ∷ ("vxdb.vx.cpuset.set", vxdb_vx_cpuset_set)
    ∷ ("vxdb.vx.flags.add", vxdb_vx_flags_add)
    ∷ ("vxdb.vx.flags.get", vxdb_vx_flags_get)
    ∷ ("vxdb.vx.flags.remove", vxdb_vx_flags_remove)
    ∷ ("vxdb.vx.limit.get", vxdb_vx_limit_get)
    ∷ ("vxdb.vx.limit.remove", vxdb_vx_limit_remove)
    ∷ ("vxdb.vx.limit.set", vxdb_vx_limit_set)
    ∷ ("vxdb.vx.sched.get", vxdb_vx_sched_get)
    ∷ ("vxdb.vx.sched.remove", vxdb_vx_sched_remove)
    ∷ ("vxdb.vx.sched.set", vxdb_vx_sched_set)
    ∷ ("vxdb.vx.uname.get", vxdb_vx_uname_get)
    ∷ ("vxdb.vx.uname.remove", vxdb_vx_uname_remove)
    ∷ ("vxdb.vx.uname.set", vxdb_vx_uname_set)
    ∷ ("vxdb.xid.get", vxdb_xid_get)
    ∷ []

unfoldable pub lookup_method : String → List (String × Method) → Option Method
lookup_method n [] = none
lookup_method n ((k, m) ∷ l) = if str_equal k n then some m else lookup_method n l

module _ ⦃p : Platform⦄ where
  unfoldable pub call : Method → Request → M Reply
  unfolding m_helper_netup m_helper_shutdown m_helper_startup m_vcd_hostinfo m_vcd_status
      m_vg_vx_reboot m_vg_vx_restart m_vg_vx_start m_vg_vx_stop m_vx_limstatus m_vx_netstatus
      m_vx_status m_vx_templates m_vx_create m_vx_exec m_vx_kill m_vx_reboot m_vx_restart m_vx_start
      m_vx_stop m_helper_restart m_vx_remove m_vx_rename m_vcd_login m_vcd_user_caps_add
      m_vcd_user_caps_get m_vcd_user_caps_remove m_vcd_user_get m_vcd_user_remove m_vcd_user_set
      m_vg_add m_vg_list m_vg_remove m_vxdb_dx_limit_get m_vxdb_dx_limit_remove m_vxdb_dx_limit_set
      m_vxdb_init_get m_vxdb_init_set m_vxdb_list m_vxdb_mount_get m_vxdb_mount_remove
      m_vxdb_mount_set m_vxdb_name_get m_vxdb_nx_addr_get m_vxdb_nx_addr_remove m_vxdb_nx_addr_set
      m_vxdb_nx_broadcast_get m_vxdb_nx_broadcast_remove m_vxdb_nx_broadcast_set m_vxdb_owner_add
      m_vxdb_owner_get m_vxdb_owner_remove m_vxdb_vdir_get m_vxdb_vx_bcaps_add m_vxdb_vx_bcaps_get
      m_vxdb_vx_bcaps_remove m_vxdb_vx_ccaps_add m_vxdb_vx_ccaps_get m_vxdb_vx_ccaps_remove
      m_vxdb_vx_cpuset_get m_vxdb_vx_cpuset_remove m_vxdb_vx_cpuset_set m_vxdb_vx_flags_add
      m_vxdb_vx_flags_get m_vxdb_vx_flags_remove m_vxdb_vx_limit_get m_vxdb_vx_limit_remove
      m_vxdb_vx_limit_set m_vxdb_vx_sched_get m_vxdb_vx_sched_remove m_vxdb_vx_sched_set
      m_vxdb_vx_uname_get m_vxdb_vx_uname_remove m_vxdb_vx_uname_set m_vxdb_xid_get
  call helper_netup = m_helper_netup
  call helper_restart = m_helper_restart
  call helper_shutdown = m_helper_shutdown
  call helper_startup = m_helper_startup
  call vx_create = m_vx_create
  call vx_exec = m_vx_exec
  call vx_kill = m_vx_kill
  call vx_limstatus = m_vx_limstatus
  call vx_netstatus = m_vx_netstatus
  call vx_reboot = m_vx_reboot
  call vx_remove = m_vx_remove
  call vx_rename = m_vx_rename
  call vx_restart = m_vx_restart
  call vx_start = m_vx_start
  call vx_status = m_vx_status
  call vx_stop = m_vx_stop
  call vx_templates = m_vx_templates
  call vcd_hostinfo = m_vcd_hostinfo
  call vcd_login = m_vcd_login
  call vcd_status = m_vcd_status
  call vcd_user_caps_add = m_vcd_user_caps_add
  call vcd_user_caps_get = m_vcd_user_caps_get
  call vcd_user_caps_remove = m_vcd_user_caps_remove
  call vcd_user_get = m_vcd_user_get
  call vcd_user_remove = m_vcd_user_remove
  call vcd_user_set = m_vcd_user_set
  call vg_add = m_vg_add
  call vg_list = m_vg_list
  call vg_remove = m_vg_remove
  call vg_vx_reboot = m_vg_vx_reboot
  call vg_vx_restart = m_vg_vx_restart
  call vg_vx_start = m_vg_vx_start
  call vg_vx_stop = m_vg_vx_stop
  call vxdb_dx_limit_get = m_vxdb_dx_limit_get
  call vxdb_dx_limit_remove = m_vxdb_dx_limit_remove
  call vxdb_dx_limit_set = m_vxdb_dx_limit_set
  call vxdb_init_get = m_vxdb_init_get
  call vxdb_init_set = m_vxdb_init_set
  call vxdb_list = m_vxdb_list
  call vxdb_mount_get = m_vxdb_mount_get
  call vxdb_mount_remove = m_vxdb_mount_remove
  call vxdb_mount_set = m_vxdb_mount_set
  call vxdb_name_get = m_vxdb_name_get
  call vxdb_nx_addr_get = m_vxdb_nx_addr_get
  call vxdb_nx_addr_remove = m_vxdb_nx_addr_remove
  call vxdb_nx_addr_set = m_vxdb_nx_addr_set
  call vxdb_nx_broadcast_get = m_vxdb_nx_broadcast_get
  call vxdb_nx_broadcast_remove = m_vxdb_nx_broadcast_remove
  call vxdb_nx_broadcast_set = m_vxdb_nx_broadcast_set
  call vxdb_owner_add = m_vxdb_owner_add
  call vxdb_owner_get = m_vxdb_owner_get
  call vxdb_owner_remove = m_vxdb_owner_remove
  call vxdb_vdir_get = m_vxdb_vdir_get
  call vxdb_vx_bcaps_add = m_vxdb_vx_bcaps_add
  call vxdb_vx_bcaps_get = m_vxdb_vx_bcaps_get
  call vxdb_vx_bcaps_remove = m_vxdb_vx_bcaps_remove
  call vxdb_vx_ccaps_add = m_vxdb_vx_ccaps_add
  call vxdb_vx_ccaps_get = m_vxdb_vx_ccaps_get
  call vxdb_vx_ccaps_remove = m_vxdb_vx_ccaps_remove
  call vxdb_vx_cpuset_get = m_vxdb_vx_cpuset_get
  call vxdb_vx_cpuset_remove = m_vxdb_vx_cpuset_remove
  call vxdb_vx_cpuset_set = m_vxdb_vx_cpuset_set
  call vxdb_vx_flags_add = m_vxdb_vx_flags_add
  call vxdb_vx_flags_get = m_vxdb_vx_flags_get
  call vxdb_vx_flags_remove = m_vxdb_vx_flags_remove
  call vxdb_vx_limit_get = m_vxdb_vx_limit_get
  call vxdb_vx_limit_remove = m_vxdb_vx_limit_remove
  call vxdb_vx_limit_set = m_vxdb_vx_limit_set
  call vxdb_vx_sched_get = m_vxdb_vx_sched_get
  call vxdb_vx_sched_remove = m_vxdb_vx_sched_remove
  call vxdb_vx_sched_set = m_vxdb_vx_sched_set
  call vxdb_vx_uname_get = m_vxdb_vx_uname_get
  call vxdb_vx_uname_remove = m_vxdb_vx_uname_remove
  call vxdb_vx_uname_set = m_vxdb_vx_uname_set
  call vxdb_xid_get = m_vxdb_xid_get

  -- method_default, for a name that is not registered.
  unfoldable pub method_default : Request → M Reply
  method_default request = do vxdb_exec (count ("requests" ∷ "nomethod" ∷ []) ∷ []); raise xmlrpc

  -- The registry of the XML-RPC server calls the method of the name, or the default.
  unfoldable pub dispatch : String → Request → M Reply
  dispatch name request = elim (lookup_method name registry) [
    | none ↦ method_default request
    | some m ↦ call m request
  ]
