-- ===== src/Methods/Registry/Demands.antt =====
-- The capabilities and the flags that each method hands to method_init, as one table.
use vcd.Base.{ℕ, ◌+◌}
use vcd.Lists.VcdCap
use vcd.Methods.{m_owner, m_lock}
use vcd.Methods.Registry.{Method}

-- The capabilities that a method asks for.
unfoldable pub required_caps : Method → ℕ
required_caps Method.helper_netup = VcdCap.helper
required_caps Method.helper_shutdown = VcdCap.helper
required_caps Method.helper_startup = VcdCap.helper
required_caps Method.vcd_hostinfo = VcdCap.info
required_caps Method.vcd_status = VcdCap.info
required_caps Method.vg_vx_reboot = VcdCap.init
required_caps Method.vg_vx_restart = VcdCap.init
required_caps Method.vg_vx_start = VcdCap.init
required_caps Method.vg_vx_stop = VcdCap.init
required_caps Method.vx_create = VcdCap.create
required_caps Method.vx_limstatus = VcdCap.info
required_caps Method.vx_netstatus = VcdCap.info
required_caps Method.vx_status = VcdCap.info
required_caps Method.vx_templates = VcdCap.create
required_caps Method.vx_exec = VcdCap.exec
required_caps Method.vx_kill = VcdCap.init
required_caps Method.vx_reboot = VcdCap.init
required_caps Method.vx_restart = VcdCap.init
required_caps Method.vx_start = VcdCap.init
required_caps Method.vx_stop = VcdCap.init
required_caps Method.helper_restart = VcdCap.helper
required_caps Method.vx_remove = VcdCap.create
required_caps Method.vx_rename = VcdCap.create
required_caps Method.vcd_login = 0
required_caps Method.vcd_user_caps_add = VcdCap.auth
required_caps Method.vcd_user_caps_get = VcdCap.auth
required_caps Method.vcd_user_caps_remove = VcdCap.auth
required_caps Method.vcd_user_get = VcdCap.auth
required_caps Method.vcd_user_remove = VcdCap.auth
required_caps Method.vcd_user_set = VcdCap.auth
required_caps Method.vg_add = VcdCap.auth
required_caps Method.vg_list = VcdCap.auth
required_caps Method.vg_remove = VcdCap.auth
required_caps Method.vxdb_dx_limit_get = VcdCap.dlim
required_caps Method.vxdb_dx_limit_remove = VcdCap.dlim
required_caps Method.vxdb_dx_limit_set = VcdCap.dlim
required_caps Method.vxdb_init_get = VcdCap.init
required_caps Method.vxdb_init_set = VcdCap.init
required_caps Method.vxdb_list = VcdCap.info
required_caps Method.vxdb_mount_get = VcdCap.mount
required_caps Method.vxdb_mount_remove = VcdCap.mount
required_caps Method.vxdb_mount_set = VcdCap.mount
required_caps Method.vxdb_name_get = VcdCap.info
required_caps Method.vxdb_nx_addr_get = VcdCap.net
required_caps Method.vxdb_nx_addr_remove = VcdCap.net
required_caps Method.vxdb_nx_addr_set = VcdCap.net
required_caps Method.vxdb_nx_broadcast_get = VcdCap.net
required_caps Method.vxdb_nx_broadcast_remove = VcdCap.net
required_caps Method.vxdb_nx_broadcast_set = VcdCap.net
required_caps Method.vxdb_owner_add = VcdCap.auth
required_caps Method.vxdb_owner_get = VcdCap.auth
required_caps Method.vxdb_owner_remove = VcdCap.auth
required_caps Method.vxdb_vdir_get = VcdCap.info
required_caps Method.vxdb_vx_bcaps_add = VcdCap.bcap
required_caps Method.vxdb_vx_bcaps_get = VcdCap.bcap
required_caps Method.vxdb_vx_bcaps_remove = VcdCap.bcap
required_caps Method.vxdb_vx_ccaps_add = VcdCap.ccap
required_caps Method.vxdb_vx_ccaps_get = VcdCap.ccap
required_caps Method.vxdb_vx_ccaps_remove = VcdCap.ccap
required_caps Method.vxdb_vx_cpuset_get = VcdCap.sched
required_caps Method.vxdb_vx_cpuset_remove = VcdCap.sched
required_caps Method.vxdb_vx_cpuset_set = VcdCap.sched
required_caps Method.vxdb_vx_flags_add = VcdCap.cflag
required_caps Method.vxdb_vx_flags_get = VcdCap.cflag
required_caps Method.vxdb_vx_flags_remove = VcdCap.cflag
required_caps Method.vxdb_vx_limit_get = VcdCap.rlim
required_caps Method.vxdb_vx_limit_remove = VcdCap.rlim
required_caps Method.vxdb_vx_limit_set = VcdCap.rlim
required_caps Method.vxdb_vx_sched_get = VcdCap.sched
required_caps Method.vxdb_vx_sched_remove = VcdCap.sched
required_caps Method.vxdb_vx_sched_set = VcdCap.sched
required_caps Method.vxdb_vx_uname_get = VcdCap.uname
required_caps Method.vxdb_vx_uname_remove = VcdCap.uname
required_caps Method.vxdb_vx_uname_set = VcdCap.uname
required_caps Method.vxdb_xid_get = VcdCap.info

-- The flags that a method gives to method_init.
unfoldable pub required_flags : Method → ℕ
required_flags Method.helper_netup = 0
required_flags Method.helper_shutdown = 0
required_flags Method.helper_startup = 0
required_flags Method.vcd_hostinfo = 0
required_flags Method.vcd_status = 0
required_flags Method.vg_vx_reboot = 0
required_flags Method.vg_vx_restart = 0
required_flags Method.vg_vx_start = 0
required_flags Method.vg_vx_stop = 0
required_flags Method.vx_create = m_lock
required_flags Method.vx_limstatus = m_owner
required_flags Method.vx_netstatus = m_owner
required_flags Method.vx_status = m_owner
required_flags Method.vx_templates = 0
required_flags Method.vx_exec = m_owner
required_flags Method.vx_kill = m_owner + m_lock
required_flags Method.vx_reboot = m_owner + m_lock
required_flags Method.vx_restart = m_owner + m_lock
required_flags Method.vx_start = m_owner + m_lock
required_flags Method.vx_stop = m_owner + m_lock
required_flags Method.helper_restart = 0
required_flags Method.vx_remove = m_owner + m_lock
required_flags Method.vx_rename = m_owner + m_lock
required_flags Method.vcd_login = 0
required_flags Method.vcd_user_caps_add = 0
required_flags Method.vcd_user_caps_get = 0
required_flags Method.vcd_user_caps_remove = 0
required_flags Method.vcd_user_get = 0
required_flags Method.vcd_user_remove = 0
required_flags Method.vcd_user_set = 0
required_flags Method.vg_add = 0
required_flags Method.vg_list = 0
required_flags Method.vg_remove = 0
required_flags Method.vxdb_dx_limit_get = m_owner
required_flags Method.vxdb_dx_limit_remove = m_owner + m_lock
required_flags Method.vxdb_dx_limit_set = m_owner + m_lock
required_flags Method.vxdb_init_get = m_owner
required_flags Method.vxdb_init_set = m_owner + m_lock
required_flags Method.vxdb_list = 0
required_flags Method.vxdb_mount_get = m_owner
required_flags Method.vxdb_mount_remove = m_owner + m_lock
required_flags Method.vxdb_mount_set = m_owner + m_lock
required_flags Method.vxdb_name_get = 0
required_flags Method.vxdb_nx_addr_get = m_owner
required_flags Method.vxdb_nx_addr_remove = m_owner + m_lock
required_flags Method.vxdb_nx_addr_set = m_owner + m_lock
required_flags Method.vxdb_nx_broadcast_get = m_owner
required_flags Method.vxdb_nx_broadcast_remove = m_owner + m_lock
required_flags Method.vxdb_nx_broadcast_set = m_owner + m_lock
required_flags Method.vxdb_owner_add = 0
required_flags Method.vxdb_owner_get = 0
required_flags Method.vxdb_owner_remove = 0
required_flags Method.vxdb_vdir_get = 0
required_flags Method.vxdb_vx_bcaps_add = m_owner + m_lock
required_flags Method.vxdb_vx_bcaps_get = m_owner
required_flags Method.vxdb_vx_bcaps_remove = m_owner + m_lock
required_flags Method.vxdb_vx_ccaps_add = m_owner + m_lock
required_flags Method.vxdb_vx_ccaps_get = m_owner
required_flags Method.vxdb_vx_ccaps_remove = m_owner + m_lock
required_flags Method.vxdb_vx_cpuset_get = m_owner
required_flags Method.vxdb_vx_cpuset_remove = m_owner + m_lock
required_flags Method.vxdb_vx_cpuset_set = m_owner + m_lock
required_flags Method.vxdb_vx_flags_add = m_owner + m_lock
required_flags Method.vxdb_vx_flags_get = m_owner
required_flags Method.vxdb_vx_flags_remove = m_owner + m_lock
required_flags Method.vxdb_vx_limit_get = m_owner
required_flags Method.vxdb_vx_limit_remove = m_owner + m_lock
required_flags Method.vxdb_vx_limit_set = m_owner + m_lock
required_flags Method.vxdb_vx_sched_get = m_owner
required_flags Method.vxdb_vx_sched_remove = m_owner + m_lock
required_flags Method.vxdb_vx_sched_set = m_owner + m_lock
required_flags Method.vxdb_vx_uname_get = m_owner
required_flags Method.vxdb_vx_uname_remove = m_owner + m_lock
required_flags Method.vxdb_vx_uname_set = m_owner + m_lock
required_flags Method.vxdb_xid_get = 0
