-- ===== src/Tests/Run.antt =====
-- A call of a method on the platform of Reference.antt, so that it computes.
use vcd.Call.{State, Result, Request, Reply}
use vcd.Methods.Registry.{Method, call}
use vcd.Tests.Reference.{reference}
use vcd.Auth.{
  whirlpool_pass, finds, login_query, auth_isvalid, auth_isadmin, auth_getuid, auth_hascapability,
  capable_of, auth_capable, auth_isowner, auth_getnextuid,
}
use vcd.Base.Int.{to_int, suc_int, as_int}
use vcd.Call.{
  reads, looks, fault_if, member, get_str, get_int, get_bool, vxdb_exec, exec_or_fault, fetch,
  fetch_one,
}
use vcd.Call.Loops.{each, for_rows}
use vcd.Call.Sys.{sys, must, must_if, require_running, child}
use vcd.Call.Sys.Loops.{calls_for}
use vcd.Config.{cfg_validate_host, cfg_validate_port, cfg_validate_timeout, cfg_validate_dir}
use vcd.Methods.{
  method_empty_params, method_lock, method_check_flags, method_authorize, method_init,
}
use vcd.Methods.Common.{require_xid, require_uid}
use vcd.Methods.Create.{may_build, build_root_filesystem, template_dir, new_vdir, create_rest}
use vcd.Methods.Create.Entries.{is_valid, create_vxdb_entries}
use vcd.Methods.Create.Entries.Rows.{new_rows}
use vcd.Methods.Create.Files.{
  finish_file, copy_or_link, handle_entry, copy_tree, make_vserver_filesystem, or_clean, must_all,
  fill_root,
}
use vcd.Methods.Create.Ids.{scan_free, choose_xid, choose_all, find_free_xid}
use vcd.Methods.Group.{next_gid, group_or_new, require_gid}
use vcd.Methods.Group.Running.{each_running, start_skipped, start_stopped}
use vcd.Methods.Helper.{set_up, started, start_up, m_helper_startup}
use vcd.Methods.Helper.Context.{
  or_flags, context_caps_and_flags, context_disk_limits, context_resource_limits, context_scheduler,
  context_uname,
}
use vcd.Methods.Helper.Disk.{tfind, tsearch, handle_file, walk}
use vcd.Methods.Helper.Disk.Count.{sum_blocks, length, counted_files}
use vcd.Methods.Helper.Mounts.{sys_if, context_cpuset, namespace_setup, do_mount, namespace_mount}
use vcd.Methods.Helper.Network.{
  network_interfaces, add_broadcast, add_broadcasts, network_broadcast, m_helper_netup,
}
use vcd.Methods.Helper.Shutdown.{wait_gone, shutdown_child, m_helper_shutdown, shutdown_timeout}
use vcd.Methods.Isolation.Statements.{params_clean}
use vcd.Methods.Report.{load_whole, load_hundredths, pretty_load}
use vcd.Methods.Report.Templates.{template_description, templates}
use vcd.Methods.Running.{last_text, last_timeout, wait_stopped}
use vcd.Methods.Running.Waiting.{seconds_of}
use vcd.Methods.Server.{m_helper_restart}
use vcd.Methods.User.{create_user, set_password}
use vcd.Methods.Vxdb.Limits.{bytestopages, pagestobytes, convert_limit}
use vcd.Methods.Vxdb.Names.{listed_uid}
use vcd.Opening.{
  columns_text, version_fits, vxdb_create_table, vxdb_create_index, vxdb_sanity_check_unique,
  vxdb_sanity_check_table, check_tables, vxdb_create_user, user_or_new, check_users,
  vxdb_sanity_check,
}
use vcd.Validate.{
  is_alnumextended, str_isalnumextended, validate_name, validate_xid, validate_uname_value,
  validate_token_bucket, max_node, max_mem_node, validate_path, validate_dlimits, validate_addr,
  validate_username, validate_password, validate_group, validate_vcd_cap, validate_bcap,
  validate_ccap, validate_cflag, validate_rlimit, validate_rlimits, validate_cpuid,
  validate_cpuset_token, validate_cpuset_tokens, validate_cpuset, validate_uname,
}
use vcd.Vshelper.{
  vdir_and_init, client_call, vshelper_halt, vshelper_restart, let_go, wait_tasks, vshelper_startup,
  enter_root, startup_child, vshelper_shutdown, vshelper_netup, do_vshelper, find_action, vshelper,
}
use vcd.Vshelper.Refused.{method_of}
use vcd.Vxdb.{
  vxdb_step, vxdb_foreach_step, first_row, column, vxdb_column_text, vxdb_column_int,
  vxdb_column_uint32, vxdb_column_uint64, vxdb_getxid, vxdb_getname, stored_vdir, vxdb_getvdir,
  vxdb_getgid,
}
use vcd.Vxdb.Inserts.{is_insert, inserted}
use vcd.Vxdb.Rows.{heads, is_for}
use vcd.Vxpasswd.{vxpasswd}

unfoldable pub run_call : Method → Request → State → Result Reply × State
unfolding call reference whirlpool_pass finds login_query auth_isvalid auth_isadmin auth_getuid
    auth_hascapability capable_of auth_capable auth_isowner auth_getnextuid to_int suc_int as_int
    reads looks fault_if member get_str get_int get_bool vxdb_exec exec_or_fault fetch fetch_one
    each for_rows sys must must_if require_running child calls_for cfg_validate_host
    cfg_validate_port cfg_validate_timeout cfg_validate_dir method_empty_params method_lock
    method_check_flags method_authorize method_init require_xid require_uid may_build
    build_root_filesystem template_dir new_vdir create_rest is_valid create_vxdb_entries new_rows
    finish_file copy_or_link handle_entry copy_tree make_vserver_filesystem or_clean must_all
    fill_root scan_free choose_xid choose_all find_free_xid next_gid group_or_new require_gid
    each_running start_skipped start_stopped set_up started start_up m_helper_startup or_flags
    context_caps_and_flags context_disk_limits context_resource_limits context_scheduler
    context_uname tfind tsearch handle_file walk sum_blocks length counted_files sys_if
    context_cpuset namespace_setup do_mount namespace_mount network_interfaces add_broadcast
    add_broadcasts network_broadcast m_helper_netup wait_gone shutdown_child m_helper_shutdown
    shutdown_timeout params_clean load_whole load_hundredths pretty_load template_description
    templates last_text last_timeout wait_stopped seconds_of m_helper_restart create_user
    set_password bytestopages pagestobytes convert_limit listed_uid columns_text version_fits
    vxdb_create_table vxdb_create_index vxdb_sanity_check_unique vxdb_sanity_check_table
    check_tables vxdb_create_user user_or_new check_users vxdb_sanity_check is_alnumextended
    str_isalnumextended validate_name validate_xid validate_uname_value validate_token_bucket
    max_node max_mem_node validate_path validate_dlimits validate_addr validate_username
    validate_password validate_group validate_vcd_cap validate_bcap validate_ccap validate_cflag
    validate_rlimit validate_rlimits validate_cpuid validate_cpuset_token validate_cpuset_tokens
    validate_cpuset validate_uname vdir_and_init client_call vshelper_halt vshelper_restart let_go
    wait_tasks vshelper_startup enter_root startup_child vshelper_shutdown vshelper_netup
    do_vshelper find_action vshelper method_of vxdb_step vxdb_foreach_step first_row column
    vxdb_column_text vxdb_column_int vxdb_column_uint32 vxdb_column_uint64 vxdb_getxid vxdb_getname
    stored_vdir vxdb_getvdir vxdb_getgid is_insert inserted heads is_for vxpasswd
run_call m request s = call ⦃p = reference⦄ m request s
