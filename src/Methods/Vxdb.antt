-- ===== src/Methods/Vxdb.antt =====
-- src/vcd/methods/vxdb: the methods that read and write the configuration of virtual servers.
pub mod Flags
pub mod Network
pub mod Startup
pub mod Limits
pub mod Scheduler
pub mod Names
