-- ===== src/Lib.antt =====
-- vcd, the daemon that manages Linux-VServer virtual servers over XML-RPC.
--
-- A client calls a method by its name with its credentials and a struct of parameters. Every method
-- (src/vcd/methods) first passes the gate method_init (src/vcd/methods.c), which asks auth.c whether
-- the user is valid, has the capabilities and owns the virtual server, and takes the lock of the
-- virtual server. Then it takes its parameters apart, checks them (src/vcd/validate.c, with the flag
-- lists of src/vcd/lists.c), finds the context id of the name (src/vcd/vxdb.c) and reads or writes
-- the database, an sqlite file whose tables are those of src/vcd/vxdb-tables.h.
--
-- The files:
-- - Base: numbers, integers, texts and lists with Boolean tests, shared by all.
-- - Sql: the statements as trees, and what SQL documents of them (rows, WHERE, unique indexes).
-- - Platform: sqlite, the lucid library, libc and the host as one record of parameters with the
--   laws that are assumed of them. IsHealthy says that no call of sqlite fails.
-- - Vxdb: src/vcd/vxdb.c and vxdb-tables.h. A statement that was prepared is the list of the codes
--   that sqlite3_step will return (Sql/Answers); vxdb_step goes past SQLITE_BUSY.
-- - Opening: vxdb_sanity_check, what the daemon does to its database at the start.
-- - Lists, Validate, Auth: the files of these names. A function that only reads the database has
--   its contents as an argument.
-- - Config: the checks of src/vcd/cfg.c.
-- - Call: one call of a method. `xmlrpc_env` is a result with a fault, and the state is the
--   contents of the database and the lock file that is held; method_return_fault is `raise`.
-- - Methods: methods.c, and one definition for each method, m_vxdb_nx_addr_set and so on, in
--   Methods/User, Methods/Group, Methods/Server and Methods/Vxdb. Methods/Registry is
--   method_registry_init, Methods/Registry/Demands what they hand to method_init.
--   Methods/Gate, Grant, Open, Frame, Passing and Isolation have the proofs about all methods at once.
-- - Kernel, Call/Sys: what the daemon asks of the kernel, of the file system and of child processes is
--   a value that the state records; the platform answers by the calls that were made before, so that
--   a context may end while the daemon waits. Call/Sys/Follows says that steps keep to a plan.
-- - Methods/Running, Methods/Group/Running: vx.start, stop, kill, exec, reboot and restart, and vg.vx.*
--   for the members of a group.
-- - Methods/Create: methods/vx/vx_create.c: who may create, the context id (Create/Ids), the files
--   (Create/Files) and the rows (Create/Entries). The template's configuration is a parameter, parsed already.
-- - Methods/Report: vx.status, vx.limstatus, vx.netstatus and vx.templates.
-- - Methods/Helper: methods/helper. Helper/Context and Helper/Mounts have the steps of
--   helper_startup.c, Helper/Disk the walk over the files, Helper/Plan the calls that a set-up is
--   meant to make, as a specification. What a fork runs is a call of its own, or, for vx.start and
--   helper.shutdown, the steps of the child.
-- - Vshelper: src/vshelper/main.c, the program that the kernel runs. A call of the daemon is the method of
--   the model in a state without a lock, and both work on the same kernel.
-- - Vxpasswd: src/vxpasswd/vxpasswd.c.
-- - Tests: a platform that works, a small database, and the theorems at concrete inputs.
--
-- Statements are printed between quotes as the arguments come. The trees of the model are what
-- sqlite reads only if no text in them has a quote, so the laws of sqlite ask for that, and each
-- theorem shows it from the checks of the arguments or has it among its conditions.
-- The contents are those that are committed. The source never rolls back, so a transaction that failed
-- half way stays open on its connection; it is not modelled what later requests of the same connection see.
-- Loops over rows are recursion on the steps of sqlite, and there is no fuel. `int` and the
-- unsigned types are written out where they wrap (to_int, suc_int, as_int): bytestopages, pagestobytes,
-- the columns, the next user and group ids, and the context ids, which are uint32_t that `%d` prints.
--
-- Not modelled: opening and closing the database file; the parser of the configuration; main.c of the
-- daemon (signals, the listening socket, the HTTP server) and the command line clients, which are input
-- and output; the log and the texts of faults. The memory of tsearch in helper.startup is taken to
-- suffice. Statements on the schema (CREATE TABLE and the like) are a parameter.
pub mod Base
pub mod Sql
pub mod Platform
pub mod Vxdb
pub mod Kernel
pub mod Lists
pub mod Validate
pub mod Auth
pub mod Opening
pub mod Call
pub mod Config
pub mod Methods
pub mod Vshelper
pub mod Vxpasswd
pub mod Tests
