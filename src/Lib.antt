-- ===== src/Lib.antt =====
-- cinit, the init process of the container (src/cinit): it reads the settings of services from
-- directories, starts the services in order, supervises them and shuts the container down. And the
-- log monitor (src/logmonitor), which follows log and status files and sends notifications.
--
-- The parts, the files that model them, and how they interact:
-- - Text, of src/cinit/utils.c: the string helpers (trim, split, remove_duplicated_char and the
--   others), on byte strings. Everything that reads a setting uses them. `ends_with` is of cinit.c.
-- - Exception, of src/cinit: ThrowMessage, Try and Catch as results. A message is a constructor, not a text.
-- - Convert, of utils.c: string_to_bool, string_to_int, string_to_uint, string_to_interval,
--   string_to_uid, string_to_gid and string_to_mode. The user and group databases are parameters.
-- - Values, of utils.c: process_line, read_file, load_value_as_string and the load_value_as
--   functions, on Convert. The file system, the memory that can be had and what a program prints
--   are the fields of `System`.
-- - Lines, of utils.c: read_lines, with its buffers and what poll() and read() answer as a list.
--   Lines/Tagged is the same function with the descriptor that each line is called back for.
-- - Exec, of src/cinit/exec.c and log.c: exec_cmd_with_line_callback and exec_cmd, on Lines. What a
--   program prints is a field of Values' `System`: Exec/Output says what it is for such a run.
-- - Service, of src/cinit/cinit.c: service_t, context_t and the functions on the service table.
-- - Load, of cinit.c: load_service, on Values and Service.
-- - Order, of cinit.c: add_to_start_order.
-- - Deps, of cinit.c: load_service_with_deps, on Load and Order: the walk over the '.dep' files, with
--   the working directory that a load changes and what `depends` holds before it is set.
-- - Process, of cinit.c: the state of the supervisor, the answers of the operating system (`Os`),
--   and fork_and_exec: the parent's side, and the child's as the list of its system calls.
-- - Supervisor, of cinit.c: start_service, stop_service, handle_killed, child_handler and
--   cinit_shutdown, on Service and Process. What another process sees is recorded as events.
-- - Startup, of cinit.c: start_services, with the waits for the end, the minimum running time and
--   the readiness of a service, on Supervisor.
-- - MainLoop, of cinit.c: the loop of `main` over what the command pipe gives, and what follows it.
-- - Arguments, of cinit.c: parse_args, on what getopt_long gives, with the conversions of Convert.
-- - Init, of cinit.c: `main`, from the command line (Arguments) through the load (Deps), the start
--   (Startup) and the main loop (MainLoop) to cinit_exit.
-- - Monitor, of src/logmonitor/logmonitor.c: the types, full_read and invoke_exec, with the answers of
--   the operating system as `MonitorOs`. Notify: handle_line with the debouncing of targets. Reading:
--   handle_read, on Notify. Tail: the loop of `main` over the monitored files, on Reading. Config:
--   alloc_target, alloc_notification and create_context, with the file system as `ConfigFs`. Program:
--   `main`, from the options through Config to Tail.
-- - Base and its children: shared names, tests on numbers, lists. Tests: concrete runs.
--
-- State is passed explicitly: a function takes the service table, or the supervisor's state with
-- its context, and returns it. The code is that of the Makefile: with one stream for both outputs
-- of a service (SINGLE_CHILD_STDOUT_STDERR_STREAM). A `long` has 64 bits and an `int` has 32.
--
-- Bounds: remove_duplicated_char and remove_all_char recurse on fuel, the length of the string,
-- and the theorems that they equal a structural recursion show that it is enough. The loop over
-- the complete lines of a buffer takes the buffer's length as fuel, and each line takes a byte
-- away. read_lines, child_handler and the waits of start_services recurse on the list of what the
-- operating system answers; where a list for waitpid() ends, no child is left.
-- load_service_with_deps recurses on fuel, which is enough where it is at least the number of
-- unused entries of the table (64 at the start). fork_attempts makes the source's 4 attempts.
-- handle_read recurses on fuel, one more than the bytes there are, and each call takes a newline
-- away. The loops over a monitored file's bytes and over the passes recurse on the list of what the
-- operating system says.
--
-- Not modelled: the limit on open files, the set-up of the signal handlers and the width of the log
-- prefix in `main`; exec_cmd_with_output of exec.c, which is not compiled; the printing under a mutex
-- of log.c; CException (a copy of a library); the functions of src/logmonitor that only give memory
-- back or print; the tools in other languages; the scripts of rootfs and helpers.
pub mod Base
pub mod Text
pub mod Exception
pub mod Exec
pub mod Arguments
pub mod Init
pub mod Convert
pub mod Values
pub mod Lines
pub mod Service
pub mod Load
pub mod Order
pub mod Deps
pub mod Process
pub mod Supervisor
pub mod Startup
pub mod MainLoop
pub mod Monitor
pub mod Tests
