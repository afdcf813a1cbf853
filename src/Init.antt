-- ===== src/Init.antt =====
-- `main` of src/cinit/cinit.c: from the command line through the load and the start of the services and
-- the main loop to the end of the process.
pub mod Ending
pub mod Loading
use docker_baseimage.Base.{
  ℕ, ◌-◌, Bool, true, false, not, ◌&&◌, List, [], Option, none, some, if◌then◌else◌, take,
}
use docker_baseimage.Text.{Bytes, codes}
use docker_baseimage.Exception.{Result, ok, throw, ◌>>=◌, Message, assertion_failed, root_not_found}
use docker_baseimage.Values.{System}
use docker_baseimage.Service.{Context, max_num_services}
use docker_baseimage.Deps.{Root, Walk, Walked, load_service_with_deps}
use docker_baseimage.Process.{Os, State, Reaped, Waited, base_name, request_shutdown}
use docker_baseimage.Startup.{start_services}
use docker_baseimage.MainLoop.{Next, paused, shut_down, aborted, is_some, main_loop, finish}
use docker_baseimage.Arguments.{Argument, Setup, progname_size, initial_setup, parse_args}

-- What main is given: argv[0], the options and another argument; what the operating system answers to
-- it, the services under a root directory, and the bytes of the named pipe in each iteration.
-- `exit_script`: the root can be entered at the end, and its program 'exit' can be run.
pub record Env : Type 0 where
  pub program : Bytes
  pub arguments : List Argument
  pub operand : Option Bytes
  pub sys : System
  pub enters : Bytes → Bool
  pub creates_fifo : Bool
  pub sets_owner : Bool
  pub sets_mode : Bool
  pub opens_fifo : Bool
  pub root : Bytes → Root
  pub root_files : Bytes → System
  pub os : Os
  pub reaps : List Reaped
  pub waits : List Waited
  pub probes : List (Option ℕ)
  pub commands : List (Option Bytes)
  pub exit_script : Bool

-- The end of the process: EXIT_FAILURE with a message (or the usage), or for the named pipe; a failed
-- assertion; still in the main loop where the commands end; the program 'exit' with the status, or an
-- exit with it.
pub data End : Type 0 where
  refused : Message → End
  no_fifo main_aborted : End
  main_running : State → End
  exit_run main_exited : ℕ → State → End

-- The first Try block; the program's name is cut to its array.
unfoldable pub configure : Env → Result Setup
unfolding parse_args base_name
configure env =
    parse_args env.sys env.arguments env.operand
      (initial_setup (take (progname_size - 1) (base_name env.program)))
    >>= λ s. if env.enters s.services_root then ok s else throw (root_not_found s.services_root)

-- mkfifo, getgrnam, chown, chmod and open.
abbrev pub is_fifo_ready : Env → Bool
is_fifo_ready env =
    env.creates_fifo
    && is_some (env.sys.getgrnam (codes "cinit"))
    && env.sets_owner
    && env.sets_mode
    && env.opens_fifo

abbrev pub initial_state : Env → Context → State
initial_state env ctx = record {
  ctx = ctx;
  do_shutdown = false;
  calls = 0;
  reaps = env.reaps;
  waits = env.waits;
  probes = env.probes;
  events = [];
}

abbrev pub initial_walk : Env → Setup → Walk
initial_walk env s = record { ctx = s.ctx; files = env.root_files s.services_root }

unfoldable pub load_default : Env → Setup → Walked
unfolding load_service_with_deps
load_default env s =
    load_service_with_deps (env.root s.services_root) max_num_services (codes "default") none
      (initial_walk env s)

abbrev pub is_assertion : Message → Bool
is_assertion assertion_failed = true
is_assertion e = false

-- The Catch block, with the exit status.
abbrev pub caught : State → State × ℕ
caught st = (request_shutdown st, 1)

abbrev pub services_started : State × Result (Unit {0}) → State × ℕ
services_started (st, ok u) = (st, 0)
services_started (st, throw e) = caught st

-- The second Try block, after the load. `none`: a failed assertion, which ends the process.
unfoldable pub bring_up : Env → Walked → Option (State × ℕ)
unfolding start_services
bring_up env (w, ok u) = some (services_started (start_services env.os (initial_state env w.ctx)))
bring_up env (w, throw e) = if is_assertion e then none else some (caught (initial_state env w.ctx))

-- `cinit_exit`.
abbrev pub cinit_exit : Env → State × ℕ → End
cinit_exit env (st, status) = if env.exit_script then exit_run status st else main_exited status st

-- What follows the main loop.
unfoldable pub after_loop : Env → ℕ → State × Next → End
unfolding finish
after_loop env exit_status (st, paused) = main_running st
after_loop env exit_status (st, aborted) = main_aborted
after_loop env exit_status (st, shut_down) = cinit_exit env (finish env.os exit_status st)

unfoldable pub serve : Env → Option (State × ℕ) → End
unfolding after_loop main_loop
serve env none = main_aborted
serve env (some (st, exit_status)) = after_loop env exit_status (main_loop env.os env.commands st)

abbrev pub after_setup : Env → Result Setup → End
after_setup env (throw e) = refused e
after_setup env (ok s) =
    if is_fifo_ready env then serve env (bring_up env (load_default env s)) else no_fifo

unfoldable pub run_main : Env → End
unfolding configure load_default bring_up serve
run_main env = after_setup env (configure env)
