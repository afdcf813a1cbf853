-- ===== src/Process.antt =====
-- The processes of src/cinit/cinit.c: what the supervisor asks of the operating system, the state
-- that it keeps, and `fork_and_exec`, the parent's side and the child's.
pub mod Child
pub mod Forking
use docker_baseimage.Base.{
  ℕ, zero, suc, ◌+◌, ◌-◌, ◌*◌, ◌%◌, ◌^◌, Bool, true, false, not, ◌&&◌, ◌||◌, List, [], ◌∷◌, ◌++◌,
  map, Option, none, some, ltb, ◌==◌, if◌then◌else◌, length, set,
}
use docker_baseimage.Base.Int.{ℤ, pos}
use docker_baseimage.Text.{Bytes}
use docker_baseimage.Service.{Service, Context, cleared, srv}

-- The status of a process that waitpid() reports.
pub data ExitStatus : Type 0 where
  exited : ℕ → ExitStatus
  signaled : ℕ → ExitStatus
  neither : ExitStatus

-- The answer of waitpid(-1, …, WNOHANG): -1, 0 or a process.
pub data Reaped : Type 0 where
  no_child : Reaped
  no_change : Reaped
  killed : ℕ → ExitStatus → Reaped

-- The answer of waitpid(pid, …): 0, EINTR, another error, or the process's status.
pub data Waited : Type 0 where
  still_running : Waited
  interrupted : Waited
  wait_failed : Waited
  terminated : ExitStatus → Waited

-- What the supervisor did that another process sees.
pub data Event : Type 0 where
  forked : ℕ → ℕ → Event
  closed : ℕ → Event
  slept : ℕ → Event
  signal_sent : ℕ → ℕ → Event
  signal_to_all : ℕ → Event
  command_run : ℕ → Bytes → ℕ → Event
  logger_created : ℕ → Event
  logger_joined : ℕ → Event

-- The answers of the operating system; a number is that of the call, so that they may change.
pub record Os : Type 0 where
  pub forkpty : ℕ → Option (ℕ × ℕ)
  pub clock : ℕ → ℕ
  pub memory : ℕ → Bool
  pub create_thread : ℕ → Bool
  pub chdir : Bytes → Bool
  pub executable : Bytes → Bytes → Bool
  pub signal_came : ℕ → Bool

-- The supervisor's state: `g_ctx`, `do_shutdown`, the number of calls made, what waitpid() will
-- answer for any child and for one (no child is left behind the lists), what the runs of a
-- readiness check will end with (`none`, and behind the list: the process is gone), and the
-- events, the latest first.
pub record State : Type 0 where
  pub ctx : Context
  pub do_shutdown : Bool
  pub calls : ℕ
  pub reaps : List Reaped
  pub waits : List Waited
  pub probes : List (Option ℕ)
  pub events : List Event

abbrev pub tick : State → State
tick st = record st { calls = suc st.calls }

abbrev pub emit : Event → State → State
emit e st = record st { events = e ∷ st.events }

abbrev pub service_at : State → ℕ → Service
service_at st sid = srv st.ctx.services sid

-- An assignment to members of SRV(sid).
abbrev pub put_service : State → ℕ → Service → State
put_service st sid s = record st { ctx = record st.ctx { services = set st.ctx.services sid s } }

-- SHUTDOWN_REQUESTED(): the flag, which the handlers of SIGINT and SIGTERM set too.
abbrev pub shutdown_requested : Os → State → Bool
shutdown_requested os st = st.do_shutdown || os.signal_came st.calls

-- REQUEST_SHUTDOWN()
abbrev pub request_shutdown : State → State
request_shutdown st = record st { do_shutdown = true }

-- The difference of two times, an unsigned long.
abbrev pub elapsed : ℕ → ℕ → ℕ
elapsed now start = (now + 2 ^ 64 - start) % 2 ^ 64

-- close_fd, on a descriptor of -1 or another.
abbrev pub close_fd : Option ℕ → State → State
close_fd none st = st
close_fd (some fd) st = emit (closed fd) st

-- The parent's side, on what forkpty() gave: -1, or the process and the master's descriptor. The
-- result 0 means that it failed.
pub forked_parent : ℕ → Option (ℕ × ℕ) → State → State × ℕ
forked_parent sid none st = (st, 0)
forked_parent sid (some (pid, pty_master)) st =
    let s = record (service_at st sid) { output_fd = some pty_master } in
    (emit (forked sid pid) (put_service st sid s), pid)

unfoldable pub fork_and_exec : Os → ℕ → State → State × ℕ
unfolding forked_parent
fork_and_exec os sid st = forked_parent sid (os.forkpty st.calls) (tick st)

-- strrchr(path, '/'): what follows the last slash, or the whole path.
unfoldable pub base_name : Bytes → Bytes
base_name path = elim (last_part path) [ none ↦ path | some name ↦ name ]
  where
    last_part : Bytes → Option Bytes
    last_part [] = none
    last_part (c ∷ t) = elim (last_part t) [
      | some name ↦ some name
      | none ↦ if c == b'/' then some t else none
    ]

-- The arguments of the program, less the final NULL.
abbrev pub arguments : Bytes → List Bytes → List Bytes
arguments path params = base_name path ∷ params

-- The variables passed to the program: those of 'environment' (up to an entry that is NULL), or
-- the supervisor's own ones and those of 'environment_extra', or only its own.
abbrev pub up_to_null : List (Option Bytes) → List Bytes
up_to_null [] = []
up_to_null (none ∷ vs) = []
up_to_null (some v ∷ vs) = v ∷ up_to_null vs

unfoldable pub child_environment : List Bytes → Service → List Bytes
child_environment environ s =
    if ltb 0 (length s.environment)
    then up_to_null s.environment
    else if ltb 0 (length s.environment_extra)
    then environ ++ s.environment_extra
    else environ

-- A step of the child before it is the program.
pub data ChildStep : Type 0 where
  setpriority : ℤ → ChildStep
  umask : ℕ → ChildStep
  setgroups : List ℕ → ChildStep
  setgid : ℕ → ChildStep
  setuid : ℕ → ChildStep
  chdir : Bytes → ChildStep

-- The child ends with a status, or becomes the program.
pub data ChildEnd : Type 0 where
  child_exited : ℕ → ChildEnd
  became : Bytes → List Bytes → List Bytes → ChildEnd

abbrev pub is_zero_int : ℤ → Bool
is_zero_int (pos zero) = true
is_zero_int (pos (suc n)) = false
is_zero_int (ℤ.negsuc n) = false

abbrev pub when {ℓ} : {A : Type ℓ} → Bool → A → List A
when true a = a ∷ []
when false a = []

-- The steps that the settings of the service ask for, in the source's order.
unfoldable pub child_steps : Service → List ChildStep
child_steps s =
    when (not (is_zero_int s.priority)) (setpriority s.priority)
    ++ umask s.umask ∷ setgroups s.sgid_list ∷ when (ltb 0 s.gid) (setgid s.gid)
    ++ when (ltb 0 s.uid) (setuid s.uid)
    ++ when (ltb 0 (length s.working_directory)) (chdir s.working_directory)

-- umask() is not checked: it does not fail.
abbrev pub is_umask : ChildStep → Bool
is_umask (umask mask) = true
is_umask (setpriority priority) = false
is_umask (setgroups groups) = false
is_umask (setgid gid) = false
is_umask (setuid uid) = false
is_umask (chdir directory) = false

-- err(50, …) where a step fails. The steps done come with the child's end.
pub do_steps : (ChildStep → Bool) → ChildEnd → List ChildStep → List ChildStep × ChildEnd
do_steps succeeds end [] = ([], end)
do_steps succeeds end (step ∷ steps) =
    let rest = do_steps succeeds end steps in
    if is_umask step || succeeds step then (step ∷ rest.0, rest.1) else ([], child_exited 50)

-- execve does not return when it succeeds.
abbrev pub exec_end : Bool → Bytes → List Bytes → List Bytes → ChildEnd
exec_end true path argv env = became path argv env
exec_end false path argv env = child_exited 126

pub child_at :
    (ChildStep → Bool) → Bool → List Bytes → Service → Option Bytes → List ChildStep × ChildEnd
unfolding do_steps child_steps
child_at succeeds execs environ s none = ([], child_exited 50)
child_at succeeds execs environ s (some path) =
    do_steps succeeds
      (exec_end execs path (arguments path s.param_list) (child_environment environ s))
      (child_steps s)

unfoldable pub child : (ChildStep → Bool) → Bool → List Bytes → Service → List ChildStep × ChildEnd
unfolding child_at
child succeeds execs environ s = child_at succeeds execs environ s s.run_abs_path
