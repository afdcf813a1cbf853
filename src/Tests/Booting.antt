-- ===== src/Tests/Booting.antt =====
-- cinit from its command line to its end, on a concrete system.
use docker_baseimage.Base.{
  ◌≡◌, refl, ap, inl, true, false, List, [], ◌∷◌, none, some, arith, if◌then◌else◌,
}
use docker_baseimage.Base.Int.{pos}
use docker_baseimage.Text.{codes, bytes_eq}
use docker_baseimage.Exception.{
  Message, ok, throw, help, unexpected_argument, could_not_load_service, service_not_found,
}
use docker_baseimage.Values.{System, missing}
use docker_baseimage.Service.{initial_context, find_service}
use docker_baseimage.Load.{load_service}
use docker_baseimage.Process.{request_shutdown}
use docker_baseimage.MainLoop.{finish}
use docker_baseimage.Arguments.{
  Argument, debug_arg, help_arg, root_arg, gracetime_arg, groups_arg, umask_arg, uid_arg, Setup,
  initial_setup, parse_args,
}
use docker_baseimage.Arguments.Usable.{IsAccepted, parse_args-IsAccepted}
use docker_baseimage.Init.{Env, configure, load_default, initial_state, cinit_exit, run_main}
use docker_baseimage.Init.Ending.{IsOrderly, run_main-IsOrderly, run_main-failed}
use docker_baseimage.Init.Loading.{IsLoaded, configure-IsLoaded}

abbrev sys : System
sys = record {
  stat = λ path. missing;
  open_file = λ path. none;
  read_succeeds = λ path. true;
  memory = λ n. true;
  run_program = λ path. record { rc = pos 0; lines = [] };
  getpwnam = λ name. none;
  getgrnam = λ name. if bytes_eq name (codes "cinit") then some 72 else none;
  junk = [];
}

abbrev args : List Argument
args =
    debug_arg
    ∷ root_arg (codes "/srv")
    ∷ gracetime_arg (codes "100")
    ∷ uid_arg (codes "33")
    ∷ groups_arg (codes " 20,,cinit")
    ∷ umask_arg (codes "027")
    ∷ []

abbrev setup : Setup
setup = record {
  progname = codes "cinit";
  services_root = codes "/srv";
  ctx = record initial_context {
    debug = true;
    services_gracetime = 100;
    default_srv_uid = 33;
    default_srv_sgid_list = 20 ∷ 72 ∷ [];
    default_srv_umask = 0o27;
  };
}

abbrev env : Env
env = record {
  program = codes "/sbin/cinit";
  arguments = args;
  operand = none;
  sys = sys;
  enters = λ path. true;
  creates_fifo = true;
  sets_owner = true;
  sets_mode = true;
  opens_fifo = true;
  root =
      λ path. record { service_dir = λ name. none; opens = λ name. true; depends = λ name. false };
  root_files = λ path. sys;
  os = record {
    forkpty = λ n. none;
    clock = λ n. n;
    memory = λ n. true;
    create_thread = λ n. true;
    chdir = λ name. true;
    executable = λ name file. false;
    signal_came = λ n. false;
  };
  reaps = [];
  waits = [];
  probes = [];
  commands = none ∷ [];
  exit_script = false;
}

parsed : parse_args sys args none (initial_setup (codes "cinit")) ≡ ok setup
unfolding parse_args
parsed = refl

-- Options are read in order, up to the first that is refused.
helped : parse_args sys (debug_arg ∷ help_arg ∷ umask_arg (codes "x") ∷ []) none setup ≡ throw help
unfolding parse_args
helped = refl

operand_refused :
    parse_args sys args (some (codes "x")) setup ≡ throw (unexpected_argument (codes "x"))
unfolding parse_args
operand_refused = refl

parse_args-IsAccepted_example : IsAccepted args setup
parse_args-IsAccepted_example =
    parse_args-IsAccepted sys args none (codes "cinit") setup (omega arith) parsed

configured : configure env ≡ ok setup
unfolding configure
configured = refl

configure-IsLoaded_example : IsLoaded env setup
configure-IsLoaded_example = configure-IsLoaded env setup configured

run_main-IsOrderly_example : IsOrderly env (run_main env)
run_main-IsOrderly_example = run_main-IsOrderly env

-- There is no service 'default'.
abbrev failure : Message
failure = could_not_load_service (codes "default") service_not_found

not_loaded : (load_default env setup).1 ≡ throw failure
unfolding load_default find_service load_service
not_loaded = refl

run_main-failed_example :
    run_main env
    ≡ cinit_exit env (
      (finish env.os 1 (request_shutdown (initial_state env (load_default env setup).0.ctx))).0,
      1,
    )
run_main-failed_example =
    run_main-failed env setup (initial_state env (load_default env setup).0.ctx) none [] configured
      refl
      (inl (
        failure,
        (load_default env setup).0,
        ap (λ r. ((load_default env setup).0, r)) not_loaded,
        refl,
        refl,
      ))
      refl
