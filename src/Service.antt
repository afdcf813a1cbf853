-- ===== src/Service.antt =====
-- The service table of src/cinit/cinit.c: the structures `service_t` and `context_t`, and the
-- functions that look up, allocate and clear an entry.
pub mod Table
use docker_baseimage.Base.{
  ℕ, zero, suc, Bool, true, false, not, ◌&&◌, List, [], ◌∷◌, Option, none, some, ◌==◌,
  if◌then◌else◌, length, get_or, set, replicate,
}
use docker_baseimage.Base.Int.{ℤ, pos}
use docker_baseimage.Text.{Bytes, bytes_eq, codes}

abbrev pub max_num_services : ℕ
max_num_services = 64

-- DIM(param_list), DIM(environment) and DIM(sgid_list)
abbrev pub max_num_entries : ℕ
max_num_entries = 32

-- service_t, as the Makefile compiles it: with one stream for both outputs. A C array with its size is the list of its entries; an entry of `environment` may be
-- NULL; a pid of 0 means not running; a closed descriptor is `none`.
pub record Service : Type 0 where
  pub name : Bytes
  pub disabled : Bool
  pub is_service_group : Bool
  pub run_abs_path : Option Bytes
  pub param_list : List Bytes
  pub environment : List (Option Bytes)
  pub environment_extra : List Bytes
  pub uid : ℕ
  pub gid : ℕ
  pub sgid_list : List ℕ
  pub umask : ℕ
  pub priority : ℤ
  pub working_directory : Bytes
  pub respawn : Bool
  pub sync : Bool
  pub ignore_failure : Bool
  pub shutdown_on_terminate : Bool
  pub min_running_time : ℕ
  pub ready_timeout : ℕ
  pub interval : ℕ
  pub pid : ℕ
  pub start_time : ℕ
  pub output_fd : Option ℕ
  pub logger_exit : Bool
  pub logger_started : Bool
  pub restart_requested : Bool

-- memset(&SRV(sid), 0, sizeof(SRV(sid))). Descriptor 0 stands in a cleared entry.
abbrev pub cleared : Service
cleared = record {
  name = [];
  disabled = false;
  is_service_group = false;
  run_abs_path = none;
  param_list = [];
  environment = [];
  environment_extra = [];
  uid = 0;
  gid = 0;
  sgid_list = [];
  umask = 0;
  priority = pos 0;
  working_directory = [];
  respawn = false;
  sync = false;
  ignore_failure = false;
  shutdown_on_terminate = false;
  min_running_time = 0;
  ready_timeout = 0;
  interval = 0;
  pid = 0;
  start_time = 0;
  output_fd = some 0;
  logger_exit = false;
  logger_started = false;
  restart_requested = false;
}

-- context_t, less what only the log messages use. An unused place of `start_order` (-1) is `none`.
pub record Context : Type 0 where
  pub debug : Bool
  pub services_gracetime : ℕ
  pub default_srv_ready_timeout : ℕ
  pub default_srv_uid : ℕ
  pub default_srv_gid : ℕ
  pub default_srv_sgid_list : List ℕ
  pub default_srv_umask : ℕ
  pub services : List Service
  pub start_order : List (Option ℕ)
  pub exit_code : ℕ

-- The initial value of `g_ctx`, with `start_order` as `main` sets it.
abbrev pub initial_context : Context
initial_context = record {
  debug = false;
  services_gracetime = 5000;
  default_srv_ready_timeout = 10000;
  default_srv_uid = 1000;
  default_srv_gid = 1000;
  default_srv_sgid_list = [];
  default_srv_umask = 0o22;
  services = replicate max_num_services cleared;
  start_order = replicate max_num_services none;
  exit_code = 0;
}

abbrev pub is_empty : Bytes → Bool
is_empty [] = true
is_empty (c ∷ s) = false

-- FOR_EACH_SERVICE(sid) { if (test(SRV(sid))) return sid; } return -1; where the first entry has
-- the index given. The loop stops at the first entry with no name.
unfoldable pub find_from : (Service → Bool) → ℕ → List Service → Option ℕ
find_from test sid [] = none
find_from test sid (s ∷ ss) =
    if is_empty s.name then none else if test s then some sid else find_from test (suc sid) ss

unfoldable pub find_service : List Service → Bytes → Option ℕ
unfolding find_from
find_service services service = find_from (λ s. bytes_eq s.name service) 0 services

unfoldable pub find_service_by_pid : List Service → ℕ → Option ℕ
unfolding find_from
find_service_by_pid services pid = find_from (λ s. s.pid == pid) 0 services

unfoldable pub alloc_from : ℕ → List Service → Option ℕ
alloc_from sid [] = none
alloc_from sid (s ∷ ss) = if length s.name == 0 then some sid else alloc_from (suc sid) ss

unfoldable pub alloc_service_index : List Service → Option ℕ
unfolding alloc_from
alloc_service_index services = alloc_from 0 services

-- SRV(sid)
abbrev pub srv : List Service → ℕ → Service
srv services sid = get_or services sid cleared

abbrev pub is_service_started : List Service → ℕ → Bool
is_service_started services sid = not ((srv services sid).pid == 0)

-- The memory that the entry points to is freed.
unfoldable pub unload_service : List Service → ℕ → List Service
unload_service services sid = set services sid cleared

-- FOR_EACH_SERVICE(sid) { unload_service(sid); }: an entry is cleared only after its name was read.
unfoldable pub unload_services : List Service → List Service
unload_services [] = []
unload_services (s ∷ ss) =
    let rest = unload_services ss in if is_empty s.name then s ∷ ss else cleared ∷ rest
