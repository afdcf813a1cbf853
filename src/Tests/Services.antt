-- ===== src/Tests/Services.antt =====
-- A concrete service table, and the load of a service into it.
use docker_baseimage.Base.{◌≡◌, refl, inl, inr, true, List, [], ◌∷◌, Option, none, some}
use docker_baseimage.Base.Int.{pos}
use docker_baseimage.Text.{Bytes, codes, bytes_eq, terminate_at_first_eol}
use docker_baseimage.Exception.{ok}
use docker_baseimage.Values.{
  System, missing, load_value_as, load_value_as_bool, load_value_as_int, load_value_as_uint,
  load_value_as_interval, load_value_as_uid, load_value_as_gid, load_value_as_mode,
  load_value_as_string, load_stat,
}
use docker_baseimage.Service.{
  Service, Context, cleared, initial_context, find_service, find_from, alloc_service_index,
  alloc_from,
}
use docker_baseimage.Service.Table.{IsPacked, Place, alloc_service_index-Place}
use docker_baseimage.Load.{
  load_or_find, add_service, add_at, store_service, ServiceDir, load_service, fill_service,
  load_program, load_run, load_list, load_identity, load_behaviour, finish_service,
}
use docker_baseimage.Load.Settings.{IsLoaded, fill_service-IsLoaded}
use docker_baseimage.Load.Entry.{AfterLoad, load_service-AfterLoad, load_service_again}
use docker_baseimage.Order.Insertion.{Inserted, add_to_start_order-Inserted}

abbrev nginx : Service
nginx = record cleared { name = codes "nginx" }

-- Two places, of which the first is used.
abbrev table : List Service
table = record cleared { name = codes "app" } ∷ cleared ∷ []

table-IsPacked : IsPacked table
table-IsPacked = inl (λ e. cc, inr (refl, tt))

no_nginx : find_service table (codes "nginx") ≡ none
unfolding find_service find_from
no_nginx = refl

second_free : alloc_service_index table ≡ some 1
unfolding alloc_service_index alloc_from
second_free = refl

alloc_service_index-Place_example : Place table 0 1 nginx
alloc_service_index-Place_example =
    alloc_service_index-Place nginx (λ e. cc) table 1 table-IsPacked no_nginx second_free

abbrev ctx : Context
ctx = record initial_context { services = table }

-- A directory that only has an executable file 'run'.
abbrev sys : System
sys = record {
  stat = λ path. missing;
  open_file = λ path. none;
  read_succeeds = λ path. true;
  memory = λ n. true;
  run_program = λ path. record { rc = pos 0; lines = [] };
  getpwnam = λ name. none;
  getgrnam = λ name. none;
  junk = [];
}

abbrev dir : ServiceDir
dir = record {
  files = sys;
  exists = λ path. bytes_eq path (codes "run");
  executable = λ path. bytes_eq path (codes "run");
  realpath = λ path. some (codes "/etc/services.d/nginx/run");
  entries = [];
}

abbrev loaded : Service
loaded = record cleared {
  name = codes "nginx";
  run_abs_path = some (codes "/etc/services.d/nginx/run");
  uid = 1000;
  gid = 1000;
  umask = 0o22;
  output_fd = none;
  ready_timeout = 10000;
  min_running_time = 500;
}

nginx_loads : fill_service ctx dir (codes "nginx") ≡ ok loaded
unfolding fill_service load_program load_run load_list load_identity load_behaviour finish_service
    load_value_as load_value_as_bool load_value_as_int load_value_as_uint load_value_as_interval
    load_value_as_uid load_value_as_gid load_value_as_mode load_value_as_string load_stat
    terminate_at_first_eol
nginx_loads = refl

fill_service-IsLoaded_example : IsLoaded ctx (codes "nginx") loaded
fill_service-IsLoaded_example = fill_service-IsLoaded ctx dir (codes "nginx") loaded nginx_loads

abbrev dirs : Bytes → Option ServiceDir
dirs name = some dir

load_service-AfterLoad_example :
    AfterLoad table
      (codes "nginx")
      (load_service ctx dirs (codes "nginx")).0
      (load_service ctx dirs (codes "nginx")).1
load_service-AfterLoad_example =
    load_service-AfterLoad ctx dirs (codes "nginx") (λ e. cc) table-IsPacked

add_to_start_order-Inserted_example : Inserted (3 ∷ 5 ∷ []) 2 7 (some 5)
add_to_start_order-Inserted_example = add_to_start_order-Inserted (3 ∷ 5 ∷ []) 2 7 (some 5)

abbrev filled : List Service
filled = record cleared { name = codes "app" } ∷ loaded ∷ []

loads_second : load_service ctx dirs (codes "nginx") ≡ (filled, ok 1)
unfolding load_service load_or_find add_service add_at store_service find_service find_from
    alloc_service_index alloc_from fill_service load_program load_run load_list load_identity
    load_behaviour finish_service load_value_as load_value_as_bool load_value_as_int
    load_value_as_uint load_value_as_interval load_value_as_uid load_value_as_gid load_value_as_mode
    load_value_as_string load_stat terminate_at_first_eol
loads_second = refl

load_service_again_example :
    load_service (record ctx { services = filled }) (λ name. none) (codes "nginx") ≡ (filled, ok 1)
load_service_again_example =
    load_service_again ctx dirs (λ name. none) (codes "nginx") filled 1 (λ e. cc) table-IsPacked
      loads_second
