-- ===== src/Tests/Dependencies.antt =====
-- A service group that depends on one service, and their load into a table of two places.
use docker_baseimage.Base.{
  inl, ◌≡◌, refl, inr, true, false, if◌then◌else◌, [], ◌∷◌, none, some, arith,
}
use docker_baseimage.Base.Int.{pos}
use docker_baseimage.Text.{codes, bytes_eq}
use docker_baseimage.Values.{System, missing}
use docker_baseimage.Service.{Context, cleared, initial_context}
use docker_baseimage.Load.{ServiceDir}
use docker_baseimage.Deps.{Root, Walk, load_service_with_deps}
use docker_baseimage.Deps.Packed.{IsSound, Keeps, load_service_with_deps-Keeps}
use docker_baseimage.Deps.Dependents.{AddsService}
use docker_baseimage.Deps.Visits.{load_service_with_deps-AddsService}
use docker_baseimage.Deps.Fuel.{load_service_with_deps_fuel}

abbrev sys : System
sys = record {
  stat = λ path. missing;
  open_file = λ path. none;
  read_succeeds = λ path. true;
  memory = λ n. true;
  run_program = λ path. record { rc = pos 0; lines = [] };
  getpwnam = λ name. none;
  getgrnam = λ name. none;
  junk = [];
}

abbrev group : ServiceDir
group = record {
  files = sys;
  exists = λ path. false;
  executable = λ path. false;
  realpath = λ path. none;
  entries = (codes "app.dep", true) ∷ [];
}

abbrev app : ServiceDir
app = record {
  files = sys;
  exists = λ path. bytes_eq path (codes "run");
  executable = λ path. bytes_eq path (codes "run");
  realpath = λ path. some path;
  entries = (codes "run", true) ∷ [];
}

abbrev root : Root
root = record {
  service_dir = λ name. if bytes_eq name (codes "default") then some group else some app;
  opens = λ name. true;
  depends = λ name. true;
}

abbrev ctx : Context
ctx = record initial_context {
  services = cleared ∷ cleared ∷ [];
  start_order = none ∷ none ∷ none ∷ [];
}

abbrev walk : Walk
walk = record { ctx = ctx; files = sys }

ctx-IsSound : IsSound ctx
ctx-IsSound = record {
  packed = inr (refl, (refl, tt));
  order = [];
  unused = 3;
  order_is = refl;
  has_place = omega arith;
}

load_service_with_deps-Keeps_example :
    Keeps walk (load_service_with_deps root 2 (codes "default") none walk).0
load_service_with_deps-Keeps_example =
    load_service_with_deps-Keeps root 2 (codes "default") none walk ctx-IsSound

load_service_with_deps_fuel_example :
    load_service_with_deps root 3 (codes "default") none walk
    ≡ load_service_with_deps root 2 (codes "default") none walk
load_service_with_deps_fuel_example =
    load_service_with_deps_fuel root 2 (codes "default") none walk ctx-IsSound (omega arith)

-- The group is needed by a service that stands in the order already.
abbrev needed : Walk
needed = record {
  ctx = record initial_context {
    services = record cleared { name = codes "top" } ∷ cleared ∷ cleared ∷ [];
    start_order = some 0 ∷ none ∷ none ∷ [];
  };
  files = sys;
}

load_service_with_deps-AddsService_example :
    AddsService
      (codes "default")
      needed
      []
      (0 ∷ [])
      (load_service_with_deps root 2 (codes "default") (some 0) needed)
load_service_with_deps-AddsService_example =
    load_service_with_deps-AddsService root 2 (codes "default") (some 0) needed [] (0 ∷ [])
      (record {
        packed = inl (λ e. cc, inr (refl, (refl, tt)));
        unused = 2;
        order_is = refl;
        has_place = omega arith;
        known = (λ e. cc, tt);
      })
      (refl, tt)
