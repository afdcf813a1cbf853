-- ===== src/Deps.antt =====
-- The services to start and their dependencies: `load_service_with_deps` of src/cinit/cinit.c.
pub mod Packed
pub mod Fuel
pub mod Ordered
pub mod Dependents
pub mod Visits
use docker_baseimage.Base.{
  ℕ, zero, suc, ◌-◌, Bool, true, false, not, ◌||◌, List, [], ◌∷◌, Option, none, some, if◌then◌else◌,
  length, take,
}
use docker_baseimage.Text.{Bytes, codes, bytes_eq, ends_with}
use docker_baseimage.Exception.{
  Result, ok, throw, too_many_services, could_not_load_service, no_directory_stream,
  assertion_failed,
}
use docker_baseimage.Values.{System, load_value_as_bool}
use docker_baseimage.Service.{Service, Context, find_service, srv, is_empty}
use docker_baseimage.Load.{DirEntry, ServiceDir, load_service}
use docker_baseimage.Order.{add_to_start_order}

-- What is read: the directory of each service, whether opendir() succeeds there, and what the
-- variable `depends` of an iteration holds before it is set.
pub record Root : Type 0 where
  pub service_dir : Bytes → Option ServiceDir
  pub opens : Bytes → Bool
  pub depends : Bytes → Bool

-- The context, and the files of the working directory.
pub record Walk : Type 0 where
  pub ctx : Context
  pub files : System

abbrev pub Walked : Type 0
Walked = Walk × Result (Unit {0})

-- An entry that is not a regular file with the suffix '.dep', or one of '.' and '..'.
abbrev pub is_skipped : DirEntry → Bool
is_skipped (name, regular) =
    bytes_eq name (codes ".")
    || bytes_eq name (codes "..")
    || not regular
    || not (ends_with name (codes ".dep"))

-- *strrchr(name, '.') = '\0', where the name ends with '.dep'.
abbrev pub without_suffix : Bytes → Bytes
without_suffix name = take (length name - 4) name

-- The iterations after a load that returned.
abbrev pub proceed : (Walk → Walked) → Walked → Walked
proceed next (w, ok u) = next w
proceed next (w, throw e) = (w, throw e)

-- The rest of an iteration once the file is read, and the iterations after it.
pub load_dependency :
    (Bytes → Walk → Walked) → (Walk → Walked) → Bytes → Result (Bool × Bool) → Walk → Walked
load_dependency load next name (throw e) w = (w, throw e)
load_dependency load next name (ok (is_set, false)) w = next w
load_dependency load next name (ok (is_set, true)) w = proceed next (load (without_suffix name) w)

-- The loop over the directory's entries. A file is looked up in the working directory of that
-- moment, which the load of another service changes.
pub load_dependencies : Root → (Bytes → Walk → Walked) → List DirEntry → Walk → Walked
unfolding load_dependency
load_dependencies root load [] w = (w, ok tt)
load_dependencies root load (e ∷ es) w =
    let next = λ (w' : Walk). load_dependencies root load es w' in
    if is_skipped e
    then next w
    else load_dependency load next e.0 (load_value_as_bool w.files e.0 (root.depends e.0)) w

abbrev pub files_of : Option ServiceDir → System → System
files_of none files = files
files_of (some dir) files = dir.files

abbrev pub entries_of : Option ServiceDir → List DirEntry
entries_of none = []
entries_of (some dir) = dir.entries

-- What follows the load of one service; the last argument is what `load_service` gave.
pub visit_loaded :
    Root
    → (Bytes → Option ℕ → Walk → Walked)
    → Bytes
    → Option ℕ
    → Walk
    → List Service × Result ℕ
    → Walked
unfolding load_dependencies
visit_loaded root load name dependent w (services, throw e) =
    (record w { ctx = record w.ctx { services = services } }, throw (could_not_load_service name e))
visit_loaded root load name dependent w (services, ok sid) =
    let ctx = record w.ctx { services = services } in
    let files = files_of (root.service_dir name) w.files in
    let order = add_to_start_order w.ctx.start_order sid dependent in
    let w' : Walk = record { ctx = record ctx { start_order = order }; files = files } in
    if (srv services sid).disabled
    then (record { ctx = ctx; files = files }, ok tt)
    else if not (root.opens name)
    then (w', throw (could_not_load_service name no_directory_stream))
    else load_dependencies root (λ n. load n (some sid)) (entries_of (root.service_dir name)) w'

pub visit_found :
    Root → (Bytes → Option ℕ → Walk → Walked) → Bytes → Option ℕ → Walk → Option ℕ → Walked
unfolding visit_loaded
visit_found root load name dependent w (some sid) = (w, ok tt)
visit_found root load name dependent w none =
    visit_loaded root load name dependent w (load_service w.ctx root.service_dir name)

-- The body, on the function that the recursive calls are. The assertion ends the process, which no
-- Catch sees.
pub visit : Root → (Bytes → Option ℕ → Walk → Walked) → Bytes → Option ℕ → Walk → Walked
unfolding visit_found
visit root load name dependent w =
    if is_empty name
    then (w, throw assertion_failed)
    else visit_found root load name dependent w (find_service w.ctx.services name)

-- The fuel is the number of unused entries: each load that goes on to its dependencies takes one.
unfoldable pub load_service_with_deps : Root → ℕ → Bytes → Option ℕ → Walk → Walked
unfolding visit
load_service_with_deps root zero name dependent w =
    visit root (λ n d w'. (w', throw too_many_services)) name dependent w
load_service_with_deps root (suc fuel) name dependent w =
    visit root (load_service_with_deps root fuel) name dependent w
