-- ===== src/Load/Programs.antt =====
-- The program's side of a service that was loaded: its parameters and its variables.
use docker_baseimage.Base.{
  suc, ◌+◌, ◌≤◌, ◌≡◌, refl, sym, ap, subst, inl, inr, List, [], ◌∷◌, ◌++◌, map, Option, none, some,
  length, length-append, All, Bool-cases, arith,
}
use docker_baseimage.Text.{Bytes, codes}
use docker_baseimage.Exception.{ok}
use docker_baseimage.Exception.{too_many_groups, too_many_parameters, too_many_variables}
use docker_baseimage.Convert.{string_to_gid}
use docker_baseimage.Values.{
  load_value_as_uid, load_value_as_gid, load_value_as_mode, load_value_as_int, load_value_as_bool,
  load_value_as_uint, load_value_as_interval, load_value_as_string, into,
}
use docker_baseimage.Service.{Service, max_num_entries}
use docker_baseimage.Load.{
  ServiceDir, list_or, environment_of, load_run, load_program, load_identity, load_behaviour,
  duplicate, load_list, check_variable,
}
use docker_baseimage.Load.Lists.{
  >>=-ok, ok-inj, load_list-All, IsVariable, check_variable-IsVariable,
}

-- A place of `environment`: empty, or a variable.
abbrev pub IsEntry : Option Bytes → Type 0
IsEntry none = Unit {0}
IsEntry (some v) = IsVariable v

-- The program's side of a service: its lists fit their arrays and hold variables.
pub record IsProgram (s : Service) : Type 0 where
  pub params : length s.param_list ≤ max_num_entries
  pub environment : length s.environment ≤ max_num_entries
  pub variables : All IsEntry s.environment
  pub extra : length s.environment_extra ≤ max_num_entries
  pub extra_variables : All IsVariable s.environment_extra

entries-All :
    (l : List Bytes)
    → All IsVariable l
    → (length (map some l) ≡ length l) × All IsEntry (map some l)
entries-All [] h = (refl, tt)
entries-All (v ∷ l) h = let rest = entries-All l h.1 in (ap suc rest.0, (h.0, rest.1))

environment_of-All :
    (o : Option (List Bytes))
    → length (list_or o) ≤ max_num_entries
    → All IsVariable (list_or o)
    → (length (environment_of o) ≤ max_num_entries) × All IsEntry (environment_of o)
environment_of-All none h k = (omega arith, tt)
environment_of-All (some []) h k = (omega arith, (tt, tt))
environment_of-All (some (v ∷ l)) h k =
    let entries = entries-All (v ∷ l) k in (omega (arith, h, entries.0), entries.1)

load_run-IsProgram :
    (dir : ServiceDir) (s s' : Service) (path : Option Bytes)
    → load_run dir s path ≡ ok s'
    → IsProgram s' × (s'.sgid_list ≡ s.sgid_list)
unfolding load_run
load_run-IsProgram dir s s' none e = cc
load_run-IsProgram dir s s' (some path) e =
    let files = dir.files in
    let params =
      >>=-ok (load_list files (codes "params") too_many_parameters (duplicate files)) _ s' e in
    let environment =
      >>=-ok (load_list files (codes "environment") too_many_variables (check_variable files)) _ s'
        params.2 in
    let extra =
      >>=-ok (load_list files (codes "environment_extra") too_many_variables (check_variable files))
        _ s' environment.2 in
    let params_fit =
      load_list-All {P = λ t. Unit {0}} (duplicate files) (λ t a eq. tt) files (codes "params")
        too_many_parameters params.0 params.1 in
    let variables =
      load_list-All (check_variable files) (check_variable-IsVariable files) files
        (codes "environment") too_many_variables environment.0 environment.1 in
    let extra_fit =
      load_list-All (check_variable files) (check_variable-IsVariable files) files
        (codes "environment_extra") too_many_variables extra.0 extra.1 in
    let places = environment_of-All environment.0 variables.0 variables.1 in
    let done = ok-inj extra.2 in
    (
      record {
        params = subst (λ l. length l ≤ max_num_entries) (ap (λ v. v.param_list) done) params_fit.0;
        environment =
            subst (λ l. length l ≤ max_num_entries) (ap (λ v. v.environment) done) places.0;
        variables = subst (All IsEntry) (ap (λ v. v.environment) done) places.1;
        extra =
            subst (λ l. length l ≤ max_num_entries) (ap (λ v. v.environment_extra) done)
              extra_fit.0;
        extra_variables = subst (All IsVariable) (ap (λ v. v.environment_extra) done) extra_fit.1;
      },
      sym (ap (λ v. v.sgid_list) done),
    )

pub load_program-IsProgram :
    (dir : ServiceDir) (s s' : Service)
    → load_program dir s ≡ ok s'
    → IsProgram s' × (s'.sgid_list ≡ s.sgid_list)
unfolding load_program
load_program-IsProgram dir s s' e = elim (Bool-cases (dir.executable (codes "run"))) [
  | inr no_run ↦ cc
  | inl run ↦ load_run-IsProgram dir s s' (dir.realpath (codes "run")) (ground (arith, run, e))
]

module _ (s s' : Service) (params : s.param_list ≡ s'.param_list)
    (environment : s.environment ≡ s'.environment)
    (extra : s.environment_extra ≡ s'.environment_extra) where
  IsProgram-transfer : IsProgram s → IsProgram s'
  IsProgram-transfer h = record {
    params = subst (λ l. length l ≤ max_num_entries) params h.params;
    environment = subst (λ l. length l ≤ max_num_entries) environment h.environment;
    variables = subst (All IsEntry) environment h.variables;
    extra = subst (λ l. length l ≤ max_num_entries) extra h.extra;
    extra_variables = subst (All IsVariable) extra h.extra_variables;
  }

pub load_identity-IsProgram :
    (dir : ServiceDir) (s s' : Service)
    → load_identity dir s ≡ ok s'
    → IsProgram s
    → IsProgram s' × (length s'.sgid_list ≤ length s.sgid_list + max_num_entries)
unfolding load_identity
load_identity-IsProgram dir s s' e h =
    let uid = >>=-ok (load_value_as_uid dir.files (codes "uid") s.uid) _ s' e in
    let gid = >>=-ok (load_value_as_gid dir.files (codes "gid") s.gid) _ s' uid.2 in
    let groups =
      >>=-ok (load_list dir.files (codes "sgid") too_many_groups (string_to_gid dir.files.getgrnam))
        _ s' gid.2 in
    let umask = >>=-ok (load_value_as_mode dir.files (codes "umask") s.umask) _ s' groups.2 in
    let priority =
      >>=-ok (load_value_as_int dir.files (codes "priority") s.priority) _ s' umask.2 in
    let workdir =
      >>=-ok (load_value_as_string dir.files (codes "workdir") (into 256 s.working_directory)) _ s'
        priority.2 in
    let fits =
      load_list-All {P = λ g. Unit {0}} (string_to_gid dir.files.getgrnam) (λ t a eq. tt) dir.files
        (codes "sgid") too_many_groups groups.0 groups.1 in
    let sgids : s.sgid_list ++ list_or groups.0 ≡ s'.sgid_list =
      ap (λ v. v.sgid_list) (ok-inj workdir.2) in
    (
      IsProgram-transfer s s' (ap (λ v. v.param_list) (ok-inj workdir.2))
          (ap (λ v. v.environment) (ok-inj workdir.2))
          (ap (λ v. v.environment_extra) (ok-inj workdir.2)) h,
      subst (λ l. length l ≤ length s.sgid_list + max_num_entries) sgids
          (omega (arith, fits.0, length-append s.sgid_list (list_or groups.0))),
    )

pub load_behaviour-IsProgram :
    (dir : ServiceDir) (s s' : Service)
    → load_behaviour dir s ≡ ok s'
    → IsProgram s
    → IsProgram s' × (s'.sgid_list ≡ s.sgid_list)
unfolding load_behaviour
load_behaviour-IsProgram dir s s' e h =
    let files = dir.files in
    let respawn = >>=-ok (load_value_as_bool files (codes "respawn") s.respawn) _ s' e in
    let sync = >>=-ok (load_value_as_bool files (codes "sync") s.sync) _ s' respawn.2 in
    let ignore =
      >>=-ok (load_value_as_bool files (codes "ignore_failure") s.ignore_failure) _ s' sync.2 in
    let shutdown =
      >>=-ok (load_value_as_bool files (codes "shutdown_on_terminate") s.shutdown_on_terminate) _ s'
        ignore.2 in
    let running =
      >>=-ok (load_value_as_uint files (codes "min_running_time") s.min_running_time) _ s'
        shutdown.2 in
    let ready =
      >>=-ok (load_value_as_uint files (codes "ready_timeout") s.ready_timeout) _ s' running.2 in
    let interval =
      >>=-ok (load_value_as_interval files (codes "interval") s.interval) _ s' ready.2 in
    let done = ok-inj interval.2 in
    (
      IsProgram-transfer s s' (ap (λ v. v.param_list) done) (ap (λ v. v.environment) done)
          (ap (λ v. v.environment_extra) done) h,
      sym (ap (λ v. v.sgid_list) done),
    )
