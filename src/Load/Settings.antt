-- ===== src/Load/Settings.antt =====
-- What holds of the settings of a service that was loaded.
use docker_baseimage.Base.{
  ◌+◌, ◌≤◌, ◌≡◌, refl, ap, subst, inl, inr, false, not, ◌&&◌, ◌||◌, ltb, length, Bool-cases, arith,
}
use docker_baseimage.Text.{Bytes, codes}
use docker_baseimage.Exception.{ok, ◌>>=◌}
use docker_baseimage.Values.{max, load_value_as_bool}
use docker_baseimage.Service.{Service, Context, max_num_entries}
use docker_baseimage.Load.{
  ServiceDir, service_defaults, load_program, load_identity, load_behaviour, finish_service,
  fill_service,
}
use docker_baseimage.Load.Lists.{>>=-ok, ok-inj}
use docker_baseimage.Load.Programs.{
  IsProgram, load_program-IsProgram, load_identity-IsProgram, load_behaviour-IsProgram,
}

-- The settings that a supervisor may count on.
pub record IsLoaded (ctx : Context) (name : Bytes) (s : Service) : Type 0 where
  pub program : IsProgram s
  pub named : s.name ≡ name
  pub stopped : s.pid ≡ 0
  pub no_sync : s.respawn && s.sync ≡ false
  pub no_interval : s.respawn && ltb 0 s.interval ≡ false
  pub patience : ctx.default_srv_ready_timeout ≤ s.ready_timeout
  pub groups : length s.sgid_list ≤ length ctx.default_srv_sgid_list + max_num_entries

finish_service-IsLoaded :
    (ctx : Context) (name : Bytes) (s s' : Service)
    → finish_service ctx name s ≡ ok s'
    → IsProgram s
    → length s.sgid_list ≤ length ctx.default_srv_sgid_list + max_num_entries
    → IsLoaded ctx name s'
unfolding finish_service
finish_service-IsLoaded ctx name s s' e h groups = elim (Bool-cases (s.respawn && s.sync)) [
  | inl both ↦ cc
  | inr one ↦ elim (Bool-cases (s.respawn && ltb 0 s.interval)) [
    | inl periodic ↦ cc
    | inr plain ↦
        let done : record s {
          ready_timeout = max s.ready_timeout ctx.default_srv_ready_timeout;
          pid = 0;
          name = name;
        }
            ≡ s' =
          ok-inj (ground (arith, e, one, plain)) in
        subst (IsLoaded ctx name) done (record {
          program = record {
            params = h.params;
            environment = h.environment;
            variables = h.variables;
            extra = h.extra;
            extra_variables = h.extra_variables;
          };
          named = refl;
          stopped = refl;
          no_sync = one;
          no_interval = plain;
          patience = ground arith;
          groups = groups;
        })
  ]
]

-- A service that `load_service` fills in has the name asked for and no process; its parameters and
-- variables fit their arrays and every variable is a name, an equal sign and a value; it is not
-- both respawned and waited for, nor respawned and run at an interval; and its timeout is at least
-- the default one. Its groups number at most the default ones and 32 more.
pub fill_service-IsLoaded :
    (ctx : Context) (dir : ServiceDir) (name : Bytes) (s : Service)
    → fill_service ctx dir name ≡ ok s
    → IsLoaded ctx name s
unfolding fill_service
fill_service-IsLoaded ctx dir name s e =
    let fresh = record (service_defaults ctx) {
      is_service_group = not (dir.exists (codes "run"));
    } in
    let disabled = >>=-ok (load_value_as_bool dir.files (codes "disabled") fresh.disabled) _ s e in
    let s' = record fresh { disabled = (disabled.0).1 } in
    elim (Bool-cases (s'.is_service_group || s'.disabled)) [
      | inl idle ↦
          let done : record s' { name = name } ≡ s = ok-inj (ground (arith, idle, disabled.2)) in
          subst (IsLoaded ctx name) done (record {
            program = record {
              params = omega arith;
              environment = omega arith;
              variables = tt;
              extra = omega arith;
              extra_variables = tt;
            };
            named = refl;
            stopped = refl;
            no_sync = refl;
            no_interval = refl;
            patience = omega arith;
            groups = omega arith;
          })
      | inr active ↦
          let program =
            >>=-ok (load_program dir s')
              (λ s1. load_identity dir s1 >>= λ s2.
                load_behaviour dir s2 >>= λ s3. finish_service ctx name s3)
              s (ground (arith, active, disabled.2)) in
          let identity = >>=-ok (load_identity dir program.0) _ s program.2 in
          let behaviour = >>=-ok (load_behaviour dir identity.0) _ s identity.2 in
          let programmed = load_program-IsProgram dir s' program.0 program.1 in
          let identified =
            load_identity-IsProgram dir program.0 identity.0 identity.1 programmed.0 in
          let behaved =
            load_behaviour-IsProgram dir identity.0 behaviour.0 behaviour.1 identified.0 in
          finish_service-IsLoaded ctx name behaviour.0 s behaviour.2 behaved.0
            (omega (arith, identified.1, ap length behaved.1, ap length programmed.1))
    ]
