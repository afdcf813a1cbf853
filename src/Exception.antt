-- ===== src/Exception.antt =====
-- The exceptions of src/cinit: `ThrowMessage` with the text of its message, `Try` and `Catch`.
use docker_baseimage.Base.{◌≡◌, refl, ◌⊎◌, inl, inr}
use docker_baseimage.Text.{Bytes}

-- One constructor for each text that src/cinit throws; a field is what `%s` or `%d` prints.
pub data Message : Type 0 where
  not_a_boolean not_a_number out_of_range : Message
  unknown_user unknown_group : Bytes → Message
  could_not_open file_too_big read_failed buffer_too_small allocation_failed : Message
  command_failed output_too_big output_no_buffer output_no_memory stat_failed : Message
  could_not_load : Bytes → Message → Message
  name_too_long too_many_services service_not_found : Message
  run_not_executable no_real_path out_of_memory : Message
  too_many_parameters too_many_variables too_many_groups : Message
  invalid_variable_format invalid_variable_name : Message
  respawn_and_sync respawn_and_interval : Message
  could_not_load_service : Bytes → Message → Message
  no_directory_stream : Message
  assertion_failed : Message
  could_not_fork no_logger_thread could_not_wait : Message
  terminated_with_error uptime_not_met not_ready died_before_ready : Message
  failed_to_start : Bytes → Message → Message
  progname_too_long root_too_long root_not_absolute help : Message
  invalid_gracetime invalid_ready_timeout : Bytes → Message → Message
  invalid_uid invalid_gid invalid_umask invalid_group : Bytes → Message → Message
  invalid_groups : Message → Message
  list_not_processed too_many_default_groups : Message
  unexpected_argument root_not_found : Bytes → Message

pub data Result {ℓ} (A : Type ℓ) : Type ℓ where
  ok : A → Result A
  throw : Message → Result A

module _ {ℓ κ} {A : Type ℓ} {B : Type κ} where
  infixl 5 ◌>>=◌
  abbrev pub ◌>>=◌ : Result A → (A → Result B) → Result B
  ok a >>= f = f a
  throw e >>= f = throw e

-- Try { … } Catch (e) { ThrowMessage(…, e.mMessage); }
abbrev pub rethrow {ℓ} : {A : Type ℓ} → (Message → Message) → Result A → Result A
rethrow f (ok a) = ok a
rethrow f (throw e) = throw (f e)

pub Result-cases {ℓ} :
    {A : Type ℓ} (r : Result A) → ((a : A) × (r ≡ ok a)) ⊎ ((e : Message) × (r ≡ throw e))
Result-cases (ok a) = inl (a, refl)
Result-cases (throw e) = inr (e, refl)
