-- ===== src/Supervisor/Start.antt =====
-- Starting a service: `start_service` and `fork_and_exec`.
use docker_baseimage.Base.{
  ℕ, zero, suc, ◌+◌, ◌<◌, ◌≡◌, ◌≢◌, refl, sym, ap, ◌∙◌, subst, ◌⊎◌, inl, inr, true, false, ltb,
  ltb-false→le, ◌==◌, ==_iff, length, length-set, get_or-set_self, Bool-cases, arith,
}
use docker_baseimage.Exception.{
  Result, ok, throw, service_not_found, out_of_memory, no_logger_thread, could_not_fork,
}
use docker_baseimage.Service.{Service, cleared}
use docker_baseimage.Process.{slept, Os, State, emit, service_at, put_service, fork_and_exec}
use docker_baseimage.Process.Forking.{fork_and_exec-SameSize, forked_pid, fork_and_exec-call}
use docker_baseimage.Supervisor.{create_logger, started, fork_attempts, start_service, max_forks}

-- The service has no process, and its directory can be entered: all that a start needs before the fork.
abbrev pub CanStart : Os → ℕ → State → Type 0
CanStart os sid st = ((service_at st sid).pid ≡ 0) × (os.chdir (service_at st sid).name ≡ true)

-- So many forks in a row fail, from the calls of the state on.
abbrev pub ForksFail : Os → State → ℕ → Type 0
ForksFail os st n = (i : ℕ) → i < n → forked_pid (os.forkpty (st.calls + i)) ≡ 0

-- The outcomes of a start, with their conditions.
pub data AfterStart (os : Os) (sid : ℕ) (st after : State) (r : Result (Unit {0})) : Type 0 where
  was_started : (service_at st sid).pid ≢ 0 → after ≡ st → r ≡ ok tt → AfterStart os sid st after r
  no_directory :
      (service_at st sid).pid ≡ 0
      → os.chdir (service_at st sid).name ≡ false
      → after ≡ st
      → r ≡ throw service_not_found
      → AfterStart os sid st after r
  now_started :
      CanStart os sid st
      → r ≡ ok tt
      → (service_at after sid).pid ≢ 0
      → (service_at after sid).logger_started ≡ true
      → AfterStart os sid st after r
  without_logger :
      CanStart os sid st
      → (r ≡ throw out_of_memory) ⊎ (r ≡ throw no_logger_thread)
      → (service_at after sid).pid ≢ 0
      → AfterStart os sid st after r
  not_forked :
      CanStart os sid st
      → ForksFail os st 4
      → r ≡ throw could_not_fork
      → (service_at after sid).pid ≡ 0
      → AfterStart os sid st after r

create_logger-AfterStart :
    (os : Os) (sid : ℕ) (before st : State)
    → sid < length st.ctx.services
    → (service_at st sid).pid ≢ 0
    → CanStart os sid before
    → AfterStart os sid before (create_logger os sid st).0 (create_logger os sid st).1
unfolding create_logger
create_logger-AfterStart os sid before st in_range running can =
    let s = service_at st sid in
    let s' = record s { logger_exit = false } in
    let st' = put_service st sid s' in
    let at : service_at st' sid ≡ s' = get_or-set_self st.ctx.services sid s' cleared in_range in
    let in_range' : sid < length st'.ctx.services =
      subst (λ n. sid < n) (sym (length-set st.ctx.services sid s')) in_range in
    let s'' = record (service_at st' sid) { logger_started = true } in
    let at' : service_at (put_service st' sid s'') sid ≡ s'' =
      get_or-set_self st'.ctx.services sid s'' cleared in_range' in
    elim (Bool-cases (os.memory st.calls)) [
      | inr no_memory ↦ rw (no_memory) (without_logger can (inl refl) running)
      | inl memory ↦ elim (Bool-cases (os.create_thread (suc st.calls))) [
        | inr no_thread ↦
            rw (memory, no_thread)
              (without_logger can (inr refl)
                (λ e. running (sym (ap (λ (v : Service). v.pid) at) ∙ e)))
        | inl thread ↦
            rw (memory, thread)
              (now_started can refl
                (λ e. running (
                  sym (ap (λ (v : Service). v.pid) at) ∙ sym (ap (λ (v : Service). v.pid) at') ∙ e))
                (ap (λ (v : Service). v.logger_started) at'))
      ]
    ]

one_more_fails :
    (os : Os) (before : State) (k calls : ℕ)
    → ForksFail os before k
    → calls ≡ before.calls + k
    → forked_pid (os.forkpty calls) ≡ 0
    → ForksFail os before (suc k)
one_more_fails os before k calls h e fails i le = elim (Bool-cases (i == k)) [
  | inl last ↦
      ap (λ j. forked_pid (os.forkpty (before.calls + j))) ((==_iff i k).0 last)
      ∙ ap (λ c. forked_pid (os.forkpty c)) (sym e)
      ∙ fails
  | inr earlier ↦ h i (ground (arith, earlier, le))
]

fork_attempts-AfterStart :
    (os : Os) (sid n k : ℕ) (before st : State)
    → n + k ≡ max_forks
    → st.calls ≡ before.calls + k
    → ForksFail os before k
    → sid < length st.ctx.services
    → (service_at st sid).pid ≡ 0
    → CanStart os sid before
    → AfterStart os sid before (fork_attempts os sid n st).0 (fork_attempts os sid n st).1
unfolding fork_attempts
fork_attempts-AfterStart os sid zero k before st all at_call failed in_range idle can =
    not_forked can (subst (ForksFail os before) (omega (arith, all)) failed) refl idle
fork_attempts-AfterStart os sid (suc n) k before st all at_call failed in_range idle can =
    let r = fork_and_exec os sid st in
    let st' = r.0 in
    let size = fork_and_exec-SameSize os sid st in
    let call = fork_and_exec-call os sid st in
    let in_range' : sid < length st'.ctx.services = omega (arith, size, in_range) in
    elim (Bool-cases (ltb 0 r.1)) [
      | inl forks ↦
          let s' = record (service_at st' sid) { pid = r.1; start_time = os.clock st'.calls } in
          let at : service_at (started os sid r.1 st') sid ≡ s' =
            get_or-set_self st'.ctx.services sid s' cleared in_range' in
          rw (forks) (
            create_logger-AfterStart os sid before (started os sid r.1 st')
              (omega (arith, in_range', length-set st'.ctx.services sid s'))
              (λ e. ground (arith, forks, sym (ap (λ (v : Service). v.pid) at) ∙ e)) can)
      | inr fails ↦
          let s' = record (service_at st' sid) { pid = r.1 } in
          let at = get_or-set_self st'.ctx.services sid s' cleared in_range' in
          let none_forked : r.1 ≡ 0 = omega (arith, ltb-false→le 0 r.1 fails) in
          rw (fails) (
            fork_attempts-AfterStart os sid n (suc k) before
              (emit (slept 500) (put_service st' sid s')) (omega (arith, all))
              (omega (arith, at_call, call.1))
              (one_more_fails os before k st.calls failed at_call (sym call.0 ∙ none_forked))
              (omega (arith, in_range', length-set st'.ctx.services sid s'))
              (ap (λ (v : Service). v.pid) at ∙ none_forked) can)
    ]

-- Starting a service of the table. One that has a process is left as it is, and the start succeeds; and
-- where it has none but its directory cannot be entered, nothing is changed. Only else there is a fork:
-- where the start succeeds, the service has a process and a logger; where no logger could be created, it
-- has a process all the same; and it has none only where all of the 4 forks failed.
pub start_service-AfterStart :
    (os : Os) (sid : ℕ) (st : State)
    → sid < length st.ctx.services
    → AfterStart os sid st (start_service os sid st).0 (start_service os sid st).1
unfolding start_service
start_service-AfterStart os sid st in_range = elim (Bool-cases ((service_at st sid).pid == 0)) [
  | inr runs ↦ rw (runs) (was_started (λ e. ground (arith, runs, e)) refl refl)
  | inl idle ↦
      let no_process = (==_iff (service_at st sid).pid 0).0 idle in
      elim (Bool-cases (os.chdir (service_at st sid).name)) [
        | inr missing ↦ rw (idle, missing) (no_directory no_process missing refl refl)
        | inl there ↦
            rw (idle, there)
              (fork_attempts-AfterStart os sid max_forks 0 st st refl (omega arith)
                (λ i le. absurd (omega (arith, le))) in_range no_process (no_process, there))
      ]
]
