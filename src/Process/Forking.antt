-- ===== src/Process/Forking.antt =====
-- The parent's side of `fork_and_exec`.
use docker_baseimage.Base.{ℕ, suc, ◌≡◌, refl, Option, none, some, length, length-set}
use docker_baseimage.Process.{Os, State, tick, service_at, forked_parent, fork_and_exec}

-- The number of services is the same.
abbrev pub SameSize : State → State → Type 0
SameSize st after = length after.ctx.services ≡ length st.ctx.services

forked_parent-SameSize :
    (sid : ℕ) (o : Option (ℕ × ℕ)) (st : State) → SameSize st (forked_parent sid o st).0
unfolding forked_parent
forked_parent-SameSize sid none st = refl
forked_parent-SameSize sid (some (pid, pty_master)) st =
    length-set st.ctx.services sid (record (service_at st sid) { output_fd = some pty_master })

pub fork_and_exec-SameSize :
    (os : Os) (sid : ℕ) (st : State) → SameSize st (fork_and_exec os sid st).0
unfolding fork_and_exec
fork_and_exec-SameSize os sid st = forked_parent-SameSize sid (os.forkpty st.calls) (tick st)

-- What fork_and_exec returns for an answer of forkpty().
abbrev pub forked_pid : Option (ℕ × ℕ) → ℕ
forked_pid none = 0
forked_pid (some (pid, pty_master)) = pid

forked_parent-call :
    (sid : ℕ) (o : Option (ℕ × ℕ)) (st : State)
    → ((forked_parent sid o st).1 ≡ forked_pid o) × ((forked_parent sid o st).0.calls ≡ st.calls)
unfolding forked_parent
forked_parent-call sid none st = (refl, refl)
forked_parent-call sid (some (pid, pty_master)) st = (refl, refl)

-- One answer is asked for, and gives the process.
pub fork_and_exec-call :
    (os : Os) (sid : ℕ) (st : State)
    → ((fork_and_exec os sid st).1 ≡ forked_pid (os.forkpty st.calls))
      × ((fork_and_exec os sid st).0.calls ≡ suc st.calls)
unfolding fork_and_exec
fork_and_exec-call os sid st = forked_parent-call sid (os.forkpty st.calls) (tick st)
