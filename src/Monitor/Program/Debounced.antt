-- ===== src/Monitor/Program/Debounced.antt =====
-- The whole program keeps to the debouncing of its targets.
use docker_baseimage.Base.{
  some-inj, ℕ, zero, suc, ◌+◌, ◌≤◌, ◌<◌, ◌≡◌, refl, sym, ap, ◌∙◌, subst, inl, inr, Bool, true,
  false, List, [], ◌∷◌, Option, none, some, ltb, length, length-replicate, replicate, get_or, All,
  arith, Bool-cases,
}
use docker_baseimage.Text.{Bytes}
use docker_baseimage.Monitor.{
  Target, MonitoredFile, MonitorContext, max_num_notifications, MonitorOs, Watch, sender_of,
}
use docker_baseimage.Monitor.Notify.{target_at, no_target, file_at}
use docker_baseimage.Monitor.Notify.Kept.{times_of, IsDebounced}
use docker_baseimage.Monitor.Config.{ConfigFs}
use docker_baseimage.Monitor.Config.Steps.{>>=-some, guard-some}
use docker_baseimage.Monitor.Config.Targets.Usable.{IsUsable}
use docker_baseimage.Monitor.Config.Contexts.{MonitorOption, prepare}
use docker_baseimage.Monitor.Config.Contexts.Configured.{prepare-IsConfigured}
use docker_baseimage.Monitor.Tail.{Look, open_files, tail_files, open_new, sought, put_file}
use docker_baseimage.Monitor.Tail.Spacing.{tail_files-IsDebounced}
use docker_baseimage.Monitor.Program.{initial_watch, run_monitor}

-- What the opening of the files does not touch.
record IsStart (t n : ℕ) (ctx : MonitorContext) (w : Watch) : Type 0 where
  same : w.ctx.targets ≡ ctx.targets
  silent : times_of t n w.events ≡ []

module _ (t n : ℕ) (ctx : MonitorContext) where
  open_new-IsStart :
      (path : Bytes) (fd : Option ℕ) (w : Watch)
      → IsStart t n ctx w
      → IsStart t n ctx (open_new path fd w)
  unfolding times_of
  open_new-IsStart path none w v = v
  open_new-IsStart path (some fd) w v = record { same = v.same; silent = v.silent }

  sought-IsStart :
      (is_status : Bool) (fd : Option ℕ) (w : Watch)
      → IsStart t n ctx w
      → IsStart t n ctx (sought is_status fd w)
  unfolding times_of
  sought-IsStart is_status none w v = v
  sought-IsStart true (some fd) w v = v
  sought-IsStart false (some fd) w v = record { same = v.same; silent = v.silent }

  put_file-IsStart :
      (mfid : ℕ) (mf : MonitoredFile) (w : Watch)
      → IsStart t n ctx w
      → IsStart t n ctx (put_file mfid mf w)
  put_file-IsStart mfid mf w v = record { same = v.same; silent = v.silent }

  open_files-IsStart :
      (mfid : ℕ) (fds : List (Option ℕ)) (w : Watch)
      → IsStart t n ctx w
      → IsStart t n ctx (open_files mfid fds w)
  unfolding open_files
  open_files-IsStart mfid [] w v = v
  open_files-IsStart mfid (fd ∷ fds) w v =
      elim (Bool-cases (ltb mfid (length w.ctx.monitored_files))) [
        | inl e ↦
            let mf = file_at w mfid in
            let opened = open_new mf.path fd w in
            let at_end = sought mf.is_status fd opened in
            let mf' = record mf { fd = fd } in
            rw e (
              open_files-IsStart (suc mfid) fds (put_file mfid mf' at_end) (
                put_file-IsStart mfid mf' at_end
                  (sought-IsStart mf.is_status fd opened (open_new-IsStart mf.path fd w v))))
        | inr e ↦ rw e v
      ]

All-at :
    (P : Target → Type 0) (ts : List Target) (i : ℕ)
    → All P ts
    → i < length ts
    → P (get_or ts i no_target)
All-at P [] i h l = absurd (omega arith)
All-at P (t ∷ ts) zero h l = h.0
All-at P (t ∷ ts) (suc i) h l = All-at P ts i h.1 (omega arith)

get_or-replicate : (k n : ℕ) → ◌≡◌ {A = ℕ} (get_or (replicate k 0) n 0) 0
get_or-replicate zero n = refl
get_or-replicate (suc k) zero = refl
get_or-replicate (suc k) (suc n) = get_or-replicate k n

-- Whatever the configuration, the files and the programs are: where the program comes to its passes
-- over the files, with a clock that never goes back and is past its first second, the times noted
-- for any notification (of the 16 there may be) sent to any of its targets are at least the target's
-- `debouncing` apart, with 0 it is sent once at most, and only a target without one may get it at
-- any time.
pub run_monitor-IsDebounced :
    (os : MonitorOs) (fs : ConfigFs) (handler_set : Bool) (options : List MonitorOption)
    (fds : List (Option ℕ)) (passes : List (List Look)) (ctx : MonitorContext) (w : Watch) (t n : ℕ)
    → ((k : ℕ) → os.clock k ≤ os.clock (suc k))
    → ((k : ℕ) → 0 < os.clock k)
    → prepare fs handler_set options ≡ some ctx
    → run_monitor os fs handler_set options fds passes ≡ some w
    → t < length ctx.targets
    → n < max_num_notifications
    → IsDebounced (get_or ctx.targets t no_target).debouncing (times_of t n w.events)
unfolding run_monitor times_of
run_monitor-IsDebounced os fs handler_set options fds passes ctx w t n monotone started p e ht hn =
    let (ctx', prepared, e1) = >>=-some (prepare fs handler_set options) _ w e in
    let (_, e2) = guard-some (os.memory (os.bufsiz + 1)) _ w e1 in
    let same_ctx : ctx' ≡ ctx = some-inj (sym prepared ∙ p) in
    let usable =
      All-at IsUsable ctx.targets t
        (prepare-IsConfigured fs handler_set options ctx p).0.targets_usable ht in
    let start : Watch = open_files 0 fds (initial_watch ctx) in
    let v =
      open_files-IsStart t n ctx 0 fds (initial_watch ctx)
        (record { same = refl; silent = refl }) in
    let fresh = usable.fresh.nothing_sent in
    let here : target_at (sender_of start) t ≡ get_or ctx.targets t no_target =
      ap (λ ts. get_or ts t no_target) v.same in
    let w_eq : tail_files os passes start ≡ w =
      ap (λ c. tail_files os passes (open_files 0 fds (initial_watch c))) (sym same_ctx)
      ∙ some-inj e2 in
    let zeros : (target_at (sender_of start) t).last_notif_sent
        ≡ replicate max_num_notifications 0 =
      ap (λ r. r.last_notif_sent) here ∙ fresh in
    let debounced =
      tail_files-IsDebounced os passes start t n monotone started (rw v.same ht)
        (omega (arith, hn, ap length zeros, length-replicate {A = ℕ} max_num_notifications 0))
        (ap (λ l. get_or l n 0) zeros ∙ get_or-replicate max_num_notifications n) v.silent in
    subst (λ r. IsDebounced r.debouncing (times_of t n w.events)) here
      (subst (λ x. IsDebounced (target_at (sender_of start) t).debouncing (times_of t n x.events))
        w_eq debounced)
