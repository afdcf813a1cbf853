-- ===== src/Monitor/Config/Contexts/Configured.antt =====
-- The context that `main` tails files with.
use docker_baseimage.Base.{
  some-inj, ℕ, ◌+◌, ◌*◌, ◌≤◌, ◌<◌, ◌≡◌, subst, inl, inr, Bool, List, [], ◌∷◌, ◌++◌, Option, some,
  ltb, ltb→lt, length, length-append, All, All-append, arith, Bool-cases,
}
use docker_baseimage.Text.{Bytes, codes}
use docker_baseimage.Monitor.{
  Notification, MonitorContext, max_num_targets, max_num_notifications,
  max_num_monitored_files_per_notification,
}
use docker_baseimage.Monitor.Config.{ConfigFs, EntryKind, join_path}
use docker_baseimage.Monitor.Config.Steps.{>>=-some, guard-some}
use docker_baseimage.Monitor.Config.Targets.{alloc_target}
use docker_baseimage.Monitor.Config.Targets.Usable.{IsUsable, alloc_target-IsUsable}
use docker_baseimage.Monitor.Config.Notifications.{alloc_notification}
use docker_baseimage.Monitor.Config.Notifications.Loaded.{IsComplete, alloc_notification-IsComplete}
use docker_baseimage.Monitor.Config.Contexts.{
  is_config_dir, each_dir, load_config_targets, load_config_notifications, add_all_monitored,
  context_size, create_context, MonitorOption, parse_options, prepare,
}
use docker_baseimage.Monitor.Config.Contexts.Merging.{
  IsCovering, num_files, add_all_monitored-IsCovering,
}

module _ {ℓ κ} {A : Type ℓ} (P : A → Type κ) (max_num : ℕ) (alloc : Bytes → Option A)
    (loads : (name : Bytes) (a : A) → alloc name ≡ some a → P a) where
  -- What the array holds: no more than it has room for, and only what was loaded.
  record IsArray (l : List A) : Type κ where
    few : length l ≤ max_num
    all : All P l

  each_dir-IsArray :
      (es : List (Bytes × EntryKind)) (l l' : List A)
      → each_dir max_num alloc es l ≡ some l'
      → IsArray l
      → IsArray l'
  unfolding each_dir
  each_dir-IsArray [] l l' e v = subst IsArray (some-inj e) v
  each_dir-IsArray (d ∷ es) l l' e v = elim (Bool-cases (is_config_dir d)) [
    | inr h ↦ each_dir-IsArray es l l' (rw h at e) v
    | inl h ↦
        let (room, e1) = guard-some (ltb (length l) max_num) _ l' (rw h at e) in
        let (a, loaded, e2) = >>=-some (alloc d.0) _ l' e1 in
        each_dir-IsArray es (l ++ a ∷ []) l' e2 (record {
          few = omega (arith, ltb→lt _ _ room, length-append l (a ∷ []));
          all = All-append P l _ v.all (loads d.0 a loaded, tt);
        })
  ]

-- A context that was created: its arrays fit, its targets and notifications can be used, and the
-- monitored files are those of the notifications.
pub record IsConfigured (ctx : MonitorContext) : Type 0 where
  pub targets_few : length ctx.targets ≤ max_num_targets
  pub targets_usable : All IsUsable ctx.targets
  pub notifications_few : length ctx.notifications ≤ max_num_notifications
  pub notifications_complete : All (IsComplete (length ctx.targets)) ctx.notifications
  pub files_few :
      length ctx.monitored_files ≤ max_num_notifications * max_num_monitored_files_per_notification
  pub files_covering : IsCovering ctx.notifications ctx.monitored_files

num_files_bound :
    (k : ℕ) (ns : List Notification) → All (IsComplete k) ns → num_files ns ≤ 4 * length ns
num_files_bound k [] h = omega arith
num_files_bound k (n ∷ ns) h = omega (arith, h.0.bounded.files_few, num_files_bound k ns h.1)

pub create_context-IsConfigured :
    (fs : ConfigFs) (dir : Bytes) (ctx : MonitorContext)
    → create_context fs dir ≡ some ctx
    → IsConfigured ctx
unfolding create_context load_config_targets load_config_notifications
create_context-IsConfigured fs dir ctx e =
    let (_, e1) = guard-some (fs.memory context_size) _ ctx e in
    let (_, e2) = guard-some (fs.memory (length dir + 1)) _ ctx e1 in
    let (tdir, _, e3) = >>=-some (join_path fs dir (codes "targets.d")) _ ctx e2 in
    let (ts, loaded_ts, e4) = >>=-some (load_config_targets fs tdir) _ ctx e3 in
    let (ndir, _, e5) = >>=-some (join_path fs dir (codes "notifications.d")) _ ctx e4 in
    let (ns, loaded_ns, e6) = >>=-some (load_config_notifications fs ts ndir) _ ctx e5 in
    let (mfs, merged, e7) = >>=-some (add_all_monitored fs ns []) _ ctx e6 in
    let (tes, _, et) = >>=-some (fs.opendir tdir) _ ts loaded_ts in
    let (nes, _, en) = >>=-some (fs.opendir ndir) _ ns loaded_ns in
    let targets =
      each_dir-IsArray IsUsable max_num_targets (alloc_target fs tdir)
        (alloc_target-IsUsable fs tdir) tes [] ts et (record { few = omega arith; all = tt }) in
    let notifications =
      each_dir-IsArray (IsComplete (length ts)) max_num_notifications
        (alloc_notification fs ts ndir)
        (λ name n. alloc_notification-IsComplete fs ts ndir name n targets.few) nes [] ns en
        (record { few = omega arith; all = tt }) in
    let covering = add_all_monitored-IsCovering fs ns mfs merged in
    subst IsConfigured (some-inj e7) (record {
      targets_few = targets.few;
      targets_usable = targets.all;
      notifications_few = notifications.few;
      notifications_complete = notifications.all;
      files_few = omega (
        arith,
        covering.few,
        num_files_bound (length ts) ns notifications.all,
        notifications.few,
      );
      files_covering = covering;
    })

-- A context that `main` goes on with: at most 16 targets, each with a program to send with, nothing
-- sent so far and a debouncing of 0 to INT_MAX or none; at most 16 notifications, each with a filter,
-- a title, a description and a level (of the three known, unless a program prints it), 1 to 4 files
-- with absolute paths, and at most 16 targets, which exist; and at most 64 monitored files, of which
-- no two have the same path and none was read from, among them each file of each notification with
-- the type that the notification gives it. There is at least one target and one notification.
pub prepare-IsConfigured :
    (fs : ConfigFs) (handler_set : Bool) (options : List MonitorOption) (ctx : MonitorContext)
    → prepare fs handler_set options ≡ some ctx
    → IsConfigured ctx × (0 < length ctx.notifications) × (0 < length ctx.targets)
unfolding prepare
prepare-IsConfigured fs handler_set options ctx e =
    let (dir, _, e1) = >>=-some (parse_options options (codes "/etc/logmonitor")) _ ctx e in
    let (_, e2) = guard-some handler_set _ ctx e1 in
    let (ctx', created, e3) = >>=-some (create_context fs dir) _ ctx e2 in
    let (n, e4) = guard-some (ltb 0 (length ctx'.notifications)) _ ctx e3 in
    let (t, e5) = guard-some (ltb 0 (length ctx'.targets)) _ ctx e4 in
    subst (λ c. IsConfigured c × (0 < length c.notifications) × (0 < length c.targets))
      (some-inj e5) (create_context-IsConfigured fs dir ctx' created, ltb→lt _ _ n, ltb→lt _ _ t)
