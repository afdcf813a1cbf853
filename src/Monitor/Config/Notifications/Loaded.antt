-- ===== src/Monitor/Config/Notifications/Loaded.antt =====
-- A notification that was loaded has all that `handle_line` uses.
use docker_baseimage.Base.{
  some-inj, ℕ, suc, ◌+◌, ◌≤◌, ◌<◌, ◌≡◌, refl, ap, subst, ◌⊎◌, inl, inr, Bool, true, false, not,
  ◌&&◌, List, [], ◌∷◌, some, ◌==◌, if◌then◌else◌, length, All, arith,
}
use docker_baseimage.Text.{Bytes}
use docker_baseimage.Monitor.{Target, Notification, max_num_targets}
use docker_baseimage.Monitor.Config.{ConfigFs, join_path, each_file, is_set}
use docker_baseimage.Monitor.Config.Steps.{>>=-some, guard-some, each_file_keeps}
use docker_baseimage.Monitor.Config.Notifications.{
  notification_file_of, notification_entry, default_targets, with_default, new_notification,
  notification_size, is_complete, alloc_notification,
}
use docker_baseimage.Monitor.Config.Notifications.Complete.{
  IsBounded, Bounded, notification_file-IsBounded,
}

-- What a loaded notification has, where this many targets are known.
pub record IsComplete (num_targets : ℕ) (n : Notification) : Type 0 where
  pub bounded : IsBounded num_targets n
  pub filter_set : is_set n.filter ≡ true
  pub title_set : is_set n.title ≡ true
  pub desc_set : is_set n.desc ≡ true
  pub level_set : is_set n.level ≡ true
  pub has_file : 0 < length n.monitored_files
  pub has_target : (0 < length n.targets) ⊎ (num_targets ≡ 0)

pub &&-true : (a b : Bool) → (a && b) ≡ true → (a ≡ true) × (b ≡ true)
&&-true true b e = (refl, e)
&&-true false b e = cc

notification_entry-IsBounded :
    (fs : ConfigFs) (ts : List Target) (dir : Bytes) (n : Notification) (name : Bytes)
    (n' : Notification)
    → notification_entry fs ts dir n name ≡ some n'
    → Bounded ts n
    → Bounded ts n'
unfolding notification_entry
notification_entry-IsBounded fs ts dir n name n' e v =
    let (filepath, _, e1) = >>=-some (join_path fs dir name) _ n' e in
    notification_file-IsBounded fs ts n filepath (notification_file_of name) n' e1 v

default_targets-All :
    (ts : List Target) (from k : ℕ)
    → from + length ts ≡ k
    → All (λ tidx. tidx < k) (default_targets ts from)
default_targets-All [] from k h = tt
default_targets-All (t ∷ ts) from k h =
    (omega (arith, h), default_targets-All ts (suc from) k (omega (arith, h)))

length-default_targets :
    (ts : List Target) (from : ℕ) → length (default_targets ts from) ≡ length ts
length-default_targets [] from = refl
length-default_targets (t ∷ ts) from = ap suc (length-default_targets ts (suc from))

default_nonempty : (ts : List Target) → (0 < length (default_targets ts 0)) ⊎ (length ts ≡ 0)
default_nonempty [] = inr refl
default_nonempty (t ∷ ts) = inl (omega arith)

-- The targets that a notification ends up with.
record IsChosen (num_targets : ℕ) (chosen : List ℕ) : Type 0 where
  few : length chosen ≤ max_num_targets
  known : All (λ tidx. tidx < num_targets) chosen
  some_or_none : (0 < length chosen) ⊎ (num_targets ≡ 0)

with_default-IsChosen :
    (ts : List Target) (named : List ℕ)
    → length ts ≤ max_num_targets
    → length named ≤ max_num_targets
    → All (λ tidx. tidx < length ts) named
    → IsChosen (length ts) (if length named == 0 then default_targets ts 0 else named)
with_default-IsChosen ts [] few h k = record {
  few = omega (arith, few, length-default_targets ts 0);
  known = default_targets-All ts 0 (length ts) (omega arith);
  some_or_none = default_nonempty ts;
}
with_default-IsChosen ts (t ∷ named) few h k =
    let more : (length (t ∷ named) == 0) ≡ false = ground arith in
    rw more (record { few = h; known = k; some_or_none = inl (omega arith) })

with_default-IsComplete :
    (ts : List Target) (n : Notification)
    → length ts ≤ max_num_targets
    → Bounded ts n
    → is_complete n ≡ true
    → IsComplete (length ts) (with_default ts n)
with_default-IsComplete ts n few v c =
    let chosen = with_default-IsChosen ts n.targets few v.targets_few v.targets_known in
    let (four, files) =
      &&-true (is_set n.filter && is_set n.title && is_set n.desc && is_set n.level)
        (not (length n.monitored_files == 0)) c in
    let (three, level) =
      &&-true (is_set n.filter && is_set n.title && is_set n.desc) (is_set n.level) four in
    let (two, desc) = &&-true (is_set n.filter && is_set n.title) (is_set n.desc) three in
    let (filter, title) = &&-true (is_set n.filter) (is_set n.title) two in
    record {
      bounded = record {
        level_known = v.level_known;
        files_few = v.files_few;
        files_absolute = v.files_absolute;
        targets_few = chosen.few;
        targets_known = chosen.known;
      };
      filter_set = filter;
      title_set = title;
      desc_set = desc;
      level_set = level;
      has_file = ground (arith, files);
      has_target = chosen.some_or_none;
    }

pub alloc_notification-IsComplete :
    (fs : ConfigFs) (ts : List Target) (dir name : Bytes) (n : Notification)
    → length ts ≤ max_num_targets
    → alloc_notification fs ts dir name ≡ some n
    → IsComplete (length ts) n
unfolding alloc_notification
alloc_notification-IsComplete fs ts dir name n few e =
    let (path, _, e1) = >>=-some (join_path fs dir name) _ n e in
    let (_, e2) = guard-some (fs.memory notification_size) _ n e1 in
    let (_, e3) = guard-some (fs.memory (length name + 1)) _ n e2 in
    let (entries, _, e4) = >>=-some (fs.opendir path) _ n e3 in
    let (n', loaded, e5) =
      >>=-some (each_file (notification_entry fs ts path) entries (new_notification name)) _ n e4 in
    let (complete, e6) = guard-some (is_complete n') _ n e5 in
    let bounded =
      each_file_keeps (notification_entry fs ts path) (Bounded ts)
        (notification_entry-IsBounded fs ts path) entries (new_notification name) n' loaded
        (record {
          level_known = tt;
          files_few = omega arith;
          files_absolute = tt;
          targets_few = omega arith;
          targets_known = tt;
        }) in
    subst (IsComplete (length ts)) (some-inj e6)
      (with_default-IsComplete ts n' few bounded complete)
