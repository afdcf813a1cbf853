-- ===== src/Monitor/Config/Targets/Usable.antt =====
-- A target that was loaded can be used.
use docker_baseimage.Base.{
  some-inj, ℕ, ◌+◌, ◌<◌, ◌≡◌, refl, sym, subst, ◌⊎◌, inl, inr, true, some, leb, ltb, not, ◌||◌,
  length, replicate, arith, Bool-cases,
}
use docker_baseimage.Base.Int.{ℤ, pos, negsuc}
use docker_baseimage.Text.{Bytes, terminate_at_first_eol}
use docker_baseimage.Convert.{scan_number, strtol_value, int_half}
use docker_baseimage.Monitor.{Target, max_num_notifications}
use docker_baseimage.Monitor.Config.{ConfigFs, join_path, file2str, each_file, is_set}
use docker_baseimage.Monitor.Config.Steps.{
  >>=-some, guard-some, if-some, else-some, each_file_keeps,
}
use docker_baseimage.Monitor.Config.Targets.{
  in_range, debouncing_value, TargetFile, send_file, debouncing_file, unknown_file, target_file_of,
  target_file, target_entry, new_target, target_size, alloc_target,
}

-- No value, or one of an int that is not negative.
abbrev pub IsDebouncing : ℤ → Type 0
IsDebouncing d = (d ≡ negsuc 0) ⊎ ((k : ℕ) × (d ≡ pos k) × (k < int_half))

-- What its notifications need: nothing was sent to it so far, as far as it can tell.
pub record IsFresh (t : Target) : Type 0 where
  pub debouncing_known : IsDebouncing t.debouncing
  pub nothing_sent : t.last_notif_sent ≡ replicate max_num_notifications 0

in_range-IsDebouncing : (v d : ℤ) → in_range v ≡ some d → IsDebouncing d
in_range-IsDebouncing (negsuc n) d e = cc
in_range-IsDebouncing (pos n) d e = elim (Bool-cases (leb int_half n)) [
  | inl l ↦ absurd (ground (arith, l, e))
  | inr l ↦ inr (n, sym (some-inj (rw l at e)), ground (arith, l))
]

debouncing_value-IsDebouncing : (s : Bytes) (d : ℤ) → debouncing_value s ≡ some d → IsDebouncing d
unfolding debouncing_value
debouncing_value-IsDebouncing s d e =
    let n = scan_number 10 s in
    in_range-IsDebouncing (strtol_value n) d
      (else-some (not n.converted || ltb 0 (length n.rest)) (in_range (strtol_value n)) d e).1

target_file-IsFresh :
    (fs : ConfigFs) (t : Target) (filepath : Bytes) (f : TargetFile) (t' : Target)
    → target_file fs t filepath f ≡ some t'
    → IsFresh t
    → IsFresh t'
unfolding target_file
target_file-IsFresh fs t filepath send_file t' e v =
    let (_, same) = if-some (fs.executable filepath) _ t' e in
    subst IsFresh same
      (record { debouncing_known = v.debouncing_known; nothing_sent = v.nothing_sent })
target_file-IsFresh fs t filepath debouncing_file t' e v =
    let (text, _, e1) = >>=-some (file2str fs filepath) _ t' e in
    let (value, known, e2) = >>=-some (debouncing_value (terminate_at_first_eol text)) _ t' e1 in
    subst IsFresh (some-inj e2) (record {
      debouncing_known = debouncing_value-IsDebouncing (terminate_at_first_eol text) value known;
      nothing_sent = v.nothing_sent;
    })
target_file-IsFresh fs t filepath unknown_file t' e v = subst IsFresh (some-inj e) v

target_entry-IsFresh :
    (fs : ConfigFs) (dir : Bytes) (t : Target) (name : Bytes) (t' : Target)
    → target_entry fs dir t name ≡ some t'
    → IsFresh t
    → IsFresh t'
unfolding target_entry
target_entry-IsFresh fs dir t name t' e v =
    let (filepath, _, e1) = >>=-some (join_path fs dir name) _ t' e in
    target_file-IsFresh fs t filepath (target_file_of name) t' e1 v

-- A target that was loaded has a program to send with.
pub record IsUsable (t : Target) : Type 0 where
  pub fresh : IsFresh t
  pub can_send : is_set t.send ≡ true

pub alloc_target-IsUsable :
    (fs : ConfigFs) (dir name : Bytes) (t : Target) → alloc_target fs dir name ≡ some t → IsUsable t
unfolding alloc_target
alloc_target-IsUsable fs dir name t e =
    let (path, _, e1) = >>=-some (join_path fs dir name) _ t e in
    let (_, e2) = guard-some (fs.memory target_size) _ t e1 in
    let (_, e3) = guard-some (fs.memory (length name + 1)) _ t e2 in
    let (entries, _, e4) = >>=-some (fs.opendir path) _ t e3 in
    let (t', loaded, e5) =
      >>=-some (each_file (target_entry fs path) entries (new_target name)) _ t e4 in
    let (set, e6) = guard-some (is_set t'.send) _ t e5 in
    subst IsUsable (some-inj e6) (record {
      fresh =
          each_file_keeps (target_entry fs path) IsFresh (target_entry-IsFresh fs path) entries
            (new_target name) t' loaded
            (record { debouncing_known = inl refl; nothing_sent = refl });
      can_send = set;
    })
