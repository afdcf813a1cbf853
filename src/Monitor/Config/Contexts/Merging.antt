-- ===== src/Monitor/Config/Contexts/Merging.antt =====
-- The monitored files of a context: those of all notifications, each once.
use docker_baseimage.Base.{
  some-inj, ℕ, ◌+◌, ◌≤◌, ◌≡◌, ◌≢◌, refl, sym, subst, ◌⊎◌, inl, inr, Bool, true, false, List, [],
  ◌∷◌, ◌++◌, none, some, length, length-append, All, All-append, arith, Bool-cases,
}
use docker_baseimage.Text.{Bytes, bytes_eq}
use docker_baseimage.Service.Table.{bytes_eq_iff}
use docker_baseimage.Monitor.{Notification, MonitoredFile}
use docker_baseimage.Monitor.Config.{ConfigFs}
use docker_baseimage.Monitor.Config.Steps.{>>=-some, guard-some, if-some}
use docker_baseimage.Monitor.Config.Contexts.{
  same_type, find_monitored, new_monitored, add_unless, add_monitored, add_all_monitored,
}

-- A file is monitored as what a notification says it is.
abbrev pub Has : List MonitoredFile → Bytes × Bool → Type 0
Has [] f = ⊥
Has (mf ∷ mfs) f = ((mf.path ≡ f.0) × (mf.is_status ≡ f.1)) ⊎ Has mfs f

abbrev pub IsDistinct : List MonitoredFile → Type 0
IsDistinct [] = Unit {0}
IsDistinct (mf ∷ mfs) = All (λ g. g.path ≢ mf.path) mfs × IsDistinct mfs

-- It was not read from so far.
abbrev pub IsNew : MonitoredFile → Type 0
IsNew mf = (mf.fd ≡ none) × (mf.pending_buf ≡ none) × (mf.last_read ≡ 0)

Has-append : (mfs ns : List MonitoredFile) (f : Bytes × Bool) → Has mfs f → Has (mfs ++ ns) f
Has-append (mf ∷ mfs) ns f (inl h) = inl h
Has-append (mf ∷ mfs) ns f (inr h) = inr (Has-append mfs ns f h)
Has-append [] ns f h = absurd h

Has-last :
    (mfs : List MonitoredFile) (path : Bytes) (is_status : Bool)
    → Has (mfs ++ new_monitored path is_status ∷ []) (path, is_status)
Has-last [] path is_status = inl (refl, refl)
Has-last (mf ∷ mfs) path is_status = inr (Has-last mfs path is_status)

IsDistinct-append :
    (mfs : List MonitoredFile) (mf : MonitoredFile)
    → All (λ g. g.path ≢ mf.path) mfs
    → IsDistinct mfs
    → IsDistinct (mfs ++ mf ∷ [])
IsDistinct-append [] mf h d = (tt, tt)
IsDistinct-append (g ∷ mfs) mf h d =
    (All-append _ mfs _ d.0 ((λ e. h.0 (sym e)), tt), IsDistinct-append mfs mf h.1 d.1)

same_type-true : (a b : Bool) → same_type a b ≡ true → a ≡ b
same_type-true true true e = refl
same_type-true true false e = cc
same_type-true false true e = cc
same_type-true false false e = refl

-- What the search for a path means.
abbrev IsFound : Bytes → Bool → List MonitoredFile → Bool → Type 0
IsFound path is_status mfs true = Has mfs (path, is_status)
IsFound path is_status mfs false = All (λ g. g.path ≢ path) mfs

IsFound-cons :
    (path : Bytes) (is_status : Bool) (mf : MonitoredFile) (mfs : List MonitoredFile) (b : Bool)
    → bytes_eq mf.path path ≡ false
    → IsFound path is_status mfs b
    → IsFound path is_status (mf ∷ mfs) b
IsFound-cons path is_status mf mfs true e h = inr h
IsFound-cons path is_status mf mfs false e h = ((λ p. cc (e, (bytes_eq_iff mf.path path).1 p)), h)

find_monitored-IsFound :
    (path : Bytes) (is_status : Bool) (mfs : List MonitoredFile) (b : Bool)
    → find_monitored path is_status mfs ≡ some b
    → IsFound path is_status mfs b
unfolding find_monitored
find_monitored-IsFound path is_status [] true e = cc
find_monitored-IsFound path is_status [] false e = tt
find_monitored-IsFound path is_status (mf ∷ mfs) b e = elim (Bool-cases (bytes_eq mf.path path)) [
  | inl h ↦
      let (same, found) = if-some (same_type mf.is_status is_status) true b (rw h at e) in
      subst (IsFound path is_status (mf ∷ mfs)) found
        (inl ((bytes_eq_iff mf.path path).0 h, same_type-true mf.is_status is_status same))
  | inr h ↦
      IsFound-cons path is_status mf mfs b h
        (find_monitored-IsFound path is_status mfs b (rw h at e))
]

-- The monitored files after some of the files of the notifications.
pub record IsMerged (mfs : List MonitoredFile) : Type 0 where
  pub distinct : IsDistinct mfs
  pub unread : All IsNew mfs

-- From one list to another nothing is lost, and so many files are new at most.
record Extends (mfs : List MonitoredFile) (k : ℕ) (mfs' : List MonitoredFile) : Type 0 where
  merged : IsMerged mfs'
  keeps : (f : Bytes × Bool) → Has mfs f → Has mfs' f
  longer : length mfs' ≤ length mfs + k

add_unless-Extends :
    (fs : ConfigFs) (path : Bytes) (is_status : Bool) (mfs : List MonitoredFile) (b : Bool)
    (mfs' : List MonitoredFile)
    → add_unless fs path is_status mfs b ≡ some mfs'
    → IsFound path is_status mfs b
    → IsMerged mfs
    → Extends mfs 1 mfs' × Has mfs' (path, is_status)
add_unless-Extends fs path is_status mfs true mfs' e h v =
    subst (λ r. Extends mfs 1 r × Has r (path, is_status)) (some-inj e)
      (record { merged = v; keeps = λ f k. k; longer = omega arith }, h)
add_unless-Extends fs path is_status mfs false mfs' e h v =
    let (_, e1) = guard-some (fs.memory (length path + 1)) _ mfs' e in
    let new = new_monitored path is_status in
    subst (λ r. Extends mfs 1 r × Has r (path, is_status)) (some-inj e1)
      (
        record {
          merged = record {
            distinct = IsDistinct-append mfs new h v.distinct;
            unread = All-append IsNew mfs _ v.unread ((refl, refl, refl), tt);
          };
          keeps = Has-append mfs (new ∷ []);
          longer = omega (arith, length-append mfs (new ∷ []));
        },
        Has-last mfs path is_status,
      )

abbrev pub HasAll : List MonitoredFile → List (Bytes × Bool) → Type 0
HasAll mfs = All (Has mfs)

HasAll-keeps :
    (mfs mfs' : List MonitoredFile) (files : List (Bytes × Bool))
    → ((f : Bytes × Bool) → Has mfs f → Has mfs' f)
    → HasAll mfs files
    → HasAll mfs' files
HasAll-keeps mfs mfs' [] k h = tt
HasAll-keeps mfs mfs' (f ∷ files) k h = (k f h.0, HasAll-keeps mfs mfs' files k h.1)

-- The files of all the notifications, as a bound.
abbrev pub num_files : List Notification → ℕ
num_files [] = 0
num_files (n ∷ ns) = length n.monitored_files + num_files ns

add_monitored-Extends :
    (fs : ConfigFs) (files : List (Bytes × Bool)) (mfs mfs' : List MonitoredFile)
    → add_monitored fs files mfs ≡ some mfs'
    → IsMerged mfs
    → Extends mfs (length files) mfs' × HasAll mfs' files
unfolding add_monitored
add_monitored-Extends fs [] mfs mfs' e v =
    subst (λ r. Extends mfs 0 r × HasAll r []) (some-inj e)
      (record { merged = v; keeps = λ f k. k; longer = omega arith }, tt)
add_monitored-Extends fs ((path, is_status) ∷ files) mfs mfs' e v =
    let (exists, found, e1) = >>=-some (find_monitored path is_status mfs) _ mfs' e in
    let (m, added, e2) = >>=-some (add_unless fs path is_status mfs exists) _ mfs' e1 in
    let (one, here) =
      add_unless-Extends fs path is_status mfs exists m added
        (find_monitored-IsFound path is_status mfs exists found) v in
    let (more, rest) = add_monitored-Extends fs files m mfs' e2 one.merged in
    (
      record {
        merged = more.merged;
        keeps = λ f h. more.keeps f (one.keeps f h);
        longer = omega (arith, one.longer, more.longer);
      },
      (more.keeps (path, is_status) here, rest),
    )

-- Whatever is loaded from the notifications: each of their files is monitored as what it is said to
-- be, no path twice, and no more files than they name in all.
pub record IsCovering (ns : List Notification) (mfs : List MonitoredFile) : Type 0 where
  pub merged : IsMerged mfs
  pub covers : All (λ n. HasAll mfs n.monitored_files) ns
  pub few : length mfs ≤ num_files ns

add_all_monitored-Extends :
    (fs : ConfigFs) (ns : List Notification) (mfs mfs' : List MonitoredFile)
    → add_all_monitored fs ns mfs ≡ some mfs'
    → IsMerged mfs
    → Extends mfs (num_files ns) mfs' × All (λ n. HasAll mfs' n.monitored_files) ns
unfolding add_all_monitored
add_all_monitored-Extends fs [] mfs mfs' e v =
    subst (λ r. Extends mfs 0 r × Unit {0}) (some-inj e)
      (record { merged = v; keeps = λ f k. k; longer = omega arith }, tt)
add_all_monitored-Extends fs (n ∷ ns) mfs mfs' e v =
    let (m, added, e1) = >>=-some (add_monitored fs n.monitored_files mfs) _ mfs' e in
    let (one, here) = add_monitored-Extends fs n.monitored_files mfs m added v in
    let (more, rest) = add_all_monitored-Extends fs ns m mfs' e1 one.merged in
    (
      record {
        merged = more.merged;
        keeps = λ f h. more.keeps f (one.keeps f h);
        longer = omega (arith, one.longer, more.longer);
      },
      (HasAll-keeps m mfs' n.monitored_files more.keeps here, rest),
    )

pub add_all_monitored-IsCovering :
    (fs : ConfigFs) (ns : List Notification) (mfs : List MonitoredFile)
    → add_all_monitored fs ns [] ≡ some mfs
    → IsCovering ns mfs
add_all_monitored-IsCovering fs ns mfs e =
    let (all, covers) =
      add_all_monitored-Extends fs ns [] mfs e (record { distinct = tt; unread = tt }) in
    record { merged = all.merged; covers = covers; few = omega (arith, all.longer) }
