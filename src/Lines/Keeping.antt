-- ===== src/Lines/Keeping.antt =====
-- One pass over any number of descriptors: none loses a line to another.
use docker_baseimage.Base.{
  ℕ, suc, ◌<◌, ◌≡◌, ◌≢◌, refl, ap, ◌∙◌, ◌⊎◌, inl, inr, false, List, [], ◌∷◌, ◌++◌, append-nil,
  Option, none, some, arith, ◌==◌, ==_refl, if◌then◌else◌, All,
}
use docker_baseimage.Text.{Bytes}
use docker_baseimage.Lines.{Fd, FdEvent, hangup, poll_fd}
use docker_baseimage.Lines.Chunks.{IsTidy, remaining, Conserves, ConservesIn, poll_fd-Conserves}
use docker_baseimage.Lines.Tagged.{tagged, Polled, with_first, poll_fds_from}

-- The lines of one descriptor.
unfoldable pub lines_of : ℕ → List (ℕ × Bytes) → List Bytes
lines_of i [] = []
lines_of i ((j, l) ∷ ls) = let rest = lines_of i ls in if j == i then l ∷ rest else rest

pub lines_of-append :
    (i : ℕ) (a b : List (ℕ × Bytes)) → lines_of i (a ++ b) ≡ lines_of i a ++ lines_of i b
unfolding lines_of
lines_of-append i [] b = refl
lines_of-append i ((j, l) ∷ a) b = ground (arith, lines_of-append i a b)

lines_of-tagged : (i : ℕ) (ls : List Bytes) → lines_of i (tagged i ls) ≡ ls
unfolding lines_of
lines_of-tagged i [] = refl
lines_of-tagged i (l ∷ ls) = rw (==_refl i) (ap (◌∷◌ l) (lines_of-tagged i ls))

lines_of-other : (i j : ℕ) (ls : List Bytes) → j ≢ i → lines_of i (tagged j ls) ≡ []
unfolding lines_of
lines_of-other i j [] h = refl
lines_of-other i j (l ∷ ls) h =
    let differ : (j == i) ≡ false = ground (arith, h) in rw differ (lines_of-other i j ls h)

-- Each descriptor's lines given out and to come are those to come before, from the place `i` on.
pub record Keeps (i : ℕ) (ls : List (ℕ × Bytes)) (fd fd' : Fd) : Type 0 where
  pub same : lines_of i ls ++ remaining fd' ≡ remaining fd
  pub tidy : IsTidy fd'
  pub still_open : fd'.is_open ≡ fd.is_open

abbrev pub AllKeep : ℕ → List (ℕ × Bytes) → List Fd → List Fd → Type 0
AllKeep i ls [] fds' = fds' ≡ []
AllKeep i ls (fd ∷ fds) [] = ⊥
AllKeep i ls (fd ∷ fds) (fd' ∷ fds') = Keeps i ls fd fd' × AllKeep (suc i) ls fds fds'

-- No descriptor before the place has a line among them.
abbrev pub NoneBefore : ℕ → List (ℕ × Bytes) → Type 0
NoneBefore i ls = (j : ℕ) → j < i → lines_of j ls ≡ []

-- Lines of a descriptor before it do not matter.
AllKeep-front :
    (i j : ℕ) (got : List Bytes) (ls : List (ℕ × Bytes)) (fds fds' : List Fd)
    → j < i
    → AllKeep i ls fds fds'
    → AllKeep i (tagged j got ++ ls) fds fds'
AllKeep-front i j got ls [] fds' h k = k
AllKeep-front i j got ls (fd ∷ fds) [] h k = k
AllKeep-front i j got ls (fd ∷ fds) (fd' ∷ fds') h (k, ks) = (
  record {
    same =
        ap (λ l. l ++ remaining fd')
          (lines_of-append i (tagged j got) ls
            ∙ ap (λ l. l ++ lines_of i ls) (lines_of-other i j got (λ e. omega (arith, e, h))))
        ∙ k.same;
    tidy = k.tidy;
    still_open = k.still_open;
  },
  AllKeep-front (suc i) j got ls fds fds' (omega (arith, h)) ks,
)

abbrev pub AllTidy : List Fd → Type 0
AllTidy = All IsTidy

-- POLLHUP without POLLIN is told only of a descriptor from which all was read.
abbrev pub AllDrained : List Fd → List FdEvent → Type 0
AllDrained [] es = Unit {0}
AllDrained (fd ∷ fds) [] = Unit {0}
AllDrained (fd ∷ fds) (e ∷ es) = (e ≡ hangup → fd.pending ≡ []) × AllDrained fds es

-- What a pass that did not fail has done.
pub record IsKept (i : ℕ) (fds : List Fd) (r : Polled) : Type 0 where
  pub before : NoneBefore i r.1
  pub all : (r.0 ≡ false) ⊎ AllKeep i r.1 fds r.2

Keeps-first :
    (i : ℕ) (fd fd' : Fd) (got : List Bytes) (ls : List (ℕ × Bytes))
    → NoneBefore (suc i) ls
    → Conserves fd got fd'
    → Keeps i (tagged i got ++ ls) fd fd'
Keeps-first i fd fd' got ls none_before c = record {
  same =
      ap (λ l. l ++ remaining fd')
        (lines_of-append i (tagged i got) ls
          ∙ ap (◌++◌ (lines_of i (tagged i got))) (none_before i (omega arith))
          ∙ append-nil _
          ∙ lines_of-tagged i got)
      ∙ c.lines_same;
  tidy = c.tidy;
  still_open = c.still_open;
}

NoneBefore-front :
    (i : ℕ) (got : List Bytes) (ls : List (ℕ × Bytes))
    → NoneBefore (suc i) ls
    → NoneBefore i (tagged i got ++ ls)
NoneBefore-front i got ls h j lt =
    lines_of-append j (tagged i got) ls
    ∙ ap (λ l. l ++ lines_of j ls) (lines_of-other j i got (λ e. omega (arith, e, lt)))
    ∙ h j (omega (arith, lt))

with_first-IsKept :
    (i : ℕ) (fd : Fd) (fds : List Fd) (o : Option (List Bytes × Fd)) (rest : Polled)
    → ConservesIn fd o
    → IsKept (suc i) fds rest
    → IsKept i (fd ∷ fds) (with_first i fd fds o rest)
unfolding lines_of
with_first-IsKept i fd fds none rest c k = record { before = λ j h. refl; all = inl refl }
with_first-IsKept i fd fds (some (got, fd')) (good, more, fds') c k = record {
  before = NoneBefore-front i got more k.before;
  all = elim k.all [
    | inl bad ↦ inl bad
    | inr ks ↦ inr (
      Keeps-first i fd fd' got more k.before c,
      AllKeep-front (suc i) i got more fds fds' (omega arith) ks,
    )
  ];
}

AllDrained-none : (fds : List Fd) → AllDrained fds []
AllDrained-none [] = tt
AllDrained-none (fd ∷ fds) = tt

pub poll_fds_from-IsKept :
    (i : ℕ) (fds : List Fd) (es : List FdEvent)
    → AllTidy fds
    → AllDrained fds es
    → IsKept i fds (poll_fds_from i fds es)
unfolding poll_fds_from lines_of
poll_fds_from-IsKept i [] es t d = record { before = λ j h. refl; all = inr refl }
poll_fds_from-IsKept i (fd ∷ fds) [] t d =
    let rest = poll_fds_from-IsKept (suc i) fds [] t.1 (AllDrained-none fds) in
    record {
      before = λ j h. rest.before j (omega (arith, h));
      all = elim rest.all [
        | inl bad ↦ inl bad
        | inr ks ↦ inr (
          record {
            same = ap (λ l. l ++ remaining fd) (rest.before i (omega arith));
            tidy = t.0;
            still_open = refl;
          },
          ks,
        )
      ];
    }
poll_fds_from-IsKept i (fd ∷ fds) (e ∷ es) t d =
    with_first-IsKept i fd fds (poll_fd fd e) (poll_fds_from (suc i) fds es)
      (poll_fd-Conserves fd e t.0 d.0) (poll_fds_from-IsKept (suc i) fds es t.1 d.1)
