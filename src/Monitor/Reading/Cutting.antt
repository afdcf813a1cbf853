-- ===== src/Monitor/Reading/Cutting.antt =====
-- The lines of a stream, as its bytes come.
use docker_baseimage.Base.{
  ℕ, ◌<◌, ◌≡◌, refl, sym, ap, ◌∙◌, inl, inr, true, false, List, [], ◌∷◌, ◌++◌, append-nil,
  append_assoc, Option, none, some, arith, ◌==◌, if◌then◌else◌, length, All, Bool-cases,
}
use docker_baseimage.Text.{Bytes}
use docker_baseimage.Monitor.{MonitorOs, Watch}
use docker_baseimage.Monitor.Reading.{after_byte, cut_at_newline, less_cr, handle_nonempty}

-- The lines of a stream that end in a newline; `cur` is the line begun so far.
unfoldable pub whole : Bytes → Bytes → List Bytes
whole cur [] = []
whole cur (c ∷ s) = if c == b'\n' then cur ∷ whole [] s else whole (cur ++ c ∷ []) s

-- The line begun after the last newline.
unfoldable pub unfinished : Bytes → Bytes → Bytes
unfinished cur [] = cur
unfinished cur (c ∷ s) = if c == b'\n' then unfinished [] s else unfinished (cur ++ c ∷ []) s

-- A buffer is kept only for a line begun.
abbrev pub leftover : Bytes → Option Bytes
leftover [] = none
leftover (c ∷ s) = some (c ∷ s)

-- `handle_line` for one line after another: each less a '\r' at its end, the empty ones not at all.
unfoldable pub handle_all : MonitorOs → ℕ → List Bytes → Watch → Watch
handle_all os mfid [] w = w
handle_all os mfid (l ∷ ls) w = handle_all os mfid ls (handle_nonempty os mfid (less_cr l) w)

pub whole-append :
    (cur s t : Bytes) → whole cur (s ++ t) ≡ whole cur s ++ whole (unfinished cur s) t
unfolding whole unfinished
whole-append cur [] t = refl
whole-append cur (c ∷ s) t = ground (arith, whole-append [] s t, whole-append (cur ++ c ∷ []) s t)

pub unfinished-append :
    (cur s t : Bytes) → unfinished cur (s ++ t) ≡ unfinished (unfinished cur s) t
unfolding unfinished
unfinished-append cur [] t = refl
unfinished-append cur (c ∷ s) t =
    ground (arith, unfinished-append [] s t, unfinished-append (cur ++ c ∷ []) s t)

abbrev pub HasNoNewline : Bytes → Type 0
HasNoNewline = All (λ c. (c == b'\n') ≡ false)

-- What the search for a newline means for the stream.
abbrev pub IsCut : Bytes → Bytes → Option (Bytes × Bytes) → Type 0
IsCut cur work none = (whole cur work ≡ []) × (unfinished cur work ≡ cur ++ work)
IsCut cur work (some (line, rest)) =
    (whole cur work ≡ (cur ++ line) ∷ whole [] rest)
    × (unfinished cur work ≡ unfinished [] rest)
    × (length rest < length work)

IsCut-newline :
    (cur : Bytes) (c : ℕ) (s : Bytes) → (c == b'\n') ≡ true → IsCut cur (c ∷ s) (some ([], s))
unfolding whole unfinished
IsCut-newline cur c s e =
    (rw e (ap (λ l. l ∷ whole [] s) (sym (append-nil cur))), rw e refl, omega arith)

IsCut-after_byte :
    (cur : Bytes) (c : ℕ) (s : Bytes) (o : Option (Bytes × Bytes))
    → (c == b'\n') ≡ false
    → IsCut (cur ++ c ∷ []) s o
    → IsCut cur (c ∷ s) (after_byte c o)
unfolding whole unfinished
IsCut-after_byte cur c s none e h = (rw e h.0, rw e (h.1 ∙ append_assoc cur (c ∷ []) s))
IsCut-after_byte cur c s (some (line, rest)) e h = (
  rw e (h.0 ∙ ap (λ l. l ∷ whole [] rest) (append_assoc cur (c ∷ []) line)),
  rw e h.1,
  omega (arith, h.2),
)

IsCut-nil : (cur : Bytes) → IsCut cur [] none
unfolding whole unfinished
IsCut-nil cur = (refl, sym (append-nil cur))

pub cut_at_newline-IsCut : (cur work : Bytes) → IsCut cur work (cut_at_newline work)
unfolding cut_at_newline
cut_at_newline-IsCut cur [] = IsCut-nil cur
cut_at_newline-IsCut cur (c ∷ s) = elim (Bool-cases (c == b'\n')) [
  | inl e ↦ rw e (IsCut-newline cur c s e)
  | inr e ↦ rw e (IsCut-after_byte cur c s _ e (cut_at_newline-IsCut (cur ++ c ∷ []) s))
]
