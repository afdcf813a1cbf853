-- ===== src/Values/Files.antt =====
-- `read_file` into a buffer.
use docker_baseimage.Base.{
  ℕ, ◌-◌, ◌<◌, ◌≡◌, refl, ap, true, false, [], ◌∷◌, some, arith, ltb, ◌==◌, if◌then◌else◌, length,
  take_all, length-take, All,
}
use docker_baseimage.Text.{Bytes}
use docker_baseimage.Exception.{ok, throw, buffer_too_small}
use docker_baseimage.Values.{System, into, c_string, read_opened, read_file}

abbrev pub HasNoNul : Bytes → Type 0
HasNoNul = All (λ c. (c == 0) ≡ false)

pub c_string_fixed : (s : Bytes) → HasNoNul s → c_string s ≡ s
c_string_fixed [] h = refl
c_string_fixed (c ∷ s) h = rw h.0 (ap (◌∷◌ c) (c_string_fixed s h.1))

read_opened_into :
    (sys : System) (path content old : Bytes) (size : ℕ)
    → 0 < size
    → sys.read_succeeds path ≡ true
    → HasNoNul content
    → read_opened sys path content (into size old)
      ≡ (if ltb (length content) size then ok content else throw buffer_too_small)
unfolding read_opened
read_opened_into sys path content old size pos r h = ground (
  arith,
  r,
  take_all (size - 1) content,
  length-take (size - 1) content,
  c_string_fixed content h,
)

-- A file that can be read and holds no NUL goes into a buffer that is not empty whole if there is
-- room for it and the NUL, and is an error otherwise.
pub read_file_into :
    (sys : System) (path content old : Bytes) (size : ℕ)
    → sys.open_file path ≡ some content
    → sys.read_succeeds path ≡ true
    → HasNoNul content
    → 0 < size
    → read_file sys path (into size old)
      ≡ (if ltb (length content) size then ok content else throw buffer_too_small)
unfolding read_file
read_file_into sys path content old size o r h pos =
    rw (o, read_file) (read_opened_into sys path content old size pos r h)
