-- ===== src/Text.antt =====
-- Byte strings, and the string helpers of src/cinit/utils.c and of cinit.c. A C string is the list
-- of its bytes before the terminating NUL; a helper that writes in place returns the new contents.
pub mod Trim
pub mod Chars
pub mod Split
use Prim.Native.Char.{code}
use Prim.Native.String.{String}
use docker_baseimage.Base.{
  ℕ, zero, suc, ◌+◌, ◌-◌, Bool, true, false, ◌&&◌, ◌||◌, List, [], ◌∷◌, ◌++◌, leb, ◌==◌,
  if◌then◌else◌, length, get_or, take, drop,
}

abbrev pub Bytes : Type 0
Bytes = List ℕ

-- The bytes of a literal in the source.
abbrev pub codes : String → Bytes
codes String.[] = []
codes (String.◌∷◌ c s) = code c ∷ codes s

-- strcmp(a, b) == 0
abbrev pub bytes_eq : Bytes → Bytes → Bool
bytes_eq [] [] = true
bytes_eq (x ∷ a) (y ∷ b) = x == y && bytes_eq a b
bytes_eq _ _ = false

-- tolower, in the C locale.
abbrev pub to_lower : ℕ → ℕ
to_lower c = if leb b'A' c && leb c b'Z' then c + 32 else c

-- strcasecmp(a, b) == 0
abbrev pub bytes_case_eq : Bytes → Bytes → Bool
bytes_case_eq [] [] = true
bytes_case_eq (x ∷ a) (y ∷ b) = to_lower x == to_lower y && bytes_case_eq a b
bytes_case_eq _ _ = false

-- isspace: space, \t, \n, \v, \f and \r.
abbrev pub is_space : ℕ → Bool
is_space c = c == 32 || (leb 9 c && leb c 13)

abbrev pub is_digit : ℕ → Bool
is_digit c = leb b'0' c && leb c b'9'

abbrev pub is_alpha : ℕ → Bool
is_alpha c = (leb b'a' c && leb c b'z') || (leb b'A' c && leb c b'Z')

abbrev pub is_alnum : ℕ → Bool
is_alnum c = is_alpha c || is_digit c

abbrev pub is_eol : ℕ → Bool
is_eol c = c == b'\n' || c == b'\r'

-- while (l > 0 && drop(p[l - 1])) p[--l] = 0;
unfoldable pub trim_end : (ℕ → Bool) → Bytes → ℕ → Bytes
trim_end p s zero = []
trim_end p s (suc l) = if p (get_or s l 0) then trim_end p s l else take (suc l) s

-- while (*p && drop(*p)) ++p, --l;
unfoldable pub trim_start : (ℕ → Bool) → Bytes → Bytes
trim_start p [] = []
trim_start p (c ∷ s) = if p c then trim_start p s else c ∷ s

-- The two loops that `trim` and `trim_char` share, on the bytes to drop.
unfoldable pub trim_by : (ℕ → Bool) → Bytes → Bytes
unfolding trim_end trim_start
trim_by p s = trim_start p (trim_end p s (length s))

unfoldable pub trim : Bytes → Bytes
unfolding trim_by
trim = trim_by is_space

unfoldable pub trim_char : Bytes → ℕ → Bytes
unfolding trim_by
trim_char s c = trim_by (λ b. b == c) s

unfoldable pub terminate_at_first_eol : Bytes → Bytes
terminate_at_first_eol [] = []
terminate_at_first_eol (c ∷ s) = if is_eol c then [] else c ∷ terminate_at_first_eol s

-- The call on `s + 1`. Where the string has become empty, `s + 1` still is in the buffer and holds
-- the NUL that the last shift left behind, so that call returns at once.
abbrev at_next : (Bytes → Bytes) → Bytes → Bytes
at_next f [] = []
at_next f (c ∷ s) = c ∷ f s

-- s[0] == s[1] && s[0] == c, at a string that begins with `x` and goes on with `s`.
abbrev pub is_duplicated : ℕ → ℕ → Bytes → Bool
is_duplicated c x [] = false
is_duplicated c x (y ∷ s) = x == y && x == c

-- The fuel bounds the depth of the calls.
unfoldable pub remove_duplicated_fuel : ℕ → Bytes → ℕ → Bytes
remove_duplicated_fuel zero s c = s
remove_duplicated_fuel (suc f) [] c = []
remove_duplicated_fuel (suc f) (x ∷ s) c =
    at_next (λ t. remove_duplicated_fuel f t c)
      (elim (is_duplicated c x s) [ true ↦ remove_duplicated_fuel f s c | false ↦ x ∷ s ])

unfoldable pub remove_duplicated_char : Bytes → ℕ → Bytes
unfolding remove_duplicated_fuel
remove_duplicated_char s c = remove_duplicated_fuel (length s) s c

unfoldable pub remove_all_fuel : ℕ → Bytes → ℕ → Bytes
remove_all_fuel zero s c = s
remove_all_fuel (suc f) [] c = []
remove_all_fuel (suc f) (x ∷ s) c =
    at_next (λ t. remove_all_fuel f t c)
      (elim (x == c) [ true ↦ remove_all_fuel f s c | false ↦ x ∷ s ])

unfoldable pub remove_all_char : Bytes → ℕ → Bytes
unfolding remove_all_fuel
remove_all_char s c = remove_all_fuel (length s) s c

-- The first loop of `split`: one token more than there are delimiters.
unfoldable pub count_tokens : Bytes → ℕ → ℕ
count_tokens [] c = 1
count_tokens (x ∷ s) c = if x == c then suc (count_tokens s c) else count_tokens s c

-- The second loop: the token that begins at the head of the string, whose bytes so far are `tok`
-- in order, and the tokens after it. A delimiter at the very end opens no token.
unfoldable pub fill_tokens : Bytes → Bytes → ℕ → List Bytes
fill_tokens [] tok c = tok ∷ []
fill_tokens (x ∷ []) tok c = (if x == c then tok else tok ++ x ∷ []) ∷ []
fill_tokens (x ∷ y ∷ s) tok c = elim (x == c) [
  | true ↦ tok ∷ fill_tokens (y ∷ s) [] c
  | false ↦ fill_tokens (y ∷ s) (tok ++ x ∷ []) c
]

-- The tokens that the vector points to; `plus` and `ofs` are 0 at every call.
unfoldable pub split : Bytes → ℕ → List Bytes
unfolding remove_duplicated_char fill_tokens
split buf c = fill_tokens (remove_duplicated_char buf c) [] c

unfoldable pub ends_with : Bytes → Bytes → Bool
ends_with str suffix =
    leb (length suffix) (length str) && bytes_eq (drop (length str - length suffix) str) suffix
