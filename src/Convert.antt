-- ===== src/Convert.antt =====
-- The conversions of src/cinit/utils.c, from a string to a Boolean, a number, an interval, a user,
-- a group or a mode. `long` has 64 bits and `int` has 32.
pub mod Digits
pub mod Numbers
pub mod Names
use docker_baseimage.Base.{
  ℕ, ◌+◌, ◌-◌, ◌*◌, ◌%◌, ◌^◌, Bool, true, false, not, ◌&&◌, ◌||◌, List, [], ◌∷◌, Option, none, some,
  ltb, leb, ◌==◌, if◌then◌else◌,
}
use docker_baseimage.Base.Int.{ℤ, pos, negsuc, neg_ℕ}
use docker_baseimage.Text.{Bytes, codes, bytes_eq, bytes_case_eq, is_space, is_digit, trim_start}
use docker_baseimage.Exception.{
  Result, ok, throw, not_a_boolean, not_a_number, out_of_range, unknown_user, unknown_group,
}

unfoldable pub string_to_bool : Bytes → Result Bool
string_to_bool str =
    if bytes_eq str (codes "1")
      || bytes_case_eq str (codes "true")
      || bytes_case_eq str (codes "on")
      || bytes_case_eq str (codes "yes")
      || bytes_case_eq str (codes "y")
      || bytes_case_eq str (codes "enable")
      || bytes_case_eq str (codes "enabled")
    then ok true
    else if bytes_eq str (codes "0")
        || bytes_case_eq str (codes "false")
        || bytes_case_eq str (codes "off")
        || bytes_case_eq str (codes "no")
        || bytes_case_eq str (codes "n")
        || bytes_case_eq str (codes "disable")
        || bytes_case_eq str (codes "disabled")
    then ok false
    else throw not_a_boolean

-- What strtol and strtoul read: the digits' value, whether there was a digit and a minus sign, and
-- the text from `endptr` on (all of it where there was no digit).
pub record Scanned : Type 0 where
  pub magnitude : ℕ
  pub negative : Bool
  pub converted : Bool
  pub rest : Bytes

abbrev pub is_digit_of : ℕ → ℕ → Bool
is_digit_of base c = leb b'0' c && ltb c (b'0' + base)

pub scan_digits : ℕ → Bool → ℕ → Bool → Bytes → Scanned
scan_digits base neg acc seen [] = record {
  magnitude = acc;
  negative = neg;
  converted = seen;
  rest = [];
}
scan_digits base neg acc seen (c ∷ s) =
    if is_digit_of base c
    then scan_digits base neg (acc * base + (c - b'0')) true s
    else record { magnitude = acc; negative = neg; converted = seen; rest = c ∷ s }

pub scan_sign : ℕ → Bytes → Scanned
unfolding scan_digits
scan_sign base [] = scan_digits base false 0 false []
scan_sign base (c ∷ s) =
    if c == b'-'
    then scan_digits base true 0 false s
    else if c == b'+'
    then scan_digits base false 0 false s
    else scan_digits base false 0 false (c ∷ s)

-- White space, a sign, digits.
unfoldable pub scan_number : ℕ → Bytes → Scanned
unfolding scan_sign trim_start
scan_number base str = scan_sign base (trim_start is_space str)

abbrev pub ulong_mod : ℕ
ulong_mod = 18446744073709551616

abbrev pub long_half : ℕ
long_half = 9223372036854775808

abbrev pub uint_mod : ℕ
uint_mod = 4294967296

abbrev pub int_half : ℕ
int_half = 2147483648

-- The value that strtoul returns: a minus sign negates it in the unsigned type.
abbrev pub strtoul_value : Scanned → ℕ
strtoul_value n =
    if leb ulong_mod n.magnitude
    then ulong_mod - 1
    else if n.negative
    then (ulong_mod - n.magnitude) % ulong_mod
    else n.magnitude

-- errno == ERANGE after strtoul
abbrev pub strtoul_range : Scanned → Bool
strtoul_range n = leb ulong_mod n.magnitude

-- The checks that follow strtoul, up to UINT_MAX.
pub checked_uint : Scanned → Result ℕ
checked_uint n =
    if not n.converted
    then throw not_a_number
    else if not (bytes_eq n.rest [])
    then throw not_a_number
    else if strtoul_value n == ulong_mod - 1 && strtoul_range n
    then throw out_of_range
    else if ltb (uint_mod - 1) (strtoul_value n)
    then throw out_of_range
    else ok (strtoul_value n)

unfoldable pub string_to_uint : Bytes → Result ℕ
unfolding checked_uint scan_number
string_to_uint str = checked_uint (scan_number 10 str)

-- The value that strtol returns, clamped to LONG_MIN and LONG_MAX.
abbrev pub strtol_value : Scanned → ℤ
strtol_value n =
    if n.negative
    then neg_ℕ (if ltb long_half n.magnitude then long_half else n.magnitude)
    else pos (if leb long_half n.magnitude then long_half - 1 else n.magnitude)

abbrev pub strtol_range : Scanned → Bool
strtol_range n = if n.negative then ltb long_half n.magnitude else leb long_half n.magnitude

-- val == LONG_MIN || val == LONG_MAX
abbrev is_long_limit : ℤ → Bool
is_long_limit (pos n) = n == long_half - 1
is_long_limit (negsuc n) = n == long_half - 1

-- val > INT_MAX || val < INT_MIN
abbrev exceeds_int : ℤ → Bool
exceeds_int (pos n) = leb int_half n
exceeds_int (negsuc n) = leb int_half n

pub checked_int : Scanned → Result ℤ
checked_int n =
    if not n.converted
    then throw not_a_number
    else if not (bytes_eq n.rest [])
    then throw not_a_number
    else if is_long_limit (strtol_value n) && strtol_range n
    then throw out_of_range
    else if exceeds_int (strtol_value n)
    then throw out_of_range
    else ok (strtol_value n)

unfoldable pub string_to_int : Bytes → Result ℤ
unfolding checked_int scan_number
string_to_int str = checked_int (scan_number 10 str)

-- The number of seconds.
unfoldable pub string_to_interval : Bytes → Result ℕ
string_to_interval str =
    if bytes_case_eq str (codes "yearly")
    then ok (60 * 60 * 24 * 365)
    else if bytes_case_eq str (codes "monthly")
    then ok (60 * 60 * 24 * 30)
    else if bytes_case_eq str (codes "weekly")
    then ok (60 * 60 * 24 * 7)
    else if bytes_case_eq str (codes "daily")
    then ok (60 * 60 * 24)
    else if bytes_case_eq str (codes "hourly")
    then ok (60 * 60)
    else string_to_uint str

abbrev pub all_digits : Bytes → Bool
all_digits [] = true
all_digits (c ∷ s) = is_digit c && all_digits s

abbrev pub digits_only : Bytes → Bool
digits_only [] = false
digits_only (c ∷ s) = all_digits (c ∷ s)

abbrev or_throw {ℓ} : {A : Type ℓ} → Option A → Result A → Result A
or_throw none r = r
or_throw (some a) r = ok a

-- `getpwnam` is the user database: the uid of a name.
unfoldable pub string_to_uid : (Bytes → Option ℕ) → Bytes → Result ℕ
string_to_uid getpwnam str =
    if digits_only str
    then string_to_uint str
    else or_throw (getpwnam str) (throw (unknown_user str))

unfoldable pub string_to_gid : (Bytes → Option ℕ) → Bytes → Result ℕ
string_to_gid getgrnam str =
    if digits_only str
    then string_to_uint str
    else or_throw (getgrnam str) (throw (unknown_group str))

-- The last check of `string_to_mode`.
pub checked_mode : Result ℕ → Result ℕ
checked_mode (throw e) = throw e
checked_mode (ok val) = if ltb 0o777 val then throw out_of_range else ok val

unfoldable pub string_to_mode : Bytes → Result ℕ
unfolding checked_mode checked_uint scan_number
string_to_mode str = checked_mode (checked_uint (scan_number 8 str))
