-- ===== src/Tests/Conversions.antt =====
-- The conversions on concrete strings.
use docker_baseimage.Base.{
  ℕ, ◌≡◌, ◌-◌, refl, [], ◌∷◌, Option, none, some, ltb, if◌then◌else◌, arith,
}
use docker_baseimage.Text.{Bytes, codes}
use docker_baseimage.Exception.{ok, throw, out_of_range}
use docker_baseimage.Convert.{string_to_uint, uint_mod, ulong_mod}
use docker_baseimage.Convert.Digits.{IsNumeral, value}
use docker_baseimage.Convert.Numbers.{string_to_uint-numeral, string_to_uint_wraps}

string_to_uint-numeral_example : string_to_uint (codes "10000") ≡ (
    if ltb (value 10 (codes "10000")) uint_mod
    then ok (value 10 (codes "10000"))
    else throw out_of_range)
string_to_uint-numeral_example =
    string_to_uint-numeral (codes "10000") (λ e. cc, (refl, (refl, (refl, (refl, (refl, tt))))))

forty_two : string_to_uint (codes "42") ≡ ok 42
unfolding string_to_uint
forty_two = refl

abbrev large : Bytes
large = codes "18446744073709551615"

large-IsNumeral : IsNumeral 10 large
large-IsNumeral = (λ e. cc, ground arith)

string_to_uint_wraps_example : string_to_uint (b'-' ∷ large) ≡ ok (ulong_mod - value 10 large)
string_to_uint_wraps_example =
    string_to_uint_wraps large large-IsNumeral (omega arith) (omega arith)

abbrev users : Bytes → Option ℕ
users [] = none
users (c ∷ s) = some 33
